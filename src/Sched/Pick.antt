-- ===== src/Sched/Pick.antt =====
-- The choice of the next thread in `sched_preempt` of kernel/src/sched.c.
use choco_os.Base.{
  ℕ, zero, suc, ◌<◌, ◌≡◌, ◌≢◌, refl, ap₂, Bool, true, false, ◌==◌, ==_refl, if◌then◌else◌, List, [],
  ◌∷◌, ◌++◌, arith, length, Bool-cases, ◌⊎◌, inl, inr,
}
use choco_os.Sched.{
  Thread, Threads, Search, found, missing, or_else, pick_loop, pick_next, not_idle, any_runnable,
}
use choco_os.Sched.Ring.{Leads, has}

-- The first thread of a list that passes the test.
abbrev pub find_first : (Thread → Bool) → Threads → List ℕ → Search
find_first test m [] = missing
find_first test m (x ∷ xs) = if test (m x) then found x else find_first test m xs

-- The order of the round: the threads behind the current one, and that one last.
abbrev pub round : ℕ → List ℕ → List ℕ
round cur xs = xs ++ (cur ∷ [])

pick_loop-find_first :
    (test : Thread → Bool) (m : Threads) (cur : ℕ) (xs : List ℕ) (fuel p : ℕ)
    → Leads m p cur xs
    → has cur xs ≡ false
    → length xs < fuel
    → pick_loop fuel test m cur p ≡ find_first test m (round cur xs)
unfolding pick_loop
pick_loop-find_first test m cur xs zero p l out f = absurd (omega arith)
pick_loop-find_first test m cur [] (suc fuel) p l out f = rw (l, ==_refl cur)
pick_loop-find_first test m cur (x ∷ xs) (suc fuel) p l out f =
    let ih = pick_loop-find_first test m cur xs fuel (m x).next l.1 (ground arith) (omega arith) in
    let ne : (x == cur) ≡ false = ground arith in rw (l.0, ne, ih) refl

-- The rule of the choice: the first thread of the round that is runnable and is not idle, or else
-- the first that is runnable.
abbrev pub round_robin : Threads → ℕ → List ℕ → Search
round_robin m cur xs =
    or_else (find_first not_idle m (round cur xs)) (find_first any_runnable m (round cur xs))

pub pick_next-round_robin :
    (m : Threads) (cur : ℕ) (xs : List ℕ) (fuel : ℕ)
    → Leads m (m cur).next cur xs
    → has cur xs ≡ false
    → length xs < fuel
    → pick_next fuel m cur ≡ round_robin m cur xs
unfolding pick_next
pick_next-round_robin m cur xs fuel l out f =
    ap₂ or_else (pick_loop-find_first not_idle m cur xs fuel (m cur).next l out f)
      (pick_loop-find_first any_runnable m cur xs fuel (m cur).next l out f)

-- What the search of a list comes to.
pub data Finds (test : Thread → Bool) (m : Threads) (xs : List ℕ) : Search → Type 0 where
  finds : {t : ℕ} → has t xs ≡ true → test (m t) ≡ true → Finds test m xs (found t)
  finds_none : ((a : ℕ) → has a xs ≡ true → test (m a) ≡ false) → Finds test m xs missing

pub find_first-Finds :
    (test : Thread → Bool) (m : Threads) (xs : List ℕ) → Finds test m xs (find_first test m xs)
find_first-Finds test m [] = finds_none (λ a h. cc)
find_first-Finds test m (x ∷ xs) = elim (Bool-cases (test (m x))) [
  | inl e ↦ rw e (finds (ground arith) e)
  | inr e ↦ rw e (skip (find_first test m xs) (find_first-Finds test m xs) e)
]
  where
    skip : (s : Search) → Finds test m xs s → test (m x) ≡ false → Finds test m (x ∷ xs) s
    skip _ (finds h t) e = finds (ground (arith)) t
    skip _ (finds_none h) e = finds_none (λ a k. elim (Bool-cases (a == x)) [
      | inl ax ↦ let q : a ≡ x = ground arith in rw q e
      | inr ax ↦ h a (rw ax at k)
    ])

-- What the choice comes to: nobody but an idle thread is passed over, and nobody is missed.
pub data Picks (m : Threads) (xs : List ℕ) : Search → Type 0 where
  picks :
      {t : ℕ}
      → has t xs ≡ true
      → any_runnable (m t) ≡ true
      → (((m t).id ≢ 0) ⊎ ((a : ℕ) → has a xs ≡ true → not_idle (m a) ≡ false))
      → Picks m xs (found t)
  picks_none : ((a : ℕ) → has a xs ≡ true → any_runnable (m a) ≡ false) → Picks m xs missing

pub round_robin-Picks :
    (m : Threads) (cur : ℕ) (xs : List ℕ) → Picks m (round cur xs) (round_robin m cur xs)
round_robin-Picks m cur xs =
    join (find_first not_idle m (round cur xs)) (find_first any_runnable m (round cur xs))
      (find_first-Finds not_idle m (round cur xs)) (find_first-Finds any_runnable m (round cur xs))
  where
    join :
        (s t : Search)
        → Finds not_idle m (round cur xs) s
        → Finds any_runnable m (round cur xs) t
        → Picks m (round cur xs) (or_else s t)
    join _ t (finds h e) k = picks h (ground arith) (inl (λ z. ground arith))
    join _ _ (finds_none h) (finds i e) = picks i e (inr h)
    join _ _ (finds_none h) (finds_none i) = picks_none i

-- A search that comes to the last thread of the round has passed over all others.
pub find_first-last :
    (test : Thread → Bool) (m : Threads) (cur : ℕ) (xs : List ℕ) (a : ℕ)
    → find_first test m (round cur xs) ≡ found cur
    → has cur xs ≡ false
    → has a xs ≡ true
    → test (m a) ≡ false
find_first-last test m cur [] a e out h = cc
find_first-last test m cur (x ∷ xs) a e out h = ground (arith, find_first-last test m cur xs a)
