-- ===== src/Sched/Wake.antt =====
-- The first loop of `sched_preempt` in kernel/src/sched.c: waking the sleepers.
use choco_os.Base.{
  ℕ, zero, suc, ◌<◌, ◌≡◌, refl, ◌∙◌, false, ◌==◌, ==_refl, if◌then◌else◌, some, List, [], ◌∷◌,
  arith, length, Bool-cases, inl, inr,
}
use choco_os.Sched.{Thread, Threads, store, woken, wake_loop}
use choco_os.Sched.Ring.{Leads, has, Distinct, IsRing, Leads-frame}

-- The threads of a list, woken one by one.
pub wake_all : ℕ → Threads → List ℕ → Threads
wake_all now m [] = m
wake_all now m (x ∷ xs) = wake_all now (store m x (woken now (m x))) xs

next-woken : (now : ℕ) (t : Thread) → (woken now t).next ≡ t.next
next-woken now t = ground arith

pub next-wake_all :
    (now : ℕ) (xs : List ℕ) (m : Threads) (a : ℕ) → (wake_all now m xs a).next ≡ (m a).next
unfolding wake_all store
next-wake_all now [] m a = refl
next-wake_all now (x ∷ xs) m a =
    next-wake_all now xs (store m x (woken now (m x))) a ∙ ground (arith, next-woken now (m x))

-- Each thread is woken once, and no other is touched.
pub wake_all_lem :
    (now : ℕ) (xs : List ℕ) (m : Threads) (a : ℕ)
    → Distinct xs
    → wake_all now m xs a ≡ (if has a xs then woken now (m a) else m a)
unfolding wake_all store
wake_all_lem now [] m a d = refl
wake_all_lem now (x ∷ xs) m a d =
    wake_all_lem now xs (store m x (woken now (m x))) a d.1 ∙ elim (Bool-cases (a == x)) [
      | inl e ↦ let ax : a ≡ x = ground arith in rw (ax, d.0, ==_refl x) refl
      | inr e ↦ rw e refl
    ]

next-store-woken :
    (now : ℕ) (m : Threads) (p a : ℕ) → (store m p (woken now (m p)) a).next ≡ (m a).next
unfolding store
next-store-woken now m p a = ground (arith, next-woken now (m p))

-- With a round of fuel for each thread of the ring, the loop ends having woken each.
pub wake_loop-wake_all :
    (now cur : ℕ) (xs : List ℕ) (fuel : ℕ) (m : Threads) (p : ℕ)
    → Leads m (m p).next cur xs
    → has cur xs ≡ false
    → length xs < fuel
    → wake_loop fuel now cur m p ≡ some (wake_all now m (p ∷ xs))
unfolding wake_loop wake_all
wake_loop-wake_all now cur xs zero m p l out f = absurd (omega arith)
wake_loop-wake_all now cur [] (suc fuel) m p l out f =
    rw (next-store-woken now m p p, l, ==_refl cur)
wake_loop-wake_all now cur (x ∷ xs) (suc fuel) m p l out f =
    let m1 = store m p (woken now (m p)) in
    let nx : (m1 p).next ≡ x = next-store-woken now m p p ∙ l.0 in
    let ne : (x == cur) ≡ false = ground arith in
    let rest : Leads m1 (m1 x).next cur xs =
      rw (next-store-woken now m p x)
        (Leads-frame m m1 (m x).next cur xs (λ a h. next-store-woken now m p a) l.1) in
    rw (nx, ne) (wake_loop-wake_all now cur xs fuel m1 x rest (ground arith) (omega arith))

-- Waking leaves the ring as it is.
pub wake_all-IsRing :
    (now : ℕ) (ys xs : List ℕ) (m : Threads) (r : ℕ)
    → IsRing m r xs
    → IsRing (wake_all now m ys) r xs
wake_all-IsRing now ys xs m r i = record {
  loop = Leads-frame m (wake_all now m ys) r r xs (λ a h. next-wake_all now ys m a) i.loop;
  start = i.start;
  distinct = i.distinct;
}
