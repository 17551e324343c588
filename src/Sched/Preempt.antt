-- ===== src/Sched/Preempt.antt =====
-- `sched_preempt` of kernel/src/sched.c as a whole.
use choco_os.Base.{
  ℕ, ◌<◌, ◌≡◌, ◌≢◌, refl, ap, subst, sym, ◌∙◌, Bool, true, false, ◌||◌, ◌==◌, Option, some, List,
  [], ◌∷◌, arith, length, Bool-cases, ◌⊎◌, inl, inr, true≢false,
}
use choco_os.Sched.{
  Thread, Threads, Sched, null, is_running, is_zombie, woken, not_idle, any_runnable, Search, found,
  or_else, pick_next, switch_to, dispatch, sched_preempt, wake_loop, reap_zombies,
}
use choco_os.Sched.Ring.{has, IsRing-rotate, has-append}
use choco_os.Sched.Wake.{wake_loop-wake_all, wake_all-IsRing}
use choco_os.Sched.Reap.{reap_zombies-Reaps}
use choco_os.Sched.Pick.{
  round, find_first, round_robin, pick_next-round_robin, Picks, picks, picks_none,
  round_robin-Picks, find_first-last, Finds, finds, finds_none, find_first-Finds,
}
use choco_os.Sched.Switch.{
  IsSched, Prepared, woken_all, woken_keeps, Reaps-Prepared, switched, switched-IsSched,
  switched_saves,
}

-- Threads leave a ring only as zombies, and never as the current thread.
pub record Loses (s : Sched) (xs xs' : List ℕ) : Type 0 where
  pub sub : (a : ℕ) → has a xs' ≡ true → has a xs ≡ true
  pub lost :
      (a : ℕ)
      → has a xs ≡ true
      → has a xs' ≡ false
      → (is_zombie (s.threads a).state ≡ true) × (a ≢ s.current)

-- Nobody of a ring is runnable at the time `now`, save `c` and the idle threads.
abbrev pub NobodyElse : ℕ → Sched → List ℕ → ℕ → Type 0
NobodyElse now s xs c =
    (a : ℕ) → has a xs ≡ true → a ≢ c → not_idle (woken now (s.threads a)) ≡ false

-- What a preemption comes to: it goes on with the current thread, or switches to another.
pub data Preempted (rsp now : ℕ) (s : Sched) (xs : List ℕ) : Option (ℕ × Sched) → Type 0 where
  stayed :
      (s' : Sched) (xs' : List ℕ)
      → IsSched s' xs'
      → Loses s xs xs'
      → s'.current ≡ s.current
      → NobodyElse now s xs' s.current
      → Preempted rsp now s xs (some (rsp, s'))
  switched_to :
      (t : ℕ) (s' : Sched) (xs' : List ℕ)
      → IsSched s' xs'
      → Loses s xs xs'
      → (s'.current ≡ t) × (t ≢ s.current) × (has t xs ≡ true)
      → any_runnable (woken now (s.threads t)) ≡ true
      → ((s.threads t).id ≢ 0) ⊎ NobodyElse now s xs' t
      → ((s'.threads s.current).rsp ≡ rsp)
        × ((s'.threads s.current).fxsave ≡ s.fpu)
        × (s'.fpu ≡ (s.threads t).fxsave)
        × (is_running (s'.threads t).state ≡ true)
      → Preempted rsp now s xs (some ((s.threads t).rsp, s'))

module _ (rsp now : ℕ) (s s1 : Sched) (xs xs1 : List ℕ) (p : Prepared now s s1 xs xs1) where
  loses : Loses s xs xs1
  loses = record { sub = p.sub; lost = p.lost }

  was :
      (test : Thread → Bool) (a : ℕ)
      → has a xs1 ≡ true
      → test (s1.threads a) ≡ test (record (woken now (s.threads a)) { next = (s1.threads a).next })
  was test a h = ap test (p.thread a (p.sub a h))

  nobody :
      (c : ℕ)
      → ((a : ℕ) → has a xs1 ≡ true → a ≢ c → not_idle (s1.threads a) ≡ false)
      → NobodyElse now s xs1 c
  nobody c h a m ne = sym (was not_idle a m) ∙ h a m ne

  stays :
      ((a : ℕ) → has a xs1 ≡ true → a ≢ s.current → not_idle (s1.threads a) ≡ false)
      → Preempted rsp now s xs (some (rsp, s1))
  stays h = stayed s1 xs1 p.invariant loses p.same_current (nobody s.current h)

  switches :
      (t : ℕ)
      → has t xs1 ≡ true
      → t ≢ s1.current
      → any_runnable (s1.threads t) ≡ true
      → ((s1.threads t).id ≢ 0)
        ⊎ ((a : ℕ) → has a xs1 ≡ true → a ≢ t → not_idle (s1.threads a) ≡ false)
      → Preempted rsp now s xs (some (switch_to rsp now t s1))
  unfolding switch_to switched
  switches t m ne run id =
      let same = woken_keeps now (s.threads t) in
      let th = p.thread t (p.sub t m) in
      let rsp_t : (s1.threads t).rsp ≡ (s.threads t).rsp = ap (λ (x : Thread). x.rsp) th ∙ same.0 in
      let fx_t : (s1.threads t).fxsave ≡ (s.threads t).fxsave =
        ap (λ (x : Thread). x.fxsave) th ∙ same.2 in
      let id_t : (s1.threads t).id ≡ (s.threads t).id = ap (λ (x : Thread). x.id) th ∙ same.1 in
      let saves = switched_saves rsp now t s1 xs1 p.invariant m ne in
      subst (λ r. Preempted rsp now s xs (some (r, (switch_to rsp now t s1).1)))
        (sym (saves.0 ∙ rsp_t))
        (switched_to t (switch_to rsp now t s1).1 xs1
          (switched-IsSched rsp now t s1 xs1 p.invariant m ne) loses
          (saves.4, (λ e. ne (e ∙ sym p.same_current)), p.sub t m)
          (sym (was any_runnable t m) ∙ run)
          (elim id [ inl h ↦ inl (rw (sym id_t) h) | inr h ↦ inr (nobody t h) ])
          (
            rw (sym p.same_current) saves.1,
            rw (sym p.same_current) (saves.2 ∙ p.same_fpu),
            saves.3 ∙ fx_t,
            saves.5,
          ))

  module _ (zs : List ℕ) (out : has s1.current zs ≡ false)
      (mem : (a : ℕ) → has a xs1 ≡ ((a == s1.current) || has a zs)) where
    in_round : (a : ℕ) → has a (round s1.current zs) ≡ has a xs1
    in_round a = ground (arith, has-append a zs (s1.current ∷ []), mem a)

    at_current :
        (test : Thread → Bool)
        → find_first test s1.threads (round s1.current zs) ≡ found s1.current
        → (a : ℕ) → has a xs1 ≡ true
        → a ≢ s1.current
        → test (s1.threads a) ≡ false
    at_current test e a h ne =
        find_first-last test s1.threads s1.current zs a e out (ground (arith, mem a))

    cur_last :
        (r : Search)
        → find_first not_idle s1.threads (round s1.current zs) ≡ r
        → Finds not_idle s1.threads (round s1.current zs) r
        → or_else r (find_first any_runnable s1.threads (round s1.current zs)) ≡ found s1.current
        → (a : ℕ) → has a xs1 ≡ true
        → a ≢ s.current
        → not_idle (s1.threads a) ≡ false
    cur_last _ e (finds_none h) o a m ne = h a (in_round a ∙ m)
    cur_last _ e (finds h t) o a m ne =
        at_current not_idle (e ∙ o) a m (λ q. ne (q ∙ p.same_current))

    decided :
        (r : Search)
        → round_robin s1.threads s1.current zs ≡ r
        → Picks s1.threads (round s1.current zs) r
        → Preempted rsp now s xs (dispatch rsp now s1 r)
    unfolding dispatch
    decided _ e (picks_none h) = stays (λ a m ne. let q = h a (in_round a ∙ m) in ground arith)
    decided _ e (picks {t} h run id) = elim (Bool-cases (t == s1.current)) [
      | inl tc ↦
          let tq : t ≡ s1.current = ground arith in
          rw tc (
            stays (
              cur_last (find_first not_idle s1.threads (round s1.current zs)) refl
                (find_first-Finds not_idle s1.threads (round s1.current zs)) (e ∙ ap found tq)))
      | inr tc ↦ rw tc (
          switches t (sym (in_round t) ∙ h) (ground arith) run
            (elim id [ inl k ↦ inl k | inr k ↦ inr (λ a m ne. k a (in_round a ∙ m)) ]))
    ]

preempt-eq :
    (fuel rsp now : ℕ) (s s1 : Sched) (m : Threads) (r : Search)
    → s.active ≡ true
    → (s.current == null) ≡ false
    → wake_loop fuel now s.current s.threads s.current ≡ some m
    → reap_zombies fuel (record s { threads = m }) ≡ some s1
    → pick_next fuel s1.threads s1.current ≡ r
    → sched_preempt fuel rsp now s ≡ dispatch rsp now s1 r
unfolding sched_preempt
preempt-eq fuel rsp now s s1 m r a n w e p = rw (w, e, p) (rw (n, a))

current-nonnull : (s : Sched) (xs : List ℕ) → IsSched s xs → (s.current == null) ≡ false
current-nonnull s xs i = elim (Bool-cases (s.current == null)) [
  | inl e ↦
      let z : s.current ≡ null = ground arith in
      absurd (true≢false (sym i.member ∙ ap (λ c. has c xs) z ∙ i.nonnull))
  | inr e ↦ e
]

-- On a started scheduler with fuel for each thread, `sched_preempt` ends, and keeps the invariant:
-- a ring, and no thread but the current one running. Threads leave the ring only as zombies, never
-- the current one. It goes on with the current thread only when no other thread but idle is
-- runnable; else it switches to a runnable thread of the ring (a sleeper whose time has come
-- counts), to an idle thread only when nobody else is runnable. A switch saves the stack pointer and
-- the FPU image of the old thread and returns and loads those of the new one.
pub sched_preempt-Preempted :
    (fuel rsp now : ℕ) (s : Sched) (xs : List ℕ)
    → IsSched s xs
    → length xs < fuel
    → Preempted rsp now s xs (sched_preempt fuel rsp now s)
sched_preempt-Preempted fuel rsp now s xs i f =
    let (ys, lead, out, len, mem, d) =
      IsRing-rotate s.threads s.ring s.current xs i.ring i.member in
    let nn = current-nonnull s xs i in
    let w = wake_loop-wake_all now s.current ys fuel s.threads s.current lead out (omega arith) in
    let s0 = woken_all now s ys in
    let (s1, xs1, e, r) =
      reap_zombies-Reaps fuel s0 xs
        (wake_all-IsRing now (s.current ∷ ys) xs s.threads s.ring i.ring) f in
    let p = Reaps-Prepared now s s1 xs ys xs1 i out mem d r in
    let inv = p.invariant in
    let (zs, lead1, out1, len1, mem1, d1) =
      IsRing-rotate s1.threads s1.ring s1.current xs1 inv.ring inv.member in
    let short = r.shorter in
    let pick = pick_next-round_robin s1.threads s1.current zs fuel lead1 out1 (omega arith) in
    subst (Preempted rsp now s xs)
      (sym (
        preempt-eq fuel rsp now s s1 s0.threads (round_robin s1.threads s1.current zs) i.active nn w
          e pick))
      (decided rsp now s s1 xs xs1 p zs out1 mem1 (round_robin s1.threads s1.current zs) refl
        (round_robin-Picks s1.threads s1.current zs))
