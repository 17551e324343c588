-- ===== src/Sched/Reap.antt =====
-- `reap_zombies` of kernel/src/sched.c.
use choco_os.Base.{
  ℕ, zero, suc, ◌<◌, ◌≡◌, ◌≢◌, refl, ap, subst, sym, ◌∙◌, Bool, true, false, ◌&&◌, not, ◌==◌,
  ==_refl, Option, some, List, [], ◌∷◌, ◌++◌, arith, length, Bool-cases, inl, inr, true≢false, ◌≤◌,
  length-append,
}
use mathlib.Core.List.{append_assoc}
use choco_os.Sched.{Thread, Sched, store, is_zombie, null, reap_step, reap_loop, reap_zombies}
use choco_os.Sched.Ring.{
  Leads, has, Distinct, IsRing, Leads-append, Leads-frame, has-append, Distinct-append,
  Distinct-join,
}

-- What a run of the reaper may change: threads leave the ring, and only zombies that are not the
-- current thread; they are given to `free`; no field but `next` of any thread changes.
pub record Reaps (s s' : Sched) (xs xs' : List ℕ) : Type 0 where
  pub ring : IsRing s'.threads s.ring xs'
  pub same_ring : s'.ring ≡ s.ring
  pub same_current : s'.current ≡ s.current
  pub same_active : s'.active ≡ s.active
  pub same_fpu : s'.fpu ≡ s.fpu
  pub same_slice : s'.slice_start ≡ s.slice_start
  pub same_id : s'.next_id ≡ s.next_id
  pub kept : (a : ℕ) → s'.threads a ≡ record (s.threads a) { next = (s'.threads a).next }
  pub sub : (a : ℕ) → has a xs' ≡ true → has a xs ≡ true
  pub lost :
      (a : ℕ)
      → has a xs ≡ true
      → has a xs' ≡ false
      → (is_zombie (s.threads a).state ≡ true) × (a ≢ s.current) × (has a s'.freed ≡ true)
  pub shorter : length xs' ≤ length xs
  pub grows : (a : ℕ) → has a s.freed ≡ true → has a s'.freed ≡ true

Reaps-refl : (s : Sched) (xs : List ℕ) → IsRing s.threads s.ring xs → Reaps s s xs xs
Reaps-refl s xs i = record {
  ring = i;
  same_ring = refl;
  same_current = refl;
  same_active = refl;
  same_fpu = refl;
  same_slice = refl;
  same_id = refl;
  kept = λ a. refl;
  sub = λ a h. h;
  lost = λ a h n. cc;
  shorter = omega arith;
  grows = λ a h. h;
}

Reaps-trans :
    (s s1 s2 : Sched) (xs xs1 xs2 : List ℕ)
    → Reaps s s1 xs xs1
    → Reaps s1 s2 xs1 xs2
    → Reaps s s2 xs xs2
Reaps-trans s s1 s2 xs xs1 xs2 r q = record {
  ring = rw r.same_ring at (q.ring);
  same_ring = q.same_ring ∙ r.same_ring;
  same_current = q.same_current ∙ r.same_current;
  same_active = q.same_active ∙ r.same_active;
  same_fpu = q.same_fpu ∙ r.same_fpu;
  same_slice = q.same_slice ∙ r.same_slice;
  same_id = q.same_id ∙ r.same_id;
  kept = λ a. q.kept a ∙ ap (λ (t : Thread). record t { next = (s2.threads a).next }) (r.kept a);
  sub = λ a h. r.sub a (q.sub a h);
  lost = λ a h n. elim (Bool-cases (has a xs1)) [
    | inl m1 ↦
        let l = q.lost a m1 n in
        (
          ap (λ (t : Thread). is_zombie t.state) (sym (r.kept a)) ∙ l.0,
          (λ e. l.1 (e ∙ sym r.same_current)),
          l.2,
        )
    | inr m1 ↦ let l = r.lost a h m1 in (l.0, l.1, q.grows a l.2)
  ];
  shorter = let x = r.shorter in let y = q.shorter in omega arith;
  grows = λ a h. q.grows a (r.grows a h);
}

-- The ring as the reaper stands in it: `ds` leads up to `p`, and `us` from behind `p` to the start.
record Stands (s : Sched) (p : ℕ) (ds us : List ℕ) : Type 0 where
  front : Leads s.threads s.ring p ds
  back : Leads s.threads (s.threads p).next s.ring us
  distinct : Distinct (ds ++ (p ∷ us))
  passed : has s.ring us ≡ false
  start : has s.ring (ds ++ (p ∷ us)) ≡ true

Stands-IsRing :
    (s : Sched) (p : ℕ) (ds us : List ℕ)
    → Stands s p ds us
    → IsRing s.threads s.ring (ds ++ (p ∷ us))
Stands-IsRing s p ds us st = record {
  loop = Leads-append s.threads s.ring p s.ring ds (p ∷ us) st.front (refl, st.back);
  start = st.start;
  distinct = st.distinct;
}

abbrev dead : Sched → ℕ → Bool
dead s n = is_zombie (s.threads n).state && not (n == s.current) && not (n == s.ring)

-- The state after the thread behind `p` was taken out.
abbrev without : Sched → ℕ → Sched
without s p =
    let n = (s.threads p).next in
    record s {
      threads = store s.threads p (record (s.threads p) { next = (s.threads n).next });
      freed = n ∷ (s.threads n).stack_base ∷ s.freed;
    }

module _ (s : Sched) (p n : ℕ) (ds us : List ℕ) (st : Stands s p ds (n ∷ us))
    (gone : dead s n ≡ true) where
  next-eq : (s.threads p).next ≡ n
  next-eq = st.back.0

  other : (a : ℕ) → a ≢ p → (without s p).threads a ≡ s.threads a
  unfolding store
  other a ne = ground arith

  apart :
      (has p ds ≡ false)
      × (has p us ≡ false)
      × (Distinct (ds ++ (p ∷ us)))
      × (has n (ds ++ (p ∷ us)) ≡ false)
  apart =
      let d = Distinct-append ds (p ∷ n ∷ us) st.distinct in
      (
        ground (arith, d.2 p, ==_refl p),
        ground (arith, d.1.0),
        Distinct-join ds (p ∷ us) d.0 (ground (arith, d.1.0), d.1.1.1)
            (λ a h. ground (arith, d.2 a)),
        rw (has-append n ds (p ∷ us)) (ground (arith, d.2 n, ==_refl n, d.1.0, d.1.1.0)),
      )

  self_next : ((without s p).threads p).next ≡ (s.threads n).next
  unfolding store
  self_next = rw (==_refl p, next-eq)

  not_in : (a : ℕ) (zs : List ℕ) → has p zs ≡ false → has a zs ≡ true → a ≢ p
  not_in a zs out h e = true≢false (sym h ∙ ap (λ x. has x zs) e ∙ out)

  kept_but_next :
      (a : ℕ)
      → (without s p).threads a ≡ record (s.threads a) { next = ((without s p).threads a).next }
  unfolding store
  kept_but_next a = ground arith

  without-Stands : Stands (without s p) p ds us
  without-Stands = record {
    front =
        Leads-frame s.threads (without s p).threads s.ring p ds
          (λ a h. ap (λ (t : Thread). t.next) (other a (not_in a ds apart.0 h))) st.front;
    back = rw self_next (
        Leads-frame s.threads (without s p).threads (s.threads n).next s.ring us
          (λ a h. ap (λ (t : Thread). t.next) (other a (not_in a us apart.1 h))) st.back.1);
    distinct = apart.2;
    passed = ground (arith, st.passed);
    start =
        ground (arith, st.start, has-append s.ring ds (p ∷ us), has-append s.ring ds (p ∷ n ∷ us));
  }

  without-Reaps : Reaps s (without s p) (ds ++ (p ∷ n ∷ us)) (ds ++ (p ∷ us))
  without-Reaps = record {
    ring = Stands-IsRing (without s p) p ds us without-Stands;
    same_ring = refl;
    same_current = refl;
    same_active = refl;
    same_fpu = refl;
    same_slice = refl;
    same_id = refl;
    kept = kept_but_next;
    sub = λ a h. ground (arith, has-append a ds (p ∷ us), has-append a ds (p ∷ n ∷ us));
    lost = λ a h g.
        let an : a ≡ n = ground (arith, has-append a ds (p ∷ us), has-append a ds (p ∷ n ∷ us)) in
        (rw an (ground arith), rw an (ground arith), ground (arith, next-eq));
    shorter = omega (arith, length-append ds (p ∷ us), length-append ds (p ∷ n ∷ us));
    grows = λ a h. ground arith;
  }

-- The reaper on a thread behind `p` that stays.
moved-Stands :
    (s : Sched) (p n : ℕ) (ds us : List ℕ) → Stands s p ds (n ∷ us) → Stands s n (ds ++ (p ∷ [])) us
moved-Stands s p n ds us st = record {
  front = Leads-append s.threads s.ring p n ds (p ∷ []) st.front (refl, st.back.0);
  back = st.back.1;
  distinct = rw (append_assoc ds (p ∷ []) (n ∷ us)) st.distinct;
  passed = ground (arith, st.passed);
  start = rw (append_assoc ds (p ∷ []) (n ∷ us)) st.start;
}

reap_step-stays :
    (s : Sched) (p n : ℕ) → (s.threads p).next ≡ n → dead s n ≡ false → reap_step s p ≡ (s, n)
unfolding reap_step
reap_step-stays s p n e d = rw (e, d)

reap_step-gone :
    (s : Sched) (p n : ℕ)
    → (s.threads p).next ≡ n
    → dead s n ≡ true
    → reap_step s p ≡ (without s p, p)
unfolding reap_step
reap_step-gone s p n e d = rw (e, d)

-- What the loop ends in.
abbrev pub Reaped : Sched → List ℕ → Option Sched → Type 0
Reaped s xs r = (s' : Sched) × (xs' : List ℕ) × (r ≡ some s') × Reaps s s' xs xs'

reap_loop-Reaped :
    (us : List ℕ) (fuel : ℕ) (s : Sched) (p : ℕ) (ds : List ℕ)
    → Stands s p ds us
    → length us < fuel
    → Reaped s (ds ++ (p ∷ us)) (reap_loop fuel s p)
unfolding reap_loop
reap_loop-Reaped us zero s p ds st f = absurd (omega arith)
reap_loop-Reaped [] (suc fuel) s p ds st f =
    let d : dead s s.ring ≡ false = ground arith in
    (
      s,
      ds ++ (p ∷ []),
      rw (reap_step-stays s p s.ring st.back d, ==_refl s.ring),
      Reaps-refl s (ds ++ (p ∷ [])) (Stands-IsRing s p ds [] st),
    )
reap_loop-Reaped (n ∷ us) (suc fuel) s p ds st f = elim (Bool-cases (dead s n)) [
  | inl gone ↦
      let st' = without-Stands s p n ds us st gone in
      let here = without-Reaps s p n ds us st gone in
      elim (Bool-cases (p == s.ring)) [
        | inl e ↦ (without s p, ds ++ (p ∷ us), rw (reap_step-gone s p n st.back.0 gone, e), here)
        | inr e ↦
            let (s', xs', eq, r) = reap_loop-Reaped us fuel (without s p) p ds st' (omega arith) in
            (
              s',
              xs',
              rw (reap_step-gone s p n st.back.0 gone, e) eq,
              Reaps-trans s (without s p) s' (ds ++ (p ∷ n ∷ us)) (ds ++ (p ∷ us)) xs' here r,
            )
      ]
  | inr stays ↦
      let ne : (n == s.ring) ≡ false = ground (arith, st.passed) in
      let (s', xs', eq, r) =
        reap_loop-Reaped us fuel s n (ds ++ (p ∷ [])) (moved-Stands s p n ds us st) (omega arith) in
      (
        s',
        xs',
        rw (reap_step-stays s p n st.back.0 stays, ne) eq,
        rw (append_assoc ds (p ∷ []) (n ∷ us)) at r,
      )
]

-- `reap_zombies` on a ring ends, with fuel for each thread: it leaves a ring, from which it has
-- taken only zombies other than the current thread and the ring's first, and has freed these; no
-- thread has changed but for its `next`.
pub reap_zombies-Reaps :
    (fuel : ℕ) (s : Sched) (xs : List ℕ)
    → IsRing s.threads s.ring xs
    → length xs < fuel
    → Reaped s xs (reap_zombies fuel s)
unfolding reap_zombies
reap_zombies-Reaps fuel s [] i f = absurd (true≢false (sym i.start))
reap_zombies-Reaps fuel s (x ∷ us) i f = elim (Bool-cases (s.ring == null)) [
  | inl e ↦ (s, x ∷ us, rw e, Reaps-refl s (x ∷ us) i)
  | inr e ↦
      let rx : s.ring ≡ x = i.loop.0 in
      let st : Stands s s.ring [] us = record {
        front = refl;
        back = subst (λ y. Leads s.threads (s.threads y).next s.ring us) (sym rx) i.loop.1;
        distinct = rw rx i.distinct;
        passed = rw rx i.distinct.0;
        start = ground arith;
      } in
      rw e (
        subst (λ y. Reaped s (y ∷ us) (reap_loop fuel s s.ring)) rx
          (reap_loop-Reaped us fuel s s.ring [] st (omega arith)))
]
