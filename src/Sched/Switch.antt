-- ===== src/Sched/Switch.antt =====
-- kernel/src/sched.c: the invariant of a started scheduler, which waking, reaping and a switch keep.
use choco_os.Base.{
  ℕ, ◌≡◌, ◌≢◌, refl, ap, sym, ◌∙◌, true, false, ◌||◌, ◌==◌, List, ◌∷◌, arith, Bool-cases, inl, inr,
  true≢false,
}
use choco_os.Sched.{Thread, Sched, store, null, is_running, is_zombie, woken, switch_to}
use choco_os.Sched.Ring.{has, Distinct, IsRing, Leads-frame}
use choco_os.Sched.Wake.{wake_all, wake_all_lem}
use choco_os.Sched.Reap.{Reaps}

-- The invariant of a started scheduler whose ring is `xs`: only the current thread is running.
pub record IsSched (s : Sched) (xs : List ℕ) : Type 0 where
  pub ring : IsRing s.threads s.ring xs
  pub active : s.active ≡ true
  pub nonnull : has null xs ≡ false
  pub member : has s.current xs ≡ true
  pub single : (a : ℕ) → has a xs ≡ true → a ≢ s.current → is_running (s.threads a).state ≡ false

-- What waking and reaping make of a scheduler.
pub record Prepared (now : ℕ) (s s1 : Sched) (xs xs1 : List ℕ) : Type 0 where
  pub invariant : IsSched s1 xs1
  pub same_current : s1.current ≡ s.current
  pub same_fpu : s1.fpu ≡ s.fpu
  pub thread :
      (a : ℕ)
      → has a xs ≡ true
      → s1.threads a ≡ record (woken now (s.threads a)) { next = (s1.threads a).next }
  pub sub : (a : ℕ) → has a xs1 ≡ true → has a xs ≡ true
  pub lost :
      (a : ℕ)
      → has a xs ≡ true
      → has a xs1 ≡ false
      → (is_zombie (s.threads a).state ≡ true) × (a ≢ s.current)

abbrev pub woken_all : ℕ → Sched → List ℕ → Sched
woken_all now s ys = record s { threads = wake_all now s.threads (s.current ∷ ys) }

running-woken : (now : ℕ) (t : Thread) → is_running (woken now t).state ≡ is_running t.state
running-woken now t = ground arith

zombie-woken : (now : ℕ) (t : Thread) → is_zombie (woken now t).state ≡ is_zombie t.state
zombie-woken now t = ground arith

pub woken_keeps :
    (now : ℕ) (t : Thread)
    → ((woken now t).rsp ≡ t.rsp) × ((woken now t).id ≡ t.id) × ((woken now t).fxsave ≡ t.fxsave)
woken_keeps now t = ground arith

module _ (now : ℕ) (s s1 : Sched) (xs ys xs1 : List ℕ) (i : IsSched s xs)
    (out : has s.current ys ≡ false) (same : (a : ℕ) → has a xs ≡ ((a == s.current) || has a ys))
    (d : Distinct ys) (r : Reaps (woken_all now s ys) s1 xs xs1) where
  woken_thread :
      (a : ℕ)
      → has a xs ≡ true
      → wake_all now s.threads (s.current ∷ ys) a ≡ woken now (s.threads a)
  woken_thread a h =
      let e : has a (s.current ∷ ys) ≡ true = sym (same a) ∙ h in
      rw e at (wake_all_lem now (s.current ∷ ys) s.threads a (out, d))

  prepared_thread :
      (a : ℕ)
      → has a xs ≡ true
      → s1.threads a ≡ record (woken now (s.threads a)) { next = (s1.threads a).next }
  prepared_thread a h =
      r.kept a ∙ ap (λ (t : Thread). record t { next = (s1.threads a).next }) (woken_thread a h)

  pub Reaps-Prepared : Prepared now s s1 xs xs1
  Reaps-Prepared = record {
    invariant = record {
      ring = rw r.same_ring r.ring;
      active = r.same_active ∙ i.active;
      nonnull = elim (Bool-cases (has null xs1)) [
        | inl e ↦ absurd (true≢false (sym (r.sub null e) ∙ i.nonnull))
        | inr e ↦ e
      ];
      member = rw r.same_current (elim (Bool-cases (has s.current xs1)) [
        | inl e ↦ e
        | inr e ↦ absurd ((r.lost s.current i.member e).1 refl)
      ]);
      single = λ a h ne. rw (prepared_thread a (r.sub a h)) (
          running-woken now (s.threads a)
          ∙ i.single a (r.sub a h) (λ e. ne (e ∙ sym r.same_current)));
    };
    same_current = r.same_current;
    same_fpu = r.same_fpu;
    thread = prepared_thread;
    sub = r.sub;
    lost = λ a h g.
        let l = r.lost a h g in
        (
          sym (zombie-woken now (s.threads a))
              ∙ ap (λ (t : Thread). is_zombie t.state) (sym (woken_thread a h))
              ∙ l.0,
          l.1,
        );
  }

-- The switch keeps the ring, and only the thread switched to is running.
module _ (rsp now t : ℕ) (s : Sched) (xs : List ℕ) (i : IsSched s xs) (mem : has t xs ≡ true)
    (ne : t ≢ s.current) where
  unfoldable pub switched : Sched
  switched = (switch_to rsp now t s).1

  switched_next : (a : ℕ) → (switched.threads a).next ≡ (s.threads a).next
  unfolding switched switch_to store
  switched_next a = ground arith

  pub switched-IsSched : IsSched switched xs
  unfolding switched switch_to store
  switched-IsSched = record {
    ring = record {
      loop =
          Leads-frame s.threads switched.threads s.ring s.ring xs (λ a h. switched_next a)
            i.ring.loop;
      start = i.ring.start;
      distinct = i.ring.distinct;
    };
    active = i.active;
    nonnull = i.nonnull;
    member = mem;
    single = λ a h na. ground (arith, i.single a h);
  }

  -- What the switch saves and restores.
  pub switched_saves :
      ((switch_to rsp now t s).0 ≡ (s.threads t).rsp)
      × ((switched.threads s.current).rsp ≡ rsp)
      × ((switched.threads s.current).fxsave ≡ s.fpu)
      × (switched.fpu ≡ (s.threads t).fxsave)
      × (switched.current ≡ t)
      × (is_running (switched.threads t).state ≡ true)
  unfolding switched switch_to store
  switched_saves = ground arith
