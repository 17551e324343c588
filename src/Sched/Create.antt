-- ===== src/Sched/Create.antt =====
-- `ring_insert`, `thread_create` and `sched_start` of kernel/src/sched.c.
use choco_os.Base.{
  ℕ, ◌+◌, ◌≡◌, ◌≢◌, refl, ap, sym, ◌∙◌, true, false, ◌||◌, ◌==◌, some, List, [], ◌∷◌, arith,
  Bool-cases, ◌⊎◌, inl, inr, true≢false,
}
use choco_os.Sched.{Thread, Sched, store, null, is_running, ring_insert, thread_create, sched_start}
use choco_os.Sched.Ring.{Leads, has, IsRing, Leads-frame}
use choco_os.Sched.Switch.{IsSched}

-- The threads in the ring before and after the start: none yet, or a ring.
pub record HasRing (s : Sched) (xs : List ℕ) : Type 0 where
  pub ring : ((s.ring ≡ null) × (xs ≡ [])) ⊎ ((s.ring ≢ null) × IsRing s.threads s.ring xs)
  pub nonnull : has null xs ≡ false

-- The new thread stands behind the first.
abbrev pub inserted : ℕ → List ℕ → List ℕ
inserted t [] = t ∷ []
inserted t (x ∷ xs) = x ∷ t ∷ xs

has-inserted : (a t : ℕ) (xs : List ℕ) → has a (inserted t xs) ≡ ((a == t) || has a xs)
has-inserted a t [] = refl
has-inserted a t (x ∷ xs) = ground arith

module _ (s : Sched) (t : ℕ) (pos : t ≢ null) where
  insert_first : s.ring ≡ null → IsRing (ring_insert s t).threads (ring_insert s t).ring (t ∷ [])
  unfolding ring_insert store
  insert_first e = record { loop = ground arith; start = ground arith; distinct = (refl, tt) }

  -- The pointers behind an insertion into a ring.
  insert_links :
      s.ring ≢ null
      → t ≢ s.ring
      → ((ring_insert s t).ring ≡ s.ring)
        × (((ring_insert s t).threads s.ring).next ≡ t)
        × (((ring_insert s t).threads t).next ≡ (s.threads s.ring).next)
  unfolding ring_insert store
  insert_links ne tr = ground arith

  insert_other :
      (a : ℕ) → a ≢ t → a ≢ s.ring → ((ring_insert s t).threads a).next ≡ (s.threads a).next
  unfolding ring_insert store
  insert_other a at ar = ground arith

  -- Inserting changes no field but `next` of any thread.
  pub insert_keeps :
      (a : ℕ)
      → (ring_insert s t).threads a
        ≡ record (s.threads a) { next = ((ring_insert s t).threads a).next }
  unfolding ring_insert store
  insert_keeps a = ground arith

  insert_next :
      (x : ℕ) (ys : List ℕ)
      → s.ring ≢ null
      → IsRing s.threads s.ring (x ∷ ys)
      → has t (x ∷ ys) ≡ false
      → IsRing (ring_insert s t).threads (ring_insert s t).ring (x ∷ t ∷ ys)
  insert_next x ys ne i out =
      let rx : s.ring ≡ x = i.loop.0 in
      let l = insert_links ne (ground arith) in
      let tail : Leads (ring_insert s t).threads (s.threads x).next s.ring ys =
        Leads-frame s.threads (ring_insert s t).threads (s.threads x).next s.ring ys
          (λ a h.
            insert_other a (apart a ys (ground arith) h) (λ e. apart a ys i.distinct.0 h (e ∙ rx)))
          i.loop.1 in
      let at_x : ((ring_insert s t).threads x).next ≡ t =
        ap (λ r. ((ring_insert s t).threads r).next) (sym rx) ∙ l.1 in
      let at_t : ((ring_insert s t).threads t).next ≡ (s.threads x).next =
        l.2 ∙ ap (λ r. (s.threads r).next) rx in
      record {
        loop = rw l.0 (rx, (at_x, rw at_t tail));
        start = rw l.0 (ground (arith, i.start));
        distinct = (ground (arith, i.distinct.0), (ground arith, i.distinct.1));
      }
    where
      apart : (a : ℕ) {b : ℕ} (zs : List ℕ) → has b zs ≡ false → has a zs ≡ true → a ≢ b
      apart a zs o h e = true≢false (sym h ∙ ap (λ c. has c zs) e ∙ o)

  -- `ring_insert` of a new thread keeps the ring.
  pub ring_insert-IsRing :
      (xs : List ℕ)
      → ((s.ring ≡ null) × (xs ≡ [])) ⊎ ((s.ring ≢ null) × IsRing s.threads s.ring xs)
      → has t xs ≡ false
      → IsRing (ring_insert s t).threads (ring_insert s t).ring (inserted t xs)
  ring_insert-IsRing xs (inl e) out = rw e.1 (insert_first e.0)
  ring_insert-IsRing [] (inr e) out = absurd (true≢false (sym e.1.start))
  ring_insert-IsRing (x ∷ ys) (inr e) out = insert_next x ys e.0 e.1 out

-- What `thread_create` and `sched_start` store at the new thread's address.
abbrev stored : Sched → ℕ → Thread → Sched
stored s t new = record s { threads = store s.threads t new }

stored-ring :
    (s : Sched) (t : ℕ) (new : Thread) (xs : List ℕ)
    → has t xs ≡ false
    → ((s.ring ≡ null) × (xs ≡ [])) ⊎ ((s.ring ≢ null) × IsRing s.threads s.ring xs)
    → ((s.ring ≡ null) × (xs ≡ [])) ⊎ ((s.ring ≢ null) × IsRing (stored s t new).threads s.ring xs)
unfolding store
stored-ring s t new xs out (inl e) = inl e
stored-ring s t new xs out (inr e) = inr (
  e.0,
  record {
    loop =
        Leads-frame s.threads (stored s t new).threads s.ring s.ring xs (λ a h. ground arith)
          e.1.loop;
    start = e.1.start;
    distinct = e.1.distinct;
  },
)

insert_fields :
    (s : Sched) (t : ℕ)
    → ((ring_insert s t).active ≡ s.active) × ((ring_insert s t).current ≡ s.current)
unfolding ring_insert
insert_fields s t = ground arith

abbrev added : Sched → ℕ → Thread → ℕ → Sched
added s t new id = record s { threads = store s.threads t new; next_id = id }

added-IsSched :
    (s : Sched) (t : ℕ) (new : Thread) (id : ℕ) (xs : List ℕ)
    → IsSched s xs
    → s.ring ≢ null
    → t ≢ null
    → has t xs ≡ false
    → is_running new.state ≡ false
    → IsSched (ring_insert (added s t new id) t) (inserted t xs)
unfolding store
added-IsSched s t new id xs i rn tn out idle =
    let f = insert_fields (added s t new id) t in
    record {
      ring =
          ring_insert-IsRing (added s t new id) t tn xs
            (stored-ring s t new xs out (inr (rn, i.ring))) out;
      active = f.0 ∙ i.active;
      nonnull = rw (has-inserted null t xs) (ground (arith, i.nonnull));
      member = rw (f.1, has-inserted s.current t xs) (ground (arith, i.member));
      single = λ a h ne. single a h ne;
    }
  where
    single :
        (a : ℕ)
        → has a (inserted t xs) ≡ true
        → a ≢ (ring_insert (added s t new id) t).current
        → is_running ((ring_insert (added s t new id) t).threads a).state ≡ false
    single a h ne = rw (insert_keeps (added s t new id) t tn a) (elim (Bool-cases (a == t)) [
      | inl e ↦ rw e idle
      | inr e ↦ rw e (
          i.single a (ground (arith, has-inserted a t xs))
            (λ q. ne (q ∙ sym (insert_fields (added s t new id) t).1)))
    ])

-- `thread_create`, given addresses of a new thread, which is not in the ring, and of its stack, none
-- of them NULL, adds the thread to the ring of a started scheduler that has a ring, returns the next
-- id, keeps the invariant and leaves the current thread as it is.
pub thread_create-IsSched :
    (t stack : ℕ) (s : Sched) (xs : List ℕ)
    → IsSched s xs
    → s.ring ≢ null
    → t ≢ null
    → stack ≢ null
    → has t xs ≡ false
    → ((thread_create t stack s).0 ≡ some (s.next_id + 1))
      × IsSched (thread_create t stack s).1 (inserted t xs)
      × ((thread_create t stack s).1.current ≡ s.current)
unfolding thread_create
thread_create-IsSched t stack s xs i rn tn sn out =
    let tb : (t == null) ≡ false = ground arith in
    let sb : (stack == null) ≡ false = ground arith in
    rw (tb, sb)
      (
        refl,
        added-IsSched s t _ (s.next_id + 1) xs i rn tn out refl,
        (insert_fields (added s t _ (s.next_id + 1)) t).1,
      )

-- `sched_start`, given the address of a new thread, which is not NULL and not in the ring, turns a
-- scheduler with a ring of threads none of which runs, or with no ring, into a started scheduler
-- whose current thread is the idle thread that it adds.
pub sched_start-IsSched :
    (idle now : ℕ) (s : Sched) (xs : List ℕ)
    → HasRing s xs
    → ((a : ℕ) → has a xs ≡ true → is_running (s.threads a).state ≡ false)
    → idle ≢ null
    → has idle xs ≡ false
    → IsSched (sched_start idle now s) (inserted idle xs)
      × ((sched_start idle now s).current ≡ idle)
unfolding sched_start store
sched_start-IsSched idle now s xs r asleep pos out = (
  record {
    ring = ring_insert-IsRing _ idle pos xs (stored-ring s idle _ xs out r.ring) out;
    active = refl;
    nonnull = rw (has-inserted null idle xs) (ground (arith, r.nonnull));
    member = rw (has-inserted idle idle xs) (ground arith);
    single = λ a h ne. rw (insert_keeps _ idle pos a) (
        let ab : (a == idle) ≡ false = ground arith in
        rw ab (asleep a (ground (arith, has-inserted a idle xs))));
  },
  refl,
)
