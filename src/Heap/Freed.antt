-- ===== src/Heap/Freed.antt =====
-- kernel/src/heap.c: what a suffix of the block list, and then the heap, is when `free` has merged.
use choco_os.Base.{
  ℕ, ◌+◌, ◌^◌, ◌≤◌, ◌<◌, ◌≡◌, ◌≢◌, refl, Bool, true, false, ◌==◌, List, ◌∷◌, ◌++◌, arith,
  Bool-cases, inl, inr, ==_refl, true≢false, sym, ◌∙◌, ap, add_word, sub_word,
}
use choco_os.Heap.{Mem, Heap, null, hdr_size, coalesce, mark_free, coalesce_prev}
use choco_os.Heap.Chain.{
  Chain, block_end, has, before, after, SameBelow, Chain-frame, Chain-suffix, Chain-splice,
  Chain-before, has-split, has-append_left, has-append_right,
}
use choco_os.Heap.Take.{SameBlocks}
use choco_os.Heap.Inv.{
  used_by, Coalesced, heap_end, IsHeap, used_by-frame, Coalesced-frame, used_by-le, used_by-splice,
  Coalesced-splice, Coalesced-suffix,
}
use choco_os.Heap.Merge.{Live, merged, Merges, coalesce-Merges}

-- What becomes of the blocks from `s` on when `b` among them is freed.
pub record Freed (m m' : Mem) (fin q s b : ℕ) (g : Bool) (ys zs : List ℕ) : Type 0 where
  pub chain : Chain m' fin q s s zs
  pub below : SameBelow s m m'
  pub used : used_by m' zs + ((m b).size + 32) ≡ used_by m ys
  pub coalesced : Coalesced m' g zs
  pub live : Live m m' ys zs b

module _ (m : Mem) (fin q b : ℕ) (post : List ℕ) (c : Chain m fin q b b (b ∷ post)) (pos : 0 < b)
    (small : fin + 64 ≤ 2 ^ 64) (fb : (m b).free ≡ false) (k : Coalesced m false post) where
  mark-other : (a : ℕ) → a ≢ b → mark_free m b a ≡ m a
  unfolding mark_free
  mark-other a ne = ground arith

  mark_self : mark_free m b b ≡ record (m b) { free = true }
  unfolding mark_free
  mark_self = rw ==_refl

  mark-SameBlocks : SameBlocks (block_end m b) m (mark_free m b)
  mark-SameBlocks a h = rw (mark-other a (omega arith)) (refl, refl)

  mark-Chain : Chain (mark_free m b) fin q b b (b ∷ post)
  mark-Chain = rw mark_self (
    refl,
    refl,
    c.2,
    c.3,
    Chain-frame m (mark_free m b) fin post b (block_end m b) (m b).next
        (λ a h. mark-other a (omega arith)) c.4,
  )

  mark-Merges : Merges (mark_free m b) (coalesce (mark_free m b) b) fin q b post
  mark-Merges =
      coalesce-Merges (mark_free m b) fin q b post mark-Chain pos small (rw mark_self refl) (
        Coalesced-frame m (mark_free m b) fin post b (block_end m b) (m b).next false
          mark-SameBlocks c.4 k)

  -- Freeing `b` and merging what follows.
  pub freed_here :
      Freed m
        (coalesce (mark_free m b) b)
        fin
        q
        b
        b
        false
        (b ∷ post)
        (b ∷ merged (mark_free m b) b post)
  freed_here =
      let r = mark-Merges in
      let rest =
        used_by-frame m (mark_free m b) fin post b (block_end m b) (m b).next mark-SameBlocks c.4 in
      record {
        chain = r.chain;
        below = λ a h. r.below a h ∙ mark-other a (omega arith);
        used = rw r.used (rw (mark_self, rest, fb) (omega arith));
        coalesced = (refl, rw r.self_free r.coalesced);
        live = λ a h ne f. rw (mark-other a ne) at (r.live a h ne (rw (mark-other a ne) f));
      }

module _ (m : Mem) (fin q p b : ℕ) (g : Bool) (post : List ℕ) (c : Chain m fin q p p (p ∷ b ∷ post))
    (pos : 0 < p) (small : fin + 64 ≤ 2 ^ 64) (fb : (m b).free ≡ false)
    (k : Coalesced m g (p ∷ b ∷ post)) where
  inner : Chain m fin p b b (b ∷ post)
  inner = (refl, refl, c.4.2, c.4.3, c.4.4)

  abbrev m2 : Mem
  m2 = coalesce (mark_free m b) b

  abbrev zs : List ℕ
  zs = merged (mark_free m b) b post

  behind : Coalesced m false post
  behind = rw fb at (k.1.1)

  first : Freed m m2 fin p b b false (b ∷ post) (b ∷ zs)
  first = freed_here m fin p b post inner (omega arith) small fb behind

  self_p : m2 p ≡ m p
  self_p = first.below p (omega arith)

  outer : Chain m2 fin q p p (p ∷ b ∷ zs)
  outer = let f = first.chain in rw self_p (refl, refl, c.2, c.3, (c.4.0, c.4.1, f.2, f.3, f.4))

  prev-eq : (m2 b).prev ≡ p
  prev-eq = first.chain.2

  pos_p : (p == null) ≡ false
  pos_p = ground arith

  fb2 : (m2 b).free ≡ true
  fb2 = (mark-Merges m fin p b post inner (omega arith) small fb behind).self_free

  Live-outer : Live m m2 (p ∷ b ∷ post) (p ∷ b ∷ zs) b
  Live-outer a h ne f = elim (Bool-cases (a == p)) [
    | inl e ↦
        let same : m2 a ≡ m a = let ep : a ≡ p = ground arith in rw ep self_p in
        rw (e, same) (refl, refl, f)
    | inr e ↦ let r = first.live a (rw e at h) ne f in rw e r
  ]

  -- The block before `b` is in use: it stays as it is.
  pub freed_after_used :
      (m p).free ≡ false → Freed m (coalesce_prev m2 b) fin q p b g (p ∷ b ∷ post) (p ∷ b ∷ zs)
  unfolding coalesce_prev
  freed_after_used fp =
      rw (prev-eq, pos_p, self_p, fp)
        (record {
          chain = outer;
          below = λ a h. first.below a (omega arith);
          used = rw self_p (let u = first.used in omega arith);
          coalesced = rw (self_p, fp) (rw fp at (k.0), first.coalesced);
          live = λ a h ne f. Live-outer a h ne f;
        })

  again : (m p).free ≡ true → Merges m2 (coalesce m2 p) fin q p (b ∷ zs)
  again fp = coalesce-Merges m2 fin q p (b ∷ zs) outer pos small (rw self_p fp) first.coalesced

  merged-eq : merged m2 p (b ∷ zs) ≡ zs
  merged-eq = rw fb2

  Live-free : (m p).free ≡ true → Live m (coalesce m2 p) (p ∷ b ∷ post) (p ∷ zs) b
  Live-free fp a h ne f =
      let np : a ≢ p = λ e. true≢false (sym fp ∙ sym (ap (λ x. (m x).free) e) ∙ f) in
      let npb : (a == p) ≡ false = ground arith in
      let r1 = first.live a (rw npb at h) ne f in
      let r2 = (again fp).live a (rw npb r1.0) np r1.2 in
      (rw merged-eq at (r2.0), r2.1 ∙ r1.1, r2.2)

  -- The block before `b` is free: it takes in `b` and what `b` took in.
  pub freed_after_free :
      (m p).free ≡ true → Freed m (coalesce_prev m2 b) fin q p b g (p ∷ b ∷ post) (p ∷ zs)
  unfolding coalesce_prev
  freed_after_free fp =
      let r = again fp in
      rw (prev-eq, pos_p, self_p, fp)
        (record {
          chain = rw fb2 at (r.chain);
          below = λ a h. r.below a h ∙ first.below a (omega arith);
          used =
              let u = first.used in
              let v : used_by (coalesce m2 p) (p ∷ zs) ≡ used_by m2 (p ∷ b ∷ zs) =
                ap (λ l. used_by (coalesce m2 p) (p ∷ l)) (sym merged-eq) ∙ r.used in
              rw v (rw self_p (omega arith));
          coalesced = rw r.self_free (rw fp at (k.0), rw fb2 at (r.coalesced));
          live = λ a h ne f. Live-free fp a h ne f;
        })

-- The freed suffix in the whole heap.
abbrev pub freed_heap : Heap → Mem → ℕ → Heap
freed_heap h m' b = record h {
  mem = m';
  used_size = sub_word 64 h.used_size (add_word 64 (h.mem b).size hdr_size);
}

module _ (h : Heap) (xs zs : List ℕ) (m' : Mem) (s b : ℕ) (i : IsHeap h xs) (hs : has s xs ≡ true)
    (freed : (q : ℕ) (g : Bool)
      → Chain h.mem (heap_end h) q s s (s ∷ after s xs)
      → Coalesced h.mem g (s ∷ after s xs)
      → Freed h.mem m' (heap_end h) q s b g (s ∷ after s xs) zs) where
  some_freed : (g : Bool) × Freed h.mem m' (heap_end h) (h.mem s).prev s b g (s ∷ after s xs) zs
  some_freed =
      let k = Coalesced-suffix h.mem xs s false hs i.coalesced in
      (
        k.0,
        freed (h.mem s).prev k.0
            (Chain-suffix h.mem (heap_end h) xs null h.heap_head h.heap_head s i.chain hs) k.1,
      )

  pub Freed-IsHeap : IsHeap (freed_heap h m' b) (before s xs ++ zs)
  unfolding some_freed
  Freed-IsHeap =
      let f = some_freed.1 in
      let fin = heap_end h in
      let chain : Chain m' fin null h.heap_head h.heap_head (before s xs ++ zs) =
        Chain-splice h.mem m' fin zs xs null h.heap_head h.heap_head s i.chain hs f.below (λ q c.
          (freed q some_freed.0 c (Coalesced-suffix h.mem xs s false hs i.coalesced).1).chain) in
      let account =
        used_by-splice h.mem m' fin zs xs null h.heap_head h.heap_head s i.chain hs f.below in
      let room = used_by-le h.mem fin xs null h.heap_head h.heap_head i.chain in
      let used = i.used in
      let small = i.small in
      let u = f.used in
      record {
        pos = i.pos;
        aligned = i.aligned;
        small = i.small;
        chain = chain;
        used = omega arith;
        coalesced =
            Coalesced-splice h.mem m' fin zs xs null h.heap_head h.heap_head s false i.chain hs
              f.below
              (λ g k.
                (freed (h.mem s).prev g
                  (Chain-suffix h.mem fin xs null h.heap_head h.heap_head s i.chain hs)
                  k).coalesced)
              i.coalesced;
      }

  pub Freed-Live : Live h.mem m' xs (before s xs ++ zs) b
  Freed-Live a ha ne f = elim (has-split a s xs ha hs) [
    | inl front ↦
        let lt =
          Chain-before h.mem (heap_end h) xs null h.heap_head h.heap_head a s i.chain hs front in
        rw (some_freed.1.below a lt) (has-append_left a (before s xs) zs front, refl, f)
    | inr back ↦
        let r = some_freed.1.live a back ne f in (has-append_right a (before s xs) zs r.0, r.1, r.2)
  ]
