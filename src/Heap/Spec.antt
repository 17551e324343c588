-- ===== src/Heap/Spec.antt =====
-- The contract of `malloc` of kernel/src/heap.c, and that the code meets it.
use choco_os.Base.{
  ℕ, ◌+◌, ◌%◌, ◌^◌, ◌≤◌, ◌<◌, ◌≡◌, ◌≢◌, refl, true, false, ◌||◌, ◌==◌, some, List, [], ◌∷◌, ◌++◌,
  arith, ◌⊎◌, inl, inr, sym, ◌∙◌, ap, true≢false,
}
use choco_os.Heap.{
  Mem, Heap, null, Search, found, missing, out_of_fuel, find_fit, take_block, grant, malloc, rounds,
  round_up, Result,
}
use choco_os.Heap.Chain.{
  block_end, has, has-before, before, after, Chain-has, Chain-apart, Chain-length,
}
use choco_os.Heap.Take.{
  fits, first_fit, taken, granted, find_fit-eq-first_fit, first_fit-found, take_block-below,
  take_block_self, take_block-SameBlocks,
}
use choco_os.Heap.Inv.{heap_end, IsHeap, IsHeap-Splits}
use choco_os.Heap.Malloc.{after_grant, after_blocks, grant-IsHeap}

-- No block of the list fits a request.
abbrev pub NoFit : Mem → ℕ → List ℕ → Type 0
NoFit m size xs = (a : ℕ) → has a xs ≡ true → fits m size a ≡ false

-- Every block but `b` is still there, with its size and its mark.
abbrev pub Kept : Heap → Heap → List ℕ → List ℕ → ℕ → Type 0
Kept h h' xs xs' b =
    (a : ℕ)
    → has a xs ≡ true
    → a ≢ b
    → (has a xs' ≡ true) × ((h'.mem a).size ≡ (h.mem a).size) × ((h'.mem a).free ≡ (h.mem a).free)

-- What a call of `malloc` returns: NULL and the heap as it was, or the first block that fits.
pub data Allocates (h : Heap) (xs : List ℕ) (size : ℕ) : Result → Type 0 where
  refused : NoFit h.mem size xs → Allocates h xs size (some (null, h))
  served :
      (b : ℕ) (h' : Heap) (xs' : List ℕ)
      → has b xs ≡ true
      → fits h.mem size b ≡ true
      → NoFit h.mem size (before b xs)
      → (has b xs' ≡ true) × (size ≤ (h'.mem b).size) × ((h'.mem b).free ≡ false)
      → Kept h h' xs xs' b
      → IsHeap h' xs'
      → Allocates h xs size (some (b + 32, h'))

first_fit-missing :
    (m : Mem) (r : ℕ) (xs : List ℕ) (a : ℕ)
    → first_fit m r xs ≡ missing
    → has a xs ≡ true
    → fits m r a ≡ false
first_fit-missing m r [] a e h = cc
first_fit-missing m r (x ∷ xs) a e h = ground (arith, first_fit-missing m r xs a)

first_fit-before :
    (m : Mem) (r : ℕ) (xs : List ℕ) (b a : ℕ)
    → first_fit m r xs ≡ found b
    → has a (before b xs) ≡ true
    → fits m r a ≡ false
first_fit-before m r [] b a e h = cc
first_fit-before m r (x ∷ xs) b a e h = ground (arith, first_fit-before m r xs b a)

-- Sizes of blocks are multiples of 16, so a block fits a request when it fits the rounded one.
fits-round_up :
    (m : Mem) (size a : ℕ)
    → size + 15 < 2 ^ 64
    → (m a).size % 16 ≡ 0
    → fits m (round_up size) a ≡ fits m size a
fits-round_up m size a h al = ground arith

round_up-le : (size : ℕ) → size + 15 < 2 ^ 64 → size ≤ round_up size
round_up-le size h = omega arith

-- The blocks of a list in which `b` was split.
has-after_blocks :
    (m : Mem) (b r a : ℕ) (xs : List ℕ)
    → has b xs ≡ true
    → has a xs ≡ true
    → has a (before b xs ++ taken m b r (after b xs)) ≡ true
has-after_blocks m b r a [] hb h = cc
has-after_blocks m b r a (x ∷ xs) hb h = ground (arith, has-after_blocks m b r a xs)

first_fit-ne-out : (m : Mem) (r : ℕ) (xs : List ℕ) → first_fit m r xs ≢ out_of_fuel
first_fit-ne-out m r [] e = cc
first_fit-ne-out m r (x ∷ xs) e = ground (arith, first_fit-ne-out m r xs)

Search-cases : (s : Search) → s ≢ out_of_fuel → (s ≡ missing) ⊎ ((b : ℕ) × (s ≡ found b))
Search-cases (found b) ne = inr (b, refl)
Search-cases missing ne = inl refl
Search-cases out_of_fuel ne = absurd (ne refl)

module _ (h : Heap) (xs : List ℕ) (i : IsHeap h xs) where
  block_size :
      (a : ℕ) → has a xs ≡ true → (block_end h.mem a ≤ heap_end h) × ((h.mem a).size % 16 ≡ 0)
  block_size a m =
      let c = Chain-has h.mem (heap_end h) xs null h.heap_head h.heap_head a i.chain m in (c.1, c.2)

  -- The loop is given enough rounds.
  pub find_fit-rounds : (r : ℕ) → find_fit (rounds h) h.mem r h.heap_head ≡ first_fit h.mem r xs
  find_fit-rounds r =
      let len = Chain-length h.mem (heap_end h) xs null h.heap_head h.heap_head i.chain in
      find_fit-eq-first_fit h.mem (heap_end h) r (rounds h) xs null h.heap_head h.heap_head i.chain
        i.pos (omega arith)

  pub Kept-after_grant :
      (b r : ℕ)
      → has b xs ≡ true
      → r ≤ (h.mem b).size
      → r % 16 ≡ 0
      → Kept h (after_grant h b r) xs (after_blocks h xs b r) b
  Kept-after_grant b r mem le al a ha ne =
      let s = IsHeap-Splits h xs b r i mem le al in
      let apart =
        Chain-apart h.mem (heap_end h) xs null h.heap_head h.heap_head a b i.chain ha mem ne in
      let same : ((take_block h.mem b r a).size ≡ (h.mem a).size)
          × ((take_block h.mem b r a).free ≡ (h.mem a).free) =
        elim apart [
          | inl lt ↦
              let e = take_block-below h.mem (heap_end h) b r s a (omega arith) in rw e (refl, refl)
          | inr ge ↦ take_block-SameBlocks h.mem (heap_end h) b r s a ge
        ] in
      (has-after_blocks h.mem b r a xs mem ha, same.0, same.1)

  grant-found :
      (size b : ℕ)
      → size + 15 < 2 ^ 64
      → first_fit h.mem (round_up size) xs ≡ found b
      → Allocates h xs size (grant h (round_up size) (found b))
  unfolding grant
  grant-found size b small e =
      let f = first_fit-found h.mem (round_up size) xs b e in
      let bs = block_size b f.0 in
      let fr : (h.mem b).free ≡ true = ground arith in
      let le : round_up size ≤ (h.mem b).size = ground arith in
      let al : round_up size % 16 ≡ 0 = omega arith in
      let s = IsHeap-Splits h xs b (round_up size) i f.0 le al in
      let self = take_block_self h.mem (heap_end h) b (round_up size) s in
      let ptr : (b + 32) % 2 ^ 64 ≡ b + 32 = let l = i.small in omega arith in
      let enough : size ≤ granted h.mem b (round_up size) =
        ground (arith, round_up-le size small) in
      rw ptr (
        served b (after_grant h b (round_up size)) (after_blocks h xs b (round_up size)) f.0
          (rw (fits-round_up h.mem size b small bs.1) at (f.1))
          (λ a ha.
            rw (fits-round_up h.mem size a small (block_size a (has-before b a xs ha)).1) at
              (first_fit-before h.mem (round_up size) xs b a e ha))
          (has-after_blocks h.mem b (round_up size) b xs f.0 f.0, rw self.0 enough, self.1)
          (Kept-after_grant b (round_up size) f.0 le al)
          (grant-IsHeap h xs b (round_up size) i f.0 fr le al))

  grant-missing :
      (size : ℕ)
      → size + 15 < 2 ^ 64
      → first_fit h.mem (round_up size) xs ≡ missing
      → Allocates h xs size (grant h (round_up size) missing)
  unfolding grant
  grant-missing size small e = refused (λ a ha.
      rw (fits-round_up h.mem size a small (block_size a ha).1) at
        (first_fit-missing h.mem (round_up size) xs a e ha))

-- On a valid heap `malloc` ends: when no free block holds the request, it returns NULL and leaves the
-- heap as it is, and else it returns the first such block by address, in use, at least as large as the
-- request, in a valid heap that keeps every other block with its size and mark. The request is not
-- 0 and no more than 2^64 - 16.
pub malloc-Allocates :
    (h : Heap) (xs : List ℕ) (size : ℕ)
    → IsHeap h xs
    → 0 < size
    → size + 15 < 2 ^ 64
    → Allocates h xs size (malloc h size)
unfolding malloc
malloc-Allocates h xs size i pos small =
    let hd = i.pos in
    let go : ((size == 0) || (h.heap_head == null)) ≡ false = ground arith in
    rw (go, find_fit-rounds h xs i (round_up size))
      (elim (Search-cases (first_fit h.mem (round_up size) xs)
        (first_fit-ne-out h.mem (round_up size) xs)) [
          | inl e ↦ rw e (grant-missing h xs i size small e)
          | inr p ↦ rw p.1 (grant-found h xs i size p.0 small p.1)
        ])

first_fit-some :
    (m : Mem) (r : ℕ) (xs : List ℕ) (a : ℕ)
    → has a xs ≡ true
    → fits m r a ≡ true
    → (b : ℕ) × (first_fit m r xs ≡ found b)
first_fit-some m r xs a ha f = elim (Search-cases (first_fit m r xs) (first_fit-ne-out m r xs)) [
  | inl e ↦ let no = first_fit-missing m r xs a e ha in absurd (true≢false (sym f ∙ no))
  | inr p ↦ p
]

-- A request of 2^64 - 15 bytes or more wraps to 0 when it is rounded up: if any block of a valid heap
-- is free, `malloc` returns a block that is smaller than the request.
pub malloc_oversize :
    (h : Heap) (xs : List ℕ) (size a : ℕ)
    → IsHeap h xs
    → 2 ^ 64 ≤ size + 15
    → size < 2 ^ 64
    → has a xs ≡ true
    → (h.mem a).free ≡ true
    → (b : ℕ) × (h' : Heap) × (malloc h size ≡ some (b + 32, h')) × ((h'.mem b).size < size)
unfolding malloc grant
malloc_oversize h xs size a i big word ha fr =
    let hd = i.pos in
    let go : ((size == 0) || (h.heap_head == null)) ≡ false = ground arith in
    let zr : round_up size ≡ 0 = omega arith in
    let fa : fits h.mem 0 a ≡ true = ground arith in
    let f = first_fit-some h.mem 0 xs a ha fa in
    let fb = first_fit-found h.mem 0 xs f.0 f.1 in
    let bs = block_size h xs i f.0 fb.0 in
    let s = IsHeap-Splits h xs f.0 0 i fb.0 (omega arith) refl in
    let self = take_block_self h.mem (heap_end h) f.0 0 s in
    let l = i.small in
    (
      f.0,
      after_grant h f.0 0,
      rw (go, zr, find_fit-rounds h xs i 0, f.1)
          (ap (λ p. some (p, after_grant h f.0 0)) (omega arith)),
      rw self.0 (ground arith),
    )
