-- ===== src/Heap/Malloc.antt =====
-- What `malloc` of kernel/src/heap.c promises.
use choco_os.Base.{
  ℕ, ◌+◌, ◌%◌, ◌^◌, ◌≤◌, ◌≡◌, refl, Bool, true, false, leb, List, [], ◌∷◌, ◌++◌, arith, Bool-cases,
  inl, inr,
}
use choco_os.Heap.{Mem, Heap, null, take_block}
use choco_os.Heap.Chain.{Chain, block_end, has, before, after, Chain-suffix, Chain-splice}
use choco_os.Heap.Take.{
  Splits, taken, granted, take_block-below, take_block_self, take_block-SameBlocks,
  take_block-Chain, take_block-rest,
}
use choco_os.Heap.Inv.{
  cost, used_by, Coalesced, heap_end, IsHeap, used_by-frame, Coalesced-frame, used_by-le,
  used_by-splice, Coalesced-splice, IsHeap-Splits,
}

Coalesced-weaken : (m : Mem) (f : Bool) (xs : List ℕ) → Coalesced m true xs → Coalesced m f xs
Coalesced-weaken m f [] k = k
Coalesced-weaken m true (x ∷ xs) k = k
Coalesced-weaken m false (x ∷ xs) k = (refl, k.1)

-- The heap after a grant.
abbrev pub after_grant : Heap → ℕ → ℕ → Heap
after_grant h b r = record h {
  mem = take_block h.mem b r;
  used_size = (h.used_size + ((take_block h.mem b r b).size + 32) % 2 ^ 64) % 2 ^ 64;
}

abbrev pub after_blocks : Heap → List ℕ → ℕ → ℕ → List ℕ
after_blocks h xs b r = before b xs ++ taken h.mem b r (after b xs)

module _ (h : Heap) (xs : List ℕ) (b r : ℕ) (i : IsHeap h xs) (mem : has b xs ≡ true)
    (fr : (h.mem b).free ≡ true) (le : r ≤ (h.mem b).size) (al : r % 16 ≡ 0) where
  splits : Splits h.mem (heap_end h) b r
  splits = IsHeap-Splits h xs b r i mem le al

  suffix : Chain h.mem (heap_end h) (h.mem b).prev b b (b ∷ after b xs)
  suffix = Chain-suffix h.mem (heap_end h) xs null h.heap_head h.heap_head b i.chain mem

  used_by-taken :
      used_by (take_block h.mem b r) (taken h.mem b r (after b xs))
      ≡ granted h.mem b r + 32 + used_by h.mem (after b xs)
  used_by-taken =
      let self = take_block_self h.mem (heap_end h) b r splits in
      let rest =
        used_by-frame h.mem (take_block h.mem b r) (heap_end h) (after b xs) b (block_end h.mem b)
          (h.mem b).next (take_block-SameBlocks h.mem (heap_end h) b r splits) suffix.4 in
      elim (Bool-cases (leb (r + 48) (h.mem b).size)) [
        | inl e ↦ rw e (
            rw (self.1, self.0, take_block-rest h.mem (heap_end h) b r splits e, rest, e)
              (omega arith))
        | inr e ↦ rw e (rw (self.1, self.0, rest, e) (omega arith))
      ]

  Coalesced-taken :
      (g : Bool)
      → Coalesced h.mem g (b ∷ after b xs)
      → Coalesced (take_block h.mem b r) g (taken h.mem b r (after b xs))
  Coalesced-taken g k =
      let self = take_block_self h.mem (heap_end h) b r splits in
      let rest : (f : Bool)
          → Coalesced h.mem f (after b xs)
          → Coalesced (take_block h.mem b r) f (after b xs) =
        λ f.
          Coalesced-frame h.mem (take_block h.mem b r) (heap_end h) (after b xs) b
            (block_end h.mem b) (h.mem b).next f
            (take_block-SameBlocks h.mem (heap_end h) b r splits) suffix.4 in
      elim (Bool-cases (leb (r + 48) (h.mem b).size)) [
        | inl e ↦ rw e (
            rw (self.1, take_block-rest h.mem (heap_end h) b r splits e)
              (ground arith, (refl, rest true (rw fr at (k.1)))))
        | inr e ↦ rw e (
            rw self.1 (
              ground arith,
              rest false (Coalesced-weaken h.mem false (after b xs) (rw fr at (k.1))),
            ))
      ]

  -- A grant keeps the invariant.
  pub grant-IsHeap : IsHeap (after_grant h b r) (after_blocks h xs b r)
  grant-IsHeap =
      let m' = take_block h.mem b r in
      let fin = heap_end h in
      let below = take_block-below h.mem fin b r splits in
      let self = take_block_self h.mem fin b r splits in
      let chain : Chain m' fin null h.heap_head h.heap_head (after_blocks h xs b r) =
        Chain-splice h.mem m' fin (taken h.mem b r (after b xs)) xs null h.heap_head h.heap_head b
          i.chain mem below (λ q c. take_block-Chain h.mem fin b r splits q (after b xs) c) in
      let account =
        used_by-splice h.mem m' fin (taken h.mem b r (after b xs)) xs null h.heap_head h.heap_head b
          i.chain mem below in
      let room = used_by-le m' fin (after_blocks h xs b r) null h.heap_head h.heap_head chain in
      let cost0 : cost h.mem b ≡ 0 = rw fr refl in
      let used = i.used in
      let small = i.small in
      record {
        pos = i.pos;
        aligned = i.aligned;
        small = i.small;
        chain = chain;
        used = rw self.0 (omega (arith, used_by-taken));
        coalesced =
            Coalesced-splice h.mem m' fin (taken h.mem b r (after b xs)) xs null h.heap_head
              h.heap_head b false i.chain mem below Coalesced-taken i.coalesced;
      }
