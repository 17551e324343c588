-- ===== src/Heap/Inv.antt =====
-- The invariant of the heap of kernel/src/heap.c, and how it follows a change of the block list.
use choco_os.Base.{
  ℕ, ◌+◌, ◌%◌, ◌^◌, ◌≤◌, ◌<◌, ◌≡◌, refl, Bool, true, false, ◌&&◌, ◌==◌, if◌then◌else◌, List, [],
  ◌∷◌, ◌++◌, arith, Bool-cases, inl, inr,
}
use choco_os.Heap.{Mem, Heap, null, hdr_size}
use choco_os.Heap.Chain.{
  Chain, block_end, has, before, after, SameBelow, Chain-has, Chain-head, Chain-suffix,
}
use choco_os.Heap.Take.{SameBlocks, Splits}

-- What a block in use takes of the region.
abbrev pub cost : Mem → ℕ → ℕ
cost m b = if (m b).free then 0 else (m b).size + hdr_size

abbrev pub used_by : Mem → List ℕ → ℕ
used_by m [] = 0
used_by m (x ∷ xs) = cost m x + used_by m xs

-- No two neighbours are both free; `f` says whether the block before the list is.
abbrev pub Coalesced : Mem → Bool → List ℕ → Type 0
Coalesced m f [] = Unit
Coalesced m f (x ∷ xs) = ((f && (m x).free) ≡ false) × Coalesced m (m x).free xs

-- The end of the heap's region.
abbrev pub heap_end : Heap → ℕ
heap_end h = h.heap_head + h.total_size

-- The heap's blocks are `xs`, by address.
pub record IsHeap (h : Heap) (xs : List ℕ) : Type 0 where
  pub pos : 0 < h.heap_head
  pub aligned : h.heap_head % 16 ≡ 0
  pub small : heap_end h + 64 ≤ 2 ^ 64
  pub chain : Chain h.mem (heap_end h) null h.heap_head h.heap_head xs
  pub used : h.used_size ≡ used_by h.mem xs
  pub coalesced : Coalesced h.mem false xs

pub used_by-frame :
    (m m' : Mem) (fin : ℕ) (xs : List ℕ) (prev here p : ℕ)
    → SameBlocks here m m'
    → Chain m fin prev here p xs
    → used_by m' xs ≡ used_by m xs
used_by-frame m m' fin [] prev here p same c = refl
used_by-frame m m' fin (x ∷ xs) prev here p same c =
    let e = same x (omega arith) in
    rw
      (
        e.0,
        e.1,
        used_by-frame m m' fin xs x (block_end m x) (m x).next (λ a h. same a (omega arith)) c.4,
      )
      refl

pub Coalesced-frame :
    (m m' : Mem) (fin : ℕ) (xs : List ℕ) (prev here p : ℕ) (f : Bool)
    → SameBlocks here m m'
    → Chain m fin prev here p xs
    → Coalesced m f xs
    → Coalesced m' f xs
Coalesced-frame m m' fin [] prev here p f same c k = k
Coalesced-frame m m' fin (x ∷ xs) prev here p f same c k =
    let e = same x (omega arith) in
    rw e.1 (
      k.0,
      Coalesced-frame m m' fin xs x (block_end m x) (m x).next (m x).free
          (λ a h. same a (omega arith)) c.4 k.1,
    )

-- The blocks in use take no more than the region.
pub used_by-le :
    (m : Mem) (fin : ℕ) (xs : List ℕ) (prev here p : ℕ)
    → Chain m fin prev here p xs
    → here + used_by m xs ≤ fin
used_by-le m fin [] prev here p c = omega arith
used_by-le m fin (x ∷ xs) prev here p c =
    ground (arith, used_by-le m fin xs x (block_end m x) (m x).next c.4)

-- A block in use is part of the account.
pub used_by-has :
    (m : Mem) (xs : List ℕ) (b : ℕ)
    → has b xs ≡ true
    → (m b).free ≡ false
    → (m b).size + 32 ≤ used_by m xs
used_by-has m [] b h f = cc
used_by-has m (x ∷ xs) b h f = ground (arith, used_by-has m xs b)

-- The account of a list whose end, from `b` on, is replaced.
pub used_by-splice :
    (m m' : Mem) (fin : ℕ) (ys xs : List ℕ) (prev here p b : ℕ)
    → Chain m fin prev here p xs
    → has b xs ≡ true
    → SameBelow b m m'
    → used_by m' (before b xs ++ ys) + used_by m (b ∷ after b xs) ≡ used_by m xs + used_by m' ys
used_by-splice m m' fin ys [] prev here p b c h same = cc
used_by-splice m m' fin ys (x ∷ xs) prev here p b c h same = elim (Bool-cases (b == x)) [
  | inl e ↦ let bx : b ≡ x = ground arith in rw (e, bx) (omega arith)
  | inr e ↦
      let inside = Chain-has m fin xs x (block_end m x) (m x).next b c.4 (ground arith) in
      let ex : m' x ≡ m x = same x (omega arith) in
      let ih =
        used_by-splice m m' fin ys xs x (block_end m x) (m x).next b c.4 (ground arith) same in
      rw (e, ex) (omega arith)
]

pub Coalesced-splice :
    (m m' : Mem) (fin : ℕ) (ys xs : List ℕ) (prev here p b : ℕ) (f : Bool)
    → Chain m fin prev here p xs
    → has b xs ≡ true
    → SameBelow b m m'
    → ((g : Bool) → Coalesced m g (b ∷ after b xs) → Coalesced m' g ys)
    → Coalesced m f xs
    → Coalesced m' f (before b xs ++ ys)
Coalesced-splice m m' fin ys [] prev here p b f c h same tail k = cc
Coalesced-splice m m' fin ys (x ∷ xs) prev here p b f c h same tail k = elim (Bool-cases (b == x)) [
  | inl e ↦ let bx : b ≡ x = ground arith in rw e (rw e at tail f (rw bx k))
  | inr e ↦
      let inside = Chain-has m fin xs x (block_end m x) (m x).next b c.4 (ground arith) in
      let ex : m' x ≡ m x = same x (omega arith) in
      rw (e, ex)
        (
          k.0,
          Coalesced-splice m m' fin ys xs x (block_end m x) (m x).next b (m x).free c.4
              (ground arith) same (rw e at tail) k.1,
        )
]

-- The list from a block on, with the mark of the block before it.
pub Coalesced-suffix :
    (m : Mem) (xs : List ℕ) (b : ℕ) (f : Bool)
    → has b xs ≡ true
    → Coalesced m f xs
    → (g : Bool) × Coalesced m g (b ∷ after b xs)
Coalesced-suffix m [] b f h k = cc
Coalesced-suffix m (x ∷ xs) b f h k = elim (Bool-cases (b == x)) [
  | inl e ↦ let bx : b ≡ x = ground arith in rw e (f, rw bx k)
  | inr e ↦ rw e (Coalesced-suffix m xs b (m x).free (rw e at h) k.1)
]

-- A block of the heap, and a request that it holds, meet what the split needs.
pub IsHeap-Splits :
    (h : Heap) (xs : List ℕ) (b size : ℕ)
    → IsHeap h xs
    → has b xs ≡ true
    → size ≤ (h.mem b).size
    → size % 16 ≡ 0
    → Splits h.mem (heap_end h) b size
IsHeap-Splits h xs b size i mem le al =
    let inside = Chain-has h.mem (heap_end h) xs null h.heap_head h.heap_head b i.chain mem in
    let suffix = Chain-suffix h.mem (heap_end h) xs null h.heap_head h.heap_head b i.chain mem in
    let pos = i.pos in
    record {
      pos = omega arith;
      fits_in = le;
      aligned = al;
      inside = inside.1;
      small = i.small;
      next =
          Chain-head h.mem (heap_end h) (after b xs) b (block_end h.mem b) (h.mem b).next suffix.4;
    }
