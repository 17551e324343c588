-- ===== src/Heap/Take.antt =====
-- `malloc` of kernel/src/heap.c on the block list: the first-fit search and the split.
use choco_os.Base.{
  ℕ, zero, suc, ◌+◌, ◌-◌, ◌%◌, ◌^◌, ◌≤◌, ◌<◌, ◌≡◌, ◌≢◌, refl, Bool, true, false, not, ◌&&◌, ltb,
  leb, ◌==◌, if◌then◌else◌, length, leb→le, ==_refl, List, [], ◌∷◌, arith, ◌⊎◌, inl, inr,
  Bool-cases,
}
use choco_os.Heap.{
  Mem, null, hdr_size, Search, found, missing, find_fit, split_at, split_block, take_block,
}
use choco_os.Heap.Chain.{Chain, block_end, has, SameBelow, Chain-frame, Chain-relink}

abbrev pub fits : Mem → ℕ → ℕ → Bool
fits m size b = (m b).free && not (ltb (m b).size size)

-- The search on the list that the pointers stand for.
abbrev pub first_fit : Mem → ℕ → List ℕ → Search
first_fit m size [] = missing
first_fit m size (x ∷ xs) = if fits m size x then found x else first_fit m size xs

-- With a round of fuel for each block, the loop is the search on the list.
pub find_fit-eq-first_fit :
    (m : Mem) (fin size fuel : ℕ) (xs : List ℕ) (prev here p : ℕ)
    → Chain m fin prev here p xs
    → 0 < here
    → length xs < fuel
    → find_fit fuel m size p ≡ first_fit m size xs
unfolding find_fit
find_fit-eq-first_fit m fin size zero xs prev here p c pos h = absurd (omega arith)
find_fit-eq-first_fit m fin size (suc fuel) [] prev here p c pos h = ground arith
find_fit-eq-first_fit m fin size (suc fuel) (x ∷ xs) prev here p c pos h =
    let ih =
      find_fit-eq-first_fit m fin size fuel xs x (block_end m x) (m x).next c.4 (omega arith)
        (omega arith) in
    let px : (p == null) ≡ false = ground arith in rw (px, c.0, ih) (ground arith)

pub first_fit-found :
    (m : Mem) (size : ℕ) (xs : List ℕ) (b : ℕ)
    → first_fit m size xs ≡ found b
    → (has b xs ≡ true) × (fits m size b ≡ true)
first_fit-found m size [] b e = cc
first_fit-found m size (x ∷ xs) b e = ground (arith, first_fit-found m size xs b)

-- The region of `b` as the split leaves it.
abbrev pub taken : Mem → ℕ → ℕ → List ℕ → List ℕ
taken m b size post =
    if leb (size + 48) (m b).size then b ∷ (b + hdr_size + size) ∷ post else b ∷ post

-- What the split needs of the block and of the request.
pub record Splits (m : Mem) (fin b size : ℕ) : Type 0 where
  pub pos : 0 < b
  pub fits_in : size ≤ (m b).size
  pub aligned : size % 16 ≡ 0
  pub inside : block_end m b ≤ fin
  pub small : fin + 64 ≤ 2 ^ 64
  pub next : ((m b).next ≡ null) ⊎ ((m b).next ≡ block_end m b)

module _ (m : Mem) (fin b size : ℕ) (s : Splits m fin b size) (room : size + 48 ≤ (m b).size) where
  split_at-eq : split_at b size ≡ b + 32 + size
  split_at-eq = let inside = s.inside in let small = s.small in omega arith

  split_block-below : SameBelow b m (split_block m b size)
  unfolding split_block
  split_block-below a h = rw split_at-eq (ground (arith, s.next))

  split_block_self :
      split_block m b size b
      ≡ record { size = size; free = (m b).free; next = b + 32 + size; prev = (m b).prev }
  unfolding split_block
  split_block_self = rw split_at-eq (ground (arith, s.next, s.pos))

  split_block-rest :
      split_block m b size (b + 32 + size)
      ≡ record { size = (m b).size - size - 32; free = true; next = (m b).next; prev = b }
  unfolding split_block
  split_block-rest = rw split_at-eq (ground (arith, s.next, s.inside, s.small))

  split_block-other : (a : ℕ) → block_end m b ≤ a → a ≢ (m b).next → split_block m b size a ≡ m a
  unfolding split_block
  split_block-other a h ne = rw split_at-eq (ground (arith, s.next))

  split_block-next :
      (m b).next ≢ null
      → split_block m b size (m b).next ≡ record (m (m b).next) { prev = b + 32 + size }
  unfolding split_block
  split_block-next ne = rw split_at-eq (ground (arith, s.next))

-- The size of the block that is handed out: the request, or the whole block if it is not split.
abbrev pub granted : Mem → ℕ → ℕ → ℕ
granted m b size = if leb (size + 48) (m b).size then size else (m b).size

-- A change of the store that leaves size and mark of each block from an address on.
abbrev pub SameBlocks : ℕ → Mem → Mem → Type 0
SameBlocks b m m' = (a : ℕ) → b ≤ a → ((m' a).size ≡ (m a).size) × ((m' a).free ≡ (m a).free)

module _ (m : Mem) (fin b size : ℕ) (s : Splits m fin b size) where
  room-eq : leb ((((size + 32) % 2 ^ 64) + 16) % 2 ^ 64) (m b).size ≡ leb (size + 48) (m b).size
  room-eq = let f = s.fits_in in let i = s.inside in let l = s.small in ground arith

  -- Both ends of the test, with what `take_block` is on that side.
  take_block-whole :
      leb (size + 48) (m b).size ≡ false
      → (a : ℕ) → take_block m b size a ≡ (if a == b then record (m b) { free = false } else m a)
  unfolding take_block
  take_block-whole e a = rw (room-eq, e) refl

  take_block-split :
      leb (size + 48) (m b).size ≡ true
      → (a : ℕ)
      → take_block m b size a ≡ (
          if a == b
          then record { size = size; free = false; next = b + 32 + size; prev = (m b).prev }
          else split_block m b size a)
  unfolding take_block
  take_block-split e a = rw (room-eq, e, split_block_self m fin b size s (leb→le _ _ e)) refl

  pub take_block-below : SameBelow b m (take_block m b size)
  take_block-below a h = elim (Bool-cases (leb (size + 48) (m b).size)) [
    | inl e ↦
        rw (take_block-split e a)
          (ground (arith, split_block-below m fin b size s (leb→le _ _ e) a h))
    | inr e ↦ rw (take_block-whole e a) (ground arith)
  ]

  pub take_block_self :
      ((take_block m b size b).size ≡ granted m b size)
      × ((take_block m b size b).free ≡ false)
      × ((take_block m b size b).prev ≡ (m b).prev)
  take_block_self = elim (Bool-cases (leb (size + 48) (m b).size)) [
    | inl e ↦ rw (take_block-split e b, e, ==_refl) (refl, refl, refl)
    | inr e ↦ rw (take_block-whole e b, e, ==_refl) (refl, refl, refl)
  ]

  pub take_block-SameBlocks : SameBlocks (block_end m b) m (take_block m b size)
  take_block-SameBlocks a h = elim (Bool-cases (leb (size + 48) (m b).size)) [
    | inl e ↦
        let room : size + 48 ≤ (m b).size = leb→le _ _ e in
        rw (take_block-split e a) (
          ground (
            arith,
            split_block-other m fin b size s room a h,
            split_block-next m fin b size s room,
          ))
    | inr e ↦ rw (take_block-whole e a) (ground arith)
  ]

  take_block-Chain_split :
      (q : ℕ) (post : List ℕ)
      → leb (size + 48) (m b).size ≡ true
      → Chain m fin q b b (b ∷ post)
      → Chain (take_block m b size) fin q b b (b ∷ (b + 32 + size) ∷ post)
  take_block-Chain_split q post e c =
      let room : size + 48 ≤ (m b).size = leb→le _ _ e in
      let self = take_block-split e b in
      let rest = take_block-split e (b + 32 + size) in
      let past : ((b + 32 + size) == b) ≡ false = ground arith in
      let ends : (b + 32 + size) + 32 + ((m b).size - size - 32) ≡ block_end m b = omega arith in
      let tail : Chain (take_block m b size) fin (b + 32 + size) (block_end m b) (m b).next post =
        Chain-relink m (take_block m b size) fin post b (b + 32 + size) (block_end m b) (m b).next
          (λ a h ne.
            rw (take_block-split e a)
              (ground (arith, split_block-other m fin b size s room a h ne)))
          (λ ne.
            rw (take_block-split e (m b).next)
              (ground (arith, s.next, split_block-next m fin b size s room ne)))
          c.4 (omega arith) in
      let al = s.aligned in
      rw (self, ==_refl, rest, past, split_block-rest m fin b size s room)
        (refl, refl, c.2, s.aligned, (refl, refl, refl, omega arith, rw ends tail))

  take_block-Chain_whole :
      (q : ℕ) (post : List ℕ)
      → leb (size + 48) (m b).size ≡ false
      → Chain m fin q b b (b ∷ post)
      → Chain (take_block m b size) fin q b b (b ∷ post)
  take_block-Chain_whole q post e c =
      rw (take_block-whole e b, ==_refl)
        (
          refl,
          refl,
          c.2,
          c.3,
          Chain-frame m (take_block m b size) fin post b (block_end m b) (m b).next
              (λ a h. rw (take_block-whole e a) (ground arith)) c.4,
        )

  -- The taken block, and what a split leaves of it, tile the region that the block had.
  pub take_block-Chain :
      (q : ℕ) (post : List ℕ)
      → Chain m fin q b b (b ∷ post)
      → Chain (take_block m b size) fin q b b (taken m b size post)
  take_block-Chain q post c = elim (Bool-cases (leb (size + 48) (m b).size)) [
    | inl e ↦ rw e (take_block-Chain_split q post e c)
    | inr e ↦ rw e (take_block-Chain_whole q post e c)
  ]

  -- What the split leaves is free.
  pub take_block-rest :
      leb (size + 48) (m b).size ≡ true → (take_block m b size (b + 32 + size)).free ≡ true
  take_block-rest e =
      let past : ((b + 32 + size) == b) ≡ false = ground arith in
      rw (take_block-split e (b + 32 + size), past, split_block-rest m fin b size s (leb→le _ _ e))
        refl
