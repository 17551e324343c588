-- ===== src/Heap/Chain.antt =====
-- The block list of kernel/src/heap.c as a shape of the store: what `next` and `prev` link, and
-- how the blocks tile the heap's region.
use choco_os.Base.{
  ℕ, ◌+◌, ◌*◌, ◌%◌, ◌≤◌, ◌<◌, ◌≡◌, ◌≢◌, refl, ◌∙◌, length, Bool, true, false, ◌||◌, ◌==◌, List, [],
  ◌∷◌, ◌++◌, arith, if◌then◌else◌, ◌⊎◌, inl, inr, Bool-cases, ==_refl,
}
use choco_os.Heap.{Mem, null, hdr_size}

-- Where the block after `b` begins.
abbrev pub block_end : Mem → ℕ → ℕ
block_end m b = b + hdr_size + (m b).size

-- From `p` the list visits exactly the addresses `xs`: each block begins at `here`, where the one
-- before it ends, points back to it, and has a size that is a multiple of 16; the last ends at `fin`.
abbrev pub Chain : Mem → ℕ → (prev here p : ℕ) → List ℕ → Type 0
Chain m fin prev here p [] = (p ≡ null) × (here ≡ fin)
Chain m fin prev here p (x ∷ xs) =
    (p ≡ x)
    × (x ≡ here)
    × ((m x).prev ≡ prev)
    × ((m x).size % 16 ≡ 0)
    × Chain m fin x (block_end m x) (m x).next xs

abbrev pub has : ℕ → List ℕ → Bool
has a [] = false
has a (x ∷ xs) = (a == x) || has a xs

-- The addresses before `b`, and those behind it.
abbrev pub before : ℕ → List ℕ → List ℕ
before b [] = []
before b (x ∷ xs) = if b == x then [] else x ∷ before b xs

abbrev pub after : ℕ → List ℕ → List ℕ
after b [] = []
after b (x ∷ xs) = if b == x then xs else after b xs

-- The two stores agree below an address, or from it on.
abbrev pub SameBelow : ℕ → Mem → Mem → Type 0
SameBelow b m m' = (a : ℕ) → a < b → m' a ≡ m a

abbrev pub SameFrom : ℕ → Mem → Mem → Type 0
SameFrom b m m' = (a : ℕ) → b ≤ a → m' a ≡ m a

-- The region below `here` is no longer the chain's.
pub Chain-le :
    (m : Mem) (fin : ℕ) (xs : List ℕ) (prev here p : ℕ) → Chain m fin prev here p xs → here ≤ fin
Chain-le m fin [] prev here p c = omega arith
Chain-le m fin (x ∷ xs) prev here p c =
    omega (arith, Chain-le m fin xs x (block_end m x) (m x).next c.4)

-- An address of the chain is a block that lies within the region.
pub Chain-has :
    (m : Mem) (fin : ℕ) (xs : List ℕ) (prev here p b : ℕ)
    → Chain m fin prev here p xs
    → has b xs ≡ true
    → (here ≤ b) × (block_end m b ≤ fin) × ((m b).size % 16 ≡ 0)
Chain-has m fin [] prev here p b c h = cc
Chain-has m fin (x ∷ xs) prev here p b c h = ground (
  arith,
  Chain-le m fin xs x (block_end m x) (m x).next c.4,
  Chain-has m fin xs x (block_end m x) (m x).next b c.4,
)

-- A chain survives any change below its region.
pub Chain-frame :
    (m m' : Mem) (fin : ℕ) (xs : List ℕ) (prev here p : ℕ)
    → SameFrom here m m'
    → Chain m fin prev here p xs
    → Chain m' fin prev here p xs
Chain-frame m m' fin [] prev here p same c = c
Chain-frame m m' fin (x ∷ xs) prev here p same c =
    let e : m' x ≡ m x = same x (omega arith) in
    (
      c.0,
      c.1,
      rw e c.2,
      rw e c.3,
      rw e (Chain-frame m m' fin xs x (block_end m x) (m x).next (λ a h. same a (omega arith)) c.4),
    )

-- A chain with the back pointer of its first block set anew.
pub Chain-relink :
    (m m' : Mem) (fin : ℕ) (xs : List ℕ) (prev prev' here p : ℕ)
    → ((a : ℕ) → here ≤ a → a ≢ p → m' a ≡ m a)
    → (p ≢ null → m' p ≡ record (m p) { prev = prev' })
    → Chain m fin prev here p xs
    → 0 < here
    → Chain m' fin prev' here p xs
Chain-relink m m' fin [] prev prev' here p same head c pos = c
Chain-relink m m' fin (x ∷ xs) prev prev' here p same head c pos =
    let e : m' x ≡ record (m x) { prev = prev' } = rw c.0 at (head (omega arith)) in
    (
      c.0,
      c.1,
      rw e refl,
      rw e c.3,
      rw e (
          Chain-frame m m' fin xs x (block_end m x) (m x).next
            (λ a h. same a (omega arith) (omega arith)) c.4),
    )

-- The chain from a block on is replaced, and what lies before it is kept.
pub Chain-splice :
    (m m' : Mem) (fin : ℕ) (ys xs : List ℕ) (prev here p b : ℕ)
    → Chain m fin prev here p xs
    → has b xs ≡ true
    → SameBelow b m m'
    → ((q : ℕ) → Chain m fin q b b (b ∷ after b xs) → Chain m' fin q b b ys)
    → Chain m' fin prev here p (before b xs ++ ys)
Chain-splice m m' fin ys [] prev here p b c h same tail = cc
Chain-splice m m' fin ys (x ∷ xs) prev here p b c h same tail = elim (Bool-cases (b == x)) [
  | inl e ↦
      let bx : b ≡ x = ground arith in
      let hb : here ≡ b = omega arith in
      let pb : p ≡ b = omega arith in
      rw (e, hb, pb) (rw e at tail prev (refl, refl, rw bx c.2, rw bx c.3, rw bx c.4))
  | inr e ↦
      let here_le = Chain-has m fin xs x (block_end m x) (m x).next b c.4 (ground arith) in
      let ex : m' x ≡ m x = same x (omega arith) in
      rw e (
        c.0,
        c.1,
        rw ex c.2,
        rw ex c.3,
        rw ex (
            Chain-splice m m' fin ys xs x (block_end m x) (m x).next b c.4 (ground arith) same
              (rw e at tail)),
      )
]

-- The first pointer of a chain is NULL or the place where its region begins.
pub Chain-head :
    (m : Mem) (fin : ℕ) (xs : List ℕ) (prev here p : ℕ)
    → Chain m fin prev here p xs
    → (p ≡ null) ⊎ (p ≡ here)
Chain-head m fin [] prev here p c = inl c.0
Chain-head m fin (x ∷ xs) prev here p c = inr (c.0 ∙ c.1)

-- Every block takes at least its header of the region.
pub Chain-length :
    (m : Mem) (fin : ℕ) (xs : List ℕ) (prev here p : ℕ)
    → Chain m fin prev here p xs
    → here + hdr_size * length xs ≤ fin
Chain-length m fin [] prev here p c = omega arith
Chain-length m fin (x ∷ xs) prev here p c =
    omega (arith, Chain-length m fin xs x (block_end m x) (m x).next c.4)

-- The chain from a block on, as it stands.
pub Chain-suffix :
    (m : Mem) (fin : ℕ) (xs : List ℕ) (prev here p b : ℕ)
    → Chain m fin prev here p xs
    → has b xs ≡ true
    → Chain m fin (m b).prev b b (b ∷ after b xs)
Chain-suffix m fin [] prev here p b c h = cc
Chain-suffix m fin (x ∷ xs) prev here p b c h = elim (Bool-cases (b == x)) [
  | inl e ↦ let bx : b ≡ x = ground arith in rw e (refl, refl, refl, rw bx c.3, rw bx c.4)
  | inr e ↦ rw e (Chain-suffix m fin xs x (block_end m x) (m x).next b c.4 (ground arith))
]

-- Two blocks of a chain do not overlap.
pub Chain-apart :
    (m : Mem) (fin : ℕ) (xs : List ℕ) (prev here p a b : ℕ)
    → Chain m fin prev here p xs
    → has a xs ≡ true
    → has b xs ≡ true
    → a ≢ b
    → (block_end m a ≤ b) ⊎ (block_end m b ≤ a)
Chain-apart m fin [] prev here p a b c ha hb ne = cc
Chain-apart m fin (x ∷ xs) prev here p a b c ha hb ne =
    let tail = Chain-has m fin xs x (block_end m x) (m x).next in
    ground
      (arith, tail a c.4, tail b c.4, Chain-apart m fin xs x (block_end m x) (m x).next a b c.4)

-- The block that `b` points back to: the one before it in the list, or what the list came from.
pub Chain-prev :
    (m : Mem) (fin : ℕ) (xs : List ℕ) (prev here p b : ℕ)
    → Chain m fin prev here p xs
    → has b xs ≡ true
    → (((m b).prev ≡ prev) × (xs ≡ b ∷ after b xs))
      ⊎ ((has (m b).prev xs ≡ true) × (after (m b).prev xs ≡ b ∷ after b xs) × (here ≤ (m b).prev))
Chain-prev m fin [] prev here p b c h = cc
Chain-prev m fin (x ∷ xs) prev here p b c h = elim (Bool-cases (b == x)) [
  | inl e ↦ let bx : b ≡ x = ground arith in rw (e, bx) (inl (c.2, refl))
  | inr e ↦ rw e (elim (Chain-prev m fin xs x (block_end m x) (m x).next b c.4 (ground arith)) [
    | inl r ↦ inr (rw (r.0, ==_refl) (refl, r.1, omega arith))
    | inr r ↦
        let ne : ((m b).prev == x) ≡ false = ground arith in inr (rw ne (r.0, r.1, omega arith))
  ])
]

pub has-append_left : (a : ℕ) (xs ys : List ℕ) → has a xs ≡ true → has a (xs ++ ys) ≡ true
has-append_left a [] ys h = cc
has-append_left a (x ∷ xs) ys h = ground (arith, has-append_left a xs ys)

pub has-append_right : (a : ℕ) (xs ys : List ℕ) → has a ys ≡ true → has a (xs ++ ys) ≡ true
has-append_right a [] ys h = h
has-append_right a (x ∷ xs) ys h = ground (arith, has-append_right a xs ys)

pub has-before : (b a : ℕ) (xs : List ℕ) → has a (before b xs) ≡ true → has a xs ≡ true
has-before b a [] h = cc
has-before b a (x ∷ xs) h = ground (arith, has-before b a xs)

-- A block lies before `s` in the list, or from `s` on.
pub has-split :
    (a s : ℕ) (xs : List ℕ)
    → has a xs ≡ true
    → has s xs ≡ true
    → (has a (before s xs) ≡ true) ⊎ (has a (s ∷ after s xs) ≡ true)
has-split a s [] h hs = cc
has-split a s (x ∷ xs) h hs = ground (arith, has-split a s xs)

-- What lies before `s` in the list lies below it.
pub Chain-before :
    (m : Mem) (fin : ℕ) (xs : List ℕ) (prev here p a s : ℕ)
    → Chain m fin prev here p xs
    → has s xs ≡ true
    → has a (before s xs) ≡ true
    → a < s
Chain-before m fin [] prev here p a s c hs h = cc
Chain-before m fin (x ∷ xs) prev here p a s c hs h = ground (
  arith,
  Chain-has m fin xs x (block_end m x) (m x).next s c.4,
  Chain-before m fin xs x (block_end m x) (m x).next a s c.4,
)
