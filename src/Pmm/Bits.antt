-- ===== src/Pmm/Bits.antt =====
-- kernel/src/pmm.c: what the bits of the bitmap are after a write.
use choco_os.Base.{
  ℕ, ◌-◌, ◌/◌, ◌%◌, ◌^◌, ◌<◌, ◌≡◌, refl, Bool, true, false, not, ◌&&◌, ◌==◌, ==_refl, ltb, sym,
  if◌then◌else◌, arith, bit_and, bit_or, holds_below, holds_below_at, Bool-cases, ==_iff, inl, inr,
}
use choco_os.Pmm.{Bitmap, bitmap_set, bitmap_clear, bitmap_test, write}

-- The bitmap's bytes are bytes.
abbrev pub AreBytes : Bitmap → Type 0
AreBytes m = (i : ℕ) → m i < 256

abbrev same : Bool → Bool → Bool
same true b = b
same false b = not b

same→≡ : (a b : Bool) → same a b ≡ true → a ≡ b
same→≡ true true h = refl
same→≡ true false h = cc
same→≡ false true h = cc
same→≡ false false h = refl

abbrev bit : ℕ → ℕ → Bool
bit x i = not (bit_and x (2 ^ i) == 0)

abbrev below_byte : (ℕ → ℕ → ℕ → Bool) → Bool
below_byte p = holds_below 256 (λ x. holds_below 8 (λ i. holds_below 8 (p x i)))

below_byte_at :
    (p : ℕ → ℕ → ℕ → Bool) (x i j : ℕ)
    → below_byte p ≡ true
    → x < 256
    → i < 8
    → j < 8
    → p x i j ≡ true
below_byte_at p x i j h hx hi hj =
    holds_below_at 8 (p x i) j
      (holds_below_at 8 (λ i. holds_below 8 (p x i)) i
        (holds_below_at 256 (λ x. holds_below 8 (λ i. holds_below 8 (p x i))) x h hx) hi)
      hj

abbrev set_test : ℕ → ℕ → ℕ → Bool
set_test x i j = same (bit (bit_or x (2 ^ i)) j) (if j == i then true else bit x j)

abbrev clear_test : ℕ → ℕ → ℕ → Bool
clear_test x i j = same (bit (bit_and x (255 - 2 ^ i)) j) (if j == i then false else bit x j)

abbrev byte_test : ℕ → ℕ → ℕ → Bool
byte_test x i j = ltb (bit_or x (2 ^ i)) 256 && ltb (bit_and x (255 - 2 ^ i)) 256

set_table : below_byte set_test ≡ true
unfolding holds_below
set_table = refl

clear_table : below_byte clear_test ≡ true
unfolding holds_below
clear_table = refl

byte_table : below_byte byte_test ≡ true
unfolding holds_below
byte_table = refl

module _ (m : Bitmap) (h : AreBytes m) (b c : ℕ) where
  -- After a write of page `b`, the mark of page `c`.
  pub bitmap_test-set : bitmap_test (bitmap_set m b) c ≡ (if c == b then true else bitmap_test m c)
  unfolding bitmap_test bitmap_set write
  bitmap_test-set =
      let t =
        same→≡ (bit (bit_or (m (b / 8)) (2 ^ (b % 8))) (c % 8))
          (if (c % 8) == (b % 8) then true else bit (m (b / 8)) (c % 8))
          (below_byte_at set_test (m (b / 8)) (b % 8) (c % 8) set_table (h (b / 8)) (omega arith)
            (omega arith)) in
      elim (Bool-cases ((c / 8) == (b / 8))) [
        | inl e ↦
            let q : c / 8 ≡ b / 8 = (==_iff _ _).0 e in
            let r : ((c % 8) == (b % 8)) ≡ (c == b) = ground arith in
            rw (q, ==_refl (b / 8), sym r) t
        | inr e ↦ let r : (c == b) ≡ false = ground arith in rw (e, r) refl
      ]

  pub bitmap_test-clear :
      bitmap_test (bitmap_clear m b) c ≡ (if c == b then false else bitmap_test m c)
  unfolding bitmap_test bitmap_clear write
  bitmap_test-clear =
      let t =
        same→≡ (bit (bit_and (m (b / 8)) (255 - 2 ^ (b % 8))) (c % 8))
          (if (c % 8) == (b % 8) then false else bit (m (b / 8)) (c % 8))
          (below_byte_at clear_test (m (b / 8)) (b % 8) (c % 8) clear_table (h (b / 8))
            (omega arith) (omega arith)) in
      elim (Bool-cases ((c / 8) == (b / 8))) [
        | inl e ↦
            let q : c / 8 ≡ b / 8 = (==_iff _ _).0 e in
            let r : ((c % 8) == (b % 8)) ≡ (c == b) = ground arith in
            rw (q, ==_refl (b / 8), sym r) t
        | inr e ↦ let r : (c == b) ≡ false = ground arith in rw (e, r) refl
      ]

  bytes : byte_test (m (b / 8)) (b % 8) 0 ≡ true
  bytes =
      below_byte_at byte_test (m (b / 8)) (b % 8) 0 byte_table (h (b / 8)) (omega arith)
        (omega arith)

pub bitmap_set-AreBytes : (m : Bitmap) (b : ℕ) → AreBytes m → AreBytes (bitmap_set m b)
unfolding bitmap_set write
bitmap_set-AreBytes m b h i = ground (arith, bytes m h b 0, h i)

pub bitmap_clear-AreBytes : (m : Bitmap) (b : ℕ) → AreBytes m → AreBytes (bitmap_clear m b)
unfolding bitmap_clear write
bitmap_clear-AreBytes m b h i = ground (arith, bytes m h b 0, h i)

full_table : holds_below 8 (bit 255) ≡ true
unfolding holds_below
full_table = refl

-- A byte of ones marks all its pages.
pub bitmap_test-full : (m : Bitmap) (c : ℕ) → m (c / 8) ≡ 255 → bitmap_test m c ≡ true
unfolding bitmap_test
bitmap_test-full m c e = rw e (holds_below_at 8 (bit 255) (c % 8) full_table (omega arith))
