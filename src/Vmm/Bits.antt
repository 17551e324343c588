-- ===== src/Vmm/Bits.antt =====
-- kernel/src/vmm.c: the flags of an entry, set by `|`, leave its address and make it present.
use Prim.Native.Nat.{max, digits, bit_or-bitwise}
use choco_os.Base.{
  ℕ, zero, suc, ◌+◌, ◌*◌, ◌/◌, ◌%◌, ◌^◌, ◌≤◌, ◌<◌, ◌≡◌, refl, arith, bit_or, true, ==_iff,
}
use choco_os.Vmm.{address_bits, is_present, table_entry, page_entry}

-- The bits of an entry that the address mask leaves out.
abbrev pub AreFlags : ℕ → Type 0
AreFlags flags = flags / 4096 % 2 ^ 40 ≡ 0

abbrev or_digits : ℕ → ℕ → ℕ → ℕ
or_digits n a b = digits (λ b. b) max n a b

or_digits_fuel : (n m a b : ℕ) → a ≤ n → a ≤ m → or_digits n a b ≡ or_digits m a b
or_digits_fuel zero zero a b p q = refl
or_digits_fuel zero (suc m) zero b p q = refl
or_digits_fuel zero (suc m) (suc a) b p q = absurd (omega arith)
or_digits_fuel (suc n) zero zero b p q = refl
or_digits_fuel (suc n) zero (suc a) b p q = absurd (omega arith)
or_digits_fuel (suc n) (suc m) zero b p q = refl
or_digits_fuel (suc n) (suc m) (suc a) b p q =
    omega (arith, or_digits_fuel n m (suc a / 2) (b / 2) (omega arith) (omega arith))

zero-bit_or : (b : ℕ) → bit_or 0 b ≡ b
zero-bit_or b = bit_or-bitwise 0 b

bit_or_step : (a b : ℕ) → bit_or a b ≡ bit_or (a / 2) (b / 2) * 2 + max (a % 2) (b % 2)
bit_or_step zero b = omega (arith, zero-bit_or b, zero-bit_or (b / 2))
bit_or_step (suc a) b = omega (
  arith,
  bit_or-bitwise (suc a) b,
  bit_or-bitwise (suc a / 2) (b / 2),
  or_digits_fuel a (suc a / 2) (suc a / 2) (b / 2) (omega arith) (omega arith),
)

half : (a b : ℕ) → bit_or a b / 2 ≡ bit_or (a / 2) (b / 2)
half a b = omega (arith, bit_or_step a b)

-- The lowest `k` digits.
low : ℕ → ℕ → ℕ
low zero x = 0
low (suc k) x = low k (x / 2) * 2 + x % 2

high : ℕ → ℕ → ℕ
high zero x = x
high (suc k) x = high k (x / 2)

high-bit_or : (k a b : ℕ) → high k (bit_or a b) ≡ bit_or (high k a) (high k b)
unfolding high
high-bit_or zero a b = refl
high-bit_or (suc k) a b = rw (half a b) (high-bit_or k (a / 2) (b / 2))

low-bit_or : (k a b : ℕ) → low k b ≡ 0 → low k (bit_or a b) ≡ low k a
unfolding low
low-bit_or zero a b h = refl
low-bit_or (suc k) a b h =
    rw (half a b) (omega (arith, bit_or_step a b, low-bit_or k (a / 2) (b / 2) (omega arith)))

low_twelve : (x : ℕ) → high 12 x ≡ x / 4096
unfolding high
low_twelve x = omega arith

low_ten : (x : ℕ) → low 10 x ≡ x % 2 ^ 10
unfolding low
low_ten x = omega arith

low_forty : (x : ℕ) → low 40 x ≡ x % 2 ^ 40
unfolding low
low_forty x = omega arith

or_flags : (x f : ℕ) → AreFlags f → address_bits (bit_or x f) ≡ address_bits x
or_flags x f h =
    let same : low 40 (high 12 (bit_or x f)) ≡ low 40 (high 12 x) = rw (high-bit_or 12 x f) (
      low-bit_or 40 (high 12 x) (high 12 f) (omega (arith, low_forty (high 12 f), low_twelve f))) in
    omega (
      arith,
      same,
      low_forty (high 12 (bit_or x f)),
      low_forty (high 12 x),
      low_twelve x,
      low_twelve (bit_or x f),
    )

or_odd : (a b : ℕ) → a % 2 ≡ 1 → bit_or a b % 2 ≡ 1
or_odd a b h = omega (arith, bit_or_step a b)

or_one : (a : ℕ) → bit_or a 1 % 2 ≡ 1
or_one a = omega (arith, bit_or_step a 1)

pub table_entry_present : (p : ℕ) → is_present (table_entry p) ≡ true
table_entry_present p =
    (==_iff _ _).1 (or_odd (bit_or (bit_or p 1) 2) 4 (or_odd (bit_or p 1) 2 (or_one p)))

pub table_entry_address : (p : ℕ) → p % 4096 ≡ 0 → p < 2 ^ 52 → address_bits (table_entry p) ≡ p
table_entry_address p aligned small = omega (
  arith,
  or_flags (bit_or (bit_or p 1) 2) 4 refl,
  or_flags (bit_or p 1) 2 refl,
  or_flags p 1 refl,
)

pub page_entry_present : (p f : ℕ) → is_present (page_entry p f) ≡ true
page_entry_present p f = (==_iff _ _).1 (or_one (bit_or (address_bits p) f))

pub page_entry_address : (p f : ℕ) → AreFlags f → address_bits (page_entry p f) ≡ address_bits p
page_entry_address p f h =
    omega (arith, or_flags (bit_or (address_bits p) f) 1 refl, or_flags (address_bits p) f h)
