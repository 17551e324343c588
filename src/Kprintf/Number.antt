-- ===== src/Kprintf/Number.antt =====
-- kernel/src/kprintf.c and kernel/src/string.c: `strtol` reads the numbers that `out_number` prints.
use choco_os.Base.{
  ℕ, zero, suc, ◌+◌, ◌*◌, ◌/◌, ◌%◌, ◌^◌, ◌≤◌, ◌<◌, ◌≡◌, refl, ◌∙◌, Bool, true, false, ltb, ◌==◌,
  if◌then◌else◌, some, List, [], ◌∷◌, length, arith, Bool-cases, inl, inr, ap, sub_word,
}
use choco_os.Memory.{Bytes}
use choco_os.CString.{Holds, strtol}
use choco_os.CString.Number.{value, AllBelow, decimal, written, strtol-decimal}
use choco_os.Kprintf.{digits_of, value_digits, rounds, chars_of, reversed, number_text}

-- The number that digits write, the lowest first.
abbrev low_value : List ℕ → ℕ
low_value [] = 0
low_value (d ∷ ds) = d + 10 * low_value ds

value-reversed :
    (ds acc : List ℕ) (start : ℕ)
    → start ≡ 0
    → value 10 (reversed ds acc) start ≡ value 10 acc (low_value ds)
value-reversed [] acc start e = rw e refl
value-reversed (d ∷ ds) acc start e =
    let step : low_value ds * 10 + d ≡ d + 10 * low_value ds = omega arith in
    value-reversed ds (d ∷ acc) start e ∙ ap (value 10 acc) step

AllBelow-reversed :
    (ds acc : List ℕ) → AllBelow 10 ds → AllBelow 10 acc → AllBelow 10 (reversed ds acc)
AllBelow-reversed [] acc h k = k
AllBelow-reversed (d ∷ ds) acc h k = AllBelow-reversed ds (d ∷ acc) h.1 (h.0, k)

length-reversed : (ds acc : List ℕ) → length (reversed ds acc) ≡ length ds + length acc
length-reversed [] acc = omega arith
length-reversed (d ∷ ds) acc = omega (arith, length-reversed ds (d ∷ acc))

reversed-chars_of :
    (ds acc : List ℕ)
    → AllBelow 10 ds
    → reversed (chars_of false ds) (decimal acc) ≡ decimal (reversed ds acc)
reversed-chars_of [] acc h = refl
reversed-chars_of (d ∷ ds) acc h =
    let low = h.0 in
    let t : ltb d 10 ≡ true = ground arith in rw t (reversed-chars_of ds (d ∷ acc) h.1)

digits_of-decimal :
    (fuel v : ℕ)
    → v < 2 ^ fuel
    → (low_value (digits_of fuel v 10) ≡ v)
      × AllBelow 10 (digits_of fuel v 10)
      × (length (digits_of fuel v 10) ≤ fuel)
unfolding digits_of
digits_of-decimal zero v h = (omega arith, tt, omega arith)
digits_of-decimal (suc fuel) v h = elim (Bool-cases (v == 0)) [
  | inl e ↦ let z : v ≡ 0 = ground arith in rw (e, z) (refl, tt, omega arith)
  | inr e ↦
      let (sum, below, len) = digits_of-decimal fuel (v / 10) (omega arith) in
      rw e (omega arith, (omega arith, below), omega arith)
]

value_digits-decimal :
    (v : ℕ)
    → v < 2 ^ 64
    → (low_value (value_digits v 10) ≡ v)
      × AllBelow 10 (value_digits v 10)
      × (0 < length (value_digits v 10))
      × (length (value_digits v 10) ≤ 64)
value_digits-decimal v h = elim (Bool-cases (v == 0)) [
  | inl e ↦
      let z : v ≡ 0 = ground arith in rw (e, z) (refl, (omega arith, tt), omega arith, omega arith)
  | inr e ↦
      let (sum, below, len) = digits_of-decimal 64 v h in
      rw e (sum, below, nonempty (digits_of rounds v 10) sum e, len)
]
  where
    nonempty : (ds : List ℕ) → low_value ds ≡ v → (v == 0) ≡ false → 0 < length ds
    nonempty [] s e = ground arith
    nonempty (d ∷ ds) s e = omega arith

number_text-written :
    (v : ℕ) (neg : Bool)
    → v < 2 ^ 64
    → number_text v 10 neg false ≡ written neg (reversed (value_digits v 10) [])
number_text-written v true h =
    ap (λ t. 45 ∷ t) (reversed-chars_of (value_digits v 10) [] (value_digits-decimal v h).1)
number_text-written v false h =
    reversed-chars_of (value_digits v 10) [] (value_digits-decimal v h).1

-- What is printed for a number, as decimal digits.
pub decimal_text :
    (v : ℕ)
    → v < 2 ^ 64
    → (ds : List ℕ) × (number_text v 10 false false ≡ decimal ds)
      × AllBelow 10 ds
      × (0 < length ds)
      × (value 10 ds 0 ≡ v)
decimal_text v h =
    let (sum, below, pos, len) = value_digits-decimal v h in
    (
      reversed (value_digits v 10) [],
      number_text-written v false h,
      AllBelow-reversed (value_digits v 10) [] below tt,
      omega (arith, length-reversed (value_digits v 10) []),
      value-reversed (value_digits v 10) [] 0 refl ∙ sum,
    )

read_back :
    (ds : List ℕ) (fuel : ℕ) (m : Bytes) (s v : ℕ) (neg : Bool)
    → Holds m s (written neg ds)
    → AllBelow 10 ds
    → value 10 ds 0 ≡ v
    → v < 2 ^ 64
    → 0 < length ds
    → length ds + 1 < fuel
    → strtol fuel m s 10 ≡ some ((if neg then sub_word 64 0 v else v), s + length (written neg ds))
read_back [] fuel m s v neg h b e small pos room = absurd (omega arith)
read_back (d ∷ ds) fuel m s v neg h b e small pos room =
    let k : v % 2 ^ 64 ≡ v = omega arith in
    rw (e, k) at (strtol-decimal fuel m s d ds neg h b (omega arith))

-- `strtol` in base 10, with fuel for 65 characters and a NUL, reads back the 64-bit number that
-- `out_number` prints in base 10 without padding, with a sign or not: it returns the number, negated
-- when it was printed as negative, and the end of the text.
pub strtol-number_text :
    (fuel : ℕ) (m : Bytes) (s v : ℕ) (neg : Bool)
    → v < 2 ^ 64
    → Holds m s (number_text v 10 neg false)
    → 66 ≤ fuel
    → strtol fuel m s 10
      ≡ some ((if neg then sub_word 64 0 v else v), s + length (number_text v 10 neg false))
strtol-number_text fuel m s v neg h held room =
    let (sum, below, pos, len) = value_digits-decimal v h in
    let ds = reversed (value_digits v 10) [] in
    let text = number_text-written v neg h in
    rw text (
      read_back ds fuel m s v neg (rw text at held)
        (AllBelow-reversed (value_digits v 10) [] below tt)
        (value-reversed (value_digits v 10) [] 0 refl ∙ sum) h
        (omega (arith, length-reversed (value_digits v 10) []))
        (omega (arith, length-reversed (value_digits v 10) [])))
