-- ===== src/CString/Number.antt =====
-- kernel/src/string.c: `strtol` and `atoi` read decimal numbers.
use choco_os.Base.{
  ℕ, zero, suc, ◌+◌, ◌*◌, ◌%◌, ◌^◌, ◌<◌, ◌≡◌, refl, some, List, [], ◌∷◌, length, arith, sym, ◌∙◌,
  ◌==◌, leb, ◌||◌, Bool, true, false, if◌then◌else◌, sub_word, ap,
}
use choco_os.Memory.{Bytes}
use choco_os.CString.{Holds, digit_of, digits_loop, skip_blanks, strtol, prefix_of}

-- The digits of a number in a base, the first of them the highest.
abbrev pub value : (base : ℕ) → List ℕ → ℕ → ℕ
value base [] acc = acc
value base (d ∷ ds) acc = value base ds (acc * base + d)

abbrev pub AllBelow : ℕ → List ℕ → Type 0
AllBelow base [] = Unit
AllBelow base (d ∷ ds) = (d < base) × AllBelow base ds

abbrev pub decimal : List ℕ → List ℕ
decimal [] = []
decimal (d ∷ ds) = (48 + d) ∷ decimal ds

length-decimal : (ds : List ℕ) → length (decimal ds) ≡ length ds
length-decimal [] = refl
length-decimal (d ∷ ds) = ap suc (length-decimal ds)

value_mod : (ds : List ℕ) (acc : ℕ) → value 10 ds (acc % 2 ^ 64) % 2 ^ 64 ≡ value 10 ds acc % 2 ^ 64
value_mod [] acc = omega arith
value_mod (d ∷ ds) acc =
    let e : (acc % 2 ^ 64 * 10 + d) % 2 ^ 64 ≡ (acc * 10 + d) % 2 ^ 64 = omega arith in
    sym (value_mod ds (acc % 2 ^ 64 * 10 + d)) ∙ rw e (value_mod ds (acc * 10 + d))

digits_loop-decimal :
    (ds : List ℕ) (fuel : ℕ) (m : Bytes) (s acc : ℕ)
    → Holds m s (decimal ds)
    → AllBelow 10 ds
    → length ds < fuel
    → acc < 2 ^ 64
    → digits_loop fuel m s 10 acc ≡ some (value 10 ds acc % 2 ^ 64, s + length ds)
unfolding digits_loop
digits_loop-decimal ds zero m s acc h b lt small = absurd (omega arith)
digits_loop-decimal [] (suc fuel) m s acc h b lt small =
    let z : s + 0 ≡ s = omega arith in let k : acc % 2 ^ 64 ≡ acc = omega arith in rw (h, z, k) refl
digits_loop-decimal (d ∷ ds) (suc fuel) m s acc h b lt small =
    let low = b.0 in
    let e : digit_of (48 + d) ≡ d = ground arith in
    let go : ((d == 255) || leb 10 d) ≡ false = ground arith in
    let next = (acc * 10 + d) % 2 ^ 64 in
    let end : s + suc (length ds) ≡ s + 1 + length ds = omega arith in
    rw (h.0, e, go, end)
      (digits_loop-decimal ds fuel m (s + 1) next h.2 b.1 (omega arith) (omega arith)
        ∙ rw (value_mod ds (acc * 10 + d)) refl)

plain_base : (m : Bytes) (s : ℕ) → prefix_of m s 10 ≡ (10, s)
plain_base m s = refl

-- A number in decimal digits, with `-` before it or not.
abbrev pub written : Bool → List ℕ → List ℕ
written neg ds = if neg then 45 ∷ decimal ds else decimal ds

-- `strtol` in base 10 of decimal digits, of which there is at least one, with fuel for the string and
-- its NUL, ends: it returns the number that they write modulo 2^64, negated when `-` stands before
-- them, and the address of the NUL behind them.
pub strtol-decimal :
    (fuel : ℕ) (m : Bytes) (s d : ℕ) (ds : List ℕ) (neg : Bool)
    → Holds m s (written neg (d ∷ ds))
    → AllBelow 10 (d ∷ ds)
    → length ds + 2 < fuel
    → strtol fuel m s 10
      ≡ some (
        (if neg
            then sub_word 64 0 (value 10 (d ∷ ds) 0 % 2 ^ 64)
            else value 10 (d ∷ ds) 0 % 2 ^ 64),
        s + length (written neg (d ∷ ds)),
      )
unfolding strtol skip_blanks
strtol-decimal zero m s d ds neg h b lt = absurd (omega arith)
strtol-decimal (suc fuel) m s d ds true h b lt =
    let loop =
      digits_loop-decimal (d ∷ ds) (suc fuel) m (s + 1) 0 h.2 b (omega arith) (omega arith) in
    let end : s + 1 + suc (length ds) ≡ s + suc (suc (length ds)) = omega arith in
    rw (length-decimal ds, h.0) (rw (h.0, loop, end) refl)
strtol-decimal (suc fuel) m s d ds false h b lt =
    let low = b.0 in
    let loop = digits_loop-decimal (d ∷ ds) (suc fuel) m s 0 h b (omega arith) (omega arith) in
    let blank : ((48 + d == 32) || (48 + d == 9)) ≡ false = ground arith in
    let minus : (48 + d == 45) ≡ false = ground arith in
    let plus : (48 + d == 43) ≡ false = ground arith in
    rw (length-decimal ds, h.0, blank) (rw (h.0, minus, plus, loop) refl)
