-- ===== src/Net/Address.antt =====
-- kernel/src/net.c: addresses in dotted notation, `ip_to_str` and `str_to_ip`. A string is its characters
-- without the NUL, an address its four bytes in the order of memory.
use choco_os.Base.{
  ℕ, ◌+◌, ◌-◌, ◌*◌, ◌≤◌, ◌<◌, ◌≡◌, refl, Bool, true, false, ◌&&◌, not, ltb, leb, ◌==◌,
  if◌then◌else◌, Option, none, some, List, [], ◌∷◌, ◌++◌, length, arith, ap,
}
use choco_os.CString.Number.{value, AllBelow, decimal}
use choco_os.Kprintf.{number_text}
use choco_os.Kprintf.Number.{decimal_text}

abbrev pub is_digit : ℕ → Bool
is_digit c = leb 48 c && leb c 57

-- The digits of one part, which is at most 255, and what is left behind them.
unfoldable pub read_part : List ℕ → (v : ℕ) → Option (ℕ × List ℕ)
read_part [] v = some (v, [])
read_part (c ∷ cs) v =
    let w = v * 10 + (c - 48) in
    let rest = read_part cs w in
    if not (is_digit c) then some (v, c ∷ cs) else if ltb 255 w then none else rest

-- A part has a digit.
abbrev pub part : List ℕ → Option (ℕ × List ℕ)
part [] = none
part (c ∷ cs) = if is_digit c then read_part (c ∷ cs) 0 else none

-- The part, with a dot behind it, or with the end of the string behind it.
abbrev pub after_dot : Option (ℕ × List ℕ) → Option (ℕ × List ℕ)
after_dot none = none
after_dot (some (v, [])) = none
after_dot (some (v, c ∷ cs)) = if c == 46 then some (v, cs) else none

abbrev pub at_end : Option (ℕ × List ℕ) → Option (List ℕ)
at_end none = none
at_end (some (v, [])) = some (v ∷ [])
at_end (some (v, c ∷ cs)) = none

abbrev pub and_then : Option (ℕ × List ℕ) → (List ℕ → Option (List ℕ)) → Option (List ℕ)
and_then none f = none
and_then (some (v, cs)) f = elim (f cs) [ none ↦ none | some vs ↦ some (v ∷ vs) ]

unfoldable pub str_to_ip : List ℕ → Option (List ℕ)
unfolding read_part
str_to_ip s = and_then (after_dot (part s)) (λ s1.
    and_then (after_dot (part s1)) (λ s2. and_then (after_dot (part s2)) (λ s3. at_end (part s3))))

-- `snprintf` with the format "%d.%d.%d.%d".
abbrev pub ip_to_str : (a b c d : ℕ) → List ℕ
ip_to_str a b c d =
    number_text a 10 false false
    ++ 46
      ∷ (number_text b 10 false false
          ++ 46 ∷ (number_text c 10 false false ++ 46 ∷ number_text d 10 false false))

value-ge : (ds : List ℕ) (acc : ℕ) → acc ≤ value 10 ds acc
value-ge [] acc = omega arith
value-ge (d ∷ ds) acc = omega (arith, value-ge ds (acc * 10 + d))

-- Digits that write at most 255 are read, up to a character that is none.
read_part-decimal :
    (ds : List ℕ) (acc : ℕ) (rest : List ℕ)
    → AllBelow 10 ds
    → value 10 ds acc ≤ 255
    → read_part rest (value 10 ds acc) ≡ some (value 10 ds acc, rest)
    → read_part (decimal ds ++ rest) acc ≡ some (value 10 ds acc, rest)
unfolding read_part
read_part-decimal [] acc rest b h stop = stop
read_part-decimal (d ∷ ds) acc rest b h stop =
    let low = b.0 in
    let dig : is_digit (48 + d) ≡ true = ground arith in
    let back : 48 + d - 48 ≡ d = omega arith in
    let ge = value-ge ds (acc * 10 + d) in
    let fits : ltb 255 (acc * 10 + d) ≡ false = ground arith in
    rw (dig, back, fits) (read_part-decimal ds (acc * 10 + d) rest b.1 h stop)

part-decimal :
    (ds rest : List ℕ) (v : ℕ)
    → AllBelow 10 ds
    → 0 < length ds
    → value 10 ds 0 ≡ v
    → v < 256
    → read_part rest v ≡ some (v, rest)
    → part (decimal ds ++ rest) ≡ some (v, rest)
part-decimal [] rest v b pos e h stop = absurd (omega arith)
part-decimal (d ∷ ds) rest v b pos e h stop =
    let low = b.0 in
    let dig : is_digit (48 + d) ≡ true = ground arith in
    rw dig (rw e at (read_part-decimal (d ∷ ds) 0 rest b (omega arith) (rw e stop)))

part-text :
    (v : ℕ) (rest : List ℕ)
    → v < 256
    → read_part rest v ≡ some (v, rest)
    → part (number_text v 10 false false ++ rest) ≡ some (v, rest)
part-text v rest h stop =
    let (ds, text, below, pos, e) = decimal_text v (omega arith) in
    rw text (part-decimal ds rest v below pos e h stop)

part-text_dot :
    (v : ℕ) (rest : List ℕ)
    → v < 256
    → after_dot (part (number_text v 10 false false ++ 46 ∷ rest)) ≡ some (v, rest)
unfolding read_part
part-text_dot v rest h = ap after_dot (part-text v (46 ∷ rest) h refl)

append_nil : (xs : List ℕ) → xs ++ [] ≡ xs
append_nil [] = refl
append_nil (x ∷ xs) = ap (λ t. x ∷ t) (append_nil xs)

part-text_end : (v : ℕ) → v < 256 → at_end (part (number_text v 10 false false)) ≡ some (v ∷ [])
unfolding read_part
part-text_end v h =
    rw (append_nil (number_text v 10 false false)) at (ap at_end (part-text v [] h refl))

and_then-some :
    (o : Option (ℕ × List ℕ)) (f : List ℕ → Option (List ℕ)) (v : ℕ) (s vs : List ℕ)
    → o ≡ some (v, s)
    → f s ≡ some vs
    → and_then o f ≡ some (v ∷ vs)
and_then-some o f v s vs e k = rw (e, and_then) (rw k refl)

-- `str_to_ip` reads back the address that `ip_to_str` prints.
pub str_to_ip-ip_to_str :
    (a b c d : ℕ)
    → a < 256
    → b < 256
    → c < 256
    → d < 256
    → str_to_ip (ip_to_str a b c d) ≡ some (a ∷ b ∷ c ∷ d ∷ [])
unfolding str_to_ip
str_to_ip-ip_to_str a b c d ha hb hc hd =
    let last = number_text d 10 false false in
    let third = number_text c 10 false false ++ 46 ∷ last in
    let second = number_text b 10 false false ++ 46 ∷ third in
    and_then-some (after_dot (part (ip_to_str a b c d))) _ a second (b ∷ c ∷ d ∷ [])
      (part-text_dot a second ha)
      (and_then-some (after_dot (part second)) _ b third (c ∷ d ∷ []) (part-text_dot b third hb) (
        and_then-some (after_dot (part third)) _ c last (d ∷ []) (part-text_dot c last hc)
          (part-text_end d hd)))
