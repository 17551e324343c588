-- ===== src/Kprintf.antt =====
-- kernel/src/kprintf.c: formatted output into a bounded buffer. The variadic arguments are a list of
-- words and strings, read in order. A width and the length of a string are numbers here, which C has as an
-- `int`: the theorems take both below 2^31, where C defines them.
pub mod Stream
pub mod Format
pub mod Number
use choco_os.Base.{
  ℤ, as_int, ℕ, zero, suc, ◌+◌, ◌-◌, ◌*◌, ◌/◌, ◌%◌, ◌^◌, Bool, true, false, not, ◌&&◌, ◌||◌, ltb,
  leb, ◌==◌, if◌then◌else◌, Option, none, some, List, [], ◌∷◌, ◌++◌, length, set, sub_word,
}

pub record OutBuf : Type 0 where
  pub buf : List ℕ
  pub size : ℕ
  pub pos : ℕ

pub out_char : OutBuf → ℕ → OutBuf
out_char o c = record o {
  buf = if ltb (o.pos + 1) o.size then set o.buf o.pos c else o.buf;
  pos = o.pos + 1;
}

-- `count` rounds of the loop; a negative count is 0 here.
pub out_pad : OutBuf → (pad count : ℕ) → OutBuf
out_pad o pad zero = o
out_pad o pad (suc count) = out_pad (out_char o pad) pad count

pub out_string : OutBuf → List ℕ → OutBuf
out_string o [] = o
out_string o (c ∷ cs) = out_string (out_char o c) cs

-- `digits[d]`.
abbrev pub digit_char : (upper : Bool) → ℕ → ℕ
digit_char upper d = if ltb d 10 then 48 + d else if upper then 65 + (d - 10) else 97 + (d - 10)

-- The digits that the loop puts into `tmp`, the lowest first.
unfoldable pub digits_of : (fuel value base : ℕ) → List ℕ
digits_of zero value base = []
digits_of (suc fuel) value base =
    let rest = digits_of fuel (value / base) base in if value == 0 then [] else value % base ∷ rest

-- A value of 64 bits has at most 64 digits.
abbrev pub rounds : ℕ
rounds = 64

abbrev pub value_digits : (value base : ℕ) → List ℕ
value_digits value base = if value == 0 then 0 ∷ [] else digits_of rounds value base

abbrev pub chars_of : Bool → List ℕ → List ℕ
chars_of upper [] = []
chars_of upper (d ∷ ds) = digit_char upper d ∷ chars_of upper ds

abbrev pub reversed : List ℕ → List ℕ → List ℕ
reversed [] acc = acc
reversed (x ∷ xs) acc = reversed xs (x ∷ acc)

-- `tmp`, as it is printed: from its end.
abbrev pub number_text : (value base : ℕ) → (negative upper : Bool) → List ℕ
number_text value base negative upper =
    let text = reversed (chars_of upper (value_digits value base)) [] in
    if negative then 45 ∷ text else text

pub out_number :
    OutBuf
    → (value base : ℕ) → (negative upper : Bool) → (width : ℕ) → (zero_pad left : Bool) → OutBuf
unfolding out_pad out_string
out_number o value base negative upper width zero_pad left =
    let text = number_text value base negative upper in
    let pad = width - length text in
    let before = if left then o else out_pad o (if zero_pad then 48 else 32) pad in
    let after = out_string before text in if left then out_pad after 32 pad else after

pub data Arg : Type 0 where
  word : ℕ → Arg
  string : Option (List ℕ) → Arg

-- `va_arg`; a missing argument or one of another type has no behaviour in C, and reads as 0 or NULL.
abbrev pub next_word : List Arg → ℕ
next_word [] = 0
next_word (word w ∷ args) = w
next_word (string s ∷ args) = 0

abbrev pub next_string : List Arg → Option (List ℕ)
next_string [] = none
next_string (word w ∷ args) = none
next_string (string s ∷ args) = s

abbrev pub rest_args : List Arg → List Arg
rest_args [] = []
rest_args (a ∷ args) = args

-- A conversion: its flags, its width, and whether its argument is long.
pub record Spec : Type 0 where
  pub left : Bool
  pub zero_pad : Bool
  pub width : ℕ
  pub long : Bool

abbrev pub plain : Spec
plain = record { left = false; zero_pad = false; width = 0; long = false }

pub read_flags : Spec → List ℕ → Spec × List ℕ
read_flags s [] = (s, [])
read_flags s (c ∷ cs) =
    let dash = read_flags (record s { left = true }) cs in
    let zeros = read_flags (record s { zero_pad = true }) cs in
    if c == 45 then dash else if c == 48 then zeros else (s, c ∷ cs)

pub read_width : Spec → List ℕ → Spec × List ℕ
read_width s [] = (s, [])
read_width s (c ∷ cs) =
    let more = read_width (record s { width = s.width * 10 + (c - 48) }) cs in
    if leb 48 c && leb c 57 then more else (s, c ∷ cs)

pub read_longs : Spec → List ℕ → Spec × List ℕ
read_longs s [] = (s, [])
read_longs s (c ∷ cs) =
    let more = read_longs (record s { long = true }) cs in
    if c == 108 then more else if c == 122 then (record s { long = true }, cs) else (s, c ∷ cs)

pub read_spec : List ℕ → Spec × List ℕ
unfolding read_flags read_width read_longs
read_spec cs = let f = read_flags plain cs in let w = read_width f.0 f.1 in read_longs w.0 w.1

-- A signed argument: is it negative, and its absolute value as `uint64_t`.
abbrev pub signed_arg : Bool → ℕ → Bool × ℕ
signed_arg long w =
    let v = if long then w % 2 ^ 64 else w % 2 ^ 32 in
    let bits = if long then 2 ^ 64 else 2 ^ 32 in
    if leb (bits / 2) v then (true, bits - v) else (false, v)

abbrev pub unsigned_arg : Bool → ℕ → ℕ
unsigned_arg long w = if long then w % 2 ^ 64 else w % 2 ^ 32

abbrev pub null_text : List ℕ
null_text = 40 ∷ 110 ∷ 117 ∷ 108 ∷ 108 ∷ 41 ∷ []

abbrev pub text_of : Option (List ℕ) → List ℕ
text_of none = null_text
text_of (some s) = s

pub out_text : OutBuf → List ℕ → Spec → OutBuf
unfolding out_pad out_string
out_text o s spec =
    let pad = spec.width - length s in
    let before = if spec.left then o else out_pad o 32 pad in
    let after = out_string before s in if spec.left then out_pad after 32 pad else after

-- The `switch` on the conversion character, and whether it takes an argument.
pub convert : OutBuf → Spec → ℕ → List Arg → OutBuf × List Arg
unfolding out_number out_text out_char
convert o s c args =
    let w = next_word args in
    let d = signed_arg s.long w in
    let u = unsigned_arg s.long w in
    if c == 115
    then (out_text o (text_of (next_string args)) s, rest_args args)
    else if c == 99
    then (out_char o (w % 256), rest_args args)
    else if (c == 100) || (c == 105)
    then (out_number o d.1 10 d.0 false s.width s.zero_pad s.left, rest_args args)
    else if c == 117
    then (out_number o u 10 false false s.width s.zero_pad s.left, rest_args args)
    else if (c == 120) || (c == 88)
    then (out_number o u 16 false (c == 88) s.width s.zero_pad s.left, rest_args args)
    else if c == 112
    then (
      out_number (out_char (out_char o 48) 120) (w % 2 ^ 64) 16 false false 16 true false,
      rest_args args,
    )
    else if c == 37
    then (out_char o 37, args)
    else (out_char (out_char o 37) c, args)

-- The loop over the format string, with fuel for its characters.
pub format_loop : (fuel : ℕ) → OutBuf → List ℕ → List Arg → Option OutBuf
unfolding out_char read_spec convert
format_loop fuel o [] args = some o
format_loop zero o (c ∷ cs) args = none
format_loop (suc fuel) o (c ∷ cs) args =
    let copied = format_loop fuel (out_char o c) cs args in
    let s = read_spec cs in
    let converted : Option OutBuf = elim s.1 [
      | [] ↦ some (out_char o 37)
      | k ∷ ks ↦ let r = convert o s.0 k args in format_loop fuel r.0 ks r.1
    ] in
    if c == 37 then converted else copied

-- The closing NUL.
abbrev pub terminate : OutBuf → List ℕ
terminate o =
    if o.size == 0
    then o.buf
    else set o.buf (if ltb o.pos (o.size - 1) then o.pos else o.size - 1) 0

-- The buffer and the result, `(int)o.pos`.
pub vsnprintf : (buf : List ℕ) → (size : ℕ) → (fmt : List ℕ) → List Arg → Option (List ℕ × ℤ)
unfolding format_loop
vsnprintf buf size fmt args =
    elim (format_loop (length fmt) (record { buf = buf; size = size; pos = 0 }) fmt args) [
      | none ↦ none
      | some o ↦ some (terminate o, as_int o.pos)
    ]
