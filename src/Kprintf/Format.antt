-- ===== src/Kprintf/Format.antt =====
-- kernel/src/kprintf.c: what `vsnprintf` leaves in its buffer.
use choco_os.Base.{
  ℤ, as_int, ◌^◌, Bool, none, ℕ, zero, suc, ◌+◌, ◌-◌, ◌*◌, ◌⊎◌, ◌≤◌, ◌<◌, ◌≡◌, refl, ◌∙◌, true,
  false, ◌&&◌, ltb, leb, ◌==◌, if◌then◌else◌, Option, some, List, [], ◌∷◌, ◌++◌, length, get_or,
  arith, Bool-cases, inl, inr, get_or-set_self, get_or-set_ne, length-set, ap, ==_refl,
}
use choco_os.Kprintf.{
  OutBuf, out_char, out_string, Arg, word, string, Spec, read_flags, read_width, read_longs,
  read_spec, convert, format_loop, terminate, vsnprintf, plain,
}
use choco_os.Kprintf.Stream.{convert-Converts, out_string-append}

read_flags-le : (s : Spec) (cs : List ℕ) → length (read_flags s cs).1 ≤ length cs
unfolding read_flags
read_flags-le s [] = omega arith
read_flags-le s (c ∷ cs) = ground (
  arith,
  read_flags-le (record s { left = true }) cs,
  read_flags-le (record s { zero_pad = true }) cs,
)

read_width-le : (s : Spec) (cs : List ℕ) → length (read_width s cs).1 ≤ length cs
unfolding read_width
read_width-le s [] = omega arith
read_width-le s (c ∷ cs) =
    ground (arith, read_width-le (record s { width = s.width * 10 + (c - 48) }) cs)

read_longs-le : (s : Spec) (cs : List ℕ) → length (read_longs s cs).1 ≤ length cs
unfolding read_longs
read_longs-le s [] = omega arith
read_longs-le s (c ∷ cs) = ground (arith, read_longs-le (record s { long = true }) cs)

read_spec-le : (cs : List ℕ) → length (read_spec cs).1 ≤ length cs
unfolding read_spec
read_spec-le cs =
    let f = read_flags plain cs in
    let w = read_width f.0 f.1 in
    omega (arith, read_flags-le plain cs, read_width-le f.0 f.1, read_longs-le w.0 w.1)

-- The whole text that a format puts out.
abbrev Text : ℕ → List ℕ → List Arg → Type 0
Text fuel fmt args =
    (text : List ℕ) × ((o : OutBuf) → format_loop fuel o fmt args ≡ some (out_string o text))

abbrev converted : ℕ → List ℕ → List Arg → OutBuf → Option OutBuf
converted fuel cs args o = elim (read_spec cs).1 [
  | [] ↦ some (out_char o 37)
  | k ∷ ks ↦ let r = convert o (read_spec cs).0 k args in format_loop fuel r.0 ks r.1
]

format_loop-percent :
    (fuel : ℕ) (o : OutBuf) (c : ℕ) (cs : List ℕ) (args : List Arg)
    → (c == 37) ≡ true
    → format_loop (suc fuel) o (c ∷ cs) args ≡ converted fuel cs args o
unfolding format_loop
format_loop-percent fuel o c cs args e = rw e refl

List-cases : (xs : List ℕ) → (xs ≡ []) ⊎ ((k : ℕ) × (ks : List ℕ) × (xs ≡ k ∷ ks))
List-cases [] = inl refl
List-cases (k ∷ ks) = inr (k, ks, refl)

format_loop-Text :
    (fuel : ℕ) (fmt : List ℕ) (args : List Arg) → length fmt ≤ fuel → Text fuel fmt args
unfolding format_loop out_string
format_loop-Text zero [] args h = ([], λ o. refl)
format_loop-Text (suc fuel) [] args h = ([], λ o. refl)
format_loop-Text zero (c ∷ cs) args h = absurd (omega arith)
format_loop-Text (suc fuel) (c ∷ cs) args h = elim (Bool-cases (c == 37)) [
  | inr e ↦
      let (text, t) = format_loop-Text fuel cs args (omega arith) in
      (c ∷ text, λ o. rw e (t (out_char o c)))
  | inl e ↦ elim (List-cases (read_spec cs).1) [
    | inl q ↦ (37 ∷ [], λ o. format_loop-percent fuel o c cs args e ∙ rw (q, converted) refl)
    | inr (k, ks, q) ↦
        let (ds, rest, conv) = convert-Converts (read_spec cs).0 k args in
        let shorter : length ks < length cs =
          let le = read_spec-le cs in
          let at : length (read_spec cs).1 ≡ suc (length ks) = rw q refl in omega arith in
        let (text, t) = format_loop-Text fuel ks rest (omega arith) in
        (
          ds ++ text,
          λ o.
              format_loop-percent fuel o c cs args e
              ∙ rw (q, converted, conv o)
                  (t (out_string o ds) ∙ ap some (out_string-append o ds text)),
        )
  ]
]

out_char-at :
    (o : OutBuf) (c i : ℕ)
    → o.size ≤ length o.buf
    → get_or (out_char o c).buf i 0
      ≡ (if (i == o.pos) && ltb (i + 1) o.size then c else get_or o.buf i 0)
unfolding out_char
out_char-at o c i h = elim (Bool-cases (ltb (o.pos + 1) o.size)) [
  | inr e ↦ rw e (ground arith)
  | inl e ↦ elim (Bool-cases (i == o.pos)) [
    | inl q ↦
        let same : i ≡ o.pos = ground arith in
        rw (e, same, ==_refl o.pos, e) (get_or-set_self o.buf o.pos c 0 (ground arith))
    | inr q ↦ rw (e, q) (get_or-set_ne o.buf o.pos i c 0 (ground arith))
  ]
]

-- What a text leaves in a buffer: at `i`, behind the position where it began.
out_string-at :
    (cs : List ℕ) (o : OutBuf) (i : ℕ)
    → o.size ≤ length o.buf
    → (get_or (out_string o cs).buf i 0 ≡ (
        if leb o.pos i && ltb i (o.pos + length cs) && ltb (i + 1) o.size
        then get_or cs (i - o.pos) 0
        else get_or o.buf i 0))
      × ((out_string o cs).pos ≡ o.pos + length cs)
      × ((out_string o cs).size ≡ o.size)
      × (length (out_string o cs).buf ≡ length o.buf)
unfolding out_string out_char
out_string-at [] o i h = (ground arith, omega arith, refl, refl)
out_string-at (c ∷ cs) o i h =
    let len : length (out_char o c).buf ≡ length o.buf = ground (arith, length-set o.buf o.pos c) in
    let (at, p, z, l) = out_string-at cs (out_char o c) i (omega arith) in
    (at ∙ rw (out_char-at o c i h) (further i), omega arith, z, l ∙ len)
  where
    further :
        (i : ℕ)
        → (if leb (o.pos + 1) i && ltb i (o.pos + 1 + length cs) && ltb (i + 1) o.size
            then get_or cs (i - (o.pos + 1)) 0
            else if (i == o.pos) && ltb (i + 1) o.size
            then c
            else get_or o.buf i 0)
          ≡ (if leb o.pos i && ltb i (o.pos + suc (length cs)) && ltb (i + 1) o.size
              then get_or (c ∷ cs) (i - o.pos) 0
              else get_or o.buf i 0)
    further i = elim (Bool-cases (leb (o.pos + 1) i)) [
      | inl e ↦ let s : i - o.pos ≡ suc (i - (o.pos + 1)) = ground arith in rw s (ground arith)
      | inr e ↦ let s : i - o.pos ≡ 0 = ground arith in rw s (ground arith)
    ]

-- The bytes of a buffer of `size` bytes that has got a text and a NUL.
abbrev pub printed : (buf : List ℕ) → (size : ℕ) → (text : List ℕ) → ℕ → ℕ
printed buf size text i =
    let end = if ltb (length text) (size - 1) then length text else size - 1 in
    if i == end then 0 else if ltb i end then get_or text i 0 else get_or buf i 0

terminate-at :
    (o : OutBuf) (i : ℕ)
    → 0 < o.size
    → o.size ≤ length o.buf
    → get_or (terminate o) i 0 ≡ (
        let end = if ltb o.pos (o.size - 1) then o.pos else o.size - 1 in
        if i == end then 0 else get_or o.buf i 0)
terminate-at o i pos h =
    let ne : (o.size == 0) ≡ false = ground arith in
    let end = if ltb o.pos (o.size - 1) then o.pos else o.size - 1 in
    rw ne (elim (Bool-cases (i == end)) [
      | inl q ↦
          let same : i ≡ end = ground arith in
          rw q (rw same (get_or-set_self o.buf end 0 0 (ground arith)))
      | inr q ↦ rw q (get_or-set_ne o.buf end i 0 0 (ground arith))
    ])

-- What a call leaves and returns, for a text.
abbrev pub Printed : List ℕ → (buf : List ℕ) → (size : ℕ) → Option (List ℕ × ℤ) → Type 0
Printed text buf size r =
    (b : List ℕ) × (r ≡ some (b, as_int (length text)))
    × ((i : ℕ) → get_or b i 0 ≡ printed buf size text i)

vsnprintf-Printed :
    (fmt : List ℕ) (args : List Arg) (buf : List ℕ) (size : ℕ)
    → 0 < size
    → size ≤ length buf
    → Printed
        (format_loop-Text (length fmt) fmt args (omega arith)).0
        buf
        size
        (vsnprintf buf size fmt args)
unfolding vsnprintf
vsnprintf-Printed fmt args buf size pos room =
    let (text, t) = format_loop-Text (length fmt) fmt args (omega arith) in
    let o : OutBuf = record { buf = buf; size = size; pos = 0 } in
    let done = out_string o text in
    (
      terminate done,
      rw (t o, vsnprintf)
          (ap (λ n. some (terminate done, as_int n))
            ((out_string-at text o 0 room).1 ∙ omega arith)),
      λ i.
          let (ai, p, z, l) = out_string-at text o i room in
          let start : 0 + length text ≡ length text = omega arith in
          terminate-at done i (omega (arith, z)) (omega (arith, z, l))
          ∙ rw (p, z, ai, start) (ground arith),
    )

-- The numbers that a format spells, from the digits `v` on, are below 2^31, as an `int` must be.
abbrev pub is_narrow : (v : ℕ) → List ℕ → Bool
is_narrow v [] = true
is_narrow v (c ∷ cs) =
    let digit = leb 48 c && leb c 57 in
    let w = v * 10 + (c - 48) in
    let inside = is_narrow w cs in
    let outside = is_narrow 0 cs in if digit then ltb w (2 ^ 31) && inside else outside

-- The strings of some arguments have fewer than 2^31 characters.
abbrev pub AreShort : List Arg → Type 0
AreShort [] = Unit {0}
AreShort (word w ∷ args) = AreShort args
AreShort (string none ∷ args) = AreShort args
AreShort (string (some s) ∷ args) = (length s < 2 ^ 31) × AreShort args

-- `vsnprintf` ends for every format that spells no number of 2^31 or more, and all arguments with strings of
-- fewer than 2^31 characters, and puts out one text, whatever the buffer, here two buffers of at least one
-- byte: it returns the text's length, cut to an `int`, and a buffer gets the text's first `size - 1` bytes
-- and a NUL behind them, and keeps its other bytes, those past `size` with them.
pub vsnprintf_text :
    (fmt : List ℕ) (args : List Arg) (buf buf' : List ℕ) (size size' : ℕ)
    → 0 < size
    → size ≤ length buf
    → 0 < size'
    → size' ≤ length buf'
    → is_narrow 0 fmt ≡ true
    → AreShort args
    → (text : List ℕ) × Printed text buf size (vsnprintf buf size fmt args)
      × Printed text buf' size' (vsnprintf buf' size' fmt args)
vsnprintf_text fmt args buf buf' size size' pos room pos' room' narrow short = (
  (format_loop-Text (length fmt) fmt args (omega arith)).0,
  vsnprintf-Printed fmt args buf size pos room,
  vsnprintf-Printed fmt args buf' size' pos' room',
)
