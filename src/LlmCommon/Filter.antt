-- ===== src/LlmCommon/Filter.antt =====
-- kernel/src/llm_common.c: the filter puts out printable characters, and no more than its buffer holds.
use choco_os.Base.{
  ℕ, zero, suc, ◌+◌, ◌≤◌, ◌<◌, ◌≡◌, refl, true, ◌||◌, ltb, ◌==◌, Option, some, List, [], ◌∷◌, ◌++◌,
  length, drop, arith, Bool-cases, inl, inr, length-append, ltb→lt,
}
use choco_os.LlmCommon.{is_kept, code_point, ascii_of, sanitized, sanitize, emit_sanitized}

abbrev pub AllKept : List ℕ → Type 0
AllKept [] = Unit
AllKept (c ∷ cs) = (is_kept c ≡ true) × AllKept cs

AllKept-append : (xs ys : List ℕ) → AllKept xs → AllKept ys → AllKept (xs ++ ys)
AllKept-append [] ys h k = k
AllKept-append (x ∷ xs) ys h k = (h.0, AllKept-append xs ys h.1 k)

ascii_of-AllKept : (cp : ℕ) → AllKept (ascii_of cp) × (length (ascii_of cp) ≤ 3)
ascii_of-AllKept cp = elim (Bool-cases (cp == 0x2018 || cp == 0x2019)) [
  | inl e ↦ rw e ((refl, tt), omega arith)
  | inr e ↦ elim (Bool-cases (cp == 0x201c || cp == 0x201d)) [
    | inl f ↦ rw (e, f) ((refl, tt), omega arith)
    | inr f ↦ elim (Bool-cases (cp == 0x2013 || cp == 0x2014)) [
      | inl g ↦ rw (e, f, g) ((refl, tt), omega arith)
      | inr g ↦ elim (Bool-cases (cp == 0x2026)) [
        | inl h ↦ rw (e, f, g, h) ((refl, (refl, (refl, tt))), omega arith)
        | inr h ↦ rw (e, f, g, h) (tt, omega arith)
      ]
    ]
  ]
]

sanitized-AllKept :
    (c : ℕ) (rest : List ℕ) → AllKept (sanitized c rest).0 × (length (sanitized c rest).0 ≤ 3)
sanitized-AllKept c rest = elim (Bool-cases (is_kept c)) [
  | inl k ↦ rw k ((k, tt), omega arith)
  | inr k ↦ elim (Bool-cases ((code_point c rest).1 == 0)) [
    | inl z ↦ rw (k, z) (tt, omega arith)
    | inr z ↦ rw (k, z) (ascii_of-AllKept (code_point c rest).0)
  ]
]

length-drop-le : (n : ℕ) (xs : List ℕ) → length (drop n xs) ≤ length xs
length-drop-le zero xs = omega arith
length-drop-le (suc n) [] = omega arith
length-drop-le (suc n) (x ∷ xs) = omega (arith, length-drop-le n xs)

abbrev Filtered : ℕ → Option (List ℕ) → Type 0
Filtered o r = (out : List ℕ) × (r ≡ some out) × AllKept out × (o + length out ≤ 78)

sanitize-Filtered :
    (fuel : ℕ) (piece : List ℕ) (o : ℕ)
    → length piece ≤ fuel
    → o ≤ 78
    → Filtered o (sanitize fuel piece o)
unfolding sanitize
sanitize-Filtered zero [] o h b = ([], refl, tt, omega arith)
sanitize-Filtered (suc fuel) [] o h b = ([], refl, tt, omega arith)
sanitize-Filtered zero (c ∷ rest) o h b = absurd (omega arith)
sanitize-Filtered (suc fuel) (c ∷ rest) o h b = elim (Bool-cases (ltb o 76)) [
  | inr full ↦ ([], rw full refl, tt, omega arith)
  | inl room ↦
      let s = sanitized c rest in
      let (kept, short) = sanitized-AllKept c rest in
      let small : o < 76 = ltb→lt o 76 room in
      let le = length-drop-le s.1 rest in
      let (out, e, k, n) =
        sanitize-Filtered fuel (drop s.1 rest) (o + length s.0) (omega (arith, le))
          (omega (arith, short)) in
      (
        s.0 ++ out,
        rw room (rw e refl),
        AllKept-append s.0 out kept k,
        omega (arith, n, length-append s.0 out),
      )
]

-- `emit_sanitized` ends for every text, and emits only printable ASCII characters, tabs and line ends,
-- at most 78, so that they and the NUL behind them fit the buffer of 80 bytes.
pub emit_sanitized-AllKept :
    (piece : List ℕ)
    → (out : List ℕ) × (emit_sanitized piece ≡ some out) × AllKept out × (length out ≤ 78)
unfolding emit_sanitized
emit_sanitized-AllKept piece =
    let (out, e, k, n) = sanitize-Filtered (length piece) piece 0 (omega arith) (omega arith) in
    (out, e, k, omega (arith, n))
