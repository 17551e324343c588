-- ===== src/Tests/StringRuns.antt =====
-- kernel/src/gcc_utils.c, kernel/src/string.c and kernel/src/kprintf.c on short strings.
use choco_os.Base.{
  ℕ, ◌+◌, ◌==◌, ◌≡◌, ◌≤◌, ◌<◌, ◌⊎◌, refl, true, false, ltb, leb, ◌&&◌, ◌%◌, if◌then◌else◌, List, [],
  ◌∷◌, some, arith, inl, inr, take, length, sub_word, replicate,
}
use choco_os.Memory.{Bytes, memcpy, memmove, memset}
use choco_os.Memory.Copy.{copied, memcpy-copied, memmove-copied, memset-filled}
use choco_os.CString.{Holds, strlcpy, strtol}
use choco_os.CString.Copying.{fitting, strlcpy-Holds}
use choco_os.Kprintf.{number_text, digits_of, vsnprintf, word}
use choco_os.Kprintf.Format.{Printed, vsnprintf_text}
use choco_os.Kprintf.Number.{strtol-number_text}

-- "-42" at 100 and at 200, and nothing but NULs elsewhere.
abbrev memory : Bytes
memory = λ a.
    if (a % 100) == 0 && leb 100 a && leb a 200
    then 45
    else if (a % 100) == 1 && leb 100 a && leb a 201
    then 52
    else if (a % 100) == 2 && leb 100 a && leb a 202
    then 50
    else 0

abbrev minus_42 : List ℕ
minus_42 = 45 ∷ 52 ∷ 50 ∷ []

minus_42-held : (a : ℕ) → (a ≡ 100) ⊎ (a ≡ 200) → Holds memory a minus_42
minus_42-held a (inl e) = rw e (refl, omega arith, (refl, omega arith, (refl, omega arith, refl)))
minus_42-held a (inr e) = rw e (refl, omega arith, (refl, omega arith, (refl, omega arith, refl)))

memmove-copied_example : memmove 101 100 3 memory 103 ≡ copied 101 100 3 memory 103
memmove-copied_example = memmove-copied 101 100 3 memory 103

memcpy-copied_example : memcpy 300 100 3 memory 301 ≡ copied 300 100 3 memory 301
memcpy-copied_example = memcpy-copied 300 100 3 memory 301 (inr (omega arith))

memset-filled_example :
    memset 100 7 3 memory 101 ≡ (if leb 100 101 && ltb 101 (100 + 3) then 7 % 256 else memory 101)
memset-filled_example = memset-filled 100 7 3 memory 101

strlcpy-Holds_example :
    (m' : Bytes) × (strlcpy 4 300 100 3 memory ≡ some (3, m'))
    × Holds m' 300 (take (fitting 3 3) minus_42)
    × ((j : ℕ) → (j < 300) ⊎ (300 + 3 ≤ j) → m' j ≡ memory j)
strlcpy-Holds_example =
    strlcpy-Holds 4 300 100 3 minus_42 memory (minus_42-held 100 (inl refl)) (omega arith)
      (omega arith) (inr (omega arith))

strtol-number_text_example :
    strtol 66 memory 100 10 ≡ some (sub_word 64 0 42, 100 + length (number_text 42 10 true false))
unfolding digits_of
strtol-number_text_example =
    strtol-number_text 66 memory 100 42 true (omega arith) (minus_42-held 100 (inl refl))
      (omega arith)

-- "%5d" of 42 in buffers of 4 and of 8 bytes.
abbrev format : List ℕ
format = 37 ∷ 53 ∷ 100 ∷ []

vsnprintf_text_example :
    (text : List ℕ) × Printed text
      (replicate 4 0)
      4
      (vsnprintf (replicate 4 0) 4 format (word 42 ∷ []))
    × Printed text (replicate 8 0) 8 (vsnprintf (replicate 8 0) 8 format (word 42 ∷ []))
vsnprintf_text_example =
    vsnprintf_text format (word 42 ∷ []) (replicate 4 0) (replicate 8 0) 4 8 (omega arith)
      (omega arith) (omega arith) (omega arith) refl tt
