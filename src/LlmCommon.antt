-- ===== src/LlmCommon.antt =====
-- kernel/src/llm_common.c: the search in the sorted vocabulary and the filter of printed text. A string
-- is its characters without the NUL; the order of strings is that of kernel/src/string.c.
pub mod Lookup
pub mod Filter
pub mod Compare
pub mod Swap
pub mod Sift
pub mod Sort
use choco_os.Base.{
  ℕ, zero, suc, ◌+◌, ◌-◌, ◌*◌, ◌/◌, Bool, true, false, not, ◌&&◌, ◌||◌, ltb, leb, ◌==◌,
  if◌then◌else◌, Option, none, some, List, [], ◌∷◌, ◌++◌, length, get_or, set, drop, byte_at,
  bit_and, ℤ, pos, negsuc,
}
use choco_os.CString.{is_zero}
use choco_os.CString.Order.{order}

pub record TokenIndex : Type 0 where
  pub str : List ℕ
  pub id : ℕ

abbrev pub no_token : TokenIndex
no_token = record { str = []; id = 0 }

abbrev pub is_negative : ℤ → Bool
is_negative (pos n) = false
is_negative (negsuc n) = true

abbrev pub compare_tokens : TokenIndex → TokenIndex → ℤ
compare_tokens a b = order a.str b.str

abbrev pub token_at : List TokenIndex → ℕ → TokenIndex
token_at arr i = get_or arr i no_token

-- `tmp = arr[i]; arr[i] = arr[j]; arr[j] = tmp;`
pub swap_tokens : List TokenIndex → (i j : ℕ) → List TokenIndex
swap_tokens arr i j = set (set arr i (token_at arr j)) j (token_at arr i)

-- The child of `root` that the loop compares with: the larger of the two below `end`.
pub larger_child : List TokenIndex → (end root : ℕ) → ℕ
larger_child arr end root =
    let child = 2 * root + 1 in
    if ltb (child + 1) end
      && is_negative (compare_tokens (token_at arr child) (token_at arr (child + 1)))
    then child + 1
    else child

-- The inner loop, which both outer loops have, from `root` down in the entries below `end`. Indices
-- stay below 2^31 for a vocabulary that fits an `int`, halved.
pub sift : (fuel : ℕ) → List TokenIndex → (end root : ℕ) → Option (List TokenIndex)
unfolding larger_child swap_tokens
sift zero arr end root = none
sift (suc fuel) arr end root =
    let child = larger_child arr end root in
    let rest = sift fuel (swap_tokens arr root child) end child in
    if leb end (2 * root + 1)
    then some arr
    else if not (is_negative (compare_tokens (token_at arr root) (token_at arr child)))
    then some arr
    else rest

-- `for (int start = n / 2 - 1; start >= 0; start--)`, with `k` for `start + 1`.
pub build : (k : ℕ) → (n : ℕ) → List TokenIndex → Option (List TokenIndex)
unfolding sift
build zero n arr = some arr
build (suc k) n arr = elim (sift (n + 1) arr n k) [ none ↦ none | some arr' ↦ build k n arr' ]

-- `for (int end = n - 1; end > 0; end--)`
pub extract : (end : ℕ) → List TokenIndex → Option (List TokenIndex)
unfolding sift swap_tokens
extract zero arr = some arr
extract (suc end) arr = elim (sift (suc end + 1) (swap_tokens arr 0 (suc end)) (suc end) 0) [
  | none ↦ none
  | some arr' ↦ extract end arr'
]

-- Sorts the whole array `arr`; `n` is its length.
unfoldable pub tok_sort : List TokenIndex → Option (List TokenIndex)
unfolding build extract
tok_sort arr =
    let n = length arr in
    elim (build (n / 2) n arr) [ none ↦ none | some heap ↦ extract (n - 1) heap ]

-- The loop of `tok_lookup`, with `top` for `hi + 1`, and -1 for what is not found.
pub search_loop : (fuel : ℕ) → List ℕ → List TokenIndex → (lo top : ℕ) → Option ℤ
search_loop zero str vocab lo top = none
search_loop (suc fuel) str vocab lo top =
    let mid = (lo + (top - 1)) / 2 in
    let token = get_or vocab mid no_token in
    let c = order str token.str in
    let lower = search_loop fuel str vocab lo mid in
    let upper = search_loop fuel str vocab (mid + 1) top in
    if leb top lo
    then some (negsuc 0)
    else if is_zero c
    then some (pos token.id)
    else if is_negative c
    then lower
    else upper

pub tok_lookup : List ℕ → List TokenIndex → Option ℤ
unfolding search_loop
tok_lookup str vocab = search_loop (length vocab + 1) str vocab 0 (length vocab)

abbrev pub is_kept : ℕ → Bool
is_kept c = c == 10 || c == 9 || (leb 32 c && ltb c 127)

abbrev pub is_continuation : ℕ → Bool
is_continuation c = bit_and c 0xc0 == 0x80

-- A character of two or three bytes, and how many bytes it has; 0 bytes when it is none.
abbrev pub code_point : ℕ → List ℕ → ℕ × ℕ
code_point c rest =
    if bit_and c 0xe0 == 0xc0 && is_continuation (byte_at rest 0)
    then (bit_and c 0x1f * 64 + bit_and (byte_at rest 0) 0x3f, 2)
    else if bit_and c 0xf0 == 0xe0
        && is_continuation (byte_at rest 0)
        && is_continuation (byte_at rest 1)
    then (
      bit_and c 0x0f * 4096 + bit_and (byte_at rest 0) 0x3f * 64 + bit_and (byte_at rest 1) 0x3f,
      3,
    )
    else (0, 0)

-- The `switch`: quotes, dashes and the ellipsis in ASCII, and nothing for all else.
abbrev pub ascii_of : ℕ → List ℕ
ascii_of cp =
    if cp == 0x2018 || cp == 0x2019
    then 39 ∷ []
    else if cp == 0x201c || cp == 0x201d
    then 34 ∷ []
    else if cp == 0x2013 || cp == 0x2014
    then 45 ∷ []
    else if cp == 0x2026
    then 46 ∷ 46 ∷ 46 ∷ []
    else []

-- What the first character `c` puts out, and how many of the bytes `rest` behind it go with it.
abbrev pub sanitized : ℕ → List ℕ → List ℕ × ℕ
sanitized c rest =
    let cp = code_point c rest in
    if is_kept c then (c ∷ [], 0) else if cp.1 == 0 then ([], 0) else (ascii_of cp.0, cp.1 - 1)

-- The loop with `o` characters in the buffer of 80; what it appends.
pub sanitize : (fuel : ℕ) → List ℕ → (o : ℕ) → Option (List ℕ)
sanitize fuel [] o = some []
sanitize zero (c ∷ rest) o = none
sanitize (suc fuel) (c ∷ rest) o =
    let s = sanitized c rest in
    let more : Option (List ℕ) = elim (sanitize fuel (drop s.1 rest) (o + length s.0)) [
      | none ↦ none
      | some out ↦ some (s.0 ++ out)
    ] in
    if ltb o 76 then more else some []

-- What is emitted: `emit` is called with it unless it is empty.
pub emit_sanitized : List ℕ → Option (List ℕ)
unfolding sanitize
emit_sanitized piece = sanitize (length piece) piece 0
