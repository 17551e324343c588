-- ===== src/LlmCommon/Swap.antt =====
-- kernel/src/llm_common.c: swapping two tokens of an array, and arrays of the same tokens.
use choco_os.Base.{
  ℕ, zero, suc, ◌+◌, ◌<◌, ◌≡◌, ◌∙◌, Bool, ◌==◌, if◌then◌else◌, List, [], ◌∷◌, length, set,
  length-set, get_or-set_self, get_or-set_ne, arith,
}
use choco_os.LlmCommon.{TokenIndex, no_token, token_at, swap_tokens}

-- How many tokens pass a test.
abbrev pub count : (TokenIndex → Bool) → List TokenIndex → ℕ
count test [] = 0
count test (x ∷ xs) = (if test x then 1 else 0) + count test xs

-- The same tokens, each as often.
abbrev pub SameTokens : List TokenIndex → List TokenIndex → Type 0
SameTokens xs ys = (test : TokenIndex → Bool) → count test xs ≡ count test ys

pub SameTokens_trans :
    (xs ys zs : List TokenIndex) → SameTokens xs ys → SameTokens ys zs → SameTokens xs zs
SameTokens_trans xs ys zs h k test = h test ∙ k test

count-set :
    (test : TokenIndex → Bool) (xs : List TokenIndex) (i : ℕ) (v : TokenIndex)
    → i < length xs
    → count test (set xs i v) + (if test (token_at xs i) then 1 else 0)
      ≡ count test xs + (if test v then 1 else 0)
count-set test [] i v h = absurd (omega arith)
count-set test (x ∷ xs) zero v h = omega arith
count-set test (x ∷ xs) (suc i) v h = omega (arith, count-set test xs i v (omega arith))

module _ (arr : List TokenIndex) (i j : ℕ) (hi : i < length arr) (hj : j < length arr) where
  pub length-swap_tokens : length (swap_tokens arr i j) ≡ length arr
  unfolding swap_tokens
  length-swap_tokens =
      length-set (set arr i (token_at arr j)) j (token_at arr i) ∙ length-set arr i (token_at arr j)

  pub swap_tokens_at :
      (k : ℕ)
      → token_at (swap_tokens arr i j) k
        ≡ (if k == j then token_at arr i else if k == i then token_at arr j else token_at arr k)
  unfolding swap_tokens
  swap_tokens_at k =
      let x = token_at arr i in
      let y = token_at arr j in
      let size = length-set arr i y in
      ground (
        arith,
        size,
        get_or-set_self (set arr i y) j x no_token,
        get_or-set_ne (set arr i y) j k x no_token,
        get_or-set_self arr i y no_token,
        get_or-set_ne arr i k y no_token,
      )

  pub swap_tokens-SameTokens : SameTokens (swap_tokens arr i j) arr
  unfolding swap_tokens
  swap_tokens-SameTokens test =
      let x = token_at arr i in
      let y = token_at arr j in
      let size = length-set arr i y in
      let first = count-set test arr i y hi in
      let second = count-set test (set arr i y) j x (omega arith) in
      let there : token_at (set arr i y) j ≡ y =
        ground (arith, get_or-set_self arr i y no_token, get_or-set_ne arr i j y no_token) in
      omega (arith, first, rw there at second)
