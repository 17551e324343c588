-- ===== src/LlmCommon/Sort.antt =====
-- kernel/src/llm_common.c: `tok_sort` sorts, so that `tok_lookup` can search.
use choco_os.Base.{
  ℕ, zero, suc, ◌+◌, ◌-◌, ◌/◌, ◌≤◌, ◌<◌, ◌≡◌, inl, inr, refl, sym, ◌∙◌, ◌==◌, some, List, length,
  arith, Bool-cases, subst, lt_or_le, if◌then◌else◌,
}
use choco_os.LlmCommon.{TokenIndex, token_at, swap_tokens, sift, build, extract, tok_sort}
use choco_os.LlmCommon.Lookup.{AreStrings, IsSorted}
use choco_os.LlmCommon.Compare.{Le, Le_refl, Le_trans, IsString}
use choco_os.LlmCommon.Swap.{
  SameTokens, SameTokens_trans, length-swap_tokens, swap_tokens_at, swap_tokens-SameTokens,
}
use choco_os.LlmCommon.Sift.{parent, IsHeapFrom, Sifting, Sifted, sift-Sifted}

-- The same tokens, all of them strings, as many.
record Kept (a b : List TokenIndex) : Type 0 where
  size : length b ≡ length a
  same : SameTokens b a
  strings : AreStrings b

Kept-trans : (a b c : List TokenIndex) → Kept a b → Kept b c → Kept a c
Kept-trans a b c h k = record {
  size = k.size ∙ h.size;
  same = SameTokens_trans c b a k.same h.same;
  strings = k.strings;
}

heap-Sifting : (lo n : ℕ) (a : List TokenIndex) → IsHeapFrom (suc lo) n a → Sifting lo n a lo
heap-Sifting lo n a h = record {
  edges = λ c p q r t. h c p q (omega arith);
  bridged = λ c p q r t u. absurd (omega arith);
}

build_step :
    (k n : ℕ) (a b : List TokenIndex)
    → sift (n + 1) a n k ≡ some b
    → build (suc k) n a ≡ build k n b
unfolding build
build_step k n a b e = rw (e, build) refl

-- The first loop makes a heap.
build_heap :
    (k n : ℕ) (a : List TokenIndex)
    → length a ≡ n
    → AreStrings a
    → IsHeapFrom k n a
    → (r : List TokenIndex) × (build k n a ≡ some r) × Kept a r × IsHeapFrom 0 n r
unfolding build
build_heap zero n a z st h = (a, refl, record { size = refl; same = λ test. refl; strings = st }, h)
build_heap (suc k) n a z st h =
    let (b, e, s) =
      sift-Sifted (n + 1) k n a k (omega arith) (omega arith) (omega arith) (omega arith) st
        (heap-Sifting k n a h) in
    let (r, f, kept, g) = build_heap k n b (s.size ∙ z) s.strings s.heap in
    (
      r,
      build_step k n a b e ∙ f,
      Kept-trans a b r (record { size = s.size; same = s.same; strings = s.strings }) kept,
      g,
    )

root_greatest :
    (fuel n : ℕ) (a : List TokenIndex)
    → n ≤ length a
    → AreStrings a
    → IsHeapFrom 0 n a
    → (i : ℕ) → i < fuel
    → i < n
    → Le (token_at a i) (token_at a 0)
root_greatest zero n a hn st h i f p = absurd (omega arith)
root_greatest (suc fuel) n a hn st h zero f p = Le_refl (token_at a 0)
root_greatest (suc fuel) n a hn st h (suc i) f p =
    let q = parent (suc i) in
    Le_trans (token_at a (suc i)) (token_at a q) (token_at a 0) (st (suc i) (omega arith))
      (st q (omega arith)) (h (suc i) (omega arith) p (omega arith))
      (root_greatest fuel n a hn st h q (omega arith) (omega arith))

-- From the index `n` on no token stands before one with a smaller index.
abbrev Ends : ℕ → List TokenIndex → Type 0
Ends n a = (i j : ℕ) → i < j → n ≤ j → j < length a → Le (token_at a i) (token_at a j)

-- One round of the second loop: the greatest token goes to the end of the heap.
module _ (end : ℕ) (a : List TokenIndex) (st : AreStrings a) (inside : suc end < length a)
    (h : IsHeapFrom 0 (suc (suc end)) a) (ends : Ends (suc (suc end)) a) where
  b : List TokenIndex
  b = swap_tokens a 0 (suc end)

  b_at :
      (c : ℕ)
      → token_at b c ≡ (
          if c == suc end
          then token_at a 0
          else if c == 0
          then token_at a (suc end)
          else token_at a c)
  unfolding b
  b_at = swap_tokens_at a 0 (suc end) (omega arith) inside

  greatest : (i : ℕ) → i < suc (suc end) → Le (token_at a i) (token_at a 0)
  greatest i p = root_greatest (suc i) (suc (suc end)) a inside st h i (omega arith) p

  swapped-Kept : Kept a b
  unfolding b
  swapped-Kept =
      let size = length-swap_tokens a 0 (suc end) (omega arith) inside in
      record {
        size = size;
        same = swap_tokens-SameTokens a 0 (suc end) (omega arith) inside;
        strings = λ c p.
            subst (λ t. IsString t) (sym (b_at c))
              (elim (Bool-cases (c == suc end)) [
                | inl e ↦ rw e (st 0 (omega arith))
                | inr e ↦ elim (Bool-cases (c == 0)) [
                  | inl f ↦ rw (e, f) (st (suc end) inside)
                  | inr f ↦ rw (e, f) (st c (omega arith))
                ]
              ]);
      }

  swapped-Sifting : Sifting 0 (suc end) b 0
  swapped-Sifting = record {
    edges = λ c p q r t. ground (arith, b_at c, b_at (parent c), h c);
    bridged = λ c p q r t u. absurd (omega arith);
  }

  swapped_below : (k : ℕ) → k < suc end → Le (token_at b k) (token_at a 0)
  swapped_below k p = ground (arith, b_at k, greatest k, greatest (suc end))

  before_later : (j k : ℕ) → suc end < j → j < length a → k < j → Le (token_at b k) (token_at a j)
  before_later j k behind inn p = ground (arith, b_at k, ends 0 j, ends (suc end) j, ends k j)

  swapped-Ends : (r : List TokenIndex) → Sifted 0 (suc end) b r → Ends (suc end) r
  swapped-Ends r s i j lt le inn =
      let size : length r ≡ length a = s.size ∙ swapped-Kept.size in
      elim (lt_or_le (suc end) j) [
        | inl behind ↦
            let at : token_at r j ≡ token_at a j = s.beyond j le ∙ ground (arith, b_at j) in
            let in_a : j < length a = omega arith in
            rw at (elim (lt_or_le i (suc end)) [
              | inl below ↦
                  s.bounded (token_at a j) (λ k p. before_later j k behind in_a (omega arith)) i
                    below
              | inr from ↦ rw (s.beyond i from) (before_later j i behind in_a lt)
            ])
        | inr le' ↦
            let at_end : j ≡ suc end = omega arith in
            let at : token_at r j ≡ token_at a 0 = s.beyond j le ∙ ground (arith, b_at j) in
            rw at (s.bounded (token_at a 0) swapped_below i (omega arith))
      ]

extract_step :
    (end : ℕ) (a b : List TokenIndex)
    → sift (suc end + 1) (swap_tokens a 0 (suc end)) (suc end) 0 ≡ some b
    → extract (suc end) a ≡ extract end b
unfolding extract
extract_step end a b e = rw (e, extract) refl

-- The second loop sorts a heap.
extract_sorts :
    (end : ℕ) (a : List TokenIndex)
    → AreStrings a
    → end ≤ length a - 1
    → IsHeapFrom 0 (suc end) a
    → Ends (suc end) a
    → (r : List TokenIndex) × (extract end a ≡ some r) × Kept a r × IsSorted r
unfolding extract b
extract_sorts zero a st le h ends = (
  a,
  refl,
  record { size = refl; same = λ test. refl; strings = st },
  λ i j lt inn. ends i j lt (omega arith) inn,
)
extract_sorts (suc end) a st le h ends =
    let inside : suc end < length a = omega arith in
    let kept = swapped-Kept end a st inside h ends in
    let b' = swap_tokens a 0 (suc end) in
    let (c, e, s) =
      sift-Sifted (suc end + 1) 0 (suc end) b' 0 (omega arith) (omega arith)
        (omega (arith, kept.size)) (omega arith) kept.strings
        (swapped-Sifting end a st inside h ends) in
    let k : Kept a c =
      Kept-trans a b' c kept (record { size = s.size; same = s.same; strings = s.strings }) in
    let (r, f, kept', sorted) =
      extract_sorts end c s.strings (omega (arith, k.size)) s.heap
        (swapped-Ends end a st inside h ends c s) in
    (r, extract_step end a c e ∙ f, Kept-trans a c r k kept', sorted)

tok_sort_steps :
    (arr a : List TokenIndex)
    → build (length arr / 2) (length arr) arr ≡ some a
    → tok_sort arr ≡ extract (length arr - 1) a
unfolding tok_sort
tok_sort_steps arr a e = rw (e, tok_sort) refl

-- `tok_sort` of an array of strings ends with the same tokens, each as often, in the order of
-- `strcmp`, so sorted as `tok_lookup` needs it.
pub tok_sort-IsSorted :
    (arr : List TokenIndex)
    → AreStrings arr
    → (r : List TokenIndex) × (tok_sort arr ≡ some r) × SameTokens r arr × AreStrings r × IsSorted r
tok_sort-IsSorted arr st =
    let n = length arr in
    let (a, e, kept, heap) = build_heap (n / 2) n arr refl st (λ c p q r. absurd (omega arith)) in
    let (r, f, kept', sorted) =
      extract_sorts (n - 1) a kept.strings (omega (arith, kept.size))
        (λ c p q r. heap c p (omega arith) r)
        (λ i j lt le inn. absurd (omega (arith, kept.size))) in
    let all = Kept-trans arr a r kept kept' in
    (r, tok_sort_steps arr a e ∙ f, all.same, all.strings, sorted)
