-- ===== src/LlmCommon/Sift.antt =====
-- kernel/src/llm_common.c: the inner loop of `tok_sort` puts one token into its place in a heap.
use choco_os.Base.{
  ℕ, zero, suc, ◌+◌, ◌-◌, ◌*◌, ◌/◌, ◌≤◌, ◌<◌, ◌≡◌, ◌≢◌, ◌⊎◌, inl, inr, refl, sym, ◌∙◌, true, false,
  ◌==◌, ltb, leb, ◌&&◌, if◌then◌else◌, some, List, length, arith, Bool-cases, subst,
}
use choco_os.LlmCommon.{
  TokenIndex, token_at, compare_tokens, is_negative, swap_tokens, larger_child, sift,
}
use choco_os.LlmCommon.Lookup.{AreStrings}
use choco_os.LlmCommon.Compare.{Le, Le_refl, Le_trans, Le_of_before, IsString}
use choco_os.LlmCommon.Swap.{
  SameTokens, SameTokens_trans, length-swap_tokens, swap_tokens_at, swap_tokens-SameTokens,
}

abbrev pub parent : ℕ → ℕ
parent c = (c - 1) / 2

-- No token below `n` stands before a child of it, for parents from `lo` on.
abbrev pub IsHeapFrom : (lo n : ℕ) → List TokenIndex → Type 0
IsHeapFrom lo n a =
    (c : ℕ) → 0 < c → c < n → lo ≤ parent c → Le (token_at a c) (token_at a (parent c))

-- A heap but for the token at `i`, which may belong further down.
pub record Sifting (lo n : ℕ) (a : List TokenIndex) (i : ℕ) : Type 0 where
  pub edges :
      (c : ℕ)
      → 0 < c
      → c < n
      → lo ≤ parent c
      → parent c ≢ i
      → Le (token_at a c) (token_at a (parent c))
  pub bridged :
      (c : ℕ)
      → 0 < c
      → c < n
      → parent c ≡ i
      → 0 < i
      → lo ≤ parent i
      → Le (token_at a c) (token_at a (parent i))

-- What the loop makes of `a`: a heap of the same tokens, with the tokens from `n` on as they were.
pub record Sifted (lo n : ℕ) (a b : List TokenIndex) : Type 0 where
  pub heap : IsHeapFrom lo n b
  pub size : length b ≡ length a
  pub same : SameTokens b a
  pub strings : AreStrings b
  pub beyond : (k : ℕ) → n ≤ k → token_at b k ≡ token_at a k
  pub bounded :
      (x : TokenIndex)
      → ((k : ℕ) → k < n → Le (token_at a k) x)
      → (k : ℕ) → k < n
      → Le (token_at b k) x

record IsLarger (a : List TokenIndex) (n i m : ℕ) : Type 0 where
  inside : m < n
  child : (m ≡ 2 * i + 1) ⊎ (m ≡ 2 * i + 2)
  largest : (c : ℕ) → 0 < c → c < n → parent c ≡ i → Le (token_at a c) (token_at a m)

two_children : (c i : ℕ) → 0 < c → parent c ≡ i → (c ≡ 2 * i + 1) ⊎ (c ≡ 2 * i + 1 + 1)
two_children c i p e = ground arith

larger_child-IsLarger :
    (a : List TokenIndex) (n i : ℕ) → 2 * i + 1 < n → IsLarger a n i (larger_child a n i)
unfolding larger_child
larger_child-IsLarger a n i h =
    let l = 2 * i + 1 in
    let before = is_negative (compare_tokens (token_at a l) (token_at a (l + 1))) in
    let only : (c : ℕ) → 0 < c → parent c ≡ i → (c ≡ l) ⊎ (c ≡ l + 1) =
      λ c p e. two_children c i p e in
    elim (Bool-cases (ltb (l + 1) n && before)) [
      | inl e ↦
          let e' : before ≡ true = ground arith in
          let up = Le_of_before (token_at a l) (token_at a (l + 1)) e' in
          rw e (record {
            inside = ground arith;
            child = inr (omega arith);
            largest = λ c p q s. elim (only c p s) [
              | inl z ↦ subst (λ k. Le (token_at a k) (token_at a (l + 1))) (sym z) up
              | inr z ↦
                  subst (λ k. Le (token_at a k) (token_at a (l + 1))) (sym z)
                    (Le_refl (token_at a (l + 1)))
            ];
          })
      | inr e ↦ rw e (record {
        inside = h;
        child = inl refl;
        largest = λ c p q s. elim (only c p s) [
          | inl z ↦ subst (λ k. Le (token_at a k) (token_at a l)) (sym z) (Le_refl (token_at a l))
          | inr z ↦
              let down : before ≡ false = ground arith in
              subst (λ k. Le (token_at a k) (token_at a l)) (sym z) down
        ];
      })
    ]

module _ (lo n : ℕ) (a : List TokenIndex) (i m : ℕ) (hn : n ≤ length a) (hi : lo ≤ i)
    (k : IsLarger a n i m) where
  b : List TokenIndex
  b = swap_tokens a i m

  b_at :
      (c : ℕ)
      → token_at b c
        ≡ (if c == m then token_at a i else if c == i then token_at a m else token_at a c)
  unfolding b
  b_at = swap_tokens_at a i m (ground (arith, k.child, k.inside)) (ground (arith, k.inside))

  swap-Sifting : Sifting lo n a i → Le (token_at a i) (token_at a m) → Sifting lo n b m
  swap-Sifting s up = record {
    edges = λ c p q r t.
        ground (arith, b_at c, b_at (parent c), k.child, k.largest c, s.edges c, s.bridged m, up);
    bridged = λ c p q r t u. ground (arith, b_at c, b_at (parent m), k.child, s.edges c);
  }

  swap-AreStrings : AreStrings a → AreStrings b
  unfolding b
  swap-AreStrings st c h =
      let size =
        length-swap_tokens a i m (ground (arith, k.child, k.inside)) (ground (arith, k.inside)) in
      subst (λ t. IsString t) (sym (b_at c))
        (elim (Bool-cases (c == m)) [
          | inl e ↦ rw e (st i (ground (arith, k.child, k.inside)))
          | inr e ↦ elim (Bool-cases (c == i)) [
            | inl f ↦ rw (e, f) (st m (ground (arith, k.inside)))
            | inr f ↦ rw (e, f) (st c (omega arith))
          ]
        ])

  Sifted-swap : (r : List TokenIndex) → Sifted lo n b r → Sifted lo n a r
  unfolding b
  Sifted-swap r s =
      let li : i < length a = ground (arith, k.child, k.inside) in
      let lm : m < length a = ground (arith, k.inside) in
      record {
        heap = s.heap;
        size = s.size ∙ length-swap_tokens a i m li lm;
        same = SameTokens_trans r b a s.same (swap_tokens-SameTokens a i m li lm);
        strings = s.strings;
        beyond = λ c h. s.beyond c h ∙ ground (arith, b_at c, k.child, k.inside);
        bounded =
            λ x h. s.bounded x (λ c p. ground (arith, b_at c, k.child, k.inside, h c, h i, h m));
      }

settled :
    (lo n : ℕ) (a : List TokenIndex) (i : ℕ)
    → AreStrings a
    → Sifting lo n a i
    → ((c : ℕ) → 0 < c → c < n → parent c ≡ i → Le (token_at a c) (token_at a i))
    → Sifted lo n a a
settled lo n a i st s h = record {
  heap = λ c p q r. elim (Bool-cases (parent c == i)) [
    | inl e ↦ let e' : parent c ≡ i = ground arith in rw e' (h c p q e')
    | inr e ↦ s.edges c p q r (ground arith)
  ];
  size = refl;
  same = λ test. refl;
  strings = st;
  beyond = λ k h. refl;
  bounded = λ x h. h;
}

-- With fuel for the entries behind `i`, the loop ends with a heap.
pub sift-Sifted :
    (fuel lo n : ℕ) (a : List TokenIndex) (i : ℕ)
    → 0 < fuel
    → n < fuel + i
    → n ≤ length a
    → lo ≤ i
    → AreStrings a
    → Sifting lo n a i
    → (r : List TokenIndex) × (sift fuel a n i ≡ some r) × Sifted lo n a r
unfolding sift b
sift-Sifted zero lo n a i some_fuel f hn hi st s = absurd (omega arith)
sift-Sifted (suc fuel) lo n a i some_fuel f hn hi st s = elim (Bool-cases (leb n (2 * i + 1))) [
  | inl e ↦
      let le : n ≤ 2 * i + 1 = ground arith in
      (a, rw e refl, settled lo n a i st s (λ c p q t. absurd (omega arith)))
  | inr e ↦
      let lt : 2 * i + 1 < n = ground arith in
      let m = larger_child a n i in
      let k = larger_child-IsLarger a n i lt in
      let c = is_negative (compare_tokens (token_at a i) (token_at a m)) in
      elim (Bool-cases c) [
        | inl neg ↦
            let up = Le_of_before (token_at a i) (token_at a m) neg in
            let size =
              length-swap_tokens a i m (ground (arith, k.child, k.inside))
                (ground (arith, k.inside)) in
            let (r, g, h) =
              sift-Sifted fuel lo n (swap_tokens a i m) m (ground (arith, k.child, k.inside))
                (ground (arith, k.child)) (omega arith) (ground (arith, k.child))
                (swap-AreStrings lo n a i m hn hi k st) (swap-Sifting lo n a i m hn hi k s up) in
            (r, rw (e, neg) g, Sifted-swap lo n a i m hn hi k r h)
        | inr nonneg ↦ (
          a,
          rw (e, nonneg) refl,
          settled lo n a i st s (λ d p q t.
              Le_trans (token_at a d) (token_at a m) (token_at a i) (st d (omega arith))
                (st m (ground (arith, k.inside))) (k.largest d p q t) nonneg),
        )
      ]
]
