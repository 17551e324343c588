-- ===== src/LlmCommon/Lookup.antt =====
-- kernel/src/llm_common.c: the binary search finds what the sorted vocabulary has.
use choco_os.Base.{
  ℕ, zero, suc, ◌+◌, ◌-◌, ◌/◌, ◌≤◌, ◌<◌, ◌≡◌, ◌≢◌, ◌⊎◌, refl, sym, ◌∙◌, true, false, leb, ◌==◌,
  Option, some, List, [], ◌∷◌, length, get_or, arith, Bool-cases, inl, inr, ap, subst, true≢false,
  ℤ, pos, negsuc, diff, lt_or_le,
}
use choco_os.CString.{is_zero}
use choco_os.CString.Order.{order, order_refl, order-equal, AllNonzero}
use choco_os.LlmCommon.{TokenIndex, no_token, is_negative, search_loop, tok_lookup}

abbrev pub str_at : List TokenIndex → ℕ → List ℕ
str_at vocab i = (get_or vocab i no_token).str

-- No string has a NUL in it.
abbrev pub AreStrings : List TokenIndex → Type 0
AreStrings vocab = (i : ℕ) → i < length vocab → AllNonzero (str_at vocab i)

-- No string stands before a smaller one.
abbrev pub IsSorted : List TokenIndex → Type 0
IsSorted vocab =
    (i j : ℕ)
    → i < j
    → j < length vocab
    → is_negative (order (str_at vocab j) (str_at vocab i)) ≡ false

pub data Looked (str : List ℕ) (vocab : List TokenIndex) : Option ℤ → Type 0 where
  found :
      (i : ℕ)
      → i < length vocab
      → str_at vocab i ≡ str
      → Looked str vocab (some (pos (get_or vocab i no_token).id))
  missing : ((i : ℕ) → i < length vocab → str_at vocab i ≢ str) → Looked str vocab (some (negsuc 0))

diff-flip :
    (x y : ℕ)
    → is_zero (diff x y) ≡ false
    → is_negative (diff x y) ≡ false
    → is_negative (diff y x) ≡ true
diff-flip x y z n = elim (lt_or_le x y) [
  | inl lt ↦ let up : leb y x ≡ false = ground arith in absurd (true≢false (rw up at n))
  | inr ge ↦
      let up : leb y x ≡ true = ground arith in
      let z' : is_zero (pos (x - y)) ≡ false = rw up at z in
      let apart : y < x = elim (lt_or_le y x) [
        | inl lt ↦ lt
        | inr le ↦
            let same : x - y ≡ 0 = omega arith in
            absurd (true≢false (subst (λ k. is_zero (pos k) ≡ false) same z'))
      ] in
      let down : leb x y ≡ false = ground arith in rw down refl
]

is_zero-pos : (d : ℤ) → is_zero d ≡ true → d ≡ pos 0
is_zero-pos (pos zero) h = refl
is_zero-pos (pos (suc n)) h = cc
is_zero-pos (negsuc n) h = cc

-- When a string is not before another and not equal to it, the other is before it.
order-flip :
    (xs ys : List ℕ)
    → is_zero (order xs ys) ≡ false
    → is_negative (order xs ys) ≡ false
    → is_negative (order ys xs) ≡ true
order-flip [] [] z n = absurd (true≢false z)
order-flip [] (y ∷ ys) z n = diff-flip 0 y z n
order-flip (x ∷ xs) [] z n = diff-flip x 0 z n
order-flip (x ∷ xs) (y ∷ ys) z n = elim (Bool-cases (x == y)) [
  | inl e ↦
      let e' : (y == x) ≡ true = ground arith in rw e' (order-flip xs ys (rw e at z) (rw e at n))
  | inr e ↦
      let e' : (y == x) ≡ false = ground arith in rw e' (diff-flip x y (rw e at z) (rw e at n))
]

module _ (str : List ℕ) (vocab : List TokenIndex) (sorted : IsSorted vocab)
    (nonzero : AllNonzero str) (all_nonzero : AreStrings vocab) where
  -- The strings outside the range that is still searched are others.
  Outside : ℕ → ℕ → Type 0
  Outside lo top = (i : ℕ) → i < length vocab → (i < lo) ⊎ (top ≤ i) → str_at vocab i ≢ str

  lower :
      (lo top mid : ℕ)
      → mid < length vocab
      → is_negative (order str (str_at vocab mid)) ≡ true
      → Outside lo top
      → Outside lo mid
  unfolding Outside
  lower lo top mid inside neg out i h (inl before) e = out i h (inl before) e
  lower lo top mid inside neg out i h (inr behind) e = elim (lt_or_le mid i) [
    | inl lt ↦ absurd (
        true≢false (
          sym neg ∙ ap (λ x. is_negative (order x (str_at vocab mid))) (sym e) ∙ sorted mid i lt h))
    | inr le ↦
        let at : i ≡ mid = omega arith in
        let same : str_at vocab mid ≡ str = subst (λ k. str_at vocab k ≡ str) at e in
        absurd (
          true≢false
            (sym neg ∙ ap (λ x. is_negative (order str x)) same ∙ ap is_negative (order_refl str)))
  ]

  upper :
      (lo top mid : ℕ)
      → mid < length vocab
      → is_zero (order str (str_at vocab mid)) ≡ false
      → is_negative (order str (str_at vocab mid)) ≡ false
      → Outside lo top
      → Outside (mid + 1) top
  unfolding Outside
  upper lo top mid inside nz nn out i h (inr behind) e = out i h (inr behind) e
  upper lo top mid inside nz nn out i h (inl before) e =
      let flip = order-flip str (str_at vocab mid) nz nn in
      elim (lt_or_le i mid) [
        | inl lt ↦ absurd (
            true≢false (
              sym flip
              ∙ ap (λ x. is_negative (order (str_at vocab mid) x)) (sym e)
              ∙ sorted i mid lt inside))
        | inr le ↦
            let at : i ≡ mid = omega arith in
            let same : str_at vocab mid ≡ str = subst (λ k. str_at vocab k ≡ str) at e in
            absurd (
              true≢false (
                sym (ap is_zero (order_refl str))
                ∙ ap (λ x. is_zero (order str x)) (sym same)
                ∙ nz))
      ]

  search_loop-Looked :
      (fuel lo top : ℕ)
      → lo ≤ top
      → top ≤ length vocab
      → top < fuel + lo
      → Outside lo top
      → Looked str vocab (search_loop fuel str vocab lo top)
  unfolding search_loop Outside
  search_loop-Looked zero lo top span size room out = absurd (omega arith)
  search_loop-Looked (suc fuel) lo top span size room out = elim (Bool-cases (leb top lo)) [
    | inl done ↦
        let le : top ≤ lo = ground arith in
        rw done (
          missing (λ i h.
            out i h (elim (lt_or_le i lo) [ inl lt ↦ inl lt | inr ge ↦ inr (omega arith) ])))
    | inr more ↦
        let lt : lo < top = ground arith in
        let mid = (lo + (top - 1)) / 2 in
        let inside : mid < length vocab = omega arith in
        let c = order str (str_at vocab mid) in
        elim (Bool-cases (is_zero c)) [
          | inl zero_c ↦
              rw (more, zero_c)
                (found mid inside (
                  sym (
                    order-equal str (str_at vocab mid) nonzero (all_nonzero mid inside)
                      (is_zero-pos c zero_c))))
          | inr apart ↦ elim (Bool-cases (is_negative c)) [
            | inl neg ↦
                rw (more, apart, neg)
                  (search_loop-Looked fuel lo mid (omega arith) (omega arith) (omega arith)
                    (lower lo top mid inside neg out))
            | inr nonneg ↦
                rw (more, apart, nonneg)
                  (search_loop-Looked fuel (mid + 1) top (omega arith) size (omega arith)
                    (upper lo top mid inside apart nonneg out))
          ]
        ]
  ]

-- `tok_lookup` of a string in a vocabulary that is sorted by `strcmp`, no string having a NUL in it, ends:
-- it returns the id of an entry with that string, and -1 only when no entry has it.
pub tok_lookup-Looked :
    (str : List ℕ) (vocab : List TokenIndex)
    → IsSorted vocab
    → AllNonzero str
    → AreStrings vocab
    → Looked str vocab (tok_lookup str vocab)
unfolding tok_lookup Outside
tok_lookup-Looked str vocab sorted nonzero all_nonzero =
    search_loop-Looked str vocab sorted nonzero all_nonzero (length vocab + 1) 0 (length vocab)
      (omega arith) (omega arith) (omega arith)
      (λ i h out. elim out [ inl lt ↦ absurd (omega arith) | inr ge ↦ absurd (omega arith) ])
