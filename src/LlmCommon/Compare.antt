-- ===== src/LlmCommon/Compare.antt =====
-- kernel/src/llm_common.c: the order of tokens by `strcmp` is a total preorder on strings.
use choco_os.Base.{
  ℕ, ◌≡◌, ◌≢◌, inl, inr, refl, true, false, ltb, ◌==◌, List, [], ◌∷◌, arith, Bool-cases, diff,
}
use choco_os.CString.Order.{order, order_refl, AllNonzero}
use choco_os.LlmCommon.{TokenIndex, is_negative}

-- The second token does not stand before the first.
abbrev pub Le : TokenIndex → TokenIndex → Type 0
Le x y = is_negative (order y.str x.str) ≡ false

abbrev pub IsString : TokenIndex → Type 0
IsString x = AllNonzero x.str

negative-diff : (a b : ℕ) → is_negative (diff a b) ≡ ltb a b
negative-diff a b = ground arith

asym : (xs ys : List ℕ) → is_negative (order xs ys) ≡ true → is_negative (order ys xs) ≡ false
asym [] [] h = cc
asym [] (y ∷ ys) h = ground (arith, negative-diff 0 y, negative-diff y 0)
asym (x ∷ xs) [] h = ground (arith, negative-diff 0 x, negative-diff x 0)
asym (x ∷ xs) (y ∷ ys) h = elim (Bool-cases (x == y)) [
  | inl e ↦ let e' : (y == x) ≡ true = ground arith in rw e' (asym xs ys (rw e at h))
  | inr e ↦
      let e' : (y == x) ≡ false = ground arith in
      let h' : is_negative (diff x y) ≡ true = rw e at h in
      rw e' (ground (arith, negative-diff x y, negative-diff y x))
]

nothing_before : (x : ℕ) (xs : List ℕ) → x ≢ 0 → is_negative (order [] (x ∷ xs)) ≡ true
nothing_before x xs h = ground (arith, negative-diff 0 x)

trans :
    (zs ys xs : List ℕ)
    → AllNonzero ys
    → AllNonzero xs
    → is_negative (order zs ys) ≡ false
    → is_negative (order ys xs) ≡ false
    → is_negative (order zs xs) ≡ false
trans [] [] xs n k h h' = h'
trans [] (y ∷ ys) xs n k h h' = ground (arith, nothing_before y ys n.0)
trans (z ∷ zs) ys [] n k h h' = ground (arith, negative-diff z 0)
trans (z ∷ zs) [] (x ∷ xs) n k h h' = ground (arith, nothing_before x xs k.0)
trans (z ∷ zs) (y ∷ ys) (x ∷ xs) n k h h' =
    ground (arith, trans zs ys xs n.1 k.1, negative-diff z y, negative-diff y x, negative-diff z x)

pub Le_refl : (x : TokenIndex) → Le x x
Le_refl x = rw (order_refl x.str) refl

pub Le_trans : (x y z : TokenIndex) → IsString x → IsString y → Le x y → Le y z → Le x z
Le_trans x y z hx hy h k = trans z.str y.str x.str hy hx k h

pub Le_of_before : (x y : TokenIndex) → is_negative (order x.str y.str) ≡ true → Le x y
Le_of_before x y h = asym x.str y.str h
