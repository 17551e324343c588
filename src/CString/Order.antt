-- ===== src/CString/Order.antt =====
-- kernel/src/string.c: `strcmp` orders strings like a dictionary.
use choco_os.Base.{
  ℕ, zero, suc, ◌+◌, ◌<◌, ◌≡◌, ◌≢◌, ◌↔◌, refl, some, List, [], ◌∷◌, length, arith, sym, ◌==◌, true,
  false, if◌then◌else◌, ℤ, pos, diff, Bool-cases, inl, inr, ap₂, subst,
}
use choco_os.Memory.{Bytes}
use choco_os.CString.{Holds, strcmp}

-- The order of two strings: the difference of the first bytes that differ, a string's end being 0.
abbrev pub order : List ℕ → List ℕ → ℤ
order [] [] = pos 0
order [] (y ∷ ys) = diff 0 y
order (x ∷ xs) [] = diff x 0
order (x ∷ xs) (y ∷ ys) = let rest = order xs ys in if x == y then rest else diff x y

-- `strcmp` of two strings, with fuel for the first and its NUL, is their order.
pub strcmp-order :
    (fuel : ℕ) (xs ys : List ℕ) (m : Bytes) (a b : ℕ)
    → Holds m a xs
    → Holds m b ys
    → length xs < fuel
    → strcmp fuel m a b ≡ some (order xs ys)
unfolding strcmp
strcmp-order zero xs ys m a b h k lt = absurd (omega arith)
strcmp-order (suc fuel) [] [] m a b h k lt = rw (h, k) refl
strcmp-order (suc fuel) [] (y ∷ ys) m a b h k lt = rw (h, k.0) refl
strcmp-order (suc fuel) (x ∷ xs) [] m a b h k lt =
    let nz = h.1 in let f : (x == 0) ≡ false = ground arith in rw (h.0, k, f) refl
strcmp-order (suc fuel) (x ∷ xs) (y ∷ ys) m a b h k lt =
    let nz = h.1 in
    let f : (x == 0) ≡ false = ground arith in
    rw (h.0, k.0, f)
      (elim (Bool-cases (x == y)) [
        | inl e ↦ rw e (strcmp-order fuel xs ys m (a + 1) (b + 1) h.2 k.2 (omega arith))
        | inr e ↦ rw e refl
      ])

diff_zero : (x y : ℕ) → diff x y ≡ pos 0 → x ≡ y
diff_zero x y e = ground arith

abbrev pub AllNonzero : List ℕ → Type 0
AllNonzero [] = Unit
AllNonzero (x ∷ xs) = (x ≢ 0) × AllNonzero xs

Holds-AllNonzero : (xs : List ℕ) (m : Bytes) (a : ℕ) → Holds m a xs → AllNonzero xs
Holds-AllNonzero [] m a h = tt
Holds-AllNonzero (x ∷ xs) m a h = (h.1, Holds-AllNonzero xs m (a + 1) h.2)

pub order-equal : (xs ys : List ℕ) → AllNonzero xs → AllNonzero ys → order xs ys ≡ pos 0 → xs ≡ ys
order-equal [] [] n k e = refl
order-equal [] (y ∷ ys) n k e = absurd (k.0 (sym (diff_zero 0 y e)))
order-equal (x ∷ xs) [] n k e = absurd (n.0 (diff_zero x 0 e))
order-equal (x ∷ xs) (y ∷ ys) n k e = elim (Bool-cases (x == y)) [
  | inl q ↦ let q' : x ≡ y = ground arith in ap₂ ◌∷◌ q' (order-equal xs ys n.1 k.1 (rw q at e))
  | inr q ↦ let d : diff x y ≡ pos 0 = rw q at e in absurd (ground (arith, diff_zero x y d))
]

pub order_refl : (xs : List ℕ) → order xs xs ≡ pos 0
order_refl [] = refl
order_refl (x ∷ xs) = let q : (x == x) ≡ true = ground arith in rw q (order_refl xs)

-- `strcmp` of two strings, with fuel for the first and its NUL, ends, and returns 0 exactly when the
-- strings are equal.
pub strcmp_equal :
    (fuel : ℕ) (xs ys : List ℕ) (m : Bytes) (a b : ℕ)
    → Holds m a xs
    → Holds m b ys
    → length xs < fuel
    → (r : ℤ) × (strcmp fuel m a b ≡ some r) × ((r ≡ pos 0) ↔ (xs ≡ ys))
strcmp_equal fuel xs ys m a b h k lt = (
  order xs ys,
  strcmp-order fuel xs ys m a b h k lt,
  (
    order-equal xs ys (Holds-AllNonzero xs m a h) (Holds-AllNonzero ys m b k),
    λ e. subst (λ zs. order xs zs ≡ pos 0) e (order_refl xs),
  ),
)
