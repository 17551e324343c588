-- ===== src/Sched/Ring.antt =====
-- The circular list of threads of kernel/src/sched.c.
use choco_os.Base.{
  ℕ, suc, ◌≡◌, refl, ap, Bool, true, false, ◌||◌, ◌==◌, ==_refl, List, [], ◌∷◌, ◌++◌, arith,
  Bool-cases, inl, inr, length, length-append,
}
use choco_os.Sched.{Threads}

-- From `p` the `next` pointers lead through `xs` to `q`.
abbrev pub Leads : Threads → (p q : ℕ) → List ℕ → Type 0
Leads m p q [] = p ≡ q
Leads m p q (x ∷ xs) = (p ≡ x) × Leads m (m x).next q xs

abbrev pub has : ℕ → List ℕ → Bool
has a [] = false
has a (x ∷ xs) = (a == x) || has a xs

abbrev pub Distinct : List ℕ → Type 0
Distinct [] = Unit
Distinct (x ∷ xs) = (has x xs ≡ false) × Distinct xs

-- From `r` the ring leads through `xs`, each thread once, back to `r`.
pub record IsRing (m : Threads) (r : ℕ) (xs : List ℕ) : Type 0 where
  pub loop : Leads m r r xs
  pub start : has r xs ≡ true
  pub distinct : Distinct xs

pub Leads-append :
    (m : Threads) (p q r : ℕ) (xs ys : List ℕ)
    → Leads m p q xs
    → Leads m q r ys
    → Leads m p r (xs ++ ys)
Leads-append m p q r [] ys a b = rw a b
Leads-append m p q r (x ∷ xs) ys a b = (a.0, Leads-append m (m x).next q r xs ys a.1 b)

-- A change that leaves the pointers of the threads on the way.
pub Leads-frame :
    (m m' : Threads) (p q : ℕ) (xs : List ℕ)
    → ((a : ℕ) → has a xs ≡ true → (m' a).next ≡ (m a).next)
    → Leads m p q xs
    → Leads m' p q xs
Leads-frame m m' p q [] same a = a
Leads-frame m m' p q (x ∷ xs) same a = (
  a.0,
  rw (same x (ground arith))
      (Leads-frame m m' (m x).next q xs (λ b h. same b (ground (arith, h))) a.1),
)

pub has-append : (a : ℕ) (xs ys : List ℕ) → has a (xs ++ ys) ≡ (has a xs || has a ys)
has-append a [] ys = refl
has-append a (x ∷ xs) ys = ground (arith, has-append a xs ys)

pub Distinct-append :
    (xs ys : List ℕ)
    → Distinct (xs ++ ys)
    → Distinct xs × Distinct ys × ((a : ℕ) → has a xs ≡ true → has a ys ≡ false)
Distinct-append [] ys d = (tt, d, λ a h. ground arith)
Distinct-append (x ∷ xs) ys d =
    let ih = Distinct-append xs ys d.1 in
    let out = rw (has-append x xs ys) at (d.0) in
    ((ground arith, ih.0), ih.1, λ a h. ground (arith, ih.2 a))

pub Distinct-join :
    (xs ys : List ℕ)
    → Distinct xs
    → Distinct ys
    → ((a : ℕ) → has a xs ≡ true → has a ys ≡ false)
    → Distinct (xs ++ ys)
Distinct-join [] ys d e apart = e
Distinct-join (x ∷ xs) ys d e apart = (
  rw (has-append x xs ys) (ground (arith, apart x)),
  Distinct-join xs ys d.1 e (λ a h. apart a (ground (arith, h))),
)

-- The ring split at a member.
pub Leads-split :
    (m : Threads) (p q c : ℕ) (xs : List ℕ)
    → Leads m p q xs
    → has c xs ≡ true
    → (us : List ℕ) × (vs : List ℕ) × (xs ≡ us ++ (c ∷ vs))
      × Leads m p c us
      × Leads m (m c).next q vs
Leads-split m p q c [] l h = cc
Leads-split m p q c (x ∷ xs) l h = elim (Bool-cases (c == x)) [
  | inl e ↦ let cx : c ≡ x = ground arith in ([], xs, rw cx refl, rw cx (l.0), rw cx (l.1))
  | inr e ↦
      let (us, vs, eq, a, b) = Leads-split m (m x).next q c xs l.1 (ground arith) in
      (x ∷ us, vs, ap (λ t. x ∷ t) eq, (l.0, a), b)
]

-- The ring as it is walked from a member: first those behind it, then those before it.
pub IsRing-rotate :
    (m : Threads) (r c : ℕ) (xs : List ℕ)
    → IsRing m r xs
    → has c xs ≡ true
    → (ys : List ℕ) × Leads m (m c).next c ys
      × (has c ys ≡ false)
      × (length xs ≡ suc (length ys))
      × ((a : ℕ) → has a xs ≡ ((a == c) || has a ys))
      × Distinct ys
IsRing-rotate m r c xs i h =
    let (us, vs, eq, a, b) = Leads-split m r r c xs i.loop h in
    let d = Distinct-append us (c ∷ vs) (rw eq at (i.distinct)) in
    (
      vs ++ us,
      Leads-append m (m c).next r c vs us b a,
      ground (arith, has-append c vs us, d.2 c, ==_refl c),
      rw eq (omega (arith, length-append us (c ∷ vs), length-append vs us)),
      (λ e. rw eq (ground (arith, has-append e us (c ∷ vs), has-append e vs us))),
      Distinct-join vs us d.1.1 d.0 (λ e h. ground (arith, d.2 e)),
    )
