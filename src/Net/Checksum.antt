-- ===== src/Net/Checksum.antt =====
-- kernel/src/net.c: a packet with its checksum in place has the checksum 0.
use choco_os.Base.{
  ℕ, suc, ◌+◌, ◌-◌, ◌*◌, ◌/◌, ◌%◌, ◌^◌, ◌≤◌, ◌<◌, ◌≡◌, refl, ◌∙◌, true, false, ◌==◌, some, List, [],
  ◌∷◌, ◌++◌, length, arith, inl, inr, lt_or_le, ◌≢◌,
}
use choco_os.Net.{word_sum, fold_carry, checksum16, htons16}

abbrev pub AreBytes : List ℕ → Type 0
AreBytes [] = Unit
AreBytes (x ∷ xs) = (x < 256) × AreBytes xs

abbrev pub IsEven : List ℕ → Type 0
IsEven [] = Unit
IsEven (x ∷ []) = ⊥
IsEven (x ∷ y ∷ rest) = IsEven rest

-- The sum of the words without the limit of 32 bits.
abbrev total : List ℕ → ℕ
total [] = 0
total (a ∷ []) = a * 256
total (a ∷ b ∷ rest) = a * 256 + b + total rest

total-append : (pre post : List ℕ) → IsEven pre → total (pre ++ post) ≡ total pre + total post
total-append [] post e = omega arith
total-append (x ∷ []) post e = absurd e
total-append (x ∷ y ∷ rest) post e = omega (arith, total-append rest post e)

total-le : (xs : List ℕ) → AreBytes xs → total xs ≤ 65535 * length xs
total-le [] h = omega arith
total-le (a ∷ []) h = let x = h.0 in omega arith
total-le (a ∷ b ∷ rest) h = let x = h.0 in let y = h.1.0 in omega (arith, total-le rest h.1.1)

word_sum-total :
    (xs : List ℕ) (sum : ℕ) → sum + total xs < 2 ^ 32 → word_sum xs sum ≡ sum + total xs
unfolding word_sum
word_sum-total [] sum h = omega arith
word_sum-total (a ∷ []) sum h = omega arith
word_sum-total (a ∷ b ∷ rest) sum h =
    let e : (sum + (a * 256 + b)) % 2 ^ 32 ≡ sum + (a * 256 + b) = omega arith in
    rw e (word_sum-total rest (sum + (a * 256 + b)) (omega arith) ∙ omega arith)

fold_carry-done : (fuel sum : ℕ) → sum < 65536 → fold_carry (suc fuel) sum ≡ some sum
unfolding fold_carry
fold_carry-done fuel sum h = let e : ((sum / 65536) == 0) ≡ true = ground arith in rw e refl

fold_carry-step :
    (fuel sum : ℕ)
    → 65536 ≤ sum
    → fold_carry (suc fuel) sum ≡ fold_carry fuel (sum % 65536 + sum / 65536)
unfolding fold_carry
fold_carry-step fuel sum h = let e : ((sum / 65536) == 0) ≡ false = ground arith in rw e refl

-- Folding keeps the sum modulo 65535, and is 0 only for 0.
pub record Folded (sum r : ℕ) : Type 0 where
  small : r < 65536
  times : ℕ
  same : sum ≡ r + 65535 * times
  zero_only : r ≡ 0 → sum ≡ 0

Folded-step : (sum r : ℕ) → Folded (sum % 65536 + sum / 65536) r → Folded sum r
Folded-step sum r f =
    let small = f.small in
    let same = f.same in
    record {
      small = small;
      times = f.times + sum / 65536;
      same = omega arith;
      zero_only = λ e. let z = f.zero_only e in omega arith;
    }

Folded-refl : (sum : ℕ) → sum < 65536 → Folded sum sum
Folded-refl sum h = record { small = h; times = 0; same = omega arith; zero_only = λ e. e }

abbrev pub Folds : ℕ → ℕ → Type 0
Folds fuel sum = (r : ℕ) × (fold_carry fuel sum ≡ some r) × Folded sum r

Folds-once :
    (fuel sum : ℕ) → (65536 ≤ sum → Folds fuel (sum % 65536 + sum / 65536)) → Folds (suc fuel) sum
Folds-once fuel sum next = elim (lt_or_le sum 65536) [
  | inl small ↦ (sum, fold_carry-done fuel sum small, Folded-refl sum small)
  | inr large ↦
      let (r, e, f) = next large in (r, fold_carry-step fuel sum large ∙ e, Folded-step sum r f)
]

pub folds : (sum : ℕ) → sum < 2 ^ 32 → Folds 4 sum
folds sum h = Folds-once 3 sum (λ large.
    let s1 = sum % 65536 + sum / 65536 in
    let b1 : s1 ≤ 131070 = omega arith in
    Folds-once 2 s1 (λ large1.
      let s2 = s1 % 65536 + s1 / 65536 in
      let b2 : s2 < 65536 = omega arith in Folds-once 1 s2 (λ large2. absurd (omega arith))))

complement : (sum r r' : ℕ) → Folded sum r → Folded (sum + (65535 - r)) r' → r' ≡ 65535
complement sum r r' f f' =
    let small = f.small in
    let same = f.same in
    let small' = f'.small in
    let same' = f'.same in
    let nonzero : r' ≢ 0 =
      λ z. let none_left = f'.zero_only z in let zero = f.zero_only in omega (arith) in
    omega (arith, nonzero)

checksum16-sum :
    (p : List ℕ) (sum r : ℕ)
    → total p ≡ sum
    → sum < 2 ^ 32
    → fold_carry 4 sum ≡ some r
    → checksum16 p 0 ≡ some (htons16 (65535 - r))
unfolding checksum16
checksum16-sum p sum r t h e =
    let w : word_sum p 0 ≡ sum = word_sum-total p 0 (omega arith) ∙ omega arith in
    rw (w, e, checksum16) refl

-- The checksum of a packet that has two zero bytes at an even place, put there in the byte order in
-- which the processor stores it, gives the packet the checksum 0: for a packet of less than 2^16 bytes.
pub checksum16_verifies :
    (pre post : List ℕ)
    → AreBytes (pre ++ 0 ∷ 0 ∷ post)
    → IsEven pre
    → length (pre ++ 0 ∷ 0 ∷ post) < 65536
    → (c : ℕ) × (checksum16 (pre ++ 0 ∷ 0 ∷ post) 0 ≡ some c)
      × (c < 65536)
      × (checksum16 (pre ++ (c % 256) ∷ (c / 256) ∷ post) 0 ≡ some 0)
checksum16_verifies pre post bytes even short =
    let bound = total-le (pre ++ 0 ∷ 0 ∷ post) bytes in
    let split = total-append pre (0 ∷ 0 ∷ post) even in
    let sum = total (pre ++ 0 ∷ 0 ∷ post) in
    let (r, e, f) = folds sum (omega (arith, bound)) in
    let c = htons16 (65535 - r) in
    let small = f.small in
    let split' = total-append pre ((c % 256) ∷ (c / 256) ∷ post) even in
    let all : total (pre ++ (c % 256) ∷ (c / 256) ∷ post) ≡ sum + (65535 - r) =
      omega (arith, split, split') in
    let (r', e', f') = folds (sum + (65535 - r)) (omega (arith, bound)) in
    let full : r' ≡ 65535 = complement sum r r' f f' in
    (
      c,
      checksum16-sum (pre ++ 0 ∷ 0 ∷ post) sum r refl (omega (arith, bound)) e,
      omega arith,
      checksum16-sum (pre ++ (c % 256) ∷ (c / 256) ∷ post) (sum + (65535 - r)) r' all
            (omega (arith, bound)) e'
          ∙ rw full refl,
    )
