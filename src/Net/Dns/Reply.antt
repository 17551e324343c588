-- ===== src/Net/Dns/Reply.antt =====
-- kernel/src/net.c: the answers of a DNS reply, as the protocol spells them, and what the resolver
-- finds in them.
use choco_os.Base.{
  ℕ, zero, suc, ◌+◌, ◌/◌, ◌%◌, ◌≤◌, ◌<◌, ◌≡◌, refl, ap, subst, Bool, true, false, not, ◌&&◌, ltb,
  ◌==◌, if◌then◌else◌, Option, none, some, List, [], ◌∷◌, ◌++◌, length, take, drop, byte_at,
  bit_and, length-append, arith, holds_below, holds_below_at,
}
use mathlib.Core.List.{append_assoc}
use choco_os.Net.Dns.{skip_labels, skip_name}

-- The bytes `xs` stand in `r` from the index `i` on.
abbrev pub At : List ℕ → ℕ → List ℕ → Type 0
At r i [] = Unit {0}
At r i (x ∷ xs) = (byte_at r i ≡ x) × At r (i + 1) xs

pub At-append :
    (r : List ℕ) (xs ys : List ℕ) (i : ℕ) → At r i (xs ++ ys) → At r i xs × At r (i + length xs) ys
At-append r [] ys i h = let z : i + 0 ≡ i = omega arith in (tt, rw z h)
At-append r (x ∷ xs) ys i h =
    let (a, b) = At-append r xs ys (i + 1) h.1 in
    let z : i + suc (length xs) ≡ i + 1 + length xs = omega arith in ((h.0, a), rw z b)

At-suc : (x : ℕ) (r xs : List ℕ) (i : ℕ) → At (x ∷ r) (suc i) xs → At r i xs
At-suc x r [] i h = tt
At-suc x r (y ∷ ys) i h =
    let z : suc i + 1 ≡ suc (i + 1) = omega arith in
    (h.0, At-suc x r ys (i + 1) (subst (λ k. At (x ∷ r) k ys) z h.1))

pub slice-At :
    (i : ℕ) (r xs : List ℕ)
    → At r i xs
    → i + length xs ≤ length r
    → take (length xs) (drop i r) ≡ xs
slice-At zero r [] h room = refl
slice-At zero [] (y ∷ ys) h room = absurd (omega arith)
slice-At zero (x ∷ r) (y ∷ ys) h room =
    rw (h.0) (ap (◌∷◌ y) (slice-At zero r ys (At-suc x r ys zero h.1) (omega arith)))
slice-At (suc i) [] xs h room = absurd (omega arith)
slice-At (suc i) (x ∷ r) xs h room = slice-At i r xs (At-suc x r xs i h) (omega arith)

-- A name as its labels, without the zero at the end.
abbrev pub labels_text : List (List ℕ) → List ℕ
labels_text [] = []
labels_text (l ∷ ls) = length l ∷ (l ++ labels_text ls)

abbrev pub AreLabels : List (List ℕ) → Type 0
AreLabels [] = Unit {0}
AreLabels (l ∷ ls) = (0 < length l) × (length l < 64) × AreLabels ls

-- The owner of an answer that the code reads: a pointer into the reply, or labels up to a zero byte. The
-- labels that end in a pointer, which the protocol has too, are no owner here.
pub data Owner : Type 0 where
  pointer : (high low : ℕ) → Owner
  spelled : List (List ℕ) → Owner

abbrev pub owner_text : Owner → List ℕ
owner_text (pointer high low) = high ∷ low ∷ []
owner_text (spelled ls) = labels_text ls ++ 0 ∷ []

abbrev pub IsOwner : Owner → Type 0
IsOwner (pointer high low) = bit_and high 0xc0 ≡ 0xc0
IsOwner (spelled ls) = AreLabels ls

pub record Answer : Type 0 where
  pub owner : Owner
  pub kind : ℕ
  pub class_ttl : List ℕ
  pub rdata : List ℕ

pub record IsAnswer (a : Answer) : Type 0 where
  pub owner : IsOwner a.owner
  pub kind : a.kind < 65536
  pub class_ttl : length a.class_ttl ≡ 6
  pub rdata : length a.rdata < 65536

abbrev pub word : ℕ → List ℕ
word v = v / 256 ∷ v % 256 ∷ []

abbrev pub answer_text : Answer → List ℕ
answer_text a =
    owner_text a.owner ++ (word a.kind ++ (a.class_ttl ++ (word (length a.rdata) ++ a.rdata)))

abbrev pub answers_text : List Answer → List ℕ
answers_text [] = []
answers_text (a ∷ more) = answer_text a ++ answers_text more

abbrev pub AreAnswers : List Answer → Type 0
AreAnswers [] = Unit {0}
AreAnswers (a ∷ more) = IsAnswer a × AreAnswers more

-- The data of the first answer that is an address of four bytes.
abbrev pub first_address : List Answer → Option (List ℕ)
first_address [] = none
first_address (a ∷ more) =
    let rest = first_address more in
    if a.kind == 1 && length a.rdata == 4 then some a.rdata else rest

module _ (r : List ℕ) (rlen : ℕ) where
  pub skip_labels-text :
      (ls : List (List ℕ)) (rounds i : ℕ)
      → AreLabels ls
      → At r i (labels_text ls ++ 0 ∷ [])
      → length ls < rounds
      → i + length (labels_text ls) < rlen
      → skip_labels rounds r rlen i ≡ some (i + length (labels_text ls))
  unfolding skip_labels
  skip_labels-text ls zero i w h f room = absurd (omega arith)
  skip_labels-text [] (suc rounds) i w h f room =
      let z : i + 0 ≡ i = omega arith in rw (h.0, z) (ground arith)
  skip_labels-text (l ∷ ls) (suc rounds) i w h f room =
      let n = length l in
      let size = length-append l (labels_text ls) in
      let inside : ltb i rlen ≡ true = ground arith in
      let filled : (n == 0) ≡ false = ground arith in
      let rest : At r (i + 1) (l ++ (labels_text ls ++ 0 ∷ [])) =
        subst (At r (i + 1)) (append_assoc l (labels_text ls) (0 ∷ [])) h.1 in
      let next = (At-append r l (labels_text ls ++ 0 ∷ []) (i + 1) rest).1 in
      let z : i + n + 1 ≡ i + 1 + n = omega arith in
      let total : i + length (labels_text (l ∷ ls)) ≡ i + 1 + n + length (labels_text ls) =
        omega (arith, size) in
      rw (h.0, inside, filled, z, total)
        (skip_labels-text ls rounds (i + 1 + n) w.2 next (omega arith) (omega (arith, size)))

small_table : holds_below 64 (λ y. not (bit_and y 0xc0 == 0xc0)) ≡ true
unfolding holds_below
small_table = refl

pub not-true : (b : Bool) → not b ≡ true → b ≡ false
not-true true h = cc
not-true false h = refl

pub small_first : (x : ℕ) → x < 64 → (bit_and x 0xc0 == 0xc0) ≡ false
small_first x h =
    not-true (bit_and x 0xc0 == 0xc0)
      (holds_below_at 64 (λ y. not (bit_and y 0xc0 == 0xc0)) x small_table h)

pub length-labels : (ls : List (List ℕ)) → length ls ≤ length (labels_text ls)
length-labels [] = omega arith
length-labels (l ∷ ls) = omega (arith, length-labels ls, length-append l (labels_text ls))

pub skip_name-text :
    (r : List ℕ) (rlen : ℕ) (o : Owner) (i : ℕ)
    → IsOwner o
    → At r i (owner_text o)
    → i + length (owner_text o) ≤ rlen
    → skip_name r rlen i ≡ some (i + length (owner_text o))
unfolding skip_name
skip_name-text r rlen (pointer high low) i w h room =
    let e : (bit_and high 0xc0 == 0xc0) ≡ true = ground arith in rw (h.0, e) refl
skip_name-text r rlen (spelled []) i w h room =
    let found = skip_labels-text r rlen [] (rlen + 1) i w h (omega arith) (omega arith) in
    rw (h.0, found) (ground arith)
skip_name-text r rlen (spelled (l ∷ ls)) i w h room =
    let all = l ∷ ls in
    let size = length-append (labels_text all) (0 ∷ []) in
    let found =
      skip_labels-text r rlen all (rlen + 1) i w h (omega (arith, size, length-labels all))
        (omega (arith, size)) in
    rw (h.0, small_first (length l) w.1, found) (ap some (omega (arith, size)))
