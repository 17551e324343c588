-- ===== src/Memory/Compare.antt =====
-- kernel/src/gcc_utils.c: what the comparison tells.
use choco_os.Base.{
  ℕ, zero, suc, ◌+◌, ◌<◌, ◌≡◌, ltb, ◌==◌, if◌then◌else◌, ℤ, pos, negsuc, arith, Bool-cases, inl,
  inr, ◌≢◌,
}
use choco_os.Memory.{Bytes, compare_up, memcmp}

-- The result tells the first place where the bytes differ, if any, and which byte is less.
pub data Compared (m : Bytes) (s1 s2 n : ℕ) : ℤ → Type 0 where
  equal : ((j : ℕ) → j < n → m (s1 + j) ≡ m (s2 + j)) → Compared m s1 s2 n (pos 0)
  differ :
      (i : ℕ)
      → i < n
      → ((j : ℕ) → j < i → m (s1 + j) ≡ m (s2 + j))
      → m (s1 + i) ≢ m (s2 + i)
      → Compared m s1 s2 n (if ltb (m (s1 + i)) (m (s2 + i)) then negsuc 0 else pos 1)

compare_up-Compared :
    (n i s1 s2 : ℕ) (m : Bytes)
    → ((j : ℕ) → j < i → m (s1 + j) ≡ m (s2 + j))
    → Compared m s1 s2 (i + n) (compare_up n i s1 s2 m)
unfolding compare_up
compare_up-Compared zero i s1 s2 m same = equal (λ j lt. same j (omega arith))
compare_up-Compared (suc n) i s1 s2 m same = elim (Bool-cases (m (s1 + i) == m (s2 + i))) [
  | inl e ↦
      let next : i + 1 + n ≡ i + suc n = omega arith in
      rw e (
        rw next at (
          compare_up-Compared n (i + 1) s1 s2 m (λ j lt. elim (Bool-cases (j == i)) [
            | inl at ↦ let q : j ≡ i = ground arith in rw q (ground arith)
            | inr before ↦ same j (ground arith)
          ])))
  | inr ne ↦ rw ne (differ i (omega arith) same (λ q. ground arith))
]

-- `memcmp` returns 0 when the two ranges are equal, and else -1 or 1 as the first bytes that differ are
-- in order or not.
pub memcmp-Compared : (s1 s2 n : ℕ) (m : Bytes) → Compared m s1 s2 n (memcmp s1 s2 n m)
unfolding memcmp
memcmp-Compared s1 s2 n m =
    let all : 0 + n ≡ n = omega arith in
    rw all at (compare_up-Compared n 0 s1 s2 m (λ j lt. absurd (omega arith)))
