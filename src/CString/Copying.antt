-- ===== src/CString/Copying.antt =====
-- kernel/src/string.c: `strlcpy` leaves a string that fits.
use choco_os.Base.{
  ℕ, zero, suc, ◌+◌, ◌-◌, ◌<◌, ◌≤◌, ◌≡◌, ◌⊎◌, refl, some, List, [], ◌∷◌, length, take, arith, ◌∙◌,
  ◌==◌, ltb, leb, ◌&&◌, true, false, if◌then◌else◌,
}
use choco_os.Memory.{Bytes, memcpy}
use choco_os.Memory.Copy.{memcpy-copied, copied, write_at}
use choco_os.CString.{Holds, bounded_copy, strlcpy}
use choco_os.CString.Length.{strlen-Holds}

-- A copy of the first `k` bytes of a string, with a NUL behind it, is a string.
Holds-take :
    (cs : List ℕ) (k : ℕ) (m m' : Bytes) (src dst : ℕ)
    → Holds m src cs
    → k ≤ length cs
    → ((i : ℕ) → i < k → m' (dst + i) ≡ m (src + i))
    → m' (dst + k) ≡ 0
    → Holds m' dst (take k cs)
Holds-take cs zero m m' src dst h le same nul = let z : dst + 0 ≡ dst = omega arith in rw z at nul
Holds-take [] (suc k) m m' src dst h le same nul = absurd (omega arith)
Holds-take (c ∷ cs) (suc k) m m' src dst h le same nul =
    let d0 : dst + 0 ≡ dst = omega arith in
    let s0 : src + 0 ≡ src = omega arith in
    let first : m' dst ≡ m src = rw (d0, s0) at (same 0 (omega arith)) in
    let dk : dst + suc k ≡ dst + 1 + k = omega arith in
    (
      first ∙ h.0,
      h.1,
      Holds-take cs k m m' (src + 1) (dst + 1) h.2 (omega arith)
          (λ i lt.
            let di : dst + suc i ≡ dst + 1 + i = omega arith in
            let si : src + suc i ≡ src + 1 + i = omega arith in
            rw (di, si) at (same (suc i) (omega arith)))
          (rw dk at nul),
    )

-- How many bytes fit before the NUL.
abbrev pub fitting : (size len : ℕ) → ℕ
fitting size len = if ltb len (size - 1) then len else size - 1

bounded_copy-at :
    (dst src size len : ℕ) (m : Bytes) (j : ℕ)
    → 0 < size
    → (dst ≤ src) ⊎ (src + len ≤ dst)
    → bounded_copy dst src size len m j
      ≡ (if j == dst + fitting size len then 0 else copied dst src (fitting size len) m j)
unfolding bounded_copy
bounded_copy-at dst src size len m j pos apart =
    let ne : (size == 0) ≡ false = ground arith in
    let apart' : (dst ≤ src) ⊎ (src + fitting size len ≤ dst) = ground (arith, apart) in
    rw
      (
        ne,
        write_at (memcpy dst src (fitting size len) m) (dst + fitting size len) 0 j,
        memcpy-copied dst src (fitting size len) m j apart',
      )
      refl

-- `strlcpy` of a string into a buffer of at least one byte, which does not start inside the string
-- behind its first byte, ends with fuel for the string and its NUL: it returns the string's length,
-- the buffer holds the string's first `size - 1` bytes as a string, and nothing outside the buffer
-- has changed.
pub strlcpy-Holds :
    (fuel dst src size : ℕ) (cs : List ℕ) (m : Bytes)
    → Holds m src cs
    → length cs < fuel
    → 0 < size
    → (dst ≤ src) ⊎ (src + length cs ≤ dst)
    → (m' : Bytes) × (strlcpy fuel dst src size m ≡ some (length cs, m'))
      × Holds m' dst (take (fitting size (length cs)) cs)
      × ((j : ℕ) → (j < dst) ⊎ (dst + size ≤ j) → m' j ≡ m j)
unfolding strlcpy
strlcpy-Holds fuel dst src size cs m h lt pos apart =
    let k = fitting size (length cs) in
    let m' = bounded_copy dst src size (length cs) m in
    let le : k ≤ length cs = ground arith in
    let at = λ (j : ℕ). bounded_copy-at dst src size (length cs) m j pos apart in
    (
      m',
      rw (strlen-Holds fuel cs m src h lt, strlcpy) refl,
      Holds-take cs k m m' src dst h le
          (λ i small.
            let out : ((dst + i) == (dst + k)) ≡ false = ground arith in
            let in_copy : (leb dst (dst + i) && ltb (dst + i) (dst + k)) ≡ true = ground arith in
            let back : dst + i - dst ≡ i = omega arith in
            at (dst + i) ∙ rw (out, in_copy, back) refl)
          (let e : ((dst + k) == (dst + k)) ≡ true = ground arith in at (dst + k) ∙ rw e refl),
      λ j far.
          let out : (j == (dst + k)) ≡ false = ground (arith, far) in
          let apart_j : (leb dst j && ltb j (dst + k)) ≡ false = ground (arith, far) in
          at j ∙ rw (out, apart_j) refl,
    )
