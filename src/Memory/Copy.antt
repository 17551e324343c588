-- ===== src/Memory/Copy.antt =====
-- kernel/src/gcc_utils.c: what the copies and the fill leave in memory.
use choco_os.Base.{
  ℕ, zero, suc, ◌+◌, ◌-◌, ◌%◌, ◌≤◌, ◌<◌, ◌≡◌, refl, true, false, ◌&&◌, ltb, leb, ◌==◌, ◌⊎◌, inl,
  inr, if◌then◌else◌, arith, Bool-cases,
}
use choco_os.Memory.{Bytes, write, copy_up, copy_down, memcpy, memmove, fill_up, memset}

-- Memory with the `n` bytes from `dest` taken from `src`, all at once.
abbrev pub copied : (dest src n : ℕ) → Bytes → ℕ → ℕ
copied dest src n m j = if leb dest j && ltb j (dest + n) then m (src + (j - dest)) else m j

pub write_at : (m : Bytes) (a v j : ℕ) → write m a v j ≡ (if j == a then v else m j)
unfolding write
write_at m a v j = refl

-- Counting up is right when no byte is read after it is written.
copy_up-at :
    (n i dest src : ℕ) (m : Bytes) (j : ℕ)
    → (dest ≤ src) ⊎ (src + (i + n) ≤ dest)
    → copy_up n i dest src m j
      ≡ (if leb (dest + i) j && ltb j (dest + (i + n)) then m (src + (j - dest)) else m j)
unfolding copy_up
copy_up-at zero i dest src m j apart = ground arith
copy_up-at (suc n) i dest src m j apart =
    let ih =
      copy_up-at n (i + 1) dest src (write m (dest + i) (m (src + i))) j (ground (arith, apart)) in
    rw
      (
        ih,
        write_at m (dest + i) (m (src + i)) j,
        write_at m (dest + i) (m (src + i)) (src + (j - dest)),
      )
      (elim (Bool-cases (j == dest + i)) [
        | inl e ↦
            let q : j - dest ≡ i = ground arith in
            let out : (leb (dest + (i + 1)) j) ≡ false = ground arith in
            let inside : (leb (dest + i) j && ltb j (dest + (i + suc n))) ≡ true = ground arith in
            rw (e, q, out, inside) refl
        | inr ne ↦ rw ne (ground (arith, apart))
      ])

copy_down-at :
    (n dest src : ℕ) (m : Bytes) (j : ℕ)
    → src < dest
    → copy_down n dest src m j ≡ copied dest src n m j
unfolding copy_down
copy_down-at zero dest src m j lt = ground arith
copy_down-at (suc n) dest src m j lt =
    let ih = copy_down-at n dest src (write m (dest + n) (m (src + n))) j lt in
    rw
      (
        ih,
        write_at m (dest + n) (m (src + n)) j,
        write_at m (dest + n) (m (src + n)) (src + (j - dest)),
      )
      (elim (Bool-cases (j == dest + n)) [
        | inl e ↦
            let q : j - dest ≡ n = ground arith in
            let out : (ltb j (dest + n)) ≡ false = ground arith in
            let inside : (leb dest j && ltb j (dest + suc n)) ≡ true = ground arith in
            let low : leb dest j ≡ true = ground arith in rw (e, q, out, inside, low) refl
        | inr ne ↦ rw ne (ground arith)
      ])

-- `memcpy` of a source that does not start below the destination's end and above its start: every byte
-- of the destination is the byte of the source before the call, and no other byte changes.
pub memcpy-copied :
    (dest src n : ℕ) (m : Bytes) (j : ℕ)
    → (dest ≤ src) ⊎ (src + n ≤ dest)
    → memcpy dest src n m j ≡ copied dest src n m j
unfolding memcpy
memcpy-copied dest src n m j apart =
    rw (copy_up-at n 0 dest src m j (ground (arith, apart))) (ground arith)

-- `memmove`, whether and however the two ranges overlap: every byte of the destination is the byte of
-- the source before the call, and no other byte changes.
pub memmove-copied :
    (dest src n : ℕ) (m : Bytes) (j : ℕ) → memmove dest src n m j ≡ copied dest src n m j
unfolding memmove
memmove-copied dest src n m j = elim (Bool-cases (ltb dest src)) [
  | inl up ↦ rw (up, copy_up-at n 0 dest src m j (inl (ground arith))) (ground arith)
  | inr e ↦ elim (Bool-cases (ltb src dest)) [
    | inl down ↦ rw (e, down) (copy_down-at n dest src m j (ground arith))
    | inr f ↦
        let same : src ≡ dest = ground arith in
        rw (e, f)
          (elim (Bool-cases (leb dest j && ltb j (dest + n))) [
            | inl i ↦ let back : src + (j - dest) ≡ j = ground arith in rw (i, back) refl
            | inr o ↦ rw o refl
          ])
  ]
]

fill_up-at :
    (n i s c : ℕ) (m : Bytes) (j : ℕ)
    → fill_up n i s c m j ≡ (if leb (s + i) j && ltb j (s + (i + n)) then c % 256 else m j)
unfolding fill_up
fill_up-at zero i s c m j = ground arith
fill_up-at (suc n) i s c m j =
    rw (fill_up-at n (i + 1) s c (write m (s + i) (c % 256)) j, write_at m (s + i) (c % 256) j)
      (ground arith)

-- `memset` gives every byte of the range the low byte of `c`, and changes no other byte.
pub memset-filled :
    (s c n : ℕ) (m : Bytes) (j : ℕ)
    → memset s c n m j ≡ (if leb s j && ltb j (s + n) then c % 256 else m j)
unfolding memset
memset-filled s c n m j = rw (fill_up-at n 0 s c m j) (ground arith)
