-- ===== src/Initrd/Offsets.antt =====
-- kernel/src/initrd.c: the loop over the headers of the archive has enough rounds.
use choco_os.Base.{
  ℕ, zero, suc, ◌+◌, ◌-◌, ◌*◌, ◌/◌, ◌%◌, ◌^◌, ◌≤◌, ◌<◌, ◌≡◌, ◌≢◌, ◌⊎◌, refl, true, ◌==◌, leb,
  Option, List, arith, Bool-cases, Option-cases, inl, inr, add_word,
}
use choco_os.Vfs.{Nodes}
use choco_os.Initrd.{
  is_octal, octal_loop, octal_to_int, load_entry, next_header, loaded, stuck, out_of_rounds,
  load_loop, load_tar,
}

eights : ℕ → ℕ
eights zero = 1
eights (suc n) = eights n * 8

eights-pos : (n : ℕ) → 0 < eights n
unfolding eights
eights-pos zero = omega arith
eights-pos (suc n) = omega (arith, eights-pos n)

eights_twelve : eights 12 ≡ 2 ^ 36
unfolding eights
eights_twelve = refl

times_mono : (a b p : ℕ) → a ≤ b → a * p ≤ b * p
times_mono a b p h = grind arith

larger : (p v w r : ℕ) → w < v * 8 + 8 → r < (w + 1) * p → r < (v + 1) * (p * 8)
larger p v w r h k =
    let le : (w + 1) * p ≤ (v * 8 + 8) * p = times_mono (w + 1) (v * 8 + 8) p (omega arith) in
    omega (arith, le, k)

stays : (p v : ℕ) → 0 < p → v < (v + 1) * (p * 8)
stays p v h = grind arith

octal_loop-lt : (len : ℕ) (s : ℕ → ℕ) (i v : ℕ) → octal_loop len s i v < (v + 1) * eights len
unfolding octal_loop eights
octal_loop-lt zero s i v = omega arith
octal_loop-lt (suc len) s i v = elim (Bool-cases (is_octal (s i))) [
  | inl e ↦
      let d = s i - 48 in
      let small : d < 8 = ground arith in
      let w = (v * 8 + d) % 2 ^ 64 in
      let le : w ≤ v * 8 + d = omega arith in
      rw e (
        larger (eights len) v w (octal_loop len s (i + 1) w) (omega arith)
          (octal_loop-lt len s (i + 1) w))
  | inr e ↦ rw e (stays (eights len) v (eights-pos len))
]

-- The offset of the next header, when the sum of two words does not wrap.
next_header-gt :
    (base : ℕ → ℕ) (off : ℕ)
    → off < 2 ^ 63
    → (off + 512 ≤ next_header base off) × (next_header base off < 2 ^ 63 + 2 ^ 40)
unfolding next_header octal_to_int
next_header-gt base off h =
    let lt = octal_loop-lt 12 base (off + 124) 0 in
    (omega (arith, lt, eights_twelve), omega (arith, lt, eights_twelve))

loaded≢out : (s : Nodes × List ℕ) → loaded s ≢ out_of_rounds
loaded≢out s e = cc

stuck≢out : stuck ≢ out_of_rounds
stuck≢out e = cc

-- One round: the loop ends, or goes on with the next header.
load_round :
    (malloc : ℕ → Option (List ℕ)) (rounds fuel root : ℕ) (base : ℕ → ℕ) (size off : ℕ)
    (s : Nodes × List ℕ)
    → (load_loop malloc (suc rounds) fuel root base size off s ≢ out_of_rounds)
      ⊎ ((s' : Nodes × List ℕ) × (leb (add_word 64 off 512) size ≡ true)
          × (load_loop malloc (suc rounds) fuel root base size off s
              ≡ load_loop malloc rounds fuel root base size (next_header base off) s'))
unfolding load_loop
load_round malloc rounds fuel root base size off s =
    elim (Bool-cases (leb (add_word 64 off 512) size)) [
      | inr e ↦ inl (rw e (loaded≢out s))
      | inl e ↦ elim (Bool-cases (base off == 0)) [
        | inl b ↦ inl (rw (e, b) (loaded≢out s))
        | inr b ↦ elim (Option-cases (load_entry malloc fuel root base off s)) [
          | inl l ↦ inl (rw (e, b) (rw l stuck≢out))
          | inr (s', l) ↦ inr (s', e, rw (e, b) (rw l refl))
        ]
      ]
    ]

load_loop-ends :
    (malloc : ℕ → Option (List ℕ)) (rounds fuel root : ℕ) (base : ℕ → ℕ) (size off : ℕ)
    (s : Nodes × List ℕ)
    → size < 2 ^ 63
    → off < 2 ^ 63 + 2 ^ 40
    → size < off + 512 * suc rounds
    → load_loop malloc (suc rounds) fuel root base size off s ≢ out_of_rounds
load_loop-ends malloc zero fuel root base size off s hs ho room =
    elim (load_round malloc 0 fuel root base size off s) [
      | inl ends ↦ ends
      | inr (s', t, e) ↦ absurd (ground arith)
    ]
load_loop-ends malloc (suc rounds) fuel root base size off s hs ho room =
    elim (load_round malloc (suc rounds) fuel root base size off s) [
      | inl ends ↦ ends
      | inr (s', t, e) ↦
          let inside : off + 512 ≤ size = ground arith in
          let next = next_header-gt base off (omega arith) in
          rw e (
            load_loop-ends malloc rounds fuel root base size (next_header base off) s' hs next.1
              (omega (arith, next.0)))
    ]

-- The rounds of `load_tar`, one for each 512 bytes and one more, are not used up on an archive of less than
-- 2^63 bytes: the offset of the header grows and does not wrap.
load_tar-ends :
    (malloc : ℕ → Option (List ℕ)) (fuel root : ℕ) (base : ℕ → ℕ) (size : ℕ) (s : Nodes × List ℕ)
    → size < 2 ^ 63
    → load_tar malloc fuel root base size s ≢ out_of_rounds
unfolding load_tar
load_tar-ends malloc fuel root base size s h =
    let e : size / 512 + 1 ≡ suc (size / 512) = omega arith in
    rw e (load_loop-ends malloc (size / 512) fuel root base size 0 s h (omega arith) (omega arith))
