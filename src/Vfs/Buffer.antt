-- ===== src/Vfs/Buffer.antt =====
-- kernel/src/vfs.c: the writes into a file's bytes, and the growth of its capacity.
use choco_os.Base.{
  ◌⊎◌, ℕ, zero, suc, ◌+◌, ◌-◌, ◌*◌, ◌%◌, ◌^◌, ◌≤◌, ◌<◌, ◌≡◌, refl, ◌∙◌, true, false, ◌&&◌, ltb, leb,
  ◌==◌, if◌then◌else◌, some, List, [], ◌∷◌, length, get_or, set, take, arith, Bool-cases, inl, inr,
  ==_refl, get_or-set_self, get_or-set_ne, length-set, ltb→lt, ap,
}
use choco_os.Vfs.{put, put_zeros, grow}

set-at :
    (mem : List ℕ) (i v j : ℕ)
    → i < length mem
    → get_or (set mem i v) j 0 ≡ (if j == i then v else get_or mem j 0)
set-at mem i v j h = elim (Bool-cases (j == i)) [
  | inl e ↦ let q : j ≡ i = ground arith in rw (q, ==_refl i) (get_or-set_self mem i v 0 h)
  | inr e ↦ rw e (get_or-set_ne mem i j v 0 (ground arith))
]

pub length-put : (bs mem : List ℕ) (i : ℕ) → length (put mem i bs) ≡ length mem
unfolding put
length-put [] mem i = refl
length-put (b ∷ bs) mem i = length-put bs (set mem i b) (i + 1) ∙ length-set mem i b

pub put-at :
    (bs mem : List ℕ) (i j : ℕ)
    → i + length bs ≤ length mem
    → get_or (put mem i bs) j 0
      ≡ (if leb i j && ltb j (i + length bs) then get_or bs (j - i) 0 else get_or mem j 0)
unfolding put
put-at [] mem i j h = ground arith
put-at (b ∷ bs) mem i j h =
    let l = length-set mem i b in
    rw (put-at bs (set mem i b) (i + 1) j (omega arith), set-at mem i b j (omega arith))
      (elim (Bool-cases (leb (i + 1) j)) [
        | inl e ↦ let s : j - i ≡ suc (j - (i + 1)) = ground arith in rw s (ground arith)
        | inr e ↦ let s : j - i ≡ 0 = ground arith in rw s (ground arith)
      ])

pub length-put_zeros : (n : ℕ) (mem : List ℕ) (i : ℕ) → length (put_zeros mem i n) ≡ length mem
unfolding put_zeros
length-put_zeros zero mem i = refl
length-put_zeros (suc n) mem i = length-put_zeros n (set mem i 0) (i + 1) ∙ length-set mem i 0

pub put_zeros-at :
    (n : ℕ) (mem : List ℕ) (i j : ℕ)
    → i + n ≤ length mem
    → get_or (put_zeros mem i n) j 0 ≡ (if leb i j && ltb j (i + n) then 0 else get_or mem j 0)
unfolding put_zeros
put_zeros-at zero mem i j h = ground arith
put_zeros-at (suc n) mem i j h =
    let l = length-set mem i 0 in
    rw (put_zeros-at n (set mem i 0) (i + 1) j (omega arith), set-at mem i 0 j (omega arith))
      (ground arith)

pub get_or-take :
    (xs : List ℕ) (n j : ℕ) → get_or (take n xs) j 0 ≡ (if ltb j n then get_or xs j 0 else 0)
get_or-take xs zero j = ground arith
get_or-take [] (suc n) j = ground arith
get_or-take (x ∷ xs) (suc n) zero = ground arith
get_or-take (x ∷ xs) (suc n) (suc j) = rw (get_or-take xs n j) (ground arith)

-- `c` doubled `n` times.
abbrev pub doubled : (n : ℕ) → ℕ → ℕ
doubled zero c = c
doubled (suc n) c = doubled n (c * 2)

pub doubled-le : (n a b : ℕ) → a ≤ b → doubled n a ≤ doubled n b
doubled-le zero a b h = h
doubled-le (suc n) a b h = doubled-le n (a * 2) (b * 2) (omega arith)

grow-more :
    (fuel newcap end : ℕ)
    → ltb newcap end ≡ true
    → grow (suc fuel) newcap end ≡ grow fuel (newcap * 2 % 2 ^ 64) end
unfolding grow
grow-more fuel newcap end more = rw more refl

-- The doubling ends, with `fuel` doublings, at a capacity that is large enough, fits a word, and is less
-- than twice as large as it must be, unless it is the first.
pub grow-found :
    (fuel newcap end : ℕ)
    → 0 < newcap
    → newcap < 2 ^ 64
    → end ≤ 2 ^ 63
    → end ≤ doubled fuel newcap
    → (c : ℕ) × (grow (suc fuel) newcap end ≡ some c)
      × (end ≤ c)
      × ((c ≡ newcap) ⊎ (c < end * 2))
      × (c < 2 ^ 64)
unfolding grow
grow-found zero newcap end pos word top reach =
    let stop : ltb newcap end ≡ false = ground arith in
    (newcap, rw stop refl, omega arith, inl refl, word)
grow-found (suc fuel) newcap end pos word top reach = elim (Bool-cases (ltb newcap end)) [
  | inr stop ↦ (newcap, rw stop refl, ground arith, inl refl, word)
  | inl more ↦
      let lt : newcap < end = ltb→lt newcap end more in
      let next : newcap * 2 % 2 ^ 64 ≡ newcap * 2 = omega arith in
      let (c, g, le, p, w) =
        grow-found fuel (newcap * 2) end (omega arith) (omega arith) top reach in
      let tight : c < end * 2 = elim p [ inl same ↦ omega arith | inr below ↦ below ] in
      (
        c,
        grow-more (suc fuel) newcap end more ∙ ap (λ n. grow (suc fuel) n end) next ∙ g,
        le,
        inr tight,
        w,
      )
]
