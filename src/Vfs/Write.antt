-- ===== src/Vfs/Write.antt =====
-- kernel/src/vfs.c: what a write and a truncation leave in a file.
use choco_os.Base.{
  ◌*◌, ℕ, ◌+◌, ◌-◌, ◌^◌, ◌≤◌, ◌<◌, ◌≡◌, ◌≢◌, not, ◌⊎◌, refl, ◌∙◌, true, ◌&&◌, ltb, leb, ◌==◌,
  if◌then◌else◌, Option, none, some, List, length, get_or, take, arith, Bool-cases, inl, inr,
  add_word, ℤ, negsuc, as_int, Option-cases, length-take, ltb→lt,
}
use choco_os.Vfs.{VfsNode, null, put_zeros, enlarged, reserve, filled, is_writable, vfs_write}
use choco_os.Vfs.Buffer.{
  put-at, length-put, put_zeros-at, length-put_zeros, get_or-take, grow-found, doubled-le,
}

-- A file's buffer holds its bytes.
pub record IsFile (f : VfsNode) : Type 0 where
  pub fits : f.size ≤ f.cap
  pub room : length f.bytes ≡ f.cap
  pub word : f.cap < 2 ^ 64

-- `malloc` gives blocks of the size that was asked for.
abbrev pub Gives : (ℕ → Option (List ℕ)) → Type 0
Gives malloc = (n : ℕ) (b : List ℕ) → malloc n ≡ some b → length b ≡ n

-- The byte at `j` of a file: 0 past its end.
abbrev pub byte_of : VfsNode → ℕ → ℕ
byte_of f j = if ltb j f.size then get_or f.bytes j 0 else 0

-- `malloc` refuses the capacity that a file asks for: it has room for `end` bytes, and is 64 or less than
-- twice `end`.
abbrev pub Refused : (ℕ → Option (List ℕ)) → (end : ℕ) → Type 0
Refused malloc end = (c : ℕ) × (end ≤ c) × ((c ≡ 64) ⊎ (c < end * 2)) × (malloc c ≡ none)

-- What a write leaves: nothing has changed, when there is no memory, or the bytes stand in the file.
pub data Wrote (malloc : ℕ → Option (List ℕ)) (f : VfsNode) (buf : List ℕ) (off : ℕ)
    : ℤ × VfsNode → Type 0 where
  no_memory :
      f.cap < off + length buf
      → Refused malloc (off + length buf)
      → Wrote malloc f buf off (negsuc 0, f)
  wrote :
      (g : VfsNode)
      → IsFile g
      → g.size ≡ (if ltb f.size (off + length buf) then off + length buf else f.size)
      → ((j : ℕ)
          → byte_of g j ≡ (
              if leb off j && ltb j (off + length buf)
              then get_or buf (j - off) 0
              else byte_of f j))
      → Wrote malloc f buf off (as_int (length buf), g)

-- The same bytes in a buffer that is large enough.
record Reserved (f g : VfsNode) (end : ℕ) : Type 0 where
  file : IsFile g
  enough : end ≤ g.cap
  same_size : g.size ≡ f.size
  same_bytes : (j : ℕ) → j < f.size → get_or g.bytes j 0 ≡ get_or f.bytes j 0

enlarged-Reserved :
    (f : VfsNode) (c end : ℕ) (nd : List ℕ)
    → IsFile f
    → f.cap < end
    → end ≤ c
    → c < 2 ^ 64
    → length nd ≡ c
    → Reserved f (enlarged f c nd) end
unfolding enlarged
enlarged-Reserved f c end nd i lt le word len =
    let fits = i.fits in
    let room = i.room in
    let taken : length (take f.size f.bytes) ≡ f.size = omega (arith, length-take f.size f.bytes) in
    record {
      file = record {
        fits = omega arith;
        room = length-put (take f.size f.bytes) nd 0 ∙ len;
        word = word;
      };
      enough = le;
      same_size = refl;
      same_bytes = λ j small.
          let inside : ltb j (0 + length (take f.size f.bytes)) ≡ true = ground arith in
          let low : leb 0 j ≡ true = ground arith in
          let sm : ltb j f.size ≡ true = ground arith in
          let z : j - 0 ≡ j = omega arith in
          put-at (take f.size f.bytes) nd 0 j (omega arith)
          ∙ rw (low, inside, z) (get_or-take f.bytes f.size j ∙ rw sm refl);
    }

module _ (f : VfsNode) (i : IsFile f) (buf : List ℕ) (off : ℕ)
    (small : off + length buf ≤ 2 ^ 63) where
  abbrev end : ℕ
  end = off + length buf

  abbrev gap : VfsNode → List ℕ
  gap g = if ltb g.size off then put_zeros g.bytes g.size (off - g.size) else g.bytes

  length-gap : (g : VfsNode) → length (gap g) ≡ length g.bytes
  length-gap g = ground (arith, length-put_zeros (off - g.size) g.bytes g.size)

  gap-at :
      (g : VfsNode) (j : ℕ)
      → off ≤ length g.bytes
      → get_or (gap g) j 0 ≡ (if leb g.size j && ltb j off then 0 else get_or g.bytes j 0)
  gap-at g j h = elim (Bool-cases (ltb g.size off)) [
    | inl e ↦
        let z : g.size + (off - g.size) ≡ off = ground arith in
        rw e (put_zeros-at (off - g.size) g.bytes g.size j (ground arith) ∙ rw z refl)
    | inr e ↦ rw e (ground arith)
  ]

  filled-byte :
      (g : VfsNode) (j : ℕ)
      → Reserved f g end
      → byte_of (filled g buf off end) j
        ≡ (if leb off j && ltb j end then get_or buf (j - off) 0 else byte_of f j)
  unfolding filled
  filled-byte g j r =
      let enough = r.enough in
      let room = r.file.room in
      let same = r.same_size in
      let lg = length-gap g in
      let old : ltb j f.size ≡ true → get_or g.bytes j 0 ≡ get_or f.bytes j 0 =
        λ e. r.same_bytes j (ground arith) in
      rw (put-at buf (gap g) off j (omega arith), gap-at g j (omega arith), same)
        (elim (Bool-cases (ltb j f.size)) [
          | inl e ↦ rw (e, old e) (ground arith)
          | inr e ↦ rw e (ground arith)
        ])

  filled-Wrote :
      (malloc : ℕ → Option (List ℕ)) (g : VfsNode)
      → Reserved f g end
      → Wrote malloc f buf off (as_int (length buf), filled g buf off end)
  unfolding filled
  filled-Wrote malloc g r =
      let enough = r.enough in
      let fits = r.file.fits in
      let room = r.file.room in
      let same = r.same_size in
      wrote (filled g buf off end)
        (record {
          fits = ground arith;
          room = length-put buf (gap g) off ∙ length-gap g ∙ room;
          word = r.file.word;
        })
        (rw same refl) (λ j. filled-byte g j r)

  reserve-enough :
      (malloc : ℕ → Option (List ℕ))
      → Gives malloc
      → (reserve malloc f end ≡ some none) × (f.cap < end) × Refused malloc end
        ⊎ ((g : VfsNode) × (reserve malloc f end ≡ some (some g)) × Reserved f g end)
  unfolding reserve
  reserve-enough malloc gives = elim (Bool-cases (ltb f.cap end)) [
    | inr e ↦ inr (
      f,
      rw e refl,
      record { file = i; enough = ground arith; same_size = refl; same_bytes = λ j h. refl },
    )
    | inl e ↦
        let start = if f.cap == 0 then 64 else f.cap in
        let word = i.word in
        let lt : f.cap < end = ltb→lt f.cap end e in
        let far = doubled-le 63 1 start (ground arith) in
        let (c, g, le, p, w) =
          grow-found 63 start end (ground arith) (ground arith) small (omega (arith, far)) in
        elim (Option-cases (malloc c)) [
          | inl no_block ↦
              let near : (c ≡ 64) ⊎ (c < end * 2) = elim p [
                | inl same ↦ ground arith
                | inr below ↦ inr below
              ] in
              inl (rw (e, g, no_block) refl, lt, (c, le, near, no_block))
          | inr block ↦ inr (
            enlarged f c block.0,
            rw (e, g, block.1) refl,
            enlarged-Reserved f c end block.0 i lt le w (gives c block.0 block.1),
          )
        ]
  ]

-- `vfs_write` to a writable file, not NULL, whose buffer is valid, up to an offset of at most 2^63, ends: it
-- returns -1 and changes nothing only when the capacity is too small and `malloc` refuses a larger one,
-- which has room for the bytes and is 64 or less than twice what they need, and else
-- returns the length, with the bytes at their place in a valid buffer, zeros between the old end and
-- the offset, all other bytes as before, and the size that reaches to the later end. `malloc` gives
-- blocks of the size that was asked for.
pub vfs_write-Wrote :
    (malloc : ℕ → Option (List ℕ)) (file : ℕ) (f : VfsNode) (buf : List ℕ) (off : ℕ)
    → Gives malloc
    → IsFile f
    → file ≢ null
    → is_writable f ≡ true
    → off + length buf ≤ 2 ^ 63
    → (r : ℤ × VfsNode) × (vfs_write malloc file f buf off ≡ some r) × Wrote malloc f buf off r
unfolding vfs_write
vfs_write-Wrote malloc file f buf off gives i there writable small =
    let writes : (not (file == null) && is_writable f) ≡ true = ground arith in
    let word : add_word 64 off (length buf) ≡ off + length buf = omega arith in
    elim (reserve-enough f i buf off small malloc gives) [
      | inl refused ↦
          ((negsuc 0, f), rw (writes, word, refused.0) refl, no_memory refused.1 refused.2)
      | inr granted ↦
          let (g, e, r) = granted in
          (
            (as_int (length buf), filled g buf off (off + length buf)),
            rw (writes, word, e) (rw word refl),
            filled-Wrote f i buf off small malloc g r,
          )
    ]
