-- ===== src/Pmm/Init.antt =====
-- kernel/src/pmm.c: the marks that `pmm_init` leaves.
use choco_os.Base.{
  ℕ, zero, suc, ◌+◌, ◌-◌, ◌*◌, ◌/◌, ◌%◌, ◌^◌, ◌≤◌, ◌<◌, ◌≡◌, Bool, true, false, not, ◌&&◌, ◌||◌,
  ltb, leb, ◌==◌, if◌then◌else◌, some, List, [], ◌∷◌, arith, Bool-cases, inl, inr, add_word, refl,
  ◌∙◌, sym, ap,
}
use mathlib.Core.Option.{some-injective}
use choco_os.Pmm.{
  Bitmap, Pmm, Entry, is_usable, bitmap_test, bitmap_set, bitmap_clear, clear_range, set_range,
  free_entry, set_pages, clear_pages, free_usable, fill, mark_all, pmm_init, highest_addr,
  find_place, bitmap_bytes, page_size,
}
use choco_os.Pmm.Bits.{AreBytes, bitmap_test-set, bitmap_test-full}
use choco_os.Pmm.Alloc.{
  in_range, bitmap_test-set_pages, bitmap_test-clear_pages, set_pages-AreBytes,
  clear_pages-AreBytes,
}

-- The number of pages that a range of bytes reaches into from its aligned start.
abbrev pages_of : ℕ → ℕ
pages_of size = (size + (page_size - 1)) / page_size

clear_range-clear_pages :
    (n fuel addr end : ℕ) (m : Bitmap)
    → end ≤ addr + n * page_size
    → addr + n * page_size < end + page_size
    → end + page_size ≤ 2 ^ 64
    → n < fuel
    → clear_range fuel addr end m ≡ some (clear_pages n (addr / page_size) m)
unfolding clear_range clear_pages
clear_range-clear_pages n zero addr end m h k w f = absurd (omega arith)
clear_range-clear_pages zero (suc fuel) addr end m h k w f =
    let stop : ltb addr end ≡ false = ground arith in rw stop refl
clear_range-clear_pages (suc n) (suc fuel) addr end m h k w f =
    let go : ltb addr end ≡ true = ground arith in
    let e : (addr + page_size) / page_size ≡ addr / page_size + 1 = omega arith in
    let next : (addr + page_size) % 2 ^ 64 ≡ addr + page_size = omega arith in
    rw (go, next)
      (clear_range-clear_pages n fuel (addr + page_size) end (bitmap_clear m (addr / page_size))
          (omega arith) (omega arith) w (omega arith)
        ∙ ap (λ p. some (clear_pages n p (bitmap_clear m (addr / page_size)))) e)

set_range-set_pages :
    (n fuel addr end : ℕ) (m : Bitmap)
    → end ≤ addr + n * page_size
    → addr + n * page_size < end + page_size
    → end + page_size ≤ 2 ^ 64
    → n < fuel
    → set_range fuel addr end m ≡ some (set_pages n (addr / page_size) m)
unfolding set_range set_pages
set_range-set_pages n zero addr end m h k w f = absurd (omega arith)
set_range-set_pages zero (suc fuel) addr end m h k w f =
    let stop : ltb addr end ≡ false = ground arith in rw stop refl
set_range-set_pages (suc n) (suc fuel) addr end m h k w f =
    let go : ltb addr end ≡ true = ground arith in
    let e : (addr + page_size) / page_size ≡ addr / page_size + 1 = omega arith in
    let next : (addr + page_size) % 2 ^ 64 ≡ addr + page_size = omega arith in
    rw (go, next)
      (set_range-set_pages n fuel (addr + page_size) end (bitmap_set m (addr / page_size))
          (omega arith) (omega arith) w (omega arith)
        ∙ ap (λ p. some (set_pages n p (bitmap_set m (addr / page_size)))) e)

-- A page that has a byte of the `size` bytes from `base`.
abbrev pub in_bytes : (base size : ℕ) → ℕ → Bool
in_bytes base size p = ltb base ((p + 1) * page_size) && ltb (p * page_size) (base + size)

-- A range that starts at a page and does not reach into the last page of the address space, for whose pages
-- there is fuel.
pub record IsRange (fuel base size : ℕ) : Type 0 where
  pub aligned : base % page_size ≡ 0
  pub inside : base + size + page_size ≤ 2 ^ 64
  pub room : size < fuel * page_size

pages-in_bytes :
    (base size p : ℕ)
    → base % page_size ≡ 0
    → in_range (base / page_size) (pages_of size) p ≡ in_bytes base size p
pages-in_bytes base size p h = ground arith

clear_range-marks :
    (fuel base size : ℕ) (m : Bitmap)
    → IsRange (fuel) base size
    → AreBytes m
    → (m' : Bitmap) × (clear_range (suc fuel) base (add_word 64 base size) m ≡ some m')
      × AreBytes m'
      × ((p : ℕ) → bitmap_test m' p ≡ (if in_bytes base size p then false else bitmap_test m p))
clear_range-marks fuel base size m r b =
    let n = pages_of size in
    let al = r.aligned in
    let ins = r.inside in
    let room = r.room in
    let word : add_word 64 base size ≡ base + size = omega arith in
    let run : clear_range (suc fuel) base (add_word 64 base size) m
        ≡ some (clear_pages n (base / page_size) m) =
      rw word (
        clear_range-clear_pages n (suc fuel) base (base + size) m (omega arith) (omega arith)
          (omega arith) (omega arith)) in
    (
      clear_pages n (base / page_size) m,
      run,
      clear_pages-AreBytes n (base / page_size) m b,
      λ p.
          bitmap_test-clear_pages n (base / page_size) m p b
          ∙ rw (pages-in_bytes base size p al) refl,
    )

set_range-marks :
    (fuel base size : ℕ) (m : Bitmap)
    → IsRange fuel base size
    → AreBytes m
    → (m' : Bitmap) × (set_range (suc fuel) base (add_word 64 base size) m ≡ some m')
      × AreBytes m'
      × ((p : ℕ) → bitmap_test m' p ≡ (if in_bytes base size p then true else bitmap_test m p))
set_range-marks fuel base size m r b =
    let n = pages_of size in
    let al = r.aligned in
    let ins = r.inside in
    let room = r.room in
    let word : add_word 64 base size ≡ base + size = omega arith in
    let run : set_range (suc fuel) base (add_word 64 base size) m
        ≡ some (set_pages n (base / page_size) m) =
      rw word (
        set_range-set_pages n (suc fuel) base (base + size) m (omega arith) (omega arith)
          (omega arith) (omega arith)) in
    (
      set_pages n (base / page_size) m,
      run,
      set_pages-AreBytes n (base / page_size) m b,
      λ p.
          bitmap_test-set_pages n (base / page_size) m p b
          ∙ rw (pages-in_bytes base size p al) refl,
    )

-- A page of some usable entry of the memory map.
abbrev pub usable_page : List Entry → ℕ → Bool
usable_page [] p = false
usable_page (e ∷ es) p = (is_usable e && in_bytes e.base e.size p) || usable_page es p

-- The usable entries are whole pages from their start on, as the bootloader promises.
abbrev pub AreRanges : (fuel : ℕ) → List Entry → Type 0
AreRanges fuel [] = Unit {0}
AreRanges fuel (e ∷ es) = (is_usable e ≡ true → IsRange fuel e.base e.size) × AreRanges fuel es

free_entry-marks :
    (fuel : ℕ) (e : Entry) (m : Bitmap)
    → (is_usable e ≡ true → IsRange fuel e.base e.size)
    → AreBytes m
    → (m' : Bitmap) × (free_entry (suc fuel) e m ≡ some m')
      × AreBytes m'
      × ((p : ℕ)
          → bitmap_test m' p
            ≡ (if is_usable e && in_bytes e.base e.size p then false else bitmap_test m p))
free_entry-marks fuel e m r b = elim (Bool-cases (is_usable e)) [
  | inl u ↦
      let (m', run, b', marks) = clear_range-marks fuel e.base e.size m (r u) b in
      (m', rw u run, b', λ p. rw u (marks p))
  | inr u ↦ (m, rw u refl, b, λ p. rw u refl)
]

free_usable-marks :
    (fuel : ℕ) (es : List Entry) (m : Bitmap)
    → AreRanges fuel es
    → AreBytes m
    → (m' : Bitmap) × (free_usable (suc fuel) es m ≡ some m')
      × AreBytes m'
      × ((p : ℕ) → bitmap_test m' p ≡ (if usable_page es p then false else bitmap_test m p))
unfolding free_usable
free_usable-marks fuel [] m r b = (m, refl, b, λ p. refl)
free_usable-marks fuel (e ∷ es) m r b =
    let (m1, run, b1, marks) = free_entry-marks fuel e m r.0 b in
    let (m2, run', b2, marks') = free_usable-marks fuel es m1 r.1 b1 in
    (
      m2,
      rw (run, free_usable) run',
      b2,
      λ p. let first = marks p in let others = marks' p in rw (others, first) (ground arith),
    )

-- The place of the bitmap is the start of a usable entry that has room for it.
find_place-IsRange :
    (fuel : ℕ) (es : List Entry) (size place : ℕ)
    → AreRanges fuel es
    → find_place es size ≡ some place
    → IsRange fuel place size
unfolding find_place
find_place-IsRange fuel [] size place r e = cc
find_place-IsRange fuel (a ∷ es) size place r e =
    elim (Bool-cases (is_usable a && leb size a.size)) [
      | inl here ↦
          let u : is_usable a ≡ true = ground arith in
          let fits : size ≤ a.size = ground arith in
          let q = r.0 u in
          let al = q.aligned in
          let ins = q.inside in
          let room = q.room in
          let same : a.base ≡ place = some-injective _ _ (rw here at e) in
          record { aligned = rw (sym same) al; inside = omega arith; room = omega arith }
      | inr other ↦ find_place-IsRange fuel es size place r.1 (rw other at e)
    ]

fill-AreBytes : (m : Bitmap) (size : ℕ) → AreBytes m → AreBytes (fill m size)
fill-AreBytes m size h i = ground (arith, h i)

bitmap_test-fill : (m : Bitmap) (size p : ℕ) → p / 8 < size → bitmap_test (fill m size) p ≡ true
bitmap_test-fill m size p h = bitmap_test-full (fill m size) p (ground arith)

abbrev bytes : List Entry → ℕ
bytes entries = bitmap_bytes (highest_addr entries 0 / page_size)

-- The marks on the pages that the bitmap has a bit for.
mark_all-marks :
    (fuel : ℕ) (entries : List Entry) (size place : ℕ) (memory : Bitmap)
    → AreRanges fuel entries
    → IsRange fuel place size
    → AreBytes memory
    → (m : Bitmap) × (mark_all (suc fuel) entries size place memory ≡ some m)
      × ((p : ℕ)
          → p / 8 < size
          → bitmap_test m p ≡ ((p == 0) || in_bytes place size p || not (usable_page entries p)))
unfolding mark_all
mark_all-marks fuel entries size place memory r rp h =
    let full = fill memory size in
    let (m1, run, b1, marks) =
      free_usable-marks fuel entries full r (fill-AreBytes memory size h) in
    let (m2, run', b2, marks') = set_range-marks fuel place size m1 rp b1 in
    (
      bitmap_set m2 0,
      rw (run, mark_all) (rw (run', mark_all) refl),
      λ p below.
          rw (bitmap_test-set m2 b2 0 p, marks' p, marks p, bitmap_test-fill memory size p below)
            (ground arith),
    )

-- `pmm_init` ends, on a memory map whose usable entries start at a page and leave the last page of the
-- address space alone. With a place for the bitmap in one of them, a page below the highest is then marked
-- as used exactly when it is page 0, or has a byte of the bitmap, or no byte of a usable entry.
pub pmm_init-marks :
    (fuel : ℕ) (memory : Bitmap) (offset : ℕ) (entries : List Entry) (s : Pmm) (place : ℕ)
    → AreRanges fuel entries
    → AreBytes memory
    → find_place entries (bitmap_bytes (highest_addr entries 0 / page_size)) ≡ some place
    → (add_word 64 place offset == 0) ≡ false
    → (t : Pmm) × (pmm_init (suc fuel) memory offset entries s ≡ some t)
      × (t.highest_page ≡ highest_addr entries 0 / page_size)
      × ((p : ℕ)
          → p < t.highest_page
          → bitmap_test t.pmm_bitmap p ≡ (
              (p == 0)
              || in_bytes place (bitmap_bytes (highest_addr entries 0 / page_size)) p
              || not (usable_page entries p)))
unfolding pmm_init
pmm_init-marks fuel memory offset entries s place r h found there =
    let pages = highest_addr entries 0 / page_size in
    let size = bitmap_bytes pages in
    let (m, run, marks) =
      mark_all-marks fuel entries size place memory r
        (find_place-IsRange fuel entries size place r found) h in
    (
      record s { highest_page = pages; bitmap_size = size; hhdm_offset = offset; pmm_bitmap = m },
      rw (found, pmm_init) (rw there (rw run refl)),
      refl,
      λ p below. marks p (ground arith),
    )
