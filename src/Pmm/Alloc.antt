-- ===== src/Pmm/Alloc.antt =====
-- kernel/src/pmm.c: what `pmm_alloc_pages` and `pmm_free_pages` do.
use choco_os.Base.{
  ℕ, zero, suc, ◌+◌, ◌-◌, ◌*◌, ◌/◌, ◌%◌, ◌^◌, ◌≤◌, ◌<◌, ◌≡◌, Bool, true, false, ◌&&◌, ◌==◌, ltb,
  leb, if◌then◌else◌, Option, none, some, arith, Bool-cases, inl, inr, add_word, refl, ==_refl, ◌≢◌,
}
use choco_os.Pmm.{
  Bitmap, Pmm, bitmap_test, bitmap_set, bitmap_clear, write, set_pages, clear_pages, zero_words,
  claim_run, pmm_alloc_pages, pmm_free_pages, page_size,
}
use choco_os.Pmm.Bits.{
  AreBytes, bitmap_test-set, bitmap_test-clear, bitmap_set-AreBytes, bitmap_clear-AreBytes,
}
use choco_os.Pmm.Search.{IsFree, NoRun, FirstRun, no_run, first_run, first_page}

abbrev pub in_range : (start count : ℕ) → ℕ → Bool
in_range start count c = leb start c && ltb c (start + count)

pub set_pages-AreBytes :
    (count start : ℕ) (m : Bitmap) → AreBytes m → AreBytes (set_pages count start m)
unfolding set_pages
set_pages-AreBytes zero start m h = h
set_pages-AreBytes (suc n) start m h =
    set_pages-AreBytes n (start + 1) (bitmap_set m start) (bitmap_set-AreBytes m start h)

pub clear_pages-AreBytes :
    (count start : ℕ) (m : Bitmap) → AreBytes m → AreBytes (clear_pages count start m)
unfolding clear_pages
clear_pages-AreBytes zero start m h = h
clear_pages-AreBytes (suc n) start m h =
    clear_pages-AreBytes n (start + 1) (bitmap_clear m start) (bitmap_clear-AreBytes m start h)

pub bitmap_test-set_pages :
    (count start : ℕ) (m : Bitmap) (c : ℕ)
    → AreBytes m
    → bitmap_test (set_pages count start m) c
      ≡ (if in_range start count c then true else bitmap_test m c)
unfolding set_pages
bitmap_test-set_pages zero start m c h = ground arith
bitmap_test-set_pages (suc n) start m c h =
    let ih =
      bitmap_test-set_pages n (start + 1) (bitmap_set m start) c (bitmap_set-AreBytes m start h) in
    rw (ih, bitmap_test-set m h start c) (ground arith)

pub bitmap_test-clear_pages :
    (count start : ℕ) (m : Bitmap) (c : ℕ)
    → AreBytes m
    → bitmap_test (clear_pages count start m) c
      ≡ (if in_range start count c then false else bitmap_test m c)
unfolding clear_pages
bitmap_test-clear_pages zero start m c h = ground arith
bitmap_test-clear_pages (suc n) start m c h =
    let ih =
      bitmap_test-clear_pages n (start + 1) (bitmap_clear m start) c
        (bitmap_clear-AreBytes m start h) in
    rw (ih, bitmap_test-clear m h start c) (ground arith)

zero_words_outside : (n a : ℕ) (w : ℕ → ℕ) (j : ℕ) → j < a → zero_words n a w j ≡ w j
unfolding zero_words write
zero_words_outside zero a w j h = refl
zero_words_outside (suc n) a w j h =
    let ne : (j == a) ≡ false = ground arith in
    rw (zero_words_outside n (a + 8) (write w a 0) j (omega arith), ne) refl

zero_words_inside : (n a : ℕ) (w : ℕ → ℕ) (k : ℕ) → k < n → zero_words n a w (a + 8 * k) ≡ 0
unfolding zero_words write
zero_words_inside zero a w k h = absurd (omega arith)
zero_words_inside (suc n) a w zero h =
    let e : a + 8 * 0 ≡ a = omega arith in
    rw (e, zero_words_outside n (a + 8) (write w a 0) a (omega arith), ==_refl a) refl
zero_words_inside (suc n) a w (suc k) h =
    let e : a + 8 * suc k ≡ a + 8 + 8 * k = omega arith in
    rw e (zero_words_inside n (a + 8) (write w a 0) k (omega arith))

pub record IsValid (s : Pmm) : Type 0 where
  pub bytes : AreBytes s.pmm_bitmap
  pub some_page : 0 < s.highest_page
  pub in_words : s.highest_page * 4096 ≤ 2 ^ 64

-- What a call for `count` pages returns: NULL and the allocator as it was, or the first run.
pub data Allocates (s : Pmm) (count : ℕ) : ℕ × Pmm → Type 0 where
  refused : NoRun s.pmm_bitmap count (s.highest_page + 1 - count) → Allocates s count (0, s)
  granted :
      (start : ℕ) (s' : Pmm)
      → (1 ≤ start) × (start + count ≤ s.highest_page)
      → IsFree s.pmm_bitmap start count
      → NoRun s.pmm_bitmap count start
      → ((c : ℕ)
          → bitmap_test s'.pmm_bitmap c
            ≡ (if in_range start count c then true else bitmap_test s.pmm_bitmap c))
      → ((k : ℕ)
          → k < 512 * count
          → s'.words (add_word 64 (start * 4096) s.hhdm_offset + 8 * k) ≡ 0)
      → IsValid s'
      → Allocates s count (start * 4096, s')

claim_run-Allocates :
    (s : Pmm) (count : ℕ) (r : Option ℕ)
    → IsValid s
    → 0 < count
    → FirstRun s.pmm_bitmap count s.highest_page r
    → Allocates s count (claim_run s count r)
unfolding claim_run
claim_run-Allocates s count none v pos (no_run none_left) = refused none_left
claim_run-Allocates s count (some start) v pos (first_run _ inside free none_before) =
    let fits = v.in_words in
    let e : start * 4096 % 2 ^ 64 ≡ start * 4096 = omega arith in
    let n : page_size * count / 8 ≡ 512 * count = omega arith in
    rw (e, n)
      (granted start _ inside free none_before
        (λ c. bitmap_test-set_pages count start s.pmm_bitmap c v.bytes)
        (λ k h.
          zero_words_inside (512 * count) (add_word 64 (start * 4096) s.hhdm_offset) s.words k h)
        (record {
          bytes = set_pages-AreBytes count start s.pmm_bitmap v.bytes;
          some_page = v.some_page;
          in_words = v.in_words;
        }))

-- `pmm_alloc_pages` on a valid bitmap, asked for at least one page, ends: it returns NULL and leaves
-- everything as it is when no run of that many free pages starts between page 1 and the last page,
-- and else the address of the first such run; of the bitmap exactly the pages of the run have become
-- used, their words are 0, and the bitmap is still valid.
pub pmm_alloc_pages-Allocates :
    (s : Pmm) (count : ℕ) → IsValid s → 0 < count → Allocates s count (pmm_alloc_pages s count)
unfolding pmm_alloc_pages
pmm_alloc_pages-Allocates s count v pos =
    let some_page = v.some_page in
    let ne : (count == 0) ≡ false = ground arith in
    let top : 1 + (s.highest_page - 1) ≡ s.highest_page = omega arith in
    rw ne (
      claim_run-Allocates s count _ v pos
        (rw top at (first_page s.pmm_bitmap count (s.highest_page - 1) pos)))

undone :
    (s : Pmm) (count : ℕ) (r : ℕ × Pmm) (c : ℕ)
    → IsValid s
    → Allocates s count r
    → r.0 ≢ 0
    → bitmap_test (pmm_free_pages r.1 r.0 count).pmm_bitmap c ≡ bitmap_test s.pmm_bitmap c
unfolding pmm_free_pages
undone s count r c v (refused none_left) ne = absurd (ne refl)
undone s count r c v (granted start s' inside free none_before marks zeroed v') ne =
    let al : (start * 4096 % page_size == 0) ≡ true = ground arith in
    let e : start * 4096 / page_size ≡ start = omega arith in
    rw (al, e, bitmap_test-clear_pages count start s'.pmm_bitmap c v'.bytes, marks c)
      (elim (Bool-cases (in_range start count c)) [
        | inl i ↦ rw i (ground (arith, free c))
        | inr o ↦ rw o refl
      ])

-- Pages that `pmm_alloc_pages` grants on a valid bitmap and `pmm_free_pages` takes back leave every
-- page with the mark that it had.
pub pmm_free_pages_undoes :
    (s : Pmm) (count c : ℕ)
    → IsValid s
    → 0 < count
    → (pmm_alloc_pages s count).0 ≢ 0
    → bitmap_test
        (pmm_free_pages (pmm_alloc_pages s count).1 (pmm_alloc_pages s count).0 count).pmm_bitmap
        c
      ≡ bitmap_test s.pmm_bitmap c
pmm_free_pages_undoes s count c v pos ne =
    undone s count (pmm_alloc_pages s count) c v (pmm_alloc_pages-Allocates s count v pos) ne
