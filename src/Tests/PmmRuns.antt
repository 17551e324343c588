-- ===== src/Tests/PmmRuns.antt =====
-- kernel/src/pmm.c with eight pages, of which the pages 0 and 3 are used.
use choco_os.Base.{ℕ, ◌<◌, some, ◌≡◌, refl, List, [], ◌∷◌, arith, ◌||◌, not, ◌==◌, ◌/◌}
use choco_os.Pmm.{
  Pmm, bitmap_test, pmm_alloc_pages, pmm_free_pages, Entry, usable, pmm_init, bitmap_bytes,
  highest_addr, page_size, find_place, claim_run, find_run,
}
use choco_os.Pmm.Alloc.{IsValid, Allocates, pmm_alloc_pages-Allocates, pmm_free_pages_undoes}
use choco_os.Pmm.Init.{AreRanges, in_bytes, usable_page, pmm_init-marks}

abbrev eight : Pmm
eight = record {
  pmm_bitmap = λ _. 9;
  bitmap_size = 1;
  highest_page = 8;
  hhdm_offset = 65536;
  words = λ _. 7;
}

eight-IsValid : IsValid eight
eight-IsValid = record { bytes = λ i. omega arith; some_page = omega arith; in_words = omega arith }

pmm_alloc_pages-Allocates_example : Allocates eight 2 (pmm_alloc_pages eight 2)
pmm_alloc_pages-Allocates_example = pmm_alloc_pages-Allocates eight 2 eight-IsValid (omega arith)

granted_page : (pmm_alloc_pages eight 2).0 ≡ 4096
unfolding pmm_alloc_pages claim_run find_run bitmap_test
granted_page = refl

pmm_free_pages_undoes_example :
    bitmap_test
      (pmm_free_pages (pmm_alloc_pages eight 2).1 (pmm_alloc_pages eight 2).0 2).pmm_bitmap
      1
    ≡ bitmap_test eight.pmm_bitmap 1
pmm_free_pages_undoes_example =
    pmm_free_pages_undoes eight 2 1 eight-IsValid (omega arith) (λ e. omega (arith, granted_page))

abbrev low : List Entry
low = record { base = 0; size = 32768; kind = usable } ∷ []

low-AreRanges : AreRanges 9 low
low-AreRanges = (λ u. record { aligned = refl; inside = omega arith; room = omega arith }, tt)

pmm_init-marks_example :
    (t : Pmm) × (pmm_init 10 (λ _. 0) 65536 low eight ≡ some t)
    × (t.highest_page ≡ highest_addr low 0 / page_size)
    × ((p : ℕ)
        → p < t.highest_page
        → bitmap_test t.pmm_bitmap p ≡ (
            (p == 0)
            || in_bytes 0 (bitmap_bytes (highest_addr low 0 / page_size)) p
            || not (usable_page low p)))
unfolding highest_addr find_place
pmm_init-marks_example =
    pmm_init-marks 9 (λ _. 0) 65536 low eight 0 low-AreRanges (λ i. omega arith) refl refl
