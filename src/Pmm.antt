-- ===== src/Pmm.antt =====
-- kernel/src/pmm.c: the physical page allocator, a bitmap with one bit a page, set when it is used.
-- The bitmap is a total map from byte indices, since C reads whatever lies there, and the memory that
-- is zeroed a map from the addresses of 64-bit words. The bootloader's memory map and the offset of
-- its direct map are arguments.
pub mod Bits
pub mod Search
pub mod Alloc
pub mod Init
use choco_os.Base.{
  ℕ, zero, suc, ◌+◌, ◌-◌, ◌*◌, ◌/◌, ◌%◌, ◌^◌, Bool, true, false, not, ◌||◌, ◌&&◌, ltb, leb, ◌==◌,
  if◌then◌else◌, Option, none, some, List, [], ◌∷◌, add_word, sub_word, bit_and, bit_or,
}

abbrev pub page_size : ℕ
page_size = 4096

abbrev pub Bitmap : Type 0
Bitmap = ℕ → ℕ

unfoldable pub write : (ℕ → ℕ) → ℕ → ℕ → ℕ → ℕ
write m i v j = if j == i then v else m j

-- The bytes of `1 << (bit % 8)` and of its complement.
abbrev pub mask : ℕ → ℕ
mask bit = 2 ^ (bit % 8)

pub bitmap_set : Bitmap → ℕ → Bitmap
unfolding write
bitmap_set m bit = write m (bit / 8) (bit_or (m (bit / 8)) (mask bit))

pub bitmap_clear : Bitmap → ℕ → Bitmap
unfolding write
bitmap_clear m bit = write m (bit / 8) (bit_and (m (bit / 8)) (255 - mask bit))

unfoldable pub bitmap_test : Bitmap → ℕ → Bool
bitmap_test m bit = not (bit_and (m (bit / 8)) (mask bit) == 0)

pub record Pmm : Type 0 where
  pub pmm_bitmap : Bitmap
  pub bitmap_size : ℕ
  pub highest_page : ℕ
  pub hhdm_offset : ℕ
  pub words : ℕ → ℕ

-- The loop over the pages from `i`, of which `n` are left: the start of the first run of `count`.
unfoldable pub find_run : Bitmap → (count n i run_length run_start : ℕ) → Option ℕ
unfolding bitmap_test
find_run m count zero i run_length run_start = none
find_run m count (suc n) i run_length run_start =
    let start = if run_length == 0 then i else run_start in
    let longer = find_run m count n (i + 1) (run_length + 1) start in
    let broken = find_run m count n (i + 1) 0 run_start in
    if bitmap_test m i then broken else if run_length + 1 == count then some start else longer

pub set_pages : (count start : ℕ) → Bitmap → Bitmap
unfolding bitmap_set
set_pages zero start m = m
set_pages (suc n) start m = set_pages n (start + 1) (bitmap_set m start)

pub clear_pages : (count start : ℕ) → Bitmap → Bitmap
unfolding bitmap_clear
clear_pages zero start m = m
clear_pages (suc n) start m = clear_pages n (start + 1) (bitmap_clear m start)

pub zero_words : (n a : ℕ) → (ℕ → ℕ) → ℕ → ℕ
unfolding write
zero_words zero a w = w
zero_words (suc n) a w = zero_words n (a + 8) (write w a 0)

-- What is done with the run that is found.
unfoldable pub claim_run : Pmm → (count : ℕ) → Option ℕ → ℕ × Pmm
claim_run s count none = (0, s)
claim_run s count (some start) = (
  start * page_size % 2 ^ 64,
  record s {
    pmm_bitmap = set_pages count start s.pmm_bitmap;
    words =
        zero_words (page_size * count / 8) (add_word 64 (start * page_size % 2 ^ 64) s.hhdm_offset)
          s.words;
  },
)

unfoldable pub pmm_alloc_pages : Pmm → ℕ → ℕ × Pmm
pmm_alloc_pages s count =
    if count == 0
    then (0, s)
    else claim_run s count (find_run s.pmm_bitmap count (s.highest_page - 1) 1 0 0)

pub pmm_alloc_page : Pmm → ℕ × Pmm
pmm_alloc_page s = pmm_alloc_pages s 1

pub pmm_free_pages : Pmm → (page count : ℕ) → Pmm
pmm_free_pages s page count =
    if page % page_size == 0
    then record s { pmm_bitmap = clear_pages count (page / page_size) s.pmm_bitmap }
    else s

pub pmm_free_page : Pmm → ℕ → Pmm
pmm_free_page s page = pmm_free_pages s page 1

-- An entry of the memory map, with the bootloader's names for its kinds.
pub data Kind : Type 0 where
  usable bootloader_reclaimable acpi_reclaimable kernel_and_modules other : Kind

pub record Entry : Type 0 where
  pub base : ℕ
  pub size : ℕ
  pub kind : Kind

abbrev pub is_usable : Entry → Bool
is_usable e = elim e.kind [ usable ↦ true | _ ↦ false ]

abbrev pub is_memory : Entry → Bool
is_memory e = elim e.kind [ other ↦ false | _ ↦ true ]

unfoldable pub highest_addr : List Entry → ℕ → ℕ
highest_addr [] top = top
highest_addr (e ∷ es) top =
    let end = add_word 64 e.base e.size in
    highest_addr es (if is_memory e && ltb top end then end else top)

unfoldable pub find_place : List Entry → ℕ → Option ℕ
find_place [] size = none
find_place (e ∷ es) size =
    let rest = find_place es size in if is_usable e && leb size e.size then some e.base else rest

abbrev pub fill : Bitmap → ℕ → Bitmap
fill m size i = if ltb i size then 255 else m i

-- The loops that step through an address range by pages, in words of 64 bits. `none` is a loop that has not
-- ended.
pub clear_range : (fuel addr end : ℕ) → Bitmap → Option Bitmap
unfolding bitmap_clear
clear_range zero addr end m = none
clear_range (suc fuel) addr end m =
    let rest =
      clear_range fuel (add_word 64 addr page_size) end (bitmap_clear m (addr / page_size)) in
    if ltb addr end then rest else some m

pub set_range : (fuel addr end : ℕ) → Bitmap → Option Bitmap
unfolding bitmap_set
set_range zero addr end m = none
set_range (suc fuel) addr end m =
    let rest = set_range fuel (add_word 64 addr page_size) end (bitmap_set m (addr / page_size)) in
    if ltb addr end then rest else some m

-- The body of the loop over the entries.
abbrev pub free_entry : (fuel : ℕ) → Entry → Bitmap → Option Bitmap
free_entry fuel e m =
    if is_usable e then clear_range fuel e.base (add_word 64 e.base e.size) m else some m

pub free_usable : (fuel : ℕ) → List Entry → Bitmap → Option Bitmap
free_usable fuel [] m = some m
free_usable fuel (e ∷ es) m = elim (free_entry fuel e m) [
  | none ↦ none
  | some m' ↦ free_usable fuel es m'
]

abbrev pub bitmap_bytes : ℕ → ℕ
bitmap_bytes pages = pages / 8 + (if ltb (pages / 8 * 8) pages then 1 else 0)

-- The marks: all pages used, then the usable ones free, then those of the bitmap and page 0 used.
pub mark_all : (fuel : ℕ) → List Entry → (size place : ℕ) → Bitmap → Option Bitmap
unfolding bitmap_set
mark_all fuel entries size place memory = elim (free_usable fuel entries (fill memory size)) [
  | none ↦ none
  | some freed ↦ elim (set_range fuel place (add_word 64 place size) freed) [
    | none ↦ none
    | some marked ↦ some (bitmap_set marked 0)
  ]
]

-- `memory` is what the bitmap's bytes were before.
unfoldable pub pmm_init :
    (fuel : ℕ) → (memory : Bitmap) → (offset : ℕ) → List Entry → Pmm → Option Pmm
pmm_init fuel memory offset entries s =
    let pages = highest_addr entries 0 / page_size in
    let size = bitmap_bytes pages in
    let sized = record s { highest_page = pages; bitmap_size = size; hhdm_offset = offset } in
    elim (find_place entries size) [
      | none ↦ some sized
      | some place ↦
          let marked : Option Pmm = elim (mark_all fuel entries size place memory) [
            | none ↦ none
            | some m ↦ some (record sized { pmm_bitmap = m })
          ] in
          if add_word 64 place offset == 0 then some sized else marked
    ]
