-- ===== src/Vmm.antt =====
-- kernel/src/vmm.c: the four levels of page tables. A table is its virtual address, 0 for NULL, and
-- memory is the 64-bit word at each address. `PTE_ADDR_MASK` keeps the bits 12 to 51. What
-- `pmm_alloc_page` returns is a list of physical pages, 0 for NULL, of which a call takes the first;
-- it clears the page through the direct map. `invlpg` and the writes to `cr3` are outside.
pub mod Bits
pub mod Tables
pub mod Walk
pub mod Mapping
use choco_os.Base.{
  ℕ, zero, suc, ◌+◌, ◌-◌, ◌*◌, ◌/◌, ◌%◌, ◌^◌, Bool, true, false, not, ◌&&◌, ltb, leb, ◌==◌,
  if◌then◌else◌, List, [], ◌∷◌, bit_or, add_word, sub_word,
}

abbrev pub null : ℕ
null = 0

-- `entry & PTE_ADDR_MASK`
abbrev pub address_bits : ℕ → ℕ
address_bits entry = entry / 4096 % 2 ^ 40 * 4096

-- `(entry & PTE_PRESENT) != 0`
abbrev pub is_present : ℕ → Bool
is_present entry = entry % 2 == 1

-- Memory, and the pages that `pmm_alloc_page` will return.
pub record Paging : Type 0 where
  pub words : ℕ → ℕ
  pub pages : List ℕ

-- `&table[index]`
abbrev pub entry_at : (table index : ℕ) → ℕ
entry_at table index = table + 8 * index

unfoldable pub write : (ℕ → ℕ) → ℕ → ℕ → (ℕ → ℕ)
write m a v b = if b == a then v else m b

-- The words of the page at `base` are 0.
unfoldable pub cleared : (ℕ → ℕ) → (base : ℕ) → (ℕ → ℕ)
cleared m base a = if leb base a && ltb a (base + 4096) then 0 else m a

-- The entry of a new table: `PTE_PRESENT | PTE_WRITABLE | PTE_USER`.
abbrev pub table_entry : ℕ → ℕ
table_entry page = bit_or (bit_or (bit_or page 1) 2) 4

abbrev pub next_table : (hhdm entry : ℕ) → ℕ
next_table hhdm entry = add_word 64 (address_bits entry) hhdm

-- A fresh table for the entry at `a`.
pub new_table : (hhdm a : ℕ) → (words : ℕ → ℕ) → List ℕ → ℕ × Paging
unfolding write cleared
new_table hhdm a m [] = (null, record { words = m; pages = [] })
new_table hhdm a m (page ∷ rest) =
    let fresh = cleared m (add_word 64 page hhdm) in
    if page == null
    then (null, record { words = m; pages = rest })
    else (add_word 64 page hhdm, record { words = write fresh a (table_entry page); pages = rest })

unfoldable pub get_next_level : (hhdm table index : ℕ) → (allocate : Bool) → Paging → ℕ × Paging
unfolding new_table
get_next_level hhdm table index allocate s =
    let entry = s.words (entry_at table index) in
    if is_present entry
    then (next_table hhdm entry, s)
    else if not allocate
    then (null, s)
    else new_table hhdm (entry_at table index) s.words s.pages

abbrev pub pml4_index : ℕ → ℕ
pml4_index vaddr = vaddr / 2 ^ 39 % 512

abbrev pub pdp_index : ℕ → ℕ
pdp_index vaddr = vaddr / 2 ^ 30 % 512

abbrev pub pd_index : ℕ → ℕ
pd_index vaddr = vaddr / 2 ^ 21 % 512

abbrev pub pt_index : ℕ → ℕ
pt_index vaddr = vaddr / 2 ^ 12 % 512

-- The three descents that the operations share, with their early returns: the last table, 0 when
-- there is none.
pub descend : (hhdm pml4 vaddr : ℕ) → (allocate : Bool) → Paging → ℕ × Paging
descend hhdm pml4 vaddr allocate s =
    let (pdp, s1) = get_next_level hhdm pml4 (pml4_index vaddr) allocate s in
    let (pd, s2) = get_next_level hhdm pdp (pdp_index vaddr) allocate s1 in
    if pdp == null
    then (null, s1)
    else if pd == null
    then (null, s2)
    else get_next_level hhdm pd (pd_index vaddr) allocate s2

-- `(paddr & PTE_ADDR_MASK) | flags | PTE_PRESENT`
abbrev pub page_entry : (paddr flags : ℕ) → ℕ
page_entry paddr flags = bit_or (bit_or (address_bits paddr) flags) 1

unfoldable pub vmm_map_page : (hhdm pml4 vaddr paddr flags : ℕ) → Paging → Paging
unfolding descend write
vmm_map_page hhdm pml4 vaddr paddr flags s =
    let (pt, s') = descend hhdm pml4 vaddr true s in
    if pt == null then s' else record s' {
      words = write s'.words (entry_at pt (pt_index vaddr)) (page_entry paddr flags);
    }

pub vmm_unmap_page : (hhdm pml4 vaddr : ℕ) → Paging → Paging
unfolding descend write
vmm_unmap_page hhdm pml4 vaddr s =
    let (pt, s') = descend hhdm pml4 vaddr false s in
    if pt == null then s' else record s' { words = write s'.words (entry_at pt (pt_index vaddr)) 0 }

unfoldable pub vmm_get_phys : (hhdm pml4 vaddr : ℕ) → Paging → ℕ
unfolding descend
vmm_get_phys hhdm pml4 vaddr s =
    let (pt, s') = descend hhdm pml4 vaddr false s in
    let entry = s'.words (entry_at pt (pt_index vaddr)) in
    if pt == null
    then 0
    else if not (is_present entry)
    then 0
    else address_bits entry + vaddr % 4096

-- `vmm_init` with the response: the offset and the table that `cr3` names.
pub vmm_init : (offset cr3 : ℕ) → ℕ × ℕ
vmm_init offset cr3 = (offset, add_word 64 (address_bits cr3) offset)

-- What `vmm_switch_pml4` writes to `cr3`.
pub vmm_switch_pml4 : (hhdm pml4 : ℕ) → ℕ
vmm_switch_pml4 hhdm pml4 = sub_word 64 pml4 hhdm
