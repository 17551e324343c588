-- ===== src/Tests/VmmRuns.antt =====
-- kernel/src/vmm.c with an empty root table at 4096, three pages to give out, and the direct map at
-- 65536.
use choco_os.Base.{◌+◌, ◌%◌, ◌≡◌, ◌==◌, refl, [], ◌∷◌, arith, if◌then◌else◌}
use choco_os.Vmm.{Paging, address_bits, vmm_map_page, vmm_unmap_page, vmm_get_phys, get_next_level}
use choco_os.Vmm.Tables.{Levels, IsPaged}
use choco_os.Vmm.Mapping.{vmm_get_phys-map_page, vmm_get_phys-unmap_page}

abbrev empty : Paging
empty = record { words = λ _. 0; pages = 4096 ∷ 8192 ∷ 12288 ∷ [] }

abbrev root_only : Levels
root_only t = if t == 4096 then 4 else 0

empty-IsPaged : IsPaged 65536 root_only empty
empty-IsPaged = record {
  direct = refl;
  table = λ t h. ground arith;
  child = λ t k i l hi h. absurd (ground arith);
  free = omega arith;
}

vmm_get_phys-map_page_example :
    let s' = vmm_map_page 65536 4096 0x40201234 0x55000 3 empty in
    (lv : Levels) × IsPaged 65536 lv s'
    × (lv 4096 ≡ 4)
    × (vmm_get_phys 65536 4096 0x40201234 s' ≡ address_bits 0x55000 + 0x40201234 % 4096)
vmm_get_phys-map_page_example =
    vmm_get_phys-map_page 65536 root_only 4096 0x40201234 0x55000 3 empty empty-IsPaged refl
      (omega arith) refl

mapped_run :
    vmm_get_phys 65536 4096 0x40201234 (vmm_map_page 65536 4096 0x40201234 0x55000 3 empty)
    ≡ 0x55234
unfolding vmm_get_phys vmm_map_page get_next_level
mapped_run = refl

vmm_get_phys-unmap_page_example :
    let s' = vmm_unmap_page 65536 4096 0x40201234 empty in
    IsPaged 65536 root_only s' × (vmm_get_phys 65536 4096 0x40201234 s' ≡ 0)
vmm_get_phys-unmap_page_example =
    vmm_get_phys-unmap_page 65536 root_only 4096 0x40201234 empty empty-IsPaged refl
