-- ===== src/Vmm/Mapping.antt =====
-- kernel/src/vmm.c: `vmm_map_page` and `vmm_unmap_page` against `vmm_get_phys`.
use choco_os.Base.{
  ℕ, suc, ◌+◌, ◌%◌, ◌≤◌, ◌<◌, ◌≡◌, ◌⊎◌, inl, inr, refl, ◌∙◌, true, false, ◌==◌, Bool-cases, arith,
  length,
}
use choco_os.Vmm.{
  null, address_bits, is_present, Paging, entry_at, get_next_level, next_table, descend, pml4_index,
  pdp_index, pd_index, page_entry, vmm_map_page, vmm_unmap_page, vmm_get_phys,
}
use choco_os.Vmm.Bits.{AreFlags, page_entry_present, page_entry_address}
use choco_os.Vmm.Tables.{Levels, IsPaged, Leads}
use choco_os.Vmm.Walk.{Walks, descend_allocates, leaf, leaf-IsPaged, leaf_phys}

-- A descent that does not allocate stops at an entry that is not present, or follows it.
follow :
    (hhdm : ℕ) (lv : Levels) (s : Paging)
    → IsPaged hhdm lv s
    → (t i k : ℕ) → lv t ≡ suc (suc k)
    → i < 512
    → (get_next_level hhdm t i false s ≡ (null, s))
      ⊎ ((n : ℕ) × (get_next_level hhdm t i false s ≡ (n, s)) × Leads hhdm s t i n × (lv n ≡ suc k))
unfolding get_next_level
follow hhdm lv s w t i k l hi = elim (Bool-cases (is_present (s.words (entry_at t i)))) [
  | inl e ↦
      inr (next_table hhdm (s.words (entry_at t i)), rw e refl, (e, refl), w.child t k i l hi e)
  | inr e ↦ inl (rw e refl)
]

module _ (hhdm : ℕ) (lv : Levels) (pml4 vaddr : ℕ) (s : Paging) (w : IsPaged hhdm lv s)
    (root : lv pml4 ≡ 4) where
  descend_reads :
      (descend hhdm pml4 vaddr false s ≡ (null, s))
      ⊎ ((pt : ℕ) × (descend hhdm pml4 vaddr false s ≡ (pt, s)) × Walks hhdm lv s pml4 vaddr pt)
  unfolding descend
  descend_reads = elim (follow hhdm lv s w pml4 (pml4_index vaddr) 2 root (omega arith)) [
    | inl e ↦ inl (rw e refl)
    | inr (pdp, e, lead, l) ↦
        let nz : (pdp == null) ≡ false = ground (arith, w.table pdp) in
        elim (follow hhdm lv s w pdp (pdp_index vaddr) 1 l (omega arith)) [
          | inl e2 ↦ inl (rw e (rw e2 (rw nz refl)))
          | inr (pd, e2, lead2, l2) ↦
              let nz2 : (pd == null) ≡ false = ground (arith, w.table pd) in
              elim (follow hhdm lv s w pd (pd_index vaddr) 0 l2 (omega arith)) [
                | inl e3 ↦ inl (rw e (rw e2 (rw (nz, nz2) e3)))
                | inr (pt, e3, lead3, l3) ↦ inr (
                  pt,
                  rw e (rw e2 (rw (nz, nz2) e3)),
                  record {
                    pdp = pdp;
                    pd = pd;
                    first = lead;
                    second = lead2;
                    third = lead3;
                    root_level = root;
                    pdp_level = l;
                    pd_level = l2;
                    pt_level = l3;
                  },
                )
              ]
        ]
  ]

  map-leaf :
      (paddr flags pt : ℕ) (lv' : Levels) (s' : Paging)
      → IsPaged hhdm lv' s'
      → Walks hhdm lv' s' pml4 vaddr pt
      → descend hhdm pml4 vaddr true s ≡ (pt, s')
      → vmm_map_page hhdm pml4 vaddr paddr flags s
        ≡ leaf hhdm lv' pml4 vaddr s' pt (page_entry paddr flags)
  unfolding vmm_map_page leaf
  map-leaf paddr flags pt lv' s' w' k d =
      let nz : (pt == null) ≡ false = ground (arith, w'.table pt, k.pt_level) in rw d (rw nz refl)

  unmap-leaf :
      (pt : ℕ)
      → Walks hhdm lv s pml4 vaddr pt
      → descend hhdm pml4 vaddr false s ≡ (pt, s)
      → vmm_unmap_page hhdm pml4 vaddr s ≡ leaf hhdm lv pml4 vaddr s pt 0
  unfolding vmm_unmap_page leaf
  unmap-leaf pt k d =
      let nz : (pt == null) ≡ false = ground (arith, w.table pt, k.pt_level) in rw d (rw nz refl)

  unmap_nothing : descend hhdm pml4 vaddr false s ≡ (null, s) → vmm_unmap_page hhdm pml4 vaddr s ≡ s
  unfolding vmm_unmap_page
  unmap_nothing d = rw d refl

  phys_nothing : descend hhdm pml4 vaddr false s ≡ (null, s) → vmm_get_phys hhdm pml4 vaddr s ≡ 0
  unfolding vmm_get_phys
  phys_nothing d = rw d refl

-- Page tables stay well formed when a page is mapped, with the tables that the mapping adds, and a
-- lookup of the address then gives the page's address with the offset in it. Three pages to give
-- out are enough for that.
pub vmm_get_phys-map_page :
    (hhdm : ℕ) (lv : Levels) (pml4 vaddr paddr flags : ℕ) (s : Paging)
    → IsPaged hhdm lv s
    → lv pml4 ≡ 4
    → 3 ≤ length s.pages
    → AreFlags flags
    → (lv' : Levels) × IsPaged hhdm lv' (vmm_map_page hhdm pml4 vaddr paddr flags s)
      × (lv' pml4 ≡ 4)
      × (vmm_get_phys hhdm pml4 vaddr (vmm_map_page hhdm pml4 vaddr paddr flags s)
          ≡ address_bits paddr + vaddr % 4096)
vmm_get_phys-map_page hhdm lv pml4 vaddr paddr flags s w root enough fl =
    let (lv', w', k) = descend_allocates hhdm lv pml4 vaddr s w root enough in
    let r = descend hhdm pml4 vaddr true s in
    let v = page_entry paddr flags in
    let e = map-leaf hhdm lv pml4 vaddr s w root paddr flags r.0 lv' r.1 w' k refl in
    (
      lv',
      rw e (leaf-IsPaged hhdm lv' pml4 vaddr r.1 r.0 v w' k.pt_level),
      k.root_level,
      rw e (
          leaf_phys hhdm lv' pml4 vaddr r.1 r.0 v w' k
          ∙ rw (page_entry_present paddr flags, page_entry_address paddr flags fl) (omega arith)),
    )

-- Page tables stay well formed when a page is unmapped, and a lookup of the address then gives 0.
pub vmm_get_phys-unmap_page :
    (hhdm : ℕ) (lv : Levels) (pml4 vaddr : ℕ) (s : Paging)
    → IsPaged hhdm lv s
    → lv pml4 ≡ 4
    → IsPaged hhdm lv (vmm_unmap_page hhdm pml4 vaddr s)
      × (vmm_get_phys hhdm pml4 vaddr (vmm_unmap_page hhdm pml4 vaddr s) ≡ 0)
vmm_get_phys-unmap_page hhdm lv pml4 vaddr s w root =
    elim (descend_reads hhdm lv pml4 vaddr s w root) [
      | inl d ↦
          rw (unmap_nothing hhdm lv pml4 vaddr s w root d)
            (w, phys_nothing hhdm lv pml4 vaddr s w root d)
      | inr (pt, d, k) ↦ rw (unmap-leaf hhdm lv pml4 vaddr s w root pt k d) (
        leaf-IsPaged hhdm lv pml4 vaddr s pt 0 w k.pt_level,
        leaf_phys hhdm lv pml4 vaddr s pt 0 w k,
      )
    ]
