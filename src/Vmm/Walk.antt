-- ===== src/Vmm/Walk.antt =====
-- kernel/src/vmm.c: what a lookup finds after a page was mapped or unmapped.
use choco_os.Base.{
  ℕ, ◌+◌, ◌%◌, ◌≤◌, ◌<◌, ◌≡◌, ◌≢◌, sym, ap, ◌∙◌, Bool, true, false, ◌==◌, arith, ==_refl,
  if◌then◌else◌, length,
}
use choco_os.Vmm.{
  null, address_bits, is_present, Paging, entry_at, write, get_next_level, descend, pml4_index,
  pdp_index, pd_index, pt_index, vmm_get_phys,
}
use choco_os.Vmm.Tables.{
  Levels, IsPaged, Leads, Grows, no_memory, led, get_next_level-Stepped, get_next_level-Leads,
}

-- The entries of three tables lead from the root to the last table of an address.
pub record Walks (hhdm : ℕ) (lv : Levels) (s : Paging) (pml4 vaddr pt : ℕ) : Type 0 where
  pub pdp : ℕ
  pub pd : ℕ
  pub first : Leads hhdm s pml4 (pml4_index vaddr) pdp
  pub second : Leads hhdm s pdp (pdp_index vaddr) pd
  pub third : Leads hhdm s pd (pd_index vaddr) pt
  pub root_level : lv pml4 ≡ 4
  pub pdp_level : lv pdp ≡ 3
  pub pd_level : lv pd ≡ 2
  pub pt_level : lv pt ≡ 1

Leads-Grows :
    (hhdm : ℕ) (lv lv' : Levels) (s s' : Paging) (t i a j n : ℕ)
    → Grows lv lv' s s' t i
    → lv a ≢ 0
    → j < 512
    → a ≢ t
    → Leads hhdm s a j n
    → Leads hhdm s' a j n
Leads-Grows hhdm lv lv' s s' t i a j n g h hj ne l = rw (g.same a j h hj ne) l

ne_of_level : (lv : Levels) (a b : ℕ) → lv a ≢ lv b → a ≢ b
ne_of_level lv a b h e = h (ap lv e)

module _ (hhdm : ℕ) (lv : Levels) (pml4 vaddr : ℕ) where
  pub descend-Walks :
      (allocate : Bool) (s : Paging) (pt : ℕ)
      → IsPaged hhdm lv s
      → Walks hhdm lv s pml4 vaddr pt
      → descend hhdm pml4 vaddr allocate s ≡ (pt, s)
  unfolding descend
  descend-Walks allocate s pt w k =
      let a = get_next_level-Leads hhdm s pml4 (pml4_index vaddr) k.pdp allocate k.first in
      let b = get_next_level-Leads hhdm s k.pdp (pdp_index vaddr) k.pd allocate k.second in
      let c = get_next_level-Leads hhdm s k.pd (pd_index vaddr) pt allocate k.third in
      let nz : (k.pdp == null) ≡ false = ground (arith, w.table k.pdp, k.pdp_level) in
      let nz' : (k.pd == null) ≡ false = ground (arith, w.table k.pd, k.pd_level) in
      rw a (rw b (rw (nz, nz') c))

  -- With three pages to give out, the tables of any address can be reached or made.
  pub descend_allocates :
      (s : Paging)
      → IsPaged hhdm lv s
      → lv pml4 ≡ 4
      → 3 ≤ length s.pages
      → let r = descend hhdm pml4 vaddr true s in
        (lv' : Levels) × IsPaged hhdm lv' r.1 × Walks hhdm lv' r.1 pml4 vaddr r.0
  unfolding descend
  descend_allocates s w root enough =
      let i1 = pml4_index vaddr in
      let i2 = pdp_index vaddr in
      let i3 = pd_index vaddr in
      elim (get_next_level-Stepped hhdm lv s w pml4 i1 2 root (omega arith)) [
        | no_memory z e ↦ absurd (omega (arith, ap length e))
        | led lv1 w1 l1 lead1 g1 len1 ↦
            let r1 = get_next_level hhdm pml4 i1 true s in
            let nz1 : (r1.0 == null) ≡ false = ground (arith, w1.table r1.0, l1) in
            let st2 = get_next_level-Stepped hhdm lv1 r1.1 w1 r1.0 i2 1 l1 (omega arith) in
            elim st2 [
              | no_memory z e ↦ absurd (omega (arith, ap length e))
              | led lv2 w2 l2 lead2 g2 len2 ↦
                  let r2 = get_next_level hhdm r1.0 i2 true r1.1 in
                  let nz2 : (r2.0 == null) ≡ false = ground (arith, w2.table r2.0, l2) in
                  let st3 = get_next_level-Stepped hhdm lv2 r2.1 w2 r2.0 i3 0 l2 (omega arith) in
                  elim st3 [
                    | no_memory z e ↦ absurd (omega (arith, ap length e))
                    | led lv3 w3 l3 lead3 g3 len3 ↦
                        let r3 = get_next_level hhdm r2.0 i3 true r2.1 in
                        let a1 : lv1 pml4 ≡ 4 = g1.extends pml4 (omega arith) ∙ root in
                        let a2 : lv2 pml4 ≡ 4 = g2.extends pml4 (omega arith) ∙ a1 in
                        let a3 : lv3 pml4 ≡ 4 = g3.extends pml4 (omega arith) ∙ a2 in
                        let b2 : lv2 r1.0 ≡ 3 = g2.extends r1.0 (omega arith) ∙ l1 in
                        let b3 : lv3 r1.0 ≡ 3 = g3.extends r1.0 (omega arith) ∙ b2 in
                        let c3 : lv3 r2.0 ≡ 2 = g3.extends r2.0 (omega arith) ∙ l2 in
                        let first2 : Leads hhdm r2.1 pml4 i1 r1.0 =
                          Leads-Grows hhdm lv1 lv2 r1.1 r2.1 r1.0 i2 pml4 i1 r1.0 g2 (omega arith)
                            (omega arith) (ne_of_level lv1 pml4 r1.0 (omega arith)) lead1 in
                        let first3 : Leads hhdm r3.1 pml4 i1 r1.0 =
                          Leads-Grows hhdm lv2 lv3 r2.1 r3.1 r2.0 i3 pml4 i1 r1.0 g3 (omega arith)
                            (omega arith) (ne_of_level lv2 pml4 r2.0 (omega arith)) first2 in
                        let second3 : Leads hhdm r3.1 r1.0 i2 r2.0 =
                          Leads-Grows hhdm lv2 lv3 r2.1 r3.1 r2.0 i3 r1.0 i2 r2.0 g3 (omega arith)
                            (omega arith) (ne_of_level lv2 r1.0 r2.0 (omega arith)) lead2 in
                        rw (nz1, nz2)
                          (
                            lv3,
                            w3,
                            record {
                              pdp = r1.0;
                              pd = r2.0;
                              first = first3;
                              second = second3;
                              third = lead3;
                              root_level = a3;
                              pdp_level = b3;
                              pd_level = c3;
                              pt_level = l3;
                            },
                          )
                  ]
            ]
      ]

  -- A write to an entry of the last table.
  unfoldable pub leaf : Paging → (pt v : ℕ) → Paging
  unfolding write
  leaf s pt v = record s { words = write s.words (entry_at pt (pt_index vaddr)) v }

  leaf_same :
      (s : Paging) (pt v a j : ℕ)
      → IsPaged hhdm lv s
      → lv pt ≡ 1
      → lv a ≢ 0
      → lv a ≢ 1
      → j < 512
      → (leaf s pt v).words (entry_at a j) ≡ s.words (entry_at a j)
  unfolding leaf write
  leaf_same s pt v a j w l h h' hj = ground (arith, w.table a, w.table pt, ne_of_level lv a pt)

  pub leaf-IsPaged :
      (s : Paging) (pt v : ℕ) → IsPaged hhdm lv s → lv pt ≡ 1 → IsPaged hhdm lv (leaf s pt v)
  unfolding leaf
  leaf-IsPaged s pt v w l = record {
    direct = w.direct;
    table = w.table;
    child = λ t k i lt hi pr.
        let e = leaf_same s pt v t i w l (omega arith) (omega arith) hi in
        rw e (w.child t k i lt hi (rw (sym e) pr));
    free = w.free;
  }

  leaf-Walks :
      (s : Paging) (pt v : ℕ)
      → IsPaged hhdm lv s
      → Walks hhdm lv s pml4 vaddr pt
      → Walks hhdm lv (leaf s pt v) pml4 vaddr pt
  leaf-Walks s pt v w k =
      let same = leaf_same s pt v in
      let l1 = k.root_level in
      let l2 = k.pdp_level in
      let l3 = k.pd_level in
      let p = k.pt_level in
      record {
        pdp = k.pdp;
        pd = k.pd;
        first =
            rw (same pml4 (pml4_index vaddr) w p (omega arith) (omega arith) (omega arith)) k.first;
        second =
            rw (same k.pdp (pdp_index vaddr) w p (omega arith) (omega arith) (omega arith))
              k.second;
        third =
            rw (same k.pd (pd_index vaddr) w p (omega arith) (omega arith) (omega arith)) k.third;
        root_level = k.root_level;
        pdp_level = k.pdp_level;
        pd_level = k.pd_level;
        pt_level = k.pt_level;
      }

  pub leaf_phys :
      (s : Paging) (pt v : ℕ)
      → IsPaged hhdm lv s
      → Walks hhdm lv s pml4 vaddr pt
      → vmm_get_phys hhdm pml4 vaddr (leaf s pt v)
        ≡ (if is_present v then address_bits v + vaddr % 4096 else 0)
  unfolding vmm_get_phys leaf write
  leaf_phys s pt v w k =
      let nz : (pt == null) ≡ false = ground (arith, w.table pt, k.pt_level) in
      let d =
        descend-Walks false (leaf s pt v) pt (leaf-IsPaged s pt v w k.pt_level)
          (leaf-Walks s pt v w k) in
      rw d (rw (nz, ==_refl (entry_at pt (pt_index vaddr))) (ground arith))
