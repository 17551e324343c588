-- ===== src/Heap/Free.antt =====
-- What `free` of kernel/src/heap.c promises.
use choco_os.Base.{
  ℕ, ◌+◌, ◌<◌, ◌≡◌, refl, Bool, true, false, ◌==◌, List, ◌∷◌, ◌++◌, arith, Bool-cases, inl, inr,
  sub_word,
}
use choco_os.Heap.{Mem, Heap, null, hdr_size, coalesce, mark_free, coalesce_prev, release, free}
use choco_os.Heap.Chain.{Chain, has, before, after, Chain-has, Chain-prev}
use choco_os.Heap.Inv.{Coalesced, heap_end, IsHeap, used_by-le, used_by-has}
use choco_os.Heap.Merge.{Live, merged}
use choco_os.Heap.Freed.{
  Freed, freed_here, freed_after_used, freed_after_free, freed_heap, Freed-IsHeap, Freed-Live,
}

-- What a call of `free` on a block in use leaves.
abbrev pub Releases : Heap → List ℕ → ℕ → Heap → Type 0
Releases h xs b h' =
    (xs' : List ℕ) × IsHeap h' xs'
    × Live h.mem h'.mem xs xs' b
    × (h'.used_size + ((h.mem b).size + 32) ≡ h.used_size)

module _ (h : Heap) (xs : List ℕ) (b : ℕ) (i : IsHeap h xs) (hb : has b xs ≡ true)
    (fb : (h.mem b).free ≡ false) where
  account : (freed_heap h h.mem b).used_size + ((h.mem b).size + 32) ≡ h.used_size
  account =
      let have = used_by-has h.mem xs b hb fb in
      let all = used_by-le h.mem (heap_end h) xs null h.heap_head h.heap_head i.chain in
      let used = i.used in let small = i.small in omega arith

  abbrev m2' : Mem
  m2' = coalesce (mark_free h.mem b) b

  -- `b` is the first block.
  release_first : (h.mem b).prev ≡ null → xs ≡ b ∷ after b xs → Releases h xs b (release h b)
  unfolding release coalesce_prev
  release_first np e =
      let i' : IsHeap h (b ∷ after b xs) = rw e at i in
      let c = i'.chain in
      let pos = i'.pos in
      let hd : h.heap_head ≡ b = c.0 in
      let f : Freed h.mem m2' (heap_end h) null b b false (b ∷ after b xs)
          (b ∷ merged (mark_free h.mem b) b (after b xs)) =
        freed_here h.mem (heap_end h) null b (after b xs) (refl, refl, c.2, c.3, c.4) (omega arith)
          i'.small fb (rw fb at (i'.coalesced.1)) in
      let room = used_by-le h.mem (heap_end h) (b ∷ after b xs) null h.heap_head h.heap_head c in
      let used = i'.used in
      let small = i'.small in
      let u = f.used in
      rw (f.chain.2) (
        b ∷ merged (mark_free h.mem b) b (after b xs),
        record {
          pos = pos;
          aligned = i'.aligned;
          small = small;
          chain = rw hd f.chain;
          used = omega arith;
          coalesced = f.coalesced;
        },
        λ a ha ne fa. f.live a (rw e at ha) ne fa,
        account,
      )

  release_behind :
      has (h.mem b).prev xs ≡ true
      → after (h.mem b).prev xs ≡ b ∷ after b xs
      → 0 < (h.mem b).prev
      → (zs' : List ℕ)
      → ((q : ℕ) (g : Bool)
          → Chain h.mem
              (heap_end h)
              q
              (h.mem b).prev
              (h.mem b).prev
              ((h.mem b).prev ∷ b ∷ after b xs)
          → Coalesced h.mem g ((h.mem b).prev ∷ b ∷ after b xs)
          → Freed h.mem
              (coalesce_prev m2' b)
              (heap_end h)
              q
              (h.mem b).prev
              b
              g
              ((h.mem b).prev ∷ b ∷ after b xs)
              zs')
      → Releases h xs b (release h b)
  unfolding release
  release_behind hp e pos zs' freed =
      let freed' : (q : ℕ) (g : Bool)
          → Chain h.mem (heap_end h) q (h.mem b).prev (h.mem b).prev
              ((h.mem b).prev ∷ after (h.mem b).prev xs)
          → Coalesced h.mem g ((h.mem b).prev ∷ after (h.mem b).prev xs)
          → Freed h.mem (coalesce_prev m2' b) (heap_end h) q (h.mem b).prev b g
              ((h.mem b).prev ∷ after (h.mem b).prev xs) zs' =
        rw e freed in
      (
        before (h.mem b).prev xs ++ zs',
        Freed-IsHeap h xs zs' (coalesce_prev m2' b) (h.mem b).prev b i hp freed',
        Freed-Live h xs zs' (coalesce_prev m2' b) (h.mem b).prev b i hp freed',
        account,
      )

  release-Releases : Releases h xs b (release h b)
  release-Releases =
      let hpos = i.pos in
      let small = i.small in
      let p = (h.mem b).prev in
      elim (Chain-prev h.mem (heap_end h) xs null h.heap_head h.heap_head b i.chain hb) [
        | inl r ↦ release_first r.0 r.1
        | inr r ↦ elim (Bool-cases (h.mem p).free) [
          | inl fp ↦
              release_behind r.0 r.1 (omega arith) (p ∷ merged (mark_free h.mem b) b (after b xs))
                (λ q g c k.
                  freed_after_free h.mem (heap_end h) q p b g (after b xs) c (omega arith) small fb
                    k fp)
          | inr fp ↦
              release_behind r.0 r.1 (omega arith)
                (p ∷ b ∷ merged (mark_free h.mem b) b (after b xs))
                (λ q g c k.
                  freed_after_used h.mem (heap_end h) q p b g (after b xs) c (omega arith) small fb
                    k fp)
        ]
      ]

-- `free` of a block in use ends in a valid heap, coalesced again, in which every other block in use
-- still stands with its size, and its bytes with the header have left the account.
pub free-Releases :
    (h : Heap) (xs : List ℕ) (b : ℕ)
    → IsHeap h xs
    → has b xs ≡ true
    → (h.mem b).free ≡ false
    → Releases h xs b (free h (b + 32))
unfolding free
free-Releases h xs b i hb fb =
    let inside = Chain-has h.mem (heap_end h) xs null h.heap_head h.heap_head b i.chain hb in
    let small = i.small in
    let back : sub_word 64 (b + 32) hdr_size ≡ b = omega arith in
    let nn : ((b + 32) == null) ≡ false = ground arith in
    rw (nn, back, fb) (release-Releases h xs b i hb fb)
