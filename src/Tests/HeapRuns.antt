-- ===== src/Tests/HeapRuns.antt =====
-- kernel/src/heap.c on a heap of one page at 4096.
use choco_os.Base.{ℕ, ◌+◌, ◌-◌, ◌^◌, ◌<◌, ◌≡◌, some, refl, Bool, true, false, [], ◌∷◌, arith}
use choco_os.Heap.{Heap, malloc, free}
use choco_os.Heap.Inv.{IsHeap}
use choco_os.Heap.Spec.{Allocates, malloc-Allocates, malloc_oversize}
use choco_os.Heap.Free.{Releases, free-Releases}

-- One block, free or in use, that fills the region.
abbrev page : Bool → Heap
page f = record {
  heap_head = 4096;
  mem = λ _. record { size = 4064; free = f; next = 0; prev = 0 };
  total_size = 4096;
  used_size = 0;
}

abbrev empty_page : Heap
empty_page = page true

abbrev full_page : Heap
full_page = record (page false) { used_size = 4096 }

empty_page-IsHeap : IsHeap empty_page (4096 ∷ [])
empty_page-IsHeap = record {
  pos = omega arith;
  aligned = refl;
  small = omega arith;
  chain = omega arith;
  used = refl;
  coalesced = (refl, tt);
}

full_page-IsHeap : IsHeap full_page (4096 ∷ [])
full_page-IsHeap = record {
  pos = omega arith;
  aligned = refl;
  small = omega arith;
  chain = omega arith;
  used = refl;
  coalesced = (refl, tt);
}

malloc-Allocates_example : Allocates empty_page (4096 ∷ []) 100 (malloc empty_page 100)
malloc-Allocates_example =
    malloc-Allocates empty_page (4096 ∷ []) 100 empty_page-IsHeap (omega arith) (omega arith)

free-Releases_example : Releases full_page (4096 ∷ []) 4096 (free full_page 4128)
free-Releases_example = free-Releases full_page (4096 ∷ []) 4096 full_page-IsHeap refl refl

malloc_oversize_example :
    (b : ℕ) × (h' : Heap) × (malloc empty_page (2 ^ 64 - 1) ≡ some (b + 32, h'))
    × ((h'.mem b).size < 2 ^ 64 - 1)
malloc_oversize_example =
    malloc_oversize empty_page (4096 ∷ []) (2 ^ 64 - 1) 4096 empty_page-IsHeap (omega arith)
      (omega arith) refl refl
