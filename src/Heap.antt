-- ===== src/Heap.antt =====
-- kernel/src/heap.c: the first-fit kernel heap with coalescing.
-- A `Block *` is its address, 0 for NULL; the block headers are a total map from addresses, since C
-- reads whatever lies there. Payload bytes are the clients' and are not part of the state.
pub mod Chain
pub mod Free
pub mod Freed
pub mod Inv
pub mod Malloc
pub mod Merge
pub mod Spec
pub mod Take
use choco_os.Base.{
  ℕ, zero, suc, ◌+◌, ◌-◌, ◌*◌, ◌/◌, ◌%◌, ◌^◌, Bool, true, false, not, ◌&&◌, ◌||◌, ltb, leb, ◌==◌,
  if◌then◌else◌, add_word, sub_word, Option, none, some,
}

pub record Block : Type 0 where
  pub size : ℕ
  pub free : Bool
  pub next : ℕ
  pub prev : ℕ

abbrev pub Mem : Type 0
Mem = ℕ → Block

abbrev pub null : ℕ
null = 0

abbrev pub heap_max : ℕ
heap_max = 768 * 1024 * 1024

abbrev pub heap_min : ℕ
heap_min = 16 * 1024 * 1024

abbrev pub page_size : ℕ
page_size = 4096

abbrev pub alignment : ℕ
alignment = 16

-- `sizeof(Block)` is 32 on x86_64, already a multiple of 16.
abbrev pub hdr_size : ℕ
hdr_size = 32

-- The static variables of heap.c.
pub record Heap : Type 0 where
  pub heap_head : ℕ
  pub mem : Mem
  pub total_size : ℕ
  pub used_size : ℕ

-- `*p = b`
unfoldable pub store : Mem → ℕ → Block → Mem
store m p b a = if a == p then b else m a

abbrev pub set_prev : Mem → ℕ → ℕ → Mem
set_prev m p q = store m p (record (m p) { prev = q })

-- `(size + ALIGNMENT - 1) & ~(ALIGNMENT - 1)` on 64 bits
abbrev pub round_up : ℕ → ℕ
round_up size = add_word 64 size 15 / 16 * 16

pub data Search : Type 0 where
  found : ℕ → Search
  missing : Search
  out_of_fuel : Search

-- The `for` loop of `malloc` up to the block that it takes, at most `fuel` blocks long.
pub find_fit : ℕ → Mem → ℕ → ℕ → Search
find_fit zero m size b = out_of_fuel
find_fit (suc fuel) m size b =
    let rest = find_fit fuel m size (m b).next in
    if b == null then missing else if not (m b).free || ltb (m b).size size then rest else found b

-- The header that a split leaves behind the payload of `b`.
abbrev pub split_at : ℕ → ℕ → ℕ
split_at b size = add_word 64 (add_word 64 b hdr_size) size

-- The split: the writes of the C text, in its order.
pub split_block : Mem → ℕ → ℕ → Mem
unfolding store
split_block m b size =
    let split = split_at b size in
    let rest : Block = record {
      size = sub_word 64 (sub_word 64 (m b).size size) hdr_size;
      free = true;
      next = (m b).next;
      prev = b;
    } in
    let m1 = store m split rest in
    let m2 = if (m1 b).next == null then m1 else set_prev m1 (m1 b).next split in
    store m2 b (record (m2 b) { next = split; size = size })

-- What `malloc` does with the block it takes: the optional split, then `free = false`.
pub take_block : Mem → ℕ → ℕ → Mem
unfolding store
take_block m b size =
    let room = leb (add_word 64 (add_word 64 size hdr_size) alignment) (m b).size in
    let m' = if room then split_block m b size else m in store m' b (record (m' b) { free = false })

-- A call's result: a pointer and the new state, or `none` when the loop ran out of fuel.
abbrev pub Result : Type 0
Result = Option (ℕ × Heap)

-- A block takes at least a header of the region.
abbrev pub rounds : Heap → ℕ
rounds h = h.total_size / hdr_size + 1

pub grant : Heap → ℕ → Search → Result
grant h size (found b) =
    let m' = take_block h.mem b size in
    some (
      add_word 64 b hdr_size,
      record h { mem = m'; used_size = add_word 64 h.used_size (add_word 64 (m' b).size hdr_size) },
    )
grant h size missing = some (null, h)
grant h size out_of_fuel = none

pub malloc : Heap → ℕ → Result
malloc h size =
    if size == 0 || h.heap_head == null
    then some (null, h)
    else grant h (round_up size) (find_fit (rounds h) h.mem (round_up size) h.heap_head)

-- `coalesce_with_next`
pub coalesce : Mem → ℕ → Mem
unfolding store
coalesce m b =
    let n = (m b).next in
    if (n == null) || not ((m n).free && (m b).free)
    then m
    else let m1 = store m b (record (m b) {
      size = add_word 64 (m b).size (add_word 64 hdr_size (m n).size);
      next = (m n).next;
    }) in
      if (m1 n).next == null then m1 else set_prev m1 (m1 n).next b

-- `b->free = true`
pub mark_free : Mem → ℕ → Mem
unfolding store
mark_free m b = store m b (record (m b) { free = true })

-- `if (b->prev && b->prev->free) coalesce_with_next(b->prev)`
pub coalesce_prev : Mem → ℕ → Mem
coalesce_prev m b = let p = (m b).prev in if not (p == null) && (m p).free then coalesce m p else m

-- `free` on a block that is in use.
pub release : Heap → ℕ → Heap
release h b = record h {
  mem = coalesce_prev (coalesce (mark_free h.mem b) b) b;
  used_size = sub_word 64 h.used_size (add_word 64 (h.mem b).size hdr_size);
}

-- `free`; a NULL pointer and a block that is free already change nothing.
pub free : Heap → ℕ → Heap
free h ptr =
    let b = sub_word 64 ptr hdr_size in
    if ptr == null then h else if (h.mem b).free then h else release h b

-- `calloc`; its `memset` of the payload is not part of the state.
pub calloc : Heap → ℕ → ℕ → Result
calloc h num size =
    if not (num == 0) && ltb ((2 ^ 64 - 1) / num) size
    then some (null, h)
    else malloc h ((num * size) % 2 ^ 64)

-- `realloc` moves to the new block and frees the old one (the copy of the payload is the clients').
pub moved : ℕ → Result → Result
moved ptr none = none
moved ptr (some (np, h)) = some (np, if np == null then h else free h ptr)

pub realloc : Heap → ℕ → ℕ → Result
realloc h ptr size =
    if ptr == null
    then malloc h size
    else if size == 0
    then some (null, free h ptr)
    else if leb size (h.mem (sub_word 64 ptr hdr_size)).size
    then some (ptr, h)
    else moved ptr (malloc h size)

-- `heap_init`: `alloc pages` stands for `pmm_alloc_pages`, 0 when it finds no run. Six halvings
-- from HEAP_MAX fall below HEAP_MIN.
pub claim : (ℕ → ℕ) → ℕ → ℕ → ℕ × ℕ
claim alloc zero want = (0, want)
claim alloc (suc fuel) want =
    let rest = claim alloc fuel (want / 2) in
    if ltb want heap_min
    then (0, want)
    else if alloc (want / page_size) == 0
    then rest
    else (alloc (want / page_size), want)

pub heap_init : (ℕ → ℕ) → ℕ → Heap → Heap
unfolding store
heap_init alloc hhdm h =
    let (phys, want) = claim alloc 7 heap_max in
    let head = add_word 64 phys hhdm in
    if phys == 0 then h else record {
      heap_head = head;
      mem =
          store h.mem head
            (record { size = want - hdr_size; free = true; next = null; prev = null });
      total_size = want;
      used_size = 0;
    }
