-- ===== src/Vfs.antt =====
-- kernel/src/vfs.c: the in-memory filesystem, a tree of nodes with file data on the heap. A
-- `VfsNode *` is its address, 0 for NULL, and the nodes are a total map from addresses. A name is its
-- characters without the NUL, and the data of a file the `cap` bytes behind its pointer. What
-- `malloc` and `calloc` return is an argument: a block of that many bytes, whatever they hold, or the
-- address of a node.
pub mod Buffer
pub mod Write
pub mod Tree
pub mod Path
use choco_os.Base.{
  ℕ, zero, suc, ◌+◌, ◌-◌, ◌*◌, ◌%◌, ◌^◌, Bool, true, false, not, ◌&&◌, ◌||◌, ltb, leb, ◌==◌,
  if◌then◌else◌, Option, none, some, List, [], ◌∷◌, ◌++◌, length, get_or, set, take, add_word, ℤ,
  pos, negsuc, as_int,
}

pub record VfsNode : Type 0 where
  pub name : List ℕ
  pub is_dir : Bool
  pub readonly : Bool
  pub bytes : List ℕ
  pub size : ℕ
  pub cap : ℕ
  pub parent : ℕ
  pub children : ℕ
  pub next : ℕ

abbrev pub Nodes : Type 0
Nodes = ℕ → VfsNode

abbrev pub null : ℕ
null = 0

abbrev pub name_max : ℕ
name_max = 64

unfoldable pub store : Nodes → ℕ → VfsNode → Nodes
store m a n b = if b == a then n else m b

-- `memcpy` and `memset` into a file's data, from the index `i` on.
pub put : List ℕ → (i : ℕ) → List ℕ → List ℕ
put mem i [] = mem
put mem i (b ∷ bs) = put (set mem i b) (i + 1) bs

pub put_zeros : List ℕ → (i n : ℕ) → List ℕ
put_zeros mem i zero = mem
put_zeros mem i (suc n) = put_zeros (set mem i 0) (i + 1) n

-- `while (newcap < end) newcap *= 2;`
pub grow : (fuel : ℕ) → (newcap end : ℕ) → Option ℕ
grow zero newcap end = none
grow (suc fuel) newcap end =
    let rest = grow fuel (newcap * 2 % 2 ^ 64) end in if ltb newcap end then rest else some newcap

-- The file with the larger buffer `nd`, into which its bytes are copied.
pub enlarged : VfsNode → (newcap : ℕ) → List ℕ → VfsNode
unfolding put
enlarged f newcap nd = record f { bytes = put nd 0 (take f.size f.bytes); cap = newcap }

-- The file with room for `end` bytes, or nothing when there is no memory. The outer `none` is a loop
-- that has not ended.
pub reserve : (malloc : ℕ → Option (List ℕ)) → VfsNode → (end : ℕ) → Option (Option VfsNode)
unfolding grow enlarged
reserve malloc f end =
    let start = if f.cap == 0 then 64 else f.cap in
    let larger : Option (Option VfsNode) = elim (grow 64 start end) [
      | none ↦ none
      | some newcap ↦ elim (malloc newcap) [
        | none ↦ some none
        | some nd ↦ some (some (enlarged f newcap nd))
      ]
    ] in
    if ltb f.cap end then larger else some (some f)

-- The gap is filled with zeros, the bytes are copied, and the size grows.
pub filled : VfsNode → (buf : List ℕ) → (off end : ℕ) → VfsNode
unfolding put put_zeros
filled f buf off end =
    let gap = if ltb f.size off then put_zeros f.bytes f.size (off - f.size) else f.bytes in
    record f { bytes = put gap off buf; size = if ltb f.size end then end else f.size }

abbrev pub is_writable : VfsNode → Bool
is_writable f = not (f.is_dir || f.readonly)

-- The result of `vfs_write`, -1 or the length as an `int`, and the file.
abbrev pub written : VfsNode → (buf : List ℕ) → (off end : ℕ) → Option VfsNode → ℤ × VfsNode
written f buf off end none = (negsuc 0, f)
written f buf off end (some g) = (as_int (length buf), filled g buf off end)

-- `file` is the pointer and `f` the node it leads to.
pub vfs_write :
    (malloc : ℕ → Option (List ℕ))
    → (file : ℕ) → VfsNode
    → (buf : List ℕ) → (off : ℕ) → Option (ℤ × VfsNode)
unfolding reserve filled
vfs_write malloc file f buf off =
    let end = add_word 64 off (length buf) in
    let result : Option (ℤ × VfsNode) = elim (reserve malloc f end) [
      | none ↦ none
      | some r ↦ some (written f buf off end r)
    ] in
    if not (file == null) && is_writable f then result else some (negsuc 0, f)

pub vfs_truncate : (malloc : ℕ → Option (List ℕ)) → (file : ℕ) → VfsNode → ℕ → Option (ℤ × VfsNode)
unfolding vfs_write
vfs_truncate malloc file f size =
    let longer : Option (ℤ × VfsNode) = elim (vfs_write malloc file f (0 ∷ []) (size - 1)) [
      | none ↦ none
      | some r ↦ some ((elim r.0 [ pos n ↦ pos 0 | negsuc n ↦ negsuc 0 ]), r.1)
    ] in
    if (file == null) || not (is_writable f)
    then some (negsuc 0, f)
    else if leb size f.size
    then some (pos 0, record f { size = size })
    else longer

abbrev pub same_name : List ℕ → List ℕ → Bool
same_name [] [] = true
same_name [] (y ∷ ys) = false
same_name (x ∷ xs) [] = false
same_name (x ∷ xs) (y ∷ ys) = x == y && same_name xs ys

-- The result of a search: an address, 0 when nothing is found.
pub find_child : (fuel : ℕ) → Nodes → (c : ℕ) → List ℕ → Option ℕ
find_child zero m c name = none
find_child (suc fuel) m c name =
    let rest = find_child fuel m (m c).next name in
    if c == null then some null else if same_name (m c).name name then some c else rest

pub dir_find : (fuel : ℕ) → Nodes → (dir : ℕ) → List ℕ → Option ℕ
unfolding find_child
dir_find fuel m dir name = find_child fuel m (m dir).children name

-- A new node `n` in front of the directory's children.
pub link_child : Nodes → (dir n : ℕ) → List ℕ → Bool → Nodes
unfolding store
link_child m dir n name is_dir =
    let made : VfsNode = record {
      name = name;
      is_dir = is_dir;
      readonly = false;
      bytes = [];
      size = 0;
      cap = 0;
      parent = dir;
      children = null;
      next = (m dir).children;
    } in
    let m' = store m n made in store m' dir (record (m' dir) { children = n })

-- `n` is what `calloc` returns.
pub vfs_create : (fuel : ℕ) → (n : ℕ) → Nodes → (dir : ℕ) → List ℕ → Bool → Option (ℕ × Nodes)
unfolding dir_find link_child
vfs_create fuel n m dir name is_dir =
    let made : Option (ℕ × Nodes) = elim (dir_find fuel m dir name) [
      | none ↦ none
      | some c ↦ some (
          if not (c == null) || (n == null) then (null, m) else (n, link_child m dir n name is_dir))
    ] in
    if (dir == null) || not (m dir).is_dir
    then some (null, m)
    else if (length name == 0) || leb name_max (length name)
    then some (null, m)
    else made

-- The loop of `vfs_unlink` behind the child `c` of the list: the node whose `next` is `node`, 0 when
-- the list ends.
pub find_link : (fuel : ℕ) → Nodes → (c node : ℕ) → Option ℕ
find_link zero m c node = none
find_link (suc fuel) m c node =
    let rest = find_link fuel m (m c).next node in
    if c == null then some null else if (m c).next == node then some c else rest

-- The result of `vfs_unlink` and the nodes; freed nodes are left as they are.
pub vfs_unlink : (fuel root : ℕ) → Nodes → (node : ℕ) → Option (ℤ × Nodes)
unfolding find_link store
vfs_unlink fuel root m node =
    let dir = (m node).parent in
    let behind : Option (ℤ × Nodes) = elim (find_link fuel m (m dir).children node) [
      | none ↦ none
      | some c ↦ some (
          if c == null
          then (negsuc 0, m)
          else (pos 0, store m c (record (m c) { next = (m node).next })))
    ] in
    if (node == null) || (node == root)
    then some (negsuc 0, m)
    else if (m node).is_dir && not ((m node).children == null)
    then some (negsuc 0, m)
    else if (m dir).children == node
    then some (pos 0, store m dir (record (m dir) { children = (m node).next }))
    else behind
