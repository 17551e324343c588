-- ===== src/Vfs/Path.antt =====
-- kernel/src/vfs.c: paths. A path is its characters without the NUL, and a pointer into it is what is
-- left of it. `fuel` is for the children of a directory.
pub mod Names
pub mod Resolve
pub mod RoundTrip
use choco_os.Base.{
  ℕ, zero, suc, ◌+◌, ◌-◌, Bool, true, false, not, ◌&&◌, ◌||◌, ltb, leb, ◌==◌, if◌then◌else◌, Option,
  none, some, List, [], ◌∷◌, ◌++◌, length, take,
}
use choco_os.Vfs.{VfsNode, Nodes, null, name_max, same_name, dir_find, vfs_create}

abbrev pub slash : ℕ
slash = 47

abbrev pub dot : ℕ
dot = 46

-- `while (*p == '/') p++;`
pub skip_slashes : List ℕ → List ℕ
skip_slashes [] = []
skip_slashes (c ∷ cs) = let rest = skip_slashes cs in if c == slash then rest else c ∷ cs

-- `while (*p && *p != '/') p++;`: what is passed over, and what is left.
pub component : List ℕ → List ℕ
component [] = []
component (c ∷ cs) = let rest = component cs in if c == slash then [] else c ∷ rest

pub after_component : List ℕ → List ℕ
after_component [] = []
after_component (c ∷ cs) = let rest = after_component cs in if c == slash then c ∷ cs else rest

abbrev pub is_empty : List ℕ → Bool
is_empty [] = true
is_empty (c ∷ cs) = false

abbrev pub starts_with_slash : List ℕ → Bool
starts_with_slash [] = false
starts_with_slash (c ∷ cs) = c == slash

abbrev pub is_dot : List ℕ → Bool
is_dot name = same_name name (dot ∷ [])

abbrev pub is_dot_dot : List ℕ → Bool
is_dot_dot name = same_name name (dot ∷ dot ∷ [])

abbrev pub parent_of : Nodes → ℕ → ℕ
parent_of m cur = if (m cur).parent == null then cur else (m cur).parent

-- The node that one component leads to.
pub next_node : (fuel : ℕ) → Nodes → (cur : ℕ) → List ℕ → Option ℕ
next_node fuel m cur name =
    if is_dot name
    then some cur
    else if is_dot_dot name
    then some (parent_of m cur)
    else dir_find fuel m cur name

-- A result of `walk`: the node, 0 for NULL, and `*leaf`.
abbrev pub Walked : Type 0
Walked = ℕ × Option (List ℕ)

-- The endless loop of `walk`. Each round passes over at least one character, so `rounds` that exceed
-- the length of `p` are enough.
pub walk_loop :
    (rounds fuel : ℕ) → Nodes → (stop_at_last : Bool) → (cur : ℕ) → List ℕ → Option Walked
walk_loop zero fuel m stop_at_last cur p = none
walk_loop (suc rounds) fuel m stop_at_last cur p =
    let name = component p in
    let rest = skip_slashes (after_component p) in
    let is_last = is_empty rest in
    let further : Option Walked = elim (next_node fuel m cur name) [
      | none ↦ none
      | some nxt ↦
          let more = walk_loop rounds fuel m stop_at_last nxt rest in
          if (nxt == null) || (not is_last && not (m nxt).is_dir)
          then some (null, none)
          else if is_last
          then some (nxt, none)
          else more
    ] in
    if is_last && stop_at_last then some (cur, some p) else further

abbrev pub start_node : (root cwd : ℕ) → List ℕ → ℕ
start_node root cwd path =
    if starts_with_slash path then root else if cwd == null then root else cwd

pub walk : (fuel root : ℕ) → Nodes → List ℕ → (cwd : ℕ) → (stop_at_last : Bool) → Option Walked
walk fuel root m path cwd stop_at_last =
    let cur = start_node root cwd path in
    let p = skip_slashes path in
    let found = walk_loop (length path + 1) fuel m stop_at_last cur p in
    if is_empty p then some (if stop_at_last then null else cur, none) else found

pub vfs_resolve : (fuel root : ℕ) → Nodes → List ℕ → (cwd : ℕ) → Option ℕ
vfs_resolve fuel root m path cwd = elim (walk fuel root m path cwd false) [
  | none ↦ none
  | some r ↦ some (r.0)
]

pub vfs_resolve_parent : (fuel root : ℕ) → Nodes → List ℕ → (cwd : ℕ) → Option Walked
vfs_resolve_parent fuel root m path cwd = walk fuel root m path cwd true

-- A node, 0 for NULL, with the nodes as they are then, and the addresses that `calloc` will still
-- return.
abbrev pub Made : Type 0
Made = ℕ × Nodes × List ℕ

-- `vfs_create` with the first of the addresses; without one `calloc` returns NULL.
pub create_next :
    (fuel : ℕ) → (fresh : List ℕ) → Nodes → (dir : ℕ) → List ℕ → (is_dir : Bool) → Option Made
create_next fuel [] m dir name is_dir = some (null, m, [])
create_next fuel (n ∷ ns) m dir name is_dir = elim (vfs_create fuel n m dir name is_dir) [
  | none ↦ none
  | some (f, m') ↦ some (f, m', if f == null then n ∷ ns else ns)
]

-- The loop of `vfs_mkdirs`.
pub mkdirs_loop : (rounds fuel : ℕ) → (fresh : List ℕ) → Nodes → (cur : ℕ) → List ℕ → Option Made
mkdirs_loop zero fuel fresh m cur p = none
mkdirs_loop (suc rounds) fuel fresh m cur p =
    let name = component p in
    let rest = skip_slashes (after_component p) in
    let stay = mkdirs_loop rounds fuel fresh m cur rest in
    let up = mkdirs_loop rounds fuel fresh m (parent_of m cur) rest in
    let enter = λ (made : Made).
      let more = mkdirs_loop rounds fuel made.2 made.1 made.0 rest in
      if (made.0 == null) || not (made.1 made.0).is_dir
      then some (null, made.1, made.2)
      else more in
    let make : Option Made = elim (create_next fuel fresh m cur name true) [
      | none ↦ none
      | some made ↦ enter made
    ] in
    let named : Option Made = elim (dir_find fuel m cur name) [
      | none ↦ none
      | some nxt ↦
          let entered = enter (nxt, m, fresh) in
          if not (nxt == null)
          then entered
          else if leb name_max (length name)
          then some (null, m, fresh)
          else make
    ] in
    if is_empty p
    then some (cur, m, fresh)
    else if is_dot name
    then stay
    else if is_dot_dot name
    then up
    else named

pub vfs_mkdirs : (fuel root : ℕ) → (fresh : List ℕ) → Nodes → List ℕ → (cwd : ℕ) → Option Made
vfs_mkdirs fuel root fresh m path cwd =
    mkdirs_loop (length path + 1) fuel fresh m (start_node root cwd path) (skip_slashes path)

-- The nodes from `n` up to below the root, the highest first, at most `depth` of them.
unfoldable pub climb : (depth : ℕ) → Nodes → (n : ℕ) → List ℕ → List ℕ
climb zero m n stack = stack
climb (suc depth) m n stack =
    let more = climb depth m (m n).parent (n ∷ stack) in
    if (m n).parent == null then stack else more

-- `if (pos + 1 < size) buf[pos++] = c;`
abbrev pub push_char : (size : ℕ) → List ℕ → ℕ → List ℕ
push_char size out c = if ltb (length out + 1) size then out ++ c ∷ [] else out

unfoldable pub push_name : (size : ℕ) → List ℕ → List ℕ → List ℕ
push_name size out [] = out
push_name size out (c ∷ cs) = push_name size (push_char size out c) cs

unfoldable pub push_names : (size : ℕ) → Nodes → List ℕ → List ℕ → List ℕ
push_names size m out [] = out
push_names size m out (n ∷ ns) =
    push_names size m (push_name size (push_char size out slash) (m n).name) ns

-- What stands in the buffer before the NUL.
unfoldable pub vfs_node_path : Nodes → (node size : ℕ) → List ℕ
vfs_node_path m node size =
    if (m node).parent == null
    then take (size - 1) (slash ∷ [])
    else push_names size m [] (climb 32 m node [])
