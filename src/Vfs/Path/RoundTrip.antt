-- ===== src/Vfs/Path/RoundTrip.antt =====
-- kernel/src/vfs.c: the path that is printed of a node leads back to the node.
use mathlib.Core.List.{append-nil}
use choco_os.Base.{
  ℕ, zero, suc, ◌+◌, ◌-◌, ◌≤◌, ◌<◌, ◌≡◌, refl, sym, ap, ◌∙◌, false, ◌==◌, some, none, List, [], ◌∷◌,
  ◌++◌, length, take, length-append, arith, subst,
}
use choco_os.Vfs.{Nodes, null}
use choco_os.Vfs.Path.{slash, skip_slashes, walk, vfs_resolve, climb, push_names, vfs_node_path}
use choco_os.Vfs.Path.Names.{is_empty-append}
use choco_os.Vfs.Path.Resolve.{
  IsPath, path_text, length-path_text, skip_slashes-text, walk_loop-path, climb-path, climb_stop,
  push_names-fits,
}

parent-nonnull :
    (fuel : ℕ) (m : Nodes) (ns : List ℕ) (cur n node : ℕ)
    → IsPath fuel m cur (n ∷ ns) node
    → ((m node).parent == null) ≡ false
parent-nonnull fuel m [] cur n node h =
    let up = h.0.above in
    let below = h.0.below_node in
    subst (λ k. ((m k).parent == null) ≡ false) h.2 (ground (arith, up, below))
parent-nonnull fuel m (k ∷ ks) cur n node h = parent-nonnull fuel m ks n k node h.2

node_path-text :
    (fuel : ℕ) (m : Nodes) (root n : ℕ) (ns : List ℕ) (node size : ℕ)
    → IsPath fuel m root (n ∷ ns) node
    → (m root).parent ≡ null
    → length (n ∷ ns) ≤ 32
    → length (path_text m (n ∷ ns)) < size
    → vfs_node_path m node size ≡ path_text m (n ∷ ns)
unfolding vfs_node_path
node_path-text fuel m root n ns node size h top deep room =
    let all = n ∷ ns in
    let d = 32 - length all in
    let depth : 32 ≡ length all + d = omega arith in
    let climbed : climb 32 m node [] ≡ all =
      ap (λ k. climb k m node []) depth
      ∙ climb-path fuel m all d root node [] h
      ∙ climb_stop m d root (all ++ []) top
      ∙ append-nil all in
    rw (parent-nonnull fuel m ns root n node h)
      (ap (push_names size m []) climbed ∙ push_names-fits size m all [] (omega arith))

walk-text :
    (fuel root cwd : ℕ) (m : Nodes) (n : ℕ) (ns : List ℕ) (node : ℕ)
    → IsPath fuel m root (n ∷ ns) node
    → walk fuel root m (path_text m (n ∷ ns)) cwd false ≡ some (node, none)
unfolding walk
walk-text fuel root cwd m n ns node h =
    let name = h.0.name in
    let l = length-path_text m ns in
    let l' = length-append (m n).name (path_text m ns) in
    let walked =
      walk_loop-path fuel m ns (length (path_text m (n ∷ ns)) + 1) root n node h (omega arith) in
    rw (skip_slashes-text m n ns name)
      (rw (is_empty-append (m n).name (path_text m ns) name, walked) refl)

resolve_walked :
    (fuel root cwd : ℕ) (m : Nodes) (path : List ℕ) (node : ℕ)
    → walk fuel root m path cwd false ≡ some (node, none)
    → vfs_resolve fuel root m path cwd ≡ some node
unfolding vfs_resolve
resolve_walked fuel root cwd m path node e = rw (e, vfs_resolve) refl

take-nil : (k : ℕ) → take {A = ℕ} k [] ≡ []
take-nil zero = refl
take-nil (suc k) = refl

root-text :
    (m : Nodes) (root size : ℕ)
    → (m root).parent ≡ null
    → 2 ≤ size
    → vfs_node_path m root size ≡ slash ∷ []
unfolding vfs_node_path
root-text m root size top room =
    let e : size - 1 ≡ suc (size - 2) = omega arith in
    rw (top, e) (ap (◌∷◌ slash) (take-nil (size - 2)))

root-resolved :
    (fuel root cwd : ℕ) (m : Nodes) → vfs_resolve fuel root m (slash ∷ []) cwd ≡ some root
unfolding vfs_resolve walk skip_slashes
root-resolved fuel root cwd m = refl

-- `vfs_resolve` of the path that `vfs_node_path` prints of a node is the node, when each node on the
-- way down to it is the first child with its name, that name can be spelled in a path, the node lies
-- at most 32 levels down, and the buffer has room for the path and its NUL.
pub vfs_resolve-node_path :
    (fuel root cwd : ℕ) (m : Nodes) (ns : List ℕ) (node size : ℕ)
    → IsPath fuel m root ns node
    → (m root).parent ≡ null
    → length ns ≤ 32
    → 2 ≤ size
    → length (path_text m ns) < size
    → vfs_resolve fuel root m (vfs_node_path m node size) cwd ≡ some node
vfs_resolve-node_path fuel root cwd m [] node size h top deep some_room room = rw (sym h) (
    ap (λ p. vfs_resolve fuel root m p cwd) (root-text m root size top some_room)
    ∙ root-resolved fuel root cwd m)
vfs_resolve-node_path fuel root cwd m (n ∷ ns) node size h top deep some_room room =
    ap (λ p. vfs_resolve fuel root m p cwd)
      (node_path-text fuel m root n ns node size h top deep room)
    ∙ resolve_walked fuel root cwd m (path_text m (n ∷ ns)) node
        (walk-text fuel root cwd m n ns node h)
