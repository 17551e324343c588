-- ===== src/Tests/VfsRuns.antt =====
-- kernel/src/vfs.c on a file of 3 bytes, and on a directory with one child.
use choco_os.Base.{
  ℕ, ◌≡◌, refl, true, false, List, [], ◌∷◌, Option, some, arith, replicate, ℤ, length-replicate,
  ◌==◌, if◌then◌else◌, Bool,
}
use choco_os.Vfs.{VfsNode, Nodes, vfs_write, vfs_create}
use choco_os.Vfs.Write.{IsFile, Gives, Wrote, vfs_write-Wrote}
use choco_os.Vfs.Path.{vfs_resolve, vfs_node_path, climb, push_names, push_name}
use choco_os.Vfs.Path.Resolve.{IsChild}
use choco_os.Vfs.Path.RoundTrip.{vfs_resolve-node_path}
use choco_os.Vfs.Tree.{IsDir, Creates, vfs_create-Creates}

abbrev file : VfsNode
file = record {
  name = 97 ∷ [];
  is_dir = false;
  readonly = false;
  bytes = 1 ∷ 2 ∷ 3 ∷ [];
  size = 3;
  cap = 3;
  parent = 16;
  children = 0;
  next = 0;
}

file-IsFile : IsFile file
file-IsFile = record { fits = omega arith; room = refl; word = omega arith }

abbrev allocate : ℕ → Option (List ℕ)
allocate n = some (replicate n 255)

some_inj : (a b : List ℕ) → some a ≡ some b → a ≡ b
some_inj a b e = cc

allocate-Gives : Gives allocate
allocate-Gives n b e = rw⁻¹ (some_inj (replicate n 255) b e) (length-replicate n 255)

vfs_write-Wrote_example :
    (r : ℤ × VfsNode) × (vfs_write allocate 16 file (9 ∷ 8 ∷ []) 5 ≡ some r)
    × Wrote allocate file (9 ∷ 8 ∷ []) 5 r
vfs_write-Wrote_example =
    vfs_write-Wrote allocate 16 file (9 ∷ 8 ∷ []) 5 allocate-Gives file-IsFile (omega arith) refl
      (omega arith)

-- The directory at 16 with the file at 32.
abbrev nodes : Nodes
nodes = λ a. record file {
  is_dir = elim (Prim.Native.Nat.compare a 16) [ Prim.Native.Nat.Ordering.eq ↦ true | _ ↦ false ];
  children = 32;
}

nodes-IsDir : IsDir nodes 16 (32 ∷ [])
nodes-IsDir = record {
  nonnull = omega arith;
  mark = refl;
  siblings = (refl, omega arith, refl);
  apart = refl;
}

vfs_create-Creates_example :
    (r : ℕ × Nodes) × (vfs_create 2 48 nodes 16 (98 ∷ []) true ≡ some r)
    × Creates nodes 16 (32 ∷ []) 48 (98 ∷ []) true r
vfs_create-Creates_example =
    vfs_create-Creates 2 nodes 16 48 (32 ∷ []) (98 ∷ []) true nodes-IsDir (omega arith) refl
      (omega arith) (omega arith) (omega arith) (omega arith)

-- The root at 8 with the directory `a` at 16, in which the file `b` stands at 24.
abbrev node_of : (name : List ℕ) → Bool → (parent children : ℕ) → VfsNode
node_of name is_dir parent children = record {
  name = name;
  is_dir = is_dir;
  readonly = false;
  bytes = [];
  size = 0;
  cap = 0;
  parent = parent;
  children = children;
  next = 0;
}

abbrev tree : Nodes
tree a =
    if a == 8
    then node_of (47 ∷ []) true 0 16
    else if a == 16
    then node_of (97 ∷ []) true 8 24
    else node_of (98 ∷ []) false 16 0

a-IsChild : IsChild 4 tree 8 16
a-IsChild = record {
  above = refl;
  below_node = omega arith;
  nonnull = omega arith;
  name = record { filled = refl; plain = (refl, tt); not_dot = refl; not_dot_dot = refl };
  children = 16 ∷ [];
  siblings = (refl, omega arith, refl);
  first = refl;
  room = omega arith;
}

b-IsChild : IsChild 4 tree 16 24
b-IsChild = record {
  above = refl;
  below_node = omega arith;
  nonnull = omega arith;
  name = record { filled = refl; plain = (refl, tt); not_dot = refl; not_dot_dot = refl };
  children = 24 ∷ [];
  siblings = (refl, omega arith, refl);
  first = refl;
  room = omega arith;
}

vfs_resolve-node_path_example : vfs_resolve 4 8 tree (vfs_node_path tree 24 128) 16 ≡ some 24
vfs_resolve-node_path_example =
    vfs_resolve-node_path 4 8 16 tree (16 ∷ 24 ∷ []) 24 128 (a-IsChild, refl, (b-IsChild, tt, refl))
      refl (omega arith) (omega arith) (omega arith)

node_path_run : vfs_node_path tree 24 128 ≡ 47 ∷ 97 ∷ 47 ∷ 98 ∷ []
unfolding vfs_node_path climb push_names push_name
node_path_run = refl
