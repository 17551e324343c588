-- ===== src/Vfs/Tree.antt =====
-- kernel/src/vfs.c: the children of a directory.
use choco_os.Base.{
  ℕ, zero, suc, ◌<◌, ◌≡◌, ◌≢◌, refl, sym, ◌∙◌, Bool, true, false, not, ◌||◌, leb, ◌==◌,
  if◌then◌else◌, some, List, [], ◌∷◌, length, arith, Bool-cases, inl, inr, ==_refl, ap, subst,
  true≢false,
}
use choco_os.Vfs.{
  VfsNode, Nodes, null, name_max, store, same_name, find_child, dir_find, link_child, vfs_create,
}

-- The list of nodes that a chain of siblings runs through.
abbrev pub Siblings : Nodes → ℕ → List ℕ → Type 0
Siblings m c [] = c ≡ null
Siblings m c (n ∷ ns) = (c ≡ n) × (n ≢ null) × Siblings m (m n).next ns

abbrev pub has : ℕ → List ℕ → Bool
has a [] = false
has a (x ∷ xs) = a == x || has a xs

-- The first of some nodes with a name, 0 when there is none.
abbrev pub named : Nodes → List ℕ → List ℕ → ℕ
named m name [] = null
named m name (n ∷ ns) = let rest = named m name ns in if same_name (m n).name name then n else rest

pub same_name_refl : (xs : List ℕ) → same_name xs xs ≡ true
same_name_refl [] = refl
same_name_refl (x ∷ xs) = rw (==_refl x) (same_name_refl xs)

pub find_child-named :
    (ns : List ℕ) (fuel : ℕ) (m : Nodes) (c : ℕ) (name : List ℕ)
    → Siblings m c ns
    → length ns < fuel
    → find_child fuel m c name ≡ some (named m name ns)
unfolding find_child
find_child-named ns zero m c name s f = absurd (omega arith)
find_child-named [] (suc fuel) m c name s f = rw s refl
find_child-named (n ∷ ns) (suc fuel) m c name s f =
    let at = s.0 in
    let nn = s.1 in
    let nonnull : (n == null) ≡ false = ground arith in
    let ih = find_child-named ns fuel m (m n).next name s.2 (omega arith) in
    rw (at, nonnull)
      (elim (Bool-cases (same_name (m n).name name)) [ inl e ↦ rw e refl | inr e ↦ rw e ih ])

-- A directory and its children, none of them the directory.
pub record IsDir (m : Nodes) (dir : ℕ) (ns : List ℕ) : Type 0 where
  pub nonnull : dir ≢ null
  pub mark : (m dir).is_dir ≡ true
  pub siblings : Siblings m (m dir).children ns
  pub apart : has dir ns ≡ false

-- Nodes that agree but for what two addresses hold keep a chain of other nodes.
Siblings-agree :
    (ns : List ℕ) (m m' : Nodes) (c : ℕ)
    → ((a : ℕ) → has a ns ≡ true → (m' a).next ≡ (m a).next)
    → Siblings m c ns
    → Siblings m' c ns
Siblings-agree [] m m' c same s = s
Siblings-agree (n ∷ ns) m m' c same s =
    let e = same n (rw (==_refl n) refl) in
    (s.0, s.1, rw e (Siblings-agree ns m m' (m n).next (λ a h. same a (ground (arith, h))) s.2))

-- A node with a name in a directory that holds nothing: no bytes and no children. It can be written to.
pub record Empty (f : VfsNode) (called : List ℕ) (dir : ℕ) (directory : Bool) : Type 0 where
  pub name : f.name ≡ called
  pub parent : f.parent ≡ dir
  pub is_dir : f.is_dir ≡ directory
  pub size : (f.size ≡ 0) × (f.cap ≡ 0) × (f.bytes ≡ [])
  pub children : f.children ≡ null
  pub readonly : f.readonly ≡ false

module _ (m : Nodes) (dir n : ℕ) (name : List ℕ) (is_dir : Bool) where
  abbrev made : Nodes
  made = link_child m dir n name is_dir

  made-other : (a : ℕ) → (a == dir) ≡ false → (a == n) ≡ false → made a ≡ m a
  unfolding link_child store
  made-other a ed en = rw (ed, en) refl

  made-new :
      (n == dir) ≡ false
      → ((made n).name ≡ name)
        × ((made n).next ≡ (m dir).children)
        × ((made n).parent ≡ dir)
        × ((made n).is_dir ≡ is_dir)
  unfolding link_child store
  made-new e = rw (e, ==_refl n) (refl, refl, refl, refl)

  made-Empty : (n == dir) ≡ false → Empty (made n) name dir is_dir
  unfolding link_child store
  made-Empty e =
      rw (e, ==_refl n)
        (record {
          name = refl;
          parent = refl;
          is_dir = refl;
          size = (refl, refl, refl);
          children = refl;
          readonly = refl;
        })

  made-links : (dir == n) ≡ false → made dir ≡ record (m dir) { children = n }
  unfolding link_child store
  made-links e = rw (==_refl dir, e) refl

  made-dir : (dir == n) ≡ false → ((made dir).children ≡ n) × ((made dir).is_dir ≡ (m dir).is_dir)
  unfolding link_child store
  made-dir e = rw (==_refl dir, e) (refl, refl)

named-agree :
    (ns : List ℕ) (m m' : Nodes) (name : List ℕ)
    → ((a : ℕ) → has a ns ≡ true → (m' a).name ≡ (m a).name)
    → named m' name ns ≡ named m name ns
named-agree [] m m' name same = refl
named-agree (n ∷ ns) m m' name same =
    rw (same n (rw (==_refl n) refl), named-agree ns m m' name (λ a h. same a (ground (arith, h))))
      refl

-- What a call of `vfs_create` for a directory with the children `ns` returns, `n` being the new node.
pub data Creates (m : Nodes) (dir : ℕ) (ns : List ℕ) (n : ℕ) (name : List ℕ) (is_dir : Bool)
    : ℕ × Nodes → Type 0 where
  exists : named m name ns ≢ null → Creates m dir ns n name is_dir (null, m)
  created :
      (m' : Nodes)
      → named m name ns ≡ null
      → IsDir m' dir (n ∷ ns)
      → Empty (m' n) name dir is_dir
      → (m' dir ≡ record (m dir) { children = n })
      → ((other : List ℕ)
          → named m' other (n ∷ ns) ≡ (if same_name name other then n else named m other ns))
      → ((a : ℕ) → a ≢ n → a ≢ dir → m' a ≡ m a)
      → Creates m dir ns n name is_dir (n, m')

module _ (m : Nodes) (dir n : ℕ) (ns name : List ℕ) (is_dir : Bool) (d : IsDir m dir ns)
    (nonnull : n ≢ null) (fresh : has n ns ≡ false) (apart : n ≢ dir) where
  abbrev after : Nodes
  after = link_child m dir n name is_dir

  after-child : (a : ℕ) → has a ns ≡ true → after a ≡ m a
  after-child a h =
      let out = d.apart in
      let ed : (a == dir) ≡ false = elim (Bool-cases (a == dir)) [
        | inl e ↦
            let q : a ≡ dir = ground arith in
            absurd (true≢false (sym h ∙ ap (λ x. has x ns) q ∙ out))
        | inr e ↦ e
      ] in
      let en : (a == n) ≡ false = elim (Bool-cases (a == n)) [
        | inl e ↦
            let q : a ≡ n = ground arith in
            absurd (true≢false (sym h ∙ ap (λ x. has x ns) q ∙ fresh))
        | inr e ↦ e
      ] in
      made-other m dir n name is_dir a ed en

  link_child-created :
      named m name ns ≡ null → Creates m dir ns n name is_dir (n, link_child m dir n name is_dir)
  link_child-created missing =
      let nd : (n == dir) ≡ false = ground arith in
      let dn : (dir == n) ≡ false = ground arith in
      let new = made-new m dir n name is_dir nd in
      let old = made-dir m dir n name is_dir dn in
      created after missing
        (record {
          nonnull = d.nonnull;
          mark = old.1 ∙ d.mark;
          siblings = (
            old.0,
            nonnull,
            subst (λ c. Siblings after c ns) (sym new.1)
                (Siblings-agree ns m after (m dir).children
                  (λ a h. ap (λ (x : VfsNode). x.next) (after-child a h)) d.siblings),
          );
          apart = let out = d.apart in rw (dn, out) refl;
        })
        (made-Empty m dir n name is_dir nd) (made-links m dir n name is_dir dn)
        (λ other.
          rw
            (
              new.0,
              named-agree ns m after other (λ a h. ap (λ (x : VfsNode). x.name) (after-child a h)),
            )
            refl)
        (λ a an ad. made-other m dir n name is_dir a (ground arith) (ground arith))

-- `vfs_create` in a directory with valid children, for a name of 1 to 63 characters, with fuel for the
-- children, and given the address of a new node, ends: when a child has the name already it returns
-- NULL and changes nothing, and else the new node, which is the first child of the directory, writable,
-- with that name and with no bytes and no children; a search for the name finds it, a search for another
-- name what it found before, nothing of the directory has changed but its first child, and nothing of the
-- other nodes.
pub vfs_create-Creates :
    (fuel : ℕ) (m : Nodes) (dir n : ℕ) (ns name : List ℕ) (is_dir : Bool)
    → IsDir m dir ns
    → n ≢ null
    → has n ns ≡ false
    → n ≢ dir
    → 0 < length name
    → length name < 64
    → length ns < fuel
    → (r : ℕ × Nodes) × (vfs_create fuel n m dir name is_dir ≡ some r)
      × Creates m dir ns n name is_dir r
unfolding vfs_create dir_find
vfs_create-Creates fuel m dir n ns name is_dir d nonnull fresh apart some_name short room =
    let dir_there = d.nonnull in
    let mark = d.mark in
    let is_there : ((dir == null) || not (m dir).is_dir) ≡ false = ground arith in
    let fits : ((length name == 0) || leb name_max (length name)) ≡ false = ground arith in
    let nn : (n == null) ≡ false = ground arith in
    let find = find_child-named ns fuel m (m dir).children name d.siblings room in
    elim (Bool-cases (named m name ns == null)) [
      | inl e ↦
          let missing : named m name ns ≡ null = ground arith in
          (
            (n, link_child m dir n name is_dir),
            rw (is_there, fits, find) (rw (e, nn) refl),
            link_child-created m dir n ns name is_dir d nonnull fresh apart missing,
          )
      | inr e ↦ ((null, m), rw (is_there, fits, find) (rw e refl), exists (λ q. ground arith))
    ]
