-- ===== src/Vfs/Path/Resolve.antt =====
-- kernel/src/vfs.c: the walk down a path, and the way up from a node.
use mathlib.Core.List.{append-nil, append_assoc}
use choco_os.Base.{
  ℕ, zero, suc, ◌+◌, ◌≤◌, ◌<◌, ◌≡◌, ◌≢◌, refl, sym, ap, ◌∙◌, true, false, ◌==◌, some, none, List,
  [], ◌∷◌, ◌++◌, length, length-append, arith, ltb,
}
use choco_os.Vfs.{Nodes, null, dir_find}
use choco_os.Vfs.Tree.{Siblings, named, find_child-named}
use choco_os.Vfs.Path.{
  slash, skip_slashes, component, after_component, is_empty, next_node, walk_loop, climb,
  push_names,
}
use choco_os.Vfs.Path.Names.{
  IsName, AtSlash, component-append, after_component-append, skip_slashes-name, is_empty-append,
  push_name-fits,
}

-- The node `n` is a child of `cur`, the first with its name, and has a name that a path can spell.
pub record IsChild (fuel : ℕ) (m : Nodes) (cur n : ℕ) : Type 0 where
  pub above : (m n).parent ≡ cur
  pub below_node : cur ≢ null
  pub nonnull : n ≢ null
  pub name : IsName (m n).name
  pub children : List ℕ
  pub siblings : Siblings m (m cur).children children
  pub first : named m (m n).name children ≡ n
  pub room : length children < fuel

abbrev pub IsInner : Nodes → ℕ → List ℕ → Type 0
IsInner m n [] = Unit {0}
IsInner m n (k ∷ ks) = (m n).is_dir ≡ true

-- The nodes on the way from `cur` down to `node`.
abbrev pub IsPath : (fuel : ℕ) → Nodes → ℕ → List ℕ → ℕ → Type 0
IsPath fuel m cur [] node = cur ≡ node
IsPath fuel m cur (n ∷ ns) node = IsChild fuel m cur n × IsInner m n ns × IsPath fuel m n ns node

-- How their names are spelled.
abbrev pub path_text : Nodes → List ℕ → List ℕ
path_text m [] = []
path_text m (n ∷ ns) = slash ∷ ((m n).name ++ path_text m ns)

AtSlash-text : (m : Nodes) (ns : List ℕ) → AtSlash (path_text m ns)
AtSlash-text m [] = tt
AtSlash-text m (n ∷ ns) = refl

pub length-path_text : (m : Nodes) (ns : List ℕ) → length ns ≤ length (path_text m ns)
length-path_text m [] = omega arith
length-path_text m (n ∷ ns) =
    omega (arith, length-path_text m ns, length-append (m n).name (path_text m ns))

pub skip_slashes-text :
    (m : Nodes) (n : ℕ) (ns : List ℕ)
    → IsName (m n).name
    → skip_slashes (path_text m (n ∷ ns)) ≡ (m n).name ++ path_text m ns
unfolding skip_slashes
skip_slashes-text m n ns h = skip_slashes-name (m n).name (path_text m ns) h

skip_nothing : skip_slashes [] ≡ []
unfolding skip_slashes
skip_nothing = refl

next_node-child :
    (fuel : ℕ) (m : Nodes) (cur n : ℕ)
    → IsChild fuel m cur n
    → next_node fuel m cur (m n).name ≡ some n
unfolding next_node dir_find
next_node-child fuel m cur n c =
    let h = c.name in
    let find = find_child-named c.children fuel m (m cur).children (m n).name c.siblings c.room in
    rw (h.not_dot, h.not_dot_dot) (find ∙ ap some c.first)

module _ (fuel : ℕ) (m : Nodes) where
  walk_last :
      (rounds cur n : ℕ) (p : List ℕ)
      → component p ≡ (m n).name
      → skip_slashes (after_component p) ≡ []
      → IsChild fuel m cur n
      → walk_loop (suc rounds) fuel m false cur p ≡ some (n, none)
  unfolding walk_loop
  walk_last rounds cur n p name rest c =
      let nn : (n == null) ≡ false = ground (arith, c.nonnull) in
      rw (name, next_node-child fuel m cur n c) (rw (rest, nn) refl)

  walk_further :
      (rounds cur n : ℕ) (p q : List ℕ)
      → component p ≡ (m n).name
      → skip_slashes (after_component p) ≡ q
      → is_empty q ≡ false
      → (m n).is_dir ≡ true
      → IsChild fuel m cur n
      → walk_loop (suc rounds) fuel m false cur p ≡ walk_loop rounds fuel m false n q
  unfolding walk_loop
  walk_further rounds cur n p q name rest more dir c =
      let nn : (n == null) ≡ false = ground (arith, c.nonnull) in
      rw (name, next_node-child fuel m cur n c) (rw (rest, nn, more, dir) refl)

  pub walk_loop-path :
      (ns : List ℕ) (rounds cur n node : ℕ)
      → IsPath fuel m cur (n ∷ ns) node
      → length ns < rounds
      → walk_loop rounds fuel m false cur ((m n).name ++ path_text m ns) ≡ some (node, none)
  walk_loop-path ns zero cur n node h f = absurd (omega arith)
  walk_loop-path [] (suc rounds) cur n node h f =
      let name = h.0.name in
      rw (sym h.2) (
        walk_last rounds cur n ((m n).name ++ []) (component-append (m n).name [] name.plain tt)
          (ap skip_slashes (after_component-append (m n).name [] name.plain tt) ∙ skip_nothing) h.0)
  walk_loop-path (k ∷ ks) (suc rounds) cur n node h f =
      let name = h.0.name in
      let p = (m n).name ++ path_text m (k ∷ ks) in
      let next = h.2.0.name in
      walk_further rounds cur n p ((m k).name ++ path_text m ks)
        (component-append (m n).name (path_text m (k ∷ ks)) name.plain refl)
        (ap skip_slashes (after_component-append (m n).name (path_text m (k ∷ ks)) name.plain refl)
          ∙ skip_slashes-text m k ks next)
        (is_empty-append (m k).name (path_text m ks) next) h.1 h.0
      ∙ walk_loop-path ks rounds n k node h.2 (omega arith)

climb_step :
    (fuel : ℕ) (m : Nodes) (k cur n : ℕ) (stack : List ℕ)
    → IsChild fuel m cur n
    → climb (suc k) m n stack ≡ climb k m cur (n ∷ stack)
unfolding climb
climb_step fuel m k cur n stack c =
    let up = c.above in
    let nn : (cur == null) ≡ false = ground (arith, c.below_node) in rw (up, nn) refl

pub climb_stop :
    (m : Nodes) (k root : ℕ) (stack : List ℕ)
    → (m root).parent ≡ null
    → climb k m root stack ≡ stack
unfolding climb
climb_stop m zero root stack h = refl
climb_stop m (suc k) root stack h = rw h refl

-- Climbing from a node finds the nodes on the way down to it.
pub climb-path :
    (fuel : ℕ) (m : Nodes) (ns : List ℕ) (k cur node : ℕ) (stack : List ℕ)
    → IsPath fuel m cur ns node
    → climb (length ns + k) m node stack ≡ climb k m cur (ns ++ stack)
climb-path fuel m [] k cur node stack h = let z : 0 + k ≡ k = omega arith in rw (z, h) refl
climb-path fuel m (n ∷ ns) k cur node stack h =
    let z : suc (length ns) + k ≡ length ns + suc k = omega arith in
    rw z
      (climb-path fuel m ns (suc k) n node stack h.2 ∙ climb_step fuel m k cur n (ns ++ stack) h.0)

pub push_names-fits :
    (size : ℕ) (m : Nodes) (ns out : List ℕ)
    → length out + length (path_text m ns) < size
    → push_names size m out ns ≡ out ++ path_text m ns
unfolding push_names
push_names-fits size m [] out h = sym (append-nil out)
push_names-fits size m (n ∷ ns) out h =
    let name = (m n).name in
    let rest = path_text m ns in
    let out' = out ++ slash ∷ [] in
    let l = length-append name rest in
    let l' = length-append out (slash ∷ []) in
    let l'' = length-append out' name in
    let room : ltb (length out + 1) size ≡ true = ground arith in
    rw room (
      ap (λ o. push_names size m o ns) (push_name-fits size out' name (omega (arith, l, l')))
      ∙ push_names-fits size m ns (out' ++ name) (omega (arith, l, l', l''))
      ∙ append_assoc out' name rest
      ∙ append_assoc out (slash ∷ []) (name ++ rest))
