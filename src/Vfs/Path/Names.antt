-- ===== src/Vfs/Path/Names.antt =====
-- kernel/src/vfs.c: the components of a path that is made of names.
use choco_os.Base.{
  ℕ, ◌+◌, ◌<◌, ◌≡◌, refl, sym, ap, ◌∙◌, true, false, ◌==◌, List, [], ◌∷◌, ◌++◌, length,
  length-append, arith, ltb,
}
use mathlib.Core.List.{append-nil, append_assoc}
use choco_os.Vfs.Path.{
  slash, skip_slashes, component, after_component, is_empty, is_dot, is_dot_dot, push_name,
}

abbrev pub NoSlash : List ℕ → Type 0
NoSlash [] = Unit {0}
NoSlash (c ∷ cs) = ((c == slash) ≡ false) × NoSlash cs

-- A name that a path can spell.
pub record IsName (name : List ℕ) : Type 0 where
  pub filled : is_empty name ≡ false
  pub plain : NoSlash name
  pub not_dot : is_dot name ≡ false
  pub not_dot_dot : is_dot_dot name ≡ false

-- Where a component ends.
abbrev pub AtSlash : List ℕ → Type 0
AtSlash [] = Unit {0}
AtSlash (c ∷ cs) = (c == slash) ≡ true

pub component-append :
    (name rest : List ℕ) → NoSlash name → AtSlash rest → component (name ++ rest) ≡ name
unfolding component
component-append [] [] h k = refl
component-append [] (c ∷ rest) h k = rw k refl
component-append (c ∷ name) rest h k = rw (h.0) (ap (◌∷◌ c) (component-append name rest h.1 k))

pub after_component-append :
    (name rest : List ℕ) → NoSlash name → AtSlash rest → after_component (name ++ rest) ≡ rest
unfolding after_component
after_component-append [] [] h k = refl
after_component-append [] (c ∷ rest) h k = rw k refl
after_component-append (c ∷ name) rest h k = rw (h.0) (after_component-append name rest h.1 k)

-- A name is not passed over as slashes.
pub skip_slashes-name :
    (name rest : List ℕ) → IsName name → skip_slashes (name ++ rest) ≡ name ++ rest
unfolding skip_slashes
skip_slashes-name [] rest n = cc (n.filled)
skip_slashes-name (c ∷ name) rest n = let p = n.plain in rw (p.0) refl

pub is_empty-append : (name rest : List ℕ) → IsName name → is_empty (name ++ rest) ≡ false
is_empty-append [] rest n = cc (n.filled)
is_empty-append (c ∷ name) rest n = refl

-- With room for a name, all of it is written.
pub push_name-fits :
    (size : ℕ) (out name : List ℕ)
    → length out + length name < size
    → push_name size out name ≡ out ++ name
unfolding push_name
push_name-fits size out [] h = sym (append-nil out)
push_name-fits size out (c ∷ cs) h =
    let room : ltb (length out + 1) size ≡ true = ground arith in
    rw room (
      push_name-fits size (out ++ c ∷ []) cs (omega (arith, length-append out (c ∷ [])))
      ∙ append_assoc out (c ∷ []) cs)
