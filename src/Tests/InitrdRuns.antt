-- ===== src/Tests/InitrdRuns.antt =====
-- kernel/src/initrd.c on an archive with the directory `a` and the end.
use choco_os.Base.{ℕ, ◌≡◌, refl, true, false, [], ◌∷◌, some, ◌==◌, if◌then◌else◌}
use choco_os.Vfs.{Nodes}
use choco_os.Initrd.{octal_to_int, split_last}

abbrev root_only : Nodes
root_only a = record {
  name = [];
  is_dir = true;
  readonly = false;
  bytes = [];
  size = 0;
  cap = 0;
  parent = 0;
  children = 0;
  next = 0;
}

abbrev archive : ℕ → ℕ
archive i = if i == 0 then 97 else if i == 156 then 53 else 0

split_run : split_last (97 ∷ 47 ∷ 98 ∷ 47 ∷ 99 ∷ []) ≡ some (97 ∷ 47 ∷ 98 ∷ [], 99 ∷ [])
unfolding split_last
split_run = refl

octal_run : octal_to_int (λ i. if i == 2 then 32 else 49) 0 12 ≡ 9
unfolding octal_to_int
octal_run = refl
