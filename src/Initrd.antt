-- ===== src/Initrd.antt =====
-- kernel/src/initrd.c: the files of the tar archive and the modules that the bootloader loads. The
-- archive is the byte at each offset from `base`, and a module's path its characters without the
-- NUL. The file system is its nodes with the addresses that `calloc` will still return.
pub mod Offsets
use choco_os.Base.{
  ℕ, zero, suc, ◌+◌, ◌-◌, ◌*◌, ◌/◌, ◌%◌, ◌^◌, Bool, true, false, not, ◌&&◌, ◌||◌, ltb, leb, ◌==◌,
  if◌then◌else◌, Option, none, some, List, [], ◌∷◌, ◌++◌, length, take, drop, add_word, codes,
}
use choco_os.Vfs.{VfsNode, Nodes, null, store, same_name, vfs_write}
use choco_os.Vfs.Path.{Made, slash, dot, create_next, vfs_mkdirs}

-- `limine_file`: what the code reads of it, with the bytes from `address` on.
pub record Module : Type 0 where
  pub path : List ℕ
  pub bytes : ℕ → ℕ
  pub size : ℕ

abbrev pub ends_with : List ℕ → List ℕ → Bool
ends_with path name =
    leb (length name) (length path) && same_name (drop (length path - length name) path) name

pub module_find : List Module → List ℕ → Option Module
module_find [] name = none
module_find (f ∷ fs) name =
    let rest = module_find fs name in if ends_with f.path name then some f else rest

abbrev pub is_octal : ℕ → Bool
is_octal c = leb 48 c && leb c 55

-- The loop of `octal_to_int` with `len` characters left.
pub octal_loop : (len : ℕ) → (s : ℕ → ℕ) → (i v : ℕ) → ℕ
octal_loop zero s i v = v
octal_loop (suc len) s i v =
    let rest = octal_loop len s (i + 1) ((v * 8 + (s i - 48)) % 2 ^ 64) in
    if is_octal (s i) then rest else v

unfoldable pub octal_to_int : (s : ℕ → ℕ) → (start len : ℕ) → ℕ
unfolding octal_loop
octal_to_int s start len = octal_loop len s start 0

-- The string of at most `len` characters at `i`.
pub string_at : (len : ℕ) → (s : ℕ → ℕ) → (i : ℕ) → List ℕ
string_at zero s i = []
string_at (suc len) s i = let rest = string_at len s (i + 1) in if s i == 0 then [] else s i ∷ rest

pub bytes_at : (len : ℕ) → (s : ℕ → ℕ) → (i : ℕ) → List ℕ
bytes_at zero s i = []
bytes_at (suc len) s i = s i ∷ bytes_at len s (i + 1)

-- Strips a leading "./".
abbrev pub clean_name : List ℕ → List ℕ
clean_name [] = []
clean_name (c ∷ []) = c ∷ []
clean_name (c ∷ d ∷ cs) = if c == dot && d == slash then cs else c ∷ d ∷ cs

-- `strrchr(clean, '/')`: what stands before the last slash, and what behind it.
unfoldable pub split_last : List ℕ → Option (List ℕ × List ℕ)
split_last [] = none
split_last (c ∷ cs) = elim (split_last cs) [
  | some (dir, leaf) ↦ some (c ∷ dir, leaf)
  | none ↦ if c == slash then some ([], cs) else none
]

-- The directory of a file, made where it is missing, and the file's name in it.
pub place_of : (fuel root : ℕ) → (fresh : List ℕ) → Nodes → List ℕ → Option (Made × List ℕ)
place_of fuel root fresh m clean = elim (split_last clean) [
  | none ↦ some ((root, m, fresh), clean)
  | some (path, leaf) ↦ elim (vfs_mkdirs fuel root fresh m path root) [
    | none ↦ none
    | some made ↦ some (made, leaf)
  ]
]

-- `if (f && fsize > 0) vfs_write(f, …, 0, fsize);`
pub fill_file : (malloc : ℕ → Option (List ℕ)) → Made → List ℕ → Option (Nodes × List ℕ)
fill_file malloc made bytes =
    let written : Option (Nodes × List ℕ) = elim (vfs_write malloc made.0 (made.1 made.0) bytes 0) [
      | none ↦ none
      | some r ↦ some (store made.1 made.0 r.1, made.2)
    ] in
    if (made.0 == null) || (length bytes == 0) then some (made.1, made.2) else written

pub load_file :
    (malloc : ℕ → Option (List ℕ))
    → (fuel root : ℕ) → (fresh : List ℕ) → Nodes
    → List ℕ
    → List ℕ
    → Option (Nodes × List ℕ)
load_file malloc fuel root fresh m clean bytes = elim (place_of fuel root fresh m clean) [
  | none ↦ none
  | some ((dir, m', fresh'), leaf) ↦
      let made : Option (Nodes × List ℕ) = elim (create_next fuel fresh' m' dir leaf false) [
        | none ↦ none
        | some f ↦ fill_file malloc f bytes
      ] in
      if (dir == null) || (length leaf == 0) then some (m', fresh') else made
]

-- One entry of the archive, with its header at `off`.
pub load_entry :
    (malloc : ℕ → Option (List ℕ))
    → (fuel root : ℕ) → (base : ℕ → ℕ) → (off : ℕ) → Nodes × List ℕ
    → Option (Nodes × List ℕ)
load_entry malloc fuel root base off s =
    let fsize = octal_to_int base (off + 124) 12 in
    let kind = base (off + 156) in
    let clean = clean_name (string_at 100 base off) in
    let dir : Option (Nodes × List ℕ) = elim (vfs_mkdirs fuel root s.1 s.0 clean root) [
      | none ↦ none
      | some made ↦ some (made.1, made.2)
    ] in
    let file = load_file malloc fuel root s.1 s.0 clean (bytes_at fsize base (off + 512)) in
    if length clean == 0
    then some s
    else if kind == 53
    then dir
    else if kind == 48 || kind == 0
    then file
    else some s

-- `off += 512 + ((fsize + 511) & ~511ull)`
pub next_header : (base : ℕ → ℕ) → (off : ℕ) → ℕ
next_header base off =
    let fsize = octal_to_int base (off + 124) 12 in
    add_word 64 off (512 + (fsize + 511) / 512 * 512)

-- How the loop ends: with the files loaded, in a search that ran out of fuel, or never.
pub data Loaded : Type 0 where
  loaded : Nodes × List ℕ → Loaded
  stuck : Loaded
  out_of_rounds : Loaded

pub load_loop :
    (malloc : ℕ → Option (List ℕ))
    → (rounds fuel root : ℕ) → (base : ℕ → ℕ) → (size off : ℕ) → Nodes × List ℕ
    → Loaded
load_loop malloc zero fuel root base size off s = out_of_rounds
load_loop malloc (suc rounds) fuel root base size off s =
    let more : Loaded = elim (load_entry malloc fuel root base off s) [
      | none ↦ stuck
      | some s' ↦ load_loop malloc rounds fuel root base size (next_header base off) s'
    ] in
    if not (leb (add_word 64 off 512) size)
    then loaded s
    else if base off == 0
    then loaded s
    else more

-- The counter `files` is only printed.
pub load_tar :
    (malloc : ℕ → Option (List ℕ))
    → (fuel root : ℕ) → (base : ℕ → ℕ) → (size : ℕ) → Nodes × List ℕ
    → Loaded
load_tar malloc fuel root base size s = load_loop malloc (size / 512 + 1) fuel root base size 0 s

-- The mark of a module's file: its bytes are the module's, with no capacity of their own.
pub expose : Nodes → (f : ℕ) → Module → Nodes
expose m f mod_file = store m f (record (m f) {
  readonly = true;
  bytes = bytes_at mod_file.size mod_file.bytes 0;
  size = mod_file.size;
  cap = 0;
})

pub register_module_file :
    (fuel root : ℕ) → List ℕ → Module → Nodes × List ℕ → Option (Nodes × List ℕ)
register_module_file fuel root name file s =
    elim (vfs_mkdirs fuel root s.1 s.0 (codes "/models") root) [
      | none ↦ none
      | some (dir, m, fresh) ↦
          let made : Option (Nodes × List ℕ) = elim (create_next fuel fresh m dir name false) [
            | none ↦ none
            | some (f, m', fresh') ↦
                some (if f == null then (m', fresh') else (expose m' f file, fresh'))
          ] in
          if dir == null then some (m, fresh) else made
    ]

-- The loop of `initrd_init` on the names of the model files.
pub register_models :
    (fuel root : ℕ) → List Module → List (List ℕ) → Nodes × List ℕ → Option (Nodes × List ℕ)
register_models fuel root modules [] s = some s
register_models fuel root modules (name ∷ names) s =
    let after : Option (Nodes × List ℕ) = elim (module_find modules name) [
      | none ↦ some s
      | some file ↦ register_module_file fuel root name file s
    ] in
    elim after [ none ↦ none | some s' ↦ register_models fuel root modules names s' ]

abbrev pub models : List (List ℕ)
models =
    codes "stories15M.bin"
    ∷ codes "stories260K.bin"
    ∷ codes "tokenizer.bin"
    ∷ codes "tok512.bin"
    ∷ codes "qwen3.bin"
    ∷ codes "qwen3.tokenizer"
    ∷ []

-- The root that `vfs_init` sets up.
abbrev pub fresh_root : VfsNode
fresh_root = record {
  name = codes "/";
  is_dir = true;
  readonly = false;
  bytes = [];
  size = 0;
  cap = 0;
  parent = null;
  children = null;
  next = null;
}

pub initrd_init :
    (malloc : ℕ → Option (List ℕ))
    → (fuel root : ℕ) → List Module
    → Nodes × List ℕ
    → Option (Nodes × List ℕ)
unfolding store
initrd_init malloc fuel root modules s =
    let start : Nodes × List ℕ = (store s.0 root fresh_root, s.1) in
    let after_tar : Loaded = elim (module_find modules (codes "initrd.tar")) [
      | none ↦ loaded start
      | some tar ↦ load_tar malloc fuel root tar.bytes tar.size start
    ] in
    elim after_tar [
      | loaded s' ↦ register_models fuel root modules models s'
      | stuck ↦ none
      | out_of_rounds ↦ none
    ]
