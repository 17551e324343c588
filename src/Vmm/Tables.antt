-- ===== src/Vmm/Tables.antt =====
-- kernel/src/vmm.c: page tables that are well formed, and what `get_next_level` does to them.
use choco_os.Base.{
  ℕ, suc, ◌+◌, ◌%◌, ◌^◌, ◌≤◌, ◌<◌, ◌≡◌, ◌≢◌, inl, inr, refl, sym, ap, ◌∙◌, Bool, true, false, ◌==◌,
  if◌then◌else◌, List, [], ◌∷◌, add_word, Bool-cases, arith, length, ==_refl,
}
use choco_os.Vmm.{
  null, is_present, Paging, entry_at, write, cleared, table_entry, next_table, new_table,
  get_next_level,
}
use choco_os.Vmm.Bits.{table_entry_present, table_entry_address}

-- The level of the table at each address: 4 for the root, 1 for the last, 0 where there is no table.
abbrev pub Levels : Type 0
Levels = ℕ → ℕ

-- A page that may become a table: aligned, with a physical address of 52 bits, and no table yet.
pub record IsFree (hhdm : ℕ) (lv : Levels) (page : ℕ) : Type 0 where
  pub nonnull : page ≢ 0
  pub aligned : page % 4096 ≡ 0
  pub small : page < 2 ^ 52
  pub mapped : page + hhdm + 4096 ≤ 2 ^ 64
  pub unused : lv (page + hhdm) ≡ 0

abbrev pub IsApart : ℕ → List ℕ → Type 0
IsApart p [] = Unit {0}
IsApart p (q ∷ qs) = (p ≢ q) × IsApart p qs

-- The pages that will be given out are free and different.
abbrev pub AreFree : ℕ → Levels → List ℕ → Type 0
AreFree hhdm lv [] = Unit {0}
AreFree hhdm lv (p ∷ ps) = IsFree hhdm lv p × IsApart p ps × AreFree hhdm lv ps

pub record IsPaged (hhdm : ℕ) (lv : Levels) (s : Paging) : Type 0 where
  pub direct : hhdm % 4096 ≡ 0
  pub table : (t : ℕ) → lv t ≢ 0 → (t ≢ 0) × (t % 4096 ≡ 0)
  pub child :
      (t k i : ℕ)
      → lv t ≡ suc (suc k)
      → i < 512
      → is_present (s.words (entry_at t i)) ≡ true
      → lv (next_table hhdm (s.words (entry_at t i))) ≡ suc k
  pub free : AreFree hhdm lv s.pages

-- The entry `i` of `t` leads to the table `n`.
abbrev pub Leads : (hhdm : ℕ) → Paging → (t i n : ℕ) → Type 0
Leads hhdm s t i n =
    (is_present (s.words (entry_at t i)) ≡ true) × (next_table hhdm (s.words (entry_at t i)) ≡ n)

-- Two descriptions of the tables: the later one knows more tables, and only the entry `i` of `t`
-- has changed.
pub record Grows (lv lv' : Levels) (s s' : Paging) (t i : ℕ) : Type 0 where
  pub extends : (a : ℕ) → lv a ≢ 0 → lv' a ≡ lv a
  pub same :
      (a j : ℕ) → lv a ≢ 0 → j < 512 → a ≢ t → s'.words (entry_at a j) ≡ s.words (entry_at a j)

-- What a descent that may allocate comes to: no memory, or a table of the next level.
pub data Stepped (hhdm : ℕ) (lv : Levels) (s : Paging) (t i k : ℕ) (n : ℕ) (s' : Paging)
    : Type 0 where
  no_memory : n ≡ 0 → s.pages ≡ [] → Stepped hhdm lv s t i k n s'
  led :
      (lv' : Levels)
      → IsPaged hhdm lv' s'
      → lv' n ≡ suc k
      → Leads hhdm s' t i n
      → Grows lv lv' s s' t i
      → length s.pages ≤ length s'.pages + 1
      → Stepped hhdm lv s t i k n s'

abbrev with_table : Levels → (n k : ℕ) → Levels
with_table lv n k a = if a == n then suc k else lv a

IsFree-with_table :
    (hhdm : ℕ) (lv : Levels) (k p q : ℕ)
    → IsFree hhdm lv q
    → p ≢ q
    → IsFree hhdm (with_table lv (p + hhdm) k) q
IsFree-with_table hhdm lv k p q f ne = record {
  nonnull = f.nonnull;
  aligned = f.aligned;
  small = f.small;
  mapped = f.mapped;
  unused = ground (arith, f.unused);
}

AreFree-with_table :
    (hhdm : ℕ) (lv : Levels) (k p : ℕ) (ps : List ℕ)
    → AreFree hhdm lv ps
    → IsApart p ps
    → AreFree hhdm (with_table lv (p + hhdm) k) ps
AreFree-with_table hhdm lv k p [] f a = tt
AreFree-with_table hhdm lv k p (q ∷ qs) f a =
    (IsFree-with_table hhdm lv k p q f.0 a.0, f.1, AreFree-with_table hhdm lv k p qs f.2 a.1)

module _ (hhdm : ℕ) (lv : Levels) (s : Paging) (w : IsPaged hhdm lv s) (t i k p : ℕ) (rest : List ℕ)
    (lvt : lv t ≡ suc (suc k)) (hi : i < 512) (f : IsFree hhdm lv p) where
  n : ℕ
  n = p + hhdm

  m : ℕ → ℕ
  unfolding n
  m = write (cleared s.words n) (entry_at t i) (table_entry p)

  -- The words of the tables that were there, and of the new table.
  word_old :
      (a j : ℕ)
      → lv a ≢ 0
      → j < 512
      → m (entry_at a j)
        ≡ (if entry_at a j == entry_at t i then table_entry p else s.words (entry_at a j))
  unfolding m n write cleared
  word_old a j h hj = ground (arith, w.table a h, w.direct, f.unused, f.aligned)

  word_new : (j : ℕ) → j < 512 → m (entry_at n j) ≡ 0
  unfolding m n write cleared
  word_new j hj = ground (arith, w.table t, w.direct, f.unused, f.aligned)

  target : next_table hhdm (table_entry p) ≡ n
  unfolding n
  target = omega (arith, table_entry_address p f.aligned f.small, f.mapped)

  same_entry : (a j : ℕ) → lv a ≢ 0 → j < 512 → entry_at a j ≡ entry_at t i → (a ≡ t) × (j ≡ i)
  same_entry a j h hj e = ground (arith, w.table a h, w.table t)

  lv' : Levels
  unfolding n
  lv' = with_table lv n k

  s' : Paging
  unfolding m
  s' = record { words = m; pages = rest }

  grown_child :
      (a l j : ℕ)
      → lv' a ≡ suc (suc l)
      → j < 512
      → is_present (m (entry_at a j)) ≡ true
      → lv' (next_table hhdm (m (entry_at a j))) ≡ suc l
  unfolding lv' n
  grown_child a l j la hj pr = elim (Bool-cases (a == n)) [
    | inl e ↦
        let z : m (entry_at a j) ≡ 0 = ground (arith, word_new j hj) in absurd (ground (arith, z))
    | inr old ↦
        let la' : lv a ≡ suc (suc l) = ground arith in
        elim (Bool-cases (entry_at a j == entry_at t i)) [
          | inl e ↦
              let same = same_entry a j (ground arith) hj (ground arith) in
              let w' : m (entry_at a j) ≡ table_entry p =
                word_old a j (ground arith) hj ∙ rw e refl in
              rw (w', target) (ground (arith, same.0))
          | inr ne ↦
              let w' : m (entry_at a j) ≡ s.words (entry_at a j) =
                word_old a j (ground arith) hj ∙ rw ne refl in
              let c : lv (next_table hhdm (s.words (entry_at a j))) ≡ suc l =
                w.child a l j la' hj (rw (sym w') pr) in
              rw w' (ground (arith, c, f.unused))
        ]
  ]

  grown-IsPaged : IsApart p rest → AreFree hhdm lv rest → IsPaged hhdm lv' s'
  unfolding lv' s' n
  grown-IsPaged apart fr = record {
    direct = w.direct;
    table = λ a h. ground (arith, w.table a, w.direct, f.aligned, f.nonnull);
    child = grown_child;
    free = AreFree-with_table hhdm lv k p rest fr apart;
  }

  grown : s.pages ≡ p ∷ rest → IsApart p rest → AreFree hhdm lv rest → Stepped hhdm lv s t i k n s'
  unfolding lv' s' n
  grown first apart fr =
      let w' : m (entry_at t i) ≡ table_entry p =
        word_old t i (ground arith) hi ∙ rw (==_refl (entry_at t i)) refl in
      led lv' (grown-IsPaged apart fr) (ground arith) (rw w' (table_entry_present p), rw w' target)
        (record {
          extends = λ a h. ground (arith, f.unused);
          same = λ a j h hj ne. ground (arith, word_old a j h hj, same_entry a j h hj);
        })
        (omega (arith, ap length first))

Grows-same : (lv : Levels) (s : Paging) (t i : ℕ) → Grows lv lv s s t i
Grows-same lv s t i = record { extends = λ a h. refl; same = λ a j h hj ne. refl }

new_table-Stepped :
    (hhdm : ℕ) (lv : Levels) (m : ℕ → ℕ) (ps : List ℕ)
    → IsPaged hhdm lv (record { words = m; pages = ps })
    → (t i k : ℕ) → lv t ≡ suc (suc k)
    → i < 512
    → let r = new_table hhdm (entry_at t i) m ps in
      Stepped hhdm lv (record { words = m; pages = ps }) t i k r.0 r.1
unfolding new_table s' m n
new_table-Stepped hhdm lv m [] w t i k lvt hi = no_memory refl refl
new_table-Stepped hhdm lv m (p ∷ ps) w t i k lvt hi =
    let (f, apart, fr) = w.free in
    let nz : (p == null) ≡ false = ground (arith, f.nonnull) in
    let sum : add_word 64 p hhdm ≡ p + hhdm = omega (arith, f.mapped) in
    rw (nz, sum)
      (grown hhdm lv (record { words = m; pages = p ∷ ps }) w t i k p ps lvt hi f refl apart fr)

pub get_next_level-Stepped :
    (hhdm : ℕ) (lv : Levels) (s : Paging)
    → IsPaged hhdm lv s
    → (t i k : ℕ) → lv t ≡ suc (suc k)
    → i < 512
    → let r = get_next_level hhdm t i true s in Stepped hhdm lv s t i k r.0 r.1
unfolding get_next_level
get_next_level-Stepped hhdm lv s w t i k lvt hi =
    elim (Bool-cases (is_present (s.words (entry_at t i)))) [
      | inl e ↦
          rw e (led lv w (w.child t k i lvt hi e) (e, refl) (Grows-same lv s t i) (omega arith))
      | inr e ↦ rw e (new_table-Stepped hhdm lv s.words s.pages w t i k lvt hi)
    ]

-- A descent that does not allocate follows an entry that leads somewhere.
pub get_next_level-Leads :
    (hhdm : ℕ) (s : Paging) (t i n : ℕ) (allocate : Bool)
    → Leads hhdm s t i n
    → get_next_level hhdm t i allocate s ≡ (n, s)
unfolding get_next_level
get_next_level-Leads hhdm s t i n allocate l = rw (l.0) (rw (l.1) refl)

-- A descent that does not allocate changes nothing.
pub get_next_level_reads :
    (hhdm : ℕ) (s : Paging) (t i : ℕ) → (get_next_level hhdm t i false s).1 ≡ s
unfolding get_next_level
get_next_level_reads hhdm s t i = ground arith
