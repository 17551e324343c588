-- ===== src/Pmm/Search.antt =====
-- kernel/src/pmm.c: the search for a run of free pages.
use choco_os.Base.{
  ℕ, zero, suc, ◌+◌, ◌-◌, ◌≤◌, ◌<◌, ◌≡◌, true, false, ◌==◌, if◌then◌else◌, Option, none, some,
  arith, Bool-cases, ==_iff, inl, inr, true≢false, sym, ◌∙◌, subst, lt_or_le,
}
use choco_os.Pmm.{Bitmap, bitmap_test, find_run}

abbrev pub IsFree : Bitmap → (start count : ℕ) → Type 0
IsFree m start count = (j : ℕ) → start ≤ j → j < start + count → bitmap_test m j ≡ false

-- No run of `count` free pages starts between 1 and `stop`.
abbrev pub NoRun : Bitmap → (count stop : ℕ) → Type 0
NoRun m count stop = (s : ℕ) → 1 ≤ s → s < stop → IsFree m s count → ⊥

-- What the search among the pages from 1 to `top` returns.
pub data FirstRun (m : Bitmap) (count top : ℕ) : Option ℕ → Type 0 where
  no_run : NoRun m count (top + 1 - count) → FirstRun m count top none
  first_run :
      (s : ℕ)
      → (1 ≤ s) × (s + count ≤ top)
      → IsFree m s count
      → NoRun m count s
      → FirstRun m count top (some s)

-- The loop's invariant at page `i`: the last `len` pages before it are free.
record Searching (m : Bitmap) (count i len start : ℕ) : Type 0 where
  inside : len < i
  short : len < count
  run : IsFree m (i - len) len
  where_from : (len == 0) ≡ false → start ≡ i - len
  none_before : NoRun m count (i - len)

module _ (m : Bitmap) (count i len start : ℕ) (v : Searching m count i len start) where
  abbrev from : ℕ
  from = if len == 0 then i else start

  from_lem : from ≡ i - len
  from_lem = let w = v.where_from in ground arith

  used-Searching : bitmap_test m i ≡ true → Searching m count (i + 1) 0 start
  used-Searching u = record {
    inside = omega arith;
    short = let h = v.short in omega arith;
    run = λ j lo hi. absurd (omega arith);
    where_from = λ e. absurd (true≢false e);
    none_before = λ s lo hi f. elim (lt_or_le s (i - len)) [
      | inl before ↦ v.none_before s lo before f
      | inr inside ↦
          let h = v.short in
          let g = v.inside in absurd (true≢false (sym u ∙ f i (omega arith) (omega arith)))
    ];
  }

  run_longer : bitmap_test m i ≡ false → IsFree m (i - len) (len + 1)
  run_longer u j lo hi = elim (lt_or_le j i) [
    | inl before ↦ let g = v.inside in v.run j lo (omega arith)
    | inr at ↦
        let g = v.inside in
        let e : j ≡ i = omega arith in subst (λ k. bitmap_test m k ≡ false) (sym e) u
  ]

  free-Searching :
      bitmap_test m i ≡ false
      → (len + 1 == count) ≡ false
      → Searching m count (i + 1) (len + 1) from
  free-Searching u ne =
      let g = v.inside in
      let h = v.short in
      let same : i + 1 - (len + 1) ≡ i - len = omega arith in
      record {
        inside = omega arith;
        short = ground arith;
        run = rw same (run_longer u);
        where_from = λ e. rw same from_lem;
        none_before = rw same v.none_before;
      }

find_run-FirstRun :
    (m : Bitmap) (count n i len start : ℕ)
    → Searching m count i len start
    → FirstRun m count (i + n) (find_run m count n i len start)
unfolding find_run
find_run-FirstRun m count zero i len start v =
    no_run (λ s lo hi f. let h = v.short in v.none_before s lo (omega arith) f)
find_run-FirstRun m count (suc n) i len start v =
    let next : i + 1 + n ≡ i + suc n = omega arith in
    elim (Bool-cases (bitmap_test m i)) [
      | inl u ↦ rw u (
          rw next at
            (find_run-FirstRun m count n (i + 1) 0 start (used-Searching m count i len start v u)))
      | inr u ↦ elim (Bool-cases (len + 1 == count)) [
        | inl e ↦
            let g = v.inside in
            let k : len + 1 ≡ count = (==_iff (len + 1) count).0 e in
            rw (u, e, from_lem m count i len start v)
              (first_run (i - len) (omega arith, omega arith)
                (rw k at (run_longer m count i len start v u)) v.none_before)
        | inr e ↦
            rw (u, e)
              (rw next at (
                find_run-FirstRun m count n (i + 1) (len + 1) (from m count i len start v)
                  (free-Searching m count i len start v u e)))
      ]
    ]

-- The search from page 1, for at least one page.
pub first_page :
    (m : Bitmap) (count n : ℕ) → 0 < count → FirstRun m count (1 + n) (find_run m count n 1 0 0)
first_page m count n pos = find_run-FirstRun m count n 1 0 0 (record {
  inside = omega arith;
  short = pos;
  run = λ j lo hi. absurd (omega arith);
  where_from = λ e. absurd (true≢false e);
  none_before = λ s lo hi f. absurd (omega arith);
})
