-- ===== src/Pci/Search.antt =====
-- kernel/src/pci.c: what `pci_find` finds.
use choco_os.Base.{
  ℕ, zero, suc, ◌+◌, ◌≤◌, ◌<◌, ◌≡◌, sym, ap₂, refl, true≢false, Bool, true, false, not, ◌&&◌, ◌||◌,
  ◌==◌, if◌then◌else◌, Option, none, some, arith,
}
use choco_os.Pci.{
  PciDevice, is_absent, is_device, is_multi_function, found, find_func, find_slot, find_bus,
  pci_find,
}

-- The first result of `n` tries from `i`.
unfoldable pub search : (ℕ → Option PciDevice) → (i n : ℕ) → Option PciDevice
search try i zero = none
search try i (suc n) = elim (try i) [ none ↦ search try (i + 1) n | some d ↦ some d ]

-- A function that the system has: it answers, and it is the first of its slot or the slot has several.
abbrev pub exists : (config : ℕ → ℕ) → (bus slot func : ℕ) → Bool
exists config bus slot func =
    not (is_absent config bus slot func)
    && ((func == 0) || (not (is_absent config bus slot 0) && is_multi_function config bus slot))

-- The device of a function, if it is the one that is looked for.
abbrev pub candidate : (config : ℕ → ℕ) → (vendor device bus slot func : ℕ) → Option PciDevice
candidate config vendor device bus slot func =
    if exists config bus slot func && is_device config vendor device bus slot func
    then some (found vendor device bus slot func)
    else none

search-none :
    (try : ℕ → Option PciDevice) (i n : ℕ)
    → ((j : ℕ) → i ≤ j → try j ≡ none)
    → search try i n ≡ none
unfolding search
search-none try i zero h = refl
search-none try i (suc n) h =
    rw (h i (omega arith), search) (search-none try (i + 1) n (λ j low. h j (omega arith)))

-- A round of the loop, from what the tests say.
abbrev round :
    (absent first device multi : Bool) → PciDevice → (rest : Option PciDevice) → Option PciDevice
round absent first device multi x rest =
    if absent
    then (if first then none else rest)
    else if device
    then some x
    else if first && not multi
    then none
    else rest

-- A round of the search. `gone` says that the first function is absent.
abbrev attempt : (absent first device gone multi : Bool) → PciDevice → Option PciDevice
attempt absent first device gone multi x =
    if (not absent && (first || (not gone && multi))) && device then some x else none

abbrev or_else : Option PciDevice → (rest : Option PciDevice) → Option PciDevice
or_else o rest = elim o [ none ↦ rest | some d ↦ some d ]

later_step :
    (absent first device gone multi : Bool) (x : PciDevice) (rest rest' : Option PciDevice)
    → first ≡ false
    → gone ≡ false
    → multi ≡ true
    → rest ≡ rest'
    → round absent first device multi x rest
      ≡ or_else (attempt absent first device gone multi x) rest'
later_step true true device gone multi x rest rest' f g m r = absurd (true≢false f)
later_step false true device gone multi x rest rest' f g m r = absurd (true≢false f)
later_step absent false device true multi x rest rest' f g m r = absurd (true≢false g)
later_step absent false device false false x rest rest' f g m r = absurd (true≢false (sym m))
later_step true false true false true x rest rest' f g m r = r
later_step true false false false true x rest rest' f g m r = r
later_step false false true false true x rest rest' f g m r = refl
later_step false false false false true x rest rest' f g m r = r

alone_step :
    (absent first device gone multi : Bool) (x : PciDevice)
    → first ≡ false
    → (not gone && multi) ≡ false
    → attempt absent first device gone multi x ≡ none
alone_step absent true device gone multi x f g = absurd (true≢false f)
alone_step true false device gone multi x f g = refl
alone_step false false device true multi x f g = refl
alone_step false false device false true x f g = absurd (true≢false g)
alone_step false false device false false x f g = refl

first_step :
    (absent device multi : Bool) (x : PciDevice) (rest rest' : Option PciDevice)
    → ((not absent && multi) ≡ true → rest ≡ rest')
    → ((not absent && multi) ≡ false → rest' ≡ none)
    → round absent true device multi x rest
      ≡ or_else (attempt absent true device absent multi x) rest'
first_step true device multi x rest rest' h k = sym (k refl)
first_step false true multi x rest rest' h k = refl
first_step false false true x rest rest' h k = h refl
first_step false false false x rest rest' h k = sym (k refl)

-- The functions behind the first of a slot with several.
find_func-later :
    (config : ℕ → ℕ) (vendor device bus slot func n : ℕ)
    → 0 < func
    → is_absent config bus slot 0 ≡ false
    → is_multi_function config bus slot ≡ true
    → find_func config vendor device bus slot func n
      ≡ search (candidate config vendor device bus slot) func n
unfolding find_func search
find_func-later config vendor device bus slot func zero pos here multi = refl
find_func-later config vendor device bus slot func (suc n) pos here multi =
    let ih = find_func-later config vendor device bus slot (func + 1) n (omega arith) here multi in
    let nz : (func == 0) ≡ false = ground arith in
    later_step (is_absent config bus slot func) (func == 0)
      (is_device config vendor device bus slot func) (is_absent config bus slot 0)
      (is_multi_function config bus slot) (found vendor device bus slot func) _ _ nz here multi ih

both_true : (gone multi : Bool) → (not gone && multi) ≡ true → (gone ≡ false) × (multi ≡ true)
both_true true multi e = absurd (true≢false (sym e))
both_true false multi e = (refl, e)

-- A slot that has no function behind the first.
abbrev Alone : (config : ℕ → ℕ) → (bus slot : ℕ) → Type 0
Alone config bus slot =
    (not (is_absent config bus slot 0) && is_multi_function config bus slot) ≡ false

candidate-Alone :
    (config : ℕ → ℕ) (vendor device bus slot func : ℕ)
    → Alone config bus slot
    → 0 < func
    → candidate config vendor device bus slot func ≡ none
candidate-Alone config vendor device bus slot func alone pos =
    let nz : (func == 0) ≡ false = ground arith in
    alone_step (is_absent config bus slot func) (func == 0)
      (is_device config vendor device bus slot func) (is_absent config bus slot 0)
      (is_multi_function config bus slot) (found vendor device bus slot func) nz alone

-- The loop over the functions of a slot.
find_func-search :
    (config : ℕ → ℕ) (vendor device bus slot : ℕ)
    → find_func config vendor device bus slot 0 8
      ≡ search (candidate config vendor device bus slot) 0 8
unfolding find_func search
find_func-search config vendor device bus slot =
    first_step (is_absent config bus slot 0) (is_device config vendor device bus slot 0)
      (is_multi_function config bus slot) (found vendor device bus slot 0) _ _
      (λ both.
        let (here, multi) = both_true (is_absent config bus slot 0) _ both in
        find_func-later config vendor device bus slot 1 7 (omega arith) here multi)
      (λ alone.
        search-none (candidate config vendor device bus slot) 1 7
          (λ j low. candidate-Alone config vendor device bus slot j alone (omega arith)))

find_slot-search :
    (config : ℕ → ℕ) (vendor device bus slot n : ℕ)
    → find_slot config vendor device bus slot n
      ≡ search (λ s. search (candidate config vendor device bus s) 0 8) slot n
unfolding find_slot search
find_slot-search config vendor device bus slot zero = refl
find_slot-search config vendor device bus slot (suc n) =
    ap₂ or_else (find_func-search config vendor device bus slot)
      (find_slot-search config vendor device bus (slot + 1) n)

find_bus-search :
    (config : ℕ → ℕ) (vendor device bus n : ℕ)
    → find_bus config vendor device bus n
      ≡ search (λ b. search (λ s. search (candidate config vendor device b s) 0 8) 0 32) bus n
unfolding find_bus search
find_bus-search config vendor device bus zero = refl
find_bus-search config vendor device bus (suc n) =
    ap₂ or_else (find_slot-search config vendor device bus 0 32)
      (find_bus-search config vendor device (bus + 1) n)

-- `pci_find`, with the loops that it leaves early, finds the same device as a search of all 256 buses, 32
-- slots and 8 functions, in that order, for the first function that exists and has the vendor and the
-- device: one that answers and is the first of its slot, or stands in a slot of several functions.
pub pci_find-search :
    (config : ℕ → ℕ) (vendor device : ℕ)
    → pci_find config vendor device
      ≡ search (λ b. search (λ s. search (candidate config vendor device b s) 0 8) 0 32) 0 256
unfolding pci_find
pci_find-search config vendor device = find_bus-search config vendor device 0 256
