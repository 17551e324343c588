-- ===== src/Net/Arp.antt =====
-- kernel/src/net.c: the ARP cache answers what was put last.
use choco_os.Base.{
  ℕ, ◌≡◌, ◌≢◌, refl, Bool, true, false, not, ◌||◌, ◌==◌, ◌⊎◌, Option, none, some, List, [], ◌∷◌,
  arith, Bool-cases, inl, inr, ==_refl, Option-cases,
}
use choco_os.Net.{
  ArpEntry, matches, update_entry, fill_entry, evict_first, arp_cache_put, arp_cache_get,
}

-- Some entry is free, or has the address.
abbrev pub has_room : ℕ → List ArpEntry → Bool
has_room ip [] = false
has_room ip (e ∷ es) = matches ip e || not e.valid || has_room ip es

-- What one of the loops leaves: an answer for the address, and the old answers for others.
Answers : ℕ → List ℕ → List ArpEntry → Option (List ArpEntry) → Type 0
Answers ip mac es none = Unit
Answers ip mac es (some es') =
    (arp_cache_get es' ip ≡ some mac)
    × ((other : ℕ) → other ≢ ip → arp_cache_get es' other ≡ arp_cache_get es other)

update_entry-Answers :
    (es : List ArpEntry) (ip : ℕ) (mac : List ℕ) → Answers ip mac es (update_entry es ip mac)
unfolding update_entry Answers arp_cache_get
update_entry-Answers [] ip mac = tt
update_entry-Answers (e ∷ es) ip mac = elim (Bool-cases (matches ip e)) [
  | inl m ↦
      rw (m)
        ((rw m refl), λ other ne. let no : matches other e ≡ false = ground arith in rw no refl)
  | inr m ↦ elim (Option-cases (update_entry es ip mac)) [
    | inl gone ↦ rw (m, gone) tt
    | inr kept ↦
        let (es', k) = kept in
        let ih : Answers ip mac es (some es') = rw k at (update_entry-Answers es ip mac) in
        rw (m, k)
          (
            (rw m ih.0),
            λ other ne. elim (Bool-cases (matches other e)) [
              | inl y ↦ rw y refl
              | inr y ↦ rw y (ih.1 other ne)
            ],
          )
  ]
]

update_entry-missing :
    (e : ArpEntry) (es : List ArpEntry) (ip : ℕ) (mac : List ℕ)
    → update_entry (e ∷ es) ip mac ≡ none
    → (matches ip e ≡ false) × (update_entry es ip mac ≡ none)
unfolding update_entry
update_entry-missing e es ip mac h = elim (Bool-cases (matches ip e)) [
  | inl m ↦ let h' = rw m at h in cc
  | inr m ↦ elim (Option-cases (update_entry es ip mac)) [
    | inl gone ↦ (m, gone)
    | inr kept ↦ let h' = rw (m, kept.1) at h in cc
  ]
]

fill_entry-Answers :
    (es : List ArpEntry) (ip : ℕ) (mac : List ℕ)
    → update_entry es ip mac ≡ none
    → Answers ip mac es (fill_entry es ip mac)
unfolding fill_entry Answers arp_cache_get
fill_entry-Answers [] ip mac h = tt
fill_entry-Answers (e ∷ es) ip mac h =
    let (m, rest) = update_entry-missing e es ip mac h in
    elim (Bool-cases e.valid) [
      | inr free ↦ rw free (
        rw (==_refl ip) refl,
        λ other ne. let no : (ip == other) ≡ false = ground arith in rw no refl,
      )
      | inl taken ↦ elim (Option-cases (fill_entry es ip mac)) [
        | inl gone ↦ rw (taken, gone) tt
        | inr kept ↦
            let (es', k) = kept in
            let ih : Answers ip mac es (some es') = rw k at (fill_entry-Answers es ip mac rest) in
            rw (taken, k)
              (
                (rw m ih.0),
                λ other ne. elim (Bool-cases (e.ip == other)) [
                  | inl y ↦ rw y (rw taken refl)
                  | inr y ↦ rw y (rw taken (ih.1 other ne))
                ],
              )
      ]
    ]

fill_entry-full :
    (e : ArpEntry) (es : List ArpEntry) (ip : ℕ) (mac : List ℕ)
    → fill_entry (e ∷ es) ip mac ≡ none
    → (e.valid ≡ true) × (fill_entry es ip mac ≡ none)
unfolding fill_entry
fill_entry-full e es ip mac h = elim (Bool-cases e.valid) [
  | inr free ↦ let h' = rw free at h in cc
  | inl taken ↦ elim (Option-cases (fill_entry es ip mac)) [
    | inl gone ↦ (taken, gone)
    | inr kept ↦ let h' = rw (taken, kept.1) at h in cc
  ]
]

no_room :
    (es : List ArpEntry) (ip : ℕ) (mac : List ℕ)
    → update_entry es ip mac ≡ none
    → fill_entry es ip mac ≡ none
    → has_room ip es ≡ false
no_room [] ip mac h k = refl
no_room (e ∷ es) ip mac h k =
    let (m, rest) = update_entry-missing e es ip mac h in
    let (v, rest') = fill_entry-full e es ip mac k in
    let ih = no_room es ip mac rest rest' in rw (m, ih) (rw v refl)

evict_first-newest :
    (e : ArpEntry) (es : List ArpEntry) (ip : ℕ) (mac : List ℕ)
    → e.valid ≡ true
    → arp_cache_get (evict_first (e ∷ es) ip mac) ip ≡ some mac
unfolding evict_first arp_cache_get
evict_first-newest e es ip mac taken = rw (taken, ==_refl ip) refl

-- After `arp_cache_put` the cache, which has at least one entry, answers a request for the address with
-- what was put; when an entry was free or had the address, all other addresses are answered as before.
pub arp_cache_get-put :
    (e : ArpEntry) (es : List ArpEntry) (ip : ℕ) (mac : List ℕ) (other : ℕ)
    → other ≢ ip
    → (arp_cache_get (arp_cache_put (e ∷ es) ip mac) ip ≡ some mac)
      × ((has_room ip (e ∷ es) ≡ false)
          ⊎ (arp_cache_get (arp_cache_put (e ∷ es) ip mac) other ≡ arp_cache_get (e ∷ es) other))
unfolding arp_cache_put Answers
arp_cache_get-put e es ip mac other ne = elim (Option-cases (update_entry (e ∷ es) ip mac)) [
  | inr kept ↦
      let a : Answers ip mac (e ∷ es) (some kept.0) =
        rw kept.1 at (update_entry-Answers (e ∷ es) ip mac) in
      rw kept.1 (a.0, inr (a.1 other ne))
  | inl gone ↦ elim (Option-cases (fill_entry (e ∷ es) ip mac)) [
    | inr kept ↦
        let a : Answers ip mac (e ∷ es) (some kept.0) =
          rw kept.1 at (fill_entry-Answers (e ∷ es) ip mac gone) in
        rw (gone, kept.1) (a.0, inr (a.1 other ne))
    | inl full ↦
        let taken = (fill_entry-full e es ip mac full).0 in
        rw (gone, full)
          (evict_first-newest e es ip mac taken, inl (no_room (e ∷ es) ip mac gone full))
  ]
]
