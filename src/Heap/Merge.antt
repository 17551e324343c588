-- ===== src/Heap/Merge.antt =====
-- `coalesce_with_next` of kernel/src/heap.c on the block list.
use choco_os.Base.{
  ℕ, ◌+◌, ◌%◌, ◌^◌, ◌≤◌, ◌<◌, ◌≡◌, ◌≢◌, refl, Bool, true, false, not, ◌&&◌, ◌||◌, ◌==◌,
  if◌then◌else◌, List, [], ◌∷◌, arith, Bool-cases, ◌⊎◌, inl, inr, true≢false, sym, ◌∙◌, ap,
}
use choco_os.Heap.{Mem, null, coalesce}
use choco_os.Heap.Chain.{
  Chain, block_end, has, SameBelow, Chain-has, Chain-relink, Chain-head, Chain-le,
}
use choco_os.Heap.Take.{SameBlocks}
use choco_os.Heap.Inv.{used_by, Coalesced, used_by-frame, Coalesced-frame}

-- A block with the next one merged into it, if both are free.
module _ (m : Mem) (fin q b n : ℕ) (ps : List ℕ) (c : Chain m fin q b b (b ∷ n ∷ ps)) (pos : 0 < b)
    (small : fin + 64 ≤ 2 ^ 64) (fb : (m b).free ≡ true) (fn : (m n).free ≡ true) where
  coalesce_at :
      (a : ℕ)
      → coalesce m b a ≡ (
          if (m n).next == null
          then (if a == b
              then record (m b) { size = (m b).size + 32 + (m n).size; next = (m n).next }
              else m a)
          else (if a == (m n).next
              then record (m a) { prev = b }
              else if a == b
              then record (m b) { size = (m b).size + 32 + (m n).size; next = (m n).next }
              else m a))
  unfolding coalesce
  coalesce_at a =
      let last = Chain-le m fin ps n (block_end m n) (m n).next c.4.4 in
      let nx : (m b).next ≡ n = c.4.0 in
      let head = Chain-head m fin ps n (block_end m n) (m n).next c.4.4 in
      let go : ((n == null) || not ((m n).free && (m b).free)) ≡ false = ground arith in
      let wrap : ((m b).size + (32 + (m n).size) % 2 ^ 64) % 2 ^ 64 ≡ (m b).size + 32 + (m n).size =
        omega arith in
      rw (nx, go, wrap) (ground arith)

  next-cases : ((m n).next ≡ null) ⊎ ((m n).next ≡ block_end m n)
  next-cases = Chain-head m fin ps n (block_end m n) (m n).next c.4.4

  pub merge-below : SameBelow b m (coalesce m b)
  merge-below a h = rw (coalesce_at a) (ground (arith, next-cases))

  pub merge_self :
      coalesce m b b ≡ record (m b) { size = (m b).size + 32 + (m n).size; next = (m n).next }
  merge_self = rw (coalesce_at b) (ground (arith, next-cases))

  merge-SameBlocks : SameBlocks (block_end m n) m (coalesce m b)
  merge-SameBlocks a h = rw (coalesce_at a) (ground (arith, next-cases))

  pub merge-Chain : Chain (coalesce m b) fin q b b (b ∷ ps)
  merge-Chain =
      let ends : b + 32 + ((m b).size + 32 + (m n).size) ≡ block_end m n = omega arith in
      let tail : Chain (coalesce m b) fin b (block_end m n) (m n).next ps =
        Chain-relink m (coalesce m b) fin ps n b (block_end m n) (m n).next
          (λ a h ne. rw (coalesce_at a) (ground arith))
          (λ ne. rw (coalesce_at (m n).next) (ground (arith, next-cases))) c.4.4 (omega arith) in
      rw merge_self (refl, refl, c.2, omega arith, rw ends tail)

  pub merge-used : used_by (coalesce m b) (b ∷ ps) ≡ used_by m (b ∷ n ∷ ps)
  merge-used =
      let rest =
        used_by-frame m (coalesce m b) fin ps n (block_end m n) (m n).next merge-SameBlocks c.4.4 in
      rw (merge_self, fb, fn, rest) (omega arith)

  pub merge-Coalesced :
      (g : Bool) → (g && true) ≡ false → Coalesced m true ps → Coalesced (coalesce m b) g (b ∷ ps)
  merge-Coalesced g e k =
      rw (merge_self, fb)
        (
          e,
          Coalesced-frame m (coalesce m b) fin ps n (block_end m n) (m n).next true merge-SameBlocks
              c.4.4 k,
        )

  pub merge-live :
      (a : ℕ)
      → has a (b ∷ n ∷ ps) ≡ true
      → a ≢ b
      → (m a).free ≡ false
      → (has a (b ∷ ps) ≡ true)
        × ((coalesce m b a).size ≡ (m a).size)
        × ((coalesce m b a).free ≡ false)
  merge-live a h ne f =
      let inside = Chain-has m fin ps n (block_end m n) (m n).next a c.4.4 in
      let at_n : a ≢ n = λ e. true≢false (sym fn ∙ sym (ap (λ x. (m x).free) e) ∙ f) in
      let mem : has a ps ≡ true = ground arith in
      let same = merge-SameBlocks a (inside mem).0 in (ground arith, same.0, same.1 ∙ f)

-- The blocks behind `b` after `coalesce_with_next(b)`.
abbrev pub merged : Mem → ℕ → List ℕ → List ℕ
merged m b [] = []
merged m b (n ∷ ps) = if (m n).free then ps else n ∷ ps

-- Every block in use but `b` stays, with its size.
abbrev pub Live : Mem → Mem → List ℕ → List ℕ → ℕ → Type 0
Live m m' xs xs' b =
    (a : ℕ)
    → has a xs ≡ true
    → a ≢ b
    → (m a).free ≡ false
    → (has a xs' ≡ true) × ((m' a).size ≡ (m a).size) × ((m' a).free ≡ false)

-- What a call on the free block `b` gives, whatever follows `b`.
pub record Merges (m m' : Mem) (fin q b : ℕ) (post : List ℕ) : Type 0 where
  pub chain : Chain m' fin q b b (b ∷ merged m b post)
  pub below : SameBelow b m m'
  pub self_free : (m' b).free ≡ true
  pub self_prev : (m' b).prev ≡ (m b).prev
  pub used : used_by m' (b ∷ merged m b post) ≡ used_by m (b ∷ post)
  pub coalesced : Coalesced m' true (merged m b post)
  pub live : Live m m' (b ∷ post) (b ∷ merged m b post) b

coalesce-none :
    (m : Mem) (b : ℕ) → ((m b).next ≡ null) ⊎ ((m (m b).next).free ≡ false) → coalesce m b ≡ m
unfolding coalesce
coalesce-none m b (inl e) = rw e
coalesce-none m b (inr e) = ground arith

pub coalesce-Merges :
    (m : Mem) (fin q b : ℕ) (post : List ℕ)
    → Chain m fin q b b (b ∷ post)
    → 0 < b
    → fin + 64 ≤ 2 ^ 64
    → (m b).free ≡ true
    → Coalesced m false post
    → Merges m (coalesce m b) fin q b post
coalesce-Merges m fin q b [] c pos small fb k = rw (coalesce-none m b (inl c.4.0)) (record {
  chain = c;
  below = λ a h. refl;
  self_free = fb;
  self_prev = refl;
  used = refl;
  coalesced = tt;
  live = λ a h ne f. (h, refl, f);
})
coalesce-Merges m fin q b (n ∷ ps) c pos small fb k = elim (Bool-cases (m n).free) [
  | inl fn ↦ record {
    chain = rw fn (merge-Chain m fin q b n ps c pos small fb fn);
    below = merge-below m fin q b n ps c pos small fb fn;
    self_free = rw (merge_self m fin q b n ps c pos small fb fn) fb;
    self_prev = rw (merge_self m fin q b n ps c pos small fb fn);
    used = rw fn (rw fn at (merge-used m fin q b n ps c pos small fb fn));
    coalesced = rw fn (
        rw (merge_self m fin q b n ps c pos small fb fn, fb) at
          ((merge-Coalesced m fin q b n ps c pos small fb fn false refl (rw fn at (k.1))).1));
    live = λ a h ne f. rw fn (merge-live m fin q b n ps c pos small fb fn a h ne f);
  }
  | inr e ↦ rw (coalesce-none m b (inr (rw c.4.0 e))) (record {
    chain = rw e c;
    below = λ a h. refl;
    self_free = fb;
    self_prev = refl;
    used = rw e (ground arith);
    coalesced = rw e (e, k.1);
    live = λ a h ne f. rw e (h, refl, f);
  })
]
