-- ===== src/Snake/Grid.antt =====
-- kernel/src/snake.c: the snake and the apple stay in the grid, and the snake in its array.
use choco_os.Base.{
  ℕ, zero, suc, ◌+◌, ◌*◌, ◌≤◌, ◌<◌, ◌≡◌, refl, Bool, true, false, List, [], ◌∷◌, Option, some,
  get_or, set, length, arith, length-set, get_or-set_self, lt_or_le, inl, inr, ◌∙◌, sym, subst,
}
use native.Mathlib.Nat.{mod-lt}
use choco_os.Snake.{
  Cell, Snake, Direction, up, left, grid_max, cell, place_apple, follow, wrapped, wrap_around, is,
}

-- A cell of the grid.
pub record InGrid (width height : ℕ) (c : Cell) : Type 0 where
  pub column : c.x < grid_max width
  pub line : c.y < grid_max height

-- The first `n` cells are in the grid.
abbrev pub AllIn : (width height : ℕ) → List Cell → ℕ → Type 0
AllIn width height cells n = (i : ℕ) → i < n → InGrid width height (cell cells i)

pub record IsSnake (width height : ℕ) (s : Snake) : Type 0 where
  pub room : length s.snake ≡ s.snake_capacity
  pub size : (0 < s.snake_size) × (s.snake_size ≤ s.snake_capacity)
  pub body : AllIn width height s.snake s.snake_size
  pub apple : (s.apple_x < grid_max width) × (s.apple_y < grid_max height)
  pub tail : s.just_ate_apple ≡ true → (s.tail_x < grid_max width) × (s.tail_y < grid_max height)

-- What `realloc` promises of an array of cells: one of twice the length that begins with the old cells.
abbrev pub Enlarges : (List Cell → Option (List Cell)) → Type 0
Enlarges realloc =
    (cells new : List Cell)
    → realloc cells ≡ some new
    → (length new ≡ length cells * 2) × ((i : ℕ) → i < length cells → cell new i ≡ cell cells i)

pub grid_max_bounds : (pixels : ℕ) → (0 < grid_max pixels) × (grid_max pixels < 256)
unfolding grid_max
grid_max_bounds pixels = (ground arith, ground arith)

-- What holds of the new element and of the old one holds after a write.
get_or-set :
    {A : Type 0} (P : A → Type 0) (xs : List A) (k i : ℕ) (v d : A)
    → P v
    → P (get_or xs i d)
    → P (get_or (set xs k v) i d)
get_or-set P [] k i v d new old = old
get_or-set P (x ∷ xs) zero zero v d new old = new
get_or-set P (x ∷ xs) zero (suc i) v d new old = old
get_or-set P (x ∷ xs) (suc k) zero v d new old = old
get_or-set P (x ∷ xs) (suc k) (suc i) v d new old = get_or-set P xs k i v d new old

pub set-AllIn :
    (width height : ℕ) (cells : List Cell) (n k : ℕ) (c : Cell)
    → AllIn width height cells n
    → InGrid width height c
    → AllIn width height (set cells k c) n
set-AllIn width height cells n k c all g i h =
    get_or-set (InGrid width height) cells k i c (record { x = 0; y = 0 }) g (all i h)

pub append-AllIn :
    (width height : ℕ) (cells : List Cell) (n : ℕ) (c : Cell)
    → AllIn width height cells n
    → n < length cells
    → InGrid width height c
    → AllIn width height (set cells n c) (n + 1)
append-AllIn width height cells n c all room g i h = elim (lt_or_le i n) [
  | inl below ↦ set-AllIn width height cells n n c all g i below
  | inr above ↦
      let at : cell (set cells n c) n ≡ c = get_or-set_self cells n c _ room in
      let same : n ≡ i = omega arith in
      subst (λ k. InGrid width height (cell (set cells n c) k)) same
        (subst (InGrid width height) (sym at) g)
]

pub follow-AllIn :
    (width height idx : ℕ) (cells : List Cell) (n : ℕ)
    → AllIn width height cells n
    → idx < n
    → AllIn width height (follow idx cells) n
unfolding follow
follow-AllIn width height zero cells n all h = all
follow-AllIn width height (suc idx) cells n all h =
    follow-AllIn width height idx (set cells (suc idx) (cell cells idx)) n
      (set-AllIn width height cells n (suc idx) (cell cells idx) all (all idx (omega arith)))
      (omega arith)

pub follow-length : (idx : ℕ) (cells : List Cell) → length (follow idx cells) ≡ length cells
unfolding follow
follow-length zero cells = refl
follow-length (suc idx) cells =
    follow-length idx (set cells (suc idx) (cell cells idx))
    ∙ length-set cells (suc idx) (cell cells idx)

wrapped_below : (back : Bool) (max v : ℕ) → 0 < max → wrapped back max v < max
unfolding wrapped
wrapped_below true max v h = ground arith
wrapped_below false max v h = ground arith

pub wrap_around-InGrid :
    (width height : ℕ) (d : Direction) (c : Cell)
    → InGrid width height (wrap_around width height d c)
unfolding wrap_around
wrap_around-InGrid width height d c = record {
  column = wrapped_below (is d left) (grid_max width) c.x (grid_max_bounds width).0;
  line = wrapped_below (is d up) (grid_max height) c.y (grid_max_bounds height).0;
}

pub place_apple-In :
    (width height : ℕ) (s : Snake)
    → let t = place_apple width height s in
      (t.apple_x < grid_max width) × (t.apple_y < grid_max height)
unfolding place_apple
place_apple-In width height s =
    (mod-lt _ (grid_max_bounds width).0, mod-lt _ (grid_max_bounds height).0)
