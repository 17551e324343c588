-- ===== src/Snake.antt =====
-- kernel/src/snake.c: the game. `malloc` and `realloc` are parameters, and so are the size of the framebuffer and the
-- keys, one for each tick. The array `snake` is the list of all its cells, of which `snake_size` are used.
pub mod Grid
pub mod Game
pub mod Loops
pub mod Motion
use choco_os.Base.{
  ℕ, zero, suc, ◌+◌, ◌-◌, ◌*◌, ◌/◌, ◌%◌, ◌^◌, Bool, true, false, not, ◌&&◌, ◌==◌, ltb, leb,
  add_word, sub_word, if◌then◌else◌, List, [], ◌∷◌, Option, none, some, get_or, set, length,
}
use choco_os.Keyboard.{escape}

pub data Direction : Type 0 where
  up down left right : Direction

pub record Cell : Type 0 where
  pub x : ℕ
  pub y : ℕ

pub record Snake : Type 0 where
  pub snake : List Cell
  pub snake_capacity : ℕ
  pub direction : Direction
  pub snake_size : ℕ
  pub apple_x : ℕ
  pub apple_y : ℕ
  pub just_ate_apple : Bool
  pub kill_sig : Bool
  pub rng_seed : ℕ
  pub tail_x : ℕ
  pub tail_y : ℕ

abbrev pub grid_size : ℕ
grid_size = 20

-- `snake[i]`.
abbrev pub cell : List Cell → ℕ → Cell
cell cells i = get_or cells i (record { x = 0; y = 0 })

-- `max_x` of a width and `max_y` of a height.
unfoldable pub grid_max : ℕ → ℕ
grid_max pixels = if pixels / grid_size % 256 == 0 then 1 else pixels / grid_size % 256

-- The seed that `get_random` stores and returns.
pub get_random : ℕ → ℕ
get_random seed = (seed * 1664525 + 1013904223) % 2 ^ 32

-- A new apple, x before y.
unfoldable pub place_apple : (width height : ℕ) → Snake → Snake
place_apple width height s =
    let rx = get_random s.rng_seed in
    let ry = get_random rx in
    record s { rng_seed = ry; apple_x = rx % grid_max width; apple_y = ry % grid_max height }

unfoldable pub snake_reset : (width height : ℕ) → Snake → Snake
snake_reset width height s = place_apple width height (record s {
  direction = down;
  snake_size = 1;
  kill_sig = false;
  just_ate_apple = false;
  snake = set s.snake 0 (record { x = 5; y = 5 });
})

-- `realloc` to twice the capacity; what it gives when it fails is `none`.
pub enlarge : (List Cell → Option (List Cell)) → Snake → Snake
enlarge realloc s = elim (realloc s.snake) [
  | none ↦ s
  | some cells ↦ record s { snake = cells; snake_capacity = s.snake_capacity * 2 }
]

-- The new tail.
pub append_tail : Snake → Snake
append_tail s =
    if ltb s.snake_size s.snake_capacity
    then record s {
      snake_size = s.snake_size + 1;
      snake = set s.snake s.snake_size (record { x = s.tail_x % 256; y = s.tail_y % 256 });
      just_ate_apple = false;
    }
    else record s { just_ate_apple = false }

-- `if (just_ate_apple)`.
pub grow : (List Cell → Option (List Cell)) → Snake → Snake
grow realloc s =
    if s.just_ate_apple
    then append_tail (if leb s.snake_capacity s.snake_size then enlarge realloc s else s)
    else s

-- The loop that moves every cell to the one before it.
pub follow : ℕ → List Cell → List Cell
follow zero cells = cells
follow (suc idx) cells = follow idx (set cells (suc idx) (cell cells idx))

abbrev pub is : Direction → Direction → Bool
is up up = true
is down down = true
is left left = true
is right right = true
is _ _ = false

-- The keys A, D, W and S turn it, but not backwards.
pub turn : ℕ → Direction → Direction
turn key direction =
    if key == 0 && not (is direction right)
    then left
    else if key == 3 && not (is direction left)
    then right
    else if key == 22 && not (is direction down)
    then up
    else if key == 18 && not (is direction up)
    then down
    else direction

-- The next cell, in bytes.
pub ahead : Direction → Cell → Cell
ahead left c = record c { x = sub_word 8 c.x 1 }
ahead right c = record c { x = add_word 8 c.x 1 }
ahead up c = record c { y = sub_word 8 c.y 1 }
ahead down c = record c { y = add_word 8 c.y 1 }

-- One coordinate behind the edge of the grid.
pub wrapped : (back : Bool) → (max v : ℕ) → ℕ
wrapped back max v = if leb max v then (if back then max - 1 else 0) else v

pub wrap_around : (width height : ℕ) → Direction → Cell → Cell
wrap_around width height d c = record {
  x = wrapped (is d left) (grid_max width) c.x;
  y = wrapped (is d up) (grid_max height) c.y;
}

abbrev pub same_cell : Cell → Cell → Bool
same_cell a b = (a.x == b.x) && (a.y == b.y)

-- The loop over `n` cells from `i`.
pub bites : (head : Cell) → List Cell → (i n : ℕ) → Bool
bites head cells i zero = false
bites head cells i (suc n) =
    let rest = bites head cells (i + 1) n in if same_cell head (cell cells i) then true else rest

-- The apple at the head, and the tail that grows at the next update.
pub eat : (width height : ℕ) → (tail : Cell) → Snake → Snake
eat width height tail s =
    if same_cell (cell s.snake 0) (record { x = s.apple_x; y = s.apple_y })
    then record (place_apple width height s) {
      just_ate_apple = true;
      tail_x = tail.x;
      tail_y = tail.y;
    }
    else s

-- The part behind the key that is not ESCAPE.
pub advance : (width height key : ℕ) → (tail : Cell) → Snake → Snake
advance width height key tail s =
    let d = turn key s.direction in
    let head = wrap_around width height d (ahead d (cell s.snake 0)) in
    let moved = record s { direction = d; snake = set s.snake 0 head } in
    if bites head moved.snake 1 (s.snake_size - 1)
    then snake_reset width height moved
    else eat width height tail moved

pub snake_update : (List Cell → Option (List Cell)) → (width height key : ℕ) → Snake → Snake
snake_update realloc width height key s =
    let tail = cell s.snake (s.snake_size - 1) in
    let grown = grow realloc s in
    let followed = record grown { snake = follow ((grown.snake_size - 1) % 256) grown.snake } in
    if key == escape
    then record followed { kill_sig = true }
    else advance width height key tail followed

-- The loop of `snake_init`: one update for each key, until `kill_sig`.
unfoldable pub snake_loop :
    (List Cell → Option (List Cell)) → (width height : ℕ) → (keys : List ℕ) → Snake → Snake
snake_loop realloc width height [] s = s
snake_loop realloc width height (key ∷ keys) s =
    let rest = snake_loop realloc width height keys (snake_update realloc width height key s) in
    if s.kill_sig then s else rest

-- The static variables: no array yet, which is NULL in C.
unfoldable pub snake_static : Snake
snake_static = record {
  snake = [];
  snake_capacity = 0;
  direction = down;
  snake_size = 1;
  apple_x = 5;
  apple_y = 5;
  just_ate_apple = false;
  kill_sig = false;
  rng_seed = 12345;
  tail_x = 0;
  tail_y = 0;
}

-- The array that is there, or the one that `malloc` gives for 100 cells.
unfoldable pub snake_array :
    (cells : List Cell) → (malloc : Option (List Cell)) → Snake → Option Snake
snake_array [] none s = none
snake_array [] (some new) s = some (record s { snake = new; snake_capacity = 100 })
snake_array (c ∷ cells) malloc s = some s

-- The game on an array, with the ticks of the timer as the seed.
unfoldable pub snake_play :
    (List Cell → Option (List Cell)) → (width height ticks : ℕ) → (keys : List ℕ) → Snake → Snake
snake_play realloc width height ticks keys s =
    let seed = ticks % 2 ^ 32 in
    snake_loop realloc width height keys
      (snake_reset width height (record s { rng_seed = if seed == 0 then 12345 else seed }))

unfoldable pub snake_init :
    (malloc : Option (List Cell))
    → (List Cell → Option (List Cell))
    → (width height ticks : ℕ) → (keys : List ℕ) → Snake
    → Snake
snake_init malloc realloc width height ticks keys s = elim (snake_array s.snake malloc s) [
  | none ↦ record s { snake_capacity = 100 }
  | some t ↦ snake_play realloc width height ticks keys t
]
