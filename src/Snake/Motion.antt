-- ===== src/Snake/Motion.antt =====
-- kernel/src/snake.c: how the snake moves at an update.
use choco_os.Base.{
  Bool, none, some, if◌then◌else◌, add_word, sub_word, ==_iff, ℕ, zero, suc, ◌+◌, ◌-◌, ◌%◌, ◌≤◌,
  ◌<◌, ◌≡◌, ◌≢◌, ◌⊎◌, refl, true, false, ◌==◌, List, Option, set, length, arith, if_either,
  length-set, get_or-set_self, get_or-set_ne, inl, inr, ap, ◌∙◌, sym, subst,
}
use choco_os.Keyboard.{escape}
use choco_os.Snake.{
  Direction, left, right, up, down, is, wrapped, grid_max, Cell, Snake, cell, place_apple,
  snake_reset, grow, follow, turn, ahead, wrap_around, same_cell, bites, eat, advance, snake_update,
}
use choco_os.Snake.Grid.{InGrid, grid_max_bounds, IsSnake, Enlarges, follow-length}
use choco_os.Snake.Loops.{Grown, follow_head, follow-cell, bites_none, bites_some, grow-Grown}

-- The head as the code computes it.
abbrev code_head : (width height key : ℕ) → Snake → Cell
code_head width height key s =
    wrap_around width height (turn key s.direction) (ahead (turn key s.direction) (cell s.snake 0))

abbrev pub first_cell : Cell
first_cell = record { x = 5; y = 5 }

-- What moving leaves: the head a step ahead, every other cell where the one before it was, and the head on
-- none of them.
pub record Moved (to : Direction) (next : Cell) (s t : Snake) : Type 0 where
  pub heading : t.direction ≡ to
  pub head : cell t.snake 0 ≡ next
  pub size : (s.snake_size ≤ t.snake_size) × (t.snake_size ≤ s.snake_size + 1)
  pub behind : (i : ℕ) → suc i < t.snake_size → cell t.snake (suc i) ≡ cell s.snake i
  pub free : (i : ℕ) → suc i < t.snake_size → same_cell next (cell t.snake (suc i)) ≡ false

-- What a bite leaves: a snake of one cell, and the head had met a cell that another one moved to.
pub record Restarted (next : Cell) (s t : Snake) : Type 0 where
  pub size : t.snake_size ≡ 1
  pub first : cell t.snake 0 ≡ first_cell
  pub bite : (i : ℕ) × (i < s.snake_size) × (same_cell next (cell s.snake i) ≡ true)

-- The snake once its cells have followed.
pub record Followed (s t : Snake) : Type 0 where
  pub size : (s.snake_size ≤ t.snake_size) × (t.snake_size ≤ s.snake_size + 1)
  pub room : 0 < length t.snake
  pub heading : t.direction ≡ s.direction
  pub head : cell t.snake 0 ≡ cell s.snake 0
  pub behind : (i : ℕ) → suc i < t.snake_size → cell t.snake (suc i) ≡ cell s.snake i

follow-Followed :
    (s g : Snake)
    → Grown s g
    → 0 < s.snake_size
    → s.snake_size < 256
    → Followed s (record g { snake = follow ((g.snake_size - 1) % 256) g.snake })
follow-Followed s g h pos small =
    let idx = (g.snake_size - 1) % 256 in
    let at : idx ≡ g.snake_size - 1 = omega (arith, h.size) in
    record {
      size = h.size;
      room = omega (arith, h.size, h.room, follow-length idx g.snake);
      heading = h.heading;
      head = follow_head idx g.snake ∙ h.kept 0 pos;
      behind = λ i below.
          follow-cell idx g.snake i (omega (arith, at, below)) (omega (arith, at, h.room, h.size))
          ∙ h.kept i (omega (arith, h.size, below));
    }

eat_keeps :
    (width height : ℕ) (tail : Cell) (s : Snake)
    → let t = eat width height tail s in
      (t.snake ≡ s.snake) × (t.snake_size ≡ s.snake_size) × (t.direction ≡ s.direction)
unfolding eat place_apple
eat_keeps width height tail s =
    if_either
      (λ (t : Snake).
        (t.snake ≡ s.snake) × (t.snake_size ≡ s.snake_size) × (t.direction ≡ s.direction))
      _ _ _ (λ e. (refl, refl, refl)) (λ e. (refl, refl, refl))

-- The cells behind the head, when the head is written.
abbrev Behind : (head : Cell) (s f : Snake) → (cells : List Cell) → Type 0
Behind head s f cells =
    (cell cells 0 ≡ head) × ((i : ℕ) → suc i < f.snake_size → cell cells (suc i) ≡ cell s.snake i)

head-Behind : (head : Cell) (s f : Snake) → Followed s f → Behind head s f (set f.snake 0 head)
head-Behind head s f h = (
  get_or-set_self f.snake 0 head _ h.room,
  λ i below. get_or-set_ne f.snake 0 (suc i) head _ (omega arith) ∙ h.behind i below,
)

bite_place :
    (head : Cell) (s f : Snake) (cells : List Cell) (j : ℕ)
    → Behind head s f cells
    → f.snake_size ≤ s.snake_size + 1
    → 1 ≤ j
    → j < f.snake_size
    → same_cell head (cell cells j) ≡ true
    → (i : ℕ) × (i < s.snake_size) × (same_cell head (cell s.snake i) ≡ true)
bite_place head s f cells zero b size low high e = absurd (omega arith)
bite_place head s f cells (suc i) b size low high e =
    (i, omega arith, subst (λ c. same_cell head c ≡ true) (b.1 i high) e)

advance_moves :
    (width height key : ℕ) (tail : Cell) (s f : Snake)
    → Followed s f
    → 0 < s.snake_size
    → let t = advance width height key tail f in
      Moved (turn key s.direction) (code_head width height key s) s t
      ⊎ Restarted (code_head width height key s) s t
unfolding advance snake_reset place_apple
advance_moves width height key tail s f h pos =
    let head = code_head width height key f in
    let same : head ≡ code_head width height key s = rw (h.heading, h.head) refl in
    let moved : Snake = record f { direction = turn key f.direction; snake = set f.snake 0 head } in
    let b = head-Behind head s f h in
    let result = λ (t : Snake).
      Moved (turn key s.direction) (code_head width height key s) s t
      ⊎ Restarted (code_head width height key s) s t in
    if_either result (bites head moved.snake 1 (f.snake_size - 1)) (snake_reset width height moved)
      (eat width height tail moved)
      (λ e.
        let (j, low, high, at) = bites_some head moved.snake 1 (f.snake_size - 1) e in
        inr (record {
          size = refl;
          first =
              get_or-set_self moved.snake 0 first_cell _
                (omega (arith, length-set f.snake 0 head, h.room));
          bite =
              subst (λ c. (i : ℕ) × (i < s.snake_size) × (same_cell c (cell s.snake i) ≡ true)) same
                (bite_place head s f moved.snake j b h.size.1 low (omega (arith, high, h.size)) at);
        }))
      (λ e.
        let (cells, size, heading) = eat_keeps width height tail moved in
        let at : (i : ℕ) → cell (eat width height tail moved).snake i ≡ cell moved.snake i =
          λ i. ap (λ c. cell c i) cells in
        inl (record {
          heading = heading ∙ ap (turn key) h.heading;
          head = at 0 ∙ b.0 ∙ same;
          size = (omega (arith, size, h.size), omega (arith, size, h.size));
          behind = λ i below. at (suc i) ∙ b.1 i (omega (arith, size, below));
          free = λ i below.
              rw (at (suc i), sym same)
                (bites_none head moved.snake 1 (f.snake_size - 1) e (suc i) (omega arith)
                  (omega (arith, size, below)));
        }))

-- The direction that a key stands for: A, D, W and S.
abbrev pub key_direction : ℕ → Option Direction
key_direction key =
    if key == 0
    then some left
    else if key == 3
    then some right
    else if key == 22
    then some up
    else if key == 18
    then some down
    else none

abbrev pub opposite : Direction → Direction
opposite left = right
opposite right = left
opposite up = down
opposite down = up

-- A key turns the snake to its direction, but not backwards.
abbrev pub turned : (key : ℕ) → Direction → Direction
turned key d = elim (key_direction key) [ none ↦ d | some k ↦ if is k (opposite d) then d else k ]

-- The neighbour of a cell, with the edges of the grid joined.
abbrev pub neighbour : (columns lines : ℕ) → Direction → Cell → Cell
neighbour columns lines left c = record c { x = if c.x == 0 then columns - 1 else c.x - 1 }
neighbour columns lines right c = record c { x = if c.x + 1 == columns then 0 else c.x + 1 }
neighbour columns lines up c = record c { y = if c.y == 0 then lines - 1 else c.y - 1 }
neighbour columns lines down c = record c { y = if c.y + 1 == lines then 0 else c.y + 1 }

turn-turned : (key : ℕ) (d : Direction) → turn key d ≡ turned key d
unfolding turn
turn-turned key left = ground arith
turn-turned key right = ground arith
turn-turned key up = ground arith
turn-turned key down = ground arith

-- The wrapping of a coordinate that has gone a step, with the bytes of the code.
wrapped_back :
    (max v : ℕ)
    → 0 < max
    → max < 256
    → v < max
    → wrapped true max (sub_word 8 v 1) ≡ (if v == 0 then max - 1 else v - 1)
unfolding wrapped
wrapped_back max v p s h = ground arith

wrapped_on :
    (max v : ℕ)
    → max < 256
    → v < max
    → wrapped false max (add_word 8 v 1) ≡ (if v + 1 == max then 0 else v + 1)
unfolding wrapped
wrapped_on max v s h = ground arith

wrapped_still : (back : Bool) (max v : ℕ) → v < max → wrapped back max v ≡ v
unfolding wrapped
wrapped_still back max v h = ground arith

wrap_around-neighbour :
    (width height : ℕ) (d : Direction) (c : Cell)
    → InGrid width height c
    → wrap_around width height d (ahead d c) ≡ neighbour (grid_max width) (grid_max height) d c
unfolding wrap_around ahead
wrap_around-neighbour width height left c g =
    let w = grid_max_bounds width in
    λ i. record {
      x = wrapped_back (grid_max width) c.x w.0 w.1 g.column i;
      y = wrapped_still false (grid_max height) c.y g.line i;
    }
wrap_around-neighbour width height right c g =
    let w = grid_max_bounds width in
    λ i. record {
      x = wrapped_on (grid_max width) c.x w.1 g.column i;
      y = wrapped_still false (grid_max height) c.y g.line i;
    }
wrap_around-neighbour width height up c g =
    let h = grid_max_bounds height in
    λ i. record {
      x = wrapped_still false (grid_max width) c.x g.column i;
      y = wrapped_back (grid_max height) c.y h.0 h.1 g.line i;
    }
wrap_around-neighbour width height down c g =
    let h = grid_max_bounds height in
    λ i. record {
      x = wrapped_still false (grid_max width) c.x g.column i;
      y = wrapped_on (grid_max height) c.y h.1 g.line i;
    }

-- The cell before the head, under the key.
abbrev pub next_head : (width height key : ℕ) → Snake → Cell
next_head width height key s =
    neighbour (grid_max width) (grid_max height) (turned key s.direction) (cell s.snake 0)

-- An update of a snake of less than 256 cells, at a key other than ESCAPE, moves it: the head goes a step in
-- the direction that the key turns it to, round the edge of the grid, every other cell goes where the one
-- before it was, at most one is added, and the head is on none of the others; or the head meets a cell of
-- the snake, and the game restarts with one cell.
pub snake_update-Moved :
    (realloc : List Cell → Option (List Cell)) (width height key : ℕ) (s : Snake)
    → Enlarges realloc
    → IsSnake width height s
    → s.snake_size < 256
    → key ≢ escape
    → let t = snake_update realloc width height key s in
      let next = next_head width height key s in
      Moved (turned key s.direction) next s t ⊎ Restarted next s t
unfolding snake_update
snake_update-Moved realloc width height key s r h small other =
    let g = grow realloc s in
    let tail = cell s.snake (s.snake_size - 1) in
    let f : Snake = record g { snake = follow ((g.snake_size - 1) % 256) g.snake } in
    let to = turn key s.direction in
    let next = code_head width height key s in
    let result = λ (t : Snake). Moved to next s t ⊎ Restarted next s t in
    let run : result (snake_update realloc width height key s) =
      if_either result (key == escape) (record f { kill_sig = true })
        (advance width height key tail f) (λ e. absurd (other ((==_iff key escape).0 e)))
        (λ e.
          advance_moves width height key tail s f
            (follow-Followed s g (grow-Grown realloc width height s r h) h.size.0 small)
            h.size.0) in
    let same : next ≡ next_head width height key s =
      wrap_around-neighbour width height to (cell s.snake 0) (h.body 0 h.size.0)
      ∙ ap (λ d. neighbour (grid_max width) (grid_max height) d (cell s.snake 0))
          (turn-turned key s.direction) in
    let t = snake_update realloc width height key s in
    subst (λ n. Moved (turned key s.direction) n s t ⊎ Restarted n s t) same
      (subst (λ d. Moved d next s t ⊎ Restarted next s t) (turn-turned key s.direction) run)
