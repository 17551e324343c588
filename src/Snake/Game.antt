-- ===== src/Snake/Game.antt =====
-- kernel/src/snake.c: every update keeps the snake and the apple in the grid.
use choco_os.Base.{
  ℕ, ◌+◌, ◌-◌, ◌*◌, ◌%◌, ◌<◌, ◌≡◌, ◌⊎◌, refl, true, false, ◌==◌, ltb, leb, some, none,
  if◌then◌else◌, List, [], ◌∷◌, Option, set, length, arith, if_either, length-set, inl, inr,
  Option-cases, ap, ◌∙◌, sym, true≢false, subst,
}
use choco_os.Keyboard.{escape}
use choco_os.Snake.{
  Cell, Snake, down, grid_max, cell, place_apple, snake_reset, enlarge, append_tail, grow, follow,
  turn, ahead, wrap_around, same_cell, bites, eat, advance, snake_update, snake_loop, snake_array,
  snake_play, snake_init,
}
use choco_os.Snake.Grid.{
  InGrid, IsSnake, Enlarges, follow-length, grid_max_bounds, set-AllIn, append-AllIn, follow-AllIn,
  wrap_around-InGrid, place_apple-In,
}

-- Both coordinates of a new head, and 5, need a grid of more than 5 cells a side.
snake_reset-IsSnake :
    (width height : ℕ) (s : Snake)
    → 5 < grid_max width
    → 5 < grid_max height
    → length s.snake ≡ s.snake_capacity
    → 0 < s.snake_capacity
    → IsSnake width height (snake_reset width height s)
unfolding snake_reset place_apple
snake_reset-IsSnake width height s w h room pos =
    let first : Cell = record { x = 5; y = 5 } in
    record {
      room = length-set s.snake 0 first ∙ room;
      size = (omega arith, pos);
      body =
          append-AllIn width height s.snake 0 first (λ i below. absurd (omega arith))
            (omega (arith, room, pos)) (record { column = w; line = h });
      apple = place_apple-In width height (record s {
        direction = down;
        snake_size = 1;
        kill_sig = false;
        just_ate_apple = false;
        snake = set s.snake 0 first;
      });
      tail = λ e. absurd (true≢false (sym e));
    }

enlarge-IsSnake :
    (realloc : List Cell → Option (List Cell)) (width height : ℕ) (s : Snake)
    → Enlarges realloc
    → IsSnake width height s
    → IsSnake width height (enlarge realloc s)
unfolding enlarge
enlarge-IsSnake realloc width height s r h = elim (Option-cases (realloc s.snake)) [
  | inl e ↦ rw (e, enlarge) h
  | inr (new, e) ↦
      rw (e, enlarge)
        (record {
          room = (r s.snake new e).0 ∙ ap (λ n. n * 2) h.room;
          size = (h.size.0, omega (arith, h.size));
          body = λ i below.
              subst (InGrid width height)
                (sym ((r s.snake new e).1 i (omega (arith, h.size, h.room, below))))
                (h.body i below);
          apple = h.apple;
          tail = h.tail;
        })
]

enlarge-ate :
    (realloc : List Cell → Option (List Cell)) (s : Snake)
    → (enlarge realloc s).just_ate_apple ≡ s.just_ate_apple
unfolding enlarge
enlarge-ate realloc s = elim (Option-cases (realloc s.snake)) [
  | inl e ↦ rw (e, enlarge) refl
  | inr (new, e) ↦ rw (e, enlarge) refl
]

append_tail-IsSnake :
    (width height : ℕ) (s : Snake)
    → IsSnake width height s
    → s.just_ate_apple ≡ true
    → IsSnake width height (append_tail s)
unfolding append_tail
append_tail-IsSnake width height s h ate =
    let w = grid_max_bounds width in
    let l = grid_max_bounds height in
    let small_x : s.tail_x % 256 < grid_max width = omega (arith, w, h.tail ate) in
    let small_y : s.tail_y % 256 < grid_max height = omega (arith, l, h.tail ate) in
    let last : Cell = record { x = s.tail_x % 256; y = s.tail_y % 256 } in
    if_either (IsSnake width height) (ltb s.snake_size s.snake_capacity)
      (record s {
        snake_size = s.snake_size + 1;
        snake = set s.snake s.snake_size last;
        just_ate_apple = false;
      })
      (record s { just_ate_apple = false })
      (λ e. record {
        room = length-set s.snake s.snake_size last ∙ h.room;
        size = (omega arith, ground arith);
        body =
            append-AllIn width height s.snake s.snake_size last h.body (ground (arith, h.room))
              (record { column = small_x; line = small_y });
        apple = h.apple;
        tail = λ k. absurd (true≢false (sym k));
      })
      (λ e. record {
        room = h.room;
        size = h.size;
        body = h.body;
        apple = h.apple;
        tail = λ k. absurd (true≢false (sym k));
      })

grow-IsSnake :
    (realloc : List Cell → Option (List Cell)) (width height : ℕ) (s : Snake)
    → Enlarges realloc
    → IsSnake width height s
    → IsSnake width height (grow realloc s)
unfolding grow
grow-IsSnake realloc width height s r h =
    let Grows = λ (u : Snake). IsSnake width height u × (u.just_ate_apple ≡ true) in
    if_either (IsSnake width height) s.just_ate_apple
      (append_tail (if leb s.snake_capacity s.snake_size then enlarge realloc s else s)) s
      (λ ate.
        let (full, ate') =
          if_either Grows (leb s.snake_capacity s.snake_size) (enlarge realloc s) s
            (λ e. (enlarge-IsSnake realloc width height s r h, enlarge-ate realloc s ∙ ate))
            (λ e. (h, ate)) in
        append_tail-IsSnake width height _ full ate')
      (λ e. h)

eat-IsSnake :
    (width height : ℕ) (tail : Cell) (s : Snake)
    → InGrid width height tail
    → IsSnake width height s
    → IsSnake width height (eat width height tail s)
unfolding eat place_apple
eat-IsSnake width height tail s t h =
    if_either (IsSnake width height)
      (same_cell (cell s.snake 0) (record { x = s.apple_x; y = s.apple_y }))
      (record (place_apple width height s) {
        just_ate_apple = true;
        tail_x = tail.x;
        tail_y = tail.y;
      })
      s
      (λ e. record {
        room = h.room;
        size = h.size;
        body = h.body;
        apple = place_apple-In width height s;
        tail = λ _. (t.column, t.line);
      })
      (λ e. h)

advance-IsSnake :
    (width height key : ℕ) (tail : Cell) (s : Snake)
    → 5 < grid_max width
    → 5 < grid_max height
    → InGrid width height tail
    → IsSnake width height s
    → IsSnake width height (advance width height key tail s)
unfolding advance
advance-IsSnake width height key tail s w l t h =
    let d = turn key s.direction in
    let head = wrap_around width height d (ahead d (cell s.snake 0)) in
    let moved : Snake = record s { direction = d; snake = set s.snake 0 head } in
    let room = length-set s.snake 0 head ∙ h.room in
    if_either (IsSnake width height) (bites head moved.snake 1 (s.snake_size - 1))
      (snake_reset width height moved) (eat width height tail moved)
      (λ e. snake_reset-IsSnake width height moved w l room (omega (arith, h.size)))
      (λ e. eat-IsSnake width height tail moved t (record {
        room = room;
        size = h.size;
        body =
            set-AllIn width height s.snake s.snake_size 0 head h.body
              (wrap_around-InGrid width height d _);
        apple = h.apple;
        tail = h.tail;
      }))

pub snake_update-IsSnake :
    (realloc : List Cell → Option (List Cell)) (width height key : ℕ) (s : Snake)
    → 5 < grid_max width
    → 5 < grid_max height
    → Enlarges realloc
    → IsSnake width height s
    → IsSnake width height (snake_update realloc width height key s)
unfolding snake_update
snake_update-IsSnake realloc width height key s w l r h =
    let tail = cell s.snake (s.snake_size - 1) in
    let g = grow-IsSnake realloc width height s r h in
    let grown = grow realloc s in
    let idx = (grown.snake_size - 1) % 256 in
    let followed : Snake = record grown { snake = follow idx grown.snake } in
    let f : IsSnake width height followed = record {
      room = follow-length idx grown.snake ∙ g.room;
      size = g.size;
      body =
          follow-AllIn width height idx grown.snake grown.snake_size g.body (omega (arith, g.size));
      apple = g.apple;
      tail = g.tail;
    } in
    if_either (IsSnake width height) (key == escape) (record followed { kill_sig = true })
      (advance width height key tail followed)
      (λ e. record { room = f.room; size = f.size; body = f.body; apple = f.apple; tail = f.tail })
      (λ e.
        advance-IsSnake width height key tail followed w l
          (h.body (s.snake_size - 1) (omega (arith, h.size))) f)

snake_loop-IsSnake :
    (realloc : List Cell → Option (List Cell)) (width height : ℕ) (keys : List ℕ) (s : Snake)
    → 5 < grid_max width
    → 5 < grid_max height
    → Enlarges realloc
    → IsSnake width height s
    → IsSnake width height (snake_loop realloc width height keys s)
unfolding snake_loop
snake_loop-IsSnake realloc width height [] s w l r h = h
snake_loop-IsSnake realloc width height (key ∷ keys) s w l r h =
    let next = snake_update realloc width height key s in
    if_either (IsSnake width height) s.kill_sig s (snake_loop realloc width height keys next)
      (λ e. h)
      (λ e.
        snake_loop-IsSnake realloc width height keys next w l r
          (snake_update-IsSnake realloc width height key s w l r h))

snake_play-IsSnake :
    (realloc : List Cell → Option (List Cell)) (width height ticks : ℕ) (keys : List ℕ) (s : Snake)
    → 5 < grid_max width
    → 5 < grid_max height
    → Enlarges realloc
    → length s.snake ≡ s.snake_capacity
    → 0 < s.snake_capacity
    → IsSnake width height (snake_play realloc width height ticks keys s)
unfolding snake_play
snake_play-IsSnake realloc width height ticks keys s w l r room pos =
    snake_loop-IsSnake realloc width height keys _ w l r
      (snake_reset-IsSnake width height _ w l room pos)

snake_array-cases :
    (cells : List Cell) (malloc : Option (List Cell)) (s : Snake)
    → length cells ≡ s.snake_capacity
    → length s.snake ≡ s.snake_capacity
    → ((new : List Cell) → malloc ≡ some new → length new ≡ 100)
    → ((s.snake_capacity ≡ 0) × (malloc ≡ none) × (snake_array cells malloc s ≡ none))
      ⊎ ((t : Snake) × (snake_array cells malloc s ≡ some t)
          × (length t.snake ≡ t.snake_capacity)
          × (0 < t.snake_capacity))
unfolding snake_array
snake_array-cases [] none s h room given = inl (sym h, refl, refl)
snake_array-cases [] (some new) s h room given =
    inr (record s { snake = new; snake_capacity = 100 }, refl, given new refl, omega arith)
snake_array-cases (c ∷ cells) malloc s h room given = inr (s, refl, room, omega (arith, h))

pub snake_init-IsSnake :
    (malloc : Option (List Cell)) (realloc : List Cell → Option (List Cell))
    (width height ticks : ℕ) (keys : List ℕ) (s : Snake)
    → 5 < grid_max width
    → 5 < grid_max height
    → ((new : List Cell) → malloc ≡ some new → length new ≡ 100)
    → Enlarges realloc
    → length s.snake ≡ s.snake_capacity
    → IsSnake width height (snake_init malloc realloc width height ticks keys s)
      ⊎ ((s.snake_capacity ≡ 0)
          × (malloc ≡ none)
          × (snake_init malloc realloc width height ticks keys s
              ≡ record s { snake_capacity = 100 }))
unfolding snake_init
snake_init-IsSnake malloc realloc width height ticks keys s w l given r room =
    elim (snake_array-cases s.snake malloc s room room given) [
      | inl (empty, refused, e) ↦ inr (empty, refused, rw (e, snake_init) refl)
      | inr (t, e, fits, pos) ↦
          inl (
            rw (e, snake_init)
              (snake_play-IsSnake realloc width height ticks keys t w l r fits pos))
    ]
