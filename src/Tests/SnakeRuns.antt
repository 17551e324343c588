-- ===== src/Tests/SnakeRuns.antt =====
-- kernel/src/snake.c on concrete data.
use choco_os.Base.{
  ℕ, zero, suc, ◌*◌, ◌<◌, ◌≡◌, ◌⊎◌, refl, arith, List, [], ◌∷◌, ◌++◌, Option, some, inl, inr,
  length, length-append, replicate, subst,
}
use mathlib.Core.Option.{some-injective, some-ne-none}
use choco_os.Snake.{
  Cell, Snake, grid_max, cell, snake_update, snake_init, snake_static, snake_array, snake_play,
  snake_loop, snake_reset, place_apple,
}
use choco_os.Snake.Grid.{IsSnake, Enlarges}
use choco_os.Snake.Game.{snake_init-IsSnake}
use choco_os.Snake.Motion.{next_head, turned, Moved, Restarted, snake_update-Moved}

abbrev twice : List Cell → Option (List Cell)
twice cells = some (cells ++ cells)

get_or-append : (xs ys : List Cell) (i : ℕ) → i < length xs → cell (xs ++ ys) i ≡ cell xs i
get_or-append [] ys i h = absurd (omega arith)
get_or-append (x ∷ xs) ys zero h = refl
get_or-append (x ∷ xs) ys (suc i) h = get_or-append xs ys i (omega arith)

twice-Enlarges : Enlarges twice
twice-Enlarges cells new e =
    let same : cells ++ cells ≡ new = some-injective _ _ e in
    subst
      (λ n. (length n ≡ length cells * 2) × ((i : ℕ) → i < length cells → cell n i ≡ cell cells i))
      same (omega (arith, length-append cells cells), get_or-append cells cells)

abbrev array : List Cell
array = replicate 100 (record { x = 0; y = 0 })

array-100 : (new : List Cell) → some array ≡ some new → length new ≡ 100
array-100 new e = subst (λ cells. length cells ≡ 100) (some-injective _ _ e) refl

abbrev started : Snake
started = snake_init (some array) twice 640 480 7 [] snake_static

started-IsSnake : IsSnake 640 480 started
unfolding grid_max snake_static
started-IsSnake =
    let game =
      snake_init-IsSnake (some array) twice 640 480 7 [] snake_static (omega arith) (omega arith)
        array-100 twice-Enlarges refl in
    elim game [ inl h ↦ h | inr (_, refused, _) ↦ absurd (some-ne-none _ refused) ]

snake_update-Moved_example :
    let t = snake_update twice 640 480 3 started in
    let next = next_head 640 480 3 started in
    Moved (turned 3 started.direction) next started t ⊎ Restarted next started t
unfolding snake_init snake_array snake_static snake_play snake_loop snake_reset place_apple
snake_update-Moved_example =
    snake_update-Moved twice 640 480 3 started twice-Enlarges started-IsSnake (omega arith)
      (λ e. absurd (omega arith))
