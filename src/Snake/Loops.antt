-- ===== src/Snake/Loops.antt =====
-- kernel/src/snake.c: the loops of an update, over the cells that follow and the cells that are bitten, and
-- what growing keeps.
use choco_os.Base.{
  ℕ, zero, suc, ◌+◌, ◌*◌, ◌%◌, ◌≤◌, ◌<◌, ◌≡◌, refl, true, false, ltb, leb, if◌then◌else◌, List,
  Option, set, length, arith, if_either, length-set, get_or-set_self, get_or-set_ne, lt_or_le, inl,
  inr, Option-cases, Bool-cases, ap, ◌∙◌, sym, true≢false, subst,
}
use choco_os.Snake.{Cell, Snake, cell, enlarge, append_tail, grow, follow, same_cell, bites}
use choco_os.Snake.Grid.{IsSnake, Enlarges}

-- The loop leaves the cells behind its start, and the head.
follow_behind :
    (idx : ℕ) (cells : List Cell) (j : ℕ) → idx < j → cell (follow idx cells) j ≡ cell cells j
unfolding follow
follow_behind zero cells j h = refl
follow_behind (suc idx) cells j h =
    follow_behind idx (set cells (suc idx) (cell cells idx)) j (omega arith)
    ∙ get_or-set_ne cells (suc idx) j (cell cells idx) _ (omega arith)

pub follow_head : (idx : ℕ) (cells : List Cell) → cell (follow idx cells) 0 ≡ cell cells 0
unfolding follow
follow_head zero cells = refl
follow_head (suc idx) cells =
    follow_head idx (set cells (suc idx) (cell cells idx))
    ∙ get_or-set_ne cells (suc idx) 0 (cell cells idx) _ (omega arith)

pub follow-cell :
    (idx : ℕ) (cells : List Cell) (i : ℕ)
    → i < idx
    → idx < length cells
    → cell (follow idx cells) (suc i) ≡ cell cells i
unfolding follow
follow-cell zero cells i h room = absurd (omega arith)
follow-cell (suc idx) cells i h room =
    let cells' = set cells (suc idx) (cell cells idx) in
    elim (lt_or_le i idx) [
      | inl before ↦
          follow-cell idx cells' i before
            (omega (arith, length-set cells (suc idx) (cell cells idx)))
          ∙ get_or-set_ne cells (suc idx) i (cell cells idx) _ (omega arith)
      | inr last ↦
          let same : idx ≡ i = omega arith in
          subst (λ k. cell (follow idx cells') (suc k) ≡ cell cells k) same
            (follow_behind idx cells' (suc idx) (omega arith)
              ∙ get_or-set_self cells (suc idx) (cell cells idx) _ room)
    ]

-- What an update finds after growing: the same cells, and one more at most.
pub record Grown (s t : Snake) : Type 0 where
  pub size : (s.snake_size ≤ t.snake_size) × (t.snake_size ≤ s.snake_size + 1)
  pub room : t.snake_size ≤ length t.snake
  pub kept : (i : ℕ) → i < s.snake_size → cell t.snake i ≡ cell s.snake i
  pub heading : t.direction ≡ s.direction

enlarge-Grown :
    (realloc : List Cell → Option (List Cell)) (width height : ℕ) (s : Snake)
    → Enlarges realloc
    → IsSnake width height s
    → Grown s (enlarge realloc s)
      × ((enlarge realloc s).snake_size ≡ s.snake_size)
      × (length (enlarge realloc s).snake ≡ (enlarge realloc s).snake_capacity)
unfolding enlarge
enlarge-Grown realloc width height s r h = elim (Option-cases (realloc s.snake)) [
  | inl e ↦
      rw (e, enlarge)
        (
          record {
            size = (omega arith, omega arith);
            room = omega (arith, h.size, h.room);
            kept = λ i below. refl;
            heading = refl;
          },
          refl,
          h.room,
        )
  | inr (new, e) ↦
      rw (e, enlarge)
        (
          record {
            size = (omega arith, omega arith);
            room = omega (arith, h.size, h.room, (r s.snake new e).0);
            kept = λ i below. (r s.snake new e).1 i (omega (arith, h.size, h.room, below));
            heading = refl;
          },
          refl,
          (r s.snake new e).0 ∙ ap (λ n. n * 2) h.room,
        )
]

append_tail-Grown :
    (s t : Snake)
    → Grown s t
    → t.snake_size ≡ s.snake_size
    → length t.snake ≡ t.snake_capacity
    → Grown s (append_tail t)
unfolding append_tail
append_tail-Grown s t g same room =
    let last : Cell = record { x = t.tail_x % 256; y = t.tail_y % 256 } in
    if_either (Grown s) (ltb t.snake_size t.snake_capacity)
      (record t {
        snake_size = t.snake_size + 1;
        snake = set t.snake t.snake_size last;
        just_ate_apple = false;
      })
      (record t { just_ate_apple = false })
      (λ e. record {
        size = (omega (arith, same), omega (arith, same));
        room = ground (arith, length-set t.snake t.snake_size last, room);
        kept = λ i h.
            get_or-set_ne t.snake t.snake_size i last _ (omega (arith, same, h)) ∙ g.kept i h;
        heading = g.heading;
      })
      (λ e. record { size = g.size; room = g.room; kept = g.kept; heading = g.heading })

-- The loop that looks for a bite.
pub bites_none :
    (head : Cell) (cells : List Cell) (i n : ℕ)
    → bites head cells i n ≡ false
    → (j : ℕ) → i ≤ j
    → j < i + n
    → same_cell head (cell cells j) ≡ false
unfolding bites
bites_none head cells i zero e j low high = absurd (omega arith)
bites_none head cells i (suc n) e j low high = elim (Bool-cases (same_cell head (cell cells i))) [
  | inl c ↦ absurd (true≢false (rw c at e))
  | inr c ↦ elim (lt_or_le i j) [
    | inl later ↦ bites_none head cells (i + 1) n (rw c at e) j (omega arith) (omega arith)
    | inr now ↦
        let same : i ≡ j = omega arith in subst (λ k. same_cell head (cell cells k) ≡ false) same c
  ]
]

pub bites_some :
    (head : Cell) (cells : List Cell) (i n : ℕ)
    → bites head cells i n ≡ true
    → (j : ℕ) × (i ≤ j) × (j < i + n) × (same_cell head (cell cells j) ≡ true)
unfolding bites
bites_some head cells i zero e = absurd (true≢false (sym e))
bites_some head cells i (suc n) e = elim (Bool-cases (same_cell head (cell cells i))) [
  | inl c ↦ (i, omega arith, omega arith, c)
  | inr c ↦
      let (j, low, high, at) = bites_some head cells (i + 1) n (rw c at e) in
      (j, omega arith, omega arith, at)
]

pub grow-Grown :
    (realloc : List Cell → Option (List Cell)) (width height : ℕ) (s : Snake)
    → Enlarges realloc
    → IsSnake width height s
    → Grown s (grow realloc s)
unfolding grow
grow-Grown realloc width height s r h =
    let ready = λ (u : Snake).
      Grown s u × (u.snake_size ≡ s.snake_size) × (length u.snake ≡ u.snake_capacity) in
    let stays : Grown s s = record {
      size = (omega arith, omega arith);
      room = omega (arith, h.size, h.room);
      kept = λ i below. refl;
      heading = refl;
    } in
    let full = if leb s.snake_capacity s.snake_size then enlarge realloc s else s in
    let now : ready full =
      if_either ready (leb s.snake_capacity s.snake_size) (enlarge realloc s) s
        (λ e. enlarge-Grown realloc width height s r h) (λ e. (stays, refl, h.room)) in
    if_either (Grown s) s.just_ate_apple (append_tail full) s
      (λ ate. append_tail-Grown s full now.0 now.1 now.2) (λ e. stays)
