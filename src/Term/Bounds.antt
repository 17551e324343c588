-- ===== src/Term/Bounds.antt =====
-- kernel/src/term.c: the cursor and everything that is drawn stay on the screen.
use choco_os.Base.{
  ℕ, ◌+◌, ◌-◌, ◌*◌, ◌/◌, ◌%◌, ◌≤◌, ◌<◌, ◌≡◌, Bool, true, false, ◌==◌, leb, if◌then◌else◌, List, [],
  ◌∷◌, arith, if_either, sub_word, add_word, ◌^◌,
}
use native.Mathlib.Nat.{le-div_iff_mul-le}
use choco_os.Term.{
  Call, draw_rect, serial_putchar, put_char, scroll_up, clear_all, Screen, Term, call, draw_cursor,
  hide_cursor, times, mirror, newline, put_glyph, backspace, move, print_plain, black,
}

-- A framebuffer of less than 2^16 pixels each way, with room for a character.
pub record IsScreen (s : Screen) : Type 0 where
  pub narrow : s.width < 65536
  pub low : s.height < 65536
  pub font : (0 < s.font_width) × (s.font_width ≤ s.width)
  pub font_tall : (2 ≤ s.font_height) × (s.font_height ≤ s.height)

-- What a call draws lies on the screen.
abbrev pub OnScreen : Screen → Call → Type 0
OnScreen s (serial_putchar c) = Unit {0}
OnScreen s (draw_rect x y w h color) = (x + w ≤ s.width) × (y + h ≤ s.height)
OnScreen s (scroll_up pixels color) = pixels ≤ s.height
OnScreen s (put_char c cx cy fg bg) =
    ((cx + 1) * s.font_width ≤ s.width) × ((cy + 1) * s.font_height ≤ s.height)
OnScreen s (clear_all color) = Unit {0}

abbrev pub AllOnScreen : Screen → List Call → Type 0
AllOnScreen s [] = Unit {0}
AllOnScreen s (c ∷ cs) = OnScreen s c × AllOnScreen s cs

pub record IsTerm (s : Screen) (t : Term) : Type 0 where
  pub cols : t.cols ≡ s.width / s.font_width
  pub rows : t.rows ≡ s.height / s.font_height
  pub col : t.col < t.cols
  pub row : t.row < t.rows
  pub drawn : AllOnScreen s t.calls

-- A cell of the screen lies on it.
cell_fits : (n size width : ℕ) → 0 < size → n < width / size → n * size + size ≤ width
cell_fits n size width p h =
    let k : (n + 1) * size ≤ width = (le-div_iff_mul-le p).0 (omega arith) in omega (arith, k)

pub cols_pos : (s : Screen) → IsScreen s → 0 < s.width / s.font_width
cols_pos s i = (le-div_iff_mul-le i.font.0).1 (omega (arith, i.font))

pub rows_pos : (s : Screen) → IsScreen s → 0 < s.height / s.font_height
rows_pos s i = (le-div_iff_mul-le (omega (arith, i.font_tall))).1 (omega (arith, i.font_tall))

-- A cell of the terminal lies on the screen.
cell-OnScreen :
    (s : Screen) (cx cy : ℕ)
    → IsScreen s
    → cx < s.width / s.font_width
    → cy < s.height / s.font_height
    → (cx * s.font_width + s.font_width ≤ s.width) × (cy * s.font_height + s.font_height ≤ s.height)
cell-OnScreen s cx cy i h k = (
  cell_fits cx s.font_width s.width i.font.0 h,
  cell_fits cy s.font_height s.height (omega (arith, i.font_tall)) k,
)

-- The place of the cursor in the cell.
cursor_fits :
    (p q fw fh width height : ℕ)
    → width < 65536
    → height < 65536
    → 2 ≤ fh
    → p + fw ≤ width
    → q + fh ≤ height
    → (p % 2 ^ 32 + fw ≤ width) × (sub_word 32 (add_word 32 (q % 2 ^ 32) fh) 2 + 2 ≤ height)
cursor_fits p q fw fh width height a b c d e = (omega arith, omega arith)

drawn_cursor :
    (s : Screen) (on : Bool) (t : Term)
    → IsScreen s
    → IsTerm s t
    → OnScreen s (
        draw_rect
          (times t.col s.font_width)
          (sub_word 32 (add_word 32 (times t.row s.font_height) s.font_height) 2)
          s.font_width
          2
          (if on then t.cur_fg else t.cur_bg))
drawn_cursor s on t i h =
    let cell =
      cell-OnScreen s t.col t.row i (omega (arith, h.col, h.cols)) (omega (arith, h.row, h.rows)) in
    cursor_fits (t.col * s.font_width) (t.row * s.font_height) s.font_width s.font_height s.width
      s.height i.narrow i.low i.font_tall.0 cell.0 cell.1

pub draw_cursor-IsTerm :
    (s : Screen) (on : Bool) (t : Term) → IsScreen s → IsTerm s t → IsTerm s (draw_cursor s on t)
unfolding draw_cursor call
draw_cursor-IsTerm s on t i h =
    if_either (IsTerm s) _ _ _ (λ e. h)
      (λ e. record {
        cols = h.cols;
        rows = h.rows;
        col = h.col;
        row = h.row;
        drawn = (drawn_cursor s on t i h, h.drawn);
      })

pub hide_cursor-IsTerm :
    (s : Screen) (t : Term) → IsScreen s → IsTerm s t → IsTerm s (hide_cursor s t)
unfolding hide_cursor
hide_cursor-IsTerm s t i h =
    if_either (IsTerm s) _ _ _ (λ e. draw_cursor-IsTerm s false t i h) (λ e. h)

-- A call that draws on the screen.
call-IsTerm : (s : Screen) (c : Call) (t : Term) → OnScreen s c → IsTerm s t → IsTerm s (call c t)
unfolding call
call-IsTerm s c t o h = record {
  cols = h.cols;
  rows = h.rows;
  col = h.col;
  row = h.row;
  drawn = (o, h.drawn);
}

pub mirror-IsTerm : (s : Screen) (c : ℕ) (t : Term) → IsTerm s t → IsTerm s (mirror c t)
unfolding mirror
mirror-IsTerm s c t h =
    let byte = call-IsTerm s (serial_putchar c) in
    if_either (IsTerm s) (c == 10) (call (serial_putchar c) (call (serial_putchar 13) t))
      (call (serial_putchar c) t)
      (λ e. byte (call (serial_putchar 13) t) tt (call-IsTerm s (serial_putchar 13) t tt h))
      (λ e. byte t tt h)

-- A new line needs no column in range.
newline-IsTerm :
    (s : Screen) (t : Term)
    → IsScreen s
    → t.cols ≡ s.width / s.font_width
    → t.rows ≡ s.height / s.font_height
    → t.row < t.rows
    → AllOnScreen s t.calls
    → IsTerm s (newline s t)
unfolding newline call
newline-IsTerm s t i c r h d =
    let p = cols_pos s i in
    if_either (IsTerm s) (leb t.rows (t.row + 1))
      (record (call (scroll_up s.font_height black) t) { col = 0; row = t.rows - 1 })
      (record t { col = 0; row = t.row + 1 })
      (λ e. record {
        cols = c;
        rows = r;
        col = ground arith;
        row = omega arith;
        drawn = (i.font_tall.1, d);
      })
      (λ e. record { cols = c; rows = r; col = ground arith; row = ground arith; drawn = d })

put_char-OnScreen :
    (s : Screen) (t : Term) (c cx fg bg : ℕ)
    → IsScreen s
    → IsTerm s t
    → cx < t.cols
    → OnScreen s (put_char c cx t.row fg bg)
put_char-OnScreen s t c cx fg bg i h k =
    let cell =
      cell-OnScreen s cx t.row i (omega (arith, k, h.cols)) (omega (arith, h.row, h.rows)) in
    (omega (arith, cell), omega (arith, cell))

put_glyph-IsTerm :
    (s : Screen) (c fg bg : ℕ) (t : Term)
    → IsScreen s
    → IsTerm s t
    → IsTerm s (put_glyph s c fg bg t)
unfolding put_glyph call
put_glyph-IsTerm s c fg bg t i h =
    let o = put_char-OnScreen s t c t.col fg bg i h h.col in
    let t1 = record (call (put_char c t.col t.row fg bg) t) { col = t.col + 1 } in
    if_either (IsTerm s) (leb t1.cols t1.col) (newline s t1) t1
      (λ e. newline-IsTerm s t1 i h.cols h.rows h.row (o, h.drawn))
      (λ e. record {
        cols = h.cols;
        rows = h.rows;
        col = ground arith;
        row = h.row;
        drawn = (o, h.drawn);
      })

backspace-IsTerm :
    (s : Screen) (fg bg : ℕ) (t : Term) → IsScreen s → IsTerm s t → IsTerm s (backspace fg bg t)
unfolding backspace call
backspace-IsTerm s fg bg t i h =
    if_either (IsTerm s) _ _ _
      (λ e. record {
        cols = h.cols;
        rows = h.rows;
        col = omega (arith, h.col);
        row = h.row;
        drawn = (put_char-OnScreen s t 32 (t.col - 1) fg bg i h (omega (arith, h.col)), h.drawn);
      })
      (λ e. h)

return-IsTerm : (s : Screen) (t : Term) → IsScreen s → IsTerm s t → IsTerm s (record t { col = 0 })
return-IsTerm s t i h =
    let p = cols_pos s i in
    record {
      cols = h.cols;
      rows = h.rows;
      col = omega (arith, h.col);
      row = h.row;
      drawn = h.drawn;
    }

move-IsTerm :
    (s : Screen) (c fg bg : ℕ) (t : Term) → IsScreen s → IsTerm s t → IsTerm s (move s c fg bg t)
unfolding move
move-IsTerm s c fg bg t i h =
    let rest = if c == 8 then backspace fg bg t else put_glyph s c fg bg t in
    let back = record t { col = 0 } in
    if_either (IsTerm s) (c == 10) (newline s t) (if c == 13 then back else rest)
      (λ e. newline-IsTerm s t i h.cols h.rows h.row h.drawn)
      (λ e.
        if_either (IsTerm s) (c == 13) back rest (λ f. return-IsTerm s t i h)
          (λ f.
            if_either (IsTerm s) (c == 8) (backspace fg bg t) (put_glyph s c fg bg t)
              (λ g. backspace-IsTerm s fg bg t i h) (λ g. put_glyph-IsTerm s c fg bg t i h)))

pub print_plain-IsTerm :
    (s : Screen) (c fg bg : ℕ) (t : Term)
    → IsScreen s
    → IsTerm s t
    → IsTerm s (print_plain s c fg bg t)
unfolding print_plain
print_plain-IsTerm s c fg bg t i h =
    draw_cursor-IsTerm s true _ i
      (move-IsTerm s c fg bg _ i (hide_cursor-IsTerm s _ i (mirror-IsTerm s c t h)))
