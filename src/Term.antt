-- ===== src/Term.antt =====
-- kernel/src/term.c: the terminal on the framebuffer. What it asks of the framebuffer and of the serial
-- port is kept as the list of its calls, the last one first.
pub mod Bounds
pub mod Printing
pub mod Reach
use choco_os.Base.{
  ℕ, zero, ◌^◌, ◌+◌, ◌-◌, ◌*◌, ◌/◌, ◌%◌, suc, Bool, true, false, not, ◌&&◌, ◌==◌, ltb, leb,
  add_word, sub_word, if◌then◌else◌, ℤ, pos, negsuc, List, [], ◌∷◌, Option, none, some,
}

pub data Call : Type 0 where
  serial_putchar : (c : ℕ) → Call
  draw_rect : (x y width height color : ℕ) → Call
  scroll_up : (pixels color : ℕ) → Call
  put_char : (c cx cy fg bg : ℕ) → Call
  clear_all : (color : ℕ) → Call

-- What the framebuffer and its font answer.
pub record Screen : Type 0 where
  pub width : ℕ
  pub height : ℕ
  pub font_width : ℕ
  pub font_height : ℕ

pub record Term : Type 0 where
  pub row : ℕ
  pub col : ℕ
  pub cols : ℕ
  pub rows : ℕ
  pub cur_fg : ℕ
  pub cur_bg : ℕ
  pub cursor_visible : Bool
  pub cursor_drawn : Bool
  pub calls : List Call

abbrev pub black : ℕ
black = 0

abbrev pub white : ℕ
white = 0x00ffffff

abbrev pub red : ℕ
red = 0x00ff5555

abbrev pub green : ℕ
green = 0x0050fa7b

unfoldable pub call : Call → Term → Term
call c t = record t { calls = c ∷ t.calls }

-- The product of an `int` and a `uint32_t`.
abbrev pub times : ℕ → ℕ → ℕ
times a b = a * b % 2 ^ 32

unfoldable pub draw_cursor : Screen → Bool → Term → Term
draw_cursor s on t =
    if not t.cursor_visible && on
    then t
    else record (call
        (draw_rect (times t.col s.font_width)
          (sub_word 32 (add_word 32 (times t.row s.font_height) s.font_height) 2) s.font_width 2
          (if on then t.cur_fg else t.cur_bg))
        t) { cursor_drawn = on }

-- `if (cursor_drawn) draw_cursor(false);`
unfoldable pub hide_cursor : Screen → Term → Term
hide_cursor s t = if t.cursor_drawn then draw_cursor s false t else t

unfoldable pub term_clear : ℕ → Term → Term
term_clear color t = record (call (clear_all color) t) { row = 0; col = 0; cursor_drawn = false }

unfoldable pub term_init : Screen → Term → Term
term_init s t =
    term_clear black (record t { cols = s.width / s.font_width; rows = s.height / s.font_height })

pub term_set_colors : (fg bg : ℕ) → Term → Term
term_set_colors fg bg t = record t { cur_fg = fg; cur_bg = bg }

-- An `int` that is at least 0 and below a bound, and what stays otherwise.
pub placed : ℤ → (bound old : ℕ) → ℕ
placed (pos n) bound old = if ltb n bound then n else old
placed (negsuc n) bound old = old

pub term_set_pos : Screen → (c r : ℤ) → Term → Term
term_set_pos s c r t =
    let t1 = hide_cursor s t in
    draw_cursor s true (record t1 { col = placed c t1.cols t1.col; row = placed r t1.rows t1.row })

pub term_set_cursor_visible : Screen → Bool → Term → Term
term_set_cursor_visible s visible t =
    let t1 = if not visible then hide_cursor s t else t in
    let t2 = record t1 { cursor_visible = visible } in if visible then draw_cursor s true t2 else t2

unfoldable pub newline : Screen → Term → Term
newline s t =
    if leb t.rows (t.row + 1)
    then record (call (scroll_up s.font_height black) t) { col = 0; row = t.rows - 1 }
    else record t { col = 0; row = t.row + 1 }

-- What goes to the serial port: a carriage return before a newline.
unfoldable pub mirror : ℕ → Term → Term
mirror c t =
    if c == 10
    then call (serial_putchar c) (call (serial_putchar 13) t)
    else call (serial_putchar c) t

-- The branch of a character that is drawn.
unfoldable pub put_glyph : Screen → (c fg bg : ℕ) → Term → Term
put_glyph s c fg bg t =
    let t1 = record (call (put_char c t.col t.row fg bg) t) { col = t.col + 1 } in
    if leb t1.cols t1.col then newline s t1 else t1

pub backspace : (fg bg : ℕ) → Term → Term
backspace fg bg t =
    if ltb 0 t.col
    then record (call (put_char 32 (t.col - 1) t.row fg bg) t) { col = t.col - 1 }
    else t

-- The branches of the `switch` but that of a tab.
unfoldable pub move : Screen → (c fg bg : ℕ) → Term → Term
move s c fg bg t =
    if c == 10
    then newline s t
    else if c == 13
    then record t { col = 0 }
    else if c == 8
    then backspace fg bg t
    else put_glyph s c fg bg t

-- `term_print_char` of a character that is no tab.
unfoldable pub print_plain : Screen → (c fg bg : ℕ) → Term → Term
print_plain s c fg bg t = draw_cursor s true (move s c fg bg (hide_cursor s (mirror c t)))

-- The loop of a tab: spaces until the column is a multiple of 4.
unfoldable pub tab_loop : Screen → (fuel fg bg : ℕ) → Term → Option Term
tab_loop s zero fg bg t = none
tab_loop s (suc fuel) fg bg t =
    let t1 = print_plain s 32 fg bg t in
    let rest = tab_loop s fuel fg bg t1 in if t1.col % 4 == 0 then some t1 else rest

unfoldable pub term_print_char : Screen → (c fg bg : ℕ) → Term → Option Term
term_print_char s c fg bg t =
    if c == 9
    then tab_loop s 4 fg bg (hide_cursor s (mirror c t))
    else some (print_plain s c fg bg t)

-- The string is the bytes before its NUL.
unfoldable pub term_print_with_color : Screen → List ℕ → (fg bg : ℕ) → Term → Option Term
term_print_with_color s [] fg bg t = some t
term_print_with_color s (c ∷ str) fg bg t = elim (term_print_char s c fg bg t) [
  | none ↦ none
  | some t1 ↦ term_print_with_color s str fg bg t1
]

pub term_print : Screen → List ℕ → Term → Option Term
term_print s str t = term_print_with_color s str t.cur_fg t.cur_bg t

pub term_print_success : Screen → List ℕ → Term → Option Term
term_print_success s str t = term_print_with_color s str green black t

pub term_print_error : Screen → List ℕ → Term → Option Term
term_print_error s str t = term_print_with_color s str red black t
