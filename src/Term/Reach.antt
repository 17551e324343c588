-- ===== src/Term/Reach.antt =====
-- kernel/src/term.c: every terminal that its operations lead to fits its screen.
use choco_os.Base.{
  ℕ, ◌<◌, ◌≡◌, true, false, Bool, ℤ, pos, negsuc, List, [], Option, none, some, arith, refl, subst,
  sym, ◌∙◌,
}
use choco_os.Term.{
  Screen, Term, black, white, call, placed, term_init, term_clear, term_set_colors, term_set_pos,
  term_set_cursor_visible, term_print_with_color,
}
use choco_os.Term.Bounds.{
  IsScreen, IsTerm, cols_pos, rows_pos, draw_cursor-IsTerm, hide_cursor-IsTerm,
}
use choco_os.Term.Printing.{term_print_with_color-ends}

-- The static variables at the start.
abbrev pub term_static : Term
term_static = record {
  row = 0;
  col = 0;
  cols = 0;
  rows = 0;
  cur_fg = white;
  cur_bg = black;
  cursor_visible = true;
  cursor_drawn = false;
  calls = [];
}

-- The terminals that the operations lead to from `term_init`.
pub data Reach (s : Screen) : Term → Type 0 where
  init : Reach s (term_init s term_static)
  clear : {t : Term} (color : ℕ) → Reach s t → Reach s (term_clear color t)
  set_colors : {t : Term} (fg bg : ℕ) → Reach s t → Reach s (term_set_colors fg bg t)
  set_pos : {t : Term} (c r : ℤ) → Reach s t → Reach s (term_set_pos s c r t)
  set_cursor_visible : {t : Term} (v : Bool) → Reach s t → Reach s (term_set_cursor_visible s v t)
  print :
      {t t' : Term} (str : List ℕ) (fg bg : ℕ)
      → Reach s t
      → term_print_with_color s str fg bg t ≡ some t'
      → Reach s t'

clear-IsTerm :
    (s : Screen) (color : ℕ) (t : Term) → IsScreen s → IsTerm s t → IsTerm s (term_clear color t)
unfolding term_clear call
clear-IsTerm s color t i h = record {
  cols = h.cols;
  rows = h.rows;
  col = omega (arith, h.col);
  row = omega (arith, h.row);
  drawn = (tt, h.drawn);
}

pub init-IsTerm : (s : Screen) → IsScreen s → IsTerm s (term_init s term_static)
unfolding term_init term_clear call
init-IsTerm s i = record {
  cols = refl;
  rows = refl;
  col = cols_pos s i;
  row = rows_pos s i;
  drawn = (tt, tt);
}

placed_below : (z : ℤ) (bound old : ℕ) → old < bound → placed z bound old < bound
unfolding placed
placed_below (pos n) bound old h = ground arith
placed_below (negsuc n) bound old h = h

set_pos-IsTerm :
    (s : Screen) (c r : ℤ) (t : Term) → IsScreen s → IsTerm s t → IsTerm s (term_set_pos s c r t)
unfolding term_set_pos
set_pos-IsTerm s c r t i h =
    let k = hide_cursor-IsTerm s t i h in
    draw_cursor-IsTerm s true _ i (record {
      cols = k.cols;
      rows = k.rows;
      col = placed_below c _ _ k.col;
      row = placed_below r _ _ k.row;
      drawn = k.drawn;
    })

set_visible-IsTerm :
    (s : Screen) (v : Bool) (t : Term)
    → IsScreen s
    → IsTerm s t
    → IsTerm s (term_set_cursor_visible s v t)
unfolding term_set_cursor_visible
set_visible-IsTerm s true t i h =
    draw_cursor-IsTerm s true (record t { cursor_visible = true }) i
      (record { cols = h.cols; rows = h.rows; col = h.col; row = h.row; drawn = h.drawn })
set_visible-IsTerm s false t i h =
    let k = hide_cursor-IsTerm s t i h in
    record { cols = k.cols; rows = k.rows; col = k.col; row = k.row; drawn = k.drawn }

set_colors-IsTerm :
    (s : Screen) (fg bg : ℕ) (t : Term) → IsTerm s t → IsTerm s (term_set_colors fg bg t)
unfolding term_set_colors
set_colors-IsTerm s fg bg t h = record {
  cols = h.cols;
  rows = h.rows;
  col = h.col;
  row = h.row;
  drawn = h.drawn;
}

-- A result that fits its screen, when there is one.
abbrev Printed : Screen → Option Term → Type 0
Printed s none = Unit {0}
Printed s (some t) = IsTerm s t

-- Whatever is done on a terminal after `term_init`, strings printed, the cursor moved or hidden, colours
-- set and the screen cleared, the cursor is on the screen, and so is every cell, rectangle and scrolled row
-- that was asked of the framebuffer. The screen has room for a character and less than 2^16 pixels a side.
pub Reach-IsTerm : (s : Screen) (t : Term) → IsScreen s → Reach s t → IsTerm s t
Reach-IsTerm s t i init = init-IsTerm s i
Reach-IsTerm s t i (clear color r) = clear-IsTerm s color _ i (Reach-IsTerm s _ i r)
Reach-IsTerm s t i (set_colors fg bg r) = set_colors-IsTerm s fg bg _ (Reach-IsTerm s _ i r)
Reach-IsTerm s t i (set_pos c r p) = set_pos-IsTerm s c r _ i (Reach-IsTerm s _ i p)
Reach-IsTerm s t i (set_cursor_visible v r) = set_visible-IsTerm s v _ i (Reach-IsTerm s _ i r)
Reach-IsTerm s t i (print str fg bg r e) =
    let (t', run, h) = term_print_with_color-ends s str fg bg _ i (Reach-IsTerm s _ i r) in
    subst (Printed s) (sym run ∙ e) h
