-- ===== src/Tests/TermRuns.antt =====
-- kernel/src/term.c on concrete data.
use choco_os.Base.{ℕ, ◌≡◌, refl, arith, List, [], ◌∷◌, Option, none, some, pos, negsuc}
use choco_os.Term.{
  Screen, Term, call, draw_cursor, hide_cursor, mirror, newline, put_glyph, move, print_plain,
  tab_loop, term_print_char, term_print_with_color, term_init, term_clear, term_set_pos, white,
  black,
}
use choco_os.Term.Bounds.{IsScreen, IsTerm}
use choco_os.Term.Printing.{term_print_with_color-ends}
use choco_os.Term.Reach.{init, set_pos, Reach-IsTerm, term_static, init-IsTerm}

-- 20 columns of 6 rows.
abbrev small : Screen
small = record { width = 160; height = 100; font_width = 8; font_height = 16 }

small-IsScreen : IsScreen small
small-IsScreen = record {
  narrow = omega arith;
  low = omega arith;
  font = (omega arith, omega arith);
  font_tall = (omega arith, omega arith);
}

abbrev a_tab_b : List ℕ
a_tab_b = 97 ∷ 9 ∷ 98 ∷ []

term_print_with_color-ends_example :
    (t : Term) × (term_print_with_color small a_tab_b white black (term_init small term_static)
      ≡ some t)
    × IsTerm small t
term_print_with_color-ends_example =
    term_print_with_color-ends small a_tab_b white black (term_init small term_static)
      small-IsScreen (init-IsTerm small small-IsScreen)

-- The corner, and a place that is off the screen.
abbrev moved : Term
moved =
    term_set_pos small (pos 25) (negsuc 0)
      (term_set_pos small (pos 19) (pos 5) (term_init small term_static))

Reach-IsTerm_example : IsTerm small moved
Reach-IsTerm_example =
    Reach-IsTerm small moved small-IsScreen
      (set_pos (pos 25) (negsuc 0) (set_pos (pos 19) (pos 5) init))

abbrev col_of : Option Term → ℕ
col_of none = 0
col_of (some t) = t.col

tab_run : col_of (term_print_with_color small a_tab_b white black (term_init small term_static)) ≡ 5
unfolding call draw_cursor hide_cursor mirror newline put_glyph move print_plain tab_loop
    term_print_char term_print_with_color term_init term_clear
tab_run = refl
