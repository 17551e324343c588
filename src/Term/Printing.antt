-- ===== src/Term/Printing.antt =====
-- kernel/src/term.c: the loop of a tab ends, and so does the printing of a string.
use choco_os.Base.{
  ap, ◌⊎◌, ℕ, ◌+◌, ◌%◌, ◌≤◌, zero, suc, ◌≡◌, ◌∙◌, true, false, ◌==◌, leb, List, [], ◌∷◌, some,
  arith, Bool, Bool-cases, inl, inr, refl, if_either,
}
use choco_os.Term.{
  put_char, Screen, Term, call, draw_cursor, hide_cursor, mirror, newline, put_glyph, move,
  print_plain, tab_loop, term_print_char, term_print_with_color,
}
use choco_os.Term.Bounds.{IsScreen, IsTerm, print_plain-IsTerm, hide_cursor-IsTerm, mirror-IsTerm}

draw_cursor-col : (s : Screen) (on : Bool) (t : Term) → (draw_cursor s on t).col ≡ t.col
unfolding draw_cursor call
draw_cursor-col s on t = if_either (λ (u : Term). u.col ≡ t.col) _ _ _ (λ e. refl) (λ e. refl)

hide_cursor-col : (s : Screen) (t : Term) → (hide_cursor s t).col ≡ t.col
unfolding hide_cursor
hide_cursor-col s t =
    if_either (λ (u : Term). u.col ≡ t.col) t.cursor_drawn (draw_cursor s false t) t
      (λ e. draw_cursor-col s false t) (λ e. refl)

mirror-col : (c : ℕ) (t : Term) → (mirror c t).col ≡ t.col
unfolding mirror call
mirror-col c t = if_either (λ (u : Term). u.col ≡ t.col) (c == 10) _ _ (λ e. refl) (λ e. refl)

newline-col : (s : Screen) (t : Term) → (newline s t).col ≡ 0
unfolding newline call
newline-col s t = if_either (λ (u : Term). u.col ≡ 0) _ _ _ (λ e. refl) (λ e. refl)

-- Where a character that is drawn leaves the column.
abbrev Steps : ℕ → ℕ → Type 0
Steps col col' = (col' ≡ col + 1) ⊎ (col' ≡ 0)

put_glyph-Steps : (s : Screen) (c fg bg : ℕ) (t : Term) → Steps t.col (put_glyph s c fg bg t).col
unfolding put_glyph call
put_glyph-Steps s c fg bg t =
    let t1 = record (call (put_char c t.col t.row fg bg) t) { col = t.col + 1 } in
    if_either (λ (u : Term). Steps t.col u.col) (leb t1.cols t1.col) (newline s t1) t1
      (λ e. inr (newline-col s t1)) (λ e. inl refl)

space-Steps : (s : Screen) (fg bg : ℕ) (t : Term) → Steps t.col (print_plain s 32 fg bg t).col
unfolding print_plain move
space-Steps s fg bg t =
    let t1 = hide_cursor s (mirror 32 t) in
    let same : t1.col ≡ t.col = hide_cursor-col s (mirror 32 t) ∙ mirror-col 32 t in
    let after = draw_cursor-col s true (put_glyph s 32 fg bg t1) in
    elim (put_glyph-Steps s 32 fg bg t1) [
      | inl e ↦ inl (after ∙ e ∙ ap (λ n. n + 1) same)
      | inr e ↦ inr (after ∙ e)
    ]

-- A tab ends within as many rounds as there are columns to the next multiple of 4.
tab_loop-ends :
    (s : Screen) (fuel fg bg : ℕ) (t : Term)
    → IsScreen s
    → IsTerm s t
    → 4 ≤ fuel + t.col % 4
    → (t' : Term) × (tab_loop s fuel fg bg t ≡ some t') × IsTerm s t' × (t'.col % 4 ≡ 0)
unfolding tab_loop
tab_loop-ends s zero fg bg t i h f = absurd (omega arith)
tab_loop-ends s (suc fuel) fg bg t i h f =
    let t1 = print_plain s 32 fg bg t in
    let h1 = print_plain-IsTerm s 32 fg bg t i h in
    elim (Bool-cases (t1.col % 4 == 0)) [
      | inl e ↦ (t1, rw e refl, h1, ground arith)
      | inr e ↦
          let more : 4 ≤ fuel + t1.col % 4 = elim (space-Steps s fg bg t) [
            | inl p ↦ ground arith
            | inr p ↦ ground arith
          ] in
          let (t', run, h', at) = tab_loop-ends s fuel fg bg t1 i h1 more in (t', rw e run, h', at)
    ]

term_print_char-ends :
    (s : Screen) (c fg bg : ℕ) (t : Term)
    → IsScreen s
    → IsTerm s t
    → (t' : Term) × (term_print_char s c fg bg t ≡ some t') × IsTerm s t' × (c ≡ 9 → t'.col % 4 ≡ 0)
unfolding term_print_char
term_print_char-ends s c fg bg t i h = elim (Bool-cases (c == 9)) [
  | inl e ↦
      let (t', run, h', at) =
        tab_loop-ends s 4 fg bg (hide_cursor s (mirror c t)) i
          (hide_cursor-IsTerm s (mirror c t) i (mirror-IsTerm s c t h)) (omega arith) in
      (t', rw e run, h', λ _. at)
  | inr e ↦ (
    print_plain s c fg bg t,
    rw e refl,
    print_plain-IsTerm s c fg bg t i h,
    λ k. absurd (ground arith),
  )
]

-- Printing a string on a terminal that fits its screen ends, with a terminal that fits it: the cursor is
-- on the screen and so is all that was drawn.
pub term_print_with_color-ends :
    (s : Screen) (str : List ℕ) (fg bg : ℕ) (t : Term)
    → IsScreen s
    → IsTerm s t
    → (t' : Term) × (term_print_with_color s str fg bg t ≡ some t') × IsTerm s t'
unfolding term_print_with_color
term_print_with_color-ends s [] fg bg t i h = (t, refl, h)
term_print_with_color-ends s (c ∷ str) fg bg t i h =
    let (t1, run, h1, at) = term_print_char-ends s c fg bg t i h in
    let (t', run', h') = term_print_with_color-ends s str fg bg t1 i h1 in
    (t', rw (run, term_print_with_color) run', h')
