-- ===== src/Shell/Editor.antt =====
-- kernel/src/shell.c: what the line editor keeps true of its buffer and its history.
use choco_os.Base.{
  ℕ, zero, suc, ◌-◌, ◌≤◌, ◌<◌, ◌≡◌, true, not, ◌||◌, ◌&&◌, ◌==◌, ltb, List, [], ◌∷◌, ◌++◌, length,
  get_or, take, drop, length-append, length-take, arith, Bool-cases, inl, inr,
}
use choco_os.CString.{is_zero}
use choco_os.CString.Order.{order}
use choco_os.Keyboard.{KeyCode, KeyEvent}
use choco_os.Shell.{
  Shell, line_max, history_max, push_history, on_enter, on_arrow, on_ctrl, on_char, moved, recalled,
  shell_step, shell_run, is_up, is_down, is_char, is_printable,
}

abbrev pub AllPrintable : List ℕ → Type 0
AllPrintable [] = Unit {0}
AllPrintable (c ∷ cs) = (is_printable c ≡ true) × AllPrintable cs

-- A line that fits the buffer with its NUL.
abbrev pub IsLine : List ℕ → Type 0
IsLine line = (length line < line_max) × AllPrintable line

abbrev pub AllLines : List (List ℕ) → Type 0
AllLines [] = Unit {0}
AllLines (l ∷ ls) = IsLine l × AllLines ls

pub record IsShell (s : Shell) : Type 0 where
  pub line : IsLine s.line
  pub lines : AllLines s.history
  pub count : length s.history ≤ history_max
  pub position : s.hist_pos ≤ length s.history

AllPrintable-append : (xs ys : List ℕ) → AllPrintable xs → AllPrintable ys → AllPrintable (xs ++ ys)
AllPrintable-append [] ys h k = k
AllPrintable-append (x ∷ xs) ys h k = (h.0, AllPrintable-append xs ys h.1 k)

AllPrintable-take : (n : ℕ) (xs : List ℕ) → AllPrintable xs → AllPrintable (take n xs)
AllPrintable-take zero xs h = tt
AllPrintable-take (suc n) [] h = tt
AllPrintable-take (suc n) (x ∷ xs) h = (h.0, AllPrintable-take n xs h.1)

AllLines-append : (xs ys : List (List ℕ)) → AllLines xs → AllLines ys → AllLines (xs ++ ys)
AllLines-append [] ys h k = k
AllLines-append (x ∷ xs) ys h k = (h.0, AllLines-append xs ys h.1 k)

AllLines-tail : (xs : List (List ℕ)) → AllLines xs → AllLines (drop 1 xs)
AllLines-tail [] h = tt
AllLines-tail (x ∷ xs) h = h.1

AllLines-at : (xs : List (List ℕ)) (i : ℕ) → AllLines xs → IsLine (get_or xs i [])
AllLines-at [] i h = (omega arith, tt)
AllLines-at (x ∷ xs) zero h = h.0
AllLines-at (x ∷ xs) (suc i) h = AllLines-at xs i h.1

length-tail : (xs : List (List ℕ)) → length (drop 1 xs) ≡ length xs - 1
length-tail [] = omega arith
length-tail (x ∷ xs) = omega arith

push_history-AllLines :
    (history : List (List ℕ)) (line : List ℕ)
    → AllLines history
    → IsLine line
    → length history ≤ history_max
    → AllLines (push_history history line) × (length (push_history history line) ≤ history_max)
unfolding push_history
push_history-AllLines history line h l c =
    elim (Bool-cases (
      (length history == 0)
      || not (is_zero (order (get_or history (length history - 1) []) line)))) [
        | inl e ↦ elim (Bool-cases (length history == history_max)) [
          | inl f ↦
              rw (e, f)
                (
                  AllLines-append (drop 1 history) (line ∷ []) (AllLines-tail history h) (l, tt),
                  ground (arith, length-tail history, length-append (drop 1 history) (line ∷ [])),
                )
          | inr f ↦
              rw (e, f)
                (
                  AllLines-append history (line ∷ []) h (l, tt),
                  ground (arith, length-append history (line ∷ [])),
                )
        ]
        | inr e ↦ rw e (h, c)
      ]

module _ (s : Shell) (v : IsShell s) where
  on_enter-IsShell : IsShell (on_enter s).1
  unfolding on_enter
  on_enter-IsShell = elim (Bool-cases (length s.line == 0)) [
    | inl e ↦
        rw e (record { line = v.line; lines = v.lines; count = v.count; position = omega arith })
    | inr e ↦
        let p = push_history-AllLines s.history s.line v.lines v.line v.count in
        rw e (record { line = (omega arith, tt); lines = p.0; count = p.1; position = omega arith })
  ]

  erased : IsShell (record s { line = take (length s.line - 1) s.line })
  erased = record {
    line = (
      ground (arith, length-take (length s.line - 1) s.line, v.line.0),
      AllPrintable-take (length s.line - 1) s.line v.line.1,
    );
    lines = v.lines;
    count = v.count;
    position = v.position;
  }

  typed :
      (ch : ℕ)
      → (ltb (length s.line) (line_max - 1) && is_printable ch) ≡ true
      → IsShell (record s { line = s.line ++ ch ∷ [] })
  typed ch h = record {
    line = (
      ground (arith, length-append s.line (ch ∷ [])),
      AllPrintable-append s.line (ch ∷ []) v.line.1 (ground (arith), tt),
    );
    lines = v.lines;
    count = v.count;
    position = v.position;
  }

  on_char-IsShell : (ch : ℕ) → IsShell (on_char ch s).1
  unfolding on_char
  on_char-IsShell ch = elim (Bool-cases (ch == 10)) [
    | inl e ↦ rw e on_enter-IsShell
    | inr e ↦ elim (Bool-cases (ch == 8)) [
      | inl f ↦ elim (Bool-cases (ltb 0 (length s.line))) [
        | inl g ↦ rw (e, f, g) erased
        | inr g ↦ rw (e, f, g) v
      ]
      | inr f ↦ elim (Bool-cases (ltb (length s.line) (line_max - 1) && is_printable ch)) [
        | inl g ↦ rw (e, f, g) (typed ch g)
        | inr g ↦ rw (e, f, g) v
      ]
    ]
  ]

  on_ctrl-IsShell : (ch : ℕ) → IsShell (on_ctrl ch s).1
  unfolding on_ctrl
  on_ctrl-IsShell ch = elim (Bool-cases (ch == 108 || ch == 76)) [
    | inl e ↦ rw e v
    | inr e ↦ elim (Bool-cases (ch == 99 || ch == 67)) [
      | inl f ↦
          rw (e, f)
            (record {
              line = (omega arith, tt);
              lines = v.lines;
              count = v.count;
              position = omega arith;
            })
      | inr f ↦ rw (e, f) v
    ]
  ]

  recalled-IsLine : (pos : ℕ) → IsLine (recalled s.history pos)
  recalled-IsLine pos = elim (Bool-cases (pos == 0)) [
    | inl e ↦ rw e (omega arith, tt)
    | inr e ↦
        let l = get_or s.history (length s.history - pos) [] in
        let k = AllLines-at s.history (length s.history - pos) v.lines in
        rw e (ground (arith, length-take (line_max - 1) l), AllPrintable-take (line_max - 1) l k.1)
  ]

  on_arrow-IsShell : (code : KeyCode) → IsShell (on_arrow code s).1
  unfolding on_arrow
  on_arrow-IsShell code = elim (Bool-cases (length s.history == 0)) [
    | inl e ↦ rw e v
    | inr e ↦ rw e (record {
      line = recalled-IsLine (moved code s);
      lines = v.lines;
      count = v.count;
      position = ground (arith, v.position);
    })
  ]

  shell_step-IsShell : (ev : KeyEvent) → IsShell (shell_step s ev).1
  unfolding shell_step
  shell_step-IsShell ev = elim (Bool-cases (is_up ev.code || is_down ev.code)) [
    | inl e ↦ rw e (on_arrow-IsShell ev.code)
    | inr e ↦ elim (Bool-cases (is_char ev.code)) [
      | inl f ↦ elim (Bool-cases ev.ctrl) [
        | inl g ↦ rw (e, f, g) (on_ctrl-IsShell ev.ch)
        | inr g ↦ rw (e, f, g) (on_char-IsShell ev.ch)
      ]
      | inr f ↦ rw (e, f) v
    ]
  ]

-- Whatever keys are pressed, the line and every line of the history fit their 256 bytes with the NUL
-- and are printable, the history has at most 16 lines, and `hist_pos` names one of them or none.
pub shell_run-IsShell : (evs : List KeyEvent) (s : Shell) → IsShell s → IsShell (shell_run s evs).1
unfolding shell_run
shell_run-IsShell [] s v = v
shell_run-IsShell (ev ∷ evs) s v =
    shell_run-IsShell evs (shell_step s ev).1 (shell_step-IsShell s v ev)
