-- ===== src/Shell.antt =====
-- kernel/src/shell.c: the line editor with its history, and the splitting of a line into words. A
-- string is its characters without the NUL, so `line` is what stands in `buf` before `len`. What a
-- turn of the loop does outside the shell is a list of actions.
pub mod Words
pub mod History
pub mod Editor
use choco_os.Base.{
  ℕ, zero, suc, ◌+◌, ◌-◌, ◌≤◌, Bool, true, false, not, ◌&&◌, ◌||◌, ltb, leb, ◌==◌, if◌then◌else◌,
  Option, none, some, List, [], ◌∷◌, ◌++◌, length, get_or, take, drop, replicate,
}
use choco_os.CString.{is_zero}
use choco_os.CString.Order.{order}
use choco_os.Keyboard.{KeyCode, KeyEvent, key_char, key_up, key_down}

abbrev pub line_max : ℕ
line_max = 256

abbrev pub history_max : ℕ
history_max = 16

abbrev pub argv_max : ℕ
argv_max = 16

-- The locals of `shell_init` and the history, oldest line first. `hist_pos` is the one of the code
-- plus 1, so 0 stands for -1.
pub record Shell : Type 0 where
  pub line : List ℕ
  pub history : List (List ℕ)
  pub hist_pos : ℕ

pub data Action : Type 0 where
  print : List ℕ → Action
  clear : Action
  prompt : Action
  process : List ℕ → Action

abbrev pub is_blank : ℕ → Bool
is_blank c = c == 32 || c == 9

-- `while (*p == ' ' || *p == '\t') p++;`
pub skip_blanks : List ℕ → List ℕ
skip_blanks [] = []
skip_blanks (c ∷ cs) = let rest = skip_blanks cs in if is_blank c then rest else c ∷ cs

-- `while (*p && *p != ' ' && *p != '\t') p++;`: what is passed over, and what is left.
pub word_of : List ℕ → List ℕ
word_of [] = []
word_of (c ∷ cs) = let rest = word_of cs in if is_blank c then [] else c ∷ rest

pub after_word : List ℕ → List ℕ
after_word [] = []
after_word (c ∷ cs) = let rest = after_word cs in if is_blank c then c ∷ cs else rest

-- `if (*p) *p++ = '\0';`
abbrev pub past_blank : List ℕ → List ℕ
past_blank [] = []
past_blank (c ∷ cs) = cs

-- The loop of `process_command` with room for `n` more words.
pub split_words : (n : ℕ) → List ℕ → List (List ℕ)
unfolding skip_blanks word_of after_word
split_words zero p = []
split_words (suc n) p = elim (skip_blanks p) [
  | [] ↦ []
  | c ∷ cs ↦ word_of (c ∷ cs) ∷ split_words n (past_blank (after_word (c ∷ cs)))
]

-- `commands[i].name` is looked for with `strcmp`.
pub find_command : List ℕ → List (List ℕ) → Option ℕ
find_command name [] = none
find_command name (c ∷ cs) =
    let rest : Option ℕ = elim (find_command name cs) [ none ↦ none | some i ↦ some (suc i) ] in
    if is_zero (order name c) then some 0 else rest

pub data Command : Type 0 where
  nothing : Command
  run : ℕ → List (List ℕ) → Command
  not_found : List ℕ → Command

-- `process_command`: the index of the command and its arguments.
pub process_command : (commands : List (List ℕ)) → List ℕ → Command
unfolding split_words find_command
process_command commands line = elim (split_words argv_max line) [
  | [] ↦ nothing
  | name ∷ args ↦ elim (find_command name commands) [
    | none ↦ not_found name
    | some i ↦ run i (name ∷ args)
  ]
]

-- What `redraw_line` prints.
pub redraw_line : List ℕ → (old_len : ℕ) → List ℕ
redraw_line buf old_len =
    replicate old_len 8
    ++ buf
    ++ replicate (old_len - length buf) 32
    ++ replicate (old_len - length buf) 8

-- The line that Enter puts into the history.
pub push_history : List (List ℕ) → List ℕ → List (List ℕ)
push_history history line =
    let kept = if length history == history_max then drop 1 history else history in
    if (length history == 0) || not (is_zero (order (get_or history (length history - 1) []) line))
    then kept ++ line ∷ []
    else history

abbrev pub is_up : KeyCode → Bool
is_up key_up = true
is_up _ = false

abbrev pub is_down : KeyCode → Bool
is_down key_down = true
is_down _ = false

abbrev pub is_char : KeyCode → Bool
is_char key_char = true
is_char _ = false

-- The new `hist_pos` of an arrow key.
abbrev pub moved : KeyCode → Shell → ℕ
moved code s =
    if is_up code && ltb s.hist_pos (length s.history)
    then s.hist_pos + 1
    else if is_down code && leb 1 s.hist_pos
    then s.hist_pos - 1
    else s.hist_pos

abbrev pub recalled : List (List ℕ) → ℕ → List ℕ
recalled history pos =
    if pos == 0 then [] else take (line_max - 1) (get_or history (length history - pos) [])

pub on_arrow : KeyCode → Shell → List Action × Shell
unfolding redraw_line
on_arrow code s =
    let pos = moved code s in
    let line = recalled s.history pos in
    if length s.history == 0
    then ([], s)
    else (print (redraw_line line (length s.line)) ∷ [], record s { line = line; hist_pos = pos })

pub on_enter : Shell → List Action × Shell
unfolding push_history
on_enter s =
    if length s.line == 0 then (print (10 ∷ []) ∷ prompt ∷ [], record s { hist_pos = 0 }) else (
      print (10 ∷ []) ∷ process s.line ∷ prompt ∷ [],
      record { line = []; history = push_history s.history s.line; hist_pos = 0 },
    )

abbrev pub is_printable : ℕ → Bool
is_printable ch = leb 32 ch && ltb ch 127

-- A key that is a character, held with Ctrl.
pub on_ctrl : ℕ → Shell → List Action × Shell
on_ctrl ch s =
    if ch == 108 || ch == 76
    then (clear ∷ prompt ∷ print s.line ∷ [], s)
    else if ch == 99 || ch == 67
    then (print (94 ∷ 67 ∷ 10 ∷ []) ∷ prompt ∷ [], record s { line = []; hist_pos = 0 })
    else ([], s)

pub on_char : ℕ → Shell → List Action × Shell
unfolding on_enter
on_char ch s =
    if ch == 10
    then on_enter s
    else if ch == 8
    then (if ltb 0 (length s.line)
        then (print (8 ∷ []) ∷ [], record s { line = take (length s.line - 1) s.line })
        else ([], s))
    else if ltb (length s.line) (line_max - 1) && is_printable ch
    then (print (ch ∷ []) ∷ [], record s { line = s.line ++ ch ∷ [] })
    else ([], s)

-- One turn of the loop of `shell_init`.
unfoldable pub shell_step : Shell → KeyEvent → List Action × Shell
unfolding on_arrow on_ctrl on_char
shell_step s ev =
    if is_up ev.code || is_down ev.code
    then on_arrow ev.code s
    else if not (is_char ev.code)
    then ([], s)
    else if ev.ctrl
    then on_ctrl ev.ch s
    else on_char ev.ch s

abbrev pub shell_start : Shell
shell_start = record { line = []; history = []; hist_pos = 0 }

-- The loop on the events that come, with all that it does.
unfoldable pub shell_run : Shell → List KeyEvent → List Action × Shell
shell_run s [] = ([], s)
shell_run s (ev ∷ evs) =
    let (acts, s') = shell_step s ev in let (more, end) = shell_run s' evs in (acts ++ more, end)
