-- ===== src/Tests/ShellRuns.antt =====
-- kernel/src/shell.c: a short session, and a command line.
use choco_os.Base.{ℕ, ◌≡◌, refl, List, [], ◌∷◌, take, arith, false}
use choco_os.Keyboard.{KeyEvent, key_char, key_up}
use choco_os.Shell.{shell_start, shell_run, split_words, shell_step}
use choco_os.Shell.Words.{spaced, words, split_words-spaced}
use choco_os.Shell.Editor.{IsShell, shell_run-IsShell}
use choco_os.Shell.History.{recent, logged, shell_run-history}

abbrev typed : ℕ → KeyEvent
typed c = record { code = key_char; ch = c; ctrl = false; alt = false }

abbrev up : KeyEvent
up = record { code = key_up; ch = 0; ctrl = false; alt = false }

-- `ls`, Enter, the arrow up, Enter, `a`.
abbrev session : List KeyEvent
session = typed 108 ∷ typed 115 ∷ typed 10 ∷ up ∷ typed 10 ∷ typed 97 ∷ []

session_run :
    (shell_run shell_start session).1
    ≡ record { line = 97 ∷ []; history = (108 ∷ 115 ∷ []) ∷ []; hist_pos = 0 }
unfolding shell_run shell_step
session_run = refl

start-IsShell : IsShell shell_start
start-IsShell = record {
  line = (omega arith, tt);
  lines = tt;
  count = omega arith;
  position = omega arith;
}

shell_run-IsShell_example : IsShell (shell_run shell_start session).1
shell_run-IsShell_example = shell_run-IsShell session shell_start start-IsShell

shell_run-history_example :
    let r = shell_run shell_start session in r.1.history ≡ recent (logged [] r.0)
shell_run-history_example = shell_run-history session

-- Two words with blanks before, between and behind them.
split_words-spaced_example :
    split_words 16 (spaced ((32 ∷ [], 108 ∷ 115 ∷ []) ∷ (9 ∷ 32 ∷ [], 47 ∷ []) ∷ []) (32 ∷ []))
    ≡ take 16 (words ((32 ∷ [], 108 ∷ 115 ∷ []) ∷ (9 ∷ 32 ∷ [], 47 ∷ []) ∷ []))
split_words-spaced_example =
    split_words-spaced 16 ((32 ∷ [], 108 ∷ 115 ∷ []) ∷ (9 ∷ 32 ∷ [], 47 ∷ []) ∷ []) (32 ∷ [])
      ((refl, tt), tt, (refl, (refl, tt)), ((refl, (refl, tt)), tt, (refl, tt), tt, tt), tt)
      (refl, tt)
