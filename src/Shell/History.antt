-- ===== src/Shell/History.antt =====
-- kernel/src/shell.c: the history is the end of the log of all lines that were run, with no line
-- twice in a row.
use choco_os.Base.{
  ℕ, zero, suc, ◌+◌, ◌-◌, ◌≤◌, ◌<◌, ◌≡◌, inl, inr, refl, sym, ap, ◌∙◌, Bool, true, false, not, ◌||◌,
  ◌==◌, List, [], ◌∷◌, ◌++◌, length, get_or, drop, length-append, arith, Bool-cases, if◌then◌else◌,
}
use choco_os.CString.{is_zero}
use choco_os.CString.Order.{order}
use choco_os.Keyboard.{KeyCode, KeyEvent}
use choco_os.Shell.{
  Shell, Action, process, history_max, push_history, on_enter, on_arrow, on_ctrl, on_char,
  shell_step, shell_run, print, clear, prompt, shell_start, is_up, is_down, is_char,
}

-- The whole log: a line is added unless it is the last one already.
pub remember : List (List ℕ) → List ℕ → List (List ℕ)
remember log line =
    if (length log == 0) || not (is_zero (order (get_or log (length log - 1) []) line))
    then log ++ line ∷ []
    else log

-- The last 16 lines of the log.
abbrev pub recent : List (List ℕ) → List (List ℕ)
recent log = drop (length log - history_max) log

length-drop : (n : ℕ) (xs : List (List ℕ)) → length (drop n xs) ≡ length xs - n
length-drop zero xs = omega arith
length-drop (suc n) [] = omega arith
length-drop (suc n) (x ∷ xs) = omega (arith, length-drop n xs)

drop-append : (n : ℕ) (xs ys : List (List ℕ)) → n ≤ length xs → drop n (xs ++ ys) ≡ drop n xs ++ ys
drop-append zero xs ys h = refl
drop-append (suc n) [] ys h = absurd (omega arith)
drop-append (suc n) (x ∷ xs) ys h = drop-append n xs ys (omega arith)

drop_one_more : (n : ℕ) (xs : List (List ℕ)) → drop 1 (drop n xs) ≡ drop (suc n) xs
drop_one_more zero xs = refl
drop_one_more (suc n) [] = refl
drop_one_more (suc n) (x ∷ xs) = drop_one_more n xs

get_or-drop : (n i : ℕ) (xs : List (List ℕ)) → get_or (drop n xs) i [] ≡ get_or xs (n + i) []
get_or-drop zero i xs = ap (λ k. get_or xs k []) (omega arith)
get_or-drop (suc n) i [] = refl
get_or-drop (suc n) i (x ∷ xs) =
    let e : suc n + i ≡ suc (n + i) = omega arith in rw e (get_or-drop n i xs)

abbrev is_new : List (List ℕ) → List ℕ → Bool
is_new log line = (length log == 0) || not (is_zero (order (get_or log (length log - 1) []) line))

last-recent :
    (log : List (List ℕ))
    → 0 < length log
    → get_or (recent log) (length (recent log) - 1) [] ≡ get_or log (length log - 1) []
last-recent log h =
    let d = length log - history_max in
    let e : d + (length (recent log) - 1) ≡ length log - 1 = omega (arith, length-drop d log) in
    get_or-drop d (length (recent log) - 1) log ∙ ap (λ k. get_or log k []) e

is_new-recent : (log : List (List ℕ)) (line : List ℕ) → is_new (recent log) line ≡ is_new log line
is_new-recent log line = elim (Bool-cases (length log == 0)) [
  | inl e ↦
      let z : (length (recent log) == 0) ≡ true =
        ground (arith, length-drop (length log - history_max) log) in
      rw (e, z) refl
  | inr e ↦
      let z : (length (recent log) == 0) ≡ false =
        ground (arith, length-drop (length log - history_max) log) in
      rw (e, z) (rw (last-recent log (ground arith)) refl)
]

recent-append :
    (log : List (List ℕ)) (line : List ℕ)
    → (if length (recent log) == history_max then drop 1 (recent log) else recent log) ++ line ∷ []
      ≡ recent (log ++ line ∷ [])
recent-append log line =
    let size = length-append log (line ∷ []) in
    let d = length log - history_max in
    elim (Bool-cases (length (recent log) == history_max)) [
      | inl e ↦
          let next : length (log ++ line ∷ []) - history_max ≡ suc d =
            ground (arith, size, length-drop d log) in
          rw (e, next)
            (rw (drop_one_more d log)
              (sym (drop-append (suc d) log (line ∷ []) (ground (arith, length-drop d log)))))
      | inr e ↦
          let next : length (log ++ line ∷ []) - history_max ≡ 0 =
            ground (arith, size, length-drop d log) in
          let all : d ≡ 0 = ground (arith, length-drop d log) in rw (e, next) (rw all refl)
    ]

push_history-recent :
    (log : List (List ℕ)) (line : List ℕ)
    → push_history (recent log) line ≡ recent (remember log line)
unfolding push_history remember
push_history-recent log line =
    let same = is_new-recent log line in
    elim (Bool-cases (is_new log line)) [
      | inl e ↦ rw (same ∙ e) (rw e (recent-append log line))
      | inr e ↦ rw (same ∙ e) (rw e refl)
    ]

-- The lines that were run, in the order of their actions, put into the log.
pub logged : List (List ℕ) → List Action → List (List ℕ)
logged log [] = log
logged log (process line ∷ acts) = logged (remember log line) acts
logged log (act ∷ acts) = logged log acts

logged-append :
    (log : List (List ℕ)) (xs ys : List Action) → logged log (xs ++ ys) ≡ logged (logged log xs) ys
unfolding logged
logged-append log [] ys = refl
logged-append log (print t ∷ xs) ys = logged-append log xs ys
logged-append log (clear ∷ xs) ys = logged-append log xs ys
logged-append log (prompt ∷ xs) ys = logged-append log xs ys
logged-append log (process line ∷ xs) ys = logged-append (remember log line) xs ys

-- What a handler did to the history, against the log.
abbrev Logs : List (List ℕ) → List Action × Shell → Type 0
Logs log r = r.1.history ≡ recent (logged log r.0)

module _ (log : List (List ℕ)) (s : Shell) (h : s.history ≡ recent log) where
  on_enter-Logs : Logs log (on_enter s)
  unfolding on_enter logged
  on_enter-Logs = elim (Bool-cases (length s.line == 0)) [
    | inl e ↦ rw e h
    | inr e ↦ rw e (rw h (push_history-recent log s.line))
  ]

  on_char-Logs : (ch : ℕ) → Logs log (on_char ch s)
  unfolding on_char logged
  on_char-Logs ch = elim (Bool-cases (ch == 10)) [
    | inl e ↦ rw e on_enter-Logs
    | inr e ↦ rw e (ground (arith, h))
  ]

  on_ctrl-Logs : (ch : ℕ) → Logs log (on_ctrl ch s)
  unfolding on_ctrl logged
  on_ctrl-Logs ch = ground arith

  on_arrow-Logs : (code : KeyCode) → Logs log (on_arrow code s)
  unfolding on_arrow logged
  on_arrow-Logs code = elim (Bool-cases (length s.history == 0)) [ inl e ↦ rw e h | inr e ↦ rw e h ]

  shell_step-Logs : (ev : KeyEvent) → Logs log (shell_step s ev)
  unfolding shell_step logged
  shell_step-Logs ev = elim (Bool-cases (is_up ev.code || is_down ev.code)) [
    | inl e ↦ rw e (on_arrow-Logs ev.code)
    | inr e ↦ elim (Bool-cases (is_char ev.code)) [
      | inl f ↦ elim (Bool-cases ev.ctrl) [
        | inl g ↦ rw (e, f, g) (on_ctrl-Logs ev.ch)
        | inr g ↦ rw (e, f, g) (on_char-Logs ev.ch)
      ]
      | inr f ↦ rw (e, f) h
    ]
  ]

shell_run-Logs :
    (evs : List KeyEvent) (log : List (List ℕ)) (s : Shell)
    → s.history ≡ recent log
    → Logs log (shell_run s evs)
unfolding shell_run logged
shell_run-Logs [] log s h = h
shell_run-Logs (ev ∷ evs) log s h =
    let r = shell_step s ev in
    let more = shell_run r.1 evs in
    shell_run-Logs evs (logged log r.0) r.1 (shell_step-Logs log s h ev)
    ∙ ap recent (sym (logged-append log r.0 more.0))

-- From the start, whatever keys are pressed, the history is the last 16 lines of the log of all the
-- lines that were run, in which no line is added twice in a row.
pub shell_run-history :
    (evs : List KeyEvent)
    → let r = shell_run shell_start evs in r.1.history ≡ recent (logged [] r.0)
shell_run-history evs = shell_run-Logs evs [] shell_start refl
