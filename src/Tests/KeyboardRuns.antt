-- ===== src/Tests/KeyboardRuns.antt =====
-- kernel/src/keyboard.c with nothing pending.
use choco_os.Keyboard.Table.{entry}
use choco_os.Base.{
  ap, some, ◌≡◌, refl, false, if◌then◌else◌, ◌==◌, [], ◌∷◌, ◌++◌, arith, length, replicate,
}
use choco_os.Keyboard.Wait.{kbd_wait_event, kbd_wait_event-Waited, Waited, receive, receive_all}
use choco_os.Keyboard.{
  KeyEvent, Keyboard, no_event, push_event, keyboard_handler, scancode, press, special_keycode,
  key_char_of,
}
use choco_os.Keyboard.Queue.{IsValid, pending, push_event_refines}

abbrev quiet : Keyboard
quiet = record {
  event_queue = replicate 128 no_event;
  eq_read = 127;
  eq_write = 127;
  shift_down = false;
  ctrl_down = false;
  alt_down = false;
  caps_on = false;
  seen_release = false;
  seen_extended = false;
}

quiet-IsValid : IsValid quiet
quiet-IsValid = record { size = refl; read_in = omega arith; write_in = omega arith }

push_event_refines_example :
    pending (push_event quiet no_event)
    ≡ (if length (pending quiet) == 127 then pending quiet else pending quiet ++ (no_event ∷ []))
push_event_refines_example = push_event_refines quiet no_event quiet-IsValid

-- Nothing, then the A key: its event is waited for.
kbd_wait_event-Waited_example :
    (e : KeyEvent) × (k : Keyboard) × (kbd_wait_event ([] ∷ (0x1c ∷ []) ∷ []) quiet ≡ some (e, k))
    × Waited ([] ∷ (0x1c ∷ []) ∷ []) quiet e k
unfolding receive receive_all keyboard_handler scancode press push_event special_keycode key_char_of
    entry
kbd_wait_event-Waited_example =
    kbd_wait_event-Waited ([] ∷ (0x1c ∷ []) ∷ []) quiet quiet-IsValid
      (λ none_there. let one_there : 1 ≡ 0 = ap length none_there in absurd (omega arith))
