-- ===== src/Keyboard/Decode.antt =====
-- What the decoder of kernel/src/keyboard.c makes of a byte stream.
use mathlib.Core.Bool.{xor}
use choco_os.Base.{
  ℕ, ◌-◌, ◌<◌, ◌≡◌, ◌≢◌, refl, ap, Bool, true, false, not, ◌&&◌, ◌||◌, leb, ◌==◌, if◌then◌else◌,
  some, [], ◌∷◌, arith, holds_below, holds_below_at,
}
use choco_os.Keyboard.{
  KeyEvent, key_char, event, extended_keycode, is_none, Keyboard, push_event, kbd_poll_event,
  scancode, press, special_keycode, keyboard_handler, key_char_of, key_of_char, keyboard_get_key,
  key_of_event,
}
use choco_os.Keyboard.Table.{sc2_ascii, entry}
use choco_os.Keyboard.Queue.{
  IsValid, pending, count, push_event_refines, kbd_poll_event_refines, push_event-IsValid,
}

-- The plain table gives a letter.
abbrev pub is_letter : ℕ → Bool
is_letter sc = leb b'a' (entry sc2_ascii sc) && leb (entry sc2_ascii sc) b'z'

abbrev letter_test : Bool → Bool → ℕ → Bool
letter_test shift caps sc =
    not (is_letter sc)
    || key_char_of shift caps sc
      == (if xor shift caps then entry sc2_ascii sc - 32 else entry sc2_ascii sc)

letter_table : (shift caps : Bool) → holds_below 128 (letter_test shift caps) ≡ true
unfolding holds_below key_char_of xor
letter_table true true = refl
letter_table true false = refl
letter_table false true = refl
letter_table false false = refl

-- On a letter's scancode the character is the capital letter when exactly one of shift and caps
-- lock is on, and else the small letter.
pub key_char_of_letter :
    (shift caps : Bool) (sc : ℕ)
    → sc < 128
    → is_letter sc ≡ true
    → key_char_of shift caps sc
      ≡ (if xor shift caps then entry sc2_ascii sc - 32 else entry sc2_ascii sc)
key_char_of_letter shift caps sc h l =
    let t = holds_below_at 128 (letter_test shift caps) sc (letter_table shift caps) h in
    ground arith

push_event-flags :
    (k : Keyboard) (ev : KeyEvent)
    → ((push_event k ev).seen_extended ≡ k.seen_extended)
      × ((push_event k ev).seen_release ≡ k.seen_release)
unfolding push_event
push_event-flags k ev = ground arith

press-flags :
    (k : Keyboard) (ext : Bool) (sc : ℕ)
    → ((press k ext sc).seen_extended ≡ k.seen_extended)
      × ((press k ext sc).seen_release ≡ k.seen_release)
unfolding press
press-flags k true sc = ground (arith, push_event-flags k (event k (extended_keycode sc) 0))
press-flags k false sc = ground (
  arith,
  push_event-flags k (event k (special_keycode sc) 0),
  push_event-flags k (event k key_char (key_char_of k.shift_down k.caps_on sc)),
)

-- A byte that is no prefix clears both prefix flags.
pub keyboard_handler-flags :
    (k : Keyboard) (sc : ℕ)
    → sc ≢ 0xe0
    → sc ≢ 0xf0
    → ((keyboard_handler k sc).seen_extended ≡ false)
      × ((keyboard_handler k sc).seen_release ≡ false)
unfolding keyboard_handler scancode
keyboard_handler-flags k sc e r =
    let k' = record k { seen_extended = false; seen_release = false } in
    ground (arith, press-flags k' k.seen_extended sc)

-- A byte after the release prefix queues no event and leaves caps lock as it is.
pub keyboard_handler_release :
    (k : Keyboard) (sc : ℕ)
    → k.seen_release ≡ true
    → (pending (keyboard_handler k sc) ≡ pending k) × ((keyboard_handler k sc).caps_on ≡ k.caps_on)
unfolding keyboard_handler scancode
keyboard_handler_release k sc r = ground arith

-- A letter's scancode is no prefix, no modifier and no special key, and its character stands, in
-- either case, for the key of its place in the alphabet.
abbrev plain_test : Bool → Bool → ℕ → Bool
plain_test shift caps sc =
    not (is_letter sc)
    || (not (sc == 0x12 || sc == 0x59)
        && not (sc == 0x14)
        && not (sc == 0x11)
        && not (sc == 0x58)
        && is_none (special_keycode sc)
        && not (key_char_of shift caps sc == 0)
        && (key_of_char (key_char_of shift caps sc) == (entry sc2_ascii sc - b'a')))

plain_table : (shift caps : Bool) → holds_below 128 (plain_test shift caps) ≡ true
unfolding holds_below key_char_of special_keycode key_of_char
plain_table true true = refl
plain_table true false = refl
plain_table false true = refl
plain_table false false = refl

abbrev fresh : Keyboard → Keyboard
fresh k = record k { seen_extended = false; seen_release = false }

abbrev letter_event : Keyboard → ℕ → KeyEvent
letter_event k sc = event (fresh k) key_char (key_char_of k.shift_down k.caps_on sc)

keyboard_handler_letter :
    (k : Keyboard) (sc : ℕ)
    → k.seen_extended ≡ false
    → k.seen_release ≡ false
    → sc < 128
    → is_letter sc ≡ true
    → (keyboard_handler k sc ≡ push_event (fresh k) (letter_event k sc))
      × (key_of_char (key_char_of k.shift_down k.caps_on sc) ≡ entry sc2_ascii sc - b'a')
unfolding keyboard_handler scancode press
keyboard_handler_letter k sc ne nr h l =
    let t =
      holds_below_at 128 (plain_test k.shift_down k.caps_on) sc (plain_table k.shift_down k.caps_on)
        h in
    let small : leb 0x80 sc ≡ false = ground arith in
    let facts : ((sc == 0x12 || sc == 0x59) ≡ false)
        × ((sc == 0x14) ≡ false)
        × ((sc == 0x11) ≡ false)
        × ((sc == 0x58) ≡ false)
        × (is_none (special_keycode sc) ≡ true)
        × ((key_char_of k.shift_down k.caps_on sc == 0) ≡ false)
        × (key_of_char (key_char_of k.shift_down k.caps_on sc) ≡ entry sc2_ascii sc - b'a') =
      ground arith in
    let prefix : ((sc == 0xe0) ≡ false) × ((sc == 0xf0) ≡ false) = ground arith in
    (
      rw (ne, nr, prefix.0, prefix.1, facts.0, facts.1, facts.2, facts.3)
          (rw (facts.4, small, facts.5)),
      facts.6,
    )

-- A letter that is pressed while nothing is pending, on a valid ring and with no prefix seen, is read
-- back by the games' interface as the key of that letter, whatever shift, control, alt
-- and caps lock are.
pub keyboard_get_key_letter :
    (k : Keyboard) (sc : ℕ)
    → IsValid k
    → k.eq_read ≡ k.eq_write
    → k.seen_extended ≡ false
    → k.seen_release ≡ false
    → sc < 128
    → is_letter sc ≡ true
    → (keyboard_get_key (keyboard_handler k sc)).0 ≡ entry sc2_ascii sc - b'a'
unfolding keyboard_get_key key_of_event
keyboard_get_key_letter k sc v none_left ne nr h l =
    let e = keyboard_handler_letter k sc ne nr h l in
    let k' = fresh k in
    let v' : IsValid k' = record { size = v.size; read_in = v.read_in; write_in = v.write_in } in
    let c : count k ≡ 0 = omega arith in
    let pushed : pending (push_event k' (letter_event k sc)) ≡ letter_event k sc ∷ [] =
      rw c at (push_event_refines k' (letter_event k sc) v') in
    let polled : (kbd_poll_event (push_event k' (letter_event k sc))).0 ≡ some (letter_event k sc) =
      ap (λ p. p.0)
        (rw pushed at (
          kbd_poll_event_refines (push_event k' (letter_event k sc))
            (push_event-IsValid k' (letter_event k sc) v'))) in
    rw e.0 (rw (polled, keyboard_get_key) e.1)
