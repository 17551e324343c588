-- ===== src/Keyboard.antt =====
-- kernel/src/keyboard.c: scancodes of set 2 into key events, and the ring of pending events.
-- The handler's `inb(0x60)` is its argument.
pub mod Decode
pub mod Queue
pub mod Table
pub mod Wait
use choco_os.Base.{
  ℕ, ◌+◌, ◌-◌, ◌%◌, Bool, true, false, not, ◌&&◌, ◌||◌, ltb, leb, ◌==◌, if◌then◌else◌, Option, none,
  some, List, get_or, set,
}
use Table.{sc2_ascii, sc2_ascii_shift, entry}

-- `KeyCode` of keyboard.h, with its constructors in order.
pub data KeyCode : Type 0 where
  key_none key_char key_up key_down key_left key_right key_home key_end : KeyCode
  key_pgup key_pgdn key_delete key_escape key_tab key_f1 key_f2 key_f3 key_f4 : KeyCode

pub record KeyEvent : Type 0 where
  pub code : KeyCode
  pub ch : ℕ
  pub ctrl : Bool
  pub alt : Bool

abbrev pub no_event : KeyEvent
no_event = record { code = key_none; ch = 0; ctrl = false; alt = false }

abbrev pub event_queue_size : ℕ
event_queue_size = 128

-- The static variables of keyboard.c.
pub record Keyboard : Type 0 where
  pub event_queue : List KeyEvent
  pub eq_read : ℕ
  pub eq_write : ℕ
  pub shift_down : Bool
  pub ctrl_down : Bool
  pub alt_down : Bool
  pub caps_on : Bool
  pub seen_release : Bool
  pub seen_extended : Bool

unfoldable pub push_event : Keyboard → KeyEvent → Keyboard
push_event k ev =
    let next = (k.eq_write + 1) % event_queue_size in
    if next == k.eq_read
    then k
    else record k { event_queue = set k.event_queue k.eq_write ev; eq_write = next }

pub extended_keycode : ℕ → KeyCode
extended_keycode sc =
    if sc == 0x75
    then key_up
    else if sc == 0x72
    then key_down
    else if sc == 0x6b
    then key_left
    else if sc == 0x74
    then key_right
    else if sc == 0x6c
    then key_home
    else if sc == 0x69
    then key_end
    else if sc == 0x7d
    then key_pgup
    else if sc == 0x7a
    then key_pgdn
    else if sc == 0x71
    then key_delete
    else key_none

-- The `switch` on the keys that have no character.
unfoldable pub special_keycode : ℕ → KeyCode
special_keycode sc =
    if sc == 0x76
    then key_escape
    else if sc == 0x05
    then key_f1
    else if sc == 0x06
    then key_f2
    else if sc == 0x04
    then key_f3
    else if sc == 0x0c
    then key_f4
    else key_none

abbrev pub is_none : KeyCode → Bool
is_none key_none = true
is_none _ = false

-- The character of a scancode under the modifiers, 0 for none.
unfoldable pub key_char_of : (shift caps : Bool) → ℕ → ℕ
unfolding entry
key_char_of shift caps sc =
    let c = if shift then entry sc2_ascii_shift sc else entry sc2_ascii sc in
    if caps && not shift && leb b'a' c && leb c b'z'
    then c - b'a' + b'A'
    else if caps && shift && leb b'A' c && leb c b'Z'
    then c - b'A' + b'a'
    else c

abbrev pub event : Keyboard → KeyCode → ℕ → KeyEvent
event k code ch = record { code = code; ch = ch; ctrl = k.ctrl_down; alt = k.alt_down }

-- The part of `keyboard_handler` behind the modifiers: a key that is pressed.
unfoldable pub press : Keyboard → (ext : Bool) → ℕ → Keyboard
press k true sc =
    if is_none (extended_keycode sc) then k else push_event k (event k (extended_keycode sc) 0)
press k false sc =
    if not (is_none (special_keycode sc))
    then push_event k (event k (special_keycode sc) 0)
    else if leb 0x80 sc
    then k
    else if key_char_of k.shift_down k.caps_on sc == 0
    then k
    else push_event k (event k key_char (key_char_of k.shift_down k.caps_on sc))

-- The part behind the prefix bytes; `k` has both prefix flags cleared.
unfoldable pub scancode : Keyboard → (ext release : Bool) → ℕ → Keyboard
scancode k ext release sc =
    if not ext && (sc == 0x12 || sc == 0x59)
    then record k { shift_down = not release }
    else if sc == 0x14
    then record k { ctrl_down = not release }
    else if sc == 0x11
    then record k { alt_down = not release }
    else if not ext && sc == 0x58
    then (if release then k else record k { caps_on = not k.caps_on })
    else if release
    then k
    else press k ext sc

unfoldable pub keyboard_handler : Keyboard → ℕ → Keyboard
keyboard_handler k sc =
    if sc == 0xe0
    then record k { seen_extended = true }
    else if sc == 0xf0
    then record k { seen_release = true }
    else scancode (record k { seen_extended = false; seen_release = false }) k.seen_extended
        k.seen_release sc

-- `kbd_poll_event`: `none` for false.
pub kbd_poll_event : Keyboard → Option KeyEvent × Keyboard
kbd_poll_event k = if k.eq_read == k.eq_write then (none, k) else (
  some (get_or k.event_queue k.eq_read no_event),
  record k { eq_read = (k.eq_read + 1) % event_queue_size },
)

pub kbd_flush : Keyboard → Keyboard
kbd_flush k = record k { eq_read = k.eq_write }

-- `Key`: the enumeration's numbers, `A` to `Z` from 0.
abbrev pub key_enter : ℕ
key_enter = 26

abbrev pub key_space : ℕ
key_space = 27

abbrev pub escape : ℕ
escape = 28

abbrev pub backspace : ℕ
backspace = 29

abbrev pub none_key : ℕ
none_key = 30

-- The character's key in `keyboard_get_key`.
pub key_of_char : ℕ → ℕ
key_of_char ch =
    let c = if leb b'A' ch && leb ch b'Z' then ch - b'A' + b'a' else ch in
    if leb b'a' c && leb c b'z'
    then c - b'a'
    else if c == 10
    then key_enter
    else if c == 32
    then key_space
    else if c == 8
    then backspace
    else none_key

pub key_of_event : KeyEvent → ℕ
key_of_event ev = elim ev.code [ key_escape ↦ escape | key_char ↦ key_of_char ev.ch | _ ↦ none_key ]

pub keyboard_get_key : Keyboard → ℕ × Keyboard
keyboard_get_key k =
    let (ev, k') = kbd_poll_event k in
    elim ev [ none ↦ (none_key, k') | some e ↦ (key_of_event e, k') ]

pub keyboard_key_to_char : ℕ → ℕ
keyboard_key_to_char key =
    if leb key 25
    then b'a' + key
    else if key == key_space
    then 32
    else if key == backspace
    then 8
    else 0
