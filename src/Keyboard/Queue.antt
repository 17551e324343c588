-- ===== src/Keyboard/Queue.antt =====
-- The event ring of kernel/src/keyboard.c against a queue of at most 127 events.
use choco_os.Base.{
  ℕ, zero, suc, ◌+◌, ◌-◌, ◌%◌, ◌<◌, ◌≡◌, refl, ap, ap₂, Bool, true, false, ◌==◌, Bool-cases, inl,
  inr, if◌then◌else◌, Option, none, some, List, [], ◌∷◌, ◌++◌, arith, length, get_or, set,
  length-set, get_or-set_self, get_or-set_ne,
}
use choco_os.Keyboard.{
  KeyEvent, no_event, Keyboard, push_event, kbd_poll_event, scancode, press, event,
  extended_keycode, special_keycode, key_char_of, key_char, keyboard_handler,
}

pub record IsValid (k : Keyboard) : Type 0 where
  pub size : length k.event_queue ≡ 128
  pub read_in : k.eq_read < 128
  pub write_in : k.eq_write < 128

-- The `n` events from index `r` on, round the ring.
abbrev pub window : List KeyEvent → ℕ → ℕ → List KeyEvent
window buf r zero = []
window buf r (suc n) = get_or buf r no_event ∷ window buf ((r + 1) % 128) n

abbrev pub count : Keyboard → ℕ
count k = (k.eq_write + 128 - k.eq_read) % 128

-- The pending events, oldest first.
abbrev pub pending : Keyboard → List KeyEvent
pending k = window k.event_queue k.eq_read (count k)

length-window : (buf : List KeyEvent) (r n : ℕ) → length (window buf r n) ≡ n
length-window buf r zero = refl
length-window buf r (suc n) = ap suc (length-window buf ((r + 1) % 128) n)

pub length-pending : (k : Keyboard) → length (pending k) ≡ count k
length-pending k = length-window k.event_queue k.eq_read (count k)

window-set :
    (buf : List KeyEvent) (ev : KeyEvent) (n r i : ℕ)
    → length buf ≡ 128
    → r < 128
    → n < 128
    → i ≡ (r + n) % 128
    → window (set buf i ev) r (suc n) ≡ window buf r n ++ (ev ∷ [])
window-set buf ev zero r i size hr hn e =
    let ri : r ≡ i = omega arith in
    ap (λ x. x ∷ []) (rw ri (get_or-set_self buf i ev no_event (omega arith)))
window-set buf ev (suc n) r i size hr hn e =
    ap₂ ◌∷◌ (get_or-set_ne buf i r ev no_event (omega arith))
      (window-set buf ev n ((r + 1) % 128) i size (omega arith) (omega arith) (omega arith))

-- `push_event` on a valid ring appends the event to those pending, and drops it when 127 are pending.
pub push_event_refines :
    (k : Keyboard) (ev : KeyEvent)
    → IsValid k
    → pending (push_event k ev)
      ≡ (if length (pending k) == 127 then pending k else pending k ++ (ev ∷ []))
unfolding push_event
push_event_refines k ev v = elim (Bool-cases (((k.eq_write + 1) % 128) == k.eq_read)) [
  | inl full ↦ let c : (count k == 127) ≡ true = ground arith in rw (length-pending k, full, c)
  | inr room ↦
      let c : (count k == 127) ≡ false = ground arith in
      let grown : ((k.eq_write + 1) % 128 + 128 - k.eq_read) % 128 ≡ suc (count k) = ground arith in
      rw (length-pending k, room, c, grown)
        (window-set k.event_queue ev (count k) k.eq_read k.eq_write v.size v.read_in (omega arith)
          (omega arith))
]

pub push_event-IsValid : (k : Keyboard) (ev : KeyEvent) → IsValid k → IsValid (push_event k ev)
unfolding push_event
push_event-IsValid k ev v = ground (arith, length-set k.event_queue k.eq_write ev)

pub press-IsValid : (k : Keyboard) (ext : Bool) (sc : ℕ) → IsValid k → IsValid (press k ext sc)
unfolding press
press-IsValid k true sc v = ground (arith, push_event-IsValid k (event k (extended_keycode sc) 0))
press-IsValid k false sc v = ground (
  arith,
  push_event-IsValid k (event k (special_keycode sc) 0),
  push_event-IsValid k (event k key_char (key_char_of k.shift_down k.caps_on sc)),
)

pub scancode-IsValid :
    (k : Keyboard) (ext release : Bool) (sc : ℕ) → IsValid k → IsValid (scancode k ext release sc)
unfolding scancode
scancode-IsValid k ext release sc v = ground (arith, press-IsValid k ext sc)

-- The interrupt handler keeps the event ring valid on every scancode byte.
pub keyboard_handler-IsValid : (k : Keyboard) (sc : ℕ) → IsValid k → IsValid (keyboard_handler k sc)
unfolding keyboard_handler
keyboard_handler-IsValid k sc v =
    let k' = record k { seen_extended = false; seen_release = false } in
    ground (arith, scancode-IsValid k' k.seen_extended k.seen_release sc)

-- The two results of a queue of events.
abbrev pub pop : List KeyEvent → Option KeyEvent × List KeyEvent
pop [] = (none, [])
pop (x ∷ xs) = (some x, xs)

-- `kbd_poll_event` on a valid ring takes the oldest pending event, and returns false and changes
-- nothing pending when there is none.
pub kbd_poll_event_refines :
    (k : Keyboard)
    → IsValid k
    → ((kbd_poll_event k).0, pending (kbd_poll_event k).1) ≡ pop (pending k)
unfolding kbd_poll_event
kbd_poll_event_refines k v = elim (Bool-cases (k.eq_read == k.eq_write)) [
  | inl none_left ↦ let c : count k ≡ 0 = ground arith in rw (none_left, c)
  | inr some_left ↦
      let rest = (k.eq_write + 128 - (k.eq_read + 1) % 128) % 128 in
      let c : count k ≡ suc rest = ground arith in rw (some_left, c)
]
