-- ===== src/Keyboard/Wait.antt =====
-- kernel/src/keyboard.c: waiting for an event. `arrivals` are the bytes that the interrupt handler gets
-- between one poll and the next, as the scheduler or `hlt` lets other code run.
use choco_os.Base.{
  zero, take, length, ◌≤◌, ◌<◌, ◌+◌, ◌%◌, suc, ℕ, ◌≡◌, ◌≢◌, ◌==◌, true, false, refl, ◌∙◌, ap,
  Bool-cases, inl, inr, Option, none, some, List, [], ◌∷◌, get_or, arith,
}
use choco_os.Keyboard.{
  KeyEvent, Keyboard, no_event, event_queue_size, kbd_poll_event, keyboard_handler,
}
use choco_os.Keyboard.Queue.{IsValid, pending, count, window, keyboard_handler-IsValid}

-- The interrupts of some bytes, one after the other.
unfoldable pub receive : List ℕ → Keyboard → Keyboard
receive [] k = k
receive (sc ∷ bytes) k = receive bytes (keyboard_handler k sc)

unfoldable pub receive_all : List (List ℕ) → Keyboard → Keyboard
receive_all [] k = k
receive_all (bytes ∷ later) k = receive_all later (receive bytes k)

-- The loop's test, with what comes of the rounds behind it.
abbrev pub answer :
    Option KeyEvent × Keyboard
    → (rest : Option (KeyEvent × Keyboard)) → Option (KeyEvent × Keyboard)
answer polled rest = elim polled.0 [ none ↦ rest | some e ↦ some (e, polled.1) ]

-- `none` while the bytes that arrive have given no event.
pub kbd_wait_event : (arrivals : List (List ℕ)) → Keyboard → Option (KeyEvent × Keyboard)
kbd_wait_event [] k = answer (kbd_poll_event k) none
kbd_wait_event (bytes ∷ later) k =
    let rest = kbd_wait_event later (receive bytes k) in answer (kbd_poll_event k) rest

receive-IsValid : (bytes : List ℕ) (k : Keyboard) → IsValid k → IsValid (receive bytes k)
unfolding receive
receive-IsValid [] k v = v
receive-IsValid (sc ∷ bytes) k v =
    receive-IsValid bytes (keyboard_handler k sc) (keyboard_handler-IsValid k sc v)

-- What a wait gives: the oldest event of the ring at the first poll that finds one, which is behind the
-- first `polls` groups of bytes. The ring stays valid and keeps the other events.
pub record Waited (arrivals : List (List ℕ)) (k : Keyboard) (e : KeyEvent) (k' : Keyboard)
    : Type 0 where
  pub polls : ℕ
  pub in_time : polls ≤ length arrivals
  pub quiet : (i : ℕ) → i < polls → pending (receive_all (take i arrivals) k) ≡ []
  pub oldest : pending (receive_all (take polls arrivals) k) ≡ e ∷ pending k'
  pub valid : IsValid k'

poll_quiet : (k : Keyboard) → (k.eq_read == k.eq_write) ≡ true → kbd_poll_event k ≡ (none, k)
unfolding kbd_poll_event
poll_quiet k h = rw (h, kbd_poll_event) refl

poll_ready :
    (k : Keyboard)
    → IsValid k
    → (k.eq_read == k.eq_write) ≡ false
    → (e : KeyEvent) × (k' : Keyboard) × (kbd_poll_event k ≡ (some e, k'))
      × (pending k ≡ e ∷ pending k')
      × IsValid k'
unfolding kbd_poll_event
poll_ready k v h =
    let k' : Keyboard = record k { eq_read = (k.eq_read + 1) % event_queue_size } in
    let c : count k ≡ suc (count k') = ground arith in
    (
      get_or k.event_queue k.eq_read no_event,
      k',
      rw (h, kbd_poll_event) refl,
      rw c refl,
      record { size = v.size; read_in = omega arith; write_in = v.write_in },
    )

-- A wait that ends at its first poll.
at_once :
    (arrivals : List (List ℕ)) (k : Keyboard) (e : KeyEvent) (k' : Keyboard)
    → pending k ≡ e ∷ pending k'
    → IsValid k'
    → Waited arrivals k e k'
unfolding receive_all
at_once arrivals k e k' oldest v = record {
  polls = 0;
  in_time = omega arith;
  quiet = λ i h. absurd (omega arith);
  oldest = oldest;
  valid = v;
}

one_more_quiet :
    (bytes : List ℕ) (later : List (List ℕ)) (k : Keyboard) (polls : ℕ)
    → pending k ≡ []
    → ((i : ℕ) → i < polls → pending (receive_all (take i later) (receive bytes k)) ≡ [])
    → (i : ℕ) → i < suc polls
    → pending (receive_all (take i (bytes ∷ later)) k) ≡ []
unfolding receive_all
one_more_quiet bytes later k polls h q zero lt = h
one_more_quiet bytes later k polls h q (suc i) lt = q i (omega arith)

-- One poll that finds nothing, and the rest of the wait.
one_more :
    (bytes : List ℕ) (later : List (List ℕ)) (k : Keyboard) (e : KeyEvent) (k' : Keyboard)
    → pending k ≡ []
    → Waited later (receive bytes k) e k'
    → Waited (bytes ∷ later) k e k'
unfolding receive_all
one_more bytes later k e k' none_there w =
    let quiet : (i : ℕ) → i < suc w.polls → pending (receive_all (take i (bytes ∷ later)) k) ≡ [] =
      one_more_quiet bytes later k w.polls none_there w.quiet in
    record {
      polls = suc w.polls;
      in_time = omega (arith, w.in_time);
      quiet = quiet;
      oldest = w.oldest;
      valid = w.valid;
    }

nothing_pending : (k : Keyboard) → IsValid k → (k.eq_read == k.eq_write) ≡ true → pending k ≡ []
nothing_pending k v e = let c : count k ≡ 0 = ground arith in ap (window k.event_queue k.eq_read) c

-- `kbd_wait_event` returns once the bytes that arrive leave an event pending: at the first poll that finds
-- one it takes the oldest event of the ring, which is then valid and holds the others in their order.
pub kbd_wait_event-Waited :
    (arrivals : List (List ℕ)) (k : Keyboard)
    → IsValid k
    → pending (receive_all arrivals k) ≢ []
    → (e : KeyEvent) × (k' : Keyboard) × (kbd_wait_event arrivals k ≡ some (e, k'))
      × Waited arrivals k e k'
unfolding kbd_wait_event receive_all
kbd_wait_event-Waited [] k v h = elim (Bool-cases (k.eq_read == k.eq_write)) [
  | inl e ↦ absurd (h (nothing_pending k v e))
  | inr e ↦
      let (ev, k', poll, oldest, valid) = poll_ready k v e in
      (ev, k', ap (λ p. answer p none) poll, at_once [] k ev k' oldest valid)
]
kbd_wait_event-Waited (bytes ∷ later) k v h =
    let rest = kbd_wait_event later (receive bytes k) in
    elim (Bool-cases (k.eq_read == k.eq_write)) [
      | inl e ↦
          let (ev, k', run, w) =
            kbd_wait_event-Waited later (receive bytes k) (receive-IsValid bytes k v) h in
          (
            ev,
            k',
            ap (λ p. answer p rest) (poll_quiet k e) ∙ run,
            one_more bytes later k ev k' (nothing_pending k v e) w,
          )
      | inr e ↦
          let (ev, k', poll, oldest, valid) = poll_ready k v e in
          (ev, k', ap (λ p. answer p rest) poll, at_once (bytes ∷ later) k ev k' oldest valid)
    ]
