-- ===== src/Sched.antt =====
-- kernel/src/sched.c: the round-robin scheduler. A `Thread *` is its address, 0 for NULL, and the
-- thread structures are a total map from addresses. Every operation runs with interrupts off on one
-- core, so it is one step. `malloc` and the timer are outside: their results are arguments (`now`
-- for `timer_get_ticks()`); the addresses given to `free` are listed. The FPU image of a thread and
-- of the processor is its 512 bytes; the thread's name and the frame that `thread_create` writes
-- on the new stack are not modelled, and `next_id` is not bounded, where C has an int.
pub mod Ring
pub mod Create
pub mod Wake
pub mod Preempt
pub mod Switch
pub mod Pick
pub mod Reap
use choco_os.Base.{
  ℕ, zero, suc, ◌+◌, ◌-◌, ◌*◌, ◌/◌, ◌%◌, ◌^◌, Bool, true, false, not, ◌&&◌, ◌||◌, ltb, leb, ◌==◌,
  if◌then◌else◌, Option, none, some, List, [], ◌∷◌, ◌++◌, add_word, sub_word, set, replicate,
}

pub data ThreadState : Type 0 where
  ready running sleeping zombie : ThreadState

pub record Thread : Type 0 where
  pub fxsave : List ℕ
  pub rsp : ℕ
  pub id : ℕ
  pub state : ThreadState
  pub wake_tick : ℕ
  pub stack_base : ℕ
  pub next : ℕ

abbrev pub Threads : Type 0
Threads = ℕ → Thread

abbrev pub null : ℕ
null = 0

abbrev pub stack_size : ℕ
stack_size = 64 * 1024

abbrev pub quantum_ticks : ℕ
quantum_ticks = 5

abbrev pub is_running : ThreadState → Bool
is_running running = true
is_running _ = false

abbrev pub is_sleeping : ThreadState → Bool
is_sleeping sleeping = true
is_sleeping _ = false

abbrev pub is_zombie : ThreadState → Bool
is_zombie zombie = true
is_zombie _ = false

-- `T_READY` or `T_RUNNING`
abbrev pub is_runnable : ThreadState → Bool
is_runnable ready = true
is_runnable running = true
is_runnable _ = false

-- The static variables of sched.c, with the FPU and what was given to `free`, latest first.
pub record Sched : Type 0 where
  pub threads : Threads
  pub current : ℕ
  pub ring : ℕ
  pub active : Bool
  pub next_id : ℕ
  pub slice_start : ℕ
  pub fpu : List ℕ
  pub freed : List ℕ

unfoldable pub store : Threads → ℕ → Thread → Threads
store m p t a = if a == p then t else m a

pub sched_init : Sched → Sched
sched_init s = record s { ring = null; current = null; active = false }

pub ring_insert : Sched → ℕ → Sched
unfolding store
ring_insert s t =
    if s.ring == null
    then record s { ring = t; threads = store s.threads t (record (s.threads t) { next = t }) }
    else let m1 = store s.threads t (record (s.threads t) { next = (s.threads s.ring).next }) in
      record s { threads = store m1 s.ring (record (m1 s.ring) { next = t }) }

-- The words that `thread_create` pushes from `top` down, in the order of the pushes.
pub initial_frame : (top trampoline fn arg : ℕ) → List ℕ
initial_frame top trampoline fn arg =
    0x30
    ∷ (top - 8)
    ∷ 0x202
    ∷ 0x28
    ∷ trampoline
    ∷ 0
    ∷ 0
    ∷ 0
    ∷ 0
    ∷ 0
    ∷ fn
    ∷ arg
    ∷ 0
    ∷ 0
    ∷ 0
    ∷ 0
    ∷ 0
    ∷ 0
    ∷ 0
    ∷ 0
    ∷ []

-- `((uint64_t)t->stack_base + STACK_SIZE) & ~0xFull`
abbrev pub stack_top : ℕ → ℕ
stack_top base = add_word 64 base stack_size / 16 * 16

-- `fxarea_init`: zeros, the x87 control word 0x037F and MXCSR 0x1F80, low byte first.
abbrev pub fxarea_init : List ℕ
fxarea_init = set (set (set (set (replicate 512 0) 0 0x7f) 1 0x03) 24 0x80) 25 0x1f

-- `thread_create`: `t` and `stack` are what the two calls of `malloc` return. The result is the id,
-- or `none` for -1. The frame goes to the stack's bytes, which are not part of the state.
pub thread_create : (t stack : ℕ) → Sched → Option ℕ × Sched
thread_create t stack s =
    if t == null
    then (none, s)
    else if stack == null
    then (none, record s { freed = t ∷ s.freed })
    else let id = s.next_id + 1 in
      let fresh : Thread = record {
        fxsave = fxarea_init;
        rsp = sub_word 64 (stack_top stack) (8 * 20);
        id = id;
        state = ready;
        wake_tick = 0;
        stack_base = stack;
        next = null;
      } in
      (some id, ring_insert (record s { threads = store s.threads t fresh; next_id = id }) t)

-- `sched_start` up to its endless `hlt` loop; the idle thread's structure is at `idle`.
pub sched_start : (idle now : ℕ) → Sched → Sched
sched_start idle now s =
    let t : Thread = record {
      fxsave = fxarea_init;
      rsp = 0;
      id = 0;
      state = running;
      wake_tick = 0;
      stack_base = null;
      next = null;
    } in
    let s' = ring_insert (record s { threads = store s.threads idle t }) idle in
    record s' { current = idle; slice_start = now; active = true }

-- One turn of the loop of `reap_zombies` at `p`: the new state and the new `p`.
pub reap_step : Sched → ℕ → Sched × ℕ
unfolding store
reap_step s p =
    let n = (s.threads p).next in
    if is_zombie (s.threads n).state && not (n == s.current) && not (n == s.ring)
    then (
      record s {
        threads = store s.threads p (record (s.threads p) { next = (s.threads n).next });
        freed = n ∷ (s.threads n).stack_base ∷ s.freed;
      },
      p,
    )
    else (s, n)

-- `do … while (p != ring)`
pub reap_loop : ℕ → Sched → ℕ → Option Sched
reap_loop zero s p = none
reap_loop (suc fuel) s p =
    let rest = reap_loop fuel (reap_step s p).0 (reap_step s p).1 in
    if (reap_step s p).1 == s.ring then some (reap_step s p).0 else rest

pub reap_zombies : ℕ → Sched → Option Sched
reap_zombies fuel s = if s.ring == null then some s else reap_loop fuel s s.ring

abbrev pub woken : ℕ → Thread → Thread
woken now t = if is_sleeping t.state && leb t.wake_tick now then record t { state = ready } else t

-- The loop that wakes sleepers, from `t` round to `cur`.
pub wake_loop : ℕ → (now cur : ℕ) → Threads → ℕ → Option Threads
unfolding store
wake_loop zero now cur m t = none
wake_loop (suc fuel) now cur m t =
    let m' = store m t (woken now (m t)) in
    let rest = wake_loop fuel now cur m' (m' t).next in if (m' t).next == cur then some m' else rest

pub data Search : Type 0 where
  found : ℕ → Search
  missing : Search
  out_of_fuel : Search

-- `for (t = …;; t = t->next) { if (test) { next = t; break; } if (t == current) break; }`
pub pick_loop : ℕ → (Thread → Bool) → Threads → (cur t : ℕ) → Search
pick_loop zero test m cur t = out_of_fuel
pick_loop (suc fuel) test m cur t =
    let rest = pick_loop fuel test m cur (m t).next in
    if test (m t) then found t else if t == cur then missing else rest

abbrev pub not_idle : Thread → Bool
not_idle t = is_runnable t.state && not (t.id == 0)

abbrev pub any_runnable : Thread → Bool
any_runnable t = is_runnable t.state

-- `if (!next)`: the second loop counts only if the first finds nobody.
abbrev pub or_else : Search → Search → Search
or_else missing s = s
or_else (found t) s = found t
or_else out_of_fuel s = out_of_fuel

-- The choice: anyone but idle first, then anyone.
pub pick_next : ℕ → Threads → ℕ → Search
pick_next fuel m cur =
    or_else (pick_loop fuel not_idle m cur (m cur).next)
      (pick_loop fuel any_runnable m cur (m cur).next)

-- The context switch to `next`: the stack pointer to continue with, and the new state.
pub switch_to : (rsp now next : ℕ) → Sched → ℕ × Sched
unfolding store
switch_to rsp now next s =
    let c = s.threads s.current in
    let m1 = store s.threads s.current (record c {
      rsp = rsp;
      state = if is_running c.state then ready else c.state;
      fxsave = s.fpu;
    }) in
    let m2 = store m1 next (record (m1 next) { state = running }) in
    (
      (m2 next).rsp,
      record s { threads = m2; current = next; fpu = (m2 next).fxsave; slice_start = now },
    )

pub dispatch : (rsp now : ℕ) → Sched → Search → Option (ℕ × Sched)
dispatch rsp now s (found next) =
    some (if next == s.current then (rsp, s) else switch_to rsp now next s)
dispatch rsp now s missing = some (rsp, s)
dispatch rsp now s out_of_fuel = none

-- `sched_preempt`; `fuel` bounds each of its loops, and `none` means that it ran out.
pub sched_preempt : ℕ → (rsp now : ℕ) → Sched → Option (ℕ × Sched)
sched_preempt fuel rsp now s =
    if not s.active || s.current == null
    then some (rsp, s)
    else elim (wake_loop fuel now s.current s.threads s.current) [
      | none ↦ none
      | some m ↦ elim (reap_zombies fuel (record s { threads = m })) [
        | none ↦ none
        | some s' ↦ dispatch rsp now s' (pick_next fuel s'.threads s'.current)
      ]
    ]

pub sched_tick : ℕ → (rsp now : ℕ) → Sched → Option (ℕ × Sched)
sched_tick fuel rsp now s =
    if not s.active
    then some (rsp, s)
    else if ltb (sub_word 64 now s.slice_start) quantum_ticks
        && not (s.current == null)
        && is_running (s.threads s.current).state
    then some (rsp, s)
    else sched_preempt fuel rsp now s

-- The mark, then the interrupt.
pub thread_exit : ℕ → (rsp now : ℕ) → Sched → Option (ℕ × Sched)
thread_exit fuel rsp now s =
    let m = store s.threads s.current (record (s.threads s.current) { state = zombie }) in
    sched_preempt fuel rsp now (record s { threads = m })

-- Before the scheduler is on, `sleep_ms` waits and nothing changes.
pub thread_sleep_ms : ℕ → (ms rsp now : ℕ) → Sched → Option (ℕ × Sched)
thread_sleep_ms fuel ms rsp now s =
    let m =
      store s.threads s.current
        (record (s.threads s.current) { state = sleeping; wake_tick = add_word 64 now ms }) in
    let slept = sched_preempt fuel rsp now (record s { threads = m }) in
    if s.active then slept else some (rsp, s)

-- `do { n++; t = t->next; } while (t != ring)`
pub count_loop : ℕ → Threads → (ring t n : ℕ) → Option ℕ
count_loop zero m ring t n = none
count_loop (suc fuel) m ring t n =
    let rest = count_loop fuel m ring (m t).next (n + 1) in
    if (m t).next == ring then some (n + 1) else rest

pub sched_thread_count : ℕ → Sched → Option ℕ
sched_thread_count fuel s =
    if s.ring == null then some 0 else count_loop fuel s.threads s.ring s.ring 0
