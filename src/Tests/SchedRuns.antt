-- ===== src/Tests/SchedRuns.antt =====
-- kernel/src/sched.c with the idle thread at 16 and a ready thread at 32.
use choco_os.Base.{ℕ, ◌≡◌, refl, true, false, some, [], ◌∷◌, ◌==◌, if◌then◌else◌, arith, inl}
use choco_os.Sched.{
  Thread, ThreadState, ready, running, zombie, Sched, fxarea_init, sched_preempt, reap_zombies,
  thread_create, sched_start,
}
use choco_os.Sched.Ring.{IsRing}
use choco_os.Sched.Reap.{Reaped, reap_zombies-Reaps}
use choco_os.Sched.Switch.{IsSched}
use choco_os.Sched.Preempt.{Preempted, sched_preempt-Preempted}
use choco_os.Sched.Create.{inserted, thread_create-IsSched, sched_start-IsSched}

abbrev thread : ℕ → ThreadState → ℕ → Thread
thread id st next = record {
  fxsave = fxarea_init;
  rsp = 1000;
  id = id;
  state = st;
  wake_tick = 0;
  stack_base = 64;
  next = next;
}

abbrev two : ThreadState → Sched
two st = record {
  threads = λ a. if a == 16 then thread 0 running 32 else thread 1 st 16;
  current = 16;
  ring = 16;
  active = true;
  next_id = 1;
  slice_start = 0;
  fpu = fxarea_init;
  freed = [];
}

two-IsRing : (st : ThreadState) → IsRing (two st).threads 16 (16 ∷ 32 ∷ [])
two-IsRing st = record { loop = omega arith; start = refl; distinct = (refl, (refl, tt)) }

two-IsSched : IsSched (two ready) (16 ∷ 32 ∷ [])
two-IsSched = record {
  ring = two-IsRing ready;
  active = refl;
  nonnull = refl;
  member = refl;
  single = λ a h ne. ground arith;
}

sched_preempt-Preempted_example :
    Preempted 7 9 (two ready) (16 ∷ 32 ∷ []) (sched_preempt 3 7 9 (two ready))
sched_preempt-Preempted_example =
    sched_preempt-Preempted 3 7 9 (two ready) (16 ∷ 32 ∷ []) two-IsSched (omega arith)

reap_zombies-Reaps_example : Reaped (two zombie) (16 ∷ 32 ∷ []) (reap_zombies 3 (two zombie))
reap_zombies-Reaps_example =
    reap_zombies-Reaps 3 (two zombie) (16 ∷ 32 ∷ []) (two-IsRing zombie) (omega arith)

thread_create-IsSched_example :
    ((thread_create 48 128 (two ready)).0 ≡ some 2)
    × IsSched (thread_create 48 128 (two ready)).1 (inserted 48 (16 ∷ 32 ∷ []))
    × ((thread_create 48 128 (two ready)).1.current ≡ 16)
thread_create-IsSched_example =
    thread_create-IsSched 48 128 (two ready) (16 ∷ 32 ∷ []) two-IsSched (omega arith) (omega arith)
      (omega arith) refl

abbrev nobody : Sched
nobody = record (two ready) { ring = 0; current = 0; active = false }

sched_start-IsSched_example :
    IsSched (sched_start 16 5 nobody) (inserted 16 []) × ((sched_start 16 5 nobody).current ≡ 16)
sched_start-IsSched_example =
    sched_start-IsSched 16 5 nobody [] (record { ring = inl (refl, refl); nonnull = refl })
      (λ a h. cc) (omega arith) refl
