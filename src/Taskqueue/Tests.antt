-- ===== src/Taskqueue/Tests.antt =====
-- Runs of the task queue at concrete states.
use rtems_libbsdport.Prelude.{
  ℕ, ◌+◌, ◌≡◌, refl, true, false, ◌⊎◌, ◌||◌, some, List, [], ◌∷◌, arith, ◌==◌, ◌<◌,
}
use rtems_libbsdport.Prelude.Memory.{null, update}
use rtems_libbsdport.Taskqueue.{
  taskqueue_thread_enqueue, hook, count_up, Tq, Env, called, anchor, taskqueue_enqueue,
  taskqueue_work, taskqueue_drain,
}
use rtems_libbsdport.Taskqueue.Chain.{IsQueue}
use rtems_libbsdport.Taskqueue.Enqueue.{IsTask, is_empty}
use rtems_libbsdport.Taskqueue.Work.{IsEnv, work-IsQueue, quiet}
use rtems_libbsdport.Taskqueue.Worker.{Place, System, Run, Step, Reach, Runs, is_sent}
use rtems_libbsdport.Taskqueue.Wakeup.{no_lost_wakeup}
use rtems_libbsdport.Taskqueue.Serve.{Idle, worker_serves}
use rtems_libbsdport.Taskqueue.Drain.{drain-removes}

-- Task 10 is pending twice and task 20 once, in that order.
abbrev two_tasks : Tq
two_tasks = record {
  ta_next = update (update (λ a. null) anchor 10) 10 20;
  ta_pending = update (update (λ a. 0) 10 2) 20 1;
  ta_priority = λ a. 0;
  ta_fn = update (update (λ a. null) 10 100) 20 200;
  ta_fn_arg = λ a. a + 5;
  tail = 20;
  tid = 7;
  effects = [];
}

two_tasks-IsQueue : IsQueue two_tasks (10 ∷ 20 ∷ []) [] null
two_tasks-IsQueue = record {
  chain = (refl, (refl, refl));
  tail = refl;
  rest = refl;
  distinct = (refl, (refl, (refl, (refl, tt))));
  queued = λ a. ground arith;
}

-- Each call enqueues task 30, and an interrupt enqueues task 10.
abbrev busy : Env
busy = record { call = λ fn arg pending s. 30 ∷ []; interrupt = λ s. 10 ∷ [] }

task : (a : ℕ) → 1 < a → IsTask a
task a h = (λ e. omega arith, λ e. omega arith)

busy-IsEnv : IsEnv busy
busy-IsEnv = record {
  calls = λ fn arg i s. (task 30 (omega arith), tt);
  interrupts = λ s. (task 10 (omega arith), tt);
}

work-IsQueue_example :
    (r : ℕ) × (s : Tq) × (zs : List ℕ) × (taskqueue_work busy 3 two_tasks ≡ some (r, s))
    × IsQueue s zs [] null
    × ((r == null) ≡ is_empty zs)
work-IsQueue_example =
    work-IsQueue busy 3 two_tasks (10 ∷ 20 ∷ []) busy-IsEnv two_tasks-IsQueue (omega arith)

drain-removes_example :
    (s : Tq) × (taskqueue_drain quiet 3 20 two_tasks ≡ some s)
    × IsQueue s (10 ∷ []) [] null
    × (s.effects ≡ called 200 25 1 ∷ [])
drain-removes_example =
    drain-removes 3 two_tasks (10 ∷ 20 ∷ []) [] null 20 two_tasks-IsQueue refl (omega arith)

-- The worker in its receive, beside an empty queue.
abbrev at_start : System
at_start = record {
  tq = record {
    ta_next = λ a. null;
    ta_pending = λ a. 0;
    ta_priority = λ a. 0;
    ta_fn = λ a. a + 100;
    ta_fn_arg = λ a. a + 5;
    tail = anchor;
    tid = 7;
    effects = [];
  };
  event = false;
  place = Place.waiting;
}

-- An enqueue of `ta`.
abbrev after : System → ℕ → System
after s ta = record s { tq = taskqueue_enqueue s.tq ta; event = s.event || is_sent s.tq ta }

alarmed-Reach : Reach (after at_start 10)
alarmed-Reach =
    Reach.later (Reach.start {s = at_start} (refl, refl, refl, λ a. refl))
      (Step.arrive 10 (task 10 (omega arith)))

no_lost_wakeup_example :
    ((after at_start 10).tq.ta_next anchor ≡ null) ⊎ ((after at_start 10).event ≡ true)
no_lost_wakeup_example = no_lost_wakeup (after at_start 10) alarmed-Reach refl

-- The worker has received the event for task 10, and task 20 arrives before it detaches the queue.
abbrev received : System
received = record (after at_start 10) { event = false; place = Place.woken }

received-Reach : Reach (after received 20)
unfolding taskqueue_enqueue taskqueue_thread_enqueue hook count_up
received-Reach =
    Reach.later (Reach.later alarmed-Reach (Step.run (Run.receive refl refl)))
      (Step.arrive 20 (task 20 (omega arith)))

worker_serves_example : (t : System) × Runs (after received 20) t × Idle t
worker_serves_example = worker_serves (after received 20) received-Reach
