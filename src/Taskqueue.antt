-- ===== src/Taskqueue.antt =====
-- bsd_eth_drivers/libbsdport/rtems_taskqueue.c and taskqueue.h: the one task queue, an intrusive
-- singly linked list with an anchor and a tail pointer.
-- A pointer is a number. Each field of `struct task` is a function of the task's address, and the
-- queue's `anchor`, a `struct task` itself, stands at an address of its own.
-- `ta_pending` is a C int that is only counted up from zero: overflow is not modelled.
pub mod Chain
pub mod Enqueue
pub mod Work
pub mod Drain
pub mod Worker
pub mod Wakeup
pub mod Serve
mod Tests
use rtems_libbsdport.Prelude.{
  ℕ, zero, suc, ◌+◌, ◌-◌, ◌≡◌, Bool, true, false, ◌&&◌, Option, none, some, List, [], ◌∷◌, ◌++◌,
  ◌==◌, if◌then◌else◌,
}
use rtems_libbsdport.Prelude.Memory.{null, update}

-- `&tq->anchor`
abbrev pub anchor : ℕ
anchor = 1

-- What the queue does to the rest of the system, in order: `rtems_event_send (tq->tid, ...)`, and
-- a call of a task function with its argument and the pending count.
pub data Effect : Type 0 where
  event_sent : ℕ → Effect
  called : (fn arg pending : ℕ) → Effect

-- The fields of the `struct task`s in memory, `tail` and `tid` of the `struct taskqueue`, and the
-- effects so far.
pub record Tq : Type 0 where
  pub ta_next : ℕ → ℕ
  pub ta_pending : ℕ → ℕ
  pub ta_priority : ℕ → ℕ
  pub ta_fn : ℕ → ℕ
  pub ta_fn_arg : ℕ → ℕ
  pub tail : ℕ
  pub tid : ℕ
  pub effects : List Effect

-- TASK_INIT
unfoldable pub task_init : Tq → (task pri fn arg : ℕ) → Tq
task_init s task pri fn arg = record s {
  ta_next = update s.ta_next task null;
  ta_priority = update s.ta_priority task pri;
  ta_pending = update s.ta_pending task 0;
  ta_fn = update s.ta_fn task fn;
  ta_fn_arg = update s.ta_fn_arg task arg;
}

emit : Tq → Effect → Tq
emit s e = record s { effects = s.effects ++ (e ∷ []) }

-- taskqueue_thread_enqueue: wakes the worker if the only task on the list was queued just now.
unfoldable pub taskqueue_thread_enqueue : Tq → Tq
unfolding emit
taskqueue_thread_enqueue s =
    let dopost = (s.ta_next anchor == s.tail) && (s.ta_pending s.tail == 1) in
    if dopost then emit s (event_sent s.tid) else s

-- `tail->ta_next = ta` and its neighbours: the new task goes to the end.
unfoldable pub hook : Tq → ℕ → Tq
hook s ta = record s { ta_next = update (update s.ta_next ta null) s.tail ta; tail = ta }

unfoldable pub count_up : Tq → ℕ → Tq
count_up s ta = record s { ta_pending = update s.ta_pending ta (s.ta_pending ta + 1) }

-- taskqueue_enqueue. Its `enq_fn` is `taskqueue_thread_enqueue`, the only one that
-- `taskqueue_create` lets through.
unfoldable pub taskqueue_enqueue : Tq → ℕ → Tq
unfolding hook count_up taskqueue_thread_enqueue
taskqueue_enqueue s ta =
    let s' = count_up s ta in
    taskqueue_thread_enqueue (if s.ta_pending ta == 0 then hook s' ta else s')

unfoldable pub enqueue_all : Tq → List ℕ → Tq
unfolding taskqueue_enqueue
enqueue_all s [] = s
enqueue_all s (ta ∷ tas) = enqueue_all (taskqueue_enqueue s ta) tas

-- What runs beside the worker: the tasks that the function `fn` enqueues when it is called, and
-- those that interrupt handlers enqueue before the worker's next critical section.
pub record Env : Type 0 where
  pub call : (fn arg pending : ℕ) → Tq → List ℕ
  pub interrupt : Tq → List ℕ

-- `for ( ; i>0; i-- ) f(arg, i)`
unfoldable pub call_times : Env → (fn arg i : ℕ) → Tq → Tq
unfolding emit enqueue_all
call_times env fn arg zero s = s
call_times env fn arg (suc i) s =
    let s' = emit s (called fn arg (suc i)) in
    call_times env fn arg i (enqueue_all s' (env.call fn arg (suc i) s'))

-- The critical section of the loop in taskqueue_work: takes `q` off the detached list.
unfoldable pub extract : Tq → ℕ → Tq
extract s q = record s { ta_pending = update s.ta_pending q 0; ta_next = update s.ta_next q null }

-- The loop of taskqueue_work over the detached list at `p`. `none`: the fuel ran out.
unfoldable pub work_loop : Env → ℕ → ℕ → Tq → Option Tq
unfolding enqueue_all extract call_times
work_loop env zero p s = none
work_loop env (suc fuel) p s =
    let s₁ = enqueue_all s (env.interrupt s) in
    let rest =
      work_loop env fuel (s₁.ta_next p)
        (call_times env (s₁.ta_fn p) (s₁.ta_fn_arg p) (s₁.ta_pending p) (extract s₁ p)) in
    if p == null then some s else rest

-- The first critical section of taskqueue_work: empties the queue.
unfoldable pub detach : Tq → Tq
detach s = record s { ta_next = update s.ta_next anchor null; tail = anchor }

-- taskqueue_work, with the pointer that it returns.
unfoldable pub taskqueue_work : Env → ℕ → Tq → Option (ℕ × Tq)
unfolding detach work_loop
taskqueue_work env fuel s = elim (work_loop env fuel (s.ta_next anchor) (detach s)) [
  | none ↦ none
  | some s' ↦ some (s'.ta_next anchor, s')
]

-- The critical section of taskqueue_drain, at `p` with the successor `ta`.
unfoldable pub unhook : Tq → (p ta : ℕ) → Tq
unhook s p ta = record s {
  ta_pending = update s.ta_pending ta 0;
  ta_next = update (update s.ta_next p (s.ta_next ta)) ta null;
  tail = if s.tail == ta then p else s.tail;
}

-- The search of taskqueue_drain from `p`. `none`: the fuel ran out.
unfoldable pub drain_loop : Env → ℕ → (p ta : ℕ) → Tq → Option Tq
unfolding unhook call_times
drain_loop env zero p ta s = none
drain_loop env (suc fuel) p ta s =
    let q = s.ta_next p in
    let found = call_times env (s.ta_fn ta) (s.ta_fn_arg ta) (s.ta_pending ta) (unhook s p ta) in
    let rest = drain_loop env fuel q ta s in
    if q == null then some s else if q == ta then some found else rest

-- taskqueue_drain
unfoldable pub taskqueue_drain : Env → ℕ → ℕ → Tq → Option Tq
unfolding drain_loop
taskqueue_drain env fuel ta s = drain_loop env fuel anchor ta s

-- taskqueue_create and taskqueue_create_fast: the one queue; none where another `enq_fn` is asked for
-- and the function panics.
unfoldable pub taskqueue_create : (thread_enqueue the_queue enq_fn : ℕ) → Option ℕ
taskqueue_create thread_enqueue the_queue enq_fn =
    if enq_fn == thread_enqueue then some the_queue else none

-- taskqueueDoWork, for a number of wake-ups that its receive gets.
unfoldable pub taskqueue_do_work : Env → (fuel wake_ups : ℕ) → Tq → Option Tq
unfolding taskqueue_work
taskqueue_do_work env fuel zero s = some s
taskqueue_do_work env fuel (suc n) s = elim (taskqueue_work env fuel s) [
  | none ↦ none
  | some (r, s') ↦ taskqueue_do_work env fuel n s'
]
