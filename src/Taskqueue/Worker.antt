-- ===== src/Taskqueue/Worker.antt =====
-- The worker task of the queue (taskqueueDoWork) beside everything that enqueues: a step relation.
-- A step is a critical section, a call of a task function, or the receive of the wake-up event, so
-- enqueues come between any two of them.
use rtems_libbsdport.Prelude.{ℕ, suc, ◌≡◌, ◌≢◌, Bool, true, false, ◌||◌, [], ◌∷◌, ◌++◌, ltb}
use rtems_libbsdport.Prelude.Lists.{length}
use rtems_libbsdport.Prelude.Memory.{null}
use rtems_libbsdport.Taskqueue.{Tq, called, anchor, taskqueue_enqueue, extract, detach}
use rtems_libbsdport.Taskqueue.Enqueue.{IsTask}

-- Where the worker is: in its receive; behind it, before the first critical section of
-- taskqueue_work; in the loop over the detached list at `p`; or with `i` calls of a task left, and
-- the rest of the detached list at `p`.
pub data Place : Type 0 where
  waiting woken : Place
  working : (p : ℕ) → Place
  calling : (p fn arg i : ℕ) → Place

-- `event` says that TQ_WAKE_EVENT is pending for the worker.
pub record System : Type 0 where
  pub tq : Tq
  pub event : Bool
  pub place : Place

-- Whether taskqueue_enqueue sends the event.
abbrev pub is_sent : Tq → (ta : ℕ) → Bool
is_sent s ta = ltb (length s.effects) (length (taskqueue_enqueue s ta).effects)

-- One step of the worker.
pub data Run (s : System) : System → Type 0 where
  receive :
      s.place ≡ Place.waiting
      → s.event ≡ true
      → Run s (record s { event = false; place = Place.woken })
  begin :
      s.place ≡ Place.woken
      → Run s (record s { tq = detach s.tq; place = Place.working (s.tq.ta_next anchor) })
  take_off :
      (p : ℕ)
      → s.place ≡ Place.working p
      → p ≢ null
      → Run s (record s {
        tq = extract s.tq p;
        place =
            Place.calling (s.tq.ta_next p) (s.tq.ta_fn p) (s.tq.ta_fn_arg p) (s.tq.ta_pending p);
      })
  call :
      (p fn arg i : ℕ)
      → s.place ≡ Place.calling p fn arg (suc i)
      → Run s (record s {
        tq = record s.tq { effects = s.tq.effects ++ (called fn arg (suc i) ∷ []) };
        place = Place.calling p fn arg i;
      })
  go_on :
      (p fn arg : ℕ)
      → s.place ≡ Place.calling p fn arg 0
      → Run s (record s { place = Place.working p })
  finish : s.place ≡ Place.working null → Run s (record s { place = Place.waiting })

-- A step of the system: the worker's, or an enqueue by an interrupt handler, a task function or
-- another task.
pub data Step (s : System) : System → Type 0 where
  run : {t : System} → Run s t → Step s t
  arrive :
      (ta : ℕ)
      → IsTask ta
      → Step s (record s { tq = taskqueue_enqueue s.tq ta; event = s.event || is_sent s.tq ta })

-- The queue as rtems_taskqueue.c initialises it, with the worker in its receive.
abbrev pub IsStart : System → Type 0
IsStart s =
    (s.place ≡ Place.waiting)
    × (s.tq.ta_next anchor ≡ null)
    × (s.tq.tail ≡ anchor)
    × ((a : ℕ) → s.tq.ta_pending a ≡ 0)

pub data Reach : System → Type 0 where
  start : {s : System} → IsStart s → Reach s
  later : {s t : System} → Reach s → Step s t → Reach t

-- Steps of the worker alone.
pub data Runs : System → System → Type 0 where
  here : {s : System} → Runs s s
  more : {s t u : System} → Run s t → Runs t u → Runs s u
