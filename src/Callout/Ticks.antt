-- ===== src/Callout/Ticks.antt =====
-- calloutTask with softclock beside the ticks: a step relation. A step of the task is one piece of
-- softclock that the comment in the source takes for atomic, or the receive of an event; hardclock
-- comes between any two of them. An expired callout, its function included, is one step.
use rtems_libbsdport.Prelude.{ℕ, ◌+◌, ◌%◌, ◌<◌, ◌≡◌, ◌≢◌, Bool, true, false, ◌||◌, ltb}
use rtems_libbsdport.Prelude.Lists.{length}
use rtems_libbsdport.Prelude.Memory.{null}
use rtems_libbsdport.Callout.{Co, ok, Env, expire, count_down, hardclock, wheel_size, time_mod}

-- Where the task is: in its receive; at the top of softclock's loop; behind the atomic read of the
-- two counters, with what it read; in the inner loop for the tick `st`, at the callout `c`.
pub data Place : Type 0 where
  waiting looking : Place
  read : (st ht : ℕ) → Place
  sweeping : (st c : ℕ) → Place

-- `event` says that CALLOUT_EVENT is pending for the task.
pub record System : Type 0 where
  pub co : Co
  pub event : Bool
  pub place : Place

-- Whether the run of hardclock at `s` sends CALLOUT_EVENT, which is hardclock's only effect.
abbrev pub is_sent : (tid : ℕ) → Co → Bool
is_sent tid s = ltb (length s.effects) (length (hardclock tid s).effects)

pub data Step (env : Env) (tid : ℕ) (s : System) : System → Type 0 where
  -- A tick, while the task is less than 2 ^ 32 - 1 ticks behind.
  tick :
      (s.co.hard_ticks + 1) % time_mod ≢ s.co.soft_ticks
      → Step env tid s (record s { co = hardclock tid s.co; event = s.event || is_sent tid s.co })
  receive :
      s.place ≡ Place.waiting
      → s.event ≡ true
      → Step env tid s (record s { event = false; place = Place.looking })
  look :
      s.place ≡ Place.looking
      → Step env tid s (record s { place = Place.read s.co.soft_ticks s.co.hard_ticks })
  caught_up :
      (st : ℕ) → s.place ≡ Place.read st st → Step env tid s (record s { place = Place.waiting })
  begin :
      (st ht : ℕ)
      → s.place ≡ Place.read st ht
      → st ≢ ht
      → Step env tid s (record s {
        place =
            Place.sweeping ((st + 1) % time_mod) (s.co.c_wheel ((st + 1) % time_mod % wheel_size));
      })
  expired :
      (st c : ℕ) (co : Co)
      → s.place ≡ Place.sweeping st c
      → c ≢ null
      → s.co.c_time c ≡ 0
      → expire env c s.co ≡ ok co
      → Step env tid s (record s { co = co; place = Place.sweeping st (s.co.c_next c) })
  later :
      (st c : ℕ)
      → s.place ≡ Place.sweeping st c
      → c ≢ null
      → s.co.c_time c ≢ 0
      → Step env tid s
          (record s { co = count_down c s.co; place = Place.sweeping st (s.co.c_next c) })
  finish :
      (st : ℕ)
      → s.place ≡ Place.sweeping st null
      → Step env tid s (record s { co = record s.co { soft_ticks = st }; place = Place.looking })
  -- Other code stops or resets callouts, anywhere: LIST_LOCK is empty.
  changed :
      (co : Co)
      → co.hard_ticks ≡ s.co.hard_ticks
      → co.soft_ticks ≡ s.co.soft_ticks
      → Step env tid s (record s { co = co })

-- The counters are words and equal, and the task waits.
abbrev pub IsStart : System → Type 0
IsStart s =
    (s.place ≡ Place.waiting) × (s.co.hard_ticks < time_mod) × (s.co.soft_ticks ≡ s.co.hard_ticks)

pub data Reach (env : Env) (tid : ℕ) : System → Type 0 where
  start : {s : System} → IsStart s → Reach env tid s
  next : {s t : System} → Reach env tid s → Step env tid s t → Reach env tid t
