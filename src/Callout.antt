-- ===== src/Callout.antt =====
-- bsd_eth_drivers/libbsdport/rtems_callout.c and callout.h: timers on a wheel of 32 slots, each a
-- doubly linked list whose nodes point back at the pointer that points at them.
-- A pointer is a number. Each field of `struct callout` is a function of the callout's address, and
-- `c_pprev` is a location that holds a pointer. `unsigned` counters wrap at 2 ^ 32.
pub mod Links
pub mod Wheel
pub mod Reset
pub mod Soft
pub mod Timing
pub mod Delay
pub mod Due
pub mod Clock
pub mod Stale
pub mod Ticks
pub mod Counters
pub mod Swept
pub mod Race
mod Tests
use rtems_libbsdport.Prelude.{
  ℕ, zero, suc, ◌+◌, ◌-◌, ◌*◌, ◌/◌, ◌%◌, ◌^◌, ◌≡◌, Bool, true, false, not, ◌&&◌, List, [], ◌∷◌,
  ◌++◌, ◌==◌, if◌then◌else◌,
}
use rtems_libbsdport.Prelude.Memory.{null, update}
use rtems_libbsdport.Prelude.Words.{set_bit, clear_bit, is_set}

-- What `c_pprev` points at: nothing, `c_wheel[i]`, or the `c_next` of another callout.
pub data Loc : Type 0 where
  nowhere : Loc
  slot : ℕ → Loc
  next_of : ℕ → Loc

-- What the facility does to the rest of the system, in order.
pub data Effect : Type 0 where
  event_sent : ℕ → Effect
  called : (fn arg : ℕ) → Effect

pub record Co : Type 0 where
  pub c_next : ℕ → ℕ
  pub c_pprev : ℕ → Loc
  pub c_func : ℕ → ℕ
  pub c_arg : ℕ → ℕ
  pub c_mtx : ℕ → ℕ
  pub c_time : ℕ → ℕ
  pub c_flags : ℕ → ℕ
  pub c_wheel : ℕ → ℕ
  pub hard_ticks : ℕ
  pub soft_ticks : ℕ
  pub effects : List Effect

-- A run of the C code: it returns, it stops at an `assert`, or the model's fuel ran out.
pub data Run (A : Type 0) : Type 0 where
  ok : A → Run A
  assert_failed : Run A
  out_of_fuel : Run A

infixl 5 ◌>>=◌
abbrev pub ◌>>=◌ : {A B : Type 0} → Run A → (A → Run B) → Run B
ok a >>= f = f a
assert_failed >>= f = assert_failed
out_of_fuel >>= f = out_of_fuel

-- CALLOUT_PENDING and CALLOUT_ACTIVE, as bit numbers, and the size of the wheel.
abbrev pub pending_bit : ℕ
pending_bit = 0

abbrev pub active_bit : ℕ
active_bit = 1

abbrev pub wheel_size : ℕ
wheel_size = 32

abbrev pub time_mod : ℕ
time_mod = 2 ^ 32

abbrev is_nowhere : Loc → Bool
is_nowhere nowhere = true
is_nowhere (slot i) = false
is_nowhere (next_of a) = false

-- `n->c_pprev = l`, if there is an `n`.
abbrev pub point_back : (ℕ → Loc) → (n : ℕ) → Loc → ℕ → Loc
point_back pprev n l = if n == null then pprev else update pprev n l

-- c_enq (&c_wheel[i], c)
unfoldable pub c_enq : ℕ → ℕ → Co → Run Co
c_enq i c s =
    if is_nowhere (s.c_pprev c) && (s.c_next c == null)
    then ok (record s {
      c_next = update s.c_next c (s.c_wheel i);
      c_pprev = update (point_back s.c_pprev (s.c_wheel i) (next_of c)) c (slot i);
      c_wheel = update s.c_wheel i c;
    })
    else assert_failed

-- The rest of c_deq, once `*c->c_pprev` has been assigned.
unfoldable pub unlink : Co → (c n : ℕ) → Loc → Co
unlink s c n l = record s {
  c_next = update s.c_next c null;
  c_pprev = update (point_back s.c_pprev n l) c nowhere;
}

deq_at : Loc → ℕ → Co → Run Co
unfolding unlink
deq_at nowhere c s = assert_failed
deq_at (slot i) c s =
    ok (unlink (record s { c_wheel = update s.c_wheel i (s.c_next c) }) c (s.c_next c) (slot i))
deq_at (next_of a) c s =
    ok (unlink (record s { c_next = update s.c_next a (s.c_next c) }) c (s.c_next c) (next_of a))

-- c_deq
unfoldable pub c_deq : ℕ → Co → Run Co
unfolding deq_at
c_deq c s = deq_at (s.c_pprev c) c s

set_flags : ℕ → ℕ → Co → Co
set_flags c v s = record s { c_flags = update s.c_flags c v }

-- callout_stop, with the value that it returns.
unfoldable pub callout_stop : ℕ → Co → Run (Bool × Co)
unfolding c_deq set_flags
callout_stop c s = if is_nowhere (s.c_pprev c) then ok (false, s) else do
  s ← c_deq c s
  ok (true, set_flags c (clear_bit (clear_bit (s.c_flags c) active_bit) pending_bit) s)

-- The part of callout_reset between the call of callout_stop and the enqueueing. `ticks` is a
-- positive C int here.
unfoldable pub arm : (c ticks fn arg : ℕ) → Co → Co
arm c ticks fn arg s = record s {
  c_func = update s.c_func c fn;
  c_arg = update s.c_arg c arg;
  c_time = update s.c_time c (ticks / wheel_size);
}

-- callout_reset. `ticks <= 0` counts as 1; a negative `ticks` is given as 0.
unfoldable pub callout_reset : (c ticks fn arg : ℕ) → Co → Run (Bool × Co)
unfolding callout_stop arm c_enq set_flags
callout_reset c ticks fn arg s = do
  let t = if ticks == 0 then 1 else ticks
  (stopped, s) ← callout_stop c s
  s ← c_enq ((s.hard_ticks + t) % time_mod % wheel_size) c (arm c t fn arg s)
  ok (stopped, set_flags c (set_bit (set_bit (s.c_flags c) active_bit) pending_bit) s)

-- callout_init, once the facility runs: memset (c, 0, sizeof (*c)).
unfoldable pub callout_init : ℕ → Co → Co
callout_init c s = record s {
  c_next = update s.c_next c null;
  c_pprev = update s.c_pprev c nowhere;
  c_func = update s.c_func c null;
  c_arg = update s.c_arg c null;
  c_mtx = update s.c_mtx c null;
  c_time = update s.c_time c 0;
  c_flags = update s.c_flags c 0;
}

-- What a timer function does to the facility: it stops and resets callouts.
pub data Action : Type 0 where
  stop : ℕ → Action
  reset : (c ticks fn arg : ℕ) → Action

-- The actions of the function `fn` called with `arg`, in the state at the call.
abbrev pub Env : Type 0
Env = (fn arg : ℕ) → Co → List Action

act : Action → Co → Run Co
unfolding callout_stop callout_reset
act (stop c) s = do (_, s) ← callout_stop c s; ok s
act (reset c ticks fn arg) s = do (_, s) ← callout_reset c ticks fn arg s; ok s

unfoldable pub act_all : List Action → Co → Run Co
unfolding act
act_all [] s = ok s
act_all (a ∷ rest) s = act a s >>= act_all rest

-- `if ( c->c_func ) c->c_func(c->c_arg)`
unfoldable pub fire : Env → ℕ → Co → Run Co
unfolding act_all
fire env c s =
    let s' = record s { effects = s.effects ++ (called (s.c_func c) (s.c_arg c) ∷ []) } in
    if s.c_func c == null then ok s else act_all (env (s.c_func c) (s.c_arg c) s') s'

-- A callout that has run out: the flag is cleared, it leaves its slot, and its function is called.
unfoldable pub expire : Env → ℕ → Co → Run Co
unfolding set_flags c_deq fire
expire env c s = do s ← c_deq c (set_flags c (clear_bit (s.c_flags c) pending_bit) s); fire env c s

unfoldable pub count_down : ℕ → Co → Co
count_down c s = record s { c_time = update s.c_time c (s.c_time c - 1) }

-- The inner loop of softclock, from `c` on.
unfoldable pub slot_loop : Env → ℕ → ℕ → Co → Run Co
unfolding expire count_down
slot_loop env zero c s = out_of_fuel
slot_loop env (suc fuel) c s =
    let n = s.c_next c in
    let fired = expire env c s >>= slot_loop env fuel n in
    let later = slot_loop env fuel n (count_down c s) in
    if c == null then ok s else if s.c_time c == 0 then fired else later

-- One round of softclock's outer loop, at `st != ht`: `fuel` bounds the inner loop.
unfoldable pub soft_round : Env → ℕ → Co → Run Co
unfolding slot_loop
soft_round env fuel s = do
  let st = (s.soft_ticks + 1) % time_mod
  s ← slot_loop env fuel (s.c_wheel (st % wheel_size)) s
  ok (record s { soft_ticks = st })

-- softclock, with no tick while it runs.
unfoldable pub softclock : Env → (rounds fuel : ℕ) → Co → Run Co
unfolding soft_round
softclock env zero fuel s = out_of_fuel
softclock env (suc rounds) fuel s =
    let rest = soft_round env fuel s >>= softclock env rounds fuel in
    if s.soft_ticks == s.hard_ticks then ok s else rest

-- hardclock, run at each tick by the timer `calloutTick`.
unfoldable pub hardclock : ℕ → Co → Co
hardclock tid s =
    let h = (s.hard_ticks + 1) % time_mod in
    if (s.hard_ticks == s.soft_ticks) && (s.c_wheel (h % wheel_size) == null)
    then record s { hard_ticks = h; soft_ticks = (s.soft_ticks + 1) % time_mod }
    else record s { hard_ticks = h; effects = s.effects ++ (event_sent tid ∷ []) }

-- callout_active and callout_pending: nonzero or zero, as a test.
unfoldable pub callout_active : ℕ → Co → Bool
callout_active c s = is_set (s.c_flags c) active_bit

unfoldable pub callout_pending : ℕ → Co → Bool
callout_pending c s = is_set (s.c_flags c) pending_bit

-- callout_decativate
unfoldable pub callout_deactivate : ℕ → Co → Co
unfolding set_flags
callout_deactivate c s = set_flags c (clear_bit (s.c_flags c) active_bit) s

-- callout_init_mtx: a mutex with an id, as in use, makes it panic.
unfoldable pub callout_init_mtx : (c m mtx_id : ℕ) → Co → Run Co
unfolding callout_init
callout_init_mtx c m mtx_id s =
    let s' = callout_init c s in
    if mtx_id == 0 then ok (record s' { c_mtx = update s'.c_mtx c m }) else assert_failed

-- What the receive of calloutTask gets: the events CALLOUT_EVENT and KILL_EVENT, or an error.
pub data Received : Type 0 where
  tick_event kill_event receive_error : Received

-- calloutTask behind the creation of its timer: the state in which it ends or waits on.
unfoldable pub callout_task : Env → (rounds fuel : ℕ) → List Received → Co → Run Co
unfolding softclock
callout_task env rounds fuel [] s = ok s
callout_task env rounds fuel (tick_event ∷ es) s =
    softclock env rounds fuel s >>= callout_task env rounds fuel es
callout_task env rounds fuel (kill_event ∷ es) s = ok s
callout_task env rounds fuel (receive_error ∷ es) s = ok s
