-- ===== src/Callout/Tests.antt =====
-- Runs of the callout facility at concrete states.
use rtems_libbsdport.Prelude.{
  ℕ, ◌+◌, ◌≡◌, ◌≤◌, refl, true, false, List, [], ◌∷◌, arith, ◌==◌, ◌<◌, Bool-cases, inl, inr, ◌⊎◌,
  ==→eq, ◌%◌, ◌≢◌,
}
use rtems_libbsdport.Prelude.Lists.{has, length}
use rtems_libbsdport.Prelude.Memory.{null, update}
use rtems_libbsdport.Callout.{
  Co, Env, nowhere, slot, next_of, ok, assert_failed, stop, callout_reset, soft_round, softclock,
}
use rtems_libbsdport.Callout.Wheel.{IsWheel}
use rtems_libbsdport.Callout.Reset.{callout_reset-IsReset, IsReset}
use rtems_libbsdport.Callout.Soft.{quiet}
use rtems_libbsdport.Callout.Timing.{remaining}
use rtems_libbsdport.Callout.Delay.{softclock-counts_down}
use rtems_libbsdport.Callout.Due.{later, softclock-callout_reset}
use rtems_libbsdport.Callout.{event_sent, hardclock, count_down, time_mod, wheel_size}
use rtems_libbsdport.Callout.Ticks.{Place, System, Step, Reach}
use rtems_libbsdport.Callout.Swept.{Swept}
use rtems_libbsdport.Callout.Race.{no_lost_tick, sweeping_alone, tick_by_tick}
use rtems_libbsdport.Callout.Clock.{tick, hardclock_lem}
use rtems_libbsdport.Callout.Stale.{stop_successor_fails}

-- Callouts 7 and 8 wait in slot 1, 7 without rounds left; one tick is to be handled.
abbrev waiting_with : ℕ → Co
waiting_with rounds = record {
  c_next = update (λ a. null) 7 8;
  c_pprev = update (update (λ a. nowhere) 7 (slot 1)) 8 (next_of 7);
  c_func = update (update (λ a. null) 7 100) 8 200;
  c_arg = λ a. a + 5;
  c_mtx = λ a. null;
  c_time = update (λ a. 0) 8 rounds;
  c_flags = λ a. 3;
  c_wheel = update (λ i. null) 1 7;
  hard_ticks = 1;
  soft_ticks = 0;
  effects = [];
}

abbrev slots : ℕ → List ℕ
slots = update (λ i. []) 1 (7 ∷ 8 ∷ [])

waiting_with-IsWheel : (rounds : ℕ) → IsWheel (waiting_with rounds) slots
waiting_with-IsWheel rounds = record {
  lists = λ i. elim (Bool-cases (i == 1)) [
    | inl e ↦ rw (e, ==→eq _ _ e) (refl, refl, (refl, refl, refl))
    | inr e ↦ rw e refl
  ];
  distinct = λ i. elim (Bool-cases (i == 1)) [
    | inl e ↦ rw e (refl, (refl, (refl, tt)))
    | inr e ↦ rw e (refl, tt)
  ];
  apart = λ i j a h k. ground arith;
  idle = λ a h. off a (h 1);
}
  where
    off :
        (a : ℕ)
        → has a (7 ∷ 8 ∷ []) ≡ false
        → ((waiting_with rounds).c_pprev a ≡ nowhere) × ((waiting_with rounds).c_next a ≡ null)
    off a h = ground arith

abbrev waiting : Co
waiting = waiting_with 1

waiting-IsWheel : IsWheel waiting slots
waiting-IsWheel = waiting_with-IsWheel 1

short : (i : ℕ) → length (slots i) < 3
short i = ground arith

callout_reset-IsReset_example :
    (t : Co) × (callout_reset 8 33 300 400 waiting ≡ ok (true, t))
    × IsReset waiting slots 8 33 300 400 t
callout_reset-IsReset_example =
    callout_reset-IsReset waiting slots 8 33 300 400 waiting-IsWheel (λ e. omega arith)
      (omega arith) (inr (1, (7 ∷ []), [], refl))

-- Callout 8 has 33 rounds to wait, and waits for 32 of them after the tick.
softclock-counts_down_example :
    (t : Co) × (b : ℕ → List ℕ) × (softclock quiet 2 3 waiting ≡ ok t)
    × IsWheel t b
    × (t.soft_ticks ≡ 1)
    × (has 8 (b 1) ≡ true)
    × ((33 ≤ 1) ⊎ (remaining t 1 8 + 1 ≡ 33))
softclock-counts_down_example =
    softclock-counts_down 1 3 waiting slots 1 8 waiting-IsWheel short (omega arith, omega arith)
      refl (omega arith) refl

-- The first tick has been handled.
abbrev caught_up : Co
caught_up = record waiting { soft_ticks = 1 }

caught_up-IsWheel : IsWheel caught_up slots
caught_up-IsWheel =
    let w = waiting-IsWheel in
    record { lists = w.lists; distinct = w.distinct; apart = w.apart; idle = w.idle }

absent : (i : ℕ) → has 9 (slots i) ≡ false
absent i = ground arith

roomy : (i : ℕ) → length (slots i) + 1 < 4
roomy i = ground arith

-- 64 ticks become 96: callout 9 still waits when 70 have come.
softclock-callout_reset_example :
    (t : Co) × (u : Co) × (b' : ℕ → List ℕ) × (callout_reset 9 64 300 400 caught_up ≡ ok (false, t))
    × (softclock quiet 71 4 (later t 70) ≡ ok u)
    × IsWheel u b'
    × (has 9 (b' 1) ≡ true)
softclock-callout_reset_example =
    softclock-callout_reset caught_up slots 9 64 300 400 70 4 caught_up-IsWheel (λ e. omega arith)
      (omega arith) (inl absent) (omega arith, omega arith) refl (omega arith) roomy

-- The function of callout 7 stops callout 8.
abbrev stops_8 : Env
stops_8 fn arg s = stop 8 ∷ []

stop_successor_fails_example : soft_round stops_8 2 (waiting_with 0) ≡ assert_failed
stop_successor_fails_example =
    stop_successor_fails stops_8 0 (waiting_with 0) slots (waiting_with-IsWheel 0) 7 8 [] refl refl
      refl (λ e. omega arith) (λ t. refl)

hardclock_lem_example :
    (hardclock 9 caught_up ≡ record (tick caught_up) { effects = event_sent 9 ∷ [] })
    ⊎ (soft_round quiet 1 (tick caught_up) ≡ ok (hardclock 9 caught_up))
hardclock_lem_example = hardclock_lem quiet 0 9 caught_up

-- A tick comes, the task takes the event and gets to callout 7, which has rounds left, then past
-- callout 8 to the end of the slot.
abbrev counting : Co
counting = record (waiting_with 3) { c_time = λ a. 3; hard_ticks = 0 }

abbrev before : System
before = record { co = counting; event = false; place = Place.waiting }

abbrev ticked : System
ticked = record before {
  co = record counting { hard_ticks = 1; effects = event_sent 9 ∷ [] };
  event = true;
}

abbrev at_7 : System
at_7 = record ticked { event = false; place = Place.sweeping 1 7 }

abbrev at_end : System
at_end = record at_7 { co = count_down 8 (count_down 7 at_7.co); place = Place.sweeping 1 null }

ticked-Reach : Reach quiet 9 ticked
unfolding hardclock
ticked-Reach =
    Reach.next (Reach.start {s = before} (refl, omega arith, refl)) (Step.tick (λ e. omega arith))

at_7-Reach : Reach quiet 9 at_7
at_7-Reach =
    Reach.next (Reach.next (Reach.next ticked-Reach (Step.receive refl refl)) (Step.look refl))
      (Step.begin 0 1 refl (λ e. omega arith))

at_end-Reach : Reach quiet 9 at_end
unfolding count_down
at_end-Reach =
    Reach.next (Reach.next at_7-Reach (Step.later 1 7 refl (λ e. omega arith) (λ e. omega arith)))
      (Step.later 1 8 refl (λ e. omega arith) (λ e. omega arith))

no_lost_tick_example : (ticked.co.soft_ticks ≡ ticked.co.hard_ticks) ⊎ (ticked.event ≡ true)
no_lost_tick_example = no_lost_tick ticked-Reach refl

sweeping_alone_example :
    (1 ≡ (at_7.co.soft_ticks + 1) % time_mod)
    × (at_7.co.soft_ticks ≢ at_7.co.hard_ticks)
    × ((hardclock 9 at_7.co).soft_ticks ≡ at_7.co.soft_ticks)
sweeping_alone_example = sweeping_alone at_7-Reach 1 7 refl

tick_by_tick_example :
    (1 ≡ at_end.co.soft_ticks)
    ⊎ ((1 ≡ (at_end.co.soft_ticks + 1) % time_mod)
        × (((Place.sweeping 1 null ≡ Place.sweeping 1 null)
              × ((s₁ : System) × Reach quiet 9 s₁ × Swept quiet 9 1 s₁ at_end))
            ⊎ ((at_end.co.hard_ticks ≡ at_end.co.soft_ticks)
                × (at_end.co.c_wheel ((at_end.co.soft_ticks + 1) % time_mod % wheel_size) ≡ null))))
tick_by_tick_example = tick_by_tick at_end-Reach (Step.finish 1 refl)
