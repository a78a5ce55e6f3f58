-- ===== src/Callout/Clock.antt =====
-- hardclock against softclock: a tick is either handled on the spot or left to softclock.
use rtems_libbsdport.Prelude.{
  ℕ, suc, ◌+◌, ◌%◌, ◌≡◌, ◌≢◌, true, ◌&&◌, [], ◌∷◌, ◌++◌, arith, ◌==◌, Bool-cases, inl, inr,
  ==-false, ◌⊎◌,
}
use rtems_libbsdport.Prelude.Memory.{null}
use rtems_libbsdport.Callout.{
  Co, ok, Env, event_sent, slot_loop, soft_round, hardclock, wheel_size, time_mod,
}

-- The tick alone.
abbrev pub tick : Co → Co
tick s = record s { hard_ticks = (s.hard_ticks + 1) % time_mod }

-- hardclock counts the tick. Either it wakes the callout task and leaves `soft_ticks` alone, or it
-- does what the callout task would do for that tick, which is to find an empty slot.
pub hardclock_lem :
    (env : Env) (fuel tid : ℕ) (s : Co)
    → (hardclock tid s ≡ record (tick s) { effects = s.effects ++ (event_sent tid ∷ []) })
      ⊎ (soft_round env (suc fuel) (tick s) ≡ ok (hardclock tid s))
unfolding hardclock soft_round slot_loop
hardclock_lem env fuel tid s =
    let h = (s.hard_ticks + 1) % time_mod in
    elim (Bool-cases ((s.hard_ticks == s.soft_ticks) && (s.c_wheel (h % wheel_size) == null))) [
      | inl e ↦ inr (rw e (rw (empty e)))
      | inr e ↦ inl (rw e)
    ]
  where
    empty :
        ((s.hard_ticks == s.soft_ticks)
            && (s.c_wheel ((s.hard_ticks + 1) % time_mod % wheel_size) == null))
          ≡ true
        → s.c_wheel ((s.soft_ticks + 1) % time_mod % wheel_size) ≡ null
    empty e = ground arith

-- While softclock is behind, hardclock leaves `soft_ticks` alone and wakes the callout task.
pub hardclock_behind :
    (tid : ℕ) (s : Co) → s.hard_ticks ≢ s.soft_ticks → (hardclock tid s).soft_ticks ≡ s.soft_ticks
unfolding hardclock
hardclock_behind tid s n = rw (==-false s.hard_ticks s.soft_ticks n)
