-- ===== src/Udelay.antt =====
-- bsd_eth_drivers/libbsdport/rtems_udelay.c: rtems_usec_delay.
mod Tests
use rtems_libbsdport.Prelude.{
  ℕ, ◌+◌, ◌-◌, ◌*◌, ◌/◌, ◌%◌, ◌^◌, ◌<◌, ◌≤◌, ◌≡◌, refl, ◌≢◌, Bool, true, false, not, ◌&&◌, ◌||◌,
  ◌==◌, ltb, if◌then◌else◌, arith, Bool-cases, inl, inr, ◌⊎◌,
}

-- The clock of the system: the microseconds of a tick, the frequency of the counter in kHz, 0 where
-- it is not known yet, and the counter's clicks in a tick that rtems_udelay_calibrate measures.
pub record Clock : Type 0 where
  pub us_per_tick : ℕ
  pub khz : ℕ
  pub calibrated : ℕ

-- A panic; or the ticks that the task sleeps, and the clicks that have to pass before the busy wait
-- ends.
pub data Delay : Type 0 where
  panic : Delay
  waits : (ticks clicks : ℕ) → Delay

-- The frequency, measured at the first call where it is not known.
unfoldable pub frequency : Clock → ℕ
frequency c = if c.khz == 0 then c.calibrated * 1000 / c.us_per_tick % 2 ^ 32 else c.khz

-- rtems_usec_delay: the product has 32 bits. The ticks are negative in C where the model has 0, and
-- the task does not sleep in either case. They are an int in C, which has them all where a tick is two
-- microseconds or longer.
unfoldable pub rtems_usec_delay : Clock → (in_isr : Bool) → (isr_level usecs : ℕ) → Delay
unfolding frequency
rtems_usec_delay c in_isr isr_level usecs =
    let ticks = usecs / c.us_per_tick - (if c.khz == 0 then 1 else 0) in
    if ltb 10 usecs && (in_isr || ltb 0 isr_level)
    then panic
    else waits ticks (usecs * frequency c % 2 ^ 32 / 1000)
