-- ===== src/Udelay/Tests.antt =====
-- Runs of rtems_usec_delay.
use rtems_libbsdport.Prelude.{◌≡◌, refl, false, true}
use rtems_libbsdport.Udelay.{Clock, panic, waits, rtems_usec_delay}

-- A counter of 3 GHz, and ticks of 10 ms.
abbrev fast_clock : Clock
fast_clock = record { us_per_tick = 10000; khz = 3000000; calibrated = 0 }

-- 20 ms: the product is 60000000000, and its 32 bits give 4165425 clicks in place of 60000000.
waits_less : rtems_usec_delay fast_clock false 0 20000 ≡ waits 2 4165425
unfolding rtems_usec_delay
waits_less = refl

panics : rtems_usec_delay fast_clock true 0 20 ≡ panic
unfolding rtems_usec_delay
panics = refl
