-- ===== src/Lance/Reach.antt =====
-- The driver, the chip, the network stack and the timer beside each other: a step relation. A step is
-- one way into the driver, under its lock, or what the others do between two of them.
use rtems_libbsdport.Prelude.{ℕ, ◌<◌, ◌≡◌, ap, subst, Bool, false, List, [], ◌∷◌, ◌++◌, some}
use rtems_libbsdport.Lance.{Softc, Tmd, Rmd, Effect, Chain, Host}
use rtems_libbsdport.Lance.Settle.{has_missing}
use rtems_libbsdport.Lance.Sound.{IsSound, IsSound-IsSized, stop-IsSound, start_locked-IsSound}
use rtems_libbsdport.Lance.Entries.{
  OptionSound, init_locked-IsSound, intr-IsSound, watchdog-IsSound, resume-IsSound,
  mediachange-IsSound, set_flags-IsSound, change_multi-IsSound,
}
use rtems_libbsdport.Lance.Control.{
  am7990_intr, lance_watchdog, lance_start, lance_suspend, lance_resume, lance_init,
  lance_mediachange, set_flags, change_multi,
}

-- The chip may write to the descriptors, but takes none that it does not own; it writes packets to
-- the buffers.
pub record IsChipWrite (sc : Softc) (tmd : ℕ → Tmd) : Type 0 where
  pub owned : (i : ℕ) → (sc.tmd i).own ≡ false → (tmd i).own ≡ false

pub data Step (h : Host) (sc : Softc) : Softc → Type 0 where
  interrupted :
      (fuel : ℕ) (hwintr_failed : Bool) (sc' : Softc)
      → am7990_intr h fuel hwintr_failed sc ≡ some sc'
      → Step h sc sc'
  timed : Step h sc (lance_watchdog h sc)
  started : Step h sc (lance_start sc)
  suspended : Step h sc (lance_suspend sc)
  resumed : Step h sc (lance_resume h sc)
  initialised : Step h sc (lance_init h sc)
  media_changed : (has_mediachange : Bool) → Step h sc (lance_mediachange h has_mediachange sc)
  flags_set :
      (up promisc allmulti : Bool)
      → Step h sc (set_flags h (record sc { up = up; promisc = promisc; allmulti = allmulti }))
  multi_changed :
      (error : ℕ) (multis : List (List ℕ)) → Step h sc (change_multi h error multis sc).1
  queued : (m : Chain) → Step h sc (record sc { if_snd = sc.if_snd ++ (m ∷ []) })
  written :
      (rmd : ℕ → Rmd) (tmd : ℕ → Tmd) (mem : ℕ → ℕ)
      → IsChipWrite sc tmd
      → Step h sc (record sc { rmd = rmd; tmd = tmd; mem = mem })

-- A driver that lance_config has stopped, with a transmit buffer at least.
abbrev pub IsStart : Softc → Type 0
IsStart sc = (sc.running ≡ false) × (0 < sc.sc_ntbuf) × (sc.effects ≡ Effect.stopped ∷ [])

-- The states behind the first initialisation.
pub data Reach (h : Host) : Softc → Type 0 where
  start : (sc : Softc) → IsStart sc → Reach h (lance_init h sc)
  later : {sc sc' : Softc} → Reach h sc → Step h sc sc' → Reach h sc'

module _ (h : Host) (keeps : (sc : Softc) → IsSound sc → IsSound (h.unlocked sc)) where
  Step-IsSound : {sc sc' : Softc} → Step h sc sc' → IsSound sc → IsSound sc'
  unfolding lance_start lance_suspend lance_init
  Step-IsSound {sc} (Step.interrupted fuel failed sc' e) s =
      subst OptionSound e (intr-IsSound h keeps fuel failed sc s)
  Step-IsSound {sc} Step.timed s = watchdog-IsSound h sc s
  Step-IsSound {sc} Step.started s = start_locked-IsSound sc s
  Step-IsSound {sc} Step.suspended s = stop-IsSound sc s
  Step-IsSound {sc} Step.resumed s = resume-IsSound h sc s
  Step-IsSound {sc} Step.initialised s = init_locked-IsSound h sc (IsSound-IsSized sc s)
  Step-IsSound {sc} (Step.media_changed b) s = mediachange-IsSound h sc s b
  Step-IsSound {sc} (Step.flags_set u p a) s =
      set_flags-IsSound h _ (record { ring = s.ring; watched = s.watched; plain = s.plain })
  Step-IsSound {sc} (Step.multi_changed error multis) s = change_multi-IsSound h error multis sc s
  Step-IsSound {sc} (Step.queued m) s = record {
    ring = s.ring;
    watched = s.watched;
    plain = s.plain;
  }
  Step-IsSound {sc} (Step.written rmd tmd mem w) s = record {
    ring = record {
      no_le = s.ring.no_le;
      first_lt = s.ring.first_lt;
      last_is = s.ring.last_is;
      free = λ k a b. w.owned _ (s.ring.free k a b);
    };
    watched = s.watched;
    plain = s.plain;
  }

  along : {sc : Softc} → Reach h sc → IsSound sc
  unfolding lance_init
  along (Reach.start sc (u, n, e)) =
      init_locked-IsSound h sc (record { size = n; plain = ap has_missing e })
  along (Reach.later r t) = Step-IsSound t (along r)

  -- In every state that the driver reaches, in any order of interrupts, timer ticks, requests, packets
  -- queued and descriptors that the chip hands back, the transmit ring is sound, a running interface
  -- with packets under way has its watchdog set, and no descriptor that the chip owned was ever taken
  -- for a free one; what runs while the lock is dropped has to keep this, and the chip to take no
  -- descriptor.
  pub Reach-IsSound : (sc : Softc) → Reach h sc → IsSound sc
  Reach-IsSound sc r = along r
