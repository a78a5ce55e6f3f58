-- ===== src/Lance/Sound.antt =====
-- The invariant of the LANCE driver, which every way into it preserves.
use rtems_libbsdport.Prelude.{
  ℕ, zero, suc, ◌<◌, ◌≡◌, refl, true, false, not, ◌&&◌, List, [], ◌∷◌, ◌++◌, arith, ◌==◌, ltb,
  Bool-cases, inl, inr,
}
use rtems_libbsdport.Lance.{Softc, Effect, Host}
use rtems_libbsdport.Lance.Start.{Ring, IsSent, start_locked-IsSent, start_locked-idle, demands}
use rtems_libbsdport.Lance.Settle.{has_missing, has_missing-append, meminit-Ring, meminit-field}
use rtems_libbsdport.Lance.Transmit.{
  emit, lance_stop, am7990_start_locked, init_chip, init_within, poll_loop,
}

-- The transmit ring is sound, a running interface with packets under way has its watchdog set, and no
-- descriptor of the chip's was ever taken for a free one.
pub record IsSound (sc : Softc) : Type 0 where
  pub ring : Ring sc sc.sc_last_td
  pub watched : (sc.running && (ltb 0 sc.sc_no_td && (sc.sc_wdog_timer == 0))) ≡ false
  pub plain : has_missing sc.effects ≡ false

demands-missing : (n : ℕ) → has_missing (demands n) ≡ false
demands-missing zero = refl
demands-missing (suc n) = demands-missing n

pub plain-append :
    (es fs : List Effect)
    → has_missing es ≡ false
    → has_missing fs ≡ false
    → has_missing (es ++ fs) ≡ false
plain-append es fs a b = ground (arith, has_missing-append es fs)

IsSent-IsSound : (sc sc' : Softc) (n : ℕ) → IsSound sc → IsSent sc sc' n → IsSound sc'
IsSent-IsSound sc sc' n s i = record {
  ring = i.ring;
  watched = ground (arith, s.watched, i.used, i.running, i.timer);
  plain = rw i.effects (plain-append sc.effects (demands n) s.plain (demands-missing n));
}

pub start_locked-IsSound : (sc : Softc) → IsSound sc → IsSound (am7990_start_locked sc)
start_locked-IsSound sc s = elim (Bool-cases (sc.running && not sc.oactive)) [
  | inl e ↦ IsSent-IsSound sc _ _ s (start_locked-IsSent sc s.ring (ground arith) (ground arith))
  | inr e ↦ rw (start_locked-idle sc e) s
]

pub stop-IsSound : (sc : Softc) → IsSound sc → IsSound (lance_stop sc)
unfolding lance_stop
stop-IsSound sc s = record {
  ring = s.ring;
  watched = refl;
  plain = plain-append sc.effects (Effect.stopped ∷ []) s.plain refl;
}

-- What an initialisation needs.
pub record IsSized (sc : Softc) : Type 0 where
  pub size : 0 < sc.sc_ntbuf
  pub plain : has_missing sc.effects ≡ false

pub IsSound-IsSized : (sc : Softc) → IsSound sc → IsSized sc
IsSound-IsSized sc s = record { size = omega (arith, s.ring.first_lt); plain = s.plain }

init_chip-used : (h : Host) (sc : Softc) → (init_chip h sc).sc_no_td ≡ 0
unfolding init_chip
init_chip-used h sc =
    meminit-field h (record sc { sc_enaddr = h.if_lladdr }) (λ s. s.sc_no_td) (λ s t. refl)
      (λ s t. refl)

init_chip-IsSound : (h : Host) (sc : Softc) → IsSized sc → IsSound (init_chip h sc)
unfolding init_chip
init_chip-IsSound h sc s =
    let sc₁ : Softc = record sc { sc_enaddr = h.if_lladdr } in
    let n = meminit-field h sc₁ (λ s. s.sc_ntbuf) (λ s t. refl) (λ s t. refl) in
    let u = meminit-field h sc₁ (λ s. s.sc_no_td) (λ s t. refl) (λ s t. refl) in
    let f = meminit-field h sc₁ (λ s. s.sc_first_td) (λ s t. refl) (λ s t. refl) in
    let l = meminit-field h sc₁ (λ s. s.sc_last_td) (λ s t. refl) (λ s t. refl) in
    let e = meminit-field h sc₁ (λ s. s.effects) (λ s t. refl) (λ s t. refl) in
    record {
      ring = rw (n, u, f, l) (meminit-Ring h sc₁ s.size);
      watched = rw u (ground arith);
      plain = rw e (plain-append sc.effects _ s.plain refl);
    }

-- The chip has been asked to initialise, and has answered.
started-IsSound :
    (sc : Softc)
    → sc.sc_no_td ≡ 0
    → IsSound sc
    → IsSound
        (emit (record sc { running = true; oactive = false; sc_wdog_timer = 0 }) Effect.started)
started-IsSound sc u s = record {
  ring = s.ring;
  watched = ground arith;
  plain = plain-append sc.effects (Effect.started ∷ []) s.plain refl;
}

read-IsSound : (sc : Softc) (reads : ℕ) → IsSound sc → IsSound (record sc { reads = reads })
read-IsSound sc reads s = record { ring = s.ring; watched = s.watched; plain = s.plain }

pub init-IsSound : (h : Host) (timo : ℕ) (sc : Softc) → IsSized sc → IsSound (init_within h timo sc)
unfolding init_within
init-IsSound h timo sc s =
    let i =
      read-IsSound _ (suc (poll_loop h timo (init_chip h sc).reads)) (init_chip-IsSound h sc s) in
    elim (Bool-cases (h.rdcsr (poll_loop h timo (init_chip h sc).reads)).idon) [
      | inl e ↦ rw e (start_locked-IsSound _ (started-IsSound _ (init_chip-used h sc) i))
      | inr e ↦ rw e i
    ]
