-- ===== src/Lance/Control.antt =====
-- am7990_intr, lance_watchdog, lance_ioctl and the other ways into the driver.
use rtems_libbsdport.Prelude.{
  ℕ, suc, ◌-◌, true, false, Bool, ◌==◌, if◌then◌else◌, not, ◌&&◌, Option, none, some, List, [], ◌∷◌,
  ◌++◌,
}
use rtems_libbsdport.Lance.{Softc, Host, Csr0, Effect}
use rtems_libbsdport.Lance.Transmit.{emit, lance_stop, lance_init_locked, am7990_start_locked}
use rtems_libbsdport.Lance.Receive.{am7990_rint, am7990_tint}

-- The errors that CSR0 reports and that need no initialisation.
unfoldable pub count_faults : Softc → Csr0 → Softc
count_faults sc isr = record sc {
  if_oerrors = if isr.err && isr.babl then suc sc.if_oerrors else sc.if_oerrors;
  if_ierrors = if isr.err && isr.miss then suc sc.if_ierrors else sc.if_ierrors;
}

-- The carrier is pretended.
unfoldable pub find_carrier : Softc → Softc
find_carrier sc = record sc {
  le_carrier = true;
  effects = if sc.le_carrier then sc.effects else sc.effects ++ (Effect.link_up ∷ []);
}

-- am7990_intr from the carrier on: both ends work, and the rings are served.
unfoldable pub serve_rings : Host → (fuel : ℕ) → Softc → Csr0 → Option Softc
serve_rings h fuel sc isr =
    let sc₁ = find_carrier sc in
    elim (if isr.rint then am7990_rint h fuel sc₁ else some sc₁) [
      | none ↦ none
      | some sc₂ ↦
          let sc₃ = emit (if isr.tint then am7990_tint h sc₂ else sc₂) Effect.enabled in
          some (elim sc₃.if_snd [ [] ↦ sc₃ | m ∷ ms ↦ am7990_start_locked sc₃ ])
    ]

-- am7990_intr from the read of CSR0 on. none: the fuel of the receive loop ran out.
unfoldable pub serve : Host → (fuel : ℕ) → Softc → Csr0 → Option Softc
serve h fuel sc isr =
    let sc₁ = count_faults (emit sc (Effect.acknowledged isr)) isr in
    if not isr.intr
    then some sc
    else if isr.err && isr.merr
    then some (lance_init_locked h sc₁)
    else if not isr.rxon
    then some (lance_init_locked h (record sc₁ { if_ierrors = suc sc₁.if_ierrors }))
    else if not isr.txon
    then some (lance_init_locked h (record sc₁ { if_oerrors = suc sc₁.if_oerrors }))
    else serve_rings h fuel sc₁ isr

-- am7990_intr. `hwintr_failed`: the front end has a hook, and it returned -1.
unfoldable pub am7990_intr : Host → (fuel : ℕ) → (hwintr_failed : Bool) → Softc → Option Softc
am7990_intr h fuel hwintr_failed sc =
    if hwintr_failed
    then some (lance_init_locked h (record sc { if_ierrors = suc sc.if_ierrors }))
    else serve h fuel (record sc { reads = suc sc.reads }) (h.rdcsr sc.reads)

-- lance_watchdog, which the callout runs once a second.
unfoldable pub lance_watchdog : Host → Softc → Softc
lance_watchdog h sc =
    let timer = sc.sc_wdog_timer - 1 in
    if sc.sc_wdog_timer == 0
    then sc
    else if timer == 0
    then lance_init_locked h (record sc { sc_wdog_timer = 0; if_oerrors = suc sc.if_oerrors })
    else record sc { sc_wdog_timer = timer }

-- lance_start, lance_suspend, lance_resume and lance_init
unfoldable pub lance_start : Softc → Softc
lance_start sc = am7990_start_locked sc

unfoldable pub lance_suspend : Softc → Softc
lance_suspend sc = lance_stop sc

unfoldable pub lance_resume : Host → Softc → Softc
lance_resume h sc = if sc.up then lance_init_locked h sc else sc

unfoldable pub lance_init : Host → Softc → Softc
lance_init h sc = lance_init_locked h sc

-- lance_mediachange
unfoldable pub lance_mediachange : Host → (has_mediachange : Bool) → Softc → Softc
lance_mediachange h has_mediachange sc =
    let sc₁ = lance_init_locked h (lance_stop sc) in
    if has_mediachange then elim sc₁.if_snd [ [] ↦ sc₁ | m ∷ ms ↦ am7990_start_locked sc₁ ] else sc

-- The three tests of SIOCSIFFLAGS: the promiscuous flag, the flag for all multicasts, up or down.
unfoldable pub follow_promisc : Host → Softc → Softc
follow_promisc h sc =
    if sc.promisc
    then if sc.le_promisc then sc else lance_init_locked h (record sc { le_promisc = true })
    else if sc.le_promisc
    then lance_init_locked h (record sc { le_promisc = false })
    else sc

unfoldable pub follow_allmulti : Host → Softc → Softc
follow_allmulti h sc =
    if sc.allmulti && not sc.le_allmulti
    then lance_init_locked h (record sc { le_allmulti = true })
    else if not sc.allmulti && sc.le_allmulti
    then lance_init_locked h (record sc { le_allmulti = false })
    else sc

unfoldable pub follow_up : Host → Softc → Softc
follow_up h sc =
    if not sc.up && sc.running
    then lance_stop sc
    else if sc.up && not sc.running
    then lance_init_locked h sc
    else sc

-- SIOCSIFFLAGS of lance_ioctl
unfoldable pub set_flags : Host → Softc → Softc
set_flags h sc = follow_up h (follow_allmulti h (follow_promisc h sc))

-- SIOCADDMULTI and SIOCDELMULTI of lance_ioctl, with the list and the error that
-- ETHER_SIOCMULTIFRAG leaves: the error, and the state.
unfoldable pub change_multi : Host → (error : ℕ) → (List (List ℕ)) → Softc → ℕ × Softc
change_multi h error multis sc =
    let sc₁ = record sc { if_multiaddrs = multis } in
    (error, if error == 0 && sc.running then lance_init_locked h sc₁ else sc₁)
