-- ===== src/Lance/WideReceive.antt =====
-- am79900_rint and am79900_intr of bsd_eth_drivers/if_le/am79900.c.
use rtems_libbsdport.Prelude.{
  ℕ, zero, suc, ◌+◌, ◌-◌, ◌^◌, false, Bool, ◌==◌, if◌then◌else◌, not, ◌&&◌, Option, none, some,
  List, [], ◌∷◌,
}
use rtems_libbsdport.Prelude.Memory.{update}
use rtems_libbsdport.Lance.{
  Softc, Host, Csr0, Effect, Chain, xmd2, next, leblen, le_rbufaddr, ether_crc_len,
}
use rtems_libbsdport.Lance.Buffer.{lance_get}
use rtems_libbsdport.Lance.Transmit.{emit}
use rtems_libbsdport.Lance.Control.{count_faults, find_carrier}
use rtems_libbsdport.Lance.Wide.{Wide, WideRmd, read_rmd, am79900_start_locked}
use rtems_libbsdport.Lance.Whole.{wide_init_locked, am79900_tint}

-- `rmd1 = LE_R1_OWN | LE_R1_ONES | (-LEBLEN & 0xfff); rmd2 = 0`
unfoldable pub wide_given_back : WideRmd → WideRmd
wide_given_back d = record d { rmd1 = 2 ^ 31 + xmd2 leblen; rmd2 = 0 }

-- The packet of the descriptor `bix`, none where it holds no whole and right packet or there is no
-- mbuf for it; the descriptor goes back to the chip.
unfoldable pub wide_take_packet : Host → Wide → (bix : ℕ) → Option Chain × Wide
wide_take_packet h w bix =
    let rmd = read_rmd (w.wide_rmd bix) in
    let good = not rmd.err && (rmd.stp && rmd.enp) in
    let got = lance_get h w.sc.mem (le_rbufaddr w.sc bix) (rmd.rmd3 - ether_crc_len) w.sc.allocs in
    let (m, allocs) = if good then got else (none, w.sc.allocs) in
    (
      m,
      record w {
        sc = record w.sc { allocs = allocs };
        wide_rmd = update w.wide_rmd bix (wide_given_back (w.wide_rmd bix));
      },
    )

-- The byte `i` of an mbuf; 0 behind its end, where no packet of lance_get has its header.
abbrev pub byte : List ℕ → (i : ℕ) → ℕ
byte [] i = 0
byte (b ∷ bs) zero = b
byte (b ∷ bs) (suc i) = byte bs i

-- `!ether_cmp(eh->ether_shost, sc->sc_enaddr)`
unfoldable pub is_ours : Softc → Chain → Bool
is_ours sc [] = false
is_ours sc (d ∷ ds) =
    (byte d 6 == sc.sc_enaddr 0)
    && ((byte d 7 == sc.sc_enaddr 1)
        && ((byte d 8 == sc.sc_enaddr 2)
            && ((byte d 9 == sc.sc_enaddr 3)
                && ((byte d 10 == sc.sc_enaddr 4) && (byte d 11 == sc.sc_enaddr 5)))))

-- `ifp->if_ipackets++` and ether_input_skipping with the lock dropped, or `ifp->if_ierrors++`.
-- `unlocked` is what else runs meanwhile. `is_i386`: a packet from this station is dropped.
unfoldable pub wide_pass_up :
    (unlocked : Wide → Wide) → (is_i386 : Bool) → Option Chain × Wide → Wide
wide_pass_up unlocked is_i386 (none, w) = record w {
  sc = record w.sc { if_ierrors = suc w.sc.if_ierrors };
}
wide_pass_up unlocked is_i386 (some m, w) =
    let sc₁ = record w.sc { if_ipackets = suc w.sc.if_ipackets } in
    if is_i386 && is_ours w.sc m
    then record w { sc = sc₁ }
    else unlocked (record w { sc = emit sc₁ (Effect.delivered m) })

-- The loop of am79900_rint. none: the fuel ran out.
unfoldable pub wide_rint_loop :
    Host → (Wide → Wide) → (is_i386 : Bool) → (fuel bix : ℕ) → Wide → Option (Wide × ℕ)
wide_rint_loop h unlocked is_i386 zero bix w = none
wide_rint_loop h unlocked is_i386 (suc fuel) bix w =
    let rest =
      wide_rint_loop h unlocked is_i386 fuel (next bix w.sc.sc_nrbuf)
        (wide_pass_up unlocked is_i386 (wide_take_packet h w bix)) in
    if (read_rmd (w.wide_rmd bix)).own then some (w, bix) else rest

-- am79900_rint
unfoldable pub am79900_rint :
    Host → (Wide → Wide) → (is_i386 : Bool) → (fuel : ℕ) → Wide → Option Wide
am79900_rint h unlocked is_i386 fuel w =
    elim (wide_rint_loop h unlocked is_i386 fuel w.sc.sc_last_rd w) [
      | none ↦ none
      | some (w₁, bix) ↦ some (record w₁ { sc = record w₁.sc { sc_last_rd = bix } })
    ]

-- am79900_intr from the carrier on: both ends work, and the rings are served.
unfoldable pub wide_serve_rings :
    Host → (Wide → Wide) → (is_i386 : Bool) → (fuel : ℕ) → Wide → Csr0 → Option Wide
wide_serve_rings h unlocked is_i386 fuel w isr =
    let w₁ = record w { sc = find_carrier w.sc } in
    elim (if isr.rint then am79900_rint h unlocked is_i386 fuel w₁ else some w₁) [
      | none ↦ none
      | some w₂ ↦
          let w₃ = if isr.tint then am79900_tint h w₂ else w₂ in
          let w₄ = record w₃ { sc = emit w₃.sc Effect.enabled } in
          some (elim w₄.sc.if_snd [ [] ↦ w₄ | m ∷ ms ↦ am79900_start_locked w₄ ])
    ]

-- am79900_intr from the read of CSR0 on. none: the fuel of the receive loop ran out.
unfoldable pub wide_serve :
    Host → (Wide → Wide) → (is_i386 : Bool) → (fuel : ℕ) → Wide → Csr0 → Option Wide
wide_serve h unlocked is_i386 fuel w isr =
    let sc₁ = count_faults (emit w.sc (Effect.acknowledged isr)) isr in
    if not isr.intr
    then some w
    else if isr.err && isr.merr
    then some (wide_init_locked h (record w { sc = sc₁ }))
    else if not isr.rxon
    then some
        (wide_init_locked h (record w { sc = record sc₁ { if_ierrors = suc sc₁.if_ierrors } }))
    else if not isr.txon
    then some
        (wide_init_locked h (record w { sc = record sc₁ { if_oerrors = suc sc₁.if_oerrors } }))
    else wide_serve_rings h unlocked is_i386 fuel (record w { sc = sc₁ }) isr

-- am79900_intr. `hwintr_failed`: the front end has a hook, and it returned -1.
unfoldable pub am79900_intr :
    Host
    → (Wide → Wide)
    → (is_i386 : Bool) → (fuel : ℕ) → (hwintr_failed : Bool) → Wide
    → Option Wide
am79900_intr h unlocked is_i386 fuel hwintr_failed w =
    if hwintr_failed
    then some
        (wide_init_locked h (record w { sc = record w.sc { if_ierrors = suc w.sc.if_ierrors } }))
    else wide_serve h unlocked is_i386 fuel
        (record w { sc = record w.sc { reads = suc w.sc.reads } }) (h.rdcsr w.sc.reads)
