-- ===== src/Lance/Whole.antt =====
-- am79900_meminit and am79900_tint of bsd_eth_drivers/if_le/am79900.c, and lance_init_locked with the
-- hooks of that chip.
use rtems_libbsdport.Prelude.{
  ℕ, zero, suc, ◌+◌, ◌*◌, ◌/◌, ◌%◌, ◌^◌, ◌==◌, true, false, if◌then◌else◌, ltb, ◌&&◌, ◌||◌, [], ◌∷◌,
  ◌++◌,
}
use rtems_libbsdport.Prelude.Memory.{update}
use rtems_libbsdport.Lance.{Softc, Host, Effect, xmd2, next, leblen, le_rbufaddr, le_tbufaddr}
use rtems_libbsdport.Lance.Filter.{lance_setladrf}
use rtems_libbsdport.Lance.Rings.{lowest_bit}
use rtems_libbsdport.Lance.Transmit.{emit, poll_loop, timo_max}
use rtems_libbsdport.Lance.Receive.{settle}
use rtems_libbsdport.Lance.Wide.{Wide, WideRmd, WideTmd, WideInit, read_tmd, am79900_start_locked}

-- `((ffs (ntbuf) - 1) << 28) | ((ffs (nrbuf) - 1) << 20)` as 32 bits.
abbrev pub ring_bits : (nrbuf ntbuf : ℕ) → ℕ
ring_bits nrbuf ntbuf =
    if nrbuf == 0
    then 4095 * 2 ^ 20
    else (if ntbuf == 0 then 15 else lowest_bit 32 ntbuf % 16) * 2 ^ 28
      + lowest_bit 32 nrbuf * 2 ^ 20

-- The init block.
unfoldable pub wide_init_block : Host → Softc → WideInit
unfolding lance_setladrf
wide_init_block h sc =
    let e = sc.sc_enaddr in
    record {
      init_mode = (if sc.promisc then 2 ^ 15 else 0) + ring_bits sc.sc_nrbuf sc.sc_ntbuf;
      init_padr = λ i.
          if i == 0 then e 0 + e 1 * 2 ^ 8 + e 2 * 2 ^ 16 + e 3 * 2 ^ 24 else e 4 + e 5 * 2 ^ 8;
      init_ladrf = lance_setladrf h sc;
      init_rdra = (sc.sc_addr + sc.sc_rmdaddr) % 2 ^ 32;
      init_tdra = (sc.sc_addr + sc.sc_tmdaddr) % 2 ^ 32;
    }

-- A receive descriptor that the chip owns, and a transmit descriptor that the driver owns.
unfoldable pub wide_fresh_rmd : Softc → ℕ → WideRmd
wide_fresh_rmd sc bix = record {
  rmd0 = (sc.sc_addr + le_rbufaddr sc bix) % 2 ^ 32;
  rmd1 = 2 ^ 31 + xmd2 leblen;
  rmd2 = 0;
}

unfoldable pub wide_fresh_tmd : Softc → ℕ → WideTmd
wide_fresh_tmd sc bix = record {
  tmd0 = (sc.sc_addr + le_tbufaddr sc bix) % 2 ^ 32;
  tmd1 = 15 * 2 ^ 12;
  tmd2 = 0;
}

-- The two loops of am79900_meminit, `n` rounds from `bix` on.
unfoldable pub wide_rmd_loop : Wide → (n bix : ℕ) → Wide
unfolding wide_fresh_rmd
wide_rmd_loop w zero bix = w
wide_rmd_loop w (suc n) bix =
    wide_rmd_loop (record w { wide_rmd = update w.wide_rmd bix (wide_fresh_rmd w.sc bix) }) n
      (suc bix)

unfoldable pub wide_tmd_loop : Wide → (n bix : ℕ) → Wide
unfolding wide_fresh_tmd
wide_tmd_loop w zero bix = w
wide_tmd_loop w (suc n) bix =
    wide_tmd_loop (record w { wide_tmd = update w.wide_tmd bix (wide_fresh_tmd w.sc bix) }) n
      (suc bix)

-- am79900_meminit
unfoldable pub am79900_meminit : Host → Wide → Wide
unfolding wide_init_block wide_rmd_loop wide_tmd_loop
am79900_meminit h w =
    let w₁ = record w {
      sc = record w.sc { sc_last_rd = 0; sc_first_td = 0; sc_last_td = 0; sc_no_td = 0 };
      wide_init = wide_init_block h w.sc;
    } in
    wide_tmd_loop (wide_rmd_loop w₁ w.sc.sc_nrbuf 0) w.sc.sc_ntbuf 0

-- lance_init_locked, as for the other chip.
unfoldable pub wide_init_chip : Host → Wide → Wide
wide_init_chip h w =
    let w₁ = am79900_meminit h (record w { sc = record w.sc { sc_enaddr = h.if_lladdr } }) in
    let a = w.sc.sc_addr + w.sc.sc_initaddr in
    record w₁ {
      sc = record w₁.sc {
        effects =
            w₁.sc.effects
            ++ (Effect.stopped
                ∷ Effect.csr3_written w.sc.sc_conf3
                ∷ Effect.csr1_written (a % 2 ^ 16)
                ∷ Effect.csr2_written (a / 2 ^ 16)
                ∷ Effect.init_asked
                ∷ []);
      };
    }

unfoldable pub wide_init_locked : Host → Wide → Wide
wide_init_locked h w =
    let w₁ = wide_init_chip h w in
    let reads = poll_loop h timo_max w₁.sc.reads in
    let sc₂ = record w₁.sc { reads = suc reads } in
    if (h.rdcsr reads).idon
    then am79900_start_locked (record w₁ {
      sc = emit (record sc₂ { running = true; oactive = false; sc_wdog_timer = 0 }) Effect.started;
    })
    else record w₁ { sc = sc₂ }

-- How the loop of am79900_tint ends: at the descriptor `bix`, or with a chip that has to be
-- initialised.
pub data WideTint : Type 0 where
  stops : Wide → (bix : ℕ) → WideTint
  fails : Wide → WideTint

-- The loop, with `n` for `sc_no_td`. The counting is that of am7990_tint, with the bits of these words.
unfoldable pub wide_tint_loop : Wide → (n bix : ℕ) → WideTint
unfolding settle
wide_tint_loop w zero bix = WideTint.stops w bix
wide_tint_loop w (suc n) bix =
    let tmd = read_tmd (w.wide_tmd bix) in
    let rest = wide_tint_loop (record w { sc = settle w.sc tmd n }) n (next bix w.sc.sc_ntbuf) in
    if tmd.own
    then WideTint.stops w bix
    else if tmd.err && (tmd.buff || tmd.uflo)
    then WideTint.fails (record w { sc = record w.sc { oactive = false } })
    else rest

-- am79900_tint
unfoldable pub am79900_tint : Host → Wide → Wide
am79900_tint h w = elim (wide_tint_loop w w.sc.sc_no_td w.sc.sc_first_td) [
  | WideTint.stops w₁ bix ↦ record w₁ {
    sc = record w₁.sc { sc_first_td = bix; sc_wdog_timer = if ltb 0 w₁.sc.sc_no_td then 5 else 0 };
  }
  | WideTint.fails w₁ ↦ wide_init_locked h w₁
]
