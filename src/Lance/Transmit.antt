-- ===== src/Lance/Transmit.antt =====
-- lance_stop, am7990_start_locked and lance_init_locked.
use rtems_libbsdport.Prelude.{
  ℕ, zero, suc, ◌+◌, ◌/◌, ◌%◌, ◌^◌, true, false, ◌==◌, if◌then◌else◌, ltb, not, ◌&&◌, List, [], ◌∷◌,
  ◌++◌,
}
use rtems_libbsdport.Prelude.Memory.{update}
use rtems_libbsdport.Lance.{Softc, Host, Tmd, Effect, Chain, xmd2, next, le_tbufaddr}
use rtems_libbsdport.Lance.Buffer.{lance_put}
use rtems_libbsdport.Lance.Rings.{am7990_meminit}

abbrev pub emit : Softc → Effect → Softc
emit sc e = record sc { effects = sc.effects ++ (e ∷ []) }

-- lance_stop; the callout of the watchdog is stopped with it.
unfoldable pub lance_stop : Softc → Softc
lance_stop sc =
    emit (record sc { running = false; oactive = false; sc_wdog_timer = 0 }) Effect.stopped

-- `tmd1_bits = LE_T1_OWN | LE_T1_STP | LE_T1_ENP; tmd2 = -len | LE_XMD2_ONES; tmd3 = 0`
unfoldable pub handed_over : Tmd → (len : ℕ) → Tmd
handed_over tmd len = record tmd {
  own = true;
  err = false;
  more = false;
  one = false;
  stp = true;
  enp = true;
  tmd2 = xmd2 len;
  buff = false;
  uflo = false;
  lcol = false;
  lcar = false;
  rtry = false;
}

-- `if (tmd.tmd1_bits & LE_T1_OWN) ...`
unfoldable pub check_missing : Softc → (bix : ℕ) → Softc
check_missing sc bix =
    if (sc.tmd bix).own
    then emit (record sc { oactive = true }) (Effect.missing_buffer sc.sc_no_td sc.sc_last_td)
    else sc

-- A round of the loop of am7990_start_locked up to the demand: the chain `m` goes to the buffer `bix`,
-- and `ms` stay in the queue.
unfoldable pub transmit : Softc → (bix : ℕ) → Chain → List Chain → Softc
unfolding check_missing handed_over lance_put
transmit sc bix m ms =
    let sc₁ = check_missing sc bix in
    let (mem, len) = lance_put sc.mem (le_tbufaddr sc bix) m in
    record sc₁ {
      if_snd = ms;
      mem = mem;
      tmd = update sc.tmd bix (handed_over (sc.tmd bix) len);
      effects = sc₁.effects ++ (Effect.demanded ∷ []);
      sc_no_td = suc sc.sc_no_td;
    }

abbrev pub mark_active : Softc → Softc
mark_active sc = record sc { oactive = true }

-- The loop over the queue, with `bix` and `enq` behind it.
unfoldable pub start_loop : Softc → List Chain → (bix enq : ℕ) → Softc × ℕ × ℕ
start_loop sc [] bix enq = (sc, bix, enq)
start_loop sc (m ∷ ms) bix enq =
    let sc₁ = transmit sc bix m ms in
    let bix₁ = next bix sc.sc_ntbuf in
    let rest = start_loop sc₁ ms bix₁ (suc enq) in
    if ltb sc.sc_no_td sc.sc_ntbuf
    then if sc₁.sc_no_td == sc.sc_ntbuf then (mark_active sc₁, bix₁, suc enq) else rest
    else (sc, bix, enq)

-- am7990_start_locked
unfoldable pub am7990_start_locked : Softc → Softc
unfolding start_loop
am7990_start_locked sc =
    let (sc₁, bix, enq) = start_loop sc sc.if_snd sc.sc_last_td 0 in
    if sc.running && not sc.oactive
    then record sc₁ { sc_last_td = bix; sc_wdog_timer = if ltb 0 enq then 5 else sc₁.sc_wdog_timer }
    else sc

-- `for (timo = 100000; timo; timo--) if (rdcsr (LE_CSR0) & LE_C0_IDON) break`: the number of reads
-- behind the loop.
unfoldable pub poll_loop : Host → (timo reads : ℕ) → ℕ
poll_loop h zero reads = reads
poll_loop h (suc timo) reads =
    let rest = poll_loop h timo (suc reads) in if (h.rdcsr reads).idon then suc reads else rest

abbrev pub timo_max : ℕ
timo_max = 100000

-- lance_init_locked up to the loop: the chip is stopped, gets its conf3 and the address of the init
-- block, and is asked to initialise. The hooks of the front end touch no state of the driver.
unfoldable pub init_chip : Host → Softc → Softc
init_chip h sc =
    let sc₁ = am7990_meminit h (record sc { sc_enaddr = h.if_lladdr }) in
    let a = sc.sc_addr + sc.sc_initaddr in
    record sc₁ {
      effects =
          sc₁.effects
          ++ (Effect.stopped
              ∷ Effect.csr3_written sc.sc_conf3
              ∷ Effect.csr1_written (a % 2 ^ 16)
              ∷ Effect.csr2_written (a / 2 ^ 16)
              ∷ Effect.init_asked
              ∷ []);
    }

-- lance_init_locked with `timo` rounds of the loop.
unfoldable pub init_within : Host → (timo : ℕ) → Softc → Softc
init_within h timo sc =
    let sc₁ = init_chip h sc in
    let reads = poll_loop h timo sc₁.reads in
    let sc₂ = record sc₁ { reads = suc reads } in
    if (h.rdcsr reads).idon
    then am7990_start_locked
        (emit (record sc₂ { running = true; oactive = false; sc_wdog_timer = 0 }) Effect.started)
    else sc₂

unfoldable pub lance_init_locked : Host → Softc → Softc
lance_init_locked h sc = init_within h timo_max sc
