-- ===== src/Lance/Receive.antt =====
-- am7990_rint and am7990_tint: what an interrupt does with the descriptors that the chip is done with.
use rtems_libbsdport.Prelude.{
  ℕ, zero, suc, ◌+◌, ◌-◌, true, false, if◌then◌else◌, ltb, not, ◌||◌, ◌&&◌, Option, none, some,
}
use rtems_libbsdport.Prelude.Memory.{update}
use rtems_libbsdport.Lance.{
  Softc, Host, Rmd, Tmd, Effect, Chain, xmd2, next, leblen, le_rbufaddr, ether_crc_len,
}
use rtems_libbsdport.Lance.Buffer.{lance_get}
use rtems_libbsdport.Lance.Transmit.{emit, lance_init_locked}

-- `rmd1_bits = LE_R1_OWN; rmd2 = -LEBLEN | LE_XMD2_ONES; rmd3 = 0`
unfoldable pub given_back : Rmd → Rmd
given_back rmd = record rmd {
  own = true;
  err = false;
  buff = false;
  stp = false;
  enp = false;
  rmd2 = xmd2 leblen;
  rmd3 = 0;
}

-- The packet of the descriptor `bix`, none where it holds no whole and right packet or there is no
-- mbuf for it; the descriptor goes back to the chip.
unfoldable pub take_packet : Host → Softc → (bix : ℕ) → Option Chain × Softc
take_packet h sc bix =
    let rmd = sc.rmd bix in
    let good = not rmd.err && (rmd.stp && rmd.enp) in
    let got = lance_get h sc.mem (le_rbufaddr sc bix) (rmd.rmd3 - ether_crc_len) sc.allocs in
    let (m, allocs) = if good then got else (none, sc.allocs) in
    (m, record sc { allocs = allocs; rmd = update sc.rmd bix (given_back rmd) })

-- `ifp->if_ipackets++` and if_input with the lock dropped, or `ifp->if_ierrors++`.
unfoldable pub pass_up : Host → Option Chain × Softc → Softc
pass_up h (none, sc) = record sc { if_ierrors = suc sc.if_ierrors }
pass_up h (some m, sc) =
    h.unlocked (emit (record sc { if_ipackets = suc sc.if_ipackets }) (Effect.delivered m))

-- The loop of am7990_rint. none: the fuel ran out.
unfoldable pub rint_loop : Host → (fuel bix : ℕ) → Softc → Option (Softc × ℕ)
rint_loop h zero bix sc = none
rint_loop h (suc fuel) bix sc =
    let rest = rint_loop h fuel (next bix sc.sc_nrbuf) (pass_up h (take_packet h sc bix)) in
    if (sc.rmd bix).own then some (sc, bix) else rest

-- am7990_rint
unfoldable pub am7990_rint : Host → (fuel : ℕ) → Softc → Option Softc
am7990_rint h fuel sc = elim (rint_loop h fuel sc.sc_last_rd sc) [
  | none ↦ none
  | some (sc₁, bix) ↦ some (record sc₁ { sc_last_rd = bix })
]

-- Lost carrier, late collision and too many retries: `if (tmd.tmd1_bits & LE_T1_ERR)` behind its test
-- of the buffer and underflow bits.
unfoldable pub count_error : Softc → Tmd → Softc
count_error sc tmd =
    let lost = tmd.lcar && sc.le_carrier in
    let sc₁ = if lost then emit sc Effect.link_down else sc in
    record sc₁ {
      le_carrier = if tmd.lcar then false else sc.le_carrier;
      if_collisions = sc.if_collisions + (if tmd.lcol then 1 else 0) + (if tmd.rtry then 16 else 0);
      if_oerrors = suc sc.if_oerrors;
    }

unfoldable pub count_sent : Softc → Tmd → Softc
count_sent sc tmd = record sc {
  if_collisions = sc.if_collisions + (if tmd.one then 1 else if tmd.more then 2 else 0);
  if_opackets = suc sc.if_opackets;
}

-- A descriptor that the chip is done with, with `n` others left.
unfoldable pub settle : Softc → Tmd → (n : ℕ) → Softc
unfolding count_error count_sent
settle sc tmd n =
    let sc₁ = record sc { oactive = false; sc_no_td = n } in
    if tmd.err then count_error sc₁ tmd else count_sent sc₁ tmd

-- How the loop of am7990_tint ends: at the descriptor `bix`, or with a chip that has to be
-- initialised.
pub data Tint : Type 0 where
  stops : Softc → (bix : ℕ) → Tint
  fails : Softc → Tint

-- The loop, with `n` for `sc_no_td`.
unfoldable pub tint_loop : Softc → (n bix : ℕ) → Tint
unfolding settle
tint_loop sc zero bix = Tint.stops sc bix
tint_loop sc (suc n) bix =
    let tmd = sc.tmd bix in
    let rest = tint_loop (settle sc tmd n) n (next bix sc.sc_ntbuf) in
    if tmd.own
    then Tint.stops sc bix
    else if tmd.err && (tmd.buff || tmd.uflo)
    then Tint.fails (record sc { oactive = false })
    else rest

-- am7990_tint
unfoldable pub am7990_tint : Host → Softc → Softc
am7990_tint h sc = elim (tint_loop sc sc.sc_no_td sc.sc_first_td) [
  | Tint.stops sc₁ bix ↦ record sc₁ {
    sc_first_td = bix;
    sc_wdog_timer = if ltb 0 sc₁.sc_no_td then 5 else 0;
  }
  | Tint.fails sc₁ ↦ lance_init_locked h sc₁
]
