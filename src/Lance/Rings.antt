-- ===== src/Lance/Rings.antt =====
-- am7990_meminit: the init block and the two rings as the chip gets them.
use rtems_libbsdport.Prelude.{
  ℕ, zero, suc, ◌+◌, ◌*◌, ◌/◌, ◌%◌, ◌^◌, true, false, ◌==◌, if◌then◌else◌,
}
use rtems_libbsdport.Prelude.Memory.{update}
use rtems_libbsdport.Lance.{Softc, Host, Init, Rmd, Tmd, leblen, xmd2, le_rbufaddr, le_tbufaddr}
use rtems_libbsdport.Lance.Filter.{lance_setladrf}

-- `ffs (n) - 1` for an `n` that is not zero, below 2 ^ fuel.
abbrev pub lowest_bit : (fuel n : ℕ) → ℕ
lowest_bit zero n = 0
lowest_bit (suc fuel) n = let rest = lowest_bit fuel (n / 2) in if n % 2 == 1 then 0 else suc rest

-- `(a >> 16) | ((ffs (n) - 1) << 13)` as 16 bits, for an address below 2 ^ 29: the chip has 24
-- address lines. For `n = 0` the exponent is -1.
abbrev pub ring_word : (a n : ℕ) → ℕ
ring_word a n = (a / 2 ^ 16 + (if n == 0 then 7 else lowest_bit 32 n % 8) * 2 ^ 13) % 2 ^ 16

-- A receive descriptor that the chip owns.
unfoldable pub fresh_rmd : Softc → ℕ → Rmd
fresh_rmd sc bix =
    let a = sc.sc_addr + le_rbufaddr sc bix in
    record {
      rmd0 = a % 2 ^ 16;
      rmd1_hadr = a / 2 ^ 16 % 2 ^ 8;
      own = true;
      err = false;
      buff = false;
      stp = false;
      enp = false;
      rmd2 = xmd2 leblen;
      rmd3 = 0;
    }

-- A transmit descriptor that the driver owns.
unfoldable pub fresh_tmd : Softc → ℕ → Tmd
fresh_tmd sc bix =
    let a = sc.sc_addr + le_tbufaddr sc bix in
    record {
      tmd0 = a % 2 ^ 16;
      tmd1_hadr = a / 2 ^ 16 % 2 ^ 8;
      own = false;
      err = false;
      more = false;
      one = false;
      stp = false;
      enp = false;
      tmd2 = 61440;
      buff = false;
      uflo = false;
      lcol = false;
      lcar = false;
      rtry = false;
    }

-- The two loops of am7990_meminit, `n` rounds from `bix` on.
unfoldable pub rmd_loop : Softc → (n bix : ℕ) → Softc
unfolding fresh_rmd
rmd_loop sc zero bix = sc
rmd_loop sc (suc n) bix =
    rmd_loop (record sc { rmd = update sc.rmd bix (fresh_rmd sc bix) }) n (suc bix)

unfoldable pub tmd_loop : Softc → (n bix : ℕ) → Softc
unfolding fresh_tmd
tmd_loop sc zero bix = sc
tmd_loop sc (suc n) bix =
    tmd_loop (record sc { tmd = update sc.tmd bix (fresh_tmd sc bix) }) n (suc bix)

-- The init block.
unfoldable pub init_block : Host → Softc → Init
unfolding lance_setladrf
init_block h sc =
    let ra = sc.sc_addr + sc.sc_rmdaddr in
    let ta = sc.sc_addr + sc.sc_tmdaddr in
    record {
      mode_prom = sc.promisc;
      init_padr = λ i. sc.sc_enaddr (2 * i + 1) * 2 ^ 8 + sc.sc_enaddr (2 * i);
      init_ladrf = lance_setladrf h sc;
      init_rdra = ra % 2 ^ 16;
      init_rlen = ring_word ra sc.sc_nrbuf;
      init_tdra = ta % 2 ^ 16;
      init_tlen = ring_word ta sc.sc_ntbuf;
    }

-- am7990_meminit
unfoldable pub am7990_meminit : Host → Softc → Softc
unfolding init_block rmd_loop tmd_loop
am7990_meminit h sc =
    let sc₁ = record sc {
      sc_last_rd = 0;
      sc_first_td = 0;
      sc_last_td = 0;
      sc_no_td = 0;
      init = init_block h sc;
    } in
    tmd_loop (rmd_loop sc₁ sc.sc_nrbuf 0) sc.sc_ntbuf 0
