-- ===== src/Lance/Wide.antt =====
-- bsd_eth_drivers/if_le/am79900.c and am79900reg.h: the rings of the chips with descriptors of 32-bit
-- words (Am79900 and the PCnet family in their 32-bit mode), and how they take packets to send.
-- A descriptor holds what LE_LE32TOH reads out of it.
use rtems_libbsdport.Prelude.{
  ℕ, suc, ◌+◌, ◌/◌, ◌%◌, ◌^◌, true, ◌==◌, if◌then◌else◌, ltb, not, ◌&&◌, List, [], ◌∷◌, ◌++◌,
}
use rtems_libbsdport.Prelude.Memory.{update}
use rtems_libbsdport.Prelude.Words.{is_set}
use rtems_libbsdport.Lance.{Softc, Rmd, Tmd, Effect, Chain, xmd2, next, le_tbufaddr}
use rtems_libbsdport.Lance.Buffer.{lance_put}
use rtems_libbsdport.Lance.Transmit.{emit}

-- `struct lermd` and `struct letmd`, without their last words, which the driver only sets to 0.
pub record WideRmd : Type 0 where
  pub rmd0 : ℕ
  pub rmd1 : ℕ
  pub rmd2 : ℕ

pub record WideTmd : Type 0 where
  pub tmd0 : ℕ
  pub tmd1 : ℕ
  pub tmd2 : ℕ

-- `struct leinit`
pub record WideInit : Type 0 where
  pub init_mode : ℕ
  pub init_padr : ℕ → ℕ
  pub init_ladrf : ℕ → ℕ
  pub init_rdra : ℕ
  pub init_tdra : ℕ

-- The driver's state with the init block and the two rings of this chip. Those in `sc` are of the
-- other.
pub record Wide : Type 0 where
  pub sc : Softc
  pub wide_init : WideInit
  pub wide_rmd : ℕ → WideRmd
  pub wide_tmd : ℕ → WideTmd

-- What the words say, bit by bit.
abbrev pub read_rmd : WideRmd → Rmd
read_rmd d = record {
  rmd0 = d.rmd0 % 2 ^ 16;
  rmd1_hadr = d.rmd0 / 2 ^ 16 % 2 ^ 8;
  own = is_set d.rmd1 31;
  err = is_set d.rmd1 30;
  buff = is_set d.rmd1 26;
  stp = is_set d.rmd1 25;
  enp = is_set d.rmd1 24;
  rmd2 = d.rmd1 % 2 ^ 16;
  rmd3 = d.rmd2 % 2 ^ 12;
}

abbrev pub read_tmd : WideTmd → Tmd
read_tmd d = record {
  tmd0 = d.tmd0 % 2 ^ 16;
  tmd1_hadr = d.tmd0 / 2 ^ 16 % 2 ^ 8;
  own = is_set d.tmd1 31;
  err = is_set d.tmd1 30;
  more = is_set d.tmd1 28;
  one = is_set d.tmd1 27;
  stp = is_set d.tmd1 25;
  enp = is_set d.tmd1 24;
  tmd2 = d.tmd1 % 2 ^ 16;
  buff = is_set d.tmd2 31;
  uflo = is_set d.tmd2 30;
  lcol = is_set d.tmd2 28;
  lcar = is_set d.tmd2 27;
  rtry = is_set d.tmd2 26;
}

-- `tmd1 = LE_T1_OWN | LE_T1_STP | LE_T1_ENP | LE_T1_ONES | (-len & 0xfff); tmd2 = 0`
unfoldable pub wide_handed_over : WideTmd → (len : ℕ) → WideTmd
wide_handed_over d len = record d { tmd1 = 2 ^ 31 + 2 ^ 25 + 2 ^ 24 + xmd2 len; tmd2 = 0 }

-- `if (LE_LE32TOH(tmd.tmd1) & LE_T1_OWN) ...`
unfoldable pub wide_check_missing : Wide → (bix : ℕ) → Softc
wide_check_missing w bix =
    if is_set (w.wide_tmd bix).tmd1 31
    then emit (record w.sc { oactive = true }) (Effect.missing_buffer w.sc.sc_no_td w.sc.sc_last_td)
    else w.sc

-- A round of the loop of am79900_start_locked up to the demand.
unfoldable pub wide_transmit : Wide → (bix : ℕ) → Chain → List Chain → Wide
unfolding wide_check_missing wide_handed_over lance_put
wide_transmit w bix m ms =
    let sc₁ = wide_check_missing w bix in
    let (mem, len) = lance_put w.sc.mem (le_tbufaddr w.sc bix) m in
    record w {
      sc = record sc₁ {
        if_snd = ms;
        mem = mem;
        effects = sc₁.effects ++ (Effect.demanded ∷ []);
        sc_no_td = suc w.sc.sc_no_td;
      };
      wide_tmd = update w.wide_tmd bix (wide_handed_over (w.wide_tmd bix) len);
    }

abbrev pub wide_mark_active : Wide → Wide
wide_mark_active w = record w { sc = record w.sc { oactive = true } }

-- The loop over the queue, with `bix` and `enq` behind it.
unfoldable pub wide_start_loop : Wide → List Chain → (bix enq : ℕ) → Wide × ℕ × ℕ
wide_start_loop w [] bix enq = (w, bix, enq)
wide_start_loop w (m ∷ ms) bix enq =
    let w₁ = wide_transmit w bix m ms in
    let bix₁ = next bix w.sc.sc_ntbuf in
    let rest = wide_start_loop w₁ ms bix₁ (suc enq) in
    if ltb w.sc.sc_no_td w.sc.sc_ntbuf
    then if w₁.sc.sc_no_td == w.sc.sc_ntbuf then (wide_mark_active w₁, bix₁, suc enq) else rest
    else (w, bix, enq)

-- am79900_start_locked
unfoldable pub am79900_start_locked : Wide → Wide
unfolding wide_start_loop
am79900_start_locked w =
    let (w₁, bix, enq) = wide_start_loop w w.sc.if_snd w.sc.sc_last_td 0 in
    if w.sc.running && not w.sc.oactive
    then record w₁ {
      sc = record w₁.sc {
        sc_last_td = bix;
        sc_wdog_timer = if ltb 0 enq then 5 else w₁.sc.sc_wdog_timer;
      };
    }
    else w
