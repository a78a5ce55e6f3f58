-- ===== src/Lance/Tests.antt =====
-- Runs of the LANCE driver at concrete states.
use rtems_libbsdport.Prelude.{
  ℕ, ◌&&◌, ◌+◌, ◌^◌, ◌≤◌, ◌≡◌, refl, true, false, Bool, [], ◌∷◌, ◌++◌, arith, ltb, if◌then◌else◌,
  ◌==◌, some,
}
use rtems_libbsdport.Lance.{Softc, Host, Rmd, Tmd, Csr0, Chain, Effect}
use rtems_libbsdport.Lance.Config.{
  am7990_config, lance_config, place, layout, ring_sizes, IsLaid, config-IsLaid,
}
use rtems_libbsdport.Lance.Filter.{is_passed, lance_setladrf, setladrf-is_passed}
use rtems_libbsdport.Lance.Buffer.{lance_put, lance_get}
use rtems_libbsdport.Lance.Copies.{IsHost, flat, padded, lance_get-lance_put}
use rtems_libbsdport.Lance.Ring.{wrap}
use rtems_libbsdport.Lance.Start.{Ring}
use rtems_libbsdport.Lance.Sent.{IsLoaded, start_locked-IsLoaded}
use rtems_libbsdport.Lance.Transmit.{am7990_start_locked}
use rtems_libbsdport.Lance.Receive.{am7990_tint, am7990_rint, tint_loop, rint_loop}
use rtems_libbsdport.Lance.Wide.{Wide, am79900_start_locked}
use rtems_libbsdport.Lance.Whole.{wide_tint_loop, am79900_meminit}
use rtems_libbsdport.Lance.Same.{seen, start_locked-seen}
use rtems_libbsdport.Lance.SameRings.{seen_tint}
use rtems_libbsdport.Lance.SameReceive.{seen_rint, rings-seen}
use rtems_libbsdport.Lance.WideReceive.{wide_rint_loop}
use rtems_libbsdport.Lance.Rings.{am7990_meminit}
use rtems_libbsdport.Lance.Reclaim.{IsReclaimed, tint_reclaims}
use rtems_libbsdport.Lance.Serve.{IsApart, IsServed, rint_serves}
use rtems_libbsdport.Lance.Sound.{IsSound}
use rtems_libbsdport.Lance.Control.{lance_init, lance_start}
use rtems_libbsdport.Lance.Reach.{Reach, Step, Reach-IsSound}

-- CSR0 of a chip that works and has nothing to report but the end of its initialisation.
abbrev ready : Csr0
ready = record {
  err = false;
  babl = false;
  miss = false;
  merr = false;
  rint = false;
  tint = false;
  idon = true;
  intr = true;
  rxon = true;
  txon = true;
}

abbrev host : Host
host = record {
  ether_crc32_le = λ a. 2 ^ 31 + 5;
  if_lladdr = λ i. i;
  mhlen = 200;
  mlen = 220;
  minclsize = 420;
  mclbytes = 2048;
  pad = λ c. 2;
  is_got = λ i. true;
  unlocked = λ sc. sc;
  is_big_endian = false;
  rdcsr = λ i. ready;
}

host-IsHost : IsHost host
host-IsHost = record { mhlen = omega arith; mlen = omega arith; mclbytes = omega arith }

-- A transmit descriptor of the chip's, or one that the chip is done with.
abbrev tx : (own : Bool) → Tmd
tx own = record {
  tmd0 = 0;
  tmd1_hadr = 0;
  own = own;
  err = false;
  more = false;
  one = false;
  stp = true;
  enp = true;
  tmd2 = 61440;
  buff = false;
  uflo = false;
  lcol = false;
  lcar = false;
  rtry = false;
}

abbrev rx : (own : Bool) → Rmd
rx own = record {
  rmd0 = 0;
  rmd1_hadr = 0;
  own = own;
  err = false;
  buff = false;
  stp = true;
  enp = true;
  rmd2 = 0;
  rmd3 = 64;
}

-- A driver before its first initialisation, with rings of eight and two.
abbrev fresh : Softc
fresh = record {
  up = true;
  promisc = false;
  allmulti = false;
  running = false;
  oactive = false;
  le_allmulti = false;
  le_carrier = false;
  le_promisc = false;
  le_bswap = false;
  sc_enaddr = λ i. 0;
  if_multiaddrs = (1 ∷ 2 ∷ []) ∷ [];
  sc_wdog_timer = 0;
  sc_conf3 = 4;
  sc_addr = 0;
  sc_memsize = 16384;
  sc_nrbuf = 8;
  sc_ntbuf = 2;
  sc_last_rd = 0;
  sc_first_td = 0;
  sc_last_td = 0;
  sc_no_td = 0;
  sc_initaddr = 0;
  sc_rmdaddr = 32;
  sc_tmdaddr = 96;
  sc_rbufaddr = 112;
  sc_tbufaddr = 12288;
  if_ipackets = 0;
  if_ierrors = 0;
  if_opackets = 0;
  if_oerrors = 0;
  if_collisions = 0;
  if_snd = [];
  init = record {
    mode_prom = false;
    init_padr = λ i. 0;
    init_ladrf = λ i. 0;
    init_rdra = 0;
    init_rlen = 0;
    init_tdra = 0;
    init_tlen = 0;
  };
  rmd = λ i. rx true;
  tmd = λ i. tx false;
  mem = λ a. 0;
  reads = 0;
  allocs = 0;
  effects = Effect.stopped ∷ [];
}

abbrev packet : Chain
packet = (1 ∷ 2 ∷ []) ∷ (3 ∷ []) ∷ []

-- One packet is under way, and another is queued.
abbrev sending : Softc
sending = record fresh {
  running = true;
  sc_no_td = 1;
  sc_first_td = 1;
  tmd = λ i. tx (i == 1);
  if_snd = packet ∷ [];
}

sending-Ring : Ring sending 0
sending-Ring = record {
  no_le = omega arith;
  first_lt = omega arith;
  last_is = refl;
  free = λ k a b. ground arith;
}

start_locked-IsLoaded_example :
    IsLoaded sending (am7990_start_locked sending) 0 (padded (1 ∷ 2 ∷ 3 ∷ []))
start_locked-IsLoaded_example =
    start_locked-IsLoaded sending 0 packet sending-Ring refl refl (omega arith, tt) (omega arith)
      refl

-- The chip is done with the packet at descriptor 1.
abbrev done : Softc
done = record sending { tmd = λ i. tx false }

tint_reclaims_example :
    (k : ℕ) × (k ≤ 1)
    × IsReclaimed done 1 1 k (am7990_tint host done)
    × ((am7990_tint host done).sc_first_td ≡ wrap (1 + k) 2)
    × ((am7990_tint host done).sc_wdog_timer ≡ (if ltb k 1 then 5 else 0))
tint_reclaims_example = tint_reclaims host done (omega arith) (omega arith) (λ i. refl)

-- The chip has handed over the descriptors 7 and 0.
abbrev receiving : Softc
receiving = record fresh { sc_last_rd = 7; rmd = λ i. rx (ltb 0 i && ltb i 7) }

host-IsApart : IsApart host
host-IsApart = record { rmd = λ sc. refl; nrbuf = λ sc. refl; handled = λ sc. refl }

rint_serves_example :
    (k : ℕ) × (sc : Softc) × (am7990_rint host 9 receiving ≡ some sc)
    × (sc.sc_last_rd ≡ wrap (7 + k) 8)
    × (k ≤ 8)
    × IsServed host host-IsApart receiving 7 k sc
rint_serves_example = rint_serves host host-IsApart 9 receiving (omega arith) (omega arith)

lance_get-lance_put_example :
    (ms : Chain) × ((lance_get host
        (lance_put fresh.mem 100 packet).0
        100
        (lance_put fresh.mem 100 packet).1
        0).0
      ≡ some ms)
    × (flat ms ≡ padded (1 ∷ 2 ∷ 3 ∷ []))
lance_get-lance_put_example =
    lance_get-lance_put host fresh.mem 100 0 packet host-IsHost (λ i. refl) (omega arith)

setladrf-is_passed_example : is_passed host fresh (lance_setladrf host fresh) (1 ∷ 2 ∷ []) ≡ false
setladrf-is_passed_example =
    setladrf-is_passed host fresh (1 ∷ 2 ∷ []) (λ a. omega arith) refl refl (λ e. omega arith)

-- A front end that leaves the ring sizes to lance_config, with `memsize` bytes.
abbrev unset : (memsize : ℕ) → Softc
unset memsize = record fresh { sc_memsize = memsize; sc_nrbuf = 0; sc_ntbuf = 0 }

abbrev laid_out : Softc
laid_out = record (unset 16384) {
  sc_nrbuf = 8;
  sc_ntbuf = 2;
  sc_rmdaddr = 32;
  sc_tmdaddr = 96;
  sc_rbufaddr = 112;
  sc_tbufaddr = 12288;
}

unset-config : am7990_config (unset 16384) ≡ some laid_out
unfolding am7990_config lance_config place layout ring_sizes
unset-config = refl

config-IsLaid_example : IsLaid laid_out
config-IsLaid_example = config-IsLaid (unset 16384) laid_out unset-config

-- A packet is queued behind the first initialisation, and sent.
abbrev queued_one : Softc
queued_one = record (lance_init host fresh) {
  if_snd = (lance_init host fresh).if_snd ++ (packet ∷ []);
}

Reach-IsSound_example : IsSound (lance_start queued_one)
Reach-IsSound_example =
    Reach-IsSound host (λ sc s. s) (lance_start queued_one)
      (Reach.later (Reach.later (Reach.start fresh (refl, omega arith, refl)) (Step.queued packet))
        Step.started)

-- A chip with words for descriptors: the one at 1 was sent with one collision.
abbrev wide : Wide
wide = record {
  sc = sending;
  wide_init = record {
    init_mode = 0;
    init_padr = λ i. 0;
    init_ladrf = λ i. 0;
    init_rdra = 0;
    init_tdra = 0;
  };
  wide_rmd = λ i. record { rmd0 = 0; rmd1 = 0; rmd2 = 0 };
  wide_tmd = λ i. record { tmd0 = 0; tmd1 = 2 ^ 27; tmd2 = 0 };
}

start_locked-seen_example : seen (am79900_start_locked wide) ≡ am7990_start_locked (seen wide)
start_locked-seen_example = start_locked-seen wide

same_host : (w : Wide) → seen w ≡ host.unlocked (seen w)
same_host w = refl

rings-seen_example :
    (seen (am79900_meminit host wide)
      ≡ record (am7990_meminit host (seen wide)) { init = wide.sc.init })
    × (seen_rint (wide_rint_loop host (λ w. w) false 9 0 wide) ≡ rint_loop host 9 0 (seen wide))
    × (seen_tint (wide_tint_loop wide 1 1) ≡ tint_loop (seen wide) 1 1)
rings-seen_example = rings-seen host (λ w. w) same_host wide 9 0 1 1
