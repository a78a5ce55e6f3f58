-- ===== src/Lance.antt =====
-- bsd_eth_drivers/if_le/lance.c, am7990.c, am79900.c and lancevar.h: the driver of the LANCE Ethernet
-- chips, without its bus front ends.
-- A flag of a flag word is a Boolean field, and a descriptor is a record that stands at its index in
-- its ring (LE_RMDADDR, LE_TMDADDR). The packet buffers are one memory of bytes, indexed as by
-- LE_RBUFADDR and LE_TBUFADDR.
pub mod Config
pub mod Filter
pub mod Buffer
pub mod Copies
pub mod Rings
pub mod Transmit
pub mod Receive
pub mod Control
pub mod Ring
pub mod Start
pub mod Settle
pub mod Sound
pub mod Entries
pub mod Reach
pub mod Serve
pub mod Sent
pub mod Reclaim
pub mod Wide
pub mod Whole
pub mod Same
pub mod SameRings
pub mod WideReceive
pub mod SameReceive
mod Tests
use rtems_libbsdport.Prelude.{
  ℕ, zero, suc, ◌+◌, ◌-◌, ◌*◌, ◌/◌, ◌%◌, ◌^◌, Bool, List, ◌==◌, if◌then◌else◌,
}

-- An mbuf chain: the data of each mbuf.
abbrev pub Chain : Type 0
Chain = List (List ℕ)

-- ETHER_HDR_LEN, ETHER_CRC_LEN, LEBLEN and LEMINSIZE
abbrev pub ether_hdr_len : ℕ
ether_hdr_len = 14

abbrev pub ether_crc_len : ℕ
ether_crc_len = 4

abbrev pub leblen : ℕ
leblen = 1522

abbrev pub leminsize : ℕ
leminsize = 60

-- `struct lermd`: the bits of rmd1_bits, and the fields.
pub record Rmd : Type 0 where
  pub rmd0 : ℕ
  pub rmd1_hadr : ℕ
  pub own : Bool
  pub err : Bool
  pub buff : Bool
  pub stp : Bool
  pub enp : Bool
  pub rmd2 : ℕ
  pub rmd3 : ℕ

-- `struct letmd`: the bits of tmd1_bits and of tmd3, and the fields.
pub record Tmd : Type 0 where
  pub tmd0 : ℕ
  pub tmd1_hadr : ℕ
  pub own : Bool
  pub err : Bool
  pub more : Bool
  pub one : Bool
  pub stp : Bool
  pub enp : Bool
  pub tmd2 : ℕ
  pub buff : Bool
  pub uflo : Bool
  pub lcol : Bool
  pub lcar : Bool
  pub rtry : Bool

-- `struct leinit`: the mode bit LE_MODE_PROM, and the fields.
pub record Init : Type 0 where
  pub mode_prom : Bool
  pub init_padr : ℕ → ℕ
  pub init_ladrf : ℕ → ℕ
  pub init_rdra : ℕ
  pub init_rlen : ℕ
  pub init_tdra : ℕ
  pub init_tlen : ℕ

-- The bits of CSR0 that the driver reads.
pub record Csr0 : Type 0 where
  pub err : Bool
  pub babl : Bool
  pub miss : Bool
  pub merr : Bool
  pub rint : Bool
  pub tint : Bool
  pub idon : Bool
  pub intr : Bool
  pub rxon : Bool
  pub txon : Bool

-- What the driver does to the chip and to the rest of the kernel, in order. `acknowledged` is the
-- write of the bits that were read, without those that give commands.
pub data Effect : Type 0 where
  stopped init_asked started demanded enabled : Effect
  acknowledged : Csr0 → Effect
  csr1_written csr2_written csr3_written : ℕ → Effect
  missing_buffer : (no_td last_td : ℕ) → Effect
  delivered : Chain → Effect
  link_up link_down : Effect

-- The fields of `struct lance_softc` and of its `struct ifnet` with its multicast addresses, the
-- init block, the two descriptor rings, the buffer memory, how often CSR0 has been read and mbufs were asked for, and the effects so far.
pub record Softc : Type 0 where
  pub up : Bool
  pub promisc : Bool
  pub allmulti : Bool
  pub running : Bool
  pub oactive : Bool
  pub le_allmulti : Bool
  pub le_carrier : Bool
  pub le_promisc : Bool
  pub le_bswap : Bool
  pub sc_enaddr : ℕ → ℕ
  pub if_multiaddrs : List (List ℕ)
  pub sc_wdog_timer : ℕ
  pub sc_conf3 : ℕ
  pub sc_addr : ℕ
  pub sc_memsize : ℕ
  pub sc_nrbuf : ℕ
  pub sc_ntbuf : ℕ
  pub sc_last_rd : ℕ
  pub sc_first_td : ℕ
  pub sc_last_td : ℕ
  pub sc_no_td : ℕ
  pub sc_initaddr : ℕ
  pub sc_rmdaddr : ℕ
  pub sc_tmdaddr : ℕ
  pub sc_rbufaddr : ℕ
  pub sc_tbufaddr : ℕ
  pub if_ipackets : ℕ
  pub if_ierrors : ℕ
  pub if_opackets : ℕ
  pub if_oerrors : ℕ
  pub if_collisions : ℕ
  pub if_snd : List Chain
  pub init : Init
  pub rmd : ℕ → Rmd
  pub tmd : ℕ → Tmd
  pub mem : ℕ → ℕ
  pub reads : ℕ
  pub allocs : ℕ
  pub effects : List Effect

-- What the driver is given: the kernel's ether_crc32_le, link-level address, and mbuf sizes, the
-- bytes that ALIGN leaves out before the first data in an mbuf or in a cluster, which allocations of an mbuf or a cluster
-- succeed, and what else runs while the lock is dropped for if_input; the byte order of the CPU; what
-- each read of CSR0 gives.
pub record Host : Type 0 where
  pub ether_crc32_le : List ℕ → ℕ
  pub if_lladdr : ℕ → ℕ
  pub mhlen : ℕ
  pub mlen : ℕ
  pub minclsize : ℕ
  pub mclbytes : ℕ
  pub pad : Bool → ℕ
  pub is_got : ℕ → Bool
  pub unlocked : Softc → Softc
  pub is_big_endian : Bool
  pub rdcsr : ℕ → Csr0

-- LE_RBUFADDR and LE_TBUFADDR
abbrev pub le_rbufaddr : Softc → ℕ → ℕ
le_rbufaddr sc bix = sc.sc_rbufaddr + leblen * bix

abbrev pub le_tbufaddr : Softc → ℕ → ℕ
le_tbufaddr sc bix = sc.sc_tbufaddr + leblen * bix

-- `-len | LE_XMD2_ONES` as 16 bits.
abbrev pub xmd2 : ℕ → ℕ
xmd2 len = 61440 + (4096 - len % 4096) % 4096

-- `if (++bix == n) bix = 0`
abbrev pub next : (bix n : ℕ) → ℕ
next bix n = if suc bix == n then 0 else suc bix
