-- ===== src/Mbuf.antt =====
-- bsd_eth_drivers/libbsdport/misc.c, and m_getcl of libbsdport_post.h: the length of a chain of packet
-- buffers, and its copy into as few buffers as the code manages.
pub mod Defrag
mod Tests
use Prim.Native.Nat.{bit_and, bit_or}
use rtems_libbsdport.Prelude.{
  ℕ, zero, suc, ◌+◌, ◌-◌, ◌%◌, ◌^◌, ◌<◌, ◌≤◌, ◌≡◌, Option, none, some, Bool, true, false, List, [],
  ◌∷◌, ◌++◌, ltb, leb, ◌==◌, if◌then◌else◌,
}
use rtems_libbsdport.Prelude.Lists.{length, take, drop}

abbrev pub Bytes : Type 0
Bytes = List ℕ

-- A chain of `struct mbuf`s, as the bytes of each: `m_len` is their number.
abbrev pub Chain : Type 0
Chain = List Bytes

-- The loop of m_length, from the length `len` on.
unfoldable pub length_from : ℕ → Chain → ℕ
length_from len [] = len
length_from len (m ∷ ms) = length_from ((len + length m) % 2 ^ 32) ms

-- m_length: the length, and the index of the last buffer where the chain has one.
unfoldable pub m_length : Chain → ℕ
unfolding length_from
m_length ms = length_from 0 ms

-- The header fields of the first buffer of a packet: `m_pkthdr` is the packet header as a whole, but
-- for its `len`.
pub record Header : Type 0 where
  pub m_flags : ℕ
  pub m_data : ℕ
  pub m_pktdat : ℕ
  pub m_pkthdr : ℕ
  pub len : ℕ

-- m_fixhdr: the header after it, and the length that it returns.
unfoldable pub m_fixhdr : Header → Chain → Header × ℕ
unfolding m_length
m_fixhdr h ms = (record h { len = m_length ms }, m_length ms)

-- m_dup_pkthdr, for the numbers M_COPYFLAGS and M_EXT of the system: `to` after it.
unfoldable pub m_dup_pkthdr : (m_copyflags m_ext : ℕ) (to from : Header) → Header
m_dup_pkthdr m_copyflags m_ext to from =
    let flags = bit_or (bit_and from.m_flags m_copyflags) (bit_and to.m_flags m_ext) in
    record to {
      m_flags = flags;
      m_data = if bit_and flags m_ext == 0 then to.m_pktdat else to.m_data;
      m_pkthdr = from.m_pkthdr;
      len = from.len;
    }

-- The sizes of the system's buffers, its allocators, and the functions on chains that are called
-- here. The allocators say whether they serve the call: `m_get` may be asked when `progress` bytes
-- have been copied.
pub record System : Type 0 where
  pub mhlen : ℕ
  pub mlen : ℕ
  pub mclbytes : ℕ
  pub gethdr : Bool
  pub clget : Bool
  pub get : (progress : ℕ) → Bool
  pub m_copydata : Chain → (off len : ℕ) → Bytes
  pub m_cat : Chain → Bytes → Chain

-- m_getcl, which serves packet headers only. MGETHDR, then MCLGET.
unfoldable pub m_getcl : System → (pkthdr : Bool) → Bool
m_getcl sys false = false
m_getcl sys true = if sys.gethdr then sys.clget else false

-- What m_defrag returns: the chain it was given, NULL, or a new chain, after which the old one is
-- freed.
pub data Result : Type 0 where
  unharmed : Result
  nospace : Result
  defragged : Chain → Result
  out_of_fuel : Result

-- The buffer for the next `len` bytes, in the loop of m_defrag.
unfoldable pub has_buffer : System → (progress len : ℕ) → Bool
unfolding m_getcl
has_buffer sys progress len =
    if progress == 0 then true else if ltb sys.mlen len then m_getcl sys false else sys.get progress

-- The loop of m_defrag for a packet of `total` bytes. The first buffer is `m_final`, which m_defrag
-- has allocated; the others are appended to it. The lengths are ints in C: this is the loop for
-- packets of fewer than 2 ^ 31 bytes.
unfoldable pub defrag_loop : System → Chain → (total fuel progress : ℕ) → (final : Chain) → Result
unfolding has_buffer
defrag_loop sys ms total zero progress final = out_of_fuel
defrag_loop sys ms total (suc fuel) progress final =
    let left = total - progress in
    let len = if ltb sys.mclbytes left then sys.mclbytes else left in
    let bytes = sys.m_copydata ms progress len in
    let final' = if progress == 0 then bytes ∷ [] else sys.m_cat final bytes in
    let rest = defrag_loop sys ms total fuel (progress + len) final' in
    if ltb progress total
    then (if has_buffer sys progress len then rest else nospace)
    else defragged final

-- m_defrag. `is_packet` is the flag M_PKTHDR. m_dup_pkthdr, which copies the header, does not fail.
unfoldable pub m_defrag : System → (is_packet : Bool) → Chain → (fuel : ℕ) → Result
unfolding m_length m_getcl
m_defrag sys false ms fuel = unharmed
m_defrag sys true ms fuel =
    let total = m_length ms in
    let served = if ltb sys.mhlen total then m_getcl sys true else sys.gethdr in
    if served then defrag_loop sys ms total fuel 0 ([] ∷ []) else nospace
