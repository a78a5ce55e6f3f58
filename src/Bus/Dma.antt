-- ===== src/Bus/Dma.antt =====
-- DMA maps of bsd_eth_drivers/libbsdport/bus.h: the segments of a chain of packet buffers.
use mathlib.Core.List.{append_assoc, append-nil}
use Prim.Native.Nat.{bit_and}
use rtems_libbsdport.Prelude.{
  ◌||◌, ◌==◌, ◌-◌, ℕ, ◌+◌, ◌%◌, ◌^◌, ◌<◌, ◌≤◌, ◌≡◌, refl, sym, ◌∙◌, ap, Option, none, some, Bool,
  true, false, List, [], ◌∷◌, ◌++◌, if◌then◌else◌, leb, Bool-cases, inl, inr, arith,
}
use rtems_libbsdport.Prelude.Lists.{length}

-- The fields of `struct mbuf` that are read here; a chain is the list of its buffers.
pub record Mbuf : Type 0 where
  pub m_data : ℕ
  pub m_len : ℕ

-- `bus_dma_segment_t`
pub record Segment : Type 0 where
  pub ds_addr : ℕ
  pub ds_len : ℕ

-- CPU2BUSADDR, with the board's PCI_DRAM_OFFSET.
abbrev pub cpu_to_bus : (offset a : ℕ) → ℕ
cpu_to_bus offset a = (a + offset) % 2 ^ 32

abbrev pub segment : ℕ → Mbuf → Segment
segment offset m = record { ds_addr = cpu_to_bus offset m.m_data; ds_len = m.m_len }

-- The loop of bus_dmamap_load_mbuf_sg, with the `n` segments so far. none: EFBIG.
unfoldable pub load_sg_loop :
    (offset maxsegs n : ℕ) → List Segment → List Mbuf → Option (List Segment)
load_sg_loop offset maxsegs n segs [] = some segs
load_sg_loop offset maxsegs n segs (m ∷ ms) =
    let rest = load_sg_loop offset maxsegs (n + 1) (segs ++ (segment offset m ∷ [])) ms in
    if leb maxsegs n then none else rest

-- bus_dmamap_load_mbuf_sg: the segments, whose number is `*pnsegs`.
unfoldable pub bus_dmamap_load_mbuf_sg : (offset maxsegs : ℕ) → List Mbuf → Option (List Segment)
unfolding load_sg_loop
bus_dmamap_load_mbuf_sg offset maxsegs ms = load_sg_loop offset maxsegs 0 [] ms

-- What bus_dmamap_load_mbuf passes to its callback: the segments, the size, and whether EFBIG.
pub record Callback : Type 0 where
  pub segs : List Segment
  pub mapsize : ℕ
  pub efbig : Bool

-- The loop of bus_dmamap_load_mbuf, where `size_t` has 32 bits.
unfoldable pub load_loop : (offset maxsegs n sz : ℕ) → List Segment → List Mbuf → Callback
load_loop offset maxsegs n sz segs [] = record { segs = segs; mapsize = sz; efbig = false }
load_loop offset maxsegs n sz segs (m ∷ ms) =
    let rest =
      load_loop offset maxsegs (n + 1) ((sz + m.m_len) % 2 ^ 32) (segs ++ (segment offset m ∷ []))
        ms in
    if leb maxsegs n then record { segs = segs; mapsize = sz; efbig = true } else rest

-- bus_dmamap_load_mbuf, which returns the error that the callback gets.
unfoldable pub bus_dmamap_load_mbuf : (offset maxsegs : ℕ) → List Mbuf → Callback
unfolding load_loop
bus_dmamap_load_mbuf offset maxsegs ms = load_loop offset maxsegs 0 0 [] ms

-- `struct _bus_dma_tag_t`
pub record Tag : Type 0 where
  pub alignment : ℕ
  pub maxsize : ℕ
  pub maxsegs : ℕ

pub data TagResult : Type 0 where
  enotsup enomem : TagResult
  created : Tag → TagResult

-- bus_dma_tag_create, as far as it reads its arguments.
unfoldable pub bus_dma_tag_create :
    (has_filter has_lockfunc has_memory : Bool) (alignment maxsize nsegs : ℕ) → TagResult
bus_dma_tag_create has_filter has_lockfunc has_memory alignment maxsize nsegs =
    if has_filter || has_lockfunc
    then enotsup
    else if has_memory
    then created (record { alignment = alignment; maxsize = maxsize; maxsegs = nsegs })
    else enomem

-- bus_dmamem_alloc: the map, which is what `malloc` returned, and the aligned address; none for
-- ENOMEM. The arithmetic has 32 bits, and `~(alignment - 1)` is written out.
unfoldable pub bus_dmamem_alloc : (malloc : ℕ → ℕ) → Tag → Option (ℕ × ℕ)
bus_dmamem_alloc malloc tag =
    let p = malloc ((tag.maxsize + tag.alignment) % 2 ^ 32) in
    let below = (tag.alignment + (2 ^ 32 - 1)) % 2 ^ 32 in
    if p == 0 then none else some (p, bit_and ((p + below) % 2 ^ 32) (2 ^ 32 - 1 - below))

-- bus_dmamem_free: what it passes to `free`.
unfoldable pub bus_dmamem_free : (vaddr map : ℕ) → ℕ
bus_dmamem_free vaddr map = map

-- bus_dmamap_load: the one segment that it passes to its callback, without an error.
unfoldable pub bus_dmamap_load : (offset vaddr size : ℕ) → List Segment
bus_dmamap_load offset vaddr size = record { ds_addr = cpu_to_bus offset vaddr; ds_len = size } ∷ []

-- The bytes of a chain.
abbrev pub total : List Mbuf → ℕ
total [] = 0
total (m ∷ ms) = m.m_len + total ms

abbrev pub segments : ℕ → List Mbuf → List Segment
segments offset [] = []
segments offset (m ∷ ms) = segment offset m ∷ segments offset ms

load_sg_loop_lem :
    (offset maxsegs n : ℕ) (segs : List Segment) (ms : List Mbuf)
    → n + length ms ≤ maxsegs
    → load_sg_loop offset maxsegs n segs ms ≡ some (segs ++ segments offset ms)
unfolding load_sg_loop
load_sg_loop_lem offset maxsegs n segs [] h = ap some (sym (append-nil segs))
load_sg_loop_lem offset maxsegs n segs (m ∷ ms) h = ground (
  arith,
  load_sg_loop_lem offset maxsegs (n + 1) (segs ++ (segment offset m ∷ [])) ms,
  append_assoc segs (segment offset m ∷ []) (segments offset ms),
)

load_sg_loop_long :
    (offset maxsegs n : ℕ) (segs : List Segment) (ms : List Mbuf)
    → maxsegs < n + length ms
    → n ≤ maxsegs
    → load_sg_loop offset maxsegs n segs ms ≡ none
unfolding load_sg_loop
load_sg_loop_long offset maxsegs n segs [] h k = absurd (omega arith)
load_sg_loop_long offset maxsegs n segs (m ∷ ms) h k =
    ground (arith, load_sg_loop_long offset maxsegs (n + 1) (segs ++ (segment offset m ∷ [])) ms)

load_loop_lem :
    (offset maxsegs n sz : ℕ) (segs : List Segment) (ms : List Mbuf)
    → n + length ms ≤ maxsegs
    → sz + total ms < 2 ^ 32
    → load_loop offset maxsegs n sz segs ms
      ≡ record { segs = segs ++ segments offset ms; mapsize = sz + total ms; efbig = false }
unfolding load_loop
load_loop_lem offset maxsegs n sz segs [] h k =
    let (same_segs, same_size) : (segs ≡ segs ++ []) × (sz ≡ sz + 0) =
      (sym (append-nil segs), omega arith) in
    λ i. record { segs = same_segs i; mapsize = same_size i; efbig = false }
load_loop_lem offset maxsegs n sz segs (m ∷ ms) h k = ground (
  arith,
  load_loop_lem offset maxsegs (n + 1) (sz + m.m_len) (segs ++ (segment offset m ∷ [])) ms,
  append_assoc segs (segment offset m ∷ []) (segments offset ms),
)

load_sg_loop-agrees :
    (offset maxsegs n sz : ℕ) (segs : List Segment) (ms : List Mbuf)
    → load_sg_loop offset maxsegs n segs ms ≡ (
        if (load_loop offset maxsegs n sz segs ms).efbig
        then none
        else some ((load_loop offset maxsegs n sz segs ms).segs))
unfolding load_sg_loop load_loop
load_sg_loop-agrees offset maxsegs n sz segs [] = refl
load_sg_loop-agrees offset maxsegs n sz segs (m ∷ ms) = ground (
  arith,
  load_sg_loop-agrees offset maxsegs (n + 1) ((sz + m.m_len) % 2 ^ 32)
      (segs ++ (segment offset m ∷ [])) ms,
)

-- bus_dmamap_load_mbuf_sg gives one segment for each buffer, in
-- order, if the tag allows that many, and EFBIG otherwise.
pub load_mbuf_sg-segments :
    (offset maxsegs : ℕ) (ms : List Mbuf)
    → bus_dmamap_load_mbuf_sg offset maxsegs ms
      ≡ (if leb (length ms) maxsegs then some (segments offset ms) else none)
unfolding bus_dmamap_load_mbuf_sg
load_mbuf_sg-segments offset maxsegs ms = elim (Bool-cases (leb (length ms) maxsegs)) [
  | inl e ↦ rw e (load_sg_loop_lem offset maxsegs 0 [] ms (ground arith))
  | inr e ↦ rw e (load_sg_loop_long offset maxsegs 0 [] ms (ground arith) (omega arith))
]

-- bus_dmamap_load_mbuf fails with EFBIG exactly where bus_dmamap_load_mbuf_sg does, and otherwise
-- passes the same segments to its callback.
pub load_mbuf-load_mbuf_sg :
    (offset maxsegs : ℕ) (ms : List Mbuf)
    → bus_dmamap_load_mbuf_sg offset maxsegs ms ≡ (
        if (bus_dmamap_load_mbuf offset maxsegs ms).efbig
        then none
        else some ((bus_dmamap_load_mbuf offset maxsegs ms).segs))
unfolding bus_dmamap_load_mbuf_sg bus_dmamap_load_mbuf
load_mbuf-load_mbuf_sg offset maxsegs ms = load_sg_loop-agrees offset maxsegs 0 0 [] ms

-- For a chain of fewer than 2 ^ 32 bytes, in no more buffers than the tag allows segments,
-- bus_dmamap_load_mbuf passes its callback one segment for each buffer, in order, and the number of
-- bytes of the chain.
pub load_mbuf-segments :
    (offset maxsegs : ℕ) (ms : List Mbuf)
    → length ms ≤ maxsegs
    → total ms < 2 ^ 32
    → bus_dmamap_load_mbuf offset maxsegs ms
      ≡ record { segs = segments offset ms; mapsize = total ms; efbig = false }
unfolding bus_dmamap_load_mbuf
load_mbuf-segments offset maxsegs ms h k =
    let same : 0 + total ms ≡ total ms = omega arith in
    load_loop_lem offset maxsegs 0 0 [] ms (omega arith) (omega arith)
    ∙ ap (λ n. record { segs = segments offset ms; mapsize = n; efbig = false }) same
