-- ===== src/Lance/Config.antt =====
-- lance_config and am7990_config: how many buffers each ring gets, and where in the chip's memory
-- the rings and the buffers lie.
use rtems_libbsdport.Prelude.{
  ℕ, zero, suc, subst, ◌+◌, ◌-◌, ◌*◌, ◌/◌, ◌%◌, ◌^◌, ◌≤◌, ◌<◌, ◌≡◌, refl, ◌≢◌, ◌&&◌, ◌||◌, Option,
  none, some, arith, ◌==◌, if◌then◌else◌, ltb, leb, Bool-cases, Option-cases, inl, inr,
}
use rtems_libbsdport.Lance.{Softc, leblen}

-- The counts of receive and of transmit buffers.
abbrev pub Counts : Type 0
Counts = ℕ × ℕ

-- The switch of lance_config on the memory size.
unfoldable pub ring_sizes : ℕ → Counts
ring_sizes memsize =
    if memsize == 8192
    then (4, 1)
    else if memsize == 16384
    then (8, 2)
    else if memsize == 32768
    then (16, 4)
    else if memsize == 65536
    then (32, 8)
    else if memsize == 131072
    then (64, 16)
    else if memsize == 262144
    then (128, 32)
    else let nbuf = memsize / leblen in (nbuf - nbuf / 5, nbuf / 5)

-- The two assertions of lance_config, and the switch where the front end has set no sizes. none: an
-- assertion fails.
unfoldable pub lance_config : Softc → Option Softc
unfolding ring_sizes
lance_config sc =
    let both = (sc.sc_nrbuf == 0) && (sc.sc_ntbuf == 0) in
    let neither = ltb 0 sc.sc_nrbuf && ltb 0 sc.sc_ntbuf in
    let sizes = ring_sizes sc.sc_memsize in
    let fits = leb ((sc.sc_nrbuf + sc.sc_ntbuf) * leblen) sc.sc_memsize in
    if (both || neither) && fits
    then some (if both then record sc { sc_nrbuf = sizes.0; sc_ntbuf = sizes.1 } else sc)
    else none

-- `sizeof (struct leinit)`, and that of either descriptor
abbrev pub sizeof_leinit : ℕ
sizeof_leinit = 32

abbrev pub sizeof_md : ℕ
sizeof_md = 8

-- The layout that am7990_config computes, with the size in all.
unfoldable pub layout : Softc → Softc × ℕ
layout sc =
    let rmdaddr = sizeof_leinit in
    let tmdaddr = rmdaddr + sizeof_md * sc.sc_nrbuf in
    let rbufaddr = tmdaddr + sizeof_md * sc.sc_ntbuf in
    let tbufaddr = rbufaddr + leblen * sc.sc_nrbuf in
    (
      record sc {
        sc_initaddr = 0;
        sc_rmdaddr = rmdaddr;
        sc_tmdaddr = tmdaddr;
        sc_rbufaddr = rbufaddr;
        sc_tbufaddr = tbufaddr;
      },
      tbufaddr + leblen * sc.sc_ntbuf,
    )

-- am7990_config from lance_config on. none: it panics.
unfoldable pub place : Softc → Option Softc
unfolding layout
place sc = if ltb sc.sc_memsize (layout sc).1 then none else some (layout sc).0

-- am7990_config. none: it panics, or an assertion fails.
unfoldable pub am7990_config : Softc → Option Softc
unfolding lance_config place
am7990_config sc = elim (lance_config sc) [ none ↦ none | some sc' ↦ place sc' ]

-- The init block, the two rings and the two sets of buffers lie behind each other in the memory.
abbrev pub IsLaid : Softc → Type 0
IsLaid sc =
    (sc.sc_initaddr + sizeof_leinit ≤ sc.sc_rmdaddr)
    × (sc.sc_rmdaddr + sizeof_md * sc.sc_nrbuf ≤ sc.sc_tmdaddr)
    × (sc.sc_tmdaddr + sizeof_md * sc.sc_ntbuf ≤ sc.sc_rbufaddr)
    × (sc.sc_rbufaddr + leblen * sc.sc_nrbuf ≤ sc.sc_tbufaddr)
    × (sc.sc_tbufaddr + leblen * sc.sc_ntbuf ≤ sc.sc_memsize)

layout-IsLaid : (sc : Softc) → (layout sc).1 ≤ sc.sc_memsize → IsLaid (layout sc).0
unfolding layout
layout-IsLaid sc h = (omega arith, omega arith, omega arith, omega arith, omega arith)

place-IsLaid : (sc sc' : Softc) → place sc ≡ some sc' → IsLaid sc'
unfolding place
place-IsLaid sc sc' h = elim (Bool-cases (ltb sc.sc_memsize (layout sc).1)) [
  | inl l ↦ let h₁ = rw l at h in absurd (ground arith)
  | inr l ↦
      let h₁ : some (layout sc).0 ≡ some sc' = rw l at h in
      let e : (layout sc).0 ≡ sc' = ground arith in subst IsLaid e (layout-IsLaid sc (ground arith))
]

-- Whatever am7990_config returns without a panic is laid out without an overlap and within the
-- chip's memory.
pub config-IsLaid : (sc sc' : Softc) → am7990_config sc ≡ some sc' → IsLaid sc'
unfolding am7990_config
config-IsLaid sc sc' h = elim (Option-cases (lance_config sc)) [
  | inl e ↦ let h₁ = rw (e, am7990_config) at h in absurd (ground arith)
  | inr (sc₁, e) ↦ place-IsLaid sc₁ sc' (rw (e, am7990_config) at h)
]

module _ (sc : Softc) (r : sc.sc_nrbuf ≡ 0) (t : sc.sc_ntbuf ≡ 0) where
  unset-lance_config :
      lance_config sc
      ≡ some (record sc {
        sc_nrbuf = (ring_sizes sc.sc_memsize).0;
        sc_ntbuf = (ring_sizes sc.sc_memsize).1;
      })
  unfolding lance_config
  unset-lance_config = rw (r, t) (ground arith)

  sized_config :
      (nr nt : ℕ)
      → ring_sizes sc.sc_memsize ≡ (nr, nt)
      → sizeof_leinit + (sizeof_md + leblen) * (nr + nt) ≤ sc.sc_memsize
      → (sc' : Softc) × (am7990_config sc ≡ some sc') × (sc'.sc_nrbuf ≡ nr) × (sc'.sc_ntbuf ≡ nt)
  unfolding am7990_config place layout
  sized_config nr nt s l = (
    (layout (record sc { sc_nrbuf = nr; sc_ntbuf = nt })).0,
    rw (unset-lance_config, am7990_config) (rw s (ground arith)),
    refl,
    refl,
  )

-- Each memory size that lance_config names, where the front end has set no ring sizes: am7990_config
-- does not panic, and there are four times as many receive as transmit buffers, both a power of two
-- as the chip's rings must be.
pub named_size_configures :
    (sc : Softc) (k : ℕ)
    → k < 6
    → sc.sc_memsize ≡ 8192 * 2 ^ k
    → sc.sc_nrbuf ≡ 0
    → sc.sc_ntbuf ≡ 0
    → (sc' : Softc) × (am7990_config sc ≡ some sc')
      × (sc'.sc_nrbuf ≡ 4 * 2 ^ k)
      × (sc'.sc_ntbuf ≡ 2 ^ k)
unfolding ring_sizes
named_size_configures sc zero l m r t = sized_config sc r t 4 1 (rw m refl) (omega arith)
named_size_configures sc (suc zero) l m r t = sized_config sc r t 8 2 (rw m refl) (omega arith)
named_size_configures sc (suc (suc zero)) l m r t =
    sized_config sc r t 16 4 (rw m refl) (omega arith)
named_size_configures sc (suc (suc (suc zero))) l m r t =
    sized_config sc r t 32 8 (rw m refl) (omega arith)
named_size_configures sc (suc (suc (suc (suc zero)))) l m r t =
    sized_config sc r t 64 16 (rw m refl) (omega arith)
named_size_configures sc (suc (suc (suc (suc (suc zero))))) l m r t =
    sized_config sc r t 128 32 (rw m refl) (omega arith)
named_size_configures sc (suc (suc (suc (suc (suc (suc k)))))) l m r t = absurd (omega arith)

-- Any memory size that is no multiple of 8192, where the front end has set no ring sizes: lance_config
-- gives the buffers all the memory, so am7990_config panics if what a division into buffers leaves is
-- too small for the init block and the rings.
pub other_size_panics :
    (sc : Softc)
    → sc.sc_nrbuf ≡ 0
    → sc.sc_ntbuf ≡ 0
    → sc.sc_memsize % 8192 ≢ 0
    → sc.sc_memsize % leblen < sizeof_leinit + sizeof_md * (sc.sc_memsize / leblen)
    → am7990_config sc ≡ none
unfolding am7990_config place ring_sizes layout
other_size_panics sc r t n m = rw (unset-lance_config sc r t, am7990_config) (ground arith)
