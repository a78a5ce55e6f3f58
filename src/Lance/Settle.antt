-- ===== src/Lance/Settle.antt =====
-- am7990_meminit and am7990_tint: the transmit ring that they leave.
use rtems_libbsdport.Prelude.{
  ℕ, zero, suc, ◌+◌, ◌≤◌, ◌<◌, ◌≡◌, refl, sym, ap, subst, ◌∙◌, Bool, true, false, ◌&&◌, ◌||◌, List,
  [], ◌∷◌, ◌++◌, arith, ◌==◌, Bool-cases, inl, inr,
}
use rtems_libbsdport.Prelude.Memory.{update}
use rtems_libbsdport.Lance.{Softc, Rmd, Tmd, Effect, Host, next}
use rtems_libbsdport.Lance.Rings.{
  rmd_loop, tmd_loop, fresh_rmd, fresh_tmd, am7990_meminit, init_block,
}
use rtems_libbsdport.Lance.Ring.{wrap, IsRing, take-IsRing}
use rtems_libbsdport.Lance.Receive.{Tint, settle, count_error, count_sent, tint_loop}

abbrev fill_rmd : Softc → ℕ → Softc
fill_rmd sc bix = record sc { rmd = update sc.rmd bix (fresh_rmd sc bix) }

abbrev fill_tmd : Softc → ℕ → Softc
fill_tmd sc bix = record sc { tmd = update sc.tmd bix (fresh_tmd sc bix) }

-- The loops of am7990_meminit touch their own ring only.
rmd_loop-frame :
    (n : ℕ) (sc : Softc) (bix : ℕ) → rmd_loop sc n bix ≡ record sc { rmd = (rmd_loop sc n bix).rmd }
unfolding rmd_loop
rmd_loop-frame zero sc bix = refl
rmd_loop-frame (suc n) sc bix = rmd_loop-frame n (fill_rmd sc bix) (suc bix)

tmd_loop-frame :
    (n : ℕ) (sc : Softc) (bix : ℕ) → tmd_loop sc n bix ≡ record sc { tmd = (tmd_loop sc n bix).tmd }
unfolding tmd_loop
tmd_loop-frame zero sc bix = refl
tmd_loop-frame (suc n) sc bix = tmd_loop-frame n (fill_tmd sc bix) (suc bix)

tmd_loop-below : (n : ℕ) (sc : Softc) (bix i : ℕ) → i < bix → (tmd_loop sc n bix).tmd i ≡ sc.tmd i
unfolding tmd_loop
tmd_loop-below zero sc bix i h = refl
tmd_loop-below (suc n) sc bix i h =
    tmd_loop-below n (fill_tmd sc bix) (suc bix) i (omega arith) ∙ ground arith

tmd_loop-own :
    (n : ℕ) (sc : Softc) (bix i : ℕ)
    → bix ≤ i
    → i < bix + n
    → ((tmd_loop sc n bix).tmd i).own ≡ false
unfolding tmd_loop fresh_tmd
tmd_loop-own zero sc bix i a b = absurd (omega arith)
tmd_loop-own (suc n) sc bix i a b = elim (Bool-cases (i == bix)) [
  | inl e ↦ rw (tmd_loop-below n (fill_tmd sc bix) (suc bix) i (ground arith)) (rw e refl)
  | inr e ↦ tmd_loop-own n (fill_tmd sc bix) (suc bix) i (ground arith) (omega arith)
]

-- After am7990_meminit the transmit ring is empty.
pub meminit-Ring :
    (h : Host) (sc : Softc) → 0 < sc.sc_ntbuf → IsRing (am7990_meminit h sc).tmd sc.sc_ntbuf 0 0 0
unfolding am7990_meminit
meminit-Ring h sc p = record {
  no_le = omega arith;
  first_lt = p;
  last_is = ground arith;
  free = λ k a b.
      let i : wrap (0 + k) sc.sc_ntbuf ≡ k = ground arith in
      rw i (tmd_loop-own sc.sc_ntbuf _ 0 k (omega arith) (omega arith));
}

-- The state with the counters of the rings reset and the init block set up.
abbrev reset_rings : Host → Softc → Softc
reset_rings h sc = record sc {
  sc_last_rd = 0;
  sc_first_td = 0;
  sc_last_td = 0;
  sc_no_td = 0;
  init = init_block h sc;
}

-- A field that is not one of the rings.
pub meminit-field :
    {A : Type 0} (h : Host) (sc : Softc) (field : Softc → A)
    → ((s : Softc) (rmd : ℕ → Rmd) → field (record s { rmd = rmd }) ≡ field s)
    → ((s : Softc) (tmd : ℕ → Tmd) → field (record s { tmd = tmd }) ≡ field s)
    → field (am7990_meminit h sc) ≡ field (reset_rings h sc)
unfolding am7990_meminit
meminit-field h sc field r t =
    ap field (tmd_loop-frame sc.sc_ntbuf (rmd_loop (reset_rings h sc) sc.sc_nrbuf 0) 0)
    ∙ t _ _
    ∙ ap field (rmd_loop-frame sc.sc_nrbuf (reset_rings h sc) 0)
    ∙ r _ _

-- The driver has met a descriptor of the chip's where it wanted a free one.
abbrev is_missing : Effect → Bool
is_missing (Effect.missing_buffer no_td last_td) = true
is_missing e = false

abbrev pub has_missing : List Effect → Bool
has_missing [] = false
has_missing (e ∷ es) = is_missing e || has_missing es

pub has_missing-append :
    (es fs : List Effect) → has_missing (es ++ fs) ≡ (has_missing es || has_missing fs)
has_missing-append [] fs = refl
has_missing-append (e ∷ es) fs = ground (arith, has_missing-append es fs)

pub settle-fields :
    (sc : Softc) (tmd : Tmd) (n : ℕ)
    → ((settle sc tmd n).tmd ≡ sc.tmd)
      × ((settle sc tmd n).sc_ntbuf ≡ sc.sc_ntbuf)
      × ((settle sc tmd n).sc_no_td ≡ n)
      × ((settle sc tmd n).sc_last_td ≡ sc.sc_last_td)
      × ((settle sc tmd n).running ≡ sc.running)
unfolding settle count_error count_sent
settle-fields sc tmd n = ground arith

-- What the loop of am7990_tint leaves: a sound ring from `bix` on, or a chip to initialise.
abbrev pub IsTint : Softc → Tint → Type 0
IsTint sc (Tint.stops sc' bix) =
    IsRing sc'.tmd sc'.sc_ntbuf sc'.sc_no_td bix sc'.sc_last_td
    × (sc'.sc_ntbuf ≡ sc.sc_ntbuf)
    × (has_missing sc'.effects ≡ has_missing sc.effects)
IsTint sc (Tint.fails sc') =
    (sc'.sc_ntbuf ≡ sc.sc_ntbuf) × (has_missing sc'.effects ≡ has_missing sc.effects)

settle-missing :
    (sc : Softc) (tmd : Tmd) (n : ℕ)
    → has_missing (settle sc tmd n).effects ≡ has_missing sc.effects
unfolding settle count_error count_sent
settle-missing sc tmd n = elim (Bool-cases tmd.err) [
  | inl e ↦ elim (Bool-cases (tmd.lcar && sc.le_carrier)) [
    | inl l ↦ rw (e, l) (ground (arith, has_missing-append sc.effects (Effect.link_down ∷ [])))
    | inr l ↦ rw (e, l) refl
  ]
  | inr e ↦ rw e refl
]

IsTint-from :
    (sc₁ sc : Softc) (t : Tint)
    → sc₁.sc_ntbuf ≡ sc.sc_ntbuf
    → has_missing sc₁.effects ≡ has_missing sc.effects
    → IsTint sc₁ t
    → IsTint sc t
IsTint-from sc₁ sc (Tint.stops sc' bix) e f (r, a, b) = (r, a ∙ e, b ∙ f)
IsTint-from sc₁ sc (Tint.fails sc') e f (a, b) = (a ∙ e, b ∙ f)

pub tint_loop-IsTint :
    (n : ℕ) (sc : Softc) (bix : ℕ)
    → sc.sc_no_td ≡ n
    → IsRing sc.tmd sc.sc_ntbuf n bix sc.sc_last_td
    → IsTint sc (tint_loop sc n bix)
unfolding tint_loop
tint_loop-IsTint zero sc bix e r =
    (subst (λ n. IsRing sc.tmd sc.sc_ntbuf n bix sc.sc_last_td) (sym e) r, refl, refl)
tint_loop-IsTint (suc n) sc bix e r = elim (Bool-cases (sc.tmd bix).own) [
  | inl o ↦ rw o (subst (λ n. IsRing sc.tmd sc.sc_ntbuf n bix sc.sc_last_td) (sym e) r, refl, refl)
  | inr o ↦ elim (Bool-cases ((sc.tmd bix).err && ((sc.tmd bix).buff || (sc.tmd bix).uflo))) [
    | inl f ↦ rw (o, f) (refl, refl)
    | inr f ↦
        let (t, b, u, l, a) = settle-fields sc (sc.tmd bix) n in
        let r₁ = take-IsRing sc.tmd sc.sc_ntbuf n bix sc.sc_last_td r o in
        rw (o, f)
          (IsTint-from (settle sc (sc.tmd bix) n) sc _ b (settle-missing sc (sc.tmd bix) n) (
            tint_loop-IsTint n (settle sc (sc.tmd bix) n) (next bix sc.sc_ntbuf) u
              (rw (t, b, l) r₁)))
  ]
]
