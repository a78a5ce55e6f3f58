-- ===== src/Lance/Entries.antt =====
-- Every way into the LANCE driver keeps the invariant.
use rtems_libbsdport.Prelude.{
  ℕ, zero, suc, ◌-◌, ◌≡◌, refl, ◌∙◌, Bool, true, false, not, ◌&&◌, List, [], ◌∷◌, arith, ◌==◌,
  if◌then◌else◌, ltb, Bool-cases, inl, inr, Option, some, none,
}
use mathlib.Core.Option
use rtems_libbsdport.Lance.{Softc, Effect, Chain, Host, Csr0, next}
use rtems_libbsdport.Lance.Settle.{has_missing, tint_loop-IsTint, IsTint}
use rtems_libbsdport.Lance.Sound.{
  IsSound, IsSized, IsSound-IsSized, init-IsSound, stop-IsSound, start_locked-IsSound, plain-append,
}
use rtems_libbsdport.Lance.Transmit.{emit, am7990_start_locked, lance_init_locked, timo_max}
use rtems_libbsdport.Lance.Receive.{
  Tint, tint_loop, am7990_tint, take_packet, pass_up, rint_loop, am7990_rint,
}
use rtems_libbsdport.Lance.Control.{
  count_faults, find_carrier, serve_rings, serve, am7990_intr, lance_watchdog, lance_resume,
  lance_mediachange, follow_promisc, follow_allmulti, follow_up, set_flags, change_multi,
}

pub init_locked-IsSound : (h : Host) (sc : Softc) → IsSized sc → IsSound (lance_init_locked h sc)
unfolding lance_init_locked
init_locked-IsSound h sc s = init-IsSound h timo_max sc s

emit-IsSound :
    (sc : Softc) (e : Effect) → has_missing (e ∷ []) ≡ false → IsSound sc → IsSound (emit sc e)
emit-IsSound sc e n s = record {
  ring = s.ring;
  watched = s.watched;
  plain = plain-append sc.effects (e ∷ []) s.plain n;
}

tint-IsSound-from :
    (h : Host) (sc : Softc) (t : Tint)
    → IsSound sc
    → IsTint sc t
    → IsSound (elim t [
      | Tint.stops sc₁ bix ↦ record sc₁ {
        sc_first_td = bix;
        sc_wdog_timer = if ltb 0 sc₁.sc_no_td then 5 else 0;
      }
      | Tint.fails sc₁ ↦ lance_init_locked h sc₁
    ])
tint-IsSound-from h sc (Tint.stops sc₁ bix) s (r, n, m) = record {
  ring = r;
  watched = ground arith;
  plain = m ∙ s.plain;
}
tint-IsSound-from h sc (Tint.fails sc₁) s (n, m) =
    init_locked-IsSound h sc₁
      (record { size = omega (arith, n, s.ring.first_lt); plain = m ∙ s.plain })

pub tint-IsSound : (h : Host) (sc : Softc) → IsSound sc → IsSound (am7990_tint h sc)
unfolding am7990_tint
tint-IsSound h sc s =
    tint-IsSound-from h sc (tint_loop sc sc.sc_no_td sc.sc_first_td) s
      (tint_loop-IsTint sc.sc_no_td sc sc.sc_first_td refl s.ring)

-- The invariant of the result, where there is one.
abbrev pub OptionSound : Option Softc → Type 0
OptionSound none = Unit {0}
OptionSound (some sc) = IsSound sc

if-OptionSound :
    (b : Bool) (x y : Option Softc)
    → OptionSound x
    → OptionSound y
    → OptionSound (if b then x else y)
if-OptionSound true x y s t = s
if-OptionSound false x y s t = t

if-IsSound : (b : Bool) (x y : Softc) → IsSound x → IsSound y → IsSound (if b then x else y)
if-IsSound true x y s t = s
if-IsSound false x y s t = t

kick-IsSound :
    (sc : Softc)
    → IsSound sc
    → IsSound (elim sc.if_snd [ [] ↦ sc | m ∷ ms ↦ am7990_start_locked sc ])
kick-IsSound sc s = kick sc.if_snd
  where
    kick : (q : List Chain) → IsSound (elim q [ [] ↦ sc | m ∷ ms ↦ am7990_start_locked sc ])
    kick [] = s
    kick (m ∷ ms) = start_locked-IsSound sc s

carrier-IsSound : (sc : Softc) → IsSound sc → IsSound (find_carrier sc)
unfolding find_carrier
carrier-IsSound sc s = record {
  ring = s.ring;
  watched = s.watched;
  plain = elim (Bool-cases sc.le_carrier) [
    | inl c ↦ rw c s.plain
    | inr c ↦ rw c (plain-append sc.effects (Effect.link_up ∷ []) s.plain refl)
  ];
}

faults-IsSound : (sc : Softc) (isr : Csr0) → IsSound sc → IsSound (count_faults sc isr)
unfolding count_faults
faults-IsSound sc isr s = record { ring = s.ring; watched = s.watched; plain = s.plain }

module _ (h : Host) (keeps : (sc : Softc) → IsSound sc → IsSound (h.unlocked sc)) where
  pass_up-IsSound : (m : Option Chain) (sc : Softc) → IsSound sc → IsSound (pass_up h (m, sc))
  unfolding pass_up
  pass_up-IsSound none sc s = record { ring = s.ring; watched = s.watched; plain = s.plain }
  pass_up-IsSound (some m) sc s = keeps _ (record {
    ring = s.ring;
    watched = s.watched;
    plain = plain-append sc.effects (Effect.delivered m ∷ []) s.plain refl;
  })

  take_packet-IsSound : (sc : Softc) (bix : ℕ) → IsSound sc → IsSound (take_packet h sc bix).1
  unfolding take_packet
  take_packet-IsSound sc bix s = record { ring = s.ring; watched = s.watched; plain = s.plain }

  rint_loop-IsSound :
      (fuel bix : ℕ) (sc : Softc)
      → IsSound sc
      → OptionSound (Option.map (λ (r : Softc × ℕ). r.0) (rint_loop h fuel bix sc))
  unfolding rint_loop
  rint_loop-IsSound zero bix sc s = tt
  rint_loop-IsSound (suc fuel) bix sc s = elim (Bool-cases (sc.rmd bix).own) [
    | inl o ↦ rw o s
    | inr o ↦ rw o (
        rint_loop-IsSound fuel (next bix sc.sc_nrbuf) (pass_up h (take_packet h sc bix))
          (pass_up-IsSound _ _ (take_packet-IsSound sc bix s)))
  ]

  rint-IsSound : (fuel : ℕ) (sc : Softc) → IsSound sc → OptionSound (am7990_rint h fuel sc)
  unfolding am7990_rint
  rint-IsSound fuel sc s =
      ended (rint_loop h fuel sc.sc_last_rd sc) (rint_loop-IsSound fuel sc.sc_last_rd sc s)
    where
      ended :
          (r : Option (Softc × ℕ))
          → OptionSound (Option.map (λ (r : Softc × ℕ). r.0) r)
          → OptionSound
              (elim r [ none ↦ none | some (sc₁, bix) ↦ some (record sc₁ { sc_last_rd = bix }) ])
      ended none s = tt
      ended (some (sc₁, bix)) s = record { ring = s.ring; watched = s.watched; plain = s.plain }

  served-IsSound :
      (o : Option Softc) (tint : Bool)
      → OptionSound o
      → OptionSound (elim o [
        | none ↦ none
        | some sc₂ ↦
            let sc₃ = emit (if tint then am7990_tint h sc₂ else sc₂) Effect.enabled in
            some (elim sc₃.if_snd [ [] ↦ sc₃ | m ∷ ms ↦ am7990_start_locked sc₃ ])
      ])
  served-IsSound none tint s = tt
  served-IsSound (some sc₂) true s =
      kick-IsSound _ (emit-IsSound (am7990_tint h sc₂) Effect.enabled refl (tint-IsSound h sc₂ s))
  served-IsSound (some sc₂) false s = kick-IsSound _ (emit-IsSound sc₂ Effect.enabled refl s)

  serve_rings-IsSound :
      (fuel : ℕ) (sc : Softc) (isr : Csr0) → IsSound sc → OptionSound (serve_rings h fuel sc isr)
  unfolding serve_rings
  serve_rings-IsSound fuel sc isr s =
      let c = carrier-IsSound sc s in
      served-IsSound _ isr.tint (if-OptionSound isr.rint _ _ (rint-IsSound fuel _ c) c)

  serve-IsSound :
      (fuel : ℕ) (sc : Softc) (isr : Csr0) → IsSound sc → OptionSound (serve h fuel sc isr)
  unfolding serve
  serve-IsSound fuel sc isr s =
      let a = faults-IsSound _ isr (emit-IsSound sc (Effect.acknowledged isr) refl s) in
      let z = IsSound-IsSized _ a in
      if-OptionSound (not isr.intr) _ _ s (
        if-OptionSound (isr.err && isr.merr) _ _ (init_locked-IsSound h _ z) (
          if-OptionSound (not isr.rxon) _ _
            (init_locked-IsSound h _ (record { size = z.size; plain = z.plain }))
            (if-OptionSound (not isr.txon) _ _
              (init_locked-IsSound h _ (record { size = z.size; plain = z.plain }))
              (serve_rings-IsSound fuel _ isr a))))

  pub intr-IsSound :
      (fuel : ℕ) (hwintr_failed : Bool) (sc : Softc)
      → IsSound sc
      → OptionSound (am7990_intr h fuel hwintr_failed sc)
  unfolding am7990_intr
  intr-IsSound fuel true sc s =
      init_locked-IsSound h _ (record { size = (IsSound-IsSized sc s).size; plain = s.plain })
  intr-IsSound fuel false sc s =
      serve-IsSound fuel _ (h.rdcsr sc.reads)
        (record { ring = s.ring; watched = s.watched; plain = s.plain })

module _ (h : Host) (sc : Softc) (s : IsSound sc) where
  sized : IsSized sc
  sized = IsSound-IsSized sc s

  pub watchdog-IsSound : IsSound (lance_watchdog h sc)
  unfolding lance_watchdog
  watchdog-IsSound =
      if-IsSound (sc.sc_wdog_timer == 0) _ _ s (elim (Bool-cases (sc.sc_wdog_timer - 1 == 0)) [
        | inl e ↦ rw e (init_locked-IsSound h _ (record { size = sized.size; plain = sized.plain }))
        | inr e ↦
            rw e (record { ring = s.ring; watched = ground (arith, s.watched); plain = s.plain })
      ])

  pub resume-IsSound : IsSound (lance_resume h sc)
  unfolding lance_resume
  resume-IsSound = if-IsSound sc.up _ _ (init_locked-IsSound h sc sized) s

  pub mediachange-IsSound :
      (has_mediachange : Bool) → IsSound (lance_mediachange h has_mediachange sc)
  unfolding lance_mediachange
  mediachange-IsSound b =
      if-IsSound b _ _
        (kick-IsSound _ (init_locked-IsSound h _ (IsSound-IsSized _ (stop-IsSound sc s)))) s

follow_promisc-IsSound : (h : Host) (sc : Softc) → IsSound sc → IsSound (follow_promisc h sc)
unfolding follow_promisc
follow_promisc-IsSound h sc s =
    let z = IsSound-IsSized sc s in
    if-IsSound sc.promisc _ _
      (if-IsSound sc.le_promisc _ _ s
        (init_locked-IsSound h _ (record { size = z.size; plain = z.plain })))
      (if-IsSound sc.le_promisc _ _
        (init_locked-IsSound h _ (record { size = z.size; plain = z.plain })) s)

follow_allmulti-IsSound : (h : Host) (sc : Softc) → IsSound sc → IsSound (follow_allmulti h sc)
unfolding follow_allmulti
follow_allmulti-IsSound h sc s =
    let z = IsSound-IsSized sc s in
    if-IsSound (sc.allmulti && not sc.le_allmulti) _ _
      (init_locked-IsSound h _ (record { size = z.size; plain = z.plain }))
      (if-IsSound (not sc.allmulti && sc.le_allmulti) _ _
        (init_locked-IsSound h _ (record { size = z.size; plain = z.plain })) s)

follow_up-IsSound : (h : Host) (sc : Softc) → IsSound sc → IsSound (follow_up h sc)
unfolding follow_up
follow_up-IsSound h sc s =
    if-IsSound (not sc.up && sc.running) _ _ (stop-IsSound sc s)
      (if-IsSound (sc.up && not sc.running) _ _ (init_locked-IsSound h sc (IsSound-IsSized sc s)) s)

pub set_flags-IsSound : (h : Host) (sc : Softc) → IsSound sc → IsSound (set_flags h sc)
unfolding set_flags
set_flags-IsSound h sc s =
    follow_up-IsSound h _ (follow_allmulti-IsSound h _ (follow_promisc-IsSound h sc s))

pub change_multi-IsSound :
    (h : Host) (error : ℕ) (multis : List (List ℕ)) (sc : Softc)
    → IsSound sc
    → IsSound (change_multi h error multis sc).1
unfolding change_multi
change_multi-IsSound h error multis sc s =
    if-IsSound (error == 0 && sc.running) _ _
      (init_locked-IsSound h _ (record { size = (IsSound-IsSized sc s).size; plain = s.plain }))
      (record { ring = s.ring; watched = s.watched; plain = s.plain })
