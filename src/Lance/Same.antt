-- ===== src/Lance/Same.antt =====
-- am79900.c does to its rings of words what am7990.c does to its rings of fields.
use rtems_libbsdport.Prelude.{
  ℕ, suc, ◌+◌, ◌%◌, ◌^◌, ◌≡◌, refl, sym, ap, true, false, ◌==◌, ltb, not, ◌&&◌, List, [], ◌∷◌, ◌++◌,
  arith, Bool-cases, inl, inr,
}
use mathlib.Core.Path.{fun_ext}
use rtems_libbsdport.Prelude.Memory.{update}
use rtems_libbsdport.Prelude.Words.{is_set}
use rtems_libbsdport.Lance.{Softc, Effect, Tmd, Chain, xmd2, next, le_tbufaddr}
use rtems_libbsdport.Lance.Buffer.{lance_put}
use rtems_libbsdport.Lance.Transmit.{
  emit, handed_over, check_missing, transmit, start_loop, am7990_start_locked,
}
use rtems_libbsdport.Lance.Wide.{
  Wide, WideTmd, read_rmd, read_tmd, wide_handed_over, wide_check_missing, wide_transmit,
  wide_start_loop, am79900_start_locked,
}

-- The driver as that of the other chip would have it, with the same packets in the same buffers.
unfoldable pub seen : Wide → Softc
seen w = record w.sc { rmd = λ i. read_rmd (w.wide_rmd i); tmd = λ i. read_tmd (w.wide_tmd i) }

handed_over-seen :
    (d : WideTmd) (len : ℕ) → read_tmd (wide_handed_over d len) ≡ handed_over (read_tmd d) len
unfolding wide_handed_over handed_over
handed_over-seen d len =
    let e : is_set (2 ^ 31 + 2 ^ 25 + 2 ^ 24 + xmd2 len) 31 ≡ true = ground arith in
    let e1 : is_set (2 ^ 31 + 2 ^ 25 + 2 ^ 24 + xmd2 len) 30 ≡ false = ground arith in
    let e2 : is_set (2 ^ 31 + 2 ^ 25 + 2 ^ 24 + xmd2 len) 28 ≡ false = ground arith in
    let e3 : is_set (2 ^ 31 + 2 ^ 25 + 2 ^ 24 + xmd2 len) 27 ≡ false = ground arith in
    let e4 : is_set (2 ^ 31 + 2 ^ 25 + 2 ^ 24 + xmd2 len) 25 ≡ true = ground arith in
    let e5 : is_set (2 ^ 31 + 2 ^ 25 + 2 ^ 24 + xmd2 len) 24 ≡ true = ground arith in
    let e6 : (2 ^ 31 + 2 ^ 25 + 2 ^ 24 + xmd2 len) % 2 ^ 16 ≡ xmd2 len = ground arith in
    rw (e, e1, e2, e3, e4, e5, e6) refl

with_tmd : Softc → (ℕ → Tmd) → Softc
with_tmd sc f = record sc { tmd = f }

transmit-seen :
    (w : Wide) (bix : ℕ) (m : Chain) (ms : List Chain)
    → seen (wide_transmit w bix m ms) ≡ transmit (seen w) bix m ms
unfolding seen wide_transmit wide_check_missing transmit check_missing with_tmd
transmit-seen w bix m ms =
    let len = (lance_put w.sc.mem (le_tbufaddr w.sc bix) m).1 in
    let same : ◌≡◌ {A = ℕ → Tmd}
        (λ i. read_tmd (update w.wide_tmd bix (wide_handed_over (w.wide_tmd bix) len) i))
        (update (λ i. read_tmd (w.wide_tmd i)) bix (handed_over (read_tmd (w.wide_tmd bix)) len)) =
      fun_ext (λ i. elim (Bool-cases (i == bix)) [
        | inl e ↦ rw e (handed_over-seen (w.wide_tmd bix) len)
        | inr e ↦ rw e refl
      ]) in
    let rest : Softc → Softc = λ sc. record sc {
      sc_no_td = suc w.sc.sc_no_td;
      if_snd = ms;
      rmd = λ i. read_rmd (w.wide_rmd i);
      mem = (lance_put w.sc.mem (le_tbufaddr w.sc bix) m).0;
      effects = sc.effects ++ (Effect.demanded ∷ []);
    } in
    let missed = Effect.missing_buffer w.sc.sc_no_td w.sc.sc_last_td in
    elim (Bool-cases (is_set (w.wide_tmd bix).tmd1 31)) [
      | inl e ↦ rw e (ap (with_tmd (rest (emit (record w.sc { oactive = true }) missed))) same)
      | inr e ↦ rw e (ap (with_tmd (rest w.sc)) same)
    ]

-- What the loop leaves, with the state as the other chip would have it.
abbrev seen_all : Wide × ℕ × ℕ → Softc × ℕ × ℕ
seen_all (w, bix, enq) = (seen w, bix, enq)

start_loop-seen :
    (w : Wide) (ms : List Chain) (bix enq : ℕ)
    → seen_all (wide_start_loop w ms bix enq) ≡ start_loop (seen w) ms bix enq
unfolding wide_start_loop start_loop seen
start_loop-seen w [] bix enq = refl
start_loop-seen w (m ∷ ms) bix enq =
    let w₁ = wide_transmit w bix m ms in
    rw (sym (transmit-seen w bix m ms)) (elim (Bool-cases (ltb w.sc.sc_no_td w.sc.sc_ntbuf)) [
      | inl e ↦ elim (Bool-cases (w₁.sc.sc_no_td == w.sc.sc_ntbuf)) [
        | inl f ↦ rw (e, f) refl
        | inr f ↦ rw (e, f) (start_loop-seen w₁ ms (next bix w.sc.sc_ntbuf) (suc enq))
      ]
      | inr e ↦ rw e refl
    ])

-- At the same state, am79900_start_locked does with its rings what am7990_start_locked does: the words that
-- it writes, read bit by bit, are the fields that the other writes, and all else of the state is
-- the same.
pub start_locked-seen : (w : Wide) → seen (am79900_start_locked w) ≡ am7990_start_locked (seen w)
unfolding am79900_start_locked am7990_start_locked seen
start_locked-seen w = elim (Bool-cases (w.sc.running && not w.sc.oactive)) [
  | inl e ↦ rw (e, sym (start_loop-seen w w.sc.if_snd w.sc.sc_last_td 0)) refl
  | inr e ↦ rw e refl
]
