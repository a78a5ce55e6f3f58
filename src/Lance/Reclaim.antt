-- ===== src/Lance/Reclaim.antt =====
-- am7990_tint: it takes back the descriptors that the chip is done with, in order.
use rtems_libbsdport.Prelude.{
  ℕ, zero, suc, ◌+◌, ◌≤◌, ◌<◌, ◌≡◌, refl, sym, ap, subst, ◌∙◌, Bool, false, not, ◌&&◌, ◌||◌, arith,
  ◌==◌, if◌then◌else◌, ltb, Bool-cases, inl, inr,
}
use rtems_libbsdport.Lance.{Softc, Tmd, Host, next}
use rtems_libbsdport.Lance.Ring.{wrap}
use rtems_libbsdport.Lance.Settle.{settle-fields}
use rtems_libbsdport.Lance.Receive.{Tint, settle, count_error, count_sent, tint_loop, am7990_tint}

-- The packets that were counted so far, sent or failed.
abbrev pub counted : Softc → ℕ
counted sc = sc.if_opackets + sc.if_oerrors

settle-counted : (sc : Softc) (tmd : Tmd) (n : ℕ) → counted (settle sc tmd n) ≡ suc (counted sc)
unfolding settle count_error count_sent
settle-counted sc tmd n = elim (Bool-cases tmd.err) [
  | inl e ↦ elim (Bool-cases (tmd.lcar && sc.le_carrier)) [
    | inl l ↦ rw (e, l) (omega arith)
    | inr l ↦ rw (e, l) (omega arith)
  ]
  | inr e ↦ rw e (omega arith)
]

settle-oactive : (sc : Softc) (tmd : Tmd) (n : ℕ) → (settle sc tmd n).oactive ≡ false
unfolding settle count_error count_sent
settle-oactive sc tmd n = ground arith

-- The error that makes am7990_tint initialise the chip.
abbrev pub is_fatal : Tmd → Bool
is_fatal tmd = tmd.err && (tmd.buff || tmd.uflo)

-- The loop from `bix` on takes back `k` of `n` descriptors, and stops at the end or at one of the
-- chip's.
pub record IsReclaimed (sc : Softc) (n bix k : ℕ) (sc' : Softc) : Type 0 where
  pub used : sc'.sc_no_td + k ≡ n
  pub count : counted sc' ≡ counted sc + k
  pub active : sc'.oactive ≡ (sc.oactive && (k == 0))
  pub over : (j : ℕ) → j < k → (sc.tmd (wrap (bix + j) sc.sc_ntbuf)).own ≡ false
  pub chip : (ltb k n && not (sc.tmd (wrap (bix + k) sc.sc_ntbuf)).own) ≡ false

none-IsReclaimed :
    (sc : Softc) (n bix : ℕ)
    → sc.sc_no_td ≡ n
    → bix < sc.sc_ntbuf
    → (ltb 0 n && not (sc.tmd bix).own) ≡ false
    → IsReclaimed sc n bix 0 sc
none-IsReclaimed sc n bix u b e =
    let i : wrap (bix + 0) sc.sc_ntbuf ≡ bix = ground arith in
    record {
      used = omega arith;
      count = omega arith;
      active = ground arith;
      over = λ j l. absurd (omega arith);
      chip = rw i e;
    }

more-IsReclaimed :
    (sc sc' : Softc) (n bix k : ℕ)
    → bix < sc.sc_ntbuf
    → k < sc.sc_ntbuf
    → (sc.tmd bix).own ≡ false
    → IsReclaimed (settle sc (sc.tmd bix) n) n (next bix sc.sc_ntbuf) k sc'
    → IsReclaimed sc (suc n) bix (suc k) sc'
more-IsReclaimed sc sc' n bix k b c e s =
    let (t, m, u, last, r) = settle-fields sc (sc.tmd bix) n in
    let at_next : (j : ℕ)
        → j < sc.sc_ntbuf
        → wrap (next bix sc.sc_ntbuf + j) sc.sc_ntbuf ≡ wrap (bix + suc j) sc.sc_ntbuf =
      λ j l. ground arith in
    record {
      used = omega (arith, s.used);
      count = omega (arith, s.count, settle-counted sc (sc.tmd bix) n);
      active = s.active ∙ ground (arith, settle-oactive sc (sc.tmd bix) n);
      over = λ j l.
          elim j as (λ j. j < suc k → (sc.tmd (wrap (bix + j) sc.sc_ntbuf)).own ≡ false) [
            | zero ↦ λ l. let z : wrap (bix + 0) sc.sc_ntbuf ≡ bix = ground arith in rw z e
            | suc j ↦ λ l. rw (t, m, at_next j (omega arith)) at (s.over j (omega arith))
          ]
            l;
      chip =
          let h = rw (t, m, at_next k c) at s.chip in
          let d : ltb (suc k) (suc n) ≡ ltb k n = ground arith in rw d h;
    }

tint_loop-over :
    (sc : Softc) (n bix : ℕ)
    → (sc.tmd bix).own ≡ false
    → is_fatal (sc.tmd bix) ≡ false
    → tint_loop sc (suc n) bix ≡ tint_loop (settle sc (sc.tmd bix) n) n (next bix sc.sc_ntbuf)
unfolding tint_loop
tint_loop-over sc n bix e f = rw (e, f) refl

tint_loop-IsReclaimed :
    (n : ℕ) (sc : Softc) (bix : ℕ)
    → sc.sc_no_td ≡ n
    → n ≤ sc.sc_ntbuf
    → bix < sc.sc_ntbuf
    → ((i : ℕ) → is_fatal (sc.tmd i) ≡ false)
    → (k : ℕ) × (sc' : Softc) × (tint_loop sc n bix ≡ Tint.stops sc' (wrap (bix + k) sc.sc_ntbuf))
      × (k ≤ n)
      × IsReclaimed sc n bix k sc'
unfolding tint_loop
tint_loop-IsReclaimed zero sc bix u l b f =
    let z : wrap (bix + 0) sc.sc_ntbuf ≡ bix = ground arith in
    (0, sc, rw z refl, omega arith, none-IsReclaimed sc 0 bix u b refl)
tint_loop-IsReclaimed (suc n) sc bix u l b f = elim (Bool-cases (sc.tmd bix).own) [
  | inl e ↦
      let z : wrap (bix + 0) sc.sc_ntbuf ≡ bix = ground arith in
      (
        0,
        sc,
        rw (e, z) refl,
        omega arith,
        none-IsReclaimed sc (suc n) bix u b (rw e (ground arith)),
      )
  | inr e ↦
      let (t, m, v, last, r) = settle-fields sc (sc.tmd bix) n in
      let s₁ = settle sc (sc.tmd bix) n in
      let (k, sc', go, le, s) =
        tint_loop-IsReclaimed n s₁ (next bix sc.sc_ntbuf) v (rw m (omega arith))
          (rw m (ground arith)) (rw t f) in
      let i : wrap (next bix sc.sc_ntbuf + k) sc.sc_ntbuf ≡ wrap (bix + suc k) sc.sc_ntbuf =
        ground arith in
      let i₁ : wrap (next bix sc.sc_ntbuf + k) s₁.sc_ntbuf ≡ wrap (bix + suc k) sc.sc_ntbuf =
        subst (λ z. wrap (next bix sc.sc_ntbuf + k) z ≡ wrap (bix + suc k) sc.sc_ntbuf) (sym m) i in
      let x : Tint.stops sc' (wrap (next bix sc.sc_ntbuf + k) s₁.sc_ntbuf)
          ≡ Tint.stops sc' (wrap (bix + suc k) sc.sc_ntbuf) =
        ap (Tint.stops sc') i₁ in
      (
        suc k,
        sc',
        tint_loop-over sc n bix e (f bix) ∙ go ∙ x,
        omega arith,
        more-IsReclaimed sc sc' n bix k b (omega arith) e s,
      )
]

tint-ended :
    (h : Host) (sc sc' : Softc) (bix : ℕ)
    → tint_loop sc sc.sc_no_td sc.sc_first_td ≡ Tint.stops sc' bix
    → am7990_tint h sc
      ≡ record sc' { sc_first_td = bix; sc_wdog_timer = if ltb 0 sc'.sc_no_td then 5 else 0 }
unfolding am7990_tint
tint-ended h sc sc' bix go = rw (go, am7990_tint) refl

-- Where no descriptor reports a buffer error or an underflow, am7990_tint takes back the `k`
-- descriptors from `sc_first_td` on that the chip is done with, each once and in order, up to the
-- first that the chip owns or the last in use; it counts each as sent or as an error, lets packets
-- through again if there was one, and keeps the watchdog running just while descriptors are left.
pub tint_reclaims :
    (h : Host) (sc : Softc)
    → sc.sc_no_td ≤ sc.sc_ntbuf
    → sc.sc_first_td < sc.sc_ntbuf
    → ((i : ℕ) → is_fatal (sc.tmd i) ≡ false)
    → (k : ℕ) × (k ≤ sc.sc_no_td)
      × IsReclaimed sc sc.sc_no_td sc.sc_first_td k (am7990_tint h sc)
      × ((am7990_tint h sc).sc_first_td ≡ wrap (sc.sc_first_td + k) sc.sc_ntbuf)
      × ((am7990_tint h sc).sc_wdog_timer ≡ (if ltb k sc.sc_no_td then 5 else 0))
tint_reclaims h sc l b f =
    let (k, sc', go, le, s) = tint_loop-IsReclaimed sc.sc_no_td sc sc.sc_first_td refl l b f in
    let e = tint-ended h sc sc' _ go in
    (
      k,
      le,
      rw e (record {
        used = s.used;
        count = s.count;
        active = s.active;
        over = s.over;
        chip = s.chip;
      }),
      rw e refl,
      rw e (ground (arith, s.used)),
    )
