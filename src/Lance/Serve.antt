-- ===== src/Lance/Serve.antt =====
-- am7990_rint: it ends, and it handles the descriptors that the chip has handed over, in order.
use rtems_libbsdport.Prelude.{
  ℕ, zero, suc, ◌+◌, ◌≤◌, ◌<◌, ◌≡◌, refl, sym, ap, subst, ◌∙◌, true, false, arith, ◌==◌,
  if◌then◌else◌, Bool-cases, inl, inr, Option, some, none,
}
use rtems_libbsdport.Prelude.Memory.{update}
use rtems_libbsdport.Lance.{Softc, Chain, Host, Rmd, next}
use rtems_libbsdport.Lance.Ring.{wrap}
use rtems_libbsdport.Lance.Receive.{take_packet, pass_up, given_back, rint_loop, am7990_rint}

-- The frames that were handled so far.
abbrev pub handled : Softc → ℕ
handled sc = sc.if_ipackets + sc.if_ierrors

-- What runs while the lock is dropped leaves the receive side alone.
pub record IsApart (h : Host) : Type 0 where
  pub rmd : (sc : Softc) → (h.unlocked sc).rmd ≡ sc.rmd
  pub nrbuf : (sc : Softc) → (h.unlocked sc).sc_nrbuf ≡ sc.sc_nrbuf
  pub handled : (sc : Softc) → handled (h.unlocked sc) ≡ handled sc

back-own :
    (rmd : ℕ → Rmd) (bix i : ℕ)
    → (update rmd bix (given_back (rmd bix)) i).own ≡ (if i == bix then true else (rmd i).own)
unfolding given_back
back-own rmd bix i = elim (Bool-cases (i == bix)) [ inl e ↦ rw e refl | inr e ↦ rw e refl ]

module _ (h : Host) (apart : IsApart h) where
  round : Softc → ℕ → Softc
  round sc bix = pass_up h (take_packet h sc bix)

  pass_up-fields :
      (m : Option Chain) (sc : Softc)
      → ((pass_up h (m, sc)).rmd ≡ sc.rmd)
        × ((pass_up h (m, sc)).sc_nrbuf ≡ sc.sc_nrbuf)
        × (handled (pass_up h (m, sc)) ≡ suc (handled sc))
  unfolding pass_up
  pass_up-fields none sc = (refl, refl, omega arith)
  pass_up-fields (some m) sc = (apart.rmd _, apart.nrbuf _, apart.handled _ ∙ omega arith)

  round-fields :
      (sc : Softc) (bix : ℕ)
      → ((round sc bix).rmd ≡ update sc.rmd bix (given_back (sc.rmd bix)))
        × ((round sc bix).sc_nrbuf ≡ sc.sc_nrbuf)
        × (handled (round sc bix) ≡ suc (handled sc))
  unfolding take_packet round
  round-fields sc bix = pass_up-fields (take_packet h sc bix).0 (take_packet h sc bix).1

  -- The loop from `bix` on handles `k` descriptors and stops at one of the chip's.
  pub record IsServed (sc : Softc) (bix k : ℕ) (sc' : Softc) : Type 0 where
    pub chip : (sc'.rmd (wrap (bix + k) sc.sc_nrbuf)).own ≡ true
    pub count : handled sc' ≡ handled sc + k
    pub size : sc'.sc_nrbuf ≡ sc.sc_nrbuf
    pub over : (j : ℕ) → j < k → (sc.rmd (wrap (bix + j) sc.sc_nrbuf)).own ≡ false

  none-IsServed :
      (sc : Softc) (bix : ℕ) → bix < sc.sc_nrbuf → (sc.rmd bix).own ≡ true → IsServed sc bix 0 sc
  none-IsServed sc bix b e =
      let i : wrap (bix + 0) sc.sc_nrbuf ≡ bix = ground arith in
      record { chip = rw i e; count = omega arith; size = refl; over = λ j l. absurd (omega arith) }

  more-IsServed :
      (sc sc' : Softc) (bix k : ℕ)
      → bix < sc.sc_nrbuf
      → k < sc.sc_nrbuf
      → (sc.rmd bix).own ≡ false
      → IsServed (round sc bix) (next bix sc.sc_nrbuf) k sc'
      → IsServed sc bix (suc k) sc'
  more-IsServed sc sc' bix k b l e s =
      let (m, n, c) = round-fields sc bix in
      let i : wrap (next bix sc.sc_nrbuf + k) sc.sc_nrbuf ≡ wrap (bix + suc k) sc.sc_nrbuf =
        ground arith in
      let later : (j : ℕ) → j < k → (sc.rmd (wrap (bix + suc j) sc.sc_nrbuf)).own ≡ false = λ j l.
        let a : wrap (next bix sc.sc_nrbuf + j) sc.sc_nrbuf ≡ wrap (bix + suc j) sc.sc_nrbuf =
          ground arith in
        let o = rw (n, m, a) at (s.over j l) in
        let p = back-own sc.rmd bix (wrap (bix + suc j) sc.sc_nrbuf) in ground arith in
      record {
        chip = rw (n, i) at s.chip;
        count = omega (arith, s.count, c);
        size = s.size ∙ n;
        over = λ j l.
            elim j as (λ j. j < suc k → (sc.rmd (wrap (bix + j) sc.sc_nrbuf)).own ≡ false) [
              | zero ↦ λ l. let z : wrap (bix + 0) sc.sc_nrbuf ≡ bix = ground arith in rw z e
              | suc j ↦ λ l. later j (omega arith)
            ]
              l;
      }

  rint_loop-IsServed :
      (r fuel : ℕ) (sc : Softc) (bix : ℕ)
      → r < fuel
      → r ≤ sc.sc_nrbuf
      → bix < sc.sc_nrbuf
      → ((j : ℕ) → r ≤ j → j < sc.sc_nrbuf → (sc.rmd (wrap (bix + j) sc.sc_nrbuf)).own ≡ true)
      → (k : ℕ) × (sc' : Softc) × (rint_loop h fuel bix sc ≡ some (sc', wrap (bix + k) sc.sc_nrbuf))
        × (k ≤ r)
        × IsServed sc bix k sc'
  unfolding rint_loop round
  rint_loop-IsServed r zero sc bix f l b o = absurd (omega arith)
  rint_loop-IsServed zero (suc fuel) sc bix f l b o =
      let i : wrap (bix + 0) sc.sc_nrbuf ≡ bix = ground arith in
      let e : (sc.rmd bix).own ≡ true = rw i at (o 0 (omega arith) (omega arith)) in
      (0, sc, rw (e, i) refl, omega arith, none-IsServed sc bix b e)
  rint_loop-IsServed (suc r) (suc fuel) sc bix f l b o = elim (Bool-cases (sc.rmd bix).own) [
    | inl e ↦
        let i : wrap (bix + 0) sc.sc_nrbuf ≡ bix = ground arith in
        (0, sc, rw (e, i) refl, omega arith, none-IsServed sc bix b e)
    | inr e ↦
        let (m, n, c) = round-fields sc bix in
        let bix₁ = next bix sc.sc_nrbuf in
        let o₁ : (j : ℕ)
            → r ≤ j
            → j < (round sc bix).sc_nrbuf
            → ((round sc bix).rmd (wrap (bix₁ + j) (round sc bix).sc_nrbuf)).own ≡ true =
          rw (n, m)
            (λ j a d. elim (Bool-cases (suc j == sc.sc_nrbuf)) [
              | inl q ↦
                  let z : wrap (bix₁ + j) sc.sc_nrbuf ≡ bix = ground arith in
                  rw z (back-own sc.rmd bix bix ∙ ground arith)
              | inr q ↦
                  let z : wrap (bix₁ + j) sc.sc_nrbuf ≡ wrap (bix + suc j) sc.sc_nrbuf =
                    ground arith in
                  let w = o (suc j) (omega arith) (ground arith) in
                  rw z (back-own sc.rmd bix (wrap (bix + suc j) sc.sc_nrbuf) ∙ ground arith)
            ]) in
        let (k, sc', go, le, s) =
          rint_loop-IsServed r fuel (round sc bix) bix₁ (omega arith) (rw n (omega arith))
            (rw n (ground arith)) o₁ in
        let i : wrap (bix₁ + k) sc.sc_nrbuf ≡ wrap (bix + suc k) sc.sc_nrbuf = ground arith in
        let i₁ : wrap (bix₁ + k) (round sc bix).sc_nrbuf ≡ wrap (bix + suc k) sc.sc_nrbuf =
          subst (λ z. wrap (bix₁ + k) z ≡ wrap (bix + suc k) sc.sc_nrbuf) (sym n) i in
        (
          suc k,
          sc',
          rw e (go ∙ ap (λ z. some (sc', z)) i₁),
          omega arith,
          more-IsServed sc sc' bix k b (omega arith) e s,
        )
  ]

  rint-ended :
      (fuel : ℕ) (sc sc' : Softc) (bix : ℕ)
      → rint_loop h fuel sc.sc_last_rd sc ≡ some (sc', bix)
      → am7990_rint h fuel sc ≡ some (record sc' { sc_last_rd = bix })
  unfolding am7990_rint
  rint-ended fuel sc sc' bix go = rw (go, am7990_rint) refl

  -- Where nothing else touches the receive side, am7990_rint ends with fuel for the ring: it handles
  -- the `k` descriptors from `sc_last_rd` on that the chip has handed over, each once and in order,
  -- counts each as a packet or as an error, and stops at the first that the chip owns, which is the
  -- new `sc_last_rd`.
  pub rint_serves :
      (fuel : ℕ) (sc : Softc)
      → sc.sc_nrbuf < fuel
      → sc.sc_last_rd < sc.sc_nrbuf
      → (k : ℕ) × (sc' : Softc) × (am7990_rint h fuel sc ≡ some sc')
        × (sc'.sc_last_rd ≡ wrap (sc.sc_last_rd + k) sc.sc_nrbuf)
        × (k ≤ sc.sc_nrbuf)
        × IsServed sc sc.sc_last_rd k sc'
  rint_serves fuel sc f l =
      let (k, sc', go, le, s) =
        rint_loop-IsServed sc.sc_nrbuf fuel sc sc.sc_last_rd f (omega arith) l
          (λ j a b. absurd (omega arith)) in
      (
        k,
        record sc' { sc_last_rd = wrap (sc.sc_last_rd + k) sc.sc_nrbuf },
        rint-ended fuel sc sc' _ go,
        refl,
        le,
        record { chip = s.chip; count = s.count; size = s.size; over = s.over },
      )
