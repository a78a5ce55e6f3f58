-- ===== src/Lance/Start.antt =====
-- am7990_start_locked: it sends as many packets of the queue as the ring has room for, in order.
use mathlib.Core.List.{append_assoc, append-nil}
use rtems_libbsdport.Prelude.{
  ℕ, zero, suc, ◌+◌, ◌-◌, ◌≡◌, refl, sym, subst, ◌∙◌, true, false, not, ◌&&◌, ◌||◌, List, [], ◌∷◌,
  ◌++◌, arith, ◌==◌, if◌then◌else◌, ltb, Bool-cases, inl, inr,
}
use rtems_libbsdport.Prelude.Lists.{length, drop}
use rtems_libbsdport.Prelude.Memory.{update}
use rtems_libbsdport.Lance.{Softc, Effect, Chain, next, le_tbufaddr}
use rtems_libbsdport.Lance.Buffer.{least, lance_put}
use rtems_libbsdport.Lance.Ring.{IsRing, hand-IsRing, last-free}
use rtems_libbsdport.Lance.Transmit.{
  check_missing, transmit, start_loop, handed_over, mark_active, am7990_start_locked,
}

-- The demands for `n` packets.
abbrev pub demands : ℕ → List Effect
demands zero = []
demands (suc n) = Effect.demanded ∷ demands n

-- The ring with `last` for `sc_last_td`.
abbrev pub Ring : Softc → (last : ℕ) → Type 0
Ring sc last = IsRing sc.tmd sc.sc_ntbuf sc.sc_no_td sc.sc_first_td last

pub transmit-plain :
    (sc : Softc) (bix : ℕ) (m : Chain) (ms : List Chain)
    → (sc.tmd bix).own ≡ false
    → transmit sc bix m ms ≡ record sc {
      if_snd = ms;
      mem = (lance_put sc.mem (le_tbufaddr sc bix) m).0;
      tmd =
          update sc.tmd bix (handed_over (sc.tmd bix) (lance_put sc.mem (le_tbufaddr sc bix) m).1);
      effects = sc.effects ++ (Effect.demanded ∷ []);
      sc_no_td = suc sc.sc_no_td;
    }
unfolding transmit check_missing
transmit-plain sc bix m ms h = rw h refl

-- What the loop leaves, after it sent `n` packets.
pub record IsStarted (sc : Softc) (ms : List Chain) (enq n : ℕ) (sc' : Softc) (bix' enq' : ℕ)
    : Type 0 where
  pub ring : Ring sc' bix'
  pub used : sc'.sc_no_td ≡ sc.sc_no_td + n
  pub first : sc'.sc_first_td ≡ sc.sc_first_td
  pub size : sc'.sc_ntbuf ≡ sc.sc_ntbuf
  pub enqueued : enq' ≡ enq + n
  pub snd : sc'.if_snd ≡ drop n ms
  pub effects : sc'.effects ≡ sc.effects ++ demands n
  pub active : sc'.oactive ≡ (sc.oactive || (ltb 0 n && (sc.sc_no_td + n == sc.sc_ntbuf)))
  pub running : sc'.running ≡ sc.running
  pub timer : sc'.sc_wdog_timer ≡ sc.sc_wdog_timer

none-IsStarted :
    (sc : Softc) (ms : List Chain) (bix enq : ℕ)
    → sc.if_snd ≡ ms
    → Ring sc bix
    → IsStarted sc ms enq 0 sc bix enq
none-IsStarted sc ms bix enq s r = record {
  ring = r;
  used = omega arith;
  first = refl;
  size = refl;
  enqueued = omega arith;
  snd = s;
  effects = sym (append-nil sc.effects);
  active = ground arith;
  running = refl;
  timer = refl;
}

-- The state behind a round that sends `m`.
abbrev pub sent : Softc → (bix : ℕ) → Chain → List Chain → Softc
sent sc bix m ms = record sc {
  if_snd = ms;
  mem = (lance_put sc.mem (le_tbufaddr sc bix) m).0;
  tmd = update sc.tmd bix (handed_over (sc.tmd bix) (lance_put sc.mem (le_tbufaddr sc bix) m).1);
  effects = sc.effects ++ (Effect.demanded ∷ []);
  sc_no_td = suc sc.sc_no_td;
}

module _ (sc : Softc) (m : Chain) (ms : List Chain) (bix enq : ℕ) where
  last-IsStarted :
      Ring (sent sc bix m ms) (next bix sc.sc_ntbuf)
      → suc sc.sc_no_td ≡ sc.sc_ntbuf
      → IsStarted sc
          (m ∷ ms)
          enq
          1
          (mark_active (sent sc bix m ms))
          (next bix sc.sc_ntbuf)
          (suc enq)
  last-IsStarted r e = record {
    ring = r;
    used = omega arith;
    first = refl;
    size = refl;
    enqueued = omega arith;
    snd = refl;
    effects = refl;
    active = ground arith;
    running = refl;
    timer = refl;
  }

  more-IsStarted :
      (n : ℕ) (sc' : Softc) (bix' enq' : ℕ)
      → (suc sc.sc_no_td == sc.sc_ntbuf) ≡ false
      → IsStarted (sent sc bix m ms) ms (suc enq) n sc' bix' enq'
      → IsStarted sc (m ∷ ms) enq (suc n) sc' bix' enq'
  more-IsStarted n sc' bix' enq' e i = record {
    ring = i.ring;
    used = omega (arith, i.used);
    first = i.first;
    size = i.size;
    enqueued = omega (arith, i.enqueued);
    snd = i.snd;
    effects = i.effects ∙ append_assoc sc.effects (Effect.demanded ∷ []) (demands n);
    active = ground (arith, i.active);
    running = i.running;
    timer = i.timer;
  }

start_loop-IsStarted :
    (sc : Softc) (ms : List Chain) (bix enq : ℕ)
    → sc.if_snd ≡ ms
    → Ring sc bix
    → (sc' : Softc) × (bix' : ℕ) × (enq' : ℕ) × (start_loop sc ms bix enq ≡ (sc', bix', enq'))
      × IsStarted sc ms enq (least (sc.sc_ntbuf - sc.sc_no_td) (length ms)) sc' bix' enq'
unfolding start_loop
start_loop-IsStarted sc [] bix enq s r =
    let e : 0 ≡ least (sc.sc_ntbuf - sc.sc_no_td) 0 = ground arith in
    (
      sc,
      bix,
      enq,
      refl,
      subst (λ n. IsStarted sc [] enq n sc bix enq) e (none-IsStarted sc [] bix enq s r),
    )
start_loop-IsStarted sc (m ∷ ms) bix enq s r = elim (Bool-cases (ltb sc.sc_no_td sc.sc_ntbuf)) [
  | inl h ↦
      let t = transmit-plain sc bix m ms (last-free _ _ _ _ bix r (ground arith)) in
      let r₁ : Ring (sent sc bix m ms) (next bix sc.sc_ntbuf) =
        hand-IsRing _ _ _ _ bix _ r (ground arith) in
      elim (Bool-cases (suc sc.sc_no_td == sc.sc_ntbuf)) [
        | inl e ↦
            let n : 1 ≡ least (sc.sc_ntbuf - sc.sc_no_td) (suc (length ms)) = ground arith in
            let sc' = mark_active (sent sc bix m ms) in
            let bix' = next bix sc.sc_ntbuf in
            rw (h, t, e)
              (
                sc',
                bix',
                suc enq,
                refl,
                subst (λ n. IsStarted sc (m ∷ ms) enq n sc' bix' (suc enq)) n
                    (last-IsStarted sc m ms bix enq r₁ (ground arith)),
              )
        | inr e ↦
            let (sc', bix', enq', go, i) =
              start_loop-IsStarted (sent sc bix m ms) ms (next bix sc.sc_ntbuf) (suc enq) refl r₁ in
            let n : suc (least (sc.sc_ntbuf - suc sc.sc_no_td) (length ms))
                ≡ least (sc.sc_ntbuf - sc.sc_no_td) (suc (length ms)) =
              ground arith in
            rw (h, t, e)
              (
                sc',
                bix',
                enq',
                go,
                subst (λ n. IsStarted sc (m ∷ ms) enq n sc' bix' enq') n
                    (more-IsStarted sc m ms bix enq _ sc' bix' enq' e i),
              )
      ]
  | inr h ↦
      let e : 0 ≡ least (sc.sc_ntbuf - sc.sc_no_td) (suc (length ms)) = ground arith in
      rw h (
        sc,
        bix,
        enq,
        refl,
        subst (λ n. IsStarted sc (m ∷ ms) enq n sc bix enq) e
            (none-IsStarted sc (m ∷ ms) bix enq s r),
      )
]

-- How many packets there are to send and room for.
abbrev pub sendable : Softc → ℕ
sendable sc = least (sc.sc_ntbuf - sc.sc_no_td) (length sc.if_snd)

-- What am7990_start_locked leaves, with `n` packets sent.
pub record IsSent (sc sc' : Softc) (n : ℕ) : Type 0 where
  pub ring : Ring sc' sc'.sc_last_td
  pub used : sc'.sc_no_td ≡ sc.sc_no_td + n
  pub snd : sc'.if_snd ≡ drop n sc.if_snd
  pub effects : sc'.effects ≡ sc.effects ++ demands n
  pub active : sc'.oactive ≡ (ltb 0 n && (sc.sc_no_td + n == sc.sc_ntbuf))
  pub running : sc'.running ≡ sc.running
  pub timer : sc'.sc_wdog_timer ≡ (if ltb 0 n then 5 else sc.sc_wdog_timer)

-- On a running interface that is not marked busy and with a sound ring, am7990_start_locked sends
-- exactly as many packets as are queued and fit into the ring, from the front of the queue, never at
-- a descriptor that the chip owns; it marks the interface busy if it filled the ring, and starts the
-- watchdog if it sent any.
pub start_locked-IsSent :
    (sc : Softc)
    → Ring sc sc.sc_last_td
    → sc.running ≡ true
    → sc.oactive ≡ false
    → IsSent sc (am7990_start_locked sc) (sendable sc)
unfolding am7990_start_locked
start_locked-IsSent sc r u o =
    let (sc', bix', enq', go, i) = start_loop-IsStarted sc sc.if_snd sc.sc_last_td 0 refl r in
    let e : (sc.running && not sc.oactive) ≡ true = ground arith in
    rw (e, go)
      (record {
        ring = i.ring;
        used = i.used;
        snd = i.snd;
        effects = i.effects;
        active = ground (arith, i.active);
        running = i.running;
        timer = ground (arith, i.enqueued, i.timer);
      })

-- Otherwise it does nothing.
pub start_locked-idle :
    (sc : Softc) → (sc.running && not sc.oactive) ≡ false → am7990_start_locked sc ≡ sc
unfolding am7990_start_locked
start_locked-idle sc h = rw h refl
