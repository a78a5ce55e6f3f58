-- ===== src/Lance/Sent.antt =====
-- am7990_start_locked: what lies in the buffers of the packets that it sends.
use rtems_libbsdport.Prelude.{
  ℕ, zero, suc, ◌+◌, ◌-◌, ◌*◌, ◌≤◌, ◌<◌, ◌≡◌, refl, sym, subst, ◌∙◌, true, false, not, ◌&&◌, List,
  [], ◌∷◌, arith, ◌==◌, ltb, Bool-cases, inl, inr, some,
}
use rtems_libbsdport.Prelude.Lists.{length, get_elem?}
use rtems_libbsdport.Lance.{Softc, Chain, next, le_tbufaddr, leblen, xmd2}
use rtems_libbsdport.Lance.Buffer.{least, lance_copyfrombuf_contig}
use rtems_libbsdport.Lance.Copies.{
  flat, padded, length-padded, put-padded, copytobuf-outside, copyfrombuf-copytobuf,
  copyfrombuf-same,
}
use rtems_libbsdport.Lance.Ring.{wrap, hand-IsRing, last-free}
use rtems_libbsdport.Lance.Start.{Ring, sent, transmit-plain, sendable}
use rtems_libbsdport.Lance.Transmit.{start_loop, handed_over, am7990_start_locked}

-- Each packet fits into a buffer.
abbrev pub AllFit : List Chain → Type 0
AllFit [] = Unit {0}
AllFit (m ∷ ms) = (length (flat m) ≤ leblen) × AllFit ms

-- The descriptor and the buffer `s` are as they were.
record IsKept (sc sc' : Softc) (s : ℕ) : Type 0 where
  tmd : sc'.tmd s ≡ sc.tmd s
  mem : (i : ℕ) → i < leblen → sc'.mem (le_tbufaddr sc s + i) ≡ sc.mem (le_tbufaddr sc s + i)

-- The descriptor and the buffer `s` hold the frame `bs`, for the chip to send.
pub record IsLoaded (sc sc' : Softc) (s : ℕ) (bs : List ℕ) : Type 0 where
  pub own : (sc'.tmd s).own ≡ true
  pub tmd2 : (sc'.tmd s).tmd2 ≡ xmd2 (length bs)
  pub bytes : lance_copyfrombuf_contig sc'.mem (le_tbufaddr sc s) (length bs) ≡ bs

sent-IsKept :
    (sc : Softc) (bix s : ℕ) (m : Chain) (ms : List Chain)
    → length (flat m) ≤ leblen
    → (s == bix) ≡ false
    → IsKept sc (sent sc bix m ms) s
sent-IsKept sc bix s m ms f e = record {
  tmd = rw e refl;
  mem = λ i l. rw (put-padded sc.mem (le_tbufaddr sc bix) m) (
      copytobuf-outside sc.mem (padded (flat m)) (le_tbufaddr sc bix) (le_tbufaddr sc s + i)
        (ground (arith, length-padded (flat m))));
}

sent-IsLoaded :
    (sc : Softc) (bix : ℕ) (m : Chain) (ms : List Chain)
    → IsLoaded sc (sent sc bix m ms) bix (padded (flat m))
unfolding handed_over
sent-IsLoaded sc bix m ms =
    let e : (bix == bix) ≡ true = ground arith in
    let p = put-padded sc.mem (le_tbufaddr sc bix) m in
    record {
      own = rw e refl;
      tmd2 = rw (e, p) refl;
      bytes = rw p (copyfrombuf-copytobuf sc.mem (padded (flat m)) (le_tbufaddr sc bix));
    }

trans-IsKept :
    (sc sc₁ sc' : Softc) (s : ℕ)
    → sc₁.sc_tbufaddr ≡ sc.sc_tbufaddr
    → IsKept sc sc₁ s
    → IsKept sc₁ sc' s
    → IsKept sc sc' s
trans-IsKept sc sc₁ sc' s e k l = record {
  tmd = l.tmd ∙ k.tmd;
  mem = λ i b.
      subst (λ a. sc'.mem (a + leblen * s + i) ≡ sc₁.mem (a + leblen * s + i)) e (l.mem i b)
      ∙ k.mem i b;
}

-- The loop leaves the packets under way alone.
start_loop-IsKept :
    (sc : Softc) (ms : List Chain) (bix enq k : ℕ)
    → AllFit ms
    → Ring sc bix
    → k < sc.sc_no_td
    → IsKept sc (start_loop sc ms bix enq).0 (wrap (sc.sc_first_td + k) sc.sc_ntbuf)
unfolding start_loop
start_loop-IsKept sc [] bix enq k f r l = record { tmd = refl; mem = λ i b. refl }
start_loop-IsKept sc (m ∷ ms) bix enq k f r l = elim (Bool-cases (ltb sc.sc_no_td sc.sc_ntbuf)) [
  | inl h ↦
      let s = wrap (sc.sc_first_td + k) sc.sc_ntbuf in
      let t = transmit-plain sc bix m ms (last-free _ _ _ _ bix r (ground arith)) in
      let r₁ : Ring (sent sc bix m ms) (next bix sc.sc_ntbuf) =
        hand-IsRing _ _ _ _ bix _ r (ground arith) in
      let ne : (s == bix) ≡ false = ground (arith, r.last_is, r.first_lt) in
      let k₁ = sent-IsKept sc bix s m ms f.0 ne in
      elim (Bool-cases (suc sc.sc_no_td == sc.sc_ntbuf)) [
        | inl e ↦ rw (h, t, e) (record { tmd = k₁.tmd; mem = k₁.mem })
        | inr e ↦
            rw (h, t, e)
              (trans-IsKept sc (sent sc bix m ms) _ s refl k₁ (
                start_loop-IsKept (sent sc bix m ms) ms (next bix sc.sc_ntbuf) (suc enq) k f.1 r₁
                  (omega arith)))
      ]
  | inr h ↦ rw h (record { tmd = refl; mem = λ i b. refl })
]

kept-IsLoaded :
    (sc sc₁ sc' : Softc) (s : ℕ) (bs : List ℕ)
    → sc₁.sc_tbufaddr ≡ sc.sc_tbufaddr
    → length bs ≤ leblen
    → IsLoaded sc sc₁ s bs
    → IsKept sc₁ sc' s
    → IsLoaded sc sc' s bs
kept-IsLoaded sc sc₁ sc' s bs e l o k = record {
  own = rw k.tmd o.own;
  tmd2 = rw k.tmd o.tmd2;
  bytes =
      copyfrombuf-same sc'.mem sc₁.mem (le_tbufaddr sc s) (length bs) (λ i b.
        subst (λ a. sc'.mem (a + leblen * s + i) ≡ sc₁.mem (a + leblen * s + i)) e
          (k.mem i (omega arith)))
      ∙ o.bytes;
}

from-IsLoaded :
    (sc sc₁ sc' : Softc) (s : ℕ) (bs : List ℕ)
    → sc₁.sc_tbufaddr ≡ sc.sc_tbufaddr
    → IsLoaded sc₁ sc' s bs
    → IsLoaded sc sc' s bs
from-IsLoaded sc sc₁ sc' s bs e o = record {
  own = o.own;
  tmd2 = o.tmd2;
  bytes = subst (λ a. lance_copyfrombuf_contig sc'.mem (a + leblen * s) (length bs) ≡ bs) e o.bytes;
}

fewer :
    (ntbuf used len j : ℕ)
    → suc j < least (ntbuf - used) (suc len)
    → j < least (ntbuf - suc used) len
fewer ntbuf used len j l = ground arith

start_loop-IsLoaded :
    (sc : Softc) (ms : List Chain) (bix enq j : ℕ) (p : Chain)
    → AllFit ms
    → Ring sc bix
    → j < least (sc.sc_ntbuf - sc.sc_no_td) (length ms)
    → get_elem? ms j ≡ some p
    → IsLoaded sc (start_loop sc ms bix enq).0 (wrap (bix + j) sc.sc_ntbuf) (padded (flat p))
unfolding start_loop
start_loop-IsLoaded sc [] bix enq j p f r l g = absurd (ground arith)
start_loop-IsLoaded sc (m ∷ ms) bix enq zero p f r l g =
    let h : ltb sc.sc_no_td sc.sc_ntbuf ≡ true = ground arith in
    let t = transmit-plain sc bix m ms (last-free _ _ _ _ bix r (ground arith)) in
    let r₁ : Ring (sent sc bix m ms) (next bix sc.sc_ntbuf) =
      hand-IsRing _ _ _ _ bix _ r (ground arith) in
    let z : wrap (bix + 0) sc.sc_ntbuf ≡ bix = ground (arith, r.last_is, r.first_lt) in
    let e : m ≡ p = ground arith in
    let o = sent-IsLoaded sc bix m ms in
    let n : length (padded (flat m)) ≤ leblen = ground (arith, length-padded (flat m), f.0) in
    rw (z, sym e)
      (elim (Bool-cases (suc sc.sc_no_td == sc.sc_ntbuf)) [
        | inl e ↦ rw (h, t, e) (record { own = o.own; tmd2 = o.tmd2; bytes = o.bytes })
        | inr e ↦
            rw (h, t, e)
              (kept-IsLoaded sc (sent sc bix m ms) _ bix (padded (flat m)) refl n o (
                subst
                  (λ b.
                    IsKept (sent sc bix m ms)
                      (start_loop (sent sc bix m ms) ms (next bix sc.sc_ntbuf) (suc enq)).0 b)
                  (sym r.last_is)
                  (start_loop-IsKept (sent sc bix m ms) ms (next bix sc.sc_ntbuf) (suc enq)
                    sc.sc_no_td f.1 r₁ (omega arith))))
      ])
start_loop-IsLoaded sc (m ∷ ms) bix enq (suc j) p f r l g =
    let h : ltb sc.sc_no_td sc.sc_ntbuf ≡ true = ground arith in
    let t = transmit-plain sc bix m ms (last-free _ _ _ _ bix r (ground arith)) in
    let r₁ : Ring (sent sc bix m ms) (next bix sc.sc_ntbuf) =
      hand-IsRing _ _ _ _ bix _ r (ground arith) in
    let z : wrap (next bix sc.sc_ntbuf + j) sc.sc_ntbuf ≡ wrap (bix + suc j) sc.sc_ntbuf =
      ground (arith, r.last_is, r.first_lt) in
    let e : (suc sc.sc_no_td == sc.sc_ntbuf) ≡ false = ground arith in
    rw (h, t, e)
      (from-IsLoaded sc (sent sc bix m ms) _ _ _ refl (
        subst
          (λ s.
            IsLoaded (sent sc bix m ms)
              (start_loop (sent sc bix m ms) ms (next bix sc.sc_ntbuf) (suc enq)).0 s
              (padded (flat p)))
          z
          (start_loop-IsLoaded (sent sc bix m ms) ms (next bix sc.sc_ntbuf) (suc enq) j p f.1 r₁
            (fewer sc.sc_ntbuf sc.sc_no_td (length ms) j l) g)))

-- After am7990_start_locked, on a running interface that is not marked busy and with packets that fit
-- into the buffers, the `j`-th packet of the queue, if it is among those that are sent, lies in the
-- `j`-th buffer from `sc_last_td` on, padded to the least length, with its length in the descriptor,
-- which the chip owns.
pub start_locked-IsLoaded :
    (sc : Softc) (j : ℕ) (p : Chain)
    → Ring sc sc.sc_last_td
    → sc.running ≡ true
    → sc.oactive ≡ false
    → AllFit sc.if_snd
    → j < sendable sc
    → get_elem? sc.if_snd j ≡ some p
    → IsLoaded sc (am7990_start_locked sc) (wrap (sc.sc_last_td + j) sc.sc_ntbuf) (padded (flat p))
unfolding am7990_start_locked
start_locked-IsLoaded sc j p r u o f l g =
    let e : (sc.running && not sc.oactive) ≡ true = ground (arith, u, o) in
    let i = start_loop-IsLoaded sc sc.if_snd sc.sc_last_td 0 j p f r l g in
    rw e (record { own = i.own; tmd2 = i.tmd2; bytes = i.bytes })
