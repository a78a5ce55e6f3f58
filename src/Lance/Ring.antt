-- ===== src/Lance/Ring.antt =====
-- The transmit ring: `sc_no_td` descriptors from `sc_first_td` on are in use, `sc_last_td` is behind
-- them, and the chip owns none of the others.
use rtems_libbsdport.Prelude.{
  ℕ, suc, ◌+◌, ◌-◌, ◌≤◌, ◌<◌, ◌≡◌, false, arith, ◌==◌, if◌then◌else◌, ltb, Bool-cases, inl, inr,
}
use rtems_libbsdport.Prelude.Memory.{update}
use rtems_libbsdport.Lance.{Tmd, next}

-- A position of the ring, from one that may be a round further.
abbrev pub wrap : (x n : ℕ) → ℕ
wrap x n = if ltb x n then x else x - n

pub record IsRing (tmd : ℕ → Tmd) (ntbuf used first last : ℕ) : Type 0 where
  pub no_le : used ≤ ntbuf
  pub first_lt : first < ntbuf
  pub last_is : last ≡ wrap (first + used) ntbuf
  pub free : (k : ℕ) → used ≤ k → k < ntbuf → (tmd (wrap (first + k) ntbuf)).own ≡ false

-- The driver hands the next descriptor to the chip.
pub hand-IsRing :
    (tmd : ℕ → Tmd) (ntbuf used first last : ℕ) (t : Tmd)
    → IsRing tmd ntbuf used first last
    → used < ntbuf
    → IsRing (update tmd last t) ntbuf (suc used) first (next last ntbuf)
hand-IsRing tmd ntbuf used first last t r h = record {
  no_le = omega arith;
  first_lt = r.first_lt;
  last_is = ground (arith, r.last_is, r.first_lt);
  free = λ k a b.
      let ne : (wrap (first + k) ntbuf == last) ≡ false = ground (arith, r.last_is, r.first_lt) in
      rw ne (r.free k (omega arith) b);
}

-- The driver takes back the first descriptor, which the chip is done with.
pub take-IsRing :
    (tmd : ℕ → Tmd) (ntbuf used first last : ℕ)
    → IsRing tmd ntbuf (suc used) first last
    → (tmd first).own ≡ false
    → IsRing tmd ntbuf used (next first ntbuf) last
take-IsRing tmd ntbuf used first last r h = record {
  no_le = ground (arith, r.no_le);
  first_lt = ground (arith, r.first_lt);
  last_is = ground (arith, r.last_is, r.first_lt, r.no_le);
  free = λ k a b. elim (Bool-cases (suc k == ntbuf)) [
    | inl e ↦
        let i : wrap (next first ntbuf + k) ntbuf ≡ first = ground (arith, r.first_lt) in rw i h
    | inr e ↦
        let i : wrap (next first ntbuf + k) ntbuf ≡ wrap (first + suc k) ntbuf =
          ground (arith, r.first_lt) in
        rw i (r.free (suc k) (omega arith) (ground arith))
  ];
}

pub last-free :
    (tmd : ℕ → Tmd) (ntbuf used first last : ℕ)
    → IsRing tmd ntbuf used first last
    → used < ntbuf
    → (tmd last).own ≡ false
last-free tmd ntbuf used first last r h = rw r.last_is (r.free used (omega arith) h)
