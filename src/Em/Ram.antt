-- ===== src/Em/Ram.antt =====
-- The RAM of the host interface behind the writes of e1000_manage.c, byte by byte.
use rtems_libbsdport.Prelude.{
  ℕ, zero, suc, true, false, ◌+◌, ◌-◌, ◌*◌, ◌/◌, ◌%◌, ◌^◌, ◌<◌, ◌≤◌, ◌≡◌, refl, ap, ◌∙◌, ◌⊎◌, inl,
  inr, arith, ltb, ◌==◌, Bool-cases, if◌then◌else◌, [], ◌∷◌,
}
use rtems_libbsdport.Em.{Reg, Op, Log}
use rtems_libbsdport.Em.Host.{total, dword, dword_loop, write_tail, write_whole}

abbrev over : Op → ℕ → ℕ → ℕ
over (Op.wrote (Reg.host_if j) v) i old = if i == j then v else old
over op i old = old

-- The dword `i`, 0 where none was written.
abbrev pub ram : Log → (i : ℕ) → ℕ
ram [] i = 0
ram (op ∷ log) i = over op i (ram log i)

abbrev pub byte_of : (d j : ℕ) → ℕ
byte_of d j =
    if j == 0
    then d % 256
    else if j == 1
    then d / 2 ^ 8 % 256
    else if j == 2
    then d / 2 ^ 16 % 256
    else d / 2 ^ 24 % 256

abbrev pub ram_byte : Log → (k : ℕ) → ℕ
ram_byte log k = byte_of (ram log (k / 4)) (k % 4)

-- The sum of the bytes `buffer[p..p + n)`.
unfoldable pub total_from : (buffer : ℕ → ℕ) → (p n : ℕ) → ℕ
total_from buffer p zero = 0
total_from buffer p (suc n) = buffer p + total_from buffer (suc p) n

total_from-last :
    (buffer : ℕ → ℕ) (p n : ℕ)
    → total_from buffer p (suc n) ≡ total_from buffer p n + buffer (p + n)
unfolding total_from
total_from-last buffer p zero = rw (let e : p + 0 ≡ p = omega arith in e) (omega arith)
total_from-last buffer p (suc n) =
    let e : p + suc n ≡ suc p + n = omega arith in
    rw e (omega (arith, total_from-last buffer (suc p) n))

pub total-total_from : (buffer : ℕ → ℕ) (n : ℕ) → total buffer n ≡ total_from buffer 0 n
unfolding total_from
total-total_from buffer zero = refl
total-total_from buffer (suc n) =
    let e : 0 + n ≡ n = omega arith in
    let h = rw e at (total_from-last buffer 0 n) in
    rw h (ap (λ t. t + buffer n) (total-total_from buffer n))

pub total_from-append :
    (buffer : ℕ → ℕ) (p m n : ℕ)
    → total_from buffer p (m + n) ≡ total_from buffer p m + total_from buffer (p + m) n
unfolding total_from
total_from-append buffer p zero n =
    let e : 0 + n ≡ n = omega arith in let f : p + 0 ≡ p = omega arith in rw (e, f) (omega arith)
total_from-append buffer p (suc m) n =
    let e : suc m + n ≡ suc (m + n) = omega arith in
    let f : p + suc m ≡ suc p + m = omega arith in
    rw (e, f) (omega (arith, total_from-append buffer (suc p) m n))

pub total_from-same :
    (f g : ℕ → ℕ) (p q n : ℕ)
    → ((k : ℕ) → k < n → f (p + k) ≡ g (q + k))
    → total_from f p n ≡ total_from g q n
unfolding total_from
total_from-same f g p q zero h = refl
total_from-same f g p q (suc n) h =
    let first : f p ≡ g q =
      rw (let e : p + 0 ≡ p = omega arith in e, let e : q + 0 ≡ q = omega arith in e) at
        (h 0 (omega arith)) in
    let rest : total_from f (suc p) n ≡ total_from g (suc q) n =
      total_from-same f g (suc p) (suc q) n (λ k l.
        let e : suc p + k ≡ p + suc k = omega arith in
        let e' : suc q + k ≡ q + suc k = omega arith in rw (e, e') (h (suc k) (omega arith))) in
    omega arith

byte_of-dword :
    (b0 b1 b2 b3 : ℕ)
    → b0 < 256
    → b1 < 256
    → b2 < 256
    → b3 < 256
    → (dword b0 b1 b2 b3 % 256 ≡ b0)
      × (dword b0 b1 b2 b3 / 2 ^ 8 % 256 ≡ b1)
      × (dword b0 b1 b2 b3 / 2 ^ 16 % 256 ≡ b2)
      × (dword b0 b1 b2 b3 / 2 ^ 24 % 256 ≡ b3)
byte_of-dword b0 b1 b2 b3 h0 h1 h2 h3 = (omega arith, omega arith, omega arith, omega arith)

byte_of-cases :
    (d : ℕ) (f : ℕ → ℕ)
    → d % 256 ≡ f 0
    → d / 2 ^ 8 % 256 ≡ f 1
    → d / 2 ^ 16 % 256 ≡ f 2
    → d / 2 ^ 24 % 256 ≡ f 3
    → (k : ℕ) → k < 4
    → byte_of d k ≡ f k
byte_of-cases d f e0 e1 e2 e3 zero h = e0
byte_of-cases d f e0 e1 e2 e3 (suc zero) h = e1
byte_of-cases d f e0 e1 e2 e3 (suc (suc zero)) h = e2
byte_of-cases d f e0 e1 e2 e3 (suc (suc (suc zero))) h = e3
byte_of-cases d f e0 e1 e2 e3 (suc (suc (suc (suc k)))) h = absurd (omega arith)

module _ (buffer : ℕ → ℕ) (bytes : (k : ℕ) → buffer k < 256) where
  abbrev load : ℕ → ℕ
  load p = dword (buffer p) (buffer (p + 1)) (buffer (p + 2)) (buffer (p + 3))

  load-byte_of : (p k : ℕ) → k < 4 → byte_of (load p) k ≡ buffer (p + k)
  load-byte_of p k h =
      let (e0, e1, e2, e3) =
        byte_of-dword (buffer p) (buffer (p + 1)) (buffer (p + 2)) (buffer (p + 3)) (bytes p)
          (bytes (p + 1)) (bytes (p + 2)) (bytes (p + 3)) in
      byte_of-cases (load p) (λ j. buffer (p + j)) (rw (let e : p + 0 ≡ p = omega arith in e) e0) e1
        e2 e3 k h

  -- The bytes `buffer[p..p + n)` stand from the dword `i` on, and no other dword changed.
  pub record IsWritten (n i p : ℕ) (log log' : Log) : Type 0 where
    pub inside : (k : ℕ) → k < n → ram_byte log' (4 * i + k) ≡ buffer (p + k)
    pub outside : (j : ℕ) → (j < i) ⊎ (4 * i + n ≤ 4 * j) → ram log' j ≡ ram log j

  dword_loop-IsWritten :
      (n i p sum : ℕ) (log : Log) → IsWritten (4 * n) i p log (dword_loop buffer n i p sum log).1
  unfolding dword_loop
  dword_loop-IsWritten zero i p sum log = record {
    inside = λ k h. absurd (omega arith);
    outside = λ j h. refl;
  }
  dword_loop-IsWritten (suc n) i p sum log =
      let rest =
        dword_loop-IsWritten n (suc i) (p + 4)
          ((sum + buffer p + buffer (p + 1) + buffer (p + 2) + buffer (p + 3)) % 256)
          (Op.wrote (Reg.host_if i) (load p) ∷ log) in
      record {
        inside = λ k h. elim (Bool-cases (ltb k 4)) [
          | inl l ↦
              let e : (4 * i + k) / 4 ≡ i = ground arith in
              let f : (4 * i + k) % 4 ≡ k = ground arith in
              let g : (i == i) ≡ true = ground arith in
              rw (e, f, rest.outside i (inl (omega arith)), g) (load-byte_of p k (ground arith))
          | inr l ↦
              let e : 4 * i + k ≡ 4 * suc i + (k - 4) = ground arith in
              let f : p + k ≡ p + 4 + (k - 4) = ground arith in
              rw (e, f) (rest.inside (k - 4) (ground arith))
        ];
        outside = λ j h.
            let g : (j == i) ≡ false = ground arith in rest.outside j (ground arith) ∙ rw g refl;
      }

  dword_loop-sum :
      (n i p sum : ℕ) (log : Log)
      → sum < 256
      → (dword_loop buffer n i p sum log).0 ≡ (sum + total_from buffer p (4 * n)) % 256
  unfolding dword_loop total_from
  dword_loop-sum zero i p sum log h = omega arith
  dword_loop-sum (suc n) i p sum log h =
      let e : 4 * suc n ≡ suc (suc (suc (suc (4 * n)))) = omega arith in
      let f : suc p ≡ p + 1 = omega arith in
      let f2 : suc (p + 1) ≡ p + 2 = omega arith in
      let f3 : suc (p + 2) ≡ p + 3 = omega arith in
      let f4 : suc (p + 3) ≡ p + 4 = omega arith in
      rw (e, f, f2, f3, f4)
        (omega (
          arith,
          dword_loop-sum n (suc i) (p + 4)
              ((sum + buffer p + buffer (p + 1) + buffer (p + 2) + buffer (p + 3)) % 256)
              (Op.wrote (Reg.host_if i) (load p) ∷ log) (omega arith),
        ))

  abbrev filled : (remaining p j : ℕ) → ℕ
  filled remaining p j = if ltb j remaining then buffer (p + j) else 0

  filled-lt : (remaining p j : ℕ) → filled remaining p j < 256
  filled-lt remaining p j = let h = bytes (p + j) in ground arith

  write_tail-IsWritten :
      (remaining i p sum : ℕ) (log : Log)
      → remaining < 4
      → IsWritten remaining i p log (write_tail buffer remaining i p sum log).1
  unfolding write_tail
  write_tail-IsWritten remaining i p sum log l = elim (Bool-cases (remaining == 0)) [
    | inl e ↦ rw e (record { inside = λ k h. absurd (ground arith); outside = λ j h. refl })
    | inr e ↦
        let g = filled remaining p in
        let lt = filled-lt remaining p in
        let (e0, e1, e2, e3) = byte_of-dword (g 0) (g 1) (g 2) (g 3) (lt 0) (lt 1) (lt 2) (lt 3) in
        let d = dword (g 0) (g 1) (g 2) (g 3) in
        rw e (record {
          inside = λ k h.
              let q : (4 * i + k) / 4 ≡ i = omega arith in
              let r : (4 * i + k) % 4 ≡ k = omega arith in
              let t : (i == i) ≡ true = ground arith in
              let w : g k ≡ buffer (p + k) = ground arith in
              rw (q, r, t) (byte_of-cases d g e0 e1 e2 e3 k (omega arith) ∙ w);
          outside = λ j h. let t : (j == i) ≡ false = ground arith in rw t refl;
        })
  ]

  write_tail-sum :
      (remaining i p sum : ℕ) (log : Log)
      → remaining < 4
      → sum < 256
      → (write_tail buffer remaining i p sum log).0 ≡ (sum + total_from buffer p remaining) % 256
  unfolding write_tail total_from
  write_tail-sum zero i p sum log l h = omega arith
  write_tail-sum (suc zero) i p sum log l h = let e : p + 0 ≡ p = omega arith in rw e (omega arith)
  write_tail-sum (suc (suc zero)) i p sum log l h =
      let e : p + 0 ≡ p = omega arith in
      let f : suc p ≡ p + 1 = omega arith in rw (e, f) (omega arith)
  write_tail-sum (suc (suc (suc zero))) i p sum log l h =
      let e : p + 0 ≡ p = omega arith in
      let f : suc p ≡ p + 1 = omega arith in
      let g : suc (p + 1) ≡ p + 2 = omega arith in rw (e, f, g) (omega arith)
  write_tail-sum (suc (suc (suc (suc r)))) i p sum log l h = absurd (omega arith)

  pub write_whole-IsWritten :
      (length i p sum : ℕ) (log : Log)
      → IsWritten length i p log (write_whole buffer length i p sum log).1
  unfolding write_whole
  write_whole-IsWritten length i p sum log =
      let q = length / 4 in
      let first = dword_loop-IsWritten q i p sum log in
      let (sum₁, log₁) = dword_loop buffer q i p sum log in
      let tail = write_tail-IsWritten (length % 4) (i + q) (p + q * 4) sum₁ log₁ (omega arith) in
      record {
        inside = λ k h. elim (Bool-cases (ltb k (4 * q))) [
          | inl l ↦
              rw (tail.outside ((4 * i + k) / 4) (inl (ground arith)))
                (first.inside k (ground arith))
          | inr l ↦
              let e : 4 * i + k ≡ 4 * (i + q) + (k - 4 * q) = ground arith in
              let f : p + k ≡ p + q * 4 + (k - 4 * q) = ground arith in
              rw (e, f) (tail.inside (k - 4 * q) (ground arith))
        ];
        outside = λ j h. tail.outside j (ground arith) ∙ first.outside j (ground arith);
      }

  pub write_whole-sum :
      (length i p sum : ℕ) (log : Log)
      → sum < 256
      → (write_whole buffer length i p sum log).0 ≡ (sum + total_from buffer p length) % 256
  unfolding write_whole
  write_whole-sum length i p sum log h =
      let q = length / 4 in
      let (sum₁, log₁) = dword_loop buffer q i p sum log in
      let first = dword_loop-sum q i p sum log h in
      let tail =
        write_tail-sum (length % 4) (i + q) (p + q * 4) sum₁ log₁ (omega arith)
          (omega (arith, first)) in
      let parts = total_from-append buffer p (4 * q) (length % 4) in
      let e : 4 * q + length % 4 ≡ length = omega arith in
      let f : p + 4 * q ≡ p + q * 4 = omega arith in
      let parts = rw (e, f) at parts in omega (arith, first, tail, parts)
