-- ===== src/Prelude/Bits.antt =====
-- What setting a bit does to the bits of a word.
use Prim.Native.Nat.{ℕ, zero, suc, ◌+◌, ◌-◌, ◌*◌, ◌/◌, ◌%◌, ◌^◌, ◌≤◌}
use mathlib.Core.Path.{◌≡◌, refl, ap, ◌∙◌, sym}
use mathlib.Core.Bool.{true, false}
use native.Mathlib.Omega.{arith}
use native.Mathlib.Nat.{pow-succ', div-div-eq-div-mul}
use rtems_libbsdport.Prelude.Tests.{◌==◌, if◌then◌else◌}
use rtems_libbsdport.Prelude.Words.{bit, is_set, set_bit, clear_bit}

pub bit-suc : (x k : ℕ) → bit x (suc k) ≡ bit (x / 2) k
bit-suc x k =
    ap (λ t. t % 2) (ap (λ d. x / d) (pow-succ' 2 k) ∙ sym (div-div-eq-div-mul x 2 (2 ^ k)))

mul_double : (b p : ℕ) → b * (2 * p) ≡ 2 * (b * p)
mul_double b p = grind arith

set_bit-suc : (x k : ℕ) → set_bit x (suc k) ≡ x % 2 + 2 * set_bit (x / 2) k
set_bit-suc x k =
    let e : 2 ^ suc k ≡ 2 * 2 ^ k = pow-succ' 2 k in
    let b = bit-suc x k in rw (b, e) (omega (arith, mul_double (1 - bit (x / 2) k) (2 ^ k)))

bit-set_bit : (k j x : ℕ) → bit (set_bit x k) j ≡ (if j == k then 1 else bit x j)
bit-set_bit zero zero x = omega arith
bit-set_bit zero (suc j) x =
    let t : (suc j == 0) ≡ false = ground arith in
    let e : set_bit x 0 / 2 ≡ x / 2 = omega arith in
    rw (t, bit-suc (set_bit x 0) j, bit-suc x j, e) refl
bit-set_bit (suc k) zero x =
    let t : (0 == suc k) ≡ false = ground arith in rw (t, set_bit-suc x k) (omega arith)
bit-set_bit (suc k) (suc j) x =
    let t : (suc j == suc k) ≡ (j == k) = ground arith in
    let e : (x % 2 + 2 * set_bit (x / 2) k) / 2 ≡ set_bit (x / 2) k = omega arith in
    rw (t, bit-suc (set_bit x (suc k)) j, bit-suc x j, set_bit-suc x k, e) (bit-set_bit k j (x / 2))

-- `x | (1 << k)` has the bit k, and those of x.
pub is_set-set_bit : (x k j : ℕ) → is_set (set_bit x k) j ≡ (if j == k then true else is_set x j)
is_set-set_bit x k j = ground (arith, bit-set_bit k j x)

bit-le : (x k : ℕ) → bit x k * 2 ^ k ≤ x
bit-le x zero = omega arith
bit-le x (suc k) =
    let l = bit-le (x / 2) k in
    let e : 2 ^ suc k ≡ 2 * 2 ^ k = pow-succ' 2 k in
    rw (bit-suc x k, e) (omega (arith, mul_double (bit (x / 2) k) (2 ^ k)))

clear_bit-suc : (x k : ℕ) → clear_bit x (suc k) ≡ x % 2 + 2 * clear_bit (x / 2) k
clear_bit-suc x k =
    let e : 2 ^ suc k ≡ 2 * 2 ^ k = pow-succ' 2 k in
    let b = bit-suc x k in
    let l : bit (x / 2) k * 2 ^ k ≤ x / 2 = bit-le (x / 2) k in
    rw (b, e) (omega (arith, mul_double (bit (x / 2) k) (2 ^ k), l))

bit-clear_bit : (k j x : ℕ) → bit (clear_bit x k) j ≡ (if j == k then 0 else bit x j)
bit-clear_bit zero zero x = omega arith
bit-clear_bit zero (suc j) x =
    let t : (suc j == 0) ≡ false = ground arith in
    let e : clear_bit x 0 / 2 ≡ x / 2 = omega arith in
    rw (t, bit-suc (clear_bit x 0) j, bit-suc x j, e) refl
bit-clear_bit (suc k) zero x =
    let t : (0 == suc k) ≡ false = ground arith in rw (t, clear_bit-suc x k) (omega arith)
bit-clear_bit (suc k) (suc j) x =
    let t : (suc j == suc k) ≡ (j == k) = ground arith in
    let e : (x % 2 + 2 * clear_bit (x / 2) k) / 2 ≡ clear_bit (x / 2) k = omega arith in
    rw (t, bit-suc (clear_bit x (suc k)) j, bit-suc x j, clear_bit-suc x k, e)
      (bit-clear_bit k j (x / 2))

-- `x & ~(1 << k)` has the bits of x but k.
pub is_set-clear_bit :
    (x k j : ℕ) → is_set (clear_bit x k) j ≡ (if j == k then false else is_set x j)
is_set-clear_bit x k j = ground (arith, bit-clear_bit k j x)
