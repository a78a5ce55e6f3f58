-- ===== src/Em/Wire.antt =====
-- e1000_nvm.c: what the EEPROM sees on its wires while words are shifted out and in.
use rtems_libbsdport.Prelude.{
  ℕ, zero, suc, ◌+◌, ◌*◌, ◌/◌, ◌%◌, ◌^◌, ◌<◌, ◌≤◌, ◌≡◌, refl, ap, ◌∙◌, Bool, true, false, not, ◌&&◌,
  ◌==◌, if◌then◌else◌, List, [], ◌∷◌, arith,
}
use native.Mathlib.Nat.{pow-succ', pow-le-pow_right}
use rtems_libbsdport.Prelude.Lists.{length}
use rtems_libbsdport.Prelude.Words.{bit, is_set, set_bit, clear_bit}
use rtems_libbsdport.Prelude.Bits.{is_set-set_bit, is_set-clear_bit, bit-suc}
use rtems_libbsdport.Em.{Reg, Op, Log, Board}
use rtems_libbsdport.Em.Shift.{
  Kind, put_flushed, raise_eec_clk, lower_eec_clk, with_di, out_loop, prepare, shift_out_eec_bits,
  in_loop, shift_in_eec_bits,
}

abbrev over_clock : Op → Bool → Bool
over_clock (Op.wrote Reg.eecd v) old = is_set v 0
over_clock op old = old

-- The level of the clock.
abbrev pub clock_of : Log → Bool
clock_of [] = false
clock_of (op ∷ log) = over_clock op (clock_of log)

abbrev over_seen : Op → (clock : Bool) → List Bool → List Bool
over_seen (Op.wrote Reg.eecd v) clock old =
    if is_set v 0 && not clock then is_set v 2 ∷ old else old
over_seen op clock old = old

-- The EEPROM takes the level of DI where the clock rises: what it has taken, the last first.
abbrev pub seen : Log → List Bool
seen [] = []
seen (op ∷ log) = over_seen op (clock_of log) (seen log)

-- The lowest `count` bits of a word in front of `rest`, the highest of them behind.
abbrev pub bits_onto : (data' count : ℕ) → List Bool → List Bool
bits_onto data' zero rest = rest
bits_onto data' (suc count) rest = bits_onto data' count (is_set data' count ∷ rest)

with_di-clock : (d : Bool) (eecd : ℕ) → is_set (with_di d eecd) 0 ≡ is_set eecd 0
with_di-clock true eecd = is_set-set_bit (clear_bit eecd 2) 2 0 ∙ is_set-clear_bit eecd 2 0
with_di-clock false eecd = is_set-clear_bit eecd 2 0

with_di-di : (d : Bool) (eecd : ℕ) → is_set (with_di d eecd) 2 ≡ d
with_di-di true eecd = is_set-set_bit (clear_bit eecd 2) 2 2
with_di-di false eecd = is_set-clear_bit eecd 2 2

-- One bit: the clock is low, then rises over it, and falls.
one_bit-seen :
    (d : Bool) (eecd : ℕ) (log : Log)
    → is_set eecd 0 ≡ false
    → (seen (raise_eec_clk (with_di d eecd) (put_flushed (with_di d eecd) log)) ≡ (d ∷ seen log))
      × (clock_of (raise_eec_clk (with_di d eecd) (put_flushed (with_di d eecd) log)) ≡ true)
one_bit-seen d eecd log low =
    let w = with_di d eecd in
    let c : is_set w 0 ≡ false = with_di-clock d eecd ∙ low in
    let r : is_set (set_bit w 0) 0 ≡ true = is_set-set_bit w 0 0 in
    let e : is_set (set_bit w 0) 2 ≡ d = is_set-set_bit w 0 2 ∙ with_di-di d eecd in
    (rw (c, r, e) refl, r)

out_loop-seen :
    (data' count eecd : ℕ) (log : Log)
    → is_set eecd 0 ≡ false
    → seen (out_loop data' count eecd log).1 ≡ bits_onto data' count (seen log)
unfolding out_loop
out_loop-seen data' zero eecd log low = refl
out_loop-seen data' (suc count) eecd log low =
    let d = is_set data' count in
    let w = with_di d eecd in
    let v = set_bit w 0 in
    let log₁ = raise_eec_clk w (put_flushed w log) in
    let (s, c) = one_bit-seen d eecd log low in
    let f : is_set (clear_bit v 0) 0 ≡ false = is_set-clear_bit v 0 0 in
    let t : seen (lower_eec_clk v log₁) ≡ seen log₁ = rw (f, c) refl in
    out_loop-seen data' count (clear_bit v 0) (lower_eec_clk v log₁) f
    ∙ ap (bits_onto data' count) (t ∙ s)

out_loop-low :
    (data' count eecd : ℕ) (log : Log)
    → is_set eecd 0 ≡ false
    → is_set (out_loop data' count eecd log).0 0 ≡ false
unfolding out_loop
out_loop-low data' zero eecd log low = low
out_loop-low data' (suc count) eecd log low =
    let v = set_bit (with_di (is_set data' count) eecd) 0 in
    out_loop-low data' count (clear_bit v 0) _ (is_set-clear_bit v 0 0)

prepare-clock : (kind : Kind) (eecd : ℕ) → is_set (prepare kind eecd) 0 ≡ is_set eecd 0
prepare-clock Kind.microwire eecd = is_set-clear_bit eecd 3 0
prepare-clock Kind.spi eecd = is_set-set_bit eecd 3 0
prepare-clock Kind.other eecd = refl

-- What e1000_shift_out_eec_bits sends, if the clock is low when it starts (its counts are at least 1,
-- as in all calls; the model sends nothing for 0, where the code would shift by -1): the EEPROM takes the lowest
-- `count` bits of the data, the highest of them first, and no other; the clock is low in the end.
pub shift_out-seen :
    (b : Board) (kind : Kind) (data' count : ℕ) (log : Log)
    → is_set (b log Reg.eecd) 0 ≡ false
    → (seen (shift_out_eec_bits b kind data' count log) ≡ bits_onto data' count (seen log))
      × (clock_of (shift_out_eec_bits b kind data' count log) ≡ false)
unfolding shift_out_eec_bits
shift_out-seen b kind data' count log low =
    let eecd = prepare kind (b log Reg.eecd) in
    let log₁ : Log = Op.did_read Reg.eecd ∷ log in
    let low₁ : is_set eecd 0 ≡ false = prepare-clock kind (b log Reg.eecd) ∙ low in
    let v = (out_loop data' count eecd log₁).0 in
    let f : is_set (clear_bit v 2) 0 ≡ false =
      is_set-clear_bit v 2 0 ∙ out_loop-low data' count eecd log₁ low₁ in
    (rw f (out_loop-seen data' count eecd log₁ low₁), f)

-- An EEPROM that puts out the bit `bits n` after the clock has risen `n` times.
abbrev pub IsSource : Board → (bits : ℕ → Bool) → Type 0
IsSource b bits = (log : Log) → is_set (b log Reg.eecd) 3 ≡ bits (length (seen log))

-- The `count` bits after the bit `n` in front of `rest`, the last first.
abbrev pub levels_onto : (bits : ℕ → Bool) → (count n : ℕ) → List Bool → List Bool
levels_onto bits zero n rest = rest
levels_onto bits (suc count) n rest = levels_onto bits count (suc n) (bits (suc n) ∷ rest)

-- A bit behind the others.
abbrev with_bit : (acc : ℕ) → Bool → ℕ
with_bit acc d = acc * 2 % 2 ^ 16 + (if d then 1 else 0)

bits_onto-with_bit :
    (k acc : ℕ) (d : Bool) (rest : List Bool)
    → acc * 2 < 2 ^ 16
    → bits_onto (with_bit acc d) (suc k) rest ≡ (d ∷ bits_onto acc k rest)
bits_onto-with_bit zero acc true rest l =
    let e : with_bit acc true / 1 % 2 ≡ 1 = omega arith in rw e refl
bits_onto-with_bit zero acc false rest l =
    let e : with_bit acc false / 1 % 2 ≡ 0 = omega arith in rw e refl
bits_onto-with_bit (suc k) acc d rest l =
    let half : with_bit acc d / 2 ≡ acc = ground arith in
    let e : is_set (with_bit acc d) (suc k) ≡ is_set acc k =
      ap (λ t. t == 1) (bit-suc (with_bit acc d) k ∙ ap (λ t. bit t k) half) in
    bits_onto-with_bit k acc d (is_set (with_bit acc d) (suc k) ∷ rest) l
    ∙ ap (λ t. d ∷ bits_onto acc k (t ∷ rest)) e

with_bit-bounds :
    (k acc : ℕ) (d : Bool)
    → suc k ≤ 16
    → acc < 2 ^ k
    → (acc * 2 < 2 ^ 16) × (with_bit acc d < 2 ^ suc k)
with_bit-bounds k acc d m l =
    let e : 2 ^ suc k ≡ 2 * 2 ^ k = pow-succ' 2 k in
    let p : 2 ^ suc k ≤ 2 ^ 16 = pow-le-pow_right (omega arith) m in
    let half : acc * 2 < 2 ^ 16 = omega arith in (half, ground arith)

in_loop-levels :
    (b : Board) (bits : ℕ → Bool) (count k acc eecd : ℕ) (log : Log) (rest : List Bool)
    → IsSource b bits
    → clock_of log ≡ false
    → k + count ≤ 16
    → acc < 2 ^ k
    → ((in_loop b count acc eecd log).0 < 2 ^ (k + count))
      × (bits_onto (in_loop b count acc eecd log).0 (k + count) rest
          ≡ levels_onto bits count (length (seen log)) (bits_onto acc k rest))
unfolding in_loop
in_loop-levels b bits zero k acc eecd log rest source low m l =
    let e : k + 0 ≡ k = omega arith in rw e (l, refl)
in_loop-levels b bits (suc count) k acc eecd log rest source low m l =
    let log₁ = raise_eec_clk eecd log in
    let v = clear_bit (b log₁ Reg.eecd) 2 in
    let log₂ = lower_eec_clk v (Op.did_read Reg.eecd ∷ log₁) in
    let level = is_set (b log₁ Reg.eecd) 3 in
    let up : is_set (set_bit eecd 0) 0 ≡ true = is_set-set_bit eecd 0 0 in
    let f : is_set (clear_bit v 0) 0 ≡ false = is_set-clear_bit v 0 0 in
    let n : length (seen log₁) ≡ suc (length (seen log)) = rw (up, low) refl in
    let same : seen log₂ ≡ seen log₁ = rw f refl in
    let (half, bound) = with_bit-bounds k acc level (omega arith) l in
    let e : k + suc count ≡ suc k + count = omega arith in
    let (below, r) =
      in_loop-levels b bits count (suc k) (with_bit acc level) (clear_bit v 0) log₂ rest source f
        (omega arith) bound in
    let onto : bits_onto (with_bit acc level) (suc k) rest ≡ (level ∷ bits_onto acc k rest) =
      bits_onto-with_bit k acc level rest half in
    let taken : level ≡ bits (suc (length (seen log))) = source log₁ ∙ ap bits n in
    rw e (
      below,
      r
          ∙ rw (ap length same ∙ n) (
              ap (levels_onto bits count (suc (length (seen log))))
                (onto ∙ ap (λ t. t ∷ bits_onto acc k rest) taken)),
    )

-- What e1000_shift_in_eec_bits gives, if the clock is low when it starts and at most 16 bits are
-- wanted: a number of that many bits, which are those that the EEPROM puts out after the next rises
-- of the clock, the highest first.
pub shift_in-levels :
    (b : Board) (bits : ℕ → Bool) (count : ℕ) (log : Log)
    → IsSource b bits
    → clock_of log ≡ false
    → count ≤ 16
    → ((shift_in_eec_bits b count log).0 < 2 ^ count)
      × (bits_onto (shift_in_eec_bits b count log).0 count []
          ≡ levels_onto bits count (length (seen log)) [])
unfolding shift_in_eec_bits
shift_in-levels b bits count log source low m =
    let e : 0 + count ≡ count = omega arith in
    rw e at (
      in_loop-levels b bits count 0 0 (clear_bit (clear_bit (b log Reg.eecd) 3) 2)
        (Op.did_read Reg.eecd ∷ log) [] source low (omega arith) (omega arith))
