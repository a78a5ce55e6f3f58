-- ===== src/Em/Shift.antt =====
-- e1000_nvm.c: the wires of the EEPROM in EECD, whose bits are the clock SK (0), the chip select CS
-- (1), the data to the EEPROM DI (2) and from it DO (3), the request REQ (6) and the grant GNT (7).
use rtems_libbsdport.Prelude.{ℕ, zero, suc, ◌+◌, ◌*◌, ◌%◌, ◌^◌, Bool, if◌then◌else◌, ◌∷◌}
use rtems_libbsdport.Prelude.Words.{is_set, set_bit, clear_bit}
use rtems_libbsdport.Em.{Reg, Op, Log, Board, flush}

-- e1000_nvm_type
pub data Kind : Type 0 where
  microwire spi other : Kind

-- The fields of `struct e1000_nvm_info` that the EEPROM's functions use.
pub record Info : Type 0 where
  pub kind : Kind
  pub word_size : ℕ
  pub opcode_bits : ℕ
  pub address_bits : ℕ
  pub page_size : ℕ

-- A write of EECD, and the same with a flush behind it.
abbrev pub put : (eecd : ℕ) → Log → Log
put eecd log = Op.wrote Reg.eecd eecd ∷ log

abbrev pub put_flushed : (eecd : ℕ) → Log → Log
put_flushed eecd log = flush (put eecd log)

-- e1000_raise_eec_clk and e1000_lower_eec_clk, which leave `set_bit eecd 0` and `clear_bit eecd 0` in
-- the caller's `eecd`.
abbrev pub raise_eec_clk : (eecd : ℕ) → Log → Log
raise_eec_clk eecd log = put_flushed (set_bit eecd 0) log

abbrev pub lower_eec_clk : (eecd : ℕ) → Log → Log
lower_eec_clk eecd log = put_flushed (clear_bit eecd 0) log

-- `eecd` with the data bit DI.
abbrev pub with_di : Bool → (eecd : ℕ) → ℕ
with_di d eecd = if d then set_bit (clear_bit eecd 2) 2 else clear_bit eecd 2

-- The loop of e1000_shift_out_eec_bits over the bits count - 1 to 0: `eecd` after it, and the log.
unfoldable pub out_loop : (data' count eecd : ℕ) → Log → ℕ × Log
out_loop data' zero eecd log = (eecd, log)
out_loop data' (suc count) eecd log =
    let eecd₁ = with_di (is_set data' count) eecd in
    let eecd₂ = set_bit eecd₁ 0 in
    let log₂ = raise_eec_clk eecd₁ (put_flushed eecd₁ log) in
    out_loop data' count (clear_bit eecd₂ 0) (lower_eec_clk eecd₂ log₂)

-- What the kind of the EEPROM has the function do to DO first.
abbrev pub prepare : Kind → (eecd : ℕ) → ℕ
prepare Kind.microwire eecd = clear_bit eecd 3
prepare Kind.spi eecd = set_bit eecd 3
prepare Kind.other eecd = eecd

-- e1000_shift_out_eec_bits for a count of at least 1.
unfoldable pub shift_out_eec_bits : Board → Kind → (data' count : ℕ) → Log → Log
unfolding out_loop
shift_out_eec_bits b kind data' count log =
    let log₁ = Op.did_read Reg.eecd ∷ log in
    let (eecd, log₂) = out_loop data' count (prepare kind (b log Reg.eecd)) log₁ in
    put (clear_bit eecd 2) log₂

-- The loop of e1000_shift_in_eec_bits: the data, and the log.
unfoldable pub in_loop : Board → (count data' eecd : ℕ) → Log → ℕ × Log
in_loop b zero data' eecd log = (data', log)
in_loop b (suc count) data' eecd log =
    let log₁ = raise_eec_clk eecd log in
    let level = b log₁ Reg.eecd in
    let eecd₁ = clear_bit level 2 in
    let data₁ = data' * 2 % 2 ^ 16 + (if is_set level 3 then 1 else 0) in
    in_loop b count data₁ (clear_bit eecd₁ 0) (lower_eec_clk eecd₁ (Op.did_read Reg.eecd ∷ log₁))

-- e1000_shift_in_eec_bits
unfoldable pub shift_in_eec_bits : Board → (count : ℕ) → Log → ℕ × Log
unfolding in_loop
shift_in_eec_bits b count log =
    in_loop b count 0 (clear_bit (clear_bit (b log Reg.eecd) 3) 2) (Op.did_read Reg.eecd ∷ log)

-- e1000_standby_nvm
unfoldable pub standby_nvm : Board → Kind → Log → Log
standby_nvm b Kind.microwire log =
    let eecd = clear_bit (clear_bit (b log Reg.eecd) 1) 0 in
    let log₁ = raise_eec_clk eecd (put_flushed eecd (Op.did_read Reg.eecd ∷ log)) in
    let eecd₁ = set_bit (set_bit eecd 0) 1 in lower_eec_clk eecd₁ (put_flushed eecd₁ log₁)
standby_nvm b Kind.spi log =
    let eecd = set_bit (b log Reg.eecd) 1 in
    put_flushed (clear_bit eecd 1) (put_flushed eecd (Op.did_read Reg.eecd ∷ log))
standby_nvm b Kind.other log = Op.did_read Reg.eecd ∷ log

-- e1000_stop_nvm
unfoldable pub stop_nvm : Board → Kind → Log → Log
stop_nvm b Kind.spi log = lower_eec_clk (set_bit (b log Reg.eecd) 1) (Op.did_read Reg.eecd ∷ log)
stop_nvm b Kind.microwire log =
    let eecd = clear_bit (clear_bit (b log Reg.eecd) 1) 2 in
    let log₁ = raise_eec_clk eecd (put eecd (Op.did_read Reg.eecd ∷ log)) in
    lower_eec_clk (set_bit eecd 0) log₁
stop_nvm b Kind.other log = Op.did_read Reg.eecd ∷ log
