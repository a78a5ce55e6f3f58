-- ===== src/Em/Eeprom.antt =====
-- e1000_nvm.c: access to the EEPROM over its wires, by the SPI and by the microwire protocol.
use rtems_libbsdport.Prelude.{
  ℕ, zero, suc, ◌+◌, ◌*◌, ◌/◌, ◌%◌, ◌^◌, ◌&&◌, leb, ◌==◌, if◌then◌else◌, List, [], ◌∷◌,
}
use rtems_libbsdport.Prelude.Words.{is_set, set_bit, clear_bit}
use rtems_libbsdport.Em.{Reg, Op, Log, Board, flush, M, Outcome, done, failed, err_nvm}
use rtems_libbsdport.Em.Eerd.{is_out_of_bounds}
use rtems_libbsdport.Em.Shift.{
  Kind, Info, put, shift_out_eec_bits, shift_in_eec_bits, standby_nvm, stop_nvm,
}

-- The loop of e1000_acquire_nvm_generic, and what follows it.
unfoldable pub acquire_loop : Board → (timeout eecd : ℕ) → M (Unit {0})
acquire_loop b zero eecd log = failed err_nvm (put (clear_bit eecd 6) log)
acquire_loop b (suc timeout) eecd log =
    let rest = acquire_loop b timeout (b log Reg.eecd) (Op.did_read Reg.eecd ∷ log) in
    if is_set eecd 7 then done tt log else rest

-- e1000_acquire_nvm_generic
unfoldable pub acquire_nvm : Board → M (Unit {0})
unfolding acquire_loop
acquire_nvm b log =
    let log₁ = put (set_bit (b log Reg.eecd) 6) (Op.did_read Reg.eecd ∷ log) in
    acquire_loop b 1000 (b log₁ Reg.eecd) (Op.did_read Reg.eecd ∷ log₁)

-- e1000_release_nvm_generic
unfoldable pub release_nvm : Board → Kind → Log → Log
unfolding stop_nvm
release_nvm b kind log =
    let log₁ = stop_nvm b kind log in
    put (clear_bit (b log₁ Reg.eecd) 6) (Op.did_read Reg.eecd ∷ log₁)

-- The `release` label: what was returned, after the release.
abbrev pub released : {A : Type 0} → Board → Kind → Outcome A → Outcome A
released b kind (Outcome.done a log) = Outcome.done a (release_nvm b kind log)
released b kind (Outcome.failed error log) = Outcome.failed error (release_nvm b kind log)

-- The loop of e1000_ready_nvm_eeprom for SPI: NVM_RDSR_OPCODE_SPI asks for the status register.
unfoldable pub ready_loop : Board → Info → (timeout : ℕ) → M (Unit {0})
unfolding shift_out_eec_bits shift_in_eec_bits standby_nvm
ready_loop b nvm zero log = failed err_nvm log
ready_loop b nvm (suc timeout) log =
    let (spi_stat_reg, log₁) =
      shift_in_eec_bits b 8 (shift_out_eec_bits b nvm.kind 5 nvm.opcode_bits log) in
    let rest = ready_loop b nvm timeout (standby_nvm b nvm.kind log₁) in
    if is_set spi_stat_reg 0 then rest else done tt log₁

-- e1000_ready_nvm_eeprom, whose first read of EECD gives `eecd`.
abbrev pub ready_kind : Board → Info → Kind → (eecd : ℕ) → M (Unit {0})
ready_kind b nvm Kind.microwire eecd log =
    let eecd₁ = clear_bit (clear_bit eecd 2) 0 in done tt (put (set_bit eecd₁ 1) (put eecd₁ log))
ready_kind b nvm Kind.spi eecd log =
    ready_loop b nvm 5000 (put (clear_bit (clear_bit eecd 1) 0) log)
ready_kind b nvm Kind.other eecd log = done tt log

unfoldable pub ready_nvm_eeprom : Board → Info → M (Unit {0})
unfolding ready_loop
ready_nvm_eeprom b nvm log = ready_kind b nvm nvm.kind (b log Reg.eecd) (Op.did_read Reg.eecd ∷ log)

-- NVM_A8_OPCODE_SPI, bit 3 of the opcode, where the address has 8 bits and the word is past 127.
abbrev pub with_a8 : Info → (offset opcode : ℕ) → ℕ
with_a8 nvm offset opcode = if (nvm.address_bits == 8) && leb 128 offset then opcode + 8 else opcode

-- `(word >> 8) | (word << 8)` in 16 bits.
abbrev pub swapped : (word : ℕ) → ℕ
swapped word = word / 2 ^ 8 % 2 ^ 8 + word % 2 ^ 8 * 2 ^ 8

-- `words` words, read one behind the other.
unfoldable pub spi_words : Board → (words : ℕ) → Log → List ℕ × Log
unfolding shift_in_eec_bits
spi_words b zero log = ([], log)
spi_words b (suc words) log =
    let (word_in, log₁) = shift_in_eec_bits b 16 log in
    let (rest, log₂) = spi_words b words log₁ in (swapped word_in ∷ rest, log₂)

-- e1000_read_nvm_spi from the acquisition on.
unfoldable pub read_spi_acquired : Board → Info → (offset words : ℕ) → M (List ℕ)
unfolding ready_nvm_eeprom standby_nvm shift_out_eec_bits spi_words
read_spi_acquired b nvm offset words log = elim (ready_nvm_eeprom b nvm log) [
  | failed error log₁ ↦ failed error log₁
  | done u log₁ ↦
      let log₂ = standby_nvm b nvm.kind log₁ in
      let log₃ = shift_out_eec_bits b nvm.kind (with_a8 nvm offset 3) nvm.opcode_bits log₂ in
      let log₄ = shift_out_eec_bits b nvm.kind (offset * 2 % 2 ^ 16) nvm.address_bits log₃ in
      let (data', log₅) = spi_words b words log₄ in done data' log₅
]

-- The parameters' check, the acquisition, and the release behind `body`, which every access has.
unfoldable pub access : {A : Type 0} → Board → Info → (offset words : ℕ) → (body : M A) → M A
unfolding acquire_nvm release_nvm
access b nvm offset words body log =
    if is_out_of_bounds nvm.word_size offset words
    then failed err_nvm log
    else elim (acquire_nvm b log) [
      | failed error log₁ ↦ failed error log₁
      | done u log₁ ↦ released b nvm.kind (body log₁)
    ]

-- e1000_read_nvm_spi
unfoldable pub read_nvm_spi : Board → Info → (offset words : ℕ) → M (List ℕ)
unfolding access read_spi_acquired
read_nvm_spi b nvm offset words = access b nvm offset words (read_spi_acquired b nvm offset words)

-- The loop of e1000_read_nvm_microwire, `words` rounds from the word `offset` on.
unfoldable pub microwire_words : Board → Info → (words offset : ℕ) → Log → List ℕ × Log
unfolding shift_out_eec_bits shift_in_eec_bits standby_nvm
microwire_words b nvm zero offset log = ([], log)
microwire_words b nvm (suc words) offset log =
    let log₁ = shift_out_eec_bits b nvm.kind 6 nvm.opcode_bits log in
    let log₂ = shift_out_eec_bits b nvm.kind (offset % 2 ^ 16) nvm.address_bits log₁ in
    let (word, log₃) = shift_in_eec_bits b 16 log₂ in
    let (rest, log₄) = microwire_words b nvm words (suc offset) (standby_nvm b nvm.kind log₃) in
    (word ∷ rest, log₄)

unfoldable pub read_microwire_acquired : Board → Info → (offset words : ℕ) → M (List ℕ)
unfolding ready_nvm_eeprom microwire_words
read_microwire_acquired b nvm offset words log = elim (ready_nvm_eeprom b nvm log) [
  | failed error log₁ ↦ failed error log₁
  | done u log₁ ↦ let (data', log₂) = microwire_words b nvm words offset log₁ in done data' log₂
]

-- e1000_read_nvm_microwire
unfoldable pub read_nvm_microwire : Board → Info → (offset words : ℕ) → M (List ℕ)
unfolding access read_microwire_acquired
read_nvm_microwire b nvm offset words =
    access b nvm offset words (read_microwire_acquired b nvm offset words)

-- e1000_reload_nvm_generic: E1000_CTRL_EXT_EE_RST is bit 13 of CTRL_EXT.
abbrev pub reload_nvm : Board → Log → Log
reload_nvm b log =
    flush (Op.wrote Reg.ctrl_ext (set_bit (b log Reg.ctrl_ext) 13) ∷ Op.did_read Reg.ctrl_ext ∷ log)
