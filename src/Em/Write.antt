-- ===== src/Em/Write.antt =====
-- e1000_nvm.c: writing the EEPROM over its wires.
use rtems_libbsdport.Prelude.{
  ℕ, zero, suc, ◌+◌, ◌-◌, ◌*◌, ◌%◌, ◌^◌, Bool, true, ◌==◌, if◌then◌else◌, List, [], ◌∷◌,
}
use rtems_libbsdport.Prelude.Lists.{length}
use rtems_libbsdport.Prelude.Words.{is_set}
use rtems_libbsdport.Em.{Reg, Op, Log, Board, M, done, failed, err_nvm}
use rtems_libbsdport.Em.Shift.{Info, shift_out_eec_bits, standby_nvm}
use rtems_libbsdport.Em.Eeprom.{access, ready_nvm_eeprom, with_a8, swapped}

-- The start of a page in e1000_write_nvm_spi: write enable (0x06), then the write command (0x02), whose
-- opcode depends on `offset`, and the address of the word `offset + widx`.
unfoldable pub start_page : Board → Info → (offset widx : ℕ) → M (Unit {0})
unfolding ready_nvm_eeprom standby_nvm shift_out_eec_bits
start_page b nvm offset widx log = elim (ready_nvm_eeprom b nvm log) [
  | failed error log₁ ↦ failed error log₁
  | done u log₁ ↦
      let log₂ = shift_out_eec_bits b nvm.kind 6 nvm.opcode_bits (standby_nvm b nvm.kind log₁) in
      let log₃ = standby_nvm b nvm.kind log₂ in
      let log₄ = shift_out_eec_bits b nvm.kind (with_a8 nvm offset 2) nvm.opcode_bits log₃ in
      done tt (shift_out_eec_bits b nvm.kind ((offset + widx) * 2 % 2 ^ 16) nvm.address_bits log₄)
]

-- Both loops of e1000_write_nvm_spi over the words that are left; `is_start`: at the head of the outer
-- one.
unfoldable pub spi_loop :
    Board → Info → (offset : ℕ) → List ℕ → (is_start : Bool) → (widx : ℕ) → M (Unit {0})
unfolding start_page shift_out_eec_bits standby_nvm
spi_loop b nvm offset [] is_start widx log = done tt log
spi_loop b nvm offset (w ∷ data') is_start widx log =
    elim ((if is_start then start_page b nvm offset widx else λ l. done tt l) log) [
      | failed error log₁ ↦ failed error log₁
      | done u log₁ ↦
          let log₂ = shift_out_eec_bits b nvm.kind (swapped w) 16 log₁ in
          let is_end = (offset + suc widx) * 2 % nvm.page_size == 0 in
          let log₃ = if is_end then standby_nvm b nvm.kind log₂ else log₂ in
          spi_loop b nvm offset data' is_end (suc widx) log₃
    ]

-- e1000_write_nvm_spi; `words` is the length of the data.
unfoldable pub write_nvm_spi : Board → Info → (offset : ℕ) → List ℕ → M (Unit {0})
unfolding access spi_loop
write_nvm_spi b nvm offset data' =
    access b nvm offset (length data') (λ log. spi_loop b nvm offset data' true 0 log)

-- The wait for DO of e1000_write_nvm_microwire, `n` reads at most.
unfoldable pub wait_do : Board → (n : ℕ) → M (Unit {0})
wait_do b zero log = failed err_nvm log
wait_do b (suc n) log =
    let rest = wait_do b n (Op.did_read Reg.eecd ∷ log) in
    if is_set (b log Reg.eecd) 3 then done tt (Op.did_read Reg.eecd ∷ log) else rest

-- Its loop over the words, from the word `offset` on.
unfoldable pub microwire_loop : Board → Info → List ℕ → (offset : ℕ) → M (Unit {0})
unfolding shift_out_eec_bits standby_nvm wait_do
microwire_loop b nvm [] offset log = done tt log
microwire_loop b nvm (w ∷ data') offset log =
    let log₁ = shift_out_eec_bits b nvm.kind 5 nvm.opcode_bits log in
    let log₂ = shift_out_eec_bits b nvm.kind (offset % 2 ^ 16) nvm.address_bits log₁ in
    let log₃ = shift_out_eec_bits b nvm.kind w 16 log₂ in
    elim (wait_do b 200 (standby_nvm b nvm.kind log₃)) [
      | failed error log₄ ↦ failed error log₄
      | done u log₄ ↦ microwire_loop b nvm data' (suc offset) (standby_nvm b nvm.kind log₄)
    ]

-- Write enable (0x13) and write disable (0x10), with their dummy address.
abbrev pub enable : Board → Info → (opcode : ℕ) → Log → Log
enable b nvm opcode log =
    let log₁ = shift_out_eec_bits b nvm.kind opcode (nvm.opcode_bits + 2) log in
    shift_out_eec_bits b nvm.kind 0 (nvm.address_bits - 2) log₁

unfoldable pub write_microwire_acquired : Board → Info → (offset : ℕ) → List ℕ → M (Unit {0})
unfolding ready_nvm_eeprom standby_nvm microwire_loop shift_out_eec_bits
write_microwire_acquired b nvm offset data' log = elim (ready_nvm_eeprom b nvm log) [
  | failed error log₁ ↦ failed error log₁
  | done u log₁ ↦
      let log₂ = standby_nvm b nvm.kind (enable b nvm 0x13 log₁) in
      elim (microwire_loop b nvm data' offset log₂) [
        | failed error log₃ ↦ failed error log₃
        | done u log₃ ↦ done tt (enable b nvm 0x10 log₃)
      ]
]

-- e1000_write_nvm_microwire
unfoldable pub write_nvm_microwire : Board → Info → (offset : ℕ) → List ℕ → M (Unit {0})
unfolding access write_microwire_acquired
write_nvm_microwire b nvm offset data' =
    access b nvm offset (length data') (write_microwire_acquired b nvm offset data')
