-- ===== src/Em/Released.antt =====
-- e1000_nvm.c: the request bit of EECD behind each access to the EEPROM.
use rtems_libbsdport.Prelude.{
  ℕ, zero, suc, ◌≡◌, refl, ap, ◌⊎◌, inl, inr, Bool, true, false, Option, none, some, List, [], ◌∷◌,
  Bool-cases,
}
use rtems_libbsdport.Prelude.Lists.{length}
use rtems_libbsdport.Prelude.Words.{is_set, set_bit, clear_bit}
use rtems_libbsdport.Prelude.Bits.{is_set-clear_bit}
use rtems_libbsdport.Em.{Reg, Op, Log, Board, M, Outcome, done, failed, err_nvm}
use rtems_libbsdport.Em.Eerd.{is_out_of_bounds}
use rtems_libbsdport.Em.Shift.{Kind, Info, put, stop_nvm}
use rtems_libbsdport.Em.Eeprom.{
  acquire_loop, acquire_nvm, release_nvm, released, access, read_nvm_spi, read_nvm_microwire,
  read_spi_acquired, read_microwire_acquired,
}
use rtems_libbsdport.Em.Write.{
  write_nvm_spi, write_nvm_microwire, spi_loop, write_microwire_acquired,
}

abbrev over_eecd : Op → Option ℕ → Option ℕ
over_eecd (Op.wrote Reg.eecd v) old = some v
over_eecd op old = old

-- The last word that was written to EECD.
abbrev pub eecd_of : Log → Option ℕ
eecd_of [] = none
eecd_of (op ∷ log) = over_eecd op (eecd_of log)

-- The request of the EEPROM has been taken back.
abbrev pub IsReleased : Log → Type 0
IsReleased log = (v : ℕ) × (eecd_of log ≡ some v) × (is_set v 6 ≡ false)

put-IsReleased : (v : ℕ) (log : Log) → IsReleased (put (clear_bit v 6) log)
put-IsReleased v log = (clear_bit v 6, refl, is_set-clear_bit v 6 6)

release_nvm-IsReleased : (b : Board) (kind : Kind) (log : Log) → IsReleased (release_nvm b kind log)
unfolding release_nvm
release_nvm-IsReleased b kind log =
    let log₁ = stop_nvm b kind log in put-IsReleased (b log₁ Reg.eecd) (Op.did_read Reg.eecd ∷ log₁)

-- The log that a result has.
abbrev pub log_of : {A : Type 0} → Outcome A → Log
log_of (Outcome.done a log) = log
log_of (Outcome.failed error log) = log

acquire_loop-cases :
    (b : Board) (timeout eecd : ℕ) (log : Log)
    → ((log' : Log) × (acquire_loop b timeout eecd log ≡ done tt log'))
      ⊎ ((log' : Log) × (acquire_loop b timeout eecd log ≡ failed err_nvm log') × IsReleased log')
unfolding acquire_loop
acquire_loop-cases b zero eecd log = inr (put (clear_bit eecd 6) log, refl, put-IsReleased eecd log)
acquire_loop-cases b (suc timeout) eecd log = elim (Bool-cases (is_set eecd 7)) [
  | inl t ↦ inl (log, rw t refl)
  | inr t ↦ rw t (acquire_loop-cases b timeout (b log Reg.eecd) (Op.did_read Reg.eecd ∷ log))
]

acquire_nvm-cases :
    (b : Board) (log : Log)
    → ((log' : Log) × (acquire_nvm b log ≡ done tt log'))
      ⊎ ((log' : Log) × (acquire_nvm b log ≡ failed err_nvm log') × IsReleased log')
unfolding acquire_nvm
acquire_nvm-cases b log =
    let log₁ = put (set_bit (b log Reg.eecd) 6) (Op.did_read Reg.eecd ∷ log) in
    acquire_loop-cases b 1000 (b log₁ Reg.eecd) (Op.did_read Reg.eecd ∷ log₁)

released-IsReleased :
    {A : Type 0} (b : Board) (kind : Kind) (r : Outcome A) → IsReleased (log_of (released b kind r))
released-IsReleased b kind (Outcome.done a log) = release_nvm-IsReleased b kind log
released-IsReleased b kind (Outcome.failed error log) = release_nvm-IsReleased b kind log

refused :
    {A : Type 0} {r : Outcome A} {log : Log} {t : Bool}
    → ((t ≡ true) × (r ≡ failed err_nvm log)) ⊎ ((t ≡ false) × IsReleased (log_of r))
    → ((t ≡ true) × (log_of r ≡ log)) ⊎ ((t ≡ false) × IsReleased (log_of r))
refused (inl w) = inl (w.0, ap log_of w.1)
refused (inr w) = inr w

-- Whatever is done between: the access is refused without touching a register, or the request is back.
access-IsReleased :
    {A : Type 0} (b : Board) (nvm : Info) (offset words : ℕ) (body : M A) (log : Log)
    → ((is_out_of_bounds nvm.word_size offset words ≡ true)
        × (access b nvm offset words body log ≡ failed err_nvm log))
      ⊎ ((is_out_of_bounds nvm.word_size offset words ≡ false)
          × IsReleased (log_of (access b nvm offset words body log)))
unfolding access
access-IsReleased b nvm offset words body log =
    elim (Bool-cases (is_out_of_bounds nvm.word_size offset words)) [
      | inl t ↦ inl (t, rw t refl)
      | inr t ↦ elim (acquire_nvm-cases b log) [
        | inl w ↦
            let (log₁, e) = w in inr (t, rw (t, e) (released-IsReleased b nvm.kind (body log₁)))
        | inr w ↦ let (log₁, e, r) = w in inr (t, rw (t, e) r)
      ]
    ]

-- The ways to use the EEPROM over its wires.
pub data Access : Type 0 where
  read_spi read_microwire : (words : ℕ) → Access
  write_spi write_microwire : (data' : List ℕ) → Access

abbrev pub words_of : Access → ℕ
words_of (Access.read_spi words) = words
words_of (Access.read_microwire words) = words
words_of (Access.write_spi data') = length data'
words_of (Access.write_microwire data') = length data'

-- What the driver has done once the function has returned.
abbrev pub log_after : Board → Info → (offset : ℕ) → Access → Log → Log
log_after b nvm offset (Access.read_spi words) log = log_of (read_nvm_spi b nvm offset words log)
log_after b nvm offset (Access.read_microwire words) log =
    log_of (read_nvm_microwire b nvm offset words log)
log_after b nvm offset (Access.write_spi data') log = log_of (write_nvm_spi b nvm offset data' log)
log_after b nvm offset (Access.write_microwire data') log =
    log_of (write_nvm_microwire b nvm offset data' log)

-- e1000_read_nvm_spi, e1000_read_nvm_microwire, e1000_write_nvm_spi and e1000_write_nvm_microwire: for
-- a range that is not in the EEPROM they touch no register. Otherwise, whether the grant, the EEPROM's
-- ready state or a word's write fails or not, the last word written to EECD takes the request back.
pub accesses-IsReleased :
    (b : Board) (nvm : Info) (offset : ℕ) (a : Access) (log : Log)
    → ((is_out_of_bounds nvm.word_size offset (words_of a) ≡ true)
        × (log_after b nvm offset a log ≡ log))
      ⊎ ((is_out_of_bounds nvm.word_size offset (words_of a) ≡ false)
          × IsReleased (log_after b nvm offset a log))
unfolding read_nvm_spi read_nvm_microwire write_nvm_spi write_nvm_microwire
accesses-IsReleased b nvm offset (Access.read_spi words) log =
    refused (access-IsReleased b nvm offset words (read_spi_acquired b nvm offset words) log)
accesses-IsReleased b nvm offset (Access.read_microwire words) log =
    refused (access-IsReleased b nvm offset words (read_microwire_acquired b nvm offset words) log)
accesses-IsReleased b nvm offset (Access.write_spi data') log =
    refused (
      access-IsReleased b nvm offset (length data') (λ l. spi_loop b nvm offset data' true 0 l) log)
accesses-IsReleased b nvm offset (Access.write_microwire data') log = refused (
    access-IsReleased b nvm offset (length data') (write_microwire_acquired b nvm offset data') log)
