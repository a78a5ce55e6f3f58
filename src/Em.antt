-- ===== src/Em.antt =====
-- bsd_eth_drivers/if_em: the parts of Intel's e1000 code that all its chips share (e1000_nvm.c,
-- e1000_manage.c, e1000_mac.c).
-- The driver's state is the history of what it did to the registers, the latest first; a delay leaves
-- no trace. A Board is the hardware: what a read of a register gives after a history.
mod Tests
pub mod Host
pub mod Reads
pub mod Ram
pub mod Command
pub mod Overrun
pub mod Filtering
pub mod Eerd
pub mod Store
pub mod Chip
pub mod Filter
pub mod Multicast
pub mod Flow
pub mod Phy
pub mod Pause
pub mod Resolved
pub mod Mdic
pub mod Shift
pub mod Eeprom
pub mod Write
pub mod Released
pub mod Wire
pub mod Adaptive
pub mod Semaphore
pub mod Link
pub mod Forced
use rtems_libbsdport.Prelude.{ℕ, ◌≡◌, refl, ◌⊎◌, inl, inr, List, ◌∷◌}

-- The registers, and the register arrays with an index.
pub data Reg : Type 0 where
  status ctrl ctrl_ext eecd eerd eewr : Reg
  hicr fwsm manc factps : Reg
  fcrtl fcrth fct fcah fcal fcttv txcw rxcw mdic tctl swsm ait : Reg
  host_if ra mta vfta : ℕ → Reg

-- E1000_WRITE_REG and E1000_READ_REG
pub data Op : Type 0 where
  wrote : Reg → ℕ → Op
  did_read : Reg → Op

abbrev pub Log : Type 0
Log = List Op

abbrev pub Board : Type 0
Board = Log → Reg → ℕ

-- E1000_WRITE_FLUSH, which reads the status register.
abbrev pub flush : Log → Log
flush log = Op.did_read Reg.status ∷ log

-- What a function returns: its result behind E1000_SUCCESS, or its error code, negated.
pub data Outcome (A : Type 0) : Type 0 where
  done : A → Log → Outcome A
  failed : (error : ℕ) → Log → Outcome A

abbrev pub M : Type 0 → Type 0
M A = Log → Outcome A

infixl 5 ◌>>=◌ ◌>>◌
abbrev pub ◌>>=◌ : {A B : Type 0} → M A → (A → M B) → M B
◌>>=◌ m f log = elim (m log) [
  | Outcome.done a log₁ ↦ f a log₁
  | Outcome.failed error log₁ ↦ Outcome.failed error log₁
]

abbrev pub ◌>>◌ : {A B : Type 0} → M A → M B → M B
◌>>◌ m k = m >>= λ a. k

-- E1000_ERR_NVM, E1000_ERR_PHY, E1000_ERR_CONFIG, E1000_ERR_PARAM and E1000_ERR_HOST_INTERFACE_COMMAND
abbrev pub err_nvm : ℕ
err_nvm = 1

abbrev pub err_phy : ℕ
err_phy = 2

abbrev pub err_config : ℕ
err_config = 3

abbrev pub err_param : ℕ
err_param = 4

abbrev pub err_host_interface_command : ℕ
err_host_interface_command = 11

pub Outcome-cases :
    {A : Type 0} (r : Outcome A)
    → ((a : A) × (log : Log) × (r ≡ Outcome.done a log))
      ⊎ ((error : ℕ) × (log : Log) × (r ≡ Outcome.failed error log))
Outcome-cases (Outcome.done a log) = inl (a, log, refl)
Outcome-cases (Outcome.failed error log) = inr (error, log, refl)
