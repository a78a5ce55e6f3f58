-- ===== src/Em/Reads.antt =====
-- The polls of e1000_mac.c and e1000_manage.c: the log behind a number of reads of one register.
use rtems_libbsdport.Prelude.{ℕ, zero, suc, ◌<◌, ◌∷◌, arith}
use rtems_libbsdport.Em.{Reg, Op, Log}

abbrev pub reads : Reg → (n : ℕ) → Log → Log
reads r zero log = log
reads r (suc n) log = reads r n (Op.did_read r ∷ log)

-- What holds at the first read and at `n` reads behind it.
pub all_reads :
    (P : Log → Type 0) (r : Reg) (n : ℕ) (log : Log)
    → P log
    → ((k : ℕ) → k < n → P (reads r k (Op.did_read r ∷ log)))
    → (k : ℕ) → k < suc n
    → P (reads r k log)
all_reads P r n log p h zero l = p
all_reads P r n log p h (suc k) l = h k (omega arith)
