-- ===== src/Em/Semaphore.antt =====
-- e1000_mac.c: the semaphore in SWSM that software and firmware share, whose bits are SMBI (0) and
-- SWESMBI (1), and the wait for the hardware's own read of the EEPROM.
use rtems_libbsdport.Prelude.{
  ℕ, zero, suc, ◌+◌, ◌<◌, ◌≡◌, refl, ◌∙◌, ◌⊎◌, inl, inr, true, false, if◌then◌else◌, Option, none,
  some, [], ◌∷◌, Bool-cases, arith,
}
use rtems_libbsdport.Prelude.Words.{is_set, set_bit, clear_bit}
use rtems_libbsdport.Prelude.Bits.{is_set-set_bit, is_set-clear_bit}
use rtems_libbsdport.Em.{Reg, Op, Log, Board, M, done, failed, err_nvm}
use rtems_libbsdport.Em.Reads.{reads, all_reads}

-- E1000_ERR_RESET
abbrev pub err_reset : ℕ
err_reset = 9

-- e1000_put_hw_semaphore_generic
unfoldable pub put_hw_semaphore : Board → Log → Log
put_hw_semaphore b log =
    Op.wrote Reg.swsm (clear_bit (clear_bit (b log Reg.swsm) 0) 1) ∷ Op.did_read Reg.swsm ∷ log

-- The wait for SMBI in e1000_get_hw_semaphore_generic, `n` reads at most.
unfoldable pub smbi_loop : Board → (n : ℕ) → M (Unit {0})
smbi_loop b zero log = failed err_nvm log
smbi_loop b (suc n) log =
    let rest = smbi_loop b n (Op.did_read Reg.swsm ∷ log) in
    if is_set (b log Reg.swsm) 0 then rest else done tt (Op.did_read Reg.swsm ∷ log)

-- SWESMBI as it is tried.
abbrev pub try_swesmbi : Board → Log → Log
try_swesmbi b log = Op.wrote Reg.swsm (set_bit (b log Reg.swsm) 1) ∷ Op.did_read Reg.swsm ∷ log

-- The tries, `n` at most, and the release if none of them holds.
unfoldable pub swesmbi_loop : Board → (n : ℕ) → M (Unit {0})
unfolding put_hw_semaphore
swesmbi_loop b zero log = failed err_nvm (put_hw_semaphore b log)
swesmbi_loop b (suc n) log =
    let log₁ = try_swesmbi b log in
    let rest = swesmbi_loop b n (Op.did_read Reg.swsm ∷ log₁) in
    if is_set (b log₁ Reg.swsm) 1 then done tt (Op.did_read Reg.swsm ∷ log₁) else rest

-- e1000_get_hw_semaphore_generic
unfoldable pub get_hw_semaphore : Board → (word_size : ℕ) → M (Unit {0})
unfolding smbi_loop swesmbi_loop
get_hw_semaphore b word_size log = elim (smbi_loop b (word_size + 1) log) [
  | failed error log₁ ↦ failed error log₁
  | done u log₁ ↦ swesmbi_loop b (word_size + 1) log₁
]

-- The loop of e1000_get_auto_rd_done_generic, `n` reads at most; E1000_EECD_AUTO_RD is bit 9.
unfoldable pub auto_rd_loop : Board → (n : ℕ) → M (Unit {0})
auto_rd_loop b zero log = failed err_reset log
auto_rd_loop b (suc n) log =
    let rest = auto_rd_loop b n (Op.did_read Reg.eecd ∷ log) in
    if is_set (b log Reg.eecd) 9 then done tt (Op.did_read Reg.eecd ∷ log) else rest

-- e1000_get_auto_rd_done_generic
abbrev pub get_auto_rd_done : Board → M (Unit {0})
get_auto_rd_done b log = auto_rd_loop b 10 log

abbrev over_swsm : Op → Option ℕ → Option ℕ
over_swsm (Op.wrote Reg.swsm v) old = some v
over_swsm op old = old

-- The last word that was written to SWSM.
abbrev pub swsm_of : Log → Option ℕ
swsm_of [] = none
swsm_of (op ∷ log) = over_swsm op (swsm_of log)

-- The word asks for SWESMBI, and the hardware has just shown it.
abbrev pub IsHeld : Board → Log → Type 0
IsHeld b log =
    (v : ℕ) × (rest : Log) × (log ≡ (Op.did_read Reg.swsm ∷ rest))
    × (is_set (b rest Reg.swsm) 1 ≡ true)
    × (swsm_of rest ≡ some v)
    × (is_set v 1 ≡ true)

-- Both bits have been given back.
abbrev pub IsPut : Log → Type 0
IsPut log = (v : ℕ) × (swsm_of log ≡ some v) × (is_set v 0 ≡ false) × (is_set v 1 ≡ false)

-- SMBI is clear at the read behind `k` others, of `n` reads.
abbrev pub IsFree : Board → (n : ℕ) → Log → (k : ℕ) → Type 0
IsFree b n log k = (k < n) × (is_set (b (reads Reg.swsm k log) Reg.swsm) 0 ≡ false)

-- SMBI is set at all `n` reads.
abbrev pub IsTaken : Board → (n : ℕ) → Log → Type 0
IsTaken b n log = (k : ℕ) → k < n → is_set (b (reads Reg.swsm k log) Reg.swsm) 0 ≡ true

-- Behind `n` tries of SWESMBI.
abbrev pub tries : Board → (n : ℕ) → Log → Log
tries b zero log = log
tries b (suc n) log = tries b n (Op.did_read Reg.swsm ∷ try_swesmbi b log)

-- The hardware does not show SWESMBI at any of `n` tries.
abbrev pub IsDenied : Board → (n : ℕ) → Log → Type 0
IsDenied b n log = (k : ℕ) → k < n → is_set (b (try_swesmbi b (tries b k log)) Reg.swsm) 1 ≡ false

smbi_loop-cases :
    (b : Board) (n : ℕ) (log : Log)
    → ((k : ℕ) × (smbi_loop b n log ≡ done tt (reads Reg.swsm (suc k) log)) × IsFree b n log k)
      ⊎ ((log' : Log) × (smbi_loop b n log ≡ failed err_nvm log')
          × IsTaken b n log
          × (swsm_of log' ≡ swsm_of log))
unfolding smbi_loop
smbi_loop-cases b zero log = inr (log, refl, (λ k l. absurd (omega arith)), refl)
smbi_loop-cases b (suc n) log = elim (Bool-cases (is_set (b log Reg.swsm) 0)) [
  | inl t ↦ elim (smbi_loop-cases b n (Op.did_read Reg.swsm ∷ log)) [
    | inl (k, e, (l, f)) ↦ inl (suc k, rw t e, (omega arith, f))
    | inr (log', e, a, s) ↦
        inr (log', rw t e, all_reads (λ x. is_set (b x Reg.swsm) 0 ≡ true) Reg.swsm n log t a, s)
  ]
  | inr t ↦ inl (0, rw t refl, (omega arith, t))
]

put_hw_semaphore-IsPut : (b : Board) (log : Log) → IsPut (put_hw_semaphore b log)
unfolding put_hw_semaphore
put_hw_semaphore-IsPut b log =
    let v = clear_bit (b log Reg.swsm) 0 in
    (
      clear_bit v 1,
      refl,
      is_set-clear_bit v 1 0 ∙ is_set-clear_bit (b log Reg.swsm) 0 0,
      is_set-clear_bit v 1 1,
    )

all_tries :
    (b : Board) (n : ℕ) (log : Log)
    → is_set (b (try_swesmbi b log) Reg.swsm) 1 ≡ false
    → IsDenied b n (Op.did_read Reg.swsm ∷ try_swesmbi b log)
    → IsDenied b (suc n) log
all_tries b n log f h zero l = f
all_tries b n log f h (suc k) l = h k (omega arith)

swesmbi_loop-cases :
    (b : Board) (n : ℕ) (log : Log)
    → ((log' : Log) × (swesmbi_loop b n log ≡ done tt log') × IsHeld b log')
      ⊎ ((log' : Log) × (swesmbi_loop b n log ≡ failed err_nvm log')
          × IsDenied b n log
          × IsPut log')
unfolding swesmbi_loop
swesmbi_loop-cases b zero log =
    inr (put_hw_semaphore b log, refl, (λ k l. absurd (omega arith)), put_hw_semaphore-IsPut b log)
swesmbi_loop-cases b (suc n) log =
    let log₁ = try_swesmbi b log in
    let v = set_bit (b log Reg.swsm) 1 in
    elim (Bool-cases (is_set (b log₁ Reg.swsm) 1)) [
      | inl t ↦ inl (
        Op.did_read Reg.swsm ∷ log₁,
        rw t refl,
        (v, log₁, refl, t, refl, is_set-set_bit (b log Reg.swsm) 1 1),
      )
      | inr t ↦ elim (swesmbi_loop-cases b n (Op.did_read Reg.swsm ∷ log₁)) [
        | inl (log', e, h) ↦ inl (log', rw t e, h)
        | inr (log', e, d, h) ↦ inr (log', rw t e, all_tries b n log t d, h)
      ]
    ]

-- e1000_get_hw_semaphore_generic succeeds only if one of its word_size + 1 reads has shown SMBI clear,
-- and then SWESMBI has been asked for and the hardware has just shown it. It fails without a write to
-- SWSM where SMBI is set at all word_size + 1 reads; and otherwise where the hardware does not show
-- SWESMBI at any of word_size + 1 tries behind the read that has shown SMBI clear, with both bits
-- given back.
pub get_hw_semaphore-IsHeld :
    (b : Board) (word_size : ℕ) (log : Log)
    → ((log' : Log) × (k : ℕ) × (get_hw_semaphore b word_size log ≡ done tt log')
        × IsFree b (word_size + 1) log k
        × IsHeld b log')
      ⊎ ((log' : Log) × (get_hw_semaphore b word_size log ≡ failed err_nvm log')
          × ((IsTaken b (word_size + 1) log × (swsm_of log' ≡ swsm_of log))
              ⊎ ((k : ℕ) × IsFree b (word_size + 1) log k
                  × IsDenied b (word_size + 1) (reads Reg.swsm (suc k) log)
                  × IsPut log')))
unfolding get_hw_semaphore
get_hw_semaphore-IsHeld b word_size log = elim (smbi_loop-cases b (word_size + 1) log) [
  | inr w ↦
      let (log', e, taken, same) = w in inr (log', rw (e, get_hw_semaphore) refl, inl (taken, same))
  | inl w ↦
      let (k, e, free) = w in
      elim (swesmbi_loop-cases b (word_size + 1) (reads Reg.swsm (suc k) log)) [
        | inl held ↦ let (log', f, h) = held in inl (log', k, rw (e, get_hw_semaphore) f, free, h)
        | inr lost ↦
            let (log', f, d, h) = lost in
            inr (log', rw (e, get_hw_semaphore) f, inr (k, free, d, h))
      ]
]
