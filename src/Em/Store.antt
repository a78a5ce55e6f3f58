-- ===== src/Em/Store.antt =====
-- e1000_nvm.c: the functions over the words of the EEPROM, which read and write by the functions of
-- the chip (e1000_read_nvm, e1000_write_nvm).
use rtems_libbsdport.Prelude.{
  ℕ, zero, suc, ◌+◌, ◌-◌, ◌*◌, ◌/◌, ◌%◌, ◌^◌, ◌<◌, ◌≤◌, ◌≡◌, refl, ap, ◌∙◌, false, Bool, arith,
  ◌==◌, if◌then◌else◌, Bool-cases, inl, inr, ◌≢◌, ◌↔◌,
}
use rtems_libbsdport.Em.{Log, M, done, failed, ◌>>=◌, err_nvm}

-- The read and the write of one word.
pub record Nvm : Type 0 where
  pub read_nvm : (offset : ℕ) → M ℕ
  pub write_nvm : (offset word : ℕ) → M (Unit {0})

-- NVM_CHECKSUM_REG and NVM_SUM
abbrev pub checksum_reg : ℕ
checksum_reg = 63

abbrev pub nvm_sum : ℕ
nvm_sum = 0xBABA

-- The loop that adds up `n` words from `i` on, in 16 bits.
unfoldable pub sum_loop : Nvm → (n i checksum : ℕ) → M ℕ
sum_loop nvm zero i checksum log = done checksum log
sum_loop nvm (suc n) i checksum log = elim (nvm.read_nvm i log) [
  | done nvm_data log₁ ↦ sum_loop nvm n (suc i) ((checksum + nvm_data) % 2 ^ 16) log₁
  | failed error log₁ ↦ failed error log₁
]

-- e1000_validate_nvm_checksum_generic
unfoldable pub validate_nvm_checksum : Nvm → M (Unit {0})
unfolding sum_loop
validate_nvm_checksum nvm log = elim (sum_loop nvm (checksum_reg + 1) 0 0 log) [
  | done checksum log₁ ↦ if checksum == nvm_sum then done tt log₁ else failed err_nvm log₁
  | failed error log₁ ↦ failed error log₁
]

-- e1000_update_nvm_checksum_generic
unfoldable pub update_nvm_checksum : Nvm → M (Unit {0})
unfolding sum_loop
update_nvm_checksum nvm log = elim (sum_loop nvm checksum_reg 0 0 log) [
  | done checksum log₁ ↦ nvm.write_nvm checksum_reg ((nvm_sum + 2 ^ 16 - checksum) % 2 ^ 16) log₁
  | failed error log₁ ↦ failed error log₁
]

-- e1000_read_part_num_generic
unfoldable pub read_part_num : Nvm → M ℕ
read_part_num nvm = do
  high ← nvm.read_nvm 8
  low ← nvm.read_nvm 9
  λ log. done (high * 2 ^ 16 + low) log

-- e1000_read_mac_addr_generic: the address, which is also the permanent one. `is_second`: the
-- device is the second port (E1000_FUNC_1).
unfoldable pub read_mac_addr : Nvm → (is_second : Bool) → M (ℕ → ℕ)
read_mac_addr nvm is_second = do
  w0 ← nvm.read_nvm 0
  w1 ← nvm.read_nvm 1
  w2 ← nvm.read_nvm 2
  let last = w2 / 2 ^ 8
  let flipped = if last % 2 == 0 then last + 1 else last - 1
  λ log.
      done
        (λ i.
          if i == 0
          then w0 % 2 ^ 8
          else if i == 1
          then w0 / 2 ^ 8
          else if i == 2
          then w1 % 2 ^ 8
          else if i == 3
          then w1 / 2 ^ 8
          else if i == 4
          then w2 % 2 ^ 8
          else if is_second
          then flipped
          else last)
        log

-- A chip whose read works on an EEPROM with at least 64 words, `content log`.
pub record IsReadable (nvm : Nvm) (content : Log → ℕ → ℕ) : Type 0 where
  pub word : (log : Log) (i : ℕ) → content log i < 2 ^ 16
  pub reads :
      (log : Log) (i : ℕ)
      → i < 64
      → (log' : Log) × (nvm.read_nvm i log ≡ done (content log i) log')
        × ((j : ℕ) → content log' j ≡ content log j)

-- A chip whose write works on it.
pub record IsWritable (nvm : Nvm) (content : Log → ℕ → ℕ) : Type 0 where
  pub writes :
      (log : Log) (i v : ℕ)
      → i < 64
      → v < 2 ^ 16
      → (log' : Log) × (nvm.write_nvm i v log ≡ done tt log')
        × ((j : ℕ) → content log' j ≡ (if j == i then v else content log j))

-- The sum of the words `content[i..i + n)`.
pub sum_from : (content : ℕ → ℕ) → (n i : ℕ) → ℕ
sum_from content zero i = 0
sum_from content (suc n) i = content i + sum_from content n (suc i)

sum_from-same :
    (f g : ℕ → ℕ) (n i : ℕ) → ((j : ℕ) → j < i + n → f j ≡ g j) → sum_from f n i ≡ sum_from g n i
unfolding sum_from
sum_from-same f g zero i h = refl
sum_from-same f g (suc n) i h =
    let first = h i (omega arith) in
    omega (arith, sum_from-same f g n (suc i) (λ j l. h j (omega arith)))

sum_from-last : (f : ℕ → ℕ) (n i : ℕ) → sum_from f (suc n) i ≡ sum_from f n i + f (i + n)
unfolding sum_from
sum_from-last f zero i = rw (let e : i + 0 ≡ i = omega arith in e) (omega arith)
sum_from-last f (suc n) i =
    let e : i + suc n ≡ suc i + n = omega arith in rw e (omega (arith, sum_from-last f n (suc i)))

module _ (nvm : Nvm) (content : Log → ℕ → ℕ) (readable : IsReadable nvm content) where
  sum_loop-done :
      (n i checksum : ℕ) (log : Log)
      → i + n ≤ 64
      → checksum < 2 ^ 16
      → (log' : Log) × (sum_loop nvm n i checksum log
          ≡ done ((checksum + sum_from (content log) n i) % 2 ^ 16) log')
        × ((j : ℕ) → content log' j ≡ content log j)
  unfolding sum_loop sum_from
  sum_loop-done zero i checksum log l h = (log, ap (λ c. done c log) (omega arith), λ j. refl)
  sum_loop-done (suc n) i checksum log l h =
      let (log₁, e, same) = readable.reads log i (omega arith) in
      let (log₂, f, same₂) =
        sum_loop-done n (suc i) ((checksum + content log i) % 2 ^ 16) log₁ (omega arith)
          (omega arith) in
      let s = sum_from-same (content log₁) (content log) n (suc i) (λ j m. same j) in
      (log₂, rw (e, sum_loop) (f ∙ ap (λ c. done c log₂) (omega (arith, s))), λ j. same₂ j ∙ same j)

  -- What the loop gives from 0 on.
  sum_loop-total :
      (n : ℕ) (log : Log)
      → n ≤ 64
      → (log' : Log) × (sum_loop nvm n 0 0 log ≡ done (sum_from (content log) n 0 % 2 ^ 16) log')
        × ((j : ℕ) → content log' j ≡ content log j)
  sum_loop-total n log l =
      let (log', e, same) = sum_loop-done n 0 0 log (omega arith) (omega arith) in
      (log', e ∙ ap (λ c. done c log') (omega arith), same)

  -- On a chip whose reads and writes of single words work, behind
  -- e1000_update_nvm_checksum_generic e1000_validate_nvm_checksum_generic succeeds, and all
  -- words but that of the checksum are as before.
  pub update-validate :
      IsWritable nvm content
      → (log : Log)
      → (log₁ : Log) × (update_nvm_checksum nvm log ≡ done tt log₁)
        × ((log₂ : Log) × (validate_nvm_checksum nvm log₁ ≡ done tt log₂))
        × ((j : ℕ) → j ≢ 63 → content log₁ j ≡ content log j)
  unfolding update_nvm_checksum validate_nvm_checksum
  update-validate store log =
      let (log₁, e, same) = sum_loop-total 63 log (omega arith) in
      let sum = sum_from (content log) 63 0 % 2 ^ 16 in
      let v = (nvm_sum + 2 ^ 16 - sum) % 2 ^ 16 in
      let (log₂, f, changed) = store.writes log₁ 63 v (omega arith) (omega arith) in
      let kept : (j : ℕ) → j ≢ 63 → content log₂ j ≡ content log j =
        λ j n. let t : (j == 63) ≡ false = ground arith in (rw t at (changed j)) ∙ same j in
      let (log₃, g, same₃) = sum_loop-total 64 log₂ (omega arith) in
      let front : sum_from (content log₂) 63 0 ≡ sum_from (content log) 63 0 =
        sum_from-same (content log₂) (content log) 63 0 (λ j l. kept j (λ q. omega arith)) in
      let last : sum_from (content log₂) 64 0 ≡ sum_from (content log₂) 63 0 + content log₂ 63 =
        sum_from-last (content log₂) 63 0 in
      let word : content log₂ 63 ≡ v = changed 63 in
      let total : sum_from (content log₂) 64 0 % 2 ^ 16 ≡ nvm_sum = omega arith in
      (log₂, rw (e, update_nvm_checksum) f, (log₃, rw (g, validate_nvm_checksum, total) refl), kept)

  -- On whatever words, e1000_validate_nvm_checksum_generic succeeds exactly if the words up to
  -- that of the checksum add up to NVM_SUM in 16 bits.
  pub validate_iff :
      (log : Log)
      → ((log' : Log) × (validate_nvm_checksum nvm log ≡ done tt log'))
        ↔ (sum_from (content log) 64 0 % 2 ^ 16 ≡ nvm_sum)
  unfolding validate_nvm_checksum
  validate_iff log =
      let (log₁, e, same) = sum_loop-total 64 log (omega arith) in
      let c = sum_from (content log) 64 0 % 2 ^ 16 in
      (
        (λ (log', f). elim (Bool-cases (c == nvm_sum)) [
          | inl t ↦ ground arith
          | inr t ↦ absurd (let q = rw (e, validate_nvm_checksum, t) at f in cc)
        ]),
        λ t. (log₁, rw (e, validate_nvm_checksum, t) refl),
      )
