-- ===== src/Em/Command.antt =====
-- What e1000_manage.c leaves in the RAM of the host interface for the firmware.
use rtems_libbsdport.Prelude.{
  ℕ, zero, suc, ◌+◌, ◌-◌, ◌*◌, ◌/◌, ◌%◌, ◌<◌, ◌≤◌, ◌≡◌, refl, ◌∙◌, ◌⊎◌, inl, inr, true, false,
  arith, ltb, ◌==◌, Bool-cases, ◌∷◌,
}
use rtems_libbsdport.Prelude.Words.{is_set, set_bit}
use rtems_libbsdport.Em.{
  Reg, Op, Log, Board, flush, Outcome, done, failed, ◌>>=◌, ◌>>◌, err_host_interface_command,
}
use rtems_libbsdport.Em.Reads.{reads, all_reads}
use rtems_libbsdport.Em.Host.{
  total, dword, Header, header_byte, calculate_checksum, poll_hicr, mng_enable_host_if, write_whole,
  mng_host_if_write, mng_write_cmd_header, raise_command, mng_write_dhcp_info,
}
use rtems_libbsdport.Em.Ram.{
  ram, ram_byte, total_from, total-total_from, total_from-append, total_from-same,
  write_whole-IsWritten, write_whole-sum,
}

-- At the poll of HICR behind `k` others, of `n` polls, the command bit (1) is clear.
abbrev pub IsIdle : Board → (n : ℕ) → Log → (k : ℕ) → Type 0
IsIdle b n log k = (k < n) × (is_set (b (reads Reg.hicr k log) Reg.hicr) 1 ≡ false)

-- The command bit is set at all `n` polls.
abbrev pub IsBusy : Board → (n : ℕ) → Log → Type 0
IsBusy b n log = (k : ℕ) → k < n → is_set (b (reads Reg.hicr k log) Reg.hicr) 1 ≡ true

-- What HICR shows if the host interface is ready: the enable bit (0), and then, at one of ten polls,
-- the command bit clear.
abbrev pub IsReady : Board → Log → Type 0
IsReady b log =
    (is_set (b log Reg.hicr) 0 ≡ true) × ((k : ℕ) × IsIdle b 10 (Op.did_read Reg.hicr ∷ log) k)

-- And if it is not: it is disabled, or busy at ten polls.
abbrev pub IsUnready : Board → Log → Type 0
IsUnready b log =
    (is_set (b log Reg.hicr) 0 ≡ false)
    ⊎ ((is_set (b log Reg.hicr) 0 ≡ true) × IsBusy b 10 (Op.did_read Reg.hicr ∷ log))

-- The outcome of the polls and of the whole wait; the RAM is as before.
abbrev IsPolled : Board → (n : ℕ) → Log → Outcome (Unit {0}) → Type 0
IsPolled b n log (done u log') = ((i : ℕ) → ram log' i ≡ ram log i) × ((k : ℕ) × IsIdle b n log k)
IsPolled b n log (failed error log') =
    ((error ≡ err_host_interface_command) × ((i : ℕ) → ram log' i ≡ ram log i)) × IsBusy b n log

abbrev IsWaited : Board → Log → Outcome (Unit {0}) → Type 0
IsWaited b log (done u log') = ((i : ℕ) → ram log' i ≡ ram log i) × IsReady b log
IsWaited b log (failed error log') =
    ((error ≡ err_host_interface_command) × ((i : ℕ) → ram log' i ≡ ram log i)) × IsUnready b log

poll_hicr-IsPolled : (b : Board) (n : ℕ) (log : Log) → IsPolled b n log (poll_hicr b n log)
unfolding poll_hicr
poll_hicr-IsPolled b zero log = ((refl, λ i. refl), λ k l. absurd (omega arith))
poll_hicr-IsPolled b (suc n) log = elim (Bool-cases (is_set (b log Reg.hicr) 1)) [
  | inl e ↦ rw e (
      later e (poll_hicr b n (Op.did_read Reg.hicr ∷ log))
        (poll_hicr-IsPolled b n (Op.did_read Reg.hicr ∷ log)))
  | inr e ↦ rw e ((λ i. refl), (0, (omega arith, e)))
]
  where
    later :
        is_set (b log Reg.hicr) 1 ≡ true
        → (r : Outcome (Unit {0})) → IsPolled b n (Op.did_read Reg.hicr ∷ log) r
        → IsPolled b (suc n) log r
    later e (done u log') (s, (k, (l, f))) = (s, (suc k, (omega arith, f)))
    later e (failed error log') (s, a) =
        (s, all_reads (λ x. is_set (b x Reg.hicr) 1 ≡ true) Reg.hicr n log e a)

enable-IsWaited : (b : Board) (log : Log) → IsWaited b log (mng_enable_host_if b log)
unfolding mng_enable_host_if
enable-IsWaited b log = elim (Bool-cases (is_set (b log Reg.hicr) 0)) [
  | inl e ↦ rw e (
      waited e (poll_hicr b 10 (Op.did_read Reg.hicr ∷ log))
        (poll_hicr-IsPolled b 10 (Op.did_read Reg.hicr ∷ log)))
  | inr e ↦ rw e ((refl, λ i. refl), inl e)
]
  where
    waited :
        is_set (b log Reg.hicr) 0 ≡ true
        → (r : Outcome (Unit {0})) → IsPolled b 10 (Op.did_read Reg.hicr ∷ log) r
        → IsWaited b log r
    waited e (done u log') (s, idle) = (s, (e, idle))
    waited e (failed error log') (s, busy) = (s, inr (e, busy))

-- A command of `length` bytes for the firmware, in the RAM and announced.
pub record IsCommand (buffer : ℕ → ℕ) (length : ℕ) (log : Log) : Type 0 where
  pub id : ram_byte log 0 ≡ 64
  pub size : ram_byte log 6 + 256 * ram_byte log 7 ≡ length
  pub payload : (k : ℕ) → k < length → ram_byte log (8 + k) ≡ buffer k
  pub sums : total (ram_byte log) (8 + length) % 256 ≡ 0
  pub raised : (v : ℕ) × (rest : Log) × (log ≡ Op.wrote Reg.hicr v ∷ rest) × (is_set v 1 ≡ true)

-- Eight bytes of a header with the checksum `c`, and the payload, add up to 0.
block-sums :
    (f buffer : ℕ → ℕ) (length c : ℕ)
    → (f 0 ≡ 64)
      × (f 1 ≡ c)
      × (f 2 ≡ 0)
      × (f 3 ≡ 0)
      × (f 4 ≡ 0)
      × (f 5 ≡ 0)
      × (f 6 ≡ length % 256)
      × (f 7 ≡ length / 256)
    → ((k : ℕ) → k < length → f (8 + k) ≡ buffer k)
    → c ≡ (256 - (64 + total_from buffer 0 length % 256 + length % 256 + length / 256) % 256) % 256
    → total f (8 + length) % 256 ≡ 0
unfolding total_from
block-sums f buffer length c (f0, f1, f2, f3, f4, f5, f6, f7) w e =
    let rest : total_from f 8 length ≡ total_from buffer 0 length =
      total_from-same f buffer 8 0 length
        (λ k h. let z : 0 + k ≡ k = omega arith in rw z (w k h)) in
    let parts = total_from-append f 0 8 length in
    rw (total-total_from f (8 + length), parts, rest, f0, f1, f2, f3, f4, f5, f6, f7) (omega arith)

module _ (b : Board) (buffer : ℕ → ℕ) (bytes : (k : ℕ) → buffer k < 256) (length : ℕ) where
  -- Behind the write of the payload.
  abbrev header : ℕ → Header
  header sum = record { command_id = 64; checksum = sum; command_length = length }

  checksum : ℕ → ℕ
  unfolding calculate_checksum
  checksum sum = calculate_checksum (header_byte (header sum)) 8

  announced : (log₂ : Log) (sum : ℕ) → Log
  announced log₂ sum =
      let log₃ = flush (
        Op.wrote (Reg.host_if 1) (dword 0 0 (length % 256) (length / 256))
        ∷ flush (Op.wrote (Reg.host_if 0) (dword 64 (checksum sum) 0 0) ∷ log₂)) in
      Op.wrote Reg.hicr (set_bit (b log₃ Reg.hicr) 1) ∷ Op.did_read Reg.hicr ∷ log₃

  announced-behind :
      (log₂ : Log) (sum k : ℕ) → ram_byte (announced log₂ sum) (8 + k) ≡ ram_byte log₂ (8 + k)
  unfolding announced
  announced-behind log₂ sum k =
      let e : ((8 + k) / 4 == 1) ≡ false = ground arith in
      let f : ((8 + k) / 4 == 0) ≡ false = ground arith in rw (e, f) refl

  announced-IsCommand :
      (log₂ : Log) (sum : ℕ)
      → length + 8 ≤ 0x6F8
      → sum ≡ total_from buffer 0 length % 256
      → ((k : ℕ) → k < length → ram_byte log₂ (8 + k) ≡ buffer k)
      → IsCommand buffer length (announced log₂ sum)
  unfolding announced checksum
  announced-IsCommand log₂ sum l s w =
      let payload : (k : ℕ) → k < length → ram_byte (announced log₂ sum) (8 + k) ≡ buffer k =
        λ k h. announced-behind log₂ sum k ∙ w k h in
      record {
        id = omega arith;
        size = omega arith;
        payload = payload;
        sums =
            block-sums (ram_byte (announced log₂ sum)) buffer length (checksum sum)
              (
                omega arith,
                omega arith,
                omega arith,
                omega arith,
                omega arith,
                omega arith,
                omega arith,
                omega arith,
              )
              payload (omega arith);
        raised = (_, _, refl, ground arith);
      }

  write-IsCommand :
      (log₁ : Log)
      → 0 < length
      → length + 8 ≤ 0x6F8
      → (log' : Log) × ((mng_host_if_write b buffer length 8 0 >>= λ sum.
              mng_write_cmd_header (header sum) >> raise_command b)
            log₁
          ≡ done tt log')
        × IsCommand buffer length log'
  unfolding mng_host_if_write mng_write_cmd_header raise_command announced checksum
  write-IsCommand log₁ p l =
      let e : (length == 0) ≡ false = ground arith in
      let f : ltb 0x6F8 (8 + length) ≡ false = ground arith in
      let (sum, log₂) = write_whole buffer length 2 0 0 log₁ in
      let w = write_whole-IsWritten buffer bytes length 2 0 0 log₁ in
      let written : mng_host_if_write b buffer length 8 0 log₁ ≡ done sum log₂ = rw (e, f) refl in
      rw (written, ◌>>=◌)
        (
          announced log₂ sum,
          refl,
          announced-IsCommand log₂ sum l
              (write_whole-sum buffer bytes length 2 0 0 log₁ (omega arith) ∙ omega arith)
              (λ k h. w.inside k h ∙ (let z : 0 + k ≡ k = omega arith in rw z refl)),
        )

  -- For a payload that fits, e1000_mng_write_dhcp_info leaves a whole command for the firmware, whose
  -- bytes, the header's with its checksum and the payload's, add up to 0 as bytes, and announces it;
  -- it does so only where HICR has shown the host interface enabled, and idle at one of ten polls. Or
  -- HICR has shown it disabled, or busy at ten polls: then the error says so, and the RAM is as before.
  pub dhcp_info-IsCommand :
      (log : Log)
      → 0 < length
      → length + 8 ≤ 0x6F8
      → ((log' : Log) × (mng_write_dhcp_info b buffer length log ≡ done tt log')
          × IsReady b log
          × IsCommand buffer length log')
        ⊎ ((log' : Log) × (mng_write_dhcp_info b buffer length log
              ≡ failed err_host_interface_command log')
            × IsUnready b log
            × ((i : ℕ) → ram log' i ≡ ram log i))
  unfolding mng_write_dhcp_info
  dhcp_info-IsCommand log p l = go (mng_enable_host_if b log) (enable-IsWaited b log)
    where
      whole : Outcome (Unit {0}) → Outcome (Unit {0})
      whole r =
          ((λ log₀. r)
              >> (mng_host_if_write b buffer length 8 0 >>= λ sum.
                  mng_write_cmd_header (header sum) >> raise_command b))
            log

      go :
          (r : Outcome (Unit {0}))
          → IsWaited b log r
          → ((log' : Log) × (whole r ≡ done tt log') × IsReady b log × IsCommand buffer length log')
            ⊎ ((log' : Log) × (whole r ≡ failed err_host_interface_command log')
                × IsUnready b log
                × ((i : ℕ) → ram log' i ≡ ram log i))
      go (failed error log₁) ((f, g), u) = inr (log₁, rw f refl, u, g)
      go (done u log₁) (same, ready) =
          let (log', f, c) = write-IsCommand log₁ p l in inl (log', f, ready, c)
