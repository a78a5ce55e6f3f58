-- ===== src/Em/Host.antt =====
-- e1000_manage.c: commands to the firmware through the RAM of the host interface.
-- The CPU is a little-endian one: the first byte of an array is the lowest of a dword.
use rtems_libbsdport.Prelude.{
  ℕ, zero, suc, ◌+◌, ◌-◌, ◌*◌, ◌/◌, ◌%◌, ◌^◌, ltb, ◌==◌, if◌then◌else◌, ◌||◌, ◌∷◌,
}
use rtems_libbsdport.Prelude.Words.{is_set, set_bit}
use rtems_libbsdport.Em.{
  Reg, Op, Log, Board, flush, M, done, failed, ◌>>=◌, ◌>>◌, err_param, err_host_interface_command,
}

-- The sum of the bytes `buffer[0..n)`.
abbrev pub total : (buffer : ℕ → ℕ) → (n : ℕ) → ℕ
total buffer zero = 0
total buffer (suc n) = total buffer n + buffer n

-- e1000_calculate_checksum
unfoldable pub calculate_checksum : (buffer : ℕ → ℕ) → (length : ℕ) → ℕ
calculate_checksum buffer length = (256 - total buffer length % 256) % 256

-- E1000_MNG_DHCP_COMMAND_TIMEOUT
abbrev pub command_timeout : ℕ
command_timeout = 10

-- The polls of e1000_mng_enable_host_if_generic, `n` at most.
unfoldable pub poll_hicr : Board → (n : ℕ) → M (Unit {0})
poll_hicr b zero log = failed err_host_interface_command log
poll_hicr b (suc n) log =
    let rest = poll_hicr b n (Op.did_read Reg.hicr ∷ log) in
    if is_set (b log Reg.hicr) 1 then rest else done tt (Op.did_read Reg.hicr ∷ log)

-- e1000_mng_enable_host_if_generic
unfoldable pub mng_enable_host_if : Board → M (Unit {0})
mng_enable_host_if b log =
    if is_set (b log Reg.hicr) 0
    then poll_hicr b command_timeout (Op.did_read Reg.hicr ∷ log)
    else failed err_host_interface_command (Op.did_read Reg.hicr ∷ log)

-- The dword of four bytes.
abbrev pub dword : (b0 b1 b2 b3 : ℕ) → ℕ
dword b0 b1 b2 b3 = b0 + b1 * 2 ^ 8 + b2 * 2 ^ 16 + b3 * 2 ^ 24

-- `*(tmp + j) = v` in the dword `d`.
abbrev pub set_byte : (d j v : ℕ) → ℕ
set_byte d j v = d % 2 ^ (8 * j) + v * 2 ^ (8 * j) + d / 2 ^ (8 * suc j) * 2 ^ (8 * suc j)

-- The loop over the first bytes, behind `prev_bytes` of the dword: `n` rounds from `j` on, from the
-- byte `p` of the buffer on. It gives the dword and the sum.
unfoldable pub head_loop : (buffer : ℕ → ℕ) → (n j p d sum : ℕ) → ℕ × ℕ
head_loop buffer zero j p d sum = (d, sum)
head_loop buffer (suc n) j p d sum =
    head_loop buffer n (suc j) (suc p) (set_byte d j (buffer p)) ((sum + buffer p) % 256)

-- The loop over `n` whole dwords, to the dwords from `i` on, and the sum behind it.
unfoldable pub dword_loop : (buffer : ℕ → ℕ) → (n i p sum : ℕ) → Log → ℕ × Log
dword_loop buffer zero i p sum log = (sum, log)
dword_loop buffer (suc n) i p sum log =
    let d = dword (buffer p) (buffer (p + 1)) (buffer (p + 2)) (buffer (p + 3)) in
    dword_loop buffer n (suc i) (p + 4)
      ((sum + buffer p + buffer (p + 1) + buffer (p + 2) + buffer (p + 3)) % 256)
      (Op.wrote (Reg.host_if i) d ∷ log)

-- `if (remaining) ...`: what is left of the buffer, filled up with zeros.
unfoldable pub write_tail : (buffer : ℕ → ℕ) → (remaining i p sum : ℕ) → Log → ℕ × Log
write_tail buffer remaining i p sum log =
    let byte : ℕ → ℕ = λ j. if ltb j remaining then buffer (p + j) else 0 in
    if remaining == 0 then (sum, log) else (
      (sum + byte 0 + byte 1 + byte 2 + byte 3) % 256,
      Op.wrote (Reg.host_if i) (dword (byte 0) (byte 1) (byte 2) (byte 3)) ∷ log,
    )

-- The dwords and what is left: `length` bytes from `p` on, to the dwords from `i` on.
unfoldable pub write_whole : (buffer : ℕ → ℕ) → (length i p sum : ℕ) → Log → ℕ × Log
unfolding dword_loop write_tail
write_whole buffer length i p sum log =
    let (sum, log) = dword_loop buffer (length / 4) i p sum log in
    write_tail buffer (length % 4) (i + length / 4) (p + length / 4 * 4) sum log

-- E1000_HI_MAX_MNG_DATA_LENGTH
abbrev pub max_data_length : ℕ
max_data_length = 0x6F8

-- e1000_mng_host_if_write_generic, with `sum` for what `*sum` is before. `length` wraps at 16 bits.
unfoldable pub mng_host_if_write : Board → (buffer : ℕ → ℕ) → (length offset sum : ℕ) → M ℕ
unfolding head_loop write_whole
mng_host_if_write b buffer length offset sum log =
    let prev_bytes = offset % 4 in
    let i = offset / 4 in
    let (d, sum₁) = head_loop buffer (4 - prev_bytes) prev_bytes 0 (b log (Reg.host_if i)) sum in
    let log₁ = Op.wrote (Reg.host_if i) d ∷ Op.did_read (Reg.host_if i) ∷ log in
    let length₁ = (length + 2 ^ 16 - (4 - prev_bytes)) % 2 ^ 16 in
    if (length == 0) || ltb max_data_length (offset + length)
    then failed err_param log
    else if prev_bytes == 0
    then (let (sum₂, log₂) = write_whole buffer length i 0 sum log in done sum₂ log₂)
    else (let (sum₂, log₂) = write_whole buffer length₁ (suc i) (4 - prev_bytes) sum₁ log₁ in
        done sum₂ log₂)

-- `struct e1000_host_mng_command_header`; the reserved fields are 0.
pub record Header : Type 0 where
  pub command_id : ℕ
  pub checksum : ℕ
  pub command_length : ℕ

-- The bytes of the structure.
abbrev pub header_byte : Header → (i : ℕ) → ℕ
header_byte hdr i =
    if i == 0
    then hdr.command_id
    else if i == 1
    then hdr.checksum
    else if i == 6
    then hdr.command_length % 256
    else if i == 7
    then hdr.command_length / 256
    else 0

-- e1000_mng_write_cmd_header_generic
unfoldable pub mng_write_cmd_header : Header → M (Unit {0})
unfolding calculate_checksum
mng_write_cmd_header hdr log =
    let hdr = record hdr { checksum = calculate_checksum (header_byte hdr) 8 } in
    let byte = header_byte hdr in
    let low = Op.wrote (Reg.host_if 0) (dword (byte 0) (byte 1) (byte 2) (byte 3)) in
    let high = Op.wrote (Reg.host_if 1) (dword (byte 4) (byte 5) (byte 6) (byte 7)) in
    done tt (flush (high ∷ flush (low ∷ log)))

-- E1000_WRITE_REG(hw, E1000_HICR, hicr | E1000_HICR_C) behind the read of `hicr`
unfoldable pub raise_command : Board → M (Unit {0})
raise_command b log =
    done tt (Op.wrote Reg.hicr (set_bit (b log Reg.hicr) 1) ∷ Op.did_read Reg.hicr ∷ log)

-- e1000_mng_write_dhcp_info_generic, with E1000_MNG_DHCP_TX_PAYLOAD_CMD and the header's size.
unfoldable pub mng_write_dhcp_info : Board → (buffer : ℕ → ℕ) → (length : ℕ) → M (Unit {0})
unfolding mng_enable_host_if mng_host_if_write mng_write_cmd_header raise_command
mng_write_dhcp_info b buffer length = do
  mng_enable_host_if b
  sum ← mng_host_if_write b buffer length 8 0
  mng_write_cmd_header (record { command_id = 64; checksum = sum; command_length = length })
  raise_command b
