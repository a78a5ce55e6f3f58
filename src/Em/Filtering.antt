-- ===== src/Em/Filtering.antt =====
-- e1000_manage.c: whether packets to send are filtered for the firmware, and whether it gets ARPs.
use rtems_libbsdport.Prelude.{
  ℕ, ◌+◌, ◌*◌, ◌/◌, ◌%◌, ◌^◌, ◌≡◌, ◌<◌, true, false, Bool, not, ◌&&◌, ◌||◌, arith, ◌==◌,
  if◌then◌else◌, Bool-cases, inl, inr, ◌⊎◌, ◌∷◌,
}
use rtems_libbsdport.Prelude.Words.{is_set}
use rtems_libbsdport.Em.{Reg, Op, Log, Board, done, failed, Outcome-cases}
use rtems_libbsdport.Em.Host.{total, calculate_checksum, mng_enable_host_if}
use rtems_libbsdport.Em.Ram.{byte_of}

-- `(fwsm & E1000_FWSM_MODE_MASK) == mode << E1000_FWSM_MODE_SHIFT`
abbrev has_mode : (fwsm mode : ℕ) → Bool
has_mode fwsm mode = fwsm / 2 % 8 == mode

-- e1000_check_mng_mode_generic: E1000_MNG_IAMT_MODE
unfoldable pub check_mng_mode : Board → Log → Bool
check_mng_mode b log = has_mode (b log Reg.fwsm) 3

-- The sixteen bytes of `struct e1000_host_mng_dhcp_cookie` as the loop reads them, and the log
-- behind it.
abbrev pub cookie_log : Log → (n : ℕ) → Log
cookie_log log n = Op.did_read (Reg.host_if (444 + n)) ∷ log

abbrev pub cookie : Board → Log → (k : ℕ) → ℕ
cookie b log k =
    let log₁ = cookie_log log 0 in
    let log₂ = cookie_log log₁ 1 in
    let log₃ = cookie_log log₂ 2 in
    byte_of
      (if k / 4 == 0
        then b log (Reg.host_if 444)
        else if k / 4 == 1
        then b log₁ (Reg.host_if 445)
        else if k / 4 == 2
        then b log₂ (Reg.host_if 446)
        else b log₃ (Reg.host_if 447))
      (k % 4)

-- `*hdr` with `hdr->checksum = 0`
abbrev pub without_checksum : (ℕ → ℕ) → ℕ → ℕ
without_checksum hdr k = if k == 15 then 0 else hdr k

-- The tests of the cookie: E1000_IAMT_SIGNATURE, and E1000_MNG_DHCP_COOKIE_STATUS_PARSING.
unfoldable pub cookie_filters : (hdr : ℕ → ℕ) → Bool
unfolding calculate_checksum
cookie_filters hdr =
    let signature = hdr 0 + hdr 1 * 2 ^ 8 + hdr 2 * 2 ^ 16 + hdr 3 * 2 ^ 24 in
    if not (hdr 15 == calculate_checksum (without_checksum hdr) 16)
    then true
    else if not (signature == 0x544D4149)
    then true
    else is_set (hdr 4) 0

-- e1000_enable_tx_pkt_filtering_generic
unfoldable pub enable_tx_pkt_filtering : Board → Log → Bool
unfolding check_mng_mode mng_enable_host_if cookie_filters
enable_tx_pkt_filtering b log =
    if check_mng_mode b log
    then elim (mng_enable_host_if b (Op.did_read Reg.fwsm ∷ log)) [
      | failed error log₁ ↦ false
      | done u log₁ ↦ cookie_filters (cookie b log₁)
    ]
    else false

-- e1000_enable_mng_pass_thru
unfoldable pub enable_mng_pass_thru :
    Board → (asf_firmware_present arc_subsystem_valid : Bool) → Log → Bool
enable_mng_pass_thru b asf_firmware_present arc_subsystem_valid log =
    let manc = b log Reg.manc in
    let log₁ = Op.did_read Reg.manc ∷ log in
    let fwsm = b log₁ Reg.fwsm in
    let factps = b (Op.did_read Reg.fwsm ∷ log₁) Reg.factps in
    if not asf_firmware_present
    then false
    else if not (is_set manc 17) || not (is_set manc 20)
    then false
    else if arc_subsystem_valid
    then not (is_set factps 29) && has_mode fwsm 2
    else is_set manc 0 && not (is_set manc 1)

-- The cookie is whole: its bytes add up to 0, and it begins with "IAMT".
abbrev IsWhole : (hdr : ℕ → ℕ) → Type 0
IsWhole hdr =
    (total hdr 16 % 256 ≡ 0)
    × (hdr 0 + hdr 1 * 2 ^ 8 + hdr 2 * 2 ^ 16 + hdr 3 * 2 ^ 24 ≡ 0x544D4149)

cookie_filters-IsWhole :
    (hdr : ℕ → ℕ)
    → hdr 15 < 256
    → cookie_filters hdr ≡ false
    → IsWhole hdr × (is_set (hdr 4) 0 ≡ false)
unfolding cookie_filters
cookie_filters-IsWhole hdr l h = ground arith

byte_of-lt : (d j : ℕ) → byte_of d j < 256
byte_of-lt d j = ground arith

-- Packets to send go unfiltered only where the firmware's mode does not ask for it, where the host
-- interface is disabled or busy, or where the cookie is whole, adds up to 0, and says so.
pub tx_filtering_off :
    (b : Board) (log : Log)
    → enable_tx_pkt_filtering b log ≡ false
    → (check_mng_mode b log ≡ false)
      ⊎ (((error : ℕ) × (log₁ : Log) × (mng_enable_host_if b (Op.did_read Reg.fwsm ∷ log)
              ≡ failed error log₁))
          ⊎ ((log₁ : Log) × (mng_enable_host_if b (Op.did_read Reg.fwsm ∷ log) ≡ done tt log₁)
              × IsWhole (cookie b log₁)
              × (is_set (cookie b log₁ 4) 0 ≡ false)))
unfolding enable_tx_pkt_filtering
tx_filtering_off b log h = elim (Bool-cases (check_mng_mode b log)) [
  | inl e ↦ elim (Outcome-cases (mng_enable_host_if b (Op.did_read Reg.fwsm ∷ log))) [
    | inl (u, log₁, f) ↦
        let off : cookie_filters (cookie b log₁) ≡ false = rw (e, f) at h in
        let (w, n) = cookie_filters-IsWhole (cookie b log₁) (byte_of-lt _ 3) off in
        inr (inr (log₁, f, w, n))
    | inr (error, log₁, f) ↦ inr (inl (error, log₁, f))
  ]
  | inr e ↦ inl e
]
