-- ===== src/Em/Flow.antt =====
-- e1000_mac.c: flow control, from the default of the EEPROM to the bits of the register CTRL.
use rtems_libbsdport.Prelude.{
  ℕ, ◌/◌, ◌%◌, ◌^◌, Bool, true, false, not, ◌&&◌, ◌||◌, ◌==◌, if◌then◌else◌, Option, none, some,
  ◌∷◌,
}
use rtems_libbsdport.Prelude.Words.{is_set, set_bit, clear_bit}
use rtems_libbsdport.Em.{Reg, Op, Log, Board, M, done, failed, ◌>>=◌, err_config}
use rtems_libbsdport.Em.Store.{Nvm}

-- e1000_fc_mode
pub data Mode : Type 0 where
  fc_none fc_rx_pause fc_tx_pause fc_full fc_default : Mode

-- e1000_media_type
pub data Media : Type 0 where
  unknown copper fiber internal_serdes : Media

-- The fields of `struct e1000_mac_info` and `struct e1000_hw` that flow control reads.
pub record Settings : Type 0 where
  pub media_type : Media
  pub autoneg : Bool
  pub autoneg_failed : Bool
  pub original_fc : Mode
  pub fc_strict_ieee : Bool
  pub fc_send_xon : Bool
  pub fc_low_water : ℕ
  pub fc_high_water : ℕ
  pub fc_pause_time : ℕ

-- The functions of the chip that flow control calls: e1000_read_phy_reg, and
-- e1000_get_speed_and_duplex with its two results.
pub record Link : Type 0 where
  pub read_phy_reg : (offset : ℕ) → M ℕ
  pub get_speed_and_duplex : M (ℕ × ℕ)

-- What a function leaves in `mac->fc`, with its error code if there is one.
pub data Ended : Type 0 where
  ended : (error : Option ℕ) → (fc : Mode) → Log → Ended

-- `mac->fc & e1000_fc_tx_pause`; e1000_fc_default is 0xFF.
abbrev pub has_tx_pause : Mode → Bool
has_tx_pause Mode.fc_none = false
has_tx_pause Mode.fc_rx_pause = false
has_tx_pause Mode.fc_tx_pause = true
has_tx_pause Mode.fc_full = true
has_tx_pause Mode.fc_default = true

abbrev pub is_full : Mode → Bool
is_full Mode.fc_full = true
is_full m = false

-- Whether the mode is e1000_fc_none or e1000_fc_tx_pause.
abbrev pub is_none_or_tx : Mode → Bool
is_none_or_tx Mode.fc_none = true
is_none_or_tx Mode.fc_tx_pause = true
is_none_or_tx m = false

abbrev pub is_copper : Media → Bool
is_copper Media.copper = true
is_copper m = false

abbrev pub is_fiber_or_serdes : Media → Bool
is_fiber_or_serdes Media.fiber = true
is_fiber_or_serdes Media.internal_serdes = true
is_fiber_or_serdes m = false

-- e1000_set_fc_watermarks_generic
unfoldable pub set_fc_watermarks : Settings → (fc : Mode) → Log → Log
set_fc_watermarks s fc log =
    let low = if s.fc_send_xon then set_bit s.fc_low_water 31 else s.fc_low_water in
    let fcrtl = if has_tx_pause fc then low else 0 in
    let fcrth = if has_tx_pause fc then s.fc_high_water else 0 in
    Op.wrote Reg.fcrth fcrth ∷ Op.wrote Reg.fcrtl fcrtl ∷ log

-- The mode that the word 0x0F of the EEPROM asks for, by its bits 12 and 13.
abbrev pub nvm_fc : (nvm_data : ℕ) → Mode
nvm_fc nvm_data =
    let pause = nvm_data / 2 ^ 12 % 4 in
    if pause == 0 then Mode.fc_none else if pause == 2 then Mode.fc_tx_pause else Mode.fc_full

-- e1000_set_default_fc_generic
unfoldable pub set_default_fc : Nvm → (fc : Mode) → Log → Ended
set_default_fc nvm Mode.fc_default log = elim (nvm.read_nvm 0x0F log) [
  | done nvm_data log₁ ↦ Ended.ended none (nvm_fc nvm_data) log₁
  | failed error log₁ ↦ Ended.ended (some error) Mode.fc_default log₁
]
set_default_fc nvm fc log = Ended.ended none fc log

-- What e1000_force_mac_fc_generic makes of CTRL: E1000_CTRL_RFCE is bit 27, E1000_CTRL_TFCE bit 28.
abbrev pub with_fc : Mode → (ctrl : ℕ) → Option ℕ
with_fc Mode.fc_none ctrl = some (clear_bit (clear_bit ctrl 28) 27)
with_fc Mode.fc_rx_pause ctrl = some (set_bit (clear_bit ctrl 28) 27)
with_fc Mode.fc_tx_pause ctrl = some (set_bit (clear_bit ctrl 27) 28)
with_fc Mode.fc_full ctrl = some (set_bit (set_bit ctrl 28) 27)
with_fc Mode.fc_default ctrl = none

-- e1000_force_mac_fc_generic
unfoldable pub force_mac_fc : Board → (fc : Mode) → M (Unit {0})
force_mac_fc b fc log =
    let log₁ = Op.did_read Reg.ctrl ∷ log in
    elim (with_fc fc (b log Reg.ctrl)) [
      | none ↦ failed err_config log₁
      | some ctrl ↦ done tt (Op.wrote Reg.ctrl ctrl ∷ log₁)
    ]

-- The word that e1000_commit_fc_settings_generic writes to TXCW.
abbrev pub txcw_of : Mode → Option ℕ
txcw_of Mode.fc_none = some 0x80000020
txcw_of Mode.fc_rx_pause = some 0x800001A0
txcw_of Mode.fc_tx_pause = some 0x80000120
txcw_of Mode.fc_full = some 0x800001A0
txcw_of Mode.fc_default = none

-- e1000_commit_fc_settings_generic: the word, which `mac->txcw` keeps.
unfoldable pub commit_fc_settings : (fc : Mode) → M ℕ
commit_fc_settings fc log = elim (txcw_of fc) [
  | none ↦ failed err_config log
  | some txcw ↦ done txcw (Op.wrote Reg.txcw txcw ∷ log)
]

-- The choice of e1000_config_fc_after_link_up_generic by the two registers of the PHY, whose bits 10
-- and 11 are PAUSE and ASM_DIR.
unfoldable pub resolve : (original_fc : Mode) → (fc_strict_ieee : Bool) → (adv lp : ℕ) → Mode
resolve original_fc fc_strict_ieee adv lp =
    if is_set adv 10 && is_set lp 10
    then (if is_full original_fc then Mode.fc_full else Mode.fc_rx_pause)
    else if not (is_set adv 10) && (is_set adv 11 && (is_set lp 10 && is_set lp 11))
    then Mode.fc_tx_pause
    else if is_set adv 10 && (is_set adv 11 && (not (is_set lp 10) && is_set lp 11))
    then Mode.fc_rx_pause
    else if is_none_or_tx original_fc || fc_strict_ieee
    then Mode.fc_none
    else Mode.fc_rx_pause

-- Its reads of PHY_AUTONEG_ADV and PHY_LP_ABILITY, and before them of PHY_STATUS, whose bit 5 is clear
-- while the negotiation has not completed.
abbrev pub read_abilities : Link → M (Option (ℕ × ℕ))
read_abilities link = do
  adv ← link.read_phy_reg 4
  lp ← link.read_phy_reg 5
  λ log. done (some (adv, lp)) log

unfoldable pub read_partners : Link → M (Option (ℕ × ℕ))
read_partners link = do
  sticky ← link.read_phy_reg 1
  mii_status_reg ← link.read_phy_reg 1
  if is_set mii_status_reg 5 then read_abilities link else λ log. done none log

-- HALF_DUPLEX
abbrev pub half_duplex : ℕ
half_duplex = 1

-- The mode once the duplex of the link is known.
abbrev pub for_duplex : (duplex : ℕ) → Mode → Mode
for_duplex duplex m = if duplex == half_duplex then Mode.fc_none else m

-- The first part of that function.
unfoldable pub force_first : Board → Settings → (fc : Mode) → M (Unit {0})
unfolding force_mac_fc
force_first b s fc log =
    let forced = force_mac_fc b fc log in
    if s.autoneg_failed
    then (if is_fiber_or_serdes s.media_type then forced else done tt log)
    else (if is_copper s.media_type then forced else done tt log)

-- Its end, with the mode that it has chosen.
unfoldable pub finish_fc : Board → Link → (fc : Mode) → Log → Ended
unfolding force_mac_fc
finish_fc b link fc log = elim (link.get_speed_and_duplex log) [
  | failed error log₁ ↦ Ended.ended (some error) fc log₁
  | done sd log₁ ↦
      let fc₁ = for_duplex sd.1 fc in
      elim (force_mac_fc b fc₁ log₁) [
        | failed error log₂ ↦ Ended.ended (some error) fc₁ log₂
        | done u log₂ ↦ Ended.ended none fc₁ log₂
      ]
]

-- Its part for copper with auto-negotiation.
unfoldable pub negotiate_fc : Board → Link → Settings → (fc : Mode) → Log → Ended
unfolding read_partners resolve finish_fc
negotiate_fc b link s fc log = elim (read_partners link log) [
  | failed error log₁ ↦ Ended.ended (some error) fc log₁
  | done r log₁ ↦ elim r [
    | none ↦ Ended.ended none fc log₁
    | some regs ↦ finish_fc b link (resolve s.original_fc s.fc_strict_ieee regs.0 regs.1) log₁
  ]
]

-- e1000_config_fc_after_link_up_generic
unfoldable pub config_fc_after_link_up : Board → Link → Settings → (fc : Mode) → Log → Ended
unfolding force_first negotiate_fc
config_fc_after_link_up b link s fc log = elim (force_first b s fc log) [
  | failed error log₁ ↦ Ended.ended (some error) fc log₁
  | done u log₁ ↦
      if is_copper s.media_type && s.autoneg
      then negotiate_fc b link s fc log₁
      else Ended.ended none fc log₁
]

-- e1000_get_speed_and_duplex_copper_generic: STATUS has the speed in its bits 6 and 7 and the duplex
-- in bit 0.
unfoldable pub get_speed_and_duplex_copper : Board → M (ℕ × ℕ)
get_speed_and_duplex_copper b log =
    let status = b log Reg.status in
    let speed = if is_set status 7 then 1000 else if is_set status 6 then 100 else 10 in
    let duplex = if is_set status 0 then 2 else half_duplex in
    done (speed, duplex) (Op.did_read Reg.status ∷ log)

-- e1000_setup_link_generic. `is_blocked` is e1000_check_reset_block; `setup_physical_interface` is the
-- function of the media, which finds the mode in `mac->original_fc` and in `mac->fc`, and may change the latter.
unfoldable pub setup_link :
    Nvm
    → ((original_fc fc : Mode) → Log → Ended)
    → Settings
    → (is_blocked : Bool) → (fc : Mode) → Log
    → Ended
unfolding set_default_fc set_fc_watermarks
setup_link nvm setup_physical_interface s true fc log = Ended.ended none fc log
setup_link nvm setup_physical_interface s false fc log = elim (set_default_fc nvm fc log) [
  | Ended.ended (some error) fc₁ log₁ ↦ Ended.ended (some error) fc₁ log₁
  | Ended.ended none fc₁ log₁ ↦ elim (setup_physical_interface fc₁ fc₁ log₁) [
    | Ended.ended (some error) fc₂ log₂ ↦ Ended.ended (some error) fc₂ log₂
    | Ended.ended none fc₂ log₂ ↦
        let log₃ : Log =
          Op.wrote Reg.fcttv s.fc_pause_time
          ∷ Op.wrote Reg.fcal 0x00C28001
          ∷ Op.wrote Reg.fcah 0x00000100
          ∷ Op.wrote Reg.fct 0x8808
          ∷ log₂ in
        Ended.ended none fc₂ (set_fc_watermarks s fc₂ log₃)
  ]
]
