-- ===== src/Em/Phy.antt =====
-- e1000_phy.c: the registers of the PHY through MDIC, and what it is told to advertise.
use rtems_libbsdport.Prelude.{
  ℕ, zero, suc, ◌+◌, ◌*◌, ◌%◌, ◌^◌, Bool, true, false, ltb, ◌==◌, if◌then◌else◌, Option, none, some,
  ◌∷◌,
}
use rtems_libbsdport.Prelude.Words.{is_set, set_bit, clear_bit}
use rtems_libbsdport.Em.{
  Reg, Op, Board, M, done, failed, ◌>>=◌, ◌>>◌, err_config, err_phy, err_param,
}
use rtems_libbsdport.Em.Flow.{Mode}

-- The polls of MDIC, `attempts` more, after which bit 28 (E1000_MDIC_READY) must be set: what the last
-- read gave. `mdic` is the value so far.
unfoldable pub poll_mdic : Board → (attempts mdic : ℕ) → M ℕ
poll_mdic b zero mdic log = if is_set mdic 28 then done mdic log else failed err_phy log
poll_mdic b (suc attempts) mdic log =
    let mdic₁ = b log Reg.mdic in
    let log₁ = Op.did_read Reg.mdic ∷ log in
    let rest = poll_mdic b attempts mdic₁ log₁ in if is_set mdic₁ 28 then done mdic₁ log₁ else rest

-- The commands: E1000_MDIC_OP_READ is bit 27, E1000_MDIC_OP_WRITE bit 26.
abbrev pub mdic_read : (addr offset : ℕ) → ℕ
mdic_read addr offset = offset * 2 ^ 16 + addr * 2 ^ 21 + 2 ^ 27

abbrev pub mdic_write : (addr offset data' : ℕ) → ℕ
mdic_write addr offset data' = data' + offset * 2 ^ 16 + addr * 2 ^ 21 + 2 ^ 26

-- e1000_read_phy_reg_mdic; bit 30 is E1000_MDIC_ERROR.
unfoldable pub read_phy_reg_mdic : Board → (addr offset : ℕ) → M ℕ
unfolding poll_mdic
read_phy_reg_mdic b addr offset log =
    if ltb 0x1F offset
    then failed err_param log
    else elim (poll_mdic b 64 (mdic_read addr offset)
        (Op.wrote Reg.mdic (mdic_read addr offset) ∷ log)) [
          | failed error log₁ ↦ failed error log₁
          | done mdic log₁ ↦
              if is_set mdic 30 then failed err_phy log₁ else done (mdic % 2 ^ 16) log₁
        ]

-- e1000_write_phy_reg_mdic
unfoldable pub write_phy_reg_mdic : Board → (addr offset data' : ℕ) → M (Unit {0})
unfolding poll_mdic
write_phy_reg_mdic b addr offset data' log =
    if ltb 0x1F offset
    then failed err_param log
    else elim (poll_mdic b 640 (mdic_write addr offset data')
        (Op.wrote Reg.mdic (mdic_write addr offset data') ∷ log)) [
          | failed error log₁ ↦ failed error log₁
          | done mdic log₁ ↦ done tt log₁
        ]

-- e1000_read_phy_reg and e1000_write_phy_reg, the functions of the chip.
pub record Phy : Type 0 where
  pub read_phy_reg : (offset : ℕ) → M ℕ
  pub write_phy_reg : (offset data' : ℕ) → M (Unit {0})

-- The speeds in the advertisement: `adv` with the bit `k` if `autoneg_advertised` has the bit `j`.
abbrev pub with_speed : (autoneg_advertised j k adv : ℕ) → ℕ
with_speed autoneg_advertised j k adv = if is_set autoneg_advertised j then set_bit adv k else adv

abbrev pub without_speeds : (adv : ℕ) → ℕ
without_speeds adv = clear_bit (clear_bit (clear_bit (clear_bit adv 5) 6) 7) 8

abbrev pub adv_speeds : (autoneg_advertised adv : ℕ) → ℕ
adv_speeds autoneg_advertised adv = with_speed autoneg_advertised 3 8 (
    with_speed autoneg_advertised 2 7
      (with_speed autoneg_advertised 1 6 (with_speed autoneg_advertised 0 5 (without_speeds adv))))

-- The register 9: CR_1000T_HD_CAPS and CR_1000T_FD_CAPS are its bits 8 and 9.
abbrev pub ctrl_speeds : (autoneg_advertised ctrl : ℕ) → ℕ
ctrl_speeds autoneg_advertised ctrl =
    with_speed autoneg_advertised 5 9 (clear_bit (clear_bit ctrl 8) 9)

-- The switch over `mac.fc`: NWAY_AR_PAUSE is bit 10, NWAY_AR_ASM_DIR bit 11.
unfoldable pub advertise_fc : Mode → (adv : ℕ) → Option ℕ
advertise_fc Mode.fc_none adv = some (clear_bit (clear_bit adv 11) 10)
advertise_fc Mode.fc_rx_pause adv = some (set_bit (set_bit adv 11) 10)
advertise_fc Mode.fc_tx_pause adv = some (clear_bit (set_bit adv 11) 10)
advertise_fc Mode.fc_full adv = some (set_bit (set_bit adv 11) 10)
advertise_fc Mode.fc_default adv = none

-- `phy->autoneg_mask & ADVERTISE_1000_FULL`
abbrev pub is_gigabit : (autoneg_mask : ℕ) → Bool
is_gigabit autoneg_mask = is_set autoneg_mask 5

-- The read of the register 9, 0 where it is not read.
abbrev pub read_1000t : Phy → (autoneg_mask : ℕ) → M ℕ
read_1000t phy autoneg_mask =
    if is_gigabit autoneg_mask then phy.read_phy_reg 9 else λ log. done 0 log

abbrev pub write_1000t : Phy → (autoneg_mask ctrl : ℕ) → M (Unit {0})
write_1000t phy autoneg_mask ctrl =
    if is_gigabit autoneg_mask then phy.write_phy_reg 9 ctrl else λ log. done tt log

-- e1000_phy_setup_autoneg for the `autoneg_advertised` that its first line has masked.
unfoldable pub phy_setup_autoneg :
    Phy → (autoneg_mask autoneg_advertised : ℕ) → (fc : Mode) → M (Unit {0})
unfolding advertise_fc
phy_setup_autoneg phy autoneg_mask autoneg_advertised fc = do
  adv ← phy.read_phy_reg 4
  ctrl ← read_1000t phy autoneg_mask
  elim (advertise_fc fc (adv_speeds autoneg_advertised adv)) [
    | none ↦ λ log. failed err_config log
    | some adv₁ ↦
        phy.write_phy_reg 4 adv₁
        >> write_1000t phy autoneg_mask (ctrl_speeds autoneg_advertised ctrl)
  ]

-- The loop of e1000_wait_autoneg_generic; false: it has not completed in time, which is no error.
unfoldable pub wait_autoneg : Phy → (i : ℕ) → M Bool
wait_autoneg phy zero log = done false log
wait_autoneg phy (suc i) log = elim (phy.read_phy_reg 1 log) [
  | failed error log₁ ↦ failed error log₁
  | done sticky log₁ ↦ elim (phy.read_phy_reg 1 log₁) [
    | failed error log₂ ↦ failed error log₂
    | done phy_status log₂ ↦
        let rest = wait_autoneg phy i log₂ in if is_set phy_status 5 then done true log₂ else rest
  ]
]

-- e1000_phy_has_link_generic where no read fails: `*success`.
unfoldable pub phy_has_link : Phy → (iterations : ℕ) → M Bool
phy_has_link phy zero log = done false log
phy_has_link phy (suc iterations) log = elim (phy.read_phy_reg 1 log) [
  | failed error log₁ ↦ failed error log₁
  | done sticky log₁ ↦ elim (phy.read_phy_reg 1 log₁) [
    | failed error log₂ ↦ failed error log₂
    | done phy_status log₂ ↦
        let rest = phy_has_link phy iterations log₂ in
        if is_set phy_status 2 then done true log₂ else rest
  ]
]

-- e1000_copper_link_autoneg for `masked`, the `autoneg_advertised` that its first line has masked:
-- it writes PHY_CONTROL with MII_CR_AUTO_NEG_EN and MII_CR_RESTART_AUTO_NEG, bits 12 and 9.
unfoldable pub copper_link_autoneg :
    Phy → (wait_for_link : Bool) → (autoneg_mask masked : ℕ) → (fc : Mode) → M (Unit {0})
unfolding phy_setup_autoneg wait_autoneg
copper_link_autoneg phy wait_for_link autoneg_mask masked fc = do
  phy_setup_autoneg phy autoneg_mask (if masked == 0 then autoneg_mask else masked) fc
  phy_ctrl ← phy.read_phy_reg 0
  phy.write_phy_reg 0 (set_bit (set_bit phy_ctrl 12) 9)
  if wait_for_link then wait_autoneg phy 45 >> (λ log. done tt log) else λ log. done tt log
