-- ===== src/Em/Link.antt =====
-- e1000_mac.c: the checks of the link on fiber and serdes, its set-up there, and the collision distance.
use rtems_libbsdport.Prelude.{
  ℕ, zero, suc, ◌+◌, ◌-◌, ◌*◌, ◌/◌, ◌%◌, ◌^◌, Bool, true, false, not, ◌&&◌, ◌||◌, if◌then◌else◌,
  Option, none, some, ◌∷◌,
}
use rtems_libbsdport.Prelude.Words.{is_set, set_bit, clear_bit}
use rtems_libbsdport.Em.{Reg, Op, Log, Board, flush, done, failed}
use rtems_libbsdport.Em.Flow.{
  Mode, Media, Settings, Link, Ended, config_fc_after_link_up, commit_fc_settings,
}

-- The fields of `struct e1000_mac_info` that the checks change.
pub record State : Type 0 where
  pub fc : Mode
  pub autoneg_failed : Bool
  pub serdes_has_link : Bool

-- What a check leaves, with its error code if there is one.
pub data Checked : Type 0 where
  checked : (error : Option ℕ) → State → Log → Checked

-- The reads of CTRL, STATUS and RXCW that a check begins with.
abbrev pub three_reads : Log → Log
three_reads log = Op.did_read Reg.rxcw ∷ Op.did_read Reg.status ∷ Op.did_read Reg.ctrl ∷ log

abbrev pub status_of : Board → Log → ℕ
status_of b log = b (Op.did_read Reg.ctrl ∷ log) Reg.status

abbrev pub rxcw_of : Board → Log → ℕ
rxcw_of b log = b (Op.did_read Reg.status ∷ Op.did_read Reg.ctrl ∷ log) Reg.rxcw

-- No link (E1000_STATUS_LU, bit 1), and nothing received that asks for auto-negotiation (E1000_RXCW_C,
-- bit 29).
abbrev pub is_silent : Board → Log → Bool
is_silent b log = not (is_set (status_of b log) 1) && not (is_set (rxcw_of b log) 29)

-- Auto-negotiation off (E1000_TXCW_ANE, bit 31), the link forced up at full duplex (E1000_CTRL_SLU and
-- E1000_CTRL_FD, bits 6 and 0), and flow control with it. `txcw` is `mac->txcw`.
abbrev pub forced_log : Board → (txcw : ℕ) → Log → Log
forced_log b txcw log =
    let log₁ : Log = Op.wrote Reg.txcw (clear_bit txcw 31) ∷ log in
    Op.wrote Reg.ctrl (set_bit (set_bit (b log₁ Reg.ctrl) 6) 0) ∷ Op.did_read Reg.ctrl ∷ log₁

unfoldable pub force_link : Board → Link → Settings → (txcw : ℕ) → State → Log → Checked
unfolding config_fc_after_link_up
force_link b link s txcw st log =
    elim (config_fc_after_link_up b link (record s { autoneg_failed = st.autoneg_failed }) st.fc
      (forced_log b txcw log)) [
        | Ended.ended error fc log₁ ↦ Checked.checked error (record st { fc = fc }) log₁
      ]

-- Auto-negotiation on again, and the link no longer forced.
abbrev pub stop_forcing : (txcw ctrl : ℕ) → State → Log → Checked
stop_forcing txcw ctrl st log =
    Checked.checked none (record st { serdes_has_link = true })
      (Op.wrote Reg.ctrl (clear_bit ctrl 6) ∷ Op.wrote Reg.txcw txcw ∷ log)

-- The first time without a link, auto-negotiation is given time.
unfoldable pub give_time : Board → Link → Settings → (txcw : ℕ) → State → Log → Checked
unfolding force_link
give_time b link s txcw st log =
    if st.autoneg_failed
    then force_link b link s txcw st log
    else Checked.checked none (record st { autoneg_failed = true }) log

-- e1000_check_for_fiber_link_generic; E1000_CTRL_SWDPIN1, the signal, is bit 19.
unfoldable pub check_for_fiber_link : Board → Link → Settings → (txcw : ℕ) → State → Log → Checked
unfolding give_time
check_for_fiber_link b link s txcw st log =
    let ctrl = b log Reg.ctrl in
    let log₁ = three_reads log in
    if is_set ctrl 19 && is_silent b log
    then give_time b link s txcw st log₁
    else if is_set ctrl 6 && is_set (rxcw_of b log) 29
    then stop_forcing txcw ctrl st log₁
    else Checked.checked none st log₁

-- The last branch of e1000_check_for_serdes_link_generic, which reads TXCW: without auto-negotiation
-- the link is there while E1000_RXCW_SYNCH (30) is and E1000_RXCW_IV (27) was not.
abbrev pub look_at_synch : Board → (rxcw : ℕ) → State → Log → Checked
look_at_synch b rxcw st log =
    let log₁ = Op.did_read Reg.txcw ∷ log in
    let log₂ = Op.did_read Reg.rxcw ∷ log₁ in
    let there = if is_set rxcw 27 then st.serdes_has_link else true in
    if is_set (b log Reg.txcw) 31
    then Checked.checked none st log₁
    else Checked.checked none
        (record st { serdes_has_link = if is_set (b log₁ Reg.rxcw) 30 then there else false }) log₂

-- Its end: with auto-negotiation the link is there while E1000_STATUS_LU is.
abbrev pub look_at_status : Board → Checked → Checked
look_at_status b (Checked.checked (some error) st log) = Checked.checked (some error) st log
look_at_status b (Checked.checked none st log) =
    let log₁ = Op.did_read Reg.txcw ∷ log in
    if is_set (b log Reg.txcw) 31
    then Checked.checked none (record st { serdes_has_link = is_set (b log₁ Reg.status) 1 })
        (Op.did_read Reg.status ∷ log₁)
    else Checked.checked none st log₁

-- e1000_check_for_serdes_link_generic, which returns at once where it gives auto-negotiation time.
unfoldable pub check_for_serdes_link : Board → Link → Settings → (txcw : ℕ) → State → Log → Checked
unfolding force_link
check_for_serdes_link b link s txcw st log =
    let ctrl = b log Reg.ctrl in
    let log₁ = three_reads log in
    if is_silent b log
    then (if st.autoneg_failed
        then look_at_status b (force_link b link s txcw st log₁)
        else Checked.checked none (record st { autoneg_failed = true }) log₁)
    else if is_set ctrl 6 && is_set (rxcw_of b log) 29
    then look_at_status b (stop_forcing txcw ctrl st log₁)
    else look_at_status b (look_at_synch b (rxcw_of b log) st log₁)

-- e1000_config_collision_dist_generic: E1000_TCTL_COLD, ten bits from bit 12 on, gets 63.
unfoldable pub config_collision_dist : Board → Log → Log
config_collision_dist b log =
    let tctl = b log Reg.tctl in
    flush (
      Op.wrote Reg.tctl (tctl - tctl / 2 ^ 12 % 2 ^ 10 * 2 ^ 12 + 63 * 2 ^ 12)
      ∷ Op.did_read Reg.tctl
      ∷ log)

-- The loop of e1000_poll_fiber_serdes_link_generic, `n` reads at most: whether the link came up.
unfoldable pub link_loop : Board → (n : ℕ) → Log → Bool × Log
link_loop b zero log = (false, log)
link_loop b (suc n) log =
    let log₁ = Op.did_read Reg.status ∷ log in
    let rest = link_loop b n log₁ in if is_set (b log Reg.status) 1 then (true, log₁) else rest

-- e1000_poll_fiber_serdes_link_generic; `check` is e1000_check_for_link.
unfoldable pub poll_fiber_serdes_link :
    Board → (check : State → Log → Checked) → State → Log → Checked
unfolding link_loop
poll_fiber_serdes_link b check st log =
    let (up, log₁) = link_loop b 50 log in
    if up
    then Checked.checked none (record st { autoneg_failed = false }) log₁
    else elim (check (record st { autoneg_failed = true }) log₁) [
      | Checked.checked error st₁ log₂ ↦ elim error [
        | none ↦ Checked.checked none (record st₁ { autoneg_failed = false }) log₂
        | some e ↦ Checked.checked (some e) st₁ log₂
      ]
    ]

abbrev is_serdes : Media → Bool
is_serdes Media.internal_serdes = true
is_serdes m = false

-- e1000_setup_fiber_serdes_link_generic; E1000_CTRL_LRST is bit 3. `check` is
-- e1000_check_for_link, which finds the word written to TXCW in `mac->txcw`.
unfoldable pub setup_fiber_serdes_link :
    Board → (check : (txcw : ℕ) → State → Log → Checked) → Media → State → Log → Checked
unfolding config_collision_dist commit_fc_settings poll_fiber_serdes_link
setup_fiber_serdes_link b check media_type st log =
    let ctrl = clear_bit (b log Reg.ctrl) 3 in
    elim (commit_fc_settings st.fc (config_collision_dist b (Op.did_read Reg.ctrl ∷ log))) [
      | failed error log₁ ↦ Checked.checked (some error) st log₁
      | done txcw log₁ ↦
          let log₂ = flush (Op.wrote Reg.ctrl ctrl ∷ log₁) in
          let log₃ = if is_serdes media_type then log₂ else (Op.did_read Reg.ctrl ∷ log₂) in
          if is_serdes media_type || is_set (b log₂ Reg.ctrl) 19
          then poll_fiber_serdes_link b (check txcw) st log₃
          else Checked.checked none st log₃
    ]
