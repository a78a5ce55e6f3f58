-- ===== src/Em/Forced.antt =====
-- e1000_mac.c: the checks of a fiber link whose partner does not negotiate.
use rtems_libbsdport.Prelude.{
  ℕ, ◌≡◌, refl, ap, ◌∙◌, true, false, Option, none, some, [], ◌∷◌, arith,
}
use rtems_libbsdport.Prelude.Words.{is_set, set_bit, clear_bit}
use rtems_libbsdport.Prelude.Bits.{is_set-set_bit, is_set-clear_bit}
use rtems_libbsdport.Em.{Reg, Op, Log, Board, done}
use rtems_libbsdport.Em.Flow.{
  Mode, Media, Settings, Link, Ended, force_mac_fc, force_first, config_fc_after_link_up,
}
use rtems_libbsdport.Em.Pause.{receives, sends}
use rtems_libbsdport.Em.Resolved.{is_default, IsForced, force_mac_fc-IsForced}
use rtems_libbsdport.Em.Link.{
  State, Checked, three_reads, forced_log, force_link, give_time, check_for_fiber_link,
}

abbrev over_txcw : Op → Option ℕ → Option ℕ
over_txcw (Op.wrote Reg.txcw v) old = some v
over_txcw op old = old

-- The last word that was written to TXCW.
abbrev pub txcw_in : Log → Option ℕ
txcw_in [] = none
txcw_in (op ∷ log) = over_txcw op (txcw_in log)

-- A signal, but no link, and no partner that negotiates; CTRL reads back SLU and FD.
pub record IsDark (b : Board) : Type 0 where
  pub signal : (log : Log) → is_set (b log Reg.ctrl) 19 ≡ true
  pub down : (log : Log) → is_set (b log Reg.status) 1 ≡ false
  pub idle : (log : Log) → is_set (b log Reg.rxcw) 29 ≡ false
  pub full_back :
      (v : ℕ) (log : Log) → is_set (b (Op.wrote Reg.ctrl v ∷ log) Reg.ctrl) 0 ≡ is_set v 0
  pub link_back :
      (v : ℕ) (log : Log) → is_set (b (Op.wrote Reg.ctrl v ∷ log) Reg.ctrl) 6 ≡ is_set v 6

-- The link is forced up, at full duplex and with the mode of flow control, and auto-negotiation is off.
pub record IsUp (fc : Mode) (log : Log) : Type 0 where
  pub ctrl : ℕ
  pub rest : Log
  pub written : log ≡ (Op.wrote Reg.ctrl ctrl ∷ rest)
  pub link_up : is_set ctrl 6 ≡ true
  pub full_duplex : is_set ctrl 0 ≡ true
  pub receive_bit : is_set ctrl 27 ≡ receives fc
  pub send_bit : is_set ctrl 28 ≡ sends fc
  pub txcw : ℕ
  pub negotiation : txcw_in log ≡ some txcw
  pub no_negotiation : is_set txcw 31 ≡ false

module _ (b : Board) (link : Link) (s : Settings) (txcw : ℕ) (dark : IsDark b)
    (fiber : s.media_type ≡ Media.fiber) where
  config-fiber :
      (fc : Mode) (log log' : Log)
      → force_mac_fc b fc log ≡ done tt log'
      → config_fc_after_link_up b link (record s { autoneg_failed = true }) fc log
        ≡ Ended.ended none fc log'
  unfolding config_fc_after_link_up force_first
  config-fiber fc log log' e =
      let f : force_first b (record s { autoneg_failed = true }) fc log ≡ done tt log' =
        rw fiber e in
      rw (f, config_fc_after_link_up, fiber) refl

  forced-IsUp :
      (fc : Mode) (log log' : Log) → IsForced b fc (forced_log b txcw log) log' → IsUp fc log'
  forced-IsUp fc log log' (v, e, h) =
      let log₁ : Log = Op.wrote Reg.txcw (clear_bit txcw 31) ∷ log in
      let up = set_bit (b log₁ Reg.ctrl) 6 in
      let rest : Log = Op.did_read Reg.ctrl ∷ log₁ in
      let six : is_set (set_bit up 0) 6 ≡ true =
        is_set-set_bit up 0 6 ∙ is_set-set_bit (b log₁ Reg.ctrl) 6 6 in
      let zeroth : is_set (set_bit up 0) 0 ≡ true = is_set-set_bit up 0 0 in
      record {
        ctrl = v;
        rest = Op.did_read Reg.ctrl ∷ forced_log b txcw log;
        written = e;
        link_up =
            h.other_bits 6 (λ q. absurd (omega arith)) (λ q. absurd (omega arith))
            ∙ dark.link_back (set_bit up 0) rest
            ∙ six;
        full_duplex =
            h.other_bits 0 (λ q. absurd (omega arith)) (λ q. absurd (omega arith))
            ∙ dark.full_back (set_bit up 0) rest
            ∙ zeroth;
        receive_bit = h.receive_bit;
        send_bit = h.send_bit;
        txcw = clear_bit txcw 31;
        negotiation = ap txcw_in e;
        no_negotiation = is_set-clear_bit txcw 31 31;
      }

  -- Two checks of e1000_check_for_fiber_link_generic on a fiber with a signal but neither a link nor a
  -- partner that negotiates, for a mode of flow control that is set: the first only gives auto-negotiation time and
  -- writes nothing; the second, after whatever else has been done, turns it off and forces the link up
  -- with the mode of flow control that was asked for.
  pub fiber_link-IsUp :
      (st : State) (log log₁ : Log)
      → st.autoneg_failed ≡ false
      → is_default st.fc ≡ false
      → (check_for_fiber_link b link s txcw st log
          ≡ Checked.checked none (record st { autoneg_failed = true }) (three_reads log))
        × ((log' : Log) × (check_for_fiber_link b link s txcw
                (record st { autoneg_failed = true })
                log₁
              ≡ Checked.checked none (record st { autoneg_failed = true }) log')
            × IsUp st.fc log')
  unfolding check_for_fiber_link give_time force_link
  fiber_link-IsUp st log log₁ first n =
      let (log', e, forced) =
        force_mac_fc-IsForced b st.fc (forced_log b txcw (three_reads log₁)) n in
      let f = config-fiber st.fc (forced_log b txcw (three_reads log₁)) log' e in
      (
        rw
            (
              dark.signal log,
              dark.down (Op.did_read Reg.ctrl ∷ log),
              dark.idle (Op.did_read Reg.status ∷ Op.did_read Reg.ctrl ∷ log),
              first,
            )
            refl,
        (
          log',
          rw
              (
                dark.signal log₁,
                dark.down (Op.did_read Reg.ctrl ∷ log₁),
                dark.idle (Op.did_read Reg.status ∷ Op.did_read Reg.ctrl ∷ log₁),
                f,
                force_link,
              )
              refl,
          forced-IsUp st.fc (three_reads log₁) log' forced,
        ),
      )
