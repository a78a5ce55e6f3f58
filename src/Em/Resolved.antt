-- ===== src/Em/Resolved.antt =====
-- What e1000_config_fc_after_link_up_generic leaves in `mac->fc` and in CTRL.
use rtems_libbsdport.Prelude.{
  ℕ, ◌≤◌, ◌≡◌, refl, ◌∙◌, ◌⊎◌, inl, inr, ◌≢◌, Bool, true, false, ◌==◌, if◌then◌else◌, none, some,
  ◌∷◌, arith, Bool-cases,
}
use rtems_libbsdport.Prelude.Words.{is_set, set_bit, clear_bit}
use rtems_libbsdport.Prelude.Bits.{is_set-set_bit, is_set-clear_bit}
use rtems_libbsdport.Em.{Reg, Op, Log, Board, done, ◌>>=◌}
use rtems_libbsdport.Em.Flow.{
  Mode, Media, Settings, Link, Ended, with_fc, force_mac_fc, half_duplex, read_partners,
  force_first, finish_fc, negotiate_fc, config_fc_after_link_up,
}
use rtems_libbsdport.Em.Pause.{table, adjust, receives, sends, resolve-table}

-- The word `new` enables what the mode does, in the bits 27 (receive) and 28 (send), and is `old` in
-- every other bit.
pub record HasFc (m : Mode) (old new : ℕ) : Type 0 where
  pub receive_bit : is_set new 27 ≡ receives m
  pub send_bit : is_set new 28 ≡ sends m
  pub other_bits : (j : ℕ) → j ≢ 27 → j ≢ 28 → is_set new j ≡ is_set old j

abbrev pub is_default : Mode → Bool
is_default Mode.fc_default = true
is_default m = false

with_fc-HasFc :
    (m : Mode) (old : ℕ)
    → is_default m ≡ false
    → (new : ℕ) × (with_fc m old ≡ some new) × HasFc m old new
with_fc-HasFc Mode.fc_none old n =
    let v = clear_bit old 28 in
    (
      clear_bit v 27,
      refl,
      record {
        receive_bit = is_set-clear_bit v 27 27;
        send_bit = is_set-clear_bit v 27 28 ∙ is_set-clear_bit old 28 28;
        other_bits = λ j a c. ground (arith, is_set-clear_bit v 27 j, is_set-clear_bit old 28 j);
      },
    )
with_fc-HasFc Mode.fc_rx_pause old n =
    let v = clear_bit old 28 in
    (
      set_bit v 27,
      refl,
      record {
        receive_bit = is_set-set_bit v 27 27;
        send_bit = is_set-set_bit v 27 28 ∙ is_set-clear_bit old 28 28;
        other_bits = λ j a c. ground (arith, is_set-set_bit v 27 j, is_set-clear_bit old 28 j);
      },
    )
with_fc-HasFc Mode.fc_tx_pause old n =
    let v = clear_bit old 27 in
    (
      set_bit v 28,
      refl,
      record {
        receive_bit = is_set-set_bit v 28 27 ∙ is_set-clear_bit old 27 27;
        send_bit = is_set-set_bit v 28 28;
        other_bits = λ j a c. ground (arith, is_set-set_bit v 28 j, is_set-clear_bit old 27 j);
      },
    )
with_fc-HasFc Mode.fc_full old n =
    let v = set_bit old 28 in
    (
      set_bit v 27,
      refl,
      record {
        receive_bit = is_set-set_bit v 27 27;
        send_bit = is_set-set_bit v 27 28 ∙ is_set-set_bit old 28 28;
        other_bits = λ j a c. ground (arith, is_set-set_bit v 27 j, is_set-set_bit old 28 j);
      },
    )
with_fc-HasFc Mode.fc_default old n = absurd (ground arith)

table-set : (p a q c : Bool) → is_default (table p a q c) ≡ false
table-set false false q c = refl
table-set false true false c = refl
table-set false true true false = refl
table-set false true true true = refl
table-set true false false c = refl
table-set true false true c = refl
table-set true true true c = refl
table-set true true false false = refl
table-set true true false true = refl

adjust-set :
    (original : Mode) (strict : Bool) (m : Mode)
    → is_default m ≡ false
    → is_default (adjust original strict m) ≡ false
adjust-set original strict Mode.fc_none e = ground arith
adjust-set original strict Mode.fc_rx_pause e = refl
adjust-set original strict Mode.fc_tx_pause e = refl
adjust-set original strict Mode.fc_full e = ground arith
adjust-set original strict Mode.fc_default e = e

module _ (b : Board) where
  -- `log'` is `log` after CTRL has been given the mode.
  abbrev pub IsForced : Mode → (log log' : Log) → Type 0
  IsForced m log log' =
      (v : ℕ) × (log' ≡ (Op.wrote Reg.ctrl v ∷ Op.did_read Reg.ctrl ∷ log))
      × HasFc m (b log Reg.ctrl) v

  pub force_mac_fc-IsForced :
      (m : Mode) (log : Log)
      → is_default m ≡ false
      → (log' : Log) × (force_mac_fc b m log ≡ done tt log') × IsForced m log log'
  unfolding force_mac_fc
  force_mac_fc-IsForced m log n =
      let (v, e, h) = with_fc-HasFc m (b log Reg.ctrl) n in
      let log' : Log = Op.wrote Reg.ctrl v ∷ Op.did_read Reg.ctrl ∷ log in
      (log', rw (e, force_mac_fc) refl, (v, refl, h))

  module _ (link : Link) (regs : ℕ → ℕ) (duplex : ℕ)
      (reads : (offset : ℕ) (log : Log)
        → offset ≤ 31
        → (log' : Log) × (link.read_phy_reg offset log ≡ done (regs offset) log'))
      (gets : (log : Log)
        → (speed : ℕ) × (log' : Log) × (link.get_speed_and_duplex log
            ≡ done (speed, duplex) log')) where
    read_partners-done :
        (log : Log)
        → (log' : Log) × (read_partners link log
            ≡ done (if is_set (regs 1) 5 then some (regs 4, regs 5) else none) log')
    unfolding read_partners
    read_partners-done log =
        let (log₁, e₁) = reads 1 log (omega arith) in
        let (log₂, e₂) = reads 1 log₁ (omega arith) in
        let (log₃, e₃) = reads 4 log₂ (omega arith) in
        let (log₄, e₄) = reads 5 log₃ (omega arith) in
        elim (Bool-cases (is_set (regs 1) 5)) [
          | inl t ↦ (log₄, rw (e₁, read_partners, ◌>>=◌, e₂, t, e₃, e₄) refl)
          | inr t ↦ (log₂, rw (e₁, read_partners, ◌>>=◌, e₂, t) refl)
        ]

    -- The mode that both ends' abilities and the duplex give.
    abbrev pub outcome : Settings → Mode
    outcome s =
        if duplex == half_duplex
        then Mode.fc_none
        else adjust s.original_fc s.fc_strict_ieee (
            table (is_set (regs 4) 10) (is_set (regs 4) 11) (is_set (regs 5) 10)
              (is_set (regs 5) 11))

    abbrev chosen_fc : Mode → Mode
    chosen_fc m = if duplex == half_duplex then Mode.fc_none else m

    finish_fc-IsForced :
        (fc : Mode) (log : Log)
        → is_default fc ≡ false
        → (log₁ log' : Log) × (finish_fc b link fc log ≡ Ended.ended none (chosen_fc fc) log')
          × IsForced (chosen_fc fc) log₁ log'
    unfolding finish_fc
    finish_fc-IsForced fc log n =
        let (speed, log₁, e) = gets log in
        let m : is_default (chosen_fc fc) ≡ false = ground arith in
        let (log', f, forced) = force_mac_fc-IsForced (chosen_fc fc) log₁ m in
        (log₁, log', rw (e, f, finish_fc) refl, forced)

    force_first-copper :
        (s : Settings) (fc : Mode) (log : Log)
        → s.media_type ≡ Media.copper
        → s.autoneg_failed ≡ false
        → force_first b s fc log ≡ force_mac_fc b fc log
    unfolding force_first
    force_first-copper s fc log copper ok = rw (ok, copper) refl

    config-copper :
        (s : Settings) (fc : Mode) (log log₁ : Log)
        → s.media_type ≡ Media.copper
        → s.autoneg ≡ true
        → s.autoneg_failed ≡ false
        → force_mac_fc b fc log ≡ done tt log₁
        → config_fc_after_link_up b link s fc log ≡ negotiate_fc b link s fc log₁
    unfolding config_fc_after_link_up
    config-copper s fc log log₁ copper auto ok e =
        let f : force_first b s fc log ≡ done tt log₁ = force_first-copper s fc log copper ok ∙ e in
        rw (f, config_fc_after_link_up, copper, auto) refl

    negotiate_complete :
        (s : Settings) (fc : Mode) (log : Log)
        → is_set (regs 1) 5 ≡ true
        → (log₁ log' : Log) × (negotiate_fc b link s fc log ≡ Ended.ended none (outcome s) log')
          × IsForced (outcome s) log₁ log'
    unfolding negotiate_fc
    negotiate_complete s fc log t =
        let (log₂, f) = read_partners-done log in
        let m =
          table (is_set (regs 4) 10) (is_set (regs 4) 11) (is_set (regs 5) 10)
            (is_set (regs 5) 11) in
        let set = adjust-set s.original_fc s.fc_strict_ieee m (table-set _ _ _ _) in
        let (log₁, log', e, forced) =
          finish_fc-IsForced (adjust s.original_fc s.fc_strict_ieee m) log₂ set in
        let r = resolve-table s.original_fc s.fc_strict_ieee (regs 4) (regs 5) in
        (log₁, log', rw (f, negotiate_fc, t, r) e, forced)

    negotiate_open :
        (s : Settings) (fc : Mode) (log : Log)
        → is_set (regs 1) 5 ≡ false
        → (log' : Log) × (negotiate_fc b link s fc log ≡ Ended.ended none fc log')
          × (read_partners link log ≡ done none log')
    unfolding negotiate_fc
    negotiate_open s fc log t =
        let (log₂, f) = read_partners-done log in (log₂, rw (f, negotiate_fc, t) refl, rw t at f)

    -- With copper and auto-negotiation that has not failed, a PHY whose registers, speed and duplex can be
    -- read, and a mode that is set,
    -- e1000_config_fc_after_link_up_generic succeeds. If the negotiation has completed, `mac->fc` is the
    -- mode that both ends' abilities and the duplex give, and the last that is done is to enable in CTRL
    -- what it says, the other bits as they were read; if not, `mac->fc` stays, and CTRL has been given it.
    pub config_fc-IsResolved :
        (s : Settings) (fc : Mode) (log : Log)
        → s.media_type ≡ Media.copper
        → s.autoneg ≡ true
        → s.autoneg_failed ≡ false
        → is_default fc ≡ false
        → ((is_set (regs 1) 5 ≡ true)
            × ((log₁ log' : Log) × (config_fc_after_link_up b link s fc log
                  ≡ Ended.ended none (outcome s) log')
                × IsForced (outcome s) log₁ log'))
          ⊎ ((is_set (regs 1) 5 ≡ false)
              × ((log₁ log' : Log) × (config_fc_after_link_up b link s fc log
                    ≡ Ended.ended none fc log')
                  × (read_partners link log₁ ≡ done none log')
                  × IsForced fc log log₁))
    config_fc-IsResolved s fc log copper auto ok n =
        let (log₁, e, forced) = force_mac_fc-IsForced fc log n in
        elim (Bool-cases (is_set (regs 1) 5)) [
          | inl t ↦
              let (log₂, log', f, last) = negotiate_complete s fc log₁ t in
              inl (t, (log₂, log', config-copper s fc log log₁ copper auto ok e ∙ f, last))
          | inr t ↦
              let (log', f, g) = negotiate_open s fc log₁ t in
              inr (t, (log₁, log', config-copper s fc log log₁ copper auto ok e ∙ f, g, forced))
        ]
