-- ===== src/Em/Pause.antt =====
-- Flow control of e1000_mac.c and e1000_phy.c against the table of IEEE 802.3, and both ends of a link
-- that run it.
use rtems_libbsdport.Prelude.{
  ℕ, ◌≡◌, refl, sym, ap, subst, ◌∙◌, ◌≢◌, Bool, true, false, not, ◌&&◌, ◌||◌, if◌then◌else◌, some,
  arith, ◌==◌, Bool-cases, inl, inr,
}
use mathlib.Core.Option.{some-injective, none-ne-some}
use rtems_libbsdport.Prelude.Words.{is_set, set_bit, clear_bit}
use rtems_libbsdport.Prelude.Bits.{is_set-set_bit, is_set-clear_bit}
use rtems_libbsdport.Em.Flow.{Mode, half_duplex, for_duplex, resolve, is_full, is_none_or_tx}
use rtems_libbsdport.Em.Phy.{advertise_fc}

-- The table: PAUSE and ASM_DIR of the local device, and of its link partner.
abbrev pub table : (pause asm_dir lp_pause lp_asm_dir : Bool) → Mode
table false false lp_pause lp_asm_dir = Mode.fc_none
table false true false lp_asm_dir = Mode.fc_none
table false true true false = Mode.fc_none
table false true true true = Mode.fc_tx_pause
table true false false lp_asm_dir = Mode.fc_none
table true false true lp_asm_dir = Mode.fc_full
table true true true lp_asm_dir = Mode.fc_full
table true true false false = Mode.fc_none
table true true false true = Mode.fc_rx_pause

-- What the driver makes of the table's mode: symmetric flow control only if it was asked for, and none
-- only if the driver is strict or was not asked to receive.
abbrev pub adjust : (original_fc : Mode) → (fc_strict_ieee : Bool) → Mode → Mode
adjust original strict Mode.fc_full = if is_full original then Mode.fc_full else Mode.fc_rx_pause
adjust original strict Mode.fc_none =
    if is_none_or_tx original || strict then Mode.fc_none else Mode.fc_rx_pause
adjust original strict m = m

abbrev choose :
    (original_fc : Mode) → (fc_strict_ieee pause asm_dir lp_pause lp_asm_dir : Bool) → Mode
choose original strict p a q c =
    if p && q
    then (if is_full original then Mode.fc_full else Mode.fc_rx_pause)
    else if not p && (a && (q && c))
    then Mode.fc_tx_pause
    else if p && (a && (not q && c))
    then Mode.fc_rx_pause
    else if is_none_or_tx original || strict
    then Mode.fc_none
    else Mode.fc_rx_pause

choose-table :
    (original : Mode) (strict p a q c : Bool)
    → choose original strict p a q c ≡ adjust original strict (table p a q c)
choose-table original strict false false false false = refl
choose-table original strict false false false true = refl
choose-table original strict false false true false = refl
choose-table original strict false false true true = refl
choose-table original strict false true false c = refl
choose-table original strict false true true false = refl
choose-table original strict false true true true = refl
choose-table original strict true false false false = refl
choose-table original strict true false false true = refl
choose-table original strict true false true c = refl
choose-table original strict true true false false = refl
choose-table original strict true true false true = refl
choose-table original strict true true true c = refl

-- The mode that e1000_config_fc_after_link_up_generic chooses is that of the table of IEEE 802.3 for
-- the bits PAUSE and ASM_DIR of both ends, but for two of the table's results.
pub resolve-table :
    (original : Mode) (strict : Bool) (adv lp : ℕ)
    → resolve original strict adv lp
      ≡ adjust original strict (table (is_set adv 10) (is_set adv 11) (is_set lp 10) (is_set lp 11))
unfolding resolve
resolve-table original strict adv lp =
    choose-table original strict (is_set adv 10) (is_set adv 11) (is_set lp 10) (is_set lp 11)

-- What a mode has the device do.
abbrev pub receives : Mode → Bool
receives Mode.fc_rx_pause = true
receives Mode.fc_full = true
receives m = false

abbrev pub sends : Mode → Bool
sends Mode.fc_tx_pause = true
sends Mode.fc_full = true
sends m = false

abbrev pub is_none : Mode → Bool
is_none Mode.fc_none = true
is_none m = false

abbrev IsAdvertised : Mode → ℕ → Type 0
IsAdvertised x adv' = (is_set adv' 10 ≡ receives x) × (is_set adv' 11 ≡ (receives x || sends x))

advertise_fc-bits : (x : Mode) (adv adv' : ℕ) → advertise_fc x adv ≡ some adv' → IsAdvertised x adv'
unfolding advertise_fc
advertise_fc-bits Mode.fc_none adv adv' e =
    let v = clear_bit adv 11 in
    subst (IsAdvertised Mode.fc_none) (some-injective (clear_bit v 10) adv' e)
      (is_set-clear_bit v 10 10, is_set-clear_bit v 10 11 ∙ is_set-clear_bit adv 11 11)
advertise_fc-bits Mode.fc_rx_pause adv adv' e =
    let v = set_bit adv 11 in
    subst (IsAdvertised Mode.fc_rx_pause) (some-injective (set_bit v 10) adv' e)
      (is_set-set_bit v 10 10, is_set-set_bit v 10 11 ∙ is_set-set_bit adv 11 11)
advertise_fc-bits Mode.fc_tx_pause adv adv' e =
    let v = set_bit adv 11 in
    subst (IsAdvertised Mode.fc_tx_pause) (some-injective (clear_bit v 10) adv' e)
      (is_set-clear_bit v 10 10, is_set-clear_bit v 10 11 ∙ is_set-set_bit adv 11 11)
advertise_fc-bits Mode.fc_full adv adv' e =
    let v = set_bit adv 11 in
    subst (IsAdvertised Mode.fc_full) (some-injective (set_bit v 10) adv' e)
      (is_set-set_bit v 10 10, is_set-set_bit v 10 11 ∙ is_set-set_bit adv 11 11)
advertise_fc-bits Mode.fc_default adv adv' e = absurd (none-ne-some adv' e)

-- What an end that was asked for `x` makes of the bits `q` and `q || r` of its partner.
abbrev chosen : (x : Mode) (strict q r : Bool) → Mode
chosen x strict q r = adjust x strict (table (receives x) (receives x || sends x) q (q || r))

abbrev IsAsked : Mode → Type 0
IsAsked x = x ≢ Mode.fc_default

sends-chosen :
    (x : Mode) (strict q r : Bool) → IsAsked x → sends (chosen x strict q r) ≡ (sends x && q)
sends-chosen Mode.fc_none strict q r a = refl
sends-chosen Mode.fc_rx_pause strict false false a = ground arith
sends-chosen Mode.fc_rx_pause strict false true a = refl
sends-chosen Mode.fc_rx_pause strict true r a = refl
sends-chosen Mode.fc_tx_pause strict false r a = refl
sends-chosen Mode.fc_tx_pause strict true r a = refl
sends-chosen Mode.fc_full strict false false a = ground arith
sends-chosen Mode.fc_full strict false true a = refl
sends-chosen Mode.fc_full strict true r a = refl
sends-chosen Mode.fc_default strict q r a = absurd (a refl)

receives-chosen :
    (x : Mode) (strict q r : Bool)
    → IsAsked x
    → receives (chosen x strict q r) ≡ (receives x && ((q || r) || not strict))
receives-chosen Mode.fc_none strict q r a = refl
receives-chosen Mode.fc_rx_pause true false false a = refl
receives-chosen Mode.fc_rx_pause false false false a = refl
receives-chosen Mode.fc_rx_pause strict false true a = refl
receives-chosen Mode.fc_rx_pause strict true r a = refl
receives-chosen Mode.fc_tx_pause strict false r a = refl
receives-chosen Mode.fc_tx_pause strict true r a = refl
receives-chosen Mode.fc_full true false false a = refl
receives-chosen Mode.fc_full false false false a = refl
receives-chosen Mode.fc_full strict false true a = refl
receives-chosen Mode.fc_full strict true r a = refl
receives-chosen Mode.fc_default strict q r a = absurd (a refl)

advertise_fc-IsAsked : (x : Mode) (adv adv' : ℕ) → advertise_fc x adv ≡ some adv' → IsAsked x
unfolding advertise_fc
advertise_fc-IsAsked x adv adv' e d =
    absurd (none-ne-some adv' (sym (ap (λ m. advertise_fc m adv) d) ∙ e))

-- The choices before the duplex is known.
full_duplex :
    (x y : Mode) (strict strict' : Bool) (adv lp adv' lp' : ℕ)
    → advertise_fc x adv ≡ some adv'
    → advertise_fc y lp ≡ some lp'
    → (sends (resolve x strict adv' lp') ≡ (sends x && receives y))
      × (receives (resolve x strict adv' lp')
          ≡ (receives x && ((receives y || sends y) || not strict)))
      × (sends (resolve x strict adv' lp') ≡ true → receives (resolve y strict' lp' adv') ≡ true)
full_duplex x y strict strict' adv lp adv' lp' e f =
    let (p, a) = advertise_fc-bits x adv adv' e in
    let (q, c) = advertise_fc-bits y lp lp' f in
    let d = advertise_fc-IsAsked x adv adv' e in
    let d' = advertise_fc-IsAsked y lp lp' f in
    let s = sends-chosen x strict (receives y) (sends y) d in
    let r = receives-chosen x strict (receives y) (sends y) d in
    let r' = receives-chosen y strict' (receives x) (sends x) d' in
    rw (resolve-table x strict adv' lp', resolve-table y strict' lp' adv', p, a, q, c)
      (s, r, λ t. ground (arith, s, r', t))

-- Two ends of a link each advertise the mode that they were asked for, by e1000_phy_setup_autoneg,
-- choose by what the other advertised, and turn flow control off at half duplex, as
-- e1000_config_fc_after_link_up_generic does. With the same duplex at both ends, at full duplex each
-- sends pause frames if and only if it was asked to and the other was asked to receive them, and
-- receives them if and only if it was asked to and the other was asked for some flow control, or it
-- is not strict; at half duplex it does neither. So what one end sends the other receives.
pub ends-IsAgreed :
    (x y : Mode) (strict strict' : Bool) (duplex adv lp adv' lp' : ℕ)
    → advertise_fc x adv ≡ some adv'
    → advertise_fc y lp ≡ some lp'
    → (sends (for_duplex duplex (resolve x strict adv' lp'))
        ≡ (not (duplex == half_duplex) && (sends x && receives y)))
      × (receives (for_duplex duplex (resolve x strict adv' lp')) ≡ (
          not (duplex == half_duplex) && (receives x && ((receives y || sends y) || not strict))))
      × (sends (for_duplex duplex (resolve x strict adv' lp')) ≡ true
          → receives (for_duplex duplex (resolve y strict' lp' adv')) ≡ true)
ends-IsAgreed x y strict strict' duplex adv lp adv' lp' e f =
    elim (Bool-cases (duplex == half_duplex)) [
      | inl half ↦ rw half (refl, refl, λ t. absurd cc)
      | inr full ↦ rw full (full_duplex x y strict strict' adv lp adv' lp' e f)
    ]
