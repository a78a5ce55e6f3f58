-- ===== src/Em/Adaptive.antt =====
-- e1000_mac.c: adaptive spacing of frames (IFS), by the collisions that were counted.
use rtems_libbsdport.Prelude.{
  ℕ, ◌+◌, ◌*◌, ◌%◌, ◌^◌, ◌<◌, ◌≤◌, ◌≡◌, refl, ◌⊎◌, inl, inr, Bool, true, false, not, ◌&&◌, ltb, leb,
  ◌==◌, if◌then◌else◌, Option, none, some, [], ◌∷◌, arith, Bool-cases,
}
use rtems_libbsdport.Em.{Reg, Op, Log}

-- The fields of `struct e1000_mac_info` that serve the spacing.
pub record Ifs : Type 0 where
  pub adaptive_ifs : Bool
  pub ifs_params_forced : Bool
  pub in_ifs_mode : Bool
  pub current_ifs_val : ℕ
  pub ifs_min_val : ℕ
  pub ifs_max_val : ℕ
  pub ifs_step_size : ℕ
  pub ifs_ratio : ℕ
  pub collision_delta : ℕ
  pub tx_packet_delta : ℕ

-- MIN_NUM_XMITS
abbrev pub min_num_xmits : ℕ
min_num_xmits = 1000

-- The parameters that e1000_reset_adaptive_generic sets if they are not forced: IFS_MIN, IFS_MAX,
-- IFS_STEP and IFS_RATIO.
abbrev pub default_params : Ifs → Ifs
default_params s = record s {
  current_ifs_val = 0;
  ifs_min_val = 40;
  ifs_max_val = 80;
  ifs_step_size = 10;
  ifs_ratio = 4;
}

-- e1000_reset_adaptive_generic
unfoldable pub reset_adaptive : Ifs → Log → Ifs × Log
reset_adaptive s log =
    let s₁ = if s.ifs_params_forced then s else default_params s in
    if s.adaptive_ifs
    then (record s₁ { in_ifs_mode = false }, Op.wrote Reg.ait 0 ∷ log)
    else (s, log)

-- The next spacing, a u16.
abbrev pub next_ifs_val : Ifs → ℕ
next_ifs_val s =
    if s.current_ifs_val == 0 then s.ifs_min_val else (s.current_ifs_val + s.ifs_step_size) % 2 ^ 16

-- e1000_update_adaptive_generic; the product is a u32.
unfoldable pub update_adaptive : Ifs → Log → Ifs × Log
update_adaptive s log =
    let more : Ifs = record s { in_ifs_mode = true; current_ifs_val = next_ifs_val s } in
    let less : Ifs = record s { in_ifs_mode = false; current_ifs_val = 0 } in
    if not s.adaptive_ifs
    then (s, log)
    else if ltb s.tx_packet_delta (s.collision_delta * s.ifs_ratio % 2 ^ 32)
    then (if ltb min_num_xmits s.tx_packet_delta
        then (if ltb s.current_ifs_val s.ifs_max_val
            then (more, Op.wrote Reg.ait (next_ifs_val s) ∷ log)
            else (record s { in_ifs_mode = true }, log))
        else (s, log))
    else if s.in_ifs_mode && leb s.tx_packet_delta min_num_xmits
    then (less, Op.wrote Reg.ait 0 ∷ log)
    else (s, log)

-- What is done between two updates: the driver counts, and may reset.
pub data Reach (s₀ : Ifs) (log₀ : Log) : Ifs → Log → Type 0 where
  started : Reach s₀ log₀ (reset_adaptive s₀ log₀).0 (reset_adaptive s₀ log₀).1
  counted :
      {s : Ifs} {log : Log} (collisions packets : ℕ)
      → Reach s₀ log₀ s log
      → Reach s₀ log₀ (record s { collision_delta = collisions; tx_packet_delta = packets }) log
  updated :
      {s : Ifs} {log : Log}
      → Reach s₀ log₀ s log
      → Reach s₀ log₀ (update_adaptive s log).0 (update_adaptive s log).1
  reset :
      {s : Ifs} {log : Log}
      → Reach s₀ log₀ s log
      → Reach s₀ log₀ (reset_adaptive s log).0 (reset_adaptive s log).1

abbrev over_ait : Op → Option ℕ → Option ℕ
over_ait (Op.wrote Reg.ait v) old = some v
over_ait op old = old

-- The last word that was written to AIT.
abbrev pub ait_of : Log → Option ℕ
ait_of [] = none
ait_of (op ∷ log) = over_ait op (ait_of log)

-- The spacing is off, or one of 40, 50, 60, 70 and 80; the register has it; it is off outside of the
-- mode.
pub record IsPaced (s : Ifs) (log : Log) : Type 0 where
  pub is_adaptive : s.adaptive_ifs ≡ true
  pub is_free : s.ifs_params_forced ≡ false
  pub is_min : s.ifs_min_val ≡ 40
  pub is_max : s.ifs_max_val ≡ 80
  pub is_step : s.ifs_step_size ≡ 10
  pub spacing :
      (s.current_ifs_val ≡ 0)
      ⊎ ((40 ≤ s.current_ifs_val) × (s.current_ifs_val ≤ 80) × (s.current_ifs_val % 10 ≡ 0))
  pub register : ait_of log ≡ some s.current_ifs_val
  pub off : s.in_ifs_mode ≡ false → s.current_ifs_val ≡ 0

reset-IsPaced :
    (s : Ifs) (log : Log)
    → s.adaptive_ifs ≡ true
    → s.ifs_params_forced ≡ false
    → IsPaced (reset_adaptive s log).0 (reset_adaptive s log).1
unfolding reset_adaptive
reset-IsPaced s log a f =
    rw (a, f)
      (record {
        is_adaptive = refl;
        is_free = refl;
        is_min = refl;
        is_max = refl;
        is_step = refl;
        spacing = inl refl;
        register = refl;
        off = λ e. refl;
      })

-- A step up keeps to the values.
next-IsSpaced :
    (s : Ifs) (log : Log)
    → IsPaced s log
    → s.current_ifs_val < s.ifs_max_val
    → (40 ≤ next_ifs_val s) × (next_ifs_val s ≤ 80) × (next_ifs_val s % 10 ≡ 0)
next-IsSpaced s log r l =
    let e = r.is_min in
    let f = r.is_max in
    let g = r.is_step in
    elim r.spacing [
      | inl z ↦ rw (z, e) (omega arith, omega arith, refl)
      | inr w ↦
          let (a, b, c) = w in
          let t : (s.current_ifs_val == 0) ≡ false = ground arith in
          rw (t, g) (omega arith, omega arith, omega arith)
    ]

-- Another mode and spacing keep the rest.
changed-IsPaced :
    (s : Ifs) (log log' : Log) (mode : Bool) (v : ℕ)
    → IsPaced s log
    → (v ≡ 0) ⊎ ((40 ≤ v) × (v ≤ 80) × (v % 10 ≡ 0))
    → ait_of log' ≡ some v
    → (mode ≡ false → v ≡ 0)
    → IsPaced (record s { adaptive_ifs = true; in_ifs_mode = mode; current_ifs_val = v }) log'
changed-IsPaced s log log' mode v r spaced register off = record {
  is_adaptive = refl;
  is_free = r.is_free;
  is_min = r.is_min;
  is_max = r.is_max;
  is_step = r.is_step;
  spacing = spaced;
  register = register;
  off = off;
}

update-IsPaced :
    (s : Ifs) (log : Log)
    → IsPaced s log
    → IsPaced (update_adaptive s log).0 (update_adaptive s log).1
unfolding update_adaptive
update-IsPaced s log r =
    let a = r.is_adaptive in
    let c = s.current_ifs_val in
    let same = changed-IsPaced s log log s.in_ifs_mode c r r.spacing r.register r.off in
    elim (Bool-cases (ltb s.tx_packet_delta (s.collision_delta * s.ifs_ratio % 2 ^ 32))) [
      | inl t₁ ↦ elim (Bool-cases (ltb min_num_xmits s.tx_packet_delta)) [
        | inl t₂ ↦ elim (Bool-cases (ltb s.current_ifs_val s.ifs_max_val)) [
          | inl t₃ ↦
              rw (a, t₁, t₂, t₃)
                (changed-IsPaced s log (Op.wrote Reg.ait (next_ifs_val s) ∷ log) true
                  (next_ifs_val s) r (inr (next-IsSpaced s log r (ground arith))) refl
                  (λ e. absurd (ground arith)))
          | inr t₃ ↦
              rw (a, t₁, t₂, t₃)
                (changed-IsPaced s log log true c r r.spacing r.register
                  (λ e. absurd (ground arith)))
        ]
        | inr t₂ ↦ rw (a, t₁, t₂) same
      ]
      | inr t₁ ↦ elim (Bool-cases (s.in_ifs_mode && leb s.tx_packet_delta min_num_xmits)) [
        | inl t₂ ↦
            rw (a, t₁, t₂)
              (changed-IsPaced s log (Op.wrote Reg.ait 0 ∷ log) false 0 r (inl refl) refl
                (λ e. refl))
        | inr t₂ ↦ rw (a, t₁, t₂) same
      ]
    ]

-- However the driver counts, updates and resets after a first reset, if the spacing is adaptive and its
-- parameters are not forced, it is 0 or one of 40, 50, 60, 70 and 80, the register AIT has it, and it
-- is 0 outside of the mode.
pub Reach-IsPaced :
    (s₀ : Ifs) (log₀ : Log) (s : Ifs) (log : Log)
    → s₀.adaptive_ifs ≡ true
    → s₀.ifs_params_forced ≡ false
    → Reach s₀ log₀ s log
    → IsPaced s log
Reach-IsPaced s₀ log₀ _ _ a f Reach.started = reset-IsPaced s₀ log₀ a f
Reach-IsPaced s₀ log₀ _ log a f (Reach.counted {s} collisions packets r) =
    let p = Reach-IsPaced s₀ log₀ s log a f r in
    record {
      is_adaptive = p.is_adaptive;
      is_free = p.is_free;
      is_min = p.is_min;
      is_max = p.is_max;
      is_step = p.is_step;
      spacing = p.spacing;
      register = p.register;
      off = p.off;
    }
Reach-IsPaced s₀ log₀ _ _ a f (Reach.updated {s} {log} r) =
    update-IsPaced s log (Reach-IsPaced s₀ log₀ s log a f r)
Reach-IsPaced s₀ log₀ _ _ a f (Reach.reset {s} {log} r) =
    let p = Reach-IsPaced s₀ log₀ s log a f r in reset-IsPaced s log p.is_adaptive p.is_free
