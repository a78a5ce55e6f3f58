-- ===== src/Mii.antt =====
-- bsd_eth_drivers/libbsdport/miistuff.c: the search for the PHY in use.
mod Tests
use Prim.Native.Nat.{bit_and, bit_or}
use rtems_libbsdport.Prelude.{
  ℕ, zero, suc, ◌+◌, ◌-◌, ◌%◌, ◌^◌, ◌<◌, ◌≤◌, ◌≡◌, refl, sym, subst, ◌∙◌, ap, Option, none, some,
  Bool, true, false, not, ◌&&◌, ◌||◌, ◌==◌, if◌then◌else◌, Bool-cases, inl, inr, ◌⊎◌, arith,
}

-- `struct rtems_mdio_info` and the numbers of the system's header: `mdio_r` reads a register of a
-- PHY, none for an error.
pub record Mdio : Type 0 where
  pub mdio_r : (phy reg : ℕ) → Option ℕ
  pub bmsr : ℕ
  pub bmcr : ℕ
  pub bmsr_extstat : ℕ
  pub bmcr_pdown : ℕ
  pub bmcr_iso : ℕ

abbrev pub phy_max : ℕ
phy_max = 32

-- The loop of rtems_mii_phy_probe from `phy` on, with `left` turns to go.
unfoldable pub probe_loop : Mdio → (left phy : ℕ) → Option ℕ
probe_loop m zero phy = none
probe_loop m (suc left) phy =
    let next = probe_loop m left (phy + 1) in
    elim (m.mdio_r phy m.bmsr) [
      | none ↦ next
      | some v ↦
          let bmsr = v % 2 ^ 16 in
          if (bmsr == 0) || (bmsr == 0xffff)
          then next
          else if bit_and (bit_or m.bmsr_extstat 0xfe00) bmsr == 0
          then next
          else elim (m.mdio_r phy m.bmcr) [
            | none ↦ next
            | some bmcr ↦
                if not (bit_and (bit_or m.bmcr_pdown m.bmcr_iso) bmcr == 0) then next else some phy
          ]
    ]

-- rtems_mii_phy_probe: none for -1.
unfoldable pub rtems_mii_phy_probe : Mdio → Option ℕ
rtems_mii_phy_probe m = probe_loop m phy_max 0

-- A status register that can be read, is neither all zeros nor all ones, and names some medium.
abbrev pub is_present : Mdio → Option ℕ → Bool
is_present m none = false
is_present m (some v) =
    not (v % 2 ^ 16 == 0)
    && not (v % 2 ^ 16 == 0xffff)
    && not (bit_and (bit_or m.bmsr_extstat 0xfe00) (v % 2 ^ 16) == 0)

-- A control register that can be read, with the PHY neither powered down nor isolated.
abbrev pub is_enabled : Mdio → Option ℕ → Bool
is_enabled m none = false
is_enabled m (some v) = bit_and (bit_or m.bmcr_pdown m.bmcr_iso) v == 0

-- A PHY in use.
abbrev pub is_active : Mdio → ℕ → Bool
is_active m phy = is_present m (m.mdio_r phy m.bmsr) && is_enabled m (m.mdio_r phy m.bmcr)

-- None of the `k` PHYs from `phy` on is in use.
abbrev pub AllIdle : Mdio → (k phy : ℕ) → Type 0
AllIdle m zero phy = Unit {0}
AllIdle m (suc k) phy = (is_active m phy ≡ false) × AllIdle m k (phy + 1)

probe_loop-suc :
    (m : Mdio) (left phy : ℕ)
    → probe_loop m (suc left) phy
      ≡ (if is_active m phy then some phy else probe_loop m left (phy + 1))
unfolding probe_loop
probe_loop-suc m left phy = ground arith

probe_loop-AllIdle :
    (m : Mdio) (left phy : ℕ)
    → ((probe_loop m left phy ≡ none) × AllIdle m left phy)
      ⊎ ((k : ℕ) × (probe_loop m left phy ≡ some (phy + k))
          × (k < left)
          × (is_active m (phy + k) ≡ true)
          × AllIdle m k phy)
unfolding probe_loop
probe_loop-AllIdle m zero phy = inl (refl, tt)
probe_loop-AllIdle m (suc left) phy = elim (Bool-cases (is_active m phy)) [
  | inl e ↦
      let same : phy ≡ phy + 0 = omega arith in
      inr (
        0,
        probe_loop-suc m left phy ∙ rw e (ap some same),
        omega arith,
        subst (λ i. is_active m i ≡ true) same e,
        tt,
      )
  | inr e ↦ elim (probe_loop-AllIdle m left (phy + 1)) [
    | inl (none_left, idle) ↦ inl (probe_loop-suc m left phy ∙ rw e none_left, (e, idle))
    | inr (k, found, less, on, idle) ↦
        let same : phy + 1 + k ≡ phy + suc k = omega arith in
        inr (
          suc k,
          probe_loop-suc m left phy ∙ rw e (found ∙ ap some same),
          omega arith,
          subst (λ i. is_active m i ≡ true) same on,
          (e, idle),
        )
  ]
]

-- rtems_mii_phy_probe returns the lowest PHY in use of the 32, or -1 where none is in use.
pub rtems_mii_phy_probe-AllIdle :
    (m : Mdio)
    → ((rtems_mii_phy_probe m ≡ none) × AllIdle m phy_max 0)
      ⊎ ((k : ℕ) × (rtems_mii_phy_probe m ≡ some k)
          × (k < phy_max)
          × (is_active m k ≡ true)
          × AllIdle m k 0)
unfolding rtems_mii_phy_probe
rtems_mii_phy_probe-AllIdle m = elim (probe_loop-AllIdle m phy_max 0) [
  | inl h ↦ inl h
  | inr (k, found, less, on, idle) ↦
      let same : 0 + k ≡ k = omega arith in
      inr (k, found ∙ ap some same, less, subst (λ i. is_active m i ≡ true) same on, idle)
]
