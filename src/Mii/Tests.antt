-- ===== src/Mii/Tests.antt =====
-- A run of the PHY search.
use rtems_libbsdport.Mii.{
  rtems_mii_phy_probe, AllIdle, phy_max, is_active, rtems_mii_phy_probe-AllIdle,
}
use rtems_libbsdport.Prelude.{ℕ, ◌≡◌, ◌<◌, ◌⊎◌, none, true}
use rtems_libbsdport.Prelude.{some, ◌==◌, if◌then◌else◌}
use rtems_libbsdport.Mii.{Mdio}

-- PHY 0 is powered down and PHY 1 is in use; the others read as all ones.
abbrev two_phys : Mdio
two_phys = record {
  mdio_r = λ phy reg.
      if reg == 1
      then (if phy == 0 then some 0x7809 else if phy == 1 then some 0x782d else some 0xffff)
      else (if phy == 0 then some 0x0800 else some 0x1000);
  bmsr = 1;
  bmcr = 0;
  bmsr_extstat = 0x0100;
  bmcr_pdown = 0x0800;
  bmcr_iso = 0x0400;
}

second_phy_in_use :
    ((rtems_mii_phy_probe two_phys ≡ none) × AllIdle two_phys phy_max 0)
    ⊎ ((k : ℕ) × (rtems_mii_phy_probe two_phys ≡ some k)
        × (k < phy_max)
        × (is_active two_phys k ≡ true)
        × AllIdle two_phys k 0)
second_phy_in_use = rtems_mii_phy_probe-AllIdle two_phys
