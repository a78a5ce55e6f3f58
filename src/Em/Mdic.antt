-- ===== src/Em/Mdic.antt =====
-- e1000_phy.c: reading the PHY through the register MDIC.
use rtems_libbsdport.Prelude.{
  ℕ, zero, suc, ◌+◌, ◌%◌, ◌^◌, ◌<◌, ◌≤◌, ◌≡◌, refl, ◌⊎◌, inl, inr, true, false, ltb, ◌==◌, ◌∷◌,
  arith, Bool-cases,
}
use rtems_libbsdport.Prelude.Words.{is_set}
use rtems_libbsdport.Em.{Reg, Op, Log, Board, done, failed, err_param}
use rtems_libbsdport.Em.Phy.{poll_mdic, read_phy_reg_mdic, mdic_read}
use rtems_libbsdport.Em.Flow.{Link, get_speed_and_duplex_copper}

abbrev pub mdic_reads : (n : ℕ) → Log → Log
mdic_reads zero log = log
mdic_reads (suc n) log = Op.did_read Reg.mdic ∷ mdic_reads n log

-- `n` reads after the command to read the register `r`.
abbrev pub asked : (addr r n : ℕ) → Log → Log
asked addr r n log = mdic_reads n (Op.wrote Reg.mdic (mdic_read addr r) ∷ log)

-- MDIC as documented: a while after the command, `wait` reads at most, it shows READY, and then the
-- register's value and no error.
pub record IsMdic (b : Board) (addr : ℕ) (regs : ℕ → ℕ) (wait : ℕ) : Type 0 where
  pub is_ready :
      (log : Log) (r n : ℕ) → r ≤ 31 → wait ≤ n → is_set (b (asked addr r n log) Reg.mdic) 28 ≡ true
  pub value :
      (log : Log) (r n : ℕ)
      → r ≤ 31
      → is_set (b (asked addr r n log) Reg.mdic) 28 ≡ true
      → (is_set (b (asked addr r n log) Reg.mdic) 30 ≡ false)
        × (b (asked addr r n log) Reg.mdic % 2 ^ 16 ≡ regs r)

module _ (b : Board) (addr : ℕ) (regs : ℕ → ℕ) (wait : ℕ) (mdic : IsMdic b addr regs wait)
    (enough : wait < 64) where
  poll_mdic-done :
      (k n old : ℕ) (log : Log) (r : ℕ)
      → r ≤ 31
      → n + k ≡ 64
      → n ≤ wait
      → (m : ℕ) × (poll_mdic b k old (asked addr r n log)
          ≡ done (b (asked addr r m log) Reg.mdic) (asked addr r (suc m) log))
        × (is_set (b (asked addr r m log) Reg.mdic) 28 ≡ true)
  unfolding poll_mdic
  poll_mdic-done zero n old log r s e l = absurd (omega arith)
  poll_mdic-done (suc k) n old log r s e l =
      let word = b (asked addr r n log) Reg.mdic in
      elim (Bool-cases (is_set word 28)) [
        | inl d ↦ (n, rw d refl, d)
        | inr d ↦ elim (Bool-cases (n == wait)) [
          | inl q ↦ absurd (ground (arith, mdic.is_ready log r n))
          | inr q ↦
              let (m, f, g) = poll_mdic-done k (suc n) word log r s (omega arith) (ground arith) in
              (m, rw d f, g)
        ]
      ]

  -- Where MDIC shows READY behind at most 63 reads, and then the value of the PHY's register and no
  -- error, e1000_read_phy_reg_mdic gives that value for a register from 0 to 31, its 64 polls being
  -- enough, and for any other fails with E1000_ERR_PARAM, without touching the hardware.
  pub read_phy_reg_mdic-value :
      (offset : ℕ) (log : Log)
      → ((offset ≤ 31)
          × ((log' : Log) × (read_phy_reg_mdic b addr offset log ≡ done (regs offset) log')))
        ⊎ ((31 < offset) × (read_phy_reg_mdic b addr offset log ≡ failed err_param log))
  unfolding read_phy_reg_mdic
  read_phy_reg_mdic-value offset log = elim (Bool-cases (ltb 0x1F offset)) [
    | inl t ↦ inr (ground arith, rw t refl)
    | inr t ↦
        let s : offset ≤ 31 = ground arith in
        let (m, f, g) =
          poll_mdic-done 64 0 (mdic_read addr offset) log offset s refl (omega arith) in
        let (no_error, v) = mdic.value log offset m s g in
        inl (s, (asked addr offset (suc m) log, rw (t, f, read_phy_reg_mdic, no_error, v) refl))
  ]

-- The chip with the PHY `addr` behind MDIC.
abbrev pub chip_link : Board → (addr : ℕ) → Link
chip_link b addr = record {
  read_phy_reg = read_phy_reg_mdic b addr;
  get_speed_and_duplex = get_speed_and_duplex_copper b;
}
