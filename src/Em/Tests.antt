-- ===== src/Em/Tests.antt =====
-- Runs of the shared e1000 code at concrete hardware.
use rtems_libbsdport.Prelude.{
  ℕ, suc, ◌+◌, ◌*◌, ◌/◌, ◌%◌, ◌^◌, ◌<◌, ◌≤◌, ◌≡◌, ◌≢◌, refl, ◌⊎◌, inl, inr, ◌↔◌, true, false, ◌==◌,
  Option, none, some, [], ◌∷◌, map, arith, Bool-cases,
}
use rtems_libbsdport.Prelude.Lists.{has}
use rtems_libbsdport.Em.{
  Reg, Op, Log, Board, done, failed, err_nvm, err_param, err_host_interface_command,
}
use rtems_libbsdport.Em.Host.{mng_write_dhcp_info, mng_host_if_write}
use rtems_libbsdport.Em.Ram.{ram, ram_byte}
use rtems_libbsdport.Em.Command.{IsReady, IsUnready, IsCommand, dhcp_info-IsCommand}
use rtems_libbsdport.Em.Overrun.{short_write_overruns}
use rtems_libbsdport.Em.Eerd.{IsEerd}
use rtems_libbsdport.Em.Store.{
  Nvm, IsReadable, IsWritable, sum_from, nvm_sum, update_nvm_checksum, validate_nvm_checksum,
  update-validate,
}
use rtems_libbsdport.Em.Chip.{eerd_nvm, eerd_validates}
use rtems_libbsdport.Em.Filter.{Addr, Mac, hash_mc_addr, mc_addr_list_update}
use rtems_libbsdport.Em.Multicast.{mta_of, IsTable, bit_of, HasRars, update-passes}
use rtems_libbsdport.Em.Flow.{
  Mode, Media, Settings, Ended, for_duplex, resolve, read_partners, config_fc_after_link_up,
  get_speed_and_duplex_copper,
}
use rtems_libbsdport.Em.Phy.{advertise_fc, read_phy_reg_mdic}
use rtems_libbsdport.Em.Pause.{receives, sends, ends-IsAgreed}
use rtems_libbsdport.Em.Resolved.{IsForced, config_fc-IsResolved}
use rtems_libbsdport.Em.Mdic.{IsMdic, chip_link, read_phy_reg_mdic-value}
use rtems_libbsdport.Em.Shift.{Kind, Info, shift_out_eec_bits}
use rtems_libbsdport.Em.Eerd.{is_out_of_bounds}
use rtems_libbsdport.Em.Released.{Access, IsReleased, log_after, accesses-IsReleased}
use rtems_libbsdport.Em.Wire.{seen, clock_of, shift_out-seen}
use rtems_libbsdport.Prelude.Words.{set_bit}
use rtems_libbsdport.Prelude.Bits.{is_set-set_bit}
use rtems_libbsdport.Em.Adaptive.{
  Ifs, Reach, IsPaced, reset_adaptive, update_adaptive, Reach-IsPaced,
}
use rtems_libbsdport.Em.Semaphore.{
  IsHeld, IsPut, IsFree, IsTaken, IsDenied, swsm_of, get_hw_semaphore, get_hw_semaphore-IsHeld,
}
use rtems_libbsdport.Em.Reads.{reads}
use rtems_libbsdport.Em.Link.{State, Checked, three_reads, check_for_fiber_link}
use rtems_libbsdport.Em.Forced.{IsDark, IsUp, fiber_link-IsUp}

-- A board whose registers hold still: the host interface is enabled and idle, EERD shows DONE and the
-- word 7, MDIC shows READY and 0x0C20, the link is 1000 full duplex, and the EEPROM is granted.
abbrev still : Board
still log Reg.hicr = 1
still log Reg.eerd = 7 * 2 ^ 16 + 2
still log Reg.mdic = 2 ^ 28 + 0x0C20
still log Reg.status = 0x83
still log Reg.eecd = 0x80
still log r = 0

abbrev fives : ℕ → ℕ
fives k = 5

dhcp_info-IsCommand_example :
    ((log' : Log) × (mng_write_dhcp_info still fives 6 [] ≡ done tt log')
      × IsReady still []
      × IsCommand fives 6 log')
    ⊎ ((log' : Log) × (mng_write_dhcp_info still fives 6 []
          ≡ failed err_host_interface_command log')
        × IsUnready still []
        × ((i : ℕ) → ram log' i ≡ ram [] i))
dhcp_info-IsCommand_example =
    dhcp_info-IsCommand still fives (λ k. omega arith) 6 [] (omega arith) (omega arith)

short_write_overruns_example :
    (sum' : ℕ) × (log' : Log) × (mng_host_if_write still fives 1 9 0 [] ≡ done sum' log')
    × ((k : ℕ) → k < 65532 → ram_byte log' (4 * 3 + k) ≡ fives (3 + k))
short_write_overruns_example =
    short_write_overruns still fives 1 9 0 [] (λ k. omega arith) (omega arith) (omega arith)
      (omega arith) (omega arith)

still-IsEerd : IsEerd still (λ i. 7) 0
still-IsEerd = record { is_done = λ log a n l. refl; word = λ log a n l. refl }

eerd_validates_example :
    ((log' : Log) × (validate_nvm_checksum (eerd_nvm still 1 64 (λ i v log. done tt log)) []
        ≡ done tt log'))
    ↔ (sum_from (λ i. 7) 64 0 % 2 ^ 16 ≡ nvm_sum)
eerd_validates_example =
    eerd_validates still (λ i. 7) 0 1 64 (λ i v log. done tt log) still-IsEerd (omega arith)
      (omega arith) (λ i. omega arith) []

-- An EEPROM of cells that hold what was last written to them.
abbrev cell : Option ℕ → ℕ
cell none = 0
cell (some v) = v % 2 ^ 16

abbrev cells : Log → ℕ → ℕ
cells log i = cell (mta_of log i)

abbrev cells_nvm : Nvm
cells_nvm = record {
  read_nvm = λ i log. done (cells log i) log;
  write_nvm = λ i v log. done tt (Op.wrote (Reg.mta i) v ∷ log);
}

cell_small : (c : Option ℕ) → cell c < 2 ^ 16
cell_small none = omega arith
cell_small (some v) = omega arith

cells-IsReadable : IsReadable cells_nvm cells
cells-IsReadable = record {
  word = λ log i. cell_small (mta_of log i);
  reads = λ log i l. (log, refl, λ j. refl);
}

cells-IsWritable : IsWritable cells_nvm cells
cells-IsWritable = record {
  writes = λ log i v l m. (
    Op.wrote (Reg.mta i) v ∷ log,
    refl,
    λ j. elim (Bool-cases (j == i)) [ inl t ↦ rw t (omega arith) | inr t ↦ rw t refl ],
  );
}

update-validate_example :
    (log₁ : Log) × (update_nvm_checksum cells_nvm (Op.wrote (Reg.mta 3) 0x1234 ∷ []) ≡ done tt log₁)
    × ((log₂ : Log) × (validate_nvm_checksum cells_nvm log₁ ≡ done tt log₂))
    × ((j : ℕ) → j ≢ 63 → cells log₁ j ≡ cells (Op.wrote (Reg.mta 3) 0x1234 ∷ []) j)
update-validate_example =
    update-validate cells_nvm cells cells-IsReadable cells-IsWritable
      (Op.wrote (Reg.mta 3) 0x1234 ∷ [])

-- A table of multicast addresses that reads as it was written.
abbrev table_board : Board
table_board log (Reg.mta i) = elim (mta_of log i) [ none ↦ 0 | some v ↦ v ]
table_board log r = 0

table_board-IsTable : IsTable table_board
table_board-IsTable log i v p = rw (p, table_board) refl

abbrev mac : Mac
mac = record { addr = fives; mta_reg_count = 128; mc_filter_type = 0; disable_av = false }

abbrev hash : Addr → ℕ
hash a = (a 4 / 2 ^ 4 + a 5 * 2 ^ 4) % 4096

hash_lem : (a : Addr) → hash_mc_addr mac a ≡ some (hash a)
unfolding hash_mc_addr
hash_lem a = refl

update-passes_example :
    (log' : Log) × (mc_addr_list_update table_board mac (fives ∷ (λ k. k) ∷ []) 15 16 []
      ≡ some log')
    × HasRars table_board mac 1 15 (fives ∷ (λ k. k) ∷ []) [] log'
    × ((g : ℕ) → g < 128 * 32 → bit_of log' g ≡ has g (map hash ((λ k. k) ∷ [])))
update-passes_example =
    update-passes table_board mac table_board-IsTable hash hash_lem (λ a. omega arith)
      (fives ∷ (λ k. k) ∷ []) 15 16 []

full_advertised : advertise_fc Mode.fc_full 0x01E1 ≡ some 0x0DE1
unfolding advertise_fc
full_advertised = refl

rx_advertised : advertise_fc Mode.fc_rx_pause 0x01E1 ≡ some 0x0DE1
unfolding advertise_fc
rx_advertised = refl

ends-IsAgreed_example :
    (sends (for_duplex 2 (resolve Mode.fc_rx_pause true 0x0DE1 0x0DE1)) ≡ false)
    × (receives (for_duplex 2 (resolve Mode.fc_rx_pause true 0x0DE1 0x0DE1)) ≡ true)
    × (sends (for_duplex 2 (resolve Mode.fc_rx_pause true 0x0DE1 0x0DE1)) ≡ true
        → receives (for_duplex 2 (resolve Mode.fc_full false 0x0DE1 0x0DE1)) ≡ true)
ends-IsAgreed_example =
    ends-IsAgreed Mode.fc_rx_pause Mode.fc_full true false 2 0x01E1 0x01E1 0x0DE1 0x0DE1
      rx_advertised full_advertised

still-IsMdic : IsMdic still 1 (λ r. 0x0C20) 0
still-IsMdic = record { is_ready = λ log r n l m. refl; value = λ log r n l e. (refl, refl) }

read_phy_reg_mdic-value_example :
    ((1 ≤ 31) × ((log' : Log) × (read_phy_reg_mdic still 1 1 [] ≡ done 0x0C20 log')))
    ⊎ ((31 < 1) × (read_phy_reg_mdic still 1 1 [] ≡ failed err_param []))
read_phy_reg_mdic-value_example =
    read_phy_reg_mdic-value still 1 (λ r. 0x0C20) 0 still-IsMdic (omega arith) 1 []

still_reads :
    (offset : ℕ) (log : Log)
    → offset ≤ 31
    → (log' : Log) × ((chip_link still 1).read_phy_reg offset log ≡ done 0x0C20 log')
still_reads offset log l =
    elim (read_phy_reg_mdic-value still 1 (λ r. 0x0C20) 0 still-IsMdic (omega arith) offset log) [
      | inl w ↦ w.1
      | inr w ↦ let m = w.0 in absurd (omega arith)
    ]

still_gets :
    (log : Log)
    → (speed : ℕ) × (log' : Log) × ((chip_link still 1).get_speed_and_duplex log
        ≡ done (speed, 2) log')
unfolding get_speed_and_duplex_copper
still_gets log = (1000, Op.did_read Reg.status ∷ log, refl)

abbrev settings : Settings
settings = record {
  media_type = Media.copper;
  autoneg = true;
  autoneg_failed = false;
  original_fc = Mode.fc_full;
  fc_strict_ieee = false;
  fc_send_xon = true;
  fc_low_water = 100;
  fc_high_water = 200;
  fc_pause_time = 0x680;
}

config_fc-IsResolved_example :
    ((true ≡ true)
      × ((log₁ log' : Log) × (config_fc_after_link_up still
              (chip_link still 1)
              settings
              Mode.fc_full
              []
            ≡ Ended.ended none Mode.fc_full log')
          × IsForced still Mode.fc_full log₁ log'))
    ⊎ ((true ≡ false)
        × ((log₁ log' : Log) × (config_fc_after_link_up still
                (chip_link still 1)
                settings
                Mode.fc_full
                []
              ≡ Ended.ended none Mode.fc_full log')
            × (read_partners (chip_link still 1) log₁ ≡ done none log')
            × IsForced still Mode.fc_full [] log₁))
config_fc-IsResolved_example =
    config_fc-IsResolved still (chip_link still 1) (λ r. 0x0C20) 2 still_reads still_gets settings
      Mode.fc_full [] refl refl refl refl

abbrev spi_info : Info
spi_info = record {
  kind = Kind.spi;
  word_size = 64;
  opcode_bits = 8;
  address_bits = 8;
  page_size = 8;
}

accesses-IsReleased_example :
    ((false ≡ true) × (log_after still spi_info 62 (Access.write_spi (1 ∷ 2 ∷ [])) [] ≡ []))
    ⊎ ((false ≡ false)
        × IsReleased (log_after still spi_info 62 (Access.write_spi (1 ∷ 2 ∷ [])) []))
unfolding is_out_of_bounds
accesses-IsReleased_example =
    accesses-IsReleased still spi_info 62 (Access.write_spi (1 ∷ 2 ∷ [])) []

shift_out-seen_example :
    (seen (shift_out_eec_bits still Kind.spi 5 3 []) ≡ true ∷ false ∷ true ∷ [])
    × (clock_of (shift_out_eec_bits still Kind.spi 5 3 []) ≡ false)
shift_out-seen_example = shift_out-seen still Kind.spi 5 3 [] refl

abbrev spaced : Ifs
spaced = record {
  adaptive_ifs = true;
  ifs_params_forced = false;
  in_ifs_mode = true;
  current_ifs_val = 7;
  ifs_min_val = 0;
  ifs_max_val = 0;
  ifs_step_size = 0;
  ifs_ratio = 0;
  collision_delta = 0;
  tx_packet_delta = 0;
}

-- One update behind many collisions.
Reach-IsPaced_example :
    IsPaced
      (update_adaptive
        (record (reset_adaptive spaced []).0 { collision_delta = 900; tx_packet_delta = 1200 })
        (reset_adaptive spaced []).1).0
      (update_adaptive
        (record (reset_adaptive spaced []).0 { collision_delta = 900; tx_packet_delta = 1200 })
        (reset_adaptive spaced []).1).1
Reach-IsPaced_example =
    Reach-IsPaced spaced []
      (update_adaptive
        (record (reset_adaptive spaced []).0 { collision_delta = 900; tx_packet_delta = 1200 })
        (reset_adaptive spaced []).1).0
      (update_adaptive
        (record (reset_adaptive spaced []).0 { collision_delta = 900; tx_packet_delta = 1200 })
        (reset_adaptive spaced []).1).1
      refl refl (Reach.updated (Reach.counted 900 1200 Reach.started))

get_hw_semaphore-IsHeld_example :
    ((log' : Log) × (k : ℕ) × (get_hw_semaphore still 64 [] ≡ done tt log')
      × IsFree still 65 [] k
      × IsHeld still log')
    ⊎ ((log' : Log) × (get_hw_semaphore still 64 [] ≡ failed err_nvm log')
        × ((IsTaken still 65 [] × (swsm_of log' ≡ none))
            ⊎ ((k : ℕ) × IsFree still 65 [] k
                × IsDenied still 65 (reads Reg.swsm (suc k) [])
                × IsPut log')))
get_hw_semaphore-IsHeld_example = get_hw_semaphore-IsHeld still 64 []

abbrev over_ctrl : Op → ℕ → ℕ
over_ctrl (Op.wrote Reg.ctrl v) old = v
over_ctrl op old = old

abbrev ctrl_in : Log → ℕ
ctrl_in [] = 0
ctrl_in (op ∷ log) = over_ctrl op (ctrl_in log)

-- A fiber with a signal, whose partner does not negotiate.
abbrev dark : Board
dark log Reg.ctrl = set_bit (ctrl_in log) 19
dark log r = 0

dark-IsDark : IsDark dark
dark-IsDark = record {
  signal = λ log. is_set-set_bit (ctrl_in log) 19 19;
  down = λ log. refl;
  idle = λ log. refl;
  full_back = λ v log. is_set-set_bit v 19 0;
  link_back = λ v log. is_set-set_bit v 19 6;
}

abbrev fiber_settings : Settings
fiber_settings = record settings { media_type = Media.fiber }

abbrev fresh : State
fresh = record { fc = Mode.fc_rx_pause; autoneg_failed = false; serdes_has_link = false }

fiber_link-IsUp_example :
    (check_for_fiber_link dark (chip_link dark 1) fiber_settings 0x800001A0 fresh []
      ≡ Checked.checked none (record fresh { autoneg_failed = true }) (three_reads []))
    × ((log' : Log) × (check_for_fiber_link dark
            (chip_link dark 1)
            fiber_settings
            0x800001A0
            (record fresh { autoneg_failed = true })
            (three_reads [])
          ≡ Checked.checked none (record fresh { autoneg_failed = true }) log')
        × IsUp Mode.fc_rx_pause log')
fiber_link-IsUp_example =
    fiber_link-IsUp dark (chip_link dark 1) fiber_settings 0x800001A0 dark-IsDark refl fresh []
      (three_reads []) refl refl
