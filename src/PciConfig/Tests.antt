-- ===== src/PciConfig/Tests.antt =====
-- Runs of the configuration space functions on a space of one register.
use rtems_libbsdport.PciConfig.{pci_read_config, pci_write_config, pci_read_config-pci_write_config}
use rtems_libbsdport.Prelude.{◌≡◌}
use rtems_libbsdport.Prelude.{ℕ, ◌+◌, ◌*◌, ◌/◌, ◌%◌, ◌^◌, refl, arith}
use rtems_libbsdport.PciConfig.{Access, IsAccess}

-- The register is the state.
abbrev one_register : Access ℕ
one_register = record {
  read_dword = λ s r. s;
  read_word = λ s r. s % 2 ^ 16;
  read_byte = λ s r. s % 2 ^ 8;
  write_dword = λ s r v. v % 2 ^ 32;
  write_word = λ s r v. s / 2 ^ 16 * 2 ^ 16 + v % 2 ^ 16;
  write_byte = λ s r v. s / 2 ^ 8 * 2 ^ 8 + v % 2 ^ 8;
}

one_register-IsAccess : IsAccess one_register
one_register-IsAccess = record {
  dword = λ s r v. refl;
  word = λ s r v. omega arith;
  byte = λ s r v. omega arith;
  word_in_dword = λ s r v. refl;
  byte_in_dword = λ s r v. refl;
  byte_in_word = λ s r v. omega arith;
}

dword_written :
    pci_read_config one_register (pci_write_config one_register 0 4 0x12345678 4) 4 4 ≡ 0x12345678
dword_written = pci_read_config-pci_write_config one_register one_register-IsAccess 0 4 0x12345678 4
