-- ===== src/PciConfig.antt =====
-- The access to PCI configuration space in bsd_eth_drivers/libbsdport/libbsdport.h, and le32enc.
mod Tests
use Prim.Native.Nat.{bit_and, bit_or}
use rtems_libbsdport.Prelude.{
  ℕ, zero, suc, ◌+◌, ◌-◌, ◌*◌, ◌/◌, ◌%◌, ◌^◌, ◌≡◌, refl, ap, ◌∙◌, Bool, true, false, List, [], ◌∷◌,
  ◌==◌, if◌then◌else◌, Bool-cases, inl, inr, ◌⊎◌, arith, ==→eq,
}

-- The board support package's access to the configuration space of one device, of the states `Space`.
pub record Access (Space : Type 0) : Type 0 where
  pub read_dword : Space → (reg : ℕ) → ℕ
  pub read_word : Space → (reg : ℕ) → ℕ
  pub read_byte : Space → (reg : ℕ) → ℕ
  pub write_dword : Space → (reg val : ℕ) → Space
  pub write_word : Space → (reg val : ℕ) → Space
  pub write_byte : Space → (reg val : ℕ) → Space

-- The registers are memory with the low byte first: what has been written is read back, and a narrow
-- write replaces the low part of a wide register.
pub record IsAccess {Space : Type 0} (a : Access Space) : Type 0 where
  pub dword : (s : Space) (r v : ℕ) → a.read_dword (a.write_dword s r v) r ≡ v % 2 ^ 32
  pub word : (s : Space) (r v : ℕ) → a.read_word (a.write_word s r v) r ≡ v % 2 ^ 16
  pub byte : (s : Space) (r v : ℕ) → a.read_byte (a.write_byte s r v) r ≡ v % 2 ^ 8
  pub word_in_dword :
      (s : Space) (r v : ℕ)
      → a.read_dword (a.write_word s r v) r ≡ a.read_dword s r / 2 ^ 16 * 2 ^ 16 + v % 2 ^ 16
  pub byte_in_dword :
      (s : Space) (r v : ℕ)
      → a.read_dword (a.write_byte s r v) r ≡ a.read_dword s r / 2 ^ 8 * 2 ^ 8 + v % 2 ^ 8
  pub byte_in_word :
      (s : Space) (r v : ℕ)
      → a.read_word (a.write_byte s r v) r ≡ a.read_word s r / 2 ^ 8 * 2 ^ 8 + v % 2 ^ 8

module _ {Space : Type 0} (a : Access Space) where
  -- pci_read_config: every width but 2 and 1 counts as 4.
  unfoldable pub pci_read_config : Space → (reg width : ℕ) → ℕ
  pci_read_config s reg width =
      if width == 2
      then a.read_word s reg
      else if width == 1
      then a.read_byte s reg
      else a.read_dword s reg

  -- pci_write_config: its cases fall through, to the narrower writes.
  unfoldable pub pci_write_config : Space → (reg val width : ℕ) → Space
  pci_write_config s reg val width =
      let s₄ = if (width == 2) then s else if width == 1 then s else a.write_dword s reg val in
      let s₂ = if width == 1 then s₄ else a.write_word s₄ reg (val % 2 ^ 16) in
      a.write_byte s₂ reg (val % 2 ^ 8)

  -- pci_get_vendor, pci_get_device, pci_get_subvendor and pci_get_subdevice, of the registers
  -- PCI_VENDOR_ID, PCI_DEVICE_ID, PCIR_SUBVEND_0 and PCIR_SUBDEV_0.
  unfoldable pub pci_get_id : (reg : ℕ) → Space → ℕ
  unfolding pci_read_config
  pci_get_id reg s = pci_read_config s reg 2 % 2 ^ 16

  -- pci_get_revid, of the register PCIR_REVID.
  unfoldable pub pci_get_revid : (reg : ℕ) → Space → ℕ
  unfolding pci_read_config
  pci_get_revid reg s = pci_read_config s reg 1 % 2 ^ 8

  -- pci_enable_io, and pci_enable_busmaster, which sets the bit PCI_COMMAND_MASTER in the same way.
  unfoldable pub pci_enable_io : (command : ℕ) → Space → (space : ℕ) → Space
  unfolding pci_read_config pci_write_config
  pci_enable_io command s space =
      pci_write_config s command (bit_or (pci_read_config s command 2) space) 2

  unfoldable pub pci_enable_busmaster : (command master : ℕ) → Space → Space
  unfolding pci_read_config pci_write_config
  pci_enable_busmaster command master s =
      pci_write_config s command (bit_or (pci_read_config s command 2) master) 2

  -- pci_disable_io, where `~space` has 32 bits.
  unfoldable pub pci_disable_io : (command : ℕ) → Space → (space : ℕ) → Space
  unfolding pci_read_config pci_write_config
  pci_disable_io command s space =
      pci_write_config s command (bit_and (pci_read_config s command 2) (2 ^ 32 - 1 - space)) 2

low_word : (v : ℕ) → v % 2 ^ 32 / 2 ^ 16 * 2 ^ 16 + v % 2 ^ 16 % 2 ^ 16 ≡ v % 2 ^ 32
low_word v = omega arith

low_byte : (v : ℕ) → v % 2 ^ 32 / 2 ^ 8 * 2 ^ 8 + v % 2 ^ 8 % 2 ^ 8 ≡ v % 2 ^ 32
low_byte v = omega arith

low_byte_of_word : (v : ℕ) → v % 2 ^ 16 % 2 ^ 16 / 2 ^ 8 * 2 ^ 8 + v % 2 ^ 8 % 2 ^ 8 ≡ v % 2 ^ 16
low_byte_of_word v = omega arith

module _ {Space : Type 0} (a : Access Space) (e : IsAccess a) where
  -- pci_read_config gives the bits that pci_write_config wrote with the same width, although its
  -- cases fall through: the narrower writes repeat the low bits.
  pub pci_read_config-pci_write_config :
      (s : Space) (reg val width : ℕ)
      → pci_read_config a (pci_write_config a s reg val width) reg width
        ≡ (if width == 2 then val % 2 ^ 16 else if width == 1 then val % 2 ^ 8 else val % 2 ^ 32)
  unfolding pci_read_config pci_write_config
  pci_read_config-pci_write_config s reg val width = elim (Bool-cases (width == 2)) [
    | inl two ↦
        let same : width ≡ 2 = ==→eq width 2 two in
        rw same (
          e.byte_in_word (a.write_word s reg (val % 2 ^ 16)) reg (val % 2 ^ 8)
          ∙ ap (λ x. x / 2 ^ 8 * 2 ^ 8 + val % 2 ^ 8 % 2 ^ 8) (e.word s reg (val % 2 ^ 16))
          ∙ low_byte_of_word val)
    | inr other ↦ elim (Bool-cases (width == 1)) [
      | inl one ↦
          let same : width ≡ 1 = ==→eq width 1 one in
          rw same (e.byte s reg (val % 2 ^ 8) ∙ omega arith)
      | inr four ↦
          let s₄ = a.write_dword s reg val in
          rw (other, four, pci_write_config)
            (e.byte_in_dword (a.write_word s₄ reg (val % 2 ^ 16)) reg (val % 2 ^ 8)
              ∙ ap (λ x. x / 2 ^ 8 * 2 ^ 8 + val % 2 ^ 8 % 2 ^ 8)
                  (e.word_in_dword s₄ reg (val % 2 ^ 16)
                    ∙ ap (λ x. x / 2 ^ 16 * 2 ^ 16 + val % 2 ^ 16 % 2 ^ 16) (e.dword s reg val)
                    ∙ low_word val)
              ∙ low_byte val)
    ]
  ]

  -- In the command register, pci_enable_io and pci_enable_busmaster set the bits that they are given,
  -- and pci_disable_io clears them.
  pub pci_enable_io-command :
      (s : Space) (command bits : ℕ)
      → (pci_read_config a (pci_enable_io a command s bits) command 2
          ≡ bit_or (pci_read_config a s command 2) bits % 2 ^ 16)
        × (pci_read_config a (pci_enable_busmaster a command bits s) command 2
            ≡ bit_or (pci_read_config a s command 2) bits % 2 ^ 16)
        × (pci_read_config a (pci_disable_io a command s bits) command 2
            ≡ bit_and (pci_read_config a s command 2) (2 ^ 32 - 1 - bits) % 2 ^ 16)
  unfolding pci_enable_io pci_enable_busmaster pci_disable_io
  pci_enable_io-command s command bits = (
    pci_read_config-pci_write_config s command _ 2,
    pci_read_config-pci_write_config s command _ 2,
    pci_read_config-pci_write_config s command _ 2,
  )

-- le32enc: the bytes that it stores.
unfoldable pub le32enc : ℕ → List ℕ
le32enc u = u % 2 ^ 8 ∷ u / 2 ^ 8 % 2 ^ 8 ∷ u / 2 ^ 16 % 2 ^ 8 ∷ u / 2 ^ 24 % 2 ^ 8 ∷ []

-- The number that bytes stand for, the low one first.
abbrev pub decode : List ℕ → ℕ
decode [] = 0
decode (b ∷ bs) = b + 2 ^ 8 * decode bs

-- The bytes that le32enc stores are the 32-bit number, the low byte first.
pub decode-le32enc : (u : ℕ) → decode (le32enc u) ≡ u % 2 ^ 32
unfolding le32enc
decode-le32enc u = omega arith
