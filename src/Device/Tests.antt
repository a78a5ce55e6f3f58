-- ===== src/Device/Tests.antt =====
-- Runs of the device functions at concrete systems.
use rtems_libbsdport.Prelude.{
  ℕ, ◌+◌, ◌*◌, ◌≡◌, refl, true, [], ◌∷◌, ◌++◌, ◌==◌, if◌then◌else◌, Option, none, some, inr, ◌⊎◌,
}
use rtems_libbsdport.Device.{
  Bytes, PciDev, Methods, Driver, Device, System, Error, ok, devattached, get_name_unit,
  get_pci_triple, matches, unitmatch, pci_num_functions, pci_is_ether, dev_type_pci,
}
use rtems_libbsdport.Device.Search.{
  found, failed, ether_functions, netdriver_attach, wanted_of, devattach, is_unused,
}
use rtems_libbsdport.Device.First.{AllPassed, Passed, own, settled, attach-first}
use rtems_libbsdport.Device.Unique.{IsUnique, attach-IsUnique}

-- One bus with Ethernet functions in the slots 0 and 1. The name "@" stands for bus 0, device 1.
abbrev small_system : System
small_system = record {
  pci_bus_count = 1;
  pci_max_devices = 3;
  pci_max_functions = 8;
  pci_devfn = λ d f. d * 8 + f;
  vendor_id = λ b d f. if d == 2 then 0xffff else 0x8086;
  class_device = λ b d f. 0x200;
  header_type = λ b d f. 0;
  network_ethernet = 0x200;
  scan_triple = at_sign;
  scan_int = λ s. none;
  print_int = λ n. (b'0' + n) ∷ [];
  has_memory = λ i. true;
}
  where
    at_sign : Bytes → Option (ℕ × ℕ × ℕ)
    at_sign [] = none
    at_sign (c ∷ cs) = if c == b'@' then some (0, 1, 0) else none

-- The name "le".
abbrev le_name : Bytes
le_name = b'l' ∷ b'e' ∷ []

abbrev le_methods : Methods
le_methods = record { probe = λ p. 0; attach = λ p unit. 0 }

abbrev le_driver : Driver
le_driver = record {
  index = 1;
  name = some le_name;
  methods = some le_methods;
  type = dev_type_pci;
}

abbrev em_driver : Driver
em_driver = record {
  index = 0;
  name = some (b'e' ∷ b'm' ∷ []);
  methods = some le_methods;
  type = dev_type_pci;
}

abbrev place : ℕ → PciDev
place d = record { bus = 0; dev = d; fun = 0 }

abbrev le_device : ℕ → ℕ → Device
le_device d n = record {
  pci = place d;
  type = dev_type_pci;
  drv = 1;
  unit = n;
  nameunit = le_name ++ ((b'0' + n) ∷ []);
  attached = true;
}

le_passed : AllPassed small_system (le_device 0 1 ∷ []) le_driver le_methods (place 0 ∷ [])
unfolding devattached
le_passed = AllPassed.cons (Passed.taken (le_device 0 1) refl) AllPassed.nil

-- The second "le" device becomes unit 2.
attach-first_example :
    netdriver_attach small_system (em_driver ∷ le_driver ∷ []) (le_device 0 1 ∷ []) le_name true
    ≡ ok (
        settled (le_device 0 1 ∷ []) (
          devattach small_system le_driver le_methods
            (place 1)
            (own small_system (le_device 0 1 ∷ []) le_driver le_methods le_passed + 1)))
unfolding wanted_of get_pci_triple matches is_unused ether_functions devattached get_name_unit
    pci_num_functions pci_is_ether
attach-first_example =
    attach-first small_system (le_device 0 1 ∷ []) le_name le_name (em_driver ∷ []) [] le_driver
      le_methods le_passed (place 1) [] refl (inr (refl, refl), tt) refl refl refl refl refl refl
      refl refl

attach-IsUnique_example :
    IsUnique (le_device 0 1 ∷ le_device 1 2 ∷ [])
    × (((x : Error) × (found (le_device 1 2) ≡ failed x)
          × (le_device 0 1 ∷ le_device 1 2 ∷ [] ≡ le_device 0 1 ∷ []))
        ⊎ ((d : Device) × (found (le_device 1 2) ≡ found d)
            × (le_device 0 1 ∷ le_device 1 2 ∷ [] ≡ le_device 0 1 ∷ d ∷ [])
            × (d.attached ≡ true)))
unfolding netdriver_attach get_pci_triple get_name_unit matches ether_functions pci_num_functions
    pci_is_ether devattached unitmatch
attach-IsUnique_example =
    attach-IsUnique small_system (em_driver ∷ le_driver ∷ []) (le_device 0 1 ∷ [])
      (le_device 0 1 ∷ le_device 1 2 ∷ []) le_name (found (le_device 1 2)) (refl, tt, tt) refl
