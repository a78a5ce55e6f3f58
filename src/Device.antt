-- ===== src/Device.antt =====
-- bsd_eth_drivers/libbsdport/devicet.c and devicet.h: the list of attached devices, and the search
-- for the network device that an interface name asks for.
-- Strings are lists of bytes without the final NUL. `int` values that can be negative are 32-bit
-- patterns. What a driver does in `probe` and `attach` is a function of its `methods`; the softc and
-- the description text that it writes are not modelled.
pub mod Name
pub mod Search
pub mod First
pub mod Unique
mod Tests
use Prim.Native.Nat.{bit_or}
use rtems_libbsdport.Prelude.{
  ℕ, zero, suc, ◌+◌, ◌-◌, ◌*◌, ◌/◌, ◌%◌, ◌^◌, ◌≡◌, Bool, true, false, not, ◌&&◌, ◌||◌, Option, none,
  some, List, [], ◌∷◌, ◌++◌, ◌==◌, if◌then◌else◌, ltb, leb,
}
use rtems_libbsdport.Prelude.Lists.{length, get_elem?, take, drop}

abbrev pub Bytes : Type 0
Bytes = List ℕ

-- `pcidev_t`
pub record PciDev : Type 0 where
  pub bus : ℕ
  pub dev : ℕ
  pub fun : ℕ

-- The methods of a driver that this file calls: `probe` returns a 32-bit pattern, `attach` an errno.
pub record Methods : Type 0 where
  pub probe : PciDev → ℕ
  pub attach : PciDev → (unit : ℕ) → ℕ

-- `struct driver`. `index` tells the drivers of the table apart, as their addresses do.
pub record Driver : Type 0 where
  pub index : ℕ
  pub name : Option Bytes
  pub methods : Option Methods
  pub type : ℕ

-- `struct device`, as far as this file uses it.
pub record Device : Type 0 where
  pub pci : PciDev
  pub type : ℕ
  pub drv : ℕ
  pub unit : ℕ
  pub nameunit : Bytes
  pub attached : Bool

-- What the file takes from the system: PCI configuration space, the C library's conversions, and
-- whether `malloc` serves the driver with the given index.
pub record System : Type 0 where
  pub pci_bus_count : ℕ
  pub pci_max_devices : ℕ
  pub pci_max_functions : ℕ
  pub pci_devfn : ℕ → ℕ → ℕ
  pub vendor_id : (b d f : ℕ) → ℕ
  pub class_device : (b d f : ℕ) → ℕ
  pub header_type : (b d f : ℕ) → ℕ
  pub network_ethernet : ℕ
  pub scan_triple : Bytes → Option (ℕ × ℕ × ℕ)
  pub scan_int : Bytes → Option ℕ
  pub print_int : ℕ → Bytes
  pub has_memory : ℕ → Bool

-- An errno of this file, or one that a driver's `attach` returned.
pub data Error : Type 0 where
  enotsup ebusy enodev : Error
  from_driver : ℕ → Error

-- A run of the C code: it returns, or it stops at an assertion, in `rtems_panic` or with an access
-- out of bounds.
pub data Run (A : Type 0) : Type 0 where
  ok : A → Run A
  fault : Run A

abbrev pub dev_type_pci : ℕ
dev_type_pci = 1

abbrev pub eq_bytes : Bytes → Bytes → Bool
eq_bytes [] [] = true
eq_bytes [] (y ∷ ys) = false
eq_bytes (x ∷ xs) [] = false
eq_bytes (x ∷ xs) (y ∷ ys) = (x == y) && eq_bytes xs ys

abbrev pub isdigit : ℕ → Bool
isdigit c = leb b'0' c && leb c b'9'

-- The comparison of `devequal` under equal types.
abbrev pub same_pci : PciDev → PciDev → Bool
same_pci a b = (a.bus == b.bus) && (a.dev == b.dev) && (a.fun == b.fun)

-- devequal: types other than PCI panic.
unfoldable pub devequal : Device → (type : ℕ) → PciDev → Run Bool
devequal a type p =
    if a.type == type
    then (if a.type == dev_type_pci then ok (same_pci a.pci p) else fault)
    else ok false

-- devattached: the first device of the list at the place.
unfoldable pub devattached : List Device → (type : ℕ) → PciDev → Run (Option Device)
unfolding devequal
devattached [] type p = ok none
devattached (x ∷ xs) type p =
    let rest = devattached xs type p in
    elim (devequal x type p) [ fault ↦ fault | ok hit ↦ if hit then ok (some x) else rest ]

-- get_pci_triple, as a 32-bit pattern.
unfoldable pub get_pci_triple : System → Bytes → ℕ
get_pci_triple sys drvnam = elim (sys.scan_triple drvnam) [
  | none ↦ 2 ^ 32 - 1
  | some (b, d, f) ↦ bit_or (b * 2 ^ 8 % 2 ^ 32) (sys.pci_devfn d f)
]

-- The loop of get_name_unit, with `k` for `i + 1`: the digits at the end are skipped.
unfoldable pub skip_digits : Bytes → ℕ → ℕ
skip_digits nm zero = 0
skip_digits nm (suc i) =
    let rest = skip_digits nm i in
    elim (get_elem? nm i) [ none ↦ suc i | some c ↦ if isdigit c then rest else suc i ]

-- The size of the buffer `nm`.
abbrev pub name_size : ℕ
name_size = 20

-- get_name_unit behind its loop. It reads the number from the character before the digits on; with
-- nothing there it reads before the string. The name and its NUL must fit the caller's buffer.
unfoldable pub name_parts : System → Bytes → (k : ℕ) → Run (Bytes × ℕ)
name_parts sys nm k =
    if (k == 0) || leb name_size k
    then fault
    else ok (take k nm, elim (sys.scan_int (drop (k - 1) nm)) [ none ↦ 0 | some n ↦ n ])

-- get_name_unit: the pattern for the driver's name, and the unit.
unfoldable pub get_name_unit : System → Bytes → Run (Bytes × ℕ)
unfolding skip_digits name_parts
get_name_unit sys [] = ok ([], 0)
get_name_unit sys (c ∷ cs) = name_parts sys (c ∷ cs) (skip_digits (c ∷ cs) (length (c ∷ cs)))

-- matches: the empty pattern and one that begins with `*` match every driver; a null name is not
-- looked at otherwise.
unfoldable pub matches : Driver → Bytes → Run Bool
matches dr [] = ok true
matches dr (c ∷ cs) =
    if c == b'*' then ok true else elim dr.name [ none ↦ fault | some n ↦ ok (eq_bytes (c ∷ cs) n) ]

unfoldable pub pci_slot_empty : System → (b d f : ℕ) → Bool
pci_slot_empty sys b d f = sys.vendor_id b d f == 0xffff

unfoldable pub pci_is_ether : System → (b d f : ℕ) → Bool
unfolding pci_slot_empty
pci_is_ether sys b d f =
    if pci_slot_empty sys b d f then false else sys.class_device b d f == sys.network_ethernet

unfoldable pub pci_num_functions : System → (b d : ℕ) → ℕ
unfolding pci_slot_empty
pci_num_functions sys b d =
    if pci_slot_empty sys b d 0
    then 0
    else if sys.header_type b d 0 / 2 ^ 7 % 2 == 1
    then sys.pci_max_functions
    else 1

-- UNITMATCH: a negative wanted unit names a PCI place.
unfoldable pub unitmatch : (wanted unit bdfunit : ℕ) → Bool
unitmatch wanted unit bdfunit =
    if leb (2 ^ 31) wanted then wanted % 2 ^ 16 == bdfunit else wanted == unit

unfoldable pub bdfunit_of : System → PciDev → ℕ
bdfunit_of sys p = bit_or (p.bus * 2 ^ 8) (sys.pci_devfn p.dev p.fun)
