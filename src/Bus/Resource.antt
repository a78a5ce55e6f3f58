-- ===== src/Bus/Resource.antt =====
-- Bus resources: allocation from the PCI configuration space, and what a driver reads off them.
-- A resource is the number that the C code casts to a pointer, and 0 is the null pointer.
use Prim.Native.Nat.{bit_and}
use rtems_libbsdport.Prelude.{
  ℕ, ◌≡◌, ◌≢◌, Bool, true, false, not, ◌&&◌, ◌||◌, List, [], ◌∷◌, arith, ◌==◌, if◌then◌else◌,
}
use rtems_libbsdport.Prelude.Words.{is_set}
use rtems_libbsdport.Prelude.Memory.{null}

-- The device's configuration space, and the masks of the PCI header file.
pub record Config : Type 0 where
  pub read_dword : ℕ → ℕ
  pub interrupt_line : ℕ
  pub space_io : ℕ
  pub io_mask : ℕ
  pub mem_mask : ℕ

-- SYS_RES_IOPORT, SYS_RES_MEMORY and SYS_RES_IRQ
abbrev pub ioport : ℕ
ioport = 1

abbrev pub memory : ℕ
memory = 2

abbrev pub irq : ℕ
irq = 3

-- `struct resource_spec`; an array of them ends with the type -1, which is not an element here.
pub record Spec : Type 0 where
  pub type : ℕ
  pub rid : ℕ
  pub flags : ℕ

-- RF_OPTIONAL
abbrev pub optional_bit : ℕ
optional_bit = 3

pub data Run (A : Type 0) : Type 0 where
  ok : A → Run A
  panic : Run A

pub data BusSpace : Type 0 where
  mem io : BusSpace

abbrev is_io : Config → ℕ → Bool
is_io c ba = not (bit_and ba c.space_io == 0)

abbrev is_same : Bool → Bool → Bool
is_same true b = b
is_same false b = not b

-- bus_alloc_resource_any: null for a base address register of the other kind.
unfoldable pub bus_alloc_resource_any : Config → (type rid : ℕ) → Run ℕ
bus_alloc_resource_any c type rid =
    let ba = c.read_dword rid in
    if (type == ioport) || (type == memory)
    then ok (if is_same (type == ioport) (is_io c ba) then ba else null)
    else if type == irq
    then ok c.interrupt_line
    else panic

-- rman_get_bustag and rman_get_bushandle
unfoldable pub rman_get_bustag : Config → ℕ → BusSpace
rman_get_bustag c r = if is_io c r then io else mem

unfoldable pub rman_get_bushandle : Config → ℕ → ℕ
rman_get_bushandle c r = bit_and r (if is_io c r then c.io_mask else c.mem_mask)

-- bus_release_resources: bus_release_resource does nothing, and the entry becomes null.
unfoldable pub bus_release_resources : List ℕ → List ℕ
bus_release_resources [] = []
bus_release_resources (r ∷ rs) = (if r == null then r else null) ∷ bus_release_resources rs

-- The two loops of bus_alloc_resources: the first sets all entries to null, so an entry that is not
-- reached is null. `done` are the entries before this one, the last first.
abbrev pub nulls : List Spec → List ℕ
nulls [] = []
nulls (x ∷ xs) = null ∷ nulls xs

abbrev pub reverse_onto : List ℕ → List ℕ → List ℕ
reverse_onto [] ys = ys
reverse_onto (x ∷ xs) ys = reverse_onto xs (x ∷ ys)

-- The result: 0 or ENXIO, and the entries of `res`.
pub data Allocated : Type 0 where
  all_done : List ℕ → Allocated
  enxio : List ℕ → Allocated

unfoldable pub alloc_loop : Config → List ℕ → List Spec → Run Allocated
unfolding bus_alloc_resource_any bus_release_resources
alloc_loop c done [] = ok (all_done (reverse_onto done []))
alloc_loop c done (x ∷ xs) = elim (bus_alloc_resource_any c x.type x.rid) [
  | panic ↦ panic
  | ok r ↦
      let rest = alloc_loop c (r ∷ done) xs in
      if (r == null) && not (is_set x.flags optional_bit)
      then ok (enxio (bus_release_resources (reverse_onto done (r ∷ nulls xs))))
      else rest
]

-- bus_alloc_resources
unfoldable pub bus_alloc_resources : Config → List Spec → Run Allocated
unfolding alloc_loop
bus_alloc_resources c specs = alloc_loop c [] specs

-- SYS_RES_MEMORY or SYS_RES_IOPORT
abbrev pub type_of : BusSpace → ℕ
type_of mem = memory
type_of io = ioport

-- A port or memory resource that is allocated, and not null, is in the bus space that was asked for.
pub alloc-bustag :
    (c : Config) (k : BusSpace) (rid r : ℕ)
    → bus_alloc_resource_any c (type_of k) rid ≡ ok r
    → r ≢ null
    → rman_get_bustag c r ≡ k
unfolding bus_alloc_resource_any rman_get_bustag
alloc-bustag c mem rid r e n = ground arith
alloc-bustag c io rid r e n = ground arith
