-- ===== src/Device/Search.antt =====
-- libbsdport_netdriver_attach of devicet.c, from the innermost loop outwards, and the functions that
-- walk the list of attached devices.
use rtems_libbsdport.Prelude.{
  ℕ, zero, suc, ◌+◌, ◌-◌, ◌^◌, Bool, true, false, ◌||◌, Option, none, some, List, [], ◌∷◌, ◌++◌,
  ◌==◌, if◌then◌else◌, leb,
}
use rtems_libbsdport.Device.{
  Bytes, PciDev, Methods, Driver, Device, System, Error, enotsup, ebusy, enodev, from_driver, Run,
  ok, fault, dev_type_pci, eq_bytes, devattached, get_pci_triple, get_name_unit, matches,
  pci_is_ether, pci_num_functions, unitmatch, bdfunit_of,
}

infixl 5 ◌>>=◌
abbrev pub ◌>>=◌ : {A B : Type 0} → Run A → (A → Run B) → Run B
ok a >>= f = f a
fault >>= f = fault

-- What the search came to: a new device at the end of the list, or an error.
pub data Outcome : Type 0 where
  found : Device → Outcome
  failed : Error → Outcome

-- Where the search stands after a PCI function: it goes on with the counters `thisunit` and `unit`,
-- or it is over.
pub data Progress : Type 0 where
  go_on : (thisunit unit : ℕ) → Progress
  bail : Outcome → Progress

-- BUS_PROBE_DEFAULT and BUS_PROBE_LOW_PRIORITY, the results of `probe` that accept a device.
abbrev pub accepts : ℕ → Bool
accepts prob = (prob == 0) || (prob == 2 ^ 32 - 1)

-- devattach
unfoldable pub devattach : System → Driver → Methods → PciDev → (unit : ℕ) → Outcome
devattach sys dr m p unit =
    let error = m.attach p unit in
    let name : Bytes = elim dr.name [ none ↦ [] | some n ↦ n ] in
    if error == 0
    then found (record {
      pci = p;
      type = dr.type;
      drv = dr.index;
      unit = unit;
      nameunit = name ++ sys.print_int unit;
      attached = true;
    })
    else failed (from_driver error)

-- The body of the loops over the PCI functions, for an Ethernet function.
unfoldable pub visit :
    System
    → List Device
    → (wanted : ℕ) → Driver
    → Methods
    → PciDev
    → (thisunit unit : ℕ) → Run Progress
unfolding devattach
visit sys devq wanted dr m p thisunit unit =
    let hit = unitmatch wanted (unit + 1) (bdfunit_of sys p) in
    devattached devq dr.type p >>= elim [
      | some d ↦
          if hit
          then ok (bail (failed ebusy))
          else ok (go_on (if d.drv == dr.index then thisunit + 1 else thisunit) (unit + 1))
      | none ↦
          if accepts (m.probe p)
          then (if (wanted == 0) || hit
              then ok (bail (devattach sys dr m p (thisunit + 1)))
              else ok (go_on (thisunit + 1) (unit + 1)))
          else ok (go_on thisunit unit)
    ]

-- The three nested loops, over the functions that they reach.
unfoldable pub visit_all :
    System
    → List Device
    → (wanted : ℕ) → Driver
    → Methods
    → List PciDev
    → (thisunit unit : ℕ) → Run Progress
unfolding visit
visit_all sys devq wanted dr m [] thisunit unit = ok (go_on thisunit unit)
visit_all sys devq wanted dr m (p ∷ ps) thisunit unit =
    visit sys devq wanted dr m p thisunit unit
    >>= elim [ go_on t u ↦ visit_all sys devq wanted dr m ps t u | bail o ↦ ok (bail o) ]

-- 0, 1, …, n - 1, as a `for` loop runs through them.
abbrev pub below_from : (i n : ℕ) → List ℕ
below_from i zero = []
below_from i (suc n) = i ∷ below_from (i + 1) n

abbrev pub concat_map : {A B : Type 0} → (A → List B) → List A → List B
concat_map f [] = []
concat_map f (x ∷ xs) = f x ++ concat_map f xs

ether_at : System → (b d f : ℕ) → List PciDev
ether_at sys b d f =
    if pci_is_ether sys b d f then record { bus = b; dev = d; fun = f } ∷ [] else []

-- The Ethernet functions in the order of the loops over bus, device and function.
unfoldable pub ether_functions : System → List PciDev
unfolding ether_at
ether_functions sys =
    concat_map
      (λ b.
        concat_map (λ d. concat_map (ether_at sys b d) (below_from 0 (pci_num_functions sys b d)))
          (below_from 0 sys.pci_max_devices))
      (below_from 0 sys.pci_bus_count)

-- The body of the loop over the drivers. Without memory `dev` is null, and `devfree (dev)` reads it.
unfoldable pub try_driver :
    System → List Device → (wanted : ℕ) → (pat : Bytes) → Driver → (unit : ℕ) → Run Progress
unfolding visit_all
try_driver sys devq wanted pat dr unit = matches dr pat >>= λ hit.
    if hit
    then elim dr.methods [
      | none ↦ fault
      | some m ↦
          if dr.type == dev_type_pci
          then (if sys.has_memory dr.index
              then visit_all sys devq wanted dr m (ether_functions sys) 0 unit
              else fault)
          else ok (go_on 0 unit)
    ]
    else ok (go_on 0 unit)

unfoldable pub is_unused : Driver → Bool
is_unused dr = elim dr.name [
  | some n ↦ false
  | none ↦ elim dr.methods [ some m ↦ false | none ↦ true ]
]

-- The loop over `libbsdport_netdriver_table`.
unfoldable pub try_drivers :
    System → List Device → (wanted : ℕ) → (pat : Bytes) → List Driver → (unit : ℕ) → Run Outcome
unfolding is_unused try_driver
try_drivers sys devq wanted pat [] unit = ok (failed enodev)
try_drivers sys devq wanted pat (dr ∷ drs) unit =
    let skipped = try_drivers sys devq wanted pat drs unit in
    if is_unused dr
    then skipped
    else try_driver sys devq wanted pat dr unit
      >>= elim [ go_on t u ↦ try_drivers sys devq wanted pat drs u | bail o ↦ ok o ]

-- The wanted unit and the pattern that a name stands for: a PCI place, as a negative number, or the
-- parts of the name.
unfoldable pub wanted_of : System → Bytes → Run (Bytes × ℕ)
wanted_of sys name =
    let triple = get_pci_triple sys name in
    if leb (2 ^ 31) triple then get_name_unit sys name else ok ([], triple + 2 ^ 31)

-- libbsdport_netdriver_attach, with the list of devices after it.
unfoldable pub netdriver_attach :
    System
    → List Driver
    → List Device
    → (name : Bytes) → (attaching : Bool) → Run (Outcome × List Device)
unfolding wanted_of try_drivers
netdriver_attach sys table devq name false = ok (failed enotsup, devq)
netdriver_attach sys table devq name true = wanted_of sys name >>= λ (pat, wanted).
    try_drivers sys devq wanted pat table 0
    >>= elim [ found d ↦ ok (found d, devq ++ (d ∷ [])) | failed e ↦ ok (failed e, devq) ]

-- libbsdport_netdriver_get_dev
unfoldable pub netdriver_get_dev : List Device → Option Bytes → Option Device
netdriver_get_dev devq none = none
netdriver_get_dev [] (some name) = none
netdriver_get_dev (d ∷ ds) (some name) =
    if eq_bytes name d.nameunit then some d else netdriver_get_dev ds (some name)
