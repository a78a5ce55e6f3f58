-- ===== src/Device/Unique.antt =====
-- The list of attached devices: no two at one place, and changed only by a success.
use rtems_libbsdport.Prelude.{
  ℕ, ◌+◌, ◌<◌, ◌^◌, ◌%◌, ◌≡◌, refl, subst, ap, ◌∙◌, true, false, ◌||◌, none, List, [], ◌∷◌, ◌++◌,
  arith, ◌==◌, ◌⊎◌, inl, inr, Bool-cases, Option-cases, ==→eq,
}
use rtems_libbsdport.Device.{
  Bytes, get_pci_triple, PciDev, Methods, Driver, Device, System, Error, Run, ok, fault,
  devattached, unitmatch, bdfunit_of, dev_type_pci, same_pci,
}
use rtems_libbsdport.Device.Search.{
  ◌>>=◌, Outcome, found, failed, Progress, go_on, bail, devattach, visit, visit_all,
  ether_functions, try_driver, try_drivers, is_unused, netdriver_attach, wanted_of,
}

-- The device `d` is at a place where the list has none, and it is what the search wanted.
pub record IsFresh (sys : System) (q : List Device) (wanted : ℕ) (d : Device) : Type 0 where
  pub free : devattached q d.type d.pci ≡ ok none
  pub type : d.type ≡ dev_type_pci
  pub attached : d.attached ≡ true
  pub wanted_unit : ℕ
  pub matched : ((wanted == 0) || unitmatch wanted wanted_unit (bdfunit_of sys d.pci)) ≡ true

module _ (sys : System) (q : List Device) (w : ℕ) (d : Device) where
  devattach-found :
      (dr : Driver) (m : Methods) (p : PciDev) (k : ℕ)
      → devattach sys dr m p k ≡ found d
      → (d.pci ≡ p) × (d.type ≡ dr.type) × (d.attached ≡ true)
  unfolding devattach
  devattach-found dr m p k e = elim (Bool-cases (m.attach p k == 0)) [
    | inl z ↦ ground arith
    | inr z ↦ ground arith
  ]

  visit-found :
      (dr : Driver) (m : Methods) (p : PciDev) (t u : ℕ)
      → visit sys q w dr m p t u ≡ ok (bail (found d))
      → (devattached q dr.type p ≡ ok none)
        × (((w == 0) || unitmatch w (u + 1) (bdfunit_of sys p)) ≡ true)
        × (devattach sys dr m p (t + 1) ≡ found d)
  unfolding visit
  visit-found dr m p t u e = ground arith

  visit-IsFresh :
      (dr : Driver) (m : Methods) (p : PciDev) (t u : ℕ)
      → dr.type ≡ dev_type_pci
      → visit sys q w dr m p t u ≡ ok (bail (found d))
      → IsFresh sys q w d
  visit-IsFresh dr m p t u ty e =
      let (free, hit, at) = visit-found dr m p t u e in
      let (place, type, att) = devattach-found dr m p (t + 1) at in
      record {
        free = rw (place, type) free;
        type = type ∙ ty;
        attached = att;
        wanted_unit = u + 1;
        matched = rw place hit;
      }

  -- A step of a loop that ends in success ends there, or goes on to success.
  bail-cases :
      {A : Type 0} (done : A) (r : Run Progress) (next : (t u : ℕ) → Run A) (stop : Outcome → A)
      → (r >>= elim [ go_on t u ↦ next t u | bail o ↦ ok (stop o) ]) ≡ ok done
      → ((o : Outcome) × (r ≡ ok (bail o)) × (stop o ≡ done))
        ⊎ ((t : ℕ) × (u : ℕ) × (r ≡ ok (go_on t u)) × (next t u ≡ ok done))
  bail-cases done (ok (go_on t u)) next stop e = inr (t, u, refl, e)
  bail-cases done (ok (bail o)) next stop e = inl (o, refl, cc)
  bail-cases done fault next stop e = cc

  visit_all-IsFresh :
      (dr : Driver) (m : Methods) (ps : List PciDev) (t u : ℕ)
      → dr.type ≡ dev_type_pci
      → visit_all sys q w dr m ps t u ≡ ok (bail (found d))
      → IsFresh sys q w d
  unfolding visit_all
  visit_all-IsFresh dr m [] t u ty e = cc
  visit_all-IsFresh dr m (p ∷ ps) t u ty e =
      elim (bail-cases (bail (found d)) (visit sys q w dr m p t u) (visit_all sys q w dr m ps) bail
        e) [
          | inl (o, here, same) ↦ visit-IsFresh dr m p t u ty (here ∙ ap ok same)
          | inr (t', u', _, rest) ↦ visit_all-IsFresh dr m ps t' u' ty rest
        ]

  try_driver-IsFresh :
      (dr : Driver) (pat : Bytes) (u : ℕ)
      → try_driver sys q w pat dr u ≡ ok (bail (found d))
      → IsFresh sys q w d
  unfolding try_driver
  try_driver-IsFresh dr pat u e = elim (Option-cases dr.methods) [
    | inl n ↦ ground arith
    | inr (m, some_m) ↦ elim (Bool-cases (dr.type == dev_type_pci)) [
      | inl pci ↦ visit_all-IsFresh dr m (ether_functions sys) 0 u (==→eq _ _ pci) (ground arith)
      | inr other ↦ ground arith
    ]
  ]

  try_drivers-IsFresh :
      (drs : List Driver) (pat : Bytes) (u : ℕ)
      → try_drivers sys q w pat drs u ≡ ok (found d)
      → IsFresh sys q w d
  unfolding try_drivers
  try_drivers-IsFresh [] pat u e = cc
  try_drivers-IsFresh (dr ∷ drs) pat u e = elim (Bool-cases (is_unused dr)) [
    | inl skip ↦ try_drivers-IsFresh drs pat u (rw skip at e)
    | inr used ↦
        elim (bail-cases (found d) (try_driver sys q w pat dr u)
          (λ t u'. try_drivers sys q w pat drs u') (λ o. o) (rw used at e)) [
            | inl (o, here, same) ↦ try_driver-IsFresh dr pat u (here ∙ ap (λ x. ok (bail x)) same)
            | inr (t', u', _, rest) ↦ try_drivers-IsFresh drs pat u' rest
          ]
  ]

abbrev pub NoneAt : List Device → PciDev → Type 0
NoneAt [] p = Unit {0}
NoneAt (x ∷ xs) p = (same_pci x.pci p ≡ false) × NoneAt xs p

-- All devices are PCI devices, and no two stand at one place.
abbrev pub IsUnique : List Device → Type 0
IsUnique [] = Unit {0}
IsUnique (x ∷ xs) = (x.type ≡ dev_type_pci) × NoneAt xs x.pci × IsUnique xs

same_pci-sym : (a b : PciDev) → same_pci a b ≡ same_pci b a
same_pci-sym a b = ground arith

devattached-NoneAt :
    (q : List Device) (p : PciDev)
    → IsUnique q
    → devattached q dev_type_pci p ≡ ok none
    → NoneAt q p
unfolding devattached
devattached-NoneAt [] p v e = tt
devattached-NoneAt (x ∷ xs) p v e =
    (ground (arith, v.0), devattached-NoneAt xs p v.2 (ground (arith, v.0)))

NoneAt-append_one :
    (q : List Device) (d : Device) (p : PciDev)
    → NoneAt q p
    → same_pci d.pci p ≡ false
    → NoneAt (q ++ (d ∷ [])) p
NoneAt-append_one [] d p n h = (h, tt)
NoneAt-append_one (x ∷ xs) d p n h = (n.0, NoneAt-append_one xs d p n.1 h)

IsUnique-append_one :
    (q : List Device) (d : Device)
    → IsUnique q
    → d.type ≡ dev_type_pci
    → NoneAt q d.pci
    → IsUnique (q ++ (d ∷ []))
IsUnique-append_one [] d v t n = (t, tt, tt)
IsUnique-append_one (x ∷ xs) d v t n = (
  v.0,
  NoneAt-append_one xs d x.pci v.1 (same_pci-sym d.pci x.pci ∙ n.0),
  IsUnique-append_one xs d v.2 t n.1,
)

-- A search that ends: what it wanted, and what it did to the list.
attach-cases :
    (sys : System) (table : List Driver) (q q' : List Device) (name : Bytes) (o : Outcome)
    → netdriver_attach sys table q name true ≡ ok (o, q')
    → ((e : Error) × (o ≡ failed e) × (q' ≡ q))
      ⊎ ((d : Device) × (pat : Bytes) × (w : ℕ) × (o ≡ found d)
          × (q' ≡ q ++ (d ∷ []))
          × (wanted_of sys name ≡ ok (pat, w))
          × (try_drivers sys q w pat table 0 ≡ ok (found d)))
unfolding netdriver_attach
attach-cases sys table q q' name o e = after (wanted_of sys name) refl e
  where
    settle : Outcome → Run (Outcome × List Device)
    settle = elim [ found d ↦ ok (found d, q ++ (d ∷ [])) | failed x ↦ ok (failed x, q) ]

    Cases : Type 0
    Cases =
        ((x : Error) × (o ≡ failed x) × (q' ≡ q))
        ⊎ ((d : Device) × (pat : Bytes) × (w : ℕ) × (o ≡ found d)
            × (q' ≡ q ++ (d ∷ []))
            × (wanted_of sys name ≡ ok (pat, w))
            × (try_drivers sys q w pat table 0 ≡ ok (found d)))

    search :
        (pat : Bytes) (w : ℕ) (r : Run Outcome)
        → wanted_of sys name ≡ ok (pat, w)
        → try_drivers sys q w pat table 0 ≡ r
        → (r >>= settle) ≡ ok (o, q')
        → Cases
    search pat w (ok (found d)) a b c = inr (d, pat, w, cc, cc, a, b)
    search pat w (ok (failed x)) a b c = inl (x, cc, cc)
    search pat w fault a b c = cc

    after :
        (r : Run (Bytes × ℕ))
        → wanted_of sys name ≡ r
        → (r >>= λ (pat, w). try_drivers sys q w pat table 0 >>= settle) ≡ ok (o, q')
        → Cases
    after (ok (pat, w)) a c = search pat w (try_drivers sys q w pat table 0) a refl c
    after fault a c = cc

-- However the search ends, the list of devices changes only by the device found, at its end; no two
-- devices of the list are at one place if that was so before.
pub attach-IsUnique :
    (sys : System) (table : List Driver) (q q' : List Device) (name : Bytes) (o : Outcome)
    → IsUnique q
    → netdriver_attach sys table q name true ≡ ok (o, q')
    → IsUnique q'
      × (((x : Error) × (o ≡ failed x) × (q' ≡ q))
          ⊎ ((d : Device) × (o ≡ found d) × (q' ≡ q ++ (d ∷ [])) × (d.attached ≡ true)))
attach-IsUnique sys table q q' name o v e = elim (attach-cases sys table q q' name o e) [
  | inl (x, f, same) ↦ (rw same v, inl (x, f, same))
  | inr (d, pat, w, f, grown, _, run) ↦
      let fresh = try_drivers-IsFresh sys q w d table pat 0 run in
      (
        rw grown (
            IsUnique-append_one q d v fresh.type
              (devattached-NoneAt q d.pci v (rw fresh.type at fresh.free))),
        inr (d, f, grown, fresh.attached),
      )
]

wanted-place :
    (sys : System) (name pat : Bytes) (w triple : ℕ)
    → get_pci_triple sys name ≡ triple
    → triple < 2 ^ 31
    → wanted_of sys name ≡ ok (pat, w)
    → w ≡ triple + 2 ^ 31
unfolding wanted_of
wanted-place sys name pat w triple t l e = ground arith

unitmatch_place :
    (triple w unit bdf : ℕ)
    → w ≡ triple + 2 ^ 31
    → ((w == 0) || unitmatch w unit bdf) ≡ true
    → w % 2 ^ 16 ≡ bdf
unfolding unitmatch
unitmatch_place triple w unit bdf e h = ground arith

-- A name that is a PCI place, bus, device and function, gets the device at that place or none.
pub attach-place :
    (sys : System) (table : List Driver) (q q' : List Device) (name : Bytes) (d : Device)
    (triple : ℕ)
    → get_pci_triple sys name ≡ triple
    → triple < 2 ^ 31
    → netdriver_attach sys table q name true ≡ ok (found d, q')
    → bdfunit_of sys d.pci ≡ triple % 2 ^ 16
attach-place sys table q q' name d triple t l e =
    elim (attach-cases sys table q q' name (found d) e) [
      | inl (x, f, same) ↦ cc
      | inr (d', pat, w, f, grown, want, run) ↦
          let fresh = try_drivers-IsFresh sys q w d' table pat 0 run in
          let same : d' ≡ d = cc in
          let place : w % 2 ^ 16 ≡ bdfunit_of sys d'.pci =
            unitmatch_place triple w fresh.wanted_unit (bdfunit_of sys d'.pci)
              (wanted-place sys name pat w triple t l want) fresh.matched in
          let low : w ≡ triple + 2 ^ 31 = wanted-place sys name pat w triple t l want in
          subst (λ x. bdfunit_of sys x.pci ≡ triple % 2 ^ 16) same (omega arith)
    ]
