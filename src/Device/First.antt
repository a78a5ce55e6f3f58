-- ===== src/Device/First.antt =====
-- Which device the search takes when the name asks for any unit of a driver.
use rtems_libbsdport.Prelude.{
  ℕ, ◌+◌, ◌≡◌, refl, ap, ◌∙◌, true, false, none, some, List, [], ◌∷◌, ◌++◌, arith, ◌==◌,
  if◌then◌else◌, ◌⊎◌, inl, inr, eq→==,
}
use rtems_libbsdport.Device.{
  Bytes, PciDev, Methods, Driver, Device, System, Run, ok, devattached, matches, unitmatch,
  dev_type_pci,
}
use rtems_libbsdport.Device.Search.{
  ◌>>=◌, Outcome, found, failed, go_on, bail, accepts, devattach, visit, visit_all, ether_functions,
  try_driver, try_drivers, is_unused, netdriver_attach, wanted_of,
}

module _ (sys : System) (q : List Device) (dr : Driver) (m : Methods) where
  -- A function that the search for any unit passes over: one that is attached, or one that the
  -- driver's probe refuses.
  pub data Passed (p : PciDev) : Type 0 where
    taken : (d : Device) → devattached q dr.type p ≡ ok (some d) → Passed p
    refused : devattached q dr.type p ≡ ok none → accepts (m.probe p) ≡ false → Passed p

  pub data AllPassed : List PciDev → Type 0 where
    nil : AllPassed []
    cons : {p : PciDev} {ps : List PciDev} → Passed p → AllPassed ps → AllPassed (p ∷ ps)

  -- The functions that this driver has attached, among those that are passed over.
  pub own_one : {p : PciDev} → Passed p → ℕ
  own_one (taken d e) = if d.drv == dr.index then 1 else 0
  own_one (refused e f) = 0

  pub own : {ps : List PciDev} → AllPassed ps → ℕ
  unfolding own_one
  own nil = 0
  own (cons p ps) = own_one p + own ps

  visit-Passed :
      {p : PciDev} (h : Passed p) (t u : ℕ)
      → (u' : ℕ) × (visit sys q 0 dr m p t u ≡ ok (go_on (own_one h + t) u'))
  unfolding visit own_one unitmatch
  visit-Passed (taken d e) t u = (u + 1, rw e (ground arith))
  visit-Passed (refused e f) t u = (u, rw (e, f) (ground arith))

  visit_all-Passed :
      {ps : List PciDev} (h : AllPassed ps) (rest : List PciDev) (t u : ℕ)
      → (u' : ℕ) × (visit_all sys q 0 dr m (ps ++ rest) t u
          ≡ visit_all sys q 0 dr m rest (own h + t) u')
  unfolding visit_all own
  visit_all-Passed nil rest t u = (u, ap (λ k. visit_all sys q 0 dr m rest k u) (omega arith))
  visit_all-Passed (cons {ps = ps'} p ps) rest t u =
      let (u₁, e₁) = visit-Passed p t u in
      let (u₂, e₂) = visit_all-Passed ps rest (own_one p + t) u₁ in
      (
        u₂,
        ap
              (λ r. r >>= elim [
                | go_on t' u' ↦ visit_all sys q 0 dr m (ps' ++ rest) t' u'
                | bail o ↦ ok (bail o)
              ])
              e₁
            ∙ e₂
            ∙ ap (λ k. visit_all sys q 0 dr m rest k u₂) (omega arith),
      )

  visit-found :
      (p : PciDev) (t u : ℕ)
      → devattached q dr.type p ≡ ok none
      → accepts (m.probe p) ≡ true
      → visit sys q 0 dr m p t u ≡ ok (bail (devattach sys dr m p (t + 1)))
  unfolding visit
  visit-found p t u e a = rw (e, a)

  -- The search of one driver for any unit attaches the first function that is not attached yet and
  -- that the driver's probe accepts, under the unit that follows those the driver has before it.
  visit_all-first :
      {ps : List PciDev} (h : AllPassed ps) (p : PciDev) (rest : List PciDev) (t u : ℕ)
      → devattached q dr.type p ≡ ok none
      → accepts (m.probe p) ≡ true
      → visit_all sys q 0 dr m (ps ++ (p ∷ rest)) t u
        ≡ ok (bail (devattach sys dr m p (own h + t + 1)))
  unfolding visit_all
  visit_all-first h p rest t u e a =
      let (u', skip) = visit_all-Passed h (p ∷ rest) t u in
      skip
      ∙ ap
          (λ r.
            r >>= elim [ go_on t' u' ↦ visit_all sys q 0 dr m rest t' u' | bail o ↦ ok (bail o) ])
          (visit-found p (own h + t) u' e a)

-- A driver that the search passes over: an unused slot of the table, or one with another name.
abbrev pub AllSkipped : Bytes → List Driver → Type 0
AllSkipped pat [] = Unit {0}
AllSkipped pat (dr ∷ drs) =
    ((is_unused dr ≡ true) ⊎ ((is_unused dr ≡ false) × (matches dr pat ≡ ok false)))
    × AllSkipped pat drs

try_drivers-AllSkipped :
    (sys : System) (q : List Device) (w : ℕ) (pat : Bytes) (before after : List Driver) (u : ℕ)
    → AllSkipped pat before
    → try_drivers sys q w pat (before ++ after) u ≡ try_drivers sys q w pat after u
unfolding try_drivers try_driver
try_drivers-AllSkipped sys q w pat [] after u h = refl
try_drivers-AllSkipped sys q w pat (d ∷ ds) after u (inl e, h) =
    rw e (try_drivers-AllSkipped sys q w pat ds after u h)
try_drivers-AllSkipped sys q w pat (d ∷ ds) after u (inr (e, f), h) =
    rw (e, f) (try_drivers-AllSkipped sys q w pat ds after u h)

try_driver-fits :
    (sys : System) (q : List Device) (w : ℕ) (pat : Bytes) (dr : Driver) (m : Methods) (u : ℕ)
    → matches dr pat ≡ ok true
    → dr.methods ≡ some m
    → dr.type ≡ dev_type_pci
    → sys.has_memory dr.index ≡ true
    → try_driver sys q w pat dr u ≡ visit_all sys q w dr m (ether_functions sys) 0 u
unfolding try_driver
try_driver-fits sys q w pat dr m u ma me ty mem =
    let pci : (dr.type == dev_type_pci) ≡ true = eq→== _ _ ty in rw (ma, me, pci, mem)

-- What becomes of an attempt to attach.
abbrev pub settled : List Device → Outcome → Outcome × List Device
settled q (found d) = (found d, q ++ (d ∷ []))
settled q (failed e) = (failed e, q)

-- A request for any unit of a driver goes to the first driver of the table that the pattern fits. Of
-- the Ethernet functions, in the order of bus, device and function, it takes the first one that is
-- not attached and that the driver's probe accepts; the driver attaches it as the unit behind those
-- that it has before it. On success the device goes to the end of the list; a failure of the
-- driver's attach is returned and leaves the list as it was.
pub attach-first :
    (sys : System) (q : List Device) (name pat : Bytes) (before after : List Driver) (dr : Driver)
    (m : Methods) {ps : List PciDev} (h : AllPassed sys q dr m ps) (p : PciDev) (rest : List PciDev)
    → wanted_of sys name ≡ ok (pat, 0)
    → AllSkipped pat before
    → is_unused dr ≡ false
    → matches dr pat ≡ ok true
    → dr.methods ≡ some m
    → dr.type ≡ dev_type_pci
    → sys.has_memory dr.index ≡ true
    → ether_functions sys ≡ ps ++ (p ∷ rest)
    → devattached q dr.type p ≡ ok none
    → accepts (m.probe p) ≡ true
    → netdriver_attach sys (before ++ (dr ∷ after)) q name true
      ≡ ok (settled q (devattach sys dr m p (own sys q dr m h + 1)))
unfolding netdriver_attach
attach-first sys q name pat before after dr m {ps} h p rest w sk nu ma me ty mem fs e a = rw (w) (
    ap (λ r. r >>= settle)
      (try_drivers-AllSkipped sys q 0 pat before (dr ∷ after) 0 sk ∙ one_driver)
    ∙ settle_lem (devattach sys dr m p (own sys q dr m h + 1)))
  where
    settle : Outcome → Run (Outcome × List Device)
    settle = elim [ found d ↦ ok (found d, q ++ (d ∷ [])) | failed e ↦ ok (failed e, q) ]

    settle_lem : (o : Outcome) → settle o ≡ ok (settled q o)
    settle_lem (found d) = refl
    settle_lem (failed e) = refl

    one_driver :
        try_drivers sys q 0 pat (dr ∷ after) 0 ≡ ok (devattach sys dr m p (own sys q dr m h + 1))
    one_driver =
        let first = visit_all-first sys q dr m h p rest 0 0 e a in
        rw nu (
          ap (λ r. r >>= elim [ go_on t u ↦ try_drivers sys q 0 pat after u | bail o ↦ ok o ])
            (try_driver-fits sys q 0 pat dr m 0 ma me ty mem
              ∙ ap (λ fs. visit_all sys q 0 dr m fs 0 0) fs
              ∙ first
              ∙ ap (λ k. ok (bail (devattach sys dr m p k))) (omega arith)))
