-- ===== src/Ifnet.antt =====
-- bsd_eth_drivers/libbsdport/ifstuff.c: the allocation of network interfaces and their addresses.
mod Tests
use rtems_libbsdport.Prelude.{
  ℕ, zero, suc, ◌+◌, ◌≡◌, refl, ◌≢◌, Bool, true, false, not, ◌&&◌, ◌||◌, Option, none, some, List,
  [], ◌∷◌, ◌==◌, if◌then◌else◌, Bool-cases, inl, inr, ◌⊎◌, arith,
}
use rtems_libbsdport.Prelude.Memory.{null, update}

-- `rtems_bsdnet_if_freelist`, and the fields of the interfaces in memory that the file writes.
pub record Interfaces : Type 0 where
  pub freelist : ℕ
  pub if_softc : ℕ → ℕ
  pub if_flags : ℕ → ℕ
  pub if_ioctl : ℕ → ℕ
  pub if_start : ℕ → ℕ
  pub if_watchdog : ℕ → ℕ
  pub if_init : ℕ → ℕ

-- `memset (rval, 0, sizeof (struct arpcom))`
unfoldable pub wiped : Interfaces → ℕ → Interfaces
wiped s p = record s {
  if_softc = update s.if_softc p null;
  if_flags = update s.if_flags p 0;
  if_ioctl = update s.if_ioctl p null;
  if_start = update s.if_start p null;
  if_watchdog = update s.if_watchdog p null;
  if_init = update s.if_init p null;
}

-- if_alloc, where `malloc` returns the given pointer: the interface, and the state after it.
unfoldable pub if_alloc : (ift_ether malloc : ℕ) → Interfaces → (type : ℕ) → ℕ × Interfaces
unfolding wiped
if_alloc ift_ether malloc s type =
    let popped : Interfaces =
      if s.freelist == null then s else record s { freelist = s.if_softc s.freelist } in
    if type == ift_ether
    then (malloc, if malloc == null then popped else wiped popped malloc)
    else (null, s)

-- if_free
unfoldable pub if_free : Interfaces → ℕ → Interfaces
if_free s ifp = record s { if_softc = update s.if_softc ifp s.freelist; freelist = ifp }

-- ether_ifdetach
unfoldable pub ether_ifdetach : Interfaces → ℕ → Interfaces
ether_ifdetach s ifp = record s {
  if_flags = update s.if_flags ifp 0;
  if_ioctl = update s.if_ioctl ifp null;
  if_start = update s.if_start ifp null;
  if_watchdog = update s.if_watchdog ifp null;
  if_init = update s.if_init ifp null;
}

-- The loop of ether_setaddr: whether a byte of the address is set.
abbrev pub is_some_set : List ℕ → Bool
is_some_set [] = false
is_some_set (b ∷ bs) = not (b == 0) || is_some_set bs

-- ether_setaddr: the interface's address after it. `hardware_address` is none where the interface
-- configuration gives none.
unfoldable pub ether_setaddr :
    (lladdr : List ℕ) (hardware_address : Option (List ℕ)) (eaddr : List ℕ) → List ℕ
ether_setaddr lladdr hardware_address eaddr =
    if is_some_set lladdr then lladdr else elim hardware_address [ none ↦ eaddr | some h ↦ h ]

-- An Ethernet interface that is allocated after one has been freed is not that one but what malloc
-- returns, and the free list is as before it was freed: the freed interface is on no list any more.
pub if_alloc-if_free :
    (ift_ether malloc : ℕ) (s : Interfaces) (ifp : ℕ)
    → ifp ≢ null
    → ((if_alloc ift_ether malloc (if_free s ifp) ift_ether).0 ≡ malloc)
      × ((if_alloc ift_ether malloc (if_free s ifp) ift_ether).1.freelist ≡ s.freelist)
unfolding if_alloc if_free
if_alloc-if_free ift_ether malloc s ifp n = ground arith

-- An address that is set stays, whatever ether_setaddr is called with later.
pub ether_setaddr-ether_setaddr :
    (lladdr : List ℕ) (h h' : Option (List ℕ)) (eaddr eaddr' : List ℕ)
    → is_some_set (ether_setaddr lladdr h eaddr) ≡ true
    → ether_setaddr (ether_setaddr lladdr h eaddr) h' eaddr' ≡ ether_setaddr lladdr h eaddr
unfolding ether_setaddr
ether_setaddr-ether_setaddr lladdr h h' eaddr eaddr' e = rw e refl
