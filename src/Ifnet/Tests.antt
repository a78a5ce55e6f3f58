-- ===== src/Ifnet/Tests.antt =====
-- Runs of the interface functions.
use rtems_libbsdport.Ifnet.{if_alloc, if_free, if_alloc-if_free}
use rtems_libbsdport.Prelude.{◌≡◌, arith}
use rtems_libbsdport.Prelude.Memory.{null}
use rtems_libbsdport.Ifnet.{Interfaces}

abbrev no_interfaces : Interfaces
no_interfaces = record {
  freelist = null;
  if_softc = λ p. null;
  if_flags = λ p. 0;
  if_ioctl = λ p. null;
  if_start = λ p. null;
  if_watchdog = λ p. null;
  if_init = λ p. null;
}

freed_interface_lost :
    ((if_alloc 6 900 (if_free no_interfaces 800) 6).0 ≡ 900)
    × ((if_alloc 6 900 (if_free no_interfaces 800) 6).1.freelist ≡ null)
freed_interface_lost = if_alloc-if_free 6 900 no_interfaces 800 (λ e. omega arith)
