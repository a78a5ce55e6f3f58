-- ===== src/Bus/Space.antt =====
-- The access to a device's registers in bsd_eth_drivers/libbsdport/bus.h, on i386: the bus space and
-- the address come from the resource.
use rtems_libbsdport.Prelude.{ℕ, ◌+◌, ◌^◌, ◌%◌, ◌≡◌}
use rtems_libbsdport.Bus.Resource.{Config, BusSpace, mem, io, rman_get_bustag, rman_get_bushandle}

-- Access of one width, by port number or by address, in the states `World` of the hardware.
pub record Io (World : Type 0) : Type 0 where
  pub inport : World → (port : ℕ) → ℕ
  pub outport : World → (port val : ℕ) → World
  pub load : World → (addr : ℕ) → ℕ
  pub store : World → (addr val : ℕ) → World

-- What has been written to a register is read back: so with memory, and with most registers that
-- drivers both write and read.
pub record IsIo {World : Type 0} (x : Io World) : Type 0 where
  pub port : (w : World) (p v : ℕ) → x.inport (x.outport w p v) p ≡ v
  pub address : (w : World) (a v : ℕ) → x.load (x.store w a v) a ≡ v

module _ {World : Type 0} (x : Io World) where
  -- bus_space_read_1, bus_space_read_2 and bus_space_read_4
  unfoldable pub bus_space_read : World → BusSpace → (h o : ℕ) → ℕ
  bus_space_read w io h o = x.inport w ((h + o) % 2 ^ 32)
  bus_space_read w mem h o = x.load w ((h + o) % 2 ^ 32)

  -- bus_space_write_1, bus_space_write_2 and bus_space_write_4
  unfoldable pub bus_space_write : World → BusSpace → (h o v : ℕ) → World
  bus_space_write w io h o v = x.outport w ((h + o) % 2 ^ 32) v
  bus_space_write w mem h o v = x.store w ((h + o) % 2 ^ 32) v

  -- bus_read_1, bus_read_2 and bus_read_4
  unfoldable pub bus_read : Config → World → (r o : ℕ) → ℕ
  unfolding bus_space_read
  bus_read c w r o = bus_space_read w (rman_get_bustag c r) (rman_get_bushandle c r) o

  -- bus_write_1, bus_write_2 and bus_write_4
  unfoldable pub bus_write : Config → World → (r o v : ℕ) → World
  unfolding bus_space_write
  bus_write c w r o v = bus_space_write w (rman_get_bustag c r) (rman_get_bushandle c r) o v

module _ {World : Type 0} (x : Io World) (e : IsIo x) where
  space_read-space_write :
      (w : World) (t : BusSpace) (h o v : ℕ)
      → bus_space_read x (bus_space_write x w t h o v) t h o ≡ v
  unfolding bus_space_read bus_space_write
  space_read-space_write w io h o v = e.port w _ v
  space_read-space_write w mem h o v = e.address w _ v

  -- A read through a resource gives what was written through it at the same offset, whether the
  -- resource is in port or in memory space, for registers that keep what is written.
  pub bus_read-bus_write :
      (c : Config) (w : World) (r o v : ℕ) → bus_read x c (bus_write x c w r o v) r o ≡ v
  unfolding bus_read bus_write
  bus_read-bus_write c w r o v =
      space_read-space_write w (rman_get_bustag c r) (rman_get_bushandle c r) o v
