-- ===== src/Lib.antt =====
-- libbsdport, the part of the repository that lets FreeBSD Ethernet drivers run on RTEMS
-- (bsd_eth_drivers/libbsdport), and of the drivers the one for the LANCE chips (bsd_eth_drivers/if_le)
-- and the code that all chips of Intel's e1000 driver share (in bsd_eth_drivers/if_em). The other
-- drivers, in the directories bsd_eth_drivers/if_*, are not modelled.
--
-- How the parts interact: at start-up the network stack calls libbsdport_netdriver_attach, which
-- searches the PCI bus for a device that a driver of the table accepts and attaches it. The driver's
-- attach allocates bus resources and installs an interrupt handler. At an interrupt, sysbus_isr
-- enqueues a task on the task queue, whose worker calls the driver's handler. Drivers keep time with
-- callouts: a timer wheel that hardclock advances at each tick and softclock sweeps in a task.
--
--   Prelude       names of the libraries, Boolean tests, lists, bits and memories.
--   Taskqueue     rtems_taskqueue.c, taskqueue.h. Tq is struct taskqueue with the memory of all
--                 struct tasks; the functions have the names of the source. taskqueue_work and
--                 taskqueue_drain are split at their critical sections (detach, extract, unhook), and
--                 Env says what callbacks and interrupt handlers enqueue in between.
--                 Taskqueue.Worker has taskqueueDoWork as a step relation: a step is a critical section,
--                 a call or the receive of the wake-up event, and enqueues come between any two.
--   Callout       rtems_callout.c, callout.h. Co is the memory of all callouts, c_wheel, hard_ticks and
--                 soft_ticks. softclock is split into slot_loop (the inner loop) and soft_round (one
--                 turn of the outer loop). Env says what the callouts' functions stop and reset.
--                 Callout.Ticks has softclock as a step relation, with ticks between any two steps; a tick is
--                 hardclock, and its event the one among hardclock's effects. Callout.Swept tells a sweep
--                 of one slot without the steps.
--   Device        devicet.c, devicet.h. System stands for PCI configuration space, the C library's
--                 conversions and malloc; pci_bus_count is the number of buses that the loop runs over,
--                 that is, with the correction for i386. netdriver_attach is
--                 libbsdport_netdriver_attach, its loops from the inside out visit, visit_all,
--                 try_driver and try_drivers.
--   Bus           sysbus.c, bus.h: Bus.Resource has the resources (Bus.Alloc proves about their
--                 allocation) and Bus.Interrupt the interrupts,
--                 Bus.Dma has the DMA tags and the segments of a chain of buffers, and Bus.Space the
--                 access to registers on i386.
--                 Config, Board and Io stand for the configuration space, the board support package and
--                 the hardware.
--   Mbuf          misc.c and m_getcl of libbsdport_post.h: chains of packet buffers, as lists of bytes.
--   Contig        contigmalloc.c.
--   Mii           miistuff.c.
--   Ifnet         ifstuff.c, with the fields of the interfaces as memory.
--   Ifmedia       ifmedia.c, but for ifmedia_removeall.
--   Udelay        rtems_usec_delay of rtems_udelay.c.
--   Lance         lance.c, am7990.c and lancevar.h of if_le. Softc is struct lance_softc with the
--                 interface's flags, counters and queue, the descriptor rings and the buffer memory.
--                 Lance.Config has lance_config and am7990_config, Lance.Filter lance_setladrf,
--                 Lance.Buffer the copies, lance_put and lance_get, Lance.Rings am7990_meminit,
--                 Lance.Transmit am7990_start_locked, lance_stop and lance_init_locked, Lance.Receive
--                 am7990_rint and am7990_tint, and Lance.Control the interrupt, the watchdog and the
--                 requests. Host stands for the kernel, the CPU and the chip's answers. The other
--                 modules prove: Lance.Reach has the driver beside the chip, the network stack and the
--                 timer as a step relation.
--                 Lance.Wide, Lance.Whole and Lance.WideReceive have am79900.c, the same driver for chips
--                 with descriptors of 32-bit words: Wide is its state, read_rmd and read_tmd read the
--                 words bit by bit. Lance.Same, Lance.SameRings and Lance.SameReceive compare it with
--                 am7990.c.
--   Em            the code of if_em that all chips share. A register is read from a Board, the hardware,
--                 after the Log of all that was done; E1000_WRITE_FLUSH is a read, a delay is nothing.
--                 Em.Host and Em.Filtering have e1000_manage.c; Em.Shift, Em.Eeprom, Em.Write, Em.Eerd
--                 and Em.Store have e1000_nvm.c, from the wires to the checksum; Em.Filter (receive
--                 addresses and the multicast table), Em.Flow (flow control), Em.Link (fiber and serdes),
--                 Em.Semaphore and Em.Adaptive (spacing of frames) have parts of e1000_mac.c, Em.Phy has
--                 parts of e1000_phy.c. The functions that a chip may replace are the records Nvm, Link and
--                 Phy. The other modules prove; Em.Chip and Em.Mdic put the parts together.
--   PciConfig     the configuration space functions and le32enc of libbsdport.h. Access stands for the
--                 board support package.
--
-- Pointers are native numbers, with 0 for null; a field of a C struct is a function of the object's
-- address. Counters of the C type unsigned wrap at 2 ^ 32;
-- lengths that are ints are taken to be below 2 ^ 31, which the theorems that need it say. Loops over linked lists run on fuel. One
-- more than the number of list elements is enough for a list, and one more than the ticks to catch up
-- with for softclock; m_defrag needs three; one more than the receive ring is enough for am7990_rint,
-- and one more than the bytes of the frame for lance_get. The theorems that say what these functions
-- return assume just that. The shift of e1000_hash_mc_addr_generic has fuel 32, the width of its mask;
-- the polls of the e1000 code run as often as in the source. An assertion that fails and a rtems_panic
-- are values of the Run types, apart from a loop out of fuel.
--
-- Not modelled: the creation of RTEMS tasks, timers and events, whose effects are kept as a list of
-- what is sent and called; ticks that come within the call of a callout's function, and a task that
-- falls 2 ^ 32 - 1 ticks behind; the overflow of ta_pending; register access on PowerPC; of the LANCE
-- driver the hooks of the front ends, attaching and detaching, the media, the rescheduling of the
-- watchdog's callout, addresses of more than 29 bits for am7990.c, and am79900_config; the calibration
-- of the delay counter; if_em.c, the files of its single chips and the rest of e1000_mac.c and
-- e1000_phy.c; the drivers if_bge, if_fxp, if_re and if_pcn; printing; and the layout of raw memory.
pub mod Prelude
pub mod Taskqueue
pub mod Callout
pub mod Em
pub mod Device
pub mod Bus
pub mod Contig
pub mod Mii
pub mod Mbuf
pub mod PciConfig
pub mod Ifnet
pub mod Ifmedia
pub mod Udelay
pub mod Lance
