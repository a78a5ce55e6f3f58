-- ===== src/Bus/Tests.antt =====
-- Runs of the bus functions at concrete inputs.
use rtems_libbsdport.Prelude.{◌⊎◌, ◌≡◌, refl, none, some, List, [], ◌∷◌, arith, ◌==◌, if◌then◌else◌}
use rtems_libbsdport.Prelude.Memory.{null, update}
use rtems_libbsdport.Taskqueue
use rtems_libbsdport.Taskqueue.{Tq, anchor, task_init, taskqueue_work}
use rtems_libbsdport.Taskqueue.Chain.{IsQueue}
use rtems_libbsdport.Taskqueue.Work.{quiet}
use rtems_libbsdport.Bus.Dma.{
  Mbuf, bus_dmamap_load_mbuf, bus_dmamap_load_mbuf_sg, load_mbuf-load_mbuf_sg,
}
use rtems_libbsdport.Bus.Resource.{
  Config, Spec, ok, panic, Allocated, memory, irq, enxio, bus_alloc_resources,
}
use rtems_libbsdport.Bus.Alloc.{Promise, IsUnknown, alloc_resources-Promise}
use rtems_libbsdport.Bus.Interrupt.{Board, sysbus_isr, isr_then_work}

-- A device with an I/O base address register, at 0x10, and an interrupt line.
abbrev card : Config
card = record {
  read_dword = λ rid. if rid == 0x10 then 0xe001 else 0;
  interrupt_line = 11;
  space_io = 1;
  io_mask = 0xfffffffc;
  mem_mask = 0xfffffff0;
}

-- A memory register that the card does not have, after the interrupt line.
abbrev wanted : List Spec
wanted =
    record { type = irq; rid = 0; flags = 4 } ∷ record { type = memory; rid = 0x10; flags = 2 } ∷ []

alloc_resources-Promise_example :
    ((a : Allocated) × (bus_alloc_resources card wanted ≡ ok a) × Promise card wanted a)
    ⊎ ((bus_alloc_resources card wanted ≡ panic) × IsUnknown wanted)
alloc_resources-Promise_example = alloc_resources-Promise card wanted

-- The memory is not there, and both entries are null.
wanted_fails : bus_alloc_resources card wanted ≡ ok (enxio (null ∷ null ∷ []))
unfolding bus_alloc_resources
wanted_fails = refl

-- The empty queue, with the task 50 whose function is 600.
abbrev idle_queue : Tq
idle_queue = record {
  ta_next = λ a. null;
  ta_pending = λ a. 0;
  ta_priority = λ a. 0;
  ta_fn = update (λ a. null) 50 600;
  ta_fn_arg = update (λ a. null) 50 50;
  tail = anchor;
  tid = 7;
  effects = [];
}

idle_queue-IsQueue : IsQueue idle_queue [] [] null
idle_queue-IsQueue = record {
  chain = refl;
  tail = refl;
  rest = refl;
  distinct = (refl, (refl, tt));
  queued = λ a. refl;
}

abbrev board : Board
board = record {
  sysbus_isr = 500;
  sysbus_taskfn = 600;
  malloc = 50;
  install = λ i fn arg. 0;
  remove = λ i fn arg. if fn == 500 then 0 else 1;
}

isr_then_work_example :
    (s : Tq) × (taskqueue_work quiet 2 (sysbus_isr 50 0 idle_queue).1 ≡ some (null, s))
    × (s.effects ≡ Taskqueue.event_sent 7 ∷ Taskqueue.called 600 50 1 ∷ [])
    × IsQueue s [] [] null
isr_then_work_example =
    isr_then_work idle_queue 50 2 idle_queue-IsQueue (λ e. omega arith, λ e. omega arith)
      (omega arith)

-- Two buffers, and a board whose bus addresses start at 0x80000000.
abbrev two_buffers : List Mbuf
two_buffers = record { m_data = 0x1000; m_len = 60 } ∷ record { m_data = 0x2000; m_len = 40 } ∷ []

load_mbuf-load_mbuf_sg_example : bus_dmamap_load_mbuf_sg 0x80000000 2 two_buffers ≡ (
    if (bus_dmamap_load_mbuf 0x80000000 2 two_buffers).efbig
    then none
    else some ((bus_dmamap_load_mbuf 0x80000000 2 two_buffers).segs))
load_mbuf-load_mbuf_sg_example = load_mbuf-load_mbuf_sg 0x80000000 2 two_buffers
