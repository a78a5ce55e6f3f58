-- ===== src/Bus.antt =====
-- bsd_eth_drivers/libbsdport/sysbus.c and bus.h: bus resources, interrupts and DMA maps of a device.
pub mod Resource
pub mod Alloc
pub mod Interrupt
pub mod Dma
pub mod Space
mod Tests
