-- ===== src/Lib.antt =====
-- The ENA device of hw/ena.c, hw/ena_rx.c, hw/ena_tx.c and hw/ena_admin.c: a QEMU model of Amazon's
-- Elastic Network Adapter.
--
-- The program. A guest driver writes registers in BAR0. `ena_reg_write` (hw/ena.c) stores a value, rings
-- the doorbell of a submission queue (`ena_tx_doorbell`, `ena_rx_doorbell`), unmasks an interrupt
-- (`ena_cq_unmask_write`), resets the device (`ena_dev_ctl_write`) or has the posted admin commands
-- executed (`ena_admin_process`). Frames of the network enter by `ena_rx_receive_iov`. Every queue
-- answers with completions (`ena_cq_push`) and interrupts (`ena_cq_intr`); events of the device go to
-- the AENQ (`ena_aenq_post`).
--
-- The model. The state is the record `EnaState` of Device.antt, passed explicitly; a fixed array of the
-- source is a function of its index. What the device calls in QEMU is outside of the source: a call
-- that acts is an `Event` in the field `trace`, newest first, and the answer of a call is a function of
-- the trace so far, in the parameter `Host` (Host.antt). Of the host, the theorems about queue depths
-- assume only that `is_power_of_2` says so of powers of two only. A handler comes to an `Outcome`
-- (Base/Tests.antt): a state, an `abort()` of `ena_unsupported`, a failed `assert`, or the end of the
-- fuel of a loop. The fuel of `ena_tx_doorbell` and `ena_admin_process` is the distance from head to
-- tail, since each round takes an entry or more. Integers keep their widths by `u16`, `u32`, `u64`.
--
-- The files, by the code that they model:
--   Base, Base/*         lists, bytes, bits, tests, outcomes and ring counters
--   Host                 QEMU as the device sees it
--   Device, Device/*     hw/ena.h, and the offsets and masks of hw/ena_defs
--   Irq, Irq/*           vectors, masks, pending bits and moderation timers of hw/ena.c
--   Cq, Cq/*             `ena_cq_push` of hw/ena.c, and the ring that it implements
--   Aenq, Aenq/*         `ena_aenq_post`, link changes and keep-alives of hw/ena.c
--   Rss, Reset           `ena_rss_reset`, `ena_dev_reset` of hw/ena.c
--   Regs, Regs/*         `ena_reg_write` and what it calls in hw/ena.c
--   Rx, Rx/*             hw/ena_rx.c
--   Tx, Tx/*             hw/ena_tx.c
--   Admin, Admin/*       hw/ena_admin.c: queues, features, statistics, the loop
--   Init, Init/*         `ena_realize`, `ena_exit` and `ena_qdev_reset_hold` of hw/ena.c
--   Invariant, Invariant/*   what a well-formed device is
--   Isolation, Isolation/*   what the work on one queue can reach
--   Machine              the entry points of hw/ena.c as one step relation
--   Examples, Examples/*     a concrete host and device
--
-- Not modelled: the memory regions, the class and the type registration of hw/ena.c, which wire the
-- device to QEMU; the accessors of the ABI headers in hw/ena_defs, which the device does not call; the
-- log messages; the tests. Received frames are one buffer in place of an iovec,
-- and a descriptor array is read by the list of bytes that the host returns.
pub mod Base
pub mod Host
pub mod Device
pub mod Irq
pub mod Cq
pub mod Aenq
pub mod Rss
pub mod Reset
pub mod Rx
pub mod Tx
pub mod Admin
pub mod Regs
pub mod Init
pub mod Invariant
pub mod Machine
pub mod Isolation
pub mod Examples
