-- ===== src/Regs.antt =====
-- The register file of hw/ena.c: reads, the readless MMIO protocol and the reset handshake.
pub mod Write
pub mod Restart
pub mod Preserve
pub mod Handshake
pub mod Readless
use ena.Base.{
  ℕ, ◌+◌, ◌*◌, ◌/◌, ◌^◌, bit_and, Bool, not, ◌&&◌, ◌||◌, ◌++◌, Outcome, ok, unsupported, ltb, ◌==◌,
  has, if◌then◌else◌, bytes16, bytes32,
}
use ena.Host.{Host}
use ena.Device.{EnaState, get_reg, set_reg, dma_write_bytes, reg_file_size}
use ena.Device.Layout.{
  reg_mmio_resp_hi, reg_mmio_resp_lo, mmio_req_id, mmio_reg_off, reg_dev_ctl, reg_dev_sts,
  dev_ctl_dev_reset, dev_sts_ready, dev_sts_reset_in_progress, caps_depth, caps_entry_size,
}
use ena.Reset.{dev_reset}

-- `ena_reg_file_read`, which also is `ena_reg_read`
unfoldable pub reg_file_read : EnaState → ℕ → ℕ
reg_file_read s off = if ltb off reg_file_size then get_reg s off else 0xffffffff

-- `ena_mmio_readless`
unfoldable pub mmio_readless : EnaState → ℕ → EnaState
mmio_readless s req =
    let resp_addr = get_reg s reg_mmio_resp_hi * 2 ^ 32 + get_reg s reg_mmio_resp_lo in
    let req_id = bit_and req mmio_req_id in
    let off = bit_and req mmio_reg_off / 2 ^ 16 in
    if resp_addr == 0 || has off 3
    then s
    else dma_write_bytes s resp_addr
        (bytes16 req_id ++ bytes16 off ++ bytes32 (reg_file_read s off))

-- `~(DEV_RESET | RESET_REASON | RESET_REASON_EXT)` on 32 bits
abbrev pub dev_ctl_foreign : ℕ
dev_ctl_foreign = 0xfffffe

-- The write of 0 that ends the reset handshake
unfoldable pub finish_reset : EnaState → EnaState
finish_reset s =
    let s1 = set_reg s reg_dev_ctl 0 in
    if has (get_reg s1 reg_dev_sts) dev_sts_reset_in_progress
    then set_reg s1 reg_dev_sts dev_sts_ready
    else s1

-- `ena_dev_ctl_write`
unfoldable pub dev_ctl_write : EnaState → ℕ → Outcome EnaState
dev_ctl_write s val =
    if has val dev_ctl_foreign
    then unsupported
    else if has val dev_ctl_dev_reset
    then ok (set_reg (set_reg (dev_reset s) reg_dev_ctl val) reg_dev_sts dev_sts_reset_in_progress)
    else if not (val == 0)
    then unsupported
    else ok (finish_reset s)

module _ (host : Host) where
  -- `ena_check_queue_caps`: 64-byte entries and a depth that is a power of two.
  unfoldable pub queue_caps_fit : ℕ → Bool
  queue_caps_fit val =
      bit_and val caps_entry_size / 2 ^ 16 == 64 && host.is_power_of_2 (bit_and val caps_depth)
