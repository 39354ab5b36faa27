-- ===== src/Regs/Write.antt =====
-- `ena_reg_write` of hw/ena.c: every write of the driver to BAR0.
use ena.Base.{
  ℕ, ◌+◌, ◌-◌, ◌*◌, ◌/◌, Bool, true, not, ◌&&◌, ◌||◌, Outcome, ok, unsupported, u16, u32, sub16,
  ltb, leb, ◌==◌, if◌then◌else◌,
}
use ena.Host.{Host}
use ena.Device.{
  EnaState, set_reg, set_sq, max_sq, max_cq, reg_file_size, reg_sq_db_base, reg_cq_unmask_base,
}
use ena.Device.Layout.{
  reg_version, reg_controller_version, reg_caps, reg_caps_ext, reg_acq_tail, reg_aenq_tail,
  reg_dev_sts, reg_dev_ctl, reg_mmio_reg_read, reg_aq_db, reg_aq_caps, reg_acq_caps, reg_aenq_caps,
  reg_mmio_resp_lo, reg_mmio_resp_hi, reg_aq_base_lo, reg_aq_base_hi, reg_acq_base_lo,
  reg_acq_base_hi, reg_aenq_base_lo, reg_aenq_base_hi, reg_aenq_head_db, reg_intr_mask,
}
use ena.Irq.{cq_unmask_write}
use ena.Regs.{mmio_readless, dev_ctl_write, queue_caps_fit}
use ena.Rx.Receive.{rx_doorbell}
use ena.Tx.Doorbell.{tx_doorbell}
use ena.Admin.Process.{admin_process}

-- The registers whose writes are ignored
abbrev is_read_only : ℕ → Bool
is_read_only addr =
    addr == reg_version
    || addr == reg_controller_version
    || addr == reg_caps
    || addr == reg_caps_ext
    || addr == reg_acq_tail
    || addr == reg_aenq_tail
    || addr == reg_dev_sts

-- The registers that only store their value
abbrev pub is_plain : ℕ → Bool
is_plain addr =
    addr == reg_mmio_resp_lo
    || addr == reg_mmio_resp_hi
    || addr == reg_aq_base_lo
    || addr == reg_aq_base_hi
    || addr == reg_acq_base_lo
    || addr == reg_acq_base_hi
    || addr == reg_aenq_base_lo
    || addr == reg_aenq_base_hi
    || addr == reg_aenq_head_db

abbrev pub restart_acq : EnaState → ℕ → EnaState
restart_acq s val =
    set_reg (record (set_reg s reg_acq_caps val) { acq_tail = 0; acq_phase = true }) reg_acq_tail 0

abbrev pub restart_aenq : EnaState → ℕ → EnaState
restart_aenq s val =
    set_reg (record (set_reg s reg_aenq_caps val) { aenq_tail = 0; aenq_phase = true })
      reg_aenq_tail 0

module _ (host : Host) where
  -- The doorbell of submission queue `i`
  unfoldable pub sq_doorbell : EnaState → (i val : ℕ) → Outcome EnaState
  sq_doorbell s i val =
      let q = s.sq i in
      let s1 = set_sq s i (record q { tail = u16 val }) in
      if not q.used
      then ok s
      else if ltb q.depth (sub16 val q.head)
      then ok s
      else if q.is_tx
      then tx_doorbell host s1 i
      else rx_doorbell s1 i

  -- AQ_CAPS, ACQ_CAPS and AENQ_CAPS: the ring starts anew.
  unfoldable pub caps_write : EnaState → (addr val : ℕ) → Outcome EnaState
  caps_write s addr val =
      if not (queue_caps_fit host val)
      then unsupported
      else if addr == reg_aq_caps
      then ok (record (set_reg s reg_aq_caps val) { aq_head = 0 })
      else if addr == reg_acq_caps
      then ok (restart_acq s val)
      else ok (restart_aenq s val)

  -- The switch of `ena_reg_write` over the register file
  unfoldable pub reg_file_write : EnaState → (addr val : ℕ) → Outcome EnaState
  reg_file_write s addr val =
      if is_read_only addr
      then ok s
      else if addr == reg_dev_ctl
      then dev_ctl_write s val
      else if addr == reg_mmio_reg_read
      then ok (mmio_readless (set_reg s reg_mmio_reg_read val) val)
      else if addr == reg_aq_db
      then admin_process host (set_reg s reg_aq_db val)
      else if addr == reg_aq_caps || addr == reg_acq_caps || addr == reg_aenq_caps
      then caps_write s addr val
      else if is_plain addr
      then ok (set_reg s addr val)
      else if addr == reg_intr_mask
      then (if leb 2 val then unsupported else ok (set_reg s reg_intr_mask val))
      else unsupported

  -- `ena_reg_write`
  unfoldable pub reg_write : EnaState → (addr val64 : ℕ) → Outcome EnaState
  reg_write s addr val64 =
      let val = u32 val64 in
      if leb reg_sq_db_base addr && ltb addr (reg_sq_db_base + max_sq * 4)
      then sq_doorbell s ((addr - reg_sq_db_base) / 4) val
      else if leb reg_cq_unmask_base addr && ltb addr (reg_cq_unmask_base + max_cq * 4)
      then ok (cq_unmask_write host s ((addr - reg_cq_unmask_base) / 4) val)
      else if leb reg_file_size addr
      then unsupported
      else reg_file_write s addr val
