-- ===== src/Irq.antt =====
-- Interrupts of hw/ena.c: the MSI-X vectors, their masks and the moderation timers.
pub mod Delivery
pub mod Pending
use ena.Base.{
  ℕ, ◌+◌, ◌/◌, ◌^◌, bit_and, Bool, true, false, not, ◌&&◌, ◌||◌, leb, ◌==◌, has, if◌then◌else◌,
}
use ena.Host.{msix_notify, timer_del, timer_mod_anticipate, moder, Host}
use ena.Device.{EnaState, EnaIrq, get_reg, set_irq, log, msix_vectors, admin_msix_vector}
use ena.Device.Layout.{
  reg_intr_mask, intr_no_moderation_update, intr_rx_delay, intr_tx_delay, intr_unmask,
}

-- `ena_admin_intr`
unfoldable pub admin_intr : EnaState → EnaState
admin_intr s = if has (get_reg s reg_intr_mask) 1 then s else log s (msix_notify admin_msix_vector)

-- `ena_irq_fire` of the vector at index `v`
unfoldable pub irq_fire : EnaState → ℕ → EnaState
irq_fire s v =
    let s1 = log s (timer_del (moder v)) in
    let quiet = record (s.irq v) { unmasked = false; rx_pending = false; tx_pending = false } in
    log (set_irq s1 v quiet) (msix_notify (s.irq v).vector)

-- `ena_irq_moder_timer`, the callback of the moderation timer
unfoldable pub irq_moder_timer : EnaState → ℕ → EnaState
irq_moder_timer s v = irq_fire s v

module _ (host : Host) where
  -- `ena_irq_schedule`
  unfoldable pub irq_schedule : EnaState → ℕ → ℕ → EnaState
  irq_schedule s v delay_us =
      if delay_us == 0
      then irq_fire s v
      else log s (timer_mod_anticipate (moder v) (host.clock_us s.trace + delay_us))

  -- `ena_cq_intr`
  unfoldable pub cq_intr : EnaState → ℕ → Bool → EnaState
  cq_intr s c is_tx =
      let v = (s.cq c).msix_vector in
      if not (s.cq c).intr_enabled || leb msix_vectors v
      then s
      else if not (s.irq v).unmasked
      then set_irq s v (
          if is_tx
          then record (s.irq v) { tx_pending = true }
          else record (s.irq v) { rx_pending = true })
      else irq_schedule s v (if is_tx then (s.irq v).tx_delay_us else (s.irq v).rx_delay_us)

  -- The delays that `ena_cq_unmask_write` stores
  unfoldable pub update_delays : EnaIrq → ℕ → EnaIrq
  update_delays q val = if has val intr_no_moderation_update then q else record q {
    rx_delay_us = bit_and val intr_rx_delay;
    tx_delay_us = bit_and val intr_tx_delay / 2 ^ 15;
  }

  unfoldable pub schedule_rx : EnaState → ℕ → EnaState
  schedule_rx s v = if (s.irq v).rx_pending then irq_schedule s v (s.irq v).rx_delay_us else s

  unfoldable pub schedule_tx : EnaState → ℕ → EnaState
  schedule_tx s v = if (s.irq v).tx_pending then irq_schedule s v (s.irq v).tx_delay_us else s

  -- `ena_cq_unmask_write`
  unfoldable pub cq_unmask_write : EnaState → ℕ → ℕ → EnaState
  cq_unmask_write s c val =
      let v = (s.cq c).msix_vector in
      let on = has val intr_unmask in
      let s1 = set_irq s v (record (update_delays (s.irq v) val) { unmasked = on }) in
      if not (s.cq c).used || not (s.cq c).intr_enabled || leb msix_vectors v
      then s
      else if not on
      then log s1 (timer_del (moder v))
      else schedule_tx (schedule_rx s1 v) v
