-- ===== src/Examples/Claims.antt =====
-- The main theorems at the concrete device of the parent: a TX doorbell, a received frame, an admin
-- doorbell and a reachable state.
use ena.Rx.{is_rx}
use ena.Rx.Choice.{rx_can_receive_lem}
use ena.Rx.Receive.{rx_can_receive}
use ena.Device.{max_sq}
use ena.Base.{
  ◌==◌, true, false, ◌<◌, ◌∷◌, ℕ, List, ok, refl, ◌≡◌, ◌≢◌, ◌⊎◌, replicate, out_of_fuel, Total,
  Ends, if◌then◌else◌,
}
use ena.Device.{msix_vectors, EnaState, set_reg}
use ena.Device.Layout.{reg_aq_db, reg_version, reg_controller_version, reg_caps}
use ena.Init.{realize_nic, realize, qdev_reset_hold}
use ena.Reset.{dev_reset, version_value, controller_version_value, caps_value}
use ena.Regs.{reg_file_read}
use ena.Irq.{irq_fire}
use ena.Host.{msix_notify, timer_del, moder}
use ena.Invariant.{IsValid}
use ena.Regs.Restart.{IsValid-set_reg}
use ena.Regs.Write.{reg_write, reg_file_write}
use ena.Device.Layout.{reg_intr_mask}
use ena.Examples.{still_host, still_host-PowersOnly, blank, ready, ready-IsValid}
use ena.Machine.{
  react, Reachable, start, step, mmio_write, frame, Reachable-IsValid, Reachable-constants,
  react-ne-out_of_fuel, react_outside-Total,
}
use ena.Rx.Receive.{rx_receive_iov}
use ena.Rx.Fate.{Received, Dropped, Ignored}
use ena.Rx.Total.{rx_receive_iov_lem}
use ena.Tx.Doorbell.{tx_doorbell}
use ena.Tx.Total.{tx_doorbell_lem}
use ena.Admin.Process.{admin_process}
use ena.Admin.Process.Loop.{Processed, admin_process_lem}

-- A broadcast frame of 60 bytes
abbrev bytes60 : List ℕ
bytes60 = replicate 60 255

-- The device after its first reset and a write of 1 to INTR_MASK
abbrev masked : EnaState
masked = set_reg (dev_reset (realize_nic still_host blank)) reg_intr_mask 1

masked-Reachable : Reachable still_host masked
unfolding react reg_write reg_file_write if◌then◌else◌ realize qdev_reset_hold
masked-Reachable =
    step (start blank {t = realize_nic still_host blank} refl) (mmio_write reg_intr_mask 1) refl

Reachable-IsValid_example : IsValid masked
Reachable-IsValid_example =
    Reachable-IsValid still_host still_host-PowersOnly masked masked-Reachable

react-ne-out_of_fuel_example : react still_host masked (mmio_write reg_aq_db 1) ≢ out_of_fuel
react-ne-out_of_fuel_example =
    react-ne-out_of_fuel still_host still_host-PowersOnly masked (mmio_write reg_aq_db 1)
      masked-Reachable

react_outside-Total_example : Total IsValid (react still_host masked (frame bytes60))
react_outside-Total_example =
    react_outside-Total still_host still_host-PowersOnly masked (frame bytes60) masked-Reachable
      refl

tx_doorbell_lem_example :
    (s' : EnaState) × (tx_doorbell still_host ready 1 ≡ ok s')
    × IsValid s'
    × ((s'.sq 1).head ≡ 2)
    × ((s'.sq 1).tail ≡ 2)
    × ((j : ℕ) → j ≢ 1 → s'.sq j ≡ ready.sq j)
unfolding if◌then◌else◌
tx_doorbell_lem_example = tx_doorbell_lem still_host ready 1 ready-IsValid refl refl

rx_receive_iov_lem_example :
    (s' : EnaState) × (rx_receive_iov still_host ready bytes60 ≡ ok s')
    × IsValid s'
    × (Received still_host ready bytes60 s'
        ⊎ (Dropped still_host ready bytes60 s' ⊎ ((s' ≡ ready) × Ignored ready bytes60)))
rx_receive_iov_lem_example = rx_receive_iov_lem still_host ready bytes60 ready-IsValid

rx_can_receive_lem_example :
    (rx_can_receive ready ≡ false
      → ((i : ℕ) × (i < max_sq) × (is_rx ready i ≡ true))
        × ((i : ℕ) → i < max_sq → is_rx ready i ≡ true → (ready.sq i).head ≡ (ready.sq i).tail))
    × (rx_can_receive ready ≡ true
        → ((i : ℕ) × (i < max_sq)
            × (is_rx ready i ≡ true)
            × ((ready.sq i).head == (ready.sq i).tail ≡ false))
          ⊎ ((i : ℕ) → i < max_sq → is_rx ready i ≡ false))
rx_can_receive_lem_example = rx_can_receive_lem ready

admin_process_lem_example :
    Ends
      (Processed (set_reg ready reg_aq_db 1))
      (admin_process still_host (set_reg ready reg_aq_db 1))
admin_process_lem_example =
    admin_process_lem still_host still_host-PowersOnly (set_reg ready reg_aq_db 1)
      (IsValid-set_reg ready reg_aq_db 1 refl ready-IsValid)

Reachable-constants_example :
    (reg_file_read masked reg_version ≡ version_value)
    × (reg_file_read masked reg_controller_version ≡ controller_version_value)
    × (reg_file_read masked reg_caps ≡ caps_value)
    × ((v : ℕ)
        → v < msix_vectors
        → (irq_fire masked v).trace ≡ msix_notify v ∷ timer_del (moder v) ∷ masked.trace)
Reachable-constants_example =
    Reachable-constants still_host still_host-PowersOnly masked masked-Reachable
