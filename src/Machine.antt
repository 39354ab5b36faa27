-- ===== src/Machine.antt =====
-- The device as a whole: what the driver, the network, the timers and the host do to it, as a step
-- relation over the entry points of hw/ena.c.
use ena.Base.{
  ap, ◌∙◌, ◌∷◌, ◌<◌, if◌then◌else◌, some, Bool, true, false, ℕ, List, Outcome, ok, out_of_fuel, ◌≡◌,
  ◌≢◌, refl, Total, Total-Ends, Total-map, Ends, Ends_of_ok, Ends-ne-out_of_fuel, arith,
}
use ena.Host.{Host, msix_notify, timer_del, moder}
use ena.Device.{EnaState, msix_vectors}
use ena.Irq.{irq_moder_timer, irq_fire}
use ena.Irq.Delivery.{irq_fire-Fired}
use ena.Regs.{reg_file_read}
use ena.Reset.{version_value, controller_version_value, caps_value}
use ena.Device.Layout.{reg_version, reg_controller_version, reg_caps}
use ena.Invariant.{core, IsValid}
use ena.Invariant.Queues.{core-irq_fire}
use ena.Aenq.{keep_alive_tick, post_link_change}
use ena.Aenq.Ring.{AenqOnly, keep_alive_tick-AenqOnly, aenq_post-AenqOnly}
use ena.Init.{realize, qdev_reset_hold}
use ena.Init.Life.{realize-IsNumbered}
use ena.Rx.Receive.{rx_receive_iov}
use ena.Rx.Fate.{FrameResult}
use ena.Rx.Total.{rx_receive_iov-Result}
use ena.Regs.Write.{reg_write}
use ena.Regs.Preserve.{reg_write-IsValid}
use ena.Regs.Restart.{IsValid-IsNumbered, IsValid-core, dev_reset-IsValid}
use ena.Admin.Queues.Effects.{PowersOnly}

-- What happens to the device from outside
pub data Stimulus : Type 0 where
  -- a write of the driver to BAR0
  mmio_write : (addr val : ℕ) → Stimulus
  -- a frame from the network
  frame : List ℕ → Stimulus
  -- the keep-alive timer and the moderation timer of a vector
  keep_alive_due : Stimulus
  moder_due : ℕ → Stimulus
  -- the link status of the backend
  link_change : Stimulus
  -- a reset of the PCI device
  pci_reset : Stimulus

-- The handler of a stimulus
unfoldable pub react : Host → EnaState → Stimulus → Outcome EnaState
react host s (mmio_write addr val) = reg_write host s addr val
react host s (frame bytes) = rx_receive_iov host s bytes
react host s keep_alive_due = keep_alive_tick host s
react host s (moder_due v) = ok (irq_moder_timer s v)
react host s link_change = post_link_change host s
react host s pci_reset = ok (qdev_reset_hold s)

-- The states of a device that is realized and then reset, as QEMU does with a new device
pub data Reachable (host : Host) : EnaState → Type 0 where
  start :
      (s : EnaState) {t : EnaState} → realize host s ≡ some t → Reachable host (qdev_reset_hold t)
  step :
      {s t : EnaState}
      → Reachable host s
      → (e : Stimulus) → react host s e ≡ ok t
      → Reachable host t

-- The stimuli that do not come from the guest
abbrev pub not_guest : Stimulus → Bool
not_guest (mmio_write addr val) = false
not_guest _ = true

module _ (host : Host) where
  outside-Total :
      (s : EnaState) (e : Stimulus)
      → IsValid s
      → not_guest e ≡ true
      → Total IsValid (react host s e)
  unfolding react irq_moder_timer post_link_change qdev_reset_hold
  outside-Total s (mmio_write addr val) v g = cc
  outside-Total s (frame bytes) v g =
      Total-map (FrameResult host s bytes) IsValid _ (rx_receive_iov-Result host s bytes v)
        (λ t k. k.0)
  outside-Total s keep_alive_due v g =
      Total-map (AenqOnly s) IsValid _ (keep_alive_tick-AenqOnly host s) (λ t k. k.0 v)
  outside-Total s (moder_due n) v g = IsValid-core s _ (core-irq_fire s n) v
  outside-Total s link_change v g =
      Total-map (AenqOnly s) IsValid _ (aenq_post-AenqOnly host s _ 0 _ (omega arith))
        (λ t k. k.0 v)
  outside-Total s pci_reset v g = dev_reset-IsValid s (IsValid-IsNumbered s v)

  react-IsValid :
      PowersOnly host → (s : EnaState) (e : Stimulus) → IsValid s → Ends IsValid (react host s e)
  unfolding react qdev_reset_hold
  react-IsValid powers s (mmio_write addr val) v = reg_write-IsValid host powers s addr val v
  react-IsValid powers s (frame bytes) v =
      Total-Ends IsValid _ (outside-Total s (frame bytes) v refl)
  react-IsValid powers s keep_alive_due v =
      Total-Ends IsValid _ (outside-Total s keep_alive_due v refl)
  react-IsValid powers s (moder_due n) v = outside-Total s (moder_due n) v refl
  react-IsValid powers s link_change v = Total-Ends IsValid _ (outside-Total s link_change v refl)
  react-IsValid powers s pci_reset v = dev_reset-IsValid s (IsValid-IsNumbered s v)

  -- Every state that a realized device reaches from its first reset, whatever the driver, the
  -- network and the timers do, is well-formed, for a host whose `is_power_of_2` says so of powers
  -- of two only.
  pub Reachable-IsValid : PowersOnly host → (s : EnaState) → Reachable host s → IsValid s
  unfolding qdev_reset_hold
  Reachable-IsValid powers s (start s0 e) = dev_reset-IsValid _ (realize-IsNumbered host s0 _ e)
  Reachable-IsValid powers t (step {s} r e eq) =
      Ends_of_ok IsValid (react host s e) t
        (react-IsValid powers s e (Reachable-IsValid powers s r)) eq

  -- In every state that a realized device reaches, for a host as above, the driver reads the VERSION,
  -- CONTROLLER_VERSION and CAPS registers as the device sets them up, and each of the nine vectors
  -- sends the MSI-X message of its own number.
  pub Reachable-constants :
      PowersOnly host
      → (s : EnaState) → Reachable host s
      → (reg_file_read s reg_version ≡ version_value)
        × (reg_file_read s reg_controller_version ≡ controller_version_value)
        × (reg_file_read s reg_caps ≡ caps_value)
        × ((v : ℕ)
            → v < msix_vectors
            → (irq_fire s v).trace ≡ msix_notify v ∷ timer_del (moder v) ∷ s.trace)
  unfolding core reg_file_read if◌then◌else◌
  Reachable-constants powers s r =
      let v = Reachable-IsValid powers s r in
      (
        v.version_eq,
        v.controller_version_eq,
        v.caps_eq,
        λ n lt.
            (irq_fire-Fired s n).message
            ∙ ap (λ k. msix_notify k ∷ timer_del (moder n) ∷ s.trace) (v.vectors n lt),
      )

  -- In a state that the device reaches, no handler, that of a driver's write included, runs out of
  -- the rounds that its loops are given, for a host as above: each ends.
  pub react-ne-out_of_fuel :
      PowersOnly host
      → (s : EnaState) (e : Stimulus) → Reachable host s
      → react host s e ≢ out_of_fuel
  react-ne-out_of_fuel powers s e r =
      Ends-ne-out_of_fuel IsValid (react host s e)
        (react-IsValid powers s e (Reachable-IsValid powers s r))

  -- In a state that the device reaches, the frames of the network, the timers, the link and a reset
  -- are handled to the end, for a host as above: none of them makes an assertion fail or stops the
  -- process, and the device is well-formed after it.
  pub react_outside-Total :
      PowersOnly host
      → (s : EnaState) (e : Stimulus) → Reachable host s
      → not_guest e ≡ true
      → Total IsValid (react host s e)
  react_outside-Total powers s e r g = outside-Total s e (Reachable-IsValid powers s r) g
