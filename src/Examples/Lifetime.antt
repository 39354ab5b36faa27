-- ===== src/Examples/Lifetime.antt =====
-- The theorems about the life of the device and about pending interrupts at the concrete device.
use ena.Base.{◌∷◌, [], true, false, none, some, ◌≡◌, ◌⊎◌, refl, if◌then◌else◌}
use ena.Host.{Timer, msix_notify, timer_del, moder}
use ena.Device.{EnaState, stats_reset}
use ena.Reset.{dev_reset, clear_state}
use ena.Init.{realize, exit}
use ena.Init.Life.{Realized, IsOwn, is_open, realize_lem}
use ena.Irq.{cq_unmask_write, update_delays}
use ena.Irq.Pending.{signal_all, unmask-signal_all}
use ena.Examples.{still_host, blank, ready, ready-IsValid}

realize_lem_example :
    ((realize still_host blank ≡ none) × (still_host.msix_init_fails ≡ true))
    ⊎ ((t : EnaState) × (realize still_host blank ≡ some t)
        × Realized t
        × ((u : EnaState) (tm : Timer) → is_open tm (dev_reset u).trace ≡ is_open tm u.trace)
        × ((u : EnaState) (tm : Timer) → IsOwn tm → is_open tm (exit u).trace ≡ false))
realize_lem_example = realize_lem still_host blank

-- The device after an RX completion on its masked vector 1, and a TX completion behind it
abbrev signalled : EnaState
signalled = signal_all still_host ((0, false) ∷ (0, true) ∷ []) ready

unmask-signal_all_example :
    let u = cq_unmask_write still_host signalled 0 0x40000000 in
    (u.trace ≡ msix_notify 1 ∷ timer_del (moder 1) ∷ signalled.trace)
    × ((u.irq 1).unmasked ≡ false)
    × ((u.irq 1).rx_pending ≡ false)
    × ((u.irq 1).tx_pending ≡ false)
unfolding if◌then◌else◌ update_delays dev_reset clear_state stats_reset
unmask-signal_all_example =
    unmask-signal_all still_host ready 0 false ((0, true) ∷ []) 0x40000000 ready-IsValid refl refl
      refl refl refl refl
