-- ===== src/Init.antt =====
-- The life of the device as a QEMU object: `ena_realize`, `ena_exit` and `ena_qdev_reset_hold` of
-- hw/ena.c. The memory regions and the class are QEMU's.
pub mod Life
use ena.Base.{ℕ, zero, suc, List, ◌∷◌, Option, none, some, update, if◌then◌else◌}
use ena.Host.{
  Host, Event, Timer, moder, keep_alive, msix_vector_use, new_nic, tx_pkt_init, rx_pkt_init,
  timer_new, timer_free, tx_pkt_uninit, rx_pkt_uninit, del_nic, msix_uninit,
}
use ena.Device.{EnaState, EnaIrq, log, max_pkt_descs, msix_vectors}
use ena.Reset.{dev_reset}

-- `msix_vector_use` of the vectors 0, 1, …
unfoldable pub use_vectors : ℕ → List Event → List Event
use_vectors zero t = t
use_vectors (suc i) t = msix_vector_use i ∷ use_vectors i t

-- The loop that numbers the vectors
unfoldable pub number_vectors : ℕ → (ℕ → EnaIrq) → ℕ → EnaIrq
number_vectors zero irq = irq
number_vectors (suc i) irq =
    let rest = number_vectors i irq in update rest i (record (rest i) { vector = i })

-- `timer_new_us` of the moderation timers 0, 1, …
unfoldable pub new_moder_timers : ℕ → List Event → List Event
new_moder_timers zero t = t
new_moder_timers (suc i) t = timer_new (moder i) ∷ new_moder_timers i t

-- `timer_free` of the moderation timers 0, 1, …
unfoldable pub free_moder_timers : ℕ → List Event → List Event
free_moder_timers zero t = t
free_moder_timers (suc i) t = timer_free (moder i) ∷ free_moder_timers i t

-- `ena_exit`
unfoldable pub exit : EnaState → EnaState
exit s = record s {
  trace =
      msix_uninit
      ∷ del_nic
      ∷ rx_pkt_uninit
      ∷ tx_pkt_uninit
      ∷ timer_free keep_alive
      ∷ free_moder_timers msix_vectors s.trace;
}

-- `ena_qdev_reset_hold`
unfoldable pub qdev_reset_hold : EnaState → EnaState
qdev_reset_hold s = dev_reset s

module _ (host : Host) where
  -- `ena_realize` once the vectors are there
  unfoldable pub realize_nic : EnaState → EnaState
  realize_nic s =
      let mac = host.macaddr_default_if_unset s.macaddr in
      record s {
        macaddr = mac;
        irq = number_vectors msix_vectors s.irq;
        trace = new_moder_timers msix_vectors (
            timer_new keep_alive
            ∷ rx_pkt_init
            ∷ tx_pkt_init max_pkt_descs
            ∷ new_nic mac
            ∷ use_vectors msix_vectors s.trace);
      }

  -- `ena_realize`: `none` where it reports an error
  unfoldable pub realize : EnaState → Option EnaState
  realize s = if host.msix_init_fails then none else some (realize_nic s)
