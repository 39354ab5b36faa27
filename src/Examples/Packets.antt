-- ===== src/Examples/Packets.antt =====
-- The theorems about the packets and completions of a doorbell and of a frame at the concrete device.
use ena.Base.{◌≤◌, ◌∷◌, [], true, false, Total, refl, arith, if◌then◌else◌, replicate, sub16}
use ena.Device.{stats_reset}
use ena.Reset.{dev_reset, clear_state}
use ena.Examples.{still_host, ready, ready-IsValid}
use ena.Rx.{RxDesc, rx_status}
use ena.Rx.Receive.{rx_deliver, frame_bits}
use ena.Rx.Completion.{with_phase}
use ena.Rx.Report.{IsRing, Told, rx_deliver_lem}
use ena.Rx.Status.{TellsFrame, rx_status-TellsFrame}
use ena.Tx.Doorbell.{tx_doorbell}
use ena.Tx.Count.{Bounded, tx_doorbell-Bounded}
use ena.Tx.Run.{RanFrom, tx_doorbell-RanFrom}

-- A buffer of 64 bytes for RX at address 4096
abbrev buffer64 : RxDesc
buffer64 = record { len = 64; ctrl = 28; req_id = 5; buff_addr_lo = 4096; buff_addr_hi = 0 }

ready-IsRing : IsRing (ready.cq 0) 0
unfolding if◌then◌else◌ dev_reset clear_state stats_reset
ready-IsRing = record {
  used = refl;
  entry_low = omega arith;
  entry_high = omega arith;
  taken = record {
    order = 4;
    small = omega arith;
    depth_eq = refl;
    tail_eq = refl;
    phase_eq = refl;
  };
}

rx_deliver_lem_example :
    Total
      (Told (ready.cq 0) ready (buffer64 ∷ buffer64 ∷ []) (replicate 100 255) 0 0 0 0 7 0 true)
      (rx_deliver (buffer64 ∷ buffer64 ∷ []) ready (replicate 100 255) 0 0 0 7 0 true)
unfolding ena.Rx.Deliver.total_size ena.Rx.rx_desc_size if◌then◌else◌
rx_deliver_lem_example =
    rx_deliver_lem ready (replicate 100 255) (buffer64 ∷ buffer64 ∷ []) 0 0 0 0 7 ready-IsRing
      (omega arith) (omega arith)

tx_doorbell-Bounded_example :
    Total
      (λ t.
        Bounded still_host ready 1 0 t
        × (sub16 (ready.sq 1).tail (ready.sq 1).head ≤ (ready.cq 0).depth))
      (tx_doorbell still_host ready 1)
unfolding if◌then◌else◌ dev_reset clear_state stats_reset
tx_doorbell-Bounded_example =
    tx_doorbell-Bounded still_host ready 1 0 ready-IsValid refl refl ready-IsRing.taken

tx_doorbell-RanFrom_example :
    Total (RanFrom still_host 1 0 ready 0) (tx_doorbell still_host ready 1)
unfolding if◌then◌else◌ dev_reset clear_state stats_reset
tx_doorbell-RanFrom_example =
    tx_doorbell-RanFrom still_host ready 1 0 ready-IsValid refl refl ready-IsRing.taken

rx_status-TellsFrame_example :
    TellsFrame still_host
      (replicate 60 255)
      true
      true
      false
      (with_phase true (frame_bits (rx_status still_host (replicate 60 255)) true false))
rx_status-TellsFrame_example = rx_status-TellsFrame still_host (replicate 60 255) true true false
