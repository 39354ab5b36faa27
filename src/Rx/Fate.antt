-- ===== src/Rx/Fate.antt =====
-- What may become of a frame that reaches `ena_rx_receive_iov` of hw/ena_rx.c.
use ena.Base.{
  none, ◌<◌, false, ℕ, ◌+◌, ◌≤◌, ◌||◌, true, List, ◌∷◌, some, ◌≡◌, ◌⊎◌, u64, ltb, length,
}
use ena.Host.{Host, rx_pkt_attach}
use ena.Device.{EnaState, log, max_pkt_descs, max_mtu}
use ena.Irq.{cq_intr}
use ena.Invariant.{IsValid}
use ena.Invariant.Queues.{KeptCqs}
use ena.Cq.Ring.{HasTaken}
use ena.Rx.{RxDesc, is_rx, rx_sq, rx_status, rss_hash, eth_hlen}
use ena.Rx.Receive.{is_foreign, rx_account}
use ena.Rx.Collect.{Collected}
use ena.Rx.Deliver.{Placed}
use ena.Rx.Report.{Reported}

-- `ENA_RX_MAX_FRAME`, the size of the buffer that a frame is copied to
abbrev pub rx_max_frame : ℕ
rx_max_frame = max_mtu + eth_hlen + 4

-- A frame too short for an Ethernet header, or unicast to another address
abbrev pub Ignored : EnaState → List ℕ → Type 0
Ignored s frame = (ltb (length frame) eth_hlen || is_foreign s frame) ≡ true

-- A frame that is looked at: within the MTU, and not to be ignored
abbrev pub Accepted : EnaState → List ℕ → Type 0
Accepted s frame = (length frame ≤ s.mtu + eth_hlen + 4) × (¬ Ignored s frame)

-- A frame that was delivered: into the descriptors it needs of the used RX queue that its hash
-- chooses, whole, with one completion each in the next slots of the ring, and with the queue, the
-- counters and the interrupt brought up to date.
pub record Received (host : Host) (s : EnaState) (frame : List ℕ) (s' : EnaState) : Type 0 where
  pub queue : ℕ
  pub descs : List RxDesc
  pub placed_state : EnaState
  pub accepted : Accepted s frame
  pub used_rx : is_rx s queue ≡ true
  pub chosen : rx_sq (log s (rx_pkt_attach frame)) (rss_hash host s.rss frame) ≡ some queue
  pub fits_buffer : length frame ≤ rx_max_frame
  pub few : length descs ≤ max_pkt_descs
  pub needed : Collected host (log s (rx_pkt_attach frame)) queue (length frame) 0 0 descs
  pub placed : Placed descs frame (rx_pkt_attach frame ∷ s.trace) placed_state.trace
  pub count : ℕ
  pub taken : HasTaken (s.cq (s.sq queue).cq_idx) count
  pub reported :
      Reported
        (s.cq (s.sq queue).cq_idx)
        count
        (rx_status host frame)
        (rss_hash host s.rss frame)
        queue
        true
        descs
        frame
        (rx_pkt_attach frame ∷ s.trace)
        placed_state.trace
  pub ring_after : HasTaken (placed_state.cq (s.sq queue).cq_idx) (count + length descs)
  pub kept : KeptCqs s placed_state
  pub result :
      s'
      ≡ cq_intr host
          (rx_account placed_state queue (length descs) (length frame))
          (s.sq queue).cq_idx
          false

-- Why a frame is dropped: it is longer than the MTU, there is no RX queue, or the queue that its hash
-- chooses does not begin with valid descriptors, at most 17, that have room for it.
pub data DropReason (host : Host) (s : EnaState) (frame : List ℕ) : Type 0 where
  too_long : s.mtu + eth_hlen + 4 < length frame → DropReason host s frame
  no_queue :
      Accepted s frame
      → rx_sq (log s (rx_pkt_attach frame)) (rss_hash host s.rss frame) ≡ none
      → DropReason host s frame
  no_room :
      Accepted s frame
      → (i : ℕ) → rx_sq (log s (rx_pkt_attach frame)) (rss_hash host s.rss frame) ≡ some i
      → ((ds : List RxDesc)
          → length ds ≤ max_pkt_descs
          → ¬ Collected host (log s (rx_pkt_attach frame)) i (length frame) 0 0 ds)
      → DropReason host s frame

-- A frame that was counted as dropped, for one of the reasons: the guest's memory is untouched.
pub record Dropped (host : Host) (s : EnaState) (frame : List ℕ) (s' : EnaState) : Type 0 where
  pub reason : DropReason host s frame
  pub drops : s'.rx_drops ≡ u64 (s.rx_drops + 1)
  pub no_pkt : s'.rx_pkts ≡ s.rx_pkts
  pub no_bytes : s'.rx_bytes ≡ s.rx_bytes
  pub same_cq : s'.cq ≡ s.cq
  pub no_write : (s'.trace ≡ s.trace) ⊎ (s'.trace ≡ rx_pkt_attach frame ∷ s.trace)

-- A state that the invariant holds of, and what became of the frame
abbrev pub FrameResult : Host → EnaState → List ℕ → EnaState → Type 0
FrameResult host s frame s' =
    IsValid s'
    × (Received host s frame s' ⊎ (Dropped host s frame s' ⊎ ((s' ≡ s) × Ignored s frame)))
