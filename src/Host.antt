-- ===== src/Host.antt =====
-- What the device reaches outside its own source (hw/ena.c, hw/ena_tx.c, hw/ena_rx.c and
-- hw/ena_admin.c call it): the bus, the MSI-X table, the timers, the clock, the network backend and
-- QEMU's packet helpers. A call that acts is an `Event` of the trace; the answer of a call is a
-- function of the trace so far, and the definitions take these functions as the parameter `Host`.
use ena.Base.{ℕ, Bool, List, Option}

-- The moderation timer of a vector, and the keep-alive timer.
pub data Timer : Type 0 where
  moder : ℕ → Timer
  keep_alive : Timer

-- One call with an effect. The newest event stands first in a trace.
pub data Event : Type 0 where
  -- `pci_dma_write` of these bytes at this address
  dma_write : ℕ → List ℕ → Event
  -- `msix_notify` of this vector
  msix_notify : ℕ → Event
  timer_del : Timer → Event
  -- `timer_mod` and `timer_mod_anticipate` with the deadline
  timer_mod : Timer → ℕ → Event
  timer_mod_anticipate : Timer → ℕ → Event
  flush_queued_packets : Event
  send_packet : List ℕ → Event
  -- the calls on the `NetTxPkt` object
  tx_pkt_add_raw_fragment : List ℕ → Event
  tx_pkt_build_vheader : (tso csum : Bool) (mss : ℕ) → Event
  tx_pkt_update_ip_checksums : Event
  tx_pkt_send : Event
  tx_pkt_reset : Event
  -- `net_rx_pkt_attach_data` of a frame
  rx_pkt_attach : List ℕ → Event
  -- what `ena_realize` makes and `ena_exit` gives back
  msix_vector_use : ℕ → Event
  new_nic : (macaddr : List ℕ) → Event
  tx_pkt_init : ℕ → Event
  rx_pkt_init : Event
  timer_new : Timer → Event
  timer_free : Timer → Event
  tx_pkt_uninit : Event
  rx_pkt_uninit : Event
  del_nic : Event
  msix_uninit : Event

-- `EthL4HdrProto`
pub data L4Proto : Type 0 where
  invalid tcp udp sctp : L4Proto

-- `NetRxPktRssType`, the values that the device uses
pub data RssType : Type 0 where
  ip4 ip4_tcp ip4_udp ip6 ip6_tcp ip6_udp : RssType

pub record Host : Type 0 where
  -- whether `msix_init_exclusive_bar` reports an error
  pub msix_init_fails : Bool
  pub macaddr_default_if_unset : List ℕ → List ℕ
  -- `pci_dma_read` of a length at an address: whether it was MEMTX_OK, and the buffer afterwards
  pub dma_read : List Event → ℕ → ℕ → Bool × List ℕ
  -- `qemu_clock_get_us` and `qemu_clock_get_ms` of the virtual clock
  pub clock_us : List Event → ℕ
  pub clock_ms : List Event → ℕ
  -- `link_down` of the network queue
  pub link_down : List Event → Bool
  -- a byte of the RAM behind BAR2
  pub llq_ram : List Event → ℕ → ℕ
  pub is_power_of_2 : ℕ → Bool
  pub eth_get_l2_hdr_length : List ℕ → ℕ
  pub eth_get_l3_proto : List ℕ → ℕ → ℕ
  pub net_raw_checksum : List ℕ → ℕ
  pub tx_pkt_parse : List Event → Bool
  pub tx_pkt_build_vheader_result : List Event → Bool
  pub tx_pkt_send_result : List Event → Bool
  pub tx_pkt_get_total_len : List Event → ℕ
  -- of the attached frame: hasip4, hasip6 and l4hdr_proto
  pub rx_pkt_get_protocols : List ℕ → Bool × Bool × L4Proto
  pub rx_pkt_ip4_fragment : List ℕ → Bool
  -- `none` if the check cannot be made
  pub rx_pkt_validate_l3_csum : List ℕ → Option Bool
  pub rx_pkt_validate_l4_csum : List ℕ → Option Bool
  pub rx_pkt_calc_rss_hash : List ℕ → RssType → List ℕ → ℕ
