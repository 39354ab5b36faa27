-- ===== src/Tx/Sent.antt =====
-- What `ena_tx_xmit` of hw/ena_tx.c lets out to the network.
use ena.Base.{
  ok, ◌-◌, ◌^◌, u64, ℕ, ◌+◌, ◌≤◌, bit_and, Bool, true, false, List, ◌++◌, some, ◌≡◌, ◌≢◌, has,
  length, take, drop,
}
use ena.Host.{Host}
use ena.Device.{EnaState}
use ena.Device.Layout.{tx_tso_en}
use ena.Rx.{eth_hlen, eth_alen}
use ena.Rx.Receive.{bytes_eq}
use ena.Tx.{EnaTxPkt, llq_header_off}
use ena.Base.{ok}
use ena.Tx.Xmitted.{pushed_header}
use ena.Tx.Xmit.{
  first_desc, tx_hdr_len, tx_descs_len, tx_offload_mask, tx_gather, tx_frame_protos,
  tx_valid_offloads, ip_proto_tcp, tx_send, tx_max_pkt,
}

-- The offload bits that the packet asks for
abbrev pub asked : EnaTxPkt → ℕ
asked p = bit_and (first_desc p).meta_ctrl tx_offload_mask

abbrev pub is_tso : EnaTxPkt → Bool
is_tso p = has (asked p) tx_tso_en

-- A frame that may go out: it has an Ethernet header with the device's own source address, it is
-- within the MTU or is to be segmented, and a segmentation is of TCP and has a segment size.
pub record IsAllowed (host : Host) (s : EnaState) (i : ℕ) (p : EnaTxPkt) (buf : List ℕ)
    : Type 0 where
  pub has_header : eth_hlen ≤ length buf
  pub own_source : bytes_eq (take eth_alen (drop eth_alen buf)) (take eth_alen s.macaddr) ≡ true
  pub within_mtu : is_tso p ≡ false → length buf ≤ s.mtu + eth_hlen + 4
  pub has_mss : is_tso p ≡ true → (s.sq i).tx_meta.mss ≢ 0
  pub is_tcp : is_tso p ≡ true → (tx_frame_protos host buf).1 ≡ ip_proto_tcp

-- Nothing went out, and nothing was counted as sent.
abbrev pub Withheld : EnaState → EnaState → Type 0
Withheld s t = (t.trace ≡ s.trace) × (t.tx_pkts ≡ s.tx_pkts) × (t.tx_bytes ≡ s.tx_bytes)

-- The offloads that the packet's own protocols leave
abbrev pub granted : Host → EnaTxPkt → List ℕ → ℕ
granted host p buf = let (ip4, l4) = tx_frame_protos host buf in tx_valid_offloads (asked p) ip4 l4

-- The frame of a packet: the pushed header and the buffers
abbrev pub frame_of : Host → EnaState → ℕ → EnaTxPkt → List ℕ → List ℕ
frame_of host s i p body = pushed_header host s i (tx_hdr_len p) ++ body

-- A packet whose buffers, read without a failure, are `body`, with a pushed header only if it is in
-- LLQ memory and no longer than its room there, of a size that is neither 0 nor above the largest
-- packet, and with a frame that may go out
pub record IsSendable (host : Host) (s : EnaState) (i : ℕ) (p : EnaTxPkt) (body : List ℕ)
    : Type 0 where
  pub gathered : tx_gather host s p.desc ≡ some body
  pub pushed : (s.sq i).llq ≡ false → tx_hdr_len p ≡ 0
  pub header_fits : tx_hdr_len p ≤ u64 ((s.sq i).entry_size + 2 ^ 64 - llq_header_off)
  pub not_empty : 1 ≤ tx_hdr_len p + tx_descs_len p.desc
  pub not_large : tx_hdr_len p + tx_descs_len p.desc ≤ tx_max_pkt
  pub allowed : IsAllowed host s i p (frame_of host s i p body)

module _ (host : Host) (s : EnaState) (i : ℕ) (p : EnaTxPkt) where
  -- The frame was handed on.
  abbrev pub Passes : List ℕ → EnaState → Type 0
  Passes buf t = t ≡ tx_send host s buf (granted host p buf) (s.sq i).tx_meta.mss
