-- ===== src/Rx.antt =====
-- The RX datapath: hw/ena_rx.c.
pub mod Receive
pub mod Deliver
pub mod Collect
pub mod Fate
pub mod Report
pub mod Status
pub mod Taken
pub mod Total
pub mod Hash
pub mod Choice
pub mod Completion
use ena.Base.{
  ℕ, zero, suc, ◌+◌, ◌-◌, ◌*◌, ◌/◌, ◌%◌, ◌^◌, min, bit_and, bit_or, bit_xor, Bool, true, false, not,
  ◌&&◌, ◌||◌, List, [], ◌∷◌, ◌++◌, Option, none, some, Outcome, ok, check, ◌>>=◌, ◌>>◌, u16, u32,
  u64, sub16, ltb, leb, ◌==◌, has, if◌then◌else◌, length, get_or, take, drop, replicate, byte, le16,
  le32, bytes16, bytes32,
}
use ena.Host.{Host, L4Proto, RssType, flush_queued_packets, rx_pkt_attach}
use ena.Device.{
  EnaState, EnaSq, EnaRss, log, set_sq, dma_read, dma_write_bytes, max_sq, max_pkt_descs,
  rss_ind_tbl_size,
}
use ena.Device.Layout.{
  rx_first, rx_last, rx_comp_req, rx_cdesc_l3_csum_err, rx_cdesc_l4_csum_err, rx_cdesc_ipv4_frag,
  rx_cdesc_l4_csum_checked, rx_cdesc_phase, rx_cdesc_first, rx_cdesc_last, rx_cdesc_buffer,
  l3_proto_ipv4, l3_proto_ipv6, l4_proto_tcp, l4_proto_udp,
}
use ena.Irq.{cq_intr}
use ena.Cq.{cq_push}
use ena.Rss.{
  rss_key_parts, rss_l4_ports, rss_tcp4, rss_udp4, rss_ip4, rss_tcp6, rss_udp6, rss_ip6,
  rss_ip4_frag,
}

-- Ethernet: header and address lengths, and the size of one VLAN tag
abbrev pub eth_hlen : ℕ
eth_hlen = 14

abbrev pub eth_alen : ℕ
eth_alen = 6

-- A 32-bit word, most significant byte first
abbrev be32 : ℕ → List ℕ
be32 v = v / 16777216 % 256 ∷ v / 65536 % 256 ∷ v / 256 % 256 ∷ v % 256 ∷ []

-- `ena_rss_key` with `n` words left: the key words in reverse order.
unfoldable pub rss_key_bytes : EnaRss → ℕ → List ℕ
rss_key_bytes r zero = []
rss_key_bytes r (suc n) = be32 (r.key n) ++ rss_key_bytes r n

-- `ena_rss_proto`
unfoldable pub rss_proto : Bool → Bool → L4Proto → ℕ
rss_proto true true l4 = rss_ip4_frag
rss_proto true false L4Proto.tcp = rss_tcp4
rss_proto true false L4Proto.udp = rss_udp4
rss_proto true false _ = rss_ip4
rss_proto false frag L4Proto.tcp = rss_tcp6
rss_proto false frag L4Proto.udp = rss_udp6
rss_proto false frag _ = rss_ip6

-- The hash type that `ena_rss_hash` asks for
unfoldable pub rss_type : Bool → L4Proto → RssType
rss_type true L4Proto.tcp = RssType.ip4_tcp
rss_type true L4Proto.udp = RssType.ip4_udp
rss_type true _ = RssType.ip4
rss_type false L4Proto.tcp = RssType.ip6_tcp
rss_type false L4Proto.udp = RssType.ip6_udp
rss_type false _ = RssType.ip6

module _ (host : Host) where
  -- `ena_rss_hash` of an attached frame
  unfoldable pub rss_hash : EnaRss → List ℕ → ℕ
  rss_hash r frame =
      let (hasip4, hasip6, l4) = host.rx_pkt_get_protocols frame in
      let frag = hasip4 && host.rx_pkt_ip4_fragment frame in
      let fields = r.fields (rss_proto hasip4 frag l4) in
      let l4' = if has fields rss_l4_ports then l4 else L4Proto.invalid in
      if not hasip4 && not hasip6
      then 0
      else if fields == 0
      then 0
      else bit_xor r.init_val
          (host.rx_pkt_calc_rss_hash frame (rss_type hasip4 l4') (rss_key_bytes r rss_key_parts))

-- The test of `ena_rx_sq` and `ena_rx_can_receive`: a used RX queue
abbrev pub is_rx : EnaState → ℕ → Bool
is_rx s i = (s.sq i).used && not (s.sq i).is_tx

-- The loop of `ena_rx_sq` over the last `n` queues
unfoldable pub first_rx_sq : EnaState → ℕ → Option ℕ
first_rx_sq s zero = none
first_rx_sq s (suc n) =
    let rest = first_rx_sq s n in let i = max_sq - suc n in if is_rx s i then some i else rest

-- `ena_rx_sq`, which returns an index in place of a pointer
unfoldable pub rx_sq : EnaState → ℕ → Option ℕ
rx_sq s hash =
    let idx = s.rss.ind_tbl (bit_and hash (rss_ind_tbl_size - 1)) in
    if ltb idx max_sq && is_rx s idx then some idx else first_rx_sq s max_sq

-- `status |= bits` if the condition holds
abbrev or_if : Bool → ℕ → ℕ → ℕ
or_if b bits status = if b then bit_or status bits else status

abbrev is_some_false : Option Bool → Bool
is_some_false none = false
is_some_false (some b) = not b

abbrev is_some : Option Bool → Bool
is_some none = false
is_some (some b) = true

module _ (host : Host) where
  unfoldable pub rx_status_l3 : List ℕ → Bool → Bool → ℕ → ℕ
  rx_status_l3 frame true hasip6 status =
      or_if (is_some_false (host.rx_pkt_validate_l3_csum frame)) rx_cdesc_l3_csum_err
        (or_if (host.rx_pkt_ip4_fragment frame) rx_cdesc_ipv4_frag (bit_or status l3_proto_ipv4))
  rx_status_l3 frame false true status = bit_or status l3_proto_ipv6
  rx_status_l3 frame false false status = status

  unfoldable pub rx_status_csum : List ℕ → ℕ → ℕ
  rx_status_csum frame status =
      let valid = host.rx_pkt_validate_l4_csum frame in
      or_if (is_some_false valid) rx_cdesc_l4_csum_err
        (or_if (is_some valid) rx_cdesc_l4_csum_checked status)

  unfoldable pub rx_status_l4 : List ℕ → L4Proto → ℕ → ℕ
  rx_status_l4 frame L4Proto.tcp status =
      rx_status_csum frame (bit_or status (l4_proto_tcp * 2 ^ 8))
  rx_status_l4 frame L4Proto.udp status =
      rx_status_csum frame (bit_or status (l4_proto_udp * 2 ^ 8))
  rx_status_l4 frame _ status = status

  -- `ena_rx_status`
  unfoldable pub rx_status : List ℕ → ℕ
  rx_status frame =
      let (hasip4, hasip6, l4) = host.rx_pkt_get_protocols frame in
      rx_status_l4 frame l4 (rx_status_l3 frame hasip4 hasip6 rx_cdesc_buffer)

-- `struct ena_eth_io_rx_desc`, decoded
pub record RxDesc : Type 0 where
  pub len : ℕ
  pub ctrl : ℕ
  pub req_id : ℕ
  pub buff_addr_lo : ℕ
  pub buff_addr_hi : ℕ

unfoldable pub rx_desc : List ℕ → RxDesc
rx_desc b = record {
  len = le16 b 0;
  ctrl = byte b 3;
  req_id = le16 b 4;
  buff_addr_lo = le32 b 8;
  buff_addr_hi = le16 b 12;
}

abbrev pub rx_desc_bytes : ℕ
rx_desc_bytes = 16

-- `ena_rx_desc_size`
unfoldable pub rx_desc_size : RxDesc → ℕ
rx_desc_size d = if d.len == 0 then 65536 else d.len

-- `ena_rx_desc_addr`
unfoldable pub rx_desc_addr : RxDesc → ℕ
rx_desc_addr d = d.buff_addr_lo + d.buff_addr_hi * 2 ^ 32

abbrev rx_need : ℕ
rx_need = 28

-- `ena_rx_desc_valid`
unfoldable pub rx_desc_valid : EnaSq → RxDesc → Bool
rx_desc_valid q d = bit_and d.ctrl rx_need == rx_need && ltb d.req_id q.depth
