-- ===== src/Rx/Status.antt =====
-- The status word of an RX completion, `ena_rx_status`, `ena_rx_push_cdesc` and
-- `ena_rx_receive_iov` of hw/ena_rx.c, read back bit by bit.
use ena.Base.{
  ℕ, ◌/◌, ◌^◌, bit_and, Bool, true, false, not, ◌&&◌, List, Option, none, some, ◌≡◌, arith, has,
  if◌then◌else◌,
}
use ena.Host.{Host, L4Proto}
use ena.Device.Layout.{
  rx_cdesc_l3_csum_err, rx_cdesc_l4_csum_err, rx_cdesc_ipv4_frag, rx_cdesc_l4_csum_checked,
  l3_proto_ipv4, l3_proto_ipv6, l4_proto_tcp, l4_proto_udp, rx_cdesc_phase, rx_cdesc_first,
  rx_cdesc_last,
}
use ena.Rx.{rx_status, rx_status_l3, rx_status_l4, rx_status_csum}
use ena.Rx.Receive.{frame_bits}
use ena.Rx.Completion.{with_phase}

-- A checksum that was found wrong, and one that was looked at
abbrev pub is_wrong : Option Bool → Bool
is_wrong none = false
is_wrong (some valid) = not valid

abbrev pub is_checked : Option Bool → Bool
is_checked none = false
is_checked (some valid) = true

-- The code of the network protocol, and of the transport protocol
abbrev pub l3_code : (ip4 ip6 : Bool) → ℕ
l3_code true ip6 = l3_proto_ipv4
l3_code false true = l3_proto_ipv6
l3_code false false = 0

abbrev pub l4_code : L4Proto → ℕ
l4_code L4Proto.tcp = l4_proto_tcp
l4_code L4Proto.udp = l4_proto_udp
l4_code _ = 0

abbrev pub has_ports : L4Proto → Bool
has_ports L4Proto.tcp = true
has_ports L4Proto.udp = true
has_ports _ = false

-- What the bits of the word `w` tell of a frame: the fields of `struct ena_eth_io_rx_cdesc_base`
pub record TellsFrame (host : Host) (frame : List ℕ) (phase first last : Bool) (w : ℕ)
    : Type 0 where
  pub l3_eq :
      bit_and w 0x1f
      ≡ l3_code (host.rx_pkt_get_protocols frame).0 (host.rx_pkt_get_protocols frame).1
  pub l4_eq : bit_and w 0x1f00 / 2 ^ 8 ≡ l4_code (host.rx_pkt_get_protocols frame).2
  pub l3_csum_err :
      has w rx_cdesc_l3_csum_err
      ≡ ((host.rx_pkt_get_protocols frame).0 && is_wrong (host.rx_pkt_validate_l3_csum frame))
  pub frag :
      has w rx_cdesc_ipv4_frag
      ≡ ((host.rx_pkt_get_protocols frame).0 && host.rx_pkt_ip4_fragment frame)
  pub l4_csum_checked : has w rx_cdesc_l4_csum_checked ≡ (
      has_ports (host.rx_pkt_get_protocols frame).2
      && is_checked (host.rx_pkt_validate_l4_csum frame))
  pub l4_csum_err : has w rx_cdesc_l4_csum_err ≡ (
      has_ports (host.rx_pkt_get_protocols frame).2
      && is_wrong (host.rx_pkt_validate_l4_csum frame))
  pub phase_eq : has w rx_cdesc_phase ≡ phase
  pub first_eq : has w rx_cdesc_first ≡ first
  pub last_eq : has w rx_cdesc_last ≡ last

-- The status word of a completion tells of each frame the protocols, the fragment and the checksums
-- as QEMU's parser found them (those of the transport only for TCP and UDP, that of the network
-- header and the fragment only for IPv4), the phase, and whether the buffer is the first and the
-- last.
pub rx_status-TellsFrame :
    (host : Host) (frame : List ℕ) (phase first last : Bool)
    → TellsFrame host frame phase first last
        (with_phase phase (frame_bits (rx_status host frame) first last))
unfolding rx_status rx_status_l3 rx_status_l4 rx_status_csum if◌then◌else◌
rx_status-TellsFrame host frame phase first last = record {
  l3_eq = ground arith;
  l4_eq = ground arith;
  l3_csum_err = ground arith;
  frag = ground arith;
  l4_csum_checked = ground arith;
  l4_csum_err = ground arith;
  phase_eq = ground arith;
  first_eq = ground arith;
  last_eq = ground arith;
}
