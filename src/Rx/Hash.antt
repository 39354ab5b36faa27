-- ===== src/Rx/Hash.antt =====
-- What `ena_rss_hash` and `ena_rss_key` of hw/ena_rx.c make of a frame, on a well-formed device.
use ena.Base.{ℕ, bit_xor, Bool, true, false, ◌&&◌, ◌||◌, List, ◌≡◌, has, if◌then◌else◌}
use mathlib.Core.List.{reverse}
use ena.Admin.GetFeature.{hash_key_bytes}
use ena.Base.{drop}
use ena.Host.{Host, L4Proto, RssType}
use ena.Device.{EnaState, EnaRss}
use ena.Invariant.{IsValid}
use ena.Rss.{rss_l3_fields, rss_l3l4_fields, rss_l4_ports}
use ena.Rx.{rss_proto, rss_type}

-- A protocol with ports
pub data HasPorts : L4Proto → Type 0 where
  tcp_ports : HasPorts L4Proto.tcp
  udp_ports : HasPorts L4Proto.udp

-- The hash over the addresses alone
abbrev pub by_addresses : Bool → RssType
by_addresses true = RssType.ip4
by_addresses false = RssType.ip6

-- How a frame of some protocols is hashed with the selection `fields` of its kind of frames
pub data Hashed (r : EnaRss) (ip4 ip6 frag : Bool) (l4 : L4Proto) (hash : RssType → ℕ)
    : ℕ → Type 0 where
  -- neither IPv4 nor IPv6
  not_ip : ip4 ≡ false → ip6 ≡ false → Hashed r ip4 ip6 frag l4 hash 0
  -- IP, and no field is selected for its protocol
  unselected :
      (ip4 || ip6) ≡ true → r.fields (rss_proto ip4 frag l4) ≡ 0 → Hashed r ip4 ip6 frag l4 hash 0
  -- IP, and the addresses are selected
  addresses :
      (ip4 || ip6) ≡ true
      → r.fields (rss_proto ip4 frag l4) ≡ rss_l3_fields
      → Hashed r ip4 ip6 frag l4 hash (bit_xor r.init_val (hash (by_addresses ip4)))
  -- IP, and the ports too: the frame is TCP or UDP, and no IPv4 fragment
  ports :
      (ip4 || ip6) ≡ true
      → r.fields (rss_proto ip4 frag l4) ≡ rss_l3l4_fields
      → HasPorts l4
      → frag ≡ false
      → Hashed r ip4 ip6 frag l4 hash (bit_xor r.init_val (hash (rss_type ip4 l4)))

-- The 40 bytes of the key as GET_FEATURE writes them, behind the number of the parts
abbrev pub told_key : EnaRss → List ℕ
told_key r = drop 8 (hash_key_bytes r)

module _ (host : Host) (s : EnaState) (frame : List ℕ) (v : IsValid s) where
  abbrev ip4 : Bool
  ip4 = (host.rx_pkt_get_protocols frame).0

  abbrev ip6 : Bool
  ip6 = (host.rx_pkt_get_protocols frame).1

  abbrev l4 : L4Proto
  l4 = (host.rx_pkt_get_protocols frame).2

  -- Whether the frame is an IPv4 fragment
  abbrev frag : Bool
  frag = ip4 && host.rx_pkt_ip4_fragment frame

  abbrev fields : ℕ
  fields = s.rss.fields (rss_proto ip4 frag l4)

  -- The Toeplitz hash of the frame with the key that GET_FEATURE tells, backwards
  abbrev toeplitz : RssType → ℕ
  toeplitz t = host.rx_pkt_calc_rss_hash frame t (reverse (told_key s.rss))

  -- The protocol that is left once the ports are not selected
  abbrev hashed_proto : L4Proto
  hashed_proto = if has fields rss_l4_ports then l4 else L4Proto.invalid
