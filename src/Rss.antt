-- ===== src/Rss.antt =====
-- RSS field selections: `ena_rss_supported_fields` of hw/ena_admin.c and `ena_rss_reset` of hw/ena.c.
use ena.Base.{ℕ, Bool, ◌||◌, List, [], ◌∷◌, ◌==◌, ltb, if◌then◌else◌, get_or}
use ena.Device.{EnaRss}

abbrev pub rss_key_parts : ℕ
rss_key_parts = 10

abbrev pub rss_proto_num : ℕ
rss_proto_num = 16

abbrev pub rss_l3_fields : ℕ
rss_l3_fields = 0xc

abbrev pub rss_l3l4_fields : ℕ
rss_l3l4_fields = 0x3c

-- `ENA_RSS_L4_PORTS`
abbrev pub rss_l4_ports : ℕ
rss_l4_ports = 0x30

-- `enum ena_admin_flow_hash_proto`
abbrev pub rss_tcp4 : ℕ
rss_tcp4 = 0

abbrev pub rss_udp4 : ℕ
rss_udp4 = 1

abbrev pub rss_tcp6 : ℕ
rss_tcp6 = 2

abbrev pub rss_udp6 : ℕ
rss_udp6 = 3

abbrev pub rss_ip4 : ℕ
rss_ip4 = 4

abbrev pub rss_ip6 : ℕ
rss_ip6 = 5

abbrev pub rss_ip4_frag : ℕ
rss_ip4_frag = 6

-- No field, both addresses, or both addresses and both ports
abbrev pub is_selection : ℕ → Bool
is_selection sel = sel == 0 || sel == rss_l3_fields || sel == rss_l3l4_fields

-- `ena_rss_supported_fields`
unfoldable pub rss_supported_fields : ℕ → ℕ
rss_supported_fields proto =
    if proto == rss_tcp4 || proto == rss_udp4 || proto == rss_tcp6 || proto == rss_udp6
    then rss_l3l4_fields
    else if proto == rss_ip4 || proto == rss_ip6 || proto == rss_ip4_frag
    then rss_l3_fields
    else 0

abbrev pub default_key : List ℕ
default_key =
    0x6d5a56da ∷ 0x255b0ec2 ∷ 0x4167253d ∷ 0x43a38fb0 ∷ 0xd0ca2bcb ∷ 0xae7b30b4 ∷ 0x77cb2da3
    ∷ 0x8030f20c ∷ 0x6a42b73b ∷ 0xbeac01fa ∷ []

-- `ena_rss_reset`: the whole struct is cleared, so the indirection table is 0.
unfoldable pub rss_reset : EnaRss
rss_reset = record {
  key = λ i. get_or default_key i 0;
  key_parts = rss_key_parts;
  init_val = 0;
  fields = λ i. if ltb i rss_proto_num then rss_supported_fields i else 0;
  ind_tbl = λ i. 0;
}
