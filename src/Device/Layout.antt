-- ===== src/Device/Layout.antt =====
-- Register offsets and bit masks of hw/ena_defs/ena_regs_defs.h and hw/ena_defs/ena_eth_io_defs.h.
use ena.Base.{ℕ}

abbrev pub reg_version : ℕ
reg_version = 0x0

abbrev pub reg_controller_version : ℕ
reg_controller_version = 0x4

abbrev pub reg_caps : ℕ
reg_caps = 0x8

abbrev pub reg_caps_ext : ℕ
reg_caps_ext = 0xc

abbrev pub reg_aq_base_lo : ℕ
reg_aq_base_lo = 0x10

abbrev pub reg_aq_base_hi : ℕ
reg_aq_base_hi = 0x14

abbrev pub reg_aq_caps : ℕ
reg_aq_caps = 0x18

abbrev pub reg_acq_base_lo : ℕ
reg_acq_base_lo = 0x20

abbrev pub reg_acq_base_hi : ℕ
reg_acq_base_hi = 0x24

abbrev pub reg_acq_caps : ℕ
reg_acq_caps = 0x28

abbrev pub reg_aq_db : ℕ
reg_aq_db = 0x2c

abbrev pub reg_acq_tail : ℕ
reg_acq_tail = 0x30

abbrev pub reg_aenq_caps : ℕ
reg_aenq_caps = 0x34

abbrev pub reg_aenq_base_lo : ℕ
reg_aenq_base_lo = 0x38

abbrev pub reg_aenq_base_hi : ℕ
reg_aenq_base_hi = 0x3c

abbrev pub reg_aenq_head_db : ℕ
reg_aenq_head_db = 0x40

abbrev pub reg_aenq_tail : ℕ
reg_aenq_tail = 0x44

abbrev pub reg_intr_mask : ℕ
reg_intr_mask = 0x4c

abbrev pub reg_dev_ctl : ℕ
reg_dev_ctl = 0x54

abbrev pub reg_dev_sts : ℕ
reg_dev_sts = 0x58

abbrev pub reg_mmio_reg_read : ℕ
reg_mmio_reg_read = 0x5c

abbrev pub reg_mmio_resp_lo : ℕ
reg_mmio_resp_lo = 0x60

abbrev pub reg_mmio_resp_hi : ℕ
reg_mmio_resp_hi = 0x64

abbrev pub caps_depth : ℕ
caps_depth = 0xffff

abbrev pub caps_entry_size : ℕ
caps_entry_size = 0xffff0000

abbrev pub dev_ctl_dev_reset : ℕ
dev_ctl_dev_reset = 0x1

abbrev pub dev_ctl_reset_reason_ext : ℕ
dev_ctl_reset_reason_ext = 0xf000000

abbrev pub dev_ctl_reset_reason : ℕ
dev_ctl_reset_reason = 0xf0000000

abbrev pub dev_sts_ready : ℕ
dev_sts_ready = 0x1

abbrev pub dev_sts_reset_in_progress : ℕ
dev_sts_reset_in_progress = 0x8

abbrev pub mmio_req_id : ℕ
mmio_req_id = 0xffff

abbrev pub mmio_reg_off : ℕ
mmio_reg_off = 0xffff0000

abbrev pub intr_rx_delay : ℕ
intr_rx_delay = 0x7fff

abbrev pub intr_tx_delay : ℕ
intr_tx_delay = 0x3fff8000

abbrev pub intr_unmask : ℕ
intr_unmask = 0x40000000

abbrev pub intr_no_moderation_update : ℕ
intr_no_moderation_update = 0x80000000

abbrev pub tx_length : ℕ
tx_length = 0xffff

abbrev pub tx_req_id_hi : ℕ
tx_req_id_hi = 0x3f0000

abbrev pub tx_meta_desc : ℕ
tx_meta_desc = 0x800000

abbrev pub tx_first : ℕ
tx_first = 0x4000000

abbrev pub tx_last : ℕ
tx_last = 0x8000000

abbrev pub tx_comp_req : ℕ
tx_comp_req = 0x10000000

abbrev pub tx_tso_en : ℕ
tx_tso_en = 0x80

abbrev pub tx_l3_csum_en : ℕ
tx_l3_csum_en = 0x2000

abbrev pub tx_l4_csum_en : ℕ
tx_l4_csum_en = 0x4000

abbrev pub tx_req_id_lo : ℕ
tx_req_id_lo = 0xffc00000

abbrev pub tx_addr_hi : ℕ
tx_addr_hi = 0xffff

abbrev pub tx_header_length : ℕ
tx_header_length = 0xff000000

abbrev pub meta_ext_valid : ℕ
meta_ext_valid = 0x4000

abbrev pub meta_mss_hi : ℕ
meta_mss_hi = 0xf0000

abbrev pub meta_l3_hdr_len : ℕ
meta_l3_hdr_len = 0xff

abbrev pub meta_l3_hdr_off : ℕ
meta_l3_hdr_off = 0xff00

abbrev pub meta_l4_hdr_len_words : ℕ
meta_l4_hdr_len_words = 0x3f0000

abbrev pub meta_mss_lo : ℕ
meta_mss_lo = 0xffc00000

abbrev pub rx_first : ℕ
rx_first = 0x4

abbrev pub rx_last : ℕ
rx_last = 0x8

abbrev pub rx_comp_req : ℕ
rx_comp_req = 0x10

abbrev pub rx_cdesc_l3_csum_err : ℕ
rx_cdesc_l3_csum_err = 0x2000

abbrev pub rx_cdesc_l4_csum_err : ℕ
rx_cdesc_l4_csum_err = 0x4000

abbrev pub rx_cdesc_ipv4_frag : ℕ
rx_cdesc_ipv4_frag = 0x8000

abbrev pub rx_cdesc_l4_csum_checked : ℕ
rx_cdesc_l4_csum_checked = 0x10000

abbrev pub rx_cdesc_phase : ℕ
rx_cdesc_phase = 0x1000000

abbrev pub rx_cdesc_first : ℕ
rx_cdesc_first = 0x4000000

abbrev pub rx_cdesc_last : ℕ
rx_cdesc_last = 0x8000000

abbrev pub rx_cdesc_buffer : ℕ
rx_cdesc_buffer = 0x40000000

abbrev pub l3_proto_ipv4 : ℕ
l3_proto_ipv4 = 0x8

abbrev pub l3_proto_ipv6 : ℕ
l3_proto_ipv6 = 0xb

abbrev pub l4_proto_tcp : ℕ
l4_proto_tcp = 0xc

abbrev pub l4_proto_udp : ℕ
l4_proto_udp = 0xd
