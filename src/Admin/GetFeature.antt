-- ===== src/Admin/GetFeature.antt =====
-- `ena_get_feature`, `ena_fill_hash_ctrl` and `ena_get_stats` of hw/ena_admin.c. The bytes of a
-- response are those behind the common descriptor.
pub mod Stats
pub mod Arrays
pub mod Written
pub mod Cases
use ena.Base.{
  ℕ, zero, suc, ◌/◌, ◌^◌, min, not, ◌&&◌, List, [], ◌∷◌, ◌++◌, Outcome, unsupported, ◌>>=◌, ◌==◌,
  has, if◌then◌else◌, byte, le16, bytes16, bytes32, replicate, take,
}
use ena.Device.{
  EnaState, EnaRss, dma_write_bytes, dma_addr_width, max_mtu, max_io_queues, max_queue_depth,
  max_tx_header_size, max_pkt_descs, link_speed_mbps, llq_large_entry_size, rss_ind_tbl_log_size,
  rss_ind_tbl_size,
}
use ena.Rss.{rss_supported_fields, rss_key_parts, rss_proto_num}
use ena.Admin.{
  Reply, fail, succeed, ctrl_buf, feat_flags, feature_id, feature_version, illegal_parameter,
  unsupported_opcode,
}

-- `enum ena_admin_aq_feature_id`, the features that the device has
abbrev pub feat_device_attributes : ℕ
feat_device_attributes = 1

abbrev pub feat_max_queues_num : ℕ
feat_max_queues_num = 2

abbrev pub feat_llq : ℕ
feat_llq = 4

abbrev pub feat_max_queues_ext : ℕ
feat_max_queues_ext = 7

abbrev pub feat_rss_hash_function : ℕ
feat_rss_hash_function = 10

abbrev pub feat_stateless_offload_config : ℕ
feat_stateless_offload_config = 11

abbrev pub feat_rss_indirection_table_config : ℕ
feat_rss_indirection_table_config = 12

abbrev pub feat_mtu : ℕ
feat_mtu = 14

abbrev pub feat_rss_hash_input : ℕ
feat_rss_hash_input = 18

abbrev pub feat_interrupt_moderation : ℕ
feat_interrupt_moderation = 20

abbrev pub feat_aenq_config : ℕ
feat_aenq_config = 26

abbrev pub feat_link_config : ℕ
feat_link_config = 27

abbrev pub feat_host_attr_config : ℕ
feat_host_attr_config = 28

-- `ENA_SUPPORTED_FEATURES`: the bits 1, 2, 4, 7, 10, 11, 12, 14, 18, 20, 26, 27 and 28
abbrev pub supported_features : ℕ
supported_features = 0x1c145c96

abbrev pub supported_aenq_groups : ℕ
supported_aenq_groups = 0x11

-- `ENA_TX_OFFLOADS` and `ENA_RX_OFFLOADS`
abbrev tx_offloads_offered : ℕ
tx_offloads_offered = 0x7f

abbrev rx_offloads_offered : ℕ
rx_offloads_offered = 0xf

-- `struct ena_admin_device_attr_feature_desc`
unfoldable pub dev_attr_resp : EnaState → List ℕ
dev_attr_resp s =
    bytes32 1
    ++ bytes32 0
    ++ bytes32 supported_features
    ++ bytes32 0
    ++ bytes32 dma_addr_width
    ++ bytes32 dma_addr_width
    ++ take 6 s.macaddr
    ++ (0 ∷ 0 ∷ [])
    ++ bytes32 max_mtu

-- `struct ena_admin_queue_feature_desc`
unfoldable pub max_queue_resp : List ℕ
max_queue_resp =
    bytes32 max_io_queues
    ++ bytes32 max_queue_depth
    ++ bytes32 max_io_queues
    ++ bytes32 max_queue_depth
    ++ bytes32 0
    ++ bytes32 0
    ++ bytes32 max_tx_header_size
    ++ bytes16 max_pkt_descs
    ++ bytes16 max_pkt_descs

-- `struct ena_admin_queue_ext_feature_desc`
unfoldable pub max_queue_ext_resp : List ℕ
max_queue_ext_resp =
    (1 ∷ 0 ∷ 0 ∷ 0 ∷ [])
    ++ bytes32 max_io_queues
    ++ bytes32 max_io_queues
    ++ bytes32 max_io_queues
    ++ bytes32 max_io_queues
    ++ bytes32 max_queue_depth
    ++ bytes32 max_queue_depth
    ++ bytes32 max_queue_depth
    ++ bytes32 max_queue_depth
    ++ bytes32 max_tx_header_size
    ++ bytes16 max_pkt_descs
    ++ bytes16 max_pkt_descs

-- `struct ena_admin_feature_llq_desc`
unfoldable pub llq_resp : EnaState → (version : ℕ) → List ℕ
llq_resp s version =
    bytes32 max_io_queues
    ++ bytes32 max_queue_depth
    ++ bytes16 1
    ++ bytes16 (if s.llq_enabled then 1 else 0)
    ++ bytes16 5
    ++ bytes16
        (if s.llq_entry_size == llq_large_entry_size then 4 else if s.llq_enabled then 1 else 0)
    ++ bytes16 2
    ++ bytes16 (if s.llq_enabled then 2 else 0)
    ++ bytes16 2
    ++ bytes16 (if s.llq_enabled then 2 else 0)
    ++ (min version 1 ∷ (if s.llq_large then 4 else 1) ∷ [])
    ++ bytes16 0
    ++ bytes16 1
    ++ bytes16 0

-- `struct ena_admin_feature_rss_flow_hash_function`, with the Toeplitz bit
unfoldable pub flow_hash_func_resp : EnaState → List ℕ
flow_hash_func_resp s = bytes32 2 ++ bytes32 2 ++ bytes32 s.rss.init_val

-- `struct ena_admin_feature_rss_ind_table`
unfoldable pub ind_table_resp : List ℕ
ind_table_resp =
    bytes16 rss_ind_tbl_log_size
    ++ bytes16 rss_ind_tbl_log_size
    ++ bytes16 rss_ind_tbl_log_size
    ++ (0 ∷ 0 ∷ [])
    ++ bytes32 0xffffffff

-- The elements `f 0`, …, `f (n - 1)` of an array
unfoldable pub array : {A : Type 0} → (ℕ → A) → ℕ → List A
array f zero = []
array f (suc n) = array f n ++ f n ∷ []

-- The bytes of `n` elements, one after the other
unfoldable pub array_bytes : (ℕ → List ℕ) → ℕ → List ℕ
array_bytes f zero = []
array_bytes f (suc n) = array_bytes f n ++ f n

-- `struct ena_admin_feature_rss_flow_hash_control`
unfoldable pub hash_key_bytes : EnaRss → List ℕ
hash_key_bytes r =
    bytes32 r.key_parts ++ bytes32 0 ++ array_bytes (λ i. bytes32 (r.key i)) rss_key_parts

unfoldable pub proto_input : ℕ → List ℕ
proto_input fields = bytes16 fields ++ bytes16 0

-- `ena_fill_hash_ctrl`
unfoldable pub fill_hash_ctrl : EnaRss → List ℕ
fill_hash_ctrl r =
    array_bytes (λ i. proto_input (rss_supported_fields i)) rss_proto_num
    ++ array_bytes (λ i. proto_input (r.fields i)) rss_proto_num
    ++ replicate 128 0

-- The 512 bytes of the indirection table
unfoldable pub ind_table_bytes : EnaRss → List ℕ
ind_table_bytes r = array_bytes (λ i. bytes16 (r.ind_tbl i) ++ bytes16 0) rss_ind_tbl_size

-- The reply with the control data written to the driver's buffer, if it gave one
unfoldable pub reply_with_data : EnaState → (payload ctrl_data : List ℕ) → Outcome ℕ → Outcome Reply
reply_with_data s payload ctrl_data found = do
  buf ← found
  succeed (if buf == 0 then s else dma_write_bytes s buf ctrl_data) payload

-- The switch of `ena_get_feature`
unfoldable pub get_feature_case : EnaState → List ℕ → ℕ → Outcome Reply
get_feature_case s cmd id =
    if id == feat_device_attributes
    then succeed s (dev_attr_resp s)
    else if id == feat_max_queues_num
    then succeed s max_queue_resp
    else if id == feat_max_queues_ext
    then (if not (feature_version cmd == 1)
        then fail s illegal_parameter
        else succeed s max_queue_ext_resp)
    else if id == feat_llq
    then succeed s (llq_resp s (feature_version cmd))
    else if id == feat_aenq_config
    then succeed s (bytes32 supported_aenq_groups ++ bytes32 s.aenq_groups)
    else if id == feat_link_config
    then succeed s (bytes32 link_speed_mbps ++ bytes32 8 ++ bytes32 2)
    else if id == feat_stateless_offload_config
    then succeed s
        (bytes32 tx_offloads_offered ++ bytes32 rx_offloads_offered ++ bytes32 rx_offloads_offered)
    else if id == feat_interrupt_moderation
    then succeed s (bytes16 1)
    else if id == feat_mtu
    then succeed s (bytes32 s.mtu)
    else if id == feat_rss_hash_function
    then reply_with_data s (flow_hash_func_resp s) (hash_key_bytes s.rss) (ctrl_buf cmd 48)
    else if id == feat_rss_hash_input
    then reply_with_data s (bytes16 0 ++ bytes16 0) (fill_hash_ctrl s.rss) (ctrl_buf cmd 256)
    else if id == feat_rss_indirection_table_config
    then reply_with_data s ind_table_resp (ind_table_bytes s.rss) (ctrl_buf cmd 512)
    else fail s unsupported_opcode

-- `ena_get_feature`
unfoldable pub get_feature : EnaState → List ℕ → Outcome Reply
get_feature s cmd =
    if has (feat_flags cmd) 3 then unsupported else get_feature_case s cmd (feature_id cmd)

-- A 64-bit counter as its low and its high word
unfoldable pub words64 : ℕ → List ℕ
words64 v = bytes32 v ++ bytes32 (v / 2 ^ 32)

-- `struct ena_admin_basic_stats`, less the overruns, which stay 0
unfoldable pub basic_stats : EnaState → List ℕ
basic_stats s =
    words64 s.tx_bytes
    ++ words64 s.tx_pkts
    ++ words64 s.rx_bytes
    ++ words64 s.rx_pkts
    ++ words64 s.rx_drops
    ++ words64 s.tx_drops

-- `ena_get_stats`
unfoldable pub get_stats : EnaState → List ℕ → Outcome Reply
get_stats s cmd =
    if not (byte cmd 16 == 0)
    then fail s unsupported_opcode
    else if not (le16 cmd 22 == 0) && not (le16 cmd 22 == 0xffff)
    then fail s illegal_parameter
    else succeed s (basic_stats s)
