-- ===== src/Admin/SetFeature.antt =====
-- `ena_set_feature` of hw/ena_admin.c, a function for each case of its switch.
pub mod Effects
pub mod Fields
pub mod Table
pub mod Stored
use ena.Base.{
  ℕ, ◌+◌, ◌*◌, bit_and, Bool, true, false, not, ◌&&◌, ◌||◌, List, [], Outcome, ok, unsupported,
  check, ◌>>=◌, ◌>>◌, ltb, leb, ◌==◌, has, if◌then◌else◌, le16, le32, update,
}
use ena.Host.{Host}
use ena.Device.{
  EnaState, EnaRss, dma_read, mem_addr, max_sq, os_dpdk, min_mtu, max_mtu, llq_entry_size_128,
  llq_large_entry_size, rss_ind_tbl_log_size, rss_ind_tbl_size,
}
use ena.Rss.{
  is_selection, rss_supported_fields, rss_key_parts, rss_proto_num, rss_l3_fields, rss_l3l4_fields,
}
use ena.Aenq.{aenq_config}
use ena.Rx.{is_rx}
use ena.Admin.{
  Reply, fail, succeed, ctrl_buf, feat_flags, feature_id, illegal_parameter, unsupported_opcode,
  malformed_request, all_below,
}
use ena.Admin.GetFeature.{
  feat_host_attr_config, feat_aenq_config, feat_mtu, feat_llq, feat_rss_hash_function,
  feat_rss_hash_input, feat_rss_indirection_table_config,
}

-- ENA_ADMIN_MTU
unfoldable pub set_mtu : EnaState → (mtu : ℕ) → Outcome Reply
set_mtu s mtu =
    if ltb mtu min_mtu || ltb max_mtu mtu
    then fail s illegal_parameter
    else succeed (record s { mtu = mtu }) []

-- ENA_ADMIN_LLQ, with the four fields that the driver enables
unfoldable pub set_llq : EnaState → (header_location entry descs stride : ℕ) → Outcome Reply
set_llq s header_location entry descs stride =
    if not (header_location == 1)
      || (not (entry == 1) && not (entry == 4))
      || not (descs == 2)
      || not (stride == 2)
    then fail s illegal_parameter
    else succeed
        (record s {
          llq_enabled = true;
          llq_entry_size = if entry == 4 then llq_large_entry_size else llq_entry_size_128;
        })
        []

-- The 31 bits of `~ENA_SUPPORTED_AENQ_GROUPS` that a 32-bit word can have
abbrev foreign_groups : ℕ
foreign_groups = 0xffffffee

-- The selected fields of protocol `i`, masked, in the bytes of a hash control
unfoldable pub selected_fields : List ℕ → ℕ → ℕ
selected_fields hc i = bit_and (le16 hc (64 + i * 4)) (rss_supported_fields i)

-- An indirection table entry names a used RX queue.
abbrev pub entry_usable : EnaState → List ℕ → ℕ → Bool
entry_usable s tbl i = let idx = le16 tbl (i * 4) in ltb idx max_sq && is_rx s idx

abbrev pub store_key : EnaRss → List ℕ → (init_val : ℕ) → EnaRss
store_key r key init_val = record r {
  key_parts = le32 key 0;
  key = λ i. if ltb i rss_key_parts then le32 key (8 + i * 4) else r.key i;
  init_val = init_val;
}

module _ (host : Host) where
  -- ENA_ADMIN_HOST_ATTR_CONFIG. The addresses are stored before they are checked, and the host
  -- information is read into a buffer of 196 bytes.
  unfoldable pub set_host_attr : EnaState → (info_addr debug_addr debug_size : ℕ) → Outcome Reply
  set_host_attr s info_addr debug_addr debug_size =
      let s1 = record s {
        host_info_addr = info_addr;
        debug_area_addr = debug_addr;
        debug_area_size = debug_size;
      } in
      if info_addr == 0
      then fail s1 illegal_parameter
      else check (le32 (dma_read host s1 info_addr 196).1 0 == os_dpdk) >> succeed s1 []

  -- ENA_ADMIN_AENQ_CONFIG
  unfoldable pub set_aenq : EnaState → (groups : ℕ) → Outcome Reply
  set_aenq s groups =
      if has groups foreign_groups
      then fail s illegal_parameter
      else aenq_config host s groups >>= λ s1. succeed s1 []

  unfoldable pub set_key : EnaState → (buf init_val : ℕ) → Outcome Reply
  set_key s buf init_val =
      let key = (dma_read host s buf 48).1 in
      if buf == 0
      then fail s malformed_request
      else if not (le32 key 0 == rss_key_parts)
      then fail s illegal_parameter
      else succeed (record s { rss = store_key s.rss key init_val }) []

  -- ENA_ADMIN_RSS_HASH_FUNCTION
  unfoldable pub set_hash_function : EnaState → List ℕ → Outcome Reply
  set_hash_function s cmd =
      if not (le32 cmd 24 == 2)
      then fail s illegal_parameter
      else ctrl_buf cmd 48 >>= λ buf. set_key s buf (le32 cmd 28)

  -- ENA_ADMIN_RSS_HASH_INPUT once the buffer is known
  unfoldable pub set_fields : EnaState → (buf : ℕ) → Outcome Reply
  set_fields s buf =
      let hc = (dma_read host s buf 256).1 in
      if buf == 0
      then fail s malformed_request
      else if not (all_below rss_proto_num (λ i. is_selection (selected_fields hc i)))
      then fail s illegal_parameter
      else succeed
          (record s {
            rss = record (s.rss) {
              fields = λ i. if ltb i rss_proto_num then selected_fields hc i else s.rss.fields i;
            };
          })
          []

  -- ENA_ADMIN_RSS_HASH_INPUT
  unfoldable pub set_hash_input : EnaState → List ℕ → Outcome Reply
  set_hash_input s cmd = ctrl_buf cmd 256 >>= set_fields s

  -- ENA_ADMIN_RSS_INDIRECTION_TABLE_CONFIG once the buffer is known
  unfoldable pub set_table : EnaState → (buf : ℕ) → Outcome Reply
  set_table s buf =
      let tbl = (dma_read host s buf 512).1 in
      if buf == 0
      then fail s illegal_parameter
      else if not (all_below rss_ind_tbl_size (entry_usable s tbl))
      then fail s illegal_parameter
      else succeed
          (record s {
            rss = record (s.rss) {
              ind_tbl = λ i. if ltb i rss_ind_tbl_size then le16 tbl (i * 4) else s.rss.ind_tbl i;
            };
          })
          []

  -- ENA_ADMIN_RSS_INDIRECTION_TABLE_CONFIG
  unfoldable pub set_ind_table : EnaState → List ℕ → Outcome Reply
  set_ind_table s cmd =
      if not (le16 cmd 24 == rss_ind_tbl_log_size)
      then fail s illegal_parameter
      else if not (le32 cmd 28 == 0xffffffff)
      then unsupported
      else ctrl_buf cmd 512 >>= set_table s

  -- The switch of `ena_set_feature`
  unfoldable pub set_feature_case : EnaState → List ℕ → ℕ → Outcome Reply
  set_feature_case s cmd id =
      if id == feat_host_attr_config
      then set_host_attr s (mem_addr cmd 20) (mem_addr cmd 28) (le32 cmd 36)
      else if id == feat_aenq_config
      then set_aenq s (le32 cmd 24)
      else if id == feat_mtu
      then set_mtu s (le32 cmd 20)
      else if id == feat_llq
      then set_llq s (le16 cmd 30) (le16 cmd 34) (le16 cmd 38) (le16 cmd 42)
      else if id == feat_rss_hash_function
      then set_hash_function s cmd
      else if id == feat_rss_hash_input
      then set_hash_input s cmd
      else if id == feat_rss_indirection_table_config
      then set_ind_table s cmd
      else fail s unsupported_opcode

  -- `ena_set_feature`
  unfoldable pub set_feature : EnaState → List ℕ → Outcome Reply
  set_feature s cmd =
      if has (feat_flags cmd) 3 then unsupported else set_feature_case s cmd (feature_id cmd)
