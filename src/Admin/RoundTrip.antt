-- ===== src/Admin/RoundTrip.antt =====
-- The RSS settings of hw/ena_admin.c: what SET_FEATURE reads from the driver's buffer, GET_FEATURE
-- writes back.
use ena.Base.Bits.{bit_and-le}
use ena.Base.{
  bytes16, ℕ, ◌+◌, ◌*◌, ◌<◌, bit_and, List, ◌++◌, ok, ◌≡◌, ◌≢◌, refl, arith, if◌then◌else◌,
  Ends_of_ok, le16, le32, le16-lt, le32-lt,
}
use ena.Host.{Host}
use ena.Device.{EnaState, dma_read, dma_write_bytes, rss_ind_tbl_size}
use ena.Rss.{rss_key_parts, rss_proto_num, rss_supported_fields}
use ena.Admin.{success, ctrl_buf}
use ena.Admin.GetFeature.{
  get_feature_case, ind_table_bytes, ind_table_resp, hash_key_bytes, flow_hash_func_resp,
  fill_hash_ctrl, feat_rss_indirection_table_config, feat_rss_hash_function, feat_rss_hash_input,
}
use ena.Admin.SetFeature.{set_ind_table, set_hash_function, set_hash_input, selected_fields}
use ena.Admin.SetFeature.Stored.{
  Sets, TableOf, set_ind_table-TableOf, KeyOf, set_hash_function-KeyOf, FieldsOf,
  set_hash_input-FieldsOf,
}
use ena.Admin.GetFeature.Written.{
  reply_with_data-ok, ind_table_bytes-entry, hash_key_bytes-parts, flow_hash_func_resp-init,
  rss_supported_fields-le, hash_key_bytes-part, fill_hash_ctrl-selected,
}

module _ (host : Host) (s t : EnaState) (cmd cmd' : List ℕ) (p : List ℕ) (b : ℕ) where
  -- What a GET_FEATURE with the buffer `b` comes to: the data goes there.
  abbrev Gets : (id : ℕ) → (payload written : List ℕ) → Type 0
  Gets id payload written =
      get_feature_case t cmd' id ≡ ok (dma_write_bytes t b written, success, payload)

  -- After a SET of the indirection table that succeeds, a GET with a buffer writes a table whose
  -- entries are those that the SET read from its buffer.
  pub get_feature-set_ind_table :
      set_ind_table host s cmd ≡ ok (t, success, p)
      → ctrl_buf cmd' 512 ≡ ok b
      → b ≢ 0
      → Gets feat_rss_indirection_table_config ind_table_resp (ind_table_bytes t.rss)
        × (buf : ℕ) × (ctrl_buf cmd 512 ≡ ok buf)
        × ((i : ℕ)
            → i < rss_ind_tbl_size
            → le16 (ind_table_bytes t.rss) (i * 4) ≡ le16 (dma_read host s buf 512).1 (i * 4))
  unfolding get_feature_case if◌then◌else◌
  get_feature-set_ind_table set found ne =
      let (buf, given, table) =
        Ends_of_ok (Sets cmd 512 (TableOf host s)) _ (t, success, p)
          (set_ind_table-TableOf host s cmd) set refl in
      (
        reply_with_data-ok t _ _ (ctrl_buf cmd' 512) b found ne,
        buf,
        given,
        λ i lt. omega (
          arith,
          ind_table_bytes-entry t.rss i lt,
          table i lt,
          le16-lt (dma_read host s buf 512).1 (i * 4),
        ),
      )

  -- After a SET of the hash function that succeeds, a GET with a buffer writes the key parts that the
  -- SET read from its buffer, and its response tells the initial value of the SET command.
  pub get_feature-set_hash_function :
      set_hash_function host s cmd ≡ ok (t, success, p)
      → ctrl_buf cmd' 48 ≡ ok b
      → b ≢ 0
      → Gets feat_rss_hash_function (flow_hash_func_resp t) (hash_key_bytes t.rss)
        × (le32 (flow_hash_func_resp t) 8 ≡ le32 cmd 28)
        × (le32 (hash_key_bytes t.rss) 0 ≡ rss_key_parts)
        × (buf : ℕ) × (ctrl_buf cmd 48 ≡ ok buf)
        × ((i : ℕ)
            → i < rss_key_parts
            → le32 (hash_key_bytes t.rss) (8 + i * 4) ≡ le32 (dma_read host s buf 48).1 (8 + i * 4))
  unfolding get_feature_case if◌then◌else◌
  get_feature-set_hash_function set found ne =
      let (buf, given, (init, parts, key)) =
        Ends_of_ok (Sets cmd 48 (KeyOf host s cmd)) _ (t, success, p)
          (set_hash_function-KeyOf host s cmd) set refl in
      (
        reply_with_data-ok t _ _ (ctrl_buf cmd' 48) b found ne,
        omega (arith, flow_hash_func_resp-init t, init, le32-lt cmd 28),
        omega (arith, hash_key_bytes-parts t.rss, parts),
        buf,
        given,
        λ i lt. omega (
          arith,
          hash_key_bytes-part t.rss i lt,
          key i lt,
          le32-lt (dma_read host s buf 48).1 (8 + i * 4),
        ),
      )

  -- After a SET of the hash inputs that succeeds, a GET with a buffer writes for each protocol the
  -- fields that the SET selected in its buffer, less those that the device does not support.
  pub get_feature-set_hash_input :
      set_hash_input host s cmd ≡ ok (t, success, p)
      → ctrl_buf cmd' 256 ≡ ok b
      → b ≢ 0
      → Gets feat_rss_hash_input (bytes16 0 ++ bytes16 0) (fill_hash_ctrl t.rss)
        × (buf : ℕ) × (ctrl_buf cmd 256 ≡ ok buf)
        × ((i : ℕ)
            → i < rss_proto_num
            → le16 (fill_hash_ctrl t.rss) (64 + i * 4)
              ≡ bit_and (le16 (dma_read host s buf 256).1 (64 + i * 4)) (rss_supported_fields i))
  unfolding get_feature_case if◌then◌else◌ selected_fields
  get_feature-set_hash_input set found ne =
      let (buf, given, fields) =
        Ends_of_ok (Sets cmd 256 (FieldsOf host s)) _ (t, success, p)
          (set_hash_input-FieldsOf host s cmd) set refl in
      (
        reply_with_data-ok t _ _ (ctrl_buf cmd' 256) b found ne,
        buf,
        given,
        λ i lt. omega (
          arith,
          fill_hash_ctrl-selected t.rss i lt,
          fields i lt,
          le16-lt (dma_read host s buf 256).1 (64 + i * 4),
          bit_and-le (le16 (dma_read host s buf 256).1 (64 + i * 4)) (rss_supported_fields i),
          rss_supported_fields-le i,
        ),
      )
