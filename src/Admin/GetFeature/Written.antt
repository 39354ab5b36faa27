-- ===== src/Admin/GetFeature/Written.antt =====
-- The bytes that the RSS cases of GET_FEATURE in hw/ena_admin.c write, read back.
use ena.Base.{
  length, length-append, replicate, ◌≤◌, le32_at, le16-append_left, le16-append_right,
  le32-append_right, inl, inr, Bool-cases, bytes32, Bool-cases, ℕ, ◌+◌, ◌*◌, ◌<◌, List, ◌++◌,
  Outcome, ok, ◌≡◌, ◌≢◌, refl, subst, ◌∙◌, arith, ◌==◌, ==_iff, if◌then◌else◌, if_both, le16, le32,
  u16, u32,
}
use ena.Device.{EnaState, EnaRss, dma_write_bytes, rss_ind_tbl_size}
use ena.Rss.{rss_key_parts, rss_proto_num, rss_supported_fields}
use ena.Admin.{success}
use ena.Admin.GetFeature.{
  array_bytes, reply_with_data, ind_table_bytes, hash_key_bytes, flow_hash_func_resp,
  fill_hash_ctrl, proto_input,
}
use ena.Admin.GetFeature.Arrays.{length-array_bytes, le16-array_bytes, le32-array_bytes}

-- The answer to a GET_FEATURE that gives a buffer
pub reply_with_data-ok :
    (s : EnaState) (payload ctrl_data : List ℕ) (found : Outcome ℕ) (b : ℕ)
    → found ≡ ok b
    → b ≢ 0
    → reply_with_data s payload ctrl_data found
      ≡ ok (dma_write_bytes s b ctrl_data, success, payload)
unfolding reply_with_data if◌then◌else◌
reply_with_data-ok s payload ctrl_data found b e ne = elim (Bool-cases (b == 0)) [
  | inl z ↦ absurd (ne ((==_iff b 0).0 z))
  | inr z ↦ rw (e, z) refl
]

pub ind_table_bytes-entry :
    (r : EnaRss) (i : ℕ)
    → i < rss_ind_tbl_size
    → le16 (ind_table_bytes r) (i * 4) ≡ u16 (r.ind_tbl i)
unfolding ind_table_bytes
ind_table_bytes-entry r i lt = le16-array_bytes r.ind_tbl (λ j. 0) rss_ind_tbl_size i lt

pub hash_key_bytes-parts : (r : EnaRss) → le32 (hash_key_bytes r) 0 ≡ u32 r.key_parts
unfolding hash_key_bytes
hash_key_bytes-parts r = le32_at _ 0 r.key_parts refl refl refl refl

pub flow_hash_func_resp-init : (s : EnaState) → le32 (flow_hash_func_resp s) 8 ≡ u32 s.rss.init_val
unfolding flow_hash_func_resp
flow_hash_func_resp-init s = le32_at _ 8 s.rss.init_val refl refl refl refl

pub rss_supported_fields-le : (i : ℕ) → rss_supported_fields i ≤ 0x3c
unfolding rss_supported_fields
rss_supported_fields-le i =
    if_both (λ k. k ≤ 0x3c) _ (λ _. omega arith)
      (λ _. if_both (λ k. k ≤ 0x3c) _ (λ _. omega arith) (λ _. omega arith))

pub hash_key_bytes-part :
    (r : EnaRss) (i : ℕ) → i < rss_key_parts → le32 (hash_key_bytes r) (8 + i * 4) ≡ u32 (r.key i)
unfolding hash_key_bytes
hash_key_bytes-part r i lt =
    le32-append_right (bytes32 r.key_parts ++ bytes32 0) _ (i * 4)
    ∙ le32-array_bytes r.key rss_key_parts i lt

pub fill_hash_ctrl-selected :
    (r : EnaRss) (i : ℕ)
    → i < rss_proto_num
    → le16 (fill_hash_ctrl r) (64 + i * 4) ≡ u16 (r.fields i)
unfolding fill_hash_ctrl proto_input
fill_hash_ctrl-selected r i lt =
    subst (λ l. le16 (fill_hash_ctrl r) (l + i * 4) ≡ u16 (r.fields i))
      (length-array_bytes supported 4 (λ j. refl) rss_proto_num)
      (le16-append_left (array_bytes supported rss_proto_num ++ array_bytes chosen rss_proto_num)
          (replicate 128 0) (length (array_bytes supported rss_proto_num) + i * 4)
          (omega (
            arith,
            lt,
            length-append (array_bytes supported rss_proto_num) (array_bytes chosen rss_proto_num),
            length-array_bytes chosen 4 (λ j. refl) rss_proto_num,
          ))
        ∙ le16-append_right (array_bytes supported rss_proto_num) (array_bytes chosen rss_proto_num)
            (i * 4)
        ∙ le16-array_bytes r.fields (λ j. 0) rss_proto_num i lt)
  where
    supported : ℕ → List ℕ
    supported j = proto_input (rss_supported_fields j)

    chosen : ℕ → List ℕ
    chosen j = proto_input (r.fields j)
