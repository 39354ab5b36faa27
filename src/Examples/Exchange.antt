-- ===== src/Examples/Exchange.antt =====
-- The theorems about whole exchanges between the driver and the device at the concrete device: the
-- admin queue, the settings, a TX doorbell and a frame.
use ena.Base.{
  ℕ, ◌+◌, ◌*◌, ◌<◌, ◌∷◌, [], ◌++◌, List, true, ok, ◌≡◌, refl, arith, Ends, if◌then◌else◌, bytes16,
  le16, le32, byte, bit_and, ltb,
}
use ena.Host.{Host}
use ena.Device.{
  EnaState, stats_reset, set_reg, mem_addr, dma_read, dma_write_bytes, rss_ind_tbl_size,
}
use ena.Device.Layout.{reg_aq_base_lo, reg_acq_base_lo, reg_aq_caps, reg_aq_db}
use ena.Reset.{dev_reset, clear_state}
use ena.Rss.{rss_proto_num, rss_key_parts, rss_supported_fields}
use ena.Invariant.{IsValid, acq_depth_of}
use ena.Regs.Write.{restart_acq}
use ena.Regs.Restart.{IsValid-set_reg, restart_acq-IsValid}
use ena.Examples.{still_host-PowersOnly, still_host, ready, ready-IsValid}
use ena.Admin.{Reply, success, ctrl_buf}
use ena.Admin.GetFeature.{
  get_feature_case, ind_table_resp, ind_table_bytes, flow_hash_func_resp, hash_key_bytes,
  fill_hash_ctrl, feat_rss_indirection_table_config, feat_rss_hash_function, feat_rss_hash_input,
  feat_mtu,
}
use ena.Admin.SetFeature.{
  set_ind_table, set_table, set_hash_function, set_key, store_key, set_hash_input, set_fields,
  selected_fields, set_feature_case, set_mtu,
}
use ena.Admin.RoundTrip.{
  get_feature-set_ind_table, get_feature-set_hash_function, get_feature-set_hash_input,
}
use ena.Admin.Settings.{mtu, Agrees, get_feature-set_feature}
use ena.Admin.Process.{admin_exec, admin_process}
use ena.Admin.Process.Errors.{Executed}
use ena.Admin.Process.Executed.{admin_exec-Executed}
use ena.Admin.Process.Completions.{AcqTaken}
use ena.Admin.Process.Batch.{Answered, admin_process-Answered}

-- A command of opcode 99
abbrev cmd99 : List ℕ
cmd99 = 5 ∷ 0 ∷ 99 ∷ []

admin_exec-Executed_example : Ends (Executed ready) (admin_exec still_host ready cmd99)
admin_exec-Executed_example = admin_exec-Executed still_host ready cmd99

-- The entry size of 64 bytes and the depth 16, as the queues' CAPS registers tell them
abbrev caps16 : ℕ
caps16 = 0x400010

abbrev based : EnaState
based = set_reg (set_reg ready reg_aq_base_lo 4096) reg_acq_base_lo 8192

-- The device with an admin queue of 16 entries, one command posted
abbrev posted : EnaState
posted = set_reg (set_reg (restart_acq based caps16) reg_aq_caps caps16) reg_aq_db 1

based-IsValid : IsValid based
based-IsValid =
    IsValid-set_reg (set_reg ready reg_aq_base_lo 4096) reg_acq_base_lo 8192 refl
      (IsValid-set_reg ready reg_aq_base_lo 4096 refl ready-IsValid)

posted-IsValid : IsValid posted
unfolding ena.Regs.queue_caps_fit
posted-IsValid =
    IsValid-set_reg (set_reg (restart_acq based caps16) reg_aq_caps caps16) reg_aq_db 1 refl (
      IsValid-set_reg (restart_acq based caps16) reg_aq_caps caps16 refl
        (restart_acq-IsValid still_host still_host-PowersOnly based caps16 refl based-IsValid))

admin_process-Answered_example :
    Ends
      (λ t. (n : ℕ) × AcqTaken posted (acq_depth_of posted) n × Answered still_host posted n t)
      (admin_process still_host posted)
unfolding if◌then◌else◌ dev_reset clear_state stats_reset
admin_process-Answered_example = admin_process-Answered still_host posted posted-IsValid refl

-- A host whose memory reads as zeros, and one whose memory reads as a hash key of ten parts
abbrev zero_host : Host
zero_host = record still_host { dma_read = λ t a n. (true, []) }

abbrev key_host : Host
key_host = record still_host { dma_read = λ t a n. (true, 10 ∷ []) }

-- A command with a control buffer of 512 bytes at address 4096, for a table of 2 ^ 7 entries
abbrev table_cmd : List ℕ
table_cmd =
    0 ∷ 0 ∷ 9 ∷ 4 ∷ 0 ∷ 2 ∷ 0 ∷ 0 ∷ 0 ∷ 16 ∷ 0 ∷ 0 ∷ 0 ∷ 0 ∷ 0 ∷ 0 ∷ 0 ∷ 12 ∷ 0 ∷ 0 ∷ 0 ∷ 0 ∷ 0 ∷ 0
    ∷ 7 ∷ 0 ∷ 0 ∷ 0 ∷ 255 ∷ 255 ∷ 255 ∷ 255 ∷ []

abbrev with_table : EnaState
with_table = record ready {
  rss = record (ready.rss) {
    ind_tbl = λ i. if ltb i 128 then le16 [] (i * 4) else ready.rss.ind_tbl i;
  };
}

table_is_set : set_ind_table zero_host ready table_cmd ≡ ok (with_table, success, [])
unfolding set_ind_table set_table ctrl_buf mem_addr if◌then◌else◌ le16 le32 byte ena.Admin.all_below
    dev_reset clear_state stats_reset
table_is_set = refl

table_buf : ctrl_buf table_cmd 512 ≡ ok 4096
unfolding ctrl_buf mem_addr if◌then◌else◌ le16 le32 byte
table_buf = refl

get_feature-set_ind_table_example :
    (get_feature_case with_table table_cmd feat_rss_indirection_table_config
      ≡ ok (
        dma_write_bytes with_table 4096 (ind_table_bytes with_table.rss),
        success,
        ind_table_resp,
      ))
    × (buf : ℕ) × (ctrl_buf table_cmd 512 ≡ ok buf)
    × ((i : ℕ)
        → i < rss_ind_tbl_size
        → le16 (ind_table_bytes with_table.rss) (i * 4)
          ≡ le16 (dma_read zero_host ready buf 512).1 (i * 4))
get_feature-set_ind_table_example =
    get_feature-set_ind_table zero_host ready with_table table_cmd table_cmd [] 4096 table_is_set
      table_buf (λ e. omega arith)

-- A command with a control buffer that selects the Toeplitz function, with the initial value 3
abbrev key_cmd : List ℕ
key_cmd =
    0 ∷ 0 ∷ 9 ∷ 4 ∷ 0 ∷ 2 ∷ 0 ∷ 0 ∷ 0 ∷ 16 ∷ 0 ∷ 0 ∷ 0 ∷ 0 ∷ 0 ∷ 0 ∷ 0 ∷ 10 ∷ 0 ∷ 0 ∷ 0 ∷ 0 ∷ 0 ∷ 0
    ∷ 2 ∷ 0 ∷ 0 ∷ 0 ∷ 3 ∷ 0 ∷ 0 ∷ 0 ∷ []

abbrev with_key : EnaState
with_key = record ready { rss = store_key ready.rss (10 ∷ []) 3 }

key_is_set : set_hash_function key_host ready key_cmd ≡ ok (with_key, success, [])
unfolding set_hash_function set_key ctrl_buf mem_addr if◌then◌else◌ le16 le32 byte dev_reset
    clear_state stats_reset
key_is_set = refl

key_buf : ctrl_buf key_cmd 48 ≡ ok 4096
unfolding ctrl_buf mem_addr if◌then◌else◌ le16 le32 byte
key_buf = refl

get_feature-set_hash_function_example :
    (get_feature_case with_key key_cmd feat_rss_hash_function
      ≡ ok (
        dma_write_bytes with_key 4096 (hash_key_bytes with_key.rss),
        success,
        flow_hash_func_resp with_key,
      ))
    × (le32 (flow_hash_func_resp with_key) 8 ≡ le32 key_cmd 28)
    × (le32 (hash_key_bytes with_key.rss) 0 ≡ rss_key_parts)
    × (buf : ℕ) × (ctrl_buf key_cmd 48 ≡ ok buf)
    × ((i : ℕ)
        → i < rss_key_parts
        → le32 (hash_key_bytes with_key.rss) (8 + i * 4)
          ≡ le32 (dma_read key_host ready buf 48).1 (8 + i * 4))
get_feature-set_hash_function_example =
    get_feature-set_hash_function key_host ready with_key key_cmd key_cmd [] 4096 key_is_set key_buf
      (λ e. omega arith)

abbrev with_fields : EnaState
with_fields = record ready {
  rss = record (ready.rss) {
    fields = λ i. if ltb i rss_proto_num then selected_fields [] i else ready.rss.fields i;
  };
}

fields_are_set : set_hash_input zero_host ready table_cmd ≡ ok (with_fields, success, [])
unfolding set_hash_input set_fields selected_fields rss_supported_fields ctrl_buf mem_addr
    if◌then◌else◌ le16 le32 byte ena.Admin.all_below dev_reset clear_state stats_reset
fields_are_set = refl

fields_buf : ctrl_buf table_cmd 256 ≡ ok 4096
unfolding ctrl_buf mem_addr if◌then◌else◌ le16 le32 byte
fields_buf = refl

get_feature-set_hash_input_example :
    (get_feature_case with_fields table_cmd feat_rss_hash_input
      ≡ ok (
        dma_write_bytes with_fields 4096 (fill_hash_ctrl with_fields.rss),
        success,
        bytes16 0 ++ bytes16 0,
      ))
    × (buf : ℕ) × (ctrl_buf table_cmd 256 ≡ ok buf)
    × ((i : ℕ)
        → i < rss_proto_num
        → le16 (fill_hash_ctrl with_fields.rss) (64 + i * 4)
          ≡ bit_and
              (le16 (dma_read zero_host ready buf 256).1 (64 + i * 4))
              (rss_supported_fields i))
get_feature-set_hash_input_example =
    get_feature-set_hash_input zero_host ready with_fields table_cmd table_cmd [] 4096
      fields_are_set fields_buf (λ e. omega arith)

-- A command that sets the MTU to 1500
abbrev mtu_cmd : List ℕ
mtu_cmd =
    0 ∷ 0 ∷ 9 ∷ 0 ∷ 0 ∷ 0 ∷ 0 ∷ 0 ∷ 0 ∷ 0 ∷ 0 ∷ 0 ∷ 0 ∷ 0 ∷ 0 ∷ 0 ∷ 0 ∷ 14 ∷ 0 ∷ 0 ∷ 220 ∷ 5 ∷ 0 ∷ 0
    ∷ []

mtu_is_set :
    set_feature_case still_host ready mtu_cmd feat_mtu
    ≡ ok (record ready { mtu = 1500 }, success, [])
unfolding set_feature_case set_mtu if◌then◌else◌ le32 byte dev_reset clear_state stats_reset
mtu_is_set = refl

get_feature-set_feature_example :
    (q : List ℕ) × (get_feature_case (record ready { mtu = 1500 }) mtu_cmd feat_mtu
      ≡ ok (record ready { mtu = 1500 }, success, q))
    × Agrees mtu mtu_cmd q
get_feature-set_feature_example =
    get_feature-set_feature mtu still_host ready (record ready { mtu = 1500 }) mtu_cmd mtu_cmd []
      mtu_is_set
