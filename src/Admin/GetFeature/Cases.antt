-- ===== src/Admin/GetFeature/Cases.antt =====
-- The case analysis of `ena_get_feature` of hw/ena_admin.c, once for all the proofs that need it.
use ena.Base.{ℕ, Bool, false, ◌==◌, ◌||◌, ◌≡◌, arith, List, Outcome, if_both}
use ena.Device.{EnaState}
use ena.Admin.{Reply, succeed, fail, illegal_parameter, unsupported_opcode, ctrl_buf}
use ena.Admin.GetFeature.{
  get_feature_case, reply_with_data, feat_device_attributes, feat_max_queues_num,
  feat_max_queues_ext, feat_llq, feat_aenq_config, feat_link_config, feat_stateless_offload_config,
  feat_interrupt_moderation, feat_mtu, feat_rss_hash_function, feat_rss_hash_input,
  feat_rss_indirection_table_config,
}

-- The features that GET_FEATURE has a case for
abbrev pub has_get : ℕ → Bool
has_get id =
    id == feat_device_attributes
    || id == feat_max_queues_num
    || id == feat_max_queues_ext
    || id == feat_llq
    || id == feat_aenq_config
    || id == feat_link_config
    || id == feat_stateless_offload_config
    || id == feat_interrupt_moderation
    || id == feat_mtu
    || id == feat_rss_hash_function
    || id == feat_rss_hash_input
    || id == feat_rss_indirection_table_config

-- What holds of every way that GET_FEATURE answers holds of the answer: it succeeds, it fails, or it
-- writes to the driver's buffer. It is unknown only if it has no case.
pub get_feature_case_lem :
    (P : Outcome Reply → Type 0) (s : EnaState) (cmd : List ℕ) (id : ℕ)
    → ((payload : List ℕ) → P (succeed s payload))
    → P (fail s illegal_parameter)
    → (has_get id ≡ false → P (fail s unsupported_opcode))
    → ((payload bytes : List ℕ) (need : ℕ)
        → P (reply_with_data s payload bytes (ctrl_buf cmd need)))
    → P (get_feature_case s cmd id)
unfolding get_feature_case
get_feature_case_lem P s cmd id done bad unknown datum =
    if_both P _ (λ _. done _)
      (λ e0.
        if_both P _ (λ _. done _)
          (λ e1.
            if_both P _ (λ _. if_both P _ (λ _. bad) (λ _. done _))
              (λ e2.
                if_both P _ (λ _. done _)
                  (λ e3.
                    if_both P _ (λ _. done _)
                      (λ e4.
                        if_both P _ (λ _. done _)
                          (λ e5.
                            if_both P _ (λ _. done _)
                              (λ e6.
                                if_both P _ (λ _. done _)
                                  (λ e7.
                                    if_both P _ (λ _. done _)
                                      (λ e8.
                                        if_both P _ (λ _. datum _ _ 48)
                                          (λ e9.
                                            if_both P _ (λ _. datum _ _ 256)
                                              (λ e10.
                                                if_both P _ (λ _. datum _ _ 512)
                                                  (λ e11. unknown (
                                                    ground (
                                                      arith, e0, e1, e2, e3, e4, e5, e6, e7, e8, e9,
                                                      e10, e11,
                                                    ))))))))))))))
