-- ===== src/Admin/Process/Executed.antt =====
-- What the commands of hw/ena_admin.c leave of the device when they fail, and of the admin queues
-- always: the commands that read guest memory, and their dispatch.
use ena.Base.{
  ◌∙◌, ℕ, List, [], inl, inr, refl, arith, if_both, le-leb, Total, Total-Ends, Ends-bind,
  Total-bind, check-Ends, check-Total, length, ◌≤◌,
}
use ena.Host.{Host}
use ena.Device.{EnaState}
use ena.Irq.{admin_intr}
use ena.Aenq.{
  aenq_post, aenq_advance, aenq_config, post_link_change, config_keep_alive, arm_keep_alive,
}
use ena.Admin.{succeed}
use ena.Admin.Queues.{CreateCqCmd, CreateSqCmd, create_cq, create_sq}
use ena.Admin.SetFeature.{
  set_feature, set_feature_case, set_host_attr, set_aenq, set_key, set_hash_function, set_fields,
  set_hash_input, set_table, set_ind_table,
}
use ena.Admin.SetFeature.Effects.{ctrl_buf-Ends}
use ena.Admin.Process.{admin_exec}
use ena.Admin.Process.Errors.{
  get_stats-Executed, get_feature-Executed, destroy_cq-Executed, set_llq-Executed,
  destroy_sq-Executed, set_mtu-Executed, AcqKept, Executed, R, kept, refused,
}

admin_intr-AcqKept : (s : EnaState) → AcqKept s (admin_intr s)
unfolding admin_intr
admin_intr-AcqKept s = if_both (AcqKept s) _ (λ _. (refl, refl, refl)) (λ _. (refl, refl, refl))

module _ (host : Host) (s : EnaState) where
  aenq_post-AcqKept :
      (group syndrome : ℕ) (payload : List ℕ)
      → length payload ≤ 48
      → Total (AcqKept s) (aenq_post host s group syndrome payload)
  unfolding aenq_post aenq_advance
  aenq_post-AcqKept group syndrome payload small = check-Total (AcqKept s) _ _ (le-leb small) (
      if_both (Total (AcqKept s)) _ (λ _. (refl, refl, refl))
        (λ _.
          if_both (Total (AcqKept s)) _ (λ _. (refl, refl, refl))
            (λ _.
              if_both (Total (AcqKept s)) _ (λ _. (refl, refl, refl)) (λ _. admin_intr-AcqKept _))))

  config_keep_alive-AcqKept : (groups : ℕ) → AcqKept s (config_keep_alive host s groups)
  unfolding config_keep_alive arm_keep_alive
  config_keep_alive-AcqKept groups =
      if_both (AcqKept s) _ (λ _. (refl, refl, refl)) (λ _. (refl, refl, refl))

module _ (host : Host) (s : EnaState) where
  aenq_config-AcqKept : (groups : ℕ) → Total (AcqKept s) (aenq_config host s groups)
  unfolding aenq_config post_link_change
  aenq_config-AcqKept groups =
      Total-bind (AcqKept s) (AcqKept s) _ _
        (if_both (Total (AcqKept s)) _
          (λ _. aenq_post-AcqKept host (record s { aenq_groups = groups }) _ 0 _ (omega arith))
          (λ _. (refl, refl, refl)))
        (λ t k.
          let c = config_keep_alive-AcqKept host t groups in (c.0 ∙ k.0, c.1 ∙ k.1, c.2 ∙ k.2))

  create_cq-Executed : (c : CreateCqCmd) → R s (create_cq host s c)
  unfolding create_cq
  create_cq-Executed c =
      if_both (R s) _ (λ _. refused s _ (λ e. cc))
        (λ _.
          if_both (R s) _ (λ _. refused s _ (λ e. cc))
            (λ _.
              if_both (R s) _ (λ _. refused s _ (λ e. cc))
                (λ _. if_both (R s) _ (λ _. refused s _ (λ e. cc)) (λ _. (kept s, inl refl)))))

  create_sq-Executed : (c : CreateSqCmd) → R s (create_sq host s c)
  unfolding create_sq
  create_sq-Executed c =
      if_both (R s) _ (λ _. refused s _ (λ e. cc))
        (λ _.
          if_both (R s) _ (λ _. refused s _ (λ e. cc))
            (λ _.
              if_both (R s) _ (λ _. refused s _ (λ e. cc))
                (λ _.
                  if_both (R s) _ (λ _. refused s _ (λ e. cc))
                    (λ _.
                      if_both (R s) _ (λ _. tt)
                        (λ _.
                          if_both (R s) _ (λ _. refused s _ (λ e. cc))
                            (λ _.
                              if_both (R s) _ (λ _. refused s _ (λ e. cc))
                                (λ _. (kept s, inl refl))))))))

  set_host_attr-Executed : (info debug size : ℕ) → R s (set_host_attr host s info debug size)
  unfolding set_host_attr
  set_host_attr-Executed info debug size =
      if_both (R s) _ (λ _. (kept s, inr (λ e. cc, refl, refl)))
        (λ _.
          check-Ends (Executed s) _
            (succeed
              (record s { host_info_addr = info; debug_area_addr = debug; debug_area_size = size })
              [])
            (λ _. (kept s, inl refl)))

  set_aenq-Executed : (groups : ℕ) → R s (set_aenq host s groups)
  unfolding set_aenq
  set_aenq-Executed groups =
      if_both (R s) _ (λ _. refused s _ (λ e. cc))
        (λ _.
          Ends-bind (AcqKept s) (Executed s) _ _
            (Total-Ends (AcqKept s) _ (aenq_config-AcqKept groups)) (λ t k. (k, inl refl)))

  set_hash_function-Executed : (cmd : List ℕ) → R s (set_hash_function host s cmd)
  unfolding set_hash_function set_key
  set_hash_function-Executed cmd =
      if_both (R s) _ (λ _. refused s _ (λ e. cc))
        (λ _.
          Ends-bind (λ _. Unit {0}) (Executed s) _ _ (ctrl_buf-Ends cmd 48)
            (λ buf _.
              if_both (R s) _ (λ _. refused s _ (λ e. cc))
                (λ _. if_both (R s) _ (λ _. refused s _ (λ e. cc)) (λ _. (kept s, inl refl)))))

  set_hash_input-Executed : (cmd : List ℕ) → R s (set_hash_input host s cmd)
  unfolding set_hash_input set_fields
  set_hash_input-Executed cmd =
      Ends-bind (λ _. Unit {0}) (Executed s) _ _ (ctrl_buf-Ends cmd 256)
        (λ buf _.
          if_both (R s) _ (λ _. refused s _ (λ e. cc))
            (λ _. if_both (R s) _ (λ _. refused s _ (λ e. cc)) (λ _. (kept s, inl refl))))

  set_ind_table-Executed : (cmd : List ℕ) → R s (set_ind_table host s cmd)
  unfolding set_ind_table set_table
  set_ind_table-Executed cmd =
      if_both (R s) _ (λ _. refused s _ (λ e. cc))
        (λ _.
          if_both (R s) _ (λ _. tt)
            (λ _.
              Ends-bind (λ _. Unit {0}) (Executed s) _ _ (ctrl_buf-Ends cmd 512)
                (λ buf _.
                  if_both (R s) _ (λ _. refused s _ (λ e. cc))
                    (λ _. if_both (R s) _ (λ _. refused s _ (λ e. cc)) (λ _. (kept s, inl refl))))))

  set_feature-Executed : (cmd : List ℕ) → R s (set_feature host s cmd)
  unfolding set_feature set_feature_case
  set_feature-Executed cmd =
      if_both (R s) _ (λ _. tt)
        (λ _.
          if_both (R s) _ (λ _. set_host_attr-Executed _ _ _)
            (λ _.
              if_both (R s) _ (λ _. set_aenq-Executed _)
                (λ _.
                  if_both (R s) _ (λ _. set_mtu-Executed s _)
                    (λ _.
                      if_both (R s) _ (λ _. set_llq-Executed s _ _ _ _)
                        (λ _.
                          if_both (R s) _ (λ _. set_hash_function-Executed cmd)
                            (λ _.
                              if_both (R s) _ (λ _. set_hash_input-Executed cmd)
                                (λ _.
                                  if_both (R s) _ (λ _. set_ind_table-Executed cmd)
                                    (λ _. refused s _ (λ e. cc)))))))))

  -- A command stops the process, at an assertion or as not supported, or comes to a reply, and leaves
  -- the admin queue and its completion queue where they were. Where the status is not success, the
  -- response is empty and the device is as before, but for the addresses of the host attributes.
  pub admin_exec-Executed : (cmd : List ℕ) → R s (admin_exec host s cmd)
  unfolding admin_exec
  admin_exec-Executed cmd =
      if_both (R s) _ (λ _. create_sq-Executed _)
        (λ _.
          if_both (R s) _ (λ _. destroy_sq-Executed s _ _)
            (λ _.
              if_both (R s) _ (λ _. create_cq-Executed _)
                (λ _.
                  if_both (R s) _ (λ _. destroy_cq-Executed s _)
                    (λ _.
                      if_both (R s) _ (λ _. get_feature-Executed s cmd)
                        (λ _.
                          if_both (R s) _ (λ _. set_feature-Executed cmd)
                            (λ _.
                              if_both (R s) _ (λ _. get_stats-Executed s cmd)
                                (λ _. refused s _ (λ e. cc))))))))
