-- ===== src/Isolation/Commands.antt =====
-- The reach of an admin command (`ena_admin_exec` of hw/ena_admin.c): no queue in use is changed,
-- other than to be destroyed, and no vector and no counter is touched.
use ena.Base.{
  ℕ, if◌then◌else◌, Bool, List, [], Outcome, refl, if_both, Ends, Ends-bind, check-Ends, ◌>>=◌,
}
use ena.Host.{Host}
use ena.Device.{EnaState, EnaRss}
use ena.Aenq.{aenq_config, post_link_change, config_keep_alive, arm_keep_alive}
use ena.Admin.{Reply, Status, fail, succeed, ctrl_buf}
use ena.Admin.SetFeature.{
  set_mtu, set_llq, set_host_attr, set_aenq, set_key, set_hash_function, set_fields, set_hash_input,
  set_table, set_ind_table, set_feature_case, set_feature,
}
use ena.Admin.SetFeature.Effects.{ctrl_buf-Ends}
use ena.Admin.Process.{admin_exec}
use ena.Isolation.Confined.{
  Undisturbed, Confined, ReplyConfined, stays, aenq_post-Undisturbed, Undisturbed-refl,
  Undisturbed-Confined, same, get_feature-Confined, get_stats-Confined, create_cq-Confined,
  create_sq-Confined, destroy_cq-Confined, destroy_sq-Confined,
}

module _ (s : EnaState) (host : Host) where
  aenq_config-Undisturbed : (groups : ℕ) → Ends (Undisturbed s) (aenq_config host s groups)
  unfolding aenq_config post_link_change config_keep_alive arm_keep_alive
  aenq_config-Undisturbed groups =
      Ends-bind (Undisturbed s0) (Undisturbed s) _ _
        (if_both (Ends (Undisturbed s0)) _ (λ _. aenq_post-Undisturbed host s0 _ 0 _)
          (λ _. Undisturbed-refl s0))
        (λ t d.
          if_both (Undisturbed s) _
            (λ _. stays s _ d.sq_same d.cq_same d.irq_same d.tx_same d.rx_same)
            (λ _. stays s _ d.sq_same d.cq_same d.irq_same d.tx_same d.rx_same))
    where
      s0 : EnaState
      s0 = record s { aenq_groups = groups }

  -- A new setting
  stored : (t : EnaState) → Undisturbed s t → Confined s t
  stored t d = Undisturbed-Confined s t d

  set_host_attr-Confined :
      (info debug size : ℕ) → ReplyConfined s (set_host_attr host s info debug size)
  unfolding set_host_attr
  set_host_attr-Confined info debug size =
      if_both (ReplyConfined s) _ (λ _. stored hosted quiet)
        (λ _.
          check-Ends (λ (r : Reply). Confined s r.0) _ (succeed hosted [])
            (λ _. stored hosted quiet))
    where
      hosted : EnaState
      hosted = record s { host_info_addr = info; debug_area_addr = debug; debug_area_size = size }

      quiet : Undisturbed s hosted
      quiet = stays s hosted refl refl refl (refl, refl, refl) (refl, refl, refl)

  -- A command that is turned down, or stores a setting
  set_or_fail :
      (b : Bool) (st : Status) (t : EnaState)
      → Undisturbed s t
      → ReplyConfined s (if b then fail s st else succeed t [])
  set_or_fail b st t d = if_both (ReplyConfined s) b (λ _. same s) (λ _. stored t d)

  with_buffer :
      (cmd : List ℕ) (need : ℕ) (f : ℕ → Outcome Reply)
      → ((buf : ℕ) → ReplyConfined s (f buf))
      → ReplyConfined s (ctrl_buf cmd need >>= f)
  with_buffer cmd need f h =
      Ends-bind (λ _. Unit {0}) (λ (r : Reply). Confined s r.0) _ f (ctrl_buf-Ends cmd need)
        (λ buf _. h buf)

  set_rss-Confined : (r : EnaRss) → Confined s (record s { rss = r })
  set_rss-Confined r =
      stored (record s { rss = r }) (stays s _ refl refl refl (refl, refl, refl) (refl, refl, refl))

  rss-Confined :
      (cmd : List ℕ)
      → ReplyConfined s (set_hash_function host s cmd)
        × ReplyConfined s (set_hash_input host s cmd)
        × ReplyConfined s (set_ind_table host s cmd)
  unfolding set_hash_function set_hash_input set_ind_table set_key set_fields set_table
  rss-Confined cmd = (
    if_both R _ (λ _. same s)
        (λ _. with_buffer cmd 48 _ (λ buf.
          if_both R _ (λ _. same s) (λ _. if_both R _ (λ _. same s) (λ _. set_rss-Confined _)))),
    with_buffer cmd 256 _ (λ buf.
        if_both R _ (λ _. same s) (λ _. if_both R _ (λ _. same s) (λ _. set_rss-Confined _))),
    if_both R _ (λ _. same s)
        (λ _.
          if_both R _ (λ _. tt)
            (λ _. with_buffer cmd 512 _ (λ buf.
              if_both R _ (λ _. same s)
                (λ _. if_both R _ (λ _. same s) (λ _. set_rss-Confined _))))),
  )
    where
      R : Outcome Reply → Type 0
      R = ReplyConfined s

  set_feature-Confined : (cmd : List ℕ) → ReplyConfined s (set_feature host s cmd)
  unfolding set_feature set_feature_case set_aenq set_mtu set_llq
  set_feature-Confined cmd =
      if_both R _ (λ _. tt)
        (λ _.
          if_both R _ (λ _. set_host_attr-Confined _ _ _)
            (λ _.
              if_both R _
                (λ _.
                  if_both R _ (λ _. same s)
                    (λ _.
                      Ends-bind (Undisturbed s) (λ (r : Reply). Confined s r.0) _ _
                        (aenq_config-Undisturbed _) stored))
                (λ _.
                  if_both R _
                    (λ _.
                      set_or_fail _ _ _
                        (stays s _ refl refl refl (refl, refl, refl) (refl, refl, refl)))
                    (λ _.
                      if_both R _
                        (λ _.
                          set_or_fail _ _ _
                            (stays s _ refl refl refl (refl, refl, refl) (refl, refl, refl)))
                        (λ _.
                          if_both R _ (λ _. (rss-Confined cmd).0)
                            (λ _.
                              if_both R _ (λ _. (rss-Confined cmd).1)
                                (λ _. if_both R _ (λ _. (rss-Confined cmd).2) (λ _. same s))))))))
    where
      R : Outcome Reply → Type 0
      R = ReplyConfined s

  -- An admin command, whatever it is, ends at an assertion, at an access that is not supported, or
  -- with a reply, and then every queue in use is as it was, or was destroyed by the command and is
  -- but marked as unused, and no vector and no counter has changed.
  pub admin_exec-Confined : (cmd : List ℕ) → Ends (λ r. Confined s r.0) (admin_exec host s cmd)
  unfolding admin_exec
  admin_exec-Confined cmd =
      if_both R _ (λ _. create_sq-Confined s host _)
        (λ _.
          if_both R _ (λ _. destroy_sq-Confined s _ _)
            (λ _.
              if_both R _ (λ _. create_cq-Confined s host _)
                (λ _.
                  if_both R _ (λ _. destroy_cq-Confined s _)
                    (λ _.
                      if_both R _ (λ _. get_feature-Confined s cmd)
                        (λ _.
                          if_both R _ (λ _. set_feature-Confined cmd)
                            (λ _. if_both R _ (λ _. get_stats-Confined s cmd) (λ _. same s)))))))
    where
      R : Outcome Reply → Type 0
      R = ReplyConfined s
