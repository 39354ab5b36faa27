-- ===== src/Admin/SetFeature/Effects.antt =====
-- `ena_get_feature`, `ena_get_stats` and `ena_set_feature` of hw/ena_admin.c, over well-formed
-- devices, and the check of a new indirection table.
use ena.Base.{
  ℕ, [], List, Outcome, ◌≡◌, ◌⊎◌, inl, inr, refl, arith, ◌==◌, if_both, Total-Ends, Ends, Ends-bind,
  check-Ends,
}
use ena.Host.{Host}
use ena.Device.{EnaState}
use ena.Base.{not-false, ltb, ◌<◌}
use ena.Base.Bits.{bit_and-le}
use ena.Admin.Search.{all_below-true}
use ena.Rss.{rss_proto_num}
use ena.Invariant.{IsSelected, core, IsValid}
use ena.Admin.{Reply, ctrl_buf, succeed}
use ena.Admin.Queues.Effects.{Replied}
use ena.Invariant.{admin_queue}
use ena.Admin.GetFeature.Cases.{get_feature_case_lem}
use ena.Admin.GetFeature.{reply_with_data, get_feature, get_stats}
use ena.Admin.SetFeature.{
  set_mtu, set_llq, set_host_attr, set_aenq, set_key, set_hash_function, set_fields, set_hash_input,
  set_table, selected_fields, set_ind_table, set_feature_case, set_feature,
}
use ena.Aenq.Ring.{AenqOnly, aenq_config-AenqOnly}

pub ctrl_buf-Ends : (cmd : List ℕ) (need : ℕ) → Ends (λ _. Unit {0}) (ctrl_buf cmd need)
unfolding ctrl_buf
ctrl_buf-Ends cmd need =
    if_both (Ends (λ _. Unit {0})) _ (λ _. tt)
      (λ _. if_both (Ends (λ _. Unit {0})) _ (λ _. tt) (λ _. tt))

reply_with_data-Replied :
    (s : EnaState) (payload ctrl_data : List ℕ) (found : Outcome ℕ)
    → IsValid s
    → Ends (λ _. Unit {0}) found
    → Ends (Replied s) (reply_with_data s payload ctrl_data found)
unfolding reply_with_data core
reply_with_data-Replied s payload ctrl_data found v f =
    Ends-bind (λ _. Unit {0}) (Replied s) found _ f
      (λ buf _.
        if_both (λ t. IsValid t × (admin_queue t ≡ admin_queue s)) (buf == 0) (λ _. (v, refl))
          (λ _. (v, refl)))

pub get_feature-Replied :
    (s : EnaState) (cmd : List ℕ) → IsValid s → Ends (Replied s) (get_feature s cmd)
unfolding get_feature
get_feature-Replied s cmd v =
    if_both (Ends (Replied s)) _ (λ _. tt)
      (λ _.
        get_feature_case_lem (Ends (Replied s)) s cmd _ (λ _. (v, refl)) (v, refl) (λ _. (v, refl))
          (λ payload bytes need.
            reply_with_data-Replied s payload bytes _ v (ctrl_buf-Ends cmd need)))

pub get_stats-Replied :
    (s : EnaState) (cmd : List ℕ) → IsValid s → Ends (Replied s) (get_stats s cmd)
unfolding get_stats
get_stats-Replied s cmd v =
    if_both (Ends (Replied s)) _ (λ _. (v, refl))
      (λ _. if_both (Ends (Replied s)) _ (λ _. (v, refl)) (λ _. (v, refl)))

set_mtu-Replied : (s : EnaState) (mtu : ℕ) → IsValid s → Ends (Replied s) (set_mtu s mtu)
unfolding set_mtu core
set_mtu-Replied s mtu v =
    if_both (Ends (Replied s)) _ (λ _. (v, refl))
      (λ e. (
        record {
          mtu_low = ground (arith, e);
          mtu_high = ground (arith, e);
          aq_head_in = v.aq_head_in;
          llq_size = v.llq_size;
          cqs = v.cqs;
          sqs = v.sqs;
          sq_in = v.sq_in;
          vectors = v.vectors;
          version_eq = v.version_eq;
          controller_version_eq = v.controller_version_eq;
          caps_eq = v.caps_eq;
          acq = v.acq;
          selected = v.selected;
          aenq = v.aenq;
        },
        refl,
      ))

set_llq-Replied :
    (s : EnaState) (location entry descs stride : ℕ)
    → IsValid s
    → Ends (Replied s) (set_llq s location entry descs stride)
unfolding set_llq core
set_llq-Replied s location entry descs stride v =
    if_both (Ends (Replied s)) _ (λ _. (v, refl))
      (λ _. (
        record {
          mtu_low = v.mtu_low;
          mtu_high = v.mtu_high;
          aq_head_in = v.aq_head_in;
          llq_size = λ _.
              if_both (λ n. (n ≡ 128) ⊎ (n ≡ 256)) (entry == 4) (λ _. inr refl) (λ _. inl refl);
          cqs = v.cqs;
          sqs = v.sqs;
          sq_in = v.sq_in;
          vectors = v.vectors;
          version_eq = v.version_eq;
          controller_version_eq = v.controller_version_eq;
          caps_eq = v.caps_eq;
          acq = v.acq;
          selected = v.selected;
          aenq = v.aenq;
        },
        refl,
      ))

module _ (host : Host) (s : EnaState) (v : IsValid s) where
  abbrev R : Outcome Reply → Type 0
  R m = Ends (Replied s) m

  set_host_attr-Replied : (a d n : ℕ) → R (set_host_attr host s a d n)
  unfolding set_host_attr core
  set_host_attr-Replied a d n =
      if_both R _ (λ _. (v, refl))
        (λ _.
          check-Ends (Replied s) _
            (succeed (record s { host_info_addr = a; debug_area_addr = d; debug_area_size = n }) [])
            (λ _. (v, refl)))

  set_aenq-Replied : (groups : ℕ) → R (set_aenq host s groups)
  unfolding set_aenq core
  set_aenq-Replied groups =
      if_both R _ (λ _. (v, refl))
        (λ _.
          Ends-bind (AenqOnly s) (Replied s) _ _
            (Total-Ends (AenqOnly s) _ (aenq_config-AenqOnly host s groups)) (λ t k. (k.0 v, k.1)))

  set_hash_function-Replied : (cmd : List ℕ) → R (set_hash_function host s cmd)
  unfolding set_hash_function set_key core
  set_hash_function-Replied cmd =
      if_both R _ (λ _. (v, refl))
        (λ _.
          Ends-bind (λ _. Unit {0}) (Replied s) _ _ (ctrl_buf-Ends cmd 48)
            (λ buf _.
              if_both R _ (λ _. (v, refl)) (λ _. if_both R _ (λ _. (v, refl)) (λ _. (v, refl)))))

  -- The device with other fields, which it supports
  selected-IsValid :
      (fields : ℕ → ℕ)
      → ((i : ℕ) → i < rss_proto_num → IsSelected i (fields i))
      → IsValid (record s { rss = record (s.rss) { fields = fields } })
  unfolding core
  selected-IsValid fields new = record {
    mtu_low = v.mtu_low;
    mtu_high = v.mtu_high;
    aq_head_in = v.aq_head_in;
    llq_size = v.llq_size;
    cqs = v.cqs;
    sqs = v.sqs;
    sq_in = v.sq_in;
    vectors = v.vectors;
    version_eq = v.version_eq;
    controller_version_eq = v.controller_version_eq;
    caps_eq = v.caps_eq;
    acq = v.acq;
    selected = new;
    aenq = v.aenq;
  }

  set_hash_input-Replied : (cmd : List ℕ) → R (set_hash_input host s cmd)
  unfolding set_hash_input set_fields selected_fields
  set_hash_input-Replied cmd =
      Ends-bind (λ _. Unit {0}) (Replied s) _ _ (ctrl_buf-Ends cmd 256)
        (λ buf _.
          if_both R _ (λ _. (v, refl))
            (λ _.
              if_both R _ (λ _. (v, refl))
                (λ e. (
                  selected-IsValid _ (λ i lt.
                      if_both (IsSelected i) (ltb i rss_proto_num)
                        (λ _. (all_below-true rss_proto_num _ (not-false e) i lt, bit_and-le _ _))
                        (λ f. absurd (ground (arith, f, lt)))),
                  refl,
                ))))

  set_ind_table-Replied : (cmd : List ℕ) → R (set_ind_table host s cmd)
  unfolding set_ind_table set_table core
  set_ind_table-Replied cmd =
      if_both R _ (λ _. (v, refl))
        (λ _.
          if_both R _ (λ _. tt)
            (λ _.
              Ends-bind (λ _. Unit {0}) (Replied s) _ _ (ctrl_buf-Ends cmd 512)
                (λ buf _.
                  if_both R _ (λ _. (v, refl))
                    (λ _. if_both R _ (λ _. (v, refl)) (λ _. (v, refl))))))

  pub set_feature-Replied : (cmd : List ℕ) → R (set_feature host s cmd)
  unfolding set_feature set_feature_case
  set_feature-Replied cmd =
      if_both R _ (λ _. tt)
        (λ _.
          if_both R _ (λ _. set_host_attr-Replied _ _ _)
            (λ _.
              if_both R _ (λ _. set_aenq-Replied _)
                (λ _.
                  if_both R _ (λ _. set_mtu-Replied s _ v)
                    (λ _.
                      if_both R _ (λ _. set_llq-Replied s _ _ _ _ v)
                        (λ _.
                          if_both R _ (λ _. set_hash_function-Replied cmd)
                            (λ _.
                              if_both R _ (λ _. set_hash_input-Replied cmd)
                                (λ _.
                                  if_both R _ (λ _. set_ind_table-Replied cmd)
                                    (λ _. (v, refl)))))))))
