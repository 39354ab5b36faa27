-- ===== src/Admin/Announced.antt =====
-- The features that `ena_get_feature` of hw/ena_admin.c announces, against those that the two
-- switches of GET_FEATURE and SET_FEATURE know.
use ena.Base.{
  le32_at, ◌^◌, ◌<◌, Bool, true, false, ◌&&◌, ◌||◌, List, Outcome, ◌≡◌, ◌≢◌, refl, arith, ◌==◌, has,
  if_both, Ends, Ends-bind, ◌⊎◌, inl, inr, Bool-cases, check-Ends, subst, sym, not, ℕ,
  if◌then◌else◌,
}
use ena.Host.{Host}
use ena.Device.{EnaState}
use ena.Admin.{[], succeed, le32, mem_addr, Reply, fail, unsupported_opcode}
use ena.Admin.GetFeature.{
  get_feature_case, reply_with_data, dev_attr_resp, supported_features, feat_llq,
  feat_rss_hash_function, feat_rss_indirection_table_config, feat_mtu, feat_rss_hash_input,
  feat_aenq_config, feat_host_attr_config,
}
use ena.Admin.GetFeature.Cases.{has_get, get_feature_case_lem}
use ena.Admin.SetFeature.{set_feature_case, set_host_attr}
use ena.Admin.SetFeature.Effects.{ctrl_buf-Ends}
use ena.Admin.Search.{all_below-true}
use ena.Admin.{all_below}

-- The features that SET_FEATURE has a case for
abbrev has_set : ℕ → Bool
has_set id =
    id == feat_host_attr_config
    || id == feat_aenq_config
    || id == feat_mtu
    || id == feat_llq
    || id == feat_rss_hash_function
    || id == feat_rss_hash_input
    || id == feat_rss_indirection_table_config

-- The bit of a feature
abbrev announced : ℕ → Bool
announced id = has supported_features (2 ^ id)

abbrev same : Bool → Bool → Bool
same a b = a && b || not a && not b

same_eq : (a b : Bool) → same a b ≡ true → a ≡ b
same_eq true true h = refl
same_eq true false h = sym h
same_eq false true h = h
same_eq false false h = refl

abbrev agrees : ℕ → Bool
agrees id = same (announced id) (has_get id || has_set id)

every_agrees : (id : ℕ) → id < 32 → agrees id ≡ true
unfolding all_below
every_agrees = all_below-true 32 agrees refl

announced_eq : (id : ℕ) → id < 32 → announced id ≡ (has_get id || has_set id)
announced_eq id lt = same_eq (announced id) (has_get id || has_set id) (every_agrees id lt)

dev_attr_resp-features : (s : EnaState) → le32 (dev_attr_resp s) 8 ≡ supported_features
unfolding dev_attr_resp
dev_attr_resp-features s = le32_at _ 8 supported_features refl refl refl refl

-- The command is not turned down as one that the device does not know.
abbrev pub Known : Outcome Reply → Type 0
Known = Ends (λ r. r.1 ≢ unsupported_opcode)

reply_with_data-Known :
    (s : EnaState) (payload ctrl_data : List ℕ) (found : Outcome ℕ)
    → Ends (λ _. Unit {0}) found
    → Known (reply_with_data s payload ctrl_data found)
unfolding reply_with_data
reply_with_data-Known s payload ctrl_data found any =
    Ends-bind (λ _. Unit {0}) (λ r. r.1 ≢ unsupported_opcode) found _ any (λ buf _ e. cc)

module _ (host : Host) (s : EnaState) (cmd : List ℕ) (id : ℕ) where
  get_feature_case-Known : has_get id ≡ true → Known (get_feature_case s cmd id)
  get_feature_case-Known h =
      get_feature_case_lem Known s cmd id (λ _ e. cc) (λ e. cc) (λ e. absurd (ground (arith, h, e)))
        (λ payload bytes need. reply_with_data-Known s payload bytes _ (ctrl_buf-Ends cmd need))

  get_feature_case-fail : has_get id ≡ false → get_feature_case s cmd id ≡ fail s unsupported_opcode
  unfolding get_feature_case if◌then◌else◌
  get_feature_case-fail h = ground (arith, h)

  set_feature_case-fail :
      has_set id ≡ false → set_feature_case host s cmd id ≡ fail s unsupported_opcode
  unfolding set_feature_case if◌then◌else◌
  set_feature_case-fail h = ground (arith, h)

  set_host_attr-Known : (info debug size : ℕ) → Known (set_host_attr host s info debug size)
  unfolding set_host_attr
  set_host_attr-Known info debug size =
      if_both Known _ (λ _ e. cc)
        (λ _.
          check-Ends (λ (r : Reply). r.1 ≢ unsupported_opcode) _ (succeed hosted []) (λ _ e. cc))
    where
      hosted : EnaState
      hosted = record s { host_info_addr = info; debug_area_addr = debug; debug_area_size = size }

  host_attr-Known : Known (set_feature_case host s cmd feat_host_attr_config)
  unfolding set_feature_case if◌then◌else◌
  host_attr-Known = set_host_attr-Known (mem_addr cmd 20) (mem_addr cmd 28) (le32 cmd 36)

  announced-Known :
      announced id ≡ true
      → id < 32
      → Known (get_feature_case s cmd id) ⊎ Known (set_feature_case host s cmd id)
  announced-Known on lt = elim (Bool-cases (has_get id)) [
    | inl e ↦ inl (get_feature_case-Known e)
    | inr e ↦
        inr
          (subst (λ i. Known (set_feature_case host s cmd i)) (sym (only_set on e)) host_attr-Known)
  ]
    where
      only_set : announced id ≡ true → has_get id ≡ false → id ≡ feat_host_attr_config
      only_set on e = ground (arith, announced_eq id lt, on, e)

  -- The word of the supported features in the answer to GET_FEATURE has the bit of a feature
  -- exactly if GET_FEATURE or SET_FEATURE has a case for it: one of them then does not answer that
  -- the command is not known, and otherwise both do, without effect.
  pub announced_lem :
      id < 32
      → (has (le32 (dev_attr_resp s) 8) (2 ^ id) ≡ true
          → Known (get_feature_case s cmd id) ⊎ Known (set_feature_case host s cmd id))
        × (has (le32 (dev_attr_resp s) 8) (2 ^ id) ≡ false
            → (get_feature_case s cmd id ≡ fail s unsupported_opcode)
              × (set_feature_case host s cmd id ≡ fail s unsupported_opcode))
  announced_lem lt = rw (dev_attr_resp-features s) (
    λ on. announced-Known on lt,
    λ off. (
      get_feature_case-fail (ground (arith, announced_eq id lt, off)),
      set_feature_case-fail (ground (arith, announced_eq id lt, off)),
    ),
  )
