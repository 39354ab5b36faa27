-- ===== src/Admin/Settings.antt =====
-- The settings of hw/ena_admin.c that fit in a command: what SET_FEATURE accepts, GET_FEATURE tells.
use ena.Base.{
  ℕ, ◌≤◌, true, false, not, ◌&&◌, List, ◌++◌, ok, ◌≡◌, ◌⊎◌, inl, inr, refl, ◌∙◌, arith, length,
  ◌==◌, ==_iff, if◌then◌else◌, if_both, Ends, Ends-bind, Total, Total-Ends, Total-bind, check-Total,
  le-leb, Ends_of_ok, le16, le32, le32-lt, le16_at, le32_at, bytes32,
}
use ena.Host.{Host}
use ena.Device.{EnaState, llq_large_entry_size, llq_entry_size_128}
use ena.Irq.{admin_intr}
use ena.Aenq.{
  aenq_post, aenq_advance, aenq_config, post_link_change, config_keep_alive, arm_keep_alive,
}
use ena.Admin.{feature_version, Reply, success}
use ena.Admin.GetFeature.{
  get_feature_case, llq_resp, supported_aenq_groups, feat_mtu, feat_llq, feat_aenq_config,
}
use ena.Admin.SetFeature.{set_feature_case, set_mtu, set_llq, set_aenq}

pub data Setting : Type 0 where
  mtu llq aenq_groups : Setting

abbrev pub feature_of : Setting → ℕ
feature_of mtu = feat_mtu
feature_of llq = feat_llq
feature_of aenq_groups = feat_aenq_config

-- The response `q` tells the values of the SET command `cmd`: for the LLQ the location of the header,
-- the size of an entry, the number of descriptors before the header and their stride.
abbrev pub Agrees : Setting → (cmd q : List ℕ) → Type 0
Agrees mtu cmd q = le32 q 0 ≡ le32 cmd 20
Agrees llq cmd q =
    (le16 q 10 ≡ le16 cmd 30)
    × (le16 q 14 ≡ le16 cmd 34)
    × (le16 q 18 ≡ le16 cmd 38)
    × (le16 q 22 ≡ le16 cmd 42)
Agrees aenq_groups cmd q = le32 q 4 ≡ le32 cmd 24

-- The state after a SET that succeeds holds the values of the command.
abbrev Holds : Setting → (cmd : List ℕ) → EnaState → Type 0
Holds mtu cmd t = t.mtu ≡ le32 cmd 20
Holds llq cmd t =
    (t.llq_enabled ≡ true)
    × (le16 cmd 30 ≡ 1)
    × (((le16 cmd 34 ≡ 4) × (t.llq_entry_size ≡ 256))
        ⊎ ((le16 cmd 34 ≡ 1) × (t.llq_entry_size ≡ 128)))
    × (le16 cmd 38 ≡ 2)
    × (le16 cmd 42 ≡ 2)
Holds aenq_groups cmd t = t.aenq_groups ≡ le32 cmd 24

abbrev Succeeds : (EnaState → Type 0) → Reply → Type 0
Succeeds P r = r.1 ≡ success → P r.0

module _ (host : Host) (s : EnaState) where
  abbrev SameGroups : EnaState → Type 0
  SameGroups t = t.aenq_groups ≡ s.aenq_groups

  admin_intr-groups : SameGroups (admin_intr s)
  unfolding admin_intr
  admin_intr-groups = if_both SameGroups _ (λ _. refl) (λ _. refl)

  aenq_post-groups :
      (group syndrome : ℕ) (payload : List ℕ)
      → length payload ≤ 48
      → Total SameGroups (aenq_post host s group syndrome payload)
  unfolding aenq_post aenq_advance admin_intr
  aenq_post-groups group syndrome payload small = check-Total SameGroups _ _ (le-leb small) (
      if_both (Total SameGroups) _ (λ _. refl)
        (λ _.
          if_both (Total SameGroups) _ (λ _. refl)
            (λ _.
              if_both (Total SameGroups) _ (λ _. refl)
                (λ _. if_both SameGroups _ (λ _. refl) (λ _. refl)))))

  config_keep_alive-groups : (groups : ℕ) → SameGroups (config_keep_alive host s groups)
  unfolding config_keep_alive arm_keep_alive
  config_keep_alive-groups groups = if_both SameGroups _ (λ _. refl) (λ _. refl)

module _ (host : Host) (s : EnaState) (cmd : List ℕ) where
  aenq_config-groups :
      (groups : ℕ) → Total (λ t. t.aenq_groups ≡ groups) (aenq_config host s groups)
  unfolding aenq_config post_link_change
  aenq_config-groups groups =
      Total-bind (λ t. t.aenq_groups ≡ groups) (λ t. t.aenq_groups ≡ groups) _ _
        (if_both (Total (λ t. t.aenq_groups ≡ groups)) _
          (λ _. aenq_post-groups host (record s { aenq_groups = groups }) _ 0 _ (omega arith))
          (λ _. refl))
        (λ t e. config_keep_alive-groups host t groups ∙ e)

  set_mtu-Holds : Ends (Succeeds (Holds mtu cmd)) (set_mtu s (le32 cmd 20))
  unfolding set_mtu
  set_mtu-Holds = if_both (Ends (Succeeds (Holds mtu cmd))) _ (λ _ e. cc) (λ _ _. refl)

  set_llq-Holds :
      Ends
        (Succeeds (Holds llq cmd))
        (set_llq s (le16 cmd 30) (le16 cmd 34) (le16 cmd 38) (le16 cmd 42))
  unfolding set_llq
  set_llq-Holds =
      if_both (Ends (Succeeds (Holds llq cmd))) _ (λ _ e. cc)
        (λ e _. (
          refl,
          ground (arith, e),
          entry (ground (arith, e)),
          ground (arith, e),
          ground (arith, e),
        ))
    where
      size : ℕ
      size = if le16 cmd 34 == 4 then llq_large_entry_size else llq_entry_size_128

      entry :
          (not (le16 cmd 34 == 1) && not (le16 cmd 34 == 4)) ≡ false
          → ((le16 cmd 34 ≡ 4) × (size ≡ 256)) ⊎ ((le16 cmd 34 ≡ 1) × (size ≡ 128))
      entry e =
          if_both (λ n. ((le16 cmd 34 ≡ 4) × (n ≡ 256)) ⊎ ((le16 cmd 34 ≡ 1) × (n ≡ 128)))
            (le16 cmd 34 == 4) (λ f. inl ((==_iff _ _).0 f, refl))
            (λ f. inr (ground (arith, e, f), refl))

  set_aenq-Holds : Ends (Succeeds (Holds aenq_groups cmd)) (set_aenq host s (le32 cmd 24))
  unfolding set_aenq
  set_aenq-Holds =
      if_both (Ends (Succeeds (Holds aenq_groups cmd))) _ (λ _ e. cc)
        (λ _.
          Ends-bind (λ t. t.aenq_groups ≡ le32 cmd 24) (Succeeds (Holds aenq_groups cmd)) _ _
            (Total-Ends (λ t. t.aenq_groups ≡ le32 cmd 24) _ (aenq_config-groups (le32 cmd 24)))
            (λ t e _. e))

  set_feature_case-Holds :
      (x : Setting) → Ends (Succeeds (Holds x cmd)) (set_feature_case host s cmd (feature_of x))
  unfolding set_feature_case if◌then◌else◌
  set_feature_case-Holds mtu = set_mtu-Holds
  set_feature_case-Holds llq = set_llq-Holds
  set_feature_case-Holds aenq_groups = set_aenq-Holds

-- The response to a GET of a setting
abbrev response : Setting → (cmd : List ℕ) → EnaState → List ℕ
response mtu cmd t = bytes32 t.mtu
response llq cmd t = llq_resp t (feature_version cmd)
response aenq_groups cmd t = bytes32 supported_aenq_groups ++ bytes32 t.aenq_groups

get_feature_case-response :
    (x : Setting) (t : EnaState) (cmd : List ℕ)
    → get_feature_case t cmd (feature_of x) ≡ ok (t, success, response x cmd t)
unfolding get_feature_case if◌then◌else◌
get_feature_case-response mtu t cmd = refl
get_feature_case-response llq t cmd = refl
get_feature_case-response aenq_groups t cmd = refl

llq_resp-Agrees :
    (t : EnaState) (cmd cmd' : List ℕ)
    → Holds llq cmd t
    → Agrees llq cmd (llq_resp t (feature_version cmd'))
unfolding llq_resp if◌then◌else◌
llq_resp-Agrees t cmd cmd' (on, location, inl (entry, size), descs, stride) =
    rw (on, size, location, entry, descs, stride)
      (
        le16_at _ 10 1 refl refl,
        le16_at _ 14 4 refl refl,
        le16_at _ 18 2 refl refl,
        le16_at _ 22 2 refl refl,
      )
llq_resp-Agrees t cmd cmd' (on, location, inr (entry, size), descs, stride) =
    rw (on, size, location, entry, descs, stride)
      (
        le16_at _ 10 1 refl refl,
        le16_at _ 14 1 refl refl,
        le16_at _ 18 2 refl refl,
        le16_at _ 22 2 refl refl,
      )

response-Agrees :
    (x : Setting) (t : EnaState) (cmd cmd' : List ℕ)
    → Holds x cmd t
    → Agrees x cmd (response x cmd' t)
response-Agrees mtu t cmd cmd' e =
    omega (arith, le32_at (bytes32 t.mtu) 0 t.mtu refl refl refl refl, e, le32-lt cmd 20)
response-Agrees llq t cmd cmd' h = llq_resp-Agrees t cmd cmd' h
response-Agrees aenq_groups t cmd cmd' e = omega (
  arith,
  le32_at (bytes32 supported_aenq_groups ++ bytes32 t.aenq_groups) 4 t.aenq_groups refl refl refl
      refl,
  e,
  le32-lt cmd 24,
)

-- After a SET of the MTU, of the LLQ or of the AENQ groups that succeeds, a GET of the same feature
-- changes nothing, succeeds and tells the values of the SET command.
pub get_feature-set_feature :
    (x : Setting) (host : Host) (s t : EnaState) (cmd cmd' p : List ℕ)
    → set_feature_case host s cmd (feature_of x) ≡ ok (t, success, p)
    → (q : List ℕ) × (get_feature_case t cmd' (feature_of x) ≡ ok (t, success, q)) × Agrees x cmd q
get_feature-set_feature x host s t cmd cmd' p e = (
  response x cmd' t,
  get_feature_case-response x t cmd',
  response-Agrees x t cmd cmd' (
      Ends_of_ok (Succeeds (Holds x cmd)) _ (t, success, p) (set_feature_case-Holds host s cmd x) e
        refl),
)
