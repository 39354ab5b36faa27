-- ===== src/Admin/Groups.antt =====
-- The event groups that GET_FEATURE of hw/ena_admin.c tells as supported, against those that
-- SET_FEATURE accepts.
use ena.Base.{
  ℕ, ◌+◌, ◌<◌, ◌^◌, bit_and, List, Outcome, ok, ◌≡◌, refl, arith, le32, le32_at, if◌then◌else◌,
  if_both, Total, Total-bind,
}
use ena.Base.Masks.{mask_split}
use ena.Host.{Host}
use ena.Device.{EnaState}
use ena.Admin.{Reply, success, fail, illegal_parameter}
use ena.Admin.GetFeature.{get_feature_case, feat_aenq_config, supported_aenq_groups}
use ena.Admin.SetFeature.{set_aenq}
use ena.Aenq.Ring.{AenqOnly, aenq_config-AenqOnly}

-- The word at offset `o` of the answer, if there is one
abbrev pub told_word : Outcome Reply → (o : ℕ) → ℕ
told_word (ok r) o = le32 r.2 o
told_word _ o = 0

-- The groups that the answer to GET_FEATURE tells as supported
abbrev pub told_groups : EnaState → (cmd : List ℕ) → ℕ
told_groups s cmd = told_word (get_feature_case s cmd feat_aenq_config) 0

told_groups_eq : (s : EnaState) (cmd : List ℕ) → told_groups s cmd ≡ supported_aenq_groups
unfolding get_feature_case if◌then◌else◌
told_groups_eq s cmd = le32_at _ 0 supported_aenq_groups refl refl refl refl

-- The groups are among those of the mask, or one of them is not.
split_groups :
    (groups : ℕ)
    → groups < 2 ^ 32
    → bit_and groups supported_aenq_groups + bit_and groups 0xffffffee ≡ groups
split_groups groups h = mask_split 32 groups supported_aenq_groups h (omega arith)

-- SET_FEATURE accepts the groups that GET_FEATURE tells as supported, and turns down a word with
-- any other.
pub groups_accepted :
    (host : Host) (s : EnaState) (cmd : List ℕ) (groups : ℕ)
    → groups < 2 ^ 32
    → (bit_and groups (told_groups s cmd) ≡ groups
        → Total (λ r. r.1 ≡ success) (set_aenq host s groups))
      × (¬ (bit_and groups (told_groups s cmd) ≡ groups)
          → set_aenq host s groups ≡ fail s illegal_parameter)
unfolding set_aenq
groups_accepted host s cmd groups h = rw (told_groups_eq s cmd) (
  λ among.
      if_both (Total (λ (r : Reply). r.1 ≡ success)) _
        (λ e. absurd (ground (arith, e, among, split_groups groups h)))
        (λ _.
          Total-bind (AenqOnly s) (λ (r : Reply). r.1 ≡ success) _ _
            (aenq_config-AenqOnly host s groups) (λ t k. refl)),
  λ other.
      if_both (λ m. m ≡ fail s illegal_parameter) _ (λ _. refl)
        (λ e. absurd (other (ground (arith, e, split_groups groups h)))),
)
