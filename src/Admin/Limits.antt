-- ===== src/Admin/Limits.antt =====
-- The limits that `ena_get_feature` of hw/ena_admin.c tells, against what the commands accept.
use ena.Base.{
  ◌^◌, bit_and, ℕ, ◌+◌, ◌*◌, ◌≤◌, ◌<◌, Bool, true, false, List, not, ◌&&◌, ◌||◌, ◌==◌, Outcome,
  Total, ◌↔◌, if_both, ◌≡◌, ◌⊎◌, inl, inr, refl, sym, subst, ◌∙◌, arith, length, length-append,
  take, has, le16, le32, le32_at, le16_at, le32-append_right, bytes32, ◌++◌, [], ◌∷◌,
}
use ena.Host.{Host}
use ena.Device.{EnaState, max_mtu, min_mtu, llq_queue_bytes, dma_addr_width}
use ena.Admin.{Reply, success, fail, illegal_parameter, valid_depth}
use ena.Admin.GetFeature.{dev_attr_resp, max_queue_resp, llq_resp, supported_features}
use ena.Admin.SetFeature.{set_mtu, set_llq, set_aenq}
use ena.Admin.Groups.{told_groups, groups_accepted}

-- The largest MTU that the device attributes tell
abbrev pub told_mtu : EnaState → ℕ
told_mtu s = le32 (dev_attr_resp s) 32

told_mtu_eq : (s : EnaState) → length (take 6 s.macaddr) ≡ 6 → told_mtu s ≡ max_mtu
unfolding dev_attr_resp
told_mtu_eq s h =
    subst (λ n. le32 (front ++ bytes32 max_mtu) n ≡ max_mtu) front_length
      (le32-append_right front (bytes32 max_mtu) 0
        ∙ le32_at (bytes32 max_mtu) 0 max_mtu refl refl refl refl)
  where
    words : List ℕ
    words =
        bytes32 1
        ++ bytes32 0
        ++ bytes32 supported_features
        ++ bytes32 0
        ++ bytes32 dma_addr_width
        ++ bytes32 dma_addr_width

    front : List ℕ
    front = words ++ take 6 s.macaddr ++ (0 ∷ 0 ∷ [])

    front_length : length front + 0 ≡ 32
    front_length = omega (
      arith,
      length-append (words ++ take 6 s.macaddr) (0 ∷ 0 ∷ []),
      length-append words (take 6 s.macaddr),
      h,
    )

-- The command succeeds.
abbrev pub Accepts : Outcome Reply → Type 0
Accepts = Total (λ r. r.1 ≡ success)

-- A value that is one of the bits of a mask of three
abbrev pub Picks : (mask v : ℕ) → Type 0
Picks mask v = (has mask v ≡ true) × ((v ≡ 1) ⊎ ((v ≡ 2) ⊎ (v ≡ 4)))

Picks-location : (v : ℕ) → Picks 1 v → v ≡ 1
Picks-location v h = ground (arith, h)

Picks-stride : (v : ℕ) → Picks 2 v → v ≡ 2
Picks-stride v h = ground (arith, h)

Picks-entry : (v : ℕ) → Picks 5 v → (v ≡ 1) ⊎ (v ≡ 4)
Picks-entry v h = ground (arith, h)

-- The depths that the queue attributes tell
abbrev pub told_sq_depth : ℕ
told_sq_depth = le32 max_queue_resp 4

abbrev pub told_cq_depth : ℕ
told_cq_depth = le32 max_queue_resp 12

told_depths : (told_sq_depth ≡ 1024) × (told_cq_depth ≡ 1024)
unfolding max_queue_resp
told_depths = (le32_at _ 4 1024 refl refl refl refl, le32_at _ 12 1024 refl refl refl refl)

depth_accepted :
    (host : Host) (d told : ℕ)
    → told ≡ 1024
    → ((host.is_power_of_2 d ≡ true) × (16 ≤ d) × (d ≤ told)) ↔ (valid_depth host d ≡ true)
unfolding valid_depth
depth_accepted host d told e =
    (λ h. ground (arith, e, h), λ h. (ground (arith, h), ground (arith, h), ground (arith, e, h)))

apart : {b : Bool} → b ≡ true → b ≡ false → ⊥
apart p q = cc

accepted_options :
    (location entry descs stride : ℕ)
    → (Picks 1 location × Picks 5 entry × Picks 2 descs × Picks 2 stride)
    → (not (location == 1)
        || (not (entry == 1) && not (entry == 4))
        || not (descs == 2)
        || not (stride == 2))
      ≡ false
accepted_options location entry descs stride h = ground (
  arith,
  Picks-location location h.0,
  Picks-entry entry h.1,
  Picks-stride descs h.2,
  Picks-stride stride h.3,
)

offered_options :
    (location entry descs stride : ℕ)
    → (not (location == 1)
        || (not (entry == 1) && not (entry == 4))
        || not (descs == 2)
        || not (stride == 2))
      ≡ false
    → Picks 1 location × Picks 5 entry × Picks 2 descs × Picks 2 stride
offered_options location entry descs stride e = (
  subst (Picks 1) (sym (let l : location ≡ 1 = ground (arith, e) in l)) (refl, inl refl),
  elim (let c : (entry ≡ 1) ⊎ (entry ≡ 4) = ground (arith, e) in c) [
    | inl l ↦ subst (Picks 5) (sym l) (refl, inl refl)
    | inr l ↦ subst (Picks 5) (sym l) (refl, inr (inr refl))
  ],
  subst (Picks 2) (sym (let l : descs ≡ 2 = ground (arith, e) in l)) (refl, inr (inl refl)),
  subst (Picks 2) (sym (let l : stride ≡ 2 = ground (arith, e) in l)) (refl, inr (inl refl)),
)

-- The options of the LLQ that GET_FEATURE tells as supported, and a SET_FEATURE that picks one of
-- each
abbrev pub PicksLlq : EnaState → (version location entry descs stride : ℕ) → Type 0
PicksLlq s version location entry descs stride =
    Picks (le16 (llq_resp s version) 8) location
    × Picks (le16 (llq_resp s version) 12) entry
    × Picks (le16 (llq_resp s version) 16) descs
    × Picks (le16 (llq_resp s version) 20) stride

llq_resp-offers :
    (s : EnaState) (version : ℕ)
    → (le16 (llq_resp s version) 8 ≡ 1)
      × (le16 (llq_resp s version) 12 ≡ 5)
      × (le16 (llq_resp s version) 16 ≡ 2)
      × (le16 (llq_resp s version) 20 ≡ 2)
unfolding llq_resp
llq_resp-offers s version = (
  le16_at _ 8 1 refl refl,
  le16_at _ 12 5 refl refl,
  le16_at _ 16 2 refl refl,
  le16_at _ 20 2 refl refl,
)

llq_accepted :
    (s : EnaState) (version location entry descs stride : ℕ)
    → (PicksLlq s version location entry descs stride
        → Accepts (set_llq s location entry descs stride))
      × (¬ PicksLlq s version location entry descs stride
          → set_llq s location entry descs stride ≡ fail s illegal_parameter)
unfolding set_llq
llq_accepted s version location entry descs stride =
    rw (offers.0, offers.1, offers.2, offers.3)
      (
        λ h.
            if_both Accepts _
              (λ e. absurd (apart e (accepted_options location entry descs stride h))) (λ _. refl),
        λ no.
            if_both (λ m. m ≡ fail s illegal_parameter) _ (λ _. refl)
              (λ e. absurd (no (offered_options location entry descs stride e))),
      )
  where
    offers :
        (le16 (llq_resp s version) 8 ≡ 1)
        × (le16 (llq_resp s version) 12 ≡ 5)
        × (le16 (llq_resp s version) 16 ≡ 2)
        × (le16 (llq_resp s version) 20 ≡ 2)
    offers = llq_resp-offers s version

-- On a device with a MAC address of six bytes, the limits that GET_FEATURE tells are those that it
-- tests. SET_FEATURE accepts an MTU
-- from 128 bytes to the one told, options of the LLQ, one of each kind that is offered, and groups
-- of events among those told, and fails with any other. The test of a queue's depth passes exactly
-- for the powers of two from 16 to the depth told, which is the same for both kinds of queues; an
-- LLQ's slice has room for that depth with entries of 128 bytes, and for half of it with entries of
-- 256 bytes. What else CREATE_SQ and CREATE_CQ test is not stated here.
pub limits_lem :
    (host : Host) (s : EnaState) (version : ℕ) (cmd : List ℕ)
    → length (take 6 s.macaddr) ≡ 6
    → ((mtu : ℕ) → min_mtu ≤ mtu → mtu ≤ told_mtu s → Accepts (set_mtu s mtu))
      × ((mtu : ℕ)
          → (mtu < min_mtu) ⊎ (told_mtu s < mtu)
          → set_mtu s mtu ≡ fail s illegal_parameter)
      × ((d : ℕ)
          → ((host.is_power_of_2 d ≡ true) × (16 ≤ d) × (d ≤ told_sq_depth))
            ↔ (valid_depth host d ≡ true))
      × (told_cq_depth ≡ told_sq_depth)
      × ((d : ℕ)
          → ((d * 128 ≤ llq_queue_bytes) ↔ (d ≤ told_sq_depth))
            × ((d * 256 ≤ llq_queue_bytes) ↔ (d * 2 ≤ told_sq_depth)))
      × ((location entry descs stride : ℕ)
          → (PicksLlq s version location entry descs stride
              → Accepts (set_llq s location entry descs stride))
            × (¬ PicksLlq s version location entry descs stride
                → set_llq s location entry descs stride ≡ fail s illegal_parameter))
      × ((groups : ℕ)
          → groups < 2 ^ 32
          → (bit_and groups (told_groups s cmd) ≡ groups → Accepts (set_aenq host s groups))
            × (¬ (bit_and groups (told_groups s cmd) ≡ groups)
                → set_aenq host s groups ≡ fail s illegal_parameter))
unfolding set_mtu
limits_lem host s version cmd six = (
  λ mtu low high.
      if_both Accepts _ (λ e. absurd (ground (arith, e, low, high, told_mtu_eq s six))) (λ _. refl),
  λ mtu out.
      if_both (λ m. m ≡ fail s illegal_parameter) _ (λ _. refl)
        (λ e. absurd (ground (arith, e, out, told_mtu_eq s six))),
  λ d. depth_accepted host d told_sq_depth told_depths.0,
  told_depths.1 ∙ sym told_depths.0,
  λ d. (
    (λ h. omega (arith, h, told_depths.0), λ h. omega (arith, h, told_depths.0)),
    (λ h. omega (arith, h, told_depths.0), λ h. omega (arith, h, told_depths.0)),
  ),
  λ location entry descs stride. llq_accepted s version location entry descs stride,
  groups_accepted host s cmd,
)
