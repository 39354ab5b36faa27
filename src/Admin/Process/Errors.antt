-- ===== src/Admin/Process/Errors.antt =====
-- What the commands of hw/ena_admin.c that need no guest memory leave of the device when they fail,
-- and of the admin queues always.
use ena.Base.{ℕ, List, [], Outcome, ◌≡◌, ◌≢◌, ◌⊎◌, inl, inr, refl, ◌==◌, if_both, Ends, Ends-bind}
use ena.Device.{EnaState}
use ena.Admin.{Reply, Status, success, ctrl_buf}
use ena.Admin.Queues.{destroy_cq, destroy_sq}
use ena.Admin.GetFeature.Cases.{get_feature_case_lem}
use ena.Admin.GetFeature.{get_feature, get_stats, reply_with_data}
use ena.Admin.SetFeature.{set_mtu, set_llq}
use ena.Admin.SetFeature.Effects.{ctrl_buf-Ends}

-- The admin queue and its completion queue are where they were.
abbrev pub AcqKept : EnaState → EnaState → Type 0
AcqKept s t = (t.acq_tail ≡ s.acq_tail) × (t.acq_phase ≡ s.acq_phase) × (t.aq_head ≡ s.aq_head)

-- `s` with the addresses of the host attributes of `t`
abbrev pub host_attr_of : EnaState → EnaState → EnaState
host_attr_of t s = record s {
  host_info_addr = t.host_info_addr;
  debug_area_addr = t.debug_area_addr;
  debug_area_size = t.debug_area_size;
}

-- A command that failed left nothing behind but the addresses of the host attributes.
abbrev pub Undone : EnaState → Reply → Type 0
Undone s r = (r.1 ≢ success) × (r.2 ≡ []) × (r.0 ≡ host_attr_of r.0 s)

abbrev pub Executed : EnaState → Reply → Type 0
Executed s r = AcqKept s r.0 × ((r.1 ≡ success) ⊎ Undone s r)

module _ (s : EnaState) where
  abbrev pub R : Outcome Reply → Type 0
  R m = Ends (Executed s) m

  pub kept : AcqKept s s
  kept = (refl, refl, refl)

  pub refused : (st : Status) → st ≢ success → Executed s (s, st, [])
  refused st ne = (kept, inr (ne, refl, refl))

  done : (payload : List ℕ) → Executed s (s, success, payload)
  done payload = (kept, inl refl)

  pub destroy_cq-Executed : (idx : ℕ) → R (destroy_cq s idx)
  unfolding destroy_cq
  destroy_cq-Executed idx =
      if_both R _ (λ _. refused _ (λ e. cc))
        (λ _. if_both R _ (λ _. refused _ (λ e. cc)) (λ _. (kept, inl refl)))

  pub destroy_sq-Executed : (idx identity : ℕ) → R (destroy_sq s idx identity)
  unfolding destroy_sq
  destroy_sq-Executed idx identity = if_both R _ (λ _. refused _ (λ e. cc)) (λ _. (kept, inl refl))

  with_data :
      (cmd payload ctrl_data : List ℕ) (need : ℕ)
      → R (reply_with_data s payload ctrl_data (ctrl_buf cmd need))
  unfolding reply_with_data
  with_data cmd payload ctrl_data need =
      Ends-bind (λ _. Unit {0}) (Executed s) _ _ (ctrl_buf-Ends cmd need)
        (λ buf _. (if_both (AcqKept s) (buf == 0) (λ _. kept) (λ _. kept), inl refl))

  pub get_feature-Executed : (cmd : List ℕ) → R (get_feature s cmd)
  unfolding get_feature
  get_feature-Executed cmd =
      if_both R _ (λ _. tt)
        (λ _.
          get_feature_case_lem R s cmd _ done (refused _ (λ e. cc)) (λ _. refused _ (λ e. cc))
            (with_data cmd))

  pub get_stats-Executed : (cmd : List ℕ) → R (get_stats s cmd)
  unfolding get_stats
  get_stats-Executed cmd =
      if_both R _ (λ _. refused _ (λ e. cc))
        (λ _. if_both R _ (λ _. refused _ (λ e. cc)) (λ _. done _))

  pub set_mtu-Executed : (mtu : ℕ) → R (set_mtu s mtu)
  unfolding set_mtu
  set_mtu-Executed mtu = if_both R _ (λ _. refused _ (λ e. cc)) (λ _. (kept, inl refl))

  pub set_llq-Executed :
      (location entry descs stride : ℕ) → R (set_llq s location entry descs stride)
  unfolding set_llq
  set_llq-Executed location entry descs stride =
      if_both R _ (λ _. refused _ (λ e. cc)) (λ _. (kept, inl refl))
