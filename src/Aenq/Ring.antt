-- ===== src/Aenq/Ring.antt =====
-- The AENQ functions of hw/ena.c over well-formed devices.
use ena.Base.{
  if◌then◌else◌, ℕ, ◌≤◌, List, ◌≡◌, refl, arith, le-leb, if_both, Total, Total-bind, check-Total,
  length,
}
use ena.Host.{Host, Event}
use ena.Device.{EnaState}
use ena.Invariant.{core, IsValid, IsValidCore, admin_queue}
use ena.Irq.{admin_intr}
use ena.Aenq.Events.{aenq_depth, AenqTaken, aenq_advance-AenqTaken}
use ena.Base.{subst, sym, ap, ◌∷◌, ◌+◌, ◌≢◌, inl, inr}
use ena.Invariant.Queues.{core-admin_intr}
use ena.Aenq.{
  aenq_post, aenq_advance, arm_keep_alive, post_link_change, keep_alive_tick, keep_alive_payload,
  config_keep_alive, aenq_config,
}

-- Of what the invariant reads, only the event queue has moved, and it is still a ring.
abbrev pub AenqOnly : EnaState → EnaState → Type 0
AenqOnly s t = (IsValid s → IsValid t) × (admin_queue t ≡ admin_queue s)

AenqOnly-core : (s t : EnaState) → core t ≡ core s → AenqOnly s t
unfolding core
AenqOnly-core s t e = (λ v. subst IsValidCore (sym e) v, ap (λ c. (c.aq_head, c.acq_depth)) e)

-- The entries that a ring of a well-formed device has taken
pub valid-AenqTaken : (s : EnaState) → IsValid s → aenq_depth s ≢ 0 → (n : ℕ) × AenqTaken s n
unfolding core
valid-AenqTaken s v ne = elim v.aenq [
  | inl z ↦ absurd (ne z)
  | inr r ↦ (
    r.count,
    record {
      order = r.order;
      small = r.small;
      depth_eq = r.depth_eq;
      tail_eq = r.tail_eq;
      phase_eq = r.phase_eq;
    },
  )
]

module _ (s : EnaState) (e : Event) (ne : aenq_depth s ≢ 0) where
  abbrev moved : EnaState
  moved = aenq_advance (record s { trace = e ∷ s.trace }) (aenq_depth s)

  moved-IsValid : IsValid s → IsValid moved
  unfolding core aenq_advance if◌then◌else◌
  moved-IsValid v =
      let (n, taken) = valid-AenqTaken s v ne in
      let after = aenq_advance-AenqTaken s n taken e in
      record {
        mtu_low = v.mtu_low;
        mtu_high = v.mtu_high;
        aq_head_in = v.aq_head_in;
        llq_size = v.llq_size;
        cqs = v.cqs;
        sqs = v.sqs;
        sq_in = v.sq_in;
        vectors = v.vectors;
        version_eq = v.version_eq;
        controller_version_eq = v.controller_version_eq;
        caps_eq = v.caps_eq;
        acq = v.acq;
        selected = v.selected;
        aenq = inr record {
          order = after.order;
          small = after.small;
          depth_eq = after.depth_eq;
          count = n + 1;
          tail_eq = after.tail_eq;
          phase_eq = after.phase_eq;
        };
      }

  moved-AenqOnly : AenqOnly s (admin_intr moved)
  unfolding aenq_advance if◌then◌else◌ core
  moved-AenqOnly =
      let same = core-admin_intr moved in
      (λ v. subst IsValidCore (sym same) (moved-IsValid v), ap (λ c. (c.aq_head, c.acq_depth)) same)

module _ (host : Host) where
  pub aenq_post-AenqOnly :
      (s : EnaState) (group syndrome : ℕ) (payload : List ℕ)
      → length payload ≤ 48
      → Total (AenqOnly s) (aenq_post host s group syndrome payload)
  unfolding aenq_post
  aenq_post-AenqOnly s group syndrome payload small = check-Total (AenqOnly s) _ _ (le-leb small) (
      if_both (Total (AenqOnly s)) _ (λ _. same)
        (λ e.
          if_both (Total (AenqOnly s)) _ (λ _. same)
            (λ _.
              if_both (Total (AenqOnly s)) _ (λ _. same)
                (λ _. moved-AenqOnly s _ (λ z. ground (arith, e, z))))))
    where
      same : AenqOnly s s
      same = (λ v. v, refl)

  pub keep_alive_tick-AenqOnly : (s : EnaState) → Total (AenqOnly s) (keep_alive_tick host s)
  unfolding keep_alive_tick keep_alive_payload core arm_keep_alive
  keep_alive_tick-AenqOnly s =
      Total-bind (AenqOnly s) (AenqOnly s) _ _
        (aenq_post-AenqOnly s _ 0 (keep_alive_payload host s) (omega arith)) (λ t k. k)

  pub aenq_config-AenqOnly :
      (s : EnaState) (groups : ℕ) → Total (AenqOnly s) (aenq_config host s groups)
  unfolding aenq_config post_link_change config_keep_alive arm_keep_alive core
  aenq_config-AenqOnly s groups =
      Total-bind (AenqOnly s) (AenqOnly s) _ _
        (if_both (Total (AenqOnly s)) _ (λ _. aenq_post-AenqOnly _ 0 0 _ (omega arith))
          (λ _. (λ v. v, refl)))
        (λ t k. if_both (AenqOnly s) _ (λ _. k) (λ _. k))
