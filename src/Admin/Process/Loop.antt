-- ===== src/Admin/Process/Loop.antt =====
-- The loop of `ena_admin_process` of hw/ena_admin.c, and the commands that it runs.
use ena.Base.{
  ==-ne, inl, inr, ℕ, zero, suc, ◌+◌, ◌^◌, ◌≤◌, ◌<◌, Bool, true, false, not, ◌||◌, List, Outcome,
  ◌≡◌, ◌≢◌, bit_and, refl, sym, ap, subst, ◌∙◌, arith, ltb, ◌==◌, ==_iff, sub16, u16, if_both,
  Total-Ends, Ends, Ends-bind,
}
use ena.Base.Wrap.{lap_phase}
use ena.Host.{Host}
use ena.Device.{EnaState, get_reg}
use ena.Device.Layout.{
  reg_acq_tail, reg_aq_db, reg_aq_base_hi, reg_aq_base_lo, reg_aq_caps, reg_acq_base_hi,
  reg_acq_base_lo, reg_acq_caps, caps_depth,
}
use ena.Invariant.Registers.{core-set_reg}
use ena.Admin.Process.Completions.{AcqTaken, acq_post_lem}
use ena.Invariant.{acq_depth_of, IsAdminRing, core, IsValid, IsValidCore}
use ena.Invariant.Queues.{core-admin_intr}
use ena.Aenq.{reg_addr}
use ena.Admin.{Reply}
use ena.Admin.Queues.Effects.{
  PowersOnly, Replied, create_cq-Replied, create_sq-Replied, destroy_cq-Replied, destroy_sq-Replied,
}
use ena.Admin.SetFeature.Effects.{get_feature-Replied, get_stats-Replied, set_feature-Replied}
use ena.Admin.Process.{
  admin_exec, acq_advance, acq_post, admin_step, admin_drain, admin_finish, admin_process,
}

-- The admin queue's addresses and depths are set, and no more commands are posted than it holds.
abbrev pub is_ready : EnaState → Bool
is_ready s =
    let aq_base = reg_addr s reg_aq_base_hi reg_aq_base_lo in
    let acq_base = reg_addr s reg_acq_base_hi reg_acq_base_lo in
    let aq_depth = u16 (bit_and (get_reg s reg_aq_caps) caps_depth) in
    let acq_depth = u16 (bit_and (get_reg s reg_acq_caps) caps_depth) in
    let todo = sub16 (u16 (get_reg s reg_aq_db)) s.aq_head in
    not (aq_base == 0 || acq_base == 0 || aq_depth == 0 || acq_depth == 0 || ltb aq_depth todo)

-- The tail that the driver's doorbell names
abbrev pub posted_tail : EnaState → ℕ
posted_tail s = u16 (get_reg s reg_aq_db)

-- After a doorbell: every posted command is taken, or nothing has changed.
abbrev pub Processed : EnaState → EnaState → Type 0
Processed s t =
    IsValid t × (is_ready s ≡ true → t.aq_head ≡ posted_tail s) × (is_ready s ≡ false → t ≡ s)

-- A completion more keeps the device well-formed.
module _ (acq_base acq_depth : ℕ) (cmd : List ℕ) (r : Reply) where
  acq_post_head : (acq_post acq_base acq_depth cmd r).aq_head ≡ r.0.aq_head
  unfolding acq_post acq_advance
  acq_post_head = refl

  acq_post_depth : acq_depth_of (acq_post acq_base acq_depth cmd r) ≡ acq_depth_of r.0
  unfolding acq_post acq_advance
  acq_post_depth = refl

  acq_post-IsAdminRing :
      acq_depth_of r.0 ≡ acq_depth
      → IsAdminRing (acq_depth_of r.0) r.0.acq_tail r.0.acq_phase
      → let t = acq_post acq_base acq_depth cmd r in
        IsAdminRing (acq_depth_of t) t.acq_tail t.acq_phase
  acq_post-IsAdminRing d q = record {
    order = q.order;
    small = q.small;
    depth_eq = acq_post_depth ∙ q.depth_eq;
    count = q.count + 1;
    tail_eq = a.tail_eq;
    phase_eq =
        subst (λ k. t.acq_phase ≡ lap_phase k (q.count + 1)) (sym (acq_post_depth ∙ d)) a.phase_eq;
  }
    where
      t : EnaState
      t = acq_post acq_base acq_depth cmd r

      a : AcqTaken t acq_depth (q.count + 1)
      a =
          (acq_post_lem acq_base acq_depth q.count cmd r record {
            order = q.order;
            small = q.small;
            depth_eq = sym d ∙ q.depth_eq;
            tail_eq = q.tail_eq;
            phase_eq = subst (λ k. r.0.acq_phase ≡ lap_phase k q.count) d q.phase_eq;
          }).0

  acq_post-IsValid :
      IsValid r.0
      → acq_depth_of r.0 ≡ acq_depth
      → acq_depth ≢ 0
      → IsValid (acq_post acq_base acq_depth cmd r)
  unfolding acq_post acq_advance core
  acq_post-IsValid v d ne = record {
    mtu_low = v.mtu_low;
    mtu_high = v.mtu_high;
    aq_head_in = v.aq_head_in;
    llq_size = v.llq_size;
    cqs = v.cqs;
    sqs = v.sqs;
    sq_in = v.sq_in;
    vectors = v.vectors;
    version_eq = v.version_eq;
    controller_version_eq = v.controller_version_eq;
    caps_eq = v.caps_eq;
    acq = inr (elim v.acq [ inl z ↦ absurd (ne (sym d ∙ z)) | inr q ↦ acq_post-IsAdminRing d q ]);
    selected = v.selected;
    aenq = v.aenq;
  }

module _ (host : Host) (powers : PowersOnly host) where
  pub admin_exec-Replied :
      (s : EnaState) (cmd : List ℕ) → IsValid s → Ends (Replied s) (admin_exec host s cmd)
  unfolding admin_exec
  admin_exec-Replied s cmd v =
      if_both R _ (λ _. create_sq-Replied host powers s _ v)
        (λ _.
          if_both R _ (λ _. Total-Ends (Replied s) _ (destroy_sq-Replied s _ _ v))
            (λ _.
              if_both R _ (λ _. Total-Ends (Replied s) _ (create_cq-Replied host powers s _ v))
                (λ _.
                  if_both R _ (λ _. Total-Ends (Replied s) _ (destroy_cq-Replied s _ v))
                    (λ _.
                      if_both R _ (λ _. get_feature-Replied s cmd v)
                        (λ _.
                          if_both R _ (λ _. set_feature-Replied host s v cmd)
                            (λ _.
                              if_both R _ (λ _. get_stats-Replied s cmd v) (λ _. (v, refl))))))))
    where
      R : Outcome Reply → Type 0
      R = Ends (Replied s)

  -- One command is taken.
  abbrev Taken : EnaState → EnaState → Type 0
  Taken s t = IsValid t × (t.aq_head ≡ u16 (s.aq_head + 1)) × (acq_depth_of t ≡ acq_depth_of s)

  admin_step-Taken :
      (aq_base acq_base aq_depth acq_depth : ℕ) (s : EnaState)
      → IsValid s
      → acq_depth_of s ≡ acq_depth
      → acq_depth ≢ 0
      → Ends (Taken s) (admin_step host aq_base acq_base aq_depth acq_depth s)
  unfolding admin_step core
  admin_step-Taken aq_base acq_base aq_depth acq_depth s v d ne =
      Ends-bind (Replied s1) (Taken s) _ _ (admin_exec-Replied s1 _ valid1) (λ r k.
        let same : acq_depth_of r.0 ≡ acq_depth_of s = ap (λ q. q.1) k.1 in
        (
          acq_post-IsValid acq_base acq_depth _ r k.0 (same ∙ d) ne,
          acq_post_head acq_base acq_depth _ r ∙ ap (λ q. q.0) k.1,
          acq_post_depth acq_base acq_depth _ r ∙ same,
        ))
    where
      s1 : EnaState
      s1 = record s { aq_head = u16 (s.aq_head + 1) }

      valid1 : IsValid s1
      valid1 = record {
        mtu_low = v.mtu_low;
        mtu_high = v.mtu_high;
        aq_head_in = omega arith;
        llq_size = v.llq_size;
        cqs = v.cqs;
        sqs = v.sqs;
        sq_in = v.sq_in;
        vectors = v.vectors;
        version_eq = v.version_eq;
        controller_version_eq = v.controller_version_eq;
        caps_eq = v.caps_eq;
        acq = v.acq;
        selected = v.selected;
        aenq = v.aenq;
      }

  abbrev Finished : ℕ → EnaState → Type 0
  Finished tail t = IsValid t × (t.aq_head ≡ tail)

  admin_drain-Finished :
      (fuel aq_base acq_base aq_depth acq_depth tail : ℕ) (s : EnaState)
      → IsValid s
      → acq_depth_of s ≡ acq_depth
      → acq_depth ≢ 0
      → tail < 2 ^ 16
      → sub16 tail s.aq_head ≤ fuel
      → Ends (Finished tail) (admin_drain host fuel aq_base acq_base aq_depth acq_depth tail s)
  unfolding admin_drain core
  admin_drain-Finished zero aq_base acq_base aq_depth acq_depth tail s v d nz lt le =
      if_both (Ends (Finished tail)) _ (λ e. (v, (==_iff _ _).0 e))
        (λ e. absurd (ground (arith, e, le, lt, v.aq_head_in)))
  admin_drain-Finished (suc fuel) aq_base acq_base aq_depth acq_depth tail s v d nz lt le =
      if_both (Ends (Finished tail)) _ (λ e. (v, (==_iff _ _).0 e))
        (λ e.
          Ends-bind (Taken s) (Finished tail) _ _
            (admin_step-Taken aq_base acq_base aq_depth acq_depth s v d nz)
            (λ t k.
              admin_drain-Finished fuel aq_base acq_base aq_depth acq_depth tail t k.0 (k.2 ∙ d) nz
                lt (fuel_left (==-ne e) v.aq_head_in k.1)))
    where
      fuel_left :
          {t : ℕ}
          → s.aq_head ≢ tail
          → s.aq_head < 2 ^ 16
          → t ≡ u16 (s.aq_head + 1)
          → sub16 tail t ≤ fuel
      fuel_left ne h e = omega (arith, ne, h, e, lt, le)

  core-admin_finish : (b : Bool) (s : EnaState) → core (admin_finish host b s) ≡ core s
  unfolding admin_finish core
  core-admin_finish b s =
      if_both (λ t. core t ≡ core s) b (λ _. core-admin_intr _ ∙ core-set_reg s reg_acq_tail _ refl)
        (λ _. core-set_reg s reg_acq_tail _ refl)

  -- `ena_admin_process` on a well-formed device, whatever commands the driver has posted, ends: it
  -- stops at an assertion or an unsupported command, or it returns a well-formed device. When the
  -- queue is set up and not overrun, the posted commands are all taken; otherwise nothing changes.
  pub admin_process_lem : (s : EnaState) → IsValid s → Ends (Processed s) (admin_process host s)
  unfolding admin_process core
  admin_process_lem s v =
      if_both (Ends (Processed s)) _ (λ e. (v, λ r. absurd (ground (arith, e, r)), λ _. refl))
        (λ e.
          if_both (Ends (Processed s)) _ (λ f. (v, λ r. absurd (ground (arith, f, r)), λ _. refl))
            (λ f.
              Ends-bind (Finished (posted_tail s)) (Processed s) _ _
                (admin_drain-Finished _ _ _ _ _ (posted_tail s) s v refl (λ z. ground (arith, e, z))
                  (omega arith) (omega arith))
                (λ t k. (
                  subst IsValidCore (sym (core-admin_finish _ t)) k.0,
                  λ _. ap (λ c. c.aq_head) (core-admin_finish _ t) ∙ k.1,
                  λ r. absurd (ground (arith, e, f, r)),
                ))))
