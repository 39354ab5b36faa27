-- ===== src/Isolation/Confined.antt =====
-- What an admin command of hw/ena_admin.c may do to the queues, and the commands on queues.
use ena.Base.{
  ℕ, leb, length, Bool, true, false, List, [], Outcome, ◌≡◌, ◌⊎◌, inl, inr, refl, subst, ap, arith,
  ==_iff, ==-ne, ◌==◌, update, if_both, Ends, Ends-bind, check-Ends,
}
use ena.Host.{Host}
use ena.Device.{EnaState, EnaSq, EnaCq, set_sq, set_cq}
use ena.Irq.{admin_intr}
use ena.Aenq.{aenq_post, aenq_advance}
use ena.Admin.{Reply, succeed, ctrl_buf, first_free}
use ena.Admin.Search.{first_free-IsFirstFree}
use ena.Admin.Queues.{CreateCqCmd, create_cq, destroy_cq, CreateSqCmd, create_sq, destroy_sq}
use ena.Admin.GetFeature.{get_feature, get_stats, reply_with_data}
use ena.Admin.GetFeature.Cases.{get_feature_case_lem}
use ena.Admin.SetFeature.Effects.{ctrl_buf-Ends}

-- A queue in use is as it was, or destroyed.
abbrev pub SqKept : EnaSq → EnaSq → Type 0
SqKept q q' = q.used ≡ true → (q' ≡ q) ⊎ (q' ≡ record q { used = false })

abbrev pub CqKept : EnaCq → EnaCq → Type 0
CqKept q q' = q.used ≡ true → (q' ≡ q) ⊎ (q' ≡ record q { used = false })

-- No queue, no vector and no counter is touched.
pub record Undisturbed (s t : EnaState) : Type 0 where
  pub sq_same : t.sq ≡ s.sq
  pub cq_same : t.cq ≡ s.cq
  pub irq_same : t.irq ≡ s.irq
  pub tx_same : (t.tx_pkts ≡ s.tx_pkts) × (t.tx_bytes ≡ s.tx_bytes) × (t.tx_drops ≡ s.tx_drops)
  pub rx_same : (t.rx_pkts ≡ s.rx_pkts) × (t.rx_bytes ≡ s.rx_bytes) × (t.rx_drops ≡ s.rx_drops)

-- What a command may do to the queues: a queue in use is kept or destroyed, and the rest is
-- untouched.
pub record Confined (s t : EnaState) : Type 0 where
  pub sqs : (j : ℕ) → SqKept (s.sq j) (t.sq j)
  pub cqs : (k : ℕ) → CqKept (s.cq k) (t.cq k)
  pub irq_same : t.irq ≡ s.irq
  pub tx_same : (t.tx_pkts ≡ s.tx_pkts) × (t.tx_bytes ≡ s.tx_bytes) × (t.tx_drops ≡ s.tx_drops)
  pub rx_same : (t.rx_pkts ≡ s.rx_pkts) × (t.rx_bytes ≡ s.rx_bytes) × (t.rx_drops ≡ s.rx_drops)

pub Undisturbed-Confined : (s t : EnaState) → Undisturbed s t → Confined s t
Undisturbed-Confined s t d = record {
  sqs = λ j _. inl (ap (λ f. f j) d.sq_same);
  cqs = λ k _. inl (ap (λ f. f k) d.cq_same);
  irq_same = d.irq_same;
  tx_same = d.tx_same;
  rx_same = d.rx_same;
}

pub Undisturbed-refl : (s : EnaState) → Undisturbed s s
Undisturbed-refl s = record {
  sq_same = refl;
  cq_same = refl;
  irq_same = refl;
  tx_same = (refl, refl, refl);
  rx_same = (refl, refl, refl);
}

-- A state whose queues, vectors and counters compute to those of another
pub stays :
    (s t : EnaState)
    → t.sq ≡ s.sq
    → t.cq ≡ s.cq
    → t.irq ≡ s.irq
    → (t.tx_pkts ≡ s.tx_pkts) × (t.tx_bytes ≡ s.tx_bytes) × (t.tx_drops ≡ s.tx_drops)
    → (t.rx_pkts ≡ s.rx_pkts) × (t.rx_bytes ≡ s.rx_bytes) × (t.rx_drops ≡ s.rx_drops)
    → Undisturbed s t
stays s t a b c d e = record { sq_same = a; cq_same = b; irq_same = c; tx_same = d; rx_same = e }

admin_intr-Undisturbed : (s : EnaState) → Undisturbed s (admin_intr s)
unfolding admin_intr
admin_intr-Undisturbed s =
    if_both (Undisturbed s) _ (λ _. Undisturbed-refl s)
      (λ _. stays s _ refl refl refl (refl, refl, refl) (refl, refl, refl))

pub aenq_post-Undisturbed :
    (host : Host) (s : EnaState) (group syndrome : ℕ) (payload : List ℕ)
    → Ends (Undisturbed s) (aenq_post host s group syndrome payload)
unfolding aenq_post aenq_advance
aenq_post-Undisturbed host s group syndrome payload =
    check-Ends (Undisturbed s) (leb (length payload) 48) _ (λ _.
      if_both (Ends (Undisturbed s)) _ (λ _. Undisturbed-refl s)
        (λ _.
          if_both (Ends (Undisturbed s)) _ (λ _. Undisturbed-refl s)
            (λ _.
              if_both (Ends (Undisturbed s)) _ (λ _. Undisturbed-refl s)
                (λ _.
                  let d = admin_intr-Undisturbed _ in
                  stays s _ d.sq_same d.cq_same d.irq_same d.tx_same d.rx_same))))

-- One place of an array is replaced, and what is asked of it holds there.
module _ {ℓ} {A : Type ℓ} (K : A → A → Type 0) (f : ℕ → A) (i : ℕ) (new : A) where
  update-kept : K (f i) new → ((j : ℕ) → K (f j) (f j)) → (j : ℕ) → K (f j) (update f i new j)
  update-kept h same j =
      if_both (K (f j)) (i == j) (λ e. subst (λ k. K (f k) new) ((==_iff i j).0 e) h) (λ _. same j)

abbrev pub ReplyConfined : EnaState → Outcome Reply → Type 0
ReplyConfined s = Ends (λ r. Confined s r.0)

module _ (s : EnaState) where
  pub same : ReplyConfined s (succeed s [])
  same = Undisturbed-Confined s s (Undisturbed-refl s)

  set_sq-Confined : (i : ℕ) (q : EnaSq) → SqKept (s.sq i) q → Confined s (set_sq s i q)
  set_sq-Confined i q h = record {
    sqs = update-kept SqKept s.sq i q h (λ j _. inl refl);
    cqs = λ k _. inl refl;
    irq_same = refl;
    tx_same = (refl, refl, refl);
    rx_same = (refl, refl, refl);
  }

  set_cq-Confined : (i : ℕ) (q : EnaCq) → CqKept (s.cq i) q → Confined s (set_cq s i q)
  set_cq-Confined i q h = record {
    sqs = λ j _. inl refl;
    cqs = update-kept CqKept s.cq i q h (λ k _. inl refl);
    irq_same = refl;
    tx_same = (refl, refl, refl);
    rx_same = (refl, refl, refl);
  }

  pub destroy_cq-Confined : (idx : ℕ) → ReplyConfined s (destroy_cq s idx)
  unfolding destroy_cq
  destroy_cq-Confined idx =
      if_both (ReplyConfined s) _ (λ _. same)
        (λ _. if_both (ReplyConfined s) _ (λ _. same) (λ _. set_cq-Confined idx _ (λ _. inr refl)))

  pub destroy_sq-Confined : (idx identity : ℕ) → ReplyConfined s (destroy_sq s idx identity)
  unfolding destroy_sq
  destroy_sq-Confined idx identity =
      if_both (ReplyConfined s) _ (λ _. same) (λ _. set_sq-Confined idx _ (λ _. inr refl))

  -- The place that is searched for is not in use.
  unused :
      (used : ℕ → Bool) → (first_free used 16 == 16) ≡ false → used (first_free used 16) ≡ false
  unused used e = (first_free-IsFirstFree used 16 (omega arith)).free (==-ne e)

  both : {b : Bool} → b ≡ true → b ≡ false → ⊥
  both p q = cc

  pub get_feature-Confined : (cmd : List ℕ) → ReplyConfined s (get_feature s cmd)
  unfolding get_feature reply_with_data
  get_feature-Confined cmd =
      if_both (ReplyConfined s) _ (λ _. tt)
        (λ _. get_feature_case_lem (ReplyConfined s) s cmd _ (λ _. same) same (λ _. same) datum)
    where
      datum :
          (payload bytes : List ℕ) (need : ℕ)
          → ReplyConfined s (reply_with_data s payload bytes (ctrl_buf cmd need))
      datum payload bytes need =
          Ends-bind (λ _. Unit {0}) (λ (r : Reply). Confined s r.0) _ _ (ctrl_buf-Ends cmd need)
            (λ buf _.
              if_both (Confined s) (buf == 0) (λ _. same)
                (λ _. Undisturbed-Confined s _ record {
                  sq_same = refl;
                  cq_same = refl;
                  irq_same = refl;
                  tx_same = (refl, refl, refl);
                  rx_same = (refl, refl, refl);
                }))

  pub get_stats-Confined : (cmd : List ℕ) → ReplyConfined s (get_stats s cmd)
  unfolding get_stats
  get_stats-Confined cmd =
      if_both (ReplyConfined s) _ (λ _. same)
        (λ _. if_both (ReplyConfined s) _ (λ _. same) (λ _. same))

  module _ (host : Host) where
    pub create_cq-Confined : (c : CreateCqCmd) → ReplyConfined s (create_cq host s c)
    unfolding create_cq
    create_cq-Confined c =
        if_both (ReplyConfined s) _ (λ _. same)
          (λ _.
            if_both (ReplyConfined s) _ (λ _. same)
              (λ _.
                if_both (ReplyConfined s) _ (λ _. same)
                  (λ _.
                    if_both (ReplyConfined s) _ (λ _. same)
                      (λ e.
                        set_cq-Confined _ _
                          (λ u. absurd (both u (unused (λ j. (s.cq j).used) e)))))))

    pub create_sq-Confined : (c : CreateSqCmd) → ReplyConfined s (create_sq host s c)
    unfolding create_sq
    create_sq-Confined c =
        if_both (ReplyConfined s) _ (λ _. same)
          (λ _.
            if_both (ReplyConfined s) _ (λ _. same)
              (λ _.
                if_both (ReplyConfined s) _ (λ _. same)
                  (λ _.
                    if_both (ReplyConfined s) _ (λ _. same)
                      (λ _.
                        if_both (ReplyConfined s) _ (λ _. tt)
                          (λ _.
                            if_both (ReplyConfined s) _ (λ _. same)
                              (λ e.
                                if_both (ReplyConfined s) _ (λ _. same)
                                  (λ _.
                                    set_sq-Confined _ _
                                      (λ u. absurd (both u (unused (λ j. (s.sq j).used) e))))))))))
