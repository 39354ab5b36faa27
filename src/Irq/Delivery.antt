-- ===== src/Irq/Delivery.antt =====
-- The pending bits, the mask and the events of a vector: `ena_cq_intr`, `ena_irq_schedule`,
-- `ena_irq_fire` and `ena_cq_unmask_write` of hw/ena.c.
use ena.Base.{
  ltb, ◌&&◌, ◌+◌, ℕ, ◌∷◌, Bool, true, false, ◌||◌, ◌≡◌, ◌≢◌, ◌⊎◌, inl, inr, refl, sym, ap, subst,
  ◌∙◌, arith, ==_iff, has, if◌then◌else◌, if_both, update, update_self, update-ne, Bool-cases,
}
use ena.Host.{Host, msix_notify, timer_del, timer_mod_anticipate, moder}
use ena.Device.{EnaState, EnaIrq, set_irq, msix_vectors}
use ena.Device.Layout.{intr_unmask}
use ena.Irq.{
  irq_fire, irq_schedule, cq_intr, update_delays, schedule_rx, schedule_tx, cq_unmask_write,
}

-- The interrupt of vector `v` is raised: one message, with the vector masked and nothing pending.
pub record Fired (s : EnaState) (v : ℕ) (t : EnaState) : Type 0 where
  pub message : t.trace ≡ msix_notify (s.irq v).vector ∷ timer_del (moder v) ∷ s.trace
  pub masked : (t.irq v).unmasked ≡ false
  pub no_rx : (t.irq v).rx_pending ≡ false
  pub no_tx : (t.irq v).tx_pending ≡ false
  pub others : (j : ℕ) → j ≢ v → t.irq j ≡ s.irq j

pub irq_fire-Fired : (s : EnaState) (v : ℕ) → Fired s v (irq_fire s v)
unfolding irq_fire
irq_fire-Fired s v = record {
  message = refl;
  masked = rw (update_self s.irq v quiet) refl;
  no_rx = rw (update_self s.irq v quiet) refl;
  no_tx = rw (update_self s.irq v quiet) refl;
  others = λ j ne. update-ne s.irq v quiet j ne;
}
  where
    quiet : EnaIrq
    quiet = record (s.irq v) { unmasked = false; rx_pending = false; tx_pending = false }

module _ (host : Host) (s : EnaState) (v : ℕ) where
  fire_at_once : (d : ℕ) → d ≡ 0 → irq_schedule host s v d ≡ irq_fire s v
  unfolding irq_schedule if◌then◌else◌
  fire_at_once d e = rw e refl

  schedule_rx-fire :
      (s.irq v).rx_pending ≡ true → (s.irq v).rx_delay_us ≡ 0 → schedule_rx host s v ≡ irq_fire s v
  unfolding schedule_rx if◌then◌else◌
  schedule_rx-fire p d = rw p (fire_at_once _ d)

  schedule_tx-fire :
      (s.irq v).tx_pending ≡ true → (s.irq v).tx_delay_us ≡ 0 → schedule_tx host s v ≡ irq_fire s v
  unfolding schedule_tx if◌then◌else◌
  schedule_tx-fire p d = rw p (fire_at_once _ d)

  schedule_rx-idle : (s.irq v).rx_pending ≡ false → schedule_rx host s v ≡ s
  unfolding schedule_rx if◌then◌else◌
  schedule_rx-idle p = rw p refl

  schedule_tx-idle : (s.irq v).tx_pending ≡ false → schedule_tx host s v ≡ s
  unfolding schedule_tx if◌then◌else◌
  schedule_tx-idle p = rw p refl

-- Whichever direction is pending, one interrupt is raised where there is no moderation.
both_fire :
    (host : Host) (s : EnaState) (v : ℕ)
    → ((s.irq v).rx_pending || (s.irq v).tx_pending) ≡ true
    → (s.irq v).rx_delay_us ≡ 0
    → (s.irq v).tx_delay_us ≡ 0
    → Fired s v (schedule_tx host (schedule_rx host s v) v)
both_fire host s v p rx tx = elim (Bool-cases (s.irq v).rx_pending) [
  | inl e ↦
      subst (λ t. Fired s v (schedule_tx host t v)) (sym (schedule_rx-fire host s v e rx))
        (subst (Fired s v) (sym (schedule_tx-idle host (irq_fire s v) v (irq_fire-Fired s v).no_tx))
          (irq_fire-Fired s v))
  | inr e ↦
      subst (λ t. Fired s v (schedule_tx host t v)) (sym (schedule_rx-idle host s v e))
        (subst (Fired s v) (sym (schedule_tx-fire host s v (ground (arith, p, e)) tx))
          (irq_fire-Fired s v))
]

-- `cq` reports to a vector that interrupts.
abbrev pub interrupts : EnaState → ℕ → Bool
interrupts s c = (s.cq c).intr_enabled && ltb (s.cq c).msix_vector msix_vectors

-- An interrupt that is due is raised at once or, with moderation, by a timer.
abbrev pub Raised : Host → EnaState → (v delay : ℕ) → EnaState → Type 0
Raised host s v delay t =
    ((delay ≡ 0) × Fired s v t)
    ⊎ ((delay ≢ 0)
        × (t.trace ≡ timer_mod_anticipate (moder v) (host.clock_us s.trace + delay) ∷ s.trace))

abbrev pub delay_of : EnaIrq → (is_tx : Bool) → ℕ
delay_of q is_tx = if is_tx then q.tx_delay_us else q.rx_delay_us

abbrev pub pending_of : EnaIrq → (is_tx : Bool) → Bool
pending_of q is_tx = if is_tx then q.tx_pending else q.rx_pending

irq_schedule-Raised :
    (host : Host) (s : EnaState) (v d : ℕ) → Raised host s v d (irq_schedule host s v d)
unfolding irq_schedule
irq_schedule-Raised host s v d =
    if_both (Raised host s v d) _ (λ e. inl ((==_iff _ _).0 e, irq_fire-Fired s v))
      (λ e. inr (λ f. ground (arith, e, f), refl))

-- What a completion does to the interrupt of its queue: on an unmasked vector it is raised, on a
-- masked one it is remembered as pending, with no event.
abbrev pub Signalled : Host → EnaState → (c : ℕ) → (is_tx : Bool) → EnaState → Type 0
Signalled host s c is_tx t =
    let v = (s.cq c).msix_vector in
    (interrupts s c ≡ false → t ≡ s)
    × (interrupts s c ≡ true
        → (s.irq v).unmasked ≡ true
        → Raised host s v (delay_of (s.irq v) is_tx) t)
    × (interrupts s c ≡ true
        → (s.irq v).unmasked ≡ false
        → (pending_of (t.irq v) is_tx ≡ true) × (t.trace ≡ s.trace))

pending_marked :
    (q : EnaIrq) (is_tx : Bool)
    → pending_of
        (if is_tx then record q { tx_pending = true } else record q { rx_pending = true })
        is_tx
      ≡ true
unfolding if◌then◌else◌
pending_marked q true = refl
pending_marked q false = refl

-- `ena_cq_intr` loses no interrupt: on an unmasked vector it raises it, at once or by the moderation
-- timer; on a masked one it marks the direction as pending; a queue that does not interrupt changes
-- nothing.
pub cq_intr_lem :
    (host : Host) (s : EnaState) (c : ℕ) (is_tx : Bool)
    → Signalled host s c is_tx (cq_intr host s c is_tx)
unfolding cq_intr
cq_intr_lem host s c is_tx =
    if_both (Signalled host s c is_tx) _
      (λ e. (λ _. refl, λ f. absurd (ground (arith, e, f)), λ f. absurd (ground (arith, e, f))))
      (λ e.
        if_both (Signalled host s c is_tx) _
          (λ m. (
            λ f. absurd (ground (arith, e, f)),
            λ _ u. absurd (ground (arith, m, u)),
            λ _ _. (marked _ _, refl),
          ))
          (λ m. (
            λ f. absurd (ground (arith, e, f)),
            λ _ _. irq_schedule-Raised host s _ _,
            λ _ u. absurd (ground (arith, m, u)),
          )))
  where
    marked :
        (v : ℕ) (q : EnaIrq)
        → pending_of
            (update s.irq v
              (if is_tx then record q { tx_pending = true } else record q { rx_pending = true })
              v)
            is_tx
          ≡ true
    marked v q =
        rw
          (update_self s.irq v
            (if is_tx then record q { tx_pending = true } else record q { rx_pending = true }))
          (pending_marked q is_tx)

update_delays-keeps :
    (host : Host) (q : EnaIrq) (val : ℕ)
    → ((update_delays host q val).rx_pending ≡ q.rx_pending)
      × ((update_delays host q val).tx_pending ≡ q.tx_pending)
      × ((update_delays host q val).vector ≡ q.vector)
unfolding update_delays
update_delays-keeps host q val =
    if_both
      (λ (r : EnaIrq).
        (r.rx_pending ≡ q.rx_pending) × (r.tx_pending ≡ q.tx_pending) × (r.vector ≡ q.vector))
      _ (λ _. (refl, refl, refl)) (λ _. (refl, refl, refl))

-- A vector whose entry has the same number, in a state with the same events
Fired-set_irq :
    (s : EnaState) (v : ℕ) (q : EnaIrq) (t : EnaState)
    → q.vector ≡ (s.irq v).vector
    → Fired (set_irq s v q) v t
    → Fired s v t
Fired-set_irq s v q t e f = record {
  message =
      f.message
      ∙ ap (λ n. msix_notify n ∷ timer_del (moder v) ∷ s.trace)
          (ap (λ r. r.vector) (update_self s.irq v q) ∙ e);
  masked = f.masked;
  no_rx = f.no_rx;
  no_tx = f.no_tx;
  others = λ j ne. f.others j ne ∙ update-ne s.irq v q j ne;
}

-- With no moderation, and something pending on the vector of a used queue, unmasking it raises
-- exactly one interrupt and masks the vector again, whichever directions are pending.
pub cq_unmask_write_lem :
    (host : Host) (s : EnaState) (c val : ℕ)
    → (s.cq c).used ≡ true
    → interrupts s c ≡ true
    → has val intr_unmask ≡ true
    → ((s.irq (s.cq c).msix_vector).rx_pending || (s.irq (s.cq c).msix_vector).tx_pending) ≡ true
    → (update_delays host (s.irq (s.cq c).msix_vector) val).rx_delay_us ≡ 0
    → (update_delays host (s.irq (s.cq c).msix_vector) val).tx_delay_us ≡ 0
    → Fired s (s.cq c).msix_vector (cq_unmask_write host s c val)
unfolding cq_unmask_write
cq_unmask_write_lem host s c val used ints on pending rx tx =
    if_both (Fired s v) _ (λ e. absurd (ground (arith, e, used, ints)))
      (λ _.
        if_both (Fired s v) _ (λ e. absurd (ground (arith, e, on)))
          (λ _. Fired-set_irq s v q _ keeps.2 (
            both_fire host (set_irq s v q) v
              (rw (update_self s.irq v q) (rw (keeps.0, keeps.1) pending))
              (rw (update_self s.irq v q) rx) (rw (update_self s.irq v q) tx))))
  where
    v : ℕ
    v = (s.cq c).msix_vector

    q : EnaIrq
    q = record (update_delays host (s.irq v) val) { unmasked = has val intr_unmask }

    keeps :
        ((update_delays host (s.irq v) val).rx_pending ≡ (s.irq v).rx_pending)
        × ((update_delays host (s.irq v) val).tx_pending ≡ (s.irq v).tx_pending)
        × ((update_delays host (s.irq v) val).vector ≡ (s.irq v).vector)
    keeps = update_delays-keeps host (s.irq v) val
