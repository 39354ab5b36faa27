-- ===== src/Irq/Pending.antt =====
-- A pending interrupt between a completion on a masked vector and the unmasking: `ena_cq_intr` and
-- `ena_cq_unmask_write` of hw/ena.c one after the other.
use ena.Base.{
  ℕ, ◌∷◌, [], List, Bool, true, false, ◌||◌, ◌&&◌, ltb, ◌≡◌, ◌≢◌, refl, sym, ap, subst, ◌∙◌, arith,
  ◌==◌, ==_iff, has, if◌then◌else◌, if_both, update_self, Bool-cases, inl, inr,
}
use ena.Host.{Host, msix_notify, timer_del, moder}
use ena.Device.{EnaState, EnaIrq, EnaCq, set_irq, msix_vectors}
use ena.Device.Layout.{intr_unmask}
use ena.Invariant.{IsValid}
use ena.Regs.Restart.{IsValid-IsNumbered}
use ena.Irq.{cq_intr, irq_schedule, irq_fire, update_delays, cq_unmask_write}
use ena.Irq.Delivery.{Fired, irq_fire-Fired, interrupts, cq_unmask_write_lem}

-- Completions that come one after the other: the queue, and whether it is a TX queue's
unfoldable pub signal_all : Host → List (ℕ × Bool) → EnaState → EnaState
signal_all host [] s = s
signal_all host ((c, is_tx) ∷ more) s = signal_all host more (cq_intr host s c is_tx)

-- A masked vector with something pending, as the vector of `s` otherwise
pub record WaitingIrq (old q : EnaIrq) : Type 0 where
  pub masked : q.unmasked ≡ false
  pub pending : (q.rx_pending || q.tx_pending) ≡ true
  pub rx_delay_same : q.rx_delay_us ≡ old.rx_delay_us
  pub tx_delay_same : q.tx_delay_us ≡ old.tx_delay_us
  pub number_same : q.vector ≡ old.vector

abbrev pub Waiting : EnaState → ℕ → EnaState → Type 0
Waiting s v t = WaitingIrq (s.irq v) (t.irq v) × (t.cq ≡ s.cq)

abbrev marked : EnaIrq → Bool → EnaIrq
marked q is_tx = if is_tx then record q { tx_pending = true } else record q { rx_pending = true }

marked-WaitingIrq :
    (old q : EnaIrq) (is_tx : Bool)
    → q.unmasked ≡ false
    → q.rx_delay_us ≡ old.rx_delay_us
    → q.tx_delay_us ≡ old.tx_delay_us
    → q.vector ≡ old.vector
    → WaitingIrq old (marked q is_tx)
marked-WaitingIrq old q is_tx u rx tx n =
    if_both (WaitingIrq old) is_tx
      (λ _. record {
        masked = u;
        pending = ground arith;
        rx_delay_same = rx;
        tx_delay_same = tx;
        number_same = n;
      })
      (λ _. record {
        masked = u;
        pending = ground arith;
        rx_delay_same = rx;
        tx_delay_same = tx;
        number_same = n;
      })

module _ (host : Host) (s : EnaState) (v : ℕ) where
  irq_schedule-Waiting :
      (t : EnaState) (w d : ℕ) → w ≢ v → Waiting s v t → Waiting s v (irq_schedule host t w d)
  unfolding irq_schedule irq_fire
  irq_schedule-Waiting t w d ne wait =
      if_both (Waiting s v) (d == 0)
        (λ _. (
          subst (WaitingIrq (s.irq v)) (sym ((irq_fire-Fired t w).others v (λ e. ne (sym e))))
              wait.0,
          wait.1,
        ))
        (λ _. wait)

  cq_intr-Waiting :
      (t : EnaState) (c : ℕ) (is_tx : Bool) → Waiting s v t → Waiting s v (cq_intr host t c is_tx)
  unfolding cq_intr
  cq_intr-Waiting t c is_tx wait =
      if_both (Waiting s v) _ (λ _. wait)
        (λ _.
          if_both (Waiting s v) _
            (λ m. (
              if_both (WaitingIrq (s.irq v)) (w == v)
                  (λ e.
                    subst (λ k. WaitingIrq (s.irq v) (marked (t.irq k) is_tx))
                      (sym ((==_iff w v).0 e))
                      (marked-WaitingIrq (s.irq v) (t.irq v) is_tx wait.0.masked
                        wait.0.rx_delay_same wait.0.tx_delay_same wait.0.number_same))
                  (λ _. wait.0),
              wait.1,
            ))
            (λ m.
              irq_schedule-Waiting t w _
                (λ e. ground (arith, m, ap (λ k. (t.irq k).unmasked) e, wait.0.masked)) wait))
    where
      w : ℕ
      w = (t.cq c).msix_vector

  signal_all-Waiting :
      (cs : List (ℕ × Bool)) (t : EnaState) → Waiting s v t → Waiting s v (signal_all host cs t)
  unfolding signal_all
  signal_all-Waiting [] t wait = wait
  signal_all-Waiting ((c, is_tx) ∷ more) t wait =
      signal_all-Waiting more (cq_intr host t c is_tx) (cq_intr-Waiting t c is_tx wait)

module _ (host : Host) (s : EnaState) (c : ℕ) where
  abbrev v : ℕ
  v = (s.cq c).msix_vector

  -- The first completion on the masked vector
  first-Waiting :
      (is_tx : Bool)
      → interrupts s c ≡ true
      → (s.irq v).unmasked ≡ false
      → Waiting s v (cq_intr host s c is_tx)
  unfolding cq_intr
  first-Waiting is_tx i u =
      if_both (Waiting s v) _ (λ e. absurd (ground (arith, e, i)))
        (λ _.
          if_both (Waiting s v) _
            (λ _. (
              subst (WaitingIrq (s.irq v)) (sym (update_self s.irq v (marked (s.irq v) is_tx)))
                  (marked-WaitingIrq (s.irq v) (s.irq v) is_tx u refl refl refl),
              refl,
            ))
            (λ m. absurd (ground (arith, m, u))))

  update_delays-same :
      (q : EnaIrq) (val : ℕ)
      → WaitingIrq (s.irq v) q
      → ((update_delays host q val).rx_delay_us ≡ (update_delays host (s.irq v) val).rx_delay_us)
        × ((update_delays host q val).tx_delay_us ≡ (update_delays host (s.irq v) val).tx_delay_us)
  unfolding update_delays if◌then◌else◌
  update_delays-same q val wait =
      elim (Bool-cases (has val ena.Device.Layout.intr_no_moderation_update)) [
        | inl e ↦ rw e (wait.rx_delay_same, wait.tx_delay_same)
        | inr e ↦ rw e (refl, refl)
      ]

  -- An interrupt is not lost while its vector is masked: after a completion on a queue whose vector
  -- is masked, and any completions on any queues behind it, the write that unmasks the vector, with
  -- no moderation, sends one message of the number that the queue was created with, and masks the
  -- vector again with nothing pending. The device is well-formed and the queue is used and
  -- interrupts.
  pub unmask-signal_all :
      (is_tx : Bool) (more : List (ℕ × Bool)) (val : ℕ)
      → IsValid s
      → (s.cq c).used ≡ true
      → interrupts s c ≡ true
      → (s.irq v).unmasked ≡ false
      → has val intr_unmask ≡ true
      → (update_delays host (s.irq v) val).rx_delay_us ≡ 0
      → (update_delays host (s.irq v) val).tx_delay_us ≡ 0
      → let t = signal_all host ((c, is_tx) ∷ more) s in
        let u = cq_unmask_write host t c val in
        (u.trace ≡ msix_notify v ∷ timer_del (moder v) ∷ t.trace)
        × ((u.irq v).unmasked ≡ false)
        × ((u.irq v).rx_pending ≡ false)
        × ((u.irq v).tx_pending ≡ false)
  unfolding signal_all
  unmask-signal_all is_tx more val valid used ints masked on rx tx = (
    f.message ∙ ap (λ n. msix_notify n ∷ timer_del (moder v) ∷ t.trace) number,
    f.masked,
    f.no_rx,
    f.no_tx,
  )
    where
      t : EnaState
      t = signal_all host more (cq_intr host s c is_tx)

      wait : Waiting s v t
      wait =
          signal_all-Waiting host s v more (cq_intr host s c is_tx)
            (first-Waiting is_tx ints masked)

      queue : t.cq c ≡ s.cq c
      queue = ap (λ (q : ℕ → EnaCq). q c) wait.1

      at_queue : (P : EnaCq → Type 0) → P (s.cq c) → P (t.cq c)
      at_queue P p = subst P (sym queue) p

      number : (t.irq v).vector ≡ v
      number = wait.0.number_same ∙ IsValid-IsNumbered s valid v (ground (arith, ints))

      f : Fired t v (cq_unmask_write host t c val)
      f =
          subst (λ (w : EnaCq). Fired t w.msix_vector (cq_unmask_write host t c val)) queue
            (cq_unmask_write_lem host t c val (ap (λ (q : EnaCq). q.used) queue ∙ used)
              (at_queue (λ q. (q.intr_enabled && ltb q.msix_vector msix_vectors) ≡ true) ints) on
              (at_queue
                (λ q. ((t.irq q.msix_vector).rx_pending || (t.irq q.msix_vector).tx_pending) ≡ true)
                wait.0.pending)
              (at_queue (λ q. (update_delays host (t.irq q.msix_vector) val).rx_delay_us ≡ 0)
                ((update_delays-same (t.irq v) val wait.0).0 ∙ rx))
              (at_queue (λ q. (update_delays host (t.irq q.msix_vector) val).tx_delay_us ≡ 0)
                ((update_delays-same (t.irq v) val wait.0).1 ∙ tx)))
