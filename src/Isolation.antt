-- ===== src/Isolation.antt =====
-- What the work on one queue can reach in `EnaState` (hw/ena.h): the queue, the completion queue it
-- reports to and the vector of that, and no other.
pub mod Sending
pub mod Doorbell
pub mod Frame
pub mod Confined
pub mod Commands
use ena.Base.{
  ◌==◌, check-Returns, Returns, ℕ, Bool, List, Outcome, ok, check, true, false, ◌≡◌, ◌≢◌, ◌>>=◌,
  ◌>>◌, refl, sym, ap, subst, ◌∙◌, update_self, update-ne, update, if_both, take, u16,
}
use ena.Host.{moder, timer_del, Host, Event}
use ena.Device.{dma_write_bytes, EnaState, EnaSq, EnaCq, EnaIrq, log, set_sq, set_cq, set_irq}
use ena.Invariant.Queues.{pushed}
use ena.Irq.{irq_fire, irq_schedule, cq_intr}
use ena.Cq.{cq_push, cq_advance, cq_slot_addr}

-- Only counters and the trace differ.
pub record Quiet (s t : EnaState) : Type 0 where
  pub only : t ≡ record s {
    tx_pkts = t.tx_pkts;
    tx_bytes = t.tx_bytes;
    rx_pkts = t.rx_pkts;
    rx_bytes = t.rx_bytes;
    rx_drops = t.rx_drops;
    tx_drops = t.tx_drops;
    trace = t.trace;
  }

pub Quiet-refl : (s : EnaState) → Quiet s s
Quiet-refl s = record { only = refl }

pub Quiet-log : (s : EnaState) (e : Event) → Quiet s (log s e)
Quiet-log s e = record { only = refl }

pub Quiet-trans : (s t u : EnaState) → Quiet s t → Quiet t u → Quiet s u
Quiet-trans s t u a b = record {
  only =
      b.only
      ∙ ap
          (λ (x : EnaState). record x {
            tx_pkts = u.tx_pkts;
            tx_bytes = u.tx_bytes;
            rx_pkts = u.rx_pkts;
            rx_bytes = u.rx_bytes;
            rx_drops = u.rx_drops;
            tx_drops = u.tx_drops;
            trace = u.trace;
          })
          a.only;
}

-- Queue `i` reports to completion queue `c`, which signals vector `v`.
abbrev pub Wired : (i c v : ℕ) → EnaState → Type 0
Wired i c v s = ((s.sq i).cq_idx ≡ c) × ((s.cq c).msix_vector ≡ v)

-- From `s` to `t`, work on queue `i` has moved the positions and the cached metadata of that queue,
-- the tail and phase of completion queue `c`, the mask and pending bits of vector `v`, the counters
-- and the trace, and nothing else.
pub record Within (i c v : ℕ) (s t : EnaState) : Type 0 where
  pub only : t ≡ record s {
    sq = t.sq;
    cq = t.cq;
    irq = t.irq;
    tx_pkts = t.tx_pkts;
    tx_bytes = t.tx_bytes;
    rx_pkts = t.rx_pkts;
    rx_bytes = t.rx_bytes;
    rx_drops = t.rx_drops;
    tx_drops = t.tx_drops;
    trace = t.trace;
  }
  pub sqs : (j : ℕ) → j ≢ i → t.sq j ≡ s.sq j
  pub own_sq :
      t.sq i
      ≡ record (s.sq i) { head = (t.sq i).head; tail = (t.sq i).tail; tx_meta = (t.sq i).tx_meta }
  pub cqs : (k : ℕ) → k ≢ c → t.cq k ≡ s.cq k
  pub own_cq : t.cq c ≡ record (s.cq c) { tail = (t.cq c).tail; phase = (t.cq c).phase }
  pub irqs : (k : ℕ) → k ≢ v → t.irq k ≡ s.irq k
  pub own_irq : t.irq v ≡ record (s.irq v) {
    unmasked = (t.irq v).unmasked;
    rx_pending = (t.irq v).rx_pending;
    tx_pending = (t.irq v).tx_pending;
  }

module _ (i c v : ℕ) where
  pub Within-Wired : (s t : EnaState) → Within i c v s t → Wired i c v s → Wired i c v t
  Within-Wired s t p w = (
    ap (λ (q : EnaSq). q.cq_idx) p.own_sq ∙ w.0,
    ap (λ (q : EnaCq). q.msix_vector) p.own_cq ∙ w.1,
  )

  pub Within-trans : (s t u : EnaState) → Within i c v s t → Within i c v t u → Within i c v s u
  Within-trans s t u a b = record {
    only =
        b.only
        ∙ ap
            (λ (x : EnaState). record x {
              sq = u.sq;
              cq = u.cq;
              irq = u.irq;
              tx_pkts = u.tx_pkts;
              tx_bytes = u.tx_bytes;
              rx_pkts = u.rx_pkts;
              rx_bytes = u.rx_bytes;
              rx_drops = u.rx_drops;
              tx_drops = u.tx_drops;
              trace = u.trace;
            })
            a.only;
    sqs = λ j ne. b.sqs j ne ∙ a.sqs j ne;
    own_sq =
        b.own_sq
        ∙ ap
            (λ (q : EnaSq). record q {
              head = (u.sq i).head;
              tail = (u.sq i).tail;
              tx_meta = (u.sq i).tx_meta;
            })
            a.own_sq;
    cqs = λ k ne. b.cqs k ne ∙ a.cqs k ne;
    own_cq =
        b.own_cq
        ∙ ap (λ (q : EnaCq). record q { tail = (u.cq c).tail; phase = (u.cq c).phase }) a.own_cq;
    irqs = λ k ne. b.irqs k ne ∙ a.irqs k ne;
    own_irq =
        b.own_irq
        ∙ ap
            (λ (q : EnaIrq). record q {
              unmasked = (u.irq v).unmasked;
              rx_pending = (u.irq v).rx_pending;
              tx_pending = (u.irq v).tx_pending;
            })
            a.own_irq;
  }

  pub Quiet-Within : (s t : EnaState) → Quiet s t → Within i c v s t
  Quiet-Within s t q = subst (Within i c v s) (sym q.only) record {
    only = refl;
    sqs = λ j ne. refl;
    own_sq = refl;
    cqs = λ k ne. refl;
    own_cq = refl;
    irqs = λ k ne. refl;
    own_irq = refl;
  }

  -- The queue's own positions and metadata are replaced.
  pub set_sq-Within :
      (s : EnaState) (q : EnaSq)
      → q ≡ record (s.sq i) { head = q.head; tail = q.tail; tx_meta = q.tx_meta }
      → Within i c v s (set_sq s i q)
  set_sq-Within s q e = record {
    only = refl;
    sqs = λ j ne. update-ne s.sq i q j ne;
    own_sq = rw (update_self s.sq i q) e;
    cqs = λ k ne. refl;
    own_cq = refl;
    irqs = λ k ne. refl;
    own_irq = refl;
  }

  set_cq-Within :
      (s : EnaState) (q : EnaCq)
      → q ≡ record (s.cq c) { tail = q.tail; phase = q.phase }
      → Within i c v s (set_cq s c q)
  set_cq-Within s q e = record {
    only = refl;
    sqs = λ j ne. refl;
    own_sq = refl;
    cqs = λ k ne. update-ne s.cq c q k ne;
    own_cq = rw (update_self s.cq c q) e;
    irqs = λ k ne. refl;
    own_irq = refl;
  }

  set_irq-Within :
      (s : EnaState) (q : EnaIrq)
      → q ≡ record (s.irq v) {
        unmasked = q.unmasked;
        rx_pending = q.rx_pending;
        tx_pending = q.tx_pending;
      }
      → Within i c v s (set_irq s v q)
  set_irq-Within s q e = record {
    only = refl;
    sqs = λ j ne. refl;
    own_sq = refl;
    cqs = λ k ne. refl;
    own_cq = refl;
    irqs = λ k ne. update-ne s.irq v q k ne;
    own_irq = rw (update_self s.irq v q) e;
  }

  -- A completion of the queue stays within its reach.
  pub cq_push-Within :
      (s : EnaState) (cdesc : List ℕ) → Returns (Within i c v s) (cq_push s c cdesc)
  unfolding cq_push cq_advance cq_slot_addr
  cq_push-Within s cdesc =
      let s1 = dma_write_bytes s (cq_slot_addr (s.cq c)) (take (s.cq c).entry_size cdesc) in
      check-Returns (Within i c v s) (s.cq c).used (ok (pushed s c cdesc)) (
        Within-trans s s1 _ (Quiet-Within s s1 (Quiet-log s _))
          (set_cq-Within s1 (cq_advance (s.cq c)) refl))

  module _ (host : Host) where
    irq_schedule-Within : (s : EnaState) (delay : ℕ) → Within i c v s (irq_schedule host s v delay)
    unfolding irq_schedule irq_fire
    irq_schedule-Within s delay =
        let s1 = log s (timer_del (moder v)) in
        let quiet = record (s.irq v) { unmasked = false; rx_pending = false; tx_pending = false } in
        if_both (Within i c v s) (delay == 0)
          (λ _. Within-trans s s1 _ (Quiet-Within s s1 (Quiet-log s _)) (
            Within-trans s1 (set_irq s1 v quiet) _ (set_irq-Within s1 quiet refl)
              (Quiet-Within (set_irq s1 v quiet) _ (Quiet-log _ _))))
          (λ _. Quiet-Within s _ (Quiet-log s _))

    -- So does its interrupt.
    pub cq_intr-Within :
        (s : EnaState) (is_tx : Bool) → Wired i c v s → Within i c v s (cq_intr host s c is_tx)
    unfolding cq_intr
    cq_intr-Within s is_tx w = rw (w.1) (
        if_both (Within i c v s) _ (λ _. Quiet-Within s s (Quiet-refl s))
          (λ _.
            if_both (Within i c v s) _
              (λ _. set_irq-Within s _ (
                if_both
                  (λ (q : EnaIrq). q ≡ record (s.irq v) {
                    unmasked = q.unmasked;
                    rx_pending = q.rx_pending;
                    tx_pending = q.tx_pending;
                  })
                  is_tx (λ _. refl) (λ _. refl)))
              (λ _. irq_schedule-Within s _)))
