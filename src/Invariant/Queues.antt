-- ===== src/Invariant/Queues.antt =====
-- Completions and interrupts of hw/ena.c over well-formed devices: `ena_cq_push`, `ena_cq_intr` and
-- `ena_cq_unmask_write`.
use ena.Base.{
  has, ==_iff, false, update, ℕ, ◌+◌, Bool, true, List, ok, ◌≡◌, refl, ap, ◌∙◌, take, Total,
  if_both, ◌==◌,
}
use ena.Host.{Host, Event}
use ena.Device.{EnaState, EnaCq, EnaIrq, log, set_cq, set_irq, dma_write_bytes}
use ena.Cq.{cq_advance, cq_slot_addr, cq_push}
use ena.Cq.Ring.{cq_advance-HasTaken}
use ena.Irq.{
  update_delays, admin_intr, irq_fire, irq_schedule, cq_intr, cq_unmask_write, schedule_rx,
  schedule_tx,
}
use ena.Device.Layout.{intr_unmask}
use ena.Invariant.{IsValid, IsValidCq, core, Keeps, set_cq-IsValid, Keeps-update}

cq_advance-IsValidCq : (q : EnaCq) → IsValidCq q → IsValidCq (cq_advance q)
unfolding cq_advance
cq_advance-IsValidCq q v = record {
  depth_in = v.depth_in;
  entry_low = v.entry_low;
  entry_high = v.entry_high;
  count = v.count + 1;
  taken = cq_advance-HasTaken v.count v.taken;
}

cq_advance-Keeps : (q : EnaCq) → Keeps q (cq_advance q)
unfolding cq_advance
cq_advance-Keeps q = (refl, refl, refl)

-- Only completion queues, counters and interrupts have changed between two states.
pub record OnlyCqs (s s' : EnaState) : Type 0 where
  pub sq_same : s'.sq ≡ s.sq
  pub mtu_same : s'.mtu ≡ s.mtu
  pub used_same : (j : ℕ) → (s'.cq j).used ≡ (s.cq j).used

pub OnlyCqs-trans : {s t u : EnaState} → OnlyCqs s t → OnlyCqs t u → OnlyCqs s u
OnlyCqs-trans a b = record {
  sq_same = b.sq_same ∙ a.sq_same;
  mtu_same = b.mtu_same ∙ a.mtu_same;
  used_same = λ j. b.used_same j ∙ a.used_same j;
}

pub OnlyCqs-core : {s s' : EnaState} → core s' ≡ core s → OnlyCqs s s'
unfolding core
OnlyCqs-core e = record {
  sq_same = ap (λ c. c.sq) e;
  mtu_same = ap (λ c. c.mtu) e;
  used_same = λ j. ap (λ c. (c.cq j).used) e;
}

abbrev pub KeptCqs : EnaState → EnaState → Type 0
KeptCqs s s' = IsValid s' × OnlyCqs s s'

-- The state after a push to queue `c`
abbrev pub pushed : EnaState → ℕ → List ℕ → EnaState
pushed s c cdesc =
    set_cq (dma_write_bytes s (cq_slot_addr (s.cq c)) (take (s.cq c).entry_size cdesc)) c
      (cq_advance (s.cq c))

pub cq_push-eq :
    (s : EnaState) (c : ℕ) (cdesc : List ℕ)
    → (s.cq c).used ≡ true
    → cq_push s c cdesc ≡ ok (pushed s c cdesc)
unfolding cq_push cq_advance cq_slot_addr
cq_push-eq s c cdesc u = rw u

pub pushed-KeptCqs :
    (s : EnaState) (c : ℕ) (cdesc : List ℕ)
    → IsValid s
    → (s.cq c).used ≡ true
    → KeptCqs s (pushed s c cdesc)
unfolding core
pushed-KeptCqs s c cdesc v u = (
  set_cq-IsValid (core s) c (cq_advance q) (λ _. cq_advance-IsValidCq q (v.cqs c u))
      (λ j _ _. cq_advance-Keeps q) v,
  record {
    sq_same = refl;
    mtu_same = refl;
    used_same = λ j. (Keeps-update s.cq c (cq_advance q) j (λ _. cq_advance-Keeps q)).0;
  },
)
  where
    q : EnaCq
    q = s.cq c

-- A push to a used queue returns, and keeps the state well-formed.
pub cq_push-IsValid :
    (s : EnaState) (c : ℕ) (cdesc : List ℕ)
    → IsValid s
    → (s.cq c).used ≡ true
    → Total (KeptCqs s) (cq_push s c cdesc)
cq_push-IsValid s c cdesc v u = rw (cq_push-eq s c cdesc u) (pushed-KeptCqs s c cdesc v u)

pub core-log : (s : EnaState) (e : Event) → core (log s e) ≡ core s
unfolding core
core-log s e = refl

-- A vector that keeps its number
core-set_irq :
    (s : EnaState) (v : ℕ) (q : EnaIrq)
    → q.vector ≡ (s.irq v).vector
    → core (set_irq s v q) ≡ core s
unfolding core
core-set_irq s v q e = λ i. record (core s) { vector = λ j. same j i }
  where
    same : (j : ℕ) → (update s.irq v q j).vector ≡ (s.irq j).vector
    same j =
        if_both (λ (r : EnaIrq). r.vector ≡ (s.irq j).vector) (v == j)
          (λ f. e ∙ ap (λ k. (s.irq k).vector) ((==_iff v j).0 f)) (λ _. refl)

pub core-irq_fire : (s : EnaState) (v : ℕ) → core (irq_fire s v) ≡ core s
unfolding core irq_fire
core-irq_fire s v =
    core-set_irq s v (record (s.irq v) { unmasked = false; rx_pending = false; tx_pending = false })
      refl

core-irq_schedule : (host : Host) (s : EnaState) (v d : ℕ) → core (irq_schedule host s v d) ≡ core s
unfolding irq_schedule
core-irq_schedule host s v d =
    if_both (λ t. core t ≡ core s) (d == 0) (λ _. core-irq_fire s v) (λ _. core-log s _)

-- An interrupt changes nothing that the invariant reads.
pub core-cq_intr :
    (host : Host) (s : EnaState) (c : ℕ) (is_tx : Bool) → core (cq_intr host s c is_tx) ≡ core s
unfolding cq_intr
core-cq_intr host s c is_tx =
    if_both (λ t. core t ≡ core s) _ (λ _. refl)
      (λ _.
        if_both (λ t. core t ≡ core s) _
          (λ _. core-set_irq s _ _ (
            if_both (λ (r : EnaIrq). r.vector ≡ (s.irq (s.cq c).msix_vector).vector) is_tx
              (λ _. refl) (λ _. refl)))
          (λ _. core-irq_schedule host s _ _))

pub core-admin_intr : (s : EnaState) → core (admin_intr s) ≡ core s
unfolding admin_intr
core-admin_intr s = if_both (λ t. core t ≡ core s) _ (λ _. refl) (λ _. core-log s _)

core-schedule_rx : (host : Host) (s : EnaState) (v : ℕ) → core (schedule_rx host s v) ≡ core s
unfolding schedule_rx
core-schedule_rx host s v =
    if_both (λ t. core t ≡ core s) _ (λ _. core-irq_schedule host s v _) (λ _. refl)

core-schedule_tx : (host : Host) (s : EnaState) (v : ℕ) → core (schedule_tx host s v) ≡ core s
unfolding schedule_tx
core-schedule_tx host s v =
    if_both (λ t. core t ≡ core s) _ (λ _. core-irq_schedule host s v _) (λ _. refl)

-- Re-arming a vector changes nothing that the invariant reads.
pub core-cq_unmask_write :
    (host : Host) (s : EnaState) (c val : ℕ) → core (cq_unmask_write host s c val) ≡ core s
unfolding cq_unmask_write update_delays
core-cq_unmask_write host s c val =
    if_both (λ t. core t ≡ core s) _ (λ _. refl)
      (λ _.
        if_both (λ t. core t ≡ core s) _ (λ _. core-log _ _ ∙ renumbered)
          (λ _. core-schedule_tx host _ _ ∙ core-schedule_rx host _ _ ∙ renumbered))
  where
    v : ℕ
    v = (s.cq c).msix_vector

    q : EnaIrq
    q = record (update_delays host (s.irq v) val) { unmasked = has val intr_unmask }

    renumbered : core (set_irq s v q) ≡ core s
    renumbered =
        core-set_irq s v q
          (if_both (λ (r : EnaIrq). r.vector ≡ (s.irq v).vector) _ (λ _. refl) (λ _. refl))
