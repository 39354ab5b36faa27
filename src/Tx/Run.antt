-- ===== src/Tx/Run.antt =====
-- One run of the loop of `ena_tx_doorbell` of hw/ena_tx.c as the sequence of its packets and their
-- completions.
use ena.Base.{
  ℕ, zero, suc, ◌+◌, ◌≤◌, ◌∷◌, List, true, false, Option, none, some, Outcome, ◌≡◌, ◌⊎◌, inl, inr,
  refl, sym, ap, subst, ◌∙◌, arith, ==_iff, sub16, has, length, if_both, Total, Total-bind,
  Total-map, Total-both, check-Total,
}
use ena.Base.Wrap.{lap_phase}
use ena.Host.{Host, dma_write}
use ena.Device.{EnaState}
use ena.Device.Layout.{tx_comp_req}
use ena.Irq.{cq_intr}
use ena.Invariant.{core, IsValid, IsValidCq}
use ena.Invariant.Queues.{core-cq_intr}
use ena.Cq.Ring.{slot_of, HasTaken}
use ena.Tx.{EnaTxPkt, slot_entries, tx_parse}
use ena.Tx.Xmit.{first_desc}
use ena.Tx.Xmitted.{sent_packet, complete_packet, tx_packet-complete_packet}
use ena.Tx.Doorbell.{tx_doorbell, tx_drain, tx_round, discard, tx_complete, tx_packet, tx_req_id}
use ena.Tx.Parse.{tx_parse-IsParsed, OnSome, IsParsed}
use ena.Tx.Moved.{Moved}
use ena.Tx.Total.{tx_packet-Moved}
use ena.Tx.Completion.{Tells, tx_complete_lem}
use ena.Tx.Count.{xmit-cq, xmit-cq_idx}

-- The completion of request `req_id` of queue `i` is entry number `n` of completion queue `c`; then
-- the interrupt of the queue is dealt with.
abbrev pub Completes : Host → (i c n req_id : ℕ) → EnaState → EnaState → Type 0
Completes host i c n req_id s t =
    (u : EnaState) × (b : List ℕ) × (t ≡ cq_intr host u c true)
    × (u.trace ≡ dma_write (slot_of (s.cq c) n) b ∷ s.trace)
    × Tells b req_id i (s.sq i).head (lap_phase (s.cq c).depth n)

module _ (host : Host) (i c : ℕ) where
  -- The packet is transmitted, and its entries are off the queue.
  abbrev pub transmitted : EnaState → EnaTxPkt → EnaState
  transmitted s p = sent_packet host s i p

  -- From the state `s` with `n` completions in the ring to the end of the loop with `m`
  pub data TxRun : EnaState → (n : ℕ) → EnaState → (m : ℕ) → Type 0 where
    -- nothing is posted
    drained : {s : EnaState} {n : ℕ} → (s.sq i).head ≡ (s.sq i).tail → TxRun s n s n
    -- the first packet is malformed: the whole burst is discarded
    malformed :
        {s : EnaState} {n : ℕ}
        → (tx_parse host s i ≡ none)
          ⊎ ((p : EnaTxPkt) × (tx_parse host s i ≡ some p) × (length p.desc ≡ 0))
        → TxRun s n (discard s i) n
    -- a packet that asks for no completion
    silent :
        {s t : EnaState} {n m : ℕ} (p : EnaTxPkt)
        → tx_parse host s i ≡ some p
        → has (first_desc p).len_ctrl tx_comp_req ≡ false
        → TxRun (transmitted s p) n t m
        → TxRun s n t m
    -- a packet that asks for a completion
    completed :
        {s t u : EnaState} {n m : ℕ} (p : EnaTxPkt)
        → tx_parse host s i ≡ some p
        → has (first_desc p).len_ctrl tx_comp_req ≡ true
        → Completes host i c n (tx_req_id (first_desc p)) (transmitted s p) t
        → TxRun t (n + 1) u m
        → TxRun s n u m

  -- What a packet does
  abbrev Step : EnaState → EnaTxPkt → (n : ℕ) → EnaState → Type 0
  Step s p n t =
      ((has (first_desc p).len_ctrl tx_comp_req ≡ false)
        × (t ≡ transmitted s p)
        × HasTaken (t.cq c) n)
      ⊎ ((has (first_desc p).len_ctrl tx_comp_req ≡ true)
          × Completes host i c n (tx_req_id (first_desc p)) (transmitted s p) t
          × HasTaken (t.cq c) (n + 1))

  tx_complete-Completes :
      (s : EnaState) (req_id n : ℕ)
      → (s.sq i).cq_idx ≡ c
      → IsValidCq (s.cq c)
      → (s.cq c).used ≡ true
      → HasTaken (s.cq c) n
      → Total
          (λ t. Completes host i c n req_id s t × HasTaken (t.cq c) (n + 1))
          (tx_complete host s i req_id)
  unfolding core
  tx_complete-Completes s req_id n e v u h =
      subst
        (λ c.
          IsValidCq (s.cq c)
          → (s.cq c).used ≡ true
          → HasTaken (s.cq c) n
          → Total (λ t. Completes host i c n req_id s t × HasTaken (t.cq c) (n + 1))
              (tx_complete host s i req_id))
        e
        (λ v u h.
          let (t, b, eq, more, written, tells) =
            tx_complete_lem host s i req_id n u v.entry_low v.entry_high h in
          subst
            (Total (λ t.
              Completes host i (s.sq i).cq_idx n req_id s t
              × HasTaken (t.cq (s.sq i).cq_idx) (n + 1)))
            (sym eq)
            (
              (t, b, refl, written, tells),
              subst (λ f. HasTaken (f (s.sq i).cq_idx) (n + 1))
                  (sym (ap (λ k. k.cq) (core-cq_intr host t (s.sq i).cq_idx true))) more,
            ))
        v u h

  tx_packet-Step :
      (s : EnaState) (p : EnaTxPkt) (n : ℕ)
      → IsValid s
      → (s.sq i).used ≡ true
      → (s.sq i).cq_idx ≡ c
      → HasTaken (s.cq c) n
      → 1 ≤ p.slots
      → Total (Step s p n) (tx_packet host s i p)
  unfolding complete_packet core
  tx_packet-Step s p n v u e h slot = rw (tx_packet-complete_packet host s i p slot) (
      if_both (Total (Step s p n)) _
        (λ on.
          Total-map _ (Step s p n) _
            (tx_complete-Completes s3 _ n (xmit-cq_idx host s i p ∙ e)
              (subst (λ f. IsValidCq (f c)) (sym same) (v.cqs c used))
              (ap (λ f. (f c).used) same ∙ used) taken)
            (λ t k. inr (on, k.0, k.1)))
        (λ off. inl (off, refl, taken)))
    where
      s3 : EnaState
      s3 = transmitted s p

      same : s3.cq ≡ s.cq
      same = xmit-cq host s i p

      used : (s.cq c).used ≡ true
      used = subst (λ k. (s.cq k).used ≡ true) e (v.sqs i u).cq_used

      taken : HasTaken (s3.cq c) n
      taken = subst (λ f. HasTaken (f c) n) (sym same) h

  -- A run from `s` that ends in `t`
  abbrev pub RanFrom : EnaState → (n : ℕ) → EnaState → Type 0
  RanFrom s n t = (m : ℕ) × TxRun s n t m × HasTaken (t.cq c) m

  -- A packet before a run: the completions that the run starts with, and the whole
  run_cons :
      {s t : EnaState} {n : ℕ} (p : EnaTxPkt)
      → tx_parse host s i ≡ some p
      → Step s p n t
      → (k : ℕ) × HasTaken (t.cq c) k × ((w : EnaState) → RanFrom t k w → RanFrom s n w)
  run_cons {s} {t} {n} p e (inl (off, eq, h)) =
      (n, h, λ w (m, run, taken). (m, silent p e off (subst (λ x. TxRun x n w m) eq run), taken))
  run_cons {s} {t} {n} p e (inr (on, done, h)) =
      (n + 1, h, λ w (m, run, taken). (m, completed p e on done run, taken))

  tx_round-RanFrom :
      (next : EnaState → Outcome EnaState) (s : EnaState) (n fuel : ℕ) (o : Option EnaTxPkt)
      → tx_parse host s i ≡ o
      → ((t : EnaState) (m : ℕ)
          → IsValid t
          → (t.sq i).used ≡ true
          → (t.sq i).cq_idx ≡ c
          → HasTaken (t.cq c) m
          → sub16 (t.sq i).tail (t.sq i).head ≤ fuel
          → Total (RanFrom t m) (next t))
      → IsValid s
      → (s.sq i).used ≡ true
      → (s.sq i).cq_idx ≡ c
      → HasTaken (s.cq c) n
      → sub16 (s.sq i).tail (s.sq i).head ≤ suc fuel
      → OnSome (IsParsed (s.sq i) (sub16 (s.sq i).tail (s.sq i).head)) o
      → Total (RanFrom s n) (tx_round host next s i o)
  unfolding tx_round core
  tx_round-RanFrom next s n fuel none e ih v u q h le parsed = (n, malformed (inl e), h)
  tx_round-RanFrom next s n fuel (some p) e ih v u q h le parsed =
      if_both (Total (RanFrom s n)) _ (λ z. (n, malformed (inr (p, e, (==_iff _ _).0 z)), h))
        (λ _.
          Total-bind (λ t. Moved (core s) i entries (core t) × Step s p n t) (RanFrom s n) _ next
            (Total-both (λ t. Moved (core s) i entries (core t)) (Step s p n) _
              (tx_packet-Moved host s i p v u parsed)
              (tx_packet-Step s p n v u q h parsed.some_slot))
            (λ t (m, step).
              let (k, taken, whole) = run_cons p e step in
              Total-map (RanFrom t k) (RanFrom s n) _
                (ih t k m.valid (m.used_eq ∙ u) (m.cq_idx_eq ∙ q) taken (
                  omega (
                    arith,
                    le,
                    parsed.within,
                    parsed.some_entry,
                    m.head_eq,
                    m.tail_eq,
                    (v.sqs i u).head_in,
                  )))
                whole))
    where
      entries : ℕ
      entries = slot_entries (s.sq i) p.slots

  tx_drain-RanFrom :
      (fuel : ℕ) (s : EnaState) (n : ℕ)
      → IsValid s
      → (s.sq i).used ≡ true
      → (s.sq i).cq_idx ≡ c
      → HasTaken (s.cq c) n
      → sub16 (s.sq i).tail (s.sq i).head ≤ fuel
      → Total (RanFrom s n) (tx_drain host fuel s i)
  unfolding tx_drain core
  tx_drain-RanFrom zero s n v u q h le =
      if_both (Total (RanFrom s n)) _ (λ e. (n, drained ((==_iff _ _).0 e), h))
        (λ e. absurd (ground (arith, le, e, (v.sqs i u).head_in, (v.sqs i u).tail_in)))
  tx_drain-RanFrom (suc fuel) s n v u q h le =
      if_both (Total (RanFrom s n)) _ (λ e. (n, drained ((==_iff _ _).0 e), h))
        (λ e.
          tx_round-RanFrom _ s n fuel _ refl (λ t m. tx_drain-RanFrom fuel t m) v u q h le
            (tx_parse-IsParsed host s i))

-- A TX doorbell on a used queue of a well-formed device takes the posted packets one by one, from
-- the head: each is transmitted and its entries are taken off the queue; if its first descriptor
-- asks for it, its completion is posted before the next packet is looked at, in the next slot of
-- the ring, with the phase of the lap, the packet's request id and the queue's new head. It ends
-- when nothing is posted, or at a malformed packet, with which the whole burst is discarded.
pub tx_doorbell-RanFrom :
    (host : Host) (s : EnaState) (i n : ℕ)
    → IsValid s
    → (s.sq i).used ≡ true
    → (s.sq i).is_tx ≡ true
    → HasTaken (s.cq (s.sq i).cq_idx) n
    → Total (RanFrom host i (s.sq i).cq_idx s n) (tx_doorbell host s i)
unfolding tx_doorbell core
tx_doorbell-RanFrom host s i n v u is_tx h = check-Total R _ _ is_tx (
    if_both (Total R) _ (λ e. absurd (ground (arith, (v.sqs i u).cq_used, e)))
      (λ _. tx_drain-RanFrom host i (s.sq i).cq_idx _ s n v u refl h (omega arith)))
  where
    R : EnaState → Type 0
    R = RanFrom host i (s.sq i).cq_idx s n
