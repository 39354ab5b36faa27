-- ===== src/Tx/Total.antt =====
-- The loop of `ena_tx_doorbell` of hw/ena_tx.c.
use ena.Base.{
  none, zero, suc, some, Total-ok, suc, ◌≢◌, Option, ap, ok, ==_iff, Outcome, ℕ, ◌≤◌, true, ◌≡◌,
  sym, subst, ◌∙◌, arith, le-leb, sub16, if_both, Total, Total-bind, Total-map, check-Total,
}
use ena.Host.{Host}
use ena.Device.{EnaState}
use ena.Invariant.{core, IsValidCore, IsValid}
use ena.Invariant.Queues.{OnlyCqs-trans, OnlyCqs-core, KeptCqs, cq_push-IsValid, core-cq_intr}
use ena.Tx.{EnaTxPkt, slot_entries}
use ena.Tx.Xmit.{first_desc}
use ena.Tx.Xmitted.{xmitted, complete_packet, tx_packet-complete_packet}
use ena.Tx.Doorbell.{
  tx_doorbell, tx_drain, tx_round, discard, store_meta, advance_head, tx_complete, tx_packet,
  tx_req_id,
}
use ena.Tx.Parse.{tx_parse-IsParsed, OnSome, IsParsed, core-xmitted}
use ena.Tx.Moved.{
  replaced-Moved, Moved-refl, Moved, Moved-trans, store_meta-Moved, advance_head-Moved, entries-eq,
  OnlyCqs-Moved,
}

module _ (host : Host) where
  -- A completion is posted without a failed assertion.
  tx_complete-KeptCqs :
      (s : EnaState) (i req_id : ℕ)
      → IsValid s
      → (s.sq i).used ≡ true
      → Total (KeptCqs s) (tx_complete host s i req_id)
  unfolding tx_complete core
  tx_complete-KeptCqs s i req_id v u =
      check-Total (KeptCqs s) _ _ (le-leb (v.cqs _ used).entry_high) (
        Total-bind (KeptCqs s) (KeptCqs s) _ _ (cq_push-IsValid s (s.sq i).cq_idx _ v used)
          (λ t kept. (
            subst IsValidCore (sym (core-cq_intr host t _ true)) kept.0,
            OnlyCqs-trans kept.1 (OnlyCqs-core (core-cq_intr host t _ true)),
          )))
    where
      used : (s.cq (s.sq i).cq_idx).used ≡ true
      used = (v.sqs i u).cq_used

  -- A parsed packet moves its queue on by its entries.
  pub tx_packet-Moved :
      (s : EnaState) (i : ℕ) (p : EnaTxPkt)
      → IsValid s
      → (s.sq i).used ≡ true
      → IsParsed (s.sq i) (sub16 (s.sq i).tail (s.sq i).head) p
      → Total
          (λ t. Moved (core s) i (slot_entries (s.sq i) p.slots) (core t))
          (tx_packet host s i p)
  unfolding complete_packet core
  tx_packet-Moved s i p v u parsed =
      rw (tx_packet-complete_packet host s i p parsed.some_slot)
        (if_both (Total Sent) _ (λ _. completed) (λ _. sent))
    where
      n : ℕ
      n = slot_entries (s.sq i) p.slots

      Sent : EnaState → Type 0
      Sent t = Moved (core s) i n (core t)

      s1 : EnaState
      s1 = store_meta s i p

      s2 : EnaState
      s2 = xmitted host s1 i p

      s3 : EnaState
      s3 = advance_head s2 i p.slots

      kept : Moved (core s) i 0 (core s2)
      kept =
          subst (Moved (core s) i 0) (sym (core-xmitted host s1 i p)) (store_meta-Moved s i p v u)

      same : slot_entries (s2.sq i) p.slots ≡ n
      same = entries-eq (s2.sq i) (s.sq i) p.slots kept.llq_eq kept.entry_eq

      adv : Moved (core s2) i (slot_entries (s2.sq i) p.slots) (core s3)
      adv =
          advance_head-Moved s2 i p.slots kept.valid (kept.used_eq ∙ u)
            (omega (arith, same, parsed.within, kept.head_eq, kept.tail_eq, (v.sqs i u).head_in))

      sent : Moved (core s) i n (core s3)
      sent =
          subst (λ k. Moved (core s) i k (core s3)) (omega (arith, same))
            (Moved-trans i 0 _ kept adv)

      completed : Total Sent (tx_complete host s3 i (tx_req_id (first_desc p)))
      completed =
          Total-map (KeptCqs s3) Sent _ (tx_complete-KeptCqs s3 i _ sent.valid (sent.used_eq ∙ u))
            (λ t k.
              subst (λ k. Moved (core s) i k (core t)) (omega arith)
                (Moved-trans i n 0 sent
                  (OnlyCqs-Moved s3 t i (sent.used_eq ∙ u) sent.valid k.0 k.1)))

-- All the posted entries are taken.
abbrev pub Drained : EnaState → ℕ → EnaState → Type 0
Drained s i t = Moved (core s) i (sub16 (s.sq i).tail (s.sq i).head) (core t)

discard-Drained :
    (s : EnaState) (i : ℕ) → IsValid s → (s.sq i).used ≡ true → Drained s i (discard s i)
unfolding core
discard-Drained s i v u =
    replaced-Moved (core s) i (sub16 (s.sq i).tail (s.sq i).head) _ v u (omega arith)
      (s.sq i).tx_meta
      (ap (λ h. record (s.sq i) { head = h })
        (omega (arith, (v.sqs i u).head_in, (v.sqs i u).tail_in)))

already-Drained :
    (s : EnaState) (i : ℕ)
    → IsValid s
    → (s.sq i).used ≡ true
    → (s.sq i).head ≡ (s.sq i).tail
    → Drained s i s
unfolding core
already-Drained s i v u e =
    subst (λ k. Moved (core s) i k (core s)) (omega (arith, e)) (Moved-refl (core s) i v u)

-- What is left of the fuel after a packet is enough for the rest.
then-Drained :
    (s t t' : EnaState) (i k : ℕ)
    → IsValid s
    → (s.sq i).used ≡ true
    → k ≤ sub16 (s.sq i).tail (s.sq i).head
    → Moved (core s) i k (core t)
    → Drained t i t'
    → Drained s i t'
unfolding core
then-Drained s t t' i k v u le a b =
    subst (λ k. Moved (core s) i k (core t'))
      (omega (arith, le, a.head_eq, a.tail_eq, (v.sqs i u).head_in, (v.sqs i u).tail_in))
      (Moved-trans i k _ a b)

module _ (host : Host) where
  tx_round-Drained :
      (next : EnaState → Outcome EnaState) (s : EnaState) (i fuel : ℕ) (o : Option EnaTxPkt)
      → ((t : EnaState)
          → IsValid t
          → (t.sq i).used ≡ true
          → sub16 (t.sq i).tail (t.sq i).head ≤ fuel
          → Total (Drained t i) (next t))
      → IsValid s
      → (s.sq i).used ≡ true
      → sub16 (s.sq i).tail (s.sq i).head ≤ suc fuel
      → OnSome (IsParsed (s.sq i) (sub16 (s.sq i).tail (s.sq i).head)) o
      → Total (Drained s i) (tx_round host next s i o)
  unfolding tx_round core
  tx_round-Drained next s i fuel none ih v u le parsed = discard-Drained s i v u
  tx_round-Drained next s i fuel (some p) ih v u le parsed =
      if_both (Total (Drained s i)) _ (λ _. discard-Drained s i v u)
        (λ _.
          Total-bind (λ t. Moved (core s) i n (core t)) (Drained s i) _ next
            (tx_packet-Moved host s i p v u parsed)
            (λ t m.
              Total-map (Drained t i) (Drained s i) _
                (ih t m.valid (m.used_eq ∙ u) (
                  omega (
                    arith,
                    le,
                    parsed.within,
                    parsed.some_entry,
                    m.head_eq,
                    m.tail_eq,
                    (v.sqs i u).head_in,
                  )))
                (λ t' d. then-Drained s t t' i n v u parsed.within m d)))
    where
      n : ℕ
      n = slot_entries (s.sq i) p.slots

  -- The loop returns when its fuel is at least the number of entries posted.
  tx_drain-Drained :
      (fuel : ℕ) (s : EnaState) (i : ℕ)
      → IsValid s
      → (s.sq i).used ≡ true
      → sub16 (s.sq i).tail (s.sq i).head ≤ fuel
      → Total (Drained s i) (tx_drain host fuel s i)
  unfolding tx_drain core
  tx_drain-Drained zero s i v u le =
      if_both (Total (Drained s i)) _ (λ e. already-Drained s i v u ((==_iff _ _).0 e))
        (λ e. absurd (ground (arith, le, e, (v.sqs i u).head_in, (v.sqs i u).tail_in)))
  tx_drain-Drained (suc fuel) s i v u le =
      if_both (Total (Drained s i)) _ (λ e. already-Drained s i v u ((==_iff _ _).0 e))
        (λ e.
          tx_round-Drained _ s i fuel _ (λ t. tx_drain-Drained fuel t i) v u le
            (tx_parse-IsParsed host s i))

  pub tx_doorbell-Drained :
      (s : EnaState) (i : ℕ)
      → IsValid s
      → (s.sq i).used ≡ true
      → (s.sq i).is_tx ≡ true
      → Total (Drained s i) (tx_doorbell host s i)
  unfolding tx_doorbell core
  tx_doorbell-Drained s i v u is_tx = check-Total (Drained s i) _ _ is_tx (
      if_both (Total (Drained s i)) _ (λ e. absurd (ground (arith, (v.sqs i u).cq_used, e)))
        (λ _. tx_drain-Drained _ s i v u (omega arith)))

  -- A doorbell on a used TX queue of a well-formed device returns, with every posted entry taken
  -- (head meets the tail), the device well-formed, and the other submission queues as they were:
  -- no assertion fails, nothing aborts, and the loop ends.
  pub tx_doorbell_lem :
      (s : EnaState) (i : ℕ)
      → IsValid s
      → (s.sq i).used ≡ true
      → (s.sq i).is_tx ≡ true
      → (s' : EnaState) × (tx_doorbell host s i ≡ ok s')
        × IsValid s'
        × ((s'.sq i).head ≡ (s.sq i).tail)
        × ((s'.sq i).tail ≡ (s.sq i).tail)
        × ((j : ℕ) → j ≢ i → s'.sq j ≡ s.sq j)
  unfolding core
  tx_doorbell_lem s i v u is_tx =
      let r = Total-ok (Drained s i) _ (tx_doorbell-Drained s i v u is_tx) in
      let m = r.2 in
      (
        r.0,
        r.1,
        m.valid,
        omega (arith, m.head_eq, (v.sqs i u).head_in, (v.sqs i u).tail_in),
        m.tail_eq,
        m.others,
      )
