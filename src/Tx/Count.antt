-- ===== src/Tx/Count.antt =====
-- How many completions one TX doorbell posts: `ena_tx_doorbell` of hw/ena_tx.c against the ring that
-- it completes to.
use ena.Base.{
  u16, update_self, ℕ, zero, suc, ◌+◌, ◌≤◌, true, Option, none, some, Outcome, ◌≡◌, refl, sym, ap,
  subst, ◌∙◌, arith, sub16, if_both, Total, Total-bind, Total-map, Total-both, check-Total,
}
use ena.Host.{Host}
use ena.Device.{EnaState}
use ena.Invariant.{IsValidSq, core, IsValid, IsValidCq}
use ena.Invariant.Queues.{core-cq_intr}
use ena.Cq.Ring.{HasTaken}
use ena.Tx.{EnaTxPkt, slot_entries}
use ena.Tx.Xmitted.{xmitted, sent_packet, complete_packet, tx_packet-complete_packet}
use ena.Tx.Doorbell.{
  tx_doorbell, tx_drain, tx_round, discard, store_meta, advance_head, tx_complete, tx_packet,
}
use ena.Tx.Parse.{tx_parse-IsParsed, OnSome, IsParsed, core-xmitted}
use ena.Tx.Moved.{Moved}
use ena.Tx.Total.{tx_packet-Moved}
use ena.Tx.Completion.{tx_complete_lem}

-- Completion queue `c` has taken at most `most` entries more than `n`.
abbrev pub Grown : (c n most : ℕ) → EnaState → Type 0
Grown c n most t = (k : ℕ) × (k ≤ most) × HasTaken (t.cq c) (n + k)

still : (c n most : ℕ) (t : EnaState) → HasTaken (t.cq c) n → Grown c n most t
still c n most t h = (0, omega arith, subst (HasTaken (t.cq c)) (omega arith) h)

store_meta-cq : (s : EnaState) (i : ℕ) (p : EnaTxPkt) → (store_meta s i p).cq ≡ s.cq
store_meta-cq s i p = if_both (λ (t : EnaState). t.cq ≡ s.cq) p.have_meta (λ _. refl) (λ _. refl)

store_meta-cq_idx :
    (s : EnaState) (i : ℕ) (p : EnaTxPkt) → ((store_meta s i p).sq i).cq_idx ≡ (s.sq i).cq_idx
store_meta-cq_idx s i p =
    if_both (λ (t : EnaState). (t.sq i).cq_idx ≡ (s.sq i).cq_idx) p.have_meta
      (λ _. ap (λ q. q.cq_idx) (update_self s.sq i (record (s.sq i) { tx_meta = p.tx_meta })))
      (λ _. refl)

module _ (host : Host) where
  pub xmit-cq :
      (s : EnaState) (i : ℕ) (p : EnaTxPkt) → (xmitted host (store_meta s i p) i p).cq ≡ s.cq
  unfolding core
  xmit-cq s i p = ap (λ c. c.cq) (core-xmitted host (store_meta s i p) i p) ∙ store_meta-cq s i p

  pub xmit-cq_idx :
      (s : EnaState) (i : ℕ) (p : EnaTxPkt)
      → ((sent_packet host s i p).sq i).cq_idx ≡ (s.sq i).cq_idx
  unfolding core
  xmit-cq_idx s i p =
      ap (λ q. q.cq_idx)
        (update_self s2.sq i
          (record (s2.sq i) { head = u16 ((s2.sq i).head + slot_entries (s2.sq i) p.slots) }))
      ∙ ap (λ k. (k.sq i).cq_idx) (core-xmitted host (store_meta s i p) i p)
      ∙ store_meta-cq_idx s i p
    where
      s2 : EnaState
      s2 = xmitted host (store_meta s i p) i p

  -- A completion is one entry of the queue's completion queue.
  tx_complete-Grown :
      (s : EnaState) (i req_id c n : ℕ)
      → (s.sq i).cq_idx ≡ c
      → IsValidCq (s.cq c)
      → (s.cq c).used ≡ true
      → HasTaken (s.cq c) n
      → Total (Grown c n 1) (tx_complete host s i req_id)
  unfolding core
  tx_complete-Grown s i req_id c n e v u h =
      subst
        (λ c.
          IsValidCq (s.cq c)
          → (s.cq c).used ≡ true
          → HasTaken (s.cq c) n
          → Total (Grown c n 1) (tx_complete host s i req_id))
        e
        (λ v u h.
          let (t, b, eq, more, _, _) =
            tx_complete_lem host s i req_id n u v.entry_low v.entry_high h in
          subst (Total (Grown (s.sq i).cq_idx n 1)) (sym eq) (
            1,
            omega arith,
            subst (λ f. HasTaken (f (s.sq i).cq_idx) (n + 1))
                (sym (ap (λ k. k.cq) (core-cq_intr host t (s.sq i).cq_idx true))) more,
          ))
        v u h

  tx_packet-Grown :
      (s : EnaState) (i : ℕ) (p : EnaTxPkt) (n : ℕ)
      → IsValid s
      → (s.sq i).used ≡ true
      → HasTaken (s.cq (s.sq i).cq_idx) n
      → 1 ≤ p.slots
      → Total (Grown (s.sq i).cq_idx n 1) (tx_packet host s i p)
  unfolding complete_packet core
  tx_packet-Grown s i p n v u h parsed = rw (tx_packet-complete_packet host s i p parsed) (
      if_both (Total (Grown c n 1)) _
        (λ _.
          tx_complete-Grown s3 i _ c n cq_idx
            (subst (λ f. IsValidCq (f c)) (sym same) (v.cqs c used))
            (ap (λ f. (f c).used) same ∙ used) taken)
        (λ _. still c n 1 s3 taken))
    where
      c : ℕ
      c = (s.sq i).cq_idx

      s2 : EnaState
      s2 = xmitted host (store_meta s i p) i p

      s3 : EnaState
      s3 = advance_head s2 i p.slots

      same : s3.cq ≡ s.cq
      same = xmit-cq s i p

      used : (s.cq c).used ≡ true
      used = (v.sqs i u).cq_used

      cq_idx : (s3.sq i).cq_idx ≡ c
      cq_idx = xmit-cq_idx s i p

      taken : HasTaken (s3.cq c) n
      taken = subst (λ f. HasTaken (f c) n) (sym same) h

  -- What is left of the posted entries bounds the completions still to come.
  abbrev pub Bounded : (s : EnaState) (i n : ℕ) → EnaState → Type 0
  Bounded s i n = Grown (s.sq i).cq_idx n (sub16 (s.sq i).tail (s.sq i).head)

  tx_round-Bounded :
      (next : EnaState → Outcome EnaState) (s : EnaState) (i n fuel : ℕ) (o : Option EnaTxPkt)
      → ((t : EnaState) (m : ℕ)
          → IsValid t
          → (t.sq i).used ≡ true
          → HasTaken (t.cq (t.sq i).cq_idx) m
          → sub16 (t.sq i).tail (t.sq i).head ≤ fuel
          → Total (Bounded t i m) (next t))
      → IsValid s
      → (s.sq i).used ≡ true
      → HasTaken (s.cq (s.sq i).cq_idx) n
      → sub16 (s.sq i).tail (s.sq i).head ≤ suc fuel
      → OnSome (IsParsed (s.sq i) (sub16 (s.sq i).tail (s.sq i).head)) o
      → Total (Bounded s i n) (tx_round host next s i o)
  unfolding tx_round core
  tx_round-Bounded next s i n fuel none ih v u h le parsed = still _ n _ (discard s i) h
  tx_round-Bounded next s i n fuel (some p) ih v u h le parsed =
      if_both (Total (Bounded s i n)) _ (λ _. still _ n _ (discard s i) h)
        (λ _.
          Total-bind (λ t. Moved (core s) i entries (core t) × Grown c n 1 t) (Bounded s i n) _ next
            (Total-both (λ t. Moved (core s) i entries (core t)) (Grown c n 1) _
              (tx_packet-Moved host s i p v u parsed)
              (tx_packet-Grown s i p n v u h parsed.some_slot))
            (λ t (m, (k, small, g)).
              Total-map (Bounded t i (n + k)) (Bounded s i n) _
                (ih t (n + k) m.valid (m.used_eq ∙ u)
                  (subst (λ j. HasTaken (t.cq j) (n + k)) (sym m.cq_idx_eq) g)
                  (omega (
                    arith,
                    le,
                    parsed.within,
                    parsed.some_entry,
                    m.head_eq,
                    m.tail_eq,
                    (v.sqs i u).head_in,
                  )))
                (λ t' (l, below, g'). (
                  k + l,
                  omega (
                    arith,
                    small,
                    below,
                    parsed.within,
                    parsed.some_entry,
                    m.head_eq,
                    m.tail_eq,
                    (v.sqs i u).head_in,
                  ),
                  subst (HasTaken (t'.cq c)) (omega arith)
                      (subst (λ j. HasTaken (t'.cq j) (n + k + l)) m.cq_idx_eq g'),
                ))))
    where
      c : ℕ
      c = (s.sq i).cq_idx

      entries : ℕ
      entries = slot_entries (s.sq i) p.slots

  tx_drain-Bounded :
      (fuel : ℕ) (s : EnaState) (i n : ℕ)
      → IsValid s
      → (s.sq i).used ≡ true
      → HasTaken (s.cq (s.sq i).cq_idx) n
      → sub16 (s.sq i).tail (s.sq i).head ≤ fuel
      → Total (Bounded s i n) (tx_drain host fuel s i)
  unfolding tx_drain core
  tx_drain-Bounded zero s i n v u h le =
      if_both (Total (Bounded s i n)) _ (λ _. still _ n _ s h)
        (λ e. absurd (ground (arith, le, e, (v.sqs i u).head_in, (v.sqs i u).tail_in)))
  tx_drain-Bounded (suc fuel) s i n v u h le =
      if_both (Total (Bounded s i n)) _ (λ _. still _ n _ s h)
        (λ e.
          tx_round-Bounded _ s i n fuel _ (λ t m. tx_drain-Bounded fuel t i m) v u h le
            (tx_parse-IsParsed host s i))

  -- A TX doorbell on a used queue of a well-formed device posts at most one completion for each entry
  -- that was posted, and so no more completions than its completion queue has slots: what it posts
  -- does not overwrite itself.
  pub tx_doorbell-Bounded :
      (s : EnaState) (i n : ℕ)
      → IsValid s
      → (s.sq i).used ≡ true
      → (s.sq i).is_tx ≡ true
      → HasTaken (s.cq (s.sq i).cq_idx) n
      → Total
          (λ t.
            Bounded s i n t × (sub16 (s.sq i).tail (s.sq i).head ≤ (s.cq (s.sq i).cq_idx).depth))
          (tx_doorbell host s i)
  unfolding tx_doorbell core
  tx_doorbell-Bounded s i n v u is_tx h =
      let old : IsValidSq s.cq (s.sq i) = v.sqs i u in
      let room : sub16 (s.sq i).tail (s.sq i).head ≤ (s.cq (s.sq i).cq_idx).depth =
        omega (arith, old.posted, old.fits) in
      check-Total R _ _ is_tx (
        if_both (Total R) _ (λ _. (still _ n _ s h, room))
          (λ _.
            Total-map (Bounded s i n) R _ (tx_drain-Bounded _ s i n v u h (omega arith))
              (λ t b. (b, room))))
    where
      R : EnaState → Type 0
      R t = Bounded s i n t × (sub16 (s.sq i).tail (s.sq i).head ≤ (s.cq (s.sq i).cq_idx).depth)
