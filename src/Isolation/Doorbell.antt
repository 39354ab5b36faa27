-- ===== src/Isolation/Doorbell.antt =====
-- The doorbell of a submission queue, of `ena_reg_write` of hw/ena.c, reaches that queue, its
-- completion queue and its vector only.
use ena.Base.{
  sub16, ltb, Returns-map, ℕ, zero, suc, true, false, Option, none, some, Outcome, ok, ◌≡◌, refl,
  u16, if_both, not-false, Returns, Returns-bind, check-Returns, Total, Total-Returns, check-Total,
  update_self,
}
use ena.Host.{Host, flush_queued_packets}
use ena.Device.{EnaState, log, set_sq}
use ena.Invariant.{IsValid}
use ena.Tx.{EnaTxPkt}
use ena.Tx.Doorbell.{tx_doorbell, tx_drain, tx_round}
use ena.Tx.Total.{Drained, tx_doorbell-Drained}
use ena.Rx.Receive.{rx_doorbell}
use ena.Regs.Write.{sq_doorbell}
use ena.Regs.Preserve.{rung-IsValid}
use ena.Isolation.{
  Quiet-refl, Quiet-log, Wired, Within, Within-Wired, Within-trans, Quiet-Within, set_sq-Within,
}
use ena.Isolation.Sending.{tx_packet-Within, discard-Within}

module _ (host : Host) (i c v : ℕ) where
  tx_round-Within :
      (next : EnaState → Outcome EnaState) (s : EnaState) (o : Option EnaTxPkt)
      → ((t : EnaState) → Wired i c v t → Returns (Within i c v t) (next t))
      → Wired i c v s
      → Returns (Within i c v s) (tx_round host next s i o)
  unfolding tx_round
  tx_round-Within next s none ih w = discard-Within host i c v s
  tx_round-Within next s (some p) ih w =
      if_both (Returns (Within i c v s)) _ (λ _. discard-Within host i c v s)
        (λ _.
          Returns-bind (Within i c v s) (Within i c v s) _ next (tx_packet-Within host i c v s p w)
            (λ t q.
              Returns-map (Within i c v t) (Within i c v s) _ (ih t (Within-Wired i c v s t q w))
                (λ u r. Within-trans i c v s t u q r)))

  tx_drain-Within :
      (fuel : ℕ) (s : EnaState) → Wired i c v s → Returns (Within i c v s) (tx_drain host fuel s i)
  unfolding tx_drain
  tx_drain-Within zero s w =
      if_both (Returns (Within i c v s)) _ (λ _. Quiet-Within i c v s s (Quiet-refl s)) (λ _. tt)
  tx_drain-Within (suc fuel) s w =
      if_both (Returns (Within i c v s)) _ (λ _. Quiet-Within i c v s s (Quiet-refl s))
        (λ _. tx_round-Within _ s _ (λ t. tx_drain-Within fuel t) w)

  tx_doorbell-Within :
      (s : EnaState) → Wired i c v s → Returns (Within i c v s) (tx_doorbell host s i)
  unfolding tx_doorbell
  tx_doorbell-Within s w = check-Returns (Within i c v s) _ _ (
      if_both (Returns (Within i c v s)) _ (λ _. Quiet-Within i c v s s (Quiet-refl s))
        (λ _. tx_drain-Within _ s w))

module _ (host : Host) (s : EnaState) (i val : ℕ) (valid : IsValid s) where
  abbrev c : ℕ
  c = (s.sq i).cq_idx

  abbrev v : ℕ
  v = (s.cq (s.sq i).cq_idx).msix_vector

  -- The queue with its new tail
  abbrev told : EnaState
  told = set_sq s i (record (s.sq i) { tail = u16 val })

  told-Within : Within i c v s told
  told-Within = set_sq-Within i c v s (record (s.sq i) { tail = u16 val }) refl

  -- The packets that a doorbell of a TX queue announces
  told_sq : (told.sq i) ≡ record (s.sq i) { tail = u16 val }
  told_sq = update_self s.sq i (record (s.sq i) { tail = u16 val })

  sent :
      (s.sq i).used ≡ true
      → ltb (s.sq i).depth (sub16 val (s.sq i).head) ≡ false
      → (s.sq i).is_tx ≡ true
      → Total (Within i c v s) (tx_doorbell host told i)
  sent u fits tx =
      Total-Returns (Drained told i) (Within i c v s) _
        (tx_doorbell-Drained host told i (rung-IsValid s i val valid u fits) (rw told_sq u)
          (rw told_sq tx))
        (Returns-map (Within i c v told) (Within i c v s) _
          (tx_doorbell-Within host i c v told (Within-Wired i c v s told told-Within (refl, refl)))
          (λ t q. Within-trans i c v s told t told-Within q))

  -- On a well-formed device, a write to the doorbell of a submission queue returns, and moves nothing
  -- but the positions and the cached metadata of that queue, the tail and phase of the completion
  -- queue it reports to, the mask and pending bits of the vector of that, the counters and the
  -- trace: no other queue or vector, no register and no setting.
  pub sq_doorbell-Within : Total (Within i c v s) (sq_doorbell host s i val)
  unfolding sq_doorbell rx_doorbell
  sq_doorbell-Within =
      if_both (Total (Within i c v s)) _ (λ _. Quiet-Within i c v s s (Quiet-refl s))
        (λ u.
          if_both (Total (Within i c v s)) _ (λ _. Quiet-Within i c v s s (Quiet-refl s))
            (λ fits.
              if_both (Total (Within i c v s)) _ (λ tx. sent (not-false u) fits tx)
                (λ rx.
                  check-Total (Within i c v s) _ (ok (log told flush_queued_packets))
                    (rw (told_sq, rx) refl)
                    (Within-trans i c v s told _ told-Within
                      (Quiet-Within i c v told _ (Quiet-log told _))))))
