-- ===== src/Isolation/Sending.antt =====
-- The reach of `ena_tx_xmit` and `ena_tx_complete` of hw/ena_tx.c.
use ena.Base.{
  Returns-map, ◌+◌, ℕ, true, Bool, List, Option, none, some, refl, u16, if_both, Returns,
  Returns-bind, check-Returns,
}
use ena.Host.{tx_pkt_send, tx_pkt_add_raw_fragment, Host}
use ena.Device.{EnaState, log}
use ena.Tx.{EnaTxPkt, slot_entries}
use ena.Tx.Xmitted.{xmitted, xmitted-elim, sent_packet, complete_packet, tx_packet-Returns}
use ena.Tx.Xmit.{
  tx_drop, tx_count, tx_offloads, tx_send_offloaded, tx_send, tx_check_frame, send_gathered,
}
use ena.Tx.Doorbell.{tx_complete, tx_packet, store_meta, discard}
use ena.Isolation.{
  Quiet-refl, Quiet-log, Quiet, Quiet-trans, Wired, Within, Within-Wired, Within-trans,
  Quiet-Within, set_sq-Within, cq_push-Within, cq_intr-Within,
}

Quiet-drop : (s : EnaState) → Quiet s (tx_drop s)
Quiet-drop s = record { only = refl }

Quiet-count : (s : EnaState) (len : ℕ) → Quiet s (tx_count s len)
Quiet-count s len = record { only = refl }

module _ (host : Host) where
  tx_offloads-Quiet :
      (s : EnaState) (offloads mss : ℕ) → Quiet s (tx_offloads host s offloads mss).0
  unfolding tx_offloads
  tx_offloads-Quiet s offloads mss =
      if_both {A = EnaState × Bool} (λ t. Quiet s t.0) _
        (λ _.
          if_both {A = EnaState × Bool} (λ t. Quiet s t.0) _
            (λ _. Quiet-trans s _ _ (Quiet-log s _) (Quiet-log _ _)) (λ _. Quiet-log s _))
        (λ _. Quiet-log s _)

  tx_send_offloaded-Quiet :
      (s : EnaState) (buf : List ℕ) (offloads mss : ℕ)
      → Quiet s (tx_send_offloaded host s buf offloads mss)
  unfolding tx_send_offloaded
  tx_send_offloaded-Quiet s buf offloads mss =
      Quiet-trans s _ _
        (if_both (Quiet s) _ (λ _. Quiet-trans s _ _ (Quiet-log s _) (Quiet-drop _))
          (λ _.
            if_both (Quiet s) _ (λ _. Quiet-trans s built _ same (Quiet-drop built))
              (λ _.
                if_both (Quiet s) _
                  (λ _. Quiet-trans s (log built tx_pkt_send) _ logged (Quiet-count _ _))
                  (λ _. logged))))
        (Quiet-log _ _)
    where
      built : EnaState
      built = (tx_offloads host (log s (tx_pkt_add_raw_fragment buf)) offloads mss).0

      same : Quiet s built
      same =
          Quiet-trans s (log s (tx_pkt_add_raw_fragment buf)) built (Quiet-log s _)
            (tx_offloads-Quiet (log s (tx_pkt_add_raw_fragment buf)) offloads mss)

      logged : Quiet s (log built tx_pkt_send)
      logged = Quiet-trans s built _ same (Quiet-log built _)

  tx_send-Quiet :
      (s : EnaState) (buf : List ℕ) (offloads mss : ℕ) → Quiet s (tx_send host s buf offloads mss)
  unfolding tx_send
  tx_send-Quiet s buf offloads mss =
      if_both (Quiet s) _ (λ _. Quiet-trans s _ _ (Quiet-log s _) (Quiet-count _ _))
        (λ _. tx_send_offloaded-Quiet s _ _ mss)

  tx_check_frame-Quiet :
      (s : EnaState) (i : ℕ) (p : EnaTxPkt) (buf : List ℕ) → Quiet s (tx_check_frame host s i p buf)
  unfolding tx_check_frame
  tx_check_frame-Quiet s i p buf =
      if_both (Quiet s) _ (λ _. Quiet-refl s)
        (λ _.
          if_both (Quiet s) _ (λ _. Quiet-drop s)
            (λ _. if_both (Quiet s) _ (λ _. Quiet-drop s) (λ _. tx_send-Quiet s buf _ _)))

  send_gathered-Quiet :
      (s : EnaState) (i : ℕ) (p : EnaTxPkt) (header : List ℕ) (body : Option (List ℕ))
      → Quiet s (send_gathered host s i p header body)
  unfolding send_gathered
  send_gathered-Quiet s i p header none = Quiet-drop s
  send_gathered-Quiet s i p header (some body) = tx_check_frame-Quiet s i p _

  -- Sending a frame moves the counters and the trace alone.
  pub xmitted-Quiet : (s : EnaState) (i : ℕ) (p : EnaTxPkt) → Quiet s (xmitted host s i p)
  xmitted-Quiet s i p =
      xmitted-elim host s i p (Quiet s) (Quiet-refl s) (send_gathered-Quiet s i p _ _)

  module _ (i c v : ℕ) where
    tx_complete-Within :
        (s : EnaState) (req_id : ℕ)
        → Wired i c v s
        → Returns (Within i c v s) (tx_complete host s i req_id)
    unfolding tx_complete
    tx_complete-Within s req_id w = rw (w.0) (
        check-Returns (Within i c v s) _ _ (
          Returns-bind (Within i c v s) (Within i c v s) _ _ (cq_push-Within i c v s _) (λ t p.
            Within-trans i c v s t _ p
              (cq_intr-Within i c v host t true (Within-Wired i c v s t p w)))))

    store_meta-Within : (s : EnaState) (p : EnaTxPkt) → Within i c v s (store_meta s i p)
    store_meta-Within s p =
        if_both (Within i c v s) p.have_meta
          (λ _. set_sq-Within i c v s (record (s.sq i) { tx_meta = p.tx_meta }) refl)
          (λ _. Quiet-Within i c v s s (Quiet-refl s))

    -- What is done before the completion of a packet
    sent-Within : (s : EnaState) (p : EnaTxPkt) → Within i c v s (sent_packet host s i p)
    sent-Within s p = Within-trans i c v s s1 _ (store_meta-Within s p) (
        Within-trans i c v s1 s2 _ (Quiet-Within i c v s1 s2 (xmitted-Quiet s1 i p)) (
          set_sq-Within i c v s2
            (record (s2.sq i) { head = u16 ((s2.sq i).head + slot_entries (s2.sq i) p.slots) })
            refl))
      where
        s1 : EnaState
        s1 = store_meta s i p

        s2 : EnaState
        s2 = xmitted host s1 i p

    -- A packet stays within the reach of its queue.
    pub tx_packet-Within :
        (s : EnaState) (p : EnaTxPkt)
        → Wired i c v s
        → Returns (Within i c v s) (tx_packet host s i p)
    unfolding complete_packet
    tx_packet-Within s p w = tx_packet-Returns host s i p (Within i c v s) (
        if_both (Returns (Within i c v s)) _
          (λ _.
            Returns-map (Within i c v s3) (Within i c v s) _
              (tx_complete-Within s3 _ (Within-Wired i c v s s3 (sent-Within s p) w))
              (λ t q. Within-trans i c v s s3 t (sent-Within s p) q))
          (λ _. sent-Within s p))
      where
        s3 : EnaState
        s3 = sent_packet host s i p

    pub discard-Within : (s : EnaState) → Within i c v s (discard s i)
    discard-Within s =
        Within-trans i c v s (tx_drop s) _ (Quiet-Within i c v s (tx_drop s) (Quiet-drop s))
          (set_sq-Within i c v (tx_drop s) (record (s.sq i) { head = (s.sq i).tail }) refl)
