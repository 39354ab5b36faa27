-- ===== src/Isolation/Frame.antt =====
-- The delivery of a frame by `ena_rx_receive_iov` of hw/ena_rx.c reaches the queue that its hash
-- chooses, its completion queue and its vector only.
use ena.Base.{
  false, ℕ, zero, suc, ◌+◌, Bool, true, List, [], ◌∷◌, Option, none, some, ok, ◌≡◌, refl, subst,
  u16, if_both, Returns, Returns-bind, Returns-map, check-Returns, Total, Total-Returns, length,
  take, drop, min, ◌-◌, ◌==◌,
}
use ena.Host.{Host, rx_pkt_attach}
use ena.Device.{EnaState, log, max_pkt_descs, dma_write_bytes}
use ena.Invariant.{IsValid}
use ena.Rx.{RxDesc, rx_sq, rss_hash, rx_desc_size, rx_desc_addr}
use ena.Rx.Receive.{
  cons_collected, consume, rx_collect_from, rx_collect, rx_push_cdesc, rx_deliver, rx_drop,
  rx_account, rx_complete, after_collect, to_queue, rx_receive_iov,
}
use ena.Rx.Fate.{FrameResult}
use ena.Rx.Total.{rx_receive_iov-Result}
use ena.Isolation.{
  cq_intr, Quiet, Quiet-refl, Quiet-log, Quiet-trans, Wired, Within, Within-Wired, Within-trans,
  Quiet-Within, set_sq-Within, cq_push-Within, cq_intr-Within,
}

Quiet-drop : (s : EnaState) → Quiet s (rx_drop s)
Quiet-drop s = record { only = refl }

module _ (i c v : ℕ) where
  consume-Within : (s : EnaState) (n : ℕ) → Within i c v s (consume s i n)
  consume-Within s n =
      set_sq-Within i c v s (record (s.sq i) { head = u16 ((s.sq i).head + n) }) refl

  cons_collected-Within :
      (s : EnaState) (d : RxDesc) (r : EnaState × Option (List RxDesc))
      → Within i c v s r.0
      → Within i c v s (cons_collected d r).0
  cons_collected-Within s d (t, none) p = p
  cons_collected-Within s d (t, some ds) p = p

  rx_push_cdesc-Within :
      (s : EnaState) (status len req_id hash sub_qid addr : ℕ)
      → Returns (Within i c v s) (rx_push_cdesc s c status len req_id hash sub_qid addr)
  unfolding rx_push_cdesc
  rx_push_cdesc-Within s status len req_id hash sub_qid addr =
      check-Returns (Within i c v s) _ _ (cq_push-Within i c v s _)

  rx_deliver-Within :
      (ds : List RxDesc) (s : EnaState) (frame : List ℕ) (sub status hash off : ℕ) (first : Bool)
      → Returns (λ r. Within i c v s r.0) (rx_deliver ds s frame sub c status hash off first)
  unfolding rx_deliver
  rx_deliver-Within [] s frame sub status hash off first = Quiet-Within i c v s s (Quiet-refl s)
  rx_deliver-Within (d ∷ ds) s frame sub status hash off first =
      Returns-bind (Within i c v s1) (λ r. Within i c v s r.0) _ _
        (rx_push_cdesc-Within s1 _ chunk _ hash sub _)
        (λ t p.
          Returns-map (λ (r : EnaState × ℕ). Within i c v t r.0) (λ r. Within i c v s r.0) _
            (rx_deliver-Within ds t frame sub status hash (off + chunk) false)
            (λ r q.
              Within-trans i c v s s1 r.0 (Quiet-Within i c v s s1 (Quiet-log s _))
                (Within-trans i c v s1 t r.0 p q)))
    where
      chunk : ℕ
      chunk = min (rx_desc_size d) (length frame - off)

      s1 : EnaState
      s1 = dma_write_bytes s (rx_desc_addr d) (take chunk (drop off frame))

  rx_account-Within : (s : EnaState) (n len : ℕ) → Within i c v s (rx_account s i n len)
  rx_account-Within s n len =
      Within-trans i c v s (consume s i n) _ (consume-Within s n)
        (Quiet-Within i c v (consume s i n) _ record { only = refl })

  module _ (host : Host) where
    rx_collect_from-Within :
        (room n cap : ℕ) (s : EnaState) (len : ℕ)
        → Within i c v s (rx_collect_from host room n cap s i len).0
    unfolding rx_collect_from
    rx_collect_from-Within zero n cap s len =
        if_both {A = EnaState × Option (List RxDesc)} (λ r. Within i c v s r.0) _
          (λ _. Quiet-Within i c v s s (Quiet-refl s)) (λ _. Quiet-Within i c v s s (Quiet-refl s))
    rx_collect_from-Within (suc room) n cap s len =
        if_both {A = EnaState × Option (List RxDesc)} (λ r. Within i c v s r.0) _
          (λ _. Quiet-Within i c v s s (Quiet-refl s))
          (λ _.
            if_both {A = EnaState × Option (List RxDesc)} (λ r. Within i c v s r.0) _
              (λ _. Quiet-Within i c v s s (Quiet-refl s))
              (λ _.
                if_both {A = EnaState × Option (List RxDesc)} (λ r. Within i c v s r.0) _
                  (λ _. cons_collected-Within s _ _ (rx_collect_from-Within room (n + 1) _ s len))
                  (λ _. consume-Within s (n + 1))))

    rx_complete-Within :
        (s : EnaState) (hash : ℕ) (frame : List ℕ) (ds : List RxDesc)
        → Wired i c v s
        → Returns (Within i c v s) (rx_complete host s i hash frame ds)
    unfolding rx_complete
    rx_complete-Within s hash frame ds w = rw (w.0) (
        Returns-bind (λ (r : EnaState × ℕ). Within i c v s r.0) (Within i c v s) _ _
          (rx_deliver-Within ds s frame i _ hash 0 true)
          (λ r p.
            check-Returns (Within i c v s) (r.1 == length frame)
              (ok (cq_intr host (rx_account r.0 i (length ds) (length frame)) c false))
              (Within-trans i c v s r.0 _ p (
                Within-trans i c v r.0 (rx_account r.0 i (length ds) (length frame)) _
                  (rx_account-Within r.0 (length ds) (length frame))
                  (cq_intr-Within i c v host _ false (
                    Within-Wired i c v s _
                      (Within-trans i c v s r.0 _ p
                        (rx_account-Within r.0 (length ds) (length frame)))
                      w))))))

    after_collect-Within :
        (s : EnaState) (hash : ℕ) (frame : List ℕ) (r : EnaState × Option (List RxDesc))
        → Wired i c v s
        → Within i c v s r.0
        → Returns (Within i c v s) (after_collect host i hash frame r)
    unfolding after_collect
    after_collect-Within s hash frame (t, none) w p =
        Within-trans i c v s t _ p (Quiet-Within i c v t _ (Quiet-drop t))
    after_collect-Within s hash frame (t, some ds) w p =
        Returns-map (Within i c v t) (Within i c v s) _
          (rx_complete-Within t hash frame ds (Within-Wired i c v s t p w))
          (λ u q. Within-trans i c v s t u p q)

-- The reach of a frame: that of the queue that its hash chooses, and the counters and the trace alone
-- if there is none
pub record FrameReach (chosen : Option ℕ) (s t : EnaState) : Type 0 where
  pub queue :
      (i : ℕ) → chosen ≡ some i → let c = (s.sq i).cq_idx in Within i c (s.cq c).msix_vector s t
  pub no_queue : chosen ≡ none → Quiet s t

Quiet-FrameReach : (chosen : Option ℕ) (s t : EnaState) → Quiet s t → FrameReach chosen s t
Quiet-FrameReach chosen s t q = record {
  queue = λ i _. Quiet-Within i _ _ s t q;
  no_queue = λ _. q;
}

module _ (host : Host) (s : EnaState) (frame : List ℕ) where
  abbrev att : EnaState
  att = log s (rx_pkt_attach frame)

  to_queue-FrameReach :
      (hash : ℕ) (o : Option ℕ) → Returns (FrameReach o s) (to_queue host att hash frame o)
  unfolding to_queue rx_collect
  to_queue-FrameReach hash none =
      Quiet-FrameReach none s _ (Quiet-trans s att _ (Quiet-log s _) (Quiet-drop att))
  to_queue-FrameReach hash (some i) =
      if_both (Returns (FrameReach (some i) s)) _
        (λ _. Quiet-FrameReach (some i) s _ (Quiet-trans s att _ (Quiet-log s _) (Quiet-drop att)))
        (λ _.
          Returns-map (Within i c v att) (FrameReach (some i) s) _
            (after_collect-Within i c v host att hash frame _ (refl, refl)
              (rx_collect_from-Within i c v host max_pkt_descs 0 0 att (length frame)))
            (λ t p.
              chosen-FrameReach t
                (Within-trans i c v s att t (Quiet-Within i c v s att (Quiet-log s _)) p)))
    where
      c : ℕ
      c = (s.sq i).cq_idx

      v : ℕ
      v = (s.cq c).msix_vector

      chosen-FrameReach : (t : EnaState) → Within i c v s t → FrameReach (some i) s t
      chosen-FrameReach t p = record {
        queue = λ j e.
            subst (λ k. Within k (s.sq k).cq_idx (s.cq (s.sq k).cq_idx).msix_vector s t)
              (let f : i ≡ j = cc in f) p;
        no_queue = λ e. cc;
      }

  rx_receive_iov-Returns :
      Returns (FrameReach (rx_sq att (rss_hash host s.rss frame)) s) (rx_receive_iov host s frame)
  unfolding rx_receive_iov
  rx_receive_iov-Returns =
      if_both (Returns (FrameReach _ s)) _ (λ _. Quiet-FrameReach _ s _ (Quiet-drop s))
        (λ _.
          if_both (Returns (FrameReach _ s)) _ (λ _. Quiet-FrameReach _ s s (Quiet-refl s))
            (λ _. to_queue-FrameReach _ _))

  -- A frame that reaches a well-formed device is handled to the end, and moves nothing but the
  -- positions of the RX queue that its hash chooses, the tail and phase of the completion queue
  -- that this reports to, the mask and pending bits of the vector of that, the counters and the
  -- trace; without an RX queue, the counters and the trace alone.
  pub rx_receive_iov-FrameReach :
      IsValid s
      → Total (FrameReach (rx_sq att (rss_hash host s.rss frame)) s) (rx_receive_iov host s frame)
  rx_receive_iov-FrameReach valid =
      Total-Returns (FrameResult host s frame) (FrameReach _ s) _
        (rx_receive_iov-Result host s frame valid) rx_receive_iov-Returns
