-- ===== src/Rx/Total.antt =====
-- What `ena_rx_receive_iov` of hw/ena_rx.c makes of a frame.
use ena.Base.{
  ◌+◌, not-true, false, Total-both, ℕ, ◌≤◌, true, false, List, Option, none, some, ok, ◌≡◌, ◌⊎◌,
  inl, inr, refl, sym, ap, subst, ◌∙◌, arith, sub16, Total, Total-ok, Total-bind, check-Total,
  if_both, length, ==_iff,
}
use ena.Host.{Host, rx_pkt_attach}
use ena.Device.{EnaState, log, max_pkt_descs}
use ena.Invariant.{IsValidCq, IsValidSq, core, IsValidCore, IsValid}
use ena.Invariant.Queues.{OnlyCqs-core, OnlyCqs-trans, core-cq_intr}
use ena.Tx.Parse.{OnSome}
use ena.Rx.{rx_status, rss_hash, RxDesc, is_rx, rx_sq}
use ena.Rx.Receive.{consume, rx_drop, rx_complete, after_collect, to_queue, rx_receive_iov}
use ena.Rx.Collect.{both_true, Collected, CollectResult, rx_collect_lem}
use ena.Rx.Fate.{
  no_queue, no_room, too_long, Accepted, rx_max_frame, Received, Dropped, Ignored, FrameResult,
}
use ena.Rx.Report.{IsRing, Told, rx_deliver_lem}
use ena.Rx.Deliver.{total_size, Delivered, rx_deliver-Delivered, Collected-total_size}
use ena.Rx.Taken.{rx_sq-is_rx, consume-IsValid, Collected-avail, unfound, false-ne-true, not_both}

module _ (host : Host) (s : EnaState) (frame : List ℕ) (v : IsValid s)
    (small : length frame ≤ rx_max_frame) (acc : Accepted s frame) where
  abbrev att : EnaState
  att = log s (rx_pkt_attach frame)

  abbrev hash : ℕ
  hash = rss_hash host s.rss frame

  -- The ring that RX queue `i` completes to
  rx_queue_completions :
      (i : ℕ) → is_rx s i ≡ true → let q = s.cq (s.sq i).cq_idx in (n : ℕ) × IsRing q n
  unfolding core
  rx_queue_completions i rx =
      let old : IsValidSq s.cq (s.sq i) = v.sqs i (both_true rx).0 in
      let c : IsValidCq (s.cq (s.sq i).cq_idx) = v.cqs _ old.cq_used in
      (
        c.count,
        record {
          used = old.cq_used;
          entry_low = old.rx_entry (not-true (both_true rx).1);
          entry_high = c.entry_high;
          taken = c.taken;
        },
      )

  completes : (i : ℕ) → is_rx s i ≡ true → (s.cq (s.sq i).cq_idx).used ≡ true
  unfolding core
  completes i rx = let old : IsValidSq s.cq (s.sq i) = v.sqs i (both_true rx).0 in old.cq_used

  rx_complete-Result :
      (i : ℕ) (ds : List RxDesc)
      → is_rx s i ≡ true
      → rx_sq att hash ≡ some i
      → length ds ≤ max_pkt_descs
      → Collected host att i (length frame) 0 0 ds
      → Total (FrameResult host s frame) (rx_complete host att i hash frame ds)
  unfolding rx_complete core
  rx_complete-Result i ds rx chosen few c =
      Total-bind (λ r. Delivered att ds frame 0 r × Tells r) (FrameResult host s frame) _ _
        (Total-both (Delivered att ds frame 0) Tells _
          (rx_deliver-Delivered ds att frame i _ _ hash 0 true v (v.sqs i used).cq_used
            (omega arith) (omega (arith, fits)))
          (rx_deliver_lem att frame ds i _ n _ hash ring (omega (arith, small)) fits))
        (λ r (d, told). check-Total (FrameResult host s frame) _ _ ((==_iff _ _).1 d.1) (
          subst IsValidCore (sym (core-cq_intr host _ _ false)) (
              consume-IsValid r.0 i (length ds) d.0.0 (ap (λ f. (f i).used) d.0.1.sq_same ∙ used) (
                subst (λ f. length ds ≤ sub16 (f i).tail (f i).head) (sym d.0.1.sq_same)
                  (omega (arith, Collected-avail host att i _ 0 0 ds (omega arith) c)))),
          inl record {
            queue = i;
            descs = ds;
            placed_state = r.0;
            accepted = acc;
            used_rx = rx;
            chosen = chosen;
            fits_buffer = small;
            few = few;
            needed = c;
            placed = d.2;
            count = n;
            taken = ring.taken;
            reported = told.2;
            ring_after = told.0.taken;
            kept = (d.0.0, OnlyCqs-trans (OnlyCqs-core refl) d.0.1);
            result = refl;
          },
        ))
    where
      used : (s.sq i).used ≡ true
      used = (both_true rx).0

      n : ℕ
      n = (rx_queue_completions i rx).0

      ring : IsRing (s.cq (s.sq i).cq_idx) n
      ring = (rx_queue_completions i rx).1

      fits : length frame ≤ total_size ds
      fits = omega (arith, Collected-total_size host att i _ 0 0 ds c)

      Tells : EnaState × ℕ → Type 0
      Tells =
          Told (s.cq (s.sq i).cq_idx) att ds frame i (s.sq i).cq_idx n (rx_status host frame) hash 0
            true

  after_collect-Result :
      (i : ℕ) (r : EnaState × Option (List RxDesc))
      → is_rx s i ≡ true
      → rx_sq att hash ≡ some i
      → CollectResult host att i (length frame) 0 0 max_pkt_descs r
      → ((ds : List RxDesc)
          → length ds ≤ max_pkt_descs
          → Collected host att i (length frame) 0 0 ds
          → r ≡ (att, some ds))
      → Total (FrameResult host s frame) (after_collect host i hash frame r)
  unfolding after_collect CollectResult core
  after_collect-Result i (t, some ds) rx chosen c found =
      subst (λ t. Total (FrameResult host s frame) (rx_complete host t i hash frame ds)) (sym c.0)
        (rx_complete-Result i ds rx chosen c.1 c.2)
  after_collect-Result i (t, none) rx chosen (ds, k, left, short, at, all, inl (e, why)) found =
      subst (λ t. FrameResult host s frame (rx_drop t)) (sym e) (v, inr (inl dropped))
    where
      dropped : Dropped host s frame (rx_drop att)
      dropped = record {
        reason = no_room acc i chosen (unfound host att _ i _ found);
        drops = refl;
        no_pkt = refl;
        no_bytes = refl;
        same_cq = refl;
        no_write = inr refl;
      }
  after_collect-Result i (t, none) rx chosen (ds, k, left, short, at, all, inr (lt, bad, e)) found =
      subst (λ t. FrameResult host s frame (rx_drop t)) (sym e)
        (consume-IsValid att i (k + 1) v (both_true rx).0 (omega (arith, lt)), inr (inl dropped))
    where
      dropped : Dropped host s frame (rx_drop (consume att i (k + 1)))
      dropped = record {
        reason = no_room acc i chosen (unfound host att _ i _ found);
        drops = refl;
        no_pkt = refl;
        no_bytes = refl;
        same_cq = refl;
        no_write = inr refl;
      }

  to_queue-Result :
      (o : Option ℕ)
      → rx_sq att hash ≡ o
      → OnSome (λ i. is_rx s i ≡ true) o
      → Total (FrameResult host s frame) (to_queue host att hash frame o)
  unfolding to_queue core
  to_queue-Result none chosen rx = (
    v,
    inr (
        inl record {
          reason = no_queue acc chosen;
          drops = refl;
          no_pkt = refl;
          no_bytes = refl;
          same_cq = refl;
          no_write = inr refl;
        }),
  )
  to_queue-Result (some i) chosen rx =
      if_both (Total (FrameResult host s frame)) _ (λ off. absurd (not_both off (completes i rx)))
        (λ _.
          let found = rx_collect_lem host att i (length frame) in
          after_collect-Result i _ rx chosen found.0 found.1)

module _ (host : Host) where
  pub rx_receive_iov-Result :
      (s : EnaState) (frame : List ℕ)
      → IsValid s
      → Total (FrameResult host s frame) (rx_receive_iov host s frame)
  unfolding rx_receive_iov core
  rx_receive_iov-Result s frame v =
      if_both (Total (FrameResult host s frame)) _
        (λ long. (
          v,
          inr (
              inl record {
                reason = too_long (ground (arith, long));
                drops = refl;
                no_pkt = refl;
                no_bytes = refl;
                same_cq = refl;
                no_write = inl refl;
              }),
        ))
        (λ e.
          if_both (Total (FrameResult host s frame)) _ (λ e. (v, inr (inr (refl, e))))
            (λ ours.
              to_queue-Result host s frame v (ground (arith, e, v.mtu_high))
                (ground (arith, e), λ bad. false-ne-true (sym ours ∙ bad)) _ refl
                (rx_sq-is_rx _ _)))

  -- A frame that reaches a well-formed device is handled to the end: no assertion fails (in
  -- particular the chunks add up to the frame), the device stays well-formed, and the frame is
  -- ignored if it is too short or for another address, dropped and counted if it is longer than the
  -- MTU, if there is no RX queue, or if the queue that its hash chooses has no room for it, and else
  -- delivered whole to that queue, with a completion for each buffer in the next slots of the ring.
  pub rx_receive_iov_lem :
      (s : EnaState) (frame : List ℕ)
      → IsValid s
      → (s' : EnaState) × (rx_receive_iov host s frame ≡ ok s')
        × IsValid s'
        × (Received host s frame s' ⊎ (Dropped host s frame s' ⊎ ((s' ≡ s) × Ignored s frame)))
  rx_receive_iov_lem s frame v =
      let r = Total-ok (FrameResult host s frame) _ (rx_receive_iov-Result s frame v) in
      (r.0, r.1, r.2.0, r.2.1)
