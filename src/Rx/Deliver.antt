-- ===== src/Rx/Deliver.antt =====
-- How `ena_rx_receive_iov` of hw/ena_rx.c spreads a frame over the collected descriptors.
use ena.Base.{
  ℕ, ◌+◌, ◌-◌, ◌≤◌, min, Bool, true, false, List, [], ◌∷◌, ◌++◌, ◌≡◌, refl, sym, ap, subst, ◌∙◌,
  arith, le-leb, Total, Total-bind, Total-map, check-Total, length, take, drop, take-append-drop,
  drop-drop, drop-length, length-take,
}
use ena.Host.{Host, Event, dma_write}
use ena.Device.{EnaState, dma_write_bytes}
use ena.Invariant.{core, IsValid}
use ena.Invariant.Queues.{OnlyCqs-trans, OnlyCqs-core, KeptCqs, cq_push-eq, pushed-KeptCqs}
use ena.Rx.{RxDesc, rx_desc_size, rx_desc_addr}
use ena.Rx.Receive.{rx_push_cdesc, rx_deliver}
use ena.Rx.Collect.{Collected}

-- The bytes that descriptors take
unfoldable pub total_size : List RxDesc → ℕ
total_size [] = 0
total_size (d ∷ ds) = rx_desc_size d + total_size ds

pub Collected-total_size :
    (host : Host) (s : EnaState) (i len n cap : ℕ) (ds : List RxDesc)
    → Collected host s i len n cap ds
    → len ≤ cap + total_size ds
unfolding Collected total_size
Collected-total_size host s i len n cap [] c = omega (arith, c)
Collected-total_size host s i len n cap (d ∷ ds) c =
    omega (arith, Collected-total_size host s i len (n + 1) (cap + rx_desc_size d) ds c.5)

-- From the events `before` to the events `after`, the bytes are written to the buffers of the
-- descriptors in their order, to each at most what it holds and then one completion.
unfoldable pub Placed : List RxDesc → (bytes : List ℕ) → (before after : List Event) → Type 0
Placed [] bytes before after = (bytes ≡ []) × (after ≡ before)
Placed (d ∷ ds) bytes before after =
    (piece : List ℕ) × (rest : List ℕ) × (bytes ≡ piece ++ rest)
    × (length piece ≤ rx_desc_size d)
    × (addr : ℕ) × (cdesc : List ℕ) × Placed ds rest
        (dma_write addr cdesc ∷ dma_write (rx_desc_addr d) piece ∷ before) after

abbrev Posted : EnaState → EnaState → Type 0
Posted s t =
    KeptCqs s t × (addr : ℕ) × (cdesc : List ℕ) × (t.trace ≡ dma_write addr cdesc ∷ s.trace)

rx_push_cdesc-Posted :
    (s : EnaState) (c status len req_id hash sub_qid addr : ℕ)
    → IsValid s
    → (s.cq c).used ≡ true
    → Total (Posted s) (rx_push_cdesc s c status len req_id hash sub_qid addr)
unfolding rx_push_cdesc core
rx_push_cdesc-Posted s c status len req_id hash sub_qid addr v u =
    check-Total (Posted s) _ _ (le-leb (v.cqs c u).entry_high)
      (subst (Total (Posted s)) (sym (cq_push-eq s c _ u)) (pushed-KeptCqs s c _ v u, _, _, refl))

-- The result of the loop: the offset, and the frame's bytes from `off` on in place
abbrev pub Delivered : EnaState → List RxDesc → (frame : List ℕ) → ℕ → EnaState × ℕ → Type 0
Delivered s ds frame off r =
    KeptCqs s r.0 × (r.1 ≡ length frame) × Placed ds (drop off frame) s.trace r.0.trace

-- Descriptors with room for the frame take all of it.
pub rx_deliver-Delivered :
    (ds : List RxDesc) (s : EnaState) (frame : List ℕ) (i c status hash off : ℕ) (first : Bool)
    → IsValid s
    → (s.cq c).used ≡ true
    → off ≤ length frame
    → length frame ≤ off + total_size ds
    → Total (Delivered s ds frame off) (rx_deliver ds s frame i c status hash off first)
unfolding rx_deliver Placed total_size core
rx_deliver-Delivered [] s frame i c status hash off first v u le room = (
  (v, OnlyCqs-core refl),
  omega (arith, le, room),
  (
    ap (λ k. drop k frame) (let e : off ≡ length frame = omega (arith, le, room) in e)
        ∙ drop-length frame,
    refl,
  ),
)
rx_deliver-Delivered (d ∷ ds) s frame i c status hash off first v u le room =
    Total-bind (Posted s1) (Delivered s (d ∷ ds) frame off) _ _
      (rx_push_cdesc-Posted s1 c _ chunk _ hash i _ v u)
      (λ t p.
        Total-map (Delivered t ds frame (off + chunk)) (Delivered s (d ∷ ds) frame off) _
          (rx_deliver-Delivered ds t frame i c status hash (off + chunk) false p.0.0
            (p.0.1.used_same c ∙ u) (omega (arith, le)) (omega (arith, le, room)))
          (λ r h. (
            (h.0.0, OnlyCqs-trans (OnlyCqs-trans (OnlyCqs-core refl) p.0.1) h.0.1),
            h.1,
            (
              take chunk (drop off frame),
              drop (off + chunk) frame,
              sym (
                  ap (λ k. take chunk (drop off frame) ++ k) (sym (drop-drop off chunk frame))
                  ∙ take-append-drop chunk (drop off frame)),
              omega (arith, length-take chunk (drop off frame)),
              p.1,
              p.2,
              subst (λ tr. Placed ds (drop (off + chunk) frame) tr r.0.trace) p.3 h.2,
            ),
          )))
  where
    chunk : ℕ
    chunk = min (rx_desc_size d) (length frame - off)

    s1 : EnaState
    s1 = dma_write_bytes s (rx_desc_addr d) (take chunk (drop off frame))
