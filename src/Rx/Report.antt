-- ===== src/Rx/Report.antt =====
-- What the driver reads of a frame that `ena_rx_receive_iov` of hw/ena_rx.c has delivered: its
-- bytes in the buffers and the completions in the ring.
use ena.Base.{
  length-drop, ℕ, ◌+◌, ◌-◌, ◌^◌, ◌≤◌, ◌<◌, min, Bool, true, false, List, [], ◌∷◌, ◌++◌, ◌≡◌, refl,
  sym, ap, subst, ◌∙◌, arith, le-leb, Total, Total-bind, Total-map, check-Total, length, take, drop,
  take-append-drop, drop-drop, drop-length, length-take, update_self, le16,
}
use ena.Base.Wrap.{lap_phase}
use ena.Host.{Event, dma_write}
use ena.Device.{EnaState, EnaCq, dma_write_bytes}
use ena.Invariant.Queues.{cq_push-eq}
use ena.Cq.{cq_advance}
use ena.Cq.Ring.{slot_of, HasTaken, cq_advance-HasTaken, cq_slot_addr-HasTaken}
use ena.Rx.{RxDesc, rx_desc_size, rx_desc_addr}
use ena.Rx.Receive.{rx_cdesc, rx_push_cdesc, rx_deliver, is_empty, frame_bits}
use ena.Rx.Completion.{RxTells, rx_cdesc-RxTells, with_phase}
use ena.Rx.Deliver.{total_size}

-- A used completion queue that is fit for RX completions and has taken `n` entries
pub record IsRing (q : EnaCq) (n : ℕ) : Type 0 where
  pub used : q.used ≡ true
  pub entry_low : 16 ≤ q.entry_size
  pub entry_high : q.entry_size ≤ 32
  pub taken : HasTaken q n

-- From the events `before` to the events `after`, the ring being `q` with `n` entries: for each
-- descriptor in turn, a piece of the bytes goes to its buffer and a completion to the next slot,
-- which tells the phase of the lap, whether it is the first and the last of the frame, the length
-- of the piece, the request of the descriptor, the hash and the queue.
unfoldable pub Reported :
    EnaCq
    → (n status hash sub_qid : ℕ) → (first : Bool) → List RxDesc
    → (bytes : List ℕ) → (before after : List Event) → Type 0
Reported q n status hash sub_qid first [] bytes before after = (bytes ≡ []) × (after ≡ before)
Reported q n status hash sub_qid first (d ∷ ds) bytes before after =
    (piece : List ℕ) × (rest : List ℕ) × (bytes ≡ piece ++ rest)
    × (length piece ≤ rx_desc_size d)
    × (cdesc : List ℕ) × RxTells cdesc
        (with_phase (lap_phase q.depth n) (frame_bits status first (is_empty ds))) (length piece)
        d.req_id hash sub_qid
    × (le16 cdesc 4 ≡ length piece)
    × Reported q (n + 1) status hash sub_qid false ds rest
        (dma_write (slot_of q n) cdesc ∷ dma_write (rx_desc_addr d) piece ∷ before) after

-- The same ring with another count
abbrev SameRing : EnaCq → EnaCq → Type 0
SameRing q q' = (q'.base ≡ q.base) × (q'.depth ≡ q.depth) × (q'.entry_size ≡ q.entry_size)

abbrev Pushed : EnaState → (c n status len req_id hash sub_qid : ℕ) → EnaState → Type 0
Pushed s c n status len req_id hash sub_qid t =
    IsRing (t.cq c) (n + 1)
    × SameRing (s.cq c) (t.cq c)
    × (b : List ℕ) × (t.trace ≡ dma_write (slot_of (s.cq c) n) b ∷ s.trace)
    × RxTells b (with_phase (lap_phase (s.cq c).depth n) status) len req_id hash sub_qid

advance-IsRing : (q : EnaCq) (n : ℕ) → IsRing q n → IsRing (cq_advance q) (n + 1)
unfolding cq_advance
advance-IsRing q n r = record {
  used = r.used;
  entry_low = r.entry_low;
  entry_high = r.entry_high;
  taken = cq_advance-HasTaken n r.taken;
}

advance-SameRing : (q : EnaCq) → SameRing q (cq_advance q)
unfolding cq_advance
advance-SameRing q = (refl, refl, refl)

rx_push_cdesc-Pushed :
    (s : EnaState) (c n status len req_id hash sub_qid addr : ℕ)
    → IsRing (s.cq c) n
    → Total
        (Pushed s c n status len req_id hash sub_qid)
        (rx_push_cdesc s c status len req_id hash sub_qid addr)
unfolding rx_push_cdesc
rx_push_cdesc-Pushed s c n status len req_id hash sub_qid addr r =
    check-Total P _ _ (le-leb r.entry_high) (
      subst (Total P) (sym (cq_push-eq s c _ r.used)) (
        subst (λ t. IsRing t (n + 1)) (sym (update_self s.cq c (cq_advance q)))
            (advance-IsRing q n r),
        subst (SameRing q) (sym (update_self s.cq c (cq_advance q))) (advance-SameRing q),
        _,
        ap (λ a. dma_write a (take q.entry_size cdesc) ∷ s.trace) (cq_slot_addr-HasTaken n r.taken),
        subst (λ p. RxTells (take q.entry_size cdesc) (with_phase p status) len req_id hash sub_qid)
            r.taken.phase_eq
            (rx_cdesc-RxTells q.entry_size (with_phase q.phase status) len req_id hash sub_qid addr
              r.entry_low),
      ))
  where
    q : EnaCq
    q = s.cq c

    cdesc : List ℕ
    cdesc = rx_cdesc (with_phase q.phase status) len req_id hash sub_qid addr

    P : EnaState → Type 0
    P = Pushed s c n status len req_id hash sub_qid

SameRing-trans : (p q r : EnaCq) → SameRing p q → SameRing q r → SameRing p r
SameRing-trans p q r a b = (b.0 ∙ a.0, b.1 ∙ a.1, b.2 ∙ a.2)

slot_of-SameRing : (p q : EnaCq) (n : ℕ) → SameRing p q → slot_of q n ≡ slot_of p n
slot_of-SameRing p q n k = rw (k.0, k.1, k.2)

-- The result of the loop: the ring, the offset, and the frame's bytes from `off` on, reported
abbrev pub Told :
    EnaCq
    → EnaState
    → List RxDesc
    → (frame : List ℕ) → (i c n status hash off : ℕ) → Bool
    → EnaState × ℕ
    → Type 0
Told ring s ds frame i c n status hash off first r =
    IsRing (r.0.cq c) (n + length ds)
    × (r.1 ≡ length frame)
    × Reported ring n status hash i first ds (drop off frame) s.trace r.0.trace

-- The loop from a state whose ring is `ring` with another count
rx_deliver-Told :
    (ring : EnaCq) (ds : List RxDesc) (s : EnaState) (frame : List ℕ) (i c n status hash off : ℕ)
    (first : Bool)
    → IsRing (s.cq c) n
    → SameRing ring (s.cq c)
    → length frame < 2 ^ 16
    → off ≤ length frame
    → length frame ≤ off + total_size ds
    → Total
        (Told ring s ds frame i c n status hash off first)
        (rx_deliver ds s frame i c status hash off first)
unfolding rx_deliver Reported total_size
rx_deliver-Told ring [] s frame i c n status hash off first r k small le room = (
  subst (IsRing (s.cq c)) (omega arith) r,
  omega (arith, le, room),
  (
    ap (λ k. drop k frame) (let e : off ≡ length frame = omega (arith, le, room) in e)
        ∙ drop-length frame,
    refl,
  ),
)
rx_deliver-Told ring (d ∷ ds) s frame i c n status hash off first r k small le room =
    Total-bind (Pushed s1 c n bits chunk d.req_id hash i)
      (Told ring s (d ∷ ds) frame i c n status hash off first) _ _
      (rx_push_cdesc-Pushed s1 c n bits chunk d.req_id hash i _ r)
      (λ t p.
        Total-map (Told ring t ds frame i c (n + 1) status hash (off + chunk) false)
          (Told ring s (d ∷ ds) frame i c n status hash off first) _
          (rx_deliver-Told ring ds t frame i c (n + 1) status hash (off + chunk) false p.0
            (SameRing-trans ring (s.cq c) (t.cq c) k p.1) small (omega (arith, le))
            (omega (arith, le, room)))
          (λ u h. (
            subst (IsRing (u.0.cq c)) (omega arith) h.0,
            h.1,
            (
              piece,
              drop (off + chunk) frame,
              sym (
                  ap (λ k. piece ++ k) (sym (drop-drop off chunk frame))
                  ∙ take-append-drop chunk (drop off frame)),
              omega (arith, length-take chunk (drop off frame)),
              p.2,
              told p.2 p.4,
              omega (arith, (told p.2 p.4).len_eq, piece_length, small),
              subst
                  (λ tr.
                    Reported ring (n + 1) status hash i false ds (drop (off + chunk) frame) tr
                      u.0.trace)
                  (p.3 ∙ ap (λ a. dma_write a p.2 ∷ s1.trace) (slot_of-SameRing ring (s.cq c) n k))
                  h.2,
            ),
          )))
  where
    chunk : ℕ
    chunk = min (rx_desc_size d) (length frame - off)

    piece : List ℕ
    piece = take chunk (drop off frame)

    bits : ℕ
    bits = frame_bits status first (is_empty ds)

    s1 : EnaState
    s1 = dma_write_bytes s (rx_desc_addr d) piece

    piece_length : length piece ≡ chunk
    piece_length = omega (arith, length-take chunk (drop off frame), length-drop off frame)

    told :
        (b : List ℕ)
        → RxTells b (with_phase (lap_phase (s.cq c).depth n) bits) chunk d.req_id hash i
        → RxTells b (with_phase (lap_phase ring.depth n) bits) (length piece) d.req_id hash i
    told b x =
        subst (λ l. RxTells b (with_phase (lap_phase ring.depth n) bits) l d.req_id hash i)
          (sym piece_length)
          (subst (λ e. RxTells b (with_phase (lap_phase e n) bits) chunk d.req_id hash i) k.1 x)

-- A frame that is spread over descriptors with room for it, in a ring that has taken `n` entries:
-- the loop ends without a failed assertion with the whole frame done; each descriptor's buffer gets
-- the next piece, and then the next slot of the ring a completion with the phase of its lap, the
-- first and last marks, the exact length of the piece and the descriptor's request; the ring has
-- taken as many entries as there are descriptors.
pub rx_deliver_lem :
    (s : EnaState) (frame : List ℕ) (ds : List RxDesc) (i c n status hash : ℕ)
    → IsRing (s.cq c) n
    → length frame < 2 ^ 16
    → length frame ≤ total_size ds
    → Total
        (Told (s.cq c) s ds frame i c n status hash 0 true)
        (rx_deliver ds s frame i c status hash 0 true)
rx_deliver_lem s frame ds i c n status hash r small room =
    rx_deliver-Told (s.cq c) ds s frame i c n status hash 0 true r (refl, refl, refl) small
      (omega arith) (omega (arith, room))
