-- ===== src/Tx/Completion.antt =====
-- The completion that `ena_tx_complete` of hw/ena_tx.c writes: where it goes and what it tells.
use ena.Base.{
  get_or-take, ℕ, ◌+◌, ◌*◌, ◌%◌, ◌≤◌, ◌∷◌, Bool, true, List, ok, ◌≡◌, refl, subst, arith, le-leb,
  take, get_or, le16, le16_at, u16, u64,
}
use ena.Base.Wrap.{lap_phase}
use ena.Host.{Host, dma_write}
use ena.Device.{EnaState}
use ena.Irq.{cq_intr}
use ena.Cq.Ring.{HasTaken, cq_push_lem}
use ena.Aenq.{to_bit}
use ena.Tx.Doorbell.{tx_cdesc, tx_complete}

-- What the bytes of a completion tell
pub record Tells (b : List ℕ) (req_id sub_qid head : ℕ) (phase : Bool) : Type 0 where
  pub id_eq : le16 b 0 ≡ u16 req_id
  pub phase_eq : get_or b 3 0 ≡ to_bit phase
  pub queue_eq : le16 b 4 ≡ u16 sub_qid
  pub head_eq : le16 b 6 ≡ u16 head

-- The first eight bytes tell all, so an entry of eight bytes is enough.
tx_cdesc-Tells :
    (phase : Bool) (n req_id sub_qid head : ℕ)
    → 8 ≤ n
    → Tells (take n (tx_cdesc phase req_id sub_qid head)) req_id sub_qid head phase
unfolding tx_cdesc
tx_cdesc-Tells phase n req_id sub_qid head h = record {
  id_eq =
      le16_at _ 0 req_id (get_or-take n 0 _ 0 (omega (arith, h)))
        (get_or-take n 1 _ 0 (omega (arith, h)));
  phase_eq = get_or-take n 3 _ 0 (omega (arith, h));
  queue_eq =
      le16_at _ 4 sub_qid (get_or-take n 4 _ 0 (omega (arith, h)))
        (get_or-take n 5 _ 0 (omega (arith, h)));
  head_eq =
      le16_at _ 6 head (get_or-take n 6 _ 0 (omega (arith, h)))
        (get_or-take n 7 _ 0 (omega (arith, h)));
}

-- `ena_tx_complete` for queue `i`, whose completion queue is used, has entries of 8 to 32 bytes and
-- has taken `n` of them: one entry is written, to slot `n % depth`; it tells the request id, the
-- queue, the queue's head and the phase of its lap; then the interrupt of the completion queue is
-- dealt with.
pub tx_complete_lem :
    (host : Host) (s : EnaState) (i req_id n : ℕ)
    → (s.cq (s.sq i).cq_idx).used ≡ true
    → 8 ≤ (s.cq (s.sq i).cq_idx).entry_size
    → (s.cq (s.sq i).cq_idx).entry_size ≤ 32
    → HasTaken (s.cq (s.sq i).cq_idx) n
    → (t : EnaState) × (b : List ℕ) × (tx_complete host s i req_id
        ≡ ok (cq_intr host t (s.sq i).cq_idx true))
      × HasTaken (t.cq (s.sq i).cq_idx) (n + 1)
      × (t.trace
          ≡ dma_write
              (u64 (
                (s.cq (s.sq i).cq_idx).base
                + n % (s.cq (s.sq i).cq_idx).depth * (s.cq (s.sq i).cq_idx).entry_size))
              b
            ∷ s.trace)
      × Tells b req_id i (s.sq i).head (lap_phase (s.cq (s.sq i).cq_idx).depth n)
unfolding tx_complete
tx_complete_lem host s i req_id n u low high taken =
    let c = (s.sq i).cq_idx in
    let cdesc = tx_cdesc (s.cq c).phase req_id i (s.sq i).head in
    let (t, pushed, took, written, others) = cq_push_lem s c n cdesc u taken in
    (
      t,
      take (s.cq c).entry_size cdesc,
      rw (le-leb high, pushed) refl,
      took,
      written,
      subst (Tells (take (s.cq c).entry_size cdesc) req_id i (s.sq i).head) taken.phase_eq
          (tx_cdesc-Tells (s.cq c).phase (s.cq c).entry_size req_id i (s.sq i).head low),
    )
