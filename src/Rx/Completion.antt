-- ===== src/Rx/Completion.antt =====
-- The completion that `ena_rx_push_cdesc` of hw/ena_rx.c writes: where it goes and what it tells.
use ena.Base.{
  ℕ, ◌+◌, ◌*◌, ◌%◌, ◌≤◌, ◌∷◌, bit_or, Bool, List, ok, ◌≡◌, ◌≢◌, true, subst, arith, if◌then◌else◌,
  le-leb, take, get_or-take, le16, le32, le16_at, le32_at, u16, u32, u64,
}
use ena.Base.Wrap.{lap_phase}
use ena.Host.{dma_write}
use ena.Device.{EnaState}
use ena.Device.Layout.{rx_cdesc_phase}
use ena.Cq.Ring.{HasTaken, cq_push_lem}
use ena.Rx.Receive.{rx_cdesc, rx_push_cdesc}

-- The status with the phase bit, if the phase is one
abbrev pub with_phase : Bool → ℕ → ℕ
with_phase phase status = if phase then bit_or status rx_cdesc_phase else status

-- What the bytes of a completion tell
pub record RxTells (b : List ℕ) (status len req_id hash sub_qid : ℕ) : Type 0 where
  pub status_eq : le32 b 0 ≡ u32 status
  pub len_eq : le16 b 4 ≡ u16 len
  pub id_eq : le16 b 6 ≡ u16 req_id
  pub hash_eq : le32 b 8 ≡ u32 hash
  pub queue_eq : le16 b 12 ≡ u16 sub_qid

pub rx_cdesc-RxTells :
    (n status len req_id hash sub_qid addr : ℕ)
    → 16 ≤ n
    → RxTells (take n (rx_cdesc status len req_id hash sub_qid addr)) status len req_id hash sub_qid
unfolding rx_cdesc
rx_cdesc-RxTells n status len req_id hash sub_qid addr h = record {
  status_eq =
      le32_at _ 0 status (get_or-take n 0 _ 0 (omega (arith, h)))
        (get_or-take n 1 _ 0 (omega (arith, h))) (get_or-take n 2 _ 0 (omega (arith, h)))
        (get_or-take n 3 _ 0 (omega (arith, h)));
  len_eq =
      le16_at _ 4 len (get_or-take n 4 _ 0 (omega (arith, h)))
        (get_or-take n 5 _ 0 (omega (arith, h)));
  id_eq =
      le16_at _ 6 req_id (get_or-take n 6 _ 0 (omega (arith, h)))
        (get_or-take n 7 _ 0 (omega (arith, h)));
  hash_eq =
      le32_at _ 8 hash (get_or-take n 8 _ 0 (omega (arith, h)))
        (get_or-take n 9 _ 0 (omega (arith, h))) (get_or-take n 10 _ 0 (omega (arith, h)))
        (get_or-take n 11 _ 0 (omega (arith, h)));
  queue_eq =
      le16_at _ 12 sub_qid (get_or-take n 12 _ 0 (omega (arith, h)))
        (get_or-take n 13 _ 0 (omega (arith, h)));
}

-- `ena_rx_push_cdesc` to a used completion queue with entries of 16 to 32 bytes that has taken `n` of
-- them: one entry is written, to slot `n % depth`; it tells the status with the phase of its lap, the
-- length, the request id, the hash and the queue; the other completion queues are as they were.
pub rx_push_cdesc_lem :
    (s : EnaState) (c status len req_id hash sub_qid addr n : ℕ)
    → (s.cq c).used ≡ true
    → 16 ≤ (s.cq c).entry_size
    → (s.cq c).entry_size ≤ 32
    → HasTaken (s.cq c) n
    → (t : EnaState) × (b : List ℕ) × (rx_push_cdesc s c status len req_id hash sub_qid addr ≡ ok t)
      × HasTaken (t.cq c) (n + 1)
      × (t.trace
          ≡ dma_write (u64 ((s.cq c).base + n % (s.cq c).depth * (s.cq c).entry_size)) b ∷ s.trace)
      × RxTells b (with_phase (lap_phase (s.cq c).depth n) status) len req_id hash sub_qid
      × ((j : ℕ) → j ≢ c → t.cq j ≡ s.cq j)
unfolding rx_push_cdesc
rx_push_cdesc_lem s c status len req_id hash sub_qid addr n u low high taken =
    let cdesc = rx_cdesc (with_phase (s.cq c).phase status) len req_id hash sub_qid addr in
    let (t, pushed, took, written, others) = cq_push_lem s c n cdesc u taken in
    (
      t,
      take (s.cq c).entry_size cdesc,
      rw (le-leb high) pushed,
      took,
      written,
      subst
          (λ p.
            RxTells (take (s.cq c).entry_size cdesc) (with_phase p status) len req_id hash sub_qid)
          taken.phase_eq
          (rx_cdesc-RxTells (s.cq c).entry_size (with_phase (s.cq c).phase status) len req_id hash
            sub_qid addr low),
      others,
    )
