-- ===== src/Tx/Llq.antt =====
-- The memory of LLQ queues (BAR2): the offsets of hw/ena_tx.c, and the slice of
-- `ENA_LLQ_QUEUE_BYTES` bytes that `ena_llq_mem` of hw/ena.c gives each queue.
use ena.Base.{
  ℕ, suc, ◌+◌, ◌-◌, ◌*◌, ◌%◌, ◌≤◌, ◌<◌, bit_and, true, ◌≡◌, ◌⊎◌, inl, inr, ap, ◌∙◌, arith, if_both,
}
use ena.Base.Bits.{pow2, pow2-le, pow2-pos, bit_and_mask}
use ena.Device.{EnaState, EnaSq, llq_queue_bytes}
use ena.Invariant.{core, IsValid, IsValidSq, IsDepth}
use ena.Tx.{
  mask16, llq_slot_line, llq_slot_off, llq_slot_addr, llq_descs_per_entry, tx_desc_size,
  llq_header_off,
}
use ena.Tx.Xmit.{llq_header_addr}
use native.Mathlib.Nat.{mul-le-mul_left, mod-lt}

-- A masked index is a line of the queue.
line_in : (d x : ℕ) → IsDepth d → bit_and x (mask16 d) < d
line_in d x v = omega (arith, masked, v.depth_eq, mod-lt x {m = pow2 v.order} (pow2-pos v.order))
  where
    bounds : pow2 v.order ≤ 1024
    bounds = pow2-le v.order 10 v.high

    masked : bit_and x (mask16 d) ≡ x % pow2 v.order
    masked =
        ap (bit_and x) (
          let e : mask16 d ≡ pow2 v.order - 1 =
            omega (arith, v.depth_eq, bounds, pow2-pos v.order) in
          e)
        ∙ bit_and_mask v.order x

slice_in : (l d e : ℕ) → l < d → l * e + e ≤ d * e
slice_in l d e h = omega (arith, mul-le-mul_left {m = suc l} {n = d} e h)

off_in :
    (q : EnaSq) (slot : ℕ)
    → (q.entry_size ≡ 128) ⊎ (q.entry_size ≡ 256)
    → llq_slot_off q slot + tx_desc_size ≤ q.entry_size
unfolding llq_slot_off llq_descs_per_entry
off_in q slot (inl e) =
    if_both (λ o. o + tx_desc_size ≤ q.entry_size) _ (λ h. ground (arith, h, e))
      (λ _. rw e (omega arith))
off_in q slot (inr e) =
    if_both (λ o. o + tx_desc_size ≤ q.entry_size) _ (λ h. ground (arith, h, e))
      (λ _. rw e (omega arith))

-- An access of `n` bytes at `addr` lies in the slice of queue `i`.
abbrev pub InSlice : (i addr n : ℕ) → Type 0
InSlice i addr n = (i * llq_queue_bytes ≤ addr) × (addr + n ≤ (i + 1) * llq_queue_bytes)

-- For a used LLQ queue of a well-formed device, every descriptor slot, and every pushed header that
-- `ena_tx_xmit` lets through, is read within the queue's own slice of BAR2.
pub llq_slot_addr_lem :
    (s : EnaState) (i slot hdr_len : ℕ)
    → IsValid s
    → (s.sq i).used ≡ true
    → (s.sq i).llq ≡ true
    → hdr_len + llq_header_off ≤ (s.sq i).entry_size
    → InSlice i (llq_slot_addr s i slot) tx_desc_size × InSlice i (llq_header_addr s i) hdr_len
unfolding llq_slot_addr llq_header_addr core
llq_slot_addr_lem s i slot hdr_len v u llq fits = (
  (
    omega arith,
    omega (
      arith,
      off_in q slot (old.llq_line llq),
      room,
      slice_in _ q.depth q.entry_size
          (line_in q.depth (q.head + llq_slot_line q slot) old.depth_in),
    ),
  ),
  (
    omega arith,
    omega
        (arith, fits, room, slice_in _ q.depth q.entry_size (line_in q.depth q.head old.depth_in)),
  ),
)
  where
    q : EnaSq
    q = s.sq i

    old : IsValidSq s.cq q
    old = v.sqs i u

    room : q.depth * q.entry_size ≤ llq_queue_bytes
    room = old.llq_room llq
