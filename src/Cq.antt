-- ===== src/Cq.antt =====
-- `ena_cq_push` of hw/ena.c: one entry of a completion queue.
pub mod Ring
use ena.Base.{
  ℕ, ◌+◌, ◌-◌, ◌*◌, ◌%◌, ◌^◌, bit_and, Bool, not, List, Outcome, ok, check, ◌>>=◌, ◌>>◌, u16, u64,
  ◌==◌, if◌then◌else◌, take,
}
use ena.Device.{EnaState, EnaCq, set_cq, dma_write_bytes}

-- `depth - 1` as C computes it, so that a depth of 0 gives a mask of ones.
abbrev pub depth_mask : ℕ → ℕ
depth_mask d = (d + 2 ^ 32 - 1) % 2 ^ 32

-- The queue after one entry more
unfoldable pub cq_advance : EnaCq → EnaCq
cq_advance q =
    let tail' = u16 (q.tail + 1) in
    record q {
      tail = tail';
      phase = if bit_and tail' (depth_mask q.depth) == 0 then not q.phase else q.phase;
    }

-- The address of the entry at `tail`
unfoldable pub cq_slot_addr : EnaCq → ℕ
cq_slot_addr q = u64 (q.base + bit_and q.tail (depth_mask q.depth) * q.entry_size)

-- `ena_cq_push` to the queue at index `c`
unfoldable pub cq_push : EnaState → ℕ → List ℕ → Outcome EnaState
cq_push s c cdesc = do
  check (s.cq c).used
  let s1 = dma_write_bytes s (cq_slot_addr (s.cq c)) (take (s.cq c).entry_size cdesc)
  ok (set_cq s1 c (cq_advance (s.cq c)))
