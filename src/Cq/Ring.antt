-- ===== src/Cq/Ring.antt =====
-- A completion queue as the unbounded sequence of its entries: slot and phase of entry number `n`.
use ena.Base.{
  ℕ, ◌+◌, ◌-◌, ◌*◌, ◌%◌, ◌^◌, ◌≤◌, bit_and, true, not, List, ok, ◌≡◌, ap, sym, ◌∙◌, arith, take,
  u16, u64, ◌==◌, if◌then◌else◌, update_self, update-ne, ◌∷◌, ◌≢◌,
}
use ena.Base.Bits.{pow2, pow2-pos, bit_and_mask}
use ena.Base.Wrap.{lap_phase, lap_phase_step, pow2_le16-dvd}
use ena.Host.{dma_write}
use ena.Device.{EnaState, EnaCq, set_cq, dma_write_bytes}
use ena.Cq.{depth_mask, cq_advance, cq_slot_addr, cq_push}
use native.Mathlib.Nat.{mod-mod_of_dvd, le_of_dvd}

-- The queue has taken `n` entries since its creation: the tail is the count on 16 bits, and the phase
-- tells the parity of the lap.
pub record HasTaken (q : EnaCq) (n : ℕ) : Type 0 where
  pub order : ℕ
  pub small : order ≤ 16
  pub depth_eq : q.depth ≡ pow2 order
  pub tail_eq : q.tail ≡ u16 n
  pub phase_eq : q.phase ≡ lap_phase q.depth n

-- The slot of entry number `n`
abbrev pub slot_of : EnaCq → ℕ → ℕ
slot_of q n = u64 (q.base + n % q.depth * q.entry_size)

pow2_16 : (k : ℕ) → k ≤ 16 → pow2 k ≤ 2 ^ 16
pow2_16 k h = le_of_dvd (omega arith) (pow2_le16-dvd k h)

pub depth_mask-pow2 : (k x : ℕ) → k ≤ 16 → bit_and x (depth_mask (pow2 k)) ≡ x % pow2 k
depth_mask-pow2 k x h = ap (bit_and x) mask ∙ bit_and_mask k x
  where
    mask : depth_mask (pow2 k) ≡ pow2 k - 1
    mask = omega (arith, pow2_16 k h, pow2-pos k)

-- The slot of a count on 16 bits is that of the count.
pub slot_of_count : (k n : ℕ) → k ≤ 16 → bit_and (u16 n) (depth_mask (pow2 k)) ≡ n % pow2 k
slot_of_count k n h = depth_mask-pow2 k (u16 n) h ∙ mod-mod_of_dvd (pow2 k) n (pow2_le16-dvd k h)

module _ {q : EnaCq} (n : ℕ) (t : HasTaken q n) where
  next_tail : u16 (q.tail + 1) ≡ u16 (n + 1)
  next_tail = omega (arith, t.tail_eq)

  next_slot : bit_and (u16 (q.tail + 1)) (depth_mask q.depth) ≡ (n + 1) % q.depth
  next_slot = rw (next_tail, t.depth_eq) (slot_of_count t.order (n + 1) t.small)

  next_phase :
      (if bit_and (u16 (q.tail + 1)) (depth_mask q.depth) == 0 then not q.phase else q.phase)
      ≡ lap_phase q.depth (n + 1)
  next_phase =
      rw (next_slot, t.phase_eq)
        (sym (lap_phase_step q.depth n (omega (arith, t.depth_eq, pow2-pos t.order))))

  -- An entry more is counted.
  pub cq_advance-HasTaken : HasTaken (cq_advance q) (n + 1)
  unfolding cq_advance
  cq_advance-HasTaken = record {
    order = t.order;
    small = t.small;
    depth_eq = t.depth_eq;
    tail_eq = next_tail;
    phase_eq = next_phase;
  }

  pub cq_slot_addr-HasTaken : cq_slot_addr q ≡ u64 (q.base + n % q.depth * q.entry_size)
  unfolding cq_slot_addr
  cq_slot_addr-HasTaken =
      ap (λ t. u64 (q.base + t * q.entry_size))
        (rw (t.tail_eq, t.depth_eq) (slot_of_count t.order n t.small))

-- Entry number `n` of a used queue goes to slot `n % depth`, one write of `entry_size` bytes; the
-- queue then has taken `n + 1` entries, and the other queues are as they were.
pub cq_push_lem :
    (s : EnaState) (c n : ℕ) (cdesc : List ℕ)
    → (s.cq c).used ≡ true
    → HasTaken (s.cq c) n
    → (s' : EnaState) × (cq_push s c cdesc ≡ ok s')
      × HasTaken (s'.cq c) (n + 1)
      × (s'.trace
          ≡ dma_write
              (u64 ((s.cq c).base + n % (s.cq c).depth * (s.cq c).entry_size))
              (take (s.cq c).entry_size cdesc)
            ∷ s.trace)
      × ((j : ℕ) → j ≢ c → s'.cq j ≡ s.cq j)
unfolding cq_push cq_advance cq_slot_addr
cq_push_lem s c n cdesc u t = (
  set_cq (dma_write_bytes s (cq_slot_addr q) (take q.entry_size cdesc)) c (cq_advance q),
  rw u,
  rw (update_self s.cq c (cq_advance q)) (cq_advance-HasTaken n t),
  rw (cq_slot_addr-HasTaken n t),
  λ j ne. update-ne s.cq c (cq_advance q) j ne,
)
  where
    q : EnaCq
    q = s.cq c
