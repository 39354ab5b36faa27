-- ===== src/Admin/Process/Completions.antt =====
-- The admin completion queue of hw/ena_admin.c as the unbounded sequence of its entries.
use ena.Base.{
  le16_at, drop, bit_and, ℕ, ◌+◌, ◌*◌, ◌%◌, ◌≤◌, ◌∷◌, ◌++◌, replicate, List, ◌≡◌, refl, sym, ap,
  arith, u16, u64, get_or, le16, le16-bytes16,
}
use ena.Base.Bits.{bit_and-le}
use ena.Base.Bits.{pow2, pow2-pos}
use ena.Base.Wrap.{lap_phase, lap_phase_step, pow2_le16-dvd}
use ena.Host.{dma_write}
use ena.Device.{EnaState}
use ena.Aenq.{to_bit}
use ena.Admin.{Reply, status_code, command_id}
use ena.Admin.Process.{take, acq_post, acq_advance, acq_entry, entry_bytes}
use native.Mathlib.Nat.{mod-mod_of_dvd}

-- A queue of `depth` entries has taken `n` of them since its start.
pub record AcqTaken (s : EnaState) (depth n : ℕ) : Type 0 where
  pub order : ℕ
  pub small : order ≤ 16
  pub depth_eq : depth ≡ pow2 order
  pub tail_eq : s.acq_tail ≡ u16 n
  pub phase_eq : s.acq_phase ≡ lap_phase depth n

-- The completion `entry` of the command `cmd` with the reply `r`: entry number `n` of the ring at
-- `base`, written to its slot, with the phase of its lap, the low twelve bits of the command's id,
-- the status, the head of the admin queue and the payload
abbrev pub Completion : (base depth n : ℕ) → List ℕ → Reply → (entry : List ℕ) → EnaState → Type 0
Completion base depth n cmd r entry t =
    (t.trace ≡ dma_write (u64 (base + n % depth * entry_bytes)) entry ∷ r.0.trace)
    × (get_or entry 3 0 ≡ to_bit (lap_phase depth n))
    × (get_or entry 2 0 ≡ status_code r.1)
    × (le16 entry 0 ≡ bit_and (command_id cmd) 0xfff)
    × (le16 entry 6 ≡ u16 r.0.aq_head)
    × (drop 8 entry ≡ take 56 (r.2 ++ replicate 56 0))

-- The completion of a command is entry number `n`: it goes to slot `n % depth`, tells the phase of
-- its lap, the low twelve bits of the command's id, the status, the head of the admin queue and the
-- payload, and the queue then has taken `n + 1` entries.
pub acq_post_lem :
    (base depth n : ℕ) (cmd : List ℕ) (r : Reply)
    → AcqTaken r.0 depth n
    → AcqTaken (acq_post base depth cmd r) depth (n + 1)
      × Completion base depth n cmd r (acq_entry r.0 cmd r.1 r.2) (acq_post base depth cmd r)
unfolding acq_post acq_advance acq_entry
acq_post_lem base depth n cmd r t = (
  record {
    order = t.order;
    small = t.small;
    depth_eq = t.depth_eq;
    tail_eq = next_tail;
    phase_eq =
        rw (next_slot, t.phase_eq)
          (sym (lap_phase_step depth n (omega (arith, t.depth_eq, pow2-pos t.order))));
  },
  (
    ap (λ k. dma_write (u64 (base + k * entry_bytes)) (acq_entry r.0 cmd r.1 r.2) ∷ r.0.trace) slot,
    ap to_bit t.phase_eq,
    refl,
    le16-bytes16 _ _ (omega (arith, bit_and-le (command_id cmd) 4095)),
    le16_at _ 6 r.0.aq_head refl refl,
    refl,
  ),
)
  where
    next_tail : u16 (r.0.acq_tail + 1) ≡ u16 (n + 1)
    next_tail = omega (arith, t.tail_eq)

    slot : r.0.acq_tail % depth ≡ n % depth
    slot =
        rw (t.tail_eq, t.depth_eq) (mod-mod_of_dvd (pow2 t.order) n (pow2_le16-dvd t.order t.small))

    next_slot : u16 (r.0.acq_tail + 1) % depth ≡ (n + 1) % depth
    next_slot =
        rw (next_tail, t.depth_eq)
          (mod-mod_of_dvd (pow2 t.order) (n + 1) (pow2_le16-dvd t.order t.small))
