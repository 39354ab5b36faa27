-- ===== src/Aenq/Events.antt =====
-- The AENQ of hw/ena.c as the unbounded sequence of its entries: when an event is posted, to which
-- slot and with which phase.
use ena.Base.{
  Total, Total-ok, check-Total, ℕ, ◌+◌, ◌*◌, ◌%◌, ◌^◌, ◌≤◌, ◌∷◌, bit_and, Bool, true, false, not,
  ◌||◌, List, ok, ◌≡◌, ◌⊎◌, inl, inr, refl, sym, ap, ◌∙◌, arith, ltb, le-leb, ◌==◌, has,
  if◌then◌else◌, if_both, length, u16, u64, sub16,
}
use ena.Base.Bits.{pow2, pow2-pos}
use ena.Base.Wrap.{lap_phase, lap_phase_step, pow2_le16-dvd}
use ena.Host.{Host, Event, dma_write, msix_notify}
use ena.Device.{EnaState, get_reg, admin_msix_vector}
use ena.Device.Layout.{
  reg_aenq_base_hi, reg_aenq_base_lo, reg_aenq_caps, reg_aenq_head_db, reg_aenq_tail, caps_depth,
}
use ena.Irq.{admin_intr}
use ena.Aenq.{aenq_post, aenq_advance, aenq_entry, reg_addr}
use native.Mathlib.Nat.{mod-mod_of_dvd}

-- The depth that AENQ_CAPS names
abbrev pub aenq_depth : EnaState → ℕ
aenq_depth s = u16 (bit_and (get_reg s reg_aenq_caps) caps_depth)

-- The queue has taken `n` entries since its start.
pub record AenqTaken (s : EnaState) (n : ℕ) : Type 0 where
  pub order : ℕ
  pub small : order ≤ 16
  pub depth_eq : aenq_depth s ≡ pow2 order
  pub tail_eq : s.aenq_tail ≡ u16 n
  pub phase_eq : s.aenq_phase ≡ lap_phase (aenq_depth s) n

-- An event of the group is not posted: there is no queue, the group is off, the doorbell is out of
-- range, or the driver has left no free entry.
abbrev pub is_lost : EnaState → (group : ℕ) → Bool
is_lost s group =
    let head_db = u16 (get_reg s reg_aenq_head_db) in
    reg_addr s reg_aenq_base_hi reg_aenq_base_lo == 0
    || aenq_depth s == 0
    || not (has s.aenq_groups (2 ^ group))
    || ltb (aenq_depth s) (sub16 head_db s.aenq_tail)
    || head_db == s.aenq_tail

-- The write of entry number `n`
abbrev pub aenq_write : Host → EnaState → (n group syndrome : ℕ) → List ℕ → Event
aenq_write host s n group syndrome payload =
    dma_write (u64 (reg_addr s reg_aenq_base_hi reg_aenq_base_lo + n % aenq_depth s * 64))
      (aenq_entry host s group syndrome payload)

-- What a post comes to in a state with `n` entries taken
pub record Posted (host : Host) (s : EnaState) (n group syndrome : ℕ) (payload : List ℕ)
    (t : EnaState) : Type 0 where
  pub taken : AenqTaken t (n + 1)
  pub tail_reg : get_reg t reg_aenq_tail ≡ u16 (n + 1)
  pub written :
      (t.trace ≡ aenq_write host s n group syndrome payload ∷ s.trace)
      ⊎ (t.trace
          ≡ msix_notify admin_msix_vector ∷ aenq_write host s n group syndrome payload ∷ s.trace)

module _ (s : EnaState) (n : ℕ) (taken : AenqTaken s n) where
  slot_eq : s.aenq_tail % aenq_depth s ≡ n % aenq_depth s
  slot_eq =
      rw (taken.tail_eq, taken.depth_eq)
        (mod-mod_of_dvd (pow2 taken.order) n (pow2_le16-dvd taken.order taken.small))

  next_tail : u16 (s.aenq_tail + 1) ≡ u16 (n + 1)
  next_tail = omega (arith, taken.tail_eq)

  next_slot : u16 (s.aenq_tail + 1) % aenq_depth s ≡ (n + 1) % aenq_depth s
  next_slot =
      rw (next_tail, taken.depth_eq)
        (mod-mod_of_dvd (pow2 taken.order) (n + 1) (pow2_le16-dvd taken.order taken.small))

  next_phase :
      (if u16 (s.aenq_tail + 1) % aenq_depth s == 0 then not s.aenq_phase else s.aenq_phase)
      ≡ lap_phase (aenq_depth s) (n + 1)
  next_phase =
      rw (next_slot, taken.phase_eq)
        (sym
          (lap_phase_step (aenq_depth s) n (omega (arith, taken.depth_eq, pow2-pos taken.order))))

  pub aenq_advance-AenqTaken :
      (e : Event)
      → AenqTaken (aenq_advance (record s { trace = e ∷ s.trace }) (aenq_depth s)) (n + 1)
  unfolding aenq_advance if◌then◌else◌
  aenq_advance-AenqTaken e = record {
    order = taken.order;
    small = taken.small;
    depth_eq = taken.depth_eq;
    tail_eq = next_tail;
    phase_eq = next_phase;
  }

AenqTaken-same :
    (s t : EnaState) (n : ℕ)
    → t.reg ≡ s.reg
    → t.aenq_tail ≡ s.aenq_tail
    → t.aenq_phase ≡ s.aenq_phase
    → AenqTaken s n
    → AenqTaken t n
AenqTaken-same s t n r e p v = record {
  order = v.order;
  small = v.small;
  depth_eq = rw r v.depth_eq;
  tail_eq = e ∙ v.tail_eq;
  phase_eq = p ∙ rw r v.phase_eq;
}

module _ (host : Host) (s : EnaState) (n group syndrome : ℕ) (payload : List ℕ)
    (taken : AenqTaken s n) where
  -- The write, with the address computed from the tail
  abbrev wrote : Event
  wrote =
      dma_write
        (u64 (reg_addr s reg_aenq_base_hi reg_aenq_base_lo + s.aenq_tail % aenq_depth s * 64))
        (aenq_entry host s group syndrome payload)

  abbrev advanced : EnaState
  advanced = aenq_advance (record s { trace = wrote ∷ s.trace }) (aenq_depth s)

  wrote_eq : wrote ≡ aenq_write host s n group syndrome payload
  wrote_eq =
      ap
        (λ t.
          dma_write (u64 (reg_addr s reg_aenq_base_hi reg_aenq_base_lo + t * 64))
            (aenq_entry host s group syndrome payload))
        (slot_eq s n taken)

  advanced-Posted : Posted host s n group syndrome payload (admin_intr advanced)
  unfolding admin_intr aenq_advance if◌then◌else◌
  advanced-Posted =
      if_both (Posted host s n group syndrome payload) _
        (λ _. record {
          taken = aenq_advance-AenqTaken s n taken wrote;
          tail_reg = next_tail s n taken;
          written = inl (ap (λ w. w ∷ s.trace) wrote_eq);
        })
        (λ _. record {
          taken =
              AenqTaken-same advanced _ (n + 1) refl refl refl
                (aenq_advance-AenqTaken s n taken wrote);
          tail_reg = next_tail s n taken;
          written = inr (ap (λ w. msix_notify admin_msix_vector ∷ w ∷ s.trace) wrote_eq);
        })

  -- What a post comes to
  abbrev Outcomes : EnaState → Type 0
  Outcomes t =
      (is_lost s group ≡ false → Posted host s n group syndrome payload t)
      × (is_lost s group ≡ true → t ≡ s)

  aenq_post-Outcomes :
      length payload ≤ 48 → Total Outcomes (aenq_post host s group syndrome payload)
  unfolding aenq_post
  aenq_post-Outcomes small = check-Total Outcomes _ _ (le-leb small) (
      if_both (Total Outcomes) _ (λ e. (λ l. absurd (ground (arith, e, l)), λ _. refl))
        (λ e.
          if_both (Total Outcomes) _ (λ f. (λ l. absurd (ground (arith, f, l)), λ _. refl))
            (λ f.
              if_both (Total Outcomes) _ (λ g. (λ l. absurd (ground (arith, g, l)), λ _. refl))
                (λ g. (λ _. advanced-Posted, λ l. absurd (ground (arith, e, f, g, l)))))))

  -- `ena_aenq_post` with `n` entries taken returns. An event that can be posted is written as entry
  -- `n`, to slot `n % depth`, the TAIL register is brought up to date and at most one interrupt is
  -- raised; any other event leaves the device as it was.
  pub aenq_post_lem :
      length payload ≤ 48
      → (t : EnaState) × (aenq_post host s group syndrome payload ≡ ok t)
        × (is_lost s group ≡ false → Posted host s n group syndrome payload t)
        × (is_lost s group ≡ true → t ≡ s)
  aenq_post_lem small =
      let r = Total-ok Outcomes _ (aenq_post-Outcomes small) in (r.0, r.1, r.2.0, r.2.1)
