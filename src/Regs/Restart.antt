-- ===== src/Regs/Restart.antt =====
-- `ena_dev_reset` and the restart of the admin completion queue in `ena_reg_write` of hw/ena.c over
-- well-formed devices.
use ena.Base.{
  refl, if◌then◌else◌, inl, inr, bit_and, ◌<◌, ℕ, ◌≤◌, true, false, ◌≡◌, sym, subst, arith, ltb,
  u16, if_both,
}
use ena.Host.{Host}
use ena.Device.{msix_vectors, EnaIrq, EnaState, set_reg, stats_reset}
use ena.Invariant.Registers.{is_watched, core-set_reg}
use ena.Base.Bits.{bit_and-le, pow2, pow2-le}
use ena.Device.Layout.{caps_depth}
use ena.Rss.{rss_reset, rss_proto_num, is_selection, rss_supported_fields}
use ena.Invariant.{IsSelected, IsAdminRing, core, IsValid, IsValidCore}
use ena.Reset.{dev_reset, clear_state}
use ena.Regs.{queue_caps_fit}
use ena.Regs.Write.{restart_aenq, restart_acq}
use ena.Admin.Queues.Effects.{PowersOnly, phase_zero}
use native.Mathlib.Decide.{dec_lt}

-- A state that differs in what the invariant does not read
pub IsValid-core : (s t : EnaState) → core t ≡ core s → IsValid s → IsValid t
IsValid-core s t e v = subst IsValidCore (sym e) v

pub IsValid-set_reg :
    (s : EnaState) (off v : ℕ) → is_watched off ≡ false → IsValid s → IsValid (set_reg s off v)
IsValid-set_reg s off v e valid = IsValid-core s _ (core-set_reg s off v e) valid

-- The number that a vector sends is its index.
abbrev pub IsNumbered : EnaState → Type 0
IsNumbered s = (v : ℕ) → v < msix_vectors → (s.irq v).vector ≡ v

pub IsValid-IsNumbered : (s : EnaState) → IsValid s → IsNumbered s
unfolding core
IsValid-IsNumbered s v = v.vectors

-- The numbers are kept by the reset.
cleared-IsNumbered : (s : EnaState) → IsNumbered s → IsNumbered (clear_state s)
unfolding clear_state
cleared-IsNumbered s n v lt =
    if_both (λ (q : EnaIrq). q.vector ≡ v) (ltb v msix_vectors) (λ _. n v lt) (λ _. n v lt)

rss_supported_fields-is_selection : (i : ℕ) → is_selection (rss_supported_fields i) ≡ true
unfolding rss_supported_fields
rss_supported_fields-is_selection i =
    if_both (λ k. is_selection k ≡ true) _ (λ _. refl)
      (λ _. if_both (λ k. is_selection k ≡ true) _ (λ _. refl) (λ _. refl))

-- The selections after a reset are all that the device supports.
rss_reset-IsSelected : (i : ℕ) → i < rss_proto_num → IsSelected i (rss_reset.fields i)
unfolding rss_reset
rss_reset-IsSelected i lt =
    if_both (IsSelected i) (ltb i rss_proto_num)
      (λ _. (rss_supported_fields-is_selection i, omega arith))
      (λ f. absurd (ground (arith, f, lt)))

-- A reset makes any device with numbered vectors well-formed.
pub dev_reset-IsValid : (s : EnaState) → IsNumbered s → IsValid (dev_reset s)
unfolding dev_reset clear_state core stats_reset if◌then◌else◌
dev_reset-IsValid s n = record {
  mtu_low = omega arith;
  mtu_high = omega arith;
  aq_head_in = omega arith;
  llq_size = λ e. cc;
  cqs = λ i e. cc;
  sqs = λ i e. cc;
  sq_in = λ i e. cc;
  vectors = cleared-IsNumbered s n;
  version_eq = refl;
  controller_version_eq = refl;
  caps_eq = refl;
  acq = inl refl;
  selected = rss_reset-IsSelected;
  aenq = inl refl;
}

order_16 : (k : ℕ) → pow2 k ≤ 65535 → k ≤ 16
order_16 k h = elim (dec_lt 16 k) [
  | yes lt ↦ absurd (omega (arith, h, pow2-le 17 k (omega (arith, lt))))
  | no ge ↦ omega arith
]

module _ (host : Host) (powers : PowersOnly host) where
  -- A new depth of the admin completion queue is a power of two.
  fresh-IsAdminRing :
      (val : ℕ) → queue_caps_fit host val ≡ true → IsAdminRing (u16 (bit_and val caps_depth)) 0 true
  unfolding queue_caps_fit
  fresh-IsAdminRing val fits =
      let p = powers (bit_and val caps_depth) (ground (arith, fits)) in
      let same : u16 (bit_and val caps_depth) ≡ pow2 p.0 =
        omega (arith, p.1, bit_and-le val caps_depth) in
      record {
        order = p.0;
        small = order_16 p.0 (omega (arith, p.1, bit_and-le val caps_depth));
        depth_eq = same;
        count = 0;
        tail_eq = refl;
        phase_eq = phase_zero _;
      }

  pub restart_acq-IsValid :
      (s : EnaState) (val : ℕ)
      → queue_caps_fit host val ≡ true
      → IsValid s
      → IsValid (restart_acq s val)
  unfolding core if◌then◌else◌
  restart_acq-IsValid s val fits v = record {
    mtu_low = v.mtu_low;
    mtu_high = v.mtu_high;
    aq_head_in = v.aq_head_in;
    llq_size = v.llq_size;
    cqs = v.cqs;
    sqs = v.sqs;
    sq_in = v.sq_in;
    vectors = v.vectors;
    version_eq = v.version_eq;
    controller_version_eq = v.controller_version_eq;
    caps_eq = v.caps_eq;
    acq = inr (fresh-IsAdminRing val fits);
    selected = v.selected;
    aenq = v.aenq;
  }

  pub restart_aenq-IsValid :
      (s : EnaState) (val : ℕ)
      → queue_caps_fit host val ≡ true
      → IsValid s
      → IsValid (restart_aenq s val)
  unfolding core if◌then◌else◌
  restart_aenq-IsValid s val fits v = record {
    mtu_low = v.mtu_low;
    mtu_high = v.mtu_high;
    aq_head_in = v.aq_head_in;
    llq_size = v.llq_size;
    cqs = v.cqs;
    sqs = v.sqs;
    sq_in = v.sq_in;
    vectors = v.vectors;
    version_eq = v.version_eq;
    controller_version_eq = v.controller_version_eq;
    caps_eq = v.caps_eq;
    acq = v.acq;
    selected = v.selected;
    aenq = inr (fresh-IsAdminRing val fits);
  }
