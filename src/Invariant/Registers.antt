-- ===== src/Invariant/Registers.antt =====
-- The registers that the invariant reads (`EnaState.regs` of hw/ena.h): VERSION, CONTROLLER_VERSION,
-- CAPS, ACQ_CAPS and AENQ_CAPS.
use ena.Base.{ℕ, ◌/◌, Bool, false, ◌||◌, ◌≡◌, ◌≢◌, arith, ◌==◌, u16, bit_and, update-ne}
use ena.Device.{EnaState, set_reg}
use ena.Device.Layout.{
  reg_version, reg_controller_version, reg_caps, reg_acq_caps, reg_aenq_caps, caps_depth,
}
use ena.Invariant.{core}

-- The offset is one of these registers'.
abbrev pub is_watched : (off : ℕ) → Bool
is_watched off =
    off / 4 == reg_version / 4
    || off / 4 == reg_controller_version / 4
    || off / 4 == reg_caps / 4
    || off / 4 == reg_acq_caps / 4
    || off / 4 == reg_aenq_caps / 4

pub core-set_reg :
    (s : EnaState) (off v : ℕ) → is_watched off ≡ false → core (set_reg s off v) ≡ core s
unfolding core
core-set_reg s off v h = λ i. record (core s) {
  version = kept (reg_version / 4) (λ e. ground (arith, h, e)) i;
  controller_version = kept (reg_controller_version / 4) (λ e. ground (arith, h, e)) i;
  caps = kept (reg_caps / 4) (λ e. ground (arith, h, e)) i;
  acq_depth = u16 (bit_and (kept (reg_acq_caps / 4) (λ e. ground (arith, h, e)) i) caps_depth);
  aenq_depth = u16 (bit_and (kept (reg_aenq_caps / 4) (λ e. ground (arith, h, e)) i) caps_depth);
}
  where
    kept : (k : ℕ) → k ≢ off / 4 → (set_reg s off v).reg k ≡ s.reg k
    kept k ne = update-ne s.reg (off / 4) v k ne
