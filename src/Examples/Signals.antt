-- ===== src/Examples/Signals.antt =====
-- The theorems about events and about the reset handshake at the concrete device.
use ena.Base.{◌∷◌, [], true, false, ok, ◌≡◌, refl, arith, if◌then◌else◌}
use ena.Device.{EnaState, set_reg, get_reg}
use ena.Device.Layout.{
  reg_aenq_base_lo, reg_aenq_caps, reg_aenq_head_db, reg_dev_sts, dev_sts_ready,
  dev_sts_reset_in_progress,
}
use ena.Reset.{dev_reset, clear_state}
use ena.Device.{stats_reset}
use ena.Examples.{still_host, ready}
use ena.Aenq.{aenq_post}
use ena.Aenq.Events.{AenqTaken, Posted, is_lost, aenq_post_lem}
use ena.Regs.{dev_ctl_write}
use ena.Regs.Handshake.{IsFresh, dev_ctl_write_lem}

-- The device with an AENQ of 16 entries at address 4096, all of them free, and all groups enabled
abbrev listening : EnaState
listening =
    record (set_reg (set_reg (set_reg ready reg_aenq_base_lo 4096) reg_aenq_caps 16)
      reg_aenq_head_db 16) { aenq_groups = 17 }

listening-AenqTaken : AenqTaken listening 0
unfolding if◌then◌else◌ dev_reset clear_state stats_reset
listening-AenqTaken = record {
  order = 4;
  small = omega arith;
  depth_eq = refl;
  tail_eq = refl;
  phase_eq = refl;
}

aenq_post_lem_example :
    (t : EnaState) × (aenq_post still_host listening 0 0 (1 ∷ []) ≡ ok t)
    × (is_lost listening 0 ≡ false → Posted still_host listening 0 0 0 (1 ∷ []) t)
    × (is_lost listening 0 ≡ true → t ≡ listening)
aenq_post_lem_example =
    aenq_post_lem still_host listening 0 0 0 (1 ∷ []) listening-AenqTaken (omega arith)

dev_ctl_write_lem_example :
    (s1 : EnaState) × (s2 : EnaState) × (dev_ctl_write ready 1 ≡ ok s1)
    × (get_reg s1 reg_dev_sts ≡ dev_sts_reset_in_progress)
    × (dev_ctl_write s1 0 ≡ ok s2)
    × (get_reg s2 reg_dev_sts ≡ dev_sts_ready)
    × IsFresh ready s2
dev_ctl_write_lem_example = dev_ctl_write_lem ready 1 refl refl
