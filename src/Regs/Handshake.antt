-- ===== src/Regs/Handshake.antt =====
-- The reset handshake of `ena_dev_ctl_write` in hw/ena.c.
use ena.Base.{◌/◌, ◌≢◌, ◌∷◌, ℕ, ◌<◌, true, false, ok, ◌≡◌, refl, has, ltb, arith, if◌then◌else◌}
use ena.Device.{EnaState, get_reg, set_reg, stats_reset, max_mtu, msix_vectors}
use ena.Host.{timer_del, keep_alive}
use ena.Rss.{rss_reset, default_key, rss_key_parts, rss_proto_num, rss_supported_fields}
use ena.Base.{get_or}
use ena.Device.Layout.{
  reg_dev_sts, reg_dev_ctl, reg_version, reg_caps, reg_controller_version, dev_sts_ready,
  dev_sts_reset_in_progress, dev_ctl_dev_reset,
}
use ena.Reset.{
  dev_reset, clear_state, version_value, caps_value, controller_version_value, del_moder_timers,
}
use ena.Regs.{dev_ctl_write, finish_reset, dev_ctl_foreign}

-- What a reset of a device leaves: no queue, the admin and event rings and the moderation of the
-- vectors at their start, nothing that a feature has set, no counts, and the identification
-- registers; every timer is stopped.
pub record IsFresh (before s : EnaState) : Type 0 where
  pub no_sq : (i : ℕ) → (s.sq i).used ≡ false
  pub no_cq : (i : ℕ) → (s.cq i).used ≡ false
  pub mtu_max : s.mtu ≡ max_mtu
  pub llq_off : s.llq_enabled ≡ false
  pub no_groups : s.aenq_groups ≡ 0
  pub aq_start : s.aq_head ≡ 0
  pub acq_start : (s.acq_tail ≡ 0) × (s.acq_phase ≡ true)
  pub aenq_start : (s.aenq_tail ≡ 0) × (s.aenq_phase ≡ true)
  pub no_host : s.host_info_addr ≡ 0
  pub no_debug : (s.debug_area_addr ≡ 0) × (s.debug_area_size ≡ 0)
  pub no_llq_entry : s.llq_entry_size ≡ 0
  pub key_start : (k : ℕ) → s.rss.key k ≡ get_or default_key k 0
  pub all_parts : s.rss.key_parts ≡ rss_key_parts
  pub no_init : s.rss.init_val ≡ 0
  pub all_fields : (k : ℕ) → k < rss_proto_num → s.rss.fields k ≡ rss_supported_fields k
  pub no_table : (k : ℕ) → s.rss.ind_tbl k ≡ 0
  pub no_tx : (s.tx_pkts ≡ 0) × (s.tx_bytes ≡ 0) × (s.tx_drops ≡ 0)
  pub no_rx : (s.rx_pkts ≡ 0) × (s.rx_bytes ≡ 0) × (s.rx_drops ≡ 0)
  pub masked : (v : ℕ) → v < msix_vectors → (s.irq v).unmasked ≡ false
  pub not_pending :
      (v : ℕ) → v < msix_vectors → ((s.irq v).rx_pending ≡ false) × ((s.irq v).tx_pending ≡ false)
  pub no_delays :
      (v : ℕ) → v < msix_vectors → ((s.irq v).rx_delay_us ≡ 0) × ((s.irq v).tx_delay_us ≡ 0)
  pub stopped : s.trace ≡ del_moder_timers msix_vectors (timer_del keep_alive ∷ before.trace)
  pub version : get_reg s reg_version ≡ version_value
  pub caps : get_reg s reg_caps ≡ caps_value
  pub controller_version : get_reg s reg_controller_version ≡ controller_version_value
  pub other_regs :
      (k : ℕ)
      → k ≢ reg_version / 4
      → k ≢ reg_controller_version / 4
      → k ≢ reg_caps / 4
      → k ≢ reg_dev_sts / 4
      → s.reg k ≡ 0

-- The handshake of a reset: a supported DEV_CTL write with the reset bit resets the device and
-- shows RESET_IN_PROGRESS; the write of 0 that follows shows READY; the device then has
-- no queue, the rings, the features, the vectors and the counters at their start, the
-- identification registers, every other register but DEV_STS cleared, and every timer stopped.
pub dev_ctl_write_lem :
    (s : EnaState) (val : ℕ)
    → has val dev_ctl_foreign ≡ false
    → has val dev_ctl_dev_reset ≡ true
    → (s1 : EnaState) × (s2 : EnaState) × (dev_ctl_write s val ≡ ok s1)
      × (get_reg s1 reg_dev_sts ≡ dev_sts_reset_in_progress)
      × (dev_ctl_write s1 0 ≡ ok s2)
      × (get_reg s2 reg_dev_sts ≡ dev_sts_ready)
      × IsFresh s s2
unfolding dev_ctl_write finish_reset dev_reset clear_state stats_reset rss_reset if◌then◌else◌
dev_ctl_write_lem s val supported reset = (
  s1,
  set_reg (set_reg s1 reg_dev_ctl 0) reg_dev_sts dev_sts_ready,
  rw (supported, reset) refl,
  refl,
  refl,
  refl,
  record {
    no_sq = λ i. refl;
    no_cq = λ i. refl;
    mtu_max = refl;
    llq_off = refl;
    no_groups = refl;
    aq_start = refl;
    acq_start = (refl, refl);
    aenq_start = (refl, refl);
    no_host = refl;
    no_debug = (refl, refl);
    no_llq_entry = refl;
    key_start = λ k. refl;
    all_parts = refl;
    no_init = refl;
    all_fields = λ k lt. rw (is_proto k lt) refl;
    no_table = λ k. refl;
    no_tx = (refl, refl, refl);
    no_rx = (refl, refl, refl);
    masked = λ v lt. rw (in_range v lt) refl;
    not_pending = λ v lt. rw (in_range v lt) (refl, refl);
    no_delays = λ v lt. rw (in_range v lt) (refl, refl);
    stopped = refl;
    version = refl;
    caps = refl;
    controller_version = refl;
    other_regs = λ k a b c d. ground (arith, a, b, c, d);
  },
)
  where
    in_range : (v : ℕ) → v < msix_vectors → ltb v msix_vectors ≡ true
    in_range v lt = ground (arith, lt)

    is_proto : (k : ℕ) → k < rss_proto_num → ltb k rss_proto_num ≡ true
    is_proto k lt = ground (arith, lt)

    s1 : EnaState
    s1 = set_reg (set_reg (dev_reset s) reg_dev_ctl val) reg_dev_sts dev_sts_reset_in_progress
