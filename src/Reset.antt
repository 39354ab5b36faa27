-- ===== src/Reset.antt =====
-- `ena_dev_reset` of hw/ena.c, which the device runs at power-on, at a bus reset and when the driver
-- writes DEV_CTL.
use ena.Base.{ℕ, zero, suc, true, false, List, ◌∷◌, ltb, if◌then◌else◌}
use ena.Host.{Event, timer_del, moder, keep_alive}
use ena.Device.{
  EnaState, EnaSq, EnaCq, EnaIrq, EnaTxMeta, set_reg, stats_reset, max_mtu, msix_vectors,
}
use ena.Device.Layout.{reg_version, reg_controller_version, reg_caps, reg_dev_sts, dev_sts_ready}
use ena.Rss.{rss_reset}

abbrev pub zero_meta : EnaTxMeta
zero_meta = record { mss = 0; l3_hdr_len = 0; l3_hdr_off = 0; l4_hdr_len_words = 0 }

abbrev pub zero_sq : EnaSq
zero_sq = record {
  used = false;
  is_tx = false;
  llq = false;
  cq_idx = 0;
  base = 0;
  depth = 0;
  entry_size = 0;
  head = 0;
  tail = 0;
  tx_meta = zero_meta;
}

abbrev pub zero_cq : EnaCq
zero_cq = record {
  used = false;
  base = 0;
  depth = 0;
  entry_size = 0;
  intr_enabled = false;
  msix_vector = 0;
  tail = 0;
  phase = false;
}

-- `memset(irq, 0, offsetof(EnaIrq, moder_timer))` keeps the fields from `moder_timer` on.
abbrev pub clear_irq : EnaIrq → EnaIrq
clear_irq q = record q {
  unmasked = false;
  rx_pending = false;
  tx_pending = false;
  rx_delay_us = 0;
  tx_delay_us = 0;
}

-- `timer_del` of the moderation timers 0, 1, …
unfoldable pub del_moder_timers : ℕ → List Event → List Event
del_moder_timers zero t = t
del_moder_timers (suc i) t = timer_del (moder i) ∷ del_moder_timers i t

-- Everything but the identification registers
unfoldable pub clear_state : EnaState → EnaState
clear_state s = record s {
  reg = λ i. 0;
  aq_head = 0;
  acq_tail = 0;
  acq_phase = true;
  aenq_tail = 0;
  aenq_phase = true;
  aenq_groups = 0;
  mtu = max_mtu;
  host_info_addr = 0;
  debug_area_addr = 0;
  debug_area_size = 0;
  llq_enabled = false;
  llq_entry_size = 0;
  rss = rss_reset;
  sq = λ i. zero_sq;
  cq = λ i. zero_cq;
  irq = λ i. if ltb i msix_vectors then clear_irq (s.irq i) else s.irq i;
  trace = del_moder_timers msix_vectors (timer_del keep_alive ∷ s.trace);
}

-- `(ENA_VERSION_MAJOR << 8) | ENA_VERSION_MINOR`
abbrev pub version_value : ℕ
version_value = 0x200

-- implementation 1, version 0.0.1
abbrev pub controller_version_value : ℕ
controller_version_value = 0x1000001

-- reset timeout 10, 48 address bits, default command timeout
abbrev pub caps_value : ℕ
caps_value = 0x3014

-- `ena_dev_reset`
unfoldable pub dev_reset : EnaState → EnaState
dev_reset s =
    let s1 = stats_reset (clear_state s) in
    let s2 = set_reg s1 reg_version version_value in
    let s3 = set_reg s2 reg_controller_version controller_version_value in
    let s4 = set_reg s3 reg_caps caps_value in set_reg s4 reg_dev_sts dev_sts_ready
