-- ===== src/Examples.antt =====
-- A concrete host and a concrete device, with one RX and one TX queue, for the examples.
pub mod Claims
pub mod Queues
pub mod Signals
pub mod Answers
pub mod Lifetime
pub mod Exchange
pub mod Packets
pub mod Runs
pub mod Offers
pub mod Frames
use ena.Base.{
  take, ◌++◌, update, update_self, ℕ, zero, suc, ◌≤◌, ◌<◌, Bool, true, false, not, List, [], ◌∷◌,
  Option, none, some, ◌≡◌, refl, arith, ◌==◌, ==_iff, replicate, ◌||◌, Bool-cases, inl, inr,
}
use ena.Base.Bits.{pow2}
use ena.Host.{Host, Event, L4Proto}
use ena.Device.{EnaState, EnaCq, EnaSq, EnaIrq, set_sq, set_cq}
use ena.Reset.{zero_meta, zero_sq, zero_cq, dev_reset}
use ena.Rss.{rss_reset}
use ena.Invariant.{core, IsValid, IsDepth, IsValidCq, IsValidSq, set_sq-IsValid, set_cq-IsValid}
use ena.Regs.Restart.{dev_reset-IsValid}
use ena.Admin.Queues.Effects.{PowersOnly}

-- `n` is one of the powers 1, 2, …, `pow2 (k - 1)`.
abbrev pub is_power_below : (k n : ℕ) → Bool
is_power_below zero n = false
is_power_below (suc k) n = n == pow2 k || is_power_below k n

is_power_below-pow2 : (k n : ℕ) → is_power_below k n ≡ true → (j : ℕ) × (n ≡ pow2 j)
is_power_below-pow2 zero n e = cc
is_power_below-pow2 (suc k) n e = elim (Bool-cases (n == pow2 k)) [
  | inl f ↦ (k, (==_iff _ _).0 f)
  | inr f ↦ is_power_below-pow2 k n (ground (arith, e, f))
]

-- A valid descriptor of either direction: 60 bytes, first, last, with a completion, of request 5
abbrev pub desc60 : List ℕ
desc60 = 60 ∷ 0 ∷ 0 ∷ 28 ∷ 5 ∷ 0 ∷ 0 ∷ 0 ∷ 0 ∷ 64 ∷ 0 ∷ 0 ∷ 0 ∷ 0 ∷ 0 ∷ 0 ∷ []

-- A host whose memory reads everywhere as that descriptor with zeros behind it, whose clock stands
-- still and whose network takes all
abbrev pub still_host : Host
still_host = record {
  msix_init_fails = false;
  macaddr_default_if_unset = λ m. m;
  dma_read = λ t a n. (true, take n (desc60 ++ replicate n 0));
  clock_us = λ t. 5;
  clock_ms = λ t. 7;
  link_down = λ t. false;
  llq_ram = λ t a. 0;
  is_power_of_2 = is_power_below 17;
  eth_get_l2_hdr_length = λ b. 14;
  eth_get_l3_proto = λ b n. 2048;
  net_raw_checksum = λ b. 0;
  tx_pkt_parse = λ t. true;
  tx_pkt_build_vheader_result = λ t. true;
  tx_pkt_send_result = λ t. true;
  tx_pkt_get_total_len = λ t. 60;
  rx_pkt_get_protocols = λ b. (true, false, L4Proto.tcp);
  rx_pkt_ip4_fragment = λ b. false;
  rx_pkt_validate_l3_csum = λ b. some true;
  rx_pkt_validate_l4_csum = λ b. some true;
  rx_pkt_calc_rss_hash = λ b t k. 3;
}

pub still_host-PowersOnly : PowersOnly still_host
still_host-PowersOnly n e = is_power_below-pow2 17 n e

abbrev pub blank : EnaState
blank = record {
  reg = λ i. 0;
  aq_head = 0;
  acq_tail = 0;
  acq_phase = false;
  aenq_tail = 0;
  aenq_phase = false;
  aenq_groups = 0;
  mtu = 0;
  host_info_addr = 0;
  debug_area_addr = 0;
  debug_area_size = 0;
  llq_enabled = false;
  llq_entry_size = 0;
  llq_large = false;
  rss = rss_reset;
  sq = λ i. zero_sq;
  cq = λ i. zero_cq;
  irq = λ i. record {
    unmasked = false;
    rx_pending = false;
    tx_pending = false;
    rx_delay_us = 0;
    tx_delay_us = 0;
    vector = i;
  };
  tx_pkts = 0;
  tx_bytes = 0;
  rx_pkts = 0;
  rx_bytes = 0;
  rx_drops = 0;
  tx_drops = 0;
  macaddr = 0 ∷ 0 ∷ 0 ∷ 64 ∷ 0 ∷ 0 ∷ [];
  trace = [];
}

-- A completion queue of 16 entries of 32 bytes
abbrev pub cq16 : EnaCq
cq16 = record {
  used = true;
  base = 4096;
  depth = 16;
  entry_size = 32;
  intr_enabled = true;
  msix_vector = 1;
  tail = 0;
  phase = true;
}

-- A submission queue of 16 entries, two of them posted
abbrev pub sq16 : (is_tx : Bool) → EnaSq
sq16 is_tx = record {
  used = true;
  is_tx = is_tx;
  llq = false;
  cq_idx = 0;
  base = 8192;
  depth = 16;
  entry_size = 0;
  head = 0;
  tail = 2;
  tx_meta = zero_meta;
}

-- The device after a reset, with a completion queue 0, an RX queue 0 and a TX queue 1
abbrev pub ready : EnaState
ready = set_sq (set_sq (set_cq (dev_reset blank) 0 cq16) 0 (sq16 false)) 1 (sq16 true)

pub depth16 : IsDepth 16
depth16 = record { order = 4; low = omega arith; high = omega arith; depth_eq = refl }

pub cq16-IsValidCq : IsValidCq cq16
cq16-IsValidCq = record {
  depth_in = depth16;
  entry_low = omega arith;
  entry_high = omega arith;
  count = 0;
  taken = record {
    order = 4;
    small = omega arith;
    depth_eq = refl;
    tail_eq = refl;
    phase_eq = refl;
  };
}

sq16-IsValidSq : (is_tx : Bool) (cq : ℕ → EnaCq) → cq 0 ≡ cq16 → IsValidSq cq (sq16 is_tx)
sq16-IsValidSq is_tx cq e = record {
  cq_in = omega arith;
  cq_used = rw e refl;
  depth_in = depth16;
  fits = rw e (omega arith);
  head_in = omega arith;
  tail_in = omega arith;
  posted = omega arith;
  rx_entry = λ _. rw e (omega arith);
  llq_tx = λ f. cc;
  llq_line = λ f. cc;
  llq_room = λ f. cc;
}

pub ready-IsValid : IsValid ready
unfolding core dev_reset ena.Reset.clear_state ena.Device.stats_reset
ready-IsValid =
    set_sq-IsValid _ 1 (sq16 true) (λ _. sq16-IsValidSq true _ cq_0) (λ _. omega arith)
      (set_sq-IsValid _ 0 (sq16 false) (λ _. sq16-IsValidSq false _ cq_0) (λ _. omega arith)
        (set_cq-IsValid _ 0 cq16 (λ _. cq16-IsValidCq) (λ j u e. cc)
          (dev_reset-IsValid blank (λ v lt. refl))))
  where
    cq_0 : update (dev_reset blank).cq 0 cq16 0 ≡ cq16
    cq_0 = update_self (dev_reset blank).cq 0 cq16
