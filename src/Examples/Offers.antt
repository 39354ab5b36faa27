-- ===== src/Examples/Offers.antt =====
-- The theorems about the announced features and limits and about keep-alive events at the concrete
-- device.
use ena.Base.{
  ◌*◌, bit_and, ℕ, ◌+◌, ◌^◌, ◌≤◌, ◌<◌, true, false, ok, ◌≡◌, ◌⊎◌, ◌↔◌, [], refl, arith, le32, has,
}
use ena.Host.{timer_mod, keep_alive}
use ena.Device.{llq_queue_bytes, stats_reset, EnaState, log, keep_alive_interval_ms, min_mtu}
use ena.Reset.{dev_reset, clear_state}
use ena.Examples.{still_host, ready, ready-IsValid}
use ena.Admin.{fail, unsupported_opcode, illegal_parameter, valid_depth}
use ena.Admin.GetFeature.{get_feature_case, dev_attr_resp}
use ena.Admin.SetFeature.{set_feature_case, set_mtu, set_llq, set_aenq}
use ena.Admin.Groups.{told_groups}
use ena.Admin.Announced.{Known, announced_lem}
use ena.Admin.Limits.{Accepts, PicksLlq, told_mtu, told_sq_depth, told_cq_depth, limits_lem}
use ena.Aenq.{keep_alive_tick, keep_alive_payload}
use ena.Aenq.KeepAlive.{Ticked, TellsDrops, keep_alive_tick_lem}

announced_lem_example :
    (has (le32 (dev_attr_resp ready) 8) (2 ^ 14) ≡ true
      → Known (get_feature_case ready [] 14) ⊎ Known (set_feature_case still_host ready [] 14))
    × (has (le32 (dev_attr_resp ready) 8) (2 ^ 14) ≡ false
        → (get_feature_case ready [] 14 ≡ fail ready unsupported_opcode)
          × (set_feature_case still_host ready [] 14 ≡ fail ready unsupported_opcode))
announced_lem_example = announced_lem still_host ready [] 14 (omega arith)

limits_lem_example :
    ((mtu : ℕ) → min_mtu ≤ mtu → mtu ≤ told_mtu ready → Accepts (set_mtu ready mtu))
    × ((mtu : ℕ)
        → (mtu < min_mtu) ⊎ (told_mtu ready < mtu)
        → set_mtu ready mtu ≡ fail ready illegal_parameter)
    × ((d : ℕ)
        → ((still_host.is_power_of_2 d ≡ true) × (16 ≤ d) × (d ≤ told_sq_depth))
          ↔ (valid_depth still_host d ≡ true))
    × (told_cq_depth ≡ told_sq_depth)
    × ((d : ℕ)
        → ((d * 128 ≤ llq_queue_bytes) ↔ (d ≤ told_sq_depth))
          × ((d * 256 ≤ llq_queue_bytes) ↔ (d * 2 ≤ told_sq_depth)))
    × ((location entry descs stride : ℕ)
        → (PicksLlq ready 1 location entry descs stride
            → Accepts (set_llq ready location entry descs stride))
          × (¬ PicksLlq ready 1 location entry descs stride
              → set_llq ready location entry descs stride ≡ fail ready illegal_parameter))
    × ((groups : ℕ)
        → groups < 2 ^ 32
        → (bit_and groups (told_groups ready []) ≡ groups
            → Accepts (set_aenq still_host ready groups))
          × (¬ (bit_and groups (told_groups ready []) ≡ groups)
              → set_aenq still_host ready groups ≡ fail ready illegal_parameter))
unfolding dev_reset clear_state stats_reset
limits_lem_example = limits_lem still_host ready 1 [] refl

keep_alive_tick_lem_example :
    (u : EnaState) × (keep_alive_tick still_host ready
      ≡ ok (log u (timer_mod keep_alive (still_host.clock_ms u.trace + keep_alive_interval_ms))))
    × Ticked still_host ready ready-IsValid u
    × TellsDrops (keep_alive_payload still_host ready) ready
keep_alive_tick_lem_example = keep_alive_tick_lem still_host ready ready-IsValid
