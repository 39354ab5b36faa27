-- ===== src/Aenq/KeepAlive.antt =====
-- The keep-alive events of hw/ena.c: `ena_keep_alive` on a well-formed device.
use ena.Base.{
  ℕ, ◌+◌, ◌%◌, ◌^◌, true, false, List, ok, ◌≡◌, refl, arith, length, le32_at, Bool-cases, inl, inr,
  Total, Total-ok, ◌≤◌, check-Total, le-leb, if_both,
}
use ena.Host.{Host, timer_mod, keep_alive}
use ena.Device.{EnaState, log, keep_alive_interval_ms}
use ena.Invariant.{IsValid}
use ena.Aenq.{aenq_post, keep_alive_payload, arm_keep_alive, keep_alive_tick, aenq_keep_alive}
use ena.Aenq.Ring.{valid-AenqTaken}
use ena.Aenq.Events.{is_lost, Posted, AenqTaken, aenq_post_lem}
use ena.Admin.GetFeature.Stats.{le64, words_sum}

-- The counters that a keep-alive event tells: the dropped frames, and no dropped packets
pub record TellsDrops (b : List ℕ) (s : EnaState) : Type 0 where
  pub size : length b ≡ 24
  pub rx_drops_eq : le64 b 0 ≡ s.rx_drops % 2 ^ 64
  pub tx_drops_eq : le64 b 8 ≡ 0
  pub rx_overruns_eq : le64 b 16 ≡ 0

module _ (host : Host) (s : EnaState) (v : IsValid s) where
  keep_alive_payload-TellsDrops : TellsDrops (keep_alive_payload host s) s
  unfolding keep_alive_payload
  keep_alive_payload-TellsDrops = record {
    size = refl;
    rx_drops_eq =
        words_sum _ 0 _ (le32_at _ 0 _ refl refl refl refl) (le32_at _ 4 _ refl refl refl refl);
    tx_drops_eq =
        words_sum _ 8 0 (le32_at _ 8 0 refl refl refl refl) (le32_at _ 12 0 refl refl refl refl);
    rx_overruns_eq =
        words_sum _ 16 0 (le32_at _ 16 0 refl refl refl refl) (le32_at _ 20 0 refl refl refl refl);
  }

  payload-small : length (keep_alive_payload host s) ≤ 48
  unfolding keep_alive_payload
  payload-small = omega arith

  -- What a tick does before the timer is set again
  pub record Ticked (u : EnaState) : Type 0 where
    pub lost : is_lost s aenq_keep_alive ≡ true → u ≡ s
    pub posted :
        is_lost s aenq_keep_alive ≡ false
        → (n : ℕ) × AenqTaken s n × Posted host s n aenq_keep_alive 0 (keep_alive_payload host s) u

  lost-Total :
      is_lost s aenq_keep_alive ≡ true
      → Total (λ t. t ≡ s) (aenq_post host s aenq_keep_alive 0 (keep_alive_payload host s))
  unfolding aenq_post
  lost-Total l =
      check-Total (λ t. t ≡ s) _ _ (le-leb payload-small)
        (if_both (Total (λ t. t ≡ s)) _ (λ _. refl)
          (λ e.
            if_both (Total (λ t. t ≡ s)) _ (λ _. refl)
              (λ f.
                if_both (Total (λ t. t ≡ s)) _ (λ _. refl)
                  (λ g. absurd (ground (arith, e, f, g, l))))))

  post-Ticked :
      (u : EnaState) × (aenq_post host s aenq_keep_alive 0 (keep_alive_payload host s) ≡ ok u)
      × Ticked u
  post-Ticked = elim (Bool-cases (is_lost s aenq_keep_alive)) [
    | inl l ↦
        (let (u, e, same) = Total-ok (λ t. t ≡ s) _ (lost-Total l) in
          (u, e, record { lost = λ _. same; posted = λ k. absurd (ground (arith, l, k)) }))
    | inr k ↦
        (let (n, taken) = valid-AenqTaken s v (λ z. ground (arith, z, k)) in
          let (u, e, post, lost) =
            aenq_post_lem host s n aenq_keep_alive 0 (keep_alive_payload host s) taken
              payload-small in
          (u, e, record { lost = lost; posted = λ l. (n, taken, post l) }))
  ]

  -- The keep-alive timer of a well-formed device posts an event, if the driver can take one, as the
  -- next entry of the event queue, and is set again for a second later, whatever came of the event.
  -- The event tells the frames that were dropped; the packets that were dropped it tells as 0.
  pub keep_alive_tick_lem :
      (u : EnaState) × (keep_alive_tick host s
        ≡ ok (log u (timer_mod keep_alive (host.clock_ms u.trace + keep_alive_interval_ms))))
      × Ticked u
      × TellsDrops (keep_alive_payload host s) s
  unfolding keep_alive_tick arm_keep_alive
  keep_alive_tick_lem =
      let (u, e, ticked) = post-Ticked in (u, rw e refl, ticked, keep_alive_payload-TellsDrops)
