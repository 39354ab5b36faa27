-- ===== src/Admin/SetFeature/Table.antt =====
-- The indirection tables that `ena_set_feature` of hw/ena_admin.c accepts.
use ena.Admin.Search.{all_below-true, all_below-false}
use ena.Base.{
  not-false, not-true, ℕ, ◌*◌, ◌<◌, true, false, Outcome, ◌≡◌, ◌⊎◌, inl, inr, refl, arith, ltb,
  ==_iff, if_both, Total, le16,
}
use ena.Host.{Host}
use ena.Device.{EnaState, dma_read, max_sq, rss_ind_tbl_size}
use ena.Rx.{is_rx}
use ena.Admin.{Reply, success, illegal_parameter}
use ena.Admin.SetFeature.{set_table, entry_usable}

-- An entry that a frame can be sent by: the index of a used RX queue
abbrev pub NamesRx : EnaState → ℕ → Type 0
NamesRx s idx = (idx < max_sq) × (is_rx s idx ≡ true)

module _ (host : Host) (s : EnaState) (buf : ℕ) where
  -- The table in the driver's buffer
  abbrev pub given_table : ℕ → ℕ
  given_table j = le16 (dma_read host s buf 512).1 (j * 4)

  -- The table is that of the buffer, and each of its entries names a used RX queue.
  abbrev pub TableSet : Reply → Type 0
  TableSet r =
      (r.1 ≡ success)
      × ((j : ℕ)
          → j < rss_ind_tbl_size
          → (r.0.rss.ind_tbl j ≡ given_table j) × NamesRx s (given_table j))

  -- The command failed without effect: there is no buffer, or an entry that names no used RX queue.
  abbrev pub TableRefused : Reply → Type 0
  TableRefused r =
      (r.1 ≡ illegal_parameter)
      × (r.0 ≡ s)
      × ((buf ≡ 0) ⊎ ((j : ℕ) × (j < rss_ind_tbl_size) × (¬ NamesRx s (given_table j))))

  usable : (j : ℕ) → entry_usable s (dma_read host s buf 512).1 j ≡ true → NamesRx s (given_table j)
  usable j e = (ground (arith, e), ground (arith, e))

  unusable :
      (j : ℕ) → entry_usable s (dma_read host s buf 512).1 j ≡ false → ¬ NamesRx s (given_table j)
  unusable j e (lt, rx) = ground (arith, e, lt, rx)

  -- A new indirection table is taken over from the driver's buffer if each of its 128 entries names a
  -- used RX queue; the command fails, and the device is as it was, if there is no buffer or an entry
  -- does not.
  pub set_table_lem : Total (λ r. TableSet r ⊎ TableRefused r) (set_table host s buf)
  unfolding set_table
  set_table_lem =
      if_both R _ (λ e. inr (refl, refl, inl ((==_iff buf 0).0 e)))
        (λ _.
          if_both R _
            (λ e.
              let (j, lt, bad) = all_below-false rss_ind_tbl_size _ (not-true e) in
              inr (refl, refl, inr (j, lt, unusable j bad)))
            (λ e. inl (
              refl,
              λ j lt. (
                if_both (λ k. k ≡ given_table j) (ltb j rss_ind_tbl_size) (λ _. refl)
                    (λ f. absurd (ground (arith, f, lt))),
                usable j (all_below-true rss_ind_tbl_size _ (not-false e) j lt),
              ),
            )))
    where
      R : Outcome Reply → Type 0
      R = Total (λ r. TableSet r ⊎ TableRefused r)
