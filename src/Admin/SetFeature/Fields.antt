-- ===== src/Admin/SetFeature/Fields.antt =====
-- The hash fields that `ena_set_feature` of hw/ena_admin.c accepts for each protocol.
use ena.Admin.Search.{all_below-true, all_below-false}
use ena.Base.{
  not-false, not-true, ℕ, ◌≤◌, ◌<◌, true, Outcome, ◌≡◌, ◌≢◌, false, ==_iff, ◌⊎◌, inl, inr, refl,
  arith, ltb, if_both, Total,
}
use ena.Base.Bits.{bit_and-le}
use ena.Host.{Host}
use ena.Device.{EnaState, dma_read}
use ena.Rss.{rss_proto_num, rss_supported_fields}
use ena.Admin.{Reply, success}
use ena.Admin.SetFeature.{set_fields, selected_fields}
use ena.Rss.{is_selection}

module _ (host : Host) (s : EnaState) (buf : ℕ) where
  -- The fields that the driver's buffer selects for a protocol, less those that are not supported
  abbrev pub given_fields : ℕ → ℕ
  given_fields = selected_fields (dma_read host s buf 256).1

  -- The fields are those of the buffer: of each protocol none, or both addresses, or both addresses
  -- and both ports.
  abbrev pub FieldsSet : Reply → Type 0
  FieldsSet r =
      (r.1 ≡ success)
      × ((j : ℕ)
          → j < rss_proto_num
          → (r.0.rss.fields j ≡ given_fields j)
            × (is_selection (given_fields j) ≡ true)
            × (given_fields j ≤ rss_supported_fields j))

  -- The command failed without effect: there is no buffer, or another selection of some protocol.
  abbrev pub FieldsRefused : Reply → Type 0
  FieldsRefused r =
      (r.1 ≢ success)
      × (r.0 ≡ s)
      × ((buf ≡ 0) ⊎ ((j : ℕ) × (j < rss_proto_num) × (is_selection (given_fields j) ≡ false)))

  -- A selection of hash fields, less the unsupported ones, is taken over if it is one of the three
  -- that the device knows for each protocol; the command fails, and nothing changes, if there is no
  -- buffer or a selection is another.
  pub set_fields_lem : Total (λ r. FieldsSet r ⊎ FieldsRefused r) (set_fields host s buf)
  unfolding set_fields selected_fields
  set_fields_lem =
      if_both R _ (λ e. inr (λ f. cc, refl, inl ((==_iff buf 0).0 e)))
        (λ _.
          if_both R _ (λ e. inr (λ f. cc, refl, inr (all_below-false rss_proto_num _ (not-true e))))
            (λ e. inl (
              refl,
              λ j lt. (
                if_both (λ f. f ≡ given_fields j) (ltb j rss_proto_num) (λ _. refl)
                    (λ f. absurd (ground (arith, f, lt))),
                all_below-true rss_proto_num _ (not-false e) j lt,
                bit_and-le _ _,
              ),
            )))
    where
      R : Outcome Reply → Type 0
      R = Total (λ r. FieldsSet r ⊎ FieldsRefused r)
