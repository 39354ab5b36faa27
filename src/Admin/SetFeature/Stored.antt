-- ===== src/Admin/SetFeature/Stored.antt =====
-- What the RSS cases of SET_FEATURE in hw/ena_admin.c keep of the driver's buffer.
use ena.Base.{
  not-false, ℕ, ◌+◌, ◌*◌, ◌<◌, List, Outcome, ok, ◌≡◌, refl, arith, ltb, ==_iff, if_both, Ends,
  Ends-bind-eq, le16, le32,
}
use ena.Host.{Host}
use ena.Device.{EnaState, dma_read, rss_ind_tbl_size}
use ena.Rss.{rss_key_parts, rss_proto_num}
use ena.Admin.{Reply, success, ctrl_buf}
use ena.Admin.SetFeature.{
  set_ind_table, set_table, set_hash_function, set_key, set_hash_input, set_fields, selected_fields,
}
use ena.Admin.SetFeature.Effects.{ctrl_buf-Ends}

-- A command that succeeds has `P` of its buffer and its state.
abbrev pub Sets : (cmd : List ℕ) → (need : ℕ) → (ℕ → EnaState → Type 0) → Reply → Type 0
Sets cmd need P r = r.1 ≡ success → (buf : ℕ) × (ctrl_buf cmd need ≡ ok buf) × P buf r.0

module _ (host : Host) (s : EnaState) where
  -- The indirection table is that of the buffer.
  abbrev pub TableOf : ℕ → EnaState → Type 0
  TableOf buf t =
      (i : ℕ) → i < rss_ind_tbl_size → t.rss.ind_tbl i ≡ le16 (dma_read host s buf 512).1 (i * 4)

  pub set_ind_table-TableOf :
      (cmd : List ℕ) → Ends (Sets cmd 512 TableOf) (set_ind_table host s cmd)
  unfolding set_ind_table set_table
  set_ind_table-TableOf cmd =
      if_both R _ (λ _ e. cc)
        (λ _.
          if_both R _ (λ _. tt)
            (λ _.
              Ends-bind-eq (λ _. Unit {0}) (Sets cmd 512 TableOf) _ _ (ctrl_buf-Ends cmd 512)
                (λ buf found _.
                  if_both R _ (λ _ e. cc)
                    (λ _.
                      if_both R _ (λ _ e. cc)
                        (λ _ _. (
                          buf,
                          found,
                          λ i lt.
                              if_both (λ k. k ≡ le16 (dma_read host s buf 512).1 (i * 4))
                                (ltb i rss_ind_tbl_size) (λ _. refl)
                                (λ f. absurd (ground (arith, f, lt))),
                        ))))))
    where
      R : Outcome Reply → Type 0
      R = Ends (Sets cmd 512 TableOf)

  -- The hash key is that of the buffer.
  abbrev pub KeyOf : List ℕ → ℕ → EnaState → Type 0
  KeyOf cmd buf t =
      (t.rss.init_val ≡ le32 cmd 28)
      × (t.rss.key_parts ≡ rss_key_parts)
      × ((i : ℕ) → i < rss_key_parts → t.rss.key i ≡ le32 (dma_read host s buf 48).1 (8 + i * 4))

  pub set_hash_function-KeyOf :
      (cmd : List ℕ) → Ends (Sets cmd 48 (KeyOf cmd)) (set_hash_function host s cmd)
  unfolding set_hash_function set_key
  set_hash_function-KeyOf cmd =
      if_both R _ (λ _ e. cc)
        (λ _.
          Ends-bind-eq (λ _. Unit {0}) (Sets cmd 48 (KeyOf cmd)) _ _ (ctrl_buf-Ends cmd 48)
            (λ buf found _.
              if_both R _ (λ _ e. cc)
                (λ _.
                  if_both R _ (λ _ e. cc)
                    (λ parts _. (
                      buf,
                      found,
                      (
                        refl,
                        (==_iff _ _).0 (not-false parts),
                        λ i lt.
                            if_both (λ k. k ≡ le32 (dma_read host s buf 48).1 (8 + i * 4))
                              (ltb i rss_key_parts) (λ _. refl)
                              (λ f. absurd (ground (arith, f, lt))),
                      ),
                    )))))
    where
      R : Outcome Reply → Type 0
      R = Ends (Sets cmd 48 (KeyOf cmd))

  -- The hash inputs are those of the buffer, masked.
  abbrev pub FieldsOf : ℕ → EnaState → Type 0
  FieldsOf buf t =
      (i : ℕ) → i < rss_proto_num → t.rss.fields i ≡ selected_fields (dma_read host s buf 256).1 i

  pub set_hash_input-FieldsOf :
      (cmd : List ℕ) → Ends (Sets cmd 256 FieldsOf) (set_hash_input host s cmd)
  unfolding set_hash_input set_fields
  set_hash_input-FieldsOf cmd =
      Ends-bind-eq (λ _. Unit {0}) (Sets cmd 256 FieldsOf) _ _ (ctrl_buf-Ends cmd 256)
        (λ buf found _.
          if_both R _ (λ _ e. cc)
            (λ _.
              if_both R _ (λ _ e. cc)
                (λ _ _. (
                  buf,
                  found,
                  λ i lt.
                      if_both (λ k. k ≡ selected_fields (dma_read host s buf 256).1 i)
                        (ltb i rss_proto_num) (λ _. refl) (λ f. absurd (ground (arith, f, lt))),
                ))))
    where
      R : Outcome Reply → Type 0
      R = Ends (Sets cmd 256 FieldsOf)
