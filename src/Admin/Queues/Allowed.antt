-- ===== src/Admin/Queues/Allowed.antt =====
-- The commands that `ena_create_cq` and `ena_create_sq` of hw/ena_admin.c accept, and their tests.
use ena.Admin.Search.{HasFree}
use ena.Base.{
  ==-ne, ℕ, ◌*◌, ◌/◌, ◌^◌, ◌≤◌, ◌<◌, bit_and, true, false, not, ◌&&◌, ◌||◌, ◌≡◌, ◌≢◌, ◌⊎◌, inl, inr,
  arith, ltb, ◌==◌, has,
}
use ena.Host.{Host}
use ena.Device.{EnaState, max_cq, msix_vectors, msix_vector_none, llq_queue_bytes}
use ena.Admin.{valid_depth}
use ena.Admin.Queues.{
  CreateCqCmd, CreateSqCmd, cq_words, bad_vector, bad_sq_kind, bad_sq_binding, sq_direction,
  sq_is_tx, sq_llq, direction_tx, direction_rx, placement_host, interrupt_mode_enabled,
}

-- A depth that a queue may have
pub record DepthAllowed (host : Host) (depth : ℕ) : Type 0 where
  pub power : host.is_power_of_2 depth ≡ true
  pub low : 16 ≤ depth
  pub high : depth ≤ 1024

-- A completion queue that the device can make: entries of 2, 4 or 8 words, a base, an IO vector if it
-- is to send interrupts, and a place.
pub record CqAllowed (host : Host) (s : EnaState) (c : CreateCqCmd) : Type 0 where
  pub depth : DepthAllowed host c.cq_depth
  pub words : (cq_words c ≡ 2) ⊎ ((cq_words c ≡ 4) ⊎ (cq_words c ≡ 8))
  pub has_base : c.cq_ba ≢ 0
  pub vector :
      has c.cq_caps_1 interrupt_mode_enabled ≡ true
      → c.msix_vector ≢ msix_vector_none
      → (1 ≤ c.msix_vector) × (c.msix_vector < msix_vectors)
  pub place : HasFree (λ j. (s.cq j).used)

-- A submission queue that the device can make: a TX or an RX queue in host memory, or a TX queue in
-- LLQ memory that is enabled and large enough, contiguous, with a completion for each descriptor, on
-- a used completion queue with a slot for each of its entries.
pub record SqAllowed (host : Host) (s : EnaState) (c : CreateSqCmd) : Type 0 where
  pub direction : (sq_direction c ≡ direction_tx) ⊎ (sq_direction c ≡ direction_rx)
  pub placement : (bit_and c.sq_caps_2 15 ≡ placement_host) ⊎ (sq_llq c ≡ true)
  pub llq_tx : sq_llq c ≡ true → sq_is_tx c ≡ true
  pub llq_on : sq_llq c ≡ true → s.llq_enabled ≡ true
  pub per_desc : bit_and c.sq_caps_2 0x70 / 2 ^ 4 ≡ 0
  pub contiguous : has c.sq_caps_3 1 ≡ true
  pub cq_in : c.cq_idx < max_cq
  pub cq_used : (s.cq c.cq_idx).used ≡ true
  pub depth : DepthAllowed host c.sq_depth
  pub fits : c.sq_depth ≤ (s.cq c.cq_idx).depth
  pub has_base : sq_llq c ≡ false → c.sq_ba ≢ 0
  pub rx_entry : sq_is_tx c ≡ false → 16 ≤ (s.cq c.cq_idx).entry_size
  pub place : HasFree (λ j. (s.sq j).used)
  pub llq_room : sq_llq c ≡ true → c.sq_depth * s.llq_entry_size ≤ llq_queue_bytes

valid_depth-Allowed : (host : Host) (d : ℕ) → valid_depth host d ≡ true → DepthAllowed host d
unfolding valid_depth
valid_depth-Allowed host d h = record {
  power = ground (arith, h);
  low = ground (arith, h);
  high = ground (arith, h);
}

Allowed-valid_depth : (host : Host) (d : ℕ) → DepthAllowed host d → valid_depth host d ≡ true
unfolding valid_depth
Allowed-valid_depth host d a = ground (arith, a.power, a.low, a.high)

module _ (host : Host) (s : EnaState) (c : CreateCqCmd) where
  pub bad_shape-not_allowed :
      (not (valid_depth host c.cq_depth)
          || (not (cq_words c == 2) && not (cq_words c == 4) && not (cq_words c == 8)))
        ≡ true
      → ¬ CqAllowed host s c
  bad_shape-not_allowed e a = elim a.words [
    | inl w ↦ ground (arith, e, w, Allowed-valid_depth host c.cq_depth a.depth)
    | inr (inl w) ↦ ground (arith, e, w, Allowed-valid_depth host c.cq_depth a.depth)
    | inr (inr w) ↦ ground (arith, e, w, Allowed-valid_depth host c.cq_depth a.depth)
  ]

  pub bad_vector-not_allowed : bad_vector c ≡ true → ¬ CqAllowed host s c
  bad_vector-not_allowed e a = ground (arith, e, a.vector)

  pub tests-CqAllowed :
      (not (valid_depth host c.cq_depth)
          || (not (cq_words c == 2) && not (cq_words c == 4) && not (cq_words c == 8)))
        ≡ false
      → (c.cq_ba == 0) ≡ false
      → bad_vector c ≡ false
      → HasFree (λ j. (s.cq j).used)
      → CqAllowed host s c
  tests-CqAllowed shape base vec place = record {
    depth = valid_depth-Allowed host c.cq_depth (ground (arith, shape));
    words = ground (arith, shape);
    has_base = ==-ne base;
    vector = λ on given. (ground (arith, vec, on, given), ground (arith, vec, on, given));
    place = place;
  }

module _ (host : Host) (s : EnaState) (c : CreateSqCmd) where
  pub bad_kind-not_allowed : bad_sq_kind s c ≡ true → ¬ SqAllowed host s c
  unfolding bad_sq_kind
  bad_kind-not_allowed e a = ground (arith, e, a.direction, a.placement, a.llq_tx, a.llq_on)

  pub bad_binding-not_allowed : bad_sq_binding host s c ≡ true → ¬ SqAllowed host s c
  unfolding bad_sq_binding
  bad_binding-not_allowed e a = ground (
    arith,
    e,
    a.cq_in,
    a.cq_used,
    Allowed-valid_depth host c.sq_depth a.depth,
    a.fits,
    a.has_base,
    a.rx_entry,
  )

  pub no_room-not_allowed :
      (sq_llq c && ltb llq_queue_bytes (c.sq_depth * s.llq_entry_size)) ≡ true
      → ¬ SqAllowed host s c
  no_room-not_allowed e a = ground (arith, e, a.llq_room)

  pub tests-SqAllowed :
      bad_sq_kind s c ≡ false
      → not (bit_and c.sq_caps_2 0x70 / 2 ^ 4 == 0) ≡ false
      → not (has c.sq_caps_3 1) ≡ false
      → bad_sq_binding host s c ≡ false
      → HasFree (λ j. (s.sq j).used)
      → (sq_llq c && ltb llq_queue_bytes (c.sq_depth * s.llq_entry_size)) ≡ false
      → SqAllowed host s c
  unfolding bad_sq_kind bad_sq_binding
  tests-SqAllowed kind desc contig binding place room = record {
    direction = ground (arith, kind);
    placement = ground (arith, kind);
    llq_tx = λ e. ground (arith, kind, e);
    llq_on = λ e. ground (arith, kind, e);
    per_desc = ground (arith, desc);
    contiguous = ground (arith, contig);
    cq_in = ground (arith, binding);
    cq_used = ground (arith, binding);
    depth = valid_depth-Allowed host c.sq_depth (ground (arith, binding));
    fits = ground (arith, binding);
    has_base = λ e z. ground (arith, binding, e, z);
    rx_entry = λ e. ground (arith, binding, e);
    place = place;
    llq_room = λ e. ground (arith, room, e);
  }
