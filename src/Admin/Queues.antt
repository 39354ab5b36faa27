-- ===== src/Admin/Queues.antt =====
-- Creation and destruction of queues: `ena_create_cq`, `ena_destroy_cq`, `ena_create_sq` and
-- `ena_destroy_sq` of hw/ena_admin.c.
pub mod Effects
pub mod Allowed
pub mod Commands
use ena.Base.{
  ℕ, zero, suc, ◌+◌, ◌*◌, ◌/◌, ◌^◌, bit_and, Bool, true, false, not, ◌&&◌, ◌||◌, List, [], ◌∷◌,
  ◌++◌, Outcome, ok, unsupported, ltb, leb, ◌==◌, has, if◌then◌else◌, byte, le16, le32, bytes16,
  bytes32, replicate,
}
use ena.Host.{Host}
use ena.Device.{
  EnaState, EnaCq, EnaSq, set_sq, set_cq, mem_addr, max_cq, max_sq, msix_vectors, msix_vector_none,
  admin_msix_vector, llq_queue_bytes, reg_sq_db_base, reg_cq_unmask_base,
}
use ena.Reset.{zero_meta}
use ena.Admin.{
  Reply, fail, succeed, valid_depth, first_free, all_below, illegal_parameter, unsupported_opcode,
  resource_allocation_failure, resource_busy,
}

-- `struct ena_admin_aq_create_cq_cmd`, decoded
pub record CreateCqCmd : Type 0 where
  pub cq_caps_1 : ℕ
  pub cq_caps_2 : ℕ
  pub cq_depth : ℕ
  pub msix_vector : ℕ
  pub cq_ba : ℕ

unfoldable pub create_cq_cmd : List ℕ → CreateCqCmd
create_cq_cmd cmd = record {
  cq_caps_1 = byte cmd 4;
  cq_caps_2 = byte cmd 5;
  cq_depth = le16 cmd 6;
  msix_vector = le32 cmd 8;
  cq_ba = mem_addr cmd 12;
}

-- `struct ena_admin_acq_create_cq_resp_desc` behind the common descriptor
unfoldable pub create_cq_resp : (cq_idx depth : ℕ) → List ℕ
create_cq_resp cq_idx depth =
    bytes16 cq_idx ++ bytes16 depth ++ replicate 8 0 ++ bytes32 (reg_cq_unmask_base + cq_idx * 4)

abbrev pub interrupt_mode_enabled : ℕ
interrupt_mode_enabled = 32

abbrev pub cq_words : CreateCqCmd → ℕ
cq_words c = bit_and c.cq_caps_2 31

-- An interrupt is asked for on a vector that is neither an IO vector nor none.
abbrev pub bad_vector : CreateCqCmd → Bool
bad_vector c =
    has c.cq_caps_1 interrupt_mode_enabled
    && not (c.msix_vector == msix_vector_none)
    && (c.msix_vector == admin_msix_vector || leb msix_vectors c.msix_vector)

unfoldable pub new_cq : CreateCqCmd → EnaCq
new_cq c = record {
  used = true;
  base = c.cq_ba;
  depth = c.cq_depth;
  entry_size = cq_words c * 4;
  intr_enabled = has c.cq_caps_1 interrupt_mode_enabled;
  msix_vector = c.msix_vector;
  tail = 0;
  phase = true;
}

module _ (host : Host) where
  -- `ena_create_cq`
  unfoldable pub create_cq : EnaState → CreateCqCmd → Outcome Reply
  create_cq s c =
      let words = cq_words c in
      let i = first_free (λ j. (s.cq j).used) max_cq in
      if not (valid_depth host c.cq_depth)
        || (not (words == 2) && not (words == 4) && not (words == 8))
      then fail s illegal_parameter
      else if c.cq_ba == 0
      then fail s illegal_parameter
      else if bad_vector c
      then fail s illegal_parameter
      else if i == max_cq
      then fail s resource_allocation_failure
      else succeed (set_cq s i (new_cq c)) (create_cq_resp i c.cq_depth)

-- A used submission queue reports to completion queue `idx`.
abbrev pub is_bound : EnaState → ℕ → ℕ → Bool
is_bound s idx i = (s.sq i).used && (s.sq i).cq_idx == idx

-- `ena_destroy_cq` of the index that the command names
unfoldable pub destroy_cq : EnaState → ℕ → Outcome Reply
destroy_cq s idx =
    if leb max_cq idx || not (s.cq idx).used
    then fail s illegal_parameter
    else if not (all_below max_sq (λ i. not (is_bound s idx i)))
    then fail s resource_busy
    else succeed (set_cq s idx (record (s.cq idx) { used = false })) []

-- `struct ena_admin_aq_create_sq_cmd`, decoded
pub record CreateSqCmd : Type 0 where
  pub sq_identity : ℕ
  pub sq_caps_2 : ℕ
  pub sq_caps_3 : ℕ
  pub cq_idx : ℕ
  pub sq_depth : ℕ
  pub sq_ba : ℕ
  pub sq_head_writeback : ℕ

unfoldable pub create_sq_cmd : List ℕ → CreateSqCmd
create_sq_cmd cmd = record {
  sq_identity = byte cmd 4;
  sq_caps_2 = byte cmd 6;
  sq_caps_3 = byte cmd 7;
  cq_idx = le16 cmd 8;
  sq_depth = le16 cmd 10;
  sq_ba = mem_addr cmd 12;
  sq_head_writeback = mem_addr cmd 20;
}

-- `struct ena_admin_acq_create_sq_resp_desc` behind the common descriptor
unfoldable pub create_sq_resp : (sq_idx : ℕ) (llq : Bool) → List ℕ
create_sq_resp sq_idx llq =
    bytes16 sq_idx
    ++ (0 ∷ 0 ∷ [])
    ++ bytes32 (reg_sq_db_base + sq_idx * 4)
    ++ bytes32 (if llq then sq_idx * llq_queue_bytes else 0)
    ++ bytes32 0

abbrev pub direction_tx : ℕ
direction_tx = 1

abbrev pub direction_rx : ℕ
direction_rx = 2

abbrev pub sq_direction : CreateSqCmd → ℕ
sq_direction c = bit_and c.sq_identity 0xe0 / 2 ^ 5

abbrev pub sq_is_tx : CreateSqCmd → Bool
sq_is_tx c = sq_direction c == direction_tx

abbrev pub placement_host : ℕ
placement_host = 1

abbrev pub sq_llq : CreateSqCmd → Bool
sq_llq c = bit_and c.sq_caps_2 15 == 3

unfoldable pub new_sq : EnaState → CreateSqCmd → EnaSq
new_sq s c = record {
  used = true;
  is_tx = sq_is_tx c;
  llq = sq_llq c;
  cq_idx = c.cq_idx;
  base = if sq_llq c then 0 else c.sq_ba;
  depth = c.sq_depth;
  entry_size = if sq_llq c then s.llq_entry_size else 0;
  head = 0;
  tail = 0;
  tx_meta = zero_meta;
}

-- The tests of `ena_create_sq` on the direction and the placement
unfoldable pub bad_sq_kind : EnaState → CreateSqCmd → Bool
bad_sq_kind s c =
    (not (sq_direction c == direction_tx) && not (sq_direction c == direction_rx))
    || (not (bit_and c.sq_caps_2 15 == placement_host) && not (sq_llq c))
    || (sq_llq c && (not (sq_is_tx c) || not s.llq_enabled))

module _ (host : Host) where
  -- The tests of `ena_create_sq` on the completion queue, the depth and the address
  unfoldable pub bad_sq_binding : EnaState → CreateSqCmd → Bool
  bad_sq_binding s c =
      let cq = s.cq c.cq_idx in
      leb max_cq c.cq_idx
      || not cq.used
      || not (valid_depth host c.sq_depth)
      || ltb cq.depth c.sq_depth
      || (not (sq_llq c) && c.sq_ba == 0)
      || (not (sq_is_tx c) && ltb cq.entry_size 16)

  -- `ena_create_sq`
  unfoldable pub create_sq : EnaState → CreateSqCmd → Outcome Reply
  create_sq s c =
      let i = first_free (λ j. (s.sq j).used) max_sq in
      if bad_sq_kind s c
      then fail s illegal_parameter
      else if not (bit_and c.sq_caps_2 0x70 / 2 ^ 4 == 0)
      then fail s unsupported_opcode
      else if not (has c.sq_caps_3 1)
      then fail s illegal_parameter
      else if bad_sq_binding s c
      then fail s illegal_parameter
      else if not (c.sq_head_writeback == 0)
      then unsupported
      else if i == max_sq
      then fail s resource_allocation_failure
      else if sq_llq c && ltb llq_queue_bytes (c.sq_depth * s.llq_entry_size)
      then fail s illegal_parameter
      else succeed (set_sq s i (new_sq s c)) (create_sq_resp i (sq_llq c))

abbrev same_bool : Bool → Bool → Bool
same_bool true b = b
same_bool false b = not b

-- `ena_destroy_sq` of the index and the direction that the command names
unfoldable pub destroy_sq : EnaState → (idx identity : ℕ) → Outcome Reply
destroy_sq s idx identity =
    let dir = bit_and identity 0xe0 / 2 ^ 5 in
    if leb max_sq idx
      || not (s.sq idx).used
      || not (same_bool (s.sq idx).is_tx (dir == direction_tx))
    then fail s illegal_parameter
    else succeed (set_sq s idx (record (s.sq idx) { used = false })) []
