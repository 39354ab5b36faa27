-- ===== src/Admin/Process.antt =====
-- `ena_admin_exec` and `ena_admin_process` of hw/ena_admin.c: the admin queue is worked off.
pub mod Loop
pub mod Completions
pub mod Errors
pub mod Executed
pub mod Batch
use ena.Base.{
  ℕ, zero, suc, ◌+◌, ◌*◌, ◌%◌, ◌^◌, bit_and, Bool, true, false, not, ◌||◌, ◌∷◌, ◌++◌, [], List,
  Outcome, ok, out_of_fuel, ◌>>=◌, u16, u64, sub16, ltb, ◌==◌, has, if◌then◌else◌, length, take,
  replicate, byte, le16, bytes16,
}
use ena.Host.{Host, msix_notify}
use ena.Device.{EnaState, get_reg, set_reg, log, dma_read, dma_write_bytes, admin_msix_vector}
use ena.Device.Layout.{
  reg_aq_base_hi, reg_aq_base_lo, reg_acq_base_hi, reg_acq_base_lo, reg_aq_caps, reg_acq_caps,
  reg_aq_db, reg_acq_tail, reg_intr_mask, caps_depth,
}
use ena.Irq.{admin_intr}
use ena.Aenq.{to_bit, reg_addr}
use ena.Admin.{Status, Reply, fail, bad_opcode, status_code, command_id, opcode}
use ena.Admin.Queues.{create_cq, create_cq_cmd, destroy_cq, create_sq, create_sq_cmd, destroy_sq}
use ena.Admin.GetFeature.{get_feature, get_stats}
use ena.Admin.SetFeature.{set_feature}

-- `enum ena_admin_aq_opcode`
abbrev pub op_create_sq : ℕ
op_create_sq = 1

abbrev pub op_destroy_sq : ℕ
op_destroy_sq = 2

abbrev pub op_create_cq : ℕ
op_create_cq = 3

abbrev pub op_destroy_cq : ℕ
op_destroy_cq = 4

abbrev pub op_get_feature : ℕ
op_get_feature = 8

abbrev pub op_set_feature : ℕ
op_set_feature = 9

abbrev pub op_get_stats : ℕ
op_get_stats = 11

abbrev pub entry_bytes : ℕ
entry_bytes = 64

-- The 64 bytes of a completion, of the state whose `aq_head` and `acq_phase` it tells
unfoldable pub acq_entry : EnaState → List ℕ → Status → (payload : List ℕ) → List ℕ
acq_entry s cmd st payload =
    bytes16 (bit_and (command_id cmd) 0xfff)
    ++ (status_code st ∷ to_bit s.acq_phase ∷ 0 ∷ 0 ∷ [])
    ++ bytes16 s.aq_head
    ++ take 56 (payload ++ replicate 56 0)

-- `acq_tail` and `acq_phase` after one entry more
unfoldable pub acq_advance : EnaState → (acq_depth : ℕ) → EnaState
acq_advance s acq_depth =
    let tail' = u16 (s.acq_tail + 1) in
    record s {
      acq_tail = tail';
      acq_phase = if tail' % acq_depth == 0 then not s.acq_phase else s.acq_phase;
    }

-- The completion of a command is written and the queue moves on.
unfoldable pub acq_post : (acq_base acq_depth : ℕ) → List ℕ → Reply → EnaState
acq_post acq_base acq_depth cmd (s, st, payload) =
    acq_advance
      (dma_write_bytes s (u64 (acq_base + s.acq_tail % acq_depth * entry_bytes))
        (acq_entry s cmd st payload))
      acq_depth

module _ (host : Host) where
  -- `ena_admin_exec`
  unfoldable pub admin_exec : EnaState → List ℕ → Outcome Reply
  admin_exec s cmd =
      let op = opcode cmd in
      if op == op_create_sq
      then create_sq host s (create_sq_cmd cmd)
      else if op == op_destroy_sq
      then destroy_sq s (le16 cmd 4) (byte cmd 6)
      else if op == op_create_cq
      then create_cq host s (create_cq_cmd cmd)
      else if op == op_destroy_cq
      then destroy_cq s (le16 cmd 4)
      else if op == op_get_feature
      then get_feature s cmd
      else if op == op_set_feature
      then set_feature host s cmd
      else if op == op_get_stats
      then get_stats s cmd
      else fail s bad_opcode

  -- The body of the loop of `ena_admin_process`
  unfoldable pub admin_step :
      (aq_base acq_base aq_depth acq_depth : ℕ) → EnaState → Outcome EnaState
  admin_step aq_base acq_base aq_depth acq_depth s =
      let cmd =
        (dma_read host s (u64 (aq_base + s.aq_head % aq_depth * entry_bytes)) entry_bytes).1 in
      let s1 = record s { aq_head = u16 (s.aq_head + 1) } in
      admin_exec s1 cmd >>= λ reply. ok (acq_post acq_base acq_depth cmd reply)

  -- The loop of `ena_admin_process`
  unfoldable pub admin_drain :
      (fuel : ℕ) → (aq_base acq_base aq_depth acq_depth tail : ℕ) → EnaState → Outcome EnaState
  admin_drain zero aq_base acq_base aq_depth acq_depth tail s =
      if s.aq_head == tail then ok s else out_of_fuel
  admin_drain (suc fuel) aq_base acq_base aq_depth acq_depth tail s =
      let rest =
        admin_step aq_base acq_base aq_depth acq_depth s
        >>= admin_drain fuel aq_base acq_base aq_depth acq_depth tail in
      if s.aq_head == tail then ok s else rest

  -- The end of `ena_admin_process`: the tail register, and one interrupt if a command was completed
  unfoldable pub admin_finish : (completed : Bool) → EnaState → EnaState
  admin_finish completed s =
      let s1 = set_reg s reg_acq_tail s.acq_tail in if completed then admin_intr s1 else s1

  -- `ena_admin_process`. Each round takes one command, so the distance to the tail is fuel enough.
  unfoldable pub admin_process : EnaState → Outcome EnaState
  admin_process s =
      let aq_base = reg_addr s reg_aq_base_hi reg_aq_base_lo in
      let acq_base = reg_addr s reg_acq_base_hi reg_acq_base_lo in
      let aq_depth = u16 (bit_and (get_reg s reg_aq_caps) caps_depth) in
      let acq_depth = u16 (bit_and (get_reg s reg_acq_caps) caps_depth) in
      let tail = u16 (get_reg s reg_aq_db) in
      let todo = sub16 tail s.aq_head in
      if aq_base == 0 || acq_base == 0 || aq_depth == 0 || acq_depth == 0
      then ok s
      else if ltb aq_depth todo
      then ok s
      else admin_drain todo aq_base acq_base aq_depth acq_depth tail s >>= λ s1.
          ok (admin_finish (not (s.aq_head == tail)) s1)
