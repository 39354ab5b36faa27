-- ===== src/Admin.antt =====
-- The admin queue of hw/ena_admin.c: the parts that its commands share. A command is the 64 bytes of
-- `struct ena_admin_aq_entry`; a response is a status with the bytes behind the common descriptor.
pub mod Search
pub mod Queues
pub mod GetFeature
pub mod SetFeature
pub mod RoundTrip
pub mod Announced
pub mod Groups
pub mod Limits
pub mod Settings
pub mod Process
use ena.Base.{
  ℕ, zero, suc, ◌+◌, ◌-◌, ◌^◌, bit_and, Bool, true, ◌&&◌, List, [], Outcome, ok, unsupported, ltb,
  leb, has, not, if◌then◌else◌, byte, le16, le32,
}
use ena.Host.{Host}
use ena.Device.{EnaState, mem_addr, min_queue_depth, max_queue_depth}

-- `enum ena_admin_aq_completion_status`
pub data Status : Type 0 where
  success : Status
  resource_allocation_failure : Status
  bad_opcode : Status
  unsupported_opcode : Status
  malformed_request : Status
  illegal_parameter : Status
  unknown_error : Status
  resource_busy : Status

unfoldable pub status_code : Status → ℕ
status_code success = 0
status_code resource_allocation_failure = 1
status_code bad_opcode = 2
status_code unsupported_opcode = 3
status_code malformed_request = 4
status_code illegal_parameter = 5
status_code unknown_error = 6
status_code resource_busy = 7

-- What a command comes to: the state, the status and the response bytes behind the descriptor
abbrev pub Reply : Type 0
Reply = EnaState × Status × List ℕ

abbrev pub fail : EnaState → Status → Outcome Reply
fail s st = ok (s, st, [])

abbrev pub succeed : EnaState → List ℕ → Outcome Reply
succeed s payload = ok (s, success, payload)

-- `struct ena_admin_aq_common_desc`
abbrev pub command_id : List ℕ → ℕ
command_id cmd = le16 cmd 0

abbrev pub opcode : List ℕ → ℕ
opcode cmd = byte cmd 2

abbrev pub cmd_flags : List ℕ → ℕ
cmd_flags cmd = byte cmd 3

-- `struct ena_admin_get_set_feature_common_desc`, behind the control buffer
abbrev pub feat_flags : List ℕ → ℕ
feat_flags cmd = byte cmd 16

abbrev pub feature_id : List ℕ → ℕ
feature_id cmd = byte cmd 17

abbrev pub feature_version : List ℕ → ℕ
feature_version cmd = byte cmd 18

abbrev ctrl_data_indirect : ℕ
ctrl_data_indirect = 4

-- `ena_ctrl_buf`: the address of the control buffer, 0 for none
unfoldable pub ctrl_buf : List ℕ → (need : ℕ) → Outcome ℕ
ctrl_buf cmd need =
    if ltb (le32 cmd 4) need
    then ok 0
    else if not (has (cmd_flags cmd) ctrl_data_indirect)
    then unsupported
    else ok (mem_addr cmd 8)

-- A loop `for (i = 0; i < n; i++)` whose body only tests
unfoldable pub all_below : ℕ → (ℕ → Bool) → Bool
all_below zero p = true
all_below (suc n) p = all_below n p && p n

-- `for (i = 0; i < 16 && used(i); i++)` from `16 - n` on: the first index that fails the test
unfoldable pub first_free : (used : ℕ → Bool) → ℕ → ℕ
first_free used zero = 16
first_free used (suc n) =
    let rest = first_free used n in if used (16 - suc n) then rest else 16 - suc n

module _ (host : Host) where
  -- `ena_valid_depth`
  unfoldable pub valid_depth : ℕ → Bool
  valid_depth depth =
      host.is_power_of_2 depth && leb min_queue_depth depth && leb depth max_queue_depth
