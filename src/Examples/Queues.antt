-- ===== src/Examples/Queues.antt =====
-- The theorems about queues at the concrete device: the queue commands, a posted packet and an LLQ
-- queue.
use ena.Base.{
  ◌⊎◌, some, inl, ℕ, List, true, ◌≡◌, refl, arith, replicate, Total, if◌then◌else◌, update,
  update_self,
}
use ena.Device.{EnaState, EnaSq, set_sq, set_cq}
use ena.Reset.{dev_reset, clear_state}
use ena.Device.{stats_reset}
use ena.Invariant.{core, IsValid, IsValidSq, set_sq-IsValid, set_cq-IsValid}
use ena.Examples.{
  still_host, still_host-PowersOnly, blank, cq16, cq16-IsValidCq, sq16, ready, ready-IsValid,
  depth16,
}
use ena.Regs.Restart.{dev_reset-IsValid}
use ena.Cq.Ring.{HasTaken}
use ena.Admin.Queues.{CreateCqCmd, CreateSqCmd, create_cq, create_sq, destroy_cq}
use ena.Admin.Queues.Commands.{
  SqStopped, SqAnswered, CqAnswered, CqDestroyed, create_sq_lem, create_cq_lem, destroy_cq_lem,
}
use ena.Tx.{EnaTxPkt, llq_slot_addr, tx_desc_size, tx_parse}
use ena.Tx.Xmit.{llq_header_addr}
use ena.Tx.Llq.{InSlice, llq_slot_addr_lem}
use ena.Tx.Parse.{OnSome}
use ena.Tx.Packet.{IsPacket, tx_parse_lem}

abbrev cdesc32 : List ℕ
cdesc32 = replicate 32 7

ready-HasTaken : HasTaken (ready.cq 0) 0
unfolding if◌then◌else◌
ready-HasTaken = record {
  order = 4;
  small = omega arith;
  depth_eq = refl;
  tail_eq = refl;
  phase_eq = refl;
}

-- A command for an RX queue of 16 entries that reports to completion queue 0
abbrev rx_cmd : CreateSqCmd
rx_cmd = record {
  sq_identity = 0x40;
  sq_caps_2 = 1;
  sq_caps_3 = 1;
  cq_idx = 0;
  sq_depth = 16;
  sq_ba = 8192;
  sq_head_writeback = 0;
}

create_sq_lem_example :
    Total (SqAnswered still_host ready rx_cmd) (create_sq still_host ready rx_cmd)
    ⊎ SqStopped still_host ready rx_cmd (create_sq still_host ready rx_cmd)
create_sq_lem_example = create_sq_lem still_host still_host-PowersOnly ready rx_cmd ready-IsValid

-- A command for a completion queue of 16 entries of 16 bytes
abbrev cq_cmd : CreateCqCmd
cq_cmd = record { cq_caps_1 = 32; cq_caps_2 = 4; cq_depth = 16; msix_vector = 1; cq_ba = 4096 }

create_cq_lem_example :
    Total (CqAnswered still_host ready cq_cmd) (create_cq still_host ready cq_cmd)
create_cq_lem_example = create_cq_lem still_host still_host-PowersOnly ready cq_cmd

destroy_cq_lem_example : Total (CqDestroyed ready 0) (destroy_cq ready 0)
destroy_cq_lem_example = destroy_cq_lem ready 0

tx_parse_lem_example :
    OnSome (IsPacket still_host ready 1) (tx_parse still_host ready 1)
    × ((p : EnaTxPkt) → IsPacket still_host ready 1 p → tx_parse still_host ready 1 ≡ some p)
tx_parse_lem_example = tx_parse_lem still_host ready 1

-- An LLQ queue of 16 entries of 128 bytes, at index 2
abbrev llq16 : EnaSq
llq16 = record (sq16 true) { llq = true; entry_size = 128 }

abbrev llq_device : EnaState
llq_device = set_sq (set_cq (dev_reset blank) 0 cq16) 2 llq16

llq_device-IsValid : IsValid llq_device
unfolding core dev_reset clear_state stats_reset
llq_device-IsValid =
    set_sq-IsValid _ 2 llq16 (λ _. llq16-IsValidSq) (λ _. omega arith)
      (set_cq-IsValid _ 0 cq16 (λ _. cq16-IsValidCq) (λ j u e. cc)
        (dev_reset-IsValid blank (λ v lt. refl)))
  where
    cq_0 : update (dev_reset blank).cq 0 cq16 0 ≡ cq16
    cq_0 = update_self (dev_reset blank).cq 0 cq16

    llq16-IsValidSq : IsValidSq (update (dev_reset blank).cq 0 cq16) llq16
    llq16-IsValidSq = record {
      cq_in = omega arith;
      cq_used = rw cq_0 refl;
      depth_in = depth16;
      fits = rw cq_0 (omega arith);
      head_in = omega arith;
      tail_in = omega arith;
      posted = omega arith;
      rx_entry = λ f. cc;
      llq_tx = λ _. refl;
      llq_line = λ _. inl refl;
      llq_room = λ _. omega arith;
    }

llq_slot_addr_lem_example :
    InSlice 2 (llq_slot_addr llq_device 2 3) tx_desc_size
    × InSlice 2 (llq_header_addr llq_device 2) 96
unfolding if◌then◌else◌
llq_slot_addr_lem_example =
    llq_slot_addr_lem llq_device 2 3 96 llq_device-IsValid refl refl (omega arith)
