-- ===== src/Examples/Runs.antt =====
-- Runs of the handlers at the concrete device, a frame that is received and a packet that is sent,
-- and what a doorbell, a frame and an admin command reach.
use ena.Isolation.{Within}
use ena.Regs.Write.{sq_doorbell}
use ena.Host.{rx_pkt_attach}
use ena.Device.{log}
use ena.Isolation.Confined.{Confined}
use ena.Isolation.Commands.{admin_exec-Confined}
use ena.Admin.Process.{admin_exec}
use ena.Isolation.Doorbell.{sq_doorbell-Within}
use ena.Isolation.Frame.{FrameReach, rx_receive_iov-FrameReach}
use ena.Base.{
  Ends, Total, ℕ, List, [], ◌∷◌, ok, refl, ◌≡◌, Outcome, replicate, if◌then◌else◌, le16, le32, byte,
}
use ena.Device.{log, EnaState, stats_reset}
use ena.Reset.{dev_reset, clear_state}
use ena.Examples.{ready-IsValid, still_host, ready}
use ena.Rss.{rss_reset, rss_supported_fields}
use ena.Cq.{cq_push, cq_advance, cq_slot_addr}
use ena.Irq.{cq_intr}
use ena.Rx.{
  rss_hash, rss_proto, rss_type, rss_key_bytes, rx_sq, first_rx_sq, rx_desc, rx_desc_size,
  rx_desc_valid, rx_desc_addr, rx_status, rx_status_l3, rx_status_l4, rx_status_csum,
}
use ena.Rx.Receive.{
  rx_receive_iov, is_foreign, bytes_eq, to_queue, rx_collect, rx_collect_from, rx_slot,
  after_collect, rx_complete, rx_deliver, rx_push_cdesc, rx_cdesc,
}
use ena.Tx.{
  tx_parse, tx_parse_from, tx_slot_posted, tx_read_slot, tx_desc, tx_read_meta, tx_pkt_entries,
  slot_entries, llq_mem, llq_bytes, llq_slot_line,
}
use ena.Tx.Xmit.{
  tx_xmit, send_gathered, tx_check_frame, tx_send, tx_gather, tx_header, tx_hdr_len, tx_descs_len,
  tx_desc_len, tx_desc_addr, tx_frame_protos, tx_valid_offloads,
}
use ena.Tx.Doorbell.{tx_doorbell, tx_drain, tx_round, tx_packet, tx_complete, tx_cdesc, tx_req_id}

-- The packets received and sent, the head of queue `i`, and the tail of completion queue 0
abbrev counts : ℕ → Outcome EnaState → List ℕ
counts i (ok s) =
    s.rx_pkts ∷ s.rx_drops ∷ s.tx_pkts ∷ s.tx_drops ∷ (s.sq i).head ∷ (s.cq 0).tail ∷ []
counts i _ = []

abbrev run_rx : List ℕ
run_rx = counts 0 (rx_receive_iov still_host ready (replicate 60 255))

abbrev run_tx : List ℕ
run_tx = counts 1 (tx_doorbell still_host ready 1)

-- A broadcast frame is received, with one completion.
received : run_rx ≡ 1 ∷ 0 ∷ 0 ∷ 0 ∷ 1 ∷ 1 ∷ []
unfolding if◌then◌else◌ dev_reset clear_state stats_reset byte le16 le32 rx_receive_iov is_foreign
    bytes_eq rss_hash rss_proto rss_type rss_key_bytes rx_sq first_rx_sq to_queue rx_collect
    rx_collect_from rx_slot rx_desc rx_desc_size rx_desc_valid rx_desc_addr after_collect
    rx_complete rx_deliver rx_status rx_status_l3 rx_status_l4 rx_status_csum rx_push_cdesc rx_cdesc
    cq_push cq_advance cq_slot_addr cq_intr rss_reset rss_supported_fields
received = refl

-- Two packets are sent and completed.
sent : run_tx ≡ 0 ∷ 0 ∷ 2 ∷ 0 ∷ 2 ∷ 2 ∷ []
unfolding if◌then◌else◌ dev_reset clear_state stats_reset byte le16 le32 tx_doorbell tx_drain
    tx_round tx_packet tx_complete tx_parse tx_parse_from tx_slot_posted tx_read_slot tx_desc
    tx_read_meta tx_pkt_entries slot_entries llq_mem llq_bytes llq_slot_line tx_xmit send_gathered
    tx_check_frame tx_send tx_gather tx_header tx_hdr_len tx_descs_len tx_desc_len tx_desc_addr
    tx_frame_protos tx_valid_offloads bytes_eq cq_push cq_advance cq_slot_addr tx_cdesc cq_intr
    tx_req_id
sent = refl

sq_doorbell-Within_example : Total (Within 1 0 1 ready) (sq_doorbell still_host ready 1 2)
unfolding if◌then◌else◌ dev_reset clear_state stats_reset
sq_doorbell-Within_example = sq_doorbell-Within still_host ready 1 2 ready-IsValid

rx_receive_iov-FrameReach_example :
    Total
      (FrameReach
        (rx_sq
          (log ready (rx_pkt_attach (replicate 60 255)))
          (rss_hash still_host ready.rss (replicate 60 255)))
        ready)
      (rx_receive_iov still_host ready (replicate 60 255))
rx_receive_iov-FrameReach_example =
    rx_receive_iov-FrameReach still_host ready (replicate 60 255) ready-IsValid

-- The command that destroys the TX queue 1
abbrev destroy_1 : List ℕ
destroy_1 = 5 ∷ 0 ∷ 2 ∷ 0 ∷ 1 ∷ 0 ∷ 32 ∷ 0 ∷ []

admin_exec-Confined_example : Ends (λ r. Confined ready r.0) (admin_exec still_host ready destroy_1)
admin_exec-Confined_example = admin_exec-Confined ready still_host destroy_1
