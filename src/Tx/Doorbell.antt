-- ===== src/Tx/Doorbell.antt =====
-- `ena_tx_doorbell` and `ena_tx_complete` of hw/ena_tx.c: the posted packets are sent and completed.
use ena.Base.{
  ℕ, zero, suc, ◌+◌, ◌*◌, ◌/◌, ◌^◌, bit_and, Bool, true, not, List, [], ◌∷◌, ◌++◌, Option, none,
  some, Outcome, ok, out_of_fuel, check, ◌>>=◌, ◌>>◌, u16, sub16, leb, ◌==◌, has, if◌then◌else◌,
  length, replicate, bytes16,
}
use ena.Host.{Host}
use ena.Device.{EnaState, set_sq}
use ena.Device.Layout.{tx_comp_req, tx_req_id_hi, tx_req_id_lo}
use ena.Irq.{cq_intr}
use ena.Cq.{cq_push}
use ena.Aenq.{to_bit}
use ena.Tx.{TxDesc, EnaTxPkt, tx_parse, tx_pkt_entries, slot_entries}
use ena.Tx.Xmit.{first_desc, tx_xmit, tx_drop}

-- The request id of a packet: ten low bits and six high ones
unfoldable pub tx_req_id : TxDesc → ℕ
tx_req_id d =
    bit_and d.meta_ctrl tx_req_id_lo / 2 ^ 22 + bit_and d.len_ctrl tx_req_id_hi / 2 ^ 16 * 2 ^ 10

-- `struct ena_eth_io_tx_cdesc` in a zeroed entry of 32 bytes
unfoldable pub tx_cdesc : (phase : Bool) (req_id sub_qid head : ℕ) → List ℕ
tx_cdesc phase req_id sub_qid head =
    bytes16 req_id ++ (0 ∷ to_bit phase ∷ []) ++ bytes16 sub_qid ++ bytes16 head ++ replicate 24 0

-- `n` entries at the head are done.
abbrev pub take_entries : EnaState → (i n : ℕ) → EnaState
take_entries s i n = let q = s.sq i in set_sq s i (record q { head = u16 (q.head + n) })

-- The packet of `slots` slots at the head is done.
abbrev pub advance_head : EnaState → (i slots : ℕ) → EnaState
advance_head s i slots = take_entries s i (slot_entries (s.sq i) slots)

-- `sq->head = sq->tail` after a malformed packet
abbrev pub discard : EnaState → ℕ → EnaState
discard s i = let q = s.sq i in set_sq (tx_drop s) i (record q { head = q.tail })

abbrev pub store_meta : EnaState → ℕ → EnaTxPkt → EnaState
store_meta s i p = if p.have_meta then set_sq s i (record (s.sq i) { tx_meta = p.tx_meta }) else s

module _ (host : Host) where
  -- `ena_tx_complete`
  unfoldable pub tx_complete : EnaState → (i req_id : ℕ) → Outcome EnaState
  tx_complete s i req_id = do
    let q = s.sq i
    let cq = s.cq q.cq_idx
    check (leb cq.entry_size 32)
    s1 ← cq_push s q.cq_idx (tx_cdesc cq.phase req_id i q.head)
    ok (cq_intr host s1 q.cq_idx true)

  -- The body of the loop of `ena_tx_doorbell` for a parsed packet
  unfoldable pub tx_packet : EnaState → (i : ℕ) → EnaTxPkt → Outcome EnaState
  tx_packet s i p = do
    let d = first_desc p
    s1 ← tx_xmit host (store_meta s i p) i p
    n ← tx_pkt_entries (s1.sq i) p.slots
    let s2 = take_entries s1 i n
    if has d.len_ctrl tx_comp_req then tx_complete s2 i (tx_req_id d) else ok s2

  -- A round of the loop, with the rest of the loop as `next`
  unfoldable pub tx_round :
      (EnaState → Outcome EnaState) → EnaState → ℕ → Option EnaTxPkt → Outcome EnaState
  tx_round next s i none = ok (discard s i)
  tx_round next s i (some p) =
      if length p.desc == 0 then ok (discard s i) else tx_packet s i p >>= next

  -- The loop of `ena_tx_doorbell`
  unfoldable pub tx_drain : (fuel : ℕ) → EnaState → ℕ → Outcome EnaState
  tx_drain zero s i = if (s.sq i).head == (s.sq i).tail then ok s else out_of_fuel
  tx_drain (suc fuel) s i =
      let rest = tx_round (λ s'. tx_drain fuel s' i) s i (tx_parse host s i) in
      if (s.sq i).head == (s.sq i).tail then ok s else rest

  -- `ena_tx_doorbell`. A round takes at least one of the entries between head and tail.
  unfoldable pub tx_doorbell : EnaState → ℕ → Outcome EnaState
  tx_doorbell s i = do
    check (s.sq i).is_tx
    if not (s.cq (s.sq i).cq_idx).used
        then ok s
        else tx_drain (sub16 (s.sq i).tail (s.sq i).head) s i
