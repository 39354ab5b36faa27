-- ===== src/Tx.antt =====
-- Descriptors of the TX datapath: slots, LLQ lines and the parser of hw/ena_tx.c.
pub mod Xmit
pub mod Xmitted
pub mod Llq
pub mod Sent
pub mod OffloadBits
pub mod Offload
pub mod Checksum
pub mod Completion
pub mod Moved
pub mod Count
pub mod Run
pub mod Total
pub mod Parse
pub mod Buffers
pub mod Packet
pub mod Doorbell
use ena.Base.{
  ℕ, zero, suc, ◌+◌, ◌-◌, ◌*◌, ◌/◌, ◌%◌, ◌^◌, bit_and, Bool, true, false, not, ◌&&◌, ◌||◌, List, [],
  ◌∷◌, ◌++◌, Option, none, some, Outcome, ok, check, ◌>>=◌, ◌>>◌, u16, u64, sub16, ltb, ◌==◌, has,
  if◌then◌else◌, length, le32,
}
use ena.Host.{Host}
use ena.Device.{
  EnaState, EnaSq, EnaTxMeta, dma_read, llq_descs_before_header, llq_queue_bytes, max_pkt_descs,
}
use ena.Device.Layout.{
  tx_meta_desc, tx_first, tx_last, meta_ext_valid, meta_mss_hi, meta_mss_lo, meta_l3_hdr_len,
  meta_l3_hdr_off, meta_l4_hdr_len_words,
}
use ena.Reset.{zero_meta}

-- `sizeof(struct ena_eth_io_tx_desc)`, and the header's place in an LLQ entry
abbrev pub tx_desc_size : ℕ
tx_desc_size = 16

abbrev pub llq_header_off : ℕ
llq_header_off = 32

-- `struct ena_eth_io_tx_desc`, decoded. A meta descriptor has the same words.
pub record TxDesc : Type 0 where
  pub len_ctrl : ℕ
  pub meta_ctrl : ℕ
  pub buff_addr_lo : ℕ
  pub buff_addr_hi_hdr_sz : ℕ

unfoldable pub tx_desc : List ℕ → TxDesc
tx_desc b = record {
  len_ctrl = le32 b 0;
  meta_ctrl = le32 b 4;
  buff_addr_lo = le32 b 8;
  buff_addr_hi_hdr_sz = le32 b 12;
}

-- `EnaTxPkt`; `ndesc` is the length of `desc`.
pub record EnaTxPkt : Type 0 where
  pub desc : List TxDesc
  pub slots : ℕ
  pub have_meta : Bool
  pub tx_meta : EnaTxMeta

-- `ena_llq_descs_per_entry`
unfoldable pub llq_descs_per_entry : EnaSq → ℕ
llq_descs_per_entry q = q.entry_size / tx_desc_size

-- `ena_llq_slot_line`
unfoldable pub llq_slot_line : EnaSq → ℕ → ℕ
llq_slot_line q slot =
    if ltb slot llq_descs_before_header
    then 0
    else 1 + (slot - llq_descs_before_header) / llq_descs_per_entry q

-- `ena_llq_slot_off`
unfoldable pub llq_slot_off : EnaSq → ℕ → ℕ
llq_slot_off q slot =
    if ltb slot llq_descs_before_header
    then slot * tx_desc_size
    else (slot - llq_descs_before_header) % llq_descs_per_entry q * tx_desc_size

-- The result of `ena_tx_pkt_entries` for at least one slot
unfoldable pub slot_entries : EnaSq → ℕ → ℕ
slot_entries q slots = if q.llq then llq_slot_line q (slots - 1) + 1 else slots

-- `ena_tx_pkt_entries`
unfoldable pub tx_pkt_entries : EnaSq → ℕ → Outcome ℕ
tx_pkt_entries q slots = do check (ltb 0 slots); ok (slot_entries q slots)

-- `(uint16_t)(depth - 1)`
abbrev pub mask16 : ℕ → ℕ
mask16 d = (d + 2 ^ 16 - 1) % 2 ^ 16

-- `n` bytes of the LLQ memory from an offset into BAR2 on
unfoldable pub llq_bytes : (ℕ → ℕ) → ℕ → ℕ → List ℕ
llq_bytes ram off zero = []
llq_bytes ram off (suc n) = ram off ∷ llq_bytes ram (off + 1) n

-- The slice of queue `i`, as an offset into the LLQ memory
abbrev pub llq_slice : (i : ℕ) → ℕ
llq_slice i = i * llq_queue_bytes

-- `ena_llq_mem`
unfoldable pub llq_mem : EnaState → (i : ℕ) → Outcome ℕ
llq_mem s i = do check (s.sq i).llq; ok (llq_slice i)

-- The offset of a slot in BAR2: the queue's slice, the line and the place in it
unfoldable pub llq_slot_addr : EnaState → (i slot : ℕ) → ℕ
llq_slot_addr s i slot =
    let q = s.sq i in
    llq_slice i
    + bit_and (q.head + llq_slot_line q slot) (mask16 q.depth) * q.entry_size
    + llq_slot_off q slot

module _ (host : Host) where
  -- `ena_tx_read_slot`; the status of the DMA read is ignored. The test of the branch that reads
  -- LLQ memory is the assertion of `ena_llq_mem` itself.
  unfoldable pub tx_read_slot : EnaState → (i slot : ℕ) → List ℕ
  tx_read_slot s i slot =
      let q = s.sq i in
      if q.llq
      then llq_bytes (host.llq_ram s.trace) (llq_slot_addr s i slot) tx_desc_size
      else (dma_read host s (u64 (q.base + bit_and (q.head + slot) (mask16 q.depth) * tx_desc_size))
          tx_desc_size).1

-- The fields that `ena_tx_read_meta` takes from a meta descriptor
unfoldable pub tx_read_meta : TxDesc → EnaTxMeta
tx_read_meta d = record {
  mss =
      bit_and d.buff_addr_lo meta_mss_lo / 2 ^ 22
      + bit_and d.len_ctrl meta_mss_hi / 2 ^ 16 * 2 ^ 10;
  l3_hdr_len = bit_and d.buff_addr_lo meta_l3_hdr_len;
  l3_hdr_off = bit_and d.buff_addr_lo meta_l3_hdr_off / 2 ^ 8;
  l4_hdr_len_words = bit_and d.buff_addr_lo meta_l4_hdr_len_words / 2 ^ 16;
}

-- `ena_tx_slot_posted`
unfoldable pub tx_slot_posted : EnaSq → (slot avail : ℕ) → Bool
tx_slot_posted q slot avail = ltb (if q.llq then llq_slot_line q slot else slot) avail

abbrev pub empty_pkt : EnaTxPkt
empty_pkt = record { desc = []; slots = 0; have_meta = false; tx_meta = zero_meta }

-- A new packet without a first descriptor
abbrev lacks_first : EnaTxPkt → ℕ → Bool
lacks_first p len_ctrl = length p.desc == 0 && not p.have_meta && not (has len_ctrl tx_first)

module _ (host : Host) where
  -- The loop of `ena_tx_parse` with `left` rounds to go; `none` is the result false.
  unfoldable pub tx_parse_from :
      (left : ℕ) → EnaState → (i avail slot : ℕ) → EnaTxPkt → Option EnaTxPkt
  tx_parse_from zero s i avail slot p = none
  tx_parse_from (suc left) s i avail slot p =
      let d = tx_desc (tx_read_slot host s i slot) in
      let p_meta = record p { have_meta = true; tx_meta = tx_read_meta d } in
      let p_desc = record p { desc = p.desc ++ d ∷ [] } in
      let after_meta = tx_parse_from left s i avail (slot + 1) p_meta in
      let after_desc = tx_parse_from left s i avail (slot + 1) p_desc in
      if not (tx_slot_posted (s.sq i) slot avail)
      then none
      else if has d.len_ctrl tx_meta_desc
      then (if not (slot == 0) || not (has d.len_ctrl meta_ext_valid) then none else after_meta)
      else if lacks_first p d.len_ctrl
      then none
      else if length p.desc == max_pkt_descs
      then none
      else if has d.len_ctrl tx_last
      then some (record p_desc { slots = slot + 1 })
      else after_desc

  -- `ena_tx_parse`
  unfoldable pub tx_parse : EnaState → ℕ → Option EnaTxPkt
  tx_parse s i =
      tx_parse_from (max_pkt_descs + 1) s i (sub16 (s.sq i).tail (s.sq i).head) 0 empty_pkt
