-- ===== src/Rx/Receive.antt =====
-- Descriptors and frames of the RX datapath: `ena_rx_collect`, `ena_rx_push_cdesc`,
-- `ena_rx_doorbell`, `ena_rx_can_receive` and `ena_rx_receive_iov` of hw/ena_rx.c.
use ena.Base.{
  ℕ, zero, suc, ◌+◌, ◌-◌, ◌*◌, ◌/◌, ◌^◌, min, bit_and, bit_or, Bool, true, false, not, ◌&&◌, ◌||◌,
  List, [], ◌∷◌, ◌++◌, Option, none, some, Outcome, ok, check, ◌>>=◌, ◌>>◌, u16, u64, sub16, ltb,
  leb, ◌==◌, has, if◌then◌else◌, length, get_or, take, drop, replicate, bytes16, bytes32,
}
use ena.Host.{Host, flush_queued_packets, rx_pkt_attach}
use ena.Device.{EnaState, log, set_sq, dma_read, dma_write_bytes, max_sq, max_pkt_descs}
use ena.Device.Layout.{rx_cdesc_phase, rx_cdesc_first, rx_cdesc_last}
use ena.Irq.{cq_intr}
use ena.Cq.{cq_push, depth_mask}
use ena.Rx.{
  RxDesc, rx_desc, rx_desc_bytes, rx_desc_size, rx_desc_addr, rx_desc_valid, rss_hash, rx_sq,
  rx_status, is_rx, eth_hlen, eth_alen,
}

-- `memcmp(a, b, n) == 0` of two buffers of the same length
unfoldable pub bytes_eq : List ℕ → List ℕ → Bool
bytes_eq [] [] = true
bytes_eq [] (y ∷ ys) = false
bytes_eq (x ∷ xs) [] = false
bytes_eq (x ∷ xs) (y ∷ ys) = x == y && bytes_eq xs ys

abbrev pub cons_collected :
    RxDesc → EnaState × Option (List RxDesc) → EnaState × Option (List RxDesc)
cons_collected d (s, none) = (s, none)
cons_collected d (s, some ds) = (s, some (d ∷ ds))

-- The bad descriptor number `n` is consumed.
abbrev pub consume : EnaState → ℕ → ℕ → EnaState
consume s i n = set_sq s i (record (s.sq i) { head = u16 ((s.sq i).head + n) })

module _ (host : Host) where
  -- The descriptor slot `n` past the head
  unfoldable pub rx_slot : EnaState → ℕ → ℕ → Bool × List ℕ
  rx_slot s i n =
      let q = s.sq i in
      dma_read host s (u64 (q.base + bit_and (q.head + n) (depth_mask q.depth) * rx_desc_bytes))
        rx_desc_bytes

  -- The loop of `ena_rx_collect` after `n` descriptors of `cap` bytes; `room` is
  -- `ENA_MAX_PKT_DESCS - n`. `none` is the result -1.
  unfoldable pub rx_collect_from :
      (room n cap : ℕ) → EnaState → (i len : ℕ) → EnaState × Option (List RxDesc)
  rx_collect_from zero n cap s i len = if ltb cap len then (s, none) else (s, some [])
  rx_collect_from (suc room) n cap s i len =
      let slot = rx_slot s i n in
      let d = rx_desc slot.1 in
      let rest = cons_collected d (rx_collect_from room (n + 1) (cap + rx_desc_size d) s i len) in
      if not (ltb cap len)
      then (s, some [])
      else if n == sub16 (s.sq i).tail (s.sq i).head
      then (s, none)
      else if slot.0 && rx_desc_valid (s.sq i) d
      then rest
      else (consume s i (n + 1), none)

  -- `ena_rx_collect`
  unfoldable pub rx_collect : EnaState → (i len : ℕ) → EnaState × Option (List RxDesc)
  rx_collect s i len = rx_collect_from max_pkt_descs 0 0 s i len

-- The 32 bytes of `struct ena_eth_io_rx_cdesc_ext`
unfoldable pub rx_cdesc : (status len req_id hash sub_qid addr : ℕ) → List ℕ
rx_cdesc status len req_id hash sub_qid addr =
    bytes32 status
    ++ bytes16 len
    ++ bytes16 req_id
    ++ bytes32 hash
    ++ bytes16 sub_qid
    ++ (0 ∷ 0 ∷ [])
    ++ bytes32 addr
    ++ bytes16 (addr / 2 ^ 32)
    ++ replicate 10 0

-- `ena_rx_push_cdesc` to the queue at index `c`
unfoldable pub rx_push_cdesc :
    EnaState → (c status len req_id hash sub_qid addr : ℕ) → Outcome EnaState
rx_push_cdesc s c status len req_id hash sub_qid addr = do
  check (leb (s.cq c).entry_size 32)
  let bits = if (s.cq c).phase then bit_or status rx_cdesc_phase else status
  cq_push s c (rx_cdesc bits len req_id hash sub_qid addr)

-- `ena_rx_doorbell`
unfoldable pub rx_doorbell : EnaState → ℕ → Outcome EnaState
rx_doorbell s i = do check (not (s.sq i).is_tx); ok (log s flush_queued_packets)

-- The loop of `ena_rx_can_receive` over the last `n` queues
unfoldable pub can_receive_from : EnaState → ℕ → Bool → Bool
can_receive_from s zero have_rx = not have_rx
can_receive_from s (suc n) have_rx =
    let i = max_sq - suc n in
    let rest = can_receive_from s n (have_rx || is_rx s i) in
    if is_rx s i && not ((s.sq i).head == (s.sq i).tail) then true else rest

-- `ena_rx_can_receive`
unfoldable pub rx_can_receive : EnaState → Bool
rx_can_receive s = can_receive_from s max_sq false

abbrev pub is_empty : List RxDesc → Bool
is_empty [] = true
is_empty (d ∷ ds) = false

-- The status bits of one completion of a frame
abbrev pub frame_bits : (status : ℕ) (first last : Bool) → ℕ
frame_bits status first last =
    let bits = if first then bit_or status rx_cdesc_first else status in
    if last then bit_or bits rx_cdesc_last else bits

-- The loop of `ena_rx_receive_iov` over the collected descriptors, with the bytes done in `off`.
-- The result holds the final `off`.
unfoldable pub rx_deliver :
    List RxDesc
    → EnaState
    → (frame : List ℕ) (i c status hash off : ℕ) (first : Bool) → Outcome (EnaState × ℕ)
rx_deliver [] s frame i c status hash off first = ok (s, off)
rx_deliver (d ∷ ds) s frame i c status hash off first = do
  let chunk = min (rx_desc_size d) (length frame - off)
  let s1 = dma_write_bytes s (rx_desc_addr d) (take chunk (drop off frame))
  let bits = frame_bits status first (is_empty ds)
  s2 ← rx_push_cdesc s1 c bits chunk d.req_id hash i (rx_desc_addr d)
  rx_deliver ds s2 frame i c status hash (off + chunk) false

abbrev pub rx_drop : EnaState → EnaState
rx_drop s = record s { rx_drops = u64 (s.rx_drops + 1) }

abbrev pub rx_account : EnaState → (i n len : ℕ) → EnaState
rx_account s i n len = record (consume s i n) {
  rx_pkts = u64 (s.rx_pkts + 1);
  rx_bytes = u64 (s.rx_bytes + len);
}

-- `!(frame[0] & 1) && memcmp(frame, mac, ETH_ALEN)`: a unicast frame for another address
unfoldable pub is_foreign : EnaState → List ℕ → Bool
is_foreign s frame =
    not (has (get_or frame 0 0) 1) && not (bytes_eq (take eth_alen frame) (take eth_alen s.macaddr))

module _ (host : Host) where
  -- `ena_rx_receive_iov` from the collected descriptors on
  unfoldable pub rx_complete : EnaState → (i hash : ℕ) → List ℕ → List RxDesc → Outcome EnaState
  rx_complete s i hash frame ds = do
    let c = (s.sq i).cq_idx
    (s1, off) ← rx_deliver ds s frame i c (rx_status host frame) hash 0 true
    check (off == length frame)
    ok (cq_intr host (rx_account s1 i (length ds) (length frame)) c false)

  unfoldable pub after_collect :
      (i hash : ℕ) → List ℕ → EnaState × Option (List RxDesc) → Outcome EnaState
  after_collect i hash frame (s, none) = ok (rx_drop s)
  after_collect i hash frame (s, some ds) = rx_complete s i hash frame ds

  unfoldable pub to_queue : EnaState → ℕ → List ℕ → Option ℕ → Outcome EnaState
  to_queue s hash frame none = ok (rx_drop s)
  to_queue s hash frame (some i) =
      if not (s.cq (s.sq i).cq_idx).used
      then ok (rx_drop s)
      else after_collect i hash frame (rx_collect host s i (length frame))

  -- `ena_rx_receive_iov`, of a frame as one buffer. Every path of the source returns its length.
  unfoldable pub rx_receive_iov : EnaState → List ℕ → Outcome EnaState
  rx_receive_iov s frame =
      if ltb (s.mtu + eth_hlen + 4) (length frame)
      then ok (rx_drop s)
      else if ltb (length frame) eth_hlen || is_foreign s frame
      then ok s
      else let s1 = log s (rx_pkt_attach frame) in
        let hash = rss_hash host s.rss frame in to_queue s1 hash frame (rx_sq s1 hash)
