-- ===== src/Tx/Xmit.antt =====
-- `ena_tx_xmit` of hw/ena_tx.c and its helpers: the frame is gathered, checked and handed over.
use ena.Base.{
  ℕ, ◌+◌, ◌-◌, ◌*◌, ◌/◌, ◌%◌, ◌^◌, bit_and, Bool, true, false, not, ◌&&◌, ◌||◌, List, [], ◌∷◌, ◌++◌,
  Option, none, some, Outcome, ok, ◌>>=◌, u64, ltb, leb, ◌==◌, has, if◌then◌else◌, length, take,
  drop, replicate, byte,
}
use ena.Host.{
  Host, send_packet, tx_pkt_add_raw_fragment, tx_pkt_build_vheader, tx_pkt_update_ip_checksums,
  tx_pkt_send, tx_pkt_reset,
}
use ena.Device.{EnaState, EnaSq, log, dma_read}
use ena.Device.Layout.{
  tx_length, tx_addr_hi, tx_header_length, tx_tso_en, tx_l3_csum_en, tx_l4_csum_en,
}
use ena.Rx.{eth_hlen, eth_alen}
use ena.Rx.Receive.{bytes_eq}
use ena.Tx.{llq_mem, llq_slice, TxDesc, EnaTxPkt, llq_header_off, llq_bytes, mask16}

-- `ENA_TX_MAX_PKT` and `ENA_TX_OFFLOAD_MASK`
abbrev pub tx_max_pkt : ℕ
tx_max_pkt = 65760

abbrev pub tx_offload_mask : ℕ
tx_offload_mask = 0x6080

-- `~` of the two checksum bits, on 32 bits
abbrev pub not_l3_csum_en : ℕ
not_l3_csum_en = 0xffffdfff

abbrev pub not_l4_csum_en : ℕ
not_l4_csum_en = 0xffffbfff

-- Standard protocol numbers
abbrev eth_p_ip : ℕ
eth_p_ip = 0x800

abbrev eth_p_ipv6 : ℕ
eth_p_ipv6 = 0x86dd

abbrev pub ip_proto_tcp : ℕ
ip_proto_tcp = 6

abbrev pub ip_proto_udp : ℕ
ip_proto_udp = 17

-- `ena_tx_desc_len`
unfoldable pub tx_desc_len : TxDesc → ℕ
tx_desc_len d = bit_and d.len_ctrl tx_length

-- `ena_tx_desc_addr`
unfoldable pub tx_desc_addr : TxDesc → ℕ
tx_desc_addr d = d.buff_addr_lo + bit_and d.buff_addr_hi_hdr_sz tx_addr_hi * 2 ^ 32

abbrev get_first : List TxDesc → TxDesc
get_first [] = record { len_ctrl = 0; meta_ctrl = 0; buff_addr_lo = 0; buff_addr_hi_hdr_sz = 0 }
get_first (d ∷ ds) = d

-- The descriptor 0 of a packet; `ena_tx_doorbell` gives only packets that have one.
abbrev pub first_desc : EnaTxPkt → TxDesc
first_desc p = get_first p.desc

unfoldable pub tx_hdr_len : EnaTxPkt → ℕ
tx_hdr_len p = bit_and (first_desc p).buff_addr_hi_hdr_sz tx_header_length / 2 ^ 24

unfoldable pub tx_descs_len : List TxDesc → ℕ
tx_descs_len [] = 0
tx_descs_len (d ∷ ds) = tx_desc_len d + tx_descs_len ds

-- A read of `n` bytes into a buffer of zeros
abbrev pub fit : ℕ → List ℕ → List ℕ
fit n b = take n (b ++ replicate n 0)

-- The place of the header pushed with the packet at the head, in the LLQ memory of the queue from
-- `base` on
abbrev header_in : (base : ℕ) → EnaSq → ℕ
header_in base q = base + bit_and q.head (mask16 q.depth) * q.entry_size + llq_header_off

-- `ena_tx_llq_header`, as an offset into BAR2
unfoldable pub tx_llq_header : EnaState → ℕ → Outcome ℕ
tx_llq_header s i = do base ← llq_mem s i; ok (header_in base (s.sq i))

-- The offset of the header of queue `i`, which `ena_tx_llq_header` gives for an LLQ
unfoldable pub llq_header_addr : EnaState → ℕ → ℕ
llq_header_addr s i = header_in (llq_slice i) (s.sq i)

abbrev append_some : List ℕ → Option (List ℕ) → Option (List ℕ)
append_some b none = none
append_some b (some r) = some (b ++ r)

module _ (host : Host) where
  -- The buffers of the descriptors, one after the other; `none` if a read fails.
  unfoldable pub tx_gather : EnaState → List TxDesc → Option (List ℕ)
  tx_gather s [] = some []
  tx_gather s (d ∷ ds) =
      let (read, b) = dma_read host s (tx_desc_addr d) (tx_desc_len d) in
      let rest = tx_gather s ds in if read then append_some (fit (tx_desc_len d) b) rest else none

  -- The header that `ena_tx_xmit` copies before the buffers, if it has one
  unfoldable pub tx_header : EnaState → (i hdr_len : ℕ) → Outcome (List ℕ)
  tx_header s i hdr_len =
      let copied =
        tx_llq_header s i >>= λ addr. ok (llq_bytes (host.llq_ram s.trace) addr hdr_len) in
      if hdr_len == 0 then ok [] else copied

  -- `ena_tx_frame_protos`: whether the frame is IPv4, and its L4 protocol
  unfoldable pub tx_frame_protos : List ℕ → Bool × ℕ
  tx_frame_protos buf =
      let len = length buf in
      let l2 = host.eth_get_l2_hdr_length buf in
      let proto = host.eth_get_l3_proto buf l2 in
      let ihl = byte buf l2 % 16 * 4 in
      if ltb len (eth_hlen + 4)
      then (false, 0)
      else if proto == eth_p_ip && leb (l2 + 20) len
      then (if byte buf l2 / 16 == 4 && leb 20 ihl && leb (l2 + ihl) len
          then (true, byte buf (l2 + 9))
          else (false, 0))
      else if proto == eth_p_ipv6 && leb (l2 + 40) len
      then (false, byte buf (l2 + 6))
      else (false, 0)

  -- The bytes `bs` written over a buffer at offset `o`
  unfoldable pub overwrite : List ℕ → ℕ → List ℕ → List ℕ
  overwrite buf o bs = take o buf ++ bs ++ drop (o + length bs) buf

  -- `ena_tx_ip4_csum`
  unfoldable pub tx_ip4_csum : List ℕ → List ℕ
  tx_ip4_csum buf =
      let l2 = host.eth_get_l2_hdr_length buf in
      let blank = overwrite buf (l2 + 10) (0 ∷ 0 ∷ []) in
      let sum = host.net_raw_checksum (take (byte buf l2 % 16 * 4) (drop l2 blank)) in
      overwrite blank (l2 + 10) (sum / 256 % 256 ∷ sum % 256 ∷ [])

  -- `ena_tx_offloads`
  unfoldable pub tx_offloads : EnaState → (offloads mss : ℕ) → EnaState × Bool
  tx_offloads s offloads mss =
      let s_tso = log s (tx_pkt_build_vheader true true mss) in
      let s_plain = log s (tx_pkt_build_vheader false true 0) in
      if has offloads tx_tso_en
      then (if host.tx_pkt_build_vheader_result s_tso.trace
          then (log s_tso tx_pkt_update_ip_checksums, true)
          else (s_tso, false))
      else (s_plain, host.tx_pkt_build_vheader_result s_plain.trace)

abbrev pub tx_drop : EnaState → EnaState
tx_drop s = record s { tx_drops = u64 (s.tx_drops + 1) }

abbrev pub tx_count : EnaState → ℕ → EnaState
tx_count s len = record s { tx_pkts = u64 (s.tx_pkts + 1); tx_bytes = u64 (s.tx_bytes + len) }

-- The offload bits that are left once the requests for other protocols are masked
unfoldable pub tx_valid_offloads : (offloads : ℕ) (ip4 : Bool) (l4 : ℕ) → ℕ
tx_valid_offloads offloads ip4 l4 =
    let o1 =
      if has offloads tx_l3_csum_en && not ip4 then bit_and offloads not_l3_csum_en else offloads in
    if has o1 tx_l4_csum_en && not (l4 == ip_proto_tcp) && not (l4 == ip_proto_udp)
    then bit_and o1 not_l4_csum_en
    else o1

module _ (host : Host) where
  -- The packet object's path at the end of `ena_tx_xmit`
  unfoldable pub tx_send_offloaded : EnaState → (buf : List ℕ) (offloads mss : ℕ) → EnaState
  tx_send_offloaded s buf offloads mss =
      let s1 = log s (tx_pkt_add_raw_fragment buf) in
      let (s2, built) = tx_offloads host s1 offloads mss in
      let s3 = log s2 tx_pkt_send in
      let sent =
        if not (host.tx_pkt_parse s1.trace)
        then tx_drop s1
        else if not built
        then tx_drop s2
        else if host.tx_pkt_send_result s3.trace
        then tx_count s3 (host.tx_pkt_get_total_len s3.trace)
        else s3 in
      log sent tx_pkt_reset

  -- The end of `ena_tx_xmit`: checksums of the IPv4 header, and the choice of the path
  unfoldable pub tx_send : EnaState → (buf : List ℕ) (offloads mss : ℕ) → EnaState
  tx_send s buf offloads mss =
      let ip_only = has offloads tx_l3_csum_en && not (has offloads tx_tso_en) in
      let buf' = if ip_only then tx_ip4_csum host buf else buf in
      let left = if ip_only then bit_and offloads not_l3_csum_en else offloads in
      if left == 0
      then tx_count (log s (send_packet buf')) (length buf)
      else tx_send_offloaded s buf' left mss

  -- `ena_tx_xmit` once the frame is gathered
  unfoldable pub tx_check_frame : EnaState → (i : ℕ) → EnaTxPkt → List ℕ → EnaState
  tx_check_frame s i p buf =
      let offloads = bit_and (first_desc p).meta_ctrl tx_offload_mask in
      let tso = has offloads tx_tso_en in
      let (ip4, l4) = tx_frame_protos host buf in
      let mss = (s.sq i).tx_meta.mss in
      if ltb (length buf) eth_hlen
        || not (bytes_eq (take eth_alen (drop eth_alen buf)) (take eth_alen s.macaddr))
      then s
      else if not tso && ltb (s.mtu + eth_hlen + 4) (length buf)
      then tx_drop s
      else if tso && (mss == 0 || not (l4 == ip_proto_tcp))
      then tx_drop s
      else tx_send s buf (tx_valid_offloads offloads ip4 l4) mss

  -- The header and the buffers, which are `none` if a read failed, make the frame.
  unfoldable pub send_gathered :
      EnaState → (i : ℕ) → EnaTxPkt → (header : List ℕ) → Option (List ℕ) → EnaState
  send_gathered s i p header none = tx_drop s
  send_gathered s i p header (some body) = tx_check_frame s i p (header ++ body)

  -- `ena_tx_xmit`
  unfoldable pub tx_xmit : EnaState → ℕ → EnaTxPkt → Outcome EnaState
  tx_xmit s i p =
      let q = s.sq i in
      let hdr_len = tx_hdr_len p in
      let total = hdr_len + tx_descs_len p.desc in
      if not q.llq && not (hdr_len == 0)
      then ok s
      else if ltb (u64 (q.entry_size + 2 ^ 64 - llq_header_off)) hdr_len
      then ok s
      else if total == 0 || ltb tx_max_pkt total
      then ok s
      else (tx_header host s i hdr_len >>= λ header.
          ok (send_gathered s i p header (tx_gather host s p.desc)))
