-- ===== src/Tx/Xmitted.antt =====
-- What `ena_tx_xmit` of hw/ena_tx.c returns: its assertion, in `ena_llq_mem`, does not fail.
use ena.Base.{
  ◌≤◌, has, ℕ, ◌==◌, ltb, if◌then◌else◌, true, false, List, Outcome, ok, unsupported, assert_failed,
  out_of_fuel, ◌≡◌, inl, inr, refl, arith, if_both, Bool-cases, ==_iff, Total, Returns,
}
use ena.Host.{Host}
use ena.Device.{EnaState}
use ena.Device.Layout.{tx_comp_req}
use ena.Tx.{EnaTxPkt, llq_mem, llq_bytes, tx_pkt_entries}
use ena.Tx.Xmit.{
  first_desc, tx_hdr_len, tx_gather, tx_llq_header, llq_header_addr, tx_header, send_gathered,
  tx_xmit,
}
use ena.Tx.Doorbell.{store_meta, advance_head, tx_complete, tx_packet, tx_req_id}

-- The state that a handler returns, or the one that it started with
unfoldable pub result : EnaState → Outcome EnaState → EnaState
result s (ok t) = t
result s unsupported = s
result s assert_failed = s
result s out_of_fuel = s

pub Total-result :
    (P : EnaState → Type 0) (s : EnaState) (m : Outcome EnaState) → Total P m → P (result s m)
unfolding result
Total-result P s (ok t) h = h
Total-result P s unsupported h = absurd h
Total-result P s assert_failed h = absurd h
Total-result P s out_of_fuel h = absurd h

Total-ok-result :
    (P : EnaState → Type 0) (s : EnaState) (m : Outcome EnaState) → Total P m → m ≡ ok (result s m)
unfolding result
Total-ok-result P s (ok t) h = refl
Total-ok-result P s unsupported h = absurd h
Total-ok-result P s assert_failed h = absurd h
Total-ok-result P s out_of_fuel h = absurd h

module _ (host : Host) (s : EnaState) (i : ℕ) where
  -- The bytes of a header of the queue
  abbrev pub pushed_header : ℕ → List ℕ
  pushed_header n = llq_bytes (host.llq_ram s.trace) (llq_header_addr s i) n

  -- The header is read from the queue's LLQ memory: a queue in host memory has none.
  pub tx_header-pushed_header :
      (n : ℕ) → ((s.sq i).llq ≡ false → n ≡ 0) → tx_header host s i n ≡ ok (pushed_header n)
  unfolding tx_header tx_llq_header llq_mem llq_header_addr llq_bytes if◌then◌else◌
  tx_header-pushed_header n h = elim (Bool-cases (s.sq i).llq) [
    | inl e ↦ elim (Bool-cases (n == 0)) [
      | inl z ↦ rw ((==_iff n 0).0 z) refl
      | inr z ↦ rw (z, e) refl
    ]
    | inr e ↦ rw (h e) refl
  ]

  module _ (p : EnaTxPkt) where
    -- The state after `ena_tx_xmit`
    abbrev pub xmitted : EnaState
    xmitted = result s (tx_xmit host s i p)

    abbrev pub gathered : EnaState
    gathered = send_gathered host s i p (pushed_header (tx_hdr_len p)) (tx_gather host s p.desc)

    -- A packet is refused, or its frame is gathered.
    tx_xmit-Total : (P : EnaState → Type 0) → P s → P gathered → Total P (tx_xmit host s i p)
    unfolding tx_xmit
    tx_xmit-Total P a b =
        if_both (Total P) _ (λ _. a)
          (λ e.
            if_both (Total P) _ (λ _. a)
              (λ _.
                if_both (Total P) _ (λ _. a)
                  (λ _. rw (tx_header-pushed_header (tx_hdr_len p) (ground (arith, e))) b)))

    pub xmitted-elim : (P : EnaState → Type 0) → P s → P gathered → P xmitted
    xmitted-elim P a b = Total-result P s _ (tx_xmit-Total P a b)

    pub tx_xmit-xmitted : tx_xmit host s i p ≡ ok xmitted
    tx_xmit-xmitted = Total-ok-result (λ _. Unit {0}) s _ (tx_xmit-Total (λ _. Unit {0}) tt tt)

-- The packet is transmitted, and its entries are off the queue.
abbrev pub sent_packet : Host → EnaState → (i : ℕ) → EnaTxPkt → EnaState
sent_packet host s i p = advance_head (xmitted host (store_meta s i p) i p) i p.slots

module _ (host : Host) (s : EnaState) (i : ℕ) (p : EnaTxPkt) where
  -- A packet is completed, if it asks for it, once it is sent.
  unfoldable pub complete_packet : Outcome EnaState
  complete_packet =
      let d = first_desc p in
      let s1 = sent_packet host s i p in
      if has d.len_ctrl tx_comp_req then tx_complete host s1 i (tx_req_id d) else ok s1

  -- The assertions of a packet that takes a slot hold.
  pub tx_packet-complete_packet : 1 ≤ p.slots → tx_packet host s i p ≡ complete_packet
  unfolding tx_packet complete_packet tx_pkt_entries result
  tx_packet-complete_packet h =
      let some_slot : ltb 0 p.slots ≡ true = ground (arith, h) in
      rw (tx_xmit-xmitted host (store_meta s i p) i p, some_slot) refl

  -- What holds if the rest of a packet returns, holds if the packet does.
  pub tx_packet-Returns :
      (P : EnaState → Type 0) → Returns P complete_packet → Returns P (tx_packet host s i p)
  unfolding tx_packet complete_packet tx_pkt_entries result
  tx_packet-Returns P h = elim (Bool-cases (ltb 0 p.slots)) [
    | inl e ↦ rw (tx_xmit-xmitted host (store_meta s i p) i p, e) h
    | inr e ↦ rw (tx_xmit-xmitted host (store_meta s i p) i p, e) tt
  ]
