-- ===== src/Tx/Offload.antt =====
-- The paths of a frame out of `ena_tx_xmit` of hw/ena_tx.c: as it is, with the checksum of its IPv4
-- header in place, or through QEMU's packet object.
use ena.Base.{
  Bool-cases, sym, subst, not-true, not-false, ℕ, Bool, true, false, not, ◌&&◌, ◌||◌, List, ◌≡◌,
  inl, inr, refl, has, if◌then◌else◌, if_both, length,
}
use ena.Tx.OffloadBits.{word, offload_word, granted_word, word_flags, has_l4_csum}
use ena.Host.{
  Host, send_packet, tx_pkt_add_raw_fragment, tx_pkt_build_vheader, tx_pkt_update_ip_checksums,
  tx_pkt_send, tx_pkt_reset,
}
use ena.Device.{EnaState, log}
use ena.Device.Layout.{tx_tso_en, tx_l3_csum_en, tx_l4_csum_en}
use ena.Tx.{EnaTxPkt}
use ena.Tx.Sent.{asked, is_tso, granted}
use ena.Tx.Xmit.{
  first_desc, tx_frame_protos, tx_valid_offloads, tx_ip4_csum, tx_offloads, tx_send_offloaded,
  tx_send, tx_drop, tx_count,
}

module _ (host : Host) (s : EnaState) (buf : List ℕ) (mss : ℕ) where
  -- The frame with the checksum of its IPv4 header filled in, or as it is
  abbrev pub out_frame : Bool → List ℕ
  out_frame fix = if fix then tx_ip4_csum host buf else buf

  -- The packet object with a frame, its virtual header built, the checksums of a segmented frame
  -- updated, and sent
  abbrev pub added : List ℕ → EnaState
  added f = log s (tx_pkt_add_raw_fragment f)

  abbrev pub built : List ℕ → Bool → EnaState
  built f tso = log (added f) (tx_pkt_build_vheader tso true (if tso then mss else 0))

  abbrev pub ready : List ℕ → Bool → EnaState
  ready f tso = if tso then log (built f tso) tx_pkt_update_ip_checksums else built f tso

  abbrev pub given : List ℕ → Bool → EnaState
  given f tso = log (ready f tso) tx_pkt_send

  -- A frame goes through the packet object, which is reset at the end whatever happens.
  pub data ObjectRun (f : List ℕ) (tso : Bool) : EnaState → Type 0 where
    not_parsed :
        host.tx_pkt_parse (added f).trace ≡ false
        → ObjectRun f tso (log (tx_drop (added f)) tx_pkt_reset)
    not_built :
        host.tx_pkt_parse (added f).trace ≡ true
        → host.tx_pkt_build_vheader_result (built f tso).trace ≡ false
        → ObjectRun f tso (log (tx_drop (built f tso)) tx_pkt_reset)
    not_sent :
        host.tx_pkt_parse (added f).trace ≡ true
        → host.tx_pkt_build_vheader_result (built f tso).trace ≡ true
        → host.tx_pkt_send_result (given f tso).trace ≡ false
        → ObjectRun f tso (log (given f tso) tx_pkt_reset)
    sent :
        host.tx_pkt_parse (added f).trace ≡ true
        → host.tx_pkt_build_vheader_result (built f tso).trace ≡ true
        → host.tx_pkt_send_result (given f tso).trace ≡ true
        → ObjectRun f tso (
            log
              (tx_count (given f tso) (host.tx_pkt_get_total_len (given f tso).trace))
              tx_pkt_reset)

  -- How a frame goes out, with the offloads that are left to do
  pub data Outgoing (tso l3 l4 : Bool) : EnaState → Type 0 where
    direct :
        tso ≡ false
        → l4 ≡ false
        → Outgoing tso l3 l4 (tx_count (log s (send_packet (out_frame l3))) (length buf))
    by_object :
        {t : EnaState}
        → (tso || l4) ≡ true
        → ObjectRun (out_frame (l3 && not tso)) tso t
        → Outgoing tso l3 l4 t

  -- The end of the packet object's path, once the virtual header is built
  abbrev finished : List ℕ → EnaState × Bool → EnaState
  finished f r =
      let t = log r.0 tx_pkt_send in
      log
        (if not (host.tx_pkt_parse (added f).trace)
          then tx_drop (added f)
          else if not r.1
          then tx_drop r.0
          else if host.tx_pkt_send_result t.trace
          then tx_count t (host.tx_pkt_get_total_len t.trace)
          else t)
        tx_pkt_reset

  -- The virtual header was not built.
  unbuilt-ObjectRun :
      (f : List ℕ) (tso : Bool)
      → host.tx_pkt_build_vheader_result (built f tso).trace ≡ false
      → ObjectRun f tso (finished f (built f tso, false))
  unfolding if◌then◌else◌
  unbuilt-ObjectRun f tso g =
      if_both (λ t. ObjectRun f tso (log t tx_pkt_reset)) _ (λ e. not_parsed (not-true e))
        (λ e. not_built (not-false e) g)

  -- It was built, and the frame is ready to be sent.
  ready-ObjectRun :
      (f : List ℕ) (tso : Bool)
      → host.tx_pkt_build_vheader_result (built f tso).trace ≡ true
      → ObjectRun f tso (finished f (ready f tso, true))
  ready-ObjectRun f tso g =
      if_both Run _ (λ e. not_parsed (not-true e))
        (λ e.
          if_both Run false (λ h. cc)
            (λ _. if_both Run _ (λ h. sent (not-false e) g h) (λ h. not_sent (not-false e) g h)))
    where
      Run : EnaState → Type 0
      Run t = ObjectRun f tso (log t tx_pkt_reset)

  plain_offloads :
      (f : List ℕ) (o : ℕ)
      → has o tx_tso_en ≡ false
      → tx_offloads host (added f) o mss
        ≡ (built f false, host.tx_pkt_build_vheader_result (built f false).trace)
  unfolding tx_offloads if◌then◌else◌
  plain_offloads f o e = rw e refl

  tso_offloads :
      (f : List ℕ) (o : ℕ)
      → has o tx_tso_en ≡ true
      → tx_offloads host (added f) o mss ≡ (
          if host.tx_pkt_build_vheader_result (built f true).trace
          then (ready f true, true)
          else (built f true, false))
  unfolding tx_offloads if◌then◌else◌
  tso_offloads f o e = rw e refl

  plain-ObjectRun :
      (f : List ℕ) (o : ℕ)
      → has o tx_tso_en ≡ false
      → ObjectRun f false (tx_send_offloaded host s f o mss)
  unfolding tx_send_offloaded if◌then◌else◌
  plain-ObjectRun f o e =
      subst (λ r. ObjectRun f false (finished f r)) (sym (plain_offloads f o e))
        (elim (Bool-cases (host.tx_pkt_build_vheader_result (built f false).trace)) [
          | inl g ↦
              subst (λ b. ObjectRun f false (finished f (built f false, b))) (sym g)
                (ready-ObjectRun f false g)
          | inr g ↦
              subst (λ b. ObjectRun f false (finished f (built f false, b))) (sym g)
                (unbuilt-ObjectRun f false g)
        ])

  tso-ObjectRun :
      (f : List ℕ) (o : ℕ)
      → has o tx_tso_en ≡ true
      → ObjectRun f true (tx_send_offloaded host s f o mss)
  unfolding tx_send_offloaded
  tso-ObjectRun f o e =
      subst (λ r. ObjectRun f true (finished f r)) (sym (tso_offloads f o e))
        (if_both {A = EnaState × Bool} (λ r. ObjectRun f true (finished f r)) _
          (ready-ObjectRun f true) (unbuilt-ObjectRun f true))

  word-Outgoing : (tso l3 l4 : Bool) → Outgoing tso l3 l4 (tx_send host s buf (word tso l3 l4) mss)
  unfolding tx_send if◌then◌else◌
  word-Outgoing true true true = by_object refl (tso-ObjectRun _ _ refl)
  word-Outgoing true true false = by_object refl (tso-ObjectRun _ _ refl)
  word-Outgoing true false true = by_object refl (tso-ObjectRun _ _ refl)
  word-Outgoing true false false = by_object refl (tso-ObjectRun _ _ refl)
  word-Outgoing false true true = by_object refl (plain-ObjectRun _ _ refl)
  word-Outgoing false true false = direct refl refl
  word-Outgoing false false true = by_object refl (plain-ObjectRun _ _ refl)
  word-Outgoing false false false = direct refl refl

  word-lem :
      (tso l3 l4 ip4 : Bool) (proto : ℕ)
      → Outgoing
          (has (word tso l3 l4) tx_tso_en)
          (has (word tso l3 l4) tx_l3_csum_en && ip4)
          (has (word tso l3 l4) tx_l4_csum_en && has_l4_csum proto)
          (tx_send host s buf (tx_valid_offloads (word tso l3 l4) ip4 proto) mss)
  word-lem tso l3 l4 ip4 proto =
      let (a, b, c) = word_flags tso l3 l4 in
      rw (a, b, c, granted_word tso l3 l4 ip4 proto)
        (word-Outgoing tso (l3 && ip4) (l4 && has_l4_csum proto))

  -- A frame that `ena_tx_xmit` hands on goes out as the packet's offloads and its own protocols
  -- ask: to be segmented, or to get a TCP or UDP checksum, through the packet object; else
  -- directly, and it is then counted as sent. A frame that the object cannot parse or build is
  -- counted as dropped, one that it sends as sent, one that it fails to send as neither, and the
  -- object is reset at the end. The checksum of an IPv4 header is filled in before, if it is asked
  -- for and the frame is not segmented.
  pub tx_send_lem :
      (p : EnaTxPkt)
      → Outgoing
          (is_tso p)
          (has (asked p) tx_l3_csum_en && (tx_frame_protos host buf).0)
          (has (asked p) tx_l4_csum_en && has_l4_csum (tx_frame_protos host buf).1)
          (tx_send host s buf (granted host p buf) mss)
  tx_send_lem p =
      let (tso, l3, l4, e) = offload_word (first_desc p).meta_ctrl in
      let protos = tx_frame_protos host buf in
      subst
        (λ w.
          Outgoing (has w tx_tso_en) (has w tx_l3_csum_en && protos.0)
            (has w tx_l4_csum_en && has_l4_csum protos.1)
            (tx_send host s buf (tx_valid_offloads w protos.0 protos.1) mss))
        (sym e) (word-lem tso l3 l4 protos.0 protos.1)
