-- ===== src/Tx/Packet.antt =====
-- What `ena_tx_parse` of hw/ena_tx.c takes for a packet, against a description of the entries.
use ena.Base.{
  ℕ, suc, ◌+◌, ◌≤◌, true, false, List, [], ◌∷◌, Option, none, some, ◌≡◌, refl, sym, ap, subst, ◌∙◌,
  arith, has, if◌then◌else◌, if_both, length,
}
use ena.Host.{Host}
use ena.Device.{EnaState, max_pkt_descs}
use ena.Device.Layout.{tx_meta_desc, tx_first, tx_last, meta_ext_valid}
use ena.Reset.{zero_meta}
use ena.Tx.{TxDesc, EnaTxPkt, tx_read_meta, tx_slot_posted, tx_parse_from, tx_parse, empty_pkt}
use ena.Rx.Collect.{avail}
use ena.Tx.Parse.{OnSome}
use ena.Tx.Buffers.{
  extended, with_desc, extended_cons, slot_desc, Buffers, Adds, rest-Adds, rest-finds,
}

from_zero :
    (ds : List TxDesc) → extended empty_pkt ds 0 ≡ record empty_pkt { desc = ds; slots = length ds }
from_zero ds =
    ap (λ n. record empty_pkt { desc = ds; slots = n })
      (let e : 0 + length ds ≡ length ds = omega arith in e)

module _ (host : Host) (s : EnaState) (i : ℕ) where
  -- A packet: up to 17 buffer descriptors of which the first says so, or a posted meta descriptor
  -- with the extension and up to 17 buffer descriptors
  pub data IsPacket : EnaTxPkt → Type 0 where
    plain :
        (d : TxDesc) (ds : List TxDesc)
        → length (d ∷ ds) ≤ max_pkt_descs
        → has d.len_ctrl tx_first ≡ true
        → Buffers host s i 0 (d ∷ ds)
        → IsPacket record {
          desc = d ∷ ds;
          slots = length (d ∷ ds);
          have_meta = false;
          tx_meta = zero_meta;
        }
    with_meta :
        (ds : List TxDesc)
        → 1 ≤ length ds
        → length ds ≤ max_pkt_descs
        → tx_slot_posted (s.sq i) 0 (avail s i) ≡ true
        → has (slot_desc host s i 0).len_ctrl tx_meta_desc ≡ true
        → has (slot_desc host s i 0).len_ctrl meta_ext_valid ≡ true
        → Buffers host s i 1 ds
        → IsPacket record {
          desc = ds;
          slots = 1 + length ds;
          have_meta = true;
          tx_meta = tx_read_meta (slot_desc host s i 0);
        }

  first-finds :
      (left : ℕ) (p : EnaTxPkt)
      → IsPacket p
      → length p.desc ≤ left
      → tx_parse_from host (suc left) s i (avail s i) 0 empty_pkt ≡ some p
  unfolding tx_parse_from Buffers if◌then◌else◌
  first-finds left p (plain d [] few first (posted, got, buffer, last, rest)) le =
      rw (posted, sym got, buffer, first, last) refl
  first-finds left p (plain d (d' ∷ ds) few first (posted, got, buffer, last, rest)) le =
      rw (posted, sym got, buffer, first, last)
        (rest-finds host s i left 1 (with_desc empty_pkt d) (d' ∷ ds) (omega arith)
            (omega (arith, le)) refl (omega (arith, few)) rest
          ∙ ap some (extended_cons empty_pkt d (d' ∷ ds) 0 ∙ from_zero (d ∷ d' ∷ ds)))
  first-finds left p (with_meta ds some_desc few posted meta ext bs) le =
      rw (posted, meta, ext)
        (rest-finds host s i left 1
          (record empty_pkt { have_meta = true; tx_meta = tx_read_meta (slot_desc host s i 0) }) ds
          some_desc le refl (omega (arith, few)) bs)

  few_descs : (p : EnaTxPkt) → IsPacket p → length p.desc ≤ max_pkt_descs
  few_descs p (plain d ds few first bs) = few
  few_descs p (with_meta ds some_desc few posted meta ext bs) = few

  after_meta-IsPacket :
      tx_slot_posted (s.sq i) 0 (avail s i) ≡ true
      → has (slot_desc host s i 0).len_ctrl tx_meta_desc ≡ true
      → has (slot_desc host s i 0).len_ctrl meta_ext_valid ≡ true
      → (o : Option EnaTxPkt)
      → OnSome
          (Adds host s i
            (record empty_pkt { have_meta = true; tx_meta = tx_read_meta (slot_desc host s i 0) })
            1)
          o
      → OnSome IsPacket o
  after_meta-IsPacket posted meta ext none a = tt
  after_meta-IsPacket posted meta ext (some r) (ds, e, some_desc, few, bs) =
      subst IsPacket (sym e) (with_meta ds some_desc (omega (arith, few)) posted meta ext bs)

  after_first-IsPacket :
      tx_slot_posted (s.sq i) 0 (avail s i) ≡ true
      → has (slot_desc host s i 0).len_ctrl tx_meta_desc ≡ false
      → has (slot_desc host s i 0).len_ctrl tx_first ≡ true
      → has (slot_desc host s i 0).len_ctrl tx_last ≡ false
      → (o : Option EnaTxPkt)
      → OnSome (Adds host s i (with_desc empty_pkt (slot_desc host s i 0)) 1) o
      → OnSome IsPacket o
  unfolding Buffers
  after_first-IsPacket posted buffer first more none a = tt
  after_first-IsPacket posted buffer first more (some r) ([], e, l, few, bs) =
      absurd (omega (arith, l))
  after_first-IsPacket posted buffer first more (some r) (d ∷ ds, e, l, few, bs) =
      subst IsPacket
        (sym (
          e
          ∙ extended_cons empty_pkt (slot_desc host s i 0) (d ∷ ds) 0
          ∙ from_zero (slot_desc host s i 0 ∷ d ∷ ds)))
        (plain (slot_desc host s i 0) (d ∷ ds) (omega (arith, few)) first
          (posted, refl, buffer, more, bs))

  first-IsPacket :
      (left : ℕ) → OnSome IsPacket (tx_parse_from host (suc left) s i (avail s i) 0 empty_pkt)
  unfolding tx_parse_from Buffers
  first-IsPacket left =
      if_both Ok _ (λ _. tt)
        (λ posted.
          if_both Ok _
            (λ meta.
              if_both Ok _ (λ _. tt)
                (λ ext.
                  after_meta-IsPacket (ground (arith, posted)) meta (ground (arith, ext)) _
                    (rest-Adds host s i left 1 _ (omega arith) refl (omega arith))))
            (λ buffer.
              if_both Ok _ (λ _. tt)
                (λ first.
                  if_both Ok _ (λ _. tt)
                    (λ _.
                      if_both Ok _
                        (λ last.
                          plain (slot_desc host s i 0) [] (omega arith) (ground (arith, first))
                            (ground (arith, posted), refl, buffer, last, tt))
                        (λ more.
                          after_first-IsPacket (ground (arith, posted)) buffer
                            (ground (arith, first)) more _
                            (rest-Adds host s i left 1 (with_desc empty_pkt (slot_desc host s i 0))
                              (omega arith) refl (omega arith)))))))
    where
      Ok : Option EnaTxPkt → Type 0
      Ok = OnSome IsPacket

  -- `ena_tx_parse` accepts a packet exactly when the posted entries begin with it: a meta descriptor
  -- or none, then up to 17 buffer descriptors of which the last one alone is marked as such, the
  -- first one marked where no meta descriptor precedes. What it accepts is those descriptors, the
  -- fields of the meta descriptor and the number of slots.
  pub tx_parse_lem :
      OnSome IsPacket (tx_parse host s i)
      × ((p : EnaTxPkt) → IsPacket p → tx_parse host s i ≡ some p)
  unfolding tx_parse
  tx_parse_lem = (first-IsPacket 17, λ p packet. first-finds 17 p packet (few_descs p packet))
