-- ===== src/Tx/Buffers.antt =====
-- The rounds of `ena_tx_parse` of hw/ena_tx.c over the buffer descriptors of a packet that has begun.
use ena.Base.{
  ℕ, zero, suc, ◌+◌, ◌≤◌, Bool, true, false, not, ◌&&◌, List, [], ◌∷◌, ◌++◌, Option, none, some,
  ◌≡◌, refl, sym, ap, ◌∙◌, arith, has, if◌then◌else◌, if_both, ◌==◌, length, length-append,
}
use mathlib.Core.List.{append_assoc}
use ena.Host.{Host}
use ena.Device.{EnaState, max_pkt_descs}
use ena.Device.Layout.{tx_meta_desc, tx_last}
use ena.Tx.{TxDesc, EnaTxPkt, tx_desc, tx_read_slot, tx_slot_posted, tx_parse_from}
use ena.Rx.Collect.{avail}
use ena.Tx.Parse.{OnSome}

abbrev pub no_more : List TxDesc → Bool
no_more [] = true
no_more (d ∷ ds) = false

-- The packet with the buffers `ds` read from slot `slot` on
abbrev pub extended : EnaTxPkt → List TxDesc → (slot : ℕ) → EnaTxPkt
extended p ds slot = record p { desc = p.desc ++ ds; slots = slot + length ds }

abbrev pub with_desc : EnaTxPkt → TxDesc → EnaTxPkt
with_desc p d = record p { desc = p.desc ++ d ∷ [] }

pub extended_cons :
    (p : EnaTxPkt) (d : TxDesc) (ds : List TxDesc) (slot : ℕ)
    → extended (with_desc p d) ds (slot + 1) ≡ extended p (d ∷ ds) slot
extended_cons p d ds slot =
    ap (λ l. record p { desc = l; slots = slot + 1 + length ds }) (append_assoc p.desc (d ∷ []) ds)
    ∙ ap (λ n. record p { desc = p.desc ++ d ∷ ds; slots = n })
        (let e : slot + 1 + length ds ≡ slot + length (d ∷ ds) = omega arith in e)

module _ (host : Host) (s : EnaState) (i : ℕ) where
  abbrev pub slot_desc : ℕ → TxDesc
  slot_desc slot = tx_desc (tx_read_slot host s i slot)

  -- The buffer descriptors from slot `slot` on: each is posted, and the last one alone says so.
  unfoldable pub Buffers : (slot : ℕ) → List TxDesc → Type 0
  Buffers slot [] = Unit {0}
  Buffers slot (d ∷ ds) =
      (tx_slot_posted (s.sq i) slot (avail s i) ≡ true)
      × (d ≡ slot_desc slot)
      × (has d.len_ctrl tx_meta_desc ≡ false)
      × (has d.len_ctrl tx_last ≡ no_more ds)
      × Buffers (slot + 1) ds

  -- A packet that has begun
  abbrev pub Begun : EnaTxPkt → Type 0
  Begun p = (length p.desc == 0 && not p.have_meta) ≡ false

  with_desc-Begun : (p : EnaTxPkt) (d : TxDesc) → Begun (with_desc p d)
  with_desc-Begun p d = ground (arith, length-append p.desc (d ∷ []))

  -- What the rest of the loop adds to a packet
  abbrev pub Adds : EnaTxPkt → (slot : ℕ) → EnaTxPkt → Type 0
  Adds p slot r =
      (ds : List TxDesc) × (r ≡ extended p ds slot)
      × (1 ≤ length ds)
      × (length p.desc + length ds ≤ max_pkt_descs)
      × Buffers slot ds

  pub rest-Adds :
      (left slot : ℕ) (p : EnaTxPkt)
      → 1 ≤ slot
      → Begun p
      → length p.desc ≤ max_pkt_descs
      → OnSome (Adds p slot) (tx_parse_from host left s i (avail s i) slot p)
  unfolding tx_parse_from Buffers
  rest-Adds zero slot p le b few = tt
  rest-Adds (suc left) slot p le b few =
      if_both Ok _ (λ _. tt)
        (λ posted.
          if_both Ok _ (λ _. if_both Ok _ (λ _. tt) (λ e. absurd (ground (arith, e, le))))
            (λ buffer.
              if_both Ok _ (λ _. tt)
                (λ _.
                  if_both Ok _ (λ _. tt)
                    (λ room.
                      if_both Ok _
                        (λ last. (
                          slot_desc slot ∷ [],
                          refl,
                          omega arith,
                          ground (arith, room, few),
                          (ground (arith, posted), refl, buffer, last, tt),
                        ))
                        (λ more. added posted buffer more (ground (arith, room, few)) _ (
                          rest-Adds left (slot + 1) (with_desc p (slot_desc slot)) (omega arith)
                            (with_desc-Begun p (slot_desc slot))
                            (ground
                              (arith, room, few, length-append p.desc (slot_desc slot ∷ [])))))))))
    where
      Ok : Option EnaTxPkt → Type 0
      Ok = OnSome (Adds p slot)

      added :
          not (tx_slot_posted (s.sq i) slot (avail s i)) ≡ false
          → has (slot_desc slot).len_ctrl tx_meta_desc ≡ false
          → has (slot_desc slot).len_ctrl tx_last ≡ false
          → length p.desc + 1 ≤ max_pkt_descs
          → (o : Option EnaTxPkt) → OnSome (Adds (with_desc p (slot_desc slot)) (slot + 1)) o
          → Ok o
      added posted buffer more room none a = tt
      added posted buffer more room (some r) ([], e, l, few, bs) = absurd (omega (arith, l))
      added posted buffer more room (some r) (d ∷ ds, e, l, few, bs) = (
        slot_desc slot ∷ d ∷ ds,
        e ∙ extended_cons p (slot_desc slot) (d ∷ ds) slot,
        omega arith,
        omega (arith, few, length-append p.desc (slot_desc slot ∷ [])),
        (ground (arith, posted), refl, buffer, more, bs),
      )

  starts_well :
      (p : EnaTxPkt) (b : Bool) → Begun p → (length p.desc == 0 && not p.have_meta && b) ≡ false
  starts_well p b h = ground (arith, h)

  not_full : (a b : ℕ) → a + suc b ≤ max_pkt_descs → a == max_pkt_descs ≡ false
  not_full a b h = ground (arith, h)

  -- The buffers that are there are added.
  pub rest-finds :
      (left slot : ℕ) (p : EnaTxPkt) (ds : List TxDesc)
      → 1 ≤ length ds
      → length ds ≤ left
      → Begun p
      → length p.desc + length ds ≤ max_pkt_descs
      → Buffers slot ds
      → tx_parse_from host left s i (avail s i) slot p ≡ some (extended p ds slot)
  unfolding tx_parse_from Buffers if◌then◌else◌
  rest-finds left slot p [] some_desc le b few bs = absurd (omega (arith, some_desc))
  rest-finds zero slot p (d ∷ ds) some_desc le b few bs = absurd (omega (arith, le))
  rest-finds (suc left) slot p (d ∷ []) some_desc le b few (posted, got, buffer, last, rest) =
      rw (posted, sym got, buffer, starts_well p _ b, not_full _ _ few, last) refl
  rest-finds (suc left) slot p (d ∷ d' ∷ ds) some_desc le b few (posted, got, buffer, last, rest) =
      rw (posted, sym got, buffer, starts_well p _ b, not_full _ _ few, last)
        (rest-finds left (slot + 1) (with_desc p d) (d' ∷ ds) (omega arith) (omega (arith, le))
            (with_desc-Begun p d) (omega (arith, few, length-append p.desc (d ∷ []))) rest
          ∙ ap some (extended_cons p d (d' ∷ ds) slot))
