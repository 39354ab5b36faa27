-- ===== src/Tx/Parse.antt =====
-- `ena_tx_parse` of hw/ena_tx.c against the posted entries, and `ena_tx_xmit` against the queues.
use ena.Base.{
  ℕ, zero, suc, ◌+◌, ◌-◌, ◌≤◌, Bool, true, List, [], ◌∷◌, ◌++◌, Option, none, some, ◌≡◌, refl, ap,
  ◌∙◌, arith, if◌then◌else◌, if_both, length, length-append, sub16,
}
use ena.Host.{Host, tx_pkt_add_raw_fragment}
use ena.Device.{EnaState, EnaSq, log}
use ena.Invariant.{core}
use ena.Invariant.Queues.{core-log}
use ena.Tx.{
  TxDesc, EnaTxPkt, slot_entries, tx_slot_posted, tx_parse_from, tx_parse, empty_pkt, llq_slot_line,
}
use ena.Tx.Xmitted.{xmitted, xmitted-elim}
use ena.Tx.Xmit.{
  tx_drop, tx_count, tx_offloads, tx_send_offloaded, tx_send, tx_check_frame, send_gathered,
}

-- A packet that was accepted has a descriptor, and its entries are among those posted.
pub record IsParsed (q : EnaSq) (avail : ℕ) (p : EnaTxPkt) : Type 0 where
  pub some_desc : 1 ≤ length p.desc
  pub some_slot : 1 ≤ p.slots
  pub some_entry : 1 ≤ slot_entries q p.slots
  pub within : slot_entries q p.slots ≤ avail

abbrev pub OnSome : {A : Type 0} → (A → Type 0) → Option A → Type 0
OnSome P none = Unit {0}
OnSome P (some a) = P a

entries-suc :
    (q : EnaSq) (slot : ℕ)
    → slot_entries q (slot + 1) ≡ (if q.llq then llq_slot_line q slot + 1 else slot + 1)
unfolding slot_entries
entries-suc q slot =
    ap (λ t. if q.llq then llq_slot_line q t + 1 else slot + 1)
      (let e : slot + 1 - 1 ≡ slot = omega arith in e)

posted_entries :
    (q : EnaSq) (slot avail : ℕ)
    → tx_slot_posted q slot avail ≡ true
    → (1 ≤ slot_entries q (slot + 1)) × (slot_entries q (slot + 1) ≤ avail)
unfolding tx_slot_posted if◌then◌else◌
posted_entries q slot avail h = ground (arith, entries-suc q slot)

module _ (host : Host) where
  tx_parse_from-IsParsed :
      (left : ℕ) (s : EnaState) (i avail slot : ℕ) (p : EnaTxPkt)
      → OnSome (IsParsed (s.sq i) avail) (tx_parse_from host left s i avail slot p)
  unfolding tx_parse_from
  tx_parse_from-IsParsed zero s i avail slot p = tt
  tx_parse_from-IsParsed (suc left) s i avail slot p =
      if_both Ok _ (λ _. tt)
        (λ posted.
          if_both Ok _
            (λ _. if_both Ok _ (λ _. tt) (λ _. tx_parse_from-IsParsed left s i avail (slot + 1) _))
            (λ _.
              if_both Ok _ (λ _. tt)
                (λ _.
                  if_both Ok _ (λ _. tt)
                    (λ _.
                      if_both Ok _
                        (λ _.
                          accepted p _
                            (posted_entries (s.sq i) slot avail (ground (arith, posted))))
                        (λ _. tx_parse_from-IsParsed left s i avail (slot + 1) _)))))
    where
      accepted :
          (p : EnaTxPkt) (d : TxDesc)
          → (1 ≤ slot_entries (s.sq i) (slot + 1)) × (slot_entries (s.sq i) (slot + 1) ≤ avail)
          → IsParsed (s.sq i) avail (record p { desc = p.desc ++ d ∷ []; slots = slot + 1 })
      accepted p d h = record {
        some_desc = omega (arith, length-append p.desc (d ∷ []));
        some_slot = omega arith;
        some_entry = h.0;
        within = h.1;
      }

      Ok : Option EnaTxPkt → Type 0
      Ok = OnSome (IsParsed (s.sq i) avail)

  -- A packet that `ena_tx_parse` accepts has a descriptor, and takes at least one entry and at most
  -- those that the driver has posted.
  pub tx_parse-IsParsed :
      (s : EnaState) (i : ℕ)
      → OnSome (IsParsed (s.sq i) (sub16 (s.sq i).tail (s.sq i).head)) (tx_parse host s i)
  unfolding tx_parse
  tx_parse-IsParsed s i = tx_parse_from-IsParsed _ s i _ 0 empty_pkt

core-tx_drop : (s : EnaState) → core (tx_drop s) ≡ core s
unfolding core
core-tx_drop s = refl

core-tx_count : (s : EnaState) (len : ℕ) → core (tx_count s len) ≡ core s
unfolding core
core-tx_count s len = refl

module _ (host : Host) where
  core-tx_offloads :
      (s : EnaState) (offloads mss : ℕ) → core (tx_offloads host s offloads mss).0 ≡ core s
  unfolding tx_offloads
  core-tx_offloads s offloads mss =
      if_both {A = EnaState × Bool} (λ t. core t.0 ≡ core s) _
        (λ _.
          if_both {A = EnaState × Bool} (λ t. core t.0 ≡ core s) _
            (λ _. core-log _ _ ∙ core-log s _) (λ _. core-log s _))
        (λ _. core-log s _)

  core-tx_send_offloaded :
      (s : EnaState) (buf : List ℕ) (offloads mss : ℕ)
      → core (tx_send_offloaded host s buf offloads mss) ≡ core s
  unfolding tx_send_offloaded
  core-tx_send_offloaded s buf offloads mss =
      core-log _ _
      ∙ if_both (λ t. core t ≡ core s) _ (λ _. core-tx_drop _ ∙ core-log s _)
          (λ _.
            if_both (λ t. core t ≡ core s) _ (λ _. core-tx_drop _ ∙ built)
              (λ _.
                if_both (λ t. core t ≡ core s) _ (λ _. core-tx_count _ _ ∙ core-log _ _ ∙ built)
                  (λ _. core-log _ _ ∙ built)))
    where
      built : core (tx_offloads host (log s (tx_pkt_add_raw_fragment buf)) offloads mss).0 ≡ core s
      built = core-tx_offloads _ offloads mss ∙ core-log s _

  core-tx_send :
      (s : EnaState) (buf : List ℕ) (offloads mss : ℕ)
      → core (tx_send host s buf offloads mss) ≡ core s
  unfolding tx_send
  core-tx_send s buf offloads mss =
      if_both (λ t. core t ≡ core s) _ (λ _. core-tx_count _ _ ∙ core-log s _)
        (λ _. core-tx_send_offloaded s _ _ mss)

  core-tx_check_frame :
      (s : EnaState) (i : ℕ) (p : EnaTxPkt) (buf : List ℕ)
      → core (tx_check_frame host s i p buf) ≡ core s
  unfolding tx_check_frame
  core-tx_check_frame s i p buf =
      if_both (λ t. core t ≡ core s) _ (λ _. refl)
        (λ _.
          if_both (λ t. core t ≡ core s) _ (λ _. core-tx_drop s)
            (λ _.
              if_both (λ t. core t ≡ core s) _ (λ _. core-tx_drop s) (λ _. core-tx_send s buf _ _)))

  core-send_gathered :
      (s : EnaState) (i : ℕ) (p : EnaTxPkt) (header : List ℕ) (body : Option (List ℕ))
      → core (send_gathered host s i p header body) ≡ core s
  unfolding send_gathered
  core-send_gathered s i p header none = core-tx_drop s
  core-send_gathered s i p header (some body) = core-tx_check_frame s i p _

  -- Sending a frame changes nothing that the invariant reads.
  pub core-xmitted : (s : EnaState) (i : ℕ) (p : EnaTxPkt) → core (xmitted host s i p) ≡ core s
  core-xmitted s i p =
      xmitted-elim host s i p (λ t. core t ≡ core s) refl (core-send_gathered s i p _ _)
