-- ===== src/Tx/Moved.antt =====
-- The progress of one submission queue, for the proofs about `ena_tx_doorbell` of hw/ena_tx.c.
use ena.Base.{
  ℕ, ◌+◌, ◌≤◌, true, ◌≡◌, ◌≢◌, refl, ap, ◌∙◌, arith, update, update_self, update-ne, sub16, u16,
  if_both,
}
use ena.Device.{EnaState, EnaSq, EnaTxMeta}
use ena.Invariant.{Core, core, IsValidCore, IsValidSq, IsValid, set_sq-IsValid}
use ena.Invariant.Queues.{OnlyCqs}
use ena.Tx.{EnaTxPkt, slot_entries, llq_slot_line, llq_descs_per_entry}
use ena.Tx.Doorbell.{store_meta, advance_head}

-- Queue `i` has moved on by `k` entries, and nothing else of the submission queues has changed but
-- the cached metadata of queue `i`.
pub record Moved (c : Core) (i k : ℕ) (c' : Core) : Type 0 where
  pub valid : IsValidCore c'
  pub head_eq : (c'.sq i).head ≡ u16 ((c.sq i).head + k)
  pub tail_eq : (c'.sq i).tail ≡ (c.sq i).tail
  pub used_eq : (c'.sq i).used ≡ (c.sq i).used
  pub is_tx_eq : (c'.sq i).is_tx ≡ (c.sq i).is_tx
  pub llq_eq : (c'.sq i).llq ≡ (c.sq i).llq
  pub entry_eq : (c'.sq i).entry_size ≡ (c.sq i).entry_size
  pub cq_idx_eq : (c'.sq i).cq_idx ≡ (c.sq i).cq_idx
  pub others : (j : ℕ) → j ≢ i → c'.sq j ≡ c.sq j

pub Moved-trans :
    {c c' c'' : Core} (i k l : ℕ) → Moved c i k c' → Moved c' i l c'' → Moved c i (k + l) c''
Moved-trans i k l a b = record {
  valid = b.valid;
  head_eq = omega (arith, b.head_eq, a.head_eq);
  tail_eq = b.tail_eq ∙ a.tail_eq;
  used_eq = b.used_eq ∙ a.used_eq;
  is_tx_eq = b.is_tx_eq ∙ a.is_tx_eq;
  llq_eq = b.llq_eq ∙ a.llq_eq;
  entry_eq = b.entry_eq ∙ a.entry_eq;
  cq_idx_eq = b.cq_idx_eq ∙ a.cq_idx_eq;
  others = λ j ne. b.others j ne ∙ a.others j ne;
}

-- A queue that is replaced by one with the head `k` on
module _ (c : Core) (i k : ℕ) (q : EnaSq) (v : IsValidCore c) (u : (c.sq i).used ≡ true)
    (room : k ≤ sub16 (c.sq i).tail (c.sq i).head) (m : EnaTxMeta)
    (e : q ≡ record (c.sq i) { head = u16 ((c.sq i).head + k); tx_meta = m }) where
  old : IsValidSq c.cq (c.sq i)
  old = v.sqs i u

  replaced-IsValidSq :
      IsValidSq c.cq (record (c.sq i) { head = u16 ((c.sq i).head + k); tx_meta = m })
  replaced-IsValidSq = record {
    cq_in = old.cq_in;
    cq_used = old.cq_used;
    depth_in = old.depth_in;
    fits = old.fits;
    head_in = omega arith;
    tail_in = old.tail_in;
    posted = omega (arith, room, old.posted, old.head_in, old.tail_in);
    rx_entry = old.rx_entry;
    llq_tx = old.llq_tx;
    llq_line = old.llq_line;
    llq_room = old.llq_room;
  }

  pub replaced-Moved : Moved c i k (record c { sq = update c.sq i q })
  replaced-Moved = record {
    valid = set_sq-IsValid c i q (λ _. rw e replaced-IsValidSq) (λ _. v.sq_in i u) v;
    head_eq = rw (update_self c.sq i q) (ap (λ p. p.head) e);
    tail_eq = rw (update_self c.sq i q) (ap (λ p. p.tail) e);
    used_eq = rw (update_self c.sq i q) (ap (λ p. p.used) e);
    is_tx_eq = rw (update_self c.sq i q) (ap (λ p. p.is_tx) e);
    llq_eq = rw (update_self c.sq i q) (ap (λ p. p.llq) e);
    entry_eq = rw (update_self c.sq i q) (ap (λ p. p.entry_size) e);
    cq_idx_eq = rw (update_self c.sq i q) (ap (λ p. p.cq_idx) e);
    others = λ j ne. update-ne c.sq i q j ne;
  }

pub Moved-refl : (c : Core) (i : ℕ) → IsValidCore c → (c.sq i).used ≡ true → Moved c i 0 c
Moved-refl c i v u = record {
  valid = v;
  head_eq = omega (arith, (v.sqs i u).head_in);
  tail_eq = refl;
  used_eq = refl;
  is_tx_eq = refl;
  llq_eq = refl;
  entry_eq = refl;
  cq_idx_eq = refl;
  others = λ j ne. refl;
}

pub store_meta-Moved :
    (s : EnaState) (i : ℕ) (p : EnaTxPkt)
    → IsValid s
    → (s.sq i).used ≡ true
    → Moved (core s) i 0 (core (store_meta s i p))
unfolding core
store_meta-Moved s i p v u =
    if_both (λ t. Moved (core s) i 0 (core t)) p.have_meta
      (λ _.
        replaced-Moved (core s) i 0 (record (s.sq i) { tx_meta = p.tx_meta }) v u (omega arith)
          p.tx_meta same)
      (λ _. Moved-refl (core s) i v u)
  where
    same :
        record (s.sq i) { tx_meta = p.tx_meta }
        ≡ record (s.sq i) { head = u16 ((s.sq i).head + 0); tx_meta = p.tx_meta }
    same =
        ap (λ h. record (s.sq i) { head = h; tx_meta = p.tx_meta })
          (omega (arith, (v.sqs i u).head_in))

pub advance_head-Moved :
    (s : EnaState) (i slots : ℕ)
    → IsValid s
    → (s.sq i).used ≡ true
    → slot_entries (s.sq i) slots ≤ sub16 (s.sq i).tail (s.sq i).head
    → Moved (core s) i (slot_entries (s.sq i) slots) (core (advance_head s i slots))
unfolding core
advance_head-Moved s i slots v u room =
    replaced-Moved (core s) i (slot_entries (s.sq i) slots) _ v u room (s.sq i).tx_meta refl

-- The entries of a packet depend on the queue's kind only.
pub entries-eq :
    (p q : EnaSq) (slots : ℕ)
    → p.llq ≡ q.llq
    → p.entry_size ≡ q.entry_size
    → slot_entries p slots ≡ slot_entries q slots
unfolding slot_entries llq_slot_line llq_descs_per_entry
entries-eq p q slots e f = rw (e, f)

pub OnlyCqs-Moved :
    (s s' : EnaState) (i : ℕ)
    → (s.sq i).used ≡ true
    → IsValid s
    → IsValid s'
    → OnlyCqs s s'
    → Moved (core s) i 0 (core s')
unfolding core
OnlyCqs-Moved s s' i u v w o = record {
  valid = w;
  head_eq =
      ap (λ f. (f i).head) o.sq_same
      ∙ (let e : (s.sq i).head ≡ u16 ((s.sq i).head + 0) = omega (arith, (v.sqs i u).head_in) in e);
  tail_eq = ap (λ f. (f i).tail) o.sq_same;
  used_eq = ap (λ f. (f i).used) o.sq_same;
  is_tx_eq = ap (λ f. (f i).is_tx) o.sq_same;
  llq_eq = ap (λ f. (f i).llq) o.sq_same;
  entry_eq = ap (λ f. (f i).entry_size) o.sq_same;
  cq_idx_eq = ap (λ f. (f i).cq_idx) o.sq_same;
  others = λ j ne. ap (λ f. f j) o.sq_same;
}
