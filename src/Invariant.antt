-- ===== src/Invariant.antt =====
-- What a well-formed device is (`EnaState` of hw/ena.h), and the replacement of one queue in it.
pub mod Queues
pub mod Registers
use ena.Base.{
  bit_and, u16, ℕ, ◌+◌, ◌*◌, ◌%◌, ◌^◌, ◌≤◌, ◌<◌, Bool, true, false, ◌≡◌, ◌≢◌, ◌⊎◌, inl, inr, refl,
  sym, ap, subst, ◌∙◌, arith, update, update_self, update-ne, sub16, ==_iff, Bool-cases, ◌==◌,
  if◌then◌else◌,
}
use ena.Base.Bits.{pow2}
use ena.Base.Wrap.{lap_phase}
use ena.Device.Layout.{
  reg_acq_caps, reg_aenq_caps, reg_version, reg_controller_version, reg_caps, caps_depth,
}
use ena.Reset.{version_value, controller_version_value, caps_value}
use ena.Device.{
  get_reg, EnaState, EnaCq, EnaSq, min_mtu, max_mtu, max_cq, max_sq, llq_queue_bytes, msix_vectors,
}
use ena.Cq.Ring.{HasTaken}
use ena.Rss.{is_selection, rss_proto_num, rss_supported_fields}

-- A depth that `ena_valid_depth` accepts: 16, 32, …, 1024
pub record IsDepth (d : ℕ) : Type 0 where
  pub order : ℕ
  pub low : 4 ≤ order
  pub high : order ≤ 10
  pub depth_eq : d ≡ pow2 order

pub record IsValidCq (q : EnaCq) : Type 0 where
  pub depth_in : IsDepth q.depth
  pub entry_low : 8 ≤ q.entry_size
  pub entry_high : q.entry_size ≤ 32
  pub count : ℕ
  pub taken : HasTaken q count

-- A used submission queue, over the completion queues
pub record IsValidSq (cq : ℕ → EnaCq) (q : EnaSq) : Type 0 where
  pub cq_in : q.cq_idx < max_cq
  pub cq_used : (cq q.cq_idx).used ≡ true
  pub depth_in : IsDepth q.depth
  pub fits : q.depth ≤ (cq q.cq_idx).depth
  pub head_in : q.head < 2 ^ 16
  pub tail_in : q.tail < 2 ^ 16
  pub posted : sub16 q.tail q.head ≤ q.depth
  pub rx_entry : q.is_tx ≡ false → 16 ≤ (cq q.cq_idx).entry_size
  pub llq_tx : q.llq ≡ true → q.is_tx ≡ true
  pub llq_line : q.llq ≡ true → (q.entry_size ≡ 128) ⊎ (q.entry_size ≡ 256)
  pub llq_room : q.llq ≡ true → q.depth * q.entry_size ≤ llq_queue_bytes

-- What the invariant reads of a state
pub record Core : Type 0 where
  pub mtu : ℕ
  pub aq_head : ℕ
  pub llq_enabled : Bool
  pub llq_entry_size : ℕ
  pub sq : ℕ → EnaSq
  pub cq : ℕ → EnaCq
  pub vector : ℕ → ℕ
  pub version : ℕ
  pub controller_version : ℕ
  pub caps : ℕ
  pub acq_depth : ℕ
  pub acq_tail : ℕ
  pub acq_phase : Bool
  pub rss_fields : ℕ → ℕ
  pub aenq_depth : ℕ
  pub aenq_tail : ℕ
  pub aenq_phase : Bool

-- The depth of the admin completion queue, as ACQ_CAPS tells it
abbrev pub acq_depth_of : EnaState → ℕ
acq_depth_of s = u16 (bit_and (get_reg s reg_acq_caps) caps_depth)

-- The head of the admin queue and the depth of its completion queue
abbrev pub admin_queue : EnaState → ℕ × ℕ
admin_queue s = (s.aq_head, acq_depth_of s)

-- The depth of the event queue, as AENQ_CAPS tells it
abbrev pub aenq_depth_of : EnaState → ℕ
aenq_depth_of s = u16 (bit_and (get_reg s reg_aenq_caps) caps_depth)

unfoldable pub core : EnaState → Core
core s = record {
  mtu = s.mtu;
  aq_head = s.aq_head;
  llq_enabled = s.llq_enabled;
  llq_entry_size = s.llq_entry_size;
  sq = s.sq;
  cq = s.cq;
  vector = λ v. (s.irq v).vector;
  version = get_reg s reg_version;
  controller_version = get_reg s reg_controller_version;
  caps = get_reg s reg_caps;
  acq_depth = acq_depth_of s;
  acq_tail = s.acq_tail;
  acq_phase = s.acq_phase;
  rss_fields = s.rss.fields;
  aenq_depth = aenq_depth_of s;
  aenq_tail = s.aenq_tail;
  aenq_phase = s.aenq_phase;
}

-- The admin completion queue, or the event queue, of a depth that is a power of two, after `count`
-- entries
pub record IsAdminRing (depth tail : ℕ) (phase : Bool) : Type 0 where
  pub order : ℕ
  pub small : order ≤ 16
  pub depth_eq : depth ≡ pow2 order
  pub count : ℕ
  pub tail_eq : tail ≡ u16 count
  pub phase_eq : phase ≡ lap_phase depth count

-- The fields that protocol `i` may be hashed by: one of the three selections, and only supported ones
abbrev pub IsSelected : (i fields : ℕ) → Type 0
IsSelected i fields = (is_selection fields ≡ true) × (fields ≤ rss_supported_fields i)

pub record IsValidCore (c : Core) : Type 0 where
  pub mtu_low : min_mtu ≤ c.mtu
  pub mtu_high : c.mtu ≤ max_mtu
  pub aq_head_in : c.aq_head < 2 ^ 16
  pub llq_size : c.llq_enabled ≡ true → (c.llq_entry_size ≡ 128) ⊎ (c.llq_entry_size ≡ 256)
  pub cqs : (i : ℕ) → (c.cq i).used ≡ true → IsValidCq (c.cq i)
  pub sqs : (i : ℕ) → (c.sq i).used ≡ true → IsValidSq c.cq (c.sq i)
  pub sq_in : (i : ℕ) → (c.sq i).used ≡ true → i < max_sq
  pub vectors : (v : ℕ) → v < msix_vectors → c.vector v ≡ v
  pub version_eq : c.version ≡ version_value
  pub controller_version_eq : c.controller_version ≡ controller_version_value
  pub caps_eq : c.caps ≡ caps_value
  pub acq : (c.acq_depth ≡ 0) ⊎ IsAdminRing c.acq_depth c.acq_tail c.acq_phase
  pub selected : (i : ℕ) → i < rss_proto_num → IsSelected i (c.rss_fields i)
  pub aenq : (c.aenq_depth ≡ 0) ⊎ IsAdminRing c.aenq_depth c.aenq_tail c.aenq_phase

abbrev pub IsValid : EnaState → Type 0
IsValid s = IsValidCore (core s)

-- What a submission queue needs of a completion queue is kept.
abbrev pub Keeps : EnaCq → EnaCq → Type 0
Keeps q q' = (q'.used ≡ q.used) × (q'.depth ≡ q.depth) × (q'.entry_size ≡ q.entry_size)

pub IsValidSq-Keeps :
    (cq cq' : ℕ → EnaCq) (q : EnaSq)
    → Keeps (cq q.cq_idx) (cq' q.cq_idx)
    → IsValidSq cq q
    → IsValidSq cq' q
IsValidSq-Keeps cq cq' q k v = record {
  cq_in = v.cq_in;
  cq_used = k.0 ∙ v.cq_used;
  depth_in = v.depth_in;
  fits = omega (arith, v.fits, k.1);
  head_in = v.head_in;
  tail_in = v.tail_in;
  posted = v.posted;
  rx_entry = λ e. omega (arith, v.rx_entry e, k.2);
  llq_tx = v.llq_tx;
  llq_line = v.llq_line;
  llq_room = v.llq_room;
}

-- A property of every place of an array, after one write
pub update-all {ℓ} :
    {A : Type ℓ} (P : A → Type 0) (f : ℕ → A) (i : ℕ) (v : A) (j : ℕ)
    → P v
    → P (f j)
    → P (update f i v j)
unfolding if◌then◌else◌
update-all P f i v j new old = elim (Bool-cases (i == j)) [ inl e ↦ rw e new | inr e ↦ rw e old ]

-- One submission queue is replaced by one that is valid if it is used.
pub set_sq-IsValid :
    (c : Core) (i : ℕ) (q : EnaSq)
    → (q.used ≡ true → IsValidSq c.cq q)
    → (q.used ≡ true → i < max_sq)
    → IsValidCore c
    → IsValidCore (record c { sq = update c.sq i q })
unfolding if◌then◌else◌
set_sq-IsValid c i q new inside v = record {
  mtu_low = v.mtu_low;
  mtu_high = v.mtu_high;
  aq_head_in = v.aq_head_in;
  llq_size = v.llq_size;
  cqs = v.cqs;
  sqs = λ j. update-all (λ p. p.used ≡ true → IsValidSq c.cq p) c.sq i q j new (v.sqs j);
  sq_in = λ j. elim (Bool-cases (i == j)) [
    | inl e ↦ rw e (subst (λ k. q.used ≡ true → k < max_sq) ((==_iff i j).0 e) inside)
    | inr e ↦ rw e (v.sq_in j)
  ];
  vectors = v.vectors;
  version_eq = v.version_eq;
  controller_version_eq = v.controller_version_eq;
  caps_eq = v.caps_eq;
  acq = v.acq;
  selected = v.selected;
  aenq = v.aenq;
}

pub Keeps-update :
    (cq : ℕ → EnaCq) (i : ℕ) (q : EnaCq) (k : ℕ)
    → (k ≡ i → Keeps (cq i) q)
    → Keeps (cq k) (update cq i q k)
unfolding if◌then◌else◌
Keeps-update cq i q k h = elim (Bool-cases (i == k)) [
  | inl e ↦ let p : i ≡ k = (==_iff i k).0 e in rw e (subst (λ t. Keeps (cq t) q) p (h (sym p)))
  | inr e ↦ rw e (refl, refl, refl)
]

-- One completion queue is replaced by a valid one, and no submission queue notices.
pub set_cq-IsValid :
    (c : Core) (i : ℕ) (q : EnaCq)
    → (q.used ≡ true → IsValidCq q)
    → ((j : ℕ) → (c.sq j).used ≡ true → (c.sq j).cq_idx ≡ i → Keeps (c.cq i) q)
    → IsValidCore c
    → IsValidCore (record c { cq = update c.cq i q })
set_cq-IsValid c i q new keep v = record {
  mtu_low = v.mtu_low;
  mtu_high = v.mtu_high;
  aq_head_in = v.aq_head_in;
  llq_size = v.llq_size;
  cqs = λ j. update-all (λ p. p.used ≡ true → IsValidCq p) c.cq i q j new (v.cqs j);
  sqs = λ j u.
      IsValidSq-Keeps c.cq (update c.cq i q) (c.sq j)
        (Keeps-update c.cq i q (c.sq j).cq_idx (keep j u)) (v.sqs j u);
  sq_in = v.sq_in;
  vectors = v.vectors;
  version_eq = v.version_eq;
  controller_version_eq = v.controller_version_eq;
  caps_eq = v.caps_eq;
  acq = v.acq;
  selected = v.selected;
  aenq = v.aenq;
}
