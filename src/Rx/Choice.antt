-- ===== src/Rx/Choice.antt =====
-- Which queue takes a frame (`ena_rx_sq` of hw/ena_rx.c), and when the network is held back
-- (`ena_rx_can_receive`).
use ena.Base.{
  none, some, Option, refl, bit_and, some, ltb, if_both, bit_and, Option, ℕ, zero, suc, ◌-◌, ◌≤◌,
  ◌<◌, Bool, true, false, not, ◌&&◌, ◌||◌, ◌≡◌, ◌⊎◌, inl, inr, sym, subst, arith, ◌==◌, ==_iff,
  if◌then◌else◌, Bool-cases,
}
use ena.Device.{rss_ind_tbl_size, EnaState, max_sq}
use ena.Rx.{rx_sq, first_rx_sq, is_rx}
use ena.Rx.Receive.{can_receive_from, rx_can_receive}

after_first : {j n : ℕ} → j == 16 - suc n ≡ false → 16 - suc n ≤ j → suc n ≤ 16 → 16 - n ≤ j
after_first f a le = ground arith

-- A used RX queue is known, or is among the last `n`, and none of those has posted descriptors.
record Blocked (s : EnaState) (n : ℕ) (have_rx : Bool) : Type 0 where
  some_rx : (have_rx ≡ true) ⊎ ((i : ℕ) × (i < max_sq) × (is_rx s i ≡ true))
  all_empty : (i : ℕ) → 16 - n ≤ i → i < max_sq → is_rx s i ≡ true → (s.sq i).head ≡ (s.sq i).tail

can_receive_from-Blocked :
    (s : EnaState) (n : ℕ) (have_rx : Bool)
    → n ≤ 16
    → can_receive_from s n have_rx ≡ false
    → Blocked s n have_rx
unfolding can_receive_from if◌then◌else◌
can_receive_from-Blocked s zero have_rx le h = record {
  some_rx = inl (ground (arith, h));
  all_empty = λ i a b. absurd (omega (arith, a, b));
}
can_receive_from-Blocked s (suc n) have_rx le h =
    blocked (
      can_receive_from-Blocked s n (have_rx || is_rx s (16 - suc n)) (omega (arith, le))
        (split h).1)
  where
    k : ℕ
    k = 16 - suc n

    test : Bool
    test = is_rx s k && not ((s.sq k).head == (s.sq k).tail)

    split : {c b : Bool} → (if c then true else b) ≡ false → (c ≡ false) × (b ≡ false)
    split h = ground (arith, h)

    emptied : (a b : Bool) → (a && not b) ≡ false → a ≡ true → b ≡ true
    emptied a b e f = ground (arith, e, f)

    here : is_rx s k ≡ true → (s.sq k).head ≡ (s.sq k).tail
    here u = (==_iff _ _).0 (emptied (is_rx s k) ((s.sq k).head == (s.sq k).tail) (split h).0 u)

    known : {A : Type 0} (a b : Bool) → (a || b) ≡ true → (b ≡ true → A) → (a ≡ true) ⊎ A
    known a b e f = elim (Bool-cases a) [ inl g ↦ inl g | inr g ↦ inr (f (ground (arith, e, g))) ]

    blocked : Blocked s n (have_rx || is_rx s k) → Blocked s (suc n) have_rx
    blocked r = record {
      some_rx = elim r.some_rx [
        | inl e ↦ known have_rx (is_rx s k) e (λ f. (k, omega (arith, le), f))
        | inr e ↦ inr e
      ];
      all_empty = λ i a b u. elim (Bool-cases (i == k)) [
        | inl e ↦
            subst (λ j. is_rx s j ≡ true → (s.sq j).head ≡ (s.sq j).tail) (sym ((==_iff i k).0 e))
              here u
        | inr e ↦ r.all_empty i (after_first e a le) b u
      ];
    }

can_receive_from-true :
    (s : EnaState) (n : ℕ) (have_rx : Bool)
    → n ≤ 16
    → can_receive_from s n have_rx ≡ true
    → ((i : ℕ) × (i < max_sq) × (is_rx s i ≡ true) × ((s.sq i).head == (s.sq i).tail ≡ false))
      ⊎ ((have_rx ≡ false) × ((i : ℕ) → 16 - n ≤ i → i < max_sq → is_rx s i ≡ false))
unfolding can_receive_from if◌then◌else◌
can_receive_from-true s zero have_rx le h =
    inr (ground (arith, h), λ i a b. absurd (omega (arith, a, b)))
can_receive_from-true s (suc n) have_rx le h = elim (Bool-cases test) [
  | inl e ↦ inl (k, omega (arith, le), (parts _ _ e).0, (parts _ _ e).1)
  | inr e ↦
      elim (can_receive_from-true s n (have_rx || is_rx s k) (omega (arith, le)) (else_of h e)) [
        | inl w ↦ inl w
        | inr (none_yet, f) ↦ inr (
          (neither _ _ none_yet).0,
          λ i a b. elim (Bool-cases (i == k)) [
            | inl g ↦
                subst (λ j. is_rx s j ≡ false) (sym ((==_iff i k).0 g)) (neither _ _ none_yet).1
            | inr g ↦ f i (after_first g a le) b
          ],
        )
      ]
]
  where
    k : ℕ
    k = 16 - suc n

    test : Bool
    test = is_rx s k && not ((s.sq k).head == (s.sq k).tail)

    else_of : {c b : Bool} → (if c then true else b) ≡ true → c ≡ false → b ≡ true
    else_of h e = ground (arith, h, e)

    parts : (a b : Bool) → (a && not b) ≡ true → (a ≡ true) × (b ≡ false)
    parts a b e = ground (arith, e)

    neither : (a b : Bool) → (a || b) ≡ false → (a ≡ false) × (b ≡ false)
    neither a b e = ground (arith, e)

-- `ena_rx_can_receive` holds the network back exactly if there is a used RX queue and none has
-- posted descriptors: if it says no, that is so; if it says yes, some used RX queue has posted
-- descriptors, or there is no used RX queue.
pub rx_can_receive_lem :
    (s : EnaState)
    → (rx_can_receive s ≡ false
        → ((i : ℕ) × (i < max_sq) × (is_rx s i ≡ true))
          × ((i : ℕ) → i < max_sq → is_rx s i ≡ true → (s.sq i).head ≡ (s.sq i).tail))
      × (rx_can_receive s ≡ true
          → ((i : ℕ) × (i < max_sq) × (is_rx s i ≡ true) × ((s.sq i).head == (s.sq i).tail ≡ false))
            ⊎ ((i : ℕ) → i < max_sq → is_rx s i ≡ false))
unfolding rx_can_receive
rx_can_receive_lem s = (
  λ h.
      let b = can_receive_from-Blocked s 16 false (omega arith) h in
      (elim b.some_rx [ inl e ↦ cc | inr w ↦ w ], λ i lt. b.all_empty i (omega arith) lt),
  λ h. elim (can_receive_from-true s 16 false (omega arith) h) [
    | inl w ↦ inl w
    | inr (e, f) ↦ inr (λ i lt. f i (omega arith) lt)
  ],
)

-- The first used RX queue from `from` on, or `none` where there is none
abbrev pub FirstRx : EnaState → (from : ℕ) → Option ℕ → Type 0
FirstRx s from none = (i : ℕ) → from ≤ i → i < max_sq → is_rx s i ≡ false
FirstRx s from (some k) =
    (k < max_sq) × (is_rx s k ≡ true) × ((i : ℕ) → from ≤ i → i < k → is_rx s i ≡ false)

-- A queue before that is no used RX queue does not change the choice.
FirstRx-earlier :
    (s : EnaState) (n : ℕ) (o : Option ℕ)
    → suc n ≤ 16
    → is_rx s (16 - suc n) ≡ false
    → FirstRx s (16 - n) o
    → FirstRx s (16 - suc n) o
FirstRx-earlier s n none le e f = λ i a b. elim (Bool-cases (i == 16 - suc n)) [
  | inl g ↦ subst (λ j. is_rx s j ≡ false) (sym ((==_iff i (16 - suc n)).0 g)) e
  | inr g ↦ f i (after_first g a le) b
]
FirstRx-earlier s n (some k) le e f = (
  f.0,
  f.1,
  λ i a b. elim (Bool-cases (i == 16 - suc n)) [
    | inl g ↦ subst (λ j. is_rx s j ≡ false) (sym ((==_iff i (16 - suc n)).0 g)) e
    | inr g ↦ f.2 i (after_first g a le) b
  ],
)

first_rx_sq-FirstRx : (s : EnaState) (n : ℕ) → n ≤ 16 → FirstRx s (16 - n) (first_rx_sq s n)
unfolding first_rx_sq
first_rx_sq-FirstRx s zero le = λ i a b. absurd (omega (arith, a, b))
first_rx_sq-FirstRx s (suc n) le =
    if_both (FirstRx s (16 - suc n)) _
      (λ e. (omega (arith, le), e, λ i a b. absurd (omega (arith, a, b))))
      (λ e. FirstRx-earlier s n _ le e (first_rx_sq-FirstRx s n (omega (arith, le))))

-- The entry of the indirection table that a hash selects
abbrev pub table_entry : EnaState → ℕ → ℕ
table_entry s hash = s.rss.ind_tbl (bit_and hash (rss_ind_tbl_size - 1))

-- A frame goes to the queue that the indirection table names for its hash, if that is a used RX
-- queue; otherwise to the first used RX queue, and to none only if there is none.
pub rx_sq_lem :
    (s : EnaState) (hash : ℕ)
    → (ltb (table_entry s hash) max_sq && is_rx s (table_entry s hash) ≡ true
        → rx_sq s hash ≡ some (table_entry s hash))
      × (ltb (table_entry s hash) max_sq && is_rx s (table_entry s hash) ≡ false
          → FirstRx s 0 (rx_sq s hash))
unfolding rx_sq if◌then◌else◌
rx_sq_lem s hash = (λ e. rw e refl, λ e. rw e (first_rx_sq-FirstRx s 16 (omega arith)))
