-- ===== src/Rx/Collect.antt =====
-- What `ena_rx_collect` of hw/ena_rx.c returns.
use ena.Base.{
  ==_iff, ◌&&◌, ◌⊎◌, inl, inr, ℕ, zero, suc, ◌+◌, ◌≤◌, ◌<◌, Bool, true, false, List, [], ◌∷◌,
  Option, none, some, ◌≡◌, refl, sym, arith, ltb, ◌==◌, sub16, if◌then◌else◌, if_both, length,
}
use ena.Host.{Host}
use ena.Device.{EnaState, max_pkt_descs}
use ena.Rx.{RxDesc, rx_desc, rx_desc_size, rx_desc_valid}
use ena.Rx.Receive.{rx_slot, rx_collect_from, rx_collect, cons_collected, consume}

pub both_true : {a b : Bool} → (a && b) ≡ true → (a ≡ true) × (b ≡ true)
both_true h = ground (arith, h)

le-ltb : {a b : ℕ} → b ≤ a → ltb a b ≡ false
le-ltb h = ground arith

lt-ltb : {a b : ℕ} → a < b → ltb a b ≡ true
lt-ltb h = ground arith

lt-== : {a b : ℕ} → a < b → a == b ≡ false
lt-== h = ground arith

-- The posted entries of the queue
abbrev pub avail : EnaState → ℕ → ℕ
avail s i = sub16 (s.sq i).tail (s.sq i).head

-- The descriptors from number `n` past the head on that a frame of `len` bytes needs when `cap`
-- bytes are there: each is posted, readable and valid, and the room ends in the last one.
unfoldable pub Collected : Host → EnaState → (i len n cap : ℕ) → List RxDesc → Type 0
Collected host s i len n cap [] = len ≤ cap
Collected host s i len n cap (d ∷ ds) =
    (cap < len)
    × (n < avail s i)
    × ((rx_slot host s i n).0 ≡ true)
    × (d ≡ rx_desc (rx_slot host s i n).1)
    × (rx_desc_valid (s.sq i) d ≡ true)
    × Collected host s i len (n + 1) (cap + rx_desc_size d) ds

-- The descriptors `ds` from number `n` past the head on, each posted, readable and valid, whose
-- room is not enough for a frame of `len` bytes when `cap` bytes are there
unfoldable pub Short : Host → EnaState → (i len n cap : ℕ) → List RxDesc → Type 0
Short host s i len n cap [] = cap < len
Short host s i len n cap (d ∷ ds) =
    (cap < len)
    × (n < avail s i)
    × ((rx_slot host s i n).0 ≡ true)
    × (d ≡ rx_desc (rx_slot host s i n).1)
    × (rx_desc_valid (s.sq i) d ≡ true)
    × Short host s i len (n + 1) (cap + rx_desc_size d) ds

-- After the good descriptors up to number `k` past the head, with `left` more allowed: either no
-- entry is posted any more or none is allowed, and nothing is consumed; or the next one, number
-- `k`, is posted but unreadable or invalid, and is consumed with those before it.
abbrev pub GaveUp : Host → EnaState → (i k left : ℕ) → EnaState → Type 0
GaveUp host s i k left t =
    ((t ≡ s) × ((k ≡ avail s i) ⊎ (left ≡ 0)))
    ⊎ ((k < avail s i)
        × (((rx_slot host s i k).0 && rx_desc_valid (s.sq i) (rx_desc (rx_slot host s i k).1))
            ≡ false)
        × (t ≡ consume s i (k + 1)))

-- What `ena_rx_collect` may come to
unfoldable pub CollectResult :
    Host → EnaState → (i len n cap room : ℕ) → EnaState × Option (List RxDesc) → Type 0
CollectResult host s i len n cap room (t, none) =
    (ds : List RxDesc) × (k : ℕ) × (left : ℕ) × Short host s i len n cap ds
    × (k ≡ n + length ds)
    × (room ≡ length ds + left)
    × GaveUp host s i k left t
CollectResult host s i len n cap room (t, some ds) =
    (t ≡ s) × (length ds ≤ room) × Collected host s i len n cap ds

module _ (host : Host) where
  cons_collected-Result :
      (s : EnaState) (i len n cap room : ℕ) (d : RxDesc) (r : EnaState × Option (List RxDesc))
      → ((ds : List RxDesc)
          → Collected host s i len (n + 1) (cap + rx_desc_size d) ds
          → Collected host s i len n cap (d ∷ ds))
      → ((ds : List RxDesc)
          → Short host s i len (n + 1) (cap + rx_desc_size d) ds
          → Short host s i len n cap (d ∷ ds))
      → CollectResult host s i len (n + 1) (cap + rx_desc_size d) room r
      → CollectResult host s i len n cap (suc room) (cons_collected d r)
  unfolding CollectResult
  cons_collected-Result s i len n cap room d (t, none) more short c =
      let (ds, k, left, h, e, f, g) = c in
      (d ∷ ds, k, left, short ds h, omega (arith, e), omega (arith, f), g)
  cons_collected-Result s i len n cap room d (t, some ds) more short c =
      (c.0, omega (arith, c.1), more ds c.2)

  rx_collect_from-Result :
      (room n cap : ℕ) (s : EnaState) (i len : ℕ)
      → n ≤ avail s i
      → CollectResult host s i len n cap room (rx_collect_from host room n cap s i len)
  unfolding rx_collect_from CollectResult Collected Short
  rx_collect_from-Result zero n cap s i len le =
      if_both (CollectResult host s i len n cap zero) _
        (λ e. ([], n, 0, ground (arith, e), omega arith, refl, inl (refl, inr refl)))
        (λ e. (refl, omega arith, ground (arith, e)))
  rx_collect_from-Result (suc room) n cap s i len le =
      if_both Result _ (λ e. (refl, omega arith, ground (arith, e)))
        (λ e.
          if_both Result _
            (λ f. (
              [],
              n,
              suc room,
              ground (arith, e),
              omega arith,
              omega arith,
              inl (refl, inl ((==_iff _ _).0 f)),
            ))
            (λ f.
              if_both Result _
                (λ g.
                  cons_collected-Result s i len n cap room _ _
                    (λ ds c. (
                      ground (arith, e),
                      ground (arith, le, f),
                      (both_true g).0,
                      refl,
                      (both_true g).1,
                      c,
                    ))
                    (λ ds c. (
                      ground (arith, e),
                      ground (arith, le, f),
                      (both_true g).0,
                      refl,
                      (both_true g).1,
                      c,
                    ))
                    (rx_collect_from-Result room (n + 1) _ s i len (ground (arith, le, f))))
                (λ g. (
                  [],
                  n,
                  suc room,
                  ground (arith, e),
                  omega arith,
                  omega arith,
                  inr (ground (arith, le, f), g, refl),
                ))))
    where
      Result : EnaState × Option (List RxDesc) → Type 0
      Result = CollectResult host s i len n cap (suc room)

  -- The collected descriptors are found: enough of them in the room left is what the loop returns.
  rx_collect_from_complete :
      (room n cap : ℕ) (s : EnaState) (i len : ℕ) (ds : List RxDesc)
      → length ds ≤ room
      → Collected host s i len n cap ds
      → rx_collect_from host room n cap s i len ≡ (s, some ds)
  unfolding rx_collect_from Collected if◌then◌else◌
  rx_collect_from_complete zero n cap s i len [] le c = rw (le-ltb c)
  rx_collect_from_complete zero n cap s i len (d ∷ ds) le c = absurd (omega (arith, le))
  rx_collect_from_complete (suc room) n cap s i len [] le c = rw (le-ltb c)
  rx_collect_from_complete (suc room) n cap s i len (d ∷ ds) le c =
      let (lt, more, posted, got, fine, rest) = c in
      rw (
        lt-ltb lt,
        lt-== more,
        sym got,
        posted,
        fine,
        rx_collect_from_complete room (n + 1) (cap + rx_desc_size d) s i len ds (omega (arith, le))
            rest,
      )

  pub rx_collect_lem :
      (s : EnaState) (i len : ℕ)
      → CollectResult host s i len 0 0 max_pkt_descs (rx_collect host s i len)
        × ((ds : List RxDesc)
            → length ds ≤ max_pkt_descs
            → Collected host s i len 0 0 ds
            → rx_collect host s i len ≡ (s, some ds))
  unfolding rx_collect
  rx_collect_lem s i len = (
    rx_collect_from-Result max_pkt_descs 0 0 s i len (omega arith),
    rx_collect_from_complete max_pkt_descs 0 0 s i len,
  )
