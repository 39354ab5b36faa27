-- ===== src/Rx/Taken.antt =====
-- The queue that a frame goes to and the descriptors that it takes there, in hw/ena_rx.c, over
-- well-formed devices.
use ena.Base.{
  Bool, false, not, ℕ, zero, suc, ◌+◌, ◌≤◌, true, false, List, [], ◌∷◌, Option, none, some, ◌≡◌,
  refl, ap, arith, if_both, length,
}
use ena.Host.{Host}
use ena.Device.{EnaState, max_pkt_descs}
use ena.Invariant.{core, IsValid}
use ena.Tx.Moved.{replaced-Moved}
use ena.Tx.Parse.{OnSome}
use ena.Rx.{RxDesc, is_rx, first_rx_sq, rx_sq}
use ena.Rx.Receive.{consume}
use ena.Rx.Collect.{both_true, avail, Collected}

first_rx_sq-is_rx : (s : EnaState) (n : ℕ) → OnSome (λ i. is_rx s i ≡ true) (first_rx_sq s n)
unfolding first_rx_sq
first_rx_sq-is_rx s zero = tt
first_rx_sq-is_rx s (suc n) =
    if_both (OnSome (λ i. is_rx s i ≡ true)) _ (λ e. e) (λ _. first_rx_sq-is_rx s n)

-- `ena_rx_sq` chooses a used RX queue.
pub rx_sq-is_rx : (s : EnaState) (hash : ℕ) → OnSome (λ i. is_rx s i ≡ true) (rx_sq s hash)
unfolding rx_sq
rx_sq-is_rx s hash =
    if_both (OnSome (λ i. is_rx s i ≡ true)) _ (λ e. (both_true e).1) (λ _. first_rx_sq-is_rx s _)

pub consume-IsValid :
    (s : EnaState) (i k : ℕ)
    → IsValid s
    → (s.sq i).used ≡ true
    → k ≤ avail s i
    → IsValid (consume s i k)
unfolding core
consume-IsValid s i k v u le = (replaced-Moved (core s) i k _ v u le (s.sq i).tx_meta refl).valid

pub Collected-avail :
    (host : Host) (s : EnaState) (i len n cap : ℕ) (ds : List RxDesc)
    → n ≤ avail s i
    → Collected host s i len n cap ds
    → n + length ds ≤ avail s i
unfolding Collected
Collected-avail host s i len n cap [] le c = omega (arith, le)
Collected-avail host s i len n cap (d ∷ ds) le c =
    omega (arith, c.1, Collected-avail host s i len (n + 1) _ ds (omega (arith, c.1)) c.5)

-- What cannot be found is not there.
pub unfound :
    (host : Host) (s t : EnaState) (i len : ℕ)
    → ((ds : List RxDesc)
        → length ds ≤ max_pkt_descs
        → Collected host s i len 0 0 ds
        → ◌≡◌ {A = EnaState × Option (List RxDesc)} (t, none) (s, some ds))
    → (ds : List RxDesc) → length ds ≤ max_pkt_descs
    → ¬ Collected host s i len 0 0 ds
unfound host s t i len found ds few c =
    let gone : ◌≡◌ {A = Option (List RxDesc)} none (some ds) = ap (λ r. r.1) (found ds few c) in cc

pub false-ne-true : ¬ (false ≡ true)
false-ne-true e = cc

pub not_both : {b : Bool} → not b ≡ true → ¬ (b ≡ true)
not_both h e = ground (arith, h, e)
