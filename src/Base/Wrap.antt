-- ===== src/Base/Wrap.antt =====
-- A 16-bit ring counter against the unbounded count that it stands for.
use Prim.Native.Nat.{ℕ, zero, suc, ◌+◌, ◌-◌, ◌*◌, ◌/◌, ◌%◌, ◌^◌, ◌≤◌, ◌<◌, ◌∣◌}
use mathlib.Core.Path.{◌≡◌, ap, sym, subst}
use mathlib.Core.Logic.{◌⊎◌, inl, inr}
use mathlib.Core.Bool.{Bool, not}
use native.Mathlib.Nat.{dvd_refl, dvd-mul_left_of_dvd, div-add-mod, mod-lt, mul-le-mul_left}
use native.Mathlib.Decide.{dec_lt}
use native.Mathlib.Omega.{arith}
use ena.Base.Tests.{◌==◌, if◌then◌else◌}
use ena.Base.Bits.{pow2}

-- The phase bit that a ring of `d` slots has after `n` entries: it starts at 1 and flips each lap.
abbrev pub lap_phase : ℕ → ℕ → Bool
lap_phase d n = n / d % 2 == 0

quotient_le : (d p q r s : ℕ) → d * p + r ≡ d * q + s → s < d → p ≤ q
quotient_le d p q r s e h = elim (dec_lt q p) [
  | yes lt ↦ absurd (omega (arith, mul-le-mul_left {m = suc q} {n = p} d lt))
  | no ge ↦ omega arith
]

-- Quotient and remainder are the only ones.
quotient_unique : (d p q r s : ℕ) → d * p + r ≡ d * q + s → r < d → s < d → p ≡ q
quotient_unique d p q r s e hr hs =
    omega (arith, quotient_le d p q r s e hs, quotient_le d q p s r (sym e) hr)

-- One more either fills the lap or does not.
div_cases :
    (n d : ℕ)
    → 1 ≤ d
    → (((n + 1) / d ≡ n / d) × ((n + 1) % d ≡ n % d + 1))
      ⊎ (((n + 1) / d ≡ n / d + 1) × ((n + 1) % d ≡ 0))
div_cases n d h = elim (dec_lt (n % d + 1) d) [
  | yes lt ↦
      let e =
        quotient_unique d ((n + 1) / d) (n / d) ((n + 1) % d) (n % d + 1)
          (omega (arith, div-add-mod n d, div-add-mod (n + 1) d)) (mod-lt (n + 1) h) lt in
      inl (e, omega (arith, ap (λ (t : ℕ). d * t) e, div-add-mod n d, div-add-mod (n + 1) d))
  | no ge ↦
      let e =
        quotient_unique d ((n + 1) / d) (n / d + 1) ((n + 1) % d) 0
          (omega (arith, div-add-mod n d, div-add-mod (n + 1) d, mod-lt n {m = d} h))
          (mod-lt (n + 1) h) (omega arith) in
      inr (
        e,
        omega (
          arith,
          ap (λ (t : ℕ). d * t) e,
          div-add-mod n d,
          div-add-mod (n + 1) d,
          mod-lt n {m = d} h,
        ),
      )
]

pub div_step : (n d : ℕ) → 1 ≤ d → (n + 1) / d ≡ (if (n + 1) % d == 0 then n / d + 1 else n / d)
unfolding if◌then◌else◌
div_step n d h = elim (div_cases n d h) [
  | inl (same, more) ↦ rw (same, more) (ground arith)
  | inr (up, none_left) ↦ rw (up, none_left)
]

pub lap_phase_step :
    (d n : ℕ)
    → 1 ≤ d
    → lap_phase d (n + 1) ≡ (if (n + 1) % d == 0 then not (lap_phase d n) else lap_phase d n)
unfolding if◌then◌else◌
lap_phase_step d n h = ground (arith, div_step n d h)

pow2-dvd : (j k n : ℕ) → n ≡ j + k → pow2 k ∣ pow2 n
pow2-dvd zero k n e = subst (λ t. pow2 k ∣ pow2 t) (omega arith) (dvd_refl (pow2 k))
pow2-dvd (suc j) k zero e = absurd (omega arith)
pow2-dvd (suc j) k (suc n) e = dvd-mul_left_of_dvd (pow2 k) (pow2-dvd j k n (omega arith)) 2

pub pow2_le16-dvd : (k : ℕ) → k ≤ 16 → pow2 k ∣ 2 ^ 16
pow2_le16-dvd k h = pow2-dvd (16 - k) k 16 (omega arith)
