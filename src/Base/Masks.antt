-- ===== src/Base/Masks.antt =====
-- Laws of `bit_and` with a mask that is built of others: shifted ones, and the two halves of a word.
use Prim.Native.Nat.{ℕ, zero, suc, ◌+◌, ◌-◌, ◌*◌, ◌/◌, ◌%◌, ◌<◌, min, bit_and}
use mathlib.Core.Path.{◌≡◌, refl, sym, ap, ◌∙◌}
use native.Mathlib.Nat.{div-div-eq-div-mul, mul_assoc}
use native.Mathlib.Omega.{arith}
use ena.Base.Bits.{and_halves, pow2, pow2-pos}

pub even_mask : (x n : ℕ) → bit_and x (2 * n) ≡ 2 * bit_and (x / 2) n
even_mask x n =
    and_halves x (2 * n)
    ∙ ap (λ k. bit_and (x / 2) k * 2 + min (x % 2) (2 * n % 2))
        (let e : 2 * n / 2 ≡ n = omega arith in e)
    ∙ omega arith

pub odd_mask : (x n : ℕ) → bit_and x (2 * n + 1) ≡ 2 * bit_and (x / 2) n + x % 2
odd_mask x n =
    and_halves x (2 * n + 1)
    ∙ ap (λ k. bit_and (x / 2) k * 2 + min (x % 2) ((2 * n + 1) % 2))
        (let e : (2 * n + 1) / 2 ≡ n = omega arith in e)
    ∙ omega arith

-- A mask that is shifted by `k`
pub shifted_mask : (k x n : ℕ) → bit_and x (pow2 k * n) ≡ pow2 k * bit_and (x / pow2 k) n
shifted_mask zero x n =
    ap (λ j. bit_and x j) (let e : 1 * n ≡ n = omega arith in e)
    ∙ ap (λ y. bit_and y n) (let e : x ≡ x / 1 = omega arith in e)
    ∙ omega arith
shifted_mask (suc k) x n =
    ap (λ j. bit_and x j) (mul_assoc 2 (pow2 k) n)
    ∙ even_mask x (pow2 k * n)
    ∙ ap (λ j. 2 * j) (shifted_mask k (x / 2) n)
    ∙ sym (mul_assoc 2 (pow2 k) (bit_and (x / 2 / pow2 k) n))
    ∙ ap (λ y. 2 * pow2 k * bit_and y n) (div-div-eq-div-mul x 2 (pow2 k))

-- A mask and the mask of the other bits below `pow2 k`
pub mask_split :
    (k x m : ℕ) → x < pow2 k → m < pow2 k → bit_and x m + bit_and x (pow2 k - 1 - m) ≡ x
mask_split zero x m hx hm =
    let ex : x ≡ 0 = omega (arith, hx) in let em : m ≡ 0 = omega (arith, hm) in rw (ex, em) refl
mask_split (suc k) x m hx hm = omega (
  arith,
  and_halves x m,
  and_halves x (2 * pow2 k - 1 - m)
      ∙ ap (λ j. bit_and (x / 2) j * 2 + min (x % 2) ((2 * pow2 k - 1 - m) % 2)) half,
  mask_split k (x / 2) (m / 2) (omega (arith, hx)) (omega (arith, hm)),
  hm,
)
  where
    half : (2 * pow2 k - 1 - m) / 2 ≡ pow2 k - 1 - m / 2
    half = omega (arith, hm, pow2-pos k)
