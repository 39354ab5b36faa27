-- ===== src/Base/Bits.antt =====
-- Laws of `bit_and` at variables: a mask of `k` ones is the remainder by `2 ^ k`.
use Prim.Native.Nat.{
  ℕ, zero, suc, ◌+◌, ◌-◌, ◌*◌, ◌/◌, ◌%◌, ◌^◌, ◌≤◌, ◌<◌, min, bit_and, digits, bit_and-bitwise,
}
use mathlib.Core.Path.{◌≡◌, refl, sym, subst, ap, ◌∙◌}
use native.Mathlib.Nat.{pow-suc, mul-add-mod_self_left, mod-eq_of_lt, mod-lt, div-add-mod}
use native.Mathlib.Decide.{dec_lt}
use native.Mathlib.Omega.{arith}

-- The digits of `x & y`, at most `n` of them, by the definition that the native operation stands for
abbrev fuelled : ℕ → ℕ → ℕ → ℕ
fuelled n x y = digits (λ b. zero) min n x y

fuelled_at_zero : (n y : ℕ) → fuelled n 0 y ≡ 0
fuelled_at_zero zero y = refl
fuelled_at_zero (suc n) y = refl

-- A number has no more digits than its value.
one_more : (n x y : ℕ) → x ≤ n → fuelled (suc n) x y ≡ fuelled n x y
one_more n zero y h = fuelled_at_zero (suc n) y ∙ sym (fuelled_at_zero n y)
one_more zero (suc x) y h = absurd (omega (arith, h))
one_more (suc n) (suc x) y h = omega (arith, one_more n (suc x / 2) (y / 2) (omega (arith, h)))

settled : (n x y : ℕ) → x ≤ n → fuelled n x y ≡ bit_and x y
settled zero x y h =
    subst (λ t. fuelled zero t y ≡ bit_and t y) (let e : 0 ≡ x = omega (arith, h) in e)
      (sym (bit_and-bitwise 0 y))
settled (suc n) x y h = elim (dec_lt n x) [
  | yes lt ↦
      subst (λ t. fuelled (suc n) t y ≡ bit_and t y) (let e : suc n ≡ x = omega (arith, h, lt) in e)
        (sym (bit_and-bitwise (suc n) y))
  | no ge ↦ one_more n x y (omega arith) ∙ settled n x y (omega arith)
]

-- The lowest digit, and the digits above it
pub and_halves : (x y : ℕ) → bit_and x y ≡ bit_and (x / 2) (y / 2) * 2 + min (x % 2) (y % 2)
and_halves x y =
    omega
      (arith, settled (suc x) x y (omega arith), halves x, settled x (x / 2) (y / 2) (omega arith))
  where
    halves : (x : ℕ) → fuelled (suc x) x y ≡ fuelled x (x / 2) (y / 2) * 2 + min (x % 2) (y % 2)
    halves zero = omega (arith, fuelled_at_zero 0 (y / 2))
    halves (suc x) = omega arith

fuelled_none : (n x : ℕ) → fuelled n x 0 ≡ 0
fuelled_none zero x = refl
fuelled_none (suc n) zero = refl
fuelled_none (suc n) (suc x) = omega (arith, fuelled_none n (suc x / 2))

-- Nothing is left under an empty mask.
pub bit_and-zero : (a : ℕ) → bit_and a 0 ≡ 0
bit_and-zero a = bit_and-bitwise a 0 ∙ fuelled_none a a

bit_and-le_fuel : (n a m : ℕ) → m ≤ n → bit_and a m ≤ m
bit_and-le_fuel n a zero h = omega (arith, bit_and-zero a)
bit_and-le_fuel zero a (suc m) h = absurd (omega arith)
bit_and-le_fuel (suc n) a (suc m) h =
    omega (arith, and_halves a (suc m), bit_and-le_fuel n (a / 2) (suc m / 2) (omega arith))

pub bit_and-le : (a m : ℕ) → bit_and a m ≤ m
bit_and-le a m = bit_and-le_fuel m a m (omega arith)

-- `x & (d - 1)` for a power of two `d` is `x % d`; the power is named by its recursion.
abbrev pub pow2 : ℕ → ℕ
pow2 zero = 1
pow2 (suc k) = 2 * pow2 k

pub pow2-pos : (k : ℕ) → 1 ≤ pow2 k
pow2-pos zero = omega arith
pow2-pos (suc k) = omega (arith, pow2-pos k)

pub pow2-le : (j k : ℕ) → j ≤ k → pow2 j ≤ pow2 k
pow2-le zero k h = pow2-pos k
pow2-le (suc j) zero h = absurd (omega (arith, h))
pow2-le (suc j) (suc k) h = omega (arith, pow2-le j k (omega (arith, h)))

pub pow2-eq : (k : ℕ) → 2 ^ k ≡ pow2 k
pow2-eq zero = refl
pow2-eq (suc k) = omega (arith, pow-suc 2 k, pow2-eq k)

mod_double : (x n : ℕ) → 1 ≤ n → x % (2 * n) ≡ x / 2 % n * 2 + x % 2
mod_double x n h =
    ap (λ t. t % (2 * n)) whole
    ∙ mul-add-mod_self_left (2 * n) (x / 2 / n) (x / 2 % n * 2 + x % 2)
    ∙ mod-eq_of_lt small
  where
    whole : x ≡ 2 * n * (x / 2 / n) + (x / 2 % n * 2 + x % 2)
    whole = omega (arith, div-add-mod (x / 2) n)

    small : x / 2 % n * 2 + x % 2 < 2 * n
    small = omega (arith, mod-lt (x / 2) {m = n} h)

-- A mask of `k` ones keeps the remainder by `2 ^ k`.
pub bit_and_mask : (k x : ℕ) → bit_and x (pow2 k - 1) ≡ x % pow2 k
bit_and_mask zero x = omega (arith, bit_and-zero x)
bit_and_mask (suc k) x =
    and_halves x (2 * pow2 k - 1)
    ∙ ap (λ m. bit_and (x / 2) m * 2 + min (x % 2) ((2 * pow2 k - 1) % 2)) half
    ∙ omega (arith, bit_and_mask k (x / 2), mod_double x (pow2 k) (pow2-pos k), pow2-pos k)
  where
    half : (2 * pow2 k - 1) / 2 ≡ pow2 k - 1
    half = omega (arith, pow2-pos k)
