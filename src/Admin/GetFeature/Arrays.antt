-- ===== src/Admin/GetFeature/Arrays.antt =====
-- The elements of an array in the bytes of a control buffer (`ena_get_feature` and
-- `ena_fill_hash_ctrl` of hw/ena_admin.c).
use ena.Base.{
  le16_of, le32_of, ℕ, zero, suc, ◌+◌, ◌*◌, ◌<◌, List, ◌++◌, ◌≡◌, refl, sym, ap, ◌∙◌, arith, length,
  length-append, get_or, get_or-append_left, get_or-append_right, bytes16, bytes32, le16, le32, u16,
  u32,
}
use native.Mathlib.Decide.{dec_lt}
use native.Mathlib.Nat.{mul-le-mul_left}
use ena.Admin.GetFeature.{array_bytes}

module _ (f : ℕ → List ℕ) (w : ℕ) (fixed : (i : ℕ) → length (f i) ≡ w) where
  pub length-array_bytes : (n : ℕ) → length (array_bytes f n) ≡ n * w
  unfolding array_bytes
  length-array_bytes zero = omega arith
  length-array_bytes (suc n) =
      omega (arith, length-append (array_bytes f n) (f n), length-array_bytes n, fixed n)

  -- Byte `k` of element `i`
  pub get_or-array_bytes :
      (n i k : ℕ) → i < n → k < w → get_or (array_bytes f n) (i * w + k) 0 ≡ get_or (f i) k 0
  unfolding array_bytes
  get_or-array_bytes zero i k lt small = absurd (omega (arith, lt))
  get_or-array_bytes (suc n) i k lt small = elim (dec_lt i n) [
    | yes below ↦
        get_or-append_left (array_bytes f n) (f n) (i * w + k) 0
          (omega (arith, mul-le-mul_left {m = suc i} {n = n} w below, length-array_bytes n, small))
        ∙ get_or-array_bytes n i k below small
    | no ge ↦
        let last : i ≡ n = omega (arith, lt, ge) in
        ap (λ j. get_or (array_bytes f n ++ f n) j 0) (place last)
        ∙ get_or-append_right (array_bytes f n) (f n) k 0
        ∙ ap (λ j. get_or (f j) k 0) (sym last)
  ]
    where
      place : i ≡ n → i * w + k ≡ length (array_bytes f n) + k
      place e = omega (arith, ap (λ (j : ℕ). j * w) e, length-array_bytes n)

-- The words of an array, and its half words that are padded to words
pub le32-array_bytes :
    (v : ℕ → ℕ) (n i : ℕ) → i < n → le32 (array_bytes (λ j. bytes32 (v j)) n) (i * 4) ≡ u32 (v i)
le32-array_bytes v n i lt =
    le32_of _ (i * 4) (v i)
      (λ k small. get_or-array_bytes (λ j. bytes32 (v j)) 4 (λ j. refl) n i k lt small)

pub le16-array_bytes :
    (v pad : ℕ → ℕ) (n i : ℕ)
    → i < n
    → le16 (array_bytes (λ j. bytes16 (v j) ++ bytes16 (pad j)) n) (i * 4) ≡ u16 (v i)
le16-array_bytes v pad n i lt = le16_of _ (i * 4) (v i) (λ k small.
    get_or-array_bytes (λ j. bytes16 (v j) ++ bytes16 (pad j)) 4 (λ j. refl) n i k lt
      (omega (arith, small))
    ∙ get_or-append_left (bytes16 (v i)) (bytes16 (pad i)) k 0 small)
