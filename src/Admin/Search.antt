-- ===== src/Admin/Search.antt =====
-- What the searches of hw/ena_admin.c for a free queue, and its loops of tests, find.
use ena.Base.{
  ==-ne, ℕ, zero, suc, ◌-◌, ◌≤◌, ◌<◌, Bool, true, false, ◌≡◌, ◌≢◌, inl, inr, refl, sym, subst,
  arith, ◌==◌, ==_iff, if_both, Bool-cases,
}
use ena.Admin.{first_free, all_below}

-- One of the 16 places is free.
abbrev pub HasFree : (ℕ → Bool) → Type 0
HasFree used = (j : ℕ) × (j < 16) × (used j ≡ false)

-- `i` is the first place from `from` on that is not used, or 16.
pub record IsFirstFree (used : ℕ → Bool) (from i : ℕ) : Type 0 where
  pub bound : i ≤ 16
  pub free : i ≢ 16 → used i ≡ false
  pub below : (j : ℕ) → from ≤ j → j < i → used j ≡ true

after : {j n : ℕ} → j == 16 - suc n ≡ false → 16 - suc n ≤ j → suc n ≤ 16 → 16 - n ≤ j
after f a le = ground arith

pub first_free-IsFirstFree :
    (used : ℕ → Bool) (n : ℕ) → n ≤ 16 → IsFirstFree used (16 - n) (first_free used n)
unfolding first_free
first_free-IsFirstFree used zero le = record {
  bound = omega arith;
  free = λ ne. absurd (ne refl);
  below = λ j a b. absurd (omega (arith, a, b));
}
first_free-IsFirstFree used (suc n) le =
    if_both (IsFirstFree used (16 - suc n)) _
      (λ e.
        let r = first_free-IsFirstFree used n (omega (arith, le)) in
        record {
          bound = r.bound;
          free = r.free;
          below = λ j a b. elim (Bool-cases (j == 16 - suc n)) [
            | inl f ↦ subst (λ k. used k ≡ true) (sym ((==_iff _ _).0 f)) e
            | inr f ↦ r.below j (after f a le) b
          ];
        })
      (λ e. record {
        bound = omega (arith, le);
        free = λ _. e;
        below = λ j a b. absurd (omega (arith, a, b));
      })

pub all_below-true : (n : ℕ) (p : ℕ → Bool) → all_below n p ≡ true → (j : ℕ) → j < n → p j ≡ true
unfolding all_below
all_below-true zero p h j lt = absurd (omega (arith, lt))
all_below-true (suc n) p h j lt = elim (Bool-cases (j == n)) [
  | inl e ↦ subst (λ k. p k ≡ true) (sym ((==_iff _ _).0 e)) (ground (arith, h))
  | inr e ↦ all_below-true n p (ground (arith, h)) j (ground (arith, lt, e))
]

pub all_below-false :
    (n : ℕ) (p : ℕ → Bool) → all_below n p ≡ false → (j : ℕ) × (j < n) × (p j ≡ false)
unfolding all_below
all_below-false zero p h = cc
all_below-false (suc n) p h = elim (Bool-cases (p n)) [
  | inl e ↦ let (j, lt, f) = all_below-false n p (ground (arith, h, e)) in (j, omega (arith, lt), f)
  | inr e ↦ (n, omega arith, e)
]

pub none_free : (used : ℕ → Bool) → (first_free used 16 == 16) ≡ true → ¬ HasFree used
none_free used e (j, lt, f) =
    let r = first_free-IsFirstFree used 16 (omega arith) in
    let u = r.below j (omega arith) (omega (arith, lt, (==_iff _ _).0 e)) in cc

pub some_free : (used : ℕ → Bool) → (first_free used 16 == 16) ≡ false → HasFree used
some_free used e =
    let r = first_free-IsFirstFree used 16 (omega arith) in
    (_, omega (arith, ==-ne e, r.bound), r.free (==-ne e))
