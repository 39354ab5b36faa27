-- ===== src/Base/Tests.antt =====
-- Boolean tests on the native numbers, the conditional, fixed-size arrays as functions, and the
-- result of a handler that may stop the process.
use Prim.Native.Nat.{◌≤◌, ℕ, ◌+◌, ◌-◌, ◌%◌, ◌^◌, compare, Ordering, bit_and}
use mathlib.Core.Path.{◌≡◌, refl, sym, subst}
use mathlib.Core.Logic.{◌↔◌, ◌≢◌, ◌⊎◌, inl, inr}
use mathlib.Core.Bool.{Bool, true, false, not}
use native.Mathlib.Omega.{arith}

-- These compute to `compare`, which `ground` and `grind` read with no lemma listed.
abbrev pub ltb : ℕ → ℕ → Bool
ltb a b = elim (compare a b) [ Ordering.lt ↦ true | _ ↦ false ]

abbrev pub leb : ℕ → ℕ → Bool
leb a b = elim (compare a b) [ Ordering.gt ↦ false | _ ↦ true ]

infix 50 ◌==◌
abbrev pub ◌==◌ : ℕ → ℕ → Bool
a == b = elim (compare a b) [ Ordering.eq ↦ true | _ ↦ false ]

infix 1 if◌then◌else◌
unfoldable pub if◌then◌else◌ {ℓ} : {A : Type ℓ} → Bool → A → A → A
if true then x else y = x
if false then x else y = y

pub ==_iff : (a b : ℕ) → ((a == b) ≡ true) ↔ (a ≡ b)
==_iff a b = ground arith

-- To split on a computed value and keep the equation.
pub Bool-cases : (b : Bool) → (b ≡ true) ⊎ (b ≡ false)
Bool-cases true = inl refl
Bool-cases false = inr refl

-- `x & mask` as a C condition.
abbrev pub has : ℕ → ℕ → Bool
has x mask = not (bit_and x mask == 0)

-- The write `a[i] = v` on an array that is read as a function of its index.
abbrev pub update {ℓ} : {A : Type ℓ} → (ℕ → A) → ℕ → A → ℕ → A
update f i v j = if i == j then v else f j

pub update_self {ℓ} : {A : Type ℓ} (f : ℕ → A) (i : ℕ) (v : A) → update f i v i ≡ v
unfolding if◌then◌else◌
update_self f i v = rw ((==_iff i i).1 refl)

pub update-ne {ℓ} : {A : Type ℓ} (f : ℕ → A) (i : ℕ) (v : A) (j : ℕ) → j ≢ i → update f i v j ≡ f j
unfolding if◌then◌else◌
update-ne f i v j h = elim (Bool-cases (i == j)) [
  | inl e ↦ absurd (h (sym ((==_iff i j).0 e)))
  | inr e ↦ rw e
]

abbrev pub u16 : ℕ → ℕ
u16 x = x % 2 ^ 16

abbrev pub u32 : ℕ → ℕ
u32 x = x % 2 ^ 32

abbrev pub u64 : ℕ → ℕ
u64 x = x % 2 ^ 64

-- `(uint16_t)(a - b)` for a 16-bit `b`.
abbrev pub sub16 : ℕ → ℕ → ℕ
sub16 a b = (a + 2 ^ 16 - b) % 2 ^ 16

pub le-leb : {n m : ℕ} → n ≤ m → leb n m ≡ true
le-leb h = ground arith

-- What a handler comes to: a state, an `abort()` of `ena_unsupported`, a failed `assert`, or a loop
-- that has used up its fuel.
pub data Outcome {ℓ} (A : Type ℓ) : Type ℓ where
  ok : A → Outcome A
  unsupported : Outcome A
  assert_failed : Outcome A
  out_of_fuel : Outcome A

infixl 5 ◌>>=◌ ◌>>◌
abbrev pub ◌>>=◌ {ℓ κ} : {A : Type ℓ} {B : Type κ} → Outcome A → (A → Outcome B) → Outcome B
ok a >>= f = f a
unsupported >>= f = unsupported
assert_failed >>= f = assert_failed
out_of_fuel >>= f = out_of_fuel

abbrev pub ◌>>◌ {ℓ κ} : {A : Type ℓ} {B : Type κ} → Outcome A → Outcome B → Outcome B
m >> k = m >>= λ _. k

-- `assert(b)` before the rest of a function.
abbrev pub check : Bool → Outcome (Unit {0})
check true = ok tt
check false = assert_failed

-- The handler returns, and its result satisfies `P`.
abbrev pub Total {ℓ} : {A : Type ℓ} → (A → Type 0) → Outcome A → Type 0
Total P (ok a) = P a
Total P unsupported = ⊥
Total P assert_failed = ⊥
Total P out_of_fuel = ⊥

-- A handler that may stop the process, but not for want of fuel
abbrev pub Ends {ℓ} : {A : Type ℓ} → (A → Type 0) → Outcome A → Type 0
Ends P (ok a) = P a
Ends P unsupported = Unit {0}
Ends P assert_failed = Unit {0}
Ends P out_of_fuel = ⊥

-- If the handler returns, its result satisfies `P`.
abbrev pub Returns {ℓ} : {A : Type ℓ} → (A → Type 0) → Outcome A → Type 0
Returns P (ok a) = P a
Returns P unsupported = Unit {0}
Returns P assert_failed = Unit {0}
Returns P out_of_fuel = Unit {0}

module _ {ℓ κ} {A : Type ℓ} {B : Type κ} where
  pub Total-bind :
      (P : A → Type 0) (Q : B → Type 0) (m : Outcome A) (f : A → Outcome B)
      → Total P m
      → ((a : A) → P a → Total Q (f a))
      → Total Q (m >>= f)
  Total-bind P Q (ok a) f p h = h a p
  Total-bind P Q unsupported f p h = absurd p
  Total-bind P Q assert_failed f p h = absurd p
  Total-bind P Q out_of_fuel f p h = absurd p

  pub Ends-bind :
      (P : A → Type 0) (Q : B → Type 0) (m : Outcome A) (f : A → Outcome B)
      → Ends P m
      → ((a : A) → P a → Ends Q (f a))
      → Ends Q (m >>= f)
  Ends-bind P Q (ok a) f p h = h a p
  Ends-bind P Q unsupported f p h = tt
  Ends-bind P Q assert_failed f p h = tt
  Ends-bind P Q out_of_fuel f p h = absurd p

  -- The rest of a handler knows what the first part returned.
  pub Ends-bind-eq :
      (P : A → Type 0) (Q : B → Type 0) (m : Outcome A) (f : A → Outcome B)
      → Ends P m
      → ((a : A) → m ≡ ok a → P a → Ends Q (f a))
      → Ends Q (m >>= f)
  Ends-bind-eq P Q (ok a) f p h = h a refl p
  Ends-bind-eq P Q unsupported f p h = tt
  Ends-bind-eq P Q assert_failed f p h = tt
  Ends-bind-eq P Q out_of_fuel f p h = absurd p

  pub Returns-bind :
      (P : A → Type 0) (Q : B → Type 0) (m : Outcome A) (f : A → Outcome B)
      → Returns P m
      → ((a : A) → P a → Returns Q (f a))
      → Returns Q (m >>= f)
  Returns-bind P Q (ok a) f p h = h a p
  Returns-bind P Q unsupported f p h = tt
  Returns-bind P Q assert_failed f p h = tt
  Returns-bind P Q out_of_fuel f p h = tt

module _ {κ} {B : Type κ} (Q : B → Type 0) where
  pub check-Returns : (b : Bool) (k : Outcome B) → Returns Q k → Returns Q (check b >> k)
  check-Returns true k p = p
  check-Returns false k p = tt

  -- An assertion that holds is passed.
  pub check-Total : (b : Bool) (k : Outcome B) → b ≡ true → Total Q k → Total Q (check b >> k)
  check-Total true k e p = p
  check-Total false k e p = cc

  pub check-Ends : (b : Bool) (k : Outcome B) → (b ≡ true → Ends Q k) → Ends Q (check b >> k)
  check-Ends true k p = p refl
  check-Ends false k p = tt

module _ {ℓ} {A : Type ℓ} where
  pub Total-Ends : (P : A → Type 0) (m : Outcome A) → Total P m → Ends P m
  Total-Ends P (ok a) p = p
  Total-Ends P unsupported p = absurd p
  Total-Ends P assert_failed p = absurd p
  Total-Ends P out_of_fuel p = absurd p

  pub Total-ok : (P : A → Type 0) (m : Outcome A) → Total P m → (a : A) × (m ≡ ok a) × P a
  Total-ok P (ok a) p = (a, refl, p)
  Total-ok P unsupported p = absurd p
  Total-ok P assert_failed p = absurd p
  Total-ok P out_of_fuel p = absurd p

  pub Total-map : (P Q : A → Type 0) (m : Outcome A) → Total P m → ((a : A) → P a → Q a) → Total Q m
  Total-map P Q (ok a) p h = h a p
  Total-map P Q unsupported p h = p
  Total-map P Q assert_failed p h = p
  Total-map P Q out_of_fuel p h = p

  pub Total-both :
      (P Q : A → Type 0) (m : Outcome A) → Total P m → Total Q m → Total (λ a. P a × Q a) m
  Total-both P Q (ok a) p q = (p, q)
  Total-both P Q unsupported p q = p
  Total-both P Q assert_failed p q = p
  Total-both P Q out_of_fuel p q = p

  pub Returns-map :
      (P Q : A → Type 0) (m : Outcome A) → Returns P m → ((a : A) → P a → Q a) → Returns Q m
  Returns-map P Q (ok a) p h = h a p
  Returns-map P Q unsupported p h = tt
  Returns-map P Q assert_failed p h = tt
  Returns-map P Q out_of_fuel p h = tt

  -- What holds if a handler returns, of a handler that returns
  pub Total-Returns : (P Q : A → Type 0) (m : Outcome A) → Total P m → Returns Q m → Total Q m
  Total-Returns P Q (ok a) p q = q
  Total-Returns P Q unsupported p q = p
  Total-Returns P Q assert_failed p q = p
  Total-Returns P Q out_of_fuel p q = p

  pub Ends-map : (P Q : A → Type 0) (m : Outcome A) → Ends P m → ((a : A) → P a → Q a) → Ends Q m
  Ends-map P Q (ok a) p h = h a p
  Ends-map P Q unsupported p h = p
  Ends-map P Q assert_failed p h = p
  Ends-map P Q out_of_fuel p h = p

  pub Ends_of_ok : (P : A → Type 0) (m : Outcome A) (a : A) → Ends P m → m ≡ ok a → P a
  Ends_of_ok P m a p e = subst (Ends P) e p

  pub Ends-ne-out_of_fuel : (P : A → Type 0) (m : Outcome A) → Ends P m → m ≢ out_of_fuel
  Ends-ne-out_of_fuel P m p e = subst (Ends P) e p

  -- A split on a test that keeps the equation, in either predicate
  pub if_both :
      (P : A → Type 0) (b : Bool) {x y : A}
      → (b ≡ true → P x)
      → (b ≡ false → P y)
      → P (if b then x else y)
  unfolding if◌then◌else◌
  if_both P true p q = p refl
  if_both P false p q = q refl

pub not-false : {b : Bool} → not b ≡ false → b ≡ true
not-false {b = true} h = refl
not-false {b = false} h = sym h

pub not-true : {b : Bool} → not b ≡ true → b ≡ false
not-true {b = true} h = sym h
not-true {b = false} h = refl

pub ==-ne : {a b : ℕ} → (a == b) ≡ false → a ≢ b
==-ne {a} {b} h e = subst (λ c. c ≡ true → ⊥) (sym h) (λ f. cc) ((==_iff a b).1 e)
