-- ===== src/Admin/Queues/Effects.antt =====
-- `ena_create_cq`, `ena_destroy_cq`, `ena_create_sq` and `ena_destroy_sq` of hw/ena_admin.c, over
-- well-formed devices.
use ena.Admin.Search.{first_free-IsFirstFree, all_below-true}
use ena.Base.{
  not-false, ==-ne, ◌/◌, ◌%◌, ℕ, ◌*◌, ◌≤◌, ◌<◌, Bool, true, false, not, ◌&&◌, ◌||◌, Outcome, ◌≡◌,
  refl, sym, ap, subst, arith, ltb, ◌==◌, ==_iff, if◌then◌else◌, if_both, Total, Ends,
}
use ena.Base.Wrap.{lap_phase}
use ena.Base.Bits.{pow2, pow2-le}
use native.Mathlib.Nat.{zero-div}
use ena.Host.{Host}
use native.Mathlib.Decide.{dec_lt}
use ena.Device.{EnaState, max_sq, llq_queue_bytes}
use ena.Invariant.{
  admin_queue, core, IsValid, IsValidCq, IsValidSq, IsDepth, set_cq-IsValid, set_sq-IsValid,
}
use ena.Admin.{Reply, valid_depth, first_free}
use ena.Admin.Queues.{
  CreateCqCmd, CreateSqCmd, new_cq, new_sq, create_cq, destroy_cq, create_sq, destroy_sq,
  bad_sq_kind, bad_sq_binding, cq_words, sq_llq,
}

-- `is_power_of_2` says so of powers of two only.
abbrev pub PowersOnly : Host → Type 0
PowersOnly host = (n : ℕ) → host.is_power_of_2 n ≡ true → (k : ℕ) × (n ≡ pow2 k)

-- The reply leaves a well-formed state, and the admin queues as they were.
abbrev pub Replied : EnaState → Reply → Type 0
Replied s r = IsValid r.0 × (admin_queue r.0 ≡ admin_queue s)

order_low : (k : ℕ) → 16 ≤ pow2 k → 4 ≤ k
order_low k h = elim (dec_lt k 4) [
  | yes lt ↦ absurd (omega (arith, h, pow2-le k 3 (omega (arith, lt))))
  | no ge ↦ omega arith
]

order_high : (k : ℕ) → pow2 k ≤ 1024 → k ≤ 10
order_high k h = elim (dec_lt 10 k) [
  | yes lt ↦ absurd (omega (arith, h, pow2-le 11 k (omega (arith, lt))))
  | no ge ↦ omega arith
]

pub valid_depth-IsDepth :
    (host : Host) → PowersOnly host → (d : ℕ) → valid_depth host d ≡ true → IsDepth d
unfolding valid_depth
valid_depth-IsDepth host powers d h =
    let p : host.is_power_of_2 d ≡ true = ground (arith, h) in
    let r = powers d p in
    let low : 16 ≤ d = ground (arith, h) in
    let high : d ≤ 1024 = ground (arith, h) in
    record {
      order = r.0;
      low = order_low r.0 (omega (arith, low, r.1));
      high = order_high r.0 (omega (arith, high, r.1));
      depth_eq = r.1;
    }

pub phase_zero : (d : ℕ) → true ≡ lap_phase d 0
phase_zero d = sym ((==_iff (0 / d % 2) 0).1 (ap (λ k. k % 2) (zero-div d)))

==_of : {a b : ℕ} → a ≡ b → (a == b) ≡ true
==_of h = (==_iff _ _).1 h

true-false : {b : Bool} → b ≡ true → b ≡ false → ⊥
true-false p q = cc

bound_busy : (a b : Bool) → a ≡ true → b ≡ true → not (a && b) ≡ true → ⊥
bound_busy a b p q h = ground (arith, p, q, h)

pub new_cq-IsValidCq :
    (host : Host) (c : CreateCqCmd)
    → PowersOnly host
    → (not (valid_depth host c.cq_depth)
        || (not (cq_words c == 2) && not (cq_words c == 4) && not (cq_words c == 8)))
      ≡ false
    → IsValidCq (new_cq c)
unfolding new_cq
new_cq-IsValidCq host c powers h = record {
  depth_in = d;
  entry_low = ground (arith, h);
  entry_high = ground (arith, h);
  count = 0;
  taken = record {
    order = d.order;
    small = omega (arith, d.high);
    depth_eq = d.depth_eq;
    tail_eq = refl;
    phase_eq = phase_zero c.cq_depth;
  };
}
  where
    d : IsDepth c.cq_depth
    d = valid_depth-IsDepth host powers c.cq_depth (ground (arith, h))

module _ (host : Host) (powers : PowersOnly host) where
  pub create_cq-Replied :
      (s : EnaState) (c : CreateCqCmd) → IsValid s → Total (Replied s) (create_cq host s c)
  unfolding create_cq core
  create_cq-Replied s c v =
      if_both (Total (Replied s)) _ (λ _. (v, refl))
        (λ e.
          if_both (Total (Replied s)) _ (λ _. (v, refl))
            (λ _.
              if_both (Total (Replied s)) _ (λ _. (v, refl))
                (λ _.
                  if_both (Total (Replied s)) _ (λ _. (v, refl))
                    (λ f. (
                      set_cq-IsValid (core s) _ (new_cq c) (λ _. new_cq-IsValidCq host c powers e)
                          (λ j u p. absurd (
                            true-false (subst (λ k. (s.cq k).used ≡ true) p (v.sqs j u).cq_used) (
                              (first_free-IsFirstFree (λ j. (s.cq j).used) 16 (omega arith)).free
                                (==-ne f))))
                          v,
                      refl,
                    )))))

pub destroy_cq-Replied : (s : EnaState) (idx : ℕ) → IsValid s → Total (Replied s) (destroy_cq s idx)
unfolding destroy_cq core
destroy_cq-Replied s idx v =
    if_both (Total (Replied s)) _ (λ _. (v, refl))
      (λ _.
        if_both (Total (Replied s)) _ (λ _. (v, refl))
          (λ e. (
            set_cq-IsValid (core s) idx _ (λ f. cc)
                (λ j u p. absurd (
                  bound_busy (s.sq j).used _ u (==_of p)
                    (all_below-true max_sq _ (not-false e) j (v.sq_in j u))))
                v,
            refl,
          )))

pub destroy_sq-Replied :
    (s : EnaState) (idx identity : ℕ) → IsValid s → Total (Replied s) (destroy_sq s idx identity)
unfolding destroy_sq core
destroy_sq-Replied s idx identity v =
    if_both (Total (Replied s)) _ (λ _. (v, refl))
      (λ _. (set_sq-IsValid (core s) idx _ (λ e. cc) (λ e. cc) v, refl))

module _ (host : Host) (powers : PowersOnly host) (s : EnaState) (c : CreateSqCmd) (v : IsValid s)
    (kind : bad_sq_kind s c ≡ false) (binding : bad_sq_binding host s c ≡ false)
    (room : (sq_llq c && ltb llq_queue_bytes (c.sq_depth * s.llq_entry_size)) ≡ false) where
  pub new_sq-IsValidSq : IsValidSq s.cq (new_sq s c)
  unfolding new_sq bad_sq_kind bad_sq_binding core if◌then◌else◌
  new_sq-IsValidSq = record {
    cq_in = ground (arith, binding);
    cq_used = ground (arith, binding);
    depth_in = valid_depth-IsDepth host powers c.sq_depth (ground (arith, binding));
    fits = ground (arith, binding);
    head_in = omega arith;
    tail_in = omega arith;
    posted = omega arith;
    rx_entry = λ e. ground (arith, binding, e);
    llq_tx = λ e. ground (arith, kind, e);
    llq_line = λ e. rw e (v.llq_size (ground (arith, kind, e)));
    llq_room = λ e. rw e (ground (arith, room, e));
  }

module _ (host : Host) (powers : PowersOnly host) where
  pub create_sq-Replied :
      (s : EnaState) (c : CreateSqCmd) → IsValid s → Ends (Replied s) (create_sq host s c)
  unfolding create_sq core
  create_sq-Replied s c v =
      if_both R _ (λ _. (v, refl))
        (λ kind.
          if_both R _ (λ _. (v, refl))
            (λ _.
              if_both R _ (λ _. (v, refl))
                (λ _.
                  if_both R _ (λ _. (v, refl))
                    (λ binding.
                      if_both R _ (λ _. tt)
                        (λ _.
                          if_both R _ (λ _. (v, refl))
                            (λ free.
                              if_both R _ (λ _. (v, refl))
                                (λ room. (
                                  set_sq-IsValid (core s) _ (new_sq s c)
                                      (λ _. new_sq-IsValidSq host powers s c v kind binding room)
                                      (λ _. inside free) v,
                                  refl,
                                ))))))))
    where
      R : Outcome Reply → Type 0
      R = Ends (Replied s)

      inside :
          (first_free (λ j. (s.sq j).used) max_sq == max_sq) ≡ false
          → first_free (λ j. (s.sq j).used) max_sq < max_sq
      inside f =
          omega
            (arith, ==-ne f, (first_free-IsFirstFree (λ j. (s.sq j).used) 16 (omega arith)).bound)
