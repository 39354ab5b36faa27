-- ===== src/Admin/Queues/Commands.antt =====
-- The replies of `ena_create_cq`, `ena_create_sq` and `ena_destroy_cq` of hw/ena_admin.c, on every
-- branch.
use ena.Admin.Search.{
  IsFirstFree, first_free-IsFirstFree, all_below-true, none_free, some_free, all_below-false,
}
use ena.Base.{
  not-false, not-true, ==-ne, ℕ, ◌≤◌, ◌<◌, Bool, true, false, not, ◌||◌, [], Outcome, ◌≡◌, ◌/◌, ◌^◌,
  ◌≢◌, ◌⊎◌, inl, inr, refl, arith, leb, ◌==◌, ==_iff, if_both, Total,
}
use ena.Host.{Host}
use ena.Device.{EnaState, max_cq, max_sq, set_sq, set_cq}
use ena.Invariant.{IsValid, IsValidCq, IsValidSq}
use ena.Admin.{
  has, bit_and, ok, unsupported, Reply, success, illegal_parameter, resource_busy, first_free,
}
use ena.Admin.Queues.{
  bad_sq_binding, bad_sq_kind, CreateCqCmd, CreateSqCmd, new_cq, new_sq, create_cq, create_cq_resp,
  destroy_cq, create_sq, create_sq_resp, is_bound, sq_llq,
}
use ena.Admin.Queues.Allowed.{
  SqAllowed, CqAllowed, bad_kind-not_allowed, bad_binding-not_allowed, no_room-not_allowed,
  tests-SqAllowed, tests-CqAllowed, bad_shape-not_allowed, bad_vector-not_allowed,
}
use ena.Admin.Queues.Effects.{PowersOnly, new_sq-IsValidSq, new_cq-IsValidCq}

-- A command that failed has no effect.
abbrev pub Refused : EnaState → Reply → Type 0
Refused s r = (r.1 ≢ success) × (r.0 ≡ s) × (r.2 ≡ [])

-- A valid submission queue stands at the first free index, which the reply tells.
abbrev pub SqCreated : EnaState → CreateSqCmd → Reply → Type 0
SqCreated s c r =
    (i : ℕ) × (i < max_sq)
    × IsFirstFree (λ j. (s.sq j).used) 0 i
    × IsValidSq s.cq (new_sq s c)
    × (r ≡ (set_sq s i (new_sq s c), success, create_sq_resp i (sq_llq c)))

abbrev pub CqCreated : EnaState → CreateCqCmd → Reply → Type 0
CqCreated s c r =
    (i : ℕ) × (i < max_cq)
    × IsFirstFree (λ j. (s.cq j).used) 0 i
    × IsValidCq (new_cq c)
    × (r ≡ (set_cq s i (new_cq c), success, create_cq_resp i c.cq_depth))

-- What CREATE_SQ and CREATE_CQ come to
abbrev pub SqAnswered : Host → EnaState → CreateSqCmd → Reply → Type 0
SqAnswered host s c r =
    (SqAllowed host s c × (c.sq_head_writeback ≡ 0) × SqCreated s c r)
    ⊎ ((¬ SqAllowed host s c) × Refused s r)

-- Or the command asks for a head writeback, and is a fine one in all that is tested before that.
abbrev pub SqStopped : Host → EnaState → CreateSqCmd → Outcome Reply → Type 0
SqStopped host s c o =
    (o ≡ unsupported)
    × (c.sq_head_writeback ≢ 0)
    × (bad_sq_kind s c ≡ false)
    × (bit_and c.sq_caps_2 0x70 / 2 ^ 4 ≡ 0)
    × (has c.sq_caps_3 1 ≡ true)
    × (bad_sq_binding host s c ≡ false)

abbrev pub CqAnswered : Host → EnaState → CreateCqCmd → Reply → Type 0
CqAnswered host s c r =
    (CqAllowed host s c × CqCreated s c r) ⊎ ((¬ CqAllowed host s c) × Refused s r)

free_below : (used : ℕ → Bool) → (first_free used 16 == 16) ≡ false → first_free used 16 < 16
free_below used f = omega (arith, ==-ne f, (first_free-IsFirstFree used 16 (omega arith)).bound)

module _ (host : Host) (powers : PowersOnly host) where
  -- CREATE_SQ on a well-formed device puts a valid queue at the first free index and tells that
  -- index, if the device can make the queue and no writeback of the head is asked for; it is
  -- refused, without effect, only if the device cannot make the queue; and it stops the process
  -- only if it asks for a writeback of the head, with nothing wrong in the kind, the flags and the
  -- completion queue.
  pub create_sq_lem :
      (s : EnaState) (c : CreateSqCmd)
      → IsValid s
      → Total (SqAnswered host s c) (create_sq host s c) ⊎ SqStopped host s c (create_sq host s c)
  unfolding create_sq
  create_sq_lem s c v =
      if_both R _ (λ e. answered (inr (bad_kind-not_allowed host s c e, (λ e. cc, refl, refl))))
        (λ kind.
          if_both R _
            (λ e. answered (inr (λ a. ground (arith, e, a.per_desc), (λ e. cc, refl, refl))))
            (λ desc.
              if_both R _
                (λ e. answered (inr (λ a. ground (arith, e, a.contiguous), (λ e. cc, refl, refl))))
                (λ contig.
                  if_both R _
                    (λ e.
                      answered (inr (bad_binding-not_allowed host s c e, (λ e. cc, refl, refl))))
                    (λ binding.
                      if_both R _
                        (λ w. inr (
                          refl,
                          ground (arith, w),
                          kind,
                          ground (arith, desc),
                          not-false contig,
                          binding,
                        ))
                        (λ w.
                          if_both R _
                            (λ e.
                              answered (inr (λ a. none_free used e a.place, (λ e. cc, refl, refl))))
                            (λ free.
                              if_both R _
                                (λ e.
                                  answered
                                    (inr (no_room-not_allowed host s c e, (λ e. cc, refl, refl))))
                                (λ room. answered (
                                  inl (
                                    tests-SqAllowed host s c kind desc contig binding
                                        (some_free used free) room,
                                    ground (arith, w),
                                    (
                                      _,
                                      free_below used free,
                                      first_free-IsFirstFree used 16 (omega arith),
                                      new_sq-IsValidSq host powers s c v kind binding room,
                                      refl,
                                    ),
                                  )))))))))
    where
      used : ℕ → Bool
      used j = (s.sq j).used

      R : Outcome Reply → Type 0
      R o = Total (SqAnswered host s c) o ⊎ SqStopped host s c o

      answered : {r : Reply} → SqAnswered host s c r → R (ok r)
      answered a = inl a

  -- CREATE_CQ puts a valid queue at the first free index and tells that index, if the device can make
  -- the queue, and else is refused, without effect.
  pub create_cq_lem :
      (s : EnaState) (c : CreateCqCmd) → Total (CqAnswered host s c) (create_cq host s c)
  unfolding create_cq
  create_cq_lem s c =
      if_both R _ (λ e. inr (bad_shape-not_allowed host s c e, (λ e. cc, refl, refl)))
        (λ fine.
          if_both R _ (λ e. inr (λ a. a.has_base ((==_iff _ _).0 e), (λ e. cc, refl, refl)))
            (λ base.
              if_both R _ (λ e. inr (bad_vector-not_allowed host s c e, (λ e. cc, refl, refl)))
                (λ vec.
                  if_both R _ (λ e. inr (λ a. none_free used e a.place, (λ e. cc, refl, refl)))
                    (λ free. inl (
                      tests-CqAllowed host s c fine base vec (some_free used free),
                      (
                        _,
                        free_below used free,
                        first_free-IsFirstFree used 16 (omega arith),
                        new_cq-IsValidCq host c powers fine,
                        refl,
                      ),
                    )))))
    where
      used : ℕ → Bool
      used j = (s.cq j).used

      R : Outcome Reply → Type 0
      R = Total (CqAnswered host s c)

-- What DESTROY_CQ comes to: the queue is freed and nothing reports to it, or there is no such queue,
-- or some used submission queue reports to it.
abbrev pub CqDestroyed : EnaState → ℕ → Reply → Type 0
CqDestroyed s idx r =
    ((r ≡ (set_cq s idx (record (s.cq idx) { used = false }), success, []))
      × ((j : ℕ) → j < max_sq → is_bound s idx j ≡ false))
    ⊎ (((r ≡ (s, illegal_parameter, [])) × ((max_cq ≤ idx) ⊎ ((s.cq idx).used ≡ false)))
        ⊎ ((r ≡ (s, resource_busy, [])) × ((j : ℕ) × (j < max_sq) × (is_bound s idx j ≡ true))))

-- DESTROY_CQ frees a used queue exactly if no used submission queue reports to it.
pub destroy_cq_lem : (s : EnaState) (idx : ℕ) → Total (CqDestroyed s idx) (destroy_cq s idx)
unfolding destroy_cq
destroy_cq_lem s idx =
    if_both (Total (CqDestroyed s idx)) _ (λ e. inr (inl (refl, missing e)))
      (λ _.
        if_both (Total (CqDestroyed s idx)) _
          (λ e.
            let (j, lt, b) = all_below-false max_sq _ (not-true e) in
            inr (inr (refl, (j, lt, not-false b))))
          (λ e. inl (refl, λ j lt. not-true (all_below-true max_sq _ (not-false e) j lt))))
  where
    missing :
        (leb max_cq idx || not (s.cq idx).used) ≡ true → (max_cq ≤ idx) ⊎ ((s.cq idx).used ≡ false)
    missing e = ground (arith, e)
