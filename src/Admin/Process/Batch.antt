-- ===== src/Admin/Process/Batch.antt =====
-- One run of the loop of `ena_admin_process` of hw/ena_admin.c as the sequence of its commands.
use ena.Base.{
  ==-ne, inl, inr, Bool-cases, Ends-map, ℕ, zero, suc, ◌+◌, ◌*◌, ◌%◌, ◌^◌, ◌<◌, Bool, true, false,
  not, ◌||◌, ◌∷◌, List, ok, ◌≡◌, ◌≢◌, refl, ◌∙◌, subst, arith, u16, u64, sub16, bit_and, ◌==◌, has,
  if◌then◌else◌, if_both, Ends, Ends-bind, Ends-bind-eq,
}
use ena.Host.{Host, msix_notify}
use ena.Device.{EnaState, get_reg, admin_msix_vector}
use ena.Device.Layout.{
  reg_aq_base_hi, reg_aq_base_lo, reg_aq_caps, reg_acq_base_hi, reg_acq_base_lo, reg_acq_tail,
  reg_intr_mask, caps_depth,
}
use ena.Irq.{admin_intr}
use ena.Aenq.{reg_addr}
use ena.Invariant.{core, IsValid, acq_depth_of}
use ena.Admin.{Reply}
use ena.Admin.Process.{
  acq_entry, admin_exec, acq_post, acq_advance, admin_step, admin_drain, admin_finish,
  admin_process, entry_bytes,
}
use ena.Admin.Process.Completions.{Completion, AcqTaken, acq_post_lem}
use ena.Admin.Process.Loop.{is_ready, posted_tail}
use ena.Admin.Process.Errors.{Executed}
use ena.Admin.Process.Executed.{admin_exec-Executed}

-- The state that a command runs in: it is off the queue.
abbrev pub taken_off : EnaState → EnaState
taken_off s = record s { aq_head = u16 (s.aq_head + 1) }

module _ (host : Host) (aq_base acq_base aq_depth acq_depth : ℕ) where
  -- The command at the head of the admin queue
  abbrev pub command_at : EnaState → List ℕ
  command_at s =
      (host.dma_read s.trace (u64 (aq_base + s.aq_head % aq_depth * entry_bytes)) entry_bytes).1

  -- `count` commands are taken from the head one by one, each is executed, and its completion is
  -- posted, as entry number `n` and on of the completion queue, before the next is read.
  pub data Worked : EnaState → (n count : ℕ) → EnaState → Type 0 where
    idle : {s : EnaState} {n : ℕ} → Worked s n 0 s
    next :
        {s u t : EnaState} {n count : ℕ} (r : Reply) (entry : List ℕ)
        → admin_exec host (taken_off s) (command_at s) ≡ ok r
        → Completion acq_base acq_depth n (command_at s) r entry u
        → u ≡ acq_post acq_base acq_depth (command_at s) r
        → Worked u (n + 1) count t
        → Worked s n (suc count) t

  -- The run of a loop that starts with `n` completions posted
  abbrev pub Ran : EnaState → (n count : ℕ) → EnaState → Type 0
  Ran s n count t = Worked s n count t × AcqTaken t acq_depth (n + count)

  -- One round
  abbrev Posted : EnaState → ℕ → EnaState → Type 0
  Posted s n t =
      (r : Reply) × (admin_exec host (taken_off s) (command_at s) ≡ ok r)
      × Completion acq_base acq_depth n (command_at s) r (acq_entry r.0 (command_at s) r.1 r.2) t
      × (t ≡ acq_post acq_base acq_depth (command_at s) r)
      × AcqTaken t acq_depth (n + 1)
      × (t.aq_head ≡ u16 (s.aq_head + 1))

  admin_step-Posted :
      (s : EnaState) (n : ℕ)
      → AcqTaken s acq_depth n
      → Ends (Posted s n) (admin_step host aq_base acq_base aq_depth acq_depth s)
  unfolding admin_step acq_post acq_advance
  admin_step-Posted s n a =
      Ends-bind-eq (Executed (taken_off s)) (Posted s n) _ _
        (admin_exec-Executed host (taken_off s) _)
        (λ r e k.
          let (taken, written) =
            acq_post_lem acq_base acq_depth n (command_at s) r (moved r k.0.0 k.0.1) in
          (r, e, written, refl, taken, k.0.2))
    where
      moved :
          (r : Reply)
          → r.0.acq_tail ≡ s.acq_tail
          → r.0.acq_phase ≡ s.acq_phase
          → AcqTaken r.0 acq_depth n
      moved r t p = record {
        order = a.order;
        small = a.small;
        depth_eq = a.depth_eq;
        tail_eq = t ∙ a.tail_eq;
        phase_eq = p ∙ a.phase_eq;
      }

  admin_drain-Ran :
      (fuel tail : ℕ) (s : EnaState) (n : ℕ)
      → AcqTaken s acq_depth n
      → s.aq_head < 2 ^ 16
      → tail < 2 ^ 16
      → sub16 tail s.aq_head ≡ fuel
      → Ends (Ran s n fuel) (admin_drain host fuel aq_base acq_base aq_depth acq_depth tail s)
  unfolding admin_drain
  admin_drain-Ran zero tail s n a h lt e =
      if_both (Ends (Ran s n 0)) _ (λ _. (idle, subst (AcqTaken s acq_depth) (omega arith) a))
        (λ f. absurd (ground (arith, e, f, h, lt)))
  admin_drain-Ran (suc fuel) tail s n a h lt e =
      if_both (Ends (Ran s n (suc fuel))) _ (λ f. absurd (ground (arith, e, f, h, lt)))
        (λ f.
          Ends-bind (Posted s n) (Ran s n (suc fuel)) _ _ (admin_step-Posted s n a)
            (λ u (r, x, w, p, b, g).
              Ends-map (Ran u (n + 1) fuel) (Ran s n (suc fuel)) _
                (admin_drain-Ran fuel tail u (n + 1) b (omega (arith, g)) lt (less (==-ne f) g))
                (λ t (run, c). (next r _ x w p run, subst (AcqTaken t acq_depth) (omega arith) c))))
    where
      less : {m : ℕ} → s.aq_head ≢ tail → m ≡ u16 (s.aq_head + 1) → sub16 tail m ≡ fuel
      less ne g = omega (arith, ne, g, e, h, lt)

-- The tail register and the interrupt at the end
admin_finish_lem :
    (host : Host) (none_done : Bool) (u : EnaState)
    → (get_reg (admin_finish host (not none_done) u) reg_acq_tail ≡ u.acq_tail)
      × ((admin_finish host (not none_done) u).trace ≡ (
          if none_done || has (get_reg u reg_intr_mask) 1
          then u.trace
          else msix_notify admin_msix_vector ∷ u.trace))
unfolding admin_finish admin_intr if◌then◌else◌
admin_finish_lem host true u = (refl, refl)
admin_finish_lem host false u = elim (Bool-cases (has (get_reg u reg_intr_mask) 1)) [
  | inl e ↦ rw e (refl, refl)
  | inr e ↦ rw e (refl, refl)
]

-- What the doorbell of the admin queue comes to when `n` completions were posted before it
module _ (host : Host) (s : EnaState) where
  abbrev pub todo : ℕ
  todo = sub16 (posted_tail s) s.aq_head

  -- The whole run, at the addresses and depths that the registers give
  abbrev pub WholeRun : ℕ → EnaState → Type 0
  WholeRun n u =
      Ran host (reg_addr s reg_aq_base_hi reg_aq_base_lo)
        (reg_addr s reg_acq_base_hi reg_acq_base_lo)
        (u16 (bit_and (get_reg s reg_aq_caps) caps_depth)) (acq_depth_of s) s n todo u

  abbrev pub Answered : ℕ → EnaState → Type 0
  Answered n t =
      (u : EnaState) × WholeRun n u
      × (get_reg t reg_acq_tail ≡ u16 (n + todo))
      × (t.trace ≡ (
          if s.aq_head == posted_tail s || has (get_reg u reg_intr_mask) 1
          then u.trace
          else msix_notify admin_msix_vector ∷ u.trace))

  counted-Answered :
      (n : ℕ)
      → s.aq_head < 2 ^ 16
      → AcqTaken s (acq_depth_of s) n
      → is_ready s ≡ true
      → Ends (Answered n) (admin_process host s)
  unfolding admin_process
  counted-Answered n h a ready =
      if_both (Ends (Answered n)) _ (λ e. absurd (ground (arith, e, ready)))
        (λ _.
          if_both (Ends (Answered n)) _ (λ e. absurd (ground (arith, e, ready)))
            (λ _.
              Ends-bind (WholeRun n) (Answered n) _ _
                (admin_drain-Ran host _ _ _ _ todo (posted_tail s) s n a h (omega arith) refl)
                (λ u r.
                  (let f = admin_finish_lem host (s.aq_head == posted_tail s) u in
                    (u, r, f.0 ∙ r.1.tail_eq, f.1)))))

  -- The ring that the invariant gives
  ring_of-AcqTaken : IsValid s → is_ready s ≡ true → (n : ℕ) × AcqTaken s (acq_depth_of s) n
  unfolding core
  ring_of-AcqTaken v ready = elim v.acq [
    | inl z ↦ absurd (ground (arith, z, ready))
    | inr q ↦ (
      q.count,
      record {
        order = q.order;
        small = q.small;
        depth_eq = q.depth_eq;
        tail_eq = q.tail_eq;
        phase_eq = q.phase_eq;
      },
    )
  ]

  -- On a well-formed device, a doorbell of an admin queue that is set up and not overrun executes
  -- every posted command, in the order of the queue, and posts one completion for each, in the
  -- order of the commands, before it reads the next: an entry written to the next slot of the ring,
  -- with the phase of its lap, the status and payload of the command's reply, the low twelve bits
  -- of its id, and the head behind it. The completion queue, which had taken some number of
  -- entries, then has taken as many more as commands were posted, its tail register tells so, and
  -- one interrupt is sent, if there was a command and it is not masked. Or a command stops the
  -- process, at an assertion or as not supported.
  pub admin_process-Answered :
      IsValid s
      → is_ready s ≡ true
      → Ends (λ t. (n : ℕ) × AcqTaken s (acq_depth_of s) n × Answered n t) (admin_process host s)
  unfolding core
  admin_process-Answered v ready =
      let (n, a) = ring_of-AcqTaken v ready in
      Ends-map (Answered n) (λ t. (n : ℕ) × AcqTaken s (acq_depth_of s) n × Answered n t) _
        (counted-Answered n v.aq_head_in a ready) (λ t r. (n, a, r))
