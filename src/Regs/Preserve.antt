-- ===== src/Regs/Preserve.antt =====
-- `ena_reg_write` of hw/ena.c over well-formed devices.
use ena.Base.{
  not-false, refl, ℕ, ◌≤◌, true, false, Outcome, ok, ◌≡◌, arith, ltb, u16, sub16, if_both,
  Total-Ends, Total-map, Ends, Ends-map, check-Ends, update_self,
}
use ena.Host.{Host, flush_queued_packets}
use ena.Device.Layout.{reg_aq_caps, reg_aq_db}
use ena.Device.{EnaState, set_sq, set_reg, log}
use ena.Invariant.Registers.{is_watched}
use ena.Device.Layout.{
  reg_dev_ctl, reg_dev_sts, dev_sts_ready, dev_sts_reset_in_progress, reg_mmio_reg_read,
  reg_intr_mask,
}
use ena.Invariant.{core, IsValid, IsValidSq, set_sq-IsValid}
use ena.Invariant.Queues.{core-cq_unmask_write}
use ena.Reset.{dev_reset}
use ena.Regs.{mmio_readless, finish_reset, dev_ctl_write}
use ena.Regs.Write.{is_plain, sq_doorbell, caps_write, reg_file_write, reg_write}
use ena.Rx.Receive.{rx_doorbell}
use ena.Tx.Doorbell.{tx_doorbell}
use ena.Tx.Total.{Drained, tx_doorbell-Drained}
use ena.Admin.Queues.Effects.{PowersOnly}
use ena.Admin.Process.Loop.{Processed, admin_process_lem}
use ena.Regs.Restart.{
  IsValid-core, IsValid-set_reg, IsValid-IsNumbered, dev_reset-IsValid, restart_acq-IsValid,
  restart_aenq-IsValid,
}

le_of_ltb : {a b : ℕ} → ltb a b ≡ false → b ≤ a
le_of_ltb h = ground (arith, h)

-- The queue with the tail that a doorbell names, which is at most `depth` past the head
module _ (s : EnaState) (i val : ℕ) (v : IsValid s) (u : (s.sq i).used ≡ true)
    (fits : ltb (s.sq i).depth (sub16 val (s.sq i).head) ≡ false) where
  abbrev pub rung : EnaState
  rung = set_sq s i (record (s.sq i) { tail = u16 val })

  old : IsValidSq s.cq (s.sq i)
  unfolding core
  old = v.sqs i u

  rung-IsValidSq : IsValidSq s.cq (record (s.sq i) { tail = u16 val })
  rung-IsValidSq = record {
    cq_in = old.cq_in;
    cq_used = old.cq_used;
    depth_in = old.depth_in;
    fits = old.fits;
    head_in = old.head_in;
    tail_in = omega arith;
    posted = omega (arith, le_of_ltb fits, old.head_in);
    rx_entry = old.rx_entry;
    llq_tx = old.llq_tx;
    llq_line = old.llq_line;
    llq_room = old.llq_room;
  }

  pub rung-IsValid : IsValid rung
  unfolding core
  rung-IsValid = set_sq-IsValid (core s) i _ (λ _. rung-IsValidSq) (λ _. v.sq_in i u) v

-- The registers that only store their value are not those that the invariant reads.
plain-is_watched : (addr : ℕ) → is_plain addr ≡ true → is_watched addr ≡ false
plain-is_watched addr h = ground (arith, h)

module _ (host : Host) (powers : PowersOnly host) where
  drained :
      (s : EnaState) (i val : ℕ) (v : IsValid s) (u : (s.sq i).used ≡ true)
      (fits : ltb (s.sq i).depth (sub16 val (s.sq i).head) ≡ false)
      → (s.sq i).is_tx ≡ true
      → Ends IsValid (tx_doorbell host (rung s i val v u fits) i)
  drained s i val v u fits tx = Total-Ends IsValid _ (
      Total-map (Drained (rung s i val v u fits) i) IsValid _
        (tx_doorbell-Drained host (rung s i val v u fits) i (rung-IsValid s i val v u fits)
          (rw (update_self s.sq i (record (s.sq i) { tail = u16 val })) u)
          (rw (update_self s.sq i (record (s.sq i) { tail = u16 val })) tx))
        (λ t m. m.valid))

  sq_doorbell-IsValid :
      (s : EnaState) (i val : ℕ) → IsValid s → Ends IsValid (sq_doorbell host s i val)
  unfolding sq_doorbell rx_doorbell core
  sq_doorbell-IsValid s i val v =
      if_both (Ends IsValid) _ (λ _. v)
        (λ u.
          if_both (Ends IsValid) _ (λ _. v)
            (λ fits.
              if_both (Ends IsValid) _ (λ tx. drained s i val v (not-false u) fits tx)
                (λ _.
                  check-Ends IsValid _
                    (ok (log (rung s i val v (not-false u) fits) flush_queued_packets))
                    (λ _. rung-IsValid s i val v (not-false u) fits))))

  dev_ctl_write-IsValid : (s : EnaState) (val : ℕ) → IsValid s → Ends IsValid (dev_ctl_write s val)
  unfolding dev_ctl_write finish_reset core
  dev_ctl_write-IsValid s val v =
      if_both (Ends IsValid) _ (λ _. tt)
        (λ _.
          if_both (Ends IsValid) _
            (λ _.
              IsValid-set_reg (set_reg (dev_reset s) reg_dev_ctl val) reg_dev_sts
                dev_sts_reset_in_progress refl
                (IsValid-set_reg (dev_reset s) reg_dev_ctl val refl
                  (dev_reset-IsValid s (IsValid-IsNumbered s v))))
            (λ _.
              if_both (Ends IsValid) _ (λ _. tt)
                (λ _.
                  if_both IsValid _
                    (λ _.
                      IsValid-set_reg (set_reg s reg_dev_ctl 0) reg_dev_sts dev_sts_ready refl
                        zeroed)
                    (λ _. zeroed))))
    where
      zeroed : IsValid (set_reg s reg_dev_ctl 0)
      zeroed = IsValid-set_reg s reg_dev_ctl 0 refl v

  caps_write-IsValid :
      (s : EnaState) (addr val : ℕ) → IsValid s → Ends IsValid (caps_write host s addr val)
  unfolding caps_write core
  caps_write-IsValid s addr val v =
      if_both (Ends IsValid) _ (λ _. tt)
        (λ fits.
          if_both (Ends IsValid) _ (λ _. restarted)
            (λ _.
              if_both (Ends IsValid) _
                (λ _. restart_acq-IsValid host powers s val (not-false fits) v)
                (λ _. restart_aenq-IsValid host powers s val (not-false fits) v)))
    where
      w : IsValid (set_reg s reg_aq_caps val)
      w = IsValid-set_reg s reg_aq_caps val refl v

      restarted : IsValid (record (set_reg s reg_aq_caps val) { aq_head = 0 })
      restarted = record {
        mtu_low = w.mtu_low;
        mtu_high = w.mtu_high;
        aq_head_in = omega arith;
        llq_size = w.llq_size;
        cqs = w.cqs;
        sqs = w.sqs;
        sq_in = w.sq_in;
        vectors = w.vectors;
        version_eq = w.version_eq;
        controller_version_eq = w.controller_version_eq;
        caps_eq = w.caps_eq;
        acq = w.acq;
        selected = w.selected;
        aenq = w.aenq;
      }

  reg_file_write-IsValid :
      (s : EnaState) (addr val : ℕ) → IsValid s → Ends IsValid (reg_file_write host s addr val)
  unfolding reg_file_write core mmio_readless
  reg_file_write-IsValid s addr val v =
      if_both E _ (λ _. v)
        (λ _.
          if_both E _ (λ _. dev_ctl_write-IsValid s val v)
            (λ _.
              if_both E _
                (λ _.
                  if_both IsValid _ (λ _. IsValid-set_reg s reg_mmio_reg_read val refl v)
                    (λ _. IsValid-set_reg s reg_mmio_reg_read val refl v))
                (λ _.
                  if_both E _
                    (λ _.
                      Ends-map (Processed (set_reg s reg_aq_db val)) IsValid _
                        (admin_process_lem host powers (set_reg s reg_aq_db val)
                          (IsValid-set_reg s reg_aq_db val refl v))
                        (λ t p. p.0))
                    (λ _.
                      if_both E _ (λ _. caps_write-IsValid s addr val v)
                        (λ _.
                          if_both E _ (λ p. IsValid-set_reg s addr val (plain-is_watched addr p) v)
                            (λ _.
                              if_both E _
                                (λ _.
                                  if_both E _ (λ _. tt)
                                    (λ _. IsValid-set_reg s reg_intr_mask val refl v))
                                (λ _. tt)))))))
    where
      E : Outcome EnaState → Type 0
      E = Ends IsValid

  -- A write to the device's registers, doorbells included, ends: at an assertion, at an access
  -- that is not supported, or with a well-formed device if it was well-formed.
  pub reg_write-IsValid :
      (s : EnaState) (addr val : ℕ) → IsValid s → Ends IsValid (reg_write host s addr val)
  unfolding reg_write
  reg_write-IsValid s addr val v =
      if_both (Ends IsValid) _ (λ _. sq_doorbell-IsValid s _ _ v)
        (λ _.
          if_both (Ends IsValid) _ (λ _. IsValid-core s _ (core-cq_unmask_write host s _ _) v)
            (λ _. if_both (Ends IsValid) _ (λ _. tt) (λ _. reg_file_write-IsValid s addr _ v)))
