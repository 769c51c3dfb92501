-- ===== src/Ring/Delivery/Check.antt =====
-- ring_paxos/lib/delivery_queue.c: the theorems on `dq_periodic_check`.
use fds.Prelude.{
  ℕ, zero, suc, ◌+◌, ◌%◌, ◌≤◌, ◌<◌, ◌≡◌, refl, sym, ◌∙◌, subst, List, [], Bool, true, false, ◌&&◌,
  ◌||◌, not, some, arith, ltb, ◌==◌, Bool-cases, inl, inr, if◌then◌else◌,
}
use fds.Ring.Types.{CommandId, Timeval, timer_is_expired}
use fds.Ring.Delivery.{DeliveryQueue, entry_of, set_entry, is_deliverable, max_of}
use fds.Ring.Delivery.Periodic.{
  DqEvent, is_zero_time, check_mapping, check_final_value, check_instance, has_next, check_rounds,
  dq_periodic_check,
}
use fds.Ring.Delivery.Window.{IsQueue, numbered, set_entry-IsQueue}
use fds.Ring.Delivery.Found.{IsStalled, set_entry-IsStalled, dq_get_entry-IsFound}

if_first :
    {A B : Type 0} (P : A → Type 0) (b : Bool) (x y : A × B)
    → P x.0
    → P y.0
    → P (if b then x else y).0
if_first P true x y p q = p
if_first P false x y p q = q

module _ (chosen : ℕ → CommandId) (value_of : CommandId → List ℕ) where
  -- A queue in the same window.
  pub record Checked (dq dq' : DeliveryQueue) : Type 0 where
    pub valid : IsQueue chosen value_of dq'
    pub stalled : IsStalled dq'
    pub delivered : dq'.highest_delivered ≡ dq.highest_delivered
    pub sized : dq'.queue_size ≡ dq.queue_size

  Checked-trans : {a b c : DeliveryQueue} → Checked a b → Checked b c → Checked a c
  Checked-trans p q = record {
    valid = q.valid;
    stalled = q.stalled;
    delivered = q.delivered ∙ p.delivered;
    sized = q.sized ∙ p.sized;
  }

  -- The entry of `i` written with other timeouts.
  touch-Checked :
      (dq : DeliveryQueue) (i : ℕ) (t u : Timeval)
      → IsQueue chosen value_of dq
      → IsStalled dq
      → Checked dq (
          set_entry dq i
            (record (entry_of dq i) { cmdmap_request_timeout = t; finval_request_timeout = u }))
  touch-Checked dq i t u q s =
      let e = q.entries (i % dq.queue_size) in
      record {
        valid = set_entry-IsQueue chosen value_of dq i _ q (record {
          idle = e.idle;
          placed = e.placed;
          above = e.above;
          below = e.below;
          final = e.final;
          mapped = e.mapped;
        });
        stalled =
            set_entry-IsStalled dq i _ s
              (λ p. subst (λ j. is_deliverable (dq.queue_array j) ≡ false) (sym p) s);
        delivered = refl;
        sized = refl;
      }

  same-Checked : (dq : DeliveryQueue) → IsQueue chosen value_of dq → IsStalled dq → Checked dq dq
  same-Checked dq q s = record { valid = q; stalled = s; delivered = refl; sized = refl }

  module _ (time_now : Timeval) where
    check_mapping-Checked :
        (dq : DeliveryQueue) (i : ℕ)
        → IsQueue chosen value_of dq
        → IsStalled dq
        → Checked dq (check_mapping time_now i dq).0
    unfolding check_mapping
    check_mapping-Checked dq i q s =
        let e = entry_of dq i in
        if_first (Checked dq)
          (not e.has_mapping
            && (is_zero_time e.cmdmap_request_timeout
                || timer_is_expired e.cmdmap_request_timeout time_now))
          _ _ (touch-Checked dq i _ e.finval_request_timeout q s) (same-Checked dq q s)

    check_final_value-Checked :
        (dq : DeliveryQueue) (i : ℕ)
        → IsQueue chosen value_of dq
        → IsStalled dq
        → Checked dq (check_final_value time_now i dq).0
    unfolding check_final_value
    check_final_value-Checked dq i q s =
        let e = entry_of dq i in
        let t = e.finval_request_timeout in
        if_first (Checked dq)
          (ltb i dq.highest_seen_closed
            && ((not (t.tv_sec == 0) && not (t.tv_usec == 0)) || timer_is_expired t time_now))
          _ _ (touch-Checked dq i e.cmdmap_request_timeout _ q s) (same-Checked dq q s)

    check_instance-Checked :
        (dq : DeliveryQueue) (i : ℕ)
        → IsQueue chosen value_of dq
        → IsStalled dq
        → dq.highest_delivered < i
        → i ≤ dq.highest_delivered + dq.queue_size
        → (r : DeliveryQueue × List DqEvent) × (check_instance time_now i dq ≡ some r)
          × Checked dq r.0
    unfolding check_instance
    check_instance-Checked dq i q s lo hi =
        let (e, f) = dq_get_entry-IsFound chosen value_of dq i q s lo hi in
        let dq1 = set_entry dq i (numbered chosen value_of dq i) in
        let first : Checked dq dq1 = record {
          valid = f.valid;
          stalled = f.stalled;
          delivered = refl;
          sized = refl;
        } in
        elim (Bool-cases (is_deliverable (entry_of dq1 i))) [
          | inl d ↦ rw (e, d) ((dq1, []), refl, first)
          | inr d ↦
              let m = check_mapping-Checked dq1 i f.valid f.stalled in
              let v =
                check_final_value-Checked (check_mapping time_now i dq1).0 i m.valid m.stalled in
              rw (e, d) (_, refl, Checked-trans first (Checked-trans m v))
        ]

    check_rounds-Checked :
        (n upper_limit i : ℕ) (dq : DeliveryQueue)
        → IsQueue chosen value_of dq
        → IsStalled dq
        → dq.highest_delivered < i
        → dq.highest_delivered + dq.queue_size ≤ i + n
        → (r : DeliveryQueue × List DqEvent) × (check_rounds time_now n upper_limit i dq ≡ some r)
          × Checked dq r.0
    unfolding check_rounds
    check_rounds-Checked zero upper_limit i dq q s lo fuel =
        let last : has_next time_now upper_limit i dq ≡ false = ground arith in
        rw last ((dq, []), refl, same-Checked dq q s)
    check_rounds-Checked (suc n) upper_limit i dq q s lo fuel =
        elim (Bool-cases (has_next time_now upper_limit i dq)) [
          | inr last ↦ rw (last, check_rounds) ((dq, []), refl, same-Checked dq q s)
          | inl more ↦
              let (r, e, c) = check_instance-Checked dq i q s lo (ground arith) in
              let (r', e', c') =
                check_rounds-Checked n upper_limit (i + 1) r.0 c.valid c.stalled
                  (omega (arith, c.delivered, lo)) (omega (arith, c.delivered, c.sized, fuel)) in
              rw (more, check_rounds, e, e') (_, refl, Checked-trans c c')
        ]

    -- No assertion fails, and nothing becomes deliverable.
    pub dq_periodic_check-Checked :
        (dq : DeliveryQueue)
        → IsQueue chosen value_of dq
        → IsStalled dq
        → (r : DeliveryQueue × List DqEvent) × (dq_periodic_check time_now dq ≡ some r)
          × Checked dq r.0
    unfolding dq_periodic_check
    dq_periodic_check-Checked dq q s =
        let (r, e, c) =
          check_rounds-Checked dq.queue_size (max_of dq.highest_seen_closed dq.highest_seen_cmdmap)
            (dq.highest_delivered + 1) dq q s (omega arith) (omega arith) in
        rw e (_, refl, c)
