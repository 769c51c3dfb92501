-- ===== src/Ring/Mcaster/Opened.antt =====
-- ring_paxos/ring-paxos/acceptor_helpers_mcaster.c: the instances that are opened in phase 1, and those
-- that are expired, keep what the slots hold.
use fds.Prelude.{
  and-right, ℕ, zero, suc, ◌+◌, ◌/◌, ◌≤◌, ◌<◌, ◌≡◌, ◌≢◌, refl, ap, ◌∙◌, subst, true, arith, leb,
  ◌==◌, Ensures, ensures_assert, ensures_bind, ensures_if, ensures_map, some, ◌>>=◌,
}
use fds.Ring.Types.{CommandId, timer_is_expired}
use fds.Ring.Ballot.{make_first_ballot}
use fds.Ring.Delivery.{max_of}
use fds.Ring.Mcaster.Storage.{
  McasterStatus, empty, ready, p1_pending, p1_done, p2_pending, done, McasterConfig, is_ready,
}
use fds.Ring.Mcaster.State.{
  Sent, Mcaster, mir_of, send, mcaster_broadcast_mapping, mcaster_do_phase1, mcaster_do_phase2,
  plus32, minus32,
}
use fds.Ring.Mcaster.Slots.{
  is_open, IsSlot, opened, preexecuted, unused, waiting, passed, Slots, put-Slots,
}
use fds.Ring.Mcaster.Open.{
  open_p1_step, open_range, mcaster_open_new_instances_P1, check_expired, expired_step,
  expired_loop, mcaster_check_expired_instances,
}
use fds.Ring.Mcaster.At.{
  At, mcaster_do_phase1-At, mcaster_do_phase2-At, mcaster_broadcast_mapping-At,
}
use fds.Ring.Mcaster.Inv.{IsConfig, Inv, Inv-At, At-Inv}
use fds.Ring.Mcaster.Found.{ensures_mir, for_range_inv}

slot-ready :
    (n o p i number : ℕ) (status : McasterStatus) (value : ℕ)
    → 0 < n
    → IsSlot n o p i number status value
    → number ≡ i
    → is_ready status ≡ true
    → value ≡ 0
slot-ready n o p i number ready value hn (opened a e b) k h = absurd (cc)
slot-ready n o p i number ready value hn (preexecuted a b e q v) k h = v
slot-ready n o p i number ready value hn (waiting a e q v) k h = v
slot-ready n o p i number ready value hn (unused a e b v) k h = v
slot-ready n o p i number ready value hn (passed a b e q) k h = absurd (omega arith)
slot-ready n o p i number _ value hn s k h = ground arith

slot-begun :
    (n o k i number : ℕ) (status : McasterStatus) (value : ℕ)
    → i ≢ k + 1
    → IsSlot n o k i number status value
    → IsSlot n o (k + 1) i number status value
slot-begun n o k i number status value ne (opened a e b) = opened a e b
slot-begun n o k i number status value ne (preexecuted a b e q v) =
    preexecuted a (omega arith) e q v
slot-begun n o k i number status value ne (waiting a e q v) = waiting (omega arith) e q v
slot-begun n o k i number status value ne (unused a e b v) = unused (omega arith) e b v
slot-begun n o k i number status value ne (passed a b e q) = passed (omega arith) b e q

module _ (cfg : McasterConfig) (n r c o p : ℕ) (hn : 0 < n) where
  -- A round of the loop that opens instances; those to `k` are opened.
  open_p1_step-At :
      (b k : ℕ) (acc : Mcaster)
      → c ≤ o
      → o ≤ k
      → k < c + n
      → At n r c o p c o k acc
      → Ensures (open_p1_step cfg b (k + 1) acc) (At n r c o p c o (k + 1))
  unfolding open_p1_step
  open_p1_step-At b k acc hc ho hk a =
      let i = k + 1 in
      ensures_mir n r c o p c o k i acc a (At n r c o p c o i) _ (omega (arith, a.sized))
        (omega arith) (omega (arith, a.sized))
        λ acc' a' e. ensures_assert (At n r c o p c o i) _ _ λ t.
          let q =
            and-right ((mir_of acc' i).inst_number == i) (is_ready (mir_of acc' i).status) t in
          let v =
            slot-ready acc'.msm.array_size o k i _ _ _ (omega (arith, a'.sized))
              (a'.slots i (omega arith) (omega (arith, a'.sized))) e q in
          record {
            sized = a'.sized;
            ready = a'.ready;
            closed = a'.closed;
            opened = a'.opened;
            begun = a'.begun;
            slots =
                put-Slots acc'.msm.array_size acc'.msm.instances_array c o k o i i _
                  (omega (arith, a'.sized)) (omega arith) (omega (arith, a'.sized)) a'.slots
                  (preexecuted (omega arith) (omega arith) e refl v)
                  (λ j ne s. slot-begun acc'.msm.array_size o k j _ _ _ ne s);
          }

  -- The mapping and phase 2 again.
  pub repeat_phase2-At :
      (i : ℕ) (acc : Mcaster)
      → c < i
      → i ≤ c + n
      → At n r c o p c o p acc
      → (mir_of acc i).inst_number ≡ i
      → is_open (mir_of acc i).status ≡ true
      → Ensures
          (mcaster_broadcast_mapping cfg i acc >>= λ acc. some (mcaster_do_phase2 cfg i acc))
          (At n r c o p c o p)
  repeat_phase2-At i acc h h' a e q =
      ensures_bind (At n r c o p c o p) _ (mcaster_broadcast_mapping cfg i acc)
        (λ acc. some (mcaster_do_phase2 cfg i acc))
        (mcaster_broadcast_mapping-At n r c o p c o p cfg i acc a)
        (λ acc' t.
          mcaster_do_phase2-At n r c o p c o p cfg i acc' t.0 (omega (arith, t.0.sized)) h
            (omega (arith, t.0.sized)) (t.2 ∙ e) (ap is_open t.3 ∙ q))

  -- The `switch`, at an instance above the closed ones.
  check_expired-At :
      (stale : CommandId) (i : ℕ) (s : McasterStatus) (acc : Mcaster)
      → c < i
      → i ≤ c + n
      → At n r c o p c o p acc
      → (mir_of acc i).inst_number ≡ i
      → (mir_of acc i).status ≡ s
      → Ensures (check_expired cfg stale i s acc) (At n r c o p c o p)
  unfolding check_expired
  check_expired-At stale i p1_pending acc h h' a e q =
      ensures_if (At n r c o p c o p) (timer_is_expired (mir_of acc i).timeout acc.mcaster_clock)
        (mcaster_do_phase1 cfg stale i acc) (some acc)
        (λ _.
          mcaster_do_phase1-At n r c o p c o p cfg i acc a stale (omega (arith, a.sized)) h
            (omega (arith, a.sized)) e (rw q refl))
        (λ _. a)
  check_expired-At stale i p2_pending acc h h' a e q =
      ensures_if (At n r c o p c o p) (timer_is_expired (mir_of acc i).timeout acc.mcaster_clock)
        (mcaster_broadcast_mapping cfg i acc >>= λ acc. some (mcaster_do_phase2 cfg i acc))
        (some acc) (λ _. repeat_phase2-At i acc h h' a e (rw q refl)) (λ _. a)
  check_expired-At stale i empty acc h h' a e q = a
  check_expired-At stale i ready acc h h' a e q = a
  check_expired-At stale i p1_done acc h h' a e q = a
  check_expired-At stale i done acc h h' a e q = a

  expired_loop-At :
      (stale : CommandId) (k i : ℕ) (acc : Mcaster)
      → c < i
      → i + k ≤ c + n + 1
      → At n r c o p c o p acc
      → Ensures (expired_loop cfg stale k i acc) (At n r c o p c o p)
  unfolding expired_loop expired_step
  expired_loop-At stale zero i acc h h' a = a
  expired_loop-At stale (suc k) i acc h h' a =
      ensures_bind (At n r c o p c o p) (At n r c o p c o p) (expired_step cfg stale i acc) _
        (ensures_mir n r c o p c o p i acc a (At n r c o p c o p) _ (omega (arith, a.sized)) h
          (omega (arith, a.sized))
          λ acc' a' e.
            ensures_assert (At n r c o p c o p) _ _
              λ _. check_expired-At stale i (mir_of acc' i).status acc' h (omega arith) a' e refl)
        (λ acc' a'. expired_loop-At stale k (i + 1) acc' (omega arith) (omega arith) a')

-- The instances below `i` are opened.
record Begun (n r c o p i : ℕ) (acc : Mcaster) : Type 0 where
  last : ℕ
  is_last : i ≡ last + 1
  after : p ≤ last
  state : At n r c o p c o last acc

module _ (cfg : McasterConfig) (w : IsConfig cfg) where
  pub mcaster_check_expired_instances-Inv :
      (stale : CommandId) (acc : Mcaster)
      → Inv cfg acc
      → Ensures (mcaster_check_expired_instances cfg stale acc) (Inv cfg)
  unfolding mcaster_check_expired_instances
  mcaster_check_expired_instances-Inv stale acc v =
      let b = v.bounded in
      let n = acc.msm.array_size in
      let r = acc.p1_ready_count in
      let c = acc.highest_closed_iid in
      let o = acc.highest_open_iid in
      let p = acc.p1_highest_open in
      let top : max_of o p ≤ c + n =
        ground (arith, b.sized, b.counted, b.ahead, b.active, w.windows) in
      ensures_map (Inv cfg) (At n r c o p c o p) _ (λ acc1. At-Inv cfg n r c o p acc1 b)
        (expired_loop-At cfg n r c o p (omega (arith, b.sized, w.positive)) stale _ (c + 1) acc
          (omega arith) (omega (arith, top)) (Inv-At cfg acc v))

  -- After the loop the range is sent, and the numbers are raised.
  opened_all :
      (to_open : ℕ) (acc : Mcaster)
      → acc.p1_ready_count + to_open ≤ cfg.preexecution_window_size
      → Inv cfg acc
      → (acc' : Mcaster)
      → Begun acc.msm.array_size acc.p1_ready_count acc.highest_closed_iid acc.highest_open_iid
          acc.p1_highest_open
          (acc.p1_highest_open + to_open + 1)
          acc'
      → (m : Sent)
      → Inv cfg (record (send m acc') {
        p1_highest_open = acc'.p1_highest_open + to_open;
        p1_ready_count = plus32 acc'.p1_ready_count to_open;
      })
  opened_all to_open acc h v acc' q m =
      let b = v.bounded in
      let a = q.state in
      let last : q.last ≡ acc.p1_highest_open + to_open = omega (arith, q.is_last) in
      let ready : plus32 acc'.p1_ready_count to_open ≡ acc.p1_ready_count + to_open =
        omega (arith, a.ready, h, w.small) in
      At-Inv cfg acc.msm.array_size (acc.p1_ready_count + to_open) acc.highest_closed_iid
        acc.highest_open_iid (acc.p1_highest_open + to_open) _
        (record {
          sized = b.sized;
          closed_le = b.closed_le;
          counted = omega (arith, b.counted);
          ahead = h;
          active = b.active;
        })
        (record {
          sized = a.sized;
          ready = ready;
          closed = a.closed;
          opened = a.opened;
          begun = omega (arith, a.begun);
          slots =
              subst
                (λ (l : ℕ).
                  Slots acc'.msm.array_size acc'.msm.instances_array acc.highest_closed_iid
                    acc.highest_open_iid l)
                last a.slots;
        })

  open_range-Inv :
      (to_open : ℕ) (acc : Mcaster)
      → acc.p1_ready_count + to_open ≤ cfg.preexecution_window_size
      → Inv cfg acc
      → Ensures (open_range cfg to_open acc) (Inv cfg)
  unfolding open_range
  open_range-Inv to_open acc h v =
      let b = v.bounded in
      let n = acc.msm.array_size in
      let r = acc.p1_ready_count in
      let c = acc.highest_closed_iid in
      let o = acc.highest_open_iid in
      let p = acc.p1_highest_open in
      let first = make_first_ballot cfg.self_acceptor_id cfg.incarnation_number in
      ensures_bind (Inv cfg) (Begun n r c o p (p + to_open + 1)) _ _
        (for_range_inv (open_p1_step cfg first) (p + to_open) (Begun n r c o p)
          (λ i acc' le q. rw (q.is_last) (
            ensures_map (Begun n r c o p (q.last + 1 + 1)) (At n r c o p c o (q.last + 1)) _
              (λ acc'' a. record {
                last = q.last + 1;
                is_last = refl;
                after = omega (arith, q.after);
                state = a;
              })
              (open_p1_step-At cfg n r c o p (omega (arith, b.sized, w.positive)) first q.last acc'
                b.closed_le (omega (arith, q.after, b.counted))
                (omega (arith, le, q.is_last, h, w.windows, b.sized, b.active, b.counted))
                q.state)))
          (p + 1) acc (omega arith)
          (record { last = p; is_last = refl; after = omega arith; state = Inv-At cfg acc v }))
        (λ acc' q. opened_all to_open acc h v acc' q _)

  pub mcaster_open_new_instances_P1-Inv :
      (acc : Mcaster) → Inv cfg acc → Ensures (mcaster_open_new_instances_P1 cfg acc) (Inv cfg)
  unfolding mcaster_open_new_instances_P1
  mcaster_open_new_instances_P1-Inv acc v =
      let active_count = plus32 acc.p1_ready_count acc.p1_ready_count in
      let to_open = minus32 cfg.preexecution_window_size active_count in
      ensures_if (Inv cfg) (leb (cfg.preexecution_window_size / 2) active_count) (some acc)
        (open_range cfg to_open acc) (λ _. v)
        (λ t. open_range-Inv to_open acc (ground (arith, v.bounded.ahead, w.small)) v)
