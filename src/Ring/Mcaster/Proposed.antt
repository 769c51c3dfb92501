-- ===== src/Ring/Mcaster/Proposed.antt =====
-- ring_paxos/ring-paxos/acceptor_helpers_mcaster.c: the instances that are opened in phase 2 keep the
-- invariant.
use fds.Prelude.{
  ℕ, zero, suc, ◌+◌, ◌-◌, ◌%◌, ◌≤◌, ◌<◌, ◌≡◌, ◌≢◌, refl, sym, ap, ◌∙◌, Bool, true, false, ◌&&◌, not,
  arith, ltb, ◌==◌, Option, Ensures, ensures_assert, ensures_bind, ensures_if, ensures_after,
  Bool-cases, inl, inr, some, none, update_same, update_other,
}
use fds.Ring.Queue.{LpQueue, QueueElement}
use fds.Ring.Mcaster.Storage.{
  McasterStatus, McasterRecord, McasterConfig, is_p1_pending, is_p1_done, mir_at, read_value,
  mcaster_storage_assign_value,
}
use fds.Ring.Mcaster.State.{
  Sent, Mcaster, mir_of, put_mir, send, minus32, mcaster_do_phase2, mcaster_broadcast_mapping,
}
use fds.Ring.Mcaster.Slots.{
  IsSlot, opened, preexecuted, unused, waiting, passed, SlotOf, fill-Slots,
}
use fds.Ring.Mcaster.Open.{
  begin_phase2, propose_value, open_p2_step, range_left, open_p2_rounds,
  mcaster_open_new_instances_P2,
}
use fds.Ring.Mcaster.At.{At}
use fds.Ring.Mcaster.Found.{ensures_mir}
use fds.Ring.Mcaster.Inv.{IsConfig, IsBounded, Inv, Inv-At, At-Inv}

-- The slots of the other instances than `i`, while its record is between two statuses.
record Almost (n r c o p i : ℕ) (acc : Mcaster) : Type 0 where
  sized : acc.msm.array_size ≡ n
  ready : acc.p1_ready_count ≡ r
  closed : acc.highest_closed_iid ≡ c
  opened : acc.highest_open_iid ≡ o
  begun : acc.p1_highest_open ≡ p
  number : (mir_of acc i).inst_number ≡ i
  others :
      (j : ℕ)
      → c < j
      → j ≤ c + acc.msm.array_size
      → i % acc.msm.array_size ≢ j % acc.msm.array_size
      → SlotOf acc.msm.array_size i p j (mir_at acc.msm j)

module _ (n r c o p i : ℕ) (acc : Mcaster) (a : Almost n r c o p i acc) where
  -- A write to the record.
  Almost-write :
      (mir : McasterRecord) (m : Sent)
      → mir.inst_number ≡ (mir_of acc i).inst_number
      → Almost n r c o p i (put_mir i mir (send m acc))
  Almost-write mir m e = record {
    sized = a.sized;
    ready = a.ready;
    closed = a.closed;
    opened = a.opened;
    begun = a.begun;
    number =
        ap McasterRecord.inst_number
          (update_same acc.msm.instances_array (i % acc.msm.array_size) mir)
        ∙ e
        ∙ a.number;
    others = λ j h h' ne.
        rw
          (update_other acc.msm.instances_array (i % acc.msm.array_size) (j % acc.msm.array_size)
            mir ne)
          (a.others j h h' ne);
  }

  mcaster_broadcast_mapping-Almost :
      (cfg : McasterConfig) → Ensures (mcaster_broadcast_mapping cfg i acc) (Almost n r c o p i)
  unfolding mcaster_broadcast_mapping
  mcaster_broadcast_mapping-Almost cfg =
      ensures_after (Almost n r c o p i)
        (read_value (mir_of acc i).assigned_cmd_value (mir_of acc i).assigned_cmd_size acc.msm) _
        (λ value. Almost-write _ _ refl)

  -- Phase 2 ends the change: the instance is open.
  mcaster_do_phase2-opens :
      (cfg : McasterConfig)
      → 0 < n
      → c < i
      → i ≤ c + n
      → At n r c o p c i p (mcaster_do_phase2 cfg i acc)
  unfolding mcaster_do_phase2
  mcaster_do_phase2-opens cfg hn h h' = record {
    sized = a.sized;
    ready = a.ready;
    closed = a.closed;
    opened = a.opened;
    begun = a.begun;
    slots =
        fill-Slots acc.msm.array_size acc.msm.instances_array c i p i _ (omega (arith, a.sized)) h
          (omega (arith, a.sized)) (opened (omega arith) a.number refl) a.others;
  }

slot-proposed :
    (n o p i number : ℕ) (status : McasterStatus) (value : ℕ)
    → i ≢ o + 1
    → IsSlot n o p i number status value
    → IsSlot n (o + 1) p i number status value
slot-proposed n o p i number status value ne (opened a e b) = opened (omega arith) e b
slot-proposed n o p i number status value ne (preexecuted a b e q v) =
    preexecuted (omega arith) b e q v
slot-proposed n o p i number status value ne (waiting a e q v) = waiting a e q v
slot-proposed n o p i number status value ne (unused a e b v) = unused a e b v
slot-proposed n o p i number status value ne (passed a b e q) = passed a b e q

module _ (cfg : McasterConfig) (w : IsConfig cfg) (n r c o p : ℕ) (b : IsBounded cfg n r c o p)
    (next : o < p) (left : o < c + cfg.max_active_instances) where
  -- The value is assigned to the instance `o + 1`.
  assigned-Almost :
      (acc : Mcaster) (e : QueueElement) (cvm : LpQueue)
      → At n r c o p c o p acc
      → (mir_of acc (o + 1)).inst_number ≡ o + 1
      → Ensures
          (mcaster_storage_assign_value cfg (o + 1) e.address e.size (record acc.msm { cvm = cvm }))
          (λ msm.
            Almost n
              (minus32 acc.p1_ready_count 1)
              c
              o
              p
              (o + 1)
              (record acc { msm = msm; p1_ready_count = minus32 acc.p1_ready_count 1 }))
  unfolding mcaster_storage_assign_value
  assigned-Almost acc e cvm a num =
      ensures_assert _ ((mir_of acc (o + 1)).assigned_cmd_value == 0) _ λ _. record {
        sized = a.sized;
        ready = refl;
        closed = a.closed;
        opened = a.opened;
        begun = a.begun;
        number =
            ap McasterRecord.inst_number
              (update_same acc.msm.instances_array ((o + 1) % acc.msm.array_size) _)
            ∙ num;
        others = λ j h h' ne.
            rw
              (update_other acc.msm.instances_array ((o + 1) % acc.msm.array_size)
                (j % acc.msm.array_size) _ ne)
              (slot-proposed acc.msm.array_size o p j _ _ _
                (λ e. ne (ap (λ (k : ℕ). k % acc.msm.array_size) (sym e))) (a.slots j h h'));
      }

  begin_phase2-Inv :
      (r' : ℕ) (acc : Mcaster)
      → r' + 1 ≡ r
      → Almost n r' c o p (o + 1) acc
      → Ensures (begin_phase2 cfg (o + 1) acc) (λ t. Inv cfg t.1)
  unfolding begin_phase2
  begin_phase2-Inv r' acc less al =
      ensures_bind (λ t. Inv cfg t.1) (Almost n r' c o p (o + 1))
        (mcaster_broadcast_mapping cfg (o + 1) acc)
        (λ acc'.
          let acc2 = mcaster_do_phase2 cfg (o + 1) acc' in
          some (true, record acc2 { highest_open_iid = acc2.highest_open_iid + 1 }))
        (mcaster_broadcast_mapping-Almost n r' c o p (o + 1) acc al cfg)
        λ acc' al'.
          let a' =
            mcaster_do_phase2-opens n r' c o p (o + 1) acc' al' cfg
              (omega (arith, b.sized, w.positive)) (omega (arith, b.closed_le))
              (omega (arith, b.sized, w.windows, left)) in
          let acc2 = mcaster_do_phase2 cfg (o + 1) acc' in
          At-Inv cfg n r' c (o + 1) p (record acc2 { highest_open_iid = acc2.highest_open_iid + 1 })
            (record {
              sized = b.sized;
              closed_le = omega (arith, b.closed_le);
              counted = omega (arith, b.counted, less);
              ahead = omega (arith, b.ahead, less);
              active = omega (arith, left);
            })
            (record {
              sized = a'.sized;
              ready = a'.ready;
              closed = a'.closed;
              opened = omega (arith, a'.opened);
              begun = a'.begun;
              slots = a'.slots;
            })

  propose_value-Inv :
      (acc : Mcaster) (e : Option QueueElement) (cvm : LpQueue)
      → At n r c o p c o p acc
      → (mir_of acc (o + 1)).inst_number ≡ o + 1
      → Ensures (propose_value cfg (o + 1) e cvm acc) (λ t. Inv cfg t.1)
  unfolding propose_value
  propose_value-Inv acc none cvm a num = At-Inv cfg n r c o p _ b (record {
    sized = a.sized;
    ready = a.ready;
    closed = a.closed;
    opened = a.opened;
    begun = a.begun;
    slots = a.slots;
  })
  propose_value-Inv acc (some e) cvm a num =
      ensures_bind (λ t. Inv cfg t.1)
        (λ msm.
          Almost n (minus32 acc.p1_ready_count 1) c o p (o + 1)
            (record acc { msm = msm; p1_ready_count = minus32 acc.p1_ready_count 1 }))
        (mcaster_storage_assign_value cfg (o + 1) e.address e.size (record acc.msm { cvm = cvm }))
        (λ msm.
          begin_phase2 cfg (o + 1)
            (record acc { msm = msm; p1_ready_count = minus32 acc.p1_ready_count 1 }))
        (assigned-Almost acc e cvm a num)
        λ msm al.
          begin_phase2-Inv (minus32 acc.p1_ready_count 1)
            (record acc { msm = msm; p1_ready_count = minus32 acc.p1_ready_count 1 })
            (omega (arith, a.ready, b.counted, b.ahead, w.small)) al

-- A round of the loop.
open_p2_step-Inv :
    (cfg : McasterConfig) (acc : Mcaster)
    → IsConfig cfg
    → Inv cfg acc
    → acc.highest_open_iid < acc.highest_closed_iid + cfg.max_active_instances
    → Ensures (open_p2_step cfg acc) (λ t. Inv cfg t.1)
unfolding open_p2_step
open_p2_step-Inv cfg acc w v left =
    let n = acc.msm.array_size in
    let r = acc.p1_ready_count in
    let c = acc.highest_closed_iid in
    let o = acc.highest_open_iid in
    let p = acc.p1_highest_open in
    let b = v.bounded in
    ensures_if (λ t. Inv cfg t.1) (ltb p (o + 1)) (some (false, acc)) _ (λ _. v)
      λ le.
        ensures_if (λ t. Inv cfg t.1) (r == 0) (some (false, acc)) _ (λ _. v)
          λ _.
            ensures_mir n r c o p c o p (o + 1) acc (Inv-At cfg acc v) _ _
              (omega (arith, b.sized, w.positive)) (omega (arith, b.closed_le))
              (omega (arith, b.sized, w.windows, left))
              λ acc' a num. ensures_assert _ ((mir_of acc' (o + 1)).inst_number == o + 1) _ λ _.
                ensures_if _ (not (is_p1_done (mir_of acc' (o + 1)).status)) _ _
                  (λ _.
                    ensures_assert _ (is_p1_pending (mir_of acc' (o + 1)).status) _
                      (λ _. At-Inv cfg n r c o p acc' b a))
                  (λ _.
                    ensures_assert _ (not ((mir_of acc' (o + 1)).ballot == 0)) _
                      (λ _. propose_value-Inv cfg w n r c o p b (ground arith) left acc' _ _ a num))

ensures_elim {ℓ κ} :
    {A : Type ℓ} (P : A → Type κ) (b : Bool) (x y : Option A)
    → Ensures x P
    → Ensures y P
    → Ensures (elim b [ true ↦ x | false ↦ y ]) P
ensures_elim P true x y h k = h
ensures_elim P false x y h k = k

open_p2_rounds-Inv :
    (cfg : McasterConfig) (n open_count : ℕ) (acc : Mcaster)
    → IsConfig cfg
    → Inv cfg acc
    → Ensures (open_p2_rounds cfg n open_count acc) (Inv cfg)
unfolding open_p2_rounds
open_p2_rounds-Inv cfg zero open_count acc w v = v
open_p2_rounds-Inv cfg (suc n) open_count acc w v = elim (Bool-cases (range_left cfg acc == 0)) [
  | inl e ↦ rw (e, open_p2_rounds) v
  | inr e ↦
      rw (e, open_p2_rounds)
        (ensures_bind (Inv cfg) (λ t. Inv cfg t.1) (open_p2_step cfg acc) _
          (open_p2_step-Inv cfg acc w v
            (ground (arith, v.bounded.active, v.bounded.closed_le, w.small')))
          (λ t v'.
            ensures_elim (Inv cfg) (t.0 && ltb (open_count + 1) cfg.max_p2_open_per_iteration)
              (open_p2_rounds cfg n (open_count + 1) t.1) (some t.1)
              (open_p2_rounds-Inv cfg n (open_count + 1) t.1 w v') v'))
]

pub mcaster_open_new_instances_P2-Inv :
    (cfg : McasterConfig) (acc : Mcaster)
    → IsConfig cfg
    → Inv cfg acc
    → Ensures (mcaster_open_new_instances_P2 cfg acc) (Inv cfg)
unfolding mcaster_open_new_instances_P2
mcaster_open_new_instances_P2-Inv cfg acc w v =
    open_p2_rounds-Inv cfg (suc (acc.p1_highest_open - acc.highest_open_iid)) 0 acc w v
