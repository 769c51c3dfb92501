-- ===== src/Ring/Acceptor/Phase1/Promises.antt =====
-- ring_paxos/ring-paxos/acceptor_helpers.c: the promises under messages of phase 1.
use fds.Prelude.{
  ℕ, zero, suc, ◌+◌, ◌-◌, refl, arith, ltb, leb, ◌==◌, Ensures, ensures_if, ensures_bind,
  ensures_assert, ensures_after, ensures_map,
}
use fds.Ring.Acceptor.State.{
  RingAcceptor, Phase1Msg, Phase1RangeMsg, record_of, put_record, see_instance, read_cmd,
}
use fds.Ring.Acceptor.Phase1.{
  acceptor_handle_phase1_msg, promise_step, promise_loop, phase1_of_range, break_loop,
  acceptor_handle_phase1_range_msg,
}
use fds.Ring.Acceptor.Grows.{
  Grown, Grown-refl, Grown-trans, put_record-Grown, get_record-Grown, Moved, Found,
  same_records-Grown,
}

pub phase1-Grown :
    (stale msg : Phase1Msg) (acc : RingAcceptor)
    → Ensures (acceptor_handle_phase1_msg stale msg acc) (Moved acc)
unfolding acceptor_handle_phase1_msg
phase1-Grown stale msg acc =
    ensures_bind (Moved acc) (Found msg.inst_number acc) _ _ (get_record-Grown msg.inst_number acc)
      (λ acc1 g.
        ensures_if (Moved acc) (ltb msg.ballot (record_of acc1 msg.inst_number).ballot) _ _
          (λ old. g.0)
          (λ new.
            let seen = see_instance msg.inst_number acc1 in
            let ir = record (record_of acc1 msg.inst_number) { ballot = msg.ballot } in
            let p =
              put_record-Grown seen msg.inst_number ir refl (ground arith) (λ h. ground arith) in
            let whole : Grown acc (put_record seen msg.inst_number ir) =
              Grown-trans g.0 (Grown-trans (same_records-Grown acc1 seen refl refl) p) in
            ensures_if (Moved acc)
              (leb (record_of acc1 msg.inst_number).accept_ballot msg.highest_accepted_ballot) _ _
              (λ _. whole)
              (λ _.
                ensures_after (Moved acc)
                  (read_cmd (put_record seen msg.inst_number ir) msg.inst_number ir.accepted_cmd
                    ir.accepted_cmd_size)
                  _ (λ v. whole))))

promise_step-Grown :
    (ballot i : ℕ) (acc : RingAcceptor) → Ensures (promise_step ballot i acc) (Grown acc)
unfolding promise_step
promise_step-Grown ballot i acc =
    ensures_bind (Grown acc) (Found i acc) _ _ (get_record-Grown i acc) (λ acc1 g.
      ensures_assert (Grown acc) ((record_of acc1 i).ballot == 0) _ (λ z. Grown-trans g.0 (
        put_record-Grown acc1 i (record (record_of acc1 i) { ballot = ballot }) refl (ground arith)
          (λ h. ground arith))))

promise_loop-Grown :
    (ballot n i : ℕ) (acc : RingAcceptor) → Ensures (promise_loop ballot n i acc) (Grown acc)
unfolding promise_loop
promise_loop-Grown ballot zero i acc = Grown-refl acc
promise_loop-Grown ballot (suc n) i acc =
    ensures_bind (Grown acc) (Grown acc) _ _ (promise_step-Grown ballot i acc) (λ acc1 g.
      ensures_map (Grown acc) (Grown acc1) _ (λ acc2 h. Grown-trans g h)
        (promise_loop-Grown ballot n (i + 1) acc1))

break_loop-Grown :
    (stale : Phase1Msg) (msg : Phase1RangeMsg) (n i : ℕ) (acc : RingAcceptor)
    → Ensures (break_loop stale msg n i acc) (Moved acc)
unfolding break_loop
break_loop-Grown stale msg zero i acc = Grown-refl acc
break_loop-Grown stale msg (suc n) i acc =
    ensures_bind (Moved acc) (Moved acc) _ _ (phase1-Grown stale (phase1_of_range msg i) acc)
      (λ r g.
        ensures_bind (Moved acc) (Moved r.0) _ _ (break_loop-Grown stale msg n (i + 1) r.0)
          (λ s h. Grown-trans g h))

pub range-Grown :
    (stale : Phase1Msg) (msg : Phase1RangeMsg) (acc : RingAcceptor)
    → Ensures (acceptor_handle_phase1_range_msg stale msg acc) (Moved acc)
unfolding acceptor_handle_phase1_range_msg
range-Grown stale msg acc =
    let high = record acc { highest_instance_seen = msg.to } in
    ensures_if (Moved acc) (ltb acc.highest_instance_seen msg.from) _ _
      (λ _.
        ensures_bind (Moved acc) (Grown high) _ _
          (promise_loop-Grown msg.ballot (msg.to + 1 - msg.from) msg.from high)
          (λ acc1 g. Grown-trans (same_records-Grown acc high refl refl) g))
      (λ _. break_loop-Grown stale msg (msg.to + 1 - msg.from) msg.from acc)
