-- ===== src/Ring/Mcaster/Answered.antt =====
-- ring_paxos/ring-paxos/acceptor_helpers_mcaster.c: the handlers of messages of phase 1 keep the invariant.
use fds.Prelude.{
  and-right, not-false, ℕ, ◌+◌, ◌%◌, ◌≤◌, ◌<◌, ◌≡◌, refl, ap, ◌∙◌, true, ◌&&◌, not, arith, leb, ltb,
  ◌==◌, Ensures, ensures_assert, ensures_if, ensures_map, Bool-cases, inl, inr, some, update_same,
}
use fds.Ring.Types.{CommandId}
use fds.Ring.Ballot.{is_my_ballot, raise_ballot}
use fds.Ring.Acceptor.State.{Phase1Msg, Phase1RangeMsg}
use fds.Ring.Mcaster.Storage.{McasterConfig, McasterRecord, is_p1_pending}
use fds.Ring.Mcaster.State.{
  Mcaster, mir_of, put_mir, plus32, minus32, for_range, mcaster_do_phase1_range,
}
use fds.Ring.Mcaster.Slots.{is_pre}
use fds.Ring.Mcaster.Handlers.{
  p1_done_step, mcaster_handle_phase1_range_msg, phase1_answered, mcaster_handle_phase1_msg,
}
use fds.Ring.Mcaster.At.{
  At, pending-pre, slot-pre, pre_write, put-At, send-At, mcaster_do_phase1-At,
}
use fds.Ring.Mcaster.Found.{ensures_mir, for_range_inv}
use fds.Ring.Mcaster.Inv.{IsConfig, IsBounded, Inv, Inv-At, At-Inv}

module _ (cfg : McasterConfig) (n r c o p : ℕ) (b : IsBounded cfg n r c o p)
    (w : IsConfig cfg) where
  -- A counter lowered and raised by the same number.
  recount-At :
      (k : ℕ) (acc : Mcaster)
      → At n r c o p c o p acc
      → At n r c o p c o p (record acc { p1_ready_count = plus32 (minus32 acc.p1_ready_count k) k })
  recount-At k acc a = record {
    sized = a.sized;
    ready = omega (arith, a.ready, b.ahead, w.small);
    closed = a.closed;
    opened = a.opened;
    begun = a.begun;
    slots = a.slots;
  }

  -- A round of the loop over a range.
  p1_done_step-At :
      (i : ℕ) (acc : Mcaster)
      → c < i
      → i ≤ p
      → At n r c o p c o p acc
      → Ensures (p1_done_step i acc) (At n r c o p c o p)
  unfolding p1_done_step
  p1_done_step-At i acc h h' a =
      ensures_mir n r c o p c o p i acc a (At n r c o p c o p) _
        (omega (arith, a.sized, b.sized, w.positive)) h
        (omega (arith, h', a.sized, b.sized, b.counted, b.ahead, b.active, w.windows))
        λ acc' a' e.
          ensures_assert (At n r c o p c o p)
            (((mir_of acc' i).inst_number == i) && is_p1_pending (mir_of acc' i).status) _
            λ t. put-At n r c o p c o p cfg i acc' a' _ (
              pre_write acc'.msm.array_size acc'.msm.instances_array c o p i _
                (omega (arith, a'.sized, b.sized, w.positive)) h
                (omega (arith, h', a'.sized, b.sized, b.counted, b.ahead, b.active, w.windows))
                a'.slots e
                (pending-pre (mir_of acc' i).status
                  (and-right ((mir_of acc' i).inst_number == i) _ t))
                refl refl refl)

  range_done-At :
      (from to : ℕ) (acc : Mcaster)
      → c < from
      → from ≤ to
      → to ≤ p
      → At n r c o p c o p acc
      → Ensures (for_range p1_done_step from to acc) (At n r c o p c o p)
  range_done-At from to acc h h' h2 a =
      ensures_map (At n r c o p c o p) (λ acc'. (c < to + 1) × At n r c o p c o p acc')
        (for_range p1_done_step from to acc) (λ acc' q. q.1)
        (for_range_inv p1_done_step to (λ i acc'. (c < i) × At n r c o p c o p acc')
          (λ i acc' le q.
            ensures_map (λ acc2. (c < i + 1) × At n r c o p c o p acc2) (At n r c o p c o p)
              (p1_done_step i acc') (λ acc2 a2. (omega (arith, q.0), a2))
              (p1_done_step-At i acc' q.0 (omega arith) q.1))
          from acc (omega arith) (h, a))

  -- The answer to phase 1: the record has no command.
  phase1_answered-At :
      (stale : CommandId) (address : ℕ) (msg : Phase1Msg) (acc : Mcaster)
      → c < msg.inst_number
      → msg.inst_number ≤ p
      → At n r c o p c o p acc
      → (mir_of acc msg.inst_number).inst_number ≡ msg.inst_number
      → is_p1_pending (mir_of acc msg.inst_number).status ≡ true
      → Ensures (phase1_answered cfg stale address msg acc) (At n r c o p c o p)
  unfolding phase1_answered
  phase1_answered-At stale address msg acc h h' a e t =
      let i = msg.inst_number in
      let mir = mir_of acc i in
      let pre = pending-pre mir.status t in
      let hn : 0 < acc.msm.array_size = omega (arith, a.sized, b.sized, w.positive) in
      let hi : i ≤ c + acc.msm.array_size =
        omega (arith, h', a.sized, b.sized, b.counted, b.ahead, b.active, w.windows) in
      let higher = record mir { ballot = raise_ballot mir.ballot msg.highest_promised_ballot } in
      let same =
        λ (m : McasterRecord). update_same acc.msm.instances_array (i % acc.msm.array_size) m in
      ensures_if (At n r c o p c o p) (ltb msg.promises_count cfg.quorum_size) _ _
        (λ _. elim (Bool-cases (msg.highest_promised_ballot == 0)) [
          | inl z ↦ rw z (mcaster_do_phase1-At n r c o p c o p cfg i acc a stale hn h hi e pre)
          | inr z ↦ rw z (
              mcaster_do_phase1-At n r c o p c o p cfg i (put_mir i higher acc)
                (put-At n r c o p c o p cfg i acc a higher (
                  pre_write acc.msm.array_size acc.msm.instances_array c o p i higher hn h hi
                    a.slots e pre refl refl pre))
                stale hn h hi (ap McasterRecord.inst_number (same higher) ∙ e)
                (ap (λ (m : McasterRecord). is_pre m.status) (same higher) ∙ pre))
        ])
        (λ _.
          ensures_if (At n r c o p c o p) (mir.assigned_cmd_value == 0) _ _
            (λ _. put-At n r c o p c o p cfg i _ (recount-At 1 acc a) _ (
              pre_write acc.msm.array_size acc.msm.instances_array c o p i _ hn h hi a.slots e pre
                refl refl refl))
            (λ z.
              let v = slot-pre acc.msm.array_size c o p i _ _ _ (a.slots i h hi) e pre in
              absurd (ground (arith, v.2))))

module _ (cfg : McasterConfig) (w : IsConfig cfg) where
  pub mcaster_handle_phase1_range_msg-Inv :
      (msg : Phase1RangeMsg) (acc : Mcaster)
      → msg.from ≤ msg.to
      → msg.to ≤ acc.p1_highest_open
      → Inv cfg acc
      → Ensures (mcaster_handle_phase1_range_msg cfg msg acc) (Inv cfg)
  unfolding mcaster_handle_phase1_range_msg
  mcaster_handle_phase1_range_msg-Inv msg acc h h' v =
      let n = acc.msm.array_size in
      let r = acc.p1_ready_count in
      let c = acc.highest_closed_iid in
      let o = acc.highest_open_iid in
      let p = acc.p1_highest_open in
      let b = v.bounded in
      let count = plus32 (minus32 msg.to msg.from) 1 in
      let acc' = record acc { p1_ready_count = plus32 (minus32 r count) count } in
      ensures_if (Inv cfg)
        (not (is_my_ballot msg.ballot cfg.self_acceptor_id cfg.incarnation_number)) (some acc) _
        (λ _. v)
        λ _. ensures_assert (Inv cfg) (ltb c msg.from) _ λ lt.
          ensures_if (Inv cfg) (ltb msg.promises_count cfg.quorum_size) _ _
            (λ _.
              At-Inv cfg n r c o p (mcaster_do_phase1_range msg.from msg.to msg.ballot acc) b
                (send-At n r c o p c o p cfg msg.from acc (Inv-At cfg acc v) _))
            (λ _.
              ensures_map (Inv cfg) (At n r c o p c o p)
                (for_range p1_done_step msg.from msg.to acc')
                (λ acc2 a. At-Inv cfg n r c o p acc2 b a)
                (range_done-At cfg n r c o p b w msg.from msg.to acc' (ground arith) h h'
                  (recount-At cfg n r c o p b w count acc (Inv-At cfg acc v))))

  pub mcaster_handle_phase1_msg-Inv :
      (stale : CommandId) (address : ℕ) (msg : Phase1Msg) (acc : Mcaster)
      → msg.inst_number ≤ acc.p1_highest_open
      → Inv cfg acc
      → Ensures (mcaster_handle_phase1_msg cfg stale address msg acc) (Inv cfg)
  unfolding mcaster_handle_phase1_msg
  mcaster_handle_phase1_msg-Inv stale address msg acc h v =
      let i = msg.inst_number in
      let n = acc.msm.array_size in
      let r = acc.p1_ready_count in
      let c = acc.highest_closed_iid in
      let o = acc.highest_open_iid in
      let p = acc.p1_highest_open in
      let b = v.bounded in
      ensures_if (Inv cfg) (leb i c) (some acc) _ (λ _. v)
        λ gt.
          ensures_if (Inv cfg)
            (not (is_my_ballot msg.ballot cfg.self_acceptor_id cfg.incarnation_number)) (some acc) _
            (λ _. v)
            λ _.
              ensures_mir n r c o p c o p i acc (Inv-At cfg acc v) (Inv cfg) _
                (omega (arith, b.sized, w.positive)) (ground arith)
                (omega (arith, h, b.sized, b.counted, b.ahead, b.active, w.windows))
                λ acc' a e.
                  let v' = At-Inv cfg n r c o p acc' b a in
                  ensures_assert (Inv cfg) ((mir_of acc' i).inst_number == i) _ λ _.
                    ensures_if (Inv cfg) (not (is_p1_pending (mir_of acc' i).status)) (some acc') _
                      (λ _. v')
                      λ t.
                        ensures_if (Inv cfg) (not ((mir_of acc' i).ballot == msg.ballot))
                          (some acc') _ (λ _. v')
                          λ _.
                            ensures_map (Inv cfg) (At n r c o p c o p)
                              (phase1_answered cfg stale address msg acc')
                              (λ acc2 a2. At-Inv cfg n r c o p acc2 b a2)
                              (phase1_answered-At cfg n r c o p b w stale address msg acc'
                                (ground arith) h a e (not-false _ t))
