-- ===== src/Ring/Mcaster/Dropped.antt =====
-- ring_paxos/ring-paxos/acceptor_helpers_mcaster.c: what phase 1 returns for an instance, and the command
-- that is proposed there in phase 2.
use fds.Prelude.{
  ℕ, ◌+◌, ◌%◌, ◌≤◌, ◌<◌, ◌≡◌, ◌≢◌, refl, sym, ap, ap₂, ◌∙◌, true, false, arith, leb, ltb, ◌==◌,
  List, [], ◌∷◌, ◌++◌, some, update_same, append_assoc,
}
use fds.Ring.Types.{CommandId, timer_set_timeout}
use fds.Ring.Ballot.{is_my_ballot}
use fds.Ring.Acceptor.State.{Phase1Msg}
use fds.Ring.Queue.{LpQueue, QueueElement, cvm_get_next_value}
use fds.Ring.Mcaster.Storage.{
  p1_done, p1_pending, McasterConfig, McasterRecord, is_p1_pending, is_p1_done, create_value_key,
  read_value, mcaster_storage_assign_value, set_mir,
}
use fds.Ring.Mcaster.State.{
  Sent, mcast_command_map, mcast_phase2, Mcaster, mir_of, put_mir, plus32, minus32,
  mcaster_do_phase2, mcaster_broadcast_mapping,
}
use fds.Ring.Mcaster.Open.{begin_phase2, propose_value, open_p2_step}
use fds.Ring.Mcaster.Handlers.{phase1_answered, mcaster_handle_phase1_msg}
use fds.Ring.Mcaster.Get.{get_same}
use fds.Ring.Mcaster.At.{slot-pre, pending-pre}
use fds.Ring.Mcaster.Inv.{IsConfig, Inv}

-- The state after the answer.
abbrev pub answered : ℕ → Mcaster → Mcaster
answered i acc =
    put_mir i (record (mir_of acc i) { status = p1_done })
      (record acc { p1_ready_count = plus32 (minus32 acc.p1_ready_count 1) 1 })

-- An answer to phase 1 that counts: of the multicaster's own and last ballot, with a quorum of
-- promises, for an instance that waits for it.
pub record IsAnswer (cfg : McasterConfig) (msg : Phase1Msg) (acc : Mcaster) : Type 0 where
  pub above : acc.highest_closed_iid < msg.inst_number
  pub known : msg.inst_number ≤ acc.p1_highest_open
  pub mine : is_my_ballot msg.ballot cfg.self_acceptor_id cfg.incarnation_number ≡ true
  pub number : (mir_of acc msg.inst_number).inst_number ≡ msg.inst_number
  pub pending : (mir_of acc msg.inst_number).status ≡ p1_pending
  pub ballot : (mir_of acc msg.inst_number).ballot ≡ msg.ballot
  pub quorum : cfg.quorum_size ≤ msg.promises_count

-- The answer marks the instance, whatever command and accepted ballot it comes with.
answer_lem :
    (cfg : McasterConfig) (stale : CommandId) (address : ℕ) (msg : Phase1Msg) (acc : Mcaster)
    → IsConfig cfg
    → Inv cfg acc
    → IsAnswer cfg msg acc
    → ((mir_of acc msg.inst_number).assigned_cmd_value ≡ 0)
      × (mcaster_handle_phase1_msg cfg stale address msg acc ≡ some (answered msg.inst_number acc))
unfolding mcaster_handle_phase1_msg phase1_answered
answer_lem cfg stale address msg acc w v x =
    let i = msg.inst_number in
    let b = v.bounded in
    let z =
      slot-pre acc.msm.array_size acc.highest_closed_iid acc.highest_open_iid acc.p1_highest_open i
        _ _ _
        (v.slots i x.above
          (omega (arith, x.known, b.sized, b.counted, b.ahead, b.active, w.windows)))
        x.number (pending-pre (mir_of acc i).status (ap is_p1_pending x.pending)) in
    let t1 : leb i acc.highest_closed_iid ≡ false = ground (arith, x.above) in
    let t2 : ((mir_of acc i).inst_number == i) ≡ true = ground (arith, x.number) in
    let t3 = ap is_p1_pending x.pending in
    let t4 : ((mir_of acc i).ballot == msg.ballot) ≡ true = ground (arith, x.ballot) in
    let t5 : ltb msg.promises_count cfg.quorum_size ≡ false = ground (arith, x.quorum) in
    let t6 : ((mir_of acc i).assigned_cmd_value == 0) ≡ true = ground (arith, z.2) in
    (
      z.2,
      rw (t1, x.mine, get_same i acc.msm x.number (omega (arith, x.above)), t2, t3, t4, t5, t6)
          refl,
    )

-- The two messages of phase 2 for the record of an instance, with its command's bytes.
abbrev pub proposal : McasterRecord → List ℕ → List Sent
proposal mir value =
    mcast_command_map
      (record { inst_number = mir.inst_number; cmd_key = mir.assigned_cmd_key; cmd_value = value })
    ∷ mcast_phase2 (record {
      inst_number = mir.inst_number;
      ballot = mir.ballot;
      accepts_count = 0;
      cmd_key = mir.assigned_cmd_key;
    })
    ∷ []

begin_phase2-sent :
    (cfg : McasterConfig) (i : ℕ) (acc : Mcaster) (value : List ℕ)
    → read_value (mir_of acc i).assigned_cmd_value (mir_of acc i).assigned_cmd_size acc.msm
      ≡ some value
    → (acc' : Mcaster) × (begin_phase2 cfg i acc ≡ some (true, acc'))
      × (acc'.sent ≡ acc.sent ++ proposal (mir_of acc i) value)
unfolding begin_phase2 mcaster_broadcast_mapping mcaster_do_phase2
begin_phase2-sent cfg i acc value e =
    let mir = record (mir_of acc i) {
      repeat_cmdmap_timeout = timer_set_timeout acc.mcaster_clock cfg.retransmit_request_interval;
    } in
    rw e (
      _,
      refl,
      rw (update_same acc.msm.instances_array (i % acc.msm.array_size) mir)
          (append_assoc acc.sent _ _),
    )

-- The record of the instance, with a command of the queue.
abbrev given : McasterConfig → QueueElement → ℕ → McasterRecord → McasterRecord
given cfg e seq_number mir = record mir {
  assigned_cmd_value = e.address;
  assigned_cmd_size = e.size;
  assigned_cmd_key = (create_value_key cfg seq_number).0;
}

module _ (cfg : McasterConfig) (acc : Mcaster) (e : QueueElement) (cvm : LpQueue) (value : List ℕ)
    (popped : cvm_get_next_value acc.msm.cvm ≡ (some e, cvm))
    (bytes : read_value e.address e.size acc.msm ≡ some value) where
  -- The next instance, which has completed phase 1 and has no command, is given one.
  propose-sent :
      (mir_of acc (acc.highest_open_iid + 1)).inst_number ≡ acc.highest_open_iid + 1
      → (mir_of acc (acc.highest_open_iid + 1)).status ≡ p1_done
      → (mir_of acc (acc.highest_open_iid + 1)).assigned_cmd_value ≡ 0
      → (mir_of acc (acc.highest_open_iid + 1)).ballot ≢ 0
      → acc.highest_open_iid < acc.p1_highest_open
      → acc.p1_ready_count ≢ 0
      → (acc' : Mcaster) × (open_p2_step cfg acc ≡ some (true, acc'))
        × (acc'.sent
            ≡ acc.sent
              ++ proposal
                  (given cfg e acc.msm.seq_number (mir_of acc (acc.highest_open_iid + 1)))
                  value)
  unfolding open_p2_step propose_value mcaster_storage_assign_value read_value
  propose-sent n s z b lt r =
      let i = acc.highest_open_iid + 1 in
      let mir = given cfg e acc.msm.seq_number (mir_of acc i) in
      let same = update_same acc.msm.instances_array (i % acc.msm.array_size) mir in
      let t1 : ltb acc.p1_highest_open i ≡ false = ground arith in
      let t2 : (acc.p1_ready_count == 0) ≡ false = ground arith in
      let t3 : ((mir_of acc i).inst_number == i) ≡ true = ground arith in
      let t4 : is_p1_done (mir_of acc i).status ≡ true = ap is_p1_done s in
      let t5 : ((mir_of acc i).ballot == 0) ≡ false = ground arith in
      let t6 : ((mir_of acc i).assigned_cmd_value == 0) ≡ true = ground arith in
      let acc2 = record acc {
        msm = set_mir i mir (record acc.msm {
          cvm = cvm;
          seq_number = (create_value_key cfg acc.msm.seq_number).1;
        });
        p1_ready_count = minus32 acc.p1_ready_count 1;
      } in
      let (acc', run, sent) = begin_phase2-sent cfg i acc2 value (rw same bytes) in
      (
        acc',
        rw (t1, t2, get_same i acc.msm n (omega arith), t3, t4, t5, popped, t6) run,
        sent ∙ ap (λ m. acc.sent ++ proposal m value) same,
      )

-- Let the invariant hold, and let an answer to phase 1 that counts come for the next instance to open
-- in phase 2, whose ballot is not 0; let the clients' queue have a value, with its bytes. Whatever
-- ballot and command the acceptors report as accepted, the answer is handled, and the next step
-- that opens an instance in phase 2 proposes there, with the ballot of the answer, the client's
-- value under a new key.
pub accepted_command-dropped :
    (cfg : McasterConfig) (stale : CommandId) (address : ℕ) (msg : Phase1Msg) (acc : Mcaster)
    (e : QueueElement) (cvm : LpQueue) (value : List ℕ)
    → IsConfig cfg
    → Inv cfg acc
    → IsAnswer cfg msg acc
    → msg.inst_number ≡ acc.highest_open_iid + 1
    → msg.ballot ≢ 0
    → cvm_get_next_value acc.msm.cvm ≡ (some e, cvm)
    → read_value e.address e.size acc.msm ≡ some value
    → (acc1 : Mcaster) × (acc2 : Mcaster) × (mcaster_handle_phase1_msg cfg stale address msg acc
        ≡ some acc1)
      × (open_p2_step cfg acc1 ≡ some (true, acc2))
      × (acc2.sent
          ≡ acc.sent
            ++ mcast_command_map (record {
              inst_number = msg.inst_number;
              cmd_key = (create_value_key cfg acc.msm.seq_number).0;
              cmd_value = value;
            })
              ∷ mcast_phase2 (record {
                inst_number = msg.inst_number;
                ballot = msg.ballot;
                accepts_count = 0;
                cmd_key = (create_value_key cfg acc.msm.seq_number).0;
              })
              ∷ [])
unfolding read_value
accepted_command-dropped cfg stale address msg acc e cvm value w v x next nz popped bytes =
    let i = msg.inst_number in
    let (z, handled) = answer_lem cfg stale address msg acc w v x in
    let acc1 = answered i acc in
    let same =
      update_same acc.msm.instances_array (i % acc.msm.array_size)
        (record (mir_of acc i) { status = p1_done }) in
    let at = ap (λ (k : ℕ). mir_of acc1 k) (sym next) ∙ same in
    let (acc2, run, sent) =
      propose-sent cfg acc1 e cvm value popped bytes
        (ap McasterRecord.inst_number at ∙ x.number ∙ next) (ap McasterRecord.status at)
        (ap McasterRecord.assigned_cmd_value at ∙ z)
        (λ y. nz (sym x.ballot ∙ sym (ap McasterRecord.ballot at) ∙ y))
        (omega (arith, x.known, next))
        (λ y. omega (arith, y, x.known, next, v.bounded.counted, v.bounded.ahead, w.small)) in
    let messages = λ (n b : ℕ).
      acc.sent
      ++ mcast_command_map (record {
        inst_number = n;
        cmd_key = (create_value_key cfg acc.msm.seq_number).0;
        cmd_value = value;
      })
        ∷ mcast_phase2 (record {
          inst_number = n;
          ballot = b;
          accepts_count = 0;
          cmd_key = (create_value_key cfg acc.msm.seq_number).0;
        })
        ∷ [] in
    (
      acc1,
      acc2,
      handled,
      run,
      sent
          ∙ ap (λ m. acc.sent ++ proposal (given cfg e acc.msm.seq_number m) value) at
          ∙ ap₂ messages x.number x.ballot,
    )
