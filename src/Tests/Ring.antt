-- ===== src/Tests/Ring.antt =====
-- The theorems on ring_paxos at concrete inputs.
use fds.Prelude.{
  ℕ, ◌≡◌, ◌<◌, ◌≤◌, ◌+◌, ◌*◌, ◌^◌, ◌⊎◌, refl, List, [], ◌∷◌, ◌++◌, map, Option, none, some, true,
  false, arith, update, length, All, Ensures, suc,
}
use fds.Ring.Types.{CommandId, null_key, cmd_key_equals}
use fds.Ring.Network.{
  Message, acceptance, map_request, UdpSender, udp_sender_init, send_all, max_udp_payload,
}
use fds.Ring.Network.Frames.{received_as}
use fds.Ring.Network.Round.{received_all, sendable, send_all-received}
use fds.Ring.Delivery.{Delivered, delivery_queue_init}
use fds.Ring.Delivery.Periodic.{DqEvent, missing_cmdmap, missing_acceptance, post_check}
use fds.Ring.Delivery.Loop.{stream}
use fds.Ring.Delivery.Found.{IsStalled}
use fds.Ring.Learner.{
  LearnerStep, packet, check, command_map_msg, acceptance_msg, other_msg, on_packet, on_steps,
  on_dq_events,
}
use fds.Ring.Learner.Stream.{on_steps-delivers, on_packet-progress, next_messages}
use fds.Ring.Learner.Asked.{missing_maps, missing_finals, asked_maps, asked_finals, IsSendable}
use fds.Ring.Learner.Requests.{on_dq_events_lem}
use fds.Ring.Storage.{slot, block, InstanceRecord, new_record}
use fds.Ring.Acceptor.State.{
  RingAcceptor, Phase1Msg, Phase1RangeMsg, Phase2Msg, forward_phase2, Handled, add_one, record_of,
}
use fds.Ring.Acceptor.Phase2.{acceptor_handle_phase2_msg}
use fds.Ring.Acceptor.Mapping.{CmdmapMsg, acceptor_handle_cmdmap_msg}
use fds.Ring.Acceptor.Dispatch.{predecessor_phase2, on_acceptor_msg}
use fds.Ring.Acceptor.Grows.{Moved}
use fds.Ring.Acceptor.Phase2.Votes.{IsAccepted}
use fds.Ring.Acceptor.Dispatch.Promises.{on_acceptor_msg-Grown}
use fds.Ring.Acceptor.Phase2.Freed.{phase2_replacing-frees_twice}
use fds.Ring.Acceptor.State.{forward_phase1, read_cmd}
use fds.Ring.Acceptor.Phase1.{
  acceptor_handle_phase1_msg, acceptor_handle_phase1_range_msg, phase1_of_range,
}
use fds.Ring.Acceptor.Phase1.Kept.{refused, promise_kept}
use fds.Ring.Queue.{LpQueue, queue_init}
use fds.Ring.Queue.Contents.{contents}
use fds.Ring.Queue.Trace.{QueueOp, append, prepend, pop, run_ops, list_ops, run_ops-list}
use fds.Ring.Ballot.{make_first_ballot, raise_ballot, is_my_ballot, raise_ballot_lem}

abbrev two_messages : List Message
two_messages =
    record { type = acceptance; payload = 1 ∷ 2 ∷ 3 ∷ []; stale0 = 0; stale1 = 7 }
    ∷ record { type = map_request; payload = []; stale0 = 9; stale1 = 0 }
    ∷ []

abbrev send_whole : List (List ℕ) → List ℕ → Option ℕ
send_whole before p = some (length p)

send_all-received_example :
    (us : UdpSender) × (send_all send_whole two_messages udp_sender_init ≡ some us)
    × (received_all us.sent ≡ map received_as (sendable two_messages))
    × All (λ p. length p ≤ max_udp_payload) us.sent
send_all-received_example = send_all-received send_whole (λ before p. refl) two_messages

-- The command that is chosen for an instance has the instance's number.
abbrev numbered_key : ℕ → CommandId
numbered_key i = record { mcaster_id = 1; mcaster_incarnation = 1; cmd_seqnum = i }

abbrev numbered_value : CommandId → List ℕ
numbered_value k = k.cmd_seqnum ∷ []

-- An acceptance before its mapping, a mapping that is not chosen, a check, and a message of another
-- type.
abbrev three_steps : List LearnerStep
three_steps =
    packet (acceptance_msg 2 (numbered_key 2) ∷ command_map_msg 1 (numbered_key 9) (9 ∷ []) ∷ [])
    ∷ check (record { tv_sec = 5; tv_usec = 0 })
    ∷ packet (
        other_msg
        ∷ command_map_msg 1 (numbered_key 1) (1 ∷ [])
        ∷ acceptance_msg 1 (numbered_key 1)
        ∷ [])
    ∷ []

on_steps-delivers_example :
    (r : Delivered) × (on_steps three_steps (delivery_queue_init 4) ≡ some r)
    × (r.1 ≡ stream numbered_key numbered_value 0 r.0.highest_delivered)
    × IsStalled r.0
on_steps-delivers_example =
    on_steps-delivers numbered_key numbered_value 4 three_steps (omega arith)
      ((refl, (refl, tt)), (tt, ((tt, (refl, (refl, tt))), tt)))

on_packet-progress_example :
    (r : Delivered) × (s : Delivered) × (more : ℕ) × (on_steps three_steps (delivery_queue_init 4)
      ≡ some r)
    × (on_packet (next_messages numbered_key numbered_value (r.0.highest_delivered + 1)) r.0
        ≡ some s)
    × (s.1 ≡ stream numbered_key numbered_value r.0.highest_delivered (suc more))
on_packet-progress_example =
    on_packet-progress numbered_key numbered_value 4 three_steps (omega arith)
      ((refl, (refl, tt)), (tt, ((tt, (refl, (refl, tt))), tt)))

abbrev three_missing : List DqEvent
three_missing = missing_cmdmap 3 ∷ missing_acceptance 3 ∷ missing_cmdmap 5 ∷ []

on_dq_events_lem_example :
    let r =
      on_dq_events
        (three_missing ++ post_check ∷ [])
        (record { missing_cmd_request_buf = []; missing_acc_request_buf = [] }) in
    (r.0 ≡ record { missing_cmd_request_buf = []; missing_acc_request_buf = [] })
    × (asked_maps r.1 ≡ missing_maps (three_missing ++ post_check ∷ []))
    × (asked_finals r.1 ≡ missing_finals (three_missing ++ post_check ∷ []))
    × All IsSendable r.1
on_dq_events_lem_example = on_dq_events_lem three_missing

-- Instance 3, with an accepted command in its slot and another one in the block at 8.
abbrev two_commands : InstanceRecord
two_commands = record {
  inst_number = 3;
  ballot = 65792;
  accept_ballot = 65792;
  accepted_cmd_key = numbered_key 1;
  accepted_cmd_size = 2;
  accepted_cmd = slot;
  proposed_cmd_key = numbered_key 2;
  proposed_cmd_size = 1;
  proposed_cmd = block 8;
}

abbrev acceptor_at_3 : RingAcceptor
acceptor_at_3 = record {
  ssm = record {
    size = 4;
    instances_array = update (λ j. new_record 0) 3 two_commands;
    commands_array = λ j. 5 ∷ 6 ∷ [];
  };
  heap = update (λ p. none) 8 (some (7 ∷ []));
  highest_instance_seen = 3;
}

abbrev vote_for_2 : Phase2Msg
vote_for_2 = record {
  inst_number = 3;
  ballot = 131328;
  accepts_count = 1;
  cmd_key = numbered_key 2;
}

abbrev empty_phase1 : Phase1Msg
empty_phase1 = record {
  inst_number = 0;
  ballot = 0;
  promises_count = 0;
  highest_accepted_ballot = 0;
  highest_promised_ballot = 0;
  cmd_key = null_key;
  cmd_value = [];
}

on_acceptor_msg-Grown_example :
    Ensures
      (on_acceptor_msg false empty_phase1 0 (predecessor_phase2 vote_for_2) acceptor_at_3)
      (Moved acceptor_at_3)
on_acceptor_msg-Grown_example =
    on_acceptor_msg-Grown false empty_phase1 0 (predecessor_phase2 vote_for_2) acceptor_at_3

abbrev map_of_4 : CmdmapMsg
map_of_4 = record { inst_number = 3; cmd_key = numbered_key 4; cmd_value = 1 ∷ [] }

different_keys : cmd_key_equals (numbered_key 2) (numbered_key 1) ≡ false
unfolding cmd_key_equals
different_keys = refl

key_2_not_null : cmd_key_equals (numbered_key 2) null_key ≡ false
unfolding cmd_key_equals
key_2_not_null = refl

key_4_other : cmd_key_equals (numbered_key 4) (numbered_key 2) ≡ false
unfolding cmd_key_equals
key_4_other = refl

key_4_not_null : cmd_key_equals (numbered_key 4) null_key ≡ false
unfolding cmd_key_equals
key_4_not_null = refl

phase2_replacing-frees_twice_example :
    (r : Handled) × (acceptor_handle_phase2_msg vote_for_2 acceptor_at_3 ≡ some r)
    × (r.1
        ≡ forward_phase2 (record vote_for_2 { accepts_count = add_one vote_for_2.accepts_count })
          ∷ [])
    × IsAccepted vote_for_2 (record_of r.0 3)
    × (acceptor_handle_phase2_msg vote_for_2 r.0 ≡ none)
    × (acceptor_handle_cmdmap_msg 0 map_of_4 r.0 ≡ none)
phase2_replacing-frees_twice_example =
    phase2_replacing-frees_twice vote_for_2 acceptor_at_3 8 (7 ∷ []) 0 map_of_4 (omega arith) refl
      (omega arith) refl refl refl refl different_keys key_2_not_null refl key_4_other
      key_4_not_null (omega arith)

mine : is_my_ballot 65794 1 2 ≡ true
unfolding is_my_ballot
mine = refl

raise_ballot_lem_example :
    (is_my_ballot (make_first_ballot 1 2) 1 2 ≡ true)
    × (is_my_ballot (raise_ballot 65794 131075) 1 2 ≡ true)
    × (raise_ballot 65794 131075 < 2 ^ 32)
    × ((131075 < raise_ballot 65794 131075)
        ⊎ ((65535 * 2 ^ 16 ≤ 131075) × (raise_ballot 65794 131075 < 2 ^ 16)))
raise_ballot_lem_example =
    raise_ballot_lem 1 2 65794 131075 (omega arith) (omega arith) (omega arith) mine

-- A queue of two that is filled, pushed over its end and emptied.
abbrev some_calls : List QueueOp
some_calls =
    append 11 4 9 true
    ∷ append 12 5 9 true
    ∷ append 13 6 9 true
    ∷ prepend 0 7 9 false
    ∷ pop
    ∷ pop
    ∷ pop
    ∷ []

run_ops-list_example :
    (q0 : LpQueue) × (q : LpQueue) × (queue_init 2 ≡ some q0)
    × (run_ops some_calls q0 ≡ some (q, (list_ops 2 some_calls []).1))
    × (contents q.queue q.max_count q.read_index q.queue_count ≡ (list_ops 2 some_calls []).0)
run_ops-list_example = run_ops-list 2 some_calls (omega arith)

abbrev prepare_3 : Phase1Msg
prepare_3 = record {
  inst_number = 3;
  ballot = 131328;
  promises_count = 1;
  highest_accepted_ballot = 0;
  highest_promised_ballot = 0;
  cmd_key = null_key;
  cmd_value = [];
}

accepted_at_3 : read_cmd acceptor_at_3 3 slot 2 ≡ some (5 ∷ 6 ∷ [])
unfolding read_cmd
accepted_at_3 = refl

abbrev lower_phase1 : Phase1Msg
lower_phase1 = record prepare_3 { ballot = 65792 }

abbrev lower_range : Phase1RangeMsg
lower_range = record { from = 3; to = 3; ballot = 65792; promises_count = 1 }

abbrev lower_vote : Phase2Msg
lower_vote = record vote_for_2 { ballot = 65792 }

promise_kept_example :
    (r : Handled) × (acceptor_handle_phase1_msg empty_phase1 prepare_3 acceptor_at_3 ≡ some r)
    × (acceptor_handle_phase1_msg empty_phase1 lower_phase1 r.0
        ≡ some (r.0, forward_phase1 (refused 131328 lower_phase1) ∷ []))
    × (acceptor_handle_phase1_range_msg empty_phase1 lower_range r.0
        ≡ some (r.0, forward_phase1 (refused 131328 (phase1_of_range lower_range 3)) ∷ []))
    × (acceptor_handle_phase2_msg lower_vote r.0 ≡ some (r.0, []))
promise_kept_example =
    promise_kept empty_phase1 prepare_3 acceptor_at_3 (5 ∷ 6 ∷ []) empty_phase1 lower_phase1
      lower_range lower_vote (omega arith) refl accepted_at_3 (omega arith) refl (omega arith) refl
      refl (omega arith) refl (omega arith)
