-- ===== src/Ring/Mcaster/Handlers.antt =====
-- ring_paxos/ring-paxos/acceptor_helpers_mcaster.c: the handlers of messages, with the dispatch in
-- ring-paxos/acceptor_events.c for the multicaster.
-- A message comes with its fields read, and its size is right.
use fds.Prelude.{
  ℕ, zero, suc, ◌+◌, List, [], ◌∷◌, Bool, true, false, ◌&&◌, not, Option, some, ltb, leb, ◌==◌,
  if◌then◌else◌, length, ◌>>=◌, ◌>>◌, assert,
}
use fds.Ring.Types.{CommandId, cmd_key_equals, Timeval, timer_is_expired}
use fds.Ring.Ballot.{raise_ballot, is_my_ballot}
use fds.Ring.Acceptor.State.{Phase1Msg, Phase1RangeMsg, Phase2Msg}
use fds.Ring.Queue.{queue_append, cvm_save_value}
use fds.Ring.Mcaster.Storage.{
  p1_done, done, McasterConfig, is_p1_pending, is_p2_pending, is_done, run_effects,
  mcaster_storage_get, mcaster_storage_replace_assigned_value,
}
use fds.Ring.Mcaster.State.{
  Mcaster, mir_of, put_mir, with_storage, get_mir, plus32, minus32, for_range, mcaster_do_phase1,
  mcaster_do_phase1_range, mcaster_do_phase2, mcaster_broadcast_mapping,
  mcaster_broadcast_acceptance, mcaster_update_wallclock,
}
use fds.Ring.Mcaster.Open.{on_mcaster_periodic_check}

-- A round of the loop over the range.
unfoldable pub p1_done_step : ℕ → Mcaster → Option Mcaster
unfolding mcaster_storage_get
p1_done_step i acc = get_mir i acc >>= λ acc.
    let mir = mir_of acc i in
    assert ((mir.inst_number == i) && is_p1_pending mir.status)
    >> some (put_mir i (record mir { status = p1_done }) acc)

unfoldable pub mcaster_handle_phase1_range_msg :
    McasterConfig → Phase1RangeMsg → Mcaster → Option Mcaster
unfolding is_my_ballot p1_done_step for_range
mcaster_handle_phase1_range_msg cfg msg acc =
    if not (is_my_ballot msg.ballot cfg.self_acceptor_id cfg.incarnation_number)
    then some acc
    else assert (ltb acc.highest_closed_iid msg.from)
      >> (if ltb msg.promises_count cfg.quorum_size
          then some (mcaster_do_phase1_range msg.from msg.to msg.ballot acc)
          else (let count = plus32 (minus32 msg.to msg.from) 1 in
              let acc' = record acc {
                p1_ready_count = plus32 (minus32 acc.p1_ready_count count) count;
              } in
              for_range p1_done_step msg.from msg.to acc'))

-- Phase 2 with the command that phase 1 leaves, for a record that has a command.
unfoldable pub phase2_after_phase1 : McasterConfig → ℕ → ℕ → Phase1Msg → Mcaster → Option Mcaster
unfolding mcaster_do_phase2 cmd_key_equals mcaster_storage_replace_assigned_value
phase2_after_phase1 cfg address i msg acc =
    if msg.highest_accepted_ballot == 0
    then some (mcaster_do_phase2 cfg i acc)
    else (if cmd_key_equals (mir_of acc i).assigned_cmd_key msg.cmd_key
        then some (mcaster_do_phase2 cfg i acc)
        else mcaster_storage_replace_assigned_value address i msg.cmd_key msg.cmd_value acc.msm
          >>= λ msm. some (mcaster_do_phase2 cfg i (with_storage acc msm)))

-- The record of the instance is at hand, and waits for this ballot.
unfoldable pub phase1_answered :
    McasterConfig → CommandId → ℕ → Phase1Msg → Mcaster → Option Mcaster
unfolding raise_ballot mcaster_do_phase1 phase2_after_phase1
phase1_answered cfg stale address msg acc =
    let i = msg.inst_number in
    let mir = mir_of acc i in
    if ltb msg.promises_count cfg.quorum_size
    then mcaster_do_phase1 cfg stale i (
        if msg.highest_promised_ballot == 0
        then acc
        else put_mir i (record mir { ballot = raise_ballot mir.ballot msg.highest_promised_ballot })
            acc)
    else (let acc' =
          put_mir i (record mir { status = p1_done })
            (record acc { p1_ready_count = plus32 (minus32 acc.p1_ready_count 1) 1 }) in
        if mir.assigned_cmd_value == 0
        then some acc'
        else phase2_after_phase1 cfg address i msg acc')

unfoldable pub mcaster_handle_phase1_msg :
    McasterConfig → CommandId → ℕ → Phase1Msg → Mcaster → Option Mcaster
unfolding is_my_ballot mcaster_storage_get phase1_answered
mcaster_handle_phase1_msg cfg stale address msg acc =
    if leb msg.inst_number acc.highest_closed_iid
    then some acc
    else (if not (is_my_ballot msg.ballot cfg.self_acceptor_id cfg.incarnation_number)
        then some acc
        else get_mir msg.inst_number acc >>= λ acc.
            let mir = mir_of acc msg.inst_number in
            assert (mir.inst_number == msg.inst_number)
            >> (if not (is_p1_pending mir.status)
                then some acc
                else (if not (mir.ballot == msg.ballot)
                    then some acc
                    else phase1_answered cfg stale address msg acc)))

-- The `while` loop: `n` rounds are left, and `mir` is the record of instance `i`.
unfoldable pub close_rounds : ℕ → ℕ → Mcaster → Option Mcaster
unfolding mcaster_storage_get
close_rounds zero i acc = some acc
close_rounds (suc n) i acc =
    let mir = mir_of acc i in
    elim (is_done mir.status && (mir.inst_number == acc.highest_closed_iid + 1)) [
      | true ↦
          let next = acc.highest_closed_iid + 2 in
          get_mir next (record acc { highest_closed_iid = acc.highest_closed_iid + 1 }) >>= λ acc.
          assert ((mir_of acc next).inst_number == next) >> close_rounds n next acc
      | false ↦ some acc
    ]

-- The record of the instance is at hand, and its ballot and key are those of the message.
unfoldable pub phase2_answered : McasterConfig → Phase2Msg → Mcaster → Option Mcaster
unfolding mcaster_broadcast_mapping mcaster_do_phase2 mcaster_broadcast_acceptance close_rounds
phase2_answered cfg msg acc =
    let i = msg.inst_number in
    if ltb msg.accepts_count cfg.quorum_size
    then mcaster_broadcast_mapping cfg i acc >>= (λ acc. some (mcaster_do_phase2 cfg i acc))
    else mcaster_broadcast_acceptance i (put_mir i (record (mir_of acc i) { status = done }) acc)
      >>= λ acc. close_rounds (suc acc.msm.array_size) i acc

unfoldable pub mcaster_handle_phase2_msg : McasterConfig → Phase2Msg → Mcaster → Option Mcaster
unfolding mcaster_storage_get cmd_key_equals phase2_answered
mcaster_handle_phase2_msg cfg msg acc =
    if leb msg.inst_number acc.highest_closed_iid
    then some acc
    else get_mir msg.inst_number acc >>= λ acc.
        let mir = mir_of acc msg.inst_number in
        assert (mir.inst_number == msg.inst_number)
        >> (if not (is_p2_pending mir.status)
            then some acc
            else (if not (mir.ballot == msg.ballot)
                then some acc
                else assert (cmd_key_equals mir.assigned_cmd_key msg.cmd_key)
                  >> phase2_answered cfg msg acc))

unfoldable pub map_request_step : McasterConfig → ℕ → Mcaster → Option Mcaster
unfolding mcaster_storage_get timer_is_expired mcaster_broadcast_mapping
map_request_step cfg i acc = get_mir i acc >>= λ acc.
    assert ((mir_of acc i).inst_number == i)
    >> (if timer_is_expired (mir_of acc i).repeat_cmdmap_timeout acc.mcaster_clock
        then mcaster_broadcast_mapping cfg i acc
        else some acc)

-- The instances of a `map_requests_msg`.
unfoldable pub mcaster_handle_map_request : McasterConfig → List ℕ → Mcaster → Option Mcaster
unfolding map_request_step
mcaster_handle_map_request cfg [] acc = some acc
mcaster_handle_map_request cfg (i ∷ is) acc =
    map_request_step cfg i acc >>= mcaster_handle_map_request cfg is

unfoldable pub chosenval_request_step : ℕ → Mcaster → Option Mcaster
unfolding mcaster_storage_get mcaster_broadcast_acceptance
chosenval_request_step i acc = get_mir i acc >>= λ acc.
    assert ((mir_of acc i).inst_number == i)
    >> (if is_done (mir_of acc i).status then mcaster_broadcast_acceptance i acc else some acc)

-- The instances of a `chosencmd_requests_msg`.
unfoldable pub mcaster_handle_chosenval_request : List ℕ → Mcaster → Option Mcaster
unfolding chosenval_request_step
mcaster_handle_chosenval_request [] acc = some acc
mcaster_handle_chosenval_request (i ∷ is) acc =
    chosenval_request_step i acc >>= mcaster_handle_chosenval_request is

-- A copy of the value at `address` is queued; `cmd_value` is a pointer into the message, whose bytes
-- are `bytes`. The Boolean is whether the value is taken.
unfoldable pub mcaster_handle_value_submit : ℕ → ℕ → List ℕ → Mcaster → Option (Bool × Mcaster)
unfolding queue_append run_effects
mcaster_handle_value_submit address cmd_value bytes acc =
    let saved = cvm_save_value address cmd_value (length bytes) acc.msm.cvm in
    run_effects bytes saved.2 (record acc.msm { cvm = saved.1 }) >>= λ msm.
    some (saved.0, with_storage acc msm)

-- What makes the multicaster act: a message from its predecessor or a learner, with the clock that
-- is read before it, a value of a client, the periodic check.
pub data McasterEvent : Type 0 where
  clock_read : Timeval → McasterEvent
  predecessor_phase1 : CommandId → ℕ → Phase1Msg → McasterEvent
  predecessor_phase1_range : Phase1RangeMsg → McasterEvent
  predecessor_phase2 : Phase2Msg → McasterEvent
  map_requested : List ℕ → McasterEvent
  chosenval_requested : List ℕ → McasterEvent
  value_submitted : ℕ → ℕ → List ℕ → McasterEvent
  periodic_check : CommandId → Timeval → Timeval → Timeval → McasterEvent

-- `on_predecessor_msg` of the multicaster, and its other callbacks.
unfoldable pub on_mcaster_event : McasterConfig → McasterEvent → Mcaster → Option Mcaster
unfolding mcaster_handle_phase1_msg mcaster_handle_phase1_range_msg mcaster_handle_phase2_msg
    mcaster_handle_map_request mcaster_handle_chosenval_request mcaster_handle_value_submit
    on_mcaster_periodic_check
on_mcaster_event cfg (clock_read now) acc = some (mcaster_update_wallclock now acc)
on_mcaster_event cfg (predecessor_phase1 stale address msg) acc =
    mcaster_handle_phase1_msg cfg stale address msg acc
on_mcaster_event cfg (predecessor_phase1_range msg) acc =
    mcaster_handle_phase1_range_msg cfg msg acc
on_mcaster_event cfg (predecessor_phase2 msg) acc = mcaster_handle_phase2_msg cfg msg acc
on_mcaster_event cfg (map_requested is) acc = mcaster_handle_map_request cfg is acc
on_mcaster_event cfg (chosenval_requested is) acc = mcaster_handle_chosenval_request is acc
on_mcaster_event cfg (value_submitted address cmd_value bytes) acc =
    mcaster_handle_value_submit address cmd_value bytes acc >>= λ r. some r.1
on_mcaster_event cfg (periodic_check stale t1 t2 t3) acc =
    on_mcaster_periodic_check cfg stale t1 t2 t3 acc
