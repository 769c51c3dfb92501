-- ===== src/Ring/Acceptor/Phase1.antt =====
-- ring_paxos/ring-paxos/acceptor_helpers.c: phase 1, for one instance and for a range of them.
pub mod Promises
pub mod Branches
pub mod Kept
use fds.Prelude.{
  ℕ, zero, suc, ◌+◌, ◌-◌, ◌%◌, ◌^◌, List, [], ◌∷◌, ◌++◌, Bool, true, false, ◌&&◌, not, Option, none,
  some, ltb, leb, ◌==◌, if◌then◌else◌, update, length, take, drop, ◌>>=◌, ◌>>◌, assert, is_some,
}
use fds.Ring.Types.{CommandId, cmd_key_equals, null_key}
use fds.Ring.Storage.{
  CommandPtr, null, slot, block, InstanceRecord, StableStorage, record_at, set_record,
  ssm_get_record,
}
use fds.Ring.Acceptor.State.{
  RingAcceptor, Phase1Msg, Phase1RangeMsg, Phase2Msg, Forward, forward_phase1, forward_phase1_range,
  forward_phase2, Handled, add_one, record_of, put_record, get_record, see_instance, read_cmd,
  write_slot, free_cmd, is_null, is_slot, same_ptr, strncmp_equal,
}

-- `stale` is what `forward_buffer` holds before it is written. The `memcpy` of `sizeof(msg)` copies
-- as many bytes as a pointer has, which are those of `inst_number`.
unfoldable pub acceptor_handle_phase1_msg : Phase1Msg → Phase1Msg → RingAcceptor → Option Handled
unfolding ssm_get_record read_cmd
acceptor_handle_phase1_msg stale msg acc = get_record msg.inst_number acc >>= λ acc.
    let ir = record_of acc msg.inst_number in
    if ltb msg.ballot ir.ballot
    then some (
      acc,
      forward_phase1 (
            if ltb msg.highest_promised_ballot ir.ballot
            then record msg { highest_promised_ballot = ir.ballot }
            else msg)
          ∷ [],
    )
    else (let acc' =
          put_record (see_instance msg.inst_number acc) msg.inst_number
            (record ir { ballot = msg.ballot }) in
        let msg' = record msg { promises_count = add_one msg.promises_count } in
        if leb ir.accept_ballot msg.highest_accepted_ballot
        then some (acc', forward_phase1 msg' ∷ [])
        else read_cmd acc' msg.inst_number ir.accepted_cmd ir.accepted_cmd_size >>= λ value. some (
          acc',
          forward_phase1 (record stale {
            inst_number = msg.inst_number;
            highest_accepted_ballot = ir.accept_ballot;
            cmd_key = ir.accepted_cmd_key;
            cmd_value = value;
          })
              ∷ [],
        ))

-- A round of the loop of promises.
unfoldable pub promise_step : ℕ → ℕ → RingAcceptor → Option RingAcceptor
unfolding ssm_get_record
promise_step ballot i acc = get_record i acc >>= λ acc.
    let ir = record_of acc i in
    assert (ir.ballot == 0) >> some (put_record acc i (record ir { ballot = ballot }))

-- The loops from `i` on: `n` instances are left.
unfoldable pub promise_loop : ℕ → ℕ → ℕ → RingAcceptor → Option RingAcceptor
unfolding promise_step
promise_loop ballot zero i acc = some acc
promise_loop ballot (suc n) i acc =
    promise_step ballot i acc >>= λ acc. promise_loop ballot n (i + 1) acc

-- `p1_temp_msg`
abbrev pub phase1_of_range : Phase1RangeMsg → ℕ → Phase1Msg
phase1_of_range msg i = record {
  inst_number = i;
  ballot = msg.ballot;
  promises_count = msg.promises_count;
  highest_accepted_ballot = 0;
  highest_promised_ballot = 0;
  cmd_key = null_key;
  cmd_value = [];
}

unfoldable pub break_loop : Phase1Msg → Phase1RangeMsg → ℕ → ℕ → RingAcceptor → Option Handled
unfolding acceptor_handle_phase1_msg
break_loop stale msg zero i acc = some (acc, [])
break_loop stale msg (suc n) i acc =
    acceptor_handle_phase1_msg stale (phase1_of_range msg i) acc >>= λ r.
    break_loop stale msg n (i + 1) r.0 >>= λ s. some (s.0, r.1 ++ s.1)

unfoldable pub acceptor_handle_phase1_range_msg :
    Phase1Msg → Phase1RangeMsg → RingAcceptor → Option Handled
unfolding promise_loop break_loop
acceptor_handle_phase1_range_msg stale msg acc =
    let n = msg.to + 1 - msg.from in
    if ltb acc.highest_instance_seen msg.from
    then promise_loop msg.ballot n msg.from (record acc { highest_instance_seen = msg.to })
      >>= (λ acc. some (
        acc,
        forward_phase1_range (record msg { promises_count = add_one msg.promises_count }) ∷ [],
      ))
    else break_loop stale msg n msg.from acc
