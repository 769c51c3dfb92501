-- ===== src/Ring/Acceptor/Phase2.antt =====
-- ring_paxos/ring-paxos/acceptor_helpers.c, `acceptor_handle_phase2_msg`.
pub mod Votes
pub mod Freed
use fds.Prelude.{
  ℕ, zero, suc, ◌+◌, ◌-◌, ◌%◌, ◌^◌, List, [], ◌∷◌, ◌++◌, Bool, true, false, ◌&&◌, not, Option, none,
  some, ltb, leb, ◌==◌, if◌then◌else◌, update, length, take, drop, ◌>>=◌, ◌>>◌, assert, is_some,
}
use fds.Ring.Types.{CommandId, cmd_key_equals, null_key}
use fds.Ring.Storage.{
  CommandPtr, null, slot, block, InstanceRecord, StableStorage, record_at, set_record,
  ssm_get_record,
}
use fds.Ring.Acceptor.State.{
  RingAcceptor, Phase1Msg, Phase1RangeMsg, Phase2Msg, Forward, forward_phase1, forward_phase1_range,
  forward_phase2, Handled, add_one, record_of, put_record, get_record, see_instance, read_cmd,
  write_slot, free_cmd, is_null, is_slot, same_ptr, strncmp_equal,
}

-- Edges A4 and A6: the command is accepted already.
unfoldable pub accept_again : Phase2Msg → RingAcceptor → Option RingAcceptor
unfolding free_cmd
accept_again msg acc =
    let ir = record_of acc msg.inst_number in
    if is_null ir.proposed_cmd
    then some acc
    else assert (not (cmd_key_equals msg.cmd_key ir.proposed_cmd_key))
      >> (assert (not (is_slot ir.proposed_cmd))
          >> (free_cmd ir.proposed_cmd acc >>= λ acc. some (
              put_record acc msg.inst_number (record ir {
                proposed_cmd_key = null_key;
                proposed_cmd = null;
                proposed_cmd_size = 0;
              }))))

-- Edge A2: no command was accepted before; the proposed one is in the slot.
unfoldable pub accept_first : Phase2Msg → RingAcceptor → Option RingAcceptor
accept_first msg acc =
    let ir = record_of acc msg.inst_number in
    assert (is_slot ir.proposed_cmd)
    >> some (
        put_record acc msg.inst_number (record ir {
          accepted_cmd_key = ir.proposed_cmd_key;
          accepted_cmd = ir.proposed_cmd;
          accepted_cmd_size = ir.proposed_cmd_size;
          proposed_cmd_key = null_key;
          proposed_cmd = null;
          proposed_cmd_size = 0;
        }))

-- Edge A8: the proposed command replaces the accepted one; its pointer is not reset.
unfoldable pub accept_other : Phase2Msg → RingAcceptor → Option RingAcceptor
unfolding read_cmd write_slot free_cmd
accept_other msg acc =
    let ir = record_of acc msg.inst_number in
    assert (
      not (is_null ir.accepted_cmd)
      && not (is_null ir.proposed_cmd)
      && not (same_ptr ir.accepted_cmd ir.proposed_cmd))
    >> (read_cmd acc msg.inst_number ir.proposed_cmd ir.proposed_cmd_size >>= λ bytes.
        free_cmd ir.proposed_cmd (write_slot acc msg.inst_number bytes) >>= λ acc. some (
          put_record acc msg.inst_number (record ir {
            accepted_cmd_size = ir.proposed_cmd_size;
            accepted_cmd_key = ir.proposed_cmd_key;
            proposed_cmd_size = 0;
            proposed_cmd_key = null_key;
          })))

-- The label `acceptor_p2_store_and_send`.
unfoldable pub store_and_send : Phase2Msg → RingAcceptor → Handled
store_and_send msg acc =
    let ir = record_of acc msg.inst_number in
    (
      put_record acc msg.inst_number
          (record ir { ballot = msg.ballot; accept_ballot = msg.ballot }),
      forward_phase2 (record msg { accepts_count = add_one msg.accepts_count }) ∷ [],
    )

-- The record that `ssm_get_command_slot` asks for once more is the one that has been found.
unfoldable pub acceptor_handle_phase2_msg : Phase2Msg → RingAcceptor → Option Handled
unfolding ssm_get_record
acceptor_handle_phase2_msg msg acc = get_record msg.inst_number acc >>= λ acc.
    let ir = record_of acc msg.inst_number in
    let is_proposed_cmd = cmd_key_equals msg.cmd_key ir.proposed_cmd_key in
    let is_accepted_cmd = cmd_key_equals msg.cmd_key ir.accepted_cmd_key in
    let seen = see_instance msg.inst_number acc in
    if ltb msg.ballot ir.ballot
    then some (acc, [])
    else assert (not (is_proposed_cmd && is_accepted_cmd))
      >> (if not is_accepted_cmd && not is_proposed_cmd
          then some (acc, [])
          else (if is_accepted_cmd
              then accept_again msg seen
              else (if is_null ir.accepted_cmd
                  then accept_first msg seen
                  else accept_other msg seen))
            >>= λ acc. some (store_and_send msg acc))
