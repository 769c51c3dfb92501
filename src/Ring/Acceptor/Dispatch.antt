-- ===== src/Ring/Acceptor/Dispatch.antt =====
-- ring_paxos/ring-paxos/acceptor_events.c: the messages that reach an acceptor.
pub mod Promises
use fds.Prelude.{
  ℕ, zero, suc, ◌+◌, ◌-◌, ◌%◌, ◌^◌, List, [], ◌∷◌, ◌++◌, Bool, true, false, ◌&&◌, not, Option, none,
  some, ltb, leb, ◌==◌, if◌then◌else◌, update, length, take, drop, ◌>>=◌, ◌>>◌, assert, is_some,
}
use fds.Ring.Types.{CommandId, cmd_key_equals, null_key}
use fds.Ring.Storage.{
  CommandPtr, null, slot, block, InstanceRecord, StableStorage, record_at, set_record,
  ssm_get_record,
}
use fds.Ring.Acceptor.State.{
  RingAcceptor, Phase1Msg, Phase1RangeMsg, Phase2Msg, Forward, forward_phase1, forward_phase1_range,
  forward_phase2, Handled, add_one, record_of, put_record, get_record, see_instance, read_cmd,
  write_slot, free_cmd, is_null, is_slot, same_ptr, strncmp_equal,
}
use fds.Ring.Acceptor.Phase1.{
  acceptor_handle_phase1_msg, promise_step, promise_loop, phase1_of_range, break_loop,
  acceptor_handle_phase1_range_msg,
}
use fds.Ring.Acceptor.Phase2.{
  accept_again, accept_first, accept_other, store_and_send, acceptor_handle_phase2_msg,
}
use fds.Ring.Acceptor.Mapping.{
  CmdmapMsg, same_command, map_accepted, map_to_slot, map_to_block, map_replacing,
  acceptor_handle_cmdmap_msg,
}

-- What reaches an acceptor, from its predecessor and by multicast.
pub data AcceptorMsg : Type 0 where
  predecessor_phase1 : Phase1Msg → AcceptorMsg
  predecessor_phase1_range : Phase1RangeMsg → AcceptorMsg
  predecessor_phase2 : Phase2Msg → AcceptorMsg
  multicast_cmdmap : CmdmapMsg → AcceptorMsg
  multicast_acceptance : ℕ → CommandId → AcceptorMsg
  multicast_phase2 : Phase2Msg → AcceptorMsg

-- `on_predecessor_msg` and `on_multicast_msg` of an acceptor that is not the multicaster.
-- `ssm_save_delivered_value` has an empty body, so an acceptance has no effect.
unfoldable pub on_acceptor_msg : Bool → Phase1Msg → ℕ → AcceptorMsg → RingAcceptor → Option Handled
unfolding acceptor_handle_phase1_msg acceptor_handle_phase1_range_msg acceptor_handle_phase2_msg
    acceptor_handle_cmdmap_msg
on_acceptor_msg first_in_ring stale address (predecessor_phase1 msg) acc =
    acceptor_handle_phase1_msg stale msg acc
on_acceptor_msg first_in_ring stale address (predecessor_phase1_range msg) acc =
    acceptor_handle_phase1_range_msg stale msg acc
on_acceptor_msg first_in_ring stale address (predecessor_phase2 msg) acc =
    acceptor_handle_phase2_msg msg acc
on_acceptor_msg first_in_ring stale address (multicast_cmdmap msg) acc =
    acceptor_handle_cmdmap_msg address msg acc >>= λ acc. some (acc, [])
on_acceptor_msg first_in_ring stale address (multicast_acceptance i key) acc = some (acc, [])
on_acceptor_msg first_in_ring stale address (multicast_phase2 msg) acc =
    if first_in_ring then acceptor_handle_phase2_msg msg acc else some (acc, [])
