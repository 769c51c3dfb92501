-- ===== src/Ring/Acceptor/Mapping.antt =====
-- ring_paxos/ring-paxos/acceptor_helpers.c, `acceptor_handle_cmdmap_msg`.
pub mod Promises
use fds.Prelude.{
  ℕ, zero, suc, ◌+◌, ◌-◌, ◌%◌, ◌^◌, List, [], ◌∷◌, ◌++◌, Bool, true, false, ◌&&◌, not, Option, none,
  some, ltb, leb, ◌==◌, if◌then◌else◌, update, length, take, drop, ◌>>=◌, ◌>>◌, assert, is_some,
}
use fds.Ring.Types.{CommandId, cmd_key_equals, null_key}
use fds.Ring.Storage.{
  CommandPtr, null, slot, block, InstanceRecord, StableStorage, record_at, set_record,
  ssm_get_record,
}
use fds.Ring.Acceptor.State.{
  RingAcceptor, Phase1Msg, Phase1RangeMsg, Phase2Msg, Forward, forward_phase1, forward_phase1_range,
  forward_phase2, Handled, add_one, record_of, put_record, get_record, see_instance, read_cmd,
  write_slot, free_cmd, is_null, is_slot, same_ptr, strncmp_equal,
}

-- `cmdmap_msg`
pub record CmdmapMsg : Type 0 where
  pub inst_number : ℕ
  pub cmd_key : CommandId
  pub cmd_value : List ℕ

-- The contents at a pointer are those of the message, which are as long.
unfoldable pub same_command : RingAcceptor → CmdmapMsg → CommandPtr → ℕ → Option Bool
unfolding read_cmd strncmp_equal
same_command acc msg ptr size =
    if size == length msg.cmd_value
    then read_cmd acc msg.inst_number ptr size
      >>= (λ bytes. some (strncmp_equal bytes msg.cmd_value))
    else some false

-- Edges M4 and M6.
unfoldable pub map_accepted : CmdmapMsg → RingAcceptor → Option RingAcceptor
unfolding same_command free_cmd
map_accepted msg acc =
    let ir = record_of acc msg.inst_number in
    same_command acc msg ir.accepted_cmd ir.accepted_cmd_size >>= λ same.
    assert same
    >> (if is_null ir.proposed_cmd
        then some acc
        else assert (not (same_ptr ir.proposed_cmd ir.accepted_cmd))
          >> (free_cmd ir.proposed_cmd acc >>= λ acc. some (
              put_record acc msg.inst_number (record ir {
                proposed_cmd = null;
                proposed_cmd_size = 0;
                proposed_cmd_key = null_key;
              }))))

-- Edges M1 and M2.
unfoldable pub map_to_slot : CmdmapMsg → RingAcceptor → Option RingAcceptor
unfolding write_slot
map_to_slot msg acc =
    let ir = record_of acc msg.inst_number in
    assert (ir.accepted_cmd_size == 0)
    >> some (
        put_record (write_slot acc msg.inst_number msg.cmd_value) msg.inst_number (record ir {
          proposed_cmd = slot;
          proposed_cmd_size = length msg.cmd_value;
          proposed_cmd_key = msg.cmd_key;
        }))

-- The block that is allocated at `address` for a second mapping.
abbrev pub map_to_block : ℕ → CmdmapMsg → InstanceRecord → RingAcceptor → RingAcceptor
map_to_block address msg ir acc =
    put_record (record acc { heap = update acc.heap address (some msg.cmd_value) }) msg.inst_number
      (record ir {
        proposed_cmd = block address;
        proposed_cmd_size = length msg.cmd_value;
        proposed_cmd_key = msg.cmd_key;
      })

-- Edge M8.
unfoldable pub map_replacing : ℕ → CmdmapMsg → RingAcceptor → Option RingAcceptor
unfolding same_command free_cmd
map_replacing address msg acc =
    let ir = record_of acc msg.inst_number in
    same_command acc msg ir.proposed_cmd ir.proposed_cmd_size >>= λ same.
    assert (not same)
    >> (free_cmd ir.proposed_cmd acc >>= λ acc. some (map_to_block address msg ir acc))

unfoldable pub acceptor_handle_cmdmap_msg : ℕ → CmdmapMsg → RingAcceptor → Option RingAcceptor
unfolding ssm_get_record map_accepted map_to_slot map_replacing same_command
acceptor_handle_cmdmap_msg address msg acc = get_record msg.inst_number acc >>= λ acc.
    let ir = record_of acc msg.inst_number in
    if not (is_null ir.accepted_cmd) && cmd_key_equals msg.cmd_key ir.accepted_cmd_key
    then map_accepted msg acc
    else (if not (is_null ir.proposed_cmd) && cmd_key_equals msg.cmd_key ir.proposed_cmd_key
        then same_command acc msg ir.proposed_cmd ir.proposed_cmd_size
          >>= (λ same. assert same >> some acc)
        else (if is_null ir.accepted_cmd
            then map_to_slot msg acc
            else (if is_null ir.proposed_cmd
                then some (map_to_block address msg ir acc)
                else map_replacing address msg acc)))
