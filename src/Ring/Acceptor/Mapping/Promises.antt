-- ===== src/Ring/Acceptor/Mapping/Promises.antt =====
-- ring_paxos/ring-paxos/acceptor_helpers.c: the promises under mappings of commands.
use fds.Prelude.{
  ℕ, refl, some, arith, ◌==◌, ◌&&◌, not, update, Ensures, ensures_if, ensures_bind, ensures_assert,
  ensures_after, ensures_map,
}
use fds.Ring.Types.{cmd_key_equals}
use fds.Ring.Acceptor.State.{RingAcceptor, record_of, write_slot, is_null, same_ptr}
use fds.Ring.Acceptor.Mapping.{
  CmdmapMsg, same_command, map_accepted, map_to_slot, map_to_block, map_replacing,
  acceptor_handle_cmdmap_msg,
}
use fds.Ring.Acceptor.Grows.{
  Grown, Grown-refl, Grown-trans, get_record-Grown, Found, SameRecords, free_cmd-SameRecords,
  put_after-Grown,
}

map_accepted-Grown :
    (msg : CmdmapMsg) (acc : RingAcceptor) → Ensures (map_accepted msg acc) (Grown acc)
unfolding map_accepted
map_accepted-Grown msg acc =
    let ir = record_of acc msg.inst_number in
    ensures_after (Grown acc) (same_command acc msg ir.accepted_cmd ir.accepted_cmd_size) _ (λ same.
      ensures_assert (Grown acc) same _ (λ _.
        ensures_if (Grown acc) (is_null ir.proposed_cmd) _ _ (λ _. Grown-refl acc)
          (λ _. ensures_assert (Grown acc) (not (same_ptr ir.proposed_cmd ir.accepted_cmd)) _ (λ _.
            ensures_bind (Grown acc) (SameRecords acc) _ _
              (free_cmd-SameRecords ir.proposed_cmd acc)
              (λ acc1 e.
                put_after-Grown acc acc1 msg.inst_number _ e refl (omega arith) (λ h. h))))))

map_to_slot-Grown :
    (msg : CmdmapMsg) (acc : RingAcceptor) → Ensures (map_to_slot msg acc) (Grown acc)
unfolding map_to_slot write_slot
map_to_slot-Grown msg acc =
    ensures_assert (Grown acc) ((record_of acc msg.inst_number).accepted_cmd_size == 0) _ (λ _.
      put_after-Grown acc (write_slot acc msg.inst_number msg.cmd_value) msg.inst_number _
        (refl, refl) refl (omega arith) (λ h. h))

map_to_block-Grown :
    (address : ℕ) (msg : CmdmapMsg) (acc acc' : RingAcceptor)
    → SameRecords acc acc'
    → Grown acc (map_to_block address msg (record_of acc msg.inst_number) acc')
map_to_block-Grown address msg acc acc' e =
    put_after-Grown acc (record acc' { heap = update acc'.heap address (some msg.cmd_value) })
      msg.inst_number _ e refl (omega arith) (λ h. h)

map_replacing-Grown :
    (address : ℕ) (msg : CmdmapMsg) (acc : RingAcceptor)
    → Ensures (map_replacing address msg acc) (Grown acc)
unfolding map_replacing
map_replacing-Grown address msg acc =
    let ir = record_of acc msg.inst_number in
    ensures_after (Grown acc) (same_command acc msg ir.proposed_cmd ir.proposed_cmd_size) _ (λ same.
      ensures_assert (Grown acc) (not same) _ (λ _.
        ensures_bind (Grown acc) (SameRecords acc) _ _ (free_cmd-SameRecords ir.proposed_cmd acc)
          (map_to_block-Grown address msg acc)))

pub cmdmap-Grown :
    (address : ℕ) (msg : CmdmapMsg) (acc : RingAcceptor)
    → Ensures (acceptor_handle_cmdmap_msg address msg acc) (Grown acc)
unfolding acceptor_handle_cmdmap_msg
cmdmap-Grown address msg acc =
    ensures_bind (Grown acc) (Found msg.inst_number acc) _ _ (get_record-Grown msg.inst_number acc)
      (λ acc1 g.
        let ir = record_of acc1 msg.inst_number in
        let after : (acc2 : RingAcceptor) → Grown acc1 acc2 → Grown acc acc2 =
          λ acc2 h. Grown-trans g.0 h in
        ensures_if (Grown acc)
          (not (is_null ir.accepted_cmd) && cmd_key_equals msg.cmd_key ir.accepted_cmd_key) _ _
          (λ _. ensures_map (Grown acc) (Grown acc1) _ after (map_accepted-Grown msg acc1))
          (λ _.
            ensures_if (Grown acc)
              (not (is_null ir.proposed_cmd) && cmd_key_equals msg.cmd_key ir.proposed_cmd_key) _ _
              (λ _.
                ensures_after (Grown acc)
                  (same_command acc1 msg ir.proposed_cmd ir.proposed_cmd_size) _
                  (λ same. ensures_assert (Grown acc) same _ (λ _. g.0)))
              (λ _.
                ensures_if (Grown acc) (is_null ir.accepted_cmd) _ _
                  (λ _. ensures_map (Grown acc) (Grown acc1) _ after (map_to_slot-Grown msg acc1))
                  (λ _.
                    ensures_if (Grown acc) (is_null ir.proposed_cmd) _ _
                      (λ _. after _ (map_to_block-Grown address msg acc1 acc1 (refl, refl)))
                      (λ _.
                        ensures_map (Grown acc) (Grown acc1) _ after
                          (map_replacing-Grown address msg acc1))))))
