-- ===== src/Ring/Acceptor/Phase2/Freed.antt =====
-- ring_paxos/ring-paxos/acceptor_helpers.c: the memory of commands at the edge A8 of phase 2.
use fds.Prelude.{
  ℕ, ◌%◌, ◌≤◌, ◌<◌, ◌≡◌, refl, sym, ap, ◌∙◌, subst, false, some, none, arith, ltb, ◌==◌, List, [],
  ◌∷◌, update_same, length,
}
use fds.Ring.Types.{null_key, cmd_key_equals, cmd_key_equals_refl}
use fds.Ring.Storage.{slot, block, InstanceRecord}
use fds.Ring.Acceptor.State.{
  RingAcceptor, Phase2Msg, forward_phase2, Handled, add_one, record_of, put_record, see_instance,
  read_cmd, write_slot, free_cmd,
}
use fds.Ring.Acceptor.Phase2.{
  accept_again, accept_other, store_and_send, acceptor_handle_phase2_msg,
}
use fds.Ring.Acceptor.Mapping.{CmdmapMsg, same_command, map_replacing, acceptor_handle_cmdmap_msg}
use fds.Ring.Acceptor.Grows.{get_record-same}
use fds.Ring.Acceptor.Phase2.Votes.{IsAccepted}

-- The proposed command's pointer is of a block that was freed; its key was cleared.
record IsDangling (acc : RingAcceptor) (i p : ℕ) : Type 0 where
  number : (record_of acc i).inst_number ≡ i
  pointer : (record_of acc i).proposed_cmd ≡ block p
  cleared : (record_of acc i).proposed_cmd_key ≡ null_key
  emptied : (record_of acc i).proposed_cmd_size ≡ 0
  accepted : (record_of acc i).accepted_cmd ≡ slot
  freed : acc.heap p ≡ none

dangling-phase2 :
    (msg : Phase2Msg) (acc : RingAcceptor) (p : ℕ)
    → 0 < msg.inst_number
    → IsDangling acc msg.inst_number p
    → (record_of acc msg.inst_number).ballot ≤ msg.ballot
    → (record_of acc msg.inst_number).accepted_cmd_key ≡ msg.cmd_key
    → cmd_key_equals msg.cmd_key null_key ≡ false
    → acceptor_handle_phase2_msg msg acc ≡ none
unfolding acceptor_handle_phase2_msg accept_again free_cmd
dangling-phase2 msg acc p pos d b k nn =
    let le : ltb msg.ballot (record_of acc msg.inst_number).ballot ≡ false = ground arith in
    rw
      (
        get_record-same msg.inst_number acc pos d.number,
        le,
        k,
        cmd_key_equals_refl msg.cmd_key,
        d.cleared,
        nn,
        d.pointer,
        d.freed,
      )
      refl

dangling-cmdmap :
    (address : ℕ) (msg : CmdmapMsg) (acc : RingAcceptor) (p : ℕ)
    → 0 < msg.inst_number
    → IsDangling acc msg.inst_number p
    → cmd_key_equals msg.cmd_key (record_of acc msg.inst_number).accepted_cmd_key ≡ false
    → cmd_key_equals msg.cmd_key null_key ≡ false
    → 0 < length msg.cmd_value
    → acceptor_handle_cmdmap_msg address msg acc ≡ none
unfolding acceptor_handle_cmdmap_msg map_replacing same_command free_cmd
dangling-cmdmap address msg acc p pos d k nn long =
    let e : (0 == length msg.cmd_value) ≡ false = ground arith in
    rw
      (
        get_record-same msg.inst_number acc pos d.number,
        d.accepted,
        k,
        d.cleared,
        nn,
        d.pointer,
        d.emptied,
        e,
        d.freed,
      )
      refl

put-IsDangling :
    (acc : RingAcceptor) (i p : ℕ) (ir : InstanceRecord)
    → ir.inst_number ≡ i
    → ir.proposed_cmd ≡ block p
    → ir.proposed_cmd_key ≡ null_key
    → ir.proposed_cmd_size ≡ 0
    → ir.accepted_cmd ≡ slot
    → acc.heap p ≡ none
    → IsDangling (put_record acc i ir) i p
put-IsDangling acc i p ir n d k z a f =
    let place = update_same acc.ssm.instances_array (i % acc.ssm.size) ir in
    record {
      number = ap (λ r. r.inst_number) place ∙ n;
      pointer = ap (λ r. r.proposed_cmd) place ∙ d;
      cleared = ap (λ r. r.proposed_cmd_key) place ∙ k;
      emptied = ap (λ r. r.proposed_cmd_size) place ∙ z;
      accepted = ap (λ r. r.accepted_cmd) place ∙ a;
      freed = f;
    }

accept_other-IsDangling :
    (msg : Phase2Msg) (acc : RingAcceptor) (p : ℕ) (bytes : List ℕ)
    → (record_of acc msg.inst_number).inst_number ≡ msg.inst_number
    → (record_of acc msg.inst_number).accepted_cmd ≡ slot
    → (record_of acc msg.inst_number).proposed_cmd ≡ block p
    → acc.heap p ≡ some bytes
    → (record_of acc msg.inst_number).proposed_cmd_key ≡ msg.cmd_key
    → (acc' : RingAcceptor) × (accept_other msg acc ≡ some acc')
      × IsDangling acc' msg.inst_number p
      × ((record_of acc' msg.inst_number).accepted_cmd_key ≡ msg.cmd_key)
unfolding accept_other read_cmd free_cmd write_slot
accept_other-IsDangling msg acc p bytes n a d h k =
    rw (a, d, h)
      (
        _,
        refl,
        put-IsDangling _ msg.inst_number p _ n refl refl refl refl (update_same acc.heap p none),
        ap (λ r. r.accepted_cmd_key)
              (update_same acc.ssm.instances_array (msg.inst_number % acc.ssm.size) _)
            ∙ k,
      )

store_and_send-IsDangling :
    (msg : Phase2Msg) (acc : RingAcceptor) (p : ℕ)
    → IsDangling acc msg.inst_number p
    → IsDangling (store_and_send msg acc).0 msg.inst_number p
unfolding store_and_send
store_and_send-IsDangling msg acc p d =
    put-IsDangling acc msg.inst_number p _ d.number d.pointer d.cleared d.emptied d.accepted d.freed

store_and_send-IsAccepted :
    (msg : Phase2Msg) (acc : RingAcceptor)
    → (record_of acc msg.inst_number).inst_number ≡ msg.inst_number
    → (record_of acc msg.inst_number).accepted_cmd_key ≡ msg.cmd_key
    → IsAccepted msg (record_of (store_and_send msg acc).0 msg.inst_number)
unfolding store_and_send
store_and_send-IsAccepted msg acc n k =
    let place =
      update_same acc.ssm.instances_array (msg.inst_number % acc.ssm.size)
        (record (record_of acc msg.inst_number) {
          ballot = msg.ballot;
          accept_ballot = msg.ballot;
        }) in
    record {
      instance_number = ap (λ r. r.inst_number) place ∙ n;
      promised = ap (λ r. r.ballot) place;
      accepted = ap (λ r. r.accept_ballot) place;
      key = ap (λ r. r.accepted_cmd_key) place ∙ k;
    }

store_and_send-forward :
    (msg : Phase2Msg) (acc : RingAcceptor)
    → (store_and_send msg acc).1
      ≡ forward_phase2 (record msg { accepts_count = add_one msg.accepts_count }) ∷ []
unfolding store_and_send
store_and_send-forward msg acc = refl

cong_key :
    (next : CmdmapMsg) (msg : Phase2Msg) (acc : RingAcceptor)
    → next.inst_number ≡ msg.inst_number
    → (record_of acc msg.inst_number).accepted_cmd_key ≡ msg.cmd_key
    → cmd_key_equals next.cmd_key msg.cmd_key ≡ false
    → cmd_key_equals next.cmd_key (record_of acc next.inst_number).accepted_cmd_key ≡ false
cong_key next msg acc same k other = rw (same, k) other

-- Where an acceptor holds an accepted command in the slot and another one, allocated at `p`, as
-- proposed, a phase 2 message for the proposed key, which is not null, at a ballot that is not
-- below the promise is accepted and forwarded. After that the same message again, and a mapping
-- for the instance of a command that is not empty with another key that is not null, stop the
-- acceptor: each frees the block at `p` a second time.
pub phase2_replacing-frees_twice :
    (msg : Phase2Msg) (acc : RingAcceptor) (p : ℕ) (bytes : List ℕ) (address : ℕ) (next : CmdmapMsg)
    → 0 < msg.inst_number
    → (record_of acc msg.inst_number).inst_number ≡ msg.inst_number
    → (record_of acc msg.inst_number).ballot ≤ msg.ballot
    → (record_of acc msg.inst_number).accepted_cmd ≡ slot
    → (record_of acc msg.inst_number).proposed_cmd ≡ block p
    → acc.heap p ≡ some bytes
    → (record_of acc msg.inst_number).proposed_cmd_key ≡ msg.cmd_key
    → cmd_key_equals msg.cmd_key (record_of acc msg.inst_number).accepted_cmd_key ≡ false
    → cmd_key_equals msg.cmd_key null_key ≡ false
    → next.inst_number ≡ msg.inst_number
    → cmd_key_equals next.cmd_key msg.cmd_key ≡ false
    → cmd_key_equals next.cmd_key null_key ≡ false
    → 0 < length next.cmd_value
    → (r : Handled) × (acceptor_handle_phase2_msg msg acc ≡ some r)
      × (r.1 ≡ forward_phase2 (record msg { accepts_count = add_one msg.accepts_count }) ∷ [])
      × IsAccepted msg (record_of r.0 msg.inst_number)
      × (acceptor_handle_phase2_msg msg r.0 ≡ none)
      × (acceptor_handle_cmdmap_msg address next r.0 ≡ none)
unfolding acceptor_handle_phase2_msg
phase2_replacing-frees_twice msg acc p bytes address next pos n b a d h k other nn same kn kz long =
    let (acc2, run, dangling, key) =
      accept_other-IsDangling msg (see_instance msg.inst_number acc) p bytes n a d h k in
    let le : ltb msg.ballot (record_of acc msg.inst_number).ballot ≡ false = ground arith in
    let done : acceptor_handle_phase2_msg msg acc ≡ some (store_and_send msg acc2) =
      rw
        (
          get_record-same msg.inst_number acc pos n,
          le,
          k,
          cmd_key_equals_refl msg.cmd_key,
          other,
          run,
          a,
        )
        refl in
    let after = store_and_send-IsDangling msg acc2 p dangling in
    let voted = store_and_send-IsAccepted msg acc2 dangling.number key in
    (
      store_and_send msg acc2,
      done,
      store_and_send-forward msg acc2,
      voted,
      dangling-phase2 msg (store_and_send msg acc2).0 p pos after (omega (arith, voted.promised))
          voted.key nn,
      dangling-cmdmap address next (store_and_send msg acc2).0 p (omega (arith, same, pos))
          (subst (λ i. IsDangling (store_and_send msg acc2).0 i p) (sym same) after)
          (cong_key next msg (store_and_send msg acc2).0 same voted.key kn) kz long,
    )
