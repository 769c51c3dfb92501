-- ===== src/Ring/Acceptor/Phase2/Votes.antt =====
-- ring_paxos/ring-paxos/acceptor_helpers.c: what phase 2 accepts.
use fds.Prelude.{
  ◌%◌, ◌≤◌, ◌≡◌, refl, sym, ap, ◌∙◌, Bool, true, false, arith, ltb, ◌&&◌, not, [], ◌∷◌, update_same,
  ◌⊎◌, inl, inr, Ensures, ensures_if, ensures_bind, ensures_assert, ensures_after,
}
use fds.Ring.Types.{cmd_key_equals, cmd_key_equals→eq}
use fds.Ring.Storage.{InstanceRecord}
use fds.Ring.Acceptor.State.{
  RingAcceptor, Phase2Msg, forward_phase2, Handled, add_one, record_of, put_record, see_instance,
  read_cmd, write_slot, is_null, is_slot, same_ptr,
}
use fds.Ring.Acceptor.Phase2.{
  accept_again, accept_first, accept_other, store_and_send, acceptor_handle_phase2_msg,
}
use fds.Ring.Acceptor.Grows.{
  Grown, Grown-refl, Grown-trans, put_record-Grown, get_record-Grown, Found, same_records-Grown,
  SameRecords, free_cmd-SameRecords, put_after-Grown,
}

-- An accepting edge: the promise stays, and the message's command is the accepted one.
abbrev Took : Phase2Msg → RingAcceptor → RingAcceptor → Type 0
Took msg acc acc' =
    Grown acc acc'
    × ((record_of acc' msg.inst_number).inst_number ≡ (record_of acc msg.inst_number).inst_number)
    × ((record_of acc' msg.inst_number).ballot ≡ (record_of acc msg.inst_number).ballot)
    × ((record_of acc' msg.inst_number).accepted_cmd_key ≡ msg.cmd_key)

put_after-Took :
    (msg : Phase2Msg) (acc acc' : RingAcceptor) (ir : InstanceRecord)
    → SameRecords acc acc'
    → ir.inst_number ≡ (record_of acc msg.inst_number).inst_number
    → ir.ballot ≡ (record_of acc msg.inst_number).ballot
    → ir.accept_ballot ≡ (record_of acc msg.inst_number).accept_ballot
    → ir.accepted_cmd_key ≡ msg.cmd_key
    → Took msg acc (put_record acc' msg.inst_number ir)
put_after-Took msg acc acc' ir e n b a k =
    let place = update_same acc'.ssm.instances_array (msg.inst_number % acc'.ssm.size) ir in
    (
      put_after-Grown acc acc' msg.inst_number ir e n (omega (arith, b))
          (λ h. omega (arith, a, b, h)),
      ap (λ r. r.inst_number) place ∙ n,
      ap (λ r. r.ballot) place ∙ b,
      ap (λ r. r.accepted_cmd_key) place ∙ k,
    )

accept_again-Took :
    (msg : Phase2Msg) (acc : RingAcceptor)
    → (record_of acc msg.inst_number).accepted_cmd_key ≡ msg.cmd_key
    → Ensures (accept_again msg acc) (Took msg acc)
unfolding accept_again
accept_again-Took msg acc k =
    let ir = record_of acc msg.inst_number in
    ensures_if (Took msg acc) (is_null ir.proposed_cmd) _ _ (λ _. (Grown-refl acc, refl, refl, k))
      (λ _.
        ensures_assert (Took msg acc) (not (cmd_key_equals msg.cmd_key ir.proposed_cmd_key)) _ (λ _.
          ensures_assert (Took msg acc) (not (is_slot ir.proposed_cmd)) _ (λ _.
            ensures_bind (Took msg acc) (SameRecords acc) _ _
              (free_cmd-SameRecords ir.proposed_cmd acc)
              (λ acc1 e. put_after-Took msg acc acc1 _ e refl refl refl k))))

accept_first-Took :
    (msg : Phase2Msg) (acc : RingAcceptor)
    → (record_of acc msg.inst_number).proposed_cmd_key ≡ msg.cmd_key
    → Ensures (accept_first msg acc) (Took msg acc)
unfolding accept_first
accept_first-Took msg acc k =
    ensures_assert (Took msg acc) (is_slot (record_of acc msg.inst_number).proposed_cmd) _
      (λ _. put_after-Took msg acc acc _ (refl, refl) refl refl refl k)

accept_other-Took :
    (msg : Phase2Msg) (acc : RingAcceptor)
    → (record_of acc msg.inst_number).proposed_cmd_key ≡ msg.cmd_key
    → Ensures (accept_other msg acc) (Took msg acc)
unfolding accept_other write_slot
accept_other-Took msg acc k =
    let ir = record_of acc msg.inst_number in
    ensures_assert (Took msg acc)
      (not (is_null ir.accepted_cmd)
        && not (is_null ir.proposed_cmd)
        && not (same_ptr ir.accepted_cmd ir.proposed_cmd))
      _
      (λ _.
        ensures_after (Took msg acc)
          (read_cmd acc msg.inst_number ir.proposed_cmd ir.proposed_cmd_size) _
          (λ bytes.
            ensures_bind (Took msg acc) (SameRecords acc) _ _
              (free_cmd-SameRecords ir.proposed_cmd (write_slot acc msg.inst_number bytes))
              (λ acc1 e. put_after-Took msg acc acc1 _ e refl refl refl k)))

known_proposed : (a p : Bool) → (not a && not p) ≡ false → a ≡ false → p ≡ true
known_proposed true p h e = cc
known_proposed false true h e = refl
known_proposed false false h e = cc

-- A command is accepted for the instance at the ballot.
pub record IsAccepted (msg : Phase2Msg) (ir : InstanceRecord) : Type 0 where
  pub instance_number : ir.inst_number ≡ msg.inst_number
  pub promised : ir.ballot ≡ msg.ballot
  pub accepted : ir.accept_ballot ≡ msg.ballot
  pub key : ir.accepted_cmd_key ≡ msg.cmd_key

-- What phase 2 leaves: nothing is forwarded, or what is forwarded has been accepted.
pub record Voted (msg : Phase2Msg) (acc : RingAcceptor) (r : Handled) : Type 0 where
  pub grown : Grown acc r.0
  pub vote :
      (r.1 ≡ [])
      ⊎ ((r.1 ≡ forward_phase2 (record msg { accepts_count = add_one msg.accepts_count }) ∷ [])
          × IsAccepted msg (record_of r.0 msg.inst_number))

store_and_send-Voted :
    (msg : Phase2Msg) (acc acc1 : RingAcceptor)
    → Grown acc acc1
    → (record_of acc1 msg.inst_number).inst_number ≡ msg.inst_number
    → (record_of acc1 msg.inst_number).ballot ≤ msg.ballot
    → (record_of acc1 msg.inst_number).accepted_cmd_key ≡ msg.cmd_key
    → Voted msg acc (store_and_send msg acc1)
unfolding store_and_send
store_and_send-Voted msg acc acc1 g n h k =
    let ir = record (record_of acc1 msg.inst_number) {
      ballot = msg.ballot;
      accept_ballot = msg.ballot;
    } in
    let place = update_same acc1.ssm.instances_array (msg.inst_number % acc1.ssm.size) ir in
    record {
      grown = Grown-trans g (put_record-Grown acc1 msg.inst_number ir refl h (λ _. omega arith));
      vote = inr (
        refl,
        record {
          instance_number = rw place n;
          promised = rw place refl;
          accepted = rw place refl;
          key = rw place k;
        },
      );
    }

pub phase2-Voted :
    (msg : Phase2Msg) (acc : RingAcceptor)
    → Ensures (acceptor_handle_phase2_msg msg acc) (Voted msg acc)
unfolding acceptor_handle_phase2_msg
phase2-Voted msg acc =
    ensures_bind (Voted msg acc) (Found msg.inst_number acc) _ _
      (get_record-Grown msg.inst_number acc)
      (λ acc1 g.
        let ir = record_of acc1 msg.inst_number in
        let seen = see_instance msg.inst_number acc1 in
        let start : Grown acc seen = Grown-trans g.0 (same_records-Grown acc1 seen refl refl) in
        let idle : Voted msg acc (acc1, []) = record { grown = g.0; vote = inl refl } in
        ensures_if (Voted msg acc) (ltb msg.ballot ir.ballot) _ _ (λ _. idle)
          (λ new.
            ensures_assert (Voted msg acc)
              (not (
                cmd_key_equals msg.cmd_key ir.proposed_cmd_key
                && cmd_key_equals msg.cmd_key ir.accepted_cmd_key))
              _
              (λ _.
                ensures_if (Voted msg acc)
                  (not (cmd_key_equals msg.cmd_key ir.accepted_cmd_key)
                    && not (cmd_key_equals msg.cmd_key ir.proposed_cmd_key))
                  _ _ (λ _. idle)
                  (λ known.
                    ensures_bind (Voted msg acc) (Took msg seen) _ _
                      (ensures_if (Took msg seen) (cmd_key_equals msg.cmd_key ir.accepted_cmd_key) _
                        _ (λ a. accept_again-Took msg seen (sym (cmd_key_equals→eq _ _ a)))
                        (λ a.
                          let p = sym (
                            cmd_key_equals→eq msg.cmd_key ir.proposed_cmd_key
                              (known_proposed _ _ known a)) in
                          ensures_if (Took msg seen) (is_null ir.accepted_cmd) _ _
                            (λ _. accept_first-Took msg seen p)
                            (λ _. accept_other-Took msg seen p)))
                      (λ acc2 t.
                        store_and_send-Voted msg acc acc2 (Grown-trans start t.0) (t.1 ∙ g.1)
                          (let b = t.2 in ground (arith, new, b)) t.3)))))
