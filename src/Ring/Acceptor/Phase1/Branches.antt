-- ===== src/Ring/Acceptor/Phase1/Branches.antt =====
-- What an acceptor of the ring makes of a phase 1 message, on every branch.
use fds.Prelude.{
  ℕ, ◌%◌, ◌≤◌, ◌<◌, ◌≡◌, ◌⊎◌, inl, inr, refl, ap, List, [], ◌∷◌, Bool, true, false, some, arith,
  ltb, leb, ltb→lt, leb→le, Bool-cases, update_same, if◌then◌else◌,
}
use fds.Ring.Storage.{CommandPtr, null, slot, block, InstanceRecord}
use fds.Ring.Acceptor.State.{
  RingAcceptor, Phase1Msg, forward_phase1, Handled, add_one, record_of, put_record, see_instance,
  read_cmd,
}
use fds.Ring.Acceptor.Phase1.{acceptor_handle_phase1_msg}
use fds.Ring.Acceptor.Grows.{get_record-same}
use fds.Ring.Delivery.{max_of}

-- The message that tells the multicaster of a higher promise.
abbrev refusal_of : Phase1Msg → InstanceRecord → Phase1Msg
refusal_of msg ir = record msg {
  highest_promised_ballot = max_of ir.ballot msg.highest_promised_ballot;
}

-- The message with one more promise.
abbrev promise_of : Phase1Msg → Phase1Msg
promise_of msg = record msg { promises_count = add_one msg.promises_count }

-- The message with the accepted command, over what the buffer held.
abbrev replacement_of : Phase1Msg → Phase1Msg → InstanceRecord → List ℕ → Phase1Msg
replacement_of stale msg ir value = record stale {
  inst_number = msg.inst_number;
  highest_accepted_ballot = ir.accept_ballot;
  cmd_key = ir.accepted_cmd_key;
  cmd_value = value;
}

-- A promise at the ballot, of an instance that is seen then, and one of the two messages that carry it.
pub record Promised (stale msg : Phase1Msg) (ir : InstanceRecord) (value : List ℕ) (r : Handled)
    : Type 0 where
  pub above : ir.ballot ≤ msg.ballot
  pub seen : msg.inst_number ≤ r.0.highest_instance_seen
  pub stored : record_of r.0 msg.inst_number ≡ record ir { ballot = msg.ballot }
  pub sent :
      ((ir.accept_ballot ≤ msg.highest_accepted_ballot)
        × (r.1 ≡ forward_phase1 (promise_of msg) ∷ []))
      ⊎ ((msg.highest_accepted_ballot < ir.accept_ballot)
          × (r.1 ≡ forward_phase1 (replacement_of stale msg ir value) ∷ []))

read_cmd-same :
    (acc : RingAcceptor) (i : ℕ) (ir : InstanceRecord) (p : CommandPtr) (n : ℕ)
    → read_cmd (put_record (see_instance i acc) i ir) i p n ≡ read_cmd acc i p n
unfolding read_cmd
read_cmd-same acc i ir null n = refl
read_cmd-same acc i ir slot n = refl
read_cmd-same acc i ir (block p) n = refl

pub told :
    (b : Bool) (msg : Phase1Msg) (n : ℕ)
    → (if b then record msg { highest_promised_ballot = n } else msg)
      ≡ record msg { highest_promised_ballot = if b then n else msg.highest_promised_ballot }
told true msg n = refl
told false msg n = refl

-- Where the slot of an instance stands for it and its accepted command can be read, a phase 1
-- message is handled without a stop. Below the promised ballot nothing changes, and the message
-- goes on with the highest promised ballot raised to the promise. Else the ballot is stored, and
-- the message goes on with one more promise if its accepted ballot is not below the record's; if it
-- is, what goes on has the instance number, the accepted ballot, key and command, but the
-- ballot, the number of promises and the highest promised ballot that the buffer held before.
pub acceptor_handle_phase1_msg_lem :
    (stale msg : Phase1Msg) (acc : RingAcceptor) (value : List ℕ)
    → 0 < msg.inst_number
    → (record_of acc msg.inst_number).inst_number ≡ msg.inst_number
    → read_cmd acc msg.inst_number
        (record_of acc msg.inst_number).accepted_cmd
        (record_of acc msg.inst_number).accepted_cmd_size
      ≡ some value
    → (r : Handled) × (acceptor_handle_phase1_msg stale msg acc ≡ some r)
      × (((msg.ballot < (record_of acc msg.inst_number).ballot)
            × (r ≡ (acc, forward_phase1 (refusal_of msg (record_of acc msg.inst_number)) ∷ [])))
          ⊎ Promised stale msg (record_of acc msg.inst_number) value r)
unfolding acceptor_handle_phase1_msg
acceptor_handle_phase1_msg_lem stale msg acc value pos n h =
    let i = msg.inst_number in
    let ir = record_of acc i in
    let place =
      update_same acc.ssm.instances_array (i % acc.ssm.size) (record ir { ballot = msg.ballot }) in
    elim (Bool-cases (ltb msg.ballot ir.ballot)) [
      | inl old ↦
          rw (get_record-same i acc pos n, old)
            (
              _,
              refl,
              inl (
                ltb→lt _ _ old,
                ap (λ m. (acc, forward_phase1 m ∷ []))
                    (told (ltb msg.highest_promised_ballot ir.ballot) msg ir.ballot),
              ),
            )
      | inr new ↦ elim (Bool-cases (leb ir.accept_ballot msg.highest_accepted_ballot)) [
        | inl low ↦
            rw (get_record-same i acc pos n, new, low)
              (
                _,
                refl,
                inr (record {
                  above = ground arith;
                  seen = ground arith;
                  stored = place;
                  sent = inl (leb→le _ _ low, refl);
                }),
              )
        | inr high ↦
            rw
              (
                get_record-same i acc pos n,
                new,
                high,
                read_cmd-same acc i (record ir { ballot = msg.ballot }) ir.accepted_cmd
                    ir.accepted_cmd_size,
                h,
              )
              (
                _,
                refl,
                inr (record {
                  above = ground arith;
                  seen = ground arith;
                  stored = place;
                  sent = inr (ground arith, refl);
                }),
              )
      ]
    ]
