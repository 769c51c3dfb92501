-- ===== src/Ring/Acceptor/Phase1/Kept.antt =====
-- What an acceptor of the ring makes of messages below a ballot that it has promised.
use fds.Prelude.{
  ℕ, ◌+◌, ◌-◌, ◌≤◌, ◌<◌, ◌≡◌, refl, sym, ap, ◌∙◌, subst, inl, inr, List, [], ◌∷◌, true, false, some,
  ltb, lt→ltb, not_lt→ltb, arith,
}
use fds.Ring.Delivery.{max_of}
use fds.Ring.Storage.{InstanceRecord}
use fds.Ring.Acceptor.State.{
  RingAcceptor, Phase1Msg, Phase1RangeMsg, Phase2Msg, forward_phase1, Handled, record_of, read_cmd,
}
use fds.Ring.Acceptor.Phase1.{
  acceptor_handle_phase1_msg, acceptor_handle_phase1_range_msg, phase1_of_range, break_loop,
}
use fds.Ring.Acceptor.Phase1.Branches.{acceptor_handle_phase1_msg_lem, told}
use fds.Ring.Acceptor.Phase2.{acceptor_handle_phase2_msg}
use fds.Ring.Acceptor.Grows.{get_record-same}

-- A message as it is sent on where ballot `b` is promised.
abbrev pub refused : ℕ → Phase1Msg → Phase1Msg
refused b msg = record msg { highest_promised_ballot = max_of b msg.highest_promised_ballot }

-- The slot stands for the instance, which has promised the ballot.
record HasPromised (acc : RingAcceptor) (i b : ℕ) : Type 0 where
  pub number_pos : 0 < i
  pub own : (record_of acc i).inst_number ≡ i
  pub promised : (record_of acc i).ballot ≡ b
  pub seen : i ≤ acc.highest_instance_seen

phase1-refused :
    (stale msg : Phase1Msg) (acc : RingAcceptor) (b : ℕ)
    → HasPromised acc msg.inst_number b
    → msg.ballot < b
    → acceptor_handle_phase1_msg stale msg acc ≡ some (acc, forward_phase1 (refused b msg) ∷ [])
unfolding acceptor_handle_phase1_msg
phase1-refused stale msg acc b h below =
    let old : ltb msg.ballot b ≡ true = lt→ltb _ _ below in
    rw (get_record-same msg.inst_number acc h.number_pos h.own, h.promised, old)
      (ap (λ m. some (acc, forward_phase1 m ∷ [])) (told (ltb msg.highest_promised_ballot b) msg b))

phase2-refused :
    (msg : Phase2Msg) (acc : RingAcceptor) (b : ℕ)
    → HasPromised acc msg.inst_number b
    → msg.ballot < b
    → acceptor_handle_phase2_msg msg acc ≡ some (acc, [])
unfolding acceptor_handle_phase2_msg
phase2-refused msg acc b h below =
    let old : ltb msg.ballot b ≡ true = lt→ltb _ _ below in
    rw (get_record-same msg.inst_number acc h.number_pos h.own, h.promised, old) refl

-- A range of that one instance.
range-refused :
    (stale : Phase1Msg) (msg : Phase1RangeMsg) (acc : RingAcceptor) (b : ℕ)
    → HasPromised acc msg.from b
    → msg.to ≡ msg.from
    → msg.ballot < b
    → acceptor_handle_phase1_range_msg stale msg acc
      ≡ some (acc, forward_phase1 (refused b (phase1_of_range msg msg.from)) ∷ [])
unfolding acceptor_handle_phase1_range_msg break_loop
range-refused stale msg acc b h one below =
    let old : ltb acc.highest_instance_seen msg.from ≡ false =
      not_lt→ltb _ _ (let s = h.seen in omega arith) in
    let n : msg.to + 1 - msg.from ≡ 1 = omega (arith, one) in
    rw (old, n, phase1-refused stale (phase1_of_range msg msg.from) acc b h below) refl

-- An acceptor keeps its promise. Where the slot of an instance above 0 stands for it and its
-- accepted command can be read, a phase 1 message whose ballot is not below the one promised is
-- handled without a stop. After it, messages with a lower ballot for that instance change nothing: a
-- phase 1 message is sent on with the highest promised ballot raised to that ballot, a range of that
-- one instance is answered by such a message of phase 1, without the promises of a new range, and
-- a phase 2 message is not answered.
pub promise_kept :
    (stale msg : Phase1Msg) (acc : RingAcceptor) (value : List ℕ) (stale' later : Phase1Msg)
    (range : Phase1RangeMsg) (vote : Phase2Msg)
    → 0 < msg.inst_number
    → (record_of acc msg.inst_number).inst_number ≡ msg.inst_number
    → read_cmd acc msg.inst_number
        (record_of acc msg.inst_number).accepted_cmd
        (record_of acc msg.inst_number).accepted_cmd_size
      ≡ some value
    → (record_of acc msg.inst_number).ballot ≤ msg.ballot
    → later.inst_number ≡ msg.inst_number
    → later.ballot < msg.ballot
    → range.from ≡ msg.inst_number
    → range.to ≡ msg.inst_number
    → range.ballot < msg.ballot
    → vote.inst_number ≡ msg.inst_number
    → vote.ballot < msg.ballot
    → (r : Handled) × (acceptor_handle_phase1_msg stale msg acc ≡ some r)
      × (acceptor_handle_phase1_msg stale' later r.0
          ≡ some (r.0, forward_phase1 (refused msg.ballot later) ∷ []))
      × (acceptor_handle_phase1_range_msg stale' range r.0
          ≡ some (r.0, forward_phase1 (refused msg.ballot (phase1_of_range range range.from)) ∷ []))
      × (acceptor_handle_phase2_msg vote r.0 ≡ some (r.0, []))
promise_kept stale msg acc value stale' later range vote pos own h not_below l l' f t f' v v' =
    let (r, e, how) = acceptor_handle_phase1_msg_lem stale msg acc value pos own h in
    elim how [
      | inl (below, same) ↦ absurd (omega arith)
      | inr p ↦
          let there : HasPromised r.0 msg.inst_number msg.ballot = record {
            number_pos = pos;
            own = ap (λ (ir : InstanceRecord). ir.inst_number) p.stored ∙ own;
            promised = ap (λ (ir : InstanceRecord). ir.ballot) p.stored;
            seen = p.seen;
          } in
          let at = λ (i : ℕ) (q : i ≡ msg.inst_number).
            subst (λ i. HasPromised r.0 i msg.ballot) (sym q) there in
          (
            r,
            e,
            phase1-refused stale' later r.0 msg.ballot (at later.inst_number l) l',
            range-refused stale' range r.0 msg.ballot (at range.from f) (t ∙ sym f) f',
            phase2-refused vote r.0 msg.ballot (at vote.inst_number v) v',
          )
    ]
