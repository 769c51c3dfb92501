-- ===== src/Proposer/Replaced.antt =====
-- paxos2/lib/proposer.c and proposer_leader.c: an instance's own value and one that is promised.
use fds.Prelude.{
  ℕ, ◌<◌, ◌≡◌, refl, ap, ◌∙◌, subst, true, false, inl, inr, ltb, leb, ◌==◌, some, length,
  Bool-cases, update_same, arith,
}
use fds.Messages.{PrepareAck, AcceptReq}
use fds.Config.{quorum}
use fds.SendBuf.{SendBuf}
use fds.Instance.{
  InstInfo, Timeval, Value, has_value, save_promised_value, pro_save_prepare_ack, p1_ready,
}
use fds.Instance.Promises.{has_value→eq, counted, save_unmarked}
use fds.Leader.State.{Proposer, pro_instance, pro_index}
use fds.Leader.Phase2.{leader_execute_p2}
use fds.Leader.Phase2.Execute.{Executed, leader_execute_p2_lem}
use fds.Proposer.{handle_prepare_ack, is_awaited}

promised_is_taken :
    (ii : InstInfo) (pa : PrepareAck)
    → 0 < length pa.value
    → ii.p1_value_ballot < pa.value_ballot
    → (save_promised_value ii pa).p1_value ≡ some pa.value
unfolding save_promised_value
promised_is_taken ii pa some_bytes above =
    let e : (length pa.value == 0) ≡ false = ground arith in
    let f : leb pa.value_ballot ii.p1_value_ballot ≡ false = ground arith in
    elim (Bool-cases (has_value ii.p1_value pa.value)) [
      | inl g ↦ rw (e, f, g) (has_value→eq ii.p1_value pa.value g)
      | inr g ↦ rw (e, f, g) refl
    ]

own_value_kept :
    (ii : InstInfo) (pa : PrepareAck) → (save_promised_value ii pa).p2_value ≡ ii.p2_value
unfolding save_promised_value
own_value_kept ii pa = ground arith

-- What a promise that is awaited leaves of the values.
handled :
    (pa : PrepareAck) (a : ℕ) (st : Proposer)
    → is_awaited (pro_instance st pa.iid) pa ≡ true
    → (let ii = pro_save_prepare_ack (pro_instance st pa.iid) pa a in
        let st' = (handle_prepare_ack pa a st).1 in
        ((pro_instance st' pa.iid).p1_value ≡ ii.p1_value)
        × ((pro_instance st' pa.iid).p2_value ≡ ii.p2_value)
        × (st'.pending ≡ st.pending))
unfolding handle_prepare_ack
handled pa a st e =
    let ii = pro_save_prepare_ack (pro_instance st pa.iid) pa a in
    let here = λ (x : InstInfo). update_same st.proposer_state (pro_index pa.iid) x in
    elim (Bool-cases (ltb ii.promises_count quorum)) [
      | inl f ↦
          rw (e, f)
            (
              ap (λ (x : InstInfo). x.p1_value) (here ii),
              ap (λ (x : InstInfo). x.p2_value) (here ii),
              refl,
            )
      | inr f ↦
          rw (e, f)
            (
              ap (λ (x : InstInfo). x.p1_value) (here (record ii { status = p1_ready })),
              ap (λ (x : InstInfo). x.p2_value) (here (record ii { status = p1_ready })),
              refl,
            )
    ]

-- A client's value is lost: let an instance that waits for promises, with no acceptor marked, have
-- a value of its own, and let a promise that it awaits bring a value of a higher ballot than that
-- of the value promised so far. Then the instance has both values; phase 2 proposes the promised one and
-- keeps it as the instance's own; and the pending list is the one from before, so that the
-- replaced value is not put back on it, also where the two differ.
pub replaced_value_lost :
    (gettimeofday : ℕ → Timeval) (pa : PrepareAck) (a : ℕ) (st : Proposer) (w : Value)
    (sb : SendBuf AcceptReq)
    → is_awaited (pro_instance st pa.iid) pa ≡ true
    → (pro_instance st pa.iid).promises_bitvector ≡ 0
    → (pro_instance st pa.iid).p2_value ≡ some w
    → 0 < length pa.value
    → (pro_instance st pa.iid).p1_value_ballot < pa.value_ballot
    → (let st' = (handle_prepare_ack pa a st).1 in
        ((pro_instance st' pa.iid).p1_value ≡ some pa.value)
        × ((pro_instance st' pa.iid).p2_value ≡ some w)
        × Executed gettimeofday pa.iid st' sb pa.value st.pending
            (leader_execute_p2 gettimeofday pa.iid st' sb))
replaced_value_lost gettimeofday pa a st w sb e none_marked own some_bytes above =
    let ii = pro_instance st pa.iid in
    let st' = (handle_prepare_ack pa a st).1 in
    let saved = save_unmarked ii a pa none_marked in
    let (p1, p2, left) = handled pa a st e in
    let promised =
      p1
      ∙ ap (λ (x : InstInfo). x.p1_value) saved
      ∙ promised_is_taken (counted ii) pa some_bytes above in
    (
      promised,
      p2 ∙ ap (λ (x : InstInfo). x.p2_value) saved ∙ own_value_kept (counted ii) pa ∙ own,
      subst
          (λ vs.
            Executed gettimeofday pa.iid st' sb pa.value vs
              (leader_execute_p2 gettimeofday pa.iid st' sb))
          left ((leader_execute_p2_lem gettimeofday pa.iid st' sb).0 pa.value promised),
    )
