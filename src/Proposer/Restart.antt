-- ===== src/Proposer/Restart.antt =====
-- paxos2/lib/proposer_leader.c and proposer.c: an instance whose phase 2 timed out goes through phase 1
-- again, with the promises of the first time still counted.
use fds.Prelude.{ℕ, ◌+◌, ◌≤◌, ◌≡◌, refl, ap, ◌∙◌, [], ◌∷◌, true, false, ◌==◌, update_same, arith}
use fds.Messages.{PrepareAck, PrepareReq}
use fds.Config.{quorum}
use fds.SendBuf.{SendBuf}
use fds.Learner.{Learner, learner_is_closed}
use fds.Instance.{
  InstInfo, Timeval, p1_pending, p1_ready, p2_pending, next_ballot, leader_is_expired,
}
use fds.Instance.Promises.{save_all-counts}
use fds.Leader.State.{Proposer, pro_instance, pro_index}
use fds.Leader.Phase1.{send_prepare}
use fds.Leader.Phase2.{p2_check_step}
use fds.Proposer.{handle_prepare_ack, is_awaited}
use fds.Proposer.Majority.{completes}

-- The record of an instance whose phase 2 timed out.
timed_out :
    (gettimeofday : ℕ → Timeval) (learner : Learner) (now : Timeval) (i : ℕ) (st : Proposer)
    (sb : SendBuf PrepareReq)
    → (pro_instance st i).status ≡ p2_pending
    → learner_is_closed learner i ≡ false
    → leader_is_expired (pro_instance st i).timeout now ≡ true
    → (let ii = pro_instance st i in
        let ii' = pro_instance (p2_check_step gettimeofday learner now i st sb).0 i in
        (ii'.status ≡ p1_pending)
        × (ii'.my_ballot ≡ next_ballot ii.my_ballot)
        × (ii'.promises_count ≡ ii.promises_count)
        × (ii'.promises_bitvector ≡ ii.promises_bitvector))
unfolding p2_check_step send_prepare
timed_out gettimeofday learner now i st sb s c e =
    let here = update_same st.proposer_state (pro_index i) _ in
    rw (s, c, e)
      (
        ap (λ (ii : InstInfo). ii.status) here,
        ap (λ (ii : InstInfo). ii.my_ballot) here,
        ap (λ (ii : InstInfo). ii.promises_count) here,
        ap (λ (ii : InstInfo). ii.promises_bitvector) here,
      )

-- After a phase 2 timeout one promise completes phase 1: if an instance in phase 2, whose deadline has
-- passed and which the learner has not closed, has all but one of a quorum of promises counted from
-- its previous phase 1 and no acceptor marked, the check restarts phase 1 with a higher ballot, and
-- the first promise of that ballot makes the instance ready.
pub one_promise_after_timeout :
    (gettimeofday : ℕ → Timeval) (learner : Learner) (now : Timeval) (st : Proposer)
    (sb : SendBuf PrepareReq) (pa : PrepareAck) (a : ℕ)
    → (pro_instance st pa.iid).status ≡ p2_pending
    → learner_is_closed learner pa.iid ≡ false
    → leader_is_expired (pro_instance st pa.iid).timeout now ≡ true
    → (pro_instance st pa.iid).promises_bitvector ≡ 0
    → quorum ≤ (pro_instance st pa.iid).promises_count + 1
    → pa.ballot ≡ next_ballot (pro_instance st pa.iid).my_ballot
    → (let st' = (p2_check_step gettimeofday learner now pa.iid st sb).0 in
        let (ready, st'') = handle_prepare_ack pa a st' in
        ((pro_instance st' pa.iid).status ≡ p1_pending)
        × (ready ≡ true)
        × ((pro_instance st'' pa.iid).status ≡ p1_ready))
one_promise_after_timeout gettimeofday learner now st sb pa a s c e none_marked nearly ballot =
    let st' = (p2_check_step gettimeofday learner now pa.iid st sb).0 in
    let ii' = pro_instance st' pa.iid in
    let (pending, higher, count, marks) = timed_out gettimeofday learner now pa.iid st sb s c e in
    let same : (pa.ballot == ii'.my_ballot) ≡ true = rw (higher, ← ballot) (ground arith) in
    let awaited : is_awaited ii' pa ≡ true = rw (pending, same) refl in
    let counted = (save_all-counts ii' ((a, pa) ∷ []) (marks ∙ none_marked)).1 in
    let (done, ready) = completes pa a st' awaited (omega (arith, counted, count)) in
    (pending, done, ready)
