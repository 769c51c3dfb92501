-- ===== src/Leader/Phase2.antt =====
-- paxos2/lib/proposer_leader.c, the phase 2 routines: values are sent to the acceptors in instances
-- that have completed phase 1.
-- A result `none` is an assertion that fails.
pub mod Execute
pub mod Window
use fds.Prelude.{
  ℕ, zero, suc, ◌+◌, ◌-◌, ◌*◌, ◌/◌, ◌%◌, List, [], ◌∷◌, ◌++◌, Bool, true, false, ◌&&◌, ◌||◌, not,
  Option, none, some, ltb, leb, ◌==◌, if◌then◌else◌, ◌>>=◌, ◌>>◌, assert, is_some, length, bytes_eq,
}
use fds.Messages.{PrepareReq, AcceptReq, Event}
use fds.Config.{p1_timeout_interval, p2_timeout_interval, proposer_p2_concurrency}
use fds.SendBuf.{
  SendBuf, sendbuf_clear, sendbuf_flush, sendbuf_add_accept_req, sendbuf_add_prepare_req,
  prepare_req_kind, accept_req_kind,
}
use fds.Instance.{
  InstInfo, Timeval, Value, p1_pending, p2_pending, p2_completed, next_ballot, leader_is_expired,
}
use fds.Learner.{Learner, learner_is_closed}
use fds.Leader.State.{
  Proposer, pro_instance, set_instance, add32, sub32, is_p1_ready, is_p2_pending,
  vh_get_next_pending, vh_push_back_value, leader_set_expiration,
}
use fds.Leader.Phase1.{send_prepare}

abbrev pub Accepting : Type 0
Accepting = Proposer × SendBuf AcceptReq × List Event

-- The last case of `leader_execute_p2`, for an instance with both values: they are compared, and if
-- they differ the instance's own is pushed back. A pointer that is NULL gives no value.
unfoldable pub both_values : Option Value → Option Value → List Value → Option Value × List Value
both_values (some v) (some w) pending =
    if bytes_eq v w then (some w, pending) else (some v, vh_push_back_value (some w) pending)
both_values _ _ pending = (none, pending)

-- The value for phase 2, from the instance's `p1_value` and `p2_value` and the pending list, and
-- what is left of the list: the chain of tests in `leader_execute_p2`.
unfoldable pub phase2_value : Option Value → Option Value → List Value → Option Value × List Value
unfolding both_values
phase2_value p1 p2 pending =
    if not (is_some p1) && not (is_some p2)
    then vh_get_next_pending pending
    else (if is_some p1
        then (p1, pending)
        else (if is_some p2 then (p2, pending) else both_values p1 p2 pending))

-- Where `p1_value` is used, it and its ballot are reset.
abbrev pub p1_ballot_left : InstInfo → ℕ
p1_ballot_left ii = if is_some ii.p1_value then 0 else ii.p1_value_ballot

abbrev pub treshold : ℕ
treshold = proposer_p2_concurrency / 3 * 2

module _ (gettimeofday : ℕ → Timeval) where
  -- The state once phase 2 of an instance has begun with a value.
  unfoldable pub begin_p2 : ℕ → Value → List Value → Proposer → Proposer
  begin_p2 iid v pending st =
      let ii = pro_instance st iid in
      let ii' = record ii {
        p2_value = some v;
        p1_value = none;
        p1_value_ballot = p1_ballot_left ii;
        status = p2_pending;
      } in
      let (st', ii'') =
        leader_set_expiration gettimeofday (record st { pending = pending }) ii'
          p2_timeout_interval in
      set_instance st' iid ii''

  -- Stops if there is no value (`assert(ii->p2_value != NULL)`).
  unfoldable pub leader_execute_p2 : ℕ → Proposer → SendBuf AcceptReq → Option Accepting
  leader_execute_p2 iid st sb = do
    let ii = pro_instance st iid
    let (value, pending) = phase2_value ii.p1_value ii.p2_value st.pending
    v ← value
    let (sb', es) = sendbuf_add_accept_req sb ii.iid ii.my_ballot v
    some (begin_p2 iid v pending st, sb', es)

  -- One iteration of `leader_open_instances_p2_expired`; the last result counts an opened instance.
  unfoldable pub expired_step :
      ℕ → Proposer → SendBuf AcceptReq → Option (Proposer × SendBuf AcceptReq × List Event × ℕ)
  expired_step iid st sb =
      let ii = pro_instance st iid in
      assert (ii.iid == iid)
      >> (if is_p1_ready ii.status
          then (do
            assert (is_some ii.p2_value)
            (st', sb', es) ← leader_execute_p2 iid st sb
            some (st', sb', es, 1))
          else some (st, sb, [], 0))

  pub expired_loop :
      ℕ → ℕ → Proposer → SendBuf AcceptReq → Option (Proposer × SendBuf AcceptReq × List Event × ℕ)
  expired_loop zero iid st sb = some (st, sb, [], 0)
  expired_loop (suc n) iid st sb = do
    (st', sb', es, a) ← expired_step iid st sb
    (st'', sb'', fs, b) ← expired_loop n (iid + 1) st' sb'
    some (st'', sb'', es ++ fs, a + b)

  -- The instances from `current_iid` up to, but not including, `next_unused_iid`.
  unfoldable pub leader_open_instances_p2_expired : Proposer → Option (Proposer × List Event)
  leader_open_instances_p2_expired st = do
    (st', sb, es, count) ←
        expired_loop (st.next_unused_iid - st.current_iid) st.current_iid st
          (sendbuf_clear st.this_proposer_id)
    some (
      record st' { ready_count = sub32 st'.ready_count count },
      es ++ sendbuf_flush accept_req_kind sb,
    )

  -- The loop of `leader_open_instances_p2_new`: it goes on while `count + open_count` is at most
  -- PROPOSER_P2_CONCURRENCY, so for `rounds` at most that are left; the last result is `count`.
  unfoldable pub new_loop :
      ℕ → Proposer → SendBuf AcceptReq → Option (Proposer × SendBuf AcceptReq × List Event × ℕ)
  new_loop zero st sb = some (st, sb, [], 0)
  new_loop (suc rounds) st sb =
      let ii = pro_instance st st.next_unused_iid in
      let go_on = (do
        (st', sb', es) ← leader_execute_p2 st.next_unused_iid st sb
        (st'', sb'', fs, count) ←
            new_loop rounds (record st' { next_unused_iid = add32 st'.next_unused_iid 1 }) sb'
        some (st'', sb'', es ++ fs, 1 + count)) in
      assert (not (is_some ii.p2_value))
      >> (if not (is_some ii.p1_value) && (length st.pending == 0)
          then some (st, sb, [], 0)
          else (if not (is_p1_ready ii.status) || not (ii.iid == st.next_unused_iid)
              then some (record st { p2_waits_p1 = st.p2_waits_p1 + 1 }, sb, [], 0)
              else go_on))

  unfoldable pub leader_open_instances_p2_new : Proposer → Option (Proposer × List Event)
  leader_open_instances_p2_new st = if ltb treshold st.open_count then some (st, []) else (do
    (st', sb, es, count) ←
        new_loop (proposer_p2_concurrency + 1 - st.open_count) st
          (sendbuf_clear st.this_proposer_id)
    some (
      record st' {
        ready_count = sub32 st'.ready_count count;
        open_count = add32 st'.open_count count;
      },
      es ++ sendbuf_flush accept_req_kind sb,
    ))

  -- One iteration of the loop of `leader_periodic_p2_check`.
  unfoldable pub p2_check_step :
      Learner
      → Timeval
      → ℕ
      → Proposer
      → SendBuf PrepareReq
      → Proposer × SendBuf PrepareReq × List Event
  p2_check_step learner now i st sb =
      let ii = pro_instance st i in
      if not (is_p2_pending ii.status)
      then (st, sb, [])
      else (if learner_is_closed learner i
          then (
            set_instance (record st { open_count = sub32 st.open_count 1 }) i
                (record ii { status = p2_completed }),
            sb,
            [],
          )
          else (if not (leader_is_expired ii.timeout now)
              then (st, sb, [])
              else send_prepare gettimeofday i
                  (record ii { status = p1_pending; my_ballot = next_ballot ii.my_ballot })
                  (record st {
                    pending_count = add32 st.pending_count 1;
                    p2_timeout = st.p2_timeout + 1;
                  })
                  sb))

  pub p2_check_loop :
      Learner
      → Timeval
      → ℕ
      → ℕ
      → Proposer
      → SendBuf PrepareReq
      → Proposer × SendBuf PrepareReq × List Event
  p2_check_loop learner now zero i st sb = (st, sb, [])
  p2_check_loop learner now (suc n) i st sb =
      let (st', sb', es) = p2_check_step learner now i st sb in
      let (st'', sb'', fs) = p2_check_loop learner now n (i + 1) st' sb' in (st'', sb'', es ++ fs)

  unfoldable pub leader_periodic_p2_check : Learner → Proposer → Option (Proposer × List Event)
  leader_periodic_p2_check learner st = do
    let now = gettimeofday st.clock_reads
    let st0 = record st { clock_reads = st.clock_reads + 1 }
    let (st', sb, es) =
        p2_check_loop learner now (st.next_unused_iid - st.current_iid) st.current_iid st0
          (sendbuf_clear st.this_proposer_id)
    (st'', fs) ← leader_open_instances_p2_new st'
    some (st'', (es ++ sendbuf_flush prepare_req_kind sb) ++ fs)
