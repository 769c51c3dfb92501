-- ===== src/Leader/Phase1.antt =====
-- paxos2/lib/proposer_leader.c, the phase 1 routines: instances are opened in advance, and opened
-- again when their promises do not come in time.
-- A result `none` is an assertion that fails.
pub mod Opened
use fds.Prelude.{
  ℕ, zero, suc, ◌+◌, ◌-◌, ◌/◌, List, [], ◌++◌, ◌&&◌, Option, none, some, leb, ltb, ◌^◌, ◌==◌,
  if◌then◌else◌, ◌>>=◌, ◌>>◌, assert,
}
use fds.Messages.{PrepareReq, Event}
use fds.Config.{p1_timeout_interval, proposer_preexec_win_size}
use fds.SendBuf.{SendBuf, sendbuf_clear, sendbuf_flush, sendbuf_add_prepare_req, prepare_req_kind}
use fds.Instance.{InstInfo, Timeval, p1_pending, first_ballot, next_ballot, leader_is_expired}
use fds.Leader.State.{
  Proposer, pro_instance, set_instance, add32, is_unused, is_p1_pending, leader_set_expiration,
}

-- What a loop over instances has: the state, and the buffer for the acceptors.
abbrev pub Sending : Type 0
Sending = Proposer × SendBuf PrepareReq × List Event

-- The fields of a previous phase 1 reset, and the ballot incremented.
abbrev pub restarted : InstInfo → InstInfo
restarted ii = record ii {
  promises_bitvector = 0;
  promises_count = 0;
  p1_value_ballot = 0;
  p1_value = none;
  my_ballot = next_ballot ii.my_ballot;
}

module _ (gettimeofday : ℕ → Timeval) where
  -- The prepare request of an instance, and its new deadline.
  unfoldable pub send_prepare : ℕ → InstInfo → Proposer → SendBuf PrepareReq → Sending
  send_prepare iid ii st sb =
      let (sb', es) = sendbuf_add_prepare_req sb ii.iid ii.my_ballot in
      let (st', ii') = leader_set_expiration gettimeofday st ii p1_timeout_interval in
      (set_instance st' iid ii', sb', es)

  -- One iteration of `leader_check_p1_pending`.
  unfoldable pub check_step : Timeval → ℕ → Proposer → SendBuf PrepareReq → Option Sending
  check_step time_now iid st sb =
      let ii = pro_instance st iid in
      assert (ii.iid == iid)
      >> (if is_p1_pending ii.status && leader_is_expired ii.timeout time_now
          then some
              (send_prepare iid (restarted ii) (record st { p1_timeout = st.p1_timeout + 1 }) sb)
          else some (st, sb, []))

  pub check_loop : Timeval → ℕ → ℕ → Proposer → SendBuf PrepareReq → Option Sending
  check_loop time_now zero iid st sb = some (st, sb, [])
  check_loop time_now (suc n) iid st sb = do
    (st', sb', es) ← check_step time_now iid st sb
    (st'', sb'', fs) ← check_loop time_now n (iid + 1) st' sb'
    some (st'', sb'', es ++ fs)

  -- The instances from `current_iid` to `highest_open`.
  unfoldable pub leader_check_p1_pending : Proposer → Option (Proposer × List Event)
  leader_check_p1_pending st = do
    let time_now = gettimeofday st.clock_reads
    let st0 = record st { clock_reads = st.clock_reads + 1 }
    (st', sb, es) ←
        check_loop time_now (st.highest_open + 1 - st.current_iid) st.current_iid st0
          (sendbuf_clear st.this_proposer_id)
    some (st', es ++ sendbuf_flush prepare_req_kind sb)

  -- One iteration of `leader_open_instances_p1`: an unused record becomes the instance's.
  unfoldable pub open_step : ℕ → Proposer → SendBuf PrepareReq → Option Sending
  open_step curr_iid st sb =
      let ii = pro_instance st curr_iid in
      assert (is_unused ii.status)
      >> some (
          send_prepare curr_iid
            (record ii {
              iid = curr_iid;
              status = p1_pending;
              my_ballot = first_ballot st.this_proposer_id;
            })
            st sb)

  -- From `curr_iid` on, for the given number of instances.
  pub open_loop : ℕ → ℕ → Proposer → SendBuf PrepareReq → Option Sending
  open_loop zero curr_iid st sb = some (st, sb, [])
  open_loop (suc n) curr_iid st sb = do
    (st', sb', es) ← open_step curr_iid st sb
    (st'', sb'', fs) ← open_loop n (add32 curr_iid 1) st' sb'
    some (st'', sb'', es ++ fs)

  -- `active_count` is an `int`, whose first assertion fails on a negative one; the second holds then,
  -- since less than half of the window is active.
  unfoldable pub leader_open_instances_p1 : Proposer → Option (Proposer × List Event)
  leader_open_instances_p1 st =
      let active_count = add32 st.pending_count st.ready_count in
      let to_open = proposer_preexec_win_size - active_count in
      assert (ltb active_count (2 ^ 31))
      >> (if leb (proposer_preexec_win_size / 2) active_count then some (st, []) else (do
        (st', sb, es) ←
            open_loop to_open (add32 st.highest_open 1) st (sendbuf_clear st.this_proposer_id)
        some (
          record st' {
            pending_count = add32 st'.pending_count to_open;
            highest_open = add32 st'.highest_open to_open;
          },
          es ++ sendbuf_flush prepare_req_kind sb,
        )))

  unfoldable pub leader_periodic_p1_check : Proposer → Option (Proposer × List Event)
  leader_periodic_p1_check st = do
    (st', es) ← leader_check_p1_pending st
    (st'', fs) ← leader_open_instances_p1 st'
    some (st'', es ++ fs)
