-- ===== src/Leader/Deliver.antt =====
-- paxos2/lib/proposer_leader.c: what a leader does with a delivered value, and how it begins and
-- ends its leadership. The receiver's socket and the timers of these functions are not modelled.
pub mod Ended
use fds.Prelude.{
  ℕ, zero, suc, ◌+◌, ◌-◌, ◌%◌, List, [], ◌∷◌, ◌++◌, Bool, true, false, ◌&&◌, ◌||◌, not, Option,
  none, some, ◌==◌, if◌then◌else◌, ◌>>=◌, is_some, bytes_eq,
}
use fds.Messages.{Event}
use fds.Instance.{InstInfo, Timeval, Value, has_value, pro_clear_instance_info}
use fds.Leader.State.{
  Proposer, pro_instance, set_instance, add32, sub32, is_p1_pending, is_p1_ready, is_p2_pending,
  is_p2_completed, vh_push_back_value,
}
use fds.Leader.Phase1.{leader_periodic_p1_check}
use fds.Leader.Phase2.{leader_open_instances_p2_new}

abbrev pub opened_by_me : InstInfo → Bool
opened_by_me ii =
    (is_p1_pending ii.status && is_some ii.p2_value)
    || (is_p1_ready ii.status && is_some ii.p2_value)
    || is_p2_pending ii.status

-- The instance is closed: the counters, the value of another pushed back, the record cleared.
unfoldable pub close_instance : Value → ℕ → Proposer → Proposer
close_instance value iid st =
    let ii = pro_instance st iid in
    set_instance
      (record st {
        pending_count =
            if is_p1_pending ii.status then sub32 st.pending_count 1 else st.pending_count;
        next_unused_iid =
            if st.next_unused_iid == iid then add32 st.next_unused_iid 1 else st.next_unused_iid;
        open_count = if opened_by_me ii then sub32 st.open_count 1 else st.open_count;
        pending =
            if has_value ii.p2_value value
            then st.pending
            else vh_push_back_value ii.p2_value st.pending;
      })
      iid (pro_clear_instance_info ii)

-- One iteration of the loop of `leader_shutdown`.
abbrev pub shutdown_step : ℕ → Proposer → Proposer
shutdown_step i st =
    let ii = pro_instance st i in
    set_instance
      (record st {
        pending =
            if not (is_p2_completed ii.status)
            then vh_push_back_value ii.p2_value st.pending
            else st.pending;
      })
      i (pro_clear_instance_info ii)

-- The loop from `i` on, for the given number of instances.
pub shutdown_loop : ℕ → ℕ → Proposer → Proposer
shutdown_loop zero i st = st
shutdown_loop (suc n) i st = shutdown_loop n (i + 1) (shutdown_step i st)

-- The new state, and the values whose clients are told by `vh_shutdown` that they failed.
unfoldable pub leader_shutdown : Proposer → Proposer × List Value
leader_shutdown st =
    let st' = shutdown_loop (st.highest_open + 1 - st.current_iid) st.current_iid st in
    (record st' { pending = [] }, st'.pending)

module _ (gettimeofday : ℕ → Timeval) where
  unfoldable pub leader_deliver : Value → ℕ → Proposer → Option (Proposer × List Event)
  leader_deliver value iid st =
      if not ((pro_instance st iid).iid == iid)
      then some (st, [])
      else leader_open_instances_p2_new gettimeofday (close_instance value iid st)

  -- The list is emptied by `vh_init`. Its failure, that of a socket, is not modelled.
  unfoldable pub leader_init : Proposer → Option (Proposer × List Event)
  leader_init st = do
    (st', es) ← leader_periodic_p1_check gettimeofday (record st {
      p1_timeout = 0;
      p2_timeout = 0;
      p2_waits_p1 = 0;
      pending = [];
      dropped_count = 0;
      pending_count = 0;
      ready_count = 0;
      highest_open = sub32 st.current_iid 1;
    })
    some (record st' { next_unused_iid = st'.current_iid; open_count = 0 }, es)
