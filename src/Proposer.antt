-- ===== src/Proposer.antt =====
-- paxos2/lib/proposer.c: the proposer's handlers. A proposer that is not the leader ignores the
-- acceptors' promises. A result `none` is an assertion of the leader's routines that fails.
pub mod Majority
pub mod Completes
pub mod Replaced
pub mod Restart
use fds.Prelude.{
  ℕ, zero, suc, ◌+◌, ◌-◌, List, [], ◌∷◌, ◌++◌, Bool, true, false, ◌&&◌, not, Option, none, some,
  ltb, leb, ◌==◌, if◌then◌else◌, ◌>>=◌, is_some,
}
use fds.Messages.{PrepareAck, Packet, Event, prepare_acks, leader_announce, submit}
use fds.Config.{quorum, max_n_of_proposers}
use fds.SendBuf.{sendbuf_send_ping}
use fds.Instance.{InstInfo, Timeval, Value, p1_ready, pro_save_prepare_ack}
use fds.Learner.{Delivery, next_iid}
use fds.Leader.State.{
  Proposer, pro_instance, set_instance, add32, sub32, is_p1_pending, vh_enqueue_value,
}
use fds.Leader.Phase2.{leader_open_instances_p2_expired, leader_open_instances_p2_new}
use fds.Leader.Deliver.{leader_deliver, leader_init, leader_shutdown}

-- LEADER_IS_ME
abbrev pub leader_is_me : Proposer → Bool
leader_is_me st = st.this_proposer_id == st.current_leader_id

-- A promise that is not dropped: of an instance in phase 1, with the instance's ballot.
abbrev pub is_awaited : InstInfo → PrepareAck → Bool
is_awaited ii pa = is_p1_pending ii.status && (pa.ballot == ii.my_ballot)

-- Whether the instance became ready (1 or 0 in the code), and the new state.
unfoldable pub handle_prepare_ack : PrepareAck → ℕ → Proposer → Bool × Proposer
handle_prepare_ack pa acceptor_id st =
    let ii = pro_instance st pa.iid in
    let ii' = pro_save_prepare_ack ii pa acceptor_id in
    if is_awaited ii pa
    then (if ltb ii'.promises_count quorum then (false, set_instance st pa.iid ii') else (
      true,
      set_instance
          (record st {
            pending_count = sub32 st.pending_count 1;
            ready_count = add32 st.ready_count 1;
          })
          pa.iid (record ii' { status = p1_ready }),
    ))
    else (false, st)

-- The loop over a batch: whether any instance became ready.
pub prepare_ack_loop : List PrepareAck → ℕ → Proposer → Bool × Proposer
prepare_ack_loop [] acceptor_id st = (false, st)
prepare_ack_loop (pa ∷ pas) acceptor_id st =
    let (ready, st') = handle_prepare_ack pa acceptor_id st in
    let (more, st'') = prepare_ack_loop pas acceptor_id st' in (if ready then true else more, st'')

-- A value from a client, which `vh_handle_newmsg` queues; `none` is an invalid message.
unfoldable pub vh_handle_newmsg : Option Packet → Proposer → Proposer
vh_handle_newmsg (some (submit value)) st = vh_enqueue_value value st
vh_handle_newmsg _ st = st

-- The ping, whose sequence number wraps at 2^64, which is not modelled.
unfoldable pub pro_ping_failure_detector : Proposer → Proposer × List Event
pro_ping_failure_detector st =
    let seqno = st.alive_ping_seqno + 1 in
    (record st { alive_ping_seqno = seqno }, sendbuf_send_ping st.this_proposer_id seqno)

-- `proposer_init`: the ids that it accepts.
abbrev pub is_proposer_id : ℕ → Bool
is_proposer_id proposer_id = ltb proposer_id max_n_of_proposers

module _ (gettimeofday : ℕ → Timeval) where
  unfoldable pub handle_prepare_ack_batch :
      List PrepareAck → ℕ → Proposer → Option (Proposer × List Event)
  handle_prepare_ack_batch pas acceptor_id st =
      let (ready, st') = prepare_ack_loop pas acceptor_id st in
      if not (leader_is_me st)
      then some (st, [])
      else (if ready
          then (do
            (st1, es) ← leader_open_instances_p2_expired gettimeofday st'
            (st2, fs) ← leader_open_instances_p2_new gettimeofday st1
            some (st2, es ++ fs))
          else some (st', []))

  -- `none` in the message is one that `udp_read_next_message` finds invalid.
  unfoldable pub pro_handle_newmsg : Option Packet → Proposer → Option (Proposer × List Event)
  pro_handle_newmsg (some (prepare_acks acceptor_id pas)) st =
      handle_prepare_ack_batch pas acceptor_id st
  pro_handle_newmsg _ st = some (st, [])

  -- The learner's callback for one delivery.
  unfoldable pub pro_deliver_callback : Delivery → Proposer → Option (Proposer × List Event)
  pro_deliver_callback dl st = do
    (st', es) ←
        (if leader_is_me st then leader_deliver gettimeofday dl.value dl.iid st else some (st, []))
    some (record st' { current_iid = next_iid dl.iid }, es)

  -- The deliveries of one message to the learner, in order.
  pub deliver_all : List Delivery → Proposer → Option (Proposer × List Event)
  deliver_all [] st = some (st, [])
  deliver_all (dl ∷ ds) st = do
    (st', es) ← pro_deliver_callback dl st
    (st'', fs) ← deliver_all ds st'
    some (st'', es ++ fs)

  -- The clients' values are lost with the leadership: the last result are those that failed.
  unfoldable pub pro_handle_oracle_msg :
      Option Packet → Proposer → Option (Proposer × List Event × List Value)
  pro_handle_oracle_msg (some (leader_announce leader)) st =
      let (down, failed) = leader_shutdown st in
      if leader_is_me st && not (leader == st.this_proposer_id)
      then some (record down { current_leader_id = leader }, [], failed)
      else (if not (leader_is_me st) && (leader == st.this_proposer_id)
          then (do
            (up, es) ← leader_init gettimeofday st
            some (record up { current_leader_id = leader }, es, []))
          else some (record st { current_leader_id = leader }, [], []))
  pro_handle_oracle_msg _ st = some (st, [], [])
