-- ===== src/Leader/Phase2/Window.antt =====
-- paxos2/lib/proposer_leader.c, `leader_open_instances_p2_new`: how many instances it opens.
use fds.Prelude.{ℕ, ◌+◌, ◌≤◌, ◌<◌, ◌≡◌, List, [], none, ◌⊎◌}
use fds.Messages.{Event}
use fds.Config.{proposer_p2_concurrency}
use fds.SendBuf.{SendBuf}
use fds.Instance.{Timeval}
use fds.Leader.State.{Proposer, pro_instance, sub32}
use fds.Leader.Phase2.{treshold}

module _ (gettimeofday : ℕ → Timeval) where
  -- Phase 2 of one instance moves neither the window nor the counters.
  record Same (st st' : Proposer) : Type 0 where
    same_next : st'.next_unused_iid ≡ st.next_unused_iid
    same_open : st'.open_count ≡ st.open_count
    same_ready : st'.ready_count ≡ st.ready_count
    same_current : st'.current_iid ≡ st.current_iid

  -- What the loop leaves, for the number of instances it opened.
  record Opens (rounds : ℕ) (st st' : Proposer) (count : ℕ) : Type 0 where
    count-le : count ≤ rounds
    opens_next : st'.next_unused_iid ≡ st.next_unused_iid + count
    opens_open : st'.open_count ≡ st.open_count
    opens_ready : st'.ready_count ≡ st.ready_count
    opens_current : st'.current_iid ≡ st.current_iid

  -- The next instances have no phase 2 value.
  abbrev pub Fresh : ℕ → Proposer → Type 0
  Fresh rounds st =
      (k : ℕ) → k < rounds → (pro_instance st (st.next_unused_iid + k)).p2_value ≡ none

  -- The outcome of the function: nothing while more than `treshold` instances are open, or `count`
  -- instances opened.
  abbrev pub Opened : Proposer → Proposer × List Event → Type 0
  Opened st r =
      ((treshold < st.open_count) × (r ≡ (st, [])))
      ⊎ ((count : ℕ) × (st.open_count + count ≤ proposer_p2_concurrency + 1)
          × (r.0.open_count ≡ st.open_count + count)
          × (r.0.next_unused_iid ≡ st.next_unused_iid + count)
          × (r.0.ready_count ≡ sub32 st.ready_count count)
          × (r.0.current_iid ≡ st.current_iid))
