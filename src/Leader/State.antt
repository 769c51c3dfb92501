-- ===== src/Leader/State.antt =====
-- paxos2/lib/proposer.c: the static variables of a proposer, and the table of its instances.
-- The list of pending values is the queue that Values/Queue shows the linked list to hold. Timers
-- are set by the event loop; `clock_reads` counts the calls of `gettimeofday`, whose results are an
-- argument of the functions that call it.
use fds.Prelude.{
  ℕ, ◌+◌, ◌-◌, ◌%◌, List, [], ◌∷◌, ◌++◌, Bool, true, false, Option, none, some, if◌then◌else◌,
  update, ltb, length,
}
use fds.Config.{proposer_array_size, u32_mod, leader_max_queue_length}
use fds.Instance.{
  InstInfo, Status, Timeval, Value, empty, p1_pending, p1_ready, p2_pending, p2_completed,
  expiration,
}

pub record Proposer : Type 0 where
  pub this_proposer_id : ℕ
  pub current_leader_id : ℕ
  pub alive_ping_seqno : ℕ
  -- Lowest instance for which no value has been chosen.
  pub current_iid : ℕ
  pub proposer_state : ℕ → InstInfo
  -- `p1_info`
  pub pending_count : ℕ
  pub ready_count : ℕ
  pub highest_open : ℕ
  -- `p2_info`
  pub next_unused_iid : ℕ
  pub open_count : ℕ
  -- The values handler's list, and how many values it has dropped.
  pub pending : List Value
  pub dropped_count : ℕ
  -- `lead_counters`
  pub p1_timeout : ℕ
  pub p2_timeout : ℕ
  pub p2_waits_p1 : ℕ
  pub clock_reads : ℕ

-- GET_PRO_INSTANCE: the mask is PROPOSER_ARRAY_SIZE - 1, of a power of two.
abbrev pub pro_index : ℕ → ℕ
pro_index iid = iid % proposer_array_size

abbrev pub pro_instance : Proposer → ℕ → InstInfo
pro_instance st iid = st.proposer_state (pro_index iid)

abbrev pub set_instance : Proposer → ℕ → InstInfo → Proposer
set_instance st iid ii = record st { proposer_state = update st.proposer_state (pro_index iid) ii }

-- Counters are `unsigned int`.
abbrev pub add32 : ℕ → ℕ → ℕ
add32 a b = (a + b) % u32_mod

abbrev pub sub32 : ℕ → ℕ → ℕ
sub32 a b = (a + u32_mod - b) % u32_mod

abbrev pub is_unused : Status → Bool
is_unused empty = true
is_unused _ = false

abbrev pub is_p1_pending : Status → Bool
is_p1_pending p1_pending = true
is_p1_pending _ = false

abbrev pub is_p1_ready : Status → Bool
is_p1_ready p1_ready = true
is_p1_ready _ = false

abbrev pub is_p2_pending : Status → Bool
is_p2_pending p2_pending = true
is_p2_pending _ = false

abbrev pub is_p2_completed : Status → Bool
is_p2_completed p2_completed = true
is_p2_completed _ = false

-- The list's functions as a queue of values.
abbrev pub vh_enqueue_value : Value → Proposer → Proposer
vh_enqueue_value v st =
    if ltb leader_max_queue_length (length st.pending)
    then record st { dropped_count = st.dropped_count + 1 }
    else record st { pending = st.pending ++ v ∷ [] }

abbrev pub vh_push_back_value : Option Value → List Value → List Value
vh_push_back_value none vs = vs
vh_push_back_value (some v) vs = v ∷ vs

abbrev pub vh_get_next_pending : List Value → Option Value × List Value
vh_get_next_pending [] = (none, [])
vh_get_next_pending (v ∷ vs) = (some v, vs)

module _ (gettimeofday : ℕ → Timeval) where
  abbrev pub leader_set_expiration : Proposer → InstInfo → ℕ → Proposer × InstInfo
  leader_set_expiration st ii usec_interval = (
    record st { clock_reads = st.clock_reads + 1 },
    record ii { timeout = expiration (gettimeofday st.clock_reads) usec_interval },
  )
