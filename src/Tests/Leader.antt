-- ===== src/Tests/Leader.antt =====
-- The theorems on instances, on the leader's phases and on the proposer's promises, and runs of them.
use fds.Prelude.{
  Option, ℕ, ◌≡◌, ◌≢◌, ◌<◌, ◌≤◌, ◌+◌, ◌%◌, refl, List, [], ◌∷◌, none, some, arith, true, false,
}
use fds.Messages.{Event, PrepareAck}
use fds.Config.{quorum}
use fds.Instance.{
  InstInfo, Timeval, empty, p1_pending, p1_ready, p2_pending, expiration, leader_is_expired,
  a_second,
}
use fds.Instance.Promises.{save_all, Chosen, save_all-Chosen}
use fds.Instance.Deadline.{micros, micros-expiration}
use fds.Leader.State.{Proposer, pro_instance}
use fds.Leader.Phase2.{
  new_loop, begin_p2, phase2_value, p2_check_step, leader_execute_p2, leader_open_instances_p2_new,
}
use fds.Leader.Phase2.Execute.{Executed}
use fds.Leader.Phase2.Window.{Opened}
use fds.Leader.Phase1.{leader_open_instances_p1}
use fds.Leader.Phase1.Opened.{IsOpened, leader_open_instances_p1_lem}
use fds.Proposer.{handle_prepare_ack}
use fds.Proposer.Majority.{duplicate_promise_completes}
use fds.Proposer.Completes.{IsCounting, IsComplete, handle_all, of_ballot, handle_all-quorum}
use fds.Proposer.Replaced.{replaced_value_lost}
use fds.SendBuf.{sendbuf_clear}
use fds.Learner.{init_learner, learner_is_closed}
use fds.Proposer.Restart.{one_promise_after_timeout}
use fds.Tests.Data.{promise1, promise2}

abbrev clock : ℕ → Timeval
clock n = record { tv_sec = n; tv_usec = 0 }

abbrev unused : InstInfo
unused = record {
  iid = 0;
  status = empty;
  my_ballot = 0;
  promises_bitvector = 0;
  promises_count = 0;
  p1_value = none;
  p1_value_ballot = 0;
  p2_value = none;
  timeout = record { tv_sec = 0; tv_usec = 0 };
}

-- Instance 1 in phase 1.
abbrev waiting : InstInfo
waiting = record unused { iid = 1; status = p1_pending; my_ballot = 11 }

-- A leader with the first instances ready, and values to propose.
abbrev leader : Proposer
leader = record {
  this_proposer_id = 1;
  current_leader_id = 1;
  alive_ping_seqno = 0;
  current_iid = 1;
  proposer_state = λ i. record unused { iid = i; status = p1_ready; my_ballot = 11 };
  pending_count = 0;
  ready_count = 300;
  highest_open = 300;
  next_unused_iid = 1;
  open_count = 0;
  pending = (1 ∷ []) ∷ (2 ∷ []) ∷ (3 ∷ []) ∷ (4 ∷ []) ∷ (5 ∷ []) ∷ [];
  dropped_count = 0;
  p1_timeout = 0;
  p2_timeout = 0;
  p2_waits_p1 = 0;
  clock_reads = 0;
}

abbrev waiting_leader : Proposer
waiting_leader = record leader { proposer_state = λ i. waiting; pending_count = 1 }

save_all-Chosen_example :
    Chosen waiting
      ((0, promise1) ∷ (1, promise2) ∷ [])
      (save_all waiting ((0, promise1) ∷ (1, promise2) ∷ []))
save_all-Chosen_example = save_all-Chosen waiting ((0, promise1) ∷ (1, promise2) ∷ []) refl

-- 30 milliseconds before the full second.
abbrev before_full : Timeval
before_full = record { tv_sec = 5; tv_usec = 970000 }

micros-expiration_example :
    (before_full.tv_usec + 30000 % a_second ≢ a_second
      → micros (expiration before_full 30000) ≡ micros before_full + 30000)
    × (before_full.tv_usec + 30000 % a_second ≡ a_second
        → micros (expiration before_full 30000) + a_second ≡ micros before_full + 30000)
micros-expiration_example = micros-expiration before_full 30000 (ground arith)

-- A promise of another ballot, and two of the awaited one.
abbrev three_promises : List (ℕ × PrepareAck)
three_promises = (0, record promise1 { ballot = 21 }) ∷ (1, promise1) ∷ (2, promise2) ∷ []

waiting_leader-IsCounting : IsCounting 1 11 0 1 300 waiting_leader
waiting_leader-IsCounting = record {
  waits = refl;
  ballot = refl;
  no_marks = refl;
  count = refl;
  pending_same = refl;
  ready_same = refl;
}

handle_all-quorum_example :
    (0 + of_ballot 11 three_promises < quorum
      → IsCounting 1 11
          (0 + of_ballot 11 three_promises)
          1
          300
          (handle_all three_promises waiting_leader))
    × (quorum ≤ 0 + of_ballot 11 three_promises
        → IsComplete 1 11 1 300 (handle_all three_promises waiting_leader))
handle_all-quorum_example =
    handle_all-quorum 1 11 0 1 300 three_promises waiting_leader (refl, (refl, (refl, tt)))
      (ground arith) waiting_leader-IsCounting

duplicate_promise_completes_example :
    (let (first, st') = handle_prepare_ack promise1 2 waiting_leader in
      let (second, st'') = handle_prepare_ack promise1 2 st' in
      (first ≡ false) × (second ≡ true) × ((pro_instance st'' 1).status ≡ p1_ready))
duplicate_promise_completes_example =
    duplicate_promise_completes promise1 2 waiting_leader refl refl refl

-- The instance has the client's value 9, and the promise brings another one.
abbrev owning_leader : Proposer
owning_leader = record waiting_leader {
  proposer_state = λ i. record waiting { p2_value = some (9 ∷ []) };
}

abbrev promise_of_7 : PrepareAck
promise_of_7 = record { iid = 1; ballot = 11; value_ballot = 1; value = 7 ∷ [] }

replaced_value_lost_example :
    (let st' = (handle_prepare_ack promise_of_7 0 owning_leader).1 in
      ((pro_instance st' 1).p1_value ≡ some (7 ∷ []))
      × ((pro_instance st' 1).p2_value ≡ some (9 ∷ []))
      × Executed clock 1 st'
          (sendbuf_clear 1)
          (7 ∷ [])
          leader.pending
          (leader_execute_p2 clock 1 st' (sendbuf_clear 1)))
replaced_value_lost_example =
    replaced_value_lost clock promise_of_7 0 owning_leader (9 ∷ []) (sendbuf_clear 1) refl refl refl
      (ground arith) (ground arith)

-- Instance 1 in phase 2, with two promises of its phase 1.
abbrev timed_out_leader : Proposer
timed_out_leader = record leader {
  proposer_state = λ i. record waiting { status = p2_pending; promises_count = 2; my_ballot = 1 };
}

one_promise_after_timeout_example :
    (let st' =
        (p2_check_step clock init_learner before_full 1 timed_out_leader (sendbuf_clear 1)).0 in
      let (ready, st'') = handle_prepare_ack promise1 2 st' in
      ((pro_instance st' 1).status ≡ p1_pending)
      × (ready ≡ true)
      × ((pro_instance st'' 1).status ≡ p1_ready))
unfolding learner_is_closed leader_is_expired
one_promise_after_timeout_example =
    one_promise_after_timeout clock init_learner before_full timed_out_leader (sendbuf_clear 1)
      promise1 2 refl refl refl refl (ground arith) refl

abbrev open_after : Option (Proposer × List Event) → ℕ
open_after none = 0
open_after (some r) = r.0.open_count

-- Five values wait, and four instances are opened.
opens_four : open_after (leader_open_instances_p2_new clock leader) ≡ 4
unfolding leader_open_instances_p2_new new_loop leader_execute_p2 begin_p2 phase2_value
opens_four = refl

abbrev new_leader : Proposer
new_leader = record leader { proposer_state = λ i. unused; ready_count = 0; highest_open = 0 }

leader_open_instances_p1_lem_example :
    (st' : Proposer) × (es : List Event) × (leader_open_instances_p1 clock new_leader
      ≡ some (st', es))
    × (st'.pending_count + st'.ready_count ≡ 300)
    × (st'.ready_count ≡ 0)
    × (st'.highest_open + 0 + 0 ≡ 0 + 300)
    × ((iid : ℕ) → 0 < iid → iid ≤ st'.highest_open → IsOpened st' iid)
leader_open_instances_p1_lem_example =
    leader_open_instances_p1_lem clock new_leader (ground arith) (ground arith) (λ k lt. refl)
