-- ===== src/Tests/Mcaster.antt =====
-- The theorems on the multicaster of ring_paxos at concrete inputs.
use fds.Prelude.{ℕ, ◌≡◌, ◌*◌, refl, List, [], ◌∷◌, ◌++◌, Option, none, some, true, arith, Ensures}
use fds.Ring.Types.{CommandId, null_key}
use fds.Ring.Ballot.{is_my_ballot}
use fds.Ring.Acceptor.State.{Phase1Msg, Phase1RangeMsg}
use fds.Ring.Queue.{LpQueue, no_element, cvm_get_next_value, queue_pop}
use fds.Ring.Mcaster.Storage.{McasterConfig, create_value_key, read_value}
use fds.Ring.Mcaster.State.{Mcaster, multicaster_init, mcast_command_map, mcast_phase2}
use fds.Ring.Mcaster.Open.{open_p2_step}
use fds.Ring.Mcaster.Handlers.{
  McasterEvent, predecessor_phase1_range, predecessor_phase2, value_submitted, periodic_check,
  on_mcaster_event, mcaster_handle_phase1_msg, mcaster_handle_phase1_range_msg,
  mcaster_handle_map_request, mcaster_handle_chosenval_request,
}
use fds.Ring.Mcaster.Inv.{IsConfig, Inv, init-Inv}
use fds.Ring.Mcaster.Events.{IsExpected, on_mcaster_event-Inv}
use fds.Ring.Mcaster.Repeated.{phase1_range_repeated-stops, old_request-stops}
use fds.Ring.Mcaster.Dropped.{accepted_command-dropped}

-- Four slots, two instances in phase 1 and at most one in phase 2.
abbrev small_config : McasterConfig
small_config = record {
  self_acceptor_id = 1;
  incarnation_number = 0;
  quorum_size = 1;
  working_set_size = 2;
  max_active_instances = 1;
  preexecution_window_size = 2;
  max_p2_open_per_iteration = 2;
  p1_interval = record { tv_sec = 1; tv_usec = 0 };
  p2_interval = record { tv_sec = 1; tv_usec = 0 };
  retransmit_request_interval = record { tv_sec = 0; tv_usec = 500000 };
}

small_config-IsConfig : IsConfig small_config
small_config-IsConfig = record {
  windows = omega arith;
  positive = omega arith;
  small = omega arith;
  small' = omega arith;
}

abbrev empty_queue : LpQueue
empty_queue = record {
  queue_count = 0;
  max_count = 4;
  queue_size = 0;
  read_index = 0;
  write_index = 0;
  queue = λ i. no_element;
}

abbrev started : Mcaster
started = multicaster_init small_config empty_queue (λ p. none)

-- The state after an event that is handled.
abbrev after : McasterEvent → Mcaster → Mcaster
unfolding on_mcaster_event multicaster_init
after event acc = elim (on_mcaster_event small_config event acc) [ some acc' ↦ acc' | none ↦ acc ]

after-Inv :
    (event : McasterEvent) (acc : Mcaster)
    → IsExpected acc event
    → Inv small_config acc
    → Inv small_config (after event acc)
unfolding after on_mcaster_event
after-Inv event acc x v =
    kept (on_mcaster_event small_config event acc)
      (on_mcaster_event-Inv small_config event acc small_config-IsConfig x v)
  where
    kept :
        (o : Option Mcaster)
        → Ensures o (Inv small_config)
        → Inv small_config (elim o [ some acc' ↦ acc' | none ↦ acc ])
    kept none h = v
    kept (some acc') h = h

abbrev run : List McasterEvent → Mcaster → Mcaster
run [] acc = acc
run (event ∷ events) acc = run events (after event acc)

abbrev AllExpected : List McasterEvent → Mcaster → Type 0
AllExpected [] acc = Unit
AllExpected (event ∷ events) acc = IsExpected acc event × AllExpected events (after event acc)

run-Inv :
    (events : List McasterEvent) (acc : Mcaster)
    → AllExpected events acc
    → Inv small_config acc
    → Inv small_config (run events acc)
run-Inv [] acc x v = v
run-Inv (event ∷ events) acc x v = run-Inv events (after event acc) x.1 (after-Inv event acc x.0 v)

abbrev check_at : ℕ → McasterEvent
check_at t =
    periodic_check null_key (record { tv_sec = t; tv_usec = 0 })
      (record { tv_sec = t; tv_usec = 1 }) (record { tv_sec = t; tv_usec = 2 })

on_mcaster_event-Inv_example :
    Ensures (on_mcaster_event small_config (check_at 7) started) (Inv small_config)
on_mcaster_event-Inv_example =
    on_mcaster_event-Inv small_config (check_at 7) started small_config-IsConfig tt
      (init-Inv small_config empty_queue (λ p. none))

-- A value is submitted, and two instances are opened in phase 1.
abbrev two_events : List McasterEvent
two_events = value_submitted 100 50 (5 ∷ 6 ∷ []) ∷ check_at 7 ∷ []

abbrev opened : Mcaster
opened = run two_events started

opened-Inv : Inv small_config opened
opened-Inv =
    run-Inv two_events started (tt, (tt, tt)) (init-Inv small_config empty_queue (λ p. none))

-- Phase 1 reports a command that was accepted.
abbrev answer : Phase1Msg
answer = record {
  inst_number = 1;
  ballot = 65792;
  promises_count = 1;
  highest_accepted_ballot = 66049;
  highest_promised_ballot = 66049;
  cmd_key = record { mcaster_id = 2; mcaster_incarnation = 1; cmd_seqnum = 9 };
  cmd_value = 9 ∷ [];
}

abbrev first_key : CommandId
first_key = record { mcaster_id = 1; mcaster_incarnation = 0; cmd_seqnum = 1 }

accepted_command-dropped_example :
    (acc1 : Mcaster) × (acc2 : Mcaster) × (mcaster_handle_phase1_msg small_config null_key 200
        answer opened
      ≡ some acc1)
    × (open_p2_step small_config acc1 ≡ some (true, acc2))
    × (acc2.sent
        ≡ opened.sent
          ++ mcast_command_map
              (record { inst_number = 1; cmd_key = first_key; cmd_value = 5 ∷ 6 ∷ [] })
            ∷ mcast_phase2
                (record { inst_number = 1; ballot = 65792; accepts_count = 0; cmd_key = first_key })
            ∷ [])
unfolding on_mcaster_event multicaster_init is_my_ballot queue_pop read_value create_value_key
accepted_command-dropped_example =
    accepted_command-dropped small_config null_key 200 answer opened
      (record { address = 100; size = 2 }) (cvm_get_next_value opened.msm.cvm).1 (5 ∷ 6 ∷ [])
      small_config-IsConfig opened-Inv
      (record {
        above = omega arith;
        known = omega arith;
        mine = refl;
        number = refl;
        pending = refl;
        ballot = refl;
        quorum = omega arith;
      })
      refl (omega arith) refl refl

abbrev range_answer : ℕ → ℕ → Phase1RangeMsg
range_answer from to = record { from = from; to = to; ballot = 65792; promises_count = 1 }

phase1_range_repeated-stops_example :
    mcaster_handle_phase1_range_msg small_config
      (range_answer 1 2)
      (after (predecessor_phase1_range (range_answer 1 2)) opened)
    ≡ none
unfolding on_mcaster_event multicaster_init is_my_ballot
phase1_range_repeated-stops_example =
    phase1_range_repeated-stops small_config (range_answer 1 2) opened
      (after (predecessor_phase1_range (range_answer 1 2)) opened) refl (omega arith) (omega arith)
      (omega arith) refl

abbrev key : ℕ → CommandId
key n = record { mcaster_id = 1; mcaster_incarnation = 0; cmd_seqnum = n }

-- Instance `i` is proposed, and accepted by all.
abbrev closing : ℕ → List McasterEvent
closing i =
    check_at (10 * i)
    ∷ predecessor_phase2
        (record { inst_number = i; ballot = 65792; accepts_count = 1; cmd_key = key i })
    ∷ []

-- Four instances are closed, and two more are opened in phase 1.
abbrev many_events : List McasterEvent
many_events =
    value_submitted 100 50 (5 ∷ [])
      ∷ value_submitted 101 50 (6 ∷ [])
      ∷ value_submitted 102 50 (7 ∷ [])
      ∷ value_submitted 103 50 (8 ∷ [])
      ∷ check_at 7
      ∷ predecessor_phase1_range (range_answer 1 2)
      ∷ closing 1
    ++ closing 2
    ++ check_at 25 ∷ predecessor_phase1_range (range_answer 3 4) ∷ closing 3
    ++ closing 4
    ++ check_at 50 ∷ []

abbrev closed : Mcaster
closed = run many_events started

closed-Inv : Inv small_config closed
unfolding on_mcaster_event multicaster_init is_my_ballot
closed-Inv =
    run-Inv many_events started (omega arith) (init-Inv small_config empty_queue (λ p. none))

old_request-stops_example :
    (mcaster_handle_map_request small_config (1 ∷ []) closed ≡ none)
    × (mcaster_handle_chosenval_request (1 ∷ []) closed ≡ none)
unfolding on_mcaster_event multicaster_init is_my_ballot
old_request-stops_example =
    old_request-stops small_config closed small_config-IsConfig closed-Inv 1 [] (omega arith)
      (omega arith)
