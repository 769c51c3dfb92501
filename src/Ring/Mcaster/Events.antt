-- ===== src/Ring/Mcaster/Events.antt =====
-- ring_paxos/ring-paxos/acceptor_events.c: every event of the multicaster keeps the invariant.
use fds.Prelude.{◌≤◌, Ensures, ensures_bind, All}
use fds.Ring.Types.{CommandId, Timeval}
use fds.Ring.Mcaster.Storage.{McasterConfig}
use fds.Ring.Mcaster.State.{Mcaster, mcaster_update_wallclock}
use fds.Ring.Mcaster.Open.{
  on_mcaster_periodic_check, mcaster_open_new_instances_P1, mcaster_check_expired_instances,
  mcaster_open_new_instances_P2,
}
use fds.Ring.Mcaster.Handlers.{
  McasterEvent, clock_read, predecessor_phase1, predecessor_phase1_range, predecessor_phase2,
  map_requested, chosenval_requested, value_submitted, periodic_check, on_mcaster_event,
  mcaster_handle_value_submit,
}
use fds.Ring.Mcaster.Inv.{IsConfig, Inv}
use fds.Ring.Mcaster.Opened.{mcaster_open_new_instances_P1-Inv, mcaster_check_expired_instances-Inv}
use fds.Ring.Mcaster.Proposed.{mcaster_open_new_instances_P2-Inv}
use fds.Ring.Mcaster.Answered.{mcaster_handle_phase1_msg-Inv, mcaster_handle_phase1_range_msg-Inv}
use fds.Ring.Mcaster.Requested.{
  IsKnown, mcaster_handle_map_request-Inv, mcaster_handle_chosenval_request-Inv,
  mcaster_handle_value_submit-Inv,
}
use fds.Ring.Mcaster.Closed.{mcaster_handle_phase2_msg-Inv}

-- The instances that a message names are opened in phase 1.
abbrev pub IsExpected : Mcaster → McasterEvent → Type 0
IsExpected acc (predecessor_phase1 stale address msg) = msg.inst_number ≤ acc.p1_highest_open
IsExpected acc (predecessor_phase1_range msg) = (msg.from ≤ msg.to) × (msg.to ≤ acc.p1_highest_open)
IsExpected acc (predecessor_phase2 msg) = msg.inst_number ≤ acc.p1_highest_open
IsExpected acc (map_requested is) = All (IsKnown acc) is
IsExpected acc (chosenval_requested is) = All (IsKnown acc) is
IsExpected acc _ = Unit {0}

clock-Inv :
    (cfg : McasterConfig) (now : Timeval) (acc : Mcaster)
    → Inv cfg acc
    → Inv cfg (mcaster_update_wallclock now acc)
clock-Inv cfg now acc v = record { bounded = v.bounded; slots = v.slots }

on_mcaster_periodic_check-Inv :
    (cfg : McasterConfig) (stale : CommandId) (t1 t2 t3 : Timeval) (acc : Mcaster)
    → IsConfig cfg
    → Inv cfg acc
    → Ensures (on_mcaster_periodic_check cfg stale t1 t2 t3 acc) (Inv cfg)
unfolding on_mcaster_periodic_check
on_mcaster_periodic_check-Inv cfg stale t1 t2 t3 acc w v =
    ensures_bind (Inv cfg) (Inv cfg)
      (mcaster_open_new_instances_P1 cfg (mcaster_update_wallclock t1 acc)) _
      (mcaster_open_new_instances_P1-Inv cfg w _ (clock-Inv cfg t1 acc v))
      λ acc1 v1.
        ensures_bind (Inv cfg) (Inv cfg)
          (mcaster_check_expired_instances cfg stale (mcaster_update_wallclock t2 acc1)) _
          (mcaster_check_expired_instances-Inv cfg w stale _ (clock-Inv cfg t2 acc1 v1))
          λ acc2 v2.
            ensures_bind (Inv cfg) (Inv cfg)
              (mcaster_open_new_instances_P2 cfg (mcaster_update_wallclock t3 acc2)) _
              (mcaster_open_new_instances_P2-Inv cfg _ w (clock-Inv cfg t3 acc2 v2))
              (λ acc3 v3. record { bounded = v3.bounded; slots = v3.slots })

-- Let the windows of the configuration be less than 2 ^ 31 and fit together in the circular buffer,
-- which is not empty, and let the instances that a message names, if the event is one, be among those
-- opened in phase 1. If the event is handled without a failed assertion, a fault of memory or a loop
-- that does not end, it keeps the invariant: no instance is closed that is not opened in phase 2, and
-- none opened in phase 2 that is not in phase 1; `p1_ready_count` is the number of instances that
-- are opened in phase 1 and not in phase 2; neither window is exceeded. The slot of an instance above
-- the closed ones, as far as there are slots, holds that instance with status p2_pending or done
-- where it is opened in phase 2, and p1_pending or p1_done and no command where it is opened in
-- phase 1 only. The slot of one that is not opened is unused, ready without a command, or that of
-- the last instance of the slot, which is done.
pub on_mcaster_event-Inv :
    (cfg : McasterConfig) (event : McasterEvent) (acc : Mcaster)
    → IsConfig cfg
    → IsExpected acc event
    → Inv cfg acc
    → Ensures (on_mcaster_event cfg event acc) (Inv cfg)
unfolding on_mcaster_event
on_mcaster_event-Inv cfg (clock_read now) acc w x v = clock-Inv cfg now acc v
on_mcaster_event-Inv cfg (predecessor_phase1 stale address msg) acc w x v =
    mcaster_handle_phase1_msg-Inv cfg w stale address msg acc x v
on_mcaster_event-Inv cfg (predecessor_phase1_range msg) acc w x v =
    mcaster_handle_phase1_range_msg-Inv cfg w msg acc x.0 x.1 v
on_mcaster_event-Inv cfg (predecessor_phase2 msg) acc w x v =
    mcaster_handle_phase2_msg-Inv cfg w msg acc x v
on_mcaster_event-Inv cfg (map_requested is) acc w x v =
    mcaster_handle_map_request-Inv cfg w acc v is x
on_mcaster_event-Inv cfg (chosenval_requested is) acc w x v =
    mcaster_handle_chosenval_request-Inv cfg w acc v is x
on_mcaster_event-Inv cfg (value_submitted address cmd_value bytes) acc w x v =
    ensures_bind (Inv cfg) (λ t. Inv cfg t.1)
      (mcaster_handle_value_submit address cmd_value bytes acc) _
      (mcaster_handle_value_submit-Inv cfg w acc v address cmd_value bytes) (λ t q. q)
on_mcaster_event-Inv cfg (periodic_check stale t1 t2 t3) acc w x v =
    on_mcaster_periodic_check-Inv cfg stale t1 t2 t3 acc w v
