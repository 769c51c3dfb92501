-- ===== src/Ring/Mcaster/Open.antt =====
-- ring_paxos/ring-paxos/acceptor_helpers_mcaster.c: the periodic check, which opens instances in
-- phase 1 and in phase 2, and retries those that are expired.
use fds.Prelude.{
  ℕ, zero, suc, ◌+◌, ◌-◌, ◌/◌, ◌%◌, ◌^◌, ◌&&◌, Bool, true, false, not, Option, none, some, ltb, leb,
  ◌==◌, if◌then◌else◌, ◌>>=◌, ◌>>◌, assert,
}
use fds.Ring.Types.{CommandId, Timeval, timer_set_timeout, timer_is_expired}
use fds.Ring.Ballot.{make_first_ballot}
use fds.Ring.Delivery.{max_of}
use fds.Ring.Queue.{LpQueue, QueueElement, queue_pop, cvm_get_next_value}
use fds.Ring.Mcaster.Storage.{
  McasterStatus, empty, ready, p1_pending, p1_done, p2_pending, done, McasterConfig, is_ready,
  is_p1_pending, is_p1_done, mcaster_storage_get, mcaster_storage_assign_value,
}
use fds.Ring.Mcaster.State.{
  flush_mcast, flush_ring, Mcaster, mir_of, put_mir, send, get_mir, plus32, minus32, for_range,
  mcaster_update_wallclock, mcaster_do_phase1, mcaster_do_phase1_range, mcaster_do_phase2,
  mcaster_broadcast_mapping,
}

-- A round of the loop that opens instances.
unfoldable pub open_p1_step : McasterConfig → ℕ → ℕ → Mcaster → Option Mcaster
unfolding mcaster_storage_get timer_set_timeout
open_p1_step cfg b i acc = get_mir i acc >>= λ acc.
    let mir = mir_of acc i in
    assert ((mir.inst_number == i) && is_ready mir.status)
    >> some (
        put_mir i
          (record mir {
            status = p1_pending;
            ballot = b;
            timeout = timer_set_timeout acc.mcaster_clock cfg.p1_interval;
          })
          acc)

-- `to_open` instances are opened, from the first one that is not.
unfoldable pub open_range : McasterConfig → ℕ → Mcaster → Option Mcaster
unfolding open_p1_step for_range make_first_ballot
open_range cfg to_open acc =
    let b = make_first_ballot cfg.self_acceptor_id cfg.incarnation_number in
    let from = acc.p1_highest_open + 1 in
    let to = acc.p1_highest_open + to_open in
    for_range (open_p1_step cfg b) from to acc >>= λ acc.
    let acc = mcaster_do_phase1_range from to b acc in
    some (record acc {
      p1_highest_open = acc.p1_highest_open + to_open;
      p1_ready_count = plus32 acc.p1_ready_count to_open;
    })

unfoldable pub mcaster_open_new_instances_P1 : McasterConfig → Mcaster → Option Mcaster
unfolding open_range
mcaster_open_new_instances_P1 cfg acc =
    let active_count = plus32 acc.p1_ready_count acc.p1_ready_count in
    if leb (cfg.preexecution_window_size / 2) active_count
    then some acc
    else open_range cfg (minus32 cfg.preexecution_window_size active_count) acc

-- The `switch` on the status of a record.
unfoldable pub check_expired :
    McasterConfig → CommandId → ℕ → McasterStatus → Mcaster → Option Mcaster
unfolding timer_is_expired mcaster_do_phase1 mcaster_broadcast_mapping mcaster_do_phase2
check_expired cfg stale i p1_pending acc =
    if timer_is_expired (mir_of acc i).timeout acc.mcaster_clock
    then mcaster_do_phase1 cfg stale i acc
    else some acc
check_expired cfg stale i p2_pending acc =
    if timer_is_expired (mir_of acc i).timeout acc.mcaster_clock
    then mcaster_broadcast_mapping cfg i acc >>= (λ acc. some (mcaster_do_phase2 cfg i acc))
    else some acc
check_expired cfg stale i empty acc = some acc
check_expired cfg stale i ready acc = some acc
check_expired cfg stale i p1_done acc = some acc
check_expired cfg stale i done acc = some acc

unfoldable pub expired_step : McasterConfig → CommandId → ℕ → Mcaster → Option Mcaster
unfolding mcaster_storage_get check_expired
expired_step cfg stale i acc = get_mir i acc >>= λ acc.
    assert ((mir_of acc i).inst_number == i) >> check_expired cfg stale i (mir_of acc i).status acc

-- The loop with `n` instances left.
unfoldable pub expired_loop : McasterConfig → CommandId → ℕ → ℕ → Mcaster → Option Mcaster
unfolding expired_step
expired_loop cfg stale zero i acc = some acc
expired_loop cfg stale (suc n) i acc =
    expired_step cfg stale i acc >>= λ acc. expired_loop cfg stale n (i + 1) acc

unfoldable pub mcaster_check_expired_instances :
    McasterConfig → CommandId → Mcaster → Option Mcaster
unfolding expired_loop
mcaster_check_expired_instances cfg stale acc =
    let upper_bound = max_of acc.highest_open_iid acc.p1_highest_open in
    expired_loop cfg stale (upper_bound - acc.highest_closed_iid) (acc.highest_closed_iid + 1) acc

-- The mapping is broadcast and phase 2 begun, once the value is assigned.
unfoldable pub begin_phase2 : McasterConfig → ℕ → Mcaster → Option (Bool × Mcaster)
unfolding mcaster_broadcast_mapping mcaster_do_phase2
begin_phase2 cfg current_iid acc = mcaster_broadcast_mapping cfg current_iid acc >>= λ acc.
    let acc = mcaster_do_phase2 cfg current_iid acc in
    some (true, record acc { highest_open_iid = acc.highest_open_iid + 1 })

-- What follows `cvm_get_next_value` in the loop; the Boolean is whether it goes on.
unfoldable pub propose_value :
    McasterConfig → ℕ → Option QueueElement → LpQueue → Mcaster → Option (Bool × Mcaster)
unfolding mcaster_storage_assign_value begin_phase2
propose_value cfg current_iid none cvm acc =
    some (false, record acc { msm = record acc.msm { cvm = cvm } })
propose_value cfg current_iid (some e) cvm acc =
    mcaster_storage_assign_value cfg current_iid e.address e.size (record acc.msm { cvm = cvm })
    >>= λ msm.
        begin_phase2 cfg current_iid
          (record acc { msm = msm; p1_ready_count = minus32 acc.p1_ready_count 1 })

unfoldable pub open_p2_step : McasterConfig → Mcaster → Option (Bool × Mcaster)
unfolding mcaster_storage_get propose_value queue_pop
open_p2_step cfg acc =
    let current_iid = acc.highest_open_iid + 1 in
    if ltb acc.p1_highest_open current_iid
    then some (false, acc)
    else (if acc.p1_ready_count == 0
        then some (false, acc)
        else get_mir current_iid acc >>= λ acc.
            let mir = mir_of acc current_iid in
            assert (mir.inst_number == current_iid)
            >> (if not (is_p1_done mir.status)
                then assert (is_p1_pending mir.status) >> some (false, acc)
                else assert (not (mir.ballot == 0))
                  >> (let popped = cvm_get_next_value acc.msm.cvm in
                      propose_value cfg current_iid popped.0 popped.1 acc)))

-- `active_instances_range_size - (highest_open_iid - highest_closed_iid)`, of 64 bits.
abbrev pub range_left : McasterConfig → Mcaster → ℕ
range_left cfg acc =
    let active = (acc.highest_open_iid + (2 ^ 64 - acc.highest_closed_iid % 2 ^ 64)) % 2 ^ 64 in
    (cfg.max_active_instances + (2 ^ 64 - active)) % 2 ^ 64

-- The loop with `n` rounds left, of which the last one ends it at the latest.
unfoldable pub open_p2_rounds : McasterConfig → ℕ → ℕ → Mcaster → Option Mcaster
unfolding open_p2_step
open_p2_rounds cfg zero open_count acc = some acc
open_p2_rounds cfg (suc n) open_count acc = elim (range_left cfg acc == 0) [
  | true ↦ some acc
  | false ↦ open_p2_step cfg acc >>= λ r.
      elim (r.0 && ltb (open_count + 1) cfg.max_p2_open_per_iteration) [
        | true ↦ open_p2_rounds cfg n (open_count + 1) r.1
        | false ↦ some r.1
      ]
]

unfoldable pub mcaster_open_new_instances_P2 : McasterConfig → Mcaster → Option Mcaster
unfolding open_p2_rounds
mcaster_open_new_instances_P2 cfg acc =
    open_p2_rounds cfg (suc (acc.p1_highest_open - acc.highest_open_iid)) 0 acc

-- The clock is read three times.
unfoldable pub on_mcaster_periodic_check :
    McasterConfig → CommandId → Timeval → Timeval → Timeval → Mcaster → Option Mcaster
unfolding mcaster_open_new_instances_P1 mcaster_check_expired_instances
    mcaster_open_new_instances_P2
on_mcaster_periodic_check cfg stale t1 t2 t3 acc =
    mcaster_open_new_instances_P1 cfg (mcaster_update_wallclock t1 acc) >>= λ acc.
    mcaster_check_expired_instances cfg stale (mcaster_update_wallclock t2 acc) >>= λ acc.
    mcaster_open_new_instances_P2 cfg (mcaster_update_wallclock t3 acc) >>= λ acc.
    some (send flush_ring (send flush_mcast acc))
