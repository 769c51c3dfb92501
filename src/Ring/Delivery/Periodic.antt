-- ===== src/Ring/Delivery/Periodic.antt =====
-- ring_paxos/lib/delivery_queue.c, `dq_periodic_check`; its callbacks are events.
use fds.Prelude.{
  ℕ, zero, suc, ◌+◌, List, [], ◌∷◌, ◌++◌, Bool, true, false, ◌&&◌, ◌||◌, not, Option, none, some,
  ltb, leb, ◌==◌, if◌then◌else◌, ◌>>=◌,
}
use fds.Ring.Types.{Timeval, timer_set_timeout, timer_is_expired}
use fds.Ring.Delivery.{DeliveryQueue, entry_of, set_entry, dq_get_entry, is_deliverable, max_of}

-- What the periodic check asks for, by its callbacks.
pub data DqEvent : Type 0 where
  missing_cmdmap : ℕ → DqEvent
  missing_acceptance : ℕ → DqEvent
  post_check : DqEvent

abbrev pub is_zero_time : Timeval → Bool
is_zero_time t = (t.tv_sec == 0) && (t.tv_usec == 0)

abbrev pub request_timeout : Timeval
request_timeout = record { tv_sec = 0; tv_usec = 10000 }

module _ (time_now : Timeval) where
  -- The request for a mapping that is unknown.
  unfoldable pub check_mapping : ℕ → DeliveryQueue → DeliveryQueue × List DqEvent
  unfolding timer_set_timeout timer_is_expired
  check_mapping i dq =
      let e = entry_of dq i in
      if not e.has_mapping
        && (is_zero_time e.cmdmap_request_timeout
            || timer_is_expired e.cmdmap_request_timeout time_now)
      then (
        set_entry dq i
            (record e { cmdmap_request_timeout = timer_set_timeout time_now request_timeout }),
        missing_cmdmap i ∷ [],
      )
      else (dq, [])

  -- The request for a final value, with its test on the timeout as it is written.
  unfoldable pub check_final_value : ℕ → DeliveryQueue → DeliveryQueue × List DqEvent
  unfolding timer_set_timeout timer_is_expired
  check_final_value i dq =
      let e = entry_of dq i in
      let t = e.finval_request_timeout in
      if ltb i dq.highest_seen_closed
        && ((not (t.tv_sec == 0) && not (t.tv_usec == 0)) || timer_is_expired t time_now)
      then (
        set_entry dq i
            (record e { finval_request_timeout = timer_set_timeout time_now request_timeout }),
        missing_acceptance i ∷ [],
      )
      else (dq, [])

  -- One round of the check.
  unfoldable pub check_instance : ℕ → DeliveryQueue → Option (DeliveryQueue × List DqEvent)
  unfolding dq_get_entry check_mapping check_final_value
  check_instance i dq = dq_get_entry i dq >>= λ dq.
      if is_deliverable (entry_of dq i)
      then some (dq, [])
      else (let r = check_mapping i dq in let s = check_final_value i r.0 in some (s.0, r.1 ++ s.1))

  abbrev pub has_next : ℕ → ℕ → DeliveryQueue → Bool
  has_next upper_limit i dq = leb i upper_limit && ltb i (dq.highest_delivered + dq.queue_size)

  -- The loop from `i` to the limit; a round past `highest_delivered + queue_size` ends it, so
  -- `n` rounds are `queue_size` in `dq_periodic_check`.
  unfoldable pub check_rounds : ℕ → ℕ → ℕ → DeliveryQueue → Option (DeliveryQueue × List DqEvent)
  unfolding check_instance
  check_rounds zero upper_limit i dq = if has_next upper_limit i dq then none else some (dq, [])
  check_rounds (suc n) upper_limit i dq = elim (has_next upper_limit i dq) [
    | false ↦ some (dq, [])
    | true ↦ check_instance i dq >>= λ r.
        check_rounds n upper_limit (i + 1) r.0 >>= λ s. some (s.0, r.1 ++ s.1)
  ]

  unfoldable pub dq_periodic_check : DeliveryQueue → Option (DeliveryQueue × List DqEvent)
  unfolding check_rounds
  dq_periodic_check dq =
      check_rounds dq.queue_size (max_of dq.highest_seen_closed dq.highest_seen_cmdmap)
        (dq.highest_delivered + 1) dq
      >>= λ r. some (r.0, r.1 ++ post_check ∷ [])
