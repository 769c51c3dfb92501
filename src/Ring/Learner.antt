-- ===== src/Ring/Learner.antt =====
-- ring_paxos/lib/ringpaxos_learner.c: messages from the multicaster go to the delivery queue, and
-- what the queue misses is asked for in batches.
-- A message comes here with its fields read; the assertions on its size are left out.
pub mod Stream
pub mod Asked
pub mod Requests
use fds.Prelude.{
  ℕ, ◌+◌, ◌-◌, ◌*◌, ◌/◌, List, [], ◌∷◌, ◌++◌, Option, some, none, leb, ltb, if◌then◌else◌, length,
  ◌>>=◌,
}
use fds.Ring.Types.{CommandId, Timeval}
use fds.Ring.Network.{max_message_size}
use fds.Ring.Delivery.{
  DeliveryQueue, Delivered, delivery_queue_handle_command_map, delivery_queue_handle_acceptance,
  dq_deliver_loop,
}
use fds.Ring.Delivery.Periodic.{
  DqEvent, missing_cmdmap, missing_acceptance, post_check, dq_periodic_check,
}

-- `cmdmap_msg`, `acceptance_msg`, and the types that a learner drops.
pub data McastMsg : Type 0 where
  command_map_msg : ℕ → CommandId → List ℕ → McastMsg
  acceptance_msg : ℕ → CommandId → McastMsg
  other_msg : McastMsg

unfoldable pub on_mcast_msg : McastMsg → DeliveryQueue → Option Delivered
unfolding delivery_queue_handle_command_map delivery_queue_handle_acceptance
on_mcast_msg (command_map_msg inst_number cmd_key cmd_value) dq =
    delivery_queue_handle_command_map inst_number cmd_key cmd_value dq
on_mcast_msg (acceptance_msg inst_number cmd_key) dq =
    delivery_queue_handle_acceptance inst_number cmd_key dq
on_mcast_msg other_msg dq = some (dq, [])

-- What one operation after another delivers.
unfoldable pub followed_by :
    Option Delivered → (DeliveryQueue → Option Delivered) → Option Delivered
followed_by first next = first >>= λ r. next r.0 >>= λ s. some (s.0, r.1 ++ s.1)

-- A packet: its messages in order, and then `post_receive_check`.
unfoldable pub on_packet : List McastMsg → DeliveryQueue → Option Delivered
unfolding on_mcast_msg followed_by dq_deliver_loop
on_packet [] dq = dq_deliver_loop dq
on_packet (m ∷ ms) dq = followed_by (on_mcast_msg m dq) (on_packet ms)

-- A packet, or the periodic check at a time; what the check asks for is handled by `on_dq_events`.
pub data LearnerStep : Type 0 where
  packet : List McastMsg → LearnerStep
  check : Timeval → LearnerStep

unfoldable pub on_step : LearnerStep → DeliveryQueue → Option Delivered
unfolding on_packet dq_periodic_check
on_step (packet ms) dq = on_packet ms dq
on_step (check time_now) dq = dq_periodic_check time_now dq >>= λ r. some (r.0, [])

unfoldable pub on_steps : List LearnerStep → DeliveryQueue → Option Delivered
unfolding on_step followed_by
on_steps [] dq = some (dq, [])
on_steps (p ∷ ps) dq = followed_by (on_step p dq) (on_steps ps)

-- `sizeof(map_requests_msg)`, which is that of `chosencmd_requests_msg`, and of an `iid_t`.
abbrev pub sizeof_requests_msg : ℕ
sizeof_requests_msg = 8

abbrev pub sizeof_iid : ℕ
sizeof_iid = 8

abbrev pub repeat_request_max_entries : ℕ
repeat_request_max_entries = (max_message_size - sizeof_requests_msg) / sizeof_iid - 1

-- CMDMAP_REQS_MSG_SIZE and FINVAL_REQS_MSG_SIZE
abbrev pub requests_msg_size : List ℕ → ℕ
requests_msg_size inst_number = sizeof_requests_msg + length inst_number * sizeof_iid

-- The calls of the sender to the multicaster.
pub data LearnerEvent : Type 0 where
  send_map_requests : List ℕ → LearnerEvent
  send_chosenval_requests : List ℕ → LearnerEvent
  flush : LearnerEvent

-- The two buffers of requests.
pub record Missing : Type 0 where
  pub missing_cmd_request_buf : List ℕ
  pub missing_acc_request_buf : List ℕ

-- An instance added to a buffer that is sent when it is full; the buffer and what is sent.
unfoldable pub add_request : (List ℕ → LearnerEvent) → ℕ → List ℕ → List ℕ × List LearnerEvent
add_request send inst_number requests =
    let msg = requests ++ inst_number ∷ [] in
    if leb repeat_request_max_entries (length msg) then ([], send msg ∷ flush ∷ []) else (msg, [])

unfoldable pub on_missing_cmdmap : ℕ → Missing → Missing × List LearnerEvent
unfolding add_request
on_missing_cmdmap inst_number l =
    let r = add_request send_map_requests inst_number l.missing_cmd_request_buf in
    (record l { missing_cmd_request_buf = r.0 }, r.1)

unfoldable pub on_missing_acceptance : ℕ → Missing → Missing × List LearnerEvent
unfolding add_request
on_missing_acceptance inst_number l =
    let r = add_request send_chosenval_requests inst_number l.missing_acc_request_buf in
    (record l { missing_acc_request_buf = r.0 }, r.1)

-- A buffer that is not empty is sent.
unfoldable pub send_rest : (List ℕ → LearnerEvent) → List ℕ → List LearnerEvent
send_rest send requests = if ltb 0 (length requests) then send requests ∷ [] else []

unfoldable pub post_delivery_check : Missing → Missing × List LearnerEvent
unfolding send_rest
post_delivery_check l = (
  record { missing_cmd_request_buf = []; missing_acc_request_buf = [] },
  send_rest send_map_requests l.missing_cmd_request_buf
      ++ (send_rest send_chosenval_requests l.missing_acc_request_buf ++ flush ∷ []),
)

-- The callbacks that the delivery queue was given.
unfoldable pub on_dq_event : DqEvent → Missing → Missing × List LearnerEvent
unfolding on_missing_cmdmap on_missing_acceptance post_delivery_check
on_dq_event (missing_cmdmap i) l = on_missing_cmdmap i l
on_dq_event (missing_acceptance i) l = on_missing_acceptance i l
on_dq_event post_check l = post_delivery_check l

unfoldable pub on_dq_events : List DqEvent → Missing → Missing × List LearnerEvent
unfolding on_dq_event
on_dq_events [] l = (l, [])
on_dq_events (e ∷ es) l =
    let r = on_dq_event e l in let s = on_dq_events es r.0 in (s.0, r.1 ++ s.1)
