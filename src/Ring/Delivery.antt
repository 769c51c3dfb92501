-- ===== src/Ring/Delivery.antt =====
-- ring_paxos/lib/delivery_queue.c: a circular buffer of instances, delivered in order once the
-- mapping of a command and its acceptance are both known.
-- A result `none` is an assertion that fails. The functions are given the queue's configured size
-- as a field of the state.
pub mod Window
pub mod Loop
pub mod Handle
pub mod Progress
pub mod Periodic
pub mod Moves
pub mod Found
pub mod Check
use fds.Prelude.{
  ℕ, zero, suc, ◌+◌, ◌-◌, ◌%◌, ◌^◌, List, [], ◌∷◌, ◌++◌, Bool, true, false, ◌&&◌, ◌||◌, not, Option,
  none, some, ltb, leb, ◌==◌, if◌then◌else◌, update, bytes_eq, ◌>>=◌, ◌>>◌, assert,
}
use fds.Ring.Types.{
  CommandId, cmd_key_equals, null_key, Timeval, no_time, timer_set_timeout, timer_is_expired,
}

pub record DqEntry : Type 0 where
  pub inst_number : ℕ
  pub cmd_key : CommandId
  pub has_mapping : Bool
  pub has_final_value : Bool
  pub cmdmap_request_timeout : Timeval
  pub finval_request_timeout : Timeval

-- `cmd_slot_array` holds the data of each slot, as long as the slot's size says.
pub record DeliveryQueue : Type 0 where
  pub queue_size : ℕ
  pub queue_array : ℕ → DqEntry
  pub cmd_slot_array : ℕ → List ℕ
  pub highest_delivered : ℕ
  pub highest_seen_closed : ℕ
  pub highest_seen_cmdmap : ℕ
  pub late_start : Bool

-- `dq_clear_entry`
abbrev pub cleared_entry : DqEntry
cleared_entry = record {
  inst_number = 0;
  cmd_key = null_key;
  has_mapping = false;
  has_final_value = false;
  cmdmap_request_timeout = no_time;
  finval_request_timeout = no_time;
}

unfoldable pub delivery_queue_init : ℕ → DeliveryQueue
delivery_queue_init working_set_size = record {
  queue_size = working_set_size;
  queue_array = λ i. cleared_entry;
  cmd_slot_array = λ i. [];
  highest_delivered = 0;
  highest_seen_closed = 0;
  highest_seen_cmdmap = 0;
  late_start = false;
}

abbrev pub dq_delayed_start : DeliveryQueue → DeliveryQueue
dq_delayed_start dq = record dq { late_start = true }

abbrev pub entry_of : DeliveryQueue → ℕ → DqEntry
entry_of dq inst_number = dq.queue_array (inst_number % dq.queue_size)

abbrev pub slot_of : DeliveryQueue → ℕ → List ℕ
slot_of dq inst_number = dq.cmd_slot_array (inst_number % dq.queue_size)

-- A write through the pointer to the entry.
abbrev pub set_entry : DeliveryQueue → ℕ → DqEntry → DeliveryQueue
set_entry dq inst_number e = record dq {
  queue_array = update dq.queue_array (inst_number % dq.queue_size) e;
}

abbrev pub set_slot : DeliveryQueue → ℕ → List ℕ → DeliveryQueue
set_slot dq inst_number value = record dq {
  cmd_slot_array = update dq.cmd_slot_array (inst_number % dq.queue_size) value;
}

-- The queue after the entry has been given its number; the entry is `entry_of` of it.
unfoldable pub dq_get_entry : ℕ → DeliveryQueue → Option DeliveryQueue
dq_get_entry inst_number dq =
    let e = entry_of dq inst_number in
    assert (ltb 0 inst_number)
    >> (assert (leb inst_number (dq.highest_delivered + dq.queue_size))
        >> (assert ((e.inst_number == inst_number) || (e.inst_number == 0))
            >> some (set_entry dq inst_number (record e { inst_number = inst_number }))))

abbrev pub is_deliverable : DqEntry → Bool
is_deliverable e = e.has_mapping && e.has_final_value

-- What the learner's callback is given, in order.
abbrev pub Delivered : Type 0
Delivered = DeliveryQueue × List (List ℕ)

-- The body of the loop: `inst` is the instance of the entry at hand, which is the next one.
unfoldable pub deliver_one : DeliveryQueue → Option DeliveryQueue
unfolding dq_get_entry
deliver_one dq =
    let inst = dq.highest_delivered + 1 in
    dq_get_entry (inst + 1) (record (set_entry dq inst cleared_entry) { highest_delivered = inst })

-- `n` rounds are `queue_size` in `dq_deliver_loop`: each clears an entry.
unfoldable pub deliver_rounds : ℕ → DeliveryQueue → Option Delivered
unfolding deliver_one
deliver_rounds zero dq =
    if is_deliverable (entry_of dq (dq.highest_delivered + 1)) then none else some (dq, [])
deliver_rounds (suc n) dq = elim (is_deliverable (entry_of dq (dq.highest_delivered + 1))) [
  | false ↦ some (dq, [])
  | true ↦ deliver_one dq >>= λ dq'.
      deliver_rounds n dq' >>= λ r. some (r.0, slot_of dq (dq.highest_delivered + 1) ∷ r.1)
]

unfoldable pub dq_deliver_loop : DeliveryQueue → Option Delivered
unfolding deliver_rounds dq_get_entry
dq_deliver_loop dq =
    dq_get_entry (dq.highest_delivered + 1) dq >>= λ dq. deliver_rounds dq.queue_size dq

-- The late start that both handlers begin with; `inst_number - 1` is a 64-bit number.
unfoldable pub start_late : ℕ → DeliveryQueue → DeliveryQueue
start_late inst_number dq =
    if dq.late_start
    then record dq { highest_delivered = (inst_number + (2 ^ 64 - 1)) % 2 ^ 64; late_start = false }
    else dq

abbrev pub max_of : ℕ → ℕ → ℕ
max_of a b = if ltb b a then a else b

-- The part of `delivery_queue_handle_command_map` after the entry has been found.
unfoldable pub save_mapping : ℕ → CommandId → List ℕ → DeliveryQueue → Option Delivered
unfolding dq_deliver_loop
save_mapping inst_number cmd_key cmd_value dq =
    let e = entry_of dq inst_number in
    let write : DqEntry → DeliveryQueue =
      λ e. set_slot (set_entry dq inst_number e) inst_number cmd_value in
    if e.has_final_value && e.has_mapping
    then some (dq, [])
    else (if e.has_mapping
        then (if cmd_key_equals cmd_key e.cmd_key
            then assert (bytes_eq (slot_of dq inst_number) cmd_value) >> some (dq, [])
            else some (write (record e { cmd_key = cmd_key }), []))
        else (if e.has_final_value
            then (if cmd_key_equals cmd_key e.cmd_key
                then dq_deliver_loop (write (record e { has_mapping = true }))
                else some (dq, []))
            else some (write (record e { cmd_key = cmd_key; has_mapping = true }), [])))

unfoldable pub delivery_queue_handle_command_map :
    ℕ → CommandId → List ℕ → DeliveryQueue → Option Delivered
unfolding start_late dq_get_entry save_mapping
delivery_queue_handle_command_map inst_number cmd_key cmd_value dq =
    let dq = start_late inst_number dq in
    if leb (dq.highest_delivered + dq.queue_size) inst_number
    then some (dq, [])
    else (if leb inst_number dq.highest_delivered
        then some (dq, [])
        else dq_get_entry inst_number
            (record dq { highest_seen_cmdmap = max_of inst_number dq.highest_seen_cmdmap })
          >>= save_mapping inst_number cmd_key cmd_value)

-- The part of `delivery_queue_handle_acceptance` after the entry has been found.
unfoldable pub save_acceptance : ℕ → CommandId → DeliveryQueue → Option Delivered
unfolding dq_deliver_loop
save_acceptance inst_number cmd_key dq =
    let e = entry_of dq inst_number in
    let same_key = cmd_key_equals e.cmd_key cmd_key in
    if e.has_final_value && e.has_mapping
    then assert same_key >> some (dq, [])
    else (if e.has_mapping
        then (if same_key
            then dq_deliver_loop (set_entry dq inst_number (record e { has_final_value = true }))
            else some (
              set_entry dq inst_number (record e { has_mapping = false; cmd_key = cmd_key }),
              [],
            ))
        else (if e.has_final_value
            then assert same_key >> some (dq, [])
            else some (
              set_entry dq inst_number (record e { cmd_key = cmd_key; has_final_value = true }),
              [],
            )))

unfoldable pub delivery_queue_handle_acceptance : ℕ → CommandId → DeliveryQueue → Option Delivered
unfolding start_late dq_get_entry save_acceptance
delivery_queue_handle_acceptance inst_number cmd_key dq =
    let dq0 = start_late inst_number dq in
    let dq = record dq0 { highest_seen_closed = max_of inst_number dq0.highest_seen_closed } in
    if leb (dq.highest_delivered + dq.queue_size) inst_number
    then some (dq, [])
    else (if leb inst_number dq.highest_delivered
        then some (dq, [])
        else dq_get_entry inst_number dq >>= save_acceptance inst_number cmd_key)
