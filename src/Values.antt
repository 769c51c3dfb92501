-- ===== src/Values.antt =====
-- paxos2/lib/proposer_values_handler.c: the values that clients submitted and no instance has yet,
-- in a linked list on the heap. Each function holds `pending_list_lock` while it reads or writes
-- the list, so a call is one step.
-- A pointer is a number, NULL is `none`, and the address that `PAX_MALLOC` returns is an argument.
-- A result `none` is a read or write through NULL.
pub mod Chain
pub mod Queue
use fds.Prelude.{
  ℕ, zero, suc, ◌+◌, ◌-◌, List, [], ◌∷◌, Bool, true, false, ◌&&◌, not, Option, none, some, ltb,
  ◌==◌, if◌then◌else◌, is_some, update, bytes_eq,
}
use fds.Messages.{Packet, submit}
use fds.Config.{leader_max_queue_length}

-- `vh_value_wrapper`; `value_size` is the length of the value.
pub record Wrapper : Type 0 where
  pub value : List ℕ
  pub next : Option ℕ

pub record Pending : Type 0 where
  pub heap : ℕ → Wrapper
  pub vh_list_size : ℕ
  pub vh_list_head : Option ℕ
  pub vh_list_tail : Option ℕ
  pub dropped_count : ℕ

-- The heap with a new wrapper at the address `p`.
abbrev pub vh_wrap_value : ℕ → List ℕ → (ℕ → Wrapper) → ℕ → Wrapper
vh_wrap_value p value heap = update heap p (record { value = value; next = none })

-- `vw->next = next`.
abbrev pub set_next : (ℕ → Wrapper) → ℕ → Option ℕ → ℕ → Wrapper
set_next heap p next = update heap p (record { value = (heap p).value; next = next })

-- Zero for equal values, like `memcmp`: here `true`.
abbrev pub vh_value_compare : Wrapper → Wrapper → Bool
vh_value_compare vw1 vw2 = bytes_eq vw1.value vw2.value

abbrev pub is_empty : Pending → Bool
is_empty st = not (is_some st.vh_list_head) && not (is_some st.vh_list_tail)

unfoldable pub vh_enqueue_value : ℕ → List ℕ → Pending → Option Pending
vh_enqueue_value p value st =
    let heap = vh_wrap_value p value st.heap in
    if ltb leader_max_queue_length st.vh_list_size
    then some (record st { dropped_count = st.dropped_count + 1 })
    else (if is_empty st
        then some (record st {
          heap = heap;
          vh_list_head = some p;
          vh_list_tail = some p;
          vh_list_size = 1;
        })
        else (elim st.vh_list_tail [
          | none ↦ none
          | some tail ↦ some (record st {
            heap = set_next heap tail (some p);
            vh_list_tail = some p;
            vh_list_size = st.vh_list_size + 1;
          })
        ]))

abbrev pub points_to : Option ℕ → ℕ → Bool
points_to none p = false
points_to (some q) p = q == p

-- The popped wrapper, NULL from an empty list, and the new state.
unfoldable pub vh_get_next_pending : Pending → Option (Option ℕ × Pending)
vh_get_next_pending st = if is_empty st then some (none, st) else (elim st.vh_list_head [
  | none ↦ none
  | some first_vw ↦ some (
    some first_vw,
    record st {
      vh_list_head = (st.heap first_vw).next;
      vh_list_tail = if points_to st.vh_list_tail first_vw then none else st.vh_list_tail;
      vh_list_size = st.vh_list_size - 1;
    },
  )
])

unfoldable pub vh_push_back_value : ℕ → Pending → Pending
vh_push_back_value vw st =
    let heap = set_next st.heap vw st.vh_list_head in
    if is_empty st
    then record st { heap = heap; vh_list_head = some vw; vh_list_tail = some vw; vh_list_size = 1 }
    else record st { heap = heap; vh_list_head = some vw; vh_list_size = st.vh_list_size + 1 }

abbrev pub vh_pending_list_size : Pending → ℕ
vh_pending_list_size st = st.vh_list_size

abbrev pub vh_get_dropped_count : Pending → ℕ
vh_get_dropped_count st = st.dropped_count

-- The list's part of `vh_init`.
abbrev pub vh_init : Pending → Pending
vh_init st = record st {
  vh_list_size = 0;
  vh_list_head = none;
  vh_list_tail = none;
  dropped_count = 0;
}

-- The loop of `vh_shutdown`: the values whose clients are told that they failed, in order. `none`
-- is a fault or the end of the fuel, which Values/Queue rules out.
pub vh_shutdown : ℕ → Pending → Option (List (List ℕ) × Pending)
vh_shutdown zero st = none
vh_shutdown (suc fuel) st = elim (vh_get_next_pending st) [
  | none ↦ none
  | some (popped, st') ↦ elim popped [
    | none ↦ some ([], st')
    | some vw ↦ elim (vh_shutdown fuel st') [
      | none ↦ none
      | some (failed, st'') ↦ some ((st'.heap vw).value ∷ failed, st'')
    ]
  ]
]

-- `none` is a message that `udp_read_next_message` finds invalid.
unfoldable pub vh_handle_newmsg : ℕ → Option Packet → Pending → Option Pending
vh_handle_newmsg p (some (submit value)) st = vh_enqueue_value p value st
vh_handle_newmsg p _ st = some st

abbrev pub pax_submit_sharedmem : ℕ → List ℕ → Pending → Option Pending
pax_submit_sharedmem = vh_enqueue_value
