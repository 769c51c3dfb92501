-- ===== src/Ring/Queue.antt =====
-- ring_paxos/lib/queue.c, with lib/client_values_manager.c, whose queue it is: a circular queue of
-- pointers and sizes.
-- A pointer is a number and NULL is 0; the address that `malloc` returns for a copy is an
-- argument. Copies and calls of `free` are effects. The sum of `queue_size` and a size is taken to fit
-- in 64 bits.
pub mod Contents
pub mod Refines
pub mod Trace
use fds.Prelude.{
  ℕ, ◌+◌, ◌-◌, ◌*◌, ◌%◌, ◌^◌, List, [], ◌∷◌, ◌++◌, Bool, true, false, Option, none, some, ltb, ◌==◌,
  if◌then◌else◌, update,
}

-- `queue_element`; `data` is a pointer.
pub record QueueElement : Type 0 where
  pub address : ℕ
  pub size : ℕ

pub record LpQueue : Type 0 where
  pub queue_count : ℕ
  pub max_count : ℕ
  pub queue_size : ℕ
  pub read_index : ℕ
  pub write_index : ℕ
  pub queue : ℕ → QueueElement

pub data QueueEffect : Type 0 where
  copied : ℕ → ℕ → ℕ → QueueEffect
  freed : ℕ → QueueEffect

abbrev pub max_queue_size_bytes : ℕ
max_queue_size_bytes = 2 ^ 30

abbrev pub no_element : QueueElement
no_element = record { address = 0; size = 0 }

unfoldable pub queue_init : ℕ → Option LpQueue
queue_init queue_length =
    if queue_length == 0
    then none
    else some (record {
      queue_count = 0;
      max_count = queue_length;
      queue_size = 0;
      read_index = 0;
      write_index = 0;
      queue = λ i. no_element;
    })

-- An index of the array, one further and one back.
abbrev pub index_after : ℕ → ℕ → ℕ
index_after max_count i = if i + 1 == max_count then 0 else i + 1

abbrev pub index_before : ℕ → ℕ → ℕ
index_before max_count i = if i == 0 then max_count - 1 else i - 1

-- `queue_size` has 32 bits.
abbrev pub size_plus : ℕ → ℕ → ℕ
size_plus queue_size cmd_size = (queue_size + cmd_size) % 2 ^ 32

abbrev pub size_minus : ℕ → ℕ → ℕ
size_minus queue_size cmd_size = (queue_size + (2 ^ 32 - cmd_size % 2 ^ 32)) % 2 ^ 32

-- The element that was read, or none from an empty queue.
unfoldable pub queue_pop : LpQueue → Option QueueElement × LpQueue
queue_pop q =
    if q.queue_count == 0
    then (none, q)
    else (let e = q.queue q.read_index in
        (
          some e,
          record q {
            queue_count = q.queue_count - 1;
            queue_size = size_minus q.queue_size e.size;
            read_index = index_after q.max_count q.read_index;
          },
        ))

unfoldable pub queue_discard_last : LpQueue → Bool × LpQueue × List QueueEffect
queue_discard_last q =
    if q.queue_count == 0
    then (false, q, [])
    else (let i = index_before q.max_count q.write_index in
        let e = q.queue i in
        (
          true,
          record q {
            write_index = i;
            queue_size = size_minus q.queue_size e.size;
            queue_count = q.queue_count - 1;
            queue = update q.queue i no_element;
          },
          freed e.address ∷ [],
        ))

-- The element that is stored, and the copy that is made.
abbrev pub stored : ℕ → Bool → ℕ → ℕ → QueueElement × List QueueEffect
stored address make_copy cmd_value cmd_size = (
  record { address = if make_copy then address else cmd_value; size = cmd_size },
  if make_copy then copied address cmd_value cmd_size ∷ [] else [],
)

unfoldable pub queue_append : ℕ → ℕ → ℕ → Bool → LpQueue → Bool × LpQueue × List QueueEffect
queue_append address cmd_value cmd_size make_copy q =
    if q.queue_count == q.max_count
    then (false, q, [])
    else (if ltb max_queue_size_bytes (q.queue_size + cmd_size)
        then (false, q, [])
        else (let s = stored address make_copy cmd_value cmd_size in
            (
              true,
              record q {
                queue = update q.queue q.write_index s.0;
                queue_count = q.queue_count + 1;
                queue_size = size_plus q.queue_size cmd_size;
                write_index = index_after q.max_count q.write_index;
              },
              s.1,
            )))

-- An element put before the first, where there is room.
abbrev pub put_first : QueueElement → LpQueue → LpQueue
put_first e q =
    let i = index_before q.max_count q.read_index in
    record q {
      read_index = i;
      queue_size = size_plus q.queue_size e.size;
      queue_count = q.queue_count + 1;
      queue = update q.queue i e;
    }

-- `none` is the assertion that fails.
unfoldable pub queue_prepend : ℕ → ℕ → ℕ → Bool → LpQueue → Option (LpQueue × List QueueEffect)
unfolding queue_discard_last
queue_prepend address cmd_value cmd_size make_copy q =
    let s = stored address make_copy cmd_value cmd_size in
    if q.queue_count == q.max_count
    then (let d = queue_discard_last q in
        if d.0 then some (put_first s.0 d.1, d.2 ++ s.1) else none)
    else some (put_first s.0 q, s.1)

-- `cvm_get_next_value`, `cvm_save_value` and `cvm_push_back_value`
abbrev pub cvm_get_next_value : LpQueue → Option QueueElement × LpQueue
cvm_get_next_value q = queue_pop q

abbrev pub cvm_save_value : ℕ → ℕ → ℕ → LpQueue → Bool × LpQueue × List QueueEffect
cvm_save_value address cmd_value cmd_size q = queue_append address cmd_value cmd_size true q

abbrev pub cvm_push_back_value : ℕ → ℕ → LpQueue → Option (LpQueue × List QueueEffect)
cvm_push_back_value cmd_value cmd_size q = queue_prepend 0 cmd_value cmd_size false q

abbrev pub cvm_pending_list_size : LpQueue → ℕ
cvm_pending_list_size q = q.queue_count
