-- ===== src/Ring/Mcaster/Storage.antt =====
-- ring_paxos/lib/mcaster_storage.c: the multicaster's records of instances, in a circular buffer, with
-- the queue of client commands and the memory of the commands that both point to.
-- A pointer is a number and NULL is 0. A result `none` is an assertion that fails, or a read or
-- `free` of memory that is not allocated. The address that `malloc` returns is an argument.
use fds.Prelude.{
  ℕ, ◌+◌, ◌*◌, ◌%◌, ◌^◌, List, [], ◌∷◌, Bool, true, false, Option, none, some, ltb, ◌==◌,
  if◌then◌else◌, update, length, take, ◌>>=◌, ◌>>◌, assert, is_some, bytes_eq,
}
use fds.Ring.Types.{CommandId, null_key, Timeval, no_time}
use fds.Ring.Queue.{LpQueue, QueueEffect, copied, freed, queue_prepend, cvm_push_back_value}

pub data McasterStatus : Type 0 where
  empty ready p1_pending p1_done p2_pending done : McasterStatus

pub record McasterRecord : Type 0 where
  pub inst_number : ℕ
  pub status : McasterStatus
  pub ballot : ℕ
  pub assigned_cmd_key : CommandId
  pub assigned_cmd_value : ℕ
  pub assigned_cmd_size : ℕ
  pub timeout : Timeval
  pub repeat_cmdmap_timeout : Timeval

-- `seq_number` has 16 bits. `cvm` is the queue of the clients' values.
pub record McasterStorage : Type 0 where
  pub seq_number : ℕ
  pub array_size : ℕ
  pub instances_array : ℕ → McasterRecord
  pub cvm : LpQueue
  pub heap : ℕ → Option (List ℕ)

-- The numbers that `lpconfig_get_self_acceptor_id` and the others return.
pub record McasterConfig : Type 0 where
  pub self_acceptor_id : ℕ
  pub incarnation_number : ℕ
  pub quorum_size : ℕ
  pub working_set_size : ℕ
  pub max_active_instances : ℕ
  pub preexecution_window_size : ℕ
  pub max_p2_open_per_iteration : ℕ
  pub p1_interval : Timeval
  pub p2_interval : Timeval
  pub retransmit_request_interval : Timeval

abbrev pub is_ready : McasterStatus → Bool
is_ready ready = true
is_ready _ = false

abbrev pub is_p1_pending : McasterStatus → Bool
is_p1_pending p1_pending = true
is_p1_pending _ = false

abbrev pub is_p1_done : McasterStatus → Bool
is_p1_done p1_done = true
is_p1_done _ = false

abbrev pub is_p2_pending : McasterStatus → Bool
is_p2_pending p2_pending = true
is_p2_pending _ = false

abbrev pub is_done : McasterStatus → Bool
is_done done = true
is_done _ = false

-- The key that `create_value_key` writes, and the sequence number after it.
unfoldable pub create_value_key : McasterConfig → ℕ → CommandId × ℕ
create_value_key cfg seq_number =
    let next = (seq_number + 1) % 2 ^ 16 in
    (
      record {
        mcaster_id = cfg.self_acceptor_id;
        mcaster_incarnation = cfg.incarnation_number;
        cmd_seqnum = seq_number;
      },
      if next == 0xFFFF then 1 else next,
    )

-- The deadlines are left as they are.
abbrev pub mcaster_storage_clear_record : McasterRecord → McasterRecord
mcaster_storage_clear_record mir = record mir {
  inst_number = 0;
  status = empty;
  ballot = 0;
  assigned_cmd_value = 0;
  assigned_cmd_size = 0;
  assigned_cmd_key = null_key;
}

unfoldable pub mcaster_storage_init :
    McasterConfig → LpQueue → (ℕ → Option (List ℕ)) → McasterStorage
mcaster_storage_init cfg cvm heap = record {
  seq_number = 1;
  array_size = cfg.working_set_size * 2;
  instances_array = λ i. record {
    inst_number = 0;
    status = empty;
    ballot = 0;
    assigned_cmd_key = null_key;
    assigned_cmd_value = 0;
    assigned_cmd_size = 0;
    timeout = no_time;
    repeat_cmdmap_timeout = no_time;
  };
  cvm = cvm;
  heap = heap;
}

-- The slot of an instance, and a write through the pointer to it.
abbrev pub mir_at : McasterStorage → ℕ → McasterRecord
mir_at msm i = msm.instances_array (i % msm.array_size)

abbrev pub set_mir : ℕ → McasterRecord → McasterStorage → McasterStorage
set_mir i mir msm = record msm {
  instances_array = update msm.instances_array (i % msm.array_size) mir;
}

-- `free`
unfoldable pub free_value : ℕ → McasterStorage → Option McasterStorage
free_value p msm =
    if p == 0
    then some msm
    else (if is_some (msm.heap p)
        then some (record msm { heap = update msm.heap p none })
        else none)

-- The first bytes at a pointer.
unfoldable pub read_value : ℕ → ℕ → McasterStorage → Option (List ℕ)
read_value p size msm =
    if size == 0 then some [] else msm.heap p >>= λ bytes. some (take size bytes)

-- The effects of the queue on memory; `source` is what a copy reads.
unfoldable pub run_effects : List ℕ → List QueueEffect → McasterStorage → Option McasterStorage
unfolding free_value
run_effects source [] msm = some msm
run_effects source (copied address from size ∷ es) msm =
    run_effects source es (record msm { heap = update msm.heap address (some (take size source)) })
run_effects source (freed p ∷ es) msm = free_value p msm >>= run_effects source es

-- A record that begins an instance.
abbrev pub begun : ℕ → McasterRecord → McasterRecord
begun inst_number mir = record mir { inst_number = inst_number; status = ready }

-- The record of the instance is at `mir_at` of the result.
unfoldable pub mcaster_storage_get : ℕ → McasterStorage → Option McasterStorage
unfolding free_value
mcaster_storage_get inst_number msm =
    let mir = mir_at msm inst_number in
    if mir.inst_number == 0
    then some (set_mir inst_number (begun inst_number mir) msm)
    else (if ltb mir.inst_number inst_number
        then assert (is_done mir.status)
          >> (free_value mir.assigned_cmd_value msm >>= λ msm.
              some (set_mir inst_number (begun inst_number (mcaster_storage_clear_record mir)) msm))
        else (if ltb inst_number mir.inst_number then none else some msm))

unfoldable pub mcaster_storage_assign_value :
    McasterConfig → ℕ → ℕ → ℕ → McasterStorage → Option McasterStorage
unfolding create_value_key
mcaster_storage_assign_value cfg i cmd_value cmd_size msm =
    let mir = mir_at msm i in
    let key = create_value_key cfg msm.seq_number in
    assert (mir.assigned_cmd_value == 0)
    >> some (
        set_mir i
          (record mir {
            assigned_cmd_value = cmd_value;
            assigned_cmd_size = cmd_size;
            assigned_cmd_key = key.0;
          })
          (record msm { seq_number = key.1 }))

-- `memcmp(...) == 0`, after the test of the sizes.
unfoldable pub same_value : McasterRecord → List ℕ → McasterStorage → Option Bool
unfolding read_value
same_value mir cmd_value msm =
    if mir.assigned_cmd_size == length cmd_value
    then read_value mir.assigned_cmd_value mir.assigned_cmd_size msm
      >>= (λ bytes. some (bytes_eq bytes cmd_value))
    else some false

-- The old value goes back to the queue, and a copy of the new one at `address` takes its place.
unfoldable pub replace_value : ℕ → ℕ → List ℕ → McasterStorage → Option McasterStorage
unfolding queue_prepend run_effects
replace_value address i cmd_value msm =
    let mir = mir_at msm i in
    cvm_push_back_value mir.assigned_cmd_value mir.assigned_cmd_size msm.cvm >>= λ pushed.
    run_effects [] pushed.1 (record msm { cvm = pushed.0 }) >>= λ msm. some (
      set_mir i (record mir { assigned_cmd_size = length cmd_value; assigned_cmd_value = address })
        (record msm { heap = update msm.heap address (some cmd_value) }))

unfoldable pub mcaster_storage_replace_assigned_value :
    ℕ → ℕ → CommandId → List ℕ → McasterStorage → Option McasterStorage
unfolding same_value replace_value
mcaster_storage_replace_assigned_value address i cmd_key cmd_value msm =
    let mir = mir_at msm i in
    let keyed = set_mir i (record mir { assigned_cmd_key = cmd_key }) msm in
    same_value mir cmd_value msm >>= λ same.
    if same then some keyed else replace_value address i cmd_value keyed
