-- ===== src/Ring/Storage.antt =====
-- ring_paxos/lib/stable_storage_1.c: the records of the acceptors, in a circular buffer in memory.
-- A result `none` is the assertion that fails where a record would come from an archive.
-- `ssm_update_record` and `ssm_save_delivered_value` have empty bodies.
use fds.Prelude.{ℕ, ◌%◌, List, [], Option, none, some, ltb, ◌==◌, if◌then◌else◌, update}
use fds.Ring.Types.{CommandId, null_key}

-- A pointer to a command: NULL, the slot of the instance, or a block that `malloc` returned.
pub data CommandPtr : Type 0 where
  null : CommandPtr
  slot : CommandPtr
  block : ℕ → CommandPtr

pub record InstanceRecord : Type 0 where
  pub inst_number : ℕ
  pub ballot : ℕ
  pub accept_ballot : ℕ
  pub accepted_cmd_key : CommandId
  pub accepted_cmd_size : ℕ
  pub accepted_cmd : CommandPtr
  pub proposed_cmd_key : CommandId
  pub proposed_cmd_size : ℕ
  pub proposed_cmd : CommandPtr

-- `clear_instance_record`, and then the number.
abbrev pub new_record : ℕ → InstanceRecord
new_record inst_number = record {
  inst_number = inst_number;
  ballot = 0;
  accept_ballot = 0;
  accepted_cmd_key = null_key;
  accepted_cmd_size = 0;
  accepted_cmd = null;
  proposed_cmd_key = null_key;
  proposed_cmd_size = 0;
  proposed_cmd = null;
}

-- `commands_array` holds the bytes of the slots.
pub record StableStorage : Type 0 where
  pub size : ℕ
  pub instances_array : ℕ → InstanceRecord
  pub commands_array : ℕ → List ℕ

unfoldable pub stable_storage_init : ℕ → StableStorage
stable_storage_init working_set_size = record {
  size = working_set_size;
  instances_array = λ i. new_record 0;
  commands_array = λ i. [];
}

abbrev pub record_at : StableStorage → ℕ → InstanceRecord
record_at ssm inst_number = ssm.instances_array (inst_number % ssm.size)

-- A write through the pointer to the record.
abbrev pub set_record : StableStorage → ℕ → InstanceRecord → StableStorage
set_record ssm inst_number ir = record ssm {
  instances_array = update ssm.instances_array (inst_number % ssm.size) ir;
}

-- The record of the instance is at `record_at` of the result.
unfoldable pub ssm_get_record : ℕ → StableStorage → Option StableStorage
ssm_get_record inst_number ssm =
    let ir = record_at ssm inst_number in
    if ir.inst_number == 0
    then some (set_record ssm inst_number (record ir { inst_number = inst_number }))
    else (if ltb ir.inst_number inst_number
        then some (set_record ssm inst_number (new_record inst_number))
        else (if ltb inst_number ir.inst_number then none else some ssm))
