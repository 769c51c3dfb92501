-- ===== src/Ring/Acceptor/State.antt =====
-- ring_paxos/ring-paxos/acceptor.c and include/ringpaxos_messages.h: the state of an acceptor, its
-- messages, and the memory of its commands.
use fds.Prelude.{
  ℕ, ◌+◌, ◌%◌, ◌^◌, List, [], ◌∷◌, ◌++◌, Bool, true, false, ◌&&◌, Option, none, some, ltb, ◌==◌,
  if◌then◌else◌, update, length, take, drop, ◌>>=◌, is_some,
}
use fds.Ring.Types.{CommandId}
use fds.Ring.Storage.{
  CommandPtr, null, slot, block, InstanceRecord, StableStorage, record_at, set_record,
  ssm_get_record,
}

pub record RingAcceptor : Type 0 where
  pub ssm : StableStorage
  pub heap : ℕ → Option (List ℕ)
  pub highest_instance_seen : ℕ

-- `phase1_msg`; `cmd_size` is the length of `cmd_value`.
pub record Phase1Msg : Type 0 where
  pub inst_number : ℕ
  pub ballot : ℕ
  pub promises_count : ℕ
  pub highest_accepted_ballot : ℕ
  pub highest_promised_ballot : ℕ
  pub cmd_key : CommandId
  pub cmd_value : List ℕ

pub record Phase1RangeMsg : Type 0 where
  pub from : ℕ
  pub to : ℕ
  pub ballot : ℕ
  pub promises_count : ℕ

pub record Phase2Msg : Type 0 where
  pub inst_number : ℕ
  pub ballot : ℕ
  pub accepts_count : ℕ
  pub cmd_key : CommandId

-- What is sent to the successor in the ring.
pub data Forward : Type 0 where
  forward_phase1 : Phase1Msg → Forward
  forward_phase1_range : Phase1RangeMsg → Forward
  forward_phase2 : Phase2Msg → Forward

abbrev pub Handled : Type 0
Handled = RingAcceptor × List Forward

-- A counter of 32 bits plus one.
abbrev pub add_one : ℕ → ℕ
add_one n = (n + 1) % 2 ^ 32

abbrev pub record_of : RingAcceptor → ℕ → InstanceRecord
record_of acc inst_number = record_at acc.ssm inst_number

abbrev pub put_record : RingAcceptor → ℕ → InstanceRecord → RingAcceptor
put_record acc inst_number ir = record acc { ssm = set_record acc.ssm inst_number ir }

abbrev pub get_record : ℕ → RingAcceptor → Option RingAcceptor
get_record inst_number acc =
    ssm_get_record inst_number acc.ssm >>= λ ssm. some (record acc { ssm = ssm })

-- `acc->highest_instance_seen` raised to an instance.
abbrev pub see_instance : ℕ → RingAcceptor → RingAcceptor
see_instance inst_number acc = record acc {
  highest_instance_seen =
      if ltb acc.highest_instance_seen inst_number then inst_number else acc.highest_instance_seen;
}

-- The first bytes at a pointer.
unfoldable pub read_cmd : RingAcceptor → ℕ → CommandPtr → ℕ → Option (List ℕ)
read_cmd acc inst_number null size = if size == 0 then some [] else none
read_cmd acc inst_number slot size =
    some (take size (acc.ssm.commands_array (inst_number % acc.ssm.size)))
read_cmd acc inst_number (block p) size = acc.heap p >>= λ bytes. some (take size bytes)

-- `memcpy` to the start of the slot.
unfoldable pub write_slot : RingAcceptor → ℕ → List ℕ → RingAcceptor
write_slot acc inst_number bytes =
    let i = inst_number % acc.ssm.size in
    record acc {
      ssm = record acc.ssm {
        commands_array =
            update acc.ssm.commands_array i
              (bytes ++ drop (length bytes) (acc.ssm.commands_array i));
      };
    }

-- `free`: of NULL nothing, else of a block that is allocated.
unfoldable pub free_cmd : CommandPtr → RingAcceptor → Option RingAcceptor
free_cmd null acc = some acc
free_cmd slot acc = none
free_cmd (block p) acc =
    if is_some (acc.heap p) then some (record acc { heap = update acc.heap p none }) else none

abbrev pub is_null : CommandPtr → Bool
is_null null = true
is_null _ = false

abbrev pub is_slot : CommandPtr → Bool
is_slot slot = true
is_slot _ = false

-- `strncmp(a, b, n) == 0` of two strings of `n` bytes: equal up to a zero byte.
unfoldable pub strncmp_equal : List ℕ → List ℕ → Bool
strncmp_equal (x ∷ xs) (y ∷ ys) = (x == y) && (if x == 0 then true else strncmp_equal xs ys)
strncmp_equal _ _ = true

-- Two pointers to commands of one record.
abbrev pub same_ptr : CommandPtr → CommandPtr → Bool
same_ptr null null = true
same_ptr slot slot = true
same_ptr (block p) (block q) = p == q
same_ptr _ _ = false
