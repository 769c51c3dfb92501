-- ===== src/Messages.antt =====
-- paxos2/include/libpaxos_messages.h: the protocol's messages, and what a process does that others
-- can observe. A value is the string of its bytes, so `value_size` is its length.
use fds.Prelude.{ℕ, ◌+◌, ◌≡◌, List, [], ◌∷◌, ◌++◌, Bool, length, arith}

-- `prepare_req`, phase 1a.
pub record PrepareReq : Type 0 where
  pub iid : ℕ
  pub ballot : ℕ

-- `prepare_ack`, phase 1b.
pub record PrepareAck : Type 0 where
  pub iid : ℕ
  pub ballot : ℕ
  pub value_ballot : ℕ
  pub value : List ℕ

-- `accept_req`, phase 2a.
pub record AcceptReq : Type 0 where
  pub iid : ℕ
  pub ballot : ℕ
  pub value : List ℕ

-- `accept_ack`, phase 2b; also the `acceptor_record` of the stable storage.
pub record AcceptAck : Type 0 where
  pub iid : ℕ
  pub ballot : ℕ
  pub value_ballot : ℕ
  pub is_final : Bool
  pub value : List ℕ

-- `paxos_msg` with its batch. The first argument of a batch is the sender's id.
pub data Packet : Type 0 where
  prepare_reqs : ℕ → List PrepareReq → Packet
  prepare_acks : ℕ → List PrepareAck → Packet
  accept_reqs : ℕ → List AcceptReq → Packet
  accept_acks : ℕ → List AcceptAck → Packet
  repeat_reqs : List ℕ → Packet
  submit : List ℕ → Packet
  leader_announce : ℕ → Packet
  alive_ping : ℕ → ℕ → Packet

-- What a process does, in order: its calls that begin and end a transaction on the stable storage,
-- its writes there, and its calls of `sendto`. With DURABILITY_MODE 0, as the
-- source has it, those two calls return at once, and with 20 the second one writes to the disk.
pub data Event : Type 0 where
  tx_begin tx_end : Event
  stored : AcceptAck → Event
  sent : Packet → Event

-- `sizeof(paxos_msg)`, and that of each batch header.
abbrev pub sizeof_paxos_msg : ℕ
sizeof_paxos_msg = 16

abbrev pub sizeof_batch : ℕ
sizeof_batch = 4

abbrev pub prepare_req_size : PrepareReq → ℕ
prepare_req_size m = 8

abbrev pub prepare_ack_size : PrepareAck → ℕ
prepare_ack_size m = length m.value + 24

abbrev pub accept_req_size : AcceptReq → ℕ
accept_req_size m = length m.value + 16

abbrev pub accept_ack_size : AcceptAck → ℕ
accept_ack_size m = length m.value + 24

abbrev pub sizeof_iid : ℕ → ℕ
sizeof_iid i = 4

-- The bytes of a batch's elements, as the loops of udp_receiver.c add them up.
unfoldable pub total_size {ℓ} : {A : Type ℓ} → (A → ℕ) → List A → ℕ
total_size size [] = 0
total_size size (x ∷ xs) = size x + total_size size xs

pub total_size-append {ℓ} :
    {A : Type ℓ} (size : A → ℕ) (xs ys : List A)
    → total_size size (xs ++ ys) ≡ total_size size xs + total_size size ys
unfolding total_size
total_size-append size [] ys = omega arith
total_size-append size (x ∷ xs) ys = omega (arith, total_size-append size xs ys)
