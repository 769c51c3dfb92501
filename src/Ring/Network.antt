-- ===== src/Ring/Network.antt =====
-- ring_paxos/lib/network_udp.c: messages are collected in a buffer, each behind a header, and the
-- receiver of a packet hands them on one by one.
-- `send` is the system call: the number of bytes sent, given the packets before; `none` is an
-- error. Statistics and printing are left out.
pub mod Frames
pub mod Round
use fds.Prelude.{
  ℕ, zero, suc, ◌+◌, ◌-◌, ◌*◌, ◌/◌, ◌%◌, ◌^◌, List, [], ◌∷◌, ◌++◌, Option, none, some, ltb, leb,
  ◌==◌, if◌then◌else◌, length, take, drop, ◌>>=◌, ◌>>◌, assert,
}

abbrev pub max_message_size : ℕ
max_message_size = 8980

abbrev pub max_udp_payload : ℕ
max_udp_payload = 8988

abbrev pub sizeof_lp_message_header : ℕ
sizeof_lp_message_header = 8

pub data LpMsgType : Type 0 where
  phase1 : LpMsgType
  phase1_range : LpMsgType
  phase2 : LpMsgType
  command_map : LpMsgType
  refusal : LpMsgType
  acceptance : LpMsgType
  map_request : LpMsgType
  chosenval_request : LpMsgType
  client_submit : LpMsgType
  test1 : LpMsgType
  test2 : LpMsgType
  test3 : LpMsgType
  notype : LpMsgType

-- The values of the enumeration.
unfoldable pub lp_msg_type_value : LpMsgType → ℕ
lp_msg_type_value phase1 = 1
lp_msg_type_value phase1_range = 2
lp_msg_type_value phase2 = 3
lp_msg_type_value command_map = 4
lp_msg_type_value refusal = 5
lp_msg_type_value acceptance = 6
lp_msg_type_value map_request = 7
lp_msg_type_value chosenval_request = 8
lp_msg_type_value client_submit = 9
lp_msg_type_value test1 = 512
lp_msg_type_value test2 = 513
lp_msg_type_value test3 = 514
lp_msg_type_value notype = 0

-- What is handed to `net_send_udp`, with the two bytes that the buffer holds where the header has
-- its padding.
pub record Message : Type 0 where
  pub type : LpMsgType
  pub payload : List ℕ
  pub stale0 : ℕ
  pub stale1 : ℕ

-- `lp_message_header` in memory, on a little-endian machine: `uint16_t size`, padding, `type`.
unfoldable pub lp_message_header : ℕ → ℕ → ℕ → ℕ → List ℕ
lp_message_header size code stale0 stale1 =
    size % 256
    ∷ size / 256 % 256
    ∷ stale0
    ∷ stale1
    ∷ code % 256
    ∷ code / 256 % 256
    ∷ code / 65536 % 256
    ∷ code / 16777216 % 256
    ∷ []

-- The bytes that a message takes in the buffer.
unfoldable pub frame : Message → List ℕ
unfolding lp_message_header
frame m =
    lp_message_header (length m.payload) (lp_msg_type_value m.type) m.stale0 m.stale1 ++ m.payload

-- `udp_sender`: the first `current_buf_size` bytes of `send_buf`, and the packets on the wire.
pub record UdpSender : Type 0 where
  pub send_buf : List ℕ
  pub sent : List (List ℕ)

abbrev pub udp_sender_init : UdpSender
udp_sender_init = record { send_buf = []; sent = [] }

module _ (send : List (List ℕ) → List ℕ → Option ℕ) where
  -- The sender and the value returned.
  unfoldable pub udp_sender_force_flush : UdpSender → Option (UdpSender × ℕ)
  udp_sender_force_flush us =
      assert (leb (length us.send_buf) max_udp_payload)
      >> (if length us.send_buf == 0 then some (us, 0) else (elim (send us.sent us.send_buf) [
        | none ↦ some (record us { send_buf = [] }, 1)
        | some data_sent ↦
            assert (data_sent == length us.send_buf)
            >> some (record { send_buf = []; sent = us.sent ++ us.send_buf ∷ [] }, 0)
      ]))

  -- The first flush of `net_send_udp`.
  unfoldable pub make_room : ℕ → UdpSender → Option UdpSender
  unfolding udp_sender_force_flush
  make_room total_size us =
      if ltb max_message_size (length us.send_buf + total_size)
      then udp_sender_force_flush us >>= (λ r. some r.0)
      else some us

  -- The second: `MAX_MESSAGE_SIZE - current_buf_size` is signed.
  unfoldable pub flush_full : UdpSender → Option UdpSender
  unfolding udp_sender_force_flush
  flush_full us =
      if leb max_message_size (length us.send_buf + sizeof_lp_message_header)
      then udp_sender_force_flush us >>= (λ r. some r.0)
      else some us

  unfoldable pub net_send_udp : Message → UdpSender → Option UdpSender
  unfolding make_room flush_full frame
  net_send_udp m us =
      if ltb max_message_size (length m.payload)
      then some us
      else make_room (length m.payload + sizeof_lp_message_header) us >>= λ us.
          flush_full (record us { send_buf = us.send_buf ++ frame m })

  -- A client of the sender: it sends the messages in order and flushes the rest.
  unfoldable pub send_all : List Message → UdpSender → Option UdpSender
  unfolding net_send_udp udp_sender_force_flush
  send_all [] us = udp_sender_force_flush us >>= (λ r. some r.0)
  send_all (m ∷ ms) us = net_send_udp m us >>= λ us. send_all ms us

-- What the callback of a receiver is given.
pub record Received : Type 0 where
  pub type_code : ℕ
  pub bytes : List ℕ

-- The loop of `udp_read_callback_wrapper`, on the bytes from `current_offset` on. Each round takes
-- the eight bytes of a header at least, so the size of the packet is fuel enough. With fewer than
-- eight bytes left the test fails whatever the header's fields are.
unfoldable pub deliver_messages : ℕ → List ℕ → List Received
deliver_messages (suc n) (s0 ∷ s1 ∷ p0 ∷ p1 ∷ t0 ∷ t1 ∷ t2 ∷ t3 ∷ rest) =
    let size = s0 + s1 * 256 in
    let more = deliver_messages n (drop size rest) in
    if ltb (length rest) size
    then []
    else record { type_code = t0 + t1 * 256 + t2 * 65536 + t3 * 16777216; bytes = take size rest }
      ∷ more
deliver_messages _ _ = []

-- A datagram that `recvfrom` read: it is cut at the size of `recv_buf`, and its size is taken as a
-- `uint16_t`.
unfoldable pub udp_read_callback_wrapper : List ℕ → List Received
unfolding deliver_messages
udp_read_callback_wrapper datagram =
    let received = take max_udp_payload datagram in
    deliver_messages (length received % 2 ^ 16) (take (length received % 2 ^ 16) received)
