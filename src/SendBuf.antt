-- ===== src/SendBuf.antt =====
-- paxos2/lib/udp_sendbuf.c: messages are collected in a buffer, which is sent when it is flushed or
-- when the next message does not fit.
-- One buffer serves for several types of message, and is cleared for a type before it is filled:
-- here a buffer holds messages of one type, and `sendbuf_clear` makes it. `sendto` is an event.
pub mod Batch
use fds.Prelude.{ℕ, ◌+◌, ◌≡◌, refl, List, [], ◌∷◌, ◌++◌, Bool, true, false, leb, if◌then◌else◌}
use fds.Messages.{
  PrepareReq, PrepareAck, AcceptReq, AcceptAck, Packet, Event, prepare_reqs, prepare_acks,
  accept_reqs, accept_acks, repeat_reqs, submit, leader_announce, alive_ping, tx_begin, tx_end,
  sent, sizeof_paxos_msg, sizeof_batch, prepare_req_size, prepare_ack_size, accept_req_size,
  accept_ack_size, sizeof_iid,
}
use fds.Config.{max_udp_msg_size}

-- A type of message: the size of an element, the packet of a batch, and the batch in a packet.
pub record Kind (A : Type 0) : Type 0 where
  pub item_size : A → ℕ
  pub pack : ℕ → List A → Packet
  pub unpack : Packet → List A
  pub unpack-pack : (sender : ℕ) (xs : List A) → unpack (pack sender xs) ≡ xs

-- `udp_send_buffer`, with the header of the message in `buffer`; `count` is the number of items.
pub record SendBuf (A : Type 0) : Type 0 where
  pub sender_id : ℕ
  pub dirty : Bool
  pub data_size : ℕ
  pub items : List A

module _ {A : Type 0} where
  unfoldable pub sendbuf_clear : ℕ → SendBuf A
  sendbuf_clear sender = record {
    sender_id = sender;
    dirty = false;
    data_size = sizeof_batch;
    items = [];
  }

  -- PAXOS_MSG_SIZE
  abbrev pub paxos_msg_size : SendBuf A → ℕ
  paxos_msg_size sb = sb.data_size + sizeof_paxos_msg

  module _ (k : Kind A) where
    unfoldable pub sendbuf_flush : SendBuf A → List Event
    sendbuf_flush sb = if sb.dirty then sent (k.pack sb.sender_id sb.items) ∷ [] else []

    -- The next message and its size written at the end of the buffer.
    abbrev pub put_item : SendBuf A → A → SendBuf A
    put_item sb a = record sb {
      dirty = true;
      data_size = sb.data_size + k.item_size a;
      items = sb.items ++ a ∷ [];
    }

    abbrev pub is_full : SendBuf A → A → Bool
    is_full sb a = leb max_udp_msg_size (paxos_msg_size sb + k.item_size a)

    -- The body that `sendbuf_add_prepare_req`, `_accept_req` and `_repeat_req` share.
    unfoldable pub sendbuf_add : SendBuf A → A → SendBuf A × List Event
    unfolding sendbuf_clear sendbuf_flush
    sendbuf_add sb a =
        if is_full sb a
        then (put_item (sendbuf_clear sb.sender_id) a, sendbuf_flush sb)
        else (put_item sb a, [])

    -- The body that `sendbuf_add_prepare_ack` and `_accept_ack` share: the transaction is closed
    -- before a full buffer is sent, and another is begun.
    unfoldable pub sendbuf_add_ack : SendBuf A → A → SendBuf A × List Event
    unfolding sendbuf_clear sendbuf_flush
    sendbuf_add_ack sb a =
        if is_full sb a
        then (put_item (sendbuf_clear sb.sender_id) a, tx_end ∷ (sendbuf_flush sb ++ tx_begin ∷ []))
        else (put_item sb a, [])

abbrev of_prepare_reqs : Packet → List PrepareReq
of_prepare_reqs (prepare_reqs s xs) = xs
of_prepare_reqs _ = []

abbrev of_prepare_acks : Packet → List PrepareAck
of_prepare_acks (prepare_acks s xs) = xs
of_prepare_acks _ = []

abbrev of_accept_reqs : Packet → List AcceptReq
of_accept_reqs (accept_reqs s xs) = xs
of_accept_reqs _ = []

abbrev of_accept_acks : Packet → List AcceptAck
of_accept_acks (accept_acks s xs) = xs
of_accept_acks _ = []

abbrev of_repeat_reqs : Packet → List ℕ
of_repeat_reqs (repeat_reqs xs) = xs
of_repeat_reqs _ = []

abbrev pub prepare_req_kind : Kind PrepareReq
prepare_req_kind = record {
  item_size = prepare_req_size;
  pack = prepare_reqs;
  unpack = of_prepare_reqs;
  unpack-pack = λ s xs. refl;
}

abbrev pub prepare_ack_kind : Kind PrepareAck
prepare_ack_kind = record {
  item_size = prepare_ack_size;
  pack = prepare_acks;
  unpack = of_prepare_acks;
  unpack-pack = λ s xs. refl;
}

abbrev pub accept_req_kind : Kind AcceptReq
accept_req_kind = record {
  item_size = accept_req_size;
  pack = accept_reqs;
  unpack = of_accept_reqs;
  unpack-pack = λ s xs. refl;
}

abbrev pub accept_ack_kind : Kind AcceptAck
accept_ack_kind = record {
  item_size = accept_ack_size;
  pack = accept_acks;
  unpack = of_accept_acks;
  unpack-pack = λ s xs. refl;
}

abbrev pub repeat_req_kind : Kind ℕ
repeat_req_kind = record {
  item_size = sizeof_iid;
  pack = λ s xs. repeat_reqs xs;
  unpack = of_repeat_reqs;
  unpack-pack = λ s xs. refl;
}

abbrev pub sendbuf_add_prepare_req : SendBuf PrepareReq → ℕ → ℕ → SendBuf PrepareReq × List Event
sendbuf_add_prepare_req sb iid ballot =
    sendbuf_add prepare_req_kind sb (record { iid = iid; ballot = ballot })

-- The record's fields but `is_final` are copied.
abbrev pub ack_of_record : AcceptAck → PrepareAck
ack_of_record rec = record {
  iid = rec.iid;
  ballot = rec.ballot;
  value_ballot = rec.value_ballot;
  value = rec.value;
}

abbrev pub sendbuf_add_prepare_ack :
    SendBuf PrepareAck → AcceptAck → SendBuf PrepareAck × List Event
sendbuf_add_prepare_ack sb rec = sendbuf_add_ack prepare_ack_kind sb (ack_of_record rec)

abbrev pub sendbuf_add_accept_req :
    SendBuf AcceptReq → ℕ → ℕ → List ℕ → SendBuf AcceptReq × List Event
sendbuf_add_accept_req sb iid ballot value =
    sendbuf_add accept_req_kind sb (record { iid = iid; ballot = ballot; value = value })

abbrev pub sendbuf_add_accept_ack : SendBuf AcceptAck → AcceptAck → SendBuf AcceptAck × List Event
sendbuf_add_accept_ack sb rec = sendbuf_add_ack accept_ack_kind sb rec

abbrev pub sendbuf_add_repeat_req : SendBuf ℕ → ℕ → SendBuf ℕ × List Event
sendbuf_add_repeat_req sb iid = sendbuf_add repeat_req_kind sb iid

-- A submit message holds one value, and is flushed by its user.
abbrev pub sendbuf_send_submit_val : List ℕ → List Event
sendbuf_send_submit_val value = sent (submit value) ∷ []

abbrev pub sendbuf_send_ping : ℕ → ℕ → List Event
sendbuf_send_ping proposer_id sequence_number = sent (alive_ping proposer_id sequence_number) ∷ []

abbrev pub sendbuf_send_leader_announce : ℕ → List Event
sendbuf_send_leader_announce leader_id = sent (leader_announce leader_id) ∷ []
