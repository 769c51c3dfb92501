-- ===== src/Learner.antt =====
-- paxos2/lib/learner.c: counts the acceptors' acknowledgements of each instance, and delivers the
-- values in the order of the instances.
-- `learner_state` is a function on the indices of the array. The deliver callback is not called
-- here: a handler returns the deliveries that it makes, in order.
pub mod Quorum
pub mod Deliver
pub mod Holes
pub mod Slots
pub mod Window
use fds.Prelude.{
  ℕ, zero, suc, ◌+◌, ◌-◌, ◌%◌, List, [], ◌∷◌, ◌++◌, Bool, true, false, ◌&&◌, not, Option, none,
  some, ltb, leb, ◌==◌, if◌then◌else◌, is_some, update,
}
use fds.Messages.{AcceptAck, Packet, Event, accept_acks}
use fds.Config.{learner_array_size, max_n_of_proposers, n_of_acceptors, quorum, u32_mod}
use fds.SendBuf.{SendBuf, sendbuf_clear, sendbuf_flush, sendbuf_add_repeat_req, repeat_req_kind}

-- `l_inst_info`; INST_INFO_EMPTY is the iid 0. `final_value` points to one of the acks, which is
-- not changed while the pointer is set: here it is that ack.
pub record InstInfo : Type 0 where
  pub iid : ℕ
  pub last_update_ballot : ℕ
  pub acks : ℕ → Option AcceptAck
  pub final_value : Option AcceptAck

pub record Learner : Type 0 where
  pub highest_iid_seen : ℕ
  pub current_iid : ℕ
  pub highest_iid_closed : ℕ
  pub learner_state : ℕ → InstInfo

-- The arguments of the call of `delfun`.
pub record Delivery : Type 0 where
  pub value : List ℕ
  pub iid : ℕ
  pub ballot : ℕ
  pub proposer : ℕ

-- GET_LEA_INSTANCE: the mask is LEARNER_ARRAY_SIZE - 1, of a power of two.
abbrev pub lea_index : ℕ → ℕ
lea_index iid = iid % learner_array_size

abbrev pub lea_instance : Learner → ℕ → InstInfo
lea_instance st iid = st.learner_state (lea_index iid)

-- IS_CLOSED
abbrev pub is_closed : InstInfo → Bool
is_closed ii = is_some ii.final_value

unfoldable pub learner_is_closed : Learner → ℕ → Bool
learner_is_closed st iid = (iid == (lea_instance st iid).iid) && is_closed (lea_instance st iid)

abbrev pub lea_clear_instance_info : InstInfo → InstInfo
lea_clear_instance_info ii = record {
  iid = 0;
  last_update_ballot = 0;
  acks = λ i. none;
  final_value = none;
}

abbrev pub lea_store_accept_ack : InstInfo → ℕ → AcceptAck → InstInfo
lea_store_accept_ack ii acceptor_id aa = record ii {
  acks = update ii.acks acceptor_id (some aa);
  last_update_ballot = aa.ballot;
}

-- The first message for an instance claims the record.
abbrev pub claim : InstInfo → AcceptAck → InstInfo
claim ii aa = if ii.iid == 0 then record ii { iid = aa.iid; last_update_ballot = aa.ballot } else ii

-- Whether the state changed, and the record. The assertion that the record is the message's
-- instance holds by Learner/Window and is left out.
unfoldable pub lea_update_state : InstInfo → ℕ → AcceptAck → Bool × InstInfo
lea_update_state ii acceptor_id aa =
    let ii' = claim ii aa in
    if is_closed ii' then (false, ii') else (elim (ii'.acks acceptor_id) [
      | none ↦ (true, lea_store_accept_ack ii' acceptor_id aa)
      | some prev_ack ↦
          if leb aa.ballot prev_ack.ballot
          then (false, ii')
          else (true, lea_store_accept_ack ii' acceptor_id aa)
    ])

-- The loop of `lea_check_quorum` from index `i`, for the given number of rounds: the last index
-- that agrees, and the count.
pub count_acks : InstInfo → ℕ → ℕ → Option ℕ → ℕ → Option ℕ × ℕ
count_acks ii zero i a_valid_index count = (a_valid_index, count)
count_acks ii (suc n) i a_valid_index count = elim (ii.acks i) [
  | none ↦ count_acks ii n (i + 1) a_valid_index count
  | some curr_ack ↦ elim (curr_ack.ballot == ii.last_update_ballot) [
    | false ↦ count_acks ii n (i + 1) a_valid_index count
    | true ↦ elim curr_ack.is_final [
      | true ↦ (some i, count + 1 + n_of_acceptors)
      | false ↦ count_acks ii n (i + 1) (some i) (count + 1)
    ]
  ]
]

abbrev pub ack_at : InstInfo → Option ℕ → Option AcceptAck
ack_at ii none = none
ack_at ii (some i) = ii.acks i

-- The record with `final_value` set if it is closed.
unfoldable pub lea_check_quorum : InstInfo → Bool × InstInfo
unfolding count_acks
lea_check_quorum ii =
    let (a_valid_index, count) = count_acks ii n_of_acceptors 0 none 0 in
    if leb quorum count
    then (true, record ii { final_value = ack_at ii a_valid_index })
    else (false, ii)

abbrev pub next_iid : ℕ → ℕ
next_iid iid = (iid + 1) % u32_mod

abbrev pub delivery : ℕ → AcceptAck → Delivery
delivery iid aa = record {
  value = aa.value;
  iid = iid;
  ballot = aa.ballot;
  proposer = aa.ballot % max_n_of_proposers;
}

-- The body of the loop of `lea_deliver_next_closed`.
abbrev pub advance : Learner → Learner
advance st = record st {
  current_iid = next_iid st.current_iid;
  learner_state =
      update st.learner_state (lea_index st.current_iid)
        (lea_clear_instance_info (lea_instance st st.current_iid));
}

pub deliver_loop : ℕ → Learner → Learner × List Delivery
deliver_loop zero st = (st, [])
deliver_loop (suc fuel) st = elim (lea_instance st st.current_iid).final_value [
  | none ↦ (st, [])
  | some aa ↦
      let (st', ds) = deliver_loop fuel (advance st) in (st', delivery st.current_iid aa ∷ ds)
]

-- After as many rounds as there are records, all are cleared: Learner/Deliver proves that the loop
-- has ended by then. The assertion in the loop holds by Learner/Window and is left out.
pub lea_deliver_next_closed : Learner → Learner × List Delivery
lea_deliver_next_closed st = deliver_loop learner_array_size st

abbrev pub see : AcceptAck → Learner → Learner
see aa st = if ltb st.highest_iid_seen aa.iid then record st { highest_iid_seen = aa.iid } else st

-- The instance of a message that is within bounds is updated; `true` if it is closed thereby.
unfoldable pub lea_apply_ack : ℕ → AcceptAck → Learner → Bool × Learner
lea_apply_ack acceptor_id aa st =
    let (relevant, ii) = lea_update_state (lea_instance st aa.iid) acceptor_id aa in
    let (closed, ii') = lea_check_quorum ii in
    let set = λ (x : InstInfo). update st.learner_state (lea_index aa.iid) x in
    if relevant
    then (if closed
        then (
          true,
          record st {
            learner_state = set ii';
            highest_iid_closed =
                if ltb st.highest_iid_closed ii'.iid then ii'.iid else st.highest_iid_closed;
          },
        )
        else (false, record st { learner_state = set ii }))
    else (false, record st { learner_state = set ii })

abbrev pub is_interesting : Learner → ℕ → Bool
is_interesting st iid =
    not (ltb iid st.current_iid) && ltb iid ((st.current_iid + learner_array_size) % u32_mod)

-- `handle_accept_ack` after the first test.
unfoldable pub handle_seen_ack : ℕ → AcceptAck → Learner → Learner × List Delivery
handle_seen_ack acceptor_id aa st =
    let (closed, st') = lea_apply_ack acceptor_id aa st in
    if is_interesting st aa.iid
    then (if closed && (aa.iid == st'.current_iid) then lea_deliver_next_closed st' else (st', []))
    else (st, [])

unfoldable pub handle_accept_ack : ℕ → AcceptAck → Learner → Learner × List Delivery
unfolding handle_seen_ack
handle_accept_ack acceptor_id aa st = handle_seen_ack acceptor_id aa (see aa st)

pub handle_accept_ack_batch : ℕ → List AcceptAck → Learner → Learner × List Delivery
handle_accept_ack_batch acceptor_id [] st = (st, [])
handle_accept_ack_batch acceptor_id (aa ∷ aas) st =
    let (st', ds) = handle_accept_ack acceptor_id aa st in
    let (st'', es) = handle_accept_ack_batch acceptor_id aas st' in (st'', ds ++ es)

-- `none` is a message that `udp_read_next_message` finds invalid.
pub lea_handle_newmsg : Option Packet → Learner → Learner × List Delivery
lea_handle_newmsg (some (accept_acks acceptor_id aas)) st =
    handle_accept_ack_batch acceptor_id aas st
lea_handle_newmsg _ st = (st, [])

-- The loop of `lea_send_repeat_request` from `i`, for the given number of rounds.
pub repeat_request_loop : Learner → ℕ → ℕ → SendBuf ℕ → SendBuf ℕ × List Event
repeat_request_loop st zero i sb = (sb, [])
repeat_request_loop st (suc n) i sb =
    let (sb', es) =
      if is_closed (lea_instance st i) then (sb, []) else sendbuf_add_repeat_req sb i in
    let (sb'', fs) = repeat_request_loop st n (i + 1) sb' in (sb'', es ++ fs)

pub lea_send_repeat_request : Learner → ℕ → ℕ → List Event
unfolding repeat_request_loop
lea_send_repeat_request st from to =
    let (sb, es) = repeat_request_loop st (to - from) from (sendbuf_clear 0) in
    es ++ sendbuf_flush repeat_req_kind sb

unfoldable pub lea_hole_check : Learner → List Event
lea_hole_check st =
    if ltb ((st.current_iid + learner_array_size) % u32_mod) st.highest_iid_seen
    then lea_send_repeat_request st st.current_iid st.highest_iid_seen
    else (if ltb st.current_iid st.highest_iid_closed
        then lea_send_repeat_request st st.current_iid st.highest_iid_closed
        else [])

-- The static variables' first values, with the records cleared by `init_lea_structs`.
abbrev pub init_learner : Learner
init_learner = record {
  highest_iid_seen = 1;
  current_iid = 1;
  highest_iid_closed = 0;
  learner_state =
      λ i. record { iid = 0; last_update_ballot = 0; acks = λ j. none; final_value = none };
}
