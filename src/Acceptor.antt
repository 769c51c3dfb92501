-- ===== src/Acceptor.antt =====
-- paxos2/lib/acceptor.c: the acceptor's handlers.
-- A handler returns the new state and what it does, in order.
pub mod Inv
pub mod Durable
pub mod Ballots
pub mod Repeat
use fds.Prelude.{
  ℕ, ◌++◌, List, [], ◌∷◌, Bool, true, false, ◌||◌, Option, none, some, ltb, leb, ◌==◌,
  if◌then◌else◌, length,
}
use fds.Messages.{
  PrepareReq, PrepareAck, AcceptReq, AcceptAck, Packet, Event, prepare_reqs, accept_reqs,
  repeat_reqs, tx_begin, tx_end, stored, sent,
}
use fds.SendBuf.{
  SendBuf, sendbuf_clear, sendbuf_flush, sendbuf_add_prepare_ack, sendbuf_add_accept_ack,
  prepare_ack_kind, accept_ack_kind,
}
use fds.Storage.{
  Db, stablestorage_get_record, stablestorage_save_accept, stablestorage_save_prepare,
  stablestorage_save_final_value,
}

-- "We already have a more recent ballot", as the code tests it.
abbrev pub refuses_accept : AcceptReq → Option AcceptAck → Bool
refuses_accept ar none = false
refuses_accept ar (some rec) = ltb rec.ballot ar.ballot

abbrev pub refuses_prepare : PrepareReq → Option AcceptAck → Bool
refuses_prepare pr none = false
refuses_prepare pr (some rec) = leb pr.ballot rec.ballot || rec.is_final

-- `if(rec != NULL) sendbuf_add_prepare_ack(...)`.
abbrev pub add_prepare_ack : SendBuf PrepareAck → Option AcceptAck → SendBuf PrepareAck × List Event
add_prepare_ack sb none = (sb, [])
add_prepare_ack sb (some rec) = sendbuf_add_prepare_ack sb rec

abbrev pub add_accept_ack : SendBuf AcceptAck → Option AcceptAck → SendBuf AcceptAck × List Event
add_accept_ack sb none = (sb, [])
add_accept_ack sb (some rec) = sendbuf_add_accept_ack sb rec

-- The record to repeat for an instance: one with a value.
abbrev pub repeatable : Option AcceptAck → Option AcceptAck
repeatable none = none
repeatable (some rec) = if ltb 0 (length rec.value) then some rec else none

module _ (d : Db) where
  -- `this_acceptor_id`, the open database, and `highest_accepted_iid`.
  pub record Acceptor : Type 0 where
    pub this_acceptor_id : ℕ
    pub store : d.Store
    pub highest_accepted_iid : ℕ

module _ (d : Db) where
  unfoldable pub acc_apply_accept :
      AcceptReq → Option AcceptAck → Acceptor d → Option AcceptAck × Acceptor d × List Event
  unfolding stablestorage_save_accept
  acc_apply_accept ar rec st =
      if refuses_accept ar rec
      then (none, st, [])
      else (let (rec', store', es) = stablestorage_save_accept d ar st.store in
          (
            some rec',
            record st {
              store = store';
              highest_accepted_iid =
                  if ltb st.highest_accepted_iid ar.iid then ar.iid else st.highest_accepted_iid;
            },
            es,
          ))

  unfoldable pub acc_apply_prepare :
      PrepareReq → Option AcceptAck → Acceptor d → Option AcceptAck × Acceptor d × List Event
  unfolding stablestorage_save_prepare
  acc_apply_prepare pr rec st =
      if refuses_prepare pr rec
      then (none, st, [])
      else (let (rec', store', es) = stablestorage_save_prepare d pr rec st.store in
          (some rec', record st { store = store' }, es))

  -- One iteration of the loop of `handle_prepare_req_batch`.
  pub prepare_step :
      PrepareReq → Acceptor d × SendBuf PrepareAck → Acceptor d × SendBuf PrepareAck × List Event
  prepare_step pr (st, sb) =
      let (rec, st', es) = acc_apply_prepare pr (stablestorage_get_record d pr.iid st.store) st in
      let (sb', fs) = add_prepare_ack sb rec in (st', sb', es ++ fs)

  pub prepare_loop :
      List PrepareReq
      → Acceptor d × SendBuf PrepareAck
      → Acceptor d × SendBuf PrepareAck × List Event
  prepare_loop [] (st, sb) = (st, sb, [])
  prepare_loop (pr ∷ prs) (st, sb) =
      let (st', sb', es) = prepare_step pr (st, sb) in
      let (st'', sb'', fs) = prepare_loop prs (st', sb') in (st'', sb'', es ++ fs)

  pub handle_prepare_req_batch : List PrepareReq → Acceptor d → Acceptor d × List Event
  unfolding prepare_loop
  handle_prepare_req_batch prs st =
      let (st', sb, es) = prepare_loop prs (st, sendbuf_clear st.this_acceptor_id) in
      (st', tx_begin ∷ (es ++ (tx_end ∷ sendbuf_flush prepare_ack_kind sb)))

  -- One iteration of the loop of `handle_accept_req_batch`.
  pub accept_step :
      AcceptReq → Acceptor d × SendBuf AcceptAck → Acceptor d × SendBuf AcceptAck × List Event
  accept_step ar (st, sb) =
      let (rec, st', es) = acc_apply_accept ar (stablestorage_get_record d ar.iid st.store) st in
      let (sb', fs) = add_accept_ack sb rec in (st', sb', es ++ fs)

  pub accept_loop :
      List AcceptReq → Acceptor d × SendBuf AcceptAck → Acceptor d × SendBuf AcceptAck × List Event
  accept_loop [] (st, sb) = (st, sb, [])
  accept_loop (ar ∷ ars) (st, sb) =
      let (st', sb', es) = accept_step ar (st, sb) in
      let (st'', sb'', fs) = accept_loop ars (st', sb') in (st'', sb'', es ++ fs)

  pub handle_accept_req_batch : List AcceptReq → Acceptor d → Acceptor d × List Event
  unfolding accept_loop
  handle_accept_req_batch ars st =
      let (st', sb, es) = accept_loop ars (st, sendbuf_clear st.this_acceptor_id) in
      (st', tx_begin ∷ (es ++ (tx_end ∷ sendbuf_flush accept_ack_kind sb)))

  pub repeat_loop : List ℕ → d.Store → SendBuf AcceptAck → SendBuf AcceptAck × List Event
  repeat_loop [] s sb = (sb, [])
  repeat_loop (iid ∷ iids) s sb =
      let (sb', es) = add_accept_ack sb (repeatable (stablestorage_get_record d iid s)) in
      let (sb'', fs) = repeat_loop iids s sb' in (sb'', es ++ fs)

  pub handle_repeat_req_batch : List ℕ → Acceptor d → List Event
  unfolding repeat_loop
  handle_repeat_req_batch iids st =
      let (sb, es) = repeat_loop iids st.store (sendbuf_clear st.this_acceptor_id) in
      tx_begin ∷ (es ++ (tx_end ∷ sendbuf_flush accept_ack_kind sb))

  -- `none`: the record is NULL, and `sendbuf_add_accept_ack` reads through it.
  pub acc_retransmit_latest_accept : Acceptor d → Option (List Event)
  acc_retransmit_latest_accept st =
      elim (stablestorage_get_record d st.highest_accepted_iid st.store) [
        | none ↦ none
        | some rec ↦ some (
            let (sb, es) = sendbuf_add_accept_ack (sendbuf_clear st.this_acceptor_id) rec in
            tx_begin ∷ (es ++ (tx_end ∷ sendbuf_flush accept_ack_kind sb)))
      ]

  pub acc_periodic_repeater : Acceptor d → Option (List Event)
  unfolding acc_retransmit_latest_accept
  acc_periodic_repeater st =
      if ltb 0 st.highest_accepted_iid then acc_retransmit_latest_accept st else some []

  -- `none` is a message that `udp_read_next_message` finds invalid.
  pub acc_handle_newmsg : Option Packet → Acceptor d → Acceptor d × List Event
  unfolding handle_prepare_req_batch handle_accept_req_batch handle_repeat_req_batch
  acc_handle_newmsg none st = (st, [])
  acc_handle_newmsg (some (prepare_reqs sender prs)) st = handle_prepare_req_batch prs st
  acc_handle_newmsg (some (accept_reqs sender ars)) st = handle_accept_req_batch ars st
  acc_handle_newmsg (some (repeat_reqs iids)) st = (st, handle_repeat_req_batch iids st)
  acc_handle_newmsg (some _) st = (st, [])

  -- The argument `update_on_deliver` tells whether ACCEPTOR_UPDATE_ON_DELIVER is defined.
  pub acc_deliver_callback : Bool → List ℕ → ℕ → ℕ → Acceptor d → Acceptor d × List Event
  acc_deliver_callback update_on_deliver value iid ballot st =
      if update_on_deliver
      then (let (rec, store', es) = stablestorage_save_final_value d value iid ballot st.store in
          (record st { store = store' }, tx_begin ∷ (es ++ tx_end ∷ [])))
      else (st, [])
