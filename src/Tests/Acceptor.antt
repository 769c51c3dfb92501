-- ===== src/Tests/Acceptor.antt =====
-- The acceptor's theorems at concrete messages.
use fds.Prelude.{
  ℕ, ◌≡◌, ◌⊎◌, ◌<◌, ◌≤◌, refl, [], ◌∷◌, none, some, All, arith, false, Bool-cases, inl, inr, ◌==◌,
}
use fds.Messages.{AcceptReq, AcceptAck, accept_reqs, accept_acks, tx_begin, tx_end, sent}
use fds.Storage.{accept_record, stablestorage_get_record}
use fds.SendBuf.{prepare_ack_kind, accept_ack_kind, ack_of_record}
use fds.SendBuf.Batch.{carried, Small}
use fds.Acceptor.{
  acc_handle_newmsg, handle_prepare_req_batch, handle_accept_req_batch, handle_repeat_req_batch,
  acc_periodic_repeater,
}
use fds.Acceptor.Inv.{Inv, acc_handle_newmsg-Inv, acc_periodic_repeater_total}
use fds.Acceptor.Durable.{
  Durable, transactions, writes, handle_prepare_req_batch-Durable, handle_accept_req_batch-Durable,
}
use fds.Acceptor.Ballots.{
  Related, Raised, Lowered, Promised, accepted, handle_prepare_req_batch-Promised,
  handle_accept_req_batch-Lowered, handle_accept_one,
}
use fds.Acceptor.Repeat.{repeats, handle_repeat_req_batch_lem}
use fds.Tests.Data.{table_db, new_acceptor, used_acceptor, req1, acc1, rec1}

new_acceptor-Inv : Inv table_db new_acceptor
unfolding stablestorage_get_record
new_acceptor-Inv = record {
  keyed = λ i r h. cc;
  small = λ i r h. cc;
  highest = λ ne. absurd (ne refl);
}

-- Only instance 1 has a record.
used_record :
    (i : ℕ) (r : AcceptAck)
    → stablestorage_get_record table_db i used_acceptor.store ≡ some r
    → (i ≡ 1) × (r ≡ rec1)
unfolding stablestorage_get_record
used_record i r h = elim (Bool-cases (1 == i)) [
  | inl e ↦
      let h' : some rec1 ≡ some r = rw (e, stablestorage_get_record) at h in (ground arith, cc)
  | inr e ↦ let h' : none ≡ some r = rw (e, stablestorage_get_record) at h in absurd cc
]

used_acceptor-Inv : Inv table_db used_acceptor
unfolding stablestorage_get_record
used_acceptor-Inv = record {
  keyed = λ i r h. let (e, f) = used_record i r h in ground arith;
  small = λ i r h. let (e, f) = used_record i r h in rw f (ground arith);
  highest = λ ne. (rec1, refl);
}

acc_handle_newmsg-Inv_example :
    Inv table_db (acc_handle_newmsg table_db (some (accept_reqs 1 (acc1 ∷ []))) new_acceptor).0
acc_handle_newmsg-Inv_example =
    acc_handle_newmsg-Inv table_db (some (accept_reqs 1 (acc1 ∷ []))) new_acceptor new_acceptor-Inv
      (ground arith, tt)

acc_periodic_repeater_total_example :
    ((used_acceptor.highest_accepted_iid ≡ 0)
      × (acc_periodic_repeater table_db used_acceptor ≡ some []))
    ⊎ ((r : AcceptAck) × (stablestorage_get_record table_db used_acceptor.highest_accepted_iid
            used_acceptor.store
          ≡ some r)
        × (acc_periodic_repeater table_db used_acceptor
            ≡ some (tx_begin ∷ tx_end ∷ sent (accept_acks 1 (r ∷ [])) ∷ [])))
acc_periodic_repeater_total_example =
    acc_periodic_repeater_total table_db used_acceptor used_acceptor-Inv

handle_prepare_req_batch-Durable_example :
    Durable prepare_ack_kind ack_of_record
      (handle_prepare_req_batch table_db (req1 ∷ req1 ∷ []) new_acceptor).1
handle_prepare_req_batch-Durable_example =
    handle_prepare_req_batch-Durable table_db (req1 ∷ req1 ∷ []) new_acceptor new_acceptor-Inv

handle_accept_req_batch-Durable_example :
    Durable accept_ack_kind (λ r. r) (handle_accept_req_batch table_db (acc1 ∷ []) new_acceptor).1
handle_accept_req_batch-Durable_example =
    handle_accept_req_batch-Durable table_db (acc1 ∷ []) new_acceptor (ground arith, tt)

handle_prepare_req_batch-Promised_example :
    (let st' = (handle_prepare_req_batch table_db (req1 ∷ []) used_acceptor).0 in
      Related table_db Raised used_acceptor.store st'.store
      × All (Promised table_db st'.store) (req1 ∷ []))
handle_prepare_req_batch-Promised_example =
    handle_prepare_req_batch-Promised table_db (req1 ∷ []) used_acceptor

handle_accept_req_batch-Lowered_example :
    Related table_db Lowered used_acceptor.store
      (handle_accept_req_batch table_db (acc1 ∷ []) used_acceptor).0.store
handle_accept_req_batch-Lowered_example =
    handle_accept_req_batch-Lowered table_db (acc1 ∷ []) used_acceptor

-- An accept request with a ballot above the record's.
abbrev later : AcceptReq
later = record { iid = 1; ballot = 21; value = 9 ∷ [] }

handle_accept_one_example :
    (rec1.ballot < later.ballot
      → handle_accept_req_batch table_db (later ∷ []) used_acceptor
        ≡ (used_acceptor, tx_begin ∷ tx_end ∷ []))
    × (later.ballot ≤ rec1.ballot
        → (let (st', es) = handle_accept_req_batch table_db (later ∷ []) used_acceptor in
            (stablestorage_get_record table_db 1 st'.store ≡ some (accept_record later))
            × (es ≡ accepted table_db 1 later)))
unfolding stablestorage_get_record
handle_accept_one_example = handle_accept_one table_db later rec1 used_acceptor (ground arith) refl

handle_repeat_req_batch_lem_example :
    (let es = handle_repeat_req_batch table_db (1 ∷ 2 ∷ []) used_acceptor in
      (carried accept_ack_kind es ≡ repeats table_db used_acceptor.store (1 ∷ 2 ∷ []))
      × (writes es ≡ [])
      × (transactions false es ≡ some false)
      × All (Small accept_ack_kind) es)
handle_repeat_req_batch_lem_example =
    handle_repeat_req_batch_lem table_db (1 ∷ 2 ∷ []) used_acceptor used_acceptor-Inv
