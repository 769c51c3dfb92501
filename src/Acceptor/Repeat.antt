-- ===== src/Acceptor/Repeat.antt =====
-- What an acceptor answers to a learner's repeat requests.
use fds.Prelude.{
  ℕ, ◌≡◌, refl, ◌∙◌, sym, List, [], ◌∷◌, ◌++◌, true, false, Bool-cases, inl, inr, Option, none,
  some, ltb, length, All, All-append,
}
use fds.Messages.{AcceptAck, Event, tx_end}
use fds.SendBuf.{SendBuf, sendbuf_clear, sendbuf_flush, accept_ack_kind}
use fds.SendBuf.Batch.{
  carried, carried-append, Small, Added, Added-nil, Added-trans, Added-flush, clear-IsValid,
  flush-Small, sendbuf_add_ack-Added,
}
use fds.SendBuf.Batch
use fds.Storage.{Db, stablestorage_get_record}
use fds.Acceptor.{Acceptor, add_accept_ack, repeatable, repeat_loop, handle_repeat_req_batch}
use fds.Acceptor.Inv.{Inv, IsSmall}
use fds.Acceptor.Durable.{
  transactions, writes, transactions-append, writes-append, flush-Sent, add_ack-Sent,
}

abbrev to_list : Option AcceptAck → List AcceptAck
to_list none = []
to_list (some r) = r ∷ []

module _ (d : Db) where
  -- The stored records with a value, of the requested instances in order.
  abbrev pub repeats : d.Store → List ℕ → List AcceptAck
  repeats s [] = []
  repeats s (iid ∷ iids) = to_list (repeatable (stablestorage_get_record d iid s)) ++ repeats s iids

  -- What a part of the loop has done.
  record Repeated (xs : List AcceptAck) (sb : SendBuf AcceptAck)
      (r : SendBuf AcceptAck × List Event) : Type 0 where
    open_tx : transactions true r.1 ≡ some true
    read_only : writes r.1 ≡ []
    added : Added accept_ack_kind sb xs r

  Repeated-one :
      (o : Option AcceptAck) (sb : SendBuf AcceptAck)
      → All IsSmall (to_list o)
      → Batch.IsValid accept_ack_kind sb
      → Repeated (to_list o) sb (add_accept_ack sb o)
  Repeated-one none sb sm v = record {
    open_tx = refl;
    read_only = refl;
    added = Added-nil accept_ack_kind sb v;
  }
  Repeated-one (some r) sb sm v =
      let sends = add_ack-Sent accept_ack_kind sb r in
      record {
        open_tx = sends.0;
        read_only = sends.1;
        added = sendbuf_add_ack-Added accept_ack_kind sb r v sm.0;
      }

  Repeated-trans :
      {sb sb' sb'' : SendBuf AcceptAck} {xs ys : List AcceptAck} {es fs : List Event}
      → Repeated xs sb (sb', es)
      → Repeated ys sb' (sb'', fs)
      → Repeated (xs ++ ys) sb (sb'', es ++ fs)
  Repeated-trans {es = es} {fs = fs} p q = record {
    open_tx = transactions-append true true es fs p.open_tx ∙ q.open_tx;
    read_only = rw (writes-append es fs, p.read_only, q.read_only);
    added = Added-trans accept_ack_kind p.added q.added;
  }

  repeatable-IsSmall :
      (iid : ℕ) (st : Acceptor d) (old : Option AcceptAck)
      → Inv d st
      → stablestorage_get_record d iid st.store ≡ old
      → All IsSmall (to_list (repeatable old))
  repeatable-IsSmall iid st none v e = tt
  repeatable-IsSmall iid st (some r) v e = elim (Bool-cases (ltb 0 (length r.value))) [
    | inl t ↦ rw t (v.small iid r e, tt)
    | inr t ↦ rw t tt
  ]

  repeat_loop-Repeated :
      (iids : List ℕ) (st : Acceptor d) (sb : SendBuf AcceptAck)
      → Inv d st
      → Batch.IsValid accept_ack_kind sb
      → Repeated (repeats st.store iids) sb (repeat_loop d iids st.store sb)
  unfolding repeat_loop
  repeat_loop-Repeated [] st sb v w = record {
    open_tx = refl;
    read_only = refl;
    added = Added-nil accept_ack_kind sb w;
  }
  repeat_loop-Repeated (iid ∷ iids) st sb v w =
      let one =
        Repeated-one (repeatable (stablestorage_get_record d iid st.store)) sb
          (repeatable-IsSmall iid st _ v refl) w in
      Repeated-trans one (repeat_loop-Repeated iids st _ v one.added.valid)

  -- Repeat requests, at an acceptor that satisfies the invariant, are answered with exactly the
  -- stored records that have a value, in the order of the requests. Nothing is written, packets are
  -- sent outside the transactions, and each fits.
  pub handle_repeat_req_batch_lem :
      (iids : List ℕ) (st : Acceptor d)
      → Inv d st
      → (let es = handle_repeat_req_batch d iids st in
          (carried accept_ack_kind es ≡ repeats st.store iids)
          × (writes es ≡ [])
          × (transactions false es ≡ some false)
          × All (Small accept_ack_kind) es)
  unfolding handle_repeat_req_batch carried
  handle_repeat_req_batch_lem iids st v =
      let k = accept_ack_kind in
      let clear = sendbuf_clear st.this_acceptor_id in
      let p = repeat_loop-Repeated iids st clear v (clear-IsValid k st.this_acceptor_id) in
      let (sb, es) = repeat_loop d iids st.store clear in
      let flushed = flush-Sent k sb in
      (
        carried-append k es (tx_end ∷ sendbuf_flush k sb)
            ∙ sym (carried-append k es (sendbuf_flush k sb))
            ∙ (Added-flush k st.this_acceptor_id p.added).0,
        rw (writes-append, p.read_only) flushed.1,
        transactions-append true true es (tx_end ∷ sendbuf_flush k sb) p.open_tx ∙ flushed.0,
        (
          tt,
          All-append (Small k) es (tx_end ∷ sendbuf_flush k sb) p.added.fit
              (tt, flush-Small k sb p.added.valid),
        ),
      )
