-- ===== src/Acceptor/Durable.antt =====
-- An acceptor writes a record, closes the transaction, and only then sends what it wrote.
use fds.Prelude.{
  ℕ, ◌≡◌, refl, sym, ◌∙◌, ap, inl, inr, List, [], ◌∷◌, ◌++◌, append-nil, All-append, Bool, true,
  false, Bool-cases, Option, none, some, map, arith, All,
}
use mathlib.Core.List.{map-append}
use fds.Messages.{
  PrepareReq, PrepareAck, AcceptReq, AcceptAck, Event, stored, sent, tx_begin, tx_end,
}
use fds.SendBuf.{
  Kind, SendBuf, sendbuf_clear, sendbuf_flush, sendbuf_add_ack, is_full, prepare_ack_kind,
  accept_ack_kind, ack_of_record,
}
use fds.SendBuf.Batch.{
  Fits, carried, Small, Added, Added-nil, Added-trans, Added-flush, clear-IsValid, flush-Small,
  sendbuf_add_ack-Added, carried-append,
}
use fds.SendBuf.Batch
use fds.Storage.{Db, accept_record, prepare_record}
use fds.Acceptor.{
  Acceptor, acc_apply_accept, acc_apply_prepare, refuses_accept, refuses_prepare, add_prepare_ack,
  add_accept_ack, prepare_step, prepare_loop, accept_step, accept_loop, handle_prepare_req_batch,
  handle_accept_req_batch,
}
use fds.Acceptor.Inv.{Inv, prepare_record_lem, IsSmall, prepare_step-Inv}

-- Follows the transactions: `some b` tells whether one is open at the end, `none` that a record was
-- written outside a transaction, a packet sent inside one, or that they were nested.
abbrev pub transactions : Bool → List Event → Option Bool
transactions b [] = some b
transactions false (tx_begin ∷ es) = transactions true es
transactions true (tx_end ∷ es) = transactions false es
transactions true (stored r ∷ es) = transactions true es
transactions false (sent p ∷ es) = transactions false es
transactions _ _ = none

-- The records written, in order.
abbrev pub writes : List Event → List AcceptAck
writes [] = []
writes (stored r ∷ es) = r ∷ writes es
writes (_ ∷ es) = writes es

pub transactions-append :
    (b c : Bool) (es fs : List Event)
    → transactions b es ≡ some c
    → transactions b (es ++ fs) ≡ transactions c fs
transactions-append b c [] fs h = ground arith
transactions-append false c (tx_begin ∷ es) fs h = transactions-append true c es fs h
transactions-append true c (tx_begin ∷ es) fs h = ground arith
transactions-append false c (tx_end ∷ es) fs h = ground arith
transactions-append true c (tx_end ∷ es) fs h = transactions-append false c es fs h
transactions-append false c (stored r ∷ es) fs h = ground arith
transactions-append true c (stored r ∷ es) fs h = transactions-append true c es fs h
transactions-append false c (sent p ∷ es) fs h = transactions-append false c es fs h
transactions-append true c (sent p ∷ es) fs h = ground arith

pub writes-append : (es fs : List Event) → writes (es ++ fs) ≡ writes es ++ writes fs
writes-append [] fs = refl
writes-append (tx_begin ∷ es) fs = writes-append es fs
writes-append (tx_end ∷ es) fs = writes-append es fs
writes-append (stored r ∷ es) fs = ap (◌∷◌ r) (writes-append es fs)
writes-append (sent p ∷ es) fs = writes-append es fs

module _ {A : Type 0} (k : Kind A) where
  pub flush-Sent :
      (sb : SendBuf A)
      → (transactions false (sendbuf_flush k sb) ≡ some false) × (writes (sendbuf_flush k sb) ≡ [])
  unfolding sendbuf_flush
  flush-Sent sb = elim (Bool-cases sb.dirty) [
    | inl e ↦ rw e (refl, refl)
    | inr e ↦ rw e (refl, refl)
  ]

  -- A full buffer is sent between two transactions.
  pub add_ack-Sent :
      (sb : SendBuf A) (a : A)
      → (transactions true (sendbuf_add_ack k sb a).1 ≡ some true)
        × (writes (sendbuf_add_ack k sb a).1 ≡ [])
  unfolding sendbuf_add_ack
  add_ack-Sent sb a = elim (Bool-cases (is_full k sb a)) [
    | inr e ↦ rw e (refl, refl)
    | inl e ↦ rw e (
      transactions-append false false (sendbuf_flush k sb) (tx_begin ∷ []) (flush-Sent sb).0,
      writes-append (sendbuf_flush k sb) (tx_begin ∷ []) ∙ ap (λ l. l ++ []) (flush-Sent sb).1,
    )
  ]

  -- What a part of a handler's loop has done: the packets carry the messages made of the records
  -- that were written, in the same order, and fit; the transactions are closed and opened again.
  record Answered (f : AcceptAck → A) (sb : SendBuf A) (r : SendBuf A × List Event) : Type 0 where
    open_tx : transactions true r.1 ≡ some true
    added : Added k sb (map f (writes r.1)) r

  Answered-trans :
      {f : AcceptAck → A} {sb sb' sb'' : SendBuf A} {es fs : List Event}
      → Answered f sb (sb', es)
      → Answered f sb' (sb'', fs)
      → Answered f sb (sb'', es ++ fs)
  Answered-trans {f} {sb} {sb'} {sb''} {es} {fs} p q = record {
    open_tx = transactions-append true true es fs p.open_tx ∙ q.open_tx;
    added =
        rw (writes-append es fs, map-append f (writes es) (writes fs))
          (Added-trans k p.added q.added);
  }

  Answered-nil : (f : AcceptAck → A) (sb : SendBuf A) → Batch.IsValid k sb → Answered f sb (sb, [])
  Answered-nil f sb v = record { open_tx = refl; added = Added-nil k sb v }

  -- One record written and added to the buffer.
  Answered-one :
      (f : AcceptAck → A) (sb : SendBuf A) (rec : AcceptAck)
      → Batch.IsValid k sb
      → Fits k (f rec)
      → (let (sb', es) = sendbuf_add_ack k sb (f rec) in Answered f sb (sb', stored rec ∷ es))
  unfolding carried
  Answered-one f sb rec v fits =
      let sends = add_ack-Sent sb (f rec) in
      let adds = sendbuf_add_ack-Added k sb (f rec) v fits in
      record {
        open_tx = sends.0;
        added = rw sends.1 record { valid = adds.valid; kept = adds.kept; fit = (tt, adds.fit) };
      }

  -- What a handler did that wrote records and answered with them: no write outside a transaction
  -- and no packet inside one; the packets carry the messages made of the records written, all of
  -- them and in order; and each packet fits.
  pub record Durable (f : AcceptAck → A) (es : List Event) : Type 0 where
    pub closed : transactions false es ≡ some false
    pub answers : carried k es ≡ map f (writes es)
    pub fit : All (Small k) es

  -- The loop's events between `stablestorage_tx_begin` and `_tx_end`, and the flush.
  Answered-Durable :
      (f : AcceptAck → A) (sender : ℕ) (r : SendBuf A × List Event)
      → Answered f (sendbuf_clear sender) r
      → Durable f (tx_begin ∷ (r.1 ++ (tx_end ∷ sendbuf_flush k r.0)))
  unfolding carried
  Answered-Durable f sender (sb, es) p =
      let all = Added-flush k sender p.added in
      let flushed = flush-Sent sb in
      let nothing = writes-append es (tx_end ∷ sendbuf_flush k sb) in
      record {
        closed =
            transactions-append true true es (tx_end ∷ sendbuf_flush k sb) p.open_tx ∙ flushed.0;
        answers =
            carried-append k es (tx_end ∷ sendbuf_flush k sb)
            ∙ sym (carried-append k es (sendbuf_flush k sb))
            ∙ all.0
            ∙ ap (map f)
                (sym (nothing ∙ ap (λ l. writes es ++ l) flushed.1 ∙ append-nil (writes es)));
        fit = (
          tt,
          All-append (Small k) es (tx_end ∷ sendbuf_flush k sb) p.added.fit
              (tt, flush-Small k sb p.added.valid),
        );
      }

module _ (d : Db) where
  acc_apply_prepare-Answered :
      (pr : PrepareReq) (old : Option AcceptAck) (st : Acceptor d) (sb : SendBuf PrepareAck)
      → IsSmall (prepare_record pr old)
      → Batch.IsValid prepare_ack_kind sb
      → (let (rec, st', es) = acc_apply_prepare d pr old st in
          let (sb', fs) = add_prepare_ack sb rec in
          Answered prepare_ack_kind ack_of_record sb (sb', es ++ fs))
  unfolding acc_apply_prepare
  acc_apply_prepare-Answered pr old st sb sm v = elim (Bool-cases (refuses_prepare pr old)) [
    | inl e ↦ rw e (Answered-nil prepare_ack_kind ack_of_record sb v)
    | inr e ↦ rw e (Answered-one prepare_ack_kind ack_of_record sb (prepare_record pr old) v sm)
  ]

  acc_apply_accept-Answered :
      (ar : AcceptReq) (old : Option AcceptAck) (st : Acceptor d) (sb : SendBuf AcceptAck)
      → IsSmall (accept_record ar)
      → Batch.IsValid accept_ack_kind sb
      → (let (rec, st', es) = acc_apply_accept d ar old st in
          let (sb', fs) = add_accept_ack sb rec in
          Answered accept_ack_kind (λ r. r) sb (sb', es ++ fs))
  unfolding acc_apply_accept
  acc_apply_accept-Answered ar old st sb sm v = elim (Bool-cases (refuses_accept ar old)) [
    | inl e ↦ rw e (Answered-nil accept_ack_kind (λ r. r) sb v)
    | inr e ↦ rw e (Answered-one accept_ack_kind (λ r. r) sb (accept_record ar) v sm)
  ]

  prepare_loop-Answered :
      (prs : List PrepareReq) (st : Acceptor d) (sb : SendBuf PrepareAck)
      → Inv d st
      → Batch.IsValid prepare_ack_kind sb
      → (let (st', sb', es) = prepare_loop d prs (st, sb) in
          Answered prepare_ack_kind ack_of_record sb (sb', es))
  unfolding prepare_loop prepare_step
  prepare_loop-Answered [] st sb v w = Answered-nil prepare_ack_kind ack_of_record sb w
  prepare_loop-Answered (pr ∷ prs) st sb v w =
      let sm = (prepare_record_lem d pr st _ v refl).1 in
      let one = acc_apply_prepare-Answered pr _ st sb sm w in
      Answered-trans prepare_ack_kind one
        (prepare_loop-Answered prs _ _ (prepare_step-Inv d pr st sb v) one.added.valid)

  accept_loop-Answered :
      (ars : List AcceptReq) (st : Acceptor d) (sb : SendBuf AcceptAck)
      → All (λ ar. IsSmall (accept_record ar)) ars
      → Batch.IsValid accept_ack_kind sb
      → (let (st', sb', es) = accept_loop d ars (st, sb) in
          Answered accept_ack_kind (λ r. r) sb (sb', es))
  unfolding accept_loop accept_step
  accept_loop-Answered [] st sb sm w = Answered-nil accept_ack_kind (λ r. r) sb w
  accept_loop-Answered (ar ∷ ars) st sb sm w =
      let one = acc_apply_accept-Answered ar _ st sb sm.0 w in
      Answered-trans accept_ack_kind one (accept_loop-Answered ars _ _ sm.1 one.added.valid)

  -- A batch of prepare requests, at an acceptor whose records fit into a packet, is answered with
  -- exactly the records that it makes the acceptor write, in order: none is written outside a
  -- transaction, no packet is sent inside one, and each packet fits.
  pub handle_prepare_req_batch-Durable :
      (prs : List PrepareReq) (st : Acceptor d)
      → Inv d st
      → Durable prepare_ack_kind ack_of_record (handle_prepare_req_batch d prs st).1
  unfolding handle_prepare_req_batch
  handle_prepare_req_batch-Durable prs st v =
      Answered-Durable prepare_ack_kind ack_of_record st.this_acceptor_id _
        (prepare_loop-Answered prs st _ v (clear-IsValid prepare_ack_kind _))

  -- A batch of accept requests that fit into a packet as acknowledgements is answered with exactly
  -- the records that it makes the acceptor write, in order: none is written outside a transaction,
  -- no packet is sent inside one, and each packet fits.
  pub handle_accept_req_batch-Durable :
      (ars : List AcceptReq) (st : Acceptor d)
      → All (λ ar. IsSmall (accept_record ar)) ars
      → Durable accept_ack_kind (λ r. r) (handle_accept_req_batch d ars st).1
  unfolding handle_accept_req_batch
  handle_accept_req_batch-Durable ars st sm =
      Answered-Durable accept_ack_kind (λ r. r) st.this_acceptor_id _
        (accept_loop-Answered ars st _ sm (clear-IsValid accept_ack_kind _))
