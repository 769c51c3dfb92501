-- ===== src/Acceptor/Ballots.antt =====
-- How the ballots of an acceptor's records move: up by prepare requests, and only down by accept
-- requests, since `acc_apply_accept` drops a request whose ballot is above the record's.
use fds.Prelude.{
  ℕ, ◌≤◌, ◌<◌, ◌≡◌, refl, subst, ◌⊎◌, inl, inr, List, [], ◌∷◌, true, false, ◌==◌, Bool-cases,
  Option, none, some, arith, All,
}
use fds.Messages.{
  PrepareReq, PrepareAck, AcceptReq, AcceptAck, Event, accept_acks, stored, sent, tx_begin, tx_end,
}
use fds.SendBuf.{SendBuf, sendbuf_clear, sendbuf_flush, accept_ack_kind}
use fds.SendBuf.Batch.{sendbuf_add_ack-clear}
use fds.Storage.{Db, stablestorage_get_record, get_record-put, accept_record, prepare_record}
use fds.Acceptor.{
  Acceptor, acc_apply_accept, acc_apply_prepare, refuses_accept, refuses_prepare, prepare_step,
  prepare_loop, accept_step, accept_loop, handle_prepare_req_batch, handle_accept_req_batch,
}
use fds.Acceptor.Inv.{IsSmall}

-- What a prepare request may do to a record: raise its ballot.
pub record Raised (r r' : AcceptAck) : Type 0 where
  pub ballot_up : r.ballot ≤ r'.ballot
  pub same_value : r'.value ≡ r.value
  pub same_value_ballot : r'.value_ballot ≡ r.value_ballot
  pub same_final : r'.is_final ≡ r.is_final

-- What an accept request may do to a record's ballot.
abbrev pub Lowered : AcceptAck → AcceptAck → Type 0
Lowered r r' = r'.ballot ≤ r.ballot

module _ (d : Db) where
  -- Each record of a store still stands in another, changed as `R` says.
  abbrev pub Related : (AcceptAck → AcceptAck → Type 0) → d.Store → d.Store → Type 0
  Related R s s' =
      (i : ℕ) (r : AcceptAck)
      → stablestorage_get_record d i s ≡ some r
      → (r' : AcceptAck) × (stablestorage_get_record d i s' ≡ some r') × R r r'

  -- After the request its instance has a record, with at least its ballot unless it is final.
  abbrev pub Promised : d.Store → PrepareReq → Type 0
  Promised s pr =
      (r : AcceptAck) × (stablestorage_get_record d pr.iid s ≡ some r)
      × ((pr.ballot ≤ r.ballot) ⊎ (r.is_final ≡ true))

  -- A write that changes the record of its instance, if there is one, as `R` says.
  put-Related :
      (R : AcceptAck → AcceptAck → Type 0) (i : ℕ) (rec : AcceptAck) (s : d.Store)
      → ((r : AcceptAck) → R r r)
      → ((r : AcceptAck) → stablestorage_get_record d i s ≡ some r → R r rec)
      → Related R s (d.put i rec s)
  put-Related R i rec s same changed j r e = elim (Bool-cases (i == j)) [
    | inl t ↦ (
      rec,
      rw (get_record-put d i j rec s, t),
      changed r (subst (λ k. stablestorage_get_record d k s ≡ some r) (ground arith) e),
    )
    | inr t ↦ (r, rw (get_record-put d i j rec s, t) e, same r)
  ]

  acc_apply_prepare-Related :
      (pr : PrepareReq) (old : Option AcceptAck) (st : Acceptor d)
      → stablestorage_get_record d pr.iid st.store ≡ old
      → Related Raised st.store (acc_apply_prepare d pr old st).1.store
  unfolding acc_apply_prepare
  acc_apply_prepare-Related pr none st e =
      put-Related Raised pr.iid (prepare_record pr none) st.store (λ r. ground arith)
        (λ r f. ground (arith, e, f))
  acc_apply_prepare-Related pr (some old) st e = elim (Bool-cases (refuses_prepare pr (some old))) [
    | inl t ↦ rw t (λ i r f. (r, f, ground arith))
    | inr t ↦ rw t (
        put-Related Raised pr.iid (prepare_record pr (some old)) st.store (λ r. ground arith)
          (λ r f. ground arith))
  ]

  acc_apply_prepare-Promised :
      (pr : PrepareReq) (old : Option AcceptAck) (st : Acceptor d)
      → stablestorage_get_record d pr.iid st.store ≡ old
      → Promised (acc_apply_prepare d pr old st).1.store pr
  unfolding acc_apply_prepare
  acc_apply_prepare-Promised pr none st e = (
    prepare_record pr none,
    ground (arith, get_record-put d pr.iid pr.iid (prepare_record pr none) st.store),
    inl (omega arith),
  )
  acc_apply_prepare-Promised pr (some old) st e =
      elim (Bool-cases (refuses_prepare pr (some old))) [
        | inl t ↦ rw t (old, e, ground arith)
        | inr t ↦ rw t (
          prepare_record pr (some old),
          ground (arith, get_record-put d pr.iid pr.iid (prepare_record pr (some old)) st.store),
          inl (omega arith),
        )
      ]

  Raised-trans : {a b c : AcceptAck} → Raised a b → Raised b c → Raised a c
  Raised-trans p q = ground arith

  Promised-Related :
      (pr : PrepareReq) (s s' : d.Store) → Related Raised s s' → Promised s pr → Promised s' pr
  Promised-Related pr s s' k (r, e, p) = let (r', e', up) = k pr.iid r e in (r', e', ground arith)

  prepare_loop-Related :
      (prs : List PrepareReq) (st : Acceptor d) (sb : SendBuf PrepareAck)
      → Related Raised st.store (prepare_loop d prs (st, sb)).0.store
  unfolding prepare_loop prepare_step
  prepare_loop-Related [] st sb i r e = (r, e, ground arith)
  prepare_loop-Related (pr ∷ prs) st sb i r e =
      let (r', e', up) = acc_apply_prepare-Related pr _ st refl i r e in
      let (r'', e'', up') = prepare_loop-Related prs _ _ i r' e' in (r'', e'', Raised-trans up up')

  prepare_loop-Promised :
      (prs : List PrepareReq) (st : Acceptor d) (sb : SendBuf PrepareAck)
      → All (Promised (prepare_loop d prs (st, sb)).0.store) prs
  unfolding prepare_loop prepare_step
  prepare_loop-Promised [] st sb = tt
  prepare_loop-Promised (pr ∷ prs) st sb = (
    Promised-Related pr _ _ (prepare_loop-Related prs _ _)
        (acc_apply_prepare-Promised pr _ st refl),
    prepare_loop-Promised prs _ _,
  )

  -- A batch of prepare requests only raises ballots: each record keeps its value, the ballot of
  -- that and its final mark. Afterwards there is a record for the instance of each request, whose
  -- ballot is the request's at least, unless the record is final.
  pub handle_prepare_req_batch-Promised :
      (prs : List PrepareReq) (st : Acceptor d)
      → (let st' = (handle_prepare_req_batch d prs st).0 in
          Related Raised st.store st'.store × All (Promised st'.store) prs)
  unfolding handle_prepare_req_batch
  handle_prepare_req_batch-Promised prs st =
      (prepare_loop-Related prs st _, prepare_loop-Promised prs st _)

  acc_apply_accept-Related :
      (ar : AcceptReq) (old : Option AcceptAck) (st : Acceptor d)
      → stablestorage_get_record d ar.iid st.store ≡ old
      → Related Lowered st.store (acc_apply_accept d ar old st).1.store
  unfolding acc_apply_accept
  acc_apply_accept-Related ar none st e =
      put-Related Lowered ar.iid (accept_record ar) st.store (λ r. omega arith)
        (λ r f. ground (arith, e, f))
  acc_apply_accept-Related ar (some old) st e = elim (Bool-cases (refuses_accept ar (some old))) [
    | inl t ↦ rw t (λ i r f. (r, f, omega arith))
    | inr t ↦ rw t (
        put-Related Lowered ar.iid (accept_record ar) st.store (λ r. omega arith)
          (λ r f. ground arith))
  ]

  accept_loop-Related :
      (ars : List AcceptReq) (st : Acceptor d) (sb : SendBuf AcceptAck)
      → Related Lowered st.store (accept_loop d ars (st, sb)).0.store
  unfolding accept_loop accept_step
  accept_loop-Related [] st sb i r e = (r, e, omega arith)
  accept_loop-Related (ar ∷ ars) st sb i r e =
      let (r', e', down) = acc_apply_accept-Related ar _ st refl i r e in
      let (r'', e'', down') = accept_loop-Related ars _ _ i r' e' in (r'', e'', omega arith)

  -- No batch of accept requests raises the ballot of a stored record.
  pub handle_accept_req_batch-Lowered :
      (ars : List AcceptReq) (st : Acceptor d)
      → Related Lowered st.store (handle_accept_req_batch d ars st).0.store
  unfolding handle_accept_req_batch
  handle_accept_req_batch-Lowered ars st = accept_loop-Related ars st _

  -- The events of an accept request that is stored and acknowledged.
  abbrev pub accepted : ℕ → AcceptReq → List Event
  accepted id ar =
      tx_begin
      ∷ stored (accept_record ar)
      ∷ tx_end
      ∷ sent (accept_acks id (accept_record ar ∷ []))
      ∷ []

  accept_one_refused :
      (ar : AcceptReq) (r : AcceptAck) (st : Acceptor d)
      → stablestorage_get_record d ar.iid st.store ≡ some r
      → r.ballot < ar.ballot
      → handle_accept_req_batch d (ar ∷ []) st ≡ (st, tx_begin ∷ tx_end ∷ [])
  unfolding handle_accept_req_batch accept_loop accept_step sendbuf_flush sendbuf_clear
      acc_apply_accept
  accept_one_refused ar r st e h =
      rw (e, acc_apply_accept)
        (let t : refuses_accept ar (some r) ≡ true = ground arith in rw t refl)

  accept_one_stored :
      (ar : AcceptReq) (r : AcceptAck) (st : Acceptor d)
      → IsSmall (accept_record ar)
      → stablestorage_get_record d ar.iid st.store ≡ some r
      → ar.ballot ≤ r.ballot
      → (let (st', es) = handle_accept_req_batch d (ar ∷ []) st in
          (st'.store ≡ d.put ar.iid (accept_record ar) st.store)
          × (es ≡ accepted st.this_acceptor_id ar))
  unfolding handle_accept_req_batch accept_loop accept_step acc_apply_accept
  accept_one_stored ar r st sm e h =
      let t : refuses_accept ar (some r) ≡ false = ground arith in
      let one = sendbuf_add_ack-clear accept_ack_kind st.this_acceptor_id (accept_record ar) sm in
      rw (e, acc_apply_accept, t) (refl, rw (one.0, one.1))

  -- One accept request for an instance with a record, that fits into a packet. With a ballot above
  -- the record's it changes nothing and is not answered. With the record's ballot, or one below
  -- what the acceptor has promised there, it replaces the record and is acknowledged.
  pub handle_accept_one :
      (ar : AcceptReq) (r : AcceptAck) (st : Acceptor d)
      → IsSmall (accept_record ar)
      → stablestorage_get_record d ar.iid st.store ≡ some r
      → (r.ballot < ar.ballot
          → handle_accept_req_batch d (ar ∷ []) st ≡ (st, tx_begin ∷ tx_end ∷ []))
        × (ar.ballot ≤ r.ballot
            → (let (st', es) = handle_accept_req_batch d (ar ∷ []) st in
                (stablestorage_get_record d ar.iid st'.store ≡ some (accept_record ar))
                × (es ≡ accepted st.this_acceptor_id ar)))
  handle_accept_one ar r st sm e = (
    accept_one_refused ar r st e,
    λ h.
        let (s, es) = accept_one_stored ar r st sm e h in
        (rw s (ground (arith, get_record-put d ar.iid ar.iid (accept_record ar) st.store)), es),
  )
