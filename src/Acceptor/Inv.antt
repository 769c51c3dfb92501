-- ===== src/Acceptor/Inv.antt =====
-- The acceptor's invariant: records stand under their own instance, fit into a packet, and the
-- highest accepted instance has one.
use fds.Prelude.{
  ℕ, ◌≡◌, refl, sym, ◌∙◌, subst, ◌≢◌, ◌⊎◌, inl, inr, List, [], ◌∷◌, Bool, true, false, ◌==◌,
  if◌then◌else◌, Bool-cases, Option, none, some, ltb, arith, All,
}
use fds.Messages.{
  PrepareReq, PrepareAck, AcceptReq, AcceptAck, Packet, prepare_reqs, accept_reqs, accept_acks,
  repeat_reqs, sent, tx_begin, tx_end,
}
use fds.SendBuf.{SendBuf}
use fds.SendBuf.{accept_ack_kind}
use fds.SendBuf.Batch.{Fits, sendbuf_add_ack-clear}
use fds.Storage.{Db, stablestorage_get_record, get_record-put, accept_record, prepare_record}
use fds.Acceptor.{
  Acceptor, acc_apply_accept, acc_apply_prepare, refuses_accept, refuses_prepare, prepare_step,
  prepare_loop, accept_step, accept_loop, acc_handle_newmsg, acc_periodic_repeater,
  acc_retransmit_latest_accept,
}

-- A record that fits into a packet of its own.
abbrev pub IsSmall : AcceptAck → Type 0
IsSmall = Fits accept_ack_kind

module _ (d : Db) where
  pub record Inv (st : Acceptor d) : Type 0 where
    pub keyed : (i : ℕ) (r : AcceptAck) → stablestorage_get_record d i st.store ≡ some r → r.iid ≡ i
    pub small : (i : ℕ) (r : AcceptAck) → stablestorage_get_record d i st.store ≡ some r → IsSmall r
    pub highest :
        st.highest_accepted_iid ≢ 0
        → (r : AcceptAck) × (stablestorage_get_record d st.highest_accepted_iid st.store ≡ some r)

  -- A record that is found after a `put` is the one put, or was there before.
  found-put :
      (i j : ℕ) (rec r : AcceptAck) (s : d.Store)
      → stablestorage_get_record d j (d.put i rec s) ≡ some r
      → ((i ≡ j) × (r ≡ rec)) ⊎ (stablestorage_get_record d j s ≡ some r)
  found-put i j rec r s e = ground (arith, get_record-put d i j rec s)

  put-found :
      (i j : ℕ) (rec : AcceptAck) (s : d.Store)
      → (i ≡ j) ⊎ ((r : AcceptAck) × (stablestorage_get_record d j s ≡ some r))
      → (r : AcceptAck) × (stablestorage_get_record d j (d.put i rec s) ≡ some r)
  put-found i j rec s (inl e) = (rec, ground (arith, get_record-put d i j rec s))
  put-found i j rec s (inr (r, e)) =
      (if i == j then rec else r, ground (arith, get_record-put d i j rec s))

  -- A write of a small record under its own instance, with the highest instance kept or moved there.
  put-Inv :
      (st : Acceptor d) (rec : AcceptAck) (h : ℕ)
      → Inv st
      → IsSmall rec
      → (h ≡ rec.iid) ⊎ (h ≡ st.highest_accepted_iid)
      → Inv (record st { store = d.put rec.iid rec st.store; highest_accepted_iid = h })
  put-Inv st rec h v sm eh = record {
    keyed = λ i r e. elim (found-put rec.iid i rec r st.store e) [
      | inl (p, q) ↦ ground arith
      | inr o ↦ v.keyed i r o
    ];
    small = λ i r e. elim (found-put rec.iid i rec r st.store e) [
      | inl (p, q) ↦ subst IsSmall (sym q) sm
      | inr o ↦ v.small i r o
    ];
    highest = λ ne.
        put-found rec.iid h rec st.store
          (elim eh [ inl p ↦ inl (sym p) | inr p ↦ inr (rw p (v.highest (λ z. ne (p ∙ z)))) ]);
  }

  acc_apply_accept-Inv :
      (ar : AcceptReq) (old : Option AcceptAck) (st : Acceptor d)
      → Inv st
      → IsSmall (accept_record ar)
      → Inv (acc_apply_accept d ar old st).1
  unfolding acc_apply_accept
  acc_apply_accept-Inv ar old st v sm = elim (Bool-cases (refuses_accept ar old)) [
    | inl e ↦ rw e v
    | inr e ↦
        rw e (
          put-Inv st (accept_record ar) _ v sm (highest_cases (ltb st.highest_accepted_iid ar.iid)))
  ]
    where
      highest_cases :
          (b : Bool)
          → ((if b then ar.iid else st.highest_accepted_iid) ≡ ar.iid)
            ⊎ ((if b then ar.iid else st.highest_accepted_iid) ≡ st.highest_accepted_iid)
      highest_cases true = inl refl
      highest_cases false = inr refl

  -- The record that a prepare request writes stands under its instance and is small.
  pub prepare_record_lem :
      (pr : PrepareReq) (st : Acceptor d) (old : Option AcceptAck)
      → Inv st
      → stablestorage_get_record d pr.iid st.store ≡ old
      → ((prepare_record pr old).iid ≡ pr.iid) × IsSmall (prepare_record pr old)
  prepare_record_lem pr st none v e = (refl, omega arith)
  prepare_record_lem pr st (some r) v e = (v.keyed pr.iid r e, v.small pr.iid r e)

  acc_apply_prepare-Inv :
      (pr : PrepareReq) (st : Acceptor d) (old : Option AcceptAck)
      → Inv st
      → stablestorage_get_record d pr.iid st.store ≡ old
      → Inv (acc_apply_prepare d pr old st).1
  unfolding acc_apply_prepare
  acc_apply_prepare-Inv pr st old v e = elim (Bool-cases (refuses_prepare pr old)) [
    | inl t ↦ rw t v
    | inr t ↦ rw t (
        let (keyed, sm) = prepare_record_lem pr st old v e in
        subst (λ i. Inv (record st { store = d.put i (prepare_record pr old) st.store })) keyed
          (put-Inv st (prepare_record pr old) st.highest_accepted_iid v sm (inr refl)))
  ]

  pub prepare_step-Inv :
      (pr : PrepareReq) (st : Acceptor d) (sb : SendBuf PrepareAck)
      → Inv st
      → Inv (prepare_step d pr (st, sb)).0
  unfolding prepare_step
  prepare_step-Inv pr st sb v = acc_apply_prepare-Inv pr st _ v refl

  pub accept_step-Inv :
      (ar : AcceptReq) (st : Acceptor d) (sb : SendBuf AcceptAck)
      → Inv st
      → IsSmall (accept_record ar)
      → Inv (accept_step d ar (st, sb)).0
  unfolding accept_step
  accept_step-Inv ar st sb v sm = acc_apply_accept-Inv ar _ st v sm

  prepare_loop-Inv :
      (prs : List PrepareReq) (st : Acceptor d) (sb : SendBuf PrepareAck)
      → Inv st
      → Inv (prepare_loop d prs (st, sb)).0
  unfolding prepare_loop
  prepare_loop-Inv [] st sb v = v
  prepare_loop-Inv (pr ∷ prs) st sb v = prepare_loop-Inv prs _ _ (prepare_step-Inv pr st sb v)

  accept_loop-Inv :
      (ars : List AcceptReq) (st : Acceptor d) (sb : SendBuf AcceptAck)
      → Inv st
      → All (λ ar. IsSmall (accept_record ar)) ars
      → Inv (accept_loop d ars (st, sb)).0
  unfolding accept_loop
  accept_loop-Inv [] st sb v sm = v
  accept_loop-Inv (ar ∷ ars) st sb v sm =
      accept_loop-Inv ars _ _ (accept_step-Inv ar st sb v sm.0) sm.1

  -- The accept requests of a message fit into a packet when they come back as acknowledgements.
  abbrev pub IsSmallMsg : Option Packet → Type 0
  IsSmallMsg (some (accept_reqs sender ars)) = All (λ ar. IsSmall (accept_record ar)) ars
  IsSmallMsg _ = Unit {0}

  -- Every message, valid or not, keeps the acceptor's invariant: a record stands under its own
  -- instance id, fits into one packet, and there is one for `highest_accepted_iid`. The accept
  -- requests of the message must fit into one packet as acknowledgements.
  pub acc_handle_newmsg-Inv :
      (m : Option Packet) (st : Acceptor d)
      → Inv st
      → IsSmallMsg m
      → Inv (acc_handle_newmsg d m st).0
  unfolding acc_handle_newmsg
  acc_handle_newmsg-Inv none st v sm = v
  acc_handle_newmsg-Inv (some (prepare_reqs s prs)) st v sm = prepare_loop-Inv prs st _ v
  acc_handle_newmsg-Inv (some (accept_reqs s ars)) st v sm = accept_loop-Inv ars st _ v sm
  acc_handle_newmsg-Inv (some (repeat_reqs iids)) st v sm = v
  acc_handle_newmsg-Inv (some _) st v sm = v

  retransmit-found :
      (st : Acceptor d) (r : AcceptAck)
      → IsSmall r
      → stablestorage_get_record d st.highest_accepted_iid st.store ≡ some r
      → acc_retransmit_latest_accept d st
        ≡ some (tx_begin ∷ tx_end ∷ sent (accept_acks st.this_acceptor_id (r ∷ [])) ∷ [])
  unfolding acc_retransmit_latest_accept
  retransmit-found st r sm e =
      let one = sendbuf_add_ack-clear accept_ack_kind st.this_acceptor_id r sm in
      rw (e, acc_retransmit_latest_accept, one.0, one.1)

  -- The periodic repetition never reads through a NULL record: it sends nothing while no value was
  -- accepted, and after that the record of the highest accepted instance, outside a transaction.
  pub acc_periodic_repeater_total :
      (st : Acceptor d)
      → Inv st
      → ((st.highest_accepted_iid ≡ 0) × (acc_periodic_repeater d st ≡ some []))
        ⊎ ((r : AcceptAck) × (stablestorage_get_record d st.highest_accepted_iid st.store ≡ some r)
            × (acc_periodic_repeater d st
                ≡ some (tx_begin ∷ tx_end ∷ sent (accept_acks st.this_acceptor_id (r ∷ [])) ∷ [])))
  unfolding acc_periodic_repeater
  acc_periodic_repeater_total st v = elim (Bool-cases (ltb 0 st.highest_accepted_iid)) [
    | inr e ↦ inl (ground arith, rw e)
    | inl e ↦ inr (
        let (r, found) = v.highest (ground arith) in
        (r, found, rw e (retransmit-found st r (v.small _ r found) found)))
  ]
