-- ===== src/Proposer/Completes.antt =====
-- paxos2/lib/proposer.c: after which promises an instance has completed phase 1.
use fds.Prelude.{
  ℕ, ◌+◌, ◌<◌, ◌≤◌, ◌≡◌, refl, sym, ap, ◌∙◌, subst, List, [], ◌∷◌, true, false, inl, inr, ltb, ◌==◌,
  if◌then◌else◌, Bool-cases, update_same, ltb→lt, not_lt→ltb, arith, All,
}
use fds.Messages.{PrepareAck}
use fds.Config.{quorum}
use fds.Instance.{InstInfo, p1_pending, p1_ready, pro_save_prepare_ack}
use fds.Instance.Promises.{save_all-counts, save-kept}
use fds.Leader.State.{Proposer, pro_instance, pro_index, add32, sub32}
use fds.Proposer.{handle_prepare_ack, is_awaited}
use fds.Proposer.Majority.{counts_first}

-- Promises in the order of their arrival, each with the acceptor that sent it.
abbrev pub handle_all : List (ℕ × PrepareAck) → Proposer → Proposer
handle_all [] st = st
handle_all ((acceptor_id, pa) ∷ pas) st = handle_all pas (handle_prepare_ack pa acceptor_id st).1

-- How many of them have the ballot.
abbrev pub of_ballot : ℕ → List (ℕ × PrepareAck) → ℕ
of_ballot b [] = 0
of_ballot b ((acceptor_id, pa) ∷ pas) =
    let n = of_ballot b pas in if pa.ballot == b then n + 1 else n

-- An instance that waits for promises of ballot `b` and has counted `c`, with the two counters.
pub record IsCounting (iid b c pending ready : ℕ) (st : Proposer) : Type 0 where
  pub waits : (pro_instance st iid).status ≡ p1_pending
  pub ballot : (pro_instance st iid).my_ballot ≡ b
  pub no_marks : (pro_instance st iid).promises_bitvector ≡ 0
  pub count : (pro_instance st iid).promises_count ≡ c
  pub pending_same : st.pending_count ≡ pending
  pub ready_same : st.ready_count ≡ ready

-- An instance that has completed phase 1, with a quorum and no more, since the two counters were these.
pub record IsComplete (iid b pending ready : ℕ) (st : Proposer) : Type 0 where
  pub completed : (pro_instance st iid).status ≡ p1_ready
  pub ballot : (pro_instance st iid).my_ballot ≡ b
  pub count : (pro_instance st iid).promises_count ≡ quorum
  pub pending_less : st.pending_count ≡ sub32 pending 1
  pub ready_more : st.ready_count ≡ add32 ready 1

ignored :
    (pa : PrepareAck) (a : ℕ) (st : Proposer)
    → is_awaited (pro_instance st pa.iid) pa ≡ false
    → handle_prepare_ack pa a st ≡ (false, st)
unfolding handle_prepare_ack
ignored pa a st e = rw e refl

-- A promise that is counted.
module _ (pa : PrepareAck) (a b c pending ready : ℕ) (st : Proposer)
    (h : IsCounting pa.iid b c pending ready st) (same : (pa.ballot == b) ≡ true) where
  ii' : InstInfo
  ii' = pro_save_prepare_ack (pro_instance st pa.iid) pa a

  awaited : is_awaited (pro_instance st pa.iid) pa ≡ true
  awaited = rw (h.waits, h.ballot, same) refl

  saved : (ii'.promises_bitvector ≡ 0) × (ii'.promises_count ≡ c + 1)
  unfolding ii'
  saved =
      let one = save_all-counts (pro_instance st pa.iid) ((a, pa) ∷ []) h.no_marks in
      (one.0, omega (arith, one.1, h.count))

  one_more :
      c + 1 < quorum → IsCounting pa.iid b (c + 1) pending ready (handle_prepare_ack pa a st).1
  unfolding ii'
  one_more lt =
      let kept = save-kept (pro_instance st pa.iid) pa a in
      let here = update_same st.proposer_state (pro_index pa.iid) ii' in
      rw (counts_first pa a st awaited (omega (arith, saved.1, lt))) record {
        waits = ap (λ (x : InstInfo). x.status) here ∙ kept.0 ∙ h.waits;
        ballot = ap (λ (x : InstInfo). x.my_ballot) here ∙ kept.1 ∙ h.ballot;
        no_marks = ap (λ (x : InstInfo). x.promises_bitvector) here ∙ saved.0;
        count = ap (λ (x : InstInfo). x.promises_count) here ∙ saved.1;
        pending_same = h.pending_same;
        ready_same = h.ready_same;
      }

  last_one : c + 1 ≡ quorum → IsComplete pa.iid b pending ready (handle_prepare_ack pa a st).1
  unfolding ii' handle_prepare_ack
  last_one e =
      let kept = save-kept (pro_instance st pa.iid) pa a in
      let here =
        update_same st.proposer_state (pro_index pa.iid) (record ii' { status = p1_ready }) in
      let enough : ltb ii'.promises_count quorum ≡ false =
        not_lt→ltb _ _ (omega (arith, saved.1, e)) in
      rw (awaited, enough)
        record {
          completed = ap (λ (x : InstInfo). x.status) here;
          ballot = ap (λ (x : InstInfo). x.my_ballot) here ∙ kept.1 ∙ h.ballot;
          count = ap (λ (x : InstInfo). x.promises_count) here ∙ saved.1 ∙ e;
          pending_less = ap (λ n. sub32 n 1) h.pending_same;
          ready_more = ap (λ n. add32 n 1) h.ready_same;
        }

-- Once phase 1 is complete, more promises change nothing.
complete-kept :
    (iid : ℕ) (pas : List (ℕ × PrepareAck)) (st : Proposer)
    → All (λ (p : ℕ × PrepareAck). iid ≡ p.1.iid) pas
    → (pro_instance st iid).status ≡ p1_ready
    → handle_all pas st ≡ st
complete-kept iid [] st all r = refl
complete-kept iid ((a, pa) ∷ pas) st (e, all) r =
    let r' = subst (λ i. (pro_instance st i).status ≡ p1_ready) e r in
    let dropped = ignored pa a st (rw r' refl) in rw (dropped, complete-kept iid pas st all r) refl

-- An instance that waits for promises and has counted fewer than a quorum, none of them marked,
-- handles any promises for it, of any acceptors. While the ones of its ballot together with those
-- counted before are fewer than a quorum it still waits, with their number counted and both counters as before;
-- from a quorum on it is ready, with exactly a quorum counted, and was moved once from the
-- pending to the ready ones.
pub handle_all-quorum :
    (iid b c pending ready : ℕ) (pas : List (ℕ × PrepareAck)) (st : Proposer)
    → All (λ (p : ℕ × PrepareAck). iid ≡ p.1.iid) pas
    → c < quorum
    → IsCounting iid b c pending ready st
    → (c + of_ballot b pas < quorum
        → IsCounting iid b (c + of_ballot b pas) pending ready (handle_all pas st))
      × (quorum ≤ c + of_ballot b pas → IsComplete iid b pending ready (handle_all pas st))
handle_all-quorum iid b c pending ready [] st all lt h =
    let e : c + 0 ≡ c = omega arith in (λ _. rw e h, λ q. absurd (omega (arith, lt, q)))
handle_all-quorum iid b c pending ready ((a, pa) ∷ pas) st (e, all) lt h =
    let h' = subst (λ i. IsCounting i b c pending ready st) e h in
    elim (Bool-cases (pa.ballot == b)) [
      | inr other ↦
          let dropped = ignored pa a st (rw (h'.waits, h'.ballot, other) refl) in
          rw (dropped, other) (handle_all-quorum iid b c pending ready pas st all lt h)
      | inl same ↦
          let m = of_ballot b pas in
          let sum : c + (m + 1) ≡ c + 1 + m = omega arith in
          rw (same, sum)
            (elim (Bool-cases (ltb (c + 1) quorum)) [
              | inl few ↦
                  handle_all-quorum iid b (c + 1) pending ready pas (handle_prepare_ack pa a st).1
                    all (ltb→lt _ _ few)
                    (subst
                      (λ i. IsCounting i b (c + 1) pending ready (handle_prepare_ack pa a st).1)
                      (sym e) (one_more pa a b c pending ready st h' same (ltb→lt _ _ few)))
              | inr enough ↦
                  let done =
                    subst (λ i. IsComplete i b pending ready (handle_prepare_ack pa a st).1) (sym e)
                      (last_one pa a b c pending ready st h' same (ground arith)) in
                  (
                    λ l. absurd (ground arith),
                    λ _.
                        rw (complete-kept iid pas (handle_prepare_ack pa a st).1 all done.completed)
                          done,
                  )
            ])
    ]
