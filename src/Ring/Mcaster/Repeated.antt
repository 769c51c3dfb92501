-- ===== src/Ring/Mcaster/Repeated.antt =====
-- ring_paxos/ring-paxos/acceptor_helpers_mcaster.c: messages that stop the multicaster.
use fds.Prelude.{
  and-left, ==_iff, update, ◌⊎◌, inl, inr, ℕ, ◌+◌, ◌%◌, ◌≤◌, ◌<◌, ◌≡◌, refl, sym, ap, ◌∙◌, subst,
  Bool, true, false, ◌&&◌, arith, ltb, ◌==◌, Option, List, ◌∷◌, Ensures, ensures_assert,
  ensures_bind, ensures_map, some, none, ◌>>=◌, ℕ_discrete, update_same, update_other, assert,
}
use fds.Ring.Ballot.{is_my_ballot}
use fds.Ring.Acceptor.State.{Phase1RangeMsg}
use fds.Ring.Mcaster.Storage.{
  p1_done, McasterConfig, McasterRecord, is_p1_pending, is_done, mir_at, mcaster_storage_get,
}
use fds.Ring.Mcaster.State.{Mcaster, mir_of, get_mir, plus32, minus32, for_range}
use fds.Ring.Mcaster.Slots.{opened, preexecuted, unused, waiting, passed, SlotOf, partner, apart}
use fds.Ring.Mcaster.Get.{get_same, get_newer, get_other, get_unfinished}
use fds.Ring.Mcaster.Handlers.{
  p1_done_step, mcaster_handle_phase1_range_msg, map_request_step, mcaster_handle_map_request,
  chosenval_request_step, mcaster_handle_chosenval_request,
}
use fds.Ring.Mcaster.Found.{for_range_inv, for_range_stops}
use fds.Ring.Mcaster.Inv.{IsConfig, Inv}

assert-none {ℓ} : {A : Type ℓ} (b : Bool) → (assert b >>= λ _. let o : Option A = none in o) ≡ none
assert-none true = refl
assert-none false = refl

-- The record of instance `k` has completed phase 1.
record Completed (n k : ℕ) (acc : Mcaster) : Type 0 where
  sized : acc.msm.array_size ≡ n
  number : (acc.msm.instances_array (k % n)).inst_number ≡ k
  status : (acc.msm.instances_array (k % n)).status ≡ p1_done

module _ (n k : ℕ) where
  -- Another instance of the range leaves it, or fails.
  p1_done_step-Completed :
      (i : ℕ) (acc : Mcaster)
      → 0 < k
      → k < i
      → Completed n k acc
      → Ensures (p1_done_step i acc) (Completed n k)
  unfolding p1_done_step
  p1_done_step-Completed i acc z h q = elim (ℕ_discrete (i % acc.msm.array_size) (k % n)) [
    | yes e ↦
        let there : mir_at acc.msm i ≡ acc.msm.instances_array (k % n) =
          ap acc.msm.instances_array e in
        rw
          (get_unfinished i acc.msm
            (subst (λ (m : McasterRecord). 0 < m.inst_number) (sym there) (omega (arith, q.number)))
            (subst (λ (m : McasterRecord). m.inst_number < i) (sym there) (omega (arith, q.number)))
            (ap (λ (m : McasterRecord). is_done m.status) there ∙ ap is_done q.status))
          tt
    | no ne ↦
        ensures_bind (Completed n k) (Completed n k) (get_mir i acc) _
          (ensures_bind (Completed n k) _ (mcaster_storage_get i acc.msm) _ (get_other i acc.msm)
            (λ msm' e. record {
              sized = e.0 ∙ q.sized;
              number = ap McasterRecord.inst_number (e.1 (k % n) ne) ∙ q.number;
              status = ap McasterRecord.status (e.1 (k % n) ne) ∙ q.status;
            }))
          λ b q'.
            let other =
              update_other b.msm.instances_array (i % b.msm.array_size) (k % n) _
                (λ e. ne (ap (λ (m : ℕ). i % m) (q.sized ∙ sym q'.sized) ∙ e)) in
            ensures_assert (Completed n k)
              (((mir_of b i).inst_number == i) && is_p1_pending (mir_of b i).status) _
              λ _. record {
                sized = q'.sized;
                number = ap McasterRecord.inst_number other ∙ q'.number;
                status = ap McasterRecord.status other ∙ q'.status;
              }
  ]

  -- Its own round completes it.
  p1_done_step-completes :
      (acc : Mcaster) → acc.msm.array_size ≡ n → Ensures (p1_done_step k acc) (Completed n k)
  unfolding p1_done_step
  p1_done_step-completes acc e =
      ensures_bind (Completed n k) (λ b. b.msm.array_size ≡ n) (get_mir k acc) _
        (ensures_bind (λ b. b.msm.array_size ≡ n) _ (mcaster_storage_get k acc.msm) _
          (get_other k acc.msm) (λ msm' q. q.0 ∙ e))
        λ b q.
          ensures_assert (Completed n k)
            (((mir_of b k).inst_number == k) && is_p1_pending (mir_of b k).status) _
            λ t.
              let mir = record (mir_of b k) { status = p1_done } in
              let arr = update b.msm.instances_array (k % b.msm.array_size) mir in
              let same = update_same b.msm.instances_array (k % b.msm.array_size) mir in
              let num = (==_iff (mir_of b k).inst_number k).0 (and-left _ _ t) in
              record {
                sized = q;
                number =
                    subst (λ (m : ℕ). (arr (k % m)).inst_number ≡ k) q
                      (ap McasterRecord.inst_number same ∙ num);
                status =
                    subst (λ (m : ℕ). (arr (k % m)).status ≡ p1_done) q
                      (ap McasterRecord.status same);
              }

-- What a loop over a range leaves.
range-Completed :
    (from to : ℕ) (acc : Mcaster)
    → 0 < from
    → from ≤ to
    → Ensures (for_range p1_done_step from to acc) (Completed acc.msm.array_size from)
range-Completed from to acc z h =
    ensures_map (Completed n from) (At (to + 1)) (for_range p1_done_step from to acc)
      (λ acc' q. not_first acc' q)
      (for_range_inv p1_done_step to At keep from acc (omega arith) (inl (refl, refl)))
  where
    n : ℕ
    n = acc.msm.array_size

    At : ℕ → Mcaster → Type 0
    At i acc' = ((i ≡ from) × (acc'.msm.array_size ≡ n)) ⊎ ((from < i) × Completed n from acc')

    not_first : (acc' : Mcaster) → At (to + 1) acc' → Completed n from acc'
    not_first acc' (inl p) = absurd (omega (arith, p.0))
    not_first acc' (inr p) = p.1

    keep :
        (i : ℕ) (acc' : Mcaster)
        → i ≤ to
        → At i acc'
        → Ensures (p1_done_step i acc') (λ acc2. At (i + 1) acc2)
    keep i acc' le (inl p) =
        subst (λ (j : ℕ). Ensures (p1_done_step j acc') (λ acc2. At (i + 1) acc2)) (sym p.0)
          (ensures_map (λ acc2. At (i + 1) acc2) (Completed n from) (p1_done_step from acc')
            (λ acc2 q. inr (omega (arith, p.0), q)) (p1_done_step-completes n from acc' p.1))
    keep i acc' le (inr p) =
        ensures_map (λ acc2. At (i + 1) acc2) (Completed n from) (p1_done_step i acc')
          (λ acc2 q. inr (omega (arith, p.0), q)) (p1_done_step-Completed n from i acc' z p.0 p.1)

-- A record that has completed phase 1 fails in the loop.
completed-stops :
    (k : ℕ) (acc : Mcaster)
    → 0 < k
    → (mir_of acc k).inst_number ≡ k
    → (mir_of acc k).status ≡ p1_done
    → p1_done_step k acc ≡ none
unfolding p1_done_step
completed-stops k acc z e s =
    let pending : is_p1_pending (mir_of acc k).status ≡ false = ap is_p1_pending s in
    let num : ((mir_of acc k).inst_number == k) ≡ true = ground arith in
    rw (get_same k acc.msm e (omega arith), num, pending) refl

ensures-eq {ℓ κ} :
    {A : Type ℓ} (P : A → Type κ) (m : Option A) (a : A) → Ensures m P → m ≡ some a → P a
ensures-eq P m a h e = subst (λ o. Ensures o P) e h

-- Let a message of phase 1 for a range come back with a quorum of promises and a ballot of the
-- multicaster, its range above the closed instances and not empty. If it is handled without a
-- failure, a second copy of it stops the multicaster.
pub phase1_range_repeated-stops :
    (cfg : McasterConfig) (msg : Phase1RangeMsg) (acc acc' : Mcaster)
    → is_my_ballot msg.ballot cfg.self_acceptor_id cfg.incarnation_number ≡ true
    → acc.highest_closed_iid < msg.from
    → msg.from ≤ msg.to
    → cfg.quorum_size ≤ msg.promises_count
    → mcaster_handle_phase1_range_msg cfg msg acc ≡ some acc'
    → mcaster_handle_phase1_range_msg cfg msg acc' ≡ none
unfolding mcaster_handle_phase1_range_msg
phase1_range_repeated-stops cfg msg acc acc' mine lt le q run =
    let count = plus32 (minus32 msg.to msg.from) 1 in
    let counted = λ (a : Mcaster). record a {
      p1_ready_count = plus32 (minus32 a.p1_ready_count count) count;
    } in
    let few : ltb msg.promises_count cfg.quorum_size ≡ false = ground arith in
    let above : ltb acc.highest_closed_iid msg.from ≡ true = ground arith in
    let z : 0 < msg.from = omega arith in
    let done =
      ensures-eq (Completed acc.msm.array_size msg.from)
        (for_range p1_done_step msg.from msg.to (counted acc)) acc'
        (range-Completed msg.from msg.to (counted acc) z le) (rw (mine, above, few) at run) in
    let stops = for_range_stops p1_done_step msg.from msg.to (counted acc') le (
      completed-stops msg.from (counted acc') z
        (subst (λ (m : ℕ). (acc'.msm.instances_array (msg.from % m)).inst_number ≡ msg.from)
          (sym done.sized) done.number)
        (subst (λ (m : ℕ). (acc'.msm.instances_array (msg.from % m)).status ≡ p1_done)
          (sym done.sized) done.status)) in
    rw (mine, few, stops) (assert-none (ltb acc'.highest_closed_iid msg.from))

module _ (cfg : McasterConfig) (acc : Mcaster) (w : IsConfig cfg) (v : Inv cfg acc) where
  -- The slot of a closed instance that is given to a later one.
  reused :
      (i : ℕ)
      → i ≤ acc.highest_closed_iid
      → i + acc.msm.array_size ≤ acc.p1_highest_open
      → i < (mir_of acc i).inst_number
  reused i h h' = by_slot
    where
      n : ℕ
      n = acc.msm.array_size

      hn : 0 < acc.msm.array_size
      hn = omega (arith, v.bounded.sized, w.positive)

      newer :
          (u : ℕ)
          → i + acc.msm.array_size ≤ u
          → SlotOf acc.msm.array_size acc.highest_open_iid acc.p1_highest_open u (mir_of acc i)
          → i < (mir_of acc i).inst_number
      newer u l (opened _ e _) = omega (arith, hn)
      newer u l (preexecuted _ _ e _ _) = omega (arith, hn)
      newer u l (waiting _ e _ _) = omega (arith, hn)
      newer u l (unused a e b _) = absurd (omega (arith, hn))
      newer u l (passed a b e _) = omega (arith, hn)

      by_slot : i < (mir_of acc i).inst_number
      by_slot =
          let (u, a, b, e) = partner acc.msm.array_size acc.highest_closed_iid i hn h in
          newer u (apart acc.msm.array_size u i hn e (omega (arith, h))) (
            subst
              (λ (j : ℕ).
                SlotOf acc.msm.array_size acc.highest_open_iid acc.p1_highest_open u
                  (acc.msm.instances_array j))
              e (v.slots u a b))

  -- Let the invariant hold. A learner's request for the mapping or the final value of an instance
  -- that is closed, and whose slot is given to an instance opened since, stops the multicaster.
  pub old_request-stops :
      (i : ℕ) (is : List ℕ)
      → i ≤ acc.highest_closed_iid
      → i + acc.msm.array_size ≤ acc.p1_highest_open
      → (mcaster_handle_map_request cfg (i ∷ is) acc ≡ none)
        × (mcaster_handle_chosenval_request (i ∷ is) acc ≡ none)
  unfolding mcaster_handle_map_request mcaster_handle_chosenval_request map_request_step
      chosenval_request_step
  old_request-stops i is h h' =
      (rw (get_newer i acc.msm (reused i h h')) refl, rw (get_newer i acc.msm (reused i h h')) refl)
