-- ===== src/Leader/Phase1/Opened.antt =====
-- paxos2/lib/proposer_leader.c, `leader_open_instances_p1`: the instances that it opens.
use fds.Prelude.{
  ◌/◌, ℕ, zero, suc, ◌+◌, ◌-◌, ◌≤◌, ◌<◌, ◌≡◌, ◌≢◌, refl, sym, ap, ◌∙◌, List, [], ◌++◌, some, true,
  false, leb, ltb, ◌^◌, update_same, update_other, arith, ℕ_discrete,
}
use fds.Messages.{PrepareReq, Event}
use fds.Config.{proposer_array_size, proposer_preexec_win_size, u32_mod}
use fds.SendBuf.{SendBuf, sendbuf_clear, sendbuf_flush, prepare_req_kind}
use fds.Instance.{InstInfo, Timeval, empty, p1_pending, first_ballot}
use fds.Leader.State.{Proposer, pro_index, pro_instance, add32}
use fds.Leader.Phase1.{Sending, send_prepare, open_step, open_loop, leader_open_instances_p1}

-- The record of an instance whose phase 1 has begun.
pub record IsOpened (st : Proposer) (iid : ℕ) : Type 0 where
  pub its_iid : (pro_instance st iid).iid ≡ iid
  pub in_phase1 : (pro_instance st iid).status ≡ p1_pending
  pub its_ballot : (pro_instance st iid).my_ballot ≡ first_ballot st.this_proposer_id

-- `n` instances from `i` on are unused.
abbrev pub Unused : ℕ → ℕ → Proposer → Type 0
Unused n i st = (k : ℕ) → k < n → (pro_instance st (i + k)).status ≡ empty

-- What the loop leaves.
record Opens (n i : ℕ) (st st' : Proposer) : Type 0 where
  same_id : st'.this_proposer_id ≡ st.this_proposer_id
  same_pending : st'.pending_count ≡ st.pending_count
  same_ready : st'.ready_count ≡ st.ready_count
  same_highest : st'.highest_open ≡ st.highest_open
  opened : (k : ℕ) → k < n → IsOpened st' (i + k)
  others :
      (j : ℕ)
      → ((k : ℕ) → k < n → pro_index (i + k) ≢ j)
      → st'.proposer_state j ≡ st.proposer_state j

module _ (gettimeofday : ℕ → Timeval) where
  open_step-Opens :
      (i : ℕ) (st : Proposer) (sb : SendBuf PrepareReq)
      → (pro_instance st i).status ≡ empty
      → (r : Sending) × (open_step gettimeofday i st sb ≡ some r) × Opens 1 i st r.0
  unfolding open_step send_prepare
  open_step-Opens i st sb e =
      let here = update_same st.proposer_state (pro_index i) _ in
      let ii = record (pro_instance st i) {
        iid = i;
        status = p1_pending;
        my_ballot = first_ballot st.this_proposer_id;
      } in
      (
        send_prepare gettimeofday i ii st sb,
        rw e,
        record {
          same_id = refl;
          same_pending = refl;
          same_ready = refl;
          same_highest = refl;
          opened = λ k lt.
              let z : i + k ≡ i = omega arith in
              rw z (record {
                its_iid = ap (λ (ii : InstInfo). ii.iid) here;
                in_phase1 = ap (λ (ii : InstInfo). ii.status) here;
                its_ballot = ap (λ (ii : InstInfo). ii.my_ballot) here;
              });
          others = λ j ne.
              let z : i + 0 ≡ i = omega arith in
              let ne' = rw z at (ne 0 (omega arith)) in
              update_other st.proposer_state (pro_index i) j _ ne';
        },
      )

  slots_apart : (a k : ℕ) → suc k < proposer_array_size → pro_index (a + 1 + k) ≢ pro_index a
  slots_apart a k lt = omega arith

  Opens-trans :
      (n i : ℕ) (st st' st'' : Proposer)
      → suc n < proposer_array_size
      → Opens 1 i st st'
      → Opens n (i + 1) st' st''
      → Opens (suc n) i st st''
  Opens-trans n i st st' st'' le p q =
      let z : i + 0 ≡ i = omega arith in
      let kept = q.others (pro_index i) (λ k lt. slots_apart i k (omega arith)) in
      record {
        same_id = q.same_id ∙ p.same_id;
        same_pending = q.same_pending ∙ p.same_pending;
        same_ready = q.same_ready ∙ p.same_ready;
        same_highest = q.same_highest ∙ p.same_highest;
        opened = λ k lt. elim (ℕ_discrete k 0) [
          | yes e ↦
              rw (e, z)
                (let first = rw z at (p.opened 0 (omega arith)) in
                  record {
                    its_iid = ap (λ (x : InstInfo). x.iid) kept ∙ first.its_iid;
                    in_phase1 = ap (λ (x : InstInfo). x.status) kept ∙ first.in_phase1;
                    its_ballot =
                        ap (λ (x : InstInfo). x.my_ballot) kept
                        ∙ first.its_ballot
                        ∙ ap first_ballot (sym q.same_id);
                  })
          | no ne ↦
              let y : (i + 1) + (k - 1) ≡ i + k = omega arith in
              rw y at (q.opened (k - 1) (omega arith))
        ];
        others = λ j ne.
            q.others j (λ k lt.
              let y : i + suc k ≡ (i + 1) + k = omega arith in rw y at (ne (suc k) (omega arith)))
            ∙ p.others j (λ k lt. ne k (omega arith));
      }

  Unused-later :
      (n i : ℕ) (st st' : Proposer)
      → suc n < proposer_array_size
      → Opens 1 i st st'
      → Unused (suc n) i st
      → Unused n (i + 1) st'
  Unused-later n i st st' le p unused k lt =
      let z : i + 0 ≡ i = omega arith in
      let y : i + suc k ≡ (i + 1) + k = omega arith in
      let same = p.others (pro_index ((i + 1) + k)) (λ m mlt.
        let x : i + m ≡ i = omega arith in rw x (λ e. slots_apart i k (omega arith) (sym e))) in
      ap (λ (ii : InstInfo). ii.status) same ∙ rw y at (unused (suc k) (omega arith))

  open_loop-Opens :
      (n i : ℕ) (st : Proposer) (sb : SendBuf PrepareReq)
      → n < proposer_array_size
      → i + n < u32_mod
      → Unused n i st
      → (r : Sending) × (open_loop gettimeofday n i st sb ≡ some r) × Opens n i st r.0
  unfolding open_loop
  open_loop-Opens zero i st sb le room unused = (
    (st, sb, []),
    refl,
    record {
      same_id = refl;
      same_pending = refl;
      same_ready = refl;
      same_highest = refl;
      opened = λ k lt. absurd (omega arith);
      others = λ j ne. refl;
    },
  )
  open_loop-Opens (suc n) i st sb le room unused =
      let z : i + 0 ≡ i = omega arith in
      let free = rw z at (unused 0 (omega arith)) in
      let (q, f, p) = open_step-Opens i st sb free in
      let next : add32 i 1 ≡ i + 1 = omega arith in
      let later = Unused-later n i st q.0 le p unused in
      let (q', f', p') = open_loop-Opens n (i + 1) q.0 q.1 (omega arith) (omega arith) later in
      rw (f, next, f') ((q'.0, q'.1, q.2 ++ q'.2), refl, Opens-trans n i st q.0 q'.0 le p p')

  -- Where fewer than half of PROPOSER_PREEXEC_WIN_SIZE instances are in phase 1 or ready, and the
  -- next ones after `highest_open` are unused and have ids below 2 ^ 32, new ones are opened without
  -- a failing assertion, as many as make up the window: `highest_open` and `pending_count` grow by
  -- their number, `ready_count` stays, and each of them is pending in phase 1 with its own id and
  -- this proposer's first ballot.
  pub leader_open_instances_p1_lem :
      (st : Proposer)
      → st.pending_count + st.ready_count < proposer_preexec_win_size / 2
      → st.highest_open + proposer_preexec_win_size + 1 < u32_mod
      → Unused proposer_preexec_win_size (st.highest_open + 1) st
      → (st' : Proposer) × (es : List Event) × (leader_open_instances_p1 gettimeofday st
          ≡ some (st', es))
        × (st'.pending_count + st'.ready_count ≡ proposer_preexec_win_size)
        × (st'.ready_count ≡ st.ready_count)
        × (st'.highest_open + st.pending_count + st.ready_count
            ≡ st.highest_open + proposer_preexec_win_size)
        × ((iid : ℕ) → st.highest_open < iid → iid ≤ st'.highest_open → IsOpened st' iid)
  unfolding leader_open_instances_p1
  leader_open_instances_p1_lem st few room unused =
      let active = st.pending_count + st.ready_count in
      let n = proposer_preexec_win_size - active in
      let a : add32 st.pending_count st.ready_count ≡ active = omega arith in
      let next : add32 st.highest_open 1 ≡ st.highest_open + 1 = omega arith in
      let int : ltb active (2 ^ 31) ≡ true = ground arith in
      let wait : leb (proposer_preexec_win_size / 2) active ≡ false = ground arith in
      let (q, f, p) =
        open_loop-Opens n (st.highest_open + 1) st (sendbuf_clear st.this_proposer_id) (omega arith)
          (omega arith) (λ k lt. unused k (omega arith)) in
      let up : add32 q.0.pending_count n ≡ st.pending_count + n = omega (arith, p.same_pending) in
      let top : add32 q.0.highest_open n ≡ st.highest_open + n = omega (arith, p.same_highest) in
      rw (a, next, int, wait, f)
        (
          record q.0 {
            pending_count = add32 q.0.pending_count n;
            highest_open = add32 q.0.highest_open n;
          },
          q.2 ++ sendbuf_flush prepare_req_kind q.1,
          refl,
          omega (arith, up, p.same_ready),
          p.same_ready,
          omega (arith, top),
          λ iid above below.
              let y : (st.highest_open + 1) + (iid - st.highest_open - 1) ≡ iid = omega arith in
              let o = rw y at (p.opened (iid - st.highest_open - 1) (omega (arith, top))) in
              record { its_iid = o.its_iid; in_phase1 = o.in_phase1; its_ballot = o.its_ballot },
        )
