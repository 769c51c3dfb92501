-- ===== src/Leader/Phase2/Execute.antt =====
-- The value that phase 2 is executed with.
use fds.Prelude.{ℕ, ◌≡◌, refl, ap, List, [], ◌∷◌, Option, none, some, update_same}
use fds.Messages.{AcceptReq}
use fds.SendBuf.{SendBuf, sendbuf_add_accept_req}
use fds.Instance.{InstInfo, Timeval, Value, p2_pending}
use fds.Leader.State.{Proposer, pro_instance, pro_index}
use fds.Leader.Phase2.{Accepting, leader_execute_p2, phase2_value, begin_p2}

module _ (gettimeofday : ℕ → Timeval) (iid : ℕ) (st : Proposer) (sb : SendBuf AcceptReq) where
  -- Phase 2 was begun with the value `v`: an accept request with the instance's ballot is added to
  -- the buffer, the instance waits for phase 2 with that value, and `left` are the values that
  -- wait for an instance.
  pub record Executed (v : Value) (left : List Value) (r : Option Accepting) : Type 0 where
    pub state : Proposer
    pub result : r ≡ (
        let ii = pro_instance st iid in
        let (sb', es) = sendbuf_add_accept_req sb ii.iid ii.my_ballot v in some (state, sb', es))
    pub proposed : (pro_instance state iid).p2_value ≡ some v
    pub no_promised : (pro_instance state iid).p1_value ≡ none
    pub waits : (pro_instance state iid).status ≡ p2_pending
    pub left_pending : state.pending ≡ left

  executes :
      (v : Value) (left : List Value)
      → phase2_value (pro_instance st iid).p1_value (pro_instance st iid).p2_value st.pending
        ≡ (some v, left)
      → Executed v left (leader_execute_p2 gettimeofday iid st sb)
  unfolding leader_execute_p2 begin_p2
  executes v left e =
      let here = update_same st.proposer_state (pro_index iid) _ in
      record {
        state = begin_p2 gettimeofday iid v left st;
        result = rw e;
        proposed = ap (λ (ii : InstInfo). ii.p2_value) here;
        no_promised = ap (λ (ii : InstInfo). ii.p1_value) here;
        waits = ap (λ (ii : InstInfo). ii.status) here;
        left_pending = refl;
      }

  stops :
      phase2_value (pro_instance st iid).p1_value (pro_instance st iid).p2_value st.pending
        ≡ (none, [])
      → leader_execute_p2 gettimeofday iid st sb ≡ none
  unfolding leader_execute_p2
  stops e = rw e

  -- The value of phase 2. One that was found in phase 1 is proposed, also where the instance has
  -- another of its own: the last case of the code, that compares the two, is not reached. An
  -- instance with only its own value proposes that; one with none takes the first pending value;
  -- and with none pending either the code stops.
  pub leader_execute_p2_lem :
      (let ii = pro_instance st iid in
        let r = leader_execute_p2 gettimeofday iid st sb in
        ((v : Value) → ii.p1_value ≡ some v → Executed v st.pending r)
        × ((w : Value) → ii.p1_value ≡ none → ii.p2_value ≡ some w → Executed w st.pending r)
        × ((v : Value) (vs : List Value)
            → ii.p1_value ≡ none
            → ii.p2_value ≡ none
            → st.pending ≡ v ∷ vs
            → Executed v vs r)
        × (ii.p1_value ≡ none → ii.p2_value ≡ none → st.pending ≡ [] → r ≡ none))
  unfolding phase2_value
  leader_execute_p2_lem = (
    λ v e. executes v st.pending (rw (e, phase2_value)),
    λ w e f. executes w st.pending (rw (e, f, phase2_value)),
    λ v vs e f g. executes v vs (rw (e, f, g, phase2_value)),
    λ e f g. stops (rw (e, f, g, phase2_value)),
  )
