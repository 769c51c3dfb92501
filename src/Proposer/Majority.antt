-- ===== src/Proposer/Majority.antt =====
-- When an instance completes phase 1.
use fds.Prelude.{
  ℕ, ◌<◌, ◌≤◌, ◌≡◌, refl, sym, ap, subst, [], ◌∷◌, true, false, update_same, lt→ltb, not_lt→ltb,
  arith,
}
use fds.Messages.{PrepareAck}
use fds.Config.{quorum}
use fds.Instance.{InstInfo, p1_ready, pro_save_prepare_ack}
use fds.Instance.Promises.{save_all-counts, save-kept}
use fds.Leader.State.{Proposer, pro_instance, set_instance, pro_index}
use fds.Proposer.{handle_prepare_ack, is_awaited}

-- A promise of the awaited ballot, counted and not yet the last that is needed.
pub counts_first :
    (pa : PrepareAck) (a : ℕ) (st : Proposer)
    → is_awaited (pro_instance st pa.iid) pa ≡ true
    → (pro_save_prepare_ack (pro_instance st pa.iid) pa a).promises_count < quorum
    → handle_prepare_ack pa a st
      ≡ (false, set_instance st pa.iid (pro_save_prepare_ack (pro_instance st pa.iid) pa a))
unfolding handle_prepare_ack
counts_first pa a st e h = rw (e, lt→ltb _ _ h)

-- A promise of the awaited ballot with which a quorum is counted.
pub completes :
    (pa : PrepareAck) (a : ℕ) (st : Proposer)
    → is_awaited (pro_instance st pa.iid) pa ≡ true
    → quorum ≤ (pro_save_prepare_ack (pro_instance st pa.iid) pa a).promises_count
    → ((handle_prepare_ack pa a st).0 ≡ true)
      × ((pro_instance (handle_prepare_ack pa a st).1 pa.iid).status ≡ p1_ready)
unfolding handle_prepare_ack
completes pa a st e h =
    rw (e, not_lt→ltb _ _ h)
      (refl, ap (λ (ii : InstInfo). ii.status) (update_same st.proposer_state (pro_index pa.iid) _))

-- One acceptor is enough: an instance in phase 1 with no promise yet becomes ready when one promise
-- of the awaited ballot arrives twice.
pub duplicate_promise_completes :
    (pa : PrepareAck) (a : ℕ) (st : Proposer)
    → is_awaited (pro_instance st pa.iid) pa ≡ true
    → (pro_instance st pa.iid).promises_bitvector ≡ 0
    → (pro_instance st pa.iid).promises_count ≡ 0
    → (let (first, st') = handle_prepare_ack pa a st in
        let (second, st'') = handle_prepare_ack pa a st' in
        (first ≡ false) × (second ≡ true) × ((pro_instance st'' pa.iid).status ≡ p1_ready))
duplicate_promise_completes pa a st e b c =
    let ii = pro_instance st pa.iid in
    let ii' = pro_save_prepare_ack ii pa a in
    let st' = set_instance st pa.iid ii' in
    let here : pro_instance st' pa.iid ≡ ii' =
      update_same st.proposer_state (pro_index pa.iid) ii' in
    let once = save_all-counts ii ((a, pa) ∷ []) b in
    let twice = save_all-counts ii' ((a, pa) ∷ []) once.0 in
    let kept = save-kept ii pa a in
    let e' : is_awaited ii' pa ≡ true = rw (kept.0, kept.1) e in
    let done = completes pa a st' (rw here e') (
      subst (λ (x : InstInfo). quorum ≤ (pro_save_prepare_ack x pa a).promises_count) (sym here)
        (omega (arith, once.1, twice.1, c))) in
    rw (counts_first pa a st e (omega (arith, once.1, c))) (refl, done.0, done.1)
