-- ===== src/Learner/Deliver.antt =====
-- The delivery loop ends, delivers consecutive instances, and leaves none that could be delivered.
use fds.Prelude.{
  ℕ, zero, suc, ◌+◌, ◌%◌, ◌≤◌, ◌<◌, ◌≡◌, refl, sym, ap, ◌∙◌, ◌≢◌, inl, inr, List, [], ◌∷◌, ◌++◌,
  map, true, false, ◌&&◌, Option, none, some, ltb, ◌==◌, is_some, length, length-append, Bool-cases,
  Option-cases, arith, subst, update_same, update_other, tests, ℕ_discrete,
}
use mathlib.Core.List.{map-append}
use fds.Messages.{AcceptAck, Packet, accept_acks}
use fds.Config.{learner_array_size}
use fds.Learner.{
  InstInfo, Learner, Delivery, lea_index, lea_instance, is_closed, advance, deliver_loop,
  lea_deliver_next_closed, next_iid, handle_accept_ack, handle_seen_ack, handle_accept_ack_batch,
  lea_handle_newmsg, lea_apply_ack, lea_update_state, lea_check_quorum, see, is_interesting,
}

-- `n` instance ids from `i` on, as `current_iid++` counts them.
abbrev pub iids_from : ℕ → ℕ → List ℕ
iids_from i zero = []
iids_from i (suc n) = i ∷ iids_from (next_iid i) n

-- The id after `n` deliveries.
abbrev pub iid_after : ℕ → ℕ → ℕ
iid_after i zero = i
iid_after i (suc n) = iid_after (next_iid i) n

pub iids-append : (i m n : ℕ) → iids_from i (m + n) ≡ iids_from i m ++ iids_from (iid_after i m) n
iids-append i zero n = ap (iids_from i) (omega arith)
iids-append i (suc m) n =
    let e : suc m + n ≡ suc (m + n) = omega arith in
    ap (iids_from i) e ∙ ap (◌∷◌ i) (iids-append (next_iid i) m n)

pub iid_after_add : (i m n : ℕ) → iid_after i (m + n) ≡ iid_after (iid_after i m) n
iid_after_add i zero n = let e : 0 + n ≡ n = omega arith in ap (iid_after i) e
iid_after_add i (suc m) n =
    let e : suc m + n ≡ suc (m + n) = omega arith in
    ap (iid_after i) e ∙ iid_after_add (next_iid i) m n

-- Deliveries that start at one instance id and end before another.
pub record Consecutive (i j : ℕ) (ds : List Delivery) : Type 0 where
  pub ids : map (λ d. d.iid) ds ≡ iids_from i (length ds)
  pub end_id : j ≡ iid_after i (length ds)

-- The current instance is not closed.
abbrev pub IsWaiting : Learner → Type 0
IsWaiting st = is_closed (lea_instance st st.current_iid) ≡ false

deliver_loop-Consecutive :
    (fuel : ℕ) (st : Learner)
    → (let (st', ds) = deliver_loop fuel st in Consecutive st.current_iid st'.current_iid ds)
unfolding deliver_loop
deliver_loop-Consecutive zero st = record { ids = refl; end_id = refl }
deliver_loop-Consecutive (suc fuel) st =
    elim (Option-cases (lea_instance st st.current_iid).final_value) [
      | inl e ↦ rw (e, deliver_loop) record { ids = refl; end_id = refl }
      | inr (aa, e) ↦
          rw (e, deliver_loop)
            (let r = deliver_loop-Consecutive fuel (advance st) in
              record { ids = ap (◌∷◌ st.current_iid) r.ids; end_id = r.end_id })
    ]

-- With `fuel` rounds left, the records at a distance of at least `fuel` are cleared.
abbrev Cleared : ℕ → Learner → Type 0
Cleared fuel st =
    (j : ℕ)
    → fuel ≤ j
    → j < learner_array_size
    → is_closed (st.learner_state ((st.current_iid + j) % learner_array_size)) ≡ false

Cleared-advance : (fuel : ℕ) (st : Learner) → Cleared (suc fuel) st → Cleared fuel (advance st)
Cleared-advance fuel st h j p q =
    let at = (next_iid st.current_iid + j) % learner_array_size in
    elim (Bool-cases (lea_index st.current_iid == at)) [
      | inl e ↦ rw e refl
      | inr e ↦ rw e (
          let same : at ≡ (st.current_iid + (j + 1)) % learner_array_size = omega arith in
          rw same (h (j + 1) (omega arith) (ground arith)))
    ]

deliver_loop-IsWaiting :
    (fuel : ℕ) (st : Learner) → Cleared fuel st → IsWaiting (deliver_loop fuel st).0
unfolding deliver_loop
deliver_loop-IsWaiting zero st h =
    subst (λ c. is_closed (st.learner_state (c % learner_array_size)) ≡ false) (omega arith)
      (h 0 (omega arith) (omega arith))
deliver_loop-IsWaiting (suc fuel) st h =
    elim (Option-cases (lea_instance st st.current_iid).final_value) [
      | inl e ↦ rw (e, deliver_loop) (rw e)
      | inr (aa, e) ↦
          rw (e, deliver_loop)
            (deliver_loop-IsWaiting fuel (advance st) (Cleared-advance fuel st h))
    ]

-- The delivery loop's rounds are enough: after them the current instance is not closed. What was
-- delivered are consecutive instances, from the one that was current to the one before the new one.
pub lea_deliver_next_closed_lem :
    (st : Learner)
    → (let (st', ds) = lea_deliver_next_closed st in
        IsWaiting st' × Consecutive st.current_iid st'.current_iid ds)
unfolding lea_deliver_next_closed
lea_deliver_next_closed_lem st = (
  deliver_loop-IsWaiting learner_array_size st (λ j p q. absurd (omega arith)),
  deliver_loop-Consecutive learner_array_size st,
)

lea_update_state-final :
    (ii : InstInfo) (j : ℕ) (aa : AcceptAck)
    → (lea_update_state ii j aa).1.final_value ≡ ii.final_value
unfolding lea_update_state
lea_update_state-final ii j aa = ground arith

-- What an acknowledgement within bounds may change: the record of its instance, which is closed
-- afterwards if it was or if the call says so.
pub lea_apply_ack_lem :
    (j : ℕ) (aa : AcceptAck) (st : Learner)
    → (let (closed, st') = lea_apply_ack j aa st in
        (st'.current_iid ≡ st.current_iid)
        × ((i : ℕ) → lea_index aa.iid ≢ i → st'.learner_state i ≡ st.learner_state i)
        × (closed ≡ false
            → (lea_instance st' aa.iid).final_value ≡ (lea_instance st aa.iid).final_value))
unfolding lea_apply_ack
lea_apply_ack_lem j aa st =
    let (relevant, ii) = lea_update_state (lea_instance st aa.iid) j aa in
    let same = lea_update_state-final (lea_instance st aa.iid) j aa in
    let idx = lea_index aa.iid in
    let kept = λ (x : InstInfo) (i : ℕ) (ne : idx ≢ i). update_other st.learner_state idx i x ne in
    let now = ap (λ (x : InstInfo). x.final_value) (update_same st.learner_state idx ii) ∙ same in
    elim (Bool-cases relevant) [
      | inr e ↦ rw e (refl, kept ii, λ _. now)
      | inl e ↦ elim (Bool-cases (lea_check_quorum ii).0) [
        | inl f ↦ rw (e, f) (refl, kept _, λ t. cc)
        | inr f ↦ rw (e, f) (refl, kept ii, λ _. now)
      ]
    ]

-- One acknowledgement: the current instance stays open, and what is delivered is consecutive.
pub record Delivers (st : Learner) (r : Learner × List Delivery) : Type 0 where
  pub waiting : IsWaiting st → IsWaiting r.0
  pub consecutive : Consecutive st.current_iid r.0.current_iid r.1

Delivers-none :
    (st st' : Learner)
    → st'.current_iid ≡ st.current_iid
    → (IsWaiting st → IsWaiting st')
    → Delivers st (st', [])
Delivers-none st st' e w = record { waiting = w; consecutive = record { ids = refl; end_id = e } }

-- An acknowledgement within bounds that is not followed by a delivery.
apply-IsWaiting :
    (j : ℕ) (aa : AcceptAck) (st : Learner)
    → is_interesting st aa.iid ≡ true
    → ((lea_apply_ack j aa st).0 && (aa.iid == (lea_apply_ack j aa st).1.current_iid)) ≡ false
    → IsWaiting st
    → IsWaiting (lea_apply_ack j aa st).1
apply-IsWaiting j aa st int nd w =
    let (cur, others, kept) = lea_apply_ack_lem j aa st in
    rw cur (elim (ℕ_discrete (lea_index aa.iid) (lea_index st.current_iid)) [
      | no ne ↦ rw (others (lea_index st.current_iid) ne) w
      | yes e ↦
          (let this : aa.iid ≡ st.current_iid = grind (arith, tests) in
            let closed : (lea_apply_ack j aa st).0 ≡ false = ground arith in
            subst (λ i. is_closed ((lea_apply_ack j aa st).1.learner_state i) ≡ false) e
              (ap is_some (kept closed)
                ∙ subst (λ i. is_closed (st.learner_state i) ≡ false) (sym e) w))
    ])

see-Delivers :
    (aa : AcceptAck) (st : Learner) {r : Learner × List Delivery}
    → Delivers (see aa st) r
    → Delivers st r
see-Delivers aa st {r} d = elim (Bool-cases (ltb st.highest_iid_seen aa.iid)) [
  | inl e ↦
      (let d' : Delivers (record st { highest_iid_seen = aa.iid }) r = rw e at d in
        record { waiting = d'.waiting; consecutive = d'.consecutive })
  | inr e ↦ rw e at d
]

handle_seen_ack-Delivers :
    (j : ℕ) (aa : AcceptAck) (st : Learner) → Delivers st (handle_seen_ack j aa st)
unfolding handle_seen_ack
handle_seen_ack-Delivers j aa st =
    let (closed, st') = lea_apply_ack j aa st in
    let (cur, others, kept) = lea_apply_ack_lem j aa st in
    elim (Bool-cases (is_interesting st aa.iid)) [
      | inr e ↦ rw e (Delivers-none st st refl (λ w. w))
      | inl e ↦ elim (Bool-cases (closed && (aa.iid == st'.current_iid))) [
        | inr f ↦ rw (e, f) (Delivers-none st st' cur (apply-IsWaiting j aa st e f))
        | inl f ↦
            rw (e, f)
              (let (waiting, ds) = lea_deliver_next_closed_lem st' in
                record {
                  waiting = λ _. waiting;
                  consecutive =
                      subst
                        (λ c.
                          Consecutive c (lea_deliver_next_closed st').0.current_iid
                            (lea_deliver_next_closed st').1)
                        cur ds;
                })
      ]
    ]

Consecutive-append :
    {i j k : ℕ} {ds es : List Delivery}
    → Consecutive i j ds
    → Consecutive j k es
    → Consecutive i k (ds ++ es)
Consecutive-append {i} {j} {k} {ds} {es} p q = record {
  ids =
      rw (length-append ds es, map-append, p.ids, q.ids, p.end_id)
        (sym (iids-append i (length ds) (length es)));
  end_id = rw (length-append ds es, iid_after_add i (length ds) (length es), ← p.end_id) q.end_id;
}

handle_accept_ack_batch-Delivers :
    (j : ℕ) (aas : List AcceptAck) (st : Learner) → Delivers st (handle_accept_ack_batch j aas st)
unfolding handle_accept_ack_batch handle_accept_ack
handle_accept_ack_batch-Delivers j [] st = Delivers-none st st refl (λ w. w)
handle_accept_ack_batch-Delivers j (aa ∷ aas) st =
    let one = see-Delivers aa st (handle_seen_ack-Delivers j aa (see aa st)) in
    let rest = handle_accept_ack_batch-Delivers j aas (handle_seen_ack j aa (see aa st)).0 in
    record {
      waiting = λ w. rest.waiting (one.waiting w);
      consecutive = Consecutive-append one.consecutive rest.consecutive;
    }

-- Every message makes the learner deliver consecutive instances, from its current one up to the
-- one before its new current one. If the current instance was not closed before the message, it is
-- not closed after it: what could be delivered was delivered.
pub lea_handle_newmsg-Delivers :
    (m : Option Packet) (st : Learner) → Delivers st (lea_handle_newmsg m st)
unfolding lea_handle_newmsg
lea_handle_newmsg-Delivers (some (accept_acks j aas)) st = handle_accept_ack_batch-Delivers j aas st
lea_handle_newmsg-Delivers (some _) st = Delivers-none st st refl (λ w. w)
lea_handle_newmsg-Delivers none st = Delivers-none st st refl (λ w. w)
