-- ===== src/Learner/Window.antt =====
-- paxos2/lib/learner.c: the records of the array are those of a window of instances, so that the
-- code's assertions on their ids hold.
use fds.Prelude.{
  ℕ, zero, suc, ◌+◌, ◌≤◌, ◌<◌, ◌≡◌, refl, ◌∙◌, inl, inr, List, [], ◌∷◌, true, Option, none, some,
  ltb, ◌==◌, ◌&&◌, update, update_same, update_other, Bool-cases, Option-cases, All, arith, tests,
  subst, ℕ_discrete,
}
use fds.Messages.{AcceptAck, Packet, accept_acks}
use fds.Config.{learner_array_size}
use fds.Learner.{
  Learner, lea_index, lea_instance, claim, lea_clear_instance_info, lea_update_state,
  lea_check_quorum, lea_apply_ack, is_interesting, advance, next_iid, deliver_loop,
  lea_deliver_next_closed, see, handle_seen_ack, handle_accept_ack, handle_accept_ack_batch,
  lea_handle_newmsg,
}
use fds.Learner.Slots.{
  iid_limit, InWindow, Slot, claim-Slot, lea_update_state-Slot, lea_check_quorum-Slot, set-slots,
  final-InWindow, later-Slot,
}

pub record IsWindow (st : Learner) : Type 0 where
  pub current_pos : 1 ≤ st.current_iid
  pub current_le : st.current_iid ≤ iid_limit
  pub slots : (i : ℕ) → i < learner_array_size → Slot st.current_iid i (st.learner_state i)

lea_apply_ack-IsWindow :
    (j : ℕ) (aa : AcceptAck) (st : Learner)
    → IsWindow st
    → InWindow st.current_iid (lea_index aa.iid) aa.iid
    → IsWindow (lea_apply_ack j aa st).1
unfolding lea_apply_ack
lea_apply_ack-IsWindow j aa st v w =
    let old = lea_instance st aa.iid in
    let c = st.current_iid in
    let idx = lea_index aa.iid in
    let lt : idx < learner_array_size = omega arith in
    let up = lea_update_state-Slot c idx j old aa v.current_pos (v.slots idx lt) w in
    let ii = (lea_update_state old j aa).1 in
    let quorum_slot = lea_check_quorum-Slot c idx ii up in
    let kept = set-slots c idx st.learner_state ii v.slots up in
    let closed = set-slots c idx st.learner_state (lea_check_quorum ii).1 v.slots quorum_slot in
    elim (Bool-cases (lea_update_state old j aa).0) [
      | inr e ↦
          rw e (record { current_pos = v.current_pos; current_le = v.current_le; slots = kept })
      | inl e ↦ elim (Bool-cases (lea_check_quorum ii).0) [
        | inl f ↦
            rw (e, f)
              (record { current_pos = v.current_pos; current_le = v.current_le; slots = closed })
        | inr f ↦
            rw (e, f)
              (record { current_pos = v.current_pos; current_le = v.current_le; slots = kept })
      ]
    ]

-- The assertion of `lea_deliver_next_closed`: where the current instance's record is closed, it and
-- the value that is delivered are those of the current instance, which is below the limit.
current_closed-iid :
    (st : Learner) (a : AcceptAck)
    → IsWindow st
    → (lea_instance st st.current_iid).final_value ≡ some a
    → ((lea_instance st st.current_iid).iid ≡ st.current_iid)
      × (a.iid ≡ st.current_iid)
      × (st.current_iid < iid_limit)
current_closed-iid st a v h =
    let c = st.current_iid in
    let lt : lea_index c < learner_array_size = omega arith in
    let s = v.slots (lea_index c) lt in
    let w = final-InWindow c (lea_index c) (lea_instance st c) a s h in
    let from = w.from_current in
    let below = w.below_end in
    let limit = w.below_limit in
    let at = w.at_index in
    let e : (lea_instance st c).iid ≡ c = omega arith in (e, s.closed_by a h ∙ e, omega arith)

advance-IsWindow :
    (st : Learner) (a : AcceptAck)
    → IsWindow st
    → (lea_instance st st.current_iid).final_value ≡ some a
    → IsWindow (advance st)
advance-IsWindow st a v h =
    let c = st.current_iid in
    let (e, f, limit) = current_closed-iid st a v h in
    let next : next_iid c ≡ c + 1 = omega arith in
    record {
      current_pos = rw next (omega arith);
      current_le = rw next (omega arith);
      slots = λ k lt. rw next (elim (ℕ_discrete (lea_index c) k) [
        | yes t ↦
            subst
              (λ (x : ℕ). Slot (c + 1) x (
                update st.learner_state (lea_index c) (lea_clear_instance_info (lea_instance st c))
                  x))
              t
              (rw
                (update_same st.learner_state (lea_index c)
                  (lea_clear_instance_info (lea_instance st c)))
                (record { place = inl (refl, refl); held = λ j b g. cc; closed_by = λ b g. cc }))
        | no ne ↦
            rw
              (update_other st.learner_state (lea_index c) k
                (lea_clear_instance_info (lea_instance st c)) ne)
              (later-Slot c k (st.learner_state k) (v.slots k lt) ne)
      ]);
    }

deliver_loop-IsWindow : (fuel : ℕ) (st : Learner) → IsWindow st → IsWindow (deliver_loop fuel st).0
unfolding deliver_loop
deliver_loop-IsWindow zero st v = v
deliver_loop-IsWindow (suc fuel) st v =
    elim (Option-cases (lea_instance st st.current_iid).final_value) [
      | inl e ↦ rw (e, deliver_loop) v
      | inr (a, e) ↦
          rw (e, deliver_loop) (deliver_loop-IsWindow fuel (advance st) (advance-IsWindow st a v e))
    ]

interesting-InWindow :
    (st : Learner) (aa : AcceptAck)
    → IsWindow st
    → is_interesting st aa.iid ≡ true
    → aa.iid < iid_limit
    → InWindow st.current_iid (lea_index aa.iid) aa.iid
interesting-InWindow st aa v h lt =
    let le = v.current_le in
    record {
      from_current = grind (arith, tests);
      below_end = grind (arith, tests);
      below_limit = lt;
      at_index = refl;
    }

-- The assertion of `lea_update_state`: the record to which an acknowledgement is applied is free or
-- its instance's, and is its instance's afterwards. The acknowledgement must be one that
-- `handle_accept_ack` does not drop, of an instance below the limit.
claim-iid :
    (st : Learner) (aa : AcceptAck)
    → IsWindow st
    → is_interesting st aa.iid ≡ true
    → aa.iid < iid_limit
    → (claim (lea_instance st aa.iid) aa).iid ≡ aa.iid
claim-iid st aa v h lt =
    let idx = lea_index aa.iid in
    let within : idx < learner_array_size = omega arith in
    (claim-Slot st.current_iid idx (lea_instance st aa.iid) aa v.current_pos (v.slots idx within)
      (interesting-InWindow st aa v h lt)).0

see-IsWindow : (aa : AcceptAck) (st : Learner) → IsWindow st → IsWindow (see aa st)
see-IsWindow aa st v = elim (Bool-cases (ltb st.highest_iid_seen aa.iid)) [
  | inl e ↦
      rw e (record { current_pos = v.current_pos; current_le = v.current_le; slots = v.slots })
  | inr e ↦ rw e v
]

handle_seen_ack-IsWindow :
    (j : ℕ) (aa : AcceptAck) (st : Learner)
    → IsWindow st
    → aa.iid < iid_limit
    → IsWindow (handle_seen_ack j aa st).0
unfolding handle_seen_ack lea_deliver_next_closed
handle_seen_ack-IsWindow j aa st v lt =
    let (closed, st') = lea_apply_ack j aa st in
    elim (Bool-cases (is_interesting st aa.iid)) [
      | inr e ↦ rw e v
      | inl e ↦
          let v' = lea_apply_ack-IsWindow j aa st v (interesting-InWindow st aa v e lt) in
          elim (Bool-cases (closed && (aa.iid == st'.current_iid))) [
            | inl f ↦ rw (e, f) (deliver_loop-IsWindow learner_array_size st' v')
            | inr f ↦ rw (e, f) v'
          ]
    ]

abbrev BelowLimit : List AcceptAck → Type 0
BelowLimit = All (λ aa. aa.iid < iid_limit)

handle_accept_ack_batch-IsWindow :
    (j : ℕ) (aas : List AcceptAck) (st : Learner)
    → IsWindow st
    → BelowLimit aas
    → IsWindow (handle_accept_ack_batch j aas st).0
unfolding handle_accept_ack_batch handle_accept_ack
handle_accept_ack_batch-IsWindow j [] st v b = v
handle_accept_ack_batch-IsWindow j (aa ∷ aas) st v b =
    handle_accept_ack_batch-IsWindow j aas (handle_seen_ack j aa (see aa st)).0
      (handle_seen_ack-IsWindow j aa (see aa st) (see-IsWindow aa st v) b.0) b.1

-- The acknowledgements of a message are of instances below the limit.
abbrev pub IsBelowLimit : Option Packet → Type 0
IsBelowLimit (some (accept_acks j aas)) = BelowLimit aas
IsBelowLimit _ = Unit

-- Every message keeps the learner's window: each record of the array is free, or is that of the one
-- instance at its index of those from `current_iid` on, as many as the array has records; its
-- acknowledgements and its final value are of that instance. The instance ids of the message must be
-- below 2 ^ 32 less the array's size and one.
pub lea_handle_newmsg-IsWindow :
    (m : Option Packet) (st : Learner)
    → IsWindow st
    → IsBelowLimit m
    → IsWindow (lea_handle_newmsg m st).0
unfolding lea_handle_newmsg
lea_handle_newmsg-IsWindow (some (accept_acks j aas)) st v b =
    handle_accept_ack_batch-IsWindow j aas st v b
lea_handle_newmsg-IsWindow (some _) st v b = v
lea_handle_newmsg-IsWindow none st v b = v
