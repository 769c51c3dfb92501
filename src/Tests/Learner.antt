-- ===== src/Tests/Learner.antt =====
-- The learner's theorems, and runs of it.
use fds.Prelude.{
  inl, inr, refl, Bool-cases, ◌==◌, ℕ, ◌≡◌, ◌<◌, ◌≤◌, ◌+◌, ◌-◌, List, [], ◌∷◌, none, some, arith,
  true, false, update,
}
use fds.Messages.{AcceptAck, accept_acks}
use fds.Config.{learner_array_size}
use fds.Learner.{
  InstInfo, Learner, lea_check_quorum, lea_handle_newmsg, lea_deliver_next_closed, lea_hole_check,
  init_learner,
}
use fds.Learner.Quorum.{is_decided, with_values, lea_check_quorum_lem}
use fds.Learner.Deliver.{
  Delivers, Consecutive, IsWaiting, lea_handle_newmsg-Delivers, lea_deliver_next_closed_lem,
}
use fds.Learner.Holes.{unclosed, unclosed_in_window, Requests, lea_hole_check-Requests}
use fds.Learner.Slots.{Slot, set-slots}
use fds.Learner.Window.{IsWindow, lea_handle_newmsg-IsWindow}
use fds.Tests.Data.{rec1}

-- Two acceptors agree.
abbrev decided : InstInfo
decided = record {
  iid = 1;
  last_update_ballot = 11;
  acks = update (update (λ i. none) 0 (some rec1)) 2 (some rec1);
  final_value = none;
}

-- A learner that has instance 1 to deliver, and has heard of instance 4.
abbrev ready : Learner
ready = record init_learner {
  highest_iid_seen = 4;
  highest_iid_closed = 4;
  learner_state = update init_learner.learner_state 1 (record decided { final_value = some rec1 });
}

lea_check_quorum_lem_example :
    (let (closed, ii') = lea_check_quorum decided in
      (closed ≡ is_decided decided)
      × (closed ≡ false → ii' ≡ decided)
      × (closed ≡ true
          → (j : ℕ) × (a : AcceptAck) × (decided.acks j ≡ some a)
            × (a.ballot ≡ 11)
            × (ii' ≡ record decided { final_value = some a }))
      × ((values : ℕ → List ℕ) → (lea_check_quorum (with_values values decided)).0 ≡ closed))
lea_check_quorum_lem_example = lea_check_quorum_lem decided

lea_handle_newmsg-Delivers_example :
    Delivers init_learner (lea_handle_newmsg (some (accept_acks 0 (rec1 ∷ rec1 ∷ []))) init_learner)
lea_handle_newmsg-Delivers_example =
    lea_handle_newmsg-Delivers (some (accept_acks 0 (rec1 ∷ rec1 ∷ []))) init_learner

lea_deliver_next_closed_lem_example :
    (let (st', ds) = lea_deliver_next_closed ready in
      IsWaiting st' × Consecutive 1 st'.current_iid ds)
lea_deliver_next_closed_lem_example = lea_deliver_next_closed_lem ready

free_slots : (k : ℕ) → k < learner_array_size → Slot 1 k (init_learner.learner_state k)
free_slots k lt = record { place = inl (refl, refl); held = λ j a h. cc; closed_by = λ a h. cc }

init_learner-IsWindow : IsWindow init_learner
init_learner-IsWindow = record {
  current_pos = ground arith;
  current_le = ground arith;
  slots = free_slots;
}

decided_acks : (j : ℕ) (a : AcceptAck) → decided.acks j ≡ some a → a ≡ rec1
decided_acks j a h = elim (Bool-cases (2 == j)) [
  | inl e ↦ let h' : some rec1 ≡ some a = rw e at h in cc
  | inr e ↦ elim (Bool-cases (0 == j)) [
    | inl f ↦ let h' : some rec1 ≡ some a = rw (e, f) at h in cc
    | inr f ↦ let h' : none ≡ some a = rw (e, f) at h in cc
  ]
]

closed-Slot : Slot 1 1 (record decided { final_value = some rec1 })
closed-Slot = record {
  place = inr (record {
    from_current = ground arith;
    below_end = ground arith;
    below_limit = ground arith;
    at_index = refl;
  });
  held = λ j a h. rw (decided_acks j a h) (refl, ground arith);
  closed_by = λ a h. let e : rec1 ≡ a = cc in rw (← e) refl;
}

ready-IsWindow : IsWindow ready
ready-IsWindow = record {
  current_pos = ground arith;
  current_le = ground arith;
  slots =
      set-slots 1 1 init_learner.learner_state (record decided { final_value = some rec1 })
        free_slots closed-Slot;
}

lea_hole_check-Requests_example :
    (ready.current_iid + learner_array_size < ready.highest_iid_seen
      → Requests
          (unclosed_in_window ready (ready.highest_iid_seen - ready.current_iid) ready.current_iid)
          (lea_hole_check ready))
    × (ready.highest_iid_seen ≤ ready.current_iid + learner_array_size
        → Requests
            (unclosed ready (ready.highest_iid_closed - ready.current_iid) ready.current_iid)
            (lea_hole_check ready))
lea_hole_check-Requests_example =
    lea_hole_check-Requests ready ready-IsWindow (omega arith) (omega arith)

lea_handle_newmsg-IsWindow_example :
    IsWindow (lea_handle_newmsg (some (accept_acks 0 (rec1 ∷ rec1 ∷ []))) init_learner).0
lea_handle_newmsg-IsWindow_example =
    lea_handle_newmsg-IsWindow (some (accept_acks 0 (rec1 ∷ rec1 ∷ []))) init_learner
      init_learner-IsWindow (ground arith, (ground arith, tt))
