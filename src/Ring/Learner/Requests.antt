-- ===== src/Ring/Learner/Requests.antt =====
-- What a learner of ring_paxos asks for.
use fds.Prelude.{
  ℕ, ◌<◌, ◌≡◌, refl, sym, ap, ◌∙◌, List, [], ◌∷◌, ◌++◌, All, All-append, arith, Bool-cases, inl,
  inr, append_assoc, append-nil, true, leb, ltb, length, length-append,
}
use fds.Ring.Delivery.Periodic.{DqEvent, missing_cmdmap, missing_acceptance, post_check}
use fds.Ring.Learner.Asked.{
  missing_maps, missing_finals, asked_maps, asked_finals, IsSendable, asked_maps-append,
  asked_finals-append, missing_maps-cons, missing_finals-cons,
}
use fds.Ring.Learner.{
  LearnerEvent, send_map_requests, send_chosenval_requests, flush, Missing, add_request,
  on_missing_cmdmap, on_missing_acceptance, post_delivery_check, send_rest, on_dq_event,
  on_dq_events, repeat_request_max_entries,
}

-- Both buffers have room for one more.
abbrev HasRoom : Missing → Type 0
HasRoom l =
    (length l.missing_cmd_request_buf < repeat_request_max_entries)
    × (length l.missing_acc_request_buf < repeat_request_max_entries)

record Asks (l : Missing) (es : List DqEvent) (r : Missing × List LearnerEvent) : Type 0 where
  maps :
      asked_maps r.1 ++ r.0.missing_cmd_request_buf ≡ l.missing_cmd_request_buf ++ missing_maps es
  finals :
      asked_finals r.1 ++ r.0.missing_acc_request_buf
      ≡ l.missing_acc_request_buf ++ missing_finals es
  sendable : All IsSendable r.1
  room : HasRoom r.0

maps_of_rest :
    (b : List ℕ) (es : List LearnerEvent)
    → asked_maps (send_rest send_map_requests b ++ es) ≡ b ++ asked_maps es
unfolding send_rest asked_maps
maps_of_rest [] es = refl
maps_of_rest (i ∷ b) es = let e : ltb 0 (length (i ∷ b)) ≡ true = ground arith in rw e refl

maps_of_finals :
    (b : List ℕ) (es : List LearnerEvent)
    → asked_maps (send_rest send_chosenval_requests b ++ es) ≡ asked_maps es
unfolding send_rest asked_maps
maps_of_finals [] es = refl
maps_of_finals (i ∷ b) es = let e : ltb 0 (length (i ∷ b)) ≡ true = ground arith in rw e refl

finals_of_maps :
    (b : List ℕ) (es : List LearnerEvent)
    → asked_finals (send_rest send_map_requests b ++ es) ≡ asked_finals es
unfolding send_rest asked_finals
finals_of_maps [] es = refl
finals_of_maps (i ∷ b) es = let e : ltb 0 (length (i ∷ b)) ≡ true = ground arith in rw e refl

finals_of_rest :
    (b : List ℕ) (es : List LearnerEvent)
    → asked_finals (send_rest send_chosenval_requests b ++ es) ≡ b ++ asked_finals es
unfolding send_rest asked_finals
finals_of_rest [] es = refl
finals_of_rest (i ∷ b) es = let e : ltb 0 (length (i ∷ b)) ≡ true = ground arith in rw e refl

rest-IsSendable :
    (send : List ℕ → LearnerEvent) (b : List ℕ)
    → ((0 < length b) → IsSendable (send b))
    → All IsSendable (send_rest send b)
unfolding send_rest
rest-IsSendable send [] h = tt
rest-IsSendable send (i ∷ b) h =
    let e : ltb 0 (length (i ∷ b)) ≡ true = ground arith in rw e (h (omega arith), tt)

on_dq_event-Asks : (e : DqEvent) (l : Missing) → HasRoom l → Asks l (e ∷ []) (on_dq_event e l)
unfolding on_dq_event on_missing_cmdmap on_missing_acceptance add_request post_delivery_check
    send_rest asked_maps asked_finals missing_maps missing_finals
on_dq_event-Asks (missing_cmdmap i) l h =
    let n = length-append l.missing_cmd_request_buf (i ∷ []) in
    elim (Bool-cases
      (leb repeat_request_max_entries (length (l.missing_cmd_request_buf ++ i ∷ [])))) [
        | inl full ↦ rw full (record {
          maps =
              rw
                (
                  append-nil (l.missing_cmd_request_buf ++ i ∷ []),
                  append-nil (l.missing_cmd_request_buf ++ i ∷ []),
                )
                refl;
          finals = sym (append-nil l.missing_acc_request_buf);
          sendable = ((omega (arith, n), omega (arith, n, h.0)), (tt, tt));
          room = (omega arith, h.1);
        })
        | inr less ↦ rw less (record {
          maps = refl;
          finals = sym (append-nil l.missing_acc_request_buf);
          sendable = tt;
          room = (ground arith, h.1);
        })
      ]
on_dq_event-Asks (missing_acceptance i) l h =
    let n = length-append l.missing_acc_request_buf (i ∷ []) in
    elim (Bool-cases
      (leb repeat_request_max_entries (length (l.missing_acc_request_buf ++ i ∷ [])))) [
        | inl full ↦ rw full (record {
          maps = sym (append-nil l.missing_cmd_request_buf);
          finals =
              rw
                (
                  append-nil (l.missing_acc_request_buf ++ i ∷ []),
                  append-nil (l.missing_acc_request_buf ++ i ∷ []),
                )
                refl;
          sendable = ((omega (arith, n), omega (arith, n, h.1)), (tt, tt));
          room = (h.0, omega arith);
        })
        | inr less ↦ rw less (record {
          maps = sym (append-nil l.missing_cmd_request_buf);
          finals = refl;
          sendable = tt;
          room = (h.0, ground arith);
        })
      ]
on_dq_event-Asks post_check l h = record {
  maps =
      rw
        (
          maps_of_rest l.missing_cmd_request_buf
              (send_rest send_chosenval_requests l.missing_acc_request_buf ++ flush ∷ []),
          maps_of_finals l.missing_acc_request_buf (flush ∷ []),
          append-nil l.missing_cmd_request_buf,
        )
        (append-nil l.missing_cmd_request_buf);
  finals =
      rw
        (
          finals_of_maps l.missing_cmd_request_buf
              (send_rest send_chosenval_requests l.missing_acc_request_buf ++ flush ∷ []),
          finals_of_rest l.missing_acc_request_buf (flush ∷ []),
          append-nil l.missing_acc_request_buf,
        )
        (append-nil l.missing_acc_request_buf);
  sendable =
      All-append IsSendable _ _
        (rest-IsSendable send_map_requests l.missing_cmd_request_buf (λ p. (p, omega (arith, h.0))))
        (All-append IsSendable _ _
          (rest-IsSendable send_chosenval_requests l.missing_acc_request_buf
            (λ p. (p, omega (arith, h.1))))
          (tt, tt));
  room = (omega arith, omega arith);
}

-- Two steps of a list that is taken over in parts.
carry_over :
    {A : Type 0} (a1 a2 b0 b1 b2 m1 m2 : List A)
    → a1 ++ b1 ≡ b0 ++ m1
    → a2 ++ b2 ≡ b1 ++ m2
    → (a1 ++ a2) ++ b2 ≡ b0 ++ (m1 ++ m2)
carry_over a1 a2 b0 b1 b2 m1 m2 p q =
    append_assoc a1 a2 b2
    ∙ ap (λ x. a1 ++ x) q
    ∙ sym (append_assoc a1 b1 m2)
    ∙ ap (λ x. x ++ m2) p
    ∙ append_assoc b0 m1 m2

on_dq_events-Asks : (es : List DqEvent) (l : Missing) → HasRoom l → Asks l es (on_dq_events es l)
unfolding on_dq_events asked_maps asked_finals missing_maps missing_finals
on_dq_events-Asks [] l h = record {
  maps = sym (append-nil l.missing_cmd_request_buf);
  finals = sym (append-nil l.missing_acc_request_buf);
  sendable = tt;
  room = h;
}
on_dq_events-Asks (e ∷ es) l h =
    let a = on_dq_event-Asks e l h in
    let r = on_dq_event e l in
    let b = on_dq_events-Asks es r.0 a.room in
    let s = on_dq_events es r.0 in
    record {
      maps =
          rw (asked_maps-append r.1 s.1, missing_maps-cons e es)
            (carry_over (asked_maps r.1) (asked_maps s.1) l.missing_cmd_request_buf
              r.0.missing_cmd_request_buf s.0.missing_cmd_request_buf (missing_maps (e ∷ []))
              (missing_maps es) a.maps b.maps);
      finals =
          rw (asked_finals-append r.1 s.1, missing_finals-cons e es)
            (carry_over (asked_finals r.1) (asked_finals s.1) l.missing_acc_request_buf
              r.0.missing_acc_request_buf s.0.missing_acc_request_buf (missing_finals (e ∷ []))
              (missing_finals es) a.finals b.finals);
      sendable = All-append IsSendable r.1 s.1 a.sendable b.sendable;
      room = b.room;
    }

post_check-last :
    (es : List DqEvent) (l : Missing)
    → ((on_dq_events (es ++ post_check ∷ []) l).0.missing_cmd_request_buf ≡ [])
      × ((on_dq_events (es ++ post_check ∷ []) l).0.missing_acc_request_buf ≡ [])
unfolding on_dq_events on_dq_event post_delivery_check
post_check-last [] l = (refl, refl)
post_check-last (e ∷ es) l = post_check-last es (on_dq_event e l).0

-- A check of the delivery queue that ends with its post-check, run with empty buffers, leaves them
-- empty; the mappings and the final values that are asked for are exactly the ones that were
-- reported missing, in order, and each message asks for at least one and is not too long to be
-- sent.
pub on_dq_events_lem :
    (es : List DqEvent)
    → let r =
        on_dq_events
          (es ++ post_check ∷ [])
          (record { missing_cmd_request_buf = []; missing_acc_request_buf = [] }) in
      (r.0 ≡ record { missing_cmd_request_buf = []; missing_acc_request_buf = [] })
      × (asked_maps r.1 ≡ missing_maps (es ++ post_check ∷ []))
      × (asked_finals r.1 ≡ missing_finals (es ++ post_check ∷ []))
      × All IsSendable r.1
on_dq_events_lem es =
    let l : Missing = record { missing_cmd_request_buf = []; missing_acc_request_buf = [] } in
    let r = on_dq_events (es ++ post_check ∷ []) l in
    let a = on_dq_events-Asks (es ++ post_check ∷ []) l (omega arith, omega arith) in
    let (x, y) = post_check-last es l in
    (
      (λ j. record { missing_cmd_request_buf = x j; missing_acc_request_buf = y j }),
      (sym (append-nil (asked_maps r.1)) ∙ ap (λ b. asked_maps r.1 ++ b) (sym x) ∙ a.maps),
      (sym (append-nil (asked_finals r.1)) ∙ ap (λ b. asked_finals r.1 ++ b) (sym y) ∙ a.finals),
      a.sendable,
    )
