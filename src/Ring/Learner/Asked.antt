-- ===== src/Ring/Learner/Asked.antt =====
-- What the delivery queue of ring_paxos misses, and what its learner asks for.
use fds.Prelude.{ℕ, ◌≤◌, ◌<◌, ◌≡◌, refl, sym, List, [], ◌∷◌, ◌++◌, append_assoc, length}
use fds.Ring.Network.{max_message_size}
use fds.Ring.Delivery.Periodic.{DqEvent, missing_cmdmap, missing_acceptance, post_check}
use fds.Ring.Learner.{
  LearnerEvent, send_map_requests, send_chosenval_requests, flush, requests_msg_size,
}

-- The instances that the queue misses.
unfoldable pub missing_maps : List DqEvent → List ℕ
missing_maps [] = []
missing_maps (missing_cmdmap i ∷ es) = i ∷ missing_maps es
missing_maps (missing_acceptance i ∷ es) = missing_maps es
missing_maps (post_check ∷ es) = missing_maps es

unfoldable pub missing_finals : List DqEvent → List ℕ
missing_finals [] = []
missing_finals (missing_cmdmap i ∷ es) = missing_finals es
missing_finals (missing_acceptance i ∷ es) = i ∷ missing_finals es
missing_finals (post_check ∷ es) = missing_finals es

-- The instances that were asked for.
unfoldable pub asked_maps : List LearnerEvent → List ℕ
asked_maps [] = []
asked_maps (send_map_requests is ∷ es) = is ++ asked_maps es
asked_maps (send_chosenval_requests is ∷ es) = asked_maps es
asked_maps (flush ∷ es) = asked_maps es

unfoldable pub asked_finals : List LearnerEvent → List ℕ
asked_finals [] = []
asked_finals (send_map_requests is ∷ es) = asked_finals es
asked_finals (send_chosenval_requests is ∷ es) = is ++ asked_finals es
asked_finals (flush ∷ es) = asked_finals es

-- A message that asks for something, and that `net_send_udp` takes.
abbrev pub IsSendable : LearnerEvent → Type 0
IsSendable (send_map_requests is) = (0 < length is) × (requests_msg_size is ≤ max_message_size)
IsSendable (send_chosenval_requests is) =
    (0 < length is) × (requests_msg_size is ≤ max_message_size)
IsSendable flush = Unit

pub asked_maps-append :
    (xs ys : List LearnerEvent) → asked_maps (xs ++ ys) ≡ asked_maps xs ++ asked_maps ys
unfolding asked_maps
asked_maps-append [] ys = refl
asked_maps-append (send_map_requests is ∷ xs) ys =
    rw (asked_maps-append xs ys) (sym (append_assoc is (asked_maps xs) (asked_maps ys)))
asked_maps-append (send_chosenval_requests is ∷ xs) ys = asked_maps-append xs ys
asked_maps-append (flush ∷ xs) ys = asked_maps-append xs ys

pub asked_finals-append :
    (xs ys : List LearnerEvent) → asked_finals (xs ++ ys) ≡ asked_finals xs ++ asked_finals ys
unfolding asked_finals
asked_finals-append [] ys = refl
asked_finals-append (send_map_requests is ∷ xs) ys = asked_finals-append xs ys
asked_finals-append (send_chosenval_requests is ∷ xs) ys =
    rw (asked_finals-append xs ys) (sym (append_assoc is (asked_finals xs) (asked_finals ys)))
asked_finals-append (flush ∷ xs) ys = asked_finals-append xs ys

pub missing_maps-cons :
    (e : DqEvent) (es : List DqEvent)
    → missing_maps (e ∷ es) ≡ missing_maps (e ∷ []) ++ missing_maps es
unfolding missing_maps
missing_maps-cons (missing_cmdmap i) es = refl
missing_maps-cons (missing_acceptance i) es = refl
missing_maps-cons post_check es = refl

pub missing_finals-cons :
    (e : DqEvent) (es : List DqEvent)
    → missing_finals (e ∷ es) ≡ missing_finals (e ∷ []) ++ missing_finals es
unfolding missing_finals
missing_finals-cons (missing_cmdmap i) es = refl
missing_finals-cons (missing_acceptance i) es = refl
missing_finals-cons post_check es = refl
