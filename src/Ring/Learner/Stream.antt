-- ===== src/Ring/Learner/Stream.antt =====
-- What a learner of ring_paxos delivers.
use fds.Prelude.{
  ℕ, suc, ◌+◌, ◌-◌, some-injective, ◌<◌, ◌≡◌, refl, sym, ap, ap₂, ◌∙◌, List, [], ◌∷◌, ◌++◌, some,
  All, arith,
}
use fds.Ring.Types.{CommandId}
use fds.Ring.Delivery.{DeliveryQueue, Delivered, delivery_queue_init}
use fds.Ring.Delivery.Window.{IsQueue, init-IsQueue}
use fds.Ring.Delivery.Loop.{
  Delivers, stream, stream-append, stopped, dq_deliver_loop_lem, Delivers-after,
}
use fds.Ring.Delivery.Handle.{handle_command_map-Delivers, handle_acceptance-Delivers}
use fds.Ring.Delivery.Found.{IsStalled}
use fds.Ring.Delivery.Check.{dq_periodic_check-Checked}
use fds.Ring.Delivery.Progress.{mapping_then_acceptance_lem}
use fds.Ring.Learner.{
  McastMsg, LearnerStep, packet, check, on_step, command_map_msg, acceptance_msg, other_msg,
  on_mcast_msg, followed_by, on_packet, on_steps,
}

module _ (chosen : ℕ → CommandId) (value_of : CommandId → List ℕ) where
  -- What the protocol promises: a mapping carries the value of its key, an acceptance the key that
  -- is chosen.
  abbrev pub IsPromised : McastMsg → Type 0
  IsPromised (command_map_msg i k v) = v ≡ value_of k
  IsPromised (acceptance_msg i k) = k ≡ chosen i
  IsPromised other_msg = Unit

  on_mcast_msg-Delivers :
      (m : McastMsg) (dq : DeliveryQueue)
      → IsPromised m
      → IsQueue chosen value_of dq
      → IsStalled dq
      → (r : Delivered) × (on_mcast_msg m dq ≡ some r) × Delivers chosen value_of dq r
  unfolding on_mcast_msg
  on_mcast_msg-Delivers (command_map_msg i k v) dq h q s =
      rw h (handle_command_map-Delivers chosen value_of dq i k q s)
  on_mcast_msg-Delivers (acceptance_msg i k) dq h q s =
      rw h (handle_acceptance-Delivers chosen value_of dq i q s)
  on_mcast_msg-Delivers other_msg dq h q s = ((dq, []), refl, stopped chosen value_of dq q s)

  Delivers-trans :
      {dq : DeliveryQueue} {r s : Delivered}
      → Delivers chosen value_of dq r
      → Delivers chosen value_of r.0 s
      → Delivers chosen value_of dq (s.0, r.1 ++ s.1)
  Delivers-trans {dq} a b = record {
    count = a.count + b.count;
    moved = omega (arith, a.moved, b.moved);
    values =
        rw (a.values, b.values, a.moved)
          (sym (stream-append chosen value_of dq.highest_delivered a.count b.count));
    valid = b.valid;
    sized = b.sized ∙ a.sized;
    stalled = b.stalled;
  }

  on_packet-Delivers :
      (ms : List McastMsg) (dq : DeliveryQueue)
      → All IsPromised ms
      → IsQueue chosen value_of dq
      → IsStalled dq
      → (r : Delivered) × (on_packet ms dq ≡ some r) × Delivers chosen value_of dq r
  unfolding on_packet followed_by
  on_packet-Delivers [] dq h q s = dq_deliver_loop_lem chosen value_of dq q
  on_packet-Delivers (m ∷ ms) dq h q s =
      let (r, e, o) = on_mcast_msg-Delivers m dq h.0 q s in
      let (r', e', o') = on_packet-Delivers ms r.0 h.1 o.valid o.stalled in
      rw (e, e') (_, refl, Delivers-trans o o')

  -- A packet of promised messages, or a check.
  abbrev pub IsPromisedStep : LearnerStep → Type 0
  IsPromisedStep (packet ms) = All IsPromised ms
  IsPromisedStep (check time_now) = Unit

  on_step-Delivers :
      (p : LearnerStep) (dq : DeliveryQueue)
      → IsPromisedStep p
      → IsQueue chosen value_of dq
      → IsStalled dq
      → (r : Delivered) × (on_step p dq ≡ some r) × Delivers chosen value_of dq r
  unfolding on_step
  on_step-Delivers (packet ms) dq h q s = on_packet-Delivers ms dq h q s
  on_step-Delivers (check time_now) dq h q s =
      let (r, e, c) = dq_periodic_check-Checked chosen value_of time_now dq q s in
      rw e (
        _,
        refl,
        Delivers-after chosen value_of c.delivered c.sized
            (stopped chosen value_of r.0 c.valid c.stalled),
      )

  on_steps-Delivers :
      (ps : List LearnerStep) (dq : DeliveryQueue)
      → All IsPromisedStep ps
      → IsQueue chosen value_of dq
      → IsStalled dq
      → (r : Delivered) × (on_steps ps dq ≡ some r) × Delivers chosen value_of dq r
  unfolding on_steps followed_by
  on_steps-Delivers [] dq h q s = ((dq, []), refl, stopped chosen value_of dq q s)
  on_steps-Delivers (p ∷ ps) dq h q s =
      let (r, e, o) = on_step-Delivers p dq h.0 q s in
      let (r', e', o') = on_steps-Delivers ps r.0 h.1 o.valid o.stalled in
      rw (e, e') (_, refl, Delivers-trans o o')

init-IsStalled : (working_set_size : ℕ) → IsStalled (delivery_queue_init working_set_size)
unfolding delivery_queue_init
init-IsStalled n = refl

init-delivered : (n : ℕ) → (delivery_queue_init n).highest_delivered ≡ 0
unfolding delivery_queue_init
init-delivered n = refl

-- From a new queue of any positive size, if every mapping carries the value that its key stands for
-- and every acceptance the key that is chosen for its instance, then packets of such messages in
-- any order, with losses and repetitions, and periodic checks between them fail no assertion, and
-- what is delivered is exactly the chosen values of the instances 1 to `highest_delivered`, in
-- order; the next instance is not deliverable.
pub on_steps-delivers :
    (chosen : ℕ → CommandId) (value_of : CommandId → List ℕ) (working_set_size : ℕ)
    (ps : List LearnerStep)
    → 0 < working_set_size
    → All (IsPromisedStep chosen value_of) ps
    → (r : Delivered) × (on_steps ps (delivery_queue_init working_set_size) ≡ some r)
      × (r.1 ≡ stream chosen value_of 0 r.0.highest_delivered)
      × IsStalled r.0
on_steps-delivers chosen value_of n ps pos h =
    let (r, e, o) =
      on_steps-Delivers chosen value_of ps (delivery_queue_init n) h
        (init-IsQueue chosen value_of n pos) (init-IsStalled n) in
    let all : r.0.highest_delivered ≡ o.count = omega (arith, o.moved, init-delivered n) in
    (r, e, o.values ∙ ap₂ (stream chosen value_of) (init-delivered n) (sym all), o.stalled)

init-size : (n : ℕ) → (delivery_queue_init n).queue_size ≡ n
unfolding delivery_queue_init
init-size n = refl

-- The mapping of the key that is chosen for an instance, and its acceptance.
unfoldable pub next_messages : (ℕ → CommandId) → (CommandId → List ℕ) → ℕ → List McastMsg
next_messages chosen value_of i =
    command_map_msg i (chosen i) (value_of (chosen i)) ∷ acceptance_msg i (chosen i) ∷ []

next-IsPromised :
    (chosen : ℕ → CommandId) (value_of : CommandId → List ℕ) (i : ℕ)
    → All (IsPromised chosen value_of) (next_messages chosen value_of i)
unfolding next_messages
next-IsPromised chosen value_of i = (refl, (refl, tt))

-- After any such packets and checks on a queue of at least two entries, a packet with the mapping of the
-- chosen key of the next instance, and its acceptance after it, is received without an assertion
-- failing, and delivers at least that instance's chosen value.
pub on_packet-progress :
    (chosen : ℕ → CommandId) (value_of : CommandId → List ℕ) (working_set_size : ℕ)
    (ps : List LearnerStep)
    → 1 < working_set_size
    → All (IsPromisedStep chosen value_of) ps
    → (r : Delivered) × (s : Delivered) × (more : ℕ) × (on_steps ps
          (delivery_queue_init working_set_size)
        ≡ some r)
      × (on_packet (next_messages chosen value_of (r.0.highest_delivered + 1)) r.0 ≡ some s)
      × (s.1 ≡ stream chosen value_of r.0.highest_delivered (suc more))
unfolding on_packet on_mcast_msg followed_by next_messages
on_packet-progress chosen value_of n ps pos h =
    let (r, e, o) =
      on_steps-Delivers chosen value_of ps (delivery_queue_init n) h
        (init-IsQueue chosen value_of n (omega arith)) (init-IsStalled n) in
    let i = r.0.highest_delivered + 1 in
    let (a, b, ea, eb, moved, ob) =
      mapping_then_acceptance_lem chosen value_of r.0 i refl (omega (arith, o.sized, init-size n))
        o.valid o.stalled in
    let (d, ed, od) = dq_deliver_loop_lem chosen value_of b.0 ob.valid in
    let (c, ec, oc) =
      on_packet-Delivers chosen value_of (next_messages chosen value_of i) r.0
        (next-IsPromised chosen value_of i) o.valid o.stalled in
    let run : on_packet (next_messages chosen value_of i) r.0 ≡ some (d.0, a.1 ++ (b.1 ++ d.1)) =
      rw (ea, eb, ed) refl in
    let same : c ≡ (d.0, a.1 ++ (b.1 ++ d.1)) = some-injective (sym ec ∙ run) in
    let last : c.0.highest_delivered ≡ d.0.highest_delivered =
      ap (λ c. c.0.highest_delivered) same in
    let count : oc.count ≡ suc (oc.count - 1) = omega (arith, oc.moved, od.moved, moved, last) in
    (r, c, oc.count - 1, e, ec, oc.values ∙ ap (stream chosen value_of r.0.highest_delivered) count)
