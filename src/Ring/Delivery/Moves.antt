-- ===== src/Ring/Delivery/Moves.antt =====
-- ring_paxos/lib/delivery_queue.c: `dq_deliver_loop` where the next instance is deliverable.
use fds.Prelude.{ℕ, zero, suc, ◌+◌, ◌%◌, ◌≤◌, ◌<◌, ◌≡◌, refl, List, true, some, arith, update_same}
use fds.Ring.Types.{CommandId}
use fds.Ring.Delivery.{
  DeliveryQueue, Delivered, entry_of, set_entry, is_deliverable, deliver_rounds, dq_deliver_loop,
}
use fds.Ring.Delivery.Window.{IsQueue, numbered, dq_get_entry_lem}
use fds.Ring.Delivery.Loop.{
  IsBounded, deliverable-number, next-number, deliver_one_lem, deliver_rounds_lem,
}

module _ (chosen : ℕ → CommandId) (value_of : CommandId → List ℕ) where
  deliver_rounds-moves :
      (n last : ℕ) (dq : DeliveryQueue)
      → IsQueue chosen value_of dq
      → IsBounded last dq
      → last ≤ dq.highest_delivered + n
      → is_deliverable (entry_of dq (dq.highest_delivered + 1)) ≡ true
      → (r : Delivered) × (deliver_rounds n dq ≡ some r)
        × (dq.highest_delivered < r.0.highest_delivered)
  unfolding deliver_rounds
  deliver_rounds-moves zero last dq q b le d =
      let m = next-number chosen value_of dq q d in
      let k = b _ d in absurd (omega (arith, m, k, le))
  deliver_rounds-moves (suc n) last dq q b le d =
      let (dq', e, q', b', h', s') = deliver_one_lem chosen value_of last dq q b in
      let (r, e', o) =
        deliver_rounds_lem chosen value_of n last dq' q' b' (omega (arith, le, h')) in
      rw (d, deliver_rounds, e, e') (_, refl, omega (arith, o.moved, h'))

  -- A deliverable instance is delivered.
  pub dq_deliver_loop-moves :
      (dq : DeliveryQueue)
      → IsQueue chosen value_of dq
      → is_deliverable (entry_of dq (dq.highest_delivered + 1)) ≡ true
      → (r : Delivered) × (dq_deliver_loop dq ≡ some r)
        × (dq.highest_delivered < r.0.highest_delivered)
  unfolding dq_deliver_loop
  dq_deliver_loop-moves dq q d =
      let (e, v) =
        dq_get_entry_lem chosen value_of dq (dq.highest_delivered + 1) q (omega arith)
          (omega (arith, q.positive)) in
      let e1 = numbered chosen value_of dq (dq.highest_delivered + 1) in
      let dq' = set_entry dq (dq.highest_delivered + 1) e1 in
      let (r, e', o) =
        deliver_rounds-moves dq.queue_size (dq.highest_delivered + dq.queue_size) dq' v
          (λ j d. (v.entries j).below (deliverable-number chosen value_of dq' j v d)) (omega arith)
          (rw (update_same dq.queue_array ((dq.highest_delivered + 1) % dq.queue_size) e1) d) in
      rw (e, e') (r, refl, o)
