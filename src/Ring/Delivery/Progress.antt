-- ===== src/Ring/Delivery/Progress.antt =====
-- ring_paxos/lib/delivery_queue.c: a mapping and an acceptance of the next instance.
use fds.Prelude.{
  ℕ, ◌+◌, ◌%◌, ◌<◌, ◌≡◌, ◌⊎◌, refl, sym, ap, ◌∙◌, subst, List, [], true, false, some, arith, leb,
  update_same, Bool-cases, inl, inr, bytes_eq_refl, some-injective,
}
use fds.Ring.Types.{CommandId, cmd_key_equals, cmd_key_equals→eq, cmd_key_equals_refl}
use fds.Ring.Delivery.{
  DeliveryQueue, Delivered, entry_of, slot_of, set_entry, set_slot, is_deliverable, save_mapping,
  save_acceptance, delivery_queue_handle_command_map, delivery_queue_handle_acceptance, max_of,
}
use fds.Ring.Delivery.Window.{IsQueue, numbered, set_entry-IsQueue, write-IsQueue}
use fds.Ring.Delivery.Loop.{Delivers}
use fds.Ring.Delivery.Moves.{dq_deliver_loop-moves}
use fds.Ring.Delivery.Handle.{
  start_late_lem, seen-IsQueue, handle_acceptance-Delivers, handle_command_map-Delivers,
}
use fds.Ring.Delivery.Found.{IsStalled, IsFound, IsEntry-write, dq_get_entry-IsFound, found-final}

module _ (chosen : ℕ → CommandId) (value_of : CommandId → List ℕ) where
  -- The entry of the next instance holds the mapping of the chosen key.
  record HasMapping (dq : DeliveryQueue) (i : ℕ) : Type 0 where
    mapped : (entry_of dq i).has_mapping ≡ true
    key : (entry_of dq i).cmd_key ≡ chosen i

  stalled-final :
      (dq : DeliveryQueue) (i : ℕ)
      → i ≡ dq.highest_delivered + 1
      → IsStalled dq
      → (entry_of dq i).has_mapping ≡ true
      → (entry_of dq i).has_final_value ≡ false
  stalled-final dq i n s m = let t : is_deliverable (entry_of dq i) ≡ false = rw n s in rw m at t

  save_acceptance-moves :
      (dq : DeliveryQueue) (i : ℕ)
      → i ≡ dq.highest_delivered + 1
      → IsFound chosen value_of dq i
      → HasMapping dq i
      → (r : Delivered) × (save_acceptance i (chosen i) dq ≡ some r)
        × (dq.highest_delivered < r.0.highest_delivered)
  unfolding save_acceptance
  save_acceptance-moves dq i n f h =
      let e' = record (entry_of dq i) {
        has_mapping = true;
        has_final_value = true;
        cmd_key = chosen i;
      } in
      let w =
        IsEntry-write chosen value_of dq i e' (slot_of dq i) f refl (λ _. refl)
          (λ _. (f.valid.entries (i % dq.queue_size)).mapped h.mapped ∙ ap value_of h.key) in
      let d : is_deliverable (entry_of (set_entry dq i e') (dq.highest_delivered + 1)) ≡ true =
        subst (λ j. is_deliverable (entry_of (set_entry dq i e') j) ≡ true) n
          (rw (update_same dq.queue_array (i % dq.queue_size) e') refl) in
      let (r, run, o) =
        dq_deliver_loop-moves chosen value_of (set_entry dq i e')
          (set_entry-IsQueue chosen value_of dq i e' f.valid w) d in
      rw
        (
          stalled-final dq i n f.stalled h.mapped,
          h.mapped,
          h.key,
          cmd_key_equals_refl (chosen i),
          run,
        )
        (r, refl, o)

  handle_acceptance-moves :
      (dq : DeliveryQueue) (i : ℕ)
      → i ≡ dq.highest_delivered + 1
      → 1 < dq.queue_size
      → IsQueue chosen value_of dq
      → IsStalled dq
      → HasMapping dq i
      → (r : Delivered) × (delivery_queue_handle_acceptance i (chosen i) dq ≡ some r)
        × (dq.highest_delivered < r.0.highest_delivered)
  unfolding delivery_queue_handle_acceptance
  handle_acceptance-moves dq i n size q s h =
      let dq' = record dq { highest_seen_closed = max_of i dq.highest_seen_closed } in
      let e1 = numbered chosen value_of dq' i in
      let near : leb (dq.highest_delivered + dq.queue_size) i ≡ false = ground arith in
      let new : leb i dq.highest_delivered ≡ false = ground arith in
      let (e, f) =
        dq_get_entry-IsFound chosen value_of dq' i
          (seen-IsQueue chosen value_of dq (max_of i dq.highest_seen_closed) dq.highest_seen_cmdmap
            q)
          s (omega (arith, n)) (omega (arith, n, size)) in
      let same = update_same dq.queue_array (i % dq.queue_size) e1 in
      let (r, run, o) =
        save_acceptance-moves (set_entry dq' i e1) i n f
          (record { mapped = rw same h.mapped; key = rw same h.key }) in
      rw (start_late_lem chosen value_of dq i q.started, near, new, e, run) (r, refl, o)

  -- The instance is delivered, or its mapping is held.
  IsMapped : DeliveryQueue → ℕ → Delivered → Type 0
  IsMapped dq i r =
      (dq.highest_delivered < r.0.highest_delivered)
      ⊎ ((r.0.highest_delivered ≡ dq.highest_delivered)
          × (r.0.queue_size ≡ dq.queue_size)
          × HasMapping r.0 i)

  save_mapping-IsMapped :
      (dq : DeliveryQueue) (i : ℕ)
      → i ≡ dq.highest_delivered + 1
      → IsFound chosen value_of dq i
      → (r : Delivered) × (save_mapping i (chosen i) (value_of (chosen i)) dq ≡ some r)
        × IsMapped dq i r
  unfolding save_mapping IsMapped
  save_mapping-IsMapped dq i n f =
      let e = entry_of dq i in
      let v = value_of (chosen i) in
      let saved = record e { cmd_key = chosen i; has_mapping = true; has_final_value = false } in
      let place = update_same dq.queue_array (i % dq.queue_size) saved in
      let held : HasMapping (set_slot (set_entry dq i saved) i v) i = record {
        mapped = rw place refl;
        key = rw place refl;
      } in
      elim (Bool-cases e.has_mapping) [
        | inl m ↦ elim (Bool-cases (cmd_key_equals (chosen i) e.cmd_key)) [
          | inl k ↦
              let key = sym (cmd_key_equals→eq (chosen i) e.cmd_key k) in
              let same : slot_of dq i ≡ v =
                (f.valid.entries (i % dq.queue_size)).mapped m ∙ ap value_of key in
              rw (stalled-final dq i n f.stalled m, m, k, same, bytes_eq_refl v)
                ((dq, []), refl, inr (refl, refl, record { mapped = m; key = key }))
          | inr k ↦ rw (stalled-final dq i n f.stalled m, m, k) (_, refl, inr (refl, refl, held))
        ]
        | inr m ↦ elim (Bool-cases e.has_final_value) [
          | inr c ↦ rw (c, m) (_, refl, inr (refl, refl, held))
          | inl c ↦
              let e' = record e {
                has_mapping = true;
                has_final_value = true;
                cmd_key = chosen i;
              } in
              let w = IsEntry-write chosen value_of dq i e' v f refl (λ _. refl) (λ _. refl) in
              let d : is_deliverable
                    (entry_of (set_slot (set_entry dq i e') i v) (dq.highest_delivered + 1))
                  ≡ true =
                subst (λ j. is_deliverable (entry_of (set_entry dq i e') j) ≡ true) n
                  (rw (update_same dq.queue_array (i % dq.queue_size) e') refl) in
              let (r, run, o) =
                dq_deliver_loop-moves chosen value_of (set_slot (set_entry dq i e') i v)
                  (write-IsQueue chosen value_of dq i e' v f.valid w) d in
              rw (c, m, found-final chosen value_of dq i f c, cmd_key_equals_refl (chosen i), run)
                (r, refl, inl o)
        ]
      ]

  handle_command_map-IsMapped :
      (dq : DeliveryQueue) (i : ℕ)
      → i ≡ dq.highest_delivered + 1
      → 1 < dq.queue_size
      → IsQueue chosen value_of dq
      → IsStalled dq
      → (r : Delivered) × (delivery_queue_handle_command_map i (chosen i) (value_of (chosen i)) dq
          ≡ some r)
        × IsMapped dq i r
  unfolding delivery_queue_handle_command_map IsMapped
  handle_command_map-IsMapped dq i n size q s =
      let dq' = record dq { highest_seen_cmdmap = max_of i dq.highest_seen_cmdmap } in
      let e1 = numbered chosen value_of dq' i in
      let near : leb (dq.highest_delivered + dq.queue_size) i ≡ false = ground arith in
      let new : leb i dq.highest_delivered ≡ false = ground arith in
      let (e, f) =
        dq_get_entry-IsFound chosen value_of dq' i
          (seen-IsQueue chosen value_of dq dq.highest_seen_closed (max_of i dq.highest_seen_cmdmap)
            q)
          s (omega (arith, n)) (omega (arith, n, size)) in
      let (r, run, o) = save_mapping-IsMapped (set_entry dq' i e1) i n f in
      rw (start_late_lem chosen value_of dq i q.started, near, new, e, run) (r, refl, o)

  -- A mapping and then an acceptance of the next instance move the queue on.
  pub mapping_then_acceptance_lem :
      (dq : DeliveryQueue) (i : ℕ)
      → i ≡ dq.highest_delivered + 1
      → 1 < dq.queue_size
      → IsQueue chosen value_of dq
      → IsStalled dq
      → (r : Delivered) × (s : Delivered) × (delivery_queue_handle_command_map i
            (chosen i)
            (value_of (chosen i))
            dq
          ≡ some r)
        × (delivery_queue_handle_acceptance i (chosen i) r.0 ≡ some s)
        × (dq.highest_delivered < s.0.highest_delivered)
        × Delivers chosen value_of r.0 s
  unfolding IsMapped
  mapping_then_acceptance_lem dq i n size q s =
      let (r, run, o) = handle_command_map-Delivers chosen value_of dq i (chosen i) q s in
      let (a, acc, oa) = handle_acceptance-Delivers chosen value_of r.0 i o.valid o.stalled in
      let (r', run', m) = handle_command_map-IsMapped dq i n size q s in
      let same : r' ≡ r = some-injective (sym run' ∙ run) in
      elim m [
        | inl moved ↦ (
          r,
          a,
          run,
          acc,
          omega (
            arith,
            oa.moved,
            subst (λ r. dq.highest_delivered < r.0.highest_delivered) same moved,
          ),
          oa,
        )
        | inr held ↦
            let (h, z, m) =
              subst
                (λ r.
                  (r.0.highest_delivered ≡ dq.highest_delivered)
                  × (r.0.queue_size ≡ dq.queue_size)
                  × HasMapping r.0 i)
                same held in
            let (a', acc', moved) =
              handle_acceptance-moves r.0 i (omega (arith, n, h)) (omega (arith, size, z)) o.valid
                o.stalled m in
            let same : a' ≡ a = some-injective (sym acc' ∙ acc) in
            (
              r,
              a,
              run,
              acc,
              omega
                  (arith, h, subst (λ a. r.0.highest_delivered < a.0.highest_delivered) same moved),
              oa,
            )
      ]
