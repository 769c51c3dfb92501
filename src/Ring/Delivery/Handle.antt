-- ===== src/Ring/Delivery/Handle.antt =====
-- ring_paxos/lib/delivery_queue.c: the theorems on the two handlers.
use fds.Prelude.{
  ℕ, ◌+◌, ◌%◌, ◌≡◌, refl, sym, ap, ◌∙◌, List, [], true, false, some, arith, leb, Bool-cases, inl,
  inr, bytes_eq_refl,
}
use fds.Ring.Types.{CommandId, cmd_key_equals, cmd_key_equals→eq, cmd_key_equals_refl}
use fds.Ring.Delivery.{
  DqEntry, DeliveryQueue, Delivered, entry_of, slot_of, set_entry, set_slot, is_deliverable,
  start_late, save_mapping, save_acceptance, delivery_queue_handle_command_map,
  delivery_queue_handle_acceptance, max_of,
}
use fds.Ring.Delivery.Window.{IsEntry, IsQueue, numbered, write-IsQueue, set_entry-IsQueue}
use fds.Ring.Delivery.Loop.{Delivers, stopped, dq_deliver_loop_lem, Delivers-after}
use fds.Ring.Delivery.Found.{
  IsStalled, set_entry-IsStalled, IsFound, dq_get_entry-IsFound, IsEntry-write, found-final,
}

module _ (chosen : ℕ → CommandId) (value_of : CommandId → List ℕ) where
  write-Delivers :
      (dq : DeliveryQueue) (i : ℕ) (e : DqEntry) (v : List ℕ)
      → IsFound chosen value_of dq i
      → IsEntry chosen value_of dq.queue_size dq.highest_delivered (i % dq.queue_size) e v
      → is_deliverable e ≡ false
      → Delivers chosen value_of dq (set_slot (set_entry dq i e) i v, [])
  write-Delivers dq i e v f h d = Delivers-after chosen value_of refl refl (
      stopped chosen value_of (set_slot (set_entry dq i e) i v)
        (write-IsQueue chosen value_of dq i e v f.valid h)
        (set_entry-IsStalled dq i e f.stalled (λ _. d)))

  set_entry-Delivers :
      (dq : DeliveryQueue) (i : ℕ) (e : DqEntry)
      → IsFound chosen value_of dq i
      → IsEntry chosen value_of dq.queue_size dq.highest_delivered
          (i % dq.queue_size)
          e
          (slot_of dq i)
      → is_deliverable e ≡ false
      → Delivers chosen value_of dq (set_entry dq i e, [])
  set_entry-Delivers dq i e f h d = Delivers-after chosen value_of refl refl (
      stopped chosen value_of (set_entry dq i e)
        (set_entry-IsQueue chosen value_of dq i e f.valid h)
        (set_entry-IsStalled dq i e f.stalled (λ _. d)))

  save_mapping_lem :
      (dq : DeliveryQueue) (i : ℕ) (key : CommandId)
      → IsFound chosen value_of dq i
      → (r : Delivered) × (save_mapping i key (value_of key) dq ≡ some r)
        × Delivers chosen value_of dq r
  unfolding save_mapping
  save_mapping_lem dq i key f =
      let e = entry_of dq i in
      elim (Bool-cases e.has_mapping) [
        | inl m ↦ elim (Bool-cases e.has_final_value) [
          | inl c ↦ rw (c, m) ((dq, []), refl, stopped chosen value_of dq f.valid f.stalled)
          | inr c ↦ elim (Bool-cases (cmd_key_equals key e.cmd_key)) [
            | inl k ↦
                let same : slot_of dq i ≡ value_of key =
                  (f.valid.entries (i % dq.queue_size)).mapped m
                  ∙ ap value_of (sym (cmd_key_equals→eq key e.cmd_key k)) in
                rw (c, m, k, same, bytes_eq_refl (value_of key))
                  ((dq, []), refl, stopped chosen value_of dq f.valid f.stalled)
            | inr k ↦
                let e' = record e { cmd_key = key; has_mapping = true; has_final_value = false } in
                let h =
                  IsEntry-write chosen value_of dq i e' (value_of key) f refl (λ p. cc)
                    (λ _. refl) in
                rw (c, m, k) (_, refl, write-Delivers dq i e' (value_of key) f h refl)
          ]
        ]
        | inr m ↦ elim (Bool-cases e.has_final_value) [
          | inl c ↦ elim (Bool-cases (cmd_key_equals key e.cmd_key)) [
            | inl k ↦
                let e' = record e { has_mapping = true; has_final_value = true } in
                let h =
                  IsEntry-write chosen value_of dq i e' (value_of key) f refl
                    (λ _. found-final chosen value_of dq i f c)
                    (λ _. ap value_of (cmd_key_equals→eq key e.cmd_key k)) in
                let (r, run, o) =
                  dq_deliver_loop_lem chosen value_of
                    (set_slot (set_entry dq i e') i (value_of key))
                    (write-IsQueue chosen value_of dq i e' (value_of key) f.valid h) in
                rw (c, m, k, run) (r, refl, Delivers-after chosen value_of refl refl o)
            | inr k ↦ rw (c, m, k) ((dq, []), refl, stopped chosen value_of dq f.valid f.stalled)
          ]
          | inr c ↦
              let e' = record e { cmd_key = key; has_mapping = true; has_final_value = false } in
              let h =
                IsEntry-write chosen value_of dq i e' (value_of key) f refl (λ p. cc) (λ _. refl) in
              rw (c, m) (_, refl, write-Delivers dq i e' (value_of key) f h refl)
        ]
      ]

  save_acceptance_lem :
      (dq : DeliveryQueue) (i : ℕ)
      → IsFound chosen value_of dq i
      → (r : Delivered) × (save_acceptance i (chosen i) dq ≡ some r) × Delivers chosen value_of dq r
  unfolding save_acceptance
  save_acceptance_lem dq i f =
      let e = entry_of dq i in
      elim (Bool-cases e.has_mapping) [
        | inl m ↦ elim (Bool-cases e.has_final_value) [
          | inl c ↦
              rw (c, m, found-final chosen value_of dq i f c, cmd_key_equals_refl (chosen i))
                ((dq, []), refl, stopped chosen value_of dq f.valid f.stalled)
          | inr c ↦ elim (Bool-cases (cmd_key_equals e.cmd_key (chosen i))) [
            | inl k ↦
                let e' = record e { has_mapping = true; has_final_value = true } in
                let h =
                  IsEntry-write chosen value_of dq i e' (slot_of dq i) f refl
                    (λ _. cmd_key_equals→eq e.cmd_key (chosen i) k)
                    (λ _. (f.valid.entries (i % dq.queue_size)).mapped m) in
                let (r, run, o) =
                  dq_deliver_loop_lem chosen value_of (set_entry dq i e')
                    (set_entry-IsQueue chosen value_of dq i e' f.valid h) in
                rw (c, m, k, run) (r, refl, Delivers-after chosen value_of refl refl o)
            | inr k ↦
                let e' = record e {
                  cmd_key = chosen i;
                  has_mapping = false;
                  has_final_value = false;
                } in
                let h =
                  IsEntry-write chosen value_of dq i e' (slot_of dq i) f refl (λ _. refl)
                    (λ p. cc) in
                rw (c, m, k) (_, refl, set_entry-Delivers dq i e' f h refl)
          ]
        ]
        | inr m ↦ elim (Bool-cases e.has_final_value) [
          | inl c ↦
              rw (c, m, found-final chosen value_of dq i f c, cmd_key_equals_refl (chosen i))
                ((dq, []), refl, stopped chosen value_of dq f.valid f.stalled)
          | inr c ↦
              let e' = record e {
                cmd_key = chosen i;
                has_mapping = false;
                has_final_value = true;
              } in
              let h =
                IsEntry-write chosen value_of dq i e' (slot_of dq i) f refl (λ _. refl) (λ p. cc) in
              rw (c, m) (_, refl, set_entry-Delivers dq i e' f h refl)
        ]
      ]

  pub start_late_lem : (dq : DeliveryQueue) (i : ℕ) → dq.late_start ≡ false → start_late i dq ≡ dq
  unfolding start_late
  start_late_lem dq i h = rw h refl

  -- The fields that record what was seen play no part.
  pub seen-IsQueue :
      (dq : DeliveryQueue) (closed cmdmap : ℕ)
      → IsQueue chosen value_of dq
      → IsQueue chosen value_of
          (record dq { highest_seen_closed = closed; highest_seen_cmdmap = cmdmap })
  seen-IsQueue dq closed cmdmap q = record {
    positive = q.positive;
    started = q.started;
    entries = q.entries;
  }

  -- A mapping of a key to its value: no assertion fails.
  pub handle_command_map-Delivers :
      (dq : DeliveryQueue) (i : ℕ) (key : CommandId)
      → IsQueue chosen value_of dq
      → IsStalled dq
      → (r : Delivered) × (delivery_queue_handle_command_map i key (value_of key) dq ≡ some r)
        × Delivers chosen value_of dq r
  unfolding delivery_queue_handle_command_map
  handle_command_map-Delivers dq i key q s =
      elim (Bool-cases (leb (dq.highest_delivered + dq.queue_size) i)) [
        | inl far ↦
            rw (start_late_lem dq i q.started, far) ((dq, []), refl, stopped chosen value_of dq q s)
        | inr near ↦ elim (Bool-cases (leb i dq.highest_delivered)) [
          | inl old ↦
              rw (start_late_lem dq i q.started, near, old)
                ((dq, []), refl, stopped chosen value_of dq q s)
          | inr new ↦
              let dq' = record dq { highest_seen_cmdmap = max_of i dq.highest_seen_cmdmap } in
              let (e, f) =
                dq_get_entry-IsFound chosen value_of dq' i
                  (seen-IsQueue dq dq.highest_seen_closed (max_of i dq.highest_seen_cmdmap) q) s
                  (ground arith) (ground arith) in
              let (r, run, o) =
                save_mapping_lem (set_entry dq' i (numbered chosen value_of dq' i)) i key f in
              rw (start_late_lem dq i q.started, near, new, e, run)
                (r, refl, Delivers-after chosen value_of refl refl o)
        ]
      ]

  -- An acceptance of the chosen key: no assertion fails.
  pub handle_acceptance-Delivers :
      (dq : DeliveryQueue) (i : ℕ)
      → IsQueue chosen value_of dq
      → IsStalled dq
      → (r : Delivered) × (delivery_queue_handle_acceptance i (chosen i) dq ≡ some r)
        × Delivers chosen value_of dq r
  unfolding delivery_queue_handle_acceptance
  handle_acceptance-Delivers dq i q s =
      let dq' = record dq { highest_seen_closed = max_of i dq.highest_seen_closed } in
      let q' = seen-IsQueue dq (max_of i dq.highest_seen_closed) dq.highest_seen_cmdmap q in
      elim (Bool-cases (leb (dq.highest_delivered + dq.queue_size) i)) [
        | inl far ↦
            rw (start_late_lem dq i q.started, far)
              (
                (dq', []),
                refl,
                Delivers-after chosen value_of refl refl (stopped chosen value_of dq' q' s),
              )
        | inr near ↦ elim (Bool-cases (leb i dq.highest_delivered)) [
          | inl old ↦
              rw (start_late_lem dq i q.started, near, old)
                (
                  (dq', []),
                  refl,
                  Delivers-after chosen value_of refl refl (stopped chosen value_of dq' q' s),
                )
          | inr new ↦
              let (e, f) =
                dq_get_entry-IsFound chosen value_of dq' i q' s (ground arith) (ground arith) in
              let (r, run, o) =
                save_acceptance_lem (set_entry dq' i (numbered chosen value_of dq' i)) i f in
              rw (start_late_lem dq i q.started, near, new, e, run)
                (r, refl, Delivers-after chosen value_of refl refl o)
        ]
      ]
