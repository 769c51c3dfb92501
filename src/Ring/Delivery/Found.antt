-- ===== src/Ring/Delivery/Found.antt =====
-- ring_paxos/lib/delivery_queue.c: the entry of an instance in the window, found and written.
use fds.Prelude.{
  ℕ, ◌+◌, ◌%◌, ◌≤◌, ◌<◌, ◌≡◌, refl, sym, ap, ◌∙◌, subst, List, true, false, some, arith, update,
  update_same, update_other, ℕ_discrete,
}
use fds.Ring.Types.{CommandId}
use fds.Ring.Delivery.{DqEntry, DeliveryQueue, entry_of, set_entry, dq_get_entry, is_deliverable}
use fds.Ring.Delivery.Window.{IsEntry, IsQueue, numbered, dq_get_entry_lem}

-- The next instance cannot be delivered yet.
abbrev pub IsStalled : DeliveryQueue → Type 0
IsStalled dq = is_deliverable (entry_of dq (dq.highest_delivered + 1)) ≡ false

pub set_entry-IsStalled :
    (dq : DeliveryQueue) (i : ℕ) (e : DqEntry)
    → IsStalled dq
    → (i % dq.queue_size ≡ (dq.highest_delivered + 1) % dq.queue_size → is_deliverable e ≡ false)
    → IsStalled (set_entry dq i e)
set_entry-IsStalled dq i e s h =
    elim (ℕ_discrete (i % dq.queue_size) ((dq.highest_delivered + 1) % dq.queue_size)) [
      | yes p ↦
          subst (λ j. is_deliverable (update dq.queue_array (i % dq.queue_size) e j) ≡ false) p
            (rw (update_same dq.queue_array (i % dq.queue_size) e) (h p))
      | no n ↦
          rw
            (update_other dq.queue_array (i % dq.queue_size)
              ((dq.highest_delivered + 1) % dq.queue_size) e n)
            s
    ]

module _ (chosen : ℕ → CommandId) (value_of : CommandId → List ℕ) where
  -- The entry that `dq_get_entry` has found for `i`, an instance in the window.
  pub record IsFound (dq : DeliveryQueue) (i : ℕ) : Type 0 where
    pub valid : IsQueue chosen value_of dq
    pub stalled : IsStalled dq
    pub number : (entry_of dq i).inst_number ≡ i
    pub lo : dq.highest_delivered < i
    pub hi : i ≤ dq.highest_delivered + dq.queue_size

  pub dq_get_entry-IsFound :
      (dq : DeliveryQueue) (i : ℕ)
      → IsQueue chosen value_of dq
      → IsStalled dq
      → dq.highest_delivered < i
      → i ≤ dq.highest_delivered + dq.queue_size
      → (dq_get_entry i dq ≡ some (set_entry dq i (numbered chosen value_of dq i)))
        × IsFound (set_entry dq i (numbered chosen value_of dq i)) i
  dq_get_entry-IsFound dq i q s lo hi =
      let (e, v) = dq_get_entry_lem chosen value_of dq i q lo hi in
      (
        e,
        record {
          valid = v;
          stalled =
              set_entry-IsStalled dq i (numbered chosen value_of dq i) s
                (λ p. subst (λ j. is_deliverable (dq.queue_array j) ≡ false) (sym p) s);
          number =
              rw (update_same dq.queue_array (i % dq.queue_size) (numbered chosen value_of dq i))
                refl;
          lo = lo;
          hi = hi;
        },
      )

  -- An entry of a valid number, with new contents.
  pub IsEntry-write :
      (dq : DeliveryQueue) (i : ℕ) (e : DqEntry) (v : List ℕ)
      → IsFound dq i
      → e.inst_number ≡ (entry_of dq i).inst_number
      → (e.has_final_value ≡ true → e.cmd_key ≡ chosen i)
      → (e.has_mapping ≡ true → v ≡ value_of e.cmd_key)
      → IsEntry chosen value_of dq.queue_size dq.highest_delivered (i % dq.queue_size) e v
  IsEntry-write dq i e v f same k m =
      let n = same ∙ f.number in
      record {
        idle = λ z. absurd (omega (arith, n, z, f.lo));
        placed = λ _. ap (λ x. x % dq.queue_size) n;
        above = λ _. omega (arith, n, f.lo);
        below = λ _. omega (arith, n, f.hi);
        final = λ p. k p ∙ ap chosen (sym n);
        mapped = m;
      }

  -- The contents of the entry that was found.
  pub found-final :
      (dq : DeliveryQueue) (i : ℕ)
      → IsFound dq i
      → (entry_of dq i).has_final_value ≡ true
      → (entry_of dq i).cmd_key ≡ chosen i
  found-final dq i f p = (f.valid.entries (i % dq.queue_size)).final p ∙ ap chosen f.number
