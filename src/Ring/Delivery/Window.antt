-- ===== src/Ring/Delivery/Window.antt =====
-- The invariant of the circular buffer in ring_paxos/lib/delivery_queue.c, with the routines that
-- find and write an entry.
use fds.Prelude.{
  ℕ, ◌+◌, ◌%◌, ◌≤◌, ◌<◌, ◌≡◌, ◌≢◌, refl, ap, ◌∙◌, subst, List, true, false, ◌||◌, some, arith, ltb,
  leb, ◌==◌, update, update_same, update_other, ℕ_discrete,
}
use fds.Ring.Types.{CommandId}
use fds.Ring.Delivery.{
  DqEntry, DeliveryQueue, delivery_queue_init, entry_of, slot_of, set_entry, set_slot, dq_get_entry,
}

-- Numbers of one window of length `q` with one residue are equal.
same_residue : (q h a b : ℕ) → 0 < q → a % q ≡ b % q → h < a → a ≤ h + q → h < b → b ≤ h + q → a ≡ b
same_residue q h a b hq e ha ha' hb hb' = grind arith

-- The key that is chosen for an instance, and the value that a key stands for.
module _ (chosen : ℕ → CommandId) (value_of : CommandId → List ℕ) where
  -- The entry and the slot at `j`, when instances to `highest_delivered` are delivered.
  pub record IsEntry (queue_size highest_delivered j : ℕ) (e : DqEntry) (slot : List ℕ)
      : Type 0 where
    pub idle : e.inst_number ≡ 0 → (e.has_mapping ≡ false) × (e.has_final_value ≡ false)
    pub placed : e.inst_number ≢ 0 → e.inst_number % queue_size ≡ j
    pub above : e.inst_number ≢ 0 → highest_delivered < e.inst_number
    pub below : e.inst_number ≢ 0 → e.inst_number ≤ highest_delivered + queue_size
    pub final : e.has_final_value ≡ true → e.cmd_key ≡ chosen e.inst_number
    pub mapped : e.has_mapping ≡ true → slot ≡ value_of e.cmd_key

  pub record IsQueue (dq : DeliveryQueue) : Type 0 where
    pub positive : 0 < dq.queue_size
    pub started : dq.late_start ≡ false
    pub entries :
        (j : ℕ)
        → IsEntry dq.queue_size dq.highest_delivered j (dq.queue_array j) (dq.cmd_slot_array j)

  pub init-IsQueue :
      (working_set_size : ℕ) → 0 < working_set_size → IsQueue (delivery_queue_init working_set_size)
  unfolding delivery_queue_init
  init-IsQueue q h = record {
    positive = h;
    started = refl;
    entries = λ j. record {
      idle = λ _. (refl, refl);
      placed = λ n. absurd (n refl);
      above = λ n. absurd (n refl);
      below = λ n. absurd (n refl);
      final = λ p. cc;
      mapped = λ p. cc;
    };
  }

  pub write-IsQueue :
      (dq : DeliveryQueue) (i : ℕ) (e : DqEntry) (v : List ℕ)
      → IsQueue dq
      → IsEntry dq.queue_size dq.highest_delivered (i % dq.queue_size) e v
      → IsQueue (set_slot (set_entry dq i e) i v)
  write-IsQueue dq i e v q h = record {
    positive = q.positive;
    started = q.started;
    entries = λ j. elim (ℕ_discrete (i % dq.queue_size) j) [
      | yes p ↦
          subst
            (λ j.
              IsEntry dq.queue_size dq.highest_delivered j
                (update dq.queue_array (i % dq.queue_size) e j)
                (update dq.cmd_slot_array (i % dq.queue_size) v j))
            p
            (rw
              (
                update_same dq.queue_array (i % dq.queue_size) e,
                update_same dq.cmd_slot_array (i % dq.queue_size) v,
              )
              h)
      | no n ↦
          rw
            (
              update_other dq.queue_array (i % dq.queue_size) j e n,
              update_other dq.cmd_slot_array (i % dq.queue_size) j v n,
            )
            (q.entries j)
    ];
  }

  pub set_entry-IsQueue :
      (dq : DeliveryQueue) (i : ℕ) (e : DqEntry)
      → IsQueue dq
      → IsEntry dq.queue_size dq.highest_delivered (i % dq.queue_size) e (slot_of dq i)
      → IsQueue (set_entry dq i e)
  set_entry-IsQueue dq i e q h = record {
    positive = q.positive;
    started = q.started;
    entries = λ j. elim (ℕ_discrete (i % dq.queue_size) j) [
      | yes p ↦
          subst
            (λ j.
              IsEntry dq.queue_size dq.highest_delivered j
                (update dq.queue_array (i % dq.queue_size) e j) (dq.cmd_slot_array j))
            p (rw (update_same dq.queue_array (i % dq.queue_size) e) h)
      | no n ↦ rw (update_other dq.queue_array (i % dq.queue_size) j e n) (q.entries j)
    ];
  }

  -- The number that an entry in the window has, if any.
  pub number-at :
      (dq : DeliveryQueue) (i : ℕ)
      → IsQueue dq
      → dq.highest_delivered < i
      → i ≤ dq.highest_delivered + dq.queue_size
      → (entry_of dq i).inst_number ≢ 0
      → (entry_of dq i).inst_number ≡ i
  number-at dq i q lo hi n =
      let e = q.entries (i % dq.queue_size) in
      same_residue dq.queue_size dq.highest_delivered _ i q.positive (e.placed n) (e.above n)
        (e.below n) lo hi

  -- The entry with its number written.
  abbrev pub numbered : DeliveryQueue → ℕ → DqEntry
  numbered dq i = record (entry_of dq i) { inst_number = i }

  pub numbered-IsEntry :
      (dq : DeliveryQueue) (i : ℕ)
      → IsQueue dq
      → dq.highest_delivered < i
      → i ≤ dq.highest_delivered + dq.queue_size
      → IsEntry dq.queue_size dq.highest_delivered
          (i % dq.queue_size)
          (numbered dq i)
          (slot_of dq i)
  numbered-IsEntry dq i q lo hi =
      let e = q.entries (i % dq.queue_size) in
      record {
        idle = λ z. absurd (omega (arith, z, lo));
        placed = λ _. refl;
        above = λ _. lo;
        below = λ _. hi;
        final = λ p. elim (ℕ_discrete (entry_of dq i).inst_number 0) [
          | yes z ↦ let (_, f) = e.idle z in cc
          | no n ↦ e.final p ∙ ap chosen (number-at dq i q lo hi n)
        ];
        mapped = e.mapped;
      }

  -- The assertions of `dq_get_entry` hold in the window.
  pub dq_get_entry_lem :
      (dq : DeliveryQueue) (i : ℕ)
      → IsQueue dq
      → dq.highest_delivered < i
      → i ≤ dq.highest_delivered + dq.queue_size
      → (dq_get_entry i dq ≡ some (set_entry dq i (numbered dq i)))
        × IsQueue (set_entry dq i (numbered dq i))
  unfolding dq_get_entry
  dq_get_entry_lem dq i q lo hi =
      let e1 : ltb 0 i ≡ true = ground (arith, lo) in
      let e2 : leb i (dq.highest_delivered + dq.queue_size) ≡ true = ground (arith, hi) in
      let e3 : (((entry_of dq i).inst_number == i) || ((entry_of dq i).inst_number == 0)) ≡ true =
        elim (ℕ_discrete (entry_of dq i).inst_number 0) [
          | yes z ↦ ground (arith, z)
          | no n ↦ let m = number-at dq i q lo hi n in ground (arith, m)
        ] in
      (
        rw (e1, e2, e3) refl,
        set_entry-IsQueue dq i (numbered dq i) q (numbered-IsEntry dq i q lo hi),
      )
