-- ===== src/Ring/Delivery/Loop.antt =====
-- ring_paxos/lib/delivery_queue.c: the theorems on `dq_deliver_loop`.
use fds.Prelude.{
  ℕ, zero, suc, ◌+◌, ◌%◌, ◌≤◌, ◌<◌, ◌≡◌, ◌≢◌, refl, sym, ap, ◌∙◌, subst, List, [], ◌∷◌, ◌++◌, Bool,
  true, false, ◌&&◌, some, arith, update, update_same, update_other, Bool-cases, inl, inr,
  ℕ_discrete,
}
use fds.Ring.Types.{CommandId}
use fds.Ring.Delivery.{
  DqEntry, DeliveryQueue, Delivered, cleared_entry, entry_of, slot_of, set_entry, is_deliverable,
  deliver_one, deliver_rounds, dq_deliver_loop,
}
use fds.Ring.Delivery.Window.{IsEntry, IsQueue, numbered, dq_get_entry_lem, number-at}

passed : (h a : ℕ) → h < a → a ≢ h + 1 → h + 1 < a
passed h a lt ne = omega arith

-- No deliverable entry has a number above `last`.
abbrev pub IsBounded : ℕ → DeliveryQueue → Type 0
IsBounded last dq =
    (j : ℕ) → is_deliverable (dq.queue_array j) ≡ true → (dq.queue_array j).inst_number ≤ last

set_entry-IsBounded :
    (last : ℕ) (dq : DeliveryQueue) (i : ℕ) (e : DqEntry)
    → IsBounded last dq
    → (is_deliverable e ≡ true → e.inst_number ≤ last)
    → IsBounded last (set_entry dq i e)
set_entry-IsBounded last dq i e b h j = elim (ℕ_discrete (i % dq.queue_size) j) [
  | yes p ↦
      subst
        (λ j.
          is_deliverable (update dq.queue_array (i % dq.queue_size) e j) ≡ true
          → (update dq.queue_array (i % dq.queue_size) e j).inst_number ≤ last)
        p (rw (update_same dq.queue_array (i % dq.queue_size) e) h)
  | no n ↦ rw (update_other dq.queue_array (i % dq.queue_size) j e n) (b j)
]

&&-eq-true : (a b : Bool) → (a && b) ≡ true → (a ≡ true) × (b ≡ true)
&&-eq-true true b h = (refl, h)
&&-eq-true false b h = cc

deliverable-parts :
    (e : DqEntry) → is_deliverable e ≡ true → (e.has_mapping ≡ true) × (e.has_final_value ≡ true)
deliverable-parts e d = &&-eq-true e.has_mapping e.has_final_value d

module _ (chosen : ℕ → CommandId) (value_of : CommandId → List ℕ) where
  -- The chosen values of the `count` instances after `from`.
  unfoldable pub stream : ℕ → ℕ → List (List ℕ)
  stream from zero = []
  stream from (suc count) = value_of (chosen (from + 1)) ∷ stream (from + 1) count

  pub stream-append : (from a b : ℕ) → stream from (a + b) ≡ stream from a ++ stream (from + a) b
  unfolding stream
  stream-append from zero b =
      let e : from + 0 ≡ from = omega arith in let z : 0 + b ≡ b = omega arith in rw (e, z) refl
  stream-append from (suc a) b =
      let e : from + suc a ≡ from + 1 + a = omega arith in
      let e' : suc a + b ≡ suc (a + b) = omega arith in rw (e', e, stream-append (from + 1) a b)

  -- The result of an operation on `dq` that leaves a valid queue and delivers the chosen values of
  -- the next instances, up to one that cannot be delivered yet.
  pub record Delivers (dq : DeliveryQueue) (r : Delivered) : Type 0 where
    pub count : ℕ
    pub moved : r.0.highest_delivered ≡ dq.highest_delivered + count
    pub values : r.1 ≡ stream dq.highest_delivered count
    pub valid : IsQueue chosen value_of r.0
    pub sized : r.0.queue_size ≡ dq.queue_size
    pub stalled : is_deliverable (entry_of r.0 (r.0.highest_delivered + 1)) ≡ false

  -- The number of a deliverable entry.
  pub deliverable-number :
      (dq : DeliveryQueue) (j : ℕ)
      → IsQueue chosen value_of dq
      → is_deliverable (dq.queue_array j) ≡ true
      → (dq.queue_array j).inst_number ≢ 0
  deliverable-number dq j q d z =
      let (m, f) = (q.entries j).idle z in
      let (m', _) = deliverable-parts (dq.queue_array j) d in cc

  pub next-number :
      (dq : DeliveryQueue)
      → IsQueue chosen value_of dq
      → is_deliverable (entry_of dq (dq.highest_delivered + 1)) ≡ true
      → (entry_of dq (dq.highest_delivered + 1)).inst_number ≡ dq.highest_delivered + 1
  next-number dq q d =
      number-at chosen value_of dq (dq.highest_delivered + 1) q (omega arith)
        (omega (arith, q.positive)) (deliverable-number dq _ q d)

  -- A deliverable entry holds the chosen value.
  pub deliverable-slot :
      (dq : DeliveryQueue)
      → IsQueue chosen value_of dq
      → is_deliverable (entry_of dq (dq.highest_delivered + 1)) ≡ true
      → slot_of dq (dq.highest_delivered + 1) ≡ value_of (chosen (dq.highest_delivered + 1))
  deliverable-slot dq q d =
      let e = q.entries ((dq.highest_delivered + 1) % dq.queue_size) in
      let (m, f) = deliverable-parts (entry_of dq (dq.highest_delivered + 1)) d in
      e.mapped m ∙ ap value_of (e.final f ∙ ap chosen (next-number dq q d))

  clear-IsQueue :
      (dq : DeliveryQueue)
      → IsQueue chosen value_of dq
      → IsQueue chosen value_of (record (set_entry dq (dq.highest_delivered + 1) cleared_entry) {
        highest_delivered = dq.highest_delivered + 1;
      })
  clear-IsQueue dq q = record {
    positive = q.positive;
    started = q.started;
    entries = λ j. elim (ℕ_discrete ((dq.highest_delivered + 1) % dq.queue_size) j) [
      | yes p ↦
          subst
            (λ j.
              IsEntry chosen value_of dq.queue_size (dq.highest_delivered + 1) j
                (update dq.queue_array ((dq.highest_delivered + 1) % dq.queue_size) cleared_entry j)
                (dq.cmd_slot_array j))
            p
            (rw
              (update_same dq.queue_array ((dq.highest_delivered + 1) % dq.queue_size)
                cleared_entry)
              (record {
                idle = λ _. (refl, refl);
                placed = λ n. absurd (n refl);
                above = λ n. absurd (n refl);
                below = λ n. absurd (n refl);
                final = λ p. cc;
                mapped = λ p. cc;
              }))
      | no n ↦
          let e = q.entries j in
          rw
            (update_other dq.queue_array ((dq.highest_delivered + 1) % dq.queue_size) j
              cleared_entry n)
            (record {
              idle = e.idle;
              placed = e.placed;
              above = λ z.
                  passed _ _ (e.above z)
                    (λ x. n (sym (ap (λ y. y % dq.queue_size) x) ∙ e.placed z));
              below = λ z. omega (arith, e.below z);
              final = e.final;
              mapped = e.mapped;
            })
    ];
  }

  pub deliver_one_lem :
      (last : ℕ) (dq : DeliveryQueue)
      → IsQueue chosen value_of dq
      → IsBounded last dq
      → (dq' : DeliveryQueue) × (deliver_one dq ≡ some dq')
        × IsQueue chosen value_of dq'
        × IsBounded last dq'
        × (dq'.highest_delivered ≡ dq.highest_delivered + 1)
        × (dq'.queue_size ≡ dq.queue_size)
  unfolding deliver_one
  deliver_one_lem last dq q b =
      let cleared = record (set_entry dq (dq.highest_delivered + 1) cleared_entry) {
        highest_delivered = dq.highest_delivered + 1;
      } in
      let c = clear-IsQueue dq q in
      let (e, v) =
        dq_get_entry_lem chosen value_of cleared (dq.highest_delivered + 1 + 1) c (omega arith)
          (omega (arith, q.positive)) in
      let b' = set_entry-IsBounded last dq (dq.highest_delivered + 1) cleared_entry b (λ d. cc) in
      (
        set_entry cleared (dq.highest_delivered + 1 + 1)
            (numbered chosen value_of cleared (dq.highest_delivered + 1 + 1)),
        e,
        v,
        set_entry-IsBounded last cleared (dq.highest_delivered + 1 + 1) _ b' (λ d.
            let m =
              number-at chosen value_of cleared (dq.highest_delivered + 1 + 1) c (omega arith)
                (omega (arith, q.positive)) (deliverable-number cleared _ c d) in
            subst (λ k. k ≤ last) m (b' _ d)),
        refl,
        refl,
      )

  -- Nothing is delivered.
  pub stopped :
      (dq : DeliveryQueue)
      → IsQueue chosen value_of dq
      → is_deliverable (entry_of dq (dq.highest_delivered + 1)) ≡ false
      → Delivers dq (dq, [])
  unfolding stream
  stopped dq q d = record {
    count = 0;
    moved = omega arith;
    values = refl;
    valid = q;
    sized = refl;
    stalled = d;
  }

  -- Where the operation goes on from another queue of the same window.
  pub Delivers-after :
      {dq dq' : DeliveryQueue} {r : Delivered}
      → dq'.highest_delivered ≡ dq.highest_delivered
      → dq'.queue_size ≡ dq.queue_size
      → Delivers dq' r
      → Delivers dq r
  Delivers-after h s o = record {
    count = o.count;
    moved = rw (sym h) o.moved;
    values = rw (sym h) o.values;
    valid = o.valid;
    sized = o.sized ∙ s;
    stalled = o.stalled;
  }

  pub deliver_rounds_lem :
      (n last : ℕ) (dq : DeliveryQueue)
      → IsQueue chosen value_of dq
      → IsBounded last dq
      → last ≤ dq.highest_delivered + n
      → (r : Delivered) × (deliver_rounds n dq ≡ some r) × Delivers dq r
  unfolding deliver_rounds stream
  deliver_rounds_lem zero last dq q b le =
      elim (Bool-cases (is_deliverable (entry_of dq (dq.highest_delivered + 1)))) [
        | inl d ↦ let m = next-number dq q d in let k = b _ d in absurd (omega (arith, m, k, le))
        | inr d ↦ rw d ((dq, []), refl, stopped dq q d)
      ]
  deliver_rounds_lem (suc n) last dq q b le =
      elim (Bool-cases (is_deliverable (entry_of dq (dq.highest_delivered + 1)))) [
        | inr d ↦ rw (d, deliver_rounds) ((dq, []), refl, stopped dq q d)
        | inl d ↦
            let (dq', e, q', b', h', s') = deliver_one_lem last dq q b in
            let (r, e', o) = deliver_rounds_lem n last dq' q' b' (omega (arith, le, h')) in
            rw (d, deliver_rounds, e, e')
              (
                (r.0, slot_of dq (dq.highest_delivered + 1) ∷ r.1),
                refl,
                record {
                  count = suc o.count;
                  moved = omega (arith, o.moved, h');
                  values = rw (deliverable-slot dq q d, o.values, h') refl;
                  valid = o.valid;
                  sized = o.sized ∙ s';
                  stalled = o.stalled;
                },
              )
      ]

  -- The loop ends, delivers the next instances and stops at one that cannot be delivered yet.
  pub dq_deliver_loop_lem :
      (dq : DeliveryQueue)
      → IsQueue chosen value_of dq
      → (r : Delivered) × (dq_deliver_loop dq ≡ some r) × Delivers dq r
  unfolding dq_deliver_loop
  dq_deliver_loop_lem dq q =
      let (e, v) =
        dq_get_entry_lem chosen value_of dq (dq.highest_delivered + 1) q (omega arith)
          (omega (arith, q.positive)) in
      let dq' =
        set_entry dq (dq.highest_delivered + 1)
          (numbered chosen value_of dq (dq.highest_delivered + 1)) in
      let (r, e', o) =
        deliver_rounds_lem dq.queue_size (dq.highest_delivered + dq.queue_size) dq' v
          (λ j d. (v.entries j).below (deliverable-number dq' j v d)) (omega arith) in
      rw (e, e')
        (
          r,
          refl,
          record {
            count = o.count;
            moved = o.moved;
            values = o.values;
            valid = o.valid;
            sized = o.sized;
            stalled = o.stalled;
          },
        )
