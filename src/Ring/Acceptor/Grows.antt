-- ===== src/Ring/Acceptor/Grows.antt =====
-- ring_paxos/ring-paxos/acceptor_helpers.c: the relation of two states of an acceptor by their promises.
use fds.Prelude.{
  ℕ, ◌%◌, ◌≤◌, ◌<◌, ◌≡◌, refl, sym, ap, ◌∙◌, subst, arith, ltb, ◌==◌, update, update_same,
  ℕ_discrete, update_other, Bool-cases, inl, inr, Ensures, ensures_if, is_some, some, false,
}
use fds.Ring.Storage.{
  CommandPtr, null, slot, block, InstanceRecord, StableStorage, record_at, set_record,
  ssm_get_record, new_record,
}
use fds.Ring.Acceptor.State.{RingAcceptor, Handled, record_of, put_record, get_record, free_cmd}

-- The ballot that is accepted is not above the one that is promised.
abbrev pub IsRecord : InstanceRecord → Type 0
IsRecord ir = ir.accept_ballot ≤ ir.ballot

-- A slot is given only to later instances, and an instance never lowers its promise.
pub record Grows (old new : InstanceRecord) : Type 0 where
  pub later : old.inst_number ≤ new.inst_number
  pub kept : old.inst_number ≡ new.inst_number → old.ballot ≤ new.ballot
  pub valid : IsRecord old → IsRecord new

Grows-refl : (ir : InstanceRecord) → Grows ir ir
Grows-refl ir = record { later = omega arith; kept = λ _. omega arith; valid = λ h. h }

Grows-trans : {a b c : InstanceRecord} → Grows a b → Grows b c → Grows a c
Grows-trans {a} {b} {c} p q = record {
  later = omega (arith, p.later, q.later);
  kept = λ e.
      let e1 : a.inst_number ≡ b.inst_number = omega (arith, p.later, q.later, e) in
      let k1 = p.kept e1 in let k2 = q.kept (sym e1 ∙ e) in omega (arith, k1, k2);
  valid = λ h. q.valid (p.valid h);
}

-- A result of a step: all its records have grown, in a storage of the same size.
pub record Grown (acc acc' : RingAcceptor) : Type 0 where
  pub sized : acc'.ssm.size ≡ acc.ssm.size
  pub grows : (j : ℕ) → Grows (acc.ssm.instances_array j) (acc'.ssm.instances_array j)

pub Grown-refl : (acc : RingAcceptor) → Grown acc acc
Grown-refl acc = record { sized = refl; grows = λ j. Grows-refl (acc.ssm.instances_array j) }

pub Grown-trans : {a b c : RingAcceptor} → Grown a b → Grown b c → Grown a c
Grown-trans p q = record {
  sized = q.sized ∙ p.sized;
  grows = λ j. Grows-trans (p.grows j) (q.grows j);
}

pub set_record-Grows :
    (ssm : StableStorage) (i : ℕ) (ir : InstanceRecord)
    → Grows (record_at ssm i) ir
    → (j : ℕ) → Grows (ssm.instances_array j) ((set_record ssm i ir).instances_array j)
set_record-Grows ssm i ir g j = elim (ℕ_discrete (i % ssm.size) j) [
  | yes p ↦
      subst (λ j. Grows (ssm.instances_array j) (update ssm.instances_array (i % ssm.size) ir j)) p
        (rw (update_same ssm.instances_array (i % ssm.size) ir) g)
  | no n ↦
      rw (update_other ssm.instances_array (i % ssm.size) j ir n)
        (Grows-refl (ssm.instances_array j))
]

-- A write that keeps the instance, with a promise and an accepted ballot as given.
pub put_record-Grown :
    (acc : RingAcceptor) (i : ℕ) (ir : InstanceRecord)
    → ir.inst_number ≡ (record_of acc i).inst_number
    → (record_of acc i).ballot ≤ ir.ballot
    → (IsRecord (record_of acc i) → IsRecord ir)
    → Grown acc (put_record acc i ir)
put_record-Grown acc i ir n b v = record {
  sized = refl;
  grows =
      set_record-Grows acc.ssm i ir (record { later = omega (arith, n); kept = λ _. b; valid = v });
}

-- The record that is asked for is found, with its number.
pub get_record-Grown :
    (i : ℕ) (acc : RingAcceptor)
    → Ensures (get_record i acc) (λ acc'. Grown acc acc' × ((record_of acc' i).inst_number ≡ i))
unfolding ssm_get_record
get_record-Grown i acc =
    let ir = record_of acc i in
    elim (Bool-cases (ir.inst_number == 0)) [
      | inl z ↦ rw z (
        record {
          sized = refl;
          grows =
              set_record-Grows acc.ssm i (record ir { inst_number = i })
                (record { later = ground arith; kept = λ _. omega arith; valid = λ h. h });
        },
        rw (update_same acc.ssm.instances_array (i % acc.ssm.size) (record ir { inst_number = i }))
            refl,
      )
      | inr z ↦ elim (Bool-cases (ltb ir.inst_number i)) [
        | inl l ↦
            rw (z, l)
              (
                record {
                  sized = refl;
                  grows = set_record-Grows acc.ssm i (new_record i) (record {
                    later = ground arith;
                    kept = λ e. ground arith;
                    valid = λ h. omega arith;
                  });
                },
                rw (update_same acc.ssm.instances_array (i % acc.ssm.size) (new_record i)) refl,
              )
        | inr l ↦ elim (Bool-cases (ltb i ir.inst_number)) [
          | inl m ↦ rw (z, l, m) tt
          | inr m ↦ rw (z, l, m) (Grown-refl acc, ground arith)
        ]
      ]
    ]

-- The acceptor that a handler leaves has grown.
abbrev pub Moved : RingAcceptor → Handled → Type 0
Moved acc r = Grown acc r.0

abbrev pub Found : ℕ → RingAcceptor → RingAcceptor → Type 0
Found i acc acc' = Grown acc acc' × ((record_of acc' i).inst_number ≡ i)

-- Neither the heap nor the slots nor the highest instance matter.
pub same_records-Grown :
    (acc acc' : RingAcceptor)
    → acc'.ssm.instances_array ≡ acc.ssm.instances_array
    → acc'.ssm.size ≡ acc.ssm.size
    → Grown acc acc'
same_records-Grown acc acc' e n = record {
  sized = n;
  grows =
      λ j. subst (λ f. Grows (acc.ssm.instances_array j) (f j)) (sym e) ((Grown-refl acc).grows j);
}

-- What frees a block or writes a slot leaves the records.
abbrev pub SameRecords : RingAcceptor → RingAcceptor → Type 0
SameRecords acc acc' =
    (acc'.ssm.instances_array ≡ acc.ssm.instances_array) × (acc'.ssm.size ≡ acc.ssm.size)

pub free_cmd-SameRecords :
    (p : CommandPtr) (acc : RingAcceptor) → Ensures (free_cmd p acc) (SameRecords acc)
unfolding free_cmd
free_cmd-SameRecords null acc = (refl, refl)
free_cmd-SameRecords slot acc = tt
free_cmd-SameRecords (block p) acc =
    ensures_if (SameRecords acc) (is_some (acc.heap p)) _ _ (λ _. (refl, refl)) (λ _. tt)

-- A record written over the one that stood in a storage with the same records.
pub put_after-Grown :
    (acc acc' : RingAcceptor) (i : ℕ) (ir : InstanceRecord)
    → SameRecords acc acc'
    → ir.inst_number ≡ (record_of acc i).inst_number
    → (record_of acc i).ballot ≤ ir.ballot
    → (IsRecord (record_of acc i) → IsRecord ir)
    → Grown acc (put_record acc' i ir)
put_after-Grown acc acc' i ir (e, n) h b v =
    let same : record_of acc' i ≡ record_of acc i = rw (e, n) refl in
    Grown-trans (same_records-Grown acc acc' e n) (
      put_record-Grown acc' i ir (h ∙ ap (λ r. r.inst_number) (sym same))
        (subst (λ r. r.ballot ≤ ir.ballot) (sym same) b)
        (subst (λ r. IsRecord r → IsRecord ir) (sym same) v))

-- A record that stands for its instance is found as it is.
pub get_record-same :
    (i : ℕ) (acc : RingAcceptor)
    → 0 < i
    → (record_of acc i).inst_number ≡ i
    → get_record i acc ≡ some acc
unfolding ssm_get_record
get_record-same i acc pos n =
    let z : ((record_of acc i).inst_number == 0) ≡ false = ground arith in
    let l : ltb (record_of acc i).inst_number i ≡ false = ground arith in
    let m : ltb i (record_of acc i).inst_number ≡ false = ground arith in rw (z, l, m) refl
