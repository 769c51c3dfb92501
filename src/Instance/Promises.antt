-- ===== src/Instance/Promises.antt =====
-- What the promises of phase 1 leave in an instance.
use Prim.Native.Nat.{bit_and, bit_and-bitwise}
use fds.Prelude.{
  ℕ, ◌+◌, ◌^◌, ◌<◌, ◌≤◌, ◌≡◌, refl, ◌∙◌, ap, ◌⊎◌, inl, inr, List, [], ◌∷◌, true, Option, none, some,
  length, leb, ◌==◌, Bool-cases, bytes_eq→eq, arith,
}
use fds.Messages.{PrepareAck}
use fds.Instance.{InstInfo, has_value, save_promised_value, pro_save_prepare_ack}

pub has_value→eq : (o : Option (List ℕ)) (v : List ℕ) → has_value o v ≡ true → o ≡ some v
has_value→eq none v h = cc
has_value→eq (some w) v h = ap some (bytes_eq→eq w v h)

-- Promises in the order of their arrival, each with the acceptor that sent it.
abbrev pub save_all : InstInfo → List (ℕ × PrepareAck) → InstInfo
save_all ii [] = ii
save_all ii ((acceptor_id, pa) ∷ pas) = save_all (pro_save_prepare_ack ii pa acceptor_id) pas

-- An acknowledgement of a list has the value and carries it with that ballot.
abbrev pub Offered : List (ℕ × PrepareAck) → Option (List ℕ) → ℕ → Type 0
Offered [] v b = ⊥
Offered ((acceptor_id, pa) ∷ pas) v b =
    ((v ≡ some pa.value) × (b ≡ pa.value_ballot) × (0 < length pa.value)) ⊎ Offered pas v b

-- No promised value has a ballot above `b`.
abbrev pub AtMost : List (ℕ × PrepareAck) → ℕ → Type 0
AtMost [] b = Unit {0}
AtMost ((acceptor_id, pa) ∷ pas) b = ((length pa.value ≡ 0) ⊎ (pa.value_ballot ≤ b)) × AtMost pas b

-- The value after some promises: the one before, or one of theirs, and of the highest ballot.
pub record Chosen (ii : InstInfo) (pas : List (ℕ × PrepareAck)) (r : InstInfo) : Type 0 where
  pub grown : ii.p1_value_ballot ≤ r.p1_value_ballot
  pub highest : AtMost pas r.p1_value_ballot
  pub source :
      ((r.p1_value ≡ ii.p1_value) × (r.p1_value_ballot ≡ ii.p1_value_ballot))
      ⊎ Offered pas r.p1_value r.p1_value_ballot

save_promised_value-Chosen :
    (ii : InstInfo) (acceptor_id : ℕ) (pa : PrepareAck)
    → Chosen ii ((acceptor_id, pa) ∷ []) (save_promised_value ii pa)
unfolding save_promised_value
save_promised_value-Chosen ii acceptor_id pa = elim (Bool-cases (length pa.value == 0)) [
  | inl e ↦ rw e (ground arith)
  | inr e ↦ elim (Bool-cases (leb pa.value_ballot ii.p1_value_ballot)) [
    | inl f ↦ rw (e, f) (ground arith)
    | inr f ↦ elim (Bool-cases (has_value ii.p1_value pa.value)) [
      | inr g ↦ rw (e, f, g) (ground arith)
      | inl g ↦
          rw (e, f, g)
            record {
              grown = ground arith;
              highest = (ground arith, tt);
              source = inr (inl (has_value→eq ii.p1_value pa.value g, refl, ground arith));
            }
    ]
  ]
]

-- An instance that has counted one more promise.
abbrev pub counted : InstInfo → InstInfo
counted ii = record ii { promises_bitvector = 0; promises_count = ii.promises_count + 1 }

-- The bit vector is never set: an instance that starts with none has none, and counts the promise.
pub save_unmarked :
    (ii : InstInfo) (acceptor_id : ℕ) (pa : PrepareAck)
    → ii.promises_bitvector ≡ 0
    → pro_save_prepare_ack ii pa acceptor_id ≡ save_promised_value (counted ii) pa
unfolding pro_save_prepare_ack
save_unmarked ii acceptor_id pa e =
    let z : bit_and ii.promises_bitvector (2 ^ acceptor_id) ≡ 0 =
      ap (λ b. bit_and b (2 ^ acceptor_id)) e ∙ bit_and-bitwise 0 (2 ^ acceptor_id) in
    rw z

save_promised_value-counts :
    (ii : InstInfo) (pa : PrepareAck)
    → ((save_promised_value ii pa).promises_bitvector ≡ ii.promises_bitvector)
      × ((save_promised_value ii pa).promises_count ≡ ii.promises_count)
unfolding save_promised_value
save_promised_value-counts ii pa = ground arith

-- Promises are counted each time that they arrive: from an instance without marks, any promises,
-- also several of one acceptor, raise `promises_count` by their number, and none is marked.
pub save_all-counts :
    (ii : InstInfo) (pas : List (ℕ × PrepareAck))
    → ii.promises_bitvector ≡ 0
    → ((save_all ii pas).promises_bitvector ≡ 0)
      × ((save_all ii pas).promises_count ≡ ii.promises_count + length pas)
save_all-counts ii [] e = (e, omega arith)
save_all-counts ii ((acceptor_id, pa) ∷ pas) e =
    let c = save_promised_value-counts (counted ii) pa in
    let rest = save_all-counts (save_promised_value (counted ii) pa) pas c.0 in
    rw (save_unmarked ii acceptor_id pa e, save_all) (rest.0, omega (arith, rest.1, c.1))

AtMost-mono : (pas : List (ℕ × PrepareAck)) {a b : ℕ} → a ≤ b → AtMost pas a → AtMost pas b
AtMost-mono [] h m = tt
AtMost-mono ((acceptor_id, pa) ∷ pas) h m = (ground arith, AtMost-mono pas h m.1)

-- Phase 1 ends with the right value: after any promises, from an instance without marks, the value
-- and its ballot are those from before, or one promise's, and no value promised or held before has
-- a higher ballot.
pub save_all-Chosen :
    (ii : InstInfo) (pas : List (ℕ × PrepareAck))
    → ii.promises_bitvector ≡ 0
    → Chosen ii pas (save_all ii pas)
save_all-Chosen ii [] e = record { grown = omega arith; highest = tt; source = inl (refl, refl) }
save_all-Chosen ii ((acceptor_id, pa) ∷ pas) e =
    let next = save_promised_value (counted ii) pa in
    let c = save_promised_value-counts (counted ii) pa in
    let one = save_promised_value-Chosen (counted ii) acceptor_id pa in
    let rest = save_all-Chosen next pas c.0 in
    rw (save_unmarked ii acceptor_id pa e) record {
      grown = omega (arith, one.grown, rest.grown);
      highest = ((AtMost-mono ((acceptor_id, pa) ∷ []) rest.grown one.highest).0, rest.highest);
      source = elim rest.source [
        | inr o ↦ inr (inr o)
        | inl (p, q) ↦ elim one.source [
          | inl (p', q') ↦ inl (p ∙ p', q ∙ q')
          | inr (inl (v, b, l)) ↦ inr (inl (p ∙ v, q ∙ b, l))
          | inr (inr o) ↦ absurd o
        ]
      ];
    }

-- A promise changes neither the instance's status nor its ballot.
pub save-kept :
    (ii : InstInfo) (pa : PrepareAck) (acceptor_id : ℕ)
    → ((pro_save_prepare_ack ii pa acceptor_id).status ≡ ii.status)
      × ((pro_save_prepare_ack ii pa acceptor_id).my_ballot ≡ ii.my_ballot)
unfolding pro_save_prepare_ack save_promised_value
save-kept ii pa acceptor_id = ground arith
