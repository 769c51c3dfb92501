-- ===== src/Learner/Quorum.antt =====
-- When an instance is closed: the loop of `lea_check_quorum` against a count of votes.
use fds.Prelude.{
  ℕ, zero, suc, ◌+◌, ◌≡◌, refl, sym, ap, ap₂, ◌∙◌, List, ◌⊎◌, inl, inr, Bool, true, false, ◌||◌,
  Option, none, some, leb, ◌==◌, if◌then◌else◌, Bool-cases, Option-cases, arith,
}
use fds.Messages.{AcceptAck}
use fds.Config.{n_of_acceptors, quorum}
use fds.Learner.{InstInfo, count_acks, lea_check_quorum}

-- One acceptor's vote for a ballot, and whether it says that the value is final.
abbrev pub vote : Option AcceptAck → ℕ → ℕ
vote none b = 0
vote (some a) b = if a.ballot == b then 1 else 0

abbrev pub final_vote : Option AcceptAck → ℕ → Bool
final_vote none b = false
final_vote (some a) b = if a.ballot == b then a.is_final else false

-- The votes of `n` acceptors from `i` on, for the ballot that was acknowledged last.
pub votes : InstInfo → ℕ → ℕ → ℕ
votes ii zero i = 0
votes ii (suc n) i = vote (ii.acks i) ii.last_update_ballot + votes ii n (i + 1)

pub has_final : InstInfo → ℕ → ℕ → Bool
has_final ii zero i = false
has_final ii (suc n) i = final_vote (ii.acks i) ii.last_update_ballot || has_final ii n (i + 1)

-- A quorum of acceptors votes for that ballot, or one of them knows its value to be final.
pub is_decided : InstInfo → Bool
is_decided ii = leb quorum (votes ii n_of_acceptors 0) || has_final ii n_of_acceptors 0

count_acks-eq :
    (ii : InstInfo) (n i : ℕ) (index : Option ℕ) (count : ℕ)
    → leb quorum (count_acks ii n i index count).1
      ≡ (leb quorum (count + votes ii n i) || has_final ii n i)
unfolding count_acks votes has_final
count_acks-eq ii zero i index count = ground arith
count_acks-eq ii (suc n) i index count =
    ground (
      arith,
      count_acks-eq ii n (i + 1) index count,
      count_acks-eq ii n (i + 1) (some i) (count + 1),
    )

-- An index that the loop may return: that of an acknowledgement with the last ballot.
abbrev pub Agrees : InstInfo → Option ℕ → Type 0
Agrees ii index =
    (j : ℕ) × (a : AcceptAck) × (index ≡ some j)
    × (ii.acks j ≡ some a)
    × (a.ballot ≡ ii.last_update_ballot)

count_acks-Agrees :
    (ii : InstInfo) (n i : ℕ) (index : Option ℕ) (count : ℕ)
    → (count ≡ 0) ⊎ Agrees ii index
    → ((count_acks ii n i index count).1 ≡ 0) ⊎ Agrees ii (count_acks ii n i index count).0
unfolding count_acks
count_acks-Agrees ii zero i index count h = h
count_acks-Agrees ii (suc n) i index count h = elim (Option-cases (ii.acks i)) [
  | inl e ↦ rw (e, count_acks) (count_acks-Agrees ii n (i + 1) index count h)
  | inr (a, e) ↦ elim (Bool-cases (a.ballot == ii.last_update_ballot)) [
    | inr f ↦ rw (e, count_acks, f) (count_acks-Agrees ii n (i + 1) index count h)
    | inl f ↦ elim (Bool-cases a.is_final) [
      | inl g ↦ rw (e, count_acks, f, g) (inr (i, a, refl, e, ground arith))
      | inr g ↦
          rw (e, count_acks, f, g)
            (count_acks-Agrees ii n (i + 1) (some i) (count + 1)
              (inr (i, a, refl, e, ground arith)))
    ]
  ]
]

count_acks-is_decided :
    (ii : InstInfo) → leb quorum (count_acks ii n_of_acceptors 0 none 0).1 ≡ is_decided ii
unfolding is_decided
count_acks-is_decided ii =
    let e : 0 + votes ii n_of_acceptors 0 ≡ votes ii n_of_acceptors 0 = omega arith in
    count_acks-eq ii n_of_acceptors 0 none 0
    ∙ ap (λ v. leb quorum v || has_final ii n_of_acceptors 0) e

-- The acknowledgements with other values, one for each acceptor.
abbrev pub with_values : (ℕ → List ℕ) → InstInfo → InstInfo
with_values values ii = record ii {
  acks = λ i. elim (ii.acks i) [ none ↦ none | some a ↦ some (record a { value = values i }) ];
}

vote-with_values :
    (values : ℕ → List ℕ) (ii : InstInfo) (i b : ℕ)
    → (vote ((with_values values ii).acks i) b ≡ vote (ii.acks i) b)
      × (final_vote ((with_values values ii).acks i) b ≡ final_vote (ii.acks i) b)
vote-with_values values ii i b = elim (Option-cases (ii.acks i)) [
  | inl e ↦ rw e (refl, refl)
  | inr (a, e) ↦ rw e (refl, refl)
]

votes-with_values :
    (values : ℕ → List ℕ) (ii : InstInfo) (n i : ℕ)
    → (votes (with_values values ii) n i ≡ votes ii n i)
      × (has_final (with_values values ii) n i ≡ has_final ii n i)
unfolding votes has_final
votes-with_values values ii zero i = (refl, refl)
votes-with_values values ii (suc n) i =
    let one = vote-with_values values ii i ii.last_update_ballot in
    let rest = votes-with_values values ii n (i + 1) in
    (ap₂ ◌+◌ one.0 rest.0, ap₂ ◌||◌ one.1 rest.1)

is_decided-with_values :
    (values : ℕ → List ℕ) (ii : InstInfo) → is_decided (with_values values ii) ≡ is_decided ii
unfolding is_decided
is_decided-with_values values ii =
    let same = votes-with_values values ii n_of_acceptors 0 in
    ap₂ (λ v f. leb quorum v || f) same.0 same.1

closed-is_decided : (ii : InstInfo) → (lea_check_quorum ii).0 ≡ is_decided ii
unfolding lea_check_quorum
closed-is_decided ii =
    let scan = count_acks ii n_of_acceptors 0 none 0 in
    elim (Bool-cases (leb quorum scan.1)) [
      | inl e ↦ rw e (sym e ∙ count_acks-is_decided ii)
      | inr e ↦ rw e (sym e ∙ count_acks-is_decided ii)
    ]

-- An instance is closed exactly if a quorum of acceptors acknowledged the ballot of the latest
-- acknowledgement, or one of them sent it as final: the ballots alone decide, and with any other
-- values in the acknowledgements, equal or not, it is closed or not as before. The final value is then an
-- acknowledgement with that ballot that the record holds, and otherwise the record is unchanged.
pub lea_check_quorum_lem :
    (ii : InstInfo)
    → (let (closed, ii') = lea_check_quorum ii in
        (closed ≡ is_decided ii)
        × (closed ≡ false → ii' ≡ ii)
        × (closed ≡ true
            → (j : ℕ) × (a : AcceptAck) × (ii.acks j ≡ some a)
              × (a.ballot ≡ ii.last_update_ballot)
              × (ii' ≡ record ii { final_value = some a }))
        × ((values : ℕ → List ℕ) → (lea_check_quorum (with_values values ii)).0 ≡ closed))
unfolding lea_check_quorum
lea_check_quorum_lem ii =
    let scan = count_acks ii n_of_acceptors 0 none 0 in
    let decided = count_acks-is_decided ii in
    let any = λ (values : ℕ → List ℕ).
      closed-is_decided (with_values values ii) ∙ is_decided-with_values values ii ∙ sym decided in
    elim (Bool-cases (leb quorum scan.1)) [
      | inr e ↦ rw e (sym e ∙ decided, λ _. refl, λ t. cc, λ values. any values ∙ e)
      | inl e ↦ elim (count_acks-Agrees ii n_of_acceptors 0 none 0 (inl refl)) [
        | inl z ↦ absurd (ground arith)
        | inr (j, a, p, q, r) ↦
            rw e (sym e ∙ decided, λ t. cc, λ _. (j, a, q, r, rw (p, q)), λ values. any values ∙ e)
      ]
    ]
