-- ===== src/Learner/Slots.antt =====
-- paxos2/lib/learner.c: what a record of the array holds, and that the operations on one record keep it.
use fds.Prelude.{
  ℕ, ◌+◌, ◌-◌, ◌≤◌, ◌<◌, ◌≡◌, ◌≢◌, ◌⊎◌, refl, sym, ap, ◌∙◌, inl, inr, true, false, none, some, leb,
  ◌==◌, update, update_same, update_other, Bool-cases, Option-cases, arith, subst, ℕ_discrete,
}
use fds.Messages.{AcceptAck}
use fds.Config.{learner_array_size, u32_mod}
use fds.Learner.{
  InstInfo, lea_index, is_closed, claim, lea_store_accept_ack, lea_update_state, lea_check_quorum,
}
use fds.Learner.Quorum.{lea_check_quorum_lem}

-- Below this id the window's end does not wrap.
abbrev pub iid_limit : ℕ
iid_limit = u32_mod - learner_array_size - 1

-- An id of the window that starts at `c`, whose record is at index `i`.
pub record InWindow (c i iid : ℕ) : Type 0 where
  pub from_current : c ≤ iid
  pub below_end : iid < c + learner_array_size
  pub below_limit : iid < iid_limit
  pub at_index : lea_index iid ≡ i

-- A record is free, or is that of an instance of the window; its acknowledgements are of its instance.
pub record Slot (c i : ℕ) (ii : InstInfo) : Type 0 where
  pub place : ((ii.iid ≡ 0) × (ii.final_value ≡ none)) ⊎ InWindow c i ii.iid
  pub held : (j : ℕ) (a : AcceptAck) → ii.acks j ≡ some a → (a.iid ≡ ii.iid) × (a.iid ≢ 0)
  pub closed_by : (a : AcceptAck) → ii.final_value ≡ some a → a.iid ≡ ii.iid

pub same_iid : (c i x y : ℕ) → InWindow c i x → InWindow c i y → x ≡ y
same_iid c i x y p q =
    let e = p.at_index in
    let f = q.at_index in
    let a = p.from_current in
    let b = p.below_end in let a' = q.from_current in let b' = q.below_end in omega (arith)

pub claim-Slot :
    (c i : ℕ) (ii : InstInfo) (aa : AcceptAck)
    → 1 ≤ c
    → Slot c i ii
    → InWindow c i aa.iid
    → ((claim ii aa).iid ≡ aa.iid) × Slot c i (claim ii aa)
claim-Slot c i ii aa pos s w = elim s.place [
  | inl (e, f) ↦
      let t : (ii.iid == 0) ≡ true = ground arith in
      rw t (
        refl,
        record {
          place = inr w;
          held = λ j a h. let (x, y) = s.held j a h in absurd (y (x ∙ e));
          closed_by = λ a h. cc;
        },
      )
  | inr p ↦
      let from = p.from_current in
      let t : (ii.iid == 0) ≡ false = ground arith in rw t (same_iid c i ii.iid aa.iid p w, s)
]

pub store-Slot :
    (c i j : ℕ) (ii : InstInfo) (aa : AcceptAck)
    → Slot c i ii
    → ii.iid ≡ aa.iid
    → aa.iid ≢ 0
    → Slot c i (lea_store_accept_ack ii j aa)
store-Slot c i j ii aa s e ne = record {
  place = s.place;
  held = λ k a h. elim (Bool-cases (j == k)) [
    | inl t ↦ let h' : some aa ≡ some a = rw t at h in (ground arith, ground arith)
    | inr t ↦ let h' : ii.acks k ≡ some a = rw t at h in s.held k a h'
  ];
  closed_by = s.closed_by;
}

-- The record after an acknowledgement.
pub update-cases :
    (ii : InstInfo) (j : ℕ) (aa : AcceptAck)
    → ((lea_update_state ii j aa).1 ≡ claim ii aa)
      ⊎ ((lea_update_state ii j aa).1 ≡ lea_store_accept_ack (claim ii aa) j aa)
unfolding lea_update_state
update-cases ii j aa = elim (Bool-cases (is_closed (claim ii aa))) [
  | inl e ↦ inl (rw e)
  | inr e ↦ rw e (elim (Option-cases ((claim ii aa).acks j)) [
    | inl f ↦ rw f (inr refl)
    | inr (prev, f) ↦ rw f (elim (Bool-cases (leb aa.ballot prev.ballot)) [
      | inl g ↦ rw g (inl refl)
      | inr g ↦ rw g (inr refl)
    ])
  ])
]

pub lea_update_state-Slot :
    (c i j : ℕ) (ii : InstInfo) (aa : AcceptAck)
    → 1 ≤ c
    → Slot c i ii
    → InWindow c i aa.iid
    → Slot c i (lea_update_state ii j aa).1
lea_update_state-Slot c i j ii aa pos s w =
    let (e, s') = claim-Slot c i ii aa pos s w in
    let from = w.from_current in
    elim (update-cases ii j aa) [
      | inl f ↦ rw f s'
      | inr f ↦ rw f (store-Slot c i j (claim ii aa) aa s' e (omega arith))
    ]

pub lea_check_quorum-Slot :
    (c i : ℕ) (ii : InstInfo) → Slot c i ii → Slot c i (lea_check_quorum ii).1
lea_check_quorum-Slot c i ii s =
    let (same, open_case, closed_case, any_values) = lea_check_quorum_lem ii in
    elim (Bool-cases (lea_check_quorum ii).0) [
      | inr e ↦ rw (open_case e) s
      | inl e ↦
          let (j, a, h, b, f) = closed_case e in
          let (x, ne) = s.held j a h in
          rw f (record {
            place = elim s.place [ inl (z, n) ↦ absurd (ne (x ∙ z)) | inr p ↦ inr p ];
            held = s.held;
            closed_by = λ a' g.
                let same_ack : a ≡ a' = cc in subst (λ (y : AcceptAck). y.iid ≡ ii.iid) same_ack x;
          })
    ]

-- The array with one record set.
pub set-slots :
    (c i : ℕ) (table : ℕ → InstInfo) (ii : InstInfo)
    → ((k : ℕ) → k < learner_array_size → Slot c k (table k))
    → Slot c i ii
    → (k : ℕ) → k < learner_array_size
    → Slot c k (update table i ii k)
set-slots c i table ii old new k lt = elim (ℕ_discrete i k) [
  | yes e ↦ subst (λ (x : ℕ). Slot c x (update table i ii x)) e (rw (update_same table i ii) new)
  | no ne ↦ rw (update_other table i k ii ne) (old k lt)
]

-- A record with a final value is that of an instance of the window.
pub final-InWindow :
    (c i : ℕ) (ii : InstInfo) (a : AcceptAck)
    → Slot c i ii
    → ii.final_value ≡ some a
    → InWindow c i ii.iid
final-InWindow c i ii a s h = elim s.place [ inl (z, n) ↦ cc | inr p ↦ p ]

-- The other records stay in the window when it moves on.
pub later-Slot : (c k : ℕ) (ii : InstInfo) → Slot c k ii → lea_index c ≢ k → Slot (c + 1) k ii
later-Slot c k ii s ne = record {
  place = elim s.place [
    | inl z ↦ inl z
    | inr p ↦
        let from = p.from_current in
        let below = p.below_end in
        let at = p.at_index in
        let other : ii.iid ≢ c = λ e. ne (ap lea_index (sym e) ∙ at) in
        inr (record {
          from_current = omega arith;
          below_end = omega arith;
          below_limit = p.below_limit;
          at_index = at;
        })
  ];
  held = s.held;
  closed_by = s.closed_by;
}
