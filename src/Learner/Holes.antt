-- ===== src/Learner/Holes.antt =====
-- What a learner asks the acceptors to repeat.
use fds.Prelude.{
  ℕ, zero, suc, ◌+◌, ◌-◌, ◌%◌, ◌<◌, ◌≤◌, ◌≡◌, refl, sym, ap, ◌∙◌, ◌==◌, ◌&&◌, Option-cases, List,
  [], ◌∷◌, true, false, Bool-cases, inl, inr, if◌then◌else◌, ltb, lt→ltb, not_lt→ltb, arith, All,
}
use fds.Messages.{Event}
use fds.Config.{learner_array_size, u32_mod}
use fds.SendBuf.{SendBuf, sendbuf_clear, repeat_req_kind}
use fds.SendBuf.Batch.{
  Small, Added, Added-nil, Added-trans, Added-flush, carried, clear-IsValid, sendbuf_add-Added,
}
use fds.SendBuf.Batch
use fds.Learner.{
  Learner, lea_instance, is_closed, repeat_request_loop, lea_send_repeat_request, lea_hole_check,
  lea_index, learner_is_closed,
}
use fds.Learner.Slots.{final-InWindow}
use fds.Learner.Window.{IsWindow}

-- The `n` instances from `i` on, without those whose slot of the array is closed.
abbrev holes : Learner → ℕ → ℕ → List ℕ
holes st zero i = []
holes st (suc n) i =
    if is_closed (lea_instance st i) then holes st n (i + 1) else i ∷ holes st n (i + 1)

repeat_request_loop-Added :
    (st : Learner) (n i : ℕ) (sb : SendBuf ℕ)
    → Batch.IsValid repeat_req_kind sb
    → Added repeat_req_kind sb (holes st n i) (repeat_request_loop st n i sb)
unfolding repeat_request_loop
repeat_request_loop-Added st zero i sb v = Added-nil repeat_req_kind sb v
repeat_request_loop-Added st (suc n) i sb v = elim (Bool-cases (is_closed (lea_instance st i))) [
  | inl e ↦ rw e (repeat_request_loop-Added st n (i + 1) sb v)
  | inr e ↦ rw e (
      let one = sendbuf_add-Added repeat_req_kind sb i v (omega arith) in
      Added-trans repeat_req_kind one (repeat_request_loop-Added st n (i + 1) _ one.valid))
]

-- The packets of a list of events carry the requests `xs`, in order, and each of them fits.
abbrev pub Requests : List ℕ → List Event → Type 0
Requests xs es = (carried repeat_req_kind es ≡ xs) × All (Small repeat_req_kind) es

lea_send_repeat_request-Requests :
    (st : Learner) (from to : ℕ)
    → Requests (holes st (to - from) from) (lea_send_repeat_request st from to)
unfolding lea_send_repeat_request
lea_send_repeat_request-Requests st from to = Added-flush repeat_req_kind 0 (
    repeat_request_loop-Added st (to - from) from (sendbuf_clear 0)
      (clear-IsValid repeat_req_kind 0))

-- The `n` instances from `i` on that are not closed.
abbrev pub unclosed : Learner → ℕ → ℕ → List ℕ
unclosed st zero i = []
unclosed st (suc n) i =
    let rest = unclosed st n (i + 1) in if learner_is_closed st i then rest else i ∷ rest

-- The instance of the window whose slot in the array an instance from the current one on has.
abbrev in_window : Learner → ℕ → ℕ
in_window st i = st.current_iid + (i - st.current_iid) % learner_array_size

-- The `n` instances from `i` on for which that instance of the window is not closed.
abbrev pub unclosed_in_window : Learner → ℕ → ℕ → List ℕ
unclosed_in_window st zero i = []
unclosed_in_window st (suc n) i =
    let rest = unclosed_in_window st n (i + 1) in
    if learner_is_closed st (in_window st i) then rest else i ∷ rest

in_window-index :
    (st : Learner) (i : ℕ) → st.current_iid ≤ i → lea_index (in_window st i) ≡ lea_index i
in_window-index st i h = omega arith

-- In a window a closed record is that of the window's instance.
slot-closed :
    (st : Learner) (i : ℕ)
    → IsWindow st
    → st.current_iid ≤ i
    → is_closed (lea_instance st i) ≡ learner_is_closed st (in_window st i)
unfolding learner_is_closed
slot-closed st i v h =
    let k = in_window st i in
    let slot = lea_instance st i in
    let there : learner_is_closed st k ≡ ((k == slot.iid) && is_closed slot) =
      ap (λ x. (k == (st.learner_state x).iid) && is_closed (st.learner_state x))
        (in_window-index st i h) in
    elim (Option-cases slot.final_value) [
      | inl e ↦
          let open_slot : is_closed slot ≡ ((k == slot.iid) && is_closed slot) =
            rw e (ground arith) in
          open_slot ∙ sym there
      | inr (a, e) ↦
          let lt : lea_index i < learner_array_size = omega arith in
          let w = final-InWindow st.current_iid (lea_index i) slot a (v.slots (lea_index i) lt) e in
          let from = w.from_current in
          let below = w.below_end in
          let at = w.at_index in
          let own : k ≡ slot.iid = omega arith in
          let test : (k == slot.iid) ≡ true = ground arith in
          let closed_slot : is_closed slot ≡ ((k == slot.iid) && is_closed slot) = rw test refl in
          closed_slot ∙ sym there
    ]

holes-in_window :
    (st : Learner) (n i : ℕ)
    → IsWindow st
    → st.current_iid ≤ i
    → holes st n i ≡ unclosed_in_window st n i
holes-in_window st zero i v h = refl
holes-in_window st (suc n) i v h =
    let closed = slot-closed st i v h in
    let rest = holes-in_window st n (i + 1) v (omega arith) in rw (closed, rest) refl

-- Up to an array's length from the current instance on these are the instances that are not closed.
in_window-unclosed :
    (st : Learner) (n i : ℕ)
    → st.current_iid ≤ i
    → i + n ≤ st.current_iid + learner_array_size
    → unclosed_in_window st n i ≡ unclosed st n i
in_window-unclosed st zero i h l = refl
in_window-unclosed st (suc n) i h l =
    let itself : in_window st i ≡ i = omega arith in
    let rest = in_window-unclosed st n (i + 1) (omega arith) (omega arith) in rw (itself, rest) refl

-- Let the records be those of the learner's window, whose end does not wrap at 2 ^ 32, and the
-- highest instance closed not be above the highest one seen. A check for holes asks for instances
-- from the current one on, each once, in order, in packets that fit. Where the highest one seen is
-- at most an array's length ahead, it asks for every instance below the highest one closed that is
-- not closed. Where it is further ahead, it asks for the instances below the highest one seen
-- without those for which the instance of the window with the same slot is closed: that is the
-- instance itself up to the array's length, and another one beyond it. It asks for nothing where
-- that leaves no instance.
pub lea_hole_check-Requests :
    (st : Learner)
    → IsWindow st
    → st.current_iid + learner_array_size < u32_mod
    → st.highest_iid_closed ≤ st.highest_iid_seen
    → (st.current_iid + learner_array_size < st.highest_iid_seen
        → Requests
            (unclosed_in_window st (st.highest_iid_seen - st.current_iid) st.current_iid)
            (lea_hole_check st))
      × (st.highest_iid_seen ≤ st.current_iid + learner_array_size
          → Requests
              (unclosed st (st.highest_iid_closed - st.current_iid) st.current_iid)
              (lea_hole_check st))
unfolding lea_hole_check carried
lea_hole_check-Requests st v nw le =
    let c = st.current_iid in
    (
      λ h.
          let e : ltb ((c + learner_array_size) % u32_mod) st.highest_iid_seen ≡ true =
            lt→ltb _ _ (omega arith) in
          rw (e, ← holes-in_window st (st.highest_iid_seen - c) c v (omega arith))
            (lea_send_repeat_request-Requests st c st.highest_iid_seen),
      λ h.
          let e : ltb ((c + learner_array_size) % u32_mod) st.highest_iid_seen ≡ false =
            not_lt→ltb _ _ (omega arith) in
          let n = st.highest_iid_closed - c in
          let same : unclosed st n c ≡ holes st n c = sym (
            holes-in_window st n c v (omega arith)
            ∙ in_window-unclosed st n c (omega arith) (omega arith)) in
          rw (e, same)
            (elim (Bool-cases (ltb c st.highest_iid_closed)) [
              | inl f ↦ rw f (lea_send_repeat_request-Requests st c st.highest_iid_closed)
              | inr f ↦
                  rw f (let z : st.highest_iid_closed - c ≡ 0 = ground arith in rw z (refl, tt))
            ]),
    )
