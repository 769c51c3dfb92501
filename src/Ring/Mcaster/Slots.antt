-- ===== src/Ring/Mcaster/Slots.antt =====
-- ring_paxos/lib/mcaster_storage.c: what the slots of the circular buffer hold, by the numbers of the
-- instances that are closed, opened in phase 2 and opened in phase 1.
use native.Mathlib.Nat.{add-mod_right}
use fds.Prelude.{
  ℕ, ◌+◌, ◌%◌, ◌≤◌, ◌<◌, ◌≡◌, ◌≢◌, sym, ap, subst, Bool, true, ◌||◌, arith, update, update_same,
  update_other, ℕ_discrete, zero, suc, dec_lt,
}
use fds.Ring.Mcaster.Storage.{
  McasterStatus, ready, done, McasterRecord, is_p1_pending, is_p1_done, is_p2_pending, is_done,
}

abbrev pub is_open : McasterStatus → Bool
is_open s = is_p2_pending s || is_done s

abbrev pub is_pre : McasterStatus → Bool
is_pre s = is_p1_pending s || is_p1_done s

-- The slot of instance `i`, of `n` slots, when instances to `o` are open in phase 2 and those to `p`
-- in phase 1: its number, status and command.
pub data IsSlot (n o p i number : ℕ) (status : McasterStatus) (value : ℕ) : Type 0 where
  opened : i ≤ o → number ≡ i → is_open status ≡ true → IsSlot n o p i number status value
  preexecuted :
      o < i
      → i ≤ p
      → number ≡ i
      → is_pre status ≡ true
      → value ≡ 0
      → IsSlot n o p i number status value
  unused : p < i → number ≡ 0 → i ≤ n → value ≡ 0 → IsSlot n o p i number status value
  waiting : p < i → number ≡ i → status ≡ ready → value ≡ 0 → IsSlot n o p i number status value
  passed : p < i → 0 < number → number + n ≡ i → status ≡ done → IsSlot n o p i number status value

abbrev pub SlotOf : (n o p i : ℕ) → McasterRecord → Type 0
SlotOf n o p i mir = IsSlot n o p i mir.inst_number mir.status mir.assigned_cmd_value

-- The slots of the instances above `c`, as many as there are slots.
abbrev pub Slots : ℕ → (ℕ → McasterRecord) → (c o p : ℕ) → Type 0
Slots n arr c o p = (i : ℕ) → c < i → i ≤ c + n → SlotOf n o p i (arr (i % n))

-- Two instances of one slot in a window are one, and two others are `n` apart.
window_residue :
    (n c a b : ℕ) → 0 < n → a % n ≡ b % n → c < a → a ≤ c + n → c < b → b ≤ c + n → a ≡ b
window_residue n c a b hn e ha ha' hb hb' = grind arith

pub apart : (n a b : ℕ) → 0 < n → a % n ≡ b % n → b < a → b + n ≤ a
apart n a b hn e h = grind arith

add_residue : (n w i : ℕ) → 0 < n → w % n ≡ i % n → (w + n) % n ≡ i % n
add_residue n w i hn e = simp (add-mod_right) e

-- The instance of the window that has the slot of `i`.
pub partner : (n c i : ℕ) → 0 < n → i ≤ c → (w : ℕ) × (c < w) × (w ≤ c + n) × (w % n ≡ i % n)
partner n zero zero hn h = (n, hn, omega arith, grind arith)
partner n zero (suc i) hn h = absurd (omega arith)
partner n (suc c) i hn h = elim (dec_lt c i) [
  | yes lt ↦ (i + n, omega arith, omega arith, grind arith)
  | no ge ↦
      let (w, a, b, e) = partner n c i hn (omega arith) in
      elim (ℕ_discrete w (suc c)) [
        | yes q ↦ (w + n, omega arith, omega arith, add_residue n w i hn e)
        | no ne ↦ (w, omega arith, omega arith, e)
      ]
]

-- A write to the slot of an instance of the window, by what the other slots hold.
pub fill-Slots :
    (n : ℕ) (arr : ℕ → McasterRecord) (c o p i : ℕ) (mir : McasterRecord)
    → 0 < n
    → c < i
    → i ≤ c + n
    → SlotOf n o p i mir
    → ((j : ℕ) → c < j → j ≤ c + n → i % n ≢ j % n → SlotOf n o p j (arr (j % n)))
    → Slots n (update arr (i % n) mir) c o p
fill-Slots n arr c o p i mir hn h h' m others j hj hj' = elim (ℕ_discrete (i % n) (j % n)) [
  | yes e ↦
      subst (λ j. SlotOf n o p j (update arr (i % n) mir (j % n)))
        (window_residue n c i j hn e h h' hj hj') (rw (update_same arr (i % n) mir) m)
  | no ne ↦ rw (update_other arr (i % n) (j % n) mir ne) (others j hj hj' ne)
]

-- The same, where the bounds may move.
pub put-Slots :
    (n : ℕ) (arr : ℕ → McasterRecord) (c o p o' p' i : ℕ) (mir : McasterRecord)
    → 0 < n
    → c < i
    → i ≤ c + n
    → Slots n arr c o p
    → SlotOf n o' p' i mir
    → ((j : ℕ) → j ≢ i → SlotOf n o p j (arr (j % n)) → SlotOf n o' p' j (arr (j % n)))
    → Slots n (update arr (i % n) mir) c o' p'
put-Slots n arr c o p o' p' i mir hn h h' s m others =
    fill-Slots n arr c o' p' i mir hn h h' m
      (λ j hj hj' ne. others j (λ e. ne (ap (λ (k : ℕ). k % n) (sym e))) (s j hj hj'))

-- A write that leaves the number, the status and the command.
pub touch-Slots :
    (n : ℕ) (arr : ℕ → McasterRecord) (c o p k : ℕ) (mir : McasterRecord)
    → mir.inst_number ≡ (arr k).inst_number
    → mir.status ≡ (arr k).status
    → mir.assigned_cmd_value ≡ (arr k).assigned_cmd_value
    → Slots n arr c o p
    → Slots n (update arr k mir) c o p
touch-Slots n arr c o p k mir a b d s j hj hj' = elim (ℕ_discrete k (j % n)) [
  | yes e ↦
      subst (λ (l : ℕ). SlotOf n o p j (arr l) → SlotOf n o p j (update arr k mir l)) e
        (λ old. rw (update_same arr k mir, a, b, d) old) (s j hj hj')
  | no ne ↦ rw (update_other arr k (j % n) mir ne) (s j hj hj')
]
