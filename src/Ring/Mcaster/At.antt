-- ===== src/Ring/Mcaster/At.antt =====
-- ring_paxos/ring-paxos/acceptor_helpers_mcaster.c: the routines on one instance keep what the slots
-- hold. `n` slots, and instances to `c` closed, to `o` open in phase 2, to `p` in phase 1.
use fds.Prelude.{
  ℕ, ◌+◌, ◌%◌, ◌≤◌, ◌<◌, ◌≡◌, refl, ap, ◌∙◌, true, false, arith, ◌==◌, not, update_same, Ensures,
  ensures_assert, ensures_after, update,
}
use fds.Ring.Types.{CommandId}
use fds.Ring.Mcaster.Storage.{
  McasterStatus, ready, p1_pending, p1_done, done, McasterRecord, McasterConfig, is_p1_pending,
  is_done, read_value,
}
use fds.Ring.Mcaster.State.{
  Sent, Mcaster, mir_of, put_mir, send, mcaster_do_phase1, mcaster_do_phase2,
  mcaster_broadcast_mapping, mcaster_broadcast_acceptance,
}
use fds.Ring.Mcaster.Slots.{
  is_open, is_pre, IsSlot, opened, preexecuted, unused, waiting, passed, Slots, put-Slots,
  touch-Slots,
}

-- A state with these numbers, of which those of phase 1 and phase 2 may run ahead of their slots.
pub record At (n r c o p : ℕ) (c' o' p' : ℕ) (acc : Mcaster) : Type 0 where
  pub sized : acc.msm.array_size ≡ n
  pub ready : acc.p1_ready_count ≡ r
  pub closed : acc.highest_closed_iid ≡ c
  pub opened : acc.highest_open_iid ≡ o
  pub begun : acc.p1_highest_open ≡ p
  pub slots : Slots acc.msm.array_size acc.msm.instances_array c' o' p'

pub pending-pre : (s : McasterStatus) → is_p1_pending s ≡ true → is_pre s ≡ true
pending-pre p1_pending h = refl
pending-pre _ h = ground arith

pre-not_open : (s : McasterStatus) → is_pre s ≡ true → is_open s ≡ false
pre-not_open p1_pending h = refl
pre-not_open p1_done h = refl
pre-not_open _ h = ground arith

ready-not_pre : (s : McasterStatus) → s ≡ ready → is_pre s ≡ false
ready-not_pre s e = rw e refl

ready-not_open : (s : McasterStatus) → s ≡ ready → is_open s ≡ false
ready-not_open s e = rw e refl

done-not_pre : (s : McasterStatus) → s ≡ done → is_pre s ≡ false
done-not_pre s e = rw e refl

module _ (n c o p i number : ℕ) (status : McasterStatus) (value : ℕ) where
  -- A status of phase 1 in the slot of an instance with its number.
  pub slot-pre :
      IsSlot n o p i number status value
      → number ≡ i
      → is_pre status ≡ true
      → (o < i) × (i ≤ p) × (value ≡ 0)
  slot-pre (opened a e b) k h = let z = pre-not_open status h in absurd (cc)
  slot-pre (preexecuted a b e q v) k h = (a, b, v)
  slot-pre (waiting a e q v) k h = let z = ready-not_pre status q in absurd (cc)
  slot-pre (unused a e b v) k h = absurd (omega arith)
  slot-pre (passed a b e q) k h = let z = done-not_pre status q in absurd (cc)

  -- And one of phase 2.
  pub slot-open :
      0 < n → IsSlot n o p i number status value → number ≡ i → is_open status ≡ true → i ≤ o
  slot-open hn (opened a e b) k h = a
  slot-open hn (preexecuted a b e q v) k h = let z = pre-not_open status q in absurd (cc)
  slot-open hn (waiting a e q v) k h = let z = ready-not_open status q in absurd (cc)
  slot-open hn (unused a e b v) k h = absurd (omega arith)
  slot-open hn (passed a b e q) k h = absurd (omega arith)

-- Writes to the slot of instance `i`.
module _ (n : ℕ) (arr : ℕ → McasterRecord) (c o p i : ℕ) (mir : McasterRecord) where
  pub pre_write :
      0 < n
      → c < i
      → i ≤ c + n
      → Slots n arr c o p
      → (arr (i % n)).inst_number ≡ i
      → is_pre (arr (i % n)).status ≡ true
      → mir.inst_number ≡ (arr (i % n)).inst_number
      → mir.assigned_cmd_value ≡ (arr (i % n)).assigned_cmd_value
      → is_pre mir.status ≡ true
      → Slots n (update arr (i % n) mir) c o p
  pre_write hn h h' s e b k v b' =
      let (lo, hi, z) = slot-pre n c o p i _ _ _ (s i h h') e b in
      put-Slots n arr c o p o p i mir hn h h' s (preexecuted lo hi (k ∙ e) b' (v ∙ z)) (λ j _ t. t)

  pub open_write :
      0 < n
      → c < i
      → i ≤ c + n
      → Slots n arr c o p
      → (arr (i % n)).inst_number ≡ i
      → is_open (arr (i % n)).status ≡ true
      → mir.inst_number ≡ (arr (i % n)).inst_number
      → is_open mir.status ≡ true
      → Slots n (update arr (i % n) mir) c o p
  open_write hn h h' s e b k b' =
      let hi = slot-open n c o p i _ _ _ hn (s i h h') e b in
      put-Slots n arr c o p o p i mir hn h h' s (opened hi (k ∙ e) b') (λ j _ t. t)

-- The routines that send, on the record of instance `i`.
module _ (n r c o p c' o' p' : ℕ) (cfg : McasterConfig) (i : ℕ) (acc : Mcaster)
    (a : At n r c o p c' o' p' acc) where
  pub send-At : (m : Sent) → At n r c o p c' o' p' (send m acc)
  send-At m = record {
    sized = a.sized;
    ready = a.ready;
    closed = a.closed;
    opened = a.opened;
    begun = a.begun;
    slots = a.slots;
  }

  write-At :
      (mir : McasterRecord) (m : Sent)
      → Slots acc.msm.array_size
          (update acc.msm.instances_array (i % acc.msm.array_size) mir)
          c'
          o'
          p'
      → At n r c o p c' o' p' (put_mir i mir (send m acc))
  write-At mir m s = record {
    sized = a.sized;
    ready = a.ready;
    closed = a.closed;
    opened = a.opened;
    begun = a.begun;
    slots = s;
  }

  pub put-At :
      (mir : McasterRecord)
      → Slots acc.msm.array_size
          (update acc.msm.instances_array (i % acc.msm.array_size) mir)
          c'
          o'
          p'
      → At n r c o p c' o' p' (put_mir i mir acc)
  put-At mir s = record {
    sized = a.sized;
    ready = a.ready;
    closed = a.closed;
    opened = a.opened;
    begun = a.begun;
    slots = s;
  }

  pub mcaster_do_phase1-At :
      (stale : CommandId)
      → 0 < acc.msm.array_size
      → c' < i
      → i ≤ c' + acc.msm.array_size
      → (mir_of acc i).inst_number ≡ i
      → is_pre (mir_of acc i).status ≡ true
      → Ensures (mcaster_do_phase1 cfg stale i acc) (At n r c o p c' o' p')
  unfolding mcaster_do_phase1
  mcaster_do_phase1-At stale hn h h' e b =
      ensures_assert (At n r c o p c' o' p') (not ((mir_of acc i).ballot == 0)) _ λ _.
        write-At _ _ (
          pre_write acc.msm.array_size acc.msm.instances_array c' o' p' i _ hn h h' a.slots e b refl
            refl refl)

  pub mcaster_do_phase2-At :
      0 < acc.msm.array_size
      → c' < i
      → i ≤ c' + acc.msm.array_size
      → (mir_of acc i).inst_number ≡ i
      → is_open (mir_of acc i).status ≡ true
      → At n r c o p c' o' p' (mcaster_do_phase2 cfg i acc)
  unfolding mcaster_do_phase2
  mcaster_do_phase2-At hn h h' e b = write-At _ _ (
      open_write acc.msm.array_size acc.msm.instances_array c' o' p' i _ hn h h' a.slots e b refl
        refl)

  pub mcaster_broadcast_mapping-At : Ensures (mcaster_broadcast_mapping cfg i acc) (λ acc'.
      At n r c o p c' o' p' acc'
      × (acc'.msm.array_size ≡ acc.msm.array_size)
      × ((mir_of acc' i).inst_number ≡ (mir_of acc i).inst_number)
      × ((mir_of acc' i).status ≡ (mir_of acc i).status))
  unfolding mcaster_broadcast_mapping
  mcaster_broadcast_mapping-At =
      ensures_after _
        (read_value (mir_of acc i).assigned_cmd_value (mir_of acc i).assigned_cmd_size acc.msm) _
        λ value. (
          write-At _ _ (
              touch-Slots acc.msm.array_size acc.msm.instances_array c' o' p'
                (i % acc.msm.array_size) _ refl refl refl a.slots),
          refl,
          ap McasterRecord.inst_number
              (update_same acc.msm.instances_array (i % acc.msm.array_size) _),
          ap McasterRecord.status (update_same acc.msm.instances_array (i % acc.msm.array_size) _),
        )

  pub mcaster_broadcast_acceptance-At :
      Ensures (mcaster_broadcast_acceptance i acc) (At n r c o p c' o' p')
  unfolding mcaster_broadcast_acceptance
  mcaster_broadcast_acceptance-At =
      ensures_assert (At n r c o p c' o' p') (is_done (mir_of acc i).status) _ λ _. send-At _
