-- ===== src/Ring/Mcaster/Closed.antt =====
-- ring_paxos/ring-paxos/acceptor_helpers_mcaster.c: the handler of messages of phase 2 keeps the
-- invariant; the loop that closes instances.
use fds.Prelude.{
  and-left, not-false, ℕ, zero, suc, ◌+◌, ◌%◌, ◌≤◌, ◌<◌, ◌≡◌, refl, sym, ap, ◌∙◌, subst, true, ◌&&◌,
  not, arith, leb, ltb, ◌==◌, Ensures, ensures_assert, ensures_bind, ensures_if, ensures_map,
  Bool-cases, inl, inr, some, ◌>>=◌, ◌>>◌, assert, update_same, dec_lt,
}
use native.Mathlib.Nat.{add-mod_right}
use fds.Ring.Types.{cmd_key_equals}
use fds.Ring.Acceptor.State.{Phase2Msg}
use fds.Ring.Mcaster.Storage.{
  McasterStatus, p2_pending, done, McasterConfig, McasterRecord, is_done, is_p2_pending,
}
use fds.Ring.Mcaster.State.{
  Mcaster, mir_of, put_mir, mcaster_do_phase2, mcaster_broadcast_mapping,
  mcaster_broadcast_acceptance,
}
use fds.Ring.Mcaster.Slots.{is_open, Slots, SlotOf, passed}
use fds.Ring.Mcaster.Handlers.{close_rounds, phase2_answered, mcaster_handle_phase2_msg}
use fds.Ring.Mcaster.At.{At, slot-open, open_write, put-At, send-At}
use fds.Ring.Mcaster.Found.{ensures_mir}
use fds.Ring.Mcaster.Opened.{repeat_phase2-At}
use fds.Ring.Mcaster.Inv.{IsConfig, Inv, Inv-At, At-Inv}

done-open : (s : McasterStatus) → is_done s ≡ true → is_open s ≡ true
done-open done h = refl
done-open _ h = ground arith

is_done→eq : (s : McasterStatus) → is_done s ≡ true → s ≡ done
is_done→eq done h = refl
is_done→eq _ h = ground arith

p2-open : (s : McasterStatus) → is_p2_pending s ≡ true → is_open s ≡ true
p2-open p2_pending h = refl
p2-open _ h = ground arith

-- One more instance is closed: its slot is that of the last instance of the new window.
close-Slots :
    (n : ℕ) (arr : ℕ → McasterRecord) (c o p : ℕ)
    → 0 < n
    → p ≤ c + n
    → (arr ((c + 1) % n)).inst_number ≡ c + 1
    → is_done (arr ((c + 1) % n)).status ≡ true
    → Slots n arr c o p
    → Slots n arr (c + 1) o p
close-Slots n arr c o p hn hp e d s j h h' = elim (dec_lt (c + n) j) [
  | no le ↦ s j (omega arith) (omega arith)
  | yes lt ↦
      let j_eq : j ≡ c + 1 + n = omega arith in
      subst (λ j. SlotOf n o p j (arr (j % n))) (sym j_eq)
        (subst (λ (k : ℕ). SlotOf n o p (c + 1 + n) (arr k)) (sym (add-mod_right (c + 1) n))
          (passed (omega arith) (omega (arith, e)) (omega (arith, e))
            (is_done→eq (arr ((c + 1) % n)).status d)))
]

module _ (cfg : McasterConfig) (w : IsConfig cfg) where
  -- The highest closed instance is raised over a record that is done.
  close_one :
      (i : ℕ) (acc : Mcaster)
      → Inv cfg acc
      → (mir_of acc i).inst_number ≡ i
      → (is_done (mir_of acc i).status
          && ((mir_of acc i).inst_number == acc.highest_closed_iid + 1))
        ≡ true
      → Inv cfg (record acc { highest_closed_iid = acc.highest_closed_iid + 1 })
  close_one i acc v e t =
      let n = acc.msm.array_size in
      let c = acc.highest_closed_iid in
      let b = v.bounded in
      let d = and-left (is_done (mir_of acc i).status) _ t in
      let i_eq : i ≡ c + 1 = ground arith in
      let e' = subst (λ (k : ℕ). (mir_of acc k).inst_number ≡ k) i_eq e in
      let d' = subst (λ (k : ℕ). is_done (mir_of acc k).status ≡ true) i_eq d in
      let hn : 0 < n = omega (arith, b.sized, w.positive) in
      let o_le =
        slot-open n c acc.highest_open_iid acc.p1_highest_open (c + 1) _ _ _ hn
          (v.slots (c + 1) (omega arith) (omega (arith, hn))) e'
          (done-open (mir_of acc (c + 1)).status d') in
      record {
        bounded = record {
          sized = b.sized;
          closed_le = o_le;
          counted = b.counted;
          ahead = b.ahead;
          active = omega (arith, b.active);
        };
        slots =
            close-Slots n acc.msm.instances_array c acc.highest_open_iid acc.p1_highest_open hn
              (omega (arith, b.sized, b.counted, b.ahead, b.active, w.windows)) e' d' v.slots;
      }

  close_rounds-Inv :
      (k i : ℕ) (acc : Mcaster)
      → Inv cfg acc
      → (mir_of acc i).inst_number ≡ i
      → Ensures (close_rounds k i acc) (Inv cfg)
  unfolding close_rounds
  close_rounds-Inv zero i acc v e = v
  close_rounds-Inv (suc k) i acc v e =
      elim (Bool-cases (
        is_done (mir_of acc i).status
        && ((mir_of acc i).inst_number == acc.highest_closed_iid + 1))) [
          | inr f ↦ rw (f, close_rounds) v
          | inl t ↦
              let acc1 = record acc { highest_closed_iid = acc.highest_closed_iid + 1 } in
              let v1 = close_one i acc v e t in
              let c = acc.highest_closed_iid + 1 in
              let next = acc.highest_closed_iid + 2 in
              rw (t, close_rounds)
                (ensures_mir acc.msm.array_size acc.p1_ready_count c acc.highest_open_iid
                  acc.p1_highest_open c acc.highest_open_iid acc.p1_highest_open next acc1
                  (Inv-At cfg acc1 v1) (Inv cfg)
                  (λ acc'.
                    assert ((mir_of acc' next).inst_number == next) >> close_rounds k next acc')
                  (omega (arith, v1.bounded.sized, w.positive)) (omega arith)
                  (omega (arith, v1.bounded.sized, w.positive))
                  λ acc' a e'.
                    ensures_assert (Inv cfg) ((mir_of acc' next).inst_number == next) _
                      λ _. close_rounds-Inv k next acc' (At-Inv cfg _ _ _ _ _ acc' v1.bounded a) e')
        ]

module _ (cfg : McasterConfig) (w : IsConfig cfg) where
  broadcast_done :
      (n r c o p i : ℕ) (acc : Mcaster)
      → At n r c o p c o p acc
      → (mir_of acc i).inst_number ≡ i
      → Ensures
          (mcaster_broadcast_acceptance i acc)
          (λ acc'. At n r c o p c o p acc' × ((mir_of acc' i).inst_number ≡ i))
  unfolding mcaster_broadcast_acceptance
  broadcast_done n r c o p i acc a e =
      ensures_assert _ (is_done (mir_of acc i).status) _
        (λ _. (send-At n r c o p c o p cfg i acc a _, e))

  phase2_answered-Inv :
      (msg : Phase2Msg) (acc : Mcaster)
      → acc.highest_closed_iid < msg.inst_number
      → msg.inst_number ≤ acc.p1_highest_open
      → Inv cfg acc
      → (mir_of acc msg.inst_number).inst_number ≡ msg.inst_number
      → is_p2_pending (mir_of acc msg.inst_number).status ≡ true
      → Ensures (phase2_answered cfg msg acc) (Inv cfg)
  unfolding phase2_answered
  phase2_answered-Inv msg acc h h' v e t =
      let i = msg.inst_number in
      let n = acc.msm.array_size in
      let r = acc.p1_ready_count in
      let c = acc.highest_closed_iid in
      let o = acc.highest_open_iid in
      let p = acc.p1_highest_open in
      let b = v.bounded in
      let hn : 0 < n = omega (arith, b.sized, w.positive) in
      let hi : i ≤ c + n = omega (arith, h', b.sized, b.counted, b.ahead, b.active, w.windows) in
      let is_open_now = p2-open (mir_of acc i).status t in
      let closed = record (mir_of acc i) { status = done } in
      let same = update_same acc.msm.instances_array (i % n) closed in
      ensures_if (Inv cfg) (ltb msg.accepts_count cfg.quorum_size) _ _
        (λ _.
          ensures_map (Inv cfg) (At n r c o p c o p)
            (mcaster_broadcast_mapping cfg i acc >>= λ acc. some (mcaster_do_phase2 cfg i acc))
            (λ acc' a. At-Inv cfg n r c o p acc' b a)
            (repeat_phase2-At cfg n r c o p hn i acc h hi (Inv-At cfg acc v) e is_open_now))
        (λ _.
          ensures_bind (Inv cfg)
            (λ acc'. At n r c o p c o p acc' × ((mir_of acc' i).inst_number ≡ i))
            (mcaster_broadcast_acceptance i (put_mir i closed acc)) _
            (broadcast_done n r c o p i (put_mir i closed acc)
              (put-At n r c o p c o p cfg i acc (Inv-At cfg acc v) closed (
                open_write n acc.msm.instances_array c o p i closed hn h hi v.slots e is_open_now
                  refl refl))
              (ap McasterRecord.inst_number same ∙ e))
            (λ acc' q.
              close_rounds-Inv cfg w (suc acc'.msm.array_size) i acc'
                (At-Inv cfg n r c o p acc' b q.0) q.1))

  pub mcaster_handle_phase2_msg-Inv :
      (msg : Phase2Msg) (acc : Mcaster)
      → msg.inst_number ≤ acc.p1_highest_open
      → Inv cfg acc
      → Ensures (mcaster_handle_phase2_msg cfg msg acc) (Inv cfg)
  unfolding mcaster_handle_phase2_msg
  mcaster_handle_phase2_msg-Inv msg acc h v =
      let i = msg.inst_number in
      let n = acc.msm.array_size in
      let r = acc.p1_ready_count in
      let c = acc.highest_closed_iid in
      let o = acc.highest_open_iid in
      let p = acc.p1_highest_open in
      let b = v.bounded in
      ensures_if (Inv cfg) (leb i c) (some acc) _ (λ _. v)
        λ gt.
          ensures_mir n r c o p c o p i acc (Inv-At cfg acc v) (Inv cfg) _
            (omega (arith, b.sized, w.positive)) (ground arith)
            (omega (arith, h, b.sized, b.counted, b.ahead, b.active, w.windows))
            λ acc' a e.
              let v' = At-Inv cfg n r c o p acc' b a in
              ensures_assert (Inv cfg) ((mir_of acc' i).inst_number == i) _ λ _.
                ensures_if (Inv cfg) (not (is_p2_pending (mir_of acc' i).status)) (some acc') _
                  (λ _. v')
                  λ t.
                    ensures_if (Inv cfg) (not ((mir_of acc' i).ballot == msg.ballot)) (some acc') _
                      (λ _. v')
                      λ _.
                        ensures_assert (Inv cfg)
                          (cmd_key_equals (mir_of acc' i).assigned_cmd_key msg.cmd_key) _
                          λ _.
                            phase2_answered-Inv msg acc' (ground (arith, a.closed))
                              (omega (arith, h, a.begun)) v' e (not-false _ t)
