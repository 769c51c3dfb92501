-- ===== src/Ring/Mcaster/Requested.antt =====
-- ring_paxos/ring-paxos/acceptor_helpers_mcaster.c: the handlers of messages of requests and of clients' values
-- keep the invariant.
use fds.Prelude.{
  ℕ, ◌≤◌, ◌<◌, arith, ◌==◌, Option, List, [], ◌∷◌, length, Ensures, ensures_assert, ensures_bind,
  ensures_if, ensures_map, All,
}
use fds.Ring.Types.{timer_is_expired}
use fds.Ring.Queue.{QueueEffect, copied, freed, cvm_save_value}
use fds.Ring.Mcaster.Storage.{McasterConfig, McasterStorage, is_done, run_effects}
use fds.Ring.Mcaster.State.{Mcaster, mir_of, with_storage, mcaster_broadcast_mapping}
use fds.Ring.Mcaster.Get.{ensures_free}
use fds.Ring.Mcaster.Handlers.{
  map_request_step, mcaster_handle_map_request, chosenval_request_step,
  mcaster_handle_chosenval_request, mcaster_handle_value_submit,
}
use fds.Ring.Mcaster.At.{At, mcaster_broadcast_mapping-At, mcaster_broadcast_acceptance-At}
use fds.Ring.Mcaster.Found.{ensures_mir_old}
use fds.Ring.Mcaster.Inv.{IsConfig, IsBounded, Inv, Inv-At, At-Inv}

-- The effects of the queue change the memory and nothing else.
ensures_effects {κ} :
    (P : McasterStorage → Type κ) (source : List ℕ) (es : List QueueEffect) (msm : McasterStorage)
    → ((heap : ℕ → Option (List ℕ)) → P (record msm { heap = heap }))
    → Ensures (run_effects source es msm) P
unfolding run_effects
ensures_effects P source [] msm h = h msm.heap
ensures_effects P source (copied address from size ∷ es) msm h =
    ensures_effects P source es (record msm { heap = _ }) (λ heap. h heap)
ensures_effects P source (freed p ∷ es) msm h =
    ensures_free P p (run_effects source es) msm
      (λ heap. ensures_effects P source es (record msm { heap = heap }) (λ heap. h heap))

-- The instances that a message may name: those that are opened in phase 1.
abbrev pub IsKnown : Mcaster → ℕ → Type 0
IsKnown acc i = (0 < i) × (i ≤ acc.p1_highest_open)

module _ (cfg : McasterConfig) (n r c o p : ℕ) (b : IsBounded cfg n r c o p)
    (w : IsConfig cfg) where
  map_request_step-At :
      (i : ℕ) (acc : Mcaster)
      → 0 < i
      → i ≤ p
      → At n r c o p c o p acc
      → Ensures (map_request_step cfg i acc) (At n r c o p c o p)
  unfolding map_request_step
  map_request_step-At i acc h h' a =
      ensures_mir_old n r c o p c o p i acc a (At n r c o p c o p) _
        (omega (arith, a.sized, b.sized, w.positive)) h
        (omega (arith, h', a.sized, b.sized, b.counted, b.ahead, b.active, w.windows))
        λ acc' a' e. ensures_assert (At n r c o p c o p) ((mir_of acc' i).inst_number == i) _ λ _.
          ensures_if (At n r c o p c o p)
            (timer_is_expired (mir_of acc' i).repeat_cmdmap_timeout acc'.mcaster_clock) _ _
            (λ _.
              ensures_map (At n r c o p c o p) _ (mcaster_broadcast_mapping cfg i acc')
                (λ acc2 q. q.0) (mcaster_broadcast_mapping-At n r c o p c o p cfg i acc' a'))
            (λ _. a')

  chosenval_request_step-At :
      (i : ℕ) (acc : Mcaster)
      → 0 < i
      → i ≤ p
      → At n r c o p c o p acc
      → Ensures (chosenval_request_step i acc) (At n r c o p c o p)
  unfolding chosenval_request_step
  chosenval_request_step-At i acc h h' a =
      ensures_mir_old n r c o p c o p i acc a (At n r c o p c o p) _
        (omega (arith, a.sized, b.sized, w.positive)) h
        (omega (arith, h', a.sized, b.sized, b.counted, b.ahead, b.active, w.windows))
        λ acc' a' e. ensures_assert (At n r c o p c o p) ((mir_of acc' i).inst_number == i) _ λ _.
          ensures_if (At n r c o p c o p) (is_done (mir_of acc' i).status) _ _
            (λ _. mcaster_broadcast_acceptance-At n r c o p c o p cfg i acc' a') (λ _. a')

  map_request-At :
      (is : List ℕ) (acc : Mcaster)
      → All (λ i. (0 < i) × (i ≤ p)) is
      → At n r c o p c o p acc
      → Ensures (mcaster_handle_map_request cfg is acc) (At n r c o p c o p)
  unfolding mcaster_handle_map_request
  map_request-At [] acc h a = a
  map_request-At (i ∷ is) acc h a =
      ensures_bind (At n r c o p c o p) (At n r c o p c o p) (map_request_step cfg i acc) _
        (map_request_step-At i acc h.0.0 h.0.1 a) (λ acc' a'. map_request-At is acc' h.1 a')

  chosenval_request-At :
      (is : List ℕ) (acc : Mcaster)
      → All (λ i. (0 < i) × (i ≤ p)) is
      → At n r c o p c o p acc
      → Ensures (mcaster_handle_chosenval_request is acc) (At n r c o p c o p)
  unfolding mcaster_handle_chosenval_request
  chosenval_request-At [] acc h a = a
  chosenval_request-At (i ∷ is) acc h a =
      ensures_bind (At n r c o p c o p) (At n r c o p c o p) (chosenval_request_step i acc) _
        (chosenval_request_step-At i acc h.0.0 h.0.1 a)
        (λ acc' a'. chosenval_request-At is acc' h.1 a')

module _ (cfg : McasterConfig) (w : IsConfig cfg) (acc : Mcaster) (v : Inv cfg acc) where
  pub mcaster_handle_map_request-Inv :
      (is : List ℕ)
      → All (IsKnown acc) is
      → Ensures (mcaster_handle_map_request cfg is acc) (Inv cfg)
  mcaster_handle_map_request-Inv is h =
      ensures_map (Inv cfg) _ (mcaster_handle_map_request cfg is acc)
        (λ acc' a. At-Inv cfg _ _ _ _ _ acc' v.bounded a)
        (map_request-At cfg _ _ _ _ _ v.bounded w is acc h (Inv-At cfg acc v))

  pub mcaster_handle_chosenval_request-Inv :
      (is : List ℕ)
      → All (IsKnown acc) is
      → Ensures (mcaster_handle_chosenval_request is acc) (Inv cfg)
  mcaster_handle_chosenval_request-Inv is h =
      ensures_map (Inv cfg) _ (mcaster_handle_chosenval_request is acc)
        (λ acc' a. At-Inv cfg _ _ _ _ _ acc' v.bounded a)
        (chosenval_request-At cfg _ _ _ _ _ v.bounded w is acc h (Inv-At cfg acc v))

  pub mcaster_handle_value_submit-Inv :
      (address cmd_value : ℕ) (bytes : List ℕ)
      → Ensures (mcaster_handle_value_submit address cmd_value bytes acc) (λ t. Inv cfg t.1)
  unfolding mcaster_handle_value_submit
  mcaster_handle_value_submit-Inv address cmd_value bytes =
      let saved = cvm_save_value address cmd_value (length bytes) acc.msm.cvm in
      ensures_bind (λ t. Inv cfg t.1) (λ msm. Inv cfg (with_storage acc msm))
        (run_effects bytes saved.2 (record acc.msm { cvm = saved.1 })) _
        (ensures_effects (λ msm. Inv cfg (with_storage acc msm)) bytes saved.2
          (record acc.msm { cvm = saved.1 })
          (λ heap. record { bounded = v.bounded; slots = v.slots }))
        (λ msm q. q)
