-- ===== src/Ring/Mcaster/Found.antt =====
-- ring_paxos/ring-paxos/acceptor_helpers_mcaster.c: rules for a record that is looked up, and for the
-- loops over a range with a counter of 32 bits.
use fds.Prelude.{
  ℕ, zero, suc, ◌+◌, ◌-◌, ◌%◌, ◌^◌, ◌≤◌, ◌<◌, ◌≡◌, refl, sym, subst, true, false, arith, leb,
  Option, List, Ensures, ensures_bind, some, none, ◌>>=◌, dec_lt,
}
use fds.Ring.Mcaster.Storage.{McasterRecord, mcaster_storage_get}
use fds.Ring.Mcaster.State.{Mcaster, mir_of, get_mir, with_storage, for_rounds, for_range}
use fds.Ring.Mcaster.Slots.{Slots}
use fds.Ring.Mcaster.Get.{ensures_get, ensures_get_old}
use fds.Ring.Mcaster.At.{At}

-- The record of an instance of the window, or one below it.
module _ (n r c o p c' o' p' i : ℕ) (acc : Mcaster) (a : At n r c o p c' o' p' acc) where
  Found : Mcaster → Type 0
  Found acc' = At n r c o p c' o' p' acc' × ((mir_of acc' i).inst_number ≡ i)

  found :
      (heap : ℕ → Option (List ℕ)) (arr : ℕ → McasterRecord)
      → Slots acc.msm.array_size arr c' o' p'
      → (arr (i % acc.msm.array_size)).inst_number ≡ i
      → Found (with_storage acc (record acc.msm { instances_array = arr; heap = heap }))
  unfolding Found
  found heap arr s e = (
    record {
      sized = a.sized;
      ready = a.ready;
      closed = a.closed;
      opened = a.opened;
      begun = a.begun;
      slots = s;
    },
    e,
  )

  pub ensures_mir {ℓ κ} :
      {A : Type ℓ} (P : A → Type κ) (f : Mcaster → Option A)
      → 0 < acc.msm.array_size
      → c' < i
      → i ≤ c' + acc.msm.array_size
      → ((acc' : Mcaster)
          → At n r c o p c' o' p' acc'
          → (mir_of acc' i).inst_number ≡ i
          → Ensures (f acc') P)
      → Ensures (get_mir i acc >>= f) P
  unfolding Found
  ensures_mir P f hn h h' k =
      ensures_bind P Found (get_mir i acc) f
        (ensures_bind Found (λ msm. Found (with_storage acc msm)) (mcaster_storage_get i acc.msm) _
          (ensures_get (λ msm. Found (with_storage acc msm)) c' o' p' i acc.msm hn h h' a.slots
            found)
          (λ msm q. q))
        (λ acc' q. k acc' q.0 q.1)

  pub ensures_mir_old {ℓ κ} :
      {A : Type ℓ} (P : A → Type κ) (f : Mcaster → Option A)
      → 0 < acc.msm.array_size
      → 0 < i
      → i ≤ c' + acc.msm.array_size
      → ((acc' : Mcaster)
          → At n r c o p c' o' p' acc'
          → (mir_of acc' i).inst_number ≡ i
          → Ensures (f acc') P)
      → Ensures (get_mir i acc >>= f) P
  unfolding Found
  ensures_mir_old P f hn h h' k =
      ensures_bind P Found (get_mir i acc) f
        (ensures_bind Found (λ msm. Found (with_storage acc msm)) (mcaster_storage_get i acc.msm) _
          (ensures_get_old (λ msm. Found (with_storage acc msm)) c' o' p' i acc.msm hn h h' a.slots
            found)
          (λ msm q. q))
        (λ acc' q. k acc' q.0 q.1)

>>=-none {ℓ κ} :
    {A : Type ℓ} {B : Type κ} (m : Option A) (f : A → Option B)
    → ((a : A) → f a ≡ none)
    → (m >>= f) ≡ none
>>=-none none f h = refl
>>=-none (some a) f h = h a

-- The loop with a counter of 32 bits.
module _ (step : ℕ → Mcaster → Option Mcaster) (to : ℕ) where
  -- It does not end where the counter cannot pass the bound.
  for_rounds_endless :
      (n i : ℕ) (acc : Mcaster) → 2 ^ 32 ≤ to + 1 → i < 2 ^ 32 → for_rounds step to n i acc ≡ none
  unfolding for_rounds
  for_rounds_endless zero i acc h hi = refl
  for_rounds_endless (suc n) i acc h hi =
      let b : leb i to ≡ true = ground arith in
      rw (b, for_rounds)
        (>>=-none (step i acc) (for_rounds step to n ((i + 1) % 2 ^ 32))
          λ acc. for_rounds_endless n ((i + 1) % 2 ^ 32) acc h (omega arith))

  for_rounds_end : (n i : ℕ) (acc : Mcaster) → to < i → for_rounds step to (suc n) i acc ≡ some acc
  unfolding for_rounds
  for_rounds_end n i acc h = let b : leb i to ≡ false = ground arith in rw (b, for_rounds)

  for_rounds_next :
      (n i : ℕ) (acc : Mcaster)
      → i ≤ to
      → to + 1 < 2 ^ 32
      → for_rounds step to (suc n) i acc ≡ (step i acc >>= for_rounds step to n (i + 1))
  unfolding for_rounds
  for_rounds_next n i acc h h' =
      let b : leb i to ≡ true = ground arith in
      let e : (i + 1) % 2 ^ 32 ≡ i + 1 = omega arith in rw (b, for_rounds, e)

  module _ {κ} (P : ℕ → Mcaster → Type κ)
      (keep : (i : ℕ) (acc : Mcaster)
        → i ≤ to
        → P i acc
        → Ensures (step i acc) (λ acc'. P (i + 1) acc')) where
    for_rounds_inv :
        (n i : ℕ) (acc : Mcaster)
        → to + 1 < 2 ^ 32
        → i ≤ to + 1
        → P i acc
        → Ensures (for_rounds step to n i acc) (λ acc'. P (to + 1) acc')
    unfolding for_rounds
    for_rounds_inv zero i acc h hi q = tt
    for_rounds_inv (suc n) i acc h hi q = elim (dec_lt to i) [
      | yes lt ↦
          let e : to + 1 ≡ i = omega arith in
          rw (for_rounds_end n i acc lt) (subst (λ j. P j acc) (sym e) q)
      | no ge ↦ rw (for_rounds_next n i acc (omega arith) h) (
          ensures_bind (λ acc'. P (to + 1) acc') (λ acc'. P (i + 1) acc') (step i acc) _
            (keep i acc (omega arith) q)
            (λ acc' q'. for_rounds_inv n (i + 1) acc' h (omega arith) q'))
    ]

    pub for_range_inv :
        (from : ℕ) (acc : Mcaster)
        → from ≤ to + 1
        → P from acc
        → Ensures (for_range step from to acc) (λ acc'. P (to + 1) acc')
    unfolding for_range
    for_range_inv from acc h q = elim (dec_lt (to + 1) (2 ^ 32)) [
      | yes lt ↦
          let e : from % 2 ^ 32 ≡ from = omega arith in
          rw e (for_rounds_inv (suc (to + 1 - from)) from acc lt h q)
      | no ge ↦
          rw
            (for_rounds_endless (suc (to + 1 - from % 2 ^ 32)) (from % 2 ^ 32) acc (omega arith)
              (omega arith))
            tt
    ]

-- The first round stops it.
pub for_range_stops :
    (step : ℕ → Mcaster → Option Mcaster) (from to : ℕ) (acc : Mcaster)
    → from ≤ to
    → step from acc ≡ none
    → for_range step from to acc ≡ none
unfolding for_range
for_range_stops step from to acc h e = elim (dec_lt (to + 1) (2 ^ 32)) [
  | yes lt ↦
      let f : from % 2 ^ 32 ≡ from = omega arith in
      rw (f, for_rounds_next step to (to + 1 - from) from acc h lt, e) refl
  | no ge ↦
      for_rounds_endless step to (suc (to + 1 - from % 2 ^ 32)) (from % 2 ^ 32) acc (omega arith)
        (omega arith)
]
