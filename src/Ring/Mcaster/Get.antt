-- ===== src/Ring/Mcaster/Get.antt =====
-- ring_paxos/lib/mcaster_storage.c: `mcaster_storage_get` keeps what the slots hold.
use fds.Prelude.{
  ℕ, ◌+◌, ◌%◌, ◌≤◌, ◌<◌, ◌≡◌, ◌≢◌, refl, subst, true, false, arith, ltb, ◌==◌, update, update_same,
  update_other, ℕ_discrete, Option, List, Ensures, is_some, none, some, dec_lt, Bool-cases, inl,
  inr, ensures_assert, ensures_if, ◌>>=◌,
}
use fds.Ring.Mcaster.Storage.{
  McasterRecord, McasterStorage, is_done, mir_at, free_value, mcaster_storage_get, begun,
  mcaster_storage_clear_record,
}
use fds.Ring.Mcaster.Slots.{
  opened, preexecuted, unused, waiting, passed, SlotOf, Slots, put-Slots, apart, partner,
}

-- The memory is changed and nothing else.
pub ensures_free {ℓ κ} :
    {A : Type ℓ} (P : A → Type κ) (p : ℕ) (f : McasterStorage → Option A) (msm : McasterStorage)
    → ((heap : ℕ → Option (List ℕ)) → Ensures (f (record msm { heap = heap })) P)
    → Ensures (free_value p msm >>= f) P
unfolding free_value
ensures_free P p f msm h = elim (Bool-cases (p == 0)) [
  | inl e ↦ rw e (h msm.heap)
  | inr e ↦ elim (Bool-cases (is_some (msm.heap p))) [
    | inl s ↦ rw (e, s) (h (update msm.heap p none))
    | inr s ↦ rw (e, s) tt
  ]
]

-- The slot holds the instance, or a newer one.
pub get_same :
    (i : ℕ) (msm : McasterStorage)
    → (mir_at msm i).inst_number ≡ i
    → i ≢ 0
    → mcaster_storage_get i msm ≡ some msm
unfolding mcaster_storage_get
get_same i msm e z = ground arith

pub get_newer :
    (i : ℕ) (msm : McasterStorage)
    → i < (mir_at msm i).inst_number
    → mcaster_storage_get i msm ≡ none
unfolding mcaster_storage_get
get_newer i msm e = ground arith

module _ {κ} (P : McasterStorage → Type κ) (c o p i : ℕ) (msm : McasterStorage) where
  -- The results that are allowed: the slots are kept, and that of `i` has its number.
  abbrev Kept : Type κ
  Kept =
      (heap : ℕ → Option (List ℕ)) (arr : ℕ → McasterRecord)
      → Slots msm.array_size arr c o p
      → (arr (i % msm.array_size)).inst_number ≡ i
      → P (record msm { instances_array = arr; heap = heap })

  -- A record that begins an instance not opened yet.
  begin-Slots :
      0 < msm.array_size
      → c < i
      → i ≤ c + msm.array_size
      → p < i
      → (mir : McasterRecord) → mir.assigned_cmd_value ≡ 0
      → Slots msm.array_size msm.instances_array c o p
      → Slots msm.array_size (update msm.instances_array (i % msm.array_size) (begun i mir)) c o p
  begin-Slots hn h h' b mir v s =
      put-Slots msm.array_size msm.instances_array c o p o p i (begun i mir) hn h h' s
        (waiting b refl refl v) (λ j _ k. k)

  begin_number :
      (mir : McasterRecord)
      → (update msm.instances_array
          (i % msm.array_size)
          (begun i mir)
          (i % msm.array_size)).inst_number
        ≡ i
  begin_number mir = rw (update_same msm.instances_array (i % msm.array_size) (begun i mir)) refl

  -- An instance of the window.
  pub ensures_get :
      0 < msm.array_size
      → c < i
      → i ≤ c + msm.array_size
      → Slots msm.array_size msm.instances_array c o p
      → Kept
      → Ensures (mcaster_storage_get i msm) P
  unfolding mcaster_storage_get
  ensures_get hn h h' s k = by_slot (s i h h')
    where
      same : (mir_at msm i).inst_number ≡ i → Ensures (mcaster_storage_get i msm) P
      same e = rw (get_same i msm e (omega arith)) (k msm.heap msm.instances_array s e)

      by_slot : SlotOf msm.array_size o p i (mir_at msm i) → Ensures (mcaster_storage_get i msm) P
      by_slot (opened a e b) = same e
      by_slot (preexecuted a b e q v) = same e
      by_slot (waiting a e q v) = same e
      by_slot (unused a e b v) =
          let z : ((mir_at msm i).inst_number == 0) ≡ true = ground arith in
          rw z
            (k msm.heap _ (begin-Slots hn h h' a (mir_at msm i) v s) (begin_number (mir_at msm i)))
      by_slot (passed a b e q) =
          let z : ((mir_at msm i).inst_number == 0) ≡ false = ground arith in
          let l : ltb (mir_at msm i).inst_number i ≡ true = ground arith in
          let mir = mcaster_storage_clear_record (mir_at msm i) in
          rw (z, l)
            (ensures_assert P (is_done (mir_at msm i).status) _ λ _.
              ensures_free P (mir_at msm i).assigned_cmd_value _ msm
                λ heap. k heap _ (begin-Slots hn h h' a mir refl s) (begin_number mir))

  -- An instance below the window, or in it.
  pub ensures_get_old :
      0 < msm.array_size
      → 0 < i
      → i ≤ c + msm.array_size
      → Slots msm.array_size msm.instances_array c o p
      → Kept
      → Ensures (mcaster_storage_get i msm) P
  ensures_get_old hn z h' s k = elim (dec_lt c i) [
    | yes h ↦ ensures_get hn h h' s k
    | no h ↦
        let (w, a, b, e) = partner msm.array_size c i hn (omega arith) in
        by_slot w a (apart msm.array_size w i hn e (omega arith))
          (subst (λ (j : ℕ). SlotOf msm.array_size o p w (msm.instances_array j)) e (s w a b))
  ]
    where
      newer : i < (mir_at msm i).inst_number → Ensures (mcaster_storage_get i msm) P
      newer lt = rw (get_newer i msm lt) tt

      same : (mir_at msm i).inst_number ≡ i → Ensures (mcaster_storage_get i msm) P
      same e = rw (get_same i msm e (omega arith)) (k msm.heap msm.instances_array s e)

      by_slot :
          (w : ℕ)
          → c < w
          → i + msm.array_size ≤ w
          → SlotOf msm.array_size o p w (mir_at msm i)
          → Ensures (mcaster_storage_get i msm) P
      by_slot w a l (opened _ e _) = newer (omega arith)
      by_slot w a l (preexecuted _ _ e _ _) = newer (omega arith)
      by_slot w a l (waiting _ e _ _) = newer (omega arith)
      by_slot w a l (unused _ e b _) = absurd (omega arith)
      by_slot w a l (passed _ b e _) = elim (ℕ_discrete (mir_at msm i).inst_number i) [
        | yes q ↦ same q
        | no q ↦ newer (omega arith)
      ]

-- The other slots are left as they are.
pub get_other :
    (i : ℕ) (msm : McasterStorage)
    → Ensures (mcaster_storage_get i msm) (λ msm'.
      (msm'.array_size ≡ msm.array_size)
      × ((k : ℕ) → i % msm.array_size ≢ k → msm'.instances_array k ≡ msm.instances_array k))
unfolding mcaster_storage_get
get_other i msm =
    let at = i % msm.array_size in
    ensures_if _ ((mir_at msm i).inst_number == 0) _ _
      (λ _. (refl, λ k ne. update_other msm.instances_array at k _ ne))
      λ _.
        ensures_if _ (ltb (mir_at msm i).inst_number i) _ _
          (λ _. ensures_assert _ (is_done (mir_at msm i).status) _ λ _.
            ensures_free _ (mir_at msm i).assigned_cmd_value _ msm
              (λ heap. (refl, λ k ne. update_other msm.instances_array at k _ ne)))
          (λ _.
            ensures_if _ (ltb i (mir_at msm i).inst_number) none (some msm) (λ _. tt)
              (λ _. (refl, λ k ne. refl)))

-- A slot that holds an older instance that is not done.
pub get_unfinished :
    (i : ℕ) (msm : McasterStorage)
    → 0 < (mir_at msm i).inst_number
    → (mir_at msm i).inst_number < i
    → is_done (mir_at msm i).status ≡ false
    → mcaster_storage_get i msm ≡ none
unfolding mcaster_storage_get
get_unfinished i msm z lt d =
    let a : ((mir_at msm i).inst_number == 0) ≡ false = ground arith in
    let b : ltb (mir_at msm i).inst_number i ≡ true = ground arith in rw (a, b, d)
