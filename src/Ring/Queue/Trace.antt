-- ===== src/Ring/Queue/Trace.antt =====
-- Operations on the queue of ring_paxos/lib/queue.c, one after another, against a list.
use fds.Prelude.{
  ℕ, ◌+◌, ◌%◌, ◌^◌, ◌<◌, ◌≡◌, refl, sym, ap, subst, List, [], ◌∷◌, ◌++◌, arith, Bool-cases, inl,
  inr, ◌==◌, length, Option, some, none, Bool, true, false, ltb, if◌then◌else◌, ◌>>=◌, is_some,
}
use fds.Ring.Queue.{
  QueueElement, LpQueue, QueueEffect, no_element, freed, max_queue_size_bytes, queue_init,
  queue_pop, queue_append, queue_prepend, stored,
}
use fds.Ring.Queue.Contents.{contents, below-mod}
use fds.Ring.Queue.Refines.{
  total, IsQueue, append-IsQueue, pop-IsQueue, discard-IsQueue, put_first-IsQueue,
}

-- A call, with the address that `malloc` would return for a copy, the value's pointer and its size.
pub data QueueOp : Type 0 where
  pop : QueueOp
  append : ℕ → ℕ → ℕ → Bool → QueueOp
  prepend : ℕ → ℕ → ℕ → Bool → QueueOp

-- What a call returns and does.
pub record Answer : Type 0 where
  pub success : Bool
  pub element : Option QueueElement
  pub effects : List QueueEffect

unfoldable pub run_op : QueueOp → LpQueue → Option (LpQueue × Answer)
unfolding queue_pop queue_append queue_prepend
run_op pop q =
    let r = queue_pop q in some (r.1, record { success = is_some r.0; element = r.0; effects = [] })
run_op (append address cmd_value cmd_size make_copy) q =
    let r = queue_append address cmd_value cmd_size make_copy q in
    some (r.1, record { success = r.0; element = none; effects = r.2 })
run_op (prepend address cmd_value cmd_size make_copy) q =
    queue_prepend address cmd_value cmd_size make_copy q >>= λ r.
    some (r.0, record { success = true; element = none; effects = r.1 })

unfoldable pub run_ops : List QueueOp → LpQueue → Option (LpQueue × List Answer)
unfolding run_op
run_ops [] q = some (q, [])
run_ops (o ∷ os) q = run_op o q >>= λ r. run_ops os r.0 >>= λ s. some (s.0, r.1 ∷ s.1)

-- The members but the last, and the last.
unfoldable pub split_last : QueueElement → List QueueElement → List QueueElement × QueueElement
split_last x [] = ([], x)
split_last x (y ∷ ys) = let r = split_last y ys in (x ∷ r.0, r.1)

split_last-append :
    (x : QueueElement) (xs : List QueueElement)
    → (split_last x xs).0 ++ (split_last x xs).1 ∷ [] ≡ x ∷ xs
unfolding split_last
split_last-append x [] = refl
split_last-append x (y ∷ ys) = ap (λ zs. x ∷ zs) (split_last-append y ys)

-- The same calls on a list of at most `max_count` members.
unfoldable pub list_op : ℕ → QueueOp → List QueueElement → List QueueElement × Answer
unfolding total split_last
list_op max_count pop [] = ([], record { success = false; element = none; effects = [] })
list_op max_count pop (x ∷ xs) = (xs, record { success = true; element = some x; effects = [] })
list_op max_count (append address cmd_value cmd_size make_copy) xs =
    let s = stored address make_copy cmd_value cmd_size in
    if length xs == max_count
    then (xs, record { success = false; element = none; effects = [] })
    else (if ltb max_queue_size_bytes (total xs % 2 ^ 32 + cmd_size)
        then (xs, record { success = false; element = none; effects = [] })
        else (xs ++ s.0 ∷ [], record { success = true; element = none; effects = s.1 }))
list_op max_count (prepend address cmd_value cmd_size make_copy) [] =
    let s = stored address make_copy cmd_value cmd_size in
    (s.0 ∷ [], record { success = true; element = none; effects = s.1 })
list_op max_count (prepend address cmd_value cmd_size make_copy) (x ∷ xs) =
    let s = stored address make_copy cmd_value cmd_size in
    if length (x ∷ xs) == max_count
    then (
      s.0 ∷ (split_last x xs).0,
      record { success = true; element = none; effects = freed (split_last x xs).1.address ∷ s.1 },
    )
    else (s.0 ∷ x ∷ xs, record { success = true; element = none; effects = s.1 })

unfoldable pub list_ops : ℕ → List QueueOp → List QueueElement → List QueueElement × List Answer
unfolding list_op
list_ops max_count [] xs = (xs, [])
list_ops max_count (o ∷ os) xs =
    let r = list_op max_count o xs in let s = list_ops max_count os r.0 in (s.0, r.1 ∷ s.1)

-- The result of a call that agrees with the list.
Agrees : LpQueue → QueueOp → List QueueElement → Type 0
Agrees q o xs =
    (q' : LpQueue) × (run_op o q ≡ some (q', (list_op q.max_count o xs).1))
    × IsQueue q' (list_op q.max_count o xs).0
    × (q'.max_count ≡ q.max_count)

pop-Agrees : (q : LpQueue) (xs : List QueueElement) → IsQueue q xs → Agrees q pop xs
unfolding Agrees run_op list_op queue_pop
pop-Agrees q [] h =
    let e : (q.queue_count == 0) ≡ true = let c = h.counted in ground arith in
    rw e (q, refl, h, refl)
pop-Agrees q (x ∷ xs) h =
    let (q', e, h', m) = pop-IsQueue q x xs h in
    (
      q',
      ap (λ r. some (r.1, record { success = is_some r.0; element = r.0; effects = [] })) e,
      h',
      m,
    )

append-Agrees :
    (address cmd_value cmd_size : ℕ) (make_copy : Bool) (q : LpQueue) (xs : List QueueElement)
    → 0 < q.max_count
    → IsQueue q xs
    → Agrees q (append address cmd_value cmd_size make_copy) xs
unfolding Agrees run_op list_op queue_append
append-Agrees address cmd_value cmd_size make_copy q xs pos h =
    elim (Bool-cases (q.queue_count == q.max_count)) [
      | inl full ↦
          let l : (length xs == q.max_count) ≡ true =
            subst (λ n. (n == q.max_count) ≡ true) h.counted full in
          rw (full, l) (q, refl, h, refl)
      | inr free ↦
          let l : (length xs == q.max_count) ≡ false =
            subst (λ n. (n == q.max_count) ≡ false) h.counted free in
          elim (Bool-cases (ltb max_queue_size_bytes (q.queue_size + cmd_size))) [
            | inl large ↦
                let t : ltb max_queue_size_bytes (total xs % 2 ^ 32 + cmd_size) ≡ true =
                  subst (λ n. ltb max_queue_size_bytes (n + cmd_size) ≡ true) h.sized large in
                rw (free, l, large, t) (q, refl, h, refl)
            | inr fits ↦
                let t : ltb max_queue_size_bytes (total xs % 2 ^ 32 + cmd_size) ≡ false =
                  subst (λ n. ltb max_queue_size_bytes (n + cmd_size) ≡ false) h.sized fits in
                rw (free, l, fits, t)
                  (
                    _,
                    refl,
                    append-IsQueue q xs (stored address make_copy cmd_value cmd_size).0 h
                        (ground (arith, h.room)),
                    refl,
                  )
          ]
    ]

prepend-Agrees :
    (address cmd_value cmd_size : ℕ) (make_copy : Bool) (q : LpQueue) (xs : List QueueElement)
    → 0 < q.max_count
    → IsQueue q xs
    → Agrees q (prepend address cmd_value cmd_size make_copy) xs
unfolding Agrees run_op list_op queue_prepend
prepend-Agrees address cmd_value cmd_size make_copy q [] pos h =
    let free : (q.queue_count == q.max_count) ≡ false = let c = h.counted in ground arith in
    rw free (
      _,
      refl,
      put_first-IsQueue q [] (stored address make_copy cmd_value cmd_size).0 h
          (omega (arith, h.counted, pos)),
      refl,
    )
prepend-Agrees address cmd_value cmd_size make_copy q (x ∷ xs) pos h =
    elim (Bool-cases (q.queue_count == q.max_count)) [
      | inr free ↦
          let l : (length (x ∷ xs) == q.max_count) ≡ false =
            subst (λ n. (n == q.max_count) ≡ false) h.counted free in
          rw (free, l)
            (
              _,
              refl,
              put_first-IsQueue q (x ∷ xs) (stored address make_copy cmd_value cmd_size).0 h
                  (ground (arith, h.room)),
              refl,
            )
      | inl full ↦
          let l : (length (x ∷ xs) == q.max_count) ≡ true =
            subst (λ n. (n == q.max_count) ≡ true) h.counted full in
          let (q', e, h', m, lt) =
            discard-IsQueue q (split_last x xs).0 (split_last x xs).1
              (subst (IsQueue q) (sym (split_last-append x xs)) h) in
          rw (full, l, e)
            (
              _,
              refl,
              put_first-IsQueue q' (split_last x xs).0
                  (stored address make_copy cmd_value cmd_size).0 h' lt,
              m,
            )
    ]

run_op-Agrees :
    (o : QueueOp) (q : LpQueue) (xs : List QueueElement)
    → 0 < q.max_count
    → IsQueue q xs
    → Agrees q o xs
run_op-Agrees pop q xs pos h = pop-Agrees q xs h
run_op-Agrees (append a v n c) q xs pos h = append-Agrees a v n c q xs pos h
run_op-Agrees (prepend a v n c) q xs pos h = prepend-Agrees a v n c q xs pos h

run_ops-Agrees :
    (os : List QueueOp) (q : LpQueue) (xs : List QueueElement)
    → 0 < q.max_count
    → IsQueue q xs
    → (q' : LpQueue) × (run_ops os q ≡ some (q', (list_ops q.max_count os xs).1))
      × IsQueue q' (list_ops q.max_count os xs).0
unfolding run_ops list_ops Agrees
run_ops-Agrees [] q xs pos h = (q, refl, h)
run_ops-Agrees (o ∷ os) q xs pos h =
    let (q1, e1, h1, m1) = run_op-Agrees o q xs pos h in
    let (q2, e2, h2) =
      run_ops-Agrees os q1 (list_op q.max_count o xs).0 (omega (arith, m1, pos)) h1 in
    (
      q2,
      rw (e1, e2)
          (ap
            (λ m.
              some
                (q2, (list_op q.max_count o xs).1 ∷ (list_ops m os (list_op q.max_count o xs).0).1))
            m1),
      subst (λ m. IsQueue q2 (list_ops m os (list_op q.max_count o xs).0).0) m1 h2,
    )

abbrev pub new_queue : ℕ → LpQueue
new_queue n = record {
  queue_count = 0;
  max_count = n;
  queue_size = 0;
  read_index = 0;
  write_index = 0;
  queue = λ i. no_element;
}

pub new-IsQueue : (n : ℕ) → 0 < n → IsQueue (new_queue n) []
unfolding contents total
new-IsQueue n pos = record {
  in_array = pos;
  counted = refl;
  room = omega arith;
  held = refl;
  next = sym (below-mod n 0 pos);
  sized = refl;
}

-- From a new queue of positive length, any sequence of pops, appends and prepends, with and without
-- copies, is run without an assertion failing; every call returns, copies and frees what it does on a list
-- of at most that many members, where an append to a full list or one of too many bytes is
-- refused, and a prepend to a full list drops and frees the last member; and what stands in the
-- array at the end, from the read index on, is that list.
pub run_ops-list :
    (queue_length : ℕ) (os : List QueueOp)
    → 0 < queue_length
    → (q0 : LpQueue) × (q : LpQueue) × (queue_init queue_length ≡ some q0)
      × (run_ops os q0 ≡ some (q, (list_ops queue_length os []).1))
      × (contents q.queue q.max_count q.read_index q.queue_count ≡ (list_ops queue_length os []).0)
unfolding queue_init
run_ops-list n os pos =
    let z : (n == 0) ≡ false = ground arith in
    let (q, e, h) = run_ops-Agrees os (new_queue n) [] pos (new-IsQueue n pos) in
    (new_queue n, q, rw z refl, e, h.held)
