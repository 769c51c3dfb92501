-- ===== src/Ring/Pool/Stack.antt =====
-- ring_paxos/lib/memory_pool.c: the pool against a stack of addresses.
use fds.Prelude.{
  ℕ, suc, ◌<◌, ◌≡◌, refl, ap, ◌∙◌, arith, List, [], ◌∷◌, map, Bool, true, false, ◌&&◌, Option, none,
  some, ltb, leb, ◌==◌, if◌then◌else◌, ◌>>=◌, length, Bool-cases, inl, inr,
}
use fds.Ring.Queue.{QueueElement, QueueEffect, queue_prepend}
use fds.Ring.Queue.Refines.{IsQueue, pop-IsQueue, put_first-IsQueue}
use fds.Ring.Pool.{MemoryPool, is_mempool_chunk, checked_chunk, mempool_alloc, mempool_free}

length-map : (f : ℕ → QueueElement) (xs : List ℕ) → length (map f xs) ≡ length xs
length-map f [] = refl
length-map f (x ∷ xs) = ap suc (length-map f xs)

-- The free blocks, the next one first.
abbrev pub chunk : ℕ → ℕ → QueueElement
chunk size address = record { address = address; size = size }

abbrev pub between : ℕ → ℕ → ℕ → Bool
between low high address = leb low address && leb address high

unfoldable pub AllBetween : ℕ → ℕ → List ℕ → Type 0
AllBetween low high [] = Unit
AllBetween low high (x ∷ xs) = (between low high x ≡ true) × AllBetween low high xs

pub record IsPool (tot size low high : ℕ) (mp : MemoryPool) (xs : List ℕ) : Type 0 where
  pub tot_is : mp.tot_entries ≡ tot
  pub size_is : mp.entry_size ≡ size
  pub low_is : mp.pool_begin ≡ low
  pub high_is : mp.pool_end ≡ high
  pub counted : mp.cur_entries ≡ length xs
  pub queued : IsQueue mp.chunks_queue (map (chunk size) xs)
  pub room : mp.chunks_queue.max_count ≡ tot
  pub inside : AllBetween low high xs

pub data PoolOp : Type 0 where
  alloc : PoolOp
  free : ℕ → PoolOp

-- The blocks that are given out, one or none, and what the queue does.
pub record PoolAnswer : Type 0 where
  pub given : List ℕ
  pub effects : List QueueEffect

unfoldable pub run_pool_op : PoolOp → MemoryPool → Option (MemoryPool × PoolAnswer)
unfolding mempool_alloc mempool_free
run_pool_op alloc mp =
    mempool_alloc mp >>= λ r. some (r.1, record { given = r.0 ∷ []; effects = [] })
run_pool_op (free entry) mp =
    mempool_free entry mp >>= λ r. some (r.0, record { given = []; effects = r.1 })

unfoldable pub run_pool_ops : List PoolOp → MemoryPool → Option (List PoolAnswer)
unfolding run_pool_op
run_pool_ops [] mp = some []
run_pool_ops (o ∷ os) mp = run_pool_op o mp >>= λ r. run_pool_ops os r.0 >>= λ s. some (r.1 ∷ s)

unfoldable pub stack_op : ℕ → ℕ → ℕ → PoolOp → List ℕ → Option (List ℕ × PoolAnswer)
stack_op tot low high alloc [] = none
stack_op tot low high alloc (x ∷ xs) = some (xs, record { given = x ∷ []; effects = [] })
stack_op tot low high (free entry) xs =
    if ltb (length xs) tot && between low high entry
    then some (entry ∷ xs, record { given = []; effects = [] })
    else none

unfoldable pub stack_ops : ℕ → ℕ → ℕ → List PoolOp → List ℕ → Option (List PoolAnswer)
unfolding stack_op
stack_ops tot low high [] xs = some []
stack_ops tot low high (o ∷ os) xs =
    stack_op tot low high o xs >>= λ r. stack_ops tot low high os r.0 >>= λ s. some (r.1 ∷ s)

Agrees : ℕ → ℕ → ℕ → ℕ → Option (MemoryPool × PoolAnswer) → Option (List ℕ × PoolAnswer) → Type 0
Agrees tot size low high none none = Unit
Agrees tot size low high none (some s) = ⊥
Agrees tot size low high (some r) none = ⊥
Agrees tot size low high (some r) (some s) = (r.1 ≡ s.1) × IsPool tot size low high r.0 s.0

module _ (tot size low high : ℕ) where
  alloc-Agrees :
      (mp : MemoryPool) (xs : List ℕ)
      → IsPool tot size low high mp xs
      → Agrees tot size low high (run_pool_op alloc mp) (stack_op tot low high alloc xs)
  unfolding Agrees run_pool_op mempool_alloc checked_chunk stack_op AllBetween is_mempool_chunk
  alloc-Agrees mp [] h = rw (h.counted) tt
  alloc-Agrees mp (x ∷ xs) h =
      let (q', e, h', m) =
        pop-IsQueue mp.chunks_queue (chunk size x) (map (chunk size) xs) h.queued in
      let same : (size == size) ≡ true = ground arith in
      let some_left : ltb 0 (suc (length xs)) ≡ true = ground arith in
      rw (h.counted, some_left, e, h.size_is, same, h.low_is, h.high_is, h.inside.0)
        (
          refl,
          record {
            tot_is = h.tot_is;
            size_is = refl;
            low_is = refl;
            high_is = refl;
            counted = omega arith;
            queued = h';
            room = m ∙ h.room;
            inside = h.inside.1;
          },
        )

  free-Agrees :
      (entry : ℕ) (mp : MemoryPool) (xs : List ℕ)
      → IsPool tot size low high mp xs
      → Agrees tot size low high
          (run_pool_op (free entry) mp)
          (stack_op tot low high (free entry) xs)
  unfolding Agrees run_pool_op mempool_free stack_op AllBetween queue_prepend is_mempool_chunk
  free-Agrees entry mp xs h = elim (Bool-cases (ltb (length xs) tot)) [
    | inl t ↦ elim (Bool-cases (between low high entry)) [
      | inl b ↦
          let lt : mp.chunks_queue.queue_count < mp.chunks_queue.max_count =
            let c : mp.chunks_queue.queue_count ≡ length xs =
              h.queued.counted ∙ length-map (chunk size) xs in
            let r = h.room in ground arith in
          let left : (mp.chunks_queue.queue_count == mp.chunks_queue.max_count) ≡ false =
            ground arith in
          rw (h.counted, h.tot_is, t, h.low_is, h.high_is, h.size_is, b, left)
            (
              refl,
              record {
                tot_is = refl;
                size_is = refl;
                low_is = refl;
                high_is = refl;
                counted = omega arith;
                queued =
                    put_first-IsQueue mp.chunks_queue (map (chunk size) xs) (chunk size entry)
                      h.queued lt;
                room = h.room;
                inside = (b, h.inside);
              },
            )
      | inr b ↦ rw (h.counted, h.tot_is, t, h.low_is, h.high_is, b) tt
    ]
    | inr t ↦ rw (h.counted, h.tot_is, t) tt
  ]

  op-Agrees :
      (o : PoolOp) (mp : MemoryPool) (xs : List ℕ)
      → IsPool tot size low high mp xs
      → Agrees tot size low high (run_pool_op o mp) (stack_op tot low high o xs)
  op-Agrees alloc mp xs h = alloc-Agrees mp xs h
  op-Agrees (free entry) mp xs h = free-Agrees entry mp xs h

  Agrees-bind :
      (r : Option (MemoryPool × PoolAnswer)) (s : Option (List ℕ × PoolAnswer))
      (f : MemoryPool → Option (List PoolAnswer)) (g : List ℕ → Option (List PoolAnswer))
      → ((mp : MemoryPool) (xs : List ℕ) → IsPool tot size low high mp xs → f mp ≡ g xs)
      → Agrees tot size low high r s
      → (r >>= λ r. f r.0 >>= λ l. some (r.1 ∷ l)) ≡ (s >>= λ s. g s.0 >>= λ l. some (s.1 ∷ l))
  unfolding Agrees
  Agrees-bind none none f g k a = refl
  Agrees-bind none (some s) f g k a = absurd a
  Agrees-bind (some r) none f g k a = absurd a
  Agrees-bind (some r) (some s) f g k a = rw (k r.0 s.0 a.1, a.0) refl

  pub ops-stack :
      (os : List PoolOp) (mp : MemoryPool) (xs : List ℕ)
      → IsPool tot size low high mp xs
      → run_pool_ops os mp ≡ stack_ops tot low high os xs
  unfolding run_pool_ops stack_ops
  ops-stack [] mp xs h = refl
  ops-stack (o ∷ os) mp xs h =
      Agrees-bind (run_pool_op o mp) (stack_op tot low high o xs) (run_pool_ops os)
        (stack_ops tot low high os) (λ mp xs h. ops-stack os mp xs h) (op-Agrees o mp xs h)
