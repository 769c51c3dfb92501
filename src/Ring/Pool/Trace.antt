-- ===== src/Ring/Pool/Trace.antt =====
-- ring_paxos/lib/memory_pool.c: the blocks of a new pool, and calls of it one after another.
use fds.Prelude.{
  ℕ, zero, suc, ◌+◌, ◌-◌, ◌*◌, ◌^◌, ◌≤◌, ◌<◌, ◌≡◌, refl, sym, ap, subst, ◌∙◌, arith, List, [], ◌∷◌,
  ◌++◌, map, false, some, ltb, ◌==◌, ◌>>=◌, length, append_assoc, append-nil,
}
use fds.Ring.Queue.{QueueElement, LpQueue, max_queue_size_bytes, queue_init, queue_append}
use fds.Ring.Queue.Refines.{total, total-append, IsQueue, append-IsQueue}
use fds.Ring.Queue.Trace.{new_queue, new-IsQueue}
use fds.Ring.Pool.{append_chunks, mempool_new}
use fds.Ring.Pool.Stack.{chunk, AllBetween, PoolOp, run_pool_ops, stack_ops, ops-stack}

-- The addresses of `n` blocks from `address` on.
unfoldable pub addresses : ℕ → ℕ → ℕ → List ℕ
addresses size zero address = []
addresses size (suc n) address = address ∷ addresses size n (address + size)

length-addresses : (size n address : ℕ) → length (addresses size n address) ≡ n
unfolding addresses
length-addresses size zero address = refl
length-addresses size (suc n) address = ap suc (length-addresses size n (address + size))

addresses-AllBetween :
    (size n address low high : ℕ)
    → low ≤ address
    → address + n * size ≤ high + size
    → AllBetween low high (addresses size n address)
unfolding addresses AllBetween
addresses-AllBetween size zero address low high l h = tt
addresses-AllBetween size (suc n) address low high l h =
    let e : suc n * size ≡ size + n * size = grind arith in
    let p = n * size in
    (
      ground arith,
      addresses-AllBetween size n (address + size) low high (omega arith) (omega (arith, e)),
    )

append_chunks-IsQueue :
    (size n next_chunk : ℕ) (q : LpQueue) (xs : List QueueElement)
    → IsQueue q xs
    → q.queue_count + n ≤ q.max_count
    → total xs + n * size ≤ max_queue_size_bytes
    → (q' : LpQueue) × (append_chunks size n next_chunk q ≡ some (q', next_chunk + n * size))
      × IsQueue q' (xs ++ map (chunk size) (addresses size n next_chunk))
      × (q'.max_count ≡ q.max_count)
unfolding append_chunks queue_append addresses
append_chunks-IsQueue size zero next_chunk q xs h r t = (
  q,
  ap (λ k. some (q, k)) (omega arith),
  subst (λ ys. IsQueue q ys) (sym (append-nil xs)) h,
  refl,
)
append_chunks-IsQueue size (suc n) next_chunk q xs h r t =
    let e : suc n * size ≡ size + n * size = grind arith in
    let some_left : (q.queue_count == q.max_count) ≡ false = ground arith in
    let fits : ltb max_queue_size_bytes (q.queue_size + size) ≡ false =
      let all : total xs + size ≤ max_queue_size_bytes = omega (arith, e) in
      let s = h.sized in ground arith in
    let lt : q.queue_count < q.max_count = omega arith in
    let (q', e', h', m) =
      append_chunks-IsQueue size n (next_chunk + size) _ (xs ++ chunk size next_chunk ∷ [])
        (append-IsQueue q xs (chunk size next_chunk) h lt) (omega arith)
        (omega (arith, e, total-append xs (chunk size next_chunk))) in
    (
      q',
      rw (some_left, fits) (e' ∙ ap (λ k. some (q', k)) (omega (arith, e))),
      subst (λ ys. IsQueue q' ys) (append_assoc xs _ _) h',
      m,
    )

total-nil : total [] ≡ 0
unfolding total
total-nil = refl

-- Let a pool be made of a positive number of blocks, 2 ^ 30 bytes at most. Then it is made, and any
-- sequence of calls that give out a block or take one back runs as on a stack of the blocks'
-- addresses, the first on top: the block that is given out is the one on top, a block that is taken
-- back is put there, and the queue beneath drops and frees nothing. An assertion fails where an
-- empty stack gives out a block, where a full one takes one back, and where the address is before
-- the first block or after the last.
pub mempool-stack :
    (pool_begin num_entries entry_size : ℕ) (os : List PoolOp)
    → 0 < num_entries
    → num_entries * entry_size ≤ 2 ^ 30
    → (mempool_new pool_begin num_entries entry_size >>= λ mp. run_pool_ops os mp)
      ≡ stack_ops num_entries pool_begin
          (pool_begin + num_entries * entry_size - entry_size)
          os
          (addresses entry_size num_entries pool_begin)
unfolding mempool_new queue_init
mempool-stack pool_begin n size os pos fits =
    let some_entries : (n == 0) ≡ false = ground arith in
    let (q, e, h, m) =
      append_chunks-IsQueue size n pool_begin (new_queue n) [] (new-IsQueue n pos) (omega arith)
        (omega (arith, total-nil)) in
    rw (some_entries, e)
      (ops-stack n size pool_begin (pool_begin + n * size - size) os _ (addresses size n pool_begin)
        (record {
          tot_is = refl;
          size_is = refl;
          low_is = refl;
          high_is = refl;
          counted = sym (length-addresses size n pool_begin);
          queued = h;
          room = m;
          inside = addresses-AllBetween size n pool_begin pool_begin _ (omega arith) (omega arith);
        }))
