-- ===== src/Ring/Pool.antt =====
-- ring_paxos/lib/memory_pool.c: a pool of equal blocks, whose addresses wait in a queue.
-- The address that `calloc` returns is an argument, and the number of blocks is taken to be below 2 ^ 32.
pub mod Stack
pub mod Trace
use fds.Prelude.{
  ℕ, zero, suc, ◌+◌, ◌-◌, List, [], ◌∷◌, Bool, true, false, ◌&&◌, Option, none, some, ltb, leb,
  ◌==◌, if◌then◌else◌, ◌>>=◌, ◌>>◌, assert,
}
use fds.Ring.Queue.{
  QueueElement, LpQueue, QueueEffect, freed, queue_init, queue_pop, queue_append, queue_prepend,
}

pub record MemoryPool : Type 0 where
  pub tot_entries : ℕ
  pub cur_entries : ℕ
  pub entry_size : ℕ
  pub chunks_queue : LpQueue
  pub pool_begin : ℕ
  pub pool_end : ℕ

-- The loop of `mempool_new`: the queue with `n` more blocks, and the address after them.
unfoldable pub append_chunks : ℕ → ℕ → ℕ → LpQueue → Option (LpQueue × ℕ)
unfolding queue_append
append_chunks entry_size zero next_chunk q = some (q, next_chunk)
append_chunks entry_size (suc n) next_chunk q =
    let r = queue_append 0 next_chunk entry_size false q in
    assert r.0 >> append_chunks entry_size n (next_chunk + entry_size) r.1

unfoldable pub mempool_new : ℕ → ℕ → ℕ → Option MemoryPool
unfolding append_chunks queue_init
mempool_new pool_begin num_entries entry_size =
    queue_init num_entries >>= (λ q. append_chunks entry_size num_entries pool_begin q) >>= (λ r.
      some (record {
        tot_entries = num_entries;
        cur_entries = num_entries;
        entry_size = entry_size;
        chunks_queue = r.0;
        pool_begin = pool_begin;
        pool_end = r.1 - entry_size;
      }))

unfoldable pub is_mempool_chunk : MemoryPool → ℕ → Bool
is_mempool_chunk mp entry = leb mp.pool_begin entry && leb entry mp.pool_end

unfoldable pub is_mempool_exhaused : MemoryPool → Bool
is_mempool_exhaused mp = mp.cur_entries == 0

-- The element that was read; without one, the variables that are tested have no value.
unfoldable pub checked_chunk : MemoryPool → Option QueueElement × LpQueue → Option (ℕ × MemoryPool)
unfolding is_mempool_chunk
checked_chunk mp (none, q) = none
checked_chunk mp (some e, q) =
    assert (e.size == mp.entry_size)
    >> (assert (is_mempool_chunk mp e.address)
        >> some (e.address, record mp { cur_entries = mp.cur_entries - 1; chunks_queue = q }))

unfoldable pub mempool_alloc : MemoryPool → Option (ℕ × MemoryPool)
unfolding checked_chunk queue_pop
mempool_alloc mp = assert (ltb 0 mp.cur_entries) >> checked_chunk mp (queue_pop mp.chunks_queue)

unfoldable pub mempool_free : ℕ → MemoryPool → Option (MemoryPool × List QueueEffect)
unfolding is_mempool_chunk queue_prepend
mempool_free entry mp =
    assert (ltb mp.cur_entries mp.tot_entries)
    >> (assert (is_mempool_chunk mp entry)
        >> (queue_prepend 0 entry mp.entry_size false mp.chunks_queue >>= (λ r.
            some (record mp { cur_entries = mp.cur_entries + 1; chunks_queue = r.0 }, r.1))))

-- What is freed beside the pool's own structure; the queue stays.
unfoldable pub mempool_destroy : MemoryPool → List QueueEffect
mempool_destroy mp = freed mp.pool_begin ∷ []
