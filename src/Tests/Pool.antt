-- ===== src/Tests/Pool.antt =====
-- A pool of three blocks of four bytes.
use fds.Prelude.{ℕ, ◌≡◌, ◌+◌, ◌-◌, ◌*◌, arith, List, [], ◌∷◌, some, ◌>>=◌}
use fds.Ring.Pool.{mempool_new}
use fds.Ring.Pool.Stack.{PoolOp, PoolAnswer, alloc, free, run_pool_ops, stack_ops}
use fds.Ring.Pool.Trace.{addresses, mempool-stack}

-- Two blocks are given out, the first is taken back and given out again.
abbrev block_again : List PoolOp
block_again = alloc ∷ alloc ∷ free 100 ∷ alloc ∷ []

mempool-stack_example :
    (mempool_new 100 3 4 >>= λ mp. run_pool_ops block_again mp)
    ≡ stack_ops 3 100 (100 + 3 * 4 - 4) block_again (addresses 4 3 100)
mempool-stack_example = mempool-stack 100 3 4 block_again (omega arith) (omega arith)

abbrev given : List ℕ → PoolAnswer
given xs = record { given = xs; effects = [] }

block_again-given :
    (mempool_new 100 3 4 >>= λ mp. run_pool_ops block_again mp)
    ≡ some (given (100 ∷ []) ∷ given (104 ∷ []) ∷ given [] ∷ given (100 ∷ []) ∷ [])
unfolding stack_ops addresses
block_again-given = mempool-stack_example
