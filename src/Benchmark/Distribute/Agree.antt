-- ===== src/Benchmark/Distribute/Agree.antt =====
-- The nodes without locks of their own know the hosts' locks, in the selective distribution of
-- include/benchmark/benchmark.h.
use farlock.Base.{
  ℕ, zero, suc, ◌+◌, ◌-◌, ◌*◌, ◌^◌, ◌≤◌, ◌<◌, ◌≡◌, refl, ◌∙◌, true, some, List, [], ◌++◌, arith,
  ◌⊎◌,
}
use farlock.Rdma.Pointer.{Pointer}
use farlock.Rdma.MemoryPool.Filling.{Chain}
use farlock.Rdma.Manager.{Manager}
use farlock.Rdma.Manager.Lists.{run_of}
use farlock.Benchmark.Locks.{allocate_local_locks}
use farlock.Benchmark.Exchange.{locks_from}
use farlock.Benchmark.Exchange.Agree.{first_of, computed}
use farlock.Benchmark.Distribute.{Handouts, ready}
use farlock.Benchmark.Distribute.Progress.{Handed, locks_of_hosts, Ended, handed_lem}

-- The locks of the first `k` nodes.
unfoldable pub joined_first : (ℕ → List Pointer) → ℕ → List Pointer
joined_first local_locks zero = []
joined_first local_locks (suc k) = joined_first local_locks k ++ local_locks k

module _ (locks chunk_size hosts nodes : ℕ) (local_locks : ℕ → List Pointer) where
  abbrev first_lock : ℕ → ℕ
  first_lock k = first_of (local_locks k)

  locks_of_hosts-joined :
      (n : ℕ)
      → ((k : ℕ) → k < n → locks_from chunk_size locks 0 (first_lock k) ≡ local_locks k)
      → locks_of_hosts locks chunk_size hosts nodes first_lock n ≡ joined_first local_locks n
  unfolding locks_of_hosts joined_first
  locks_of_hosts-joined zero same = refl
  locks_of_hosts-joined (suc n) same =
      rw (locks_of_hosts-joined n (λ k lt. same k (omega (arith, lt))), same n (omega arith)) refl

  -- With no more lock_hosts than nodes, at least one lock for each host, a chunk size that is not
  -- 0, fewer than 2 ^ 32 bytes of locks, at most 2 ^ 16 nodes, on each host k the node id k and a
  -- shared list that is a run of chunks whose locks end below 2 ^ 48, and local_locks what
  -- AllocateLocalLocks gives there, in every state of the selective distribution on all nodes that
  -- n messages lead to, in any order of the messages, n is at most lock_hosts * (nodes -
  -- lock_hosts), either all nodes have ended and n is that number or some host is about to send to
  -- a node that is about to receive from it, and a node without locks of its own has as
  -- remote_locks the local_locks of the hosts that it has received from, in their order.
  pub distribution_lem :
      (shared : ℕ) (start : ℕ → ℕ) (managers : ℕ → Manager)
      → hosts ≤ nodes
      → 0 < locks
      → 0 < chunk_size
      → locks * chunk_size < 2 ^ 32
      → nodes ≤ 2 ^ 16
      → ((k : ℕ)
          → k < hosts
          → ((managers k).node_id ≡ k)
            × (start k + locks * chunk_size < 2 ^ 48)
            × Chain (managers k).memory (managers k).free_list (run_of chunk_size (start k) shared)
            × ((done : Manager) × (allocate_local_locks locks chunk_size (managers k)
                  ≡ some (local_locks k, done))))
      → {n : ℕ} (s : Handouts) → Handed locks chunk_size hosts nodes first_lock n s
      → (n ≤ hosts * (nodes - hosts))
        × ((Ended locks chunk_size hosts nodes first_lock s × (n ≡ hosts * (nodes - hosts)))
            ⊎ ((h a : ℕ) × (ready locks chunk_size hosts nodes first_lock h a s ≡ true)))
        × ((a : ℕ) → hosts ≤ a → a < nodes → (s a).remote_locks ≡ joined_first local_locks (s a).i)
  distribution_lem shared start managers enough some_locks some_size small few set s r =
      let (most, moves, tables) = handed_lem locks chunk_size hosts nodes first_lock enough s r in
      (
        most,
        moves,
        λ a ge lt.
            let (upto, table) = tables a ge lt in
            table
            ∙ locks_of_hosts-joined (s a).i (λ k lt_k.
              let (id, fits, chain, gives) = set k (omega (arith, lt_k, upto)) in
              computed locks chunk_size nodes shared start managers local_locks k some_locks
                some_size small (omega (arith, lt_k, upto, enough, few)) id fits chain gives),
      )
