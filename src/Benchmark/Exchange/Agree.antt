-- ===== src/Benchmark/Exchange/Agree.antt =====
-- After ExchangeLockTable of include/benchmark/benchmark.h every node knows the locks of the others.
use farlock.Base.{
  ℕ, zero, suc, ◌+◌, ◌*◌, ◌^◌, ◌≤◌, ◌<◌, ◌≡◌, refl, sym, ap, ◌∙◌, Option, none, some, List, [], ◌∷◌,
  ◌++◌, ◌==◌, if◌then◌else◌, arith, dec_le,
}
use farlock.Rdma.Pointer.{Pointer, make}
use farlock.Rdma.MemoryPool.Filling.{Chain}
use farlock.Rdma.Manager.{Manager}
use farlock.Rdma.Manager.Lists.{run_of}
use farlock.Benchmark.Locks.{allocate_local_locks}
use farlock.Benchmark.Locks.Shared.{pointers, allocate_local_locks_lem, locks_from-pointers}
use farlock.Benchmark.Exchange.{locks_from, System}
use farlock.Benchmark.Exchange.Order.{Reached}
use farlock.Benchmark.Exchange.Tables.{others, Reached-table}

-- `local_locks[0].raw()`.
abbrev pub first_of : List Pointer → ℕ
first_of [] = 0
first_of (p ∷ ps) = p.raw

first_of-pointers :
    (k chunk_size start n : ℕ)
    → 0 < n
    → first_of (pointers k (run_of chunk_size start n)) ≡ (make k start).raw
first_of-pointers k chunk_size start zero some_locks = absurd (omega arith)
first_of-pointers k chunk_size start (suc n) some_locks = refl

abbrev locks_of : Option (List Pointer × Manager) → List Pointer
locks_of none = []
locks_of (some (locks, done)) = locks

-- The locks of all nodes below `n` but one.
unfoldable pub joined : (ℕ → List Pointer) → ℕ → ℕ → List Pointer
joined local_locks a zero = []
joined local_locks a (suc k) = joined local_locks a k ++ (if k == a then [] else local_locks k)

others-joined :
    (locks chunk_size nodes : ℕ) (local_locks : ℕ → List Pointer) (a n : ℕ)
    → ((k : ℕ) → k < n → locks_from chunk_size locks 0 (first_of (local_locks k)) ≡ local_locks k)
    → others locks chunk_size nodes (λ k. first_of (local_locks k)) a n ≡ joined local_locks a n
unfolding others joined
others-joined locks chunk_size nodes local_locks a zero same = refl
others-joined locks chunk_size nodes local_locks a (suc n) same =
    rw
      (
        others-joined locks chunk_size nodes local_locks a n (λ k lt. same k (omega (arith, lt))),
        same n (omega arith),
      )
      refl

module _ (locks chunk_size nodes shared : ℕ) (start : ℕ → ℕ) (managers : ℕ → Manager)
    (local_locks : ℕ → List Pointer) where
  computed_pointers :
      (k : ℕ)
      → k < 2 ^ 16
      → start k + locks * chunk_size < 2 ^ 48
      → locks * chunk_size < 2 ^ 32
      → locks_from chunk_size locks 0 (make k (start k)).raw
        ≡ pointers k (run_of chunk_size (start k) locks)
  computed_pointers k few fits small =
      let count : 0 + locks ≡ locks = omega arith in
      let from : start k + 0 * chunk_size ≡ start k = omega arith in
      locks_from-pointers chunk_size k (start k) locks 0 few (rw count fits) (rw count small)
      ∙ ap (λ i. pointers k (run_of chunk_size i locks)) from

  -- What the allocation on a node gives is what the others compute.
  pub computed :
      (k : ℕ)
      → 0 < locks
      → 0 < chunk_size
      → locks * chunk_size < 2 ^ 32
      → k < 2 ^ 16
      → (managers k).node_id ≡ k
      → start k + locks * chunk_size < 2 ^ 48
      → Chain (managers k).memory (managers k).free_list (run_of chunk_size (start k) shared)
      → (done : Manager) × (allocate_local_locks locks chunk_size (managers k)
          ≡ some (local_locks k, done))
      → locks_from chunk_size locks 0 (first_of (local_locks k)) ≡ local_locks k
  computed k some_locks some_size small few id fits chain (done, e) =
      let (gives, fails) =
        allocate_local_locks_lem chunk_size some_size locks shared (start k) (managers k)
          (rw id few) chain in
      elim (dec_le locks shared) [
        | no more ↦ absurd (ground (arith, sym e ∙ fails (omega (arith, more))))
        | yes le ↦
            let is : local_locks k ≡ pointers k (run_of chunk_size (start k) locks) =
              ap locks_of (sym e ∙ (gives le).1)
              ∙ ap (λ i. pointers i (run_of chunk_size (start k) locks)) id in
            rw (is, first_of-pointers k chunk_size (start k) locks some_locks)
              (computed_pointers k few fits small)
      ]

  -- With at least one lock for each node, a chunk size that is not 0, fewer than 2 ^ 32 bytes of
  -- locks, at most 2 ^ 16 nodes, on each node k the node id k and a shared list that is a run of
  -- chunks whose locks end below 2 ^ 48, and local_locks what AllocateLocalLocks gives there, in
  -- any order of the messages a node that has ended ExchangeLockTable has as remote_locks the
  -- local_locks of the other nodes, node after node.
  pub exchange_tables :
      0 < locks
      → 0 < chunk_size
      → locks * chunk_size < 2 ^ 32
      → nodes ≤ 2 ^ 16
      → ((k : ℕ)
          → k < nodes
          → ((managers k).node_id ≡ k)
            × (start k + locks * chunk_size < 2 ^ 48)
            × Chain (managers k).memory (managers k).free_list (run_of chunk_size (start k) shared)
            × ((done : Manager) × (allocate_local_locks locks chunk_size (managers k)
                  ≡ some (local_locks k, done))))
      → {n : ℕ} (s : System locks chunk_size nodes (λ k. first_of (local_locks k)))
      → Reached locks chunk_size nodes (λ k. first_of (local_locks k)) n s
      → (a : ℕ) → (s a).i ≡ nodes
      → (s a).remote_locks ≡ joined local_locks a nodes
  exchange_tables some_locks some_size small few set s r a ended =
      Reached-table locks chunk_size nodes (λ k. first_of (local_locks k)) r a
      ∙ rw ended (
          others-joined locks chunk_size nodes local_locks a nodes (λ k lt.
            let (id, fits, chain, gives) = set k lt in
            computed k some_locks some_size small (omega (arith, lt, few)) id fits chain gives))
