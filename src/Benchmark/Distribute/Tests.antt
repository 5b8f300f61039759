-- ===== src/Benchmark/Distribute/Tests.antt =====
-- The selective distribution of include/benchmark/benchmark.h with one host of three nodes, which has
-- two locks, after its first message.
use farlock.Base.{
  ℕ, ◌-◌, ◌*◌, ◌≤◌, ◌<◌, ◌≡◌, refl, true, ◌==◌, if◌then◌else◌, some, List, [], ◌∷◌, ◌⊎◌, arith,
}
use farlock.Rdma.Pointer.{Pointer, make}
use farlock.Rdma.MemoryPool.Filling.{Chain}
use farlock.Rdma.Manager.{Manager}
use farlock.Rdma.Manager.Lists.{run_of}
use farlock.Benchmark.Locks.{allocate_local_locks}
use farlock.Benchmark.Locks.Shared.{allocate_local_locks_lem}
use farlock.Benchmark.Exchange.Agree.{first_of}
use farlock.Benchmark.Distribute.{Handouts, begun, ready, hand_out}
use farlock.Benchmark.Distribute.Progress.{Handed, start, message, Ended}
use farlock.Benchmark.Distribute.Agree.{joined_first, distribution_lem}

-- Two chunks of 64 bytes, at 1024 and 1088.
abbrev listed : ℕ → ℕ
listed x = if x == 1024 then 1088 else if x == 1088 then 0 else 7

abbrev managers : ℕ → Manager
managers k = record { free_list = 1024; node_id = k; memory = listed }

abbrev two_chunks : Chain listed 1024 (run_of 64 1024 2)
two_chunks = (refl, omega arith, omega arith, (refl, omega arith, omega arith, refl))

abbrev local_locks : ℕ → List Pointer
local_locks k = make k 1024 ∷ make k 1088 ∷ []

abbrev raws : ℕ → ℕ
raws k = first_of (local_locks k)

allocated :
    (k : ℕ)
    → k < 1
    → (done : Manager) × (allocate_local_locks 2 64 (managers k) ≡ some (local_locks k, done))
allocated k lt =
    (allocate_local_locks_lem 64 (omega arith) 2 2 1024 (managers k) (omega (arith, lt))
        two_chunks).0
      (omega arith)

abbrev first_sent : Handouts
first_sent = hand_out 2 64 1 3 raws 0 1 (begun 2 64 1 3 raws)

first_sent-Handed : Handed 2 64 1 3 raws 1 first_sent
first_sent-Handed = message 0 1 start refl

distribution_lem_example :
    (1 ≤ 1 * (3 - 1))
    × ((Ended 2 64 1 3 raws first_sent × (1 ≡ 1 * (3 - 1)))
        ⊎ ((h a : ℕ) × (ready 2 64 1 3 raws h a first_sent ≡ true)))
    × ((a : ℕ)
        → 1 ≤ a
        → a < 3
        → (first_sent a).remote_locks ≡ joined_first local_locks (first_sent a).i)
distribution_lem_example =
    distribution_lem 2 64 1 3 local_locks 2 (λ k. 1024) managers (omega arith) (omega arith)
      (omega arith) (omega arith) (omega arith)
      (λ k lt. (refl, omega arith, two_chunks, allocated k lt)) first_sent first_sent-Handed
