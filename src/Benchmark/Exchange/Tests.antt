-- ===== src/Benchmark/Exchange/Tests.antt =====
-- The theorems on AllocateLocalLocks and ExchangeLockTable of include/benchmark/benchmark.h on two
-- nodes, each with one lock in a shared list of two.
use farlock.Base.{
  ℕ, ◌-◌, ◌*◌, ◌≤◌, ◌<◌, ◌≡◌, refl, true, ◌==◌, if◌then◌else◌, some, none, List, [], ◌∷◌, arith,
  ℕ_discrete, ◌⊎◌,
}
use farlock.Rdma.Pointer.{Pointer, make}
use farlock.Rdma.MemoryPool.Filling.{Chain}
use farlock.Rdma.Manager.{Manager}
use farlock.Rdma.Manager.Lists.{run_of}
use farlock.Benchmark.Locks.{allocate_local_locks}
use farlock.Benchmark.Locks.Shared.{pointers, allocate_local_locks_lem}
use farlock.Benchmark.Exchange.{System, meet, pass, start}
use farlock.Benchmark.Exchange.Order.{Reached, begin, message, Ended, exchange_progress}
use farlock.Benchmark.Exchange.Agree.{first_of, joined, exchange_tables}

-- Two chunks of 64 bytes, at 1024 and 1088.
abbrev listed : ℕ → ℕ
listed x = if x == 1024 then 1088 else if x == 1088 then 0 else 7

abbrev managers : ℕ → Manager
managers k = record { free_list = 1024; node_id = k; memory = listed }

abbrev two_chunks : Chain listed 1024 (run_of 64 1024 2)
two_chunks = (refl, omega arith, omega arith, (refl, omega arith, omega arith, refl))

abbrev local_locks : ℕ → List Pointer
local_locks k = make k 1024 ∷ []

abbrev first_lock : ℕ → ℕ
first_lock k = first_of (local_locks k)

allocate_local_locks_lem_example :
    (2 ≤ 2
      → (done : Manager) × (allocate_local_locks 2 64 (managers 3)
          ≡ some (pointers 3 (run_of 64 1024 2), done)))
    × (2 < 2 → allocate_local_locks 2 64 (managers 3) ≡ none)
allocate_local_locks_lem_example =
    allocate_local_locks_lem 64 (omega arith) 2 2 1024 (managers 3) (omega arith) two_chunks

abbrev sent : System 1 64 2 first_lock
sent = pass 1 64 2 first_lock 0 1 (start 1 64 2 first_lock)

abbrev answered : System 1 64 2 first_lock
answered = pass 1 64 2 first_lock 1 0 sent

sent-Reached : Reached 1 64 2 first_lock 1 sent
sent-Reached = message 0 1 begin refl

second_ready : meet 1 64 2 first_lock 1 0 sent ≡ true
unfolding pass ℕ_discrete
second_ready = refl

answered-Reached : Reached 1 64 2 first_lock 2 answered
answered-Reached = message 1 0 sent-Reached second_ready

exchange_progress_example :
    (1 ≤ 2 * (2 - 1))
    × ((Ended 1 64 2 first_lock sent × (1 ≡ 2 * (2 - 1)))
        ⊎ ((a b : ℕ) × (meet 1 64 2 first_lock a b sent ≡ true)))
exchange_progress_example = exchange_progress 1 64 2 first_lock sent sent-Reached

answered-ended : (answered 1).i ≡ 2
unfolding pass ℕ_discrete
answered-ended = refl

allocated :
    (k : ℕ)
    → k < 2
    → (done : Manager) × (allocate_local_locks 1 64 (managers k) ≡ some (local_locks k, done))
allocated k lt =
    (allocate_local_locks_lem 64 (omega arith) 1 2 1024 (managers k) (omega (arith, lt))
        two_chunks).0
      (omega arith)

exchange_tables_example : (answered 1).remote_locks ≡ joined local_locks 1 2
exchange_tables_example =
    exchange_tables 1 64 2 2 (λ k. 1024) managers local_locks (omega arith) (omega arith)
      (omega arith) (omega arith) (λ k lt. (refl, omega arith, two_chunks, allocated k lt)) answered
      answered-Reached 1 answered-ended
