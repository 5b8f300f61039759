-- ===== src/Benchmark/Run/Tests.antt =====
-- Run and TallyResults of include/benchmark/benchmark.h on two nodes of one thread each, the first of
-- which has the locks.
use farlock.Base.{
  ℕ, zero, suc, ◌+◌, ◌%◌, ◌≤◌, ◌<◌, ◌≡◌, ◌≢◌, refl, word, Bool, true, false, List, [], ◌∷◌, length,
  ◌==◌, Option, none, some, if◌then◌else◌, All, ℕ_discrete, arith,
}
use farlock.Rdma.Pointer.{Pointer, make}
use farlock.Rdma.Manager.Connections.{each}
use farlock.Benchmark.Loops.{each_of}
use farlock.Benchmark.Result.{Random, create, add_sample, add_samples, kept, size}
use farlock.Benchmark.Tally.{
  Settings, selective, unknown, Tallied, Inbox, send_results, tally_results,
}
use farlock.Benchmark.Tally.Throughput.{all_counts}
use farlock.Benchmark.Tally.Collect.{all_latencies}
use farlock.Benchmark.Run.{Plan, Worker, Round, seed_of, start_worker, choose, measure, work, leave}
use farlock.Benchmark.Run.Measured.{Within, Listed, sampled_times, work_lem}
use farlock.Benchmark.Run.Reported.{measures, Ready, run-tally_results}

-- One end and then the other.
abbrev alternating : Random ℕ
alternating = record { uniform_within = λ from to n. (if n % 2 == 0 then from else to, n + 1) }

alternating-Within : Within alternating
alternating-Within from to n le small = ground (arith, le)

abbrev plan : ℕ → Plan
plan k =
    if k == 0
    then record {
      local_percentage = 100;
      local_locks = make 0 1024 ∷ make 0 1088 ∷ [];
      remote_locks = [];
      sample_number = 2;
    }
    else record {
      local_percentage = 0;
      local_locks = [];
      remote_locks = make 0 1024 ∷ make 0 1088 ∷ [];
      sample_number = 2;
    }

abbrev settings : Settings
settings = record {
  distribution = selective;
  lock_hosts = 1;
  threads_per_node = 1;
  sample_number = 2;
  nodes = 2;
}

abbrev round : Bool → ℕ → ℕ → Round
round flag from to = record { sampling_flag = flag; lock_time = from; unlock_time = to }

abbrev rounds : ℕ → ℕ → List Round
rounds k j =
    if k == 0
    then round true 5 12 ∷ round false 20 22 ∷ round true 30 31 ∷ []
    else round true 1 9 ∷ []

work_lem_example :
    (locks : List Pointer) × (after : Worker ℕ) × (work alternating
        (plan 0)
        (rounds 0 0)
        (start_worker alternating (plan 0) (λ n. n) 0 1 0)
      ≡ some (locks, after))
    × (length locks ≡ 3)
    × All (Listed alternating (plan 0)) locks
    × ((i : ℕ)
        → (after.latency i
            ≡ add_samples alternating
                (sampled_times alternating (plan 0) i (rounds 0 0) (seed_of 0 1 0))
                (create 0 2))
          × (after.count i
              ≡ length (sampled_times alternating (plan 0) i (rounds 0 0) (seed_of 0 1 0)) % word))
work_lem_example =
    work_lem alternating (plan 0) alternating-Within (λ h. omega arith) (λ h. omega arith)
      (omega arith) (omega arith) (λ n. n) 0 1 0 (rounds 0 0)

abbrev started : ℕ → Worker ℕ
started k = start_worker alternating (plan k) (λ n. n) k 1 0

abbrev worker_of : Option (List Pointer × Worker ℕ) → Worker ℕ
worker_of none = started 0
worker_of (some (locks, after)) = after

abbrev workers : ℕ → ℕ → Worker ℕ
workers k j = worker_of (work alternating (plan k) (rounds k j) (started k))

abbrev locks : ℕ → ℕ → List Pointer
locks k j = if k == 0 then make 0 1024 ∷ make 0 1088 ∷ make 0 1024 ∷ [] else make 0 1088 ∷ []

ran :
    (k j : ℕ)
    → k < 2
    → j < 1
    → work alternating (plan k) (rounds k j) (start_worker alternating (plan k) (λ n. n) k 1 j)
      ≡ some (locks k j, workers k j)
unfolding work choose measure
ran zero zero lt l = refl
ran zero (suc j) lt l = absurd (omega arith)
ran (suc zero) zero lt l = refl
ran (suc zero) (suc j) lt l = absurd (omega arith)
ran (suc (suc k)) j lt l = absurd (omega arith)

abbrev box : Inbox
box k = 0 ∷ 1 ∷ 0 ∷ 1 ∷ 8 ∷ []

sent :
    (k : ℕ)
    → 1 ≤ k
    → k < 2
    → send_results settings k (leave alternating (plan k) (workers k)) ≡ some (box k)
unfolding work choose measure add_sample create send_results each each_of size ℕ_discrete
sent zero low lt = absurd (omega arith)
sent (suc zero) low lt = refl
sent (suc (suc k)) low lt = absurd (omega arith)

ready : (k : ℕ) → k < 2 → Ready settings (plan k)
ready zero lt = record {
  samples = refl;
  some_local = λ h. omega arith;
  some_remote = λ h. omega arith;
  few_local = omega arith;
  few_remote = omega arith;
}
ready (suc zero) lt = record {
  samples = refl;
  some_local = λ h. omega arith;
  some_remote = λ h. omega arith;
  few_local = omega arith;
  few_remote = omega arith;
}
ready (suc (suc k)) lt = absurd (omega arith)

known : settings.distribution ≢ unknown
known = ground arith

run-tally_results_example :
    (t : Tallied ℕ) × (after : Inbox) × (tally_results settings alternating
        (λ n. n)
        (leave alternating (plan 0) (workers 0))
        box
      ≡ some (t, after))
    × ((k : ℕ) → 1 ≤ k → k < 2 → after k ≡ [])
    × ((i : ℕ)
        → i < 2
        → (kept (t.throughput i)
            ≡ all_counts settings alternating
                (λ n. n)
                (measures settings alternating (λ n. n) plan rounds)
                i)
          × (kept (t.latency i)
              ≡ all_latencies settings alternating
                  (λ n. n)
                  (measures settings alternating (λ n. n) plan rounds)
                  i))
run-tally_results_example =
    run-tally_results settings alternating (λ n. n) plan rounds workers locks alternating-Within
      ready ran (omega arith) (omega arith) (omega arith) (omega arith) known
      (λ e. (omega arith, omega arith)) box sent
