-- ===== src/Benchmark/Run/Reported.antt =====
-- Run and then TallyResults of include/benchmark/benchmark.h on all nodes.
use farlock.Base.{
  ℕ, ◌*◌, ◌%◌, ◌^◌, ◌≤◌, ◌<◌, ◌≡◌, ◌≢◌, refl, sym, ap, subst, ◌∙◌, word, Option, none, some, List,
  [], length,
}
use farlock.Rdma.Pointer.{Pointer}
use farlock.Benchmark.Result.{Random, create, add_samples, kept}
use farlock.Benchmark.Tally.{
  selective, unknown, Settings, Measures, Tallied, Inbox, send_results, tally_results,
}
use farlock.Benchmark.Tally.Node.{Sampled}
use farlock.Benchmark.Tally.Throughput.{all_counts}
use farlock.Benchmark.Tally.Collect.{all_latencies, tally_results_lem}
use farlock.Benchmark.Run.{Plan, Worker, Round, seed_of, start_worker, work, leave}
use farlock.Benchmark.Run.Measured.{Within, sampled_times, work_lem}
use farlock.Benchmark.Tally.Alike.{
  Sampled-add_samples, Sampled-create, Alike, all_counts-eq, all_latencies-eq,
}

abbrev worker_of : {R : Type 0} → Worker R → Option (List Pointer × Worker R) → Worker R
worker_of w none = w
worker_of w (some (locks, after)) = after

-- A node's tables have locks of each kind that its percentage asks for.
pub record Ready (s : Settings) (p : Plan) : Type 0 where
  pub samples : p.sample_number ≡ s.sample_number
  pub some_local : 0 < p.local_percentage → 0 < length p.local_locks
  pub some_remote : p.local_percentage < 100 → 0 < length p.remote_locks
  pub few_local : length p.local_locks < 2 ^ 32
  pub few_remote : length p.remote_locks < 2 ^ 32

module _ (s : Settings) {R : Type 0} (g : Random R) (seed : ℕ → R) where
  module _ (plan : ℕ → Plan) (rounds : ℕ → ℕ → List Round) where
    -- The times that a thread of a node has sampled.
    abbrev pub sampled : ℕ → ℕ → ℕ → List ℕ
    sampled k i j = sampled_times g (plan k) i (rounds k j) (seed (seed_of k s.threads_per_node j))

    -- What the nodes measure: how many rounds are sampled, and their times.
    unfoldable pub measures : ℕ → Measures R
    measures k = record {
      counts = λ i j. length (sampled k i j) % word;
      latencies = λ i j. add_samples g (sampled k i j) (create (seed j) s.sample_number);
    }

    leave-Alike :
        (workers : ℕ → ℕ → Worker R) (locks : ℕ → ℕ → List Pointer)
        → Within g
        → ((k : ℕ) → k < s.nodes → Ready s (plan k))
        → ((k j : ℕ)
            → k < s.nodes
            → j < s.threads_per_node
            → work g (plan k) (rounds k j) (start_worker g (plan k) seed k s.threads_per_node j)
              ≡ some (locks k j, workers k j))
        → Alike s g seed (λ k. leave g (plan k) (workers k)) measures
    unfolding measures
    leave-Alike workers locks within ready ran k i j lt l =
        let v = ready k lt in
        let (found, after, e, all, listed, kept) =
          work_lem g (plan k) within v.some_local v.some_remote v.few_local v.few_remote seed k
            s.threads_per_node j (rounds k j) in
        let same : workers k j ≡ after = ap (worker_of after) (sym (ran k j lt l) ∙ e) in
        rw (same, (kept i).0, (kept i).1, v.samples) (refl, refl)

    -- With a generator that keeps to its range, locks on each node for its percentage, a known
    -- distribution, lock_hosts from 1 to the number of nodes if it is selective, at least one
    -- node, numbers of threads and of samples below 2 ^ 32, and any rounds of each thread, after
    -- Run on all nodes TallyResults on node 0 ends with the words that the other nodes send, of
    -- which none is left, and keeps as throughput the numbers of sampled rounds of each thread, by
    -- kind of lock, and as latency the samples that each thread kept of their times, all in the
    -- order of nodes and threads.
    pub run-tally_results :
        (workers : ℕ → ℕ → Worker R) (locks : ℕ → ℕ → List Pointer)
        → Within g
        → ((k : ℕ) → k < s.nodes → Ready s (plan k))
        → ((k j : ℕ)
            → k < s.nodes
            → j < s.threads_per_node
            → work g (plan k) (rounds k j) (start_worker g (plan k) seed k s.threads_per_node j)
              ≡ some (locks k j, workers k j))
        → 0 < s.nodes
        → s.nodes * s.threads_per_node * s.sample_number < 2 ^ 32
        → s.nodes * s.threads_per_node < 2 ^ 32
        → s.sample_number < 2 ^ 32
        → s.distribution ≢ unknown
        → (s.distribution ≡ selective → (1 ≤ s.lock_hosts) × (s.lock_hosts ≤ s.nodes))
        → (box : Inbox)
        → ((k : ℕ)
            → 1 ≤ k
            → k < s.nodes
            → send_results s k (leave g (plan k) (workers k)) ≡ some (box k))
        → (t : Tallied R) × (after : Inbox) × (tally_results s g seed
              (leave g (plan 0) (workers 0))
              box
            ≡ some (t, after))
          × ((k : ℕ) → 1 ≤ k → k < s.nodes → after k ≡ [])
          × ((i : ℕ)
              → i < 2
              → (kept (t.throughput i) ≡ all_counts s g seed measures i)
                × (kept (t.latency i) ≡ all_latencies s g seed measures i))
    unfolding measures
    run-tally_results workers locks within ready ran some_nodes small few samples_small known hosts
          box sent =
        let left : ℕ → Measures R = λ k. leave g (plan k) (workers k) in
        let same = leave-Alike workers locks within ready ran in
        let v = λ (k i j : ℕ). λ (lk : k < s.nodes). λ (li : i < 2).
          λ (lj : j < s.threads_per_node).
            subst (Sampled s.sample_number) (sym (same k i j lk lj).1) (
              Sampled-add_samples g s.sample_number (sampled k i j)
                (create (seed j) s.sample_number) (Sampled-create (seed j) s.sample_number)) in
        let (t, after, e, gone, samples) =
          tally_results_lem s g seed left some_nodes small few samples_small v known hosts box
            sent in
        (
          t,
          after,
          e,
          gone,
          λ i lt. (
            (samples i lt).0 ∙ all_counts-eq s g seed left measures same (λ is. (hosts is).1) i,
            (samples i lt).1 ∙ all_latencies-eq s g seed left measures same i,
          ),
        )
