-- ===== src/Benchmark/Tally.antt =====
-- TallyResults of include/benchmark/benchmark.h: the nodes send their measures to node 0, which
-- collects them. What a node sends to node 0 is the list of its words, in order, and what node 0 has
-- not received yet is such a list for each node.
pub mod Receive
pub mod Node
pub mod Kept
pub mod Throughput
pub mod Collect
pub mod Alike
use farlock.Base.{
  ℕ, ◌+◌, ◌-◌, ◌*◌, ◌%◌, ◌^◌, Bool, true, false, Option, none, some, List, [], ◌∷◌, ◌++◌, leb, ltb,
  ◌==◌, get_or, if◌then◌else◌,
}
use farlock.Base.Family.{update}
use farlock.Rdma.Manager.Connections.{each}
use farlock.Benchmark.Result.{Random, Result, create, add_sample, add_samples, merge, size}
use farlock.Base.Talk.{Talk, then, ◌>>=◌, return, never}
use farlock.Benchmark.Loops.{loop, each_of, rounds}

-- The configuration's distribution: one of two words, or another.
pub data Distribution : Type 0 where
  uniform selective unknown : Distribution

pub record Settings : Type 0 where
  pub distribution : Distribution
  pub lock_hosts : ℕ
  pub threads_per_node : ℕ
  pub sample_number : ℕ
  pub nodes : ℕ

-- What a node has measured, by local (0) or remote (1) lock and by thread.
pub record Measures (R : Type 0) : Type 0 where
  pub counts : ℕ → ℕ → ℕ
  pub latencies : ℕ → ℕ → Result R

pub record Tallied (R : Type 0) : Type 0 where
  pub throughput : ℕ → Result R
  pub latency : ℕ → Result R

-- The words that node 0 has not received.
abbrev pub Inbox : Type 0
Inbox = ℕ → List ℕ

-- Receive from a node.
abbrev pub receive : Talk (List ℕ) ℕ
receive [] = none
receive (x ∷ xs) = some (x, xs)

abbrev pub put_back : {A : Type 0} → ℕ → Inbox → Option (A × List ℕ) → Option (A × Inbox)
put_back i box none = none
put_back i box (some (a, rest)) = some (a, update box i rest)

-- What node 0 does with node `i` alone.
abbrev pub at_node : {A : Type 0} → ℕ → Talk (List ℕ) A → Talk Inbox A
at_node i m box = put_back i box (m (box i))

-- The latencies of a thread, as a node that is not node 0 sends them.
abbrev pub latency_words : {R : Type 0} → Result R → List ℕ
latency_words r = size r ∷ each (λ j. get_or r.samples j 0) (size r) 0

module _ (s : Settings) where
  abbrev pub total_threads : ℕ
  total_threads = s.nodes * s.threads_per_node % 2 ^ 32

  abbrev pub local_threads : ℕ
  local_threads = s.lock_hosts * s.threads_per_node % 2 ^ 32

  abbrev pub remote_threads : ℕ
  remote_threads = (total_threads + 2 ^ 32 - local_threads) % 2 ^ 32

  -- A node's counts of local or of remote locks.
  abbrev pub count_words : {R : Type 0} → Measures R → ℕ → List ℕ
  count_words m i = each (m.counts i) s.threads_per_node 0

  -- The latencies of a node.
  abbrev pub all_latency_words : {R : Type 0} → Measures R → List ℕ
  all_latency_words m =
      each_of (λ k. each_of (λ i. latency_words (m.latencies k i)) s.threads_per_node 0) 2 0

  -- The branch of a node that is not node 0.
  unfoldable pub send_results : {R : Type 0} → ℕ → Measures R → Option (List ℕ)
  send_results node_id m = if leb s.nodes node_id then some [] else elim s.distribution [
    | uniform ↦ some (0 ∷ (each_of (count_words m) 2 0 ++ all_latency_words m))
    | selective ↦
        some
          (0 ∷ (count_words m (if ltb node_id s.lock_hosts then 0 else 1) ++ all_latency_words m))
    | unknown ↦ none
  ]

  module _ {R : Type 0} (g : Random R) (seed : ℕ → R) where
    -- The results at 0 and 1.
    abbrev pub Pair : Type 0
    Pair = ℕ → Result R

    abbrev pub receive_sample : ℕ → Pair → Talk (List ℕ) Pair
    receive_sample j t = do sample ← receive; return (update t j (add_sample g sample (t j)))

    -- As many words of a node as it has threads, to the results at `j`.
    abbrev pub receive_counts : ℕ → Pair → Talk (List ℕ) Pair
    receive_counts j t = loop (λ k. receive_sample j) s.threads_per_node 0 t

    abbrev pub receive_latency : ℕ → Pair → Talk (List ℕ) Pair
    receive_latency j t = do samples ← receive; loop (λ l. receive_sample j) (samples % 2 ^ 32) 0 t

    abbrev pub receive_latencies : Pair → Talk (List ℕ) Pair
    receive_latencies t = loop (λ j. loop (λ k. receive_latency j) s.threads_per_node 0) 2 0 t

    -- Node 0's own counts.
    abbrev pub own_counts : Measures R → ℕ → ℕ → Result R
    own_counts m i max_size = add_samples g (count_words m i) (create (seed 0) max_size)

    unfoldable pub receive_throughput : Measures R → Talk Inbox Pair
    receive_throughput m = elim s.distribution [
      | uniform ↦
          loop (λ i t. at_node i (loop receive_counts 2 0 t)) (s.nodes - 1) 1
            (λ i. own_counts m i total_threads)
      | selective ↦ do
        t ←
            loop (λ i t. at_node i (receive_counts 0 t)) (s.lock_hosts - 1) 1
              (λ i. if i == 0 then own_counts m 0 local_threads else create (seed 0) remote_threads)
        loop (λ i t. at_node i (receive_counts 1 t)) (s.nodes - s.lock_hosts) s.lock_hosts t
      | unknown ↦ never
    ]

    -- Node 0's own latencies.
    abbrev pub own_latencies : Measures R → ℕ → Result R
    own_latencies m i =
        rounds (λ j. merge g (m.latencies i j)) s.threads_per_node 0
          (create (seed 0) (total_threads * s.sample_number % 2 ^ 32))

    -- The first word of each node, which only says that it has come here.
    abbrev pub sync : Talk Inbox ℕ
    sync = loop (λ i x. at_node i receive) (s.nodes - 1) 1 0

    -- What the members of the class hold at first.
    abbrev pub untallied : Tallied R
    untallied = record { throughput = λ i. create (seed 0) 0; latency = λ i. create (seed 0) 0 }

    -- The branch of node 0.
    unfoldable pub tally_results : Measures R → Talk Inbox (Tallied R)
    tally_results m = if s.nodes == 0 then return untallied else do
      x ← sync
      throughput ← receive_throughput m
      latency ← loop (λ i t. at_node i (receive_latencies t)) (s.nodes - 1) 1 (own_latencies m)
      return (record { throughput = throughput; latency = latency })
