-- ===== src/Benchmark/Tally/Throughput.antt =====
-- The counts that node 0 collects in TallyResults of include/benchmark/benchmark.h.
use farlock.Base.{
  ℕ, zero, suc, ◌+◌, ◌-◌, ◌*◌, ◌^◌, ◌≤◌, ◌<◌, ◌≡◌, ◌≢◌, refl, ap, ◌∙◌, Option, some, List, [], ◌++◌,
  length, true, false, ltb, ◌==◌, if◌then◌else◌, arith, dec_lt, ◌⊎◌, inl, inr,
}
use native.Mathlib.Nat.{add-mul}
use farlock.Benchmark.Result.{Random, Result, create, add_samples, kept}
use farlock.Benchmark.Result.Fill.{kept-add_samples}
use farlock.Benchmark.Loops.{loop, each_of, rounds}
use farlock.Benchmark.Tally.{
  Distribution, uniform, selective, unknown, Settings, Measures, Inbox, count_words, total_threads,
  local_threads, remote_threads, receive_counts, own_counts, receive_throughput,
}
use farlock.Rdma.Manager.Connections.Wiring.{length-each}
use farlock.Benchmark.Tally.Receive.{
  rounds-add_samples, rounds-same, advance, advance-other, advance-rest, loop-at_node,
}
use farlock.Benchmark.Tally.Node.{
  fill, fill-same, fill-other, receive_counts_lem, fill_counts, receive_both_lem, fill_counts_lem,
}
use farlock.Benchmark.Tally.Kept.{length-each_of, kept-all}

pub distributions : (d : Distribution) → (d ≡ uniform) ⊎ ((d ≡ selective) ⊎ (d ≡ unknown))
distributions uniform = inl refl
distributions selective = inr (inl refl)
distributions unknown = inr (inr refl)

module _ (s : Settings) {R : Type 0} (g : Random R) (seed : ℕ → R) (measured : ℕ → Measures R) where
  -- The counts that a node sends.
  abbrev pub sent_counts : ℕ → List ℕ
  sent_counts k = elim s.distribution [
    | uniform ↦ each_of (count_words s (measured k)) 2 0
    | selective ↦ count_words s (measured k) (if ltb k s.lock_hosts then 0 else 1)
    | unknown ↦ []
  ]

  -- The counts of local locks (0) and of remote locks (1).
  unfoldable pub all_counts : ℕ → List ℕ
  all_counts i = elim s.distribution [
    | uniform ↦ each_of (λ k. count_words s (measured k) i) s.nodes 0
    | selective ↦
        if i == 0
        then each_of (λ k. count_words s (measured k) 0) s.lock_hosts 0
        else each_of (λ k. count_words s (measured k) 1) (s.nodes - s.lock_hosts) s.lock_hosts
    | unknown ↦ []
  ]

  -- The words of the nodes after node 0 are gone, with the samples kept.
  pub record Collected (all : ℕ → List ℕ) (rest : ℕ → List ℕ) (r : Option ((ℕ → Result R) × Inbox))
      : Type 0 where
    pub results : ℕ → Result R
    pub box : Inbox
    pub returns : r ≡ some (results, box)
    pub left : (k : ℕ) → 1 ≤ k → k < s.nodes → box k ≡ rest k
    pub samples : (i : ℕ) → i < 2 → kept (results i) ≡ all i

  length-count_words : (m : Measures R) (i : ℕ) → length (count_words s m i) ≤ s.threads_per_node
  length-count_words m i = omega (arith, length-each (m.counts i) s.threads_per_node 0)

  abbrev uniform_results : ℕ → Result R
  uniform_results =
      rounds (λ k. fill_counts s g seed (measured k)) (s.nodes - 1) 1
        (λ i. own_counts s g seed (measured 0) i (total_threads s))

  abbrev selective_start : ℕ → Result R
  selective_start i =
      if i == 0
      then own_counts s g seed (measured 0) 0 (local_threads s)
      else create (seed 0) (remote_threads s)

  abbrev local_results : ℕ → Result R
  local_results =
      rounds (λ k. fill g 0 (count_words s (measured k) 0)) (s.lock_hosts - 1) 1 selective_start

  abbrev selective_results : ℕ → Result R
  selective_results =
      rounds (λ k. fill g 1 (count_words s (measured k) 1)) (s.nodes - s.lock_hosts) s.lock_hosts
        local_results

  hosts_threads :
      s.lock_hosts ≤ s.nodes
      → s.nodes * s.threads_per_node
        ≡ s.lock_hosts * s.threads_per_node + (s.nodes - s.lock_hosts) * s.threads_per_node
  hosts_threads enough =
      let all : s.nodes ≡ s.lock_hosts + (s.nodes - s.lock_hosts) = omega (arith, enough) in
      ap (λ n. n * s.threads_per_node) all
      ∙ add-mul s.lock_hosts (s.nodes - s.lock_hosts) s.threads_per_node

  selective_samples :
      1 ≤ s.lock_hosts
      → s.lock_hosts ≤ s.nodes
      → s.nodes * s.threads_per_node < 2 ^ 32
      → s.distribution ≡ selective
      → (i : ℕ) → i < 2
      → kept (selective_results i) ≡ all_counts i
  unfolding all_counts
  selective_samples some_hosts enough small is zero lt =
      let all = hosts_threads enough in
      rw is (
        kept-all g (seed 0) (λ k. count_words s (measured k) 0) s.threads_per_node s.lock_hosts
          (local_threads s) (selective_results 0) some_hosts
          (λ k l. length-count_words (measured k) 0) (omega (arith, small, all)) (omega arith)
          (rounds-same (λ k. fill g 1 (count_words s (measured k) 1)) (λ b. b 0)
              (s.nodes - s.lock_hosts) s.lock_hosts local_results
              (λ k b. fill-other g 1 (count_words s (measured k) 1) b 0 (ground arith))
            ∙ rounds-add_samples g (λ k. fill g 0 (count_words s (measured k) 0)) (λ b. b 0)
                (λ k. count_words s (measured k) 0) (s.lock_hosts - 1) 1 selective_start
                (λ k b low l. fill-same g 0 (count_words s (measured k) 0) b)))
  selective_samples some_hosts enough small is (suc zero) lt =
      let all = hosts_threads enough in
      let words : ℕ → List ℕ = λ k. count_words s (measured k) 1 in
      let most =
        length-each_of words s.threads_per_node (s.nodes - s.lock_hosts) s.lock_hosts
          (λ k low l. length-count_words (measured k) 1) in
      rw is (
        ap kept (
          rounds-add_samples g (λ k. fill g 1 (words k)) (λ b. b 1) words (s.nodes - s.lock_hosts)
            s.lock_hosts local_results (λ k b low l. fill-same g 1 (words k) b)
          ∙ ap (add_samples g (each_of words (s.nodes - s.lock_hosts) s.lock_hosts)) (
              rounds-same (λ k. fill g 0 (count_words s (measured k) 0)) (λ b. b 1)
                (s.lock_hosts - 1) 1 selective_start
                (λ k b. fill-other g 0 (count_words s (measured k) 0) b 1 (ground arith))))
        ∙ kept-add_samples g (seed 0) (remote_threads s)
            (each_of words (s.nodes - s.lock_hosts) s.lock_hosts) (omega (arith, most, all, small))
            (omega arith))
  selective_samples some_hosts enough small is (suc (suc i)) lt = absurd (omega arith)

  module _ (rest : ℕ → List ℕ) (box : Inbox) (some_nodes : 0 < s.nodes)
      (small : s.nodes * s.threads_per_node < 2 ^ 32)
      (sent : (k : ℕ) → 1 ≤ k → k < s.nodes → box k ≡ sent_counts k ++ rest k) where
    throughput_uniform :
        s.distribution ≡ uniform
        → Collected all_counts rest (receive_throughput s g seed (measured 0) box)
    unfolding receive_throughput all_counts
    throughput_uniform is = record {
      results = uniform_results;
      box = advance rest (s.nodes - 1) 1 box;
      returns = rw is (
          loop-at_node (λ i. loop (receive_counts s g seed) 2 0)
            (λ k. each_of (count_words s (measured k)) 2 0) rest
            (λ k. fill_counts s g seed (measured k)) (s.nodes - 1) 1
            (λ k a low lt. receive_both_lem s g seed (measured k) a (rest k)) box
            (λ k low lt. sent k low (omega (arith, lt)) ∙ rw is refl)
            (λ i. own_counts s g seed (measured 0) i (total_threads s)));
      left = λ k low lt. advance-rest rest (s.nodes - 1) 1 box k low (omega (arith, lt));
      samples = λ i lt. rw is (
          kept-all g (seed 0) (λ k. count_words s (measured k) i) s.threads_per_node s.nodes
            (total_threads s) (uniform_results i) some_nodes
            (λ k l. length-count_words (measured k) i) (omega (arith, small)) (omega arith)
            (rounds-add_samples g (λ k. fill_counts s g seed (measured k)) (λ b. b i)
              (λ k. count_words s (measured k) i) (s.nodes - 1) 1
              (λ i. own_counts s g seed (measured 0) i (total_threads s))
              (λ k b low l. fill_counts_lem s g seed (measured k) b i lt)));
    }

    throughput_selective :
        1 ≤ s.lock_hosts
        → s.lock_hosts ≤ s.nodes
        → s.distribution ≡ selective
        → Collected all_counts rest (receive_throughput s g seed (measured 0) box)
    unfolding receive_throughput all_counts
    throughput_selective some_hosts enough is =
        let first =
          loop-at_node (λ i. receive_counts s g seed 0) (λ k. count_words s (measured k) 0) rest
            (λ k. fill g 0 (count_words s (measured k) 0)) (s.lock_hosts - 1) 1
            (λ k a low lt. receive_counts_lem s g seed 0 (measured k) 0 a (rest k)) box
            (λ k low lt.
              let host : ltb k s.lock_hosts ≡ true = ground (arith, lt, some_hosts) in
              sent k low (omega (arith, lt)) ∙ rw (is, host) refl)
            selective_start in
        let later = advance rest (s.lock_hosts - 1) 1 box in
        let second =
          loop-at_node (λ i. receive_counts s g seed 1) (λ k. count_words s (measured k) 1) rest
            (λ k. fill g 1 (count_words s (measured k) 1)) (s.nodes - s.lock_hosts) s.lock_hosts
            (λ k a low lt. receive_counts_lem s g seed 1 (measured k) 1 a (rest k)) later
            (λ k low lt.
              let guest : ltb k s.lock_hosts ≡ false = ground (arith, low) in
              advance-other rest (s.lock_hosts - 1) 1 box k (inr (omega (arith, low, some_hosts)))
              ∙ sent k (omega (arith, low, some_hosts)) (omega (arith, lt, enough))
              ∙ rw (is, guest) refl)
            local_results in
        record {
          results = selective_results;
          box = advance rest (s.nodes - s.lock_hosts) s.lock_hosts later;
          returns = rw (is, first) second;
          left = λ k low lt. elim (dec_lt k s.lock_hosts) [
            | yes host ↦
                advance-other rest (s.nodes - s.lock_hosts) s.lock_hosts later k (inl host)
                ∙ advance-rest rest (s.lock_hosts - 1) 1 box k low (omega (arith, host))
            | no guest ↦
                advance-rest rest (s.nodes - s.lock_hosts) s.lock_hosts later k
                  (omega (arith, guest)) (omega (arith, lt, guest, enough))
          ];
          samples = λ i lt. selective_samples some_hosts enough small is i lt;
        }

    -- The counts of each node arrive.
    pub receive_throughput_lem :
        s.distribution ≢ unknown
        → (s.distribution ≡ selective → (1 ≤ s.lock_hosts) × (s.lock_hosts ≤ s.nodes))
        → Collected all_counts rest (receive_throughput s g seed (measured 0) box)
    receive_throughput_lem known hosts = elim (distributions s.distribution) [
      | inl is ↦ throughput_uniform is
      | inr (inl is) ↦ throughput_selective (hosts is).0 (hosts is).1 is
      | inr (inr is) ↦ absurd (known is)
    ]
