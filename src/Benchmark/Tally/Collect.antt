-- ===== src/Benchmark/Tally/Collect.antt =====
-- TallyResults of include/benchmark/benchmark.h collects the measures of all nodes.
use farlock.Base.{
  ℕ, ◌-◌, ◌*◌, ◌%◌, ◌^◌, ◌≤◌, ◌<◌, ◌≡◌, ◌≢◌, refl, sym, ap, ◌∙◌, Option, none, some, List, [], ◌∷◌,
  ◌++◌, take, false, leb, ◌==◌, arith, inl, inr,
}
use native.Mathlib.Nat.{mul_assoc}
use mathlib.Core.List.{append-nil}
use farlock.Benchmark.Result.{Random, Result, create, add_samples, merge, kept}
use farlock.Benchmark.Loops.{loop, each_of, rounds}
use farlock.Benchmark.Tally.{
  selective, unknown, Settings, Measures, Tallied, Inbox, at_node, receive, receive_latencies,
  all_latency_words, own_latencies, total_threads, send_results, sync, tally_results,
}
use farlock.Benchmark.Tally.Receive.{rounds-add_samples, advance, advance-rest, loop-at_node}
use farlock.Benchmark.Tally.Node.{
  Sampled, length-kept, kept_latencies, fill_all_latencies, receive_latencies_lem,
  fill_all_latencies_lem,
}
use farlock.Benchmark.Tally.Kept.{length-each_of, kept-all}
use farlock.Benchmark.Tally.Throughput.{
  distributions, sent_counts, all_counts, receive_throughput_lem,
}

abbrev words_of : Option (List ℕ) → List ℕ
words_of none = []
words_of (some words) = words

module _ (s : Settings) {R : Type 0} (g : Random R) (seed : ℕ → R) (measured : ℕ → Measures R) where
  -- What a node sends, in its three parts.
  send_results-parts :
      (k : ℕ)
      → k < s.nodes
      → s.distribution ≢ unknown
      → send_results s k (measured k)
        ≡ some (0 ∷ (sent_counts s g seed measured k ++ all_latency_words s (measured k)))
  unfolding send_results
  send_results-parts k below known =
      let here : leb s.nodes k ≡ false = ground (arith, below) in
      elim (distributions s.distribution) [
        | inl is ↦ rw (here, is) refl
        | inr (inl is) ↦ rw (here, is) refl
        | inr (inr is) ↦ absurd (known is)
      ]

  -- The samples that the latencies of local (0) or of remote (1) locks keep on all nodes.
  unfoldable pub all_latencies : ℕ → List ℕ
  all_latencies i = each_of (λ k. kept_latencies s g seed (measured k) i) s.nodes 0

  own_latencies_lem :
      (i : ℕ)
      → own_latencies s g seed (measured 0) i
        ≡ add_samples g
            (kept_latencies s g seed (measured 0) i)
            (create (seed 0) (total_threads s * s.sample_number % 2 ^ 32))
  unfolding merge
  own_latencies_lem i =
      rounds-add_samples g (λ j. merge g ((measured 0).latencies i j)) (λ r. r)
        (λ j. kept ((measured 0).latencies i j)) s.threads_per_node 0
        (create (seed 0) (total_threads s * s.sample_number % 2 ^ 32))
        (λ j r low lt.
          let l = (measured 0).latencies i j in
          ap (λ n. add_samples g (take n l.samples) r) (omega arith))

  sync_lem :
      (rest : ℕ → List ℕ) (box : Inbox)
      → ((k : ℕ) → 1 ≤ k → k < s.nodes → box k ≡ 0 ∷ rest k)
      → sync s g seed box
        ≡ some (rounds (λ k x. 0) (s.nodes - 1) 1 0, advance rest (s.nodes - 1) 1 box)
  sync_lem rest box sent =
      loop-at_node (λ i x. receive) (λ k. 0 ∷ []) rest (λ k x. 0) (s.nodes - 1) 1
        (λ k x low lt. refl) box (λ k low lt. sent k low (omega (arith, lt))) 0

  abbrev latency_results : ℕ → Result R
  latency_results =
      rounds (λ k. fill_all_latencies s g seed (measured k)) (s.nodes - 1) 1
        (own_latencies s g seed (measured 0))

  module _ (some_nodes : 0 < s.nodes)
      (small : s.nodes * s.threads_per_node * s.sample_number < 2 ^ 32)
      (few : s.nodes * s.threads_per_node < 2 ^ 32) (samples_small : s.sample_number < 2 ^ 32)
      (v : (k i j : ℕ)
        → k < s.nodes
        → i < 2
        → j < s.threads_per_node
        → Sampled s.sample_number ((measured k).latencies i j)) where
    latencies_lem :
        (box : Inbox)
        → ((k : ℕ) → 1 ≤ k → k < s.nodes → box k ≡ all_latency_words s (measured k))
        → loop
            (λ i t. at_node i (receive_latencies s g seed t))
            (s.nodes - 1)
            1
            (own_latencies s g seed (measured 0))
            box
          ≡ some (latency_results, advance (λ k. []) (s.nodes - 1) 1 box)
    latencies_lem box sent =
        loop-at_node (λ i. receive_latencies s g seed) (λ k. all_latency_words s (measured k))
          (λ k. []) (λ k. fill_all_latencies s g seed (measured k)) (s.nodes - 1) 1
          (λ k t low lt.
            receive_latencies_lem s g seed (measured k) t []
              (λ i j l m. v k i j (omega (arith, lt)) l m) samples_small)
          box
          (λ k low lt.
            sent k low (omega (arith, lt)) ∙ sym (append-nil (all_latency_words s (measured k))))
          (own_latencies s g seed (measured 0))

    latency_samples : (i : ℕ) → i < 2 → kept (latency_results i) ≡ all_latencies i
    unfolding all_latencies
    latency_samples i lt =
        let capacity : total_threads s * s.sample_number % 2 ^ 32
            ≡ s.nodes * s.threads_per_node * s.sample_number =
          (let threads : total_threads s ≡ s.nodes * s.threads_per_node = omega (arith, few) in
            rw threads (omega (arith, small))) in
        let each_most = λ (k : ℕ). λ (l : k < s.nodes).
          length-each_of (λ j. kept ((measured k).latencies i j)) s.sample_number s.threads_per_node
            0
            (λ j low m.
              let (number, most) =
                length-kept ((measured k).latencies i j) (v k i j l lt (omega (arith, m))) in
              omega (arith, number, most)) in
        kept-all g (seed 0) (λ k. kept_latencies s g seed (measured k) i)
          (s.threads_per_node * s.sample_number) s.nodes
          (total_threads s * s.sample_number % 2 ^ 32) (latency_results i) some_nodes each_most
          (omega (arith, capacity, mul_assoc s.nodes s.threads_per_node s.sample_number))
          (omega arith)
          (rounds-add_samples g (λ k. fill_all_latencies s g seed (measured k)) (λ b. b i)
              (λ k. kept_latencies s g seed (measured k) i) (s.nodes - 1) 1
              (own_latencies s g seed (measured 0))
              (λ k b low l. fill_all_latencies_lem s g seed (measured k) b i lt)
            ∙ ap
                (add_samples g
                  (each_of (λ k. kept_latencies s g seed (measured k) i) (s.nodes - 1) 1))
                (own_latencies_lem i))

    -- With a known distribution, lock_hosts from 1 to the number of nodes if it is selective, and the
    -- words of the other nodes to come, TallyResults on node 0 ends, leaves no word, and keeps the counts
    -- and the kept latencies of all nodes in their order.
    pub tally_results_lem :
        s.distribution ≢ unknown
        → (s.distribution ≡ selective → (1 ≤ s.lock_hosts) × (s.lock_hosts ≤ s.nodes))
        → (box : Inbox)
        → ((k : ℕ) → 1 ≤ k → k < s.nodes → send_results s k (measured k) ≡ some (box k))
        → (t : Tallied R) × (after : Inbox) × (tally_results s g seed (measured 0) box
            ≡ some (t, after))
          × ((k : ℕ) → 1 ≤ k → k < s.nodes → after k ≡ [])
          × ((i : ℕ)
              → i < 2
              → (kept (t.throughput i) ≡ all_counts s g seed measured i)
                × (kept (t.latency i) ≡ all_latencies i))
    unfolding tally_results
    tally_results_lem known hosts box sent =
        let rest_latency : ℕ → List ℕ = λ k. all_latency_words s (measured k) in
        let rest_counts : ℕ → List ℕ = λ k. sent_counts s g seed measured k ++ rest_latency k in
        let first =
          sync_lem rest_counts box
            (λ k low lt. ap words_of (sym (sent k low lt) ∙ send_results-parts k lt known)) in
        let box1 = advance rest_counts (s.nodes - 1) 1 box in
        let counted =
          receive_throughput_lem s g seed measured rest_latency box1 some_nodes few
            (λ k low lt. advance-rest rest_counts (s.nodes - 1) 1 box k low (omega (arith, lt)))
            known hosts in
        let last = latencies_lem counted.box counted.left in
        let some_node : (s.nodes == 0) ≡ false = ground (arith, some_nodes) in
        (
          record { throughput = counted.results; latency = latency_results },
          advance (λ k. []) (s.nodes - 1) 1 counted.box,
          rw (some_node, first, counted.returns, last) refl,
          λ k low lt. advance-rest (λ j. []) (s.nodes - 1) 1 counted.box k low (omega (arith, lt)),
          λ i lt. (counted.samples i lt, latency_samples i lt),
        )
