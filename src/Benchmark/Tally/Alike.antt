-- ===== src/Benchmark/Tally/Alike.antt =====
-- Nodes that have measured the same tally the same in TallyResults of include/benchmark/benchmark.h,
-- and what operator<< of include/benchmark/result.h leaves of a result's capacity.
use farlock.Base.{
  ℕ, zero, suc, ◌+◌, ◌-◌, ◌%◌, ◌^◌, ◌≤◌, ◌<◌, ◌≡◌, refl, ap, ◌∙◌, List, [], ◌∷◌, length-set,
  length-replicate, leb, ltb, ◌==◌, arith, Bool-cases, inl, inr,
}
use farlock.Rdma.Manager.Connections.{each}
use farlock.Benchmark.Result.{Random, Result, create, add_sample, add_samples, kept}
use farlock.Benchmark.Loops.{each_of, each_of-eq}
use farlock.Benchmark.Tally.{selective, Settings, Measures, count_words}
use farlock.Benchmark.Tally.Node.{Sampled}
use farlock.Benchmark.Tally.Throughput.{all_counts, distributions}
use farlock.Benchmark.Tally.Collect.{all_latencies}

Sampled-add_sample :
    {R : Type 0} (g : Random R) (n x : ℕ) (r : Result R)
    → Sampled n r
    → Sampled n (add_sample g x r)
unfolding add_sample
Sampled-add_sample g n x r v =
    let drawn = (g.uniform_within 0 ((r.number_of_samples + 2 ^ 32 - 1) % 2 ^ 32) r.random).0 in
    elim (Bool-cases (leb r.max_size r.number_of_samples)) [
      | inl over ↦ elim (Bool-cases (ltb drawn r.max_size)) [
        | inl picked ↦
            rw (over, picked)
              (record { capacity = v.capacity; full = length-set r.samples drawn x ∙ v.full })
        | inr passed ↦ rw (over, passed) (record { capacity = v.capacity; full = v.full })
      ]
      | inr under ↦ rw under (record {
        capacity = v.capacity;
        full = length-set r.samples r.number_of_samples x ∙ v.full;
      })
    ]

pub Sampled-add_samples :
    {R : Type 0} (g : Random R) (n : ℕ) (xs : List ℕ) (r : Result R)
    → Sampled n r
    → Sampled n (add_samples g xs r)
unfolding add_samples
Sampled-add_samples g n [] r v = v
Sampled-add_samples g n (x ∷ xs) r v =
    Sampled-add_samples g n xs (add_sample g x r) (Sampled-add_sample g n x r v)

pub Sampled-create : {R : Type 0} (random : R) (n : ℕ) → Sampled n (create random n)
unfolding create
Sampled-create random n = record { capacity = refl; full = length-replicate n 0 }

each-eq :
    {A : Type 0} (f g : ℕ → A) (n j : ℕ)
    → ((k : ℕ) → j ≤ k → k < j + n → f k ≡ g k)
    → each f n j ≡ each g n j
unfolding each
each-eq f g zero j same = refl
each-eq f g (suc n) j same =
    rw
      (
        same j (omega arith) (omega arith),
        each-eq f g n (j + 1) (λ k low lt. same k (omega (arith, low)) (omega (arith, lt))),
      )
      refl

module _ (s : Settings) {R : Type 0} (g : Random R) (seed : ℕ → R) where
  -- Nodes whose threads have measured the same.
  abbrev pub Alike : (ℕ → Measures R) → (ℕ → Measures R) → Type 0
  Alike m n =
      (k i j : ℕ)
      → k < s.nodes
      → j < s.threads_per_node
      → ((m k).counts i j ≡ (n k).counts i j) × ((m k).latencies i j ≡ (n k).latencies i j)

  count_words-eq :
      (m n : ℕ → Measures R)
      → Alike m n
      → (k i : ℕ) → k < s.nodes
      → count_words s (m k) i ≡ count_words s (n k) i
  count_words-eq m n same k i lt =
      each-eq ((m k).counts i) ((n k).counts i) s.threads_per_node 0
        (λ j low l. (same k i j lt (omega (arith, l))).0)

  pub all_counts-eq :
      (m n : ℕ → Measures R)
      → Alike m n
      → (s.distribution ≡ selective → s.lock_hosts ≤ s.nodes)
      → (i : ℕ) → all_counts s g seed m i ≡ all_counts s g seed n i
  unfolding all_counts
  all_counts-eq m n same hosts i = elim (distributions s.distribution) [
    | inl is ↦ rw is (
        each_of-eq (λ k. count_words s (m k) i) (λ k. count_words s (n k) i) s.nodes 0
          (λ k low lt. count_words-eq m n same k i (omega (arith, lt))))
    | inr (inl is) ↦
        let local =
          each_of-eq (λ k. count_words s (m k) 0) (λ k. count_words s (n k) 0) s.lock_hosts 0
            (λ k low lt. count_words-eq m n same k 0 (omega (arith, lt, hosts is))) in
        let remote =
          each_of-eq (λ k. count_words s (m k) 1) (λ k. count_words s (n k) 1)
            (s.nodes - s.lock_hosts) s.lock_hosts
            (λ k low lt. count_words-eq m n same k 1 (omega (arith, lt, hosts is))) in
        rw is (elim (Bool-cases (i == 0)) [
          | inl zeroth ↦ rw zeroth local
          | inr other ↦ rw other remote
        ])
    | inr (inr is) ↦ rw is refl
  ]

  pub all_latencies-eq :
      (m n : ℕ → Measures R)
      → Alike m n
      → (i : ℕ) → all_latencies s g seed m i ≡ all_latencies s g seed n i
  unfolding all_latencies
  all_latencies-eq m n same i =
      each_of-eq (λ k. each_of (λ j. kept ((m k).latencies i j)) s.threads_per_node 0)
        (λ k. each_of (λ j. kept ((n k).latencies i j)) s.threads_per_node 0) s.nodes 0
        (λ k low lt.
          each_of-eq (λ j. kept ((m k).latencies i j)) (λ j. kept ((n k).latencies i j))
            s.threads_per_node 0
            (λ j above l. ap kept (same k i j (omega (arith, lt)) (omega (arith, l))).1))
