-- ===== src/Benchmark/Tally/Node.antt =====
-- What node 0 receives of one node in TallyResults of include/benchmark/benchmark.h: what that node
-- has sent.
use farlock.Base.{
  ℕ, zero, suc, ◌+◌, ◌%◌, ◌^◌, ◌≤◌, ◌<◌, ◌≡◌, ◌≢◌, refl, sym, ap, subst, ◌∙◌, some, List, [], ◌∷◌,
  ◌++◌, length, take, min, arith,
}
use farlock.Base.Family.{update}
use farlock.Benchmark.Result.{Random, Result, add_sample, add_samples, kept, size}
use farlock.Benchmark.Loops.{loop, each_of, rounds, loop-each_of}
use farlock.Benchmark.Tally.{
  Settings, Measures, latency_words, count_words, all_latency_words, receive_sample, receive_counts,
  receive_latency, receive_latencies,
}
use farlock.Rdma.Manager.Connections.Wiring.{length-each}
use farlock.Benchmark.Tally.Receive.{each-get_or, rounds-add_samples, rounds-same}

-- A thread's latencies as they are created, for `sample_number` samples.
pub record Sampled {R : Type 0} (sample_number : ℕ) (r : Result R) : Type 0 where
  pub capacity : r.max_size ≡ sample_number
  pub full : length r.samples ≡ sample_number

pub latency_words-kept :
    {R : Type 0} {sample_number : ℕ} (r : Result R)
    → Sampled sample_number r
    → latency_words r ≡ size r ∷ kept r
unfolding size
latency_words-kept r v =
    ap (λ l. size r ∷ l) (each-get_or r.samples (size r) (omega (arith, v.capacity, v.full)))

length-take : (n : ℕ) (xs : List ℕ) → n ≤ length xs → length (take n xs) ≡ n
length-take zero xs fit = refl
length-take (suc n) [] fit = absurd (omega arith)
length-take (suc n) (x ∷ xs) fit = ap suc (length-take n xs (omega (arith, fit)))

pub length-kept :
    {R : Type 0} {sample_number : ℕ} (r : Result R)
    → Sampled sample_number r
    → (length (kept r) ≡ size r) × (size r ≤ sample_number)
unfolding size
length-kept r v = (
  length-take (min r.number_of_samples r.max_size) r.samples (omega (arith, v.capacity, v.full)),
  omega (arith, v.capacity),
)

module _ {R : Type 0} (g : Random R) where
  -- Samples to the result at `j`.
  unfoldable pub fill : ℕ → List ℕ → (ℕ → Result R) → ℕ → Result R
  fill j [] t = t
  fill j (x ∷ xs) t = fill j xs (update t j (add_sample g x (t j)))

  pub fill-same : (j : ℕ) (xs : List ℕ) (t : ℕ → Result R) → fill j xs t j ≡ add_samples g xs (t j)
  unfolding fill add_samples
  fill-same j [] t = refl
  fill-same j (x ∷ xs) t = fill-same j xs (update t j (add_sample g x (t j))) ∙ ground arith

  pub fill-other : (j : ℕ) (xs : List ℕ) (t : ℕ → Result R) (k : ℕ) → k ≢ j → fill j xs t k ≡ t k
  unfolding fill
  fill-other j [] t k ne = refl
  fill-other j (x ∷ xs) t k ne =
      fill-other j xs (update t j (add_sample g x (t j))) k ne ∙ ground (arith, ne)

module _ (s : Settings) {R : Type 0} (g : Random R) (seed : ℕ → R) where
  loop-fill :
      (j i : ℕ) (xs : List ℕ) (n : ℕ) (t : ℕ → Result R) (rest : List ℕ)
      → n ≡ length xs
      → loop (λ l. receive_sample s g seed j) n i t (xs ++ rest) ≡ some (fill g j xs t, rest)
  unfolding loop fill
  loop-fill j i [] zero t rest all = refl
  loop-fill j i [] (suc n) t rest all = absurd (omega arith)
  loop-fill j i (x ∷ xs) zero t rest all = absurd (omega arith)
  loop-fill j i (x ∷ xs) (suc n) t rest all =
      loop-fill j (i + 1) xs n (update t j (add_sample g x (t j))) rest (omega (arith, all))

  pub receive_counts_lem :
      (j : ℕ) (m : Measures R) (i : ℕ) (t : ℕ → Result R) (rest : List ℕ)
      → receive_counts s g seed j t (count_words s m i ++ rest)
        ≡ some (fill g j (count_words s m i) t, rest)
  receive_counts_lem j m i t rest =
      loop-fill j 0 (count_words s m i) s.threads_per_node t rest
        (sym (length-each (m.counts i) s.threads_per_node 0))

  receive_latency_lem :
      (j : ℕ) (r : Result R) (t : ℕ → Result R) (rest : List ℕ)
      → Sampled s.sample_number r
      → s.sample_number < 2 ^ 32
      → receive_latency s g seed j t (latency_words r ++ rest) ≡ some (fill g j (kept r) t, rest)
  receive_latency_lem j r t rest v small =
      let (number, most) = length-kept r v in
      subst (λ w. receive_latency s g seed j t (w ++ rest) ≡ some (fill g j (kept r) t, rest))
        (sym (latency_words-kept r v))
        (loop-fill j 0 (kept r) (size r % 2 ^ 32) t rest (omega (arith, number, most, small)))

  -- The samples that a node's latencies keep, of local or of remote locks.
  abbrev pub kept_latencies : Measures R → ℕ → List ℕ
  kept_latencies m i = each_of (λ k. kept (m.latencies i k)) s.threads_per_node 0

  -- The latencies of a node, to the results at 0 and at 1.
  abbrev pub fill_latencies : Measures R → ℕ → (ℕ → Result R) → ℕ → Result R
  fill_latencies m i = rounds (λ k. fill g i (kept (m.latencies i k))) s.threads_per_node 0

  abbrev pub fill_all_latencies : Measures R → (ℕ → Result R) → ℕ → Result R
  fill_all_latencies m = rounds (fill_latencies m) 2 0

  pub receive_latencies_lem :
      (m : Measures R) (t : ℕ → Result R) (rest : List ℕ)
      → ((i k : ℕ) → i < 2 → k < s.threads_per_node → Sampled s.sample_number (m.latencies i k))
      → s.sample_number < 2 ^ 32
      → receive_latencies s g seed t (all_latency_words s m ++ rest)
        ≡ some (fill_all_latencies m t, rest)
  receive_latencies_lem m t rest v small =
      loop-each_of (λ j. loop (λ k. receive_latency s g seed j) s.threads_per_node 0)
        (λ i. each_of (λ k. latency_words (m.latencies i k)) s.threads_per_node 0)
        (fill_latencies m) 2 0
        (λ i b more low lt.
          loop-each_of (λ k. receive_latency s g seed i) (λ k. latency_words (m.latencies i k))
            (λ k. fill g i (kept (m.latencies i k))) s.threads_per_node 0
            (λ k c others above under.
              receive_latency_lem i (m.latencies i k) c others
                (v i k (omega (arith, lt)) (omega (arith, under))) small)
            b more)
        t rest

  fill_latencies-same :
      (m : Measures R) (i : ℕ) (t : ℕ → Result R)
      → fill_latencies m i t i ≡ add_samples g (kept_latencies m i) (t i)
  fill_latencies-same m i t =
      rounds-add_samples g (λ k. fill g i (kept (m.latencies i k))) (λ b. b i)
        (λ k. kept (m.latencies i k)) s.threads_per_node 0 t
        (λ k b low lt. fill-same g i (kept (m.latencies i k)) b)

  fill_latencies-other :
      (m : Measures R) (i : ℕ) (t : ℕ → Result R) (k : ℕ) → k ≢ i → fill_latencies m i t k ≡ t k
  fill_latencies-other m i t k ne =
      rounds-same (λ j. fill g i (kept (m.latencies i j))) (λ b. b k) s.threads_per_node 0 t
        (λ j b. fill-other g i (kept (m.latencies i j)) b k ne)

  pub fill_all_latencies_lem :
      (m : Measures R) (t : ℕ → Result R) (i : ℕ)
      → i < 2
      → fill_all_latencies m t i ≡ add_samples g (kept_latencies m i) (t i)
  unfolding rounds
  fill_all_latencies_lem m t zero lt =
      fill_latencies-other m 1 (fill_latencies m 0 t) 0 (ground arith) ∙ fill_latencies-same m 0 t
  fill_all_latencies_lem m t (suc zero) lt =
      fill_latencies-same m 1 (fill_latencies m 0 t)
      ∙ ap (add_samples g (kept_latencies m 1)) (fill_latencies-other m 0 t 1 (ground arith))
  fill_all_latencies_lem m t (suc (suc i)) lt = absurd (omega arith)

  -- The counts of a node under a uniform distribution.
  abbrev pub fill_counts : Measures R → (ℕ → Result R) → ℕ → Result R
  fill_counts m = rounds (λ j. fill g j (count_words s m j)) 2 0

  pub receive_both_lem :
      (m : Measures R) (t : ℕ → Result R) (rest : List ℕ)
      → loop (receive_counts s g seed) 2 0 t (each_of (count_words s m) 2 0 ++ rest)
        ≡ some (fill_counts m t, rest)
  receive_both_lem m t rest =
      loop-each_of (receive_counts s g seed) (count_words s m) (λ j. fill g j (count_words s m j)) 2
        0 (λ j b more low lt. receive_counts_lem j m j b more) t rest

  pub fill_counts_lem :
      (m : Measures R) (t : ℕ → Result R) (i : ℕ)
      → i < 2
      → fill_counts m t i ≡ add_samples g (count_words s m i) (t i)
  unfolding rounds
  fill_counts_lem m t zero lt =
      fill-other g 1 (count_words s m 1) (fill g 0 (count_words s m 0) t) 0 (ground arith)
      ∙ fill-same g 0 (count_words s m 0) t
  fill_counts_lem m t (suc zero) lt =
      fill-same g 1 (count_words s m 1) (fill g 0 (count_words s m 0) t)
      ∙ ap (add_samples g (count_words s m 1))
          (fill-other g 0 (count_words s m 0) t 1 (ground arith))
  fill_counts_lem m t (suc (suc i)) lt = absurd (omega arith)
