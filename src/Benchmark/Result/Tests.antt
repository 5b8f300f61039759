-- ===== src/Benchmark/Result/Tests.antt =====
-- The theorems on include/benchmark/result.h at runs with a generator that counts.
use farlock.Base.{ℕ, suc, ◌+◌, ◌%◌, ◌<◌, ◌≡◌, refl, min, [], ◌∷◌, length, All, arith, true, false}
use farlock.Benchmark.Result.{
  Random, Result, create, add_sample, add_samples, kept, minimum, maximum,
}
use farlock.Benchmark.Result.Sorted.{least, greatest, extremes_lem}
use farlock.Benchmark.Result.Fill.{add_samples-All}
use farlock.Benchmark.Result.Stale.{minimum-add_sample}

abbrev counting : Random ℕ
counting = record { uniform_within = λ from to seed. (from + seed % suc to, suc seed) }

abbrev measured : Result ℕ
measured = record {
  random = 0;
  max_size = 3;
  number_of_samples = 2;
  samples = 5 ∷ 3 ∷ 0 ∷ [];
  sorted = false;
}

abbrev measured_sorted : Result ℕ
measured_sorted = record measured { samples = 3 ∷ 5 ∷ 0 ∷ []; sorted = true }

overfull : kept (add_samples counting (5 ∷ 3 ∷ 9 ∷ 4 ∷ 7 ∷ []) (create 1 3)) ≡ 5 ∷ 4 ∷ 7 ∷ []
unfolding add_samples add_sample create
overfull = refl

add_samples-All_example :
    All (λ x. x < 10) (kept (add_samples counting (5 ∷ 3 ∷ 9 ∷ 4 ∷ []) (create 1 3)))
    × (length (kept (add_samples counting (5 ∷ 3 ∷ 9 ∷ 4 ∷ []) (create 1 3))) ≡ min 4 3)
add_samples-All_example =
    add_samples-All counting (λ x. x < 10) 3 1 (5 ∷ 3 ∷ 9 ∷ 4 ∷ []) (omega arith)
      (omega arith, (omega arith, (omega arith, (omega arith, tt))))

minimum-add_sample_example :
    (minimum (add_sample counting 1 measured_sorted)).0 ≡ (minimum measured_sorted).0
minimum-add_sample_example =
    minimum-add_sample counting 1 measured_sorted refl (omega arith) (omega arith) (omega arith)

extremes_lem_example :
    ((minimum measured).0 ≡ least (kept measured))
    × ((maximum measured).0 ≡ greatest (kept measured))
extremes_lem_example = extremes_lem measured refl refl (omega arith) (omega arith)
