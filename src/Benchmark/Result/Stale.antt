-- ===== src/Benchmark/Result/Stale.antt =====
-- What Min of include/benchmark/result.h says once the samples have been sorted: operator<< leaves
-- the mark that they are.
use farlock.Base.{
  ℕ, suc, ◌-◌, ◌%◌, ◌<◌, ◌≡◌, refl, true, false, List, [], ◌∷◌, set, get_or, leb, ltb, ◌==◌, arith,
}
use farlock.Benchmark.Result.{Random, Result, word32, add_sample, sort, minimum}

get_or-set_later : (xs : List ℕ) (i x : ℕ) → get_or (set xs (suc i) x) 0 0 ≡ get_or xs 0 0
get_or-set_later [] i x = refl
get_or-set_later (y ∷ ys) i x = refl

-- Once the samples are marked sorted, with at least one of them and room for one more, and a
-- capacity below 2 ^ 32, Min after another sample returns what it returned before, even if the
-- sample is less.
pub minimum-add_sample :
    {R : Type 0} (g : Random R) (x : ℕ) (r : Result R)
    → r.sorted ≡ true
    → 0 < r.number_of_samples
    → r.number_of_samples < r.max_size
    → r.max_size < word32
    → (minimum (add_sample g x r)).0 ≡ (minimum r).0
unfolding minimum sort add_sample
minimum-add_sample g x r done some_samples room small =
    let n = r.number_of_samples in
    let nonempty : (n == 0) ≡ false = ground arith in
    let next : suc n % word32 ≡ suc n = omega arith in
    let more : (suc n == 0) ≡ false = ground arith in
    let under : leb r.max_size n ≡ false = ground arith in
    let fits : ltb r.max_size (suc n) ≡ false = ground arith in
    let fit : ltb r.max_size n ≡ false = ground arith in
    let first : n ≡ suc (n - 1) = omega arith in
    rw (under, next, more, fits, fit, nonempty, done)
      (rw first (get_or-set_later r.samples (n - 1) x))
