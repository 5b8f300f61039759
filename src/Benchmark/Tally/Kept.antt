-- ===== src/Benchmark/Tally/Kept.antt =====
-- What the results of TallyResults of include/benchmark/benchmark.h keep of what they are given.
use farlock.Base.{
  ℕ, zero, suc, ◌+◌, ◌-◌, ◌*◌, ◌≤◌, ◌<◌, ◌≡◌, refl, sym, ap, ◌∙◌, List, ◌++◌, length, length-append,
  arith,
}
use native.Mathlib.Nat.{suc-mul}
use farlock.Benchmark.Result.{Random, Result, create, add_samples, kept, word32}
use farlock.Benchmark.Result.Fill.{kept-add_samples}
use farlock.Benchmark.Loops.{each_of}
use farlock.Benchmark.Tally.Receive.{add_samples-append}

pub length-each_of :
    (f : ℕ → List ℕ) (c n j : ℕ)
    → ((k : ℕ) → j ≤ k → k < j + n → length (f k) ≤ c)
    → length (each_of f n j) ≤ n * c
unfolding each_of
length-each_of f c zero j each_le = omega arith
length-each_of f c (suc n) j each_le = omega (
  arith,
  suc-mul n c,
  length-append (f j) (each_of f n (j + 1)),
  each_le j (omega arith) (omega arith),
  length-each_of f c n (j + 1) (λ k low lt. each_le k (omega (arith, low)) (omega (arith, lt))),
)

each_of-first : (f : ℕ → List ℕ) (n : ℕ) → 0 < n → each_of f n 0 ≡ f 0 ++ each_of f (n - 1) 1
unfolding each_of
each_of-first f zero some_rounds = absurd (omega arith)
each_of-first f (suc n) some_rounds = let same : suc n - 1 ≡ n = omega arith in rw same refl

-- A result that holds what node 0 has, to which what the others have is added.
pub kept-all :
    {R : Type 0} (g : Random R) (random : R) (words : ℕ → List ℕ) (c n max_size : ℕ) (r : Result R)
    → 0 < n
    → ((k : ℕ) → k < n → length (words k) ≤ c)
    → n * c ≤ max_size
    → max_size < word32
    → r ≡ add_samples g (each_of words (n - 1) 1) (add_samples g (words 0) (create random max_size))
    → kept r ≡ each_of words n 0
kept-all g random words c n max_size r some_rounds each_le fit small e =
    ap kept
      (e ∙ sym (add_samples-append g (words 0) (each_of words (n - 1) 1) (create random max_size)))
    ∙ rw (sym (each_of-first words n some_rounds)) (
        kept-add_samples g random max_size (each_of words n 0)
          (omega
            (arith, length-each_of words c n 0 (λ k low lt. each_le k (omega (arith, lt))), fit))
          small)
