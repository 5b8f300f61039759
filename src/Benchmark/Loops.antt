-- ===== src/Benchmark/Loops.antt =====
-- The loops of include/benchmark/benchmark.h over an index:
-- those that send, as the words that they send, and those that receive.
use farlock.Base.{ℕ, zero, suc, ◌+◌, ◌≤◌, ◌<◌, ◌≡◌, refl, some, List, [], ◌++◌, arith}
use farlock.Base.Talk.{Talk, ◌>>=◌, return}
use mathlib.Core.List.{append_assoc}

-- A loop with `n` rounds left and the next index `j`.
unfoldable pub loop : {W A : Type 0} → (ℕ → A → Talk W A) → ℕ → ℕ → A → Talk W A
loop step zero j a = return a
loop step (suc n) j a = do b ← step j a; loop step n (j + 1) b

-- What the rounds of a loop send.
unfoldable pub each_of {ℓ} : {A : Type ℓ} → (ℕ → List A) → ℕ → ℕ → List A
each_of f zero j = []
each_of f (suc n) j = f j ++ each_of f n (j + 1)

-- What a loop makes of a value that each round changes.
unfoldable pub rounds : {A : Type 0} → (ℕ → A → A) → ℕ → ℕ → A → A
rounds step zero j a = a
rounds step (suc n) j a = rounds step n (j + 1) (step j a)

-- A loop whose rounds consume what the rounds of another loop send.
pub loop-each_of :
    {A : Type 0} (step : ℕ → A → Talk (List ℕ) A) (words : ℕ → List ℕ) (after : ℕ → A → A) (n j : ℕ)
    → ((k : ℕ) (a : A) (rest : List ℕ)
        → j ≤ k
        → k < j + n
        → step k a (words k ++ rest) ≡ some (after k a, rest))
    → (a : A) (rest : List ℕ)
    → loop step n j a (each_of words n j ++ rest) ≡ some (rounds after n j a, rest)
unfolding loop each_of rounds
loop-each_of step words after zero j consumes a rest = refl
loop-each_of step words after (suc n) j consumes a rest =
    rw
      (
        append_assoc (words j) (each_of words n (j + 1)) rest,
        consumes j a (each_of words n (j + 1) ++ rest) (omega arith) (omega arith),
      )
      (loop-each_of step words after n (j + 1)
        (λ k b more low lt. consumes k b more (omega (arith, low)) (omega (arith, lt))) (after j a)
        rest)

pub each_of-eq :
    {A : Type 0} (f g : ℕ → List A) (n j : ℕ)
    → ((k : ℕ) → j ≤ k → k < j + n → f k ≡ g k)
    → each_of f n j ≡ each_of g n j
unfolding each_of
each_of-eq f g zero j same = refl
each_of-eq f g (suc n) j same =
    rw
      (
        same j (omega arith) (omega arith),
        each_of-eq f g n (j + 1) (λ k low lt. same k (omega (arith, low)) (omega (arith, lt))),
      )
      refl
