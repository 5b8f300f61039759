-- ===== src/Benchmark/Result/Fill.antt =====
-- What operator<< of include/benchmark/result.h keeps of the samples.
use farlock.Base.{
  ℕ, zero, suc, ◌+◌, ◌-◌, ◌%◌, ◌≤◌, ◌<◌, ◌≡◌, refl, sym, ap, subst, length-append, ◌∙◌, min, false,
  List, [], ◌∷◌, ◌++◌, length, length-set, length-replicate, take, set, replicate, leb, ltb, All,
  arith, Bool-cases, inl, inr,
}
use mathlib.Core.List.{append-nil, append_assoc}
use farlock.Benchmark.Result.{Random, Result, word32, create, add_sample, add_samples, kept}

-- Of a set sample every one that counts has what the new one and the old ones have.
All-take-set :
    (P : ℕ → Type 0) (m i x : ℕ) (xs : List ℕ)
    → P x
    → All P (take m xs)
    → All P (take m (set xs i x))
All-take-set P zero i x xs p ps = tt
All-take-set P (suc m) i x [] p ps = tt
All-take-set P (suc m) zero x (y ∷ ys) p (q, qs) = (p, qs)
All-take-set P (suc m) (suc i) x (y ∷ ys) p (q, qs) = (q, All-take-set P m i x ys p qs)

All-take-next :
    (P : ℕ → Type 0) (i x : ℕ) (xs : List ℕ)
    → P x
    → All P (take i xs)
    → All P (take (suc i) (set xs i x))
All-take-next P zero x [] p ps = tt
All-take-next P zero x (y ∷ ys) p ps = (p, tt)
All-take-next P (suc i) x [] p ps = tt
All-take-next P (suc i) x (y ∷ ys) p (q, qs) = (q, All-take-next P i x ys p qs)

length-take-min : (k m : ℕ) (xs : List ℕ) → length xs ≡ m → length (take (min k m) xs) ≡ min k m
length-take-min k m xs full = length-take (min k m) xs (omega (arith, full))
  where
    length-take : (k : ℕ) (xs : List ℕ) → k ≤ length xs → length (take k xs) ≡ k
    length-take zero xs fit = refl
    length-take (suc k) [] fit = absurd (omega arith)
    length-take (suc k) (x ∷ xs) fit = ap suc (length-take k xs (omega (arith, fit)))

-- A Result after `n` samples that all have a property.
record Filled {R : Type 0} (P : ℕ → Type 0) (max_size n : ℕ) (r : Result R) : Type 0 where
  capacity : r.max_size ≡ max_size
  number : r.number_of_samples ≡ n
  full : length r.samples ≡ max_size
  have : All P (kept r)

module _ {R : Type 0} (g : Random R) (P : ℕ → Type 0) (max_size : ℕ) where
  add_sample-Filled :
      (n x : ℕ) (r : Result R)
      → suc n < word32
      → P x
      → Filled P max_size n r
      → Filled P max_size (suc n) (add_sample g x r)
  unfolding add_sample
  add_sample-Filled n x r small p f =
      let counted : suc r.number_of_samples % word32 ≡ suc n = omega (arith, f.number) in
      let drawn = (g.uniform_within 0 ((r.number_of_samples + word32 - 1) % word32) r.random).0 in
      elim (Bool-cases (leb r.max_size r.number_of_samples)) [
        | inl over ↦
            let before : min r.number_of_samples r.max_size ≡ max_size =
              ground (arith, f.capacity) in
            let after : min (suc n) r.max_size ≡ max_size = ground (arith, f.capacity, f.number) in
            elim (Bool-cases (ltb drawn r.max_size)) [
              | inl picked ↦
                  rw (over, counted, picked)
                    (record {
                      capacity = f.capacity;
                      number = refl;
                      full = length-set r.samples drawn x ∙ f.full;
                      have = rw after (
                          All-take-set P max_size drawn x r.samples p
                            (subst (λ m. All P (take m r.samples)) before f.have));
                    })
              | inr passed ↦
                  rw (over, counted, passed)
                    (record {
                      capacity = f.capacity;
                      number = refl;
                      full = f.full;
                      have = rw after (subst (λ m. All P (take m r.samples)) before f.have);
                    })
            ]
        | inr under ↦
            let before : min r.number_of_samples r.max_size ≡ n = ground (arith, f.number) in
            let after : min (suc n) r.max_size ≡ suc n = ground (arith, f.number) in
            rw (under, counted)
              (record {
                capacity = f.capacity;
                number = refl;
                full = length-set r.samples r.number_of_samples x ∙ f.full;
                have =
                    rw (after, f.number)
                      (All-take-next P n x r.samples p
                        (subst (λ m. All P (take m r.samples)) before f.have));
              })
      ]

  add_samples-Filled :
      (xs : List ℕ) (n : ℕ) (r : Result R)
      → n + length xs < word32
      → All P xs
      → Filled P max_size n r
      → Filled P max_size (n + length xs) (add_samples g xs r)
  unfolding add_samples
  add_samples-Filled [] n r small ps f = let same : n + 0 ≡ n = omega arith in rw same f
  add_samples-Filled (x ∷ xs) n r small (p, ps) f =
      let shift : n + suc (length xs) ≡ suc n + length xs = omega arith in
      rw shift (
        add_samples-Filled xs (suc n) (add_sample g x r) (omega arith) ps
          (add_sample-Filled n x r (omega arith) p f))

  create-Filled : (random : R) → Filled P max_size 0 (create random max_size)
  unfolding create
  create-Filled random = record {
    capacity = refl;
    number = refl;
    full = length-replicate max_size 0;
    have = nothing;
  }
    where
      nothing : All P (take (min 0 max_size) (replicate max_size 0))
      nothing = let none_yet : min 0 max_size ≡ 0 = omega arith in rw none_yet tt

  -- A Result that is given fewer than 2 ^ 32 samples keeps as many of them as it has room for, or
  -- all, and what holds of all given samples holds of the kept ones, whatever the generator draws.
  pub add_samples-All :
      (random : R) (xs : List ℕ)
      → length xs < word32
      → All P xs
      → All P (kept (add_samples g xs (create random max_size)))
        × (length (kept (add_samples g xs (create random max_size))) ≡ min (length xs) max_size)
  add_samples-All random xs small ps =
      let f =
        add_samples-Filled xs 0 (create random max_size) (omega arith) ps (create-Filled random) in
      let r = add_samples g xs (create random max_size) in
      let count : min r.number_of_samples r.max_size ≡ min (length xs) max_size =
        omega (arith, f.capacity, f.number) in
      (f.have, rw count (length-take-min (length xs) max_size r.samples f.full))

-- A Result that has room has its samples in order.
record InOrder {R : Type 0} (done : List ℕ) (room : ℕ) (r : Result R) : Type 0 where
  number : r.number_of_samples ≡ length done
  capacity : r.max_size ≡ length done + room
  samples : r.samples ≡ done ++ replicate room 0

set_next :
    (done : List ℕ) (x : ℕ) (rest : List ℕ) (v : ℕ)
    → set (done ++ (x ∷ rest)) (length done) v ≡ (done ++ (v ∷ [])) ++ rest
set_next [] x rest v = refl
set_next (d ∷ done) x rest v = ap (λ l. d ∷ l) (set_next done x rest v)

take_done : (done rest : List ℕ) → take (length done) (done ++ rest) ≡ done
take_done [] rest = refl
take_done (d ∷ done) rest = ap (λ l. d ∷ l) (take_done done rest)

module _ {R : Type 0} (g : Random R) where
  add_samples-InOrder :
      (xs done : List ℕ) (room : ℕ) (r : Result R)
      → length xs ≤ room
      → length done + room < word32
      → InOrder done room r
      → InOrder (done ++ xs) (room - length xs) (add_samples g xs r)
  unfolding add_samples add_sample
  add_samples-InOrder [] done room r fit small o =
      let same : room - 0 ≡ room = omega arith in rw (append-nil done, same) o
  add_samples-InOrder (x ∷ xs) done zero r fit small o = absurd (omega arith)
  add_samples-InOrder (x ∷ xs) done (suc room) r fit small o =
      let under : leb r.max_size r.number_of_samples ≡ false =
        ground (arith, o.number, o.capacity) in
      let counted : suc r.number_of_samples % word32 ≡ suc r.number_of_samples =
        omega (arith, o.number) in
      let longer = length-append done (x ∷ []) in
      let left : suc room - suc (length xs) ≡ room - length xs = omega arith in
      rw (left, sym (append_assoc done (x ∷ []) xs))
        (add_samples-InOrder xs (done ++ (x ∷ [])) room (add_sample g x r) (omega arith)
          (omega (arith, longer))
          (rw (under, counted)
            (record {
              number = omega (arith, longer, o.number);
              capacity = omega (arith, longer, o.capacity);
              samples = rw (o.samples, o.number) (set_next done 0 (replicate room 0) x);
            })))

  create-InOrder : (random : R) (max_size : ℕ) → InOrder [] max_size (create random max_size)
  unfolding create
  create-InOrder random max_size = record { number = refl; capacity = omega arith; samples = refl }

  -- A Result created for fewer than 2 ^ 32 samples that is given no more samples than it is
  -- created for keeps them all, in order.
  pub kept-add_samples :
      (random : R) (max_size : ℕ) (xs : List ℕ)
      → length xs ≤ max_size
      → max_size < word32
      → kept (add_samples g xs (create random max_size)) ≡ xs
  kept-add_samples random max_size xs fit small =
      let o =
        add_samples-InOrder xs [] max_size (create random max_size) fit (omega arith)
          (create-InOrder random max_size) in
      let r = add_samples g xs (create random max_size) in
      let count : min r.number_of_samples r.max_size ≡ length xs =
        omega (arith, o.number, o.capacity) in
      rw (count, o.samples) (take_done xs (replicate (max_size - length xs) 0))
