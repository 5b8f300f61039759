-- ===== src/Benchmark/Result/Sorted.antt =====
-- Min and Max of include/benchmark/result.h on samples that are not sorted yet.
use farlock.Base.{
  ℕ, zero, suc, ◌-◌, ◌≤◌, ◌<◌, ◌≡◌, refl, sym, ap, ◌∙◌, min, max, false, List, [], ◌∷◌, ◌++◌,
  length, take, drop, get_or, leb, ltb, ◌==◌, All, arith, Bool-cases, inl, inr,
}
use mathlib.Core.List.{append-nil}
use farlock.Benchmark.Result.{Result, insert, sort_list, sort, maximum, minimum, kept}

-- The least of a sample and the samples after it, and the greatest of some samples.
abbrev pub least_from : ℕ → List ℕ → ℕ
least_from x [] = x
least_from x (y ∷ ys) = min x (least_from y ys)

abbrev pub least : List ℕ → ℕ
least [] = 0
least (x ∷ xs) = least_from x xs

abbrev pub greatest : List ℕ → ℕ
greatest [] = 0
greatest (x ∷ xs) = max x (greatest xs)

abbrev IsSorted : List ℕ → Type 0
IsSorted [] = Unit {0}
IsSorted (x ∷ xs) = All (λ y. x ≤ y) xs × IsSorted xs

abbrev last_of : ℕ → List ℕ → ℕ
last_of d [] = d
last_of d (x ∷ xs) = last_of x xs

length-insert : (x : ℕ) (ys : List ℕ) → length (insert x ys) ≡ suc (length ys)
unfolding insert
length-insert x [] = refl
length-insert x (y ∷ ys) = elim (Bool-cases (leb x y)) [
  | inl le ↦ rw le refl
  | inr gt ↦ rw gt (ap suc (length-insert x ys))
]

length-sort_list : (xs : List ℕ) → length (sort_list xs) ≡ length xs
unfolding sort_list
length-sort_list [] = refl
length-sort_list (x ∷ xs) = length-insert x (sort_list xs) ∙ ap suc (length-sort_list xs)

insert-All : (P : ℕ → Type 0) (x : ℕ) (ys : List ℕ) → P x → All P ys → All P (insert x ys)
unfolding insert
insert-All P x [] p ps = (p, tt)
insert-All P x (y ∷ ys) p (q, qs) = elim (Bool-cases (leb x y)) [
  | inl le ↦ rw le (p, (q, qs))
  | inr gt ↦ rw gt (q, insert-All P x ys p qs)
]

All-weaken : (x y : ℕ) (ys : List ℕ) → x ≤ y → All (λ z. y ≤ z) ys → All (λ z. x ≤ z) ys
All-weaken x y [] le all = tt
All-weaken x y (z ∷ ys) le (q, qs) = (omega (arith, le, q), All-weaken x y ys le qs)

insert-IsSorted : (x : ℕ) (ys : List ℕ) → IsSorted ys → IsSorted (insert x ys)
unfolding insert
insert-IsSorted x [] s = (tt, tt)
insert-IsSorted x (y ∷ ys) (low, s) = elim (Bool-cases (leb x y)) [
  | inl le ↦
      let below : x ≤ y = ground arith in rw le ((below, All-weaken x y ys below low), (low, s))
  | inr gt ↦
      let above : y ≤ x = ground arith in
      rw gt (insert-All (λ z. y ≤ z) x ys above low, insert-IsSorted x ys s)
]

sort_list-IsSorted : (xs : List ℕ) → IsSorted (sort_list xs)
unfolding sort_list
sort_list-IsSorted [] = tt
sort_list-IsSorted (x ∷ xs) = insert-IsSorted x (sort_list xs) (sort_list-IsSorted xs)

le-last_of : (y : ℕ) (ys : List ℕ) → IsSorted (y ∷ ys) → y ≤ last_of y ys
le-last_of y [] s = omega arith
le-last_of y (z ∷ zs) ((le, les), s) = omega (arith, le, le-last_of z zs s)

last_of-insert :
    (d x : ℕ) (ys : List ℕ) → IsSorted ys → last_of d (insert x ys) ≡ max x (last_of 0 ys)
unfolding insert
last_of-insert d x [] s = omega arith
last_of-insert d x (y ∷ ys) (low, s) = elim (Bool-cases (leb x y)) [
  | inl le ↦
      let below : x ≤ y = ground arith in rw le (omega (arith, below, le-last_of y ys (low, s)))
  | inr gt ↦ let above : y ≤ x = ground arith in rw gt (last_of-insert y x ys s ∙ behind above ys)
]
  where
    behind : y ≤ x → (zs : List ℕ) → max x (last_of 0 zs) ≡ max x (last_of y zs)
    behind above [] = omega arith
    behind above (z ∷ zs) = refl

last_of-sort_list : (xs : List ℕ) → last_of 0 (sort_list xs) ≡ greatest xs
unfolding sort_list
last_of-sort_list [] = refl
last_of-sort_list (x ∷ xs) =
    last_of-insert 0 x (sort_list xs) (sort_list-IsSorted xs)
    ∙ ap (λ m. max x m) (last_of-sort_list xs)

get_or-last : (x : ℕ) (xs rest : List ℕ) → get_or (x ∷ (xs ++ rest)) (length xs) 0 ≡ last_of x xs
get_or-last x [] rest = refl
get_or-last x (y ∷ ys) rest = get_or-last y ys rest

head-insert : (x : ℕ) (y : ℕ) (ys rest : List ℕ) → get_or (insert x (y ∷ ys) ++ rest) 0 0 ≡ min x y
unfolding insert
head-insert x y ys rest = elim (Bool-cases (leb x y)) [
  | inl le ↦ rw le (ground arith)
  | inr gt ↦ rw gt (ground arith)
]

head-sort_list :
    (x : ℕ) (xs rest : List ℕ) → get_or (sort_list (x ∷ xs) ++ rest) 0 0 ≡ least_from x xs
unfolding sort_list insert
head-sort_list x [] rest = refl
head-sort_list x (y ∷ ys) rest =
    insert_some (sort_list (y ∷ ys)) (length-sort_list (y ∷ ys))
    ∙ ap (λ m. min x m) (rest_least ∙ head-sort_list y ys [])
  where
    rest_least : get_or (sort_list (y ∷ ys)) 0 0 ≡ get_or (sort_list (y ∷ ys) ++ []) 0 0
    rest_least = ap (λ l. get_or l 0 0) (sym (append-nil (sort_list (y ∷ ys))))

    insert_some :
        (zs : List ℕ)
        → length zs ≡ suc (length ys)
        → get_or (insert x zs ++ rest) 0 0 ≡ min x (get_or zs 0 0)
    insert_some [] e = absurd (omega arith)
    insert_some (z ∷ zs) e = head-insert x z zs rest

last-sort_list :
    (xs rest : List ℕ) (k : ℕ) → length xs ≡ suc k → get_or (sort_list xs ++ rest) k 0 ≡ greatest xs
last-sort_list xs rest k e =
    some_last (sort_list xs) (length-sort_list xs ∙ e) ∙ last_of-sort_list xs
  where
    some_last : (zs : List ℕ) → length zs ≡ suc k → get_or (zs ++ rest) k 0 ≡ last_of 0 zs
    some_last [] e' = absurd (omega arith)
    some_last (z ∷ zs) e' =
        let same : k ≡ length zs = omega arith in rw same (get_or-last z zs rest)

-- The samples of a Result fill its capacity.
abbrev pub IsFull : {R : Type 0} → Result R → Type 0
IsFull r = length r.samples ≡ r.max_size

length-take : (n : ℕ) (xs : List ℕ) → n ≤ length xs → length (take n xs) ≡ n
length-take zero xs le = refl
length-take (suc n) [] le = absurd (omega arith)
length-take (suc n) (x ∷ xs) le = ap suc (length-take n xs (omega arith))

module _ {R : Type 0} (r : Result R) (fresh : r.sorted ≡ false) (full : IsFull r)
    (some_samples : 0 < r.number_of_samples) (some_room : 0 < r.max_size) where
  sort_lem :
      ((sort r).samples ≡ sort_list (kept r) ++ drop (min r.number_of_samples r.max_size) r.samples)
      × ((sort r).number_of_samples ≡ min r.number_of_samples r.max_size)
  unfolding sort
  sort_lem =
      let nonempty : (r.number_of_samples == 0) ≡ false = ground arith in
      elim (Bool-cases (ltb r.max_size r.number_of_samples)) [
        | inl over ↦
            let least_max : min r.number_of_samples r.max_size ≡ r.max_size = ground arith in
            rw (over, nonempty, least_max) (refl, refl)
        | inr under ↦
            let least_number : min r.number_of_samples r.max_size ≡ r.number_of_samples =
              ground arith in
            rw (under, nonempty, fresh, least_number) (refl, refl)
      ]

  -- On a full vector of samples that are not marked sorted, with at least one sample and room for
  -- one, Max returns the greatest of the samples that count.
  maximum_lem : (maximum r).0 ≡ greatest (kept r)
  unfolding maximum
  maximum_lem =
      let nonempty : (r.number_of_samples == 0) ≡ false = ground arith in
      let (sorted_samples, number) = sort_lem in
      let m = min r.number_of_samples r.max_size in
      let many = length-take m r.samples (omega (arith, full)) in
      rw (nonempty, sorted_samples, number)
        (last-sort_list (kept r) (drop m r.samples) (m - 1) (omega (arith, many)))

  -- On a full vector of samples that are not marked sorted, with at least one sample and room for
  -- one, Min returns the least of the samples that count.
  minimum_lem : (minimum r).0 ≡ least (kept r)
  unfolding minimum
  minimum_lem =
      let nonempty : (r.number_of_samples == 0) ≡ false = ground arith in
      let m = min r.number_of_samples r.max_size in
      let many = length-take m r.samples (omega (arith, full)) in
      rw (nonempty, sort_lem.0) (first_of (kept r) (drop m r.samples) (omega (arith, many)))
    where
      first_of : (xs rest : List ℕ) → 0 < length xs → get_or (sort_list xs ++ rest) 0 0 ≡ least xs
      first_of [] rest lt = absurd (omega arith)
      first_of (x ∷ xs) rest lt = head-sort_list x xs rest

  -- On a full vector of samples that are not marked sorted, with at least one sample and room for
  -- one, Min returns the least and Max the greatest of the samples that count.
  pub extremes_lem : ((minimum r).0 ≡ least (kept r)) × ((maximum r).0 ≡ greatest (kept r))
  extremes_lem = (minimum_lem, maximum_lem)
