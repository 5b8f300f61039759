-- ===== src/Benchmark/Result.antt =====
-- include/benchmark/result.h: samples of a measure, as many as fit, and their order statistics. The
-- random generator is a parameter, and so is what the code takes of a double percentile.
pub mod Sorted
pub mod Fill
pub mod Stale
mod Tests
use farlock.Base.{
  ℕ, zero, suc, ◌+◌, ◌-◌, ◌%◌, ◌^◌, min, Bool, true, false, not, ◌||◌, List, [], ◌∷◌, ◌++◌, take,
  drop, set, get_or, replicate, ltb, leb, ◌==◌, if◌then◌else◌,
}

-- foedus::assorted::UniformRandom, with its state.
pub record Random (R : Type 0) : Type 0 where
  pub uniform_within : ℕ → ℕ → R → ℕ × R

pub record Result (R : Type 0) : Type 0 where
  pub random : R
  pub max_size : ℕ
  pub number_of_samples : ℕ
  pub samples : List ℕ
  pub sorted : Bool

abbrev pub word32 : ℕ
word32 = 2 ^ 32

unfoldable pub create : {R : Type 0} → R → ℕ → Result R
create random max_size = record {
  random = random;
  max_size = max_size;
  number_of_samples = 0;
  samples = replicate max_size 0;
  sorted = false;
}

-- operator<<.
unfoldable pub add_sample : {R : Type 0} → Random R → ℕ → Result R → Result R
add_sample g sample r =
    let (k, random) = g.uniform_within 0 ((r.number_of_samples + word32 - 1) % word32) r.random in
    let counted = record r { number_of_samples = suc r.number_of_samples % word32 } in
    if leb r.max_size r.number_of_samples
    then record counted {
      random = random;
      samples = if ltb k r.max_size then set r.samples k sample else r.samples;
    }
    else record counted { samples = set r.samples r.number_of_samples sample }

unfoldable pub reset : {R : Type 0} → Result R → Result R
reset r = record r { number_of_samples = 0 }

-- The clamp that Sum, Percentile and Sort start with.
abbrev pub clamp : {R : Type 0} → Result R → Result R
clamp r =
    if ltb r.max_size r.number_of_samples then record r { number_of_samples = r.max_size } else r

abbrev pub sum_of : List ℕ → ℕ
sum_of [] = 0
sum_of (x ∷ xs) = (x + sum_of xs) % 2 ^ 64

unfoldable pub sum : {R : Type 0} → Result R → ℕ × Result R
sum r =
    if r.number_of_samples == 0
    then (0, r)
    else (sum_of (take (clamp r).number_of_samples r.samples), clamp r)

-- std::sort.
unfoldable pub insert : ℕ → List ℕ → List ℕ
insert x [] = x ∷ []
insert x (y ∷ ys) = let rest = insert x ys in if leb x y then x ∷ y ∷ ys else y ∷ rest

unfoldable pub sort_list : List ℕ → List ℕ
sort_list [] = []
sort_list (x ∷ xs) = insert x (sort_list xs)

-- Sort.
unfoldable pub sort : {R : Type 0} → Result R → Result R
sort r =
    let clamped =
      if ltb r.max_size r.number_of_samples
      then record r { number_of_samples = r.max_size; sorted = false }
      else r in
    let n = clamped.number_of_samples in
    if r.number_of_samples == 0 then r else if clamped.sorted then clamped else record clamped {
      samples = sort_list (take n r.samples) ++ drop n r.samples;
      sorted = true;
    }

-- A double: if it is from 0 to 100, and its hundredth of a count, rounded down.
pub record Percent : Type 0 where
  pub valid : Bool
  pub part : ℕ → ℕ

unfoldable pub percentile : {R : Type 0} → Percent → Result R → ℕ × Result R
percentile p r =
    let s = sort (clamp r) in
    if r.number_of_samples == 0 || not p.valid
    then (0, r)
    else (get_or s.samples (min (p.part s.number_of_samples) (s.number_of_samples - 1)) 0, s)

unfoldable pub maximum : {R : Type 0} → Result R → ℕ × Result R
maximum r =
    let s = sort r in
    if r.number_of_samples == 0 then (0, r) else (get_or s.samples (s.number_of_samples - 1) 0, s)

unfoldable pub minimum : {R : Type 0} → Result R → ℕ × Result R
minimum r = let s = sort r in if r.number_of_samples == 0 then (0, r) else (get_or s.samples 0 0, s)

unfoldable pub size : {R : Type 0} → Result R → ℕ
size r = min r.number_of_samples r.max_size

-- The samples that count.
abbrev pub kept : {R : Type 0} → Result R → List ℕ
kept r = take (min r.number_of_samples r.max_size) r.samples

-- operator<< with each of a list.
unfoldable pub add_samples : {R : Type 0} → Random R → List ℕ → Result R → Result R
add_samples g [] r = r
add_samples g (x ∷ xs) r = add_samples g xs (add_sample g x r)

-- operator+=.
unfoldable pub merge : {R : Type 0} → Random R → Result R → Result R → Result R
merge g other r = add_samples g (take (min other.max_size other.number_of_samples) other.samples) r
