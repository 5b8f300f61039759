-- ===== src/Benchmark/Tally/Receive.antt =====
-- What node 0 receives of one node, and of the nodes in turn, in TallyResults of
-- include/benchmark/benchmark.h.
use farlock.Base.{
  ℕ, zero, suc, ◌+◌, ◌≤◌, ◌<◌, ◌≡◌, refl, sym, ap, ◌∙◌, some, List, [], ◌∷◌, ◌++◌, length, take,
  get_or, arith, ℕ_discrete, ◌⊎◌, inl,
}
use farlock.Base.Family.{update}
use farlock.Rdma.Manager.Connections.{each}
use farlock.Benchmark.Result.{Random, Result, add_sample, add_samples}
use farlock.Base.Talk.{Talk}
use farlock.Benchmark.Loops.{loop, each_of, rounds}
use farlock.Benchmark.Tally.{Inbox, at_node}

each-next {ℓ} : {A : Type ℓ} (f : ℕ → A) (n j : ℕ) → each f n (suc j) ≡ each (λ k. f (suc k)) n j
unfolding each
each-next f zero j = refl
each-next f (suc n) j =
    let next : suc j + 1 ≡ suc (j + 1) = omega arith in
    rw next (ap (λ l. f (suc j) ∷ l) (each-next f n (j + 1)))

-- The members of a list by their index.
pub each-get_or : (xs : List ℕ) (n : ℕ) → n ≤ length xs → each (λ j. get_or xs j 0) n 0 ≡ take n xs
unfolding each
each-get_or xs zero fit = refl
each-get_or [] (suc n) fit = absurd (omega arith)
each-get_or (x ∷ xs) (suc n) fit =
    ap (λ l. x ∷ l)
      (each-next (λ j. get_or (x ∷ xs) j 0) n 0 ∙ each-get_or xs n (omega (arith, fit)))

pub add_samples-append :
    {R : Type 0} (g : Random R) (xs ys : List ℕ) (r : Result R)
    → add_samples g (xs ++ ys) r ≡ add_samples g ys (add_samples g xs r)
unfolding add_samples
add_samples-append g [] ys r = refl
add_samples-append g (x ∷ xs) ys r = add_samples-append g xs ys (add_sample g x r)

-- A loop whose rounds add samples to a result.
pub rounds-add_samples :
    {A R : Type 0} (g : Random R) (after : ℕ → A → A) (look : A → Result R) (words : ℕ → List ℕ)
    (n j : ℕ) (a : A)
    → ((k : ℕ) (b : A) → j ≤ k → k < j + n → look (after k b) ≡ add_samples g (words k) (look b))
    → look (rounds after n j a) ≡ add_samples g (each_of words n j) (look a)
unfolding rounds each_of add_samples
rounds-add_samples g after look words zero j a adds = refl
rounds-add_samples g after look words (suc n) j a adds =
    rounds-add_samples g after look words n (j + 1) (after j a)
      (λ k b low lt. adds k b (omega (arith, low)) (omega (arith, lt)))
    ∙ rw (adds j a (omega arith) (omega arith))
        (sym (add_samples-append g (words j) (each_of words n (j + 1)) (look a)))

-- A loop whose rounds leave a result.
pub rounds-same :
    {A B : Type 0} (after : ℕ → A → A) (look : A → B) (n j : ℕ) (a : A)
    → ((k : ℕ) (b : A) → look (after k b) ≡ look b)
    → look (rounds after n j a) ≡ look a
unfolding rounds
rounds-same after look zero j a same = refl
rounds-same after look (suc n) j a same =
    rounds-same after look n (j + 1) (after j a) same ∙ same j a

-- The inbox after each node's rest is left.
abbrev pub advance : (ℕ → List ℕ) → ℕ → ℕ → Inbox → Inbox
advance rest zero i box = box
advance rest (suc n) i box = advance rest n (i + 1) (update box i (rest i))

pub advance-other :
    (rest : ℕ → List ℕ) (n i : ℕ) (box : Inbox) (k : ℕ)
    → (k < i) ⊎ (i + n ≤ k)
    → advance rest n i box k ≡ box k
advance-other rest zero i box k out = refl
advance-other rest (suc n) i box k out =
    ground (arith, out, advance-other rest n (i + 1) (update box i (rest i)) k)

pub advance-rest :
    (rest : ℕ → List ℕ) (n i : ℕ) (box : Inbox) (k : ℕ)
    → i ≤ k
    → k < i + n
    → advance rest n i box k ≡ rest k
advance-rest rest zero i box k low lt = absurd (omega arith)
advance-rest rest (suc n) i box k low lt = elim (ℕ_discrete i k) [
  | yes at ↦
      advance-other rest n (i + 1) (update box i (rest i)) k (inl (omega arith))
      ∙ rw at (ground arith)
  | no ne ↦
      advance-rest rest n (i + 1) (update box i (rest i)) k (omega (arith, low, ne))
        (omega (arith, lt))
]

-- Node after node, of each of which the words that it has sent are consumed.
pub loop-at_node :
    {A : Type 0} (step : ℕ → A → Talk (List ℕ) A) (words rest : ℕ → List ℕ) (after : ℕ → A → A)
    (n i : ℕ)
    → ((k : ℕ) (a : A)
        → i ≤ k
        → k < i + n
        → step k a (words k ++ rest k) ≡ some (after k a, rest k))
    → (box : Inbox) → ((k : ℕ) → i ≤ k → k < i + n → box k ≡ words k ++ rest k)
    → (a : A)
    → loop (λ k b. at_node k (step k b)) n i a box ≡ some (rounds after n i a, advance rest n i box)
unfolding loop rounds
loop-at_node step words rest after zero i consumes box sent a = refl
loop-at_node step words rest after (suc n) i consumes box sent a =
    rw (sent i (omega arith) (omega arith), consumes i a (omega arith) (omega arith))
      (loop-at_node step words rest after n (i + 1)
        (λ k b low lt. consumes k b (omega (arith, low)) (omega (arith, lt)))
        (update box i (rest i)) (λ k low lt. ground (arith, sent k)) (after i a))
