-- ===== src/Benchmark/Run/Measured.antt =====
-- What a thread has locked and measured when Run of include/benchmark/benchmark.h ends.
use farlock.Base.{
  ℕ, zero, suc, ◌+◌, ◌-◌, ◌%◌, ◌^◌, ◌≤◌, ◌<◌, ◌≡◌, refl, ap, ◌∙◌, word, Bool, true, false, ◌&&◌,
  Option, some, List, [], ◌∷◌, length, get_elem?, ltb, ◌==◌, if◌then◌else◌, All, arith, Bool-cases,
  ◌⊎◌, inl, inr, ℕ_discrete,
}
use farlock.Rdma.Pointer.{Pointer}
use farlock.Benchmark.Result.{Random, Result, create, add_sample, add_samples}
use farlock.Benchmark.Run.{
  Plan, Worker, Round, last_index, elapsed, seed_of, start_worker, choose, measure, work,
}

-- What the generator promises: a number from `from` to `to`, where their count fits 32 bits.
abbrev pub Within : {R : Type 0} → Random R → Type 0
Within {R} g =
    (from to : ℕ) (s : R)
    → from ≤ to
    → to - from + 1 < 2 ^ 32
    → (from ≤ (g.uniform_within from to s).0) × ((g.uniform_within from to s).0 ≤ to)

get_elem?-in :
    {A : Type 0} (xs : List A) (i : ℕ) → i < length xs → (x : A) × (get_elem? xs i ≡ some x)
get_elem?-in [] i lt = absurd (omega arith)
get_elem?-in (x ∷ xs) zero lt = (x, refl)
get_elem?-in (x ∷ xs) (suc i) lt = get_elem?-in xs i (omega (arith, lt))

module _ {R : Type 0} (g : Random R) (p : Plan) where
  -- Local (0) or remote (1), by what the generator draws.
  abbrev pub kind : R → ℕ
  kind rng = if ltb (g.uniform_within 0 99 rng).0 p.local_percentage then 0 else 1

  -- The times of the rounds of a kind that are sampled.
  unfoldable pub sampled_times : ℕ → List Round → R → List ℕ
  sampled_times i [] rng = []
  sampled_times i (r ∷ rounds) rng =
      let rest = sampled_times i rounds (g.uniform_within 0 99 rng).1 in
      if r.sampling_flag && (kind rng == i) then elapsed r ∷ rest else rest

  -- A lock of one of the tables.
  abbrev pub Listed : Pointer → Type 0
  Listed lock =
      (i : ℕ) × ((get_elem? p.local_locks i ≡ some lock) ⊎ (get_elem? p.remote_locks i ≡ some lock))

  -- A choice takes no more than states of the generators.
  pub record Chosen (w : Worker R) (c : Option Pointer × ℕ × Worker R) : Type 0 where
    pub lock : Pointer
    pub found : c.0 ≡ some lock
    pub listed : Listed lock
    pub lr : c.1 ≡ kind w.rng
    pub rng : c.2.rng ≡ (g.uniform_within 0 99 w.rng).1
    pub latency : c.2.latency ≡ w.latency
    pub count : c.2.count ≡ w.count

  module _ (within : Within g) (some_local : 0 < p.local_percentage → 0 < length p.local_locks)
      (some_remote : p.local_percentage < 100 → 0 < length p.remote_locks)
      (few_local : length p.local_locks < 2 ^ 32)
      (few_remote : length p.remote_locks < 2 ^ 32) where
    index_in :
        (locks : List Pointer) (s : R)
        → 0 < length locks
        → length locks < 2 ^ 32
        → (lock : Pointer) × (get_elem? locks (g.uniform_within 0 (last_index locks) s).0
            ≡ some lock)
    index_in locks s some_locks few =
        let last : last_index locks ≡ length locks - 1 = omega (arith, some_locks, few) in
        let drawn =
          within 0 (last_index locks) s (omega arith) (omega (arith, last, few, some_locks)) in
        get_elem?-in locks (g.uniform_within 0 (last_index locks) s).0
          (omega (arith, last, some_locks, drawn.1))

    choose-Chosen : (w : Worker R) → Chosen w (choose g p w)
    unfolding choose
    choose-Chosen w = elim (Bool-cases (ltb (g.uniform_within 0 99 w.rng).0 p.local_percentage)) [
      | inl local ↦
          let (lock, at) =
            index_in p.local_locks w.rngl (some_local (ground (arith, local))) few_local in
          rw local (record {
            lock = lock;
            found = at;
            listed = ((g.uniform_within 0 (last_index p.local_locks) w.rngl).0, inl at);
            lr = rw local refl;
            rng = refl;
            latency = refl;
            count = refl;
          })
      | inr remote ↦
          let drawn = within 0 99 w.rng (omega arith) (omega arith) in
          let (lock, at) =
            index_in p.remote_locks w.rngr (some_remote (ground (arith, remote, drawn)))
              few_remote in
          rw remote (record {
            lock = lock;
            found = at;
            listed = ((g.uniform_within 0 (last_index p.remote_locks) w.rngr).0, inr at);
            lr = rw remote refl;
            rng = refl;
            latency = refl;
            count = refl;
          })
    ]

    measure_lem :
        (w : Worker R) (r : Round) (c : Option Pointer × ℕ × Worker R)
        → Chosen w c
        → (i : ℕ)
        → ((measure g p c.1 r c.2).latency i ≡ (
            if r.sampling_flag && (kind w.rng == i)
            then add_sample g (elapsed r) (w.latency i)
            else w.latency i))
          × ((measure g p c.1 r c.2).count i ≡ (
              if r.sampling_flag && (kind w.rng == i) then (w.count i + 1) % word else w.count i))
          × ((measure g p c.1 r c.2).rng ≡ (g.uniform_within 0 99 w.rng).1)
    unfolding measure
    measure_lem w r c v i = elim (Bool-cases r.sampling_flag) [
      | inl on ↦
          rw (on, v.latency, v.count, v.lr, v.rng)
            (elim (ℕ_discrete (kind w.rng) i) [
              | yes is ↦ (ground (arith, is), ground (arith, is), refl)
              | no ne ↦ (ground (arith, ne), ground (arith, ne), refl)
            ])
      | inr off ↦ rw (off, v.latency, v.count, v.rng) (refl, refl, refl)
    ]

    -- A round that is sampled or not, and the later ones.
    sampled_next :
        (is : Bool) (x : ℕ) (rest : List ℕ) (before next after : Result R) (n m k : ℕ)
        → next ≡ (if is then add_sample g x before else before)
        → m ≡ (if is then (n + 1) % word else n)
        → after ≡ add_samples g rest next
        → k ≡ (m + length rest) % word
        → (after ≡ add_samples g (if is then x ∷ rest else rest) before)
          × (k ≡ (n + length (if is then x ∷ rest else rest)) % word)
    unfolding add_samples
    sampled_next true x rest before next after n m k adds counts e f =
        (e ∙ ap (add_samples g rest) adds, omega (arith, counts, f))
    sampled_next false x rest before next after n m k adds counts e f =
        (e ∙ ap (add_samples g rest) adds, omega (arith, counts, f))

    -- The rounds from any state of the thread.
    work_from :
        (rounds : List Round) (w : Worker R)
        → ((i : ℕ) → w.count i < word)
        → (locks : List Pointer) × (after : Worker R) × (work g p rounds w ≡ some (locks, after))
          × (length locks ≡ length rounds)
          × All Listed locks
          × ((i : ℕ)
              → (after.latency i ≡ add_samples g (sampled_times i rounds w.rng) (w.latency i))
                × (after.count i ≡ (w.count i + length (sampled_times i rounds w.rng)) % word))
    unfolding work sampled_times add_samples
    work_from [] w small = ([], w, refl, refl, tt, λ i. (refl, omega (arith, small i)))
    work_from (r ∷ rounds) w small =
        let c = choose g p w in
        let v = choose-Chosen w in
        let next = measure g p c.1 r c.2 in
        let rng = (measure_lem w r c v 0).2 in
        let (locks, after, e, all, listed, kept) =
          work_from rounds next (λ i. ground (arith, small i, (measure_lem w r c v i).1)) in
        (
          v.lock ∷ locks,
          after,
          rw (v.found, e) refl,
          ap suc all,
          (v.listed, listed),
          λ i.
              let (adds, counts, same) = measure_lem w r c v i in
              let (latency, count) = kept i in
              sampled_next (r.sampling_flag && (kind w.rng == i)) (elapsed r)
                (sampled_times i rounds (g.uniform_within 0 99 w.rng).1) (w.latency i)
                (next.latency i) (after.latency i) (w.count i) (next.count i) (after.count i) adds
                counts
                (latency ∙ ap (λ s. add_samples g (sampled_times i rounds s) (next.latency i)) rng)
                (count ∙ ap (λ s. (next.count i + length (sampled_times i rounds s)) % word) rng),
        )

    -- With a generator that keeps to its range, at least one local lock if the percentage of local
    -- locks is not 0 and at least one remote lock if it is below 100, and fewer than 2 ^ 32 of
    -- each, no thread of Run reads out of its tables: it locks one lock of them in each round,
    -- adds the times of the sampled rounds of each kind to the latency of that kind in their
    -- order, and counts them in 64 bits.
    pub work_lem :
        (seed : ℕ → R) (node_id n_threads thread_id : ℕ) (rounds : List Round)
        → (locks : List Pointer) × (after : Worker R) × (work g p rounds
              (start_worker g p seed node_id n_threads thread_id)
            ≡ some (locks, after))
          × (length locks ≡ length rounds)
          × All Listed locks
          × ((i : ℕ)
              → (after.latency i
                  ≡ add_samples g
                      (sampled_times i rounds (seed (seed_of node_id n_threads thread_id)))
                      (create (seed thread_id) p.sample_number))
                × (after.count i
                    ≡ length (sampled_times i rounds (seed (seed_of node_id n_threads thread_id)))
                      % word))
    work_lem seed node_id n_threads thread_id rounds =
        let (locks, after, e, all, listed, kept) =
          work_from rounds (start_worker g p seed node_id n_threads thread_id) (λ i. omega arith) in
        (locks, after, e, all, listed, λ i. ((kept i).0, omega (arith, (kept i).1)))
