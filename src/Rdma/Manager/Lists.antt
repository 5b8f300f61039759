-- ===== src/Rdma/Manager/Lists.antt =====
-- What InitFreeLists of include/rdma/manager.h makes of the memory region.
use farlock.Base.{
  ℕ, zero, suc, ◌+◌, ◌-◌, ◌*◌, ◌/◌, ◌%◌, ◌^◌, ◌≤◌, ◌<◌, ◌≡◌, ◌≢◌, refl, ap, subst, ◌∙◌, List, [],
  ◌∷◌, All, arith, length, some, false, ◌==◌, ◌||◌,
}
use native.Mathlib.Nat.{suc-mul}
use farlock.Base.Family.{update, update-same, update-other}
use farlock.Rdma.MemoryPool.Filling.{Chain}
use farlock.Rdma.Manager.{FreeLists, link, init_thread_lists, init_free_lists}

-- As many chunks one after another.
abbrev pub run_of : ℕ → ℕ → ℕ → List ℕ
run_of chunk_size start zero = []
run_of chunk_size start (suc n) = start ∷ run_of chunk_size (start + chunk_size) n

-- Each list a run of chunks, each after the one before.
abbrev pub Runs : (ℕ → ℕ) → ℕ → ℕ → ℕ → List ℕ → Type 0
Runs memory chunk_size n start [] = Unit {0}
Runs memory chunk_size n start (head ∷ heads) =
    Chain memory head (run_of chunk_size start n)
    × Runs memory chunk_size n (start + n * chunk_size) heads

Chain-agree :
    (f g : ℕ → ℕ) (bound a : ℕ) (cs : List ℕ)
    → ((x : ℕ) → x < bound → g x ≡ f x)
    → All (λ c. c < bound) cs
    → Chain f a cs
    → Chain g a cs
Chain-agree f g bound a [] alike below chain = chain
Chain-agree f g bound a (c ∷ cs) alike (low, lows) (at, nonzero, small, chain) =
    (at, nonzero, small, rw (alike c low) (Chain-agree f g bound (f c) cs alike lows chain))

run_of-All :
    (chunk_size start n bound : ℕ)
    → 0 < chunk_size
    → start + n * chunk_size ≤ bound
    → All (λ c. c < bound) (run_of chunk_size start n)
run_of-All chunk_size start zero bound some_size fit = tt
run_of-All chunk_size start (suc n) bound some_size fit = (
  omega (arith, suc-mul n chunk_size),
  run_of-All chunk_size (start + chunk_size) n bound some_size
      (omega (arith, suc-mul n chunk_size)),
)

module _ (chunk_size : ℕ) (some_size : 0 < chunk_size) where
  link-Chain :
      (k start : ℕ) (memory : ℕ → ℕ)
      → 0 < start
      → start + suc k * chunk_size ≤ 2 ^ 48
      → (let (last, linked) = link k chunk_size start memory in
          Chain (update linked last 0) start (run_of chunk_size start (suc k))
          × (last ≡ start + k * chunk_size)
          × ((a : ℕ) → a < start → linked a ≡ memory a))
  unfolding link
  link-Chain zero start memory positive fit = (
    (refl, omega arith, omega (arith, suc-mul 0 chunk_size), update-same memory start 0),
    omega arith,
    λ a lower. refl,
  )
  link-Chain (suc k) start memory positive fit =
      let next = start + chunk_size in
      let linked = update memory start next in
      let here = suc-mul (suc k) chunk_size in
      let (chain, at, alike) = link-Chain k next linked (omega arith) (omega (arith, here)) in
      let rest = link k chunk_size next linked in
      let apart : start ≢ rest.0 = λ same. omega (arith, at, same, some_size) in
      let kept : update rest.1 rest.0 0 start ≡ next =
        update-other rest.1 rest.0 0 start apart
        ∙ alike start (omega arith)
        ∙ update-same memory start next in
      (
        (refl, omega arith, omega (arith, here), rw kept chain),
        omega (arith, at, suc-mul k chunk_size),
        λ a lower. alike a (omega arith) ∙ update-other memory start next a (omega arith),
      )

  init_thread_lists-Runs :
      (pools per_thread last : ℕ) (memory : ℕ → ℕ)
      → last + chunk_size + pools * (suc (per_thread - 1) * chunk_size) ≤ 2 ^ 48
      → (let (heads, done) = init_thread_lists pools chunk_size per_thread last memory in
          Runs done chunk_size (suc (per_thread - 1)) (last + chunk_size) heads
          × (length heads ≡ pools)
          × ((a : ℕ) → a < last + chunk_size → done a ≡ memory a))
  unfolding init_thread_lists
  init_thread_lists-Runs zero per_thread last memory fit = (tt, refl, λ a lower. refl)
  init_thread_lists-Runs (suc pools) per_thread last memory fit =
      let n = per_thread - 1 in
      let head = last + chunk_size in
      let (chain, at, alike) =
        link-Chain n head memory (omega arith)
          (omega (arith, suc-mul pools (suc n * chunk_size))) in
      let rest = link n chunk_size head memory in
      let cut = update rest.1 rest.0 0 in
      let next : rest.0 + chunk_size ≡ head + suc n * chunk_size =
        omega (arith, at, suc-mul n chunk_size) in
      let (runs, many, same) =
        init_thread_lists-Runs pools per_thread rest.0 cut
          (omega (arith, next, suc-mul pools (suc n * chunk_size))) in
      let done = (init_thread_lists pools chunk_size per_thread rest.0 cut).1 in
      let below =
        run_of-All chunk_size head (suc n) (rest.0 + chunk_size) some_size (omega (arith, next)) in
      (
        (
          Chain-agree cut done (rest.0 + chunk_size) head (run_of chunk_size head (suc n)) same
              below chain,
          subst
              (λ start.
                Runs done chunk_size (suc n) start
                  (init_thread_lists pools chunk_size per_thread rest.0 cut).0)
              next runs,
        ),
        ap suc many,
        λ a lower.
            same a (omega (arith, at))
            ∙ update-other rest.1 rest.0 0 a (λ e. omega (arith, at, e))
            ∙ alike a lower,
      )

-- The same of all lists, for given numbers of shared and of unshared chunks.
init_lists-Runs :
    (chunk_size start shared unshared local_pools : ℕ) (memory : ℕ → ℕ)
    → 0 < chunk_size
    → 0 < start
    → start
        + suc (shared - 1) * chunk_size
        + local_pools * (suc (unshared / local_pools - 1) * chunk_size)
      ≤ 2 ^ 48
    → (let linked = link (shared - 1) chunk_size start memory in
        let threads =
          init_thread_lists local_pools chunk_size
            (unshared / local_pools)
            linked.0
            (update linked.1 linked.0 0) in
        Chain threads.1 start (run_of chunk_size start (suc (shared - 1)))
        × Runs threads.1 chunk_size
            (suc (unshared / local_pools - 1))
            (start + suc (shared - 1) * chunk_size)
            threads.0
        × (length threads.0 ≡ local_pools))
init_lists-Runs chunk_size start shared unshared local_pools memory some_size positive fit =
    let more = shared - 1 in
    let n = unshared / local_pools - 1 in
    let (chain, at, alike) =
      link-Chain chunk_size some_size more start memory positive (omega (arith, fit)) in
    let rest = link more chunk_size start memory in
    let cut = update rest.1 rest.0 0 in
    let next : rest.0 + chunk_size ≡ start + suc more * chunk_size =
      omega (arith, at, suc-mul more chunk_size) in
    let (runs, many, same) =
      init_thread_lists-Runs chunk_size some_size local_pools (unshared / local_pools) rest.0 cut
        (omega (arith, next, fit)) in
    let thread = init_thread_lists local_pools chunk_size (unshared / local_pools) rest.0 cut in
    let below =
      run_of-All chunk_size start (suc more) (rest.0 + chunk_size) some_size
        (omega (arith, next)) in
    (
      Chain-agree cut thread.1 (rest.0 + chunk_size) start (run_of chunk_size start (suc more)) same
          below chain,
      subst (λ first. Runs thread.1 chunk_size (suc n) first thread.0) next runs,
      many,
    )

-- For a chunk size, a start and a number of pools that are not 0, no more unshared chunks than
-- chunks, and lists that end by 2 ^ 48, InitFreeLists divides by no 0 and makes the shared list of
-- the first chunks of the region, as many as are shared but at least one, and one list for each
-- pool, each the run of chunks after the list before, as many as each thread has but at least one.
pub init_free_lists-Runs :
    (chunk_size start size local_pools : ℕ) (unshared memory : ℕ → ℕ)
    → 0 < chunk_size
    → 0 < start
    → 0 < local_pools
    → unshared (size / chunk_size % 2 ^ 32) ≤ size / chunk_size % 2 ^ 32
    → (let chunk_num = size / chunk_size % 2 ^ 32 in
        let shared = suc (chunk_num - unshared chunk_num - 1) in
        let per_thread = suc (unshared chunk_num / local_pools - 1) in
        start + shared * chunk_size + local_pools * (per_thread * chunk_size) ≤ 2 ^ 48)
    → (let chunk_num = size / chunk_size % 2 ^ 32 in
        let shared = suc (chunk_num - unshared chunk_num - 1) in
        let per_thread = suc (unshared chunk_num / local_pools - 1) in
        (lists : FreeLists) × (init_free_lists start size chunk_size local_pools unshared memory
          ≡ some lists)
        × Chain lists.memory lists.free_list (run_of chunk_size start shared)
        × Runs lists.memory chunk_size per_thread (start + shared * chunk_size) lists.free_lists
        × (length lists.free_lists ≡ local_pools))
unfolding init_free_lists
init_free_lists-Runs chunk_size start size local_pools unshared memory some_size positive some_pools
      less fit =
    let n = size / chunk_size % 2 ^ 32 in
    let u = unshared n in
    let shared : (n + 2 ^ 32 - u) % 2 ^ 32 ≡ n - u = omega (arith, less) in
    let count : u % 2 ^ 32 ≡ u = omega (arith, less) in
    let defined : (local_pools == 0 || chunk_size == 0) ≡ false = ground arith in
    let (chain, runs, many) =
      init_lists-Runs chunk_size start (n - u) u local_pools memory some_size positive fit in
    (_, rw (count, shared, defined) refl, chain, runs, many)
