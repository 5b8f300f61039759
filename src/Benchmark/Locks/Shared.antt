-- ===== src/Benchmark/Locks/Shared.antt =====
-- The locks that AllocateLocalLocks of include/benchmark/benchmark.h takes from the shared list that
-- InitFreeLists has made, and what other nodes compute of them.
use farlock.Base.{
  ℕ, zero, suc, ◌+◌, ◌*◌, ◌%◌, ◌^◌, ◌≤◌, ◌<◌, ◌≡◌, ◌≢◌, refl, ap, ◌∙◌, false, none, some, List, [],
  ◌∷◌, ◌==◌, arith, word,
}
use native.Mathlib.Nat.{suc-mul, add-mul}
use farlock.Rdma.Pointer.{Pointer, make, address, offset, raw-make, id-make-address}
use farlock.Rdma.MemoryPool.Filling.{Chain}
use farlock.Rdma.Manager.{Manager, allocate_shared}
use farlock.Rdma.Manager.Lists.{run_of}
use farlock.Benchmark.Locks.{clear, push_back, allocate_local_locks}
use farlock.Benchmark.Exchange.{locks_from}

-- A run of chunks above a bound is the same in memories that agree there.
Chain-above :
    (f g : ℕ → ℕ) (chunk_size bound start a : ℕ) (n : ℕ)
    → bound ≤ start
    → ((x : ℕ) → bound ≤ x → g x ≡ f x)
    → Chain f a (run_of chunk_size start n)
    → Chain g a (run_of chunk_size start n)
Chain-above f g chunk_size bound start a zero low alike chain = chain
Chain-above f g chunk_size bound start a (suc n) low alike (at, nonzero, small, chain) = (
  at,
  nonzero,
  small,
  rw (alike start low) (
      Chain-above f g chunk_size bound (start + chunk_size) (f start) n (omega (arith, low)) alike
        chain),
)

-- The chunks of a run as pointers of a node.
abbrev pub pointers : ℕ → List ℕ → List Pointer
pointers node [] = []
pointers node (c ∷ cs) = make node c ∷ pointers node cs

module _ (chunk_size : ℕ) (some_size : 0 < chunk_size) where
  -- After the first chunk is taken and cleared.
  abbrev next : Manager → Manager
  next m = record {
    free_list = m.memory m.free_list;
    node_id = m.node_id;
    memory = clear m.free_list chunk_size m.memory;
  }

  allocate_empty :
      (n : ℕ) (m : Manager) → m.free_list ≡ 0 → allocate_local_locks (suc n) chunk_size m ≡ none
  unfolding allocate_local_locks allocate_shared address
  allocate_empty n m empty = rw empty refl

  allocate_shared_next :
      (m : Manager)
      → m.free_list ≢ 0
      → allocate_shared m
        ≡ (make m.node_id m.free_list, record m { free_list = m.memory m.free_list })
  unfolding allocate_shared
  allocate_shared_next m nonzero =
      let listed : (m.free_list == 0) ≡ false = ground (arith, nonzero) in rw listed refl

  allocate_next :
      (n : ℕ) (m : Manager)
      → m.node_id < 2 ^ 16
      → m.free_list ≢ 0
      → m.free_list < 2 ^ 48
      → allocate_local_locks (suc n) chunk_size m
        ≡ push_back (make m.node_id m.free_list) (allocate_local_locks n chunk_size (next m))
  unfolding allocate_local_locks
  allocate_next n m few nonzero small =
      let listed : (m.free_list == 0) ≡ false = ground (arith, nonzero) in
      let at : address (make m.node_id m.free_list) ≡ m.free_list =
        (id-make-address m.node_id m.free_list few small).1 in
      rw (allocate_shared_next m nonzero, at, listed) refl

  -- For a chunk size that is not 0, a node id below 2 ^ 16 and a shared list that is a run of k
  -- chunks, AllocateLocalLocks of n locks gives pointers to the first n chunks in their order if n
  -- is at most k, and else writes through a null pointer.
  pub allocate_local_locks_lem :
      (n k start : ℕ) (m : Manager)
      → m.node_id < 2 ^ 16
      → Chain m.memory m.free_list (run_of chunk_size start k)
      → (n ≤ k
          → (done : Manager) × (allocate_local_locks n chunk_size m
              ≡ some (pointers m.node_id (run_of chunk_size start n), done)))
        × (k < n → allocate_local_locks n chunk_size m ≡ none)
  unfolding allocate_local_locks
  allocate_local_locks_lem zero k start m few chain = (λ le. (m, refl), λ lt. absurd (omega arith))
  allocate_local_locks_lem (suc n) zero start m few chain =
      (λ le. absurd (omega arith), λ lt. allocate_empty n m chain)
  allocate_local_locks_lem (suc n) (suc k) start m few (at, nonzero, small, chain) =
      let step = allocate_next n m few (rw at nonzero) (rw at small) in
      let above =
        Chain-above m.memory (clear start chunk_size m.memory) chunk_size (start + chunk_size)
          (start + chunk_size) (m.memory start) k (omega arith) (λ x low. ground (arith, low))
          chain in
      let (fits, fails) =
        allocate_local_locks_lem n k (start + chunk_size) (next m) few (rw at above) in
      (
        λ le. let (done, e) = fits (omega (arith, le)) in (done, step ∙ (rw e (rw at refl))),
        λ lt. step ∙ rw (fails (omega (arith, lt))) refl,
      )

-- What another node computes from the first of these locks.
pub locks_from-pointers :
    (chunk_size node start n j : ℕ)
    → node < 2 ^ 16
    → start + (j + n) * chunk_size < 2 ^ 48
    → (j + n) * chunk_size < 2 ^ 32
    → locks_from chunk_size n j (make node start).raw
      ≡ pointers node (run_of chunk_size (start + j * chunk_size) n)
unfolding offset
locks_from-pointers chunk_size node start zero j few fits small = refl
locks_from-pointers chunk_size node start (suc n) j few fits small =
    let here = add-mul j (suc n) chunk_size in
    let more = suc-mul n chunk_size in
    let step = add-mul j 1 chunk_size in
    let count : j + 1 + n ≡ j + suc n = omega arith in
    let size : j * chunk_size % 2 ^ 32 ≡ j * chunk_size = omega (arith, here, more, small) in
    let raw = raw-make node start few (omega (arith, fits)) in
    let raw_j = raw-make node (start + j * chunk_size) few (omega (arith, fits, here, more)) in
    let at : ((make node start).raw + j * chunk_size % 2 ^ 32) % word
        ≡ (make node (start + j * chunk_size)).raw =
      omega (arith, size, raw, raw_j, fits, here, more, few) in
    let after : start + (j + 1) * chunk_size ≡ start + j * chunk_size + chunk_size =
      omega (arith, step) in
    let rest =
      locks_from-pointers chunk_size node start n (j + 1) few (rw count fits) (rw count small) in
    rw at (ap (λ l. make node (start + j * chunk_size) ∷ l) (rw after at rest))
