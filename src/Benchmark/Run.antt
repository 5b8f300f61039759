-- ===== src/Benchmark/Run.antt =====
-- Run of include/benchmark/benchmark.h: what each thread locks and measures until it is told to
-- stop.
pub mod Measured
pub mod Reported
mod Tests
use farlock.Base.{
  ℕ, ◌+◌, ◌-◌, ◌*◌, ◌%◌, ◌^◌, word, Bool, true, false, Option, none, some, List, [], ◌∷◌, length,
  get_elem?, ltb, if◌then◌else◌,
}
use farlock.Base.Family.{update}
use farlock.Rdma.Pointer.{Pointer}
use farlock.Benchmark.Result.{Random, Result, create, add_sample}
use farlock.Benchmark.Tally.{Measures}

-- What Run uses of the class and of its configuration.
pub record Plan : Type 0 where
  pub local_percentage : ℕ
  pub local_locks : List Pointer
  pub remote_locks : List Pointer
  pub sample_number : ℕ

-- The variables of a thread's function, its two generators of indices with the one that chooses
-- between local and remote.
pub record Worker (R : Type 0) : Type 0 where
  pub rng : R
  pub rngl : R
  pub rngr : R
  pub latency : ℕ → Result R
  pub tmp_latency : ℕ → Result R
  pub count : ℕ → ℕ
  pub tmp_count : ℕ → ℕ

-- What a round reads: the flag, and the clock before Lock and after Unlock.
pub record Round : Type 0 where
  pub sampling_flag : Bool
  pub lock_time : ℕ
  pub unlock_time : ℕ

-- A thread's number and its generators' seed.
abbrev pub seed_of : ℕ → ℕ → ℕ → ℕ
seed_of node_id n_threads thread_id = (node_id * n_threads + thread_id) % 2 ^ 32

-- The last index of a table, in 32 bits.
abbrev pub last_index : List Pointer → ℕ
last_index locks = (length locks + 2 ^ 32 - 1) % 2 ^ 32

-- `unlock_time - lock_time`, in 64 bits.
abbrev pub elapsed : Round → ℕ
elapsed r = (r.unlock_time + word - r.lock_time) % word

module _ {R : Type 0} (g : Random R) (p : Plan) where
  abbrev pub start_worker : (ℕ → R) → ℕ → ℕ → ℕ → Worker R
  start_worker seed node_id n_threads thread_id = record {
    rng = seed (seed_of node_id n_threads thread_id);
    rngl = seed (seed_of node_id n_threads thread_id);
    rngr = seed (seed_of node_id n_threads thread_id);
    latency = λ i. create (seed thread_id) p.sample_number;
    tmp_latency = λ i. create (seed thread_id) p.sample_number;
    count = λ i. 0;
    tmp_count = λ i. 0;
  }

  -- The lock of a round, where its index is in range, with `lr` and the generators' next states.
  unfoldable pub choose : Worker R → Option Pointer × ℕ × Worker R
  choose w =
      let (lr, rng) = g.uniform_within 0 99 w.rng in
      let (l, rngl) = g.uniform_within 0 (last_index p.local_locks) w.rngl in
      let (r, rngr) = g.uniform_within 0 (last_index p.remote_locks) w.rngr in
      if ltb lr p.local_percentage
      then (get_elem? p.local_locks l, 0, record w { rng = rng; rngl = rngl })
      else (get_elem? p.remote_locks r, 1, record w { rng = rng; rngr = rngr })

  -- What a round counts, after it has unlocked.
  unfoldable pub measure : ℕ → Round → Worker R → Worker R
  measure lr r w =
      if r.sampling_flag
      then record w {
        latency = update w.latency lr (add_sample g (elapsed r) (w.latency lr));
        count = update w.count lr ((w.count lr + 1) % word);
      }
      else record w {
        tmp_latency = update w.tmp_latency lr (add_sample g (elapsed r) (w.tmp_latency lr));
        tmp_count = update w.tmp_count lr ((w.tmp_count lr + 1) % word);
      }

  abbrev pub locked :
      Option Pointer → Option (List Pointer × Worker R) → Option (List Pointer × Worker R)
  locked (some lock) (some (locks, w)) = some (lock ∷ locks, w)
  locked (some lock) none = none
  locked none _ = none

  -- The rounds before the thread sees `stop_`, and the locks that it locks and unlocks, in order.
  -- None is an index out of range.
  unfoldable pub work : List Round → Worker R → Option (List Pointer × Worker R)
  work [] w = some ([], w)
  work (r ∷ rounds) w =
      let (lock, lr, chosen) = choose w in locked lock (work rounds (measure lr r chosen))

  -- What the threads leave in the class.
  abbrev pub leave : (ℕ → Worker R) → Measures R
  leave workers = record {
    counts = λ i thread_id. (workers thread_id).count i;
    latencies = λ i thread_id. (workers thread_id).latency i;
  }
