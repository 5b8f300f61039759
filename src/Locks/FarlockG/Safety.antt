-- ===== src/Locks/FarlockG/Safety.antt =====
-- What include/locks/farlockg.h guarantees in every state that threads of both sides reach in fewer
-- than 2 ^ 64 steps, in whatever order their accesses to shared memory take place.
use farlock.Base.{
  ℕ, ◌+◌, ◌-◌, ◌≤◌, ◌<◌, ◌≡◌, ◌≢◌, refl, ap, Bool, true, false, Option, none, some, List, [], ◌∷◌,
  length, arith, word,
}
use farlock.Locks.Spec.{Owns, Follows, lock_step}
use farlock.Locks.Farlock.State.{Side, local, remote}
use farlock.Locks.Farlock.Fifo.Defs.{Line}
use farlock.Locks.FarlockG.State.{
  Pc, idle, swap, pass_budget, holding, advance, crashed, System, k_no_budget, init,
}
use farlock.Locks.FarlockG.Batch.{store_budget}
use farlock.Locks.FarlockG.Tickets.{store_turn}
use farlock.Locks.FarlockG.Program.{side_step, step, run}
use farlock.Locks.FarlockG.Fifo.Defs.{rank, Fifo}
use farlock.Locks.FarlockG.Exclusion.LocalOthers.{local-Others}
use farlock.Locks.FarlockG.Exclusion.RemoteOthers.{remote-Others}
use farlock.Locks.FarlockG.Exclusion.Steps.{IsSafe, successor}
use farlock.Locks.FarlockG.Exclusion.Safe.{step-IsSafe, run-IsSafe, init-IsSafe}

-- Between the return of Lock and the end of the first statement of Unlock.
abbrev pub inside : Pc → Bool
inside holding = true
inside advance = true
inside _ = false

abbrev pub all_inside : System → ℕ → Bool
all_inside s i = inside (s.thr i).pc

-- In the queue: the descriptor may be reached through another thread's.
abbrev pub in_queue : Pc → Bool
in_queue idle = false
in_queue swap = false
in_queue _ = true

module _ (side : ℕ → Side) (K : Side → ℕ) {m : ℕ} {s : System} (z : IsSafe side K m s) where
  pub side_line : (σ : Side) → (g : Line) × Fifo side σ (K σ) g s
  side_line local = (z.locals, z.lines.locals)
  side_line remote = (z.remotes, z.lines.remotes)

  alone : (i j : ℕ) → inside (s.thr i).pc ≡ true → inside (s.thr j).pc ≡ true → i ≡ j
  alone i j in_i in_j = ground (
    arith,
    z.booked.turn i,
    z.booked.turn j,
    z.booked.apart i j,
    z.booked.apart j i,
    z.lines.locals.stage i,
    z.lines.remotes.stage i,
    z.lines.locals.stage j,
    z.lines.remotes.stage j,
    z.lines.locals.apart i j,
    z.lines.remotes.apart i j,
  )

module _ (side : ℕ → Side) (K : Side → ℕ) (some_budget : (σ : Side) → 1 ≤ K σ)
    (fit : (σ : Side) → K σ < word - 1) where
  side_step-others :
      {m : ℕ} {s : System} (z : IsSafe side K m s) (i k : ℕ)
      → k ≢ i
      → (σ : Side) → side i ≡ σ
      → (side_step K σ (s.thr i).pc i s).thr k ≡ s.thr k
  unfolding side_step
  side_step-others z i k ne local here =
      (local-Others side K fit z.lines.locals z.lines.remotes i here _ refl k ne).same_thread
  side_step-others z i k ne remote here =
      (remote-Others side K fit z.lines.locals z.lines.remotes i here _ refl k ne).same_thread

  owner_step :
      {m : ℕ} (i : ℕ) (s : System)
      → m + 1 < word
      → IsSafe side K m s
      → (o : Option ℕ) → Owns (all_inside s) o
      → Follows (all_inside (step side K i s)) o
  unfolding step
  owner_step i s fits z o owner =
      lock_step (all_inside s) (all_inside (step side K i s)) i
        (λ k ne. ap (λ t. inside t.pc) (side_step-others z i k ne (side i) refl))
        (alone side K (step-IsSafe side K some_budget fit i s fits z)) o owner

  owner_run :
      (is : List ℕ) (m : ℕ) (s : System)
      → m + length is < word
      → IsSafe side K m s
      → (o : Option ℕ) → Owns (all_inside s) o
      → (o' : Option ℕ) × Owns (all_inside (run side K is s)) o'
  unfolding run
  owner_run [] m s fits z o owner = (o, owner)
  owner_run (i ∷ is) m s fits z o owner =
      let (o', owner', _) = owner_step i s (omega arith) z o owner in
      owner_run is (m + 1) (step side K i s) (omega arith)
        (step-IsSafe side K some_budget fit i s (omega arith) z) o' owner'

  module _ (is : List ℕ) (short : length is + 1 < word) where
    abbrev pub after : System
    after = run side K is init

    safe : IsSafe side K (length is) after
    safe =
        run-IsSafe side K some_budget fit (length is) (omega arith) is 0 init (omega arith)
          (init-IsSafe side K some_budget fit)

    my_line : (i : ℕ) → (g : Line) × Fifo side (side i) (K (side i)) g after
    my_line i = side_line side K safe (side i)

    -- In every state of one FARLockG that threads of both sides, with budgets from 1 to below 2 ^
    -- 64 - 1, reach in fewer than 2 ^ 64 - 1 steps in any order, two threads that are between the
    -- return of Lock and the end of the first statement of Unlock are the same.
    pub inside_exclusion :
        (i j : ℕ) → inside (after.thr i).pc ≡ true → inside (after.thr j).pc ≡ true → i ≡ j
    inside_exclusion i j in_i in_j = alone side K safe i j in_i in_j

    -- In every state of one FARLockG that threads of both sides, with budgets from 1 to below 2 ^
    -- 64 - 1, reach in fewer than 2 ^ 64 - 1 steps in any order, there is an owner or none of the
    -- abstract lock, namely the thread that is inside, and each step of each thread is a step of
    -- the abstract lock or leaves it: a free lock is acquired, or its owner releases it.
    pub lock_refinement :
        (o : Option ℕ) × Owns (all_inside after) o
        × ((i : ℕ) → Follows (all_inside (step side K i after)) o)
    unfolding Owns
    lock_refinement =
        let (o, owner) =
          owner_run is 0 init (omega arith) (init-IsSafe side K some_budget fit) none (λ i. refl) in
        (o, owner, λ i. owner_step i after short safe o owner)

    -- In every state of one FARLockG that threads of both sides, with budgets from 1 to below 2 ^
    -- 64 - 1, reach in fewer than 2 ^ 64 - 1 steps in any order, no thread has followed a null
    -- pointer.
    pub no_null_pointer : (i : ℕ) → (after.thr i).pc ≢ crashed
    no_null_pointer i at = let (g, v) = my_line i in ground (arith, (v.stage i refl).whole)

    -- In every state of one FARLockG that threads of both sides, with budgets from 1 to below 2 ^
    -- 64 - 1, reach in fewer than 2 ^ 64 - 1 steps in any order, the budget in the descriptor of a
    -- thread in the queue is -1 or from 1 to the first budget of its side.
    pub budget_bounded :
        (i : ℕ)
        → in_queue (after.thr i).pc ≡ true
        → (after.desc i).budget ≢ k_no_budget
        → (1 ≤ (after.desc i).budget) × ((after.desc i).budget ≤ K (side i))
    budget_bounded i queued got =
        let (g, v) = my_line i in (v.stage i refl).bounded (ground arith) got

    -- In every state of one FARLockG that threads of both sides, with budgets from 1 to below 2 ^
    -- 64 - 1, reach in fewer than 2 ^ 64 - 1 steps in any order, a thread that is about to pass
    -- its ticket on has a successor, and gives it one less than its own budget, which is at least
    -- 1.
    pub budget_passed :
        (i : ℕ)
        → (after.thr i).pc ≡ pass_budget
        → (k : ℕ) × ((after.desc i).next ≡ some k)
          × (((store_budget i after).desc k).budget + 1 ≡ (after.desc i).budget)
          × (1 ≤ ((store_budget i after).desc k).budget)
    unfolding store_budget
    budget_passed i at =
        let (g, v) = my_line i in
        let (k, n, ne) = successor side K some_budget fit v i refl at in
        (
          k,
          n,
          ground (arith, n, at, v.stage i refl, fit (side i)),
          ground (arith, n, at, v.stage i refl, fit (side i)),
        )

    -- In every state of one FARLockG that threads of both sides, with budgets from 1 to below 2 ^
    -- 64 - 1, reach in fewer than 2 ^ 64 - 1 steps in any order, a thread that is about to write
    -- the turn in its unlock raises it by one.
    pub turn_advances :
        (i : ℕ)
        → (after.thr i).pc ≡ advance
        → (store_turn i after).lock.current_ticket ≡ after.lock.current_ticket + 1
    unfolding store_turn
    turn_advances i at = ground (
      arith,
      safe.booked.turn i,
      safe.booked.stored i,
      safe.booked.window i,
      safe.booked.current,
      safe.few,
      short,
    )

    -- In every state of one FARLockG that threads of both sides, with budgets from 1 to below 2 ^
    -- 64 - 1, reach in fewer than 2 ^ 64 - 1 steps in any order, a thread that waits for its grant
    -- or its turn without the mark that its batch ends there has the same ticket as the thread
    -- behind it, if that one has a ticket and is not yet inside.
    pub batch_ticket_shared :
        (i k : ℕ)
        → 25 ≤ rank (after.thr i).pc
        → rank (after.thr i).pc ≤ 27
        → (after.desc i).ticket_valid ≡ false
        → (after.desc i).next ≡ some k
        → 15 ≤ rank (after.thr k).pc
        → rank (after.thr k).pc ≤ 27
        → (after.thr k).ticket ≡ (after.thr i).ticket
    batch_ticket_shared i k lo hi q n lo2 hi2 =
        ground (arith, safe.booked.ticket i, safe.booked.ticket k, safe.booked.linked i k)
