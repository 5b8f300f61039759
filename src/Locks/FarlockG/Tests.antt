-- ===== src/Locks/FarlockG/Tests.antt =====
-- Runs of the two programs of include/locks/farlockg.h, and the theorems at states that they reach.
use farlock.Base.{
  ℕ, ◌+◌, ◌-◌, ◌%◌, ◌≤◌, ◌<◌, ◌≡◌, refl, Option, some, List, [], ◌∷◌, ◌++◌, map, replicate, arith,
  word, ℕ_discrete, ◌==◌, if◌then◌else◌,
}
use farlock.Locks.Spec.{Owns, Follows}
use farlock.Locks.Farlock.State.{Side, local, remote}
use farlock.Locks.FarlockG.State.{System, init}
use farlock.Locks.FarlockG.Queue.{
  reset, exchange_tail, exchange_round, store_next, load_valid, store_releasable, test_granted,
  test_unlink, swap_tail, test_releasable, store_granted,
}
use farlock.Locks.FarlockG.Batch.{
  test_passed, test_kind, load_batch, start_budget, test_next, test_last, store_batch, store_budget,
  store_valid, test_again, store_init, keep_ticket,
}
use farlock.Locks.FarlockG.Tickets.{
  raise_local, victim_local, test_remote_flag, test_local_victim, lower_local, raise_remote,
  victim_remote, load_victim, test_local_flag, lower_remote, fetch_add_ticket, fetch_ticket,
  add_ticket, test_turn, test_valid, store_turn,
}
use farlock.Locks.FarlockG.Program.{common_step, local_step, remote_step, side_step, step, run}
use farlock.Locks.FarlockG.Fifo.Defs.{rank}
use farlock.Locks.FarlockG.Safety.{
  all_inside, inside_exclusion, lock_refinement, budget_passed, turn_advances, batch_ticket_shared,
}

-- Even threads are local, odd ones remote; a batch has two threads.
abbrev sides : ℕ → Side
sides i = if i % 2 == 0 then local else remote

abbrev two : Side → ℕ
two σ = 2

abbrev at : List ℕ → System
at is = run sides two is init

-- Where threads 0, 1 and 2 are after a schedule.
ranks : List ℕ → List ℕ
unfolding reset exchange_tail exchange_round store_next load_valid store_releasable test_granted
    test_unlink swap_tail test_releasable store_granted test_passed test_kind load_batch
    start_budget test_next test_last store_batch store_budget store_valid test_again store_init
    keep_ticket raise_local victim_local test_remote_flag test_local_victim lower_local raise_remote
    victim_remote load_victim test_local_flag lower_remote fetch_add_ticket fetch_ticket add_ticket
    test_turn test_valid store_turn common_step local_step remote_step side_step step run ℕ_discrete
ranks is = map (λ i. rank ((at is).thr i).pc) (0 ∷ 1 ∷ 2 ∷ [])

-- Thread 0 passes its ticket on to thread 2.
abbrev passing : List ℕ
passing = replicate 7 0 ++ replicate 5 2 ++ replicate 3 0

-- Thread 2 has the ticket of thread 0 and waits for its grant, and thread 0 for its turn.
abbrev sharing : List ℕ
sharing = passing ++ 0 ∷ [] ++ replicate 7 2

-- Thread 0 holds the lock; thread 1 has a ticket of its own.
abbrev crowded : List ℕ
crowded = sharing ++ replicate 2 0 ++ replicate 13 1

-- Thread 2 has the lock from thread 0 and is about to move the turn.
abbrev handing : List ℕ
handing = crowded ++ replicate 4 0 ++ replicate 2 2

ranks-passing : ranks passing ≡ 18 ∷ 0 ∷ 5 ∷ []
unfolding ranks
ranks-passing = refl

ranks-sharing : ranks sharing ≡ 26 ∷ 0 ∷ 25 ∷ []
unfolding ranks
ranks-sharing = refl

ranks-crowded : ranks crowded ≡ 28 ∷ 26 ∷ 25 ∷ []
unfolding ranks
ranks-crowded = refl

ranks-handing : ranks handing ≡ 0 ∷ 26 ∷ 29 ∷ []
unfolding ranks
ranks-handing = refl

-- The turn that thread 2 moves is that of thread 1.
ranks-done : ranks (handing ++ replicate 3 2 ++ replicate 2 1) ≡ 0 ∷ 28 ∷ 0 ∷ []
unfolding ranks
ranks-done = refl

some_two : (σ : Side) → 1 ≤ two σ
some_two σ = omega arith

two_fit : (σ : Side) → two σ < word - 1
two_fit σ = omega arith

inside_exclusion_example : ◌≡◌ {A = ℕ} 0 0
unfolding ranks
inside_exclusion_example =
    inside_exclusion sides two some_two two_fit crowded (omega arith) 0 0 refl refl

lock_refinement_example :
    (o : Option ℕ) × Owns (all_inside (at crowded)) o
    × ((i : ℕ) → Follows (all_inside (step sides two i (at crowded))) o)
lock_refinement_example = lock_refinement sides two some_two two_fit crowded (omega arith)

budget_passed_example :
    (k : ℕ) × (((at passing).desc 0).next ≡ some k)
    × (((store_budget 0 (at passing)).desc k).budget + 1 ≡ ((at passing).desc 0).budget)
    × (1 ≤ ((store_budget 0 (at passing)).desc k).budget)
unfolding ranks
budget_passed_example = budget_passed sides two some_two two_fit passing (omega arith) 0 refl

turn_advances_example :
    (store_turn 2 (at handing)).lock.current_ticket ≡ (at handing).lock.current_ticket + 1
unfolding ranks
turn_advances_example = turn_advances sides two some_two two_fit handing (omega arith) 2 refl

batch_ticket_shared_example : ((at sharing).thr 2).ticket ≡ ((at sharing).thr 0).ticket
unfolding ranks
batch_ticket_shared_example =
    batch_ticket_shared sides two some_two two_fit sharing (omega arith) 0 2 (omega arith)
      (omega arith) refl refl (omega arith) (omega arith)
