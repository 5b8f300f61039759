-- ===== src/Locks/Farlock/Tests.antt =====
-- Runs of the two programs of include/locks/farlock.h, and the theorems at states that they reach.
use farlock.Base.{
  ℕ, suc, ◌%◌, ◌≤◌, ◌<◌, ◌≡◌, ◌≢◌, ◌⊎◌, refl, true, false, Option, List, [], ◌∷◌, ◌++◌, map,
  replicate, arith, ℕ_discrete, ◌==◌, if◌then◌else◌,
}
use farlock.Locks.Farlock.State.{Side, local, remote, System, init, crashed, grant}
use farlock.Locks.Farlock.Queue.{
  reset, exchange_tail, exchange_round, store_next, load_ticket, store_releasable,
  test_to_get_ticket, store_ticket, test_next, store_to_get_ticket, test_granted, test_unlink,
  swap_tail, test_releasable, store_granted,
}
use farlock.Locks.Farlock.Tickets.{
  raise_local, victim_local, test_remote_flag, test_local_victim, lower_local, raise_remote,
  victim_remote, load_victim, test_local_flag, lower_remote, fetch_add_ticket, fetch_ticket,
  add_ticket, test_turn, advance_local, advance_remote,
}
use farlock.Locks.Spec.{Owns, Follows}
use farlock.Locks.Farlock.Held.{Queues, is_locked_lem}
use farlock.Locks.Farlock.Owner.{holders, owner_refinement}
use farlock.Locks.Farlock.Program.{is_locked, local_step, remote_step, side_step, step, run}
use farlock.Locks.Farlock.Fifo.Defs.{rank}
use farlock.Locks.Farlock.Safety.{
  reached, queued, first, ahead, mutual_exclusion, draw_exclusion, tickets_distinct,
  no_null_dereference, side_order, predecessor_present, ahead-lt, no_overtaking,
}

-- Even threads are local, odd ones remote.
abbrev sides : ℕ → Side
sides i = if i % 2 == 0 then local else remote

-- Where threads 0, 1 and 2 are after a schedule.
ranks : List ℕ → List ℕ
unfolding reset exchange_tail exchange_round store_next load_ticket store_releasable
    test_to_get_ticket store_ticket test_next store_to_get_ticket test_granted test_unlink swap_tail
    test_releasable store_granted raise_local victim_local test_remote_flag test_local_victim
    lower_local raise_remote victim_remote load_victim test_local_flag lower_remote fetch_add_ticket
    fetch_ticket add_ticket test_turn advance_local advance_remote local_step remote_step side_step
    step run ℕ_discrete
ranks is = map (λ i. rank ((run sides is init).thr i).pc) (0 ∷ 1 ∷ 2 ∷ [])

-- Thread 0 holds the lock, thread 2 waits behind it, and thread 1 waits for its turn.
abbrev contended : List ℕ
contended = replicate 10 0 ++ replicate 13 2 ++ replicate 13 1

-- Thread 0 draws a ticket while thread 1 waits in Peterson's loop.
abbrev drawing : List ℕ
drawing = replicate 5 0 ++ replicate 9 1

-- Thread 2 has enqueued behind thread 0 and not yet linked itself.
abbrev linking : List ℕ
linking = replicate 4 0 ++ replicate 2 2

ranks-contended : ranks contended ≡ 18 ∷ 17 ∷ 16 ∷ []
unfolding ranks
ranks-contended = refl

ranks-drawing : ranks drawing ≡ 10 ∷ 8 ∷ 0 ∷ []
unfolding ranks
ranks-drawing = refl

ranks-linking : ranks linking ≡ 8 ∷ 0 ∷ 2 ∷ []
unfolding ranks
ranks-linking = refl

-- Thread 0 unlocks and hands over to thread 2, whose unlock gives the turn to thread 1.
all_served : ranks (contended ++ replicate 4 0 ++ replicate 5 2 ++ 1 ∷ []) ≡ 0 ∷ 18 ∷ 0 ∷ []
unfolding ranks
all_served = refl

mutual_exclusion_example : ◌≡◌ {A = ℕ} 0 0
unfolding ranks
mutual_exclusion_example =
    mutual_exclusion sides 3 (omega arith) contended (omega arith) 0 0 refl refl

draw_exclusion_example : ◌≡◌ {A = ℕ} 0 0
unfolding ranks
draw_exclusion_example = draw_exclusion sides 3 (omega arith) drawing (omega arith) 0 0 refl refl

tickets_distinct_example : ◌≡◌ {A = ℕ} 1 1
unfolding ranks
tickets_distinct_example =
    tickets_distinct sides 3 (omega arith) contended (omega arith) 1 1 refl refl refl

no_null_dereference_example : ((run sides contended init).thr 1).pc ≢ crashed
no_null_dereference_example = no_null_dereference sides 3 (omega arith) contended (omega arith) 1

side_order_example : (sides 2 ≡ sides 0) × (first ((run sides contended init).thr 2).pc ≡ false)
unfolding ranks
side_order_example = side_order sides 3 (omega arith) contended (omega arith) 0 2 refl refl

predecessor_present_example :
    (sides 0 ≡ sides 2)
    × (queued ((run sides linking init).thr 0).pc ≡ true)
    × (((run sides linking init).thr 0).pc ≢ grant)
    × (((run sides linking init).desc 0).releasable ≡ false)
unfolding ranks
predecessor_present_example =
    predecessor_present sides 3 (omega arith) linking (omega arith) 2 0 (omega arith) (omega arith)
      refl

ahead-lt_example : ahead (run sides contended init) 2 < 3
unfolding ranks
ahead-lt_example = ahead-lt sides 3 (omega arith) contended (omega arith) 2 refl

no_overtaking_example :
    ahead (step sides 0 (run sides contended init)) 2 ≤ ahead (run sides contended init) 2
unfolding ranks
no_overtaking_example =
    no_overtaking sides 3 (omega arith) contended (omega arith) 0 2 (omega arith) refl

-- The read of remote_tail and the read of local_tail, in different states.
abbrev first_read : System
first_read = reached sides 3 (omega arith) contended (omega arith)

abbrev second_read : System
second_read = reached sides 3 (omega arith) linking (omega arith)

is_locked_lem_example :
    (is_locked suc first_read.lock second_read.lock ≡ false
      → (i : ℕ)
      → (sides i ≡ remote → queued (first_read.thr i).pc ≡ false)
        × (sides i ≡ local → queued (second_read.thr i).pc ≡ false))
    × (is_locked suc first_read.lock second_read.lock ≡ true
        → Queues sides remote first_read ⊎ Queues sides local second_read)
is_locked_lem_example =
    is_locked_lem sides 3 (omega arith) suc (λ i e. omega (arith, e)) (λ i j e. omega (arith, e))
      contended linking (omega arith) (omega arith)

owner_refinement_example :
    (o : Option ℕ) × Owns (holders (run sides contended init)) o
    × ((i : ℕ) → i < 3 → Follows (holders (step sides i (run sides contended init))) o)
owner_refinement_example = owner_refinement sides {n = 3} (omega arith) contended (omega arith)
