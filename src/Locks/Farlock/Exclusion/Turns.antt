-- ===== src/Locks/Farlock/Exclusion/Turns.antt =====
-- What a step does to the turn and to the tickets of the other threads.
use farlock.Base.{ℕ, ◌+◌, ◌%◌, ◌≡◌, ◌≢◌, ◌⊎◌, inl, refl, arith, word}
use farlock.Locks.Farlock.State.{Side, local, remote, Pc, holding, crashed, System}
use farlock.Locks.Farlock.Queue.{
  reset, exchange_tail, exchange_round, store_next, load_ticket, store_releasable,
  test_to_get_ticket, store_ticket, test_next, store_to_get_ticket, test_granted, test_unlink,
  swap_tail, test_releasable, store_granted,
}
use farlock.Locks.Farlock.Tickets.{
  raise_local, victim_local, test_remote_flag, test_local_victim, lower_local, raise_remote,
  victim_remote, load_victim, test_local_flag, lower_remote, fetch_add_ticket, fetch_ticket,
  add_ticket, test_turn, advance_local, advance_remote,
}
use farlock.Locks.Farlock.Program.{local_step, remote_step, side_step}

-- The turn moves on only when the thread that holds the lock gives it up.
pub record TurnStep (s s' : System) (i j : ℕ) : Type 0 where
  pub same_ticket : (s'.desc j).ticket ≡ (s.desc j).ticket
  pub turn :
      (s'.lock.current_ticket ≡ s.lock.current_ticket)
      ⊎ (((s.thr i).pc ≡ holding)
          × ((s'.lock.current_ticket ≡ (s.lock.current_ticket + 1) % word)
              ⊎ (s'.lock.current_ticket ≡ ((s.desc i).ticket + 1) % word)))

module _ (s : System) (i j : ℕ) (other : j ≢ i) where
  local_turn : (p : Pc) → (s.thr i).pc ≡ p → TurnStep s (local_step p i s) i j
  unfolding local_step reset exchange_tail store_next load_ticket store_releasable
      test_to_get_ticket store_ticket test_next store_to_get_ticket test_granted test_unlink
      swap_tail test_releasable store_granted raise_local victim_local test_remote_flag
      test_local_victim lower_local fetch_add_ticket test_turn advance_local
  local_turn crashed e = record { same_ticket = refl; turn = inl refl }
  local_turn p e = record { same_ticket = ground arith; turn = ground arith }

  remote_turn : (p : Pc) → (s.thr i).pc ≡ p → TurnStep s (remote_step p i s) i j
  unfolding remote_step reset exchange_round store_next load_ticket store_releasable
      test_to_get_ticket store_ticket test_next store_to_get_ticket test_granted test_unlink
      swap_tail test_releasable store_granted raise_remote victim_remote load_victim test_local_flag
      lower_remote fetch_ticket add_ticket test_turn advance_remote
  remote_turn crashed e = record { same_ticket = refl; turn = inl refl }
  remote_turn p e = record { same_ticket = ground arith; turn = ground arith }

  pub step_turn : (σ : Side) → TurnStep s (side_step σ (s.thr i).pc i s) i j
  unfolding side_step
  step_turn local = local_turn (s.thr i).pc refl
  step_turn remote = remote_turn (s.thr i).pc refl
