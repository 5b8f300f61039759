-- ===== src/Locks/FarlockG/Exclusion/LocalOthers.antt =====
-- What a step of a local thread of include/locks/farlockg.h does to the other threads.
use farlock.Base.{ℕ, ◌≤◌, ◌<◌, ◌≡◌, ◌≢◌, ℕ_discrete, arith, word, ◌-◌}
use farlock.Locks.Farlock.State.{Side, local, remote}
use farlock.Locks.Farlock.Fifo.Defs.{Line}
use farlock.Locks.FarlockG.State.{Pc, System}
use farlock.Locks.FarlockG.Queue.{
  swap_tail, store_granted, exchange_tail, reset, store_next, load_valid, store_releasable,
  test_granted, test_unlink, test_releasable,
}
use farlock.Locks.FarlockG.Batch.{
  test_passed, test_kind, load_batch, start_budget, test_next, test_last, store_batch, store_budget,
  store_valid, test_again, store_init, keep_ticket,
}
use farlock.Locks.FarlockG.Tickets.{
  raise_local, victim_local, test_remote_flag, test_local_victim, lower_local, fetch_add_ticket,
  test_turn, test_valid, store_turn,
}
use farlock.Locks.FarlockG.Program.{common_step, local_step}
use farlock.Locks.FarlockG.Fifo.Defs.{rank, Fifo}
use farlock.Locks.FarlockG.Exclusion.Booking.{Has, Others}

module _ (side : ℕ → Side) (K : Side → ℕ) (fit : (σ : Side) → K σ < word - 1) {g h : Line}
    {s : System} (v : Fifo side local (K local) g s) (v2 : Fifo side remote (K remote) h s) (i : ℕ)
    (here : side i ≡ local) where
  pub local-Others :
      (p : Pc)
      → (s.thr i).pc ≡ p
      → (k : ℕ) → k ≢ i
      → Others side K local p s (local_step (K local) p i s) i k
  unfolding local_step common_step exchange_tail raise_local victim_local test_remote_flag
      test_local_victim lower_local fetch_add_ticket test_passed test_kind load_batch start_budget
      test_next test_last store_batch store_budget store_valid test_again store_init test_granted
      test_turn keep_ticket test_valid store_turn test_unlink test_releasable store_granted
      store_next load_valid store_releasable reset swap_tail
  local-Others p e k ne = record {
    same_thread = ground arith;
    same_valid = ground arith;
    zones =
        ground (arith, v.next i k here, v.behind i k here, v.stage i here, v.stage k, fit local);
    batch = ground (arith, v.next i k here, v.stage i here, v.stage k);
    grants = ground (arith, v.next i k here, v.stage i here);
    nexts = ground (arith, v.behind i k here, v.stage i here, v.stage k);
  }

  -- A thread with a ticket was in the line before the step.
  pub local-active :
      (p : Pc)
      → (s.thr i).pc ≡ p
      → (k : ℕ) → Has side K (local_step (K local) p i s) k
      → 2 ≤ rank (s.thr k).pc
  unfolding local_step common_step exchange_tail raise_local victim_local test_remote_flag
      test_local_victim lower_local fetch_add_ticket test_passed test_kind load_batch start_budget
      test_next test_last store_batch store_budget store_valid test_again store_init test_granted
      test_turn keep_ticket test_valid store_turn test_unlink test_releasable store_granted
      store_next load_valid store_releasable reset swap_tail
  local-active p e k has = elim (ℕ_discrete k i) [
    | yes it ↦ ground (arith, it, has, v.stage i here)
    | no ne ↦ ground (arith, has, local-Others p e k ne)
  ]
