-- ===== src/Locks/FarlockG/Exclusion/RemoteOthers.antt =====
-- What a step of a remote thread of include/locks/farlockg.h does to the other threads.
use farlock.Base.{ℕ, ◌≤◌, ◌<◌, ◌≡◌, ◌≢◌, ℕ_discrete, arith, word, ◌-◌}
use farlock.Locks.Farlock.State.{Side, local, remote}
use farlock.Locks.Farlock.Fifo.Defs.{Line}
use farlock.Locks.FarlockG.State.{Pc, System}
use farlock.Locks.FarlockG.Queue.{
  swap_tail, store_granted, exchange_round, reset, store_next, load_valid, store_releasable,
  test_granted, test_unlink, test_releasable,
}
use farlock.Locks.FarlockG.Batch.{
  test_passed, test_kind, load_batch, start_budget, test_next, test_last, store_batch, store_budget,
  store_valid, test_again, store_init, keep_ticket,
}
use farlock.Locks.FarlockG.Tickets.{
  raise_remote, victim_remote, load_victim, test_local_flag, lower_remote, fetch_ticket, add_ticket,
  test_turn, test_valid, store_turn,
}
use farlock.Locks.FarlockG.Program.{common_step, remote_step}
use farlock.Locks.FarlockG.Fifo.Defs.{rank, Fifo}
use farlock.Locks.FarlockG.Exclusion.Booking.{Has, Others}

module _ (side : ℕ → Side) (K : Side → ℕ) (fit : (σ : Side) → K σ < word - 1) {g h : Line}
    {s : System} (v : Fifo side local (K local) g s) (v2 : Fifo side remote (K remote) h s) (i : ℕ)
    (here : side i ≡ remote) where
  pub remote-Others :
      (p : Pc)
      → (s.thr i).pc ≡ p
      → (k : ℕ) → k ≢ i
      → Others side K remote p s (remote_step (K remote) p i s) i k
  unfolding remote_step common_step exchange_round raise_remote victim_remote load_victim
      test_local_flag lower_remote fetch_ticket add_ticket test_passed test_kind load_batch
      start_budget test_next test_last store_batch store_budget store_valid test_again store_init
      test_granted test_turn keep_ticket test_valid store_turn test_unlink test_releasable
      store_granted store_next load_valid store_releasable reset swap_tail
  remote-Others p e k ne = record {
    same_thread = ground arith;
    same_valid = ground arith;
    zones =
        ground
          (arith, v2.next i k here, v2.behind i k here, v2.stage i here, v2.stage k, fit remote);
    batch = ground (arith, v2.next i k here, v2.stage i here, v2.stage k);
    grants = ground (arith, v2.next i k here, v2.stage i here);
    nexts = ground (arith, v2.behind i k here, v2.stage i here, v2.stage k);
  }

  -- A thread with a ticket was in the line before the step.
  pub remote-active :
      (p : Pc)
      → (s.thr i).pc ≡ p
      → (k : ℕ) → Has side K (remote_step (K remote) p i s) k
      → 2 ≤ rank (s.thr k).pc
  unfolding remote_step common_step exchange_round raise_remote victim_remote load_victim
      test_local_flag lower_remote fetch_ticket add_ticket test_passed test_kind load_batch
      start_budget test_next test_last store_batch store_budget store_valid test_again store_init
      test_granted test_turn keep_ticket test_valid store_turn test_unlink test_releasable
      store_granted store_next load_valid store_releasable reset swap_tail
  remote-active p e k has = elim (ℕ_discrete k i) [
    | yes it ↦ ground (arith, it, has, v2.stage i here)
    | no ne ↦ ground (arith, has, remote-Others p e k ne)
  ]
