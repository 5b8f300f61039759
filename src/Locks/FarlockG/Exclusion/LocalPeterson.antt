-- ===== src/Locks/FarlockG/Exclusion/LocalPeterson.antt =====
-- A step of a local thread of include/locks/farlockg.h keeps Peterson's algorithm.
use farlock.Base.{◌⊎◌, ℕ, ◌<◌, ◌≡◌, ◌≢◌, ◌⊎◌, ℕ_discrete, arith, word, ◌-◌}
use farlock.Locks.Farlock.State.{Side, local, remote}
use farlock.Locks.Farlock.Fifo.Defs.{Line}
use farlock.Locks.FarlockG.State.{Pc, pass_budget, System}
use farlock.Locks.FarlockG.Queue.{
  swap_tail, store_granted, exchange_tail, reset, store_next, load_valid, store_releasable,
  test_granted, test_unlink, test_releasable,
}
use farlock.Locks.FarlockG.Batch.{
  test_passed, test_kind, load_batch, start_budget, test_next, test_last, store_batch, store_budget,
  store_valid, test_again, store_init, keep_ticket,
}
use farlock.Locks.FarlockG.Tickets.{
  raise_local, victim_local, test_remote_flag, test_local_victim, lower_local, fetch_add_ticket,
  test_turn, test_valid, store_turn,
}
use farlock.Locks.FarlockG.Program.{common_step, local_step}
use farlock.Locks.FarlockG.Fifo.Defs.{Fifo}
use farlock.Locks.FarlockG.Exclusion.Peterson.{zone, Peterson, sole}

module _ (side : ℕ → Side) (K : Side → ℕ) (fit : (σ : Side) → K σ < word - 1) {g : Line}
    {s : System} (i : ℕ) (here : side i ≡ local) (v : Fifo side local (K local) g s) where
  -- A step of a thread moves no other, but passes its ticket on.
  pub local_zones :
      (p : Pc)
      → (s.thr i).pc ≡ p
      → (k : ℕ) → k ≢ i
      → (zone side K (local_step (K local) p i s) k ≡ zone side K s k)
        ⊎ ((p ≡ pass_budget) × (side k ≡ local) × (zone side K (local_step (K local) p i s) k ≡ 15))
  unfolding local_step common_step exchange_tail raise_local victim_local test_remote_flag
      test_local_victim lower_local fetch_add_ticket test_passed test_kind load_batch start_budget
      test_next test_last store_batch store_budget store_valid test_again store_init test_granted
      test_turn keep_ticket test_valid store_turn test_unlink test_releasable store_granted
      store_next load_valid store_releasable reset swap_tail
  local_zones p e k ne =
      ground (arith, v.next i k here, v.behind i k here, v.stage i here, v.stage k, fit local)

  local_rest :
      (p : Pc)
      → (s.thr i).pc ≡ p
      → (k : ℕ) → side k ≡ remote
      → zone side K (local_step (K local) p i s) k ≡ zone side K s k
  local_rest p e k hk = ground (arith, local_zones p e k)

  pub local_step-Peterson :
      Peterson side K s → (p : Pc) → (s.thr i).pc ≡ p → Peterson side K (local_step (K local) p i s)
  unfolding local_step common_step exchange_tail raise_local victim_local test_remote_flag
      test_local_victim lower_local fetch_add_ticket test_passed test_kind load_batch start_budget
      test_next test_last store_batch store_budget store_valid test_again store_init test_granted
      test_turn keep_ticket test_valid store_turn test_unlink test_releasable store_granted
      store_next load_valid store_releasable reset swap_tail
  local_step-Peterson w p e = record {
    local_raised = λ k hk lo hi. elim (ℕ_discrete k i) [
      | yes it ↦ ground (arith, it, w.local_raised i here, v.stage i here)
      | no ne ↦ ground (
        arith,
        w.local_raised k hk,
        w.local_raised i here,
        local_zones p e k ne,
        sole side local (K local) v i k here hk,
        fit local,
        v.stage i here,
      )
    ];
    remote_raised = λ k hk lo hi. ground (arith, w.remote_raised k hk, local_rest p e k hk);
    victims = ground (arith, w.victims);
    chosen = λ k lo hi. elim (ℕ_discrete k i) [
      | yes it ↦ ground (arith, it, w.chosen i, w.victims, v.stage i here)
      | no ne ↦ ground (arith, w.chosen k, w.chosen i, local_zones p e k ne)
    ];
    current = λ k hk at q. ground (arith, w.current k hk, local_rest p e k hk);
    remote_waits = λ a c ha hc lo hi lo2 hi2. elim (ℕ_discrete a i) [
      | yes it ↦ ground (
        arith,
        it,
        w.chosen i,
        v.stage i here,
        w.remote_waits a c ha hc,
        w.local_waits a c ha hc,
        w.exclusive a c ha hc,
        w.remote_raised c hc,
        local_rest p e c hc,
        w.victims,
        w.chosen c,
      )
      | no ne ↦ ground (
        arith,
        w.chosen i,
        w.remote_waits i c here hc,
        w.local_waits i c here hc,
        w.exclusive i c here hc,
        local_zones p e a ne,
        sole side local (K local) v i a here ha,
        fit local,
        v.stage i here,
        w.remote_waits a c ha hc,
        w.local_waits a c ha hc,
        w.exclusive a c ha hc,
        w.remote_raised c hc,
        local_rest p e c hc,
        w.victims,
        w.chosen c,
      )
    ];
    local_waits = λ a c ha hc lo hi lo2 hi2. elim (ℕ_discrete a i) [
      | yes it ↦ ground (
        arith,
        it,
        w.chosen i,
        v.stage i here,
        w.remote_waits a c ha hc,
        w.local_waits a c ha hc,
        w.exclusive a c ha hc,
        w.remote_raised c hc,
        local_rest p e c hc,
        w.victims,
        w.chosen c,
      )
      | no ne ↦ ground (
        arith,
        w.chosen i,
        w.remote_waits i c here hc,
        w.local_waits i c here hc,
        w.exclusive i c here hc,
        local_zones p e a ne,
        sole side local (K local) v i a here ha,
        fit local,
        v.stage i here,
        w.remote_waits a c ha hc,
        w.local_waits a c ha hc,
        w.exclusive a c ha hc,
        w.remote_raised c hc,
        local_rest p e c hc,
        w.victims,
        w.chosen c,
      )
    ];
    exclusive = λ a c ha hc lo hi lo2 hi2. elim (ℕ_discrete a i) [
      | yes it ↦ ground (
        arith,
        it,
        w.chosen i,
        v.stage i here,
        w.remote_waits a c ha hc,
        w.local_waits a c ha hc,
        w.exclusive a c ha hc,
        w.remote_raised c hc,
        local_rest p e c hc,
        w.victims,
        w.chosen c,
      )
      | no ne ↦ ground (
        arith,
        w.chosen i,
        w.remote_waits i c here hc,
        w.local_waits i c here hc,
        w.exclusive i c here hc,
        local_zones p e a ne,
        sole side local (K local) v i a here ha,
        fit local,
        v.stage i here,
        w.remote_waits a c ha hc,
        w.local_waits a c ha hc,
        w.exclusive a c ha hc,
        w.remote_raised c hc,
        local_rest p e c hc,
        w.victims,
        w.chosen c,
      )
    ];
  }
