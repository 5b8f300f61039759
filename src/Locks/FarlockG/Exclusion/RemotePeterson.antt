-- ===== src/Locks/FarlockG/Exclusion/RemotePeterson.antt =====
-- A step of a remote thread of include/locks/farlockg.h keeps Peterson's algorithm.
use farlock.Base.{◌⊎◌, ℕ, ◌<◌, ◌≡◌, ◌≢◌, ◌⊎◌, ℕ_discrete, arith, word, ◌-◌}
use farlock.Locks.Farlock.State.{Side, local, remote}
use farlock.Locks.Farlock.Fifo.Defs.{Line}
use farlock.Locks.FarlockG.State.{Pc, pass_budget, System}
use farlock.Locks.FarlockG.Queue.{
  swap_tail, store_granted, exchange_round, reset, store_next, load_valid, store_releasable,
  test_granted, test_unlink, test_releasable,
}
use farlock.Locks.FarlockG.Batch.{
  test_passed, test_kind, load_batch, start_budget, test_next, test_last, store_batch, store_budget,
  store_valid, test_again, store_init, keep_ticket,
}
use farlock.Locks.FarlockG.Tickets.{
  raise_remote, victim_remote, load_victim, test_local_flag, lower_remote, fetch_ticket, add_ticket,
  test_turn, test_valid, store_turn,
}
use farlock.Locks.FarlockG.Program.{common_step, remote_step}
use farlock.Locks.FarlockG.Fifo.Defs.{Fifo}
use farlock.Locks.FarlockG.Exclusion.Peterson.{zone, Peterson, sole}

module _ (side : ℕ → Side) (K : Side → ℕ) (fit : (σ : Side) → K σ < word - 1) {g : Line}
    {s : System} (i : ℕ) (here : side i ≡ remote) (v : Fifo side remote (K remote) g s) where
  -- A step of a thread moves no other, but passes its ticket on.
  pub remote_zones :
      (p : Pc)
      → (s.thr i).pc ≡ p
      → (k : ℕ) → k ≢ i
      → (zone side K (remote_step (K remote) p i s) k ≡ zone side K s k)
        ⊎ ((p ≡ pass_budget)
            × (side k ≡ remote)
            × (zone side K (remote_step (K remote) p i s) k ≡ 15))
  unfolding remote_step common_step exchange_round raise_remote victim_remote load_victim
      test_local_flag lower_remote fetch_ticket add_ticket test_passed test_kind load_batch
      start_budget test_next test_last store_batch store_budget store_valid test_again store_init
      test_granted test_turn keep_ticket test_valid store_turn test_unlink test_releasable
      store_granted store_next load_valid store_releasable reset swap_tail
  remote_zones p e k ne =
      ground (arith, v.next i k here, v.behind i k here, v.stage i here, v.stage k, fit remote)

  remote_rest :
      (p : Pc)
      → (s.thr i).pc ≡ p
      → (k : ℕ) → side k ≡ local
      → zone side K (remote_step (K remote) p i s) k ≡ zone side K s k
  remote_rest p e k hk = ground (arith, remote_zones p e k)

  pub remote_step-Peterson :
      Peterson side K s
      → (p : Pc) → (s.thr i).pc ≡ p
      → Peterson side K (remote_step (K remote) p i s)
  unfolding remote_step common_step exchange_round raise_remote victim_remote load_victim
      test_local_flag lower_remote fetch_ticket add_ticket test_passed test_kind load_batch
      start_budget test_next test_last store_batch store_budget store_valid test_again store_init
      test_granted test_turn keep_ticket test_valid store_turn test_unlink test_releasable
      store_granted store_next load_valid store_releasable reset swap_tail
  remote_step-Peterson w p e = record {
    local_raised = λ k hk lo hi. ground (arith, w.local_raised k hk, remote_rest p e k hk);
    remote_raised = λ k hk lo hi. elim (ℕ_discrete k i) [
      | yes it ↦ ground (arith, it, w.remote_raised i here, v.stage i here)
      | no ne ↦ ground (
        arith,
        w.remote_raised k hk,
        w.remote_raised i here,
        remote_zones p e k ne,
        sole side remote (K remote) v i k here hk,
        fit remote,
        v.stage i here,
      )
    ];
    victims = ground (arith, w.victims);
    chosen = λ k lo hi. elim (ℕ_discrete k i) [
      | yes it ↦ ground (arith, it, w.chosen i, w.victims, v.stage i here)
      | no ne ↦ ground (arith, w.chosen k, w.chosen i, remote_zones p e k ne)
    ];
    current = λ k hk at q. elim (ℕ_discrete k i) [
      | yes it ↦ ground (arith, it, w.current i here, v.stage i here)
      | no ne ↦ ground (
        arith,
        w.current k hk,
        remote_zones p e k ne,
        sole side remote (K remote) v i k here hk,
        fit remote,
        v.stage i here,
      )
    ];
    remote_waits = λ a c ha hc lo hi lo2 hi2. elim (ℕ_discrete c i) [
      | yes it ↦ ground (
        arith,
        it,
        w.current i here,
        v.stage i here,
        w.remote_waits a c ha hc,
        w.local_waits a c ha hc,
        w.exclusive a c ha hc,
        w.local_raised a ha,
        remote_rest p e a ha,
        w.victims,
        w.chosen a,
      )
      | no ne ↦ ground (
        arith,
        w.current i here,
        w.remote_waits a i ha here,
        w.local_waits a i ha here,
        w.exclusive a i ha here,
        remote_zones p e c ne,
        sole side remote (K remote) v i c here hc,
        fit remote,
        v.stage i here,
        w.remote_waits a c ha hc,
        w.local_waits a c ha hc,
        w.exclusive a c ha hc,
        w.local_raised a ha,
        remote_rest p e a ha,
        w.victims,
        w.chosen a,
      )
    ];
    local_waits = λ a c ha hc lo hi lo2 hi2. elim (ℕ_discrete c i) [
      | yes it ↦ ground (
        arith,
        it,
        w.current i here,
        v.stage i here,
        w.remote_waits a c ha hc,
        w.local_waits a c ha hc,
        w.exclusive a c ha hc,
        w.local_raised a ha,
        remote_rest p e a ha,
        w.victims,
        w.chosen a,
      )
      | no ne ↦ ground (
        arith,
        w.current i here,
        w.remote_waits a i ha here,
        w.local_waits a i ha here,
        w.exclusive a i ha here,
        remote_zones p e c ne,
        sole side remote (K remote) v i c here hc,
        fit remote,
        v.stage i here,
        w.remote_waits a c ha hc,
        w.local_waits a c ha hc,
        w.exclusive a c ha hc,
        w.local_raised a ha,
        remote_rest p e a ha,
        w.victims,
        w.chosen a,
      )
    ];
    exclusive = λ a c ha hc lo hi lo2 hi2. elim (ℕ_discrete c i) [
      | yes it ↦ ground (
        arith,
        it,
        w.current i here,
        v.stage i here,
        w.remote_waits a c ha hc,
        w.local_waits a c ha hc,
        w.exclusive a c ha hc,
        w.local_raised a ha,
        remote_rest p e a ha,
        w.victims,
        w.chosen a,
      )
      | no ne ↦ ground (
        arith,
        w.current i here,
        w.remote_waits a i ha here,
        w.local_waits a i ha here,
        w.exclusive a i ha here,
        remote_zones p e c ne,
        sole side remote (K remote) v i c here hc,
        fit remote,
        v.stage i here,
        w.remote_waits a c ha hc,
        w.local_waits a c ha hc,
        w.exclusive a c ha hc,
        w.local_raised a ha,
        remote_rest p e a ha,
        w.victims,
        w.chosen a,
      )
    ];
  }
