-- ===== src/Locks/FarlockG/Fifo/Plain.antt =====
-- The steps of include/locks/farlockg.h that write neither the tail nor another's descriptor.
use farlock.Base.{Bool, ℕ, ◌≤◌, ◌<◌, ◌≡◌, arith, word, ◌-◌, true, false}
use farlock.Locks.Farlock.State.{Side, local, remote}
use farlock.Locks.Farlock.Fifo.Defs.{Line}
use farlock.Locks.FarlockG.State.{
  Pc, idle, swap, link, read_valid, release_prev, pass_batch, pass_budget, publish_full,
  publish_last, pass_init, cut_tail, grant, crashed, System,
}
use farlock.Locks.FarlockG.Queue.{test_granted, test_unlink, test_releasable}
use farlock.Locks.FarlockG.Batch.{
  test_passed, test_kind, load_batch, start_budget, test_next, test_last, test_again, keep_ticket,
}
use farlock.Locks.FarlockG.Tickets.{
  raise_local, victim_local, test_remote_flag, test_local_victim, lower_local, raise_remote,
  victim_remote, load_victim, test_local_flag, lower_remote, fetch_add_ticket, fetch_ticket,
  add_ticket, test_turn, test_valid, store_turn,
}
use farlock.Locks.FarlockG.Fifo.Keep.{Moves}
use farlock.Locks.FarlockG.Program.{common_step, local_step, remote_step}
use farlock.Locks.FarlockG.Fifo.Defs.{Fifo}

-- The points of the program from which a step writes at most the own descriptor, not its
-- `ticket_valid_`, and does not leave the line.
abbrev pub plain : Pc → Bool
plain idle = false
plain swap = false
plain link = false
plain read_valid = false
plain release_prev = false
plain pass_batch = false
plain pass_budget = false
plain publish_full = false
plain publish_last = false
plain pass_init = false
plain cut_tail = false
plain grant = false
plain crashed = false
plain _ = true

module _ (side : ℕ → Side) (σ : Side) (K : ℕ) (some_budget : 1 ≤ K) (fit : K < word - 1) {g : Line}
    {s : System} (v : Fifo side σ K g s) (i : ℕ) (here : side i ≡ σ) where
  pub local_step-Moves :
      (p : Pc)
      → (s.thr i).pc ≡ p
      → plain p ≡ true
      → side i ≡ local
      → Moves side σ K g s (local_step K p i s) i
  unfolding local_step common_step test_passed test_kind load_batch start_budget test_next test_last
      test_again test_granted test_turn keep_ticket test_valid store_turn test_unlink
      test_releasable raise_local victim_local test_remote_flag test_local_victim lower_local
      fetch_add_ticket
  local_step-Moves p e ok at = record {
    same_tail = ground (arith);
    others = λ k ne. ground arith;
    old = ground arith;
    new = ground arith;
    stage = ground (arith, v.stage i here, some_budget, fit);
    same_next = ground arith;
    same_releasable = ground arith;
    same_valid = ground arith;
    late = ground (arith, v.stage i here);
    joined = ground (arith, v.stage i here);
    unjoined = ground (arith, v.stage i here);
  }

  pub remote_step-Moves :
      (p : Pc)
      → (s.thr i).pc ≡ p
      → plain p ≡ true
      → side i ≡ remote
      → Moves side σ K g s (remote_step K p i s) i
  unfolding remote_step common_step test_passed test_kind load_batch start_budget test_next
      test_last test_again test_granted test_turn keep_ticket test_valid store_turn test_unlink
      test_releasable raise_remote victim_remote load_victim test_local_flag lower_remote
      fetch_ticket add_ticket
  remote_step-Moves p e ok at = record {
    same_tail = ground arith;
    others = λ k ne. ground arith;
    old = ground arith;
    new = ground arith;
    stage = ground (arith, v.stage i here, some_budget, fit);
    same_next = ground arith;
    same_releasable = ground arith;
    same_valid = ground arith;
    late = ground (arith, v.stage i here);
    joined = ground (arith, v.stage i here);
    unjoined = ground (arith, v.stage i here);
  }
