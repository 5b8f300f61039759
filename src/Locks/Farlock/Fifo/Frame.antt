-- ===== src/Locks/Farlock/Fifo/Frame.antt =====
-- A thread of one side writes nothing that belongs to the line of the other side.
use farlock.Base.{ℕ, ◌≡◌, arith}
use farlock.Locks.Farlock.State.{Side, local, remote, Pc, idle, System}
use farlock.Locks.Farlock.Queue.{
  tail, reset, exchange_tail, exchange_round, store_next, load_ticket, store_releasable,
  test_to_get_ticket, store_ticket, test_next, store_to_get_ticket, test_granted, test_unlink,
  swap_tail, test_releasable, store_granted,
}
use farlock.Locks.Farlock.Tickets.{
  raise_local, victim_local, test_remote_flag, test_local_victim, lower_local, raise_remote,
  victim_remote, load_victim, test_local_flag, lower_remote, fetch_add_ticket, fetch_ticket,
  add_ticket, test_turn, advance_local, advance_remote,
}
use farlock.Locks.Farlock.Program.{local_step, remote_step}
use farlock.Locks.Farlock.Fifo.Defs.{Line, Fifo}

-- What the line of side `τ` is made of is the same in `s'`.
pub record Quiet (side : ℕ → Side) (τ : Side) (s s' : System) : Type 0 where
  pub same_tail : tail τ s'.lock ≡ tail τ s.lock
  pub same_thread : (k : ℕ) → side k ≡ τ → (s'.thr k ≡ s.thr k) × (s'.desc k ≡ s.desc k)

module _ (side : ℕ → Side) {g : Line} {s : System} (i : ℕ) where
  pub local_step-Quiet :
      Fifo side local g s
      → side i ≡ local
      → (p : Pc) → (s.thr i).pc ≡ p
      → Quiet side remote s (local_step p i s)
  unfolding local_step reset exchange_tail store_next load_ticket store_releasable
      test_to_get_ticket store_ticket test_next store_to_get_ticket test_granted test_unlink
      swap_tail test_releasable store_granted raise_local victim_local test_remote_flag
      test_local_victim lower_local fetch_add_ticket test_turn advance_local
  local_step-Quiet v here idle e = record {
    same_tail = ground arith;
    same_thread = λ k hk. ground (arith, v.behind i k here, v.next i k here);
  }
  local_step-Quiet v here p e = record {
    same_tail = ground arith;
    same_thread = λ k hk. ground (arith, v.behind i k here, v.next i k here);
  }

  pub remote_step-Quiet :
      Fifo side remote g s
      → side i ≡ remote
      → (p : Pc) → (s.thr i).pc ≡ p
      → Quiet side local s (remote_step p i s)
  unfolding remote_step reset exchange_round store_next load_ticket store_releasable
      test_to_get_ticket store_ticket test_next store_to_get_ticket test_granted test_unlink
      swap_tail test_releasable store_granted raise_remote victim_remote load_victim test_local_flag
      lower_remote fetch_ticket add_ticket test_turn advance_remote
  remote_step-Quiet v here idle e = record {
    same_tail = ground arith;
    same_thread = λ k hk. ground (arith, v.behind i k here, v.next i k here);
  }
  remote_step-Quiet v here p e = record {
    same_tail = ground arith;
    same_thread = λ k hk. ground (arith, v.behind i k here, v.next i k here);
  }
