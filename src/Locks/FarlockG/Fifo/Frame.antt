-- ===== src/Locks/FarlockG/Fifo/Frame.antt =====
-- A thread of one side of include/locks/farlockg.h writes nothing that belongs to the line of the
-- other side.
use farlock.Base.{ℕ, ◌≡◌, sym, ◌∙◌, arith}
use farlock.Locks.Farlock.State.{Side, local, remote}
use farlock.Locks.Farlock.Fifo.Defs.{Line}
use farlock.Locks.FarlockG.State.{Pc, System}
use farlock.Locks.FarlockG.Queue.{
  tail, swap_tail, store_granted, exchange_tail, exchange_round, reset, store_next, load_valid,
  store_releasable, test_granted, test_unlink, test_releasable,
}
use farlock.Locks.FarlockG.Batch.{
  test_passed, test_kind, load_batch, start_budget, test_next, test_last, store_batch, store_budget,
  store_valid, test_again, store_init, keep_ticket,
}
use farlock.Locks.FarlockG.Tickets.{
  raise_local, victim_local, test_remote_flag, test_local_victim, lower_local, raise_remote,
  victim_remote, load_victim, test_local_flag, lower_remote, fetch_add_ticket, fetch_ticket,
  add_ticket, test_turn, test_valid, store_turn,
}
use farlock.Locks.FarlockG.Program.{common_step, local_step, remote_step}
use farlock.Locks.FarlockG.Fifo.Defs.{Fifo}

-- What the line of side `τ` is made of is the same in `s'`.
pub record Quiet (side : ℕ → Side) (τ : Side) (s s' : System) : Type 0 where
  pub same_tail : tail τ s'.lock ≡ tail τ s.lock
  pub same_thread : (k : ℕ) → side k ≡ τ → (s'.thr k ≡ s.thr k) × (s'.desc k ≡ s.desc k)

module _ (side : ℕ → Side) (K : ℕ) {g : Line} {s : System} (i : ℕ) where
  pub local_step-Quiet :
      Fifo side local K g s
      → side i ≡ local
      → (p : Pc) → (s.thr i).pc ≡ p
      → Quiet side remote s (local_step K p i s)
  unfolding local_step common_step exchange_tail raise_local victim_local test_remote_flag
      test_local_victim lower_local fetch_add_ticket test_passed test_kind load_batch start_budget
      test_next test_last store_batch store_budget store_valid test_again store_init test_granted
      test_turn keep_ticket test_valid store_turn test_unlink test_releasable store_granted
      store_next load_valid store_releasable reset swap_tail
  local_step-Quiet v here p e = record {
    same_tail = ground arith;
    same_thread = λ k hk. ground (arith, v.behind i k here, v.next i k here);
  }

  pub remote_step-Quiet :
      Fifo side remote K g s
      → side i ≡ remote
      → (p : Pc) → (s.thr i).pc ≡ p
      → Quiet side local s (remote_step K p i s)
  unfolding remote_step common_step exchange_round raise_remote victim_remote load_victim
      test_local_flag lower_remote fetch_ticket add_ticket test_passed test_kind load_batch
      start_budget test_next test_last store_batch store_budget store_valid test_again store_init
      test_granted test_turn keep_ticket test_valid store_turn test_unlink test_releasable
      store_granted store_next load_valid store_releasable reset swap_tail
  remote_step-Quiet v here p e = record {
    same_tail = ground arith;
    same_thread = λ k hk. ground (arith, v.behind i k here, v.next i k here);
  }

-- Then the line of side `τ` is as before.
pub frame :
    (side : ℕ → Side) (τ : Side) (K : ℕ) {g : Line} {s s' : System}
    → Fifo side τ K g s
    → Quiet side τ s s'
    → Fifo side τ K g s'
frame side τ K {g} {s} {s'} v q = record {
  order = v.order;
  tail_none = λ e. v.tail_none (sym q.same_tail ∙ e);
  tail_some = λ k e.
      let was = v.tail_some k (sym q.same_tail ∙ e) in ground (arith, was, q.same_thread k was.0);
  stage = λ k hk. rw ((q.same_thread k hk).0, (q.same_thread k hk).1) (v.stage k hk);
  apart = λ a c ha hc ra rc e.
      ground (arith, v.apart a c ha hc, q.same_thread a ha, q.same_thread c hc);
  behind = λ a c ha lo hi e.
      let was =
        v.behind a c ha (ground (arith, q.same_thread a ha)) (ground (arith, q.same_thread a ha))
          (ground (arith, q.same_thread a ha)) in
      ground (arith, was, q.same_thread a ha, q.same_thread c was.of_side);
  next = λ a k ha ra e.
      let was =
        v.next a k ha (ground (arith, q.same_thread a ha)) (ground (arith, q.same_thread a ha)) in
      ground (arith, was, q.same_thread a ha, q.same_thread k was.of_side);
}
