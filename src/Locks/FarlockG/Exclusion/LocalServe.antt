-- ===== src/Locks/FarlockG/Exclusion/LocalServe.antt =====
-- The write of the turn by a local thread of include/locks/farlockg.h keeps the book of the tickets.
use farlock.Base.{ℕ, ◌<◌, ◌≡◌, arith, word, ◌-◌}
use farlock.Locks.Farlock.State.{Side, local, remote}
use farlock.Locks.Farlock.Fifo.Defs.{Line}
use farlock.Locks.FarlockG.State.{advance, System}
use farlock.Locks.FarlockG.Queue.{
  swap_tail, store_granted, exchange_tail, reset, store_next, load_valid, store_releasable,
  test_granted, test_unlink, test_releasable,
}
use farlock.Locks.FarlockG.Batch.{
  test_passed, test_kind, load_batch, start_budget, test_next, test_last, store_batch, store_budget,
  store_valid, test_again, store_init, keep_ticket,
}
use farlock.Locks.FarlockG.Tickets.{
  raise_local, victim_local, test_remote_flag, test_local_victim, lower_local, fetch_add_ticket,
  test_turn, test_valid, store_turn,
}
use farlock.Locks.FarlockG.Program.{common_step, local_step}
use farlock.Locks.FarlockG.Fifo.Defs.{Fifo}
use farlock.Locks.FarlockG.Exclusion.Peterson.{Peterson}
use farlock.Locks.FarlockG.Exclusion.Booking.{Book, Booked, serve}

module _ (side : ℕ → Side) (K : Side → ℕ) (fit : (σ : Side) → K σ < word - 1) {g h : Line}
    {s : System} (v : Fifo side local (K local) g s) (v2 : Fifo side remote (K remote) h s) (i : ℕ)
    (here : side i ≡ local) where
  module _ {b : Book} (w : Booked side K b g h s) (y : Peterson side K s)
      (e : (s.thr i).pc ≡ advance) (few : b.issued < word - 1) where
    pub local_served : Booked side K (serve b) g h (local_step (K local) advance i s)
    unfolding local_step common_step exchange_tail raise_local victim_local test_remote_flag
        test_local_victim lower_local fetch_add_ticket test_passed test_kind load_batch start_budget
        test_next test_last store_batch store_budget store_valid test_again store_init test_granted
        test_turn keep_ticket test_valid store_turn test_unlink test_releasable store_granted
        store_next load_valid store_releasable reset swap_tail
    local_served = record {
      next = ground (arith, w.next, w.fetched i, few, e);
      current = ground (arith, w.current, w.window i, w.turn i, w.stored i, few, e);
      below = ground (arith, w.turn i, w.window i, few, e);
      window = λ k has. ground (
        arith,
        w.window k,
        w.turn i,
        v.stage i here,
        v.stage k,
        v2.stage k,
        w.local_order i k here,
        w.apart i k,
        w.apart k i,
        v.apart i k here,
        few,
        e,
      );
      local_order = λ k l hk hl has has2 before.
          ground (
            arith,
            w.local_order k l hk hl,
            w.window k,
            v.stage k hk,
            v.stage l hl,
            before,
            few,
            e,
          );
      remote_order = λ k l hk hl has has2 before. ground (
        arith,
        w.remote_order k l hk hl,
        w.window k,
        v2.stage k hk,
        v2.stage l hl,
        before,
        few,
        e,
      );
      apart =
          λ k l hk hl has has2. ground (arith, w.apart k l hk hl, w.window k, w.window l, few, e);
      ticket = λ k lo hi. ground (arith, w.ticket k, w.next, w.fetched i, few, e);
      passed = λ k at lo hi. ground (arith, w.passed k, few, e);
      shared = λ k lo hi q. ground (arith, w.shared k, v.stage i here, few, e);
      stored = λ k lo hi. ground (arith, w.stored k, few, e);
      ready = λ k l at q. ground (arith, w.ready k l, w.ticket k, few, e);
      turn = λ k lo hi. ground (
        arith,
        w.turn k,
        w.turn i,
        v.stage i here,
        v.stage k,
        v2.stage k,
        w.apart i k,
        w.apart k i,
        v.apart i k here,
        few,
        e,
      );
      granted = λ k at hi q from. ground (
        arith,
        w.granted k,
        w.turn i,
        v.stage i here,
        v.stage k,
        v2.stage k,
        w.apart i k,
        w.apart k i,
        v.apart i k here,
        few,
        e,
      );
      linked = λ k l lo n q. ground (
        arith,
        w.linked k l,
        q,
        v.next k l,
        v2.next k l,
        v.stage k,
        v2.stage k,
        v.stage i here,
        few,
        e,
      );
      split = λ k hk q. ground (arith, w.split k, w.split i, few, e);
      fetched = λ k at. ground (arith, w.fetched k, few, e);
    }
