-- ===== src/Locks/FarlockG/Exclusion/LocalPass.antt =====
-- The write of the budget by a local thread of include/locks/farlockg.h passes its ticket on.
use farlock.Base.{ℕ, ◌≤◌, ◌<◌, ◌≡◌, ◌≢◌, ℕ_discrete, sym, ◌∙◌, some, arith, word, ◌-◌}
use farlock.Locks.Farlock.State.{Side, local, remote}
use farlock.Locks.Farlock.Fifo.Defs.{Line}
use farlock.Locks.FarlockG.State.{pass_budget, System}
use farlock.Locks.FarlockG.Queue.{
  swap_tail, store_granted, exchange_tail, reset, store_next, load_valid, store_releasable,
  test_granted, test_unlink, test_releasable,
}
use farlock.Locks.FarlockG.Batch.{
  test_passed, test_kind, load_batch, start_budget, test_next, test_last, store_batch, store_budget,
  store_valid, test_again, store_init, keep_ticket,
}
use farlock.Locks.FarlockG.Tickets.{
  raise_local, victim_local, test_remote_flag, test_local_victim, lower_local, fetch_add_ticket,
  test_turn, test_valid, store_turn,
}
use farlock.Locks.FarlockG.Program.{common_step, local_step}
use farlock.Locks.FarlockG.Fifo.Defs.{rank, Fifo}
use farlock.Locks.FarlockG.Exclusion.Peterson.{Peterson, sole}
use farlock.Locks.FarlockG.Exclusion.Booking.{Book, Booked, pass}
use farlock.Locks.FarlockG.Exclusion.LocalOthers.{local-Others}

module _ (side : ℕ → Side) (K : Side → ℕ) (fit : (σ : Side) → K σ < word - 1) {g h : Line}
    {s : System} (v : Fifo side local (K local) g s) (v2 : Fifo side remote (K remote) h s) (i : ℕ)
    (here : side i ≡ local) where
  module _ {b : Book} (w : Booked side K b g h s) (y : Peterson side K s)
      (e : (s.thr i).pc ≡ pass_budget) (j : ℕ) (n : (s.desc i).next ≡ some j) (apart : j ≢ i) where
    passed-same :
        (k l : ℕ)
        → ((local_step (K local) pass_budget i s).desc k).next ≡ some l
        → (s.desc k).next ≡ some l
    unfolding local_step common_step exchange_tail raise_local victim_local test_remote_flag
        test_local_victim lower_local fetch_add_ticket test_passed test_kind load_batch start_budget
        test_next test_last store_batch store_budget store_valid test_again store_init test_granted
        test_turn keep_ticket test_valid store_turn test_unlink test_releasable store_granted
        store_next load_valid store_releasable reset swap_tail
    passed-same k l q = ground (arith, n, q)

    passed-only :
        (k l : ℕ) → k ≡ i → ((local_step (K local) pass_budget i s).desc k).next ≡ some l → l ≡ j
    passed-only k l it q =
        let at_i : (s.desc i).next ≡ some l = rw it at (passed-same k l q) in
        let both : some l ≡ some j = sym at_i ∙ n in ground (arith, both)

    passed-late : (k : ℕ) → 25 ≤ rank ((local_step (K local) pass_budget i s).thr k).pc → k ≢ j
    passed-late k lo it =
        let at_j : 25 ≤ rank ((local_step (K local) pass_budget i s).thr j).pc = rw it at lo in
        ground (
          arith,
          local-Others side K fit v v2 i here pass_budget e j apart,
          at_j,
          v.next i j here,
          n,
          v.stage i here,
          v.stage j,
        )

    passed-alone :
        (k l : ℕ)
        → k ≢ i
        → 25 ≤ rank ((local_step (K local) pass_budget i s).thr k).pc
        → ((local_step (K local) pass_budget i s).desc k).next ≡ some l
        → l ≢ j
    unfolding local_step common_step exchange_tail raise_local victim_local test_remote_flag
        test_local_victim lower_local fetch_add_ticket test_passed test_kind load_batch start_budget
        test_next test_last store_batch store_budget store_valid test_again store_init test_granted
        test_turn keep_ticket test_valid store_turn test_unlink test_releasable store_granted
        store_next load_valid store_releasable reset swap_tail
    passed-alone k l ne lo q it =
        let at_k : (s.desc k).next ≡ some j = rw it at (passed-same k l q) in
        ground (
          arith,
          v.next i j here,
          n,
          v.next k j,
          v2.next k j,
          v.stage i here,
          v.apart i k here,
          local-Others side K fit v v2 i here pass_budget e k ne,
          lo,
          at_k,
        )

    pub local_passed : Booked side K (pass b i j) g h (local_step (K local) pass_budget i s)
    unfolding local_step common_step exchange_tail raise_local victim_local test_remote_flag
        test_local_victim lower_local fetch_add_ticket test_passed test_kind load_batch start_budget
        test_next test_last store_batch store_budget store_valid test_again store_init test_granted
        test_turn keep_ticket test_valid store_turn test_unlink test_releasable store_granted
        store_next load_valid store_releasable reset swap_tail
    local_passed = record {
      next = ground (arith, w.next, w.fetched i, e, apart);
      current = ground (arith, w.current, e, apart);
      below = ground (arith, w.below, e, apart);
      window = λ k has. ground (arith, w.window k, w.window i, e, apart);
      local_order = λ k l hk hl has has2 before. ground (
        arith,
        w.local_order k l hk hl,
        w.local_order k i hk here,
        v.stage k hk,
        v.stage l hl,
        before,
        v.next i j here,
        v.stage i here,
        v.stage j,
        n,
        v.apart k i hk here,
        e,
        apart,
      );
      remote_order = λ k l hk hl has has2 before.
          ground (arith, w.remote_order k l hk hl, before, v.next i j here, n, e, apart);
      apart = λ k l hk hl has has2. ground (
        arith,
        w.apart k l hk hl,
        w.apart i l,
        w.apart k i,
        v.next i j here,
        n,
        w.apart i l here hl,
        e,
        apart,
      );
      ticket = λ k lo hi.
          ground (arith, w.ticket k, v.next i j here, v.stage i here, v.stage j, n, e, apart);
      passed = λ k at lo hi.
          ground (
            arith,
            w.passed k,
            w.ready i j,
            v.next i j here,
            v.stage i here,
            v.stage j,
            n,
            e,
            apart,
          );
      shared = λ k lo hi q.
          ground (arith, w.shared k, v.next i j here, v.stage i here, v.stage j, n, e, apart);
      stored = λ k lo hi.
          ground (arith, w.stored k, v.next i j here, v.stage i here, v.stage j, n, e, apart);
      ready = λ k l at q. ground (
        arith,
        w.ready k l,
        v.next i j here,
        v.stage i here,
        v.stage j,
        n,
        v.next k l,
        v2.next k l,
        v.stage k,
        sole side local (K local) v i k here,
        e,
        apart,
      );
      turn = λ k lo hi.
          ground (arith, w.turn k, v.next i j here, v.stage i here, v.stage j, n, e, apart);
      granted = λ k at hi q from.
          ground (arith, w.granted k, v.next i j here, v.stage i here, v.stage j, n, e, apart);
      linked = λ k l lo n q. elim (ℕ_discrete k i) [
        | yes it ↦ ground (arith, it, passed-only k l it q, e, apart)
        | no ne ↦ ground (
          arith,
          w.linked k l,
          local-Others side K fit v v2 i here pass_budget e k ne,
          q,
          passed-same k l q,
          passed-alone k l ne,
          passed-late k lo,
          lo,
          v.next i j here,
          v.stage i here,
          v.stage j,
          n,
          e,
          apart,
        )
      ];
      split = λ k hk q. ground (arith, w.split k, w.split i, e, apart);
      fetched = λ k at. ground (arith, w.fetched k, e, apart);
    }
