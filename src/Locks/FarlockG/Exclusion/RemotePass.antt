-- ===== src/Locks/FarlockG/Exclusion/RemotePass.antt =====
-- The write of the budget by a remote thread of include/locks/farlockg.h passes its ticket on.
use farlock.Base.{ℕ, ◌≤◌, ◌<◌, ◌≡◌, ◌≢◌, ℕ_discrete, sym, ◌∙◌, some, arith, word, ◌-◌}
use farlock.Locks.Farlock.State.{Side, local, remote}
use farlock.Locks.Farlock.Fifo.Defs.{Line}
use farlock.Locks.FarlockG.State.{pass_budget, System}
use farlock.Locks.FarlockG.Queue.{
  swap_tail, store_granted, exchange_round, reset, store_next, load_valid, store_releasable,
  test_granted, test_unlink, test_releasable,
}
use farlock.Locks.FarlockG.Batch.{
  test_passed, test_kind, load_batch, start_budget, test_next, test_last, store_batch, store_budget,
  store_valid, test_again, store_init, keep_ticket,
}
use farlock.Locks.FarlockG.Tickets.{
  raise_remote, victim_remote, load_victim, test_local_flag, lower_remote, fetch_ticket, add_ticket,
  test_turn, test_valid, store_turn,
}
use farlock.Locks.FarlockG.Program.{common_step, remote_step}
use farlock.Locks.FarlockG.Fifo.Defs.{rank, Fifo}
use farlock.Locks.FarlockG.Exclusion.Peterson.{Peterson, sole}
use farlock.Locks.FarlockG.Exclusion.Booking.{Book, Booked, pass}
use farlock.Locks.FarlockG.Exclusion.RemoteOthers.{remote-Others}

module _ (side : ℕ → Side) (K : Side → ℕ) (fit : (σ : Side) → K σ < word - 1) {g h : Line}
    {s : System} (v : Fifo side local (K local) g s) (v2 : Fifo side remote (K remote) h s) (i : ℕ)
    (here : side i ≡ remote) where
  module _ {b : Book} (w : Booked side K b g h s) (y : Peterson side K s)
      (e : (s.thr i).pc ≡ pass_budget) (j : ℕ) (n : (s.desc i).next ≡ some j) (apart : j ≢ i) where
    passed-same :
        (k l : ℕ)
        → ((remote_step (K remote) pass_budget i s).desc k).next ≡ some l
        → (s.desc k).next ≡ some l
    unfolding remote_step common_step exchange_round raise_remote victim_remote load_victim
        test_local_flag lower_remote fetch_ticket add_ticket test_passed test_kind load_batch
        start_budget test_next test_last store_batch store_budget store_valid test_again store_init
        test_granted test_turn keep_ticket test_valid store_turn test_unlink test_releasable
        store_granted store_next load_valid store_releasable reset swap_tail
    passed-same k l q = ground (arith, n, q)

    passed-only :
        (k l : ℕ) → k ≡ i → ((remote_step (K remote) pass_budget i s).desc k).next ≡ some l → l ≡ j
    passed-only k l it q =
        let at_i : (s.desc i).next ≡ some l = rw it at (passed-same k l q) in
        let both : some l ≡ some j = sym at_i ∙ n in ground (arith, both)

    passed-late : (k : ℕ) → 25 ≤ rank ((remote_step (K remote) pass_budget i s).thr k).pc → k ≢ j
    passed-late k lo it =
        let at_j : 25 ≤ rank ((remote_step (K remote) pass_budget i s).thr j).pc = rw it at lo in
        ground (
          arith,
          remote-Others side K fit v v2 i here pass_budget e j apart,
          at_j,
          v2.next i j here,
          n,
          v2.stage i here,
          v2.stage j,
        )

    passed-alone :
        (k l : ℕ)
        → k ≢ i
        → 25 ≤ rank ((remote_step (K remote) pass_budget i s).thr k).pc
        → ((remote_step (K remote) pass_budget i s).desc k).next ≡ some l
        → l ≢ j
    unfolding remote_step common_step exchange_round raise_remote victim_remote load_victim
        test_local_flag lower_remote fetch_ticket add_ticket test_passed test_kind load_batch
        start_budget test_next test_last store_batch store_budget store_valid test_again store_init
        test_granted test_turn keep_ticket test_valid store_turn test_unlink test_releasable
        store_granted store_next load_valid store_releasable reset swap_tail
    passed-alone k l ne lo q it =
        let at_k : (s.desc k).next ≡ some j = rw it at (passed-same k l q) in
        ground (
          arith,
          v2.next i j here,
          n,
          v2.next k j,
          v.next k j,
          v2.stage i here,
          v2.apart i k here,
          remote-Others side K fit v v2 i here pass_budget e k ne,
          lo,
          at_k,
        )

    pub remote_passed : Booked side K (pass b i j) g h (remote_step (K remote) pass_budget i s)
    unfolding remote_step common_step exchange_round raise_remote victim_remote load_victim
        test_local_flag lower_remote fetch_ticket add_ticket test_passed test_kind load_batch
        start_budget test_next test_last store_batch store_budget store_valid test_again store_init
        test_granted test_turn keep_ticket test_valid store_turn test_unlink test_releasable
        store_granted store_next load_valid store_releasable reset swap_tail
    remote_passed = record {
      next = ground (arith, w.next, w.fetched i, e, apart);
      current = ground (arith, w.current, e, apart);
      below = ground (arith, w.below, e, apart);
      window = λ k has. ground (arith, w.window k, w.window i, e, apart);
      local_order = λ k l hk hl has has2 before.
          ground (arith, w.local_order k l hk hl, before, v2.next i j here, n, e, apart);
      remote_order = λ k l hk hl has has2 before. ground (
        arith,
        w.remote_order k l hk hl,
        w.remote_order k i hk here,
        v2.stage k hk,
        v2.stage l hl,
        before,
        v2.next i j here,
        v2.stage i here,
        v2.stage j,
        n,
        v2.apart k i hk here,
        e,
        apart,
      );
      apart = λ k l hk hl has has2. ground (
        arith,
        w.apart k l hk hl,
        w.apart i l,
        w.apart k i,
        v2.next i j here,
        n,
        w.apart k i hk here,
        e,
        apart,
      );
      ticket = λ k lo hi.
          ground (arith, w.ticket k, v2.next i j here, v2.stage i here, v2.stage j, n, e, apart);
      passed = λ k at lo hi. ground (
        arith,
        w.passed k,
        w.ready i j,
        v2.next i j here,
        v2.stage i here,
        v2.stage j,
        n,
        e,
        apart,
      );
      shared = λ k lo hi q.
          ground (arith, w.shared k, v2.next i j here, v2.stage i here, v2.stage j, n, e, apart);
      stored = λ k lo hi.
          ground (arith, w.stored k, v2.next i j here, v2.stage i here, v2.stage j, n, e, apart);
      ready = λ k l at q. ground (
        arith,
        w.ready k l,
        v2.next i j here,
        v2.stage i here,
        v2.stage j,
        n,
        v2.next k l,
        v.next k l,
        v2.stage k,
        sole side remote (K remote) v2 i k here,
        e,
        apart,
      );
      turn = λ k lo hi.
          ground (arith, w.turn k, v2.next i j here, v2.stage i here, v2.stage j, n, e, apart);
      granted = λ k at hi q from.
          ground (arith, w.granted k, v2.next i j here, v2.stage i here, v2.stage j, n, e, apart);
      linked = λ k l lo n q. elim (ℕ_discrete k i) [
        | yes it ↦ ground (arith, it, passed-only k l it q, e, apart)
        | no ne ↦ ground (
          arith,
          w.linked k l,
          remote-Others side K fit v v2 i here pass_budget e k ne,
          q,
          passed-same k l q,
          passed-alone k l ne,
          passed-late k lo,
          lo,
          v2.next i j here,
          v2.stage i here,
          v2.stage j,
          n,
          e,
          apart,
        )
      ];
      split = λ k hk q. ground (arith, w.split k, w.split i, e, apart);
      fetched = λ k at. ground (arith, w.fetched k, e, apart);
    }
