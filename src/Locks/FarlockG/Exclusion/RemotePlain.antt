-- ===== src/Locks/FarlockG/Exclusion/RemotePlain.antt =====
-- A step of a remote thread of include/locks/farlockg.h that neither draws a ticket, nor passes one on,
-- nor moves the turn keeps the book of the tickets.
use farlock.Base.{◌⊎◌, ℕ, ◌≤◌, ◌<◌, ◌≡◌, ◌≢◌, ◌⊎◌, ℕ_discrete, arith, word, ◌-◌, true}
use farlock.Locks.Farlock.State.{Side, local, remote}
use farlock.Locks.Farlock.Fifo.Defs.{Line}
use farlock.Locks.FarlockG.State.{Pc, draw_write, pass_budget, advance, System}
use farlock.Locks.FarlockG.Queue.{
  swap_tail, store_granted, exchange_round, reset, store_next, load_valid, store_releasable,
  test_granted, test_unlink, test_releasable,
}
use farlock.Locks.FarlockG.Batch.{
  test_passed, test_kind, load_batch, start_budget, test_next, test_last, store_batch, store_budget,
  store_valid, test_again, store_init, keep_ticket,
}
use farlock.Locks.FarlockG.Tickets.{
  raise_remote, victim_remote, load_victim, test_local_flag, lower_remote, fetch_ticket, add_ticket,
  test_turn, test_valid, store_turn,
}
use farlock.Locks.FarlockG.Program.{common_step, remote_step}
use farlock.Locks.FarlockG.Fifo.Defs.{rank, Fifo}
use farlock.Locks.FarlockG.Exclusion.Peterson.{sole}
use farlock.Locks.FarlockG.Exclusion.Booking.{Book, Has, Sorted, Booked, Others}
use farlock.Locks.FarlockG.Exclusion.RemoteOthers.{remote-Others}

module _ (side : ℕ → Side) (K : Side → ℕ) (fit : (σ : Side) → K σ < word - 1) {g h : Line}
    {s : System} (v : Fifo side local (K local) g s) (v2 : Fifo side remote (K remote) h s) (i : ℕ)
    (here : side i ≡ remote) where
  module _ {b : Book} (w : Booked side K b g h s) (p : Pc) (e : (s.thr i).pc ≡ p)
      (no_draw : p ≢ draw_write) (no_pass : p ≢ pass_budget) (no_serve : p ≢ advance) where
    others : (k : ℕ) → k ≢ i → Others side K remote p s (remote_step (K remote) p i s) i k
    others k ne = remote-Others side K fit v v2 i here p e k ne

    remote-Has : (k : ℕ) → Has side K (remote_step (K remote) p i s) k → Has side K s k
    unfolding remote_step common_step exchange_round raise_remote victim_remote load_victim
        test_local_flag lower_remote fetch_ticket add_ticket test_passed test_kind load_batch
        start_budget test_next test_last store_batch store_budget store_valid test_again store_init
        test_granted test_turn keep_ticket test_valid store_turn test_unlink test_releasable
        store_granted store_next load_valid store_releasable reset swap_tail
    remote-Has k has = elim (ℕ_discrete k i) [
      | yes it ↦ ground (arith, it, has, v2.stage i here)
      | no ne ↦ ground (arith, has, others k ne)
    ]

    remote-valid :
        (k : ℕ)
        → side k ≡ remote
        → Has side K (remote_step (K remote) p i s) k
        → ((remote_step (K remote) p i s).desc k).ticket_valid ≡ true
        → ((s.desc k).ticket_valid ≡ true) ⊎ ((8 ≤ rank (s.thr k).pc) × (rank (s.thr k).pc ≤ 22))
    unfolding remote_step common_step exchange_round raise_remote victim_remote load_victim
        test_local_flag lower_remote fetch_ticket add_ticket test_passed test_kind load_batch
        start_budget test_next test_last store_batch store_budget store_valid test_again store_init
        test_granted test_turn keep_ticket test_valid store_turn test_unlink test_releasable
        store_granted store_next load_valid store_releasable reset swap_tail
    remote-valid k hk has q = elim (ℕ_discrete k i) [
      | yes it ↦ ground (arith, it, has, v2.stage i here)
      | no ne ↦ ground (arith, others k ne)
    ]

    remote-Sorted : Sorted side K remote h b (remote_step (K remote) p i s)
    remote-Sorted k l hk hl has has2 before = ground (
      arith,
      remote-Has k has,
      remote-Has l has2,
      remote-valid k hk has,
      w.remote_order k l hk hl,
      before,
      v2.stage k hk,
      v2.stage l hl,
    )

    remote-other-Sorted : Sorted side K local g b (remote_step (K remote) p i s)
    remote-other-Sorted k l hk hl has has2 before =
        ground
          (arith, remote-Has k has, remote-Has l has2, others k, w.local_order k l hk hl, before)

    pub remote_other : Booked side K b g h (remote_step (K remote) p i s)
    unfolding remote_step common_step exchange_round raise_remote victim_remote load_victim
        test_local_flag lower_remote fetch_ticket add_ticket test_passed test_kind load_batch
        start_budget test_next test_last store_batch store_budget store_valid test_again store_init
        test_granted test_turn keep_ticket test_valid store_turn test_unlink test_releasable
        store_granted store_next load_valid store_releasable reset swap_tail
    remote_other = record {
      next = ground (arith, w.next);
      current = ground (arith, w.current);
      below = w.below;
      window = λ k has. w.window k (remote-Has k has);
      local_order = remote-other-Sorted;
      remote_order = remote-Sorted;
      apart = λ a c ha hc has has2. w.apart a c ha hc (remote-Has a has) (remote-Has c has2);
      ticket = λ k lo hi. elim (ℕ_discrete k i) [
        | yes it ↦ ground (arith, it, w.ticket i, w.passed i, v2.stage i here)
        | no ne ↦ ground (arith, w.ticket k, others k ne)
      ];
      passed = λ k at lo hi. elim (ℕ_discrete k i) [
        | yes it ↦ ground (arith, it, w.passed i, v2.stage i here)
        | no ne ↦ ground (arith, w.passed k, others k ne)
      ];
      shared = λ k lo hi q. elim (ℕ_discrete k i) [
        | yes it ↦ ground (arith, it, w.passed i, w.shared i, w.ticket i, v2.stage i here)
        | no ne ↦ ground (arith, w.shared k, others k ne)
      ];
      stored = λ k lo hi. elim (ℕ_discrete k i) [
        | yes it ↦ ground (arith, it, w.stored i, w.shared i, w.ticket i, v2.stage i here)
        | no ne ↦ ground (arith, w.stored k, others k ne)
      ];
      ready = λ k l at q. elim (ℕ_discrete k i) [
        | yes it ↦ ground (arith, it, w.ready i l, w.ticket i, v2.stage i here)
        | no ne ↦ ground (
          arith,
          w.ready k l,
          others k ne,
          others l,
          q,
          v.next k l,
          v2.next k l,
          v.stage k,
          v2.stage k,
          v2.stage i here,
          v2.behind i k here,
          sole side remote (K remote) v2 i k here,
        )
      ];
      turn = λ k lo hi. elim (ℕ_discrete k i) [
        | yes it ↦ ground (arith, it, w.turn i, w.granted i, w.ticket i, w.current, v2.stage i here)
        | no ne ↦ ground (arith, w.turn k, others k ne)
      ];
      granted = λ k at hi q from. elim (ℕ_discrete k i) [
        | yes it ↦ ground (arith, it, w.granted i, v2.stage i here)
        | no ne ↦ ground (
          arith,
          w.granted k,
          others k ne,
          w.linked i k,
          w.turn i,
          v2.next i k here,
          v2.stage k,
          v2.stage i here,
        )
      ];
      linked = λ k l lo n q. elim (ℕ_discrete k i) [
        | yes it ↦ ground (arith, it, w.linked i l, v2.stage i here)
        | no ne ↦ ground (arith, w.linked k l, others k ne, v2.stage k, v2.behind i k here)
      ];
      split = λ k hk q. elim (ℕ_discrete k i) [
        | yes it ↦ ground (arith, it, w.split i)
        | no ne ↦ ground (arith, w.split k hk, others k ne)
      ];
      fetched = λ k at. elim (ℕ_discrete k i) [
        | yes it ↦ ground (arith, it, w.fetched i)
        | no ne ↦ ground (arith, w.fetched k, others k ne)
      ];
    }
