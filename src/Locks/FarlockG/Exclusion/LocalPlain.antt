-- ===== src/Locks/FarlockG/Exclusion/LocalPlain.antt =====
-- A step of a local thread of include/locks/farlockg.h that neither draws a ticket, nor passes one on,
-- nor moves the turn keeps the book of the tickets.
use farlock.Base.{◌⊎◌, ℕ, ◌≤◌, ◌<◌, ◌≡◌, ◌≢◌, ◌⊎◌, ℕ_discrete, arith, word, ◌-◌, true}
use farlock.Locks.Farlock.State.{Side, local, remote}
use farlock.Locks.Farlock.Fifo.Defs.{Line}
use farlock.Locks.FarlockG.State.{Pc, draw, pass_budget, advance, System}
use farlock.Locks.FarlockG.Queue.{
  swap_tail, store_granted, exchange_tail, reset, store_next, load_valid, store_releasable,
  test_granted, test_unlink, test_releasable,
}
use farlock.Locks.FarlockG.Batch.{
  test_passed, test_kind, load_batch, start_budget, test_next, test_last, store_batch, store_budget,
  store_valid, test_again, store_init, keep_ticket,
}
use farlock.Locks.FarlockG.Tickets.{
  raise_local, victim_local, test_remote_flag, test_local_victim, lower_local, fetch_add_ticket,
  test_turn, test_valid, store_turn,
}
use farlock.Locks.FarlockG.Program.{common_step, local_step}
use farlock.Locks.FarlockG.Fifo.Defs.{rank, Fifo}
use farlock.Locks.FarlockG.Exclusion.Peterson.{sole}
use farlock.Locks.FarlockG.Exclusion.Booking.{Book, Has, Sorted, Booked, Others}
use farlock.Locks.FarlockG.Exclusion.LocalOthers.{local-Others}

module _ (side : ℕ → Side) (K : Side → ℕ) (fit : (σ : Side) → K σ < word - 1) {g h : Line}
    {s : System} (v : Fifo side local (K local) g s) (v2 : Fifo side remote (K remote) h s) (i : ℕ)
    (here : side i ≡ local) where
  module _ {b : Book} (w : Booked side K b g h s) (p : Pc) (e : (s.thr i).pc ≡ p)
      (no_draw : p ≢ draw) (no_pass : p ≢ pass_budget) (no_serve : p ≢ advance) where
    others : (k : ℕ) → k ≢ i → Others side K local p s (local_step (K local) p i s) i k
    others k ne = local-Others side K fit v v2 i here p e k ne

    local-Has : (k : ℕ) → Has side K (local_step (K local) p i s) k → Has side K s k
    unfolding local_step common_step exchange_tail raise_local victim_local test_remote_flag
        test_local_victim lower_local fetch_add_ticket test_passed test_kind load_batch start_budget
        test_next test_last store_batch store_budget store_valid test_again store_init test_granted
        test_turn keep_ticket test_valid store_turn test_unlink test_releasable store_granted
        store_next load_valid store_releasable reset swap_tail
    local-Has k has = elim (ℕ_discrete k i) [
      | yes it ↦ ground (arith, it, has, v.stage i here)
      | no ne ↦ ground (arith, has, others k ne)
    ]

    local-valid :
        (k : ℕ)
        → side k ≡ local
        → Has side K (local_step (K local) p i s) k
        → ((local_step (K local) p i s).desc k).ticket_valid ≡ true
        → ((s.desc k).ticket_valid ≡ true) ⊎ ((8 ≤ rank (s.thr k).pc) × (rank (s.thr k).pc ≤ 22))
    unfolding local_step common_step exchange_tail raise_local victim_local test_remote_flag
        test_local_victim lower_local fetch_add_ticket test_passed test_kind load_batch start_budget
        test_next test_last store_batch store_budget store_valid test_again store_init test_granted
        test_turn keep_ticket test_valid store_turn test_unlink test_releasable store_granted
        store_next load_valid store_releasable reset swap_tail
    local-valid k hk has q = elim (ℕ_discrete k i) [
      | yes it ↦ ground (arith, it, has, v.stage i here)
      | no ne ↦ ground (arith, others k ne)
    ]

    local-Sorted : Sorted side K local g b (local_step (K local) p i s)
    local-Sorted k l hk hl has has2 before = ground (
      arith,
      local-Has k has,
      local-Has l has2,
      local-valid k hk has,
      w.local_order k l hk hl,
      before,
      v.stage k hk,
      v.stage l hl,
    )

    local-other-Sorted : Sorted side K remote h b (local_step (K local) p i s)
    local-other-Sorted k l hk hl has has2 before =
        ground
          (arith, local-Has k has, local-Has l has2, others k, w.remote_order k l hk hl, before)

    pub local_other : Booked side K b g h (local_step (K local) p i s)
    unfolding local_step common_step exchange_tail raise_local victim_local test_remote_flag
        test_local_victim lower_local fetch_add_ticket test_passed test_kind load_batch start_budget
        test_next test_last store_batch store_budget store_valid test_again store_init test_granted
        test_turn keep_ticket test_valid store_turn test_unlink test_releasable store_granted
        store_next load_valid store_releasable reset swap_tail
    local_other = record {
      next = ground (arith, w.next);
      current = ground (arith, w.current);
      below = w.below;
      window = λ k has. w.window k (local-Has k has);
      local_order = local-Sorted;
      remote_order = local-other-Sorted;
      apart = λ a c ha hc has has2. w.apart a c ha hc (local-Has a has) (local-Has c has2);
      ticket = λ k lo hi. elim (ℕ_discrete k i) [
        | yes it ↦ ground (arith, it, w.ticket i, w.passed i, v.stage i here)
        | no ne ↦ ground (arith, w.ticket k, others k ne)
      ];
      passed = λ k at lo hi. elim (ℕ_discrete k i) [
        | yes it ↦ ground (arith, it, w.passed i, v.stage i here)
        | no ne ↦ ground (arith, w.passed k, others k ne)
      ];
      shared = λ k lo hi q. elim (ℕ_discrete k i) [
        | yes it ↦ ground (arith, it, w.passed i, w.shared i, w.ticket i, v.stage i here)
        | no ne ↦ ground (arith, w.shared k, others k ne)
      ];
      stored = λ k lo hi. elim (ℕ_discrete k i) [
        | yes it ↦ ground (arith, it, w.stored i, w.shared i, w.ticket i, v.stage i here)
        | no ne ↦ ground (arith, w.stored k, others k ne)
      ];
      ready = λ k l at q. elim (ℕ_discrete k i) [
        | yes it ↦ ground (arith, it, w.ready i l, w.ticket i, v.stage i here)
        | no ne ↦ ground (
          arith,
          w.ready k l,
          others k ne,
          others l,
          q,
          v.next k l,
          v2.next k l,
          v.stage k,
          v2.stage k,
          v.stage i here,
          v.behind i k here,
          sole side local (K local) v i k here,
        )
      ];
      turn = λ k lo hi. elim (ℕ_discrete k i) [
        | yes it ↦ ground (arith, it, w.turn i, w.granted i, w.ticket i, w.current, v.stage i here)
        | no ne ↦ ground (arith, w.turn k, others k ne)
      ];
      granted = λ k at hi q from. elim (ℕ_discrete k i) [
        | yes it ↦ ground (arith, it, w.granted i, v.stage i here)
        | no ne ↦ ground (
          arith,
          w.granted k,
          others k ne,
          w.linked i k,
          w.turn i,
          v.next i k here,
          v.stage k,
          v.stage i here,
        )
      ];
      linked = λ k l lo n q. elim (ℕ_discrete k i) [
        | yes it ↦ ground (arith, it, w.linked i l, v.stage i here)
        | no ne ↦ ground (arith, w.linked k l, others k ne, v.stage k, v.behind i k here)
      ];
      split = λ k hk q. elim (ℕ_discrete k i) [
        | yes it ↦ ground (arith, it, w.split i)
        | no ne ↦ ground (arith, w.split k hk, others k ne)
      ];
      fetched = λ k at. elim (ℕ_discrete k i) [
        | yes it ↦ ground (arith, it, w.fetched i)
        | no ne ↦ ground (arith, w.fetched k, others k ne)
      ];
    }
