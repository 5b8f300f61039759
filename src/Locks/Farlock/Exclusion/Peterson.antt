-- ===== src/Locks/Farlock/Exclusion/Peterson.antt =====
-- Peterson's algorithm between the two sides: a local and a remote thread never draw a ticket at once.
use farlock.Base.{ℕ, ◌≤◌, ◌≡◌, ◌≢◌, true, arith}
use farlock.Locks.Farlock.State.{Side, local, remote, Pc, crashed, System, init}
use farlock.Locks.Farlock.Queue.{
  reset, exchange_tail, exchange_round, store_next, load_ticket, store_releasable,
  test_to_get_ticket, store_ticket, test_next, store_to_get_ticket, test_granted, test_unlink,
  swap_tail, test_releasable, store_granted,
}
use farlock.Locks.Farlock.Tickets.{
  raise_local, victim_local, test_remote_flag, test_local_victim, lower_local, raise_remote,
  victim_remote, load_victim, test_local_flag, lower_remote, fetch_add_ticket, fetch_ticket,
  add_ticket, test_turn, advance_local, advance_remote,
}
use farlock.Locks.Farlock.Program.{local_step, remote_step}
use farlock.Locks.Farlock.Fifo.Defs.{rank, Line, Fifo}

-- A thread contends from its raised flag to the lowered one, and draws once it has passed the loop.
pub record Peterson (side : ℕ → Side) (s : System) : Type 0 where
  pub local_raised :
      (i : ℕ)
      → side i ≡ local
      → 7 ≤ rank (s.thr i).pc
      → rank (s.thr i).pc ≤ 12
      → s.lock.local_flag ≡ true
  pub remote_raised :
      (i : ℕ)
      → side i ≡ remote
      → 7 ≤ rank (s.thr i).pc
      → rank (s.thr i).pc ≤ 12
      → s.lock.remote_flag ≡ true
  pub victims : s.lock.victim ≤ 2
  pub chosen : (i : ℕ) → 8 ≤ rank (s.thr i).pc → rank (s.thr i).pc ≤ 9 → 1 ≤ s.lock.victim
  pub current :
      (i : ℕ) → side i ≡ remote → rank (s.thr i).pc ≡ 8 → (s.thr i).seen ≢ 2 → s.lock.victim ≢ 2
  pub remote_waits :
      (i j : ℕ)
      → side i ≡ local
      → side j ≡ remote
      → 10 ≤ rank (s.thr i).pc
      → rank (s.thr i).pc ≤ 12
      → 8 ≤ rank (s.thr j).pc
      → rank (s.thr j).pc ≤ 9
      → s.lock.victim ≡ 2
  pub local_waits :
      (i j : ℕ)
      → side i ≡ local
      → side j ≡ remote
      → 10 ≤ rank (s.thr j).pc
      → rank (s.thr j).pc ≤ 12
      → 8 ≤ rank (s.thr i).pc
      → rank (s.thr i).pc ≤ 9
      → s.lock.victim ≡ 1
  pub exclusive :
      (i j : ℕ)
      → side i ≡ local
      → side j ≡ remote
      → 10 ≤ rank (s.thr i).pc
      → rank (s.thr i).pc ≤ 12
      → 10 ≤ rank (s.thr j).pc
      → rank (s.thr j).pc ≤ 12
      → ⊥

-- One thread of a side at a time has the line's next number to draw.
pub sole :
    (side : ℕ → Side) (σ : Side) {g : Line} {s : System}
    → Fifo side σ g s
    → (i k : ℕ) → side i ≡ σ
    → side k ≡ σ
    → 6 ≤ rank (s.thr i).pc
    → rank (s.thr i).pc ≤ 13
    → 6 ≤ rank (s.thr k).pc
    → rank (s.thr k).pc ≤ 13
    → i ≡ k
sole side σ v i k hi hk lo lo' up up' =
    ground (arith, v.apart i k hi hk, v.stage i hi, v.stage k hk)

module _ (side : ℕ → Side) {g : Line} {s : System} (i : ℕ) where
  pub local_step-Peterson :
      Fifo side local g s
      → Peterson side s
      → side i ≡ local
      → (p : Pc) → (s.thr i).pc ≡ p
      → Peterson side (local_step p i s)
  unfolding local_step reset exchange_tail store_next load_ticket store_releasable
      test_to_get_ticket store_ticket test_next store_to_get_ticket test_granted test_unlink
      swap_tail test_releasable store_granted raise_local victim_local test_remote_flag
      test_local_victim lower_local fetch_add_ticket test_turn advance_local
  local_step-Peterson v w here crashed e = w
  local_step-Peterson v w here p e = record {
    local_raised = λ k hk lo hi. ground (arith, w.local_raised k hk, sole side local v i k here hk);
    remote_raised = λ k hk lo hi. ground (arith, w.remote_raised k hk);
    victims = ground (arith, w.victims);
    chosen = λ k lo hi. ground (arith, w.chosen k);
    current = λ k hk at q. ground (arith, w.current k hk);
    remote_waits = λ a c ha hc lo hi lo' hi'. ground (
      arith,
      w.remote_waits a c ha hc,
      w.remote_raised c hc,
      w.chosen i,
      w.chosen c,
      w.victims,
      sole side local v i a here ha,
    );
    local_waits = λ a c ha hc lo hi lo' hi'. ground (arith, w.local_waits a c ha hc);
    exclusive = λ a c ha hc lo hi lo' hi'.
        ground (arith, w.exclusive a c ha hc, w.remote_raised c hc, w.local_waits a c ha hc);
  }

  pub remote_step-Peterson :
      Fifo side remote g s
      → Peterson side s
      → side i ≡ remote
      → (p : Pc) → (s.thr i).pc ≡ p
      → Peterson side (remote_step p i s)
  unfolding remote_step reset exchange_round store_next load_ticket store_releasable
      test_to_get_ticket store_ticket test_next store_to_get_ticket test_granted test_unlink
      swap_tail test_releasable store_granted raise_remote victim_remote load_victim test_local_flag
      lower_remote fetch_ticket add_ticket test_turn advance_remote
  remote_step-Peterson v w here crashed e = w
  remote_step-Peterson v w here p e = record {
    local_raised = λ k hk lo hi. ground (arith, w.local_raised k hk);
    remote_raised =
        λ k hk lo hi. ground (arith, w.remote_raised k hk, sole side remote v i k here hk);
    victims = ground (arith, w.victims);
    chosen = λ k lo hi. ground (arith, w.chosen k);
    current = λ k hk at q. ground (arith, w.current k hk, sole side remote v i k here hk);
    remote_waits = λ a c ha hc lo hi lo' hi'. ground (arith, w.remote_waits a c ha hc);
    local_waits = λ a c ha hc lo hi lo' hi'. ground (
      arith,
      w.local_waits a c ha hc,
      w.local_raised a ha,
      w.current i here,
      w.chosen a,
      w.victims,
      sole side remote v i c here hc,
    );
    exclusive = λ a c ha hc lo hi lo' hi'. ground (
      arith,
      w.exclusive a c ha hc,
      w.local_raised a ha,
      w.remote_waits a c ha hc,
      w.current i here,
    );
  }

pub init-Peterson : (side : ℕ → Side) → Peterson side init
init-Peterson side = record {
  local_raised = λ k hk lo hi. absurd (omega arith);
  remote_raised = λ k hk lo hi. absurd (omega arith);
  victims = omega arith;
  chosen = λ k lo hi. absurd (omega arith);
  current = λ k hk at q. absurd (omega arith);
  remote_waits = λ a c ha hc lo hi lo' hi'. absurd (omega arith);
  local_waits = λ a c ha hc lo hi lo' hi'. absurd (omega arith);
  exclusive = λ a c ha hc lo hi lo' hi'. absurd (omega arith);
}
