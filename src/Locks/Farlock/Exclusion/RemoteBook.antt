-- ===== src/Locks/Farlock/Exclusion/RemoteBook.antt =====
-- A step of a remote thread keeps the book of the tickets.
use farlock.Base.{ℕ, ◌≤◌, ◌<◌, ◌≡◌, ◌≢◌, arith, word}
use farlock.Base.Family.{total-le}
use farlock.Locks.Farlock.State.{Side, remote, Pc, draw_write, holding, crashed, System}
use farlock.Locks.Farlock.Queue.{
  reset, exchange_round, store_next, load_ticket, store_releasable, test_to_get_ticket,
  store_ticket, test_next, store_to_get_ticket, test_granted, test_unlink, swap_tail,
  test_releasable, store_granted,
}
use farlock.Locks.Farlock.Tickets.{
  raise_remote, victim_remote, load_victim, test_local_flag, lower_remote, fetch_ticket, add_ticket,
  test_turn, advance_remote,
}
use farlock.Locks.Farlock.Program.{remote_step}
use farlock.Locks.Farlock.Fifo.Defs.{Line, Fifo}
use farlock.Locks.Farlock.Exclusion.Peterson.{Peterson, sole}
use farlock.Locks.Farlock.Exclusion.Booking.{
  weight, holds-le, Book, Booked, issue, serve, recount, keep_distinct,
}

module _ (side : ℕ → Side) {n : ℕ} {g : Line} {b : Book} {s : System} (v : Fifo side remote g s)
    (z : Peterson side s) (w : Booked side n b s) (i : ℕ) (here : side i ≡ remote)
    (lt : i < n) where
  pub other :
      (p : Pc)
      → (s.thr i).pc ≡ p
      → p ≢ draw_write
      → p ≢ holding
      → n ≤ word
      → Booked side n b (remote_step p i s)
  unfolding remote_step reset exchange_round store_next load_ticket store_releasable
      test_to_get_ticket store_ticket test_next store_to_get_ticket test_granted test_unlink
      swap_tail test_releasable store_granted raise_remote victim_remote load_victim test_local_flag
      lower_remote fetch_ticket test_turn
  other crashed e no_draw no_hold few = w
  other p e no_draw no_hold few = record {
    next = ground (arith, w.next);
    current = ground (arith, w.current);
    count =
        ground (
          arith,
          v.stage i here,
          w.count,
          recount s (remote_step p i s) i lt (λ k ne. ground arith),
        );
    window = λ k lo hi. ground (arith, w.window k);
    distinct = keep_distinct w (remote_step p i s) i (λ k ne. ground arith) (λ lo hi. ground arith);
    drawn = λ k lo hi. ground (arith, w.drawn k);
    stored = λ k lo hi. ground (arith, w.stored k, w.drawn k);
    split = λ k hk q. ground (arith, w.split k hk);
    fetched = λ k q. ground (arith, w.fetched k);
    turn = λ k q. ground (
      arith,
      w.turn k,
      w.stored k,
      w.window k,
      w.current,
      w.count,
      total-le weight holds-le n s.thr,
    );
  }

  pub drew : (s.thr i).pc ≡ draw_write → Booked side n (issue b i) (add_ticket i s)
  unfolding add_ticket
  drew e = record {
    next = ground (arith, w.next, w.fetched i);
    current = ground (arith, w.current);
    count = ground (arith, w.count, recount s (add_ticket i s) i lt (λ k ne. ground arith));
    window = λ k lo hi. ground (arith, w.window k, w.count);
    distinct = λ a c la ha lc hc q. ground (arith, w.distinct a c, w.window a, w.window c);
    drawn = λ k lo hi. ground (arith, w.drawn k, w.next, w.fetched i);
    stored = λ k lo hi. ground (arith, w.stored k);
    split = λ k hk q. ground (arith, w.split k hk);
    fetched = λ k q. ground (arith, w.fetched k, w.split k, w.next, sole side remote v i k here);
    turn = λ k q. ground (arith, w.turn k);
  }

  pub served : (s.thr i).pc ≡ holding → Booked side n (serve b) (advance_remote i s)
  unfolding advance_remote
  served e = record {
    next = ground (arith, w.next);
    current = ground (arith, w.current, w.stored i, w.turn i);
    count = ground (arith, w.count, recount s (advance_remote i s) i lt (λ k ne. ground arith));
    window = λ k lo hi. ground (arith, w.window k, w.turn i, w.distinct i k);
    distinct = λ a c la ha lc hc q. ground (arith, w.distinct a c);
    drawn = λ k lo hi. ground (arith, w.drawn k);
    stored = λ k lo hi. ground (arith, w.stored k);
    split = λ k hk q. ground (arith, w.split k hk);
    fetched = λ k q. ground (arith, w.fetched k);
    turn = λ k q. ground (arith, w.turn k, w.turn i, w.distinct i k);
  }
