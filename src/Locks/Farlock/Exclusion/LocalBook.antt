-- ===== src/Locks/Farlock/Exclusion/LocalBook.antt =====
-- A step of a local thread keeps the book of the tickets.
use farlock.Base.{ℕ, ◌≤◌, ◌<◌, ◌≡◌, ◌≢◌, arith, word}
use farlock.Base.Family.{total-le}
use farlock.Locks.Farlock.State.{Side, local, Pc, draw, holding, crashed, System}
use farlock.Locks.Farlock.Queue.{
  reset, exchange_tail, store_next, load_ticket, store_releasable, test_to_get_ticket, store_ticket,
  test_next, store_to_get_ticket, test_granted, test_unlink, swap_tail, test_releasable,
  store_granted,
}
use farlock.Locks.Farlock.Tickets.{
  raise_local, victim_local, test_remote_flag, test_local_victim, lower_local, fetch_add_ticket,
  test_turn, advance_local,
}
use farlock.Locks.Farlock.Program.{local_step}
use farlock.Locks.Farlock.Fifo.Defs.{Line, Fifo}
use farlock.Locks.Farlock.Exclusion.Peterson.{Peterson}
use farlock.Locks.Farlock.Exclusion.Booking.{
  weight, holds-le, Book, Booked, issue, serve, recount, keep_distinct,
}

module _ (side : ℕ → Side) {n : ℕ} {g : Line} {b : Book} {s : System} (v : Fifo side local g s)
    (z : Peterson side s) (w : Booked side n b s) (i : ℕ) (here : side i ≡ local) (lt : i < n) where
  pub other :
      (p : Pc)
      → (s.thr i).pc ≡ p
      → p ≢ draw
      → p ≢ holding
      → n ≤ word
      → Booked side n b (local_step p i s)
  unfolding local_step reset exchange_tail store_next load_ticket store_releasable
      test_to_get_ticket store_ticket test_next store_to_get_ticket test_granted test_unlink
      swap_tail test_releasable store_granted raise_local victim_local test_remote_flag
      test_local_victim lower_local test_turn
  other crashed e no_draw no_hold few = w
  other p e no_draw no_hold few = record {
    next = ground (arith, w.next);
    current = ground (arith, w.current);
    count =
        ground (
          arith,
          v.stage i here,
          w.count,
          recount s (local_step p i s) i lt (λ k ne. ground arith),
        );
    window = λ k lo hi. ground (arith, w.window k);
    distinct = keep_distinct w (local_step p i s) i (λ k ne. ground arith) (λ lo hi. ground arith);
    drawn = λ k lo hi. ground (arith, w.drawn k);
    stored = λ k lo hi. ground (arith, w.stored k, w.drawn k);
    split = λ k hk q. ground (arith, w.split k hk);
    fetched = λ k q. ground (arith, w.fetched k);
    turn = λ k q. ground (
      arith,
      w.turn k,
      w.stored k,
      w.window k,
      w.current,
      w.count,
      total-le weight holds-le n s.thr,
    );
  }

  pub drew : (s.thr i).pc ≡ draw → Booked side n (issue b i) (fetch_add_ticket i s)
  unfolding fetch_add_ticket
  drew e = record {
    next = ground (arith, w.next);
    current = ground (arith, w.current);
    count = ground (arith, w.count, recount s (fetch_add_ticket i s) i lt (λ k ne. ground arith));
    window = λ k lo hi. ground (arith, w.window k, w.count);
    distinct = λ a c la ha lc hc q. ground (arith, w.distinct a c, w.window a, w.window c);
    drawn = λ k lo hi. ground (arith, w.drawn k, w.next);
    stored = λ k lo hi. ground (arith, w.stored k);
    split = λ k hk q. ground (arith, w.split k hk);
    fetched = λ k q. ground (arith, w.fetched k, w.split k, z.exclusive i k here);
    turn = λ k q. ground (arith, w.turn k);
  }

  pub served : (s.thr i).pc ≡ holding → Booked side n (serve b) (advance_local i s)
  unfolding advance_local
  served e = record {
    next = ground (arith, w.next);
    current = ground (arith, w.current);
    count = ground (arith, w.count, recount s (advance_local i s) i lt (λ k ne. ground arith));
    window = λ k lo hi. ground (arith, w.window k, w.turn i, w.distinct i k);
    distinct = λ a c la ha lc hc q. ground (arith, w.distinct a c);
    drawn = λ k lo hi. ground (arith, w.drawn k);
    stored = λ k lo hi. ground (arith, w.stored k);
    split = λ k hk q. ground (arith, w.split k hk);
    fetched = λ k q. ground (arith, w.fetched k);
    turn = λ k q. ground (arith, w.turn k, w.turn i, w.distinct i k);
  }
