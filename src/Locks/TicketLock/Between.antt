-- ===== src/Locks/TicketLock/Between.antt =====
-- IsLocked of include/locks/rdma_ticket_lock.h while the other threads take steps between the reads
-- of the two counters.
use farlock.Base.{ℕ, ◌+◌, ◌≤◌, ◌<◌, ◌≡◌, ◌≢◌, refl, true, false, word, List, [], ◌∷◌, All, arith}
use farlock.Base.Family.{total-le, total_weightless}
use farlock.Locks.TicketLock.{
  Place, outside, waiting, inside, TicketLock, init, step_at, step, run, is_locked,
}
use farlock.Locks.TicketLock.Book.{
  weight, weight-le, Count, Counted, take_ticket-Counted, read_turn-Counted, unlock-Counted,
  run-Counted,
}

-- Thread `i` waits or holds the lock in `s` and in every state of the schedule from there.
abbrev pub Stays : ℕ → List ℕ → TicketLock → Type 0
Stays i [] s = (s.thr i).place ≢ outside
Stays i (k ∷ later) s = ((run (k ∷ later) s).thr i).place ≢ outside × Stays i later s

Stays-last :
    (i : ℕ) (later : List ℕ) (s : TicketLock)
    → Stays i later s
    → ((run later s).thr i).place ≢ outside
unfolding run
Stays-last i [] s stays = stays
Stays-last i (k ∷ later) s (here, stays) = here

Stays-first :
    (i : ℕ) (later : List ℕ) (s : TicketLock) → Stays i later s → (s.thr i).place ≢ outside
Stays-first i [] s stays = stays
Stays-first i (k ∷ later) s (here, stays) = Stays-first i later s stays

-- The counters have not gone back, and the number of thread `i` is the same.
record Grown (i : ℕ) (b c : Count) : Type 0 where
  issued : b.issued ≤ c.issued
  served : b.served ≤ c.served
  same : c.num i ≡ b.num i

module _ (n : ℕ) (few : n ≤ word) (i : ℕ) where
  step-Grown :
      (s : TicketLock) (k : ℕ)
      → k < n
      → (s.thr i).place ≢ outside
      → (b : Count) → Counted n b s
      → (c : Count) × Counted n c (step k s) × Grown i b c
  unfolding step_at
  step-Grown s k lt here b v = by_place (s.thr k).place refl
    where
      by_place :
          (p : Place)
          → (s.thr k).place ≡ p
          → (c : Count) × Counted n c (step_at p k s) × Grown i b c
      by_place outside at = (
        _,
        take_ticket-Counted n few b s k lt at v,
        record { issued = omega arith; served = omega arith; same = ground (arith, at, here) },
      )
      by_place waiting at = (
        _,
        read_turn-Counted n few b s k lt at v,
        record { issued = omega arith; served = omega arith; same = refl },
      )
      by_place inside at = (
        _,
        unlock-Counted n few b s k lt at v,
        record { issued = omega arith; served = omega arith; same = refl },
      )

  run-Grown :
      (later : List ℕ) (s : TicketLock)
      → All (λ k. k < n) later
      → Stays i later s
      → (b : Count) → Counted n b s
      → (c : Count) × Counted n c (run later s) × Grown i b c
  unfolding run
  run-Grown [] s ids stays b v =
      (b, v, record { issued = omega arith; served = omega arith; same = refl })
  run-Grown (k ∷ later) s (lt, ids) (here, stays) b v =
      let (c, w, g) = run-Grown later s ids stays b v in
      let (d, x, h) = step-Grown (run later s) k lt (Stays-last i later s stays) c w in
      (
        d,
        x,
        record {
          issued = omega (arith, g.issued, h.issued);
          served = omega (arith, g.served, h.served);
          same = omega (arith, g.same, h.same);
        },
      )

module _ (n : ℕ) (few : n + n ≤ word) where
  held_between :
      (is later : List ℕ)
      → All (λ k. k < n) is
      → All (λ k. k < n) later
      → (i : ℕ) → Stays i later (run is init)
      → (is_locked (run is init) (run later (run is init)) ≡ true)
        × (is_locked (run later (run is init)) (run is init) ≡ true)
  unfolding is_locked
  held_between is later ids lates i stays =
      let s = run is init in
      let t = run later s in
      let (b, v) = run-Counted n (omega (arith, few)) is ids in
      let (c, w, g) = run-Grown n (omega (arith, few)) i later s lates stays b v in
      let here = Stays-first i later s stays in
      let there = Stays-last i later s stays in
      let before = total-le weight weight-le n s.thr in
      let after = total-le weight weight-le n t.thr in
      let first : (b.served ≤ b.num i) × (b.num i < b.issued) = v.window i (ground (arith, here)) in
      let second : (c.served ≤ c.num i) × (c.num i < c.issued) =
        w.window i (ground (arith, there)) in
      (
        ground (arith, first, second, v.ticket, w.turn, v.count, before, g.same, g.served, few),
        ground (
          arith, first, second, w.ticket, v.turn, v.count, w.count, before, after, g.same, g.issued,
          few,
        ),
      )

  idle_free :
      (is : List ℕ)
      → All (λ k. k < n) is
      → ((j : ℕ) → ((run is init).thr j).place ≡ outside)
      → is_locked (run is init) (run is init) ≡ false
  unfolding is_locked
  idle_free is ids empty =
      let s = run is init in
      let (b, v) = run-Counted n (omega (arith, few)) is ids in
      let none_in = total_weightless weight n s.thr (λ k. ground (arith, empty k)) in
      ground (arith, none_in, v.ticket, v.turn, v.count)

  -- For n threads of a ticket lock, at most 2 ^ 63, a state that they reach in any order of their
  -- steps and any further steps, with a thread that waits for the lock or holds it all the time,
  -- IsLocked is true if it reads one of the counters, whichever, before those steps and the other
  -- after them; and in every reached state in which no thread waits for the lock or holds it,
  -- IsLocked is false if it reads both counters there.
  pub is_locked_held :
      (is later idle : List ℕ)
      → All (λ k. k < n) is
      → All (λ k. k < n) later
      → All (λ k. k < n) idle
      → (i : ℕ) → Stays i later (run is init)
      → ((j : ℕ) → ((run idle init).thr j).place ≡ outside)
      → (is_locked (run is init) (run later (run is init)) ≡ true)
        × (is_locked (run later (run is init)) (run is init) ≡ true)
        × (is_locked (run idle init) (run idle init) ≡ false)
  is_locked_held is later idle ids lates idles i stays empty =
      let (one, other) = held_between is later ids lates i stays in
      (one, other, idle_free idle idles empty)
