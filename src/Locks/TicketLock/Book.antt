-- ===== src/Locks/TicketLock/Book.antt =====
-- The tickets of include/locks/rdma_ticket_lock.h counted without wrapping, and what follows.
use farlock.Base.{
  ℕ, ◌+◌, ◌%◌, ◌≤◌, ◌<◌, ◌≡◌, ◌≢◌, refl, word, ◌-◌, ◌⊎◌, inl, inr, ℕ_discrete, List, [], ◌∷◌, All,
  arith,
}
use farlock.Base.Family.{update, total, total-change, total-le, total_weightless}
use farlock.Locks.TicketLock.{
  Place, outside, waiting, inside, Thread, TicketLock, init, take_ticket, read_turn, unlock,
  step_at, step, run,
}

abbrev pub weight : Thread → ℕ
weight t = elim t.place [ outside ↦ 0 | _ ↦ 1 ]

pub weight-le : (t : Thread) → weight t ≤ 1
weight-le t = ground arith

pub record Count : Type 0 where
  pub issued : ℕ
  pub served : ℕ
  pub num : ℕ → ℕ

pub record Counted (n : ℕ) (b : Count) (s : TicketLock) : Type 0 where
  pub ticket : s.ticket ≡ b.issued % word
  pub turn : s.turn ≡ b.served % word
  pub count : b.served + total weight n s.thr ≡ b.issued
  pub window : (i : ℕ) → weight (s.thr i) ≡ 1 → (b.served ≤ b.num i) × (b.num i < b.issued)
  distinct : (i j : ℕ) → weight (s.thr i) ≡ 1 → weight (s.thr j) ≡ 1 → b.num i ≡ b.num j → i ≡ j
  mine : (i : ℕ) → weight (s.thr i) ≡ 1 → (s.thr i).my_ticket ≡ b.num i % word
  first : (i : ℕ) → (s.thr i).place ≡ inside → b.num i ≡ b.served
  filled : (m : ℕ) → b.served ≤ m → m < b.issued → (i : ℕ) × (weight (s.thr i) ≡ 1) × (b.num i ≡ m)

module _ (n : ℕ) (few : n ≤ word) where
  pub take_ticket-Counted :
      (b : Count) (s : TicketLock) (i : ℕ)
      → i < n
      → (s.thr i).place ≡ outside
      → Counted n b s
      → Counted n
          (record b { issued = b.issued + 1; num = update b.num i b.issued })
          (take_ticket i s)
  unfolding take_ticket
  take_ticket-Counted b s i lt out v =
      let s' = take_ticket i s in
      let change = total-change weight n s.thr s'.thr i lt (λ k ne. ground (arith, ne)) in
      record {
        ticket = ground (arith, v.ticket);
        turn = v.turn;
        count = ground (arith, v.count, change, out);
        window = λ k held. ground (arith, v.window k);
        distinct = λ j k held held' same. ground (arith, v.window j, v.window k, v.distinct j k);
        mine = λ k held. ground (arith, v.ticket, v.mine k);
        first = λ k in_k. ground (arith, v.first k);
        filled = λ m lo hi. elim (ℕ_discrete m b.issued) [
          | yes new ↦ (i, ground arith, ground (arith, new))
          | no ne ↦
              let (k, held, same) = v.filled m lo (omega (arith, hi, ne)) in
              (k, ground (arith, held, out), ground (arith, held, out, same))
        ];
      }

  pub read_turn-Counted :
      (b : Count) (s : TicketLock) (i : ℕ)
      → i < n
      → (s.thr i).place ≡ waiting
      → Counted n b s
      → Counted n b (read_turn i s)
  unfolding read_turn
  read_turn-Counted b s i lt at v =
      let s' = read_turn i s in
      let change = total-change weight n s.thr s'.thr i lt (λ k ne. ground (arith, ne)) in
      let few_held = total-le weight weight-le n s.thr in
      record {
        ticket = v.ticket;
        turn = v.turn;
        count = ground (arith, v.count, change, at);
        window = λ k held. ground (arith, v.window k, at);
        distinct = λ j k held held' same. ground (arith, v.distinct j k, at);
        mine = λ k held. ground (arith, v.mine k, at);
        first = λ k in_k.
            ground (arith, v.first k, v.window k, v.mine k, v.turn, v.count, few_held, few, at);
        filled = λ m lo hi.
            let (k, held, same) = v.filled m lo hi in (k, ground (arith, held, at), same);
      }

  pub unlock-Counted :
      (b : Count) (s : TicketLock) (i : ℕ)
      → i < n
      → (s.thr i).place ≡ inside
      → Counted n b s
      → Counted n (record b { served = b.served + 1 }) (unlock i s)
  unfolding unlock
  unlock-Counted b s i lt at v =
      let s' = unlock i s in
      let change = total-change weight n s.thr s'.thr i lt (λ k ne. ground (arith, ne)) in
      record {
        ticket = v.ticket;
        turn = ground (arith, v.turn);
        count = ground (arith, v.count, change, at);
        window = λ k held. ground (arith, v.window k, v.first i at, v.distinct i k, at);
        distinct = λ j k held held' same. ground (arith, v.distinct j k);
        mine = λ k held. ground (arith, v.mine k);
        first = λ k in_k. ground (arith, v.first k, v.first i at, v.distinct i k, at);
        filled = λ m lo hi.
            let (k, held, same) = v.filled m (omega (arith, lo)) hi in
            (k, ground (arith, held, same, lo, v.first i at), same);
      }

  step-Counted :
      (s : TicketLock) (i : ℕ)
      → i < n
      → (b : Count) × Counted n b s
      → (b : Count) × Counted n b (step i s)
  unfolding step_at
  step-Counted s i lt (b, v) = by_place (s.thr i).place refl
    where
      by_place : (p : Place) → (s.thr i).place ≡ p → (b : Count) × Counted n b (step_at p i s)
      by_place outside at = (_, take_ticket-Counted b s i lt at v)
      by_place waiting at = (_, read_turn-Counted b s i lt at v)
      by_place inside at = (_, unlock-Counted b s i lt at v)

  pub run-Counted : (is : List ℕ) → All (λ i. i < n) is → (b : Count) × Counted n b (run is init)
  unfolding run
  run-Counted [] ids = (
    record { issued = 0; served = 0; num = λ i. 0 },
    record {
      ticket = refl;
      turn = refl;
      count = omega (arith, total_weightless weight n init.thr (λ k. refl));
      window = λ i held. absurd (omega arith);
      distinct = λ i j held held' same. absurd (omega arith);
      mine = λ i held. absurd (omega arith);
      first = λ i at. absurd cc;
      filled = λ m lo hi. absurd (omega (arith, hi));
    },
  )
  run-Counted (i ∷ is) (lt, ids) = step-Counted (run is init) i lt (run-Counted is ids)

  module _ (is : List ℕ) (ids : All (λ i. i < n) is) where
    abbrev reached : TicketLock
    reached = run is init

    -- In every state of a ticket lock that up to 2 ^ 64 threads reach in any order of their steps,
    -- two threads between the return of Lock and Unlock are the same.
    pub inside_alone :
        (i j : ℕ) → (reached.thr i).place ≡ inside → (reached.thr j).place ≡ inside → i ≡ j
    inside_alone i j in_i in_j =
        let (b, v) = run-Counted is ids in
        ground (arith, v.first i in_i, v.first j in_j, v.distinct i j)

    -- In every state of a ticket lock that n threads, at most 2 ^ 64, reach, a thread that waits
    -- has fewer than n turns before its own, in 64 bits.
    pub waiting-lt :
        (i : ℕ)
        → (reached.thr i).place ≡ waiting
        → ((reached.thr i).my_ticket + word - reached.turn) % word < n
    waiting-lt i at =
        let (b, v) = run-Counted is ids in
        let few_held = total-le weight weight-le n reached.thr in
        ground (arith, v.window i, v.mine i, v.turn, v.count, few_held, few, at)

    by_place :
        (j : ℕ)
        → weight (reached.thr j) ≡ 1
        → (reached.thr j).my_ticket ≡ reached.turn
        → (p : Place) → (reached.thr j).place ≡ p
        → ((reached.thr j).place ≡ inside) ⊎ (((step j reached).thr j).place ≡ inside)
    unfolding step_at read_turn
    by_place j has mine outside at = absurd (ground (arith, has, at))
    by_place j has mine waiting at = inr (ground (arith, at, mine))
    by_place j has mine inside at = inl at

    -- In every state of a ticket lock that up to 2 ^ 64 threads reach, while a thread waits for
    -- the lock or holds it, some thread is between the return of Lock and Unlock, or its next step
    -- takes it there.
    pub turn_taken :
        (i : ℕ)
        → (reached.thr i).place ≢ outside
        → (j : ℕ) × (((reached.thr j).place ≡ inside) ⊎ (((step j reached).thr j).place ≡ inside))
    unfolding step_at read_turn
    turn_taken i held =
        let (b, v) = run-Counted is ids in
        let some_issued : b.served < b.issued = ground (arith, v.window i, held) in
        let (j, has, same) = v.filled b.served (omega arith) some_issued in
        (j, by_place j has (ground (arith, v.mine j, v.turn, has, same)) (reached.thr j).place refl)
