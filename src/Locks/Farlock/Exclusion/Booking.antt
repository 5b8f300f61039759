-- ===== src/Locks/Farlock/Exclusion/Booking.antt =====
-- The tickets, counted without wrapping: `issued` were drawn, `served` of them were given back.
use farlock.Base.{ℕ, ◌+◌, ◌%◌, ◌≤◌, ◌<◌, ◌≡◌, ◌≢◌, refl, arith, ℕ_discrete, word}
use farlock.Base.Family.{update, total, total-change, total_weightless}
use farlock.Locks.Farlock.State.{
  Side, local, Pc, lower_flag, publish, look_next, pass_ticket, await_grant, await_turn, holding,
  Thread, System, init,
}
use farlock.Locks.Farlock.Fifo.Defs.{rank}

-- A thread has a ticket from the draw to the first write of its unlock.
abbrev pub holds : Pc → ℕ
holds lower_flag = 1
holds publish = 1
holds look_next = 1
holds pass_ticket = 1
holds await_grant = 1
holds await_turn = 1
holds holding = 1
holds _ = 0

abbrev pub weight : Thread → ℕ
weight t = holds t.pc

pub holds-le : (t : Thread) → weight t ≤ 1
holds-le t = ground arith

pub record Book : Type 0 where
  pub issued : ℕ
  pub served : ℕ
  pub num : ℕ → ℕ

pub record Booked (side : ℕ → Side) (n : ℕ) (b : Book) (s : System) : Type 0 where
  pub next : s.lock.next_ticket ≡ b.issued % word
  pub current : s.lock.current_ticket ≡ b.served % word
  pub count : b.served + total weight n s.thr ≡ b.issued
  pub window :
      (i : ℕ)
      → 12 ≤ rank (s.thr i).pc
      → rank (s.thr i).pc ≤ 18
      → (b.served ≤ b.num i) × (b.num i < b.issued)
  pub distinct :
      (i j : ℕ)
      → 12 ≤ rank (s.thr i).pc
      → rank (s.thr i).pc ≤ 18
      → 12 ≤ rank (s.thr j).pc
      → rank (s.thr j).pc ≤ 18
      → b.num i ≡ b.num j
      → i ≡ j
  pub drawn :
      (i : ℕ) → 12 ≤ rank (s.thr i).pc → rank (s.thr i).pc ≤ 13 → (s.thr i).ticket ≡ b.num i % word
  pub stored :
      (i : ℕ) → 14 ≤ rank (s.thr i).pc → rank (s.thr i).pc ≤ 18 → (s.desc i).ticket ≡ b.num i % word
  pub split : (i : ℕ) → side i ≡ local → rank (s.thr i).pc ≢ 11
  pub fetched : (i : ℕ) → rank (s.thr i).pc ≡ 11 → (s.thr i).ticket ≡ s.lock.next_ticket
  pub turn : (i : ℕ) → rank (s.thr i).pc ≡ 18 → b.num i ≡ b.served

abbrev pub issue : Book → ℕ → Book
issue b i = record b { issued = b.issued + 1; num = update b.num i b.issued }

abbrev pub serve : Book → Book
serve b = record b { served = b.served + 1 }

-- The holders after a change of thread `i` alone.
pub recount :
    {n : ℕ} (s s' : System) (i : ℕ)
    → i < n
    → ((k : ℕ) → k ≢ i → s'.thr k ≡ s.thr k)
    → total weight n s'.thr + weight (s.thr i) ≡ total weight n s.thr + weight (s'.thr i)
recount {n} s s' i lt others =
    total-change weight n s.thr s'.thr i lt (λ k ne. ground (arith, others k ne))

-- A holder before every change of thread `i` that makes it no holder, and leaves the others.
pub keep_distinct :
    {side : ℕ → Side} {n : ℕ} {b : Book} {s : System} (w : Booked side n b s) (s' : System) (i : ℕ)
    → ((k : ℕ) → k ≢ i → s'.thr k ≡ s.thr k)
    → (12 ≤ rank (s'.thr i).pc
        → rank (s'.thr i).pc ≤ 18
        → (12 ≤ rank (s.thr i).pc) × (rank (s.thr i).pc ≤ 18))
    → (a c : ℕ) → 12 ≤ rank (s'.thr a).pc
    → rank (s'.thr a).pc ≤ 18
    → 12 ≤ rank (s'.thr c).pc
    → rank (s'.thr c).pc ≤ 18
    → b.num a ≡ b.num c
    → a ≡ c
keep_distinct {s} w s' i others own a c la ha lc hc q =
    w.distinct a c (held a la ha).0 (held a la ha).1 (held c lc hc).0 (held c lc hc).1 q
  where
    held :
        (k : ℕ)
        → 12 ≤ rank (s'.thr k).pc
        → rank (s'.thr k).pc ≤ 18
        → (12 ≤ rank (s.thr k).pc) × (rank (s.thr k).pc ≤ 18)
    held k lo hi = elim (ℕ_discrete k i) [
      | yes e ↦ rw e (own (rw e at lo) (rw e at hi))
      | no ne ↦ ground (arith, others k ne)
    ]

pub init-Booked :
    (side : ℕ → Side) (n : ℕ) → Booked side n (record { issued = 0; served = 0; num = λ _. 0 }) init
init-Booked side n = record {
  next = refl;
  current = refl;
  count = omega (arith, total_weightless weight n init.thr (λ _. refl));
  window = λ i lo hi. absurd (omega arith);
  distinct = λ i j li hi lj hj q. absurd (omega arith);
  drawn = λ i lo hi. absurd (omega arith);
  stored = λ i lo hi. absurd (omega arith);
  split = λ i hi q. absurd (omega arith);
  fetched = λ i q. absurd (omega arith);
  turn = λ i q. absurd (omega arith);
}
