-- ===== src/Locks/FarlockG/Exclusion/Booking.antt =====
-- The tickets of include/locks/farlockg.h, counted: `issued` were drawn, `served` of them were given
-- back; `num` is the ticket a thread has drawn or got from its predecessor.
use farlock.Base.{◌⊎◌, ℕ, ◌+◌, ◌≤◌, ◌<◌, ◌≡◌, ◌≢◌, refl, ◌⊎◌, some, arith, true, false}
use farlock.Base.Family.{update}
use farlock.Locks.Farlock.State.{Side, local, remote}
use farlock.Locks.Farlock.Fifo.Defs.{Line}
use farlock.Locks.FarlockG.State.{Pc, link, pass_batch, pass_budget, grant, System, init}
use farlock.Locks.FarlockG.Fifo.Defs.{rank}
use farlock.Locks.FarlockG.Exclusion.Peterson.{zone}

pub record Book : Type 0 where
  pub issued : ℕ
  pub served : ℕ
  pub num : ℕ → ℕ

module _ (side : ℕ → Side) (K : Side → ℕ) where
  -- A thread has a ticket from the draw, or the budget it got, until its unlock starts to leave.
  abbrev pub Has : System → ℕ → Type 0
  Has s i = (15 ≤ zone side K s i) × (zone side K s i ≤ 29)

  -- In a line a later thread has no earlier ticket, and a later one behind the last of a batch.
  abbrev pub Sorted : Side → Line → Book → System → Type 0
  Sorted σ g b s =
      (i j : ℕ)
      → side i ≡ σ
      → side j ≡ σ
      → Has s i
      → Has s j
      → g.pos i < g.pos j
      → (b.num i ≤ b.num j) × ((s.desc i).ticket_valid ≡ true → b.num i < b.num j)

  pub record Booked (b : Book) (g h : Line) (s : System) : Type 0 where
    pub next : s.lock.next_ticket ≡ b.issued
    pub current : s.lock.current_ticket ≡ b.served
    pub below : b.served ≤ b.issued
    pub window : (i : ℕ) → Has s i → (b.served ≤ b.num i) × (b.num i < b.issued)
    pub local_order : Sorted local g b s
    pub remote_order : Sorted remote h b s
    pub apart : (i j : ℕ) → side i ≡ local → side j ≡ remote → Has s i → Has s j → b.num i ≢ b.num j
    pub ticket :
        (i : ℕ) → 15 ≤ rank (s.thr i).pc → rank (s.thr i).pc ≤ 27 → (s.thr i).ticket ≡ b.num i
    pub passed :
        (i : ℕ)
        → 15 ≤ zone side K s i
        → 2 ≤ rank (s.thr i).pc
        → rank (s.thr i).pc ≤ 7
        → (s.desc i).batch_ticket ≡ b.num i
    pub shared :
        (i : ℕ)
        → 15 ≤ rank (s.thr i).pc
        → rank (s.thr i).pc ≤ 29
        → (s.thr i).from_prev ≡ true
        → (s.desc i).batch_ticket ≡ b.num i
    pub stored :
        (i : ℕ)
        → 28 ≤ rank (s.thr i).pc
        → rank (s.thr i).pc ≤ 29
        → (s.desc i).batch_ticket ≡ b.num i
    pub ready :
        (i k : ℕ)
        → rank (s.thr i).pc ≡ 18
        → (s.desc i).next ≡ some k
        → (s.desc k).batch_ticket ≡ b.num i
    pub turn : (i : ℕ) → 27 ≤ zone side K s i → zone side K s i ≤ 29 → b.num i ≡ b.served
    pub granted :
        (i : ℕ)
        → 15 ≤ zone side K s i
        → rank (s.thr i).pc ≤ 25
        → (s.desc i).granted ≡ true
        → (8 ≤ rank (s.thr i).pc → (s.thr i).from_prev ≡ true)
        → b.num i ≡ b.served
    pub linked :
        (i k : ℕ)
        → 25 ≤ rank (s.thr i).pc
        → (s.desc i).ticket_valid ≡ false
        → (s.desc i).next ≡ some k
        → b.num k ≡ b.num i
    pub split : (i : ℕ) → side i ≡ local → rank (s.thr i).pc ≢ 14
    pub fetched : (i : ℕ) → rank (s.thr i).pc ≡ 14 → (s.thr i).ticket ≡ s.lock.next_ticket

  -- What a step of thread `i` at `p` does to thread `k`.
  pub record Others (σ : Side) (p : Pc) (s s' : System) (i k : ℕ) : Type 0 where
    pub same_thread : s'.thr k ≡ s.thr k
    pub same_valid : (s'.desc k).ticket_valid ≡ (s.desc k).ticket_valid
    pub zones :
        (zone side K s' k ≡ zone side K s k)
        ⊎ ((p ≡ pass_budget)
            × ((s.desc i).next ≡ some k)
            × (side k ≡ σ)
            × (rank (s.thr k).pc ≤ 7)
            × (zone side K s k ≤ 7)
            × (zone side K s' k ≡ 15))
    pub batch :
        ((s'.desc k).batch_ticket ≡ (s.desc k).batch_ticket)
        ⊎ ((p ≡ pass_batch)
            × ((s.desc i).next ≡ some k)
            × (side k ≡ σ)
            × (rank (s.thr k).pc ≤ 7)
            × (zone side K s k ≤ 7)
            × ((s'.desc k).batch_ticket ≡ (s.thr i).ticket))
    pub grants :
        ((s'.desc k).granted ≡ (s.desc k).granted)
        ⊎ ((p ≡ grant) × (side k ≡ σ) × ((s.desc i).next ≡ some k))
    pub nexts :
        ((s'.desc k).next ≡ (s.desc k).next)
        ⊎ ((p ≡ link)
            × (side k ≡ σ)
            × (rank (s.thr k).pc ≤ 33)
            × ((s.thr i).prev ≡ some k)
            × ((s'.desc k).next ≡ some i))

abbrev pub issue : Book → ℕ → Book
issue b i = record b { issued = b.issued + 1; num = update b.num i b.issued }

abbrev pub pass : Book → ℕ → ℕ → Book
pass b i k = record b { num = update b.num k (b.num i) }

abbrev pub serve : Book → Book
serve b = record b { served = b.served + 1 }

pub init-Booked :
    (side : ℕ → Side) (K : Side → ℕ) (g h : Line)
    → Booked side K (record { issued = 0; served = 0; num = λ _. 0 }) g h init
init-Booked side K g h = record {
  next = refl;
  current = refl;
  below = omega arith;
  window = λ i has. absurd (omega (arith, has));
  local_order = λ i j hi hj has. absurd (omega (arith, has));
  remote_order = λ i j hi hj has. absurd (omega (arith, has));
  apart = λ i j hi hj has. absurd (omega (arith, has));
  ticket = λ i lo hi. absurd (omega arith);
  passed = λ i z lo hi. absurd (omega arith);
  shared = λ i lo hi q. absurd (omega arith);
  stored = λ i lo hi. absurd (omega arith);
  ready = λ i k at q. absurd (omega arith);
  turn = λ i lo hi. absurd (omega arith);
  granted = λ i z hi q r. absurd (omega arith);
  linked = λ i k lo q r. absurd (omega arith);
  split = λ i hk q. absurd (omega arith);
  fetched = λ i q. absurd (omega arith);
}
