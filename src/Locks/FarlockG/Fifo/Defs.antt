-- ===== src/Locks/FarlockG/Fifo/Defs.antt =====
-- The line of the threads of one side of a FARLockG, counted: the n-th thread to enqueue has
-- position n, positions take their tickets or get one in order, and they leave in order.
use farlock.Base.{ℕ, ◌+◌, ◌≤◌, ◌<◌, ◌≡◌, ◌≢◌, none, some, Bool, true, false, not, ◌&&◌, ◌==◌}
use farlock.Locks.Common.{k_true}
use farlock.Locks.Farlock.State.{Side}
use farlock.Locks.Farlock.Fifo.Defs.{Line}
use farlock.Locks.FarlockG.State.{
  Descriptor, Pc, idle, swap, link, read_valid, release_prev, wait_budget, read_budget, read_batch,
  init_budget, raise_flag, set_victim, read_flag, read_victim, draw, draw_write, look_next,
  test_budget, pass_batch, pass_budget, lower_full, lower_last, publish_full, publish_last,
  look_again, pass_init, await_grant, await_turn, set_batch, holding, advance, unlink, cut_tail,
  await_releasable, grant, crashed, Thread, System, k_no_budget,
}
use farlock.Locks.FarlockG.Queue.{tail}

-- How far a thread is in its program.
abbrev pub rank : Pc → ℕ
rank idle = 0
rank swap = 1
rank link = 2
rank read_valid = 3
rank release_prev = 4
rank wait_budget = 5
rank read_budget = 6
rank read_batch = 7
rank init_budget = 8
rank raise_flag = 9
rank set_victim = 10
rank read_flag = 11
rank read_victim = 12
rank draw = 13
rank draw_write = 14
rank look_next = 15
rank test_budget = 16
rank pass_batch = 17
rank pass_budget = 18
rank lower_full = 19
rank lower_last = 20
rank publish_full = 21
rank publish_last = 22
rank look_again = 23
rank pass_init = 24
rank await_grant = 25
rank await_turn = 26
rank set_batch = 27
rank holding = 28
rank advance = 29
rank unlink = 30
rank cut_tail = 31
rank await_releasable = 32
rank grant = 33
rank crashed = 34

-- A budget that the predecessor has passed on with its ticket.
abbrev pub inherits : ℕ → Descriptor → Bool
inherits K d = not (d.budget == k_no_budget) && not (d.budget == K)

-- A thread that has got its predecessor's ticket, or the budget for it; and one that has not.
abbrev pub Joined : ℕ → Thread → Descriptor → Type 0
Joined K t d = (rank t.pc ≤ 7 → inherits K d ≡ true) × (8 ≤ rank t.pc → t.from_prev ≡ true)

abbrev pub Unjoined : ℕ → Thread → Descriptor → Type 0
Unjoined K t d = (rank t.pc ≤ 7 → inherits K d ≡ false) × (t.from_prev ≡ false)

-- What a thread at position `p` knows from where it stands and from its descriptor.
pub record Stage (K : ℕ) (g : Line) (p : ℕ) (t : Thread) (d : Descriptor) : Type 0 where
  pub whole : rank t.pc ≤ 33
  pub empty : rank t.pc ≡ 1 → (d.next ≡ none) × (d.granted ≡ false) × (d.releasable ≡ false)
  pub unpassed : 1 ≤ rank t.pc → rank t.pc ≤ 2 → d.budget ≡ k_no_budget
  pub own : 1 ≤ rank t.pc → rank t.pc ≤ 14 → t.from_prev ≡ false
  pub range : 2 ≤ rank t.pc → (g.left ≤ p) × (p < g.enqueued)
  pub before : 2 ≤ rank t.pc → rank t.pc ≤ 7 → g.numbered ≤ p
  pub drawing : 8 ≤ rank t.pc → rank t.pc ≤ 22 → p ≡ g.numbered
  pub drawn : 23 ≤ rank t.pc → p < g.numbered
  pub blank : 1 ≤ rank t.pc → rank t.pc ≤ 22 → d.ticket_valid ≡ false
  pub valid : 23 ≤ rank t.pc → rank t.pc ≤ 24 → d.ticket_valid ≡ true
  pub last : 29 ≡ rank t.pc → d.ticket_valid ≡ true
  pub continues : 25 ≤ rank t.pc → d.ticket_valid ≡ false → d.next ≢ none
  pub first : 26 ≤ rank t.pc → p ≡ g.left
  pub head : 2 ≤ rank t.pc → t.prev ≡ none → p ≡ g.left
  pub read : rank t.pc ≡ 4 → t.ticket ≡ k_true → p ≤ g.numbered
  pub passed : 2 ≤ rank t.pc → d.budget ≢ k_no_budget → p ≤ g.numbered
  pub bounded : 2 ≤ rank t.pc → d.budget ≢ k_no_budget → (1 ≤ d.budget) × (d.budget ≤ K)
  pub budgeted : 9 ≤ rank t.pc → d.budget ≢ k_no_budget
  pub arrived : rank t.pc ≡ 6 → d.budget ≢ k_no_budget
  pub inherited : rank t.pc ≡ 7 → inherits K d ≡ true
  pub more : rank t.pc ≡ 17 → d.budget ≢ 1
  pub more' : rank t.pc ≡ 18 → d.budget ≢ 1
  pub allowed : 2 ≤ rank t.pc → d.granted ≡ true → p ≡ g.left
  pub joined : 2 ≤ rank t.pc → d.releasable ≡ true → d.next ≢ none
  pub follows : 16 ≤ rank t.pc → rank t.pc ≤ 19 → d.next ≢ none
  pub follows_full : rank t.pc ≡ 21 → d.next ≢ none
  pub follows_init : rank t.pc ≡ 24 → d.next ≢ none
  pub queued : 2 ≤ rank t.pc → rank t.pc ≤ 7 → t.prev ≢ none
  pub behind_one : 2 ≤ rank t.pc → t.from_prev ≡ true → t.prev ≢ none
  pub released : rank t.pc ≡ 33 → d.releasable ≡ true

module _ (side : ℕ → Side) (σ : Side) (K : ℕ) where
  -- A thread that has not yet released its predecessor still has it before itself.
  pub record Behind (g : Line) (s : System) (i j : ℕ) : Type 0 where
    pub of_side : side j ≡ σ
    pub active : 2 ≤ rank (s.thr j).pc
    pub succ : g.pos j + 1 ≡ g.pos i
    pub held : (s.desc j).releasable ≡ false
    pub unlinked : rank (s.thr i).pc ≡ 2 → (s.desc j).next ≡ none
    pub linked : 3 ≤ rank (s.thr i).pc → (s.desc j).next ≡ some i
    pub seen : rank (s.thr i).pc ≡ 4 → (s.thr i).ticket ≡ k_true → (s.desc j).ticket_valid ≡ true

  -- A thread and its successor: what it has passed on.
  pub record Next (g : Line) (s : System) (i k : ℕ) : Type 0 where
    pub of_side : side k ≡ σ
    pub active : 3 ≤ rank (s.thr k).pc
    pub succ : g.pos k ≡ g.pos i + 1
    pub cut : (s.desc i).ticket_valid ≡ true → Unjoined K (s.thr k) (s.desc k)
    pub handed :
        25 ≤ rank (s.thr i).pc → (s.desc i).ticket_valid ≡ false → Joined K (s.thr k) (s.desc k)

  pub record Fifo (g : Line) (s : System) : Type 0 where
    pub order : (g.left ≤ g.numbered) × (g.numbered ≤ g.enqueued)
    pub tail_none : tail σ s.lock ≡ none → g.left ≡ g.enqueued
    pub tail_some :
        (j : ℕ)
        → tail σ s.lock ≡ some j
        → (side j ≡ σ) × (2 ≤ rank (s.thr j).pc) × (g.pos j + 1 ≡ g.enqueued)
    pub stage : (i : ℕ) → side i ≡ σ → Stage K g (g.pos i) (s.thr i) (s.desc i)
    pub apart :
        (i j : ℕ)
        → side i ≡ σ
        → side j ≡ σ
        → 2 ≤ rank (s.thr i).pc
        → 2 ≤ rank (s.thr j).pc
        → g.pos i ≡ g.pos j
        → i ≡ j
    pub behind :
        (i j : ℕ)
        → side i ≡ σ
        → 2 ≤ rank (s.thr i).pc
        → rank (s.thr i).pc ≤ 4
        → (s.thr i).prev ≡ some j
        → Behind g s i j
    pub next :
        (i k : ℕ) → side i ≡ σ → 2 ≤ rank (s.thr i).pc → (s.desc i).next ≡ some k → Next g s i k
