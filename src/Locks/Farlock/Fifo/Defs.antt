-- ===== src/Locks/Farlock/Fifo/Defs.antt =====
-- The line of the threads of one side of a FARLock, counted: the n-th thread to enqueue has
-- position n, positions take their tickets in order, and they leave in order.
use farlock.Base.{ℕ, ◌+◌, ◌≤◌, ◌<◌, ◌≡◌, ◌≢◌, none, some, true, false}
use farlock.Locks.Farlock.State.{
  Side, Descriptor, Pc, idle, swap, link, read_ticket, release_prev, wait_ticket, raise_flag,
  set_victim, read_flag, read_victim, draw, draw_write, lower_flag, publish, look_next, pass_ticket,
  await_grant, await_turn, holding, unlink, cut_tail, await_releasable, grant, crashed, Thread,
  System, k_invalid_ticket, fresh,
}
use farlock.Locks.Farlock.Queue.{tail}

-- How far a thread is in its program.
abbrev pub rank : Pc → ℕ
rank idle = 0
rank swap = 1
rank link = 2
rank read_ticket = 3
rank release_prev = 4
rank wait_ticket = 5
rank raise_flag = 6
rank set_victim = 7
rank read_flag = 8
rank read_victim = 9
rank draw = 10
rank draw_write = 11
rank lower_flag = 12
rank publish = 13
rank look_next = 14
rank pass_ticket = 15
rank await_grant = 16
rank await_turn = 17
rank holding = 18
rank unlink = 19
rank cut_tail = 20
rank await_releasable = 21
rank grant = 22
rank crashed = 23

-- How many threads of the side have enqueued, stored a ticket and left, and who came when.
pub record Line : Type 0 where
  pub enqueued : ℕ
  pub numbered : ℕ
  pub left : ℕ
  pub pos : ℕ → ℕ

-- What a thread at position `p` knows from where it stands and from its descriptor.
pub record Stage (g : Line) (p : ℕ) (t : Thread) (d : Descriptor) : Type 0 where
  pub whole : rank t.pc ≤ 22
  pub filled : rank t.pc ≡ 1 → d ≡ fresh
  pub range : 2 ≤ rank t.pc → (g.left ≤ p) × (p < g.enqueued)
  pub before : 2 ≤ rank t.pc → rank t.pc ≤ 5 → g.numbered ≤ p
  pub drawing : 6 ≤ rank t.pc → rank t.pc ≤ 13 → p ≡ g.numbered
  pub drawn : 14 ≤ rank t.pc → p < g.numbered
  pub blank : 2 ≤ rank t.pc → rank t.pc ≤ 13 → d.ticket ≡ k_invalid_ticket
  pub first : 17 ≤ rank t.pc → p ≡ g.left
  pub head : 2 ≤ rank t.pc → t.prev ≡ none → p ≡ g.left
  pub read : rank t.pc ≡ 4 → t.ticket ≢ k_invalid_ticket → p ≤ g.numbered
  pub passed : 2 ≤ rank t.pc → d.to_get_ticket ≡ true → p ≤ g.numbered
  pub allowed : 2 ≤ rank t.pc → d.granted ≡ true → p ≡ g.left
  pub joined : 2 ≤ rank t.pc → d.releasable ≡ true → d.next ≢ none
  pub follows : rank t.pc ≡ 15 → d.next ≢ none
  pub queued : 2 ≤ rank t.pc → rank t.pc ≤ 4 → t.prev ≢ none
  pub released : rank t.pc ≡ 22 → d.releasable ≡ true

module _ (side : ℕ → Side) (σ : Side) where
  -- A thread that has not yet released its predecessor still has it before itself.
  pub record Behind (g : Line) (s : System) (i j : ℕ) : Type 0 where
    pub of_side : side j ≡ σ
    pub active : 2 ≤ rank (s.thr j).pc
    pub succ : g.pos j + 1 ≡ g.pos i
    pub held : (s.desc j).releasable ≡ false
    pub linked : 3 ≤ rank (s.thr i).pc → (s.desc j).next ≡ some i

  pub record Fifo (g : Line) (s : System) : Type 0 where
    pub order : (g.left ≤ g.numbered) × (g.numbered ≤ g.enqueued)
    pub tail_none : tail σ s.lock ≡ none → g.left ≡ g.enqueued
    pub tail_some :
        (j : ℕ)
        → tail σ s.lock ≡ some j
        → (side j ≡ σ) × (2 ≤ rank (s.thr j).pc) × (g.pos j + 1 ≡ g.enqueued)
    pub stage : (i : ℕ) → side i ≡ σ → Stage g (g.pos i) (s.thr i) (s.desc i)
    pub apart :
        (i j : ℕ)
        → side i ≡ σ
        → side j ≡ σ
        → 2 ≤ rank (s.thr i).pc
        → 2 ≤ rank (s.thr j).pc
        → g.pos i ≡ g.pos j
        → i ≡ j
    pub behind :
        (i j : ℕ)
        → side i ≡ σ
        → 2 ≤ rank (s.thr i).pc
        → rank (s.thr i).pc ≤ 4
        → (s.thr i).prev ≡ some j
        → Behind g s i j
    pub next :
        (i k : ℕ)
        → side i ≡ σ
        → 2 ≤ rank (s.thr i).pc
        → (s.desc i).next ≡ some k
        → (side k ≡ σ) × (2 ≤ rank (s.thr k).pc) × (g.pos k ≡ g.pos i + 1)
