-- ===== src/Locks/Farlock/Queue.antt =====
-- The accesses that LockLocal, LockRemote, UnlockLocal and UnlockRemote of
-- include/locks/farlock.h make to the descriptors: the queue of the threads of one side.
use farlock.Base.{ℕ, Option, none, some, Bool, true, false, ◌==◌, if◌then◌else◌}
use farlock.Base.Family.{update}
use farlock.Locks.Farlock.State.{
  Side, local, remote, FarLock, Pc, swap, link, read_ticket, release_prev, wait_ticket, raise_flag,
  look_next, pass_ticket, await_grant, await_turn, idle, cut_tail, await_releasable, grant, crashed,
  System, k_invalid_ticket, goto, set_desc, set_lock, fresh,
}

abbrev pub tail : Side → FarLock → Option ℕ
tail local l = l.local_tail
tail remote l = l.remote_tail

abbrev pub set_tail : Side → Option ℕ → FarLock → FarLock
set_tail local t l = record l { local_tail = t }
set_tail remote t l = record l { remote_tail = t }

-- Pointer equality, null included.
abbrev pub same : Option ℕ → Option ℕ → Bool
same none none = true
same none (some _) = false
same (some _) none = false
same (some i) (some j) = i == j

-- With no predecessor a thread goes for a ticket at once.
abbrev pub enter : Option ℕ → Pc
enter none = raise_flag
enter (some _) = link

unfoldable pub reset : ℕ → System → System
reset i s = record s {
  desc = update s.desc i fresh;
  thr = update s.thr i (record (s.thr i) { pc = swap; expected = none });
}

-- The tail becomes `i`; what it was is `prev`.
abbrev pub enqueue : Side → ℕ → System → System
enqueue σ i s = record s {
  lock = set_tail σ (some i) s.lock;
  thr = update s.thr i (record (s.thr i) { pc = enter (tail σ s.lock); prev = tail σ s.lock });
}

-- __atomic_exchange_n on the tail.
unfoldable pub exchange_tail : ℕ → System → System
exchange_tail i s = enqueue local i s

-- One round of MemoryPool::Exchange on the tail: a compare-and-swap with the expected value, which
-- becomes what was found there if it fails.
unfoldable pub exchange_round : ℕ → System → System
exchange_round i s =
    if same (tail remote s.lock) (s.thr i).expected
    then enqueue remote i s
    else record s { thr = update s.thr i (record (s.thr i) { expected = tail remote s.lock }) }

-- prev->next_ = &descriptor
unfoldable pub store_next : ℕ → System → System
store_next i s = elim (s.thr i).prev [
  | none ↦ goto i crashed s
  | some j ↦ goto i read_ticket (set_desc j (record (s.desc j) { next = some i }) s)
]

-- ticket = prev->ticket_
unfoldable pub load_ticket : ℕ → System → System
load_ticket i s = elim (s.thr i).prev [
  | none ↦ goto i crashed s
  | some j ↦ record s {
    thr = update s.thr i (record (s.thr i) { pc = release_prev; ticket = (s.desc j).ticket });
  }
]

-- prev->releasable_ = kTrue, and the test of the ticket that was read before.
unfoldable pub store_releasable : ℕ → System → System
store_releasable i s = elim (s.thr i).prev [
  | none ↦ goto i crashed s
  | some j ↦
      goto i (if (s.thr i).ticket == k_invalid_ticket then wait_ticket else raise_flag)
        (set_desc j (record (s.desc j) { releasable = true }) s)
]

-- WaitToGetTicketLocal, WaitToGetTicketRemote: one test of the loop.
unfoldable pub test_to_get_ticket : ℕ → System → System
test_to_get_ticket i s = if (s.desc i).to_get_ticket then goto i raise_flag s else s

-- descriptor.ticket_ = ticket
unfoldable pub store_ticket : ℕ → System → System
store_ticket i s = goto i look_next (set_desc i (record (s.desc i) { ticket = (s.thr i).ticket }) s)

-- Where a thread waits for its turn: behind its predecessor if it has one.
abbrev pub await : Option ℕ → Pc
await none = await_turn
await (some _) = await_grant

-- if (descriptor.next_)
unfoldable pub test_next : ℕ → System → System
test_next i s = elim (s.desc i).next [
  | none ↦ goto i (await (s.thr i).prev) s
  | some _ ↦ goto i pass_ticket s
]

-- descriptor.next_->to_get_ticket_ = kTrue
unfoldable pub store_to_get_ticket : ℕ → System → System
store_to_get_ticket i s = elim (s.desc i).next [
  | none ↦ goto i crashed s
  | some k ↦
      goto i (await (s.thr i).prev) (set_desc k (record (s.desc k) { to_get_ticket = true }) s)
]

-- AwaitPredecessorLocal, AwaitPredecessorRemote: one test of the loop.
unfoldable pub test_granted : ℕ → System → System
test_granted i s = if (s.desc i).granted then goto i await_turn s else s

-- if (descriptor.next_ == nullptr) in the unlock
unfoldable pub test_unlink : ℕ → System → System
test_unlink i s = elim (s.desc i).next [
  | none ↦ goto i cut_tail s
  | some _ ↦ goto i await_releasable s
]

-- The compare-and-swap of the tail from the own descriptor to null.
unfoldable pub swap_tail : Side → ℕ → System → System
swap_tail σ i s =
    if same (tail σ s.lock) (some i)
    then goto i idle (set_lock (set_tail σ none s.lock) s)
    else goto i await_releasable s

unfoldable pub test_releasable : ℕ → System → System
test_releasable i s = if (s.desc i).releasable then goto i grant s else s

-- descriptor.next_->granted_ = kTrue
unfoldable pub store_granted : ℕ → System → System
store_granted i s = elim (s.desc i).next [
  | none ↦ goto i crashed s
  | some k ↦ goto i idle (set_desc k (record (s.desc k) { granted = true }) s)
]
