-- ===== src/Locks/FarlockG/Queue.antt =====
-- The accesses of include/locks/farlockg.h to the queue of the threads of one side: how a thread
-- enqueues, learns of its grant, and leaves.
use farlock.Base.{ℕ, Option, none, some, Bool, true, false, ◌==◌, if◌then◌else◌}
use farlock.Base.Family.{update}
use farlock.Locks.Common.{k_true, k_false}
use farlock.Locks.Farlock.State.{Side, local, remote}
use farlock.Locks.Farlock.Queue.{same}
use farlock.Locks.FarlockG.State.{
  FarLockG, Pc, idle, swap, link, read_valid, release_prev, wait_budget, init_budget, await_grant,
  await_turn, holding, cut_tail, await_releasable, grant, crashed, System, goto, set_desc, set_lock,
  fresh,
}

abbrev pub tail : Side → FarLockG → Option ℕ
tail local l = l.local_tail
tail remote l = l.remote_tail

abbrev pub set_tail : Side → Option ℕ → FarLockG → FarLockG
set_tail local t l = record l { local_tail = t }
set_tail remote t l = record l { remote_tail = t }

-- With no predecessor a thread goes for a ticket at once.
abbrev pub enter : Option ℕ → Pc
enter none = init_budget
enter (some _) = link

unfoldable pub reset : ℕ → System → System
reset i s = record s {
  desc = update s.desc i (fresh (s.desc i));
  thr = update s.thr i (record (s.thr i) { pc = swap; from_prev = false; expected = none });
}

-- The tail becomes `i`; what it was is `prev`.
abbrev pub enqueue : Side → ℕ → System → System
enqueue σ i s = record s {
  lock = set_tail σ (some i) s.lock;
  thr = update s.thr i (record (s.thr i) { pc = enter (tail σ s.lock); prev = tail σ s.lock });
}

-- __atomic_exchange_n on the tail.
unfoldable pub exchange_tail : ℕ → System → System
exchange_tail i s = enqueue local i s

-- One round of MemoryPool::Exchange on the tail.
unfoldable pub exchange_round : ℕ → System → System
exchange_round i s =
    if same (tail remote s.lock) (s.thr i).expected
    then enqueue remote i s
    else record s { thr = update s.thr i (record (s.thr i) { expected = tail remote s.lock }) }

-- prev->next_ = &descriptor
unfoldable pub store_next : ℕ → System → System
store_next i s = elim (s.thr i).prev [
  | none ↦ goto i crashed s
  | some j ↦ goto i read_valid (set_desc j (record (s.desc j) { next = some i }) s)
]

-- ticket = prev->ticket_valid_
unfoldable pub load_valid : ℕ → System → System
load_valid i s = elim (s.thr i).prev [
  | none ↦ goto i crashed s
  | some j ↦ record s {
    thr = update s.thr i (record (s.thr i) {
      pc = release_prev;
      ticket = if (s.desc j).ticket_valid then k_true else k_false;
    });
  }
]

-- prev->releasable_ = kTrue, and the test of what was read before.
unfoldable pub store_releasable : ℕ → System → System
store_releasable i s = elim (s.thr i).prev [
  | none ↦ goto i crashed s
  | some j ↦
      goto i (if (s.thr i).ticket == k_true then init_budget else wait_budget)
        (set_desc j (record (s.desc j) { releasable = true }) s)
]

-- A thread with a ticket from its predecessor has the lock once it is granted, another waits for
-- its turn.
abbrev pub proceed : Bool → Pc
proceed true = holding
proceed false = await_turn

-- if (prev)
abbrev pub await : Option ℕ → Bool → Pc
await none from_prev = proceed from_prev
await (some _) from_prev = await_grant

-- One test of the loop on `granted_`.
unfoldable pub test_granted : ℕ → System → System
test_granted i s = if (s.desc i).granted then goto i (proceed (s.thr i).from_prev) s else s

-- if (descriptor.next_ == nullptr) in the unlock
unfoldable pub test_unlink : ℕ → System → System
test_unlink i s = elim (s.desc i).next [
  | none ↦ goto i cut_tail s
  | some _ ↦ goto i await_releasable s
]

-- The compare-and-swap of the tail from the own descriptor to null.
unfoldable pub swap_tail : Side → ℕ → System → System
swap_tail σ i s =
    if same (tail σ s.lock) (some i)
    then goto i idle (set_lock (set_tail σ none s.lock) s)
    else goto i await_releasable s

unfoldable pub test_releasable : ℕ → System → System
test_releasable i s = if (s.desc i).releasable then goto i grant s else s

-- descriptor.next_->granted_ = kTrue
unfoldable pub store_granted : ℕ → System → System
store_granted i s = elim (s.desc i).next [
  | none ↦ goto i crashed s
  | some k ↦ goto i idle (set_desc k (record (s.desc k) { granted = true }) s)
]
