-- ===== src/Locks/FarlockG/Tickets.antt =====
-- The accesses of include/locks/farlockg.h to the words of the lock: Peterson's algorithm between
-- the two sides, the ticket counters, and the turn.
use farlock.Base.{ℕ, ◌+◌, ◌%◌, true, false, not, ◌||◌, ◌==◌, if◌then◌else◌, word}
use farlock.Base.Family.{update}
use farlock.Locks.Common.{k_local_victim, k_remote_victim}
use farlock.Locks.FarlockG.State.{
  Pc, set_victim, read_flag, read_victim, draw, draw_write, look_next, set_batch, advance, unlink,
  System, goto, set_lock,
}

unfoldable pub raise_local : ℕ → System → System
raise_local i s = goto i set_victim (set_lock (record s.lock { local_flag = true }) s)

unfoldable pub victim_local : ℕ → System → System
victim_local i s = goto i read_flag (set_lock (record s.lock { victim = k_local_victim }) s)

-- The loop of LockPetersonsLocal tests `remote_flag_` first, and `victim_` only if that is raised.
unfoldable pub test_remote_flag : ℕ → System → System
test_remote_flag i s = if s.lock.remote_flag then goto i read_victim s else goto i draw s

unfoldable pub test_local_victim : ℕ → System → System
test_local_victim i s =
    if s.lock.victim == k_local_victim then goto i read_flag s else goto i draw s

-- UnlockPetersonsLocal, and where the thread goes on.
unfoldable pub lower_local : Pc → ℕ → System → System
lower_local p i s = goto i p (set_lock (record s.lock { local_flag = false }) s)

-- One RDMA write of 16 bytes in LockPetersonsRemote, word by word: the flag, then the victim.
unfoldable pub raise_remote : ℕ → System → System
raise_remote i s = goto i set_victim (set_lock (record s.lock { remote_flag = true }) s)

unfoldable pub victim_remote : ℕ → System → System
victim_remote i s = goto i read_victim (set_lock (record s.lock { victim = k_remote_victim }) s)

-- One RDMA read of 16 bytes, word by word: the victim, then the flag. The test follows.
unfoldable pub load_victim : ℕ → System → System
load_victim i s = record s {
  thr = update s.thr i (record (s.thr i) { pc = read_flag; seen = s.lock.victim });
}

unfoldable pub test_local_flag : ℕ → System → System
test_local_flag i s =
    if not s.lock.local_flag || not ((s.thr i).seen == k_remote_victim)
    then goto i draw s
    else goto i read_victim s

-- UnlockPetersonsRemote.
unfoldable pub lower_remote : Pc → ℕ → System → System
lower_remote p i s = goto i p (set_lock (record s.lock { remote_flag = false }) s)

-- __atomic_fetch_add on `next_ticket_`: one step for the processor of the lock's node.
unfoldable pub fetch_add_ticket : ℕ → System → System
fetch_add_ticket i s = record s {
  lock = record s.lock { next_ticket = (s.lock.next_ticket + 1) % word };
  thr = update s.thr i (record (s.thr i) { pc = look_next; ticket = s.lock.next_ticket });
}

-- An RDMA fetch-and-add is not atomic towards that processor: the adapter reads, then writes.
unfoldable pub fetch_ticket : ℕ → System → System
fetch_ticket i s = record s {
  thr = update s.thr i (record (s.thr i) { pc = draw_write; ticket = s.lock.next_ticket });
}

unfoldable pub add_ticket : ℕ → System → System
add_ticket i s =
    goto i look_next (set_lock (record s.lock { next_ticket = ((s.thr i).ticket + 1) % word }) s)

-- One test of the loop on `current_ticket_`.
unfoldable pub test_turn : ℕ → System → System
test_turn i s = if (s.thr i).ticket == s.lock.current_ticket then goto i set_batch s else s

-- if (descriptor.ticket_valid_ == kTrue) in the unlock
unfoldable pub test_valid : ℕ → System → System
test_valid i s = if (s.desc i).ticket_valid then goto i advance s else goto i unlink s

-- current_ticket_ = descriptor.batch_ticket_ + 1
unfoldable pub store_turn : ℕ → System → System
store_turn i s =
    goto i unlink
      (set_lock (record s.lock { current_ticket = ((s.desc i).batch_ticket + 1) % word }) s)
