-- ===== src/Locks/Farlock/Tickets.antt =====
-- The accesses of include/locks/farlock.h to the words of the lock: Peterson's algorithm between
-- the two sides, the ticket counters, and the turn. `++` on a counter wraps at 2 ^ 64.
use farlock.Base.{ℕ, ◌+◌, ◌%◌, true, false, not, ◌||◌, ◌==◌, if◌then◌else◌, word}
use farlock.Base.Family.{update}
use farlock.Locks.Common.{k_local_victim, k_remote_victim}
use farlock.Locks.Farlock.State.{
  set_victim, read_flag, read_victim, draw, draw_write, lower_flag, publish, holding, unlink,
  System, goto, set_lock,
}

unfoldable pub raise_local : ℕ → System → System
raise_local i s = goto i set_victim (set_lock (record s.lock { local_flag = true }) s)

unfoldable pub victim_local : ℕ → System → System
victim_local i s = goto i read_flag (set_lock (record s.lock { victim = k_local_victim }) s)

-- The loop of LockPetersonsLocal tests `remote_flag_` first, and `victim_` only if that is raised.
unfoldable pub test_remote_flag : ℕ → System → System
test_remote_flag i s = if s.lock.remote_flag then goto i read_victim s else goto i draw s

unfoldable pub test_local_victim : ℕ → System → System
test_local_victim i s =
    if s.lock.victim == k_local_victim then goto i read_flag s else goto i draw s

unfoldable pub lower_local : ℕ → System → System
lower_local i s = goto i publish (set_lock (record s.lock { local_flag = false }) s)

-- One RDMA write of 16 bytes in LockPetersonsRemote, word by word: the flag, then the victim.
unfoldable pub raise_remote : ℕ → System → System
raise_remote i s = goto i set_victim (set_lock (record s.lock { remote_flag = true }) s)

unfoldable pub victim_remote : ℕ → System → System
victim_remote i s = goto i read_victim (set_lock (record s.lock { victim = k_remote_victim }) s)

-- One RDMA read of 16 bytes, word by word: the victim, then the flag. The test follows.
unfoldable pub load_victim : ℕ → System → System
load_victim i s = record s {
  thr = update s.thr i (record (s.thr i) { pc = read_flag; seen = s.lock.victim });
}

unfoldable pub test_local_flag : ℕ → System → System
test_local_flag i s =
    if not s.lock.local_flag || not ((s.thr i).seen == k_remote_victim)
    then goto i draw s
    else goto i read_victim s

unfoldable pub lower_remote : ℕ → System → System
lower_remote i s = goto i publish (set_lock (record s.lock { remote_flag = false }) s)

-- __atomic_fetch_add on `next_ticket_`: one step for the processor of the lock's node.
unfoldable pub fetch_add_ticket : ℕ → System → System
fetch_add_ticket i s = record s {
  lock = record s.lock { next_ticket = (s.lock.next_ticket + 1) % word };
  thr = update s.thr i (record (s.thr i) { pc = lower_flag; ticket = s.lock.next_ticket });
}

-- An RDMA fetch-and-add is not atomic towards that processor: the adapter reads, then writes.
unfoldable pub fetch_ticket : ℕ → System → System
fetch_ticket i s = record s {
  thr = update s.thr i (record (s.thr i) { pc = draw_write; ticket = s.lock.next_ticket });
}

unfoldable pub add_ticket : ℕ → System → System
add_ticket i s =
    goto i lower_flag (set_lock (record s.lock { next_ticket = ((s.thr i).ticket + 1) % word }) s)

-- AwaitTicketLocal, AwaitTicketRemote: one test of the loop.
unfoldable pub test_turn : ℕ → System → System
test_turn i s = if (s.desc i).ticket == s.lock.current_ticket then goto i holding s else s

-- UnlockLocal adds one to the turn.
unfoldable pub advance_local : ℕ → System → System
advance_local i s =
    goto i unlink
      (set_lock (record s.lock { current_ticket = (s.lock.current_ticket + 1) % word }) s)

-- UnlockRemote writes the own ticket plus one.
unfoldable pub advance_remote : ℕ → System → System
advance_remote i s =
    goto i unlink (set_lock (record s.lock { current_ticket = ((s.desc i).ticket + 1) % word }) s)
