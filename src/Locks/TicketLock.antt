-- ===== src/Locks/TicketLock.antt =====
-- include/locks/rdma_ticket_lock.h: a lock of two counters that every thread reaches through its
-- MemoryPool, so that each FetchAndAdd and each Read of a counter is one step.
pub mod Book
pub mod Between
mod Tests
use farlock.Base.{ℕ, ◌+◌, ◌%◌, Bool, not, ◌==◌, word, List, [], ◌∷◌, if◌then◌else◌}
use farlock.Base.Family.{update}

pub data Place : Type 0 where
  outside waiting inside : Place

pub record Thread : Type 0 where
  pub place : Place
  pub my_ticket : ℕ

-- RdmaTicketLock, and where its threads are.
pub record TicketLock : Type 0 where
  pub ticket : ℕ
  pub turn : ℕ
  pub thr : ℕ → Thread

abbrev pub init : TicketLock
init = record { ticket = 0; turn = 0; thr = λ i. record { place = outside; my_ticket = 0 } }

-- The FetchAndAdd of Lock.
unfoldable pub take_ticket : ℕ → TicketLock → TicketLock
take_ticket i s = record s {
  ticket = (s.ticket + 1) % word;
  thr = update s.thr i (record { place = waiting; my_ticket = s.ticket });
}

-- A Read of the loop of Lock.
unfoldable pub read_turn : ℕ → TicketLock → TicketLock
read_turn i s = record s {
  thr =
      update s.thr i
        (record (s.thr i) { place = if s.turn == (s.thr i).my_ticket then inside else waiting });
}

-- Unlock.
unfoldable pub unlock : ℕ → TicketLock → TicketLock
unlock i s = record s {
  turn = (s.turn + 1) % word;
  thr = update s.thr i (record (s.thr i) { place = outside });
}

unfoldable pub step_at : Place → ℕ → TicketLock → TicketLock
step_at outside i s = take_ticket i s
step_at waiting i s = read_turn i s
step_at inside i s = unlock i s

-- Lock and Unlock of a thread, one access at a time, and a schedule, the last step first.
abbrev pub step : ℕ → TicketLock → TicketLock
step i s = step_at (s.thr i).place i s

unfoldable pub run : List ℕ → TicketLock → TicketLock
run [] s = s
run (i ∷ is) s = step i (run is s)

-- IsLocked, with the lock as its Read finds the one counter and as it finds the other: the Read of
-- 16 bytes is not one access, and the order of the two is open.
unfoldable pub is_locked : TicketLock → TicketLock → Bool
is_locked at_ticket at_turn = not (at_ticket.ticket == at_turn.turn)
