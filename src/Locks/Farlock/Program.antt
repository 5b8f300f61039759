-- ===== src/Locks/Farlock/Program.antt =====
-- The two programs of include/locks/farlock.h, an access to shared memory at a time, and the
-- interleavings of any number of threads of both sides over one lock.
use farlock.Base.{ℕ, Bool, not, Option, none, some, ◌==◌, List, [], ◌∷◌}
use farlock.Locks.Farlock.State.{
  Side, local, remote, Pc, idle, swap, link, read_ticket, release_prev, wait_ticket, raise_flag,
  set_victim, read_flag, read_victim, draw, draw_write, lower_flag, publish, look_next, pass_ticket,
  await_grant, await_turn, holding, unlink, cut_tail, await_releasable, grant, crashed, System,
  FarLock,
}
use farlock.Locks.Farlock.Queue.{
  reset, exchange_tail, exchange_round, store_next, load_ticket, store_releasable,
  test_to_get_ticket, store_ticket, test_next, store_to_get_ticket, test_granted, test_unlink,
  swap_tail, test_releasable, store_granted,
}
use farlock.Locks.Farlock.Tickets.{
  raise_local, victim_local, test_remote_flag, test_local_victim, lower_local, raise_remote,
  victim_remote, load_victim, test_local_flag, lower_remote, fetch_add_ticket, fetch_ticket,
  add_ticket, test_turn, advance_local, advance_remote,
}

-- LockLocal up to `holding`, UnlockLocal from there. `draw_write` is no point of this program.
unfoldable pub local_step : Pc → ℕ → System → System
local_step idle = reset
local_step swap = exchange_tail
local_step link = store_next
local_step read_ticket = load_ticket
local_step release_prev = store_releasable
local_step wait_ticket = test_to_get_ticket
local_step raise_flag = raise_local
local_step set_victim = victim_local
local_step read_flag = test_remote_flag
local_step read_victim = test_local_victim
local_step draw = fetch_add_ticket
local_step draw_write = λ i s. s
local_step lower_flag = lower_local
local_step publish = store_ticket
local_step look_next = test_next
local_step pass_ticket = store_to_get_ticket
local_step await_grant = test_granted
local_step await_turn = test_turn
local_step holding = advance_local
local_step unlink = test_unlink
local_step cut_tail = swap_tail local
local_step await_releasable = test_releasable
local_step grant = store_granted
local_step crashed = λ i s. s

-- LockRemote and UnlockRemote.
unfoldable pub remote_step : Pc → ℕ → System → System
remote_step idle = reset
remote_step swap = exchange_round
remote_step link = store_next
remote_step read_ticket = load_ticket
remote_step release_prev = store_releasable
remote_step wait_ticket = test_to_get_ticket
remote_step raise_flag = raise_remote
remote_step set_victim = victim_remote
remote_step read_flag = test_local_flag
remote_step read_victim = load_victim
remote_step draw = fetch_ticket
remote_step draw_write = add_ticket
remote_step lower_flag = lower_remote
remote_step publish = store_ticket
remote_step look_next = test_next
remote_step pass_ticket = store_to_get_ticket
remote_step await_grant = test_granted
remote_step await_turn = test_turn
remote_step holding = advance_remote
remote_step unlink = test_unlink
remote_step cut_tail = swap_tail remote
remote_step await_releasable = test_releasable
remote_step grant = store_granted
remote_step crashed = λ i s. s

-- FARLockHandler::Lock and Unlock choose the path by the side of the thread.
unfoldable pub side_step : Side → Pc → ℕ → System → System
side_step local = local_step
side_step remote = remote_step

module _ (side : ℕ → Side) where
  unfoldable pub step : ℕ → System → System
  step i s = side_step (side i) (s.thr i).pc i s

  -- The scheduler's choices, the first one first.
  unfoldable pub run : List ℕ → System → System
  run [] s = s
  run (i ∷ is) s = run is (step i s)

-- What a tail holds as a number: 0 for a null pointer, and for a thread's descriptor its address,
-- or its raw pointer on the remote side.
unfoldable pub tail_word : (ℕ → ℕ) → Option ℕ → ℕ
tail_word address none = 0
tail_word address (some i) = address i

-- IsLockedLocal and IsLockedRemote, with the lock as the read of remote_tail finds it and as the
-- read of local_tail does: they are two accesses, in an order that the language leaves open.
unfoldable pub is_locked : (ℕ → ℕ) → FarLock → FarLock → Bool
is_locked address at_remote at_local =
    not (tail_word address at_remote.remote_tail == tail_word address at_local.local_tail)
