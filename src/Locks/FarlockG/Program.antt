-- ===== src/Locks/FarlockG/Program.antt =====
-- The two programs of include/locks/farlockg.h, an access to shared memory at a time, and the
-- interleavings of any number of threads of both sides over one lock.
use farlock.Base.{ℕ, Bool, not, ◌==◌, List, [], ◌∷◌}
use farlock.Locks.Farlock.State.{Side, local, remote}
use farlock.Locks.Farlock.Program.{tail_word}
use farlock.Locks.FarlockG.State.{
  FarLockG, Pc, idle, swap, link, read_valid, release_prev, wait_budget, read_budget, read_batch,
  init_budget, raise_flag, set_victim, read_flag, read_victim, draw, draw_write, look_next,
  test_budget, pass_batch, pass_budget, lower_full, lower_last, publish_full, publish_last,
  look_again, pass_init, await_grant, await_turn, set_batch, holding, advance, unlink, cut_tail,
  await_releasable, grant, System,
}
use farlock.Locks.FarlockG.Queue.{
  reset, exchange_tail, exchange_round, store_next, load_valid, store_releasable, test_granted,
  test_unlink, swap_tail, test_releasable, store_granted,
}
use farlock.Locks.FarlockG.Batch.{
  test_passed, test_kind, load_batch, start_budget, test_next, test_last, store_batch, store_budget,
  store_valid, test_again, store_init, keep_ticket,
}
use farlock.Locks.FarlockG.Tickets.{
  raise_local, victim_local, test_remote_flag, test_local_victim, lower_local, raise_remote,
  victim_remote, load_victim, test_local_flag, lower_remote, fetch_add_ticket, fetch_ticket,
  add_ticket, test_turn, test_valid, store_turn,
}

-- What LockLocal, LockRemote and the two unlocks do alike, by the access that comes next.
unfoldable pub common_step : ℕ → Pc → ℕ → System → System
common_step K idle = reset
common_step K link = store_next
common_step K read_valid = load_valid
common_step K release_prev = store_releasable
common_step K wait_budget = test_passed
common_step K read_budget = test_kind K
common_step K read_batch = load_batch
common_step K init_budget = start_budget K
common_step K look_next = test_next
common_step K test_budget = test_last
common_step K pass_batch = store_batch
common_step K pass_budget = store_budget
common_step K publish_full = store_valid pass_init
common_step K publish_last = store_valid look_again
common_step K look_again = test_again
common_step K pass_init = store_init K
common_step K await_grant = test_granted
common_step K await_turn = test_turn
common_step K set_batch = keep_ticket
common_step K holding = test_valid
common_step K advance = store_turn
common_step K unlink = test_unlink
common_step K await_releasable = test_releasable
common_step K grant = store_granted
common_step K _ = λ i s. s

-- LockLocal up to `holding`, UnlockLocal from there. `draw_write` is no point of this program.
unfoldable pub local_step : ℕ → Pc → ℕ → System → System
local_step K swap = exchange_tail
local_step K raise_flag = raise_local
local_step K set_victim = victim_local
local_step K read_flag = test_remote_flag
local_step K read_victim = test_local_victim
local_step K draw = fetch_add_ticket
local_step K draw_write = λ i s. s
local_step K lower_full = lower_local publish_full
local_step K lower_last = lower_local publish_last
local_step K cut_tail = swap_tail local
local_step K p = common_step K p

-- LockRemote and UnlockRemote.
unfoldable pub remote_step : ℕ → Pc → ℕ → System → System
remote_step K swap = exchange_round
remote_step K raise_flag = raise_remote
remote_step K set_victim = victim_remote
remote_step K read_flag = test_local_flag
remote_step K read_victim = load_victim
remote_step K draw = fetch_ticket
remote_step K draw_write = add_ticket
remote_step K lower_full = lower_remote publish_full
remote_step K lower_last = lower_remote publish_last
remote_step K cut_tail = swap_tail remote
remote_step K p = common_step K p

-- FARLockGHandler::Lock and Unlock choose the path by the side of the thread; each side has its own
-- first budget.
unfoldable pub side_step : (Side → ℕ) → Side → Pc → ℕ → System → System
side_step K local = local_step (K local)
side_step K remote = remote_step (K remote)

module _ (side : ℕ → Side) (K : Side → ℕ) where
  unfoldable pub step : ℕ → System → System
  step i s = side_step K (side i) (s.thr i).pc i s

  -- The scheduler's choices, the first one first.
  unfoldable pub run : List ℕ → System → System
  run [] s = s
  run (i ∷ is) s = run is (step i s)

-- IsLockedLocal and IsLockedRemote, with the lock as the read of remote_tail finds it and as the
-- read of local_tail does: they are two accesses, in an order that the language leaves open.
unfoldable pub is_locked : (ℕ → ℕ) → FarLockG → FarLockG → Bool
is_locked address at_remote at_local =
    not (tail_word address at_remote.remote_tail == tail_word address at_local.local_tail)
