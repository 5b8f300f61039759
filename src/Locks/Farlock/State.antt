-- ===== src/Locks/Farlock/State.antt =====
-- include/locks/farlock.h: one lock, the descriptors of the threads that use it, and where each
-- thread stands. `null` pointers are `none`; a pointer to a descriptor is its thread's index.
use farlock.Base.{ℕ, ◌-◌, Option, none, Bool, false, word}
use farlock.Base.Family.{update}

-- A handler takes the local or the remote path for a lock, by `MemoryPool::IsLocal`.
pub data Side : Type 0 where
  local remote : Side

-- `LocalDescriptor` and `RemoteDescriptor`.
pub record Descriptor : Type 0 where
  pub next : Option ℕ
  pub ticket : ℕ
  pub to_get_ticket : Bool
  pub granted : Bool
  pub releasable : Bool

pub record FarLock : Type 0 where
  pub remote_tail : Option ℕ
  pub local_tail : Option ℕ
  pub remote_flag : Bool
  pub victim : ℕ
  pub local_flag : Bool
  pub next_ticket : ℕ
  pub current_ticket : ℕ

-- The next access that a thread makes to shared memory. `crashed` is a null dereference.
pub data Pc : Type 0 where
  idle swap link read_ticket release_prev wait_ticket : Pc
  raise_flag set_victim read_flag read_victim draw draw_write lower_flag publish : Pc
  look_next pass_ticket await_grant await_turn holding : Pc
  unlink cut_tail await_releasable grant crashed : Pc

-- The local variables that live across accesses: `prev` and `ticket`, the expected value of the
-- compare-and-swap loop in `MemoryPool::Exchange`, and the victim word that was read last.
pub record Thread : Type 0 where
  pub pc : Pc
  pub prev : Option ℕ
  pub ticket : ℕ
  pub expected : Option ℕ
  pub seen : ℕ

pub record System : Type 0 where
  pub lock : FarLock
  pub desc : ℕ → Descriptor
  pub thr : ℕ → Thread

-- (uint64_t)-1
abbrev pub k_invalid_ticket : ℕ
k_invalid_ticket = word - 1

abbrev pub goto : ℕ → Pc → System → System
goto i p s = record s { thr = update s.thr i (record (s.thr i) { pc = p }) }

abbrev pub set_desc : ℕ → Descriptor → System → System
set_desc i d s = record s { desc = update s.desc i d }

abbrev pub set_lock : FarLock → System → System
set_lock l s = record s { lock = l }

-- The descriptor as `LockLocal` and `LockRemote` fill it before they enqueue it.
abbrev pub fresh : Descriptor
fresh = record {
  next = none;
  ticket = k_invalid_ticket;
  to_get_ticket = false;
  granted = false;
  releasable = false;
}

-- The lock's chunk is zeroed by `memset` before it is used; no thread has started.
abbrev pub init : System
init = record {
  lock = record {
    remote_tail = none;
    local_tail = none;
    remote_flag = false;
    victim = 0;
    local_flag = false;
    next_ticket = 0;
    current_ticket = 0;
  };
  desc = λ _. fresh;
  thr = λ _. record { pc = idle; prev = none; ticket = 0; expected = none; seen = 0 };
}
