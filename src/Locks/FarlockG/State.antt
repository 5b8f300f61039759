-- ===== src/Locks/FarlockG/State.antt =====
-- include/locks/farlockg.h: one lock, the descriptors of the threads that use it, and where each
-- thread stands. A pointer to a descriptor is its thread's index.
use farlock.Base.{ℕ, ◌-◌, Option, none, Bool, false, word}
use farlock.Base.Family.{update}

-- `LocalDescriptor` and `RemoteDescriptor`.
pub record Descriptor : Type 0 where
  pub next : Option ℕ
  pub ticket_valid : Bool
  pub batch_ticket : ℕ
  pub budget : ℕ
  pub granted : Bool
  pub releasable : Bool

pub record FarLockG : Type 0 where
  pub remote_tail : Option ℕ
  pub local_tail : Option ℕ
  pub remote_flag : Bool
  pub victim : ℕ
  pub local_flag : Bool
  pub next_ticket : ℕ
  pub current_ticket : ℕ

-- The next access that a thread makes to shared memory. `crashed` is a null dereference.
pub data Pc : Type 0 where
  idle swap link read_valid release_prev wait_budget read_budget read_batch init_budget : Pc
  raise_flag set_victim read_flag read_victim draw draw_write : Pc
  look_next test_budget pass_batch pass_budget lower_full lower_last publish_full : Pc
  publish_last look_again pass_init await_grant await_turn set_batch : Pc
  holding advance unlink cut_tail await_releasable grant crashed : Pc

-- The local variables that live across accesses: `prev`, `ticket` and `ticket_from_prev`, the
-- expected value of the loop in `MemoryPool::Exchange`, and the victim word that was read last.
pub record Thread : Type 0 where
  pub pc : Pc
  pub prev : Option ℕ
  pub ticket : ℕ
  pub from_prev : Bool
  pub expected : Option ℕ
  pub seen : ℕ

pub record System : Type 0 where
  pub lock : FarLockG
  pub desc : ℕ → Descriptor
  pub thr : ℕ → Thread

-- `budget_ = -1` in a uint64_t.
abbrev pub k_no_budget : ℕ
k_no_budget = word - 1

abbrev pub goto : ℕ → Pc → System → System
goto i p s = record s { thr = update s.thr i (record (s.thr i) { pc = p }) }

abbrev pub set_desc : ℕ → Descriptor → System → System
set_desc i d s = record s { desc = update s.desc i d }

abbrev pub set_lock : FarLockG → System → System
set_lock l s = record s { lock = l }

-- The descriptor as `LockLocal` and `LockRemote` fill it before they enqueue it; they leave
-- `batch_ticket_`.
abbrev pub fresh : Descriptor → Descriptor
fresh d = record d {
  next = none;
  ticket_valid = false;
  budget = k_no_budget;
  granted = false;
  releasable = false;
}

-- The lock's chunk is zeroed before it is used; no thread has started.
abbrev pub init : System
init = record {
  lock = record {
    remote_tail = none;
    local_tail = none;
    remote_flag = false;
    victim = 0;
    local_flag = false;
    next_ticket = 0;
    current_ticket = 0;
  };
  desc = λ _. record {
    next = none;
    ticket_valid = false;
    batch_ticket = 0;
    budget = 0;
    granted = false;
    releasable = false;
  };
  thr = λ _. record {
    pc = idle;
    prev = none;
    ticket = 0;
    from_prev = false;
    expected = none;
    seen = 0;
  };
}
