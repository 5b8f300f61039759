-- ===== src/Locks/FarlockG/Batch.antt =====
-- The accesses of include/locks/farlockg.h by which a ticket goes through a batch: the budget that
-- a thread gets or starts with, and what it passes on. `K` is kInitLocalBudget_ or
-- kInitRemoteBudget_.
use farlock.Base.{ℕ, ◌+◌, ◌-◌, ◌%◌, none, some, true, ◌==◌, if◌then◌else◌, word}
use farlock.Base.Family.{update}
use farlock.Locks.FarlockG.State.{
  Pc, read_budget, read_batch, init_budget, raise_flag, look_next, test_budget, pass_batch,
  pass_budget, lower_full, lower_last, pass_init, holding, crashed, System, k_no_budget, goto,
  set_desc,
}
use farlock.Locks.FarlockG.Queue.{await}

-- One test of the loop on `budget_`.
unfoldable pub test_passed : ℕ → System → System
test_passed i s = if (s.desc i).budget == k_no_budget then s else goto i read_budget s

-- ticket = descriptor.batch_ticket_
unfoldable pub load_batch : ℕ → System → System
load_batch i s = record s {
  thr =
      update s.thr i
        (record (s.thr i) { pc = look_next; ticket = (s.desc i).batch_ticket; from_prev = true });
}

-- if (descriptor.next_) with the ticket at hand
unfoldable pub test_next : ℕ → System → System
test_next i s = elim (s.desc i).next [ none ↦ goto i lower_last s | some _ ↦ goto i test_budget s ]

-- if (descriptor.budget_ == 1)
unfoldable pub test_last : ℕ → System → System
test_last i s = if (s.desc i).budget == 1 then goto i lower_full s else goto i pass_batch s

-- descriptor.next_->batch_ticket_ = ticket; on the remote side the first word of an RDMA write of
-- 16 bytes.
unfoldable pub store_batch : ℕ → System → System
store_batch i s = elim (s.desc i).next [
  | none ↦ goto i crashed s
  | some k ↦
      goto i pass_budget (set_desc k (record (s.desc k) { batch_ticket = (s.thr i).ticket }) s)
]

-- descriptor.next_->budget_ = descriptor.budget_ - 1; on the remote side the second word.
unfoldable pub store_budget : ℕ → System → System
store_budget i s = elim (s.desc i).next [
  | none ↦ goto i crashed s
  | some k ↦
      goto i (await (s.thr i).prev (s.thr i).from_prev)
        (set_desc k (record (s.desc k) { budget = ((s.desc i).budget + word - 1) % word }) s)
]

-- descriptor.ticket_valid_ = kTrue, and where the thread goes on.
unfoldable pub store_valid : Pc → ℕ → System → System
store_valid p i s = goto i p (set_desc i (record (s.desc i) { ticket_valid = true }) s)

-- if (descriptor.next_) after the flag is lowered
unfoldable pub test_again : ℕ → System → System
test_again i s = elim (s.desc i).next [
  | none ↦ goto i (await (s.thr i).prev (s.thr i).from_prev) s
  | some _ ↦ goto i pass_init s
]

-- descriptor.batch_ticket_ = ticket
unfoldable pub keep_ticket : ℕ → System → System
keep_ticket i s =
    goto i holding (set_desc i (record (s.desc i) { batch_ticket = (s.thr i).ticket }) s)

module _ (K : ℕ) where
  -- if (descriptor.budget_ != kInitBudget)
  unfoldable pub test_kind : ℕ → System → System
  test_kind i s = if (s.desc i).budget == K then goto i init_budget s else goto i read_batch s

  -- descriptor.budget_ = kInitBudget
  unfoldable pub start_budget : ℕ → System → System
  start_budget i s = goto i raise_flag (set_desc i (record (s.desc i) { budget = K }) s)

  -- descriptor.next_->budget_ = kInitBudget
  unfoldable pub store_init : ℕ → System → System
  store_init i s = elim (s.desc i).next [
    | none ↦ goto i crashed s
    | some k ↦
        goto i (await (s.thr i).prev (s.thr i).from_prev)
          (set_desc k (record (s.desc k) { budget = K }) s)
  ]
