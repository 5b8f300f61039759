-- ===== src/Rdma/Verbs.antt =====
-- What include/rdma/memory_pool.h uses of the verbs library, as a parameter: the requests it posts,
-- the completions it polls for, and the memory that both the process and its device write.
use farlock.Base.{ℕ, suc, ◌≡◌, Bool, true}

-- ibv_wr_opcode.
pub data Opcode : Type 0 where
  rdma_read : Opcode
  rdma_write : Opcode
  atomic_cmp_and_swp : Opcode
  atomic_fetch_and_add : Opcode
  wr_send : Opcode

-- An ibv_send_wr with its one ibv_sge.
pub record SendRequest : Type 0 where
  pub wr_id : ℕ
  pub addr : ℕ
  pub length : ℕ
  pub lkey : ℕ
  pub opcode : Opcode
  pub signaled : Bool
  pub fence : Bool
  pub remote_addr : ℕ
  pub rkey : ℕ
  pub compare_add : ℕ
  pub swap : ℕ

-- An ibv_recv_wr with its one ibv_sge.
pub record ReceiveRequest : Type 0 where
  pub wr_id : ℕ
  pub addr : ℕ
  pub length : ℕ
  pub lkey : ℕ

-- What ibv_poll_cq says: no completion, an error, or one completion and if its status is a success.
pub data Polled : Type 0 where
  nothing_yet : Polled
  poll_error : Polled
  completed : Bool → Polled

-- The process's memory in words of 8 bytes at their addresses, and the device with all beyond it.
pub record World (D : Type 0) : Type 0 where
  pub memory : ℕ → ℕ
  pub device : D

pub record Verbs (D : Type 0) : Type 0 where
  pub post_send : ℕ → SendRequest → World D → ℕ × World D
  pub post_recv : ℕ → ReceiveRequest → World D → ℕ × World D
  pub poll_cq : ℕ → World D → Polled × World D

-- The completion of a request is there after a number of polls that find none.
pub data Arrives {D : Type 0} (v : Verbs D) (cq : ℕ) : ℕ → World D → World D → Type 0 where
  arrives_now : {w w' : World D} → v.poll_cq cq w ≡ (completed true, w') → Arrives v cq 0 w w'
  arrives_later :
      {k : ℕ} {w next w' : World D}
      → v.poll_cq cq w ≡ (nothing_yet, next)
      → Arrives v cq k next w'
      → Arrives v cq (suc k) w w'
