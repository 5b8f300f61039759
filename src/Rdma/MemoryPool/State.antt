-- ===== src/Rdma/MemoryPool/State.antt =====
-- The state of a MemoryPool of include/rdma/memory_pool.h, and the operations of a thread that uses
-- it: a result with the new state, the end that SPDLOG_FATAL or a failed assertion makes of the
-- program, or a spin that the given fuel does not end.
use farlock.Base.{
  ℕ, zero, suc, ◌%◌, Bool, List, Option, none, some, get_elem?, word, if◌then◌else◌, ◌==◌,
}
use farlock.Base.Family.{update}
use farlock.Rdma.Pointer.{Pointer}
use farlock.Rdma.Verbs.{SendRequest, nothing_yet, poll_error, completed, World, Verbs}

-- TargetContext, as far as the pool uses it.
pub record Target : Type 0 where
  pub qp : ℕ
  pub send_cq : ℕ
  pub recv_cq : ℕ
  pub rkey : ℕ

-- `free_list` is the address that free_list_.next holds.
pub record Pool : Type 0 where
  pub free_list : ℕ
  pub local_buffer_pointers : List Pointer
  pub request_id : ℕ
  pub chunk_size : ℕ
  pub node_id : ℕ
  pub lkey : ℕ
  pub target_map : List Target
  pub buffer_count : ℕ
  pub buffer_index : ℕ

pub record Node (D : Type 0) : Type 0 where
  pub pool : Pool
  pub world : World D

pub data Outcome (A : Type 0) : Type 0 where
  returns : A → Outcome A
  fatal : Outcome A
  spinning : Outcome A

abbrev pub Op : Type 0 → Type 0 → Type 0
Op D A = Node D → Outcome (A × Node D)

infixl 5 ◌>>=◌ ◌>>◌
abbrev pub ◌>>=◌ : {D A B : Type 0} → Op D A → (A → Op D B) → Op D B
◌>>=◌ m f n = elim (m n) [ returns (a, n') ↦ f a n' | fatal ↦ fatal | spinning ↦ spinning ]

abbrev pub ◌>>◌ : {D A B : Type 0} → Op D A → Op D B → Op D B
m >> f = m >>= λ _. f

abbrev pub return : {D A : Type 0} → A → Op D A
return a n = returns (a, n)

abbrev pub get : {D : Type 0} → Op D (Node D)
get n = returns (n, n)

abbrev pub assert : {D : Type 0} → Bool → Op D Unit
assert holds n = if holds then returns (tt, n) else fatal

abbrev pub load : {D : Type 0} → ℕ → Op D ℕ
load a n = returns (n.world.memory a, n)

abbrev pub store : {D : Type 0} → ℕ → ℕ → Op D Unit
store a value n =
    returns (tt, record n { world = record n.world { memory = update n.world.memory a value } })

-- `*p` at an index that the code does not test.
abbrev pub found : {D A : Type 0} → Option A → Op D A
found none n = fatal
found (some a) n = returns (a, n)

unfoldable pub target_of : {D : Type 0} → ℕ → Op D Target
target_of i n = found (get_elem? n.pool.target_map i) n

unfoldable pub next_buffer : {D : Type 0} → Op D Pointer
next_buffer n = found (get_elem? n.pool.local_buffer_pointers n.pool.buffer_index) (record n {
  pool = record n.pool { buffer_index = suc n.pool.buffer_index % word % n.pool.buffer_count };
})

unfoldable pub next_request_id : {D : Type 0} → Op D ℕ
next_request_id n = returns (
  n.pool.request_id,
  record n { pool = record n.pool { request_id = suc n.pool.request_id % word } },
)

module _ {D : Type 0} (v : Verbs D) where
  unfoldable pub post : Target → SendRequest → Op D Unit
  post t wr n =
      let (rv, w) = v.post_send t.qp wr n.world in
      if rv == 0 then returns (tt, record n { world = w }) else fatal

  -- The loop on ibv_poll_cq, at most `fuel` polls.
  unfoldable pub wait : ℕ → ℕ → Op D Unit
  wait zero cq n = spinning
  wait (suc fuel) cq n =
      let (polled, w) = v.poll_cq cq n.world in
      elim polled [
        | nothing_yet ↦ wait fuel cq (record n { world = w })
        | poll_error ↦ fatal
        | completed ok ↦ if ok then returns (tt, record n { world = w }) else fatal
      ]
