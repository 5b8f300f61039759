-- ===== src/Rdma/MemoryPool/Quiet.antt =====
-- What the operations of include/rdma/memory_pool.h do on a device that executes each request
-- alone, between its post and its completion.
use farlock.Base.{
  ℕ, zero, suc, ◌+◌, ◌%◌, ◌≤◌, ◌<◌, ◌≡◌, refl, ap, ◌∙◌, Bool, true, some, get_elem?, word, ◌==◌,
  leb, if◌then◌else◌, arith,
}
use farlock.Base.Family.{update, update-same}
use farlock.Rdma.Pointer.{Pointer, id, address}
use farlock.Rdma.Verbs.{
  Opcode, rdma_read, rdma_write, atomic_cmp_and_swp, atomic_fetch_and_add, wr_send, SendRequest,
  World, Verbs, Arrives, arrives_now, arrives_later,
}
use farlock.Rdma.MemoryPool.State.{
  Target, Pool, Node, returns, ◌>>=◌, ◌>>◌, found, target_of, next_buffer, next_request_id, post,
  wait,
}
use farlock.Rdma.MemoryPool.Requests.{
  word_size, request, request_at, prepare, complete, compare_and_swap, fetch_and_add,
}

-- The words of the process and those of the target's node, before a request or after it.
abbrev pub Words : Type 0
Words = (ℕ → ℕ) × (ℕ → ℕ)

-- What the verbs documentation says that a request for one word does to them.
abbrev pub execute : SendRequest → ℕ → ℕ → ℕ × ℕ
execute wr mine theirs = elim wr.opcode [
  | rdma_read ↦ (theirs, theirs)
  | rdma_write ↦ (mine, mine)
  | atomic_cmp_and_swp ↦ (theirs, if theirs == wr.compare_add then wr.swap else theirs)
  | atomic_fetch_and_add ↦ (theirs, (theirs + wr.compare_add) % word)
  | wr_send ↦ (mine, theirs)
]

-- A target on another node, seen through the device: every signaled request for one word is
-- accepted, and its completion arrives after at most `delay` polls with the request executed.
pub record Quiet {D : Type 0} (v : Verbs D) (t : Target) (delay : ℕ) : Type 0 where
  pub held : D → ℕ → ℕ
  pub accepted : SendRequest → World D → World D
  pub done : SendRequest → World D → World D
  pub polls : SendRequest → World D → ℕ
  pub accepts :
      (wr : SendRequest) (w : World D)
      → wr.signaled ≡ true
      → wr.length ≡ word_size
      → v.post_send t.qp wr w ≡ (0, accepted wr w)
  pub polls-le : (wr : SendRequest) (w : World D) → polls wr w ≤ delay
  pub arrives :
      (wr : SendRequest) (w : World D)
      → wr.signaled ≡ true
      → wr.length ≡ word_size
      → Arrives v t.send_cq (polls wr w) (accepted wr w) (done wr w)
  pub mine :
      (wr : SendRequest) (w : World D)
      → wr.signaled ≡ true
      → wr.length ≡ word_size
      → (done wr w).memory
        ≡ update w.memory wr.addr (execute wr (w.memory wr.addr) (held w.device wr.remote_addr)).0
  pub theirs :
      (wr : SendRequest) (w : World D)
      → wr.signaled ≡ true
      → wr.length ≡ word_size
      → held (done wr w).device
        ≡ update
            (held w.device)
            wr.remote_addr
            (execute wr (w.memory wr.addr) (held w.device wr.remote_addr)).1

-- The words of the target in a world.
abbrev pub remote :
    {D : Type 0} {v : Verbs D} {t : Target} {delay : ℕ} → Quiet v t delay → World D → ℕ → ℕ
remote q w = q.held w.device

module _ {D : Type 0} (v : Verbs D) where
  pub wait-Arrives :
      (cq k fuel : ℕ) (n : Node D) (w w' : World D)
      → Arrives v cq k w w'
      → k < fuel
      → wait v fuel cq (record n { world = w }) ≡ returns (tt, record n { world = w' })
  unfolding wait
  wait-Arrives cq k zero n w w' e enough = absurd (omega arith)
  wait-Arrives cq k (suc fuel) n w w' (arrives_now e) enough =
      rw (ap (λ r. r.0) e, wait) (ap (λ r. returns (tt, record n { world = r.1 })) e)
  wait-Arrives cq k (suc fuel) n w w' (arrives_later {k = j} {next = next} e later) enough =
      rw (ap (λ r. r.0) e, ap (λ r. r.1) e, wait)
        (wait-Arrives cq j fuel n next w' later (omega arith))

  pub complete_lem :
      (t : Target) (delay : ℕ) (q : Quiet v t delay) (fuel : ℕ) (wr : SendRequest) (n : Node D)
      → delay < fuel
      → wr.signaled ≡ true
      → wr.length ≡ word_size
      → complete v fuel t wr n ≡ returns (tt, record n { world = q.done wr n.world })
  unfolding complete post
  complete_lem t delay q fuel wr n enough signaled size =
      rw (q.accepts wr n.world signaled size, complete, ◌>>◌, ◌>>=◌, post)
        (wait-Arrives t.send_cq (q.polls wr n.world) fuel n (q.accepted wr n.world)
          (q.done wr n.world) (q.arrives wr n.world signaled size)
          (omega (arith, q.polls-le wr n.world)))

-- The pool after an operation that took a buffer and a request id.
abbrev pub advance : {D : Type 0} → Node D → Node D
advance n = record n {
  pool = record n.pool {
    buffer_index = suc n.pool.buffer_index % word % n.pool.buffer_count;
    request_id = suc n.pool.request_id % word;
  };
}

-- The pool knows the target of a pointer, and has a buffer for the old value.
pub record Ready (pool : Pool) (p : Pointer) (t : Target) (buffer : Pointer) : Type 0 where
  pub room : leb word_size pool.chunk_size ≡ true
  pub target : get_elem? pool.target_map (id p) ≡ some t
  pub slot : get_elem? pool.local_buffer_pointers pool.buffer_index ≡ some buffer

-- The request that `prepare` makes.
abbrev pub prepared :
    {D : Type 0} → Node D → Pointer → Target → Pointer → Opcode → Bool → SendRequest
prepared n p t buffer opcode fence =
    request_at (request n n.pool.request_id (address buffer) word_size opcode fence) t p

pub prepare_lem :
    {D : Type 0} (n : Node D) (p : Pointer) (t : Target) (buffer : Pointer) (opcode : Opcode)
    (fence : Bool)
    → Ready n.pool p t buffer
    → prepare p opcode fence n ≡ returns ((t, prepared n p t buffer opcode fence), advance n)
unfolding prepare target_of next_buffer next_request_id
prepare_lem n p t buffer opcode fence ready =
    rw (ready.room, prepare, ◌>>=◌, ◌>>◌)
      (rw (ready.target, ◌>>=◌, target_of, found) (rw (ready.slot, ◌>>=◌, next_buffer, found) refl))

module _ {D : Type 0} {v : Verbs D} {t : Target} {delay : ℕ} (q : Quiet v t delay) where
  -- The buffer of a request that gives the old value has it.
  pub old_value :
      (wr : SendRequest) (w : World D)
      → wr.signaled ≡ true
      → wr.length ≡ word_size
      → (q.done wr w).memory wr.addr ≡ (execute wr (w.memory wr.addr) (remote q w wr.remote_addr)).0
  old_value wr w signaled size =
      ap (λ m. m wr.addr) (q.mine wr w signaled size) ∙ update-same w.memory wr.addr _

  pub new_value :
      (wr : SendRequest) (w : World D)
      → wr.signaled ≡ true
      → wr.length ≡ word_size
      → remote q (q.done wr w) wr.remote_addr
        ≡ (execute wr (w.memory wr.addr) (remote q w wr.remote_addr)).1
  new_value wr w signaled size =
      ap (λ m. m wr.remote_addr) (q.theirs wr w signaled size)
      ∙ update-same (remote q w) wr.remote_addr _

module _ {D : Type 0} (v : Verbs D) (t : Target) (delay : ℕ) (q : Quiet v t delay) (fuel : ℕ)
    (enough : delay < fuel) (n : Node D) (p : Pointer) (buffer : Pointer)
    (ready : Ready n.pool p t buffer) where
  -- The node after one request.
  abbrev pub after : SendRequest → Node D
  after wr = record (advance n) { world = q.done wr n.world }

  abbrev pub swap_request : ℕ → ℕ → Bool → SendRequest
  swap_request expected desired fence = record (prepared n p t buffer atomic_cmp_and_swp fence) {
    compare_add = expected;
    swap = desired;
  }

  pub compare_and_swap_run :
      (expected desired : ℕ) (fence : Bool)
      → compare_and_swap v fuel p expected desired fence n
        ≡ returns
            (remote q n.world (address p) == expected, after (swap_request expected desired fence))
  unfolding compare_and_swap
  compare_and_swap_run expected desired fence =
      let wr = swap_request expected desired fence in
      rw (prepare_lem n p t buffer atomic_cmp_and_swp fence ready, compare_and_swap, ◌>>=◌)
        (rw (complete_lem v t delay q fuel wr (advance n) enough refl refl, ◌>>=◌)
          (ap (λ x. returns (x == expected, after wr)) (old_value q wr n.world refl refl)))

  abbrev pub add_request : ℕ → Bool → SendRequest
  add_request add fence = record (prepared n p t buffer atomic_fetch_and_add fence) {
    compare_add = add;
  }

  pub fetch_and_add_run :
      (add : ℕ) (fence : Bool)
      → fetch_and_add v fuel p add fence n
        ≡ returns (remote q n.world (address p), after (add_request add fence))
  unfolding fetch_and_add
  fetch_and_add_run add fence =
      let wr = add_request add fence in
      rw (prepare_lem n p t buffer atomic_fetch_and_add fence ready, fetch_and_add, ◌>>=◌)
        (rw (complete_lem v t delay q fuel wr (advance n) enough refl refl, ◌>>=◌)
          (ap (λ x. returns (x, after wr)) (old_value q wr n.world refl refl)))
