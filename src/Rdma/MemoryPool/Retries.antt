-- ===== src/Rdma/MemoryPool/Retries.antt =====
-- The `retry` of Write in include/rdma/memory_pool.h, on a queue that is full for a while.
use farlock.Base.{
  ℕ, zero, suc, ◌%◌, ◌≤◌, ◌<◌, ◌≡◌, refl, ap, ◌∙◌, Bool, true, false, ◌||◌, ltb, leb, ◌==◌, some,
  get_elem?, word, if◌then◌else◌, arith,
}
use farlock.Rdma.Pointer.{Pointer, id, address}
use farlock.Rdma.Verbs.{rdma_write, SendRequest, World, Verbs}
use farlock.Rdma.MemoryPool.State.{
  Target, Node, returns, fatal, ◌>>=◌, ◌>>◌, return, target_of, next_request_id, wait,
}
use farlock.Rdma.MemoryPool.Requests.{
  is_local, enomem, max_retries, request, request_at, post_retrying, write_from,
}

-- The queue refuses a request with ENOMEM some number of times, and then takes it.
pub data Refuses {D : Type 0} (v : Verbs D) (t : Target)
    : ℕ → SendRequest → World D → World D → Type 0 where
  takes :
      {wr : SendRequest} {w w' : World D} → v.post_send t.qp wr w ≡ (0, w') → Refuses v t 0 wr w w'
  refuses :
      {k : ℕ} {wr : SendRequest} {w next w' : World D}
      → v.post_send t.qp wr w ≡ (enomem, next)
      → Refuses v t k (record wr { signaled = true }) next w'
      → Refuses v t (suc k) wr w w'

module _ {D : Type 0} (v : Verbs D) (t : Target) where
  pub retries_suffice :
      (left k : ℕ) (wr : SendRequest) (n : Node D) (w w' : World D)
      → Refuses v t k wr w w'
      → k ≤ left
      → post_retrying v left t wr (record n { world = w })
        ≡ returns (if k == 0 then wr.signaled else true, record n { world = w' })
  unfolding post_retrying
  retries_suffice zero k wr n w w' (takes e) few = rw (ap (λ r. r.0) e, ap (λ r. r.1) e) refl
  retries_suffice zero k wr n w w' (refuses e later) few = absurd (omega arith)
  retries_suffice (suc left) k wr n w w' (takes e) few = rw (ap (λ r. r.0) e, ap (λ r. r.1) e) refl
  retries_suffice (suc left) k wr n w w' (refuses {k = j} {next = next} e later) few =
      rw (ap (λ r. r.0) e, ap (λ r. r.1) e)
        (retries_suffice left j (record wr { signaled = true }) n next w' later (omega arith)
          ∙ ap (λ b. returns (b, record n { world = w' })) (signaled_again wr.signaled j))
    where
      signaled_again :
          (b : Bool) (j : ℕ) → (if j == 0 then true else true) ≡ (if suc j == 0 then b else true)
      signaled_again b zero = ground arith
      signaled_again b (suc j) = ground arith

  retries_end :
      (left k : ℕ) (wr : SendRequest) (n : Node D) (w w' : World D)
      → Refuses v t k wr w w'
      → left < k
      → post_retrying v left t wr (record n { world = w }) ≡ fatal
  unfolding post_retrying
  retries_end left k wr n w w' (takes e) many = absurd (omega arith)
  retries_end zero k wr n w w' (refuses e later) many = rw (ap (λ r. r.0) e) refl
  retries_end (suc left) k wr n w w' (refuses {k = j} {next = next} e later) many =
      rw (ap (λ r. r.0) e, ap (λ r. r.1) e)
        (retries_end left j (record wr { signaled = true }) n next w' later (omega arith))

  -- The request that Write posts, and the node after it.
  abbrev pub write_request : Pointer → Pointer → ℕ → Bool → Bool → Node D → SendRequest
  write_request target_ptr local_ptr size fence signaled n =
      record (request_at (request n n.pool.request_id (address local_ptr) size rdma_write fence) t
        target_ptr) { signaled = signaled }

  abbrev pub posted : World D → Node D → Node D
  posted w n = record {
    pool = record n.pool { request_id = suc n.pool.request_id % word };
    world = w;
  }

  -- Where Write has found its target, what is left is its posting and its waiting.
  write_from-posts :
      (fuel : ℕ) (target_ptr local_ptr : Pointer) (size : ℕ) (fence signaled : Bool) (n : Node D)
      → is_local local_ptr n ≡ true
      → size ≤ n.pool.chunk_size
      → get_elem? n.pool.target_map (id target_ptr) ≡ some t
      → write_from v fuel target_ptr local_ptr size fence signaled n
        ≡ (post_retrying v max_retries t (write_request target_ptr local_ptr size fence signaled n)
              >>= λ waits. if waits then wait v fuel t.send_cq else return tt)
            (posted n.world n)
  unfolding write_from target_of next_request_id
  write_from-posts fuel target_ptr local_ptr size fence signaled n own fit is =
      let room : leb size n.pool.chunk_size ≡ true = ground (arith, fit) in
      rw (own, ◌>>=◌, ◌>>◌) (rw (room, ◌>>=◌, ◌>>◌) (rw (is, ◌>>=◌) refl))

  -- With a buffer of the own node, no more bytes than a chunk has and a target that there is,
  -- Write posts its request until the queue has refused it with ENOMEM k times and takes it, if k
  -- is at most 1000000; if it was refused at all or was to be signaled, Write then waits for its
  -- completion, and else it returns. A request refused more often ends the program.
  pub write_from_lem :
      (fuel : ℕ) (target_ptr local_ptr : Pointer) (size : ℕ) (fence signaled : Bool) (n : Node D)
      (k : ℕ) (w' : World D)
      → is_local local_ptr n ≡ true
      → size ≤ n.pool.chunk_size
      → get_elem? n.pool.target_map (id target_ptr) ≡ some t
      → Refuses v t k (write_request target_ptr local_ptr size fence signaled n) n.world w'
      → (k ≤ 1000000
          → write_from v fuel target_ptr local_ptr size fence signaled n ≡ (
              if ltb 0 k || signaled
              then wait v fuel t.send_cq (posted w' n)
              else returns (tt, posted w' n)))
        × (1000000 < k → write_from v fuel target_ptr local_ptr size fence signaled n ≡ fatal)
  write_from_lem fuel target_ptr local_ptr size fence signaled n k w' own fit is refused =
      let wr = write_request target_ptr local_ptr size fence signaled n in
      let posts = write_from-posts fuel target_ptr local_ptr size fence signaled n own fit is in
      (
        λ few.
            posts
            ∙ rw (retries_suffice 1000000 k wr (posted n.world n) n.world w' refused few, ◌>>=◌)
                (waiting fuel k signaled (posted w' n)),
        λ many.
            posts
            ∙ rw (retries_end 1000000 k wr (posted n.world n) n.world w' refused many, ◌>>=◌) refl,
      )
    where
      waiting :
          (fuel k : ℕ) (signaled : Bool) (n : Node D)
          → (if (if k == 0 then signaled else true) then wait v fuel t.send_cq else return tt) n
            ≡ (if ltb 0 k || signaled then wait v fuel t.send_cq n else returns (tt, n))
      waiting fuel zero true n = refl
      waiting fuel zero false n = refl
      waiting fuel (suc k) signaled n =
          let refused : ltb 0 (suc k) ≡ true = ground arith in
          let some_times : (suc k == 0) ≡ false = ground arith in rw (refused, some_times) refl
