-- ===== src/Rdma/MemoryPool/Requests.antt =====
-- The operations of include/rdma/memory_pool.h that post a request and wait for its completion.
use farlock.Base.{length, ℕ, zero, suc, Bool, true, false, leb, ltb, ◌==◌, if◌then◌else◌}
use farlock.Rdma.Pointer.{Pointer, id, address}
use farlock.Rdma.Verbs.{
  Opcode, rdma_read, rdma_write, atomic_cmp_and_swp, atomic_fetch_and_add, wr_send, SendRequest,
  ReceiveRequest, Verbs,
}
use farlock.Rdma.MemoryPool.State.{
  Target, Node, returns, fatal, spinning, Op, ◌>>=◌, ◌>>◌, return, get, assert, load, store,
  target_of, next_buffer, next_request_id, post, wait,
}

unfoldable pub is_local : {D : Type 0} → Pointer → Node D → Bool
is_local p n = id p == n.pool.node_id

-- A word of 8 bytes.
abbrev pub word_size : ℕ
word_size = 8

-- ENOMEM of errno.h, and the times that Write posts again after it.
abbrev pub enomem : ℕ
enomem = 12

abbrev pub max_retries : ℕ
max_retries = 1000000

-- A request with its key from the node, the atomic operands left 0.
abbrev pub request : {D : Type 0} → Node D → ℕ → ℕ → ℕ → Opcode → Bool → SendRequest
request n wr_id addr size opcode fence = record {
  wr_id = wr_id;
  addr = addr;
  length = size;
  lkey = n.pool.lkey;
  opcode = opcode;
  signaled = true;
  fence = fence;
  remote_addr = 0;
  rkey = 0;
  compare_add = 0;
  swap = 0;
}

-- The same at an address of the target.
abbrev pub request_at : SendRequest → Target → Pointer → SendRequest
request_at wr t target_ptr = record wr { remote_addr = address target_ptr; rkey = t.rkey }

-- How CompareAndSwap, FetchAndAdd and Exchange start: the target, and the word of the ring of
-- buffers that receives the old value.
unfoldable pub prepare : {D : Type 0} → Pointer → Opcode → Bool → Op D (Target × SendRequest)
prepare target_ptr opcode fence = do
  n ← get
  assert (leb word_size n.pool.chunk_size)
  t ← target_of (id target_ptr)
  buffer ← next_buffer
  wr_id ← next_request_id
  return (t, request_at (request n wr_id (address buffer) word_size opcode fence) t target_ptr)

module _ {D : Type 0} (v : Verbs D) where
  -- A request and the wait for its completion, which finds it within `fuel` polls or spins on.
  unfoldable pub complete : ℕ → Target → SendRequest → Op D (Unit {0})
  complete fuel t wr = do post v t wr; wait v fuel t.send_cq

  unfoldable pub post_receive : Target → ReceiveRequest → Op D (Unit {0})
  post_receive t wr n =
      let (rv, w) = v.post_recv t.qp wr n.world in
      if rv == 0 then returns (tt, record n { world = w }) else fatal

  -- Read(target_ptr, local_ptr, size, fence).
  unfoldable pub read_into : ℕ → Pointer → Pointer → ℕ → Bool → Op D (Unit {0})
  read_into fuel target_ptr local_ptr size fence = do
    n ← get
    assert (is_local local_ptr n)
    assert (leb size n.pool.chunk_size)
    t ← target_of (id target_ptr)
    wr_id ← next_request_id
    complete fuel t
        (request_at (request n wr_id (address local_ptr) size rdma_read fence) t target_ptr)

  -- Read(target_ptr, fence).
  unfoldable pub read_word : ℕ → Pointer → Bool → Op D ℕ
  read_word fuel target_ptr fence = do
    n ← get
    assert (leb word_size n.pool.chunk_size)
    assert (ltb (id target_ptr) (length n.pool.target_map))
    buffer ← next_buffer
    read_into fuel target_ptr buffer word_size fence
    load (address buffer)

  -- The `retry` of Write, with what is left of its count; it answers if the request was signaled.
  unfoldable pub post_retrying : ℕ → Target → SendRequest → Op D Bool
  post_retrying zero t wr n =
      let (rv, w) = v.post_send t.qp wr n.world in
      if rv == 0 then returns (wr.signaled, record n { world = w }) else fatal
  post_retrying (suc left) t wr n =
      let (rv, w) = v.post_send t.qp wr n.world in
      let again = post_retrying left t (record wr { signaled = true }) (record n { world = w }) in
      if rv == 0
      then returns (wr.signaled, record n { world = w })
      else if rv == enomem
      then again
      else fatal

  -- Write(target_ptr, local_ptr, size, fence, signaled).
  unfoldable pub write_from : ℕ → Pointer → Pointer → ℕ → Bool → Bool → Op D (Unit {0})
  write_from fuel target_ptr local_ptr size fence signaled = do
    n ← get
    assert (is_local local_ptr n)
    assert (leb size n.pool.chunk_size)
    t ← target_of (id target_ptr)
    wr_id ← next_request_id
    let wr = request_at (request n wr_id (address local_ptr) size rdma_write fence) t target_ptr
    waits ← post_retrying max_retries t (record wr { signaled = signaled })
    if waits then wait v fuel t.send_cq else return tt

  -- Write(target_ptr, value, fence, signaled).
  unfoldable pub write_word : ℕ → Pointer → ℕ → Bool → Bool → Op D (Unit {0})
  write_word fuel target_ptr value fence signaled = do
    n ← get
    assert (leb word_size n.pool.chunk_size)
    assert (ltb (id target_ptr) (length n.pool.target_map))
    buffer ← next_buffer
    store (address buffer) value
    write_from fuel target_ptr buffer word_size fence signaled

  -- CompareAndSwap(target_ptr, expected, desired, fence).
  unfoldable pub compare_and_swap : ℕ → Pointer → ℕ → ℕ → Bool → Op D Bool
  compare_and_swap fuel target_ptr expected desired fence = do
    (t, wr) ← prepare target_ptr atomic_cmp_and_swp fence
    complete fuel t (record wr { compare_add = expected; swap = desired })
    prev ← load wr.addr
    return (prev == expected)

  -- CompareAndSwap(target_ptr, &expected, desired, fence), which fences whatever it is told.
  unfoldable pub compare_and_swap_update : ℕ → Pointer → ℕ → ℕ → Bool → Op D Bool
  compare_and_swap_update fuel target_ptr expected_at desired fence = do
    (t, wr) ← prepare target_ptr atomic_cmp_and_swp true
    asked ← load expected_at
    complete fuel t (record wr { compare_add = asked; swap = desired })
    prev ← load wr.addr
    expected ← load expected_at
    store expected_at prev
    return (prev == expected)

  -- FetchAndAdd(target_ptr, add, fence).
  unfoldable pub fetch_and_add : ℕ → Pointer → ℕ → Bool → Op D ℕ
  fetch_and_add fuel target_ptr add fence = do
    (t, wr) ← prepare target_ptr atomic_fetch_and_add fence
    complete fuel t (record wr { compare_add = add })
    load wr.addr

  -- The loop of Exchange, at most `rounds` times.
  unfoldable pub exchange_loop : ℕ → ℕ → Target → SendRequest → Op D ℕ
  exchange_loop zero fuel t wr n = spinning
  exchange_loop (suc rounds) fuel t wr n = elim (complete fuel t wr n) [
    | fatal ↦ fatal
    | spinning ↦ spinning
    | returns done ↦
        let prev = done.1.world.memory wr.addr in
        let rest = exchange_loop rounds fuel t (record wr { compare_add = prev }) done.1 in
        if prev == wr.compare_add then returns (prev, done.1) else rest
  ]

  -- Exchange(target_ptr, desired, hint).
  unfoldable pub exchange : ℕ → ℕ → Pointer → ℕ → ℕ → Op D ℕ
  exchange rounds fuel target_ptr desired hint = do
    (t, wr) ← prepare target_ptr atomic_cmp_and_swp true
    exchange_loop rounds fuel t (record wr { compare_add = hint; swap = desired })

  -- Send(node_id, local_ptr, size).
  unfoldable pub send_from : ℕ → ℕ → Pointer → ℕ → Op D (Unit {0})
  send_from fuel node_id local_ptr size = do
    n ← get
    assert (is_local local_ptr n)
    assert (leb size n.pool.chunk_size)
    t ← target_of node_id
    wr_id ← next_request_id
    complete fuel t (request n wr_id (address local_ptr) size wr_send false)

  -- Send(node_id, value).
  unfoldable pub send_word : ℕ → ℕ → ℕ → Op D (Unit {0})
  send_word fuel node_id value = do
    n ← get
    assert (leb word_size n.pool.chunk_size)
    assert (ltb node_id (length n.pool.target_map))
    buffer ← next_buffer
    store (address buffer) value
    send_from fuel node_id buffer word_size

  -- Receive(node_id, local_ptr, size).
  unfoldable pub receive_into : ℕ → ℕ → Pointer → ℕ → Op D (Unit {0})
  receive_into fuel node_id local_ptr size = do
    n ← get
    assert (is_local local_ptr n)
    assert (leb size n.pool.chunk_size)
    t ← target_of node_id
    wr_id ← next_request_id
    post_receive t
        (record { wr_id = wr_id; addr = address local_ptr; length = size; lkey = n.pool.lkey })
    wait v fuel t.recv_cq

  -- Receive(node_id).
  unfoldable pub receive_word : ℕ → ℕ → Op D ℕ
  receive_word fuel node_id = do
    n ← get
    assert (leb word_size n.pool.chunk_size)
    assert (ltb node_id (length n.pool.target_map))
    buffer ← next_buffer
    receive_into fuel node_id buffer word_size
    load (address buffer)
