-- ===== src/Rdma/MemoryPool/Chunks.antt =====
-- MemoryPool(), Allocate and Free of include/rdma/memory_pool.h: the free list is threaded through
-- the first word of each free chunk.
use farlock.Base.{
  ℕ, zero, suc, ◌*◌, ◌/◌, ◌^◌, true, false, Option, none, some, List, replicate, set, ◌==◌, leb,
  ltb, if◌then◌else◌,
}
use farlock.Rdma.Pointer.{Pointer, null, make, address, offset, is_null}
use farlock.Rdma.MemoryPool.State.{returns, fatal, spinning, Op, ◌>>=◌, ◌>>◌, get, assert, store}
use farlock.Rdma.MemoryPool.Requests.{is_local, word_size}

-- internal::kMinChunkSize and kMaxChunkSize.
abbrev pub min_chunk_size : ℕ
min_chunk_size = 64

abbrev pub max_chunk_size : ℕ
max_chunk_size = 4096

unfoldable pub allocate : {D : Type 0} → Op D Pointer
allocate n =
    if n.pool.free_list == 0
    then returns (null, n)
    else returns (
      make n.pool.node_id n.pool.free_list,
      record n { pool = record n.pool { free_list = n.world.memory n.pool.free_list } },
    )

unfoldable pub free : {D : Type 0} → Pointer → Op D (Unit {0})
free p = do
  n ← get
  assert (is_local p n)
  store (address p) n.pool.free_list
  set_free_list (address p)
  where
    set_free_list : {D : Type 0} → ℕ → Op D (Unit {0})
    set_free_list a n = returns (tt, record n { pool = record n.pool { free_list = a } })

-- The inner loop of the constructor, with the words of the chunk that are left: the next index and
-- the buffers. The index is an int; none is its overflow, which C++ does not define.
unfoldable pub fill_chunk : ℕ → ℕ → Pointer → ℕ → ℕ → List Pointer → Option (ℕ × List Pointer)
fill_chunk zero j p count i buffers = some (i, buffers)
fill_chunk (suc left) j p count i buffers =
    let rest = fill_chunk left (suc j) p count (suc i) (set buffers i (offset p (j * word_size))) in
    if ltb i count then (if ltb (suc i) (2 ^ 31) then rest else none) else some (i, buffers)

-- The outer loop, at most `rounds` times. An overflow of the index is taken as the program's end.
unfoldable pub fill_buffers : {D : Type 0} → ℕ → ℕ → ℕ → ℕ → List Pointer → Op D (List Pointer)
fill_buffers zero per count i buffers n = if ltb i count then spinning else returns (buffers, n)
fill_buffers (suc rounds) per count i buffers n = elim (ltb i count) [
  | false ↦ returns (buffers, n)
  | true ↦ elim (allocate n) [
    | fatal ↦ fatal
    | spinning ↦ spinning
    | returns allocated ↦ elim (is_null allocated.0) [
      | true ↦ fatal
      | false ↦ elim (fill_chunk per 0 allocated.0 count i buffers) [
        | none ↦ fatal
        | some filled ↦ fill_buffers rounds per count filled.0 filled.1 allocated.1
      ]
    ]
  ]
]

-- The constructor, on a node whose pool has its free list, chunk size, id, key, targets and buffer
-- count.
unfoldable pub create : {D : Type 0} → ℕ → Op D (Unit {0})
create rounds = do
  n ← get
  assert (leb min_chunk_size n.pool.chunk_size)
  assert (leb n.pool.chunk_size max_chunk_size)
  buffers ←
      fill_buffers rounds (n.pool.chunk_size / word_size) n.pool.buffer_count 0
        (replicate n.pool.buffer_count null)
  set_buffers buffers
  where
    set_buffers : {D : Type 0} → List Pointer → Op D (Unit {0})
    set_buffers buffers n = returns (
      tt,
      record n {
        pool = record n.pool { local_buffer_pointers = buffers; buffer_index = 0; request_id = 0 };
      },
    )
