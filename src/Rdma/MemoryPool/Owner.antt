-- ===== src/Rdma/MemoryPool/Owner.antt =====
-- What a thread gets of the chunks of its MemoryPool of include/rdma/memory_pool.h.
use farlock.Base.{
  ℕ, suc, ◌/◌, ◌^◌, ◌≤◌, ◌<◌, ◌≡◌, ◌≢◌, refl, ap, ==_refl, ◌-◌, true, false, List, [], replicate,
  take, length, leb, ◌==◌, arith,
}
use farlock.Base.Family.{update, update-same}
use farlock.Rdma.Pointer.{Pointer, null, make, id-make-address}
use farlock.Rdma.MemoryPool.State.{Node, returns, ◌>>=◌, ◌>>◌}
use farlock.Rdma.MemoryPool.Requests.{is_local, word_size}
use farlock.Rdma.MemoryPool.Chunks.{allocate, free, fill_buffers, create}
use farlock.Rdma.MemoryPool.Filling.{Chain, carve, fill_buffers-Part}

-- The constructor's node after its loop.
abbrev with_buffers : {D : Type 0} → List Pointer → Node D → Node D
with_buffers buffers n = record n {
  pool = record n.pool { local_buffer_pointers = buffers; buffer_index = 0; request_id = 0 };
}

created :
    {D : Type 0} (rounds : ℕ) (n : Node D) (buffers : List Pointer) (n1 : Node D)
    → leb 64 n.pool.chunk_size ≡ true
    → leb n.pool.chunk_size 4096 ≡ true
    → fill_buffers rounds
        (n.pool.chunk_size / word_size)
        n.pool.buffer_count
        0
        (replicate n.pool.buffer_count null)
        n
      ≡ returns (buffers, n1)
    → create rounds n ≡ returns (tt, with_buffers buffers n1)
unfolding create
created rounds n buffers n1 bigger smaller runs =
    rw (bigger, ◌>>=◌, ◌>>◌) (rw (smaller, ◌>>=◌, ◌>>◌) (rw (runs, ◌>>=◌) refl))

fill_from_start :
    {D : Type 0} (rounds per less : ℕ) (cs : List ℕ) (n : Node D)
    → n.pool.node_id < 2 ^ 16
    → n.pool.buffer_count < 2 ^ 31
    → per ≡ suc less
    → Chain n.world.memory n.pool.free_list cs
    → n.pool.buffer_count ≤ length (carve per n.pool.node_id cs)
    → n.pool.buffer_count ≤ rounds
    → (n' : Node D) × (fill_buffers rounds per n.pool.buffer_count 0
          (replicate n.pool.buffer_count null)
          n
        ≡ returns (take n.pool.buffer_count (carve per n.pool.node_id cs), n'))
      × (n'.world ≡ n.world)
fill_from_start rounds per less cs n few short positive chain = rw positive (λ fit enough.
    fill_buffers-Part rounds less cs n.pool.buffer_count 0 (replicate n.pool.buffer_count null) []
      n.pool.buffer_count n few short (refl, omega arith, refl) chain fit enough)

-- For a node id below 2 ^ 16, fewer than 2 ^ 31 buffers, a chunk size from 64 to 4096 and a free
-- list with chunks enough, below 2 ^ 48, the constructor's loop ends within as many rounds as
-- there are buffers, and the buffers are the first words of the chunks, in order.
pub create_lem :
    {D : Type 0} (rounds : ℕ) (cs : List ℕ) (n : Node D)
    → n.pool.node_id < 2 ^ 16
    → n.pool.buffer_count < 2 ^ 31
    → 64 ≤ n.pool.chunk_size
    → n.pool.chunk_size ≤ 4096
    → Chain n.world.memory n.pool.free_list cs
    → n.pool.buffer_count ≤ length (carve (n.pool.chunk_size / word_size) n.pool.node_id cs)
    → n.pool.buffer_count ≤ rounds
    → (n' : Node D) × (create rounds n ≡ returns (tt, n'))
      × (n'.pool.local_buffer_pointers
          ≡ take n.pool.buffer_count (carve (n.pool.chunk_size / word_size) n.pool.node_id cs))
      × (n'.pool.buffer_index ≡ 0)
      × (n'.world ≡ n.world)
unfolding create
create_lem rounds cs n few short big small chain fit enough =
    let bigger : leb 64 n.pool.chunk_size ≡ true = ground arith in
    let smaller : leb n.pool.chunk_size 4096 ≡ true = ground arith in
    let chunk_words : n.pool.chunk_size / word_size ≡ suc (n.pool.chunk_size / word_size - 1) =
      omega arith in
    let (n1, runs, same) =
      fill_from_start rounds (n.pool.chunk_size / word_size) _ cs n few short chunk_words chain fit
        enough in
    (_, created rounds n _ n1 bigger smaller runs, refl, refl, same)

-- For a node id below 2 ^ 16 and a chunk at an address below 2 ^ 48 that is not 0, freeing the
-- chunk and allocating gives it back, with the pool as it was.
pub allocate-free :
    {D : Type 0} (n : Node D) (c : ℕ)
    → n.pool.node_id < 2 ^ 16
    → c ≢ 0
    → c < 2 ^ 48
    → (n' : Node D) × ((free (make n.pool.node_id c) >> allocate) n
        ≡ returns (make n.pool.node_id c, n'))
      × (n'.pool ≡ n.pool)
unfolding free allocate is_local
allocate-free n c few nonzero low =
    let (node, addr) = id-make-address n.pool.node_id c few low in
    let memory = update n.world.memory c n.pool.free_list in
    let own = ==_refl n.pool.node_id in
    let some_chunk : (c == 0) ≡ false = ground arith in
    (
      record n {
        world = record n.world { memory = memory };
        pool = record n.pool { free_list = memory c };
      },
      rw (node, own, ◌>>=◌, ◌>>◌) (rw (addr, some_chunk, allocate) refl),
      ap (λ a. record n.pool { free_list = a }) (update-same n.world.memory c n.pool.free_list),
    )
