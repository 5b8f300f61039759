-- ===== src/Rdma/Manager.antt =====
-- include/rdma/manager.h: the chunk size, the free lists that the memory region is cut into, and the
-- list that all threads share. What a double of the configuration does to a chunk count is a
-- parameter.
pub mod Ports
pub mod Connections
pub mod ChunkSize
pub mod Lists
pub mod Init
mod Tests
use farlock.Base.{
  ℕ, zero, suc, ◌+◌, ◌-◌, ◌*◌, ◌/◌, ◌%◌, ◌^◌, ◌||◌, Bool, List, [], ◌∷◌, Option, none, some,
  get_elem?, length, word, ltb, leb, ◌==◌, if◌then◌else◌,
}
use farlock.Base.Family.{update}
use farlock.Rdma.Pointer.{Pointer, null, make, address}
use farlock.Rdma.MemoryPool.Chunks.{min_chunk_size, max_chunk_size}

-- The digits of a 64-bit number, 64 less __builtin_clzll.
unfoldable pub digits_from : ℕ → ℕ → ℕ
digits_from zero x = 0
digits_from (suc rounds) x = let rest = digits_from rounds (x / 2) in if x == 0 then 0 else suc rest

-- The chunk size of InitMemoryRegion; none where the code's shift or its count of zeros is not
-- defined.
unfoldable pub round_chunk_size : ℕ → Option ℕ
round_chunk_size chunk_size =
    let below = (chunk_size + word - 1) % word in
    let size = 2 ^ digits_from 64 below in
    if below == 0 || leb 31 (digits_from 64 below)
    then none
    else some (
        if ltb size min_chunk_size
        then min_chunk_size
        else if ltb max_chunk_size size
        then max_chunk_size
        else size)

-- A loop of InitFreeLists: from a chunk on, as many links to the next; the last chunk and the
-- memory.
unfoldable pub link : ℕ → ℕ → ℕ → (ℕ → ℕ) → ℕ × (ℕ → ℕ)
link zero chunk_size current memory = (current, memory)
link (suc k) chunk_size current memory =
    link k chunk_size (current + chunk_size) (update memory current (current + chunk_size))

-- The thread's lists, from the last chunk of what comes before: their heads and the memory.
unfoldable pub init_thread_lists : ℕ → ℕ → ℕ → ℕ → (ℕ → ℕ) → List ℕ × (ℕ → ℕ)
init_thread_lists zero chunk_size per_thread current memory = ([], memory)
init_thread_lists (suc pools) chunk_size per_thread current memory =
    let head = current + chunk_size in
    let (last, linked) = link (per_thread - 1) chunk_size head memory in
    let (heads, done) = init_thread_lists pools chunk_size per_thread last (update linked last 0) in
    (head ∷ heads, done)

pub record FreeLists : Type 0 where
  pub free_list : ℕ
  pub free_lists : List ℕ
  pub memory : ℕ → ℕ

-- InitFreeLists, with what `static_cast<uint32_t>(n * (1 - shared_ratio))` is for a chunk count n.
-- The shared chunks are counted in 32 bits, and a division by 0 is none.
unfoldable pub init_free_lists : ℕ → ℕ → ℕ → ℕ → (ℕ → ℕ) → (ℕ → ℕ) → Option FreeLists
init_free_lists start size chunk_size local_pools unshared memory =
    let chunk_num = size / chunk_size % 2 ^ 32 in
    let unshared_chunk_num = unshared chunk_num % 2 ^ 32 in
    let shared_chunk_num = (chunk_num + 2 ^ 32 - unshared_chunk_num) % 2 ^ 32 in
    let (last, linked) = link (shared_chunk_num - 1) chunk_size start memory in
    let (heads, done) =
      init_thread_lists local_pools chunk_size (unshared_chunk_num / local_pools) last
        (update linked last 0) in
    if local_pools == 0 || chunk_size == 0
    then none
    else some (record { free_list = start; free_lists = heads; memory = done })

-- The parts of a Manager that its operations change or read.
pub record Manager : Type 0 where
  pub free_list : ℕ
  pub node_id : ℕ
  pub memory : ℕ → ℕ

unfoldable pub allocate_shared : Manager → Pointer × Manager
allocate_shared m =
    if m.free_list == 0
    then (null, m)
    else (make m.node_id m.free_list, record m { free_list = m.memory m.free_list })

unfoldable pub free_shared : Pointer → Manager → Manager
free_shared p m = record m {
  free_list = address p;
  memory = update m.memory (address p) m.free_list;
}

-- The index of a thread's pool; none without pools.
unfoldable pub memory_pool_index : ℕ → ℕ → Option ℕ
memory_pool_index thread_id pools = if pools == 0 then none else some (thread_id % pools)
