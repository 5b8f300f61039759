-- ===== src/Rdma/Manager/Init/Within.antt =====
-- Init of include/rdma/manager.h cuts the free lists within the memory region.
use native.Mathlib.Nat.{div-mul-le_self}
use farlock.Base.{
  ℕ, suc, ◌+◌, ◌-◌, ◌*◌, ◌/◌, ◌%◌, ◌^◌, ◌≤◌, ◌<◌, ◌≡◌, refl, subst, true, Option, some, List,
  length, ltb, leb, ◌==◌, arith, Bool-cases, inl, inr,
}
use farlock.Rdma.MemoryPool.Filling.{Chain}
use farlock.Rdma.Manager.{round_chunk_size, FreeLists, init_free_lists}
use farlock.Rdma.Manager.ChunkSize.{round_chunk_size_lem}
use farlock.Rdma.Manager.Lists.{run_of, Runs, init_free_lists-Runs}
use farlock.Rdma.Manager.Ports.{Queries, Port, find_active_port}
use farlock.Rdma.Listener.{End}
use farlock.Rdma.Manager.Connections.{Clients, init_memory_pool}
use farlock.Rdma.Manager.Init.{
  System, RdmaConfig, Initialized, total_free_huge_page_size, init_memory_region, has_device,
  region_size, init,
}
use farlock.Rdma.Manager.Init.Parts.{parts-le, Divides-size}

-- A system that gives memory below 2 ^ 48 and registers it.
pub record Grants (sys : System) (size : ℕ) : Type 0 where
  pub pd : sys.alloc_pd ≡ true
  pub huge : (base : ℕ) × (sys.mmap size ≡ some base) × (0 < base) × (base + size ≤ 2 ^ 48)
  pub regular :
      (alignment : ℕ)
      → (base : ℕ) × (sys.aligned_alloc alignment size ≡ some base)
        × (0 < base)
        × (base + size ≤ 2 ^ 48)
  pub registered : (base : ℕ) → sys.reg_mr base size ≡ true

-- What Init makes of the region: a shared list of some chunks, and then a list of some chunks for
-- each pool, all within the region.
pub record Cut (base size pools : ℕ) (i : Initialized) : Type 0 where
  pub at : i.region_base ≡ base
  pub bounds : (64 ≤ i.chunk_size) × (i.chunk_size ≤ 4096)
  pub power : (k : ℕ) × (i.chunk_size ≡ 2 ^ k)
  pub shared : ℕ
  pub per_thread : ℕ
  pub some_shared : 0 < shared
  pub some_each : 0 < per_thread
  pub shared_list : Chain i.lists.memory i.lists.free_list (run_of i.chunk_size base shared)
  pub thread_lists :
      Runs i.lists.memory i.chunk_size per_thread (base + shared * i.chunk_size) i.lists.free_lists
  pub pools_lists : length i.lists.free_lists ≡ pools
  pub within : base + shared * i.chunk_size + pools * (per_thread * i.chunk_size) ≤ base + size

module _ (port : Port) (targets : List (List (Option End))) (base size chunk pools : ℕ)
    (unshared memory : ℕ → ℕ) where
  abbrev initialized : FreeLists → Initialized
  initialized lists = record {
    port = port;
    region_base = base;
    chunk_size = chunk;
    lists = lists;
    targets = targets;
  }

  -- The lists that InitFreeLists makes of a region of that many chunks.
  lists-Cut :
      ((k : ℕ) × (chunk ≡ 2 ^ k))
      → 64 ≤ chunk
      → chunk ≤ 4096
      → 0 < base
      → base + size ≤ 2 ^ 48
      → size / chunk < 2 ^ 32
      → unshared (size / chunk) < size / chunk
      → 0 < pools
      → pools ≤ unshared (size / chunk)
      → (lists : FreeLists) × (init_free_lists base size chunk pools unshared memory ≡ some lists)
        × Cut base size pools (initialized lists)
  lists-Cut power low high positive fit few less some_pools enough =
      let n = size / chunk in
      let u = unshared n in
      let same : n % 2 ^ 32 ≡ n = omega (arith, few) in
      let parts = parts-le n u pools chunk less some_pools enough in
      let whole = div-mul-le_self size chunk in
      let (lists, ends, shared_list, thread_lists, many) =
        init_free_lists-Runs chunk base size pools unshared memory (omega (arith, low)) positive
          some_pools (rw same (omega (arith, less))) (rw same (omega (arith, parts, whole, fit))) in
      (
        lists,
        ends,
        record {
          at = refl;
          bounds = (low, high);
          power = power;
          shared = suc (n - u - 1);
          per_thread = suc (u / pools - 1);
          some_shared = omega arith;
          some_each = omega arith;
          shared_list =
              subst
                (λ m.
                  Chain lists.memory lists.free_list (run_of chunk base (suc (m - unshared m - 1))))
                same shared_list;
          thread_lists =
              subst
                (λ m.
                  Runs lists.memory chunk (suc (unshared m / pools - 1))
                    (base + suc (m - unshared m - 1) * chunk) lists.free_lists)
                same thread_lists;
          pools_lists = many;
          within = omega (arith, parts, whole);
        },
      )

module _ (sys : System) where
  -- InitMemoryRegion on a system that gives memory.
  init_memory_region_lem :
      (chunk_size size chunk : ℕ)
      → round_chunk_size chunk_size ≡ some chunk
      → size % chunk ≡ 0
      → Grants sys size
      → (base : ℕ) × (init_memory_region sys chunk_size size ≡ some (base, chunk))
        × (0 < base)
        × (base + size ≤ 2 ^ 48)
  unfolding init_memory_region
  init_memory_region_lem chunk_size size chunk round multiple g =
      let divided : (size % chunk == 0) ≡ true = ground (arith, multiple) in
      elim (Bool-cases (leb size (total_free_huge_page_size sys.meminfo))) [
        | inl enough ↦
            let (base, gives, positive, fit) = g.huge in
            (base, rw (g.pd, round, divided, enough, gives, g.registered base) refl, positive, fit)
        | inr few ↦
            let (base, gives, positive, fit) = g.regular chunk in
            (base, rw (g.pd, round, divided, few, gives, g.registered base) refl, positive, fit)
      ]

  -- With FindActivePort ending at a device, a system that gives memory below 2 ^ 48 and registers
  -- it, a chunk size from 2 to 2 ^ 30, fewer than 2 ^ 18 megabytes, a shared ratio that leaves the
  -- shared list a chunk and each pool one, at least one pool and the node among the available
  -- ones, which have addresses, Init ends with that port, the target maps of InitMemoryPool, a
  -- chunk size that is a power of two from 64 to 4096, a shared list of at least one chunk from
  -- the base of the region on and for each pool a list of at least one chunk after the list
  -- before, all within the region.
  pub init_lem :
      {A : Type 0} (q : Queries) (devices : ℕ) (before port : Port) (memory : ℕ → ℕ)
      (arrived : Clients) (config : RdmaConfig A) (local_pools : ℕ)
      → find_active_port q devices before ≡ some port
      → has_device port.ctx ≡ true
      → Grants sys (region_size config)
      → 2 ≤ config.chunk_size_byte
      → config.chunk_size_byte ≤ 2 ^ 30
      → config.region_size_mb < 2 ^ 18
      → ((n : ℕ)
          → config.region_size_mb * 256 ≤ n
          → (config.unshared n < n) × (local_pools ≤ config.unshared n))
      → 0 < local_pools
      → config.node_id < config.available_nodes
      → config.available_nodes ≤ length config.nodes
      → (base : ℕ) × (i : Initialized) × (init sys q devices before memory arrived config
            local_pools
          ≡ some i)
        × (i.port ≡ port)
        × (i.targets ≡ init_memory_pool local_pools config.node_id config.available_nodes arrived)
        × Cut base (region_size config) local_pools i
  unfolding init
  init_lem q devices before port memory arrived config local_pools found device g big small few
        shares some_pools known enough =
      let (chunk, k, round, power, low, high, more, tight) =
        round_chunk_size_lem config.chunk_size_byte big small in
      let (multiple, many, fits) = Divides-size config.region_size_mb chunk k few power low high in
      let (base, gives, positive, fit) =
        init_memory_region_lem config.chunk_size_byte (region_size config) chunk round multiple g in
      let share = shares (region_size config / chunk) many in
      let pools : ltb 0 local_pools ≡ true = ground (arith, some_pools) in
      let here : ltb config.node_id (length config.nodes) ≡ true = ground (arith, known, enough) in
      let all : leb config.available_nodes (length config.nodes) ≡ true = ground (arith, enough) in
      let own : ltb config.node_id config.available_nodes ≡ true = ground (arith, known) in
      let targets = init_memory_pool local_pools config.node_id config.available_nodes arrived in
      let (lists, ends, cut) =
        lists-Cut port targets base (region_size config) chunk local_pools config.unshared memory
          (k, power) low high positive fit fits share.0 some_pools share.1 in
      (
        base,
        initialized port targets base (region_size config) chunk local_pools config.unshared memory
            lists,
        rw (pools, here, found, device, gives, ends, all, own) refl,
        refl,
        refl,
        cut,
      )
