-- ===== src/Rdma/Manager/Tests.antt =====
-- The theorems on include/rdma/manager.h at concrete sizes.
use farlock.Base.{
  ℕ, ◌/◌, ◌<◌, ◌≡◌, ◌⊎◌, refl, false, not, ◌==◌, true, Option, some, none, List, [], ◌∷◌, get_elem?,
  length, arith,
}
use farlock.Rdma.MemoryPool.Filling.{Chain}
use farlock.Rdma.Manager.{digits_from, round_chunk_size, FreeLists, init_free_lists}
use farlock.Rdma.Manager.Ports.{
  Queries, Port, scan_gids, scan_ports, scan_devices, find_active_port,
}
use farlock.Rdma.Manager.Ports.First.{works, DeviceFound, find_active_port_lem}
use farlock.Rdma.Listener.{End, initiated, accepted, listening, handle_requests}
use farlock.Rdma.Listener.Arrivals.{arrives}
use farlock.Rdma.Manager.Connections.{expected, init_memory_pool}
use farlock.Rdma.Manager.Connections.Wiring.{init_memory_pool-pairs}
use farlock.Rdma.Manager.Init.{
  hugepagesize, hugepages_free, total_free_huge_page_size, System, RdmaConfig, Initialized,
  region_size, init,
}
use farlock.Rdma.Manager.Init.Within.{Grants, Cut, init_lem}
use farlock.Rdma.Manager.Lists.{run_of, Runs, init_free_lists-Runs}

chunk_sizes :
    (round_chunk_size 100 ≡ some 128)
    × (round_chunk_size 5000 ≡ some 4096)
    × (round_chunk_size 1 ≡ none)
unfolding round_chunk_size digits_from
chunk_sizes = (refl, refl, refl)

-- A region of 8 chunks of 64 bytes at 1024, 4 of them for 2 threads.
abbrev four_unshared : ℕ → ℕ
four_unshared n = 4

abbrev zeros : ℕ → ℕ
zeros a = 0

init_free_lists-Runs_example :
    (lists : FreeLists) × (init_free_lists 1024 512 64 2 four_unshared zeros ≡ some lists)
    × Chain lists.memory lists.free_list (run_of 64 1024 4)
    × Runs lists.memory 64 2 1280 lists.free_lists
    × (length lists.free_lists ≡ 2)
init_free_lists-Runs_example =
    init_free_lists-Runs 64 1024 512 2 four_unshared zeros (omega arith) (omega arith) (omega arith)
      (omega arith) (omega arith)

-- Device 1 opens; its port 1 is not active, and the first gid of its port 2 is zero.
abbrev answers : Queries
answers = record {
  opens = λ d. not (d == 0);
  phys_port_cnt = λ d. some 2;
  port = λ d j. some (record { active = j == 2; gid_tbl_len = 4; lid = 7 });
  gid = λ d j g. some (record { subnet_prefix = 0; interface_id = g });
}

abbrev unset : Port
unset = record {
  gid_index = none;
  gid = record { subnet_prefix = 0; interface_id = 0 };
  lid = 0;
  ib_port = 0;
  ctx = none;
}

abbrev found_port : Port
found_port = record {
  gid_index = some 1;
  gid = record { subnet_prefix = 0; interface_id = 1 };
  lid = 7;
  ib_port = 2;
  ctx = some 1;
}

-- The search in place of its steps: device 1, port 2, gid 1.
found : find_active_port answers 3 unset ≡ some found_port
unfolding find_active_port scan_devices scan_ports scan_gids
found = refl

find_active_port_lem_example :
    (s : Port) × (find_active_port answers 3 unset ≡ some s)
    × (((s.ctx ≡ none) × ((e p h : ℕ) → e < 3 → works answers e p h ≡ false))
        ⊎ DeviceFound answers 3 0 s)
find_active_port_lem_example = find_active_port_lem answers 3 unset (omega arith) refl refl

-- Two pools on each of three nodes: the connections of node 0 reach node 1 in two rounds.
abbrev two_rounds : List (List ℕ)
two_rounds = (1 ∷ []) ∷ (0 ∷ []) ∷ []

both_arrive : (k : ℕ) → k < expected 2 1 → arrives k two_rounds ≡ true
both_arrive k lower = ground (arith, lower)

init_memory_pool-pairs_example :
    (id : ℕ) × (from to : List (Option End)) × (get_elem? (init_memory_pool 2 0 3 (λ k. none)) 1
      ≡ some from)
    × (get_elem? from 1 ≡ some (some (initiated 1 id)))
    × (get_elem?
          (init_memory_pool 2 1 3 (handle_requests two_rounds (listening (expected 2 1))).clients)
          1
        ≡ some to)
    × (get_elem? to 0 ≡ some (some (accepted id)))
init_memory_pool-pairs_example =
    init_memory_pool-pairs 2 3 0 1 1 (λ k. none) two_rounds (omega arith) (omega arith)
      (omega arith) (omega arith) (omega arith) both_arrive

-- A system without huge pages.
abbrev plain_system : System
plain_system = record {
  meminfo = some (hugepagesize (some 2048) true ∷ hugepages_free (some 0) ∷ []);
  alloc_pd = true;
  mmap = λ size. some 4096;
  aligned_alloc = λ alignment size. some 8192;
  reg_mr = λ base size. true;
}

abbrev config : RdmaConfig ℕ
config = record {
  node_id = 1;
  nodes = 10 ∷ 11 ∷ 12 ∷ [];
  available_nodes = 2;
  region_size_mb = 4;
  chunk_size_byte = 100;
  unshared = λ n. n / 2;
}

four_megabytes : total_free_huge_page_size plain_system.meminfo ≡ 0
unfolding total_free_huge_page_size
four_megabytes = refl

grants : Grants plain_system (region_size config)
grants = record {
  pd = refl;
  huge = (4096, refl, omega arith, omega arith);
  regular = λ alignment. (8192, refl, omega arith, omega arith);
  registered = λ base. refl;
}

init_lem_example :
    (base : ℕ) × (i : Initialized) × (init plain_system answers 3 unset zeros (λ k. none) config 2
      ≡ some i)
    × (i.port ≡ found_port)
    × (i.targets ≡ init_memory_pool 2 1 2 (λ k. none))
    × Cut base (region_size config) 2 i
init_lem_example =
    init_lem plain_system answers 3 unset found_port zeros (λ k. none) config 2 found refl grants
      (omega arith) (omega arith) (omega arith)
      (λ n many. (omega (arith, many), omega (arith, many))) (omega arith) (omega arith)
      (omega arith)
