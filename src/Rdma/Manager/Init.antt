-- ===== src/Rdma/Manager/Init.antt =====
-- GetTotalFreeHugePageSize, InitMemoryRegion and Init of include/rdma/manager.h. What the system and
-- the verbs library answer is a parameter, and an answer that ends the program is none.
pub mod Parts
pub mod Within
use farlock.Base.{
  ℕ, ◌*◌, ◌%◌, Bool, true, false, Option, none, some, List, [], ◌∷◌, length, word, ltb, leb, ◌==◌,
  if◌then◌else◌,
}
use farlock.Rdma.Manager.{round_chunk_size, FreeLists, init_free_lists}
use farlock.Rdma.Manager.Ports.{Queries, Port, find_active_port}
use farlock.Rdma.Manager.Connections.{Clients, init_memory_pool}
use farlock.Rdma.Listener.{End}

infixl 5 ◌>>=◌ ◌>>◌
abbrev pub ◌>>=◌ : {A B : Type 0} → Option A → (A → Option B) → Option B
none >>= f = none
some a >>= f = f a

abbrev pub ◌>>◌ : {B : Type 0} → Option (Unit {0}) → Option B → Option B
m >> k = m >>= λ _. k

-- A test that the program does not survive when it fails.
abbrev pub check : Bool → Option (Unit {0})
check true = some tt
check false = none

-- A line of /proc/meminfo, with the number that it has, if any.
pub data Line : Type 0 where
  hugepagesize : Option ℕ → (in_kb : Bool) → Line
  hugepages_free : Option ℕ → Line
  other : Line

pub record Found : Type 0 where
  pub hugepage_size : ℕ
  pub free_hugepages : ℕ
  pub size_unit : ℕ

abbrev pub number_or : Option ℕ → ℕ → ℕ
number_or none old = old
number_or (some n) old = n

abbrev pub read_line : Line → Found → Found
read_line (hugepagesize n in_kb) f = record f {
  hugepage_size = number_or n f.hugepage_size;
  size_unit = if in_kb then f.size_unit else 0;
}
read_line (hugepages_free n) f = record f { free_hugepages = number_or n f.free_hugepages }
read_line other f = f

abbrev pub read_lines : List Line → Found → Found
read_lines [] f = f
read_lines (l ∷ ls) f = read_lines ls (read_line l f)

abbrev pub product : Found → ℕ
product f = f.hugepage_size * f.free_hugepages % word * f.size_unit % word

-- GetTotalFreeHugePageSize; none is a file that does not open.
unfoldable pub total_free_huge_page_size : Option (List Line) → ℕ
total_free_huge_page_size none = 0
total_free_huge_page_size (some lines) =
    product (read_lines lines (record { hugepage_size = 0; free_hugepages = 0; size_unit = 1024 }))

-- The answers of the system and of the verbs library.
pub record System : Type 0 where
  pub meminfo : Option (List Line)
  pub alloc_pd : Bool
  pub mmap : ℕ → Option ℕ
  pub aligned_alloc : ℕ → ℕ → Option ℕ
  pub reg_mr : ℕ → ℕ → Bool

-- RdmaConfig, with what its shared_ratio does to a chunk count.
pub record RdmaConfig (A : Type 0) : Type 0 where
  pub node_id : ℕ
  pub nodes : List A
  pub available_nodes : ℕ
  pub region_size_mb : ℕ
  pub chunk_size_byte : ℕ
  pub unshared : ℕ → ℕ

pub record Initialized : Type 0 where
  pub port : Port
  pub region_base : ℕ
  pub chunk_size : ℕ
  pub lists : FreeLists
  pub targets : List (List (Option End))

abbrev pub has_device : Option ℕ → Bool
has_device none = false
has_device (some d) = true

-- `region_size_mb` in bytes.
abbrev pub region_size : {A : Type 0} → RdmaConfig A → ℕ
region_size config = config.region_size_mb * 1024 * 1024 % word

module _ (sys : System) where
  -- The base of the region, with the chunk size that the Manager keeps.
  unfoldable pub init_memory_region : ℕ → ℕ → Option (ℕ × ℕ)
  init_memory_region chunk_size desired_size = do
    check sys.alloc_pd
    size ← round_chunk_size chunk_size
    check (desired_size % size == 0)
    base ←
        (if leb desired_size (total_free_huge_page_size sys.meminfo)
          then sys.mmap desired_size
          else sys.aligned_alloc size desired_size)
    check (sys.reg_mr base desired_size)
    some (base, size)

  -- Init, with the devices that there are, the members before the search, the memory, and the
  -- connections that the listener has accepted. The addresses of the nodes are in range if there are
  -- as many as available nodes, and so is the node's own.
  unfoldable pub init :
      {A : Type 0} → Queries → ℕ → Port → (ℕ → ℕ) → Clients → RdmaConfig A → ℕ → Option Initialized
  init q devices before memory arrived config local_pools = do
    check (ltb 0 local_pools)
    check (ltb config.node_id (length config.nodes))
    port ← find_active_port q devices before
    check (has_device port.ctx)
    (base, size) ← init_memory_region config.chunk_size_byte (region_size config)
    lists ← init_free_lists base (region_size config) size local_pools config.unshared memory
    check (leb config.available_nodes (length config.nodes))
    check (ltb config.node_id config.available_nodes)
    some (record {
      port = port;
      region_base = base;
      chunk_size = size;
      lists = lists;
      targets = init_memory_pool local_pools config.node_id config.available_nodes arrived;
    })
