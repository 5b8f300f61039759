-- ===== src/Rdma/Manager/Connections.antt =====
-- InitMemoryPool of include/rdma/manager.h: which connection each pool of a node has to each node.
pub mod Wiring
use farlock.Base.{ℕ, zero, suc, ◌+◌, ◌-◌, ◌*◌, ◌%◌, ◌^◌, Option, none, some, List, [], ◌∷◌, ◌++◌}
use farlock.Base.Family.{update}
use farlock.Rdma.Listener.{End, initiated, loopback}

-- The number of a connection: that of a node and of a pool, in 32 bits.
abbrev pub key : ℕ → ℕ → ℕ → ℕ
key local_pools i j = (i * local_pools + j) % 2 ^ 32

abbrev pub expected : ℕ → ℕ → ℕ
expected local_pools node_id = (local_pools * node_id) % 2 ^ 32

abbrev pub Clients : Type 0
Clients = ℕ → Option End

-- What a loop pushes back, with `n` rounds left and the next index.
unfoldable pub each {ℓ} : {A : Type ℓ} → (ℕ → A) → ℕ → ℕ → List A
each f zero j = []
each f (suc n) j = f j ∷ each f n (j + 1)

module _ (local_pools node_id : ℕ) where
  -- The connections to node `i`, with `n` pools left and the next one.
  unfoldable pub connect_node : ℕ → ℕ → ℕ → Clients → Clients
  connect_node i zero j clients = clients
  connect_node i (suc n) j clients =
      connect_node i n (j + 1)
        (update clients (key local_pools i j) (some (initiated i (key local_pools node_id j))))

  -- The connections to the nodes that follow, with `n` nodes left and the next one.
  unfoldable pub connect_nodes : ℕ → ℕ → Clients → Clients
  connect_nodes zero i clients = clients
  connect_nodes (suc n) i clients = connect_nodes n (i + 1) (connect_node i local_pools 0 clients)

  module _ (nodes : ℕ) (arrived : Clients) where
    abbrev pub following : ℕ
    following = nodes - (node_id + 1)

    abbrev pub connected : Clients
    connected = connect_nodes following (node_id + 1) (λ k. none)

    -- The targets of one pool, by node.
    unfoldable pub target_map : ℕ → List (Option End)
    target_map pool =
        each (λ j. arrived (key local_pools j pool)) node_id 0
        ++ some loopback ∷ each (λ j. connected (key local_pools j pool)) following (node_id + 1)

    unfoldable pub init_memory_pool : List (List (Option End))
    init_memory_pool = each target_map local_pools 0
