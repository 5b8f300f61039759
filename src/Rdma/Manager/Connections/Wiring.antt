-- ===== src/Rdma/Manager/Connections/Wiring.antt =====
-- The two ends of each connection that InitMemoryPool of include/rdma/manager.h sets up.
use native.Mathlib.Nat.{add-mul, mul_comm, mul-le-mul_right}
use farlock.Base.{
  ℕ, zero, suc, ◌+◌, ◌-◌, ◌*◌, ◌^◌, ◌≤◌, ◌<◌, ◌≡◌, refl, ◌∙◌, ap, true, Option, none, some, List,
  ◌++◌, get_elem?, length, All, arith, ℕ_discrete,
}
use farlock.Rdma.Listener.{End, initiated, accepted, listening, handle_requests}
use farlock.Rdma.Listener.Arrivals.{arrives, handle_requests_lem}
use farlock.Rdma.Manager.Connections.{
  key, expected, Clients, each, connect_node, connect_nodes, connected, target_map,
  init_memory_pool,
}

-- Rows of keys do not meet.
next_row : (P i : ℕ) → (i + 1) * P ≡ i * P + P
next_row P i = omega (arith, add-mul i 1 P)

below_row : (P i j : ℕ) → i < j → i * P + P ≤ j * P
below_row P i j lt =
    omega (arith, next_row P i, mul-le-mul_right {m = i + 1} {n = j} P (omega arith))

module _ {ℓ} {A : Type ℓ} (f : ℕ → A) where
  pub length-each : (n j : ℕ) → length (each f n j) ≡ n
  unfolding each
  length-each zero j = refl
  length-each (suc n) j = ap suc (length-each n (j + 1))

  get-each : (n j k : ℕ) → k < n → get_elem? (each f n j) k ≡ some (f (j + k))
  unfolding each
  get-each zero j k lt = absurd (omega arith)
  get-each (suc n) j zero lt = ap (λ x. some (f x)) (omega arith)
  get-each (suc n) j (suc k) lt =
      get-each n (j + 1) k (omega arith) ∙ ap (λ x. some (f x)) (omega arith)

  get-each-before :
      (n j : ℕ) (ys : List A) (k : ℕ) → k < n → get_elem? (each f n j ++ ys) k ≡ some (f (j + k))
  unfolding each
  get-each-before zero j ys k lt = absurd (omega arith)
  get-each-before (suc n) j ys zero lt = ap (λ x. some (f x)) (omega arith)
  get-each-before (suc n) j ys (suc k) lt =
      get-each-before n (j + 1) ys k (omega arith) ∙ ap (λ x. some (f x)) (omega arith)

  get-each-after :
      (n j : ℕ) (ys : List A) (k : ℕ) → get_elem? (each f n j ++ ys) (n + k) ≡ get_elem? ys k
  unfolding each
  get-each-after zero j ys k = let same : 0 + k ≡ k = omega arith in rw same
  get-each-after (suc n) j ys k =
      let same : suc n + k ≡ suc (n + k) = omega arith in rw same (get-each-after n (j + 1) ys k)

module _ (P node : ℕ) where
  connect_node-other :
      (i n j : ℕ) (clients : Clients) (k : ℕ)
      → i * P + (j + n) ≤ 2 ^ 32
      → k < i * P + j
      → connect_node P node i n j clients k ≡ clients k
  unfolding connect_node
  connect_node-other i zero j clients k fits low = refl
  connect_node-other i (suc n) j clients k fits low =
      connect_node-other i n (j + 1) _ k (omega (arith, fits)) (omega (arith, low))
      ∙ ground (arith, fits, low)

  connect_node-own :
      (i n j : ℕ) (clients : Clients) (l : ℕ)
      → i * P + (j + n) ≤ 2 ^ 32
      → j ≤ l
      → l < j + n
      → connect_node P node i n j clients (key P i l) ≡ some (initiated i (key P node l))
  unfolding connect_node
  connect_node-own i zero j clients l fits lo hi = absurd (omega (arith, lo, hi))
  connect_node-own i (suc n) j clients l fits lo hi = elim (ℕ_discrete l j) [
    | yes at ↦
        connect_node-other i n (j + 1) _ (key P i l) (omega (arith, fits)) (omega (arith, fits, at))
        ∙ ground (arith, at)
    | no ne ↦
        connect_node-own i n (j + 1) _ l (omega (arith, fits)) (omega (arith, lo, ne))
          (omega (arith, hi))
  ]

  connect_nodes-other :
      (n i : ℕ) (clients : Clients) (k : ℕ)
      → (i + n) * P ≤ 2 ^ 32
      → k < i * P
      → connect_nodes P node n i clients k ≡ clients k
  unfolding connect_nodes
  connect_nodes-other zero i clients k fits low = refl
  connect_nodes-other (suc n) i clients k fits low =
      let row = below_row P i (i + suc n) (omega arith) in
      connect_nodes-other n (i + 1) _ k (rw (show_sum i n) fits) (omega (arith, low, next_row P i))
      ∙ connect_node-other i P 0 clients k (omega (arith, row, fits)) (omega (arith, low))
    where
      show_sum : (i n : ℕ) → i + 1 + n ≡ i + suc n
      show_sum i n = omega arith

  connect_nodes-own :
      (n i : ℕ) (clients : Clients) (c l : ℕ)
      → (i + n) * P ≤ 2 ^ 32
      → i ≤ c
      → c < i + n
      → l < P
      → connect_nodes P node n i clients (key P c l) ≡ some (initiated c (key P node l))
  unfolding connect_nodes
  connect_nodes-own zero i clients c l fits lo hi in_row = absurd (omega (arith, lo, hi))
  connect_nodes-own (suc n) i clients c l fits lo hi in_row =
      let row = below_row P i (i + suc n) (omega arith) in
      let sum : i + 1 + n ≡ i + suc n = omega arith in
      elim (ℕ_discrete c i) [
        | yes at ↦ rw at (
            connect_nodes-other n (i + 1) _ (key P i l) (rw sum fits)
              (omega (arith, in_row, next_row P i, row, fits))
            ∙ connect_node-own i P 0 clients l (omega (arith, row, fits)) (omega arith)
                (omega (arith, in_row)))
        | no ne ↦
            connect_nodes-own n (i + 1) _ c l (rw sum fits) (omega (arith, lo, ne))
              (omega (arith, hi)) in_row
      ]

module _ (P nodes a b pool : ℕ) (lt : a < b) (in_nodes : b < nodes) (in_pools : pool < P)
    (fits : nodes * P < 2 ^ 32) where
  initiator :
      (arrived : Clients)
      → get_elem? (target_map P a nodes arrived pool) b ≡ some (some (initiated b (key P a pool)))
  unfolding target_map
  initiator arrived =
      let m : ℕ = b - (a + 1) in
      let place : b ≡ a + suc m = omega (arith, lt) in
      let node : a + 1 + m ≡ b = omega (arith, lt) in
      let all : a + 1 + (nodes - (a + 1)) ≡ nodes = omega (arith, lt, in_nodes) in
      ap (get_elem? (target_map P a nodes arrived pool)) place
      ∙ get-each-after (λ j. arrived (key P j pool)) a 0 _ (suc m)
      ∙ get-each _ (nodes - (a + 1)) (a + 1) m (omega (arith, lt, in_nodes))
      ∙ ap (λ j. some (connected P a nodes arrived (key P j pool))) node
      ∙ ap some (
          connect_nodes-own P a (nodes - (a + 1)) (a + 1) (λ k. none) b pool
            (rw all (omega (arith, fits))) (omega (arith, lt)) (omega (arith, in_nodes, lt))
            in_pools)

  key_expected : key P a pool < expected P b
  key_expected =
      omega (arith, below_row P a b lt, mul_comm P b, below_row P b nodes in_nodes, fits, in_pools)

  acceptor :
      (clients : Clients)
      → ((k : ℕ) → k < expected P b → clients k ≡ some (accepted k))
      → get_elem? (target_map P b nodes clients pool) a ≡ some (some (accepted (key P a pool)))
  unfolding target_map
  acceptor clients right =
      get-each-before (λ j. clients (key P j pool)) b 0 _ a lt
      ∙ ap (λ j. some (clients (key P j pool))) (omega arith)
      ∙ ap some (right (key P a pool) key_expected)

-- For nodes a below b and a pool of each, where the numbers of all connections fit 32 bits and the
-- ids below those that b expects arrive at b in any rounds and order and no others do, the target
-- of a's pool for b and that of b's pool for a are the two ends of one connection, with the same
-- id.
pub init_memory_pool-pairs :
    (P nodes a b pool : ℕ) (arrived : Clients) (rounds : List (List ℕ))
    → a < b
    → b < nodes
    → pool < P
    → nodes * P < 2 ^ 32
    → All (λ ids. All (λ id. id < expected P b) ids) rounds
    → ((k : ℕ) → k < expected P b → arrives k rounds ≡ true)
    → (id : ℕ) × (from to : List (Option End)) × (get_elem?
          (init_memory_pool P a nodes arrived)
          pool
        ≡ some from)
      × (get_elem? from b ≡ some (some (initiated b id)))
      × (get_elem?
            (init_memory_pool P b nodes (handle_requests rounds (listening (expected P b))).clients)
            pool
          ≡ some to)
      × (get_elem? to a ≡ some (some (accepted id)))
unfolding init_memory_pool
init_memory_pool-pairs P nodes a b pool arrived rounds lt in_nodes in_pools fits lows all =
    let index : 0 + pool ≡ pool = omega arith in
    (
      key P a pool,
      target_map P a nodes arrived pool,
      target_map P b nodes (handle_requests rounds (listening (expected P b))).clients pool,
      get-each _ P 0 pool in_pools ∙ ap (λ i. some (target_map P a nodes arrived i)) index,
      initiator P nodes a b pool lt in_nodes in_pools fits arrived,
      get-each _ P 0 pool in_pools
          ∙ ap
              (λ i. some (
                target_map P b nodes (handle_requests rounds (listening (expected P b))).clients i))
              index,
      acceptor P nodes a b pool lt in_nodes in_pools fits _
          (handle_requests_lem (expected P b) rounds lows all),
    )
