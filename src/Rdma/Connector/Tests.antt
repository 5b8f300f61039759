-- ===== src/Rdma/Connector/Tests.antt =====
-- A server that refuses the connection of include/rdma/connector.h twice.
use farlock.Base.{ℕ, ◌≡◌, refl, true, false, none, some, List, [], ◌∷◌, length, arith, inl}
use farlock.Base.Family.{update}
use farlock.Rdma.Connector.{Connector, next_backoff, retry, socket_of}
use farlock.Rdma.Connector.Backoff.{Pause, Grow, socket_of_lem}

abbrev fresh : Connector
fresh = record { connected_servers = λ ip. none; backoff_us = 0 }

two_refusals :
    socket_of 7 3 (some 20) (false ∷ false ∷ true ∷ []) fresh
    ≡ some (
      20,
      100 ∷ 800 ∷ [],
      record { connected_servers = update (λ ip. none) 7 (some 20); backoff_us = 800 },
    )
unfolding socket_of retry next_backoff
two_refusals = refl

socket_of_lem_example :
    ((known : ℕ)
      → fresh.connected_servers 7 ≡ some known
      → socket_of 7 3 (some 20) (false ∷ false ∷ true ∷ []) fresh ≡ some (known, [], fresh))
    × (fresh.connected_servers 7 ≡ none
        → (pauses : List ℕ) × (after : Connector) × (socket_of 7 3
              (some 20)
              (false ∷ false ∷ true ∷ [])
              fresh
            ≡ some (20, pauses, after))
          × (length pauses ≡ 2)
          × Grow 0 pauses
          × Pause after.backoff_us
          × (after.connected_servers ≡ update (λ ip. none) 7 (some 20)))
socket_of_lem_example = socket_of_lem 7 3 2 20 [] fresh (omega arith) (inl refl)
