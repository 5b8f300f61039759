-- ===== src/Rdma/Connector/Backoff.antt =====
-- The pauses of Connect of include/rdma/connector.h.
use farlock.Base.{
  ℕ, zero, suc, ◌*◌, ◌≤◌, ◌≡◌, refl, min, true, false, none, some, List, [], ◌∷◌, ◌++◌, length,
  replicate, ap, ◌⊎◌, inr, Bool, arith,
}
use farlock.Base.Family.{update}
use farlock.Rdma.Connector.{
  k_min_backoff_us, k_max_backoff_us, Connector, next_backoff, retry, socket_of,
}

-- No pause yet, or one within the bounds.
abbrev pub Pause : ℕ → Type 0
Pause b = (b ≡ 0) ⊎ ((k_min_backoff_us ≤ b) × (b ≤ k_max_backoff_us))

-- Pauses within the bounds, each no less than twice the one before or the greatest.
abbrev pub Grow : ℕ → List ℕ → Type 0
Grow b [] = Unit {0}
Grow b (p ∷ ps) =
    (k_min_backoff_us ≤ p) × (p ≤ k_max_backoff_us) × (min (2 * b) k_max_backoff_us ≤ p) × Grow p ps

-- For ids for which the sum does not wrap.
next_backoff_lem :
    (id b : ℕ)
    → id ≤ 21000000
    → Pause b
    → (k_min_backoff_us ≤ next_backoff id b)
      × (next_backoff id b ≤ k_max_backoff_us)
      × (min (2 * b) k_max_backoff_us ≤ next_backoff id b)
unfolding next_backoff
next_backoff_lem id b few pause = ground (arith, few, pause)

retry_lem :
    (id n : ℕ) (answers : List Bool) (b : ℕ)
    → id ≤ 21000000
    → Pause b
    → (pauses : List ℕ) × (last : ℕ) × (retry id (replicate n false ++ true ∷ answers) b
        ≡ some (pauses, last))
      × (length pauses ≡ n)
      × Grow b pauses
      × Pause last
unfolding retry
retry_lem id zero answers b few pause = ([], b, refl, refl, tt, pause)
retry_lem id (suc n) answers b few pause =
    let (low, high, twice) = next_backoff_lem id b few pause in
    let (pauses, last, e, many, grow, good) =
      retry_lem id n answers (next_backoff id b) few (inr (low, high)) in
    (next_backoff id b ∷ pauses, last, rw e refl, ap suc many, (low, high, twice, grow), good)

-- For an id up to 21000000, a last pause that is none or within the bounds, and a server that
-- accepts after n refusals, Connect's loop ends: with the socket of a server that it has already,
-- without an attempt, and else with the new one after n pauses within the bounds, each no less
-- than twice the one before or the greatest, with the socket kept for the server.
pub socket_of_lem :
    (ip id n fd : ℕ) (answers : List Bool) (c : Connector)
    → id ≤ 21000000
    → Pause c.backoff_us
    → ((known : ℕ)
        → c.connected_servers ip ≡ some known
        → socket_of ip id (some fd) (replicate n false ++ true ∷ answers) c ≡ some (known, [], c))
      × (c.connected_servers ip ≡ none
          → (pauses : List ℕ) × (after : Connector) × (socket_of ip id
                (some fd)
                (replicate n false ++ true ∷ answers)
                c
              ≡ some (fd, pauses, after))
            × (length pauses ≡ n)
            × Grow c.backoff_us pauses
            × Pause after.backoff_us
            × (after.connected_servers ≡ update c.connected_servers ip (some fd)))
unfolding socket_of
socket_of_lem ip id n fd answers c few pause =
    let (pauses, last, e, many, grow, good) = retry_lem id n answers c.backoff_us few pause in
    (
      λ known at. rw at refl,
      λ at. (
        pauses,
        record { connected_servers = update c.connected_servers ip (some fd); backoff_us = last },
        rw (at, e) refl,
        many,
        grow,
        good,
        refl,
      ),
    )
