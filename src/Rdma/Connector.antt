-- ===== src/Rdma/Connector.antt =====
-- How Connect of include/rdma/connector.h comes to a socket of a server: one that it has already, or
-- a new one that it connects, with pauses that grow. What the system answers is a parameter.
pub mod Backoff
mod Tests
use farlock.Base.{
  ℕ, zero, suc, ◌+◌, ◌*◌, ◌%◌, ◌^◌, min, Bool, true, false, Option, none, some, List, [], ◌∷◌, ltb,
  if◌then◌else◌,
}
use farlock.Base.Family.{update}

abbrev pub k_min_backoff_us : ℕ
k_min_backoff_us = 100

abbrev pub k_max_backoff_us : ℕ
k_max_backoff_us = 5000000

-- The members that Connect changes; servers by their addresses, as numbers.
pub record Connector : Type 0 where
  pub connected_servers : ℕ → Option ℕ
  pub backoff_us : ℕ

-- The pause after a refusal.
unfoldable pub next_backoff : ℕ → ℕ → ℕ
next_backoff id backoff_us =
    if ltb 0 backoff_us
    then min ((backoff_us + 100 * id % 2 ^ 32) * 2 % 2 ^ 32) k_max_backoff_us
    else k_min_backoff_us

-- The loop on connect, by its answers: the pauses and the last of them. None is a loop that goes on.
abbrev pub paused : ℕ → Option (List ℕ × ℕ) → Option (List ℕ × ℕ)
paused p none = none
paused p (some (pauses, last)) = some (p ∷ pauses, last)

unfoldable pub retry : ℕ → List Bool → ℕ → Option (List ℕ × ℕ)
retry id [] backoff_us = none
retry id (true ∷ answers) backoff_us = some ([], backoff_us)
retry id (false ∷ answers) backoff_us =
    paused (next_backoff id backoff_us) (retry id answers (next_backoff id backoff_us))

-- A socket and its pauses, and the connector; `fd` is what socket gives, below 0 none.
abbrev pub keep_socket : ℕ → ℕ → Connector → Option (List ℕ × ℕ) → Option (ℕ × List ℕ × Connector)
keep_socket ip fd c none = none
keep_socket ip fd c (some (pauses, last)) = some (
  fd,
  pauses,
  record { connected_servers = update c.connected_servers ip (some fd); backoff_us = last },
)

abbrev pub open_socket : ℕ → ℕ → Option ℕ → List Bool → Connector → Option (ℕ × List ℕ × Connector)
open_socket ip id none answers c = none
open_socket ip id (some fd) answers c = keep_socket ip fd c (retry id answers c.backoff_us)

abbrev pub reuse :
    ℕ → ℕ → Option ℕ → List Bool → Connector → Option ℕ → Option (ℕ × List ℕ × Connector)
reuse ip id fd answers c none = open_socket ip id fd answers c
reuse ip id fd answers c (some client_fd) = some (client_fd, [], c)

unfoldable pub socket_of :
    ℕ → ℕ → Option ℕ → List Bool → Connector → Option (ℕ × List ℕ × Connector)
socket_of ip id fd answers c = reuse ip id fd answers c (c.connected_servers ip)

-- ClearCache.
unfoldable pub clear_cache : Connector → Connector
clear_cache c = record c { connected_servers = λ ip. none }
