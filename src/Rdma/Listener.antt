-- ===== src/Rdma/Listener.antt =====
-- include/rdma/listener.h: the connections that a node accepts. A TargetContext is known by the
-- connection that it is an end of.
pub mod Arrivals
use farlock.Base.{
  ℕ, ◌+◌, ◌-◌, Bool, true, false, Option, none, some, List, [], ◌∷◌, ◌==◌, if◌then◌else◌,
}
use farlock.Base.Family.{update}

-- The end that the Connector made of a connection with that id to a node; the end that the Listener
-- made of the connection with that id; the connection of a node with itself.
pub data End : Type 0 where
  initiated : (node id : ℕ) → End
  accepted : (id : ℕ) → End
  loopback : End

pub record Listener : Type 0 where
  pub expected_clients : ℕ
  pub connected_clients : ℕ
  pub clients : ℕ → Option End

abbrev pub listening : ℕ → Listener
listening expected = record {
  expected_clients = expected;
  connected_clients = 0;
  clients = λ id. none;
}

abbrev pub known : Option End → Bool
known none = false
known (some t) = true

-- A ConnectionContext with its id arrives: an id that is there already is not counted again.
unfoldable pub handle_context : ℕ → Listener → Listener
handle_context id s = record s {
  connected_clients =
      (if known (s.clients id) then s.connected_clients - 1 else s.connected_clients) + 1;
  clients = update s.clients id (some (accepted id));
}

-- The sockets that have data after one call of select.
unfoldable pub handle_round : List ℕ → Listener → Listener
handle_round [] s = s
handle_round (id ∷ ids) s = handle_round ids (handle_context id s)

-- HandleConnectionRequests, by the ids that arrive in each round: it ends when all clients are
-- connected.
unfoldable pub handle_requests : List (List ℕ) → Listener → Listener
handle_requests [] s = s
handle_requests (ids ∷ rounds) s =
    let rest = handle_requests rounds (handle_round ids s) in
    if s.connected_clients == s.expected_clients then s else rest
