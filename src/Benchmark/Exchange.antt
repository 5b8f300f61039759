-- ===== src/Benchmark/Exchange.antt =====
-- ExchangeLockTable of include/benchmark/benchmark.h on all nodes at once: each node goes through
-- the others in order, and a pair of nodes sends each other one word. A Send ends when the other
-- node receives, so that a message is one step of two nodes.
pub mod Order
pub mod Tables
pub mod Agree
mod Tests
use farlock.Base.{
  ℕ, zero, suc, ◌+◌, ◌*◌, ◌%◌, ◌^◌, Bool, true, false, not, ◌&&◌, ltb, ◌==◌, Option, none, some,
  List, [], ◌∷◌, ◌++◌, if◌then◌else◌,
}
use farlock.Base.Family.{update}
use farlock.Rdma.Pointer.{Pointer, offset}

-- A node's loop: the other node, whether the first of the two calls is done, the lock received, and
-- `remote_locks`.
pub record Loop : Type 0 where
  pub i : ℕ
  pub half : Bool
  pub lock : ℕ
  pub remote_locks : List Pointer

-- The next node after `i` that is not the node itself.
abbrev pub skip : ℕ → ℕ → ℕ
skip node_id i = if i == node_id then i + 1 else i

pub data Call : Type 0 where
  send receive : Call

abbrev pub is_send : Call → Bool
is_send send = true
is_send receive = false

-- The call that comes next: with a later node a Send comes first.
abbrev pub call : ℕ → Loop → Call
call node_id s =
    if ltb node_id s.i
    then (if s.half then receive else send)
    else (if s.half then send else receive)

-- The other node's locks, computed from its first one.
abbrev pub locks_from : ℕ → ℕ → ℕ → ℕ → List Pointer
locks_from chunk_size zero j lock = []
locks_from chunk_size (suc n) j lock =
    offset (record { raw = lock }) (j * chunk_size % 2 ^ 32) ∷ locks_from chunk_size n (j + 1) lock

module _ (locks chunk_size : ℕ) where
  -- A call has returned, with the lock that is known then.
  abbrev pub returned : ℕ → ℕ → Loop → Loop
  returned node_id lock s =
      if s.half
      then record {
        i = skip node_id (s.i + 1);
        half = false;
        lock = lock;
        remote_locks = s.remote_locks ++ locks_from chunk_size locks 0 lock;
      }
      else record s { half = true; lock = lock }

  module _ (nodes : ℕ) (first_lock : ℕ → ℕ) where
    abbrev pub System : Type 0
    System = ℕ → Loop

    -- Node `a` is about to send to `b`, and `b` to receive from `a`.
    abbrev pub meet : ℕ → ℕ → System → Bool
    meet a b s =
        ltb a nodes
        && (ltb b nodes
            && ((((s a).i == b) && ((s b).i == a))
                && (is_send (call a (s a)) && not (is_send (call b (s b))))))

    -- The message passes: the sender keeps the lock that it has, the receiver gets the sender's.
    unfoldable pub pass : ℕ → ℕ → System → System
    pass a b s =
        update (update s a (returned a (s a).lock (s a))) b (returned b (first_lock a) (s b))

    abbrev pub start : System
    start a = record { i = skip a 0; half = false; lock = 0; remote_locks = [] }
