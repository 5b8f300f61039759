-- ===== src/Rdma/Handshake.antt =====
-- Connect and ConnectLoopback of include/rdma/connector.h, and what HandleConnectionRequests of
-- include/rdma/listener.h does with a ConnectionContext: the two ends of a connection. A socket
-- delivers a ConnectionContext whole.
pub mod Ends
mod Tests
use farlock.Base.{ℕ, Option, none, some}
use farlock.Base.Talk.{Talk, then, ◌>>=◌, return}
use farlock.Rdma.Manager.Ports.{Gid}
use farlock.Rdma.QueuePair.{
  Qp, Device, ConnectionContext, TargetContext, create_cq, create_qp, connect_qp,
}

-- What a Connector and a Listener hold of their node.
pub record Side : Type 0 where
  pub address : ℕ
  pub rkey : ℕ
  pub lid : ℕ
  pub gid_index : Option ℕ
  pub gid : Gid
  pub ib_port : ℕ

-- What a side sends of its queue pair.
abbrev pub context_of : Side → Qp → ℕ → ConnectionContext
context_of a qp id = record {
  address = a.address;
  id = id;
  rkey = a.rkey;
  qp_num = qp.qp_num;
  lid = a.lid;
  gid = a.gid;
}

module _ {D : Type 0} (v : Device D) (a : Side) where
  unfoldable pub connect_loopback : Talk D TargetContext
  connect_loopback = do
    rcq ← create_cq v
    qp ← create_qp v rcq rcq
    connect_qp v rcq rcq qp (context_of a qp 0) a.gid_index a.ib_port

  -- Connect, up to its send.
  unfoldable pub connect_send : ℕ → Talk D (ℕ × Qp × ConnectionContext)
  connect_send id = do
    rcq ← create_cq v
    qp ← create_qp v rcq rcq
    return (rcq, qp, context_of a qp id)

  -- Connect, from its recv on.
  unfoldable pub connect_receive : ℕ → Qp → ConnectionContext → Talk D TargetContext
  connect_receive rcq qp ctx = connect_qp v rcq rcq qp ctx a.gid_index a.ib_port

  -- HandleConnectionRequests, from its recv to its send.
  unfoldable pub accept_context : ConnectionContext → Talk D (TargetContext × ConnectionContext)
  accept_context ctx = do
    rcq ← create_cq v
    qp ← create_qp v rcq rcq
    target ← connect_qp v rcq rcq qp ctx a.gid_index a.ib_port
    return (target, context_of a qp ctx.id)

-- The two ends of a connection, on the devices of two nodes.
abbrev pub finish :
    {D E : Type 0}
    → Option (TargetContext × D)
    → TargetContext
    → E
    → Option (TargetContext × TargetContext × D × E)
finish none accepted e = none
finish (some (initiated, d)) accepted e = some (initiated, accepted, d, e)

module _ {D E : Type 0} (v : Device D) (a : Side) (w : Device E) (b : Side) where
  abbrev pub after_accept :
      ℕ
      → Qp
      → D
      → Option ((TargetContext × ConnectionContext) × E)
      → Option (TargetContext × TargetContext × D × E)
  after_accept rcq qp d none = none
  after_accept rcq qp d (some ((accepted, reply), e)) =
      finish (connect_receive v a rcq qp reply d) accepted e

  abbrev pub after_send :
      Option ((ℕ × Qp × ConnectionContext) × D) → E → Option (TargetContext × TargetContext × D × E)
  after_send none e = none
  after_send (some ((rcq, qp, ctx), d)) e = after_accept rcq qp d (accept_context w b ctx e)

  unfoldable pub handshake : ℕ → D → E → Option (TargetContext × TargetContext × D × E)
  handshake id d e = after_send (connect_send v a id d) e
