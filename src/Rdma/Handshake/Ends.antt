-- ===== src/Rdma/Handshake/Ends.antt =====
-- The ends of a connection that include/rdma/connector.h and include/rdma/listener.h make name each
-- other.
use farlock.Base.{ℕ, ◌≡◌, ◌≢◌, refl, Option, none, some}
use farlock.Rdma.Manager.Ports.{Gid}
use farlock.Rdma.QueuePair.{
  qps_rts, QpAttr, zero_attr, Qp, Device, ConnectionContext, TargetContext, route_to,
}
use farlock.Rdma.QueuePair.Documented.{Works}
use farlock.Rdma.Handshake.{
  Side, context_of, connect_loopback, connect_send, connect_receive, accept_context, handshake,
}
use farlock.Rdma.QueuePair.Connected.{create_cq_lem, create_qp_lem, attr_for, connect_qp_lem}

-- The end `own` of a connection with the node of `b`, whose end is `other`.
pub record Joined {D : Type 0} (qps : D → ℕ → Option QpAttr) (d : D) (a b : Side)
    (own other : TargetContext) : Type 0 where
  pub attr : QpAttr
  pub at : qps d own.qp.handle ≡ some attr
  pub sends : attr.state ≡ qps_rts
  pub peer : attr.dest_qp_num ≡ other.qp.qp_num
  pub dlid : attr.ah_attr.dlid ≡ b.lid
  pub dgid : a.gid_index ≢ none → attr.ah_attr.dgid ≡ b.gid
  pub port : (attr.port_num ≡ 1) × (a.gid_index ≢ none → attr.ah_attr.port_num ≡ 1)
  pub address : own.address ≡ b.address
  pub rkey : own.rkey ≡ b.rkey

module _ {D : Type 0} (v : Device D) (qps : D → ℕ → Option QpAttr) (works : Works v qps) where
  -- A completion queue and a fresh queue pair.
  connect_send_lem :
      (a : Side) (id : ℕ) (d : D)
      → (rcq : ℕ) × (qp : Qp) × (after : D) × (connect_send v a id d
          ≡ some ((rcq, qp, context_of a qp id), after))
        × (qps after qp.handle ≡ some zero_attr)
  unfolding connect_send
  connect_send_lem a id d =
      let (rcq, made) = works.cq d in
      let d1 = (v.create_cq d).1 in
      let (qp, given) = works.qp rcq rcq d1 in
      (
        rcq,
        qp,
        (v.create_qp rcq rcq d1).1,
        rw (create_cq_lem v rcq d made, create_qp_lem v rcq rcq qp d1 given) refl,
        works.fresh rcq rcq d1 qp given,
      )

  accept_context_lem :
      (a : Side) (ctx : ConnectionContext) (d : D)
      → (rcq : ℕ) × (qp : Qp) × (after : D) × (accept_context v a ctx d
          ≡ some (
            (
              record {
                recv_cq = rcq;
                send_cq = rcq;
                qp = qp;
                address = ctx.address;
                rkey = ctx.rkey;
              },
              context_of a qp ctx.id,
            ),
            after,
          ))
        × (qps after qp.handle ≡ some (attr_for ctx a.gid_index a.ib_port))
  unfolding accept_context
  accept_context_lem a ctx d =
      let (rcq, made) = works.cq d in
      let d1 = (v.create_cq d).1 in
      let (qp, given) = works.qp rcq rcq d1 in
      let (after, e, at) =
        connect_qp_lem v qps works rcq rcq qp ctx a.gid_index a.ib_port (v.create_qp rcq rcq d1).1
          (works.fresh rcq rcq d1 qp given) in
      (
        rcq,
        qp,
        after,
        rw (create_cq_lem v rcq d made, create_qp_lem v rcq rcq qp d1 given, e) refl,
        at,
      )

route-dlid :
    (dlid : ℕ) (dgid : Gid) (i : Option ℕ) (port : ℕ) → (route_to dlid dgid i port).dlid ≡ dlid
route-dlid dlid dgid none port = refl
route-dlid dlid dgid (some i) port = refl

route-global :
    (dlid : ℕ) (dgid : Gid) (i : Option ℕ) (port : ℕ)
    → i ≢ none
    → ((route_to dlid dgid i port).dgid ≡ dgid) × ((route_to dlid dgid i port).port_num ≡ 1)
route-global dlid dgid none port ne = absurd (ne refl)
route-global dlid dgid (some i) port ne = (refl, refl)

-- What connect_qp sets, as the end of a connection.
attr_for-Joined :
    {D : Type 0} (qps : D → ℕ → Option QpAttr) (d : D) (a b : Side) (own other : TargetContext)
    (id : ℕ)
    → qps d own.qp.handle ≡ some (attr_for (context_of b other.qp id) a.gid_index a.ib_port)
    → own.address ≡ b.address
    → own.rkey ≡ b.rkey
    → Joined qps d a b own other
attr_for-Joined qps d a b own other id at address rkey = record {
  attr = attr_for (context_of b other.qp id) a.gid_index a.ib_port;
  at = at;
  sends = refl;
  peer = refl;
  dlid = route-dlid b.lid b.gid a.gid_index a.ib_port;
  dgid = λ ne. (route-global b.lid b.gid a.gid_index a.ib_port ne).0;
  port = (refl, λ ne. (route-global b.lid b.gid a.gid_index a.ib_port ne).1);
  address = address;
  rkey = rkey;
}

-- A loopback connection is its own peer.
loopback_lem :
    {D : Type 0} (v : Device D) (qps : D → ℕ → Option QpAttr) (a : Side) (d : D)
    → Works v qps
    → (own : TargetContext) × (after : D) × (connect_loopback v a d ≡ some (own, after))
      × Joined qps after a a own own
unfolding connect_loopback
loopback_lem v qps a d works =
    let (rcq, made) = works.cq d in
    let d1 = (v.create_cq d).1 in
    let (qp, given) = works.qp rcq rcq d1 in
    let (after, e, at) =
      connect_qp_lem v qps works rcq rcq qp (context_of a qp 0) a.gid_index a.ib_port
        (v.create_qp rcq rcq d1).1 (works.fresh rcq rcq d1 qp given) in
    let own : TargetContext = record {
      recv_cq = rcq;
      send_cq = rcq;
      qp = qp;
      address = a.address;
      rkey = a.rkey;
    } in
    (
      own,
      after,
      rw (create_cq_lem v rcq d made, create_qp_lem v rcq rcq qp d1 given, e) refl,
      attr_for-Joined qps after a a own own 0 at refl refl,
    )

-- On two devices that have room and modify queue pairs as the verbs library promises, Connect on
-- one node and HandleConnectionRequests on another end with a queue pair each, ready to send, that
-- has the other's number and its node's lid, and its node's gid if the own node has an index of a
-- gid, at port 1 whatever the port of the node, and each TargetContext has the address and the key
-- of the other node's memory.
pub handshake_lem :
    {D E : Type 0} (v : Device D) (qps : D → ℕ → Option QpAttr) (a : Side) (w : Device E)
    (rqps : E → ℕ → Option QpAttr) (b : Side) (id : ℕ) (d : D) (e : E)
    → Works v qps
    → Works w rqps
    → (initiated accepted : TargetContext) × (after : D) × (rafter : E) × (handshake v a w b id d e
        ≡ some (initiated, accepted, after, rafter))
      × Joined qps after a b initiated accepted
      × Joined rqps rafter b a accepted initiated
unfolding handshake connect_receive
handshake_lem v qps a w rqps b id d e works rworks =
    let (rcq, qp, d1, sent, fresh) = connect_send_lem v qps works a id d in
    let ctx = context_of a qp id in
    let (rrcq, rqp, e1, replied, rat) = accept_context_lem w rqps rworks b ctx e in
    let (d2, received, at) =
      connect_qp_lem v qps works rcq rcq qp (context_of b rqp id) a.gid_index a.ib_port d1 fresh in
    let initiated : TargetContext = record {
      recv_cq = rcq;
      send_cq = rcq;
      qp = qp;
      address = b.address;
      rkey = b.rkey;
    } in
    let accepted : TargetContext = record {
      recv_cq = rrcq;
      send_cq = rrcq;
      qp = rqp;
      address = a.address;
      rkey = a.rkey;
    } in
    (
      initiated,
      accepted,
      d2,
      e1,
      rw (sent, replied, received) refl,
      attr_for-Joined qps d2 a b initiated accepted id at refl refl,
      attr_for-Joined rqps e1 b a accepted initiated id rat refl refl,
    )
