-- ===== src/Rdma/QueuePair/Documented.antt =====
-- What the verbs library promises of a device that has room: calls that make a completion queue or a
-- queue pair give one, and ibv_modify_qp takes a queue pair of a reliable connection from one state
-- to the next by a mask of just the attributes that the transition needs, which then are as given.
use farlock.Base.{ℕ, ◌+◌, ◌^◌, ◌≡◌, Option, none, some}
use farlock.Rdma.QueuePair.{
  QpState, qps_reset, qps_init, qps_rtr, qps_rts, QpAttr, zero_attr, Qp, Device,
}

-- The mask that a transition needs.
abbrev pub required : QpState → QpState → Option ℕ
required qps_reset qps_init = some (2 ^ 0 + 2 ^ 3 + 2 ^ 4 + 2 ^ 5)
required qps_init qps_rtr = some (2 ^ 0 + 2 ^ 7 + 2 ^ 8 + 2 ^ 12 + 2 ^ 15 + 2 ^ 17 + 2 ^ 20)
required qps_rtr qps_rts = some (2 ^ 0 + 2 ^ 9 + 2 ^ 10 + 2 ^ 11 + 2 ^ 13 + 2 ^ 16)
required _ _ = none

-- The attributes after a transition to the state of `attr`.
abbrev pub modified : QpState → QpAttr → QpAttr → QpAttr
modified qps_init attr old = record old {
  state = qps_init;
  port_num = attr.port_num;
  pkey_index = attr.pkey_index;
  qp_access_flags = attr.qp_access_flags;
}
modified qps_rtr attr old = record old {
  state = qps_rtr;
  ah_attr = attr.ah_attr;
  path_mtu = attr.path_mtu;
  dest_qp_num = attr.dest_qp_num;
  rq_psn = attr.rq_psn;
  max_dest_rd_atomic = attr.max_dest_rd_atomic;
  min_rnr_timer = attr.min_rnr_timer;
}
modified qps_rts attr old = record old {
  state = qps_rts;
  timeout = attr.timeout;
  retry_cnt = attr.retry_cnt;
  rnr_retry = attr.rnr_retry;
  sq_psn = attr.sq_psn;
  max_rd_atomic = attr.max_rd_atomic;
}
modified qps_reset attr old = old

-- The queue pairs of a device, by their handles.
pub record Works {D : Type 0} (v : Device D) (qps : D → ℕ → Option QpAttr) : Type 0 where
  pub cq : (d : D) → (cq : ℕ) × ((v.create_cq d).0 ≡ some cq)
  pub cq_keeps : (d : D) → (h : ℕ) → qps (v.create_cq d).1 h ≡ qps d h
  pub qp : (r s : ℕ) (d : D) → (q : Qp) × ((v.create_qp r s d).0 ≡ some q)
  pub fresh :
      (r s : ℕ) (d : D) (q : Qp)
      → (v.create_qp r s d).0 ≡ some q
      → qps (v.create_qp r s d).1 q.handle ≡ some zero_attr
  pub taken :
      (h : ℕ) (attr : QpAttr) (mask : ℕ) (d : D) (old : QpAttr)
      → qps d h ≡ some old
      → required old.state attr.state ≡ some mask
      → ((v.modify_qp h attr mask d).0 ≡ 0)
        × (qps (v.modify_qp h attr mask d).1 h ≡ some (modified attr.state attr old))
