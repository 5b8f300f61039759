-- ===== src/Rdma/QueuePair.antt =====
-- include/rdma/utils.h: how a queue pair is made and brought to the state in which it sends. The
-- verbs library is a parameter.
mod Attributes
pub use Attributes.*
pub mod Documented
pub mod Connected
use farlock.Base.{ℕ, ◌^◌, bit_or, Option, none, some, Bool, true, false, ◌==◌, if◌then◌else◌}
use farlock.Base.Talk.{Talk, then, ◌>>=◌, return}
use farlock.Rdma.Manager.Ports.{Gid}

-- A queue pair: its handle and its number.
pub record Qp : Type 0 where
  pub handle : ℕ
  pub qp_num : ℕ

-- The calls of the verbs library: a null pointer is none.
pub record Device (D : Type 0) : Type 0 where
  pub create_cq : D → Option ℕ × D
  pub create_qp : ℕ → ℕ → D → Option Qp × D
  pub modify_qp : ℕ → QpAttr → ℕ → D → ℕ × D

-- IBV_ACCESS_LOCAL_WRITE, IBV_ACCESS_REMOTE_READ, IBV_ACCESS_REMOTE_WRITE and
-- IBV_ACCESS_REMOTE_ATOMIC.
abbrev pub k_default_access_mode : ℕ
k_default_access_mode = bit_or 1 (bit_or 4 (bit_or 2 8))

-- IBV_MTU_4096.
abbrev pub mtu_4096 : ℕ
mtu_4096 = 5

pub record ConnectionContext : Type 0 where
  pub address : ℕ
  pub id : ℕ
  pub rkey : ℕ
  pub qp_num : ℕ
  pub lid : ℕ
  pub gid : Gid

pub record TargetContext : Type 0 where
  pub recv_cq : ℕ
  pub send_cq : ℕ
  pub qp : Qp
  pub address : ℕ
  pub rkey : ℕ

-- A pointer that must not be null, and a return value that must be 0.
abbrev pub not_null : {D A : Type 0} → Option A × D → Option (A × D)
not_null (none, d) = none
not_null (some a, d) = some (a, d)

abbrev pub succeeds : {D : Type 0} → ℕ × D → Option (Unit {0} × D)
succeeds (ret, d) = if ret == 0 then some (tt, d) else none

-- The attributes that ModifyQpToInit, ModifyQpToRtr and ModifyQpToRts set. An index of the gid below
-- 0 is none.
abbrev pub init_attr : ℕ → QpAttr
init_attr ib_port = record zero_attr {
  state = qps_init;
  port_num = ib_port;
  pkey_index = 0;
  qp_access_flags = k_default_access_mode;
}

abbrev pub route_to : ℕ → Gid → Option ℕ → ℕ → Route
route_to dlid dgid none ib_port = record zero_route { dlid = dlid; port_num = ib_port }
route_to dlid dgid (some sgid_index) ib_port = record zero_route {
  is_global = true;
  dlid = dlid;
  port_num = 1;
  dgid = dgid;
  hop_limit = 1;
  sgid_index = sgid_index;
}

abbrev pub rtr_attr : ℕ → ℕ → Gid → Option ℕ → ℕ → QpAttr
rtr_attr remote_qpn dlid dgid sgid_index ib_port = record zero_attr {
  state = qps_rtr;
  path_mtu = mtu_4096;
  dest_qp_num = remote_qpn;
  rq_psn = 0;
  max_dest_rd_atomic = 8;
  min_rnr_timer = 12;
  ah_attr = route_to dlid dgid sgid_index ib_port;
}

abbrev pub rts_attr : QpAttr
rts_attr = record zero_attr {
  state = qps_rts;
  timeout = 12;
  retry_cnt = 7;
  rnr_retry = 7;
  sq_psn = 0;
  max_rd_atomic = 8;
}

abbrev pub init_flags : ℕ
init_flags = bit_or qp_state (bit_or qp_pkey_index (bit_or qp_port qp_access_flags))

abbrev pub rtr_flags : ℕ
rtr_flags = bit_or qp_state (
    bit_or qp_av (
      bit_or qp_path_mtu
        (bit_or qp_dest_qpn (bit_or qp_rq_psn (bit_or qp_max_dest_rd_atomic qp_min_rnr_timer)))))

abbrev pub rts_flags : ℕ
rts_flags = bit_or qp_state (
    bit_or qp_timeout
      (bit_or qp_retry_cnt (bit_or qp_rnr_retry (bit_or qp_sq_psn qp_max_qp_rd_atomic))))

module _ {D : Type 0} (v : Device D) where
  unfoldable pub create_cq : Talk D ℕ
  create_cq d = not_null (v.create_cq d)

  unfoldable pub create_qp : ℕ → ℕ → Talk D Qp
  create_qp recv_cq send_cq d = not_null (v.create_qp recv_cq send_cq d)

  unfoldable pub modify_qp_to_init : Qp → ℕ → Talk D (Unit {0})
  modify_qp_to_init qp ib_port d = succeeds (v.modify_qp qp.handle (init_attr ib_port) init_flags d)

  unfoldable pub modify_qp_to_rtr : Qp → ℕ → ℕ → Gid → Option ℕ → ℕ → Talk D (Unit {0})
  modify_qp_to_rtr qp remote_qpn dlid dgid sgid_index ib_port d =
      succeeds
        (v.modify_qp qp.handle (rtr_attr remote_qpn dlid dgid sgid_index ib_port) rtr_flags d)

  unfoldable pub modify_qp_to_rts : Qp → Talk D (Unit {0})
  modify_qp_to_rts qp d = succeeds (v.modify_qp qp.handle rts_attr rts_flags d)

  -- The port of ModifyQpToInit is its default, 1.
  unfoldable pub connect_qp : ℕ → ℕ → Qp → ConnectionContext → Option ℕ → ℕ → Talk D TargetContext
  connect_qp rcq scq qp ctx sgid_index ib_port = do
    x ← modify_qp_to_init qp 1
    y ← modify_qp_to_rtr qp ctx.qp_num ctx.lid ctx.gid sgid_index ib_port
    z ← modify_qp_to_rts qp
    return
        (record { recv_cq = rcq; send_cq = scq; qp = qp; address = ctx.address; rkey = ctx.rkey })
