-- ===== src/Rdma/QueuePair/Attributes.antt =====
-- The attributes of a queue pair, as include/rdma/utils.h gives them to the verbs library.
use farlock.Base.{ℕ, ◌^◌, Bool, false}
use farlock.Rdma.Manager.Ports.{Gid}

-- ibv_qp_state.
pub data QpState : Type 0 where
  qps_reset qps_init qps_rtr qps_rts : QpState

-- The bits of ibv_qp_attr_mask.
abbrev pub qp_state : ℕ
qp_state = 2 ^ 0

abbrev pub qp_access_flags : ℕ
qp_access_flags = 2 ^ 3

abbrev pub qp_pkey_index : ℕ
qp_pkey_index = 2 ^ 4

abbrev pub qp_port : ℕ
qp_port = 2 ^ 5

abbrev pub qp_av : ℕ
qp_av = 2 ^ 7

abbrev pub qp_path_mtu : ℕ
qp_path_mtu = 2 ^ 8

abbrev pub qp_timeout : ℕ
qp_timeout = 2 ^ 9

abbrev pub qp_retry_cnt : ℕ
qp_retry_cnt = 2 ^ 10

abbrev pub qp_rnr_retry : ℕ
qp_rnr_retry = 2 ^ 11

abbrev pub qp_rq_psn : ℕ
qp_rq_psn = 2 ^ 12

abbrev pub qp_max_qp_rd_atomic : ℕ
qp_max_qp_rd_atomic = 2 ^ 13

abbrev pub qp_min_rnr_timer : ℕ
qp_min_rnr_timer = 2 ^ 15

abbrev pub qp_sq_psn : ℕ
qp_sq_psn = 2 ^ 16

abbrev pub qp_max_dest_rd_atomic : ℕ
qp_max_dest_rd_atomic = 2 ^ 17

abbrev pub qp_dest_qpn : ℕ
qp_dest_qpn = 2 ^ 20

-- ibv_ah_attr with its ibv_global_route.
pub record Route : Type 0 where
  pub is_global : Bool
  pub dlid : ℕ
  pub sl : ℕ
  pub src_path_bits : ℕ
  pub port_num : ℕ
  pub dgid : Gid
  pub flow_label : ℕ
  pub hop_limit : ℕ
  pub sgid_index : ℕ
  pub traffic_class : ℕ

-- ibv_qp_attr.
pub record QpAttr : Type 0 where
  pub state : QpState
  pub port_num : ℕ
  pub pkey_index : ℕ
  pub qp_access_flags : ℕ
  pub path_mtu : ℕ
  pub dest_qp_num : ℕ
  pub rq_psn : ℕ
  pub max_dest_rd_atomic : ℕ
  pub min_rnr_timer : ℕ
  pub ah_attr : Route
  pub timeout : ℕ
  pub retry_cnt : ℕ
  pub rnr_retry : ℕ
  pub sq_psn : ℕ
  pub max_rd_atomic : ℕ

-- memset to 0.
abbrev pub zero_gid : Gid
zero_gid = record { subnet_prefix = 0; interface_id = 0 }

abbrev pub zero_route : Route
zero_route = record {
  is_global = false;
  dlid = 0;
  sl = 0;
  src_path_bits = 0;
  port_num = 0;
  dgid = zero_gid;
  flow_label = 0;
  hop_limit = 0;
  sgid_index = 0;
  traffic_class = 0;
}

abbrev pub zero_attr : QpAttr
zero_attr = record {
  state = qps_reset;
  port_num = 0;
  pkey_index = 0;
  qp_access_flags = 0;
  path_mtu = 0;
  dest_qp_num = 0;
  rq_psn = 0;
  max_dest_rd_atomic = 0;
  min_rnr_timer = 0;
  ah_attr = zero_route;
  timeout = 0;
  retry_cnt = 0;
  rnr_retry = 0;
  sq_psn = 0;
  max_rd_atomic = 0;
}
