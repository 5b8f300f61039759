-- ===== src/Rdma/QueuePair/Connected.antt =====
-- What ConnectQp of include/rdma/utils.h makes of a fresh queue pair.
use farlock.Base.{ℕ, ◌≡◌, refl, Option, some}
use farlock.Rdma.QueuePair.{
  qps_rts, qps_rtr, qps_init, QpAttr, zero_attr, Qp, Device, ConnectionContext, not_null, succeeds,
  init_attr, rtr_attr, rts_attr, init_flags, rtr_flags, rts_flags, create_cq, create_qp,
  modify_qp_to_init, modify_qp_to_rtr, modify_qp_to_rts, connect_qp,
}
use farlock.Rdma.QueuePair.Documented.{modified, Works}

not_null-some :
    {D A : Type 0} (p : Option A × D) (a : A) → p.0 ≡ some a → not_null p ≡ some (a, p.1)
not_null-some (x, d) a e = rw e refl

succeeds-zero : {D : Type 0} (p : ℕ × D) → p.0 ≡ 0 → succeeds p ≡ some (tt, p.1)
succeeds-zero (ret, d) e = rw e refl

pub create_cq_lem :
    {D : Type 0} (v : Device D) (rcq : ℕ) (d : D)
    → (v.create_cq d).0 ≡ some rcq
    → create_cq v d ≡ some (rcq, (v.create_cq d).1)
unfolding create_cq
create_cq_lem v rcq d made = not_null-some (v.create_cq d) rcq made

pub create_qp_lem :
    {D : Type 0} (v : Device D) (r s : ℕ) (qp : Qp) (d : D)
    → (v.create_qp r s d).0 ≡ some qp
    → create_qp v r s d ≡ some (qp, (v.create_qp r s d).1)
unfolding create_qp
create_qp_lem v r s qp d given = not_null-some (v.create_qp r s d) qp given

-- A queue pair that sends and names its peer.
abbrev pub attr_for : ConnectionContext → Option ℕ → ℕ → QpAttr
attr_for ctx sgid_index ib_port = modified qps_rts rts_attr (
    modified qps_rtr (rtr_attr ctx.qp_num ctx.lid ctx.gid sgid_index ib_port)
      (modified qps_init (init_attr 1) zero_attr))

module _ {D : Type 0} (v : Device D) (qps : D → ℕ → Option QpAttr) (works : Works v qps) where
  pub connect_qp_lem :
      (rcq scq : ℕ) (qp : Qp) (ctx : ConnectionContext) (sgid_index : Option ℕ) (ib_port : ℕ)
      (d : D)
      → qps d qp.handle ≡ some zero_attr
      → (after : D) × (connect_qp v rcq scq qp ctx sgid_index ib_port d
          ≡ some (
            record {
              recv_cq = rcq;
              send_cq = scq;
              qp = qp;
              address = ctx.address;
              rkey = ctx.rkey;
            },
            after,
          ))
        × (qps after qp.handle ≡ some (attr_for ctx sgid_index ib_port))
  unfolding connect_qp modify_qp_to_init modify_qp_to_rtr modify_qp_to_rts
  connect_qp_lem rcq scq qp ctx sgid_index ib_port d at =
      let init = works.taken qp.handle (init_attr 1) init_flags d zero_attr at refl in
      let d1 = (v.modify_qp qp.handle (init_attr 1) init_flags d).1 in
      let rtr =
        works.taken qp.handle (rtr_attr ctx.qp_num ctx.lid ctx.gid sgid_index ib_port) rtr_flags d1
          (modified qps_init (init_attr 1) zero_attr) init.1 refl in
      let d2 =
        (v.modify_qp qp.handle (rtr_attr ctx.qp_num ctx.lid ctx.gid sgid_index ib_port) rtr_flags
          d1).1 in
      let rts =
        works.taken qp.handle rts_attr rts_flags d2
          (modified qps_rtr (rtr_attr ctx.qp_num ctx.lid ctx.gid sgid_index ib_port)
            (modified qps_init (init_attr 1) zero_attr))
          rtr.1 refl in
      (
        (v.modify_qp qp.handle rts_attr rts_flags d2).1,
        rw
            (
              succeeds-zero (v.modify_qp qp.handle (init_attr 1) init_flags d) init.0,
              succeeds-zero
                  (v.modify_qp qp.handle (rtr_attr ctx.qp_num ctx.lid ctx.gid sgid_index ib_port)
                    rtr_flags d1)
                  rtr.0,
              succeeds-zero (v.modify_qp qp.handle rts_attr rts_flags d2) rts.0,
            )
            refl,
        rts.1,
      )
