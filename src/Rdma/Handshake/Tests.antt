-- ===== src/Rdma/Handshake/Tests.antt =====
-- A device that numbers its queue pairs, and the connection of two nodes with one each.
use farlock.Base.{ℕ, ◌+◌, ◌≡◌, refl, sym, ap, true, Option, none, some, ◌==◌, if◌then◌else◌, arith}
use farlock.Base.Family.{update, update-same}
use farlock.Rdma.QueuePair.{QpAttr, zero_attr, Qp, Device, TargetContext}
use farlock.Rdma.QueuePair.Documented.{required, modified, Works}
use farlock.Rdma.Handshake.{Side, handshake}
use farlock.Rdma.Handshake.Ends.{Joined, handshake_lem}

record Numbered : Type 0 where
  next : ℕ
  pairs : ℕ → Option QpAttr

abbrev change : ℕ → QpAttr → ℕ → Option ℕ → QpAttr → Numbered → ℕ × Numbered
change h attr mask none old d = (22, d)
change h attr mask (some needed) old d =
    if mask == needed
    then (0, record d { pairs = update d.pairs h (some (modified attr.state attr old)) })
    else (22, d)

abbrev change_pair : ℕ → QpAttr → ℕ → Option QpAttr → Numbered → ℕ × Numbered
change_pair h attr mask none d = (22, d)
change_pair h attr mask (some old) d = change h attr mask (required old.state attr.state) old d

abbrev numbered : Device Numbered
numbered = record {
  create_cq = λ d. (some d.next, record d { next = d.next + 1 });
  create_qp = λ r s d. (
    some (record { handle = d.next; qp_num = d.next + 100 }),
    record d { next = d.next + 1; pairs = update d.pairs d.next (some zero_attr) },
  );
  modify_qp = λ h attr mask d. change_pair h attr mask (d.pairs h) d;
}

abbrev pairs_of : Numbered → ℕ → Option QpAttr
pairs_of d = d.pairs

handle_of : Option Qp → ℕ → ℕ
handle_of none h = h
handle_of (some q) h = q.handle

numbered-Works : Works numbered pairs_of
unfolding handle_of
numbered-Works = record {
  cq = λ d. (d.next, refl);
  cq_keeps = λ d h. refl;
  qp = λ r s d. (record { handle = d.next; qp_num = d.next + 100 }, refl);
  fresh = λ r s d q e.
      let at : d.next ≡ q.handle = ap (λ x. handle_of x 0) e in
      rw (sym at) (update-same d.pairs d.next (some zero_attr));
  taken = λ h attr mask d old at needs.
      let whole : (mask == mask) ≡ true = ground arith in
      rw (at, needs, whole) (refl, update-same d.pairs h (some (modified attr.state attr old)));
}

abbrev empty : ℕ → Numbered
empty n = record { next = n; pairs = λ h. none }

abbrev side : ℕ → Side
side n = record {
  address = 4096 + n;
  rkey = 7 + n;
  lid = n;
  gid_index = some 3;
  gid = record { subnet_prefix = 1; interface_id = n };
  ib_port = 2;
}

handshake_lem_example :
    (initiated accepted : TargetContext) × (after rafter : Numbered) × (handshake numbered
        (side 1)
        numbered
        (side 2)
        5
        (empty 10)
        (empty 20)
      ≡ some (initiated, accepted, after, rafter))
    × Joined pairs_of after (side 1) (side 2) initiated accepted
    × Joined pairs_of rafter (side 2) (side 1) accepted initiated
handshake_lem_example =
    handshake_lem numbered pairs_of (side 1) numbered pairs_of (side 2) 5 (empty 10) (empty 20)
      numbered-Works numbered-Works
