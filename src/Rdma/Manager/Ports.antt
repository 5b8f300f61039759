-- ===== src/Rdma/Manager/Ports.antt =====
-- FindActivePort of include/rdma/manager.h: the search for a device, a port and a gid. What the
-- verbs library answers is a parameter, and a query that fails gives none.
pub mod Active
pub mod First
use farlock.Base.{ℕ, zero, suc, ◌+◌, Bool, Option, none, some, ◌&&◌, ◌==◌, if◌then◌else◌}

-- `ibv_gid`, and what the search reads of `ibv_port_attr`.
pub record Gid : Type 0 where
  pub subnet_prefix : ℕ
  pub interface_id : ℕ

pub record PortAttr : Type 0 where
  pub active : Bool
  pub gid_tbl_len : ℕ
  pub lid : ℕ

-- The answers: by device; by device and port; by device, port and index of the gid.
pub record Queries : Type 0 where
  pub opens : ℕ → Bool
  pub phys_port_cnt : ℕ → Option ℕ
  pub port : ℕ → ℕ → Option PortAttr
  pub gid : ℕ → ℕ → ℕ → Option Gid

-- The members of Manager that the search sets; `gid_index` is none for -1, `ctx` is the device.
pub record Port : Type 0 where
  pub gid_index : Option ℕ
  pub gid : Gid
  pub lid : ℕ
  pub ib_port : ℕ
  pub ctx : Option ℕ

abbrev pub is_zero : Gid → Bool
is_zero x = (x.subnet_prefix == 0) && (x.interface_id == 0)

module _ (q : Queries) where
  -- The loop on `gid_index`: the gids that are left, and the next index.
  unfoldable pub scan_gids : ℕ → ℕ → ℕ → ℕ → Port → Port
  scan_gids d j zero g s = s
  scan_gids d j (suc n) g s =
      let rest = scan_gids d j n (g + 1) s in
      elim (q.gid d j g) [
        | none ↦ rest
        | some x ↦ if is_zero x then rest else record s { gid_index = some g; gid = x }
      ]

  -- After it, the port is taken if there is a gid, and else the loop on the ports goes on.
  abbrev pub take_port : PortAttr → ℕ → (Port → Port) → Port → Port
  take_port a j rest s = elim s.gid_index [
    | none ↦ rest s
    | some _ ↦ record s { lid = a.lid; ib_port = j }
  ]

  -- The loop on `j`.
  unfoldable pub scan_ports : ℕ → ℕ → ℕ → Port → Port
  scan_ports d zero j s = s
  scan_ports d (suc n) j s =
      let rest = scan_ports d n (j + 1) in
      elim (q.port d j) [
        | none ↦ rest s
        | some a ↦ if a.active then take_port a j rest (scan_gids d j a.gid_tbl_len 0 s) else rest s
      ]

  -- A device is kept if it has given a port.
  abbrev pub take_device : ℕ → (Port → Port) → Port → Port
  take_device d rest s = if s.ib_port == 0 then rest s else record s { ctx = some d }

  -- The loop on `i`.
  unfoldable pub scan_devices : ℕ → ℕ → Port → Port
  scan_devices zero d s = s
  scan_devices (suc n) d s =
      let rest = scan_devices n (d + 1) in
      if q.opens d
      then elim (q.phys_port_cnt d) [
        | none ↦ rest s
        | some count ↦ take_device d rest (scan_ports d count 1 s)
      ]
      else rest s

  -- None is the end of the program where there is no device. FindActivePort returns whether `ctx`
  -- is set.
  unfoldable pub find_active_port : ℕ → Port → Option Port
  find_active_port num s =
      if num == 0 then none else some (scan_devices num 0 (record s { gid_index = none }))
