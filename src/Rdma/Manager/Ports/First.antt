-- ===== src/Rdma/Manager/Ports/First.antt =====
-- FindActivePort of include/rdma/manager.h finds the first port with a gid.
use farlock.Base.{
  ℕ, zero, suc, ◌+◌, ◌≤◌, ◌<◌, ◌≡◌, refl, ◌∙◌, ap, Bool, true, false, none, some, inl, inr, ◌⊎◌,
  ◌&&◌, leb, Option-cases, Bool-cases, arith, ℕ_discrete,
}
use farlock.Rdma.Manager.Ports.{PortAttr, Queries, Port, scan_devices, find_active_port}
use farlock.Rdma.Manager.Ports.Active.{usable, scan_ports_lem}

module _ (q : Queries) where
  -- The device has the port.
  abbrev pub works : ℕ → ℕ → ℕ → Bool
  works d j g = q.opens d && elim (q.phys_port_cnt d) [
    | none ↦ false
    | some count ↦ leb 1 j && (leb j count && usable q d j g)
  ]

  pub record DeviceFound (n d : ℕ) (s' : Port) : Type 0 where
    pub device : ℕ
    pub port : ℕ
    pub index : ℕ
    pub from : d ≤ device
    pub below : device < d + n
    pub here : works device port index ≡ true
    pub first_device : (e p h : ℕ) → d ≤ e → e < device → works e p h ≡ false
    pub first_port : (p h : ℕ) → p < port → works device p h ≡ false
    pub first_gid : (h : ℕ) → h < index → works device port h ≡ false
    pub set : s'.gid_index ≡ some index
    pub set_gid : q.gid device port index ≡ some s'.gid
    pub set_lid : (a : PortAttr) → q.port device port ≡ some a → s'.lid ≡ a.lid
    pub set_port : s'.ib_port ≡ port
    pub set_ctx : s'.ctx ≡ some device

  -- A device without a port leaves everything to the next ones.
  device_at :
      (n d : ℕ) (s : Port)
      → s.gid_index ≡ none
      → s.ib_port ≡ 0
      → ((scan_devices q (suc n) d s ≡ scan_devices q n (d + 1) s)
          × ((p h : ℕ) → works d p h ≡ false))
        ⊎ DeviceFound (suc n) d (scan_devices q (suc n) d s)
  unfolding scan_devices
  device_at n d s empty fresh = elim (Bool-cases (q.opens d)) [
    | inr shut ↦ inl (ground (arith, shut), λ p h. ground (arith, shut))
    | inl opened ↦ elim (Option-cases (q.phys_port_cnt d)) [
      | inl fails ↦ inl (ground (arith, opened, fails), λ p h. ground (arith, opened, fails))
      | inr (count, gives) ↦ elim (scan_ports_lem q d count 1 s empty) [
        | inl (same, all_bad) ↦ inl (
          ground (arith, opened, gives, same, fresh),
          λ p h. ground (arith, opened, gives, all_bad p h),
        )
        | inr x ↦ inr (record {
          device = d;
          port = x.port;
          index = x.index;
          from = omega arith;
          below = omega arith;
          here = ground (arith, opened, gives, x.here, x.from, x.below);
          first_device = λ e p h lo hi. absurd (omega arith);
          first_port = λ p h hi. ground (arith, opened, gives, x.first_port p h);
          first_gid = λ h hi. ground (arith, opened, gives, x.first_gid h);
          set = ground (arith, opened, gives, x.set, x.set_port, x.from);
          set_gid = ground (arith, opened, gives, x.set_gid, x.set_port, x.from);
          set_lid = λ a e. ground (arith, opened, gives, x.set_lid a e, x.set_port, x.from);
          set_port = ground (arith, opened, gives, x.set_port, x.from);
          set_ctx = ground (arith, opened, gives, x.set_port, x.from);
        })
      ]
    ]
  ]

  scan_devices_lem :
      (n d : ℕ) (s : Port)
      → s.gid_index ≡ none
      → s.ib_port ≡ 0
      → ((scan_devices q n d s ≡ s) × ((e p h : ℕ) → d ≤ e → e < d + n → works e p h ≡ false))
        ⊎ DeviceFound n d (scan_devices q n d s)
  unfolding scan_devices
  scan_devices_lem zero d s empty fresh = inl (refl, λ e p h lo hi. absurd (omega arith))
  scan_devices_lem (suc n) d s empty fresh = elim (device_at n d s empty fresh) [
    | inr x ↦ inr x
    | inl (skip, none_here) ↦ elim (scan_devices_lem n (d + 1) s empty fresh) [
      | inl (same, all_bad) ↦ inl (
        skip ∙ same,
        λ e p h lo hi. elim (ℕ_discrete e d) [
          | yes at ↦ ap (λ x. works x p h) at ∙ none_here p h
          | no ne ↦ all_bad e p h (omega (arith, ne)) (omega (arith, hi))
        ],
      )
      | inr x ↦ inr (
          rw skip (record {
            device = x.device;
            port = x.port;
            index = x.index;
            from = omega (arith, x.from);
            below = omega (arith, x.below);
            here = x.here;
            first_device = λ e p h lo hi. elim (ℕ_discrete e d) [
              | yes at ↦ ap (λ x. works x p h) at ∙ none_here p h
              | no ne ↦ x.first_device e p h (omega (arith, ne)) hi
            ];
            first_port = x.first_port;
            first_gid = x.first_gid;
            set = x.set;
            set_gid = x.set_gid;
            set_lid = x.set_lid;
            set_port = x.set_port;
            set_ctx = x.set_ctx;
          }))
    ]
  ]

  -- With at least one device and no device open, FindActivePort ends with the first device, its
  -- first port that is active and has a gid that is not zero, and the first such gid, with its
  -- lid, if there is one, and else without a device.
  pub find_active_port_lem :
      (num : ℕ) (s : Port)
      → 1 ≤ num
      → s.ib_port ≡ 0
      → s.ctx ≡ none
      → (s' : Port) × (find_active_port q num s ≡ some s')
        × (((s'.ctx ≡ none) × ((e p h : ℕ) → e < num → works e p h ≡ false)) ⊎ DeviceFound num 0 s')
  unfolding find_active_port
  find_active_port_lem num s many fresh closed =
      let t : Port = record s { gid_index = none } in
      (
        scan_devices q num 0 t,
        ground (arith, many),
        elim (scan_devices_lem num 0 t refl fresh) [
          | inl (same, all_bad) ↦ inl (
            ap (λ x. x.ctx) same ∙ closed,
            λ e p h hi. all_bad e p h (omega arith) (omega (arith, hi)),
          )
          | inr x ↦ inr x
        ],
      )
