-- ===== src/Rdma/Manager/Ports/Active.antt =====
-- The loops of FindActivePort of include/rdma/manager.h over the ports and gids of one device.
use farlock.Base.{
  ℕ, zero, suc, ◌+◌, ◌≤◌, ◌<◌, ◌≡◌, refl, ◌∙◌, Bool, true, false, none, some, inl, inr, ◌⊎◌, ◌&&◌,
  not, ltb, Option-cases, Bool-cases, arith, ℕ_discrete,
}
use farlock.Rdma.Manager.Ports.{PortAttr, Queries, Port, is_zero, scan_gids, scan_ports}

module _ (q : Queries) where
  -- The gid at an index can be used; the port is active and has it.
  abbrev pub good : ℕ → ℕ → ℕ → Bool
  good d j g = elim (q.gid d j g) [ none ↦ false | some x ↦ not (is_zero x) ]

  abbrev pub usable : ℕ → ℕ → ℕ → Bool
  usable d j g = elim (q.port d j) [
    | none ↦ false
    | some a ↦ a.active && (ltb g a.gid_tbl_len && good d j g)
  ]

  record GidFound (d j n g : ℕ) (s s' : Port) : Type 0 where
    index : ℕ
    from : g ≤ index
    below : index < g + n
    here : good d j index ≡ true
    first : (h : ℕ) → g ≤ h → h < index → good d j h ≡ false
    set : s'.gid_index ≡ some index
    set_gid : q.gid d j index ≡ some s'.gid
    same_ctx : s'.ctx ≡ s.ctx

  scan_gids_lem :
      (d j n g : ℕ) (s : Port)
      → ((scan_gids q d j n g s ≡ s) × ((h : ℕ) → g ≤ h → h < g + n → good d j h ≡ false))
        ⊎ GidFound d j n g s (scan_gids q d j n g s)
  unfolding scan_gids
  scan_gids_lem d j zero g s = inl (refl, λ h lo hi. absurd (omega arith))
  scan_gids_lem d j (suc n) g s = elim (Bool-cases (good d j g)) [
    | inl here ↦ inr (record {
      index = g;
      from = omega arith;
      below = omega arith;
      here = here;
      first = λ h lo hi. absurd (omega arith);
      set = ground (arith, here);
      set_gid = ground (arith, here);
      same_ctx = ground (arith, here);
    })
    | inr bad ↦
        let skip : scan_gids q d j (suc n) g s ≡ scan_gids q d j n (g + 1) s =
          ground (arith, bad) in
        elim (scan_gids_lem d j n (g + 1) s) [
          | inl (same, all_bad) ↦ inl (
            skip ∙ same,
            λ h lo hi. elim (ℕ_discrete h g) [
              | yes at ↦ rw at bad
              | no ne ↦ all_bad h (omega (arith, ne)) (omega (arith, hi))
            ],
          )
          | inr x ↦ inr (
              rw skip (record {
                index = x.index;
                from = omega (arith, x.from);
                below = omega (arith, x.below);
                here = x.here;
                first = λ h lo hi. elim (ℕ_discrete h g) [
                  | yes at ↦ rw at bad
                  | no ne ↦ x.first h (omega (arith, ne)) hi
                ];
                set = x.set;
                set_gid = x.set_gid;
                same_ctx = x.same_ctx;
              }))
        ]
  ]

  pub record PortFound (d n j : ℕ) (s s' : Port) : Type 0 where
    pub port : ℕ
    pub index : ℕ
    pub from : j ≤ port
    pub below : port < j + n
    pub here : usable d port index ≡ true
    pub first_port : (p h : ℕ) → j ≤ p → p < port → usable d p h ≡ false
    pub first_gid : (h : ℕ) → h < index → usable d port h ≡ false
    pub set : s'.gid_index ≡ some index
    pub set_gid : q.gid d port index ≡ some s'.gid
    pub set_lid : (a : PortAttr) → q.port d port ≡ some a → s'.lid ≡ a.lid
    pub set_port : s'.ib_port ≡ port
    pub same_ctx : s'.ctx ≡ s.ctx

  -- A port without a gid leaves everything to the next ones.
  port_at :
      (d n j : ℕ) (s : Port)
      → s.gid_index ≡ none
      → ((scan_ports q d (suc n) j s ≡ scan_ports q d n (j + 1) s)
          × ((h : ℕ) → usable d j h ≡ false))
        ⊎ PortFound d (suc n) j s (scan_ports q d (suc n) j s)
  unfolding scan_ports
  port_at d n j s empty = elim (Option-cases (q.port d j)) [
    | inl fails ↦ inl (ground (arith, fails), λ h. ground (arith, fails))
    | inr (a, gives) ↦ elim (Bool-cases a.active) [
      | inr idle ↦ inl (ground (arith, gives, idle), λ h. ground (arith, gives, idle))
      | inl active ↦ elim (scan_gids_lem d j a.gid_tbl_len 0 s) [
        | inl (same, all_bad) ↦ inl (
          ground (arith, gives, active, same, empty),
          λ h. ground (arith, gives, active, all_bad h),
        )
        | inr x ↦ inr (record {
          port = j;
          index = x.index;
          from = omega arith;
          below = omega arith;
          here = ground (arith, gives, active, x.here, x.below);
          first_port = λ p h lo hi. absurd (omega arith);
          first_gid = λ h hi. ground (arith, gives, active, x.first h);
          set = ground (arith, gives, active, x.set);
          set_gid = ground (arith, gives, active, x.set, x.set_gid);
          set_lid = λ c e. ground (arith, gives, active, x.set, e);
          set_port = ground (arith, gives, active, x.set);
          same_ctx = ground (arith, gives, active, x.set, x.same_ctx);
        })
      ]
    ]
  ]

  pub scan_ports_lem :
      (d n j : ℕ) (s : Port)
      → s.gid_index ≡ none
      → ((scan_ports q d n j s ≡ s) × ((p h : ℕ) → j ≤ p → p < j + n → usable d p h ≡ false))
        ⊎ PortFound d n j s (scan_ports q d n j s)
  unfolding scan_ports
  scan_ports_lem d zero j s empty = inl (refl, λ p h lo hi. absurd (omega arith))
  scan_ports_lem d (suc n) j s empty = elim (port_at d n j s empty) [
    | inr x ↦ inr x
    | inl (skip, none_here) ↦ elim (scan_ports_lem d n (j + 1) s empty) [
      | inl (same, all_bad) ↦ inl (
        skip ∙ same,
        λ p h lo hi. elim (ℕ_discrete p j) [
          | yes at ↦ rw at (none_here h)
          | no ne ↦ all_bad p h (omega (arith, ne)) (omega (arith, hi))
        ],
      )
      | inr x ↦ inr (
          rw skip (record {
            port = x.port;
            index = x.index;
            from = omega (arith, x.from);
            below = omega (arith, x.below);
            here = x.here;
            first_port = λ p h lo hi. elim (ℕ_discrete p j) [
              | yes at ↦ rw at (none_here h)
              | no ne ↦ x.first_port p h (omega (arith, ne)) hi
            ];
            first_gid = x.first_gid;
            set = x.set;
            set_gid = x.set_gid;
            set_lid = x.set_lid;
            set_port = x.set_port;
            same_ctx = x.same_ctx;
          }))
    ]
  ]
