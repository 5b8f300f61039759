-- ===== src/Locks/FarlockG/Fifo/Steps.antt =====
-- Every step of every thread of include/locks/farlockg.h keeps both lines in order.
use farlock.Base.{ℕ, ◌≤◌, ◌<◌, ◌≡◌, refl, inl, inr, Bool-cases, arith, word, ◌-◌, false}
use farlock.Locks.Farlock.State.{Side, local, remote}
use farlock.Locks.Farlock.Fifo.Defs.{Line}
use farlock.Locks.Farlock.Queue.{same}
use farlock.Locks.FarlockG.State.{
  Pc, idle, swap, link, read_valid, release_prev, pass_batch, pass_budget, publish_full,
  publish_last, look_again, pass_init, cut_tail, grant, crashed, System, init,
}
use farlock.Locks.FarlockG.Queue.{tail, exchange_tail, exchange_round}
use farlock.Locks.FarlockG.Program.{common_step, local_step, remote_step, side_step}
use farlock.Locks.FarlockG.Fifo.Defs.{rank, Fifo}
use farlock.Locks.FarlockG.Fifo.Keep.{moved}
use farlock.Locks.FarlockG.Fifo.Plain.{plain, local_step-Moves, remote_step-Moves}
use farlock.Locks.FarlockG.Fifo.Joining.{store_next-Fifo, load_valid-Fifo, store_releasable-Fifo}
use farlock.Locks.FarlockG.Fifo.Passing.{store_batch-Fifo, store_budget-Fifo, store_init-Fifo}
use farlock.Locks.FarlockG.Fifo.Change.{
  join, number, leave, reset-Fifo, learn_tail, enqueue-Fifo, store_valid-Fifo, swap_tail-Fifo,
  store_granted-Fifo,
}
use farlock.Locks.FarlockG.Fifo.Frame.{local_step-Quiet, remote_step-Quiet, frame}

-- The line after a step: nobody that was in it has moved.
abbrev After : (ℕ → Side) → Side → ℕ → Line → System → System → Type 0
After side σ K g s s' =
    (h : Line) × Fifo side σ K h s' × ((k : ℕ) → 2 ≤ rank (s.thr k).pc → h.pos k ≡ g.pos k)

module _ (side : ℕ → Side) (K : ℕ) (some_budget : 1 ≤ K) (fit : K < word - 1) {g : Line}
    {s : System} (i : ℕ) where
  local_special :
      Fifo side local K g s
      → side i ≡ local
      → (p : Pc) → plain p ≡ false
      → (s.thr i).pc ≡ p
      → After side local K g s (local_step K p i s)
  unfolding local_step common_step exchange_tail
  local_special v here idle bad e =
      (g, reset-Fifo side local K some_budget fit v i here e, λ k at. refl)
  local_special v here swap bad e =
      (join g i, enqueue-Fifo side local K some_budget fit v i here e, λ k at. ground (arith, e))
  local_special v here link bad e =
      (g, store_next-Fifo side local K some_budget fit v i here e, λ k at. refl)
  local_special v here read_valid bad e =
      (g, load_valid-Fifo side local K some_budget fit v i here e, λ k at. refl)
  local_special v here release_prev bad e =
      (g, store_releasable-Fifo side local K some_budget fit v i here e, λ k at. refl)
  local_special v here pass_batch bad e =
      (g, store_batch-Fifo side local K some_budget fit v i here e, λ k at. refl)
  local_special v here pass_budget bad e =
      (number g, store_budget-Fifo side local K some_budget fit v i here e, λ k at. refl)
  local_special v here publish_full bad e = (
    number g,
    store_valid-Fifo side local K some_budget fit v i here pass_init (ground arith) (ground arith)
        (omega arith) (omega arith) (λ q. ground arith),
    λ k at. refl,
  )
  local_special v here publish_last bad e = (
    number g,
    store_valid-Fifo side local K some_budget fit v i here look_again (ground arith) (ground arith)
        (omega arith) (omega arith) (λ q. absurd (omega arith)),
    λ k at. refl,
  )
  local_special v here pass_init bad e =
      (g, store_init-Fifo side local K some_budget fit v i here e, λ k at. refl)
  local_special v here cut_tail bad e =
      let (h, kept, same) = swap_tail-Fifo side local K some_budget fit v i here e in
      (h, kept, λ k at. same k)
  local_special v here grant bad e =
      (leave g, store_granted-Fifo side local K some_budget fit v i here e, λ k at. refl)
  local_special v here crashed bad e = (g, v, λ k at. refl)
  local_special v here p bad e = absurd cc

  local_step-Fifo :
      Fifo side local K g s
      → side i ≡ local
      → (p : Pc) → (s.thr i).pc ≡ p
      → After side local K g s (local_step K p i s)
  local_step-Fifo v here p e = elim (Bool-cases (plain p)) [
    | inl ok ↦ (
      g,
      moved side local K v i here
          (local_step-Moves side local K some_budget fit v i here p e ok here),
      λ k at. refl,
    )
    | inr bad ↦ local_special v here p bad e
  ]

  remote_special :
      Fifo side remote K g s
      → side i ≡ remote
      → (p : Pc) → plain p ≡ false
      → (s.thr i).pc ≡ p
      → After side remote K g s (remote_step K p i s)
  unfolding remote_step common_step exchange_round
  remote_special v here idle bad e =
      (g, reset-Fifo side remote K some_budget fit v i here e, λ k at. refl)
  remote_special v here swap bad e =
      elim (Bool-cases (same (tail remote s.lock) (s.thr i).expected)) [
        | inl hit ↦ (
          join g i,
          rw (hit, exchange_round) (enqueue-Fifo side remote K some_budget fit v i here e),
          λ k at. ground arith,
        )
        | inr miss ↦ (
          g,
          rw (miss, exchange_round) (learn_tail side remote K some_budget fit v i here e),
          λ k at. refl,
        )
      ]
  remote_special v here link bad e =
      (g, store_next-Fifo side remote K some_budget fit v i here e, λ k at. refl)
  remote_special v here read_valid bad e =
      (g, load_valid-Fifo side remote K some_budget fit v i here e, λ k at. refl)
  remote_special v here release_prev bad e =
      (g, store_releasable-Fifo side remote K some_budget fit v i here e, λ k at. refl)
  remote_special v here pass_batch bad e =
      (g, store_batch-Fifo side remote K some_budget fit v i here e, λ k at. refl)
  remote_special v here pass_budget bad e =
      (number g, store_budget-Fifo side remote K some_budget fit v i here e, λ k at. refl)
  remote_special v here publish_full bad e = (
    number g,
    store_valid-Fifo side remote K some_budget fit v i here pass_init (ground arith) (ground arith)
        (omega arith) (omega arith) (λ q. ground arith),
    λ k at. refl,
  )
  remote_special v here publish_last bad e = (
    number g,
    store_valid-Fifo side remote K some_budget fit v i here look_again (ground arith) (ground arith)
        (omega arith) (omega arith) (λ q. absurd (omega arith)),
    λ k at. refl,
  )
  remote_special v here pass_init bad e =
      (g, store_init-Fifo side remote K some_budget fit v i here e, λ k at. refl)
  remote_special v here cut_tail bad e =
      let (h, kept, same) = swap_tail-Fifo side remote K some_budget fit v i here e in
      (h, kept, λ k at. same k)
  remote_special v here grant bad e =
      (leave g, store_granted-Fifo side remote K some_budget fit v i here e, λ k at. refl)
  remote_special v here crashed bad e = (g, v, λ k at. refl)
  remote_special v here p bad e = absurd cc

  remote_step-Fifo :
      Fifo side remote K g s
      → side i ≡ remote
      → (p : Pc) → (s.thr i).pc ≡ p
      → After side remote K g s (remote_step K p i s)
  remote_step-Fifo v here p e = elim (Bool-cases (plain p)) [
    | inl ok ↦ (
      g,
      moved side remote K v i here
          (remote_step-Moves side remote K some_budget fit v i here p e ok here),
      λ k at. refl,
    )
    | inr bad ↦ remote_special v here p bad e
  ]

-- Both lines at once.
pub record Lines (side : ℕ → Side) (K : Side → ℕ) (g h : Line) (s : System) : Type 0 where
  pub locals : Fifo side local (K local) g s
  pub remotes : Fifo side remote (K remote) h s

abbrev pub InOrder : (ℕ → Side) → (Side → ℕ) → System → Type 0
InOrder side K s = (g : Line) × (h : Line) × Lines side K g h s

-- The lines after a step: nobody that was in one has moved.
pub record Moved (side : ℕ → Side) (K : Side → ℕ) (g h : Line) (s s' : System) : Type 0 where
  pub locals : Line
  pub remotes : Line
  pub lines : Lines side K locals remotes s'
  pub same_local : (k : ℕ) → side k ≡ local → 2 ≤ rank (s.thr k).pc → locals.pos k ≡ g.pos k
  pub same_remote : (k : ℕ) → side k ≡ remote → 2 ≤ rank (s.thr k).pc → remotes.pos k ≡ h.pos k

module _ (side : ℕ → Side) (K : Side → ℕ) (some_budget : (σ : Side) → 1 ≤ K σ)
    (fit : (σ : Side) → K σ < word - 1) where
  pub side_step-Moved :
      {g h : Line} {s : System}
      → Lines side K g h s
      → (i : ℕ) (σ : Side) → side i ≡ σ
      → Moved side K g h s (side_step K σ (s.thr i).pc i s)
  unfolding side_step
  side_step-Moved v i local here =
      let (g', kept, same) =
        local_step-Fifo side (K local) (some_budget local) (fit local) i v.locals here _ refl in
      let q = local_step-Quiet side (K local) i v.locals here _ refl in
      record {
        locals = g';
        remotes = _;
        lines = record { locals = kept; remotes = frame side remote (K remote) v.remotes q };
        same_local = λ k hk at. same k at;
        same_remote = λ k hk at. refl;
      }
  side_step-Moved v i remote here =
      let (h', kept, same) =
        remote_step-Fifo side (K remote) (some_budget remote) (fit remote) i v.remotes here _
          refl in
      let q = remote_step-Quiet side (K remote) i v.remotes here _ refl in
      record {
        locals = _;
        remotes = h';
        lines = record { locals = frame side local (K local) v.locals q; remotes = kept };
        same_local = λ k hk at. refl;
        same_remote = λ k hk at. same k at;
      }

  abbrev empty : Line
  empty = record { enqueued = 0; numbered = 0; left = 0; pos = λ _. 0 }

  init-Fifo : (σ : Side) → Fifo side σ (K σ) empty init
  init-Fifo σ = record {
    order = omega arith;
    tail_none = λ q. refl;
    tail_some = λ j q. ground arith;
    stage = λ i hi. ground arith;
    apart = λ i j hi hj ri rj q. absurd (omega arith);
    behind = λ i j hi lo h q. absurd (omega arith);
    next = λ i k hi lo q. absurd (omega arith);
  }

  pub init-InOrder : InOrder side K init
  init-InOrder = (empty, empty, record { locals = init-Fifo local; remotes = init-Fifo remote })
