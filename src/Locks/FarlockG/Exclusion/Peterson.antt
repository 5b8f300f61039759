-- ===== src/Locks/FarlockG/Exclusion/Peterson.antt =====
-- Peterson's algorithm between the two sides of include/locks/farlockg.h: a batch has the side's flag
-- until its last thread lowers it.
use farlock.Base.{if◌then◌else◌, leb, ◌&&◌, not, ℕ, ◌≤◌, ◌≡◌, ◌≢◌, arith, true}
use farlock.Locks.Farlock.State.{Side, local, remote}
use farlock.Locks.Farlock.Fifo.Defs.{Line}
use farlock.Locks.FarlockG.State.{Descriptor, Thread, System, init}
use farlock.Locks.FarlockG.Fifo.Defs.{rank, inherits, Fifo}

-- How far a thread is that has got its predecessor's ticket without knowing it yet, and one that has
-- passed its ticket on: as if it had taken the ticket, and as if it still had the turn.
abbrev pub grade : ℕ → Thread → Descriptor → ℕ
grade K t d =
    if leb 2 (rank t.pc) && leb (rank t.pc) 7 && inherits K d
    then 15
    else if leb 30 (rank t.pc) && leb (rank t.pc) 33 && not d.ticket_valid
    then 29
    else rank t.pc

module _ (side : ℕ → Side) (K : Side → ℕ) where
  abbrev pub zone : System → ℕ → ℕ
  zone s i = grade (K (side i)) (s.thr i) (s.desc i)

  -- A thread contends from its raised flag to the lowered one, and draws once it has passed the
  -- loop; with it those that get its ticket.
  pub record Peterson (s : System) : Type 0 where
    pub local_raised :
        (i : ℕ) → side i ≡ local → 10 ≤ zone s i → zone s i ≤ 20 → s.lock.local_flag ≡ true
    pub remote_raised :
        (i : ℕ) → side i ≡ remote → 10 ≤ zone s i → zone s i ≤ 20 → s.lock.remote_flag ≡ true
    pub victims : s.lock.victim ≤ 2
    pub chosen : (i : ℕ) → 11 ≤ zone s i → zone s i ≤ 12 → 1 ≤ s.lock.victim
    pub current : (i : ℕ) → side i ≡ remote → zone s i ≡ 11 → (s.thr i).seen ≢ 2 → s.lock.victim ≢ 2
    pub remote_waits :
        (i j : ℕ)
        → side i ≡ local
        → side j ≡ remote
        → 13 ≤ zone s i
        → zone s i ≤ 20
        → 11 ≤ zone s j
        → zone s j ≤ 12
        → s.lock.victim ≡ 2
    pub local_waits :
        (i j : ℕ)
        → side i ≡ local
        → side j ≡ remote
        → 13 ≤ zone s j
        → zone s j ≤ 20
        → 11 ≤ zone s i
        → zone s i ≤ 12
        → s.lock.victim ≡ 1
    pub exclusive :
        (i j : ℕ)
        → side i ≡ local
        → side j ≡ remote
        → 13 ≤ zone s i
        → zone s i ≤ 20
        → 13 ≤ zone s j
        → zone s j ≤ 20
        → ⊥

-- One thread of a side at a time has the line's next number to draw or to pass on.
pub sole :
    (side : ℕ → Side) (σ : Side) (K : ℕ) {g : Line} {s : System}
    → Fifo side σ K g s
    → (i k : ℕ) → side i ≡ σ
    → side k ≡ σ
    → 8 ≤ grade K (s.thr i) (s.desc i)
    → grade K (s.thr i) (s.desc i) ≤ 22
    → 8 ≤ grade K (s.thr k) (s.desc k)
    → grade K (s.thr k) (s.desc k) ≤ 22
    → i ≡ k
sole side σ K v i k hi hk lo lo' up up' =
    ground (arith, v.apart i k hi hk, v.stage i hi, v.stage k hk)

pub init-Peterson : (side : ℕ → Side) (K : Side → ℕ) → Peterson side K init
init-Peterson side K = record {
  local_raised = λ k hk lo hi. absurd (omega arith);
  remote_raised = λ k hk lo hi. absurd (omega arith);
  victims = omega arith;
  chosen = λ k lo hi. absurd (omega arith);
  current = λ k hk at q. absurd (omega arith);
  remote_waits = λ a c ha hc lo hi lo' hi'. absurd (omega arith);
  local_waits = λ a c ha hc lo hi lo' hi'. absurd (omega arith);
  exclusive = λ a c ha hc lo hi lo' hi'. absurd (omega arith);
}
