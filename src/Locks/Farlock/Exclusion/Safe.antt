-- ===== src/Locks/Farlock/Exclusion/Safe.antt =====
-- The three invariants together, in every state that a schedule of `n` threads reaches.
use farlock.Base.{ℕ, ◌≤◌, ◌<◌, ◌≡◌, refl, ◌∙◌, List, [], ◌∷◌, All, word}
use farlock.Locks.Farlock.State.{Side, local, remote, Pc, draw, draw_write, holding, System, init}
use farlock.Locks.Farlock.Program.{local_step, remote_step, side_step, step, run}
use farlock.Locks.Farlock.Fifo.Defs.{Line}
use farlock.Locks.Farlock.Fifo.Steps.{Lines, InOrder, side_step-InOrder, init-InOrder}
use farlock.Locks.Farlock.Exclusion.Peterson.{
  Peterson, local_step-Peterson, remote_step-Peterson, init-Peterson,
}
use farlock.Locks.Farlock.Exclusion.Booking.{Book, Booked, issue, serve, init-Booked}
use farlock.Locks.Farlock.Exclusion.LocalBook
use farlock.Locks.Farlock.Exclusion.RemoteBook

pub record IsSafe (side : ℕ → Side) (n : ℕ) (s : System) : Type 0 where
  pub locals : Line
  pub remotes : Line
  pub book : Book
  pub lines : Lines side locals remotes s
  pub peterson : Peterson side s
  pub booked : Booked side n book s

Pc-discrete : Discrete Pc
Pc-discrete = hlevel

abbrev AfterBook : (ℕ → Side) → ℕ → System → Type 0
AfterBook side n s = (b : Book) × Booked side n b s

module _ (side : ℕ → Side) {n : ℕ} (few : n ≤ word) where
  local_step-Booked :
      {s : System} (z : IsSafe side n s) (i : ℕ)
      → side i ≡ local
      → i < n
      → (p : Pc) → (s.thr i).pc ≡ p
      → AfterBook side n (local_step p i s)
  unfolding local_step
  local_step-Booked z i here lt p e = elim (Pc-discrete p draw) [
    | yes q ↦
        rw q
          (issue z.book i, LocalBook.drew side z.lines.locals z.peterson z.booked i here lt (e ∙ q))
    | no ne ↦ elim (Pc-discrete p holding) [
      | yes q ↦
          rw q (
            serve z.book,
            LocalBook.served side z.lines.locals z.peterson z.booked i here lt (e ∙ q),
          )
      | no ne' ↦
          (z.book, LocalBook.other side z.lines.locals z.peterson z.booked i here lt p e ne ne' few)
    ]
  ]

  remote_step-Booked :
      {s : System} (z : IsSafe side n s) (i : ℕ)
      → side i ≡ remote
      → i < n
      → (p : Pc) → (s.thr i).pc ≡ p
      → AfterBook side n (remote_step p i s)
  unfolding remote_step
  remote_step-Booked z i here lt p e = elim (Pc-discrete p draw_write) [
    | yes q ↦
        rw q (
          issue z.book i,
          RemoteBook.drew side z.lines.remotes z.peterson z.booked i here lt (e ∙ q),
        )
    | no ne ↦ elim (Pc-discrete p holding) [
      | yes q ↦ rw q (
        serve z.book,
        RemoteBook.served side z.lines.remotes z.peterson z.booked i here lt (e ∙ q),
      )
      | no ne' ↦ (
        z.book,
        RemoteBook.other side z.lines.remotes z.peterson z.booked i here lt p e ne ne' few,
      )
    ]
  ]

  together : (s : System) → InOrder side s → Peterson side s → AfterBook side n s → IsSafe side n s
  unfolding InOrder
  together s (g, h, v) z (b, w) = record {
    locals = g;
    remotes = h;
    book = b;
    lines = v;
    peterson = z;
    booked = w;
  }

  side_step-IsSafe :
      (i : ℕ) (s : System)
      → i < n
      → IsSafe side n s
      → (σ : Side) → side i ≡ σ
      → IsSafe side n (side_step σ (s.thr i).pc i s)
  unfolding side_step
  side_step-IsSafe i s lt z local here =
      together _ (side_step-InOrder side z.lines i local here)
        (local_step-Peterson side i z.lines.locals z.peterson here _ refl)
        (local_step-Booked z i here lt _ refl)
  side_step-IsSafe i s lt z remote here =
      together _ (side_step-InOrder side z.lines i remote here)
        (remote_step-Peterson side i z.lines.remotes z.peterson here _ refl)
        (remote_step-Booked z i here lt _ refl)

  pub step-IsSafe : (i : ℕ) (s : System) → i < n → IsSafe side n s → IsSafe side n (step side i s)
  unfolding step
  step-IsSafe i s lt z = side_step-IsSafe i s lt z (side i) refl

  pub run-IsSafe :
      (is : List ℕ) (s : System)
      → All (λ i. i < n) is
      → IsSafe side n s
      → IsSafe side n (run side is s)
  unfolding run
  run-IsSafe [] s lt z = z
  run-IsSafe (i ∷ is) s (lt, lts) z = run-IsSafe is (step side i s) lts (step-IsSafe i s lt z)

pub init-IsSafe : (side : ℕ → Side) (n : ℕ) → IsSafe side n init
unfolding InOrder
init-IsSafe side n =
    let (g, h, v) = init-InOrder side in
    record {
      locals = g;
      remotes = h;
      book = _;
      lines = v;
      peterson = init-Peterson side;
      booked = init-Booked side n;
    }
