-- ===== src/Locks/FarlockG/Exclusion/Steps.antt =====
-- A step of any thread of include/locks/farlockg.h keeps the book of the tickets.
use farlock.Base.{
  ℕ, ◌+◌, ◌-◌, ◌≤◌, ◌<◌, ◌≡◌, ◌≢◌, ◌∙◌, ap, some, inl, inr, Option-cases, arith, word,
}
use farlock.Locks.Farlock.State.{Side, local, remote}
use farlock.Locks.Farlock.Fifo.Defs.{Line}
use farlock.Locks.FarlockG.State.{Pc, draw, draw_write, pass_budget, advance, System}
use farlock.Locks.FarlockG.Program.{local_step, remote_step}
use farlock.Locks.FarlockG.Fifo.Defs.{Fifo}
use farlock.Locks.FarlockG.Fifo.Steps.{Lines}
use farlock.Locks.FarlockG.Exclusion.Peterson.{Peterson}
use farlock.Locks.FarlockG.Exclusion.Booking.{Book, Booked, issue, pass, serve}
use farlock.Locks.FarlockG.Exclusion.LocalPlain.{local_other}
use farlock.Locks.FarlockG.Exclusion.LocalDraw.{local_drew}
use farlock.Locks.FarlockG.Exclusion.LocalServe.{local_served}
use farlock.Locks.FarlockG.Exclusion.LocalPass.{local_passed}
use farlock.Locks.FarlockG.Exclusion.RemotePlain.{remote_other}
use farlock.Locks.FarlockG.Exclusion.RemoteDraw.{remote_drew}
use farlock.Locks.FarlockG.Exclusion.RemoteServe.{remote_served}
use farlock.Locks.FarlockG.Exclusion.RemotePass.{remote_passed}

-- `m` bounds the tickets that were drawn.
pub record IsSafe (side : ℕ → Side) (K : Side → ℕ) (m : ℕ) (s : System) : Type 0 where
  pub locals : Line
  pub remotes : Line
  pub book : Book
  pub lines : Lines side K locals remotes s
  pub peterson : Peterson side K s
  pub booked : Booked side K book locals remotes s
  pub few : book.issued ≤ m

Pc-discrete : Discrete Pc
Pc-discrete = hlevel

-- The book after a step, with the old lines.
abbrev pub AfterBook : (ℕ → Side) → (Side → ℕ) → ℕ → Line → Line → System → Type 0
AfterBook side K m g h s = (b : Book) × Booked side K b g h s × (b.issued ≤ m + 1)

module _ (side : ℕ → Side) (K : Side → ℕ) (some_budget : (σ : Side) → 1 ≤ K σ)
    (fit : (σ : Side) → K σ < word - 1) where
  -- A thread at `pass_budget` has a successor, which is another thread.
  pub successor :
      {σ : Side} {g : Line} {s : System}
      → Fifo side σ (K σ) g s
      → (i : ℕ) → side i ≡ σ
      → (s.thr i).pc ≡ pass_budget
      → (j : ℕ) × ((s.desc i).next ≡ some j) × (j ≢ i)
  successor {g} {s} v i here e = elim (Option-cases (s.desc i).next) [
    | inl alone ↦ absurd (ground (arith, v.stage i here))
    | inr (j, n) ↦
        (j, n, λ same. omega (arith, (v.next i j here (ground arith) n).succ, ap g.pos same))
  ]

  pub local_step-Booked :
      {m : ℕ} {s : System} (z : IsSafe side K m s) (i : ℕ)
      → side i ≡ local
      → m + 1 < word
      → (p : Pc) → (s.thr i).pc ≡ p
      → AfterBook side K m z.locals z.remotes (local_step (K local) p i s)
  local_step-Booked {m} {s} z i here fits p e =
      let v = z.lines.locals in
      let v2 = z.lines.remotes in
      let b = z.book in
      let few : b.issued < word - 1 = omega (arith, z.few) in
      let less : b.issued ≤ m + 1 = omega (arith, z.few) in
      elim (Pc-discrete p draw) [
        | yes q ↦ rw q (
          issue b i,
          local_drew side K fit v v2 i here z.booked z.peterson (e ∙ q) few,
          omega (arith, z.few),
        )
        | no no_draw ↦ elim (Pc-discrete p advance) [
          | yes q ↦
              rw q
                (serve b, local_served side K fit v v2 i here z.booked z.peterson (e ∙ q) few, less)
          | no no_serve ↦ elim (Pc-discrete p pass_budget) [
            | yes q ↦
                let (j, n, ne) = successor v i here (e ∙ q) in
                rw q (
                  pass b i j,
                  local_passed side K fit v v2 i here z.booked z.peterson (e ∙ q) j n ne,
                  less,
                )
            | no no_pass ↦
                (b, local_other side K fit v v2 i here z.booked p e no_draw no_pass no_serve, less)
          ]
        ]
      ]

  pub remote_step-Booked :
      {m : ℕ} {s : System} (z : IsSafe side K m s) (i : ℕ)
      → side i ≡ remote
      → m + 1 < word
      → (p : Pc) → (s.thr i).pc ≡ p
      → AfterBook side K m z.locals z.remotes (remote_step (K remote) p i s)
  remote_step-Booked {m} {s} z i here fits p e =
      let v = z.lines.locals in
      let v2 = z.lines.remotes in
      let b = z.book in
      let few : b.issued < word - 1 = omega (arith, z.few) in
      let less : b.issued ≤ m + 1 = omega (arith, z.few) in
      elim (Pc-discrete p draw_write) [
        | yes q ↦ rw q (
          issue b i,
          remote_drew side K fit v v2 i here z.booked z.peterson (e ∙ q) few,
          omega (arith, z.few),
        )
        | no no_draw ↦ elim (Pc-discrete p advance) [
          | yes q ↦
              rw q (
                serve b,
                remote_served side K fit v v2 i here z.booked z.peterson (e ∙ q) few,
                less,
              )
          | no no_serve ↦ elim (Pc-discrete p pass_budget) [
            | yes q ↦
                let (j, n, ne) = successor v2 i here (e ∙ q) in
                rw q (
                  pass b i j,
                  remote_passed side K fit v v2 i here z.booked z.peterson (e ∙ q) j n ne,
                  less,
                )
            | no no_pass ↦
                (b, remote_other side K fit v v2 i here z.booked p e no_draw no_pass no_serve, less)
          ]
        ]
      ]
