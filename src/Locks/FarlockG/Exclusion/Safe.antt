-- ===== src/Locks/FarlockG/Exclusion/Safe.antt =====
-- The invariants of include/locks/farlockg.h together, in every state that a schedule reaches.
use farlock.Base.{ℕ, ◌+◌, ◌-◌, ◌≤◌, ◌<◌, ◌≡◌, refl, List, [], ◌∷◌, length, arith, word}
use farlock.Locks.Farlock.State.{Side, local, remote}
use farlock.Locks.Farlock.Fifo.Defs.{Line}
use farlock.Locks.FarlockG.State.{System, init}
use farlock.Locks.FarlockG.Program.{side_step, step, run}
use farlock.Locks.FarlockG.Fifo.Defs.{rank}
use farlock.Locks.FarlockG.Fifo.Steps.{Moved, side_step-Moved, init-InOrder}
use farlock.Locks.FarlockG.Exclusion.Peterson.{Peterson, init-Peterson}
use farlock.Locks.FarlockG.Exclusion.LocalPeterson.{local_step-Peterson}
use farlock.Locks.FarlockG.Exclusion.RemotePeterson.{remote_step-Peterson}
use farlock.Locks.FarlockG.Exclusion.Booking.{Book, Has, Booked, init-Booked}
use farlock.Locks.FarlockG.Exclusion.LocalOthers.{local-active}
use farlock.Locks.FarlockG.Exclusion.RemoteOthers.{remote-active}
use farlock.Locks.FarlockG.Exclusion.Steps.{
  IsSafe, AfterBook, local_step-Booked, remote_step-Booked,
}

module _ (side : ℕ → Side) (K : Side → ℕ) (some_budget : (σ : Side) → 1 ≤ K σ)
    (fit : (σ : Side) → K σ < word - 1) where
  -- The book with the lines after the step.
  rebook :
      {b : Book} {g h : Line} {s s' : System}
      → Booked side K b g h s'
      → (n : Moved side K g h s s') → ((k : ℕ) → Has side K s' k → 2 ≤ rank (s.thr k).pc)
      → Booked side K b n.locals n.remotes s'
  rebook w n active = record {
    next = w.next;
    current = w.current;
    below = w.below;
    window = w.window;
    local_order = λ i j hi hj has has2 before. w.local_order i j hi hj has has2 (
        ground
          (arith, before, n.same_local i hi (active i has), n.same_local j hj (active j has2)));
    remote_order = λ i j hi hj has has2 before. w.remote_order i j hi hj has has2 (
        ground
          (arith, before, n.same_remote i hi (active i has), n.same_remote j hj (active j has2)));
    apart = w.apart;
    ticket = w.ticket;
    passed = w.passed;
    shared = w.shared;
    stored = w.stored;
    ready = w.ready;
    turn = w.turn;
    granted = w.granted;
    linked = w.linked;
    split = w.split;
    fetched = w.fetched;
  }

  together :
      {m : ℕ} {s s' : System} (z : IsSafe side K m s)
      → Moved side K z.locals z.remotes s s'
      → ((k : ℕ) → Has side K s' k → 2 ≤ rank (s.thr k).pc)
      → Peterson side K s'
      → AfterBook side K m z.locals z.remotes s'
      → IsSafe side K (m + 1) s'
  together z n active y (b, w, few) = record {
    locals = n.locals;
    remotes = n.remotes;
    book = b;
    lines = n.lines;
    peterson = y;
    booked = rebook w n active;
    few = few;
  }

  side_step-IsSafe :
      {m : ℕ} (i : ℕ) (s : System)
      → m + 1 < word
      → IsSafe side K m s
      → (σ : Side) → side i ≡ σ
      → IsSafe side K (m + 1) (side_step K σ (s.thr i).pc i s)
  unfolding side_step
  side_step-IsSafe i s fits z local here =
      together z (side_step-Moved side K some_budget fit z.lines i local here)
        (local-active side K fit z.lines.locals z.lines.remotes i here _ refl)
        (local_step-Peterson side K fit i here z.lines.locals z.peterson _ refl)
        (local_step-Booked side K some_budget fit z i here fits _ refl)
  side_step-IsSafe i s fits z remote here =
      together z (side_step-Moved side K some_budget fit z.lines i remote here)
        (remote-active side K fit z.lines.locals z.lines.remotes i here _ refl)
        (remote_step-Peterson side K fit i here z.lines.remotes z.peterson _ refl)
        (remote_step-Booked side K some_budget fit z i here fits _ refl)

  pub step-IsSafe :
      {m : ℕ} (i : ℕ) (s : System)
      → m + 1 < word
      → IsSafe side K m s
      → IsSafe side K (m + 1) (step side K i s)
  unfolding step
  step-IsSafe i s fits z = side_step-IsSafe i s fits z (side i) refl

  pub run-IsSafe :
      (top : ℕ)
      → top < word
      → (is : List ℕ) (m : ℕ) (s : System) → m + length is ≤ top
      → IsSafe side K m s
      → IsSafe side K top (run side K is s)
  unfolding run
  run-IsSafe top low [] m s fits z = record {
    locals = z.locals;
    remotes = z.remotes;
    book = z.book;
    lines = z.lines;
    peterson = z.peterson;
    booked = z.booked;
    few = omega (arith, z.few);
  }
  run-IsSafe top low (i ∷ is) m s fits z =
      run-IsSafe top low is (m + 1) (step side K i s) (omega arith)
        (step-IsSafe i s (omega arith) z)

  pub init-IsSafe : IsSafe side K 0 init
  init-IsSafe =
      let (g, h, v) = init-InOrder side K some_budget fit in
      record {
        locals = g;
        remotes = h;
        book = _;
        lines = v;
        peterson = init-Peterson side K;
        booked = init-Booked side K g h;
        few = omega arith;
      }
