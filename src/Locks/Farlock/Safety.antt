-- ===== src/Locks/Farlock/Safety.antt =====
-- What include/locks/farlock.h guarantees in every state that up to 2 ^ 64 threads of both sides
-- reach, in whatever order their accesses to shared memory take place.
use farlock.Base.{
  ℕ, ◌+◌, ◌-◌, ◌%◌, ◌≤◌, ◌<◌, ◌≡◌, ◌≢◌, refl, Bool, true, false, some, List, All, arith, word,
}
use farlock.Base.Family.{total-le}
use farlock.Locks.Farlock.State.{
  Side, local, remote, Pc, idle, swap, draw, draw_write, lower_flag, look_next, pass_ticket,
  await_grant, await_turn, holding, unlink, cut_tail, await_releasable, grant, crashed, System,
  init,
}
use farlock.Locks.Farlock.Tickets.{advance_local, advance_remote}
use farlock.Locks.Farlock.Program.{step, run}
use farlock.Locks.Farlock.Fifo.Defs.{rank, Line, Fifo}
use farlock.Locks.Farlock.Exclusion.Peterson.{sole}
use farlock.Locks.Farlock.Exclusion.Booking.{weight, holds-le}
use farlock.Locks.Farlock.Exclusion.Turns.{step_turn}
use farlock.Locks.Farlock.Exclusion.Safe.{IsSafe, run-IsSafe, init-IsSafe}

-- Past the loop of Peterson's algorithm, with the flag still raised.
abbrev pub draws : Pc → Bool
draws draw = true
draws draw_write = true
draws lower_flag = true
draws _ = false

-- With a ticket in its descriptor that has not been given back.
abbrev pub booked : Pc → Bool
booked look_next = true
booked pass_ticket = true
booked await_grant = true
booked await_turn = true
booked holding = true
booked _ = false

-- Between the return of Lock and the first write of Unlock, or still inside Unlock.
abbrev pub first : Pc → Bool
first await_turn = true
first holding = true
first unlink = true
first cut_tail = true
first await_releasable = true
first grant = true
first _ = false

-- In the queue: the descriptor may be reached through another thread's.
abbrev pub queued : Pc → Bool
queued idle = false
queued swap = false
queued _ = true

-- How many tickets are served before that of thread `j`.
abbrev pub ahead : System → ℕ → ℕ
ahead s j = ((s.desc j).ticket + word - s.lock.current_ticket) % word

module _ (side : ℕ → Side) (n : ℕ) (few : n ≤ word) (is : List ℕ) (ids : All (λ i. i < n) is) where
  abbrev pub reached : System
  reached = run side is init

  safe : IsSafe side n reached
  safe = run-IsSafe side few is init ids (init-IsSafe side n)

  pub side_line : (σ : Side) → (g : Line) × Fifo side σ g reached
  side_line local = (safe.locals, safe.lines.locals)
  side_line remote = (safe.remotes, safe.lines.remotes)

  line : (i : ℕ) → (g : Line) × Fifo side (side i) g reached
  line i = side_line (side i)

  -- In every state that up to 2 ^ 64 threads of both sides reach in any order of their steps, two
  -- threads that are between the return of Lock and the first write of Unlock are the same.
  pub mutual_exclusion :
      (i j : ℕ) → (reached.thr i).pc ≡ holding → (reached.thr j).pc ≡ holding → i ≡ j
  mutual_exclusion i j in_i in_j =
      ground (arith, safe.booked.turn i, safe.booked.turn j, safe.booked.distinct i j)

  -- In every state of one FARLock that up to 2 ^ 64 threads reach, only one thread of either side
  -- is past Peterson's loop with its flag raised.
  pub draw_exclusion :
      (i j : ℕ) → draws (reached.thr i).pc ≡ true → draws (reached.thr j).pc ≡ true → i ≡ j
  draw_exclusion i j in_i in_j = ground (
    arith,
    sole side local safe.lines.locals i j,
    sole side remote safe.lines.remotes i j,
    safe.peterson.exclusive i j,
    safe.peterson.exclusive j i,
  )

  -- In every state of one FARLock that up to 2 ^ 64 threads reach, two threads that have the same
  -- stored ticket, not yet given back, are the same.
  pub tickets_distinct :
      (i j : ℕ)
      → booked (reached.thr i).pc ≡ true
      → booked (reached.thr j).pc ≡ true
      → (reached.desc i).ticket ≡ (reached.desc j).ticket
      → i ≡ j
  tickets_distinct i j in_i in_j same = ground (
    arith,
    safe.booked.stored i,
    safe.booked.stored j,
    safe.booked.window i,
    safe.booked.window j,
    safe.booked.count,
    safe.booked.distinct i j,
    total-le weight holds-le n reached.thr,
  )

  -- In every state of one FARLock that up to 2 ^ 64 threads reach, no thread has followed a null
  -- pointer.
  pub no_null_dereference : (i : ℕ) → (reached.thr i).pc ≢ crashed
  no_null_dereference i at = let (g, v) = line i in ground (arith, (v.stage i refl).whole)

  -- In every state of one FARLock that up to 2 ^ 64 threads reach, the write of its ticket plus
  -- one by which a thread that holds the lock starts UnlockRemote changes the state as the
  -- increment of UnlockLocal would.
  pub unlock_agree :
      (i : ℕ) → (reached.thr i).pc ≡ holding → advance_remote i reached ≡ advance_local i reached
  unfolding advance_remote advance_local
  unlock_agree i at =
      let mine : (reached.desc i).ticket ≡ reached.lock.current_ticket =
        ground (arith, safe.booked.stored i, safe.booked.turn i, safe.booked.current) in
      rw mine

  -- In every state of one FARLock that up to 2 ^ 64 threads reach, while a thread is in the queue,
  -- the one that its next pointer names is of its side and has not got past the wait for its
  -- grant.
  pub side_order :
      (i k : ℕ)
      → queued (reached.thr i).pc ≡ true
      → (reached.desc i).next ≡ some k
      → (side k ≡ side i) × (first (reached.thr k).pc ≡ false)
  side_order i k in_line succ =
      let (g, v) = line i in
      let below : 2 ≤ rank (reached.thr i).pc = ground arith in
      let behind = v.next i k refl below succ in
      (behind.0, ground (arith, behind, v.stage i refl, v.stage k behind.0))

  -- In every state of one FARLock that up to 2 ^ 64 threads reach, a thread that is about to write
  -- into its predecessor's descriptor, or to read its ticket, finds the predecessor in the queue
  -- of its own side, not about to grant, and its releasable flag not set.
  pub predecessor_present :
      (i j : ℕ)
      → 2 ≤ rank (reached.thr i).pc
      → rank (reached.thr i).pc ≤ 4
      → (reached.thr i).prev ≡ some j
      → (side j ≡ side i)
        × (queued (reached.thr j).pc ≡ true)
        × ((reached.thr j).pc ≢ grant)
        × ((reached.desc j).releasable ≡ false)
  predecessor_present i j lo hi prev =
      let (g, v) = line i in
      let b = v.behind i j refl lo hi prev in
      (b.of_side, ground (arith, b), ground (arith, b, v.stage j b.of_side), b.held)

  -- In every state of one FARLock that up to 2 ^ 64 threads reach, a thread with a stored ticket
  -- has fewer tickets before its own than there are threads.
  pub ahead-lt : (j : ℕ) → booked (reached.thr j).pc ≡ true → ahead reached j < n
  ahead-lt j waits = ground (
    arith,
    safe.booked.stored j,
    safe.booked.window j,
    safe.booked.current,
    safe.booked.count,
    total-le weight holds-le n reached.thr,
  )

  -- In every state of one FARLock that up to 2 ^ 64 threads reach, no step of another thread
  -- raises the number of tickets served before that of a thread that has stored its own.
  pub no_overtaking :
      (i j : ℕ)
      → j ≢ i
      → booked (reached.thr j).pc ≡ true
      → ahead (step side i reached) j ≤ ahead reached j
  unfolding step
  no_overtaking i j other waits = ground (
    arith,
    step_turn reached i j other (side i),
    safe.booked.stored j,
    safe.booked.stored i,
    safe.booked.window j,
    safe.booked.turn i,
    safe.booked.distinct i j,
    safe.booked.current,
    safe.booked.count,
    total-le weight holds-le n reached.thr,
  )
