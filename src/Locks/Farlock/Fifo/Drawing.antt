-- ===== src/Locks/Farlock/Fifo/Drawing.antt =====
-- A thread that draws a ticket stays where it is in its line, whatever it reads and writes for that.
use farlock.Base.{ℕ, ◌≤◌, ◌≡◌, arith}
use farlock.Locks.Farlock.State.{Side, local, remote, Pc, crashed, System}
use farlock.Locks.Farlock.Tickets.{
  raise_local, victim_local, test_remote_flag, test_local_victim, lower_local, raise_remote,
  victim_remote, load_victim, test_local_flag, lower_remote, fetch_add_ticket, fetch_ticket,
  add_ticket,
}
use farlock.Locks.Farlock.Program.{local_step, remote_step}
use farlock.Locks.Farlock.Fifo.Defs.{rank, Line, Fifo}
use farlock.Locks.Farlock.Fifo.Keep.{keep}

module _ (side : ℕ → Side) {g : Line} {s : System} (i : ℕ) where
  pub local_draw-Fifo :
      Fifo side local g s
      → side i ≡ local
      → (p : Pc) → (s.thr i).pc ≡ p
      → 6 ≤ rank (s.thr i).pc
      → rank (s.thr i).pc ≤ 12
      → Fifo side local g (local_step p i s)
  unfolding local_step raise_local victim_local test_remote_flag test_local_victim lower_local
      fetch_add_ticket
  local_draw-Fifo v here crashed e lo hi = v
  local_draw-Fifo v here p e lo hi =
      keep side local v (local_step p i s) (ground arith) (λ k hk. ground arith)
        (λ k hk. ground (arith, v.stage k hk)) (λ a c ha from to q. ground (arith, v.behind a c ha))
        (λ a k ha ra q. ground (arith, v.next a k ha))

  pub remote_draw-Fifo :
      Fifo side remote g s
      → side i ≡ remote
      → (p : Pc) → (s.thr i).pc ≡ p
      → 6 ≤ rank (s.thr i).pc
      → rank (s.thr i).pc ≤ 12
      → Fifo side remote g (remote_step p i s)
  unfolding remote_step raise_remote victim_remote load_victim test_local_flag lower_remote
      fetch_ticket add_ticket
  remote_draw-Fifo v here crashed e lo hi = v
  remote_draw-Fifo v here p e lo hi =
      keep side remote v (remote_step p i s) (ground arith) (λ k hk. ground arith)
        (λ k hk. ground (arith, v.stage k hk)) (λ a c ha from to q. ground (arith, v.behind a c ha))
        (λ a k ha ra q. ground (arith, v.next a k ha))
