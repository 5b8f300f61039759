-- ===== src/Locks/Farlock/Fifo/Steps.antt =====
-- Every step of every thread keeps both lines in order.
use farlock.Base.{ℕ, ◌≡◌, refl, inl, inr, arith, Bool-cases}
use farlock.Locks.Farlock.State.{
  Side, local, remote, Pc, idle, swap, link, read_ticket, release_prev, wait_ticket, raise_flag,
  set_victim, read_flag, read_victim, draw, draw_write, lower_flag, publish, look_next, pass_ticket,
  await_grant, await_turn, holding, unlink, cut_tail, await_releasable, grant, crashed, System,
  init,
}
use farlock.Locks.Farlock.Queue.{tail, same, exchange_tail, exchange_round}
use farlock.Locks.Farlock.Tickets.{advance_local, advance_remote}
use farlock.Locks.Farlock.Program.{local_step, remote_step, side_step}
use farlock.Locks.Farlock.Fifo.Defs.{Line, Fifo}
use farlock.Locks.Farlock.Fifo.Keep.{frame}
use farlock.Locks.Farlock.Fifo.Joining.{
  reset-Fifo, learn_tail, store_next-Fifo, load_ticket-Fifo, store_releasable-Fifo,
}
use farlock.Locks.Farlock.Fifo.Going.{
  test_to_get_ticket-Fifo, test_next-Fifo, store_to_get_ticket-Fifo, test_granted-Fifo,
  test_turn-Fifo, release-Fifo, test_unlink-Fifo, test_releasable-Fifo,
}
use farlock.Locks.Farlock.Fifo.Drawing.{local_draw-Fifo, remote_draw-Fifo}
use farlock.Locks.Farlock.Fifo.Change.{
  join, number, leave, enqueue-Fifo, store_ticket-Fifo, swap_tail-Fifo, store_granted-Fifo,
}
use farlock.Locks.Farlock.Fifo.Frame.{local_step-Quiet, remote_step-Quiet}

abbrev After : (ℕ → Side) → Side → System → Type 0
After side σ s = (h : Line) × Fifo side σ h s

module _ (side : ℕ → Side) {g : Line} {s : System} (i : ℕ) where
  local_step-Fifo :
      Fifo side local g s
      → side i ≡ local
      → (p : Pc) → (s.thr i).pc ≡ p
      → After side local (local_step p i s)
  unfolding local_step exchange_tail advance_local
  local_step-Fifo v here idle e = (g, reset-Fifo side local v i here e)
  local_step-Fifo v here swap e = (join g i, enqueue-Fifo side local v i here e)
  local_step-Fifo v here link e = (g, store_next-Fifo side local v i here e)
  local_step-Fifo v here read_ticket e = (g, load_ticket-Fifo side local v i here e)
  local_step-Fifo v here release_prev e = (g, store_releasable-Fifo side local v i here e)
  local_step-Fifo v here wait_ticket e = (g, test_to_get_ticket-Fifo side local v i here e)
  local_step-Fifo v here raise_flag e =
      (g, local_draw-Fifo side i v here raise_flag e (ground arith) (ground arith))
  local_step-Fifo v here set_victim e =
      (g, local_draw-Fifo side i v here set_victim e (ground arith) (ground arith))
  local_step-Fifo v here read_flag e =
      (g, local_draw-Fifo side i v here read_flag e (ground arith) (ground arith))
  local_step-Fifo v here read_victim e =
      (g, local_draw-Fifo side i v here read_victim e (ground arith) (ground arith))
  local_step-Fifo v here draw e =
      (g, local_draw-Fifo side i v here draw e (ground arith) (ground arith))
  local_step-Fifo v here draw_write e =
      (g, local_draw-Fifo side i v here draw_write e (ground arith) (ground arith))
  local_step-Fifo v here lower_flag e =
      (g, local_draw-Fifo side i v here lower_flag e (ground arith) (ground arith))
  local_step-Fifo v here publish e = (number g, store_ticket-Fifo side local v i here e)
  local_step-Fifo v here look_next e = (g, test_next-Fifo side local v i here e)
  local_step-Fifo v here pass_ticket e = (g, store_to_get_ticket-Fifo side local v i here e)
  local_step-Fifo v here await_grant e = (g, test_granted-Fifo side local v i here e)
  local_step-Fifo v here await_turn e = (g, test_turn-Fifo side local v i here e)
  local_step-Fifo v here holding e = (g, release-Fifo side local v i here _ e)
  local_step-Fifo v here unlink e = (g, test_unlink-Fifo side local v i here e)
  local_step-Fifo v here cut_tail e = swap_tail-Fifo side local v i here e
  local_step-Fifo v here await_releasable e = (g, test_releasable-Fifo side local v i here e)
  local_step-Fifo v here grant e = (leave g, store_granted-Fifo side local v i here e)
  local_step-Fifo v here crashed e = (g, v)

  remote_step-Fifo :
      Fifo side remote g s
      → side i ≡ remote
      → (p : Pc) → (s.thr i).pc ≡ p
      → After side remote (remote_step p i s)
  unfolding remote_step exchange_round advance_remote
  remote_step-Fifo v here idle e = (g, reset-Fifo side remote v i here e)
  remote_step-Fifo v here swap e =
      elim (Bool-cases (same (tail remote s.lock) (s.thr i).expected)) [
        | inl hit ↦ (join g i, rw (hit, exchange_round) (enqueue-Fifo side remote v i here e))
        | inr miss ↦ (g, rw (miss, exchange_round) (learn_tail side remote v i here e))
      ]
  remote_step-Fifo v here link e = (g, store_next-Fifo side remote v i here e)
  remote_step-Fifo v here read_ticket e = (g, load_ticket-Fifo side remote v i here e)
  remote_step-Fifo v here release_prev e = (g, store_releasable-Fifo side remote v i here e)
  remote_step-Fifo v here wait_ticket e = (g, test_to_get_ticket-Fifo side remote v i here e)
  remote_step-Fifo v here raise_flag e =
      (g, remote_draw-Fifo side i v here raise_flag e (ground arith) (ground arith))
  remote_step-Fifo v here set_victim e =
      (g, remote_draw-Fifo side i v here set_victim e (ground arith) (ground arith))
  remote_step-Fifo v here read_flag e =
      (g, remote_draw-Fifo side i v here read_flag e (ground arith) (ground arith))
  remote_step-Fifo v here read_victim e =
      (g, remote_draw-Fifo side i v here read_victim e (ground arith) (ground arith))
  remote_step-Fifo v here draw e =
      (g, remote_draw-Fifo side i v here draw e (ground arith) (ground arith))
  remote_step-Fifo v here draw_write e =
      (g, remote_draw-Fifo side i v here draw_write e (ground arith) (ground arith))
  remote_step-Fifo v here lower_flag e =
      (g, remote_draw-Fifo side i v here lower_flag e (ground arith) (ground arith))
  remote_step-Fifo v here publish e = (number g, store_ticket-Fifo side remote v i here e)
  remote_step-Fifo v here look_next e = (g, test_next-Fifo side remote v i here e)
  remote_step-Fifo v here pass_ticket e = (g, store_to_get_ticket-Fifo side remote v i here e)
  remote_step-Fifo v here await_grant e = (g, test_granted-Fifo side remote v i here e)
  remote_step-Fifo v here await_turn e = (g, test_turn-Fifo side remote v i here e)
  remote_step-Fifo v here holding e = (g, release-Fifo side remote v i here _ e)
  remote_step-Fifo v here unlink e = (g, test_unlink-Fifo side remote v i here e)
  remote_step-Fifo v here cut_tail e = swap_tail-Fifo side remote v i here e
  remote_step-Fifo v here await_releasable e = (g, test_releasable-Fifo side remote v i here e)
  remote_step-Fifo v here grant e = (leave g, store_granted-Fifo side remote v i here e)
  remote_step-Fifo v here crashed e = (g, v)

-- Both lines at once.
pub record Lines (side : ℕ → Side) (g h : Line) (s : System) : Type 0 where
  pub locals : Fifo side local g s
  pub remotes : Fifo side remote h s

unfoldable pub InOrder : (ℕ → Side) → System → Type 0
InOrder side s = (g : Line) × (h : Line) × Lines side g h s

module _ (side : ℕ → Side) where
  pub side_step-InOrder :
      {g h : Line} {s : System}
      → Lines side g h s
      → (i : ℕ) (σ : Side) → side i ≡ σ
      → InOrder side (side_step σ (s.thr i).pc i s)
  unfolding side_step InOrder
  side_step-InOrder v i local here =
      let (g', kept) = local_step-Fifo side i v.locals here _ refl in
      let q = local_step-Quiet side i v.locals here _ refl in
      (
        g',
        _,
        record { locals = kept; remotes = frame side remote v.remotes _ q.same_tail q.same_thread },
      )
  side_step-InOrder v i remote here =
      let (h', kept) = remote_step-Fifo side i v.remotes here _ refl in
      let q = remote_step-Quiet side i v.remotes here _ refl in
      (
        _,
        h',
        record { locals = frame side local v.locals _ q.same_tail q.same_thread; remotes = kept },
      )

  abbrev empty : Line
  empty = record { enqueued = 0; numbered = 0; left = 0; pos = λ _. 0 }

  init-Fifo : (σ : Side) → Fifo side σ empty init
  init-Fifo local = record {
    order = omega arith;
    tail_none = λ q. refl;
    tail_some = λ j q. cc;
    stage = λ i hi. ground arith;
    apart = λ i j hi hj ri rj q. absurd (omega arith);
    behind = λ i j hi lo h q. absurd (omega arith);
    next = λ i k hi lo q. absurd (omega arith);
  }
  init-Fifo remote = record {
    order = omega arith;
    tail_none = λ q. refl;
    tail_some = λ j q. cc;
    stage = λ i hi. ground arith;
    apart = λ i j hi hj ri rj q. absurd (omega arith);
    behind = λ i j hi lo h q. absurd (omega arith);
    next = λ i k hi lo q. absurd (omega arith);
  }

  pub init-InOrder : InOrder side init
  unfolding InOrder
  init-InOrder = (empty, empty, record { locals = init-Fifo local; remotes = init-Fifo remote })
