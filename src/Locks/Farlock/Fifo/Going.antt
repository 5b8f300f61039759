-- ===== src/Locks/Farlock/Fifo/Going.antt =====
-- The steps that neither join nor shorten the line, and the words of the lock that they write.
use farlock.Base.{ℕ, ◌≤◌, ◌≡◌, refl, some, true, inl, inr, arith, ◌==◌, Bool-cases, Option-cases}
use farlock.Locks.Farlock.State.{
  Side, Pc, wait_ticket, raise_flag, look_next, pass_ticket, await_grant, await_turn, holding,
  unlink, cut_tail, await_releasable, grant, System, goto, set_desc, set_lock,
}
use farlock.Locks.Farlock.Queue.{
  await, test_to_get_ticket, test_next, store_to_get_ticket, test_granted, test_unlink,
  test_releasable,
}
use farlock.Locks.Farlock.Tickets.{test_turn}
use farlock.Locks.Farlock.Fifo.Defs.{rank, Line, Stage, Fifo}
use farlock.Locks.Farlock.Fifo.Keep.{keep, advance}

module _ (side : ℕ → Side) (σ : Side) {g : Line} {s : System} (v : Fifo side σ g s) (i : ℕ)
    (here : side i ≡ σ) where
  -- A step that writes nothing shared.
  go :
      (p : Pc)
      → 5 ≤ rank (s.thr i).pc
      → 5 ≤ rank p
      → Stage g (g.pos i) (record (s.thr i) { pc = p }) (s.desc i)
      → Fifo side σ g (goto i p s)
  go p = advance side σ v i (record (s.thr i) { pc = p }) s.lock here refl

  pub test_to_get_ticket-Fifo : (s.thr i).pc ≡ wait_ticket → Fifo side σ g (test_to_get_ticket i s)
  unfolding test_to_get_ticket
  test_to_get_ticket-Fifo e = elim (Bool-cases (s.desc i).to_get_ticket) [
    | inl set ↦
        rw (set, test_to_get_ticket)
          (go raise_flag (ground arith) (omega arith) (ground (arith, v.stage i here)))
    | inr unset ↦ rw (unset, test_to_get_ticket) v
  ]

  pub test_next-Fifo : (s.thr i).pc ≡ look_next → Fifo side σ g (test_next i s)
  unfolding test_next
  test_next-Fifo e = elim (Option-cases (s.desc i).next) [
    | inl alone ↦
        rw (alone, test_next)
          (go (await (s.thr i).prev) (ground arith) (ground arith) (ground (arith, v.stage i here)))
    | inr (k, succ) ↦
        rw (succ, test_next)
          (go pass_ticket (ground arith) (omega arith) (ground (arith, v.stage i here)))
  ]

  told :
      (k : ℕ)
      → (s.thr i).pc ≡ pass_ticket
      → (s.desc i).next ≡ some k
      → Fifo side σ g (
          goto i (await (s.thr i).prev) (set_desc k (record (s.desc k) { to_get_ticket = true }) s))
  told k e succ =
      keep side σ v
        (goto i (await (s.thr i).prev) (set_desc k (record (s.desc k) { to_get_ticket = true }) s))
        refl (λ c hc. ground arith)
        (λ c hc. ground (arith, v.stage c hc, v.stage i here, v.next i k here))
        (λ a c ha lo hi q. ground (arith, v.behind a c ha))
        (λ a c ha ra q. ground (arith, v.next a c ha))

  pub store_to_get_ticket-Fifo :
      (s.thr i).pc ≡ pass_ticket → Fifo side σ g (store_to_get_ticket i s)
  unfolding store_to_get_ticket
  store_to_get_ticket-Fifo e = elim (Option-cases (s.desc i).next) [
    | inl alone ↦ absurd ((v.stage i here).follows (ground arith) alone)
    | inr (k, succ) ↦ rw (succ, store_to_get_ticket) (told k e succ)
  ]

  pub test_granted-Fifo : (s.thr i).pc ≡ await_grant → Fifo side σ g (test_granted i s)
  unfolding test_granted
  test_granted-Fifo e = elim (Bool-cases (s.desc i).granted) [
    | inl set ↦
        rw (set, test_granted)
          (go await_turn (ground arith) (omega arith) (ground (arith, v.stage i here)))
    | inr unset ↦ rw (unset, test_granted) v
  ]

  pub test_turn-Fifo : (s.thr i).pc ≡ await_turn → Fifo side σ g (test_turn i s)
  unfolding test_turn
  test_turn-Fifo e = elim (Bool-cases ((s.desc i).ticket == s.lock.current_ticket)) [
    | inl due ↦
        rw (due, test_turn)
          (go holding (ground arith) (omega arith) (ground (arith, v.stage i here)))
    | inr early ↦ rw (early, test_turn) v
  ]

  -- UnlockLocal and UnlockRemote write the turn alone.
  pub release-Fifo :
      (n : ℕ)
      → (s.thr i).pc ≡ holding
      → Fifo side σ g (goto i unlink (set_lock (record s.lock { current_ticket = n }) s))
  release-Fifo n e =
      advance side σ v i (record (s.thr i) { pc = unlink }) (record s.lock { current_ticket = n })
        here (ground arith) (ground arith) (omega arith) (ground (arith, v.stage i here))

  pub test_unlink-Fifo : (s.thr i).pc ≡ unlink → Fifo side σ g (test_unlink i s)
  unfolding test_unlink
  test_unlink-Fifo e = elim (Option-cases (s.desc i).next) [
    | inl alone ↦
        rw (alone, test_unlink)
          (go cut_tail (ground arith) (omega arith) (ground (arith, v.stage i here)))
    | inr (k, succ) ↦
        rw (succ, test_unlink)
          (go await_releasable (ground arith) (omega arith) (ground (arith, v.stage i here)))
  ]

  pub stay_linked : (s.thr i).pc ≡ cut_tail → Fifo side σ g (goto i await_releasable s)
  stay_linked e = go await_releasable (ground arith) (omega arith) (ground (arith, v.stage i here))

  pub test_releasable-Fifo : (s.thr i).pc ≡ await_releasable → Fifo side σ g (test_releasable i s)
  unfolding test_releasable
  test_releasable-Fifo e = elim (Bool-cases (s.desc i).releasable) [
    | inl set ↦
        rw (set, test_releasable)
          (go grant (ground arith) (omega arith) (ground (arith, v.stage i here)))
    | inr unset ↦ rw (unset, test_releasable) v
  ]
