-- ===== src/Locks/Farlock/Fifo/Joining.antt =====
-- The steps from the start of a lock operation to the release of the predecessor.
use farlock.Base.{ℕ, ◌≤◌, ◌≡◌, refl, some, true, inl, inr, arith, ◌==◌, if◌then◌else◌, Option-cases}
use farlock.Base.Family.{update}
use farlock.Locks.Farlock.State.{
  Side, remote, idle, swap, link, read_ticket, release_prev, wait_ticket, raise_flag, System,
  k_invalid_ticket, goto, set_desc,
}
use farlock.Locks.Farlock.Queue.{tail, reset, store_next, load_ticket, store_releasable}
use farlock.Locks.Farlock.Fifo.Defs.{rank, Line, Behind, Fifo}
use farlock.Locks.Farlock.Fifo.Keep.{keep}

module _ (side : ℕ → Side) (σ : Side) {g : Line} {s : System} (v : Fifo side σ g s) (i : ℕ)
    (here : side i ≡ σ) where
  pub reset-Fifo : (s.thr i).pc ≡ idle → Fifo side σ g (reset i s)
  unfolding reset
  reset-Fifo e =
      keep side σ v (reset i s) refl (λ k hk. ground arith) (λ k hk. ground (arith, v.stage k hk))
        (λ a c ha lo hi q. ground (arith, v.behind a c ha))
        (λ a k ha ra q. ground (arith, v.next a k ha))

  -- A failed round of the exchange only learns the tail.
  pub learn_tail :
      (s.thr i).pc ≡ swap
      → Fifo side σ g
          (record s { thr = update s.thr i (record (s.thr i) { expected = tail remote s.lock }) })
  learn_tail e =
      keep side σ v
        (record s { thr = update s.thr i (record (s.thr i) { expected = tail remote s.lock }) })
        refl (λ k hk. ground arith) (λ k hk. ground (arith, v.stage k hk))
        (λ a c ha lo hi q. ground (arith, v.behind a c ha))
        (λ a k ha ra q. ground (arith, v.next a k ha))

  module _ (j : ℕ) (b : Behind side σ g s i j) where
    linked :
        (s.thr i).pc ≡ link
        → (s.thr i).prev ≡ some j
        → Fifo side σ g (goto i read_ticket (set_desc j (record (s.desc j) { next = some i }) s))
    linked e p =
        keep side σ v (goto i read_ticket (set_desc j (record (s.desc j) { next = some i }) s)) refl
          (λ k hk. ground arith) (λ k hk. ground (arith, b, v.stage k hk))
          (λ a c ha lo hi q. ground (arith, b, v.behind a c ha, v.apart a i ha here))
          (λ a k ha ra q. ground (arith, b, v.next a k ha))

    loaded :
        (s.thr i).pc ≡ read_ticket
        → (s.thr i).prev ≡ some j
        → Fifo side σ g (record s {
          thr = update s.thr i (record (s.thr i) { pc = release_prev; ticket = (s.desc j).ticket });
        })
    loaded e p =
        keep side σ v
          (record s {
            thr =
                update s.thr i (record (s.thr i) { pc = release_prev; ticket = (s.desc j).ticket });
          })
          refl (λ k hk. ground arith) (λ k hk. ground (arith, b, v.stage k hk, v.stage j b.of_side))
          (λ a c ha lo hi q. ground (arith, b, v.behind a c ha))
          (λ a k ha ra q. ground (arith, v.next a k ha))

    freed :
        (s.thr i).pc ≡ release_prev
        → (s.thr i).prev ≡ some j
        → Fifo side σ g (
            goto i
              (if (s.thr i).ticket == k_invalid_ticket then wait_ticket else raise_flag)
              (set_desc j (record (s.desc j) { releasable = true }) s))
    freed e p =
        keep side σ v
          (goto i (if (s.thr i).ticket == k_invalid_ticket then wait_ticket else raise_flag)
            (set_desc j (record (s.desc j) { releasable = true }) s))
          refl (λ k hk. ground arith) (λ k hk. ground (arith, b, v.stage k hk))
          (λ a c ha lo hi q. ground (arith, b, v.behind a c ha, v.apart a i ha here))
          (λ a k ha ra q. ground (arith, b, v.next a k ha))

  predecessor :
      2 ≤ rank (s.thr i).pc
      → rank (s.thr i).pc ≤ 4
      → (j : ℕ) × ((s.thr i).prev ≡ some j) × Behind side σ g s i j
  predecessor lo hi = elim (Option-cases (s.thr i).prev) [
    | inl p ↦ absurd ((v.stage i here).queued lo hi p)
    | inr (j, p) ↦ (j, p, v.behind i j here lo hi p)
  ]

  pub store_next-Fifo : (s.thr i).pc ≡ link → Fifo side σ g (store_next i s)
  unfolding store_next
  store_next-Fifo e =
      let (j, p, b) = predecessor (ground arith) (ground arith) in
      rw (p, store_next) (linked j b e p)

  pub load_ticket-Fifo : (s.thr i).pc ≡ read_ticket → Fifo side σ g (load_ticket i s)
  unfolding load_ticket
  load_ticket-Fifo e =
      let (j, p, b) = predecessor (ground arith) (ground arith) in
      rw (p, load_ticket) (loaded j b e p)

  pub store_releasable-Fifo : (s.thr i).pc ≡ release_prev → Fifo side σ g (store_releasable i s)
  unfolding store_releasable
  store_releasable-Fifo e =
      let (j, p, b) = predecessor (ground arith) (ground arith) in
      rw (p, store_releasable) (freed j b e p)
