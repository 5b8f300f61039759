-- ===== src/Locks/Farlock/Fifo/Change.antt =====
-- The steps by which a line grows, takes its next ticket, and loses its first thread.
use farlock.Base.{ℕ, ◌+◌, ◌≡◌, none, some, true, false, inl, inr, arith, Bool-cases, Option-cases}
use farlock.Base.Family.{update}
use farlock.Locks.Farlock.State.{
  Side, idle, swap, publish, cut_tail, grant, System, goto, set_desc, set_lock,
}
use farlock.Locks.Farlock.Queue.{
  tail, set_tail, enqueue, store_ticket, same, swap_tail, store_granted,
}
use farlock.Locks.Farlock.Fifo.Defs.{Line, Fifo}
use farlock.Locks.Farlock.Fifo.Going.{stay_linked}

abbrev pub join : Line → ℕ → Line
join g i = record g { enqueued = g.enqueued + 1; pos = update g.pos i g.enqueued }

abbrev pub number : Line → Line
number g = record g { numbered = g.numbered + 1 }

abbrev pub leave : Line → Line
leave g = record g { left = g.left + 1 }

module _ (side : ℕ → Side) (σ : Side) {g : Line} {s : System} (v : Fifo side σ g s) (i : ℕ)
    (here : side i ≡ σ) where
  -- The thread at the tail has no successor yet that could have released it.
  tail-held : (j : ℕ) → tail σ s.lock ≡ some j → (s.desc j).releasable ≡ false
  tail-held j q = elim (Option-cases (s.desc j).next) [
    | inl alone ↦ ground (arith, v.tail_some j q, v.stage j)
    | inr (k, succ) ↦ ground (arith, v.tail_some j q, v.next j k, v.stage k)
  ]

  pub enqueue-Fifo : (s.thr i).pc ≡ swap → Fifo side σ (join g i) (enqueue σ i s)
  enqueue-Fifo e = record {
    order = ground (arith, v.order);
    tail_none = λ q. ground arith;
    tail_some = λ k q. ground (arith, v.tail_some k);
    stage = λ k hk. ground (arith, v.stage k hk, v.order, v.tail_none);
    apart = λ a c ha hc ra rc q. ground (arith, v.apart a c ha hc, v.stage a ha, v.stage c hc);
    behind = λ a c ha lo hi q. ground (arith, v.behind a c ha, v.tail_some c, tail-held c);
    next = λ a k ha ra q. ground (arith, v.next a k ha, v.stage a ha);
  }

  pub store_ticket-Fifo : (s.thr i).pc ≡ publish → Fifo side σ (number g) (store_ticket i s)
  unfolding store_ticket
  store_ticket-Fifo e = record {
    order = ground (arith, v.order, v.stage i here);
    tail_none = λ q. ground (arith, v.tail_none);
    tail_some = λ k q. ground (arith, v.tail_some k);
    stage = λ k hk. ground (arith, v.stage k hk, v.stage i here, v.apart i k here hk);
    apart = λ a c ha hc ra rc q. ground (arith, v.apart a c ha hc);
    behind = λ a c ha lo hi q. ground (arith, v.behind a c ha, v.stage c);
    next = λ a k ha ra q. ground (arith, v.next a k ha, v.stage a ha);
  }

  cut :
      (s.thr i).pc ≡ cut_tail
      → tail σ s.lock ≡ some i
      → Fifo side σ (leave g) (goto i idle (set_lock (set_tail σ none s.lock) s))
  cut e last = record {
    order = ground (arith, v.order, v.stage i here);
    tail_none = λ q. ground (arith, v.tail_some i, v.stage i here);
    tail_some = λ k q. ground arith;
    stage =
        λ k hk. ground (arith, v.stage k hk, v.stage i here, v.tail_some i, v.apart i k here hk);
    apart = λ a c ha hc ra rc q. ground (arith, v.apart a c ha hc);
    behind = λ a c ha lo hi q.
        ground (
          arith,
          v.behind a c ha,
          v.stage a ha,
          v.stage i here,
          v.tail_some i,
          v.apart i a here ha,
        );
    next = λ a k ha ra q.
        ground
          (arith, v.next a k ha, v.stage a ha, v.stage i here, v.tail_some i, v.apart i a here ha);
  }

  handed :
      (m : ℕ)
      → (s.thr i).pc ≡ grant
      → (s.desc i).next ≡ some m
      → Fifo side σ (leave g) (goto i idle (set_desc m (record (s.desc m) { granted = true }) s))
  handed m e n = record {
    order = ground (arith, v.order, v.stage i here);
    tail_none = λ q. ground (arith, v.tail_none, v.stage i here);
    tail_some = λ k q. ground (arith, v.tail_some k, v.next i m here, v.stage m);
    stage = λ k hk.
        ground
          (arith, v.stage k hk, v.stage i here, v.next i m here, v.apart i k here hk, v.apart m k);
    apart = λ a c ha hc ra rc q. ground (arith, v.apart a c ha hc);
    behind = λ a c ha lo hi q. ground (arith, v.behind a c ha, v.stage a ha, v.stage i here);
    next =
        λ a k ha ra q. ground (arith, v.next a k ha, v.stage a ha, v.stage i here, v.next i m here);
  }

  -- A thread leaves, or learns that a successor came.
  pub swap_tail-Fifo : (s.thr i).pc ≡ cut_tail → (h : Line) × Fifo side σ h (swap_tail σ i s)
  unfolding swap_tail
  swap_tail-Fifo e = elim (Bool-cases (same (tail σ s.lock) (some i))) [
    | inl last ↦ (leave g, rw (last, swap_tail) (cut e (ground arith)))
    | inr more ↦ (g, rw (more, swap_tail) (stay_linked side σ v i here e))
  ]

  pub store_granted-Fifo : (s.thr i).pc ≡ grant → Fifo side σ (leave g) (store_granted i s)
  unfolding store_granted
  store_granted-Fifo e = elim (Option-cases (s.desc i).next) [
    | inl alone ↦ absurd (ground (arith, v.stage i here))
    | inr (m, succ) ↦ rw (succ, store_granted) (handed m e succ)
  ]
