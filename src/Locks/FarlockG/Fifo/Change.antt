-- ===== src/Locks/FarlockG/Fifo/Change.antt =====
-- The steps of include/locks/farlockg.h by which a line grows, counts a ticket, and loses its first
-- thread.
use farlock.Base.{
  ℕ, ◌+◌, ◌≤◌, ◌<◌, ◌≡◌, refl, some, none, inl, inr, Bool-cases, Option-cases, arith, word, ◌-◌,
  true,
}
use farlock.Base.Family.{update}
use farlock.Locks.Farlock.State.{Side, remote}
use farlock.Locks.Farlock.Fifo.Defs.{Line}
use farlock.Locks.Farlock.Queue.{same}
use farlock.Locks.FarlockG.State.{
  Pc, idle, swap, cut_tail, await_releasable, grant, System, goto, set_desc, set_lock,
}
use farlock.Locks.FarlockG.Queue.{tail, set_tail, enqueue, swap_tail, store_granted, reset}
use farlock.Locks.FarlockG.Batch.{store_valid}
use farlock.Locks.FarlockG.Fifo.Keep.{moved}
use farlock.Locks.FarlockG.Fifo.Defs.{rank, Fifo}

abbrev pub join : Line → ℕ → Line
join g i = record g { enqueued = g.enqueued + 1; pos = update g.pos i g.enqueued }

abbrev pub number : Line → Line
number g = record g { numbered = g.numbered + 1 }

abbrev pub leave : Line → Line
leave g = record g { left = g.left + 1 }

module _ (side : ℕ → Side) (σ : Side) (K : ℕ) (some_budget : 1 ≤ K) (fit : K < word - 1) {g : Line}
    {s : System} (v : Fifo side σ K g s) (i : ℕ) (here : side i ≡ σ) where
  pub reset-Fifo : (s.thr i).pc ≡ idle → Fifo side σ K g (reset i s)
  unfolding reset
  reset-Fifo e = record {
    order = ground (arith, v.order);
    tail_none = λ q. ground (arith, v.tail_none);
    tail_some = λ k q. ground (arith, v.tail_some k);
    stage = λ k hk. ground (arith, v.stage k hk);
    apart = λ a c ha hc ra rc q. ground (arith, v.apart a c ha hc);
    behind = λ a c ha lo hi q. ground (arith, v.behind a c ha);
    next = λ a k ha ra q. ground (arith, v.next a k ha);
  }

  -- A failed round of the exchange only learns the tail.
  pub learn_tail :
      (s.thr i).pc ≡ swap
      → Fifo side σ K g
          (record s { thr = update s.thr i (record (s.thr i) { expected = tail remote s.lock }) })
  learn_tail e = record {
    order = ground (arith, v.order);
    tail_none = λ q. ground (arith, v.tail_none);
    tail_some = λ k q. ground (arith, v.tail_some k);
    stage = λ k hk. ground (arith, v.stage k hk);
    apart = λ a c ha hc ra rc q. ground (arith, v.apart a c ha hc);
    behind = λ a c ha lo hi q. ground (arith, v.behind a c ha);
    next = λ a k ha ra q. ground (arith, v.next a k ha);
  }

  -- The thread at the tail has no successor yet.
  tail-last : (j : ℕ) → tail σ s.lock ≡ some j → (s.desc j).next ≡ none
  tail-last j q = elim (Option-cases (s.desc j).next) [
    | inl alone ↦ alone
    | inr (k, succ) ↦ absurd (ground (arith, v.tail_some j q, v.next j k, v.stage k))
  ]

  pub enqueue-Fifo : (s.thr i).pc ≡ swap → Fifo side σ K (join g i) (enqueue σ i s)
  enqueue-Fifo e = record {
    order = ground (arith, v.order);
    tail_none = λ q. ground (arith, v.tail_none);
    tail_some = λ k q. ground (arith, v.tail_some k);
    stage = λ k hk. ground (arith, v.stage k hk, v.order, v.tail_none);
    apart = λ a c ha hc ra rc q. ground (arith, v.apart a c ha hc, v.stage a ha, v.stage c hc);
    behind =
        λ a c ha lo hi q. ground (arith, v.behind a c ha, v.tail_some c, tail-last c, v.stage c);
    next = λ a k ha ra q. ground (arith, v.next a k ha, v.stage a ha);
  }

  pub store_valid-Fifo :
      (p : Pc)
      → 21 ≤ rank (s.thr i).pc
      → rank (s.thr i).pc ≤ 22
      → 23 ≤ rank p
      → rank p ≤ 24
      → (rank p ≡ 24 → rank (s.thr i).pc ≡ 21)
      → Fifo side σ K (number g) (store_valid p i s)
  unfolding store_valid
  store_valid-Fifo p lo hi from to more =
      let own = v.stage i here in
      record {
        order = ground (arith, v.order, own);
        tail_none = λ q. ground (arith, v.tail_none);
        tail_some = λ k q. ground (arith, v.tail_some k);
        stage = λ k hk. ground (arith, v.stage k hk, own, v.apart i k here hk);
        apart = λ a c ha hc ra rc q. ground (arith, v.apart a c ha hc);
        behind = λ a c ha lo hi q. ground (arith, v.behind a c ha, v.stage c);
        next = λ a k ha ra q. ground (arith, v.next a k ha, v.stage a ha, v.stage k, own);
      }

  cut :
      (s.thr i).pc ≡ cut_tail
      → tail σ s.lock ≡ some i
      → Fifo side σ K (leave g) (goto i idle (set_lock (set_tail σ none s.lock) s))
  cut e last =
      let own = v.stage i here in
      let at_end = v.tail_some i last in
      record {
        order = ground (arith, v.order, own);
        tail_none = λ q. ground (arith, own, at_end);
        tail_some = λ k q. ground (arith, own);
        stage = λ k hk. ground (arith, v.stage k hk, own, at_end, v.apart i k here hk);
        apart = λ a c ha hc ra rc q. ground (arith, v.apart a c ha hc);
        behind = λ a c ha lo hi q.
            ground (arith, v.behind a c ha, v.stage a ha, own, at_end, v.apart i a here ha);
        next = λ a k ha ra q.
            ground (arith, v.next a k ha, v.stage a ha, own, at_end, v.apart i a here ha);
      }

  pub swap_tail-Fifo :
      (s.thr i).pc ≡ cut_tail
      → (h : Line) × Fifo side σ K h (swap_tail σ i s) × ((k : ℕ) → h.pos k ≡ g.pos k)
  unfolding swap_tail
  swap_tail-Fifo e = elim (Bool-cases (same (tail σ s.lock) (some i))) [
    | inl last ↦ (leave g, rw (last, swap_tail) (cut e (ground arith)), λ k. refl)
    | inr more ↦ (g, rw (more, swap_tail) (stay_linked e), λ k. refl)
  ]
    where
      stay_linked : (s.thr i).pc ≡ cut_tail → Fifo side σ K g (goto i await_releasable s)
      stay_linked at = moved side σ K v i here (record {
        same_tail = refl;
        others = λ k ne. ground arith;
        old = ground arith;
        new = ground arith;
        stage = ground (arith, v.stage i here);
        same_next = refl;
        same_releasable = refl;
        same_valid = refl;
        late = ground arith;
        joined = ground arith;
        unjoined = ground arith;
      })

  handed :
      (m : ℕ)
      → (s.thr i).pc ≡ grant
      → (s.desc i).next ≡ some m
      → Fifo side σ K (leave g) (goto i idle (set_desc m (record (s.desc m) { granted = true }) s))
  handed m e n =
      let own = v.stage i here in
      let x = v.next i m here (ground arith) n in
      record {
        order = ground (arith, v.order, own);
        tail_none = λ q. ground (arith, v.tail_none, own);
        tail_some = λ k q. ground (arith, v.tail_some k, x, v.stage m x.of_side);
        stage = λ k hk. ground (
          arith,
          v.stage k hk,
          own,
          x,
          n,
          v.apart i k here hk,
          v.apart m k x.of_side hk,
          v.stage m x.of_side,
        );
        apart = λ a c ha hc ra rc q. ground (arith, v.apart a c ha hc);
        behind = λ a c ha lo hi q. ground (arith, v.behind a c ha, v.stage a ha, own);
        next = λ a k ha ra q. ground (arith, v.next a k ha, v.stage a ha, own, x, n);
      }

  pub store_granted-Fifo : (s.thr i).pc ≡ grant → Fifo side σ K (leave g) (store_granted i s)
  unfolding store_granted
  store_granted-Fifo e = elim (Option-cases (s.desc i).next) [
    | inl alone ↦ absurd (ground (arith, v.stage i here))
    | inr (m, succ) ↦ rw (succ, store_granted) (handed m e succ)
  ]
