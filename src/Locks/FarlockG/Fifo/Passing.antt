-- ===== src/Locks/FarlockG/Fifo/Passing.antt =====
-- The steps of include/locks/farlockg.h that pass a ticket or a budget on to the next thread.
use farlock.Base.{◌%◌, ℕ, ◌+◌, ◌≤◌, ◌<◌, ◌≡◌, some, inl, inr, Option-cases, arith, word, ◌-◌}
use farlock.Locks.Farlock.State.{Side}
use farlock.Locks.Farlock.Fifo.Defs.{Line}
use farlock.Locks.FarlockG.State.{pass_batch, pass_budget, pass_init, System, goto, set_desc}
use farlock.Locks.FarlockG.Queue.{await}
use farlock.Locks.FarlockG.Batch.{store_batch, store_budget, store_init}
use farlock.Locks.FarlockG.Fifo.Defs.{Fifo}
use farlock.Locks.FarlockG.Fifo.Change.{number}

module _ (side : ℕ → Side) (σ : Side) (K : ℕ) (some_budget : 1 ≤ K) (fit : K < word - 1) {g : Line}
    {s : System} (v : Fifo side σ K g s) (i : ℕ) (here : side i ≡ σ) where
  batch_passed :
      (m : ℕ)
      → (s.thr i).pc ≡ pass_batch
      → (s.desc i).next ≡ some m
      → Fifo side σ K g (
          goto i pass_budget (set_desc m (record (s.desc m) { batch_ticket = (s.thr i).ticket }) s))
  batch_passed m e n = record {
    order = ground (arith, v.order);
    tail_none = λ q. ground (arith, v.tail_none);
    tail_some = λ k q. ground (arith, v.tail_some k);
    stage = λ k hk. ground (arith, v.stage k hk, n);
    apart = λ a c ha hc ra rc q. ground (arith, v.apart a c ha hc);
    behind = λ a c ha lo hi q. ground (arith, v.behind a c ha);
    next = λ a k ha ra q. ground (arith, v.next a k ha, v.stage a ha, n);
  }

  init_passed :
      (m : ℕ)
      → (s.thr i).pc ≡ pass_init
      → (s.desc i).next ≡ some m
      → Fifo side σ K g (
          goto i
            (await (s.thr i).prev (s.thr i).from_prev)
            (set_desc m (record (s.desc m) { budget = K }) s))
  init_passed m e n =
      let x = v.next i m here (ground arith) n in
      let own = v.stage i here in
      record {
        order = ground (arith, v.order);
        tail_none = λ q. ground (arith, v.tail_none);
        tail_some = λ k q. ground (arith, v.tail_some k);
        stage =
            λ k hk. ground (arith, v.stage k hk, v.stage m x.of_side, own, x, some_budget, fit, n);
        apart = λ a c ha hc ra rc q. ground (arith, v.apart a c ha hc);
        behind = λ a c ha lo hi q. ground (arith, v.behind a c ha);
        next = λ a k ha ra q.
            ground (
              arith,
              v.next a k ha,
              v.apart a i ha here,
              v.stage a ha,
              own,
              x,
              n,
              some_budget,
              fit,
            );
      }

  budget_passed :
      (m : ℕ)
      → (s.thr i).pc ≡ pass_budget
      → (s.desc i).next ≡ some m
      → Fifo side σ K (number g) (
          goto i
            (await (s.thr i).prev (s.thr i).from_prev)
            (set_desc m (record (s.desc m) { budget = ((s.desc i).budget + word - 1) % word }) s))
  budget_passed m e n =
      let x = v.next i m here (ground arith) n in
      let own = v.stage i here in
      let next = v.stage m x.of_side in
      record {
        order = ground (arith, v.order, own, next, x);
        tail_none = λ q. ground (arith, v.tail_none);
        tail_some = λ k q. ground (arith, v.tail_some k);
        stage = λ k hk.
            ground (arith, v.stage k hk, next, own, x, some_budget, fit, n, v.apart i k here hk);
        apart = λ a c ha hc ra rc q. ground (arith, v.apart a c ha hc);
        behind = λ a c ha lo hi q. ground (arith, v.behind a c ha);
        next = λ a k ha ra q. ground (
          arith,
          v.next a k ha,
          v.apart a i ha here,
          v.stage a ha,
          own,
          next,
          x,
          n,
          some_budget,
          fit,
        );
      }

  pub store_batch-Fifo : (s.thr i).pc ≡ pass_batch → Fifo side σ K g (store_batch i s)
  unfolding store_batch
  store_batch-Fifo e = elim (Option-cases (s.desc i).next) [
    | inl alone ↦ absurd (ground (arith, v.stage i here))
    | inr (m, succ) ↦ rw (succ, store_batch) (batch_passed m e succ)
  ]

  pub store_budget-Fifo : (s.thr i).pc ≡ pass_budget → Fifo side σ K (number g) (store_budget i s)
  unfolding store_budget
  store_budget-Fifo e = elim (Option-cases (s.desc i).next) [
    | inl alone ↦ absurd (ground (arith, v.stage i here))
    | inr (m, succ) ↦ rw (succ, store_budget) (budget_passed m e succ)
  ]

  pub store_init-Fifo : (s.thr i).pc ≡ pass_init → Fifo side σ K g (store_init K i s)
  unfolding store_init
  store_init-Fifo e = elim (Option-cases (s.desc i).next) [
    | inl alone ↦ absurd (ground (arith, v.stage i here))
    | inr (m, succ) ↦ rw (succ, store_init) (init_passed m e succ)
  ]
