-- ===== src/Locks/FarlockG/Fifo/Joining.antt =====
-- The steps of include/locks/farlockg.h between the exchange of the tail and the release of the
-- predecessor.
use farlock.Base.{ℕ, ◌≤◌, ◌<◌, ◌≡◌, some, inl, inr, Option-cases, arith, word, ◌-◌}
use farlock.Locks.Farlock.State.{Side}
use farlock.Locks.Farlock.Fifo.Defs.{Line}
use farlock.Locks.FarlockG.State.{link, read_valid, release_prev, System, goto, set_desc}
use farlock.Locks.FarlockG.Queue.{store_next, load_valid, store_releasable}
use farlock.Locks.FarlockG.Fifo.Defs.{rank, Fifo}

module _ (side : ℕ → Side) (σ : Side) (K : ℕ) (some_budget : 1 ≤ K) (fit : K < word - 1) {g : Line}
    {s : System} (v : Fifo side σ K g s) (i : ℕ) (here : side i ≡ σ) where
  linked :
      (j : ℕ)
      → (s.thr i).pc ≡ link
      → (s.thr i).prev ≡ some j
      → Fifo side σ K g (goto i read_valid (set_desc j (record (s.desc j) { next = some i }) s))
  linked j e p =
      let b = v.behind i j here (ground arith) (ground arith) p in
      record {
        order = v.order;
        tail_none = v.tail_none;
        tail_some = λ k q. ground (arith, v.tail_some k q);
        stage = λ k hk. ground (arith, b, v.stage k hk, v.stage j b.of_side);
        apart = λ a c ha hc ra rc q. ground (arith, v.apart a c ha hc);
        behind = λ a c ha lo hi q. ground (arith, b, v.behind a c ha, v.apart a i ha here);
        next = λ a k ha ra q. ground (arith, b, v.next a k ha, v.stage i here, v.stage a ha);
      }

  loaded :
      (j : ℕ)
      → (s.thr i).pc ≡ read_valid
      → (s.thr i).prev ≡ some j
      → Fifo side σ K g (load_valid i s)
  unfolding load_valid
  loaded j e p =
      let b = v.behind i j here (ground arith) (ground arith) p in
      record {
        order = v.order;
        tail_none = λ q. ground (arith, v.tail_none);
        tail_some = λ k q. ground (arith, v.tail_some k);
        stage = λ k hk. ground (arith, p, b, v.stage k hk, v.stage j b.of_side);
        apart = λ a c ha hc ra rc q. ground (arith, p, v.apart a c ha hc);
        behind = λ a c ha lo hi q. ground (arith, p, b, v.behind a c ha, v.apart a i ha here);
        next = λ a k ha ra q. ground (arith, p, b, v.next a k ha);
      }

  freed :
      (j : ℕ)
      → (s.thr i).pc ≡ release_prev
      → (s.thr i).prev ≡ some j
      → Fifo side σ K g (store_releasable i s)
  unfolding store_releasable
  freed j e p =
      let b = v.behind i j here (ground arith) (ground arith) p in
      record {
        order = v.order;
        tail_none = λ q. ground (arith, p, v.tail_none);
        tail_some = λ k q. ground (arith, p, v.tail_some k);
        stage = λ k hk. ground (arith, p, b, v.stage k hk, v.stage j b.of_side);
        apart = λ a c ha hc ra rc q. ground (arith, p, v.apart a c ha hc);
        behind = λ a c ha lo hi q. ground (arith, p, b, v.behind a c ha, v.apart a i ha here);
        next = λ a k ha ra q.
            ground (arith, p, b, v.next a k ha, v.apart a j ha b.of_side, v.stage i here);
      }

  predecessor : 2 ≤ rank (s.thr i).pc → rank (s.thr i).pc ≤ 4 → (j : ℕ) × ((s.thr i).prev ≡ some j)
  predecessor lo hi = elim (Option-cases (s.thr i).prev) [
    | inl p ↦ absurd ((v.stage i here).queued lo (omega (arith, hi)) p)
    | inr (j, p) ↦ (j, p)
  ]

  pub store_next-Fifo : (s.thr i).pc ≡ link → Fifo side σ K g (store_next i s)
  unfolding store_next
  store_next-Fifo e =
      let (j, p) = predecessor (ground arith) (ground arith) in rw (p, store_next) (linked j e p)

  pub load_valid-Fifo : (s.thr i).pc ≡ read_valid → Fifo side σ K g (load_valid i s)
  load_valid-Fifo e = let (j, p) = predecessor (ground arith) (ground arith) in loaded j e p

  pub store_releasable-Fifo : (s.thr i).pc ≡ release_prev → Fifo side σ K g (store_releasable i s)
  store_releasable-Fifo e = let (j, p) = predecessor (ground arith) (ground arith) in freed j e p
