-- ===== src/Locks/Farlock/Fifo/Keep.antt =====
-- Changes of a system that leave the line of a side alone.
use farlock.Base.{ℕ, ◌+◌, ◌≤◌, ◌≡◌, ◌↔◌, sym, ◌∙◌, some, arith}
use farlock.Base.Family.{update}
use farlock.Locks.Farlock.State.{Side, FarLock, Thread, System}
use farlock.Locks.Farlock.Queue.{tail}
use farlock.Locks.Farlock.Fifo.Defs.{rank, Line, Stage, Behind, Fifo}

module _ (side : ℕ → Side) (σ : Side) {g : Line} {s : System} (v : Fifo side σ g s) where
  -- The same threads stay in the line, and the tail stays.
  pub keep :
      (s' : System)
      → tail σ s'.lock ≡ tail σ s.lock
      → ((k : ℕ) → side k ≡ σ → (2 ≤ rank (s'.thr k).pc) ↔ (2 ≤ rank (s.thr k).pc))
      → ((k : ℕ) → side k ≡ σ → Stage g (g.pos k) (s'.thr k) (s'.desc k))
      → ((a c : ℕ)
          → side a ≡ σ
          → 2 ≤ rank (s'.thr a).pc
          → rank (s'.thr a).pc ≤ 4
          → (s'.thr a).prev ≡ some c
          → Behind side σ g s' a c)
      → ((a k : ℕ)
          → side a ≡ σ
          → 2 ≤ rank (s'.thr a).pc
          → (s'.desc a).next ≡ some k
          → (side k ≡ σ) × (2 ≤ rank (s'.thr k).pc) × (g.pos k ≡ g.pos a + 1))
      → Fifo side σ g s'
  keep s' same active stage behind next = record {
    order = v.order;
    tail_none = λ q. v.tail_none (sym same ∙ q);
    tail_some = λ k q.
        let (of_side, in_line, last) = v.tail_some k (sym same ∙ q) in
        (of_side, (active k of_side).1 in_line, last);
    stage = stage;
    apart = λ a c ha hc ra rc q. v.apart a c ha hc ((active a ha).0 ra) ((active c hc).0 rc) q;
    behind = behind;
    next = next;
  }

  -- Threads of the other side do not reach the tail, the threads and the descriptors of this one.
  pub frame :
      (s' : System)
      → tail σ s'.lock ≡ tail σ s.lock
      → ((k : ℕ) → side k ≡ σ → (s'.thr k ≡ s.thr k) × (s'.desc k ≡ s.desc k))
      → Fifo side σ g s'
  frame s' same own =
      keep s' same (λ k hk. ground (arith, own k hk))
        (λ k hk. ground (arith, own k hk, v.stage k hk))
        (λ a c ha lo hi q. ground (arith, own a ha, own c, v.behind a c ha))
        (λ a k ha ra q. ground (arith, own a ha, own k, v.next a k ha))

  -- A thread that has released its predecessor goes on, and writes no descriptor.
  pub advance :
      (i : ℕ) (t : Thread) (l : FarLock)
      → side i ≡ σ
      → tail σ l ≡ tail σ s.lock
      → 5 ≤ rank (s.thr i).pc
      → 5 ≤ rank t.pc
      → Stage g (g.pos i) t (s.desc i)
      → Fifo side σ g (record { lock = l; desc = s.desc; thr = update s.thr i t })
  advance i t l here same old new own =
      keep (record { lock = l; desc = s.desc; thr = update s.thr i t }) same (λ k hk. ground arith)
        (λ k hk. ground (arith, own, v.stage k hk))
        (λ a c ha lo hi q. ground (arith, v.behind a c ha))
        (λ a k ha ra q. ground (arith, v.next a k ha))
