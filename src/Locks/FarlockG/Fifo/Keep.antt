-- ===== src/Locks/FarlockG/Fifo/Keep.antt =====
-- A step of a thread of include/locks/farlockg.h that stays where it is in its line.
use farlock.Base.{ℕ, ◌≤◌, ◌≡◌, ◌≢◌, ◌⊎◌, ℕ_discrete, sym, ap, ◌∙◌, some, none, arith, false}
use farlock.Locks.Farlock.State.{Side}
use farlock.Locks.Farlock.Fifo.Defs.{Line}
use farlock.Locks.FarlockG.State.{System}
use farlock.Locks.FarlockG.Queue.{tail}
use farlock.Locks.FarlockG.Fifo.Defs.{rank, Joined, Unjoined, Stage, Behind, Next, Fifo}

-- What a step of thread `i` that neither joins nor shortens the line leaves of it.
pub record Moves (side : ℕ → Side) (σ : Side) (K : ℕ) (g : Line) (s s' : System) (i : ℕ)
    : Type 0 where
  pub same_tail : tail σ s'.lock ≡ tail σ s.lock
  pub others : (k : ℕ) → k ≢ i → (s'.thr k ≡ s.thr k) × (s'.desc k ≡ s.desc k)
  pub old : 5 ≤ rank (s.thr i).pc
  pub new : 5 ≤ rank (s'.thr i).pc
  pub stage : Stage K g (g.pos i) (s'.thr i) (s'.desc i)
  pub same_next : (s'.desc i).next ≡ (s.desc i).next
  pub same_releasable : (s'.desc i).releasable ≡ (s.desc i).releasable
  pub same_valid : (s'.desc i).ticket_valid ≡ (s.desc i).ticket_valid
  pub late :
      25 ≤ rank (s'.thr i).pc
      → (s.desc i).ticket_valid ≡ false
      → (25 ≤ rank (s.thr i).pc) ⊎ ((s.desc i).next ≡ none)
  pub joined : Joined K (s.thr i) (s.desc i) → Joined K (s'.thr i) (s'.desc i)
  pub unjoined : Unjoined K (s.thr i) (s.desc i) → Unjoined K (s'.thr i) (s'.desc i)

module _ (side : ℕ → Side) (σ : Side) (K : ℕ) {g : Line} {s s' : System} (v : Fifo side σ K g s)
    (i : ℕ) (here : side i ≡ σ) (m : Moves side σ K g s s' i) where
  pub moved : Fifo side σ K g s'
  moved = record {
    order = v.order;
    tail_none = λ q. v.tail_none (sym m.same_tail ∙ q);
    tail_some = λ k q. elim (ℕ_discrete k i) [
      | yes e ↦ ground (arith, e, v.tail_some k (sym m.same_tail ∙ q), m.new)
      | no ne ↦ ground (arith, m.others k ne, v.tail_some k (sym m.same_tail ∙ q))
    ];
    stage = λ k hk. elim (ℕ_discrete k i) [
      | yes e ↦ rw e m.stage
      | no ne ↦ rw ((m.others k ne).0, (m.others k ne).1) (v.stage k hk)
    ];
    apart = λ a c ha hc ra rc q. v.apart a c ha hc (was_in a ra) (was_in c rc) q;
    behind = λ a c ha lo hi q. elim (ℕ_discrete a i) [
      | yes e ↦ absurd (ground (arith, e, m.new))
      | no ne ↦ let old = m.others a ne in behind_other a c ne ha lo hi q
    ];
    next = λ a k ha ra q. next_any a k ha ra q;
  }
    where
      was_in : (k : ℕ) → 2 ≤ rank (s'.thr k).pc → 2 ≤ rank (s.thr k).pc
      was_in k r = elim (ℕ_discrete k i) [
        | yes e ↦ rw e (omega (arith, m.old))
        | no ne ↦ rw (sym (m.others k ne).0) r
      ]

      behind_other :
          (a c : ℕ)
          → a ≢ i
          → side a ≡ σ
          → 2 ≤ rank (s'.thr a).pc
          → rank (s'.thr a).pc ≤ 4
          → (s'.thr a).prev ≡ some c
          → Behind side σ K g s' a c
      behind_other a c ne ha lo hi q = elim (ℕ_discrete c i) [
        | yes e ↦
            let same = m.others a ne in
            let b =
              v.behind a i ha (rw (sym same.0) lo) (rw (sym same.0) hi)
                (sym (ap (λ t. t.prev) same.0) ∙ q ∙ ap some e) in
            rw e (ground (arith, same, b, m.same_next, m.same_releasable, m.same_valid, m.new))
        | no ne' ↦ ground (arith, m.others a ne, m.others c ne', v.behind a c ha)
      ]

      next_any :
          (a k : ℕ)
          → side a ≡ σ
          → 2 ≤ rank (s'.thr a).pc
          → (s'.desc a).next ≡ some k
          → Next side σ K g s' a k
      next_any a k ha ra q = elim (ℕ_discrete a i) [
        | yes e ↦
            let q' = sym m.same_next ∙ ap (λ j. (s'.desc j).next) (sym e) ∙ q in
            let x = v.next i k here (omega (arith, m.old)) q' in
            elim (ℕ_discrete k i) [
              | yes e' ↦ absurd (omega (arith, x.succ, ap g.pos e'))
              | no ne' ↦
                  let same = m.others k ne' in
                  rw e (ground (arith, same, x, m.same_valid, m.late, q'))
            ]
        | no ne ↦
            let same = m.others a ne in
            let q' = ap (λ d. d.next) (sym same.1) ∙ q in
            let x = v.next a k ha (was_in a ra) q' in
            elim (ℕ_discrete k i) [
              | yes e' ↦
                  let y = rw e' at x in
                  rw e' (record {
                    of_side = y.of_side;
                    active = omega (arith, m.new);
                    succ = y.succ;
                    cut = λ o. m.unjoined (y.cut (sym (ap (λ d. d.ticket_valid) same.1) ∙ o));
                    handed = λ r o. m.joined (
                        y.handed (ground (arith, same, r))
                          (sym (ap (λ d. d.ticket_valid) same.1) ∙ o));
                  })
              | no ne' ↦ ground (arith, same, m.others k ne', x)
            ]
      ]
