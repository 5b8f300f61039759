-- ===== src/Benchmark/Exchange/Tables.antt =====
-- What ExchangeLockTable of include/benchmark/benchmark.h leaves in `remote_locks`.
use farlock.Base.{
  ℕ, zero, suc, ◌+◌, ◌<◌, ◌≡◌, ◌≢◌, refl, sym, ap, subst, ◌∙◌, true, false, List, [], ◌++◌, ◌==◌,
  if◌then◌else◌, arith, ℕ_discrete, Bool-cases, inl, inr,
}
use mathlib.Core.List.{append-nil}
use farlock.Rdma.Pointer.{Pointer}
use farlock.Benchmark.Exchange.{Loop, skip, locks_from, returned, System, pass}
use farlock.Benchmark.Exchange.Order.{Reached, Reached-InStep, begin, message}

module _ (locks chunk_size nodes : ℕ) (first_lock : ℕ → ℕ) where
  -- The locks of the nodes below `n` but the own one.
  unfoldable pub others : ℕ → ℕ → List Pointer
  others a zero = []
  others a (suc k) =
      others a k ++ (if k == a then [] else locks_from chunk_size locks 0 (first_lock k))

  others-own : (a i : ℕ) → i ≡ a → others a (i + 1) ≡ others a i
  unfolding others
  others-own a i at =
      let next : i + 1 ≡ suc i = omega arith in
      let own : (i == a) ≡ true = ground (arith, at) in rw (next, own) (append-nil (others a i))

  others-next :
      (a i : ℕ)
      → i ≢ a
      → others a (i + 1) ≡ others a i ++ locks_from chunk_size locks 0 (first_lock i)
  unfolding others
  others-next a i ne =
      let next : i + 1 ≡ suc i = omega arith in
      let other : (i == a) ≡ false = ground (arith, ne) in rw (next, other) refl

  others-skip : (a i : ℕ) → others a (skip a i) ≡ others a i
  others-skip a i = elim (Bool-cases (i == a)) [
    | inl at ↦ rw at (others-own a i (ground (arith, at)))
    | inr ne ↦ rw ne refl
  ]

  -- A loop has the locks of the nodes before, and the partner's once it is received.
  record Holds (a : ℕ) (s : Loop) : Type 0 where
    table : s.remote_locks ≡ others a s.i
    got : s.half ≡ true → s.i < a → s.lock ≡ first_lock s.i

  returned-Holds :
      (a lock : ℕ) (s : Loop)
      → s.i ≢ a
      → Holds a s
      → (s.half ≡ true → lock ≡ first_lock s.i)
      → (s.half ≡ false → s.i < a → lock ≡ first_lock s.i)
      → Holds a (returned locks chunk_size a lock s)
  returned-Holds a lock s ne v second first = elim (Bool-cases s.half) [
    | inl half ↦ rw half (record {
      table = rw (v.table, second half) (sym (others-skip a (s.i + 1) ∙ others-next a s.i ne));
      got = λ h lt. absurd cc;
    })
    | inr half ↦ rw half (record { table = v.table; got = λ h lt. first half lt })
  ]

  module _ (a b : ℕ) where
    passed-receiver :
        (s : System locks chunk_size nodes first_lock)
        → pass locks chunk_size nodes first_lock a b s b
          ≡ returned locks chunk_size b (first_lock a) (s b)
    unfolding pass
    passed-receiver s = ground arith

    passed-sender :
        (s : System locks chunk_size nodes first_lock)
        → a ≢ b
        → pass locks chunk_size nodes first_lock a b s a
          ≡ returned locks chunk_size a (s a).lock (s a)
    unfolding pass
    passed-sender s ne = ground arith

    passed-other :
        (c : ℕ) (s : System locks chunk_size nodes first_lock)
        → c ≢ b
        → c ≢ a
        → pass locks chunk_size nodes first_lock a b s c ≡ s c
    unfolding pass
    passed-other c s not_b not_a = ground arith

  Reached-Holds :
      {n : ℕ} {s : System locks chunk_size nodes first_lock}
      → Reached locks chunk_size nodes first_lock n s
      → (a : ℕ) → Holds a (s a)
  unfolding others
  Reached-Holds begin a = record { table = sym (others-skip a 0); got = λ h lt. absurd cc }
  Reached-Holds (message {n} {s} a b r ready) c =
      let v = Reached-InStep locks chunk_size nodes first_lock r in
      let holds = Reached-Holds r in
      let from : (s b).i ≡ a = ground (arith, ready) in
      let received : first_lock a ≡ first_lock (s b).i = ap first_lock (sym from) in
      elim (ℕ_discrete c b) [
        | yes at_b ↦ rw at_b (
            subst (Holds b) (sym (passed-receiver a b s)) (
              returned-Holds b (first_lock a) (s b) (v.other b) (holds b) (λ h. received)
                (λ h lt. received)))
        | no not_b ↦ elim (ℕ_discrete c a) [
          | yes at_a ↦ rw at_a (
              subst (Holds a) (sym (passed-sender a b s (λ e. not_b (at_a ∙ e)))) (
                returned-Holds a (s a).lock (s a) (v.other a) (holds a)
                  (λ h. (holds a).got h (ground (arith, ready, v.other a)))
                  (λ h lt. absurd (ground (arith, ready)))))
          | no not_a ↦ subst (Holds c) (sym (passed-other a b c s not_b not_a)) (holds c)
        ]
      ]

  pub Reached-table :
      {n : ℕ} {s : System locks chunk_size nodes first_lock}
      → Reached locks chunk_size nodes first_lock n s
      → (a : ℕ) → (s a).remote_locks ≡ others a (s a).i
  Reached-table r a = (Reached-Holds r a).table
