-- ===== src/Benchmark/Exchange/Order.antt =====
-- No node of include/benchmark/benchmark.h waits for ever in ExchangeLockTable.
use farlock.Base.{
  ℕ, ◌+◌, ◌-◌, ◌*◌, ◌≤◌, ◌<◌, ◌≡◌, ◌≢◌, refl, true, ltb, ◌==◌, if◌then◌else◌, arith, inl, inr, ◌⊎◌,
}
use native.Mathlib.Nat.{mul_left_comm}
use farlock.Base.Family.{first_below, update, total, total-change, total-le-mul, total-eq-mul}
use farlock.Benchmark.Exchange.{Loop, returned, System, meet, pass, start}

-- How many of the two messages with node `b` a node has exchanged.
abbrev pub with : ℕ → Loop → ℕ
with b s = if ltb s.i b then 0 else if s.i == b then (if s.half then 1 else 0) else 2

module _ (locks chunk_size nodes : ℕ) (first_lock : ℕ → ℕ) where
  -- A message changes the count of its pair on both sides.
  pub record InStep (s : System locks chunk_size nodes first_lock) : Type 0 where
    pub other : (a : ℕ) → (s a).i ≢ a
    pub bounded : (a : ℕ) → a < nodes → (s a).i ≤ nodes
    pub within : (a : ℕ) → a < nodes → (s a).half ≡ true → (s a).i < nodes
    pub same : (a b : ℕ) → a < nodes → b < nodes → a ≢ b → with b (s a) ≡ with a (s b)

  start-InStep : InStep (start locks chunk_size nodes first_lock)
  start-InStep = record {
    other = λ a. ground arith;
    bounded = λ a lt. ground arith;
    within = λ a lt h. ground arith;
    same = λ a b la lb ne. ground arith;
  }

  pass-InStep :
      (a b : ℕ) (s : System locks chunk_size nodes first_lock)
      → meet locks chunk_size nodes first_lock a b s ≡ true
      → InStep s
      → InStep (pass locks chunk_size nodes first_lock a b s)
  unfolding pass
  pass-InStep a b s ready v = record {
    other = λ c. ground (arith, v.other c);
    bounded = λ c lt. ground (arith, v.bounded c);
    within = λ c lt h. ground (arith, v.within c, v.bounded c);
    same = λ c d lc ld ne. ground (arith, v.same c d, v.other c, v.other d, v.same a b);
  }

  -- Of the first node that has not ended, the partner is at the same message.
  partner :
      (s : System locks chunk_size nodes first_lock)
      → InStep s
      → (m : ℕ) → m < nodes
      → (s m).i < nodes
      → ((k : ℕ) → k < m → nodes ≤ (s k).i)
      → ((s (s m).i).i ≡ m) × ((s (s m).i).half ≡ (s m).half) × (m < (s m).i)
  partner s v m lt left before =
      let b = (s m).i in
      let c = (s b).i in
      ground (
        arith,
        v.same m b,
        v.other m,
        v.other b,
        v.bounded b,
        before b,
        before c,
        v.same b c,
        v.other c,
      )

  -- After `n` messages.
  pub data Reached : ℕ → System locks chunk_size nodes first_lock → Type 0 where
    begin : Reached 0 (start locks chunk_size nodes first_lock)
    message :
        {n : ℕ} {s : System locks chunk_size nodes first_lock} (a b : ℕ)
        → Reached n s
        → meet locks chunk_size nodes first_lock a b s ≡ true
        → Reached (n + 1) (pass locks chunk_size nodes first_lock a b s)

  pub Reached-InStep :
      {n : ℕ} {s : System locks chunk_size nodes first_lock} → Reached n s → InStep s
  Reached-InStep begin = start-InStep
  Reached-InStep (message {n} {s} a b r ready) = pass-InStep a b s ready (Reached-InStep r)

  -- The calls that a node has made.
  abbrev calls : ℕ → Loop → ℕ
  calls a s = 2 * (if ltb a s.i then s.i - 1 else s.i) + (if s.half then 1 else 0)

  abbrev made : System locks chunk_size nodes first_lock → ℕ
  made s = total (λ k. k) nodes (λ a. calls a (s a))

  pass-made :
      (a b : ℕ) (s : System locks chunk_size nodes first_lock)
      → meet locks chunk_size nodes first_lock a b s ≡ true
      → InStep s
      → made (pass locks chunk_size nodes first_lock a b s) ≡ made s + 2
  unfolding pass
  pass-made a b s ready v =
      let t = update s a (returned locks chunk_size a (s a).lock (s a)) in
      let u = pass locks chunk_size nodes first_lock a b s in
      let first =
        total-change (λ k. k) nodes (λ c. calls c (s c)) (λ c. calls c (t c)) a
          (ground (arith, ready)) (λ c ne. ground (arith, ne)) in
      let second =
        total-change (λ k. k) nodes (λ c. calls c (t c)) (λ c. calls c (u c)) b
          (ground (arith, ready)) (λ c ne. ground (arith, ne)) in
      let one : calls a (t a) ≡ calls a (s a) + 1 = ground (arith, ready, v.other a) in
      let other : calls b (u b) ≡ calls b (t b) + 1 = ground (arith, ready, v.other a, v.other b) in
      omega (arith, first, second, one, other)

  Reached-made :
      {n : ℕ} {s : System locks chunk_size nodes first_lock} → Reached n s → made s ≡ 2 * n
  Reached-made begin = omega (
    arith,
    total-eq-mul (λ k. k) nodes 0 (λ a. calls a (start locks chunk_size nodes first_lock a))
        (λ k lt. ground arith),
  )
  Reached-made (message {n} {s} a b r ready) =
      omega (arith, pass-made a b s ready (Reached-InStep r), Reached-made r)

  abbrev pub Ended : System locks chunk_size nodes first_lock → Type 0
  Ended s = (k : ℕ) → k < nodes → (s k).i ≡ nodes

  -- Among two nodes at the same message one sends and the other receives.
  meeting :
      (s : System locks chunk_size nodes first_lock) (m b : ℕ)
      → m < b
      → b < nodes
      → (s m).i ≡ b
      → (s b).i ≡ m
      → (s b).half ≡ (s m).half
      → (meet locks chunk_size nodes first_lock m b s ≡ true)
        ⊎ (meet locks chunk_size nodes first_lock b m s ≡ true)
  meeting s m b lt lb at_m at_b halves = ground arith

  -- In every state of ExchangeLockTable on all nodes that n messages lead to, in any order of the
  -- messages, n is at most nodes * (nodes - 1), and either all nodes have ended and n is that
  -- number, or some node is about to send to another that is about to receive from it.
  pub exchange_progress :
      {n : ℕ} (s : System locks chunk_size nodes first_lock)
      → Reached n s
      → (n ≤ nodes * (nodes - 1))
        × ((Ended s × (n ≡ nodes * (nodes - 1)))
            ⊎ ((a b : ℕ) × (meet locks chunk_size nodes first_lock a b s ≡ true)))
  exchange_progress {n} s r =
      let v = Reached-InStep r in
      let made_n = Reached-made r in
      let most =
        total-le-mul (λ k. k) nodes (2 * (nodes - 1)) (λ a. calls a (s a))
          (λ k lt. ground (arith, v.bounded k lt, v.within k lt, v.other k)) in
      let twice = mul_left_comm nodes 2 (nodes - 1) in
      (
        omega (arith, made_n, most, twice),
        elim (first_below (λ k. (s k).i) nodes nodes) [
          | inl past ↦
              let ended : Ended s = λ k lt. omega (arith, past k lt, v.bounded k lt) in
              let all =
                total-eq-mul (λ k. k) nodes (2 * (nodes - 1)) (λ a. calls a (s a))
                  (λ k lt. ground (arith, ended k lt, v.within k lt)) in
              inl (ended, omega (arith, made_n, all, twice))
          | inr (m, lt, left, before) ↦
              let (at, halves, later) = partner s v m lt left before in
              inr (elim (meeting s m (s m).i later left refl at halves) [
                | inl ready ↦ (m, (s m).i, ready)
                | inr ready ↦ ((s m).i, m, ready)
              ])
        ],
      )
