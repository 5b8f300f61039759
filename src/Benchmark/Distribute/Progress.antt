-- ===== src/Benchmark/Distribute/Progress.antt =====
-- How far the selective distribution of include/benchmark/benchmark.h is after a number of messages,
-- and what the nodes without locks of their own have computed from the words that they have received.
use farlock.Base.{
  ℕ, zero, suc, ◌+◌, ◌-◌, ◌*◌, ◌≤◌, ◌<◌, ◌≡◌, refl, sym, ◌∙◌, true, false, ltb, List, [], ◌++◌,
  ℕ_discrete, dec_lt, dec_le, arith, ◌⊎◌, inl, inr,
}
use farlock.Base.Family.{
  first_below, update, update-same, total, total-agree, total-change, total-le-mul, total-eq-mul,
}
use farlock.Rdma.Pointer.{Pointer}
use farlock.Benchmark.Exchange.{locks_from}
use farlock.Benchmark.Distribute.{Handout, Handouts, begun, ready, sent, received, hand_out}

module _ (locks_per_node chunk_size lock_hosts nodes : ℕ) (first_lock : ℕ → ℕ) where
  -- After `n` messages.
  pub data Handed : ℕ → Handouts → Type 0 where
    start : Handed 0 (begun locks_per_node chunk_size lock_hosts nodes first_lock)
    message :
        {n : ℕ} {s : Handouts} (h a : ℕ)
        → Handed n s
        → ready locks_per_node chunk_size lock_hosts nodes first_lock h a s ≡ true
        → Handed (n + 1) (hand_out locks_per_node chunk_size lock_hosts nodes first_lock h a s)

  -- What a node computes from the words of the first `k` hosts.
  unfoldable pub locks_of_hosts : ℕ → List Pointer
  locks_of_hosts zero = []
  locks_of_hosts (suc k) = locks_of_hosts k ++ locks_from chunk_size locks_per_node 0 (first_lock k)

  locks_of_hosts-next :
      (k : ℕ)
      → locks_of_hosts (k + 1)
        ≡ locks_of_hosts k ++ locks_from chunk_size locks_per_node 0 (first_lock k)
  unfolding locks_of_hosts
  locks_of_hosts-next k = let next : k + 1 ≡ suc k = omega arith in rw next refl

  record Agreed (s : Handouts) : Type 0 where
    host_from : (h : ℕ) → h < lock_hosts → lock_hosts ≤ (s h).i
    host_to : (h : ℕ) → h < lock_hosts → (s h).i ≤ nodes
    guest_to : (a : ℕ) → lock_hosts ≤ a → a < nodes → (s a).i ≤ lock_hosts
    got : (h a : ℕ) → h < lock_hosts → lock_hosts ≤ a → a < nodes → a < (s h).i → h < (s a).i
    gave : (h a : ℕ) → h < lock_hosts → lock_hosts ≤ a → a < nodes → h < (s a).i → a < (s h).i
    table : (a : ℕ) → lock_hosts ≤ a → (s a).remote_locks ≡ locks_of_hosts (s a).i

  begun-Agreed :
      lock_hosts ≤ nodes → Agreed (begun locks_per_node chunk_size lock_hosts nodes first_lock)
  unfolding locks_of_hosts
  begun-Agreed enough = record {
    host_from = λ h lt. ground (arith, lt);
    host_to = λ h lt. ground (arith, lt, enough);
    guest_to = λ a ge lt. ground (arith, ge);
    got = λ h a lt ge l m. ground (arith, lt, ge, m);
    gave = λ h a lt ge l m. ground (arith, lt, ge, m);
    table = λ a ge. let guest : ltb a lock_hosts ≡ false = ground (arith, ge) in rw guest refl;
  }

  -- What a guest has after a host has handed out its locks.
  received-table :
      (h : ℕ) (s : Handout)
      → s.i ≡ h
      → s.remote_locks ≡ locks_of_hosts s.i
      → (received locks_per_node chunk_size lock_hosts nodes first_lock
          (first_lock h)
          s).remote_locks
        ≡ locks_of_hosts (s.i + 1)
  received-table h s at table = rw (table, locks_of_hosts-next s.i, at) refl

  table_of :
      (x y : Handout)
      → x ≡ y
      → y.remote_locks ≡ locks_of_hosts y.i
      → x.remote_locks ≡ locks_of_hosts x.i
  table_of x y same table = rw same table

  hand_out-Agreed :
      (h a : ℕ) (s : Handouts)
      → ready locks_per_node chunk_size lock_hosts nodes first_lock h a s ≡ true
      → Agreed s
      → Agreed (hand_out locks_per_node chunk_size lock_hosts nodes first_lock h a s)
  unfolding hand_out
  hand_out-Agreed h a s is v = record {
    host_from = λ k lt. ground (arith, lt, v.host_from k);
    host_to = λ k lt. ground (arith, lt, v.host_to k);
    guest_to = λ k ge lt. ground (arith, ge, v.guest_to k);
    got = λ k b lt ge l. ground (arith, lt, ge, l, v.got k b);
    gave = λ k b lt ge l. ground (arith, lt, ge, l, v.gave k b);
    table = λ b ge. elim (ℕ_discrete a b) [
      | yes at ↦
          table_of (hand_out locks_per_node chunk_size lock_hosts nodes first_lock h a s b)
            (received locks_per_node chunk_size lock_hosts nodes first_lock (first_lock h) (s a))
            (rw (sym at) (
              update-same
                (update s h (sent locks_per_node chunk_size lock_hosts nodes first_lock (s h))) a
                (received locks_per_node chunk_size lock_hosts nodes first_lock (first_lock h)
                  (s a))))
            (received-table h (s a) (ground (arith, is)) (v.table a (ground (arith, is))))
      | no ne ↦
          table_of (hand_out locks_per_node chunk_size lock_hosts nodes first_lock h a s b) (s b)
            (ground (arith, ne, ge, is)) (v.table b ge)
    ];
  }

  Handed-Agreed : lock_hosts ≤ nodes → {n : ℕ} {s : Handouts} → Handed n s → Agreed s
  Handed-Agreed enough start = begun-Agreed enough
  Handed-Agreed enough (message {n} {s} h a r is) =
      hand_out-Agreed h a s is (Handed-Agreed enough r)

  -- The words that the hosts have sent.
  abbrev given : Handouts → ℕ
  given s = total (λ k. k) lock_hosts (λ h. (s h).i - lock_hosts)

  hand_out-given :
      (h a : ℕ) (s : Handouts)
      → ready locks_per_node chunk_size lock_hosts nodes first_lock h a s ≡ true
      → Agreed s
      → given (hand_out locks_per_node chunk_size lock_hosts nodes first_lock h a s) ≡ given s + 1
  unfolding hand_out
  hand_out-given h a s is v =
      let t = hand_out locks_per_node chunk_size lock_hosts nodes first_lock h a s in
      let u = update s h (sent locks_per_node chunk_size lock_hosts nodes first_lock (s h)) in
      let change =
        total-change (λ k. k) lock_hosts (λ k. (s k).i - lock_hosts) (λ k. (u k).i - lock_hosts) h
          (ground (arith, is)) (λ k ne. ground (arith, ne)) in
      let hosts =
        total-agree (λ k. k) lock_hosts (λ k. (u k).i - lock_hosts) (λ k. (t k).i - lock_hosts)
          (λ k lt. ground (arith, lt, is)) in
      let one : (u h).i - lock_hosts ≡ (s h).i - lock_hosts + 1 =
        ground (arith, is, v.host_from h) in
      omega (arith, change, hosts, one)

  Handed-given : lock_hosts ≤ nodes → {n : ℕ} {s : Handouts} → Handed n s → given s ≡ n
  Handed-given enough start =
      total-eq-mul (λ k. k) lock_hosts 0
        (λ h. (begun locks_per_node chunk_size lock_hosts nodes first_lock h).i - lock_hosts)
        (λ k lt. ground (arith, lt))
      ∙ omega arith
  Handed-given enough (message {n} {s} h a r is) =
      omega (arith, hand_out-given h a s is (Handed-Agreed enough r), Handed-given enough r)

  abbrev pub Ended : Handouts → Type 0
  Ended s =
      ((h : ℕ) → h < lock_hosts → (s h).i ≡ nodes)
      × ((a : ℕ) → lock_hosts ≤ a → a < nodes → (s a).i ≡ lock_hosts)

  -- Once the hosts have ended the others have.
  guests-end :
      (s : Handouts)
      → Agreed s
      → ((h : ℕ) → h < lock_hosts → nodes ≤ (s h).i)
      → (a : ℕ) → lock_hosts ≤ a
      → a < nodes
      → (s a).i ≡ lock_hosts
  guests-end s v ended a ge lt = elim (dec_lt (s a).i lock_hosts) [
    | yes less ↦
        absurd (omega (arith, v.got (s a).i a less ge lt (omega (arith, ended (s a).i less, lt))))
    | no all ↦ omega (arith, all, v.guest_to a ge lt)
  ]

  -- The first host that has not ended meets a node that waits for it.
  host_meets :
      (s : Handouts)
      → Agreed s
      → lock_hosts ≤ nodes
      → (h : ℕ) → h < lock_hosts
      → (s h).i < nodes
      → ((k : ℕ) → k < h → nodes ≤ (s k).i)
      → ready locks_per_node chunk_size lock_hosts nodes first_lock h (s h).i s ≡ true
  host_meets s v enough h lt left before =
      let a = (s h).i in
      let from = v.host_from h lt in
      let most : (s a).i ≤ h = elim (dec_le (s a).i h) [
        | yes le ↦ le
        | no more ↦ absurd (omega (arith, v.gave h a lt from left (omega (arith, more))))
      ] in
      let least : h ≤ (s a).i = elim (dec_le h (s a).i) [
        | yes le ↦ le
        | no less ↦
            let k = (s a).i in
            let k_lt : k < h = omega (arith, less) in
            absurd (
              omega (
                arith,
                v.got k a (omega (arith, k_lt, lt)) from left (omega (arith, before k k_lt, left)),
              ))
      ] in
      ground (arith, most, least, from, left, lt, enough)

  -- How far the distribution is after n messages, and what the nodes without locks of their own
  -- have computed.
  pub handed_lem :
      lock_hosts ≤ nodes
      → {n : ℕ} (s : Handouts) → Handed n s
      → (n ≤ lock_hosts * (nodes - lock_hosts))
        × ((Ended s × (n ≡ lock_hosts * (nodes - lock_hosts)))
            ⊎ ((h a : ℕ) × (ready locks_per_node chunk_size lock_hosts nodes first_lock h a s
                  ≡ true)))
        × ((a : ℕ)
            → lock_hosts ≤ a
            → a < nodes
            → ((s a).i ≤ lock_hosts) × ((s a).remote_locks ≡ locks_of_hosts (s a).i))
  handed_lem enough {n} s r =
      let v = Handed-Agreed enough r in
      let sum = Handed-given enough r in
      let most =
        total-le-mul (λ k. k) lock_hosts (nodes - lock_hosts) (λ h. (s h).i - lock_hosts)
          (λ h lt. omega (arith, v.host_to h lt)) in
      (
        omega (arith, sum, most),
        elim (first_below (λ h. (s h).i) nodes lock_hosts) [
          | inl ended ↦
              let all : (h : ℕ) → h < lock_hosts → (s h).i ≡ nodes =
                λ h lt. omega (arith, ended h lt, v.host_to h lt) in
              let full =
                total-eq-mul (λ k. k) lock_hosts (nodes - lock_hosts) (λ h. (s h).i - lock_hosts)
                  (λ h lt. omega (arith, all h lt)) in
              inl ((all, guests-end s v ended), omega (arith, sum, full))
          | inr (h, lt, left, before) ↦ inr (h, (s h).i, host_meets s v enough h lt left before)
        ],
        λ a ge lt. (v.guest_to a ge lt, v.table a ge),
      )
