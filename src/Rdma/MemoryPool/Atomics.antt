-- ===== src/Rdma/MemoryPool/Atomics.antt =====
-- CompareAndSwap, FetchAndAdd and Exchange of include/rdma/memory_pool.h on a quiet device.
use farlock.Base.{
  ℕ, zero, suc, ◌+◌, ◌%◌, ◌≤◌, ◌<◌, ◌≡◌, ◌≢◌, refl, ap, ◌∙◌, Bool, true, word, ◌==◌, if◌then◌else◌,
  arith, ==_refl, Bool-cases, inl, inr,
}
use farlock.Base.Family.{update-other}
use farlock.Rdma.Pointer.{Pointer, address}
use farlock.Rdma.Verbs.{atomic_cmp_and_swp, SendRequest, Verbs}
use farlock.Rdma.MemoryPool.State.{Target, Node, returns, ◌>>=◌}
use farlock.Rdma.MemoryPool.Requests.{
  word_size, compare_and_swap, fetch_and_add, exchange_loop, exchange,
}
use farlock.Rdma.MemoryPool.Quiet.{
  execute, Quiet, remote, Ready, advance, prepared, prepare_lem, complete_lem, swap_request,
  add_request, compare_and_swap_run, fetch_and_add_run, old_value, new_value,
}

module _ {D : Type 0} (v : Verbs D) (t : Target) (delay : ℕ) (q : Quiet v t delay) (fuel : ℕ)
    (enough : delay < fuel) where
  old_word :
      (wr : SendRequest) (n : Node D)
      → wr.signaled ≡ true
      → wr.length ≡ word_size
      → wr.opcode ≡ atomic_cmp_and_swp
      → (q.done wr n.world).memory wr.addr ≡ remote q n.world wr.remote_addr
  old_word wr n signaled size op = old_value q wr n.world signaled size ∙ rw (op, execute) refl

  swapped_word :
      (wr : SendRequest) (n : Node D)
      → wr.signaled ≡ true
      → wr.length ≡ word_size
      → wr.opcode ≡ atomic_cmp_and_swp
      → remote q (q.done wr n.world) wr.remote_addr ≡ (
          if remote q n.world wr.remote_addr == wr.compare_add
          then wr.swap
          else remote q n.world wr.remote_addr)
  swapped_word wr n signaled size op = new_value q wr n.world signaled size ∙ rw (op, execute) refl

  -- One round of Exchange.
  round :
      (rounds : ℕ) (wr : SendRequest) (n : Node D)
      → wr.signaled ≡ true
      → wr.length ≡ word_size
      → wr.opcode ≡ atomic_cmp_and_swp
      → exchange_loop v (suc rounds) fuel t wr n ≡ (
          let old = remote q n.world wr.remote_addr in
          let n' = record n { world = q.done wr n.world } in
          if old == wr.compare_add
          then returns (old, n')
          else exchange_loop v rounds fuel t (record wr { compare_add = old }) n')
  unfolding exchange_loop
  round rounds wr n signaled size op =
      rw (complete_lem v t delay q fuel wr n enough signaled size, exchange_loop)
        (ap
          (λ x.
            if x == wr.compare_add
            then returns (x, record n { world = q.done wr n.world })
            else exchange_loop v rounds fuel t (record wr { compare_add = x })
                (record n { world = q.done wr n.world }))
          (old_word wr n signaled size op))

  other_words :
      (wr : SendRequest) (n : Node D)
      → wr.signaled ≡ true
      → wr.length ≡ word_size
      → (b : ℕ) → b ≢ wr.remote_addr
      → remote q (q.done wr n.world) b ≡ remote q n.world b
  other_words wr n signaled size b apart =
      ap (λ m. m b) (q.theirs wr n.world signaled size)
      ∙ update-other (remote q n.world) wr.remote_addr _ b apart

  -- The node after an exchange of a word of the target.
  abbrev pub Exchanged : Node D → Node D → ℕ → ℕ → Type 0
  Exchanged n n' a desired =
      (remote q n'.world a ≡ desired)
      × ((b : ℕ) → b ≢ a → remote q n'.world b ≡ remote q n.world b)
      × (n'.pool ≡ n.pool)

  last_round :
      (rounds : ℕ) (wr : SendRequest) (n : Node D)
      → wr.signaled ≡ true
      → wr.length ≡ word_size
      → wr.opcode ≡ atomic_cmp_and_swp
      → (remote q n.world wr.remote_addr == wr.compare_add) ≡ true
      → (n' : Node D) × (exchange_loop v (suc rounds) fuel t wr n
          ≡ returns (remote q n.world wr.remote_addr, n'))
        × Exchanged n n' wr.remote_addr wr.swap
  last_round rounds wr n signaled size op same = (
    record n { world = q.done wr n.world },
    round rounds wr n signaled size op ∙ rw same refl,
    (swapped_word wr n signaled size op ∙ rw same refl, other_words wr n signaled size, refl),
  )

  -- Two rounds are enough: the second has the right comparand.
  two_rounds :
      (rounds : ℕ) (wr : SendRequest) (n : Node D)
      → wr.signaled ≡ true
      → wr.length ≡ word_size
      → wr.opcode ≡ atomic_cmp_and_swp
      → (n' : Node D) × (exchange_loop v (suc (suc rounds)) fuel t wr n
          ≡ returns (remote q n.world wr.remote_addr, n'))
        × Exchanged n n' wr.remote_addr wr.swap
  two_rounds rounds wr n signaled size op =
      elim (Bool-cases (remote q n.world wr.remote_addr == wr.compare_add)) [
        | inl same ↦ last_round (suc rounds) wr n signaled size op same
        | inr other ↦
            let old = remote q n.world wr.remote_addr in
            let n1 = record n { world = q.done wr n.world } in
            let kept : remote q n1.world wr.remote_addr ≡ old =
              swapped_word wr n signaled size op ∙ rw other refl in
            let again = record wr { compare_add = old } in
            let (n', runs, (put, others, pool)) =
              last_round rounds again n1 signaled size op (rw kept (==_refl old)) in
            (
              n',
              round (suc rounds) wr n signaled size op
                  ∙ rw other (runs ∙ ap (λ x. returns (x, n')) kept),
              (put, λ b apart. others b apart ∙ other_words wr n signaled size b apart, pool),
            )
      ]

  module _ (n : Node D) (p : Pointer) (buffer : Pointer) (ready : Ready n.pool p t buffer) where
    -- On a device that executes each request alone on a target of another node, Exchange returns
    -- after at most two rounds, whatever its hint, with the word that the target had; the target
    -- then has the desired word there and no other change, and of the pool only the buffer index
    -- and the request id have moved.
    pub exchange_lem :
        (rounds desired hint : ℕ)
        → 2 ≤ rounds
        → (n' : Node D) × (exchange v rounds fuel p desired hint n
            ≡ returns (remote q n.world (address p), n'))
          × Exchanged (advance n) n' (address p) desired
    unfolding exchange
    exchange_lem zero desired hint two = absurd (omega arith)
    exchange_lem (suc zero) desired hint two = absurd (omega arith)
    exchange_lem (suc (suc rounds)) desired hint two =
        rw (prepare_lem n p t buffer atomic_cmp_and_swp true ready, exchange, ◌>>=◌)
          (two_rounds rounds
            (record (prepared n p t buffer atomic_cmp_and_swp true) {
              compare_add = hint;
              swap = desired;
            })
            (advance n) refl refl refl)

    -- On a device that executes each request alone on a target of another node, CompareAndSwap
    -- returns if the target had the expected word, and puts the desired word there just then, with
    -- no other change of the target.
    pub compare_and_swap_lem :
        (expected desired : ℕ) (fence : Bool)
        → (n' : Node D) × (compare_and_swap v fuel p expected desired fence n
            ≡ returns (remote q n.world (address p) == expected, n'))
          × (remote q n'.world (address p) ≡ (
              if remote q n.world (address p) == expected
              then desired
              else remote q n.world (address p)))
          × ((b : ℕ) → b ≢ address p → remote q n'.world b ≡ remote q n.world b)
    compare_and_swap_lem expected desired fence =
        let wr = swap_request v t delay q fuel enough n p buffer ready expected desired fence in
        (
          _,
          compare_and_swap_run v t delay q fuel enough n p buffer ready expected desired fence,
          new_value q wr n.world refl refl,
          other_words wr n refl refl,
        )

    -- On a device that executes each request alone on a target of another node, FetchAndAdd
    -- returns the word that the target had, to which it adds in 64 bits, with no other change of
    -- the target.
    pub fetch_and_add_lem :
        (add : ℕ) (fence : Bool)
        → (n' : Node D) × (fetch_and_add v fuel p add fence n
            ≡ returns (remote q n.world (address p), n'))
          × (remote q n'.world (address p) ≡ (remote q n.world (address p) + add) % word)
          × ((b : ℕ) → b ≢ address p → remote q n'.world b ≡ remote q n.world b)
    fetch_and_add_lem add fence =
        let wr = add_request v t delay q fuel enough n p buffer ready add fence in
        (
          _,
          fetch_and_add_run v t delay q fuel enough n p buffer ready add fence,
          new_value q wr n.world refl refl,
          other_words wr n refl refl,
        )
