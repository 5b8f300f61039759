-- ===== src/Locks/Farlock/Owner.antt =====
-- include/locks/farlock.h implements the lock of Locks/Spec.
use farlock.Base.{
  ℕ, ◌≤◌, ◌<◌, ◌≡◌, ◌≢◌, refl, ap, Bool, true, false, Option, none, List, [], ◌∷◌, All, arith, word,
}
use farlock.Locks.Spec.{Owns, Follows, lock_step}
use farlock.Locks.Farlock.State.{Side, local, remote, Pc, holding, System, init}
use farlock.Locks.Farlock.Queue.{
  reset, exchange_tail, exchange_round, store_next, load_ticket, store_releasable,
  test_to_get_ticket, store_ticket, test_next, store_to_get_ticket, test_granted, test_unlink,
  swap_tail, test_releasable, store_granted,
}
use farlock.Locks.Farlock.Tickets.{
  raise_local, victim_local, test_remote_flag, test_local_victim, lower_local, raise_remote,
  victim_remote, load_victim, test_local_flag, lower_remote, fetch_add_ticket, fetch_ticket,
  add_ticket, test_turn, advance_local, advance_remote,
}
use farlock.Locks.Farlock.Program.{local_step, remote_step, side_step, step, run}
use farlock.Locks.Farlock.Exclusion.Safe.{IsSafe, step-IsSafe, run-IsSafe, init-IsSafe}

-- Between the return of Lock and the first write of Unlock.
abbrev pub holds_lock : Pc → Bool
holds_lock holding = true
holds_lock _ = false

abbrev pub holders : System → ℕ → Bool
holders s i = holds_lock (s.thr i).pc

module _ (s : System) (i k : ℕ) (other : k ≢ i) where
  local_others : (p : Pc) → (s.thr i).pc ≡ p → (local_step p i s).thr k ≡ s.thr k
  unfolding local_step reset exchange_tail store_next load_ticket store_releasable
      test_to_get_ticket store_ticket test_next store_to_get_ticket test_granted test_unlink
      swap_tail test_releasable store_granted raise_local victim_local test_remote_flag
      test_local_victim lower_local fetch_add_ticket test_turn advance_local
  local_others p e = ground arith

  remote_others : (p : Pc) → (s.thr i).pc ≡ p → (remote_step p i s).thr k ≡ s.thr k
  unfolding remote_step reset exchange_round store_next load_ticket store_releasable
      test_to_get_ticket store_ticket test_next store_to_get_ticket test_granted test_unlink
      swap_tail test_releasable store_granted raise_remote victim_remote load_victim test_local_flag
      lower_remote fetch_ticket add_ticket test_turn advance_remote
  remote_others p e = ground arith

  step_others : (σ : Side) → (side_step σ (s.thr i).pc i s).thr k ≡ s.thr k
  unfolding side_step
  step_others local = local_others (s.thr i).pc refl
  step_others remote = remote_others (s.thr i).pc refl

module _ (side : ℕ → Side) {n : ℕ} (few : n ≤ word) where
  alone :
      {s : System} → IsSafe side n s → (i j : ℕ) → holders s i ≡ true → holders s j ≡ true → i ≡ j
  alone z i j in_i in_j = ground (arith, z.booked.turn i, z.booked.turn j, z.booked.distinct i j)

  owner_step :
      (i : ℕ) (s : System)
      → i < n
      → IsSafe side n s
      → (o : Option ℕ) → Owns (holders s) o
      → Follows (holders (step side i s)) o
  unfolding step
  owner_step i s lt z o owner =
      lock_step (holders s) (holders (step side i s)) i
        (λ k ne. ap (λ t. holds_lock t.pc) (step_others s i k ne (side i)))
        (alone (step-IsSafe side few i s lt z)) o owner

  owner_run :
      (is : List ℕ) (s : System)
      → All (λ i. i < n) is
      → IsSafe side n s
      → (o : Option ℕ) → Owns (holders s) o
      → (o' : Option ℕ) × Owns (holders (run side is s)) o'
  unfolding run
  owner_run [] s lts z o owner = (o, owner)
  owner_run (i ∷ is) s (lt, lts) z o owner =
      let (o', owner', _) = owner_step i s lt z o owner in
      owner_run is (step side i s) lts (step-IsSafe side few i s lt z) o' owner'

  -- In every state of one FARLock that up to 2 ^ 64 threads of both sides reach in any order of
  -- their steps, there is an owner or none of the abstract lock, namely the thread between the
  -- return of Lock and the first write of Unlock, and each step of each of these threads is a step
  -- of the abstract lock or leaves it: a free lock is acquired, or its owner releases it.
  pub owner_refinement :
      (is : List ℕ)
      → All (λ i. i < n) is
      → (o : Option ℕ) × Owns (holders (run side is init)) o
        × ((i : ℕ) → i < n → Follows (holders (step side i (run side is init))) o)
  unfolding Owns
  owner_refinement is ids =
      let safe = run-IsSafe side few is init ids (init-IsSafe side n) in
      let (o, owner) = owner_run is init ids (init-IsSafe side n) none (λ i. refl) in
      (o, owner, λ i lt. owner_step i (run side is init) lt safe o owner)
