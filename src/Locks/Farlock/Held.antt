-- ===== src/Locks/Farlock/Held.antt =====
-- What IsLocked of include/locks/farlock.h says of the threads in the queues. It reads the two tails
-- one after the other, and the other threads take steps between.
use farlock.Base.{
  ℕ, ◌≤◌, ◌<◌, ◌≡◌, ◌≢◌, ◌⊎◌, sym, ap, ◌∙◌, true, false, none, some, List, All, arith, word,
  ℕ_discrete, Option-cases, inl, inr,
}
use farlock.Locks.Farlock.State.{Side, local, remote, System}
use farlock.Locks.Farlock.Queue.{tail}
use farlock.Locks.Farlock.Program.{tail_word, is_locked}
use farlock.Locks.Farlock.Safety.{queued, reached, side_line}

local-ne-remote : local ≢ remote
local-ne-remote e = absurd cc

true-ne-false : true ≢ false
true-ne-false e = absurd cc

-- Some thread of a side is queued.
abbrev pub Queues : (ℕ → Side) → Side → System → Type 0
Queues side σ s = (i : ℕ) × (side i ≡ σ) × (queued (s.thr i).pc ≡ true)

module _ (side : ℕ → Side) (n : ℕ) (few : n ≤ word) where
  module _ (is : List ℕ) (ids : All (λ i. i < n) is) where
    abbrev s : System
    s = reached side n few is ids

    -- No thread of a side is queued whose tail is null.
    none_queued :
        (σ : Side) (i : ℕ) → tail σ s.lock ≡ none → side i ≡ σ → queued (s.thr i).pc ≡ false
    none_queued σ i empty of_side =
        let (g, v) = side_line side n few is ids σ in
        ground (arith, v.order, v.tail_none empty, v.stage i of_side)

    some_queued : (σ : Side) (j : ℕ) → tail σ s.lock ≡ some j → Queues side σ s
    some_queued σ j at =
        let (g, v) = side_line side n few is ids σ in
        let t = v.tail_some j at in (j, t.0, ground (arith, t))

    tail-side : (σ : Side) (j : ℕ) → tail σ s.lock ≡ some j → side j ≡ σ
    tail-side σ j at = let (g, v) = side_line side n few is ids σ in (v.tail_some j at).0

  module _ (address : ℕ → ℕ) (nonnull : (i : ℕ) → address i ≢ 0)
      (apart : (i j : ℕ) → address i ≡ address j → i ≡ j) (is js : List ℕ)
      (ids : All (λ i. i < n) is) (jds : All (λ i. i < n) js) where
    -- The states that the read of remote_tail and the read of local_tail find.
    abbrev at_remote : System
    at_remote = reached side n few is ids

    abbrev at_local : System
    at_local = reached side n few js jds

    differ :
        (k : ℕ)
        → at_remote.lock.remote_tail ≡ some k
        → is_locked address at_remote.lock at_local.lock ≡ true
    unfolding is_locked tail_word
    differ k far = elim (Option-cases at_local.lock.local_tail) [
      | inl no_local ↦ rw (far, no_local) (let other = nonnull k in ground arith)
      | inr (j, at) ↦
          let one = tail-side is ids remote k far in
          let two = tail-side js jds local j at in
          rw (far, at)
            (elim (ℕ_discrete (address k) (address j)) [
              | yes same ↦ absurd (local-ne-remote (sym two ∙ ap side (sym (apart k j same)) ∙ one))
              | no other ↦ ground arith
            ])
    ]

    -- For up to 2 ^ 64 threads of one FARLock, with descriptors at distinct addresses that are not
    -- null, and any two reached states, one that the read of remote_tail finds and one that the
    -- read of local_tail finds, IsLocked is false only if no thread of the remote side is in a
    -- queue in the first and none of the local side in the second, and true only if one is.
    pub is_locked_lem :
        (is_locked address at_remote.lock at_local.lock ≡ false
          → (i : ℕ)
          → (side i ≡ remote → queued (at_remote.thr i).pc ≡ false)
            × (side i ≡ local → queued (at_local.thr i).pc ≡ false))
        × (is_locked address at_remote.lock at_local.lock ≡ true
            → Queues side remote at_remote ⊎ Queues side local at_local)
    unfolding is_locked tail_word
    is_locked_lem = elim (Option-cases at_remote.lock.remote_tail) [
      | inl no_remote ↦ elim (Option-cases at_local.lock.local_tail) [
        | inl no_local ↦ (
          λ free i. (
            λ of_side. none_queued is ids remote i no_remote of_side,
            λ of_side. none_queued js jds local i no_local of_side,
          ),
          λ held. let wrong = rw (no_remote, no_local) at held in absurd (ground arith),
        )
        | inr (j, at) ↦ (
          λ free.
              let wrong = rw (no_remote, at) at free in
              let other = nonnull j in absurd (ground arith),
          λ held. inr (some_queued js jds local j at),
        )
      ]
      | inr (k, far) ↦ (
        λ free. absurd (true-ne-false (sym (differ k far) ∙ free)),
        λ held. inl (some_queued is ids remote k far),
      )
    ]
