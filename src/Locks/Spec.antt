-- ===== src/Locks/Spec.antt =====
-- What the locks of include/locks promise: a lock has an owner or none, a thread acquires it when it
-- is free, and only the owner releases it.
use farlock.Base.{
  ℕ, ◌≡◌, ◌≢◌, sym, ◌∙◌, Bool, true, false, Option, none, some, inl, inr, ℕ_discrete, Bool-cases,
}

pub data LockStep : Option ℕ → Option ℕ → Type 0 where
  stay : {o : Option ℕ} → LockStep o o
  acquire : (i : ℕ) → LockStep none (some i)
  release : (i : ℕ) → LockStep (some i) none

-- The owner by which threads are inside.
unfoldable pub Owns : (ℕ → Bool) → Option ℕ → Type 0
Owns inside none = (i : ℕ) → inside i ≡ false
Owns inside (some i) = (inside i ≡ true) × ((j : ℕ) → inside j ≡ true → j ≡ i)

-- A state follows another by a step of the specification.
abbrev pub Follows : (ℕ → Bool) → Option ℕ → Type 0
Follows inside o = (o' : Option ℕ) × Owns inside o' × LockStep o o'

module _ (before after : ℕ → Bool) (i : ℕ) (others : (k : ℕ) → k ≢ i → after k ≡ before k)
    (alone : (a b : ℕ) → after a ≡ true → after b ≡ true → a ≡ b) where
  entered : after i ≡ true → (o : Option ℕ) → Owns before o → Follows after o
  unfolding Owns
  entered now none owner = (some i, (now, λ j q. alone j i q now), acquire i)
  entered now (some j) owner = elim (ℕ_discrete j i) [
    | yes same ↦ (some j, (rw same now, λ k q. alone k j q (rw same now)), stay)
    | no ne ↦ absurd (ne (alone j i (others j ne ∙ owner.0) now))
  ]

  left : after i ≡ false → (o : Option ℕ) → Owns before o → Follows after o
  unfolding Owns
  left now none owner = (none, all, stay)
    where
      all : (k : ℕ) → after k ≡ false
      all k = elim (ℕ_discrete k i) [ yes same ↦ rw same now | no ne ↦ others k ne ∙ owner k ]
  left now (some j) owner = elim (ℕ_discrete j i) [
    | yes same ↦ (none, gone same, rw same (release i))
    | no ne ↦ (some j, (others j ne ∙ owner.0, λ k q. alone k j q (others j ne ∙ owner.0)), stay)
  ]
    where
      gone : j ≡ i → (k : ℕ) → after k ≡ false
      gone same k = elim (Bool-cases (after k)) [
        | inr out ↦ out
        | inl q ↦ elim (ℕ_discrete k i) [
          | yes it ↦ rw it now
          | no ne ↦ absurd (ne (owner.1 k (sym (others k ne) ∙ q) ∙ same))
        ]
      ]

  -- A step of thread `i` alone, after which at most one thread is inside, is a step of the
  -- specification.
  pub lock_step : (o : Option ℕ) → Owns before o → Follows after o
  lock_step o owner = elim (Bool-cases (after i)) [
    | inl now ↦ entered now o owner
    | inr now ↦ left now o owner
  ]
