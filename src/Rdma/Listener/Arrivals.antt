-- ===== src/Rdma/Listener/Arrivals.antt =====
-- The connections of include/rdma/listener.h are complete when HandleConnectionRequests ends.
use farlock.Base.{
  ℕ, ◌≤◌, ◌<◌, ◌≡◌, refl, sym, ◌∙◌, Bool, true, false, Option, none, some, List, [], ◌∷◌, All, ◌==◌,
  ◌||◌, ◌⊎◌, inl, inr, if◌then◌else◌, arith, Bool-cases,
}
use farlock.Base.Family.{update, total, total-change, total-ge, total-full, total_weightless}
use farlock.Rdma.Listener.{
  End, accepted, Listener, listening, known, handle_context, handle_round, handle_requests,
}

abbrev weight : Option End → ℕ
weight t = if known t then 1 else 0

weight-le : (t : Option End) → weight t ≤ 1
weight-le none = omega arith
weight-le (some t) = omega arith

-- The count is that of the ids, and each is that of its connection.
record Counts (s : Listener) : Type 0 where
  count : s.connected_clients ≡ total weight s.expected_clients s.clients
  right : (id : ℕ) → (s.clients id ≡ none) ⊎ (s.clients id ≡ some (accepted id))

handle_context-Counts :
    (id : ℕ) (s : Listener) → id < s.expected_clients → Counts s → Counts (handle_context id s)
unfolding handle_context
handle_context-Counts id s below v =
    let change =
      total-change weight s.expected_clients s.clients (update s.clients id (some (accepted id))) id
        below (λ k ne. ground (arith, ne)) in
    record {
      count =
          ground (arith, v.count, change, total-ge weight s.expected_clients s.clients id below);
      right = λ k. ground (arith, v.right k);
    }

-- When all expected clients are counted, every id is known.
complete :
    (s : Listener)
    → Counts s
    → s.connected_clients ≡ s.expected_clients
    → (id : ℕ) → id < s.expected_clients
    → s.clients id ≡ some (accepted id)
complete s v full id below =
    let one =
      total-full weight weight-le s.expected_clients s.clients (sym v.count ∙ full) id below in
    ground (arith, one, v.right id)

-- An id that is among those that arrive in a round, and in some round.
abbrev pub among : ℕ → List ℕ → Bool
among k [] = false
among k (id ∷ ids) = (k == id) || among k ids

abbrev pub arrives : ℕ → List (List ℕ) → Bool
arrives k [] = false
arrives k (ids ∷ rounds) = among k ids || arrives k rounds

record AfterRound (ids : List ℕ) (s s' : Listener) : Type 0 where
  same_expected : s'.expected_clients ≡ s.expected_clients
  counts : Counts s'
  arrived :
      (k : ℕ)
      → (among k ids ≡ true) ⊎ (s.clients k ≡ some (accepted k))
      → s'.clients k ≡ some (accepted k)

handle_round-After :
    (ids : List ℕ) (s : Listener)
    → All (λ id. id < s.expected_clients) ids
    → Counts s
    → AfterRound ids s (handle_round ids s)
unfolding handle_round handle_context
handle_round-After [] s lows v = record {
  same_expected = refl;
  counts = v;
  arrived = λ k p. ground (arith, p);
}
handle_round-After (id ∷ ids) s (low, lows) v =
    let x = handle_round-After ids (handle_context id s) lows (handle_context-Counts id s low v) in
    record {
      same_expected = x.same_expected;
      counts = x.counts;
      arrived = λ k p. x.arrived k (ground (arith, p));
    }

handle_requests-clients :
    (rounds : List (List ℕ)) (s : Listener)
    → All (λ ids. All (λ id. id < s.expected_clients) ids) rounds
    → ((k : ℕ)
        → k < s.expected_clients
        → (arrives k rounds ≡ true) ⊎ (s.clients k ≡ some (accepted k)))
    → Counts s
    → (k : ℕ) → k < s.expected_clients
    → (handle_requests rounds s).clients k ≡ some (accepted k)
unfolding handle_requests
handle_requests-clients [] s lows all v k below = ground (arith, all k below)
handle_requests-clients (ids ∷ rounds) s (low, lows) all v k below =
    elim (Bool-cases (s.connected_clients == s.expected_clients)) [
      | inl full ↦ rw full (complete s v (ground (arith, full)) k below)
      | inr more ↦
          let x = handle_round-After ids s low v in
          rw more (
            handle_requests-clients rounds (handle_round ids s) (rw x.same_expected lows)
              (λ j lower. ground (arith, all j (rw x.same_expected at lower), x.arrived j)) x.counts
              k (rw x.same_expected below))
    ]

pub handle_requests_lem :
    (expected : ℕ) (rounds : List (List ℕ))
    → All (λ ids. All (λ id. id < expected) ids) rounds
    → ((k : ℕ) → k < expected → arrives k rounds ≡ true)
    → (k : ℕ) → k < expected
    → (handle_requests rounds (listening expected)).clients k ≡ some (accepted k)
handle_requests_lem expected rounds lows all k below =
    handle_requests-clients rounds (listening expected) lows (λ j lower. inl (all j lower))
      (record {
        count = sym (total_weightless weight expected (λ id. none) (λ j. refl));
        right = λ id. inl refl;
      })
      k below
