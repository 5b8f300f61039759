-- ===== src/Locks/TicketLock/Tests.antt =====
-- A run of include/locks/rdma_ticket_lock.h in which thread 0 holds the lock and thread 1 waits, and
-- the theorems at the state that it reaches.
use farlock.Base.{
  ℕ, ◌+◌, ◌-◌, ◌%◌, ◌<◌, ◌≡◌, ◌≢◌, ◌⊎◌, refl, true, false, word, List, [], ◌∷◌, arith, ℕ_discrete,
}
use farlock.Locks.TicketLock.{
  inside, waiting, outside, init, take_ticket, read_turn, unlock, step_at, step, run, is_locked,
}
use farlock.Locks.TicketLock.Book.{inside_alone, waiting-lt, turn_taken}
use farlock.Locks.TicketLock.Between.{Stays, is_locked_held}

abbrev one_waits : List ℕ
one_waits = 1 ∷ 0 ∷ 0 ∷ []

first_inside : ((run one_waits init).thr 0).place ≡ inside
unfolding run step_at take_ticket read_turn unlock ℕ_discrete
first_inside = refl

second_waiting : ((run one_waits init).thr 1).place ≡ waiting
unfolding run step_at take_ticket read_turn unlock ℕ_discrete
second_waiting = refl

inside_alone_example : ◌≡◌ {A = ℕ} 0 0
inside_alone_example =
    inside_alone 2 (omega arith) one_waits (omega arith) 0 0 first_inside first_inside

waiting-lt_example :
    (((run one_waits init).thr 1).my_ticket + word - (run one_waits init).turn) % word < 2
waiting-lt_example = waiting-lt 2 (omega arith) one_waits (omega arith) 1 second_waiting

-- A schedule in which thread 0 leaves, and one that leaves no thread in.
abbrev first_leaves : List ℕ
first_leaves = 0 ∷ []

abbrev all_left : List ℕ
all_left = 0 ∷ 0 ∷ 0 ∷ []

second-Stays : Stays 1 first_leaves (run one_waits init)
unfolding run step_at take_ticket read_turn unlock ℕ_discrete
second-Stays = (λ e. absurd cc, λ e. absurd cc)

none_left : (j : ℕ) → ((run all_left init).thr j).place ≡ outside
unfolding run step_at take_ticket read_turn unlock
none_left j = ground arith

is_locked_held_example :
    (is_locked (run one_waits init) (run first_leaves (run one_waits init)) ≡ true)
    × (is_locked (run first_leaves (run one_waits init)) (run one_waits init) ≡ true)
    × (is_locked (run all_left init) (run all_left init) ≡ false)
is_locked_held_example =
    is_locked_held 2 (omega arith) one_waits first_leaves all_left (omega arith) (omega arith)
      (omega arith) 1 second-Stays none_left

second_present : ((run one_waits init).thr 1).place ≢ outside
unfolding run step_at take_ticket read_turn unlock ℕ_discrete
second_present e = absurd cc

turn_taken_example :
    (j : ℕ) × ((((run one_waits init).thr j).place ≡ inside)
      ⊎ (((step j (run one_waits init)).thr j).place ≡ inside))
turn_taken_example = turn_taken 2 (omega arith) one_waits (omega arith) 1 second_present
