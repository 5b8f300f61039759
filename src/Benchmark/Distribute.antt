-- ===== src/Benchmark/Distribute.antt =====
-- The selective distribution of Benchmark's constructor in include/benchmark/benchmark.h on all nodes
-- at once: the nodes below `lock_hosts` send their first lock to each of the others. A Send ends when
-- the other node receives, so that a message is one step of two nodes.
pub mod Progress
pub mod Agree
mod Tests
use farlock.Base.{ℕ, ◌+◌, Bool, ◌&&◌, ltb, leb, ◌==◌, List, [], ◌++◌, if◌then◌else◌}
use farlock.Base.Family.{update}
use farlock.Rdma.Pointer.{Pointer}
use farlock.Benchmark.Exchange.{locks_from}

-- A node's loop: the other node, and `remote_locks_`.
pub record Handout : Type 0 where
  pub i : ℕ
  pub remote_locks : List Pointer

abbrev pub Handouts : Type 0
Handouts = ℕ → Handout

module _ (locks_per_node chunk_size lock_hosts nodes : ℕ) (first_lock : ℕ → ℕ) where
  abbrev pub is_host : ℕ → Bool
  is_host a = ltb a lock_hosts

  abbrev pub begun : Handouts
  begun a = record { i = if is_host a then lock_hosts else 0; remote_locks = [] }

  -- Host `h` is about to send to `a`, and `a` to receive from `h`.
  abbrev pub ready : ℕ → ℕ → Handouts → Bool
  ready h a s =
      (is_host h && (ltb h nodes && (leb lock_hosts a && ltb a nodes)))
      && (((s h).i == a) && ((s a).i == h))

  abbrev pub sent : Handout → Handout
  sent s = record s { i = s.i + 1 }

  abbrev pub received : ℕ → Handout → Handout
  received lock s = record {
    i = s.i + 1;
    remote_locks = s.remote_locks ++ locks_from chunk_size locks_per_node 0 lock;
  }

  unfoldable pub hand_out : ℕ → ℕ → Handouts → Handouts
  hand_out h a s = update (update s h (sent (s h))) a (received (first_lock h) (s a))
