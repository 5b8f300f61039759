-- ===== src/Rdma/MemoryPool/Tests.antt =====
-- The theorems on include/rdma/memory_pool.h and include/rdma/pointer.h at concrete nodes, with a
-- device that has each request done at once and its completion after one poll that finds none.
use farlock.Base.{
  ℕ, zero, suc, ◌+◌, ◌^◌, ◌≤◌, ◌<◌, ◌≡◌, ◌≢◌, refl, true, false, [], ◌∷◌, arith, ◌==◌,
  if◌then◌else◌, take, ◌||◌, ltb, get_elem?, some,
}
use farlock.Base.Family.{update}
use farlock.Rdma.Pointer.{Pointer, make, id, address}
use farlock.Rdma.Verbs.{
  SendRequest, Polled, nothing_yet, completed, World, Verbs, arrives_now, arrives_later,
}
use farlock.Rdma.MemoryPool.State.{Target, Node, returns, ◌>>◌, fatal, wait}
use farlock.Rdma.MemoryPool.Requests.{
  is_local, exchange, compare_and_swap, read_word, write_word, write_from, enomem,
}
use farlock.Rdma.MemoryPool.Chunks.{allocate, free, create}
use farlock.Rdma.MemoryPool.Filling.{carve}
use farlock.Rdma.MemoryPool.Owner.{create_lem, allocate-free}
use farlock.Rdma.MemoryPool.Quiet.{Quiet, remote, execute, Ready, advance}
use farlock.Rdma.MemoryPool.Atomics.{Exchanged, exchange_lem, compare_and_swap_lem}
use farlock.Rdma.MemoryPool.Retries.{takes, refuses, posted, write_from_lem}
use farlock.Rdma.MemoryPool.Words.{read_word-write_word}

-- The words of the target and the polls that find nothing.
pub record Device : Type 0 where
  pub words : ℕ → ℕ
  pub empty_polls : ℕ

abbrev effect : SendRequest → World Device → ℕ → World Device
effect wr w empty_polls =
    let new = execute wr (w.memory wr.addr) (w.device.words wr.remote_addr) in
    record {
      memory = update w.memory wr.addr new.0;
      device = record {
        words = update w.device.words wr.remote_addr new.1;
        empty_polls = empty_polls;
      };
    }

abbrev poll : World Device → ℕ → Polled × World Device
poll w zero = (completed true, w)
poll w (suc k) = (nothing_yet, record w { device = record w.device { empty_polls = k } })

abbrev verbs : Verbs Device
verbs = record {
  post_send = λ qp wr w. (0, effect wr w 1);
  post_recv = λ qp wr w. (0, w);
  poll_cq = λ cq w. poll w w.device.empty_polls;
}

abbrev target : Target
target = record { qp = 3; send_cq = 4; recv_cq = 5; rkey = 6 }

quiet : Quiet verbs target 1
quiet = record {
  held = λ d. d.words;
  accepted = λ wr w. effect wr w 1;
  done = λ wr w. effect wr w 0;
  polls = λ wr w. 1;
  accepts = λ wr w signaled size. refl;
  polls-le = λ wr w. omega arith;
  arrives = λ wr w signaled size. arrives_later refl (arrives_now refl);
  mine = λ wr w signaled size. refl;
  theirs = λ wr w signaled size. refl;
}

abbrev buffer_at : ℕ → Pointer
buffer_at a = record { raw = a }

-- Node 0, with two buffers.
abbrev node : Node Device
node = record {
  pool = record {
    free_list = 0;
    local_buffer_pointers = buffer_at 512 ∷ buffer_at 520 ∷ [];
    request_id = 0;
    chunk_size = 64;
    node_id = 0;
    lkey = 9;
    target_map = target ∷ target ∷ [];
    buffer_count = 2;
    buffer_index = 0;
  };
  world = record {
    memory = λ a. 0;
    device = record { words = λ a. if a == 128 then 41 else 0; empty_polls = 0 };
  };
}

-- The word at 128 of node 1.
abbrev remote_word : Pointer
remote_word = record { raw = 2 ^ 48 + 128 }

node-Ready : Ready node.pool remote_word target (buffer_at 512)
unfolding id
node-Ready = record { room = refl; target = refl; slot = refl }

advance-Ready : Ready (advance node).pool remote_word target (buffer_at 520)
unfolding id
advance-Ready = record { room = refl; target = refl; slot = refl }

first_local : is_local (buffer_at 512) node ≡ true
unfolding is_local id
first_local = refl

second_local : is_local (buffer_at 520) (advance node) ≡ true
unfolding is_local id
second_local = refl

exchange_lem_example :
    (n' : Node Device) × (exchange verbs 2 2 remote_word 7 40 node
      ≡ returns (remote quiet node.world (address remote_word), n'))
    × Exchanged verbs target 1 quiet 2 (omega arith) (advance node) n' (address remote_word) 7
exchange_lem_example =
    exchange_lem verbs target 1 quiet 2 (omega arith) node remote_word (buffer_at 512) node-Ready 2
      7 40 (omega arith)

compare_and_swap_lem_example :
    (n' : Node Device) × (compare_and_swap verbs 2 remote_word 41 7 true node
      ≡ returns (remote quiet node.world (address remote_word) == 41, n'))
    × (remote quiet n'.world (address remote_word) ≡ (
        if remote quiet node.world (address remote_word) == 41
        then 7
        else remote quiet node.world (address remote_word)))
    × ((b : ℕ) → b ≢ address remote_word → remote quiet n'.world b ≡ remote quiet node.world b)
compare_and_swap_lem_example =
    compare_and_swap_lem verbs target 1 quiet 2 (omega arith) node remote_word (buffer_at 512)
      node-Ready 41 7 true

read_word-write_word_example :
    (n' n'' : Node Device) × (write_word verbs 2 remote_word 7 true true node ≡ returns (tt, n'))
    × (read_word verbs 2 remote_word true n' ≡ returns (7, n''))
    × ((b : ℕ) → b ≢ address remote_word → remote quiet n'.world b ≡ remote quiet node.world b)
read_word-write_word_example =
    read_word-write_word verbs target 1 quiet 2 (omega arith) remote_word node (buffer_at 512)
      (buffer_at 520) 7 true true node-Ready first_local advance-Ready second_local

-- A queue that refuses a request as long as polls are to find nothing.
abbrev refuse : World Device → ℕ → ℕ × World Device
refuse w zero = (0, w)
refuse w (suc k) = (enomem, record w { device = record w.device { empty_polls = k } })

abbrev full_queue : Verbs Device
full_queue = record {
  post_send = λ qp wr w. refuse w w.device.empty_polls;
  post_recv = λ qp wr w. (0, w);
  poll_cq = λ cq w. (completed true, w);
}

abbrev full_node : Node Device
full_node = record node {
  world = record node.world { device = record node.world.device { empty_polls = 1 } };
}

full_local : is_local (buffer_at 512) full_node ≡ true
unfolding is_local id
full_local = refl

full_target : get_elem? full_node.pool.target_map (id remote_word) ≡ some target
unfolding id
full_target = refl

write_from_lem_example :
    (1 ≤ 1000000
      → write_from full_queue 3 remote_word (buffer_at 512) 8 true false full_node ≡ (
          if ltb 0 1 || false
          then wait full_queue 3 4 (posted full_queue target node.world full_node)
          else returns (tt, posted full_queue target node.world full_node)))
    × (1000000 < 1
        → write_from full_queue 3 remote_word (buffer_at 512) 8 true false full_node ≡ fatal)
write_from_lem_example =
    write_from_lem full_queue target 3 remote_word (buffer_at 512) 8 true false full_node 1
      node.world full_local (omega arith) full_target (refuses refl (takes refl))

-- Two chunks at 1024 and 2048, for 9 buffers of 8 bytes.
abbrev fresh_node : Node Device
fresh_node = record node {
  pool = record node.pool { free_list = 1024; buffer_count = 9; local_buffer_pointers = [] };
  world = record node.world { memory = λ a. if a == 1024 then 2048 else 0 };
}

create_lem_example :
    (n' : Node Device) × (create 9 fresh_node ≡ returns (tt, n'))
    × (n'.pool.local_buffer_pointers ≡ take 9 (carve 8 0 (1024 ∷ 2048 ∷ [])))
    × (n'.pool.buffer_index ≡ 0)
    × (n'.world ≡ fresh_node.world)
create_lem_example =
    create_lem 9 (1024 ∷ 2048 ∷ []) fresh_node (omega arith) (omega arith) (omega arith)
      (omega arith) (refl, omega arith, omega arith, (refl, omega arith, omega arith, refl))
      (omega arith) (omega arith)

allocate-free_example :
    (n' : Node Device) × ((free (make 0 4096) >> allocate) fresh_node ≡ returns (make 0 4096, n'))
    × (n'.pool ≡ fresh_node.pool)
allocate-free_example = allocate-free fresh_node 4096 (omega arith) (omega arith) (omega arith)
