-- ===== src/Lib.antt =====
-- A model of FARLock, asymmetric locks over RDMA, and of the RDMA layer that they stand on.
--
-- The program. include/rdma gives each node a region of memory that other nodes read, write and
-- change by atomic operations of their network devices: a Pointer names a node and an address, the
-- Manager cuts the region into chunks, and a MemoryPool posts a thread's requests and waits for
-- their completions. include/locks has the locks; a thread takes a lock on its own node by the
-- processor's instructions and one on another node through its MemoryPool. include/benchmark runs
-- the locks and keeps the measured times in a Result.
--
-- Files and code.
--   Base: Boolean tests, lists, words, families by an index and code that may not return, without
--     code of the program.
--   Locks/Common: the constants of include/locks/common.h.
--   Locks/Farlock: include/locks/farlock.h. State has the lock, the descriptors and where each
--     thread stands; Queue has the steps on tails and descriptors, Tickets those on Peterson's
--     flags and the ticket counters, and Program puts them together as local_step (LockLocal and
--     UnlockLocal) and remote_step (LockRemote and UnlockRemote). `run` is a schedule: a list of
--     the threads whose turn it is. Fifo proves the order of each side's queue, Exclusion the
--     exclusion in the draw and the book of tickets; Safety states what follows, Held what IsLocked
--     says, and Owner that it is the abstract lock of Locks/Spec.
--   Locks/FarlockG: include/locks/farlockg.h, in the same way: Batch has the steps by which budget
--     and ticket go through a batch; Fifo is about each side's queue, Exclusion about Peterson's
--     algorithm and the book of tickets, one module for each kind of step and side, and Safety
--     states what follows.
--   Locks/Spec: the abstract lock that the locks implement.
--   Locks/TicketLock: include/locks/rdma_ticket_lock.h, the lock and its steps; Book is about it,
--     and Between about IsLocked.
--   Rdma/Pointer: include/rdma/pointer.h.
--   Rdma/Verbs: the verbs library, a parameter: what a post and a poll give, with the requests as
--     records.
--   Rdma/MemoryPool: include/rdma/memory_pool.h. State has the pool and the outcomes of an
--     operation; Requests has Read, Write, CompareAndSwap, FetchAndAdd, Exchange, Send and Receive,
--     and Chunks the constructor, Allocate and Free. Quiet, Atomics, Words and Retries are about
--     requests, Filling and Owner about chunks.
--   Rdma/Manager: InitMemoryRegion's rounding, InitFreeLists, AllocateShared and FreeShared of
--     include/rdma/manager.h; Manager/Ports is FindActivePort and Manager/Connections is
--     InitMemoryPool, with what Rdma/Listener keeps of the connections (include/rdma/listener.h).
--     Manager/Init is GetTotalFreeHugePageSize, InitMemoryRegion and Init, which puts them together.
--   Rdma/QueuePair: ConnectQp and what it calls, of include/rdma/utils.h; Documented says what the
--     verbs library promises of them, and Connected what ConnectQp makes of a queue pair.
--   Rdma/Connector: the sockets of Connect of include/rdma/connector.h, with its pauses in Backoff.
--   Rdma/Handshake: how Connect of include/rdma/connector.h and HandleConnectionRequests of
--     include/rdma/listener.h make the two ends of a connection.
--   Benchmark/Result: include/benchmark/result.h; Sorted, Fill and Stale are about it.
--   Benchmark/Locks, Exchange and Distribute: AllocateLocalLocks, ExchangeLockTable and the selective
--     distribution of include/benchmark/benchmark.h, the last two on all nodes at once: Exchange.pass
--     and Distribute.hand_out are the messages between two nodes, and in each the module Agree sets
--     the tables that a node computes beside the locks that the other nodes have allocated.
--   Benchmark/Run: the loop of a thread of Run; Measured is about one thread, Reported about Run and
--     then TallyResults on all nodes.
--   Benchmark/Tally: TallyResults, with the loops of Benchmark/Loops: what a node sends to node 0 is a
--     list of words, which node 0 receives. Receive, Node, Kept and Throughput are about parts of it,
--     Collect about the whole, and Alike about nodes that have measured the same.
--
-- What is assumed. In Locks/Farlock every access to 8 bytes of shared memory is one step and steps
-- interleave; a request for 16 bytes is two of them, a remote fetch-and-add on the ticket counter
-- is a read and a write of its own, and Exchange is one compare-and-swap a step. IsLocked reads two
-- words of a lock, each in a state of its own. There is one lock,
-- each thread has one descriptor, and the threads are numbered; statements that count tickets, which
-- wrap at 2 ^ 64, are for at most 2 ^ 64 threads. In Locks/FarlockG the first budgets are from 1 to
-- below 2 ^ 64 - 1, which is the mark for no budget, and all threads of a side have the same one; a
-- schedule is shorter than 2 ^ 64 - 1 steps, so that no ticket wraps. The 16 bytes of batch_ticket_
-- and budget_ are written in this order. The verbs library is a parameter: the statements on
-- completed requests assume a device that executes each request alone on another node (Quiet), and
-- the one on a full queue assumes its refusals (Refuses). In Rdma/Manager/Ports the answers to its
-- queries are a parameter too. In Rdma/Listener a connection is known by its id and by the side that
-- made it. In Rdma/Manager/Init the answers of the system are a parameter. In Rdma/Handshake a socket
-- delivers a ConnectionContext whole, and the devices do what Rdma/QueuePair/Documented says. In
-- Benchmark a Send between two nodes ends when the other node receives, and the words from a node
-- arrive in their order; the random generator and the clock are parameters.
--
-- Fuel. The loop on ibv_poll_cq takes a bound on its polls, Exchange one on its rounds, and the
-- constructor of MemoryPool one on its chunks; the statements say how much is enough. A loop on
-- shared memory that waits for another thread is a step that leaves the thread where it is.
--
-- Numbers. Those of the source wrap or overflow where they do there: an index of the constructor of
-- MemoryPool that passes the greatest int ends the program, and InitFreeLists counts the shared
-- chunks in 32 bits and gives nothing where it would divide by 0.
--
-- What is not modelled: the system's calls on sockets in include/rdma/connector.h and
-- include/rdma/listener.h, the benchmark's timers, its reading of the configuration and of the
-- command line and its printing, floating-point statistics, logging, and the libraries and locks of
-- other projects under include/third_party.
pub mod Base
pub mod Benchmark
pub mod Locks
pub mod Rdma
