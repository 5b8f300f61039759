-- ===== src/Benchmark/Locks.antt =====
-- AllocateLocalLocks of include/benchmark/benchmark.h.
pub mod Shared
use farlock.Base.{
  ℕ, zero, suc, ◌+◌, Option, none, some, List, [], ◌∷◌, leb, ltb, ◌&&◌, ◌==◌, if◌then◌else◌,
}
use farlock.Rdma.Pointer.{Pointer, address}
use farlock.Rdma.Manager.{Manager, allocate_shared}

-- memset to 0.
abbrev pub clear : ℕ → ℕ → (ℕ → ℕ) → ℕ → ℕ
clear from size memory x = if leb from x && ltb x (from + size) then 0 else memory x

abbrev pub push_back : Pointer → Option (List Pointer × Manager) → Option (List Pointer × Manager)
push_back lock none = none
push_back lock (some (locks, done)) = some (lock ∷ locks, done)

-- None is a write through a null pointer: the shared list was empty.
unfoldable pub allocate_local_locks : ℕ → ℕ → Manager → Option (List Pointer × Manager)
allocate_local_locks zero chunk_size m = some ([], m)
allocate_local_locks (suc n) chunk_size m =
    let (lock, taken) = allocate_shared m in
    let rest =
      allocate_local_locks n chunk_size
        (record taken { memory = clear (address lock) chunk_size taken.memory }) in
    if address lock == 0 then none else push_back lock rest
