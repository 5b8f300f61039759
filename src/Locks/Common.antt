-- ===== src/Locks/Common.antt =====
-- include/locks/common.h: the constants that every lock shares. A flag word holds `kTrue` or
-- `kFalse` and is compared with `kTrue` only, so it is a `Bool`.
use farlock.Base.{ℕ}

abbrev pub k_local_victim : ℕ
k_local_victim = 1

abbrev pub k_remote_victim : ℕ
k_remote_victim = 2

abbrev pub k_false : ℕ
k_false = 0

abbrev pub k_true : ℕ
k_true = 1
