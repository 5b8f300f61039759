-- ===== src/Rdma/Manager/Init/Parts.antt =====
-- The numbers by which include/rdma/manager.h cuts a region into chunks and chunks into lists.
use native.Mathlib.Nat.{
  div-mul-le_self, le-div_iff_mul-le, pow-le-pow_right, mul-le-mul_right, add-mul, mul_assoc,
  mul_comm,
}
use farlock.Base.{
  ℕ, zero, suc, ◌+◌, ◌-◌, ◌*◌, ◌/◌, ◌%◌, ◌^◌, ◌≤◌, ◌<◌, ◌≡◌, sym, ap, ◌∙◌, word, arith, dec_lt,
}

-- Lists of a chunk number's shared part and of equal parts for the pools fit the chunks that there
-- are.
pub parts-le :
    (n u pools size : ℕ)
    → u < n
    → 0 < pools
    → pools ≤ u
    → suc (n - u - 1) * size + pools * (suc (u / pools - 1) * size) ≤ n * size
parts-le n u pools size less some_pools enough =
    let shared : suc (n - u - 1) ≡ n - u = omega (arith, less) in
    let some_each : 0 < u / pools =
      (le-div_iff_mul-le {k = pools} {x = 1} {y = u} some_pools).1 (omega (arith, enough)) in
    let each : suc (u / pools - 1) ≡ u / pools = omega (arith, some_each) in
    let back = mul-le-mul_right {m = u / pools * pools} {n = u} size (div-mul-le_self u pools) in
    let assoc : pools * (u / pools * size) ≡ u / pools * pools * size =
      sym (mul_assoc pools (u / pools) size) ∙ ap (λ x. x * size) (mul_comm pools (u / pools)) in
    let all : n - u + u ≡ n = omega (arith, less) in
    let sum = add-mul (n - u) u size in
    let whole : (n - u) * size + u * size ≡ n * size = sym sum ∙ ap (λ x. x * size) all in
    rw (shared, each) (omega (arith, back, assoc, whole))

-- A power of two from 64 to 4096 divides a region of whole megabytes, into fewer than 2 ^ 32 chunks.
abbrev Divides : ℕ → ℕ → Type 0
Divides mb size =
    (mb * 1024 * 1024 % word % size ≡ 0)
    × (mb * 256 ≤ mb * 1024 * 1024 % word / size)
    × (mb * 1024 * 1024 % word / size < 2 ^ 32)

Divides-power : (mb m : ℕ) → mb < 2 ^ 18 → m ≤ 6 → Divides mb (2 ^ (m + 6))
Divides-power mb zero few high = (omega arith, omega arith, omega arith)
Divides-power mb (suc zero) few high = (omega arith, omega arith, omega arith)
Divides-power mb (suc (suc zero)) few high = (omega arith, omega arith, omega arith)
Divides-power mb (suc (suc (suc zero))) few high = (omega arith, omega arith, omega arith)
Divides-power mb (suc (suc (suc (suc zero)))) few high = (omega arith, omega arith, omega arith)
Divides-power mb (suc (suc (suc (suc (suc zero))))) few high =
    (omega arith, omega arith, omega arith)
Divides-power mb (suc (suc (suc (suc (suc (suc zero)))))) few high =
    (omega arith, omega arith, omega arith)
Divides-power mb (suc (suc (suc (suc (suc (suc (suc m))))))) few high = absurd (omega arith)

pub Divides-size :
    (mb size k : ℕ) → mb < 2 ^ 18 → size ≡ 2 ^ k → 64 ≤ size → size ≤ 4096 → Divides mb size
Divides-size mb size k few at low high =
    let least : 6 ≤ k = elim (dec_lt k 6) [
      | yes less ↦ absurd (
          omega (
            arith,
            at,
            low,
            pow-le-pow_right {n = 2} (omega arith) {i = k} {j = 5} (omega (arith, less)),
          ))
      | no all ↦ omega (arith, all)
    ] in
    let most : k ≤ 12 = elim (dec_lt 12 k) [
      | yes more ↦ absurd (
          omega (
            arith,
            at,
            high,
            pow-le-pow_right {n = 2} (omega arith) {i = 13} {j = k} (omega (arith, more)),
          ))
      | no all ↦ omega (arith, all)
    ] in
    let exponent : k - 6 + 6 ≡ k = omega (arith, least) in
    rw (at, sym exponent) (Divides-power mb (k - 6) few (omega (arith, most)))
