-- ===== src/Rdma/Manager/ChunkSize.antt =====
-- How InitMemoryRegion of include/rdma/manager.h rounds the chunk size of the configuration.
use farlock.Base.{
  ℕ, zero, suc, ◌+◌, ◌-◌, ◌*◌, ◌/◌, ◌%◌, ◌^◌, ◌≤◌, ◌<◌, ◌≡◌, refl, false, some, ltb, leb, ◌==◌,
  word, arith, Bool-cases, inl, inr,
}
use native.Mathlib.Nat.{pow-suc, pow-le-pow_right}
use farlock.Rdma.Manager.{digits_from, round_chunk_size}

digits_from-zero : (rounds : ℕ) → digits_from rounds 0 ≡ 0
unfolding digits_from
digits_from-zero zero = refl
digits_from-zero (suc rounds) = refl

-- The digits are enough for the number and no more than it needs.
digits_from-bounds :
    (rounds x : ℕ)
    → x < 2 ^ rounds
    → (x < 2 ^ digits_from rounds x) × (0 < x → 2 ^ digits_from rounds x ≤ 2 * x)
unfolding digits_from
digits_from-bounds zero x fits = (fits, λ positive. absurd (omega arith))
digits_from-bounds (suc rounds) x fits = elim (Bool-cases (x == 0)) [
  | inl none ↦
      let nothing : x ≡ 0 = ground arith in
      rw none (omega (arith, nothing), λ positive. absurd (omega (arith, nothing)))
  | inr many ↦
      let (above, below) = digits_from-bounds rounds (x / 2) (omega (arith, pow-suc 2 rounds)) in
      let d = digits_from rounds (x / 2) in
      rw many (
        omega (arith, above, pow-suc 2 d),
        λ positive. elim (Bool-cases (x / 2 == 0)) [
          | inl one ↦
              let half : x / 2 ≡ 0 = ground arith in
              rw half (rw (digits_from-zero rounds) (omega arith))
          | inr more ↦ let half : 0 < x / 2 = ground arith in omega (arith, below half, pow-suc 2 d)
        ],
      )
]

-- A chunk size from 2 to 2 ^ 30 is rounded to a power of two from 64 to 4096 that is not less
-- unless that is over 4096, and less than twice the size unless it is 64.
pub round_chunk_size_lem :
    (chunk_size : ℕ)
    → 2 ≤ chunk_size
    → chunk_size ≤ 2 ^ 30
    → (size k : ℕ) × (round_chunk_size chunk_size ≡ some size)
      × (size ≡ 2 ^ k)
      × (64 ≤ size)
      × (size ≤ 4096)
      × (chunk_size ≤ 4096 → chunk_size ≤ size)
      × (64 < size → size < 2 * chunk_size)
unfolding round_chunk_size
round_chunk_size_lem chunk_size big small =
    let below : (chunk_size + word - 1) % word ≡ chunk_size - 1 = omega arith in
    let d = digits_from 64 (chunk_size - 1) in
    let (above, tight) = digits_from-bounds 64 (chunk_size - 1) (omega arith) in
    let near = tight (omega arith) in
    let some_digits : (chunk_size - 1 == 0) ≡ false = ground arith in
    let shift : leb 31 d ≡ false = elim (Bool-cases (leb 31 d)) [
      | inl large ↦
          let over : 31 ≤ d = ground arith in
          absurd (omega (arith, near, pow-le-pow_right {n = 2} (omega arith) over))
      | inr fine ↦ fine
    ] in
    rw (below, some_digits, shift)
      (elim (Bool-cases (ltb (2 ^ d) 64)) [
        | inl low ↦
            let least : 2 ^ d < 64 = ground arith in
            rw low (
              64,
              6,
              refl,
              refl,
              omega arith,
              omega arith,
              λ le. omega (arith, above, least),
              λ lt. absurd (omega arith),
            )
        | inr enough ↦
            let most : 64 ≤ 2 ^ d = ground arith in
            elim (Bool-cases (ltb 4096 (2 ^ d))) [
              | inl high ↦
                  let over : 4096 < 2 ^ d = ground arith in
                  rw (enough, high)
                    (
                      4096,
                      12,
                      refl,
                      refl,
                      omega arith,
                      omega arith,
                      λ le. le,
                      λ lt. omega (arith, near, over),
                    )
              | inr good ↦
                  let fit : 2 ^ d ≤ 4096 = ground arith in
                  rw (enough, good)
                    (
                      2 ^ d,
                      d,
                      refl,
                      refl,
                      most,
                      fit,
                      λ le. omega (arith, above),
                      λ lt. omega (arith, near),
                    )
            ]
      ])
