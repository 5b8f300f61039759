-- ===== src/Rdma/Pointer.antt =====
-- include/rdma/pointer.h: a remote address in one 64-bit word, the node's id in the high 16 bits.
use farlock.Base.Bits.{bit_or-add}
use farlock.Base.{ℕ, ◌+◌, ◌*◌, ◌/◌, ◌%◌, ◌^◌, ◌<◌, ◌≡◌, ap, arith, Bool, not, bit_or, ◌==◌, word}

pub record Pointer : Type 0 where
  pub raw : ℕ

abbrev pub null : Pointer
null = record { raw = 0 }

-- Pointer(id, address): `id << 48 | address`.
unfoldable pub make : ℕ → ℕ → Pointer
make id address = record { raw = bit_or (id * 2 ^ 48 % word) address }

unfoldable pub id : Pointer → ℕ
id p = p.raw / 2 ^ 48

unfoldable pub address : Pointer → ℕ
address p = p.raw % 2 ^ 48

-- operator+, at 64 bits.
unfoldable pub offset : Pointer → ℕ → Pointer
offset p n = record { raw = (p.raw + n) % word }

unfoldable pub is_null : Pointer → Bool
is_null p = p.raw == 0

unfoldable pub equals : Pointer → Pointer → Bool
equals p q = p.raw == q.raw

-- operator bool.
unfoldable pub to_bool : Pointer → Bool
to_bool p = not (p.raw == 0)

pub raw-make :
    (node a : ℕ) → node < 2 ^ 16 → a < 2 ^ 48 → Pointer.raw (make node a) ≡ node * 2 ^ 48 + a
unfolding make
raw-make node a few low =
    let small : node * 2 ^ 48 % word ≡ node * 2 ^ 48 = omega arith in
    omega (arith, ap (λ (k : ℕ). bit_or k a) small, bit_or-add 48 node a low)

-- A pointer made from an id below 2 ^ 16 and an address below 2 ^ 48 has that id and that address.
pub id-make-address :
    (node a : ℕ)
    → node < 2 ^ 16
    → a < 2 ^ 48
    → (id (make node a) ≡ node) × (address (make node a) ≡ a)
unfolding id address
id-make-address node a few low =
    let raw = raw-make node a few low in (omega (arith, raw), omega (arith, raw))

-- Adding an offset to a 64-bit pointer, with the sum of address and offset below 2 ^ 48, keeps the
-- id and adds to the address.
pub id-offset-address :
    (p : Pointer) (n : ℕ)
    → Pointer.raw p < word
    → address p + n < 2 ^ 48
    → (id (offset p n) ≡ id p) × (address (offset p n) ≡ address p + n)
unfolding id address offset
id-offset-address p n fits low = (omega arith, omega arith)
