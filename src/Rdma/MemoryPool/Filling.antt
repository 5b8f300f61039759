-- ===== src/Rdma/MemoryPool/Filling.antt =====
-- What the constructor of include/rdma/memory_pool.h carves out of the chunks of its free list.
use farlock.Base.{
  ℕ, zero, suc, ◌+◌, ◌-◌, ◌*◌, ◌^◌, ◌≤◌, ◌<◌, ◌≡◌, ◌≢◌, refl, sym, ap, subst, ◌∙◌, true, false,
  List, [], ◌∷◌, ◌++◌, replicate, set, take, length, length-append, ltb, ◌==◌, arith, some,
}
use mathlib.Core.List.{append-nil, append_assoc}
use farlock.Rdma.Pointer.{Pointer, null, make, offset, is_null, raw-make}
use farlock.Rdma.MemoryPool.State.{Node, returns}
use farlock.Rdma.MemoryPool.Requests.{word_size}
use farlock.Rdma.MemoryPool.Chunks.{allocate, fill_chunk, fill_buffers}

-- The chunks of a free list that starts at an address, threaded through their first words.
abbrev pub Chain : (ℕ → ℕ) → ℕ → List ℕ → Type 0
Chain memory a [] = a ≡ 0
Chain memory a (c ∷ cs) = (a ≡ c) × (c ≢ 0) × (c < 2 ^ 48) × Chain memory (memory c) cs

-- The words of a chunk from the j-th on, and those of all chunks.
abbrev pub words_of : ℕ → ℕ → Pointer → List Pointer
words_of zero j p = []
words_of (suc left) j p = offset p (j * word_size) ∷ words_of left (suc j) p

abbrev pub carve : ℕ → ℕ → List ℕ → List Pointer
carve per node [] = []
carve per node (c ∷ cs) = words_of per 0 (make node c) ++ carve per node cs

sub_zero : (n : ℕ) → n - 0 ≡ n
sub_zero n = omega arith

sub_suc : (n m : ℕ) → suc n - suc m ≡ n - m
sub_suc n m = omega arith

length-words_of : (left j : ℕ) (p : Pointer) → length (words_of left j p) ≡ left
length-words_of zero j p = refl
length-words_of (suc left) j p = ap suc (length-words_of left (suc j) p)

module _ {ℓ} {A : Type ℓ} where
  set_next :
      (done : List A) (x : A) (rest : List A) (v : A)
      → set (done ++ x ∷ rest) (length done) v ≡ (done ++ v ∷ []) ++ rest
  set_next [] x rest v = refl
  set_next (d ∷ done) x rest v = ap (λ l. d ∷ l) (set_next done x rest v)

  take-nil : (n : ℕ) → take {A = A} n [] ≡ []
  take-nil zero = refl
  take-nil (suc n) = refl

  take-append : (n : ℕ) (xs ys : List A) → take n (xs ++ ys) ≡ take n xs ++ take (n - length xs) ys
  take-append n [] ys = rw (take-nil n, sub_zero n) refl
  take-append zero (x ∷ xs) ys =
      let nothing : zero - suc (length xs) ≡ zero = omega arith in rw nothing refl
  take-append (suc n) (x ∷ xs) ys =
      rw (sub_suc n (length xs)) (ap (λ l. x ∷ l) (take-append n xs ys))

-- The first `done` of the buffers are set, and `r` are left.
abbrev pub Part : ℕ → ℕ → List Pointer → List Pointer → ℕ → Type 0
Part count i buffers done r =
    (i ≡ length done) × (count ≡ i + r) × (buffers ≡ done ++ replicate r null)

Part-next :
    (count i : ℕ) (buffers done : List Pointer) (r : ℕ) (p : Pointer)
    → Part count i buffers done (suc r)
    → Part count (suc i) (set buffers i p) (done ++ p ∷ []) r
Part-next count i buffers done r p (at, sum, shape) = (
  omega (arith, at, length-append done (p ∷ [])),
  omega (arith, sum),
  rw (shape, at) (set_next done null (replicate r null) p),
)

-- With fewer than 2 ^ 31 buffers the index does not overflow.
fill_chunk-Part :
    (left j : ℕ) (p : Pointer) (count i : ℕ) (buffers done : List Pointer) (r : ℕ)
    → count < 2 ^ 31
    → Part count i buffers done r
    → (next : ℕ) × (filled : List Pointer) × (fill_chunk left j p count i buffers
        ≡ some (next, filled))
      × Part count next filled (done ++ take r (words_of left j p)) (r - left)
unfolding fill_chunk
fill_chunk-Part zero j p count i buffers done r small part =
    (i, buffers, refl, rw (take-nil {A = Pointer} r, append-nil done, sub_zero r) part)
fill_chunk-Part (suc left) j p count i buffers done zero small (at, sum, shape) =
    let full : ltb i count ≡ false = ground arith in
    let none_left : zero - suc left ≡ zero = omega arith in
    (i, buffers, rw full refl, rw (append-nil done, none_left) (at, sum, shape))
fill_chunk-Part (suc left) j p count i buffers done (suc r) small (at, sum, shape) =
    let room : ltb i count ≡ true = ground arith in
    let fits : ltb (suc i) (2 ^ 31) ≡ true = ground arith in
    let v = offset p (j * word_size) in
    let (next, filled, runs, part) =
      fill_chunk-Part left (suc j) p count (suc i) (set buffers i v) (done ++ v ∷ []) r small
        (Part-next count i buffers done r v (at, sum, shape)) in
    (
      next,
      filled,
      rw (room, fits) runs,
      rw (sub_suc r left) (
          subst (λ l. Part count next filled l (r - left))
            (append_assoc done (v ∷ []) (take r (words_of left (suc j) p))) part),
    )

pub allocate_lem :
    {D : Type 0} (n : Node D) (c : ℕ) (cs : List ℕ)
    → Chain n.world.memory n.pool.free_list (c ∷ cs)
    → allocate n
      ≡ returns (
        make n.pool.node_id c,
        record n { pool = record n.pool { free_list = n.world.memory c } },
      )
unfolding allocate
allocate_lem n c cs (head, nonzero, low, chain) =
    let some_chunk : (c == 0) ≡ false = ground arith in rw (head, some_chunk) refl

make-present :
    {D : Type 0} (n : Node D) (c : ℕ)
    → c ≢ 0
    → n.pool.node_id < 2 ^ 16
    → c < 2 ^ 48
    → is_null (make n.pool.node_id c) ≡ false
unfolding is_null
make-present n c nonzero few low = ground (arith, raw-make n.pool.node_id c few low)

-- The chunks of the list suffice for the buffers that are left: the loop ends within as many rounds
-- as there are such buffers.
pub fill_buffers-Part :
    {D : Type 0} (rounds per : ℕ) (cs : List ℕ) (count i : ℕ) (buffers done : List Pointer) (r : ℕ)
    (n : Node D)
    → n.pool.node_id < 2 ^ 16
    → count < 2 ^ 31
    → Part count i buffers done r
    → Chain n.world.memory n.pool.free_list cs
    → r ≤ length (carve (suc per) n.pool.node_id cs)
    → r ≤ rounds
    → (n' : Node D) × (fill_buffers rounds (suc per) count i buffers n
        ≡ returns (done ++ take r (carve (suc per) n.pool.node_id cs), n'))
      × (n'.world ≡ n.world)
unfolding fill_buffers
fill_buffers-Part zero per cs count i buffers done zero n few small (at, sum, shape) chain fit
      enough =
    let full : ltb i count ≡ false = ground arith in (n, rw (full, shape, fill_buffers) refl, refl)
fill_buffers-Part zero per cs count i buffers done (suc r) n few small part chain fit enough =
    absurd (omega arith)
fill_buffers-Part (suc rounds) per cs count i buffers done zero n few small (at, sum, shape) chain
      fit enough =
    let full : ltb i count ≡ false = ground arith in (n, rw (full, fill_buffers, shape) refl, refl)
fill_buffers-Part (suc rounds) per [] count i buffers done (suc r) n few small part chain fit
      enough =
    absurd (omega arith)
fill_buffers-Part (suc rounds) per (c ∷ cs) count i buffers done (suc r) n few small
      (at, sum, shape) (head, nonzero, low, chain) fit enough =
    let room : ltb i count ≡ true = ground arith in
    let p = make n.pool.node_id c in
    let n1 = record n { pool = record n.pool { free_list = n.world.memory c } } in
    let words = words_of (suc per) 0 p in
    let many = length-words_of (suc per) 0 p in
    let total = length-append words (carve (suc per) n.pool.node_id cs) in
    let (next, filled, fills, part) =
      fill_chunk-Part (suc per) 0 p count i buffers done (suc r) small (at, sum, shape) in
    let (n', runs, same) =
      fill_buffers-Part rounds per cs count next filled (done ++ take (suc r) words)
        (suc r - suc per) n1 few small part chain (omega (arith, many, total, fit))
        (omega (arith, enough)) in
    (
      n',
      rw (room, fill_buffers)
          (rw
            (
              allocate_lem n c cs (head, nonzero, low, chain),
              make-present n c nonzero few low,
              fills,
            )
            (runs
              ∙ ap (λ l. returns (l, n'))
                  (append_assoc done (take (suc r) words) _
                    ∙ ap (λ l. done ++ l)
                        (ap
                            (λ k.
                              take (suc r) words
                              ++ take (suc r - k) (carve (suc per) n.pool.node_id cs))
                            (sym many)
                          ∙ sym (take-append (suc r) words (carve (suc per) n.pool.node_id cs)))))),
      same,
    )
