-- ===== src/Rdma/MemoryPool/Words.antt =====
-- Read and Write of one word in include/rdma/memory_pool.h on a quiet device.
use farlock.Base.{
  ℕ, zero, suc, ◌<◌, ◌≡◌, ◌≢◌, refl, ap, ◌∙◌, Bool, true, List, [], ◌∷◌, some, length, get_elem?,
  ltb, arith,
}
use farlock.Base.Family.{update, update-same, update-other}
use farlock.Rdma.Pointer.{Pointer, id, address}
use farlock.Rdma.Verbs.{rdma_read, rdma_write, SendRequest, Verbs}
use farlock.Rdma.MemoryPool.State.{
  Target, Node, returns, ◌>>=◌, ◌>>◌, target_of, next_buffer, next_request_id,
}
use farlock.Rdma.MemoryPool.Requests.{
  is_local, read_into, read_word, write_from, write_word, max_retries,
}
use farlock.Rdma.MemoryPool.Quiet.{
  Quiet, remote, Ready, advance, prepared, complete_lem, wait-Arrives, old_value, new_value,
  execute,
}
use farlock.Rdma.MemoryPool.Retries.{takes, retries_suffice}

get_elem?-ltb :
    {A : Type 0} (xs : List A) (i : ℕ) (x : A) → get_elem? xs i ≡ some x → ltb i (length xs) ≡ true
get_elem?-ltb [] i x e = absurd cc
get_elem?-ltb (y ∷ ys) zero x e = ground arith
get_elem?-ltb (y ∷ ys) (suc i) x e = let deeper = get_elem?-ltb ys i x e in ground (arith, deeper)

module _ {D : Type 0} (v : Verbs D) (t : Target) (delay : ℕ) (q : Quiet v t delay) (fuel : ℕ)
    (enough : delay < fuel) (p : Pointer) where
  abbrev read_request : Node D → Pointer → Bool → SendRequest
  read_request n buffer fence = prepared n p t buffer rdma_read fence

  read_word_run :
      (n : Node D) (buffer : Pointer) (fence : Bool)
      → Ready n.pool p t buffer
      → is_local buffer n ≡ true
      → read_word v fuel p fence n
        ≡ returns (
          remote q n.world (address p),
          record (advance n) { world = q.done (read_request n buffer fence) n.world },
        )
  unfolding read_word read_into is_local next_buffer target_of next_request_id
  read_word_run n buffer fence ready own =
      let wr = read_request n buffer fence in
      let known = get_elem?-ltb n.pool.target_map (id p) t ready.target in
      rw (ready.room, ◌>>=◌, ◌>>◌)
        (rw (known, ◌>>=◌, ◌>>◌)
          (rw (ready.slot, ◌>>=◌, ◌>>◌)
            (rw (own, ◌>>=◌, ◌>>◌)
              (rw (ready.room, ◌>>=◌, ◌>>◌)
                (rw (ready.target, ◌>>=◌, ◌>>◌)
                  (rw (complete_lem v t delay q fuel wr (advance n) enough refl refl, ◌>>=◌, ◌>>◌)
                    (ap (λ x. returns (x, record (advance n) { world = q.done wr n.world }))
                      (old_value q wr n.world refl refl))))))))

  -- The node when Write(target_ptr, value) has put the value into its buffer.
  abbrev filled_node : Node D → Pointer → ℕ → Node D
  filled_node n buffer value = record (advance n) {
    world = record n.world { memory = update n.world.memory (address buffer) value };
  }

  abbrev write_request : Node D → Pointer → Bool → SendRequest
  write_request n buffer fence = prepared n p t buffer rdma_write fence

  write_word_run :
      (n : Node D) (buffer : Pointer) (value : ℕ) (fence : Bool)
      → Ready n.pool p t buffer
      → is_local buffer n ≡ true
      → write_word v fuel p value fence true n
        ≡ returns (
          tt,
          record (advance n) {
            world = q.done (write_request n buffer fence) (filled_node n buffer value).world;
          },
        )
  unfolding write_word write_from is_local next_buffer target_of next_request_id
  write_word_run n buffer value fence ready own =
      let wr = write_request n buffer fence in
      let n1 = filled_node n buffer value in
      let known = get_elem?-ltb n.pool.target_map (id p) t ready.target in
      let posted =
        retries_suffice v t max_retries 0 wr n1 n1.world _ (takes (q.accepts wr n1.world refl refl))
          (omega arith) in
      rw (ready.room, ◌>>=◌, ◌>>◌)
        (rw (known, ◌>>=◌, ◌>>◌)
          (rw (ready.slot, ◌>>=◌, ◌>>◌)
            (rw (own, ◌>>=◌, ◌>>◌)
              (rw (ready.room, ◌>>=◌, ◌>>◌)
                (rw (ready.target, ◌>>=◌, ◌>>◌)
                  (rw (posted, ◌>>=◌, ◌>>◌)
                    (wait-Arrives v t.send_cq (q.polls wr n1.world) fuel n1 (q.accepted wr n1.world)
                      (q.done wr n1.world) (q.arrives wr n1.world refl refl)
                      (omega (arith, q.polls-le wr n1.world)))))))))

  -- On a device that executes each request alone on a target of another node, the word that a
  -- signaled Write puts at the target is what the next Read there gives, and Write changes no
  -- other word of the target.
  pub read_word-write_word :
      (n : Node D) (first second : Pointer) (value : ℕ) (fence fence' : Bool)
      → Ready n.pool p t first
      → is_local first n ≡ true
      → Ready (advance n).pool p t second
      → is_local second (advance n) ≡ true
      → (n' n'' : Node D) × (write_word v fuel p value fence true n ≡ returns (tt, n'))
        × (read_word v fuel p fence' n' ≡ returns (value, n''))
        × ((b : ℕ) → b ≢ address p → remote q n'.world b ≡ remote q n.world b)
  unfolding is_local
  read_word-write_word n first second value fence fence' ready own again own' =
      let wr = write_request n first fence in
      let n1 = filled_node n first value in
      let n2 = record n1 { world = q.done wr n1.world } in
      let stored : (execute wr (n1.world.memory (address first)) (remote q n1.world (address p))).1
          ≡ value =
        update-same n.world.memory (address first) value in
      let there : remote q n2.world (address p) ≡ value =
        new_value q wr n1.world refl refl ∙ stored in
      (
        n2,
        record (advance n2) { world = q.done (read_request n2 second fence') n2.world },
        write_word_run n first value fence ready own,
        read_word_run n2 second fence' again own'
            ∙ ap
                (λ x. returns (
                  x,
                  record (advance n2) { world = q.done (read_request n2 second fence') n2.world },
                ))
                there,
        λ b apart.
            ap (λ m. m b) (q.theirs wr n1.world refl refl)
            ∙ update-other (remote q n.world) (address p) _ b apart,
      )
