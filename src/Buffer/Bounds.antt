-- ===== src/Buffer/Bounds.antt =====
-- buffer.hh and buffer.cc: the order of the indices, and when an append finds room.
use m_server.Prelude.{
  ℕ, ◌+◌, ◌-◌, ◌≤◌, ◌<◌, ◌≡◌, refl, List, ◌++◌, inl, inr, length, take, drop, replicate,
  length-append, length-take, length-drop, length-replicate, Result-cases, ok, err, Fails, Ensures,
  Ensures-ok, aborted, undefined, arith,
}
use m_server.Buffer.{
  Buffer, writeable_bytes, readable_bytes, prependable_bytes, pretend_size, init_size, max_size,
  add_size, size_mod, write_at, new, resize, move_readable, make_space, ensure_writeable_bytes,
  append, retrieve,
}

-- The picture in buffer.hh: 0 ≤ readerIndex ≤ writerIndex ≤ size, with the prepended bytes kept.
pub record IsValid (b : Buffer) : Type 0 where
  pub prepended : pretend_size ≤ b.read_idx
  pub ordered : b.read_idx ≤ b.write_idx
  pub within : b.write_idx ≤ length b.bytes
  pub addressable : length b.bytes ≤ max_size

module _ {b : Buffer} (v : IsValid b) where
  pub writeable_lem : writeable_bytes b ≡ length b.bytes - b.write_idx
  unfolding writeable_bytes
  writeable_lem = omega arith

  pub readable_lem : readable_bytes b ≡ b.write_idx - b.read_idx
  unfolding readable_bytes
  readable_lem = omega arith

pub length-write_at :
    (i : ℕ) (ys xs : List ℕ) → i + length ys ≤ length xs → length (write_at i ys xs) ≡ length xs
unfolding write_at
length-write_at i ys xs h = omega (
  arith,
  length-append (take i xs) (ys ++ drop (i + length ys) xs),
  length-append ys (drop (i + length ys) xs),
  length-take i xs,
  length-drop (i + length ys) xs,
)

length-resize :
    (n : ℕ) (b : Buffer)
    → Ensures (λ c. (length c.bytes ≡ n) × (c.write_idx ≡ b.write_idx)) (resize n b)
unfolding resize
length-resize n b = ground (
  arith,
  length-append (take n b.bytes) (replicate (n - length b.bytes) 0),
  length-take n b.bytes,
  length-replicate {A = ℕ} (n - length b.bytes) 0,
)

-- The `assert` of `make_space`: moving the bytes to the front gains no room.
writeable-move_readable :
    (b : Buffer) → Ensures (λ c. writeable_bytes c ≡ writeable_bytes b) (move_readable b)
unfolding move_readable
writeable-move_readable b = ground arith

ensure_short :
    (size : ℕ) {b : Buffer}
    → IsValid b
    → size < size_mod
    → length b.bytes ≤ b.write_idx + size
    → Ensures (λ c. length c.bytes < c.write_idx) (ensure_writeable_bytes size b)
unfolding ensure_writeable_bytes make_space writeable_bytes prependable_bytes
ensure_short size {b} v s h =
    let n = add_size size pretend_size in
    ground (arith, length-resize n b, writeable-move_readable b)

pub ensure_fits :
    (size : ℕ) {b : Buffer}
    → IsValid b
    → size < writeable_bytes b
    → ensure_writeable_bytes size b ≡ ok b
unfolding ensure_writeable_bytes
ensure_fits size {b} v h = ground arith

-- `append` of the `len` bytes at a pointer, with more than `len` bytes writeable, overwrites those
-- behind `write_begin()` and moves neither index.
pub append_fits :
    (src : List ℕ) (len : ℕ) {b : Buffer}
    → IsValid b
    → len ≤ length src
    → len < writeable_bytes b
    → append src len b ≡ ok (record b { bytes = write_at b.write_idx (take len src) b.bytes })
unfolding append
append_fits src len v l h = rw (ensure_fits len v h, append) (ground (arith, writeable_lem v))

-- On a valid buffer, `append` of a `size_t` length that is not less than the writeable bytes never
-- returns: `make_space` gains no room.
pub append_full :
    (src : List ℕ) (len : ℕ) {b : Buffer}
    → IsValid b
    → len < size_mod
    → writeable_bytes b ≤ len
    → Fails (append src len b)
unfolding append
append_full src len {b} v s h =
    let short = ensure_short len v s (omega (arith, writeable_lem v)) in
    elim (Result-cases (ensure_writeable_bytes len b)) [
      | inl (c, e) ↦ (
        undefined,
        rw (e, append) (ground (arith, Ensures-ok _ (ensure_writeable_bytes len b) e short)),
      )
      | inr (f, e) ↦ (f, rw (e, append) refl)
    ]

pub retrieve_returns :
    (len : ℕ) {b : Buffer}
    → IsValid b
    → len < readable_bytes b
    → retrieve len b ≡ ok (record b { read_idx = b.read_idx + len })
unfolding retrieve
retrieve_returns len v h = ground (arith, readable_lem v)

-- `retrieve` of all the readable bytes, or of more, fails its `assert`.
pub retrieve_aborts : (len : ℕ) (b : Buffer) → readable_bytes b ≤ len → retrieve len b ≡ err aborted
unfolding retrieve
retrieve_aborts len b h = ground arith

-- The constructor's three asserts hold: a new buffer is valid and empty.
pub new_lem :
    (b : Buffer) × (new ≡ ok b)
    × IsValid b
    × (readable_bytes b ≡ 0)
    × (writeable_bytes b ≡ init_size)
unfolding new
new_lem = (
  record {
    bytes = replicate (pretend_size + init_size) 0;
    read_idx = pretend_size;
    write_idx = pretend_size;
  },
  refl,
  omega arith,
  refl,
  refl,
)
