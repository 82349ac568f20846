-- ===== src/Buffer/Content.antt =====
-- buffer.hh and buffer.cc: which bytes a buffer holds, and what each operation does to them.
use m_server.Prelude.{
  ℕ, ◌+◌, ◌≤◌, ◌<◌, ◌≡◌, refl, sym, ap, List, [], ◌++◌, ◌⊎◌, length, take, drop, length-take,
  length-append, drop-take, drop-append, drop-drop, length-drop, take-append_left, append_assoc,
  take-all, ok, Fails, Ensures, Ensures-Fails, inl, inr, lt_or_le, arith,
}
use m_server.Buffer.{
  Buffer, writeable_bytes, readable_bytes, size_mod, write_at, append, retrieve, retrieve_all,
  retrieve_as_string, peek, Readv, received, total_readed, arrived, read_socket, account, sub_size,
}
use m_server.Buffer.Bounds.{
  IsValid, writeable_lem, readable_lem, length-write_at, ensure_fits, append_fits, append_full,
  retrieve_returns,
}

-- The bytes between the two indices, which a reader has not taken yet.
abbrev pub contents : Buffer → List ℕ
contents b = drop b.read_idx (take b.write_idx b.bytes)

take-append_of_length : (n : ℕ) (xs ys : List ℕ) → length xs ≡ n → take n (xs ++ ys) ≡ xs
take-append_of_length n xs ys e = rw (← e) (take-append_left xs ys)

take-write_at : (i : ℕ) (ys xs : List ℕ) → i ≤ length xs → take i (write_at i ys xs) ≡ take i xs
unfolding write_at
take-write_at i ys xs h = take-append_of_length i (take i xs) _ (omega (arith, length-take i xs))

take-write_at_end :
    (i : ℕ) (ys xs : List ℕ)
    → i ≤ length xs
    → take (i + length ys) (write_at i ys xs) ≡ take i xs ++ ys
unfolding write_at
take-write_at_end i ys xs h = rw (← append_assoc (take i xs) ys (drop (i + length ys) xs)) (
    take-append_of_length (i + length ys) (take i xs ++ ys) _
      (omega (arith, length-append (take i xs) ys, length-take i xs)))

write_at-IsValid :
    (ys : List ℕ) {b : Buffer}
    → IsValid b
    → b.write_idx + length ys ≤ length b.bytes
    → IsValid (record b { bytes = write_at b.write_idx ys b.bytes })
write_at-IsValid ys {b} v h = ground (arith, length-write_at b.write_idx ys b.bytes)

-- On a valid buffer, `append` of fewer bytes than are writeable returns a valid buffer in which a
-- reader finds what was there before, and none of the bytes appended.
pub contents-append :
    (src : List ℕ) (len : ℕ) {b : Buffer}
    → IsValid b
    → len ≤ length src
    → len < writeable_bytes b
    → (c : Buffer) × (append src len b ≡ ok c) × IsValid c × (contents c ≡ contents b)
contents-append src len {b} v l h = (
  _,
  append_fits src len v l h,
  write_at-IsValid (take len src) v (omega (arith, length-take len src, writeable_lem v)),
  ap (drop b.read_idx) (take-write_at b.write_idx (take len src) b.bytes v.within),
)

-- Whatever `append` is given, when it returns the buffer is valid and neither index has moved.
pub append_keeps :
    (src : List ℕ) (len : ℕ) {b : Buffer}
    → IsValid b
    → len < size_mod
    → Ensures
        (λ c. IsValid c × (c.read_idx ≡ b.read_idx) × (c.write_idx ≡ b.write_idx))
        (append src len b)
unfolding append
append_keeps src len {b} v s = elim (lt_or_le len (writeable_bytes b)) [
  | inl h ↦
      rw (ensure_fits len v h, append)
        (ground (
          arith,
          writeable_lem v,
          length-take len src,
          length-write_at b.write_idx (take len src) b.bytes,
        ))
  | inr h ↦ Ensures-Fails _ (append_full src len v s h)
]

-- `retrieve` of fewer bytes than are readable drops them from the front.
pub contents-retrieve :
    (len : ℕ) {b : Buffer}
    → IsValid b
    → len < readable_bytes b
    → (c : Buffer) × (retrieve len b ≡ ok c) × IsValid c × (contents c ≡ drop len (contents b))
contents-retrieve len {b} v h = (
  _,
  retrieve_returns len v h,
  omega (arith, readable_lem v),
  sym (drop-drop len b.read_idx (take b.write_idx b.bytes)),
)

-- `retrieve_as_string` on a valid buffer returns all that it holds and leaves it valid and empty.
pub retrieve_as_string_lem :
    {b : Buffer}
    → IsValid b
    → (retrieve_as_string b ≡ ok (contents b, retrieve_all b))
      × IsValid (retrieve_all b)
      × (contents (retrieve_all b) ≡ [])
unfolding retrieve_as_string retrieve_all peek
retrieve_as_string_lem {b} v = (
  ground (
    arith,
    readable_lem v,
    length-drop b.read_idx b.bytes,
    drop-take b.read_idx b.write_idx b.bytes,
  ),
  omega arith,
  drop-take 8 8 b.bytes,
)

-- What a reader finds after `read_socket`.
pub record Appended (bs : List ℕ) (b c : Buffer) : Type 0 where
  pub valid : IsValid c
  pub holds : contents c ≡ contents b ++ bs
  pub size_kept : length c.bytes ≡ length b.bytes
  pub ends : c.write_idx ≡ b.write_idx + length bs

Appended_lem :
    (bs : List ℕ) {b : Buffer}
    → IsValid b
    → b.write_idx + length bs ≤ length b.bytes
    → Appended bs b
        (record b { bytes = write_at b.write_idx bs b.bytes; write_idx = b.write_idx + length bs })
Appended_lem bs {b} v h = record {
  valid = ground (arith, length-write_at b.write_idx bs b.bytes);
  holds = rw (take-write_at_end b.write_idx bs b.bytes v.within) (
      drop-append b.read_idx (take b.write_idx b.bytes) bs
        (omega (arith, length-take b.write_idx b.bytes)));
  size_kept = length-write_at b.write_idx bs b.bytes h;
  ends = refl;
}

-- On a valid buffer, `read_socket` with fewer bytes than are writeable, or none at all (end of
-- file), returns their number and puts them behind what the buffer held; the vector keeps its size.
pub read_socket_returns :
    (bs : List ℕ) {b : Buffer}
    → IsValid b
    → (length bs < writeable_bytes b) ⊎ (length bs ≡ 0)
    → (c : Buffer) × (read_socket (received bs) b ≡ ok (length bs, c)) × Appended bs b c
unfolding read_socket account
read_socket_returns bs {b} v h = (
  _,
  ground
      (arith, writeable_lem v, take-all (writeable_bytes b) bs, length-take (writeable_bytes b) bs),
  Appended_lem bs v (ground (arith, writeable_lem v)),
)

account-Fails :
    (w total : ℕ) (extra : List ℕ) {b : Buffer}
    → IsValid b
    → 0 < total
    → w ≤ total
    → total < size_mod
    → Fails (account w total extra b)
unfolding account
account-Fails w total extra {b} v pos le s =
    let full : IsValid (record b { write_idx = length b.bytes }) = omega arith in
    let (f, e) =
      append_full extra (sub_size total w) full (omega arith) (omega (arith, writeable_lem full)) in
    (f, ground (arith, e))

-- On a valid buffer, when the kernel fills all the writeable bytes, or when `readv` fails, the outcome
-- of `read_socket` is a failed `assert`, an exception, or undefined behaviour: it writes past the end
-- of the vector.
pub read_socket-Fails :
    (got : Readv) {b : Buffer}
    → IsValid b
    → 0 < total_readed got
    → total_readed got < size_mod
    → writeable_bytes b ≤ total_readed got
    → Fails (read_socket got b)
unfolding read_socket
read_socket-Fails got {b} v pos s le =
    let w = writeable_bytes b in
    let head = take w (arrived got) in
    let room : b.write_idx + length head ≤ length b.bytes =
      omega (arith, length-take w (arrived got), writeable_lem v) in
    let (f, e) =
      account-Fails w (total_readed got) (drop w (arrived got)) (write_at-IsValid head v room) pos
        le s in
    (f, ground (arith, e))
