-- ===== src/Buffer/Stream.antt =====
-- buffer.hh and buffer.cc: a buffer as a reader and a socket use it, against a queue of bytes.
use m_server.Prelude.{
  ℕ, ◌+◌, ◌-◌, ◌<◌, ◌≡◌, refl, sym, ap, ◌∙◌, List, [], ◌∷◌, ◌++◌, inl, length, drop, take,
  drop-drop, length-take, length-drop, length-append, Result, ok, ◌>>=◌, All, arith,
}
use m_server.Buffer.{
  Buffer, readable_bytes, retrieve, retrieve_all, retrieve_as_string, received, read_socket,
  pretend_size,
}
use m_server.Buffer.Bounds.{IsValid, writeable_lem, readable_lem, retrieve_returns}
use m_server.Buffer.Content.{contents, retrieve_as_string_lem, read_socket_returns}

-- The calls that `tcp_connection` and its message callback make of an input buffer.
pub data Op : Type 0 where
  receive : List ℕ → Op
  skip : ℕ → Op
  take_all : Op

-- A run of calls, with the strings that it hands to the reader.
pub run : List Op → Buffer → Result (List (List ℕ) × Buffer)
run [] b = ok ([], b)
run (receive bs ∷ ops) b = read_socket (received bs) b >>= λ r. run ops r.1
run (skip n ∷ ops) b = retrieve n b >>= λ c. run ops c
run (take_all ∷ ops) b = retrieve_as_string b >>= λ r. run ops r.1 >>= λ s. ok (r.0 ∷ s.0, s.1)

-- The specification: a queue of bytes.
unfoldable pub spec : List Op → List ℕ → List (List ℕ) × List ℕ
spec [] q = ([], q)
spec (receive bs ∷ ops) q = spec ops (q ++ bs)
spec (skip n ∷ ops) q = spec ops (drop n q)
spec (take_all ∷ ops) q = let (out, q') = spec ops [] in (q ∷ out, q')

-- What lets each call return, with `held` bytes in a vector of `size` bytes up to index `end`: room
-- to spare behind the bytes of a `receive`, and a `skip` that leaves a byte.
abbrev pub Fits : ℕ → List Op → ℕ → ℕ → Type 0
Fits size [] held end = Unit
Fits size (receive bs ∷ ops) held end =
    (end + length bs < size) × Fits size ops (held + length bs) (end + length bs)
Fits size (skip n ∷ ops) held end = (n < held) × Fits size ops (held - n) end
Fits size (take_all ∷ ops) held end = Fits size ops 0 pretend_size

pub length-contents : {b : Buffer} → IsValid b → length (contents b) ≡ b.write_idx - b.read_idx
length-contents {b} v =
    omega
      (arith, length-drop b.read_idx (take b.write_idx b.bytes), length-take b.write_idx b.bytes)

pub size-retrieve_all : (b : Buffer) → length (retrieve_all b).bytes ≡ length b.bytes
unfolding retrieve_all
size-retrieve_all b = refl

pub end-retrieve_all : (b : Buffer) → (retrieve_all b).write_idx ≡ pretend_size
unfolding retrieve_all
end-retrieve_all b = refl

-- The outcome of a run: these strings, and a valid buffer with these bytes left.
abbrev pub Yields : List (List ℕ) × List ℕ → Result (List (List ℕ) × Buffer) → Type 0
Yields (out, q) r = (c : Buffer) × (r ≡ ok (out, c)) × IsValid c × (contents c ≡ q)

run_lem :
    (ops : List Op) (q : List ℕ) (size end : ℕ) {b : Buffer}
    → IsValid b
    → contents b ≡ q
    → length b.bytes ≡ size
    → b.write_idx ≡ end
    → Fits size ops (length q) end
    → Yields (spec ops q) (run ops b)
unfolding run spec
run_lem [] q size end {b} v holds s e f = (b, refl, v, holds)
run_lem (receive bs ∷ ops) q size end {b} v holds s e f =
    let (c, returns, a) = read_socket_returns bs v (inl (omega (arith, writeable_lem v))) in
    rw returns (
      run_lem ops (q ++ bs) size (end + length bs) a.valid (a.holds ∙ ap (λ p. p ++ bs) holds)
        (a.size_kept ∙ s) (a.ends ∙ ap (λ n. n + length bs) e) (rw (length-append q bs) f.1))
run_lem (skip n ∷ ops) q size end {b} v holds s e f =
    let held = length-contents v ∙ refl in
    let short : n < readable_bytes b = omega (arith, readable_lem v, held, ap length holds) in
    rw (retrieve_returns n v short) (
      run_lem ops (drop n q) size end (omega (arith, readable_lem v))
        (sym (drop-drop n b.read_idx (take b.write_idx b.bytes)) ∙ ap (drop n) holds) s e
        (rw (length-drop n q) f.1))
run_lem (take_all ∷ ops) q size end {b} v holds s e f =
    let (returns, valid, empty) = retrieve_as_string_lem v in
    let (c, rest, w, left) =
      run_lem ops [] size pretend_size valid empty (size-retrieve_all b ∙ s) (end-retrieve_all b)
        f in
    (c, rw (returns, rest, holds) refl, w, left)

-- On a valid buffer, a run of `read_socket`, `retrieve` and `retrieve_as_string` calls, each read
-- with room to spare behind the bytes held and each `retrieve` of fewer bytes than are held,
-- returns; it hands over the strings, and leaves the bytes, of a queue of bytes.
pub run_refines :
    (ops : List Op) {b : Buffer}
    → IsValid b
    → Fits (length b.bytes) ops (length (contents b)) b.write_idx
    → Yields (spec ops (contents b)) (run ops b)
run_refines ops {b} v f = run_lem ops (contents b) (length b.bytes) b.write_idx v refl refl refl f

-- A message that is read whole and then taken as a string, any number of times.
abbrev pub exchanges : List (List ℕ) → List Op
exchanges [] = []
exchanges (m ∷ ms) = receive m ∷ take_all ∷ exchanges ms

exchanges-Fits :
    (ms : List (List ℕ)) (size : ℕ)
    → All (λ m. length m + pretend_size < size) ms
    → Fits size (exchanges ms) 0 pretend_size
exchanges-Fits [] size f = tt
exchanges-Fits (m ∷ ms) size f = (omega (arith, f.0), exchanges-Fits ms size f.1)

spec-exchanges : (ms : List (List ℕ)) → spec (exchanges ms) [] ≡ (ms, [])
unfolding spec
spec-exchanges [] = refl
spec-exchanges (m ∷ ms) = rw (spec-exchanges ms)

-- Through an empty buffer, as `new` makes it, any number of messages of fewer than 1024 bytes come
-- back one by one as they were read.
pub run-exchanges :
    (ms : List (List ℕ)) {b : Buffer}
    → IsValid b
    → contents b ≡ []
    → b.write_idx ≡ pretend_size
    → All (λ m. length m + pretend_size < length b.bytes) ms
    → Yields (ms, []) (run (exchanges ms) b)
run-exchanges ms {b} v empty e f = rw (spec-exchanges ms) at (
    run_lem (exchanges ms) [] (length b.bytes) pretend_size v empty refl e
      (exchanges-Fits ms (length b.bytes) f))
