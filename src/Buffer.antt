-- ===== src/Buffer.antt =====
-- src/net/include/buffer.hh and src/net/source/buffer.cc: the byte buffer between a socket and its
-- connection. A `size_t` is a number below 2 ^ 64 with wrap-around, a `char` is a number, and the
-- outcome of a call is a `Result`: a failed `assert` aborts, and a copy that leaves the vector's
-- bytes is undefined.
pub mod Bounds
pub mod Content
pub mod Stream
use m_server.Prelude.{
  ℕ, ◌+◌, ◌-◌, ◌%◌, ◌^◌, List, [], ◌++◌, ltb, leb, ◌==◌, if◌then◌else◌, ◌&&◌, length, take, drop,
  replicate, Result, ok, err, length_error, check, require, ◌>>=◌, ◌>>◌,
}

abbrev pub size_mod : ℕ
size_mod = 2 ^ 64

-- `size_t` addition and subtraction.
abbrev pub add_size : ℕ → ℕ → ℕ
add_size a b = (a + b) % size_mod

abbrev pub sub_size : ℕ → ℕ → ℕ
sub_size a b = (a + size_mod - b) % size_mod

abbrev pub pretend_size : ℕ
pretend_size = 8

abbrev pub init_size : ℕ
init_size = 1024

-- `std::vector<char>::max_size()`.
abbrev pub max_size : ℕ
max_size = 2 ^ 63 - 1

pub record Buffer : Type 0 where
  pub bytes : List ℕ
  pub read_idx : ℕ
  pub write_idx : ℕ

unfoldable pub writeable_bytes : Buffer → ℕ
writeable_bytes b = sub_size (length b.bytes) b.write_idx

unfoldable pub readable_bytes : Buffer → ℕ
readable_bytes b = sub_size b.write_idx b.read_idx

pub prependable_bytes : Buffer → ℕ
prependable_bytes b = b.read_idx

-- The bytes from `peek()` to the end of the vector.
pub peek : Buffer → List ℕ
peek b = drop b.read_idx b.bytes

-- `xs` with the bytes from index `i` on overwritten by `ys`.
pub write_at : ℕ → List ℕ → List ℕ → List ℕ
write_at i ys xs = take i xs ++ (ys ++ drop (i + length ys) xs)

-- The constructor; `std::vector` starts with zero bytes.
pub new : Result Buffer
unfolding writeable_bytes readable_bytes prependable_bytes
new = do
  let b : Buffer = record {
    bytes = replicate (pretend_size + init_size) 0;
    read_idx = pretend_size;
    write_idx = pretend_size;
  }
  check (readable_bytes b == 0)
  check (writeable_bytes b == init_size)
  check (prependable_bytes b == pretend_size)
  ok b

-- `buffer_.resize(n)`.
pub resize : ℕ → Buffer → Result Buffer
resize n b =
    if ltb max_size n
    then err length_error
    else ok (record b { bytes = take n b.bytes ++ replicate (n - length b.bytes) 0 })

-- The branch of `make_space` that moves the readable bytes to the front. `std::move` over the range
-- from `read_begin()` to `write_begin()` wants it inside the vector.
move_readable : Buffer → Result Buffer
move_readable b = do
  let writeable = writeable_bytes b
  require (leb b.read_idx b.write_idx && leb b.write_idx (length b.bytes))
  let moved = take (readable_bytes b) (peek b)
  let b' : Buffer = record {
    bytes = write_at pretend_size moved b.bytes;
    read_idx = pretend_size;
    write_idx = add_size pretend_size writeable;
  }
  check (writeable_bytes b' == writeable)
  ok b'

pub make_space : ℕ → Buffer → Result Buffer
make_space size b =
    if ltb (add_size (prependable_bytes b) (writeable_bytes b)) (add_size size pretend_size)
    then resize (add_size size pretend_size) b
    else move_readable b

pub ensure_writeable_bytes : ℕ → Buffer → Result Buffer
ensure_writeable_bytes size b = do
  b' ← if ltb (writeable_bytes b) size then make_space size b else ok b
  check (ltb size (writeable_bytes b'))
  ok b'

-- `append(data, len)`, with `data` the bytes that may be read at the pointer.
pub append : List ℕ → ℕ → Buffer → Result Buffer
append data' len b = do
  b' ← ensure_writeable_bytes len b
  require (leb len (length data') && leb (b'.write_idx + len) (length b'.bytes))
  ok (record b' { bytes = write_at b'.write_idx (take len data') b'.bytes })

pub retrieve : ℕ → Buffer → Result Buffer
retrieve len b = do
  check (ltb len (readable_bytes b))
  ok (record b { read_idx = add_size b.read_idx len })

pub retrieve_all : Buffer → Buffer
retrieve_all b = record b { read_idx = pretend_size; write_idx = pretend_size }

-- `std::string str(peek(), readable_bytes())`, then `retrieve_all()`.
pub retrieve_as_string : Buffer → Result (List ℕ × Buffer)
retrieve_as_string b = do
  require (leb (readable_bytes b) (length (peek b)))
  ok (take (readable_bytes b) (peek b), retrieve_all b)

-- What `::readv` did: it stored these bytes, or it returned -1.
pub data Readv : Type 0 where
  received : List ℕ → Readv
  failed : Readv

-- `const size_t total_readed = sok.readv(vec, 2)`: -1 becomes the largest `size_t`.
abbrev pub total_readed : Readv → ℕ
total_readed (received bs) = length bs
total_readed failed = size_mod - 1

abbrev pub arrived : Readv → List ℕ
arrived (received bs) = bs
arrived failed = []

-- What follows `readv` in `read_socket`, once the first vector is filled; `extra` is what the
-- kernel stored in `extra_buffer` (a read behind it would see bytes that nobody stored).
account : ℕ → ℕ → List ℕ → Buffer → Result (ℕ × Buffer)
account writeable total extra b =
    if total == 0
    then ok (total, b)
    else if ltb total writeable
    then ok (total, record b { write_idx = add_size b.write_idx total })
    else do
      b' ← append extra (sub_size total writeable) (record b { write_idx = length b.bytes })
      ok (total, b')

-- The kernel scatters the bytes: the first `writeable` go behind `write_begin()`, the others to
-- `extra_buffer`. The result is the number of bytes that `read_socket` returns.
pub read_socket : Readv → Buffer → Result (ℕ × Buffer)
read_socket got b = do
  let writeable = writeable_bytes b
  let head = take writeable (arrived got)
  let extra = drop writeable (arrived got)
  require (leb (b.write_idx + length head) (length b.bytes))
  account writeable (total_readed got) extra
      (record b { bytes = write_at b.write_idx head b.bytes })
