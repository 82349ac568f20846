-- ===== src/Tests/Buffers.antt =====
-- Runs of the buffer of src/net/include/buffer.hh and src/net/source/buffer.cc.
use m_server.Prelude.{[], ◌∷◌, replicate, Fails, arith}
use m_server.Buffer.{Buffer, writeable_bytes, failed, read_socket}
use m_server.Buffer.Bounds.{IsValid}
use m_server.Buffer.Content.{read_socket-Fails}
use m_server.Buffer.Stream.{receive, skip, take_all, run, spec, Yields, run_refines}

abbrev empty : Buffer
empty = record { bytes = replicate 16 0; read_idx = 8; write_idx = 8 }

-- Three bytes to read, three to write.
abbrev half : Buffer
half = record {
  bytes = 0 ∷ 0 ∷ 0 ∷ 0 ∷ 0 ∷ 0 ∷ 0 ∷ 0 ∷ 0 ∷ 0 ∷ 5 ∷ 6 ∷ 7 ∷ 0 ∷ 0 ∷ 0 ∷ [];
  read_idx = 10;
  write_idx = 13;
}

half-IsValid : IsValid half
half-IsValid = omega arith

-- A socket error, which `readv` reports by -1.
read_socket-Fails_example : Fails (read_socket failed half)
unfolding writeable_bytes
read_socket-Fails_example =
    read_socket-Fails failed half-IsValid (omega arith) (omega arith) (omega arith)

run_refines_example :
    Yields
      ((5 ∷ 6 ∷ 7 ∷ 1 ∷ []) ∷ (3 ∷ []) ∷ [], [])
      (run (receive (1 ∷ []) ∷ take_all ∷ receive (2 ∷ 3 ∷ []) ∷ skip 1 ∷ take_all ∷ []) half)
unfolding spec
run_refines_example =
    run_refines (receive (1 ∷ []) ∷ take_all ∷ receive (2 ∷ 3 ∷ []) ∷ skip 1 ∷ take_all ∷ [])
      half-IsValid (omega arith)
