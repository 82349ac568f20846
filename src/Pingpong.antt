-- ===== src/Pingpong.antt =====
-- example/pingpong/pingpong_server.cc: a server that sends back what it receives.
pub mod Echo
pub mod Client
use m_server.Prelude.{
  ℕ, List, [], ◌∷◌, Bool, true, false, ltb, if◌then◌else◌, Result, ok, ◌>>=◌, length,
}
use m_server.Buffer.{Buffer, Readv, received, total_readed, retrieve_as_string}
use m_server.Connection.{Connection, Written, wrote, State, connected, send, handle_read}

-- "hello!!!".
abbrev pub hello : List ℕ
hello = b'h' ∷ b'e' ∷ b'l' ∷ b'l' ∷ b'o' ∷ b'!' ∷ b'!' ∷ b'!' ∷ []

-- The callback of `on_connection`: `set_tcp_no_delay` changes nothing of this state.
pub on_connection : Written → Connection → Result Connection
on_connection answer c = elim c.state [ connected ↦ send true answer hello 0 c | _ ↦ ok c ]

pub on_message : Written → Connection → Result Connection
on_message answer c = do
  (msg, b) ← retrieve_as_string c.inp_buffer
  send true answer msg 0 (record c { inp_buffer = b })

-- A read, in which `handle_read` calls `on_message` last, if there was anything to read.
pub serve : Readv → Written → Connection → Result Connection
unfolding on_message
serve got answer c = do
  c' ← handle_read got ok c
  if ltb 0 (total_readed got) then on_message answer c' else ok c'

-- A read of each message in turn, each sent back whole.
pub serve_all : List (List ℕ) → Connection → Result Connection
serve_all [] c = ok c
serve_all (m ∷ ms) c = serve (received m) (wrote (length m)) c >>= serve_all ms
