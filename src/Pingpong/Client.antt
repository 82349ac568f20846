-- ===== src/Pingpong/Client.antt =====
-- example/pingpong/pingpong_client.cc: a client that sends back what it receives, and its link with
-- the server of example/pingpong/pingpong_server.cc.
pub mod Rally
use m_server.Prelude.{
  ℕ, zero, suc, List, Bool, true, false, ltb, if◌then◌else◌, length, drop, Result, ok, ◌>>=◌,
}
use m_server.Buffer.{Readv, received, total_readed, retrieve_as_string}
use m_server.Connection.{Connection, Callbacks, Written, wrote, send, handle_read}
use m_server.Client.{UserCallbacks}
use m_server.Client.Setters.{unset, set_message_callback}
use m_server.Pingpong.{serve}

-- What `main` sets: the message callback alone.
abbrev pub user_callbacks : UserCallbacks
user_callbacks = set_message_callback true unset

pub on_message : Written → Connection → Result Connection
on_message answer c = do
  (msg, b) ← retrieve_as_string c.inp_buffer
  send true answer msg 0 (record c { inp_buffer = b })

-- A read, in which `handle_read` calls `on_message` last, if there was anything to read.
pub receive : Readv → Written → Connection → Result Connection
unfolding on_message
receive got answer c = do
  c' ← handle_read got ok c
  if ltb 0 (total_readed got) then on_message answer c' else ok c'

-- The two ends, and how many of the bytes that one has sent the other has read.
pub record Link : Type 0 where
  pub server : Connection
  pub client : Connection
  pub read_by_client : ℕ
  pub read_by_server : ℕ

-- An end reads all that is on its way, and its socket takes the whole answer.
pub to_client : Link → Result Link
unfolding receive
to_client l = do
  let bs = drop l.read_by_client l.server.sent
  c ← receive (received bs) (wrote (length bs)) l.client
  ok (record l { client = c; read_by_client = length l.server.sent })

pub to_server : Link → Result Link
unfolding serve
to_server l = do
  let bs = drop l.read_by_server l.client.sent
  s ← serve (received bs) (wrote (length bs)) l.server
  ok (record l { server = s; read_by_server = length l.client.sent })

-- So many times to the client and back.
pub rounds : ℕ → Link → Result Link
unfolding to_client to_server
rounds zero l = ok l
rounds (suc n) l = do l₁ ← to_client l; l₂ ← to_server l₁; rounds n l₂
