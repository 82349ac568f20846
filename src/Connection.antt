-- ===== src/Connection.antt =====
-- src/net/include/tcp_connection.hh and src/net/source/tcp_connection.cc: one TCP connection, as its
-- own loop's thread drives it. What the socket answers and what the message callback does with the
-- input buffer are arguments; the other callbacks and the functors left with the loop are noted in
-- the order of the calls.
pub mod Sending
pub mod Output
pub mod Events
pub mod Life
pub mod Closing
pub mod Early
pub mod Identity
pub mod Setters
pub mod Reading
use m_server.Prelude.{
  ℕ, ◌+◌, ◌-◌, List, [], ◌∷◌, ◌++◌, Option, none, some, Bool, true, false, not, ◌&&◌, ◌||◌, ltb,
  leb, ◌==◌, if◌then◌else◌, length, take, drop, Result, ok, err, aborted, undefined,
  bad_function_call, check, ◌>>=◌, ◌>>◌,
}
use m_server.Buffer.{
  Buffer, size_mod, sub_size, add_size, Readv, read_socket, append, retrieve, readable_bytes,
  writeable_bytes, peek,
}
use m_server.Polling.Mask.{Mask, event_none}
use m_server.Polling.Handle.{
  Change, changed, enable_reading, enable_writing, disable_writing, disable_all,
}

-- `state_e`.
pub data State : Type 0 where
  connecting connected disconnecting disconnected : State

-- Callbacks called, and functors left with the loop by `queue_in_loop` or `run_in_loop`.
pub data Notice : Type 0 where
  connection_cb message_cb close_cb write_complete_cb high_watermark_cb : Notice
  queue_write_complete queue_destroyed queue_shotdown queue_send : Notice

-- Which callbacks are set.
pub record Callbacks : Type 0 where
  pub connection : Bool
  pub message : Bool
  pub close : Bool
  pub write_complete : Bool
  pub high_watermark : Bool

-- `events` is that of `*poll_hd_`, `none` for a null `poll_hd_`. `sent` lists the bytes that the
-- socket has taken, `shut` says whether its write side was shut down, and `notices` the calls.
pub record Connection : Type 0 where
  pub state : State
  pub inp_buffer : Buffer
  pub oup_buffer : Buffer
  pub high_watermark : ℕ
  pub set : Callbacks
  pub events : Option Mask
  pub sent : List ℕ
  pub shut : Bool
  pub notices : List Notice

-- The constructor, around two new buffers. The callbacks are set before the loop runs its functor.
abbrev pub new : Callbacks → Buffer → Connection
new set buffer = record {
  state = connecting;
  inp_buffer = buffer;
  oup_buffer = buffer;
  high_watermark = 67108864;
  set = set;
  events = none;
  sent = [];
  shut = false;
  notices = [];
}

note : Notice → Connection → Connection
note n c = record c { notices = c.notices ++ n ∷ [] }

-- `if (cb) cb(...)`.
note_if : Bool → Notice → Connection → Connection
unfolding note
note_if set n c = if set then note n c else c

-- A call of a callback without a test.
must_note : Bool → Notice → Connection → Result Connection
unfolding note
must_note set n c = if set then ok (note n c) else err bad_function_call

-- `poll_hd_->...`.
abbrev handle : Connection → Result Mask
handle c = elim c.events [ some m ↦ ok m | none ↦ err undefined ]

change : Change → Connection → Result Connection
change ch c = do m ← handle c; ok (record c { events = some (changed ch m) })

-- What `socket_.write` returned: a count, or -1.
pub data Written : Type 0 where
  wrote : ℕ → Written
  write_failed : Written

-- As a `size_t`.
abbrev pub num_write : Written → ℕ
num_write (wrote n) = n
num_write write_failed = size_mod - 1

abbrev pub taken : Written → ℕ
taken (wrote n) = n
taken write_failed = 0

-- The functor that the constructor leaves with the loop.
unfoldable pub connection_estabalished : Connection → Result Connection
unfolding change note_if note
connection_estabalished c = do
  let c₁ = record c { events = some event_none }
  elim c.state [ connecting ↦ ok tt | _ ↦ err aborted ]
  c₂ ← change enable_reading (record c₁ { state = connected })
  ok (note_if c.set.connection connection_cb c₂)

-- The functor that `handle_close` leaves with the loop.
unfoldable pub connection_destroyed : Connection → Result Connection
unfolding must_note note
connection_destroyed c = do
  removed ← handle c
  must_note c.set.connection connection_cb (record c { state = disconnected })

-- The end of `send_in_loop`, with `skip` bytes of `msg` written and `num_remain` to be kept.
keep_rest : List ℕ → ℕ → ℕ → Mask → Connection → Result Connection
unfolding change note_if note
keep_rest msg skip num_remain m c = do
  let current = readable_bytes c.oup_buffer
  let high =
      c.set.high_watermark
      && (ltb c.high_watermark (add_size current num_remain) && ltb current c.high_watermark)
  let c₁ = note_if high high_watermark_cb c
  b ← append (drop skip msg) num_remain c.oup_buffer
  let c₂ = record c₁ { oup_buffer = b }
  if m.pollout then ok c₂ else change enable_writing c₂

-- What follows the direct write in `send_in_loop`.
send_rest : List ℕ → ℕ → ℕ → Mask → Connection → Result Connection
unfolding keep_rest note_if note
send_rest msg skip num_remain m c =
    if ltb 0 num_remain
    then keep_rest msg skip num_remain m c
    else ok (note_if c.set.write_complete queue_write_complete c)

-- `send_in_loop(msg, num_total)`, with the answer of the direct write.
pub send_in_loop : Written → List ℕ → ℕ → Connection → Result Connection
unfolding send_rest
send_in_loop answer msg num_total c = do
  m ← handle c
  let direct = not m.pollout && readable_bytes c.oup_buffer == 0
  let written = if direct then num_write answer else 0
  let c' = if direct then record c { sent = c.sent ++ take (taken answer) msg } else c
  let num_remain = if ltb 0 written then sub_size num_total written else num_total
  check (leb num_remain num_total)
  send_rest msg written num_remain m c'

-- `send(msg, len)`.
pub send : Bool → Written → List ℕ → ℕ → Connection → Result Connection
unfolding send_in_loop note
send in_loop_thread answer msg len c = elim c.state [
  | connected ↦
      if in_loop_thread
      then send_in_loop answer msg (if ltb 0 len then len else length msg) c
      else ok (note queue_send c)
  | _ ↦ ok c
]

pub shotdown_in_loop : Connection → Result Connection
shotdown_in_loop c = do m ← handle c; ok (if m.pollout then c else record c { shut = true })

unfoldable pub shotdown : Bool → Connection → Result Connection
unfolding shotdown_in_loop note
shotdown in_loop_thread c = elim c.state [
  | connected ↦
      let c' = record c { state = disconnecting } in
      if in_loop_thread then shotdown_in_loop c' else ok (note queue_shotdown c')
  | _ ↦ ok c
]

unfoldable pub handle_close : Connection → Result Connection
unfolding change must_note note
handle_close c = do
  elim c.state [ connected ↦ ok tt | disconnecting ↦ ok tt | _ ↦ err aborted ]
  c₁ ← change disable_all c
  c₂ ← must_note c.set.close close_cb c₁
  ok (note queue_destroyed c₂)

-- `handle_error` only logs.
unfoldable pub handle_error : Connection → Connection
handle_error c = c

-- `message_cb_(shared_from_this(), inp_buffer_, now)`; `consume` is what the callback does with the
-- buffer that it is given.
deliver : (Buffer → Result Buffer) → Connection → Result Connection
unfolding must_note note
deliver consume c = do
  c₁ ← must_note c.set.message message_cb c
  b ← consume c.inp_buffer
  ok (record c₁ { inp_buffer = b })

-- The size read is a `size_t`, so the last branch of the source is never taken.
pub handle_read : Readv → (Buffer → Result Buffer) → Connection → Result Connection
unfolding handle_close deliver
handle_read got consume c = do
  r ← read_socket got c.inp_buffer
  let c₁ = record c { inp_buffer = r.1 }
  if ltb 0 r.0 then deliver consume c₁ else handle_close c₁

finish_writing : Connection → Result Connection
unfolding change note_if note shotdown_in_loop
finish_writing c = do
  c₁ ← change disable_writing c
  let c₂ = note_if c.set.write_complete write_complete_cb c₁
  elim c.state [ disconnecting ↦ shotdown_in_loop c₂ | _ ↦ ok c₂ ]

-- What follows a write that took some bytes in `handle_write`.
after_write : ℕ → Connection → Result Connection
unfolding finish_writing
after_write n c = do
  b ← retrieve n c.oup_buffer
  let c₁ = record c { oup_buffer = b }
  if readable_bytes b == 0 then finish_writing c₁ else ok c₁

-- The code asks the socket to write `writeable_bytes()` bytes from `peek()`.
pub handle_write : Written → Connection → Result Connection
unfolding after_write
handle_write answer c = do
  m ← handle c
  let n = taken answer
  let c₁ = record c { sent = c.sent ++ take n (peek c.oup_buffer) }
  if m.pollout && ltb 0 n then after_write n c₁ else ok c
