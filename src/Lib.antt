-- ===== src/Lib.antt =====
-- M-Server, an event-driven TCP library in the style of one loop per thread. An `event_loop` polls
-- descriptors through a `spoller`, gives each event to its `poll_handle` and so to the handler bound to
-- it, and then calls the functors that were left with it. The handlers are the waker (through which
-- other threads interrupt the poll), the `timer_queue`, the `acceptor`, the `connector` and each
-- `tcp_connection` with its two `buffer`s. A `tcp_server` joins an acceptor, the loops of a
-- `loop_thread_pool` and a map of connections.
--
-- The files, with what they model (paths from the repository's root):
--   Prelude            lists, order, signed integers and decimal text over native numbers; `Result`, the
--                      outcome of a call: a value, or a failed assert, an exception or undefined
--                      behaviour
--   Buffer             src/net/include/buffer.hh, src/net/source/buffer.cc; one definition for each
--                      method, under its name. Bounds has the order of the indices, Content the bytes,
--                      Stream runs of calls against a queue of bytes
--   Polling            src/net/source/poll_handle.cc (Mask, Handle, with the setters of
--                      src/net/include/poll_handle.hh) and src/net/source/poll/spoller.cc (Spoller,
--                      with the table of handles and the pollfd vector); Epoller is
--                      src/net/source/poll/epoller.cc
--   Timers             src/base/source/clock.cc (Clock), src/net/source/timer.cc (Timer) and
--                      src/net/source/timer_queue.cc (Queue, with the ordered map of timers; Handles,
--                      the timer_handle of src/net/include/timer_queue.hh)
--   EventLoop          src/net/source/event_loop.cc and src/net/source/poller_waker.cc: the operations in
--                      one thread, in Threads the steps of all threads in any order, and in
--                      Confined the calls of threads that the loop tells apart by CurrentThread
--   SysFd              src/base/include/sys_fd.hh and src/base/source/sys_fd.cc
--   CurrentThread      src/base/source/current_thread.cc: the ids of threads
--   Reactor            src/net/source/event_loop.cc with src/net/source/poller_waker.cc and
--                      src/net/source/timer_queue.cc: a loop joined with its poller (Polling), its
--                      waker and its timers (Timers), built from the operations of those models. Start
--                      has the constructor and a wakeup, Opening the descriptors that it opens,
--                      Round what a round calls, Timing the timers
--   Connection         src/net/source/tcp_connection.cc: the handlers and the state machine; Setters has
--                      the callback setters of src/net/include/tcp_connection.hh, Identity the name,
--                      the socket and the addresses. Events has runs of the operations;
--                      Early, Sending, Output, Reading, Life and Closing are about them
--   Connector          src/net/source/connector.cc; Retry is about the delays, Attempts about attempts
--                      that fail and one that succeeds, Handover about what follows
--   Client             src/net/source/tcp_client.cc: a connector (Connector) and the connection
--                      (Connection) made of its socket; Session has runs of both,
--                      Connects its attempts and its connection to the end, Setters the
--                      setters of src/net/include/tcp_client.hh
--   Server             src/net/source/acceptor.cc and src/net/source/tcp_server.cc; Live has runs of its
--                      operations against the numbers of the live connections, Names the names
--                      that it gives them, Accepting the system calls about the listening socket,
--                      Setters the setters of
--                      src/net/include/tcp_server.hh and a server from them on;
--                      Server/Pool is src/net/source/loop_thread_pool.cc
--   Service            src/net/source/tcp_server.cc with src/net/source/tcp_connection.cc: a server
--                      (Server), the connections that it made (Connection) and the functors that wait
--                      in their loops, run in any order. Invariant has how these agree, Runs whole runs,
--                      Ends what becomes of a connection that is closed; Ready has what the
--                      functors need of their connections, Drain that they are all run
--   Latch              src/base/source/latch.cc: a latch and the threads that wait for it
--   LoopThread         src/net/source/loop_thread.cc: the start and the end of a thread, as steps of
--                      its owner and of the thread; Progress is about how far the two get, Object has
--                      the object as its owner calls it
--   Thread             src/base/source/thread.cc: the object, and the std::thread that it points to
--   Socket             src/net/source/socket.cc and, of src/net/source/uninet.cc, the namespace sock_op.
--                      Requests has the system calls that its functions make, Methods those of the
--                      methods of a socket, Ownership the descriptors of a process and the objects that
--                      own them
--   Address            src/net/source/inet_address.cc and, of src/net/source/uninet.cc and
--                      src/net/include/uninet.hh, the namespace uni_addr; the C library is a record of
--                      its functions (Inet) and a record of what is known of them (InetLaws)
--   Pingpong           example/pingpong/pingpong_server.cc, on Connection; Client is
--                      example/pingpong/pingpong_client.cc and the link between the two
--   TimeServer         example/time_server/time_server.cc, on Connection
--   Tests              runs at concrete inputs
--
-- Conventions. A `size_t` is a number with its wrap-around written out, a `char` a number, a pointer to
-- an object of the library an option, a name, an id or a state. The state of an object is a record
-- with the source's members; a member that the record adds (bytes sent, callbacks called, requests made
-- of a descriptor) records what the object did. What the kernel answers (readv, write, poll, connect,
-- accept, getsockopt, the clock) is an argument of the function that asks, and so is what a callback
-- of the application does. `assert` is taken to be active. Code that relies on the order of threads is
-- a relation between states, one step for each part that the code runs under its lock and for each
-- write to the waker; memory is sequentially consistent there. No loop of
-- the code needs fuel: each is over a list, or over the rounds in which `poll` returns; the digits of a
-- number are printed with more fuel than the number. `parse_time_duration` divides in `double` and
-- stores the seconds in an `int`; it is modelled by the numbers, with which it agrees below 2^53
-- nanoseconds. A round of the loop leaves open what its functors do, but lets the callbacks of timers
-- only add and cancel timers. In Service `register_connection` is one step: the functor that the
-- constructor leaves runs after the callbacks are set, which the code does not make sure of. There
-- a write-complete functor only calls the application.
--
-- Not modelled: output for people (logger, the output operators), what the unfinished `epoller` does not
-- define, the program of the tests, and what each main does besides setting callbacks. The order of
-- std::map is modelled for the timers, where the code uses it, and not for the connections.
pub mod Prelude
pub mod Buffer
pub mod Polling
pub mod Timers
pub mod CurrentThread
pub mod EventLoop
pub mod Connection
pub mod Connector
pub mod Server
pub mod Latch
pub mod LoopThread
pub mod Service
pub mod Socket
pub mod Address
pub mod Client
pub mod Reactor
pub mod Pingpong
pub mod Thread
pub mod TimeServer
mod Tests
pub mod SysFd
