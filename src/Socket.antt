-- ===== src/Socket.antt =====
-- src/net/include/socket.hh, src/net/source/socket.cc and the namespace sock_op of
-- src/net/source/uninet.cc: an object that owns a descriptor. What a system call answers is an
-- argument; a descriptor of -1 (INVAL_FD) is `none`, and an address is any type.
pub mod Counts
pub mod Requests
pub mod Methods
pub mod Ownership
pub mod Answers
use m_server.Prelude.{
  ℕ, ◌-◌, ◌%◌, ◌^◌, Option, none, some, Bool, true, false, ltb, if◌then◌else◌, List, [], ◌∷◌,
}
use m_server.Prelude.Int.{ℤ, pos, negsuc}

module _ {ℓ} (Address : Type ℓ) where
  pub record Socket : Type ℓ where
    pub fd : Option ℕ
    pub host_addrp : Option Address
    pub peer_addrp : Option Address

-- The descriptor that a member `socket_fd_` stands for.
abbrev pub owned_by : Option ℕ → List ℕ
owned_by none = []
owned_by (some fd) = fd ∷ []

module _ {ℓ} {Address : Type ℓ} where
  -- `socket()`, given what `create_tcp_socket_fd` answers, and `socket(int)`.
  abbrev pub new : Option ℕ → Socket Address
  new answer = record { fd = answer; host_addrp = none; peer_addrp = none }

  -- The move constructor: the new object, and what it leaves of the old one.
  unfoldable pub move : Socket Address → Socket Address × Socket Address
  move rs = (rs, record { fd = none; host_addrp = none; peer_addrp = none })

  unfoldable pub is_valid : Socket Address → Bool
  is_valid s = elim s.fd [ none ↦ false | some fd ↦ true ]

  -- The destructor: the descriptors that it closes.
  unfoldable pub closes : Socket Address → List ℕ
  closes s = owned_by s.fd

  -- `host_addr` and `peer_addr`, given what `getsockname` or `getpeername` fills in.
  unfoldable pub host_addr : Address → Socket Address → Address × Socket Address
  host_addr asked s = elim s.host_addrp [
    | some a ↦ (a, s)
    | none ↦ (asked, record s { host_addrp = some asked })
  ]

  unfoldable pub peer_addr : Address → Socket Address → Address × Socket Address
  peer_addr asked s = elim s.peer_addrp [
    | some a ↦ (a, s)
    | none ↦ (asked, record s { peer_addrp = some asked })
  ]

-- What a call returned: a value, or -1 with this `errno`.
pub data Answer : Type 0 where
  value : ℕ → Answer
  failed : ℕ → Answer

-- `socket::connect`.
unfoldable pub connect : Answer → ℕ
connect (value n) = 0
connect (failed errno) = errno

-- `sock_op::get_error`: the value of SO_ERROR, or the `errno` of `getsockopt`.
unfoldable pub get_error : Answer → ℕ
get_error (value optval) = optval
get_error (failed errno) = errno

-- `int ret = ::write(...)`, returned as an `ssize_t`: the low 32 bits, read as a signed number.
unfoldable pub write : Answer → ℤ
write (value n) = let w = n % 2 ^ 32 in if ltb w (2 ^ 31) then pos w else negsuc (2 ^ 32 - w - 1)
write (failed errno) = negsuc 0

-- The `errno` values that `sock_op::accept` names; `unknown` stands for all others.
pub data AcceptError : Type 0 where
  eagain econnaborted eintr eproto eperm emfile : AcceptError
  ebadf efault einval enfile enobufs enomem enotsock eopnotsupp : AcceptError
  unknown : AcceptError

-- Which line of the log an error gets.
pub data Severity : Type 0 where
  expected_error unexpected_error unknown_error : Severity

pub severity : AcceptError → Severity
severity eagain = expected_error
severity econnaborted = expected_error
severity eintr = expected_error
severity eproto = expected_error
severity eperm = expected_error
severity emfile = expected_error
severity ebadf = unexpected_error
severity efault = unexpected_error
severity einval = unexpected_error
severity enfile = unexpected_error
severity enobufs = unexpected_error
severity enomem = unexpected_error
severity enotsock = unexpected_error
severity eopnotsupp = unexpected_error
severity unknown = unknown_error

-- What `accept4` did.
pub data Accepted : Type 0 where
  connection : ℕ → Accepted
  refused : AcceptError → Accepted

-- `sock_op::accept`: the descriptor, and what is logged.
abbrev pub accepted_fd : Accepted → Option ℕ × Option Severity
accepted_fd (connection fd) = (some fd, none)
accepted_fd (refused e) = (none, some (severity e))

-- `socket::accept`. After an error `peer` is what the uninitialised `peer_sockaddr` holds.
unfoldable pub accept {ℓ} : {Address : Type ℓ} → Accepted → Address → Socket Address
accept answer peer = record {
  fd = (accepted_fd answer).0;
  host_addrp = none;
  peer_addrp = some peer;
}
