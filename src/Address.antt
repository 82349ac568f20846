-- ===== src/Address.antt =====
-- src/net/include/inet_address.hh, src/net/source/inet_address.cc and the namespace uni_addr of
-- src/net/include/uninet.hh and src/net/source/uninet.cc: the address of a peer. A text is a list of
-- ASCII codes.
pub mod Laws
use m_server.Prelude.{
  ℕ, ◌+◌, ◌*◌, ◌/◌, ◌%◌, ◌^◌, ◌<◌, ◌≡◌, List, [], ◌∷◌, ◌++◌, Option, none, some, replicate, All,
}
use m_server.Prelude.Decimal.{to_string}

-- The C library: <arpa/inet.h>, with an IPv4 address as the number in `sin_addr`.
pub record Inet : Type 0 where
  pub htons : ℕ → ℕ
  pub ntohs : ℕ → ℕ
  pub inet_pton : List ℕ → Option ℕ
  pub inet_ntop : ℕ → List ℕ

-- What its documentation says.
pub record InetLaws (inet : Inet) : Type 0 where
  pub htons_bound : (p : ℕ) → p < 2 ^ 16 → inet.htons p < 2 ^ 16
  pub ntohs-htons : (p : ℕ) → p < 2 ^ 16 → inet.ntohs (inet.htons p) ≡ p
  pub pton_bound : (ip : List ℕ) (a : ℕ) → inet.inet_pton ip ≡ some a → a < 2 ^ 32
  pub pton-ntop : (a : ℕ) → a < 2 ^ 32 → inet.inet_pton (inet.inet_ntop a) ≡ some a
  -- Dotted-decimal text has dots and digits.
  pub ntop-All : (a : ℕ) → All (λ c. c < 58) (inet.inet_ntop a)

abbrev pub af_inet : ℕ
af_inet = 2

pub record SockaddrIn : Type 0 where
  pub sin_family : ℕ
  pub sin_port : ℕ
  pub sin_addr : ℕ
  pub sin_zero : List ℕ

-- `sa_data` is 14 bytes.
pub record Sockaddr : Type 0 where
  pub sa_family : ℕ
  pub sa_data : List ℕ

-- The bytes of a number, the least first, and the number that bytes stand for.
abbrev pub bytes2 : ℕ → List ℕ
bytes2 x = x % 256 ∷ x / 256 % 256 ∷ []

abbrev pub bytes4 : ℕ → List ℕ
bytes4 x = x % 256 ∷ x / 256 % 256 ∷ x / 65536 % 256 ∷ x / 16777216 % 256 ∷ []

abbrev pub number : List ℕ → ℕ
number [] = 0
number (b ∷ bs) = b + 256 * number bs

-- `cast2addr`: the same memory, read as a `sockaddr`, on a little-endian machine.
pub cast2addr : SockaddrIn → Sockaddr
cast2addr a = record {
  sa_family = a.sin_family;
  sa_data = bytes2 a.sin_port ++ (bytes4 a.sin_addr ++ a.sin_zero);
}

-- A `sockaddr_in` in the bytes behind the family.
as_sockaddr_in : ℕ → List ℕ → SockaddrIn
as_sockaddr_in family (p₀ ∷ p₁ ∷ a₀ ∷ a₁ ∷ a₂ ∷ a₃ ∷ zeros) = record {
  sin_family = family;
  sin_port = number (p₀ ∷ p₁ ∷ []);
  sin_addr = number (a₀ ∷ a₁ ∷ a₂ ∷ a₃ ∷ []);
  sin_zero = zeros;
}
as_sockaddr_in family _ = record { sin_family = family; sin_port = 0; sin_addr = 0; sin_zero = [] }

-- `cast2addr_in`, the other way.
pub cast2addr_in : Sockaddr → SockaddrIn
unfolding as_sockaddr_in
cast2addr_in a = as_sockaddr_in a.sa_family a.sa_data

-- `host_sockaddr_in` and `peer_sockaddr_in`, given what `getsockname` or `getpeername` writes over the
-- zeros: nothing when it fails.
unfoldable pub host_sockaddr_in : Option Sockaddr → SockaddrIn
unfolding cast2addr_in
host_sockaddr_in written =
    cast2addr_in
      (elim written [ some a ↦ a | none ↦ record { sa_family = 0; sa_data = replicate 14 0 } ])

unfoldable pub peer_sockaddr_in : Option Sockaddr → SockaddrIn
unfolding cast2addr_in
peer_sockaddr_in written =
    cast2addr_in
      (elim written [ some a ↦ a | none ↦ record { sa_family = 0; sa_data = replicate 14 0 } ])

module _ (inet : Inet) where
  -- `inet_pton` leaves the zeros of `memset` where it does not read an address; its result is
  -- dropped.
  pub construct_sockaddr_in : List ℕ → ℕ → SockaddrIn
  construct_sockaddr_in ip port = record {
    sin_family = af_inet;
    sin_port = inet.htons port;
    sin_addr = elim (inet.inet_pton ip) [ some a ↦ a | none ↦ 0 ];
    sin_zero = replicate 8 0;
  }

  unfoldable pub get_port : SockaddrIn → ℕ
  get_port a = inet.ntohs a.sin_port

  unfoldable pub get_ip : SockaddrIn → List ℕ
  get_ip a = inet.inet_ntop a.sin_addr

-- `inet_address`: its constructors and its methods.
abbrev pub InetAddress : Type 0
InetAddress = SockaddrIn

module _ (inet : Inet) where
  pub from_ip : List ℕ → ℕ → InetAddress
  unfolding construct_sockaddr_in
  from_ip ip port = construct_sockaddr_in inet ip port

  unfoldable pub port : InetAddress → ℕ
  unfolding get_port
  port a = get_port inet a

  unfoldable pub ip : InetAddress → List ℕ
  unfolding get_ip
  ip a = get_ip inet a

  -- `ip() + ":" + std::to_string(port())`.
  unfoldable pub adress : InetAddress → List ℕ
  unfolding ip port
  adress a = ip a ++ (b':' ∷ to_string (port a))

-- `inet_address(sockaddr)` and `get_sockaddr`.
pub from_sockaddr : Sockaddr → InetAddress
unfolding cast2addr_in
from_sockaddr a = cast2addr_in a

pub get_sockaddr : InetAddress → Sockaddr
unfolding cast2addr
get_sockaddr a = cast2addr a
