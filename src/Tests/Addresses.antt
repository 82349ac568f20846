-- ===== src/Tests/Addresses.antt =====
-- Runs of the addresses of src/net/source/inet_address.cc, with a C library that writes an address
-- as one decimal number.
use m_server.Prelude.{
  ℕ, ◌+◌, ◌*◌, ◌/◌, ◌%◌, ◌^◌, ◌<◌, ◌≡◌, List, [], ◌∷◌, none, some, replicate, All, if◌then◌else◌,
  ltb, arith,
}
use m_server.Prelude.Decimal.{to_string, value_from, value_from-to_string, to_string-All, IsDigit}
use m_server.Address.{Inet, InetLaws, InetAddress, from_ip, port, ip, from_sockaddr, get_sockaddr}
use m_server.Address.Laws.{from_ip_lem}

abbrev swap : ℕ → ℕ
swap p = p % 256 * 256 + p / 256 % 256

abbrev inet : Inet
inet = record {
  htons = swap;
  ntohs = swap;
  inet_pton = λ text. let a = value_from 0 text in if ltb a (2 ^ 32) then some a else none;
  inet_ntop = to_string;
}

below : (xs : List ℕ) → All IsDigit xs → All (λ c. c < 58) xs
below [] h = tt
below (x ∷ xs) h = (omega (arith, h.0), below xs h.1)

laws : InetLaws inet
laws = record {
  htons_bound = λ p h. omega arith;
  ntohs-htons = λ p h. omega arith;
  pton_bound = λ text a e. ground arith;
  pton-ntop = λ a h. ground (arith, value_from-to_string a);
  ntop-All = λ a. below (to_string a) (to_string-All a);
}

abbrev host : InetAddress
host = record { sin_family = 2; sin_port = 36895; sin_addr = 16777343; sin_zero = replicate 8 0 }

-- The same with other padding.
abbrev padded : InetAddress
padded = record host { sin_zero = replicate 8 1 }

from_ip_example :
    let made = from_ip inet (to_string 16777343) 8080 in
    (ip inet made ≡ to_string 16777343)
    × (port inet made ≡ 8080)
    × (from_sockaddr (get_sockaddr made) ≡ made)
from_ip_example = from_ip_lem inet laws 16777343 8080 (omega arith) (omega arith)
