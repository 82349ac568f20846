-- ===== src/Address/Laws.antt =====
-- inet_address.cc and uninet.cc: what is read back from an address.
use m_server.Prelude.{
  ℕ, ◌^◌, ◌<◌, ◌≡◌, refl, ap₂, Option-cases, inl, inr, some, List, [], ◌∷◌, ◌++◌, none, All, arith,
}
use m_server.Prelude.Decimal.{to_string, to_string_injective}
use m_server.Address.{
  host_sockaddr_in, peer_sockaddr_in, Inet, InetLaws, InetAddress, from_ip, port, ip, adress,
  from_sockaddr, get_sockaddr,
}

-- The members are in the ranges of their types.
pub record IsWord (a : InetAddress) : Type 0 where
  pub port_bound : a.sin_port < 2 ^ 16
  pub addr_bound : a.sin_addr < 2 ^ 32

-- An address that is passed as a `sockaddr` and read as a `sockaddr_in` again is the same address.
pub from_sockaddr-get_sockaddr : (a : InetAddress) → IsWord a → from_sockaddr (get_sockaddr a) ≡ a
unfolding from_sockaddr get_sockaddr
from_sockaddr-get_sockaddr a v = ground arith

module _ (inet : Inet) (laws : InetLaws inet) where
  open laws use {htons_bound, ntohs-htons, pton_bound, pton-ntop, ntop-All}

  from_ip-IsWord : (text : List ℕ) (p : ℕ) → p < 2 ^ 16 → IsWord (from_ip inet text p)
  unfolding from_ip
  from_ip-IsWord text p h = elim (Option-cases (inet.inet_pton text)) [
    | inl e ↦ ground (arith, htons_bound p h)
    | inr (a, e) ↦ ground (arith, htons_bound p h, pton_bound text a e)
  ]

  -- An address made of a text that `inet_ntop` prints and a port, also when it has been passed to the
  -- kernel and back, has that text and that port.
  pub from_ip_lem :
      (a p : ℕ)
      → a < 2 ^ 32
      → p < 2 ^ 16
      → let made = from_ip inet (inet.inet_ntop a) p in
        (ip inet made ≡ inet.inet_ntop a)
        × (port inet made ≡ p)
        × (from_sockaddr (get_sockaddr made) ≡ made)
  unfolding from_ip ip port
  from_ip_lem a p h k = (
    ground (arith, pton-ntop a),
    ground (arith, ntohs-htons p),
    from_sockaddr-get_sockaddr (from_ip inet (inet.inet_ntop a) p)
        (from_ip-IsWord (inet.inet_ntop a) p k),
  )

  -- A socket bound to an address has that address.
  pub host_sockaddr_in-get_sockaddr :
      (text : List ℕ) (p : ℕ)
      → p < 2 ^ 16
      → let made = from_ip inet text p in
        (host_sockaddr_in (some (get_sockaddr made)) ≡ made)
        × (peer_sockaddr_in (some (get_sockaddr made)) ≡ made)
  unfolding host_sockaddr_in peer_sockaddr_in from_sockaddr
  host_sockaddr_in-get_sockaddr text p h =
      let made = from_ip inet text p in
      let back = from_sockaddr-get_sockaddr made (from_ip-IsWord text p h) in (back, back)

  -- A text that is no address is taken for 0.0.0.0, without an error.
  pub ip-unreadable :
      (text : List ℕ) (p : ℕ)
      → inet.inet_pton text ≡ none
      → ip inet (from_ip inet text p) ≡ inet.inet_ntop 0
  unfolding from_ip ip
  ip-unreadable text p e = ground arith

-- The parts of a text at its first colon.
split_at_colon :
    (xs ys us vs : List ℕ)
    → All (λ c. c < 58) xs
    → All (λ c. c < 58) ys
    → xs ++ (b':' ∷ us) ≡ ys ++ (b':' ∷ vs)
    → (xs ≡ ys) × (us ≡ vs)
split_at_colon [] [] us vs h k e = (refl, cc)
split_at_colon [] (y ∷ ys) us vs h k e = ground arith
split_at_colon (x ∷ xs) [] us vs h k e = ground arith
split_at_colon (x ∷ xs) (y ∷ ys) us vs h k e =
    let both : (x ≡ y) × (xs ++ (b':' ∷ us) ≡ ys ++ (b':' ∷ vs)) = (cc, cc) in
    let (p, q) = split_at_colon xs ys us vs h.1 k.1 both.1 in (ap₂ ◌∷◌ both.0 p, q)

-- Two addresses with the same `adress()`, the name that a server on it gets, have the same `ip()` and
-- the same `port()`.
pub adress_injective :
    (inet : Inet) (laws : InetLaws inet) (a b : InetAddress)
    → adress inet a ≡ adress inet b
    → (ip inet a ≡ ip inet b) × (port inet a ≡ port inet b)
unfolding adress ip
adress_injective inet laws a b e =
    let (same, digits) =
      split_at_colon (ip inet a) (ip inet b) (to_string (port inet a)) (to_string (port inet b))
        (laws.ntop-All a.sin_addr) (laws.ntop-All b.sin_addr) e in
    (same, to_string_injective (port inet a) (port inet b) digits)
