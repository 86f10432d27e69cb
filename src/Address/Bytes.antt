-- ===== src/Address/Bytes.antt =====
-- The constructors of an address, and what is read back from it.
use hvnetpp.Prelude.{
  ℕ, ◌+◌, ◌*◌, ◌/◌, ◌%◌, ◌≤◌, ◌<◌, ◌≡◌, refl, ap, ◌∙◌, Bool, true, false, List, ◌++◌, ltb,
  if◌then◌else◌, length, take, drop, overwrite, replicate, arith, take-append, take_all,
}
use hvnetpp.Address.{
  htons, af_inet, af_inet6, sockaddr_in, sockaddr_in6, copied, of_port, of_sockaddr, to_port,
  is_valid, family, size_storage, loopback4, loopback6,
}

pub htons-htons : (v : ℕ) → v < 65536 → htons (htons v) ≡ v
htons-htons v h = omega arith

-- What is read from the memory of a stored `uint16_t`.
pub stored : (v : ℕ) → v < 65536 → v % 256 + 256 * (v / 256 % 256) ≡ v
stored v h = omega arith

pub htons-lt : (v : ℕ) → htons v < 65536
htons-lt v = omega arith

pub to_port-copied4 :
    (port : ℕ) (ip : List ℕ) → port < 65536 → to_port (copied (sockaddr_in port ip)) ≡ port
unfolding to_port
to_port-copied4 port ip h = ap htons (stored (htons port) (htons-lt port)) ∙ htons-htons port h

pub to_port-copied6 :
    (port : ℕ) (ip : List ℕ) → port < 65536 → to_port (copied (sockaddr_in6 port ip)) ≡ port
unfolding to_port
to_port-copied6 port ip h = ap htons (stored (htons port) (htons-lt port)) ∙ htons-htons port h

-- An address of any interface, or of the loopback, is valid, of the family and the port asked for.
pub of_port_lem :
    (port : ℕ) (loopback_only ipv6 : Bool)
    → port < 65536
    → (is_valid (of_port port loopback_only ipv6) ≡ true)
      × (family (of_port port loopback_only ipv6) ≡ (if ipv6 then af_inet6 else af_inet))
      × (to_port (of_port port loopback_only ipv6) ≡ port)
unfolding of_port
of_port_lem port true true h = (refl, refl, to_port-copied6 port loopback6 h)
of_port_lem port false true h = (refl, refl, to_port-copied6 port (replicate 16 0) h)
of_port_lem port true false h = (refl, refl, to_port-copied4 port loopback4 h)
of_port_lem port false false h = (refl, refl, to_port-copied4 port (replicate 4 0) h)

-- An address that was made from a structure comes back from its `sockaddr` and length: as `accept`
-- and `getsockname` give it, or as `bind` and `sendto` are given it.
pub of_sockaddr-copied :
    (bytes : List ℕ)
    → length bytes ≤ size_storage
    → of_sockaddr (copied bytes).addr (copied bytes).len ≡ copied bytes
unfolding of_sockaddr
of_sockaddr-copied bytes h =
    let e : (if ltb (length bytes) size_storage then length bytes else size_storage)
        ≡ length bytes =
      ground arith in
    let t : take (length bytes) (bytes ++ drop (0 + length bytes) (replicate size_storage 0))
        ≡ bytes =
      take-append (length bytes) bytes _ (omega arith)
      ∙ take_all (length bytes) bytes (omega arith) in
    ap
      (λ n. record {
        addr = overwrite 0 (take n (copied bytes).addr) (replicate size_storage 0);
        len = length bytes;
      })
      e
    ∙ ap (λ x. record { addr = overwrite 0 x (replicate size_storage 0); len = length bytes }) t
