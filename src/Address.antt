-- ===== src/Address.antt =====
-- src/InetAddress.cpp and include/hvnetpp/InetAddress.h, with the parts of src/SocketsOps.cpp and
-- src/Resolver.cpp that work on addresses. An address is its `sockaddr_storage`, byte by byte, on a
-- little-endian host with Linux's layout of the structures. `inet_pton`, `inet_ntop` and
-- `getaddrinfo` are parameters; a text is the list of its characters.
pub mod Bytes
pub mod Parse
pub mod Resolve
mod Tests
use hvnetpp.Prelude.{
  ℕ, zero, suc, ◌+◌, ◌-◌, ◌*◌, ◌/◌, ◌%◌, Bool, true, false, List, [], ◌∷◌, ◌++◌, Option, none, some,
  ltb, leb, ◌==◌, ◌&&◌, ◌||◌, not, if◌then◌else◌, min, length, take, drop, slice, overwrite,
  replicate, Result, ok, err, assert, ◌>>=◌, ◌>>◌, ℤ, pos, negsuc,
}
use hvnetpp.TcpServer.{print_int}
use mathlib.Core.Option

-- A `uint16_t` in memory, and back.
abbrev pub store16 : ℕ → List ℕ
store16 v = (v % 256) ∷ (v / 256 % 256) ∷ []

abbrev pub byte_at : ℕ → List ℕ → ℕ
byte_at i [] = 0
byte_at i (b ∷ bs) = if i == 0 then b else byte_at (i - 1) bs

abbrev pub load16 : ℕ → List ℕ → ℕ
load16 i bytes = byte_at i bytes + 256 * byte_at (i + 1) bytes

abbrev pub load32 : ℕ → List ℕ → ℕ
load32 i bytes = load16 i bytes + 65536 * load16 (i + 2) bytes

-- `htons` and `ntohs` swap the bytes.
abbrev pub htons : ℕ → ℕ
htons v = v % 256 * 256 + v / 256 % 256

abbrev pub af_unspec : ℕ
af_unspec = 0

abbrev pub af_inet : ℕ
af_inet = 2

abbrev pub af_inet6 : ℕ
af_inet6 = 10

-- The sizes of `sockaddr_in`, `sockaddr_in6` and `sockaddr_storage`.
abbrev pub size_in : ℕ
size_in = 16

abbrev pub size_in6 : ℕ
size_in6 = 28

abbrev pub size_storage : ℕ
size_storage = 128

pub record InetAddress : Type 0 where
  pub addr : List ℕ
  pub len : ℕ

-- The structures, for an address of 4 or of 16 bytes in network order.
abbrev pub sockaddr_in : ℕ → List ℕ → List ℕ
sockaddr_in port ip = store16 af_inet ++ (store16 (htons port) ++ (ip ++ replicate 8 0))

abbrev pub sockaddr_in6 : ℕ → List ℕ → List ℕ
sockaddr_in6 port ip =
    store16 af_inet6 ++ (store16 (htons port) ++ (replicate 4 0 ++ (ip ++ replicate 4 0)))

-- The storage is zeroed and the structure copied to its start.
abbrev pub copied : List ℕ → InetAddress
copied bytes = record { addr = overwrite 0 bytes (replicate size_storage 0); len = length bytes }

abbrev pub loopback4 : List ℕ
loopback4 = 127 ∷ 0 ∷ 0 ∷ 1 ∷ []

abbrev pub loopback6 : List ℕ
loopback6 = replicate 15 0 ++ (1 ∷ [])

pub of_port : ℕ → Bool → Bool → InetAddress
of_port port loopback_only ipv6 =
    if ipv6
    then copied (sockaddr_in6 port (if loopback_only then loopback6 else replicate 16 0))
    else copied (sockaddr_in port (if loopback_only then loopback4 else replicate 4 0))

pub loopback : ℕ → Bool → InetAddress
unfolding of_port
loopback port ipv6 = of_port port true ipv6

pub any : ℕ → Bool → InetAddress
unfolding of_port
any port ipv6 = of_port port false ipv6

-- The address that no literal gave.
abbrev pub invalid : InetAddress
invalid = record { addr = replicate size_storage 0; len = 0 }

abbrev pub sockaddr_of : Bool → ℕ → List ℕ → List ℕ
sockaddr_of ipv6 port ip = if ipv6 then sockaddr_in6 port ip else sockaddr_in port ip

-- `pton family text` is none where `inet_pton` returns 0 or -1.
pub from_ip_port : (ℕ → List ℕ → Option (List ℕ)) → List ℕ → ℕ → Bool → Option (List ℕ)
from_ip_port pton text port ipv6 =
    Option.map (sockaddr_of ipv6 port) (pton (if ipv6 then af_inet6 else af_inet) text)

abbrev pub copied_or_invalid : Option (List ℕ) → InetAddress
copied_or_invalid none = invalid
copied_or_invalid (some bytes) = copied bytes

pub of_literal : (ℕ → List ℕ → Option (List ℕ)) → List ℕ → ℕ → Bool → InetAddress
unfolding from_ip_port
of_literal pton text port ipv6 = copied_or_invalid (from_ip_port pton text port ipv6)

-- From a `sockaddr` of `n` bytes.
pub of_sockaddr : List ℕ → ℕ → InetAddress
of_sockaddr bytes n =
    let copy_len = if ltb n size_storage then n else size_storage in
    record { addr = overwrite 0 (take copy_len bytes) (replicate size_storage 0); len = n }

abbrev pub family : InetAddress → ℕ
family a = load16 0 a.addr

abbrev pub is_ipv4 : InetAddress → Bool
is_ipv4 a = family a == af_inet

abbrev pub is_ipv6 : InetAddress → Bool
is_ipv6 a = family a == af_inet6

abbrev pub is_valid : InetAddress → Bool
is_valid a = not (a.len == 0) && (is_ipv4 a || is_ipv6 a)

pub try_parse : (ℕ → List ℕ → Option (List ℕ)) → List ℕ → ℕ → Bool → Bool × InetAddress
unfolding of_literal
try_parse pton text port ipv6 = let a = of_literal pton text port ipv6 in (is_valid a, a)

-- `sin_port` and `sin6_port` stand at the same place.
abbrev pub port_net_endian : InetAddress → ℕ
port_net_endian a = load16 2 a.addr

pub to_port : InetAddress → ℕ
to_port a = htons (port_net_endian a)

pub ip_net_endian : InetAddress → Result ℕ
ip_net_endian a = do assert (is_ipv4 a); ok (load32 4 a.addr)

-- The bytes of the address.
abbrev pub ip_of : InetAddress → List ℕ
ip_of a = if is_ipv4 a then slice 4 4 a.addr else slice 8 16 a.addr

-- `ntop family bytes` is what `inet_ntop` writes. The buffers, of 46 and of 64 characters, satisfy
-- the assertions.
pub to_ip : (ℕ → List ℕ → List ℕ) → InetAddress → List ℕ
to_ip ntop a =
    if is_ipv4 a
    then ntop af_inet (slice 4 4 a.addr)
    else (if is_ipv6 a then ntop af_inet6 (slice 8 16 a.addr) else [])

-- `snprintf` stores 63 characters at most.
pub to_ip_port : (ℕ → List ℕ → List ℕ) → InetAddress → List ℕ
unfolding to_ip to_port
to_ip_port ntop a =
    if is_ipv4 a
    then take 63 (to_ip ntop a ++ (58 ∷ print_int 10 (to_port a)))
    else (if is_ipv6 a
        then take 63 (91 ∷ (to_ip ntop a ++ (93 ∷ 58 ∷ print_int 10 (to_port a))))
        else [])

-- `sockaddrLength`
pub sockaddr_length : List ℕ → ℕ
sockaddr_length bytes = if load16 0 bytes == af_inet6 then size_in6 else size_in

-- `getLocalAddr` and `getPeerAddr`: `got` is none where the system call fails.
pub address_of_socket : Option (List ℕ × ℕ) → InetAddress
unfolding of_sockaddr
address_of_socket none = of_sockaddr (replicate size_storage 0) size_storage
address_of_socket (some (bytes, n)) = of_sockaddr bytes n

abbrev pub same_bytes : List ℕ → List ℕ → Bool
same_bytes [] [] = true
same_bytes [] (y ∷ ys) = false
same_bytes (x ∷ xs) [] = false
same_bytes (x ∷ xs) (y ∷ ys) = (x == y) && same_bytes xs ys

pub is_self_connect : InetAddress → InetAddress → Bool
is_self_connect l p =
    if is_ipv4 l && is_ipv4 p
    then (port_net_endian l == port_net_endian p) && (load32 4 l.addr == load32 4 p.addr)
    else (if is_ipv6 l && is_ipv6 p
        then (port_net_endian l == port_net_endian p)
          && same_bytes (slice 8 16 l.addr) (slice 8 16 p.addr)
        else false)

-- An entry of the list that `getaddrinfo` gives.
pub record Info : Type 0 where
  pub ai_family : ℕ
  pub ai_addrlen : ℕ
  pub ai_addr : List ℕ

abbrev pub eai_family : ℤ
eai_family = negsuc 5

abbrev pub eai_noname : ℤ
eai_noname = negsuc 1

-- The structure with its port replaced.
abbrev pub with_port : ℕ → List ℕ → List ℕ
with_port port bytes = overwrite 2 (store16 (htons port)) bytes

-- Whether the loop stops at the entry, and with which address.
pub usable : ℕ → Info → Option InetAddress
usable port i =
    if (i.ai_family == af_inet) && leb size_in i.ai_addrlen
    then some (copied (with_port port (take size_in i.ai_addr)))
    else (if (i.ai_family == af_inet6) && leb size_in6 i.ai_addrlen
        then some (copied (with_port port (take size_in6 i.ai_addr)))
        else none)

pub first_usable : ℕ → List Info → Option InetAddress
unfolding usable
first_usable port [] = none
first_usable port (i ∷ is) =
    let rest = first_usable port is in elim (usable port i) [ none ↦ rest | some a ↦ some a ]

-- What `resolve` leaves: an error code, or the address, with the error code 0.
pub data Resolved : Type 0 where
  failed : ℤ → Resolved
  resolved : InetAddress → Resolved

abbrev pub chosen : Option InetAddress → Resolved
chosen none = failed eai_noname
chosen (some a) = resolved a

abbrev pub is_zero : ℤ → Bool
is_zero (pos zero) = true
is_zero (pos (suc n)) = false
is_zero (negsuc n) = false

-- After `getaddrinfo` has returned `ret` and its list.
pub answered : ℕ → ℤ × List Info → Resolved
unfolding first_usable
answered port (ret, []) = failed (if is_zero ret then eai_noname else ret)
answered port (ret, i ∷ is) =
    if is_zero ret then chosen (first_usable port (i ∷ is)) else failed ret

-- `getaddrinfo` is given the family and the kind of socket as hints.
pub resolve : (List ℕ → ℕ → ℕ → ℤ × List Info) → List ℕ → ℕ → ℕ → ℕ → Resolved
unfolding answered
resolve getaddrinfo hostname port fam socktype =
    if (fam == af_unspec) || (fam == af_inet) || (fam == af_inet6)
    then answered port (getaddrinfo hostname fam socktype)
    else failed eai_family
