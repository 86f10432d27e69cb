-- ===== src/Address/Parse.antt =====
-- Literals: parsing and printing.
use hvnetpp.Prelude.{
  ℕ, ◌<◌, ◌≡◌, refl, subst, ap, ◌∙◌, sym, ◌⊎◌, inl, inr, Bool, true, false, List, ◌++◌, Option,
  none, some, ◌==◌, ◌&&◌, not, if◌then◌else◌, length, length-append, suc, take, arith, take-append,
  take_all,
}
use hvnetpp.Address.{
  InetAddress, af_inet, af_inet6, copied, invalid, from_ip_port, copied_or_invalid, sockaddr_of,
  of_literal, try_parse, to_port, to_ip, is_valid, family,
}
use mathlib.Core.Option
use hvnetpp.Address.Bytes.{to_port-copied4, to_port-copied6}

abbrev pub family_of : Bool → ℕ
family_of ipv6 = if ipv6 then af_inet6 else af_inet

abbrev pub ip_size : Bool → ℕ
ip_size ipv6 = if ipv6 then 16 else 4

taken_exact : (n : ℕ) (ip more rest : List ℕ) → length ip ≡ n → take n ((ip ++ more) ++ rest) ≡ ip
taken_exact n ip more rest h =
    let l = length-append ip more in
    take-append n (ip ++ more) rest (omega arith)
    ∙ take-append n ip more (omega arith)
    ∙ take_all n ip (omega arith)

suc_nonzero : (n : ℕ) → (not (suc n == 0) && true) ≡ true
suc_nonzero n = ground arith

-- A literal that `inet_pton` takes, for the family chosen.
abbrev pub IsParsed : (ℕ → List ℕ → List ℕ) → ℕ → Bool → List ℕ → Bool × InetAddress → Type 0
IsParsed ntop port ipv6 ip (done, a) =
    (done ≡ true)
    × (family a ≡ family_of ipv6)
    × (to_port a ≡ port)
    × (to_ip ntop a ≡ ntop (family_of ipv6) ip)

abbrev checked : InetAddress → Bool × InetAddress
checked a = (is_valid a, a)

sockaddr_of-IsParsed :
    (ntop : ℕ → List ℕ → List ℕ) (port : ℕ) (ipv6 : Bool) (ip : List ℕ)
    → port < 65536
    → length ip ≡ ip_size ipv6
    → IsParsed ntop port ipv6 ip (checked (copied (sockaddr_of ipv6 port ip)))
unfolding to_ip
sockaddr_of-IsParsed ntop port true ip h l =
    (suc_nonzero _, refl, to_port-copied6 port ip h, ap (ntop af_inet6) (taken_exact 16 ip _ _ l))
sockaddr_of-IsParsed ntop port false ip h l =
    (suc_nonzero _, refl, to_port-copied4 port ip h, ap (ntop af_inet) (taken_exact 4 ip _ _ l))

-- `tryParse` succeeds exactly if `inet_pton` takes the literal for the family chosen. The address is
-- then of that family and port, and `toIp` prints what `inet_ntop` prints of the bytes that
-- `inet_pton` gave; else the address is the invalid one, of length 0. That `inet_pton` gives 4 bytes
-- or 16 is its documented contract.
pub try_parse_lem :
    (pton : ℕ → List ℕ → Option (List ℕ)) (ntop : ℕ → List ℕ → List ℕ) (text : List ℕ) (port : ℕ)
    (ipv6 : Bool)
    → port < 65536
    → ((t ip : List ℕ) → pton (family_of ipv6) t ≡ some ip → length ip ≡ ip_size ipv6)
    → ((pton (family_of ipv6) text ≡ none) × (try_parse pton text port ipv6 ≡ (false, invalid)))
      ⊎ ((ip : List ℕ) × (pton (family_of ipv6) text ≡ some ip)
          × IsParsed ntop port ipv6 ip (try_parse pton text port ipv6))
unfolding try_parse of_literal from_ip_port
try_parse_lem pton ntop text port ipv6 h contract = go (pton (family_of ipv6) text) refl
  where
    go :
        (o : Option (List ℕ))
        → pton (family_of ipv6) text ≡ o
        → ((pton (family_of ipv6) text ≡ none) × (try_parse pton text port ipv6 ≡ (false, invalid)))
          ⊎ ((ip : List ℕ) × (pton (family_of ipv6) text ≡ some ip)
              × IsParsed ntop port ipv6 ip (try_parse pton text port ipv6))
    go none e =
        inl (e, ap (λ o. checked (copied_or_invalid (Option.map (sockaddr_of ipv6 port) o))) e)
    go (some ip) e = inr (
      ip,
      e,
      subst
          (λ o.
            IsParsed ntop port ipv6 ip
              (checked (copied_or_invalid (Option.map (sockaddr_of ipv6 port) o))))
          (sym e) (sockaddr_of-IsParsed ntop port ipv6 ip h (contract text ip e)),
    )
