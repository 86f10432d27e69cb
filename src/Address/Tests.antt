-- ===== src/Address/Tests.antt =====
-- Addresses read with a plain `inet_pton`, and a host with an entry of another family and one of IPv4.
use hvnetpp.Prelude.{
  ℕ, ◌≡◌, refl, ◌⊎◌, false, List, [], ◌∷◌, Option, none, some, ◌==◌, if◌then◌else◌, length, arith,
  ℤ, pos,
}
use hvnetpp.Address.{
  af_inet, af_inet6, sockaddr_in, copied, invalid, try_parse, Info, resolve, failed, resolved,
  eai_family,
}
use hvnetpp.Address.Parse.{family_of, ip_size, IsParsed, try_parse_lem}
use hvnetpp.Address.Resolve.{IsFamily, IsAnswer, resolve_lem}

-- A text of as many characters as the address has bytes stands for them.
abbrev pton : ℕ → List ℕ → Option (List ℕ)
pton family text = if length text == (if family == af_inet6 then 16 else 4) then some text else none

abbrev ntop : ℕ → List ℕ → List ℕ
ntop family bytes = bytes

abbrev home : List ℕ
home = 127 ∷ 0 ∷ 0 ∷ 1 ∷ []

checked_size :
    (n : ℕ) (t ip : List ℕ) → (if length t == n then some t else none) ≡ some ip → length ip ≡ n
checked_size n t ip e = grind arith

pton_size : (t ip : List ℕ) → pton (family_of false) t ≡ some ip → length ip ≡ ip_size false
pton_size t ip e = checked_size 4 t ip e

try_parse_lem_example :
    ((pton (family_of false) home ≡ none) × (try_parse pton home 80 false ≡ (false, invalid)))
    ⊎ ((ip : List ℕ) × (pton (family_of false) home ≡ some ip)
        × IsParsed ntop 80 false ip (try_parse pton home 80 false))
try_parse_lem_example = try_parse_lem pton ntop home 80 false (omega arith) pton_size

abbrev entries : List Info
entries =
    record { ai_family = 1; ai_addrlen = 2; ai_addr = 1 ∷ 0 ∷ [] }
    ∷ record { ai_family = af_inet; ai_addrlen = 16; ai_addr = sockaddr_in 0 home }
    ∷ []

abbrev getaddrinfo : List ℕ → ℕ → ℕ → ℤ × List Info
getaddrinfo name family kind = (pos 0, entries)

resolve_lem_example :
    ((¬ (IsFamily 0)) × (resolve getaddrinfo (104 ∷ []) 80 0 1 ≡ failed eai_family))
    ⊎ (IsFamily 0
        × IsAnswer 80 (getaddrinfo (104 ∷ []) 0 1) (resolve getaddrinfo (104 ∷ []) 80 0 1))
resolve_lem_example =
    resolve_lem getaddrinfo (104 ∷ []) 80 0 1 (omega arith)
      (λ name f kind. ((omega arith, refl), ((omega arith, refl), tt)))

resolve_entries : resolve getaddrinfo (104 ∷ []) 80 0 1 ≡ resolved (copied (sockaddr_in 80 home))
unfolding resolve
resolve_entries = refl
