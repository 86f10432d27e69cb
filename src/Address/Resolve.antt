-- ===== src/Address/Resolve.antt =====
-- src/Resolver.cpp: what comes out of the list that `getaddrinfo` gives.
use hvnetpp.Prelude.{
  ℕ, suc, ◌+◌, ◌*◌, ◌/◌, ◌%◌, ◌≤◌, ◌<◌, ◌≡◌, ◌≢◌, zero, refl, subst, sym, ap, ◌∙◌, ◌⊎◌, inl, inr,
  Bool, true, false, List, [], ◌∷◌, ◌++◌, Option, none, some, ◌==◌, ◌&&◌, ◌||◌, leb, not,
  if◌then◌else◌, length, take, drop, slice, arith, ℤ, pos, negsuc, slice-append, drop-take,
  take-take, length-take,
}
use hvnetpp.Address.{
  InetAddress, load16, af_unspec, af_inet, af_inet6, size_in, size_in6, copied, with_port, is_valid,
  family, to_port, ip_of, Info, usable, first_usable, Resolved, failed, chosen, answered, resolve,
  eai_family, htons,
}
use hvnetpp.Address.Bytes.{htons-htons, stored, htons-lt}

-- What `getaddrinfo` promises of an entry: the `sockaddr` is as long as said, and of the family said.
abbrev pub IsInfo : Info → Type 0
IsInfo i = (i.ai_addrlen ≤ length i.ai_addr) × (load16 0 i.ai_addr ≡ i.ai_family)

-- An entry that the loop stops at.
abbrev pub IsSuited : Info → Type 0
IsSuited i =
    ((i.ai_family ≡ af_inet) × (size_in ≤ i.ai_addrlen))
    ⊎ ((i.ai_family ≡ af_inet6) × (size_in6 ≤ i.ai_addrlen))

-- The bytes of the IP address of an entry.
abbrev pub entry_ip : Info → List ℕ
entry_ip i = if i.ai_family == af_inet then slice 4 4 i.ai_addr else slice 8 16 i.ai_addr

-- The address is the entry's, with the port asked for.
abbrev pub IsEntry : ℕ → Info → InetAddress → Type 0
IsEntry port i a =
    (is_valid a ≡ true) × (family a ≡ i.ai_family) × (to_port a ≡ port) × (ip_of a ≡ entry_ip i)

within :
    (k j n : ℕ) (rest more : List ℕ)
    → n ≤ j
    → k + j ≤ length rest
    → slice k n (take (k + j) rest ++ more) ≡ slice k n rest
within k j n rest more h l =
    slice-append k n (take (k + j) rest) more (omega (arith, length-take (k + j) rest))
    ∙ ap (take n) (drop-take k j rest)
    ∙ take-take n j (drop k rest) h

of_known_family :
    (x n : ℕ)
    → (x ≡ af_inet) ⊎ (x ≡ af_inet6)
    → (not (suc n == 0) && ((x == af_inet) || (x == af_inet6))) ≡ true
of_known_family x n h = ground arith

port_of_stored :
    (port : ℕ) → port < 65536 → htons (htons port % 256 + 256 * (htons port / 256 % 256)) ≡ port
port_of_stored port h = ap htons (stored (htons port) (htons-lt port)) ∙ htons-htons port h

copied4 :
    (port n : ℕ) (bytes : List ℕ)
    → port < 65536
    → size_in ≤ length bytes
    → load16 0 bytes ≡ af_inet
    → IsEntry port
        (record { ai_family = af_inet; ai_addrlen = n; ai_addr = bytes })
        (copied (with_port port (take size_in bytes)))
unfolding to_port
copied4 port n [] h l f = absurd (omega arith)
copied4 port n (a ∷ []) h l f = absurd (omega arith)
copied4 port n (a ∷ b ∷ []) h l f = absurd (omega arith)
copied4 port n (a ∷ b ∷ c ∷ []) h l f = absurd (omega arith)
copied4 port n (a ∷ b ∷ c ∷ d ∷ rest) h l f =
    let whole = (copied (with_port port (take size_in (a ∷ b ∷ c ∷ d ∷ rest)))).addr in
    (
      of_known_family (a + 256 * b) _ (inl f),
      f,
      port_of_stored port h,
      ap (λ x. if x == af_inet then slice 4 4 whole else slice 8 16 whole) f
          ∙ within 0 12 4 rest _ (omega arith) (omega arith),
    )

copied6 :
    (port n : ℕ) (bytes : List ℕ)
    → port < 65536
    → size_in6 ≤ length bytes
    → load16 0 bytes ≡ af_inet6
    → IsEntry port
        (record { ai_family = af_inet6; ai_addrlen = n; ai_addr = bytes })
        (copied (with_port port (take size_in6 bytes)))
unfolding to_port
copied6 port n [] h l f = absurd (omega arith)
copied6 port n (a ∷ []) h l f = absurd (omega arith)
copied6 port n (a ∷ b ∷ []) h l f = absurd (omega arith)
copied6 port n (a ∷ b ∷ c ∷ []) h l f = absurd (omega arith)
copied6 port n (a ∷ b ∷ c ∷ d ∷ rest) h l f =
    let whole = (copied (with_port port (take size_in6 (a ∷ b ∷ c ∷ d ∷ rest)))).addr in
    (
      of_known_family (a + 256 * b) _ (inr f),
      f,
      port_of_stored port h,
      ap (λ x. if x == af_inet then slice 4 4 whole else slice 8 16 whole) f
          ∙ within 4 20 16 rest _ (omega arith) (omega arith),
    )

abbrev pub Each : (Info → Type 0) → List Info → Type 0
Each P [] = Unit {0}
Each P (i ∷ is) = P i × Each P is

-- Either no entry is suited, or the address is that of the first one that is.
abbrev pub IsChoice : ℕ → List Info → Option InetAddress → Type 0
IsChoice port infos none = Each (λ i. ¬ (IsSuited i)) infos
IsChoice port infos (some a) =
    (before : List Info) × (i : Info) × (after : List Info) × (infos ≡ before ++ (i ∷ after))
    × Each (λ j. ¬ (IsSuited j)) before
    × IsSuited i
    × IsEntry port i a

abbrev test4 : ℕ → ℕ → Bool
test4 x n = (x == af_inet) && leb size_in n

abbrev test6 : ℕ → ℕ → Bool
test6 x n = (x == af_inet6) && leb size_in6 n

entry-cases :
    (x n : ℕ)
    → ((test4 x n ≡ true) × (x ≡ af_inet) × (size_in ≤ n))
      ⊎ (((test4 x n ≡ false) × (test6 x n ≡ true) × (x ≡ af_inet6) × (size_in6 ≤ n))
          ⊎ ((test4 x n ≡ false)
              × (test6 x n ≡ false)
              × (¬ (((x ≡ af_inet) × (size_in ≤ n)) ⊎ ((x ≡ af_inet6) × (size_in6 ≤ n))))))
entry-cases x n = ground arith

usable_lem :
    (port : ℕ) (i : Info)
    → port < 65536
    → IsInfo i
    → ((usable port i ≡ none) × (¬ (IsSuited i)))
      ⊎ ((a : InetAddress) × (usable port i ≡ some a) × IsSuited i × IsEntry port i a)
unfolding usable
usable_lem port i h (l, f) =
    let four = copied (with_port port (take size_in i.ai_addr)) in
    let six = copied (with_port port (take size_in6 i.ai_addr)) in
    let with_family : ℕ → Info =
      λ x. record { ai_family = x; ai_addrlen = i.ai_addrlen; ai_addr = i.ai_addr } in
    elim (entry-cases i.ai_family i.ai_addrlen) [
      | inl (t, e, s) ↦ inr (
        four,
        ap
            (λ b.
              if b then some four else (if test6 i.ai_family i.ai_addrlen then some six else none))
            t,
        inl (e, s),
        subst (λ x. IsEntry port (with_family x) four) (sym e)
            (copied4 port i.ai_addrlen i.ai_addr h (omega arith) (f ∙ e)),
      )
      | inr (inl (t, u, e, s)) ↦ inr (
        six,
        ap
              (λ b.
                if b
                then some four
                else (if test6 i.ai_family i.ai_addrlen then some six else none))
              t
            ∙ ap (λ b. if b then some six else none) u,
        inr (e, s),
        subst (λ x. IsEntry port (with_family x) six) (sym e)
            (copied6 port i.ai_addrlen i.ai_addr h (omega arith) (f ∙ e)),
      )
      | inr (inr (t, u, unsuited)) ↦ inl (
        ap
              (λ b.
                if b
                then some four
                else (if test6 i.ai_family i.ai_addrlen then some six else none))
              t
            ∙ ap (λ b. if b then some six else none) u,
        unsuited,
      )
    ]

abbrev or_else : Option InetAddress → Option InetAddress → Option InetAddress
or_else o rest = elim o [ none ↦ rest | some a ↦ some a ]

first_usable_lem :
    (port : ℕ) (infos : List Info)
    → port < 65536
    → Each IsInfo infos
    → IsChoice port infos (first_usable port infos)
unfolding first_usable
first_usable_lem port [] h c = tt
first_usable_lem port (i ∷ is) h (c, cs) =
    let rest : IsChoice port is (first_usable port is) = first_usable_lem port is h cs in
    elim (usable_lem port i h c) [
      | inl (e, unsuited) ↦
          subst (IsChoice port (i ∷ is)) (sym (ap (λ o. or_else o (first_usable port is)) e))
            (after_one port i is (first_usable port is) unsuited rest)
      | inr (a, e, s, given) ↦
          subst (IsChoice port (i ∷ is)) (sym (ap (λ o. or_else o (first_usable port is)) e))
            ([], i, is, refl, tt, s, given)
    ]
  where
    after_one :
        (port : ℕ) (i : Info) (is : List Info) (o : Option InetAddress)
        → ¬ (IsSuited i)
        → IsChoice port is o
        → IsChoice port (i ∷ is) o
    after_one port i is none u c = (u, c)
    after_one port i is (some a) u (before, j, after, e, each, s, given) =
        (i ∷ before, j, after, ap (◌∷◌ i) e, (u, each), s, given)

-- The families that `resolve` takes.
abbrev pub IsFamily : ℕ → Type 0
IsFamily f = (f ≡ af_unspec) ⊎ ((f ≡ af_inet) ⊎ (f ≡ af_inet6))

IsFamily-cases :
    (f : ℕ)
    → ((((f == af_unspec) || (f == af_inet) || (f == af_inet6)) ≡ false) × (¬ (IsFamily f)))
      ⊎ ((((f == af_unspec) || (f == af_inet) || (f == af_inet6)) ≡ true) × IsFamily f)
IsFamily-cases f = ground arith

-- What `resolve` gives for an answer of `getaddrinfo`.
abbrev pub IsAnswer : ℕ → ℤ × List Info → Resolved → Type 0
IsAnswer port (ret, infos) r =
    ((ret ≢ pos 0) × (r ≡ failed ret))
    ⊎ ((ret ≡ pos 0) × ((o : Option InetAddress) × IsChoice port infos o × (r ≡ chosen o)))

answered_lem :
    (port : ℕ) (ret : ℤ) (infos : List Info)
    → port < 65536
    → Each IsInfo infos
    → IsAnswer port (ret, infos) (answered port (ret, infos))
unfolding answered
answered_lem port (negsuc n) [] h c = inl (λ e. ground arith, refl)
answered_lem port (negsuc n) (i ∷ is) h c = inl (λ e. ground arith, refl)
answered_lem port (pos zero) [] h c = inr (refl, (none, tt, refl))
answered_lem port (pos zero) (i ∷ is) h c =
    inr (refl, (first_usable port (i ∷ is), first_usable_lem port (i ∷ is) h c, refl))
answered_lem port (pos (suc n)) [] h c = inl (λ e. ground arith, refl)
answered_lem port (pos (suc n)) (i ∷ is) h c = inl (λ e. ground arith, refl)

-- `resolve` calls `getaddrinfo` only for a family it takes, else it fails with EAI_FAMILY. A result
-- other than 0 is the error. Else it gives the first entry of family AF_INET or AF_INET6 whose
-- `sockaddr` is long enough, with its family and IP address and the port asked for, as a valid
-- address; if there is none it fails with EAI_NONAME. That an entry's `sockaddr` has the length and
-- the family that the entry says is the contract of `getaddrinfo`.
pub resolve_lem :
    (getaddrinfo : List ℕ → ℕ → ℕ → ℤ × List Info) (hostname : List ℕ) (port fam socktype : ℕ)
    → port < 65536
    → ((name : List ℕ) (f kind : ℕ) → Each IsInfo ((getaddrinfo name f kind).1))
    → ((¬ (IsFamily fam)) × (resolve getaddrinfo hostname port fam socktype ≡ failed eai_family))
      ⊎ (IsFamily fam
          × IsAnswer port
              (getaddrinfo hostname fam socktype)
              (resolve getaddrinfo hostname port fam socktype))
unfolding resolve
resolve_lem getaddrinfo hostname port fam socktype h contract =
    let answer = answered port (getaddrinfo hostname fam socktype) in
    elim (IsFamily-cases fam) [
      | inl (e, unsuited) ↦ inl (unsuited, ap (λ b. if b then answer else failed eai_family) e)
      | inr (e, known) ↦ inr (
        known,
        subst (IsAnswer port (getaddrinfo hostname fam socktype))
            (sym (ap (λ b. if b then answer else failed eai_family) e))
            (answered_lem port _ _ h (contract hostname fam socktype)),
      )
    ]
