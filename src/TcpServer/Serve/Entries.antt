-- ===== src/TcpServer/Serve/Entries.antt =====
-- The map of connections as a row of numbers, while their names are distinct.
use hvnetpp.Prelude.{
  ℕ, ◌+◌, ◌≤◌, ◌<◌, ◌≡◌, refl, ap, ◌∙◌, inl, inr, Bool, true, false, List, [], ◌∷◌, ◌++◌, some,
  ◌==◌, if◌then◌else◌, length, arith, Bool-cases,
}
use hvnetpp.TcpServer.{Name, conn_name, same_name, put, erase}
use hvnetpp.TcpServer.Names.{conn_name_lem}

abbrev pub entry : Name → ℕ → Name × ℕ
entry name i = (conn_name name i, i)

abbrev pub entries : Name → List ℕ → List (Name × ℕ)
entries name [] = []
entries name (i ∷ is) = entry name i ∷ entries name is

abbrev pub is_one : Bool → ℕ
is_one true = 1
is_one false = 0

abbrev pub count : ℕ → List ℕ → ℕ
count i [] = 0
count i (j ∷ js) = is_one (i == j) + count i js

abbrev pub without : ℕ → List ℕ → List ℕ
without i [] = []
without i (j ∷ js) = let rest = without i js in if i == j then js else j ∷ rest

pub count-snoc : (i j : ℕ) (js : List ℕ) → count i (js ++ (j ∷ [])) ≡ count i js + is_one (i == j)
count-snoc i j [] = omega arith
count-snoc i j (k ∷ ks) = omega (arith, count-snoc i j ks)

pub count-without :
    (i j : ℕ) (js : List ℕ) → 0 < count j js → count i (without j js) + is_one (i == j) ≡ count i js
count-without i j [] h = absurd (omega arith)
count-without i j (k ∷ ks) h = elim (Bool-cases (j == k)) [
  | inl e ↦ ground arith
  | inr e ↦ let later = count-without i j ks (ground arith) in ground arith
]

-- Every number is one that an `int` can hold.
abbrev pub IsSmall : List ℕ → Type 0
IsSmall is = (i : ℕ) → 0 < count i is → i < 2147483648

IsSmall-tail : (i : ℕ) (is : List ℕ) → IsSmall (i ∷ is) → IsSmall is
IsSmall-tail i is s j h = s j (omega arith)

IsSmall-head : (i : ℕ) (is : List ℕ) → IsSmall (i ∷ is) → i < 2147483648
IsSmall-head i is s = s i (ground arith)

pub put-entries :
    (name : Name) (i : ℕ) (is : List ℕ)
    → length name ≤ 51
    → i < 2147483648
    → IsSmall is
    → count i is ≡ 0
    → put (conn_name name i) i (entries name is) ≡ entries name (is ++ (i ∷ []))
unfolding put
put-entries name i [] l b s z = refl
put-entries name i (j ∷ js) l b s z =
    let e : same_name (conn_name name i) (conn_name name j) ≡ false =
      conn_name_lem name i j l b (IsSmall-head j js s) ∙ ground arith in
    rw e (ap (◌∷◌ (entry name j)) (put-entries name i js l b (IsSmall-tail j js s) (omega arith)))

pub erase-entries :
    (name : Name) (i : ℕ) (is : List ℕ)
    → length name ≤ 51
    → i < 2147483648
    → IsSmall is
    → 0 < count i is
    → erase (conn_name name i) (entries name is) ≡ some (entries name (without i is))
unfolding erase
erase-entries name i [] l b s z = absurd (omega arith)
erase-entries name i (j ∷ js) l b s z =
    let e = conn_name_lem name i j l b (IsSmall-head j js s) in
    elim (Bool-cases (i == j)) [
      | inl t ↦ rw (e, t) refl
      | inr t ↦ rw (e, t, erase-entries name i js l b (IsSmall-tail j js s) (ground arith)) refl
    ]
