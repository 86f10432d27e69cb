-- ===== src/TcpServer/Names.antt =====
-- The names of connections: when they are distinct, and what follows where they are not.
use hvnetpp.Prelude.{
  ℕ, zero, suc, ◌+◌, ◌-◌, ◌*◌, ◌/◌, ◌%◌, ◌≤◌, ◌<◌, ◌≡◌, refl, ap, ◌∙◌, sym, inl, inr, true, List,
  [], ◌∷◌, ◌++◌, ltb, ◌==◌, length, take_all, take-append, length-append, arith, Bool-cases,
}
use hvnetpp.TcpServer.{
  Server, Name, print_int, formatted, conn_name, same_name, put, new_connection,
}

-- The number that the digits stand for, behind `acc`.
abbrev value : ℕ → Name → ℕ
value acc [] = acc
value acc (c ∷ cs) = value (acc * 10 + (c - 48)) cs

value-snoc :
    (acc : ℕ) (cs : Name) (c : ℕ) → value acc (cs ++ (c ∷ [])) ≡ value acc cs * 10 + (c - 48)
value-snoc acc [] c = refl
value-snoc acc (d ∷ ds) c = value-snoc (acc * 10 + (d - 48)) ds c

-- The numbers that `f` digits can show.
abbrev pub limit : ℕ → ℕ
limit zero = 1
limit (suc f) = 10 * limit f

value-print_int : (f n : ℕ) → n < limit f → value 0 (print_int f n) ≡ n
value-print_int zero n h = omega arith
value-print_int (suc f) n h = elim (Bool-cases (ltb n 10)) [
  | inl e ↦ rw e (omega arith)
  | inr e ↦ rw e (
      value-snoc 0 (print_int f (n / 10)) (48 + n % 10)
      ∙ ap (λ v. v * 10 + (48 + n % 10 - 48)) (value-print_int f (n / 10) (omega arith))
      ∙ omega arith)
]

length-print_int : (f n : ℕ) → length (print_int f n) ≤ f
length-print_int zero n = omega arith
length-print_int (suc f) n = elim (Bool-cases (ltb n 10)) [
  | inl e ↦ rw e (omega arith)
  | inr e ↦ rw e (
      omega (
        arith,
        length-append (print_int f (n / 10)) ((48 + n % 10) ∷ []),
        length-print_int f (n / 10),
      ))
]

abbrev tail : Name → Name
tail [] = []
tail (x ∷ xs) = xs

cancel : (xs ys zs : Name) → xs ++ ys ≡ xs ++ zs → ys ≡ zs
cancel [] ys zs h = h
cancel (x ∷ xs) ys zs h = cancel xs ys zs (ap tail h)

-- A name with 51 characters or fewer leaves room for every digit.
formatted-eq :
    (name : Name) (i : ℕ)
    → length name ≤ 51
    → formatted name i ≡ 45 ∷ (name ++ (35 ∷ print_int 10 i))
formatted-eq name i h =
    take_all 63 (45 ∷ (name ++ (35 ∷ print_int 10 i)))
      (omega (arith, length-append name (35 ∷ print_int 10 i), length-print_int 10 i))

conn_name-injective :
    (name : Name) (i j : ℕ)
    → length name ≤ 51
    → i < 2147483648
    → j < 2147483648
    → conn_name name i ≡ conn_name name j
    → i ≡ j
unfolding conn_name
conn_name-injective name i j l a b h =
    let e = cancel name _ _ h in
    let f : 45 ∷ (name ++ (35 ∷ print_int 10 i)) ≡ 45 ∷ (name ++ (35 ∷ print_int 10 j)) =
      sym (formatted-eq name i l) ∙ e ∙ formatted-eq name j l in
    let g = ap tail (cancel name _ _ (ap tail f)) in
    sym (value-print_int 10 i (omega arith)) ∙ ap (value 0) g ∙ value-print_int 10 j (omega arith)

same_name-eq : (k l : Name) → same_name k l ≡ true → k ≡ l
same_name-eq [] [] h = refl
same_name-eq [] (y ∷ ys) h = absurd (ground arith)
same_name-eq (x ∷ xs) [] h = absurd (ground arith)
same_name-eq (x ∷ xs) (y ∷ ys) h =
    let e : x ≡ y = ground arith in
    let f : same_name xs ys ≡ true = ground arith in
    ap (λ z. z ∷ xs) e ∙ ap (◌∷◌ y) (same_name-eq xs ys f)

same_name_refl : (k : Name) → same_name k k ≡ true
same_name_refl [] = refl
same_name_refl (x ∷ xs) = ground (arith, same_name_refl xs)

-- Two connections of a server whose name has at most 51 characters have the same name exactly if
-- they have the same number, for all numbers that an `int` can hold.
pub conn_name_lem :
    (name : Name) (i j : ℕ)
    → length name ≤ 51
    → i < 2147483648
    → j < 2147483648
    → same_name (conn_name name i) (conn_name name j) ≡ (i == j)
conn_name_lem name i j l a b = elim (Bool-cases (i == j)) [
  | inl e ↦
      let f : i ≡ j = ground arith in
      ap (λ k. same_name (conn_name name i) (conn_name name k)) (sym f)
      ∙ same_name_refl (conn_name name i)
      ∙ sym e
  | inr e ↦ elim (Bool-cases (same_name (conn_name name i) (conn_name name j))) [
    | inr n ↦ n ∙ sym e
    | inl y ↦
        let f = conn_name-injective name i j l a b (same_name-eq _ _ y) in absurd (ground arith)
  ]
]

-- With a name of 62 characters or more, all connections of the server have one name.
conn_name_same : (name : Name) (i j : ℕ) → 62 ≤ length name → conn_name name i ≡ conn_name name j
unfolding conn_name
conn_name_same name i j h =
    ap (λ t. name ++ (45 ∷ t))
      (take-append 62 name (35 ∷ print_int 10 i) h
        ∙ sym (take-append 62 name (35 ∷ print_int 10 j) h))

-- A new connection replaces the one that has its name.
put-put : (k : Name) (c d : ℕ) (ms : List (Name × ℕ)) → put k d (put k c ms) ≡ put k d ms
unfolding put
put-put k c d [] = rw (same_name_refl k) refl
put-put k c d ((l, e) ∷ ms) = elim (Bool-cases (same_name k l)) [
  | inl s ↦ rw (s, s) refl
  | inr s ↦ rw (s, s, put-put k c d ms) refl
]

-- With a server's name of 62 characters or more, a second new connection replaces the first one in
-- the map, whatever stood there before, so that the server no longer holds the first.
pub new_connection-replaces :
    (fd fd' : ℕ) (s : Server)
    → 62 ≤ length s.name
    → (new_connection fd' (new_connection fd s)).connections ≡ (new_connection fd' s).connections
unfolding new_connection
new_connection-replaces fd fd' s h =
    ap (λ k. put k fd' (put (conn_name s.name s.next_conn_id) fd s.connections))
      (conn_name_same s.name (suc s.next_conn_id) s.next_conn_id h)
    ∙ put-put (conn_name s.name s.next_conn_id) fd fd' s.connections
