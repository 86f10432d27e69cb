-- ===== src/PairSet/Order.antt =====
-- The order of a set of pairs: it is kept, its first element is the least, and it is split at a
-- bound.
use hvnetpp.Prelude.{◌≡◌, refl, true, false, List, [], ◌∷◌, ◌&&◌, not, arith, suc, length}
use hvnetpp.PairSet.{Key, key_lt, contains, insert, erase, before, from}

-- All elements are greater than `x`.
abbrev pub Above : Key → List Key → Type 0
Above x [] = Unit {0}
Above x (y ∷ ys) = (key_lt x y ≡ true) × Above x ys

abbrev pub IsSorted : List Key → Type 0
IsSorted [] = Unit {0}
IsSorted (x ∷ xs) = Above x xs × IsSorted xs

Above-mono : (x y : Key) (ys : List Key) → key_lt x y ≡ true → Above y ys → Above x ys
Above-mono x y [] h a = tt
Above-mono x y (z ∷ ys) h a = (ground arith, Above-mono x y ys h a.1)

Above-insert : (x y : Key) (ys : List Key) → key_lt x y ≡ true → Above x ys → Above x (insert y ys)
unfolding insert
Above-insert x y [] h a = (h, tt)
Above-insert x y (z ∷ ys) h a = ground (arith, Above-insert x y ys)

pub insert-IsSorted : (x : Key) (ys : List Key) → IsSorted ys → IsSorted (insert x ys)
unfolding insert
insert-IsSorted x [] s = (tt, tt)
insert-IsSorted x (y ∷ ys) s =
    ground (arith, insert-IsSorted x ys, Above-insert y x ys, Above-mono x y ys)

Above-erase : (x y : Key) (ys : List Key) → Above x ys → Above x (erase y ys)
unfolding erase
Above-erase x y [] a = tt
Above-erase x y (z ∷ ys) a = ground (arith, Above-erase x y ys)

pub erase-IsSorted : (x : Key) (ys : List Key) → IsSorted ys → IsSorted (erase x ys)
unfolding erase
erase-IsSorted x [] s = tt
erase-IsSorted x (y ∷ ys) s = ground (arith, erase-IsSorted x ys, Above-erase y x ys)

-- What lies below all elements is none of them.
pub contains-Above :
    (x y : Key) (ys : List Key) → Above x ys → key_lt x y ≡ false → contains y ys ≡ false
unfolding contains
contains-Above x y [] a h = refl
contains-Above x y (z ∷ ys) a h = ground (arith, contains-Above x y ys)

erase_absent : (x : Key) (ys : List Key) → contains x ys ≡ false → erase x ys ≡ ys
unfolding contains erase
erase_absent x [] h = refl
erase_absent x (y ∷ ys) h = ground (arith, erase_absent x ys)

-- Removing the first element of a set leaves the others.
pub erase_first : (x : Key) (ys : List Key) → IsSorted (x ∷ ys) → erase x (x ∷ ys) ≡ ys
unfolding erase
erase_first x ys s = ground (arith, erase_absent x ys, contains-Above x x ys s.0)

pub length-erase :
    (x : Key) (ys : List Key)
    → IsSorted ys
    → contains x ys ≡ true
    → suc (length (erase x ys)) ≡ length ys
unfolding contains erase
length-erase x [] s h = ground arith
length-erase x (y ∷ ys) s h =
    ground (arith, length-erase x ys s.1, erase_absent x ys, contains-Above y x ys s.0)

-- The elements before the bound are those less than it.
pub contains-before :
    (x y : Key) (ys : List Key)
    → IsSorted ys
    → contains y (before x ys) ≡ (contains y ys && key_lt y x)
unfolding contains before
contains-before x y [] s = refl
contains-before x y (z ∷ ys) s = ground (arith, contains-before x y ys, contains-Above z y ys)

-- The elements from the bound on are those not less than it.
pub contains-from :
    (x y : Key) (ys : List Key)
    → IsSorted ys
    → contains y (from x ys) ≡ (contains y ys && not (key_lt y x))
unfolding contains from
contains-from x y [] s = refl
contains-from x y (z ∷ ys) s = ground (arith, contains-from x y ys, contains-Above z y ys)

Above-before : (x y : Key) (ys : List Key) → Above x ys → Above x (before y ys)
unfolding before
Above-before x y [] a = tt
Above-before x y (z ∷ ys) a = ground (arith, Above-before x y ys)

pub before-IsSorted : (x : Key) (ys : List Key) → IsSorted ys → IsSorted (before x ys)
unfolding before
before-IsSorted x [] s = tt
before-IsSorted x (y ∷ ys) s = ground (arith, before-IsSorted x ys, Above-before y x ys)
