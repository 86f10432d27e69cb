-- ===== src/PairSet/Laws.antt =====
-- Membership in a set of pairs after an insertion or a removal.
use hvnetpp.Prelude.{◌≡◌, refl, false, List, [], ◌∷◌, ◌&&◌, ◌||◌, not, arith, suc, length}
use hvnetpp.PairSet.{Key, key_eq, contains, insert, erase}

pub contains-insert :
    (x y : Key) (ys : List Key) → contains y (insert x ys) ≡ (key_eq x y || contains y ys)
unfolding contains insert
contains-insert x y [] = refl
contains-insert x y (z ∷ ys) = ground (arith, contains-insert x y ys)

pub contains-erase :
    (x y : Key) (ys : List Key) → contains y (erase x ys) ≡ (not (key_eq x y) && contains y ys)
unfolding contains erase
contains-erase x y [] = ground arith
contains-erase x y (z ∷ ys) = ground (arith, contains-erase x y ys)

pub length-insert :
    (x : Key) (ys : List Key) → contains x ys ≡ false → length (insert x ys) ≡ suc (length ys)
unfolding contains insert
length-insert x [] h = refl
length-insert x (y ∷ ys) h = ground (arith, length-insert x ys)
