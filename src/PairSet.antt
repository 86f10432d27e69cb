-- ===== src/PairSet.antt =====
-- `std::set<std::pair<…>>`, in which src/TimerQueue.cpp keeps its timers: a list of pairs of numbers
-- that grows strictly in the lexicographic order.
pub mod Laws
pub mod Order
use hvnetpp.Prelude.{ℕ, Bool, true, false, List, [], ◌∷◌, ltb, ◌==◌, ◌&&◌, ◌||◌, if◌then◌else◌, not}

abbrev pub Key : Type 0
Key = ℕ × ℕ

abbrev pub key_lt : Key → Key → Bool
key_lt x y = ltb x.0 y.0 || (x.0 == y.0 && ltb x.1 y.1)

abbrev pub key_eq : Key → Key → Bool
key_eq x y = x.0 == y.0 && x.1 == y.1

-- `find(x) != end()`
unfoldable pub contains : Key → List Key → Bool
contains x [] = false
contains x (y ∷ ys) = key_eq y x || contains x ys

unfoldable pub insert : Key → List Key → List Key
insert x [] = x ∷ []
insert x (y ∷ ys) =
    if key_lt x y then x ∷ y ∷ ys else if key_lt y x then y ∷ insert x ys else y ∷ ys

unfoldable pub erase : Key → List Key → List Key
erase x [] = []
erase x (y ∷ ys) = if key_eq y x then erase x ys else y ∷ erase x ys

-- The elements from `begin()` up to `lower_bound(x)`, and those from there on.
unfoldable pub before : Key → List Key → List Key
before x [] = []
before x (y ∷ ys) = if key_lt y x then y ∷ before x ys else []

unfoldable pub from : Key → List Key → List Key
from x [] = []
from x (y ∷ ys) = if key_lt y x then from x ys else y ∷ ys
