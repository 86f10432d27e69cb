-- ===== src/Prelude/Words.antt =====
-- `size_t` arithmetic, which wraps at 2 ^ 64.
use Prim.Native.Nat.{ℕ, ◌+◌, ◌-◌, ◌%◌, ◌^◌}

abbrev pub add_size : ℕ → ℕ → ℕ
add_size a b = (a + b) % 2 ^ 64

abbrev pub sub_size : ℕ → ℕ → ℕ
sub_size a b = (a + 2 ^ 64 - b) % 2 ^ 64

-- `std::vector<char>::max_size()`: the largest value of `ptrdiff_t`.
abbrev pub max_size : ℕ
max_size = 2 ^ 63 - 1
