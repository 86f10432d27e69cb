-- ===== src/CircularBuffer.antt =====
-- The memory of include/hvnetpp/CircularBuffer.h and src/CircularBuffer.cpp: one file mapped twice,
-- side by side. What the system calls return are arguments; the counters are in `MpscQueue`.
pub mod Mirror
mod Tests
use hvnetpp.Prelude.{
  ℕ, ◌+◌, ◌-◌, ◌*◌, Bool, true, false, List, [], ◌∷◌, ◌++◌, Option, none, some, ltb, leb, ◌==◌,
  ◌&&◌, not, if◌then◌else◌,
}

-- A mapping: `len` bytes from `start` on, of the file or, where it is none, of no file.
pub record Mapping : Type 0 where
  pub start : ℕ
  pub len : ℕ
  pub file : Option ℕ

-- What the process holds: descriptors, mappings, the newest first, and names in /tmp.
pub record Host : Type 0 where
  pub fds : List ℕ
  pub mappings : List Mapping
  pub names : List ℕ

abbrev pub without : ℕ → List ℕ → List ℕ
without x [] = []
without x (y ∷ ys) = let rest = without x ys in if x == y then ys else y ∷ rest

abbrev pub close : ℕ → Host → Host
close fd h = record h { fds = without fd h.fds }

abbrev pub is_inside : ℕ → ℕ → Mapping → Bool
is_inside a n m = leb a m.start && leb (m.start + m.len) (a + n)

abbrev pub unmapped : ℕ → ℕ → List Mapping → List Mapping
unmapped a n [] = []
unmapped a n (m ∷ ms) = let rest = unmapped a n ms in if is_inside a n m then rest else m ∷ rest

abbrev pub munmap : ℕ → ℕ → Host → Host
munmap a n h = record h { mappings = unmapped a n h.mappings }

-- The byte that an address stands for: the file and the place in it.
abbrev pub byte_at : ℕ → List Mapping → Option (Option ℕ × ℕ)
byte_at x [] = none
byte_at x (m ∷ ms) =
    let rest = byte_at x ms in
    if leb m.start x && ltb x (m.start + m.len) then some (m.file, x - m.start) else rest

-- What the calls of `createBufferMirror` return: the descriptor of `mkstemp`, the address of the
-- first `mmap`, and whether the others succeed. A mapping at a fixed address is there or fails.
pub record Calls : Type 0 where
  pub mkstemp : Option ℕ
  pub unlinked : Bool
  pub truncated : Bool
  pub reserved : Option ℕ
  pub mapped_first : Bool
  pub mapped_second : Bool

-- `data_`, and the process.
abbrev pub Made : Type 0
Made = Option ℕ × Host

abbrev pub map_at : ℕ → ℕ → ℕ → Host → Host
map_at a n fd h = record h { mappings = record { start = a; len = n; file = some fd } ∷ h.mappings }

-- From the second mapping of the file on.
pub map_second : ℕ → ℕ → ℕ → Calls → Host → Made
map_second size fd d c h =
    if c.mapped_second
    then (some d, close fd (map_at (d + size) size fd h))
    else (none, close fd (munmap d (2 * size) h))

pub map_first : ℕ → ℕ → ℕ → Calls → Host → Made
unfolding map_second
map_first size fd d c h =
    if c.mapped_first
    then map_second size fd d c (map_at d size fd h)
    else (none, close fd (munmap d (2 * size) h))

pub reserve_space : ℕ → ℕ → Calls → Host → Made
unfolding map_first
reserve_space size fd c h = elim c.reserved [
  | none ↦ (none, close fd h)
  | some d ↦
      map_first size fd d c
        (record h { mappings = record { start = d; len = 2 * size; file = none } ∷ h.mappings })
]

pub create_buffer_mirror : ℕ → Calls → Host → Made
unfolding reserve_space
create_buffer_mirror size c h = elim c.mkstemp [
  | none ↦ (none, h)
  | some fd ↦
      let h₁ : Host = record h { fds = fd ∷ h.fds; names = fd ∷ h.names } in
      if c.unlinked
      then (let h₂ : Host = record h₁ { names = h.names } in
          if c.truncated then reserve_space size fd c h₂ else (none, close fd h₂))
      else (none, close fd h₁)
]

-- The destructor.
pub destroy : ℕ → Made → Host
destroy size (none, h) = h
destroy size (some d, h) = munmap d (2 * size) h
