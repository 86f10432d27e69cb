-- ===== src/CircularBuffer/Mirror.antt =====
-- What `createBufferMirror` leaves behind.
use hvnetpp.Prelude.{
  ℕ, ◌+◌, ◌-◌, ◌*◌, ◌≤◌, ◌<◌, ◌≡◌, refl, ap, ◌∙◌, ◌⊎◌, Bool, true, false, List, [], ◌∷◌, ◌++◌,
  Option, none, some, ◌&&◌, if◌then◌else◌, arith,
}
use hvnetpp.CircularBuffer.{
  Mapping, Host, without, unmapped, byte_at, Calls, Made, map_second, map_first, reserve_space,
  create_buffer_mirror, destroy,
}

-- Addresses that no mapping uses; every mapping has a byte.
abbrev pub IsFree : ℕ → ℕ → List Mapping → Type 0
IsFree a n [] = Unit {0}
IsFree a n (m ∷ ms) = (0 < m.len) × ((m.start + m.len ≤ a) ⊎ (a + n ≤ m.start)) × IsFree a n ms

unmapped-IsFree : (a n : ℕ) (ms : List Mapping) → IsFree a n ms → unmapped a n ms ≡ ms
unmapped-IsFree a n [] f = refl
unmapped-IsFree a n (m ∷ ms) (p, o, f) = ground (arith, unmapped-IsFree a n ms f)

without_first : (x : ℕ) (xs : List ℕ) → without x (x ∷ xs) ≡ xs
without_first x xs = ground arith

-- The first bytes and the next ones are the same bytes of the file.
abbrev pub IsMirror : ℕ → ℕ → ℕ → List Mapping → Type 0
IsMirror size fd d ms =
    (i : ℕ)
    → i < size
    → (byte_at (d + i) ms ≡ some (some fd, i)) × (byte_at (d + size + i) ms ≡ some (some fd, i))

abbrev has : Option ℕ → Bool
has none = false
has (some n) = true

-- The calls all succeed.
abbrev pub succeeds : Calls → Bool
succeeds c =
    has c.mkstemp
    && c.unlinked
    && c.truncated
    && has c.reserved
    && c.mapped_first
    && c.mapped_second

-- The names that are left: `unlink` may fail.
abbrev pub left_name : Calls → List ℕ
left_name c = elim c.mkstemp [ none ↦ [] | some fd ↦ if c.unlinked then [] else fd ∷ [] ]

-- The three mappings, the newest first.
abbrev reservation : ℕ → ℕ → Mapping
reservation size d = record { start = d; len = 2 * size; file = none }

abbrev half : ℕ → ℕ → ℕ → Mapping
half size a fd = record { start = a; len = size; file = some fd }

-- What is within the range goes.
unmapped_inside :
    (a n : ℕ) (m : Mapping) (ms : List Mapping)
    → a ≤ m.start
    → m.start + m.len ≤ a + n
    → unmapped a n (m ∷ ms) ≡ unmapped a n ms
unmapped_inside a n m ms h l = ground arith

unmapped-reservation :
    (size d : ℕ) (ms : List Mapping)
    → IsFree d (2 * size) ms
    → unmapped d (2 * size) (reservation size d ∷ ms) ≡ ms
unmapped-reservation size d ms f =
    unmapped_inside d (2 * size) (reservation size d) ms (omega arith) (omega arith)
    ∙ unmapped-IsFree d (2 * size) ms f

unmapped_first :
    (size fd d : ℕ) (ms : List Mapping)
    → IsFree d (2 * size) ms
    → unmapped d (2 * size) (half size d fd ∷ reservation size d ∷ ms) ≡ ms
unmapped_first size fd d ms f =
    unmapped_inside d (2 * size) (half size d fd) (reservation size d ∷ ms) (omega arith)
      (omega arith)
    ∙ unmapped-reservation size d ms f

unmapped_both :
    (size fd d : ℕ) (ms : List Mapping)
    → IsFree d (2 * size) ms
    → unmapped d (2 * size) (half size (d + size) fd ∷ half size d fd ∷ reservation size d ∷ ms)
      ≡ ms
unmapped_both size fd d ms f =
    unmapped_inside d (2 * size) (half size (d + size) fd)
      (half size d fd ∷ reservation size d ∷ ms) (omega arith) (omega arith)
    ∙ unmapped_first size fd d ms f

byte_within :
    (x : ℕ) (m : Mapping) (ms : List Mapping)
    → m.start ≤ x
    → x < m.start + m.len
    → byte_at x (m ∷ ms) ≡ some (m.file, x - m.start)
byte_within x m ms h l = ground arith

byte_below :
    (x : ℕ) (m : Mapping) (ms : List Mapping) → x < m.start → byte_at x (m ∷ ms) ≡ byte_at x ms
byte_below x m ms h = ground arith

halves-IsMirror :
    (size fd d : ℕ) (ms : List Mapping)
    → IsMirror size fd d (half size (d + size) fd ∷ half size d fd ∷ ms)
halves-IsMirror size fd d ms i h = (
  byte_below (d + i) (half size (d + size) fd) (half size d fd ∷ ms) (omega arith)
      ∙ byte_within (d + i) (half size d fd) ms (omega arith) (omega arith)
      ∙ ap (λ k. some (some fd, k)) (omega arith),
  byte_within (d + size + i) (half size (d + size) fd) (half size d fd ∷ ms) (omega arith)
        (omega arith)
      ∙ ap (λ k. some (some fd, k)) (omega arith),
)

-- What is reserved is not in use.
abbrev pub IsReserved : ℕ → Calls → Host → Type 0
IsReserved size c h = (d : ℕ) → c.reserved ≡ some d → IsFree d (2 * size) h.mappings

-- The descriptors and mappings are as before, and a name is left only where `unlink` fails.
abbrev pub IsClean : Calls → Host → Host → Type 0
IsClean c h h' = (h'.fds ≡ h.fds) × (h'.mappings ≡ h.mappings) × (h'.names ≡ left_name c ++ h.names)

-- `data_` is null and nothing is held, or it is the mirrored memory.
abbrev pub IsMade : ℕ → Calls → Host → Made → Type 0
IsMade size c h (none, h') = (succeeds c ≡ false) × IsClean c h h'
IsMade size c h (some d, h') =
    (succeeds c ≡ true)
    × (c.reserved ≡ some d)
    × ((fd : ℕ) × (c.mkstemp ≡ some fd) × IsMirror size fd d h'.mappings)
    × (h'.fds ≡ h.fds)
    × IsClean c h (destroy size (some d, h'))

-- `createBufferMirror` succeeds exactly if all its calls do. The two halves of the memory then are the
-- same bytes of the one file, no descriptor is left open, and the destructor unmaps everything; else
-- no descriptor and no mapping is left. The name in /tmp is left exactly if `unlink` fails. That the
-- range which `mmap` reserves is not in use is its contract.
pub create_buffer_mirror-IsMade :
    (size : ℕ) (c : Calls) (h : Host)
    → IsReserved size c h
    → IsMade size c h (create_buffer_mirror size c h)
unfolding create_buffer_mirror reserve_space map_first map_second destroy
create_buffer_mirror-IsMade size c h free =
    go c.mkstemp c.unlinked c.truncated c.reserved c.mapped_first c.mapped_second free
  where
    calls : Option ℕ → Bool → Bool → Option ℕ → Bool → Bool → Calls
    calls o u t r f s = record {
      mkstemp = o;
      unlinked = u;
      truncated = t;
      reserved = r;
      mapped_first = f;
      mapped_second = s;
    }

    go :
        (o : Option ℕ) (u t : Bool) (r : Option ℕ) (f s : Bool)
        → IsReserved size (calls o u t r f s) h
        → IsMade size (calls o u t r f s) h (create_buffer_mirror size (calls o u t r f s) h)
    go none u t r f s free = (refl, (refl, refl, refl))
    go (some fd) false t r f s free = (refl, (without_first fd h.fds, refl, refl))
    go (some fd) true false r f s free = (refl, (without_first fd h.fds, refl, refl))
    go (some fd) true true none f s free = (refl, (without_first fd h.fds, refl, refl))
    go (some fd) true true (some d) false s free =
        (refl, (without_first fd h.fds, unmapped-reservation size d h.mappings (free d refl), refl))
    go (some fd) true true (some d) true false free =
        (refl, (without_first fd h.fds, unmapped_first size fd d h.mappings (free d refl), refl))
    go (some fd) true true (some d) true true free = (
      refl,
      refl,
      (fd, refl, halves-IsMirror size fd d (reservation size d ∷ h.mappings)),
      without_first fd h.fds,
      (without_first fd h.fds, unmapped_both size fd d h.mappings (free d refl), refl),
    )
