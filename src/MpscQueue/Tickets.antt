-- ===== src/MpscQueue/Tickets.antt =====
-- The queue as a row of tickets: a node reserved is a ticket, numbered without bound.
use hvnetpp.Prelude.{
  sym, ℕ, suc, ◌+◌, ◌-◌, ◌*◌, ◌^◌, ◌%◌, ◌≤◌, ◌<◌, ◌≡◌, refl, ap, ◌∙◌, subst, ◌⊎◌, inl, inr, true,
  false, Option, none, some, ltb, ◌==◌, if◌then◌else◌, arith, Bool-cases,
}
use hvnetpp.MpscQueue.{
  Attempt, retry, Node, Queue, node_size, size, new, get_pointer, head_ptr, add_uint, sub_uint,
  full, reserved, try_reserve, commit, peek, consume,
}

-- Tickets below `taken` were consumed, those below `issued` were reserved, and `cells` holds what
-- was committed under each.
pub record Tickets : Type 0 where
  pub taken : ℕ
  pub issued : ℕ
  pub cells : ℕ → Option ℕ

abbrev pub capacity : ℕ
capacity = 1024

-- Where the node of a ticket stands.
abbrev pub place : ℕ → ℕ
place t = (64 * t) % 65536

-- A node is empty, or committed with the datum.
abbrev pub Shows : Option ℕ → Node → Type 0
Shows none n = n.id ≡ 0
Shows (some d) n = (n.datum ≡ d) × (n.id ≡ 1)

abbrev pub ahead : Tickets → ℕ → Option ℕ
ahead t i = if ltb i t.issued then t.cells i else none

-- The queue stands for the tickets: head and tail count bytes modulo 2 ^ 32, at most 1024 nodes are
-- in use, and the nodes show what their tickets hold.
pub record Stands (q : Queue) (t : Tickets) : Type 0 where
  pub head : q.head ≡ (64 * t.taken) % 4294967296
  pub tail : q.tail ≡ (64 * t.issued) % 4294967296
  pub ordered : t.taken ≤ t.issued
  pub within : t.issued ≤ t.taken + capacity
  pub shows : (i : ℕ) → t.taken ≤ i → i < t.taken + capacity → Shows (ahead t i) (q.nodes (place i))

abbrev pub start : Tickets
start = record { taken = 0; issued = 0; cells = λ i. none }

pub new-Stands : Stands new start
unfolding new
new-Stands = record {
  head = omega arith;
  tail = omega arith;
  ordered = omega arith;
  within = omega arith;
  shows = λ i a b. ground arith;
}

abbrev pub issue : Tickets → Tickets
issue t = record t { issued = t.issued + 1; cells = λ i. if t.issued == i then none else t.cells i }

pointer-place : (t : ℕ) → get_pointer ((64 * t) % 4294967296) ≡ place t
pointer-place t = omega arith

-- A round of `reserve` whose tail is current, and whose head was loaded `k` nodes before, with less
-- than 2 ^ 26 nodes reserved since that head: it is refused only if 1024 nodes or more lie between
-- that head and the tail, and else reserves the node of the next ticket, and the queue stands for
-- the tickets with that one issued.
pub try_reserve_lem :
    (k r : ℕ) (q : Queue) (t : Tickets)
    → Stands q t
    → k ≤ t.taken
    → t.issued < t.taken - k + 2 ^ 26
    → r ≡ (64 * (t.taken - k)) % 4294967296
    → ((try_reserve r q.tail q ≡ full) × (t.taken - k + capacity ≤ t.issued))
      ⊎ ((q' : Queue) × (try_reserve r q.tail q ≡ reserved (place t.issued) q')
          × Stands q' (issue t)
          × (t.issued < t.taken - k + capacity))
unfolding try_reserve
try_reserve_lem k r q t s b c e = elim (Bool-cases (ltb (size - node_size) (sub_uint q.tail r))) [
  | inl h ↦ inl (rw h refl, ground (arith, s.tail, e))
  | inr h ↦
      let less : t.issued < t.taken - k + capacity = ground (arith, s.tail, e) in
      inr (
        record q { tail = add_uint q.tail node_size },
        ground (arith, ap get_pointer s.tail ∙ pointer-place t.issued),
        record {
          head = s.head;
          tail = omega (arith, s.tail);
          ordered = omega (arith, s.ordered);
          within = omega (arith, less);
          shows = λ i a b. subst (λ o. Shows o (q.nodes (place i))) (ground arith) (s.shows i a b);
        },
        less,
      )
]

abbrev node_of : Attempt → Queue → Queue
node_of full q = q
node_of retry q = q
node_of (reserved p q') q = q'

abbrev place_of : Attempt → ℕ
place_of (reserved p q) = p
place_of _ = 0

-- A round that succeeds gives the next ticket's node.
pub reserved_lem :
    (k r p : ℕ) (q q' : Queue) (t : Tickets)
    → Stands q t
    → k ≤ t.taken
    → t.issued < t.taken - k + 2 ^ 26
    → r ≡ (64 * (t.taken - k)) % 4294967296
    → try_reserve r q.tail q ≡ reserved p q'
    → (p ≡ place t.issued) × Stands q' (issue t)
reserved_lem k r p q q' t s a b c e = elim (try_reserve_lem k r q t s a b c) [
  | inl (f, x) ↦ absurd (ground (arith, sym e ∙ f))
  | inr (q'', f, s', x) ↦ (
    ap place_of (sym e ∙ f),
    subst (λ w. Stands w (issue t)) (ap (λ z. node_of z q) (sym f ∙ e)) s',
  )
]

abbrev pub fill : ℕ → ℕ → Tickets → Tickets
fill i d t = record t { cells = λ j. if i == j then some d else t.cells j }

places-apart : (h i j : ℕ) → h ≤ i → i < h + 1024 → h ≤ j → j < h + 1024 → place i ≡ place j → i ≡ j
places-apart h i j a b c d e = omega arith

-- A node reserved and not yet consumed is committed under its ticket.
pub commit_lem :
    (i d : ℕ) (q : Queue) (t : Tickets)
    → Stands q t
    → t.taken ≤ i
    → i < t.issued
    → Stands (commit (place i) d 1 q) (fill i d t)
unfolding commit
commit_lem i d q t s a b = record {
  head = s.head;
  tail = s.tail;
  ordered = s.ordered;
  within = s.within;
  shows = λ j x y. at j x y (Bool-cases (i == j));
}
  where
    at :
        (j : ℕ)
        → t.taken ≤ j
        → j < t.taken + capacity
        → ((i == j) ≡ true) ⊎ ((i == j) ≡ false)
        → Shows (ahead (fill i d t) j) ((commit (place i) d 1 q).nodes (place j))
    at j x y (inl e) =
        let p : (place i == place j) ≡ true = ground arith in
        let l : ltb j t.issued ≡ true = ground arith in rw (l, e, p) (refl, refl)
    at j x y (inr e) =
        let p : (place i == place j) ≡ false =
          ground (arith, places-apart t.taken i j a (omega (arith, s.within)) x y) in
        rw (e, p) (s.shows j x y)

-- `peek` gives the first ticket's node once it is committed.
pub peek_lem :
    (q : Queue) (t : Tickets)
    → Stands q t
    → ((d : ℕ) × (ahead t t.taken ≡ some d)
        × (t.taken < t.issued)
        × (peek q ≡ some (place t.taken))
        × ((q.nodes (place t.taken)).datum ≡ d))
      ⊎ ((ahead t t.taken ≡ none) × (peek q ≡ none))
unfolding peek
peek_lem q t s = go (ahead t t.taken) refl (s.shows t.taken (omega arith) (omega arith))
  where
    front : head_ptr q ≡ place t.taken
    front = ap get_pointer s.head ∙ pointer-place t.taken

    go :
        (o : Option ℕ)
        → ahead t t.taken ≡ o
        → Shows o (q.nodes (place t.taken))
        → ((d : ℕ) × (ahead t t.taken ≡ some d)
            × (t.taken < t.issued)
            × (peek q ≡ some (place t.taken))
            × ((q.nodes (place t.taken)).datum ≡ d))
          ⊎ ((ahead t t.taken ≡ none) × (peek q ≡ none))
    go none e z =
        let w : (q.nodes (head_ptr q)).id ≡ 0 = ap (λ p. (q.nodes p).id) front ∙ z in
        inr (e, ground (arith, w))
    go (some d) e (x, y) =
        let w : (q.nodes (head_ptr q)).id ≡ 1 = ap (λ p. (q.nodes p).id) front ∙ y in
        let l : t.taken < t.issued = ground (arith, e) in
        let n : (q.head == q.tail) ≡ false = ground (arith, s.head, s.tail, s.within, l) in
        inl (d, e, l, ground (arith, w, n, front), x)

abbrev pub take_one : Tickets → Tickets
take_one t = record t { taken = suc t.taken }

pub consume_lem :
    (q : Queue) (t : Tickets)
    → Stands q t
    → t.taken < t.issued
    → Stands (consume (place t.taken) q) (take_one t)
unfolding consume
consume_lem q t s a = record {
  head = omega (arith, s.head);
  tail = s.tail;
  ordered = omega (arith, a);
  within = omega (arith, s.within);
  shows = λ i x y. at i x y (Bool-cases (i == t.taken + capacity));
}
  where
    at :
        (i : ℕ)
        → suc t.taken ≤ i
        → i < suc t.taken + capacity
        → ((i == t.taken + capacity) ≡ true) ⊎ ((i == t.taken + capacity) ≡ false)
        → Shows (ahead (take_one t) i) ((consume (place t.taken) q).nodes (place i))
    at i x y (inl e) =
        let p : (place t.taken == place i) ≡ true = ground arith in
        let l : ltb i t.issued ≡ false = ground (arith, s.within) in rw (l, p) refl
    at i x y (inr e) =
        let p : (place t.taken == place i) ≡ false =
          ground (arith, places-apart t.taken t.taken i) in
        rw p (s.shows i (omega arith) (ground arith))
