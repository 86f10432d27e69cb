-- ===== src/MpscQueue/Fifo.antt =====
-- Producers and the consumer in any order: what comes out of the queue.
use hvnetpp.Prelude.{
  ℕ, zero, suc, ◌+◌, ◌-◌, ◌*◌, ◌^◌, ◌%◌, ◌≤◌, ◌<◌, ◌≡◌, refl, ap, ◌∙◌, sym, subst, inl, inr, List,
  [], ◌∷◌, ◌++◌, map, Option, none, some, arith,
}
use hvnetpp.MpscQueue.{Queue, new, reserved, try_reserve, commit, peek, consume}
use hvnetpp.MpscQueue.Tickets.{
  Tickets, Stands, start, new-Stands, issue, fill, take_one, place, reserved_lem, commit_lem,
  peek_lem, consume_lem,
}

-- The queues that a history reaches, with what the consumer has taken and with the tickets. A
-- producer may have loaded the head before `k` nodes were consumed, but the tail that it exchanges is
-- less than 2 ^ 26 nodes past that head: the tail counts 64 for a node in 32 bits, and comes round to
-- a value that the producer has loaded after 2 ^ 26 nodes (see Wrap). A node is committed once, by
-- the producer that reserved it.
pub data Reached : Queue → List ℕ → Tickets → Type 0 where
  begin : Reached new [] start
  reserves :
      {q : Queue} {out : List ℕ} {t : Tickets}
      → Reached q out t
      → (k r p : ℕ) (q' : Queue) → k ≤ t.taken
      → t.issued < t.taken - k + 2 ^ 26
      → r ≡ (64 * (t.taken - k)) % 4294967296
      → try_reserve r q.tail q ≡ reserved p q'
      → Reached q' out (issue t)
  commits :
      {q : Queue} {out : List ℕ} {t : Tickets}
      → Reached q out t
      → (i d : ℕ) → t.taken ≤ i
      → i < t.issued
      → t.cells i ≡ none
      → Reached (commit (place i) d 1 q) out (fill i d t)
  takes :
      {q : Queue} {out : List ℕ} {t : Tickets}
      → Reached q out t
      → (p : ℕ) → peek q ≡ some p
      → Reached (consume p q) (out ++ ((q.nodes p).datum ∷ [])) (take_one t)

-- What the first `n` tickets hold.
abbrev pub upto : ℕ → (ℕ → Option ℕ) → List (Option ℕ)
upto zero f = []
upto (suc n) f = upto n f ++ (f n ∷ [])

upto-cong : (n : ℕ) (f g : ℕ → Option ℕ) → ((i : ℕ) → i < n → f i ≡ g i) → upto n f ≡ upto n g
upto-cong zero f g h = refl
upto-cong (suc n) f g h =
    ap (λ l. l ++ (f n ∷ [])) (upto-cong n f g (λ i l. h i (omega arith)))
    ∙ ap (λ o. upto n g ++ (o ∷ [])) (h n (omega arith))

map-snoc : (xs : List ℕ) (x : ℕ) → map some (xs ++ (x ∷ [])) ≡ map some xs ++ (some x ∷ [])
map-snoc [] x = refl
map-snoc (y ∷ ys) x = ap (◌∷◌ (some y)) (map-snoc ys x)

abbrev pub InOrder : Queue → List ℕ → Tickets → Type 0
InOrder q out t = Stands q t × (map some out ≡ upto t.taken t.cells)

abbrev place_of : Option ℕ → ℕ
place_of none = 0
place_of (some p) = p

-- Whatever producers and the consumer do in whatever order, where the tail that a producer exchanges
-- is less than 2 ^ 26 nodes past the head that it loaded, the queue stands for the tickets, so that
-- no node is overwritten before it is consumed; and what has come out is what was committed under the
-- first tickets, each once and in the order of the reservations.
pub Reached-InOrder : {q : Queue} {out : List ℕ} {t : Tickets} → Reached q out t → InOrder q out t
Reached-InOrder begin = (new-Stands, refl)
Reached-InOrder (reserves {q} {out} {t} h k r p q' a b c e) =
    let (s, o) = Reached-InOrder h in
    (
      (reserved_lem k r p q q' t s a b c e).1,
      o ∙ upto-cong t.taken t.cells (issue t).cells (λ i l. ground (arith, s.ordered)),
    )
Reached-InOrder (commits {q} {out} {t} h i d a b c) =
    let (s, o) = Reached-InOrder h in
    (
      commit_lem i d q t s a b,
      o ∙ upto-cong t.taken t.cells (fill i d t).cells (λ j l. ground arith),
    )
Reached-InOrder (takes {q} {out} {t} h p e) =
    let (s, o) = Reached-InOrder h in
    elim (peek_lem q t s) [
      | inr (x, f) ↦ absurd (ground (arith, sym e ∙ f))
      | inl (d, x, l, f, y) ↦
          let w : place t.taken ≡ p = ap place_of (sym f ∙ e) in
          let held : t.cells t.taken ≡ some d = ground (arith, x, l) in
          (
            subst (λ z. Stands (consume z q) (take_one t)) w (consume_lem q t s l),
            map-snoc out (q.nodes p).datum
                ∙ ap (λ l. l ++ (some (q.nodes p).datum ∷ [])) o
                ∙ ap (λ z. upto t.taken t.cells ++ (z ∷ []))
                    (ap (λ z. some (q.nodes z).datum) (sym w) ∙ ap some y ∙ sym held),
          )
    ]
