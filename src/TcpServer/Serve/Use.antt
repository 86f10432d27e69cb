-- ===== src/TcpServer/Serve/Use.antt =====
-- What the channel and the users of a connection do, with the server's close callback.
use mathlib.Core.Bool.{true≢false}
use mathlib.Core.Option.{none-ne-some}
use hvnetpp.Prelude.{
  ltb, ltb→lt, ℕ, ◌≤◌, ◌<◌, ◌≡◌, refl, ap, ◌∙◌, sym, subst, inl, inr, true, false, List, [], ◌∷◌,
  ◌++◌, Option, none, some, ◌==◌, if◌then◌else◌, arith, Bool-cases, Result, ok, err, length_error,
  aborted, ◌>>=◌,
}
use hvnetpp.TcpConnection.{Connection}
use hvnetpp.TcpConnection.Sound.{IsSound}
use hvnetpp.TcpConnection.Steps.{Proceeds}
use hvnetpp.TcpConnection.Life.{Step, perform, Permitted, perform-Proceeds}
use hvnetpp.TcpConnection.Closing.{closes, IsMove, Quiet, Closes, is_use, perform-IsMove}
use hvnetpp.TcpServer.{Server, Name, conn_name, erase, remove_connection_in_loop}
use hvnetpp.TcpServer.Serve.{World, set_conn, use_connection, after_use, on_close}
use hvnetpp.TcpServer.Serve.Entries.{
  entries, count, without, is_one, count-snoc, count-without, IsSmall, erase-entries,
}
use hvnetpp.TcpServer.Serve.Sound.{At, Serves, IsServing, Goes, At-set}

-- A sound connection, or the limit of a buffer.
abbrev pub SoundOr : Result Connection → Type 0
SoundOr (ok c) = IsSound c
SoundOr (err f) = f ≡ length_error

pub Proceeds-SoundOr : (c : Connection) (r : Result Connection) → Proceeds c r → SoundOr r
Proceeds-SoundOr c r (inl (d, e, a)) = subst SoundOr (sym e) a.sound
Proceeds-SoundOr c r (inr e) = subst SoundOr (sym e) refl

-- A number in use is below the next one.
pub in_use :
    (ids : List ℕ) (w : World) (i : ℕ) (c : Connection)
    → Serves ids w
    → w.conns i ≡ some c
    → i < w.server.next_conn_id
in_use ids w i c v e = elim (Bool-cases (ltb i w.server.next_conn_id)) [
  | inl h ↦ ltb→lt i w.server.next_conn_id h
  | inr h ↦ absurd (none-ne-some c (sym (v.fresh i (ground arith)) ∙ e))
]

pub ids-IsSmall : (ids : List ℕ) (w : World) → Serves ids w → IsSmall ids
ids-IsSmall ids w v j h = go (w.conns j) refl (v.each j)
  where
    go :
        (o : Option Connection)
        → w.conns j ≡ o
        → At o (count j ids) (count j w.queued) (count j w.destroyed)
        → j < 2147483648
    go none e t = absurd (omega arith)
    go (some c) e t = omega (arith, in_use ids w j c v e, v.small)

pub fresh_set :
    (ids : List ℕ) (w : World) (i : ℕ) (c c' : Connection)
    → Serves ids w
    → w.conns i ≡ some c
    → (j : ℕ) → w.server.next_conn_id ≤ j
    → (if i == j then some c' else w.conns j) ≡ none
fresh_set ids w i c c' v e j h =
    let l = in_use ids w i c v e in let t : (i == j) ≡ false = ground arith in rw t (v.fresh j h)

Quiet-Goes :
    (i : ℕ) (c c' : Connection) (w : World)
    → IsServing w
    → w.conns i ≡ some c
    → IsSound c'
    → Quiet c c'
    → Goes (after_use i (closes c.calls) c' w)
unfolding after_use
Quiet-Goes i c c' w (ids, v, e, g) o s (t, n, k) =
    let test : (closes c'.calls == closes c.calls) ≡ true = ground arith in
    let (one, _, kept, gone) =
      subst (λ x. At x (count i ids) (count i w.queued) (count i w.destroyed)) o (v.each i) in
    rw test (
      inl (
        set_conn i c' w,
        refl,
        (
          ids,
          record {
            each =
                At-set i c' w.conns (λ j. count j ids) (λ j. count j w.queued)
                  (λ j. count j w.destroyed) (λ j. count j ids) (λ j. count j w.queued)
                  (λ j. count j w.destroyed) (λ j d. v.each j) (λ j d. (refl, refl, refl))
                  (
                    one,
                    s,
                    λ h. (t ∙ (kept h).0, ap (λ x. x.close) k ∙ (kept h).1),
                    λ z. t ∙ gone z,
                  );
            fresh = fresh_set ids w i c c' v o;
            small = v.small;
            short = v.short;
          },
          e,
          g,
        ),
      ))

pub is_one-other : (i j : ℕ) → (i == j) ≡ false → is_one (j == i) ≡ 0
is_one-other i j e = ground arith

pub is_one-same : (i : ℕ) → is_one (i == i) ≡ 1
is_one-same i = ground arith

remove-eq :
    (k : Name) (w : Server) (ms : List (Name × ℕ))
    → erase k w.connections ≡ some ms
    → remove_connection_in_loop k w ≡ ok (record w { connections = ms })
unfolding remove_connection_in_loop
remove-eq k w ms e =
    ap (λ o. elim o [ none ↦ err aborted | some l ↦ ok (record w { connections = l }) ]) e

on_close-eq :
    (i : ℕ) (w : World) (t : Server)
    → w.alive ≡ true
    → remove_connection_in_loop (conn_name w.server.name i) w.server ≡ ok t
    → on_close i w ≡ ok (record w { server = t; queued = w.queued ++ (i ∷ []) })
unfolding on_close
on_close-eq i w t a r =
    let next : Server → Result World =
      λ u. ok (record w { server = u; queued = w.queued ++ (i ∷ []) }) in
    ap
      (λ b.
        if b
        then (remove_connection_in_loop (conn_name w.server.name i) w.server >>= next)
        else ok w)
      a
    ∙ ap (λ m. m >>= next) r

-- The connection leaves the map, and waits for `connectDestroyed`.
Closes-Goes :
    (i : ℕ) (c c' : Connection) (w : World)
    → IsServing w
    → w.conns i ≡ some c
    → IsSound c'
    → Closes c c'
    → Goes (after_use i (closes c.calls) c' w)
unfolding after_use
Closes-Goes i c c' w (ids, v, e, g) o s (h, t, n, k) =
    let (total, _, kept, gone) =
      subst (λ x. At x (count i ids) (count i w.queued) (count i w.destroyed)) o (v.each i) in
    let here : count i ids ≡ 1 = elim (Bool-cases (count i ids == 0)) [
      | inl z ↦ absurd (ground (arith, h, gone (ground arith)))
      | inr z ↦ ground arith
    ] in
    let set = (kept here).1 in
    let test : (closes c'.calls == closes c.calls) ≡ false = ground (arith, n, set) in
    let alive : w.alive ≡ true = elim (Bool-cases w.alive) [
      | inl a ↦ a
      | inr a ↦ let x = ap (count i) (g a) in absurd (omega arith)
    ] in
    let small = ids-IsSmall ids w v in
    let found : erase (conn_name w.server.name i) w.server.connections
        ≡ some (entries w.server.name (without i ids)) =
      ap (erase (conn_name w.server.name i)) e
      ∙ erase-entries w.server.name i ids v.short (small i (omega arith)) small (omega arith) in
    let closed =
      on_close-eq i (set_conn i c' w) _ alive
        (remove-eq (conn_name w.server.name i) w.server _ found) in
    rw test (
      inl (
        record (set_conn i c' w) {
          server = record w.server { connections = entries w.server.name (without i ids) };
          queued = w.queued ++ (i ∷ []);
        },
        closed,
        (
          without i ids,
          record {
            each =
                At-set i c' w.conns (λ j. count j (without i ids))
                  (λ j. count j (w.queued ++ (i ∷ []))) (λ j. count j w.destroyed)
                  (λ j. count j ids) (λ j. count j w.queued) (λ j. count j w.destroyed)
                  (λ j d. v.each j)
                  (λ j d.
                    let z = is_one-other i j d in
                    (
                      omega (arith, count-without j i ids (omega arith)),
                      omega (arith, count-snoc j i w.queued),
                      refl,
                    ))
                  (
                    omega (
                      arith,
                      count-without i i ids (omega arith),
                      count-snoc i i w.queued,
                      is_one-same i,
                    ),
                    s,
                    λ z. absurd (omega (arith, count-without i i ids (omega arith), is_one-same i)),
                    λ z. t,
                  );
            fresh = fresh_set ids w i c c' v o;
            small = v.small;
            short = v.short;
          },
          refl,
          λ a. absurd (true≢false (sym alive ∙ a)),
        ),
      ))

-- Nothing that the channel or the users of a connection do is a fault of the server.
pub use_connection-Goes :
    (i : ℕ) (s : Step) (w : World)
    → is_use s ≡ true
    → ((c : Connection) → w.conns i ≡ some c → Permitted s c)
    → IsServing w
    → Goes (use_connection i s w)
unfolding use_connection
use_connection-Goes i s w u p (ids, v, e, g) = go (w.conns i) refl (v.each i)
  where
    moved :
        (c : Connection) (r : Result Connection)
        → w.conns i ≡ some c
        → SoundOr r
        → IsMove c r
        → Goes (r >>= λ c'. after_use i (closes c.calls) c' w)
    moved c (err f) o k m = inr (ap err k)
    moved c (ok c') o k (inl q) = Quiet-Goes i c c' w (ids, v, e, g) o k q
    moved c (ok c') o k (inr q) = Closes-Goes i c c' w (ids, v, e, g) o k q

    go :
        (o : Option Connection)
        → w.conns i ≡ o
        → At o (count i ids) (count i w.queued) (count i w.destroyed)
        → Goes (elim o [
          | none ↦ ok w
          | some c ↦ perform s c >>= λ c'. after_use i (closes c.calls) c' w
        ])
    go none o t = inl (w, refl, (ids, v, e, g))
    go (some c) o (n, k, kept, gone) =
        moved c (perform s c) o (Proceeds-SoundOr c (perform s c) (perform-Proceeds s c k (p c o)))
          (perform-IsMove s c u)
