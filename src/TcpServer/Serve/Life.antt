-- ===== src/TcpServer/Serve/Life.antt =====
-- The life of a server with its connections: every sequence of what happens on its loop's thread.
use hvnetpp.Prelude.{
  ℕ, zero, suc, ◌≤◌, ◌<◌, ◌≡◌, refl, ap, ◌∙◌, sym, subst, ◌⊎◌, inl, inr, true, List, [], ◌∷◌, none,
  some, length, arith, Result, ok, ◌>>=◌,
}
use hvnetpp.Buffer.{Buffer}
use hvnetpp.Buffer.Valid.{IsValid, contents}
use hvnetpp.Channel.{Channel, is_none_event}
use hvnetpp.TcpConnection.{Connection, Callbacks, is_disconnected}
use hvnetpp.TcpConnection.Life.{Step, Permitted}
use hvnetpp.TcpConnection.Closing.{is_use}
use hvnetpp.TcpServer.{Acceptor, Name, new}
use hvnetpp.TcpServer.Serve.{World, serve, use_connection, run_queued, destroy_one, end_server}
use hvnetpp.TcpServer.Serve.Entries.{count}
use hvnetpp.TcpServer.Serve.Sound.{At, IsServing, Goes}
use hvnetpp.TcpServer.Serve.Use.{use_connection-Goes}
use hvnetpp.TcpServer.Serve.Close.{run_queued_lem, end_server_lem}
use hvnetpp.TcpServer.Serve.Start.{established-IsSound, serve-Goes}

pub data Event : Type 0 where
  connects : ℕ → Callbacks → Channel → Buffer → Buffer → Event
  uses : ℕ → Step → Event
  runs_queued : Event
  ends : Event

pub happen : Event → World → Result World
unfolding serve use_connection run_queued end_server
happen (connects sockfd callbacks channel input output) w =
    serve sockfd callbacks channel input output w
happen (uses i s) w = use_connection i s w
happen runs_queued w = run_queued w
happen ends w = end_server w

pub run_events : List Event → World → Result World
unfolding happen
run_events [] w = ok w
run_events (e ∷ es) w = happen e w >>= run_events es

-- New buffers are empty and a new channel waits for nothing; the number of connections is an `int`;
-- what is done to a connection is what its own contract permits.
abbrev pub IsPossible : Event → World → Type 0
IsPossible (connects sockfd callbacks ch input output) w =
    IsValid input
    × IsValid output
    × (contents output ≡ [])
    × (is_none_event ch ≡ true)
    × (w.server.next_conn_id < 2147483647)
IsPossible (uses i s) w =
    (is_use s ≡ true) × ((c : Connection) → w.conns i ≡ some c → Permitted s c)
IsPossible runs_queued w = Unit {0}
IsPossible ends w = Unit {0}

abbrev pub ArePossible : List Event → World → Type 0
ArePossible [] w = Unit {0}
ArePossible (e ∷ es) w = IsPossible e w × ((w' : World) → happen e w ≡ ok w' → ArePossible es w')

run_queued-Goes : (w : World) → IsServing w → Goes (run_queued w)
unfolding run_queued
run_queued-Goes w (ids, v, e, g) = go w.queued refl
  where
    go : (l : List ℕ) → w.queued ≡ l → Goes (run_queued w)
    go [] q = inl (
      w,
      ap (λ l. elim l [ [] ↦ ok w | j ∷ js ↦ destroy_one j (record w { queued = js }) ]) q,
      (ids, v, e, g),
    )
    go (i ∷ is) q = let (c, f, t) = run_queued_lem w ids i is v q in inl (_, f, (ids, t, e, g))

happen-Goes : (e : Event) (w : World) → IsServing w → IsPossible e w → Goes (happen e w)
unfolding happen
happen-Goes (connects sockfd callbacks ch input output) w v (i, o, z, q, l) =
    serve-Goes sockfd callbacks ch input output w
      (established-IsSound sockfd callbacks ch input output i o z q) l v
happen-Goes (uses i s) w v (u, p) = use_connection-Goes i s w u p v
happen-Goes runs_queued w v p = run_queued-Goes w v
happen-Goes ends w v p = let (w', e, v', a, q) = end_server_lem w v in inl (w', e, v')

-- Whatever happens on the loop's thread to a server whose name has at most 51 characters, and to its
-- connections, no assertion fails, neither the connections' nor that of the map of connections, unless
-- a buffer passes its limit. At the end every connection that was made is either kept under its own
-- name and open, or waits for `connectDestroyed` once, or has been destroyed once, and is disconnected
-- in the latter two cases. What happens is possible: new connections are fresh, what is done to a
-- connection is what its contract permits, and fewer than 2 ^ 31 - 1 connections are made.
pub run_events-Goes :
    (es : List Event) (w : World) → IsServing w → ArePossible es w → Goes (run_events es w)
unfolding run_events
run_events-Goes [] w v p = inl (w, refl, v)
run_events-Goes (e ∷ es) w v (p, q) = elim (happen-Goes e w v p) [
  | inl (w', g, v') ↦
      subst Goes (sym (ap (λ x. x >>= run_events es) g)) (run_events-Goes es w' v' (q w' g))
  | inr g ↦ inr (ap (λ x. x >>= run_events es) g)
]

-- The functors that wait, in order.
pub drain_queued : ℕ → World → Result World
unfolding run_queued
drain_queued zero w = ok w
drain_queued (suc n) w = run_queued w >>= drain_queued n

List-cases : (l : List ℕ) → (l ≡ []) ⊎ ((i : ℕ) × (is : List ℕ) × (l ≡ i ∷ is))
List-cases [] = inl refl
List-cases (i ∷ is) = inr (i, is, refl)

drain_queued_lem :
    (n : ℕ) (w : World)
    → length w.queued ≡ n
    → IsServing w
    → (w' : World) × (drain_queued n w ≡ ok w')
      × IsServing w'
      × (w'.alive ≡ w.alive)
      × (w'.queued ≡ [])
unfolding drain_queued
drain_queued_lem zero w h v = elim (List-cases w.queued) [
  | inl q ↦ (w, refl, v, refl, q)
  | inr (i, is, q) ↦ let l = ap length q in absurd (omega arith)
]
drain_queued_lem (suc n) w h (ids, v, e, g) = elim (List-cases w.queued) [
  | inl q ↦ let l = ap length q in absurd (omega arith)
  | inr (i, is, q) ↦
      let l = ap length q in
      let (c, f, t) = run_queued_lem w ids i is v q in
      let (w', k, v', a, m) = drain_queued_lem n _ (omega arith) (ids, t, e, g) in
      (w', ap (λ r. r >>= drain_queued n) f ∙ k, v', a, m)
]

-- After the server's destructor, and the functors that waited before it, every connection that was
-- ever made is disconnected and has been destroyed exactly once; no assertion fails on the way.
pub end_server-drains :
    (w : World)
    → IsServing w
    → (w' : World) × ((end_server w >>= drain_queued (length w.queued)) ≡ ok w')
      × ((i : ℕ) (c : Connection)
          → w'.conns i ≡ some c
          → (count i w'.destroyed ≡ 1) × (is_disconnected c.state ≡ true))
end_server-drains w v =
    let (w₁, e, v₁, a, q) = end_server_lem w v in
    let (w', f, (ids, v', m, g), b, z) = drain_queued_lem (length w.queued) w₁ (ap length q) v₁ in
    (
      w',
      ap (λ r. r >>= drain_queued (length w.queued)) e ∙ f,
      λ i c o.
          let (n, s, kept, gone) =
            subst (λ x. At x (count i ids) (count i w'.queued) (count i w'.destroyed)) o
              (v'.each i) in
          let none_kept : count i ids ≡ 0 = ap (count i) (g (b ∙ a)) in
          let none_queued : count i w'.queued ≡ 0 = ap (count i) z in (omega arith, gone none_kept),
    )

-- A new server, before its first connection.
abbrev pub begin : Name → Acceptor → World
begin name acceptor = record {
  server = new name acceptor;
  conns = λ i. none;
  queued = [];
  destroyed = [];
  alive = true;
}

pub begin-IsServing :
    (name : Name) (acceptor : Acceptor) → length name ≤ 51 → IsServing (begin name acceptor)
unfolding new
begin-IsServing name acceptor h = (
  [],
  record { each = λ i. refl; fresh = λ i l. refl; small = omega arith; short = h },
  refl,
  λ a. refl,
)
