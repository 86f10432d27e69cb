-- ===== src/TcpServer/Serve/Close.antt =====
-- `connectDestroyed`: for the connections that wait for it, and for all in the server's destructor.
use hvnetpp.Prelude.{
  ℕ, ◌+◌, ◌≤◌, ◌<◌, ◌≡◌, refl, ap, ◌∙◌, true, false, List, [], ◌∷◌, ◌++◌, Option, none, some, ◌==◌,
  if◌then◌else◌, arith, ok, ◌>>=◌,
}
use hvnetpp.TcpConnection.{Connection, is_disconnected, connect_destroyed}
use hvnetpp.TcpConnection.Sound.{IsSound}
use hvnetpp.TcpConnection.Receive.{connect_destroyed_lem}
use hvnetpp.TcpServer.{idle}
use hvnetpp.TcpServer.Serve.{
  World, set_conn, destroy_one, run_queued, forget_callback, destroy_all, end_server,
}
use hvnetpp.TcpServer.Serve.Entries.{entries, count, is_one, count-snoc}
use hvnetpp.TcpServer.Serve.Sound.{At, Serves, IsServing, At-set}
use hvnetpp.TcpServer.Serve.Use.{is_one-other, is_one-same, fresh_set, in_use}

-- The connection is disconnected, and the number noted.
abbrev marked : ℕ → Connection → World → World
marked i c w = record (set_conn i c w) { destroyed = w.destroyed ++ (i ∷ []) }

destroy_one_lem :
    (i : ℕ) (c : Connection) (w : World)
    → w.conns i ≡ some c
    → IsSound c
    → (c' : Connection) × (destroy_one i w ≡ ok (marked i c' w))
      × IsSound c'
      × (is_disconnected c'.state ≡ true)
unfolding destroy_one
destroy_one_lem i c w o s =
    let (c', e, k, d) = connect_destroyed_lem c s in
    (
      c',
      ap (λ x. elim x [ none ↦ ok w | some b ↦ connect_destroyed b >>= λ b'. ok (marked i b' w) ]) o
          ∙ ap (λ r. r >>= λ b'. ok (marked i b' w)) e,
      k,
      d,
    )

-- A number in one of the places has a connection.
At-some :
    (o : Option Connection) (a b d : ℕ)
    → At o a b d
    → 0 < a + b + d
    → (c : Connection) × (o ≡ some c) × At (some c) a b d
At-some none a b d t h = absurd (omega arith)
At-some (some c) a b d t h = (c, refl, t)

-- The first functor that waits is run.
pub run_queued_lem :
    (w : World) (ids : List ℕ) (i : ℕ) (is : List ℕ)
    → Serves ids w
    → w.queued ≡ i ∷ is
    → (c : Connection) × (run_queued w ≡ ok (marked i c (record w { queued = is })))
      × Serves ids (marked i c (record w { queued = is }))
unfolding run_queued
run_queued_lem w ids i is v q =
    let same = is_one-same i in
    let first : count i w.queued ≡ 1 + count i is = ap (count i) q ∙ omega arith in
    let (c, o, (total, k, kept, gone)) = At-some (w.conns i) _ _ _ (v.each i) (omega arith) in
    let (c', e, k', d) = destroy_one_lem i c (record w { queued = is }) o k in
    (
      c',
      ap (λ l. elim l [ [] ↦ ok w | j ∷ js ↦ destroy_one j (record w { queued = js }) ]) q ∙ e,
      record {
        each =
            At-set i c' w.conns (λ j. count j ids) (λ j. count j is)
              (λ j. count j (w.destroyed ++ (i ∷ []))) (λ j. count j ids) (λ j. count j w.queued)
              (λ j. count j w.destroyed) (λ j n. v.each j)
              (λ j n.
                let z = is_one-other i j n in
                let p : count j w.queued ≡ is_one (j == i) + count j is = ap (count j) q in
                (refl, omega arith, omega (arith, count-snoc j i w.destroyed)))
              (omega (arith, count-snoc i i w.destroyed), k', λ h. absurd (omega arith), λ h. d);
        fresh = fresh_set ids w i c c' v o;
        small = v.small;
        short = v.short;
      },
    )

-- The connection as the destructor leaves it before `connectDestroyed`.
abbrev silenced : Connection → Connection
silenced c = record c { callbacks = record c.callbacks { close = false } }

forget_callback-eq :
    (i : ℕ) (c : Connection) (w : World)
    → w.conns i ≡ some c
    → forget_callback i w ≡ set_conn i (silenced c) w
unfolding forget_callback
forget_callback-eq i c w o = ap (λ x. elim x [ none ↦ w | some b ↦ set_conn i (silenced b) w ]) o

if-same : (i : ℕ) (c : Connection) (o : Option Connection) → (if i == i then some c else o) ≡ some c
if-same i c o = ground arith

-- All that are kept are destroyed.
pub destroy_all_lem :
    (ids : List ℕ) (w : World)
    → Serves ids w
    → (w' : World) × (destroy_all (entries w.server.name ids) w ≡ ok w')
      × Serves [] w'
      × (w'.server ≡ w.server)
      × (w'.alive ≡ w.alive)
      × (w'.queued ≡ w.queued)
unfolding destroy_all
destroy_all_lem [] w v = (w, refl, v, refl, refl, refl)
destroy_all_lem (i ∷ is) w v =
    let same = is_one-same i in
    let (c, o, (total, k, kept, gone)) = At-some (w.conns i) _ _ _ (v.each i) (omega arith) in
    let w₀ = set_conn i (silenced c) w in
    let (c', e, k', d) =
      destroy_one_lem i (silenced c) w₀ (if-same i (silenced c) (w.conns i))
        (silenced-IsSound c k) in
    let next : Serves is (marked i c' w₀) = record {
      each =
          At-set i c' w₀.conns (λ j. count j is) (λ j. count j w.queued)
            (λ j. count j (w.destroyed ++ (i ∷ []))) (λ j. count j (i ∷ is)) (λ j. count j w.queued)
            (λ j. count j w.destroyed) (λ j n. rw n (v.each j))
            (λ j n.
              let z = is_one-other i j n in
              (omega arith, refl, omega (arith, count-snoc j i w.destroyed)))
            (omega (arith, count-snoc i i w.destroyed), k', λ h. absurd (omega arith), λ h. d);
      fresh = λ j l. let n : (i == j) ≡ false = not_next i c w j o v l in rw n (v.fresh j l);
      small = v.small;
      short = v.short;
    } in
    let (w', f, s, g, a, q) = destroy_all_lem is (marked i c' w₀) next in
    (
      w',
      ap (λ x. destroy_one i x >>= destroy_all (entries w.server.name is))
            (forget_callback-eq i c w o)
          ∙ ap (λ r. r >>= destroy_all (entries w.server.name is)) e
          ∙ f,
      s,
      g,
      a,
      q,
    )
  where
    silenced-IsSound : (c : Connection) → IsSound c → IsSound (silenced c)
    silenced-IsSound c s = s

    not_next :
        (i : ℕ) (c : Connection) (w : World) (j : ℕ)
        → w.conns i ≡ some c
        → Serves (i ∷ is) w
        → w.server.next_conn_id ≤ j
        → (i == j) ≡ false
    not_next i c w j o v l = let h = in_use (i ∷ is) w i c v o in ground arith

-- The destructor destroys every connection that is kept, without a fault.
pub end_server_lem :
    (w : World)
    → IsServing w
    → (w' : World) × (end_server w ≡ ok w')
      × IsServing w'
      × (w'.alive ≡ false)
      × (w'.queued ≡ w.queued)
unfolding end_server
end_server_lem w (ids, v, e, g) =
    let w₀ : World = record w {
      alive = false;
      server = record w.server { state = idle; connections = [] };
    } in
    let v₀ : Serves ids w₀ = record {
      each = v.each;
      fresh = v.fresh;
      small = v.small;
      short = v.short;
    } in
    let (w', f, s, h, a, q) = destroy_all_lem ids w₀ v₀ in
    (w', ap (λ l. destroy_all l w₀) e ∙ f, ([], s, ap (λ x. x.connections) h, λ b. refl), a, q)
