-- ===== src/TcpServer/Serve/Start.antt =====
-- A new connection of the server.
use mathlib.Core.Bool.{true≢false}
use hvnetpp.Prelude.{
  ℕ, ◌+◌, ◌<◌, ◌≡◌, refl, ap, ◌∙◌, sym, subst, inl, Bool, true, false, [], ◌∷◌, ◌++◌, ◌==◌,
  if◌then◌else◌, arith, ok,
}
use hvnetpp.Buffer.{Buffer}
use hvnetpp.Buffer.Valid.{IsValid, contents}
use hvnetpp.Channel.{Channel, is_none_event}
use hvnetpp.TcpConnection
use hvnetpp.TcpConnection.{Connection, Callbacks, connect_established, established, is_disconnected}
use hvnetpp.TcpConnection.Sound.{IsSound}
use hvnetpp.TcpConnection.Steps.{establish-Proceeds}
use hvnetpp.TcpConnection.Life.{new-IsSound}
use hvnetpp.TcpServer.{conn_name, put, new_connection}
use hvnetpp.TcpServer.Serve.{World, set_conn, serve}
use hvnetpp.TcpServer.Serve.Entries.{count, count-snoc, put-entries}
use hvnetpp.TcpServer.Serve.Sound.{At, IsServing, Goes, At-set}
use hvnetpp.TcpServer.Serve.Use.{is_one-other, is_one-same, ids-IsSmall, Proceeds-SoundOr}

-- A new connection as `newConnection` makes it.
abbrev pub made : ℕ → Callbacks → Channel → Buffer → Buffer → Connection
made sockfd callbacks channel input output =
    TcpConnection.new sockfd (record callbacks { close = true }) channel input output

pub established-IsSound :
    (sockfd : ℕ) (callbacks : Callbacks) (ch : Channel) (input output : Buffer)
    → IsValid input
    → IsValid output
    → contents output ≡ []
    → is_none_event ch ≡ true
    → IsSound (established (made sockfd callbacks ch input output))
unfolding TcpConnection.new connect_established
established-IsSound sockfd callbacks ch input output i o z q =
    let c = made sockfd callbacks ch input output in
    Proceeds-SoundOr c (connect_established c) (
      establish-Proceeds c
        (new-IsSound sockfd (record callbacks { close = true }) ch input output i o z q) refl)

-- The world with a new connection.
abbrev pub served : Connection → World → World
served c w = record (set_conn w.server.next_conn_id c w) {
  server = new_connection w.server.next_conn_id w.server;
}

serve-eq :
    (sockfd : ℕ) (callbacks : Callbacks) (ch : Channel) (input output : Buffer) (w : World)
    → serve sockfd callbacks ch input output w ≡ (
        if w.alive
        then ok (served (established (made sockfd callbacks ch input output)) w)
        else ok w)
unfolding serve connect_established TcpConnection.new
serve-eq sockfd callbacks ch input output w = refl

pub served-IsServing :
    (c : Connection) (w : World)
    → IsSound c
    → is_disconnected c.state ≡ false
    → c.callbacks.close ≡ true
    → w.server.next_conn_id < 2147483647
    → w.alive ≡ true
    → IsServing w
    → IsServing (served c w)
unfolding new_connection
served-IsServing c w s d k l a (ids, v, e, g) =
    let i = w.server.next_conn_id in
    let same = is_one-same i in
    let none_yet : count i ids + count i w.queued + count i w.destroyed ≡ 0 =
      subst (λ o. At o (count i ids) (count i w.queued) (count i w.destroyed))
        (v.fresh i (omega arith)) (v.each i) in
    (
      ids ++ (i ∷ []),
      record {
        each =
            At-set i c w.conns (λ j. count j (ids ++ (i ∷ []))) (λ j. count j w.queued)
              (λ j. count j w.destroyed) (λ j. count j ids) (λ j. count j w.queued)
              (λ j. count j w.destroyed) (λ j n. v.each j)
              (λ j n. let z = is_one-other i j n in (omega (arith, count-snoc j i ids), refl, refl))
              (
                omega (arith, count-snoc i i ids),
                s,
                λ h. (d, k),
                λ h. absurd (omega (arith, count-snoc i i ids)),
              );
        fresh = λ j m. let n : (i == j) ≡ false = ground arith in rw n (v.fresh j (omega arith));
        small = omega arith;
        short = v.short;
      },
      ap (put (conn_name w.server.name i) i) e
          ∙ put-entries w.server.name i ids v.short (omega arith) (ids-IsSmall ids w v)
              (omega arith),
      λ b. absurd (true≢false (sym a ∙ b)),
    )

pub serve-Goes :
    (sockfd : ℕ) (callbacks : Callbacks) (ch : Channel) (input output : Buffer) (w : World)
    → IsSound (established (made sockfd callbacks ch input output))
    → w.server.next_conn_id < 2147483647
    → IsServing w
    → Goes (serve sockfd callbacks ch input output w)
unfolding TcpConnection.new
serve-Goes sockfd callbacks ch input output w s l v =
    let c = established (made sockfd callbacks ch input output) in
    rw (serve-eq sockfd callbacks ch input output w) (go c s refl refl w.alive refl)
  where
    go :
        (c : Connection)
        → IsSound c
        → is_disconnected c.state ≡ false
        → c.callbacks.close ≡ true
        → (b : Bool) → w.alive ≡ b
        → Goes (if b then ok (served c w) else ok w)
    go c s d k true a = inl (served c w, refl, served-IsServing c w s d k l a v)
    go c s d k false a = inl (w, refl, v)
