-- ===== src/TcpServer/Serve/Sound.antt =====
-- What the server promises of its connections.
use hvnetpp.Prelude.{
  ℕ, ◌+◌, ◌≤◌, ◌<◌, ◌≡◌, subst, ◌⊎◌, inl, inr, true, false, List, [], Option, none, some, ◌==◌,
  if◌then◌else◌, length, arith, Bool-cases, Result, ok, err, length_error,
}
use hvnetpp.TcpConnection.{Connection, is_disconnected}
use hvnetpp.TcpConnection.Sound.{IsSound}
use hvnetpp.TcpServer.Serve.{World}
use hvnetpp.TcpServer.Serve.Entries.{entries, count}

-- A connection that the server keeps, by the numbers of times that it is kept, queued and destroyed.
abbrev pub IsKept : Connection → Type 0
IsKept c = (is_disconnected c.state ≡ false) × (c.callbacks.close ≡ true)

-- Every connection is in one of the three places, and it is open exactly as long as it is kept.
abbrev pub At : Option Connection → ℕ → ℕ → ℕ → Type 0
At none a b d = a + b + d ≡ 0
At (some c) a b d =
    (a + b + d ≡ 1) × IsSound c × (a ≡ 1 → IsKept c) × (a ≡ 0 → is_disconnected c.state ≡ true)

pub record Serves (ids : List ℕ) (w : World) : Type 0 where
  pub each : (i : ℕ) → At (w.conns i) (count i ids) (count i w.queued) (count i w.destroyed)
  pub fresh : (i : ℕ) → w.server.next_conn_id ≤ i → w.conns i ≡ none
  pub small : w.server.next_conn_id < 2147483648
  pub short : length w.server.name ≤ 51

-- The map of connections has those that are kept, under their names; none is kept any more once the
-- server is gone.
abbrev pub IsServing : World → Type 0
IsServing w =
    (ids : List ℕ) × Serves ids w
    × (w.server.connections ≡ entries w.server.name ids)
    × (w.alive ≡ false → ids ≡ [])

abbrev pub Goes : Result World → Type 0
Goes r = ((w : World) × (r ≡ ok w) × IsServing w) ⊎ (r ≡ err length_error)

At-cong :
    (o : Option Connection) (a a' b b' d d' : ℕ)
    → a' ≡ a
    → b' ≡ b
    → d' ≡ d
    → At o a b d
    → At o a' b' d'
At-cong none a a' b b' d d' e f g t = omega arith
At-cong (some c) a a' b b' d d' e f g (n, v, k, z) =
    (omega arith, v, λ h. k (omega arith), λ h. z (omega arith))

-- Connection `i` changes, and the others stay where they are.
pub At-set :
    (i : ℕ) (c : Connection) (conns : ℕ → Option Connection) (count_a count_b count_d a b d : ℕ → ℕ)
    → ((j : ℕ) → (i == j) ≡ false → At (conns j) (a j) (b j) (d j))
    → ((j : ℕ) → (i == j) ≡ false → (count_a j ≡ a j) × (count_b j ≡ b j) × (count_d j ≡ d j))
    → At (some c) (count_a i) (count_b i) (count_d i)
    → (j : ℕ) → At (if i == j then some c else conns j) (count_a j) (count_b j) (count_d j)
At-set i c conns p q r a b d each same here j = elim (Bool-cases (i == j)) [
  | inl e ↦ let f : i ≡ j = ground arith in rw e (subst (λ k. At (some c) (p k) (q k) (r k)) f here)
  | inr e ↦
      let (x, y, z) = same j e in
      rw e (At-cong (conns j) (a j) (p j) (b j) (q j) (d j) (r j) x y z (each j e))
]
