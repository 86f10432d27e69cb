-- ===== src/Poller.antt =====
-- src/Poller.cpp and include/hvnetpp/Poller.h, with the calls of src/Channel.cpp that go through the
-- loop. The kernel's epoll instance is a parameter: its state, what it watches, and `epoll_ctl`,
-- which gives the new state, or none on an error.
pub mod History
pub mod Sync
pub mod Wait
mod Tests
use hvnetpp.Prelude.{
  ℕ, ◌*◌, ◌≡◌, Bool, true, false, List, [], ◌∷◌, ◌++◌, Option, none, some, Result, ok, err, assert,
  aborted, ◌>>=◌, ◌>>◌, ltb, ◌==◌, ◌&&◌, ◌||◌, not, if◌then◌else◌, length,
}
use hvnetpp.Channel.{
  Channel, Events, Index, fresh, registered, deleted, is_none_event, want_reading, drop_reading,
  want_writing, drop_writing, drop_all,
}

pub data CtlOp : Type 0 where
  ctl_add ctl_mod ctl_del : CtlOp

-- What `epoll_ctl` leaves for the descriptor.
abbrev pub effect : CtlOp → Events → Option Events
effect ctl_add e = some e
effect ctl_mod e = some e
effect ctl_del e = none

-- The documented behaviour of `epoll_ctl`: a call that succeeds changes its own descriptor alone, and
-- a descriptor that is watched can be deleted.
pub record Epoll : Type 1 where
  pub Kernel : Type 0
  pub watched : Kernel → ℕ → Option Events
  pub ctl : CtlOp → ℕ → Events → Kernel → Option Kernel
  pub ctl_effect :
      (op : CtlOp) (fd : ℕ) (e : Events) (k k' : Kernel)
      → ctl op fd e k ≡ some k'
      → (f : ℕ) → watched k' f ≡ (if fd == f then effect op e else watched k f)
  pub ctl_del_watched :
      (fd : ℕ) (e e' : Events) (k : Kernel)
      → watched k fd ≡ some e'
      → (k' : Kernel) × (ctl ctl_del fd e k ≡ some k')

abbrev pub init_event_list_size : ℕ
init_event_list_size = 16

abbrev pub update_map : (ℕ → Option ℕ) → ℕ → Option ℕ → ℕ → Option ℕ
update_map m fd o f = if fd == f then o else m f

abbrev pub is_new : Index → Bool
is_new fresh = true
is_new registered = false
is_new deleted = true

abbrev pub is_registered : Index → Bool
is_registered registered = true
is_registered _ = false

abbrev pub is_known : Index → Bool
is_known fresh = false
is_known _ = true

abbrev maps_to : Option ℕ → ℕ → Bool
maps_to none p = false
maps_to (some a) p = a == p

-- The channels by address.
abbrev pub Channels : Type 0
Channels = ℕ → Channel

abbrev pub set_revents : ℕ → Events → Channels → Channels
set_revents p e m a = if p == a then record (m a) { revents = e } else m a

-- `fillActiveChannels`: the channels and the addresses collected so far.
pub fill_active_channels : List (ℕ × Events) → Channels × List ℕ → Channels × List ℕ
fill_active_channels [] s = s
fill_active_channels ((p, e) ∷ es) (m, active) =
    fill_active_channels es (set_revents p e m, active ++ (p ∷ []))

-- `poll`: `got` is what `epoll_wait` stored, none on an error; `size` is `events_.size()`.
pub poll : Option (List (ℕ × Events)) → ℕ → Channels × List ℕ → (Channels × List ℕ) × ℕ
unfolding fill_active_channels
poll none size s = (s, size)
poll (some []) size s = (s, size)
poll (some (e ∷ es)) size s =
    (fill_active_channels (e ∷ es) s, (if length (e ∷ es) == size then size * 2 else size))

module _ (E : Epoll) where
  open E use {Kernel, watched, ctl}

  -- `channels_` maps a descriptor to the channel's address; `events_size` is `events_.size()`.
  pub record Poller : Type 0 where
    pub kernel : Kernel
    pub channels : ℕ → Option ℕ
    pub events_size : ℕ

  -- The constructor; `epoll_create1` gives an instance, or none on an error.
  unfoldable pub create : Option Kernel → Result Poller
  create none = err aborted
  create (some k) =
      ok (record { kernel = k; channels = λ f. none; events_size = init_event_list_size })

  -- An error aborts, but for a deletion, which is only logged.
  abbrev on_error : CtlOp → Poller → Result Poller
  on_error ctl_del q = ok q
  on_error ctl_add q = err aborted
  on_error ctl_mod q = err aborted

  pub update : CtlOp → Channel → Poller → Result Poller
  update op c q = elim (ctl op c.fd c.events q.kernel) [
    | some k ↦ ok (record q { kernel = k })
    | none ↦ on_error op q
  ]

  -- `p` is the channel's address.
  pub update_channel : ℕ → Channel → Poller → Result (Channel × Poller)
  unfolding update
  update_channel p c q =
      if is_new c.index
      then (if is_none_event c
          then ok (c, q)
          else (update ctl_add c q >>= λ q'. ok (
            record c { index = registered },
            record q' { channels = update_map q'.channels c.fd (some p) },
          )))
      else (if is_none_event c
          then (update ctl_del c q >>= λ q'. ok (record c { index = deleted }, q'))
          else (update ctl_mod c q >>= λ q'. ok (c, q')))

  pub remove_channel : ℕ → Channel → Poller → Result (Channel × Poller)
  unfolding update
  remove_channel p c q = do
    assert (maps_to (q.channels c.fd) p)
    assert (is_none_event c)
    assert (is_known c.index)
    let q₁ : Poller = record q { channels = update_map q.channels c.fd none }
    q₂ ← if is_registered c.index then update ctl_del c q₁ else ok q₁
    ok (record c { index = fresh }, q₂)

  pub has_channel : ℕ → Channel → Poller → Bool
  has_channel p c q = maps_to (q.channels c.fd) p

  -- `Channel::update` and `Channel::remove`, through the loop.
  unfoldable pub update_in_loop : ℕ → Channel → Poller → Result (Channel × Poller)
  update_in_loop p c q =
      if not c.added_to_loop && is_none_event c
      then ok (c, q)
      else update_channel p (record c { added_to_loop = true }) q

  pub enable_reading : ℕ → Channel → Poller → Result (Channel × Poller)
  enable_reading p c q = update_in_loop p (want_reading c) q

  pub disable_reading : ℕ → Channel → Poller → Result (Channel × Poller)
  disable_reading p c q = update_in_loop p (drop_reading c) q

  pub enable_writing : ℕ → Channel → Poller → Result (Channel × Poller)
  enable_writing p c q = update_in_loop p (want_writing c) q

  pub disable_writing : ℕ → Channel → Poller → Result (Channel × Poller)
  disable_writing p c q = update_in_loop p (drop_writing c) q

  pub disable_all : ℕ → Channel → Poller → Result (Channel × Poller)
  disable_all p c q = update_in_loop p (drop_all c) q

  unfoldable pub remove : ℕ → Channel → Poller → Result (Channel × Poller)
  remove p c q =
      if c.added_to_loop then remove_channel p (record c { added_to_loop = false }) q else ok (c, q)
