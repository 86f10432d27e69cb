-- ===== src/Poller/Wait.antt =====
-- `poll`: the active channels, and the room for events.
use mathlib.Core.List.{append_assoc, append-nil}
use hvnetpp.Prelude.{
  ℕ, ◌*◌, ◌<◌, ◌≡◌, refl, ◌∙◌, sym, inl, inr, List, [], ◌∷◌, ◌++◌, map, Option, none, some, ◌==◌,
  if◌then◌else◌, length, arith, Bool-cases,
}
use hvnetpp.Channel.{Channel, Events}
use hvnetpp.Poller.{Channels, fill_active_channels, poll, set_revents}

abbrev pub address : ℕ × Events → ℕ
address (p, e) = p

abbrev reported : Option (List (ℕ × Events)) → List (ℕ × Events)
reported none = []
reported (some es) = es

-- The last events that are reported for a channel, if any are.
abbrev last_report : ℕ → List (ℕ × Events) → Events → Events
last_report a [] old = old
last_report a ((p, e) ∷ es) old = last_report a es (if p == a then e else old)

-- The channel, but for the events that occurred.
abbrev pub at_report : ℕ → List (ℕ × Events) → Channel → Channel
at_report a es c = record c { revents = last_report a es c.revents }

fill-active :
    (es : List (ℕ × Events)) (m : Channels) (active : List ℕ)
    → (fill_active_channels es (m, active)).1 ≡ active ++ map address es
unfolding fill_active_channels
fill-active [] m active = sym (append-nil active)
fill-active ((p, e) ∷ es) m active =
    fill-active es (set_revents p e m) (active ++ (p ∷ []))
    ∙ append_assoc active (p ∷ []) (map address es)

fill-revents :
    (es : List (ℕ × Events)) (m : Channels) (active : List ℕ) (a : ℕ)
    → (fill_active_channels es (m, active)).0 a ≡ at_report a es (m a)
unfolding fill_active_channels
fill-revents [] m active a = refl
fill-revents ((p, e) ∷ es) m active a =
    fill-revents es (set_revents p e m) (active ++ (p ∷ [])) a
    ∙ elim (Bool-cases (p == a)) [ inl h ↦ rw h refl | inr h ↦ rw h refl ]

-- `poll` puts the channels that `epoll_wait` reports behind the active ones, in its order, and gives
-- each channel the events last reported for it; the other channels stay as they are, and so does
-- all on an error. The room for events, where there is any, doubles exactly when the events filled
-- it.
pub poll_lem :
    (got : Option (List (ℕ × Events))) (size : ℕ) (m : Channels) (active : List ℕ)
    → 0 < size
    → ((poll got size (m, active)).0.1 ≡ active ++ map address (reported got))
      × ((a : ℕ) → (poll got size (m, active)).0.0 a ≡ at_report a (reported got) (m a))
      × ((poll got size (m, active)).1 ≡ (if length (reported got) == size then size * 2 else size))
unfolding poll
poll_lem none size m active h = (sym (append-nil active), λ a. refl, ground arith)
poll_lem (some []) size m active h = (sym (append-nil active), λ a. refl, ground arith)
poll_lem (some (e ∷ es)) size m active h =
    (fill-active (e ∷ es) m active, fill-revents (e ∷ es) m active, refl)
