-- ===== src/Poller/Tests.antt =====
-- The poller with a kernel whose `epoll_ctl` always succeeds.
use hvnetpp.Prelude.{
  ℕ, refl, ap, sym, true, false, List, [], ◌∷◌, Option, none, some, ◌==◌, if◌then◌else◌,
}
use hvnetpp.Channel.{Channel, Events, fresh, read_event, none_event}
use hvnetpp.Poller.{Epoll, effect, Poller, init_event_list_size}
use hvnetpp.Poller.History.{World, changes, replaces, happen_all, AllSynced, Goes, happen_all-Goes}

abbrev look : Option (ℕ → Option Events) → ℕ → Option Events
look none f = none
look (some k) f = k f

abbrev obliging : Epoll
obliging = record {
  Kernel = ℕ → Option Events;
  watched = λ k f. k f;
  ctl = λ op fd e k. some (λ f. if fd == f then effect op e else k f);
  ctl_effect = λ op fd e k k' h f. ap (λ o. look o f) (sym h);
  ctl_del_watched = λ fd e e' k h. (_, refl);
}

abbrev seven : Channel
seven = record {
  fd = 7;
  events = none_event;
  revents = none_event;
  index = fresh;
  event_handling = false;
  added_to_loop = false;
  tied = false;
  callbacks = record { read = true; write = false; close = false; error = false };
}

abbrev idle : Poller obliging
idle = record { kernel = λ f. none; channels = λ f. none; events_size = init_event_list_size }

abbrev two_events : List (ℕ × Events)
two_events = (100, read_event) ∷ (200, read_event) ∷ []

-- The channel at each address has the descriptor of the same number.
abbrev begin : World obliging
begin = record { at = λ a. record seven { fd = a }; poller = idle }

begin-AllSynced : AllSynced obliging begin
begin-AllSynced = record {
  apart = λ a b n e. n e;
  each = λ a. (refl, refl, refl, refl);
  no_other = λ f n. (refl, refl);
}

happen_all-Goes_example : Goes obliging (
    happen_all obliging
      (replaces 7 seven ∷ changes 7 read_event ∷ changes 8 read_event ∷ changes 7 none_event ∷ [])
      begin)
happen_all-Goes_example =
    happen_all-Goes obliging
      (replaces 7 seven ∷ changes 7 read_event ∷ changes 8 read_event ∷ changes 7 none_event ∷ [])
      begin begin-AllSynced
      (
        (refl, refl, refl, refl, λ a n e. n (sym e)),
        λ w h. (tt, λ w' h'. (tt, λ x i. (tt, λ y j. tt))),
      )
