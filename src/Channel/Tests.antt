-- ===== src/Channel/Tests.antt =====
-- Events of one channel.
use hvnetpp.Prelude.{◌≡◌, refl, true, false, [], ◌∷◌}
use hvnetpp.Channel.{
  Channel, on_close, on_error, on_write, none_event, read_event, fresh, handle_event,
  handle_event_with_guard,
}

-- A hang-up with an error while output waits.
abbrev hung_up : Channel
hung_up = record {
  fd = 5;
  events = read_event;
  revents = record none_event { epollhup = true; epollerr = true; epollout = true };
  index = fresh;
  event_handling = false;
  added_to_loop = false;
  tied = true;
  callbacks = record { read = true; write = true; close = true; error = true };
}

hung_up_calls : handle_event true hung_up ≡ on_close ∷ on_error ∷ on_write ∷ []
unfolding handle_event handle_event_with_guard
hung_up_calls = refl
