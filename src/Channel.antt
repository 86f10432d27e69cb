-- ===== src/Channel.antt =====
-- include/hvnetpp/Channel.h and src/Channel.cpp, but for the calls of the loop, which stand in
-- `Poller`. A set of epoll events is a record of the bits that the program names.
pub mod Dispatch
mod Tests
use hvnetpp.Prelude.{ℕ, Bool, true, false, List, [], ◌∷◌, ◌++◌, ◌&&◌, ◌||◌, not, if◌then◌else◌}

pub record Events : Type 0 where
  pub epollin : Bool
  pub epollpri : Bool
  pub epollout : Bool
  pub epollerr : Bool
  pub epollhup : Bool
  pub epollrdhup : Bool

abbrev pub none_event : Events
none_event = record {
  epollin = false;
  epollpri = false;
  epollout = false;
  epollerr = false;
  epollhup = false;
  epollrdhup = false;
}

abbrev pub read_event : Events
read_event = record none_event { epollin = true; epollpri = true }

abbrev pub write_event : Events
write_event = record none_event { epollout = true }

-- `a | b`, `a & b` and `a & ~b`
abbrev pub union : Events → Events → Events
union a b = record {
  epollin = a.epollin || b.epollin;
  epollpri = a.epollpri || b.epollpri;
  epollout = a.epollout || b.epollout;
  epollerr = a.epollerr || b.epollerr;
  epollhup = a.epollhup || b.epollhup;
  epollrdhup = a.epollrdhup || b.epollrdhup;
}

abbrev pub inter : Events → Events → Events
inter a b = record {
  epollin = a.epollin && b.epollin;
  epollpri = a.epollpri && b.epollpri;
  epollout = a.epollout && b.epollout;
  epollerr = a.epollerr && b.epollerr;
  epollhup = a.epollhup && b.epollhup;
  epollrdhup = a.epollrdhup && b.epollrdhup;
}

abbrev pub complement : Events → Events
complement a = record {
  epollin = not a.epollin;
  epollpri = not a.epollpri;
  epollout = not a.epollout;
  epollerr = not a.epollerr;
  epollhup = not a.epollhup;
  epollrdhup = not a.epollrdhup;
}

-- Whether the number is not 0.
abbrev pub any_event : Events → Bool
any_event a = a.epollin || a.epollpri || a.epollout || a.epollerr || a.epollhup || a.epollrdhup

-- `index_`: -1, 1 and 2.
pub data Index : Type 0 where
  fresh registered deleted : Index

-- Which of the four callbacks are set.
pub record Callbacks : Type 0 where
  pub read : Bool
  pub write : Bool
  pub close : Bool
  pub error : Bool

pub record Channel : Type 0 where
  pub fd : ℕ
  pub events : Events
  pub revents : Events
  pub index : Index
  pub event_handling : Bool
  pub added_to_loop : Bool
  pub tied : Bool
  pub callbacks : Callbacks

pub new : ℕ → Channel
new fd = record {
  fd = fd;
  events = none_event;
  revents = none_event;
  index = fresh;
  event_handling = false;
  added_to_loop = false;
  tied = false;
  callbacks = record { read = false; write = false; close = false; error = false };
}

abbrev pub tie : Channel → Channel
tie c = record c { tied = true }

abbrev pub is_none_event : Channel → Bool
is_none_event c = not (any_event c.events)

abbrev pub is_writing : Channel → Bool
is_writing c = any_event (inter c.events write_event)

abbrev pub is_reading : Channel → Bool
is_reading c = any_event (inter c.events read_event)

-- The changes of interest; each is followed by `update`.
abbrev pub want_reading : Channel → Channel
want_reading c = record c { events = union c.events read_event }

abbrev pub drop_reading : Channel → Channel
drop_reading c = record c { events = inter c.events (complement read_event) }

abbrev pub want_writing : Channel → Channel
want_writing c = record c { events = union c.events write_event }

abbrev pub drop_writing : Channel → Channel
drop_writing c = record c { events = inter c.events (complement write_event) }

abbrev pub drop_all : Channel → Channel
drop_all c = record c { events = none_event }

pub data Callback : Type 0 where
  on_close on_error on_read on_write : Callback

abbrev pub call_if : Bool → Callback → List Callback
call_if true k = k ∷ []
call_if false k = []

-- The callbacks that `handleEventWithGuard` calls, in order.
unfoldable pub handle_event_with_guard : Channel → List Callback
handle_event_with_guard c =
    call_if (r.epollhup && not r.epollin && c.callbacks.close) on_close
    ++ (call_if (r.epollerr && c.callbacks.error) on_error
        ++ (call_if ((r.epollin || r.epollpri || r.epollrdhup) && c.callbacks.read) on_read
            ++ call_if (r.epollout && c.callbacks.write) on_write))
  where
    r : Events
    r = c.revents

-- `alive` says whether the tied object can be locked.
unfoldable pub handle_event : Bool → Channel → List Callback
unfolding handle_event_with_guard
handle_event alive c = if c.tied && not alive then [] else handle_event_with_guard c
