-- ===== src/TcpConnection/Tests.antt =====
-- A connection that sends and shuts down.
use hvnetpp.Prelude.{
  ℕ, ◌≡◌, ◌⊎◌, ◌++◌, ok, err, aborted, ◌>>=◌, refl, ap, true, false, List, [], ◌∷◌, arith, min,
  some, length, replicate,
}
use hvnetpp.Buffer.{Buffer, failed}
use hvnetpp.Buffer.Valid.{IsValid}
use hvnetpp.Channel.{Callback, Channel, none_event, read_event, write_event, fresh}
use hvnetpp.TcpConnection.{
  Connection, Callbacks, Written, wrote, write_failed, new, send_in_loop, handle_write, connected,
  disconnecting,
}
use hvnetpp.TcpConnection.Sound.{IsSound}
use hvnetpp.TcpConnection.Send.{IsWrite}
use hvnetpp.TcpConnection.Write.{Flows}
use hvnetpp.TcpConnection.Moves.{Does, handle_write-Does}
use hvnetpp.TcpConnection.Steps.{Proceeds}
use hvnetpp.TcpConnection.Receive.{IsRead}
use hvnetpp.TcpConnection.Life.{Step, establish, call_send, call_shutdown, writable_event}
use hvnetpp.TcpConnection.Dispatch.{
  Answers, closes_closed, handle_connection_event, handle_connection_event_lem,
}

abbrev empty : Buffer
empty = record { buffer = replicate 8 0; reader_index = 8; writer_index = 8 }

empty-IsValid : IsValid empty
empty-IsValid = record {
  front = omega arith;
  ordered = omega arith;
  within = omega arith;
  limit = omega arith;
}

abbrev callbacks : Callbacks
callbacks = record {
  connection = true;
  message = true;
  write_complete = true;
  high_water_mark = false;
  close = true;
}

abbrev channel : Channel
channel = record {
  fd = 9;
  events = none_event;
  revents = none_event;
  index = fresh;
  event_handling = false;
  added_to_loop = false;
  tied = false;
  callbacks = record { read = true; write = true; close = true; error = true };
}

abbrev conn : Connection
conn = new 9 callbacks channel empty empty

-- It takes two bytes at a time.
abbrev two : List ℕ → Written
two bytes = wrote (min 2 (length bytes))

abbrev count : Written → ℕ
count (wrote n) = n
count (write_failed e) = 0

two-IsWrite : IsWrite two
two-IsWrite = record {
  takes = λ bytes n h. omega (arith, ap count h);
  fails = λ bytes e h. ground arith;
}

abbrev message : List ℕ
message = 1 ∷ 2 ∷ 3 ∷ []

abbrev steps : List Step
steps =
    establish
    ∷ call_send true two message
    ∷ call_shutdown true
    ∷ writable_event two
    ∷ writable_event two
    ∷ []

abbrev live : Connection
live = record {
  state = connected;
  channel = record channel {
    events = read_event;
    revents = record read_event { epollout = true };
    added_to_loop = true;
  };
  socket_fd = some 9;
  callbacks = callbacks;
  high_water_mark = 2;
  input = empty;
  output = empty;
  wire = [];
  write_shut = false;
  calls = [];
}

live-IsSound : IsSound live
live-IsSound = record {
  in_valid = empty-IsValid;
  out_valid = empty-IsValid;
  writing = λ d. refl;
  quiet = λ d. ground arith;
  shut_state = λ t. ground arith;
  shut_flushed = λ t d. refl;
  half_closed = λ d z. ground arith;
  has_socket = λ d. refl;
}

-- An event with input and room for writing; the user answers with a message.
abbrev answers : Answers
answers = record { readv = λ n. failed 104; write = two; so_error = 0 }

abbrev user : Callback → List Step
user k = call_send true two message ∷ []

answers-IsRead : IsRead answers.readv
answers-IsRead n received e = absurd (ground arith)

handle_connection_event_lem_example :
    ((closes_closed true live ≡ true)
      × (handle_connection_event answers user true live ≡ err aborted))
    ⊎ ((closes_closed true live ≡ false)
        × Proceeds live (handle_connection_event answers user true live))
handle_connection_event_lem_example =
    handle_connection_event_lem answers user true live live-IsSound refl answers-IsRead two-IsWrite
      (λ k. ((two-IsWrite, omega arith), tt))

-- A hang-up is still to be handled when a send closes the connection: EPIPE is 32.
abbrev hung_up : Connection
hung_up = record live {
  channel = record live.channel { revents = record none_event { epollhup = true } };
}

hang_up_after_send :
    (send_in_loop (λ b. write_failed 32) message hung_up
      >>= handle_connection_event answers user true)
    ≡ err aborted
unfolding send_in_loop handle_connection_event
hang_up_after_send = refl

-- Three bytes wait, and the connection is on its way down.
abbrev waiting : Connection
waiting = record live {
  state = disconnecting;
  channel = record channel { events = write_event; added_to_loop = true };
  output = record {
    buffer = replicate 8 0 ++ (1 ∷ 2 ∷ 3 ∷ []);
    reader_index = 8;
    writer_index = 11;
  };
}

waiting-IsSound : IsSound waiting
waiting-IsSound = record {
  in_valid = empty-IsValid;
  out_valid = record {
    front = omega arith;
    ordered = omega arith;
    within = omega arith;
    limit = omega arith;
  };
  writing = λ d. refl;
  quiet = λ d. ground arith;
  shut_state = λ t. ground arith;
  shut_flushed = λ t d. ground arith;
  half_closed = λ d z. ground arith;
  has_socket = λ d. refl;
}

-- Two of them go out.
handle_write-Does_example :
    (c' : Connection) × (handle_write two waiting ≡ ok c') × Flows waiting c' × Does two waiting c'
handle_write-Does_example = handle_write-Does two waiting waiting-IsSound two-IsWrite
