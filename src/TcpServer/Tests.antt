-- ===== src/TcpServer/Tests.antt =====
-- Names and descriptors of a server.
use hvnetpp.Prelude.{◌≡◌, refl, true, false, List, [], ◌∷◌, none, some, arith, replicate, ok}
use hvnetpp.TcpServer.{
  Acceptor, Accepted, accepted, too_many_files, accept_all, new_acceptor, Server, new,
  new_connection, conn_name, same_name,
}
use hvnetpp.TcpServer.Accept.{accept_all_lem}
use hvnetpp.TcpServer.Errno.{Round, got, failed, handle_accepts, handle_accepts-accept_all}
use hvnetpp.TcpServer.Names.{conn_name_lem, new_connection-replaces}

abbrev acceptor : Acceptor
acceptor = record {
  accept_socket = some 3;
  idle_fd = some 4;
  listening = true;
  has_callback = true;
  handed = [];
  closed = [];
}

abbrev results : List Accepted
results = accepted 5 ∷ accepted 6 ∷ too_many_files (some 4) (some 7) ∷ []

accept_all_lem_example :
    ((accept_all results acceptor).handed ≡ 5 ∷ 6 ∷ [])
    × ((accept_all results acceptor).closed ≡ 4 ∷ 4 ∷ [])
    × ((accept_all results acceptor).idle_fd ≡ some 7)
    × ((accept_all results acceptor).accept_socket ≡ some 3)
    × ((accept_all results acceptor).listening ≡ true)
accept_all_lem_example = accept_all_lem results acceptor

-- A connection, and then the limit of descriptors.
abbrev tries : List Round
tries =
    record { tried = got 5; extra = none; idle = none }
    ∷ record { tried = failed 24; extra = some 4; idle = some 7 }
    ∷ []

handle_accepts-accept_all_example :
    handle_accepts tries acceptor
    ≡ ok (accept_all (accepted 5 ∷ too_many_files (some 4) (some 7) ∷ []) acceptor)
handle_accepts-accept_all_example = handle_accepts-accept_all tries acceptor

-- "-a#12" behind "a"
second : conn_name (97 ∷ []) 12 ≡ 97 ∷ 45 ∷ 97 ∷ 35 ∷ 49 ∷ 50 ∷ []
unfolding conn_name
second = refl

conn_name_lem_example : same_name (conn_name (97 ∷ []) 12) (conn_name (97 ∷ []) 13) ≡ false
conn_name_lem_example = conn_name_lem (97 ∷ []) 12 13 (omega arith) (omega arith) (omega arith)

abbrev long : Server
long = new (replicate 62 97) (new_acceptor none)

new_connection-replaces_example :
    (new_connection 6 (new_connection 5 long)).connections ≡ (new_connection 6 long).connections
unfolding new
new_connection-replaces_example = new_connection-replaces 5 6 long (omega arith)
