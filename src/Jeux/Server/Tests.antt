-- ===== src/Jeux/Server/Tests.antt =====
-- A server for the theorems on hw5/src/server.c.
use c_starter_projects.Prelude.{
  ℕ, zero, suc, ap, ◌∙◌, ◌≡◌, refl, true, false, none, some, [], ◌∷◌, ◌++◌, arith,
}
use c_starter_projects.Prelude.Int.{ℤ, pos}
use c_starter_projects.Jeux.Run.{ok, Returning}
use c_starter_projects.Jeux.PlayerRegistry.{preg_init}
use c_starter_projects.Jeux.ClientRegistry.{creg_init}
use c_starter_projects.Jeux.Protocol.{JeuxPacketHeader, jeux_login_pkt, jeux_resign_pkt}
use c_starter_projects.Jeux.Protocol.{Rio}
use c_starter_projects.Jeux.Protocol.RoundTrip.{IsHeader, IsPipe}
use c_starter_projects.Jeux.Server.Connection.{
  Sending, IsSending, wire, moments_of, packets_of, serve_connection, IsClosed, ended,
  serve_connection-serve_each,
}
use c_starter_projects.Prelude.{List, All, take, drop}
use c_starter_projects.Jeux.Server.{Clients, Server, Moment, serve_each}
use c_starter_projects.Jeux.Server.Replies.{Packet, StaysIn, serve_each-StaysIn}
use c_starter_projects.Prelude.Int.{◌+ℤ◌}
use c_starter_projects.Prelude.Strings.{Text}
use c_starter_projects.Jeux.Store.{write}
use c_starter_projects.Jeux.Player.{player_create}
use c_starter_projects.Jeux.PlayerRegistry.{preg_register, preg_player_exists, exists_head}
use c_starter_projects.Jeux.PlayerRegistry.Register.{new_player, IsWellFormed}
use c_starter_projects.Jeux.ClientRegistry.{ClientRegistry, creg_register}
use c_starter_projects.Prelude.{length}
use c_starter_projects.Jeux.Server.{
  ack, nack, up_to_nul, c_string, send, answer, log_in, connect, serve,
}
use c_starter_projects.Jeux.Server.Interleaved.{
  Service, System, IsFresh, SystemReach, starts, connects, serves, SystemReach-IsWellFormed,
}
use c_starter_projects.Jeux.Server.Login.{nacks, serve_each_early}

-- Clients that agree to everything; a client is its descriptor.
abbrev clients : Clients ℤ Unit
clients = record {
  client_create = λ fd heap. (fd, heap);
  client_get_player = λ heap c. none;
  client_login = λ c p heap. (pos 0, heap);
  client_make_invitation = λ c d t r heap. (pos 3, heap);
  client_revoke_invitation = λ c id heap. (pos 0, heap);
  client_decline_invitation = λ c id heap. (pos 0, heap);
  client_accept_invitation = λ c id heap. (pos 0, none, heap);
  client_make_move = λ c id move heap. (pos 0, heap);
  client_resign_game = λ c id heap. (pos 0, heap);
}

abbrev fresh_server : Server ℤ Unit
fresh_server = record {
  player_registry = preg_init;
  players = λ p. none;
  client_registry = creg_init;
  heap = tt;
  sent = [];
}

abbrev now : Moment
now = record { behind = []; fill = []; fresh = 9; tv_sec = 5; tv_nsec = 6 }

abbrev header_for : ℕ → JeuxPacketHeader
header_for t = record {
  packet_type = t;
  id = 0;
  role = 0;
  size = 0;
  timestamp_sec = 0;
  timestamp_nsec = 0;
}

abbrev login : Packet
login = (now, header_for jeux_login_pkt, some (b'b' ∷ b'o' ∷ b'b' ∷ []))

abbrev resignation : Packet
resignation = (now, header_for jeux_resign_pkt, none)

serve_each-StaysIn_example :
    Returning
      (StaysIn clients fresh_server)
      (serve_each clients (some (pos 7)) true (login ∷ resignation ∷ []) fresh_server)
serve_each-StaysIn_example =
    serve_each-StaysIn clients (some (pos 7)) (login ∷ resignation ∷ []) fresh_server

serve_each_early_example :
    serve_each clients (some (pos 7)) false (resignation ∷ []) fresh_server
    ≡ ok (false, record fresh_server { sent = [] ++ nacks 1 })
serve_each_early_example =
    serve_each_early clients (some (pos 7)) (resignation ∷ []) fresh_server
      ((λ e. omega (arith, e)), tt)

-- A connection that is the list of the bytes that wait.
abbrev queue : Rio (List ℕ)
queue = record {
  rio_writen = λ bytes fd. (true, fd ++ bytes);
  rio_readn = λ n fd. (some (take n fd), drop n fd);
}

queue-IsPipe : IsPipe queue (λ fd. fd)
queue-IsPipe = record {
  writes = λ bytes fd written. refl;
  reads = λ n fd le. refl;
  leaves = λ n fd le. refl;
}

abbrev two_packets : List Sending
two_packets =
    record {
      moment = now;
      header = record (header_for jeux_login_pkt) { size = 3 };
      payload = b'b' ∷ b'o' ∷ b'b' ∷ [];
    }
    ∷ record { moment = now; header = header_for jeux_resign_pkt; payload = [] }
    ∷ []

two_packets-IsSending : All IsSending two_packets
two_packets-IsSending =
    let byte : IsHeader (record (header_for jeux_login_pkt) { size = 3 }) = record {
      packet_type = omega arith;
      id = omega arith;
      role = omega arith;
      size = omega arith;
      timestamp_sec = omega arith;
      timestamp_nsec = omega arith;
    } in
    let other : IsHeader (header_for jeux_resign_pkt) = record {
      packet_type = omega arith;
      id = omega arith;
      role = omega arith;
      size = omega arith;
      timestamp_sec = omega arith;
      timestamp_nsec = omega arith;
    } in
    (record { header = byte; size = refl }, (record { header = other; size = refl }, tt))

abbrev empty : List ℕ
empty = []

take_nothing : (n : ℕ) → take n empty ≡ empty
take_nothing zero = refl
take_nothing (suc n) = refl

queue-IsClosed : IsClosed queue (λ fd. fd)
queue-IsClosed = record {
  ends = λ n fd e. ap (λ xs. some (take n xs)) e ∙ ap some (take_nothing n);
}

serve_connection-serve_each_example :
    serve_connection clients queue
      (some (pos 7))
      (moments_of two_packets ++ now ∷ [])
      (wire two_packets)
      false
      fresh_server
    ≡ ended (serve_each clients (some (pos 7)) false (packets_of two_packets) fresh_server)
serve_connection-serve_each_example =
    serve_connection-serve_each clients queue (λ fd. fd) (some (pos 7)) two_packets now []
      (wire two_packets) false fresh_server queue-IsPipe queue-IsClosed two_packets-IsSending refl

abbrev first_service : Service ℤ
first_service = record { client = some (pos 4); logged_in = false }

abbrev second_service : Service ℤ
second_service = record { client = some (pos 5); logged_in = false }

abbrev bob : Text
bob = b'b' ∷ b'o' ∷ b'b' ∷ []

abbrev both_nodes : ClientRegistry ℤ
both_nodes = record {
  nodes = pos 4 ∷ pos 5 ∷ [];
  client_count = pos 2;
  registry_lock = 1;
  not_empty = 0;
}

-- Two clients connect, the second one asks too early, and the first one logs in.
abbrev two_services : System ℤ Unit
two_services = record {
  services =
      write
        (write (write (write (λ fd. none) 4 (some first_service)) 5 (some second_service)) 5
          (some second_service))
        4 (some (record first_service { logged_in = true }));
  server = record {
    player_registry = record { nodes = 9 ∷ []; player_count = 1; registry_lock = 1 };
    players = write (λ p. none) 9 (some (new_player bob));
    client_registry = both_nodes;
    heap = tt;
    sent = nack ∷ ack ∷ [];
  };
}

now-IsFresh : IsFresh now preg_init
unfolding preg_init
now-IsFresh = record { usable = omega arith; unused = tt }

two_services-SystemReach : SystemReach clients 2 two_services
unfolding connect creg_init creg_register ◌+ℤ◌ serve log_in c_string up_to_nul answer send preg_init
    preg_register preg_player_exists exists_head player_create
two_services-SystemReach =
    let second_connected =
      connects 5 (some (pos 5)) _ (connects 4 (some (pos 4)) _ (starts (λ p. none) tt) refl) refl in
    let asked =
      serves 5 second_service now (header_for jeux_resign_pkt) none false _ second_connected refl
        now-IsFresh refl in
    serves 4 first_service now (header_for jeux_login_pkt) (some bob) true _ asked refl now-IsFresh
      refl

SystemReach-IsWellFormed_example :
    IsWellFormed two_services.server.player_registry two_services.server.players
    × (length two_services.server.sent ≡ 2)
SystemReach-IsWellFormed_example = SystemReach-IsWellFormed clients two_services-SystemReach
