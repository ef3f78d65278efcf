-- ===== src/Jeux/Protocol/Tests.antt =====
-- A connection for the theorem on hw5/src/protocol.c.
use c_starter_projects.Prelude.{ℕ, ◌≡◌, refl, true, some, List, [], ◌∷◌, ◌++◌, take, drop, arith}
use c_starter_projects.Jeux.Protocol.{
  JeuxPacketHeader, Rio, proto_send_packet, proto_recv_packet, jeux_login_pkt,
}
use c_starter_projects.Jeux.Protocol.RoundTrip.{
  IsHeader, IsPipe, received, proto_recv_packet-proto_send_packet,
}

-- A connection that is the list of the bytes that wait.
abbrev queue : Rio (List ℕ)
queue = record {
  rio_writen = λ bytes fd. (true, fd ++ bytes);
  rio_readn = λ n fd. (some (take n fd), drop n fd);
}

queue-IsPipe : IsPipe queue (λ fd. fd)
queue-IsPipe = record {
  writes = λ bytes fd ok. refl;
  reads = λ n fd le. refl;
  leaves = λ n fd le. refl;
}

abbrev login : JeuxPacketHeader
login = record {
  packet_type = jeux_login_pkt;
  id = 0;
  role = 0;
  size = 3;
  timestamp_sec = 1000;
  timestamp_nsec = 70000;
}

login-IsHeader : IsHeader login
login-IsHeader = record {
  packet_type = omega arith;
  id = omega arith;
  role = omega arith;
  size = omega arith;
  timestamp_sec = omega arith;
  timestamp_nsec = omega arith;
}

abbrev bob : List ℕ
bob = b'b' ∷ b'o' ∷ b'b' ∷ []

sent : (proto_send_packet queue login bob []).0 ≡ true
unfolding proto_send_packet
sent = refl

proto_recv_packet-proto_send_packet_example :
    ((proto_recv_packet queue [] (proto_send_packet queue login bob []).1).0
      ≡ some (login, received bob))
    × ((proto_recv_packet queue [] (proto_send_packet queue login bob []).1).1 ≡ [])
proto_recv_packet-proto_send_packet_example =
    proto_recv_packet-proto_send_packet queue (λ fd. fd) login bob [] [] queue-IsPipe login-IsHeader
      refl refl sent
