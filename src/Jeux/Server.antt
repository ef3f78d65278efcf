-- ===== src/Jeux/Server.antt =====
-- hw5/src/server.c: the service of one client. The functions of the client module (client.h) are in
-- the repository as a binary archive, and are the parameter `Clients`; what they keep is `Heap`. The
-- sends of a reply are a list of events. Debug output and calls of `free` are left out.
pub mod Users
pub mod Replies
pub mod Login
pub mod Connection
pub mod Interleaved
mod Tests
use c_starter_projects.Prelude.{
  ℕ, zero, suc, ◌+◌, ◌%◌, ◌^◌, Bool, true, false, Option, none, some, List, [], ◌∷◌, ◌++◌, length,
  ltb, leb, ◌==◌, if◌then◌else◌,
}
use c_starter_projects.Prelude.Int.{ℤ, pos, eq_ℤ, minus_one, pos_part}
use c_starter_projects.Prelude.Strings.{Text}
use c_starter_projects.Prelude.Decimal.{decimal}
use c_starter_projects.Jeux.Run.{Run, ok, blocked, fault, ◌>>=◌}
use c_starter_projects.Jeux.Player.{player_unref, player_get_name, player_get_rating}
use c_starter_projects.Jeux.Store.{write}
use c_starter_projects.Jeux.PlayerRegistry.{PlayerRegistry, Players, preg_register}
use c_starter_projects.Jeux.ClientRegistry.{
  ClientRegistry, creg_register, creg_lookup, creg_all_players,
}
use c_starter_projects.Jeux.Protocol.{
  JeuxPacketHeader, jeux_login_pkt, jeux_users_pkt, jeux_invite_pkt, jeux_revoke_pkt,
  jeux_accept_pkt, jeux_decline_pkt, jeux_move_pkt, jeux_resign_pkt, jeux_ack_pkt,
}

-- The client module. A client that could not be registered is NULL, `none`. Players are addresses,
-- and a client that has not logged in has none.
pub record Clients (Client Heap : Type 0) : Type 0 where
  pub client_create : ℤ → Heap → Client × Heap
  pub client_get_player : Heap → Client → Option ℕ
  pub client_login : Option Client → ℕ → Heap → ℤ × Heap
  pub client_make_invitation :
      Option Client → Option Client → (target_role source_role : ℕ) → Heap → ℤ × Heap
  pub client_revoke_invitation : Option Client → ℕ → Heap → ℤ × Heap
  pub client_decline_invitation : Option Client → ℕ → Heap → ℤ × Heap
  pub client_accept_invitation : Option Client → ℕ → Heap → ℤ × Option Text × Heap
  pub client_make_move : Option Client → ℕ → Option Text → Heap → ℤ × Heap
  pub client_resign_game : Option Client → ℕ → Heap → ℤ × Heap

-- The replies: `client_send_ack` without a payload, `client_send_nack` and `client_send_packet`.
pub data Reply : Type 0 where
  ack : Reply
  nack : Reply
  packet : JeuxPacketHeader → Option Text → Reply

pub record Server (Client Heap : Type 0) : Type 0 where
  pub player_registry : PlayerRegistry
  pub players : Players
  pub client_registry : ClientRegistry Client
  pub heap : Heap
  pub sent : List Reply

-- What a round of the service does not choose: the bytes that follow the payload in memory, up to a
-- NUL byte; the text that a fresh buffer of `realloc` holds; the address of a new player; the time.
pub record Moment : Type 0 where
  pub behind : Text
  pub fill : Text
  pub fresh : ℕ
  pub tv_sec : ℕ
  pub tv_nsec : ℕ

-- A payload as a C string: `proto_recv_packet` puts no NUL byte behind it.
unfoldable pub up_to_nul : Text → Text → Text
up_to_nul [] behind = behind
up_to_nul (b ∷ bytes) behind = let rest = up_to_nul bytes behind in if b == 0 then [] else b ∷ rest

unfoldable pub c_string : Option Text → Moment → Run Text
unfolding up_to_nul
c_string none now = fault
c_string (some bytes) now = ok (up_to_nul bytes now.behind)

-- One line of the list of users, in a buffer that `realloc` has made as long as the line. `fault` is
-- a write behind the buffer, or behind the ten bytes of `ratingContainer`.
unfoldable pub add_line : Players → (buffer : Text) (player : ℕ) → Run Text
unfolding player_get_name player_get_rating decimal
add_line players buffer p = elim (player_get_name (players p)) [
  | none ↦ fault
  | some name ↦
      let rating = decimal (player_get_rating (players p)) in
      let line = name ++ b'\t' ∷ rating ++ b'\n' ∷ [] in
      if leb 10 (length rating)
      then fault
      else if ltb (length line) (length buffer + length line + 1)
      then fault
      else ok (buffer ++ line)
]

-- The loop over the array of players, which ends at NULL, a client without a player included.
unfoldable pub user_lines : Players → Text → List (Option ℕ) → Run Text
unfolding add_line
user_lines players buffer [] = ok buffer
user_lines players buffer (none ∷ rest) = ok buffer
user_lines players buffer (some p ∷ rest) =
    add_line players buffer p >>= λ longer. user_lines players longer rest

-- Without a player the text stays NULL, and `strlen` is called on it.
unfoldable pub users_text : Players → (fill : Text) → List (Option ℕ) → Run Text
unfolding user_lines
users_text players fill [] = fault
users_text players fill (none ∷ rest) = fault
users_text players fill (some p ∷ rest) = user_lines players fill (some p ∷ rest)

-- The calls of `player_unref` in `creg_all_players`.
unfoldable pub unref_each : List (Option ℕ) → Players → Run Players
unfolding player_unref
unref_each [] players = ok players
unref_each (none ∷ rest) players = unref_each rest players
unref_each (some p ∷ rest) players =
    player_unref (players p) >>= λ left. unref_each rest (write players p left)

module _ {Client Heap : Type 0} (lib : Clients Client Heap) where
  unfoldable pub send : Reply → Server Client Heap → Server Client Heap
  send reply s = record s { sent = s.sent ++ reply ∷ [] }

  -- An ACK packet with the current time.
  abbrev pub ack_packet : (id : ℕ) → Option Text → (size : ℕ) → Moment → Reply
  ack_packet id payload size now =
      packet
        (record {
          packet_type = jeux_ack_pkt;
          id = id;
          role = 0;
          size = size % 2 ^ 16;
          timestamp_sec = now.tv_sec % 2 ^ 32;
          timestamp_nsec = now.tv_nsec % 2 ^ 32;
        })
        payload

  -- ACK for the result 0 of a call, and NACK for any other.
  unfoldable pub answer : ℤ × Heap → Server Client Heap → Server Client Heap
  unfolding send
  answer (r, heap) s =
      let left = record s { heap = heap } in
      if eq_ℤ r (pos 0) then send ack left else send nack left

  -- A first login: whether the client is logged in afterwards.
  unfoldable pub log_in :
      Option Client → Moment → Option Text → Server Client Heap → Run (Bool × Server Client Heap)
  unfolding c_string answer
  log_in client now payload s = do
    name ← c_string payload now
    registered ← preg_register now.fresh s.player_registry s.players name
    let result = lib.client_login client registered.0 s.heap
    let left = record s { player_registry = registered.1; players = registered.2 }
    ok (eq_ℤ result.0 (pos 0), answer result left)

  unfoldable pub users : Moment → Server Client Heap → Run (Server Client Heap)
  unfolding users_text send
  users now s = do
    all ← creg_all_players (lib.client_get_player s.heap) s.client_registry
    left ← unref_each all.1 s.players
    text ← elim all.0 [ none ↦ fault | some players ↦ users_text left now.fill players ]
    ok (
        send (ack_packet 0 (some text) (length text) now)
          (record s { client_registry = all.2; players = left }))

  abbrev pub name_of : Server Client Heap → Client → Option Text
  name_of s c = elim (lib.client_get_player s.heap c) [
    | none ↦ none
    | some p ↦ player_get_name (s.players p)
  ]

  -- The role of the other party.
  abbrev pub target_role_of : ℕ → ℕ
  target_role_of sender_role = if sender_role == 2 then 1 else 2

  unfoldable pub invite :
      Option Client
      → Moment
      → (role : ℕ) → Option Text
      → Server Client Heap
      → Run (Server Client Heap)
  unfolding c_string send
  invite client now role payload s = do
    name ← c_string payload now
    found ← creg_lookup (name_of s) name s.client_registry
    let made = lib.client_make_invitation client found.0 (target_role_of role) role s.heap
    let left = record s { client_registry = found.1; heap = made.1 }
    if eq_ℤ made.0 minus_one
        then ok (send nack left)
        else ok (send (ack_packet (pos_part made.0 % 256) none 0 now) left)

  unfoldable pub accept : Option Client → Moment → ℕ → Server Client Heap → Server Client Heap
  unfolding send
  accept client now id s =
      let result = lib.client_accept_invitation client id s.heap in
      let left = record s { heap = result.2 } in
      if eq_ℤ result.0 (pos 0)
      then elim result.1 [
        | none ↦ send ack left
        | some text ↦ send (ack_packet 0 (some text) (length text) now) left
      ]
      else send nack left

  -- A request of a client that has logged in.
  unfoldable pub request :
      Option Client
      → Moment
      → JeuxPacketHeader
      → Option Text
      → Server Client Heap
      → Run (Server Client Heap)
  unfolding users invite accept answer
  request client now hdr payload s =
      let listed = users now s in
      let invited = invite client now hdr.role payload s in
      if hdr.packet_type == jeux_users_pkt
      then listed
      else if hdr.packet_type == jeux_invite_pkt
      then invited
      else if hdr.packet_type == jeux_revoke_pkt
      then ok (answer (lib.client_revoke_invitation client hdr.id s.heap) s)
      else if hdr.packet_type == jeux_decline_pkt
      then ok (answer (lib.client_decline_invitation client hdr.id s.heap) s)
      else if hdr.packet_type == jeux_accept_pkt
      then ok (accept client now hdr.id s)
      else if hdr.packet_type == jeux_move_pkt
      then ok (answer (lib.client_make_move client hdr.id payload s.heap) s)
      else if hdr.packet_type == jeux_resign_pkt
      then ok (answer (lib.client_resign_game client hdr.id s.heap) s)
      else ok (send nack s)

  -- A round of the loop.
  unfoldable pub serve :
      Option Client
      → Bool
      → Moment
      → JeuxPacketHeader × Option Text
      → Server Client Heap
      → Run (Bool × Server Client Heap)
  unfolding log_in request send
  serve client false now (hdr, payload) s =
      let first = log_in client now payload s in
      if hdr.packet_type == jeux_login_pkt then first else ok (false, send nack s)
  serve client true now (hdr, payload) s =
      let served = request client now hdr payload s >>= λ left. ok (true, left) in
      if hdr.packet_type == jeux_login_pkt then ok (true, send nack s) else served

  -- The loop, for the packets that arrive before `proto_recv_packet` fails.
  unfoldable pub serve_each :
      Option Client
      → Bool
      → List (Moment × JeuxPacketHeader × Option Text)
      → Server Client Heap
      → Run (Bool × Server Client Heap)
  unfolding serve
  serve_each client logged_in [] s = ok (logged_in, s)
  serve_each client logged_in (p ∷ rest) s =
      serve client logged_in p.0 (p.1, p.2) s >>= λ r. serve_each client r.0 rest r.1

  -- The beginning of a service: the client that is registered, if it is.
  unfoldable pub connect : ℤ → Server Client Heap → Run (Option Client × Server Client Heap)
  connect fd s = do
    let made = lib.client_create fd s.heap
    registered ← creg_register made.0 s.client_registry
    ok (registered.0, record s { client_registry = registered.1; heap = made.1 })

  unfoldable pub jeux_client_service :
      ℤ
      → List (Moment × JeuxPacketHeader × Option Text)
      → Server Client Heap
      → Run (Bool × Server Client Heap)
  unfolding connect serve_each
  jeux_client_service fd packets s =
      connect fd s >>= λ connected. serve_each connected.0 false packets connected.1
