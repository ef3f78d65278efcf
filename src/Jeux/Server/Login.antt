-- ===== src/Jeux/Server/Login.antt =====
-- What the service of hw5/src/server.c does before a login, and with a request for the users.
use mathlib.Core.Path.{subst}
use mathlib.Core.List.{append-nil, append_assoc}
use c_starter_projects.Prelude.{
  ℕ, zero, suc, ◌≡◌, ◌≢◌, sym, ap, ◌∙◌, Bool, true, false, Option, List, [], ◌∷◌, ◌++◌, length,
  arith, All, ◌==◌,
}
use c_starter_projects.Prelude.Strings.{Text}
use c_starter_projects.Jeux.Run.{ok, Returning, Returning-bind}
use c_starter_projects.Jeux.Protocol.{JeuxPacketHeader, jeux_login_pkt, jeux_users_pkt}
use c_starter_projects.Jeux.Server.{
  Clients, Reply, Server, Moment, send, users, request, serve, serve_each, nack,
}
use c_starter_projects.Jeux.Server.Replies.{Packet}
use c_starter_projects.Jeux.Server.Users.{users_never}

abbrev pub nacks : ℕ → List Reply
nacks zero = []
nacks (suc n) = nack ∷ nacks n

-- A packet that is no login.
abbrev pub IsRequest : Packet → Type 0
IsRequest p = p.1.packet_type ≢ jeux_login_pkt

-- Before a login, requests have no effect: each is answered by a NACK, and nothing else of the
-- server's state changes.
pub serve_each_early :
    {Client Heap : Type 0} (lib : Clients Client Heap) (client : Option Client)
    (packets : List Packet) (s : Server Client Heap)
    → All IsRequest packets
    → serve_each lib client false packets s
      ≡ ok (false, record s { sent = s.sent ++ nacks (length packets) })
unfolding serve_each serve send
serve_each_early lib client [] s early =
    ap (λ xs. ok (false, record s { sent = xs })) (sym (append-nil s.sent))
serve_each_early lib client ((now, hdr, payload) ∷ rest) s early =
    let other : (hdr.packet_type == jeux_login_pkt) ≡ false = ground (arith, early.0) in
    rw other (
      serve_each_early lib client rest (record s { sent = s.sent ++ nack ∷ [] }) early.1
      ∙ ap (λ xs. ok (false, record s { sent = xs }))
          (append_assoc s.sent (nack ∷ []) (nacks (length rest))))

-- The request of a logged-in client for the list of users never returns: it faults or blocks.
pub serve_users_never :
    {Client Heap : Type 0} (lib : Clients Client Heap) (client : Option Client) (now : Moment)
    (hdr : JeuxPacketHeader) (payload : Option Text) (s : Server Client Heap)
    (r : Bool × Server Client Heap)
    → hdr.packet_type ≡ jeux_users_pkt
    → serve lib client true now (hdr, payload) s ≢ ok r
unfolding serve request
serve_users_never lib client now hdr payload s r users_request e =
    let other : (hdr.packet_type == jeux_login_pkt) ≡ false = ground (arith, users_request) in
    let same : (hdr.packet_type == jeux_users_pkt) ≡ true = ground (arith, users_request) in
    let never : Returning (λ t. ⊥) (serve lib client true now (hdr, payload) s) =
      rw (other, same)
        (Returning-bind (λ t. ⊥) (λ t. ⊥) (users lib now s) _ (users_never lib now s)
          (λ t no. no)) in
    subst (Returning (λ t. ⊥)) e never
