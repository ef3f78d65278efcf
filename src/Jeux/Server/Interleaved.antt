-- ===== src/Jeux/Server/Interleaved.antt =====
-- Several services of hw5/src/server.c over the same registries. A step is the beginning of a service
-- or one whole round of one of them, in any order.
use mathlib.Core.Path.{subst}
use c_starter_projects.Prelude.{
  ℕ, suc, ◌≡◌, ◌≢◌, refl, sym, ap, ◌∙◌, Bool, true, false, Option, none, some, [], ◌∷◌, length,
  length-append, arith, All, inl, inr, Bool-cases, ltb, ◌==◌,
}
use c_starter_projects.Prelude.Int.{pos}
use c_starter_projects.Prelude.Strings.{Text}
use c_starter_projects.Jeux.Run.{
  ok, fault, Returning, Returning-bind, Returning-weaken, Returning-map,
}
use c_starter_projects.Jeux.Store.{Store, null, write}
use c_starter_projects.Jeux.Player.{player_create, name_max_length}
use c_starter_projects.Jeux.PlayerRegistry.{PlayerRegistry, Players, preg_init, preg_register}
use c_starter_projects.Jeux.PlayerRegistry.Register.{IsWellFormed, Keeps, register-Keeps}
use c_starter_projects.Jeux.ClientRegistry.{creg_init, creg_register}
use c_starter_projects.Jeux.Protocol.{JeuxPacketHeader, jeux_login_pkt}
use c_starter_projects.Jeux.Server.{
  Clients, Server, Moment, c_string, answer, send, log_in, connect, serve, nack,
}
use c_starter_projects.Jeux.Server.Replies.{
  Served, ServedTo, RepliedTo, answer-Served, send-Served, serve_in-ServedTo, serve-RepliedTo,
}

-- What a service has in its local variables: its client, and whether it is logged in.
pub record Service (Client : Type 0) : Type 0 where
  pub client : Option Client
  pub logged_in : Bool

-- The services by their descriptors.
pub record System (Client Heap : Type 0) : Type 0 where
  pub services : Store (Service Client)
  pub server : Server Client Heap

-- The address that a round gives a new player is not one of the players in use.
pub record IsFresh (now : Moment) (preg : PlayerRegistry) : Type 0 where
  pub usable : now.fresh ≢ null
  pub unused : All (λ p. p ≢ now.fresh) preg.nodes

-- A name that does not fit is written behind its buffer.
register-Keeps_fresh :
    (now : Moment) (preg : PlayerRegistry) (players : Players) (name : Text)
    → IsWellFormed preg players
    → IsFresh now preg
    → Keeps (preg_register now.fresh preg players name)
register-Keeps_fresh now preg players name w f =
    elim (Bool-cases (ltb (length name) name_max_length)) [
      | inl fits ↦
          register-Keeps preg players now.fresh name w
            (record { fits = ground (arith, fits); usable = f.usable; unused = f.unused })
      | inr long ↦
          let faults : player_create name ≡ fault = unfold player_create in ground (arith, long) in
          unfold preg_register in rw faults tt
    ]

module _ {Client Heap : Type 0} (lib : Clients Client Heap) where
  abbrev first_system : Players → Heap → System Client Heap
  first_system players heap = record {
    services = λ fd. none;
    server = record {
      player_registry = preg_init;
      players = players;
      client_registry = creg_init;
      heap = heap;
      sent = [];
    };
  }

  -- The systems after a number of rounds.
  pub data SystemReach : ℕ → System Client Heap → Type 0 where
    starts : (players : Players) (heap : Heap) → SystemReach 0 (first_system players heap)
    connects :
        {n : ℕ} {system : System Client Heap} (fd : ℕ) (client : Option Client)
        (left : Server Client Heap)
        → SystemReach n system
        → connect lib (pos fd) system.server ≡ ok (client, left)
        → SystemReach n (record {
          services =
              write system.services fd (some (record { client = client; logged_in = false }));
          server = left;
        })
    serves :
        {n : ℕ} {system : System Client Heap} (fd : ℕ) (service : Service Client) (now : Moment)
        (hdr : JeuxPacketHeader) (payload : Option Text) (logged_in : Bool)
        (left : Server Client Heap)
        → SystemReach n system
        → system.services fd ≡ some service
        → IsFresh now system.server.player_registry
        → serve lib service.client service.logged_in now (hdr, payload) system.server
          ≡ ok (logged_in, left)
        → SystemReach (suc n) (record {
          services =
              write system.services fd
                (some (record { client = service.client; logged_in = logged_in }));
          server = left;
        })

  abbrev WellFormed : Server Client Heap → Type 0
  WellFormed s = IsWellFormed s.player_registry s.players

  Served-WellFormed : (s t : Server Client Heap) → Served lib s t → WellFormed s → WellFormed t
  Served-WellFormed s t served w =
      subst (λ preg. IsWellFormed preg t.players) (sym served.1)
        (subst (λ players. IsWellFormed s.player_registry players) (sym served.2) w)

  log_in-WellFormed :
      (client : Option Client) (now : Moment) (payload : Option Text) (s : Server Client Heap)
      → WellFormed s
      → IsFresh now s.player_registry
      → Returning (λ r. WellFormed r.1) (log_in lib client now payload s)
  unfolding log_in
  log_in-WellFormed client now payload s w f =
      Returning-map (λ r. WellFormed r.1) (c_string payload now) _
        (λ name.
          Returning-bind (λ r. IsWellFormed r.1 r.2) (λ r. WellFormed r.1)
            (preg_register now.fresh s.player_registry s.players name) _
            (register-Keeps_fresh now s.player_registry s.players name w f)
            (λ registered kept.
              let made = record s { player_registry = registered.1; players = registered.2 } in
              let result = lib.client_login client registered.0 s.heap in
              Served-WellFormed made (answer lib result made) (answer-Served lib result made) kept))

  serve-WellFormed :
      (client : Option Client) (logged_in : Bool) (now : Moment) (hdr : JeuxPacketHeader)
      (payload : Option Text) (s : Server Client Heap)
      → WellFormed s
      → IsFresh now s.player_registry
      → Returning (λ r. WellFormed r.1) (serve lib client logged_in now (hdr, payload) s)
  unfolding serve
  serve-WellFormed client false now hdr payload s w f =
      elim (Bool-cases (hdr.packet_type == jeux_login_pkt)) [
        | inl login ↦ rw login (log_in-WellFormed client now payload s w f)
        | inr early ↦ rw early (Served-WellFormed s (send lib nack s) (send-Served lib nack s) w)
      ]
  serve-WellFormed client true now hdr payload s w f =
      Returning-weaken (ServedTo lib s) (λ r. WellFormed r.1) _
        (λ r served. Served-WellFormed s r.1 served.0 w)
        (serve_in-ServedTo lib client now hdr payload s)

  -- A client that connects changes neither the players nor the replies.
  abbrev Unchanged : Server Client Heap → Option Client × Server Client Heap → Type 0
  Unchanged s r =
      (r.1.player_registry ≡ s.player_registry) × (r.1.players ≡ s.players) × (r.1.sent ≡ s.sent)

  connect-Unchanged :
      (fd : ℕ) (s : Server Client Heap) → Returning (Unchanged s) (connect lib (pos fd) s)
  unfolding connect
  connect-Unchanged fd s =
      Returning-map (Unchanged s)
        (creg_register (lib.client_create (pos fd) s.heap).0 s.client_registry) _
        (λ registered. (refl, refl, refl))

  -- In every system that connections and whole rounds of services, in any order, make from empty
  -- registries, where each round has an unused address for a new player, the registry of the players
  -- is unlocked, counts its nodes and has a live player at each of them, and each round that has
  -- returned has sent one reply.
  pub SystemReach-IsWellFormed :
      {n : ℕ} {system : System Client Heap}
      → SystemReach n system
      → IsWellFormed system.server.player_registry system.server.players
        × (length system.server.sent ≡ n)
  SystemReach-IsWellFormed (starts players heap) =
      (unfold preg_init in record { unlocked = refl; counted = refl; live = tt }, refl)
  SystemReach-IsWellFormed (connects {n} {system} fd client left reach e) =
      let before = SystemReach-IsWellFormed reach in
      let same =
        subst (Returning (Unchanged system.server)) e (connect-Unchanged fd system.server) in
      (
        subst (λ preg. IsWellFormed preg left.players) (sym same.0)
            (subst (λ players. IsWellFormed system.server.player_registry players) (sym same.1)
              before.0),
        ap length same.2 ∙ before.1,
      )
  SystemReach-IsWellFormed (serves {n} {system} fd service now hdr payload b left reach own f e) =
      let before = SystemReach-IsWellFormed reach in
      let s = system.server in
      let replied =
        subst (Returning (RepliedTo lib s)) e
          (serve-RepliedTo lib service.client service.logged_in now hdr payload s) in
      let more = ap length replied.1 ∙ length-append s.sent (replied.0 ∷ []) in
      (
        subst (Returning (λ r. WellFormed r.1)) e
            (serve-WellFormed service.client service.logged_in now hdr payload s before.0 f),
        omega (arith, more, before.1),
      )
