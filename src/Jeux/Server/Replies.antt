-- ===== src/Jeux/Server/Replies.antt =====
-- The replies of the service of hw5/src/server.c.
use mathlib.Core.Path.{subst}
use c_starter_projects.Prelude.{
  ℕ, suc, ◌+◌, ◌≡◌, refl, sym, ap, ◌∙◌, Bool, true, false, Option, List, [], ◌∷◌, ◌++◌, length,
  length-append, arith, Bool-cases, Option-cases, inl, inr, ◌==◌,
}
use c_starter_projects.Prelude.Int.{ℤ, pos, eq_ℤ, minus_one}
use c_starter_projects.Prelude.Strings.{Text}
use c_starter_projects.Jeux.Run.{Returning, Returning-bind, Returning-weaken, Returning-map}
use c_starter_projects.Jeux.PlayerRegistry.{preg_register}
use c_starter_projects.Jeux.ClientRegistry.{creg_lookup}
use c_starter_projects.Jeux.Protocol.{
  JeuxPacketHeader, jeux_login_pkt, jeux_users_pkt, jeux_invite_pkt, jeux_revoke_pkt,
  jeux_accept_pkt, jeux_decline_pkt, jeux_move_pkt, jeux_resign_pkt,
}
use c_starter_projects.Jeux.Server.Users.{users_never}
use c_starter_projects.Jeux.Server.{
  Clients, Reply, Server, Moment, c_string, send, answer, log_in, users, invite, accept, request,
  serve, serve_each, ack, nack, name_of, target_role_of,
}

module _ {Client Heap : Type 0} (lib : Clients Client Heap) where
  -- One reply more has been sent.
  abbrev pub Replied : Server Client Heap → Server Client Heap → Type 0
  Replied s t = (reply : Reply) × (t.sent ≡ s.sent ++ reply ∷ [])

  abbrev pub RepliedTo : Server Client Heap → Bool × Server Client Heap → Type 0
  RepliedTo s r = Replied s r.1

  -- One reply more has been sent, and the players and their registry are as they were.
  abbrev pub Served : Server Client Heap → Server Client Heap → Type 0
  Served s t = Replied s t × (t.player_registry ≡ s.player_registry) × (t.players ≡ s.players)

  abbrev pub ServedTo : Server Client Heap → Bool × Server Client Heap → Type 0
  ServedTo s r = Served s r.1 × (r.0 ≡ true)

  pub send-Served : (reply : Reply) (s : Server Client Heap) → Served s (send lib reply s)
  unfolding send
  send-Served reply s = ((reply, refl), refl, refl)

  pub answer-Served : (r : ℤ × Heap) (s : Server Client Heap) → Served s (answer lib r s)
  unfolding answer send
  answer-Served (r, heap) s = elim (Bool-cases (eq_ℤ r (pos 0))) [
    | inl done ↦ rw done ((ack, refl), refl, refl)
    | inr refused ↦ rw refused ((nack, refl), refl, refl)
  ]

  log_in-RepliedTo :
      (client : Option Client) (now : Moment) (payload : Option Text) (s : Server Client Heap)
      → Returning (RepliedTo s) (log_in lib client now payload s)
  unfolding log_in
  log_in-RepliedTo client now payload s =
      Returning-map (RepliedTo s) (c_string payload now) _ (λ name.
        Returning-map (RepliedTo s) (preg_register now.fresh s.player_registry s.players name) _
          (λ registered.
            (answer-Served (lib.client_login client registered.0 s.heap)
              (record s { player_registry = registered.1; players = registered.2 })).0))

  users-Served : (now : Moment) (s : Server Client Heap) → Returning (Served s) (users lib now s)
  users-Served now s =
      Returning-weaken (λ t. ⊥) (Served s) (users lib now s) (λ t no. absurd no)
        (users_never lib now s)

  invite-Served :
      (client : Option Client) (now : Moment) (role : ℕ) (payload : Option Text)
      (s : Server Client Heap)
      → Returning (Served s) (invite lib client now role payload s)
  unfolding invite send
  invite-Served client now role payload s =
      Returning-map (Served s) (c_string payload now) _ (λ name.
        Returning-map (Served s) (creg_lookup (name_of lib s) name s.client_registry) _ (λ found.
          let made =
            lib.client_make_invitation client found.0 (target_role_of lib role) role s.heap in
          elim (Bool-cases (eq_ℤ made.0 minus_one)) [
            | inl refused ↦ rw refused ((nack, refl), refl, refl)
            | inr accepted ↦ rw accepted ((_, refl), refl, refl)
          ]))

  accept-Served :
      (client : Option Client) (now : Moment) (id : ℕ) (s : Server Client Heap)
      → Served s (accept lib client now id s)
  unfolding accept send
  accept-Served client now id s =
      let result = lib.client_accept_invitation client id s.heap in
      elim (Bool-cases (eq_ℤ result.0 (pos 0))) [
        | inl accepted ↦ elim (Option-cases result.1) [
          | inl silent ↦ rw (accepted, silent) ((ack, refl), refl, refl)
          | inr (text, e) ↦ rw (accepted, e) ((_, refl), refl, refl)
        ]
        | inr refused ↦ rw refused ((nack, refl), refl, refl)
      ]

  request-Served :
      (client : Option Client) (now : Moment) (hdr : JeuxPacketHeader) (payload : Option Text)
      (s : Server Client Heap)
      → Returning (Served s) (request lib client now hdr payload s)
  unfolding request
  request-Served client now hdr payload s =
      let t = hdr.packet_type in
      elim (Bool-cases (t == jeux_users_pkt)) [
        | inl e ↦ rw e (users-Served now s)
        | inr e ↦ rw e (elim (Bool-cases (t == jeux_invite_pkt)) [
          | inl e ↦ rw e (invite-Served client now hdr.role payload s)
          | inr e ↦ rw e (elim (Bool-cases (t == jeux_revoke_pkt)) [
            | inl e ↦ rw e (answer-Served (lib.client_revoke_invitation client hdr.id s.heap) s)
            | inr e ↦ rw e (elim (Bool-cases (t == jeux_decline_pkt)) [
              | inl e ↦ rw e (answer-Served (lib.client_decline_invitation client hdr.id s.heap) s)
              | inr e ↦ rw e (elim (Bool-cases (t == jeux_accept_pkt)) [
                | inl e ↦ rw e (accept-Served client now hdr.id s)
                | inr e ↦ rw e (elim (Bool-cases (t == jeux_move_pkt)) [
                  | inl e ↦
                      rw e (answer-Served (lib.client_make_move client hdr.id payload s.heap) s)
                  | inr e ↦ rw e (elim (Bool-cases (t == jeux_resign_pkt)) [
                    | inl e ↦ rw e (answer-Served (lib.client_resign_game client hdr.id s.heap) s)
                    | inr e ↦ rw e (send-Served nack s)
                  ])
                ])
              ])
            ])
          ])
        ])
      ]

  pub serve_in-ServedTo :
      (client : Option Client) (now : Moment) (hdr : JeuxPacketHeader) (payload : Option Text)
      (s : Server Client Heap)
      → Returning (ServedTo s) (serve lib client true now (hdr, payload) s)
  unfolding serve
  serve_in-ServedTo client now hdr payload s =
      elim (Bool-cases (hdr.packet_type == jeux_login_pkt)) [
        | inl again ↦ rw again (send-Served nack s, refl)
        | inr other ↦ rw other (
            Returning-bind (Served s) (ServedTo s) (request lib client now hdr payload s) _
              (request-Served client now hdr payload s) (λ left served. (served, refl)))
      ]

  pub serve-RepliedTo :
      (client : Option Client) (logged_in : Bool) (now : Moment) (hdr : JeuxPacketHeader)
      (payload : Option Text) (s : Server Client Heap)
      → Returning (RepliedTo s) (serve lib client logged_in now (hdr, payload) s)
  unfolding serve
  serve-RepliedTo client false now hdr payload s =
      elim (Bool-cases (hdr.packet_type == jeux_login_pkt)) [
        | inl login ↦ rw login (log_in-RepliedTo client now payload s)
        | inr early ↦ rw early (send-Served nack s).0
      ]
  serve-RepliedTo client true now hdr payload s =
      Returning-weaken (ServedTo s) (RepliedTo s) _ (λ r served. served.0.0)
        (serve_in-ServedTo client now hdr payload s)

  -- What a list of packets has made of the replies.
  abbrev pub RepliedEach : ℕ → Server Client Heap → Bool × Server Client Heap → Type 0
  RepliedEach n s r = length r.1.sent ≡ length s.sent + n

  -- Whether a logged-in client stays so, and the registry of the players as it is.
  abbrev pub StaysIn : Server Client Heap → Bool × Server Client Heap → Type 0
  StaysIn s r = (r.0 ≡ true) × (r.1.player_registry ≡ s.player_registry)

abbrev pub Packet : Type 0
Packet = Moment × JeuxPacketHeader × Option Text

-- The service that returns has sent one reply for every packet.
pub serve_each-RepliedEach :
    {Client Heap : Type 0} (lib : Clients Client Heap) (client : Option Client) (logged_in : Bool)
    (packets : List Packet) (s : Server Client Heap)
    → Returning (RepliedEach lib (length packets) s) (serve_each lib client logged_in packets s)
unfolding serve_each
serve_each-RepliedEach lib client logged_in [] s = omega arith
serve_each-RepliedEach lib client logged_in ((now, hdr, payload) ∷ rest) s =
    Returning-bind (RepliedTo lib s) (RepliedEach lib (suc (length rest)) s)
      (serve lib client logged_in now (hdr, payload) s) _
      (serve-RepliedTo lib client logged_in now hdr payload s)
      (λ r replied.
        Returning-weaken (RepliedEach lib (length rest) r.1) (RepliedEach lib (suc (length rest)) s)
          (serve_each lib client r.0 rest r.1)
          (λ t n.
            n
            ∙ (let e : length r.1.sent ≡ length s.sent + 1 =
                  ap length replied.1 ∙ length-append s.sent (replied.0 ∷ []) in
                omega (arith, e)))
          (serve_each-RepliedEach lib client r.0 rest r.1))

-- Once logged in, a client stays so, and whatever it sends, the registry of the players is left as
-- it is.
pub serve_each-StaysIn :
    {Client Heap : Type 0} (lib : Clients Client Heap) (client : Option Client)
    (packets : List Packet) (s : Server Client Heap)
    → Returning (StaysIn lib s) (serve_each lib client true packets s)
unfolding serve_each
serve_each-StaysIn lib client [] s = (refl, refl)
serve_each-StaysIn lib client ((now, hdr, payload) ∷ rest) s =
    Returning-bind (ServedTo lib s) (StaysIn lib s) (serve lib client true now (hdr, payload) s) _
      (serve_in-ServedTo lib client now hdr payload s)
      (λ r served.
        subst (λ b. Returning (StaysIn lib s) (serve_each lib client b rest r.1)) (sym served.1)
          (Returning-weaken (StaysIn lib r.1) (StaysIn lib s) (serve_each lib client true rest r.1)
            (λ t stays. (stays.0, stays.1 ∙ served.0.1)) (serve_each-StaysIn lib client rest r.1)))
