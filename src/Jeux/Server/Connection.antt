-- ===== src/Jeux/Server/Connection.antt =====
-- The service of hw5/src/server.c on a connection: its loop with the packets that
-- hw5/src/protocol.c reads.
use c_starter_projects.Prelude.{
  ℕ, ◌≡◌, refl, ap, ◌∙◌, Bool, Option, none, some, List, [], ◌∷◌, ◌++◌, length, All,
}
use c_starter_projects.Jeux.Run.{Run, ok, blocked, fault, ◌>>=◌}
use c_starter_projects.Jeux.Protocol.{JeuxPacketHeader, header_bytes, Rio, proto_recv_packet}
use c_starter_projects.Jeux.Protocol.RoundTrip.{IsHeader, IsPipe, received, recv-send}
use c_starter_projects.Jeux.Server.{Clients, Server, Moment, serve, serve_each}
use c_starter_projects.Jeux.Server.Replies.{Packet}

module _ {Client Heap Fd : Type 0} (lib : Clients Client Heap) (rio : Rio Fd) where
  -- What follows the call of `proto_recv_packet`: the loop ends when it fails.
  unfoldable pub serve_received :
      (Fd → Bool → Server Client Heap → Run (Option (Bool × Server Client Heap)))
      → Option Client
      → Bool
      → Moment
      → Server Client Heap
      → Option (JeuxPacketHeader × Option (List ℕ)) × Fd
      → Run (Option (Bool × Server Client Heap))
  serve_received further client logged_in now s (none, fd) = ok (some (logged_in, s))
  serve_received further client logged_in now s (some packet, fd) =
      serve lib client logged_in now packet s >>= λ r. further fd r.0 r.1

  -- The loop, with one moment for each call of `proto_recv_packet`; `none` is a loop that goes on
  -- when there are no more of them. The header is zero before it is read.
  unfoldable pub serve_connection :
      Option Client
      → List Moment
      → Fd
      → Bool
      → Server Client Heap
      → Run (Option (Bool × Server Client Heap))
  unfolding serve_received
  serve_connection client [] fd logged_in s = ok none
  serve_connection client (now ∷ moments) fd logged_in s =
      serve_received (serve_connection client moments) client logged_in now s (
        proto_recv_packet rio (0 ∷ 0 ∷ 0 ∷ 0 ∷ 0 ∷ 0 ∷ 0 ∷ 0 ∷ 0 ∷ 0 ∷ 0 ∷ 0 ∷ 0 ∷ 0 ∷ 0 ∷ 0 ∷ [])
          fd)

-- A packet that a client has sent, and the moment when it is served.
pub record Sending : Type 0 where
  pub moment : Moment
  pub header : JeuxPacketHeader
  pub payload : List ℕ

pub record IsSending (x : Sending) : Type 0 where
  pub header : IsHeader x.header
  pub size : length x.payload ≡ x.header.size

-- The bytes of the packets on the wire.
abbrev pub wire : List Sending → List ℕ
wire [] = []
wire (x ∷ xs) = header_bytes x.header ++ (x.payload ++ wire xs)

abbrev pub moments_of : List Sending → List Moment
moments_of [] = []
moments_of (x ∷ xs) = x.moment ∷ moments_of xs

abbrev pub packets_of : List Sending → List Packet
packets_of [] = []
packets_of (x ∷ xs) = (x.moment, x.header, received x.payload) ∷ packets_of xs

-- `rio_readn` returns 0 at the end of what a client has sent before it closed the connection.
pub record IsClosed {Fd : Type 0} (rio : Rio Fd) (contents : Fd → List ℕ) : Type 0 where
  pub ends : (n : ℕ) (fd : Fd) → contents fd ≡ [] → (rio.rio_readn n fd).0 ≡ some []

-- The loop has ended, with the result of a run.
abbrev pub ended : {A : Type 0} → Run A → Run (Option A)
ended r = r >>= λ left. ok (some left)

then_ended :
    {A : Type 0} (r : Run A) (f : A → Run A) → (r >>= λ left. ended (f left)) ≡ ended (r >>= f)
then_ended (ok left) f = refl
then_ended blocked f = refl
then_ended fault f = refl

recv_closed :
    {Fd : Type 0} (rio : Rio Fd) (contents : Fd → List ℕ) (memory : List ℕ) (fd : Fd)
    → IsClosed rio contents
    → contents fd ≡ []
    → (proto_recv_packet rio memory fd).0 ≡ none
unfolding proto_recv_packet
recv_closed rio contents memory fd closed empty =
    rw (proto_recv_packet, closed.ends 16 fd empty) refl

-- On a connection that a client has closed behind the packets it has sent, of which none has been
-- read yet, the loop ends: it serves exactly those packets, in their order and with their payloads,
-- and stops at the first call of `proto_recv_packet` behind them. It is given the moments of the
-- packets, one for that call, and any more.
pub serve_connection-serve_each :
    {Client Heap Fd : Type 0} (lib : Clients Client Heap) (rio : Rio Fd) (contents : Fd → List ℕ)
    (client : Option Client) (sent : List Sending) (now : Moment) (more : List Moment) (fd : Fd)
    (logged_in : Bool) (s : Server Client Heap)
    → IsPipe rio contents
    → IsClosed rio contents
    → All IsSending sent
    → contents fd ≡ wire sent
    → serve_connection lib rio client (moments_of sent ++ now ∷ more) fd logged_in s
      ≡ ended (serve_each lib client logged_in (packets_of sent) s)
unfolding serve_connection serve_each
serve_connection-serve_each lib rio contents client [] now more fd logged_in s pipe closed good
      full =
    let memory = 0 ∷ 0 ∷ 0 ∷ 0 ∷ 0 ∷ 0 ∷ 0 ∷ 0 ∷ 0 ∷ 0 ∷ 0 ∷ 0 ∷ 0 ∷ 0 ∷ 0 ∷ 0 ∷ [] in
    ap
      (λ o.
        serve_received lib rio (serve_connection lib rio client more) client logged_in now s
          (o, (proto_recv_packet rio memory fd).1))
      (recv_closed rio contents memory fd closed full)
    ∙ (unfold serve_received in refl)
serve_connection-serve_each lib rio contents client (x ∷ xs) now more fd logged_in s pipe closed
      good full =
    let memory = 0 ∷ 0 ∷ 0 ∷ 0 ∷ 0 ∷ 0 ∷ 0 ∷ 0 ∷ 0 ∷ 0 ∷ 0 ∷ 0 ∷ 0 ∷ 0 ∷ 0 ∷ 0 ∷ [] in
    let read = proto_recv_packet rio memory fd in
    let got =
      recv-send rio contents pipe x.header x.payload good.0.size memory fd (wire xs) good.0.header
        full in
    let loop = serve_connection lib rio client (moments_of xs ++ now ∷ more) in
    let served = serve lib client logged_in x.moment (x.header, received x.payload) s in
    ap (λ o. serve_received lib rio loop client logged_in x.moment s (o, read.1)) got.0
    ∙ (unfold serve_received in
        ap (λ k. served >>= k)
          (λ i r.
            serve_connection-serve_each lib rio contents client xs now more read.1 r.0 r.1 pipe
              closed good.1 got.1 i))
    ∙ then_ended served (λ r. serve_each lib client r.0 (packets_of xs) r.1)
