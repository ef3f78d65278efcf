-- ===== src/Jeux/Protocol/RoundTrip.antt =====
-- A packet that is sent is received, for hw5/src/protocol.c.
use mathlib.Core.List.{append-nil}
use mathlib.Core.Path.{subst}
use mathlib.Core.Bool.{false≢true}
use c_starter_projects.Prelude.{
  ℕ, suc, zero, ◌≢◌, ◌+◌, ◌*◌, ◌/◌, ◌%◌, ◌<◌, ◌≤◌, ◌≡◌, refl, sym, ap, ◌∙◌, Bool, true, false,
  Option, none, some, List, [], ◌∷◌, ◌++◌, length, length-append, take, drop, arith, Bool-cases,
  inl, inr, ◌==◌, if◌then◌else◌,
}
use c_starter_projects.Jeux.Protocol.{
  JeuxPacketHeader, header_bytes, header_of, byte_at, Rio, proto_send_packet, recv_payload,
  some_bytes, proto_recv_packet,
}

-- A header of bytes, a half word and two words.
pub record IsHeader (h : JeuxPacketHeader) : Type 0 where
  pub packet_type : h.packet_type < 256
  pub id : h.id < 256
  pub role : h.role < 256
  pub size : h.size < 65536
  pub timestamp_sec : h.timestamp_sec < 4294967296
  pub timestamp_nsec : h.timestamp_nsec < 4294967296

byte : (n : ℕ) → n < 256 → n % 256 ≡ n
byte n lt = omega arith

half_word : (n : ℕ) → n < 65536 → n / 256 % 256 * 256 + n % 256 ≡ n
half_word n lt = omega arith

word :
    (n : ℕ)
    → n < 4294967296
    → n / 16777216 % 256 * 16777216 + n / 65536 % 256 * 65536 + n / 256 % 256 * 256 + n % 256 ≡ n
word n lt = omega arith

header_of-header_bytes :
    (h : JeuxPacketHeader) → IsHeader h → (rest : List ℕ) → header_of (header_bytes h ++ rest) ≡ h
unfolding header_of header_bytes byte_at
header_of-header_bytes h ok rest = λ i. record {
  packet_type = byte h.packet_type ok.packet_type i;
  id = byte h.id ok.id i;
  role = byte h.role ok.role i;
  size = half_word h.size ok.size i;
  timestamp_sec = word h.timestamp_sec ok.timestamp_sec i;
  timestamp_nsec = word h.timestamp_nsec ok.timestamp_nsec i;
}

-- A connection on which what has been written waits to be read, in its order.
pub record IsPipe {Fd : Type 0} (rio : Rio Fd) (contents : Fd → List ℕ) : Type 0 where
  pub writes :
      (bytes : List ℕ) (fd : Fd)
      → (rio.rio_writen bytes fd).0 ≡ true
      → contents (rio.rio_writen bytes fd).1 ≡ contents fd ++ bytes
  pub reads :
      (n : ℕ) (fd : Fd)
      → n ≤ length (contents fd)
      → (rio.rio_readn n fd).0 ≡ some (take n (contents fd))
  pub leaves :
      (n : ℕ) (fd : Fd)
      → n ≤ length (contents fd)
      → contents (rio.rio_readn n fd).1 ≡ drop n (contents fd)

-- The two ways in which a packet is sent: with an empty payload, and with another one.
sent_ways {ℓ} :
    {Fd : Type 0} (P : Fd → Type ℓ) (headed empty : Bool) (fd : Fd) (sent : Bool × Fd)
    → (headed ≡ true → empty ≡ true → P fd)
    → (headed ≡ true → empty ≡ false → sent.0 ≡ true → P sent.1)
    → (if headed then if empty then (true, fd) else sent else (false, fd)).0 ≡ true
    → P (if headed then if empty then (true, fd) else sent else (false, fd)).1
sent_ways P true true fd sent p q ok = p refl refl
sent_ways P true false fd sent p q ok = q refl refl ok
sent_ways P false empty fd sent p q ok = absurd (false≢true ok)

take_first : (xs ys : List ℕ) (n : ℕ) → length xs ≡ n → take n (xs ++ ys) ≡ xs
take_first [] [] zero e = refl
take_first [] (y ∷ ys) zero e = refl
take_first [] ys (suc n) e = absurd (omega arith)
take_first (x ∷ xs) ys zero e = absurd (omega arith)
take_first (x ∷ xs) ys (suc n) e = ap (λ zs. x ∷ zs) (take_first xs ys n (omega arith))

drop_first : (xs ys : List ℕ) (n : ℕ) → length xs ≡ n → drop n (xs ++ ys) ≡ ys
drop_first [] ys zero e = refl
drop_first [] ys (suc n) e = absurd (omega arith)
drop_first (x ∷ xs) ys zero e = absurd (omega arith)
drop_first (x ∷ xs) ys (suc n) e = drop_first xs ys n (omega arith)

take_all : (xs : List ℕ) (n : ℕ) → length xs ≡ n → take n xs ≡ xs
take_all [] zero e = refl
take_all [] (suc n) e = refl
take_all (x ∷ xs) zero e = absurd (omega arith)
take_all (x ∷ xs) (suc n) e = ap (λ ys. x ∷ ys) (take_all xs n (omega arith))

no_bytes : (xs : List ℕ) → length xs ≡ 0 → xs ≡ []
no_bytes [] e = refl
no_bytes (x ∷ xs) e = absurd (omega arith)

-- The payload that is received.
abbrev pub received : List ℕ → Option (List ℕ)
received [] = none
received (b ∷ bytes) = some (b ∷ bytes)

read_whole :
    (h : JeuxPacketHeader) (xs : List ℕ)
    → length xs ≢ 0
    → elim (some_bytes (some xs)) as (λ x. Option (JeuxPacketHeader × Option (List ℕ))) [
      | none ↦ none
      | some payload ↦ some (h, some payload)
    ]
      ≡ some (h, received xs)
read_whole h [] ne = absurd (ne refl)
read_whole h (x ∷ xs) ne = refl

module _ {Fd : Type 0} (rio : Rio Fd) (contents : Fd → List ℕ) (pipe : IsPipe rio contents)
    (h : JeuxPacketHeader) (payload : List ℕ) (long : length payload ≡ h.size) where
  -- What a packet is on the wire.
  sent_bytes :
      (fd : Fd)
      → contents fd ≡ []
      → (proto_send_packet rio h payload fd).0 ≡ true
      → contents (proto_send_packet rio h payload fd).1 ≡ header_bytes h ++ payload
  unfolding proto_send_packet header_bytes
  sent_bytes fd empty =
      let headed = rio.rio_writen (header_bytes h) fd in
      let sent = rio.rio_writen (take h.size payload) headed.1 in
      let first : headed.0 ≡ true → contents headed.1 ≡ header_bytes h =
        λ ok. pipe.writes (header_bytes h) fd ok ∙ ap (λ xs. xs ++ header_bytes h) empty in
      sent_ways (λ f. contents f ≡ header_bytes h ++ payload) headed.0 (h.size == 0) headed.1 sent
        (λ ok none_left.
          first ok
          ∙ ap (λ ys. header_bytes h ++ ys)
              (sym (no_bytes payload (ground (arith, long, none_left)))))
        (λ ok some_left written.
          pipe.writes (take h.size payload) headed.1 written
          ∙ ap (λ xs. xs ++ take h.size payload) (first ok)
          ∙ ap (λ ys. header_bytes h ++ ys) (take_all payload h.size long))

  recv_payload-payload :
      (fd : Fd) (more : List ℕ)
      → contents fd ≡ payload ++ more
      → ((recv_payload rio h fd).0 ≡ some (h, received payload))
        × (contents (recv_payload rio h fd).1 ≡ more)
  unfolding recv_payload
  recv_payload-payload fd more full =
      let read = rio.rio_readn h.size fd in
      let in_wait : h.size ≤ length (contents fd) =
        omega (arith, long, ap length full, length-append payload more) in
      elim (Bool-cases (h.size == 0)) [
        | inl none_left ↦
            let empty = no_bytes payload (ground (arith, long, none_left)) in
            rw none_left
              (ap (λ xs. some (h, received xs)) (sym empty), full ∙ ap (λ xs. xs ++ more) empty)
        | inr some_left ↦
            let all : read.0 ≡ some payload =
              pipe.reads h.size fd in_wait
              ∙ ap (λ xs. some (take h.size xs)) full
              ∙ ap some (take_first payload more h.size long) in
            rw some_left (
              ap
                    (λ o.
                      elim (some_bytes o) as (λ x. Option (JeuxPacketHeader × Option (List ℕ))) [
                        | none ↦ none
                        | some payload' ↦ some (h, some payload')
                      ])
                    all
                  ∙ read_whole h payload (ground (arith, long, some_left)),
              pipe.leaves h.size fd in_wait
                  ∙ ap (drop h.size) full
                  ∙ drop_first payload more h.size long,
            )
      ]

  header_read :
      (fd : Fd) (more : List ℕ)
      → contents fd ≡ header_bytes h ++ (payload ++ more)
      → 16 ≤ length (contents fd)
  unfolding header_bytes
  header_read fd more full = subst (λ xs. 16 ≤ length xs) (sym full) (omega arith)

  -- A packet at the head of what waits is received, and the rest is left.
  pub recv-send :
      (memory : List ℕ) (fd : Fd) (more : List ℕ)
      → IsHeader h
      → contents fd ≡ header_bytes h ++ (payload ++ more)
      → ((proto_recv_packet rio memory fd).0 ≡ some (h, received payload))
        × (contents (proto_recv_packet rio memory fd).1 ≡ more)
  unfolding proto_recv_packet header_bytes
  recv-send memory fd more ok full =
      let read = rio.rio_readn 16 fd in
      let long' = header_read fd more full in
      let first : read.0 ≡ some (header_bytes h) =
        pipe.reads 16 fd long' ∙ ap (λ xs. some (take 16 xs)) full in
      let left : contents read.1 ≡ payload ++ more = pipe.leaves 16 fd long' ∙ ap (drop 16) full in
      let rest = recv_payload-payload read.1 more left in
      let step : proto_recv_packet rio memory fd ≡ recv_payload rio h read.1 =
        ap
          (λ o. elim (some_bytes o) as (λ x. Option (JeuxPacketHeader × Option (List ℕ)) × Fd) [
            | none ↦ (none, read.1)
            | some bytes ↦ recv_payload rio (header_of (bytes ++ drop (length bytes) memory)) read.1
          ])
          first
        ∙ ap (λ g. recv_payload rio g read.1) (header_of-header_bytes h ok (drop 16 memory)) in
      (ap (λ r. r.0) step ∙ rest.0, ap (λ r. contents r.1) step ∙ rest.1)

-- On a connection that keeps what is written for the reader, and is empty, a packet whose payload
-- has the announced size and that is sent without an error is received as it was sent, and nothing
-- is left.
pub proto_recv_packet-proto_send_packet :
    {Fd : Type 0} (rio : Rio Fd) (contents : Fd → List ℕ) (h : JeuxPacketHeader)
    (payload memory : List ℕ) (fd : Fd)
    → IsPipe rio contents
    → IsHeader h
    → length payload ≡ h.size
    → contents fd ≡ []
    → (proto_send_packet rio h payload fd).0 ≡ true
    → ((proto_recv_packet rio memory (proto_send_packet rio h payload fd).1).0
        ≡ some (h, received payload))
      × (contents (proto_recv_packet rio memory (proto_send_packet rio h payload fd).1).1 ≡ [])
proto_recv_packet-proto_send_packet rio contents h payload memory fd pipe ok long empty sent =
    let wire = sent_bytes rio contents pipe h payload long fd empty sent in
    recv-send rio contents pipe h payload long memory (proto_send_packet rio h payload fd).1 [] ok
      (wire ∙ ap (λ xs. header_bytes h ++ xs) (sym (append-nil payload)))
