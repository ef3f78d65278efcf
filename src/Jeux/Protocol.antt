-- ===== src/Jeux/Protocol.antt =====
-- hw5/src/protocol.c: packets over a connection. `rio_readn` and `rio_writen` are the vendored ones
-- of hw5/src/csapp.c, and parameters. The fields of a header stand for the numbers that their bytes
-- are in network byte order, which `htons` and `htonl` produce; a header has 16 bytes, of which
-- three are padding.
pub mod RoundTrip
mod Tests
use c_starter_projects.Prelude.{
  ℕ, ◌+◌, ◌*◌, ◌/◌, ◌%◌, Bool, true, false, Option, none, some, List, [], ◌∷◌, ◌++◌, length, take,
  drop, ◌==◌, if◌then◌else◌,
}

-- The packet types, by their number.
abbrev pub jeux_no_pkt : ℕ
jeux_no_pkt = 0

abbrev pub jeux_login_pkt : ℕ
jeux_login_pkt = 1

abbrev pub jeux_users_pkt : ℕ
jeux_users_pkt = 2

abbrev pub jeux_invite_pkt : ℕ
jeux_invite_pkt = 3

abbrev pub jeux_revoke_pkt : ℕ
jeux_revoke_pkt = 4

abbrev pub jeux_accept_pkt : ℕ
jeux_accept_pkt = 5

abbrev pub jeux_decline_pkt : ℕ
jeux_decline_pkt = 6

abbrev pub jeux_move_pkt : ℕ
jeux_move_pkt = 7

abbrev pub jeux_resign_pkt : ℕ
jeux_resign_pkt = 8

abbrev pub jeux_ack_pkt : ℕ
jeux_ack_pkt = 9

pub record JeuxPacketHeader : Type 0 where
  pub packet_type : ℕ
  pub id : ℕ
  pub role : ℕ
  pub size : ℕ
  pub timestamp_sec : ℕ
  pub timestamp_nsec : ℕ

abbrev pub long_bytes : ℕ → List ℕ
long_bytes w = w / 16777216 % 256 ∷ w / 65536 % 256 ∷ w / 256 % 256 ∷ w % 256 ∷ []

-- The header in memory, with zero for the padding.
unfoldable pub header_bytes : JeuxPacketHeader → List ℕ
header_bytes h =
    h.packet_type % 256
      ∷ h.id % 256
      ∷ h.role % 256
      ∷ 0
      ∷ h.size / 256 % 256
      ∷ h.size % 256
      ∷ 0
      ∷ 0
      ∷ long_bytes h.timestamp_sec
    ++ long_bytes h.timestamp_nsec

-- The byte at an index of a header's memory.
unfoldable pub byte_at : List ℕ → ℕ → ℕ
byte_at bytes i = elim (drop i bytes) [ [] ↦ 0 | b ∷ rest ↦ b ]

abbrev pub word_at : List ℕ → ℕ → ℕ
word_at bytes i =
    byte_at bytes i * 16777216
    + byte_at bytes (i + 1) * 65536
    + byte_at bytes (i + 2) * 256
    + byte_at bytes (i + 3)

unfoldable pub header_of : List ℕ → JeuxPacketHeader
header_of bytes = record {
  packet_type = byte_at bytes 0;
  id = byte_at bytes 1;
  role = byte_at bytes 2;
  size = byte_at bytes 4 * 256 + byte_at bytes 5;
  timestamp_sec = word_at bytes 8;
  timestamp_nsec = word_at bytes 12;
}

-- A connection. `rio_writen` says whether it has written all; `rio_readn` gives the bytes that it
-- has read, fewer than asked for only at the end of the file, or `none` for -1.
pub record Rio (Fd : Type 0) : Type 0 where
  pub rio_writen : List ℕ → Fd → Bool × Fd
  pub rio_readn : ℕ → Fd → Option (List ℕ) × Fd

-- What a read leaves: `none` for -1 and for the end of the file.
abbrev pub some_bytes : Option (List ℕ) → Option (List ℕ)
some_bytes none = none
some_bytes (some []) = none
some_bytes (some (b ∷ bytes)) = some (b ∷ bytes)

module _ {Fd : Type 0} (rio : Rio Fd) where
  -- The result says whether 0 is returned. `payload` points to at least `size` bytes.
  unfoldable pub proto_send_packet : JeuxPacketHeader → List ℕ → Fd → Bool × Fd
  proto_send_packet hdr payload fd =
      let headed = rio.rio_writen (header_bytes hdr) fd in
      let sent = rio.rio_writen (take hdr.size payload) headed.1 in
      if headed.0 then if hdr.size == 0 then (true, headed.1) else sent else (false, headed.1)

  unfoldable pub recv_payload :
      JeuxPacketHeader → Fd → Option (JeuxPacketHeader × Option (List ℕ)) × Fd
  recv_payload hdr fd =
      let read = rio.rio_readn hdr.size fd in
      if hdr.size == 0 then (some (hdr, none), fd) else (
        elim (some_bytes read.0) [ none ↦ none | some payload ↦ some (hdr, some payload) ],
        read.1,
      )

  -- `memory` is what the header holds before: the bytes behind a short read stay. A payload that is
  -- read short has its bytes only; what follows them in the buffer is not initialised. The payload
  -- is `none` for a NULL pointer.
  unfoldable pub proto_recv_packet :
      (memory : List ℕ) → Fd → Option (JeuxPacketHeader × Option (List ℕ)) × Fd
  unfolding recv_payload
  proto_recv_packet memory fd =
      let read = rio.rio_readn 16 fd in
      elim (some_bytes read.0) [
        | none ↦ (none, read.1)
        | some bytes ↦ recv_payload (header_of (bytes ++ drop (length bytes) memory)) read.1
      ]
