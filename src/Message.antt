-- ===== src/Message.antt =====
-- src/message.rs: the four messages as byte strings, with the fields that the program reads.
pub mod Layout
pub mod Accept
use wireguard_rs.Base.{
  ℕ, ◌+◌, Bool, List, [], ◌∷◌, Result, ok, err, Error, Bytes, length, drop, slice, copy_at, to_le,
  from_le, replicate, ◌==◌, leb, if◌then◌else◌,
}
use wireguard_rs.Base.Fallible.{◌>>=◌, ◌>>◌, ensure}

pub data Message : Type 0 where
  initiation : Bytes → Message
  response : Bytes → Message
  cookie_reply : Bytes → Message
  transport : Bytes → Message

pub initiation_from : Bytes → Result Bytes
initiation_from packet = do
  ensure (length packet == 148) Error.incorrect_initiation_length
  ok packet

pub response_from : Bytes → Result Bytes
response_from packet = do ensure (length packet == 92) Error.incorrect_response_length; ok packet

pub cookie_reply_from : Bytes → Result Bytes
cookie_reply_from packet = do
  ensure (length packet == 64) Error.incorrect_cookie_reply_length
  ok packet

pub transport_from : Bytes → Result Bytes
transport_from packet = do ensure (leb 32 (length packet)) Error.transport_too_small; ok packet

-- The `match` on the first byte.
message_of_type : ℕ → Bytes → Result Message
unfolding initiation_from response_from cookie_reply_from transport_from
message_of_type first packet =
    if first == 1
    then (do packet' ← initiation_from packet; ok (initiation packet'))
    else if first == 2
    then (do packet' ← response_from packet; ok (response packet'))
    else if first == 3
    then (do packet' ← cookie_reply_from packet; ok (cookie_reply packet'))
    else if first == 4
    then (do packet' ← transport_from packet; ok (transport packet'))
    else err Error.unknown_message_type

-- `packet[0]` panics on an empty packet.
unfoldable pub try_from : Bytes → Result Message
unfolding message_of_type
try_from [] = err Error.panicked
try_from (first ∷ rest) = message_of_type first (first ∷ rest)

-- `LittleEndian::read_u32(&self[at..])`
abbrev pub read_u32 : ℕ → Bytes → ℕ
read_u32 at packet = from_le 4 (drop at packet)

-- `Initiation` and `Response`
abbrev pub sender_index : Bytes → ℕ
sender_index packet = read_u32 4 packet

abbrev pub initiation_noise_bytes : Bytes → Bytes
initiation_noise_bytes packet = slice 8 116 packet

abbrev pub initiation_mac1 : Bytes → Bytes
initiation_mac1 packet = slice 84 100 packet

abbrev pub receiver_index : Bytes → ℕ
receiver_index packet = read_u32 8 packet

abbrev pub response_noise_bytes : Bytes → Bytes
response_noise_bytes packet = slice 12 60 packet

abbrev pub response_mac1 : Bytes → Bytes
response_mac1 packet = slice 60 76 packet

abbrev pub response_mac2 : Bytes → Bytes
response_mac2 packet = slice 76 92 packet

-- `CookieReply`
abbrev pub new_cookie_reply : Bytes
new_cookie_reply = 3 ∷ replicate 63 0

abbrev pub reply_receiver_index : Bytes → ℕ
reply_receiver_index packet = from_le 4 (slice 4 8 packet)

abbrev pub set_receiver_index : ℕ → Bytes → Bytes
set_receiver_index index packet = copy_at 4 (to_le 4 index) packet

abbrev pub reply_nonce : Bytes → Bytes
reply_nonce packet = slice 8 32 packet

abbrev pub reply_cookie : Bytes → Bytes
reply_cookie packet = slice 32 48 packet

abbrev pub reply_aead_tag : Bytes → Bytes
reply_aead_tag packet = slice 48 64 packet

-- Writes through `nonce_cookie_mut`: the nonce, the encrypted cookie and its tag.
abbrev pub write_nonce_cookie : Bytes → Bytes → Bytes → Bytes → Bytes
write_nonce_cookie nonce cookie tag packet =
    copy_at 48 tag (copy_at 32 cookie (copy_at 8 nonce packet))

-- `Transport`
abbrev pub our_index : Bytes → ℕ
our_index packet = read_u32 4 packet

abbrev pub nonce : Bytes → ℕ
nonce packet = from_le 8 (slice 8 16 packet)

abbrev pub payload : Bytes → Bytes
payload packet = drop 16 packet
