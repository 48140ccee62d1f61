-- ===== src/Message/Accept.antt =====
-- src/message.rs, `try_from`: which packets become messages.
use wireguard_rs.Base.{◌≤◌, ◌≡◌, [], ◌∷◌, ok, err, Error, Bytes, length, slice, arith, ◌↔◌}
use wireguard_rs.Message.{Message, initiation, response, cookie_reply, transport, try_from}

-- The message has the bytes of the packet, the type byte of its kind, and the length that the kind asks for.
abbrev pub IsReadFrom : Message → Bytes → Type 0
IsReadFrom (initiation p) packet =
    (p ≡ packet) × (slice 0 1 packet ≡ 1 ∷ []) × (length packet ≡ 148)
IsReadFrom (response p) packet = (p ≡ packet) × (slice 0 1 packet ≡ 2 ∷ []) × (length packet ≡ 92)
IsReadFrom (cookie_reply p) packet =
    (p ≡ packet) × (slice 0 1 packet ≡ 3 ∷ []) × (length packet ≡ 64)
IsReadFrom (transport p) packet = (p ≡ packet) × (slice 0 1 packet ≡ 4 ∷ []) × (32 ≤ length packet)

-- A packet becomes a message exactly if it has the type byte and the length of that kind of message.
pub try_from-IsReadFrom :
    (packet : Bytes) (m : Message) → (try_from packet ≡ ok m) ↔ IsReadFrom m packet
unfolding try_from
try_from-IsReadFrom [] (initiation p) = ground arith
try_from-IsReadFrom [] (response p) = ground arith
try_from-IsReadFrom [] (cookie_reply p) = ground arith
try_from-IsReadFrom [] (transport p) = ground arith
try_from-IsReadFrom (first ∷ rest) (initiation p) = ground arith
try_from-IsReadFrom (first ∷ rest) (response p) = ground arith
try_from-IsReadFrom (first ∷ rest) (cookie_reply p) = ground arith
try_from-IsReadFrom (first ∷ rest) (transport p) = ground arith

-- Reading a packet panics exactly if the packet is empty.
pub try_from-panics : (packet : Bytes) → (try_from packet ≡ err Error.panicked) ↔ (packet ≡ [])
unfolding try_from
try_from-panics [] = ground arith
try_from-panics (first ∷ rest) = ground arith
