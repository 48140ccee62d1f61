-- ===== src/Config/Text.antt =====
-- The text functions that src/interface/config.rs uses, on the bytes of a text. Reading and writing
-- keys (the crate hex) and addresses (std::net) are parameters.
use Prim.Native.Char.{code}
use Prim.Native.String.{String}
use wireguard_rs.Base.{
  ℕ, zero, suc, ◌+◌, ◌-◌, ◌*◌, ◌/◌, ◌%◌, Bool, false, ◌&&◌, Option, none, some, List, [], ◌∷◌, ◌++◌,
  Result, ok, err, Error, Bytes, leb, ltb, ◌==◌, if◌then◌else◌,
}
use wireguard_rs.Types.{IpAddr, SocketAddr}

-- The bytes of a literal.
abbrev pub ascii : String → Bytes
ascii String.[] = []
ascii (String.◌∷◌ c s) = code c ∷ ascii s

-- `socket_addr` reads what `format!("{}:{}", ip, port)` gives for an IPv4 address.
pub record Formats : Type 0 where
  pub to_hex : Bytes → Bytes
  pub from_hex : Bytes → Option Bytes
  pub show_ip : IpAddr → Bytes
  pub read_ip : Bytes → Option IpAddr
  pub read_socket_addr : Bytes → Option SocketAddr

-- The lead byte of a character: how many bytes follow, and where the first of them may lie.
abbrev lead : ℕ → Option (ℕ × ℕ × ℕ)
lead c =
    if ltb c 0x80
    then some (0, 0x80, 0xbf)
    else if ltb c 0xc2
    then none
    else if ltb c 0xe0
    then some (1, 0x80, 0xbf)
    else if c == 0xe0
    then some (2, 0xa0, 0xbf)
    else if c == 0xed
    then some (2, 0x80, 0x9f)
    else if ltb c 0xf0
    then some (2, 0x80, 0xbf)
    else if c == 0xf0
    then some (3, 0x90, 0xbf)
    else if ltb c 0xf4
    then some (3, 0x80, 0xbf)
    else if c == 0xf4
    then some (3, 0x80, 0x8f)
    else none

-- So many bytes of a character are to come, the first of them between two bounds.
abbrev utf8_step : ℕ × ℕ × ℕ → ℕ → Option (ℕ × ℕ × ℕ)
utf8_step (zero, low, high) c = lead c
utf8_step (suc n, low, high) c = if leb low c && leb c high then some (n, 0x80, 0xbf) else none

utf8_from : Option (ℕ × ℕ × ℕ) → Bytes → Bool
utf8_from none cs = false
utf8_from (some (n, low, high)) [] = n == 0
utf8_from (some state) (c ∷ cs) = utf8_from (utf8_step state c) cs

-- `String::from_utf8(…).is_ok()`
unfoldable pub is_utf8 : Bytes → Bool
unfolding utf8_from
is_utf8 = utf8_from (some (0, 0x80, 0xbf))

abbrev pub onto_first : ℕ → List Bytes → List Bytes
onto_first c [] = (c ∷ []) ∷ []
onto_first c (piece ∷ pieces) = (c ∷ piece) ∷ pieces

-- `str::split` at a character
unfoldable pub split : ℕ → Bytes → List Bytes
split at [] = [] ∷ []
split at (c ∷ cs) = let rest = split at cs in if c == at then [] ∷ rest else onto_first c rest

abbrev pub starts_with : ℕ → Bytes → Bool
starts_with at [] = false
starts_with at (c ∷ cs) = c == at

abbrev pub onto_blob : ℕ → Option Bytes → Option Bytes
onto_blob c none = none
onto_blob c (some blob) = some (c ∷ blob)

-- The first piece of `split("\n\n")`, where there is a second.
unfoldable pub before_blank_line : Bytes → Option Bytes
before_blank_line [] = none
before_blank_line (c ∷ cs) =
    let rest = before_blank_line cs in
    if c == b'\n' && starts_with b'\n' cs then some [] else onto_blob c rest

abbrev pub onto_left : ℕ → Option (Bytes × Bytes) → Option (Bytes × Bytes)
onto_left c none = none
onto_left c (some (left, right)) = some (c ∷ left, right)

-- `value.split_at(value.find(at)?)`, the right part without its first character.
unfoldable pub split_once : ℕ → Bytes → Option (Bytes × Bytes)
split_once at [] = none
split_once at (c ∷ cs) =
    let rest = split_once at cs in if c == at then some ([], cs) else onto_left c rest

abbrev pub is_digit : ℕ → Bool
is_digit c = leb b'0' c && leb c b'9'

unfoldable pub digits_onto : ℕ → Bytes → Option ℕ
digits_onto n [] = some n
digits_onto n (c ∷ cs) =
    let rest = digits_onto (10 * n + (c - b'0')) cs in if is_digit c then rest else none

abbrev pub below : ℕ → Option ℕ → Result ℕ
below bound none = err Error.parse_error
below bound (some n) = if ltb n bound then ok n else err Error.parse_error

abbrev pub read_digits : ℕ → Bytes → Result ℕ
read_digits bound [] = err Error.parse_error
read_digits bound (c ∷ cs) = below bound (digits_onto 0 (c ∷ cs))

-- `str::parse` into an unsigned integer: a plus sign may stand before the digits.
unfoldable pub read_uint : ℕ → Bytes → Result ℕ
unfolding digits_onto
read_uint bound [] = err Error.parse_error
read_uint bound (c ∷ cs) = if c == b'+' then read_digits bound cs else read_digits bound (c ∷ cs)

-- `{}` of an unsigned integer of at most so many digits.
unfoldable pub show_digits : ℕ → ℕ → Bytes
show_digits zero n = []
show_digits (suc fuel) n =
    let rest = show_digits fuel (n / 10) in
    if ltb n 10 then (b'0' + n) ∷ [] else rest ++ (b'0' + n % 10) ∷ []

-- 2^64 is below 10^20.
abbrev pub show_uint : ℕ → Bytes
show_uint n = show_digits 20 n
