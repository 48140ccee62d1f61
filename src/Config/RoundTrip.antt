-- ===== src/Config/RoundTrip.antt =====
-- `to_config_string` of src/peer.rs against the parser of src/interface/config.rs: the items of a peer.
pub mod Decode
pub mod Fitting
use mathlib.Core.List.{append_assoc, append-nil}
use wireguard_rs.Base.{
  ℕ, ◌-◌, ◌/◌, ◌%◌, ◌^◌, ◌<◌, ◌≡◌, refl, sym, ap, ◌∙◌, Bool, true, false, Option, none, some, List,
  [], ◌∷◌, ◌++◌, Bytes, leb, arith, if◌then◌else◌, Bool-cases, inl, inr,
}
use wireguard_rs.Consts.{second}
use wireguard_rs.Timestamp.{elapsed, is_set}
use wireguard_rs.Types.{IpAddr, Endpoint, PeerInfo, addr, from_addr}
use wireguard_rs.Peer.{Peer, or_else}
use wireguard_rs.Config.Text.{Formats, ascii, show_uint}
use wireguard_rs.Config.Parser.{Pending, read_item, read_items}
use wireguard_rs.Config.Printer.{
  line, line_if, map_some, show_endpoint, show_allowed_ip, allowed_lines, handshake_lines,
  to_config_string,
}
use wireguard_rs.Config.Lines.{Item, text, all_inner, avoids}
use wireguard_rs.Config.Decimals.{read_uint-show_uint}

abbrev pub item_if : Bytes → Option Bytes → List Item
item_if key none = []
item_if key (some value) = (key, value) ∷ []

abbrev pub mapped_endpoint : Option Endpoint → Option Endpoint
mapped_endpoint none = none
mapped_endpoint (some e) = some (from_addr (addr e))

-- What the texts of a peer leave of its `info`: the endpoint without its pktinfo.
abbrev pub as_printed : PeerInfo → PeerInfo
as_printed info = record info { endpoint = mapped_endpoint info.endpoint }

regroup :
    (a b c d e f g h : Bytes)
    → a ++ b ++ c ++ d ++ e ++ f ++ g ++ h ≡ a ++ (b ++ (c ++ (d ++ (e ++ (f ++ (g ++ h))))))
regroup a b c d e f g h = simp append_assoc

module _ (formats : Formats) where
  -- The text of an allowed address is read back, and needs no escape.
  abbrev pub IpBack : IpAddr × ℕ → Type 0
  IpBack (ip, mask) =
      (formats.read_ip (formats.show_ip ip) ≡ some ip)
      × (mask < 2 ^ 32)
      × (avoids b'/' (formats.show_ip ip) ≡ true)
      × (all_inner (formats.show_ip ip) ≡ true)

  abbrev pub IpsBack : List (IpAddr × ℕ) → Type 0
  IpsBack [] = Unit {0}
  IpsBack (ip ∷ ips) = IpBack ip × IpsBack ips

  -- The crate hex and std::net read back what they write of these keys and addresses. For an endpoint
  -- this needs an IPv4 address.
  pub record Readable (info : PeerInfo) : Type 0 where
    pub key_back : formats.from_hex (formats.to_hex info.pub_key) ≡ some info.pub_key
    pub key_inner : all_inner (formats.to_hex info.pub_key) ≡ true
    pub psk_back :
        (k : Bytes)
        → info.psk ≡ some k
        → (formats.from_hex (formats.to_hex k) ≡ some k) × (all_inner (formats.to_hex k) ≡ true)
    pub endpoint_back :
        (e : Endpoint)
        → info.endpoint ≡ some e
        → (formats.read_socket_addr (show_endpoint formats e) ≡ some (addr e))
          × (all_inner (show_endpoint formats e) ≡ true)
    pub keepalive_fits : (n : ℕ) → info.keepalive ≡ some n → n < 2 ^ 16
    pub ips_back : IpsBack info.allowed_ips

  abbrev pub allowed_items : List (IpAddr × ℕ) → List Item
  allowed_items [] = []
  allowed_items (ip ∷ ips) = (ascii "allowed_ip", show_allowed_ip formats ip) ∷ allowed_items ips

  abbrev pub handshake_items : Bool → ℕ → ℕ → List Item
  handshake_items false system_now ago = []
  handshake_items true system_now ago =
      if leb ago system_now
      then (ascii "last_handshake_time_sec", show_uint ((system_now - ago) / second))
        ∷ (ascii "last_handshake_time_nsec", show_uint ((system_now - ago) % second))
        ∷ []
      else []

  -- The items behind the public key.
  abbrev pub later_items : {N : Type 0} → ℕ → ℕ → Peer N → List Item
  later_items now system_now p =
      item_if (ascii "preshared_key") (map_some formats.to_hex p.info.psk)
      ++ (item_if (ascii "endpoint") (map_some (show_endpoint formats) p.info.endpoint)
          ++ (item_if (ascii "persistent_keepalive_interval") (map_some show_uint p.info.keepalive)
              ++ (allowed_items p.info.allowed_ips
                  ++ (ascii "tx_bytes", show_uint p.tx_bytes)
                    ∷ (ascii "rx_bytes", show_uint p.rx_bytes)
                    ∷ handshake_items (is_set p.timers.handshake_completed) system_now
                        (elapsed now p.timers.handshake_completed))))

  text-item_if :
      (key : Bytes) (value : Option Bytes) (items : List Item)
      → text (item_if key value ++ items) ≡ line_if key value ++ text items
  text-item_if key none items = refl
  text-item_if key (some value) items = refl

  text-allowed_items :
      (ips : List (IpAddr × ℕ)) (items : List Item)
      → text (allowed_items ips ++ items) ≡ allowed_lines formats ips ++ text items
  unfolding allowed_lines
  text-allowed_items [] items = refl
  text-allowed_items (ip ∷ ips) items =
      ap (λ rest. line (ascii "allowed_ip") (show_allowed_ip formats ip) ++ rest)
        (text-allowed_items ips items)
      ∙ sym (
          append_assoc (line (ascii "allowed_ip") (show_allowed_ip formats ip))
            (allowed_lines formats ips) (text items))

  text-handshake_items :
      (set : Bool) (system_now ago : ℕ)
      → text (handshake_items set system_now ago) ≡ handshake_lines formats set system_now ago
  text-handshake_items false system_now ago = refl
  text-handshake_items true system_now ago = elim (Bool-cases (leb ago system_now)) [
    | inl after ↦ rw after (
        ap
          (λ rest.
            line (ascii "last_handshake_time_sec") (show_uint ((system_now - ago) / second))
            ++ rest)
          (append-nil _))
    | inr before ↦ rw before refl
  ]

  -- The text of a peer is that of its items.
  pub text-later_items :
      {N : Type 0} (now system_now : ℕ) (p : Peer N)
      → text ((ascii "public_key", formats.to_hex p.info.pub_key) ∷ later_items now system_now p)
        ≡ to_config_string formats now system_now p
  unfolding to_config_string
  text-later_items now system_now p =
      let hs =
        handshake_items (is_set p.timers.handshake_completed) system_now
          (elapsed now p.timers.handshake_completed) in
      let counts =
        (ascii "tx_bytes", show_uint p.tx_bytes) ∷ (ascii "rx_bytes", show_uint p.rx_bytes) ∷ hs in
      let allowed = allowed_items p.info.allowed_ips ++ counts in
      let keep =
        item_if (ascii "persistent_keepalive_interval") (map_some show_uint p.info.keepalive)
        ++ allowed in
      let end =
        item_if (ascii "endpoint") (map_some (show_endpoint formats) p.info.endpoint) ++ keep in
      ap (λ rest. line (ascii "public_key") (formats.to_hex p.info.pub_key) ++ rest)
        (text-item_if (ascii "preshared_key") (map_some formats.to_hex p.info.psk) end
          ∙ ap
              (λ rest. line_if (ascii "preshared_key") (map_some formats.to_hex p.info.psk) ++ rest)
              (text-item_if (ascii "endpoint") (map_some (show_endpoint formats) p.info.endpoint)
                  keep
                ∙ ap
                    (λ rest.
                      line_if (ascii "endpoint") (map_some (show_endpoint formats) p.info.endpoint)
                      ++ rest)
                    (text-item_if (ascii "persistent_keepalive_interval")
                        (map_some show_uint p.info.keepalive) allowed
                      ∙ ap
                          (λ rest.
                            line_if (ascii "persistent_keepalive_interval")
                              (map_some show_uint p.info.keepalive)
                            ++ rest)
                          (text-allowed_items p.info.allowed_ips counts
                            ∙ ap
                                (λ rest.
                                  allowed_lines formats p.info.allowed_ips
                                  ++ (line (ascii "tx_bytes") (show_uint p.tx_bytes)
                                      ++ (line (ascii "rx_bytes") (show_uint p.rx_bytes) ++ rest)))
                                (text-handshake_items (is_set p.timers.handshake_completed)
                                  system_now (elapsed now p.timers.handshake_completed))))))
      ∙ sym (regroup (line (ascii "public_key") (formats.to_hex p.info.pub_key)) _ _ _ _ _ _ _)

  pub read_items-psk :
      (psk : Option Bytes) (items : List Item) (p : Pending)
      → ((k : Bytes) → psk ≡ some k → formats.from_hex (formats.to_hex k) ≡ some k)
      → read_items formats
          (item_if (ascii "preshared_key") (map_some formats.to_hex psk) ++ items)
          p
        ≡ read_items formats items
            (record p { info = record (p.info) { psk = or_else psk p.info.psk } })
  unfolding read_items read_item
  read_items-psk none items p back = refl
  read_items-psk (some k) items p back = rw (back k refl) refl

  pub read_items-endpoint :
      (endpoint : Option Endpoint) (items : List Item) (p : Pending)
      → ((e : Endpoint)
          → endpoint ≡ some e
          → formats.read_socket_addr (show_endpoint formats e) ≡ some (addr e))
      → read_items formats
          (item_if (ascii "endpoint") (map_some (show_endpoint formats) endpoint) ++ items)
          p
        ≡ read_items formats items (record p {
          info = record (p.info) { endpoint = or_else (mapped_endpoint endpoint) p.info.endpoint };
        })
  unfolding read_items read_item
  read_items-endpoint none items p back = refl
  read_items-endpoint (some e) items p back = rw (back e refl) refl

  pub read_items-keepalive :
      (keepalive : Option ℕ) (items : List Item) (p : Pending)
      → ((n : ℕ) → keepalive ≡ some n → n < 2 ^ 16)
      → read_items formats
          (item_if (ascii "persistent_keepalive_interval") (map_some show_uint keepalive) ++ items)
          p
        ≡ read_items formats items
            (record p { info = record (p.info) { keepalive = or_else keepalive p.info.keepalive } })
  unfolding read_items read_item
  read_items-keepalive none items p back = refl
  read_items-keepalive (some n) items p fits =
      rw (read_uint-show_uint (2 ^ 16) n (fits n refl) (omega (arith, fits n refl))) refl
