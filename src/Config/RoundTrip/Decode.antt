-- ===== src/Config/RoundTrip/Decode.antt =====
-- The decoder of src/interface/config.rs on the text of a peer.
use mathlib.Core.List.{append_assoc, append-nil}
use wireguard_rs.Base.{
  ℕ, suc, ◌+◌, ◌-◌, ◌^◌, ◌≡◌, refl, sym, ap, ◌∙◌, Bool, true, false, not, Option, none, some, List,
  [], ◌∷◌, ◌++◌, Result, ok, err, Bytes, length, drop, leb, ◌==◌, arith, Bool-cases, inl, inr,
  if◌then◌else◌,
}
use wireguard_rs.Base.Fallible.{◌>>=◌}
use wireguard_rs.Base.Monad.{next_step}
use wireguard_rs.Timestamp.{elapsed, is_set}
use wireguard_rs.Types.{IpAddr}
use wireguard_rs.Peer.{Peer, or_else}
use wireguard_rs.Config.{UpdateEvent, Command}
use wireguard_rs.Config.Text.{Formats, ascii, split_once, show_uint}
use wireguard_rs.Config.Parser.{
  Pending, flush, read_allowed_ip, read_item, read_items, from, read_command,
}
use wireguard_rs.Config.Codec.{decode, decoded, decode_text, decode_blob}
use wireguard_rs.Config.Printer.{show_allowed_ip, to_config_string}
use wireguard_rs.Config.Decimals.{read_uint-show_uint}
use wireguard_rs.Config.Lines.{
  Item, Fits, AllFit, text, blob, avoids, text-append, entries-blob, before_blank_line-blob,
  blob-is_utf8,
}
use wireguard_rs.Config.Framing.{drop-append}
use wireguard_rs.Config.RoundTrip.{
  Readable, IpBack, IpsBack, as_printed, mapped_endpoint, allowed_items, handshake_items,
  later_items, text-later_items, read_items-psk, read_items-endpoint, read_items-keepalive,
}
use wireguard_rs.Config.RoundTrip.Fitting.{later_items-AllFit}

split_once-append :
    (left right : Bytes)
    → avoids b'/' left ≡ true
    → split_once b'/' (left ++ b'/' ∷ right) ≡ some (left, right)
unfolding split_once
split_once-append [] right h = refl
split_once-append (c ∷ cs) right h = ground (arith, h, split_once-append cs right)

or_else-none : {A : Type 0} (o : Option A) → or_else o none ≡ o
or_else-none none = refl
or_else-none (some a) = refl

module _ (formats : Formats) where
  read_allowed_ip-show :
      (ip : IpAddr) (mask : ℕ)
      → IpBack formats (ip, mask)
      → read_allowed_ip formats (split_once b'/' (show_allowed_ip formats (ip, mask)))
        ≡ ok (ip, mask)
  read_allowed_ip-show ip mask (read, small, no_slash, inner) =
      ap (read_allowed_ip formats)
        (split_once-append (formats.show_ip ip) (show_uint mask) no_slash)
      ∙ rw (read, read_uint-show_uint (2 ^ 32) mask small (omega (arith, small))) refl

  read_items-allowed :
      (ips : List (IpAddr × ℕ)) (items : List Item) (p : Pending)
      → IpsBack formats ips
      → read_items formats (allowed_items formats ips ++ items) p
        ≡ read_items formats items
            (record p { info = record (p.info) { allowed_ips = p.info.allowed_ips ++ ips } })
  unfolding read_items read_item
  read_items-allowed [] items p back = rw (append-nil p.info.allowed_ips) refl
  read_items-allowed ((ip, mask) ∷ ips) items p (here, back) =
      rw (read_allowed_ip-show ip mask here) (
        read_items-allowed ips items _ back
        ∙ ap
            (λ all.
              read_items formats items (record p { info = record (p.info) { allowed_ips = all } }))
            (append_assoc p.info.allowed_ips ((ip, mask) ∷ []) ips))

  -- Keys that the parser does not know.
  read_items-counts :
      (tx rx : Bytes) (set : Bool) (system_now ago : ℕ) (p : Pending)
      → read_items formats
          ((ascii "tx_bytes", tx)
            ∷ (ascii "rx_bytes", rx)
            ∷ handshake_items formats set system_now ago)
          p
        ≡ ok p
  unfolding read_items read_item
  read_items-counts tx rx false system_now ago p = refl
  read_items-counts tx rx true system_now ago p = elim (Bool-cases (leb ago system_now)) [
    | inl after ↦ rw after refl
    | inr before ↦ rw before refl
  ]

  from-later_items :
      {N : Type 0} (now system_now : ℕ) (p : Peer N)
      → Readable formats p.info
      → from formats (
          (ascii "public_key", formats.to_hex p.info.pub_key)
          ∷ later_items formats now system_now p)
        ≡ ok (UpdateEvent.update_peer (as_printed p.info) false ∷ [])
  unfolding from read_items read_item
  from-later_items now system_now p back = rw back.key_back (
      ap (λ r. r >>= λ q. ok (flush q).events)
        (read_items-psk formats p.info.psk _ _ (λ k h. (back.psk_back k h).0)
          ∙ read_items-endpoint formats p.info.endpoint _ _ (λ e h. (back.endpoint_back e h).0)
          ∙ read_items-keepalive formats p.info.keepalive _ _ back.keepalive_fits
          ∙ read_items-allowed p.info.allowed_ips _ _ back.ips_back
          ∙ read_items-counts (show_uint p.tx_bytes) (show_uint p.rx_bytes)
              (is_set p.timers.handshake_completed) system_now
              (elapsed now p.timers.handshake_completed) _)
      ∙ rw
          (
            or_else-none p.info.psk,
            or_else-none (mapped_endpoint p.info.endpoint),
            or_else-none p.info.keepalive,
          )
          refl)

  read_command-set :
      (items : List Item) (events : List UpdateEvent)
      → from formats items ≡ ok events
      → read_command formats ((ascii "set", ascii "1") ∷ items) ≡ ok (Command.set 1 events)
  unfolding read_command
  read_command-set items events h = ap (λ r. r >>= λ events. ok (Command.set 1 events)) h

  -- A list of items whose lines are complete is decoded, and one newline stays behind.
  decode-text :
      (item : Item) (items : List Item) (c : Command)
      → Fits item
      → AllFit items
      → read_command formats (item ∷ items) ≡ ok c
      → decode formats (text (item ∷ items) ++ ascii "\n") ≡ (ascii "\n", ok (some c))
  unfolding decode wireguard_rs.Base.Monad.◌>>=◌ wireguard_rs.Base.Monad.◌>>◌
  decode-text item items c fits all h =
      ap (decode formats) (text-append item items (ascii "\n"))
      ∙ ap (λ b. decode_text formats b all_of) (blob-is_utf8 item items fits all)
      ∙ ap (λ found. decode_blob formats found all_of)
          (before_blank_line-blob item items [] fits all)
      ∙ ap (λ read. decoded formats (blob item items) read all_of)
          (entries-blob item items fits all)
      ∙ ap
          (λ r.
            next_step (drop (length (blob item items) + 1) all_of, r)
              (λ c. wireguard_rs.Base.Monad.pure (some c)))
          h
      ∙ ap (λ rest. (rest, ok (some c))) (drop-append (blob item items) b'\n' (ascii "\n"))
    where
      all_of : Bytes
      all_of = blob item items ++ b'\n' ∷ b'\n' ∷ []

  -- A peer that is printed, as a command to set it, is decoded as an update by the same configuration,
  -- where the text of its keys and addresses is ASCII without line ends and `=` and is read back, no
  -- allowed address has a `/` in its text, the keepalive has 16 bits and a mask 32. The endpoint comes
  -- without its pktinfo.
  pub decode-to_config_string :
      {N : Type 0} (now system_now : ℕ) (p : Peer N)
      → Readable formats p.info
      → decode formats (ascii "set=1\n" ++ to_config_string formats now system_now p ++ ascii "\n")
        ≡ (
          ascii "\n",
          ok (some (Command.set 1 (UpdateEvent.update_peer (as_printed p.info) false ∷ []))),
        )
  decode-to_config_string now system_now p back =
      ap (λ lines. decode formats (ascii "set=1\n" ++ lines ++ ascii "\n"))
        (sym (text-later_items formats now system_now p))
      ∙ decode-text (ascii "set", ascii "1") (key_item ∷ later_items formats now system_now p) _
          (refl, refl) ((refl, back.key_inner), later_items-AllFit formats now system_now p back)
          (read_command-set (key_item ∷ later_items formats now system_now p) _
            (from-later_items now system_now p back))
    where
      key_item : Item
      key_item = (ascii "public_key", formats.to_hex p.info.pub_key)
