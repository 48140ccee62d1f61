-- ===== src/Base/Errors.antt =====
-- `failure::Error` and `Result<_, Error>`: the source's messages as constructors.
use mathlib.Core.Bool.{Bool, true, false}
use mathlib.Core.Option.{Option, none, some}

pub data Error : Type 0 where
  -- an error that a third-party crate returns
  third_party : Error
  -- an error of the standard library: a text that does not parse
  parse_error : Error
  -- no `Err` but a panic: an `unwrap` or `expect` of nothing, or an index out of range
  panicked : Error
  -- no `Err` either: the random draws that the model was given are used up
  no_more_draws : Error
  -- anti_replay.rs
  replayed_nonce : Error
  -- message.rs
  unknown_message_type incorrect_initiation_length incorrect_response_length : Error
  incorrect_cookie_reply_length transport_too_small : Error
  -- cookie.rs
  mac_mismatch no_mac2_secret_time secret_is_too_old no_last_mac1 : Error
  -- xchacha20poly1305.rs
  wrong_key_len wrong_nonce_len wrong_output_len : Error
  -- router.rs
  no_peer_found_on_route peer_mismatch : Error
  -- peer.rs
  no_known_peer_endpoint incorrect_payload_length handshake_timestamp_earlier : Error
  no_next_session no_session_with_index session_not_ready : Error
  exceeded_reject_after_messages exceeded_reject_after_time invalid_ip_packet : Error
  no_current_session : Error
  -- interface/peer_server.rs
  no_udp_socket cookie_request_sent rejected_by_rate_limiter no_private_key : Error
  unknown_peer_pubkey unknown_our_index egress_size no_route_to_peer rekey_timeout : Error
  peer_no_longer_there too_soon_since_last_init giving_up stale_rekey_tick : Error
  dead_session passive_keepalive_skip passive_keepalive_tick persistent_keepalive_tick : Error
  no_persistent_keepalive : Error
  -- interface/config.rs
  max_peers_per_device nonexistent_peer ip_cidr_format invalid_command : Error
  -- udp/mod.rs and udp/frame.rs
  would_block os_error missing_pktinfo invalid_source_address partial_datagram : Error
  -- interface/mod.rs
  unrecognized_ip_version : Error
  -- main.rs
  not_root : Error

pub data Result {ℓ} (A : Type ℓ) : Type ℓ where
  ok : A → Result A
  err : Error → Result A

-- `Option::ok_or_else`
abbrev pub ok_or {ℓ} : {A : Type ℓ} → Option A → Error → Result A
ok_or none e = err e
ok_or (some a) e = ok a

abbrev pub is_ok {ℓ} : {A : Type ℓ} → Result A → Bool
is_ok (ok a) = true
is_ok (err e) = false

-- `Result::map`
abbrev pub map_ok {ℓ κ} : {A : Type ℓ} {B : Type κ} → (A → B) → Result A → Result B
map_ok f (ok a) = ok (f a)
map_ok f (err e) = err e
