-- ===== src/Cookie.antt =====
-- src/cookie.rs: the two MACs of handshake messages, and the cookies that the second one takes.
pub mod Laws
use wireguard_rs.Base.{
  ℕ, ◌-◌, Bool, true, false, not, Option, none, some, List, [], ◌∷◌, ◌++◌, Result, ok, err, Error,
  ok_or, Bytes, bytes_eq, length, take, drop, replicate, leb, if◌then◌else◌,
}
use wireguard_rs.Base.Fallible.{◌>>=◌, ◌>>◌, ensure}
use wireguard_rs.Base.Monad.{M}
use wireguard_rs.Crates.{Crates}
use wireguard_rs.Consts.{cookie_refresh_time}
use wireguard_rs.Message.{
  new_cookie_reply, set_receiver_index, reply_nonce, reply_cookie, reply_aead_tag,
  write_nonce_cookie,
}
use wireguard_rs.Xchacha.{encrypt, decrypt}

pub record ValidatorMac2 : Type 0 where
  pub secret : Bytes
  pub secret_time : Option ℕ
  pub key : Bytes

pub record GeneratorMac2 : Type 0 where
  pub cookie : Bytes
  pub cookie_time : Option ℕ
  pub last_mac1 : Option Bytes
  pub key : Bytes

pub record Validator : Type 0 where
  pub mac1_key : Bytes
  pub mac2 : ValidatorMac2

pub record Generator : Type 0 where
  pub mac1_key : Bytes
  pub mac2 : GeneratorMac2

-- `b"mac1----"` and `b"cookie--"`
abbrev pub label_mac1 : Bytes
label_mac1 = b'm' ∷ b'a' ∷ b'c' ∷ b'1' ∷ b'-' ∷ b'-' ∷ b'-' ∷ b'-' ∷ []

abbrev pub label_cookie : Bytes
label_cookie = b'c' ∷ b'o' ∷ b'o' ∷ b'k' ∷ b'i' ∷ b'e' ∷ b'-' ∷ b'-' ∷ []

abbrev pub is_secret_valid : ℕ → Option ℕ → Bool
is_secret_valid now none = false
is_secret_valid now (some time) = leb (now - time) cookie_refresh_time

module _ {N T : Type 0} (crates : Crates N T) where
  unfoldable pub new_validator : Bytes → Validator
  new_validator pub_key = record {
    mac1_key = crates.blake2s 32 [] (label_mac1 ++ pub_key);
    mac2 = record {
      secret = replicate 16 0;
      secret_time = none;
      key = crates.blake2s 32 [] (label_cookie ++ pub_key);
    };
  }

  unfoldable pub new_generator : Bytes → Generator
  new_generator pub_key = record {
    mac1_key = crates.blake2s 32 [] (label_mac1 ++ pub_key);
    mac2 = record {
      cookie = replicate 16 0;
      cookie_time = none;
      last_mac1 = none;
      key = crates.blake2s 32 [] (label_cookie ++ pub_key);
    };
  }

  unfoldable pub verify_mac1 : Validator → Bytes → Bytes → Result (Unit {0})
  verify_mac1 v mac_input mac =
      ensure (bytes_eq mac (crates.blake2s 16 v.mac1_key mac_input)) Error.mac_mismatch

  unfoldable pub verify_mac2 : ℕ → Validator → Bytes → Bytes → Result (Unit {0})
  verify_mac2 now v message source = do
    secret_time ← ok_or v.mac2.secret_time Error.no_mac2_secret_time
    ensure (leb (now - secret_time) cookie_refresh_time) Error.secret_is_too_old
    let cookie = crates.blake2s 16 v.mac2.secret source
    let our_mac2 = crates.blake2s 16 cookie (take (length message - 16) message)
    let thr_mac2 = drop (length message - 16) message
    ensure (bytes_eq our_mac2 thr_mac2) Error.mac_mismatch

  -- The secret is refreshed from the random bytes `fresh` once it has expired.
  unfoldable pub refresh_secret : ℕ → Bytes → Validator → Validator
  refresh_secret now fresh v =
      if not (is_secret_valid now v.mac2.secret_time)
      then record v { mac2 = record (v.mac2) { secret = fresh; secret_time = some now } }
      else v

  -- The part of `generate_reply` after the refresh: derive and encrypt the cookie.
  unfoldable pub encrypted_reply : Bytes → ℕ → Bytes → Bytes → Validator → Result Bytes
  encrypted_reply rand_nonce sender mac1 source v = do
    let input = crates.blake2s 16 v.mac2.secret source
    sealed ← encrypt crates v.mac2.key rand_nonce input mac1 16
    ok (
        write_nonce_cookie rand_nonce (sealed.0) (sealed.1)
          (set_receiver_index sender new_cookie_reply))

  -- `fresh` and `rand_nonce` are what `rng.fill_bytes` gives.
  unfoldable pub generate_reply : ℕ → Bytes → Bytes → ℕ → Bytes → Bytes → M Validator Bytes
  unfolding refresh_secret encrypted_reply
  generate_reply now fresh rand_nonce sender mac1 source v =
      let v' = refresh_secret now fresh v in (v', encrypted_reply rand_nonce sender mac1 source v')

  accept_cookie : ℕ → Generator → Result Bytes → Generator × Result (Unit {0})
  accept_cookie now g (ok cookie) =
      (record g { mac2 = record (g.mac2) { cookie = cookie; cookie_time = some now } }, ok tt)
  accept_cookie now g (err e) = (g, err e)

  opened_reply : Bytes → Generator → Result Bytes
  opened_reply reply g = do
    last_mac1 ← ok_or g.mac2.last_mac1 Error.no_last_mac1
    decrypt crates g.mac2.key (reply_nonce reply) (reply_cookie reply) last_mac1
        (reply_aead_tag reply) (length g.mac2.cookie)

  unfoldable pub consume_reply : ℕ → Bytes → M Generator (Unit {0})
  unfolding accept_cookie opened_reply
  consume_reply now reply g = accept_cookie now g (opened_reply reply g)

  -- The generator afterwards, `mac1`, and `mac2` where there is a cookie that has not expired.
  unfoldable pub build_macs : ℕ → Bytes → Generator → Generator × Bytes × Option Bytes
  build_macs now input g =
      let mac1 = crates.blake2s 16 g.mac1_key input in
      let mac2 =
        if is_secret_valid now g.mac2.cookie_time
        then some (crates.blake2s 16 g.mac2.cookie (input ++ mac1))
        else none in
      (record g { mac2 = record (g.mac2) { last_mac1 = some mac1 } }, mac1, mac2)
