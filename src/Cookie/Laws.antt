-- ===== src/Cookie/Laws.antt =====
-- src/cookie.rs: the two sides of the MACs and of the cookies.
use wireguard_rs.Base.{
  ℕ, ◌-◌, ◌≤◌, ◌≡◌, refl, ap, ◌∙◌, ◌↔◌, Bool, true, false, some, [], Error, ◌++◌, ok, Bytes,
  bytes_eq, bytes_eq_iff, length, take, drop, copy_at, length-append, length-copy_at, arith,
}
use wireguard_rs.Base.Copies.{
  slice-copy_at_self, slice-copy_at_before, take-append_le, take_all, drop-append_ge,
}
use wireguard_rs.Base.Fallible.{bind-eq_ok, ensure}
use wireguard_rs.Xchacha.Laws.{decrypt-encrypt, encrypt-eq_ok}
use wireguard_rs.Crates.{Crates}
use wireguard_rs.Crates.Laws.{CryptoLaws}
use wireguard_rs.Consts.{cookie_refresh_time}
use wireguard_rs.Message.{
  new_cookie_reply, set_receiver_index, reply_nonce, reply_cookie, reply_aead_tag,
  write_nonce_cookie,
}
use wireguard_rs.Xchacha.{encrypt}
use wireguard_rs.Cookie.{
  Validator, Generator, new_validator, new_generator, label_mac1, verify_mac1, verify_mac2,
  generate_reply, refresh_secret, encrypted_reply, opened_reply, consume_reply, build_macs,
  is_secret_valid,
}

-- What `nonce_cookie_mut` writes is read back.
module _ (nonce cookie tag base : Bytes) (n : length nonce ≡ 24) (c : length cookie ≡ 16)
    (t : length tag ≡ 16) (b : length base ≡ 64) where
  abbrev with_nonce : Bytes
  with_nonce = copy_at 8 nonce base

  abbrev with_cookie : Bytes
  with_cookie = copy_at 32 cookie with_nonce

  length-with_nonce : length with_nonce ≡ 64
  length-with_nonce = length-copy_at 8 nonce base (omega arith) ∙ b

  length-with_cookie : length with_cookie ≡ 64
  length-with_cookie =
      length-copy_at 32 cookie with_nonce (omega (arith, length-with_nonce)) ∙ length-with_nonce

  read_nonce : reply_nonce (write_nonce_cookie nonce cookie tag base) ≡ nonce
  read_nonce =
      slice-copy_at_before 48 8 32 tag with_cookie (omega arith) (omega arith)
        (omega (arith, length-with_cookie))
      ∙ slice-copy_at_before 32 8 32 cookie with_nonce (omega arith) (omega arith)
          (omega (arith, length-with_nonce))
      ∙ slice-copy_at_self 8 32 nonce base (omega arith) (omega arith)

  read_cookie : reply_cookie (write_nonce_cookie nonce cookie tag base) ≡ cookie
  read_cookie =
      slice-copy_at_before 48 32 48 tag with_cookie (omega arith) (omega arith)
        (omega (arith, length-with_cookie))
      ∙ slice-copy_at_self 32 48 cookie with_nonce (omega arith) (omega (arith, length-with_nonce))

  read_tag : reply_aead_tag (write_nonce_cookie nonce cookie tag base) ≡ tag
  read_tag =
      slice-copy_at_self 48 64 tag with_cookie (omega arith) (omega (arith, length-with_cookie))

length-set_receiver_index : (index : ℕ) → length (set_receiver_index index new_cookie_reply) ≡ 64
length-set_receiver_index index = refl

bytes_eq_refl : (a : Bytes) → bytes_eq a a ≡ true
bytes_eq_refl a = (bytes_eq_iff a a).1 refl

split_end :
    (xs ys : Bytes) (n : ℕ)
    → length ys ≡ n
    → (take (length (xs ++ ys) - n) (xs ++ ys) ≡ xs)
      × (drop (length (xs ++ ys) - n) (xs ++ ys) ≡ ys)
split_end xs ys n e =
    let at : length (xs ++ ys) - n ≡ length xs = omega (arith, length-append xs ys) in
    rw at (
      take-append_le xs ys (length xs) (omega arith) ∙ take_all xs (length xs) (omega arith),
      drop-append_ge xs ys (length xs) (omega arith)
          ∙ ap (λ (k : ℕ). drop k ys) {y = 0} (omega arith),
    )

module _ {N T : Type 0} (crates : Crates N T) where
  -- The validator of an interface accepts one `mac1` for a message, the one that a generator for the
  -- public key of the interface builds for it, and no other.
  pub verify_mac1-build_macs :
      (pub_key : Bytes) (now : ℕ) (input mac : Bytes)
      → (verify_mac1 crates (new_validator crates pub_key) input mac ≡ ok tt)
        ↔ (mac ≡ (build_macs crates now input (new_generator crates pub_key)).1)
  unfolding verify_mac1 build_macs new_validator new_generator
  verify_mac1-build_macs pub_key now input mac =
      let right = crates.blake2s 16 (crates.blake2s 32 [] (label_mac1 ++ pub_key)) input in
      (
        λ accepted. (bytes_eq_iff mac right).0 (passed (bytes_eq mac right) accepted),
        λ e. rw ((bytes_eq_iff mac right).1 e) refl,
      )
    where
      passed : (b : Bool) → ensure b Error.mac_mismatch ≡ ok tt → b ≡ true
      passed true h = refl
      passed false h = absurd (ground arith)

  encrypted_reply-eq_ok :
      (rand_nonce : Bytes) (sender : ℕ) (mac1 source : Bytes) (v : Validator) {reply : Bytes}
      → encrypted_reply crates rand_nonce sender mac1 source v ≡ ok reply
      → (sealed : Bytes × Bytes) × (encrypt crates v.mac2.key rand_nonce
            (crates.blake2s 16 v.mac2.secret source)
            mac1
            16
          ≡ ok sealed)
        × (write_nonce_cookie rand_nonce
              (sealed.0)
              (sealed.1)
              (set_receiver_index sender new_cookie_reply)
            ≡ reply)
  unfolding encrypted_reply
  encrypted_reply-eq_ok rand_nonce sender mac1 source v h =
      let (sealed, e, h') = bind-eq_ok _ _ h in (sealed, e, ground arith)

  refresh_secret-key :
      (now : ℕ) (fresh : Bytes) (v : Validator)
      → (refresh_secret crates now fresh v).mac2.key ≡ v.mac2.key
  unfolding refresh_secret
  refresh_secret-key now fresh v = ground arith

  -- The cookie that a reply carries.
  opened_reply-encrypted_reply :
      CryptoLaws crates
      → (v : Validator) (g : Generator) (rand_nonce : Bytes) (sender : ℕ)
        (mac1 source reply : Bytes)
      → v.mac2.key ≡ g.mac2.key
      → g.mac2.last_mac1 ≡ some mac1
      → length g.mac2.cookie ≡ 16
      → encrypted_reply crates rand_nonce sender mac1 source v ≡ ok reply
      → opened_reply crates reply g ≡ ok (crates.blake2s 16 v.mac2.secret source)
  unfolding opened_reply
  opened_reply-encrypted_reply laws v g rand_nonce sender mac1 source reply k l c h =
      let (sealed, e, w) = encrypted_reply-eq_ok rand_nonce sender mac1 source v h in
      let parts =
        encrypt-eq_ok crates v.mac2.key rand_nonce (crates.blake2s 16 v.mac2.secret source) mac1 16
          e in
      let nonce_24 = parts.1 in
      let cipher_16 =
        laws.length-cipher _ _ _ _ (sealed.0) (sealed.1) parts.3 ∙ laws.length-blake2s 16 _ _ in
      let tag_16 = laws.length-tag _ _ _ _ (sealed.0) (sealed.1) parts.3 in
      let base = set_receiver_index sender new_cookie_reply in
      rw (← w, l)
        (rw
          (
            read_nonce rand_nonce (sealed.0) (sealed.1) base nonce_24 cipher_16 tag_16 refl,
            read_cookie rand_nonce (sealed.0) (sealed.1) base nonce_24 cipher_16 tag_16 refl,
            read_tag rand_nonce (sealed.0) (sealed.1) base nonce_24 cipher_16 tag_16 refl,
            c,
            ← k,
          )
          (decrypt-encrypt crates laws v.mac2.key rand_nonce _ mac1 (sealed.0) (sealed.1) 16 e))

  verify_mac2-mac2 :
      CryptoLaws crates
      → (later : ℕ) (v : Validator) (body source : Bytes)
      → is_secret_valid later v.mac2.secret_time ≡ true
      → verify_mac2 crates later v
          (body ++ crates.blake2s 16 (crates.blake2s 16 v.mac2.secret source) body)
          source
        ≡ ok tt
  unfolding verify_mac2
  verify_mac2-mac2 laws later v body source valid =
      let tail = crates.blake2s 16 (crates.blake2s 16 v.mac2.secret source) body in
      let parts = split_end body tail 16 (laws.length-blake2s 16 _ _) in
      rw (parts.0, parts.1) (ground (arith, bytes_eq_refl tail))

  -- Where BLAKE2s and the AEAD keep their laws: a cookie that one side encrypts for the `mac1` that the other has sent is taken by it, and
  -- makes it add a `mac2` which the first side accepts from the same source, as long as neither the
  -- secret nor the cookie is older than `COOKIE_REFRESH_TIME`.
  pub verify_mac2-build_macs :
      CryptoLaws crates
      → (v : Validator) (g : Generator) (now later : ℕ) (fresh rand_nonce : Bytes) (sender : ℕ)
        (mac1 source reply message : Bytes)
      → v.mac2.key ≡ g.mac2.key
      → g.mac2.last_mac1 ≡ some mac1
      → length g.mac2.cookie ≡ 16
      → (generate_reply crates now fresh rand_nonce sender mac1 source v).1 ≡ ok reply
      → is_secret_valid later
          (generate_reply crates now fresh rand_nonce sender mac1 source v).0.mac2.secret_time
        ≡ true
      → later - now ≤ cookie_refresh_time
      → let v' = (generate_reply crates now fresh rand_nonce sender mac1 source v).0 in
        let consumed = consume_reply crates now reply g in
        let macs = build_macs crates later message consumed.0 in
        (consumed.1 ≡ ok tt)
        × (mac2 : Bytes) × (macs.2 ≡ some mac2)
        × (verify_mac2 crates later v' ((message ++ macs.1) ++ mac2) source ≡ ok tt)
  unfolding generate_reply consume_reply build_macs
  verify_mac2-build_macs laws v g now later fresh rand_nonce sender mac1 source reply message k l c
        h valid soon =
      let v' = refresh_secret crates now fresh v in
      let opened =
        opened_reply-encrypted_reply laws v' g rand_nonce sender mac1 source reply
          (refresh_secret-key now fresh v ∙ k) l c h in
      rw opened (
        refl,
        crates.blake2s 16 (crates.blake2s 16 v'.mac2.secret source)
            (message ++ crates.blake2s 16 g.mac1_key message),
        ground arith,
        verify_mac2-mac2 laws later v' (message ++ crates.blake2s 16 g.mac1_key message) source
            valid,
      )
