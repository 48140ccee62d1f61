-- ===== src/Xchacha/Laws.antt =====
-- src/xchacha20poly1305.rs: `decrypt` after `encrypt`.
use wireguard_rs.Base.{ℕ, ◌≡◌, ◌∙◌, ok, Bytes, length, take, arith}
use wireguard_rs.Crates.{Crates}
use wireguard_rs.Crates.Laws.{CryptoLaws}
use wireguard_rs.Xchacha.{encrypt, decrypt, hchacha20, derived_nonce}

module _ {N T : Type 0} (crates : Crates N T) where
  -- Encryption succeeds only with a key of 32 bytes, a nonce of 24 and an output as long as the input.
  pub encrypt-eq_ok :
      (key nonce input aad : Bytes) (out : ℕ) {sealed : Bytes × Bytes}
      → encrypt crates key nonce input aad out ≡ ok sealed
      → (length key ≡ 32)
        × (length nonce ≡ 24)
        × (out ≡ length input)
        × (crates.aead_encrypt (hchacha20 key (take 16 nonce)) (derived_nonce nonce) aad input
            ≡ ok sealed)
  unfolding encrypt
  encrypt-eq_ok key nonce input aad out h = ground arith

  pub decrypt-eq :
      (key nonce cipher aad tag : Bytes) (out : ℕ)
      → length key ≡ 32
      → length nonce ≡ 24
      → out ≡ length cipher
      → decrypt crates key nonce cipher aad tag out
        ≡ crates.aead_decrypt (hchacha20 key (take 16 nonce)) (derived_nonce nonce) aad cipher tag
  unfolding decrypt
  decrypt-eq key nonce cipher aad tag out k n o = ground arith

  -- Where the AEAD of the crate opens what it has sealed: whatever `encrypt` gives, `decrypt` turns back into the input, under the same key, nonce and
  -- associated data.
  pub decrypt-encrypt :
      CryptoLaws crates
      → (key nonce input aad cipher tag : Bytes) (out : ℕ)
      → encrypt crates key nonce input aad out ≡ ok (cipher, tag)
      → decrypt crates key nonce cipher aad tag out ≡ ok input
  decrypt-encrypt laws key nonce input aad cipher tag out h =
      let parts = encrypt-eq_ok key nonce input aad out h in
      decrypt-eq key nonce cipher aad tag out parts.0 parts.1
        (omega (arith, parts.2, laws.length-cipher _ _ _ _ _ _ parts.3))
      ∙ laws.opens _ _ _ _ _ _ parts.3
