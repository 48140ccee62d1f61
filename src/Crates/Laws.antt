-- ===== src/Crates/Laws.antt =====
-- What the program relies on of the third-party crates, as they document it.
use wireguard_rs.Base.{
  Bool, true, ℕ, ◌≡◌, ◌≤◌, Option, none, some, ok, Bytes, bytes_eq, length, if◌then◌else◌,
}
use wireguard_rs.Crates.{Crates}

-- BLAKE2s gives as many bytes as it is asked for. The AEAD opens what it has sealed, under the same
-- key, nonce and associated data; the ciphertext is as long as the input and the tag has 16 bytes.
pub record CryptoLaws {N T : Type 0} (crates : Crates N T) : Type 0 where
  pub length-blake2s : (n : ℕ) (key input : Bytes) → length (crates.blake2s n key input) ≡ n
  pub opens :
      (key nonce aad input : Bytes) (cipher tag : Bytes)
      → crates.aead_encrypt key nonce aad input ≡ ok (cipher, tag)
      → crates.aead_decrypt key nonce aad cipher tag ≡ ok input
  pub length-cipher :
      (key nonce aad input : Bytes) (cipher tag : Bytes)
      → crates.aead_encrypt key nonce aad input ≡ ok (cipher, tag)
      → length cipher ≡ length input
  pub length-tag :
      (key nonce aad input : Bytes) (cipher tag : Bytes)
      → crates.aead_encrypt key nonce aad input ≡ ok (cipher, tag)
      → length tag ≡ 16

-- snow writes no more than the buffer that it is given holds.
pub record NoiseLaws {N T : Type 0} (crates : Crates N T) : Type 0 where
  pub fits :
      (noise : N) (payload : Bytes) (room : ℕ) (noise' : N) (message : Bytes)
      → crates.write_message noise payload room ≡ (noise', ok message)
      → length message ≤ room

-- Two transport states of snow of which the second decrypts what the first encrypts, under the number
-- that the first gives it and in a buffer that holds the ciphertext.
pub record Opens {N T : Type 0} (crates : Crates N T) (sender receiver : N) : Type 0 where
  pub accepts : (number : ℕ) → (crates.set_receiving_nonce receiver number).1 ≡ ok tt
  pub decrypts :
      (number : ℕ) (plain message : Bytes) (room space : ℕ)
      → crates.sending_nonce sender ≡ ok number
      → (crates.write_message sender plain room).1 ≡ ok message
      → length message ≤ space
      → (crates.read_message (crates.set_receiving_nonce receiver number).0 message space).1
        ≡ ok plain

-- What treebitmap documents: a table maps networks to values. `net` is a network by its address and
-- the length of its mask, `exact` the value of a network, and a match is the value of some network that
-- holds the address.
pub record TableLaws {N T : Type 0} (crates : Crates N T) : Type 0 where
  pub net : Bytes → ℕ → Bytes
  pub exact : Bytes → T → Option ℕ
  pub holds : Bytes → Bytes → Bool
  pub exact-empty : (n : Bytes) → exact n crates.empty_table ≡ none
  pub exact-insert :
      (n : Bytes) (t : T) (ip : Bytes) (mask r : ℕ)
      → exact n (crates.table_insert t ip mask r)
        ≡ (if bytes_eq (net ip mask) n then some r else exact n t)
  pub exact-remove :
      (n : Bytes) (t : T) (ip : Bytes) (mask : ℕ)
      → exact n (crates.table_remove t ip mask)
        ≡ (if bytes_eq (net ip mask) n then none else exact n t)
  pub match_exact :
      (t : T) (ip : Bytes) (r : ℕ)
      → crates.longest_match t ip ≡ some r
      → (n : Bytes) × (exact n t ≡ some r) × (holds n ip ≡ true)
