-- ===== src/Crates/Sample.antt =====
-- A toy choice of the third-party functions, which satisfies the laws. A session of snow is the number
-- of its next message; a ciphertext is the plaintext with 16 zeros behind it.
use wireguard_rs.Base.{
  ℕ, suc, ◌+◌, ◌-◌, ◌*◌, ◌%◌, ◌≤◌, ◌≡◌, refl, sym, ap, ◌∙◌, Bool, true, false, none, some, [], ◌∷◌,
  ◌++◌, Result, ok, err, Error, Bytes, length, take, replicate, leb, if◌then◌else◌, arith,
  length-append, length-replicate,
}
use wireguard_rs.Base.Copies.{take-append_le, take_all}
use wireguard_rs.Crates.{Crates}
use wireguard_rs.Crates.Laws.{CryptoLaws, NoiseLaws, Opens}

abbrev pub sample_key : Bytes
sample_key = replicate 32 7

abbrev sample_write : ℕ → Bytes → ℕ → ℕ × Result Bytes
sample_write n payload room =
    if leb (length payload + 16) room
    then (suc n, ok (payload ++ replicate 16 0))
    else (n, err Error.mac_mismatch)

-- Depends on the key and on the input.
abbrev sample_hash : ℕ → Bytes → Bytes → Bytes
sample_hash n key input = replicate n ((length key + 3 * length input) % 256)

abbrev pub sample : Crates ℕ ℕ
sample = record {
  build_initiator = λ private public psk. ok 0;
  build_responder = λ private. ok 0;
  set_psk = λ n at psk. (n, ok tt);
  write_message = sample_write;
  read_message = λ n bytes room. (n, ok (take (length bytes - 16) bytes));
  into_transport_mode = λ n. ok 0;
  is_handshake_finished = λ n. true;
  sending_nonce = λ n. ok n;
  set_receiving_nonce = λ n number. (n, ok tt);
  get_remote_static = λ n. some sample_key;
  blake2s = sample_hash;
  aead_encrypt = λ key nonce aad input. ok (input, replicate 16 0);
  aead_decrypt = λ key nonce aad cipher tag. ok cipher;
  generate_public = λ key. key;
  ipv4_packet = λ bytes. some (record {
    source = 10 ∷ 0 ∷ 0 ∷ 2 ∷ [];
    destination = 10 ∷ 0 ∷ 0 ∷ 1 ∷ [];
    total_length = length bytes;
  });
  ipv6_packet = λ bytes. none;
  empty_table = 0;
  table_insert = λ table addr mask peer. suc peer;
  table_remove = λ table addr mask. 0;
  longest_match = λ table addr. some table;
}

pub sample-CryptoLaws : CryptoLaws sample
sample-CryptoLaws = record {
  length-blake2s = λ n key input. length-replicate n _;
  opens = λ key nonce aad input cipher tag e. ground arith;
  length-cipher = λ key nonce aad input cipher tag e. ground arith;
  length-tag = λ key nonce aad input cipher tag e. ground arith;
}

pub sample-NoiseLaws : NoiseLaws sample
sample-NoiseLaws = record { fits = λ n payload room n' message e. fit n payload room n' message e }
  where
    fit :
        (n : ℕ) (payload : Bytes) (room n' : ℕ) (message : Bytes)
        → sample_write n payload room ≡ (n', ok message)
        → length message ≤ room
    fit n payload room n' message e = ground (arith, length-append payload (replicate 16 0))

pub sample-Opens : (sender receiver : ℕ) → Opens sample sender receiver
sample-Opens sender receiver = record {
  accepts = λ number. refl;
  decrypts = λ number plain message room space _ written _.
      opened plain message (leb (length plain + 16) room) written;
}
  where
    opened :
        (plain message : Bytes) (fits : Bool)
        → (let r : ℕ × Result Bytes =
              if fits
              then (suc sender, ok (plain ++ replicate 16 0))
              else (sender, err Error.mac_mismatch) in
            r.1 ≡ ok message)
        → ok (take (length message - 16) message) ≡ ok plain
    opened plain message true e = ap cut (sym e) ∙ ap ok restored
      where
        sealed : Bytes
        sealed = plain ++ replicate 16 0

        cut : Result Bytes → Result Bytes
        cut (ok m) = ok (take (length m - 16) m)
        cut (err f) = err f

        restored : take (length sealed - 16) sealed ≡ plain
        restored =
            ap (λ n. take n sealed)
              (omega (arith, length-append plain (replicate 16 0), length-replicate {A = ℕ} 16 0))
            ∙ take-append_le plain (replicate 16 0) (length plain) (omega arith)
            ∙ take_all plain (length plain) (omega arith)
    opened plain message false e = absurd (ground arith)
