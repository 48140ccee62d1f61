-- ===== src/Xchacha.antt =====
-- src/xchacha20poly1305.rs: HChaCha20, and XChaCha20-Poly1305 over the AEAD of a crate.
pub mod Laws
use wireguard_rs.Base.{
  ℕ, zero, suc, ◌+◌, ◌-◌, ◌*◌, ◌/◌, ◌%◌, ◌^◌, List, [], ◌∷◌, ◌++◌, bit_or, bit_xor, Result, ok, err,
  Error, Bytes, length, take, drop, to_le, from_le, replicate, copy_at, ◌==◌,
}
use wireguard_rs.Base.Fallible.{◌>>=◌, ◌>>◌, ensure}
use wireguard_rs.Crates.{Crates}

-- `Wrapping<u32>`
abbrev add32 : ℕ → ℕ → ℕ
add32 a b = (a + b) % 2 ^ 32

-- `(v << k) | (v >> (32 - k))`
abbrev rotate_left : ℕ → ℕ → ℕ
rotate_left v k = bit_or (v * 2 ^ k % 2 ^ 32) (v / 2 ^ (32 - k))

pub record Four : Type 0 where
  pub a : ℕ
  pub b : ℕ
  pub c : ℕ
  pub d : ℕ

-- The twelve lines on one column or diagonal.
quarter_round : Four → Four
quarter_round v =
    let a1 = add32 v.a v.b in
    let d1 = rotate_left (bit_xor v.d a1) 16 in
    let c1 = add32 v.c d1 in
    let b1 = rotate_left (bit_xor v.b c1) 12 in
    let a2 = add32 a1 b1 in
    let d2 = rotate_left (bit_xor d1 a2) 8 in
    let c2 = add32 c1 d2 in
    let b2 = rotate_left (bit_xor b1 c2) 7 in record { a = a2; b = b2; c = c2; d = d2 }

-- `v00` to `v15`, by columns: `col0` holds `v00 v04 v08 v12`.
pub record State : Type 0 where
  pub col0 : Four
  pub col1 : Four
  pub col2 : Four
  pub col3 : Four

double_round : State → State
unfolding quarter_round
double_round s =
    let p = quarter_round s.col0 in
    let q = quarter_round s.col1 in
    let r = quarter_round s.col2 in
    let t = quarter_round s.col3 in
    let w = quarter_round (record { a = p.a; b = q.b; c = r.c; d = t.d }) in
    let x = quarter_round (record { a = q.a; b = r.b; c = t.c; d = p.d }) in
    let y = quarter_round (record { a = r.a; b = t.b; c = p.c; d = q.d }) in
    let z = quarter_round (record { a = t.a; b = p.b; c = q.c; d = r.d }) in
    record {
      col0 = record { a = w.a; b = z.b; c = y.c; d = x.d };
      col1 = record { a = x.a; b = w.b; c = z.c; d = y.d };
      col2 = record { a = y.a; b = x.b; c = w.c; d = z.d };
      col3 = record { a = z.a; b = y.b; c = x.c; d = w.d };
    }

-- `while i < 20 { …; i += 2 }` has ten rounds.
rounds : ℕ → State → State
unfolding double_round
rounds zero s = s
rounds (suc left) s = rounds left (double_round s)

abbrev word_at : Bytes → ℕ → ℕ
word_at bytes at = from_le 4 (drop at bytes)

unfoldable pub hchacha20 : Bytes → Bytes → Bytes
unfolding rounds
hchacha20 key nonce =
    let s = rounds 10 (record {
      col0 = record { a = 0x61707865; b = word_at key 0; c = word_at key 16; d = word_at nonce 0 };
      col1 = record { a = 0x3320646e; b = word_at key 4; c = word_at key 20; d = word_at nonce 4 };
      col2 = record { a = 0x79622d32; b = word_at key 8; c = word_at key 24; d = word_at nonce 8 };
      col3 = record {
        a = 0x6b206574;
        b = word_at key 12;
        c = word_at key 28;
        d = word_at nonce 12;
      };
    }) in
    to_le 4 s.col0.a
    ++ (to_le 4 s.col1.a
        ++ (to_le 4 s.col2.a
            ++ (to_le 4 s.col3.a
                ++ (to_le 4 s.col0.d
                    ++ (to_le 4 s.col1.d ++ (to_le 4 s.col2.d ++ to_le 4 s.col3.d))))))

abbrev derived_nonce : Bytes → Bytes
derived_nonce nonce = copy_at 4 (drop 16 nonce) (replicate 12 0)

module _ {N T : Type 0} (crates : Crates N T) where
  -- `out` is the length of the output buffer; the result is what is written to it, and the tag.
  unfoldable pub encrypt : Bytes → Bytes → Bytes → Bytes → ℕ → Result (Bytes × Bytes)
  encrypt key nonce input aad out = do
    ensure (length key == 32) Error.wrong_key_len
    ensure (length nonce == 24) Error.wrong_nonce_len
    ensure (out == length input) Error.wrong_output_len
    let derived_key = hchacha20 key (take 16 nonce)
    crates.aead_encrypt derived_key (derived_nonce nonce) aad input

  unfoldable pub decrypt : Bytes → Bytes → Bytes → Bytes → Bytes → ℕ → Result Bytes
  decrypt key nonce input aad tag out = do
    ensure (length key == 32) Error.wrong_key_len
    ensure (length nonce == 24) Error.wrong_nonce_len
    ensure (out == length input) Error.wrong_output_len
    let derived_key = hchacha20 key (take 16 nonce)
    crates.aead_decrypt derived_key (derived_nonce nonce) aad input tag
