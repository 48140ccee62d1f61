-- ===== src/Config/Framing.antt =====
-- src/interface/config.rs: `decode` on the bytes of a connection, command after command.
use wireguard_rs.Base.{
  ℕ, suc, ◌+◌, ◌≡◌, refl, sym, ap, ◌∙◌, Bool, true, false, ◌&&◌, Option, none, some, is_some, List,
  [], ◌∷◌, ◌++◌, Result, ok, err, Error, Bytes, length, drop, arith, if◌then◌else◌, Bool-cases, ◌⊎◌,
  inl, inr, ◌==◌, ==_iff,
}
use wireguard_rs.Base.Monad.{pure, next_step, ◌>>=◌, ◌>>◌}
use wireguard_rs.Config.{Command}
use wireguard_rs.Config.Text.{Formats, split, before_blank_line, is_utf8, starts_with, onto_blob}
use wireguard_rs.Config.Parser.{read_command}
use wireguard_rs.Config.Codec.{entries, decode, decode_blob, decode_text, decoded}

starts_with-true :
    (at : ℕ) (text : Bytes) → starts_with at text ≡ true → (more : Bytes) × (text ≡ at ∷ more)
starts_with-true at [] h = absurd (ground arith)
starts_with-true at (c ∷ cs) h = (cs, ground (arith, ==_iff c at))

-- What was found is a piece of the text with a blank line behind it.
before_blank_line-some :
    (text blob : Bytes)
    → before_blank_line text ≡ some blob
    → (more : Bytes) × (text ≡ blob ++ b'\n' ∷ b'\n' ∷ more)
unfolding before_blank_line
before_blank_line-some [] blob h = absurd (ground arith)
before_blank_line-some (c ∷ cs) blob h =
    found (Bool-cases (c == b'\n' && starts_with b'\n' cs)) (before_blank_line cs)
      (before_blank_line-some cs) h
  where
    found :
        (((c == b'\n' && starts_with b'\n' cs) ≡ true)
          ⊎ ((c == b'\n' && starts_with b'\n' cs) ≡ false))
        → (rest : Option Bytes)
        → ((b : Bytes) → rest ≡ some b → (more : Bytes) × (cs ≡ b ++ b'\n' ∷ b'\n' ∷ more))
        → (if c == b'\n' && starts_with b'\n' cs then some [] else onto_blob c rest) ≡ some blob
        → (more : Bytes) × (c ∷ cs ≡ blob ++ b'\n' ∷ b'\n' ∷ more)
    found (inl blank) rest later h =
        let (more, e) = starts_with-true b'\n' cs (ground arith) in
        (more, ground (arith, e, ==_iff c b'\n'))
    found (inr other) none later h = absurd (ground arith)
    found (inr other) (some b) later h = let (more, e) = later b refl in (more, ground (arith, e))

drop_past : (xs : Bytes) (y : ℕ) (ys : Bytes) → drop (suc (length xs)) (xs ++ y ∷ ys) ≡ ys
drop_past [] y ys = refl
drop_past (x ∷ xs) y ys = drop_past xs y ys

pub drop-append : (xs : Bytes) (y : ℕ) (ys : Bytes) → drop (length xs + 1) (xs ++ y ∷ ys) ≡ ys
drop-append xs y ys =
    let next : length xs + 1 ≡ suc (length xs) = omega arith in
    ap (λ n. drop n (xs ++ y ∷ ys)) next ∙ drop_past xs y ys

-- A text that starts with the end of a line starts with a line that is empty.
blank_first :
    (more blob : Bytes)
    → before_blank_line (b'\n' ∷ more) ≡ some blob
    → entries (split b'\n' blob) ≡ err Error.panicked
unfolding before_blank_line split entries
blank_first more [] h = refl
blank_first more (c ∷ blob) h = first (before_blank_line-some (b'\n' ∷ more) (c ∷ blob) h)
  where
    first :
        (rest : Bytes) × (b'\n' ∷ more ≡ c ∷ blob ++ b'\n' ∷ b'\n' ∷ rest)
        → entries (split b'\n' (c ∷ blob)) ≡ err Error.panicked
    first (rest, e) = ground (arith, e)

module _ (formats : Formats) where
  decoded-some :
      (blob buf rest : Bytes) (c : Command) (items : Result (List (Bytes × Bytes)))
      → decoded formats blob items buf ≡ (rest, ok (some c))
      → rest ≡ drop (length blob + 1) buf
  unfolding ◌>>=◌ ◌>>◌
  decoded-some blob buf rest c (err e) h = let e = ap (λ r. r.1) h in cc
  decoded-some blob buf rest c (ok items) h = command (read_command formats items) h
    where
      command :
          (r : Result Command)
          → next_step (drop (length blob + 1) buf, r) (λ command. pure (some command))
            ≡ (rest, ok (some c))
          → rest ≡ drop (length blob + 1) buf
      command (ok d) h = sym (ap (λ r. r.0) h)
      command (err e) h = let e = ap (λ r. r.1) h in cc

  decode-some :
      (buf rest : Bytes) (c : Command)
      → decode formats buf ≡ (rest, ok (some c))
      → (blob : Bytes) × (before_blank_line buf ≡ some blob) × (rest ≡ drop (length blob + 1) buf)
  unfolding decode
  decode-some buf rest c h = text (is_utf8 buf) (before_blank_line buf) refl h
    where
      text :
          (b : Bool) (found : Option Bytes)
          → before_blank_line buf ≡ found
          → decode_text formats b buf ≡ (rest, ok (some c))
          → (blob : Bytes) × (before_blank_line buf ≡ some blob)
            × (rest ≡ drop (length blob + 1) buf)
      text false found at h = let e = ap (λ r. r.1) h in cc
      text true none at h =
          let e = ap (λ r. r.1) (ap (λ f. decode_blob formats f buf) (sym at) ∙ h) in cc
      text true (some blob) at h = (
        blob,
        at,
        decoded-some blob buf rest c (entries (split b'\n' blob))
            (ap (λ f. decode_blob formats f buf) (sym at) ∙ h),
      )

  blank_panics :
      (text more : Bytes)
      → text ≡ b'\n' ∷ more
      → is_some (before_blank_line text) ≡ true
      → (decode formats text).1 ≡ err Error.panicked
  unfolding decode ◌>>=◌ ◌>>◌
  blank_panics text more starts complete =
      panics (is_utf8 text) (before_blank_line text) refl complete
    where
      lines :
          (items : Result (List (Bytes × Bytes))) (blob : Bytes)
          → items ≡ err Error.panicked
          → (decoded formats blob items text).1 ≡ err Error.panicked
      lines (ok items) blob h = absurd (ground arith)
      lines (err e) blob h = ground arith

      panics :
          (b : Bool) (found : Option Bytes)
          → before_blank_line text ≡ found
          → is_some found ≡ true
          → (decode_text formats b text).1 ≡ err Error.panicked
      panics false found at complete = refl
      panics true none at complete = absurd (ground arith)
      panics true (some blob) at complete =
          ap (λ f. (decode_blob formats f text).1) at
          ∙ lines (entries (split b'\n' blob)) blob
              (blank_first more blob (ap before_blank_line (sym starts) ∙ at))

  -- Once a command was decoded, the next complete one on the same connection makes the decoder panic,
  -- whatever it is.
  pub decode_next_panics :
      (buf rest extra : Bytes) (c : Command)
      → decode formats buf ≡ (rest, ok (some c))
      → is_some (before_blank_line (rest ++ extra)) ≡ true
      → (decode formats (rest ++ extra)).1 ≡ err Error.panicked
  decode_next_panics buf rest extra c h complete =
      let (blob, at, gone) = decode-some buf rest c h in
      let (more, found) = before_blank_line-some buf blob at in
      blank_panics (rest ++ extra) (more ++ extra)
        (ap (λ r. r ++ extra)
          (gone ∙ ap (drop (length blob + 1)) found ∙ drop-append blob b'\n' (b'\n' ∷ more)))
        complete
